-- ===== src/Broker/Shard/Upkeep.antt =====
-- src/broker/shard.rs: subscriptions, persistence and upkeep of the sessions. A session in the
-- table is visited in the order of the association list.
use rusquitto.Base.{
  ℕ, zero, suc, ◌+◌, ◌*◌, ◌/◌, ◌-◌, ◌%◌, ◌^◌, Bool, false, not, ◌&&◌, ◌||◌, Option, none, some,
  List, [], ◌∷◌, ◌++◌, ◌==◌, nat_eq, list_eq, option_eq, if◌then◌else◌, any, map, leb, ltb,
}
use rusquitto.Base.Text.{Bytes}
use rusquitto.Base.Assoc.{Assoc, get, insert}
use rusquitto.Broker.Messages.{Publish, MigratedSub, PersistedSession}
use rusquitto.Topics.Trie.{Node, FlatSub, SubOptions, client_subscriptions, remove_client_rec}
use rusquitto.Broker.Shard.{
  Session, ShardState, session_never_expires, nanos, snapshot_of, joined, left, owns, is_live,
  destroyed,
}

unfoldable pub holds_shared_group : Bytes → Bytes → ShardState → Bool
holds_shared_group c group st =
    any (λ s. s.share_group == some group) (client_subscriptions c st.trie)

abbrev pub group_list : Option Bytes → List Bytes
group_list none = []
group_list (some g) = g ∷ []

-- The join of a new shared subscription is announced.
unfoldable pub subscribe : Bytes → Bytes → SubOptions → ShardState → ShardState × Bool
subscribe filter c opts st =
    let (trie, is_new) = rusquitto.Topics.Trie.insert filter c opts st.trie in
    let st' = record st { trie = trie } in
    ((if is_new then joined c (group_list opts.share_group) st' else st'), is_new)

abbrev pub left_group : Bytes → Option Bytes → ShardState → ShardState
left_group c none st = st
left_group c (some g) st = if holds_shared_group c g st then st else left c (g ∷ []) st

unfoldable pub unsubscribe : Bytes → Bytes → Option Bytes → ShardState → ShardState × Bool
unsubscribe filter c group st =
    let (trie, removed) = rusquitto.Topics.Trie.remove filter c group st.trie in
    let st' = record st { trie = trie } in
    ((if removed then left_group c group st' else st'), removed)

abbrev without_mailboxes : Assoc Bytes Session → Assoc Bytes Session
without_mailboxes = map (λ e. (e.0, record e.1 { mailbox = none }))

unfoldable pub shutdown_connections : ShardState → ShardState
shutdown_connections st = record st { sessions = without_mailboxes st.sessions }

abbrev pub migrated_sub : FlatSub → MigratedSub
migrated_sub f = record {
  filter = f.filter;
  qos = f.qos;
  nolocal = f.nolocal;
  retain_as_published = f.retain_as_published;
  share_group = f.share_group;
  sub_id = f.sub_id;
}

-- The whole seconds that are left; `none` where none is. Subtraction stops at 0, as
-- `saturating_duration_since` does.
unfoldable pub remaining_secs : Option ℕ → ℕ → Option ℕ
remaining_secs none now = some session_never_expires
remaining_secs (some deadline) now =
    if (deadline - now) / nanos == 0
    then none
    else if ltb session_never_expires ((deadline - now) / nanos)
    then some session_never_expires
    else some ((deadline - now) / nanos)

abbrev persisted : Bytes → ℕ → Session → ShardState → PersistedSession
persisted c expiry_secs s st = record {
  client_id = c;
  expiry_secs = expiry_secs;
  session = record {
    subscriptions = map migrated_sub (client_subscriptions c st.trie);
    inflight = (snapshot_of s.snapshot).inflight;
    incoming_qos2 = (snapshot_of s.snapshot).incoming_qos2;
    next_pkid = (snapshot_of s.snapshot).next_pkid;
    offline = map (λ d. (d.publish, d.qos, d.retain, d.sub_ids)) s.offline_queue;
  };
}

unfoldable pub persist_one : Bytes → ℕ → ShardState → Option PersistedSession
persist_one c now st = elim (get c st.sessions) [
  | none ↦ none
  | some s ↦ if is_live s || s.parked then none else elim (remaining_secs s.expires_at now) [
    | none ↦ none
    | some expiry_secs ↦ some (persisted c expiry_secs s st)
  ]
]

abbrev somes : List (Option PersistedSession) → List PersistedSession
somes [] = []
somes (none ∷ xs) = somes xs
somes (some x ∷ xs) = x ∷ somes xs

unfoldable pub persist_sessions : ℕ → ShardState → List PersistedSession
persist_sessions now st = somes (map (λ e. persist_one e.0 now st) st.sessions)

unfoldable pub enable_wal : ShardState → ShardState
enable_wal st = record st {
  wal = elim st.wal [ none ↦ some (record { dirty = []; removed = [] }) | some w ↦ some w ];
}

-- The subscriptions of a session that is loaded; No Local is stripped from shared ones.
abbrev pub rearmed : Bytes → List MigratedSub → Node → Node
rearmed c [] root = root
rearmed c (s ∷ ss) root =
    rearmed c ss
      (rusquitto.Topics.Trie.insert s.filter c
        (record {
          qos = s.qos;
          nolocal = s.nolocal && s.share_group == none;
          retain_as_published = s.retain_as_published;
          share_group = s.share_group;
          sub_id = s.sub_id;
        })
        root).0

abbrev loaded : ℕ → ℕ → PersistedSession → Session
loaded generation now ps = record {
  mailbox = none;
  expires_at =
      if ps.expiry_secs == session_never_expires then none else some (now + ps.expiry_secs * nanos);
  generation = generation;
  snapshot = some (record {
    inflight = ps.session.inflight;
    incoming_qos2 = ps.session.incoming_qos2;
    next_pkid = ps.session.next_pkid;
  });
  offline_queue =
      map
        (λ (x : Publish × rusquitto.Protocol.Qos × Bool × List ℕ). record {
          publish = x.0;
          qos = x.1;
          retain = x.2;
          sub_ids = x.3;
        })
        ps.session.offline;
  pending_will = none;
  parked = false;
  wake_pending = false;
}

unfoldable pub load_sessions : List PersistedSession → ℕ → ShardState → ShardState
load_sessions [] now st = st
load_sessions (ps ∷ rest) now st =
    let generation = (st.next_generation + 1) % 2 ^ 64 in
    load_sessions rest now (record st {
      trie = rearmed ps.client_id ps.session.subscriptions st.trie;
      next_generation = generation;
      sessions = insert ps.client_id (loaded generation now ps) st.sessions;
    })

-- The loop of `shed_connections` over the sessions, with how many may still be shed.
unfoldable pub shed_loop : ℕ → Assoc Bytes Session → Assoc Bytes Session × ℕ
shed_loop zero es = (es, 0)
shed_loop (suc n) [] = ([], 0)
shed_loop (suc n) ((c, s) ∷ es) =
    let on = shed_loop n es in
    let over = shed_loop (suc n) es in
    if is_live s
    then ((c, record s { mailbox = none }) ∷ on.0, suc on.1)
    else ((c, s) ∷ over.0, over.1)

unfoldable pub shed_connections : ℕ → ShardState → ShardState × ℕ
shed_connections max st =
    let (es, shed) = shed_loop max st.sessions in (record st { sessions = es }, shed)

unfoldable pub arm_will : Bytes → ℕ → Publish → ℕ → ℕ → ShardState → ShardState
arm_will c generation will delay_secs now st = elim (get c st.sessions) [
  | none ↦ st
  | some s ↦
      if owns generation s
      then record st {
        sessions =
            insert c (record s { pending_will = some (will, now + delay_secs * nanos) })
              st.sessions;
      }
      else st
]

abbrev is_due : ℕ → Option (Publish × ℕ) → Bool
is_due now none = false
is_due now (some (will, due)) = leb due now

abbrev will_list : Option (Publish × ℕ) → List Publish
will_list none = []
will_list (some (will, due)) = will ∷ []

-- The first loop of `sweep_expired`: the wills that are due are taken out.
unfoldable pub fire_due : ℕ → Assoc Bytes Session → Assoc Bytes Session × List Publish
fire_due now [] = ([], [])
fire_due now ((c, s) ∷ es) =
    let rest = fire_due now es in
    if is_due now s.pending_will
    then ((c, record s { pending_will = none }) ∷ rest.0, will_list s.pending_will ++ rest.1)
    else ((c, s) ∷ rest.0, rest.1)

abbrev is_past : ℕ → Option ℕ → Bool
is_past now none = false
is_past now (some d) = leb d now

abbrev is_expired : ℕ → Session → Bool
is_expired now s = not (is_live s) && is_past now s.expires_at

abbrev expired_ids : ℕ → Assoc Bytes Session → List Bytes
expired_ids now [] = []
expired_ids now ((c, s) ∷ es) =
    let rest = expired_ids now es in if is_expired now s then c ∷ rest else rest

-- The last loop: each expired session is removed, and publishes a will that is still pending.
unfoldable pub expire_all : List Bytes → ShardState → ShardState × List Publish
expire_all [] st = (st, [])
expire_all (c ∷ cs) st = elim (get c st.sessions) [
  | none ↦ expire_all cs st
  | some s ↦
      let rest = expire_all cs (destroyed c st) in (rest.0, will_list s.pending_will ++ rest.1)
]

unfoldable pub sweep_expired : ℕ → ShardState → ShardState × List Publish
sweep_expired now st =
    let (es, due) = fire_due now st.sessions in
    let rest = expire_all (expired_ids now es) (record st { sessions = es }) in
    (rest.0, due ++ rest.1)
