-- ===== src/Broker/Shard.antt =====
-- src/broker/shard.rs: the life of a session on its shard. An `Instant` is a number of nanoseconds and
-- `Instant::now()` an argument; a mailbox is what its channel holds. What is sent to the parking task
-- is appended to `unpark`, the announcements of a change of membership to `announced`, for each
-- change once, and what goes to one peer shard to `control`. The senders themselves are left out.
pub mod Takeover
pub mod Marks
pub mod Upkeep
pub mod Tests
use rusquitto.Base.{
  ℕ, suc, ◌+◌, ◌*◌, ◌%◌, ◌^◌, Bool, true, false, not, ◌&&◌, Option, none, some, List, [], ◌∷◌, ◌++◌,
  ◌==◌, nat_eq, list_eq, if◌then◌else◌, ltb,
}
use rusquitto.Base.Text.{Bytes}
use rusquitto.Base.Assoc.{Assoc, get, insert, remove, contains_key}
use rusquitto.Broker.Messages.{
  Publish, SessionSnapshot, Delivery, SharedEvent, join, leave, MigratedSession, SessionControl,
}
use rusquitto.Topics.Trie.{Node, FlatSub, SubOptions, client_subscriptions, remove_client_rec}

-- `LocalSender<Delivery>`: the deliveries in the channel.
abbrev pub Mailbox : Type 0
Mailbox = List Delivery

pub record Session : Type 0 where
  pub mailbox : Option Mailbox
  pub expires_at : Option ℕ
  pub generation : ℕ
  pub snapshot : Option SessionSnapshot
  pub offline_queue : List Delivery
  pub pending_will : Option (Publish × ℕ)
  pub parked : Bool
  pub wake_pending : Bool

-- A `HashSet` of client ids.
abbrev pub IdSet : Type 0
IdSet = Assoc Bytes (Unit {0})

pub record WalPending : Type 0 where
  pub dirty : IdSet
  pub removed : IdSet

pub data UnparkCmd : Type 0 where
  wake : Bytes → UnparkCmd
  close : Bytes → ℕ → UnparkCmd

pub record ShardState : Type 0 where
  pub sessions : Assoc Bytes Session
  pub next_generation : ℕ
  pub trie : Node
  pub wal : Option WalPending
  pub unpark : List UnparkCmd
  pub announced : List SharedEvent
  pub retained : Assoc Bytes Publish
  pub retained_limit : ℕ
  pub shared_cursor : Assoc Bytes ℕ
  pub shared_remote : Assoc Bytes (List Bytes)
  pub pending_claims : Assoc Bytes (List (Option MigratedSession))
  pub control : List (ℕ × SessionControl)
  pub next_assigned : ℕ

pub record SessionHandle : Type 0 where
  pub resumed : Bool
  pub generation : ℕ
  pub snapshot : SessionSnapshot
  pub offline_queue : List Delivery

abbrev pub session_never_expires : ℕ
session_never_expires = 4294967295

abbrev pub nanos : ℕ
nanos = 1000000000

abbrev pub default_snapshot : SessionSnapshot
default_snapshot = record { inflight = []; incoming_qos2 = []; next_pkid = 0 }

-- The counter is a `u64`.
unfoldable pub next_assigned_id : ShardState → ShardState × ℕ
next_assigned_id st =
    (record st { next_assigned = (st.next_assigned + 1) % 2 ^ 64 }, st.next_assigned)

unfoldable pub dirty_mark : Bytes → WalPending → WalPending
dirty_mark c w = record { dirty = insert c tt w.dirty; removed = remove c w.removed }

unfoldable pub removed_mark : Bytes → WalPending → WalPending
removed_mark c w = record { dirty = remove c w.dirty; removed = insert c tt w.removed }

abbrev pub marked : (WalPending → WalPending) → Option WalPending → Option WalPending
marked f none = none
marked f (some w) = some (f w)

unfoldable pub wal_dirty : Bytes → ShardState → ShardState
wal_dirty c st = record st { wal = marked (dirty_mark c) st.wal }

unfoldable pub wal_removed : Bytes → ShardState → ShardState
wal_removed c st = record st { wal = marked (removed_mark c) st.wal }

-- The order of byte strings.
abbrev pub bytes_ltb : Bytes → Bytes → Bool
bytes_ltb [] [] = false
bytes_ltb [] (y ∷ ys) = true
bytes_ltb (x ∷ xs) [] = false
bytes_ltb (x ∷ xs) (y ∷ ys) =
    let rest = bytes_ltb xs ys in if ltb x y then true else if x == y then rest else false

-- `sort_unstable` and `dedup`, one group at a time.
abbrev pub group_insert : Bytes → List Bytes → List Bytes
group_insert g [] = g ∷ []
group_insert g (h ∷ hs) =
    let rest = group_insert g hs in
    if g == h then h ∷ hs else if bytes_ltb g h then g ∷ h ∷ hs else h ∷ rest

abbrev pub groups_in : List FlatSub → List Bytes
groups_in [] = []
groups_in (s ∷ ss) = elim s.share_group [
  | none ↦ groups_in ss
  | some g ↦ group_insert g (groups_in ss)
]

unfoldable pub shared_groups_of : Bytes → ShardState → List Bytes
shared_groups_of c st = groups_in (client_subscriptions c st.trie)

-- The loops of `broadcast_shared` over the groups of a client.
abbrev pub announce : (Bytes → SharedEvent) → List Bytes → ShardState → ShardState
announce f [] st = st
announce f (g ∷ gs) st = announce f gs (record st { announced = st.announced ++ f g ∷ [] })

abbrev pub joined : Bytes → List Bytes → ShardState → ShardState
joined c = announce (λ g. join g c)

abbrev pub left : Bytes → List Bytes → ShardState → ShardState
left c = announce (λ g. leave g c)

unfoldable pub signal_close_parked : Bytes → ShardState → ShardState
signal_close_parked c st = elim (get c st.sessions) [
  | none ↦ st
  | some s ↦
      if s.parked
      then record st {
        sessions = insert c (record s { parked = false; wake_pending = false }) st.sessions;
        unpark = st.unpark ++ close c s.generation ∷ [];
      }
      else st
]

abbrev pub snapshot_of : Option SessionSnapshot → SessionSnapshot
snapshot_of none = default_snapshot
snapshot_of (some x) = x

abbrev pub new_session : Mailbox → ℕ → Session
new_session mailbox generation = record {
  mailbox = some mailbox;
  expires_at = none;
  generation = generation;
  snapshot = none;
  offline_queue = [];
  pending_will = none;
  parked = false;
  wake_pending = false;
}

-- The end of `open_session` that starts a session afresh.
abbrev pub fresh : Bytes → Mailbox → ℕ → ShardState → ShardState × SessionHandle
fresh c mailbox generation st = (
  record st { sessions = insert c (new_session mailbox generation) st.sessions },
  record {
    resumed = false;
    generation = generation;
    snapshot = default_snapshot;
    offline_queue = [];
  },
)

-- Clean Start: what was there is discarded, with its subscriptions.
abbrev pub discarded : Bytes → ShardState → ShardState
discarded c st =
    if contains_key c st.sessions
    then wal_removed c
        (record st { sessions = remove c st.sessions; trie = remove_client_rec c st.trie })
    else st

-- The branch of `open_session` that finds a session to resume.
abbrev pub resumed_session : Bytes → Mailbox → ℕ → Session → ShardState → ShardState × SessionHandle
resumed_session c mailbox generation s st =
    let st' = record st {
      sessions =
          insert c
            (record s {
              mailbox = some mailbox;
              expires_at = none;
              generation = generation;
              parked = false;
              wake_pending = false;
              pending_will = none;
              snapshot = none;
              offline_queue = [];
            })
            st.sessions;
    } in
    (
      wal_removed c (joined c (shared_groups_of c st') st'),
      record {
        resumed = true;
        generation = generation;
        snapshot = snapshot_of s.snapshot;
        offline_queue = s.offline_queue;
      },
    )

abbrev pub resumes : Bytes → Mailbox → ℕ → ShardState → ShardState × SessionHandle
resumes c mailbox generation st = elim (get c st.sessions) [
  | none ↦ fresh c mailbox generation st
  | some s ↦ resumed_session c mailbox generation s st
]

-- The generation is a `u64`.
unfoldable pub open_session : Bytes → Mailbox → Bool → ShardState → ShardState × SessionHandle
open_session c mailbox clean_start st =
    let generation = (st.next_generation + 1) % 2 ^ 64 in
    let st1 = signal_close_parked c (record st { next_generation = generation }) in
    if clean_start
    then fresh c mailbox generation (discarded c st1)
    else resumes c mailbox generation st1

abbrev pub owns : ℕ → Session → Bool
owns generation s = s.generation == generation

abbrev pub is_live : Session → Bool
is_live s = elim s.mailbox [ none ↦ false | some m ↦ true ]

unfoldable pub park_session : Bytes → ℕ → SessionSnapshot → ShardState → ShardState × Bool
park_session c generation snapshot st = elim (get c st.sessions) [
  | none ↦ (st, false)
  | some s ↦
      if owns generation s && is_live s
      then (
        record st {
          sessions =
              insert c
                (record s {
                  mailbox = none;
                  parked = true;
                  wake_pending = false;
                  snapshot = some snapshot;
                  expires_at = none;
                })
                st.sessions;
        },
        true,
      )
      else (st, false)
]

unfoldable pub reattach_parked :
    Bytes → ℕ → Mailbox → ShardState → ShardState × Option (SessionSnapshot × List Delivery)
reattach_parked c generation mailbox st = elim (get c st.sessions) [
  | none ↦ (st, none)
  | some s ↦
      if owns generation s && s.parked
      then (
        record st {
          sessions =
              insert c
                (record s {
                  mailbox = some mailbox;
                  parked = false;
                  wake_pending = false;
                  snapshot = none;
                  offline_queue = [];
                })
                st.sessions;
        },
        some (snapshot_of s.snapshot, s.offline_queue),
      )
      else (st, none)
]

abbrev pub deadline : ℕ → ℕ → Option ℕ
deadline now expiry_secs =
    if expiry_secs == session_never_expires then none else some (now + expiry_secs * nanos)

-- A session that ends, and one that is kept for its expiry interval.
abbrev pub destroyed : Bytes → ShardState → ShardState
destroyed c st =
    wal_removed c
      (record st { sessions = remove c st.sessions; trie = remove_client_rec c st.trie })

unfoldable pub suspend_parked : Bytes → ℕ → ℕ → ℕ → ShardState → ShardState × Bool
suspend_parked c generation expiry_secs now st = elim (get c st.sessions) [
  | none ↦ (st, false)
  | some s ↦
      if owns generation s && s.parked
      then (
        left c (shared_groups_of c st) (
            if expiry_secs == 0
            then destroyed c st
            else wal_dirty c (record st {
              sessions =
                  insert c
                    (record s {
                      parked = false;
                      wake_pending = false;
                      expires_at = deadline now expiry_secs;
                    })
                    st.sessions;
            })),
        true,
      )
      else (st, false)
]

unfoldable pub close_session :
    Bytes → ℕ → ℕ → ℕ → SessionSnapshot → List Delivery → ShardState → ShardState × Bool
close_session c generation expiry_secs now snapshot pending st = elim (get c st.sessions) [
  | none ↦ (st, false)
  | some s ↦
      if owns generation s
      then (
        left c (shared_groups_of c st) (
            if expiry_secs == 0
            then destroyed c st
            else wal_dirty c (record st {
              sessions =
                  insert c
                    (record s {
                      mailbox = none;
                      snapshot = some snapshot;
                      offline_queue = pending ++ s.offline_queue;
                      expires_at = deadline now expiry_secs;
                    })
                    st.sessions;
            })),
        true,
      )
      else (st, false)
]
