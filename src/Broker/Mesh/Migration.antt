-- ===== src/Broker/Mesh/Migration.antt =====
-- A session that moves from one shard to another, and what a discarded one leaves behind.
use rusquitto.Base.{
  ℕ, ◌+◌, ◌%◌, ◌^◌, ◌≡◌, refl, sym, ◌∙◌, ap, ap₂, subst, inl, inr, true, false, ◌&&◌, none, some,
  List, [], ◌∷◌, ◌++◌, ◌==◌, nat_eq, list_eq, option_eq, if◌then◌else◌, map, retain, retain-retain,
  retain_none, All, Perm, arith, Bool-cases, Option-cases,
}
use rusquitto.Base.Text.{Bytes, split}
use rusquitto.Base.Assoc.{get, remove, get-insert_self, get-remove_self}
use rusquitto.Protocol.{valid_levels}
use rusquitto.Topics.Trie.{Node, FlatSub, client_subscriptions, remove_client_rec}
use rusquitto.Topics.Trie.View.{entries}
use rusquitto.Topics.Trie.Clients.{
  is_of, not_of, flat_at, take_client_lem, client_subscriptions_lem, entries-remove_client,
}
use rusquitto.Topics.Trie.History.{Call, inserts, step, run, listed, IsValid, IsRoot, run-listed}
use rusquitto.Broker.Messages.{Delivery, MigratedSession, handoff}
use rusquitto.Broker.Shard.{
  Mailbox, Session, ShardState, is_live, snapshot_of, shared_groups_of, signal_close_parked,
  wal_removed, open_session, joined, discarded,
}
use rusquitto.Broker.Shard.Upkeep.{migrated_sub, rearmed}
use rusquitto.Broker.Mesh.{
  extract_session, claimed, handle_claim, install_migrated, offline_of, delivery_of,
}

map-delivery_of : (ds : List Delivery) → map delivery_of (map offline_of ds) ≡ ds
map-delivery_of [] = refl
map-delivery_of (d ∷ ds) = ap (◌∷◌ d) (map-delivery_of ds)

-- The options under which a subscription is armed again.
abbrev pub rearm_call : Bytes → FlatSub → Call
rearm_call c f = inserts f.filter c (record {
  qos = f.qos;
  nolocal = f.nolocal && f.share_group == none;
  retain_as_published = f.retain_as_published;
  share_group = f.share_group;
  sub_id = f.sub_id;
})

rearmed-run :
    (c : Bytes) (fs : List FlatSub) (root : Node)
    → rearmed c (map migrated_sub fs) root ≡ run (map (rearm_call c) fs) root
unfolding run step
rearmed-run c [] root = refl
rearmed-run c (f ∷ fs) root = rearmed-run c fs _

-- Its filters are those that a client may subscribe to.
abbrev pub IsRearmable : FlatSub → Type 0
IsRearmable f = valid_levels (split f.filter) ≡ true

rearmable-IsValid :
    (c : Bytes) (fs : List FlatSub) → All IsRearmable fs → All IsValid (map (rearm_call c) fs)
rearmable-IsValid c [] h = tt
rearmable-IsValid c (f ∷ fs) (h, hs) = (h, rearmable-IsValid c fs hs)

-- The session that `handle_claim` finds after it has closed a parked connection.
abbrev awake : Session → Session
awake s = if s.parked then record s { parked = false; wake_pending = false } else s

signal_close_parked-get :
    (c : Bytes) (s : Session) (st : ShardState)
    → get c st.sessions ≡ some s
    → get c (signal_close_parked c st).sessions ≡ some (awake s)
unfolding signal_close_parked
signal_close_parked-get c s st e = elim (Bool-cases s.parked) [
  | inl p ↦
      simp (signal_close_parked, e, p)
        (get-insert_self c (record s { parked = false; wake_pending = false }) st.sessions)
  | inr p ↦ ground arith
]

signal_close_parked-trie :
    (c : Bytes) (st : ShardState)
    → ((signal_close_parked c st).trie ≡ st.trie)
      × ((signal_close_parked c st).control ≡ st.control)
      × ((signal_close_parked c st).announced ≡ st.announced)
unfolding signal_close_parked
signal_close_parked-trie c st = elim (Option-cases (get c st.sessions)) [
  | inl e ↦ simp (signal_close_parked, e) (refl, refl, refl)
  | inr (s, e) ↦ elim (Bool-cases s.parked) [
    | inl p ↦ simp (signal_close_parked, e, p) (refl, refl, refl)
    | inr p ↦ simp (signal_close_parked, e, p) (refl, refl, refl)
  ]
]

-- What is sent for a session without a live connection.
abbrev pub packed : Bytes → Session → Node → MigratedSession
packed c s trie = record {
  subscriptions = map migrated_sub (client_subscriptions c trie);
  inflight = (snapshot_of s.snapshot).inflight;
  incoming_qos2 = (snapshot_of s.snapshot).incoming_qos2;
  next_pkid = (snapshot_of s.snapshot).next_pkid;
  offline = map offline_of s.offline_queue;
}

claimed-packed :
    (c : Bytes) (s : Session) (st : ShardState)
    → is_live s ≡ false
    → claimed c true (some s) st ≡ (
      wal_removed c
          (record st { trie = remove_client_rec c st.trie; sessions = remove c st.sessions }),
      some (packed c s st.trie),
    )
unfolding claimed extract_session
claimed-packed c s st l = simp (l, take_client_lem c st.trie) refl

awake-packed :
    (c : Bytes) (s : Session) (t : Node)
    → (packed c (awake s) t ≡ packed c s t) × (is_live (awake s) ≡ is_live s)
awake-packed c s t = elim (Bool-cases s.parked) [
  | inl p ↦ simp (awake, p) (refl, refl)
  | inr p ↦ simp (awake, p) (refl, refl)
]

-- A claim to resume a session without a live connection.
handle_claim-packed :
    (c : Bytes) (requester : ℕ) (s : Session) (st : ShardState)
    → get c st.sessions ≡ some s
    → is_live s ≡ false
    → ((handle_claim c requester true st).control
        ≡ st.control ++ (requester, handoff c (some (packed c s st.trie))) ∷ [])
      × (get c (handle_claim c requester true st).sessions ≡ none)
      × ((handle_claim c requester true st).trie ≡ remove_client_rec c st.trie)
unfolding handle_claim wal_removed
handle_claim-packed c requester s st e l =
    let st1 = signal_close_parked c st in
    let (same, sent, _) = signal_close_parked-trie c st in
    let (pack, live) = awake-packed c s st.trie in
    let q =
      ap (λ o. claimed c true o st1) (signal_close_parked-get c s st e)
      ∙ claimed-packed c (awake s) st1 (live ∙ l) in
    (
      ap (λ x. x.0.control ++ (requester, handoff c x.1) ∷ []) q
          ∙ ap₂ (λ l m. l ++ (requester, handoff c (some m)) ∷ []) sent
              (ap (packed c (awake s)) same ∙ pack),
      ap (λ x. get c x.0.sessions) q ∙ get-remove_self c st1.sessions,
      ap (λ x. x.0.trie) q ∙ ap (remove_client_rec c) same,
    )

joined-trie : (c : Bytes) (gs : List Bytes) (st : ShardState) → (joined c gs st).trie ≡ st.trie
joined-trie c [] st = refl
joined-trie c (g ∷ gs) st = joined-trie c gs _

-- A session without a live connection that a peer claims, to resume it, moves whole: the peer is
-- sent one answer, and what the peer installs from it is the state that was left, the queue in
-- order, and the client's subscriptions, armed one by one in the order of their listing with No
-- Local stripped from the shared ones. The first shard keeps neither the session nor any of the
-- client's subscriptions, and all those of the others. The peer's trie is to be well formed, and
-- the filters to have valid levels.
pub install_migrated-handle_claim :
    (c : Bytes) (requester : ℕ) (s : Session) (st peer : ShardState)
    → get c st.sessions ≡ some s
    → is_live s ≡ false
    → IsRoot peer.trie
    → All IsRearmable (client_subscriptions c st.trie)
    → (m : MigratedSession) × ((handle_claim c requester true st).control
        ≡ st.control ++ (requester, handoff c (some m)) ∷ [])
      × (get c (handle_claim c requester true st).sessions ≡ none)
      × (entries (handle_claim c requester true st).trie ≡ retain (not_of c) (entries st.trie))
      × ((install_migrated c m peer).1 ≡ (snapshot_of s.snapshot, s.offline_queue))
      × Perm
          (entries (install_migrated c m peer).0.trie)
          (listed (map (rearm_call c) (client_subscriptions c st.trie)) (entries peer.trie))
unfolding install_migrated
install_migrated-handle_claim c requester s st peer e l root v =
    let (sent, gone, trie) = handle_claim-packed c requester s st e l in
    let subs = client_subscriptions c st.trie in
    let armed =
      joined-trie c
        (shared_groups_of c (record peer { trie = rearmed c (map migrated_sub subs) peer.trie }))
        (record peer { trie = rearmed c (map migrated_sub subs) peer.trie })
      ∙ rearmed-run c subs peer.trie in
    (
      packed c s st.trie,
      sent,
      gone,
      ap entries trie ∙ entries-remove_client c st.trie,
      ap (λ ds. (snapshot_of s.snapshot, ds)) (map-delivery_of s.offline_queue),
      subst (λ t. Perm (entries t) (listed (map (rearm_call c) subs) (entries peer.trie)))
          (sym armed)
          (run-listed (map (rearm_call c) subs) peer.trie (rearmable-IsValid c subs v) root),
    )

-- Removing a client leaves none of its subscriptions.
client_subscriptions-remove_client :
    (c : Bytes) (root : Node) → client_subscriptions c (remove_client_rec c root) ≡ []
client_subscriptions-remove_client c root =
    client_subscriptions_lem c (remove_client_rec c root)
    ∙ ap (λ es. map (flat_at []) (retain (is_of c) es)) (entries-remove_client c root)
    ∙ ap (map (flat_at [])) (
        retain-retain (is_of c) (not_of c) (entries root)
        ∙ retain_none (λ e. not_of c e && is_of c e) (λ e. ground arith) (entries root))

discarded-some :
    (c : Bytes) (s : Session) (st : ShardState)
    → get c st.sessions ≡ some s
    → ((discarded c st).trie ≡ remove_client_rec c st.trie)
      × ((discarded c st).announced ≡ st.announced)
unfolding wal_removed
discarded-some c s st e = (ground arith, ground arith)

-- A Clean Start over a session that is there, connected or not, drops all of the client's
-- subscriptions, those in shared groups too, and announces nothing to the peers.
pub open_session-clean :
    (c : Bytes) (mailbox : Mailbox) (s : Session) (st : ShardState)
    → get c st.sessions ≡ some s
    → (client_subscriptions c (open_session c mailbox true st).0.trie ≡ [])
      × ((open_session c mailbox true st).0.announced ≡ st.announced)
unfolding open_session wal_removed
open_session-clean c mailbox s st e =
    let st0 = record st { next_generation = (st.next_generation + 1) % 2 ^ 64 } in
    let st1 = signal_close_parked c st0 in
    let (trie, quiet) = discarded-some c (awake s) st1 (signal_close_parked-get c s st0 e) in
    let (_, _, silent) = signal_close_parked-trie c st0 in
    (
      ap (client_subscriptions c) trie ∙ client_subscriptions-remove_client c st1.trie,
      quiet ∙ silent,
    )
