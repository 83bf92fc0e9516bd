-- ===== src/Broker/Mesh.antt =====
-- src/broker/shard/mesh.rs: what a shard says to its peers. The senders are left out: `mesh` is
-- this shard's number with the number of shards, and a message to a peer is appended to `control`,
-- from where the control task sends it.
pub mod Migration
pub mod Members
mod Tests
use rusquitto.Base.{
  ℕ, zero, suc, ◌-◌, Bool, true, false, not, ◌&&◌, Option, none, some, List, [], ◌∷◌, ◌++◌, ◌==◌,
  nat_eq, list_eq, option_eq, if◌then◌else◌, map, is_empty, retain,
}
use rusquitto.Base.Text.{Bytes}
use rusquitto.Base.Assoc.{Assoc, get, insert, remove}
use rusquitto.Protocol.{Qos}
use rusquitto.Topics.Trie.{take_client, remove_client_rec}
use rusquitto.Broker.Messages.{
  Publish, SessionSnapshot, Delivery, MigratedSession, SharedEvent, join, leave, SessionControl,
  claim, handoff,
}
use rusquitto.Broker.Shard.{
  Session, ShardState, is_live, snapshot_of, wal_removed, shared_groups_of, signal_close_parked,
  joined, group_insert,
}
use rusquitto.Broker.Shard.Upkeep.{migrated_sub, rearmed}

-- This shard's peer id, and the number of shards.
abbrev pub Peers : Type 0
Peers = ℕ × ℕ

abbrev pub enqueue_control : ℕ → SessionControl → ShardState → ShardState
enqueue_control peer msg st = record st { control = st.control ++ (peer, msg) ∷ [] }

-- The loop over the first `n` shards but this one, in ascending order.
unfoldable pub others : ℕ → ℕ → List ℕ
others me zero = []
others me (suc n) = let rest = others me n in if n == me then rest else rest ++ n ∷ []

-- `broadcast`: the messages that are tried, for `try_send_to` drops them where a link is full.
unfoldable pub broadcast : Option Peers → Publish → List (ℕ × Publish)
broadcast none p = []
broadcast (some (me, n)) p = map (λ idx. (idx, p)) (others me n)

unfoldable pub mesh_peers : Option Peers → ℕ
mesh_peers none = 0
mesh_peers (some (me, n)) = n - 1

abbrev pub enqueue_all : List ℕ → SessionControl → ShardState → ShardState
enqueue_all [] msg st = st
enqueue_all (idx ∷ ids) msg st = enqueue_all ids msg (enqueue_control idx msg st)

unfoldable pub broadcast_claim : Option Peers → Bytes → Bool → ShardState → ShardState
broadcast_claim none c resume st = st
broadcast_claim (some (me, n)) c resume st = enqueue_all (others me n) (claim c me resume) st

-- A `BTreeSet` is its elements in ascending order.
abbrev pub members_or : Option (List Bytes) → List Bytes
members_or none = []
members_or (some ids) = ids

abbrev pub without : Bytes → List Bytes → List Bytes
without c = retain (λ x. not (x == c))

unfoldable pub apply_shared_event : SharedEvent → ShardState → ShardState
apply_shared_event (join group c) st = record st {
  shared_remote =
      insert group (group_insert c (members_or (get group st.shared_remote))) st.shared_remote;
}
apply_shared_event (leave group c) st = elim (get group st.shared_remote) [
  | none ↦ st
  | some ids ↦
      let rest = without c ids in
      record st {
        shared_remote =
            if is_empty rest
            then remove group st.shared_remote
            else insert group rest st.shared_remote;
      }
]

-- A claim that a handler of CONNECT waits for, with the answers that its channel holds.
unfoldable pub register_claim : Bytes → ShardState → ShardState
register_claim c st = record st { pending_claims = insert c [] st.pending_claims }

unfoldable pub unregister_claim : Bytes → ShardState → ShardState
unregister_claim c st = record st { pending_claims = remove c st.pending_claims }

abbrev pub offline_of : Delivery → Publish × Qos × Bool × List ℕ
offline_of d = (d.publish, d.qos, d.retain, d.sub_ids)

abbrev pub delivery_of : Publish × Qos × Bool × List ℕ → Delivery
delivery_of (p, q, r, ids) = record { publish = p; qos = q; retain = r; sub_ids = ids }

-- The session is there: the caller has looked it up.
unfoldable pub extract_session : Bytes → Session → ShardState → ShardState × MigratedSession
extract_session c s st =
    let (trie, subs) = take_client c st.trie in
    let snapshot = snapshot_of s.snapshot in
    (
      record st { trie = trie; sessions = remove c st.sessions },
      record {
        subscriptions = map migrated_sub subs;
        inflight = snapshot.inflight;
        incoming_qos2 = snapshot.incoming_qos2;
        next_pkid = snapshot.next_pkid;
        offline = map offline_of s.offline_queue;
      },
    )

-- The `match` of `handle_claim` on the session that is found.
unfoldable pub claimed :
    Bytes → Bool → Option Session → ShardState → ShardState × Option MigratedSession
claimed c resume none st = (st, none)
claimed c resume (some s) st =
    if not (is_live s) && resume
    then (let (st', migrated) = extract_session c s st in (wal_removed c st', some migrated))
    else (
      wal_removed c
          (record st { sessions = remove c st.sessions; trie = remove_client_rec c st.trie }),
      none,
    )

unfoldable pub handle_claim : Bytes → ℕ → Bool → ShardState → ShardState
handle_claim c requester resume st =
    let st1 = signal_close_parked c st in
    let (st2, session) = claimed c resume (get c st1.sessions) st1 in
    enqueue_control requester (handoff c session) st2

unfoldable pub on_control : SessionControl → ShardState → ShardState
on_control (claim c requester resume) st = handle_claim c requester resume st
on_control (handoff c session) st = elim (get c st.pending_claims) [
  | none ↦ st
  | some answers ↦ record st {
    pending_claims = insert c (answers ++ session ∷ []) st.pending_claims;
  }
]

unfoldable pub install_migrated :
    Bytes → MigratedSession → ShardState → ShardState × (SessionSnapshot × List Delivery)
install_migrated c m st =
    let st' = record st { trie = rearmed c m.subscriptions st.trie } in
    (
      joined c (shared_groups_of c st') st',
      (
        record { inflight = m.inflight; incoming_qos2 = m.incoming_qos2; next_pkid = m.next_pkid },
        map delivery_of m.offline,
      ),
    )
