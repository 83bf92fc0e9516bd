-- ===== src/Broker/Routing.antt =====
-- src/broker/shard/routing.rs: the table of retained messages and the fan-out of one publish. The
-- order of the clients and of the groups is that of an association list, where the code takes the
-- order of a `HashMap`. The keyed hash of the standard library is the parameter `hash`.
pub mod Best
pub mod Copy
pub mod Fanout
pub mod Queues
pub mod Shared
mod Tests
use rusquitto.Base.{
  ℕ, zero, suc, ◌+◌, ◌%◌, ◌^◌, Bool, true, false, not, ◌&&◌, ◌||◌, Option, none, some, List, [],
  ◌∷◌, ◌++◌, ◌==◌, nat_eq, list_eq, option_eq, if◌then◌else◌, length, ltb, leb, is_empty, any,
  retain, drop,
}
use rusquitto.Base.Text.{Bytes}
use rusquitto.Base.Assoc.{Assoc, get, insert, remove, contains_key}
use rusquitto.Protocol.{Qos, qos_num, min_qos, at_most_once, at_least_once, exactly_once}
use rusquitto.Topics.Filter.{filter_matches}
use rusquitto.Topics.Trie.{Subscription, matching}
use rusquitto.Broker.Messages.{Publish, Delivery, mailbox_limit, offline_queue_limit}
use rusquitto.Broker.Shard.{
  Mailbox, Session, ShardState, wake, marked, dirty_mark, is_live, group_insert,
}

-- A new topic is refused once the table is full; 0 is no limit.
abbrev pub refuses : Bytes → ShardState → Bool
refuses topic st =
    ltb 0 st.retained_limit
    && leb st.retained_limit (length st.retained)
    && not (contains_key topic st.retained)

unfoldable pub update_retain : Publish → ShardState → ShardState
update_retain p st =
    if is_empty p.payload
    then record st { retained = remove p.topic st.retained }
    else if refuses p.topic st
    then st
    else record st { retained = insert p.topic p st.retained }

abbrev pub values : Assoc Bytes Publish → List Publish
values [] = []
values ((topic, p) ∷ m) = p ∷ values m

unfoldable pub retained_matching : Bytes → ShardState → List Publish
retained_matching filter st = retain (λ p. filter_matches filter p.topic) (values st.retained)

unfoldable pub retained_messages : ShardState → List Publish
retained_messages st = values st.retained

unfoldable pub load_retained : List Publish → ShardState → ShardState
load_retained [] st = st
load_retained (p ∷ ps) st = load_retained ps (
    if is_empty p.payload || refuses p.topic st
    then st
    else record st { retained = insert p.topic p st.retained })

pub record Match : Type 0 where
  pub qos : Qos
  pub nolocal : Bool
  pub retain_as_published : Bool
  pub sub_ids : List ℕ

-- `entry(..).or_insert(..)`
abbrev pub entry_or : Subscription → Option Match → Match
entry_or sub none = record {
  qos = sub.qos;
  nolocal = sub.nolocal;
  retain_as_published = sub.retain_as_published;
  sub_ids = [];
}
entry_or sub (some m) = m

abbrev pub raised : Subscription → Match → Match
raised sub m =
    if ltb (qos_num m.qos) (qos_num sub.qos)
    then record m {
      qos = sub.qos;
      nolocal = sub.nolocal;
      retain_as_published = sub.retain_as_published;
    }
    else m

abbrev pub with_id : Option ℕ → Match → Match
with_id none m = m
with_id (some id) m =
    if any (λ x. x == id) m.sub_ids then m else record m { sub_ids = m.sub_ids ++ id ∷ [] }

unfoldable pub merge : Subscription → Option Match → Match
merge sub o = with_id sub.sub_id (raised sub (entry_or sub o))

abbrev pub Bucket : Type 0
Bucket = Assoc Bytes Match

abbrev pub into_bucket : Subscription → Bucket → Bucket
into_bucket sub b = insert sub.client_id (merge sub (get sub.client_id b)) b

abbrev pub bucket_or : Option Bucket → Bucket
bucket_or none = []
bucket_or (some b) = b

-- The loop that collapses the matches: the ordinary subscribers, and those of each group.
unfoldable pub collapse :
    List Subscription → Bucket → Assoc Bytes Bucket → Bucket × Assoc Bytes Bucket
collapse [] best groups = (best, groups)
collapse (sub ∷ subs) best groups = elim sub.share_group [
  | none ↦ collapse subs (into_bucket sub best) groups
  | some g ↦ collapse subs best (insert g (into_bucket sub (bucket_or (get g groups))) groups)
]

-- The queue of a session without a mailbox: the oldest delivery is dropped if it is full.
abbrev pub queued : Delivery → List Delivery → List Delivery
queued d ds = (if leb offline_queue_limit (length ds) then drop 1 ds else ds) ++ d ∷ []

abbrev pub is_qos0 : Qos → Bool
is_qos0 at_most_once = true
is_qos0 at_least_once = false
is_qos0 exactly_once = false

abbrev pub put_session : Bytes → Session → ShardState → ShardState
put_session c s st = record st { sessions = insert c s st.sessions }

-- The branches of `deliver_to` on the mailbox of the session.
unfoldable pub deliver_at : Bytes → Delivery → Session → Option Mailbox → ShardState → ShardState
deliver_at c d s (some mailbox) st =
    if ltb (length mailbox) mailbox_limit
    then put_session c (record s { mailbox = some (mailbox ++ d ∷ []) }) st
    else st
deliver_at c d s none st =
    let s' = record s { offline_queue = queued d s.offline_queue } in
    if s.parked
    then (if s.wake_pending
        then put_session c s' st
        else record (put_session c (record s' { wake_pending = true }) st) {
          unpark = st.unpark ++ wake c ∷ [];
        })
    else if is_qos0 d.qos
    then st
    else record (put_session c s' st) { wal = marked (dirty_mark c) st.wal }

unfoldable pub deliver_to : Bytes → Delivery → ShardState → ShardState
deliver_to c d st = elim (get c st.sessions) [ none ↦ st | some s ↦ deliver_at c d s s.mailbox st ]

abbrev pub delivery_for : Publish → Bool → Match → Delivery
delivery_for p was_retained m = record {
  publish = p;
  qos = min_qos p.qos m.qos;
  retain = was_retained && m.retain_as_published;
  sub_ids = m.sub_ids;
}

-- The loop over the ordinary subscribers, with No Local.
unfoldable pub deliver_best : Publish → Option Bytes → Bool → Bucket → ShardState → ShardState
deliver_best p publisher was_retained [] st = st
deliver_best p publisher was_retained ((c, m) ∷ best) st =
    deliver_best p publisher was_retained best (
      if m.nolocal && publisher == some c
      then st
      else deliver_to c (delivery_for p was_retained m) st)

-- Sorting with `dedup`, one element at a time.
abbrev pub sort_ids : List Bytes → List Bytes
sort_ids [] = []
sort_ids (x ∷ xs) = group_insert x (sort_ids xs)

abbrev pub keys : Bucket → List Bytes
keys [] = []
keys ((c, m) ∷ b) = c ∷ keys b

abbrev pub nth : {A : Type 0} → ℕ → List A → Option A
nth n [] = none
nth zero (x ∷ xs) = some x
nth (suc n) (x ∷ xs) = nth n xs

abbrev pub is_online : ShardState → Bytes → Bool
is_online st id = elim (get id st.sessions) [ none ↦ false | some s ↦ is_live s || s.parked ]

abbrev pub remote_of : Option (List Bytes) → List Bytes
remote_of none = []
remote_of (some ids) = ids

abbrev pub cursor_of : Option ℕ → ℕ
cursor_of none = 0
cursor_of (some n) = n

module _ (hash : Bytes → Bytes → ℕ) where
  unfoldable pub shared_pick_index : Bytes → Bytes → ℕ → ℕ
  shared_pick_index topic payload members = hash topic payload % members

  -- The choice over the merged view of the members that are connected anywhere, and whether it is
  -- one of this shard's.
  unfoldable pub choice : Publish → List Bytes → List Bytes → Option Bytes
  choice p online remote =
      let view = sort_ids (online ++ remote) in
      nth (shared_pick_index p.topic p.payload (length view)) view

  unfoldable pub global_pick : Publish → List Bytes → List Bytes → Option Bytes
  global_pick p online remote = elim (choice p online remote) [
    | none ↦ none
    | some id ↦ if any (λ x. x == id) online then some id else none
  ]

  -- The member that gets the message, and the state after the cursor of a local group is advanced.
  unfoldable pub pick : Publish → Bytes → List Bytes → ShardState → Option Bytes × ShardState
  pick p group ids st =
      let online = retain (is_online st) ids in
      let remote = remote_of (get group st.shared_remote) in
      let pool = if is_empty online then ids else online in
      let cursor = cursor_of (get group st.shared_cursor) in
      if is_empty remote
      then (
        nth (cursor % length pool) pool,
        record st { shared_cursor = insert group ((cursor + 1) % 2 ^ 64) st.shared_cursor },
      )
      else (global_pick p online remote, st)

  abbrev pub deliver_picked : Publish → Bool → Bucket → Option Bytes × ShardState → ShardState
  deliver_picked p was_retained members (none, st) = st
  deliver_picked p was_retained members (some c, st) = elim (get c members) [
    | none ↦ st
    | some m ↦ deliver_to c (delivery_for p was_retained m) st
  ]

  -- The loop over the groups: one member of each.
  unfoldable pub deliver_groups : Publish → Bool → Assoc Bytes Bucket → ShardState → ShardState
  deliver_groups p was_retained [] st = st
  deliver_groups p was_retained ((group, members) ∷ groups) st =
      deliver_groups p was_retained groups (
        if is_empty members
        then st
        else deliver_picked p was_retained members (pick p group (sort_ids (keys members)) st))

  unfoldable pub route : Publish → Option Bytes → Bool → ShardState → ShardState
  route p publisher was_retained st =
      let (best, groups) = collapse (matching p.topic st.trie) [] [] in
      deliver_groups p was_retained groups (deliver_best p publisher was_retained best st)

  unfoldable pub deliver_local : Publish → Option Bytes → ShardState → ShardState
  deliver_local p publisher st =
      route (record p { retain = false }) publisher p.retain
        (if p.retain then update_retain p st else st)
