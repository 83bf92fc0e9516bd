-- ===== src/Broker/Routing/Queues.antt =====
-- The bounds that fan-out keeps: mailboxes, offline queues, and the table of retained messages.
use rusquitto.Base.{
  ℕ, ◌≤◌, ◌<◌, ◌≡◌, inl, inr, refl, sym, ◌∙◌, subst, ap, Bool, true, false, ◌&&◌, Option, none,
  some, List, [], ◌∷◌, ◌==◌, nat_eq, list_eq, option_eq, length, length-append, leb, ltb, arith,
  Bool-cases, Option-cases, is_empty,
}
use rusquitto.Base.Text.{Bytes}
use rusquitto.Base.Assoc.{Assoc, get, length-insert, length-remove_le}
use rusquitto.Topics.Trie.{matching}
use rusquitto.Broker.Messages.{Publish, Delivery, mailbox_limit, offline_queue_limit}
use rusquitto.Broker.Shard.{Mailbox, Session, ShardState}
use rusquitto.Broker.Routing.{
  Bucket, collapse, queued, is_qos0, refuses, update_retain, deliver_at, deliver_to, delivery_for,
  deliver_best, sort_ids, keys, pick, deliver_picked, deliver_groups, route, deliver_local,
  remote_of,
}
use rusquitto.Broker.Routing.Fanout.{received, deliver_to-get}

abbrev pub mailbox_length : Option Mailbox → ℕ
mailbox_length none = 0
mailbox_length (some ds) = length ds

abbrev pub IsWithin : Session → Type 0
IsWithin s =
    (mailbox_length s.mailbox ≤ mailbox_limit) × (length s.offline_queue ≤ offline_queue_limit)

abbrev pub AreWithin : ShardState → Type 0
AreWithin st = (c : Bytes) (s : Session) → get c st.sessions ≡ some s → IsWithin s

-- With a limit, the table of retained messages is no longer than it.
abbrev pub IsRetainedWithin : ShardState → Type 0
IsRetainedWithin st = 0 < st.retained_limit → length st.retained ≤ st.retained_limit

length-queued :
    (d : Delivery) (ds : List Delivery)
    → length ds ≤ offline_queue_limit
    → length (queued d ds) ≤ offline_queue_limit
length-queued d [] h = omega arith
length-queued d (e ∷ ds) h = elim (Bool-cases (leb offline_queue_limit (length (e ∷ ds)))) [
  | inl l ↦ rw (queued, l) (omega (arith, length-append ds (d ∷ [])))
  | inr l ↦ rw (queued, l) (ground (arith, length-append (e ∷ ds) (d ∷ [])))
]

received-IsWithin :
    (d : Delivery) (s : Session) (o : Option Mailbox)
    → s.mailbox ≡ o
    → IsWithin s
    → IsWithin (received d s o)
received-IsWithin d s (some mailbox) e (a, b) =
    elim (Bool-cases (ltb (length mailbox) mailbox_limit)) [
      | inl l ↦ rw (received, l) (ground (arith, length-append mailbox (d ∷ [])), b)
      | inr l ↦ rw (received, l) (a, b)
    ]
received-IsWithin d s none e (a, b) =
    let q = length-queued d s.offline_queue b in
    elim (Bool-cases s.parked) [
      | inl p ↦ rw (received, p) (a, q)
      | inr p ↦ elim (Bool-cases (is_qos0 d.qos)) [
        | inl z ↦ simp (received, p, z) (a, b)
        | inr z ↦ simp (received, p, z) (a, q)
      ]
    ]

deliver_to-AreWithin :
    (c : Bytes) (d : Delivery) (st : ShardState) → AreWithin st → AreWithin (deliver_to c d st)
deliver_to-AreWithin c d st w x s e =
    let g = deliver_to-get c x d st in
    elim (Bool-cases (c == x)) [
      | inr b ↦ w x s (ground (arith, g))
      | inl b ↦ elim (Option-cases (get x st.sessions)) [
        | inl n ↦ absurd (ground (arith, g))
        | inr (t, n) ↦
            let same : received d t t.mailbox ≡ s = ground (arith, g) in
            subst IsWithin same (received-IsWithin d t t.mailbox refl (w x t n))
      ]
    ]

-- The table of retained messages is not touched by the fan-out.
abbrev Retains : ShardState → ShardState → Type 0
Retains st st' = (st'.retained ≡ st.retained) × (st'.retained_limit ≡ st.retained_limit)

Retains-trans : (a b c : ShardState) → Retains a b → Retains b c → Retains a c
Retains-trans a b c (p, q) (r, t) = (r ∙ p, t ∙ q)

deliver_at-Retains :
    (c : Bytes) (d : Delivery) (s : Session) (o : Option Mailbox) (st : ShardState)
    → Retains st (deliver_at c d s o st)
unfolding deliver_at
deliver_at-Retains c d s (some mailbox) st = ground arith
deliver_at-Retains c d s none st = ground arith

deliver_to-Retains : (c : Bytes) (d : Delivery) (st : ShardState) → Retains st (deliver_to c d st)
unfolding deliver_to
deliver_to-Retains c d st = elim (Option-cases (get c st.sessions)) [
  | inl e ↦ simp (deliver_to, e) (refl, refl)
  | inr (s, e) ↦ simp (deliver_to, e) (deliver_at-Retains c d s s.mailbox st)
]

-- All bounds at once.
abbrev pub IsBounded : ShardState → Type 0
IsBounded st = AreWithin st × IsRetainedWithin st

IsBounded-Retains :
    (st st' : ShardState) → Retains st st' → IsBounded st → AreWithin st' → IsBounded st'
IsBounded-Retains st st' (a, b) (w, r) w' = (
  w',
  λ h.
      subst (λ n. n ≤ st'.retained_limit) (ap length (sym a))
        (subst (λ n. length st.retained ≤ n) (sym b) (r (subst (λ n. 0 < n) b h))),
)

deliver_to-IsBounded :
    (c : Bytes) (d : Delivery) (st : ShardState) → IsBounded st → IsBounded (deliver_to c d st)
deliver_to-IsBounded c d st (w, r) =
    IsBounded-Retains st (deliver_to c d st) (deliver_to-Retains c d st) (w, r)
      (deliver_to-AreWithin c d st w)

deliver_best-IsBounded :
    (p : Publish) (publisher : Option Bytes) (r : Bool) (best : Bucket) (st : ShardState)
    → IsBounded st
    → IsBounded (deliver_best p publisher r best st)
unfolding deliver_best
deliver_best-IsBounded p publisher r [] st w = w
deliver_best-IsBounded p publisher r ((c, m) ∷ best) st w =
    elim (Bool-cases (m.nolocal && publisher == some c)) [
      | inl l ↦ simp (deliver_best, l) (deliver_best-IsBounded p publisher r best st w)
      | inr l ↦
          simp (deliver_best, l)
            (deliver_best-IsBounded p publisher r best (deliver_to c (delivery_for p r m) st)
              (deliver_to-IsBounded c (delivery_for p r m) st w))
    ]

module _ (hash : Bytes → Bytes → ℕ) where
  pick-IsBounded :
      (p : Publish) (group : Bytes) (ids : List Bytes) (st : ShardState)
      → IsBounded st
      → IsBounded (pick hash p group ids st).1
  unfolding pick
  pick-IsBounded p group ids st w =
      elim (Bool-cases (is_empty (remote_of (get group st.shared_remote)))) [
        | inl e ↦ rw e w
        | inr e ↦ rw e w
      ]

  deliver_picked-IsBounded :
      (p : Publish) (r : Bool) (b : Bucket) (o : Option Bytes) (st : ShardState)
      → IsBounded st
      → IsBounded (deliver_picked hash p r b (o, st))
  deliver_picked-IsBounded p r b none st w = w
  deliver_picked-IsBounded p r b (some c) st w = elim (Option-cases (get c b)) [
    | inl e ↦ rw (deliver_picked, e) w
    | inr (m, e) ↦ rw (deliver_picked, e) (deliver_to-IsBounded c (delivery_for p r m) st w)
  ]

  deliver_groups-IsBounded :
      (p : Publish) (r : Bool) (groups : Assoc Bytes Bucket) (st : ShardState)
      → IsBounded st
      → IsBounded (deliver_groups hash p r groups st)
  unfolding deliver_groups
  deliver_groups-IsBounded p r [] st w = w
  deliver_groups-IsBounded p r ((g, b) ∷ groups) st w = elim (Bool-cases (is_empty b)) [
    | inl e ↦ rw (deliver_groups, e) (deliver_groups-IsBounded p r groups st w)
    | inr e ↦
        let (o, st') = pick hash p g (sort_ids (keys b)) st in
        rw (deliver_groups, e)
          (deliver_groups-IsBounded p r groups (deliver_picked hash p r b (o, st'))
            (deliver_picked-IsBounded p r b o st' (pick-IsBounded p g (sort_ids (keys b)) st w)))
  ]

  route-IsBounded :
      (p : Publish) (publisher : Option Bytes) (r : Bool) (st : ShardState)
      → IsBounded st
      → IsBounded (route hash p publisher r st)
  unfolding route
  route-IsBounded p publisher r st w =
      let (best, groups) = collapse (matching p.topic st.trie) [] [] in
      deliver_groups-IsBounded p r groups (deliver_best p publisher r best st)
        (deliver_best-IsBounded p publisher r best st w)

  update_retain-IsBounded :
      (p : Publish) (st : ShardState) → IsBounded st → IsBounded (update_retain p st)
  unfolding update_retain
  update_retain-IsBounded p st (w, r) = elim (Bool-cases (is_empty p.payload)) [
    | inl e ↦ simp e (w, λ h. omega (arith, r h, length-remove_le p.topic st.retained))
    | inr e ↦ elim (Bool-cases (refuses p.topic st)) [
      | inl f ↦ simp (e, f) (w, r)
      | inr f ↦ simp (e, f) (w, λ h. ground (arith, r h, length-insert p.topic p st.retained))
    ]
  ]

  -- A publish never takes a mailbox, an offline queue or the table of retained messages above its
  -- limit, if none is above it before: 256 deliveries, 1024 deliveries, and the limit of the
  -- configuration, if that is not zero.
  pub deliver_local-IsBounded :
      (p : Publish) (publisher : Option Bytes) (st : ShardState)
      → IsBounded st
      → IsBounded (deliver_local hash p publisher st)
  unfolding deliver_local
  deliver_local-IsBounded p publisher st w = elim (Bool-cases p.retain) [
    | inl e ↦ simp e (
        route-IsBounded (record p { retain = false }) publisher true (update_retain p st)
          (update_retain-IsBounded p st w))
    | inr e ↦ simp e (route-IsBounded (record p { retain = false }) publisher false st w)
  ]
