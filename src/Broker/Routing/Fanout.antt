-- ===== src/Broker/Routing/Fanout.antt =====
-- What a publish changes in the session of one client: the copy that it gets of its best match.
use rusquitto.Base.{
  ℕ, ◌≡◌, ◌≢◌, inl, inr, refl, ◌∙◌, subst, ap, Bool, true, false, not, ◌&&◌, Option, none, some,
  List, [], ◌∷◌, ◌++◌, ◌==◌, nat_eq, list_eq, option_eq, if◌then◌else◌, any, retain, All, arith,
  Bool-cases, Option-cases, ltb, is_empty, length,
}
use rusquitto.Base.Text.{Bytes, bytes_eq}
use rusquitto.Base.Assoc.{Assoc, get, insert, get-insert}
use rusquitto.Topics.Trie.{Subscription, matching}
use rusquitto.Broker.Messages.{Publish, Delivery, mailbox_limit}
use rusquitto.Broker.Shard.{Mailbox, Session, ShardState}
use rusquitto.Broker.Routing.{
  Match, merge, Bucket, into_bucket, bucket_or, collapse, queued, is_qos0, deliver_at, deliver_to,
  delivery_for, deliver_best, sort_ids, keys, pick, deliver_picked, deliver_groups, route,
  remote_of,
}

abbrev pub is_of : Bytes → Subscription → Bool
is_of c s = s.client_id == c

abbrev pub is_ordinary : Subscription → Bool
is_ordinary s = elim s.share_group [ none ↦ true | some g ↦ false ]

-- The match of one client, from its subscriptions in order.
abbrev pub best_for : List Subscription → Option Match → Option Match
best_for [] o = o
best_for (s ∷ ss) o = best_for ss (some (merge s o))

abbrev pub mine : Bytes → Subscription → Bool
mine c s = is_ordinary s && is_of c s

abbrev pub theirs : Bytes → Subscription → Bool
theirs c s = not (is_ordinary s) && is_of c s

collapse-best :
    (c : Bytes) (ss : List Subscription) (best : Bucket) (groups : Assoc Bytes Bucket)
    → get c (collapse ss best groups).0 ≡ best_for (retain (mine c) ss) (get c best)
unfolding collapse
collapse-best c [] best groups = refl
collapse-best c (s ∷ ss) best groups = elim (Option-cases s.share_group) [
  | inr (g, e) ↦ ground (
    arith,
    e,
    collapse-best c ss best (insert g (into_bucket s (bucket_or (get g groups))) groups),
  )
  | inl e ↦
      let i = get-insert s.client_id c (merge s (get s.client_id best)) best in
      elim (Bool-cases (s.client_id == c)) [
        | inl b ↦
            let same : s.client_id ≡ c = (bytes_eq.beq_iff s.client_id c).0 b in
            ground (arith, e, i, same, collapse-best c ss (into_bucket s best) groups)
        | inr b ↦ ground (arith, e, i, collapse-best c ss (into_bucket s best) groups)
      ]
]

-- How a session takes a delivery.
abbrev pub received : Delivery → Session → Option Mailbox → Session
received d s (some mailbox) =
    if ltb (length mailbox) mailbox_limit
    then record s { mailbox = some (mailbox ++ d ∷ []) }
    else s
received d s none =
    if s.parked
    then record s { offline_queue = queued d s.offline_queue; wake_pending = true }
    else if is_qos0 d.qos
    then s
    else record s { offline_queue = queued d s.offline_queue }

abbrev pub receive : Delivery → Option Session → Option Session
receive d none = none
receive d (some s) = some (received d s s.mailbox)

get-same :
    (c x : Bytes) (s : Session) (st : ShardState)
    → get c st.sessions ≡ some s
    → get x st.sessions ≡ (if c == x then some s else get x st.sessions)
get-same c x s st h = elim (Bool-cases (c == x)) [
  | inl b ↦ let same : c ≡ x = (bytes_eq.beq_iff c x).0 b in ground (arith, same)
  | inr b ↦ ground arith
]

deliver_at-get :
    (c x : Bytes) (d : Delivery) (s : Session) (o : Option Mailbox) (st : ShardState)
    → get c st.sessions ≡ some s
    → s.mailbox ≡ o
    → get x (deliver_at c d s o st).sessions
      ≡ (if c == x then some (received d s o) else get x st.sessions)
unfolding deliver_at
deliver_at-get c x d s (some mailbox) st h e =
    elim (Bool-cases (ltb (length mailbox) mailbox_limit)) [
      | inl l ↦ rw (received, l) (get-insert c x _ st.sessions)
      | inr l ↦ rw (received, l) (get-same c x s st h)
    ]
deliver_at-get c x d s none st h e = elim (Bool-cases s.parked) [
  | inl p ↦ elim (Bool-cases s.wake_pending) [
    | inl w ↦ rw (received, p, w) (get-insert c x _ st.sessions)
    | inr w ↦ rw (received, p, w) (get-insert c x _ st.sessions)
  ]
  | inr p ↦ elim (Bool-cases (is_qos0 d.qos)) [
    | inl q ↦ simp (received, p, q) (get-same c x s st h)
    | inr q ↦ rw (received, p, q) (get-insert c x _ st.sessions)
  ]
]

-- The sessions after one delivery.
pub deliver_to-get :
    (c x : Bytes) (d : Delivery) (st : ShardState)
    → get x (deliver_to c d st).sessions
      ≡ (if c == x then receive d (get x st.sessions) else get x st.sessions)
unfolding deliver_to
deliver_to-get c x d st = elim (Option-cases (get c st.sessions)) [
  | inl n ↦ elim (Bool-cases (c == x)) [
    | inl b ↦ let same : c ≡ x = (bytes_eq.beq_iff c x).0 b in ground (arith, same)
    | inr b ↦ ground arith
  ]
  | inr (s, h) ↦
      let g = deliver_at-get c x d s s.mailbox st h refl in
      elim (Bool-cases (c == x)) [
        | inl b ↦
            let same : c ≡ x = (bytes_eq.beq_iff c x).0 b in
            let there : get x st.sessions ≡ some s =
              subst (λ y. get y st.sessions ≡ some s) same h in
            ground (arith, g, h, there)
        | inr b ↦ ground (arith, g, h)
      ]
]

abbrev pub AreKeysOnce : Bucket → Type 0
AreKeysOnce [] = Unit
AreKeysOnce ((c, m) ∷ b) = (get c b ≡ none) × AreKeysOnce b

-- What an ordinary subscriber with this match gets.
abbrev pub copy :
    Publish → Option Bytes → Bool → Bytes → Option Match → Option Session → Option Session
copy p publisher was_retained c none s = s
copy p publisher was_retained c (some m) s =
    if m.nolocal && publisher == some c then s else receive (delivery_for p was_retained m) s

deliver_best-get :
    (p : Publish) (publisher : Option Bytes) (r : Bool) (best : Bucket) (x : Bytes)
    (st : ShardState)
    → AreKeysOnce best
    → get x (deliver_best p publisher r best st).sessions
      ≡ copy p publisher r x (get x best) (get x st.sessions)
unfolding deliver_best
deliver_best-get p publisher r [] x st w = refl
deliver_best-get p publisher r ((c, m) ∷ best) x st (n, w) =
    let d = delivery_for p r m in
    let g = deliver_to-get c x d st in
    let skip = deliver_best-get p publisher r best x st w in
    let send = deliver_best-get p publisher r best x (deliver_to c d st) w in
    elim (Bool-cases (c == x)) [
      | inl b ↦
          let same : c ≡ x = (bytes_eq.beq_iff c x).0 b in
          let absent : get x best ≡ none = subst (λ y. get y best ≡ none) same n in
          let own : (publisher == some c) ≡ (publisher == some x) =
            ap (λ y. publisher == some y) same in
          elim (Bool-cases (m.nolocal && publisher == some c)) [
            | inl l ↦ ground (arith, skip, absent, own)
            | inr l ↦ ground (arith, g, send, absent, own)
          ]
      | inr b ↦ elim (Bool-cases (m.nolocal && publisher == some c)) [
        | inl l ↦ ground (arith, skip)
        | inr l ↦ ground (arith, g, send)
      ]
    ]

insert-AreKeysOnce :
    (c : Bytes) (m : Match) (b : Bucket) → AreKeysOnce b → AreKeysOnce (insert c m b)
insert-AreKeysOnce c m [] w = (refl, tt)
insert-AreKeysOnce c m ((x, n) ∷ b) (a, w) = elim (Bool-cases (x == c)) [
  | inl e ↦
      let same : x ≡ c = (bytes_eq.beq_iff x c).0 e in rw e (subst (λ y. get y b ≡ none) same a, w)
  | inr e ↦ rw e (
    ground (arith, a, get-insert c x m b, bytes_eq.beq_iff c x, bytes_eq.beq_iff x c),
    insert-AreKeysOnce c m b w,
  )
]

collapse-AreKeysOnce :
    (ss : List Subscription) (best : Bucket) (groups : Assoc Bytes Bucket)
    → AreKeysOnce best
    → AreKeysOnce (collapse ss best groups).0
unfolding collapse
collapse-AreKeysOnce [] best groups w = w
collapse-AreKeysOnce (s ∷ ss) best groups w = elim (Option-cases s.share_group) [
  | inl e ↦ rw e (collapse-AreKeysOnce ss _ groups (insert-AreKeysOnce s.client_id _ best w))
  | inr (g, e) ↦ rw e (collapse-AreKeysOnce ss best _ w)
]

-- No group has the client as a member.
abbrev pub IsOutside : Bytes → Assoc Bytes Bucket → Type 0
IsOutside c = All (λ g. get c g.1 ≡ none)

bucket_or-get :
    (c g : Bytes) (groups : Assoc Bytes Bucket)
    → IsOutside c groups
    → get c (bucket_or (get g groups)) ≡ none
bucket_or-get c g [] o = refl
bucket_or-get c g ((h, b) ∷ groups) (n, o) = elim (Bool-cases (h == g)) [
  | inl e ↦ rw e n
  | inr e ↦ rw e (bucket_or-get c g groups o)
]

insert-IsOutside :
    (c g : Bytes) (b : Bucket) (groups : Assoc Bytes Bucket)
    → get c b ≡ none
    → IsOutside c groups
    → IsOutside c (insert g b groups)
insert-IsOutside c g b [] n o = (n, tt)
insert-IsOutside c g b ((h, b') ∷ groups) n (n', o) = elim (Bool-cases (h == g)) [
  | inl e ↦ rw e (n, o)
  | inr e ↦ rw e (n', insert-IsOutside c g b groups n o)
]

collapse-IsOutside :
    (c : Bytes) (ss : List Subscription) (best : Bucket) (groups : Assoc Bytes Bucket)
    → any (theirs c) ss ≡ false
    → IsOutside c groups
    → IsOutside c (collapse ss best groups).1
unfolding collapse
collapse-IsOutside c [] best groups h o = o
collapse-IsOutside c (s ∷ ss) best groups h o = elim (Option-cases s.share_group) [
  | inl e ↦ rw e (collapse-IsOutside c ss _ groups (ground arith) o)
  | inr (g, e) ↦
      let other : (s.client_id == c) ≡ false = ground arith in
      let b = bucket_or (get g groups) in
      let absent : get c (into_bucket s b) ≡ none = ground (
        arith,
        get-insert s.client_id c (merge s (get s.client_id b)) b,
        bucket_or-get c g groups o,
      ) in
      simp e (
        collapse-IsOutside c ss best (insert g (into_bucket s b) groups) (ground arith)
          (insert-IsOutside c g (into_bucket s b) groups absent o))
]

bytes_ne : (a b : Bytes) → a ≢ b → (a == b) ≡ false
bytes_ne a b n = ground (arith, bytes_eq.beq_iff a b)

module _ (hash : Bytes → Bytes → ℕ) where
  pub pick-sessions :
      (p : Publish) (group : Bytes) (ids : List Bytes) (st : ShardState)
      → (pick hash p group ids st).1.sessions ≡ st.sessions
  unfolding pick
  pick-sessions p group ids st =
      elim (Bool-cases (is_empty (remote_of (get group st.shared_remote)))) [
        | inl e ↦ rw e refl
        | inr e ↦ rw e refl
      ]

  deliver_picked-get :
      (x : Bytes) (p : Publish) (r : Bool) (b : Bucket) (o : Option Bytes) (st : ShardState)
      → get x b ≡ none
      → get x (deliver_picked hash p r b (o, st)).sessions ≡ get x st.sessions
  deliver_picked-get x p r b none st n = refl
  deliver_picked-get x p r b (some c) st n = elim (Option-cases (get c b)) [
    | inl e ↦ rw (deliver_picked, e) refl
    | inr (m, e) ↦
        let g = deliver_to-get c x (delivery_for p r m) st in
        let differ : (c == x) ≡ false =
          bytes_ne c x (λ q. ground (arith, subst (λ y. get y b ≡ some m) q e)) in
        rw (deliver_picked, e) (ground (arith, g))
  ]

  deliver_groups-get :
      (x : Bytes) (p : Publish) (r : Bool) (groups : Assoc Bytes Bucket) (st : ShardState)
      → IsOutside x groups
      → get x (deliver_groups hash p r groups st).sessions ≡ get x st.sessions
  unfolding deliver_groups
  deliver_groups-get x p r [] st o = refl
  deliver_groups-get x p r ((g, b) ∷ groups) st (n, o) = elim (Bool-cases (is_empty b)) [
    | inl e ↦ rw (deliver_groups, e) (deliver_groups-get x p r groups st o)
    | inr e ↦
        let picked = pick hash p g (sort_ids (keys b)) st in
        rw (deliver_groups, e)
          (deliver_groups-get x p r groups (deliver_picked hash p r b picked) o
            ∙ deliver_picked-get x p r b picked.0 picked.1 n
            ∙ ap (get x) (pick-sessions p g (sort_ids (keys b)) st))
  ]

  -- What a publish changes in the session of a client that has no matching shared subscription:
  -- nothing if it has no matching subscription, or if No Local holds for its best match and it is
  -- the publisher; otherwise its session, if it has one, takes exactly one copy, with the options
  -- of the best match.
  pub route-get :
      (p : Publish) (publisher : Option Bytes) (r : Bool) (st : ShardState) (c : Bytes)
      → any (theirs c) (matching p.topic st.trie) ≡ false
      → get c (route hash p publisher r st).sessions
        ≡ copy p publisher r c
            (best_for (retain (mine c) (matching p.topic st.trie)) none)
            (get c st.sessions)
  unfolding route
  route-get p publisher r st c h =
      let ss = matching p.topic st.trie in
      let k = collapse ss [] [] in
      deliver_groups-get c p r k.1 _ (collapse-IsOutside c ss [] [] h tt)
      ∙ deliver_best-get p publisher r k.0 c st (collapse-AreKeysOnce ss [] [] tt)
      ∙ ap (λ o. copy p publisher r c o (get c st.sessions)) (collapse-best c ss [] [])
