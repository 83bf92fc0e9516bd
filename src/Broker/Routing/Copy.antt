-- ===== src/Broker/Routing/Copy.antt =====
-- What becomes of the copy of a publish that a client gets, in its mailbox or its offline queue.
use rusquitto.Base.{
  ℕ, ◌≤◌, ◌<◌, ◌≡◌, ◌≢◌, ◌⊎◌, inl, inr, refl, sym, subst, Bool, true, false, ◌&&◌, Option, none,
  some, List, [], ◌∷◌, ◌++◌, ◌==◌, nat_eq, list_eq, option_eq, any, retain, arith, Bool-cases, ltb,
  leb, length,
}
use rusquitto.Base.Text.{Bytes, opt_bytes_eq}
use rusquitto.Base.Assoc.{get}
use rusquitto.Protocol.{Qos, at_most_once, at_least_once, exactly_once, qos_num, min_qos}
use rusquitto.Topics.Trie.{Subscription, matching}
use rusquitto.Broker.Messages.{Publish, Delivery, mailbox_limit, offline_queue_limit}
use rusquitto.Broker.Shard.{Mailbox, Session, ShardState}
use rusquitto.Broker.Routing.{Match, queued, is_qos0, delivery_for, route}
use rusquitto.Broker.Routing.Fanout.{mine, theirs, received, receive, copy}
use rusquitto.Broker.Routing.Best.{Best, route-copy}

-- The copy: of the lower of the QoS of the publish and that of the match, with the identifiers of
-- the match, and retained if the publish was and the match asks for that.
abbrev pub IsCopy : Publish → Bool → Match → Delivery → Type 0
IsCopy p was_retained m d =
    (d.publish ≡ p)
    × (qos_num d.qos ≤ qos_num p.qos)
    × (qos_num d.qos ≤ qos_num m.qos)
    × ((d.qos ≡ p.qos) ⊎ (d.qos ≡ m.qos))
    × (d.retain ≡ (was_retained && m.retain_as_published))
    × (d.sub_ids ≡ m.sub_ids)

-- One more at the end of the queue, for which the oldest makes room where the queue is full.
abbrev pub IsQueued : Delivery → List Delivery → List Delivery → Type 0
IsQueued d old new =
    ((length old < offline_queue_limit) × (new ≡ old ++ d ∷ []))
    ⊎ ((offline_queue_limit ≤ length old)
        × (oldest : Delivery) × (rest : List Delivery) × (old ≡ oldest ∷ rest)
        × (new ≡ rest ++ d ∷ []))

-- What a session does with a delivery. With a mailbox, it goes to its end unless it is full; a
-- parked session queues it and is to be woken; a suspended one queues it unless its QoS is 0.
abbrev pub Takes : Delivery → Option Mailbox → Session → Session → Type 0
Takes d (some mailbox) s s' =
    ((length mailbox < mailbox_limit) × (s' ≡ record s { mailbox = some (mailbox ++ d ∷ []) }))
    ⊎ ((mailbox_limit ≤ length mailbox) × (s' ≡ s))
Takes d none s s' =
    ((s.parked ≡ true)
      × (queue : List Delivery) × IsQueued d s.offline_queue queue
      × (s' ≡ record s { offline_queue = queue; wake_pending = true }))
    ⊎ ((s.parked ≡ false) × (d.qos ≡ at_most_once) × (s' ≡ s))
    ⊎ ((s.parked ≡ false)
        × (d.qos ≢ at_most_once)
        × (queue : List Delivery) × IsQueued d s.offline_queue queue
        × (s' ≡ record s { offline_queue = queue }))

abbrev pub TakesAny : Delivery → Option Session → Option Session → Type 0
TakesAny d none after = after ≡ none
TakesAny d (some s) after = (s' : Session) × (after ≡ some s') × Takes d s.mailbox s s'

-- A client that publishes to itself with No Local gets nothing; any other, one copy.
abbrev pub IsServed :
    Publish → Option Bytes → Bool → Bytes → Match → Option Session → Option Session → Type 0
IsServed p publisher was_retained c m before after =
    ((m.nolocal ≡ true) × (publisher ≡ some c) × (after ≡ before))
    ⊎ (((m.nolocal ≡ false) ⊎ (publisher ≢ some c))
        × (d : Delivery) × IsCopy p was_retained m d
        × TakesAny d before after)

delivery_for-IsCopy : (p : Publish) (r : Bool) (m : Match) → IsCopy p r m (delivery_for p r m)
unfolding min_qos
delivery_for-IsCopy p r m = elim (Bool-cases (leb (qos_num p.qos) (qos_num m.qos))) [
  | inl e ↦ rw (min_qos, e) (refl, omega arith, ground arith, inl refl, refl, refl)
  | inr e ↦ rw (min_qos, e) (refl, ground arith, omega arith, inr refl, refl, refl)
]

queued-IsQueued : (d : Delivery) (ds : List Delivery) → IsQueued d ds (queued d ds)
queued-IsQueued d [] = inl (omega arith, refl)
queued-IsQueued d (x ∷ ds) = elim (Bool-cases (leb offline_queue_limit (length (x ∷ ds)))) [
  | inl e ↦ simp (queued, e) (inr (ground arith, x, ds, refl, refl))
  | inr e ↦ simp (queued, e) (inl (ground arith, refl))
]

is_qos0_iff :
    (q : Qos) → (is_qos0 q ≡ true → q ≡ at_most_once) × (is_qos0 q ≡ false → q ≢ at_most_once)
is_qos0_iff at_most_once = (λ h. refl, λ h e. ground arith)
is_qos0_iff at_least_once = (λ h. ground arith, λ h e. ground arith)
is_qos0_iff exactly_once = (λ h. ground arith, λ h e. ground arith)

received-Takes : (d : Delivery) (s : Session) (o : Option Mailbox) → Takes d o s (received d s o)
received-Takes d s (some mailbox) = elim (Bool-cases (ltb (length mailbox) mailbox_limit)) [
  | inl e ↦ simp (received, e) (inl (ground arith, refl))
  | inr e ↦ simp (received, e) (inr (ground arith, refl))
]
received-Takes d s none = elim (Bool-cases s.parked) [
  | inl p ↦
      simp (received, p)
        (inl (refl, queued d s.offline_queue, queued-IsQueued d s.offline_queue, refl))
  | inr p ↦ elim (Bool-cases (is_qos0 d.qos)) [
    | inl q ↦ simp (received, p, q) (inr (inl (refl, (is_qos0_iff d.qos).0 q, refl)))
    | inr q ↦
        simp (received, p, q)
          (inr (
            inr (
              refl,
              (is_qos0_iff d.qos).1 q,
              queued d s.offline_queue,
              queued-IsQueued d s.offline_queue,
              refl,
            )))
  ]
]

receive-TakesAny : (d : Delivery) (o : Option Session) → TakesAny d o (receive d o)
receive-TakesAny d none = refl
receive-TakesAny d (some s) = (received d s s.mailbox, refl, received-Takes d s s.mailbox)

copy-IsServed :
    (p : Publish) (publisher : Option Bytes) (r : Bool) (c : Bytes) (m : Match) (o : Option Session)
    → IsServed p publisher r c m o (copy p publisher r c (some m) o)
copy-IsServed p publisher r c m o =
    let own = opt_bytes_eq.beq_iff publisher (some c) in
    let sent = receive-TakesAny (delivery_for p r m) o in
    elim (Bool-cases m.nolocal) [
      | inr n ↦ simp (copy, n) (inr (inl refl, delivery_for p r m, delivery_for-IsCopy p r m, sent))
      | inl n ↦ elim (Bool-cases (publisher == some c)) [
        | inl e ↦ simp (copy, n, e) (inl (refl, own.0 e, refl))
        | inr e ↦
            let differ : publisher ≢ some c = λ q. ground (arith, own.1 q, e) in
            simp (copy, n, e)
              (inr (inr differ, delivery_for p r m, delivery_for-IsCopy p r m, sent))
      ]
    ]

module _ (hash : Bytes → Bytes → ℕ) where
  -- What a publish does to the session of a client of which at least one subscription matches, and
  -- no shared one, however many of them match. Its best match has the highest QoS of the
  -- matching subscriptions, the options of one that has that QoS, and the identifiers of all.
  -- Where No Local is among its options and the client is the publisher, the session stays as it
  -- was. Otherwise one copy, of the lower of that QoS and the one of the publish, comes to the
  -- session, if there is one: it is put at the end of the mailbox, or dropped if that is full; put
  -- at the end of the queue of a parked session, which is to be woken; put at the end of the queue
  -- of a suspended session, or dropped if the copy has QoS 0. The oldest leaves a full queue.
  pub route-IsServed :
      (p : Publish) (publisher : Option Bytes) (r : Bool) (st : ShardState) (c : Bytes)
      (s : Subscription) (ss : List Subscription)
      → any (theirs c) (matching p.topic st.trie) ≡ false
      → retain (mine c) (matching p.topic st.trie) ≡ s ∷ ss
      → (m : Match) × Best (s ∷ ss) m
        × IsServed p publisher r c m
            (get c st.sessions)
            (get c (route hash p publisher r st).sessions)
  route-IsServed p publisher r st c s ss h e =
      let (m, b, q) = route-copy hash p publisher r st c s ss h e in
      (
        m,
        b,
        subst (IsServed p publisher r c m (get c st.sessions)) (sym q)
            (copy-IsServed p publisher r c m (get c st.sessions)),
      )
