-- ===== src/Server/Connection/Sending.antt =====
-- src/server/connection/delivery.rs: what `send_publish` does to the in-flight table, on each of
-- its ways out.
use rusquitto.Base.{
  ℕ, suc, ◌%◌, ◌≤◌, ◌<◌, ◌≡◌, refl, sym, ap, ◌∙◌, subst, ◌⊎◌, inl, inr, Bool, true, Option, none,
  some, nat_eq, list_eq, if◌then◌else◌, length, ltb, arith, Bool-cases, Option-cases,
}
use rusquitto.Base.Text.{Bytes}
use rusquitto.Base.Assoc.{Assoc, get, insert, get-insert, length-insert}
use rusquitto.Protocol.{Qos, at_most_once, at_least_once, exactly_once}
use rusquitto.Broker.Messages.{
  Publish, InflightState, qos1, qos2_pending, InflightMessage, Delivery,
}
use rusquitto.Server.Connection.{
  Connection, outbound_window, message_of, aliased_new, aliased, rolled_back, too_large, recorded,
  emit, emit_with_id, send_as, is_qos0, min, max,
}
use rusquitto.Server.Connection.PacketId.{alloc_pkid_lem}

-- The fields of type `u16`.
pub record IsSized (c : Connection) : Type 0 where
  pub next : c.next_pkid ≤ 65535
  pub receive : c.peer_receive_max ≤ 65535

aliased_new-pkid : (c : Connection) (p : Publish) → (aliased_new c p).message.pkid ≡ p.pkid
aliased_new-pkid c p =
    elim (Bool-cases (ltb (length c.outbound_aliases % 65536) c.peer_topic_alias_max)) [
      | inl e ↦ rw (aliased_new, e) refl
      | inr e ↦ rw (aliased_new, e) refl
    ]

aliased-pkid : (c : Connection) (p : Publish) → (aliased c p).message.pkid ≡ p.pkid
unfolding aliased
aliased-pkid c p = elim (Bool-cases (ltb 0 c.peer_topic_alias_max)) [
  | inr e ↦ rw (aliased, e) refl
  | inl e ↦ elim (Option-cases (get p.topic c.outbound_aliases)) [
    | inl n ↦ rw (aliased, e, n) (aliased_new-pkid c p)
    | inr (a, q) ↦ rw (aliased, e, q) refl
  ]
]

-- The copy that is kept for a retransmission.
abbrev stored : Connection → Publish → Publish
stored c p = if ltb 0 c.peer_topic_alias_max then p else (aliased c p).message

stored-pkid : (c : Connection) (p : Publish) → (stored c p).pkid ≡ p.pkid
stored-pkid c p = elim (Bool-cases (ltb 0 c.peer_topic_alias_max)) [
  | inl e ↦ rw (stored, e) refl
  | inr e ↦ rw (stored, e) (aliased-pkid c p)
]

-- What `emit` does to the fields of the window.
record Emitted (c c' : Connection) (p : Publish) (state : Option InflightState) : Type 0 where
  pub receive : c'.peer_receive_max ≡ c.peer_receive_max
  pub limit : c'.max_inflight ≡ c.max_inflight
  pub next : c'.next_pkid ≡ c.next_pkid
  pub pending : c'.pending_outbound ≡ c.pending_outbound
  pub table :
      (c'.inflight ≡ c.inflight)
      ⊎ ((q : Publish) × (q.pkid ≡ p.pkid) × (c'.inflight ≡ recorded state q c.inflight))

abbrev unsent :
    (c : Connection) (p : Publish) (state : Option InflightState) (t : Assoc Bytes ℕ)
    → Emitted c (record c { outbound_aliases = t }) p state
unsent c p state t = record {
  receive = refl;
  limit = refl;
  next = refl;
  pending = refl;
  table = inl refl;
}

-- What sending one delivery does.
pub record Sent (c c' : Connection) : Type 0 where
  pub receive : c'.peer_receive_max ≡ c.peer_receive_max
  pub limit : c'.max_inflight ≡ c.max_inflight
  pub pending : c'.pending_outbound ≡ c.pending_outbound
  pub ids : c'.next_pkid ≤ 65535
  pub table :
      (c'.inflight ≡ c.inflight)
      ⊎ ((id : ℕ) × (m : InflightMessage) × (get id c.inflight ≡ none)
          × (c'.inflight ≡ insert id m c.inflight))

pub Sent-get :
    (c c' : Connection) (id : ℕ) (m : InflightMessage)
    → Sent c c'
    → get id c.inflight ≡ some m
    → get id c'.inflight ≡ some m
Sent-get c c' id m x h = elim x.table [
  | inl i ↦ rw i h
  | inr (k, v, free, i) ↦ rw (i, get-insert k id v c.inflight) (ground (arith, nat_eq.beq_iff k id))
]

pub Sent-length : (c c' : Connection) → Sent c c' → length c'.inflight ≤ suc (length c.inflight)
Sent-length c c' x = elim x.table [
  | inl i ↦ rw i (omega arith)
  | inr (k, v, free, i) ↦ rw i (ground (arith, length-insert k v c.inflight))
]

module _ (write : Publish → Option Bytes) where
  emit-Emitted :
      (c : Connection) (p : Publish) (state : Option InflightState)
      → Emitted c (emit write c p state).0 p state
  unfolding emit
  emit-Emitted c p state = elim (Option-cases (write (aliased c p).message)) [
    | inl n ↦ rw (emit, n) (unsent c p state (rolled_back (aliased c p)))
    | inr (b, q) ↦ elim (Bool-cases (too_large c.peer_max_packet_size b)) [
      | inl t ↦ rw (emit, q, t) (unsent c p state (rolled_back (aliased c p)))
      | inr t ↦
          rw (emit, q, t)
            (record {
              receive = refl;
              limit = refl;
              next = refl;
              pending = refl;
              table = inr (stored c p, stored-pkid c p, refl);
            })
    ]
  ]

  emit_with_id-Sent :
      (c : Connection) (d : Delivery) (state : InflightState)
      → IsSized c
      → length c.inflight < 65535
      → (c' : Connection) × (ok : Bool) × (emit_with_id write c d state ≡ some (c', ok)) × Sent c c'
  unfolding emit_with_id
  emit_with_id-Sent c d state s h =
      let (id, e, low, high, free) = alloc_pkid_lem c s.next h in
      let p = record (message_of d) { pkid = id } in
      let x = emit-Emitted (record c { next_pkid = id }) p (some state) in
      (
        (emit write (record c { next_pkid = id }) p (some state)).0,
        (emit write (record c { next_pkid = id }) p (some state)).1,
        rw (emit_with_id, e) refl,
        record {
          receive = x.receive;
          limit = x.limit;
          pending = x.pending;
          ids = subst (λ n. n ≤ 65535) (sym x.next) high;
          table = elim x.table [
            | inl i ↦ inl i
            | inr (q, k, i) ↦ inr (
              id,
              record { publish = q; state = state },
              free,
              i ∙ ap (λ n. insert n (record { publish = q; state = state }) c.inflight) k,
            )
          ];
        },
      )

  emit-Sent :
      (c : Connection) (p : Publish)
      → IsSized c
      → Sent c (emit write c p none).0 × ((emit write c p none).0.inflight ≡ c.inflight)
  emit-Sent c p s =
      let x = emit-Emitted c p none in
      let i = same_table c (emit write c p none).0 p x in
      (
        record {
          receive = x.receive;
          limit = x.limit;
          pending = x.pending;
          ids = subst (λ n. n ≤ 65535) (sym x.next) s.next;
          table = inl i;
        },
        i,
      )
    where
      same_table :
          (c c' : Connection) (p : Publish) → Emitted c c' p none → c'.inflight ≡ c.inflight
      same_table c c' p x = elim x.table [ inl i ↦ i | inr (q, k, i) ↦ i ]

  pub send_as-qos0 :
      (c : Connection) (d : Delivery) (q : Qos)
      → IsSized c
      → is_qos0 q ≡ true
      → (c' : Connection) × (ok : Bool) × (send_as write c d q ≡ some (c', ok))
        × Sent c c'
        × (c'.inflight ≡ c.inflight)
  unfolding send_as
  send_as-qos0 c d at_most_once s h =
      let r = emit-Sent c (record (message_of d) { pkid = 0 }) s in
      (
        (emit write c (record (message_of d) { pkid = 0 }) none).0,
        (emit write c (record (message_of d) { pkid = 0 }) none).1,
        refl,
        r.0,
        r.1,
      )
  send_as-qos0 c d at_least_once s h = cc
  send_as-qos0 c d exactly_once s h = cc

  pub send_as-Sent :
      (c : Connection) (d : Delivery) (q : Qos)
      → IsSized c
      → length c.inflight < 65535
      → (c' : Connection) × (ok : Bool) × (send_as write c d q ≡ some (c', ok)) × Sent c c'
  unfolding send_as
  send_as-Sent c d at_most_once s h =
      let r = send_as-qos0 c d at_most_once s refl in (r.0, r.1, r.2, r.3)
  send_as-Sent c d at_least_once s h = emit_with_id-Sent c d qos1 s h
  send_as-Sent c d exactly_once s h = emit_with_id-Sent c d qos2_pending s h

  pub window_le : (c : Connection) → IsSized c → outbound_window c ≤ 65535
  unfolding outbound_window
  window_le c s = bound c.peer_receive_max c.max_inflight s.receive
    where
      bound : (a b : ℕ) → a ≤ 65535 → max (min a b) 1 ≤ 65535
      bound a b h = ground arith
