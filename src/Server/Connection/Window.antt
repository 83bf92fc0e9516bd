-- ===== src/Server/Connection/Window.antt =====
-- src/server/connection/delivery.rs and src/server/connection/control.rs: the in-flight window. No
-- delivery overwrites a message in flight or opens the window wider, and a drain leaves no message
-- held beside a free slot.
use rusquitto.Base.{
  ℕ, suc, ◌≤◌, ◌<◌, ◌≡◌, ◌≢◌, refl, subst, ◌⊎◌, inl, inr, Bool, true, false, Option, some, List, [],
  ◌∷◌, nat_eq, list_eq, length, length-append, leb, ltb, arith, Bool-cases,
}
use rusquitto.Base.Text.{Bytes}
use rusquitto.Base.Assoc.{get, remove, contains_key, get-remove}
use rusquitto.Broker.Messages.{Publish, InflightMessage, Delivery}
use rusquitto.Server.Connection.{
  Connection, outbound_window, send_publish, is_qos0, deliver, held, drain_loop, drain_pending,
  handle_puback, pending_outbound_limit, max,
}
use rusquitto.Server.Connection.Sending.{
  IsSized, Sent, Sent-get, Sent-length, send_as-qos0, send_as-Sent, window_le,
}

-- What a delivery does to the window, whether it is sent or held.
record Delivered (c c' : Connection) : Type 0 where
  pub sized : IsSized c'
  pub window : outbound_window c' ≡ outbound_window c
  pub grown : length c'.inflight ≤ max (length c.inflight) (outbound_window c)

le_max : (a b c : ℕ) → a ≤ b → a ≤ max b c
le_max a b c h = ground arith

le_max_right : (a b c : ℕ) → a ≤ c → a ≤ max b c
le_max_right a b c h = ground arith

max_le : (a b c : ℕ) → a ≤ c → b ≤ c → max a b ≤ c
max_le a b c h k = ground arith

Sent-Delivered :
    (c c' : Connection)
    → IsSized c
    → Sent c c'
    → length c'.inflight ≤ max (length c.inflight) (outbound_window c)
    → Delivered c c'
unfolding outbound_window
Sent-Delivered c c' s x h = record {
  sized = record { next = x.ids; receive = rw x.receive s.receive };
  window = rw (x.receive, x.limit) refl;
  grown = h;
}

held-length :
    (ds : List Delivery) (d : Delivery)
    → length (held ds d) ≤ max (length ds) pending_outbound_limit
held-length [] d = omega arith
held-length (e ∷ ds) d = elim (Bool-cases (leb pending_outbound_limit (suc (length ds)))) [
  | inl h ↦ rw (h, length-append ds (d ∷ [])) (ground arith)
  | inr h ↦ rw (h, length-append ds (d ∷ [])) (ground arith)
]

-- The drain of a list of held deliveries.
record Drained (c c' : Connection) (ok : Bool) : Type 0 where
  pub sized : IsSized c'
  pub grown : length c'.inflight ≤ max (length c.inflight) (outbound_window c)
  pub left : (ok ≡ false) ⊎ ((c'.pending_outbound ≡ []) ⊎ (outbound_window c ≤ length c'.inflight))
  pub kept :
      (id : ℕ) (m : InflightMessage) → get id c.inflight ≡ some m → get id c'.inflight ≡ some m

Sent-window : (c c' : Connection) → Sent c c' → outbound_window c' ≡ outbound_window c
unfolding outbound_window
Sent-window c c' x = rw (x.receive, x.limit) refl

next_grown : (a b d n : ℕ) → ltb a n ≡ true → b ≤ suc a → d ≤ max b n → d ≤ max a n
next_grown a b d n f h k = ground arith

Drained-pending :
    (c c' : Connection) (ds : List Delivery) (ok : Bool)
    → Drained (record c { pending_outbound = ds }) c' ok
    → Drained c c' ok
unfolding outbound_window
Drained-pending c c' ds ok h = record {
  sized = h.sized;
  grown = h.grown;
  left = h.left;
  kept = h.kept;
}

Drained-failed :
    (c c' : Connection)
    → Sent c c'
    → IsSized c
    → ltb (length c.inflight) (outbound_window c) ≡ true
    → Drained c c' false
Drained-failed c c' x s f = record {
  sized = record { next = x.ids; receive = rw x.receive s.receive };
  grown =
      next_grown (length c.inflight) (length c'.inflight) (length c'.inflight) (outbound_window c) f
        (Sent-length c c' x)
        (le_max (length c'.inflight) (length c'.inflight) (outbound_window c) (omega arith));
  left = inl refl;
  kept = λ id m e. Sent-get c c' id m x e;
}

Drained-step :
    (c c' c'' : Connection) (ok : Bool)
    → IsSized c
    → Sent c c'
    → ltb (length c.inflight) (outbound_window c) ≡ true
    → Drained c' c'' ok
    → Drained c c'' ok
Drained-step c c' c'' ok s x f h = record {
  sized = h.sized;
  grown =
      next_grown (length c.inflight) (length c'.inflight) (length c''.inflight) (outbound_window c)
        f (Sent-length c c' x)
        (subst (λ n. length c''.inflight ≤ max (length c'.inflight) n) (Sent-window c c' x)
          h.grown);
  left =
      subst (λ n. (ok ≡ false) ⊎ ((c''.pending_outbound ≡ []) ⊎ (n ≤ length c''.inflight)))
        (Sent-window c c' x) h.left;
  kept = λ id m e. h.kept id m (Sent-get c c' id m x e);
}

module _ (write : Publish → Option Bytes) where
  deliver-cases :
      (c : Connection) (d : Delivery)
      → IsSized c
      → (c' : Connection) × (ok : Bool) × (deliver write c d ≡ some (c', ok))
        × Delivered c c'
        × (Sent c c' ⊎ (c' ≡ record c { pending_outbound = held c.pending_outbound d }))
  unfolding deliver send_publish
  deliver-cases c d s = elim (Bool-cases (is_qos0 d.qos)) [
    | inl q ↦
        let (c', ok, e, x, i) = send_as-qos0 write c d d.qos s q in
        (
          c',
          ok,
          rw q e,
          Sent-Delivered c c' s x (
              rw i
                (le_max (length c.inflight) (length c.inflight) (outbound_window c) (omega arith))),
          inl x,
        )
    | inr q ↦ elim (Bool-cases (ltb (length c.inflight) (outbound_window c))) [
      | inl f ↦
          let (c', ok, e, x) = send_as-Sent write c d d.qos s (open_slot c s f) in
          (c', ok, rw (q, f) e, Sent-Delivered c c' s x (slot_taken c c' x f), inl x)
      | inr f ↦ (
        record c { pending_outbound = held c.pending_outbound d },
        true,
        rw (q, f) refl,
        record {
          sized = record { next = s.next; receive = s.receive };
          window = unfold outbound_window in refl;
          grown = le_max (length c.inflight) (length c.inflight) (outbound_window c) (omega arith);
        },
        inr refl,
      )
    ]
  ]
    where
      open_slot :
          (c : Connection)
          → IsSized c
          → ltb (length c.inflight) (outbound_window c) ≡ true
          → length c.inflight < 65535
      open_slot c s f = ground (arith, window_le write c s)

      slot_taken :
          (c c' : Connection)
          → Sent c c'
          → ltb (length c.inflight) (outbound_window c) ≡ true
          → length c'.inflight ≤ max (length c.inflight) (outbound_window c)
      slot_taken c c' x f =
          le_max_right (length c'.inflight) (length c.inflight) (outbound_window c)
            (ground (arith, Sent-length c c' x))

  -- With its `u16` fields in range, a delivery always returns. It leaves no more messages in flight than the window, or than there
  -- were, and no more held than the limit, or than there were; the window stays as it was.
  pub deliver_lem :
      (c : Connection) (d : Delivery)
      → IsSized c
      → (c' : Connection) × (ok : Bool) × (deliver write c d ≡ some (c', ok))
        × IsSized c'
        × (outbound_window c' ≡ outbound_window c)
        × (length c'.inflight ≤ max (length c.inflight) (outbound_window c))
        × (length c'.pending_outbound ≤ max (length c.pending_outbound) pending_outbound_limit)
  deliver_lem c d s =
      let (c', ok, e, x, w) = deliver-cases c d s in
      (
        c',
        ok,
        e,
        x.sized,
        x.window,
        x.grown,
        elim w [
          | inl t ↦ rw t.pending (
              le_max (length c.pending_outbound) (length c.pending_outbound) pending_outbound_limit
                (omega arith))
          | inr p ↦ rw p (held-length c.pending_outbound d)
        ],
      )

  -- With its `u16` fields in range, a delivery returns and leaves a message that is in flight as it
  -- is: its packet id, its state and its content.
  pub deliver-get :
      (c : Connection) (d : Delivery) (id : ℕ) (m : InflightMessage)
      → IsSized c
      → get id c.inflight ≡ some m
      → (c' : Connection) × (ok : Bool) × (deliver write c d ≡ some (c', ok))
        × (get id c'.inflight ≡ some m)
  deliver-get c d id m s h =
      let (c', ok, e, x, w) = deliver-cases c d s in
      (c', ok, e, elim w [ inl t ↦ Sent-get c c' id m t h | inr p ↦ rw p h ])

  drain_send :
      (d : Delivery) (ds : List Delivery) (c c' : Connection) (ok : Bool)
      → IsSized c
      → ltb (length c.inflight) (outbound_window c) ≡ true
      → send_publish write (record c { pending_outbound = ds }) d ≡ some (c', ok)
      → Sent (record c { pending_outbound = ds }) c'
      → ((c : Connection)
          → IsSized c
          → (c' : Connection) × (ok : Bool) × (drain_loop write ds c ≡ some (c', ok))
            × Drained c c' ok)
      → (c'' : Connection) × (ok' : Bool) × (drain_loop write (d ∷ ds) c ≡ some (c'', ok'))
        × Drained c c'' ok'
  unfolding drain_loop outbound_window
  drain_send d ds c c' false s f e x ih = (
    c',
    false,
    rw (drain_loop, f, e) refl,
    Drained-pending c c' ds false (
        Drained-failed (record c { pending_outbound = ds }) c' x
          (record { next = s.next; receive = s.receive }) f),
  )
  drain_send d ds c c' true s f e x ih =
      let (c'', ok, q, h) = ih c' (record { next = x.ids; receive = rw x.receive s.receive }) in
      (
        c'',
        ok,
        rw (drain_loop, f, e) q,
        Drained-pending c c'' ds ok (
            Drained-step (record c { pending_outbound = ds }) c' c'' ok
              (record { next = s.next; receive = s.receive }) x f h),
      )

  drain_loop-Drained :
      (ds : List Delivery) (c : Connection)
      → IsSized c
      → (c' : Connection) × (ok : Bool) × (drain_loop write ds c ≡ some (c', ok)) × Drained c c' ok
  unfolding drain_loop send_publish
  drain_loop-Drained [] c s = (
    record c { pending_outbound = [] },
    true,
    refl,
    record {
      sized = record { next = s.next; receive = s.receive };
      grown = le_max (length c.inflight) (length c.inflight) (outbound_window c) (omega arith);
      left = inr (inl refl);
      kept = λ id m h. h;
    },
  )
  drain_loop-Drained (d ∷ ds) c s =
      elim (Bool-cases (ltb (length c.inflight) (outbound_window c))) [
        | inr f ↦ (
          record c { pending_outbound = d ∷ ds },
          true,
          rw (drain_loop, f) refl,
          record {
            sized = record { next = s.next; receive = s.receive };
            grown =
                le_max (length c.inflight) (length c.inflight) (outbound_window c) (omega arith);
            left = inr (inr (ground arith));
            kept = λ id m h. h;
          },
        )
        | inl f ↦
            let (c', ok, e, x) =
              send_as-Sent write (record c { pending_outbound = ds }) d d.qos
                (record { next = s.next; receive = s.receive })
                (ground (arith, window_le write c s)) in
            drain_send d ds c c' ok s f e x (λ c s. drain_loop-Drained ds c s)
      ]

  -- With its `u16` fields in range, a drain always returns. If it does not fail, then it leaves no message held, or the window is
  -- full. It leaves no more messages in flight than the window, or than there were.
  pub drain_pending_lem :
      (c : Connection)
      → IsSized c
      → (c' : Connection) × (ok : Bool) × (drain_pending write c ≡ some (c', ok))
        × ((ok ≡ false) ⊎ ((c'.pending_outbound ≡ []) ⊎ (outbound_window c ≤ length c'.inflight)))
        × (length c'.inflight ≤ max (length c.inflight) (outbound_window c))
  unfolding drain_pending
  drain_pending_lem c s =
      let (c', ok, e, h) = drain_loop-Drained c.pending_outbound c s in (c', ok, e, h.left, h.grown)

  -- With its `u16` fields in range, handling a PUBACK always returns, and touches no message in flight but the one that it
  -- acknowledges.
  pub handle_puback-get :
      (pkid id : ℕ) (c : Connection) (m : InflightMessage)
      → IsSized c
      → pkid ≢ id
      → get id c.inflight ≡ some m
      → (c' : Connection) × (ok : Bool) × (handle_puback write pkid c ≡ some (c', ok))
        × (get id c'.inflight ≡ some m)
  unfolding handle_puback drain_pending
  handle_puback-get pkid id c m s ne h = elim (Bool-cases (contains_key pkid c.inflight)) [
    | inr q ↦ (c, true, rw (handle_puback, q) refl, h)
    | inl q ↦
        let (c', ok, e, x) =
          drain_loop-Drained c.pending_outbound (record c { inflight = remove pkid c.inflight })
            (record { next = s.next; receive = s.receive }) in
        (
          c',
          ok,
          rw (handle_puback, q) e,
          x.kept id m (rw (get-remove pkid id c.inflight) (ground (arith, nat_eq.beq_iff pkid id))),
        )
  ]
