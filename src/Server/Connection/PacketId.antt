-- ===== src/Server/Connection/PacketId.antt =====
-- src/server/connection/delivery.rs: the packet-id allocator finds a free id.
use rusquitto.Base.{
  ℕ, zero, suc, ◌+◌, ◌≤◌, ◌<◌, ◌≡◌, ◌≢◌, refl, sym, ◌∙◌, subst, ◌⊎◌, inl, inr, true, false, Option,
  none, some, nat_eq, length, arith, Bool-cases,
}
use rusquitto.Base.Assoc.{Assoc, get, remove, contains_key, get-remove, length-remove_lt}
use rusquitto.Broker.Messages.{InflightMessage}
use rusquitto.Server.Connection.{Connection, next_id, alloc_loop, alloc_pkid}

next_id-range : (k : ℕ) → (1 ≤ next_id k) × (next_id k ≤ 65535)
unfolding next_id
next_id-range k = (ground arith, ground arith)

-- The next `n` ids after `k` do not reach `j`.
abbrev Clear : ℕ → ℕ → ℕ → Type 0
Clear n k j = ((k < j) × (k + n < j)) ⊎ ((j ≤ k) × (k + n < j + 65535))

next_id-cases :
    (k : ℕ) → k ≤ 65535 → ((k < 65535) × (next_id k ≡ k + 1)) ⊎ ((k ≡ 65535) × (next_id k ≡ 1))
unfolding next_id
next_id-cases k h = ground arith

Clear-next_up : (n k j : ℕ) → k < 65535 → Clear (suc n) k j → (k + 1 ≢ j) × Clear n (k + 1) j
Clear-next_up n k j c (inl (p, q)) = (λ e. omega arith, inl (omega arith, omega arith))
Clear-next_up n k j c (inr (p, q)) = (λ e. omega arith, inr (omega arith, omega arith))

Clear-next_wrap : (n j : ℕ) → 1 ≤ j → j ≤ 65535 → Clear (suc n) 65535 j → (1 ≢ j) × Clear n 1 j
Clear-next_wrap n j a b (inl (p, q)) = absurd (omega arith)
Clear-next_wrap n j a b (inr (p, q)) = (λ e. omega arith, inl (omega arith, omega arith))

Clear-next :
    (n k j : ℕ)
    → 1 ≤ j
    → j ≤ 65535
    → k ≤ 65535
    → Clear (suc n) k j
    → (next_id k ≢ j) × Clear n (next_id k) j
Clear-next n k j a b c h = elim (next_id-cases k c) [
  | inl (p, e) ↦ rw e (Clear-next_up n k j p h)
  | inr (p, e) ↦ rw e (Clear-next_wrap n j a b (subst (λ k. Clear (suc n) k j) p h))
]

contains_key-remove :
    (i j : ℕ) (m : Assoc ℕ InflightMessage) → i ≢ j → contains_key i (remove j m) ≡ contains_key i m
contains_key-remove i j m h =
    rw (contains_key, get-remove j i m) (ground (arith, nat_eq.beq_iff j i))

-- An id that the rounds do not reach may be dropped from the table.
alloc_loop-remove :
    (n k j : ℕ) (m : Assoc ℕ InflightMessage)
    → 1 ≤ j
    → j ≤ 65535
    → k ≤ 65535
    → Clear n k j
    → alloc_loop n k (remove j m) ≡ alloc_loop n k m
unfolding alloc_loop
alloc_loop-remove zero k j m a b c h = refl
alloc_loop-remove (suc n) k j m a b c h =
    let (ne, next) = Clear-next n k j a b c h in
    rw
      (
        contains_key-remove (next_id k) j m ne,
        alloc_loop-remove n (next_id k) j m a b (next_id-range k).1 next,
      )
      refl

abbrev Free : ℕ → Assoc ℕ InflightMessage → Type 0
Free id m = (1 ≤ id) × (id ≤ 65535) × (get id m ≡ none)

get-contains_key : (k : ℕ) (m : Assoc ℕ InflightMessage) → contains_key k m ≡ false → get k m ≡ none
get-contains_key k m h = go (get k m) h
  where
    go : (o : Option InflightMessage) → (elim o [ none ↦ false | some v ↦ true ]) ≡ false → o ≡ none
    go none h = refl
    go (some v) h = cc

alloc_loop-Free :
    (n k : ℕ) (m : Assoc ℕ InflightMessage) (id : ℕ) → alloc_loop n k m ≡ some id → Free id m
unfolding alloc_loop
alloc_loop-Free zero k m id e = cc
alloc_loop-Free (suc n) k m id e = elim (Bool-cases (contains_key (next_id k) m)) [
  | inr q ↦
      subst (λ i. Free i m) (given (next_id k) id (rw q at e))
        ((next_id-range k).0, (next_id-range k).1, get-contains_key (next_id k) m q)
  | inl q ↦ alloc_loop-Free n (next_id k) m id (rw q at e)
]
  where
    given : (a b : ℕ) → some a ≡ some b → a ≡ b
    given a b e = cc

alloc_loop-found :
    (n k : ℕ) (m : Assoc ℕ InflightMessage)
    → length m < n
    → n ≤ 65535
    → k ≤ 65535
    → (id : ℕ) × (alloc_loop n k m ≡ some id)
unfolding alloc_loop
alloc_loop-found zero k m h b c = absurd (omega arith)
alloc_loop-found (suc n) k m h b c = elim (Bool-cases (contains_key (next_id k) m)) [
  | inr e ↦ (next_id k, rw e refl)
  | inl e ↦
      let (id, q) =
        alloc_loop-found n (next_id k) (remove (next_id k) m)
          (ground (arith, length-remove_lt (next_id k) m)) (omega arith) (next_id-range k).1 in
      (
        id,
        rw e (
            sym (
              alloc_loop-remove n (next_id k) (next_id k) m (next_id-range k).0 (next_id-range k).1
                (next_id-range k).1 (inr (omega arith, omega arith)))
            ∙ q),
      )
]

-- The allocator returns as long as fewer than 65535 messages are in flight and `next_pkid` is in
-- the range of `u16`, and what it returns is a packet id from 1 to 65535 that no message in flight
-- has.
pub alloc_pkid_lem :
    (c : Connection)
    → c.next_pkid ≤ 65535
    → length c.inflight < 65535
    → (id : ℕ) × (alloc_pkid c ≡ some id) × (1 ≤ id) × (id ≤ 65535) × (get id c.inflight ≡ none)
unfolding alloc_pkid
alloc_pkid_lem c k h =
    let (id, e) = alloc_loop-found 65535 c.next_pkid c.inflight h (omega arith) k in
    let (low, high, free) = alloc_loop-Free 65535 c.next_pkid c.inflight id e in
    (id, e, low, high, free)
