-- ===== src/Persistence/Wal/Replay.antt =====
-- src/persistence/wal.rs: replaying a log gives the state that its records describe, also where a
-- crash has cut the last record short.
use mathlib.Core.List.{append_assoc, append-nil}
use rusquitto.Base.{
  ℕ, zero, suc, ◌+◌, ◌≤◌, ◌<◌, ◌≡◌, ◌≢◌, refl, sym, ap, ◌∙◌, subst, Bool, Option, none, some, List,
  [], ◌∷◌, ◌++◌, ◌==◌, nat_eq, list_eq, if◌then◌else◌, length, length-append, arith, All, option_eq,
}
use rusquitto.Base.Text.{Bytes}
use rusquitto.Base.Assoc.{get, get-insert, get-remove}
use rusquitto.Broker.Messages.{PersistedSession}
use rusquitto.Persistence.Codec.{Wire, ◌⊕◌}
use rusquitto.Persistence.Session.{put_each}
use rusquitto.Persistence.Session.Laws.{placed_session}
use rusquitto.Persistence.Wal.{
  frame, Record, upsert, removal, Sessions, apply_record, next_record, apply_loop, apply,
}
use rusquitto.Persistence.Wal.Laws.{
  payload, encode_record, placed_record, RecordFits, some_inj, none-some, framed-cases,
  encode_record-framed, payload-pos, next_record-frame, next_record-torn,
}

⊕-cases :
    (a b : Option Bytes) (bs : Bytes)
    → a ⊕ b ≡ some bs
    → (x y : Bytes) × (a ≡ some x) × (b ≡ some y) × (x ++ y ≡ bs)
unfolding ◌⊕◌
⊕-cases none b bs e = absurd (none-some bs e)
⊕-cases (some x) none bs e = absurd (none-some bs e)
⊕-cases (some x) (some y) bs e = (x, y, refl, refl, some_inj (x ++ y) bs e)

framed_pos : (p x : Bytes) → frame p ≡ x → 0 < length x
unfolding frame
framed_pos p x e = subst (λ y. 0 < length y) e (ground arith)

sum_le : (a b s n : ℕ) → 0 < a → n ≤ b → s ≡ a + b → suc n ≤ s
sum_le a b s n p q e = omega arith

-- What the records say, one after the other.
abbrev pub replayed : List Record → Sessions → Sessions
replayed [] m = m
replayed (r ∷ rs) m = replayed rs (apply_record (placed_record r) m)

-- What the last record of a client id says of it, or `before` if no record has that id.
unfoldable pub last_word : List Record → Bytes → Option PersistedSession → Option PersistedSession
last_word [] id before = before
last_word (upsert ps ∷ rs) id before =
    last_word rs id (if ps.client_id == id then some (placed_session ps) else before)
last_word (removal k ∷ rs) id before = last_word rs id (if k == id then none else before)

module _ (utf8 : Bytes → Bool) (w : Wire) where
  apply_loop-stop :
      (t : Bytes) (m : Sessions) (n fuel : ℕ)
      → next_record utf8 w t ≡ none
      → apply_loop utf8 w fuel t m n ≡ (m, n)
  unfolding apply_loop
  apply_loop-stop t m n zero stop = refl
  apply_loop-stop t m n (suc fuel) stop = rw (apply_loop, stop) refl

  apply_loop-step :
      (r : Record) (p rest : Bytes) (m : Sessions) (n fuel : ℕ)
      → RecordFits utf8 w r
      → payload w r ≡ some p
      → apply_loop utf8 w (suc fuel) (frame p ++ rest) m n
        ≡ apply_loop utf8 w fuel rest (apply_record (placed_record r) m) (suc n)
  unfolding apply_loop
  apply_loop-step r p rest m n fuel h e =
      rw
        (
          apply_loop,
          next_record-frame utf8 w r p rest h.content (h.short p e) e (payload-pos utf8 w r p e),
        )
        refl

  apply_loop-records :
      (rs : List Record) (t bs : Bytes) (m : Sessions) (n fuel : ℕ)
      → All (λ r. RecordFits utf8 w r) rs
      → put_each (encode_record w) rs ≡ some bs
      → next_record utf8 w t ≡ none
      → length rs < fuel
      → apply_loop utf8 w fuel (bs ++ t) m n ≡ (replayed rs m, length rs + n)
  apply_loop-records rs t bs m n zero hs e stop f = absurd (ground arith)
  apply_loop-records [] t bs m n (suc fuel) hs e stop f =
      rw (sym (some_inj [] bs e))
        (apply_loop-stop t m n (suc fuel) stop ∙ ap (λ k. (m, k)) (omega arith))
  apply_loop-records (r ∷ rs) t bs m n (suc fuel) hs e stop f =
      parts
        (λ y ey.
          apply_loop-records rs t y (apply_record (placed_record r) m) (suc n) fuel hs.1 ey stop
            (ground arith))
        (⊕-cases (encode_record w r) (put_each (encode_record w) rs) bs e)
    where
      Rest : Type 0
      Rest =
          (y : Bytes)
          → put_each (encode_record w) rs ≡ some y
          → apply_loop utf8 w fuel (y ++ t) (apply_record (placed_record r) m) (suc n)
            ≡ (replayed rs (apply_record (placed_record r) m), length rs + suc n)

      after :
          Rest
          → (x y p : Bytes) → put_each (encode_record w) rs ≡ some y
          → payload w r ≡ some p
          → frame p ≡ x
          → apply_loop utf8 w (suc fuel) ((x ++ y) ++ t) m n
            ≡ (replayed rs (apply_record (placed_record r) m), suc (length rs) + n)
      after ih x y p ey ep ex =
          rw (append_assoc x y t, sym ex, apply_loop-step r p (y ++ t) m n fuel hs.0 ep, ih y ey)
            (ap (λ k. (replayed rs (apply_record (placed_record r) m), k)) (omega arith))

      parts :
          Rest
          → (x y : Bytes) × (encode_record w r ≡ some x)
            × (put_each (encode_record w) rs ≡ some y)
            × (x ++ y ≡ bs)
          → apply_loop utf8 w (suc fuel) (bs ++ t) m n
            ≡ (replayed rs (apply_record (placed_record r) m), suc (length rs) + n)
      parts ih (x, y, ex, ey, exy) =
          let c = framed-cases (payload w r) x (sym (encode_record-framed utf8 w r) ∙ ex) in
          subst
            (λ z.
              apply_loop utf8 w (suc fuel) (z ++ t) m n
              ≡ (replayed rs (apply_record (placed_record r) m), suc (length rs) + n))
            exy (after ih x y c.0 ey c.1 c.2)

  -- Every frame has four bytes or more: the fuel is the length of the log and one more.
  length-log :
      (rs : List Record) (bs : Bytes)
      → put_each (encode_record w) rs ≡ some bs
      → length rs ≤ length bs
  length-log [] bs e = omega arith
  length-log (r ∷ rs) bs e =
      longer (⊕-cases (encode_record w r) (put_each (encode_record w) rs) bs e) (length-log rs)
    where
      longer :
          (x y : Bytes) × (encode_record w r ≡ some x)
            × (put_each (encode_record w) rs ≡ some y)
            × (x ++ y ≡ bs)
          → ((y : Bytes) → put_each (encode_record w) rs ≡ some y → length rs ≤ length y)
          → suc (length rs) ≤ length bs
      longer (x, y, ex, ey, exy) ih =
          let c = framed-cases (payload w r) x (sym (encode_record-framed utf8 w r) ∙ ex) in
          sum_le (length x) (length y) (length bs) (length rs) (framed_pos c.0 x c.2) (ih y ey)
            (sym (ap length exy) ∙ length-append x y)

  get-replayed :
      (rs : List Record) (id : Bytes) (m : Sessions)
      → get id (replayed rs m) ≡ last_word rs id (get id m)
  unfolding apply_record last_word
  get-replayed [] id m = refl
  get-replayed (upsert ps ∷ rs) id m =
      get-replayed rs id _ ∙ ap (last_word rs id) (get-insert ps.client_id id (placed_session ps) m)
  get-replayed (removal k ∷ rs) id m =
      get-replayed rs id _ ∙ ap (last_word rs id) (get-remove k id m)

  apply-records :
      (rs : List Record) (t bs : Bytes) (m : Sessions)
      → All (λ r. RecordFits utf8 w r) rs
      → put_each (encode_record w) rs ≡ some bs
      → next_record utf8 w t ≡ none
      → apply utf8 w (bs ++ t) m ≡ (replayed rs m, length rs)
  unfolding apply
  apply-records rs t bs m hs e stop =
      apply_loop-records rs t bs m 0 (suc (length (bs ++ t))) hs e stop
        (rw (length-append bs t) (enough (length rs) (length bs) (length t) (length-log rs bs e)))
      ∙ ap (λ k. (replayed rs m, k)) (omega arith)
    where
      enough : (a b c : ℕ) → a ≤ b → a < suc (b + c)
      enough a b c h = omega arith

  replay_lem :
      (rs : List Record) (t bs id : Bytes) (m : Sessions)
      → All (λ r. RecordFits utf8 w r) rs
      → put_each (encode_record w) rs ≡ some bs
      → next_record utf8 w t ≡ none
      → ((apply utf8 w (bs ++ t) m).1 ≡ length rs)
        × (get id (apply utf8 w (bs ++ t) m).0 ≡ last_word rs id (get id m))
  replay_lem rs t bs id m hs e stop =
      rw (apply-records rs t bs m hs e stop) (refl, get-replayed rs id m)

  nothing_left : next_record utf8 w [] ≡ none
  unfolding next_record
  nothing_left = refl

  -- Replaying the log of some records applies each of them, and each client id then has what its
  -- last record says: that session, or none after a tombstone, or what was there before if no
  -- record has the id. The records fit the widths of the encoding.
  pub apply-whole :
      (rs : List Record) (bs id : Bytes) (m : Sessions)
      → All (λ r. RecordFits utf8 w r) rs
      → put_each (encode_record w) rs ≡ some bs
      → ((apply utf8 w bs m).1 ≡ length rs)
        × (get id (apply utf8 w bs m).0 ≡ last_word rs id (get id m))
  apply-whole rs bs id m hs e =
      subst
        (λ z.
          ((apply utf8 w z m).1 ≡ length rs)
          × (get id (apply utf8 w z m).0 ≡ last_word rs id (get id m)))
        (append-nil bs) (replay_lem rs [] bs id m hs e nothing_left)

  -- Replaying the log of some records and a strict prefix of one further record, as a crash in an
  -- append leaves it, applies each of the records before and ignores the prefix: each client id
  -- has what its last record says, or what was there before if no record has the id. All records
  -- fit the widths of the encoding.
  pub apply-torn :
      (rs : List Record) (r : Record) (bs t u id : Bytes) (m : Sessions)
      → All (λ r. RecordFits utf8 w r) rs
      → RecordFits utf8 w r
      → put_each (encode_record w) rs ≡ some bs
      → encode_record w r ≡ some (t ++ u)
      → u ≢ []
      → ((apply utf8 w (bs ++ t) m).1 ≡ length rs)
        × (get id (apply utf8 w (bs ++ t) m).0 ≡ last_word rs id (get id m))
  apply-torn rs r bs t u id m hs h e e' ne =
      let c = framed-cases (payload w r) (t ++ u) (sym (encode_record-framed utf8 w r) ∙ e') in
      replay_lem rs t bs id m hs e (next_record-torn utf8 w c.0 t u (h.short c.0 c.1) c.2 ne)
