-- ===== src/Persistence/Wal/Laws.antt =====
-- src/persistence/wal.rs: one frame of the log, whole or cut short, as `apply` reads it.
use rusquitto.Base.{
  ℕ, ◌/◌, ◌%◌, ◌<◌, ◌≡◌, ◌≢◌, refl, sym, subst, inl, inr, Bool, true, false, ◌||◌, Option, none,
  some, [], ◌∷◌, ◌++◌, ◌==◌, nat_eq, list_eq, length, length-append, ltb, arith, Option-cases,
  option_eq,
}
use rusquitto.Base.Text.{Bytes}
use rusquitto.Persistence.Codec.{Wire, u16_mod, u32_mod, put_u8, put_str, ◌⊕◌}
use rusquitto.Persistence.Codec.Laws.{
  Decodes, Decodes-of, Decodes-bind, Decodes-last, get_u8-Returns, get_u32-Returns, get_str-Returns,
}
use rusquitto.Persistence.Session.{encode_session}
use rusquitto.Persistence.Session.Laws.{SessionFits, placed_session, decode_session-Decodes}
use rusquitto.Persistence.Wal.{
  kind_upsert, kind_remove, frame, framed, encode_upsert, encode_remove, Record, upsert, removal,
  read_upsert, read_removal, read_kind, read_record, next_record,
}

-- The body of a record, and the record as it stands in the log.
abbrev pub payload : Wire → Record → Option Bytes
payload w (upsert ps) = some (put_u8 kind_upsert) ⊕ encode_session w ps
payload w (removal id) = some (put_u8 kind_remove) ⊕ some (put_str id)

unfoldable pub encode_record : Wire → Record → Option Bytes
encode_record w (upsert ps) = encode_upsert w ps
encode_record w (removal id) = some (encode_remove id)

abbrev pub placed_record : Record → Record
placed_record (upsert ps) = upsert (placed_session ps)
placed_record (removal id) = removal id

abbrev ContentFits : (Bytes → Bool) → Wire → Record → Type 0
ContentFits utf8 w (upsert ps) = SessionFits utf8 w ps
ContentFits utf8 w (removal id) = (length id < u16_mod) × (utf8 id ≡ true)

pub some_inj : (a b : Bytes) → some a ≡ some b → a ≡ b
some_inj a b e = cc

pub none-some : (x : Bytes) → none ≢ some x
none-some x q = cc

pub framed-cases :
    (o : Option Bytes) (bs : Bytes)
    → framed o ≡ some bs
    → (p : Bytes) × (o ≡ some p) × (frame p ≡ bs)
framed-cases none bs e = absurd (none-some bs e)
framed-cases (some p) bs e = (p, refl, some_inj (frame p) bs e)

cut_short :
    (p t u : Bytes) → p ≡ t ++ u → u ≢ [] → ((length p == 0) || ltb (length t) (length p)) ≡ true
cut_short p t [] e ne = absurd (ne refl)
cut_short p t (x ∷ u) e ne = rw (e, length-append t (x ∷ u)) (ground arith)

-- A record whose parts and whole fit the fixed widths of the encoding.
pub record RecordFits (utf8 : Bytes → Bool) (w : Wire) (r : Record) : Type 0 where
  pub content : ContentFits utf8 w r
  pub short : (p : Bytes) → payload w r ≡ some p → length p < u32_mod

module _ (utf8 : Bytes → Bool) (w : Wire) where
  read_record-Decodes :
      (r : Record)
      → ContentFits utf8 w r
      → Decodes (payload w r) (read_record utf8 w) (placed_record r)
  unfolding read_record read_kind read_upsert read_removal
  read_record-Decodes (upsert ps) h =
      Decodes-bind _ (Decodes-of (get_u8-Returns kind_upsert))
        (Decodes-last _ (decode_session-Decodes utf8 w ps h))
  read_record-Decodes (removal id) h =
      Decodes-bind _ (Decodes-of (get_u8-Returns kind_remove))
        (Decodes-last _ (Decodes-of (get_str-Returns utf8 id h.0 h.1)))

  pub encode_record-framed : (r : Record) → encode_record w r ≡ framed (payload w r)
  unfolding encode_record encode_upsert encode_remove ◌⊕◌
  encode_record-framed (upsert ps) = refl
  encode_record-framed (removal id) = refl

  pub payload-pos : (r : Record) (p : Bytes) → payload w r ≡ some p → 0 < length p
  unfolding ◌⊕◌
  payload-pos (upsert ps) p e = elim (Option-cases (encode_session w ps)) [
    | inl n ↦ absurd (none-some p (subst (λ o. some (put_u8 kind_upsert) ⊕ o ≡ some p) n e))
    | inr (b, q) ↦
        subst (λ x. 0 < length x)
          (some_inj (kind_upsert ∷ b) p (subst (λ o. some (put_u8 kind_upsert) ⊕ o ≡ some p) q e))
          (kind_first b)
  ]
    where
      kind_first : (b : Bytes) → 0 < length (kind_upsert ∷ b)
      kind_first b = ground arith
  payload-pos (removal id) p e = subst (λ x. 0 < length x) (some_inj _ p e) (ground arith)

  frame_room : (p rest : Bytes) → ltb (length (frame p ++ rest)) 4 ≡ false
  unfolding frame
  frame_room p rest = ground arith

  small : (n : ℕ) → n < u32_mod → n % u32_mod ≡ n
  small n h = omega arith

  pub next_record-frame :
      (r : Record) (p rest : Bytes)
      → ContentFits utf8 w r
      → length p < u32_mod
      → payload w r ≡ some p
      → 0 < length p
      → next_record utf8 w (frame p ++ rest) ≡ some (placed_record r, rest)
  unfolding next_record frame
  next_record-frame r p rest h short e pos =
      rw
        (
          small (length p) short,
          get_u32-Returns (length p) short (p ++ rest),
          body_there (length p) p rest refl pos,
          (read_record-Decodes r h).back p e rest,
        )
        (rw (frame_room p rest) refl)
    where
      body_there :
          (n : ℕ) (p rest : Bytes)
          → length p ≡ n
          → 0 < n
          → ((n == 0) || ltb (length (p ++ rest)) n) ≡ false
      body_there n p rest e pos = rw (length-append p rest, e) (ground arith)

  pub next_record-torn :
      (p t u : Bytes) → length p < u32_mod → frame p ≡ t ++ u → u ≢ [] → next_record utf8 w t ≡ none
  unfolding next_record frame
  next_record-torn p [] u h e ne = refl
  next_record-torn p (a ∷ []) u h e ne = refl
  next_record-torn p (a ∷ b ∷ []) u h e ne = refl
  next_record-torn p (a ∷ b ∷ c ∷ []) u h e ne = refl
  next_record-torn p (a ∷ b ∷ c ∷ d ∷ t) u h e ne = whole (heads _ _ _ _ _ _ _ _ _ _ e)
    where
      heads :
          (x0 x1 x2 x3 a b c d : ℕ) (p q : Bytes)
          → x0 ∷ x1 ∷ x2 ∷ x3 ∷ p ≡ a ∷ b ∷ c ∷ d ∷ q
          → (x0 ≡ a) × (x1 ≡ b) × (x2 ≡ c) × (x3 ≡ d) × (p ≡ q)
      heads x0 x1 x2 x3 a b c d p q e = (cc, cc, cc, cc, cc)

      whole :
          (length p % u32_mod % 256 ≡ a)
            × ((length p % u32_mod / 256) % 256 ≡ b)
            × ((length p % u32_mod / 65536) % 256 ≡ c)
            × ((length p % u32_mod / 16777216) % 256 ≡ d)
            × (p ≡ t ++ u)
          → next_record utf8 w (a ∷ b ∷ c ∷ d ∷ t) ≡ none
      whole q =
          rw
            (
              sym q.0,
              sym q.1,
              sym q.2,
              sym q.3,
              small (length p) h,
              get_u32-Returns (length p) h t,
              cut_short p t u q.4 ne,
            )
            (ground arith)
