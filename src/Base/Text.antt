-- ===== src/Base/Text.antt =====
-- `&str` as the list of its bytes, with the standard library's string functions that the code
-- calls on ASCII patterns: `split('/')`, `join("/")`, `starts_with`, `strip_prefix`, `contains`.
use Prim.Native.Char.{code}
use Prim.Native.String.{String}
use rusquitto.Base.{
  ℕ, ◌≡◌, refl, ap, Bool, false, Option, none, some, List, [], ◌∷◌, ◌++◌, arith, ◌==◌, nat_eq,
  list_eq, option_eq, Eq, if◌then◌else◌, any, All, Bool-cases, inl, inr, ◌≢◌, ◌∙◌,
}

abbrev pub Bytes : Type 0
Bytes = List ℕ

-- The test `==` on byte strings, and on optional ones, under a name for lemma lists.
abbrev pub bytes_eq : Eq Bytes
bytes_eq = list_eq

abbrev pub opt_bytes_eq : Eq (Option Bytes)
opt_bytes_eq = option_eq

-- The bytes of an ASCII text.
abbrev pub codes : String → Bytes
codes String.[] = []
codes (String.◌∷◌ c s) = code c ∷ codes s

abbrev pub slash : ℕ
slash = b'/'

abbrev pub cons_head : ℕ → List Bytes → List Bytes
cons_head c [] = (c ∷ []) ∷ []
cons_head c (s ∷ ss) = (c ∷ s) ∷ ss

-- `s.split('/')`, which has at least one segment.
unfoldable pub split : Bytes → List Bytes
split [] = [] ∷ []
split (c ∷ s) = let rest = split s in if c == slash then [] ∷ rest else cons_head c rest

-- `segments.join("/")`
unfoldable pub join : List Bytes → Bytes
join [] = []
join (s ∷ []) = s
join (s ∷ t ∷ ss) = s ++ slash ∷ join (t ∷ ss)

abbrev pub contains : ℕ → Bytes → Bool
contains c = any (λ x. x == c)

abbrev pub starts_with : ℕ → Bytes → Bool
starts_with c [] = false
starts_with c (x ∷ s) = x == c

-- `s.strip_prefix(p)`
abbrev pub strip_prefix : Bytes → Bytes → Option Bytes
strip_prefix [] s = some s
strip_prefix (c ∷ p) [] = none
strip_prefix (c ∷ p) (x ∷ s) = if c == x then strip_prefix p s else none

abbrev pub before : ℕ → Option (Bytes × Bytes) → Option (Bytes × Bytes)
before c none = none
before c (some (a, b)) = some (c ∷ a, b)

-- `s.split_once('/')`
unfoldable pub split_once : Bytes → Option (Bytes × Bytes)
split_once [] = none
split_once (c ∷ s) = let rest = split_once s in if c == slash then some ([], s) else before c rest

-- A segment holds no separator.
abbrev pub IsSegment : Bytes → Type 0
IsSegment s = contains slash s ≡ false

pub split-ne-nil : (s : Bytes) → split s ≢ []
unfolding split
split-ne-nil [] h = ground arith
split-ne-nil (c ∷ s) h = elim (Bool-cases (c == slash)) [
  | inl p ↦ ground arith
  | inr p ↦ cons_head-ne-nil c (split s) (ground arith)
]
  where
    cons_head-ne-nil : (d : ℕ) (ss : List Bytes) → cons_head d ss ≢ []
    cons_head-ne-nil d [] e = ground arith
    cons_head-ne-nil d (t ∷ ss) e = ground arith

join-cons_head : (c : ℕ) (ss : List Bytes) → join (cons_head c ss) ≡ c ∷ join ss
unfolding join
join-cons_head c [] = refl
join-cons_head c (s ∷ []) = refl
join-cons_head c (s ∷ t ∷ ss) = refl

join-nil_cons : (ss : List Bytes) → ss ≢ [] → join ([] ∷ ss) ≡ slash ∷ join ss
unfolding join
join-nil_cons [] h = absurd (h refl)
join-nil_cons (s ∷ ss) h = refl

-- A text is the join of its segments.
pub join-split : (s : Bytes) → join (split s) ≡ s
unfolding split
join-split [] = unfold join in refl
join-split (c ∷ s) = elim (Bool-cases (c == slash)) [
  | inl p ↦
      rw (p, join-nil_cons (split s) (split-ne-nil s), join-split s)
        (ground (arith, nat_eq.beq_iff c slash))
  | inr p ↦ rw (p, join-cons_head c (split s), join-split s)
]

split-segment : (s : Bytes) → IsSegment s → split s ≡ s ∷ []
unfolding split
split-segment [] h = refl
split-segment (c ∷ s) h = ground (arith, split-segment s)

split-append_slash : (s r : Bytes) → IsSegment s → split (s ++ slash ∷ r) ≡ s ∷ split r
unfolding split
split-append_slash [] r h = refl
split-append_slash (c ∷ s) r h = ground (arith, split-append_slash s r)

-- Segments without separators are recovered from their join.
pub split-join : (ss : List Bytes) → ss ≢ [] → All IsSegment ss → split (join ss) ≡ ss
unfolding join
split-join [] h a = absurd (h refl)
split-join (s ∷ []) h a = split-segment s a.0
split-join (s ∷ t ∷ ss) h a =
    split-append_slash s (join (t ∷ ss)) a.0
    ∙ ap (◌∷◌ s) (split-join (t ∷ ss) (λ e. ground arith) a.1)

cons_head-IsSegment :
    (c : ℕ) (ss : List Bytes)
    → (c == slash) ≡ false
    → All IsSegment ss
    → All IsSegment (cons_head c ss)
cons_head-IsSegment c [] h a = ground arith
cons_head-IsSegment c (s ∷ ss) h a = (ground arith, a.1)

pub split-IsSegment : (s : Bytes) → All IsSegment (split s)
unfolding split
split-IsSegment [] = (refl, tt)
split-IsSegment (c ∷ s) = elim (Bool-cases (c == slash)) [
  | inl p ↦ rw p (refl, split-IsSegment s)
  | inr p ↦ rw p (cons_head-IsSegment c (split s) p (split-IsSegment s))
]

starts_with-append :
    (c : ℕ) (s r : Bytes) → c ≢ slash → starts_with c (s ++ slash ∷ r) ≡ starts_with c s
starts_with-append c [] r h = ground (arith, nat_eq.beq_iff slash c)
starts_with-append c (x ∷ s) r h = refl

-- A text starts with the byte that its first segment starts with.
pub starts_with-join :
    (c : ℕ) (s : Bytes) (ss : List Bytes)
    → c ≢ slash
    → starts_with c (join (s ∷ ss)) ≡ starts_with c s
unfolding join
starts_with-join c s [] h = refl
starts_with-join c s (t ∷ ss) h = starts_with-append c s (join (t ∷ ss)) h

contains-cons_head :
    (c x : ℕ) (ss : List Bytes)
    → (x == c) ≡ false
    → All (λ s. contains c s ≡ false) ss
    → All (λ s. contains c s ≡ false) (cons_head x ss)
contains-cons_head c x [] h a = ground arith
contains-cons_head c x (s ∷ ss) h a = (ground arith, a.1)

-- The segments of a text that lacks a byte lack it too.
pub contains-split :
    (c : ℕ) (s : Bytes) → contains c s ≡ false → All (λ t. contains c t ≡ false) (split s)
unfolding split
contains-split c [] h = (refl, tt)
contains-split c (x ∷ s) h = elim (Bool-cases (x == slash)) [
  | inl p ↦ rw p (refl, contains-split c s (ground arith))
  | inr p ↦
      rw p (contains-cons_head c x (split s) (ground arith) (contains-split c s (ground arith)))
]
