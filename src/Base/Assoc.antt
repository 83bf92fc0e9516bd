-- ===== src/Base/Assoc.antt =====
-- `HashMap` as an association list in an unspecified order. `insert` replaces the value of a key
-- or adds a pair; `remove` drops the key.
use mathlib.Core.List.{append_assoc, append-nil}
use rusquitto.Base.{
  ℕ, nat_eq, sym, ◌∙◌, ◌++◌, ◌≢◌, suc, ◌+◌, ◌≤◌, ◌≡◌, refl, Bool, true, false, Option, none, some,
  List, [], ◌∷◌, arith, Eq, ◌==◌, if◌then◌else◌, length,
}

abbrev pub Assoc {ℓ κ} : Type ℓ → Type κ → Type (ℓ ⊔ κ)
Assoc K V = List (K × V)

module _ {ℓ κ} {K : Type ℓ} {V : Type κ} ⦃e : Eq K⦄ where
  abbrev pub get : K → Assoc K V → Option V
  get k [] = none
  get k ((j, v) ∷ m) = if j == k then some v else get k m

  abbrev pub insert : K → V → Assoc K V → Assoc K V
  insert k v [] = (k, v) ∷ []
  insert k v ((j, w) ∷ m) = if j == k then (k, v) ∷ m else (j, w) ∷ insert k v m

  abbrev pub remove : K → Assoc K V → Assoc K V
  remove k [] = []
  remove k ((j, w) ∷ m) = if j == k then remove k m else (j, w) ∷ remove k m

  abbrev pub contains_key : K → Assoc K V → Bool
  contains_key k m = elim (get k m) [ none ↦ false | some v ↦ true ]

module _ {ℓ κ} {K : Type ℓ} {V : Type κ} ⦃e : Eq K⦄ where
  pub get-insert :
      (k j : K) (v : V) (m : Assoc K V)
      → get j (insert k v m) ≡ (if k == j then some v else get j m)
  get-insert k j v [] = refl
  get-insert k j v ((i, w) ∷ m) =
      ground (arith, e.beq_iff k j, e.beq_iff i k, e.beq_iff i j, get-insert k j v m)

  pub get-remove :
      (k j : K) (m : Assoc K V) → get j (remove k m) ≡ (if k == j then none else get j m)
  get-remove k j [] = ground arith
  get-remove k j ((i, w) ∷ m) =
      ground (arith, e.beq_iff k j, e.beq_iff i k, e.beq_iff i j, get-remove k j m)

  pub get-insert_self : (k : K) (v : V) (m : Assoc K V) → get k (insert k v m) ≡ some v
  get-insert_self k v m = ground (arith, e.beq_iff k k, get-insert k k v m)

  pub get-remove_self : (k : K) (m : Assoc K V) → get k (remove k m) ≡ none
  get-remove_self k m = ground (arith, e.beq_iff k k, get-remove k k m)

  pub length-insert :
      (k : K) (v : V) (m : Assoc K V)
      → length (insert k v m) ≡ (if contains_key k m then length m else suc (length m))
  length-insert k v [] = refl
  length-insert k v ((j, w) ∷ m) = ground (arith, length-insert k v m)

  pub length-remove_le : (k : K) (m : Assoc K V) → length (remove k m) ≤ length m
  length-remove_le k [] = omega arith
  length-remove_le k ((j, w) ∷ m) = ground (arith, length-remove_le k m)

  pub length-remove_lt :
      (k : K) (m : Assoc K V) → contains_key k m ≡ true → length (remove k m) + 1 ≤ length m
  length-remove_lt k [] h = ground arith
  length-remove_lt k ((j, w) ∷ m) h = ground (arith, length-remove_le k m, length-remove_lt k m)

module _ {ℓ} {V : Type ℓ} where
  -- Every key stands once.
  abbrev pub IsMap : Assoc ℕ V → Type ℓ
  IsMap [] = Unit
  IsMap ((k, v) ∷ m) = (get k m ≡ none) × IsMap m

  abbrev pub inserts : Assoc ℕ V → Assoc ℕ V → Assoc ℕ V
  inserts out [] = out
  inserts out ((k, v) ∷ m) = inserts (insert k v out) m

  insert_fresh : (k : ℕ) (v : V) (m : Assoc ℕ V) → get k m ≡ none → insert k v m ≡ m ++ (k, v) ∷ []
  insert_fresh k v [] h = refl
  insert_fresh k v ((j, w) ∷ m) h = ground (arith, insert_fresh k v m)

  fresh_prefix : (k : ℕ) (v : V) (out m : Assoc ℕ V) → IsMap (out ++ (k, v) ∷ m) → get k out ≡ none
  fresh_prefix k v [] m h = refl
  fresh_prefix k v ((j, w) ∷ out) m h =
      ground (arith, fresh_prefix k v out m h.1, missing k v j out m h.0, nat_eq.beq_iff j k)
    where
      missing :
          (k : ℕ) (v : V) (j : ℕ) (out m : Assoc ℕ V) → get j (out ++ (k, v) ∷ m) ≡ none → j ≢ k
      missing k v j [] m h e = ground (arith, nat_eq.beq_iff k j)
      missing k v j ((i, x) ∷ out) m h e = ground (arith, missing k v j out m)

  -- Inserting the pairs of a map one by one gives the map.
  pub inserts_all : (out m : Assoc ℕ V) → IsMap (out ++ m) → inserts out m ≡ out ++ m
  inserts_all out [] h = sym (append-nil out)
  inserts_all out ((k, v) ∷ m) h =
      rw (insert_fresh k v out (fresh_prefix k v out m h))
        (inserts_all (out ++ (k, v) ∷ []) m (rw append_assoc h) ∙ append_assoc out ((k, v) ∷ []) m)
