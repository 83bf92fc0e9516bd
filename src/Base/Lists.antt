-- ===== src/Base/Lists.antt =====
-- Lists measured and filtered by Boolean tests, over the native numbers.
use Prim.Native.Nat.{ℕ, zero, suc, ◌+◌, ◌≤◌}
use mathlib.Core.Path.{◌≡◌, refl, ap}
use mathlib.Core.Bool.{Bool, true, false, ◌&&◌}
use mathlib.Core.List.{List, [], ◌∷◌, ◌++◌, map}
use native.Mathlib.Omega.{arith}
use rusquitto.Base.Tests.{if◌then◌else◌}

module _ {ℓ} {A : Type ℓ} where
  abbrev pub length : List A → ℕ
  length [] = 0
  length (x ∷ xs) = suc (length xs)

  pub length-append : (xs ys : List A) → length (xs ++ ys) ≡ length xs + length ys
  length-append [] ys = omega arith
  length-append (x ∷ xs) ys = omega (arith, length-append xs ys)

  abbrev pub is_empty : List A → Bool
  is_empty [] = true
  is_empty (x ∷ xs) = false

  abbrev pub any : (A → Bool) → List A → Bool
  any p [] = false
  any p (x ∷ xs) = if p x then true else any p xs

  -- `Vec::retain`: the elements that pass the test, in order.
  abbrev pub retain : (A → Bool) → List A → List A
  retain p [] = []
  retain p (x ∷ xs) = if p x then x ∷ retain p xs else retain p xs

  abbrev pub All {κ} : (A → Type κ) → List A → Type κ
  All P [] = Unit
  All P (x ∷ xs) = P x × All P xs

  abbrev pub take : ℕ → List A → List A
  take zero xs = []
  take (suc n) [] = []
  take (suc n) (x ∷ xs) = x ∷ take n xs

  abbrev pub drop : ℕ → List A → List A
  drop zero xs = xs
  drop (suc n) [] = []
  drop (suc n) (x ∷ xs) = drop n xs

module _ {ℓ} {A : Type ℓ} where
  pub retain-append :
      (p : A → Bool) (xs ys : List A) → retain p (xs ++ ys) ≡ retain p xs ++ retain p ys
  retain-append p [] ys = refl
  retain-append p (x ∷ xs) ys = ground (arith, retain-append p xs ys)

  pub length-retain-le : (p : A → Bool) (xs : List A) → length (retain p xs) ≤ length xs
  length-retain-le p [] = omega arith
  length-retain-le p (x ∷ xs) = ground (arith, length-retain-le p xs)

  pub retain-eq_of_all :
      (p q : A → Bool) → ((x : A) → p x ≡ q x) → (xs : List A) → retain p xs ≡ retain q xs
  retain-eq_of_all p q h [] = refl
  retain-eq_of_all p q h (x ∷ xs) = ground (arith, h x, retain-eq_of_all p q h xs)

  pub retain-retain :
      (p q : A → Bool) (xs : List A) → retain p (retain q xs) ≡ retain (λ x. q x && p x) xs
  retain-retain p q [] = refl
  retain-retain p q (x ∷ xs) = ground (arith, retain-retain p q xs)

  pub retain-map {κ} :
      {B : Type κ} (p : B → Bool) (f : A → B) (xs : List A)
      → retain p (map f xs) ≡ map f (retain (λ x. p (f x)) xs)
  retain-map p f [] = refl
  retain-map p f (x ∷ xs) = ground (arith, retain-map p f xs)

  pub retain_none : (p : A → Bool) → ((x : A) → p x ≡ false) → (xs : List A) → retain p xs ≡ []
  retain_none p h [] = refl
  retain_none p h (x ∷ xs) = ground (arith, h x, retain_none p h xs)

  pub retain_all : (p : A → Bool) → ((x : A) → p x ≡ true) → (xs : List A) → retain p xs ≡ xs
  retain_all p h [] = refl
  retain_all p h (x ∷ xs) = ground (arith, h x, retain_all p h xs)

  pub take-length_append : (xs ys : List A) → take (length xs) (xs ++ ys) ≡ xs
  take-length_append [] ys = refl
  take-length_append (x ∷ xs) ys = ap (◌∷◌ x) (take-length_append xs ys)

  pub take-append-drop : (n : ℕ) (xs : List A) → take n xs ++ drop n xs ≡ xs
  take-append-drop zero xs = refl
  take-append-drop (suc n) [] = refl
  take-append-drop (suc n) (x ∷ xs) = ap (◌∷◌ x) (take-append-drop n xs)

  pub length-take_le : (n : ℕ) (xs : List A) → n ≤ length xs → length (take n xs) ≡ n
  length-take_le zero xs h = refl
  length-take_le (suc n) [] h = omega arith
  length-take_le (suc n) (x ∷ xs) h = ap suc (length-take_le n xs (omega arith))

  pub drop-length_append : (xs ys : List A) → drop (length xs) (xs ++ ys) ≡ ys
  drop-length_append [] ys = refl
  drop-length_append (x ∷ xs) ys = drop-length_append xs ys

  pub any-append :
      (p : A → Bool) (xs ys : List A) → any p (xs ++ ys) ≡ (if any p xs then true else any p ys)
  any-append p [] ys = refl
  any-append p (x ∷ xs) ys = ground (arith, any-append p xs ys)

  pub any-map {κ} :
      {B : Type κ} (p : B → Bool) (f : A → B) (xs : List A)
      → any p (map f xs) ≡ any (λ x. p (f x)) xs
  any-map p f [] = refl
  any-map p f (x ∷ xs) = ground (arith, any-map p f xs)

  pub any-eq_of_all : (p q : A → Bool) → ((x : A) → p x ≡ q x) → (xs : List A) → any p xs ≡ any q xs
  any-eq_of_all p q h [] = refl
  any-eq_of_all p q h (x ∷ xs) = ground (arith, h x, any-eq_of_all p q h xs)

  pub any_none : (p : A → Bool) → ((x : A) → p x ≡ false) → (xs : List A) → any p xs ≡ false
  any_none p h [] = refl
  any_none p h (x ∷ xs) = ground (arith, h x, any_none p h xs)

  pub retain-eq_on :
      (p q : A → Bool) (xs : List A) → All (λ x. p x ≡ q x) xs → retain p xs ≡ retain q xs
  retain-eq_on p q [] h = refl
  retain-eq_on p q (x ∷ xs) h = ground (arith, retain-eq_on p q xs h.1)

  pub All-append {κ} : (P : A → Type κ) (xs ys : List A) → All P xs → All P ys → All P (xs ++ ys)
  All-append P [] ys h k = k
  All-append P (x ∷ xs) ys h k = (h.0, All-append P xs ys h.1 k)

  pub All-map {κ ι} :
      {B : Type κ} (P : B → Type ι) (f : A → B) (xs : List A)
      → All (λ x. P (f x)) xs
      → All P (map f xs)
  All-map P f [] h = tt
  All-map P f (x ∷ xs) h = (h.0, All-map P f xs h.1)

  pub All-imp {κ ι} :
      {P : A → Type κ} {Q : A → Type ι}
      → ((x : A) → P x → Q x)
      → (xs : List A) → All P xs
      → All Q xs
  All-imp f [] h = tt
  All-imp f (x ∷ xs) h = (f x h.0, All-imp f xs h.1)
