-- ===== src/Auth/Bits.antt =====
-- `x ^ y` and `d | e` on bytes: when they are zero, and that they stay bytes.
use Prim.Native.Nat.{bit_xor, bit_or}
use rusquitto.Base.{
  ℕ, zero, suc, Bool, true, false, not, ◌&&◌, ◌≡◌, refl, ◌==◌, nat_eq, ◌<◌, arith, ltb, ltb→lt, ◌↔◌,
}

abbrev all_below : ℕ → (ℕ → Bool) → Bool
all_below zero p = true
all_below (suc n) p = p n && all_below n p

all_below_lem : (n : ℕ) (p : ℕ → Bool) (x : ℕ) → all_below n p ≡ true → x < n → p x ≡ true
all_below_lem zero p x h lt = absurd (omega arith)
all_below_lem (suc n) p x h lt = ground (arith, all_below_lem n p x)

-- A test on two bytes, on all pairs.
abbrev pairs : (ℕ → ℕ → Bool) → Bool
pairs p = all_below 256 (λ x. all_below 256 (p x))

abbrev agree : Bool → Bool → Bool
agree true b = b
agree false b = not b

agree-eq : (a b : Bool) → agree a b ≡ true → a ≡ b
agree-eq true b h = cc
agree-eq false true h = cc
agree-eq false false h = refl

pairs_lem : (p : ℕ → ℕ → Bool) → pairs p ≡ true → (x y : ℕ) → x < 256 → y < 256 → p x y ≡ true
pairs_lem p h x y a b =
    all_below_lem 256 (p x) y (all_below_lem 256 (λ x. all_below 256 (p x)) x h a) b

abbrev xor_test : ℕ → ℕ → Bool
xor_test x y = agree (bit_xor x y == 0) (x == y) && ltb (bit_xor x y) 256

abbrev or_test : ℕ → ℕ → Bool
or_test x y = agree (bit_or x y == 0) (x == 0 && y == 0) && ltb (bit_or x y) 256

bit_xor_table : pairs xor_test ≡ true
bit_xor_table = refl

bit_or_table : pairs or_test ≡ true
bit_or_table = refl

-- The exclusive or of two bytes is a byte, and zero where they are equal.
pub xor-byte : (x y : ℕ) → x < 256 → y < 256 → bit_xor x y < 256
xor-byte x y a b =
    ltb→lt (bit_xor x y) 256 (ground (arith, pairs_lem xor_test bit_xor_table x y a b))

pub xor_zero : (x y : ℕ) → x < 256 → y < 256 → (bit_xor x y ≡ 0) ↔ (x ≡ y)
xor_zero x y a b =
    let e =
      agree-eq (bit_xor x y == 0) (x == y)
        (ground (arith, pairs_lem xor_test bit_xor_table x y a b)) in
    ground (arith, e, nat_eq.beq_iff x y, nat_eq.beq_iff (bit_xor x y) 0)

pub or-byte : (x y : ℕ) → x < 256 → y < 256 → bit_or x y < 256
or-byte x y a b = ltb→lt (bit_or x y) 256 (ground (arith, pairs_lem or_test bit_or_table x y a b))

pub or_zero : (x y : ℕ) → x < 256 → y < 256 → (bit_or x y ≡ 0) ↔ ((x ≡ 0) × (y ≡ 0))
or_zero x y a b =
    let e =
      agree-eq (bit_or x y == 0) (x == 0 && y == 0)
        (ground (arith, pairs_lem or_test bit_or_table x y a b)) in
    ground (arith, e, nat_eq.beq_iff x 0, nat_eq.beq_iff y 0, nat_eq.beq_iff (bit_or x y) 0)
