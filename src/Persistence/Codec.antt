-- ===== src/Persistence/Codec.antt =====
-- src/persistence/codec.rs: the value writers and the bounds-checked reader. The reader is the
-- list of the bytes that it has not read yet; the wire format of a PUBLISH is a parameter.
pub mod Laws
use rusquitto.Base.{
  ℕ, zero, suc, ◌+◌, ◌*◌, ◌/◌, ◌%◌, ◌^◌, ◌≤◌, ◌≡◌, Bool, true, false, not, ◌&&◌, Option, none, some,
  List, [], ◌∷◌, ◌++◌, ◌==◌, nat_eq, if◌then◌else◌, leb, length, take, drop,
}
use rusquitto.Base.Text.{Bytes, bytes_eq}
use rusquitto.Protocol.{Qos, at_most_once, at_least_once, exactly_once, qos_num}
use rusquitto.Broker.Messages.{Publish}

pub data Error : Type 0 where
  unexpected_eof invalid_data : Error

pub data Result {ℓ} (A : Type ℓ) : Type ℓ where
  ok : A → Result A
  err : Error → Result A

-- A reading step: a value and the bytes after it, or an error.
abbrev pub Reads : Type 0 → Type 0
Reads A = Bytes → Result (A × Bytes)

unfoldable pub pure : {A : Type 0} → A → Reads A
pure a r = ok (a, r)

unfoldable pub fail : {A : Type 0} → Error → Reads A
fail e r = err e

infixl 5 ◌>>=◌
unfoldable pub ◌>>=◌ : {A B : Type 0} → Reads A → (A → Reads B) → Reads B
◌>>=◌ m f r = elim (m r) [ ok (a, r') ↦ f a r' | err e ↦ err e ]

-- What the wire codec of `mqttbytes` is relied on for: reading what was written gives the publish
-- back, within the packet limit, where the format can express it.
pub record Wire : Type 1 where
  pub write : Publish → Option Bytes
  pub read : Bytes → ℕ → Option Publish
  pub Expressible : Publish → Type 0
  pub read-write :
      (p : Publish) (w : Bytes) (max : ℕ)
      → Expressible p
      → write p ≡ some w
      → length w ≤ max
      → read w max ≡ some p

abbrev pub max_packet : ℕ
max_packet = 256 * 1024 * 1024

abbrev pub u8_mod : ℕ
u8_mod = 2 ^ 8

abbrev pub u16_mod : ℕ
u16_mod = 2 ^ 16

abbrev pub u32_mod : ℕ
u32_mod = 2 ^ 32

abbrev pub put_u8 : ℕ → Bytes
put_u8 v = v ∷ []

-- `v.to_le_bytes()` of a `u16` and of a `u32`.
abbrev pub put_u16 : ℕ → Bytes
put_u16 v = v % 256 ∷ (v / 256) % 256 ∷ []

abbrev pub put_u32 : ℕ → Bytes
put_u32 v = v % 256 ∷ (v / 256) % 256 ∷ (v / 65536) % 256 ∷ (v / 16777216) % 256 ∷ []

-- Writing one after the other; an error stops the writing.
infixr 6 ◌⊕◌
unfoldable pub ◌⊕◌ : Option Bytes → Option Bytes → Option Bytes
none ⊕ b = none
some a ⊕ none = none
some a ⊕ some b = some (a ++ b)

-- The length is cast by `as u16`.
unfoldable pub put_str : Bytes → Bytes
put_str s = put_u16 (length s % u16_mod) ++ s

unfoldable pub put_opt_str : Option Bytes → Bytes
put_opt_str (some x) = put_u8 1 ++ put_str x
put_opt_str none = put_u8 0

unfoldable pub put_opt_u32 : Option ℕ → Bytes
put_opt_u32 (some x) = put_u8 1 ++ put_u32 x
put_opt_u32 none = put_u8 0

-- The packet id that `put_publish` writes in place of a missing one.
unfoldable pub placeholder : Publish → Publish
placeholder p = if not (qos_num p.qos == 0) && p.pkid == 0 then record p { pkid = 1 } else p

unfoldable pub put_publish : Wire → Publish → Option Bytes
put_publish w p = elim (w.write (placeholder p)) [
  | none ↦ none
  | some tmp ↦ some (put_u32 (length tmp % u32_mod) ++ tmp)
]

abbrev pub qos_to_u8 : Qos → ℕ
qos_to_u8 = qos_num

unfoldable pub qos_from_u8 : ℕ → Reads Qos
qos_from_u8 v =
    if v == 0
    then pure at_most_once
    else if v == 1
    then pure at_least_once
    else if v == 2
    then pure exactly_once
    else fail invalid_data

-- `Reader::take`; the sum of the position and `n` stays far below the range of `usize`.
unfoldable pub take_bytes : ℕ → Reads Bytes
take_bytes n r = if leb n (length r) then ok (take n r, drop n r) else err unexpected_eof

unfoldable pub expect_magic : Bytes → Reads (Unit {0})
expect_magic magic = do
  b ← take_bytes (length magic)
  if bytes_eq.beq b magic then pure tt else fail invalid_data

abbrev le_value : Bytes → ℕ
le_value [] = 0
le_value (b ∷ bs) = b + 256 * le_value bs

unfoldable pub get_u8 : Reads ℕ
get_u8 = do b ← take_bytes 1; pure (le_value b)

unfoldable pub get_u16 : Reads ℕ
get_u16 = do b ← take_bytes 2; pure (le_value b)

unfoldable pub get_u32 : Reads ℕ
get_u32 = do b ← take_bytes 4; pure (le_value b)

-- `valid_utf8` stands for the check of `String::from_utf8`.
unfoldable pub get_str : (Bytes → Bool) → Reads Bytes
get_str valid_utf8 = do
  n ← get_u16
  b ← take_bytes n
  if valid_utf8 b then pure b else fail invalid_data

unfoldable pub get_opt_str : (Bytes → Bool) → Reads (Option Bytes)
get_opt_str valid_utf8 = do
  t ← get_u8
  if t == 1 then (do s ← get_str valid_utf8; pure (some s)) else pure none

unfoldable pub get_opt_u32 : Reads (Option ℕ)
get_opt_u32 = do t ← get_u8; if t == 1 then (do v ← get_u32; pure (some v)) else pure none

abbrev parsed : Option Publish → Reads Publish
parsed none = fail invalid_data
parsed (some p) = pure p

unfoldable pub get_publish : Wire → Reads Publish
get_publish w = do n ← get_u32; b ← take_bytes n; parsed (w.read b max_packet)
