-- ===== src/Persistence/Codec/Laws.antt =====
-- src/persistence/codec.rs: each reader gives back what its writer wrote, and no reader passes the
-- end of the data.
use mathlib.Core.List.{append_assoc}
use rusquitto.Base.{
  ℕ, ◌%◌, ◌≤◌, ◌<◌, ◌≡◌, refl, subst, ◌⊎◌, Bool, true, Option, none, some, [], ◌∷◌, ◌++◌, nat_eq,
  leb, length, length-append, take, drop, take-length_append, take-append-drop, length-take_le,
  leb→le, drop-length_append, arith, Bool-cases, Option-cases, inl, inr,
}
use rusquitto.Base.Text.{Bytes}
use rusquitto.Protocol.{Qos, at_most_once, at_least_once, exactly_once}
use rusquitto.Broker.Messages.{Publish}
use rusquitto.Persistence.Codec.{
  unexpected_eof, ok, err, Reads, pure, fail, ◌>>=◌, ◌⊕◌, Wire, max_packet, u16_mod, u32_mod,
  put_u8, put_u16, put_u32, put_str, put_opt_str, put_opt_u32, placeholder, put_publish, qos_to_u8,
  qos_from_u8, take_bytes, get_u8, get_u16, get_u32, get_str, get_opt_str, get_opt_u32, get_publish,
}

-- From the bytes `bs`, followed by anything, `m` reads `a` and leaves what follows.
abbrev pub Returns : {A : Type 0} → Reads A → Bytes → A → Type 0
Returns m bs a = (rest : Bytes) → m (bs ++ rest) ≡ ok (a, rest)

pub Returns-bind :
    {A B : Type 0} (m : Reads A) (f : A → Reads B) (bs cs : Bytes) (a : A) (b : B)
    → Returns m bs a
    → Returns (f a) cs b
    → Returns (m >>= f) (bs ++ cs) b
unfolding ◌>>=◌
Returns-bind m f bs cs a b h k rest = rw (append_assoc bs cs rest, h (cs ++ rest), ◌>>=◌) (k rest)

pub take_bytes-Returns : (s : Bytes) → Returns (take_bytes (length s)) s s
unfolding take_bytes
take_bytes-Returns s rest =
    rw (take-length_append s rest, drop-length_append s rest) (ground (arith, length-append s rest))

pub get_u8-Returns : (v : ℕ) → Returns get_u8 (put_u8 v) v
unfolding ◌>>=◌ pure fail get_u8
get_u8-Returns v rest = rw (take_bytes-Returns (v ∷ []) rest, ◌>>=◌) (ground arith)

pub get_u16-Returns : (v : ℕ) → v < u16_mod → Returns get_u16 (put_u16 v) v
unfolding ◌>>=◌ pure fail get_u16
get_u16-Returns v h rest = rw (take_bytes-Returns (put_u16 v) rest, ◌>>=◌) (ground arith)

pub get_u32-Returns : (v : ℕ) → v < u32_mod → Returns get_u32 (put_u32 v) v
unfolding ◌>>=◌ pure fail get_u32
get_u32-Returns v h rest = rw (take_bytes-Returns (put_u32 v) rest, ◌>>=◌) (ground arith)

-- A writer's result that a reader reads back.
pub record Decodes {A : Type 0} (o : Option Bytes) (m : Reads A) (a : A) : Type 0 where
  pub back : (bs : Bytes) → o ≡ some bs → Returns m bs a

some_inj : (a b : Bytes) → some a ≡ some b → a ≡ b
some_inj a b e = cc

pub Decodes-of :
    {A : Type 0} {m : Reads A} {bs : Bytes} {a : A} → Returns m bs a → Decodes (some bs) m a
Decodes-of {m} {bs} {a} h = record {
  back = λ cs e. subst (λ cs. Returns m cs a) (some_inj bs cs e) h;
}

pub Decodes-none : {A : Type 0} {m : Reads A} {a : A} → Decodes none m a
Decodes-none = record { back = λ cs e. cc }

pub Decodes-pure : {A : Type 0} {a : A} → Decodes (some []) (pure a) a
unfolding pure
Decodes-pure = Decodes-of (λ rest. refl)

pub Decodes-bind :
    {A B : Type 0} {o o' : Option Bytes} {m : Reads A} (f : A → Reads B) {a : A} {b : B}
    → Decodes o m a
    → Decodes o' (f a) b
    → Decodes (o ⊕ o') (m >>= f) b
unfolding ◌⊕◌
Decodes-bind {o} {o'} {m} f {a} {b} h k = go o o' h k
  where
    go : (o o' : Option Bytes) → Decodes o m a → Decodes o' (f a) b → Decodes (o ⊕ o') (m >>= f) b
    go none o' h k = Decodes-none
    go (some x) none h k = Decodes-none
    go (some x) (some y) h k = Decodes-of (Returns-bind m f x y a b (h.back x refl) (k.back y refl))

-- The last value of a record that is read.
pub Decodes-last :
    {A B : Type 0} {o : Option Bytes} {m : Reads A} (g : A → B) {a : A}
    → Decodes o m a
    → Decodes o (m >>= λ x. pure (g x)) (g a)
unfolding ◌>>=◌ pure
Decodes-last {m} g {a} h = record { back = λ bs e rest. rw (h.back bs e rest, ◌>>=◌) refl }

pub get_str-Returns :
    (valid_utf8 : Bytes → Bool) (s : Bytes)
    → length s < u16_mod
    → valid_utf8 s ≡ true
    → Returns (get_str valid_utf8) (put_str s) s
unfolding ◌>>=◌ pure fail get_str put_str
get_str-Returns valid_utf8 s h u =
    Returns-bind get_u16 _ (put_u16 (length s % u16_mod)) s (length s) s
      (rw (small (length s) h) (get_u16-Returns (length s) h))
      (λ rest. rw (take_bytes-Returns s rest, ◌>>=◌, u) refl)
  where
    small : (n : ℕ) → n < u16_mod → n % u16_mod ≡ n
    small n h = omega arith

-- An optional string is read back.
pub get_opt_str-Returns :
    (valid_utf8 : Bytes → Bool) (s : Bytes)
    → length s < u16_mod
    → valid_utf8 s ≡ true
    → Returns (get_opt_str valid_utf8) (put_opt_str (some s)) (some s)
unfolding ◌>>=◌ pure fail get_opt_str put_opt_str
get_opt_str-Returns valid_utf8 s h u rest =
    rw (get_u8-Returns 1 (put_str s ++ rest), ◌>>=◌, get_str-Returns valid_utf8 s h u rest) refl

pub get_opt_str-Returns-none :
    (valid_utf8 : Bytes → Bool) → Returns (get_opt_str valid_utf8) (put_opt_str none) none
unfolding ◌>>=◌ pure fail get_opt_str put_opt_str
get_opt_str-Returns-none valid_utf8 rest = rw (get_u8-Returns 0 rest, ◌>>=◌) refl

pub get_opt_u32-Returns :
    (v : ℕ) → v < u32_mod → Returns get_opt_u32 (put_opt_u32 (some v)) (some v)
unfolding ◌>>=◌ pure fail get_opt_u32 put_opt_u32
get_opt_u32-Returns v h rest =
    rw (get_u8-Returns 1 (put_u32 v ++ rest), ◌>>=◌, get_u32-Returns v h rest) refl

pub get_opt_u32-Returns-none : Returns get_opt_u32 (put_opt_u32 none) none
unfolding ◌>>=◌ pure fail get_opt_u32 put_opt_u32
get_opt_u32-Returns-none rest = rw (get_u8-Returns 0 rest, ◌>>=◌) refl

pub qos_from_u8-qos_to_u8 : (q : Qos) (r : Bytes) → qos_from_u8 (qos_to_u8 q) r ≡ ok (q, r)
unfolding ◌>>=◌ pure fail qos_from_u8
qos_from_u8-qos_to_u8 at_most_once r = refl
qos_from_u8-qos_to_u8 at_least_once r = refl
qos_from_u8-qos_to_u8 exactly_once r = refl

put_publish-cases :
    (w : Wire) (p : Publish)
    → (put_publish w p ≡ none)
      ⊎ ((b : Bytes) × (w.write (placeholder p) ≡ some b)
          × (put_publish w p ≡ some (put_u32 (length b % u32_mod) ++ b)))
unfolding put_publish
put_publish-cases w p = elim (Option-cases (w.write (placeholder p))) [
  | inl n ↦ inl (rw (n, put_publish) refl)
  | inr (b, q) ↦ inr (b, q, rw (q, put_publish) refl)
]

-- A publish that is written is read back with the packet id that was written for it, if the wire
-- format can express it and the packet is within the limit.
pub get_publish-Decodes :
    (w : Wire) (p : Publish)
    → w.Expressible (placeholder p)
    → ((b : Bytes) → w.write (placeholder p) ≡ some b → length b ≤ max_packet)
    → Decodes (put_publish w p) (get_publish w) (placeholder p)
unfolding ◌>>=◌ pure fail get_publish
get_publish-Decodes w p x fits = elim (put_publish-cases w p) [
  | inl n ↦ rw n Decodes-none
  | inr (b, q, e) ↦ rw e (
      Decodes-of (
        Returns-bind get_u32 _ (put_u32 (length b % u32_mod)) b (length b) (placeholder p)
          (rw (small (length b) (fits b q))
            (get_u32-Returns (length b) (wide (length b) (fits b q))))
          (λ rest.
            rw
              (
                take_bytes-Returns b rest,
                ◌>>=◌,
                w.read-write (placeholder p) b max_packet x q (fits b q),
              )
              refl)))
]
  where
    wide : (n : ℕ) → n ≤ max_packet → n < u32_mod
    wide n h = omega arith

    small : (n : ℕ) → n ≤ max_packet → n % u32_mod ≡ n
    small n h = omega arith

-- A read of `n` bytes returns the next `n` bytes, or fails where fewer are left: it never reads
-- past the end.
pub take_bytes_total :
    (n : ℕ) (r : Bytes)
    → ((take_bytes n r ≡ err unexpected_eof) × (length r < n))
      ⊎ ((a b : Bytes) × (take_bytes n r ≡ ok (a, b)) × (a ++ b ≡ r) × (length a ≡ n))
unfolding take_bytes
take_bytes_total n r = elim (Bool-cases (leb n (length r))) [
  | inl h ↦
      inr
        (take n r, drop n r, rw h, take-append-drop n r, length-take_le n r (leb→le n (length r) h))
  | inr h ↦ inl (rw h, ground arith)
]
