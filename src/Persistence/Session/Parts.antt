-- ===== src/Persistence/Session/Parts.antt =====
-- src/persistence/session.rs: the parts of a written session are read back.
use mathlib.Core.Option
use rusquitto.Base.{
  ℕ, ◌+◌, ◌*◌, ◌%◌, ◌≤◌, ◌<◌, ◌≡◌, refl, Bool, true, not, Option, none, some, List, [], ◌∷◌, ◌==◌,
  nat_eq, length, arith, All, map,
}
use rusquitto.Base.Text.{Bytes}
use rusquitto.Base.Assoc.{Assoc, insert, inserts}
use rusquitto.Protocol.{Qos}
use rusquitto.Broker.Messages.{
  Publish, InflightState, qos1, qos2_pending, qos2_released, InflightMessage, MigratedSub,
}
use rusquitto.Persistence.Codec.{
  Reads, pure, fail, ◌>>=◌, Wire, u16_mod, u32_mod, max_packet, put_u8, put_u32, put_opt_str,
  put_opt_u32, put_publish, placeholder, qos_to_u8, get_u32, get_opt_str, get_opt_u32, get_publish,
  ok,
}
use rusquitto.Persistence.Codec.Laws.{
  Decodes, Decodes-of, Decodes-pure, Decodes-bind, Decodes-last, get_u8-Returns, get_u16-Returns,
  get_u32-Returns, get_str-Returns, get_opt_str-Returns, get_opt_str-Returns-none,
  get_opt_u32-Returns, get_opt_u32-Returns-none, get_publish-Decodes, qos_from_u8-qos_to_u8,
}
use rusquitto.Persistence.Session.{
  flag, low_flag, high_flag, state_to_u8, state_from_u8, put_each, put_count, encode_sub,
  encode_inflight, encode_incoming, encode_offline, get_each, get_entries, get_qos, get_state,
  decode_sub, decode_inflight, decode_incoming, decode_offline,
}

get_qos-Decodes : (q : Qos) → Decodes (some (put_u8 (qos_to_u8 q))) get_qos q
unfolding get_qos ◌>>=◌
get_qos-Decodes q =
    Decodes-of
      (λ rest. rw (get_u8-Returns (qos_to_u8 q) rest, ◌>>=◌) (qos_from_u8-qos_to_u8 q rest))

state_from_u8-state_to_u8 :
    (s : InflightState) (r : Bytes) → state_from_u8 (state_to_u8 s) r ≡ ok (s, r)
unfolding state_from_u8 state_to_u8 pure fail
state_from_u8-state_to_u8 qos1 r = refl
state_from_u8-state_to_u8 qos2_pending r = refl
state_from_u8-state_to_u8 qos2_released r = refl

get_state-Decodes : (s : InflightState) → Decodes (some (put_u8 (state_to_u8 s))) get_state s
unfolding get_state ◌>>=◌
get_state-Decodes s =
    Decodes-of
      (λ rest. rw (get_u8-Returns (state_to_u8 s) rest, ◌>>=◌) (state_from_u8-state_to_u8 s rest))

pub get_each-Decodes :
    {A B : Type 0} (f : A → Option Bytes) (m : Reads B) (g : A → B) (xs : List A)
    → All (λ x. Decodes (f x) m (g x)) xs
    → Decodes (put_each f xs) (get_each (length xs) m) (map g xs)
unfolding get_each
get_each-Decodes f m g [] h = Decodes-pure
get_each-Decodes f m g (x ∷ xs) h =
    Decodes-bind _ h.0 (Decodes-last _ (get_each-Decodes f m g xs h.1))

pub count-Decodes :
    {A : Type 0} (xs : List A) → length xs < u32_mod → Decodes (put_count xs) get_u32 (length xs)
count-Decodes xs h = Decodes-of (rw (small (length xs) h) (get_u32-Returns (length xs) h))
  where
    small : (n : ℕ) → n < u32_mod → n % u32_mod ≡ n
    small n h = omega arith

-- A subscription whose strings and identifier fit their encoding.
pub record SubFits (utf8 : Bytes → Bool) (s : MigratedSub) : Type 0 where
  pub filter_short : length s.filter < u16_mod
  pub filter_text : utf8 s.filter ≡ true
  pub group : (g : Bytes) → s.share_group ≡ some g → (length g < u16_mod) × (utf8 g ≡ true)
  pub identifier : (i : ℕ) → s.sub_id ≡ some i → i < u32_mod

low_flag-flags : (a b : Bool) → low_flag (flag a + 2 * flag b) ≡ a
low_flag-flags a b = ground arith

high_flag-flags : (a b : Bool) → high_flag (flag a + 2 * flag b) ≡ b
high_flag-flags a b = ground arith

flag-eq : (a : Bool) → not (flag a == 0) ≡ a
flag-eq a = ground arith

-- A publish that the wire format can express, within the packet limit.
pub record PublishFits (w : Wire) (p : Publish) : Type 0 where
  pub expressible : w.Expressible (placeholder p)
  pub bounded : (b : Bytes) → w.write (placeholder p) ≡ some b → length b ≤ max_packet

abbrev pub placed_inflight : ℕ × InflightMessage → ℕ × InflightMessage
placed_inflight (k, m) = (k, record m { publish = placeholder m.publish })

abbrev pub placed_incoming : ℕ × Publish → ℕ × Publish
placed_incoming (k, p) = (k, placeholder p)

abbrev pub placed_offline : Publish × Qos × Bool × List ℕ → Publish × Qos × Bool × List ℕ
placed_offline (p, q, r, ids) = (placeholder p, q, r, ids)

pub get_entries-Decodes :
    {V U : Type 0} (f : ℕ × V → Option Bytes) (m : Reads (ℕ × U)) (g : ℕ × V → ℕ × U)
    (xs : Assoc ℕ V) (out : Assoc ℕ U)
    → All (λ x. Decodes (f x) m (g x)) xs
    → Decodes (put_each f xs) (get_entries (length xs) m out) (inserts out (map g xs))
unfolding get_entries
get_entries-Decodes f m g [] out h = Decodes-pure
get_entries-Decodes f m g (x ∷ xs) out h =
    Decodes-bind _ h.0 (get_entries-Decodes f m g xs (insert (g x).0 (g x).1 out) h.1)

module _ (utf8 : Bytes → Bool) (w : Wire) where
  group-Decodes :
      (g : Option Bytes)
      → ((x : Bytes) → g ≡ some x → (length x < u16_mod) × (utf8 x ≡ true))
      → Decodes (some (put_opt_str g)) (get_opt_str utf8) g
  group-Decodes none h = Decodes-of (get_opt_str-Returns-none utf8)
  group-Decodes (some x) h = Decodes-of (get_opt_str-Returns utf8 x (h x refl).0 (h x refl).1)

  sub_id-Decodes :
      (i : Option ℕ)
      → ((x : ℕ) → i ≡ some x → x < u32_mod)
      → Decodes (some (put_opt_u32 (Option.map (λ id. id % u32_mod) i))) get_opt_u32 i
  sub_id-Decodes none h = Decodes-of get_opt_u32-Returns-none
  sub_id-Decodes (some x) h =
      Decodes-of (rw (small x (h x refl)) (get_opt_u32-Returns x (h x refl)))
    where
      small : (n : ℕ) → n < u32_mod → n % u32_mod ≡ n
      small n h = omega arith

  pub decode_sub-Decodes :
      (s : MigratedSub) → SubFits utf8 s → Decodes (encode_sub s) (decode_sub utf8 w) s
  unfolding encode_sub decode_sub
  decode_sub-Decodes s h =
      Decodes-bind _ (Decodes-of (get_str-Returns utf8 s.filter h.filter_short h.filter_text)) (
        Decodes-bind _ (get_qos-Decodes s.qos) (
          Decodes-bind _ (Decodes-of (get_u8-Returns _)) (
            Decodes-bind _ (group-Decodes s.share_group h.group) (
              rw
                (
                  low_flag-flags s.nolocal s.retain_as_published,
                  high_flag-flags s.nolocal s.retain_as_published,
                )
                (Decodes-last _ (sub_id-Decodes s.sub_id h.identifier))))))

  publish-Decodes :
      (p : Publish) → PublishFits w p → Decodes (put_publish w p) (get_publish w) (placeholder p)
  publish-Decodes p h = get_publish-Decodes w p h.expressible h.bounded

  pub decode_inflight-Decodes :
      (x : ℕ × InflightMessage)
      → (x.0 < u16_mod) × PublishFits w x.1.publish
      → Decodes (encode_inflight w x) (decode_inflight utf8 w) (placed_inflight x)
  unfolding encode_inflight decode_inflight
  decode_inflight-Decodes (k, m) h =
      Decodes-bind _ (Decodes-of (get_u16-Returns k h.0)) (
        Decodes-bind _ (get_state-Decodes m.state) (Decodes-last _ (publish-Decodes m.publish h.1)))

  pub decode_incoming-Decodes :
      (x : ℕ × Publish)
      → (x.0 < u16_mod) × PublishFits w x.1
      → Decodes (encode_incoming w x) (decode_incoming utf8 w) (placed_incoming x)
  unfolding encode_incoming decode_incoming
  decode_incoming-Decodes (k, p) h =
      Decodes-bind _ (Decodes-of (get_u16-Returns k h.0)) (Decodes-last _ (publish-Decodes p h.1))

  ids-Decodes :
      (ids : List ℕ)
      → All (λ i. i < u32_mod) ids
      → Decodes
          (put_each (λ id. some (put_u32 (id % u32_mod))) ids)
          (get_each (length ids) get_u32)
          ids
  unfolding get_each
  ids-Decodes [] h = Decodes-pure
  ids-Decodes (i ∷ ids) h =
      Decodes-bind _ (Decodes-of (rw (small i h.0) (get_u32-Returns i h.0)))
        (Decodes-last _ (ids-Decodes ids h.1))
    where
      small : (n : ℕ) → n < u32_mod → n % u32_mod ≡ n
      small n h = omega arith

  pub decode_offline-Decodes :
      (p : Publish) (q : Qos) (r : Bool) (ids : List ℕ)
      → (length ids < u32_mod) × All (λ i. i < u32_mod) ids × PublishFits w p
      → Decodes
          (encode_offline w (p, q, r, ids))
          (decode_offline utf8 w)
          (placed_offline (p, q, r, ids))
  unfolding encode_offline decode_offline
  decode_offline-Decodes p q r ids (n, small, fits) = Decodes-bind _ (get_qos-Decodes q) (
      Decodes-bind _ (Decodes-of (get_u8-Returns (flag r))) (
        Decodes-bind _ (count-Decodes ids n) (
          Decodes-bind _ (ids-Decodes ids small)
            (rw (flag-eq r) (Decodes-last _ (publish-Decodes p fits))))))
