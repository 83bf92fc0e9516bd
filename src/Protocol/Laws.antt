-- ===== src/Protocol/Laws.antt =====
-- src/protocol.rs: what the parser of shared filters and the two validity tests accept.
use rusquitto.Base.{
  ℕ, ◌≤◌, ◌≡◌, ◌↔◌, ◌⊎◌, inl, inr, refl, true, false, not, ◌&&◌, Option, none, some, List, [], ◌∷◌,
  ◌++◌, ◌==◌, nat_eq, list_eq, length, is_empty, arith, Bool-cases, Option-cases, list_beq, All,
}
use rusquitto.Base.Text.{
  Bytes, slash, split, split_once, contains, starts_with, strip_prefix, before, IsSegment,
  contains-split,
}
use rusquitto.Protocol.{
  plus, hash, dollar, share_prefix, shared_parts, parse_shared_filter, valid_publish_topic,
  mixed_level, valid_levels, valid_subscribe_filter, max_topic_levels, u16_max,
}

strip_prefix-append : (p s : Bytes) → strip_prefix p (p ++ s) ≡ some s
strip_prefix-append [] s = refl
strip_prefix-append (c ∷ p) s = ground (arith, nat_eq.beq_iff c c, strip_prefix-append p s)

pub strip_prefix-eq : (p s r : Bytes) → strip_prefix p s ≡ some r → s ≡ p ++ r
strip_prefix-eq [] s r h = ground arith
strip_prefix-eq (c ∷ p) [] r h = cc
strip_prefix-eq (c ∷ p) (x ∷ s) r h = ground (arith, nat_eq.beq_iff c x, strip_prefix-eq p s r)

split_once-append : (a b : Bytes) → IsSegment a → split_once (a ++ slash ∷ b) ≡ some (a, b)
unfolding split_once
split_once-append [] b h = refl
split_once-append (c ∷ a) b h = ground (arith, split_once-append a b)

before-eq :
    (c : ℕ) (r : Option (Bytes × Bytes)) (a b : Bytes)
    → before c r ≡ some (a, b)
    → (a' : Bytes) × (r ≡ some (a', b)) × (a ≡ c ∷ a')
before-eq c none a b h = cc
before-eq c (some (a', b')) a b h = (a', ground arith, ground arith)

split_once-eq : (s a b : Bytes) → split_once s ≡ some (a, b) → (s ≡ a ++ slash ∷ b) × IsSegment a
unfolding split_once
split_once-eq [] a b h = cc
split_once-eq (c ∷ s) a b h = elim (Bool-cases (c == slash)) [
  | inl p ↦ ground (arith, nat_eq.beq_iff c slash)
  | inr p ↦
      let (a', r, e) = before-eq c (split_once s) a b (rw p at h) in
      ground (arith, split_once-eq s a' b r)
]

-- The parts of a shared filter `$share/{group}/{topic}`.
pub record IsShared (filter group topic : Bytes) : Type 0 where
  pub text : filter ≡ share_prefix ++ (group ++ slash ∷ topic)
  pub segment : IsSegment group
  pub group_nonempty : is_empty group ≡ false
  pub topic_nonempty : is_empty topic ≡ false
  pub no_plus : contains b'+' group ≡ false
  pub no_hash : contains b'#' group ≡ false

IsShared-of :
    (filter rest : Bytes) (o : Option (Bytes × Bytes)) (group topic : Bytes)
    → filter ≡ share_prefix ++ rest
    → split_once rest ≡ o
    → shared_parts o ≡ some (topic, some group)
    → IsShared filter group topic
IsShared-of filter rest none group topic e s h = cc
IsShared-of filter rest (some (g, t)) group topic e s h =
    let (text, segment) = split_once-eq rest g t s in ground arith

-- A filter parses as shared exactly if it is `$share/{group}/{topic}` with both parts nonempty
-- and a group of one level without wildcards.
pub parse_shared_filter_iff :
    (filter group topic : Bytes)
    → (parse_shared_filter filter ≡ some (topic, some group)) ↔ IsShared filter group topic
unfolding parse_shared_filter
parse_shared_filter_iff filter group topic = (
  λ h. elim (Option-cases (strip_prefix share_prefix filter)) [
    | inl p ↦ ground arith
    | inr (rest, p) ↦
        IsShared-of filter rest (split_once rest) group topic
          (strip_prefix-eq share_prefix filter rest p) refl (ground arith)
  ],
  λ r.
      rw (r.text, strip_prefix-append share_prefix, split_once-append group topic r.segment)
        (ground arith),
)

-- A level of a valid filter is free of wildcards, is `+`, or is a `#` in the last place.
abbrev pub IsLevel : Bytes → List Bytes → Type 0
IsLevel l rest =
    ((contains b'+' l ≡ false) × (contains b'#' l ≡ false))
    ⊎ (l ≡ plus)
    ⊎ ((l ≡ hash) × (rest ≡ []))

abbrev pub AreLevels : List Bytes → Type 0
AreLevels [] = Unit
AreLevels (l ∷ rest) = IsLevel l rest × AreLevels rest

valid-IsLevel :
    (l : Bytes) (rest : List Bytes)
    → ((l == hash && not (is_empty rest)) ≡ false)
    → mixed_level l ≡ false
    → IsLevel l rest
unfolding list_beq
valid-IsLevel [] rest h m = inl (refl, refl)
valid-IsLevel (c ∷ []) rest h m = ground arith
valid-IsLevel (c ∷ d ∷ l) rest h m = ground arith

valid_levels→AreLevels : (ls : List Bytes) → valid_levels ls ≡ true → AreLevels ls
unfolding valid_levels
valid_levels→AreLevels [] h = tt
valid_levels→AreLevels (l ∷ ls) h =
    (valid-IsLevel l ls (ground arith) (ground arith), valid_levels→AreLevels ls (ground arith))

plain_level :
    (l : Bytes)
    → contains b'+' l ≡ false
    → contains b'#' l ≡ false
    → (mixed_level l ≡ false) × ((l == hash) ≡ false)
unfolding list_beq
plain_level [] p h = (refl, refl)
plain_level (c ∷ l) p h = ground arith

level_valid :
    (l : Bytes) (rest : List Bytes)
    → IsLevel l rest
    → ((l == hash && not (is_empty rest)) ≡ false) × (mixed_level l ≡ false)
level_valid l rest (inl (p, h)) = ground (arith, plain_level l p h)
level_valid l rest (inr (inl e)) = rw e (unfold list_beq in (refl, refl))
level_valid l rest (inr (inr (e, r))) = rw (e, r) (unfold list_beq in (refl, refl))

AreLevels→valid_levels : (ls : List Bytes) → AreLevels ls → valid_levels ls ≡ true
unfolding valid_levels
AreLevels→valid_levels [] h = refl
AreLevels→valid_levels (l ∷ ls) h =
    ground (arith, level_valid l ls h.0, AreLevels→valid_levels ls h.1)

pub record IsFilter (filter : Bytes) : Type 0 where
  pub nonempty : is_empty filter ≡ false
  pub short : length filter ≤ u16_max
  pub no_nul : contains 0 filter ≡ false
  pub shallow : length (split filter) ≤ max_topic_levels
  pub levels : AreLevels (split filter)

-- A filter is accepted exactly if it is nonempty, of at most 65535 bytes and 128 levels, without
-- NUL, and each `+` is a whole level and each `#` the whole last level.
pub valid_subscribe_filter_iff :
    (filter : Bytes) → (valid_subscribe_filter filter ≡ true) ↔ IsFilter filter
unfolding valid_subscribe_filter
valid_subscribe_filter_iff filter = (
  λ h. record {
    nonempty = ground arith;
    short = ground arith;
    no_nul = ground arith;
    shallow = ground arith;
    levels = valid_levels→AreLevels (split filter) (ground arith);
  },
  λ f. ground (arith, AreLevels→valid_levels (split filter) f.levels, f.nonempty, f.no_nul),
)

plain_levels :
    (ls : List Bytes)
    → All (λ l. contains b'+' l ≡ false) ls
    → All (λ l. contains b'#' l ≡ false) ls
    → AreLevels ls
plain_levels [] p h = tt
plain_levels (l ∷ ls) p h = (inl (p.0, h.0), plain_levels ls p.1 h.1)

pub record IsTopic (topic : Bytes) : Type 0 where
  pub nonempty : is_empty topic ≡ false
  pub short : length topic ≤ u16_max
  pub shallow : length (split topic) ≤ max_topic_levels
  pub not_reserved : starts_with dollar topic ≡ false
  pub no_plus : contains b'+' topic ≡ false
  pub no_hash : contains b'#' topic ≡ false
  pub no_nul : contains 0 topic ≡ false

-- A client's publish topic is accepted exactly if it is nonempty, of at most 65535 bytes and 128
-- levels, does not start with `$`, and holds no wildcard and no NUL.
pub valid_publish_topic_iff : (topic : Bytes) → (valid_publish_topic topic ≡ true) ↔ IsTopic topic
unfolding valid_publish_topic
valid_publish_topic_iff topic = (
  λ h. record {
    nonempty = ground arith;
    short = ground arith;
    shallow = ground arith;
    not_reserved = ground arith;
    no_plus = ground arith;
    no_hash = ground arith;
    no_nul = ground arith;
  },
  λ t. ground (arith, t.nonempty, t.not_reserved, t.no_plus, t.no_hash, t.no_nul),
)

-- A topic that may be published is also a valid filter.
pub publish-subscribe :
    (topic : Bytes) → valid_publish_topic topic ≡ true → valid_subscribe_filter topic ≡ true
publish-subscribe topic h =
    let t = (valid_publish_topic_iff topic).0 h in
    (valid_subscribe_filter_iff topic).1 (record {
      nonempty = t.nonempty;
      short = t.short;
      no_nul = t.no_nul;
      shallow = t.shallow;
      levels =
          plain_levels (split topic) (contains-split b'+' topic t.no_plus)
            (contains-split b'#' topic t.no_hash);
    })
