-- ===== src/Topics/Filter/Laws.antt =====
-- What a filter matches, stated by an inductive relation, and the soundness of the subsumption
-- test of the access-control lists.
use rusquitto.Base.{
  ◌≡◌, refl, ◌↔◌, ◌⊎◌, inl, inr, true, false, List, [], ◌∷◌, ◌==◌, nat_eq, list_eq, arith, list_beq,
  Bool-cases, subst, sym,
}
use rusquitto.Base.Text.{Bytes, bytes_eq, split, starts_with}
use rusquitto.Protocol.{plus, hash, dollar}
use rusquitto.Topics.Filter.{match_levels, filter_matches, subsumes_levels, filter_subsumes}

-- MQTT matching of a filter's levels against a topic's levels.
pub data Matches : List Bytes → List Bytes → Type 0 where
  end : Matches [] []
  rest : {fs ts : List Bytes} → Matches (hash ∷ fs) ts
  one : {t : Bytes} {fs ts : List Bytes} → Matches fs ts → Matches (plus ∷ fs) (t ∷ ts)
  same : {t : Bytes} {fs ts : List Bytes} → Matches fs ts → Matches (t ∷ fs) (t ∷ ts)

Matches-step :
    (f t : Bytes) {fs ts : List Bytes}
    → (f ≡ plus) ⊎ (f ≡ t)
    → Matches fs ts
    → Matches (f ∷ fs) (t ∷ ts)
Matches-step f t {fs} {ts} (inl e) m = subst (λ f. Matches (f ∷ fs) (t ∷ ts)) (sym e) (one m)
Matches-step f t {fs} {ts} (inr e) m = subst (λ f. Matches (f ∷ fs) (t ∷ ts)) (sym e) (same m)

match_levels→Matches : (fs ts : List Bytes) → match_levels fs ts ≡ true → Matches fs ts
unfolding match_levels
match_levels→Matches [] [] h = end
match_levels→Matches [] (t ∷ ts) h = cc
match_levels→Matches (f ∷ fs) [] h =
    subst (λ f. Matches (f ∷ fs) []) (sym ((bytes_eq.beq_iff f hash).0 h)) rest
match_levels→Matches (f ∷ fs) (t ∷ ts) h = elim (Bool-cases (f == hash)) [
  | inl e ↦ subst (λ f. Matches (f ∷ fs) (t ∷ ts)) (sym ((bytes_eq.beq_iff f hash).0 e)) rest
  | inr e ↦
      Matches-step f t (ground (arith, bytes_eq.beq_iff f plus, bytes_eq.beq_iff f t))
        (match_levels→Matches fs ts (ground arith))
]

Matches→match_levels : {fs ts : List Bytes} → Matches fs ts → match_levels fs ts ≡ true
unfolding match_levels list_beq
Matches→match_levels end = refl
Matches→match_levels (rest {ts = []}) = refl
Matches→match_levels (rest {ts = t ∷ ts}) = refl
Matches→match_levels (one m) = Matches→match_levels m
Matches→match_levels (same {t} {fs} {ts} m) =
    ground (arith, bytes_eq.beq_iff t t, Matches→match_levels m)

-- The loop decides the matching relation.
pub match_levels_iff : (fs ts : List Bytes) → (match_levels fs ts ≡ true) ↔ Matches fs ts
match_levels_iff fs ts = (match_levels→Matches fs ts, Matches→match_levels)

-- `filter_matches` answers true exactly where the levels match and no wildcard at the first level
-- faces a topic that starts with `$`.
pub filter_matches_iff :
    (filter topic : Bytes)
    → (filter_matches filter topic ≡ true) ↔ (
        Matches (split filter) (split topic)
        × ((starts_with dollar topic ≡ false)
            ⊎ ((starts_with b'+' filter ≡ false) × (starts_with b'#' filter ≡ false))))
unfolding filter_matches
filter_matches_iff filter topic =
    let levels = match_levels_iff (split filter) (split topic) in
    (λ h. (levels.0 (ground arith), plain h), λ (m, d). ground (arith, levels.1 m, d))
  where
    plain :
        filter_matches filter topic ≡ true
        → (starts_with dollar topic ≡ false)
          ⊎ ((starts_with b'+' filter ≡ false) × (starts_with b'#' filter ≡ false))
    plain h = elim (Bool-cases (starts_with dollar topic)) [
      | inl d ↦ inr (ground arith, ground arith)
      | inr d ↦ inl d
    ]

subsumes_levels_sound :
    (rs qs ts : List Bytes)
    → subsumes_levels rs qs ≡ true
    → match_levels qs ts ≡ true
    → match_levels rs ts ≡ true
unfolding subsumes_levels match_levels
subsumes_levels_sound [] [] ts h m = m
subsumes_levels_sound [] (q ∷ qs) ts h m = cc
subsumes_levels_sound (r ∷ rs) [] [] h m = h
subsumes_levels_sound (r ∷ rs) [] (t ∷ ts) h m = cc
subsumes_levels_sound (r ∷ rs) (q ∷ qs) [] h m =
    ground (arith, bytes_eq.beq_iff r q, bytes_eq.beq_iff q hash, bytes_eq.beq_iff r hash)
subsumes_levels_sound (r ∷ rs) (q ∷ qs) (t ∷ ts) h m = ground (
  arith,
  bytes_eq.beq_iff r q,
  bytes_eq.beq_iff r t,
  bytes_eq.beq_iff q t,
  bytes_eq.beq_iff r plus,
  bytes_eq.beq_iff q plus,
  bytes_eq.beq_iff r hash,
  bytes_eq.beq_iff q hash,
  subsumes_levels_sound rs qs ts,
)

-- If a rule subsumes a request, then every topic that the request matches is matched by the rule,
-- as long as the topic does not start with `$`.
pub filter_subsumes_sound :
    (rule req topic : Bytes)
    → filter_subsumes rule req ≡ true
    → starts_with dollar topic ≡ false
    → filter_matches req topic ≡ true
    → filter_matches rule topic ≡ true
unfolding filter_subsumes filter_matches
filter_subsumes_sound rule req topic h d m =
    ground (arith, subsumes_levels_sound (split rule) (split req) (split topic))

match_levels_self : (ts : List Bytes) → match_levels ts ts ≡ true
unfolding match_levels
match_levels_self [] = refl
match_levels_self (t ∷ ts) = ground (arith, bytes_eq.beq_iff t t, match_levels_self ts)

subsumes_levels-hash : (qs : List Bytes) → subsumes_levels (hash ∷ []) qs ≡ true
unfolding subsumes_levels list_beq
subsumes_levels-hash [] = refl
subsumes_levels-hash (q ∷ qs) = refl

-- For a topic that starts with `$`: the rule `#` subsumes it as a request and it matches itself,
-- but `#` does not match it.
pub subsumes_dollar :
    (topic : Bytes)
    → starts_with dollar topic ≡ true
    → (filter_subsumes hash topic ≡ true)
      × (filter_matches topic topic ≡ true)
      × (filter_matches hash topic ≡ false)
unfolding filter_subsumes filter_matches
subsumes_dollar [] h = cc
subsumes_dollar (c ∷ topic) h = (
  unfold split in subsumes_levels-hash (split (c ∷ topic)),
  ground (arith, match_levels_self (split (c ∷ topic)), nat_eq.beq_iff c dollar),
  ground (arith, nat_eq.beq_iff c dollar),
)
