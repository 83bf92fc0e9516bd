-- ===== src/Topics/Filter/Tests.antt =====
-- The two filter tests at concrete filters.
use rusquitto.Base.{◌≡◌, refl, ◌↔◌, ◌⊎◌, true, false, nat_eq, list_eq, list_beq}
use rusquitto.Base.Text.{Bytes, codes, split, starts_with}
use rusquitto.Protocol.{hash, dollar}
use rusquitto.Topics.Filter.{match_levels, filter_matches, subsumes_levels, filter_subsumes}
use rusquitto.Topics.Filter.Laws.{
  Matches, filter_matches_iff, filter_subsumes_sound, subsumes_dollar,
}

abbrev deep : Bytes
deep = codes "home/hall/light"

abbrev system : Bytes
system = codes "$SYS/load"

filter_matches_iff_example : (filter_matches (codes "home/#") deep ≡ true) ↔ (
    Matches (split (codes "home/#")) (split deep)
    × ((starts_with dollar deep ≡ false)
        ⊎ ((starts_with b'+' (codes "home/#") ≡ false)
            × (starts_with b'#' (codes "home/#") ≡ false))))
filter_matches_iff_example = filter_matches_iff (codes "home/#") deep

filter_subsumes_sound_example : filter_matches (codes "home/#") deep ≡ true
unfolding filter_subsumes subsumes_levels filter_matches match_levels split list_beq
filter_subsumes_sound_example =
    filter_subsumes_sound (codes "home/#") (codes "home/+/light") deep refl refl refl

subsumes_dollar_example :
    (filter_subsumes hash system ≡ true)
    × (filter_matches system system ≡ true)
    × (filter_matches hash system ≡ false)
subsumes_dollar_example = subsumes_dollar system refl

-- A rule with `+` does not cover a request with `#`.
subsumes_plus : filter_subsumes (codes "home/+") (codes "home/#") ≡ false
unfolding filter_subsumes subsumes_levels split list_beq
subsumes_plus = refl
