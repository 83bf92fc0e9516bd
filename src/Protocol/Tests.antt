-- ===== src/Protocol/Tests.antt =====
-- The validity tests and the parser of shared filters at concrete texts.
use rusquitto.Base.{◌≡◌, refl, ◌↔◌, true, false, none, some, nat_eq, list_eq, list_beq}
use rusquitto.Base.Text.{Bytes, codes, split, split_once}
use rusquitto.Protocol.{parse_shared_filter, valid_levels, valid_subscribe_filter}
use rusquitto.Protocol.Laws.{
  IsShared, IsFilter, parse_shared_filter_iff, valid_subscribe_filter_iff,
}

abbrev shared : Bytes
shared = codes "$share/crew/home/+"

parse_shared_filter_iff_example :
    (parse_shared_filter shared ≡ some (codes "home/+", some (codes "crew")))
    ↔ IsShared shared (codes "crew") (codes "home/+")
parse_shared_filter_iff_example = parse_shared_filter_iff shared (codes "crew") (codes "home/+")

valid_subscribe_filter_iff_example :
    (valid_subscribe_filter (codes "home/#") ≡ true) ↔ IsFilter (codes "home/#")
valid_subscribe_filter_iff_example = valid_subscribe_filter_iff (codes "home/#")

-- The parser finds the parts, and refuses a wildcard in the group.
shared_parts_found : parse_shared_filter shared ≡ some (codes "home/+", some (codes "crew"))
unfolding parse_shared_filter split_once list_beq
shared_parts_found = refl

shared_wildcard : parse_shared_filter (codes "$share/cr+w/home") ≡ none
unfolding parse_shared_filter split_once list_beq
shared_wildcard = refl

-- A level that mixes `#` with other bytes is refused.
filter_mixed : valid_subscribe_filter (codes "home/a#") ≡ false
unfolding valid_subscribe_filter valid_levels split list_beq
filter_mixed = refl
