-- ===== src/Topics/Filter.antt =====
-- src/broker/topics/trie.rs: the two tests on filters, `filter_matches` and `filter_subsumes`.
pub mod Laws
mod Tests
use rusquitto.Base.{
  Bool, true, false, ◌&&◌, ◌||◌, List, [], ◌∷◌, ◌==◌, nat_eq, list_eq, if◌then◌else◌,
}
use rusquitto.Base.Text.{Bytes, split, starts_with}
use rusquitto.Protocol.{plus, hash, dollar}

-- The loop of `filter_matches` over the segments of the filter and of the topic.
unfoldable pub match_levels : List Bytes → List Bytes → Bool
match_levels [] [] = true
match_levels [] (t ∷ ts) = false
match_levels (f ∷ fs) [] = f == hash
match_levels (f ∷ fs) (t ∷ ts) =
    if f == hash then true else if f == plus || f == t then match_levels fs ts else false

unfoldable pub filter_matches : Bytes → Bytes → Bool
filter_matches filter topic =
    if starts_with dollar topic && (starts_with b'+' filter || starts_with b'#' filter)
    then false
    else match_levels (split filter) (split topic)

-- The loop of `filter_subsumes` over the segments of the rule and of the request. A segment `+`
-- of the rule covers one level that is not `#`; any other covers the level that is equal to it.
unfoldable pub subsumes_levels : List Bytes → List Bytes → Bool
subsumes_levels [] [] = true
subsumes_levels [] (q ∷ qs) = false
subsumes_levels (r ∷ rs) [] = r == hash
subsumes_levels (r ∷ rs) (q ∷ qs) =
    let rest = subsumes_levels rs qs in
    if r == hash
    then true
    else if r == plus
    then (if q == hash then false else rest)
    else if r == q
    then rest
    else false

unfoldable pub filter_subsumes : Bytes → Bytes → Bool
filter_subsumes rule req = subsumes_levels (split rule) (split req)
