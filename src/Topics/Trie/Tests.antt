-- ===== src/Topics/Trie/Tests.antt =====
-- The trie's theorems at small tries, and runs of the operations on them.
use rusquitto.Topics.Trie.Select.{select}
use rusquitto.Base.{
  ◌≡◌, refl, false, not, none, List, [], ◌∷◌, list_eq, nat_eq, option_eq, list_beq, option_beq, any,
  retain, Perm, arith,
}
use rusquitto.Base.Text.{Bytes, codes, split, join}
use rusquitto.Protocol.{at_least_once, valid_levels, plus, hash}
use rusquitto.Topics.Filter.{filter_matches}
use rusquitto.Topics.Trie.{
  Subscription, SubOptions, Node, node, empty, entry, new_node, is_dead, child_get, subscription,
  insert, remove, remove_client_rec, matching, match_rec, child_subscribers, insert_rec, at_entry,
  remove_rec, on_child,
}
use rusquitto.Topics.Trie.View.{entries, IsWf}
use rusquitto.Topics.Trie.Remove.{entries-remove, hits, misses}
use rusquitto.Topics.Trie.Insert.{entries-insert, insert-IsWf, subscribed}
use rusquitto.Topics.Trie.History.{Call, inserts, removes, leaves, step, run, listed, matching-run}

abbrev ann : Bytes
ann = codes "ann"

abbrev bob : Bytes
bob = codes "bob"

abbrev opts : SubOptions
opts = record {
  qos = at_least_once;
  nolocal = false;
  retain_as_published = false;
  share_group = none;
  sub_id = none;
}

abbrev ann_sub : Subscription
ann_sub = subscription ann opts

abbrev bob_sub : Subscription
bob_sub = subscription bob opts

-- `home/+` for ann, `home/#` for bob.
abbrev root : Node
root =
    node
      (entry (codes "home")
        (node
          (entry plus (node empty (ann_sub ∷ [])) (entry hash (node empty (bob_sub ∷ [])) empty))
          [])
        empty)
      []

root-IsWf : IsWf root
unfolding child_get is_dead list_beq
root-IsWf = (
  refl,
  refl,
  refl,
  λ e. absurd (ground arith),
  (refl, refl, refl, λ e. refl, tt, (refl, refl, refl, λ e. refl, tt, tt)),
  tt,
)

abbrev calls : List Call
calls =
    inserts (codes "home/+") ann opts
    ∷ inserts (codes "home/#") bob opts
    ∷ inserts (codes "door") bob opts
    ∷ removes (codes "door") bob none
    ∷ leaves (codes "eve")
    ∷ []

matching-run_example :
    Perm
      (matching (codes "home/hall") (run calls new_node))
      (select (λ q. filter_matches (join q) (codes "home/hall")) (listed calls []))
unfolding valid_levels split list_beq
matching-run_example =
    matching-run calls (codes "home/hall") (refl, (refl, (refl, (tt, (tt, tt))))) refl refl

entries-insert_example :
    Perm
      (entries (insert (codes "home") ann opts root).0)
      (subscribed (split (codes "home")) ann opts (entries root))
    × ((insert (codes "home") ann opts root).1
        ≡ not (any (hits (split (codes "home")) ann none) (entries root)))
entries-insert_example = entries-insert (codes "home") ann opts root root-IsWf

insert-IsWf_example : IsWf (insert (codes "home/+") bob opts root).0
unfolding valid_levels split list_beq
insert-IsWf_example = insert-IsWf (codes "home/+") bob opts root refl root-IsWf

entries-remove_example :
    (entries (remove (codes "home/+") ann none root).0
      ≡ retain (misses (split (codes "home/+")) ann none) (entries root))
    × ((remove (codes "home/+") ann none root).1
        ≡ any (hits (split (codes "home/+")) ann none) (entries root))
entries-remove_example = entries-remove (codes "home/+") ann none root root-IsWf

-- Both filters match, the single-level one first.
matching-home : matching (codes "home/hall") root ≡ ann_sub ∷ bob_sub ∷ []
unfolding matching match_rec split child_get child_subscribers list_beq
matching-home = refl

-- The multi-level wildcard also matches its parent.
matching-parent : matching (codes "home") root ≡ bob_sub ∷ []
unfolding matching match_rec split child_get child_subscribers list_beq
matching-parent = refl

-- The calls build the trie and leave no node of the filter that was removed.
run-calls : run calls new_node ≡ root
unfolding run step insert insert_rec at_entry remove remove_rec on_child remove_client_rec is_dead
    split list_beq option_beq
run-calls = refl
