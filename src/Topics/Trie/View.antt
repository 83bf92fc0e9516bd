-- ===== src/Topics/Trie/View.antt =====
-- The trie seen as the list of its filters with their subscriptions, and its invariant.
use rusquitto.Base.{true, false, ◌≡◌, refl, none, List, [], ◌∷◌, ◌++◌, nat_eq, list_eq, map}
use rusquitto.Base.Text.{Bytes, IsSegment}
use rusquitto.Protocol.{hash}
use rusquitto.Topics.Trie.{
  Subscription, Node, node, Children, empty, entry, is_dead, has_children, child_get,
}

-- A filter, as its levels, with one subscription to it.
abbrev pub Entry : Type 0
Entry = List Bytes × Subscription

abbrev pub prefixed : Bytes → List Entry → List Entry
prefixed k = map (λ e. (k ∷ e.0, e.1))

abbrev pub here : List Subscription → List Entry
here = map (λ s. ([], s))

unfoldable mutual
  pub entries : Node → List Entry
  entries (node cs ss) = here ss ++ child_entries cs

  pub child_entries : Children → List Entry
  child_entries empty = []
  child_entries (entry k n cs) = prefixed k (entries n) ++ child_entries cs

-- Keys stand once and hold no separator, no node below the root is dead, and `#` has no children.
abbrev mutual
  pub IsWf : Node → Type 0
  IsWf (node cs ss) = AreWf cs

  pub AreWf : Children → Type 0
  AreWf empty = Unit
  AreWf (entry k n cs) =
      (child_get k cs ≡ none)
      × IsSegment k
      × (is_dead n ≡ false)
      × (k ≡ hash → has_children n ≡ false)
      × IsWf n
      × AreWf cs

pub entries-dead : (n : Node) → is_dead n ≡ true → entries n ≡ []
unfolding entries is_dead
entries-dead (node empty []) h = refl
entries-dead (node empty (s ∷ ss)) h = cc
entries-dead (node (entry k n cs) []) h = cc
entries-dead (node (entry k n cs) (s ∷ ss)) h = cc
