-- ===== src/Topics/Trie.antt =====
-- src/broker/topics/trie.rs: the subscription trie. A node's `HashMap` of children is an
-- association list in an unspecified order; interned segments are their bytes.
pub mod View
pub mod Clients
pub mod Remove
pub mod Insert
pub mod Select
pub mod Matching
pub mod History
mod Tests
use rusquitto.Base.{
  Bool, true, false, not, ◌&&◌, ◌||◌, ◌≡◌, Option, none, some, List, [], ◌∷◌, ◌++◌, ◌==◌, nat_eq,
  list_eq, option_eq, if◌then◌else◌, any, retain, is_empty, length, ℕ,
}
use rusquitto.Base.Text.{Bytes, split, join, starts_with}
use rusquitto.Protocol.{Qos, plus, hash, dollar}

pub record Subscription : Type 0 where
  pub client_id : Bytes
  pub qos : Qos
  pub nolocal : Bool
  pub retain_as_published : Bool
  pub share_group : Option Bytes
  pub sub_id : Option ℕ

pub record FlatSub : Type 0 where
  pub filter : Bytes
  pub qos : Qos
  pub nolocal : Bool
  pub retain_as_published : Bool
  pub share_group : Option Bytes
  pub sub_id : Option ℕ

pub record SubOptions : Type 0 where
  pub qos : Qos
  pub nolocal : Bool
  pub retain_as_published : Bool
  pub share_group : Option Bytes
  pub sub_id : Option ℕ

mutual
  pub data Node : Type 0 where
    node : Children → List Subscription → Node

  pub data Children : Type 0 where
    empty : Children
    entry : Bytes → Node → Children → Children

-- `Node::default()`, also the root of `TopicTrie::default()`.
abbrev pub new_node : Node
new_node = node empty []

abbrev pub has_children : Node → Bool
has_children (node empty ss) = false
has_children (node (entry k n cs) ss) = true

abbrev pub subscribers : Node → List Subscription
subscribers (node cs ss) = ss

unfoldable pub is_dead : Node → Bool
is_dead n = is_empty (subscribers n) && not (has_children n)

unfoldable pub child_get : Bytes → Children → Option Node
child_get k empty = none
child_get k (entry j n cs) = if j == k then some n else child_get k cs

-- `children.entry(key).or_default()`, with the update made at the node.
unfoldable pub at_entry : Bytes → (Node → Node × Bool) → Children → Children × Bool
at_entry k f empty = let (n, b) = f new_node in (entry k n empty, b)
at_entry k f (entry j n cs) =
    let rest = at_entry k f cs in
    if j == k then (entry j (f n).0 cs, (f n).1) else (entry j n rest.0, rest.1)

-- The test `same` of `insert`, and the one of `remove_rec`.
abbrev pub same : Bytes → Option Bytes → Subscription → Bool
same client_id share_group s = s.client_id == client_id && s.share_group == share_group

abbrev pub subscription : Bytes → SubOptions → Subscription
subscription client_id opts = record {
  client_id = client_id;
  qos = opts.qos;
  nolocal = opts.nolocal;
  retain_as_published = opts.retain_as_published;
  share_group = opts.share_group;
  sub_id = opts.sub_id;
}

unfoldable pub insert_rec : List Bytes → Bytes → SubOptions → Node → Node × Bool
insert_rec [] client_id opts (node cs ss) = (
  node cs (
      retain (λ s. not (same client_id opts.share_group s)) ss ++ subscription client_id opts ∷ []),
  not (any (same client_id opts.share_group) ss),
)
insert_rec (seg ∷ segs) client_id opts (node cs ss) =
    let (cs', is_new) = at_entry seg (insert_rec segs client_id opts) cs in (node cs' ss, is_new)

unfoldable pub insert : Bytes → Bytes → SubOptions → Node → Node × Bool
insert filter = insert_rec (split filter)

-- The update of a child that is there; the child is dropped if it dies.
unfoldable pub on_child : Bytes → (Node → Node × Bool) → Children → Children × Bool
on_child k f empty = (empty, false)
on_child k f (entry j n cs) =
    let rest = on_child k f cs in
    if j == k
    then ((if is_dead (f n).0 then cs else entry j (f n).0 cs), (f n).1)
    else (entry j n rest.0, rest.1)

unfoldable pub remove_rec : List Bytes → Bytes → Option Bytes → Node → Node × Bool
remove_rec [] client_id share_group (node cs ss) =
    let ss' = retain (λ s. not (same client_id share_group s)) ss in
    (node cs ss', not (length ss' == length ss))
remove_rec (seg ∷ segs) client_id share_group (node cs ss) =
    let (cs', removed) = on_child seg (remove_rec segs client_id share_group) cs in
    (node cs' ss, removed)

unfoldable pub remove : Bytes → Bytes → Option Bytes → Node → Node × Bool
remove filter = remove_rec (split filter)

unfoldable mutual
  pub remove_client_rec : Bytes → Node → Node
  remove_client_rec c (node cs ss) =
      node (remove_client_children c cs) (retain (λ s. not (s.client_id == c)) ss)

  pub remove_client_children : Bytes → Children → Children
  remove_client_children c empty = empty
  remove_client_children c (entry k n cs) =
      let n' = remove_client_rec c n in
      let rest = remove_client_children c cs in if is_dead n' then rest else entry k n' rest

abbrev pub flat_sub : List Bytes → Subscription → FlatSub
flat_sub segments s = record {
  filter = join segments;
  qos = s.qos;
  nolocal = s.nolocal;
  retain_as_published = s.retain_as_published;
  share_group = s.share_group;
  sub_id = s.sub_id;
}

-- The loop over a node's subscribers that pushes those of the client.
unfoldable pub flatten_client : Bytes → List Bytes → List Subscription → List FlatSub
flatten_client c segments [] = []
flatten_client c segments (s ∷ ss) =
    let rest = flatten_client c segments ss in
    if s.client_id == c then flat_sub segments s ∷ rest else rest

-- `segments` is the stack of the path from the root; the result is what is pushed to `out`.
unfoldable mutual
  pub collect_client_rec : Bytes → List Bytes → Node → List FlatSub
  collect_client_rec c segments (node cs ss) =
      flatten_client c segments ss ++ collect_client_children c segments cs

  pub collect_client_children : Bytes → List Bytes → Children → List FlatSub
  collect_client_children c segments empty = []
  collect_client_children c segments (entry k n cs) =
      collect_client_rec c (segments ++ k ∷ []) n ++ collect_client_children c segments cs

unfoldable pub client_subscriptions : Bytes → Node → List FlatSub
client_subscriptions c root = collect_client_rec c [] root

unfoldable mutual
  pub take_client_rec : Bytes → List Bytes → Node → Node × List FlatSub
  take_client_rec c segments (node cs ss) =
      let (cs', out) = take_client_children c segments cs in
      (node cs' (retain (λ s. not (s.client_id == c)) ss), flatten_client c segments ss ++ out)

  pub take_client_children : Bytes → List Bytes → Children → Children × List FlatSub
  take_client_children c segments empty = (empty, [])
  take_client_children c segments (entry k n cs) =
      let (n', out) = take_client_rec c (segments ++ k ∷ []) n in
      let (cs', outs) = take_client_children c segments cs in
      ((if is_dead n' then cs' else entry k n' cs'), out ++ outs)

unfoldable pub take_client : Bytes → Node → Node × List FlatSub
take_client c root = take_client_rec c [] root

unfoldable pub child_subscribers : Option Node → List Subscription
child_subscribers none = []
child_subscribers (some n) = subscribers n

-- `top` says that `idx == 0`.
unfoldable pub match_rec : List Bytes → Bool → Bool → Node → List Subscription
match_rec [] top dollar_top (node cs ss) = ss ++ child_subscribers (child_get hash cs)
match_rec (seg ∷ rest) top dollar_top (node cs ss) =
    elim (child_get seg cs) [ none ↦ [] | some n ↦ match_rec rest false dollar_top n ]
    ++ (elim (top && dollar_top) [
      | true ↦ []
      | false ↦
          elim (child_get plus cs) [ none ↦ [] | some n ↦ match_rec rest false dollar_top n ]
          ++ child_subscribers (child_get hash cs)
    ])

abbrev pub first_starts : List Bytes → Bool
first_starts [] = false
first_starts (s ∷ ss) = starts_with dollar s

unfoldable pub matching : Bytes → Node → List Subscription
matching topic root = match_rec (split topic) true (first_starts (split topic)) root

-- The distinct groups, as the elements of the `HashSet`.
unfoldable pub collect_group : Option Bytes → List Bytes → List Bytes
collect_group none out = out
collect_group (some g) out = if any (λ h. h == g) out then out else g ∷ out

unfoldable pub collect_groups_subs : List Subscription → List Bytes → List Bytes
collect_groups_subs [] out = out
collect_groups_subs (s ∷ ss) out = collect_groups_subs ss (collect_group s.share_group out)

unfoldable mutual
  pub collect_groups_rec : Node → List Bytes → List Bytes
  collect_groups_rec (node cs ss) out = collect_groups_children cs (collect_groups_subs ss out)

  pub collect_groups_children : Children → List Bytes → List Bytes
  collect_groups_children empty out = out
  collect_groups_children (entry k n cs) out = collect_groups_children cs (collect_groups_rec n out)
