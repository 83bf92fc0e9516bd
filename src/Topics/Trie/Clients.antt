-- ===== src/Topics/Trie/Clients.antt =====
-- src/broker/topics/trie.rs: the operations over all subscriptions of one client.
use rusquitto.Base.{
  Bool, false, not, ◌≡◌, refl, none, List, [], ◌∷◌, ◌++◌, ◌==◌, nat_eq, list_eq, map, arith, retain,
  retain-append, retain-map, Bool-cases, inl, inr,
}
use mathlib.Core.List.{append_assoc, append-nil, map-append}
use rusquitto.Base.Text.{Bytes}
use rusquitto.Topics.Trie.{
  Subscription, FlatSub, Node, node, Children, empty, entry, is_dead, has_children, child_get,
  remove_client_rec, remove_client_children, take_client_rec, take_client_children,
  collect_client_rec, collect_client_children, flatten_client, flat_sub, take_client,
  client_subscriptions,
}
use rusquitto.Topics.Trie.View.{
  Entry, prefixed, here, entries, child_entries, IsWf, AreWf, entries-dead,
}

abbrev pub is_of : Bytes → Entry → Bool
is_of c e = e.1.client_id == c

abbrev pub not_of : Bytes → Entry → Bool
not_of c e = not (is_of c e)

mutual
  unfolding remove_client_rec entries

  entries-remove_client_rec :
      (c : Bytes) (n : Node) → entries (remove_client_rec c n) ≡ retain (not_of c) (entries n)
  entries-remove_client_rec c (node cs ss) = rw (
    retain-append (not_of c) (here ss) (child_entries cs),
    retain-map (not_of c) (λ s. ([], s)) ss,
    entries-remove_client_children c cs,
  )

  entries-remove_client_children :
      (c : Bytes) (cs : Children)
      → child_entries (remove_client_children c cs) ≡ retain (not_of c) (child_entries cs)
  entries-remove_client_children c empty = refl
  entries-remove_client_children c (entry k n cs) =
      rw
        (
          retain-append (not_of c) (prefixed k (entries n)) (child_entries cs),
          retain-map (not_of c) (λ e. (k ∷ e.0, e.1)) (entries n),
          ← entries-remove_client_children c cs,
          ← entries-remove_client_rec c n,
        )
        (elim (Bool-cases (is_dead (remove_client_rec c n))) [
          | inl d ↦ rw (d, entries-dead (remove_client_rec c n) d)
          | inr d ↦ rw d
        ])

-- Removing a client drops its subscriptions and keeps all others, with their filters.
pub entries-remove_client :
    (c : Bytes) (n : Node) → entries (remove_client_rec c n) ≡ retain (not_of c) (entries n)
entries-remove_client c n = entries-remove_client_rec c n

mutual
  unfolding take_client_rec remove_client_rec collect_client_rec

  take_client_rec-eq :
      (c : Bytes) (p : List Bytes) (n : Node)
      → take_client_rec c p n ≡ (remove_client_rec c n, collect_client_rec c p n)
  take_client_rec-eq c p (node cs ss) = rw (take_client_children-eq c p cs)

  take_client_children-eq :
      (c : Bytes) (p : List Bytes) (cs : Children)
      → take_client_children c p cs ≡ (remove_client_children c cs, collect_client_children c p cs)
  take_client_children-eq c p empty = refl
  take_client_children-eq c p (entry k n cs) =
      rw (take_client_rec-eq c (p ++ k ∷ []) n, take_client_children-eq c p cs)

-- Taking a client's subscriptions is removing the client and returning what a listing of its
-- subscriptions returns.
pub take_client_lem :
    (c : Bytes) (root : Node)
    → take_client c root ≡ (remove_client_rec c root, client_subscriptions c root)
unfolding take_client client_subscriptions
take_client_lem c root = take_client_rec-eq c [] root

abbrev pub flat_at : List Bytes → Entry → FlatSub
flat_at p e = flat_sub (p ++ e.0) e.1

flatten_client-eq :
    (c : Bytes) (p : List Bytes) (ss : List Subscription)
    → flatten_client c p ss ≡ map (flat_at p) (retain (is_of c) (here ss))
unfolding flatten_client
flatten_client-eq c p [] = refl
flatten_client-eq c p (s ∷ ss) = ground (arith, flatten_client-eq c p ss, append-nil p)

map-prefixed :
    (p : List Bytes) (k : Bytes) (es : List Entry)
    → map (flat_at (p ++ k ∷ [])) es ≡ map (flat_at p) (prefixed k es)
map-prefixed p k [] = refl
map-prefixed p k (e ∷ es) = ground (arith, append_assoc p (k ∷ []) e.0, map-prefixed p k es)

mutual
  unfolding collect_client_rec entries

  collect_client_rec-eq :
      (c : Bytes) (p : List Bytes) (n : Node)
      → collect_client_rec c p n ≡ map (flat_at p) (retain (is_of c) (entries n))
  collect_client_rec-eq c p (node cs ss) = rw (
    retain-append (is_of c) (here ss) (child_entries cs),
    map-append (flat_at p) (retain (is_of c) (here ss)),
    flatten_client-eq c p ss,
    collect_client_children-eq c p cs,
  )

  collect_client_children-eq :
      (c : Bytes) (p : List Bytes) (cs : Children)
      → collect_client_children c p cs ≡ map (flat_at p) (retain (is_of c) (child_entries cs))
  collect_client_children-eq c p empty = refl
  collect_client_children-eq c p (entry k n cs) = rw (
    retain-append (is_of c) (prefixed k (entries n)) (child_entries cs),
    map-append (flat_at p) (retain (is_of c) (prefixed k (entries n))),
    retain-map (is_of c) (λ e. (k ∷ e.0, e.1)) (entries n),
    collect_client_rec-eq c (p ++ k ∷ []) n,
    map-prefixed p k (retain (is_of c) (entries n)),
    collect_client_children-eq c p cs,
  )

-- The listing of a client's subscriptions holds its entries in the trie, in their order, each with
-- the filter that its path spells.
pub client_subscriptions_lem :
    (c : Bytes) (root : Node)
    → client_subscriptions c root ≡ map (flat_at []) (retain (is_of c) (entries root))
unfolding client_subscriptions
client_subscriptions_lem c root = collect_client_rec-eq c [] root

child_get-remove_client :
    (c k : Bytes) (cs : Children)
    → child_get k cs ≡ none
    → child_get k (remove_client_children c cs) ≡ none
unfolding child_get remove_client_rec
child_get-remove_client c k empty h = refl
child_get-remove_client c k (entry j n cs) h = ground (arith, child_get-remove_client c k cs)

has_children-remove_client :
    (c : Bytes) (n : Node) → has_children n ≡ false → has_children (remove_client_rec c n) ≡ false
unfolding remove_client_rec
has_children-remove_client c (node empty ss) h = refl
has_children-remove_client c (node (entry k n cs) ss) h = cc

mutual
  unfolding remove_client_rec

  remove_client_rec-IsWf : (c : Bytes) (n : Node) → IsWf n → IsWf (remove_client_rec c n)
  remove_client_rec-IsWf c (node cs ss) w = remove_client_children-AreWf c cs w

  remove_client_children-AreWf :
      (c : Bytes) (cs : Children) → AreWf cs → AreWf (remove_client_children c cs)
  remove_client_children-AreWf c empty w = tt
  remove_client_children-AreWf c (entry k n cs) (fresh, seg, alive, leaf, wn, ws) =
      elim (Bool-cases (is_dead (remove_client_rec c n))) [
        | inl d ↦ rw d (remove_client_children-AreWf c cs ws)
        | inr d ↦ rw d (
          child_get-remove_client c k cs fresh,
          seg,
          d,
          λ e. has_children-remove_client c n (leaf e),
          remove_client_rec-IsWf c n wn,
          remove_client_children-AreWf c cs ws,
        )
      ]

-- Removing a client keeps a trie well-formed, so that no dead node is left below the root.
pub remove_client-IsWf : (c : Bytes) (n : Node) → IsWf n → IsWf (remove_client_rec c n)
remove_client-IsWf c n w = remove_client_rec-IsWf c n w
