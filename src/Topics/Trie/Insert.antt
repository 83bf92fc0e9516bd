-- ===== src/Topics/Trie/Insert.antt =====
-- src/broker/topics/trie.rs: `insert`, against the list of entries.
use rusquitto.Base.{
  Bool, true, false, not, ◌≡◌, refl, sym, ◌∙◌, subst, Option, none, List, [], ◌∷◌, ◌++◌, ◌==◌,
  nat_eq, list_eq, option_eq, arith, retain, any, All, is_empty, retain-append, any-append,
  Bool-cases, inl, inr, Perm,
}
use mathlib.Core.List.{map-append, perm_middle, perm_append_singleton}
use mathlib.Core.List.Perm
use rusquitto.Base.Text.{Bytes, bytes_eq, split, IsSegment, split-IsSegment}
use rusquitto.Protocol.{hash, valid_levels}
use rusquitto.Topics.Trie.{
  Subscription, SubOptions, Node, node, Children, empty, entry, new_node, is_dead, has_children,
  child_get, at_entry, insert_rec, insert, same, subscription,
}
use rusquitto.Topics.Trie.View.{Entry, prefixed, here, entries, child_entries, IsWf, AreWf}
use rusquitto.Topics.Trie.Remove.{
  hits, misses, misses-here_nil, misses-here_cons, misses-prefixed, misses-prefixed_ne,
  misses-children_nil, misses-children_fresh, hits-here_nil, hits-here_cons, hits-prefixed,
  hits-children_nil, hits-children_fresh,
}

-- The entries after a subscription: the new one, and the old ones but for the one it replaces.
abbrev pub subscribed : List Bytes → Bytes → SubOptions → List Entry → List Entry
subscribed p c o es =
    (
      p,
      record {
        client_id = c;
        qos = o.qos;
        nolocal = o.nolocal;
        retain_as_published = o.retain_as_published;
        share_group = o.share_group;
        sub_id = o.sub_id;
      },
    )
    ∷ retain (misses p c o.share_group) es

module _ (k : Bytes) (p : List Bytes) (c : Bytes) (o : SubOptions) (f : Node → Node × Bool)
    (h : (n : Node) → IsWf n → Perm (entries (f n).0) (subscribed p c o (entries n))) where
  entries-at_hit :
      (n : Node) (cs : Children)
      → IsWf n
      → child_get k cs ≡ none
      → Perm
          (child_entries (entry k (f n).0 cs))
          (subscribed (k ∷ p) c o (child_entries (entry k n cs)))
  unfolding entries
  entries-at_hit n cs wn fresh =
      rw
        (
          retain-append (misses (k ∷ p) c o.share_group) (prefixed k (entries n))
              (child_entries cs),
          misses-prefixed k p c o.share_group (entries n),
          misses-children_fresh k p c o.share_group cs fresh,
        )
        (Perm.append_right (child_entries cs) (Perm.map (λ (e : Entry). (k ∷ e.0, e.1)) (h n wn)))

  entries-at_miss :
      (j : Bytes) (n : Node) (cs rest : Children)
      → (j == k) ≡ false
      → Perm (child_entries rest) (subscribed (k ∷ p) c o (child_entries cs))
      → Perm
          (child_entries (entry j n rest))
          (subscribed (k ∷ p) c o (child_entries (entry j n cs)))
  unfolding entries
  entries-at_miss j n cs rest e ih =
      rw
        (
          retain-append (misses (k ∷ p) c o.share_group) (prefixed j (entries n))
              (child_entries cs),
          misses-prefixed_ne j k p c o.share_group (entries n) e,
        )
        (Perm.trans (Perm.append_left (prefixed j (entries n)) ih)
          (perm_middle (prefixed j (entries n)) _))

  entries-at_entry :
      (cs : Children)
      → AreWf cs
      → Perm (child_entries (at_entry k f cs).0) (subscribed (k ∷ p) c o (child_entries cs))
  unfolding at_entry
  entries-at_entry empty w = unfold entries child_get in entries-at_hit new_node empty tt refl
  entries-at_entry (entry j n cs) (fresh, seg, alive, leaf, wn, ws) = elim (Bool-cases (j == k)) [
    | inl e ↦
        let same_key : j ≡ k = (bytes_eq.beq_iff j k).0 e in
        rw e (
          subst
            (λ i.
              Perm (child_entries (entry i (f n).0 cs))
                (subscribed (k ∷ p) c o (child_entries (entry i n cs))))
            (sym same_key)
            (entries-at_hit n cs wn (subst (λ i. child_get i cs ≡ none) same_key fresh)))
    | inr e ↦ rw e (entries-at_miss j n cs (at_entry k f cs).0 e (entries-at_entry cs ws))
  ]

-- What a new subscription does to the entries, in whatever order the children stand.
entries-insert_rec :
    (p : List Bytes) (c : Bytes) (o : SubOptions) (n : Node)
    → IsWf n
    → Perm (entries (insert_rec p c o n).0) (subscribed p c o (entries n))
unfolding entries insert_rec
entries-insert_rec [] c o (node cs ss) w =
    rw
      (
        retain-append (misses [] c o.share_group) (here ss) (child_entries cs),
        misses-here_nil c o.share_group ss,
        misses-children_nil c o.share_group cs,
        map-append (λ (s : Subscription). let e : Entry = ([], s) in e)
            (retain (λ s. not (same c o.share_group s)) ss),
      )
      (Perm.append_right (child_entries cs) (perm_append_singleton _ _))
entries-insert_rec (k ∷ p) c o (node cs ss) w =
    rw
      (
        retain-append (misses (k ∷ p) c o.share_group) (here ss) (child_entries cs),
        misses-here_cons k p c o.share_group ss,
      )
      (Perm.trans
        (Perm.append_left (here ss)
          (entries-at_entry k p c o (insert_rec p c o) (entries-insert_rec p c o) cs w))
        (perm_middle (here ss) _))

is_new-at_entry :
    (k : Bytes) (p : List Bytes) (c : Bytes) (g : Option Bytes) (f : Node → Node × Bool)
    → ((n : Node) → IsWf n → (f n).1 ≡ not (any (hits p c g) (entries n)))
    → (cs : Children) → AreWf cs
    → (at_entry k f cs).1 ≡ not (any (hits (k ∷ p) c g) (child_entries cs))
unfolding at_entry entries
is_new-at_entry k p c g f h empty w = h new_node tt
is_new-at_entry k p c g f h (entry j n cs) (fresh, seg, alive, leaf, wn, ws) =
    rw
      (
        any-append (hits (k ∷ p) c g) (prefixed j (entries n)) (child_entries cs),
        hits-prefixed j k p c g (entries n),
      )
      (ground (
        arith,
        h n wn,
        is_new-at_entry k p c g f h cs ws,
        hits-children_fresh k p c g cs,
        bytes_eq.beq_iff j k,
      ))

is_new-insert_rec :
    (p : List Bytes) (c : Bytes) (o : SubOptions) (n : Node)
    → IsWf n
    → (insert_rec p c o n).1 ≡ not (any (hits p c o.share_group) (entries n))
unfolding entries insert_rec
is_new-insert_rec [] c o (node cs ss) w =
    rw
      (
        any-append (hits [] c o.share_group) (here ss) (child_entries cs),
        hits-here_nil c o.share_group ss,
        hits-children_nil c o.share_group cs,
      )
      (ground arith)
is_new-insert_rec (k ∷ p) c o (node cs ss) w =
    rw
      (
        any-append (hits (k ∷ p) c o.share_group) (here ss) (child_entries cs),
        hits-here_cons k p c o.share_group ss,
      )
      (is_new-at_entry k p c o.share_group (insert_rec p c o) (is_new-insert_rec p c o) cs w)

-- In a well-formed trie, subscribing adds one entry, takes out the client's entry for the same
-- filter and group if it had one, keeps all others, and answers whether it had none.
pub entries-insert :
    (filter c : Bytes) (o : SubOptions) (root : Node)
    → IsWf root
    → Perm (entries (insert filter c o root).0) (subscribed (split filter) c o (entries root))
      × ((insert filter c o root).1
          ≡ not (any (hits (split filter) c o.share_group) (entries root)))
unfolding insert
entries-insert filter c o root w =
    (entries-insert_rec (split filter) c o root w, is_new-insert_rec (split filter) c o root w)

child_get-at_entry :
    (j k : Bytes) (f : Node → Node × Bool) (cs : Children)
    → (j == k) ≡ false
    → child_get j cs ≡ none
    → child_get j (at_entry k f cs).0 ≡ none
unfolding child_get at_entry
child_get-at_entry j k f empty e h = ground (arith, bytes_eq.beq_iff j k, bytes_eq.beq_iff k j)
child_get-at_entry j k f (entry i n cs) e h = ground (arith, child_get-at_entry j k f cs)

is_empty-snoc {ℓ} : {A : Type ℓ} (xs : List A) (x : A) → is_empty (xs ++ x ∷ []) ≡ false
is_empty-snoc [] x = refl
is_empty-snoc (y ∷ ys) x = refl

has_children-insert_rec :
    (p : List Bytes) (c : Bytes) (o : SubOptions) (n : Node)
    → p ≡ []
    → has_children n ≡ false
    → has_children (insert_rec p c o n).0 ≡ false
unfolding insert_rec
has_children-insert_rec [] c o (node empty ss) e h = refl
has_children-insert_rec [] c o (node (entry k n cs) ss) e h = h
has_children-insert_rec (k ∷ p) c o n e h = cc

is_dead-insert_rec :
    (p : List Bytes) (c : Bytes) (o : SubOptions) (n : Node)
    → is_dead (insert_rec p c o n).0 ≡ false
unfolding is_dead insert_rec at_entry
is_dead-insert_rec [] c o (node cs ss) =
    ground (arith, is_empty-snoc (retain (λ s. not (same c o.share_group s)) ss) (subscription c o))
is_dead-insert_rec (k ∷ p) c o (node empty ss) = ground arith
is_dead-insert_rec (k ∷ p) c o (node (entry j n cs) ss) = ground arith

at_entry-AreWf :
    (k : Bytes) (p : List Bytes) (c : Bytes) (o : SubOptions)
    → IsSegment k
    → (k ≡ hash → p ≡ [])
    → ((n : Node) → IsWf n → IsWf (insert_rec p c o n).0)
    → (cs : Children) → AreWf cs
    → AreWf (at_entry k (insert_rec p c o) cs).0
unfolding at_entry
at_entry-AreWf k p c o sk last h empty w = (
  unfold child_get in refl,
  sk,
  is_dead-insert_rec p c o new_node,
  λ e. has_children-insert_rec p c o new_node (last e) refl,
  h new_node tt,
  tt,
)
at_entry-AreWf k p c o sk last h (entry j n cs) (fresh, seg, alive, leaf, wn, ws) =
    elim (Bool-cases (j == k)) [
      | inl e ↦ rw e (
        fresh,
        seg,
        is_dead-insert_rec p c o n,
        λ q. has_children-insert_rec p c o n (last (sym ((bytes_eq.beq_iff j k).0 e) ∙ q)) (leaf q),
        h n wn,
        ws,
      )
      | inr e ↦ rw e (
        child_get-at_entry j k (insert_rec p c o) cs e fresh,
        seg,
        alive,
        leaf,
        wn,
        at_entry-AreWf k p c o sk last h cs ws,
      )
    ]

valid_levels-hash : (p : List Bytes) (k : Bytes) → valid_levels (k ∷ p) ≡ true → k ≡ hash → p ≡ []
unfolding valid_levels
valid_levels-hash [] k v e = refl
valid_levels-hash (q ∷ p) k v e = ground (arith, bytes_eq.beq_iff k hash)

valid_levels-tail :
    (p : List Bytes) (k : Bytes) → valid_levels (k ∷ p) ≡ true → valid_levels p ≡ true
unfolding valid_levels
valid_levels-tail p k v = ground arith

insert_rec-IsWf :
    (p : List Bytes) (c : Bytes) (o : SubOptions)
    → All IsSegment p
    → valid_levels p ≡ true
    → (n : Node) → IsWf n
    → IsWf (insert_rec p c o n).0
unfolding insert_rec
insert_rec-IsWf [] c o a v (node cs ss) w = w
insert_rec-IsWf (k ∷ p) c o a v (node cs ss) w =
    at_entry-AreWf k p c o a.0 (valid_levels-hash p k v)
      (insert_rec-IsWf p c o a.1 (valid_levels-tail p k v)) cs w

-- Subscribing to a filter of valid levels keeps a trie well-formed.
pub insert-IsWf :
    (filter c : Bytes) (o : SubOptions) (root : Node)
    → valid_levels (split filter) ≡ true
    → IsWf root
    → IsWf (insert filter c o root).0
unfolding insert
insert-IsWf filter c o root v = insert_rec-IsWf (split filter) c o (split-IsSegment filter) v root
