-- ===== src/Topics/Trie/Remove.antt =====
-- src/broker/topics/trie.rs: `remove`, against the list of entries.
use rusquitto.Base.{
  Bool, false, not, ◌&&◌, ◌≡◌, refl, Option, none, List, [], ◌∷◌, ◌==◌, nat_eq, list_eq, option_eq,
  arith, retain, any, length, length-retain-le, retain-append, Bool-cases, inl, inr, if◌then◌else◌,
  list_beq, subst, any-append, any-map,
}
use rusquitto.Base.Text.{Bytes, bytes_eq, split}
use rusquitto.Topics.Trie.{
  Subscription, Node, node, Children, empty, entry, is_dead, has_children, child_get, on_child,
  remove_rec, remove, same,
}
use rusquitto.Topics.Trie.View.{
  Entry, prefixed, here, entries, child_entries, IsWf, AreWf, entries-dead,
}

-- The entries that a removal, or a new subscription, takes out.
abbrev pub hits : List Bytes → Bytes → Option Bytes → Entry → Bool
hits p c g e = e.0 == p && (e.1.client_id == c && e.1.share_group == g)

abbrev pub misses : List Bytes → Bytes → Option Bytes → Entry → Bool
misses p c g e = not (hits p c g e)

pub misses-here_nil :
    (c : Bytes) (g : Option Bytes) (ss : List Subscription)
    → retain (misses [] c g) (here ss) ≡ here (retain (λ s. not (same c g s)) ss)
unfolding list_beq
misses-here_nil c g [] = refl
misses-here_nil c g (s ∷ ss) = ground (arith, misses-here_nil c g ss)

pub misses-here_cons :
    (k : Bytes) (p : List Bytes) (c : Bytes) (g : Option Bytes) (ss : List Subscription)
    → retain (misses (k ∷ p) c g) (here ss) ≡ here ss
unfolding list_beq
misses-here_cons k p c g [] = refl
misses-here_cons k p c g (s ∷ ss) = ground (arith, misses-here_cons k p c g ss)

pub misses-prefixed :
    (k : Bytes) (p : List Bytes) (c : Bytes) (g : Option Bytes) (es : List Entry)
    → retain (misses (k ∷ p) c g) (prefixed k es) ≡ prefixed k (retain (misses p c g) es)
unfolding list_beq
misses-prefixed k p c g [] = refl
misses-prefixed k p c g (e ∷ es) = ground (arith, bytes_eq.beq_iff k k, misses-prefixed k p c g es)

pub misses-prefixed_ne :
    (j k : Bytes) (p : List Bytes) (c : Bytes) (g : Option Bytes) (es : List Entry)
    → (j == k) ≡ false
    → retain (misses (k ∷ p) c g) (prefixed j es) ≡ prefixed j es
unfolding list_beq
misses-prefixed_ne j k p c g [] h = refl
misses-prefixed_ne j k p c g (e ∷ es) h = ground (arith, misses-prefixed_ne j k p c g es)

pub misses-prefixed_nil :
    (j : Bytes) (c : Bytes) (g : Option Bytes) (es : List Entry)
    → retain (misses [] c g) (prefixed j es) ≡ prefixed j es
unfolding list_beq
misses-prefixed_nil j c g [] = refl
misses-prefixed_nil j c g (e ∷ es) = ground (arith, misses-prefixed_nil j c g es)

pub misses-children_nil :
    (c : Bytes) (g : Option Bytes) (cs : Children)
    → retain (misses [] c g) (child_entries cs) ≡ child_entries cs
unfolding entries
misses-children_nil c g empty = refl
misses-children_nil c g (entry k n cs) = rw (
  retain-append (misses [] c g) (prefixed k (entries n)) (child_entries cs),
  misses-prefixed_nil k c g (entries n),
  misses-children_nil c g cs,
)

-- A key that is not there hits nothing.
pub misses-children_fresh :
    (k : Bytes) (p : List Bytes) (c : Bytes) (g : Option Bytes) (cs : Children)
    → child_get k cs ≡ none
    → retain (misses (k ∷ p) c g) (child_entries cs) ≡ child_entries cs
unfolding entries child_get
misses-children_fresh k p c g empty h = refl
misses-children_fresh k p c g (entry j n cs) h = elim (Bool-cases (j == k)) [
  | inl e ↦ ground arith
  | inr e ↦ rw (
    retain-append (misses (k ∷ p) c g) (prefixed j (entries n)) (child_entries cs),
    misses-prefixed_ne j k p c g (entries n) e,
    misses-children_fresh k p c g cs (ground arith),
  )
]

entries-hit :
    (k : Bytes) (p : List Bytes) (c : Bytes) (g : Option Bytes) (n' n : Node) (cs : Children)
    → entries n' ≡ retain (misses p c g) (entries n)
    → child_get k cs ≡ none
    → child_entries (if is_dead n' then cs else entry k n' cs)
      ≡ retain (misses (k ∷ p) c g) (child_entries (entry k n cs))
unfolding entries
entries-hit k p c g n' n cs h fresh =
    rw
      (
        retain-append (misses (k ∷ p) c g) (prefixed k (entries n)) (child_entries cs),
        misses-prefixed k p c g (entries n),
        misses-children_fresh k p c g cs fresh,
        ← h,
      )
      (elim (Bool-cases (is_dead n')) [ inl d ↦ rw (d, entries-dead n' d) | inr d ↦ rw d ])

entries-on_child :
    (k : Bytes) (p : List Bytes) (c : Bytes) (g : Option Bytes) (f : Node → Node × Bool)
    → ((n : Node) → IsWf n → entries (f n).0 ≡ retain (misses p c g) (entries n))
    → (cs : Children) → AreWf cs
    → child_entries (on_child k f cs).0 ≡ retain (misses (k ∷ p) c g) (child_entries cs)
unfolding entries on_child
entries-on_child k p c g f h empty w = refl
entries-on_child k p c g f h (entry j n cs) (fresh, seg, alive, leaf, wn, ws) =
    elim (Bool-cases (j == k)) [
      | inl e ↦ rw e (
          subst
            (λ k.
              child_entries (if is_dead (f n).0 then cs else entry j (f n).0 cs)
              ≡ retain (misses (k ∷ p) c g) (child_entries (entry j n cs)))
            ((bytes_eq.beq_iff j k).0 e) (entries-hit j p c g (f n).0 n cs (h n wn) fresh))
      | inr e ↦ rw (
        e,
        retain-append (misses (k ∷ p) c g) (prefixed j (entries n)) (child_entries cs),
        misses-prefixed_ne j k p c g (entries n) e,
        entries-on_child k p c g f h cs ws,
      )
    ]

-- Removing a subscription drops it from the entries and keeps all others.
entries-remove_rec :
    (p : List Bytes) (c : Bytes) (g : Option Bytes) (n : Node)
    → IsWf n
    → entries (remove_rec p c g n).0 ≡ retain (misses p c g) (entries n)
unfolding entries remove_rec
entries-remove_rec [] c g (node cs ss) w = rw (
  retain-append (misses [] c g) (here ss) (child_entries cs),
  misses-here_nil c g ss,
  misses-children_nil c g cs,
)
entries-remove_rec (k ∷ p) c g (node cs ss) w = rw (
  retain-append (misses (k ∷ p) c g) (here ss) (child_entries cs),
  misses-here_cons k p c g ss,
  entries-on_child k p c g (remove_rec p c g) (entries-remove_rec p c g) cs w,
)

pub any-same :
    (c : Bytes) (g : Option Bytes) (ss : List Subscription)
    → not (length (retain (λ s. not (same c g s)) ss) == length ss) ≡ any (same c g) ss
any-same c g [] = refl
any-same c g (s ∷ ss) = ground (arith, any-same c g ss, length-retain-le (λ s. not (same c g s)) ss)

pub hits-here_nil :
    (c : Bytes) (g : Option Bytes) (ss : List Subscription)
    → any (hits [] c g) (here ss) ≡ any (same c g) ss
unfolding list_beq
hits-here_nil c g ss = any-map (hits [] c g) (λ s. ([], s)) ss

pub hits-here_cons :
    (k : Bytes) (p : List Bytes) (c : Bytes) (g : Option Bytes) (ss : List Subscription)
    → any (hits (k ∷ p) c g) (here ss) ≡ false
unfolding list_beq
hits-here_cons k p c g [] = refl
hits-here_cons k p c g (s ∷ ss) = hits-here_cons k p c g ss

pub hits-prefixed :
    (j k : Bytes) (p : List Bytes) (c : Bytes) (g : Option Bytes) (es : List Entry)
    → any (hits (k ∷ p) c g) (prefixed j es) ≡ (j == k && any (hits p c g) es)
unfolding list_beq
hits-prefixed j k p c g [] = ground arith
hits-prefixed j k p c g (e ∷ es) = ground (arith, hits-prefixed j k p c g es)

pub hits-prefixed_nil :
    (j : Bytes) (c : Bytes) (g : Option Bytes) (es : List Entry)
    → any (hits [] c g) (prefixed j es) ≡ false
unfolding list_beq
hits-prefixed_nil j c g [] = refl
hits-prefixed_nil j c g (e ∷ es) = hits-prefixed_nil j c g es

pub hits-children_nil :
    (c : Bytes) (g : Option Bytes) (cs : Children) → any (hits [] c g) (child_entries cs) ≡ false
unfolding entries
hits-children_nil c g empty = refl
hits-children_nil c g (entry k n cs) = rw (
  any-append (hits [] c g) (prefixed k (entries n)) (child_entries cs),
  hits-prefixed_nil k c g (entries n),
  hits-children_nil c g cs,
)

pub hits-children_fresh :
    (k : Bytes) (p : List Bytes) (c : Bytes) (g : Option Bytes) (cs : Children)
    → child_get k cs ≡ none
    → any (hits (k ∷ p) c g) (child_entries cs) ≡ false
unfolding entries child_get
hits-children_fresh k p c g empty h = refl
hits-children_fresh k p c g (entry j n cs) h =
    rw
      (
        any-append (hits (k ∷ p) c g) (prefixed j (entries n)) (child_entries cs),
        hits-prefixed j k p c g (entries n),
      )
      (ground (arith, hits-children_fresh k p c g cs))

on_child_fresh :
    (k : Bytes) (f : Node → Node × Bool) (cs : Children)
    → child_get k cs ≡ none
    → (on_child k f cs).1 ≡ false
unfolding on_child child_get
on_child_fresh k f empty h = refl
on_child_fresh k f (entry j n cs) h = ground (arith, on_child_fresh k f cs)

removed-on_child :
    (k : Bytes) (p : List Bytes) (c : Bytes) (g : Option Bytes) (f : Node → Node × Bool)
    → ((n : Node) → IsWf n → (f n).1 ≡ any (hits p c g) (entries n))
    → (cs : Children) → AreWf cs
    → (on_child k f cs).1 ≡ any (hits (k ∷ p) c g) (child_entries cs)
unfolding entries on_child
removed-on_child k p c g f h empty w = refl
removed-on_child k p c g f h (entry j n cs) (fresh, seg, alive, leaf, wn, ws) =
    rw
      (
        any-append (hits (k ∷ p) c g) (prefixed j (entries n)) (child_entries cs),
        hits-prefixed j k p c g (entries n),
        ← h n wn,
        ← removed-on_child k p c g f h cs ws,
      )
      (ground (arith, on_child_fresh k f cs, bytes_eq.beq_iff j k))

-- The answer says whether an entry was there.
removed-remove_rec :
    (p : List Bytes) (c : Bytes) (g : Option Bytes) (n : Node)
    → IsWf n
    → (remove_rec p c g n).1 ≡ any (hits p c g) (entries n)
unfolding entries remove_rec
removed-remove_rec [] c g (node cs ss) w =
    rw
      (
        any-append (hits [] c g) (here ss) (child_entries cs),
        hits-here_nil c g ss,
        hits-children_nil c g cs,
      )
      (ground (arith, any-same c g ss))
removed-remove_rec (k ∷ p) c g (node cs ss) w =
    rw (any-append (hits (k ∷ p) c g) (here ss) (child_entries cs), hits-here_cons k p c g ss)
      (removed-on_child k p c g (remove_rec p c g) (removed-remove_rec p c g) cs w)

-- In a well-formed trie, unsubscribing takes out the client's entry for this filter and group, keeps every other entry
-- in place, and answers whether there was one.
pub entries-remove :
    (filter c : Bytes) (g : Option Bytes) (root : Node)
    → IsWf root
    → (entries (remove filter c g root).0 ≡ retain (misses (split filter) c g) (entries root))
      × ((remove filter c g root).1 ≡ any (hits (split filter) c g) (entries root))
unfolding remove
entries-remove filter c g root w =
    (entries-remove_rec (split filter) c g root w, removed-remove_rec (split filter) c g root w)

child_get-on_child :
    (j k : Bytes) (f : Node → Node × Bool) (cs : Children)
    → child_get j cs ≡ none
    → child_get j (on_child k f cs).0 ≡ none
unfolding child_get on_child
child_get-on_child j k f empty h = refl
child_get-on_child j k f (entry i n cs) h = ground (arith, child_get-on_child j k f cs)

on_child-AreWf :
    (k : Bytes) (f : Node → Node × Bool)
    → ((n : Node) → IsWf n → IsWf (f n).0)
    → ((n : Node) → has_children n ≡ false → has_children (f n).0 ≡ false)
    → (cs : Children) → AreWf cs
    → AreWf (on_child k f cs).0
unfolding on_child
on_child-AreWf k f h l empty w = tt
on_child-AreWf k f h l (entry j n cs) (fresh, seg, alive, leaf, wn, ws) =
    elim (Bool-cases (j == k)) [
      | inl e ↦ elim (Bool-cases (is_dead (f n).0)) [
        | inl d ↦ rw (e, d) ws
        | inr d ↦ rw (e, d) (fresh, seg, d, λ q. l n (leaf q), h n wn, ws)
      ]
      | inr e ↦
          rw e
            (child_get-on_child j k f cs fresh, seg, alive, leaf, wn, on_child-AreWf k f h l cs ws)
    ]

has_children-remove_rec :
    (p : List Bytes) (c : Bytes) (g : Option Bytes) (n : Node)
    → has_children n ≡ false
    → has_children (remove_rec p c g n).0 ≡ false
unfolding remove_rec on_child
has_children-remove_rec [] c g (node empty ss) h = refl
has_children-remove_rec [] c g (node (entry j n cs) ss) h = cc
has_children-remove_rec (k ∷ p) c g (node empty ss) h = refl
has_children-remove_rec (k ∷ p) c g (node (entry j n cs) ss) h = cc

remove_rec-IsWf :
    (p : List Bytes) (c : Bytes) (g : Option Bytes) (n : Node)
    → IsWf n
    → IsWf (remove_rec p c g n).0
unfolding remove_rec
remove_rec-IsWf [] c g (node cs ss) w = w
remove_rec-IsWf (k ∷ p) c g (node cs ss) w =
    on_child-AreWf k (remove_rec p c g) (remove_rec-IsWf p c g) (has_children-remove_rec p c g) cs w

-- Unsubscribing keeps a trie well-formed, so that no dead node is left below the root.
pub remove-IsWf :
    (filter c : Bytes) (g : Option Bytes) (root : Node)
    → IsWf root
    → IsWf (remove filter c g root).0
unfolding remove
remove-IsWf filter c g root = remove_rec-IsWf (split filter) c g root
