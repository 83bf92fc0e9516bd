-- ===== src/Topics/Trie/Select.antt =====
-- The entries of a trie that pass a test on their filter, child by child: lemmas for `match_rec`.
use rusquitto.Base.{
  Bool, true, false, ◌||◌, ◌≡◌, refl, ap, ◌∙◌, subst, none, some, List, [], ◌∷◌, ◌++◌, ◌==◌, nat_eq,
  list_eq, map, arith, retain, retain-append, Bool-cases, inl, inr, if◌then◌else◌, list_beq, Perm,
}
use mathlib.Core.List.{append_assoc, append-nil, map-append, perm_append_comm}
use mathlib.Core.List.Perm
use rusquitto.Base.Text.{Bytes, bytes_eq}
use rusquitto.Protocol.{plus, hash}
use rusquitto.Topics.Filter.{match_levels}
use rusquitto.Topics.Trie.{
  Subscription, Node, node, Children, empty, entry, has_children, child_get, child_subscribers,
  subscribers,
}
use rusquitto.Topics.Trie.View.{Entry, prefixed, here, entries, child_entries, AreWf}

-- The subscriptions of the entries that pass a test on the filter's levels.
abbrev pub select : (List Bytes → Bool) → List Entry → List Subscription
select p es = map (λ e. e.1) (retain (λ e. p e.0) es)

pub select-append :
    (p : List Bytes → Bool) (xs ys : List Entry) → select p (xs ++ ys) ≡ select p xs ++ select p ys
select-append p xs ys =
    rw (retain-append (λ e. p e.0) xs ys) (map-append (λ e. e.1) (retain (λ e. p e.0) xs) _)

pub select-prefixed :
    (p : List Bytes → Bool) (k : Bytes) (es : List Entry)
    → select p (prefixed k es) ≡ select (λ q. p (k ∷ q)) es
select-prefixed p k [] = refl
select-prefixed p k (e ∷ es) = ground (arith, select-prefixed p k es)

pub select_all :
    (p : List Bytes → Bool) (es : List Entry)
    → ((q : List Bytes) → p q ≡ true)
    → select p es ≡ map (λ e. e.1) es
select_all p [] h = refl
select_all p (e ∷ es) h = ground (arith, h e.0, select_all p es h)

pub select_none :
    (p : List Bytes → Bool) (es : List Entry) → ((q : List Bytes) → p q ≡ false) → select p es ≡ []
select_none p [] h = refl
select_none p (e ∷ es) h = ground (arith, h e.0, select_none p es h)

subs-here : (ss : List Subscription) → map (λ e. e.1) (here ss) ≡ ss
subs-here [] = refl
subs-here (s ∷ ss) = ap (◌∷◌ s) (subs-here ss)

pub select-here :
    (p : List Bytes → Bool) (ss : List Subscription)
    → select p (here ss) ≡ (if p [] then ss else [])
select-here p [] = ground arith
select-here p (s ∷ ss) = ground (arith, select-here p ss)

subs-leaf : (n : Node) → has_children n ≡ false → map (λ e. e.1) (entries n) ≡ subscribers n
unfolding entries
subs-leaf (node empty ss) h = rw append-nil (subs-here ss)
subs-leaf (node (entry k n cs) ss) h = cc

pub select-eq :
    (p p' : List Bytes → Bool) (es : List Entry)
    → ((q : List Bytes) → p q ≡ p' q)
    → select p es ≡ select p' es
select-eq p p' [] h = refl
select-eq p p' (e ∷ es) h = ground (arith, h e.0, select-eq p p' es h)

match_levels-hash :
    (k : Bytes) (q ts : List Bytes) → (k == hash) ≡ true → match_levels (k ∷ q) ts ≡ true
unfolding match_levels
match_levels-hash k q [] h = h
match_levels-hash k q (t ∷ ts) h = rw h

match_levels-cons :
    (k t : Bytes) (q ts : List Bytes)
    → (k == hash) ≡ false
    → match_levels (k ∷ q) (t ∷ ts) ≡ (if k == plus || k == t then match_levels q ts else false)
unfolding match_levels
match_levels-cons k t q ts h = rw h

-- The levels that remain of a topic, against all the filters below one child.
select-child :
    (t : Bytes) (ts : List Bytes) (k : Bytes) (n : Node)
    → (k ≡ hash → has_children n ≡ false)
    → select (λ q. match_levels (k ∷ q) (t ∷ ts)) (entries n) ≡ (
        if k == hash
        then subscribers n
        else if k == plus || k == t
        then select (λ q. match_levels q ts) (entries n)
        else [])
select-child t ts k n leaf = elim (Bool-cases (k == hash)) [
  | inl e ↦ rw e (
      select_all _ (entries n) (λ q. match_levels-hash k q (t ∷ ts) e)
      ∙ subs-leaf n (leaf ((bytes_eq.beq_iff k hash).0 e)))
  | inr e ↦ elim (Bool-cases (k == plus || k == t)) [
    | inl m ↦
        rw (e, m)
          (select-eq _ (λ q. match_levels q ts) (entries n)
            (λ q. match_levels-cons k t q ts e ∙ rw m refl))
    | inr m ↦ rw (e, m) (select_none _ (entries n) (λ q. match_levels-cons k t q ts e ∙ rw m refl))
  ]
]

select-child_end :
    (k : Bytes) (n : Node)
    → (k ≡ hash → has_children n ≡ false)
    → select (λ q. match_levels (k ∷ q) []) (entries n) ≡ (if k == hash then subscribers n else [])
unfolding match_levels
select-child_end k n leaf = elim (Bool-cases (k == hash)) [
  | inl e ↦
      rw e
        (select_all _ (entries n) (λ q. refl) ∙ subs-leaf n (leaf ((bytes_eq.beq_iff k hash).0 e)))
  | inr e ↦ rw e (select_none _ (entries n) (λ q. refl))
]

pub select-children_end :
    (cs : Children)
    → AreWf cs
    → select (λ q. match_levels q []) (child_entries cs) ≡ child_subscribers (child_get hash cs)
unfolding entries child_get child_subscribers
select-children_end empty w = refl
select-children_end (entry k n cs) (fresh, seg, alive, leaf, wn, ws) =
    rw
      (
        select-append (λ q. match_levels q []) (prefixed k (entries n)) (child_entries cs),
        select-prefixed (λ q. match_levels q []) k (entries n),
        select-child_end k n leaf,
        select-children_end cs ws,
      )
      (ground (arith, bytes_eq.beq_iff k hash, append-nil (subscribers n)))

-- The recursive search below the child of a key.
abbrev pub below : Bytes → (Node → List Subscription) → Children → List Subscription
below k f cs = elim (child_get k cs) [ none ↦ [] | some n ↦ f n ]

-- The three lookups of `match_rec`: the level itself, `+` and `#`.
abbrev pub found : (Node → List Subscription) → Bytes → Children → List Subscription
found f t cs = below t f cs ++ (below plus f cs ++ child_subscribers (child_get hash cs))

module _ (f : Node → List Subscription) (t k : Bytes) (n : Node) (cs : Children) where
  found-hash :
      (k == hash) ≡ true
      → (t == hash) ≡ false
      → found f t (entry k n cs) ≡ below t f cs ++ (below plus f cs ++ subscribers n)
  unfolding child_get child_subscribers list_beq
  found-hash e nh =
      ground (arith, bytes_eq.beq_iff k hash, bytes_eq.beq_iff k t, bytes_eq.beq_iff k plus)

  found-plus :
      (k == plus) ≡ true
      → (t == plus) ≡ false
      → found f t (entry k n cs) ≡ below t f cs ++ (f n ++ child_subscribers (child_get hash cs))
  unfolding child_get child_subscribers list_beq
  found-plus e np =
      ground (arith, bytes_eq.beq_iff k hash, bytes_eq.beq_iff k t, bytes_eq.beq_iff k plus)

  found-level :
      (k == t) ≡ true
      → (t == plus) ≡ false
      → (t == hash) ≡ false
      → found f t (entry k n cs) ≡ f n ++ (below plus f cs ++ child_subscribers (child_get hash cs))
  unfolding child_get child_subscribers
  found-level e np nh =
      ground (arith, bytes_eq.beq_iff k hash, bytes_eq.beq_iff k t, bytes_eq.beq_iff k plus)

  found-other :
      (k == hash) ≡ false → (k == plus || k == t) ≡ false → found f t (entry k n cs) ≡ found f t cs
  unfolding child_get child_subscribers
  found-other e m = ground arith

module _ {ℓ} {A : Type ℓ} {s : List A} (a b x : List A) where
  last-perm : Perm s (a ++ (b ++ [])) → Perm (x ++ s) (a ++ (b ++ x))
  last-perm h =
      Perm.trans (perm_append_comm x s)
        (rw (← append_assoc a b x) (Perm.append_right x (rw (append-nil b) at h)))

  middle-perm : Perm s (a ++ ([] ++ b)) → Perm (x ++ s) (a ++ (x ++ b))
  middle-perm h =
      Perm.trans (Perm.append_left x h) (
        rw (← append_assoc x a b, ← append_assoc a x b)
          (Perm.append_right b (perm_append_comm x a)))

abbrev pub rest_of : List Bytes → Node → List Subscription
rest_of ts n = select (λ q. match_levels q ts) (entries n)

pub child_get-fresh :
    (k j : Bytes) (cs : Children) → (k == j) ≡ true → child_get k cs ≡ none → child_get j cs ≡ none
child_get-fresh k j cs e h = subst (λ i. child_get i cs ≡ none) ((bytes_eq.beq_iff k j).0 e) h

pub below-none :
    (k : Bytes) (f : Node → List Subscription) (cs : Children)
    → child_get k cs ≡ none
    → below k f cs ≡ []
below-none k f cs h = rw (h, below)

hash-none : (cs : Children) → child_get hash cs ≡ none → child_subscribers (child_get hash cs) ≡ []
unfolding child_subscribers
hash-none cs h = rw h

-- One more child puts its subscriptions in the place of its key.
found-step :
    (f : Node → List Subscription) (t k : Bytes) (n : Node) (cs : Children) {s : List Subscription}
    → (t == plus) ≡ false
    → (t == hash) ≡ false
    → child_get k cs ≡ none
    → Perm s (found f t cs)
    → Perm
        ((if k == hash then subscribers n else if k == plus || k == t then f n else []) ++ s)
        (found f t (entry k n cs))
found-step f t k n cs {s} np nh fresh ih = elim (Bool-cases (k == hash)) [
  | inl e ↦
      rw (found-hash f t k n cs e nh, e)
        (last-perm (below t f cs) (below plus f cs) (subscribers n) (
          subst (λ h. Perm s (below t f cs ++ (below plus f cs ++ h)))
            (hash-none cs (child_get-fresh k hash cs e fresh)) ih))
  | inr e ↦ elim (Bool-cases (k == plus)) [
    | inl p ↦
        rw (found-plus f t k n cs p np, e, p)
          (middle-perm (below t f cs) (child_subscribers (child_get hash cs)) (f n) (
            subst (λ h. Perm s (below t f cs ++ (h ++ child_subscribers (child_get hash cs))))
              (below-none plus f cs (child_get-fresh k plus cs p fresh)) ih))
    | inr p ↦ elim (Bool-cases (k == t)) [
      | inl m ↦
          rw (found-level f t k n cs m np nh, e, p, m)
            (Perm.append_left (f n) (
              subst (λ h. Perm s (h ++ (below plus f cs ++ child_subscribers (child_get hash cs))))
                (below-none t f cs (child_get-fresh k t cs m fresh)) ih))
      | inr m ↦ rw (found-other f t k n cs e (rw (p, m)), e, p, m) ih
    ]
  ]
]

pub select-children :
    (t : Bytes) (ts : List Bytes) (cs : Children)
    → (t == plus) ≡ false
    → (t == hash) ≡ false
    → AreWf cs
    → Perm (select (λ q. match_levels q (t ∷ ts)) (child_entries cs)) (found (rest_of ts) t cs)
unfolding entries child_get child_subscribers
select-children t ts empty np nh w = Perm.nil
select-children t ts (entry k n cs) np nh (fresh, seg, alive, leaf, wn, ws) =
    rw
      (
        select-append (λ q. match_levels q (t ∷ ts)) (prefixed k (entries n)) (child_entries cs),
        select-prefixed (λ q. match_levels q (t ∷ ts)) k (entries n),
        select-child t ts k n leaf,
      )
      (found-step (rest_of ts) t k n cs np nh fresh (select-children t ts cs np nh ws))
