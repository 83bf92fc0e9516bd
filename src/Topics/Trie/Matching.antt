-- ===== src/Topics/Trie/Matching.antt =====
-- src/broker/topics/trie.rs: `matching` finds the subscriptions whose filter matches, as the
-- independent test `filter_matches` says.
use rusquitto.Base.{
  Bool, true, false, ◌&&◌, ◌||◌, ◌≡◌, refl, sym, ap, ap₂, ◌∙◌, List, [], ◌∷◌, ◌++◌, ◌==◌, nat_eq,
  list_eq, map, arith, retain-eq_on, All, All-append, All-map, All-imp, Bool-cases, inl, inr,
  if◌then◌else◌, list_beq, Perm,
}
use mathlib.Core.List.{append-nil}
use mathlib.Core.List.Perm
use rusquitto.Base.Text.{
  Bytes, split, join, IsSegment, starts_with, contains, split-join, join-split, split-ne-nil,
  contains-split, starts_with-join,
}
use rusquitto.Protocol.{plus, hash, dollar}
use rusquitto.Topics.Filter.{match_levels, filter_matches}
use rusquitto.Topics.Trie.{
  Subscription, Node, node, Children, empty, entry, child_get, subscribers, match_rec, matching,
  first_starts,
}
use rusquitto.Topics.Trie.Select.{
  select, rest_of, below, select-append, select-prefixed, select_none, select-here, select-eq,
  select-children_end, select-children, child_get-fresh, below-none,
}
use rusquitto.Topics.Trie.View.{Entry, prefixed, here, entries, child_entries, IsWf, AreWf}

-- No level of the topic is a wildcard.
abbrev pub IsConcrete : List Bytes → Type 0
IsConcrete = All (λ t. ((t == plus) ≡ false) × ((t == hash) ≡ false))

below-perm :
    (k : Bytes) (f g : Node → List Subscription)
    → ((n : Node) → IsWf n → Perm (f n) (g n))
    → (cs : Children) → AreWf cs
    → Perm (below k f cs) (below k g cs)
unfolding child_get
below-perm k f g h empty w = Perm.nil
below-perm k f g h (entry j n cs) (fresh, seg, alive, leaf, wn, ws) = elim (Bool-cases (j == k)) [
  | inl e ↦ rw (e, below) (h n wn)
  | inr e ↦ rw (e, below) (below-perm k f g h cs ws)
]

rest_of-node :
    (ts : List Bytes) (cs : Children) (ss : List Subscription)
    → rest_of ts (node cs ss)
      ≡ (if match_levels [] ts then ss else [])
        ++ select (λ q. match_levels q ts) (child_entries cs)
unfolding entries
rest_of-node ts cs ss = rw (
  select-append (λ q. match_levels q ts) (here ss) (child_entries cs),
  select-here (λ q. match_levels q ts) ss,
)

match_rec-Perm :
    (ts : List Bytes) (top dollar_top : Bool) (n : Node)
    → (top && dollar_top) ≡ false
    → IsConcrete ts
    → IsWf n
    → Perm (match_rec ts top dollar_top n) (rest_of ts n)
unfolding match_rec match_levels
match_rec-Perm [] top d (node cs ss) e c w =
    rw (rest_of-node [] cs ss, select-children_end cs w) Perm.rfl
match_rec-Perm (t ∷ ts) top d (node cs ss) e c w =
    rw (rest_of-node (t ∷ ts) cs ss, e)
      (Perm.trans
        (Perm.append (below-perm t _ (rest_of ts) (λ n. match_rec-Perm ts false d n refl c.1) cs w)
          (Perm.append_right _
            (below-perm plus _ (rest_of ts) (λ n. match_rec-Perm ts false d n refl c.1) cs w)))
        (Perm.symm (select-children t ts cs c.0.0 c.0.1 w)))

-- A topic that starts with `$` is matched at its first level by that level only.
abbrev literal_first : Bytes → List Bytes → List Bytes → Bool
literal_first t ts [] = false
literal_first t ts (k ∷ q) = k == t && match_levels q ts

below-hit :
    (t k : Bytes) (f : Node → List Subscription) (n : Node) (cs : Children)
    → (k == t) ≡ true
    → below t f (entry k n cs) ≡ f n
unfolding child_get
below-hit t k f n cs e = rw (e, below)

below-miss :
    (t k : Bytes) (f : Node → List Subscription) (n : Node) (cs : Children)
    → (k == t) ≡ false
    → below t f (entry k n cs) ≡ below t f cs
unfolding child_get
below-miss t k f n cs e = rw (e, below)

select-literal :
    (t : Bytes) (ts : List Bytes) (cs : Children)
    → AreWf cs
    → select (literal_first t ts) (child_entries cs) ≡ below t (rest_of ts) cs
unfolding entries
select-literal t ts empty w = unfold child_get in refl
select-literal t ts (entry k n cs) (fresh, seg, alive, leaf, wn, ws) =
    rw
      (
        select-append (literal_first t ts) (prefixed k (entries n)) (child_entries cs),
        select-prefixed (literal_first t ts) k (entries n),
        select-literal t ts cs ws,
      )
      (elim (Bool-cases (k == t)) [
        | inl e ↦
            ap₂ ◌++◌ (select-eq _ (λ q. match_levels q ts) (entries n) (λ q. rw e))
              (below-none t (rest_of ts) cs (child_get-fresh k t cs e fresh))
            ∙ append-nil (rest_of ts n)
            ∙ sym (below-hit t k (rest_of ts) n cs e)
        | inr e ↦
            ap (λ xs. xs ++ below t (rest_of ts) cs) (select_none _ (entries n) (λ q. rw e))
            ∙ sym (below-miss t k (rest_of ts) n cs e)
      ])

literal_level :
    (k t : Bytes) (m : Bool)
    → starts_with dollar t ≡ true
    → (if starts_with b'+' k || starts_with b'#' k
        then false
        else if k == hash
        then true
        else if k == plus || k == t
        then m
        else false)
      ≡ (k == t && m)
unfolding list_beq
literal_level k [] m d = cc
literal_level [] (x ∷ t) m d = ground arith
literal_level (c ∷ k) (x ∷ t) m d = ground arith

-- What `filter_matches` says of a rebuilt filter against a topic that starts with `$`.
filter_matches-dollar :
    (k : Bytes) (q : List Bytes) (t : Bytes) (ts : List Bytes) (topic : Bytes)
    → All IsSegment (k ∷ q)
    → split topic ≡ t ∷ ts
    → starts_with dollar topic ≡ true
    → starts_with dollar t ≡ true
    → filter_matches (join (k ∷ q)) topic ≡ (k == t && match_levels q ts)
unfolding filter_matches match_levels
filter_matches-dollar k q t ts topic a e d h =
    rw
      (
        split-join (k ∷ q) (λ p. ground arith) a,
        e,
        starts_with-join b'+' k q (omega arith),
        starts_with-join b'#' k q (omega arith),
        d,
      )
      (literal_level k t (match_levels q ts) h)

filter_matches-plain :
    (k : Bytes) (q : List Bytes) (topic : Bytes)
    → All IsSegment (k ∷ q)
    → starts_with dollar topic ≡ false
    → filter_matches (join (k ∷ q)) topic ≡ match_levels (k ∷ q) (split topic)
unfolding filter_matches
filter_matches-plain k q topic a d = rw (split-join (k ∷ q) (λ p. ground arith) a, d)

-- The filters below the root are nonempty lists of segments.
abbrev IsPath : List Bytes → Type 0
IsPath [] = ⊥
IsPath (k ∷ q) = All IsSegment (k ∷ q)

IsPath-IsSegment : (q : List Bytes) → IsPath q → All IsSegment q
IsPath-IsSegment [] h = tt
IsPath-IsSegment (k ∷ q) h = h

All-any : (ss : List Subscription) → All (λ (s : Subscription). Unit {0}) ss
All-any [] = tt
All-any (s ∷ ss) = (tt, All-any ss)

mutual
  unfolding entries

  entries-IsSegment : (n : Node) → IsWf n → All (λ (e : Entry). All IsSegment e.0) (entries n)
  entries-IsSegment (node cs ss) w =
      All-append (λ (e : Entry). All IsSegment e.0) (here ss) (child_entries cs)
        (All-map (λ (e : Entry). All IsSegment e.0) (λ s. ([], s)) ss (All-any ss))
        (All-imp {P = λ (e : Entry). IsPath e.0} {Q = λ (e : Entry). All IsSegment e.0}
          (λ e h. IsPath-IsSegment e.0 h) (child_entries cs) (child_entries-IsPath cs w))

  child_entries-IsPath :
      (cs : Children) → AreWf cs → All (λ (e : Entry). IsPath e.0) (child_entries cs)
  child_entries-IsPath empty w = tt
  child_entries-IsPath (entry k n cs) (fresh, seg, alive, leaf, wn, ws) =
      All-append (λ (e : Entry). IsPath e.0) (prefixed k (entries n)) (child_entries cs)
        (All-map (λ (e : Entry). IsPath e.0) (λ e. (k ∷ e.0, e.1)) (entries n)
          (All-imp {P = λ (e : Entry). All IsSegment e.0}
            {Q = λ (e : Entry). All IsSegment (k ∷ e.0)} (λ e h. (seg, h)) (entries n)
            (entries-IsSegment n wn)))
        (child_entries-IsPath cs ws)

select-eq_on :
    (p p' : List Bytes → Bool) (es : List Entry)
    → All (λ (e : Entry). p e.0 ≡ p' e.0) es
    → select p es ≡ select p' es
select-eq_on p p' es h =
    ap (map (λ (e : Entry). e.1)) (retain-eq_on (λ e. p e.0) (λ e. p' e.0) es h)

first_level :
    (topic t : Bytes) (ts : List Bytes)
    → split topic ≡ t ∷ ts
    → starts_with dollar topic ≡ starts_with dollar t
first_level topic t ts e =
    ap (starts_with dollar) (sym (join-split topic) ∙ ap join e)
    ∙ starts_with-join dollar t ts (omega arith)

module _ (cs : Children) (topic t : Bytes) (ts : List Bytes) (w : AreWf cs)
    (e : split topic ≡ t ∷ ts) where
  select-plain :
      starts_with dollar t ≡ false
      → select (λ q. filter_matches (join q) topic) (child_entries cs)
        ≡ select (λ q. match_levels q (t ∷ ts)) (child_entries cs)
  select-plain d = select-eq_on _ _ (child_entries cs) (
      All-imp {P = λ (e : Entry). IsPath e.0}
        {Q = λ (x : Entry). filter_matches (join x.0) topic ≡ match_levels x.0 (t ∷ ts)}
        (λ x h. on_path x.0 h) (child_entries cs) (child_entries-IsPath cs w))
    where
      on_path :
          (q : List Bytes) → IsPath q → filter_matches (join q) topic ≡ match_levels q (t ∷ ts)
      on_path [] h = absurd h
      on_path (k ∷ q) h =
          filter_matches-plain k q topic h (first_level topic t ts e ∙ d)
          ∙ ap (match_levels (k ∷ q)) e

  select-dollar :
      starts_with dollar t ≡ true
      → select (λ q. filter_matches (join q) topic) (child_entries cs)
        ≡ select (literal_first t ts) (child_entries cs)
  select-dollar d = select-eq_on _ _ (child_entries cs) (
      All-imp {P = λ (e : Entry). IsPath e.0}
        {Q = λ (x : Entry). filter_matches (join x.0) topic ≡ literal_first t ts x.0}
        (λ x h. on_path x.0 h) (child_entries cs) (child_entries-IsPath cs w))
    where
      on_path : (q : List Bytes) → IsPath q → filter_matches (join q) topic ≡ literal_first t ts q
      on_path [] h = absurd h
      on_path (k ∷ q) h = filter_matches-dollar k q t ts topic h e (first_level topic t ts e ∙ d) d

  match_top-Perm :
      (c : IsConcrete (t ∷ ts))
      → Perm
          (match_rec (t ∷ ts) true (starts_with dollar t) (node cs []))
          (select (λ q. filter_matches (join q) topic) (child_entries cs))
  match_top-Perm c = elim (Bool-cases (starts_with dollar t)) [
    | inl d ↦
        rw (select-dollar d, select-literal t ts cs w, d)
          (unfold match_rec in
            rw append-nil
              (below-perm t _ (rest_of ts) (λ n. match_rec-Perm ts false true n refl c.1) cs w))
    | inr d ↦
        rw (select-plain d, d)
          (Perm.trans (match_rec-Perm (t ∷ ts) true false (node cs []) refl c w)
            (rw (rest_of-node (t ∷ ts) cs []) (unfold match_levels in Perm.rfl)))
  ]

concrete_level :
    (t : Bytes)
    → contains b'+' t ≡ false
    → contains b'#' t ≡ false
    → ((t == plus) ≡ false) × ((t == hash) ≡ false)
unfolding list_beq
concrete_level [] p h = (refl, refl)
concrete_level (c ∷ t) p h = (ground arith, ground arith)

IsConcrete-levels :
    (ts : List Bytes)
    → All (λ t. contains b'+' t ≡ false) ts
    → All (λ t. contains b'#' t ≡ false) ts
    → IsConcrete ts
IsConcrete-levels [] p h = tt
IsConcrete-levels (t ∷ ts) p h = (concrete_level t p.0 h.0, IsConcrete-levels ts p.1 h.1)

-- The subscriptions whose filter, as `filter_matches` tells, matches a topic.
abbrev pub subscriptions_to : Bytes → Node → List Subscription
subscriptions_to topic root = select (λ q. filter_matches (join q) topic) (entries root)

matching_at :
    (segs : List Bytes) (cs : Children) (topic : Bytes)
    → split topic ≡ segs
    → IsConcrete segs
    → AreWf cs
    → Perm
        (match_rec segs true (first_starts segs) (node cs []))
        (select (λ q. filter_matches (join q) topic) (child_entries cs))
matching_at [] cs topic e c w = absurd (split-ne-nil topic e)
matching_at (t ∷ ts) cs topic e c w = match_top-Perm cs topic t ts w e c

-- For a topic without wildcard bytes, and a well-formed trie with no subscription at the root, the
-- search returns the subscriptions whose filter, by `filter_matches`, matches the topic, each as
-- often as it stands in the trie.
pub matching-Perm :
    (topic : Bytes) (root : Node)
    → contains b'+' topic ≡ false
    → contains b'#' topic ≡ false
    → IsWf root
    → subscribers root ≡ []
    → Perm (matching topic root) (subscriptions_to topic root)
unfolding matching entries
matching-Perm topic (node cs ss) p h w r = rw r (
    matching_at (split topic) cs topic refl
      (IsConcrete-levels (split topic) (contains-split b'+' topic p) (contains-split b'#' topic h))
      w)
