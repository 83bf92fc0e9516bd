-- ===== src/Broker/Routing/Best.antt =====
-- The best match of a client, stated apart from the order in which its subscriptions are merged.
use mathlib.Core.List.{append_assoc, append-nil}
use rusquitto.Base.{
  ℕ, ◌≤◌, ◌≡◌, ◌⊎◌, inl, inr, refl, subst, ap, ◌∙◌, Bool, true, false, Option, none, some, List, [],
  ◌∷◌, ◌++◌, ◌==◌, nat_eq, list_eq, any, All, All-append, All-imp, any-append, arith, Bool-cases,
  ltb, retain,
}
use rusquitto.Base.Text.{Bytes}
use rusquitto.Base.Assoc.{get}
use rusquitto.Protocol.{qos_num}
use rusquitto.Topics.Trie.{Subscription, matching}
use rusquitto.Broker.Messages.{Publish}
use rusquitto.Broker.Shard.{ShardState}
use rusquitto.Broker.Routing.{Match, entry_or, raised, with_id, merge, route}
use rusquitto.Broker.Routing.Fanout.{best_for, mine, theirs, copy, route-get}

-- Some element has the property.
abbrev pub Some : {A : Type 0} → (A → Type 0) → List A → Type 0
Some P [] = ⊥
Some P (x ∷ xs) = P x ⊎ Some P xs

Some-append_left : {A : Type 0} (P : A → Type 0) (xs ys : List A) → Some P xs → Some P (xs ++ ys)
Some-append_left P [] ys h = absurd h
Some-append_left P (x ∷ xs) ys (inl h) = inl h
Some-append_left P (x ∷ xs) ys (inr h) = inr (Some-append_left P xs ys h)

Some-append_last : {A : Type 0} (P : A → Type 0) (xs : List A) (y : A) → P y → Some P (xs ++ y ∷ [])
Some-append_last P [] y h = inl h
Some-append_last P (x ∷ xs) y h = inr (Some-append_last P xs y h)

abbrev pub has_id : ℕ → Subscription → Bool
has_id id s = elim s.sub_id [ none ↦ false | some i ↦ i == id ]

-- The options of the match are those of one of the subscriptions.
abbrev pub Supplies : Match → Subscription → Type 0
Supplies m s =
    (s.qos ≡ m.qos) × (s.nolocal ≡ m.nolocal) × (s.retain_as_published ≡ m.retain_as_published)

-- The match has the highest QoS of the subscriptions, the options of a subscription, and the
-- identifiers of all of them.
pub record Best (ss : List Subscription) (m : Match) : Type 0 where
  pub highest : All (λ s. qos_num s.qos ≤ qos_num m.qos) ss
  pub supplied : Some (Supplies m) ss
  pub ids : (id : ℕ) → any (λ x. x == id) m.sub_ids ≡ any (has_id id) ss

-- The identifier of one more subscription is added unless it is there.
Best-with_id :
    (ss : List Subscription) (s : Subscription) (m : Match) (o : Option ℕ)
    → s.sub_id ≡ o
    → All (λ s. qos_num s.qos ≤ qos_num m.qos) (ss ++ s ∷ [])
    → Some (Supplies m) (ss ++ s ∷ [])
    → ((id : ℕ) → any (λ x. x == id) m.sub_ids ≡ any (has_id id) ss)
    → Best (ss ++ s ∷ []) (with_id o m)
Best-with_id ss s m none e h u ids = record {
  highest = h;
  supplied = u;
  ids = λ id. ground (arith, e, ids id, any-append (has_id id) ss (s ∷ []));
}
Best-with_id ss s m (some i) e h u ids = elim (Bool-cases (any (λ x. x == i) m.sub_ids)) [
  | inl a ↦
      rw (with_id, a)
        (record {
          highest = h;
          supplied = u;
          ids = λ id. ground (
            arith,
            e,
            ids id,
            any-append (has_id id) ss (s ∷ []),
            nat_eq.beq_iff i id,
            λ (q : i ≡ id). subst (λ y. any (λ x. x == y) m.sub_ids ≡ true) q a,
          );
        })
  | inr a ↦
      rw (with_id, a)
        (record {
          highest = h;
          supplied = u;
          ids = λ id. ground (
            arith,
            e,
            ids id,
            any-append (has_id id) ss (s ∷ []),
            any-append (λ x. x == id) m.sub_ids (i ∷ []),
          );
        })
]

Best-first : (s : Subscription) → Best (s ∷ []) (merge s none)
unfolding merge
Best-first s =
    let m = entry_or s none in
    simp (raised, ltb_self (qos_num s.qos))
      (Best-with_id [] s m s.sub_id refl (omega arith, tt) (inl (refl, refl, refl)) (λ id. refl))
  where
    ltb_self : (n : ℕ) → ltb n n ≡ false
    ltb_self n = ground arith

Best-merge :
    (ss : List Subscription) (s : Subscription) (m : Match)
    → Best ss m
    → Best (ss ++ s ∷ []) (merge s (some m))
unfolding merge
Best-merge ss s m b = elim (Bool-cases (ltb (qos_num m.qos) (qos_num s.qos))) [
  | inl e ↦
      let n = record m {
        qos = s.qos;
        nolocal = s.nolocal;
        retain_as_published = s.retain_as_published;
      } in
      simp (raised, e)
        (Best-with_id ss s n s.sub_id refl
          (All-append (λ t. qos_num t.qos ≤ qos_num s.qos) ss (s ∷ [])
            (All-imp (λ t h. ground arith) ss b.highest) (omega arith, tt))
          (Some-append_last (Supplies n) ss s (refl, refl, refl)) b.ids)
  | inr e ↦
      simp (raised, e)
        (Best-with_id ss s m s.sub_id refl
          (All-append (λ t. qos_num t.qos ≤ qos_num m.qos) ss (s ∷ []) b.highest (ground arith, tt))
          (Some-append_left (Supplies m) ss (s ∷ []) b.supplied) b.ids)
]

best_for-Best :
    (xs ss : List Subscription) (m : Match)
    → Best xs m
    → (n : Match) × (best_for ss (some m) ≡ some n) × Best (xs ++ ss) n
best_for-Best xs [] m b = (m, refl, rw append-nil b)
best_for-Best xs (s ∷ ss) m b =
    let (n, e, b') = best_for-Best (xs ++ s ∷ []) ss (merge s (some m)) (Best-merge xs s m b) in
    (n, e, subst (λ l. Best l n) (append_assoc xs (s ∷ []) ss) b')

best_for_lem :
    (s : Subscription) (ss : List Subscription)
    → (n : Match) × (best_for (s ∷ ss) none ≡ some n) × Best (s ∷ ss) n
best_for_lem s ss = best_for-Best (s ∷ []) ss (merge s none) (Best-first s)

module _ (hash : Bytes → Bytes → ℕ) where
  -- The session of a client whose matching subscriptions are ordinary, by its best match.
  pub route-copy :
      (p : Publish) (publisher : Option Bytes) (r : Bool) (st : ShardState) (c : Bytes)
      (s : Subscription) (ss : List Subscription)
      → any (theirs c) (matching p.topic st.trie) ≡ false
      → retain (mine c) (matching p.topic st.trie) ≡ s ∷ ss
      → (m : Match) × Best (s ∷ ss) m
        × (get c (route hash p publisher r st).sessions
            ≡ copy p publisher r c (some m) (get c st.sessions))
  route-copy p publisher r st c s ss h e =
      let (m, q, b) = best_for_lem s ss in
      (
        m,
        b,
        route-get hash p publisher r st c h
            ∙ ap (λ o. copy p publisher r c o (get c st.sessions))
                (ap (λ l. best_for l none) e ∙ q),
      )
