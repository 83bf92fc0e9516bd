-- ===== src/Broker/Routing/Shared.antt =====
-- The choice of one member of a shared group that has members on several shards: all shards see
-- the same sorted list of members, so they make the same choice without talking to each other.
use rusquitto.Base.{
  ℕ, zero, suc, ◌%◌, ◌<◌, ◌≡◌, ◌≢◌, inl, inr, refl, sym, ◌∙◌, subst, ap, ap₂, Bool, true, false,
  none, some, List, [], ◌∷◌, ◌++◌, ◌==◌, nat_eq, list_eq, if◌then◌else◌, any, All, All-imp, length,
  arith, Bool-cases,
}
use mathlib.Core.List.{append-nil}
use rusquitto.Base.Text.{Bytes, bytes_eq}
use rusquitto.Broker.Messages.{Publish}
use rusquitto.Broker.Shard.{bytes_ltb, group_insert}
use rusquitto.Broker.Routing.{sort_ids, nth, shared_pick_index, choice, global_pick}

abbrev pub member : Bytes → List Bytes → Bool
member c = any (λ x. x == c)

bytes_ltb_irrefl : (a : Bytes) → bytes_ltb a a ≡ false
bytes_ltb_irrefl [] = refl
bytes_ltb_irrefl (x ∷ a) = ground (arith, bytes_ltb_irrefl a)

bytes_ltb_trans :
    (a b c : Bytes) → bytes_ltb a b ≡ true → bytes_ltb b c ≡ true → bytes_ltb a c ≡ true
bytes_ltb_trans [] [] c h k = absurd (ground arith)
bytes_ltb_trans [] (y ∷ b) [] h k = absurd (ground arith)
bytes_ltb_trans [] (y ∷ b) (z ∷ c) h k = refl
bytes_ltb_trans (x ∷ a) [] c h k = absurd (ground arith)
bytes_ltb_trans (x ∷ a) (y ∷ b) [] h k = absurd (ground arith)
bytes_ltb_trans (x ∷ a) (y ∷ b) (z ∷ c) h k = ground (arith, bytes_ltb_trans a b c)

bytes_ltb-connex : (a b : Bytes) → a ≢ b → bytes_ltb a b ≡ false → bytes_ltb b a ≡ true
bytes_ltb-connex [] [] n h = absurd (n refl)
bytes_ltb-connex [] (y ∷ b) n h = absurd (ground arith)
bytes_ltb-connex (x ∷ a) [] n h = refl
bytes_ltb-connex (x ∷ a) (y ∷ b) n h = elim (Bool-cases (x == y)) [
  | inl e ↦
      let same : x ≡ y = (nat_eq.beq_iff x y).0 e in
      ground (arith, same, bytes_ltb-connex a b (λ q. n (ground (arith, same, q))))
  | inr e ↦ ground arith
]

-- Strictly ascending.
abbrev IsAscending : List Bytes → Type 0
IsAscending [] = Unit
IsAscending (x ∷ xs) = All (λ y. bytes_ltb x y ≡ true) xs × IsAscending xs

group_insert-All :
    (P : Bytes → Type 0) (g : Bytes) (hs : List Bytes) → P g → All P hs → All P (group_insert g hs)
group_insert-All P g [] p a = (p, tt)
group_insert-All P g (h ∷ hs) p (q, a) = elim (Bool-cases (g == h)) [
  | inl e ↦ rw e (q, a)
  | inr e ↦ elim (Bool-cases (bytes_ltb g h)) [
    | inl l ↦ rw (e, l) (p, (q, a))
    | inr l ↦ rw (e, l) (q, group_insert-All P g hs p a)
  ]
]

group_insert-IsAscending :
    (g : Bytes) (hs : List Bytes) → IsAscending hs → IsAscending (group_insert g hs)
group_insert-IsAscending g [] w = (tt, tt)
group_insert-IsAscending g (h ∷ hs) (a, w) = elim (Bool-cases (g == h)) [
  | inl e ↦ rw e (a, w)
  | inr e ↦ elim (Bool-cases (bytes_ltb g h)) [
    | inl l ↦ rw (e, l) ((l, All-imp (λ y m. bytes_ltb_trans g h y l m) hs a), (a, w))
    | inr l ↦
        let above = bytes_ltb-connex g h (λ q. ground (arith, (bytes_eq.beq_iff g h).1 q)) l in
        rw (e, l)
          (
            group_insert-All (λ y. bytes_ltb h y ≡ true) g hs above a,
            group_insert-IsAscending g hs w,
          )
  ]
]

sort_ids-IsAscending : (xs : List Bytes) → IsAscending (sort_ids xs)
sort_ids-IsAscending [] = tt
sort_ids-IsAscending (x ∷ xs) = group_insert-IsAscending x (sort_ids xs) (sort_ids-IsAscending xs)

pub member-group_insert :
    (c g : Bytes) (hs : List Bytes)
    → member c (group_insert g hs) ≡ (if g == c then true else member c hs)
member-group_insert c g [] = refl
member-group_insert c g (h ∷ hs) = elim (Bool-cases (g == h)) [
  | inl e ↦
      let same : g ≡ h = (bytes_eq.beq_iff g h).0 e in
      let own : (g == c) ≡ (h == c) = ap (λ x. x == c) same in ground (arith, own)
  | inr e ↦ ground (arith, member-group_insert c g hs)
]

member-sort_ids : (c : Bytes) (xs : List Bytes) → member c (sort_ids xs) ≡ member c xs
member-sort_ids c [] = refl
member-sort_ids c (x ∷ xs) =
    ground (arith, member-group_insert c x (sort_ids xs), member-sort_ids c xs)

-- What is below an ascending list is not in it.
member-below :
    (x c : Bytes) (xs : List Bytes)
    → All (λ y. bytes_ltb x y ≡ true) xs
    → member c xs ≡ true
    → bytes_ltb x c ≡ true
member-below x c [] a h = absurd (ground arith)
member-below x c (y ∷ xs) (l, a) h = elim (Bool-cases (y == c)) [
  | inl e ↦ subst (λ y. bytes_ltb x y ≡ true) ((bytes_eq.beq_iff y c).0 e) l
  | inr e ↦ member-below x c xs a (ground arith)
]

not_member :
    (x : Bytes) (xs : List Bytes) → All (λ y. bytes_ltb x y ≡ true) xs → member x xs ≡ false
not_member x xs a = elim (Bool-cases (member x xs)) [
  | inr e ↦ e
  | inl e ↦ absurd (ground (arith, bytes_ltb_irrefl x, member-below x x xs a e))
]

-- Ascending lists with the same members are equal.
ascending-eq :
    (xs ys : List Bytes)
    → IsAscending xs
    → IsAscending ys
    → ((c : Bytes) → member c xs ≡ member c ys)
    → xs ≡ ys
ascending-eq [] [] v w h = refl
ascending-eq [] (y ∷ ys) v w h = absurd (ground (arith, h y, bytes_eq.beq_iff y y))
ascending-eq (x ∷ xs) [] v w h = absurd (ground (arith, h x, bytes_eq.beq_iff x x))
ascending-eq (x ∷ xs) (y ∷ ys) (a, v) (b, w) h = elim (Bool-cases (x == y)) [
  | inr e ↦
      let e' : (y == x) ≡ false = ground (arith, bytes_eq.beq_iff x y, bytes_eq.beq_iff y x) in
      let below = member-below y x ys b (ground (arith, h x, bytes_eq.beq_iff x x)) in
      let above = member-below x y xs a (ground (arith, h y, bytes_eq.beq_iff y y)) in
      absurd (ground (arith, bytes_ltb_trans x y x above below, bytes_ltb_irrefl x))
  | inl e ↦
      let same : x ≡ y = (bytes_eq.beq_iff x y).0 e in
      ap₂ ◌∷◌ same (
        ascending-eq xs ys v w (λ c. elim (Bool-cases (x == c)) [
          | inl q ↦
              let own : x ≡ c = (bytes_eq.beq_iff x c).0 q in
              let left = subst (λ z. member z xs ≡ false) own (not_member x xs a) in
              let right = subst (λ z. member z ys ≡ false) (sym same ∙ own) (not_member y ys b) in
              left ∙ sym right
          | inr q ↦
              let q' : (y == c) ≡ false = subst (λ z. (z == c) ≡ false) same q in
              ground (arith, h c)
        ]))
]

nth-some :
    (n : ℕ) (xs : List Bytes)
    → n < length xs
    → (x : Bytes) × (nth n xs ≡ some x) × (member x xs ≡ true)
nth-some n [] h = absurd (omega arith)
nth-some zero (x ∷ xs) h = (x, refl, ground (arith, bytes_eq.beq_iff x x))
nth-some (suc n) (x ∷ xs) h =
    let (y, e, m) = nth-some n xs (omega arith) in (y, e, ground (arith, m))

nonempty : (c : Bytes) (xs : List Bytes) → member c xs ≡ true → 0 < length xs
nonempty c [] h = absurd (ground arith)
nonempty c (x ∷ xs) h = omega arith

-- A shard's view of a group: its own connected members and those of the other shards.
abbrev pub View : Type 0
View = List Bytes × List Bytes

-- The members of the view are those of the group, on whichever shard.
abbrev pub Sees : List Bytes → View → Type 0
Sees members v = (c : Bytes) → member c (v.0 ++ v.1) ≡ member c members

module _ (hash : Bytes → Bytes → ℕ) where
  choice-eq :
      (p : Publish) (members : List Bytes) (v : View)
      → Sees members v
      → choice hash p v.0 v.1 ≡ choice hash p members []
  unfolding choice
  choice-eq p members v s =
      let same : sort_ids (v.0 ++ v.1) ≡ sort_ids (members ++ []) =
        ascending-eq (sort_ids (v.0 ++ v.1)) (sort_ids (members ++ []))
          (sort_ids-IsAscending (v.0 ++ v.1)) (sort_ids-IsAscending (members ++ []))
          (λ c.
            member-sort_ids c (v.0 ++ v.1)
            ∙ s c
            ∙ sym (ap (member c) (append-nil members))
            ∙ sym (member-sort_ids c (members ++ []))) in
      ap (λ l. nth (shared_pick_index hash p.topic p.payload (length l)) l) same

  choice-some :
      (p : Publish) (members : List Bytes) (c : Bytes)
      → member c members ≡ true
      → (x : Bytes) × (choice hash p members [] ≡ some x) × (member x members ≡ true)
  unfolding choice shared_pick_index
  choice-some p members c h =
      let all = sort_ids (members ++ []) in
      let there : member c all ≡ true =
        member-sort_ids c (members ++ []) ∙ ap (member c) (append-nil members) ∙ h in
      let index : hash p.topic p.payload % length all < length all =
        omega (arith, nonempty c all there) in
      let (x, e, m) = nth-some (hash p.topic p.payload % length all) all index in
      (x, e, sym (ap (member x) (append-nil members)) ∙ sym (member-sort_ids x (members ++ [])) ∙ m)

  picks :
      (p : Publish) (members : List Bytes) (x : Bytes) (views : List View)
      → choice hash p members [] ≡ some x
      → All (Sees members) views
      → All (λ v. global_pick hash p v.0 v.1 ≡ (if member x v.0 then some x else none)) views
  unfolding global_pick
  picks p members x [] e s = tt
  picks p members x (v ∷ views) e (s, ss) =
      (rw (global_pick, choice-eq p members v s ∙ e) refl, picks p members x views e ss)

  -- However many shards share a group, one member is chosen for all of them: if each shard sees
  -- the same members of the group, in whatever order and however divided into its own and the
  -- others', and there is one, then there is a member of the group that each shard delivers to if
  -- it is its own, while no shard delivers to another one.
  pub global_pick-agree :
      (p : Publish) (members : List Bytes) (c : Bytes) (views : List View)
      → member c members ≡ true
      → All (Sees members) views
      → (x : Bytes) × (member x members ≡ true)
        × All (λ v. global_pick hash p v.0 v.1 ≡ (if member x v.0 then some x else none)) views
  global_pick-agree p members c views h s =
      let (x, e, m) = choice-some p members c h in (x, m, picks p members x views e s)
