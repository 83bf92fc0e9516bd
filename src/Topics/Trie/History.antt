-- ===== src/Topics/Trie/History.antt =====
-- src/broker/topics/trie.rs: what a history of subscriptions and removals leaves in the trie, and
-- what the trie then answers, stated over a plain list of entries.
use mathlib.Core.List.{Permᴰ, Perm-prop}
use mathlib.Core.List.Perm
use mathlib.Core.Logic.{∥∥₁_elim}
use rusquitto.Base.{
  Bool, true, false, ◌≡◌, refl, subst, ◌≢◌, ◌∙◌, Option, List, [], ◌∷◌, retain, All, Perm,
  Bool-cases, inl, inr,
}
use rusquitto.Base.Text.{Bytes, split, split-ne-nil, contains, join}
use rusquitto.Protocol.{valid_levels}
use rusquitto.Topics.Filter.{filter_matches}
use rusquitto.Topics.Trie.{
  SubOptions, Node, node, new_node, subscribers, insert, insert_rec, remove, remove_rec,
  remove_client_rec, matching,
}
use rusquitto.Topics.Trie.View.{Entry, entries, IsWf}
use rusquitto.Topics.Trie.Remove.{misses, entries-remove, remove-IsWf}
use rusquitto.Topics.Trie.Insert.{subscribed, entries-insert, insert-IsWf}
use rusquitto.Topics.Trie.Clients.{not_of, entries-remove_client, remove_client-IsWf}
use rusquitto.Topics.Trie.Select.{select}
use rusquitto.Topics.Trie.Matching.{matching-Perm}

-- The calls that change a trie.
pub data Call : Type 0 where
  inserts : Bytes → Bytes → SubOptions → Call
  removes : Bytes → Bytes → Option Bytes → Call
  leaves : Bytes → Call

unfoldable pub step : Call → Node → Node
step (inserts filter c o) root = (insert filter c o root).0
step (removes filter c g) root = (remove filter c g root).0
step (leaves c) root = remove_client_rec c root

unfoldable pub run : List Call → Node → Node
run [] root = root
run (x ∷ xs) root = run xs (step x root)

-- The same calls on a list of entries.
abbrev pub listed_step : Call → List Entry → List Entry
listed_step (inserts filter c o) es = subscribed (split filter) c o es
listed_step (removes filter c g) es = retain (misses (split filter) c g) es
listed_step (leaves c) es = retain (not_of c) es

abbrev pub listed : List Call → List Entry → List Entry
listed [] es = es
listed (x ∷ xs) es = listed xs (listed_step x es)

-- Filters are validated before they are inserted.
abbrev pub IsValid : Call → Type 0
IsValid (inserts filter c o) = valid_levels (split filter) ≡ true
IsValid (removes filter c g) = Unit
IsValid (leaves c) = Unit

-- The root holds no subscription itself, since every filter has a level.
pub record IsRoot (root : Node) : Type 0 where
  pub wf : IsWf root
  pub bare : subscribers root ≡ []

retain_swap {ℓ} :
    {A : Type ℓ} (p : A → Bool) (a b : A) (xs : List A)
    → Perm (retain p (a ∷ b ∷ xs)) (retain p (b ∷ a ∷ xs))
retain_swap p a b xs = elim (Bool-cases (p a)) [
  | inl t ↦ elim (Bool-cases (p b)) [
    | inl u ↦ rw (t, u) (Perm.swap b a _)
    | inr u ↦ rw (t, u) Perm.rfl
  ]
  | inr t ↦ elim (Bool-cases (p b)) [ inl u ↦ rw (t, u) Perm.rfl | inr u ↦ rw (t, u) Perm.rfl ]
]

perm_retainᴰ {ℓ} :
    {A : Type ℓ} (p : A → Bool) {xs ys : List A} → Permᴰ xs ys → Perm (retain p xs) (retain p ys)
perm_retainᴰ p Permᴰ.nil = Perm.nil
perm_retainᴰ p (Permᴰ.cons {a} {b} {l₁ = xs} {l₂ = ys} e q) =
    let ih = perm_retainᴰ p q in
    subst (λ b. Perm (retain p (a ∷ xs)) (retain p (b ∷ ys))) e
      (elim (Bool-cases (p a)) [ inl t ↦ rw t (Perm.cons a ih) | inr f ↦ rw f ih ])
perm_retainᴰ p (Permᴰ.swap {a} {b} {a'} {b'} {l = xs} e e') =
    subst (λ b'. Perm (retain p (a ∷ b ∷ xs)) (retain p (a' ∷ b' ∷ xs))) e
      (subst (λ a'. Perm (retain p (a ∷ b ∷ xs)) (retain p (a' ∷ a ∷ xs))) e'
        (retain_swap p a b xs))
perm_retainᴰ p (Permᴰ.trans q r) = Perm.trans (perm_retainᴰ p q) (perm_retainᴰ p r)

pub perm_retain {ℓ} :
    {A : Type ℓ} (p : A → Bool) {xs ys : List A} → Perm xs ys → Perm (retain p xs) (retain p ys)
perm_retain p {xs} {ys} h =
    ∥∥₁_elim h (Perm-prop {l₁ = retain p xs} {l₂ = retain p ys}) (perm_retainᴰ p)

bare-insert_rec :
    (p : List Bytes) (c : Bytes) (o : SubOptions) (n : Node)
    → p ≢ []
    → subscribers (insert_rec p c o n).0 ≡ subscribers n
unfolding insert_rec
bare-insert_rec [] c o n h = absurd (h refl)
bare-insert_rec (k ∷ p) c o (node cs ss) h = refl

bare-remove_rec :
    (p : List Bytes) (c : Bytes) (g : Option Bytes) (n : Node)
    → p ≢ []
    → subscribers (remove_rec p c g n).0 ≡ subscribers n
unfolding remove_rec
bare-remove_rec [] c g n h = absurd (h refl)
bare-remove_rec (k ∷ p) c g (node cs ss) h = refl

bare-remove_client :
    (c : Bytes) (n : Node) → subscribers n ≡ [] → subscribers (remove_client_rec c n) ≡ []
unfolding remove_client_rec
bare-remove_client c (node cs ss) h = rw h

-- Each call keeps the trie well formed.
pub step-IsRoot : (x : Call) (root : Node) → IsValid x → IsRoot root → IsRoot (step x root)
unfolding step
step-IsRoot (inserts filter c o) root v r = record {
  wf = insert-IsWf filter c o root v r.wf;
  bare = unfold insert in bare-insert_rec (split filter) c o root (split-ne-nil filter) ∙ r.bare;
}
step-IsRoot (removes filter c g) root v r = record {
  wf = remove-IsWf filter c g root r.wf;
  bare = unfold remove in bare-remove_rec (split filter) c g root (split-ne-nil filter) ∙ r.bare;
}
step-IsRoot (leaves c) root v r = record {
  wf = remove_client-IsWf c root r.wf;
  bare = bare-remove_client c root r.bare;
}

-- Each call does to the entries what it does to the list.
step-listed :
    (x : Call) (root : Node)
    → IsRoot root
    → Perm (entries (step x root)) (listed_step x (entries root))
unfolding step
step-listed (inserts filter c o) root r = (entries-insert filter c o root r.wf).0
step-listed (removes filter c g) root r = rw (entries-remove filter c g root r.wf).0 Perm.rfl
step-listed (leaves c) root r = rw (entries-remove_client c root) Perm.rfl

listed_step-perm :
    (x : Call) {xs ys : List Entry} → Perm xs ys → Perm (listed_step x xs) (listed_step x ys)
listed_step-perm (inserts filter c o) h =
    Perm.cons _ (perm_retain (misses (split filter) c o.share_group) h)
listed_step-perm (removes filter c g) h = perm_retain (misses (split filter) c g) h
listed_step-perm (leaves c) h = perm_retain (not_of c) h

listed-perm :
    (xs : List Call) {es fs : List Entry} → Perm es fs → Perm (listed xs es) (listed xs fs)
listed-perm [] h = h
listed-perm (x ∷ xs) h = listed-perm xs (listed_step-perm x h)

run-IsRoot : (xs : List Call) (root : Node) → All IsValid xs → IsRoot root → IsRoot (run xs root)
unfolding run
run-IsRoot [] root v r = r
run-IsRoot (x ∷ xs) root v r = run-IsRoot xs (step x root) v.1 (step-IsRoot x root v.0 r)

pub run-listed :
    (xs : List Call) (root : Node)
    → All IsValid xs
    → IsRoot root
    → Perm (entries (run xs root)) (listed xs (entries root))
unfolding run
run-listed [] root v r = Perm.rfl
run-listed (x ∷ xs) root v r =
    Perm.trans (run-listed xs (step x root) v.1 (step-IsRoot x root v.0 r))
      (listed-perm xs (step-listed x root r))

new_node-IsRoot : IsRoot new_node
new_node-IsRoot = record { wf = tt; bare = refl }

-- After any calls on an empty trie whose inserted filters have valid levels, the trie holds the
-- entries of the list that the same calls build, each as often.
pub entries-run :
    (xs : List Call) → All IsValid xs → Perm (entries (run xs new_node)) (listed xs [])
unfolding entries
entries-run xs v = run-listed xs new_node v new_node-IsRoot

-- After any calls on an empty trie whose inserted filters have valid levels, a search for a topic
-- without wildcard bytes returns the subscriptions whose filter, by `filter_matches`, matches the
-- topic, among those on the list that the same calls build, each as often.
pub matching-run :
    (xs : List Call) (topic : Bytes)
    → All IsValid xs
    → contains b'+' topic ≡ false
    → contains b'#' topic ≡ false
    → Perm
        (matching topic (run xs new_node))
        (select (λ q. filter_matches (join q) topic) (listed xs []))
matching-run xs topic v p h =
    let r = run-IsRoot xs new_node v new_node-IsRoot in
    Perm.trans (matching-Perm topic (run xs new_node) p h r.wf r.bare) (
      Perm.map (λ (e : Entry). e.1)
        (perm_retain (λ (e : Entry). filter_matches (join e.0) topic) (entries-run xs v)))
