-- ===== src/Server/Inbound/Trie.antt =====
-- What a subscription and its removal do to the trie of the shard.
use rusquitto.Base.{
  ◌≡◌, refl, sym, subst, inl, inr, true, false, Option, none, some, List, [], ◌∷◌, nat_eq, list_eq,
  option_eq, any, retain, arith, beq_refl, Bool-cases, Perm,
}
use rusquitto.Base.Text.{Bytes, split}
use rusquitto.Protocol.{valid_levels}
use rusquitto.Topics.Trie.{Node, SubOptions, insert, remove, subscription}
use rusquitto.Topics.Trie.View.{Entry, entries, IsWf}
use rusquitto.Topics.Trie.Remove.{hits, misses, entries-remove}
use rusquitto.Topics.Trie.Insert.{subscribed, entries-insert, insert-IsWf}
use rusquitto.Topics.Trie.History.{perm_retain}
use rusquitto.Broker.Messages.{Publish}
use rusquitto.Broker.Messages
use rusquitto.Broker.Shard.{ShardState, announce}
use rusquitto.Broker.Shard.Upkeep.{
  subscribe, unsubscribe, group_list, left_group, holds_shared_group,
}

announce-trie :
    (f : Bytes → rusquitto.Broker.Messages.SharedEvent) (gs : List Bytes) (st : ShardState)
    → (announce f gs st).trie ≡ st.trie
announce-trie f [] st = refl
announce-trie f (g ∷ gs) st = announce-trie f gs _

pub subscribe-trie :
    (filter c : Bytes) (o : SubOptions) (st : ShardState)
    → ((subscribe filter c o st).0.trie ≡ (insert filter c o st.trie).0)
      × ((subscribe filter c o st).1 ≡ (insert filter c o st.trie).1)
unfolding subscribe
subscribe-trie filter c o st = elim (Bool-cases (insert filter c o st.trie).1) [
  | inl e ↦ simp (subscribe, e) (announce-trie _ (group_list o.share_group) _, refl)
  | inr e ↦ simp (subscribe, e) (refl, refl)
]

left_group-trie :
    (c : Bytes) (g : Option Bytes) (st : ShardState) → (left_group c g st).trie ≡ st.trie
left_group-trie c none st = refl
left_group-trie c (some g) st = elim (Bool-cases (holds_shared_group c g st)) [
  | inl e ↦ rw e refl
  | inr e ↦ rw e (announce-trie (λ g. rusquitto.Broker.Messages.leave g c) (g ∷ []) st)
]

pub unsubscribe-trie :
    (filter c : Bytes) (g : Option Bytes) (st : ShardState)
    → (unsubscribe filter c g st).0.trie ≡ (remove filter c g st.trie).0
unfolding unsubscribe
unsubscribe-trie filter c g st = elim (Bool-cases (remove filter c g st.trie).1) [
  | inl e ↦ simp (unsubscribe, e) (left_group-trie c g _)
  | inr e ↦ simp (unsubscribe, e) refl
]

retain_misses :
    (p : List Bytes) (c : Bytes) (g : Option Bytes) (es : List Entry)
    → any (hits p c g) es ≡ false
    → retain (misses p c g) es ≡ es
retain_misses p c g [] h = refl
retain_misses p c g (e ∷ es) h = ground (arith, retain_misses p c g es)

-- A new subscription that is taken back leaves the entries of the trie as they were.
pub remove-insert :
    (filter c : Bytes) (o : SubOptions) (root : Node)
    → IsWf root
    → valid_levels (split filter) ≡ true
    → (insert filter c o root).1 ≡ true
    → Perm (entries (remove filter c o.share_group (insert filter c o root).0).0) (entries root)
remove-insert filter c o root w v new =
    let p = split filter in
    let g = o.share_group in
    let (perm, flag) = entries-insert filter c o root w in
    let fresh : any (hits p c g) (entries root) ≡ false = ground arith in
    let own : misses p c g (p, subscription c o) ≡ false =
      ground (arith, beq_refl p, beq_refl c, beq_refl g) in
    let (out, _) =
      entries-remove filter c g (insert filter c o root).0 (insert-IsWf filter c o root v w) in
    let same : retain (misses p c g) (subscribed p c o (entries root)) ≡ entries root =
      ground (arith, own, retain_misses p c g (entries root) fresh) in
    subst (λ es. Perm es (entries root)) (sym out)
      (subst (Perm (retain (misses p c g) (entries (insert filter c o root).0))) same
        (perm_retain (misses p c g) perm))
