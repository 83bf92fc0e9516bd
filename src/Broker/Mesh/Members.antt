-- ===== src/Broker/Mesh/Members.antt =====
-- The view that a shard keeps of the group members on the other shards.
use rusquitto.Base.{
  ◌≡◌, refl, ◌∙◌, ap, subst, inl, inr, Bool, true, false, ◌&&◌, none, some, List, [], ◌∷◌, ◌==◌,
  nat_eq, list_eq, if◌then◌else◌, is_empty, arith, Bool-cases, Option-cases,
}
use rusquitto.Base.Text.{Bytes, bytes_eq}
use rusquitto.Base.Assoc.{Assoc, get, insert, remove, get-insert, get-remove}
use rusquitto.Broker.Messages.{SharedEvent, join, leave}
use rusquitto.Broker.Shard.{ShardState, group_insert}
use rusquitto.Broker.Routing.Shared.{member, member-group_insert}
use rusquitto.Broker.Mesh.{members_or, without, apply_shared_event}

-- Whether the view has a client as a member of a group.
abbrev pub is_remote : Bytes → Bytes → ShardState → Bool
is_remote g c st = member c (members_or (get g st.shared_remote))

-- Whether an event is about this client in this group, and what it says.
abbrev pub says : Bytes → Bytes → SharedEvent → Bool → Bool
says g c (join h d) before = if h == g && d == c then true else before
says g c (leave h d) before = if h == g && d == c then false else before

abbrev pub last_said : Bytes → Bytes → List SharedEvent → Bool → Bool
last_said g c [] before = before
last_said g c (e ∷ es) before = last_said g c es (says g c e before)

unfoldable pub apply_all : List SharedEvent → ShardState → ShardState
apply_all [] st = st
apply_all (e ∷ es) st = apply_all es (apply_shared_event e st)

member-without :
    (d c : Bytes) (ids : List Bytes)
    → member c (without d ids) ≡ (if d == c then false else member c ids)
member-without d c [] = ground arith
member-without d c (x ∷ ids) = ground (
  arith,
  member-without d c ids,
  bytes_eq.beq_iff x d,
  bytes_eq.beq_iff x c,
  bytes_eq.beq_iff d c,
)

member_empty : (c : Bytes) (ids : List Bytes) → is_empty ids ≡ true → member c ids ≡ false
member_empty c [] h = refl
member_empty c (x ∷ ids) h = absurd (ground arith)

-- The table after the rest of a group is put back, or the group dropped with its last member.
left-member :
    (h g c : Bytes) (rest : List Bytes) (m : Assoc Bytes (List Bytes))
    → member c (members_or (get g (if is_empty rest then remove h m else insert h rest m)))
      ≡ (if h == g then member c rest else member c (members_or (get g m)))
left-member h g c rest m =
    let i = get-insert h g rest m in
    let r = get-remove h g m in
    elim (Bool-cases (is_empty rest)) [
      | inl z ↦ elim (Bool-cases (h == g)) [
        | inl b ↦ ground (arith, r, member_empty c rest z)
        | inr b ↦ ground (arith, r)
      ]
      | inr z ↦ elim (Bool-cases (h == g)) [ inl b ↦ ground (arith, i) | inr b ↦ ground (arith, i) ]
    ]

apply-says :
    (g c : Bytes) (e : SharedEvent) (st : ShardState)
    → is_remote g c (apply_shared_event e st) ≡ says g c e (is_remote g c st)
unfolding apply_shared_event
apply-says g c (join h d) st =
    let ids = members_or (get h st.shared_remote) in
    let i = get-insert h g (group_insert d ids) st.shared_remote in
    elim (Bool-cases (h == g)) [
      | inl b ↦
          let same : h ≡ g = (bytes_eq.beq_iff h g).0 b in
          let own : member c ids ≡ is_remote g c st = ap (λ h. is_remote h c st) same in
          let new : get g (insert h (group_insert d ids) st.shared_remote)
              ≡ some (group_insert d ids) =
            ground (arith, i) in
          ap (λ o. member c (members_or o)) new ∙ member-group_insert c d ids ∙ ground (arith, own)
      | inr b ↦
          let old : get g (insert h (group_insert d ids) st.shared_remote)
              ≡ get g st.shared_remote =
            ground (arith, i) in
          ap (λ o. member c (members_or o)) old ∙ ground arith
    ]
apply-says g c (leave h d) st = elim (Option-cases (get h st.shared_remote)) [
  | inl n ↦
      simp (apply_shared_event, n)
        (elim (Bool-cases (h == g)) [
          | inl b ↦
              let same : h ≡ g = (bytes_eq.beq_iff h g).0 b in
              let none_here : get g st.shared_remote ≡ none =
                subst (λ h. get h st.shared_remote ≡ none) same n in
              ground arith
          | inr b ↦ ground arith
        ])
  | inr (ids, n) ↦
      simp (apply_shared_event, n)
        (left-member h g c (without d ids) st.shared_remote ∙ elim (Bool-cases (h == g)) [
          | inl b ↦
              let same : h ≡ g = (bytes_eq.beq_iff h g).0 b in
              let here : get g st.shared_remote ≡ some ids =
                subst (λ h. get h st.shared_remote ≡ some ids) same n in
              ground (arith, member-without d c ids)
          | inr b ↦ ground arith
        ])
]

-- Whatever announcements of the other shards are folded in, in whatever order they come, a shard
-- sees a client as a remote member of a group exactly if the last announcement about that client
-- in that group was a join, or none came and it saw it before.
pub apply_all-last_said :
    (g c : Bytes) (es : List SharedEvent) (st : ShardState)
    → is_remote g c (apply_all es st) ≡ last_said g c es (is_remote g c st)
unfolding apply_all
apply_all-last_said g c [] st = refl
apply_all-last_said g c (e ∷ es) st =
    apply_all-last_said g c es (apply_shared_event e st)
    ∙ ap (last_said g c es) (apply-says g c e st)
