-- ===== src/Server/Inbound/Answers.antt =====
-- SUBSCRIBE: what is answered to a filter, and what it leaves in the trie.
use mathlib.Core.List.Perm
use rusquitto.Base.{
  ℕ, suc, ◌≤◌, ◌<◌, ◌≡◌, ◌⊎◌, refl, sym, ◌∙◌, ap, subst, inl, inr, zero, ◌+◌, if◌then◌else◌, not,
  Bool, true, false, ◌&&◌, Option, none, some, List, [], ◌∷◌, nat_eq, list_eq, option_eq, leb, ltb,
  any, retain, arith, Bool-cases, Option-cases, Perm,
}
use rusquitto.Base.Text.{Bytes, split}
use rusquitto.Protocol.{
  Qos, qos_num, min_qos, SubscribeReasonCode, sub_reason_code, parse_shared_filter,
  valid_subscribe_filter, valid_levels,
}
use rusquitto.Protocol
use rusquitto.Config.{qos_of_num, max_qos}
use rusquitto.Auth.{authorize_subscribe}
use rusquitto.Topics.Trie.{insert, remove}
use rusquitto.Topics.Trie.View.{Entry, entries, IsWf}
use rusquitto.Topics.Trie.Remove.{hits}
use rusquitto.Topics.Trie.Insert.{entries-insert}
use rusquitto.Broker.Messages.{Publish}
use rusquitto.Broker.Shard.Upkeep.{subscribe}
use rusquitto.Server.Inbound.Trie.{subscribe-trie, unsubscribe-trie, remove-insert}
use rusquitto.Server.Inbound.{
  SubscribeFilter, Surroundings, Here, admit, subscribe_filter, options_of, is_shared,
}

qos_num_le : (q : Qos) → qos_num q ≤ 2
qos_num_le Protocol.at_most_once = omega arith
qos_num_le Protocol.at_least_once = omega arith
qos_num_le Protocol.exactly_once = omega arith

min_qos-IsBounded :
    (a : Qos) (limit : ℕ)
    → (qos_num (min_qos a (qos_of_num limit)) ≤ qos_num a)
      × (qos_num (min_qos a (qos_of_num limit)) ≤ limit)
      × ((min_qos a (qos_of_num limit) ≡ a) ⊎ (qos_num (min_qos a (qos_of_num limit)) ≡ limit))
unfolding min_qos
min_qos-IsBounded a zero = elim (Bool-cases (leb (qos_num a) 0)) [
  | inl e ↦ rw (min_qos, e) (omega arith, ground arith, inl refl)
  | inr e ↦ rw (min_qos, e) (omega arith, omega arith, inr refl)
]
min_qos-IsBounded a (suc zero) = elim (Bool-cases (leb (qos_num a) 1)) [
  | inl e ↦ rw (min_qos, e) (omega arith, ground arith, inl refl)
  | inr e ↦ rw (min_qos, e) (ground arith, omega arith, inr refl)
]
min_qos-IsBounded a (suc (suc n)) =
    let top = qos_num_le a in
    let e : leb (qos_num a) 2 ≡ true = ground (arith, top) in
    rw (min_qos, e) (omega arith, omega (arith, top), inl refl)

-- The code that grants a QoS.
abbrev pub Grants : Qos → SubscribeReasonCode → Type 0
Grants Protocol.at_most_once code = code ≡ Protocol.qos0
Grants Protocol.at_least_once code = code ≡ Protocol.qos1
Grants Protocol.exactly_once code = code ≡ Protocol.qos2

sub_reason_code-Grants : (q : Qos) → Grants q (sub_reason_code q)
unfolding sub_reason_code
sub_reason_code-Grants Protocol.at_most_once = refl
sub_reason_code-Grants Protocol.at_least_once = refl
sub_reason_code-Grants Protocol.exactly_once = refl

module _ (env : Surroundings) where
  -- The filter parses, the client may subscribe to it, it is valid, and No Local is not asked for
  -- on a shared subscription.
  abbrev pub IsAllowed : Here env → SubscribeFilter → Bytes → Option Bytes → Type 0
  IsAllowed c f effective group =
      (parse_shared_filter f.path ≡ some (effective, group))
      × (authorize_subscribe env.crypto c.auth c.username effective ≡ true)
      × (valid_subscribe_filter effective ≡ true)
      × (f.nolocal ≡ true → group ≡ none)

  -- Whether the client is subscribed to the filter in the group.
  abbrev pub is_held : Here env → Bytes → Option Bytes → Bool
  is_held c effective group = any (hits (split effective) c.client_id group) (entries c.shard.trie)

  -- Why a filter is refused, with the code that says so.
  pub data Refusal (c : Here env) (f : SubscribeFilter) : SubscribeReasonCode → Type 0 where
    unparsed : parse_shared_filter f.path ≡ none → Refusal c f Protocol.topic_filter_invalid
    forbidden :
        (effective : Bytes) (group : Option Bytes)
        → parse_shared_filter f.path ≡ some (effective, group)
        → authorize_subscribe env.crypto c.auth c.username effective ≡ false
        → Refusal c f Protocol.not_authorized
    malformed :
        (effective : Bytes) (group : Option Bytes)
        → parse_shared_filter f.path ≡ some (effective, group)
        → authorize_subscribe env.crypto c.auth c.username effective ≡ true
        → valid_subscribe_filter effective ≡ false
        → Refusal c f Protocol.topic_filter_invalid
    local_group :
        (effective group : Bytes)
        → parse_shared_filter f.path ≡ some (effective, some group)
        → authorize_subscribe env.crypto c.auth c.username effective ≡ true
        → valid_subscribe_filter effective ≡ true
        → f.nolocal ≡ true
        → Refusal c f Protocol.topic_filter_invalid
    over_quota :
        (effective : Bytes) (group : Option Bytes)
        → IsAllowed c f effective group
        → is_held c effective group ≡ false
        → 0 < c.limits.max_subscriptions_per_client
        → c.limits.max_subscriptions_per_client ≤ c.subscription_count
        → Refusal c f Protocol.quota_exceeded

  -- What a refused filter leaves: the same subscriptions, and nothing to replay.
  abbrev pub IsRefused :
      SubscribeFilter → Here env → Here env × SubscribeReasonCode × List (Publish × Qos) → Type 0
  IsRefused f c (c', code, ms) =
      Refusal c f code
      × Perm (entries c'.shard.trie) (entries c.shard.trie)
      × (c'.subscription_count ≡ c.subscription_count)
      × (ms ≡ [])

  -- The entries after the subscription: it, and what was there but for the client's subscription to
  -- the same filter in the same group.
  abbrev pub with_entry :
      SubscribeFilter → Option ℕ → Qos → Bytes → Option Bytes → Bytes → List Entry → List Entry
  with_entry f sub_id q effective group client_id es =
      (
        split effective,
        record {
          client_id = client_id;
          qos = q;
          nolocal = f.nolocal;
          retain_as_published = f.preserve_retain;
          share_group = group;
          sub_id = sub_id;
        },
      )
      ∷ retain (λ e. not (hits (split effective) client_id group e)) es

  -- The QoS that is asked for, bounded by the broker's.
  abbrev pub IsQos : SubscribeFilter → ℕ → Qos → Type 0
  IsQos f limit q =
      (qos_num q ≤ qos_num f.qos) × (qos_num q ≤ limit) × ((q ≡ f.qos) ⊎ (qos_num q ≡ limit))

  -- What a granted filter is, and what it adds.
  abbrev pub IsGranted :
      SubscribeFilter
      → Option ℕ
      → Here env
      → Here env × SubscribeReasonCode × List (Publish × Qos)
      → Type 0
  IsGranted f sub_id c (c', code, ms) =
      (effective : Bytes) × (group : Option Bytes) × (q : Qos) × IsAllowed c f effective group
      × ((is_held c effective group ≡ true)
          ⊎ (c.limits.max_subscriptions_per_client ≡ 0)
          ⊎ (c.subscription_count < c.limits.max_subscriptions_per_client))
      × IsQos f c.limits.max_qos q
      × Grants q code
      × Perm (entries c'.shard.trie)
          (with_entry f sub_id q effective group c.client_id (entries c.shard.trie))
      × (c'.subscription_count
          ≡ (if is_held c effective group then c.subscription_count else c.subscription_count + 1))

  max_qos-IsQos :
      (f : SubscribeFilter) (c : Here env)
      → IsQos f c.limits.max_qos (min_qos f.qos (max_qos c.limits))
  unfolding max_qos
  max_qos-IsQos f c = min_qos-IsBounded f.qos c.limits.max_qos

  -- A subscription over the quota is taken back.
  admit-IsRefused :
      (sub_id : Option ℕ) (f : SubscribeFilter) (effective : Bytes) (group : Option Bytes)
      (c : Here env)
      → IsWf c.shard.trie
      → IsAllowed c f effective group
      → is_held c effective group ≡ false
      → 0 < c.limits.max_subscriptions_per_client
      → c.limits.max_subscriptions_per_client ≤ c.subscription_count
      → IsRefused f c (admit env sub_id f effective group c)
  unfolding admit valid_subscribe_filter
  admit-IsRefused sub_id f effective group c w (p, u, v, n) new some_limit full =
      let o = options_of env f (min_qos f.qos (max_qos c.limits)) group sub_id in
      let added = subscribe effective c.client_id o c.shard in
      let (trie, flag) = subscribe-trie effective c.client_id o c.shard in
      let limit = c.limits.max_subscriptions_per_client in
      let (perm, fresh) = entries-insert effective c.client_id o c.shard.trie w in
      let back : (insert effective c.client_id o c.shard.trie).1 ≡ true =
        ground (arith, fresh, new) in
      let over : (added.1 && ltb 0 limit && leb limit c.subscription_count) ≡ true =
        ground (arith, flag, back, some_limit, full) in
      let out = remove-insert effective c.client_id o c.shard.trie w (ground arith) back in
      let same =
        unsubscribe-trie effective c.client_id group added.0
        ∙ ap (λ t. (remove effective c.client_id group t).0) trie in
      simp (admit, over)
        (
          over_quota effective group (p, u, v, n) new some_limit full,
          subst (λ t. Perm (entries t) (entries c.shard.trie)) (sym same) out,
          refl,
          refl,
        )

  admit-IsGranted :
      (sub_id : Option ℕ) (f : SubscribeFilter) (effective : Bytes) (group : Option Bytes)
      (c : Here env)
      → IsWf c.shard.trie
      → IsAllowed c f effective group
      → (is_held c effective group ≡ true)
        ⊎ (c.limits.max_subscriptions_per_client ≡ 0)
        ⊎ (c.subscription_count < c.limits.max_subscriptions_per_client)
      → IsGranted f sub_id c (admit env sub_id f effective group c)
  unfolding admit
  admit-IsGranted sub_id f effective group c w allowed room =
      let q = min_qos f.qos (max_qos c.limits) in
      let o = options_of env f q group sub_id in
      let added = subscribe effective c.client_id o c.shard in
      let (trie, flag) = subscribe-trie effective c.client_id o c.shard in
      let limit = c.limits.max_subscriptions_per_client in
      let (perm, fresh) = entries-insert effective c.client_id o c.shard.trie w in
      let new : added.1 ≡ not (is_held c effective group) = flag ∙ fresh in
      let within : (added.1 && ltb 0 limit && leb limit c.subscription_count) ≡ false =
        ground (arith, new, room) in
      simp (admit, within)
        (
          effective,
          group,
          q,
          allowed,
          room,
          max_qos-IsQos f c,
          sub_reason_code-Grants q,
          subst
              (λ t.
                Perm (entries t)
                  (with_entry f sub_id q effective group c.client_id (entries c.shard.trie)))
              (sym trie) perm,
          ground (arith, new),
        )

  admit_lem :
      (sub_id : Option ℕ) (f : SubscribeFilter) (effective : Bytes) (group : Option Bytes)
      (c : Here env)
      → IsWf c.shard.trie
      → IsAllowed c f effective group
      → IsRefused f c (admit env sub_id f effective group c)
        ⊎ IsGranted f sub_id c (admit env sub_id f effective group c)
  admit_lem sub_id f effective group c w allowed =
      let limit = c.limits.max_subscriptions_per_client in
      elim (Bool-cases (is_held c effective group)) [
        | inl h ↦ inr (admit-IsGranted sub_id f effective group c w allowed (inl h))
        | inr h ↦ elim (Bool-cases (ltb 0 limit)) [
          | inr z ↦
              inr (admit-IsGranted sub_id f effective group c w allowed (inr (inl (ground arith))))
          | inl z ↦ elim (Bool-cases (leb limit c.subscription_count)) [
            | inr l ↦
                inr
                  (admit-IsGranted sub_id f effective group c w allowed (inr (inr (ground arith))))
            | inl l ↦ inl (
                admit-IsRefused sub_id f effective group c w allowed h (ground arith)
                  (ground arith))
          ]
        ]
      ]

  local_IsRefused :
      (f : SubscribeFilter) (c : Here env) (effective : Bytes) (group : Option Bytes)
      → parse_shared_filter f.path ≡ some (effective, group)
      → authorize_subscribe env.crypto c.auth c.username effective ≡ true
      → valid_subscribe_filter effective ≡ true
      → (is_shared env group && f.nolocal) ≡ true
      → Refusal c f Protocol.topic_filter_invalid
  local_IsRefused f c effective none p u v n = absurd (ground arith)
  local_IsRefused f c effective (some group) p u v n = local_group effective group p u v n

  plain_group :
      (group : Option Bytes) (b : Bool)
      → (is_shared env group && b) ≡ false
      → b ≡ true
      → group ≡ none
  plain_group none b n l = refl
  plain_group (some group) b n l = absurd (ground arith)

  -- What is answered to one filter of a SUBSCRIBE. Either it is refused, for one of five reasons,
  -- with the code of the reason: it does not parse; the client may not subscribe to it; it is not
  -- valid; No Local is asked for on a shared subscription; or it is a new subscription, and the
  -- client has the quota of them or more. Then the subscriptions in the trie are the same as before,
  -- the count is the same, and nothing is replayed. Or it is granted, where no reason holds: the
  -- code is the QoS that was asked for bounded by the broker's, the trie holds the subscription
  -- with that QoS and the options that were asked for, and what it held but for the one that it
  -- replaces, and a new one is counted. The trie is to be well formed.
  pub subscribe_filter_lem :
      (sub_id : Option ℕ) (f : SubscribeFilter) (c : Here env)
      → IsWf c.shard.trie
      → IsRefused f c (subscribe_filter env sub_id f c)
        ⊎ IsGranted f sub_id c (subscribe_filter env sub_id f c)
  unfolding subscribe_filter
  subscribe_filter_lem sub_id f c w = elim (Option-cases (parse_shared_filter f.path)) [
    | inl p ↦ simp (subscribe_filter, p) (inl (unparsed p, Perm.rfl, refl, refl))
    | inr ((effective, group), p) ↦
        let a = authorize_subscribe env.crypto c.auth c.username effective in
        elim (Bool-cases a) [
          | inr u ↦
              simp (subscribe_filter, p, u)
                (inl (forbidden effective group p u, Perm.rfl, refl, refl))
          | inl u ↦ elim (Bool-cases (valid_subscribe_filter effective)) [
            | inr v ↦
                simp (subscribe_filter, p, u, v)
                  (inl (malformed effective group p u v, Perm.rfl, refl, refl))
            | inl v ↦ elim (Bool-cases (is_shared env group && f.nolocal)) [
              | inl n ↦
                  simp (subscribe_filter, p, u, v, n)
                    (inl (local_IsRefused f c effective group p u v n, Perm.rfl, refl, refl))
              | inr n ↦
                  let same : subscribe_filter env sub_id f c
                      ≡ admit env sub_id f effective group c =
                    simp (subscribe_filter, p, u, v, n) refl in
                  subst (λ x. IsRefused f c x ⊎ IsGranted f sub_id c x) (sym same)
                    (admit_lem sub_id f effective group c w
                      (p, u, v, plain_group group f.nolocal n))
            ]
          ]
        ]
  ]
