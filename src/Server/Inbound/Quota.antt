-- ===== src/Server/Inbound/Quota.antt =====
-- SUBSCRIBE: the quota.
use rusquitto.Base.{
  ℕ, suc, ◌≤◌, ◌<◌, ◌≡◌, refl, ap, inl, inr, ◌&&◌, Option, List, [], ◌∷◌, nat_eq, list_eq,
  option_eq, length, leb, ltb, arith, Bool-cases, Option-cases,
}
use rusquitto.Base.Text.{Bytes}
use rusquitto.Protocol.{min_qos, parse_shared_filter, valid_subscribe_filter}
use rusquitto.Config.{max_qos}
use rusquitto.Auth.{authorize_subscribe}
use rusquitto.Broker.Shard.Upkeep.{subscribe}
use rusquitto.Server.Inbound.{
  SubscribeFilter, Surroundings, Here, admit, subscribe_filter, subscribe_all, options_of,
  is_shared,
}

module _ (env : Surroundings) where
  -- The quota, where there is one, is not exceeded.
  abbrev pub IsCounted : Here env → Type 0
  IsCounted c =
      0 < c.limits.max_subscriptions_per_client
      → c.subscription_count ≤ c.limits.max_subscriptions_per_client

  admit-IsCounted :
      (sub_id : Option ℕ) (f : SubscribeFilter) (effective : Bytes) (group : Option Bytes)
      (c : Here env)
      → IsCounted c
      → IsCounted (admit env sub_id f effective group c).0
  unfolding admit
  admit-IsCounted sub_id f effective group c k =
      let o = options_of env f (min_qos f.qos (max_qos c.limits)) group sub_id in
      let added = subscribe effective c.client_id o c.shard in
      let limit = c.limits.max_subscriptions_per_client in
      elim (Bool-cases (added.1 && ltb 0 limit && leb limit c.subscription_count)) [
        | inl e ↦ simp (admit, e) k
        | inr e ↦ simp (admit, e) (λ h. ground (arith, k h))
      ]

  subscribe_filter-IsCounted :
      (sub_id : Option ℕ) (f : SubscribeFilter) (c : Here env)
      → IsCounted c
      → IsCounted (subscribe_filter env sub_id f c).0
  unfolding subscribe_filter
  subscribe_filter-IsCounted sub_id f c k = elim (Option-cases (parse_shared_filter f.path)) [
    | inl p ↦ simp (subscribe_filter, p) k
    | inr ((effective, group), p) ↦
        let a = authorize_subscribe env.crypto c.auth c.username effective in
        elim (Bool-cases a) [
          | inr u ↦ simp (subscribe_filter, p, u) k
          | inl u ↦ elim (Bool-cases (valid_subscribe_filter effective)) [
            | inr v ↦ simp (subscribe_filter, p, u, v) k
            | inl v ↦ elim (Bool-cases (is_shared env group && f.nolocal)) [
              | inl n ↦ simp (subscribe_filter, p, u, v, n) k
              | inr n ↦
                  simp (subscribe_filter, p, u, v, n) (admit-IsCounted sub_id f effective group c k)
            ]
          ]
        ]
  ]

  -- A SUBSCRIBE is answered with one code for each of its filters, and never takes the count of
  -- the client's subscriptions above the quota, if there is one and the count is not above it.
  pub subscribe_all-IsCounted :
      (sub_id : Option ℕ) (fs : List SubscribeFilter) (c : Here env)
      → IsCounted c
      → (length (subscribe_all env sub_id fs c).1 ≡ length fs)
        × IsCounted (subscribe_all env sub_id fs c).0
  unfolding subscribe_all
  subscribe_all-IsCounted sub_id [] c k = (refl, k)
  subscribe_all-IsCounted sub_id (f ∷ fs) c k =
      let (codes, rest) =
        subscribe_all-IsCounted sub_id fs (subscribe_filter env sub_id f c).0
          (subscribe_filter-IsCounted sub_id f c k) in
      (ap suc codes, rest)
