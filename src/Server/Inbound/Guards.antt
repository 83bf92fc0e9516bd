-- ===== src/Server/Inbound/Guards.antt =====
-- PUBLISH: what a publish that is not permitted leaves, and the bound on the messages held.
use rusquitto.Base.{
  ℕ, ◌≤◌, ◌≡◌, refl, sym, ◌∙◌, ap, subst, inl, inr, Bool, true, false, not, ◌&&◌, ◌||◌, Option,
  none, some, ◌==◌, nat_eq, list_eq, if◌then◌else◌, length, leb, ltb, is_empty, arith, Bool-cases,
  Option-cases,
}
use rusquitto.Base.Text.{Bytes}
use rusquitto.Base.Assoc.{get, insert, contains_key, length-insert, length-remove_le}
use rusquitto.Protocol.{Qos, at_most_once, at_least_once, exactly_once, valid_publish_topic}
use rusquitto.Auth.{authorize_publish}
use rusquitto.Broker.Messages.{Publish}
use rusquitto.Server.Inbound.{
  Packet, Fault, DisconnectReason, Outcome, ok, err, and_then, disconnect, Surroundings, Here,
  alias_of, inbound_topic_alias_max, send, fail_with, reject_publish, accept_publish, publish_by,
  publish_aliased, publish_named, handle_publish, handle_pubrel, commit, fan_out,
}
use rusquitto.Server.Inbound.Exactly.{send-conn}

module _ (env : Surroundings) where
  -- The topic that a publish names, by its alias if it has one.
  abbrev pub named_topic : Option ℕ → Publish → Here env → Option Bytes
  named_topic none p c = some p.topic
  named_topic (some alias) p c =
      if alias == 0 || ltb inbound_topic_alias_max alias
      then none
      else if is_empty p.topic
      then get alias c.inbound_aliases
      else some p.topic

  abbrev pub may_publish : Here env → Option Bytes → Bool
  may_publish c none = false
  may_publish c (some topic) =
      valid_publish_topic topic && authorize_publish env.crypto c.auth c.username topic

  abbrev pub is_permitted : Publish → Here env → Bool
  is_permitted p c = may_publish c (named_topic (alias_of p.properties) p c)

  -- Nothing is routed, forwarded or held.
  abbrev pub IsUntouched : Here env → Here env → Type 0
  IsUntouched c c' =
      (c'.shard ≡ c.shard) × (c'.forwarded ≡ c.forwarded) × (c'.incoming_qos2 ≡ c.incoming_qos2)

  send-IsUntouched : (packet : Packet) (c : Here env) → IsUntouched c (send env packet c).0
  send-IsUntouched packet c =
      let e = send-conn env packet c in
      (ap (λ c. c.shard) e, ap (λ c. c.forwarded) e, ap (λ c. c.incoming_qos2) e)

  and_then-IsUntouched :
      (c : Here env) (x : Here env × Outcome) (fault : Fault)
      → IsUntouched c x.0
      → IsUntouched c (and_then x (λ c. (c, err fault))).0
  and_then-IsUntouched c (c', ok) fault h = h
  and_then-IsUntouched c (c', err e) fault h = h

  fail_with-IsUntouched :
      (reason : DisconnectReason) (fault : Fault) (c : Here env)
      → IsUntouched c (fail_with env reason fault c).0
  fail_with-IsUntouched reason fault c =
      and_then-IsUntouched c (send env (disconnect reason) c) fault
        (send-IsUntouched (disconnect reason) c)

  reject_publish-IsUntouched :
      (pkid : ℕ) (q : Qos) (c : Here env) → IsUntouched c (reject_publish env pkid q c).0
  unfolding reject_publish
  reject_publish-IsUntouched pkid at_most_once c = (refl, refl, refl)
  reject_publish-IsUntouched pkid at_least_once c = send-IsUntouched _ c
  reject_publish-IsUntouched pkid exactly_once c = send-IsUntouched _ c

  publish_named-IsUntouched :
      (p : Publish) (c : Here env)
      → may_publish c (some p.topic) ≡ false
      → IsUntouched c (publish_named env p c).0
  unfolding publish_named
  publish_named-IsUntouched p c h = elim (Bool-cases (valid_publish_topic p.topic)) [
    | inr v ↦ simp (publish_named, v) (fail_with-IsUntouched _ _ c)
    | inl v ↦
        let u : authorize_publish env.crypto c.auth c.username p.topic ≡ false = ground arith in
        simp (publish_named, v, u) (reject_publish-IsUntouched p.pkid p.qos c)
  ]

  topic_given :
      (alias : ℕ) (p : Publish) (c : Here env)
      → (alias == 0 || ltb inbound_topic_alias_max alias) ≡ false
      → is_empty p.topic ≡ false
      → named_topic (some alias) p c ≡ some p.topic
  topic_given alias p c r e = simp (named_topic, r, e) refl

  topic_known :
      (alias : ℕ) (p : Publish) (c : Here env)
      → (alias == 0 || ltb inbound_topic_alias_max alias) ≡ false
      → is_empty p.topic ≡ true
      → named_topic (some alias) p c ≡ get alias c.inbound_aliases
  topic_known alias p c r e = simp (named_topic, r, e) refl

  publish_by-IsUntouched :
      (o : Option ℕ) (p : Publish) (c : Here env)
      → may_publish c (named_topic o p c) ≡ false
      → IsUntouched c (publish_by env o p c).0
  unfolding publish_aliased
  publish_by-IsUntouched none p c h = publish_named-IsUntouched p c h
  publish_by-IsUntouched (some alias) p c h =
      elim (Bool-cases (alias == 0 || ltb inbound_topic_alias_max alias)) [
        | inl r ↦ simp (publish_aliased, r) (fail_with-IsUntouched _ _ c)
        | inr r ↦ elim (Bool-cases (is_empty p.topic)) [
          | inr e ↦
              simp (publish_aliased, r, e)
                (publish_named-IsUntouched p
                  (record c { inbound_aliases = insert alias p.topic c.inbound_aliases })
                  (subst (λ o. may_publish c o ≡ false) (topic_given alias p c r e) h))
          | inl e ↦ elim (Option-cases (get alias c.inbound_aliases)) [
            | inl g ↦ simp (publish_aliased, r, e, g) (fail_with-IsUntouched _ _ c)
            | inr (topic, g) ↦
                simp (publish_aliased, r, e, g)
                  (publish_named-IsUntouched (record p { topic = topic }) c
                    (subst (λ o. may_publish c o ≡ false) (topic_known alias p c r e ∙ g) h))
          ]
        ]
      ]

  -- A publish that is not permitted is not routed, not forwarded to a peer, and not held: one whose
  -- alias is out of range or unknown, whose topic is not valid, or whose topic, by the alias if it
  -- has one, its client may not publish to.
  pub handle_publish-IsUntouched :
      (p : Publish) (c : Here env)
      → is_permitted p c ≡ false
      → IsUntouched c (handle_publish env p c).0
  unfolding handle_publish
  handle_publish-IsUntouched p c h = publish_by-IsUntouched (alias_of p.properties) p c h

  -- No more messages are held than the inbound quota.
  abbrev pub IsHeldWithin : Here env → Type 0
  IsHeldWithin c = length c.incoming_qos2 ≤ c.limits.max_inflight

  send-IsHeldWithin :
      (packet : Packet) (c : Here env) → IsHeldWithin c → IsHeldWithin (send env packet c).0
  send-IsHeldWithin packet c h = subst IsHeldWithin (sym (send-conn env packet c)) h

  fail_with-IsHeldWithin :
      (reason : DisconnectReason) (fault : Fault) (c : Here env)
      → IsHeldWithin c
      → IsHeldWithin (fail_with env reason fault c).0
  fail_with-IsHeldWithin reason fault c h =
      kept (send env (disconnect reason) c) fault (send-IsHeldWithin (disconnect reason) c h)
    where
      kept :
          (x : Here env × Outcome) (fault : Fault)
          → IsHeldWithin x.0
          → IsHeldWithin (and_then x (λ c. (c, err fault))).0
      kept (c, ok) fault h = h
      kept (c, err e) fault h = h

  accept_publish-IsHeldWithin :
      (pkid : ℕ) (p : Publish) (q : Qos) (c : Here env)
      → IsHeldWithin c
      → IsHeldWithin (accept_publish env pkid p q c).0
  unfolding accept_publish fan_out
  accept_publish-IsHeldWithin pkid p at_most_once c h = h
  accept_publish-IsHeldWithin pkid p at_least_once c h =
      send-IsHeldWithin _ (fan_out env p (some c.client_id) c) h
  accept_publish-IsHeldWithin pkid p exactly_once c h =
      elim (Bool-cases (
        not (contains_key pkid c.incoming_qos2)
        && leb c.limits.max_inflight (length c.incoming_qos2))) [
          | inl r ↦ simp (accept_publish, r) (fail_with-IsHeldWithin _ _ c h)
          | inr r ↦
              simp (accept_publish, r)
                (send-IsHeldWithin _ (record c { incoming_qos2 = insert pkid p c.incoming_qos2 })
                  (ground (arith, length-insert pkid p c.incoming_qos2)))
        ]

  reject_publish-IsHeldWithin :
      (pkid : ℕ) (q : Qos) (c : Here env)
      → IsHeldWithin c
      → IsHeldWithin (reject_publish env pkid q c).0
  unfolding reject_publish
  reject_publish-IsHeldWithin pkid at_most_once c h = h
  reject_publish-IsHeldWithin pkid at_least_once c h = send-IsHeldWithin _ c h
  reject_publish-IsHeldWithin pkid exactly_once c h = send-IsHeldWithin _ c h

  publish_named-IsHeldWithin :
      (p : Publish) (c : Here env) → IsHeldWithin c → IsHeldWithin (publish_named env p c).0
  unfolding publish_named
  publish_named-IsHeldWithin p c h = elim (Bool-cases (valid_publish_topic p.topic)) [
    | inr v ↦ simp (publish_named, v) (fail_with-IsHeldWithin _ _ c h)
    | inl v ↦ elim (Bool-cases (authorize_publish env.crypto c.auth c.username p.topic)) [
      | inl u ↦ simp (publish_named, v, u) (accept_publish-IsHeldWithin p.pkid _ p.qos c h)
      | inr u ↦ simp (publish_named, v, u) (reject_publish-IsHeldWithin p.pkid p.qos c h)
    ]
  ]

  publish_by-IsHeldWithin :
      (o : Option ℕ) (p : Publish) (c : Here env)
      → IsHeldWithin c
      → IsHeldWithin (publish_by env o p c).0
  unfolding publish_aliased
  publish_by-IsHeldWithin none p c h = publish_named-IsHeldWithin p c h
  publish_by-IsHeldWithin (some alias) p c h =
      elim (Bool-cases (alias == 0 || ltb inbound_topic_alias_max alias)) [
        | inl r ↦ simp (publish_aliased, r) (fail_with-IsHeldWithin _ _ c h)
        | inr r ↦ elim (Bool-cases (is_empty p.topic)) [
          | inr e ↦
              simp (publish_aliased, r, e)
                (publish_named-IsHeldWithin p
                  (record c { inbound_aliases = insert alias p.topic c.inbound_aliases }) h)
          | inl e ↦ elim (Option-cases (get alias c.inbound_aliases)) [
            | inl g ↦ simp (publish_aliased, r, e, g) (fail_with-IsHeldWithin _ _ c h)
            | inr (topic, g) ↦
                simp (publish_aliased, r, e, g)
                  (publish_named-IsHeldWithin (record p { topic = topic }) c h)
          ]
        ]
      ]

  -- Whatever a client publishes or releases, the connection never holds more unreleased QoS 2
  -- messages than the quota that it advertises, if it does not hold more before.
  pub handle_publish-IsHeldWithin :
      (p : Publish) (pkid : ℕ) (c : Here env)
      → IsHeldWithin c
      → IsHeldWithin (handle_publish env p c).0 × IsHeldWithin (handle_pubrel env pkid c).0
  unfolding handle_publish handle_pubrel fan_out
  handle_publish-IsHeldWithin p pkid c h = (
    publish_by-IsHeldWithin (alias_of p.properties) p c h,
    send-IsHeldWithin _ (commit env pkid (get pkid c.incoming_qos2) c)
        (committed (get pkid c.incoming_qos2) c h),
  )
    where
      committed :
          (o : Option Publish) (c : Here env) → IsHeldWithin c → IsHeldWithin (commit env pkid o c)
      committed none c h = h
      committed (some q) c h = omega (arith, h, length-remove_le pkid c.incoming_qos2)
