-- ===== src/Server/Inbound/Exactly.antt =====
-- The receiver's side of QoS 2: a message is handed on once, however often it is sent and released.
use rusquitto.Base.{
  ℕ, zero, suc, ◌≡◌, refl, sym, ◌∙◌, ap, ap₂, subst, inl, inr, true, false, not, ◌&&◌, none, some,
  ◌++◌, nat_eq, list_eq, length, leb, arith, Option-cases,
}
use rusquitto.Base.Assoc.{get, insert, remove, contains_key, get-insert_self, get-remove_self}
use rusquitto.Protocol.{exactly_once, valid_publish_topic}
use rusquitto.Auth.{authorize_publish}
use rusquitto.Broker.Messages.{Publish}
use rusquitto.Broker.Routing.{deliver_local}
use rusquitto.Broker.Mesh.{broadcast}
use rusquitto.Server.Inbound.{
  Packet, pub_rec, pub_comp, Surroundings, Here, alias_of, send, fan_out, publish_by, commit,
  accept_publish, publish_named, handle_publish, handle_pubrel,
}

-- Some steps of the same kind.
abbrev pub times : {A : Type 0} → ℕ → (A → A) → A → A
times zero f a = a
times (suc n) f a = times n f (f a)

module _ (env : Surroundings) where
  -- Sending changes nothing but the outbound side.
  pub send-conn :
      (packet : Packet) (c : Here env)
      → (send env packet c).0 ≡ record c { conn = (send env packet c).0.conn }
  unfolding send
  send-conn packet c = elim (Option-cases (env.encode packet)) [
    | inl e ↦ simp (send, e) refl
    | inr (b, e) ↦ simp (send, e) refl
  ]

  abbrev pub sends : Publish → Here env → Here env
  sends p c = (handle_publish env p c).0

  abbrev pub releases : ℕ → Here env → Here env
  releases pkid c = (handle_pubrel env pkid c).0

  -- What is stored for the publish, and handed on.
  abbrev pub stored : Publish → Publish
  stored p = record p { pkid = 0; dup = false }

  -- A QoS 2 publish without an alias that passes the tests on its topic.
  abbrev pub IsSound : Publish → Here env → Type 0
  IsSound p c =
      (p.qos ≡ exactly_once)
      × (alias_of p.properties ≡ none)
      × (valid_publish_topic p.topic ≡ true)
      × (authorize_publish env.crypto c.auth c.username p.topic ≡ true)

  abbrev pub HasRoom : ℕ → Here env → Type 0
  HasRoom pkid c =
      (not (contains_key pkid c.incoming_qos2)
        && leb c.limits.max_inflight (length c.incoming_qos2))
      ≡ false

  publish_named-eq :
      (p : Publish) (c : Here env)
      → valid_publish_topic p.topic ≡ true
      → authorize_publish env.crypto c.auth c.username p.topic ≡ true
      → (publish_named env p c).0 ≡ (accept_publish env p.pkid (stored p) p.qos c).0
  unfolding publish_named
  publish_named-eq p c v u = simp (publish_named, v, u) refl

  accept_publish-eq :
      (pkid : ℕ) (p : Publish) (c : Here env)
      → HasRoom pkid c
      → (accept_publish env pkid p exactly_once c).0
        ≡ (send env
            (pub_rec pkid true)
            (record c { incoming_qos2 = insert pkid p c.incoming_qos2 })).0
  unfolding accept_publish
  accept_publish-eq pkid p c r = simp (accept_publish, r) refl

  sends-eq :
      (p : Publish) (c : Here env)
      → IsSound p c
      → HasRoom p.pkid c
      → sends p c
        ≡ (send env
            (pub_rec p.pkid true)
            (record c { incoming_qos2 = insert p.pkid (stored p) c.incoming_qos2 })).0
  unfolding handle_publish
  sends-eq p c (q, a, v, u) r =
      ap (λ o. (publish_by env o p c).0) a
      ∙ publish_named-eq p c v u
      ∙ ap (λ k. (accept_publish env p.pkid (stored p) k c).0) q
      ∙ accept_publish-eq p.pkid (stored p) c r

  -- The connection holds the message, and is otherwise as it was.
  record Holds (p : Publish) (c0 c : Here env) : Type 0 where
    pub shard : c.shard ≡ c0.shard
    pub forwarded : c.forwarded ≡ c0.forwarded
    pub client_id : c.client_id ≡ c0.client_id
    pub sound : IsSound p c
    pub held : get p.pkid c.incoming_qos2 ≡ some (stored p)

  sends-Holds :
      (p : Publish) (c0 c : Here env)
      → c.shard ≡ c0.shard
      → c.forwarded ≡ c0.forwarded
      → c.client_id ≡ c0.client_id
      → IsSound p c
      → HasRoom p.pkid c
      → Holds p c0 (sends p c)
  sends-Holds p c0 c s f i u r =
      let c1 = record c { incoming_qos2 = insert p.pkid (stored p) c.incoming_qos2 } in
      let e = sends-eq p c u r ∙ send-conn (pub_rec p.pkid true) c1 in
      subst (Holds p c0) (sym e) (record {
        shard = s;
        forwarded = f;
        client_id = i;
        sound = u;
        held = get-insert_self p.pkid (stored p) c.incoming_qos2;
      })

  times-Holds :
      (n : ℕ) (p : Publish) (c0 c : Here env) → Holds p c0 c → Holds p c0 (times n (sends p) c)
  times-Holds zero p c0 c h = h
  times-Holds (suc n) p c0 c h =
      times-Holds n p c0 (sends p c)
        (sends-Holds p c0 c h.shard h.forwarded h.client_id h.sound (ground (arith, h.held)))

  -- The message is handed on, and no longer held.
  record IsDone (p : Publish) (c0 c : Here env) : Type 0 where
    pub shard : c.shard ≡ deliver_local env.hash (stored p) (some c0.client_id) c0.shard
    pub forwarded : c.forwarded ≡ c0.forwarded ++ broadcast env.peers (stored p)
    pub gone : get p.pkid c.incoming_qos2 ≡ none

  releases-IsDone : (p : Publish) (c0 c : Here env) → Holds p c0 c → IsDone p c0 (releases p.pkid c)
  unfolding handle_pubrel fan_out
  releases-IsDone p c0 c h =
      let c1 =
        fan_out env (stored p) (some c.client_id)
          (record c { incoming_qos2 = remove p.pkid c.incoming_qos2 }) in
      let e : releases p.pkid c ≡ record c1 { conn = (send env (pub_comp p.pkid) c1).0.conn } =
        ap (λ o. (send env (pub_comp p.pkid) (commit env p.pkid o c)).0) h.held
        ∙ send-conn (pub_comp p.pkid) c1 in
      subst (IsDone p c0) (sym e) (record {
        shard = ap₂ (λ i s. deliver_local env.hash (stored p) (some i) s) h.client_id h.shard;
        forwarded = ap (λ l. l ++ broadcast env.peers (stored p)) h.forwarded;
        gone = get-remove_self p.pkid c.incoming_qos2;
      })

  times-IsDone :
      (m : ℕ) (p : Publish) (c0 c : Here env)
      → IsDone p c0 c
      → IsDone p c0 (times m (releases p.pkid) c)
  unfolding handle_pubrel
  times-IsDone zero p c0 c h = h
  times-IsDone (suc m) p c0 c h =
      let e : releases p.pkid c ≡ record c { conn = (send env (pub_comp p.pkid) c).0.conn } =
        ap (λ o. (send env (pub_comp p.pkid) (commit env p.pkid o c)).0) h.gone
        ∙ send-conn (pub_comp p.pkid) c in
      times-IsDone m p c0 (releases p.pkid c) (
        subst (IsDone p c0) (sym e)
          (record { shard = h.shard; forwarded = h.forwarded; gone = h.gone }))

  -- A QoS 2 message that its client sends once or more under a packet id, and then releases once
  -- or more, is handed on exactly once: nothing is routed or forwarded while it is sent, and after
  -- the releases the shard has routed it once and it has gone once to each peer. The message is to
  -- use no alias, have a valid topic that the client may publish to, and find room in the quota.
  pub handle_pubrel-handle_publish :
      (p : Publish) (c : Here env) (n m : ℕ)
      → IsSound p c
      → HasRoom p.pkid c
      → ((times (suc n) (sends p) c).shard ≡ c.shard)
        × ((times (suc n) (sends p) c).forwarded ≡ c.forwarded)
        × ((times (suc m) (releases p.pkid) (times (suc n) (sends p) c)).shard
            ≡ deliver_local env.hash (stored p) (some c.client_id) c.shard)
        × ((times (suc m) (releases p.pkid) (times (suc n) (sends p) c)).forwarded
            ≡ c.forwarded ++ broadcast env.peers (stored p))
  handle_pubrel-handle_publish p c n m u r =
      let h = times-Holds n p c (sends p c) (sends-Holds p c c refl refl refl u r) in
      let d =
        times-IsDone m p c (releases p.pkid (times (suc n) (sends p) c))
          (releases-IsDone p c (times (suc n) (sends p) c) h) in
      (h.shard, h.forwarded, d.shard, d.forwarded)
