-- ===== src/Server/Inbound.antt =====
-- src/server/connection/publish.rs, subscribe.rs and control.rs, with `fan_out` of delivery.rs and
-- `send` of src/server/connection.rs: what a connection does with the packets of its client. The
-- shard that the connection shares is a field of its state; the outbound side is the field `conn`.
-- The token bucket only delays a publish, and is left out with the metrics.
pub mod Exactly
pub mod Guards
pub mod Trie
pub mod Answers
pub mod Quota
pub mod Tests
use rusquitto.Base.{
  ℕ, suc, ◌+◌, ◌-◌, Bool, true, false, not, ◌&&◌, ◌||◌, Option, none, some, List, [], ◌∷◌, ◌++◌,
  ◌==◌, nat_eq, list_eq, if◌then◌else◌, length, leb, ltb, is_empty, map,
}
use rusquitto.Base.Text.{Bytes}
use rusquitto.Base.Assoc.{Assoc, get, insert, remove, contains_key}
use rusquitto.Protocol.{
  Qos, at_most_once, at_least_once, exactly_once, min_qos, SubscribeReasonCode, sub_reason_code,
  parse_shared_filter, valid_publish_topic, valid_subscribe_filter,
}
use rusquitto.Protocol
use rusquitto.Config.{LimitsConfig, max_qos}
use rusquitto.Config.Validate.{Crypto}
use rusquitto.Auth.{Authenticator, authorize_publish, authorize_subscribe}
use rusquitto.Broker.Messages.{
  Publish, PublishProperties, InflightState, InflightMessage, Delivery, qos1, qos2_pending,
  qos2_released,
}
use rusquitto.Broker.Shard.{ShardState}
use rusquitto.Broker.Shard.Upkeep.{subscribe, unsubscribe}
use rusquitto.Broker.Routing.{deliver_local, retained_matching}
use rusquitto.Broker.Mesh.{Peers, broadcast}
use rusquitto.Server.Connection.{Connection, deliver, drain_pending}
use rusquitto.Server.Connection
pub use rusquitto.Server.Packets.{
  DisconnectReason, normal_disconnection, with_will, topic_alias_invalid, topic_name_invalid,
  receive_maximum_exceeded, protocol_error, server_shutting_down, Packet, pub_ack, pub_rec, pub_rel,
  pub_comp, sub_ack, unsub_ack, disconnect, ping_resp, Fault, encoding, alias_invalid,
  unknown_alias, invalid_publish_topic, receive_maximum, client_disconnected, authentication_failed,
  duplicate_connect, expected_connect, Outcome, ok, err, RetainForwardRule, on_every_subscribe,
  on_new_subscribe, never, SubscribeFilter,
}

pub record Client (crypto : Crypto) : Type 0 where
  pub conn : Connection
  pub shard : ShardState
  pub forwarded : List (ℕ × Publish)
  pub client_id : Bytes
  pub username : Option Bytes
  pub auth : Authenticator crypto
  pub limits : LimitsConfig
  pub inbound_aliases : Assoc ℕ Bytes
  pub incoming_qos2 : Assoc ℕ Publish
  pub subscription_count : ℕ
  pub will : Option Publish

abbrev pub inbound_topic_alias_max : ℕ
inbound_topic_alias_max = 16

abbrev pub alias_of : Option PublishProperties → Option ℕ
alias_of none = none
alias_of (some p) = p.topic_alias

-- What surrounds a connection: the crates that check credentials, the keyed hash of the standard
-- library, the packet writers of `mqttbytes`, and the place of the shard in the mesh.
pub record Surroundings : Type 1 where
  pub crypto : Crypto
  pub hash : Bytes → Bytes → ℕ
  pub write : Publish → Option Bytes
  pub encode : Packet → Option Bytes
  pub peers : Option Peers

-- `?` on a result.
abbrev pub and_then :
    {crypto : Crypto}
    → Client crypto × Outcome
    → (Client crypto → Client crypto × Outcome)
    → Client crypto × Outcome
and_then (c, ok) f = f c
and_then (c, err e) f = (c, err e)

module _ (env : Surroundings) where
  abbrev pub Here : Type 0
  Here = Client env.crypto

  unfoldable pub send : Packet → Here → Here × Outcome
  send packet c = elim (env.encode packet) [
    | none ↦ (c, err encoding)
    | some b ↦ (record c { conn = record c.conn { outbound = c.conn.outbound ++ b } }, ok)
  ]

  -- A DISCONNECT, and then the error.
  abbrev pub fail_with : DisconnectReason → Fault → Here → Here × Outcome
  fail_with reason fault c = and_then (send (disconnect reason) c) (λ c. (c, err fault))

  unfoldable pub fan_out : Publish → Option Bytes → Here → Here
  fan_out p publisher c = record c {
    forwarded = c.forwarded ++ broadcast env.peers p;
    shard = deliver_local env.hash p publisher c.shard;
  }

  -- The refusal of a publish that is not authorised, by its QoS.
  unfoldable pub reject_publish : ℕ → Qos → Here → Here × Outcome
  reject_publish pkid at_most_once c = (c, ok)
  reject_publish pkid at_least_once c = send (pub_ack pkid false) c
  reject_publish pkid exactly_once c = send (pub_rec pkid false) c

  -- The receiver's side of the handshake, by the QoS.
  unfoldable pub accept_publish : ℕ → Publish → Qos → Here → Here × Outcome
  accept_publish pkid p at_most_once c = (fan_out p (some c.client_id) c, ok)
  accept_publish pkid p at_least_once c = send (pub_ack pkid true) (fan_out p (some c.client_id) c)
  accept_publish pkid p exactly_once c =
      if not (contains_key pkid c.incoming_qos2)
        && leb c.limits.max_inflight (length c.incoming_qos2)
      then fail_with receive_maximum_exceeded receive_maximum c
      else send (pub_rec pkid true) (record c { incoming_qos2 = insert pkid p c.incoming_qos2 })

  -- The part of `handle_publish` after the alias is resolved.
  unfoldable pub publish_named : Publish → Here → Here × Outcome
  publish_named p c =
      if not (valid_publish_topic p.topic)
      then fail_with topic_name_invalid invalid_publish_topic c
      else if not (authorize_publish env.crypto c.auth c.username p.topic)
      then reject_publish p.pkid p.qos c
      else accept_publish p.pkid (record p { pkid = 0; dup = false }) p.qos c

  unfoldable pub publish_aliased : ℕ → Publish → Here → Here × Outcome
  publish_aliased alias p c =
      if alias == 0 || ltb inbound_topic_alias_max alias
      then fail_with topic_alias_invalid alias_invalid c
      else if is_empty p.topic
      then elim (get alias c.inbound_aliases) [
        | none ↦ fail_with topic_alias_invalid unknown_alias c
        | some topic ↦ publish_named (record p { topic = topic }) c
      ]
      else publish_named p (record c { inbound_aliases = insert alias p.topic c.inbound_aliases })

  abbrev pub publish_by : Option ℕ → Publish → Here → Here × Outcome
  publish_by none p c = publish_named p c
  publish_by (some alias) p c = publish_aliased alias p c

  unfoldable pub handle_publish : Publish → Here → Here × Outcome
  handle_publish p c = publish_by (alias_of p.properties) p c

  unfoldable pub handle_ping : Here → Here × Outcome
  handle_ping c = send ping_resp c

  unfoldable pub handle_disconnect : DisconnectReason → Here → Here × Outcome
  handle_disconnect normal_disconnection c = (record c { will = none }, err client_disconnected)
  handle_disconnect reason c = (c, err client_disconnected)

  -- The state of the exchange after the client's PUBREC.
  abbrev pub released : InflightState → InflightState
  released qos1 = qos1
  released qos2_pending = qos2_released
  released qos2_released = qos2_released

  abbrev pub release : ℕ → Assoc ℕ InflightMessage → Assoc ℕ InflightMessage
  release pkid m = elim (get pkid m) [
    | none ↦ m
    | some entry ↦ insert pkid (record entry { state = released entry.state }) m
  ]

  unfoldable pub handle_pubrec : ℕ → Here → Here × Outcome
  handle_pubrec pkid c =
      send (pub_rel pkid)
        (record c { conn = record c.conn { inflight = release pkid c.conn.inflight } })

  -- The message that is held under a packet id is handed on.
  abbrev pub commit : ℕ → Option Publish → Here → Here
  commit pkid none c = c
  commit pkid (some p) c =
      fan_out p (some c.client_id) (record c { incoming_qos2 = remove pkid c.incoming_qos2 })

  unfoldable pub handle_pubrel : ℕ → Here → Here × Outcome
  handle_pubrel pkid c = send (pub_comp pkid) (commit pkid (get pkid c.incoming_qos2) c)

  -- Whether the retained messages are sent for this filter.
  abbrev pub replays : Option Bytes → RetainForwardRule → Bool → Bool
  replays (some group) rule is_new = false
  replays none on_every_subscribe is_new = true
  replays none on_new_subscribe is_new = is_new
  replays none never is_new = false

  abbrev pub options_of :
      SubscribeFilter → Qos → Option Bytes → Option ℕ → rusquitto.Topics.Trie.SubOptions
  options_of f granted group sub_id = record {
    qos = granted;
    nolocal = f.nolocal;
    retain_as_published = f.preserve_retain;
    share_group = group;
    sub_id = sub_id;
  }

  abbrev pub Answer : Type 0
  Answer = Here × SubscribeReasonCode × List (Publish × Qos)

  abbrev pub is_shared : Option Bytes → Bool
  is_shared none = false
  is_shared (some g) = true

  -- A filter that passes the tests: the subscription, its quota, and the retained messages.
  unfoldable pub admit : Option ℕ → SubscribeFilter → Bytes → Option Bytes → Here → Answer
  admit sub_id f effective group c =
      let granted = min_qos f.qos (max_qos c.limits) in
      let (shard, is_new) =
        subscribe effective c.client_id (options_of f granted group sub_id) c.shard in
      let limit = c.limits.max_subscriptions_per_client in
      if is_new && ltb 0 limit && leb limit c.subscription_count
      then (
        record c { shard = (unsubscribe effective c.client_id group shard).0 },
        Protocol.quota_exceeded,
        [],
      )
      else (
        record c {
          shard = shard;
          subscription_count = if is_new then c.subscription_count + 1 else c.subscription_count;
        },
        sub_reason_code granted,
        if replays group f.retain_forward_rule is_new
            then map (λ p. (p, granted)) (retained_matching effective shard)
            else [],
      )

  -- The tests on a filter, in their order.
  unfoldable pub subscribe_filter : Option ℕ → SubscribeFilter → Here → Answer
  subscribe_filter sub_id f c = elim (parse_shared_filter f.path) [
    | none ↦ (c, Protocol.topic_filter_invalid, [])
    | some (effective, group) ↦
        if not (authorize_subscribe env.crypto c.auth c.username effective)
        then (c, Protocol.not_authorized, [])
        else if not (valid_subscribe_filter effective)
        then (c, Protocol.topic_filter_invalid, [])
        else if is_shared group && f.nolocal
        then (c, Protocol.topic_filter_invalid, [])
        else admit sub_id f effective group c
  ]

  -- The loop over the filters: the reason codes, and the retained messages to send.
  unfoldable pub subscribe_all :
      Option ℕ
      → List SubscribeFilter
      → Here
      → Here × List SubscribeReasonCode × List (Publish × Qos)
  subscribe_all sub_id [] c = (c, [], [])
  subscribe_all sub_id (f ∷ fs) c =
      let (c1, code, now) = subscribe_filter sub_id f c in
      let (c2, codes, later) = subscribe_all sub_id fs c1 in (c2, code ∷ codes, now ++ later)

  abbrev pub id_list : Option ℕ → List ℕ
  id_list none = []
  id_list (some id) = id ∷ []

  -- The retained messages, through `deliver`; `none` stands for a delivery that never returns.
  unfoldable pub replay : Option ℕ → List (Publish × Qos) → Here → Option (Here × Outcome)
  replay sub_id [] c = some (c, ok)
  replay sub_id ((p, granted) ∷ ms) c =
      elim (deliver env.write c.conn (record {
        publish = p;
        qos = min_qos p.qos granted;
        retain = true;
        sub_ids = id_list sub_id;
      })) [
        | none ↦ none
        | some (conn, true) ↦ replay sub_id ms (record c { conn = conn })
        | some (conn, false) ↦ some (record c { conn = conn }, err encoding)
      ]

  abbrev pub replay_after :
      Option ℕ → List (Publish × Qos) → Here × Outcome → Option (Here × Outcome)
  replay_after sub_id ms (c, ok) = replay sub_id ms c
  replay_after sub_id ms (c, err e) = some (c, err e)

  unfoldable pub handle_subscribe :
      ℕ → Option ℕ → List SubscribeFilter → Here → Option (Here × Outcome)
  handle_subscribe pkid sub_id fs c =
      let (c1, codes, retained) = subscribe_all sub_id fs c in
      replay_after sub_id retained (send (sub_ack pkid codes) c1)

  -- `parse_shared_filter(filter).unwrap_or((filter, None))`
  abbrev pub parsed_or : Bytes → Option (Bytes × Option Bytes) → Bytes × Option Bytes
  parsed_or filter none = (filter, none)
  parsed_or filter (some pair) = pair

  unfoldable pub unsubscribe_all : List Bytes → Here → Here
  unsubscribe_all [] c = c
  unsubscribe_all (filter ∷ fs) c =
      let (effective, group) = parsed_or filter (parse_shared_filter filter) in
      let (shard, removed) = unsubscribe effective c.client_id group c.shard in
      unsubscribe_all fs (record c {
        shard = shard;
        subscription_count = if removed then c.subscription_count - 1 else c.subscription_count;
      })

  unfoldable pub handle_unsubscribe : ℕ → List Bytes → Here → Here × Outcome
  handle_unsubscribe pkid fs c = send (unsub_ack pkid (length fs)) (unsubscribe_all fs c)
