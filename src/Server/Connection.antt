-- ===== src/Server/Connection.antt =====
-- src/server/connection.rs, src/server/connection/delivery.rs and
-- src/server/connection/control.rs: the outbound side of a connection, from a delivery to the
-- acknowledgement that ends its exchange. The fields that this side neither reads nor writes are
-- left out, as are the clock of `last_activity` and the metrics.
pub mod PacketId
pub mod Sending
pub mod Window
mod Tests
use rusquitto.Base.{
  ℕ, zero, suc, ◌+◌, ◌%◌, Bool, true, false, not, ◌&&◌, ◌||◌, Option, none, some, List, [], ◌∷◌,
  ◌++◌, ◌==◌, nat_eq, list_eq, if◌then◌else◌, length, leb, ltb, is_empty, drop,
}
use rusquitto.Base.Text.{Bytes}
use rusquitto.Base.Assoc.{Assoc, get, insert, remove, contains_key}
use rusquitto.Protocol.{Qos, at_most_once, at_least_once, exactly_once}
use rusquitto.Broker.Messages.{
  PublishProperties, Publish, InflightState, qos1, qos2_pending, qos2_released, InflightMessage,
  Delivery,
}

pub record Connection : Type 0 where
  pub outbound : Bytes
  pub inflight : Assoc ℕ InflightMessage
  pub next_pkid : ℕ
  pub max_inflight : ℕ
  pub peer_receive_max : ℕ
  pub peer_max_packet_size : Option ℕ
  pub pending_outbound : List Delivery
  pub peer_topic_alias_max : ℕ
  pub outbound_aliases : Assoc Bytes ℕ

abbrev pub pending_outbound_limit : ℕ
pending_outbound_limit = 4096

abbrev pub empty_publish_properties : PublishProperties
empty_publish_properties = record {
  payload_format_indicator = none;
  message_expiry_interval = none;
  topic_alias = none;
  response_topic = none;
  correlation_data = none;
  user_properties = [];
  subscription_identifiers = [];
  content_type = none;
}

abbrev pub min : ℕ → ℕ → ℕ
min a b = if leb a b then a else b

abbrev pub max : ℕ → ℕ → ℕ
max a b = if leb a b then b else a

unfoldable pub outbound_window : Connection → ℕ
outbound_window c = max (min c.peer_receive_max c.max_inflight) 1

-- `wrapping_add(1)` on a `u16`, and 1 in place of 0.
unfoldable pub next_id : ℕ → ℕ
next_id k = let n = (k + 1) % 65536 in if n == 0 then 1 else n

-- The loop of `alloc_pkid` on fuel; the id that it returns is also the new `next_pkid`.
unfoldable pub alloc_loop : ℕ → ℕ → Assoc ℕ InflightMessage → Option ℕ
alloc_loop zero k m = none
alloc_loop (suc fuel) k m =
    let rest = alloc_loop fuel (next_id k) m in
    if contains_key (next_id k) m then rest else some (next_id k)

-- There are 65535 packet ids.
unfoldable pub alloc_pkid : Connection → Option ℕ
alloc_pkid c = alloc_loop 65535 c.next_pkid c.inflight

abbrev pub or_empty : Option PublishProperties → PublishProperties
or_empty none = empty_publish_properties
or_empty (some p) = p

abbrev pub is_some : Option PublishProperties → Bool
is_some none = false
is_some (some p) = true

-- The copy of the publish that is sent to this subscriber, before a packet id is given.
unfoldable pub message_of : Delivery → Publish
message_of d =
    let p = record d.publish { qos = d.qos; dup = false; retain = d.retain } in
    if not (is_empty d.sub_ids) || is_some p.properties
    then record p {
      properties = some (record (or_empty p.properties) {
        topic_alias = none;
        subscription_identifiers = d.sub_ids;
      });
    }
    else p

abbrev pub with_alias : ℕ → Publish → Publish
with_alias alias p = record p {
  properties = some (record (or_empty p.properties) { topic_alias = some alias });
}

pub record Aliased : Type 0 where
  pub message : Publish
  pub table : Assoc Bytes ℕ
  pub newly_aliased : Option Bytes

-- The outbound topic alias; the number of aliases is cast by `as u16`.
abbrev pub aliased_new : Connection → Publish → Aliased
aliased_new c p =
    let assigned = length c.outbound_aliases % 65536 in
    if ltb assigned c.peer_topic_alias_max
    then record {
      message = with_alias (assigned + 1) p;
      table = insert p.topic (assigned + 1) c.outbound_aliases;
      newly_aliased = some p.topic;
    }
    else record { message = p; table = c.outbound_aliases; newly_aliased = none }

unfoldable pub aliased : Connection → Publish → Aliased
aliased c p =
    if ltb 0 c.peer_topic_alias_max
    then elim (get p.topic c.outbound_aliases) [
      | some alias ↦ record {
        message = record (with_alias alias p) { topic = [] };
        table = c.outbound_aliases;
        newly_aliased = none;
      }
      | none ↦ aliased_new c p
    ]
    else record { message = p; table = c.outbound_aliases; newly_aliased = none }

abbrev pub rolled_back : Aliased → Assoc Bytes ℕ
rolled_back a = elim a.newly_aliased [ none ↦ a.table | some topic ↦ remove topic a.table ]

abbrev pub too_large : Option ℕ → Bytes → Bool
too_large none b = false
too_large (some limit) b = ltb limit (length b)

abbrev pub recorded :
    Option InflightState → Publish → Assoc ℕ InflightMessage → Assoc ℕ InflightMessage
recorded none p m = m
recorded (some state) p m = insert p.pkid (record { publish = p; state = state }) m

-- The held deliveries after one more: the oldest is dropped if the queue is full.
abbrev pub held : List Delivery → Delivery → List Delivery
held ds d = (if leb pending_outbound_limit (length ds) then drop 1 ds else ds) ++ d ∷ []

abbrev pub is_qos0 : Qos → Bool
is_qos0 at_most_once = true
is_qos0 at_least_once = false
is_qos0 exactly_once = false

-- `write` stands for `Publish::write` of `mqttbytes`: the packet, or an error.
module _ (write : Publish → Option Bytes) where
  -- The rest of `send_publish` once the packet id is chosen; the flag says that it returns `Ok`.
  unfoldable pub emit : Connection → Publish → Option InflightState → Connection × Bool
  emit c p state =
      let a = aliased c p in
      elim (write a.message) [
        | none ↦ (record c { outbound_aliases = rolled_back a }, false)
        | some b ↦
            if too_large c.peer_max_packet_size b
            then (record c { outbound_aliases = rolled_back a }, true)
            else (
              record c {
                outbound = c.outbound ++ b;
                outbound_aliases = a.table;
                inflight =
                    recorded state (if ltb 0 c.peer_topic_alias_max then p else a.message)
                      c.inflight;
              },
              true,
            )
      ]

  -- `none` stands for an allocation that never returns.
  unfoldable pub emit_with_id : Connection → Delivery → InflightState → Option (Connection × Bool)
  emit_with_id c d state = elim (alloc_pkid c) [
    | none ↦ none
    | some id ↦
        some (emit (record c { next_pkid = id }) (record (message_of d) { pkid = id }) (some state))
  ]

  -- The `match` on the QoS, which is the one that the delivery has.
  unfoldable pub send_as : Connection → Delivery → Qos → Option (Connection × Bool)
  send_as c d at_most_once = some (emit c (record (message_of d) { pkid = 0 }) none)
  send_as c d at_least_once = emit_with_id c d qos1
  send_as c d exactly_once = emit_with_id c d qos2_pending

  unfoldable pub send_publish : Connection → Delivery → Option (Connection × Bool)
  send_publish c d = send_as c d d.qos

  unfoldable pub deliver : Connection → Delivery → Option (Connection × Bool)
  deliver c d =
      if is_qos0 d.qos || ltb (length c.inflight) (outbound_window c)
      then send_publish c d
      else some (record c { pending_outbound = held c.pending_outbound d }, true)

  -- The loop of `drain_pending` over the deliveries that are held.
  unfoldable pub drain_loop : List Delivery → Connection → Option (Connection × Bool)
  drain_loop [] c = some (record c { pending_outbound = [] }, true)
  drain_loop (d ∷ ds) c = elim (ltb (length c.inflight) (outbound_window c)) [
    | true ↦ elim (send_publish (record c { pending_outbound = ds }) d) [
      | none ↦ none
      | some (c', true) ↦ drain_loop ds c'
      | some (c', false) ↦ some (c', false)
    ]
    | false ↦ some (record c { pending_outbound = d ∷ ds }, true)
  ]

  unfoldable pub drain_pending : Connection → Option (Connection × Bool)
  drain_pending c = drain_loop c.pending_outbound c

  unfoldable pub handle_puback : ℕ → Connection → Option (Connection × Bool)
  handle_puback pkid c =
      if contains_key pkid c.inflight
      then drain_pending (record c { inflight = remove pkid c.inflight })
      else some (c, true)

  unfoldable pub handle_pubcomp : ℕ → Connection → Option (Connection × Bool)
  handle_pubcomp pkid c =
      if contains_key pkid c.inflight
      then drain_pending (record c { inflight = remove pkid c.inflight })
      else some (c, true)
