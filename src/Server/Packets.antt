-- ===== src/Server/Packets.antt =====
-- The packets of `mqttbytes::v5` that the broker names, with the errors that end a connection.
use rusquitto.Base.{ℕ, Bool, Option, List}
use rusquitto.Base.Text.{Bytes}
use rusquitto.Protocol.{Qos, SubscribeReasonCode}
use rusquitto.Broker.Messages.{Publish}

-- `mqttbytes::v5::DisconnectReasonCode`, the codes that are used.
pub data DisconnectReason : Type 0 where
  normal_disconnection with_will topic_alias_invalid topic_name_invalid : DisconnectReason
  receive_maximum_exceeded protocol_error server_shutting_down : DisconnectReason

pub data ConnectReturnCode : Type 0 where
  success client_identifier_not_valid bad_user_name_password not_authorized : ConnectReturnCode

-- The properties that the broker sets.
pub record ConnAckProperties : Type 0 where
  pub server_keep_alive : Option ℕ
  pub assigned_client_identifier : Option Bytes
  pub receive_max : Option ℕ
  pub max_packet_size : Option ℕ
  pub max_qos : Option ℕ
  pub retain_available : Option ℕ
  pub wildcard_subscription_available : Option ℕ
  pub subscription_identifiers_available : Option ℕ
  pub shared_subscription_available : Option ℕ
  pub topic_alias_max : Option ℕ

pub record Login : Type 0 where
  pub username : Bytes
  pub password : Bytes

pub record LastWill : Type 0 where
  pub topic : Bytes
  pub message : Bytes
  pub qos : Qos
  pub retain : Bool
  pub delay_interval : Option ℕ

-- The properties that the broker reads.
pub record ConnectProperties : Type 0 where
  pub session_expiry_interval : Option ℕ
  pub receive_max : Option ℕ
  pub max_packet_size : Option ℕ
  pub topic_alias_max : Option ℕ

pub record Connect : Type 0 where
  pub keep_alive : ℕ
  pub client_id : Bytes
  pub clean_session : Bool
  pub last_will : Option LastWill
  pub login : Option Login
  pub properties : Option ConnectProperties

pub data RetainForwardRule : Type 0 where
  on_every_subscribe on_new_subscribe never : RetainForwardRule

-- `mqttbytes::v5::SubscribeFilter`
pub record SubscribeFilter : Type 0 where
  pub path : Bytes
  pub qos : Qos
  pub nolocal : Bool
  pub preserve_retain : Bool
  pub retain_forward_rule : RetainForwardRule

-- The flag of an acknowledgement says that it reports success.
pub data Packet : Type 0 where
  connect : Connect → Packet
  conn_ack : ConnectReturnCode → Bool → ConnAckProperties → Packet
  publish : Publish → Packet
  pub_ack pub_rec : ℕ → Bool → Packet
  pub_rel pub_comp : ℕ → Packet
  subscribe : ℕ → Option ℕ → List SubscribeFilter → Packet
  sub_ack : ℕ → List SubscribeReasonCode → Packet
  unsubscribe : ℕ → List Bytes → Packet
  unsub_ack : ℕ → ℕ → Packet
  ping_req ping_resp : Packet
  disconnect : DisconnectReason → Packet

-- The `io::Error`s that end a connection.
pub data Fault : Type 0 where
  encoding parsing alias_invalid unknown_alias invalid_publish_topic : Fault
  receive_maximum client_disconnected authentication_failed : Fault
  duplicate_connect expected_connect : Fault

pub data Outcome : Type 0 where
  ok : Outcome
  err : Fault → Outcome
