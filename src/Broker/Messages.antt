-- ===== src/Broker/Messages.antt =====
-- src/broker/messages.rs, src/broker/session.rs and src/broker/delivery.rs: the values that
-- routing, migration and persistence share. `Rc<Publish>` is the publish that it shares.
use rusquitto.Base.{ℕ, Bool, Option, List}
use rusquitto.Base.Text.{Bytes}
use rusquitto.Base.Assoc.{Assoc}
use rusquitto.Protocol.{Qos}

-- `mqtt_v5::PublishProperties`, the fields that `empty_publish_properties` names.
pub record PublishProperties : Type 0 where
  pub payload_format_indicator : Option ℕ
  pub message_expiry_interval : Option ℕ
  pub topic_alias : Option ℕ
  pub response_topic : Option Bytes
  pub correlation_data : Option Bytes
  pub user_properties : List (Bytes × Bytes)
  pub subscription_identifiers : List ℕ
  pub content_type : Option Bytes

-- `mqtt_v5::Publish`
pub record Publish : Type 0 where
  pub dup : Bool
  pub qos : Qos
  pub retain : Bool
  pub topic : Bytes
  pub pkid : ℕ
  pub properties : Option PublishProperties
  pub payload : Bytes

pub data InflightState : Type 0 where
  qos1 qos2_pending qos2_released : InflightState

pub record InflightMessage : Type 0 where
  pub publish : Publish
  pub state : InflightState

pub record SessionSnapshot : Type 0 where
  pub inflight : Assoc ℕ InflightMessage
  pub incoming_qos2 : Assoc ℕ Publish
  pub next_pkid : ℕ

pub record Delivery : Type 0 where
  pub publish : Publish
  pub qos : Qos
  pub retain : Bool
  pub sub_ids : List ℕ

pub record MigratedSub : Type 0 where
  pub filter : Bytes
  pub qos : Qos
  pub nolocal : Bool
  pub retain_as_published : Bool
  pub share_group : Option Bytes
  pub sub_id : Option ℕ

pub record MigratedSession : Type 0 where
  pub subscriptions : List MigratedSub
  pub inflight : Assoc ℕ InflightMessage
  pub incoming_qos2 : Assoc ℕ Publish
  pub next_pkid : ℕ
  pub offline : List (Publish × Qos × Bool × List ℕ)

pub record PersistedSession : Type 0 where
  pub client_id : Bytes
  pub expiry_secs : ℕ
  pub session : MigratedSession

-- The changes of a group's connected members that shards announce to each other.
pub data SharedEvent : Type 0 where
  join leave : Bytes → Bytes → SharedEvent

-- The protocol of migration. `Claim` has its requester and whether the session is to be resumed.
pub data SessionControl : Type 0 where
  claim : Bytes → ℕ → Bool → SessionControl
  handoff : Bytes → Option MigratedSession → SessionControl

-- The bounds of src/broker/delivery.rs.
abbrev pub offline_queue_limit : ℕ
offline_queue_limit = 1024

abbrev pub mailbox_limit : ℕ
mailbox_limit = 256
