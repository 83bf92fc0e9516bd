-- ===== src/Config.antt =====
-- src/config.rs: the configuration tree with its defaults and the answers that its sections give.
-- A path and an address is its bytes; an integer of the file is a number in the range of its type.
pub mod Validate
pub mod Laws
pub mod Rules
pub mod Tests
use rusquitto.Base.{
  ℕ, zero, suc, ◌*◌, Bool, true, false, ◌&&◌, Option, none, some, List, [], ◌++◌, ◌≡◌,
  if◌then◌else◌, ltb, leb,
}
use rusquitto.Base.Text.{Bytes, codes, slash}
use rusquitto.Protocol.{Qos, at_most_once, at_least_once, exactly_once}

-- A signed integer: `pos n` is n and `negsuc n` is -(n + 1).
pub data ℤ : Type 0 where
  pos : ℕ → ℤ
  negsuc : ℕ → ℤ

pub record ServerConfig : Type 0 where
  pub bind : Bytes
  pub port : ℕ
  pub websocket : Bool
  pub websocket_port : ℕ
  pub listen_backlog : ℤ
  pub socket_recv_buffer : ℕ
  pub socket_send_buffer : ℕ

pub record TlsConfig : Type 0 where
  pub enabled : Bool
  pub port : ℕ
  pub websocket : Bool
  pub websocket_port : ℕ
  pub cert_file : Option Bytes
  pub key_file : Option Bytes
  pub client_ca_file : Option Bytes
  pub require_client_cert : Bool
  pub reload_interval : ℕ
  pub cert_cn_as_username : Bool

pub data Placement : Type 0 where
  max_spread max_pack unbound : Placement

pub record RuntimeConfig : Type 0 where
  pub cores : Option ℕ
  pub placement : Placement
  pub mesh_capacity : ℕ
  pub io_memory_kib : ℕ
  pub spin_before_park_us : ℕ

pub data LogFormat : Type 0 where
  pretty json : LogFormat

pub record LoggingConfig : Type 0 where
  pub level : Bytes
  pub dir : Bytes
  pub file : Bytes
  pub error_file : Bytes
  pub enable_terminal : Bool
  pub format : LogFormat

pub record LimitsConfig : Type 0 where
  pub max_connections_per_shard : ℕ
  pub max_connections_per_ip : ℕ
  pub max_payload_size : ℕ
  pub initial_read_buffer : ℕ
  pub max_inflight : ℕ
  pub max_qos : ℕ
  pub keep_alive : ℕ
  pub retain_available : Bool
  pub connect_timeout : ℕ
  pub max_session_expiry : ℕ
  pub max_subscriptions_per_client : ℕ
  pub max_retained_messages : ℕ
  pub max_message_rate : ℕ

pub record OverloadConfig : Type 0 where
  pub stall_warn_ms : ℕ
  pub admission_delay_ms : ℕ
  pub shed_delay_ms : ℕ
  pub shed_batch : ℕ

pub record ParkingConfig : Type 0 where
  pub enabled : Bool
  pub idle_grace_secs : ℕ

pub record PersistenceConfig : Type 0 where
  pub enabled : Bool
  pub dir : Bytes
  pub retained_file : Bytes
  pub snapshot_interval : ℕ
  pub wal_flush_ms : ℕ

pub record UserConfig : Type 0 where
  pub username : Bytes
  pub password : Option Bytes
  pub password_hash : Option Bytes
  pub publish : Option (List Bytes)
  pub subscribe : Option (List Bytes)

pub record AuthConfig : Type 0 where
  pub allow_anonymous : Bool
  pub users : List UserConfig
  pub anonymous_publish : Option (List Bytes)
  pub anonymous_subscribe : Option (List Bytes)

pub record SysConfig : Type 0 where
  pub enabled : Bool
  pub interval : ℕ

pub record Config : Type 0 where
  pub server : ServerConfig
  pub tls : TlsConfig
  pub runtime : RuntimeConfig
  pub logging : LoggingConfig
  pub limits : LimitsConfig
  pub overload : OverloadConfig
  pub parking : ParkingConfig
  pub persistence : PersistenceConfig
  pub auth : AuthConfig
  pub sys : SysConfig

abbrev pub default_sys : SysConfig
default_sys = record { enabled = true; interval = 10 }

abbrev pub default_auth : AuthConfig
default_auth = record {
  allow_anonymous = true;
  users = [];
  anonymous_publish = none;
  anonymous_subscribe = none;
}

abbrev pub default_server : ServerConfig
default_server = record {
  bind = codes "127.0.0.1";
  port = 1883;
  websocket = true;
  websocket_port = 1884;
  listen_backlog = pos 1024;
  socket_recv_buffer = 0;
  socket_send_buffer = 0;
}

abbrev pub default_tls : TlsConfig
default_tls = record {
  enabled = false;
  port = 8883;
  websocket = true;
  websocket_port = 8884;
  cert_file = none;
  key_file = none;
  client_ca_file = none;
  require_client_cert = false;
  reload_interval = 0;
  cert_cn_as_username = false;
}

abbrev pub default_runtime : RuntimeConfig
default_runtime = record {
  cores = none;
  placement = max_spread;
  mesh_capacity = 1024;
  io_memory_kib = 512;
  spin_before_park_us = 0;
}

abbrev pub default_logging : LoggingConfig
default_logging = record {
  level = codes "info,rusquitto=debug";
  dir = codes "logs";
  file = codes "rusquitto.log";
  error_file = codes "rusquitto.error.log";
  enable_terminal = false;
  format = pretty;
}

abbrev pub default_limits : LimitsConfig
default_limits = record {
  max_connections_per_shard = 16384;
  max_connections_per_ip = 0;
  max_payload_size = 64 * 1024;
  initial_read_buffer = 0;
  max_inflight = 128;
  max_qos = 2;
  keep_alive = 60;
  retain_available = true;
  connect_timeout = 10;
  max_session_expiry = 86400;
  max_subscriptions_per_client = 1024;
  max_retained_messages = 100000;
  max_message_rate = 0;
}

abbrev pub default_overload : OverloadConfig
default_overload = record {
  stall_warn_ms = 100;
  admission_delay_ms = 0;
  shed_delay_ms = 0;
  shed_batch = 8;
}

abbrev pub default_parking : ParkingConfig
default_parking = record { enabled = true; idle_grace_secs = 30 }

abbrev pub default_persistence : PersistenceConfig
default_persistence = record {
  enabled = false;
  dir = codes "data";
  retained_file = codes "retained.mqtt";
  snapshot_interval = 300;
  wal_flush_ms = 200;
}

abbrev pub default_config : Config
default_config = record {
  server = default_server;
  tls = default_tls;
  runtime = default_runtime;
  logging = default_logging;
  limits = default_limits;
  overload = default_overload;
  parking = default_parking;
  persistence = default_persistence;
  auth = default_auth;
  sys = default_sys;
}

-- `flag.then_some(port)`
abbrev pub then_some : Bool → ℕ → Option ℕ
then_some true port = some port
then_some false port = none

unfoldable pub websocket_port : ServerConfig → Option ℕ
websocket_port s = then_some s.websocket s.websocket_port

unfoldable pub mqtts_port : TlsConfig → Option ℕ
mqtts_port t = then_some t.enabled t.port

unfoldable pub wss_port : TlsConfig → Option ℕ
wss_port t = then_some (t.enabled && t.websocket) t.websocket_port

unfoldable pub wal_enabled : PersistenceConfig → Bool
wal_enabled p = p.enabled && ltb 0 p.wal_flush_ms

-- The typed ceiling, from the number of the section.
abbrev pub qos_of_num : ℕ → Qos
qos_of_num zero = at_most_once
qos_of_num (suc zero) = at_least_once
qos_of_num (suc (suc n)) = exactly_once

unfoldable pub max_qos : LimitsConfig → Qos
max_qos l = qos_of_num l.max_qos

-- `requested.clamp(1, online)`
abbrev pub clamp_from_one : ℕ → ℕ → ℕ
clamp_from_one online n = if ltb n 1 then 1 else if ltb online n then online else n

abbrev pub cores_or : ℕ → Option ℕ → ℕ
cores_or online none = online
cores_or online (some n) = n

-- `online_cores.max(1)`
abbrev pub at_least_one : ℕ → ℕ
at_least_one n = if leb n 1 then 1 else n

unfoldable pub resolved_shards : ℕ → Config → ℕ
resolved_shards online_cores c =
    let online = at_least_one online_cores in
    clamp_from_one online (cores_or online c.runtime.cores)
