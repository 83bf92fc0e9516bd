-- ===== src/Config/Tests.antt =====
-- The default configuration, and configurations that are refused.
use rusquitto.Base.{
  ℕ, zero, ◌≡◌, ◌≤◌, refl, none, some, [], ◌∷◌, nat_eq, list_eq, list_beq, option_eq,
}
use rusquitto.Base.Text.{Bytes, codes}
use rusquitto.Config.{
  Config, UserConfig, default_config, default_server, websocket_port, mqtts_port, wss_port,
  resolved_shards,
}
use rusquitto.Config.Validate.{
  Crypto, port_clash, server_port, server_websocket_port, validate, validate_server, validate_tls,
  validate_ports, active_ports, validate_runtime, validate_limits, validate_upkeep, validate_users,
  validate_user,
}
use rusquitto.Config.Laws.{resolved_shards_lem}

-- A small stand-in for the crates.
abbrev pub toy : Crypto
toy = record {
  PasswordHash = Bytes;
  parse_phc = λ s. some s;
  salt = λ h. some h;
  output = λ h. some h;
  verify_password = λ p h. list_beq p h;
  sha256 = λ s. [];
}

abbrev pub user : Bytes → Bytes → UserConfig
user name password = record {
  username = name;
  password = some password;
  password_hash = none;
  publish = none;
  subscribe = some (codes "home/#" ∷ []);
}

abbrev pub two_users : Config
two_users = record default_config {
  auth = record default_config.auth {
    users = user (codes "ann") (codes "a1") ∷ user (codes "bob") (codes "b2") ∷ [];
  };
}

abbrev clashing : Config
clashing = record default_config { server = record default_server { websocket_port = 1883 } }

abbrev eight : ℕ
eight = 8

resolved_shards_lem_example :
    (1 ≤ resolved_shards eight default_config)
    × (1 ≤ eight → resolved_shards eight default_config ≤ eight)
    × (eight ≡ zero → resolved_shards eight default_config ≡ 1)
    × (default_config.runtime.cores ≡ none
        → 1 ≤ eight
        → resolved_shards eight default_config ≡ eight)
    × ((n : ℕ)
        → default_config.runtime.cores ≡ some n
        → 1 ≤ n
        → n ≤ eight
        → resolved_shards eight default_config ≡ n)
resolved_shards_lem_example = resolved_shards_lem eight default_config

pub two_users-validate : validate toy two_users ≡ none
unfolding validate validate_server validate_tls validate_ports active_ports validate_runtime
    validate_limits validate_upkeep validate_users validate_user websocket_port mqtts_port wss_port
    list_beq
two_users-validate = refl

default_config-validate : validate toy default_config ≡ none
unfolding validate validate_server validate_tls validate_ports active_ports validate_runtime
    validate_limits validate_upkeep validate_users validate_user websocket_port mqtts_port wss_port
    list_beq
default_config-validate = refl

clashing-validate : validate toy clashing ≡ some (port_clash 1883 server_port server_websocket_port)
unfolding validate validate_server validate_tls validate_ports active_ports websocket_port
    mqtts_port wss_port list_beq
clashing-validate = refl
