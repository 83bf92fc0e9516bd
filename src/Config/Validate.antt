-- ===== src/Config/Validate.antt =====
-- `Config::validate` and `Config::load` of src/config.rs, with the errors as values. A clause of
-- `validate` that returns an error is an answer `some`; the clauses of a section are a function.
use rusquitto.Base.{
  ℕ, zero, suc, Bool, true, false, not, ◌&&◌, ◌||◌, Option, none, some, List, [], ◌∷◌, ◌==◌, nat_eq,
  list_eq, option_eq, if◌then◌else◌, ltb, leb, is_empty, length, ◌⊎◌, inl, inr,
}
use rusquitto.Base.Text.{Bytes, codes, strip_prefix}
use rusquitto.Base.Assoc.{Assoc, get, insert, contains_key}
use rusquitto.Config.{
  ℤ, pos, negsuc, ServerConfig, TlsConfig, RuntimeConfig, LimitsConfig, ParkingConfig,
  PersistenceConfig, UserConfig, SysConfig, Config, websocket_port, mqtts_port, wss_port,
}

-- What the code takes from the `argon2` and `sha2` crates: parsed PHC strings with their optional
-- salt and output, the password check on them, and the digest.
pub record Crypto : Type 1 where
  pub PasswordHash : Type 0
  pub parse_phc : Bytes → Option PasswordHash
  pub salt : PasswordHash → Option Bytes
  pub output : PasswordHash → Option Bytes
  pub verify_password : Bytes → PasswordHash → Bool
  pub sha256 : Bytes → Bytes

-- The names of the ports in the message on a clash.
pub data Listener : Type 0 where
  server_port server_websocket_port tls_port tls_websocket_port : Listener

-- The messages of `ConfigError::Validation`.
pub data Invalid : Type 0 where
  not_toml : Bytes → Invalid
  server_port_zero websocket_port_zero backlog_not_positive : Invalid
  tls_files_missing client_ca_missing tls_port_zero tls_websocket_port_zero : Invalid
  port_clash : ℕ → Listener → Listener → Invalid
  cores_zero mesh_capacity_zero io_memory_below_floor : Invalid
  max_qos_above_two max_payload_size_zero idle_grace_zero : Invalid
  retained_file_empty sys_interval_zero username_empty : Invalid
  duplicate_user not_one_credential phc_invalid sha256_invalid : Bytes → Invalid

pub data ConfigError : Type 0 where
  io parse : Bytes → ConfigError
  validation : Invalid → ConfigError

-- The error of the first clauses, or else of the later ones.
abbrev pub or_else : Option Invalid → Option Invalid → Option Invalid
or_else none y = y
or_else (some e) y = some e

abbrev pub not_positive : ℤ → Bool
not_positive (pos zero) = true
not_positive (pos (suc n)) = false
not_positive (negsuc n) = true

abbrev pub is_none : Option Bytes → Bool
is_none none = true
is_none (some x) = false

unfoldable pub validate_server : ServerConfig → Option Invalid
validate_server s =
    if s.port == 0
    then some server_port_zero
    else if s.websocket && s.websocket_port == 0
    then some websocket_port_zero
    else if not_positive s.listen_backlog
    then some backlog_not_positive
    else none

unfoldable pub validate_tls : TlsConfig → Option Invalid
validate_tls t =
    if not t.enabled
    then none
    else if is_none t.cert_file || is_none t.key_file
    then some tls_files_missing
    else if t.require_client_cert && is_none t.client_ca_file
    then some client_ca_missing
    else if t.port == 0
    then some tls_port_zero
    else if t.websocket && t.websocket_port == 0
    then some tls_websocket_port_zero
    else none

-- `into_iter().flatten()` on the named ports, one at a time.
abbrev pub named : Listener → Option ℕ → List (Listener × ℕ) → List (Listener × ℕ)
named name none rest = rest
named name (some port) rest = (name, port) ∷ rest

unfoldable pub active_ports : ServerConfig → TlsConfig → List (Listener × ℕ)
active_ports s t =
    (server_port, s.port)
    ∷ named server_websocket_port (websocket_port s)
        (named tls_port (mqtts_port t) (named tls_websocket_port (wss_port t) []))

-- The loop over the ports; `seen` is the map from a port to the last name that had it.
unfoldable pub validate_ports : Assoc ℕ Listener → List (Listener × ℕ) → Option Invalid
validate_ports seen [] = none
validate_ports seen ((name, port) ∷ ports) =
    let rest = validate_ports (insert port name seen) ports in
    elim (get port seen) [ some other ↦ some (port_clash port other name) | none ↦ rest ]

abbrev pub is_zero_cores : Option ℕ → Bool
is_zero_cores none = false
is_zero_cores (some n) = n == 0

unfoldable pub validate_runtime : RuntimeConfig → Option Invalid
validate_runtime r =
    if is_zero_cores r.cores
    then some cores_zero
    else if r.mesh_capacity == 0
    then some mesh_capacity_zero
    else if ltb r.io_memory_kib 64
    then some io_memory_below_floor
    else none

unfoldable pub validate_limits : LimitsConfig → Option Invalid
validate_limits l =
    if ltb 2 l.max_qos
    then some max_qos_above_two
    else if l.max_payload_size == 0
    then some max_payload_size_zero
    else none

unfoldable pub validate_upkeep : ParkingConfig → PersistenceConfig → SysConfig → Option Invalid
validate_upkeep p q s =
    if p.enabled && p.idle_grace_secs == 0
    then some idle_grace_zero
    else if q.enabled && is_empty q.retained_file
    then some retained_file_empty
    else if s.enabled && s.interval == 0
    then some sys_interval_zero
    else none

-- `u8::is_ascii_hexdigit`
abbrev pub is_hexdigit : ℕ → Bool
is_hexdigit b = leb b'0' b && leb b b'9' || (leb b'a' b && leb b b'f') || (leb b'A' b && leb b b'F')

abbrev pub all : (ℕ → Bool) → Bytes → Bool
all p [] = true
all p (b ∷ bs) = p b && all p bs

-- `hash.starts_with("$argon2")`
unfoldable pub is_argon2 : Bytes → Bool
is_argon2 hash = elim (strip_prefix (codes "$argon2") hash) [ none ↦ false | some rest ↦ true ]

abbrev pub same : Bool → Bool → Bool
same true b = b
same false b = not b

pub data Loaded : Type 0 where
  ok : Config → Loaded
  err : ConfigError → Loaded

module _ (crypto : Crypto) where
  -- The PHC string parses, with its salt and its output.
  unfoldable pub usable : Bytes → Bool
  usable hash = elim (crypto.parse_phc hash) [
    | none ↦ false
    | some h ↦ not (is_none (crypto.salt h)) && not (is_none (crypto.output h))
  ]

  abbrev pub validate_hash : Bytes → Option Bytes → Option Invalid
  validate_hash name none = none
  validate_hash name (some hash) =
      if is_argon2 hash
      then (if usable hash then none else some (phc_invalid name))
      else if not (length hash == 64) || not (all is_hexdigit hash)
      then some (sha256_invalid name)
      else none

  -- The clauses on one user, after the set of the names before.
  unfoldable pub validate_user : Assoc Bytes (Unit {0}) → UserConfig → Option Invalid
  validate_user seen u =
      if is_empty u.username
      then some username_empty
      else if contains_key u.username seen
      then some (duplicate_user u.username)
      else if same (not (is_none u.password)) (not (is_none u.password_hash))
      then some (not_one_credential u.username)
      else validate_hash u.username u.password_hash

  unfoldable pub validate_users : Assoc Bytes (Unit {0}) → List UserConfig → Option Invalid
  validate_users seen [] = none
  validate_users seen (u ∷ us) =
      or_else (validate_user seen u) (validate_users (insert u.username tt seen) us)

  unfoldable pub validate : Config → Option Invalid
  validate c = or_else (validate_server c.server) (
      or_else (validate_tls c.tls) (
        or_else (validate_ports [] (active_ports c.server c.tls)) (
          or_else (validate_runtime c.runtime) (
            or_else (validate_limits c.limits) (
              or_else (validate_upkeep c.parking c.persistence c.sys)
                (validate_users [] c.auth.users))))))

  abbrev pub validated : Config → Loaded
  validated c = elim (validate c) [ none ↦ ok c | some e ↦ err (validation e) ]

  abbrev pub decoded : Config ⊎ Bytes → Loaded
  decoded (inl c) = validated c
  decoded (inr e) = err (parse e)

-- What the file system and the TOML reader answer is a parameter: a value, or the error's text.
-- So is `Path::extension`.
module _ (crypto : Crypto) (extension : Bytes → Option Bytes)
    (read_to_string : Bytes → Bytes ⊎ Bytes) (from_str : Bytes → Config ⊎ Bytes) where
  unfoldable pub load : Bytes → Loaded
  load path =
      if extension path == some (codes "toml")
      then elim (read_to_string path) [
        | inl text ↦ decoded crypto (from_str text)
        | inr e ↦ err (io e)
      ]
      else err (validation (not_toml path))
