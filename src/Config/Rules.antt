-- ===== src/Config/Rules.antt =====
-- The rules of a configuration, in their own terms, and that `validate` decides them.
use rusquitto.Base.{
  ℕ, ◌≤◌, ◌≡◌, ◌≢◌, ◌⊎◌, Bool, true, ◌&&◌, Option, none, some, List, [], ◌∷◌, ◌++◌, map, nat_eq,
  list_eq, length, All,
}
use rusquitto.Base.Text.{Bytes, codes}
use rusquitto.Config.{ServerConfig, TlsConfig, UserConfig, Config, then_some, websocket_port}
use rusquitto.Config.Validate.{
  Crypto, Listener, named, server_port, server_websocket_port, tls_port, tls_websocket_port,
}
use rusquitto.Config.Laws.{IsServer, IsTls, IsRuntime, IsUpkeep, AreDistinct, name_of}

-- The ports of two listeners that are both open differ: MQTT, MQTT over WebSocket, MQTT over TLS,
-- and MQTT over WebSocket over TLS.
abbrev pub ArePorts : ServerConfig → TlsConfig → Type 0
ArePorts s t =
    (s.websocket ≡ true → s.port ≢ s.websocket_port)
    × (t.enabled ≡ true → s.port ≢ t.port)
    × (t.enabled ≡ true → t.websocket ≡ true → s.port ≢ t.websocket_port)
    × (s.websocket ≡ true → t.enabled ≡ true → s.websocket_port ≢ t.port)
    × (s.websocket ≡ true
        → t.enabled ≡ true
        → t.websocket ≡ true
        → s.websocket_port ≢ t.websocket_port)
    × (t.enabled ≡ true → t.websocket ≡ true → t.port ≢ t.websocket_port)

-- The text starts as an Argon2 PHC string does.
abbrev pub IsPhc : Bytes → Type 0
IsPhc hash = (rest : Bytes) × (hash ≡ codes "$argon2" ++ rest)

-- The string parses, with its salt and its output.
abbrev pub IsUsable : Crypto → Bytes → Type 0
IsUsable crypto hash =
    (h : crypto.PasswordHash) × (crypto.parse_phc hash ≡ some h)
    × (crypto.salt h ≢ none)
    × (crypto.output h ≢ none)

-- One of `0` to `9`, `a` to `f` and `A` to `F`.
abbrev pub IsHexDigit : ℕ → Type 0
IsHexDigit b = ((48 ≤ b) × (b ≤ 57)) ⊎ ((97 ≤ b) × (b ≤ 102)) ⊎ ((65 ≤ b) × (b ≤ 70))

abbrev pub IsPasswordHash : Crypto → Bytes → Type 0
IsPasswordHash crypto hash =
    (IsPhc hash × IsUsable crypto hash)
    ⊎ ((¬ IsPhc hash) × (length hash ≡ 64) × All IsHexDigit hash)

-- Exactly one of a password and a hash.
abbrev pub IsOneCredential : Crypto → Option Bytes → Option Bytes → Type 0
IsOneCredential crypto none none = ⊥
IsOneCredential crypto (some password) none = Unit
IsOneCredential crypto none (some hash) = IsPasswordHash crypto hash
IsOneCredential crypto (some password) (some hash) = ⊥

abbrev pub IsWellFormed : Crypto → UserConfig → Type 0
IsWellFormed crypto u = (u.username ≢ []) × IsOneCredential crypto u.password u.password_hash

abbrev pub IsValid : Crypto → Config → Type 0
IsValid crypto c =
    IsServer c.server
    × IsTls c.tls
    × ArePorts c.server c.tls
    × IsRuntime c.runtime
    × ((c.limits.max_qos ≤ 2) × (c.limits.max_payload_size ≢ 0))
    × IsUpkeep c.parking c.persistence c.sys
    × All (IsWellFormed crypto) c.auth.users
    × AreDistinct (map name_of c.auth.users)

-- The ports of the open listeners, by which of the three optional ones are open.
abbrev listeners : ℕ → Bool → ℕ → Bool → ℕ → Bool → ℕ → List (Listener × ℕ)
listeners p a x b y d z =
    (server_port, p)
    ∷ named server_websocket_port (then_some a x)
        (named tls_port (then_some b y) (named tls_websocket_port (then_some (b && d) z) []))
