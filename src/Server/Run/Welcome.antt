-- ===== src/Server/Run/Welcome.antt =====
-- Who is let in by the first packet of a connection, in terms of the configuration.
use rusquitto.Base.{
  ℕ, ◌≤◌, ◌≡◌, ◌≢◌, ◌⊎◌, true, Option, none, some, [], ◌∷◌, ◌++◌, list_eq, length, All,
}
use rusquitto.Base.Text.{Bytes}
use rusquitto.Config.{UserConfig, Config}
use rusquitto.Config.Validate.{Crypto}
use rusquitto.Auth.{or_blank}
use rusquitto.Auth.Credentials.{AreBytes, user_named, Accepts}
use rusquitto.Broker.Shard.{ShardState}
use rusquitto.Server.Packets.{Login, Packet, connect}
use rusquitto.Server.Inbound.{Surroundings}
use rusquitto.Server.Connect.{TlsIdentity, no_certificate, verified, cn, password_of}
use rusquitto.Server.Run.{There}

-- At most 256 bytes, and no control character: no byte below 32, no 127, and no U+0080 to U+009F,
-- which UTF-8 writes as 194 and a byte from 128 to 159.
abbrev pub IsIdentifier : Bytes → Type 0
IsIdentifier id =
    (length id ≤ 256)
    × All (λ b. (32 ≤ b) × (b ≢ 127)) id
    × ((pre post : Bytes) (b : ℕ) → id ≡ pre ++ 194 ∷ b ∷ post → ¬ ((128 ≤ b) × (b ≤ 159)))

-- The client's certificate has been verified.
abbrev pub HasCertificate : TlsIdentity → Type 0
HasCertificate no_certificate = ⊥
HasCertificate verified = Unit
HasCertificate (cn name) = Unit

-- A client without a user name has a certificate, or the configuration allows anonymous clients;
-- one with a name has the password of the user of that name. An empty name counts as none for the
-- certificate only.
abbrev pub MayEnter : Crypto → Config → TlsIdentity → Option Login → Type 0
MayEnter crypto cfg identity none = HasCertificate identity ⊎ (cfg.auth.allow_anonymous ≡ true)
MayEnter crypto cfg identity (some login) =
    ((login.username ≡ []) × HasCertificate identity)
    ⊎ ((u : UserConfig) × (user_named login.username cfg.auth.users ≡ some u)
        × Accepts crypto u login.password)

abbrev pub IsWelcome : Crypto → Config → TlsIdentity → Packet → Type 0
IsWelcome crypto cfg identity (connect p) =
    IsIdentifier p.client_id × MayEnter crypto cfg identity p.login
IsWelcome crypto cfg identity packet = ⊥

-- The password is made of bytes.
abbrev pub IsTyped : Packet → Type 0
IsTyped (connect p) = AreBytes (or_blank (password_of p.login))
IsTyped packet = Unit

module _ (env : Surroundings) (assigned : ℕ → ℕ → Bytes) (meanwhile : ShardState → ShardState)
    (now : ℕ) where
  abbrev Here : Type 0
  Here = There env assigned meanwhile now
