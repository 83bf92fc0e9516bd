-- ===== src/Auth.antt =====
-- src/auth.rs: credentials, their check, and the topic access lists. What comes from the `argon2`
-- and `sha2` crates is the parameter `crypto`. The verifications of an unknown user, whose results
-- the code throws away, are left out: only the time that they take differs.
mod Bits
pub mod Credentials
pub mod Access
pub mod Tests
use Prim.Native.Nat.{bit_xor, bit_or}
use rusquitto.Base.{
  ℕ, suc, ◌+◌, ◌-◌, ◌/◌, ◌%◌, Bool, true, false, not, ◌&&◌, Option, none, some, List, [], ◌∷◌, ◌++◌,
  ◌==◌, nat_eq, list_eq, if◌then◌else◌, ltb, leb, length, any, is_empty,
}
use rusquitto.Base.Text.{Bytes, codes}
use rusquitto.Base.Assoc.{Assoc, get, insert}
use rusquitto.Topics.Filter.{filter_matches, filter_subsumes}
use rusquitto.Config.{UserConfig, AuthConfig}
use rusquitto.Config.Validate.{Crypto, is_argon2}

-- The loop of `ct_eq` over the pairs of bytes.
unfoldable pub diff_loop : ℕ → Bytes → Bytes → ℕ
diff_loop diff [] ys = diff
diff_loop diff (x ∷ xs) [] = diff
diff_loop diff (x ∷ xs) (y ∷ ys) = diff_loop (bit_or diff (bit_xor x y)) xs ys

unfoldable pub ct_eq : Bytes → Bytes → Bool
ct_eq a b = if not (length a == length b) then false else diff_loop 0 a b == 0

-- A digit of `{byte:02x}`.
abbrev pub hex_digit : ℕ → ℕ
hex_digit n = if ltb n 10 then b'0' + n else b'a' + (n - 10)

unfoldable pub hex : Bytes → Bytes
hex [] = []
hex (b ∷ bs) = hex_digit (b / 16) ∷ hex_digit (b % 16) ∷ hex bs

abbrev pub lower : ℕ → ℕ
lower b = if leb b'A' b && leb b b'Z' then b + 32 else b

unfoldable pub to_ascii_lowercase : Bytes → Bytes
to_ascii_lowercase [] = []
to_ascii_lowercase (b ∷ bs) = lower b ∷ to_ascii_lowercase bs

pub data AuthResult : Type 0 where
  granted bad_user_name_password not_authorized : AuthResult

unfoldable pub acl_allows_publish : Option (List Bytes) → Bytes → Bool
acl_allows_publish none topic = true
acl_allows_publish (some rules) topic = any (λ rule. filter_matches rule topic) rules

unfoldable pub acl_allows_subscribe : Option (List Bytes) → Bytes → Bool
acl_allows_subscribe none filter = true
acl_allows_subscribe (some rules) filter = any (λ rule. filter_subsumes rule filter) rules

abbrev pub or_blank : Option Bytes → Bytes
or_blank none = []
or_blank (some s) = s

module _ (crypto : Crypto) where
  pub data Credential : Type 0 where
    plain sha256 : Bytes → Credential
    argon2 : crypto.PasswordHash → Credential

  pub record UserEntry : Type 0 where
    pub credential : Credential
    pub publish_acl : Option (List Bytes)
    pub subscribe_acl : Option (List Bytes)

  pub record Authenticator : Type 0 where
    pub allow_anonymous : Bool
    pub users : Assoc Bytes UserEntry
    pub anonymous_publish_acl : Option (List Bytes)
    pub anonymous_subscribe_acl : Option (List Bytes)
    pub argon2_dummy : Option crypto.PasswordHash

  unfoldable pub sha256_hex : Bytes → Bytes
  sha256_hex s = hex (crypto.sha256 s)

  unfoldable pub verify : Credential → Bytes → Bool
  verify (plain expected) provided = ct_eq expected provided
  verify (sha256 hash) provided = ct_eq (sha256_hex provided) hash
  verify (argon2 phc) provided = crypto.verify_password provided phc

  abbrev pub argon2_of : Option crypto.PasswordHash → Option Credential
  argon2_of none = none
  argon2_of (some phc) = some (argon2 phc)

  -- `none` stands for the panic on a PHC string that does not parse.
  unfoldable pub credential_from : Option Bytes → Option Bytes → Option Credential
  credential_from password none = some (plain (or_blank password))
  credential_from password (some hash) =
      if is_argon2 hash
      then argon2_of (crypto.parse_phc hash)
      else some (sha256 (to_ascii_lowercase hash))

  abbrev pub credential_of : UserConfig → Option Credential
  credential_of u = credential_from u.password u.password_hash

  abbrev pub entry_of : UserConfig → Credential → UserEntry
  entry_of u c = record { credential = c; publish_acl = u.publish; subscribe_acl = u.subscribe }

  -- `collect` into a map: a later user with the same name replaces an earlier one.
  unfoldable pub collect : Assoc Bytes UserEntry → List UserConfig → Option (Assoc Bytes UserEntry)
  collect m [] = some m
  collect m (u ∷ us) = elim (credential_of u) [
    | none ↦ none
    | some c ↦ collect (insert u.username (entry_of u c) m) us
  ]

  abbrev pub argon2_in : Credential → Option crypto.PasswordHash
  argon2_in (plain s) = none
  argon2_in (sha256 s) = none
  argon2_in (argon2 phc) = some phc

  abbrev pub first_argon2 : Assoc Bytes UserEntry → Option crypto.PasswordHash
  first_argon2 [] = none
  first_argon2 ((name, entry) ∷ m) = elim (argon2_in entry.credential) [
    | none ↦ first_argon2 m
    | some phc ↦ some phc
  ]

  unfoldable pub from_config : AuthConfig → Option Authenticator
  from_config config = elim (collect [] config.users) [
    | none ↦ none
    | some users ↦ some (record {
      allow_anonymous = config.allow_anonymous;
      users = users;
      anonymous_publish_acl = config.anonymous_publish;
      anonymous_subscribe_acl = config.anonymous_subscribe;
      argon2_dummy = first_argon2 users;
    })
  ]

  unfoldable pub is_open : Authenticator → Bool
  is_open a = a.allow_anonymous && is_empty a.users

  unfoldable pub check : Authenticator → Option Bytes → Option Bytes → AuthResult
  check a (some name) password = elim (get name a.users) [
    | none ↦ bad_user_name_password
    | some entry ↦
        if verify entry.credential (or_blank password) then granted else bad_user_name_password
  ]
  check a none password = if a.allow_anonymous then granted else not_authorized

  -- `username.and_then(|u| self.users.get(u))`
  abbrev pub known : Authenticator → Option Bytes → Option UserEntry
  known a none = none
  known a (some name) = get name a.users

  unfoldable pub authorize_publish : Authenticator → Option Bytes → Bytes → Bool
  authorize_publish a username topic = elim (known a username) [
    | some entry ↦ acl_allows_publish entry.publish_acl topic
    | none ↦ acl_allows_publish a.anonymous_publish_acl topic
  ]

  unfoldable pub authorize_subscribe : Authenticator → Option Bytes → Bytes → Bool
  authorize_subscribe a username filter = elim (known a username) [
    | some entry ↦ acl_allows_subscribe entry.subscribe_acl filter
    | none ↦ acl_allows_subscribe a.anonymous_subscribe_acl filter
  ]
