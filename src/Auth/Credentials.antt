-- ===== src/Auth/Credentials.antt =====
-- `ct_eq` is equality, and what `check` grants, in terms of the configuration.
use Prim.Native.Nat.{bit_xor, bit_or}
use rusquitto.Base.{
  ℕ, ◌<◌, ◌≡◌, ◌≢◌, ◌↔◌, inl, inr, refl, subst, ap, ap₂, true, false, Option, none, some, List, [],
  ◌∷◌, map, ◌==◌, nat_eq, list_eq, if◌then◌else◌, length, All, arith, Bool-cases, Option-cases,
}
use rusquitto.Base.Text.{Bytes, bytes_eq}
use rusquitto.Base.Assoc.{Assoc, get, insert, get-insert}
use rusquitto.Config.{Config, UserConfig}
use rusquitto.Config.Validate.{Crypto, is_argon2, usable, validate}
use rusquitto.Auth.{
  diff_loop, ct_eq, hex, to_ascii_lowercase, Credential, plain, sha256, argon2, UserEntry,
  credential_from, credential_of, entry_of, collect, from_config, or_blank,
}
use rusquitto.Config.Laws.{validate-IsAccepted, IsUser, IsCredential, AreDistinct, name_of}
use rusquitto.Auth.Bits.{xor-byte, or-byte, or_zero, xor_zero}

abbrev pub AreBytes : Bytes → Type 0
AreBytes = All (λ b. b < 256)

diff_loop_iff :
    (d : ℕ) (a b : Bytes)
    → d < 256
    → AreBytes a
    → AreBytes b
    → length a ≡ length b
    → (diff_loop d a b ≡ 0) ↔ ((d ≡ 0) × (a ≡ b))
unfolding diff_loop
diff_loop_iff d [] [] h p q e = (λ z. (z, refl), λ (z, _). z)
diff_loop_iff d [] (y ∷ ys) h p q e = absurd (ground arith)
diff_loop_iff d (x ∷ xs) [] h p q e = absurd (ground arith)
diff_loop_iff d (x ∷ xs) (y ∷ ys) h (px, ps) (qy, qs) e =
    let rec =
      diff_loop_iff (bit_or d (bit_xor x y)) xs ys (or-byte d _ h (xor-byte x y px qy)) ps qs
        (omega arith) in
    let o = or_zero d (bit_xor x y) h (xor-byte x y px qy) in
    let z = xor_zero x y px qy in
    (
      λ r. let (n, t) = rec.0 r in let (n', m) = o.0 n in (n', ap₂ ◌∷◌ (z.0 m) t),
      λ (n, t). rec.1 (o.1 (n, z.1 (ground (arith, t))), ground (arith, t)),
    )

-- The comparison without early exit answers true exactly for equal byte strings.
pub ct_eq_iff : (a b : Bytes) → AreBytes a → AreBytes b → (ct_eq a b ≡ true) ↔ (a ≡ b)
unfolding ct_eq
ct_eq_iff a b p q = elim (Bool-cases (length a == length b)) [
  | inr e ↦ (
    λ h. absurd (ground arith),
    λ h. absurd (ground (arith, nat_eq.beq_iff (length a) (length b), ap length h)),
  )
  | inl e ↦
      let d =
        diff_loop_iff 0 a b (omega arith) p q
          (ground (arith, nat_eq.beq_iff (length a) (length b))) in
      let z = nat_eq.beq_iff (diff_loop 0 a b) 0 in
      (λ h. (d.0 (z.0 (ground arith))).1, λ h. rw e (z.1 (d.1 (refl, h))))
]

module _ (crypto : Crypto) where
  -- The password that a user's entry in the configuration accepts.
  abbrev pub AcceptsHash : Bytes → Bytes → Type 0
  AcceptsHash hash provided = elim (is_argon2 hash) [
    | true ↦
        (phc : crypto.PasswordHash) × (crypto.parse_phc hash ≡ some phc)
        × (crypto.verify_password provided phc ≡ true)
    | false ↦ hex (crypto.sha256 provided) ≡ to_ascii_lowercase hash
  ]

  abbrev pub AcceptsWith : Option Bytes → Option Bytes → Bytes → Type 0
  AcceptsWith password none provided = or_blank password ≡ provided
  AcceptsWith password (some hash) provided = AcceptsHash hash provided

  abbrev pub Accepts : UserConfig → Bytes → Type 0
  Accepts u = AcceptsWith u.password u.password_hash

  -- Every digest is made of bytes.
  abbrev pub Digests : Type 0
  Digests = (s : Bytes) → AreBytes (crypto.sha256 s)

-- The texts of an entry are made of bytes.
abbrev pub IsText : UserConfig → Type 0
IsText u = AreBytes (or_blank u.password) × AreBytes (or_blank u.password_hash)

-- The first user with a name.
abbrev pub user_named : Bytes → List UserConfig → Option UserConfig
user_named name [] = none
user_named name (u ∷ us) = if u.username == name then some u else user_named name us

user_named-none :
    (name : Bytes) (us : List UserConfig)
    → All (λ n. name ≢ n) (map name_of us)
    → user_named name us ≡ none
user_named-none name [] h = refl
user_named-none name (u ∷ us) (h, hs) =
    ground (arith, bytes_eq.beq_iff u.username name, user_named-none name us hs)

module _ (crypto : Crypto) where
  abbrev entry_for : UserConfig → Option (UserEntry crypto)
  entry_for u = elim (credential_of crypto u) [ none ↦ none | some c ↦ some (entry_of crypto u c) ]

  abbrev entry_or : Option (UserEntry crypto) → Option UserConfig → Option (UserEntry crypto)
  entry_or e none = e
  entry_or e (some u) = entry_for u

  -- A user of a valid configuration has a credential.
  credential_some :
      (p h : Option Bytes)
      → IsCredential crypto p h
      → (c : Credential crypto) × (credential_from crypto p h ≡ some c)
  unfolding credential_from usable
  credential_some none none k = absurd k
  credential_some (some p) none k = (plain p, refl)
  credential_some (some p) (some h) k = absurd k
  credential_some none (some h) (inr (e, l, x)) = (sha256 (to_ascii_lowercase h), rw e refl)
  credential_some none (some h) (inl (e, k)) = elim (Option-cases (crypto.parse_phc h)) [
    | inl z ↦ absurd (ground arith)
    | inr (phc, z) ↦ (argon2 phc, rw (e, z) refl)
  ]

  -- Collecting the users of a valid configuration never fails, and each name has the entry of the
  -- user with that name.
  collect_lem :
      (m : Assoc Bytes (UserEntry crypto)) (us : List UserConfig)
      → All (IsUser crypto) us
      → AreDistinct (map name_of us)
      → (m' : Assoc Bytes (UserEntry crypto)) × (collect crypto m us ≡ some m')
        × ((name : Bytes) → get name m' ≡ entry_or (get name m) (user_named name us))
  unfolding collect
  collect_lem m [] h d = (m, refl, λ name. refl)
  collect_lem m (u ∷ us) ((n, k), ks) (d, ds) =
      let (c, e) = credential_some u.password u.password_hash k in
      let (m', f, g) = collect_lem (insert u.username (entry_of crypto u c) m) us ks ds in
      (
        m',
        rw (collect, e) f,
        λ name.
            let i = get-insert u.username name (entry_of crypto u c) m in
            elim (Bool-cases (u.username == name)) [
              | inl b ↦
                  let others = user_named-none name us (
                    subst (λ x. All (λ y. x ≢ y) (map name_of us))
                      ((bytes_eq.beq_iff u.username name).0 b) d) in
                  ground (arith, g name, others, i, e)
              | inr b ↦ ground (arith, g name, i)
            ],
      )

  -- Building the authenticator of a configuration that `validate` accepts never panics: each PHC
  -- string parses.
  pub from_config-validate :
      (c : Config) → validate crypto c ≡ none → from_config crypto c.auth ≢ none
  unfolding from_config
  from_config-validate c v h =
      let (s, t, p, r, l, k, ks, d) = (validate-IsAccepted crypto c).0 v in
      let (m, e, g) = collect_lem [] c.auth.users ks d in ground arith
