-- ===== src/Config/Laws.antt =====
-- `validate` clause by clause, and the number of shards.
use rusquitto.Base.{
  ℕ, zero, suc, ◌≤◌, ◌≡◌, ◌≢◌, ◌↔◌, ◌⊎◌, inl, inr, refl, true, false, not, Option, none, some, List,
  [], ◌∷◌, map, nat_eq, list_eq, is_empty, length, All, arith, Bool-cases, Option-cases, Eq,
}
use rusquitto.Base.Text.{Bytes}
use rusquitto.Base.Assoc.{Assoc, get, insert, get-insert}
use rusquitto.Config.{
  ℤ, pos, negsuc, ServerConfig, TlsConfig, RuntimeConfig, LimitsConfig, ParkingConfig,
  PersistenceConfig, UserConfig, SysConfig, Config, resolved_shards,
}
use rusquitto.Config.Validate.{
  Crypto, Listener, Invalid, or_else, not_positive, is_none, is_zero_cores, validate_server,
  validate_tls, active_ports, validate_ports, validate_runtime, validate_limits, validate_upkeep,
  is_hexdigit, all, is_argon2, usable, validate_hash, validate_user, validate_users, validate, same,
}

abbrev pub IsPositive : ℤ → Type 0
IsPositive (pos n) = n ≢ 0
IsPositive (negsuc n) = ⊥

abbrev pub IsServer : ServerConfig → Type 0
IsServer s =
    (s.port ≢ 0) × (s.websocket ≡ true → s.websocket_port ≢ 0) × IsPositive s.listen_backlog

abbrev pub IsTls : TlsConfig → Type 0
IsTls t =
    t.enabled ≡ true
    → (t.cert_file ≢ none)
      × (t.key_file ≢ none)
      × (t.require_client_cert ≡ true → t.client_ca_file ≢ none)
      × (t.port ≢ 0)
      × (t.websocket ≡ true → t.websocket_port ≢ 0)

abbrev pub IsRuntime : RuntimeConfig → Type 0
IsRuntime r = (r.cores ≢ some 0) × (r.mesh_capacity ≢ 0) × (64 ≤ r.io_memory_kib)

abbrev pub IsUpkeep : ParkingConfig → PersistenceConfig → SysConfig → Type 0
IsUpkeep p q s =
    (p.enabled ≡ true → p.idle_grace_secs ≢ 0)
    × (q.enabled ≡ true → q.retained_file ≢ [])
    × (s.enabled ≡ true → s.interval ≢ 0)

-- No two elements are equal.
abbrev pub AreDistinct : {A : Type 0} → List A → Type 0
AreDistinct [] = Unit
AreDistinct (x ∷ xs) = All (λ y. x ≢ y) xs × AreDistinct xs

-- A plain password, or a hash in one of the two forms.
abbrev pub IsHash : Crypto → Bytes → Type 0
IsHash crypto hash =
    ((is_argon2 hash ≡ true) × (usable crypto hash ≡ true))
    ⊎ ((is_argon2 hash ≡ false) × (length hash ≡ 64) × (all is_hexdigit hash ≡ true))

abbrev pub IsCredential : Crypto → Option Bytes → Option Bytes → Type 0
IsCredential crypto none none = ⊥
IsCredential crypto (some p) none = Unit
IsCredential crypto none (some hash) = IsHash crypto hash
IsCredential crypto (some p) (some hash) = ⊥

abbrev pub IsUser : Crypto → UserConfig → Type 0
IsUser crypto u = (u.username ≢ []) × IsCredential crypto u.password u.password_hash

abbrev pub port_of : Listener × ℕ → ℕ
port_of (name, port) = port

abbrev pub name_of : UserConfig → Bytes
name_of u = u.username

abbrev pub IsAccepted : Crypto → Config → Type 0
IsAccepted crypto c =
    IsServer c.server
    × IsTls c.tls
    × AreDistinct (map port_of (active_ports c.server c.tls))
    × IsRuntime c.runtime
    × ((c.limits.max_qos ≤ 2) × (c.limits.max_payload_size ≢ 0))
    × IsUpkeep c.parking c.persistence c.sys
    × All (IsUser crypto) c.auth.users
    × AreDistinct (map name_of c.auth.users)

or_else-none : (x y : Option Invalid) → (or_else x y ≡ none) ↔ ((x ≡ none) × (y ≡ none))
or_else-none none y = ground arith
or_else-none (some e) y = ground arith

not_positive_iff : (z : ℤ) → (not_positive z ≡ false) ↔ IsPositive z
not_positive_iff (pos zero) = (λ h. ground arith, λ h. absurd (h refl))
not_positive_iff (pos (suc n)) = (λ h e. omega arith, λ h. refl)
not_positive_iff (negsuc n) = (λ h. ground arith, λ h. absurd h)

pub is_none_iff : (x : Option Bytes) → (is_none x ≡ false) ↔ (x ≢ none)
is_none_iff none = (λ h. ground arith, λ h. absurd (h refl))
is_none_iff (some x) = (λ h e. ground arith, λ h. refl)

validate_server_iff : (s : ServerConfig) → (validate_server s ≡ none) ↔ IsServer s
unfolding validate_server
validate_server_iff s =
    let positive = not_positive_iff s.listen_backlog in
    (
      λ h. (ground arith, λ w. ground arith, positive.0 (ground arith)),
      λ (p, w, b). ground (arith, positive.1 b),
    )

validate_tls_iff : (t : TlsConfig) → (validate_tls t ≡ none) ↔ IsTls t
unfolding validate_tls
validate_tls_iff t =
    let cert = is_none_iff t.cert_file in
    let key = is_none_iff t.key_file in
    let ca = is_none_iff t.client_ca_file in
    (
      λ h e. (
        cert.0 (ground arith),
        key.0 (ground arith),
        λ r. ca.0 (ground arith),
        ground arith,
        λ w. ground arith,
      ),
      λ f. elim (Bool-cases t.enabled) [
        | inr e ↦ ground arith
        | inl e ↦
            let (a, b, c, d, w) = f e in
            ground (arith, cert.1 a, key.1 b, λ (r : t.require_client_cert ≡ true). ca.1 (c r))
      ],
    )

validate_runtime_iff : (r : RuntimeConfig) → (validate_runtime r ≡ none) ↔ IsRuntime r
unfolding validate_runtime
validate_runtime_iff r = (
  λ h. (cores r.cores (ground arith), ground arith, ground arith),
  λ (a, b, c). ground (arith, cores_ne r.cores a),
)
  where
    cores : (o : Option ℕ) → is_zero_cores o ≡ false → o ≢ some 0
    cores none h = ground arith
    cores (some n) h = ground (arith, nat_eq.beq_iff n 0)

    cores_ne : (o : Option ℕ) → o ≢ some 0 → is_zero_cores o ≡ false
    cores_ne none h = refl
    cores_ne (some n) h = ground (arith, nat_eq.beq_iff n 0)

validate_upkeep_iff :
    (p : ParkingConfig) (q : PersistenceConfig) (s : SysConfig)
    → (validate_upkeep p q s ≡ none) ↔ IsUpkeep p q s
unfolding validate_upkeep
validate_upkeep_iff p q s = (
  λ h. (λ e. ground arith, λ e. nonempty q.retained_file (ground arith), λ e. ground arith),
  λ (a, b, c). ground (arith, λ (e : q.enabled ≡ true). nonempty_of q.retained_file (b e)),
)
  where
    nonempty : (f : Bytes) → is_empty f ≡ false → f ≢ []
    nonempty [] h = ground arith
    nonempty (x ∷ f) h = ground arith

    nonempty_of : (f : Bytes) → f ≢ [] → is_empty f ≡ false
    nonempty_of [] h = absurd (h refl)
    nonempty_of (x ∷ f) h = refl

validate_limits_iff :
    (l : LimitsConfig) → (validate_limits l ≡ none) ↔ ((l.max_qos ≤ 2) × (l.max_payload_size ≢ 0))
unfolding validate_limits
validate_limits_iff l = (λ h. (ground arith, ground arith), λ (a, b). ground arith)

-- The keys that a map does not have yet.
module _ {K V : Type 0} ⦃eq : Eq K⦄ where
  abbrev IsFresh : Assoc K V → List K → Type 0
  IsFresh seen keys = All (λ k. get k seen ≡ none) keys

  IsFresh-insert :
      (k : K) (v : V) (seen : Assoc K V) (keys : List K)
      → IsFresh (insert k v seen) keys ↔ (IsFresh seen keys × All (λ j. k ≢ j) keys)
  IsFresh-insert k v seen [] = (λ h. (tt, tt), λ h. tt)
  IsFresh-insert k v seen (j ∷ keys) =
      let g = get-insert k j v seen in
      let rec = IsFresh-insert k v seen keys in
      let b = eq.beq_iff k j in
      (
        λ (h, hs). let (a, c) = rec.0 hs in ((ground (arith, g, b), a), (ground (arith, g, b), c)),
        λ ((h, hs), (n, ns)). (ground (arith, g, b), rec.1 (hs, ns)),
      )

fresh_nil : (K V : Type 0) ⦃eq : Eq K⦄ (keys : List K) → All (λ k. get {V = V} k [] ≡ none) keys
fresh_nil K V [] = tt
fresh_nil K V (k ∷ keys) = (refl, fresh_nil K V keys)

validate_ports_iff :
    (seen : Assoc ℕ Listener) (ports : List (Listener × ℕ))
    → (validate_ports seen ports ≡ none)
      ↔ (IsFresh seen (map port_of ports) × AreDistinct (map port_of ports))
unfolding validate_ports
validate_ports_iff seen [] = (λ h. (tt, tt), λ h. refl)
validate_ports_iff seen ((name, port) ∷ ports) =
    let rec = validate_ports_iff (insert port name seen) ports in
    let fresh = IsFresh-insert port name seen (map port_of ports) in
    (
      λ h. elim (Option-cases (get port seen)) [
        | inr (other, e) ↦ absurd (ground arith)
        | inl e ↦ let (f, d) = rec.0 (ground arith) in let (f', n) = fresh.0 f in ((e, f'), (n, d))
      ],
      λ ((e, f), (n, d)). rw (validate_ports, e) (rec.1 (fresh.1 (f, n), d)),
    )

validate_hash-IsHash :
    (crypto : Crypto) (name hash : Bytes)
    → (validate_hash crypto name (some hash) ≡ none) ↔ IsHash crypto hash
validate_hash-IsHash crypto name hash = elim (Bool-cases (is_argon2 hash)) [
  | inl e ↦ (λ h. inl (e, ground arith), λ h. ground arith)
  | inr e ↦ (
    λ h. inr (e, ground (arith, nat_eq.beq_iff (length hash) 64), ground arith),
    λ h. ground (arith, nat_eq.beq_iff (length hash) 64),
  )
]

validate_hash-IsCredential :
    (crypto : Crypto) (name : Bytes) (p h : Option Bytes)
    → ((same (not (is_none p)) (not (is_none h)) ≡ false) × (validate_hash crypto name h ≡ none))
      ↔ IsCredential crypto p h
validate_hash-IsCredential crypto name none none = (λ (a, b). ground arith, λ h. absurd h)
validate_hash-IsCredential crypto name (some p) none = (λ h. tt, λ h. (refl, refl))
validate_hash-IsCredential crypto name none (some h) =
    let rec = validate_hash-IsHash crypto name h in (λ (a, b). rec.0 b, λ k. (refl, rec.1 k))
validate_hash-IsCredential crypto name (some p) (some h) = (λ (a, b). ground arith, λ h. absurd h)

empty_iff : (s : Bytes) → (is_empty s ≡ false) ↔ (s ≢ [])
empty_iff [] = (λ h. ground arith, λ h. absurd (h refl))
empty_iff (x ∷ s) = (λ h. ground arith, λ h. refl)

abbrev Seen : Type 0
Seen = Assoc Bytes (Unit {0})

validate_user_iff :
    (crypto : Crypto) (seen : Seen) (u : UserConfig)
    → (validate_user crypto seen u ≡ none) ↔ ((get u.username seen ≡ none) × IsUser crypto u)
unfolding validate_user
validate_user_iff crypto seen u =
    let e = empty_iff u.username in
    let c = validate_hash-IsCredential crypto u.username u.password u.password_hash in
    (
      λ h. (ground arith, (e.0 (ground arith), c.0 (ground arith, ground arith))),
      λ (f, (n, k)). let (a, b) = c.1 k in ground (arith, e.1 n),
    )

validate_users_iff :
    (crypto : Crypto) (seen : Seen) (us : List UserConfig)
    → (validate_users crypto seen us ≡ none)
      ↔ (IsFresh seen (map name_of us) × All (IsUser crypto) us × AreDistinct (map name_of us))
unfolding validate_users
validate_users_iff crypto seen [] = (λ h. (tt, tt, tt), λ h. refl)
validate_users_iff crypto seen (u ∷ us) =
    let first = validate_user_iff crypto seen u in
    let rec = validate_users_iff crypto (insert u.username tt seen) us in
    let fresh = IsFresh-insert u.username tt seen (map name_of us) in
    let both =
      or_else-none (validate_user crypto seen u)
        (validate_users crypto (insert u.username tt seen) us) in
    (
      λ h.
          let (h1, h2) = both.0 h in
          let (e, k) = first.0 h1 in
          let (f, ks, d) = rec.0 h2 in let (f', n) = fresh.0 f in ((e, f'), (k, ks), (n, d)),
      λ ((e, f), (k, ks), (n, d)). both.1 (first.1 (e, k), rec.1 (fresh.1 (f, n), ks, d)),
    )

-- `validate` clause by clause.
pub validate-IsAccepted :
    (crypto : Crypto) (c : Config) → (validate crypto c ≡ none) ↔ IsAccepted crypto c
unfolding validate
validate-IsAccepted crypto c =
    let ports = validate_ports_iff [] (active_ports c.server c.tls) in
    let users = validate_users_iff crypto [] c.auth.users in
    let server = validate_server_iff c.server in
    let tls = validate_tls_iff c.tls in
    let runtime = validate_runtime_iff c.runtime in
    let limits = validate_limits_iff c.limits in
    let upkeep = validate_upkeep_iff c.parking c.persistence c.sys in
    (
      λ h.
          let (f, ks, d) = users.0 (ground arith) in
          (
            server.0 (ground arith),
            tls.0 (ground arith),
            (ports.0 (ground arith)).1,
            runtime.0 (ground arith),
            limits.0 (ground arith),
            upkeep.0 (ground arith),
            ks,
            d,
          ),
      λ (a, b, p, r, l, k, ks, d). ground (
        arith,
        server.1 a,
        tls.1 b,
        ports.1 (fresh_nil ℕ Listener (map port_of (active_ports c.server c.tls)), p),
        runtime.1 r,
        limits.1 l,
        upkeep.1 k,
        users.1 (fresh_nil Bytes (Unit {0}) (map name_of c.auth.users), ks, d),
      ),
    )

-- The number of shards is at least one and at most the number of online cores, or one where none
-- is reported; a number of cores in that range is taken as it is, and by default all cores are.
pub resolved_shards_lem :
    (online : ℕ) (c : Config)
    → (1 ≤ resolved_shards online c)
      × (1 ≤ online → resolved_shards online c ≤ online)
      × (online ≡ 0 → resolved_shards online c ≡ 1)
      × (c.runtime.cores ≡ none → 1 ≤ online → resolved_shards online c ≡ online)
      × ((n : ℕ) → c.runtime.cores ≡ some n → 1 ≤ n → n ≤ online → resolved_shards online c ≡ n)
unfolding resolved_shards
resolved_shards_lem online c = (
  ground arith,
  λ h. ground arith,
  λ h. ground arith,
  λ e h. ground arith,
  λ n e a b. ground arith,
)
