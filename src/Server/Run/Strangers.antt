-- ===== src/Server/Run/Strangers.antt =====
-- A connection that has not been let in.
use rusquitto.Base.{
  ℕ, ◌≡◌, refl, sym, ◌∙◌, ap, subst, ◌⊎◌, inl, inr, Bool, true, false, not, ◌&&◌, ◌||◌, Option,
  none, some, List, nat_eq, list_eq, is_empty, arith, Bool-cases, Option-cases,
}
use rusquitto.Base.Text.{Bytes}
use rusquitto.Base.Assoc.{get}
use rusquitto.Auth.{AuthResult, granted, bad_user_name_password, not_authorized, check}
use rusquitto.Broker.Messages.{SessionSnapshot, Delivery}
use rusquitto.Broker.Shard.{next_assigned_id, Session, ShardState, owns, close_session}
use rusquitto.Server.Packets.{
  Connect, ConnectReturnCode, LastWill, Login, Packet, connect, conn_ack, Outcome, ok, err,
}
use rusquitto.Server.Inbound.{Surroundings, send}
use rusquitto.Server.Connect.{
  cert_grant, has_username, username_of, password_of, no_properties, reject_connect, identified,
  is_hostile, with_last_will, authenticated, negotiated, introduced, judged, handle_connect,
}
use rusquitto.Server.Run.{There, is_connect, dispatch, ordered, torn_down, snapshot_in}

abbrev pub is_err : Outcome → Bool
is_err ok = false
is_err (err e) = true

abbrev pub is_granted : AuthResult → Bool
is_granted granted = true
is_granted bad_user_name_password = false
is_granted not_authorized = false

abbrev pub is_given : Option (Option Bytes) → Bool
is_given none = false
is_given (some identity) = true

-- No session of the shard has the generation 0, which is that of a connection without a session.
abbrev pub IsNumbered : ShardState → Type 0
IsNumbered st = (c : Bytes) (s : Session) → get c st.sessions ≡ some s → owns 0 s ≡ false

close_session-other :
    (c : Bytes) (expiry now : ℕ) (x : SessionSnapshot) (pending : List Delivery) (st : ShardState)
    → IsNumbered st
    → close_session c 0 expiry now x pending st ≡ (st, false)
unfolding close_session
close_session-other c expiry now x pending st h = elim (Option-cases (get c st.sessions)) [
  | inl e ↦ simp (close_session, e) refl
  | inr (s, e) ↦ simp (close_session, e, h c s e) refl
]

is_connect-cases :
    (packet : Packet) → ((p : Connect) × (packet ≡ connect p)) ⊎ (is_connect packet ≡ false)
is_connect-cases (connect p) = inl (p, refl)
is_connect-cases packet = inr refl

module _ (env : Surroundings) (assigned : ℕ → ℕ → Bytes) (meanwhile : ShardState → ShardState)
    (now : ℕ) where
  abbrev Here : Type 0
  Here = There env assigned meanwhile now

  -- Nothing of the shard is another but the count of the identifiers it has assigned; nothing is
  -- forwarded, and the connection has no session and is not connected.
  abbrev pub IsApart : Here → Here → Type 0
  IsApart l l' =
      (l'.client.shard ≡ record l.client.shard { next_assigned = l'.client.shard.next_assigned })
      × (l'.client.forwarded ≡ l.client.forwarded)
      × (l'.session_generation ≡ l.session_generation)
      × (l'.connected ≡ l.connected)

  IsApart-trans : (a b c : Here) → IsApart a b → IsApart b c → IsApart a c
  IsApart-trans a b c (p, q, r, s) (p', q', r', s') = (
    p' ∙ ap (λ (st : ShardState). record st { next_assigned = c.client.shard.next_assigned }) p,
    q' ∙ q,
    r' ∙ r,
    s' ∙ s,
  )

  abbrev pub IsRefused : Here → Option (Here × Outcome) → Type 0
  IsRefused l none = ⊥
  IsRefused l (some (l', o)) = (is_err o ≡ true) × IsApart l l'

  -- The certificate grants a name, or the credentials are right.
  abbrev pub is_known : Option Login → Here → Bool
  is_known login l =
      is_given (cert_grant (has_username (username_of login)) l.tls_identity)
      || is_granted (check env.crypto l.client.auth (username_of login) (password_of login))

  abbrev pub is_welcome : Packet → Here → Bool
  is_welcome (connect p) l =
      (is_empty p.client_id || not (is_hostile env assigned meanwhile now p.client_id))
      && is_known p.login l
  is_welcome packet l = false

  reject_connect-IsRefused :
      (code : ConnectReturnCode) (l : Here)
      → IsRefused l (some (reject_connect env assigned meanwhile now code l))
  unfolding reject_connect send
  reject_connect-IsRefused code l =
      elim (Option-cases (env.encode (conn_ack code false no_properties))) [
        | inl e ↦ simp (reject_connect, send, e) (refl, (refl, refl, refl, refl))
        | inr (b, e) ↦ simp (reject_connect, send, e) (refl, (refl, refl, refl, refl))
      ]

  with_last_will-IsApart :
      (o : Option LastWill) (l : Here) → IsApart l (with_last_will env assigned meanwhile now o l)
  unfolding with_last_will
  with_last_will-IsApart none l = (refl, refl, refl, refl)
  with_last_will-IsApart (some w) l = (refl, refl, refl, refl)

  AuthResult-cases :
      (r : AuthResult) → (r ≡ granted) ⊎ (r ≡ bad_user_name_password) ⊎ (r ≡ not_authorized)
  AuthResult-cases granted = inl refl
  AuthResult-cases bad_user_name_password = inr (inl refl)
  AuthResult-cases not_authorized = inr (inr refl)

  authenticated-IsRefused :
      (p : Connect) (login : Option Login) (l : Here)
      → is_known login l ≡ false
      → IsRefused l
          (judged env assigned meanwhile now p l (authenticated env assigned meanwhile now login l))
  unfolding authenticated
  authenticated-IsRefused p login l h =
      elim (Option-cases (cert_grant (has_username (username_of login)) l.tls_identity)) [
        | inr (identity, e) ↦ absurd (ground (arith, ap is_given e))
        | inl e ↦
            elim (AuthResult-cases
              (check env.crypto l.client.auth (username_of login) (password_of login))) [
                | inl g ↦ absurd (ground (arith, ap is_granted g))
                | inr (inl g) ↦ simp (authenticated, e, g) (reject_connect-IsRefused _ l)
                | inr (inr g) ↦ simp (authenticated, e, g) (reject_connect-IsRefused _ l)
              ]
      ]

  IsRefused-trans :
      (a b : Here) (o : Option (Here × Outcome)) → IsApart a b → IsRefused b o → IsRefused a o
  IsRefused-trans a b none h r = r
  IsRefused-trans a b (some (c, o)) h (r, q) = (r, IsApart-trans a b c h q)

  is_known-with_last_will :
      (login : Option Login) (o : Option LastWill) (l : Here)
      → is_known login (with_last_will env assigned meanwhile now o l) ≡ is_known login l
  unfolding with_last_will
  is_known-with_last_will login none l = refl
  is_known-with_last_will login (some w) l = refl

  willed-IsRefused :
      (p : Connect) (a l : Here)
      → IsApart a l
      → is_known p.login l ≡ false
      → IsRefused a (introduced env assigned meanwhile now p a (some l))
  willed-IsRefused p a l h k =
      let l1 = with_last_will env assigned meanwhile now p.last_will l in
      IsRefused-trans a l1 _ (IsApart-trans a l l1 h (with_last_will-IsApart p.last_will l))
        (authenticated-IsRefused p p.login l1 (is_known-with_last_will p.login p.last_will l ∙ k))

  introduced-IsRefused :
      (p : Connect) (l : Here)
      → is_welcome (connect p) l ≡ false
      → IsRefused l (
          introduced env assigned meanwhile now p l
            (identified env assigned meanwhile now p.client_id l))
  unfolding identified next_assigned_id
  introduced-IsRefused p l h = elim (Bool-cases (is_empty p.client_id)) [
    | inl e ↦ simp (identified, e) (willed-IsRefused p l _ (refl, refl, refl, refl) (ground arith))
    | inr e ↦ elim (Bool-cases (is_hostile env assigned meanwhile now p.client_id)) [
      | inl b ↦ simp (identified, e, b) (reject_connect-IsRefused _ l)
      | inr b ↦
          simp (identified, e, b) (willed-IsRefused p l _ (refl, refl, refl, refl) (ground arith))
    ]
  ]

  handle_connect-IsRefused :
      (p : Connect) (l : Here)
      → is_welcome (connect p) l ≡ false
      → IsRefused l (handle_connect env assigned meanwhile now p l)
  unfolding handle_connect negotiated
  handle_connect-IsRefused p l h =
      IsRefused-trans l (negotiated env assigned meanwhile now p l) _ (refl, refl, refl, refl)
        (introduced-IsRefused p (negotiated env assigned meanwhile now p l) h)

  closed_other :
      (l : Here)
      → l.session_generation ≡ 0
      → IsNumbered l.client.shard
      → close_session l.client.client_id l.session_generation l.session_expiry now
          (snapshot_in env assigned meanwhile now l.client)
          l.client.conn.pending_outbound
          l.client.shard
        ≡ (l.client.shard, false)
  closed_other l g h =
      subst
        (λ (n : ℕ).
          close_session l.client.client_id n l.session_expiry now
            (snapshot_in env assigned meanwhile now l.client) l.client.conn.pending_outbound
            l.client.shard
          ≡ (l.client.shard, false))
        (sym g) (close_session-other _ _ now _ _ l.client.shard h)

  -- What is left after the cleanup.
  torn_down-IsApart :
      (l : Here)
      → l.session_generation ≡ 0
      → IsNumbered l.client.shard
      → IsApart l (torn_down env assigned meanwhile now l)
  unfolding torn_down
  torn_down-IsApart l g h = elim (Bool-cases (is_empty l.client.client_id)) [
    | inl e ↦ simp (torn_down, e) (refl, refl, refl, refl)
    | inr e ↦ simp (torn_down, e, closed_other l g h) (refl, refl, refl, refl)
  ]

  ordered-IsRefused :
      (packet : Packet) (l : Here)
      → l.connected ≡ false
      → is_welcome packet l ≡ false
      → IsRefused l (ordered env assigned meanwhile now packet l)
  unfolding ordered dispatch
  ordered-IsRefused packet l c h = elim (is_connect-cases packet) [
    | inr n ↦ simp (ordered, c, n) (refl, (refl, refl, refl, refl))
    | inl (p, e) ↦
        subst (λ (k : Packet). IsRefused l (ordered env assigned meanwhile now k l)) (sym e)
          (simp (ordered, c)
            (handle_connect-IsRefused p l (subst (λ (k : Packet). is_welcome k l ≡ false) e h)))
  ]

  -- The packet ends the connection with an error, and after the cleanup nothing is another.
  abbrev pub IsTurnedAway : Here → Option (Here × Outcome) → Type 0
  IsTurnedAway l none = ⊥
  IsTurnedAway l (some (l', o)) =
      (is_err o ≡ true) × IsApart l (torn_down env assigned meanwhile now l')

  cleaned_up :
      (l : Here) (o : Option (Here × Outcome))
      → l.session_generation ≡ 0
      → IsNumbered l.client.shard
      → IsRefused l o
      → IsTurnedAway l o
  cleaned_up l none g h r = r
  cleaned_up l (some (l', o)) g h (r, q) = (
    r,
    IsApart-trans l l' (torn_down env assigned meanwhile now l') q
        (torn_down-IsApart l' (q.2 ∙ g) (subst IsNumbered (sym q.0) h)),
  )

  pub unwelcome-IsTurnedAway :
      (packet : Packet) (l : Here)
      → l.connected ≡ false
      → l.session_generation ≡ 0
      → IsNumbered l.client.shard
      → is_welcome packet l ≡ false
      → IsTurnedAway l (ordered env assigned meanwhile now packet l)
  unwelcome-IsTurnedAway packet l c g n h = cleaned_up l _ g n (ordered-IsRefused packet l c h)
