-- ===== src/Server/Connect.antt =====
-- src/server/connection/connect.rs: the handshake. A `Link` is a connection with the fields that live from CONNECT to close; an
-- `Instant` is a number of nanoseconds.
use rusquitto.Base.{
  ℕ, zero, suc, ◌+◌, ◌*◌, ◌%◌, ◌^◌, Bool, true, false, not, ◌&&◌, ◌||◌, Option, none, some, List,
  [], ◌∷◌, ◌==◌, nat_eq, list_eq, if◌then◌else◌, length, leb, ltb, is_empty, ◌⊎◌, inl, inr,
}
use rusquitto.Base.Text.{Bytes}
use rusquitto.Base.Assoc.{get}
use rusquitto.Protocol.{valid_publish_topic}
use rusquitto.Config.Validate.{Crypto}
use rusquitto.Auth.{AuthResult, granted, bad_user_name_password, not_authorized}
use rusquitto.Auth.{check, authorize_publish}
use rusquitto.Broker.Messages.{Publish, Delivery, SessionSnapshot, MigratedSession}
use rusquitto.Broker.Shard.{Mailbox, ShardState, open_session, next_assigned_id}
use rusquitto.Broker.Mesh.{
  mesh_peers, register_claim, unregister_claim, broadcast_claim, install_migrated,
}
use rusquitto.Server.Connection.{min, max}
use rusquitto.Server.Packets.{
  ConnAckProperties, Login, LastWill, ConnectProperties, Connect, ConnectReturnCode, Packet,
  conn_ack, pub_rel, Fault, encoding, authentication_failed, Outcome, ok, err,
}
use rusquitto.Server.Packets
use rusquitto.Server.Resume.{resume_delivery}
use rusquitto.Server.Inbound.{Client, Surroundings, Here, and_then, send, inbound_topic_alias_max}

-- `TlsIdentity` of src/transport/tls.rs; its `None` is `no_certificate`.
pub data TlsIdentity : Type 0 where
  no_certificate verified : TlsIdentity
  cn : Bytes → TlsIdentity

pub record Link (crypto : Crypto) : Type 0 where
  pub client : Client crypto
  pub shard_id : ℕ
  pub tls_identity : TlsIdentity
  pub mailbox_tx : Option Mailbox
  pub session_expiry : ℕ
  pub session_generation : ℕ
  pub will_delay : ℕ
  pub connected : Bool
  pub counted : Bool
  pub deadline : Option ℕ
  pub keepalive : Option ℕ

abbrev pub max_client_id_len : ℕ
max_client_id_len = 256

abbrev pub outbound_topic_alias_max : ℕ
outbound_topic_alias_max = 32

abbrev pub starts_c1 : Bytes → Bool
starts_c1 [] = false
starts_c1 (b ∷ bs) = leb 128 b && leb b 159

-- `chars().any(|c| c.is_control())` on UTF-8: U+0000 to U+001F, U+007F, and U+0080 to U+009F, which
-- are the byte 0xC2 with one of 0x80 to 0x9F.
unfoldable pub has_control : Bytes → Bool
has_control [] = false
has_control (b ∷ bs) = ltb b 32 || b == 127 || (b == 194 && starts_c1 bs) || has_control bs

abbrev pub or_nat : ℕ → Option ℕ → ℕ
or_nat d none = d
or_nat d (some n) = n

abbrev pub expiry_in : Option ConnectProperties → Option ℕ
expiry_in none = none
expiry_in (some p) = p.session_expiry_interval

abbrev pub receive_max_in : Option ConnectProperties → Option ℕ
receive_max_in none = none
receive_max_in (some p) = p.receive_max

abbrev pub packet_size_in : Option ConnectProperties → Option ℕ
packet_size_in none = none
packet_size_in (some p) = p.max_packet_size

abbrev pub alias_max_in : Option ConnectProperties → Option ℕ
alias_max_in none = none
alias_max_in (some p) = p.topic_alias_max

abbrev pub username_of : Option Login → Option Bytes
username_of none = none
username_of (some l) = some l.username

abbrev pub password_of : Option Login → Option Bytes
password_of none = none
password_of (some l) = some l.password

abbrev pub has_username : Option Bytes → Bool
has_username none = false
has_username (some u) = not (is_empty u)

-- What the certificate grants: an identity, or a name that is not given.
unfoldable pub cert_grant : Bool → TlsIdentity → Option (Option Bytes)
cert_grant true identity = none
cert_grant false (cn name) = some (some name)
cert_grant false verified = some none
cert_grant false no_certificate = none

unfoldable pub will_publish : LastWill → Publish
will_publish w = record {
  dup = false;
  qos = w.qos;
  retain = w.retain;
  topic = w.topic;
  pkid = 0;
  properties = none;
  payload = w.message;
}

abbrev pub refusal : AuthResult → ConnectReturnCode
refusal bad_user_name_password = Packets.bad_user_name_password
refusal granted = Packets.not_authorized
refusal not_authorized = Packets.not_authorized

abbrev pub no_properties : ConnAckProperties
no_properties = record {
  server_keep_alive = none;
  assigned_client_identifier = none;
  receive_max = none;
  max_packet_size = none;
  max_qos = none;
  retain_available = none;
  wildcard_subscription_available = none;
  subscription_identifiers_available = none;
  shared_subscription_available = none;
  topic_alias_max = none;
}

-- The answers that come before the first session, at most one of each peer.
unfoldable pub first_answer : ℕ → List (Option MigratedSession) → Option MigratedSession
first_answer zero answers = none
first_answer (suc remaining) [] = none
first_answer (suc remaining) (none ∷ answers) = first_answer remaining answers
first_answer (suc remaining) (some session ∷ answers) = some session

abbrev pub answers_of : Option (List (Option MigratedSession)) → List (Option MigratedSession)
answers_of none = []
answers_of (some answers) = answers

-- `assigned` writes an identifier from the shard, the count and a random value; `meanwhile` is what
-- the other tasks of the shard do while the answers of the peers are awaited, until they have all
-- answered or the time is up; `now` is the time.
module _ (env : Surroundings) (assigned : ℕ → ℕ → Bytes) (meanwhile : ShardState → ShardState)
    (now : ℕ) where
  abbrev pub There : Type 0
  There = Link env.crypto

  abbrev pub on_client : (Here env → Here env × Outcome) → There → There × Outcome
  on_client f l = let (c, o) = f l.client in (record l { client = c }, o)

  unfoldable pub reject_connect : ConnectReturnCode → There → There × Outcome
  reject_connect code = on_client (λ c.
      and_then (send env (conn_ack code false no_properties) c)
        (λ c. (c, err authentication_failed)))

  -- The session expiry and the limits of the peer.
  unfoldable pub negotiated : Connect → There → There
  negotiated p l =
      let cap = l.client.limits.max_session_expiry in
      let expiry = or_nat 0 (expiry_in p.properties) in
      record l {
        session_expiry = if ltb 0 cap then min expiry cap else expiry;
        client = record l.client {
          conn = record l.client.conn {
            peer_receive_max = max (or_nat 65535 (receive_max_in p.properties)) 1;
            peer_max_packet_size = packet_size_in p.properties;
            peer_topic_alias_max =
                min (or_nat 0 (alias_max_in p.properties)) outbound_topic_alias_max;
          };
        };
      }

  abbrev pub is_hostile : Bytes → Bool
  is_hostile id = ltb max_client_id_len (length id) || has_control id

  -- The client identifier, which may be assigned; `none` where it is refused.
  unfoldable pub identified : Bytes → There → Option There
  identified id l =
      if is_empty id
      then (let (shard, n) = next_assigned_id l.client.shard in
          some (record l {
            client = record l.client { shard = shard; client_id = assigned l.shard_id n };
          }))
      else if is_hostile id
      then none
      else some (record l { client = record l.client { client_id = id } })

  unfoldable pub with_last_will : Option LastWill → There → There
  with_last_will none l = l
  with_last_will (some w) l = record l {
    will_delay = or_nat 0 w.delay_interval;
    client = record l.client { will = some (will_publish w) };
  }

  abbrev pub as_user : Option Bytes → There → There
  as_user username l = record l { client = record l.client { username = username } }

  -- The identity, or the code of the refusal.
  unfoldable pub authenticated : Option Login → There → There ⊎ ConnectReturnCode
  authenticated login l = elim (cert_grant (has_username (username_of login)) l.tls_identity) [
    | some identity ↦ inl (as_user identity l)
    | none ↦ elim (check env.crypto l.client.auth (username_of login) (password_of login)) [
      | granted ↦ inl (as_user (username_of login) l)
      | bad_user_name_password ↦ inr (refusal bad_user_name_password)
      | not_authorized ↦ inr (refusal not_authorized)
    ]
  ]

  abbrev pub will_ok : Option Publish → Here env → Bool
  will_ok none c = true
  will_ok (some will) c =
      valid_publish_topic will.topic && authorize_publish env.crypto c.auth c.username will.topic

  unfoldable pub checked_will : There → There
  checked_will l =
      if will_ok l.client.will l.client
      then l
      else record l { client = record l.client { will = none } }

  abbrev pub restored : SessionSnapshot → Here env → Here env
  restored snapshot c = record c {
    incoming_qos2 = snapshot.incoming_qos2;
    conn = record c.conn { inflight = snapshot.inflight; next_pkid = snapshot.next_pkid };
  }

  -- The session of this shard: whether it is resumed, and the messages held for it.
  unfoldable pub opened : Bool → There → There × Bool × List Delivery
  opened clean_start l = elim l.mailbox_tx [
    | none ↦ (l, false, [])
    | some mailbox ↦
        let (shard, handle) = open_session l.client.client_id mailbox clean_start l.client.shard in
        (
          record l {
            mailbox_tx = none;
            session_generation = handle.generation;
            client = restored handle.snapshot (record l.client { shard = shard });
          },
          handle.resumed,
          handle.offline_queue,
        )
  ]

  abbrev pub on_shard : ShardState → There → There
  on_shard shard l = record l { client = record l.client { shard = shard } }

  unfoldable pub claim_remote_session : There → There × Option MigratedSession
  claim_remote_session l =
      let c = l.client in
      let peers = mesh_peers env.peers in
      let st =
        meanwhile
          (broadcast_claim env.peers c.client_id true (register_claim c.client_id c.shard)) in
      if peers == 0 then (l, none) else (
        on_shard (unregister_claim c.client_id st) l,
        first_answer peers (answers_of (get c.client_id st.pending_claims)),
      )

  abbrev pub migrated :
      There × Option MigratedSession → List Delivery → There × Bool × List Delivery
  migrated (l, none) queue = (l, false, queue)
  migrated (l, some session) queue =
      let (shard, held) = install_migrated l.client.client_id session l.client.shard in
      (
        record l {
          client = restored held.0 (record l.client {
            shard = shard;
            subscription_count = length session.subscriptions;
          });
        },
        true,
        held.1,
      )

  -- The session, of this shard or of a peer.
  unfoldable pub session_for : Bool → There → There × Bool × List Delivery
  session_for clean_start l =
      let (l1, present, queue) = opened clean_start l in
      if clean_start
      then (
        on_shard (broadcast_claim env.peers l1.client.client_id false l1.client.shard) l1,
        present,
        queue,
      )
      else if not present
      then migrated (claim_remote_session l1) queue
      else (l1, present, queue)

  abbrev pub only_if : {A : Type 0} → Bool → A → Option A
  only_if true a = some a
  only_if false a = none

  unfoldable pub ack_properties : Bool → There → ConnAckProperties
  ack_properties is_assigned l =
      let limits = l.client.limits in
      record {
        server_keep_alive = only_if (ltb 0 limits.keep_alive) limits.keep_alive;
        assigned_client_identifier = only_if is_assigned l.client.client_id;
        receive_max = some limits.max_inflight;
        max_packet_size = some (limits.max_payload_size % 2 ^ 32);
        max_qos = only_if (ltb limits.max_qos 2) limits.max_qos;
        retain_available = only_if (not limits.retain_available) 0;
        wildcard_subscription_available = some 1;
        subscription_identifiers_available = some 1;
        shared_subscription_available = some 1;
        topic_alias_max = some inbound_topic_alias_max;
      }

  abbrev pub put_client : There → Option (Here env × Outcome) → Option (There × Outcome)
  put_client l none = none
  put_client l (some (c, o)) = some (record l { client = c }, o)

  unfoldable pub timed : ℕ → There → There
  timed keep_alive l =
      let limit = l.client.limits.keep_alive in
      let effective = if ltb 0 limit then limit else keep_alive in
      let window = 1500 * 1000000 * effective in
      record l {
        connected = true;
        keepalive = only_if (ltb 0 effective) window;
        deadline = only_if (ltb 0 effective) (now + window);
      }

  -- The end of the handshake, once the CONNACK is written.
  abbrev pub established : ℕ → Bool → List Delivery → There × Outcome → Option (There × Outcome)
  established keep_alive present queue (l, err e) = some (l, err e)
  established keep_alive present queue (l, ok) =
      let l' = timed keep_alive l in
      if present then put_client l' (resume_delivery env queue l'.client) else some (l', ok)

  -- What follows the authentication.
  unfoldable pub admitted : Connect → There → Option (There × Outcome)
  admitted p l =
      let (l1, present, queue) = session_for p.clean_session (checked_will l) in
      let l2 = record l1 { counted = true } in
      established p.keep_alive present queue (
        on_client
          (send env (conn_ack Packets.success present (ack_properties (is_empty p.client_id) l2)))
          l2)

  abbrev pub judged : Connect → There → There ⊎ ConnectReturnCode → Option (There × Outcome)
  judged p before (inl l) = admitted p l
  judged p before (inr code) = some (reject_connect code before)

  -- What follows the client identifier.
  abbrev pub introduced : Connect → There → Option There → Option (There × Outcome)
  introduced p before none = some (reject_connect Packets.client_identifier_not_valid before)
  introduced p before (some l) =
      let l1 = with_last_will p.last_will l in judged p l1 (authenticated p.login l1)

  unfoldable pub handle_connect : Connect → There → Option (There × Outcome)
  handle_connect p l = let l1 = negotiated p l in introduced p l1 (identified p.client_id l1)
