-- ===== src/Server/Run.antt =====
-- src/server/connection.rs: the parsing and the dispatch of a packet, the cleanup of `run`, and
-- parking. The fields of `Connection` that only these use are with the link in a `Task`. What moves
-- bytes to and from the socket, and the race of the event loop, are left out.
pub mod Strangers
pub mod Welcome
pub mod Parking
mod Tests
use rusquitto.Base.{
  ℕ, ◌+◌, ◌*◌, ◌/◌, Bool, true, false, not, ◌&&◌, ◌||◌, Option, none, some, List, [], ◌∷◌, ◌++◌,
  ◌==◌, nat_eq, list_eq, if◌then◌else◌, leb, ltb, is_empty,
}
use rusquitto.Base.Text.{Bytes}
use rusquitto.Config.Validate.{Crypto}
use rusquitto.Broker.Messages.{Publish, SessionSnapshot, Delivery}
use rusquitto.Broker.Shard.{
  Mailbox, ShardState, nanos, default_snapshot, close_session, reattach_parked,
}
use rusquitto.Broker.Shard.Upkeep.{arm_will}
use rusquitto.Server.Connection.{Connection, handle_puback, handle_pubcomp, min}
use rusquitto.Server.Packets.{
  Connect, Packet, connect, conn_ack, publish, pub_ack, pub_rec, pub_rel, pub_comp, subscribe,
  sub_ack, unsubscribe, unsub_ack, ping_req, ping_resp, disconnect, DisconnectReason,
  normal_disconnection, protocol_error, server_shutting_down, Fault, encoding, parsing,
  duplicate_connect, expected_connect, Outcome, ok, err,
}
use rusquitto.Server.Inbound.{
  Client, Surroundings, Here, send, fail_with, fan_out, handle_publish, handle_ping,
  handle_disconnect, handle_pubrec, handle_pubrel, handle_subscribe, handle_unsubscribe,
}
use rusquitto.Server.Connect.{Link, handle_connect, put_client}

-- What `mqttbytes::v5::read` answers: a packet with the bytes after it, or an error with the bytes
-- that it leaves.
pub data Read : Type 0 where
  read_packet : Packet → Bytes → Read
  insufficient_bytes payload_required other_error : Bytes → Read

pub data Parsed : Type 0 where
  ready : Packet → Parsed
  incomplete malformed : Parsed

-- Whether the first byte is the fixed header of a DISCONNECT.
abbrev pub is_disconnect : Bytes → Bool
is_disconnect [] = false
is_disconnect (b ∷ bs) = b / 16 == 14

abbrev pub parsed_as : Bytes → Read → Bytes × Parsed
parsed_as buffer (read_packet packet rest) = (rest, ready packet)
parsed_as buffer (insufficient_bytes rest) = (rest, incomplete)
parsed_as buffer (payload_required rest) =
    if is_disconnect buffer
    then ([], ready (disconnect normal_disconnection))
    else (rest, malformed)
parsed_as buffer (other_error rest) = (rest, malformed)

unfoldable pub parse_packet : (Bytes → ℕ → Read) → Bytes → ℕ → Bytes × Parsed
parse_packet read buffer max_packet =
    if is_empty buffer then (buffer, incomplete) else parsed_as buffer (read buffer max_packet)

unfoldable pub earlier : Option ℕ → Option ℕ → Option ℕ
earlier none none = none
earlier none (some y) = some y
earlier (some x) none = some x
earlier (some x) (some y) = some (min x y)

-- How a packet ends: it is processed, more bytes are needed, or the connection fails.
pub data Turn : Type 0 where
  processed needs_more : Turn
  failed : Fault → Turn

abbrev pub turn_of : Outcome → Turn
turn_of ok = processed
turn_of (err e) = failed e

abbrev pub is_connect : Packet → Bool
is_connect (connect p) = true
is_connect packet = false

pub data Flow : Type 0 where
  closed park : Flow

module _ (env : Surroundings) (assigned : ℕ → ℕ → Bytes) (meanwhile : ShardState → ShardState)
    (now : ℕ) where
  abbrev pub There : Type 0
  There = Link env.crypto

  pub record Task : Type 0 where
    pub link : There
    pub inbound : Bytes
    pub partial_since : Option ℕ
    pub shutdown : Bool

  abbrev pub by_client : There → Here env × Outcome → Option (There × Outcome)
  by_client l (c, o) = some (record l { client = c }, o)

  abbrev pub ran : Bool → Outcome
  ran true = ok
  ran false = err encoding

  abbrev pub by_conn : There → Option (Connection × Bool) → Option (There × Outcome)
  by_conn l none = none
  by_conn l (some (conn, b)) = some (record l { client = record l.client { conn = conn } }, ran b)

  -- The `match` on the packet; `none` stands for a delivery that never returns.
  unfoldable pub dispatch : Packet → There → Option (There × Outcome)
  dispatch (connect p) l = handle_connect env assigned meanwhile now p l
  dispatch (publish p) l = by_client l (handle_publish env p l.client)
  dispatch (subscribe pkid sub_id fs) l =
      put_client env assigned meanwhile now l (handle_subscribe env pkid sub_id fs l.client)
  dispatch (unsubscribe pkid fs) l = by_client l (handle_unsubscribe env pkid fs l.client)
  dispatch ping_req l = by_client l (handle_ping env l.client)
  dispatch (disconnect reason) l = by_client l (handle_disconnect env reason l.client)
  dispatch (pub_ack pkid b) l = by_conn l (handle_puback env.write pkid l.client.conn)
  dispatch (pub_rec pkid b) l = by_client l (handle_pubrec env pkid l.client)
  dispatch (pub_rel pkid) l = by_client l (handle_pubrel env pkid l.client)
  dispatch (pub_comp pkid) l = by_conn l (handle_pubcomp env.write pkid l.client.conn)
  dispatch (conn_ack code present properties) l = some (l, ok)
  dispatch (sub_ack pkid codes) l = some (l, ok)
  dispatch (unsub_ack pkid n) l = some (l, ok)
  dispatch ping_resp l = some (l, ok)

  -- The guards on CONNECT, and the `match`.
  unfoldable pub ordered : Packet → There → Option (There × Outcome)
  ordered packet l =
      if l.connected && is_connect packet
      then by_client l (fail_with env protocol_error duplicate_connect l.client)
      else if not l.connected && not (is_connect packet)
      then some (l, err expected_connect)
      else dispatch packet l

  abbrev pub turned : Task → Option (There × Outcome) → Option (Task × Turn)
  turned t none = none
  turned t (some (l, o)) = some (record t { link = l }, turn_of o)

  abbrev pub processed_as : Task → Bytes × Parsed → Option (Task × Turn)
  processed_as t (rest, incomplete) = some (record t { inbound = rest }, needs_more)
  processed_as t (rest, malformed) = some (record t { inbound = rest }, failed parsing)
  processed_as t (rest, ready packet) = turned (record t { inbound = rest }) (ordered packet t.link)

  unfoldable pub process_one : (Bytes → ℕ → Read) → ℕ → Task → Option (Task × Turn)
  process_one read max_packet t = processed_as t (parse_packet read t.inbound max_packet)

  abbrev pub snapshot_in : Here env → SessionSnapshot
  snapshot_in c = record {
    inflight = c.conn.inflight;
    incoming_qos2 = c.incoming_qos2;
    next_pkid = c.conn.next_pkid;
  }

  -- The fields that the cleanup takes.
  abbrev pub emptied : ShardState → Here env → Here env
  emptied shard c = record c {
    shard = shard;
    will = none;
    incoming_qos2 = [];
    conn = record c.conn { inflight = []; pending_outbound = [] };
  }

  -- The will, where the session was this connection's.
  abbrev pub fired : Bool → Option Publish → There → There
  fired false will l = l
  fired true none l = l
  fired true (some will) l =
      let delay = min l.will_delay l.session_expiry in
      if delay == 0 then record l { client = fan_out env will none l.client } else record l {
        client = record l.client {
          shard = arm_will l.client.client_id l.session_generation will delay now l.client.shard;
        };
      }

  abbrev pub let_go : There → There
  let_go l =
      let c = l.client in
      let (shard, owned) =
        close_session c.client_id l.session_generation l.session_expiry now (snapshot_in c)
          c.conn.pending_outbound c.shard in
      fired owned c.will (record l { client = emptied shard c })

  -- The end of `run`.
  unfoldable pub torn_down : There → There
  torn_down l =
      let l' = if is_empty l.client.client_id then l else let_go l in record l' { counted = false }

  unfoldable pub mailbox_closed : Task → Task × Flow
  mailbox_closed t =
      if t.shutdown
      then (
        record t {
          link = record t.link {
            client =
                (send env (disconnect server_shutting_down)
                  (record t.link.client { will = none })).0;
          };
        },
        closed,
      )
      else (t, closed)

  unfoldable pub framing_deadline : Task → Option ℕ
  framing_deadline t = elim t.partial_since [
    | none ↦ none
    | some started ↦
        let secs = t.link.client.limits.connect_timeout in
        if ltb 0 secs then some (started + secs * nanos) else none
  ]

  abbrev pub is_unset : Option ℕ → Bool
  is_unset none = true
  is_unset (some n) = false

  unfoldable pub park_ready : Task → Bool
  park_ready t =
      t.link.connected
      && is_empty t.link.client.conn.inflight
      && is_empty t.link.client.incoming_qos2
      && is_empty t.link.client.conn.pending_outbound
      && is_empty t.inbound
      && is_empty t.link.client.conn.outbound
      && is_unset t.partial_since
