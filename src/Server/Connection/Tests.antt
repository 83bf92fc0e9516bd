-- ===== src/Server/Connection/Tests.antt =====
-- The window of a connection that may have two messages in flight.
use rusquitto.Base.{
  ℕ, ◌≤◌, ◌≡◌, refl, ◌⊎◌, Bool, true, false, Option, none, some, [], ◌∷◌, nat_eq, list_eq, length,
  arith,
}
use rusquitto.Base.Text.{Bytes, codes}
use rusquitto.Base.Assoc.{get}
use rusquitto.Protocol.{at_least_once}
use rusquitto.Broker.Messages.{Publish, qos1, InflightMessage, Delivery}
use rusquitto.Server.Connection.{
  Connection, outbound_window, alloc_pkid, deliver, drain_pending, handle_puback,
  pending_outbound_limit, max, alloc_loop, next_id,
}
use rusquitto.Server.Connection.PacketId.{alloc_pkid_lem}
use rusquitto.Server.Connection.Sending.{IsSized}
use rusquitto.Server.Connection.Window.{deliver_lem, drain_pending_lem, handle_puback-get}

abbrev message : Publish
message = record {
  dup = false;
  qos = at_least_once;
  retain = false;
  topic = codes "a/b";
  pkid = 0;
  properties = none;
  payload = codes "x";
}

abbrev delivery : Delivery
delivery = record { publish = message; qos = at_least_once; retain = false; sub_ids = [] }

abbrev in_flight : ℕ → InflightMessage
in_flight id = record { publish = record message { pkid = id }; state = qos1 }

-- The first and the last packet id are in flight, one message is held.
abbrev full : Connection
full = record {
  outbound = [];
  inflight = (65535, in_flight 65535) ∷ (1, in_flight 1) ∷ [];
  next_pkid = 65534;
  max_inflight = 2;
  peer_receive_max = 65535;
  peer_max_packet_size = none;
  pending_outbound = delivery ∷ [];
  peer_topic_alias_max = 0;
  outbound_aliases = [];
}

full-IsSized : IsSized full
full-IsSized = record { next = omega arith; receive = omega arith }

abbrev write : Publish → Option Bytes
write p = some p.payload

alloc_pkid_lem_example :
    (id : ℕ) × (alloc_pkid full ≡ some id) × (1 ≤ id) × (id ≤ 65535) × (get id full.inflight ≡ none)
alloc_pkid_lem_example = alloc_pkid_lem full (omega arith) (omega arith)

deliver_lem_example :
    (c' : Connection) × (ok : Bool) × (deliver write full delivery ≡ some (c', ok))
    × IsSized c'
    × (outbound_window c' ≡ outbound_window full)
    × (length c'.inflight ≤ max 2 (outbound_window full))
    × (length c'.pending_outbound ≤ max 1 pending_outbound_limit)
deliver_lem_example = deliver_lem write full delivery full-IsSized

drain_pending_lem_example :
    (c' : Connection) × (ok : Bool) × (drain_pending write full ≡ some (c', ok))
    × ((ok ≡ false) ⊎ ((c'.pending_outbound ≡ []) ⊎ (outbound_window full ≤ length c'.inflight)))
    × (length c'.inflight ≤ max 2 (outbound_window full))
drain_pending_lem_example = drain_pending_lem write full full-IsSized

handle_puback-get_example :
    (c' : Connection) × (ok : Bool) × (handle_puback write 65535 full ≡ some (c', ok))
    × (get 1 c'.inflight ≡ some (in_flight 1))
handle_puback-get_example =
    handle_puback-get write 65535 1 full (in_flight 1) full-IsSized (λ e. omega arith) refl

-- The allocator wraps round past the ids in use, and skips 0.
alloc_wraps : alloc_loop 5 full.next_pkid full.inflight ≡ some 2
unfolding alloc_loop next_id
alloc_wraps = refl

-- A delivery to a full window is held.
deliver_held :
    deliver write full delivery
    ≡ some (record full { pending_outbound = delivery ∷ delivery ∷ [] }, true)
unfolding deliver outbound_window
deliver_held = refl
