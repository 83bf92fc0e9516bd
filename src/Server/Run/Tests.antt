-- ===== src/Server/Run/Tests.antt =====
-- A client that gives a name which the broker does not know.
use rusquitto.Base.{
  ℕ, refl, Bool, Option, true, false, none, some, [], ◌∷◌, nat_eq, list_eq, list_beq,
}
use rusquitto.Base.Text.{Bytes, codes}
use rusquitto.Broker.Shard.{Session, ShardState, owns, park_session, reattach_parked}
use rusquitto.Broker.Shard.Tests.{ann, connected, delivery, shard}
use rusquitto.Server.Packets.{Packet, connect}
use rusquitto.Server.Inbound.Tests.{around, client}
use rusquitto.Server.Connect.{Link, no_certificate}
use rusquitto.Server.Run.{Task, park_ready}
use rusquitto.Server.Run.Parking.{
  IsBack, session_snapshot, into_parts, resume, reattach, place_of, reattach-resume,
}

abbrev assigned : ℕ → ℕ → Bytes
assigned shard_id n = shard_id ∷ n ∷ []

abbrev link : Link around.crypto
link = record {
  client = client;
  shard_id = 0;
  tls_identity = no_certificate;
  mailbox_tx = some [];
  session_expiry = 0;
  session_generation = 0;
  will_delay = 0;
  connected = false;
  counted = false;
  deadline = none;
  keepalive = none;
}

-- It asks for the session of `ann`.
abbrev intruder : Packet
intruder = connect (record {
  keep_alive = 60;
  client_id = ann;
  clean_session = true;
  last_will = none;
  login = some (record { username = codes "eve"; password = codes "?" });
  properties = none;
})

abbrev owned : Option Session → Bool
owned none = false
owned (some s) = owns 0 s

-- A client that has connected, and is idle.
abbrev idle : Task around assigned (λ st. st) 5
idle = record {
  link = record link {
    mailbox_tx = none;
    session_generation = 3;
    connected = true;
    counted = true;
  };
  inbound = [];
  partial_since = none;
  shutdown = false;
}

abbrev put_by : ShardState
put_by =
    (park_session ann 3 (session_snapshot (into_parts around assigned (λ st. st) 5 idle)) shard).0

reattach-resume_example :
    IsBack around assigned
      (λ st. st)
      5
      idle
      (reattach_parked ann 3 [] put_by).0
      (reattach around assigned
        (λ st. st)
        5
        (resume around assigned
          (λ st. st)
          5
          (into_parts around assigned (λ st. st) 5 idle)
          (place_of around assigned (λ st. st) 5 idle put_by)).link)
      (delivery 2 ∷ [])
unfolding park_session reattach_parked into_parts park_ready list_beq
reattach-resume_example =
    reattach-resume around assigned (λ st. st) 5 idle put_by (reattach_parked ann 3 [] put_by).0
      (delivery 2 ∷ []) refl (refl, refl, refl, refl) refl
