-- ===== src/Broker/Shard/Tests.antt =====
-- A session of one client, taken over, parked and resumed.
use rusquitto.Base.{
  ℕ, ◌≡◌, refl, true, false, none, some, [], ◌∷◌, nat_eq, list_eq, list_beq, arith,
}
use rusquitto.Base.Text.{Bytes, codes}
use rusquitto.Protocol.{at_least_once}
use rusquitto.Broker.Messages.{SessionSnapshot, Delivery}
use rusquitto.Topics.Trie.{new_node}
use rusquitto.Broker.Shard.{
  Session, ShardState, open_session, close_session, park_session, reattach_parked,
}
use rusquitto.Broker.Shard.Marks.{
  AreApart, opens, parks, suspends, closes, perform_all, perform_all-AreApart,
}
use rusquitto.Broker.Shard.Takeover.{
  next_of, close_session-open_session, reattach_parked-park_session, open_session-close_session,
}

abbrev pub ann : Bytes
ann = codes "ann"

abbrev pub delivery : ℕ → Delivery
delivery n = record {
  publish = record {
    dup = false;
    qos = at_least_once;
    retain = false;
    topic = codes "a";
    pkid = 0;
    properties = none;
    payload = n ∷ [];
  };
  qos = at_least_once;
  retain = false;
  sub_ids = [];
}

abbrev pub connected : Session
connected = record {
  mailbox = some [];
  expires_at = none;
  generation = 3;
  snapshot = none;
  offline_queue = delivery 2 ∷ [];
  pending_will = none;
  parked = false;
  wake_pending = false;
}

abbrev pub shard : ShardState
shard = record {
  sessions = (ann, connected) ∷ [];
  next_generation = 3;
  trie = new_node;
  wal = some (record { dirty = []; removed = [] });
  unpark = [];
  announced = [];
  retained = [];
  retained_limit = 100;
  shared_cursor = [];
  next_assigned = 0;
  shared_remote = [];
  pending_claims = [];
  control = [];
}

abbrev pub left_behind : SessionSnapshot
left_behind = record { inflight = []; incoming_qos2 = []; next_pkid = 12 }

close_session-open_session_example :
    close_session ann 3 60 1000 left_behind [] (open_session ann [] false shard).0
    ≡ ((open_session ann [] false shard).0, false)
close_session-open_session_example =
    close_session-open_session ann [] false shard 3 60 1000 left_behind [] (omega arith)
      (omega arith)

reattach_parked-park_session_example :
    ((park_session ann 3 left_behind shard).1 ≡ true)
    × ((reattach_parked ann 3 [] (park_session ann 3 left_behind shard).0).1
        ≡ some (left_behind, delivery 2 ∷ []))
unfolding list_beq
reattach_parked-park_session_example =
    reattach_parked-park_session ann 3 [] left_behind connected shard refl refl refl

open_session-close_session_example :
    ((open_session ann [] false
        (close_session ann 3 60 1000 left_behind (delivery 1 ∷ []) shard).0).1
      ≡ record {
        resumed = true;
        generation = next_of (close_session ann 3 60 1000 left_behind (delivery 1 ∷ []) shard).0;
        snapshot = left_behind;
        offline_queue = delivery 1 ∷ delivery 2 ∷ [];
      })
    × ((open_session ann [] false
          (close_session ann 3 60 1000 left_behind (delivery 1 ∷ []) shard).0).0.trie
        ≡ new_node)
unfolding list_beq
open_session-close_session_example =
    open_session-close_session ann 3 60 1000 [] left_behind (delivery 1 ∷ []) connected shard refl
      refl refl (λ e. omega arith)

perform_all-AreApart_example :
    AreApart
      (perform_all
        (closes ann 3 60 1000 left_behind []
          ∷ opens ann [] false
          ∷ parks ann 4 left_behind
          ∷ suspends ann 4 60 2000
          ∷ [])
        shard).wal
perform_all-AreApart_example =
    perform_all-AreApart
      (closes ann 3 60 1000 left_behind []
        ∷ opens ann [] false
        ∷ parks ann 4 left_behind
        ∷ suspends ann 4 60 2000
        ∷ [])
      shard (λ k. refl)
