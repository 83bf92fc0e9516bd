-- ===== src/Server/Run/Parking.antt =====
-- `into_parts`, `resume` and `reattach` of src/server/connection.rs: what of a connection survives
-- while it is parked. The rate limiter and the clock of the last activity are left out.
use rusquitto.Base.{
  ℕ, ◌≡◌, refl, sym, ◌∙◌, ap, Bool, true, false, Option, none, some, List, [], ◌∷◌, is_empty, arith,
}
use rusquitto.Base.Text.{Bytes}
use rusquitto.Base.Assoc.{Assoc}
use rusquitto.Config.{LimitsConfig}
use rusquitto.Auth.{Authenticator}
use rusquitto.Broker.Messages.{Publish, SessionSnapshot, Delivery}
use rusquitto.Broker.Shard.{ShardState, default_snapshot, reattach_parked}
use rusquitto.Server.Packets.{Outcome, ok}
use rusquitto.Server.Inbound.{Surroundings}
use rusquitto.Server.Connect.{no_certificate, restored, put_client}
use rusquitto.Server.Resume.{resume_delivery}
use rusquitto.Server.Run.{Task, There, park_ready}

pub record ResumeState : Type 0 where
  pub client_id : Bytes
  pub session_generation : ℕ
  pub next_pkid : ℕ
  pub session_expiry : ℕ
  pub keepalive : Option ℕ
  pub deadline : Option ℕ
  pub will : Option Publish
  pub will_delay : ℕ
  pub username : Option Bytes
  pub peer_receive_max : ℕ
  pub peer_max_packet_size : Option ℕ
  pub peer_topic_alias_max : ℕ
  pub inbound_aliases : Assoc ℕ Bytes
  pub outbound_aliases : Assoc Bytes ℕ
  pub subscription_count : ℕ

unfoldable pub session_snapshot : ResumeState → SessionSnapshot
session_snapshot s = record default_snapshot { next_pkid = s.next_pkid }

-- What a shard gives to each of its connections; `forwarded` is what has been sent to peers.
pub record Place (env : Surroundings) : Type 0 where
  pub shard_id : ℕ
  pub shard : ShardState
  pub forwarded : List (ℕ × Publish)
  pub limits : LimitsConfig
  pub auth : Authenticator env.crypto
  pub shutdown : Bool

module _ (env : Surroundings) (assigned : ℕ → ℕ → Bytes) (meanwhile : ShardState → ShardState)
    (now : ℕ) where
  abbrev Here : Type 0
  Here = There env assigned meanwhile now

  abbrev Running : Type 0
  Running = Task env assigned meanwhile now

  unfoldable pub into_parts : Running → ResumeState
  into_parts t =
      let c = t.link.client in
      record {
        client_id = c.client_id;
        session_generation = t.link.session_generation;
        next_pkid = c.conn.next_pkid;
        session_expiry = t.link.session_expiry;
        keepalive = t.link.keepalive;
        deadline = t.link.deadline;
        will = c.will;
        will_delay = t.link.will_delay;
        username = c.username;
        peer_receive_max = c.conn.peer_receive_max;
        peer_max_packet_size = c.conn.peer_max_packet_size;
        peer_topic_alias_max = c.conn.peer_topic_alias_max;
        inbound_aliases = c.inbound_aliases;
        outbound_aliases = c.conn.outbound_aliases;
        subscription_count = c.subscription_count;
      }

  unfoldable pub resume : ResumeState → Place env → Running
  resume s place = record {
    link = record {
      client = record {
        conn = record {
          outbound = [];
          inflight = [];
          next_pkid = s.next_pkid;
          max_inflight = place.limits.max_inflight;
          peer_receive_max = s.peer_receive_max;
          peer_max_packet_size = s.peer_max_packet_size;
          pending_outbound = [];
          peer_topic_alias_max = s.peer_topic_alias_max;
          outbound_aliases = s.outbound_aliases;
        };
        shard = place.shard;
        forwarded = place.forwarded;
        client_id = s.client_id;
        username = s.username;
        auth = place.auth;
        limits = place.limits;
        inbound_aliases = s.inbound_aliases;
        incoming_qos2 = [];
        subscription_count = s.subscription_count;
        will = s.will;
      };
      shard_id = place.shard_id;
      tls_identity = no_certificate;
      mailbox_tx = some [];
      session_expiry = s.session_expiry;
      session_generation = s.session_generation;
      will_delay = s.will_delay;
      connected = true;
      counted = true;
      deadline = s.deadline;
      keepalive = s.keepalive;
    };
    inbound = [];
    partial_since = none;
    shutdown = place.shutdown;
  }

  -- The answer of `reattach_parked`.
  abbrev pub attached :
      Here → ShardState × Option (SessionSnapshot × List Delivery) → Here × Option (List Delivery)
  attached l (st, none) =
      (record l { mailbox_tx = none; client = record l.client { shard = st } }, none)
  attached l (st, some (snapshot, queue)) = (
    record l {
      mailbox_tx = none;
      client = restored env assigned meanwhile now snapshot (record l.client { shard = st });
    },
    some queue,
  )

  -- Without a mailbox to give, the source panics.
  unfoldable pub reattach : Here → Option (Here × Option (List Delivery))
  reattach l = elim l.mailbox_tx [
    | none ↦ none
    | some mailbox ↦ some (
        attached l (reattach_parked l.client.client_id l.session_generation mailbox l.client.shard))
  ]

  -- What follows: a session that is another connection's is left to it, without the will.
  abbrev pub prelude_after : Option (Here × Option (List Delivery)) → Option (Here × Outcome × Bool)
  prelude_after none = none
  prelude_after (some (l, none)) =
      some (record l { client = record l.client { will = none; client_id = [] } }, ok, false)
  prelude_after (some (l, some queue)) =
      elim (put_client env assigned meanwhile now l (resume_delivery env queue l.client)) [
        | none ↦ none
        | some (l', o) ↦ some (l', o, true)
      ]

  unfoldable pub resume_prelude : Here → Option (Here × Outcome × Bool)
  resume_prelude l = prelude_after (reattach l)

  -- Where a plain connection that is counted stands.
  abbrev pub place_of : Running → ShardState → Place env
  place_of t st = record {
    shard_id = t.link.shard_id;
    shard = st;
    forwarded = t.link.client.forwarded;
    limits = t.link.client.limits;
    auth = t.link.client.auth;
    shutdown = t.shutdown;
  }

  abbrev pub IsPlain : Running → Type 0
  IsPlain t =
      (t.link.tls_identity ≡ no_certificate)
      × (t.link.counted ≡ true)
      × (t.link.mailbox_tx ≡ none)
      × (t.link.client.conn.max_inflight ≡ t.link.client.limits.max_inflight)

  -- The link is what it was before it was parked, in a shard that may have moved on.
  abbrev pub IsBack :
      Running → ShardState → Option (Here × Option (List Delivery)) → List Delivery → Type 0
  IsBack t st o queue =
      o ≡ some (record t.link { client = record t.link.client { shard = st } }, some queue)

  is_empty-eq : {A : Type 0} (xs : List A) → is_empty xs ≡ true → [] ≡ xs
  is_empty-eq [] h = refl
  is_empty-eq (x ∷ xs) h = absurd (ground arith)

  abbrev IsIdle : Running → Type 0
  IsIdle t =
      (true ≡ t.link.connected)
      × ([] ≡ t.link.client.conn.inflight)
      × ([] ≡ t.link.client.incoming_qos2)
      × ([] ≡ t.link.client.conn.pending_outbound)
      × ([] ≡ t.link.client.conn.outbound)

  park_ready-IsIdle : (t : Running) → park_ready env assigned meanwhile now t ≡ true → IsIdle t
  unfolding park_ready
  park_ready-IsIdle t h = (
    ground arith,
    is_empty-eq _ (ground arith),
    is_empty-eq _ (ground arith),
    is_empty-eq _ (ground arith),
    is_empty-eq _ (ground arith),
  )

  rebuilt :
      (t : Running) (st : ShardState)
      → IsIdle t
      → IsPlain t
      → record (resume (into_parts t) (place_of t st)).link { mailbox_tx = none }
        ≡ record t.link { client = record t.link.client { shard = st } }
  unfolding resume into_parts
  rebuilt t st (connected, inflight, incoming, pending, outbound) (tls, counted, mailbox, window) =
      λ i. record t.link {
        connected = connected i;
        tls_identity = sym tls i;
        counted = sym counted i;
        mailbox_tx = sym mailbox i;
        client = record t.link.client {
          shard = st;
          incoming_qos2 = incoming i;
          conn = record t.link.client.conn {
            inflight = inflight i;
            pending_outbound = pending i;
            outbound = outbound i;
            max_inflight = sym window i;
          };
        };
      }

  -- A connection that is ready to park, is taken apart and is resumed, on a shard whose session
  -- still has the snapshot of the parked connection: it is what it was, and what was queued
  -- meanwhile is given to it. The connection is a plain one that is counted.
  pub reattach-resume :
      (t : Running) (st st' : ShardState) (queue : List Delivery)
      → park_ready env assigned meanwhile now t ≡ true
      → IsPlain t
      → reattach_parked t.link.client.client_id t.link.session_generation [] st
        ≡ (st', some (session_snapshot (into_parts t), queue))
      → IsBack t st' (reattach (resume (into_parts t) (place_of t st)).link) queue
  unfolding resume into_parts session_snapshot reattach
  reattach-resume t st st' queue h plain e =
      ap (λ o. some (attached (resume (into_parts t) (place_of t st)).link o)) e
      ∙ ap (λ l. some (l, some queue)) (rebuilt t st' (park_ready-IsIdle t h) plain)
