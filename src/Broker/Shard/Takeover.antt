-- ===== src/Broker/Shard/Takeover.antt =====
-- src/broker/shard.rs: a session across the connections that hold it in turn.
use rusquitto.Base.{
  ℕ, ◌+◌, ◌%◌, ◌^◌, ◌≤◌, ◌<◌, ◌≡◌, ◌≢◌, refl, ap, ◌∙◌, inl, inr, Bool, true, false, none, some,
  List, [], ◌∷◌, ◌++◌, ◌==◌, nat_eq, list_eq, arith, Option-cases,
}
use rusquitto.Base.Text.{Bytes}
use rusquitto.Base.Assoc.{get, insert, get-insert_self}
use rusquitto.Broker.Messages.{SessionSnapshot, Delivery}
use rusquitto.Broker.Shard.{
  Mailbox, Session, ShardState, SharedEvent, join, leave, wal_dirty, wal_removed, shared_groups_of,
  announce, signal_close_parked, new_session, resumed_session, resumes, open_session, is_live,
  park_session, reattach_parked, deadline, close_session,
}

announce-sessions :
    (f : Bytes → SharedEvent) (gs : List Bytes) (st : ShardState)
    → (announce f gs st).sessions ≡ st.sessions
announce-sessions f [] st = refl
announce-sessions f (g ∷ gs) st = announce-sessions f gs _

announce-trie :
    (f : Bytes → SharedEvent) (gs : List Bytes) (st : ShardState)
    → (announce f gs st).trie ≡ st.trie
announce-trie f [] st = refl
announce-trie f (g ∷ gs) st = announce-trie f gs _

-- The session as a connection that resumes it holds it.
abbrev taken : Mailbox → ℕ → Session → Session
taken mailbox generation s = record s {
  mailbox = some mailbox;
  expires_at = none;
  generation = generation;
  parked = false;
  wake_pending = false;
  pending_will = none;
  snapshot = none;
  offline_queue = [];
}

resumed_session-sessions :
    (c : Bytes) (mailbox : Mailbox) (g : ℕ) (s : Session) (st : ShardState)
    → (resumed_session c mailbox g s st).0.sessions ≡ insert c (taken mailbox g s) st.sessions
unfolding wal_removed
resumed_session-sessions c mailbox g s st =
    announce-sessions (λ g. join g c) (shared_groups_of c _) _

resumed_session-trie :
    (c : Bytes) (mailbox : Mailbox) (g : ℕ) (s : Session) (st : ShardState)
    → (resumed_session c mailbox g s st).0.trie ≡ st.trie
unfolding wal_removed
resumed_session-trie c mailbox g s st = announce-trie (λ g. join g c) (shared_groups_of c _) _

-- The generation that the next `open_session` hands out.
abbrev pub next_of : ShardState → ℕ
next_of st = (st.next_generation + 1) % 2 ^ 64

-- A client's session after it opened one.
record Opened (c : Bytes) (generation : ℕ) (st : ShardState) : Type 0 where
  pub session : Session
  pub there : get c st.sessions ≡ some session
  pub current : session.generation ≡ generation

resumes-Opened :
    (c : Bytes) (mailbox : Mailbox) (g : ℕ) (st : ShardState)
    → Opened c g (resumes c mailbox g st).0
resumes-Opened c mailbox g st = elim (Option-cases (get c st.sessions)) [
  | inl n ↦
      rw (resumes, n)
        (record {
          session = new_session mailbox g;
          there = get-insert_self c (new_session mailbox g) st.sessions;
          current = refl;
        })
  | inr (s, e) ↦
      rw (resumes, e)
        (record {
          session = taken mailbox g s;
          there =
              ap (get c) (resumed_session-sessions c mailbox g s st)
              ∙ get-insert_self c (taken mailbox g s) st.sessions;
          current = refl;
        })
]

open_session-Opened :
    (c : Bytes) (mailbox : Mailbox) (clean : Bool) (st : ShardState)
    → Opened c (next_of st) (open_session c mailbox clean st).0
unfolding open_session
open_session-Opened c mailbox true st = record {
  session = new_session mailbox (next_of st);
  there = get-insert_self c (new_session mailbox (next_of st)) _;
  current = refl;
}
open_session-Opened c mailbox false st = resumes-Opened c mailbox (next_of st) _

-- After a connection has opened the session, the end of an earlier connection, whose generation is
-- not above the counter before, changes nothing and returns that the session was taken over. The
-- counter is to be below the end of its range.
pub close_session-open_session :
    (c : Bytes) (mailbox : Mailbox) (clean : Bool) (st : ShardState) (g expiry_secs now : ℕ)
    (snapshot : SessionSnapshot) (pending : List Delivery)
    → g ≤ st.next_generation
    → st.next_generation + 1 < 2 ^ 64
    → close_session c g expiry_secs now snapshot pending (open_session c mailbox clean st).0
      ≡ ((open_session c mailbox clean st).0, false)
unfolding close_session
close_session-open_session c mailbox clean st g expiry_secs now snapshot pending h b =
    let o = open_session-Opened c mailbox clean st in
    rw (close_session, o.there, stale o.session.generation g st.next_generation o.current h b) refl
  where
    stale : (a g n : ℕ) → a ≡ (n + 1) % 2 ^ 64 → g ≤ n → n + 1 < 2 ^ 64 → (a == g) ≡ false
    stale a g n e h b = ground arith

abbrev parked_as : SessionSnapshot → Session → Session
parked_as snapshot s = record s {
  mailbox = none;
  parked = true;
  wake_pending = false;
  snapshot = some snapshot;
  expires_at = none;
}

-- A connected session that is parked by the connection that owns it, and attached again under the
-- same generation, gets back the state that was left and what was queued for it, in order.
pub reattach_parked-park_session :
    (c : Bytes) (g : ℕ) (mailbox : Mailbox) (snapshot : SessionSnapshot) (s : Session)
    (st : ShardState)
    → get c st.sessions ≡ some s
    → s.generation ≡ g
    → is_live s ≡ true
    → ((park_session c g snapshot st).1 ≡ true)
      × ((reattach_parked c g mailbox (park_session c g snapshot st).0).1
          ≡ some (snapshot, s.offline_queue))
unfolding park_session reattach_parked
reattach_parked-park_session c g mailbox snapshot s st e k l =
    rw (park_session, e, (nat_eq.beq_iff s.generation g).1 k, l)
      (
        refl,
        rw
            (
              reattach_parked,
              get-insert_self c (parked_as snapshot s) st.sessions,
              (nat_eq.beq_iff s.generation g).1 k,
            )
            refl,
      )

signal_close_parked-unparked :
    (c : Bytes) (s : Session) (st : ShardState)
    → get c st.sessions ≡ some s
    → s.parked ≡ false
    → signal_close_parked c st ≡ st
unfolding signal_close_parked
signal_close_parked-unparked c s st e p = rw (signal_close_parked, e, p) refl

resumes-some :
    (c : Bytes) (mailbox : Mailbox) (g : ℕ) (s : Session) (st : ShardState)
    → get c st.sessions ≡ some s
    → resumes c mailbox g st ≡ resumed_session c mailbox g s st
resumes-some c mailbox g s st e = rw (resumes, e) refl

open_session-resumed :
    (c : Bytes) (mailbox : Mailbox) (s : Session) (st : ShardState)
    → get c st.sessions ≡ some s
    → s.parked ≡ false
    → open_session c mailbox false st
      ≡ resumed_session c mailbox (next_of st) s (record st { next_generation = next_of st })
unfolding open_session
open_session-resumed c mailbox s st e p =
    ap (resumes c mailbox (next_of st))
      (signal_close_parked-unparked c s (record st { next_generation = next_of st }) e p)
    ∙ resumes-some c mailbox (next_of st) s (record st { next_generation = next_of st }) e

-- The session as its connection leaves it suspended.
abbrev suspended : ℕ → ℕ → SessionSnapshot → List Delivery → Session → Session
suspended now expiry_secs snapshot pending s = record s {
  mailbox = none;
  snapshot = some snapshot;
  offline_queue = pending ++ s.offline_queue;
  expires_at = deadline now expiry_secs;
}

record Suspended (c : Bytes) (s : Session) (st st' : ShardState) : Type 0 where
  pub there : get c st'.sessions ≡ some s
  pub trie : st'.trie ≡ st.trie

close_session-Suspended :
    (c : Bytes) (g expiry_secs now : ℕ) (snapshot : SessionSnapshot) (pending : List Delivery)
    (s : Session) (st : ShardState)
    → get c st.sessions ≡ some s
    → s.generation ≡ g
    → (expiry_secs == 0) ≡ false
    → Suspended c
        (suspended now expiry_secs snapshot pending s)
        st
        (close_session c g expiry_secs now snapshot pending st).0
unfolding close_session wal_dirty
close_session-Suspended c g expiry_secs now snapshot pending s st e k x =
    rw (close_session, e, (nat_eq.beq_iff s.generation g).1 k, x)
      (record {
        there =
            ap (get c) (announce-sessions (λ g. leave g c) (shared_groups_of c st) _)
            ∙ get-insert_self c (suspended now expiry_secs snapshot pending s) st.sessions;
        trie = announce-trie (λ g. leave g c) (shared_groups_of c st) _;
      })

-- A session that its connection ends with an expiry interval, while it is not parked, is handed
-- back whole to the connection that resumes it: the state that was left, and the messages held back
-- before those that were queued. The trie keeps all subscriptions.
pub open_session-close_session :
    (c : Bytes) (g expiry_secs now : ℕ) (mailbox : Mailbox) (snapshot : SessionSnapshot)
    (pending : List Delivery) (s : Session) (st : ShardState)
    → get c st.sessions ≡ some s
    → s.generation ≡ g
    → s.parked ≡ false
    → expiry_secs ≢ 0
    → ((open_session c mailbox false (close_session c g expiry_secs now snapshot pending st).0).1
        ≡ record {
          resumed = true;
          generation = next_of (close_session c g expiry_secs now snapshot pending st).0;
          snapshot = snapshot;
          offline_queue = pending ++ s.offline_queue;
        })
      × ((open_session c mailbox false
            (close_session c g expiry_secs now snapshot pending st).0).0.trie
          ≡ st.trie)
open_session-close_session c g expiry_secs now mailbox snapshot pending s st e k p x =
    let st' = (close_session c g expiry_secs now snapshot pending st).0 in
    let s' = suspended now expiry_secs snapshot pending s in
    let h =
      close_session-Suspended c g expiry_secs now snapshot pending s st e k
        (ground (arith, nat_eq.beq_iff expiry_secs 0)) in
    rw (open_session-resumed c mailbox s' st' h.there p)
      (refl, resumed_session-trie c mailbox (next_of st') s' _ ∙ h.trie)
