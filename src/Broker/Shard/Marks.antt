-- ===== src/Broker/Shard/Marks.antt =====
-- src/broker/shard.rs: the marks for the write-ahead log. A client id is in at most one set.
use rusquitto.Base.{
  ℕ, ◌≡◌, refl, sym, subst, inl, inr, Bool, true, false, ◌&&◌, Option, none, some, List, [], ◌∷◌,
  ◌==◌, nat_eq, list_eq, if◌then◌else◌, arith, Bool-cases, Option-cases,
}
use rusquitto.Base.Text.{Bytes}
use rusquitto.Base.Assoc.{get, remove, contains_key, get-insert, get-remove}
use rusquitto.Broker.Messages.{SessionSnapshot, Delivery}
use rusquitto.Topics.Trie.{remove_client_rec}
use rusquitto.Broker.Shard.{
  Mailbox, ShardState, SharedEvent, join, leave, WalPending, dirty_mark, removed_mark, marked,
  wal_dirty, wal_removed, shared_groups_of, announce, left, signal_close_parked, discarded, resumes,
  open_session, park_session, reattach_parked, owns, is_live, suspend_parked, close_session,
}

abbrev in_both : Bytes → WalPending → Bool
in_both k w = contains_key k w.dirty && contains_key k w.removed

abbrev pub AreApart : Option WalPending → Type 0
AreApart none = Unit
AreApart (some w) = (k : Bytes) → in_both k w ≡ false

dirty_mark-AreApart :
    (c : Bytes) (w : WalPending) → AreApart (some w) → AreApart (some (dirty_mark c w))
unfolding dirty_mark
dirty_mark-AreApart c w h k =
    rw (contains_key, get-insert c k tt w.dirty, get-remove c k w.removed) (ground (arith, h k))

removed_mark-AreApart :
    (c : Bytes) (w : WalPending) → AreApart (some w) → AreApart (some (removed_mark c w))
unfolding removed_mark
removed_mark-AreApart c w h k =
    rw (contains_key, get-insert c k tt w.removed, get-remove c k w.dirty) (ground (arith, h k))

wal_dirty-AreApart : (c : Bytes) (st : ShardState) → AreApart st.wal → AreApart (wal_dirty c st).wal
unfolding wal_dirty
wal_dirty-AreApart c st h = go st.wal h
  where
    go : (w : Option WalPending) → AreApart w → AreApart (marked (dirty_mark c) w)
    go none h = tt
    go (some w) h = dirty_mark-AreApart c w h

wal_removed-AreApart :
    (c : Bytes) (st : ShardState) → AreApart st.wal → AreApart (wal_removed c st).wal
unfolding wal_removed
wal_removed-AreApart c st h = go st.wal h
  where
    go : (w : Option WalPending) → AreApart w → AreApart (marked (removed_mark c) w)
    go none h = tt
    go (some w) h = removed_mark-AreApart c w h

announce-wal :
    (f : Bytes → SharedEvent) (gs : List Bytes) (st : ShardState) → (announce f gs st).wal ≡ st.wal
announce-wal f [] st = refl
announce-wal f (g ∷ gs) st = announce-wal f gs _

signal_close_parked-wal : (c : Bytes) (st : ShardState) → (signal_close_parked c st).wal ≡ st.wal
unfolding signal_close_parked
signal_close_parked-wal c st = elim (Option-cases (get c st.sessions)) [
  | inl n ↦ rw (signal_close_parked, n) refl
  | inr (s, e) ↦ elim (Bool-cases s.parked) [
    | inl p ↦ rw (signal_close_parked, e, p) refl
    | inr p ↦ rw (signal_close_parked, e, p) refl
  ]
]

discarded-AreApart : (c : Bytes) (st : ShardState) → AreApart st.wal → AreApart (discarded c st).wal
discarded-AreApart c st h = elim (Bool-cases (contains_key c st.sessions)) [
  | inl p ↦
      rw (discarded, p)
        (wal_removed-AreApart c
          (record st { sessions = remove c st.sessions; trie = remove_client_rec c st.trie }) h)
  | inr p ↦ rw (discarded, p) h
]

resumes-AreApart :
    (c : Bytes) (mailbox : Mailbox) (g : ℕ) (st : ShardState)
    → AreApart st.wal
    → AreApart (resumes c mailbox g st).0.wal
resumes-AreApart c mailbox g st h = elim (Option-cases (get c st.sessions)) [
  | inl n ↦ rw (resumes, n) h
  | inr (s, e) ↦
      rw (resumes, e)
        (wal_removed-AreApart c _
          (subst AreApart (sym (announce-wal (λ g. join g c) (shared_groups_of c _) _)) h))
]

open_session-AreApart :
    (c : Bytes) (mailbox : Mailbox) (clean : Bool) (st : ShardState)
    → AreApart st.wal
    → AreApart (open_session c mailbox clean st).0.wal
unfolding open_session
open_session-AreApart c mailbox true st h =
    discarded-AreApart c _ (subst AreApart (sym (signal_close_parked-wal c _)) h)
open_session-AreApart c mailbox false st h =
    resumes-AreApart c mailbox _ _ (subst AreApart (sym (signal_close_parked-wal c _)) h)

left-AreApart :
    (c : Bytes) (gs : List Bytes) (b : Bool) (x y : ShardState)
    → AreApart x.wal
    → AreApart y.wal
    → AreApart (left c gs (if b then x else y)).wal
left-AreApart c gs true x y h k = subst AreApart (sym (announce-wal (λ g. leave g c) gs x)) h
left-AreApart c gs false x y h k = subst AreApart (sym (announce-wal (λ g. leave g c) gs y)) k

close_session-AreApart :
    (c : Bytes) (g expiry_secs now : ℕ) (snapshot : SessionSnapshot) (pending : List Delivery)
    (st : ShardState)
    → AreApart st.wal
    → AreApart (close_session c g expiry_secs now snapshot pending st).0.wal
unfolding close_session
close_session-AreApart c g expiry_secs now snapshot pending st h =
    elim (Option-cases (get c st.sessions)) [
      | inl n ↦ rw (close_session, n) h
      | inr (s, e) ↦ elim (Bool-cases (owns g s)) [
        | inl o ↦
            rw (close_session, e, o)
              (left-AreApart c (shared_groups_of c st) (expiry_secs == 0) _ _
                (wal_removed-AreApart c _ h) (wal_dirty-AreApart c _ h))
        | inr o ↦ rw (close_session, e, o) h
      ]
    ]

suspend_parked-AreApart :
    (c : Bytes) (g expiry_secs now : ℕ) (st : ShardState)
    → AreApart st.wal
    → AreApart (suspend_parked c g expiry_secs now st).0.wal
unfolding suspend_parked
suspend_parked-AreApart c g expiry_secs now st h = elim (Option-cases (get c st.sessions)) [
  | inl n ↦ rw (suspend_parked, n) h
  | inr (s, e) ↦ elim (Bool-cases (owns g s && s.parked)) [
    | inl o ↦
        rw (suspend_parked, e, o)
          (left-AreApart c (shared_groups_of c st) (expiry_secs == 0) _ _
            (wal_removed-AreApart c _ h) (wal_dirty-AreApart c _ h))
    | inr o ↦ rw (suspend_parked, e, o) h
  ]
]

park_session-wal :
    (c : Bytes) (g : ℕ) (x : SessionSnapshot) (st : ShardState)
    → (park_session c g x st).0.wal ≡ st.wal
unfolding park_session
park_session-wal c g x st = elim (Option-cases (get c st.sessions)) [
  | inl n ↦ rw (park_session, n) refl
  | inr (s, e) ↦ elim (Bool-cases (owns g s && is_live s)) [
    | inl o ↦ rw (park_session, e, o) refl
    | inr o ↦ rw (park_session, e, o) refl
  ]
]

reattach_parked-wal :
    (c : Bytes) (g : ℕ) (mailbox : Mailbox) (st : ShardState)
    → (reattach_parked c g mailbox st).0.wal ≡ st.wal
unfolding reattach_parked
reattach_parked-wal c g mailbox st = elim (Option-cases (get c st.sessions)) [
  | inl n ↦ rw (reattach_parked, n) refl
  | inr (s, e) ↦ elim (Bool-cases (owns g s && s.parked)) [
    | inl o ↦ rw (reattach_parked, e, o) refl
    | inr o ↦ rw (reattach_parked, e, o) refl
  ]
]

-- One call on the shard.
pub data Step : Type 0 where
  opens : Bytes → Mailbox → Bool → Step
  parks : Bytes → ℕ → SessionSnapshot → Step
  reattaches : Bytes → ℕ → Mailbox → Step
  suspends : Bytes → ℕ → ℕ → ℕ → Step
  closes : Bytes → ℕ → ℕ → ℕ → SessionSnapshot → List Delivery → Step

unfoldable pub perform : Step → ShardState → ShardState
perform (opens c mailbox clean) st = (open_session c mailbox clean st).0
perform (parks c g snapshot) st = (park_session c g snapshot st).0
perform (reattaches c g mailbox) st = (reattach_parked c g mailbox st).0
perform (suspends c g expiry_secs now) st = (suspend_parked c g expiry_secs now st).0
perform (closes c g expiry_secs now snapshot pending) st =
    (close_session c g expiry_secs now snapshot pending st).0

unfoldable pub perform_all : List Step → ShardState → ShardState
perform_all [] st = st
perform_all (x ∷ xs) st = perform_all xs (perform x st)

perform-AreApart : (x : Step) (st : ShardState) → AreApart st.wal → AreApart (perform x st).wal
unfolding perform
perform-AreApart (opens c mailbox clean) st h = open_session-AreApart c mailbox clean st h
perform-AreApart (parks c g x) st h = rw (park_session-wal c g x st) h
perform-AreApart (reattaches c g mailbox) st h = rw (reattach_parked-wal c g mailbox st) h
perform-AreApart (suspends c g e now) st h = suspend_parked-AreApart c g e now st h
perform-AreApart (closes c g e now x pending) st h = close_session-AreApart c g e now x pending st h

-- However sessions are opened, parked, attached again, suspended and closed, no client id is ever
-- marked both dirty and removed for the log, if none is at the start.
pub perform_all-AreApart :
    (xs : List Step) (st : ShardState) → AreApart st.wal → AreApart (perform_all xs st).wal
unfolding perform_all
perform_all-AreApart [] st h = h
perform_all-AreApart (x ∷ xs) st h =
    perform_all-AreApart xs (perform x st) (perform-AreApart x st h)
