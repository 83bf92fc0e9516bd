-- ===== src/Persistence/Wal.antt =====
-- src/persistence/wal.rs: the records of the write-ahead log, their framing, and the replay.
pub mod Laws
pub mod Replay
use rusquitto.Base.{
  ℕ, zero, suc, ◌+◌, ◌%◌, Bool, true, false, ◌||◌, Option, none, some, List, [], ◌∷◌, ◌++◌, ◌==◌,
  nat_eq, list_eq, if◌then◌else◌, length, ltb,
}
use rusquitto.Base.Text.{Bytes}
use rusquitto.Base.Assoc.{Assoc, insert, remove}
use rusquitto.Broker.Messages.{PersistedSession}
use rusquitto.Persistence.Codec.{
  Reads, pure, fail, ◌>>=◌, Result, ok, err, Wire, invalid_data, u32_mod, put_u8, put_u32, put_str,
  get_u8, get_u32, get_str, ◌⊕◌,
}
use rusquitto.Persistence.Session.{encode_session, decode_session}

abbrev pub kind_upsert : ℕ
kind_upsert = 1

abbrev pub kind_remove : ℕ
kind_remove = 2

-- The length prefix is cast by `as u32`.
unfoldable pub frame : Bytes → Bytes
frame rec = put_u32 (length rec % u32_mod) ++ rec

abbrev framed : Option Bytes → Option Bytes
framed none = none
framed (some rec) = some (frame rec)

unfoldable pub encode_upsert : Wire → PersistedSession → Option Bytes
encode_upsert w ps = framed (some (put_u8 kind_upsert) ⊕ encode_session w ps)

unfoldable pub encode_remove : Bytes → Bytes
encode_remove client_id = frame (put_u8 kind_remove ++ put_str client_id)

pub data Record : Type 0 where
  upsert : PersistedSession → Record
  removal : Bytes → Record

module _ (utf8 : Bytes → Bool) (w : Wire) where
  unfoldable pub read_upsert : Reads Record
  read_upsert = do ps ← decode_session utf8 w; pure (upsert ps)

  unfoldable pub read_removal : Reads Record
  read_removal = do id ← get_str utf8; pure (removal id)

  unfoldable pub read_kind : ℕ → Reads Record
  read_kind kind =
      if kind == kind_upsert
      then read_upsert
      else if kind == kind_remove
      then read_removal
      else fail invalid_data

  unfoldable pub read_record : Reads Record
  read_record = do kind ← get_u8; read_kind kind

-- The sessions by client id, and one record applied to them.
abbrev pub Sessions : Type 0
Sessions = Assoc Bytes PersistedSession

unfoldable pub apply_record : Record → Sessions → Sessions
apply_record (upsert ps) m = insert ps.client_id ps m
apply_record (removal id) m = remove id m

-- The end of a round: stop, or go on with what the record's reader left. A round reads at least
-- the four bytes of the length, so the bytes left bound the rounds.
module _ (utf8 : Bytes → Bool) (w : Wire) where
  unfoldable pub next_record : Bytes → Option (Record × Bytes)
  next_record data_left = if ltb (length data_left) 4 then none else elim (get_u32 data_left) [
    | err e ↦ none
    | ok (len, body) ↦
        if len == 0 || ltb (length body) len
        then none
        else elim (read_record utf8 w body) [ err e ↦ none | ok r ↦ some r ]
  ]

  unfoldable pub apply_loop : ℕ → Bytes → Sessions → ℕ → Sessions × ℕ
  apply_loop zero left sessions applied = (sessions, applied)
  apply_loop (suc fuel) left sessions applied = elim (next_record left) [
    | none ↦ (sessions, applied)
    | some (r, rest) ↦ apply_loop fuel rest (apply_record r sessions) (suc applied)
  ]

  unfoldable pub apply : Bytes → Sessions → Sessions × ℕ
  apply log sessions = apply_loop (suc (length log)) log sessions 0
