-- ===== src/Persistence/Session.antt =====
-- src/persistence/session.rs: the encoding of a durable session. A writer's result is what it
-- appends to the buffer; `none` stands for an error of the wire codec.
pub mod Parts
pub mod Laws
use rusquitto.Base.{
  ℕ, zero, suc, ◌+◌, ◌*◌, ◌/◌, ◌%◌, Bool, true, false, not, Option, none, some, List, [], ◌∷◌, ◌++◌,
  ◌==◌, nat_eq, if◌then◌else◌, length,
}
use mathlib.Core.Option
use rusquitto.Base.Text.{Bytes, codes}
use rusquitto.Base.Assoc.{Assoc, insert}
use rusquitto.Protocol.{Qos}
use rusquitto.Broker.Messages.{
  Publish, InflightState, qos1, qos2_pending, qos2_released, InflightMessage, MigratedSub,
  MigratedSession, PersistedSession,
}
use rusquitto.Persistence.Codec.{
  Reads, pure, fail, ◌>>=◌, ◌⊕◌, Wire, invalid_data, u32_mod, put_u8, put_u16, put_u32, put_str,
  put_opt_str, put_opt_u32, put_publish, qos_to_u8, qos_from_u8, expect_magic, get_u8, get_u16,
  get_u32, get_str, get_opt_str, get_opt_u32, get_publish, Result, ok, err,
}

abbrev pub magic : Bytes
magic = codes "RQS1"

-- `u8::from(b)`
abbrev pub flag : Bool → ℕ
flag true = 1
flag false = 0

-- `flags & 1 != 0` and `flags & 2 != 0`
abbrev pub low_flag : ℕ → Bool
low_flag flags = not (flags % 2 == 0)

abbrev pub high_flag : ℕ → Bool
high_flag flags = not (flags / 2 % 2 == 0)

unfoldable pub state_to_u8 : InflightState → ℕ
state_to_u8 qos1 = 0
state_to_u8 qos2_pending = 1
state_to_u8 qos2_released = 2

unfoldable pub state_from_u8 : ℕ → Reads InflightState
state_from_u8 v =
    if v == 0
    then pure qos1
    else if v == 1
    then pure qos2_pending
    else if v == 2
    then pure qos2_released
    else fail invalid_data

-- The `for` loops of the writer.
abbrev pub put_each : {A : Type 0} → (A → Option Bytes) → List A → Option Bytes
put_each f [] = some []
put_each f (x ∷ xs) = f x ⊕ put_each f xs

-- The length prefix, cast by `as u32`.
abbrev pub put_count : {A : Type 0} → List A → Option Bytes
put_count xs = some (put_u32 (length xs % u32_mod))

unfoldable pub encode_sub : MigratedSub → Option Bytes
encode_sub s =
    some (put_str s.filter)
    ⊕ some (put_u8 (qos_to_u8 s.qos))
    ⊕ some (put_u8 (flag s.nolocal + 2 * flag s.retain_as_published))
    ⊕ some (put_opt_str s.share_group)
    ⊕ some (put_opt_u32 (Option.map (λ id. id % u32_mod) s.sub_id))

unfoldable pub encode_inflight : Wire → ℕ × InflightMessage → Option Bytes
encode_inflight w (pkid, msg) =
    some (put_u16 pkid) ⊕ some (put_u8 (state_to_u8 msg.state)) ⊕ put_publish w msg.publish

unfoldable pub encode_incoming : Wire → ℕ × Publish → Option Bytes
encode_incoming w (pkid, publish) = some (put_u16 pkid) ⊕ put_publish w publish

unfoldable pub encode_offline : Wire → Publish × Qos × Bool × List ℕ → Option Bytes
encode_offline w (publish, qos, retain, sub_ids) =
    some (put_u8 (qos_to_u8 qos))
    ⊕ some (put_u8 (flag retain))
    ⊕ put_count sub_ids
    ⊕ put_each (λ id. some (put_u32 (id % u32_mod))) sub_ids
    ⊕ put_publish w publish

unfoldable pub encode_body : Wire → MigratedSession → Option Bytes
encode_body w s =
    put_count s.subscriptions
    ⊕ put_each encode_sub s.subscriptions
    ⊕ some (put_u16 s.next_pkid)
    ⊕ put_count s.inflight
    ⊕ put_each (encode_inflight w) s.inflight
    ⊕ put_count s.incoming_qos2
    ⊕ put_each (encode_incoming w) s.incoming_qos2
    ⊕ put_count s.offline
    ⊕ put_each (encode_offline w) s.offline

unfoldable pub encode_session : Wire → PersistedSession → Option Bytes
encode_session w ps =
    some (put_str ps.client_id) ⊕ some (put_u32 ps.expiry_secs) ⊕ encode_body w ps.session

unfoldable pub serialize : Wire → List PersistedSession → Option Bytes
serialize w sessions = some magic ⊕ put_count sessions ⊕ put_each (encode_session w) sessions

-- The `for` loops of the reader, into a vector and into a `HashMap`.
unfoldable pub get_each : {A : Type 0} → ℕ → Reads A → Reads (List A)
get_each zero m = pure []
get_each (suc n) m = do x ← m; xs ← get_each n m; pure (x ∷ xs)

unfoldable pub get_entries : {V : Type 0} → ℕ → Reads (ℕ × V) → Assoc ℕ V → Reads (Assoc ℕ V)
get_entries zero m out = pure out
get_entries (suc n) m out = do e ← m; get_entries n m (insert e.0 e.1 out)

unfoldable pub get_qos : Reads Qos
get_qos = do v ← get_u8; qos_from_u8 v

unfoldable pub get_state : Reads InflightState
get_state = do v ← get_u8; state_from_u8 v

-- `utf8` stands for the check of `String::from_utf8`.
module _ (utf8 : Bytes → Bool) (w : Wire) where
  unfoldable pub decode_sub : Reads MigratedSub
  decode_sub = do
    filter ← get_str utf8
    qos ← get_qos
    flags ← get_u8
    share_group ← get_opt_str utf8
    sub_id ← get_opt_u32
    pure (record {
      filter = filter;
      qos = qos;
      nolocal = low_flag flags;
      retain_as_published = high_flag flags;
      share_group = share_group;
      sub_id = sub_id;
    })

  unfoldable pub decode_inflight : Reads (ℕ × InflightMessage)
  decode_inflight = do
    pkid ← get_u16
    state ← get_state
    publish ← get_publish w
    pure (pkid, record { publish = publish; state = state })

  unfoldable pub decode_incoming : Reads (ℕ × Publish)
  decode_incoming = do pkid ← get_u16; publish ← get_publish w; pure (pkid, publish)

  unfoldable pub decode_offline : Reads (Publish × Qos × Bool × List ℕ)
  decode_offline = do
    qos ← get_qos
    retain ← get_u8
    sid_count ← get_u32
    sub_ids ← get_each sid_count get_u32
    publish ← get_publish w
    pure (publish, qos, not (retain == 0), sub_ids)

  unfoldable pub decode_body : Reads MigratedSession
  decode_body = do
    sub_count ← get_u32
    subscriptions ← get_each sub_count decode_sub
    next_pkid ← get_u16
    inflight_count ← get_u32
    inflight ← get_entries inflight_count decode_inflight []
    incoming_count ← get_u32
    incoming_qos2 ← get_entries incoming_count decode_incoming []
    offline_count ← get_u32
    offline ← get_each offline_count decode_offline
    pure (record {
      subscriptions = subscriptions;
      inflight = inflight;
      incoming_qos2 = incoming_qos2;
      next_pkid = next_pkid;
      offline = offline;
    })

  unfoldable pub decode_session : Reads PersistedSession
  decode_session = do
    client_id ← get_str utf8
    expiry_secs ← get_u32
    session ← decode_body
    pure (record { client_id = client_id; expiry_secs = expiry_secs; session = session })

  unfoldable pub parse : Bytes → Result (List PersistedSession × Bytes)
  parse = do _ ← expect_magic magic; count ← get_u32; get_each count decode_session
