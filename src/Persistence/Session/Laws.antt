-- ===== src/Persistence/Session/Laws.antt =====
-- src/persistence/session.rs: a session that is written is read back.
use mathlib.Core.List.{append-nil}
use rusquitto.Base.{
  ℕ, ◌<◌, ◌≡◌, refl, ap, subst, Bool, true, none, some, List, [], ◌∷◌, nat_eq, length, arith, All,
  All-imp, map, list_beq,
}
use rusquitto.Base.Text.{Bytes}
use rusquitto.Base.Assoc.{Assoc, get, IsMap, inserts_all}
use rusquitto.Protocol.{Qos}
use rusquitto.Broker.Messages.{
  Publish, InflightMessage, MigratedSub, MigratedSession, PersistedSession,
}
use rusquitto.Persistence.Codec.{pure, ◌>>=◌, Wire, u16_mod, u32_mod, expect_magic, ok}
use rusquitto.Persistence.Codec.Laws.{
  Decodes, Decodes-of, Decodes-bind, Decodes-last, get_u16-Returns, get_u32-Returns,
  get_str-Returns, take_bytes-Returns,
}
use rusquitto.Persistence.Session.Parts.{
  SubFits, PublishFits, placed_inflight, placed_incoming, placed_offline, decode_sub-Decodes,
  decode_inflight-Decodes, decode_incoming-Decodes, decode_offline-Decodes, get_each-Decodes,
  count-Decodes, get_entries-Decodes,
}
use rusquitto.Persistence.Session.{
  put_each, encode_sub, encode_inflight, encode_incoming, encode_offline, encode_body,
  encode_session, serialize, get_each, get_entries, decode_sub, decode_inflight, decode_incoming,
  decode_offline, decode_body, decode_session, parse, magic,
}

-- What a session is read back as: each publish with the packet id that was written for it.
abbrev pub placed : MigratedSession → MigratedSession
placed s = record {
  subscriptions = s.subscriptions;
  inflight = map placed_inflight s.inflight;
  incoming_qos2 = map placed_incoming s.incoming_qos2;
  next_pkid = s.next_pkid;
  offline = map placed_offline s.offline;
}

abbrev pub placed_session : PersistedSession → PersistedSession
placed_session ps = record ps { session = placed ps.session }

-- The ranges of the values that the encoding casts to fixed widths, and what `String`, `HashMap`
-- and the wire codec give for nothing: texts are UTF-8, keys stand once.
pub record BodyFits (utf8 : Bytes → Bool) (w : Wire) (s : MigratedSession) : Type 0 where
  pub sub_count : length s.subscriptions < u32_mod
  pub subs : All (λ x. SubFits utf8 x) s.subscriptions
  pub pkid : s.next_pkid < u16_mod
  pub inflight_count : length s.inflight < u32_mod
  pub inflight : All (λ x. (x.0 < u16_mod) × PublishFits w x.1.publish) s.inflight
  pub inflight_map : IsMap s.inflight
  pub incoming_count : length s.incoming_qos2 < u32_mod
  pub incoming : All (λ x. (x.0 < u16_mod) × PublishFits w x.1) s.incoming_qos2
  pub incoming_map : IsMap s.incoming_qos2
  pub offline_count : length s.offline < u32_mod
  pub offline :
      All
        (λ (x : Publish × Qos × Bool × List ℕ).
          (length x.3 < u32_mod) × All (λ i. i < u32_mod) x.3 × PublishFits w x.0)
        s.offline

pub record SessionFits (utf8 : Bytes → Bool) (w : Wire) (ps : PersistedSession) : Type 0 where
  pub id_short : length ps.client_id < u16_mod
  pub id_text : utf8 ps.client_id ≡ true
  pub expiry : ps.expiry_secs < u32_mod
  pub body : BodyFits utf8 w ps.session

get-placed_inflight :
    (k : ℕ) (m : Assoc ℕ InflightMessage) → get k m ≡ none → get k (map placed_inflight m) ≡ none
get-placed_inflight k [] h = refl
get-placed_inflight k ((j, x) ∷ m) h = ground (arith, get-placed_inflight k m)

placed_inflight-IsMap : (m : Assoc ℕ InflightMessage) → IsMap m → IsMap (map placed_inflight m)
placed_inflight-IsMap [] h = tt
placed_inflight-IsMap ((k, x) ∷ m) h = (get-placed_inflight k m h.0, placed_inflight-IsMap m h.1)

get-placed_incoming :
    (k : ℕ) (m : Assoc ℕ Publish) → get k m ≡ none → get k (map placed_incoming m) ≡ none
get-placed_incoming k [] h = refl
get-placed_incoming k ((j, x) ∷ m) h = ground (arith, get-placed_incoming k m)

placed_incoming-IsMap : (m : Assoc ℕ Publish) → IsMap m → IsMap (map placed_incoming m)
placed_incoming-IsMap [] h = tt
placed_incoming-IsMap ((k, x) ∷ m) h = (get-placed_incoming k m h.0, placed_incoming-IsMap m h.1)

map_id {ℓ} : {A : Type ℓ} (xs : List A) → map (λ x. x) xs ≡ xs
map_id [] = refl
map_id (x ∷ xs) = ap (◌∷◌ x) (map_id xs)

module _ (utf8 : Bytes → Bool) (w : Wire) where
  subs-Decodes :
      (xs : List MigratedSub)
      → All (λ x. SubFits utf8 x) xs
      → Decodes (put_each encode_sub xs) (get_each (length xs) (decode_sub utf8 w)) xs
  subs-Decodes xs h =
      subst (Decodes (put_each encode_sub xs) (get_each (length xs) (decode_sub utf8 w)))
        (map_id xs)
        (get_each-Decodes encode_sub (decode_sub utf8 w) (λ x. x) xs
          (All-imp {P = λ x. SubFits utf8 x} {Q = λ x. Decodes (encode_sub x) (decode_sub utf8 w) x}
            (decode_sub-Decodes utf8 w) xs h))

  inflight-Decodes :
      (xs : Assoc ℕ InflightMessage)
      → IsMap xs
      → All (λ x. (x.0 < u16_mod) × PublishFits w x.1.publish) xs
      → Decodes
          (put_each (encode_inflight w) xs)
          (get_entries (length xs) (decode_inflight utf8 w) [])
          (map placed_inflight xs)
  inflight-Decodes xs m h =
      subst
        (Decodes (put_each (encode_inflight w) xs)
          (get_entries (length xs) (decode_inflight utf8 w) []))
        (inserts_all [] (map placed_inflight xs) (placed_inflight-IsMap xs m))
        (get_entries-Decodes (encode_inflight w) (decode_inflight utf8 w) placed_inflight xs [] (
          All-imp {P = λ x. (x.0 < u16_mod) × PublishFits w x.1.publish}
            {Q = λ x. Decodes (encode_inflight w x) (decode_inflight utf8 w) (placed_inflight x)}
            (decode_inflight-Decodes utf8 w) xs h))

  incoming-Decodes :
      (xs : Assoc ℕ Publish)
      → IsMap xs
      → All (λ x. (x.0 < u16_mod) × PublishFits w x.1) xs
      → Decodes
          (put_each (encode_incoming w) xs)
          (get_entries (length xs) (decode_incoming utf8 w) [])
          (map placed_incoming xs)
  incoming-Decodes xs m h =
      subst
        (Decodes (put_each (encode_incoming w) xs)
          (get_entries (length xs) (decode_incoming utf8 w) []))
        (inserts_all [] (map placed_incoming xs) (placed_incoming-IsMap xs m))
        (get_entries-Decodes (encode_incoming w) (decode_incoming utf8 w) placed_incoming xs [] (
          All-imp {P = λ x. (x.0 < u16_mod) × PublishFits w x.1}
            {Q = λ x. Decodes (encode_incoming w x) (decode_incoming utf8 w) (placed_incoming x)}
            (decode_incoming-Decodes utf8 w) xs h))

  offline-Decodes :
      (xs : List (Publish × Qos × Bool × List ℕ))
      → All
          (λ (x : Publish × Qos × Bool × List ℕ).
            (length x.3 < u32_mod) × All (λ i. i < u32_mod) x.3 × PublishFits w x.0)
          xs
      → Decodes
          (put_each (encode_offline w) xs)
          (get_each (length xs) (decode_offline utf8 w))
          (map placed_offline xs)
  offline-Decodes xs h =
      get_each-Decodes (encode_offline w) (decode_offline utf8 w) placed_offline xs (
        All-imp {P = λ x. (length x.3 < u32_mod) × All (λ i. i < u32_mod) x.3 × PublishFits w x.0}
          {Q = λ x. Decodes (encode_offline w x) (decode_offline utf8 w) (placed_offline x)}
          (λ x q. decode_offline-Decodes utf8 w x.0 x.1 x.2 x.3 q) xs h)

  decode_body-Decodes :
      (s : MigratedSession)
      → BodyFits utf8 w s
      → Decodes (encode_body w s) (decode_body utf8 w) (placed s)
  unfolding encode_body decode_body
  decode_body-Decodes s h = Decodes-bind _ (count-Decodes s.subscriptions h.sub_count) (
      Decodes-bind _ (subs-Decodes s.subscriptions h.subs) (
        Decodes-bind _ (Decodes-of (get_u16-Returns s.next_pkid h.pkid)) (
          Decodes-bind _ (count-Decodes s.inflight h.inflight_count) (
            Decodes-bind _ (inflight-Decodes s.inflight h.inflight_map h.inflight) (
              Decodes-bind _ (count-Decodes s.incoming_qos2 h.incoming_count) (
                Decodes-bind _ (incoming-Decodes s.incoming_qos2 h.incoming_map h.incoming) (
                  Decodes-bind _ (count-Decodes s.offline h.offline_count)
                    (Decodes-last _ (offline-Decodes s.offline h.offline)))))))))

  -- A written session is read back, from whatever follows it.
  pub decode_session-Decodes :
      (ps : PersistedSession)
      → SessionFits utf8 w ps
      → Decodes (encode_session w ps) (decode_session utf8 w) (placed_session ps)
  unfolding encode_session decode_session
  decode_session-Decodes ps h =
      Decodes-bind _ (Decodes-of (get_str-Returns utf8 ps.client_id h.id_short h.id_text)) (
        Decodes-bind _ (Decodes-of (get_u32-Returns ps.expiry_secs h.expiry))
          (Decodes-last _ (decode_body-Decodes ps.session h.body)))

  magic-Decodes : Decodes (some magic) (expect_magic magic) tt
  unfolding expect_magic ◌>>=◌ pure list_beq
  magic-Decodes = Decodes-of (λ rest. rw (take_bytes-Returns magic rest, ◌>>=◌) refl)

  parse-Decodes :
      (sessions : List PersistedSession)
      → length sessions < u32_mod
      → All (λ ps. SessionFits utf8 w ps) sessions
      → Decodes (serialize w sessions) (parse utf8 w) (map placed_session sessions)
  unfolding serialize parse
  parse-Decodes sessions n h = Decodes-bind _ magic-Decodes (
      Decodes-bind _ (count-Decodes sessions n) (
        get_each-Decodes (encode_session w) (decode_session utf8 w) placed_session sessions (
          All-imp {P = λ ps. SessionFits utf8 w ps}
            {Q = λ ps. Decodes (encode_session w ps) (decode_session utf8 w) (placed_session ps)}
            decode_session-Decodes sessions h)))

  -- A snapshot that is written is parsed back, whole: each session with its client, expiry,
  -- subscriptions, in-flight exchanges and queue, each publish with the packet id that was written
  -- for it. The sessions are to fit the fixed widths of the encoding.
  pub parse-serialize :
      (sessions : List PersistedSession) (bs : Bytes)
      → length sessions < u32_mod
      → All (λ ps. SessionFits utf8 w ps) sessions
      → serialize w sessions ≡ some bs
      → parse utf8 w bs ≡ ok (map placed_session sessions, [])
  parse-serialize sessions bs n h e =
      subst (λ r. parse utf8 w r ≡ ok (map placed_session sessions, [])) (append-nil bs)
        ((parse-Decodes sessions n h).back bs e [])
