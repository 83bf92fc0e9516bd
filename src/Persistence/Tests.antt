-- ===== src/Persistence/Tests.antt =====
-- The readers and writers at a small session, with a wire codec that carries the payload of one
-- kind of message.
use rusquitto.Base.{
  ℕ, ◌≤◌, ◌<◌, ◌≡◌, refl, sym, ap, ◌∙◌, subst, Bool, true, false, Option, none, some, List, [], ◌∷◌,
  ◌++◌, nat_eq, list_eq, if◌then◌else◌, length, leb, arith, map,
}
use rusquitto.Base.Text.{Bytes, codes}
use rusquitto.Base.Assoc.{get}
use rusquitto.Protocol.{at_least_once}
use rusquitto.Broker.Messages.{Publish, qos1, PersistedSession}
use rusquitto.Persistence.Codec.{
  ok, Wire, u16_mod, u32_mod, max_packet, put_str, put_opt_str, put_opt_u32, put_publish,
  placeholder, get_publish, ◌⊕◌,
}
use rusquitto.Persistence.Codec.Laws.{Decodes, get_publish-Decodes}
use rusquitto.Persistence.Session.{
  encode_sub, encode_inflight, encode_incoming, encode_offline, encode_body, encode_session,
  serialize, parse, put_each,
}
use rusquitto.Persistence.Session.Parts.{SubFits, PublishFits}
use rusquitto.Persistence.Session.Laws.{placed_session, SessionFits, parse-serialize}
use rusquitto.Persistence.Wal.{Record, upsert, removal, frame, encode_upsert, encode_remove, apply}
use rusquitto.Persistence.Wal.Laws.{encode_record, RecordFits}
use rusquitto.Persistence.Wal.Replay.{last_word, apply-torn}

abbrev message : Bytes → Publish
message b = record {
  dup = false;
  qos = at_least_once;
  retain = false;
  topic = codes "q";
  pkid = 1;
  properties = none;
  payload = b;
}

abbrev read_message : Bytes → ℕ → Option Publish
read_message b max = if leb (length b) max then some (message b) else none

payload_of : (a b : Bytes) → some a ≡ some b → a ≡ b
payload_of a b e = cc

within : (n max : ℕ) → n ≤ max → leb n max ≡ true
within n max h = ground arith

read_message-message :
    (p : Publish) (w : Bytes) (max : ℕ)
    → p ≡ message p.payload
    → some p.payload ≡ some w
    → length w ≤ max
    → read_message w max ≡ some p
read_message-message p w max x e h =
    rw (within (length w) max h) (ap some (sym (x ∙ ap message (payload_of p.payload w e))))

abbrev wire : Wire
wire = record {
  write = λ p. some p.payload;
  read = read_message;
  Expressible = λ p. p ≡ message p.payload;
  read-write = read_message-message;
}

abbrev any_text : Bytes → Bool
any_text b = true

-- A message without a packet id, as it is queued.
abbrev queued : Publish
queued = record (message (codes "hi")) { pkid = 0 }

abbrev sample : PersistedSession
sample = record {
  client_id = codes "ann";
  expiry_secs = 60;
  session = record {
    subscriptions =
        record {
          filter = codes "h/+";
          qos = at_least_once;
          nolocal = true;
          retain_as_published = false;
          share_group = some (codes "g");
          sub_id = some 7;
        }
        ∷ [];
    inflight = (3, record { publish = message (codes "a"); state = qos1 }) ∷ [];
    incoming_qos2 = (4, message (codes "b")) ∷ [];
    next_pkid = 5;
    offline = (queued, at_least_once, false, 7 ∷ []) ∷ [];
  };
}

carried : (b : Bytes) → length b ≤ 10 → (c : Bytes) → some b ≡ some c → length c ≤ max_packet
carried b h c e = subst (λ c. length c ≤ max_packet) (payload_of b c e) (omega arith)

message-PublishFits : (b : Bytes) → length b ≤ 10 → PublishFits wire (message b)
unfolding placeholder
message-PublishFits b h = record { expressible = refl; bounded = carried b h }

queued-PublishFits : PublishFits wire queued
unfolding placeholder
queued-PublishFits = record { expressible = refl; bounded = carried (codes "hi") (omega arith) }

sub-SubFits : SubFits any_text (record {
  filter = codes "h/+";
  qos = at_least_once;
  nolocal = true;
  retain_as_published = false;
  share_group = some (codes "g");
  sub_id = some 7;
})
sub-SubFits = record {
  filter_short = omega arith;
  filter_text = refl;
  group = λ g e. (subst (λ g. length g < u16_mod) (payload_of (codes "g") g e) (omega arith), refl);
  identifier = λ i e. subst (λ i. i < u32_mod) (seven i e) (omega arith);
}
  where
    seven : (i : ℕ) → some 7 ≡ some i → 7 ≡ i
    seven i e = cc

sample-SessionFits : SessionFits any_text wire sample
sample-SessionFits = record {
  id_short = omega arith;
  id_text = refl;
  expiry = omega arith;
  body = record {
    sub_count = omega arith;
    subs = (sub-SubFits, tt);
    pkid = omega arith;
    inflight_count = omega arith;
    inflight = ((omega arith, message-PublishFits (codes "a") (omega arith)), tt);
    inflight_map = (refl, tt);
    incoming_count = omega arith;
    incoming = ((omega arith, message-PublishFits (codes "b") (omega arith)), tt);
    incoming_map = (refl, tt);
    offline_count = omega arith;
    offline = ((omega arith, (omega arith, tt), queued-PublishFits), tt);
  };
}

abbrev bytes_of : Option Bytes → Bytes
bytes_of none = []
bytes_of (some b) = b

abbrev snapshot : Bytes
snapshot = bytes_of (serialize wire (sample ∷ []))

snapshot-serialize : serialize wire (sample ∷ []) ≡ some snapshot
unfolding serialize encode_session encode_body encode_sub encode_inflight encode_incoming
    encode_offline ◌⊕◌ put_str put_opt_str put_opt_u32 put_publish placeholder
snapshot-serialize = refl

parse-serialize_example : parse any_text wire snapshot ≡ ok (map placed_session (sample ∷ []), [])
parse-serialize_example =
    parse-serialize any_text wire (sample ∷ []) snapshot (omega arith) (sample-SessionFits, tt)
      snapshot-serialize

get_publish-Decodes_example :
    Decodes (put_publish wire queued) (get_publish wire) (placeholder queued)
get_publish-Decodes_example =
    get_publish-Decodes wire queued queued-PublishFits.expressible queued-PublishFits.bounded

abbrev records : List Record
records = removal (codes "bob") ∷ upsert sample ∷ []

abbrev log : Bytes
log = bytes_of (put_each (encode_record wire) records)

log-put_each : put_each (encode_record wire) records ≡ some log
unfolding encode_record encode_upsert encode_remove frame encode_session encode_body encode_sub
    encode_inflight encode_incoming encode_offline ◌⊕◌ put_str put_opt_str put_opt_u32 put_publish
    placeholder
log-put_each = refl

removal-RecordFits : RecordFits any_text wire (removal (codes "bob"))
unfolding ◌⊕◌ put_str
removal-RecordFits = record {
  content = (omega arith, refl);
  short = λ p e. subst (λ p. length p < u32_mod) (payload_of _ p e) (omega arith);
}

upsert-RecordFits : RecordFits any_text wire (upsert sample)
unfolding encode_session encode_body encode_sub encode_inflight encode_incoming encode_offline ◌⊕◌
    put_str put_opt_str put_opt_u32 put_publish placeholder
upsert-RecordFits = record {
  content = sample-SessionFits;
  short = λ p e. subst (λ p. length p < u32_mod) (payload_of _ p e) (omega arith);
}

-- The crash leaves six bytes of a further tombstone.
abbrev tail_written : Bytes
tail_written = 6 ∷ 0 ∷ 0 ∷ 0 ∷ 2 ∷ 3 ∷ []

abbrev tail_lost : Bytes
tail_lost = 0 ∷ codes "bob"

tombstone-encode_record :
    encode_record wire (removal (codes "bob")) ≡ some (tail_written ++ tail_lost)
unfolding encode_record encode_remove frame put_str
tombstone-encode_record = refl

apply-torn_example :
    ((apply any_text wire (log ++ tail_written) []).1 ≡ 2)
    × (get (codes "ann") (apply any_text wire (log ++ tail_written) []).0
        ≡ last_word records (codes "ann") none)
apply-torn_example =
    apply-torn any_text wire records (removal (codes "bob")) log tail_written tail_lost
      (codes "ann") [] (removal-RecordFits, (upsert-RecordFits, tt)) removal-RecordFits log-put_each
      tombstone-encode_record (λ e. ground arith)
