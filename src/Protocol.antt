-- ===== src/Protocol.antt =====
-- src/protocol.rs: the QoS arithmetic, topic and filter validation, shared-subscription parsing.
pub mod Laws
mod Tests
use rusquitto.Base.{
  ℕ, suc, ◌+◌, ◌≡◌, Bool, true, false, not, ◌&&◌, ◌||◌, Option, none, some, List, [], ◌∷◌, ◌==◌,
  nat_eq, list_eq, if◌then◌else◌, leb, ltb, length, is_empty,
}
use rusquitto.Base.Text.{Bytes, codes, split, split_once, contains, starts_with, strip_prefix}

-- `mqttbytes::QoS`, whose discriminants are 0, 1 and 2.
pub data Qos : Type 0 where
  at_most_once at_least_once exactly_once : Qos

-- `qos as u8`
abbrev pub qos_num : Qos → ℕ
qos_num at_most_once = 0
qos_num at_least_once = 1
qos_num exactly_once = 2

unfoldable pub min_qos : Qos → Qos → Qos
min_qos a b = if leb (qos_num a) (qos_num b) then a else b

-- `mqtt_v5::SubscribeReasonCode`, the codes that the broker returns.
pub data SubscribeReasonCode : Type 0 where
  qos0 qos1 qos2 topic_filter_invalid not_authorized quota_exceeded : SubscribeReasonCode

unfoldable pub sub_reason_code : Qos → SubscribeReasonCode
sub_reason_code at_most_once = qos0
sub_reason_code at_least_once = qos1
sub_reason_code exactly_once = qos2

abbrev pub plus : Bytes
plus = b'+' ∷ []

abbrev pub hash : Bytes
hash = b'#' ∷ []

abbrev pub dollar : ℕ
dollar = b'$'

abbrev pub max_topic_levels : ℕ
max_topic_levels = 128

abbrev pub u16_max : ℕ
u16_max = 65535

abbrev pub share_prefix : Bytes
share_prefix = codes "$share/"

-- The guard on the group and topic of a shared filter.
abbrev pub share_ok : Bytes → Bytes → Bool
share_ok group topic =
    not (is_empty group)
    && not (is_empty topic)
    && not (contains b'+' group)
    && not (contains b'#' group)

-- The filter after the prefix; `none` stands for `Err(())`.
abbrev pub shared_parts : Option (Bytes × Bytes) → Option (Bytes × Option Bytes)
shared_parts none = none
shared_parts (some (group, topic)) = if share_ok group topic then some (topic, some group) else none

unfoldable pub parse_shared_filter : Bytes → Option (Bytes × Option Bytes)
parse_shared_filter filter = elim (strip_prefix share_prefix filter) [
  | none ↦ some (filter, none)
  | some rest ↦ shared_parts (split_once rest)
]

unfoldable pub valid_publish_topic : Bytes → Bool
valid_publish_topic topic =
    not (is_empty topic)
    && leb (length topic) u16_max
    && leb (length (split topic)) max_topic_levels
    && not (starts_with dollar topic)
    && not (contains b'+' topic || contains b'#' topic || contains 0 topic)

-- A level with a wildcard among other bytes.
abbrev pub mixed_level : Bytes → Bool
mixed_level level = ltb 1 (length level) && (contains b'+' level || contains b'#' level)

-- The `while let` loop over the levels; `levels.peek().is_none()` is `is_empty rest`.
unfoldable pub valid_levels : List Bytes → Bool
valid_levels [] = true
valid_levels (level ∷ rest) =
    if level == hash && not (is_empty rest)
    then false
    else if mixed_level level
    then false
    else valid_levels rest

unfoldable pub valid_subscribe_filter : Bytes → Bool
valid_subscribe_filter filter =
    if is_empty filter
      || ltb u16_max (length filter)
      || contains 0 filter
      || ltb max_topic_levels (length (split filter))
    then false
    else valid_levels (split filter)
