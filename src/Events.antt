-- ===== src/Events.antt =====
-- events/events.go and events/topic.go: the event that the engines emit, and the names of its types.
-- Children: Topic, what holds of topics; Examples (tests).
pub mod Topic
mod Examples
use clusdr.Prelude.{
  ℕ, Bool, Option, none, some, List, String, ltb, if◌then◌else◌, str_eq, codes, byte_len, join,
  strip_prefix,
}
use clusdr.Fault.{Error, topic_required, topic_too_long, topic_invalid_char}
use clusdr.Clock.{Time, zero_time}
use clusdr.Names.{Unicode, first_bad}

-- Payloads: what the emitters marshal to JSON, or opaque bytes.
pub data Payload : Type 0 where
  nil : Payload
  bytes : List ℕ → Payload
  grant_info : String → ℕ → Payload
  member_info : String → String → Payload
  snapshot_info : String → Payload
  gap_info : ℕ → ℕ → Payload

pub record Event : Type 0 where
  pub kind : String
  pub source : String
  pub payload : Payload
  pub timestamp : Time
  pub seq : ℕ

-- An event as an emitter builds it: the bus stamps its time and its sequence number.
abbrev pub event : String → String → Payload → Event
event kind source payload = record {
  kind = kind;
  source = source;
  payload = payload;
  timestamp = zero_time;
  seq = 0;
}

abbrev pub member_join : String
member_join = "member.join"

abbrev pub member_dead : String
member_dead = "member.dead"

abbrev pub member_left : String
member_left = "member.left"

abbrev pub leader_changed : String
leader_changed = "leader.changed"

abbrev pub lock_expired : String
lock_expired = "lock.expired"

abbrev pub lease_granted : String
lease_granted = "lease.granted"

abbrev pub lease_expired : String
lease_expired = "lease.expired"

abbrev pub lease_revoked : String
lease_revoked = "lease.revoked"

abbrev pub watch_sync : String
watch_sync = "watch.sync"

abbrev pub watch_gap : String
watch_gap = "watch.gap"

abbrev pub custom_prefix : String
custom_prefix = "custom."

abbrev pub max_topic_len : ℕ
max_topic_len = 128

abbrev pub max_payload_bytes : ℕ
max_payload_bytes = 65_536

-- CustomType.
unfoldable pub custom_type : String → String
custom_type topic = join custom_prefix topic

-- NormalizeTopic: strings.TrimPrefix.
unfoldable pub normalize_topic : String → String
normalize_topic topic = elim (strip_prefix custom_prefix topic) [ none ↦ topic | some rest ↦ rest ]

-- TopicFromType; `none` is `("", false)`.
unfoldable pub topic_from_type : String → Option String
topic_from_type kind = elim (strip_prefix custom_prefix kind) [
  | none ↦ none
  | some topic ↦ if str_eq topic "" then none else some topic
]

check_topic : Unicode → String → Option Error
check_topic u topic =
    if str_eq topic ""
    then some topic_required
    else if ltb max_topic_len (byte_len (codes topic))
    then some topic_too_long
    else elim (first_bad u (codes topic)) [ none ↦ none | some r ↦ some (topic_invalid_char r) ]

-- ValidTopic.
unfoldable pub valid_topic : Unicode → String → Option Error
unfolding check_topic
valid_topic u topic = check_topic u (normalize_topic topic)
