-- ===== src/Watch.antt =====
-- grpcserver/watch.go: the stream of events that WatchService sends to a client.
-- The stream's transport is a parameter: `transport n` is what the send after n successful ones
-- reports. JSON payloads are kept as what they are made from. Children: Filters and Opening
-- (theorems), Examples (tests).
pub mod Filters
pub mod Opening
mod Examples
use clusdr.Prelude.{
  pos, ℕ, Bool, true, false, not, ◌&&◌, ◌||◌, Option, none, some, List, [], ◌∷◌, ◌++◌, String,
  str_eq, ltb, leb, ◌-◌, length, if◌then◌else◌, ℤ, inc_uint64,
}
use clusdr.Fault.{Error}
use clusdr.Clock.{Time, to_unix_ms}
use clusdr.Names.{Unicode}
use clusdr.Events.{
  Event, Payload, nil, snapshot_info, gap_info, watch_sync, watch_gap, member_join, member_dead,
  leader_changed, topic_from_type, normalize_topic, valid_topic,
}
use clusdr.Membership.{Member, normalize_status, status_alive, status_dead}
use clusdr.Bus.{Bus, subscribe, unsubscribe, receive, take_dropped, last_seq}

pub record WatchRequest : Type 0 where
  pub event_types : List String
  pub topics : List String
  pub last_seq : ℕ

pub record WatchResponse : Type 0 where
  pub kind : String
  pub source : String
  pub payload : Payload
  pub timestamp_unix_ms : ℤ
  pub seq : ℕ

-- The server's side of the stream: what was sent, and the transport.
pub record Stream : Type 0 where
  pub sent : List WatchResponse
  pub transport : ℕ → Option Error

-- stream.Send.
unfoldable pub send : WatchResponse → Stream → Stream × Option Error
send r st = elim (st.transport (length st.sent)) [
  | none ↦ (record st { sent = st.sent ++ (r ∷ []) }, none)
  | some e ↦ (st, some e)
]

-- `if err := ...; err != nil { return err }`, and then the rest.
abbrev pub and_then :
    Stream × Option Error → (Stream → Stream × Option Error) → Stream × Option Error
and_then (st, none) k = k st
and_then (st, some e) k = (st, some e)

-- matchesType.
unfoldable pub listed : List String → String → Bool
listed [] kind = false
listed (f ∷ filter) kind = str_eq f kind || listed filter kind

abbrev pub matches_type : List String → String → Bool
matches_type [] kind = true
matches_type (f ∷ filter) kind = listed (f ∷ filter) kind

-- topicListed.
unfoldable pub topic_listed : List String → String → Bool
topic_listed [] topic = false
topic_listed (t ∷ topics) topic = str_eq (normalize_topic t) topic || topic_listed topics topic

-- isProtocolEvent.
abbrev pub is_protocol_event : String → Bool
is_protocol_event t = str_eq t watch_sync || str_eq t watch_gap

abbrev pub listed_topic : List String → Option String → Bool
listed_topic topics none = false
listed_topic topics (some topic) = topic_listed topics topic

-- The topics filter of matchesWatch; no topics let every type pass.
abbrev pub passes_topics : List String → String → Bool
passes_topics [] kind = true
passes_topics (t ∷ topics) kind = listed_topic (t ∷ topics) (topic_from_type kind)

-- matchesWatch.
unfoldable pub matches_watch : WatchRequest → String → Bool
matches_watch req kind =
    if is_protocol_event kind
    then true
    else if passes_topics req.topics kind
    then matches_type req.event_types kind
    else false

-- validateWatchRequest, up to the status code.
unfoldable pub validate_topics : Unicode → List String → Option Error
validate_topics u [] = none
validate_topics u (t ∷ ts) =
    let rest = validate_topics u ts in elim (valid_topic u t) [ none ↦ rest | some e ↦ some e ]

-- sendSync.
abbrev pub sync_response : Time → ℕ → WatchResponse
sync_response now seq = record {
  kind = watch_sync;
  source = "";
  payload = nil;
  timestamp_unix_ms = to_unix_ms now;
  seq = seq;
}

-- sendGap.
abbrev pub gap_response : Time → ℕ → ℕ → WatchResponse
gap_response now from to = record {
  kind = watch_gap;
  source = "";
  payload = gap_info from to;
  timestamp_unix_ms = to_unix_ms now;
  seq = 0;
}

abbrev pub snapshot_response : Time → String → String → Payload → WatchResponse
snapshot_response now kind source payload = record {
  kind = kind;
  source = source;
  payload = payload;
  timestamp_unix_ms = to_unix_ms now;
  seq = 0;
}

-- The type of the event that stands for a member in the snapshot; `none` skips the member.
unfoldable pub snapshot_kind : Member → Option String
snapshot_kind m =
    if str_eq (normalize_status m.status) status_dead
    then some member_dead
    else if str_eq m.status status_alive
    then some member_join
    else none

-- The loop of sendSnapshot over the members.
unfoldable pub send_members : WatchRequest → Time → List Member → Stream → Stream × Option Error
send_members req now [] st = (st, none)
send_members req now (m ∷ ms) st = elim (snapshot_kind m) [
  | none ↦ send_members req now ms st
  | some kind ↦ elim (matches_watch req kind) [
    | false ↦ send_members req now ms st
    | true ↦
        and_then (send (snapshot_response now kind m.id (snapshot_info m.address)) st)
          (send_members req now ms)
  ]
]

-- sendSnapshot.
unfoldable pub send_snapshot :
    WatchRequest → Time → List Member → String → Stream → Stream × Option Error
unfolding send_members send
send_snapshot req now members leader_id st = and_then (send_members req now members st) (λ st'.
    if not (str_eq leader_id "") && matches_watch req leader_changed
    then send (snapshot_response now leader_changed leader_id nil) st'
    else (st', none))

-- The part of Watch before its loop, once it has subscribed: the snapshot, watch.sync with the bus's
-- high-water mark, and watch.gap for a client that has seen less. Each of the three reads the clock.
unfoldable pub opening :
    WatchRequest → Time → Time → Time → List Member → String → ℕ → Stream → Stream × Option Error
unfolding send_snapshot send
opening req now now' now'' members leader_id from_seq st =
    and_then (send_snapshot req now members leader_id st) (λ st'.
      and_then (send (sync_response now' from_seq) st') (λ st''.
        if ltb 0 req.last_seq && ltb req.last_seq from_seq
        then send (gap_response now'' (inc_uint64 req.last_seq) from_seq) st''
        else (st'', none)))

-- Watch up to its loop: an illegal topic is refused before it subscribes, and an error on the way ends
-- the subscription again. `before` is what others do to the bus between Subscribe and LastSeq, `meanwhile` what
-- they do while the opening is sent. The id is the subscription's, if it is still there.
unfoldable pub start :
    Unicode
    → WatchRequest
    → Time
    → Time
    → Time
    → List Member
    → String
    → (Bus → Bus)
    → (Bus → Bus)
    → Bus
    → Stream
    → Bus × Stream × Option Error × ℕ
unfolding opening subscribe unsubscribe
start u req now now' now'' members leader_id before meanwhile b st =
    elim (validate_topics u req.topics) [
      | some e ↦ (b, st, some e, 0)
      | none ↦
          let s = subscribe (pos 64) b in
          let b' = before s.0 in
          let r = opening req now now' now'' members leader_id (last_seq b') st in
          let after = meanwhile b' in
          elim r.1 [
            | none ↦ (after, r.0, none, s.1)
            | some e ↦ (unsubscribe s.1 after, r.0, some e, s.1)
          ]
    ]

-- eventToProto.
abbrev pub event_to_proto : Event → WatchResponse
event_to_proto e = record {
  kind = e.kind;
  source = e.source;
  payload = e.payload;
  timestamp_unix_ms = to_unix_ms e.timestamp;
  seq = e.seq;
}

-- Where a gap before the next live event starts.
abbrev pub gap_from : ℕ → ℕ
gap_from last_live = if ltb 0 last_live then inc_uint64 last_live else 1

-- The sends for a live event that matches, given what TakeDropped said.
unfoldable pub forward : Time → Bool → ℕ → Event → Stream → Stream × Option Error
unfolding send
forward now dropped last_live e st =
    and_then
      (if dropped && (ltb 0 e.seq && leb (gap_from last_live) (e.seq - 1))
        then send (gap_response now (gap_from last_live) (e.seq - 1)) st
        else (st, none))
      (send (event_to_proto e))

-- What one turn of the loop of Watch does with the event that it receives: the bus, the stream,
-- `lastLive` and the error that ends the loop.
unfoldable pub turn :
    WatchRequest → Time → ℕ → Event → ℕ → Bus → Stream → Bus × Stream × ℕ × Option Error
unfolding forward take_dropped
turn req now id e last_live b st =
    if not (matches_watch req e.kind)
    then (b, st, last_live, none)
    else let (b', dropped) = take_dropped id b in
      let (st', failure) = forward now dropped last_live e st in
      elim failure [ none ↦ (b', st', e.seq, none) | some err ↦ (b', st', last_live, some err) ]
