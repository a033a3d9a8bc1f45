-- ===== src/Publish.antt =====
-- grpcserver/events.go: the service that publishes custom events.
-- uid.New and the peers that the fan-out reaches are parameters: the fan-out is the list of the
-- requests that are sent, in goroutines of their own. Children: Cache and Repeats (theorems), and
-- Examples (tests).
pub mod Cache
pub mod Repeats
mod Examples
use clusdr.Prelude.{
  ℕ, Bool, true, false, not, ◌&&◌, ◌||◌, Option, none, some, List, [], ◌∷◌, ◌++◌, map, keep, String,
  str_eq, leb, ltb, length, ◌==◌, if◌then◌else◌, ℤ, pos, negsuc, Map, lookup, insert, delete,
}
use clusdr.Fault.{Error, Result, ok, err, bus_missing, payload_too_long}
use clusdr.Clock.{Time}
use clusdr.Names.{Unicode}
use clusdr.Events.{Event, event, bytes, custom_type, valid_topic, max_payload_bytes}
use clusdr.Membership.{Member, status_alive, is_some}
use clusdr.Bus.{Bus, publish}

-- idCache: the ids, the order in which they came, and how many it keeps.
pub record IdCache : Type 0 where
  pub ids : Map (Unit {0})
  pub queue : List String
  pub cap : ℕ

-- newIDCache.
abbrev pub cache_size : ℤ → ℕ
cache_size (pos n) = if n == 0 then 1024 else n
cache_size (negsuc n) = 1024

unfoldable pub new_id_cache : ℤ → IdCache
new_id_cache n = record { ids = []; queue = []; cap = cache_size n }

-- The eviction of the oldest id. A full cache is not empty, since its capacity is positive.
abbrev pub drop_oldest : List String → IdCache → IdCache
drop_oldest [] c = c
drop_oldest (old ∷ q) c = record c { queue = q; ids = delete old c.ids }

abbrev pub make_room : IdCache → IdCache
make_room c = if leb c.cap (length c.queue) then drop_oldest c.queue c else c

abbrev pub add_id : String → IdCache → IdCache
add_id id c = record c { ids = insert id tt c.ids; queue = c.queue ++ (id ∷ []) }

-- seenOrAdd.
unfoldable pub seen_or_add : String → IdCache → IdCache × Bool
seen_or_add id c = if is_some (lookup id c.ids) then (c, true) else (add_id id (make_room c), false)

pub record PublishRequest : Type 0 where
  pub topic : String
  pub payload : List ℕ
  pub event_id : String
  pub source : String
  pub relay : Bool

pub record PublishResponse : Type 0 where
  pub accepted : Bool
  pub message : String
  pub event_id : String
  pub kind : String

-- What PeerLister answers.
pub record Peers : Type 0 where
  pub members : List Member
  pub self_id : String

-- eventService; `peers` is `none` where it is nil.
pub record EventService : Type 0 where
  pub bus : Option Bus
  pub peers : Option Peers
  pub seen : IdCache

abbrev pub reaches : String → Member → Bool
reaches self_id m = not (str_eq m.id self_id) && str_eq m.status status_alive

-- fanout: the address of each peer that gets a request, and the request.
unfoldable pub fanout :
    String → List ℕ → String → String → Option Peers → List (String × PublishRequest)
fanout topic payload event_id source none = []
fanout topic payload event_id source (some peers) =
    map
      (λ m. (
        m.address,
        record {
          topic = topic;
          payload = payload;
          event_id = event_id;
          source = source;
          relay = true;
        },
      ))
      (keep (reaches peers.self_id) peers.members)

abbrev pub source_of : String → Option Peers → String
source_of source none = source
source_of source (some peers) = if str_eq source "" then peers.self_id else source

-- The id of the request, or the one that uid.New gave.
abbrev pub id_of : Result String → String → Result String
id_of fresh event_id = if str_eq event_id "" then fresh else ok event_id

-- PublishEvent from the id on.
unfoldable pub publish_once :
    Time
    → PublishRequest
    → String
    → Bus
    → EventService
    → EventService × List (String × PublishRequest) × Result PublishResponse
unfolding seen_or_add fanout publish
publish_once now req event_id b s =
    let kind = custom_type req.topic in
    let source = source_of req.source s.peers in
    let (seen, duplicate) = seen_or_add event_id s.seen in
    if duplicate
    then (
      record s { seen = seen },
      [],
      ok (record { accepted = true; message = "duplicate"; event_id = event_id; kind = kind }),
    )
    else (
      record s { seen = seen; bus = some (publish now (event kind source (bytes req.payload)) b) },
      (if req.relay then [] else fanout req.topic req.payload event_id source s.peers),
      ok (record { accepted = true; message = ""; event_id = event_id; kind = kind }),
    )

-- PublishEvent on the service's bus; `fresh` is what uid.New answers.
unfoldable pub publish_on :
    Unicode
    → Time
    → Result String
    → PublishRequest
    → Option Bus
    → EventService
    → EventService × List (String × PublishRequest) × Result PublishResponse
unfolding publish_once
publish_on u now fresh req none s = (s, [], err bus_missing)
publish_on u now fresh req (some b) s = elim (valid_topic u req.topic) [
  | some e ↦ (s, [], err e)
  | none ↦
      if ltb max_payload_bytes (length req.payload)
      then (s, [], err payload_too_long)
      else elim (id_of fresh req.event_id) [
        | err e ↦ (s, [], err e)
        | ok event_id ↦ publish_once now req event_id b s
      ]
]

-- PublishEvent.
unfoldable pub publish_event :
    Unicode
    → Time
    → Result String
    → PublishRequest
    → EventService
    → EventService × List (String × PublishRequest) × Result PublishResponse
unfolding publish_on
publish_event u now fresh req s = publish_on u now fresh req s.bus s
