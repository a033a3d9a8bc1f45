-- ===== src/Bus.antt =====
-- eventbus/bus.go: the in-process publish/subscribe bus.
-- A channel is its buffered events and its capacity; `subs` are the subscriptions that were ever made,
-- `active` while they are in the bus's map. Publish takes its sequence number before it takes the lock:
-- `stamp` and `deliver` are its two halves. Children: Delivery (theorems), Examples (tests).
pub mod Delivery
mod Examples
use clusdr.Prelude.{
  ℕ, Bool, true, false, not, Option, none, some, List, [], ◌∷◌, ◌++◌, map, ltb, ◌==◌, length,
  if◌then◌else◌, ℤ, pos, negsuc, inc_uint64,
}
use clusdr.Clock.{Time, is_zero}
use clusdr.Events.{Event}

pub record Sub : Type 0 where
  pub id : ℕ
  pub cap : ℕ
  pub queue : List Event
  pub dropped : Bool
  pub active : Bool

pub record Bus : Type 0 where
  pub subs : List Sub
  pub next : ℕ
  pub seq : ℕ

-- New.
abbrev pub new : Bus
new = record { subs = []; next = 0; seq = 0 }

-- LastSeq.
abbrev pub last_seq : Bus → ℕ
last_seq b = b.seq

unfoldable pub find_sub : ℕ → List Sub → Option Sub
find_sub id [] = none
find_sub id (s ∷ ss) = let rest = find_sub id ss in if s.id == id then some s else rest

unfoldable pub adjust : ℕ → (Sub → Sub) → List Sub → List Sub
adjust id f [] = []
adjust id f (s ∷ ss) = let rest = adjust id f ss in if s.id == id then f s ∷ ss else s ∷ rest

-- The first half of Publish: the time, if there is none, and the sequence number.
unfoldable pub stamp : Time → Event → Bus → Bus × Event
stamp now e b = (
  record b { seq = inc_uint64 b.seq },
  record e { timestamp = if is_zero e.timestamp then now else e.timestamp; seq = inc_uint64 b.seq },
)

-- The send to one subscriber: its buffer takes the event, or the event is dropped and the flag set.
unfoldable pub offer : Event → Sub → Sub
offer e s =
    if not s.active
    then s
    else if ltb (length s.queue) s.cap
    then record s { queue = s.queue ++ (e ∷ []) }
    else record s { dropped = true }

-- The second half of Publish.
unfoldable pub deliver : Event → Bus → Bus
unfolding offer
deliver e b = record b { subs = map (offer e) b.subs }

-- Publish.
unfoldable pub publish : Time → Event → Bus → Bus
unfolding stamp deliver
publish now e b = let r = stamp now e b in deliver r.1 r.0

-- The buffer that Subscribe makes for `bufSize`.
abbrev pub buffer_size : ℤ → ℕ
buffer_size (pos n) = if n == 0 then 16 else n
buffer_size (negsuc n) = 16

-- Subscribe, with the new subscription's id.
unfoldable pub subscribe : ℤ → Bus → Bus × ℕ
subscribe size b = (
  record b {
    next = inc_uint64 b.next;
    subs =
        b.subs
        ++ (record {
          id = inc_uint64 b.next;
          cap = buffer_size size;
          queue = [];
          dropped = false;
          active = true;
        }
            ∷ []);
  },
  inc_uint64 b.next,
)

abbrev pub flag_of : Option Sub → Bool
flag_of none = false
flag_of (some s) = s.dropped

abbrev pub clear : Sub → Sub
clear s = record s { dropped = false }

-- TakeDropped, a swap of the flag.
unfoldable pub take_dropped : ℕ → Bus → Bus × Bool
take_dropped id b = (record b { subs = adjust id clear b.subs }, flag_of (find_sub id b.subs))

abbrev pub deactivate : Sub → Sub
deactivate s = record s { active = false }

-- Unsubscribe.
unfoldable pub unsubscribe : ℕ → Bus → Bus
unsubscribe id b = record b { subs = adjust id deactivate b.subs }

abbrev pub queue_of : Option Sub → List Event
queue_of none = []
queue_of (some s) = s.queue

abbrev pub first : List Event → Option Event
first [] = none
first (e ∷ es) = some e

abbrev pub rest_of : List Event → List Event
rest_of [] = []
rest_of (e ∷ es) = es

abbrev pub pop : Sub → Sub
pop s = record s { queue = rest_of s.queue }

-- A receive from C; `none` where it would block.
unfoldable pub receive : ℕ → Bus → Bus × Option Event
receive id b = (record b { subs = adjust id pop b.subs }, first (queue_of (find_sub id b.subs)))

abbrev pub flush : Sub → Sub
flush s = record s { queue = [] }

-- Drain.
unfoldable pub drain : ℕ → Bus → Bus × List Event
drain id b = (record b { subs = adjust id flush b.subs }, queue_of (find_sub id b.subs))

-- The calls on a bus, with the capacity, the subscription or the event that they are made with.
pub data Call : Type 0 where
  publishes : Time → Event → Call
  subscribes : ℤ → Call
  receives drains takes_dropped unsubscribes : ℕ → Call

unfoldable pub step : Bus → Call → Bus
unfolding publish subscribe receive drain take_dropped unsubscribe
step b (publishes now e) = publish now e b
step b (subscribes size) = (subscribe size b).0
step b (receives id) = (receive id b).0
step b (drains id) = (drain id b).0
step b (takes_dropped id) = (take_dropped id b).0
step b (unsubscribes id) = unsubscribe id b

unfoldable pub run : Bus → List Call → Bus
run b [] = b
run b (c ∷ cs) = run (step b c) cs
