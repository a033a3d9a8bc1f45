-- ===== src/Publish/Examples.antt =====
-- Publishing on concrete inputs: tests of the definitions, and the theorem at work.
use clusdr.Prelude.{
  subst, str_ne, true, false, ◌≡◌, refl, none, some, [], ◌∷◌, arith, pos, lookup, insert, delete,
  byte_len, keep, strip_prefix, join,
}
use clusdr.Fault.{ok}
use clusdr.Names.{ascii, is_name_char, first_bad}
use clusdr.Events.{custom_type, normalize_topic, valid_topic}
use clusdr.Bus
use clusdr.Publish.{
  IdCache, new_id_cache, seen_or_add, PublishRequest, EventService, fanout, publish_once,
  publish_on, publish_event,
}
use clusdr.Publish.Repeats.{publish_event_twice}
use clusdr.Publish.Cache.{IsCache, new-IsCache, see_all, see_all-remembers}

program : Unit {0}
unfolding new_id_cache seen_or_add fanout publish_once publish_on publish_event lookup insert delete
    byte_len keep is_name_char first_bad custom_type normalize_topic valid_topic strip_prefix join
program = tt

abbrev two : IdCache
two = record { ids = []; queue = []; cap = 2 }

two_made : new_id_cache (pos 2) ≡ two
unfolding program
two_made = refl

two-IsCache : IsCache two
two-IsCache = subst IsCache two_made (new-IsCache (pos 2))

-- Two other ids push an id out of a cache for two.
forgotten : (seen_or_add "a" (see_all ("b" ∷ "c" ∷ []) (seen_or_add "a" two).0)).1 ≡ false
unfolding program see_all
forgotten = refl

abbrev request : PublishRequest
request = record { topic = "deploy"; payload = 1 ∷ []; event_id = "e"; source = "a"; relay = false }

abbrev service : EventService
service = record { bus = some Bus.new; peers = none; seen = two }

-- A repeated request is answered as a duplicate, and published once.
published_once :
    let first = publish_event ascii 7 (ok "x") request service in
    (publish_event ascii 8 (ok "x") request first.0).2
    ≡ ok (record { accepted = true; message = "duplicate"; event_id = "e"; kind = "custom.deploy" })
unfolding program
published_once = refl

two_new : (seen_or_add "a" two).1 ≡ false
unfolding program
two_new = refl

see_all-remembers_example : (seen_or_add "a" (see_all ("b" ∷ []) (seen_or_add "a" two).0)).1 ≡ true
see_all-remembers_example = see_all-remembers "a" ("b" ∷ []) two two-IsCache two_new (omega arith)

publish_event_twice_example :
    let first = publish_event ascii 7 (ok "x") request service in
    let second = publish_event ascii 8 (ok "y") request first.0 in
    (second.0 ≡ first.0) × (second.1 ≡ [])
publish_event_twice_example =
    publish_event_twice ascii 7 8 (ok "x") (ok "y") request service (str_ne "e" "" refl)
