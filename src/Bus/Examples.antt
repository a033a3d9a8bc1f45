-- ===== src/Bus/Examples.antt =====
-- The bus on concrete inputs: tests of the definitions, and the theorem at work.
use clusdr.Prelude.{true, false, ◌≡◌, refl, [], ◌∷◌, ◌++◌, some, pos, length, ◌≤◌, arith}
use clusdr.Events.{event, nil, lock_expired}
use clusdr.Bus.{
  Bus, Sub, publishes, receives, stamp, offer, deliver, publish, subscribe, receive, take_dropped,
  find_sub, adjust, step, run, new, Call,
}
use clusdr.Bus.Delivery.{nothing_lost, all_emitted, all_got}

program : Unit {0}
unfolding stamp offer deliver publish subscribe receive take_dropped find_sub adjust step run
program = tt

-- One subscriber, with room for two events.
abbrev one : Sub
one = record { id = 1; cap = 2; queue = []; dropped = false; active = true }

abbrev bus : Bus
bus = record { subs = one ∷ []; next = 1; seq = 0 }

subscribed : (subscribe (pos 2) new).0 ≡ bus
unfolding program
subscribed = refl

abbrev tick : Call
tick = publishes 10 (event lock_expired "a" nil)

-- The third event finds the buffer full, and sets the flag.
third_dropped : (take_dropped 1 (run bus (tick ∷ tick ∷ tick ∷ []))).1 ≡ true
unfolding program
third_dropped = refl

two_kept : (take_dropped 1 (run bus (tick ∷ receives 1 ∷ tick ∷ tick ∷ []))).1 ≡ false
unfolding program
two_kept = refl

nothing_lost_example :
    (s' : Sub) × (find_sub 1 (run bus (tick ∷ receives 1 ∷ tick ∷ [])).subs ≡ some s')
    × (s'.active ≡ true)
    × (length s'.queue ≤ s'.cap)
    × (s'.dropped ≡ false
        → (false ≡ false)
          × (all_got 1 bus (tick ∷ receives 1 ∷ tick ∷ []) ++ s'.queue
              ≡ all_emitted bus (tick ∷ receives 1 ∷ tick ∷ [])))
unfolding find_sub
nothing_lost_example =
    nothing_lost 1 bus (tick ∷ receives 1 ∷ tick ∷ []) one (tt, (tt, (tt, tt))) refl refl
      (omega arith)
