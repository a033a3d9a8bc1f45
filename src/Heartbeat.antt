-- ===== src/Heartbeat.antt =====
-- heartbeat/monitor.go: the monitor that pings the peers and reports the ones that do not answer.
-- `ping` is a parameter: whether the peer at an address answered in time. `reports` is the list of the
-- ids for which the callback, or MarkDead, is called. Children: Peers (theorems), Examples (tests).
pub mod Peers
mod Examples
use clusdr.Prelude.{
  ℕ, ◌+◌, Bool, not, ◌||◌, Option, none, some, List, [], ◌∷◌, ◌++◌, String, str_eq, if◌then◌else◌,
  ℤ, pos, leb_ℤ, Map, lookup, insert, delete,
}
use clusdr.Membership.{Member, Engine, status_alive, list_members, mark_dead}
use clusdr.Events.{Event}

pub record Monitor : Type 0 where
  pub max_misses : ℤ
  pub misses : Map ℕ

abbrev pub or_zero : Option ℕ → ℕ
or_zero none = 0
or_zero (some n) = n

-- `m.misses[id]`.
abbrev pub misses_of : String → Monitor → ℕ
misses_of id m = or_zero (lookup id m.misses)

abbrev pub reset : String → Monitor → Monitor
reset id m = record m { misses = delete id m.misses }

-- A ping that failed: one more miss, and a report once they reach MaxMisses.
unfoldable pub miss : String → Monitor → Monitor × List String
miss id m =
    if leb_ℤ m.max_misses (pos (misses_of id m + 1))
    then (reset id (record m { misses = insert id (misses_of id m + 1) m.misses }), id ∷ [])
    else (record m { misses = insert id (misses_of id m + 1) m.misses }, [])

-- What tick does with a member.
unfoldable pub probe : (String → Bool) → String → Member → Monitor → Monitor × List String
unfolding miss
probe ping self_id mem m =
    if str_eq mem.id self_id || not (str_eq mem.status status_alive)
    then (m, [])
    else if ping mem.address
    then (reset mem.id m, [])
    else miss mem.id m

-- The loop of tick.
unfoldable pub probe_all : (String → Bool) → String → List Member → Monitor → Monitor × List String
probe_all ping self_id [] m = (m, [])
probe_all ping self_id (mem ∷ mems) m =
    let (m', reports) = probe ping self_id mem m in
    let (m'', more) = probe_all ping self_id mems m' in (m'', reports ++ more)

-- MarkDead for each report, as the monitor does without a callback.
unfoldable pub mark_all : List String → Engine → Engine × List Event
mark_all [] e = (e, [])
mark_all (id ∷ ids) e =
    let (e', events) = mark_dead id e in let (e'', more) = mark_all ids e' in (e'', events ++ more)

-- tick without a callback, on the engine.
unfoldable pub tick : (String → Bool) → Engine → Monitor → Engine × Monitor × List Event
unfolding probe_all mark_all
tick ping e m =
    let (m', reports) = probe_all ping e.self_id (list_members e) m in
    let (e', events) = mark_all reports e in (e', m', events)
