-- ===== src/Membership.antt =====
-- membership/engine.go: the list of cluster members that a node keeps.
-- The mutex makes every method atomic: a method is a function from the engine to the engine, the
-- events that it hands to the Emit hook and its result. `time.Now()` is an argument.
-- Children: Invariant, Emissions, Listing (theorems), Examples (tests).
pub mod Invariant
pub mod Emissions
pub mod Listing
mod Examples
use clusdr.Prelude.{
  Bool, true, false, ◌&&◌, ◌||◌, not, Option, none, some, List, [], ◌∷◌, String, if◌then◌else◌,
  str_eq, Map, lookup, insert, delete, values, sort_by,
}
use clusdr.Fault.{Error, Result, ok, err, join_empty_id, restore_empty_id}
use clusdr.Clock.{Time}
use clusdr.Events.{
  Event, event, nil, member_info, member_join, member_dead, member_left, leader_changed,
}

abbrev pub Status : Type 0
Status = String

abbrev pub status_alive : Status
status_alive = "alive"

abbrev pub status_dead : Status
status_dead = "dead"

abbrev pub role_voter : String
role_voter = "voter"

abbrev pub role_observer : String
role_observer = "observer"

-- NormalizeStatus.
unfoldable pub normalize_status : Status → Status
normalize_status s = if str_eq s status_alive || str_eq s "" then status_alive else status_dead

-- NormalizeRole.
unfoldable pub normalize_role : String → String
normalize_role role = if str_eq role role_observer then role_observer else role_voter

pub record Member : Type 0 where
  pub id : String
  pub address : String
  pub status : Status
  pub leader : Bool
  pub role : String
  pub joined_at : Time

-- `emits`: whether the Emit hook is set.
pub record Engine : Type 0 where
  pub self_id : String
  pub leader_id : String
  pub members : Map Member
  pub dropped : Map (Unit {0})
  pub emits : Bool

-- New, at the local time `now`.
unfoldable pub new : Time → String → String → Engine
new now self_id self_addr = record {
  self_id = self_id;
  leader_id = self_id;
  members =
      insert self_id
        (record {
          id = self_id;
          address = self_addr;
          status = status_alive;
          leader = true;
          role = role_voter;
          joined_at = now;
        })
        [];
  dropped = [];
  emits = false;
}

abbrev pub is_alive : Option Member → Bool
is_alive none = false
is_alive (some m) = str_eq m.status status_alive

-- The time at which a member that JoinAs writes joined.
abbrev pub joined_since : Time → Option Member → Time
joined_since now none = now
joined_since now (some m) = if str_eq m.status status_alive then m.joined_at else now

-- The member that JoinAs writes.
abbrev pub joining : Time → String → String → String → Engine → Member
joining now id addr role e = record {
  id = id;
  address = addr;
  status = status_alive;
  leader = str_eq id e.leader_id;
  role = role;
  joined_at = joined_since now (lookup id e.members);
}

-- JoinAs, at the local time `now`.
unfoldable pub join_as :
    Time → String → String → String → Engine → Engine × List Event × Result Bool
join_as now id addr role e =
    if str_eq id ""
    then (e, [], err join_empty_id)
    else let known = is_alive (lookup id e.members) in
      (
        record e {
          dropped = delete id e.dropped;
          members = insert id (joining now id addr (normalize_role role) e) e.members;
        },
        (if not known && e.emits
            then event member_join id (member_info addr (normalize_role role)) ∷ []
            else []),
        ok (not known),
      )

-- Join.
unfoldable pub join_voter : Time → String → String → Engine → Engine × List Event × Result Bool
unfolding join_as
join_voter now id addr e = join_as now id addr role_voter e

-- MarkDead.
unfoldable pub mark_dead : String → Engine → Engine × List Event
mark_dead id e = elim (lookup id e.members) [
  | none ↦ (e, [])
  | some m ↦ if str_eq (normalize_status m.status) status_dead then (e, []) else (
    record e { members = insert id (record m { status = status_dead }) e.members },
    (if e.emits then event member_dead id nil ∷ [] else []),
  )
]

abbrev pub is_some {ℓ} : {A : Type ℓ} → Option A → Bool
is_some none = false
is_some (some a) = true

-- Leave, and Drop, which is Leave.
unfoldable pub leave : String → Engine → Engine × List Event
leave id e = if is_some (lookup id e.dropped) then (e, []) else elim (lookup id e.members) [
  | none ↦ (e, [])
  | some m ↦ (
    record e { members = delete id e.members; dropped = insert id tt e.dropped },
    (if e.emits then event member_left id nil ∷ [] else []),
  )
]

-- The time at which a member that RestoreMember writes joined.
abbrev pub restored_since : Time → Option Member → Time
restored_since now none = now
restored_since now (some m) = m.joined_at

-- The member that RestoreMember writes.
abbrev pub restoring : Time → String → String → String → Status → Engine → Member
restoring now id addr role status e = record {
  id = id;
  address = addr;
  status = normalize_status status;
  leader = str_eq id e.leader_id;
  role = normalize_role role;
  joined_at = restored_since now (lookup id e.members);
}

-- RestoreMember.
unfoldable pub restore_member :
    Time → String → String → String → Status → Engine → Engine × Option Error
restore_member now id addr role status e = if str_eq id "" then (e, some restore_empty_id) else (
  record e {
    dropped = delete id e.dropped;
    members = insert id (restoring now id addr role status e) e.members;
  },
  none,
)

-- Members.
unfoldable pub list_members : Engine → List Member
list_members e = sort_by (λ m. m.id) (values e.members)

-- Leader.
abbrev pub leader_of : Engine → Option Member
leader_of e = lookup e.leader_id e.members

-- The loop of SetLeader.
unfoldable pub flag_leader : String → Map Member → Map Member
flag_leader id [] = []
flag_leader id ((k, m) ∷ ms) = (k, record m { leader = str_eq k id }) ∷ flag_leader id ms

-- SetLeader.
unfoldable pub set_leader : String → Engine → Engine × List Event
set_leader id e = if str_eq e.leader_id id then (e, []) else (
  record e { leader_id = id; members = flag_leader id e.members },
  (if e.emits then event leader_changed id nil ∷ [] else []),
)

-- SelfRole.
unfoldable pub self_role : Engine → String
self_role e = elim (lookup e.self_id e.members) [
  | none ↦ role_voter
  | some m ↦ normalize_role m.role
]

-- Left.
unfoldable pub left : String → Engine → Bool
left id e = is_some (lookup id e.dropped)

-- A call of one of the methods that change the engine.
pub data Call : Type 0 where
  joins : Time → String → String → String → Call
  marks_dead : String → Call
  leaves : String → Call
  restores : Time → String → String → String → Status → Call
  sets_leader : String → Call

unfoldable pub step : Engine → Call → Engine × List Event
step e (joins now id addr role) = let r = join_as now id addr role e in (r.0, r.1)
step e (marks_dead id) = mark_dead id e
step e (leaves id) = leave id e
step e (restores now id addr role status) = ((restore_member now id addr role status e).0, [])
step e (sets_leader id) = set_leader id e

unfoldable pub run : Engine → List Call → Engine
run e [] = e
run e (c ∷ cs) = run (step e c).0 cs
