-- ===== src/Consensus/Replicas/Members.antt =====
-- The member list without what is local to a node: its own id, the known leader, join times, the hook.
use clusdr.Prelude.{
  ◌≡◌, String, arith, lookup, Option-cases, inl, inr, true, false, over, lookup-over, over-insert,
  over-delete,
}
use clusdr.Clock.{Time}
use clusdr.Membership.{
  Engine, Member, join_as, mark_dead, leave, joining, normalize_role, status_dead,
}

abbrev pub plain_member : Member → Member
plain_member m = record m { leader = false; joined_at = 0 }

abbrev pub plain_engine : Engine → Engine
plain_engine e = record {
  self_id = "";
  leader_id = "";
  members = over plain_member e.members;
  dropped = e.dropped;
  emits = true;
}

pub join_as-plain :
    (now : Time) (id addr role : String) (e : Engine)
    → let r = join_as now id addr role e in
      let p = join_as 0 id addr role (plain_engine e) in (p.0 ≡ plain_engine r.0) × (p.2 ≡ r.2)
unfolding join_as
join_as-plain now id addr role e = ground (
  arith,
  lookup-over plain_member id e.members,
  over-insert plain_member id (joining now id addr (normalize_role role) e) e.members,
)

pub mark_dead-plain :
    (id : String) (e : Engine) → (mark_dead id (plain_engine e)).0 ≡ plain_engine (mark_dead id e).0
unfolding mark_dead
mark_dead-plain id e = elim (Option-cases (lookup id e.members)) [
  | inl l ↦ ground (arith, lookup-over plain_member id e.members)
  | inr (m, l) ↦ ground (
    arith,
    lookup-over plain_member id e.members,
    over-insert plain_member id (record m { status = status_dead }) e.members,
  )
]

pub leave-plain :
    (id : String) (e : Engine) → (leave id (plain_engine e)).0 ≡ plain_engine (leave id e).0
unfolding leave
leave-plain id e =
    ground (arith, lookup-over plain_member id e.members, over-delete plain_member id e.members)
