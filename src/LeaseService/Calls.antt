-- ===== src/LeaseService/Calls.antt =====
-- grpcserver/leases.go: Grant, Renew, Revoke and ListLeases.
use clusdr.Prelude.{
  ℕ, Bool, true, false, Option, none, some, List, [], String, if◌then◌else◌, map, pos, ltb_ℤ,
}
use clusdr.Clock.{Time, Duration, to_unix_ms}
use clusdr.Events.{Event}
use clusdr.Leases
use clusdr.Leases.{LeaseRecord}
use clusdr.Consensus.Fsm.{Fsm}
use clusdr.Grpc.{
  Reply, refused, invalid_argument, failed_precondition, internal, Remote, forward, unix_ms,
  must_forward, reply_by,
}
use clusdr.LeaseService.{
  LeaseService, GrantRequest, RevokeRequest, RenewRequest, GrantResponse, RenewResponse, LeaseInfo,
  ttl_from_ms, owner_of, get_in, apply_grant, apply_renew, apply_revoke, grant_response,
  held_response,
}

-- What the handlers do before they touch the table: the check of the name, and the way to the leader.
unfoldable pub guarded :
    {Q A : Type 0}
    → LeaseService
    → Remote Q A
    → String
    → Q
    → (Fsm → Fsm × List Event × Reply A)
    → Fsm
    → Fsm × List Event × Reply A
unfolding forward
guarded s remote name q body f = elim (Leases.valid_name s.unicode name) [
  | some e ↦ (f, [], refused invalid_argument e)
  | none ↦ if must_forward s.raft then (f, [], forward remote f.members q) else body f
]

abbrev pub grant_answer : String → String → Fsm → ℕ × Bool → GrantResponse
grant_answer name owner f (token, true) = grant_response name owner token f
grant_answer name owner f (token, false) = held_response (get_in name f.leases)

-- Grant where the node is the leader or has no Raft.
unfoldable pub grant_here :
    LeaseService → Time → GrantRequest → Fsm → Fsm × List Event × Reply GrantResponse
unfolding apply_grant ttl_from_ms grant_response
grant_here s now q f =
    let owner = owner_of f.members q.owner in
    let r = apply_grant s now q.name owner (ttl_from_ms s q.ttl_ms (pos 0)) f in
    (r.0, r.1, reply_by internal (grant_answer q.name owner r.0) r.2)

-- Grant.
unfoldable pub grant :
    LeaseService
    → Remote GrantRequest GrantResponse
    → Time
    → GrantRequest
    → Fsm
    → Fsm × List Event × Reply GrantResponse
unfolding guarded grant_here
grant s remote now q f = guarded s remote q.name q (grant_here s now q) f

-- The lifetime that Renew uses where the request names none: the lease's, if it is positive.
abbrev pub reuse_ttl : Duration → Option LeaseRecord → Duration
reuse_ttl default_ttl none = default_ttl
reuse_ttl default_ttl (some rec) = if ltb_ℤ (pos 0) rec.ttl then rec.ttl else default_ttl

abbrev pub renew_response : ℕ → Time → RenewResponse
renew_response token deadline = record {
  renewed = true;
  fencing_token = token;
  deadline_unix_ms = unix_ms deadline;
}

-- Renew where the node is the leader or has no Raft.
unfoldable pub renew_here :
    LeaseService → Time → RenewRequest → Fsm → Fsm × List Event × Reply RenewResponse
unfolding apply_renew ttl_from_ms unix_ms
renew_here s now q f =
    let ttl = ttl_from_ms s q.ttl_ms (reuse_ttl s.default_ttl (get_in q.name f.leases)) in
    let r = apply_renew s now q.name (owner_of f.members q.owner) q.fencing_token ttl f in
    (r.0, r.1, reply_by failed_precondition (renew_response q.fencing_token) r.2)

-- Renew.
unfoldable pub renew :
    LeaseService
    → Remote RenewRequest RenewResponse
    → Time
    → RenewRequest
    → Fsm
    → Fsm × List Event × Reply RenewResponse
unfolding guarded renew_here
renew s remote now q f = guarded s remote q.name q (renew_here s now q) f

-- Revoke where the node is the leader or has no Raft; the response says nothing but that it was revoked.
unfoldable pub revoke_here :
    LeaseService → RevokeRequest → Fsm → Fsm × List Event × Reply (Unit {0})
unfolding apply_revoke
revoke_here s q f =
    let r = apply_revoke s q.name (owner_of f.members q.owner) q.fencing_token f in
    (r.0, r.1, reply_by failed_precondition (λ u. u) r.2)

-- Revoke.
unfoldable pub revoke :
    LeaseService
    → Remote RevokeRequest (Unit {0})
    → RevokeRequest
    → Fsm
    → Fsm × List Event × Reply (Unit {0})
unfolding guarded revoke_here
revoke s remote q f = guarded s remote q.name q (revoke_here s q) f

abbrev pub lease_info : LeaseRecord → LeaseInfo
lease_info rec = record {
  name = rec.name;
  owner = rec.owner;
  fencing_token = rec.token;
  granted_unix_ms = to_unix_ms rec.granted_at;
  deadline_unix_ms = unix_ms rec.deadline;
}

-- ListLeases.
unfoldable pub list_leases : Fsm → List LeaseInfo
list_leases f = elim f.leases [ none ↦ [] | some t ↦ map lease_info (Leases.list t) ]
