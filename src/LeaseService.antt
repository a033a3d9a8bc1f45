-- ===== src/LeaseService.antt =====
-- grpcserver/leases.go: the handlers of LeaseService.
-- As in LockService, the service's table and its Joiner are those of the node's FSM, and `raft` is `none`
-- without Raft. An observer may hold leases, so no handler asks for the role.
-- Child: Calls, the handlers.
pub mod Calls
use clusdr.Prelude.{
  ℕ, Bool, true, false, Option, none, some, List, [], String, str_eq, if◌then◌else◌, map, ℤ, pos,
  negsuc, ltb_ℤ,
}
use clusdr.Fault.{Error, Result, ok, err, lease_table_missing}
use clusdr.Clock.{Time, Duration, add, ms_duration, to_unix_ms}
use clusdr.Names.{Unicode}
use clusdr.Events.{Event}
use clusdr.Membership.{Engine}
use clusdr.Leases
use clusdr.Leases.{LeaseRecord}
use clusdr.Consensus.Fsm.{Fsm}
use clusdr.Consensus.Node.{apply_lease_grant, apply_lease_renew, apply_lease_revoke}
use clusdr.Grpc.{
  Reply, replied, refused, invalid_argument, failed_precondition, internal, Remote, forward,
  unix_ms, Leading, must_forward, reply_by,
}

-- leaseService.
pub record LeaseService : Type 0 where
  pub unicode : Unicode
  pub raft : Option Leading
  pub default_ttl : Duration

-- RegisterLeaseService.
unfoldable pub register : Unicode → Option Leading → Duration → LeaseService
register u raft default_ttl = record {
  unicode = u;
  raft = raft;
  default_ttl = if ltb_ℤ (pos 0) default_ttl then default_ttl else Leases.default_ttl;
}

pub record GrantRequest : Type 0 where
  pub name : String
  pub owner : String
  pub ttl_ms : ℤ

pub record RevokeRequest : Type 0 where
  pub name : String
  pub owner : String
  pub fencing_token : ℕ

-- LeaseServiceRenewRequest.
pub record RenewRequest : Type 0 where
  pub name : String
  pub owner : String
  pub fencing_token : ℕ
  pub ttl_ms : ℤ

-- `held` is the message.
pub record GrantResponse : Type 0 where
  pub granted : Bool
  pub held : Bool
  pub fencing_token : ℕ
  pub owner : String
  pub deadline_unix_ms : ℤ

-- LeaseServiceRenewResponse.
pub record RenewResponse : Type 0 where
  pub renewed : Bool
  pub fencing_token : ℕ
  pub deadline_unix_ms : ℤ

pub record LeaseInfo : Type 0 where
  pub name : String
  pub owner : String
  pub fencing_token : ℕ
  pub granted_unix_ms : ℤ
  pub deadline_unix_ms : ℤ

-- The lifetime that ttlFromMs asks for.
abbrev pub requested_ttl : ℤ → Duration → Duration
requested_ttl (pos n) reuse = if ltb_ℤ (pos 0) (pos n) then ms_duration n else reuse
requested_ttl (negsuc n) reuse = reuse

-- ttlFromMs.
unfoldable pub ttl_from_ms : LeaseService → ℤ → Duration → Duration
ttl_from_ms s ms reuse = Leases.clamp_ttl (requested_ttl ms reuse) s.default_ttl

-- owner.
abbrev pub owner_of : Engine → String → String
owner_of e h = if str_eq h "" then e.self_id else h

-- Get on a table that may be nil.
abbrev pub get_in : String → Option Leases.Table → Option LeaseRecord
get_in name none = none
get_in name (some t) = Leases.get name t

-- A call of a table method, for a service without Raft.
abbrev pub on_table {ℓ} :
    {A : Type ℓ}
    → (Leases.Table → Leases.Table × List Event × Result A)
    → Fsm
    → Fsm × List Event × Result A
on_table call f = elim f.leases [
  | none ↦ (f, [], err lease_table_missing)
  | some t ↦ let r = call t in (record f { leases = some r.0 }, r.1, r.2)
]

abbrev pub as_result {ℓ} : {A : Type ℓ} → A → Option Error → Result A
as_result a none = ok a
as_result a (some e) = err e

-- applyGrant.
unfoldable pub apply_grant :
    LeaseService → Time → String → String → Duration → Fsm → Fsm × List Event × Result (ℕ × Bool)
apply_grant s now name owner ttl f = elim s.raft [
  | some l ↦ apply_lease_grant l.codec l.raft now name owner ttl f
  | none ↦ on_table (Leases.grant s.unicode now name owner (add now ttl) ttl) f
]

-- applyRenew.
unfoldable pub apply_renew :
    LeaseService → Time → String → String → ℕ → Duration → Fsm → Fsm × List Event × Result Time
apply_renew s now name owner token ttl f = elim s.raft [
  | some l ↦ apply_lease_renew l.codec l.raft now name owner token ttl f
  | none ↦
      on_table
        (λ t.
          let r = Leases.renew s.unicode name owner token (add now ttl) ttl t in
          (r.0, [], as_result (add now ttl) r.1))
        f
]

-- applyRevoke.
unfoldable pub apply_revoke :
    LeaseService → String → String → ℕ → Fsm → Fsm × List Event × Result (Unit {0})
apply_revoke s name owner token f = elim s.raft [
  | some l ↦
      let r = apply_lease_revoke l.codec l.raft name owner token f in (r.0, r.1, as_result tt r.2)
  | none ↦
      on_table
        (λ t. let r = Leases.revoke s.unicode name owner token t in (r.0, r.1, as_result tt r.2)) f
]

abbrev pub deadline_ms : Option LeaseRecord → ℤ
deadline_ms none = pos 0
deadline_ms (some rec) = unix_ms rec.deadline

-- grantResponse.
unfoldable pub grant_response : String → String → ℕ → Fsm → GrantResponse
grant_response name owner token f = record {
  granted = true;
  held = false;
  fencing_token = token;
  owner = owner;
  deadline_unix_ms = deadline_ms (get_in name f.leases);
}

-- The answer of Grant for a lease that somebody else has.
abbrev pub held_response : Option LeaseRecord → GrantResponse
held_response none = record {
  granted = false;
  held = true;
  fencing_token = 0;
  owner = "";
  deadline_unix_ms = pos 0;
}
held_response (some rec) = record {
  granted = false;
  held = true;
  fencing_token = rec.token;
  owner = rec.owner;
  deadline_unix_ms = unix_ms rec.deadline;
}
