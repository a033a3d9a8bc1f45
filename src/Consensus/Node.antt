-- ===== src/Consensus/Node.antt =====
-- consensus/node.go: the methods with which the leader puts a command into the Raft log.
-- raft.Apply of hashicorp/raft is a parameter: `submit bytes f` is what it does to the FSM as it is when
-- the entry's turn comes, with the events emitted and the future's error or response. `now` is the
-- leader's clock. Children: Submission, Leasing, Locking and Commits (theorems), Fixtures and Examples (tests).
pub mod Submission
pub mod Leasing
pub mod Locking
pub mod Commits
pub mod Fixtures
mod Examples
use clusdr.Prelude.{ℕ, Bool, Option, none, some, List, [], String, pos}
use clusdr.Fault.{Error, Result, ok, err, unexpected_result}
use clusdr.Clock.{Time, Duration, add, to_unix_ms, duration_ms}
use clusdr.Events.{Event}
use clusdr.Membership.{normalize_role, role_voter}
use clusdr.Locks
use clusdr.Leases
use clusdr.Consensus.Command.{
  Command, Codec, blank, add_member, remove_member, drop_member, lock_acquire, lock_release,
  lock_renew, lock_expire, lease_grant, lease_renew, lease_revoke, lease_expire,
}
use clusdr.Consensus.Fsm.{Fsm, Response, LockResult, nothing, failed, result}

pub record Raft : Type 0 where
  pub submit : List ℕ → Fsm → Fsm × List Event × Result Response

-- The response of the future as applyLock reads it.
unfoldable pub lock_result : Result Response → Result LockResult
lock_result (err e) = err e
lock_result (ok nothing) = err unexpected_result
lock_result (ok (failed e)) = err unexpected_result
lock_result (ok (result r)) = elim r.failure [ none ↦ ok r | some e ↦ err e ]

-- applyLock.
unfoldable pub apply_lock : Raft → List ℕ → Fsm → Fsm × List Event × Result LockResult
unfolding lock_result
apply_lock raft bytes f = let r = raft.submit bytes f in (r.0, r.1, lock_result r.2)

-- encodeCommand and then applyLock.
unfoldable pub propose : Codec → Raft → Command → Fsm → Fsm × List Event × Result LockResult
unfolding apply_lock
propose codec raft cmd f = elim (codec.encode cmd) [
  | err e ↦ (f, [], err e)
  | ok bytes ↦ apply_lock raft bytes f
]

-- The result of a member command: the future's error, and nothing else.
abbrev pub member_result : Result Response → Option Error
member_result (ok r) = none
member_result (err e) = some e

-- encodeCommand and then Apply, for the member commands.
unfoldable pub propose_member : Codec → Raft → Command → Fsm → Fsm × List Event × Option Error
propose_member codec raft cmd f = elim (codec.encode cmd) [
  | err e ↦ (f, [], some e)
  | ok bytes ↦ let r = raft.submit bytes f in (r.0, r.1, member_result r.2)
]

-- ApplyAddMemberAs.
unfoldable pub apply_add_member_as :
    Codec → Raft → String → String → String → Fsm → Fsm × List Event × Option Error
unfolding propose_member
apply_add_member_as codec raft id addr role f =
    propose_member codec raft
      (record (blank add_member) { id = id; address = addr; role = normalize_role role }) f

-- ApplyAddMember.
unfoldable pub apply_add_member :
    Codec → Raft → String → String → Fsm → Fsm × List Event × Option Error
unfolding apply_add_member_as
apply_add_member codec raft id addr f = apply_add_member_as codec raft id addr role_voter f

-- ApplyRemoveMember.
unfoldable pub apply_remove_member : Codec → Raft → String → Fsm → Fsm × List Event × Option Error
unfolding propose_member
apply_remove_member codec raft id f =
    propose_member codec raft (record (blank remove_member) { id = id }) f

-- ApplyDropMember.
unfoldable pub apply_drop_member : Codec → Raft → String → Fsm → Fsm × List Event × Option Error
unfolding propose_member
apply_drop_member codec raft id f =
    propose_member codec raft (record (blank drop_member) { id = id }) f

-- The token and the flag of a successful result.
abbrev pub granted : Result LockResult → Result (ℕ × Bool)
granted (err e) = err e
granted (ok r) = ok (r.token, r.acquired)

abbrev pub error_of {ℓ} : {A : Type ℓ} → Result A → Option Error
error_of (ok a) = none
error_of (err e) = some e

abbrev pub then_deadline : Time → Result LockResult → Result Time
then_deadline deadline (ok r) = ok deadline
then_deadline deadline (err e) = err e

-- The command of ApplyLockAcquire.
abbrev pub acquire_command : Time → String → String → Duration → Command
acquire_command now name holder requested =
    let ttl = Locks.clamp_ttl requested (pos 0) in
    record (blank lock_acquire) {
      id = holder;
      name = name;
      ttl_ms = duration_ms ttl;
      deadline_unix_ms = to_unix_ms (add now ttl);
    }

-- ApplyLockAcquire.
unfoldable pub apply_lock_acquire :
    Codec → Raft → Time → String → String → Duration → Fsm → Fsm × List Event × Result (ℕ × Bool)
unfolding propose
apply_lock_acquire codec raft now name holder requested f =
    let r = propose codec raft (acquire_command now name holder requested) f in
    (r.0, r.1, granted r.2)

-- ApplyLockRelease.
unfoldable pub apply_lock_release :
    Codec → Raft → String → String → ℕ → Fsm → Fsm × List Event × Option Error
unfolding propose
apply_lock_release codec raft name holder token f =
    let r =
      propose codec raft (record (blank lock_release) { id = holder; name = name; token = token })
        f in
    (r.0, r.1, error_of r.2)

-- ApplyLockRenew.
unfoldable pub apply_lock_renew :
    Codec → Raft → Time → String → String → ℕ → Duration → Fsm → Fsm × List Event × Result Time
unfolding propose
apply_lock_renew codec raft now name holder token requested f =
    let ttl = Locks.clamp_ttl requested (pos 0) in
    let r =
      propose codec raft
        (record (blank lock_renew) {
          id = holder;
          name = name;
          token = token;
          ttl_ms = duration_ms ttl;
          deadline_unix_ms = to_unix_ms (add now ttl);
        })
        f in
    (r.0, r.1, then_deadline (add now ttl) r.2)

-- ApplyLockExpire.
unfoldable pub apply_lock_expire : Codec → Raft → String → ℕ → Fsm → Fsm × List Event × Option Error
unfolding propose
apply_lock_expire codec raft name token f =
    let r = propose codec raft (record (blank lock_expire) { name = name; token = token }) f in
    (r.0, r.1, error_of r.2)

-- The command of ApplyLeaseGrant.
abbrev pub grant_command : Time → String → String → Duration → Command
grant_command now name owner requested =
    let ttl = Leases.clamp_ttl requested (pos 0) in
    record (blank lease_grant) {
      id = owner;
      name = name;
      ttl_ms = duration_ms ttl;
      deadline_unix_ms = to_unix_ms (add now ttl);
    }

-- ApplyLeaseGrant.
unfoldable pub apply_lease_grant :
    Codec → Raft → Time → String → String → Duration → Fsm → Fsm × List Event × Result (ℕ × Bool)
unfolding propose
apply_lease_grant codec raft now name owner requested f =
    let r = propose codec raft (grant_command now name owner requested) f in (r.0, r.1, granted r.2)

-- The command of ApplyLeaseRenew.
abbrev pub renew_command : Time → String → String → ℕ → Duration → Command
renew_command now name owner token requested =
    let ttl = Leases.clamp_ttl requested (pos 0) in
    record (blank lease_renew) {
      id = owner;
      name = name;
      token = token;
      ttl_ms = duration_ms ttl;
      deadline_unix_ms = to_unix_ms (add now ttl);
    }

-- ApplyLeaseRenew.
unfoldable pub apply_lease_renew :
    Codec → Raft → Time → String → String → ℕ → Duration → Fsm → Fsm × List Event × Result Time
unfolding propose
apply_lease_renew codec raft now name owner token requested f =
    let r = propose codec raft (renew_command now name owner token requested) f in
    (r.0, r.1, then_deadline (add now (Leases.clamp_ttl requested (pos 0))) r.2)

-- ApplyLeaseRevoke.
unfoldable pub apply_lease_revoke :
    Codec → Raft → String → String → ℕ → Fsm → Fsm × List Event × Option Error
unfolding propose
apply_lease_revoke codec raft name owner token f =
    let r =
      propose codec raft (record (blank lease_revoke) { id = owner; name = name; token = token })
        f in
    (r.0, r.1, error_of r.2)

-- ApplyLeaseExpire.
unfoldable pub apply_lease_expire :
    Codec → Raft → String → ℕ → Fsm → Fsm × List Event × Option Error
unfolding propose
apply_lease_expire codec raft name token f =
    let r = propose codec raft (record (blank lease_expire) { name = name; token = token }) f in
    (r.0, r.1, error_of r.2)
