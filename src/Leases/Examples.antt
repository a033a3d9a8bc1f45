-- ===== src/Leases/Examples.antt =====
-- The lease table on concrete inputs: tests of the definitions, and the theorems at work.
use clusdr.Prelude.{
  true, ◌≡◌, refl, none, [], ◌∷◌, arith, str_ne, pos, lookup, insert, delete, byte_len,
}
use clusdr.Names.{ascii, is_name_char, first_bad}
use clusdr.Grants.{IsFenced}
use clusdr.Events.{event, lease_expired, grant_info}
use clusdr.Leases.{
  LeaseRecord, Table, grants, revokes, grant, revoke, renew, expire, run, step, valid_name,
  set_deadline, add_lease, drop_lease,
}
use clusdr.Leases.Fencing.{token_of, view, Stale, RefusedRevoke, old_lease_token_fails}
use clusdr.Leases.Invariant.{IsWellFormed}
use clusdr.Leases.Emissions.{step_events, change_events}

program : Unit {0}
unfolding valid_name is_name_char first_bad byte_len lookup insert delete grant revoke renew expire
    set_deadline add_lease drop_lease step run
program = tt

abbrev lease : LeaseRecord
lease = record {
  name = "presence.a";
  owner = "a";
  token = 4;
  granted_at = 10;
  deadline = 30;
  ttl = pos 20;
}

abbrev leased : Table
leased = record { leases = ("presence.a", lease) ∷ []; next = 4; emits = true }

expiry_emits :
    (expire ascii "presence.a" 4 leased).1
    ≡ event lease_expired "presence.a" (grant_info "a" 4) ∷ []
unfolding program
expiry_emits = refl

name_legal : valid_name ascii "presence.a" ≡ none
unfolding program
name_legal = refl

leased-IsWellFormed : IsWellFormed ascii leased
leased-IsWellFormed = record {
  distinct = (tt, tt);
  named = ((refl, name_legal, str_ne "a" "" refl), tt);
  bounded = omega arith;
}

leased-IsFenced : IsFenced token_of (view leased)
leased-IsFenced = record {
  distinct = (tt, tt);
  issued = ((omega arith, omega arith), tt);
  apart = (tt, tt);
}

leased-Stale : Stale leased "presence.a" 3
unfolding program
leased-Stale = (omega arith, λ rec h. ground arith)

old_lease_token_fails_example :
    RefusedRevoke
      (run ascii leased (grants 20 "b" "b" 40 (pos 20) ∷ []))
      (revoke ascii "presence.a" "a" 3 (run ascii leased (grants 20 "b" "b" 40 (pos 20) ∷ [])))
old_lease_token_fails_example =
    (old_lease_token_fails ascii leased (grants 20 "b" "b" 40 (pos 20) ∷ []) "presence.a" "a" 3 50
      (pos 20) (omega arith) leased-IsFenced leased-Stale).0

step_events_example :
    (step ascii leased (revokes "presence.a" "a" 4)).1
    ≡ change_events "lease.revoked"
        (lookup "presence.a" leased.leases)
        (lookup "presence.a" (step ascii leased (revokes "presence.a" "a" 4)).0.leases)
step_events_example = step_events ascii leased (revokes "presence.a" "a" 4) refl (tt, tt)
