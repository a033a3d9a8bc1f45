-- ===== src/Leases/Invariant.antt =====
-- What every lease table looks like inside, whatever the calls.
use clusdr.Prelude.{
  ◌≡◌, refl, ◌≢◌, ◌≤◌, ◌<◌, none, some, List, [], ◌∷◌, String, arith, lookup, Distinct, All,
  All-insert, All-delete, All-lookup, Distinct-insert, Distinct-delete, length, length-insert,
  length-delete-le,
}
use clusdr.Names.{Unicode}
use clusdr.Clock.{Time, Duration}
use clusdr.Leases.{
  LeaseRecord, Table, Call, grants, revokes, renews, expires, valid_name, max_leases, step, run,
  set_deadline, add_lease, drop_lease, new, new_lease,
}
use clusdr.Leases.Cases.{grant_cases, revoke_cases, renew_cases, expire_cases}

-- An entry stands under its own name, which is legal, and has an owner.
abbrev pub Entry : Unicode → String × LeaseRecord → Type 0
Entry u e = (e.1.name ≡ e.0) × (valid_name u e.0 ≡ none) × (e.1.owner ≢ "")

pub record IsWellFormed (u : Unicode) (t : Table) : Type 0 where
  pub distinct : Distinct t.leases
  pub named : All (Entry u) t.leases
  pub bounded : length t.leases ≤ max_leases

pub new-IsWellFormed : (u : Unicode) → IsWellFormed u new
unfolding new
new-IsWellFormed u = record { distinct = tt; named = tt; bounded = omega arith }

set_deadline-IsWellFormed :
    (u : Unicode) (t : Table) (name : String) (rec : LeaseRecord) (deadline : Time) (ttl : Duration)
    → lookup name t.leases ≡ some rec
    → IsWellFormed u t
    → IsWellFormed u (set_deadline name rec deadline ttl t)
unfolding set_deadline
set_deadline-IsWellFormed u t name rec deadline ttl l w = record {
  distinct = Distinct-insert name _ t.leases w.distinct;
  named =
      All-insert (Entry u) name _ t.leases (All-lookup (Entry u) name {v = rec} t.leases w.named l)
        w.named;
  bounded =
      ground (arith, length-insert name (record rec { deadline = deadline; ttl = ttl }) t.leases);
}

add_lease-IsWellFormed :
    (u : Unicode) (t : Table) (now : Time) (name owner : String) (deadline : Time) (ttl : Duration)
    → valid_name u name ≡ none
    → owner ≢ ""
    → lookup name t.leases ≡ none
    → length t.leases < max_leases
    → IsWellFormed u t
    → IsWellFormed u (add_lease now name owner deadline ttl t)
unfolding add_lease
add_lease-IsWellFormed u t now name owner deadline ttl v n l b w = record {
  distinct = Distinct-insert name _ t.leases w.distinct;
  named = All-insert (Entry u) name _ t.leases (refl, v, n) w.named;
  bounded = ground (arith, length-insert name (new_lease now name owner deadline ttl t) t.leases);
}

drop_lease-IsWellFormed :
    (u : Unicode) (t : Table) (name : String)
    → IsWellFormed u t
    → IsWellFormed u (drop_lease name t)
unfolding drop_lease
drop_lease-IsWellFormed u t name w = record {
  distinct = Distinct-delete name t.leases w.distinct;
  named = All-delete (Entry u) name t.leases w.named;
  bounded = omega (arith, length-delete-le name t.leases);
}

pub step-IsWellFormed :
    (u : Unicode) (t : Table) (c : Call) → IsWellFormed u t → IsWellFormed u (step u t c).0
unfolding step
step-IsWellFormed u t (grants now n h deadline ttl) w =
    grant_cases u n t (λ r. IsWellFormed u r.0) now h deadline ttl (λ _ _. w) (λ _ _. w)
      (λ rec v x l b. set_deadline-IsWellFormed u t n rec deadline ttl l w) (λ _ _ _ _ _. w)
      (λ _ _ _ _. w) (λ v x l b. add_lease-IsWellFormed u t now n h deadline ttl v x l b w)
step-IsWellFormed u t (revokes n h k) w =
    revoke_cases u n t (λ r. IsWellFormed u r.0) h k (λ _ _. w) (λ _ _. w) (λ _ _ _ _. w)
      (λ _ _ _ _. drop_lease-IsWellFormed u t n w)
step-IsWellFormed u t (renews n h k deadline ttl) w =
    renew_cases u n t (λ r. IsWellFormed u r.0) h k deadline ttl (λ _ _. w) (λ _ _. w)
      (λ _ _ _ _. w) (λ rec v l b. set_deadline-IsWellFormed u t n rec deadline ttl l w)
step-IsWellFormed u t (expires n k) w =
    expire_cases u n t (λ r. IsWellFormed u r.0) k (λ _ _. w) (λ _ _. w) (λ _ _ _ _. w)
      (λ _ _ _ _. drop_lease-IsWellFormed u t n w)

-- Any calls keep the table well formed: distinct legal names, each record under its own name with an
-- owner, and at most MaxLeases leases.
pub calls-IsWellFormed :
    (u : Unicode) (t : Table) (cs : List Call) → IsWellFormed u t → IsWellFormed u (run u t cs)
unfolding run
calls-IsWellFormed u t [] w = w
calls-IsWellFormed u t (c ∷ cs) w =
    calls-IsWellFormed u (step u t c).0 cs (step-IsWellFormed u t c w)
