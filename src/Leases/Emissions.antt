-- ===== src/Leases/Emissions.antt =====
-- The events of the lease table (Table.emit of leases/table.go) against what changes in it.
use clusdr.Prelude.{
  ◌≡◌, refl, none, some, Option, true, List, [], String, arith, lookup, Distinct,
  lookup-insert_self, lookup-delete, str_eq_refl,
}
use clusdr.Names.{Unicode}
use clusdr.Clock.{Time, Duration}
use clusdr.Events.{Event, lease_granted, lease_revoked, lease_expired}
use clusdr.Leases.{
  LeaseRecord, Table, Call, grants, revokes, renews, expires, step, emit, set_deadline, add_lease,
  new_lease, drop_lease,
}
use clusdr.Leases.Cases.{grant_cases, revoke_cases, renew_cases, expire_cases}

-- The name that a call is about.
abbrev pub subject : Call → String
subject (grants now name owner deadline ttl) = name
subject (revokes name owner token) = name
subject (renews name owner token deadline ttl) = name
subject (expires name token) = name

-- The type of the event with which a call ends a lease.
abbrev pub ending : Call → String
ending (expires name token) = lease_expired
ending _ = lease_revoked

-- The events that a change of one name's lease calls for: one for a lease that is new, one for a lease
-- that is gone, none where the lease stayed or there was and is none.
abbrev pub change_events : String → Option LeaseRecord → Option LeaseRecord → List Event
change_events kind none none = []
change_events kind none (some rec) = emit true lease_granted rec
change_events kind (some rec) none = emit true kind rec
change_events kind (some rec) (some rec') = []

unchanged : (kind : String) (o : Option LeaseRecord) → [] ≡ change_events kind o o
unchanged kind none = refl
unchanged kind (some rec) = refl

module _ (u : Unicode) (t : Table) (hook : t.emits ≡ true) (d : Distinct t.leases)
    (name : String) where
  abbrev Told : String → Table → List Event → Type 0
  Told kind t' es = es ≡ change_events kind (lookup name t.leases) (lookup name t'.leases)

  set_deadline-Told :
      (kind : String) (rec : LeaseRecord) (deadline : Time) (ttl : Duration)
      → lookup name t.leases ≡ some rec
      → Told kind (set_deadline name rec deadline ttl t) []
  unfolding set_deadline
  set_deadline-Told kind rec deadline ttl l =
      rw (l, lookup-insert_self name (record rec { deadline = deadline; ttl = ttl }) t.leases) refl

  add_lease-Told :
      (kind : String) (now : Time) (owner : String) (deadline : Time) (ttl : Duration)
      → lookup name t.leases ≡ none
      → Told kind
          (add_lease now name owner deadline ttl t)
          (emit t.emits lease_granted (new_lease now name owner deadline ttl t))
  unfolding add_lease
  add_lease-Told kind now owner deadline ttl l =
      rw (l, hook, lookup-insert_self name (new_lease now name owner deadline ttl t) t.leases) refl

  drop_lease-Told :
      (kind : String) (rec : LeaseRecord)
      → lookup name t.leases ≡ some rec
      → Told kind (drop_lease name t) (emit t.emits kind rec)
  unfolding drop_lease
  drop_lease-Told kind rec l = ground (arith, lookup-delete name name t.leases d, str_eq_refl name)

-- With the Emit hook set, a call on the lease table emits exactly the events that the change of its
-- name's lease calls for: lease.granted when the name was free and is leased after it, lease.expired
-- or lease.revoked (for an Expire or a Revoke) when it was leased and is free after it, and nothing
-- when it is leased before and after, or free before and after.
pub step_events :
    (u : Unicode) (t : Table) (c : Call)
    → t.emits ≡ true
    → Distinct t.leases
    → (step u t c).1
      ≡ change_events
          (ending c)
          (lookup (subject c) t.leases)
          (lookup (subject c) (step u t c).0.leases)
unfolding step
step_events u t (grants now n owner deadline ttl) e d =
    grant_cases u n t (λ r. Told u t e d n lease_revoked r.0 r.1) now owner deadline ttl
      (λ _ _. unchanged lease_revoked _) (λ _ _. unchanged lease_revoked _)
      (λ rec v x l b. set_deadline-Told u t e d n lease_revoked rec deadline ttl l)
      (λ _ _ _ _ _. unchanged lease_revoked _) (λ _ _ _ _. unchanged lease_revoked _)
      (λ v x l b. add_lease-Told u t e d n lease_revoked now owner deadline ttl l)
step_events u t (revokes n owner token) e d =
    revoke_cases u n t (λ r. Told u t e d n lease_revoked r.0 r.1) owner token
      (λ _ _. unchanged lease_revoked _) (λ _ _. unchanged lease_revoked _)
      (λ _ _ _ _. unchanged lease_revoked _)
      (λ rec v l m. drop_lease-Told u t e d n lease_revoked rec l)
step_events u t (renews n owner token deadline ttl) e d =
    renew_cases u n t (λ r. Told u t e d n lease_revoked r.0 []) owner token deadline ttl
      (λ _ _. unchanged lease_revoked _) (λ _ _. unchanged lease_revoked _)
      (λ _ _ _ _. unchanged lease_revoked _)
      (λ rec v l m. set_deadline-Told u t e d n lease_revoked rec deadline ttl l)
step_events u t (expires n token) e d =
    expire_cases u n t (λ r. Told u t e d n lease_expired r.0 r.1) token
      (λ _ _. unchanged lease_expired _) (λ _ _. unchanged lease_expired _)
      (λ _ _ _ _. unchanged lease_expired _)
      (λ rec v l m. drop_lease-Told u t e d n lease_expired rec l)
