-- ===== src/Consensus/Replicas/Leases.antt =====
-- The lease table without what is local to a node.
use clusdr.Prelude.{
  ℕ, ◌≡◌, String, arith, lookup, Option-cases, inl, inr, true, over, lookup-over, over-insert,
  over-delete, length-over,
}
use clusdr.Names.{Unicode}
use clusdr.Clock.{Time, Duration}
use clusdr.Leases as Leases

-- A lease table without what is local to a node: the time of the grant and the hook.
abbrev pub plain_lease : Leases.LeaseRecord → Leases.LeaseRecord
plain_lease rec = record rec { granted_at = 0 }

abbrev pub plain_leases : Leases.Table → Leases.Table
plain_leases t = record { leases = over plain_lease t.leases; next = t.next; emits = true }

pub grant-plain :
    (u : Unicode) (now : Time) (name owner : String) (deadline : Time) (ttl : Duration)
    (t : Leases.Table)
    → let r = Leases.grant u now name owner deadline ttl t in
      let p = Leases.grant u 0 name owner deadline ttl (plain_leases t) in
      (p.0 ≡ plain_leases r.0) × (p.2 ≡ r.2)
unfolding Leases.grant Leases.set_deadline Leases.add_lease
grant-plain u now name owner deadline ttl t = elim (Option-cases (lookup name t.leases)) [
  | inl l ↦ ground (
    arith,
    lookup-over plain_lease name t.leases,
    length-over plain_lease t.leases,
    over-insert plain_lease name (Leases.new_lease now name owner deadline ttl t) t.leases,
  )
  | inr (rec, l) ↦ ground (
    arith,
    lookup-over plain_lease name t.leases,
    over-insert plain_lease name (record rec { deadline = deadline; ttl = ttl }) t.leases,
  )
]

pub revoke-plain :
    (u : Unicode) (name owner : String) (token : ℕ) (t : Leases.Table)
    → let r = Leases.revoke u name owner token t in
      let p = Leases.revoke u name owner token (plain_leases t) in
      (p.0 ≡ plain_leases r.0) × (p.2 ≡ r.2)
unfolding Leases.revoke Leases.drop_lease
revoke-plain u name owner token t =
    ground (arith, lookup-over plain_lease name t.leases, over-delete plain_lease name t.leases)

pub renew-plain :
    (u : Unicode) (name owner : String) (token : ℕ) (deadline : Time) (ttl : Duration)
    (t : Leases.Table)
    → let r = Leases.renew u name owner token deadline ttl t in
      Leases.renew u name owner token deadline ttl (plain_leases t) ≡ (plain_leases r.0, r.1)
unfolding Leases.renew Leases.set_deadline
renew-plain u name owner token deadline ttl t = elim (Option-cases (lookup name t.leases)) [
  | inl l ↦ ground (arith, lookup-over plain_lease name t.leases)
  | inr (rec, l) ↦ ground (
    arith,
    lookup-over plain_lease name t.leases,
    over-insert plain_lease name (record rec { deadline = deadline; ttl = ttl }) t.leases,
  )
]

pub expire-plain :
    (u : Unicode) (name : String) (token : ℕ) (t : Leases.Table)
    → let r = Leases.expire u name token t in
      let p = Leases.expire u name token (plain_leases t) in (p.0 ≡ plain_leases r.0) × (p.2 ≡ r.2)
unfolding Leases.expire Leases.drop_lease
expire-plain u name token t =
    ground (arith, lookup-over plain_lease name t.leases, over-delete plain_lease name t.leases)
