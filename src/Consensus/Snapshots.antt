-- ===== src/Consensus/Snapshots.antt =====
-- Snapshot and Restore of consensus/fsm.go.
use clusdr.Prelude.{
  ◌≡◌, refl, sym, ◌∙◌, ap, subst, ◌≢◌, ◌⊎◌, inl, inr, none, some, Option, List, [], ◌∷◌, String,
  arith, map, All, Map, lookup, values, str_eq, str_eq_iff, str_ne, lookup-insert, Bool-cases,
  Option-cases, All-map_of, All-map, All-values, All-values_of, All-sort_by, All-sort_by_of,
  All-of-lookup, All-lookup, if◌then◌else◌, Distinct, lookup-insert_all_perm, String-set,
}
use mathlib.Core.Option
use mathlib.Core.List.Perm
use clusdr.Names.{Unicode}
use clusdr.Clock.{Time}
use clusdr.Membership.{
  Engine, Member, restore_member, restoring, list_members, normalize_role, normalize_status,
}
use clusdr.Membership.Invariant.{IsConsistent, Entry, normalize_role_idem, normalize_status_idem}
use clusdr.Locks
use clusdr.Leases
use clusdr.Locks.Invariant as LockInvariant
use clusdr.Leases.Invariant as LeaseInvariant
use clusdr.Locks.Snapshots as LockSnapshots
use clusdr.Consensus.Fsm.{Fsm, MemberEntry, entry_of, snapshot, restore_members, restore}

-- What a snapshot keeps of the member under an id.
abbrev pub summary : String → Engine → Option MemberEntry
summary id e = Option.map entry_of (lookup id e.members)

-- An entry with a normal role and status, as Snapshot writes them.
abbrev IsNormal : MemberEntry → Type 0
IsNormal x = (normalize_role x.role ≡ x.role) × (normalize_status x.status ≡ x.status)

entry_of-IsNormal : (m : Member) → IsNormal (entry_of m)
entry_of-IsNormal m = (normalize_role_idem m.role, normalize_status_idem m.status)

abbrev written : Time → MemberEntry → Engine → Member
written now x e = restoring now x.id x.address (normalize_role x.role) x.status e

entry_of-written :
    (now : Time) (x : MemberEntry) (e : Engine) → IsNormal x → entry_of (written now x e) ≡ x
entry_of-written now x e (r, s) =
    λ i. record { id = x.id; address = x.address; role = role_path i; status = status_path i }
  where
    role_path : normalize_role (normalize_role (normalize_role x.role)) ≡ x.role
    role_path = rw (r, r, r) refl

    status_path : normalize_status (normalize_status x.status) ≡ x.status
    status_path = rw (s, s) refl

summary-restore_member :
    (now : Time) (x : MemberEntry) (e : Engine) (k : String)
    → IsNormal x
    → x.id ≢ ""
    → summary k (restore_member now x.id x.address (normalize_role x.role) x.status e).0
      ≡ (if str_eq x.id k then some x else summary k e)
unfolding restore_member
summary-restore_member now x e k n ne = elim (Bool-cases (str_eq x.id "")) [
  | inl b ↦ absurd (ne ((str_eq_iff x.id "").0 b))
  | inr b ↦
      rw (b, lookup-insert x.id k (written now x e) e.members)
        (elim (Bool-cases (str_eq x.id k)) [
          | inl c ↦ rw c (ap some (entry_of-written now x e n))
          | inr c ↦ rw c refl
        ])
]

-- Restoring entries of which each is what `at` says of its id: then an id is summarised as `at` says, or
-- no entry has it.
summary-restore_members :
    (now : Time) (at : String → Option MemberEntry) (xs : List MemberEntry) (e : Engine)
    (k : String)
    → All (λ x. IsNormal x × (x.id ≢ "") × (at x.id ≡ some x)) xs
    → ((x : MemberEntry) × (at k ≡ some x) × (summary k (restore_members now xs e) ≡ some x))
      ⊎ (All (λ x. x.id ≢ k) xs × (summary k (restore_members now xs e) ≡ summary k e))
unfolding restore_members
summary-restore_members now at [] e k a = inr (tt, refl)
summary-restore_members now at (x ∷ xs) e k a =
    let e' = (restore_member now x.id x.address (normalize_role x.role) x.status e).0 in
    elim (summary-restore_members now at xs e' k a.1) [
      | inl q ↦ inl q
      | inr (n, q) ↦ elim (Bool-cases (str_eq x.id k)) [
        | inl b ↦ inl (
          x,
          subst (λ i. at i ≡ some x) ((str_eq_iff x.id k).0 b) a.0.2,
          q ∙ (summary-restore_member now x e k a.0.0 a.0.1 ∙ rw b refl),
        )
        | inr b ↦
            inr
              ((str_ne x.id k b, n), q ∙ (summary-restore_member now x e k a.0.0 a.0.1 ∙ rw b refl))
      ]
    ]

-- What holds of every listed member holds of every entry of a snapshot.
All-listed :
    (P : MemberEntry → Type 0) (e : Engine)
    → Distinct e.members
    → ((k : String) (m : Member) → lookup k e.members ≡ some m → P (entry_of m))
    → All P (map entry_of (list_members e))
unfolding list_members
All-listed P e d h = All-map_of P entry_of _ (
    All-sort_by_of (λ m. m.id) (λ m. P (entry_of m)) (values e.members)
      (All-values_of (λ m. P (entry_of m)) e.members
        (All-of-lookup (λ x. P (entry_of x.1)) e.members d h)))

listed-All :
    (P : MemberEntry → Type 0) (e : Engine) (k : String) (m : Member)
    → All P (map entry_of (list_members e))
    → lookup k e.members ≡ some m
    → P (entry_of m)
unfolding list_members
listed-All P e k m a l =
    All-lookup (λ x. P (entry_of x.1)) k e.members
      (All-values (λ m. P (entry_of m)) e.members
        (All-sort_by (λ m. m.id) (λ m. P (entry_of m)) (values e.members) (All-map P entry_of _ a)))
      l

-- The member part of Restore after Snapshot, over any list `old`: an id of the snapshot gets back its
-- address, role and status; an id that the snapshot does not have keeps whatever `old` had for it.
members_restored :
    (now : Time) (e old : Engine) (k : String)
    → IsConsistent e
    → lookup "" e.members ≡ none
    → summary k (restore_members now (map entry_of (list_members e)) old)
      ≡ elim (summary k e) [ none ↦ summary k old | some x ↦ some x ]
members_restored now e old k c blank =
    elim (summary-restore_members now (λ i. summary i e) (map entry_of (list_members e)) old k
      (All-listed _ e c.distinct ok)) [
        | inl (x, p, q) ↦ rw p q
        | inr (n, q) ↦ elim (Option-cases (lookup k e.members)) [
          | inl l ↦ rw l q
          | inr (m, l) ↦ absurd (listed-All (λ x. x.id ≢ k) e k m n l (id_of k m l))
        ]
      ]
  where
    id_of : (j : String) (m : Member) → lookup j e.members ≡ some m → m.id ≡ j
    id_of j m l = (All-lookup (Entry e.leader_id) j {v = m} e.members c.entries l).0

    not_blank : (j : String) (m : Member) → lookup j e.members ≡ some m → m.id ≢ ""
    not_blank j m l p =
        let q : lookup "" e.members ≡ some m =
          subst (λ i. lookup i e.members ≡ some m) (sym (id_of j m l) ∙ p) l in
        ground arith

    ok :
        (j : String) (m : Member)
        → lookup j e.members ≡ some m
        → IsNormal (entry_of m) × (m.id ≢ "") × (summary m.id e ≡ some (entry_of m))
    ok j m l = (
      entry_of-IsNormal m,
      not_blank j m l,
      subst (λ i. summary i e ≡ some (entry_of m)) (sym (id_of j m l)) (ap (Option.map entry_of) l),
    )

lease_entries :
    (u : Unicode) (m : Map Leases.LeaseRecord)
    → All (LeaseInvariant.Entry u) m
    → All (λ e. e.1.name ≡ e.0) m
lease_entries u [] a = tt
lease_entries u (e ∷ m) a = (a.0.0, lease_entries u m a.1)

LeaseRecord-set : IsSet Leases.LeaseRecord
LeaseRecord-set = hlevel String-set

lease_restored :
    (u : Unicode) (t old : Leases.Table) (k : String)
    → LeaseInvariant.IsWellFormed u t
    → let t' = Leases.restore (Leases.snapshot_copy t) old in
      (lookup k t'.leases ≡ lookup k t.leases) × (t'.next ≡ t.next)
unfolding Leases.snapshot_copy Leases.restore
lease_restored u t old k w = (
  lookup-insert_all_perm (λ r. r.name) t.leases w.distinct (values t.leases) k LeaseRecord-set
      (lease_entries u t.leases w.named) (Perm.refl (values t.leases)),
  refl,
)

-- A node with both tables.
abbrev pub full : Engine → Locks.Table → Leases.Table → Fsm
full e t s = record { members = e; locks = some t; leases = some s }

-- Restoring the snapshot of a node (with a consistent list without an empty id, and well-formed tables)
-- into another: the lock and lease tables become the ones of the snapshot, every lookup and both token
-- counters, and nothing that they held before is left. A member of the snapshot gets its address,
-- role and status back; a member that the snapshot does not have is kept as it was.
pub restore-snapshot :
    (u : Unicode) (now : Time) (e old_e : Engine) (t old_t : Locks.Table) (s old_s : Leases.Table)
    (k : String)
    → IsConsistent e
    → lookup "" e.members ≡ none
    → LockInvariant.IsWellFormed u t
    → LeaseInvariant.IsWellFormed u s
    → let r = restore now (snapshot (full e t s)) (full old_e old_t old_s) in
      (summary k r.members ≡ elim (summary k e) [ none ↦ summary k old_e | some x ↦ some x ])
      × (Option.map (λ t'. lookup k t'.locks) r.locks ≡ some (lookup k t.locks))
      × (Option.map (λ t'. t'.next) r.locks ≡ some t.next)
      × (Option.map (λ t'. lookup k t'.leases) r.leases ≡ some (lookup k s.leases))
      × (Option.map (λ t'. t'.next) r.leases ≡ some s.next)
unfolding restore snapshot Locks.snapshot_copy Leases.snapshot_copy
restore-snapshot u now e old_e t old_t s old_s k c blank w v =
    let (l, n, _) =
      LockSnapshots.restore-snapshot_copy u t old_t (values t.locks) k w
        (Perm.refl (values t.locks)) in
    let (m, o) = lease_restored u s old_s k v in
    (members_restored now e old_e k c blank, ap some l, ap some n, ap some m, ap some o)
