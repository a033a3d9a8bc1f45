-- ===== src/Locks/Apart.antt =====
-- Calls of the lock table that are about other names: locks/table.go.
use clusdr.Prelude.{
  ◌≡◌, refl, ◌∙◌, List, [], ◌∷◌, String, arith, lookup, Distinct, All, str_eq_iff, lookup-insert,
  lookup-delete,
}
use clusdr.Names.{Unicode}
use clusdr.Locks.{
  Table, Call, acquires, releases, renews, expires, waits, wait, step, run, set_deadline, add_lock,
  drop_lock, new_lock,
}
use clusdr.Locks.Cases.{acquire_cases, release_cases, renew_cases, expire_cases}
use clusdr.Locks.Methods.{step-Distinct}

-- The name that a call is about; Wait is about none.
abbrev pub Names : Call → String → Type 0
Names (acquires now name holder deadline ttl) other = name ≡ other
Names (releases name holder token) other = name ≡ other
Names (renews name holder token deadline ttl) other = name ≡ other
Names (expires name token) other = name ≡ other
Names (waits g) other = ⊥

step_apart :
    (u : Unicode) (t : Table) (c : Call) (k : String)
    → Distinct t.locks
    → ¬ Names c k
    → lookup k (step u t c).locks ≡ lookup k t.locks
unfolding step wait set_deadline add_lock drop_lock
step_apart u t (acquires now n h deadline ttl) k d a =
    acquire_cases u n t (λ r. lookup k r.0.locks ≡ lookup k t.locks) now h deadline ttl
      (λ _ _. refl) (λ _ _. refl)
      (λ rec v x l b. ground (
        arith,
        str_eq_iff n k,
        lookup-insert n k (record rec { deadline = deadline; ttl = ttl }) t.locks,
      ))
      (λ rec v x l b. refl) (λ v x l b. refl)
      (λ v x l b.
        ground (arith, str_eq_iff n k, lookup-insert n k (new_lock now n h deadline ttl t) t.locks))
step_apart u t (releases n h token) k d a =
    release_cases u n t (λ r. lookup k r.0.locks ≡ lookup k t.locks) h token (λ _ _. refl)
      (λ _ _. refl) (λ rec v l b. refl)
      (λ rec v l b. ground (arith, str_eq_iff n k, lookup-delete n k t.locks d))
step_apart u t (renews n h token deadline ttl) k d a =
    renew_cases u n t (λ r. lookup k r.0.locks ≡ lookup k t.locks) h token deadline ttl
      (λ _ _. refl) (λ _ _. refl) (λ rec v l b. refl)
      (λ rec v l b. ground (
        arith,
        str_eq_iff n k,
        lookup-insert n k (record rec { deadline = deadline; ttl = ttl }) t.locks,
      ))
step_apart u t (expires n token) k d a =
    expire_cases u n t (λ r. lookup k r.0.locks ≡ lookup k t.locks) token (λ _ _. refl)
      (λ _ _. refl) (λ rec v l b. refl)
      (λ rec v l b. ground (arith, str_eq_iff n k, lookup-delete n k t.locks d))
step_apart u t (waits g) k d a = refl

-- Calls about other names leave what the table has under a name, and one record per name.
pub run_apart :
    (u : Unicode) (t : Table) (cs : List Call) (k : String)
    → Distinct t.locks
    → All (λ c. ¬ Names c k) cs
    → (lookup k (run u t cs).locks ≡ lookup k t.locks) × Distinct (run u t cs).locks
unfolding run
run_apart u t [] k d a = (refl, d)
run_apart u t (c ∷ cs) k d a =
    let (l, d') = run_apart u (step u t c) cs k (step-Distinct u t c d) a.1 in
    (l ∙ step_apart u t c k d a.0, d')
