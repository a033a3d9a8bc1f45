-- ===== src/Operator/Examples.antt =====
-- The operator on concrete inputs: tests of the definitions, and the theorem at work.
use clusdr.Prelude.{
  true, false, ◌≡◌, ◌≢◌, ◌⊎◌, refl, inl, inr, Option, none, some, [], ◌∷◌, String, str_eq,
  str_eq_iff, str_ne, Bool-cases, if◌then◌else◌, arith, sort_by, str_lt, ap, sym, ◌∙◌,
}
use clusdr.Fault.{Error, ok, conflict}
use clusdr.Operator.Seed.{Object, Api, cluster_from, claim_seed, pick_seed, keep_seed, resolve_seed}
use clusdr.Operator.Pods.{
  PodAddr, join_pod, join_addr, member_observer, already_member, listed, join_requests,
}
use clusdr.Operator.OneSeed.{IsVersioned, Unclaimed, one_seed}

program : Unit {0}
unfolding cluster_from claim_seed pick_seed keep_seed resolve_seed join_addr member_observer
    already_member listed join_requests sort_by str_lt
program = tt

-- An API whose versions alternate.
abbrev bump : String → String
bump v = if str_eq v "1" then "2" else "1"

abbrev update : String → String → Object → Object × Option Error
update v node o =
    if str_eq v o.version
    then (record o { version = bump v; status_seed = node }, none)
    else (o, some conflict)

abbrev api : Api
api = record { unreadable = λ o. none; update_status = update }

bump_differs : (v : String) → bump v ≢ v
bump_differs v e = elim (Bool-cases (str_eq v "1")) [
  | inl b ↦ let p : "2" ≡ v = rw b at e in str_ne "2" "1" refl (p ∙ (str_eq_iff v "1").0 b)
  | inr b ↦ let p : "1" ≡ v = rw b at e in str_ne v "1" b (sym p)
]

api-IsVersioned : IsVersioned api
api-IsVersioned = record { conflicts = conflicts; writes = writes }
  where
    conflicts :
        (v node : String) (o : Object)
        → v ≢ o.version
        → (e : Error) × (update v node o ≡ (o, some e))
    conflicts v node o n = elim (Bool-cases (str_eq v o.version)) [
      | inl b ↦ absurd (n ((str_eq_iff v o.version).0 b))
      | inr b ↦ (conflict, rw b refl)
    ]

    writes :
        (v node : String) (o : Object)
        → (update v node o).1 ≡ none
        → let o' = (update v node o).0 in
          (o'.version ≢ v) × (o'.status_seed ≡ node) × (o'.spec_seed ≡ o.spec_seed)
    writes v node o h = elim (Bool-cases (str_eq v o.version)) [
      | inl b ↦ rw b (bump_differs v, refl, refl)
      | inr b ↦ absurd (let q : some conflict ≡ none = rw b at h in ground arith)
    ]

abbrev fresh : Object
fresh = record { version = "1"; spec_seed = ""; status_seed = "" }

fresh-Unclaimed : Unclaimed fresh
fresh-Unclaimed = record { versioned = str_ne "1" "" refl; spec = refl; status = refl }

first_claims : resolve_seed api (ok ("b" ∷ "a" ∷ [])) (cluster_from fresh) fresh ≡ (
  record { version = "2"; spec_seed = ""; status_seed = "a" },
  record { resource_version = "1"; spec_seed = "a"; status_seed = "a" },
  none,
)
unfolding program
first_claims = refl

claimed : (resolve_seed api (ok ("b" ∷ "a" ∷ [])) (cluster_from fresh) fresh).1.spec_seed ≢ ""
claimed e = str_ne "a" "" refl (sym (ap (λ r. r.1.spec_seed) first_claims) ∙ e)

one_seed_example :
    let r = resolve_seed api (ok ("b" ∷ "a" ∷ [])) (cluster_from fresh) fresh in
    let other = resolve_seed api (ok ("b" ∷ [])) (cluster_from fresh) r.0 in
    let next = resolve_seed api (ok []) (cluster_from r.0) r.0 in
    (((e : Error) × (other.2 ≡ some e)) ⊎ (other.1.spec_seed ≡ ""))
    × (next.0 ≡ r.0)
    × (next.1.spec_seed ≡ r.1.spec_seed)
    × (next.2 ≡ none)
one_seed_example =
    one_seed api (ok ("b" ∷ "a" ∷ [])) (ok ("b" ∷ [])) (ok []) fresh api-IsVersioned fresh-Unclaimed
      (ap (λ r. r.2) first_claims) claimed

abbrev pod : String → String → PodAddr
pod name ip = record {
  name = name;
  host_ip = ip;
  node_name = name;
  addr = "";
  member_addr = ip;
  ready = true;
}

-- With three voters, a pod of a new node that sorts first joins as a fourth: those of "b" and "c" are voters already.
fourth_voter :
    join_requests 3 0 []
      (record { id = "b"; address = "2" } ∷ record { id = "c"; address = "3" } ∷ [])
      (pod "a" "1" ∷ pod "b" "2" ∷ pod "c" "3" ∷ [])
    ≡ join_pod "1" false ∷ []
unfolding program
fourth_voter = refl
