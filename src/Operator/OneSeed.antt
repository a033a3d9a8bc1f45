-- ===== src/Operator/OneSeed.antt =====
-- Two reconciles that start from the same object do not both get a seed: operator/seed.go.
use clusdr.Prelude.{
  ◌≡◌, ◌≢◌, ◌⊎◌, refl, sym, ap, subst, ◌∙◌, inl, inr, Option, none, some, List, String, str_eq_refl,
  ne_str, arith, Option-cases,
}
use clusdr.Fault.{Error, Result, ok, err}
use clusdr.Operator.Seed.{
  Object, Api, Cluster, cluster_from, claim_seed, pinned, after_claim, first_name, pick_seed,
  keep_seed, resolve_seed,
}

-- What the code relies on of UpdateStatus: an object that has moved on is not written, and a write that succeeds
-- moves it on and leaves the spec.
pub record IsVersioned (api : Api) : Type 0 where
  pub conflicts :
      (v node : String) (o : Object)
      → v ≢ o.version
      → (e : Error) × (api.update_status v node o ≡ (o, some e))
  pub writes :
      (v node : String) (o : Object)
      → (api.update_status v node o).1 ≡ none
      → let o' = (api.update_status v node o).0 in
        (o'.version ≢ v) × (o'.status_seed ≡ node) × (o'.spec_seed ≡ o.spec_seed)

-- An object without a seed.
pub record Unclaimed (o : Object) : Type 0 where
  pub versioned : o.version ≢ ""
  pub spec : o.spec_seed ≡ ""
  pub status : o.status_seed ≡ ""

resolve-pick :
    (api : Api) (nodes : Result (List String)) (c : Cluster) (o : Object)
    → c.spec_seed ≡ ""
    → c.status_seed ≡ ""
    → resolve_seed api nodes c o ≡ pick_seed api nodes c o
unfolding resolve_seed
resolve-pick api nodes c o p q = rw (p, q) refl

claim-version :
    (api : Api) (c : Cluster) (node : String) (o : Object)
    → c.resource_version ≢ ""
    → api.unreadable o ≡ none
    → claim_seed api c node o ≡ api.update_status c.resource_version node o
unfolding claim_seed
claim-version api c node o n u = rw (claim_seed, u, ne_str c.resource_version "" n) refl

claim-unreadable :
    (api : Api) (c : Cluster) (node : String) (o : Object) (e : Error)
    → api.unreadable o ≡ some e
    → claim_seed api c node o ≡ (o, some e)
unfolding claim_seed
claim-unreadable api c node o e u = rw (claim_seed, u) refl

after_claim-ok :
    (c c' : Cluster) (r : Object × Option Error)
    → (after_claim c c' r).2 ≡ none
    → (r.1 ≡ none) × (after_claim c c' r ≡ (r.0, c', none))
after_claim-ok c c' (o, some e) h = ground arith
after_claim-ok c c' (o, none) h = (refl, refl)

-- A pick that comes to a seed wrote it.
picked :
    (api : Api) (nodes : Result (List String)) (c : Cluster) (o : Object)
    → IsVersioned api
    → c.resource_version ≢ ""
    → c.spec_seed ≡ ""
    → (pick_seed api nodes c o).2 ≡ none
    → (pick_seed api nodes c o).1.spec_seed ≢ ""
    → let r = pick_seed api nodes c o in
      (r.0.version ≢ c.resource_version)
      × (r.0.status_seed ≡ r.1.spec_seed)
      × (r.0.spec_seed ≡ o.spec_seed)
unfolding pick_seed
picked api (err e) c o x v s h n = absurd (ground arith)
picked api (ok nodes) c o x v s h n = elim (Option-cases (first_name nodes)) [
  | inl p ↦ absurd (let q : c.spec_seed ≢ "" = rw (pick_seed, p) at n in q s)
  | inr (node, p) ↦ elim (Option-cases (api.unreadable o)) [
    | inr (e, u) ↦ absurd (
        let q : (after_claim c (pinned c node) (claim_seed api c node o)).2 ≡ none =
          rw (pick_seed, p) at h in
        let k =
          sym (ap (λ z. (after_claim c (pinned c node) z).2) (claim-unreadable api c node o e u))
          ∙ q in
        ground arith)
    | inl u ↦
        let q : (after_claim c (pinned c node) (claim_seed api c node o)).2 ≡ none =
          rw (pick_seed, p) at h in
        let k = claim-version api c node o v u in
        let (a, b) =
          after_claim-ok c (pinned c node) (api.update_status c.resource_version node o)
            (sym (ap (λ z. (after_claim c (pinned c node) z).2) k) ∙ q) in
        let whole = ap (after_claim c (pinned c node)) k ∙ b in
        let (d, e, f) = x.writes c.resource_version node o a in
        rw (pick_seed, p)
          (
            (λ z. d (sym (ap (λ y. y.0.version) whole) ∙ z)),
            ap (λ y. y.0.status_seed) whole ∙ (e ∙ sym (ap (λ y. y.1.spec_seed) whole)),
            ap (λ y. y.0.spec_seed) whole ∙ f,
          )
  ]
]

-- A pick from a version that the object no longer has comes to no seed.
too_late :
    (api : Api) (nodes : Result (List String)) (c : Cluster) (o : Object)
    → IsVersioned api
    → c.resource_version ≢ ""
    → c.resource_version ≢ o.version
    → c.spec_seed ≡ ""
    → ((e : Error) × ((pick_seed api nodes c o).2 ≡ some e))
      ⊎ ((pick_seed api nodes c o).1.spec_seed ≡ "")
unfolding pick_seed
too_late api (err e) c o x v n s = inl (e, refl)
too_late api (ok nodes) c o x v n s = elim (Option-cases (first_name nodes)) [
  | inl p ↦ inr (rw (pick_seed, p) s)
  | inr (node, p) ↦
      let (e, k) = lost node in
      inl (e, rw (pick_seed, p) (ap (λ z. (after_claim c (pinned c node) z).2) k))
]
  where
    lost : (node : String) → (e : Error) × (claim_seed api c node o ≡ (o, some e))
    lost node = elim (Option-cases (api.unreadable o)) [
      | inr (e, u) ↦ (e, claim-unreadable api c node o e u)
      | inl u ↦
          let (e, k) = x.conflicts c.resource_version node o n in
          (e, claim-version api c node o v u ∙ k)
    ]

resolve-keep :
    (api : Api) (nodes : Result (List String)) (o : Object) (want : String)
    → o.spec_seed ≡ ""
    → o.status_seed ≡ want
    → want ≢ ""
    → let r = resolve_seed api nodes (cluster_from o) o in
      (r.0 ≡ o) × (r.1.spec_seed ≡ want) × (r.2 ≡ none)
unfolding resolve_seed keep_seed cluster_from
resolve-keep api nodes o want p q n =
    rw (p, q, ne_str want "" n, str_eq_refl want) (refl, refl, refl)

-- For an API that refuses a write to an object that has moved on: when a reconcile that reads an object without a
-- seed comes to one, any other reconcile that has read the same object ends in an error or without a seed,
-- and one that reads the object as it is then gets the same seed and writes nothing.
pub one_seed :
    (api : Api) (nodes nodes' nodes'' : Result (List String)) (o : Object)
    → IsVersioned api
    → Unclaimed o
    → (resolve_seed api nodes (cluster_from o) o).2 ≡ none
    → (resolve_seed api nodes (cluster_from o) o).1.spec_seed ≢ ""
    → let r = resolve_seed api nodes (cluster_from o) o in
      let other = resolve_seed api nodes' (cluster_from o) r.0 in
      let next = resolve_seed api nodes'' (cluster_from r.0) r.0 in
      (((e : Error) × (other.2 ≡ some e)) ⊎ (other.1.spec_seed ≡ ""))
      × (next.0 ≡ r.0)
      × (next.1.spec_seed ≡ r.1.spec_seed)
      × (next.2 ≡ none)
unfolding cluster_from
one_seed api nodes nodes' nodes'' o x y h n =
    let c = cluster_from o in
    let j = resolve-pick api nodes c o y.spec y.status in
    let p = pick_seed api nodes c o in
    let (moved, told, spec) =
      picked api nodes c o x y.versioned y.spec (sym (ap (λ z. z.2) j) ∙ h)
        (λ z. n (ap (λ z. z.1.spec_seed) j ∙ z)) in
    let r = resolve_seed api nodes c o in
    let i = resolve-pick api nodes' c r.0 y.spec y.status in
    let late =
      too_late api nodes' c r.0 x y.versioned (λ z. moved (sym (z ∙ ap (λ w. w.0.version) j)))
        y.spec in
    let (a, b, d) =
      resolve-keep api nodes'' r.0 r.1.spec_seed (ap (λ w. w.0.spec_seed) j ∙ (spec ∙ y.spec))
        (ap (λ w. w.0.status_seed) j ∙ (told ∙ sym (ap (λ w. w.1.spec_seed) j))) n in
    (subst (λ w. ((e : Error) × (w.2 ≡ some e)) ⊎ (w.1.spec_seed ≡ "")) (sym i) late, a, b, d)
