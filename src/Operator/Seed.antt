-- ===== src/Operator/Seed.antt =====
-- operator/seed.go, with ClaimSeed of operator/kube.go: the node that initialises the cluster.
-- The Kubernetes API is a parameter: what reads of the object and of the nodes give, and what UpdateStatus makes of the
-- object when it is sent with a resource version and a status.
use clusdr.Prelude.{Option, none, some, List, [], ◌∷◌, String, str_eq, sort_by, if◌then◌else◌}
use clusdr.Fault.{Error, Result, ok, err}

-- A ClusdrCluster object as the API has it.
pub record Object : Type 0 where
  pub version : String
  pub spec_seed : String
  pub status_seed : String

pub record Api : Type 0 where
  pub unreadable : Object → Option Error
  pub update_status : String → String → Object → Object × Option Error

-- Cluster, as far as the choice of the seed reads and writes it.
pub record Cluster : Type 0 where
  pub resource_version : String
  pub spec_seed : String
  pub status_seed : String

-- The object as ClusterFrom reads it.
unfoldable pub cluster_from : Object → Cluster
cluster_from o = record {
  resource_version = o.version;
  spec_seed = o.spec_seed;
  status_seed = o.status_seed;
}

-- ClaimSeed.
unfoldable pub claim_seed : Api → Cluster → String → Object → Object × Option Error
claim_seed api c node o = elim (api.unreadable o) [
  | some e ↦ (o, some e)
  | none ↦
      api.update_status (if str_eq c.resource_version "" then o.version else c.resource_version)
        node o
]

abbrev pub pinned : Cluster → String → Cluster
pinned c want = record c { spec_seed = want; status_seed = want }

abbrev pub after_claim : Cluster → Cluster → Object × Option Error → Object × Cluster × Option Error
after_claim c c' (o, some e) = (o, c, some e)
after_claim c c' (o, none) = (o, c', none)

-- The first of the sorted names.
abbrev pub first_name : List String → Option String
first_name names = elim (sort_by (λ n. n) names) [ [] ↦ none | n ∷ ns ↦ some n ]

-- resolveSeed without a seed: the first Ready node, if there is one.
unfoldable pub pick_seed :
    Api → Result (List String) → Cluster → Object → Object × Cluster × Option Error
unfolding claim_seed
pick_seed api (err e) c o = (o, c, some e)
pick_seed api (ok nodes) c o = elim (first_name nodes) [
  | none ↦ (o, c, none)
  | some n ↦ after_claim c (pinned c n) (claim_seed api c n o)
]

-- resolveSeed with a seed.
unfoldable pub keep_seed : Api → String → Cluster → Object → Object × Cluster × Option Error
unfolding claim_seed
keep_seed api want c o =
    let c' = record c { spec_seed = want } in
    if str_eq c.status_seed want
    then (o, c', none)
    else after_claim c' (pinned c want) (claim_seed api c' want o)

abbrev pub wanted : Cluster → String
wanted c = if str_eq c.spec_seed "" then c.status_seed else c.spec_seed

-- resolveSeed.
unfoldable pub resolve_seed :
    Api → Result (List String) → Cluster → Object → Object × Cluster × Option Error
unfolding pick_seed keep_seed
resolve_seed api nodes c o =
    if str_eq (wanted c) "" then pick_seed api nodes c o else keep_seed api (wanted c) c o
