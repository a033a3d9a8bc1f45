-- ===== src/Leases/Cases.antt =====
-- The branches of the lease table's methods, for the proofs about them.
use clusdr.Prelude.{
  ℕ, ◌≤◌, ◌<◌, ◌≡◌, ◌≢◌, inl, inr, Bool, true, false, Option, none, some, List, [], String, arith,
  length, lookup, str_eq, str_eq_iff, Bool-cases, str_ne, Option-cases, leb, inc_uint64, ◌==◌,
  ==_iff,
}
use clusdr.Fault.{
  Error, Result, ok, err, owner_required, too_many_leases, lease_not_held, lease_token_mismatch,
}
use clusdr.Names.{Unicode}
use clusdr.Events.{Event, lease_granted, lease_revoked, lease_expired}
use clusdr.Clock.{Time, Duration}
use clusdr.Leases.{
  LeaseRecord, Table, max_leases, valid_name, set_deadline, add_lease, new_lease, drop_lease,
  mismatch, grant, revoke, renew, expire, emit,
}

-- The two names that a revoke or a renewal gives match the grant.
abbrev pub Matches : LeaseRecord → String → ℕ → Type 0
Matches rec owner token = (rec.owner ≡ owner) × (rec.token ≡ token)

same_holder_and_token :
    (rec : LeaseRecord) (owner : String) (token : ℕ)
    → mismatch rec owner token ≡ false
    → Matches rec owner token
same_holder_and_token rec owner token h = ground (arith, str_eq_iff rec.owner owner)

differs_of :
    (rec : LeaseRecord) (owner : String) (token : ℕ)
    → mismatch rec owner token ≡ true
    → ¬ Matches rec owner token
differs_of rec owner token h m = ground (arith, str_eq_iff rec.owner owner)

module _ {ℓ} (u : Unicode) (name : String) (t : Table) where
  pub grant_cases :
      (P : Table × List Event × Result (ℕ × Bool) → Type ℓ) (now : Time) (owner : String)
      (deadline : Time) (ttl : Duration)
      → ((e : Error) → valid_name u name ≡ some e → P (t, [], err e))
      → (valid_name u name ≡ none → owner ≡ "" → P (t, [], err owner_required))
      → ((rec : LeaseRecord)
          → valid_name u name ≡ none
          → owner ≢ ""
          → lookup name t.leases ≡ some rec
          → rec.owner ≡ owner
          → P (set_deadline name rec deadline ttl t, [], ok (rec.token, true)))
      → ((rec : LeaseRecord)
          → valid_name u name ≡ none
          → owner ≢ ""
          → lookup name t.leases ≡ some rec
          → rec.owner ≢ owner
          → P (t, [], ok (rec.token, false)))
      → (valid_name u name ≡ none
          → owner ≢ ""
          → lookup name t.leases ≡ none
          → max_leases ≤ length t.leases
          → P (t, [], err too_many_leases))
      → (valid_name u name ≡ none
          → owner ≢ ""
          → lookup name t.leases ≡ none
          → length t.leases < max_leases
          → P (
            add_lease now name owner deadline ttl t,
            emit t.emits lease_granted (new_lease now name owner deadline ttl t),
            ok (inc_uint64 t.next, true),
          ))
      → P (grant u now name owner deadline ttl t)
  unfolding grant
  grant_cases P now owner deadline ttl bad nobody mine other full free =
      elim (Option-cases (valid_name u name)) [
        | inr (e, v) ↦ rw (v, grant) (bad e v)
        | inl v ↦
            rw (v, grant)
              (elim (Bool-cases (str_eq owner "")) [
                | inl h ↦ rw h (nobody v ((str_eq_iff owner "").0 h))
                | inr h ↦ rw h (elim (Option-cases (lookup name t.leases)) [
                  | inr (rec, l) ↦ rw l (elim (Bool-cases (str_eq rec.owner owner)) [
                    | inl b ↦
                        rw b (mine rec v (str_ne owner "" h) l ((str_eq_iff rec.owner owner).0 b))
                    | inr b ↦ rw b (other rec v (str_ne owner "" h) l (str_ne rec.owner owner b))
                  ])
                  | inl l ↦ rw l (elim (Bool-cases (leb max_leases (length t.leases))) [
                    | inl b ↦ rw b (full v (str_ne owner "" h) l (ground arith))
                    | inr b ↦ rw b (free v (str_ne owner "" h) l (ground arith))
                  ])
                ])
              ])
      ]

  pub revoke_cases :
      (P : Table × List Event × Option Error → Type ℓ) (owner : String) (token : ℕ)
      → ((e : Error) → valid_name u name ≡ some e → P (t, [], some e))
      → (valid_name u name ≡ none → lookup name t.leases ≡ none → P (t, [], some lease_not_held))
      → ((rec : LeaseRecord)
          → valid_name u name ≡ none
          → lookup name t.leases ≡ some rec
          → ¬ Matches rec owner token
          → P (t, [], some lease_token_mismatch))
      → ((rec : LeaseRecord)
          → valid_name u name ≡ none
          → lookup name t.leases ≡ some rec
          → Matches rec owner token
          → P (drop_lease name t, emit t.emits lease_revoked rec, none))
      → P (revoke u name owner token t)
  unfolding revoke
  revoke_cases P owner token bad missing differs same = elim (Option-cases (valid_name u name)) [
    | inr (e, v) ↦ rw (v, revoke) (bad e v)
    | inl v ↦
        rw (v, revoke)
          (elim (Option-cases (lookup name t.leases)) [
            | inl l ↦ rw l (missing v l)
            | inr (rec, l) ↦ rw l (elim (Bool-cases (mismatch rec owner token)) [
              | inl b ↦ rw b (differs rec v l (differs_of rec owner token b))
              | inr b ↦ rw b (same rec v l (same_holder_and_token rec owner token b))
            ])
          ])
  ]

  pub renew_cases :
      (P : Table × Option Error → Type ℓ) (owner : String) (token : ℕ) (deadline : Time)
      (ttl : Duration)
      → ((e : Error) → valid_name u name ≡ some e → P (t, some e))
      → (valid_name u name ≡ none → lookup name t.leases ≡ none → P (t, some lease_not_held))
      → ((rec : LeaseRecord)
          → valid_name u name ≡ none
          → lookup name t.leases ≡ some rec
          → ¬ Matches rec owner token
          → P (t, some lease_token_mismatch))
      → ((rec : LeaseRecord)
          → valid_name u name ≡ none
          → lookup name t.leases ≡ some rec
          → Matches rec owner token
          → P (set_deadline name rec deadline ttl t, none))
      → P (renew u name owner token deadline ttl t)
  unfolding renew
  renew_cases P owner token deadline ttl bad missing differs same =
      elim (Option-cases (valid_name u name)) [
        | inr (e, v) ↦ rw (v, renew) (bad e v)
        | inl v ↦
            rw (v, renew)
              (elim (Option-cases (lookup name t.leases)) [
                | inl l ↦ rw l (missing v l)
                | inr (rec, l) ↦ rw l (elim (Bool-cases (mismatch rec owner token)) [
                  | inl b ↦ rw b (differs rec v l (differs_of rec owner token b))
                  | inr b ↦ rw b (same rec v l (same_holder_and_token rec owner token b))
                ])
              ])
      ]

  pub expire_cases :
      (P : Table × List Event × Bool → Type ℓ) (token : ℕ)
      → ((e : Error) → valid_name u name ≡ some e → P (t, [], false))
      → (valid_name u name ≡ none → lookup name t.leases ≡ none → P (t, [], false))
      → ((rec : LeaseRecord)
          → valid_name u name ≡ none
          → lookup name t.leases ≡ some rec
          → rec.token ≢ token
          → P (t, [], false))
      → ((rec : LeaseRecord)
          → valid_name u name ≡ none
          → lookup name t.leases ≡ some rec
          → rec.token ≡ token
          → P (drop_lease name t, emit t.emits lease_expired rec, true))
      → P (expire u name token t)
  unfolding expire
  expire_cases P token bad missing differs same = elim (Option-cases (valid_name u name)) [
    | inr (e, v) ↦ rw (v, expire) (bad e v)
    | inl v ↦
        rw (v, expire)
          (elim (Option-cases (lookup name t.leases)) [
            | inl l ↦ rw l (missing v l)
            | inr (rec, l) ↦ rw l (elim (Bool-cases (rec.token == token)) [
              | inl b ↦ rw b (same rec v l ((==_iff rec.token token).0 b))
              | inr b ↦ rw b (differs rec v l (ground arith))
            ])
          ])
  ]
