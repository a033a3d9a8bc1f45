-- ===== src/Locks/Cases.antt =====
-- The branches of the lock table's methods, for the proofs about them.
use clusdr.Prelude.{
  ℕ, ◌≤◌, ◌<◌, ◌≡◌, ◌≢◌, inl, inr, Bool, true, false, Option, none, some, List, [], ◌∷◌, String,
  arith, length, lookup, str_eq, str_eq_iff, Bool-cases, str_ne, Option-cases, leb, inc_uint64,
  if◌then◌else◌, ◌==◌, ==_iff,
}
use clusdr.Fault.{
  Error, Result, ok, err, holder_required, too_many_locks, lock_not_held, lock_token_mismatch,
}
use clusdr.Names.{Unicode}
use clusdr.Events.{Event, event, grant_info, lock_expired}
use clusdr.Clock.{Time, Duration}
use clusdr.Locks.{
  LockRecord, Table, broadcast, max_locks, valid_name, set_deadline, add_lock, drop_lock, mismatch,
  acquire, release, renew, expire,
}

-- The two names that a release or a renewal gives match the grant.
abbrev pub Matches : LockRecord → String → ℕ → Type 0
Matches rec holder token = (rec.holder ≡ holder) × (rec.token ≡ token)

same_holder_and_token :
    (rec : LockRecord) (holder : String) (token : ℕ)
    → mismatch rec holder token ≡ false
    → Matches rec holder token
same_holder_and_token rec holder token h = ground (arith, str_eq_iff rec.holder holder)

differs_of :
    (rec : LockRecord) (holder : String) (token : ℕ)
    → mismatch rec holder token ≡ true
    → ¬ Matches rec holder token
differs_of rec holder token h m = ground (arith, str_eq_iff rec.holder holder)

module _ {ℓ} (u : Unicode) (name : String) (t : Table) where
  pub acquire_cases :
      (P : Table × Result (ℕ × Bool) → Type ℓ) (now : Time) (holder : String) (deadline : Time)
      (ttl : Duration)
      → ((e : Error) → valid_name u name ≡ some e → P (t, err e))
      → (valid_name u name ≡ none → holder ≡ "" → P (t, err holder_required))
      → ((rec : LockRecord)
          → valid_name u name ≡ none
          → holder ≢ ""
          → lookup name t.locks ≡ some rec
          → rec.holder ≡ holder
          → P (broadcast (set_deadline name rec deadline ttl t), ok (rec.token, true)))
      → ((rec : LockRecord)
          → valid_name u name ≡ none
          → holder ≢ ""
          → lookup name t.locks ≡ some rec
          → rec.holder ≢ holder
          → P (t, ok (rec.token, false)))
      → (valid_name u name ≡ none
          → holder ≢ ""
          → lookup name t.locks ≡ none
          → max_locks ≤ length t.locks
          → P (t, err too_many_locks))
      → (valid_name u name ≡ none
          → holder ≢ ""
          → lookup name t.locks ≡ none
          → length t.locks < max_locks
          → P (add_lock now name holder deadline ttl t, ok (inc_uint64 t.next, true)))
      → P (acquire u now name holder deadline ttl t)
  unfolding acquire
  acquire_cases P now holder deadline ttl bad nobody mine other full free =
      elim (Option-cases (valid_name u name)) [
        | inr (e, v) ↦ rw (v, acquire) (bad e v)
        | inl v ↦
            rw (v, acquire)
              (elim (Bool-cases (str_eq holder "")) [
                | inl h ↦ rw h (nobody v ((str_eq_iff holder "").0 h))
                | inr h ↦ rw h (elim (Option-cases (lookup name t.locks)) [
                  | inr (rec, l) ↦ rw l (elim (Bool-cases (str_eq rec.holder holder)) [
                    | inl b ↦
                        rw b
                          (mine rec v (str_ne holder "" h) l ((str_eq_iff rec.holder holder).0 b))
                    | inr b ↦ rw b (other rec v (str_ne holder "" h) l (str_ne rec.holder holder b))
                  ])
                  | inl l ↦ rw l (elim (Bool-cases (leb max_locks (length t.locks))) [
                    | inl b ↦ rw b (full v (str_ne holder "" h) l (ground arith))
                    | inr b ↦ rw b (free v (str_ne holder "" h) l (ground arith))
                  ])
                ])
              ])
      ]

  pub release_cases :
      (P : Table × Option Error → Type ℓ) (holder : String) (token : ℕ)
      → ((e : Error) → valid_name u name ≡ some e → P (t, some e))
      → (valid_name u name ≡ none → lookup name t.locks ≡ none → P (t, some lock_not_held))
      → ((rec : LockRecord)
          → valid_name u name ≡ none
          → lookup name t.locks ≡ some rec
          → ¬ Matches rec holder token
          → P (t, some lock_token_mismatch))
      → ((rec : LockRecord)
          → valid_name u name ≡ none
          → lookup name t.locks ≡ some rec
          → Matches rec holder token
          → P (drop_lock name t, none))
      → P (release u name holder token t)
  unfolding release
  release_cases P holder token bad missing differs same = elim (Option-cases (valid_name u name)) [
    | inr (e, v) ↦ rw (v, release) (bad e v)
    | inl v ↦
        rw (v, release)
          (elim (Option-cases (lookup name t.locks)) [
            | inl l ↦ rw l (missing v l)
            | inr (rec, l) ↦ rw l (elim (Bool-cases (mismatch rec holder token)) [
              | inl b ↦ rw b (differs rec v l (differs_of rec holder token b))
              | inr b ↦ rw b (same rec v l (same_holder_and_token rec holder token b))
            ])
          ])
  ]

  pub renew_cases :
      (P : Table × Option Error → Type ℓ) (holder : String) (token : ℕ) (deadline : Time)
      (ttl : Duration)
      → ((e : Error) → valid_name u name ≡ some e → P (t, some e))
      → (valid_name u name ≡ none → lookup name t.locks ≡ none → P (t, some lock_not_held))
      → ((rec : LockRecord)
          → valid_name u name ≡ none
          → lookup name t.locks ≡ some rec
          → ¬ Matches rec holder token
          → P (t, some lock_token_mismatch))
      → ((rec : LockRecord)
          → valid_name u name ≡ none
          → lookup name t.locks ≡ some rec
          → Matches rec holder token
          → P (set_deadline name rec deadline ttl t, none))
      → P (renew u name holder token deadline ttl t)
  unfolding renew
  renew_cases P holder token deadline ttl bad missing differs same =
      elim (Option-cases (valid_name u name)) [
        | inr (e, v) ↦ rw (v, renew) (bad e v)
        | inl v ↦
            rw (v, renew)
              (elim (Option-cases (lookup name t.locks)) [
                | inl l ↦ rw l (missing v l)
                | inr (rec, l) ↦ rw l (elim (Bool-cases (mismatch rec holder token)) [
                  | inl b ↦ rw b (differs rec v l (differs_of rec holder token b))
                  | inr b ↦ rw b (same rec v l (same_holder_and_token rec holder token b))
                ])
              ])
      ]

  -- What Expire emits for the grant that it drops.
  abbrev pub expiry_events : LockRecord → List Event
  expiry_events rec =
      if t.emits then event lock_expired name (grant_info rec.holder rec.token) ∷ [] else []

  pub expire_cases :
      (P : Table × List Event × Bool → Type ℓ) (token : ℕ)
      → ((e : Error) → valid_name u name ≡ some e → P (t, [], false))
      → (valid_name u name ≡ none → lookup name t.locks ≡ none → P (t, [], false))
      → ((rec : LockRecord)
          → valid_name u name ≡ none
          → lookup name t.locks ≡ some rec
          → rec.token ≢ token
          → P (t, [], false))
      → ((rec : LockRecord)
          → valid_name u name ≡ none
          → lookup name t.locks ≡ some rec
          → rec.token ≡ token
          → P (drop_lock name t, expiry_events rec, true))
      → P (expire u name token t)
  unfolding expire
  expire_cases P token bad missing differs same = elim (Option-cases (valid_name u name)) [
    | inr (e, v) ↦ rw (v, expire) (bad e v)
    | inl v ↦
        rw (v, expire)
          (elim (Option-cases (lookup name t.locks)) [
            | inl l ↦ rw l (missing v l)
            | inr (rec, l) ↦ rw l (elim (Bool-cases (rec.token == token)) [
              | inl b ↦ rw b (same rec v l ((==_iff rec.token token).0 b))
              | inr b ↦ rw b (differs rec v l (ground arith))
            ])
          ])
  ]
