-- ===== src/Leases.antt =====
-- leases/table.go and leases/expirer.go: the lease table that the FSM mutates. It is the lock table
-- without waiters, and it emits an event when a lease is granted, revoked or expired.
-- A method is a function from the table to the table, the events that it hands to the Emit hook and
-- its result. Children: Cases, Fencing, Invariant, Emissions (theorems), Examples (tests).
pub mod Cases
pub mod Fencing
pub mod Invariant
pub mod Emissions
mod Examples
use clusdr.Prelude.{
  ℕ, ◌*◌, Bool, true, false, ◌&&◌, ◌||◌, not, Option, none, some, List, [], ◌∷◌, String, ltb, leb,
  ◌==◌, if◌then◌else◌, str_eq, codes, byte_len, length, keep, Map, lookup, insert, delete, values,
  insert_all, sort_by, pos, leb_ℤ, ltb_ℤ, inc_uint64,
}
use clusdr.Fault.{
  Error, Result, ok, err, name_required, name_too_long, name_invalid_char, owner_required,
  too_many_leases, lease_not_held, lease_token_mismatch,
}
use clusdr.Clock.{Time, Duration, is_zero, after}
use clusdr.Names.{Unicode, first_bad, is_name_char, max_name_len}
use clusdr.Events.{Event, event, grant_info, lease_granted, lease_expired, lease_revoked}

abbrev pub max_leases : ℕ
max_leases = 4096

abbrev pub default_ttl : Duration
default_ttl = pos (15 * 1_000_000_000)

abbrev pub min_ttl : Duration
min_ttl = pos 1_000_000

abbrev pub max_ttl : Duration
max_ttl = pos (24 * 3600 * 1_000_000_000)

-- The `if x <= 0 { x = y }` of ClampTTL.
abbrev pub or_else : Duration → Duration → Duration
or_else requested fallback = if leb_ℤ requested (pos 0) then fallback else requested

-- ClampTTL.
unfoldable pub clamp_ttl : Duration → Duration → Duration
clamp_ttl requested fallback =
    let wanted = or_else (or_else requested fallback) default_ttl in
    if ltb_ℤ wanted min_ttl then min_ttl else if ltb_ℤ max_ttl wanted then max_ttl else wanted

pub record LeaseRecord : Type 0 where
  pub name : String
  pub owner : String
  pub token : ℕ
  pub granted_at : Time
  pub deadline : Time
  pub ttl : Duration

-- `emits`: whether the Emit hook is set.
pub record Table : Type 0 where
  pub leases : Map LeaseRecord
  pub next : ℕ
  pub emits : Bool

-- New.
unfoldable pub new : Table
new = record { leases = []; next = 0; emits = false }

-- ValidName.
unfoldable pub valid_name : Unicode → String → Option Error
valid_name u name =
    if str_eq name ""
    then some name_required
    else if ltb max_name_len (byte_len (codes name))
    then some name_too_long
    else elim (first_bad u (codes name)) [ none ↦ none | some r ↦ some (name_invalid_char r) ]

-- emit: what the hook is called with.
abbrev pub emit : Bool → String → LeaseRecord → List Event
emit hook kind rec = if hook then event kind rec.name (grant_info rec.owner rec.token) ∷ [] else []

-- `rec.Deadline = deadline; rec.TTL = ttl; t.leases[name] = rec`.
unfoldable pub set_deadline : String → LeaseRecord → Time → Duration → Table → Table
set_deadline name rec deadline ttl t = record t {
  leases = insert name (record rec { deadline = deadline; ttl = ttl }) t.leases;
}

-- The record that Grant makes for a free name, under the next token.
abbrev pub new_lease : Time → String → String → Time → Duration → Table → LeaseRecord
new_lease now name owner deadline ttl t = record {
  name = name;
  owner = owner;
  token = inc_uint64 t.next;
  granted_at = now;
  deadline = deadline;
  ttl = ttl;
}

-- `t.next++` and the new record.
unfoldable pub add_lease : Time → String → String → Time → Duration → Table → Table
add_lease now name owner deadline ttl t = record t {
  next = inc_uint64 t.next;
  leases = insert name (new_lease now name owner deadline ttl t) t.leases;
}

-- `delete(t.leases, name)`.
unfoldable pub drop_lease : String → Table → Table
drop_lease name t = record t { leases = delete name t.leases }

-- Grant, at the local time `now`.
unfoldable pub grant :
    Unicode
    → Time
    → String
    → String
    → Time
    → Duration
    → Table
    → Table × List Event × Result (ℕ × Bool)
grant u now name owner deadline ttl t = elim (valid_name u name) [
  | some e ↦ (t, [], err e)
  | none ↦ if str_eq owner "" then (t, [], err owner_required) else elim (lookup name t.leases) [
    | some rec ↦
        if str_eq rec.owner owner
        then (set_deadline name rec deadline ttl t, [], ok (rec.token, true))
        else (t, [], ok (rec.token, false))
    | none ↦ if leb max_leases (length t.leases) then (t, [], err too_many_leases) else (
      add_lease now name owner deadline ttl t,
      emit t.emits lease_granted (new_lease now name owner deadline ttl t),
      ok (inc_uint64 t.next, true),
    )
  ]
]

-- `rec.Owner != owner || rec.Token != token`.
abbrev pub mismatch : LeaseRecord → String → ℕ → Bool
mismatch rec owner token = not (str_eq rec.owner owner) || not (rec.token == token)

-- Renew.
unfoldable pub renew :
    Unicode → String → String → ℕ → Time → Duration → Table → Table × Option Error
renew u name owner token deadline ttl t = elim (valid_name u name) [
  | some e ↦ (t, some e)
  | none ↦ elim (lookup name t.leases) [
    | none ↦ (t, some lease_not_held)
    | some rec ↦
        if mismatch rec owner token
        then (t, some lease_token_mismatch)
        else (set_deadline name rec deadline ttl t, none)
  ]
]

-- Revoke.
unfoldable pub revoke : Unicode → String → String → ℕ → Table → Table × List Event × Option Error
revoke u name owner token t = elim (valid_name u name) [
  | some e ↦ (t, [], some e)
  | none ↦ elim (lookup name t.leases) [
    | none ↦ (t, [], some lease_not_held)
    | some rec ↦
        if mismatch rec owner token
        then (t, [], some lease_token_mismatch)
        else (drop_lease name t, emit t.emits lease_revoked rec, none)
  ]
]

-- Expire.
unfoldable pub expire : Unicode → String → ℕ → Table → Table × List Event × Bool
expire u name token t = elim (valid_name u name) [
  | some e ↦ (t, [], false)
  | none ↦ elim (lookup name t.leases) [
    | none ↦ (t, [], false)
    | some rec ↦
        if not (rec.token == token)
        then (t, [], false)
        else (drop_lease name t, emit t.emits lease_expired rec, true)
  ]
]

-- The test of Due: the deadline is set and not after `now`.
abbrev pub is_due : Time → LeaseRecord → Bool
is_due now rec = not (is_zero rec.deadline) && not (after rec.deadline now)

-- Due.
unfoldable pub due : Time → Table → List LeaseRecord
due now t = sort_by (λ rec. rec.name) (keep (is_due now) (values t.leases))

-- Get.
abbrev pub get : String → Table → Option LeaseRecord
get name t = lookup name t.leases

-- List.
unfoldable pub list : Table → List LeaseRecord
list t = sort_by (λ rec. rec.name) (values t.leases)

pub record Snapshot : Type 0 where
  pub leases : List LeaseRecord
  pub next : ℕ

-- SnapshotCopy.
unfoldable pub snapshot_copy : Table → Snapshot
snapshot_copy t = record { next = t.next; leases = values t.leases }

-- Restore.
unfoldable pub restore : Snapshot → Table → Table
restore snap t = record t { leases = insert_all (λ rec. rec.name) snap.leases []; next = snap.next }

-- A call of one of the methods of a running table that change it. Restore, which only the FSM calls, when a snapshot
-- replaces everything, is none of them.
pub data Call : Type 0 where
  grants : Time → String → String → Time → Duration → Call
  revokes : String → String → ℕ → Call
  renews : String → String → ℕ → Time → Duration → Call
  expires : String → ℕ → Call

-- The table after a call, and what the call emitted.
unfoldable pub step : Unicode → Table → Call → Table × List Event
step u t (grants now name owner deadline ttl) =
    let r = grant u now name owner deadline ttl t in (r.0, r.1)
step u t (revokes name owner token) = let r = revoke u name owner token t in (r.0, r.1)
step u t (renews name owner token deadline ttl) = ((renew u name owner token deadline ttl t).0, [])
step u t (expires name token) = let r = expire u name token t in (r.0, r.1)

unfoldable pub run : Unicode → Table → List Call → Table
run u t [] = t
run u t (c ∷ cs) = run u (step u t c).0 cs

-- The inner loop of RunExpirer on a leader. `others name` are the calls of others between the expiry before (or Due)
-- and the entry for `name`; `applies name` says whether the callback, which goes through raft.Apply, has its entry
-- applied. An error of the callback is logged and the loop goes on.
unfoldable pub expire_all :
    Unicode → (String → Bool) → (String → List Call) → List LeaseRecord → Table → Table
unfolding expire run
expire_all u applies others [] t = t
expire_all u applies others (rec ∷ recs) t =
    let t' = run u t (others rec.name) in
    expire_all u applies others recs
      (if applies rec.name then (expire u rec.name rec.token t').0 else t')

-- One tick of RunExpirer.
unfoldable pub expirer_tick :
    Unicode → (String → Bool) → (String → List Call) → Bool → Time → Table → Table
expirer_tick u applies others is_leader now t =
    if not is_leader then t else expire_all u applies others (due now t) t
