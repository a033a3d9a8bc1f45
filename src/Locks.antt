-- ===== src/Locks.antt =====
-- locks/table.go and locks/expirer.go: the lock table that the FSM mutates.
-- The mutex makes every method atomic, so a method is a function from the table to the table, the
-- events that it hands to the Emit hook and its result. The condition variable is the list of the
-- goroutines that wait on it: Broadcast empties the list. Map iteration is in the order of the
-- association list.
-- Children: Cases, Invariant, Fencing, Methods, Apart, Expiry, Snapshots, Ttl (theorems), Examples (tests).
pub mod Cases
pub mod Fencing
pub mod Invariant
pub mod Ttl
mod Examples
pub mod Methods
pub mod Apart
pub mod Expiry
pub mod Snapshots
use clusdr.Prelude.{
  ℕ, ◌*◌, Bool, true, false, ◌&&◌, ◌||◌, not, Option, none, some, List, [], ◌∷◌, String, ltb, leb,
  ◌==◌, if◌then◌else◌, str_eq, codes, byte_len, length, keep, Map, lookup, insert, delete, values,
  insert_all, sort_by, ℤ, pos, leb_ℤ, ltb_ℤ, inc_uint64,
}
use clusdr.Fault.{
  Error, Result, ok, err, name_required, name_too_long, name_invalid_char, holder_required,
  too_many_locks, lock_not_held, lock_token_mismatch,
}
use clusdr.Clock.{Time, Duration, is_zero, after}
use clusdr.Names.{Unicode, first_bad, max_name_len}
use clusdr.Events.{Event, event, grant_info, lock_expired}

abbrev pub max_locks : ℕ
max_locks = 4096

abbrev pub default_ttl : Duration
default_ttl = pos (15 * 1_000_000_000)

abbrev pub min_ttl : Duration
min_ttl = pos 1_000_000

abbrev pub max_ttl : Duration
max_ttl = pos (24 * 3600 * 1_000_000_000)

-- The `if x <= 0 { x = y }` of ClampTTL.
abbrev pub or_else : Duration → Duration → Duration
or_else requested fallback = if leb_ℤ requested (pos 0) then fallback else requested

-- ClampTTL.
unfoldable pub clamp_ttl : Duration → Duration → Duration
clamp_ttl requested fallback =
    let wanted = or_else (or_else requested fallback) default_ttl in
    if ltb_ℤ wanted min_ttl then min_ttl else if ltb_ℤ max_ttl wanted then max_ttl else wanted

pub record LockRecord : Type 0 where
  pub name : String
  pub holder : String
  pub token : ℕ
  pub acquired_at : Time
  pub deadline : Time
  pub ttl : Duration

-- `waiting`: the goroutines blocked in `wait.Wait()`. `emits`: whether the Emit hook is set.
pub record Table : Type 0 where
  pub waiting : List ℕ
  pub locks : Map LockRecord
  pub next : ℕ
  pub emits : Bool

-- New.
unfoldable pub new : Table
new = record { waiting = []; locks = []; next = 0; emits = false }

-- t.wait.Broadcast().
abbrev pub broadcast : Table → Table
broadcast t = record t { waiting = [] }

-- ValidName.
unfoldable pub valid_name : Unicode → String → Option Error
valid_name u name =
    if str_eq name ""
    then some name_required
    else if ltb max_name_len (byte_len (codes name))
    then some name_too_long
    else elim (first_bad u (codes name)) [ none ↦ none | some r ↦ some (name_invalid_char r) ]

-- `rec.Deadline = deadline; rec.TTL = ttl; t.locks[name] = rec`.
unfoldable pub set_deadline : String → LockRecord → Time → Duration → Table → Table
set_deadline name rec deadline ttl t = record t {
  locks = insert name (record rec { deadline = deadline; ttl = ttl }) t.locks;
}

-- The record that Acquire makes for a free name, under the next token.
abbrev pub new_lock : Time → String → String → Time → Duration → Table → LockRecord
new_lock now name holder deadline ttl t = record {
  name = name;
  holder = holder;
  token = inc_uint64 t.next;
  acquired_at = now;
  deadline = deadline;
  ttl = ttl;
}

-- `t.next++`, the new record and the Broadcast.
unfoldable pub add_lock : Time → String → String → Time → Duration → Table → Table
add_lock now name holder deadline ttl t = broadcast (record t {
  next = inc_uint64 t.next;
  locks = insert name (new_lock now name holder deadline ttl t) t.locks;
})

-- `delete(t.locks, name)` and the Broadcast behind it.
unfoldable pub drop_lock : String → Table → Table
drop_lock name t = broadcast (record t { locks = delete name t.locks })

-- Acquire, at the local time `now`.
unfoldable pub acquire :
    Unicode → Time → String → String → Time → Duration → Table → Table × Result (ℕ × Bool)
acquire u now name holder deadline ttl t = elim (valid_name u name) [
  | some e ↦ (t, err e)
  | none ↦ if str_eq holder "" then (t, err holder_required) else elim (lookup name t.locks) [
    | some rec ↦
        if str_eq rec.holder holder
        then (broadcast (set_deadline name rec deadline ttl t), ok (rec.token, true))
        else (t, ok (rec.token, false))
    | none ↦
        if leb max_locks (length t.locks)
        then (t, err too_many_locks)
        else (add_lock now name holder deadline ttl t, ok (inc_uint64 t.next, true))
  ]
]

-- `rec.Holder != holder || rec.Token != token`.
abbrev pub mismatch : LockRecord → String → ℕ → Bool
mismatch rec holder token = not (str_eq rec.holder holder) || not (rec.token == token)

-- Release.
unfoldable pub release : Unicode → String → String → ℕ → Table → Table × Option Error
release u name holder token t = elim (valid_name u name) [
  | some e ↦ (t, some e)
  | none ↦ elim (lookup name t.locks) [
    | none ↦ (t, some lock_not_held)
    | some rec ↦
        if mismatch rec holder token
        then (t, some lock_token_mismatch)
        else (drop_lock name t, none)
  ]
]

-- Renew.
unfoldable pub renew :
    Unicode → String → String → ℕ → Time → Duration → Table → Table × Option Error
renew u name holder token deadline ttl t = elim (valid_name u name) [
  | some e ↦ (t, some e)
  | none ↦ elim (lookup name t.locks) [
    | none ↦ (t, some lock_not_held)
    | some rec ↦
        if mismatch rec holder token
        then (t, some lock_token_mismatch)
        else (set_deadline name rec deadline ttl t, none)
  ]
]

-- Expire, with the events that it emits.
unfoldable pub expire : Unicode → String → ℕ → Table → Table × List Event × Bool
expire u name token t = elim (valid_name u name) [
  | some e ↦ (t, [], false)
  | none ↦ elim (lookup name t.locks) [
    | none ↦ (t, [], false)
    | some rec ↦ if not (rec.token == token) then (t, [], false) else (
      drop_lock name t,
      (if t.emits then event lock_expired name (grant_info rec.holder rec.token) ∷ [] else []),
      true,
    )
  ]
]

-- The test of Due: the deadline is set and not after `now`.
abbrev pub is_due : Time → LockRecord → Bool
is_due now rec = not (is_zero rec.deadline) && not (after rec.deadline now)

-- Get.
abbrev pub get : String → Table → Option LockRecord
get name t = lookup name t.locks

pub record Snapshot : Type 0 where
  pub locks : List LockRecord
  pub next : ℕ

-- SnapshotCopy.
unfoldable pub snapshot_copy : Table → Snapshot
snapshot_copy t = record { next = t.next; locks = values t.locks }

-- Restore.
unfoldable pub restore : Snapshot → Table → Table
restore snap t =
    broadcast (record t { locks = insert_all (λ rec. rec.name) snap.locks []; next = snap.next })

-- Wait, up to the point where the goroutine `g` blocks; it leaves when a Broadcast comes.
unfoldable pub wait : ℕ → Table → Table
wait g t = record t { waiting = g ∷ t.waiting }

-- Due.
unfoldable pub due : Time → Table → List LockRecord
due now t = sort_by (λ rec. rec.name) (keep (is_due now) (values t.locks))

-- List.
unfoldable pub list : Table → List LockRecord
list t = sort_by (λ rec. rec.name) (values t.locks)

-- A call of one of the methods of a running table that change it. Restore, which only the FSM calls, when a snapshot
-- replaces everything, is none of them.
pub data Call : Type 0 where
  acquires : Time → String → String → Time → Duration → Call
  releases : String → String → ℕ → Call
  renews : String → String → ℕ → Time → Duration → Call
  expires : String → ℕ → Call
  waits : ℕ → Call

unfoldable pub step : Unicode → Table → Call → Table
step u t (acquires now name holder deadline ttl) = (acquire u now name holder deadline ttl t).0
step u t (releases name holder token) = (release u name holder token t).0
step u t (renews name holder token deadline ttl) = (renew u name holder token deadline ttl t).0
step u t (expires name token) = (expire u name token t).0
step u t (waits g) = wait g t

unfoldable pub run : Unicode → Table → List Call → Table
run u t [] = t
run u t (c ∷ cs) = run u (step u t c) cs

-- The inner loop of RunExpirer on a leader. `others name` are the calls of others between the expiry before (or Due)
-- and the entry for `name`; `applies name` says whether the callback, which goes through raft.Apply, has its entry
-- applied. An error of the callback is logged and the loop goes on.
unfoldable pub expire_all :
    Unicode → (String → Bool) → (String → List Call) → List LockRecord → Table → Table
unfolding expire run
expire_all u applies others [] t = t
expire_all u applies others (rec ∷ recs) t =
    let t' = run u t (others rec.name) in
    expire_all u applies others recs
      (if applies rec.name then (expire u rec.name rec.token t').0 else t')

-- One tick of RunExpirer.
unfoldable pub expirer_tick :
    Unicode → (String → Bool) → (String → List Call) → Bool → Time → Table → Table
expirer_tick u applies others is_leader now t =
    if not is_leader then t else expire_all u applies others (due now t) t
