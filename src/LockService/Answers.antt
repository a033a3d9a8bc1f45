-- ===== src/LockService/Answers.antt =====
-- The answers of TryLock of grpcserver/locks.go, and what they say of the node.
use clusdr.Prelude.{
  ◌≢◌, Option, ℕ, Bool, true, false, ◌≡◌, ◌⊎◌, refl, inl, inr, none, some, String, arith, lookup,
  lookup-insert_self, Option-cases, pos,
}
use clusdr.Names.{Unicode}
use clusdr.Fault.{Result, ok, err}
use clusdr.Clock.{Time, Duration}
use clusdr.Locks
use clusdr.Locks.{LockRecord, Table, set_deadline, add_lock}
use clusdr.Locks.Cases.{acquire_cases}
use clusdr.Consensus.Fsm.{Fsm}
use clusdr.Grpc.{replied, internal, unix_ms, reply_by}
use clusdr.LockService.{
  LockService, LockRequest, LockResponse, holder_of, get_in, grant_response, held_response,
  deadline_ms,
}
use clusdr.LockService.Calls.{try_answer}

-- What the table holds after an Acquire that gave no error.
pub acquired_record :
    (u : Unicode) (local : Time) (name holder : String) (d : Time) (v : Duration) (t : Table)
    (token : ℕ) (acquired : Bool)
    → (Locks.acquire u local name holder d v t).1 ≡ ok (token, acquired)
    → let t' = (Locks.acquire u local name holder d v t).0 in
      (rec : LockRecord) × (lookup name t'.locks ≡ some rec)
      × (rec.token ≡ token)
      × (acquired ≡ true → rec.holder ≡ holder)
      × (acquired ≡ false → (rec.holder ≢ holder) × (t' ≡ t))
unfolding set_deadline add_lock
acquired_record u local name holder d v t token acquired =
    acquire_cases u name t
      (λ r.
        r.1 ≡ ok (token, acquired)
        → (rec : LockRecord) × (lookup name r.0.locks ≡ some rec)
          × (rec.token ≡ token)
          × (acquired ≡ true → rec.holder ≡ holder)
          × (acquired ≡ false → (rec.holder ≢ holder) × (r.0 ≡ t)))
      local holder d v (λ e x h. absurd (ground arith)) (λ x y h. absurd (ground arith))
      (λ rec x y l e h. (
        record rec { deadline = d; ttl = v },
        lookup-insert_self name (record rec { deadline = d; ttl = v }) t.locks,
        ground arith,
        (λ _. e),
        λ b. absurd (ground arith),
      ))
      (λ rec x y l e h. (rec, l, ground arith, (λ b. absurd (ground arith)), λ _. (e, refl)))
      (λ x y l m h. absurd (ground arith))
      (λ x y l m h. (
        _,
        lookup-insert_self name _ t.locks,
        ground arith,
        (λ _. refl),
        λ b. absurd (ground arith),
      ))

-- A response that says what the node then has under the name.
abbrev pub Shows : String → Fsm → LockResponse → Type 0
Shows name f resp =
    ((get_in name f.locks ≡ none)
      × (resp.fencing_token ≡ 0)
      × (resp.holder ≡ "")
      × (resp.deadline_unix_ms ≡ pos 0))
    ⊎ ((rec : LockRecord) × (get_in name f.locks ≡ some rec)
        × (rec.token ≡ resp.fencing_token)
        × (rec.holder ≡ resp.holder)
        × (unix_ms rec.deadline ≡ resp.deadline_unix_ms))

-- A response that is true of the node, as the entry left it and as it is when the handler answers.
abbrev pub Tells : LockService → LockRequest → Fsm → Fsm → Fsm → LockResponse → Type 0
Tells s q f f₁ f' resp =
    (rec : LockRecord) × (get_in q.name f₁.locks ≡ some rec)
    × (resp.acquired ≡ true
        → (rec.token ≡ resp.fencing_token)
          × (rec.holder ≡ resp.holder)
          × (resp.holder ≡ holder_of f.members q.holder)
          × (deadline_ms (get_in q.name f'.locks) ≡ resp.deadline_unix_ms))
    × (resp.acquired ≡ false
        → (f₁ ≡ f) × (rec.holder ≢ holder_of f.members q.holder) × Shows q.name f' resp)

held-Shows : (name : String) (f : Fsm) → Shows name f (held_response (get_in name f.locks))
held-Shows name f = elim (Option-cases (get_in name f.locks)) [
  | inl n ↦ inl (rw n (refl, refl, refl, refl))
  | inr (rec, g) ↦ inr (rec, g, rw g refl, rw g refl, rw g refl)
]

pub answered :
    (s : LockService) (q : LockRequest) (f f₁ f' : Fsm) (token : ℕ) (acquired : Bool)
    (rec : LockRecord)
    → get_in q.name f₁.locks ≡ some rec
    → rec.token ≡ token
    → (acquired ≡ true → rec.holder ≡ holder_of f.members q.holder)
    → (acquired ≡ false → (rec.holder ≢ holder_of f.members q.holder) × (f₁ ≡ f))
    → Tells s q f f₁ f' (try_answer q.name (holder_of f.members q.holder) f' (token, acquired))
unfolding grant_response
answered s q f f₁ f' token true rec g t h n =
    (rec, g, (λ _. (t, h refl, refl, refl)), λ b. absurd (ground arith))
answered s q f f₁ f' token false rec g t h n = (
  rec,
  g,
  not_acquired (get_in q.name f'.locks),
  λ _. ((n refl).1, (n refl).0, held-Shows q.name f'),
)
  where
    not_acquired : {P : Type 0} (o : Option LockRecord) → (held_response o).acquired ≡ true → P
    not_acquired none b = absurd (ground arith)
    not_acquired (some rec') b = absurd (ground arith)

pub replied_inv :
    (g : ℕ × Bool → LockResponse) (r : Result (ℕ × Bool)) (resp : LockResponse)
    → reply_by internal g r ≡ replied resp
    → (p : ℕ × Bool) × (r ≡ ok p) × (resp ≡ g p)
replied_inv g (err x) resp h = ground arith
replied_inv g (ok p) resp h = (p, refl, ground arith)
