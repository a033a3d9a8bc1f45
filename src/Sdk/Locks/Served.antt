-- ===== src/Sdk/Locks/Served.antt =====
-- The client of sdk/lock.go over the service of grpcserver/locks.go: what TryLock tells its caller is so on the node.
use clusdr.Prelude.{
  ◌+◌, ◌*◌, ◌≤◌, Bool, true, false, ◌≡◌, refl, sym, ap, ◌∙◌, inl, inr, Option, none, some, String,
  arith, Option-cases, Bool-cases, lookup, lookup-insert_self, if◌then◌else◌,
}
use clusdr.Fault.{Result, ok, err, context_done}
use clusdr.Clock.{Time, Duration, epoch_ms, nanos_per_ms}
use clusdr.Consensus.Fsm.{Fsm}
use clusdr.Consensus.Node.Submission.{AppliesHere, RoundTrips}
use clusdr.Grpc.{Reply, replied, refused, unknown, Remote, Leading}
use clusdr.Locks.{LockRecord}
use clusdr.LockService.{LockService, LockRequest, LockResponse, get_in}
use clusdr.LockService.Calls as Handlers
use clusdr.LockService.Handlers.Told.{try_lock_told}
use clusdr.Sdk.Retry.{Call, retry, enough}
use clusdr.Sdk.Retry.Replies.{Called, retry-Called}
use clusdr.Sdk.Locks.{
  Server, Lock, Client, with_rpc, request, adopt, lock_from_resp, try_lock, try_lock_reply,
  lock_request, put, started,
}

-- A node that answers at once, with nobody else between the steps of its handler.
abbrev pub served :
    LockService → Remote LockRequest LockResponse → LockRequest → Call Fsm LockResponse
served s remote q now f = let r = Handlers.try_lock s remote now (λ f. f) q f in (now, r.0, r.2)

abbrev pub over_node : LockService → Remote LockRequest LockResponse → Server Fsm → Server Fsm
over_node s remote others = record others { try_lock = served s remote }

-- A request that is answered is one of its calls.
request-Called :
    {W A : Type 0} (call : Call W A) (until now : Time) (w : W) (a : A)
    → ((t : Time) (w : W) → t ≤ (call t w).0)
    → (request call until now w).2 ≡ replied a
    → Called call now (request call until now w)
request-Called call until now w a on h =
    elim (Option-cases (retry call until (enough until now) now w)) [
      | inl e ↦
          absurd (
            let q : refused unknown context_done ≡ replied a = rw (request, e) at h in ground arith)
      | inr (r, e) ↦
          let q : r.2 ≡ replied a = rw (request, e) at h in
          rw (request, e) (retry-Called call until on (enough until now) now w r a e q)
    ]

adopted :
    (c : Client) (resp : LockResponse) (name : String)
    → lookup name c.held ≡ none
    → adopt c resp name
      ≡ (put c name (started (lock_from_resp resp name)), started (lock_from_resp resp name))
unfolding adopt
adopted c resp name e = rw (adopt, e) refl

told_inv : (x y : Lock × Bool) → ok x ≡ ok y → x.0 ≡ y.0
told_inv x y h = ap (λ r. elim r [ ok z ↦ z.0 | err e ↦ x.0 ]) h

chosen : {A : Type 0} (b : Bool) (x y : A) → b ≡ true → (if b then x else y) ≡ x
chosen b x y e = rw e refl

otherwise : {A : Type 0} (b : Bool) (x y : A) → b ≡ false → (if b then x else y) ≡ y
otherwise b x y e = rw e refl

abbrev yes_reply :
    {W : Type 0}
    → Client
    → String
    → LockResponse
    → Time
    → W
    → Time × W × Client × Result (Lock × Bool)
yes_reply c name resp now w = let a = adopt c resp name in (now, w, a.0, ok (a.1, true))

abbrev no_reply :
    {W : Type 0}
    → Client
    → String
    → LockResponse
    → Time
    → W
    → Time × W × Client × Result (Lock × Bool)
no_reply c name resp now w = (now, w, c, ok (lock_from_resp resp name, false))

-- TryLock that says yes: the reply that it rests on.
said_yes :
    {W : Type 0} (c : Client) (name : String) (q : Time × W × Reply LockResponse) (l : Lock)
    → lookup name c.held ≡ none
    → (try_lock_reply c name q).3 ≡ ok (l, true)
    → (resp : LockResponse) × (q.2 ≡ replied resp)
      × ((try_lock_reply c name q).1 ≡ q.1)
      × (resp.fencing_token ≡ l.token)
      × (resp.holder ≡ l.holder)
      × (lookup name (try_lock_reply c name q).2.held ≡ some l)
unfolding lock_from_resp
said_yes c name (now, w, refused code e) l n h = ground arith
said_yes c name (now, w, replied resp) l n h = elim (Bool-cases resp.acquired) [
  | inr b ↦ absurd (
      let q =
        sym (
          ap (λ z. z.3)
            (otherwise resp.acquired (yes_reply c name resp now w) (no_reply c name resp now w) b))
        ∙ h in
      ground arith)
  | inl b ↦
      let k = chosen resp.acquired (yes_reply c name resp now w) (no_reply c name resp now w) b in
      let a = adopted c resp name n in
      let y = sym (ap (λ z. z.3) k) ∙ h in
      let p = sym (ap (λ z. z.1) a) ∙ told_inv ((adopt c resp name).1, true) (l, true) y in
      (
        resp,
        refl,
        ap (λ z. z.1) k,
        ap (λ z. z.token) p,
        ap (λ z. z.holder) p,
        ap (λ z. lookup name z.2.held) k
            ∙ (ap (λ z. lookup name z.0.held) a
                ∙ (lookup-insert_self name (started (lock_from_resp resp name)) c.held
                    ∙ ap some p)),
      )
]

-- A client over a node that leads and where nobody else comes in between the steps of a call, where raft.Apply and the
-- codec do what is relied on and the clock is past 1970: when TryLock of a lock that it does not have says that it has it, the node's table has the lock under the
-- token and for the holder of the lock that the caller gets, and the client remembers that lock.
pub client_holds_lock :
    (s : LockService) (l : Leading) (remote : Remote LockRequest LockResponse) (others : Server Fsm)
    (c : Client) (until : Option Time) (name : String) (ttl : Duration) (now : Time) (f : Fsm)
    (held : Lock)
    → s.raft ≡ some l
    → l.is_leader ≡ true
    → AppliesHere l.codec s.unicode l.raft
    → RoundTrips l.codec
    → (epoch_ms + 1) * nanos_per_ms ≤ now
    → lookup name c.held ≡ none
    → (try_lock (over_node s remote others) c until name ttl now f).3 ≡ ok (held, true)
    → let r = try_lock (over_node s remote others) c until name ttl now f in
      ((rec : LockRecord) × (get_in name r.1.locks ≡ some rec)
        × (rec.token ≡ held.token)
        × (rec.holder ≡ held.holder))
      × (lookup name r.2.held ≡ some held)
unfolding try_lock
client_holds_lock s l remote others c until name ttl now f held r lead here back past n h =
    let call = served s remote (lock_request c name ttl) in
    let q = request call (with_rpc c until now) now f in
    let k : try_lock (over_node s remote others) c until name ttl now f ≡ try_lock_reply c name q =
      rw (try_lock, n) refl in
    let (resp, e, same, token, holder, kept) =
      said_yes c name q held n (sym (ap (λ z. z.3) k) ∙ h) in
    let (t, w, g, z) =
      request-Called call (with_rpc c until now) now f resp (λ t w. omega arith) e in
    let (rec, m, a, b) =
      try_lock_told s l remote t (lock_request c name ttl) w resp r lead here back
        (omega (arith, past, g)) (ap (λ y. y.2) z ∙ e) in
    (
      (
        rec,
        ap (λ y. get_in name y.1.locks) k
            ∙ (ap (λ y. get_in name y.locks) (same ∙ sym (ap (λ y. y.1) z)) ∙ m),
        a ∙ token,
        b ∙ holder,
      ),
      ap (λ y. lookup name y.2.held) k ∙ kept,
    )
