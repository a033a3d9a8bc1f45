-- ===== src/Sdk/Locks.antt =====
-- sdk/lock.go: the locks that a client holds.
-- The server is a parameter: what each request does to it, when it ends and what it replies. A client's map of
-- locks has the locks themselves, since the client is called by one caller at a time here; `renewing` says whether the
-- goroutine of startRenew still runs for a lock. A context is the time at which it ends, if any.
-- Children: Stale, Served and Unlocking (theorems), Examples (tests).
pub mod Stale
pub mod Served
pub mod Unlocking
mod Examples
use clusdr.Prelude.{
  ℕ, ◌+◌, ◌==◌, Bool, true, false, Option, none, some, List, [], ◌∷◌, String, str_eq, if◌then◌else◌,
  Map, lookup, insert, delete, values, pos, negsuc, ℤ, ltb_ℤ, ltb, ◌/◌,
}
use clusdr.Fault.{
  Error, Result, ok, err, context_done, lock_not_acquired, lock_not_released, not_held_here,
}
use clusdr.Clock.{Time, Duration, zero_time, from_unix_ms, duration_ms}
use clusdr.Grpc.{Code, Reply, replied, refused, failed_precondition, canceled, unknown}
use clusdr.LockService.{LockRequest, LockResponse, UnlockRequest, RenewRequest, RenewResponse}
use clusdr.Sdk.Retry.{Call, retry, enough}

-- LockServiceClient; Unlock replies whether it released.
pub record Server (W : Type 0) : Type 0 where
  pub lock : LockRequest → Call W LockResponse
  pub try_lock : LockRequest → Call W LockResponse
  pub unlock : UnlockRequest → Call W Bool
  pub renew : RenewRequest → Call W RenewResponse

pub record Lock : Type 0 where
  pub name : String
  pub holder : String
  pub token : ℕ
  pub deadline : Time
  pub renewing : Bool

pub record Client : Type 0 where
  pub holder : String
  pub request_timeout : ℕ
  pub held : Map Lock

-- withRPC: the time at which the context of a request ends.
abbrev pub with_rpc : Client → Option Time → Time → Time
with_rpc c none now = now + c.request_timeout
with_rpc c (some until) now = until

-- A request under retry. The other case does not occur over calls that do not go back in time.
abbrev pub request : {W A : Type 0} → Call W A → Time → Time → W → Time × W × Reply A
request call until now w = elim (retry call until (enough until now) now w) [
  | some r ↦ r
  | none ↦ (now, w, refused unknown context_done)
]

-- ttlMs.
unfoldable pub ttl_ms : Duration → ℤ
ttl_ms d = if ltb_ℤ (pos 0) d then duration_ms d else pos 0

-- lockFromResp.
unfoldable pub lock_from_resp : LockResponse → String → Lock
lock_from_resp resp name = record {
  name = name;
  holder = resp.holder;
  token = resp.fencing_token;
  deadline =
      if ltb_ℤ (pos 0) resp.deadline_unix_ms then from_unix_ms resp.deadline_unix_ms else zero_time;
  renewing = false;
}

abbrev pub put : Client → String → Lock → Client
put c name l = record c { held = insert name l c.held }

abbrev pub started : Lock → Lock
started l = record l { renewing = true }

-- adopt, with startRenew.
unfoldable pub adopt : Client → LockResponse → String → Client × Lock
unfolding lock_from_resp
adopt c resp name =
    let l = lock_from_resp resp name in
    elim (lookup name c.held) [
      | none ↦ (put c name (started l), started l)
      | some existing ↦
          if existing.token == l.token then (c, existing) else (put c name (started l), started l)
    ]

abbrev pub lock_reply :
    {W : Type 0} → Client → String → Time × W × Reply LockResponse → Time × W × Client × Result Lock
lock_reply c name (now, w, refused code e) = (now, w, c, err e)
lock_reply c name (now, w, replied resp) =
    if resp.acquired
    then (let a = adopt c resp name in (now, w, a.0, ok a.1))
    else (now, w, c, err lock_not_acquired)

abbrev pub lock_request : Client → String → Duration → LockRequest
lock_request c name ttl = record { name = name; holder = c.holder; ttl_ms = ttl_ms ttl }

-- Lock.
unfoldable pub lock :
    {W : Type 0}
    → Server W
    → Client
    → Option Time
    → String
    → Duration
    → Time
    → W
    → Time × W × Client × Result Lock
unfolding adopt retry
lock s c until name ttl now w = elim (lookup name c.held) [
  | some l ↦ (now, w, c, ok l)
  | none ↦
      lock_reply c name (request (s.lock (lock_request c name ttl)) (with_rpc c until now) now w)
]

abbrev pub try_lock_reply :
    {W : Type 0}
    → Client
    → String
    → Time × W × Reply LockResponse
    → Time × W × Client × Result (Lock × Bool)
try_lock_reply c name (now, w, refused code e) = (now, w, c, err e)
try_lock_reply c name (now, w, replied resp) =
    if resp.acquired
    then (let a = adopt c resp name in (now, w, a.0, ok (a.1, true)))
    else (now, w, c, ok (lock_from_resp resp name, false))

-- TryLock.
unfoldable pub try_lock :
    {W : Type 0}
    → Server W
    → Client
    → Option Time
    → String
    → Duration
    → Time
    → W
    → Time × W × Client × Result (Lock × Bool)
unfolding adopt retry lock_from_resp
try_lock s c until name ttl now w = elim (lookup name c.held) [
  | some l ↦ (now, w, c, ok (l, true))
  | none ↦
      try_lock_reply c name
        (request (s.try_lock (lock_request c name ttl)) (with_rpc c until now) now w)
]

-- What `set` makes of the lock that the client holds under the name and the token.
abbrev pub change : Client → String → ℕ → (Lock → Client) → Client
change c name token set = elim (lookup name c.held) [
  | none ↦ c
  | some l ↦ if l.token == token then set l else c
]

-- stopRenew.
unfoldable pub stop_renew : Client → Lock → Client
stop_renew c l = change c l.name l.token (λ x. put c l.name (record x { renewing = false }))

-- forget.
unfoldable pub forget : Client → String → ℕ → Client
forget c name token = change c name token (λ x. record c { held = delete name c.held })

abbrev pub release_reply :
    {W : Type 0} → Client → Lock → Time × W × Reply Bool → Time × W × Client × Option Error
release_reply c l (now, w, refused failed_precondition e) =
    (now, w, forget c l.name l.token, some e)
release_reply c l (now, w, refused _ e) = (now, w, c, some e)
release_reply c l (now, w, replied false) = (now, w, c, some lock_not_released)
release_reply c l (now, w, replied true) = (now, w, forget c l.name l.token, none)

abbrev pub unlock_request : Lock → UnlockRequest
unlock_request l = record { name = l.name; holder = l.holder; fencing_token = l.token }

-- release.
unfoldable pub release :
    {W : Type 0}
    → Server W
    → Client
    → Option Time
    → Lock
    → Time
    → W
    → Time × W × Client × Option Error
unfolding stop_renew forget retry
release s c until l now w =
    release_reply (stop_renew c l) l
      (request (s.unlock (unlock_request l)) (with_rpc c until now) now w)

-- Unlock.
unfoldable pub unlock :
    {W : Type 0}
    → Server W
    → Client
    → Option Time
    → String
    → Time
    → W
    → Time × W × Client × Option Error
unfolding release
unlock s c until name now w = elim (lookup name c.held) [
  | none ↦ (now, w, c, some not_held_here)
  | some l ↦ release s c until l now w
]

-- releaseHeld over the locks of the map, in their order, under one context.
unfoldable pub release_all :
    {W : Type 0} → Server W → Time → List Lock → Time → W → Client → Time × W × Client
unfolding release
release_all s until [] now w c = (now, w, c)
release_all s until (l ∷ ls) now w c =
    let r = release s c (some until) l now w in release_all s until ls r.0 r.1 r.2

-- releaseHeld.
unfoldable pub release_held : {W : Type 0} → Server W → Client → Time → W → Time × W × Client
unfolding release_all
release_held s c now w = release_all s (now + c.request_timeout) (values c.held) now w c

abbrev pub later_deadline : ℤ → Lock → Lock
later_deadline ms l = if ltb_ℤ (pos 0) ms then record l { deadline = from_unix_ms ms } else l

-- What the goroutine of startRenew makes of a reply: two codes end it.
abbrev pub renew_reply : Lock → Reply RenewResponse → Lock
renew_reply l (refused failed_precondition e) = record l { renewing = false }
renew_reply l (refused canceled e) = record l { renewing = false }
renew_reply l (refused _ e) = l
renew_reply l (replied resp) = later_deadline resp.deadline_unix_ms l

abbrev pub renew_request : Lock → RenewRequest
renew_request l = record {
  name = l.name;
  holder = l.holder;
  fencing_token = l.token;
  ttl_ms = pos 0;
}

-- A tick of the goroutine of startRenew for the lock that the client holds under a name.
unfoldable pub renew_tick : {W : Type 0} → Server W → String → Client → Time → W → Time × W × Client
unfolding from_unix_ms
renew_tick s name c now w = elim (lookup name c.held) [
  | none ↦ (now, w, c)
  | some l ↦
      let r = s.renew (renew_request l) now w in
      if l.renewing then (r.0, r.1, put c name (renew_reply l r.2)) else (now, w, c)
]

-- renewInterval, from the lifetime asked for and the time until the deadline.
unfoldable pub renew_interval : Duration → Duration → ℕ
renew_interval ttl left =
    third
      (if ltb_ℤ (pos 0) ttl then ttl else if ltb_ℤ (pos 0) left then left else pos 15_000_000_000)
  where
    third : Duration → ℕ
    third (pos n) = if ltb (n / 3) 50_000_000 then 50_000_000 else n / 3
    third (negsuc n) = 50_000_000
