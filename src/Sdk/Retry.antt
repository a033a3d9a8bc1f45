-- ===== src/Sdk/Retry.antt =====
-- sdk/retry.go: the loop that repeats a request.
-- A context is the time `until` at which it ends. A call takes the time at which it starts and what it acts on,
-- and gives the time at which it ends, what it left behind and the reply. The loop runs on fuel.
-- Children: Ends and Replies (theorems).
pub mod Ends
pub mod Replies
use clusdr.Prelude.{
  ℕ, zero, suc, ◌+◌, ◌*◌, ◌-◌, ◌/◌, Bool, true, false, Option, none, some, leb, ltb, if◌then◌else◌,
}
use clusdr.Fault.{context_done}
use clusdr.Clock.{Time}
use clusdr.Grpc.{Code, Reply, replied, refused, unavailable, resource_exhausted, aborted, unknown}

abbrev pub Call : Type 0 → Type 0 → Type 0
Call W A = Time → W → Time × W × Reply A

abbrev pub is_transient_code : Code → Bool
is_transient_code unavailable = true
is_transient_code resource_exhausted = true
is_transient_code aborted = true
is_transient_code _ = false

-- transient.
unfoldable pub transient : {A : Type 0} → Reply A → Bool
transient (replied a) = false
transient (refused code e) = is_transient_code code

-- 50 * time.Millisecond and maxBackoff.
abbrev pub min_backoff : ℕ
min_backoff = 50_000_000

abbrev pub max_backoff : ℕ
max_backoff = 2_000_000_000

-- The backoff of the next wait.
unfoldable pub next_backoff : ℕ → ℕ
next_backoff backoff = if ltb max_backoff (backoff * 2) then max_backoff else backoff * 2

abbrev pub later : Time → Time → Time
later t u = if leb t u then u else t

-- The loop of retry, with the backoff and the last reply; before the first call the last reply is the error of the
-- context. The wait ends the loop if the context ends in it.
unfoldable pub retry_loop :
    {W A : Type 0} → Call W A → Time → ℕ → ℕ → Reply A → Time → W → Option (Time × W × Reply A)
unfolding transient next_backoff
retry_loop call until zero backoff last now w = none
retry_loop call until (suc fuel) backoff last now w =
    let r = call now w in
    let rest = retry_loop call until fuel (next_backoff backoff) r.2 (r.0 + backoff) r.1 in
    if leb until now
    then some (now, w, last)
    else if transient r.2
    then (if leb until (r.0 + backoff) then some (later r.0 until, r.1, r.2) else rest)
    else some r

-- retry.
unfoldable pub retry : {W A : Type 0} → Call W A → Time → ℕ → Time → W → Option (Time × W × Reply A)
unfolding retry_loop
retry call until fuel now w =
    retry_loop call until fuel min_backoff (refused unknown context_done) now w

-- Fuel enough for a request that starts at `now`.
abbrev pub enough : Time → Time → ℕ
enough until now = suc (suc ((until - now) / min_backoff))
