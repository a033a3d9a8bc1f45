-- ===== src/Sdk/Locks/Unlocking.antt =====
-- Unlock of sdk/lock.go, over any server and over the service of grpcserver/locks.go.
use clusdr.Prelude.{
  Bool, ◌<◌, true, false, ◌≡◌, ◌≢◌, refl, ap, ◌∙◌, none, some, Option, String, arith, lookup,
  Distinct, if◌then◌else◌, [], leb,
}
use clusdr.Fault.{Error}
use clusdr.Clock.{Time}
use clusdr.Consensus.Fsm.{Fsm}
use clusdr.Grpc.{Reply, replied, refused, failed_precondition, Remote, reject_if_observer}
use clusdr.Locks.{valid_name}
use clusdr.LockService.{LockService, UnlockRequest}
use clusdr.LockService.Calls as Handlers
use clusdr.LockService.Calls.{guarded}
use clusdr.Sdk.Retry.{Call, transient, retry, retry_loop}
use clusdr.Sdk.Locks.{Server, Lock, Client, with_rpc, request, unlock, unlock_request, release}
use clusdr.Sdk.Locks.Stale.{idle, is_over, unlock-After}

-- The response to Unlock says nothing but that the lock was released.
abbrev pub released : Reply (Unit {0}) → Reply Bool
released (replied u) = replied true
released (refused code e) = refused code e

-- A server whose Unlock is that of a node that answers at once.
abbrev pub unlocking : LockService → Remote UnlockRequest (Unit {0}) → Server Fsm → Server Fsm
unlocking n remote others = record others {
  unlock = λ q now f. let r = Handlers.unlock n remote q f in (now, r.0, released r.2);
}

observer_refuses :
    (n : LockService) (remote : Remote UnlockRequest (Unit {0})) (q : UnlockRequest) (f : Fsm)
    (e : Error)
    → valid_name n.unicode q.name ≡ none
    → reject_if_observer f.members ≡ some e
    → Handlers.unlock n remote q f ≡ (f, [], refused failed_precondition e)
unfolding Handlers.unlock
observer_refuses n remote q f e v o = rw (guarded, v, o) refl

-- A request that is refused for good is made once.
request_once :
    {W A : Type 0} (call : Call W A) (until now : Time) (w w' : W) (e : Error)
    → now < until
    → call now w ≡ (now, w', refused failed_precondition e)
    → request call until now w ≡ (now, w', refused failed_precondition e)
unfolding transient retry
request_once call until now w w' e early h =
    let running : leb until now ≡ false = ground arith in rw (request, retry_loop, running, h) refl

observer_unlock :
    (n : LockService) (remote : Remote UnlockRequest (Unit {0})) (others : Server Fsm) (c : Client)
    (until : Option Time) (l : Lock) (now : Time) (f : Fsm) (e : Error)
    → lookup l.name c.held ≡ some l
    → Distinct c.held
    → now < with_rpc c until now
    → valid_name n.unicode l.name ≡ none
    → reject_if_observer f.members ≡ some e
    → let r = unlock (unlocking n remote others) c until l.name now f in
      (r.1 ≡ f) × (lookup l.name r.2.held ≡ none)
unfolding unlock release
observer_unlock n remote others c until l now f e h d early v o =
    let s = unlocking n remote others in
    let q = unlock_request l in
    let once : request (s.unlock q) (with_rpc c until now) now f
        ≡ (now, f, refused failed_precondition e) =
      request_once (s.unlock q) (with_rpc c until now) now f f e early
        (ap (λ r. (now, r.0, released r.2)) (observer_refuses n remote q f e v o)) in
    (
      rw (unlock, h, release, once) refl,
      (unlock-After s c until l now f h d).0
          ∙ ap (λ r. if is_over r.2 then none else some (idle l)) once,
    )

-- Unlock of a lock that the client holds forgets the lock exactly if the last reply is that it was released or is
-- refused with FailedPrecondition, for whatever reason; after any other reply the client still has it, but renews
-- it no more. It keeps its other locks. Over a node that answers at once and is an observer, if the lock's name is
-- legal and the time for the request has not run out: the node, and with it the lock, is left as it is, and the
-- client has forgotten the lock.
pub unlock_forgets :
    {W : Type 0} (s : Server W) (c : Client) (until : Option Time) (l : Lock) (now : Time) (w : W)
    → lookup l.name c.held ≡ some l
    → Distinct c.held
    → let r = request (s.unlock (unlock_request l)) (with_rpc c until now) now w in
      let c' = (unlock s c until l.name now w).2 in
      (lookup l.name c'.held ≡ (if is_over r.2 then none else some (idle l)))
      × ((k : String) → k ≢ l.name → lookup k c'.held ≡ lookup k c.held)
      × ((n : LockService) (remote : Remote UnlockRequest (Unit {0})) (others : Server Fsm)
            (f : Fsm) (e : Error)
          → now < with_rpc c until now
          → valid_name n.unicode l.name ≡ none
          → reject_if_observer f.members ≡ some e
          → let r' = unlock (unlocking n remote others) c until l.name now f in
            (r'.1 ≡ f) × (lookup l.name r'.2.held ≡ none))
unlock_forgets s c until l now w h d =
    let (itself, rest) = unlock-After s c until l now w h d in
    (
      itself,
      rest,
      λ n remote others f e early v o.
          observer_unlock n remote others c until l now f e h d early v o,
    )
