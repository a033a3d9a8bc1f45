-- ===== src/Sdk/Locks/Stale.antt =====
-- A lock that a client no longer renews and still gives back, and what Unlock leaves the client: sdk/lock.go.
use clusdr.Prelude.{
  Bool, true, false, ◌≡◌, ◌≢◌, refl, ◌∙◌, Option, none, some, String, lookup, lookup-insert_self,
  lookup-insert, lookup-delete, Distinct, Distinct-insert, insert, ne_str, sym, str_eq_refl, ◌==◌,
  ==_iff, if◌then◌else◌,
}
use clusdr.Fault.{Error, ok}
use clusdr.Clock.{Time, Duration}
use clusdr.Grpc.{
  Reply, replied, refused, failed_precondition, invalid_argument, internal, unavailable, not_found,
  unauthenticated, canceled, deadline_exceeded, resource_exhausted, aborted, unknown,
}
use clusdr.Sdk.Locks.{
  Server, Lock, Client, with_rpc, request, put, lock, stop_renew, forget, release, release_reply,
  unlock, unlock_request, renew_request, renew_tick, change,
}

-- A lock that nobody renews.
abbrev pub idle : Lock → Lock
idle l = record l { renewing = false }

-- Lock gives back what the client has under the name.
lock-held :
    {W : Type 0} (s : Server W) (c : Client) (until : Option Time) (name : String) (ttl : Duration)
    (now : Time) (w : W) (l : Lock)
    → lookup name c.held ≡ some l
    → lock s c until name ttl now w ≡ (now, w, c, ok l)
unfolding lock
lock-held s c until name ttl now w l e = rw (lock, e) refl

stop_renew-held :
    (c : Client) (l : Lock) → lookup l.name c.held ≡ some l → stop_renew c l ≡ put c l.name (idle l)
unfolding stop_renew
stop_renew-held c l e =
    let b : (l.token == l.token) ≡ true = (==_iff l.token l.token).1 refl in
    rw (stop_renew, change, e, b) refl

-- A client whose renewal of a lock was refused with FailedPrecondition, as it is when the lock is no longer held,
-- keeps it: the goroutine that renews it has ended, and Lock gives the lock back from then on, whatever the server is
-- by then, and asks it nothing.
pub lost_lock_is_given_back :
    {W V : Type 0} (s : Server W) (s' : Server V) (c : Client) (name : String) (l : Lock)
    (now : Time) (w : W) (e : Error) (until : Option Time) (ttl : Duration) (t : Time) (v : V)
    → lookup name c.held ≡ some l
    → l.renewing ≡ true
    → (s.renew (renew_request l) now w).2 ≡ refused failed_precondition e
    → let c' = (renew_tick s name c now w).2 in
      lock s' c' until name ttl t v ≡ (t, v, c', ok (idle l))
unfolding renew_tick
lost_lock_is_given_back s s' c name l now w e until ttl t v h a r =
    lock-held s' (renew_tick s name c now w).2 until name ttl t v (idle l) kept
  where
    kept : lookup name (renew_tick s name c now w).2.held ≡ some (idle l)
    kept = rw (renew_tick, h, a, r) (lookup-insert_self name (idle l) c.held)

-- The replies to Unlock after which the client forgets the lock: that it was released, or any FailedPrecondition. The
-- server has several reasons for that code, and under some of them the lock is still held.
abbrev pub is_over : Reply Bool → Bool
is_over (replied released) = released
is_over (refused failed_precondition e) = true
is_over (refused _ e) = false

others_kept :
    (c : Client) (l : Lock) (k : String)
    → k ≢ l.name
    → Distinct c.held
    → (lookup k (put c l.name (idle l)).held ≡ lookup k c.held)
      × (lookup k (forget (put c l.name (idle l)) l.name l.token).held ≡ lookup k c.held)
unfolding forget
others_kept c l k n d =
    let b : (l.token == l.token) ≡ true = (==_iff l.token l.token).1 refl in
    let p = lookup-insert l.name k (idle l) c.held ∙ rw (ne_str l.name k (λ x. n (sym x))) refl in
    (
      p,
      rw (forget, change, lookup-insert_self l.name (idle l) c.held, b)
          (lookup-delete l.name k (insert l.name (idle l) c.held)
              (Distinct-insert l.name (idle l) c.held d)
            ∙ (rw (ne_str l.name k (λ x. n (sym x))) refl ∙ p)),
    )

itself_gone :
    (c : Client) (l : Lock)
    → Distinct c.held
    → lookup l.name (forget (put c l.name (idle l)) l.name l.token).held ≡ none
unfolding forget
itself_gone c l d =
    let b : (l.token == l.token) ≡ true = (==_iff l.token l.token).1 refl in
    rw (forget, change, lookup-insert_self l.name (idle l) c.held, b)
      (lookup-delete l.name l.name (insert l.name (idle l) c.held)
          (Distinct-insert l.name (idle l) c.held d)
        ∙ rw (str_eq_refl l.name) refl)

-- What the client has after the reply.
abbrev After : Client → Lock → Reply Bool → Client → Type 0
After c l r c' =
    (lookup l.name c'.held ≡ (if is_over r then none else some (idle l)))
    × ((k : String) → k ≢ l.name → lookup k c'.held ≡ lookup k c.held)

release_reply-After :
    {W : Type 0} (c : Client) (l : Lock) (r : Time × W × Reply Bool)
    → Distinct c.held
    → After c l r.2 (release_reply (put c l.name (idle l)) l r).2
release_reply-After c l (now, w, x) d =
    let kept : After c l (replied false) (put c l.name (idle l)) =
      (lookup-insert_self l.name (idle l) c.held, λ k n. (others_kept c l k n d).0) in
    let gone : After c l (replied true) (forget (put c l.name (idle l)) l.name l.token) =
      (itself_gone c l d, λ k n. (others_kept c l k n d).1) in
    let Done : Reply Bool → Type 0 =
      λ y. After c l y (release_reply (put c l.name (idle l)) l (now, w, y)).2 in
    elim x as Done [
      | replied b ↦ elim b as (λ y. Done (replied y)) [ true ↦ gone | false ↦ kept ]
      | refused code e ↦ elim code as (λ y. Done (refused y e)) [
        | failed_precondition ↦ gone
        | invalid_argument ↦ kept
        | internal ↦ kept
        | unavailable ↦ kept
        | not_found ↦ kept
        | unauthenticated ↦ kept
        | canceled ↦ kept
        | deadline_exceeded ↦ kept
        | resource_exhausted ↦ kept
        | aborted ↦ kept
        | unknown ↦ kept
      ]
    ]

-- What the client of Unlock has after the last reply.
pub unlock-After :
    {W : Type 0} (s : Server W) (c : Client) (until : Option Time) (l : Lock) (now : Time) (w : W)
    → lookup l.name c.held ≡ some l
    → Distinct c.held
    → let r = request (s.unlock (unlock_request l)) (with_rpc c until now) now w in
      let c' = (unlock s c until l.name now w).2 in
      (lookup l.name c'.held ≡ (if is_over r.2 then none else some (idle l)))
      × ((k : String) → k ≢ l.name → lookup k c'.held ≡ lookup k c.held)
unfolding unlock release
unlock-After s c until l now w h d =
    let r = request (s.unlock (unlock_request l)) (with_rpc c until now) now w in
    rw (unlock, h, release, stop_renew-held c l h) (release_reply-After c l r d)
