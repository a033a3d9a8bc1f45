-- ===== src/Sdk/Leases.antt =====
-- sdk/lease.go: the leases that a client holds. As in Locks, the server is a parameter, a client is called by one caller at
-- a time, and `renewing` says whether the goroutine of startLeaseRenew still runs. Child: Examples (tests).
mod Examples
use clusdr.Prelude.{
  ℕ, ◌+◌, ◌==◌, Bool, true, false, Option, none, some, List, [], ◌∷◌, String, if◌then◌else◌, Map,
  lookup, insert, delete, values, pos, ltb_ℤ, ℤ,
}
use clusdr.Fault.{
  Error, Result, ok, err, not_held_here, lease_not_granted, lease_not_renewed, lease_not_revoked,
}
use clusdr.Clock.{Time, Duration, zero_time, from_unix_ms}
use clusdr.Grpc.{Reply, replied, refused, failed_precondition, canceled}
use clusdr.LeaseService.{GrantRequest, GrantResponse, RevokeRequest, RenewRequest, RenewResponse}
use clusdr.Sdk.Retry.{Call, retry}
use clusdr.Sdk.Locks.{request, ttl_ms}

-- LeaseServiceClient; Revoke replies whether it revoked.
pub record Server (W : Type 0) : Type 0 where
  pub grant : GrantRequest → Call W GrantResponse
  pub renew : RenewRequest → Call W RenewResponse
  pub revoke : RevokeRequest → Call W Bool

pub record Lease : Type 0 where
  pub name : String
  pub owner : String
  pub token : ℕ
  pub deadline : Time
  pub renewing : Bool

-- A client, as far as its leases go.
pub record Client : Type 0 where
  pub holder : String
  pub request_timeout : ℕ
  pub leased : Map Lease

-- withRPC: the time at which the context of a request ends.
abbrev pub with_rpc : Client → Option Time → Time → Time
with_rpc c none now = now + c.request_timeout
with_rpc c (some until) now = until

-- leaseFromResp.
unfoldable pub lease_from_resp : GrantResponse → String → Lease
lease_from_resp resp name = record {
  name = name;
  owner = resp.owner;
  token = resp.fencing_token;
  deadline =
      if ltb_ℤ (pos 0) resp.deadline_unix_ms then from_unix_ms resp.deadline_unix_ms else zero_time;
  renewing = false;
}

abbrev pub put : Client → String → Lease → Client
put c name l = record c { leased = insert name l c.leased }

abbrev pub started : Lease → Lease
started l = record l { renewing = true }

-- adoptLease, with startLeaseRenew.
unfoldable pub adopt_lease : Client → GrantResponse → String → Client × Lease
unfolding lease_from_resp
adopt_lease c resp name =
    let l = lease_from_resp resp name in
    elim (lookup name c.leased) [
      | none ↦ (put c name (started l), started l)
      | some existing ↦
          if existing.token == l.token then (c, existing) else (put c name (started l), started l)
    ]

abbrev pub lease_reply :
    {W : Type 0}
    → Client
    → String
    → Time × W × Reply GrantResponse
    → Time × W × Client × Result Lease
lease_reply c name (now, w, refused code e) = (now, w, c, err e)
lease_reply c name (now, w, replied resp) =
    if resp.granted
    then (let a = adopt_lease c resp name in (now, w, a.0, ok a.1))
    else (now, w, c, err lease_not_granted)

abbrev pub grant_request : Client → String → Duration → GrantRequest
grant_request c name ttl = record { name = name; owner = c.holder; ttl_ms = ttl_ms ttl }

-- Lease.
unfoldable pub lease :
    {W : Type 0}
    → Server W
    → Client
    → Option Time
    → String
    → Duration
    → Time
    → W
    → Time × W × Client × Result Lease
unfolding adopt_lease retry ttl_ms
lease s c until name ttl now w = elim (lookup name c.leased) [
  | some l ↦ (now, w, c, ok l)
  | none ↦
      lease_reply c name (request (s.grant (grant_request c name ttl)) (with_rpc c until now) now w)
]

abbrev pub renew_request : Lease → RenewRequest
renew_request l = record { name = l.name; owner = l.owner; fencing_token = l.token; ttl_ms = pos 0 }

abbrev pub later_deadline : ℤ → Lease → Lease
later_deadline ms l = if ltb_ℤ (pos 0) ms then record l { deadline = from_unix_ms ms } else l

abbrev pub renewed :
    {W : Type 0}
    → Client
    → String
    → Lease
    → Time × W × Reply RenewResponse
    → Time × W × Client × Option Error
renewed c name l (now, w, refused code e) = (now, w, c, some e)
renewed c name l (now, w, replied resp) =
    if resp.renewed
    then (now, w, put c name (later_deadline resp.deadline_unix_ms l), none)
    else (now, w, c, some lease_not_renewed)

-- Renew.
unfoldable pub renew :
    {W : Type 0}
    → Server W
    → Client
    → Option Time
    → String
    → Time
    → W
    → Time × W × Client × Option Error
unfolding retry from_unix_ms
renew s c until name now w = elim (lookup name c.leased) [
  | none ↦ (now, w, c, some not_held_here)
  | some l ↦ renewed c name l (request (s.renew (renew_request l)) (with_rpc c until now) now w)
]

-- What `set` makes of the lease that the client holds under the name and the token.
abbrev pub change : Client → String → ℕ → (Lease → Client) → Client
change c name token set = elim (lookup name c.leased) [
  | none ↦ c
  | some l ↦ if l.token == token then set l else c
]

-- stopRenew.
unfoldable pub stop_renew : Client → Lease → Client
stop_renew c l = change c l.name l.token (λ x. put c l.name (record x { renewing = false }))

-- forgetLease.
unfoldable pub forget_lease : Client → String → ℕ → Client
forget_lease c name token = change c name token (λ x. record c { leased = delete name c.leased })

abbrev pub drop_reply :
    {W : Type 0} → Client → Lease → Time × W × Reply Bool → Time × W × Client × Option Error
drop_reply c l (now, w, refused failed_precondition e) =
    (now, w, forget_lease c l.name l.token, some e)
drop_reply c l (now, w, refused _ e) = (now, w, c, some e)
drop_reply c l (now, w, replied false) = (now, w, c, some lease_not_revoked)
drop_reply c l (now, w, replied true) = (now, w, forget_lease c l.name l.token, none)

abbrev pub revoke_request : Lease → RevokeRequest
revoke_request l = record { name = l.name; owner = l.owner; fencing_token = l.token }

-- drop.
unfoldable pub drop :
    {W : Type 0}
    → Server W
    → Client
    → Option Time
    → Lease
    → Time
    → W
    → Time × W × Client × Option Error
unfolding stop_renew forget_lease retry
drop s c until l now w =
    drop_reply (stop_renew c l) l
      (request (s.revoke (revoke_request l)) (with_rpc c until now) now w)

-- Revoke.
unfoldable pub revoke :
    {W : Type 0}
    → Server W
    → Client
    → Option Time
    → String
    → Time
    → W
    → Time × W × Client × Option Error
unfolding drop
revoke s c until name now w = elim (lookup name c.leased) [
  | none ↦ (now, w, c, some not_held_here)
  | some l ↦ drop s c until l now w
]

-- releaseLeases over the leases of the map, in their order, under one context.
unfoldable pub drop_all :
    {W : Type 0} → Server W → Time → List Lease → Time → W → Client → Time × W × Client
unfolding drop
drop_all s until [] now w c = (now, w, c)
drop_all s until (l ∷ ls) now w c =
    let r = drop s c (some until) l now w in drop_all s until ls r.0 r.1 r.2

-- releaseLeases.
unfoldable pub release_leases : {W : Type 0} → Server W → Client → Time → W → Time × W × Client
unfolding drop_all
release_leases s c now w = drop_all s (now + c.request_timeout) (values c.leased) now w c

-- What the goroutine of startLeaseRenew makes of a reply: two codes end it.
abbrev pub renew_reply : Lease → Reply RenewResponse → Lease
renew_reply l (refused failed_precondition e) = record l { renewing = false }
renew_reply l (refused canceled e) = record l { renewing = false }
renew_reply l (refused _ e) = l
renew_reply l (replied resp) = later_deadline resp.deadline_unix_ms l

-- A tick of the goroutine of startLeaseRenew for the lease that the client holds under a name.
unfoldable pub renew_tick : {W : Type 0} → Server W → String → Client → Time → W → Time × W × Client
unfolding from_unix_ms
renew_tick s name c now w = elim (lookup name c.leased) [
  | none ↦ (now, w, c)
  | some l ↦
      let r = s.renew (renew_request l) now w in
      if l.renewing then (r.0, r.1, put c name (renew_reply l r.2)) else (now, w, c)
]
