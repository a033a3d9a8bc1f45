-- ===== src/Presence/Keeper.antt =====
-- presence/keeper.go: the loop that keeps a node's presence lease alive.
-- Holder is the source's interface, over the state of what it asks; a keeper is its Config and its token. The
-- ticker is the sequence of calls of `ensure`; between two of them the others change the state.
use clusdr.Prelude.{
  ℕ, ◌==◌, ◌/◌, Option, none, some, List, [], ◌∷◌, String, str_eq, if◌then◌else◌, pos, negsuc,
  leb_ℤ, ◌≡◌,
}
use clusdr.Fault.{Error, Result, ok, err}
use clusdr.Clock.{Duration}
use clusdr.Presence.{lease_name}

pub record Holder (W : Type 0) : Type 0 where
  pub grant : String → String → Duration → W → W × Result ℕ
  pub renew : String → String → ℕ → Duration → W → W × Option Error

-- Config and Keeper; `token` is 0 until the lease is granted.
pub record Keeper : Type 0 where
  pub node_id : String
  pub ttl : Duration
  pub renew_interval : Duration
  pub request_timeout : Duration
  pub token : ℕ

abbrev pub or_if_not_positive : Duration → Duration → Duration
or_if_not_positive d fallback = if leb_ℤ d (pos 0) then fallback else d

-- A third of a duration; it is asked of positive ones only.
abbrev pub third : Duration → Duration
third (pos n) = pos (n / 3)
third (negsuc n) = negsuc n

-- NewKeeper.
unfoldable pub new_keeper : String → Duration → Duration → Duration → Keeper
new_keeper node_id ttl renew_interval request_timeout =
    let ttl' = or_if_not_positive ttl (pos 3_000_000_000) in
    record {
      node_id = node_id;
      ttl = ttl';
      renew_interval = or_if_not_positive renew_interval (or_if_not_positive (third ttl') ttl');
      request_timeout = or_if_not_positive request_timeout (pos 5_000_000_000);
      token = 0;
    }

-- What the keeper makes of Grant.
abbrev pub take : {W : Type 0} → Keeper → W × Result ℕ → W × Keeper
take k (w, err e) = (w, k)
take k (w, ok token) = (w, record k { token = token })

-- What follows a renewal: nothing if it succeeded, else a grant.
abbrev pub grant_again : {W : Type 0} → Holder W → Keeper → W × Option Error → W × Keeper
grant_again h k (w, none) = (w, k)
grant_again h k (w, some e) = take k (h.grant (lease_name k.node_id) k.node_id k.ttl w)

-- ensure.
unfoldable pub ensure : {W : Type 0} → Option (Holder W) → Keeper → W → W × Keeper
unfolding lease_name
ensure none k w = (w, k)
ensure (some h) k w =
    if str_eq k.node_id ""
    then (w, k)
    else if k.token == 0
    then take k (h.grant (lease_name k.node_id) k.node_id k.ttl w)
    else grant_again h k (h.renew (lease_name k.node_id) k.node_id k.token k.ttl w)

-- run, for the ticks that come before the context is done, with what the others do before each.
unfoldable pub run : {W : Type 0} → Option (Holder W) → List (W → W) → W × Keeper → W × Keeper
unfolding ensure
run h [] (w, k) = ensure h k w
run h (others ∷ ticks) (w, k) = let r = ensure h k w in run h ticks (others r.0, r.1)

-- What a client of a Holder may rely on, for a notion of holding a lease: a grant or a renewal that succeeds
-- leaves the owner with the lease, under that token.
pub record Honours (W : Type 0) (h : Holder W) (Holds : String → String → ℕ → Duration → W → Type 0)
    : Type 0 where
  pub grants :
      (name owner : String) (ttl : Duration) (w : W) (token : ℕ)
      → (h.grant name owner ttl w).1 ≡ ok token
      → Holds name owner token ttl (h.grant name owner ttl w).0
  pub renews :
      (name owner : String) (token : ℕ) (ttl : Duration) (w : W)
      → (h.renew name owner token ttl w).1 ≡ none
      → Holds name owner token ttl (h.renew name owner token ttl w).0
