-- ===== src/Presence/Regaining.antt =====
-- A presence lease that was lost comes back at the next turn of the keeper.
use clusdr.Prelude.{
  ℕ, ◌*◌, ◌+◌, ◌≤◌, ◌<◌, true, ◌≡◌, ◌≢◌, ap, inl, inr, none, some, List, Bool-cases, Option-cases,
  lookup, ne_str, ◌==◌, length,
}
use clusdr.Fault.{ok}
use clusdr.Clock.{Time, epoch_ms, nanos_per_ms}
use clusdr.Names.{Unicode}
use clusdr.Leases
use clusdr.Consensus.Node.{grant_command}
use clusdr.Consensus.Node.Submission.{AppliesHere, RoundTrips}
use clusdr.Consensus.Node.Commits.{Commits, renew-missing, grant-missing}
use clusdr.Grpc.{Leading}
use clusdr.Presence.{lease_name}
use clusdr.Presence.Keeper.{Keeper, ensure, take}
use clusdr.Presence.Holder.{RaftHolder, World, grant, renew, as_holder, own_grant}
use clusdr.Presence.Keeping.{HasLease, leads-here, grant-HasLease, renew-HasLease}

module _ (u : Unicode) (h : RaftHolder) (l : Leading) (now : Time) (k : Keeper) (t : Leases.Table)
    (bytes : List ℕ) (r : h.raft ≡ some l) (lead : l.is_leader ≡ true)
    (here : AppliesHere l.codec u l.raft) (back : RoundTrips l.codec)
    (past : (epoch_ms + 1) * nanos_per_ms ≤ now) (all : Commits l.raft)
    (encodes : l.codec.encode (grant_command now (lease_name k.node_id) k.node_id k.ttl) ≡ ok bytes)
    (n : k.node_id ≢ "") (legal : Leases.valid_name u (lease_name k.node_id) ≡ none)
    (lost : lookup (lease_name k.node_id) t.leases ≡ none)
    (room : length t.leases < Leases.max_leases) where
  granted :
      (w : World)
      → w.0.leases ≡ some t
      → (token : ℕ) × ((grant h now (lease_name k.node_id) k.node_id k.ttl w).1 ≡ ok token)
  unfolding grant
  granted w e =
      let (token, g) =
        grant-missing l.codec u l.raft now (lease_name k.node_id) k.node_id k.ttl w.0 t bytes here
          back all encodes e legal n lost room in
      (token, rw (grant, leads-here u h l now r lead here back past) (ap own_grant g))

  kept_still :
      (w : World)
      → w.0.leases ≡ some t
      → (renew h now (lease_name k.node_id) k.node_id k.token k.ttl w).0.0.leases ≡ some t
  unfolding renew
  kept_still w e =
      rw (renew, leads-here u h l now r lead here back past)
        (renew-missing l.codec u l.raft now (lease_name k.node_id) k.node_id k.token k.ttl w.0 t
          here back all e lost)

  retaken :
      (w : World)
      → w.0.leases ≡ some t
      → let x = take k (grant h now (lease_name k.node_id) k.node_id k.ttl w) in
        HasLease now (lease_name k.node_id) k.node_id x.1.token k.ttl x.0
  retaken w e =
      let (token, g) = granted w e in
      rw g (
        grant-HasLease u h l now r lead here back past (lease_name k.node_id) k.node_id k.ttl w
          token g)

  regained :
      (w : World)
      → w.0.leases ≡ some t
      → let x = ensure (some (as_holder h now)) k w in
        HasLease now (lease_name k.node_id) k.node_id x.1.token k.ttl x.0
  unfolding ensure
  regained w e = rw (ne_str k.node_id "" n) (elim (Bool-cases (k.token == 0)) [
    | inl b ↦ rw b (retaken w e)
    | inr b ↦ rw b (
        let q = renew h now (lease_name k.node_id) k.node_id k.token k.ttl w in
        elim (Option-cases q.1) [
          | inl p ↦ rw p (
              renew-HasLease u h l now r lead here back past (lease_name k.node_id) k.node_id
                k.token k.ttl w p)
          | inr (x, p) ↦ rw p (retaken q.0 (kept_still w e))
        ])
  ])

-- On the leader, where Raft takes every entry, raft.Apply and the codec do what is relied on, the grant can be encoded
-- and the clock is past 1970: when nobody has the presence lease of a node any more, its name is a legal
-- one and the lease table has room, one turn of the keeper gets the lease again, under the keeper's
-- token and for the keeper's lifetime from now on, whatever token the keeper had.
pub presence_regained :
    (u : Unicode) (h : RaftHolder) (l : Leading) (now : Time) (k : Keeper) (t : Leases.Table)
    (bytes : List ℕ) (w : World)
    → h.raft ≡ some l
    → l.is_leader ≡ true
    → AppliesHere l.codec u l.raft
    → RoundTrips l.codec
    → (epoch_ms + 1) * nanos_per_ms ≤ now
    → Commits l.raft
    → l.codec.encode (grant_command now (lease_name k.node_id) k.node_id k.ttl) ≡ ok bytes
    → k.node_id ≢ ""
    → Leases.valid_name u (lease_name k.node_id) ≡ none
    → lookup (lease_name k.node_id) t.leases ≡ none
    → length t.leases < Leases.max_leases
    → w.0.leases ≡ some t
    → let x = ensure (some (as_holder h now)) k w in
      HasLease now (lease_name k.node_id) k.node_id x.1.token k.ttl x.0
presence_regained u h l now k t bytes w r lead here back past all encodes n legal lost room e =
    regained u h l now k t bytes r lead here back past all encodes n legal lost room w e
