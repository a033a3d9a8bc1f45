-- ===== src/Presence/Keeping.antt =====
-- What the keeper of a node's presence lease achieves: presence/keeper.go over presence/holder.go, the node and
-- the lease table.
use clusdr.Prelude.{
  ==_iff, ℕ, ◌*◌, ◌+◌, ◌≤◌, Bool, true, false, ◌≡◌, ◌≢◌, ◌⊎◌, refl, ap, ◌∙◌, inl, inr, none, some,
  String, pos, arith, Bool-cases, Option-cases, Option, subst, sym, lookup, lookup-insert_self,
  ne_str, ◌==◌,
}
use clusdr.Fault.{Error, Result, ok, err}
use clusdr.Clock.{Time, Duration, add, epoch_ms, nanos_per_ms}
use clusdr.Names.{Unicode}
use clusdr.Leases
use clusdr.Leases.{LeaseRecord, Table, set_deadline, add_lease}
use clusdr.Leases.Cases.{grant_cases, renew_cases}
use clusdr.Consensus.Node.{apply_lease_grant, apply_lease_renew}
use clusdr.Consensus.Node.Submission.{AppliesHere, RoundTrips, whole, Result-cases}
use clusdr.Consensus.Node.Leasing.{
  Leads, grant_submitted, renew_submitted, grant_had_table, renew_had_table,
}
use clusdr.Grpc.{Leading}
use clusdr.LeaseService.{get_in}
use clusdr.Presence.{lease_name}
use clusdr.Presence.Keeper.{Holder, Keeper, Honours, ensure, take, grant_again}
use clusdr.Presence.Holder.{
  RaftHolder, World, grant, renew, as_holder, leads, own_grant, own_renewal,
}

-- The state in which a turn asks for a grant: the one it starts in if the keeper has no token yet, else the one that
-- the refused renewal left.
abbrev pub AsksIn : {W : Type 0} → Holder W → Keeper → W → W → Type 0
AsksIn h k w w' =
    ((k.token ≡ 0) × (w' ≡ w))
    ⊎ ((k.token ≢ 0)
        × ((e : Error) × ((h.renew (lease_name k.node_id) k.node_id k.token k.ttl w).1 ≡ some e))
        × (w' ≡ (h.renew (lease_name k.node_id) k.node_id k.token k.ttl w).0))

-- What a turn of the keeper from `w` comes to: the node has its lease under the keeper's token, or the grant that
-- the turn asked for was refused, and the keeper is as before.
abbrev pub Kept :
    {W : Type 0}
    → (String → String → ℕ → Duration → W → Type 0)
    → Holder W
    → Keeper
    → W
    → W × Keeper
    → Type 0
Kept {W} Holds h k w r =
    Holds (lease_name k.node_id) k.node_id r.1.token k.ttl r.0
    ⊎ ((r.1 ≡ k)
        × ((w' : W) × AsksIn h k w w'
            × ((e : Error) × ((h.grant (lease_name k.node_id) k.node_id k.ttl w').1 ≡ err e))
            × (r.0 ≡ (h.grant (lease_name k.node_id) k.node_id k.ttl w').0)))

module _ {W : Type 0} (Holds : String → String → ℕ → Duration → W → Type 0) (h : Holder W)
    (l : Honours W h Holds) (k : Keeper) (w : W) where
  taken :
      (w' : W)
      → AsksIn h k w w'
      → Kept Holds h k w (take k (h.grant (lease_name k.node_id) k.node_id k.ttl w'))
  taken w' a =
      let r = h.grant (lease_name k.node_id) k.node_id k.ttl w' in
      elim (Result-cases r.1) [
        | inl (e, p) ↦ inr (rw p (refl, (w', a, (e, p), refl)))
        | inr (token, p) ↦ inl (rw p (l.grants (lease_name k.node_id) k.node_id k.ttl w' token p))
      ]

  asked_again :
      (r : W × Option Error) (e : Error)
      → r.1 ≡ some e
      → grant_again h k r ≡ take k (h.grant (lease_name k.node_id) k.node_id k.ttl r.0)
  asked_again (w', none) e p = absurd (ground arith)
  asked_again (w', some e') e p = refl

  pub ensure-Kept : k.node_id ≢ "" → Kept Holds h k w (ensure (some h) k w)
  unfolding ensure
  ensure-Kept n = rw (ne_str k.node_id "" n) (elim (Bool-cases (k.token == 0)) [
    | inl b ↦ rw b (taken w (inl ((==_iff k.token 0).0 b, refl)))
    | inr b ↦ rw b (
        let r = h.renew (lease_name k.node_id) k.node_id k.token k.ttl w in
        elim (Option-cases r.1) [
          | inl p ↦ inl (rw p (l.renews (lease_name k.node_id) k.node_id k.token k.ttl w p))
          | inr (e, p) ↦ subst (Kept Holds h k w) (sym (asked_again r e p)) (
              taken r.0 (
                inr ((λ z. absurd (let q = (==_iff k.token 0).1 z in ground arith)), (e, p), refl)))
        ])
  ])

-- What a grant and a renewal of the lease table leave behind.
granted_record :
    (u : Unicode) (local : Time) (name owner : String) (d : Time) (v : Duration) (t : Table)
    (token : ℕ)
    → (Leases.grant u local name owner d v t).2 ≡ ok (token, true)
    → (rec : LeaseRecord) × (lookup name (Leases.grant u local name owner d v t).0.leases
        ≡ some rec)
      × (rec.owner ≡ owner)
      × (rec.token ≡ token)
      × (rec.deadline ≡ d)
unfolding set_deadline add_lease
granted_record u local name owner d v t token =
    grant_cases u name t
      (λ r.
        r.2 ≡ ok (token, true)
        → (rec : LeaseRecord) × (lookup name r.0.leases ≡ some rec)
          × (rec.owner ≡ owner)
          × (rec.token ≡ token)
          × (rec.deadline ≡ d))
      local owner d v (λ e x h. absurd (ground arith)) (λ x y h. absurd (ground arith))
      (λ rec x y l e h. (
        record rec { deadline = d; ttl = v },
        lookup-insert_self name _ t.leases,
        e,
        ground arith,
        refl,
      ))
      (λ rec x y l e h. absurd (ground arith)) (λ x y l m h. absurd (ground arith))
      (λ x y l m h. (_, lookup-insert_self name _ t.leases, refl, ground arith, refl))

renewed_record :
    (u : Unicode) (name owner : String) (token : ℕ) (d : Time) (v : Duration) (t : Table)
    → (Leases.renew u name owner token d v t).1 ≡ none
    → (rec : LeaseRecord) × (lookup name (Leases.renew u name owner token d v t).0.leases
        ≡ some rec)
      × (rec.owner ≡ owner)
      × (rec.token ≡ token)
      × (rec.deadline ≡ d)
unfolding set_deadline
renewed_record u name owner token d v t =
    renew_cases u name t
      (λ r.
        r.1 ≡ none
        → (rec : LeaseRecord) × (lookup name r.0.leases ≡ some rec)
          × (rec.owner ≡ owner)
          × (rec.token ≡ token)
          × (rec.deadline ≡ d))
      owner token d v (λ e x h. absurd (ground arith)) (λ x l h. absurd (ground arith))
      (λ rec x l m h. absurd (ground arith))
      (λ rec x l m h.
        (record rec { deadline = d; ttl = v }, lookup-insert_self name _ t.leases, m.0, m.1, refl))

-- The lease that a node has: its table holds the name for the owner under the token, until the lifetime of ClampTTL
-- after `now`, in whole milliseconds.
abbrev pub HasLease : Time → String → String → ℕ → Duration → World → Type 0
HasLease now name owner token ttl w =
    (rec : LeaseRecord) × (get_in name w.0.leases ≡ some rec)
    × (rec.owner ≡ owner)
    × (rec.token ≡ token)
    × (rec.deadline ≡ whole (add now (Leases.clamp_ttl ttl (pos 0))))

own_grant-ok : (r : Result (ℕ × Bool)) (token : ℕ) → own_grant r ≡ ok token → r ≡ ok (token, true)
own_grant-ok (err e) token h = ground arith
own_grant-ok (ok (x, true)) token h = ground arith
own_grant-ok (ok (x, false)) token h = ground arith

own_renewal-none : (r : Result Time) → own_renewal r ≡ none → (d : Time) × (r ≡ ok d)
own_renewal-none (err e) h = ground arith
own_renewal-none (ok d) h = (d, refl)

module _ (u : Unicode) (h : RaftHolder) (l : Leading) (now : Time) (r : h.raft ≡ some l)
    (lead : l.is_leader ≡ true) (here : AppliesHere l.codec u l.raft) (back : RoundTrips l.codec)
    (past : (epoch_ms + 1) * nanos_per_ms ≤ now) where
  pub leads-here : leads h.raft ≡ some l
  leads-here = rw r (rw lead refl)

  pub grant-HasLease :
      (name owner : String) (ttl : Duration) (w : World) (token : ℕ)
      → (grant h now name owner ttl w).1 ≡ ok token
      → HasLease now name owner token ttl (grant h now name owner ttl w).0
  unfolding grant
  grant-HasLease name owner ttl w token =
      rw (grant, leads-here)
        (λ g.
          let a =
            own_grant-ok (apply_lease_grant l.codec l.raft now name owner ttl w.0).2 token g in
          let (t, e) =
            grant_had_table l.codec u l.raft now name owner ttl w.0 (token, true) here back a in
          let on : Leads l.codec u l.raft now w.0 t = record {
            here = here;
            back = back;
            past = past;
            leases = e;
          } in
          let (local, x, y) =
            grant_submitted l.codec u l.raft now name owner ttl w.0 t token true on a in
          let (rec, p, a', b', c') = granted_record u local name owner _ _ t token x in
          (rec, ap (λ f. get_in name f.leases) y ∙ p, a', b', c'))

  pub renew-HasLease :
      (name owner : String) (token : ℕ) (ttl : Duration) (w : World)
      → (renew h now name owner token ttl w).1 ≡ none
      → HasLease now name owner token ttl (renew h now name owner token ttl w).0
  unfolding renew
  renew-HasLease name owner token ttl w =
      rw (renew, leads-here)
        (λ g.
          let (d, a) =
            own_renewal-none (apply_lease_renew l.codec l.raft now name owner token ttl w.0).2 g in
          let (t, e) =
            renew_had_table l.codec u l.raft now name owner token ttl w.0 d here back a in
          let on : Leads l.codec u l.raft now w.0 t = record {
            here = here;
            back = back;
            past = past;
            leases = e;
          } in
          let (x, y, z) = renew_submitted l.codec u l.raft now name owner token ttl w.0 t d on a in
          let (rec, p, a', b', c') = renewed_record u name owner token _ _ t x in
          (rec, ap (λ f. get_in name f.leases) y ∙ p, a', b', c'))

  pub as_holder-Honours : Honours World (as_holder h now) (HasLease now)
  as_holder-Honours = record { grants = grant-HasLease; renews = renew-HasLease }

-- On the leader, where raft.Apply and the codec do what is relied on and the clock is past 1970: after a turn
-- of the keeper of a node with a name, the node has its presence lease, under the keeper's token and for
-- the keeper's lifetime from now on, unless the grant that this turn asked for was refused; then the keeper
-- is as before and the node is as that grant left it. A turn asks for the grant in the state
-- that it starts in if the keeper has no token, else only after its renewal was refused, in the state
-- that the renewal left.
pub presence_kept :
    (u : Unicode) (h : RaftHolder) (l : Leading) (now : Time) (k : Keeper) (w : World)
    → h.raft ≡ some l
    → l.is_leader ≡ true
    → AppliesHere l.codec u l.raft
    → RoundTrips l.codec
    → (epoch_ms + 1) * nanos_per_ms ≤ now
    → k.node_id ≢ ""
    → let r = ensure (some (as_holder h now)) k w in
      HasLease now (lease_name k.node_id) k.node_id r.1.token k.ttl r.0
      ⊎ ((r.1 ≡ k)
          × ((w' : World) × AsksIn (as_holder h now) k w w'
              × ((e : Error) × ((grant h now (lease_name k.node_id) k.node_id k.ttl w').1 ≡ err e))
              × (r.0 ≡ (grant h now (lease_name k.node_id) k.node_id k.ttl w').0)))
presence_kept u h l now k w r lead here back past n =
    ensure-Kept (HasLease now) (as_holder h now) (as_holder-Honours u h l now r lead here back past)
      k w n
