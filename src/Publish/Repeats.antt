-- ===== src/Publish/Repeats.antt =====
-- A request that is sent twice: grpcserver/events.go.
use clusdr.Prelude.{
  true, false, ◌≡◌, ◌≢◌, refl, sym, ap, subst, ◌∙◌, ◌⊎◌, Option, none, some, List, [], String, ltb,
  length, lookup, lookup-insert_self, str_eq, str_eq_iff, arith, Bool-cases, Option-cases, inl, inr,
}
use clusdr.Fault.{Error, Result, err, bus_missing, payload_too_long}
use clusdr.Clock.{Time}
use clusdr.Names.{Unicode}
use clusdr.Events.{valid_topic, max_payload_bytes}
use clusdr.Bus.{Bus}
use clusdr.Membership.{is_some}
use clusdr.Publish.{
  IdCache, seen_or_add, make_room, PublishRequest, PublishResponse, EventService, publish_once,
  publish_on, publish_event,
}

seen_twice :
    (id : String) (c : IdCache) → seen_or_add id (seen_or_add id c).0 ≡ ((seen_or_add id c).0, true)
unfolding seen_or_add
seen_twice id c = elim (Bool-cases (is_some (lookup id c.ids))) [
  | inl b ↦ rw (b, b) refl
  | inr b ↦ rw (b, lookup-insert_self id tt (make_room c).ids) refl
]

abbrev Quiet :
    EventService → EventService × List (String × PublishRequest) × Result PublishResponse → Type 0
Quiet s r = (r.0 ≡ s) × (r.1 ≡ [])

again :
    (later : Time) (req : PublishRequest) (id : String) (b : Bus) (s : EventService)
    → seen_or_add id s.seen ≡ (s.seen, true)
    → Quiet s (publish_once later req id b s)
unfolding publish_once
again later req id b s e = rw e (refl, refl)

once_state :
    (now : Time) (req : PublishRequest) (id : String) (b : Bus) (s : EventService)
    → s.bus ≡ some b
    → let s' = (publish_once now req id b s).0 in
      (s'.seen ≡ (seen_or_add id s.seen).0) × ((b' : Bus) × (s'.bus ≡ some b'))
unfolding publish_once
once_state now req id b s e = elim (Bool-cases (seen_or_add id s.seen).1) [
  | inl d ↦ rw d (refl, (b, e))
  | inr d ↦ rw d (refl, (_, refl))
]

abbrev Outcome : Type 0
Outcome = EventService × List (String × PublishRequest) × Result PublishResponse

-- With an event id of its own a request is refused, whatever the time, or reaches the cache.
publish_on-cases :
    (u : Unicode) (req : PublishRequest) (o : Option Bus) (s : EventService)
    → req.event_id ≢ ""
    → ((x : Error) × ((now : Time) (fresh : Result String)
          → publish_on u now fresh req o s ≡ (s, [], err x)))
      ⊎ ((b : Bus) × (o ≡ some b)
          × ((now : Time) (fresh : Result String) (c : Bus) (s' : EventService)
              → publish_on u now fresh req (some c) s' ≡ publish_once now req req.event_id c s'))
unfolding publish_on
publish_on-cases u req none s n = inl (bus_missing, λ now fresh. refl)
publish_on-cases u req (some b) s n = elim (Option-cases (valid_topic u req.topic)) [
  | inr (x, v) ↦ inl (x, λ now fresh. rw (publish_on, v) refl)
  | inl v ↦ elim (Bool-cases (ltb max_payload_bytes (length req.payload))) [
    | inl l ↦ inl (payload_too_long, λ now fresh. rw (publish_on, v, l) refl)
    | inr l ↦ inr (b, refl, λ now fresh c s'. rw (publish_on, v, l, named) refl)
  ]
]
  where
    named : str_eq req.event_id "" ≡ false
    named = ground (arith, str_eq_iff req.event_id "")

-- A request with an event id of its own that is sent twice in a row does nothing the second time: the
-- service is as after the first time, its bus included, and no peer is asked to publish; this holds
-- whether the first time it was published, known as a duplicate or refused.
pub publish_event_twice :
    (u : Unicode) (now later : Time) (fresh fresh' : Result String) (req : PublishRequest)
    (s : EventService)
    → req.event_id ≢ ""
    → let first = publish_event u now fresh req s in
      let second = publish_event u later fresh' req first.0 in
      (second.0 ≡ first.0) × (second.1 ≡ [])
unfolding publish_event
publish_event_twice u now later fresh fresh' req s n = elim (publish_on-cases u req s.bus s n) [
  | inl (x, r) ↦
      let t : Outcome = publish_event u now fresh req s in
      let p : t.0 ≡ s = ap (λ o. o.0) (r now fresh) in
      subst (λ s'. Quiet s' (publish_event u later fresh' req s')) (sym p)
        (ap (λ o. o.0) (r later fresh'), ap (λ o. o.1) (r later fresh'))
  | inr (b, e, r) ↦
      let f : publish_event u now fresh req s ≡ publish_once now req req.event_id b s =
        ap (λ o. publish_on u now fresh req o s) e ∙ r now fresh b s in
      let s' = (publish_once now req req.event_id b s).0 in
      let (seen, (c, k)) = once_state now req req.event_id b s e in
      let g : publish_event u later fresh' req s' ≡ publish_once later req req.event_id c s' =
        ap (λ o. publish_on u later fresh' req o s') k ∙ r later fresh' c s' in
      let known : seen_or_add req.event_id s'.seen ≡ (s'.seen, true) =
        subst (λ m. seen_or_add req.event_id m ≡ (m, true)) (sym seen)
          (seen_twice req.event_id s.seen) in
      subst (λ o. Quiet o.0 (publish_event u later fresh' req o.0)) (sym f)
        (subst (Quiet s') (sym g) (again later req req.event_id c s' known))
]
