-- ===== src/Bus/Delivery.antt =====
-- What a subscriber gets: eventbus/bus.go.
use clusdr.Prelude.{
  All, ℕ, true, false, ◌≡◌, refl, sym, ap, ◌∙◌, Option, none, some, List, [], ◌∷◌, ◌++◌, map, ltb,
  ◌==◌, ==_iff, length, length-append, if◌then◌else◌, ◌≢◌, ◌≤◌, arith, Bool-cases, inl, inr,
}
use mathlib.Core.Option
use mathlib.Core.List.{append-nil, append_assoc}
use clusdr.Clock.{Time}
use clusdr.Events.{Event}
use clusdr.Bus.{
  Bus, Sub, Call, publishes, subscribes, receives, drains, takes_dropped, unsubscribes, find_sub,
  adjust, stamp, offer, deliver, publish, subscribe, take_dropped, unsubscribe, receive, drain,
  clear, deactivate, pop, flush, first, rest_of, step, run,
}

offer-id : (e : Event) (s : Sub) → (offer e s).id ≡ s.id
unfolding offer
offer-id e s = ground arith

find_sub-offer :
    (id : ℕ) (e : Event) (ss : List Sub)
    → find_sub id (map (offer e) ss) ≡ Option.map (offer e) (find_sub id ss)
unfolding find_sub
find_sub-offer id e [] = refl
find_sub-offer id e (s ∷ ss) = ground (arith, offer-id e s, find_sub-offer id e ss)

find_sub-adjust :
    (id j : ℕ) (f : Sub → Sub) (ss : List Sub)
    → ((s : Sub) → (f s).id ≡ s.id)
    → find_sub id (adjust j f ss)
      ≡ (if j == id then Option.map f (find_sub id ss) else find_sub id ss)
unfolding find_sub adjust
find_sub-adjust id j f [] h = ground arith
find_sub-adjust id j f (s ∷ ss) h =
    ground (arith, h s, find_sub-adjust id j f ss h, ==_iff s.id id, ==_iff s.id j, ==_iff j id)

find_sub-snoc :
    (id : ℕ) (ss : List Sub) (x s : Sub)
    → find_sub id ss ≡ some s
    → find_sub id (ss ++ (x ∷ [])) ≡ some s
unfolding find_sub
find_sub-snoc id [] x s h = ground arith
find_sub-snoc id (y ∷ ss) x s h = ground (arith, find_sub-snoc id ss x s)

-- What a call puts on the bus, as Publish stamps it.
abbrev pub emitted : Bus → Call → List Event
emitted b (publishes now e) = (stamp now e b).1 ∷ []
emitted b _ = []

abbrev pub taken : Option Event → List Event
taken none = []
taken (some e) = e ∷ []

-- What a call takes out of the buffer of the subscription `id`.
abbrev pub got : ℕ → Bus → Call → List Event
got id b (receives j) = if j == id then taken (receive id b).1 else []
got id b (drains j) = if j == id then (drain id b).1 else []
got id b _ = []

-- All that a run puts on the bus, and all that it takes from the subscription `id`.
unfoldable pub all_emitted : Bus → List Call → List Event
all_emitted b [] = []
all_emitted b (c ∷ cs) = emitted b c ++ all_emitted (step b c) cs

unfoldable pub all_got : ℕ → Bus → List Call → List Event
all_got id b [] = []
all_got id b (c ∷ cs) = got id b c ++ all_got id (step b c) cs

-- A call that neither clears the flag of the subscription `id` nor ends it.
abbrev pub Keeps : ℕ → Call → Type 0
Keeps id (takes_dropped j) = j ≢ id
Keeps id (unsubscribes j) = j ≢ id
Keeps id _ = Unit

-- The subscription after a call, and what it means for its buffer that the flag is still clear.
abbrev After : ℕ → Bus → Call → Sub → Type 0
After id b c s =
    (s' : Sub) × (find_sub id (step b c).subs ≡ some s')
    × (s'.active ≡ true)
    × (length s'.queue ≤ s'.cap)
    × (s'.dropped ≡ false → (s.dropped ≡ false) × (got id b c ++ s'.queue ≡ s.queue ++ emitted b c))

-- The send to a subscriber that is in the bus and within its capacity.
offer_lem :
    (e : Event) (s : Sub)
    → s.active ≡ true
    → length s.queue ≤ s.cap
    → ((offer e s).active ≡ true)
      × (length (offer e s).queue ≤ (offer e s).cap)
      × ((offer e s).dropped ≡ false
          → (s.dropped ≡ false) × ((offer e s).queue ≡ s.queue ++ (e ∷ [])))
unfolding offer
offer_lem e s a l = elim (Bool-cases (ltb (length s.queue) s.cap)) [
  | inl b ↦ rw (a, b) (refl, ground (arith, length-append s.queue (e ∷ [])), λ h. (h, refl))
  | inr b ↦ rw (a, b) (refl, l, λ h. ground arith)
]

publish-After :
    (id : ℕ) (b : Bus) (now : Time) (e : Event) (s : Sub)
    → find_sub id b.subs ≡ some s
    → s.active ≡ true
    → length s.queue ≤ s.cap
    → After id b (publishes now e) s
unfolding step publish deliver
publish-After id b now e s f a l =
    let e' = (stamp now e b).1 in
    let (p, q, r) = offer_lem e' s a l in
    (offer e' s, find_sub-offer id e' b.subs ∙ ap (Option.map (offer e')) f, p, q, r)

receive-After :
    (id j : ℕ) (b : Bus) (s : Sub)
    → find_sub id b.subs ≡ some s
    → s.active ≡ true
    → length s.queue ≤ s.cap
    → After id b (receives j) s
unfolding step receive
receive-After id j b s f a l = elim (Bool-cases (j == id)) [
  | inl c ↦ (
    pop s,
    find_sub-adjust id j pop b.subs (λ x. refl) ∙ rw (c, f) refl,
    a,
    shorter s.queue l,
    λ h. (h, rw (c, receive, f) (whole s.queue ∙ sym (append-nil s.queue))),
  )
  | inr c ↦ (
    s,
    find_sub-adjust id j pop b.subs (λ x. refl) ∙ rw (c, f) refl,
    a,
    l,
    λ h. (h, rw c (sym (append-nil s.queue))),
  )
]
  where
    shorter : (q : List Event) → length q ≤ s.cap → length (rest_of q) ≤ s.cap
    shorter [] m = m
    shorter (x ∷ q) m = omega arith

    whole : (q : List Event) → taken (first q) ++ rest_of q ≡ q
    whole [] = refl
    whole (x ∷ q) = refl

drain-After :
    (id j : ℕ) (b : Bus) (s : Sub)
    → find_sub id b.subs ≡ some s
    → s.active ≡ true
    → length s.queue ≤ s.cap
    → After id b (drains j) s
unfolding step drain
drain-After id j b s f a l = elim (Bool-cases (j == id)) [
  | inl c ↦ (
    flush s,
    find_sub-adjust id j flush b.subs (λ x. refl) ∙ rw (c, f) refl,
    a,
    omega arith,
    λ h. (h, rw (c, drain, f) refl),
  )
  | inr c ↦ (
    s,
    find_sub-adjust id j flush b.subs (λ x. refl) ∙ rw (c, f) refl,
    a,
    l,
    λ h. (h, rw c (sym (append-nil s.queue))),
  )
]

-- A change to another subscription.
elsewhere :
    (id j : ℕ) (b : Bus) (g : Sub → Sub) (s : Sub)
    → ((x : Sub) → (g x).id ≡ x.id)
    → j ≢ id
    → find_sub id b.subs ≡ some s
    → find_sub id (adjust j g b.subs) ≡ some s
elsewhere id j b g s h n f = elim (Bool-cases (j == id)) [
  | inl c ↦ absurd (n ((==_iff j id).0 c))
  | inr c ↦ find_sub-adjust id j g b.subs h ∙ rw (c, f) refl
]

step-After :
    (id : ℕ) (b : Bus) (c : Call) (s : Sub)
    → Keeps id c
    → find_sub id b.subs ≡ some s
    → s.active ≡ true
    → length s.queue ≤ s.cap
    → After id b c s
unfolding step subscribe take_dropped unsubscribe
step-After id b (publishes now e) s k f a l = publish-After id b now e s f a l
step-After id b (subscribes size) s k f a l =
    (s, find_sub-snoc id b.subs _ s f, a, l, λ h. (h, sym (append-nil s.queue)))
step-After id b (receives j) s k f a l = receive-After id j b s f a l
step-After id b (drains j) s k f a l = drain-After id j b s f a l
step-After id b (takes_dropped j) s k f a l =
    (s, elsewhere id j b clear s (λ x. refl) k f, a, l, λ h. (h, sym (append-nil s.queue)))
step-After id b (unsubscribes j) s k f a l =
    (s, elsewhere id j b deactivate s (λ x. refl) k f, a, l, λ h. (h, sym (append-nil s.queue)))

chain :
    (g gs q r em es q' : List Event)
    → g ++ r ≡ q ++ em
    → gs ++ q' ≡ r ++ es
    → (g ++ gs) ++ q' ≡ q ++ (em ++ es)
chain g gs q r em es q' x y =
    append_assoc g gs q'
    ∙ (ap (λ l. g ++ l) y
        ∙ (sym (append_assoc g r es) ∙ (ap (λ l. l ++ es) x ∙ append_assoc q em es)))

-- A subscription that is in the bus, with its buffer within its capacity, through any calls of which none
-- clears its flag or ends it: it stays in the bus and within its capacity, and if its flag is clear at
-- the end, what was taken from it, followed by what its buffer holds, is what the buffer held, followed by
-- every event that was published, each once and in the order in which they were published.
pub nothing_lost :
    (id : ℕ) (b : Bus) (calls : List Call) (s : Sub)
    → All (Keeps id) calls
    → find_sub id b.subs ≡ some s
    → s.active ≡ true
    → length s.queue ≤ s.cap
    → (s' : Sub) × (find_sub id (run b calls).subs ≡ some s')
      × (s'.active ≡ true)
      × (length s'.queue ≤ s'.cap)
      × (s'.dropped ≡ false
          → (s.dropped ≡ false) × (all_got id b calls ++ s'.queue ≡ s.queue ++ all_emitted b calls))
unfolding run all_got all_emitted
nothing_lost id b [] s k f a l = (s, f, a, l, λ h. (h, sym (append-nil s.queue)))
nothing_lost id b (c ∷ cs) s k f a l =
    let (s₁, f₁, a₁, l₁, h₁) = step-After id b c s k.0 f a l in
    let (s₂, f₂, a₂, l₂, h₂) = nothing_lost id (step b c) cs s₁ k.1 f₁ a₁ l₁ in
    (
      s₂,
      f₂,
      a₂,
      l₂,
      λ h.
          let (d, e) = h₂ h in
          let (d', e') = h₁ d in
          (
            d',
            chain (got id b c) (all_got id (step b c) cs) s.queue s₁.queue (emitted b c)
                (all_emitted (step b c) cs) s₂.queue e' e,
          ),
    )
