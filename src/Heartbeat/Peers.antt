-- ===== src/Heartbeat/Peers.antt =====
-- What a tick of the heartbeat monitor does to a peer.
use clusdr.Prelude.{
  ℕ, ◌+◌, Bool, true, false, not, ◌||◌, ◌≡◌, ◌≢◌, refl, ap, ◌∙◌, List, [], ◌∷◌, ◌++◌, String,
  str_eq, str_eq_iff, str_eq_refl, if◌then◌else◌, ℤ, pos, leb_ℤ, insert, All, Distinct,
  Distinct-insert, Distinct-delete, lookup-insert, lookup-delete, arith, Bool-cases, inl, inr,
}
use clusdr.Membership.{Member, status_alive}
use clusdr.Heartbeat.{Monitor, misses_of, reset, miss, probe, probe_all}

-- Whether an id is in a list of reports.
unfoldable pub mentions : String → List String → Bool
mentions id [] = false
mentions id (x ∷ xs) = str_eq x id || mentions id xs

mentions-append :
    (id : String) (xs ys : List String)
    → mentions id (xs ++ ys) ≡ (mentions id xs || mentions id ys)
unfolding mentions
mentions-append id [] ys = refl
mentions-append id (x ∷ xs) ys = ground (arith, mentions-append id xs ys)

-- What a tick leaves alone of the peer `id`.
abbrev Spares : String → Monitor → Monitor × List String → Type 0
Spares id m r =
    Distinct r.0.misses
    × (misses_of id r.0 ≡ misses_of id m)
    × (r.0.max_misses ≡ m.max_misses)
    × (mentions id r.1 ≡ false)

misses_of-reset :
    (id j : String) (m : Monitor)
    → Distinct m.misses
    → misses_of id (reset j m) ≡ (if str_eq j id then 0 else misses_of id m)
misses_of-reset id j m d = ground (arith, lookup-delete j id m.misses d)

-- One more miss of the peer `j`, counted.
abbrev counted : String → Monitor → Monitor
counted j m = record m { misses = insert j (misses_of j m + 1) m.misses }

counted-Distinct : (j : String) (m : Monitor) → Distinct m.misses → Distinct (counted j m).misses
counted-Distinct j m d = Distinct-insert j (misses_of j m + 1) m.misses d

misses_of-counted :
    (id j : String) (m : Monitor)
    → misses_of id (counted j m) ≡ (if str_eq j id then misses_of j m + 1 else misses_of id m)
misses_of-counted id j m = ground (arith, lookup-insert j id (misses_of j m + 1) m.misses)

-- To split on whether a miss is the one that is reported.
miss_cases {ℓ} :
    (P : Monitor × List String → Type ℓ) (j : String) (m : Monitor)
    → (leb_ℤ m.max_misses (pos (misses_of j m + 1)) ≡ true → P (reset j (counted j m), j ∷ []))
    → (leb_ℤ m.max_misses (pos (misses_of j m + 1)) ≡ false → P (counted j m, []))
    → P (miss j m)
unfolding miss
miss_cases P j m p q = elim (Bool-cases (leb_ℤ m.max_misses (pos (misses_of j m + 1)))) [
  | inl b ↦ rw b (p b)
  | inr b ↦ rw b (q b)
]

miss-Spares : (id j : String) (m : Monitor) → Distinct m.misses → j ≢ id → Spares id m (miss j m)
unfolding mentions
miss-Spares id j m d n =
    miss_cases (Spares id m) j m
      (λ _. (
        Distinct-delete j (counted j m).misses (counted-Distinct j m d),
        ground (
          arith,
          misses_of-reset id j (counted j m) (counted-Distinct j m d),
          misses_of-counted id j m,
          str_eq_iff j id,
        ),
        refl,
        ground (arith, str_eq_iff j id),
      ))
      (λ _. (
        counted-Distinct j m d,
        ground (arith, misses_of-counted id j m, str_eq_iff j id),
        refl,
        refl,
      ))

probe-Spares :
    (ping : String → Bool) (self_id id : String) (mem : Member) (m : Monitor)
    → Distinct m.misses
    → mem.id ≢ id
    → Spares id m (probe ping self_id mem m)
unfolding probe mentions
probe-Spares ping self_id id mem m d n =
    elim (Bool-cases (str_eq mem.id self_id || not (str_eq mem.status status_alive))) [
      | inl b ↦ rw b (d, refl, refl, refl)
      | inr b ↦ elim (Bool-cases (ping mem.address)) [
        | inl p ↦
            rw (b, p)
              (
                Distinct-delete mem.id m.misses d,
                ground (arith, misses_of-reset id mem.id m d, str_eq_iff mem.id id),
                refl,
                refl,
              )
        | inr p ↦ rw (b, p) (miss-Spares id mem.id m d n)
      ]
    ]

probe_all-Spares :
    (ping : String → Bool) (self_id id : String) (mems : List Member) (m : Monitor)
    → Distinct m.misses
    → All (λ x. x.id ≢ id) mems
    → Spares id m (probe_all ping self_id mems m)
unfolding probe_all mentions
probe_all-Spares ping self_id id [] m d a = (d, refl, refl, refl)
probe_all-Spares ping self_id id (mem ∷ mems) m d a =
    let one = probe ping self_id mem m in
    let (d₁, e₁, x₁, n₁) = probe-Spares ping self_id id mem m d a.0 in
    let (d₂, e₂, x₂, n₂) = probe_all-Spares ping self_id id mems one.0 d₁ a.1 in
    (d₂, e₂ ∙ e₁, x₂ ∙ x₁, mentions-append id one.1 _ ∙ rw (n₁, n₂) refl)

-- What a tick owes a peer that has missed `n` pings: nothing missed after an answer, else one miss more, and
-- a report, after which the count starts again, once they are as many as allowed.
abbrev pub owed : Bool → ℤ → ℕ → ℕ × Bool
owed answered max_misses n =
    if answered
    then (0, false)
    else if leb_ℤ max_misses (pos (n + 1))
    then (0, true)
    else (n + 1, false)

-- The monitor and the reports give a peer what they owe it.
abbrev Pays : String → ℕ × Bool → Monitor × List String → Type 0
Pays id o r = Distinct r.0.misses × (misses_of id r.0 ≡ o.0) × (mentions id r.1 ≡ o.1)

miss-Pays :
    (id : String) (m : Monitor)
    → Distinct m.misses
    → Pays id (owed false m.max_misses (misses_of id m)) (miss id m)
unfolding mentions
miss-Pays id m d =
    miss_cases (Pays id (owed false m.max_misses (misses_of id m))) id m
      (λ b. rw b (
        Distinct-delete id (counted id m).misses (counted-Distinct id m d),
        ground
            (arith, misses_of-reset id id (counted id m) (counted-Distinct id m d), str_eq_refl id),
        ground (arith, str_eq_refl id),
      ))
      (λ b.
        rw b (
          counted-Distinct id m d,
          ground (arith, misses_of-counted id id m, str_eq_refl id),
          refl,
        ))

probe-Pays :
    (ping : String → Bool) (self_id : String) (mem : Member) (m : Monitor)
    → Distinct m.misses
    → mem.id ≢ self_id
    → mem.status ≡ status_alive
    → Pays mem.id
        (owed (ping mem.address) m.max_misses (misses_of mem.id m))
        (probe ping self_id mem m)
unfolding probe mentions
probe-Pays ping self_id mem m d n s =
    let b : (str_eq mem.id self_id || not (str_eq mem.status status_alive)) ≡ false =
      ground (arith, str_eq_iff mem.id self_id, str_eq_iff mem.status status_alive) in
    elim (Bool-cases (ping mem.address)) [
      | inl p ↦
          rw (b, p)
            (
              Distinct-delete mem.id m.misses d,
              ground (arith, misses_of-reset mem.id mem.id m d, str_eq_refl mem.id),
              refl,
            )
      | inr p ↦ rw (b, p) (miss-Pays mem.id m d)
    ]

-- A tick over a list in which an id stands once, as that of a live peer: it forgets the peer's misses
-- after an answer, and counts one more after a failed ping; exactly when these reach MaxMisses it
-- reports the peer, and counts from nothing again. The pings of the others make no difference to it.
pub probe_all-peer :
    (ping : String → Bool) (self_id : String) (before after : List Member) (mem : Member)
    (m : Monitor)
    → Distinct m.misses
    → All (λ x. x.id ≢ mem.id) before
    → All (λ x. x.id ≢ mem.id) after
    → mem.id ≢ self_id
    → mem.status ≡ status_alive
    → let r = probe_all ping self_id (before ++ (mem ∷ after)) m in
      let o = owed (ping mem.address) m.max_misses (misses_of mem.id m) in
      Distinct r.0.misses × (misses_of mem.id r.0 ≡ o.0) × (mentions mem.id r.1 ≡ o.1)
unfolding probe_all
probe_all-peer ping self_id [] after mem m d b a n s =
    let one = probe ping self_id mem m in
    let (d₁, e₁, r₁) = probe-Pays ping self_id mem m d n s in
    let (d₂, e₂, x₂, n₂) = probe_all-Spares ping self_id mem.id after one.0 d₁ a in
    (d₂, e₂ ∙ e₁, mentions-append mem.id one.1 _ ∙ ground (arith, n₂, r₁))
probe_all-peer ping self_id (x ∷ before) after mem m d b a n s =
    let one = probe ping self_id x m in
    let (d₁, e₁, x₁, n₁) = probe-Spares ping self_id mem.id x m d b.0 in
    let (d₂, e₂, r₂) = probe_all-peer ping self_id before after mem one.0 d₁ b.1 a n s in
    (
      d₂,
      e₂ ∙ ap (λ k. (owed (ping mem.address) k.0 k.1).0) (same_counts x₁ e₁),
      mentions-append mem.id one.1 _
          ∙ (ap
                (λ k.
                  k || mentions mem.id (probe_all ping self_id (before ++ (mem ∷ after)) one.0).1)
                n₁
              ∙ (r₂ ∙ ap (λ k. (owed (ping mem.address) k.0 k.1).1) (same_counts x₁ e₁))),
    )
  where
    same_counts : {y z : ℤ} {p q : ℕ} → y ≡ z → p ≡ q → ◌≡◌ {A = ℤ × ℕ} (y, p) (z, q)
    same_counts e f = λ i. (e i, f i)
