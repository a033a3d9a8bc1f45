-- ===== src/Publish/Cache.antt =====
-- What the cache of event ids remembers: idCache of grpcserver/events.go.
use clusdr.Prelude.{
  ℕ, suc, ◌+◌, ◌≤◌, ◌<◌, Bool, true, false, ◌||◌, ◌≡◌, refl, sym, ap, subst, ◌∙◌, List, [], ◌∷◌,
  ◌++◌, String, leb, length, length-append, lookup, lookup-insert, lookup-delete, Distinct,
  Distinct-insert, Distinct-delete, str_eq, str_eq_iff, arith, Bool-cases, inl, inr, str_eq_refl, ℤ,
}
use mathlib.Core.List.{append_assoc}
use clusdr.Membership.{is_some}
use clusdr.Publish.{IdCache, make_room, add_id, seen_or_add, drop_oldest, new_id_cache}

unfoldable pub member : String → List String → Bool
member id [] = false
member id (x ∷ xs) = str_eq x id || member id xs

abbrev pub Different : List String → Type 0
Different [] = Unit
Different (x ∷ xs) = (member x xs ≡ false) × Different xs

-- The queue has each id once, the map has the same ids, and they are no more than the capacity.
pub record IsCache (c : IdCache) : Type 0 where
  pub distinct : Distinct c.ids
  pub different : Different c.queue
  pub agree : (id : String) → is_some (lookup id c.ids) ≡ member id c.queue
  pub bounded : length c.queue ≤ c.cap
  pub positive : 0 < c.cap

pub new-IsCache : (n : ℤ) → IsCache (new_id_cache n)
unfolding new_id_cache lookup member
new-IsCache n = record {
  distinct = tt;
  different = tt;
  agree = λ id. refl;
  bounded = ground arith;
  positive = ground arith;
}

member-snoc :
    (id x : String) (q : List String) → member id (q ++ (x ∷ [])) ≡ (member id q || str_eq x id)
unfolding member
member-snoc id x [] = ground arith
member-snoc id x (y ∷ q) = ground (arith, member-snoc id x q)

Different-snoc :
    (x : String) (q : List String) → member x q ≡ false → Different q → Different (q ++ (x ∷ []))
unfolding member
Different-snoc x [] n d = (refl, tt)
Different-snoc x (y ∷ q) n d = (
  ground (arith, member-snoc y x q, str_eq_iff x y, str_eq_iff y x),
  Different-snoc x q (ground arith) d.1,
)

-- Room for one more.
abbrev Roomy : IdCache → Type 0
Roomy c = IsCache c × (length c.queue < c.cap)

drop_oldest-Roomy :
    (old : String) (q : List String) (c : IdCache)
    → c.queue ≡ old ∷ q
    → IsCache c
    → Roomy (drop_oldest (old ∷ q) c)
unfolding member
drop_oldest-Roomy old q c e w =
    let d : Different (old ∷ q) = subst Different e w.different in
    let b : length (old ∷ q) ≤ c.cap = subst (λ r. length r ≤ c.cap) e w.bounded in
    (
      record {
        distinct = Distinct-delete old c.ids w.distinct;
        different = d.1;
        agree = λ id.
            let a : is_some (lookup id c.ids) ≡ member id (old ∷ q) =
              w.agree id ∙ ap (member id) e in
            ground (arith, lookup-delete old id c.ids w.distinct, str_eq_iff old id);
        bounded = omega (arith, b);
        positive = w.positive;
      },
      omega (arith, b),
    )

-- To split on whether the cache is full: then its queue has an oldest id.
room_cases {ℓ} :
    (P : IdCache → Type ℓ) (c : IdCache)
    → 0 < c.cap
    → (length c.queue < c.cap → P c)
    → ((old : String) (q : List String)
        → c.queue ≡ old ∷ q
        → c.cap ≤ length c.queue
        → P (drop_oldest (old ∷ q) c))
    → P (make_room c)
room_cases P c pos free full = elim (Bool-cases (leb c.cap (length c.queue))) [
  | inl b ↦ rw b (oldest c.queue refl (ground arith) (ground arith))
  | inr b ↦ rw b (free (ground arith))
]
  where
    oldest :
        (q : List String)
        → c.queue ≡ q
        → 0 < length c.queue
        → c.cap ≤ length c.queue
        → P (drop_oldest q c)
    oldest [] e l m =
        let z : length c.queue ≡ 0 = ap (λ r. length r) e in absurd (omega (arith, z, l))
    oldest (old ∷ q) e l m = full old q e m

add_id-IsCache :
    (id : String) (c : IdCache) → Roomy c → member id c.queue ≡ false → IsCache (add_id id c)
add_id-IsCache id c (w, r) n = record {
  distinct = Distinct-insert id tt c.ids w.distinct;
  different = Different-snoc id c.queue n w.different;
  agree = λ j. ground (arith, lookup-insert id j tt c.ids, member-snoc j id c.queue, w.agree j);
  bounded = ground (arith, length-append c.queue (id ∷ []));
  positive = w.positive;
}

pub seen_or_add-IsCache : (id : String) (c : IdCache) → IsCache c → IsCache (seen_or_add id c).0
unfolding seen_or_add member
seen_or_add-IsCache id c w = elim (Bool-cases (is_some (lookup id c.ids))) [
  | inl b ↦ rw b w
  | inr b ↦
      let n : member id c.queue ≡ false = sym (w.agree id) ∙ b in
      rw b (
        room_cases (λ r. IsCache (add_id id r)) c w.positive (λ l. add_id-IsCache id c (w, l) n)
          (λ old q e _.
            let m : member id (old ∷ q) ≡ false = sym (ap (member id) e) ∙ n in
            add_id-IsCache id (drop_oldest (old ∷ q) c) (drop_oldest-Roomy old q c e w)
              (ground arith)))
]

-- The id is in the queue, and `n` more can come after it before it is the oldest of a full one.
abbrev Recent : ℕ → String → IdCache → Type 0
Recent n id c =
    (older : List String) × (newer : List String) × (c.queue ≡ older ++ (id ∷ newer))
    × (length newer + n < c.cap)

shifted :
    (id x : String) (older newer q : List String)
    → q ≡ older ++ (id ∷ newer)
    → q ++ (x ∷ []) ≡ older ++ (id ∷ (newer ++ (x ∷ [])))
shifted id x older newer q e = ap (λ r. r ++ (x ∷ [])) e ∙ append_assoc older (id ∷ newer) (x ∷ [])

Recent-seen_or_add :
    (n : ℕ) (id x : String) (c : IdCache)
    → IsCache c
    → Recent (n + 1) id c
    → Recent n id (seen_or_add x c).0
unfolding seen_or_add
Recent-seen_or_add n id x c w (older, newer, e, l) = elim (Bool-cases (is_some (lookup x c.ids))) [
  | inl b ↦ rw b (older, newer, e, omega (arith, l))
  | inr b ↦ rw b (
      room_cases (λ r. Recent n id (add_id x r)) c w.positive
        (λ _. (older, newer ++ (x ∷ []), shifted id x older newer c.queue e, longer))
        (λ old q p m. evicted old q older (sym p ∙ e) (ap (λ r. length r) p) m))
]
  where
    longer : length (newer ++ (x ∷ [])) + n < c.cap
    longer = ground (arith, length-append newer (x ∷ []))

    evicted :
        (old : String) (q older : List String)
        → old ∷ q ≡ older ++ (id ∷ newer)
        → length c.queue ≡ suc (length q)
        → c.cap ≤ length c.queue
        → Recent n id (add_id x (drop_oldest (old ∷ q) c))
    evicted old q [] p k m =
        let z : suc (length q) ≡ suc (length newer) = ap (λ r. length r) p in
        absurd (omega (arith, z, k, m, l))
    evicted old q (y ∷ older) p k m =
        let t : q ≡ older ++ (id ∷ newer) = ground arith in
        (older, newer ++ (x ∷ []), shifted id x older newer q t, longer)

-- seenOrAdd on a list of ids, one after the other.
unfoldable pub see_all : List String → IdCache → IdCache
see_all [] c = c
see_all (id ∷ ids) c = see_all ids (seen_or_add id c).0

Recent-see_all :
    (id : String) (ids : List String) (c : IdCache)
    → IsCache c
    → Recent (length ids) id c
    → IsCache (see_all ids c) × Recent 0 id (see_all ids c)
unfolding see_all
Recent-see_all id [] c w r = (w, r)
Recent-see_all id (x ∷ ids) c w (older, newer, e, l) =
    Recent-see_all id ids (seen_or_add x c).0 (seen_or_add-IsCache x c w)
      (Recent-seen_or_add (length ids) id x c w (older, newer, e, omega (arith, l)))

member-middle : (id : String) (older newer : List String) → member id (older ++ (id ∷ newer)) ≡ true
unfolding member
member-middle id [] newer = ground (arith, str_eq_refl id)
member-middle id (y ∷ older) newer = ground (arith, member-middle id older newer)

seen_or_add-Recent :
    (id : String) (c : IdCache) → IsCache c → Recent 0 id c → (seen_or_add id c).1 ≡ true
unfolding seen_or_add
seen_or_add-Recent id c w (older, newer, e, l) =
    rw (w.agree id ∙ (ap (member id) e ∙ member-middle id older newer)) refl

Recent-fresh :
    (n : ℕ) (id : String) (c : IdCache)
    → IsCache c
    → (seen_or_add id c).1 ≡ false
    → n < c.cap
    → Recent n id (seen_or_add id c).0
unfolding seen_or_add
Recent-fresh n id c w h l = elim (Bool-cases (is_some (lookup id c.ids))) [
  | inl b ↦ absurd (let q : true ≡ false = rw b at h in ground arith)
  | inr b ↦ rw b (
      room_cases (λ r. Recent n id (add_id id r)) c w.positive
        (λ _. (c.queue, [], refl, omega (arith, l))) (λ old q p m. (q, [], refl, omega (arith, l))))
]

-- An id that the cache took as new is known as a duplicate again, whatever the ids that came after it, as
-- long as these are fewer than the capacity.
pub see_all-remembers :
    (id : String) (ids : List String) (c : IdCache)
    → IsCache c
    → (seen_or_add id c).1 ≡ false
    → length ids < c.cap
    → (seen_or_add id (see_all ids (seen_or_add id c).0)).1 ≡ true
see_all-remembers id ids c w h l =
    let (w', r) =
      Recent-see_all id ids (seen_or_add id c).0 (seen_or_add-IsCache id c w)
        (Recent-fresh (length ids) id c w h l) in
    seen_or_add-Recent id _ w' r
