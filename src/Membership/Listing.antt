-- ===== src/Membership/Listing.antt =====
-- Members of membership/engine.go as its callers search it.
use clusdr.Prelude.{
  ◌≡◌, ◌≢◌, sym, ap, ◌∙◌, none, some, Option, List, [], ◌∷◌, String, arith, lookup, All, str_eq,
  str_eq_iff, str_ne, values, Distinct, subst, All-lookup, All-values, All-values_of, All-sort_by,
  All-sort_by_of, All-of-lookup, Bool-cases, Option-cases, inl, inr, if◌then◌else◌,
}
use clusdr.Membership.{Engine, Member, list_members}
use clusdr.Membership.Invariant.{IsConsistent, Entry}

-- What holds of the member under each id holds of each listed member, and the other way round.
pub All-list_members_of :
    (P : Member → Type 0) (e : Engine)
    → Distinct e.members
    → ((k : String) (m : Member) → lookup k e.members ≡ some m → P m)
    → All P (list_members e)
unfolding list_members
All-list_members_of P e d h =
    All-sort_by_of (λ m. m.id) P (values e.members)
      (All-values_of P e.members (All-of-lookup (λ x. P x.1) e.members d h))

pub All-list_members :
    (P : Member → Type 0) (e : Engine) (k : String) (m : Member)
    → All P (list_members e)
    → lookup k e.members ≡ some m
    → P m
unfolding list_members
All-list_members P e k m a l =
    All-lookup (λ x. P x.1) k {v = m} e.members
      (All-values P e.members (All-sort_by (λ m. m.id) P (values e.members) a)) l

-- A search of a list by id: the loop of memberByID in grpcserver/join.go.
unfoldable pub find_member : String → List Member → Option Member
find_member id [] = none
find_member id (m ∷ ms) = let rest = find_member id ms in if str_eq m.id id then some m else rest

found :
    (id : String) (ms : List Member) (m : Member) (P : Member → Type 0)
    → find_member id ms ≡ some m
    → All P ms
    → P m × (m.id ≡ id)
unfolding find_member
found id [] m P h a = ground arith
found id (x ∷ ms) m P h a = elim (Bool-cases (str_eq x.id id)) [
  | inl b ↦
      let e : x ≡ m = let q : some x ≡ some m = rw (find_member, b) at h in ground arith in
      (subst P e a.0, subst (λ y. y.id ≡ id) e ((str_eq_iff x.id id).0 b))
  | inr b ↦ let q : find_member id ms ≡ some m = rw (find_member, b) at h in found id ms m P q a.1
]

not_found : (id : String) (ms : List Member) → find_member id ms ≡ none → All (λ m. m.id ≢ id) ms
unfolding find_member
not_found id [] h = tt
not_found id (x ∷ ms) h = elim (Bool-cases (str_eq x.id id)) [
  | inl b ↦ absurd (let q : some x ≡ none = rw (find_member, b) at h in ground arith)
  | inr b ↦
      let q : find_member id ms ≡ none = rw (find_member, b) at h in
      (str_ne x.id id b, not_found id ms q)
]

-- The search of a consistent list finds what the engine has under the id.
pub find_member-lookup :
    (e : Engine) (id : String)
    → IsConsistent e
    → find_member id (list_members e) ≡ lookup id e.members
find_member-lookup e id c = elim (Option-cases (find_member id (list_members e))) [
  | inr (m, h) ↦
      let (l, p) = found id (list_members e) m (λ m. lookup m.id e.members ≡ some m) h own in
      h ∙ (sym l ∙ ap (λ i. lookup i e.members) p)
  | inl h ↦ elim (Option-cases (lookup id e.members)) [
    | inl l ↦ h ∙ sym l
    | inr (m, l) ↦ absurd (
        All-list_members (λ m. m.id ≢ id) e id m (not_found id (list_members e) h) l (named id m l))
  ]
]
  where
    named : (k : String) (m : Member) → lookup k e.members ≡ some m → m.id ≡ k
    named k m l = (All-lookup (Entry e.leader_id) k {v = m} e.members c.entries l).0

    own : All (λ m. lookup m.id e.members ≡ some m) (list_members e)
    own =
        All-list_members_of (λ m. lookup m.id e.members ≡ some m) e c.distinct
          (λ k m l. ap (λ i. lookup i e.members) (named k m l) ∙ l)
