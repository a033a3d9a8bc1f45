-- ===== src/Watch/Filters.antt =====
-- Which events a client gets: matchesWatch of grpcserver/watch.go.
use clusdr.Prelude.{
  true, false, ◌≡◌, ◌≢◌, refl, ◌↔◌, ◌⊎◌, inl, inr, List, [], ◌∷◌, String, str_eq_iff, arith,
  Option-cases,
}
use clusdr.Events.{watch_sync, watch_gap, custom_type, topic_from_type, normalize_topic}
use clusdr.Events.Topic.{topic_from_type_iff}
use clusdr.Watch.{WatchRequest, matches_type, listed, topic_listed, passes_topics, matches_watch}

-- Some element of a list satisfies a predicate.
abbrev pub Any : (String → Type 0) → List String → Type 0
Any P [] = ⊥
Any P (x ∷ xs) = P x ⊎ Any P xs

listed_iff : (xs : List String) (kind : String) → (listed xs kind ≡ true) ↔ Any (λ x. x ≡ kind) xs
unfolding listed
listed_iff [] kind = (λ h. ground arith, λ h. absurd h)
listed_iff (x ∷ xs) kind = ground (arith, listed_iff xs kind, str_eq_iff x kind)

topic_listed_iff :
    (xs : List String) (topic : String)
    → (topic_listed xs topic ≡ true) ↔ Any (λ x. normalize_topic x ≡ topic) xs
unfolding topic_listed
topic_listed_iff [] topic = (λ h. ground arith, λ h. absurd h)
topic_listed_iff (x ∷ xs) topic =
    ground (arith, topic_listed_iff xs topic, str_eq_iff (normalize_topic x) topic)

-- An event type passes a filter that is empty or lists it.
abbrev pub PassesTypes : List String → String → Type 0
PassesTypes types kind = (types ≡ []) ⊎ Any (λ x. x ≡ kind) types

-- An event type passes topics that are empty, or one of which is, with or without its prefix, the
-- topic whose events have that type.
abbrev pub PassesTopics : List String → String → Type 0
PassesTopics topics kind =
    (topics ≡ [])
    ⊎ ((topic : String) × (kind ≡ custom_type topic)
        × (topic ≢ "")
        × Any (λ x. normalize_topic x ≡ topic) topics)

matches_type_iff :
    (types : List String) (kind : String)
    → (matches_type types kind ≡ true) ↔ PassesTypes types kind
matches_type_iff [] kind = (λ h. inl refl, λ h. refl)
matches_type_iff (t ∷ ts) kind = ground (arith, listed_iff (t ∷ ts) kind)

passes_topics_iff :
    (topics : List String) (kind : String)
    → (passes_topics topics kind ≡ true) ↔ PassesTopics topics kind
passes_topics_iff [] kind = (λ h. inl refl, λ h. refl)
passes_topics_iff (t ∷ ts) kind = (to, from)
  where
    to : passes_topics (t ∷ ts) kind ≡ true → PassesTopics (t ∷ ts) kind
    to h = elim (Option-cases (topic_from_type kind)) [
      | inl e ↦ absurd (let c : false ≡ true = rw e at h in ground arith)
      | inr (topic, e) ↦
          let c : topic_listed (t ∷ ts) topic ≡ true = rw e at h in
          let (k, n) = (topic_from_type_iff kind topic).0 e in
          inr (topic, k, n, (topic_listed_iff (t ∷ ts) topic).0 c)
    ]

    from : PassesTopics (t ∷ ts) kind → passes_topics (t ∷ ts) kind ≡ true
    from p = elim p [
      | inl e ↦ absurd (ground arith)
      | inr (topic, k, n, a) ↦
          rw ((topic_from_type_iff kind topic).1 (k, n)) ((topic_listed_iff (t ∷ ts) topic).1 a)
    ]

-- A client gets an event of a type exactly if it is one of the protocol's own, or passes both filters:
-- it is listed in the event types, or none are, and it is the type of the events of one of the topics, or
-- there are none.
pub matches_watch_iff :
    (req : WatchRequest) (kind : String)
    → (matches_watch req kind ≡ true) ↔ (
        (kind ≡ watch_sync)
        ⊎ (kind ≡ watch_gap)
        ⊎ (PassesTopics req.topics kind × PassesTypes req.event_types kind))
unfolding matches_watch
matches_watch_iff req kind = ground (
  arith,
  str_eq_iff kind watch_sync,
  str_eq_iff kind watch_gap,
  passes_topics_iff req.topics kind,
  matches_type_iff req.event_types kind,
)
