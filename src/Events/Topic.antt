-- ===== src/Events/Topic.antt =====
-- Topics and event types: events/topic.go.
use clusdr.Prelude.{
  ◌≡◌, ◌≢◌, ◌↔◌, String, some, arith, str_eq_iff, strip_prefix-join, join-strip_prefix,
}
use clusdr.Events.{custom_prefix, custom_type, topic_from_type}

topic_from_type_of :
    (kind topic : String)
    → kind ≡ custom_type topic
    → topic ≢ ""
    → topic_from_type kind ≡ some topic
unfolding topic_from_type custom_type
topic_from_type_of kind topic e h =
    ground (arith, strip_prefix-join custom_prefix topic, str_eq_iff topic "")

topic_from_type_inv :
    (kind topic : String)
    → topic_from_type kind ≡ some topic
    → (kind ≡ custom_type topic) × (topic ≢ "")
unfolding topic_from_type custom_type
topic_from_type_inv kind topic h =
    ground (arith, join-strip_prefix custom_prefix kind topic, str_eq_iff topic "")

-- A type yields a topic exactly when it is the type of that topic's events and the topic is not
-- empty: CustomType and TopicFromType are inverse on the topics that are not empty.
pub topic_from_type_iff :
    (kind topic : String)
    → (topic_from_type kind ≡ some topic) ↔ ((kind ≡ custom_type topic) × (topic ≢ ""))
topic_from_type_iff kind topic =
    (topic_from_type_inv kind topic, λ h. topic_from_type_of kind topic h.0 h.1)
