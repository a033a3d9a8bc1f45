-- ===== src/Events/Examples.antt =====
-- Topics on concrete inputs: tests of the definitions, and the theorem at work.
use clusdr.Prelude.{String, ◌≡◌, ◌≢◌, ◌↔◌, refl, some, none, strip_prefix, join}
use clusdr.Events.{custom_type, normalize_topic, topic_from_type}
use clusdr.Events.Topic.{topic_from_type_iff}

program : Unit {0}
unfolding custom_type normalize_topic topic_from_type strip_prefix join
program = tt

prefix_alone : topic_from_type "custom." ≡ none
unfolding program
prefix_alone = refl

-- A topic that carries the prefix already gets it twice, and its filter key is not its topic.
prefix_twice :
    (custom_type "custom.deploy" ≡ "custom.custom.deploy")
    × (normalize_topic "custom.deploy" ≡ "deploy")
unfolding program
prefix_twice = (refl, refl)

topic_from_type_iff_example :
    (topic_from_type "custom.deploy" ≡ some "deploy")
    ↔ (("custom.deploy" ≡ custom_type "deploy") × (◌≢◌ {A = String} "deploy" ""))
topic_from_type_iff_example = topic_from_type_iff "custom.deploy" "deploy"
