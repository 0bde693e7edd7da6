-- ===== src/Topic/Registry.antt =====
-- src/ma/core/topic/registry.py: the topics by their ids, in the order of registration. What is held
-- for a topic does not matter here.
pub mod Laws
use ocm_agent_v.Common.{
  topic_conflict, topic_not_found, Outcome, ok, raised, find_entry, String, ◌<>◌, none, some, List,
  [], ◌∷◌, ◌++◌,
}

module _ {ℓ} {A : Type ℓ} where
  unfoldable pub register : String → A → List (String × A) → Outcome (List (String × A))
  register id topic topics = elim (find_entry id topics) [
    | none ↦ ok (topics ++ (id, topic) ∷ [])
    | some _ ↦ raised (topic_conflict id)
  ]

  unfoldable pub get : String → List (String × A) → Outcome A
  get id topics = elim (find_entry id topics) [
    | none ↦ raised (topic_not_found id)
    | some topic ↦ ok topic
  ]
