-- ===== src/Samples/Nodes.antt =====
-- Tests of the graph's nodes.
use ocm_agent_v.Common.{
  nat_eq, Bool-cases, count_up, replicate, intent_failed, ok, ℕ, ◌<◌, String, ◌≡◌, refl, ◌⊎◌, inl,
  inr, true, some, List, [], ◌∷◌, map, reverse, arith,
}
use ocm_agent_v.Value.{Value, str}
use ocm_agent_v.Graph.State.{GraphState, no_update}
use ocm_agent_v.Graph.Trace.{Run, emissions, attempts, sleeps, calls_and_waits}
use ocm_agent_v.Graph.Nodes.{intent_node, adapter_node}
use ocm_agent_v.Graph.Nodes.Intent.{NeverCancelled, IsSettled, intent_node_answers}
use ocm_agent_v.Graph.Nodes.Adapter.{content, adapter_node_shows}
use ocm_agent_v.Graph.Nodes.Attempts.{again, adapter_node_calls}
use ocm_agent_v.Graph.Nodes.Errors.{EndsInError, adapter_node_errors}
use ocm_agent_v.Graph.Nodes.Partial.{adapter_node_partial}
use ocm_agent_v.Graph.Builtins.{flatten_turns, build_history}
use ocm_agent_v.Graph.Builtins.History.{build_history_exact}
use ocm_agent_v.Samples.Data.{
  plain, asking, two_tries, streams, data_route, classify, question, answer, next_question,
}

abbrev labels : List String
labels = "data" ∷ []

abbrev classified : Run GraphState
classified = intent_node plain "data" labels classify (some two_tries) asking

calm : NeverCancelled (classify asking)
calm n = elim (Bool-cases (nat_eq n 1)) [ inl e ↦ rw e (λ h. cc) | inr e ↦ rw e (λ h. cc) ]

intent_node_answers_example :
    IsSettled plain "data" labels data_route classified.1
    × (attempts classified.0 ≡ count_up 1 2)
    × (sleeps classified.0 ≡ replicate 1 100)
intent_node_answers_example =
    intent_node_answers plain "data" labels classify (some two_tries) asking 1 data_route
      (omega arith) ((intent_failed "timeout", refl, refl), refl)

abbrev adapted : Run GraphState
adapted = adapter_node plain streams true (some two_tries) asking

test_adapted : attempts adapted.0 ≡ 1 ∷ 2 ∷ []
unfolding adapter_node attempts
test_adapted = refl

adapter_node_shows_example :
    (u : GraphState) × (final : List Value) × (adapted.1 ≡ ok u)
    × (u.answer_chunks ≡ some final)
    × (map ok final ≡ map content (emissions "delta" adapted.0))
adapter_node_shows_example = adapter_node_shows plain streams (some two_tries) asking

adapter_node_calls_example : (k : ℕ) × (k < 2) × (calls_and_waits adapted.0 ≡ inl 1 ∷ again 2 k 100)
adapter_node_calls_example =
    adapter_node_calls plain streams true (some two_tries) asking (omega arith)

adapter_node_errors_example : (emissions "error" adapted.0 ≡ []) ⊎ EndsInError adapted.0
adapter_node_errors_example = adapter_node_errors plain streams true (some two_tries) asking

adapter_node_partial_example :
    adapted.1 ≡ ok (record no_update { answer_chunks = some (str "a" ∷ str "b" ∷ []) })
adapter_node_partial_example =
    adapter_node_partial plain streams (some two_tries) asking 1 (str "a" ∷ str "b" ∷ [])
      (omega arith) (str "a" ∷ [], str "b" ∷ [], refl, refl, refl)

build_history_exact_example :
    build_history 1
      (next_question ∷ reverse (flatten_turns ((question, answer) ∷ (question, answer) ∷ [])))
    ≡ flatten_turns ((question, answer) ∷ [])
build_history_exact_example =
    build_history_exact 1 ((question, answer) ∷ []) ((question, answer) ∷ []) next_question
      (omega arith) (refl, (refl, tt)) (inl refl)
