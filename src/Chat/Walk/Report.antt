-- ===== src/Chat/Walk/Report.antt =====
-- A request whose adapter reports an error.
use ocm_agent_v.Common.{map, find_entry, ok, ℕ, String, ◌≡◌, Bool, true, some, List, [], ◌∷◌, ◌++◌}
use ocm_agent_v.Value.{Value, str, get_method, truthy}
use ocm_agent_v.Plugin.Formats.{Formats}
use ocm_agent_v.Graph.State.{GraphState}
use ocm_agent_v.Graph.Trace.{Effect, emit, emissions}
use ocm_agent_v.Graph.Nodes.{Stream, adapter_node}
use ocm_agent_v.Graph.Events.{error, ChatEvent}
use ocm_agent_v.Chat.Flow.{CompiledTopic}
use ocm_agent_v.Chat.{chat_event, with_message}
use ocm_agent_v.Chat.Walk.Reject.{content_of}

-- The adapters show text and then an error, which has a text as its code.
abbrev pub AnswersInError : Formats → CompiledTopic → Type 0
AnswersInError f topic =
    (x : String) (run : GraphState → Bool → ℕ → Stream) (s : GraphState)
    → find_entry x topic.adapters ≡ some run
    → let es = (adapter_node f run true (find_entry x topic.adapter_retries) s).0 in
      (texts : List String) × (fs : List Effect) × (d : Value) × (code : String) × (es
        ≡ fs ++ emit "error" d ∷ [])
      × (emissions "error" fs ≡ [])
      × (emissions "delta" es ≡ map content_of texts)
      × (get_method d "code" (str "INTERNAL") ≡ ok (str code))
      × (truthy d ≡ true)

-- The error as the user sees it: with the topic's text for its code, if there is one.
abbrev pub reported : List (String × String) → Value → String → ChatEvent
reported messages d code = chat_event error (with_message d (find_entry code messages))

-- One of the topic's adapters, run by its node, showed these texts and ended with the error `d`, its
-- only one, which has the code `code`.
abbrev pub IsReported : Formats → CompiledTopic → List String → Value → String → Type 0
IsReported f topic texts d code =
    (x : String) × (run : GraphState → Bool → ℕ → Stream) × (s : GraphState) × (fs : List Effect)
    × (find_entry x topic.adapters ≡ some run)
    × ((adapter_node f run true (find_entry x topic.adapter_retries) s).0
        ≡ fs ++ emit "error" d ∷ [])
    × (emissions "error" fs ≡ [])
    × (emissions "delta" fs ≡ map content_of texts)
    × (get_method d "code" (str "INTERNAL") ≡ ok (str code))
