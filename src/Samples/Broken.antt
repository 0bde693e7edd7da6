-- ===== src/Samples/Broken.antt =====
-- Tests of a request whose adapter delivers a number.
use ocm_agent_v.Common.{
  Bool-cases, inl, inr, ℕ, ok, String, ◌≡◌, refl, Bool, true, some, List, [], ◌∷◌, ◌++◌, map, ◌==◌,
}
use ocm_agent_v.Value.{pos, str, num, contained, dict}
use ocm_agent_v.Repo.Models.{Db}
use ocm_agent_v.Repo.Sessions.{get_or_create}
use ocm_agent_v.Repo.Messages.{numbered, list_recent}
use ocm_agent_v.Plugin.Auth.{authorize}
use ocm_agent_v.Graph.State.{GraphState, merge}
use ocm_agent_v.Graph.Trace.{emissions}
use ocm_agent_v.Graph.Nodes.{finished, Stream, adapter_node, adapter_loop}
use ocm_agent_v.Graph.Nodes.Adapter.{content}
use ocm_agent_v.Graph.Events.{ChatEvent}
use ocm_agent_v.Topic.Registry.{get}
use ocm_agent_v.Chat.Flow.{CompiledTopic, described}
use ocm_agent_v.Chat.{meta_event, done_event, internal_error, handle}
use ocm_agent_v.Chat.Question.{question_of}
use ocm_agent_v.Chat.Walk.Places.{HasOwnNames}
use ocm_agent_v.Chat.Walk.Asked.{IsAdmitted}
use ocm_agent_v.Chat.Walk.Steps.{Permits, Prepares}
use ocm_agent_v.Chat.Walk.Broken.{AnswersInNoText, handle_breaks}
use ocm_agent_v.Samples.Data.{plain, some_db, topic, request, two_tries, delta_of}
use ocm_agent_v.Samples.Chats.{exception_text}
use ocm_agent_v.Samples.Walks.{
  as_described, interpreter, interpreter-FollowsWalks, opened, opened_db, mapping, allowed, calm,
}

abbrev number_stream : GraphState → Bool → ℕ → Stream
number_stream state output n = (
  delta_of "a" ∷ record (delta_of "b") { payload = dict (("content", num (pos 1)) ∷ []) } ∷ [],
  finished,
)

-- The topic with an adapter of its own, and what a request to it needs.
abbrev pub topic_with : (GraphState → Bool → ℕ → Stream) → CompiledTopic
topic_with run = record topic { adapters = ("ask_data", run) ∷ [] }

abbrev pub topics_with : (GraphState → Bool → ℕ → Stream) → List (String × CompiledTopic)
topics_with run = ("sales", topic_with run) ∷ []

pub admitted :
    (run : GraphState → Bool → ℕ → Stream)
    → IsAdmitted
        (topics_with run)
        (topic_with run)
        7
        "msg_A"
        "msg_Q"
        request
        opened
        some_db
        opened_db
unfolding get get_or_create
admitted run = record {
  known = refl;
  valid = refl;
  opened = refl;
  new_question = refl;
  new_answer = refl;
  two_ids = refl;
}

pub own_names : (run : GraphState → Bool → ℕ → Stream) → HasOwnNames (topic_with run).adapters
own_names run = ((refl, (refl, (refl, (refl, (refl, (refl, (refl, (refl, tt)))))))), (refl, tt))

pub permits :
    (run : GraphState → Bool → ℕ → Stream) → Permits (topic_with run) request "msg_A" allowed
unfolding authorize merge contained
permits run = (refl, λ h. refl)

pub prepares : (run : GraphState → Bool → ℕ → Stream) → Prepares (topic_with run)
prepares run = (λ s. (_, refl), calm)

abbrev odd_topic : CompiledTopic
odd_topic = topic_with number_stream

number_shown :
    (s : GraphState)
    → let es = (adapter_node plain number_stream true (some two_tries) s).0 in
      (map content (emissions "delta" es) ≡ map ok (str "a" ∷ num (pos 1) ∷ []))
      × (emissions "error" es ≡ [])
unfolding adapter_node adapter_loop emissions
number_shown s = (refl, refl)

odd : AnswersInNoText plain odd_topic
odd x run s found = elim (Bool-cases ("ask_data" == x)) [
  | inr e ↦ absurd (cc (rw e at found))
  | inl e ↦
      let its : number_stream ≡ run = cc (rw e at found) in
      rw⁻¹ its (rw e ("a" ∷ [], num (pos 1), [], refl, (number_shown s).0, (number_shown s).1))
]

handle_breaks_example :
    (shown : List ChatEvent) × (final : Db) × (handle plain exception_text as_described interpreter
        (topics_with number_stream)
        7
        "A"
        "Q"
        request
        some_db
      ≡ (
        meta_event request "msg_A" ∷ shown
            ++ internal_error odd_topic.error_messages "req_1" ∷ done_event "msg_A" ∷ [],
        ok tt,
        final,
      ))
    × (list_recent "th_1" 3 final
        ≡ numbered 7 (question_of request "msg_Q") some_db.messages ∷ list_recent "th_1" 2 some_db)
handle_breaks_example =
    handle_breaks plain exception_text as_described interpreter interpreter-FollowsWalks
      (topics_with number_stream) odd_topic 7 2 "A" "Q" request opened some_db opened_db mapping
      (described plain odd_topic mapping) allowed (admitted number_stream) refl refl
      (own_names number_stream) (permits number_stream) (prepares number_stream) ((refl, tt), refl)
      odd
