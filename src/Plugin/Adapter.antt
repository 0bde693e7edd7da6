-- ===== src/Plugin/Adapter.antt =====
-- src/ma/plugins/adapter: what the three downstream adapters share. A transport (httpx, httpx_sse,
-- websockets) is a parameter: what a request gets, and how the reading of it ends.
pub mod Metagc
pub mod KnowledgeCenter
pub mod Uniioc
pub mod Frames
pub mod Final
pub mod Noise
use ocm_agent_v.Common.{
  if◌then◌else◌, Exn, Outcome, ok, raised, String, Bool, false, Option, none, some, [], ◌∷◌, ◌==◌,
  ◌>>=◌,
}
use ocm_agent_v.Value.{end, Value, null, str, bool, obj, get_method, dict}
use ocm_agent_v.Graph.State.{GraphState, text_or_empty, dict_or_empty}
use ocm_agent_v.Graph.Events.{EventType, delta, error, ChatEvent}
use ocm_agent_v.Graph.Nodes.{finished, cancelled, failed, Stream}
use ocm_agent_v.Graph.Builtins.{non_empty}

-- The end of the stream, a timeout, another error of the transport's own, any other exception, or
-- the cancellation of the task.
pub data TransportEnd : Type 0 where
  closed timed_out request_error other_error task_cancelled : TransportEnd

-- `state.get("enriched_question") or state.get("question", "")`
abbrev pub question_of : GraphState → String
question_of state = non_empty state.enriched_question (text_or_empty state.question)

abbrev optional_id : Option String → Value
optional_id none = null
optional_id (some id) = str id

-- The body of a request.
abbrev pub request_body : GraphState → Value
request_body state = dict (
    ("question", str (question_of state))
    ∷ ("biz_params", obj (dict_or_empty state.biz_params))
    ∷ ("request_id", optional_id state.request_id)
    ∷ [])

abbrev pub downstream : EventType → Value → ChatEvent
downstream type payload = record { type = type; payload = payload; event_id = none }

-- An `error` event; `retryable` is False in each of them.
abbrev pub downstream_error : Value → Value → ChatEvent
downstream_error code message =
    downstream error (dict (("code", code) ∷ ("message", message) ∷ ("retryable", bool false) ∷ []))

-- The event of an error that the downstream reports.
abbrev pub reported_error : String → Value → Outcome ChatEvent
reported_error message d = do
  code ← get_method d "code" (str "DOWNSTREAM_ERROR")
  text ← get_method d "message" (str message)
  ok (downstream_error code text)

-- `v == "…"`
abbrev pub is_word : String → Value → Bool
is_word t (str s) = s == t
is_word t v = false

-- What one frame does: an event, nothing, or the end of the stream.
pub data FrameResult : Type 0 where
  shown : ChatEvent → FrameResult
  skipped ends : FrameResult

abbrev pub shown_if_ok : Outcome ChatEvent → Outcome FrameResult
shown_if_ok (ok ev) = ok (shown ev)
shown_if_ok (raised e) = raised e

-- The body of the loop over frames of knowledge_center.py and of uniioc.py, after `json.loads`.
abbrev pub on_typed_frame : String → Value → Outcome FrameResult
on_typed_frame message frame = do
  ft ← get_method frame "type" null
  fd ← get_method frame "data" (obj end)
  if is_word "delta" ft
      then ok (shown (downstream delta fd))
      else if is_word "error" ft
      then shown_if_ok (reported_error message fd)
      else if is_word "done" ft
      then ok ends
      else ok skipped

-- The stream after one frame; `on_raise` is what an exception leads to.
abbrev pub continue_with : (Exn → Stream) → Outcome FrameResult → Stream → Stream
continue_with on_raise (raised e) rest = on_raise e
continue_with on_raise (ok (shown ev)) (evs, last) = (ev ∷ evs, last)
continue_with on_raise (ok skipped) rest = rest
continue_with on_raise (ok ends) rest = ([], finished)

-- `except TimeoutException` and `except RequestError`; what is not caught leaves the generator.
abbrev pub httpx_end : String → String → TransportEnd → Stream
httpx_end timeout_text failure_text closed = ([], finished)
httpx_end timeout_text failure_text timed_out =
    (downstream_error (str "DOWNSTREAM_TIMEOUT") (str timeout_text) ∷ [], finished)
httpx_end timeout_text failure_text request_error =
    (downstream_error (str "DOWNSTREAM_ERROR") (str failure_text) ∷ [], finished)
httpx_end timeout_text failure_text other_error = ([], failed)
httpx_end timeout_text failure_text task_cancelled = ([], cancelled)

abbrev pub propagated : Exn → Stream
propagated e = ([], failed)
