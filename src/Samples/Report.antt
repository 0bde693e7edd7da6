-- ===== src/Samples/Report.antt =====
-- Tests of a request whose downstream does not answer in time.
use ocm_agent_v.Common.{ℕ, String, ◌≡◌, refl, Bool, false, none, List, [], ◌∷◌}
use ocm_agent_v.Value.{Value, str, bool, dict}
use ocm_agent_v.Graph.State.{GraphState}
use ocm_agent_v.Graph.Nodes.{Stream}
use ocm_agent_v.Graph.Events.{error, Parsed, parsed}
use ocm_agent_v.Plugin.Adapter.{TransportEnd, timed_out}
use ocm_agent_v.Plugin.Adapter.Uniioc.{UniiocParams, uniioc_run}
use ocm_agent_v.Chat.Walk.Reject.{content_of}
use ocm_agent_v.Chat.Walk.Report.{reported}
use ocm_agent_v.Samples.Data.{topic}

-- Every line is read as the same frame.
abbrev loads : String → Parsed
loads line = parsed (dict (("type", str "delta") ∷ ("data", content_of "a") ∷ []))

-- One line, and then the timeout.
abbrev post : String → Value → List String × TransportEnd
post url body = ("line" ∷ [], timed_out)

abbrev params : UniiocParams
params = record { base_url = "http://uniioc"; path = "/api/v1/chat" }

late : GraphState → Bool → ℕ → Stream
late state output n = uniioc_run loads post params state

abbrev late_error : Value
late_error = dict (
    ("code", str "DOWNSTREAM_TIMEOUT")
    ∷ ("message", str "Uniioc 接口响应超时，请稍后重试")
    ∷ ("retryable", bool false)
    ∷ [])

test_report : reported topic.error_messages late_error "DOWNSTREAM_TIMEOUT" ≡ record {
  type = error;
  payload = dict (
      ("code", str "DOWNSTREAM_TIMEOUT")
      ∷ ("message", str "late")
      ∷ ("retryable", bool false)
      ∷ []);
  event_id = none;
}
test_report = refl
