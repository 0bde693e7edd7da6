-- ===== src/Plugin/Adapter/KnowledgeCenter.antt =====
-- src/ma/plugins/adapter/knowledge_center.py: text frames of a WebSocket.
use ocm_agent_v.Common.{Outcome, ok, String, List, [], ◌∷◌}
use ocm_agent_v.Value.{Value, str}
use ocm_agent_v.Graph.State.{GraphState}
use ocm_agent_v.Graph.Events.{Parsed, parsed, not_json}
use ocm_agent_v.Graph.Nodes.{finished, cancelled, Stream}
use ocm_agent_v.Plugin.Adapter.{
  TransportEnd, closed, timed_out, request_error, other_error, task_cancelled, request_body,
  downstream_error, FrameResult, skipped, on_typed_frame, continue_with,
}

abbrev pub center_failure : Stream
center_failure = (downstream_error (str "DOWNSTREAM_ERROR") (str "调用知识中心失败，请稍后重试") ∷ [], finished)

-- `except TimeoutError` and `except Exception`: only a cancellation leaves the generator.
abbrev pub center_end : TransportEnd → Stream
center_end closed = ([], finished)
center_end timed_out =
    (downstream_error (str "DOWNSTREAM_TIMEOUT") (str "知识中心接口响应超时，请稍后重试") ∷ [], finished)
center_end request_error = center_failure
center_end other_error = center_failure
center_end task_cancelled = ([], cancelled)

-- The body of the loop: a frame that is no JSON is skipped.
abbrev pub on_raw : Parsed → Outcome FrameResult
on_raw (parsed frame) = on_typed_frame "知识中心查询出错" frame
on_raw (not_json text) = ok skipped

unfoldable pub center_events : (String → Parsed) → List String → TransportEnd → Stream
center_events loads [] last = center_end last
center_events loads (raw ∷ raws) last =
    continue_with (λ e. center_failure) (on_raw (loads raw)) (center_events loads raws last)

-- `KnowledgeCenterAdapter.run`; `connect` is the connection, with the text that is sent.
unfoldable pub center_run :
    (String → Parsed)
    → (Value → String)
    → (String → String → List String × TransportEnd)
    → String
    → GraphState
    → Stream
unfolding center_events
center_run loads dumps connect ws_url state =
    let (raws, last) = connect ws_url (dumps (request_body state)) in center_events loads raws last
