-- ===== src/Plugin/Adapter/Metagc.antt =====
-- src/ma/plugins/adapter/metagc.py: server-sent events over HTTP.
use ocm_agent_v.Common.{
  if◌then◌else◌, value_error, Outcome, ok, raised, String, ◌<>◌, List, [], ◌∷◌, ◌==◌, ◌>>=◌,
}
use ocm_agent_v.Value.{end, Value, obj}
use ocm_agent_v.Graph.State.{GraphState}
use ocm_agent_v.Graph.Events.{delta, Parsed, parsed, not_json}
use ocm_agent_v.Graph.Nodes.{Stream}
use ocm_agent_v.Plugin.Adapter.{
  TransportEnd, request_body, downstream, reported_error, FrameResult, shown, skipped, ends,
  continue_with, httpx_end, propagated,
}

-- `timeout_ms` is left to the transport.
pub record MetagcParams : Type 0 where
  pub base_url : String
  pub path : String

-- A frame as httpx_sse gives it.
pub record Sse : Type 0 where
  pub event : String
  pub payload : String

abbrev parsed_data : Parsed → Outcome Value
parsed_data (parsed v) = ok v
parsed_data (not_json text) = raised (value_error text)

-- `json.loads(sse.data) if sse.data else {}`
abbrev pub data_of : (String → Parsed) → String → Outcome Value
data_of loads text = if text == "" then ok (obj end) else parsed_data (loads text)

-- The body of the loop.
abbrev pub on_sse : (String → Parsed) → Sse → Outcome FrameResult
on_sse loads sse =
    if sse.event == "meta"
    then ok skipped
    else if sse.event == "delta"
    then (do d ← data_of loads sse.payload; ok (shown (downstream delta d)))
    else if sse.event == "error"
    then (do d ← data_of loads sse.payload; ev ← reported_error "MetaGC 上游出错" d; ok (shown ev))
    else if sse.event == "done"
    then ok ends
    else ok skipped

abbrev metagc_end : TransportEnd → Stream
metagc_end = httpx_end "MetaGC 接口响应超时，请稍后重试" "调用下游失败，请稍后重试"

unfoldable pub metagc_events : (String → Parsed) → List Sse → TransportEnd → Stream
metagc_events loads [] last = metagc_end last
metagc_events loads (sse ∷ later) last =
    continue_with propagated (on_sse loads sse) (metagc_events loads later last)

-- `MetaGCAdapter.run`; `post` is the request with `aconnect_sse`.
unfoldable pub metagc_run :
    (String → Parsed)
    → (String → Value → List Sse × TransportEnd)
    → MetagcParams
    → GraphState
    → Stream
unfolding metagc_events
metagc_run loads post params state =
    let (frames, last) = post (params.base_url <> params.path) (request_body state) in
    metagc_events loads frames last
