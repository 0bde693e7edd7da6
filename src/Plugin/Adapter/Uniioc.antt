-- ===== src/Plugin/Adapter/Uniioc.antt =====
-- src/ma/plugins/adapter/uniioc.py: lines of JSON over HTTP.
use ocm_agent_v.Common.{if◌then◌else◌, Outcome, ok, String, ◌<>◌, List, [], ◌∷◌, ◌==◌}
use ocm_agent_v.Value.{Value}
use ocm_agent_v.Graph.State.{GraphState}
use ocm_agent_v.Graph.Events.{Parsed, parsed, not_json}
use ocm_agent_v.Graph.Nodes.{Stream}
use ocm_agent_v.Plugin.Adapter.{
  TransportEnd, request_body, FrameResult, skipped, on_typed_frame, continue_with, httpx_end,
  propagated,
}

-- `timeout_ms` is left to the transport.
pub record UniiocParams : Type 0 where
  pub base_url : String
  pub path : String

abbrev pub on_parsed_line : Parsed → Outcome FrameResult
on_parsed_line (parsed frame) = on_typed_frame "Uniioc 上游出错" frame
on_parsed_line (not_json text) = ok skipped

-- The body of the loop: an empty line and one that is no JSON are skipped.
abbrev pub on_line : (String → Parsed) → String → Outcome FrameResult
on_line loads line = if line == "" then ok skipped else on_parsed_line (loads line)

abbrev uniioc_end : TransportEnd → Stream
uniioc_end = httpx_end "Uniioc 接口响应超时，请稍后重试" "调用 Uniioc 失败，请稍后重试"

unfoldable pub uniioc_events : (String → Parsed) → List String → TransportEnd → Stream
uniioc_events loads [] last = uniioc_end last
uniioc_events loads (line ∷ lines) last =
    continue_with propagated (on_line loads line) (uniioc_events loads lines last)

-- `UniiocAdapter.run`; `post` is the request that is streamed line by line.
unfoldable pub uniioc_run :
    (String → Parsed)
    → (String → Value → List String × TransportEnd)
    → UniiocParams
    → GraphState
    → Stream
unfolding uniioc_events
uniioc_run loads post params state =
    let (lines, last) = post (params.base_url <> params.path) (request_body state) in
    uniioc_events loads lines last
