-- ===== src/Samples/Downstreams.antt =====
-- Tests of the adapters and of the classifier.
use ocm_agent_v.Common.{
  if◌then◌else◌, is_space, ok, String, ◌<>◌, ◌≡◌, refl, false, arith, some, [], ◌∷◌, ◌==◌,
}
use ocm_agent_v.Value.{str, dict}
use ocm_agent_v.Graph.Trace.{attempts}
use ocm_agent_v.Graph.Events.{Parsed, parsed, not_json}
use ocm_agent_v.Graph.Nodes.{adapter_node}
use ocm_agent_v.Plugin.Adapter.{timed_out}
use ocm_agent_v.Plugin.Adapter.Metagc.{metagc_run}
use ocm_agent_v.Plugin.Adapter.Final.{Downstream, metagc, run_of, downstream_is_called_once}
use ocm_agent_v.Plugin.Classifier.{line_of, strip_end, read_answer}
use ocm_agent_v.Plugin.Classifier.Answers.{IsReason, read_answer-printed}
use ocm_agent_v.Samples.Data.{plain, asking, two_tries}

abbrev loads : String → Parsed
loads text =
    if text == "D"
    then parsed (dict (("type", str "delta") ∷ ("data", dict (("content", str "a") ∷ [])) ∷ []))
    else if text == "C"
    then parsed (dict (("content", str "a") ∷ []))
    else not_json "bad"

-- A stream that shows one chunk and then is too late.
abbrev late : Downstream
late =
    metagc (record { base_url = "http://m"; path = "/api/v1/chat/sse" })
      λ n url body. (record { event = "delta"; payload = "C" } ∷ [], timed_out)

downstream_is_called_once_example :
    attempts (adapter_node plain (run_of loads (λ v. "{}") late) false (some two_tries) asking).0
    ≡ 1 ∷ []
unfolding metagc_run
downstream_is_called_once_example =
    downstream_is_called_once loads (λ v. "{}") late plain false (some two_tries) asking
      (omega arith) ((str "a", refl), (tt, tt)) (λ e. cc)

one-IsReason : IsReason "asks for data"
unfolding line_of strip_end is_space
one-IsReason = record { one_line = refl; no_leading = refl; no_trailing = refl }

read_answer-printed_example :
    read_answer plain ("route: " <> "data_1" <> "\nreason: " <> "asks for data")
    ≡ ok (record { route = "data_1"; confidence = 100; reason = "asks for data" })
read_answer-printed_example =
    read_answer-printed plain "data_1" "asks for data" refl refl one-IsReason
