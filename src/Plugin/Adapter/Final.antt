-- ===== src/Plugin/Adapter/Final.antt =====
-- A downstream adapter behind the adapter node.
use ocm_agent_v.Plugin.Formats.{Formats}
use ocm_agent_v.Graph.Trace.{attempts}
use ocm_agent_v.Common.{
  All, Exn, Outcome, ok, raised, ℕ, ◌<◌, String, ◌<>◌, ◌≡◌, refl, ◌≢◌, Bool, Option, List, [], ◌∷◌,
}
use ocm_agent_v.Value.{Value}
use ocm_agent_v.Graph.State.{GraphState}
use ocm_agent_v.Graph.Events.{ChatEvent, Parsed}
use ocm_agent_v.Graph.Nodes.{RetryPolicy, max_attempts_of, failed, Stream, adapter_node}
use ocm_agent_v.Graph.Nodes.Once.{AllSettled, adapter_node_once}
use ocm_agent_v.Plugin.Adapter.Frames.{
  AllContent, Fine, FineResult, on_line-FineResult, on_raw-FineResult, on_sse-FineResult,
}
use ocm_agent_v.Plugin.Adapter.{
  TransportEnd, closed, timed_out, request_error, other_error, task_cancelled, request_body,
  FrameResult, shown, skipped, ends, continue_with, httpx_end, propagated,
}
use ocm_agent_v.Plugin.Adapter.Metagc.{MetagcParams, Sse, on_sse, metagc_events, metagc_run}
use ocm_agent_v.Plugin.Adapter.Uniioc.{UniiocParams, on_line, uniioc_events, uniioc_run}
use ocm_agent_v.Plugin.Adapter.KnowledgeCenter.{
  center_failure, center_end, on_raw, center_events, center_run,
}

-- One of the three adapters, with its parameters and what its transport does at each call.
pub data Downstream : Type 0 where
  metagc : MetagcParams → (ℕ → String → Value → List Sse × TransportEnd) → Downstream
  uniioc : UniiocParams → (ℕ → String → Value → List String × TransportEnd) → Downstream
  knowledge_center : String → (ℕ → String → String → List String × TransportEnd) → Downstream

abbrev pub run_of :
    (String → Parsed) → (Value → String) → Downstream → GraphState → Bool → ℕ → Stream
run_of loads dumps (metagc params post) state output n = metagc_run loads (post n) params state
run_of loads dumps (uniioc params post) state output n = uniioc_run loads (post n) params state
run_of loads dumps (knowledge_center url connect) state output n =
    center_run loads dumps (connect n) url state

abbrev AllFine : Stream → Type 0
AllFine s = All Fine s.0

continue_with-AllFine :
    (on_raise : Exn → Stream) (r : Outcome FrameResult) (rest : Stream)
    → ((e : Exn) → AllFine (on_raise e))
    → ((x : FrameResult) → r ≡ ok x → FineResult x)
    → AllFine rest
    → AllFine (continue_with on_raise r rest)
continue_with-AllFine on_raise (raised e) rest he hx h = he e
continue_with-AllFine on_raise (ok (shown ev)) (evs, last) he hx h = (hx (shown ev) refl, h)
continue_with-AllFine on_raise (ok skipped) rest he hx h = h
continue_with-AllFine on_raise (ok ends) rest he hx h = tt

httpx_end-AllFine :
    (timeout_text failure_text : String) (last : TransportEnd)
    → AllFine (httpx_end timeout_text failure_text last)
httpx_end-AllFine t u closed = tt
httpx_end-AllFine t u timed_out = ((λ c. refl), tt)
httpx_end-AllFine t u request_error = ((λ c. refl), tt)
httpx_end-AllFine t u other_error = tt
httpx_end-AllFine t u task_cancelled = tt

center_end-AllFine : (last : TransportEnd) → AllFine (center_end last)
center_end-AllFine closed = tt
center_end-AllFine timed_out = ((λ c. refl), tt)
center_end-AllFine request_error = ((λ c. refl), tt)
center_end-AllFine other_error = ((λ c. refl), tt)
center_end-AllFine task_cancelled = tt

module _ (loads : String → Parsed) where
  metagc_events-AllFine :
      (last : TransportEnd) (frames : List Sse) → AllFine (metagc_events loads frames last)
  unfolding metagc_events
  metagc_events-AllFine last [] = httpx_end-AllFine _ _ last
  metagc_events-AllFine last (sse ∷ later) =
      continue_with-AllFine propagated (on_sse loads sse) (metagc_events loads later last) (λ e. tt)
        (on_sse-FineResult loads sse) (metagc_events-AllFine last later)

  uniioc_events-AllFine :
      (last : TransportEnd) (lines : List String) → AllFine (uniioc_events loads lines last)
  unfolding uniioc_events
  uniioc_events-AllFine last [] = httpx_end-AllFine _ _ last
  uniioc_events-AllFine last (line ∷ lines) =
      continue_with-AllFine propagated (on_line loads line) (uniioc_events loads lines last)
        (λ e. tt) (on_line-FineResult loads line) (uniioc_events-AllFine last lines)

  center_events-AllFine :
      (last : TransportEnd) (raws : List String) → AllFine (center_events loads raws last)
  unfolding center_events
  center_events-AllFine last [] = center_end-AllFine last
  center_events-AllFine last (raw ∷ raws) =
      continue_with-AllFine (λ e. center_failure) (on_raw (loads raw))
        (center_events loads raws last) (λ e. ((λ c. refl), tt)) (on_raw-FineResult (loads raw))
        (center_events-AllFine last raws)

  run_of-AllFine :
      (dumps : Value → String) (d : Downstream) (state : GraphState) (output : Bool) (n : ℕ)
      → AllFine (run_of loads dumps d state output n)
  unfolding metagc_run uniioc_run center_run
  run_of-AllFine dumps (metagc params post) state output n =
      let (frames, last) = post n (params.base_url <> params.path) (request_body state) in
      metagc_events-AllFine last frames
  run_of-AllFine dumps (uniioc params post) state output n =
      let (lines, last) = post n (params.base_url <> params.path) (request_body state) in
      uniioc_events-AllFine last lines
  run_of-AllFine dumps (knowledge_center url connect) state output n =
      let (raws, last) = connect n url (dumps (request_body state)) in
      center_events-AllFine last raws

settle-AllFine : (evs : List ChatEvent) → All Fine evs → AllContent evs → AllSettled evs
settle-AllFine [] h c = tt
settle-AllFine (ev ∷ evs) (k, h) (p, c) = (k p, settle-AllFine evs h c)

-- Whatever the retry policy of its node says, a downstream adapter whose stream does not fail, and
-- all of whose `delta` events have a content, is called once: neither a timeout nor an error that
-- the downstream reports is retried.
pub downstream_is_called_once :
    (loads : String → Parsed) (dumps : Value → String) (d : Downstream) (f : Formats)
    (output : Bool) (retry : Option RetryPolicy) (state : GraphState)
    → 0 < max_attempts_of retry
    → AllContent (run_of loads dumps d state output 1).0
    → (run_of loads dumps d state output 1).1 ≢ failed
    → attempts (adapter_node f (run_of loads dumps d) output retry state).0 ≡ 1 ∷ []
downstream_is_called_once loads dumps d f output retry state some_try content open_end =
    adapter_node_once f (run_of loads dumps d) output retry state some_try
      (settle-AllFine (run_of loads dumps d state output 1).0
        (run_of-AllFine loads dumps d state output 1) content)
      open_end
