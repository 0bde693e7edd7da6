-- ===== src/Graph/Nodes/Once.antt =====
-- When the adapter node does not retry.
use ocm_agent_v.Common.{
  ltb, All, ok, ℕ, zero, suc, ◌<◌, ◌≡◌, refl, ap, ◌∙◌, ◌≢◌, ◌⊎◌, inl, inr, Bool, true, false,
  Option, List, [], ◌∷◌, ◌++◌, arith,
}
use ocm_agent_v.Value.{Value, bool, get_item, get_method}
use ocm_agent_v.Plugin.Formats.{Formats}
use ocm_agent_v.Graph.State.{GraphState}
use ocm_agent_v.Graph.Trace.{Effect, Run, attempts}
use ocm_agent_v.Graph.Trace.Laws.{attempts-append}
use ocm_agent_v.Graph.Events.{
  EventType, meta, thinking, progress, delta, tool, error, done, ChatEvent,
}
use ocm_agent_v.Graph.Nodes.{
  RetryPolicy, max_attempts_of, backoff_of, StreamEnd, finished, cancelled, failed, Stream,
  returned, stopped, Round, shows, stream_end, on_event, consume, after_round, adapter_loop,
  adapter_node,
}
use ocm_agent_v.Graph.Nodes.Attempts.{consume-StaysInRound}

-- A `delta` can be read, and an `error` does not ask for a retry.
abbrev pub IsSettled : EventType → Value → Type 0
IsSettled delta d = (c : Value) × (get_item d "content" ≡ ok c)
IsSettled error d = get_method d "retryable" (bool false) ≡ ok (bool false)
IsSettled _ d = Unit

abbrev pub AllSettled : List ChatEvent → Type 0
AllSettled = All (λ (ev : ChatEvent). IsSettled ev.type ev.payload)

-- The round ends the node.
abbrev EndsNode : Round → Type 0
EndsNode r = (r.outcome ≡ returned) ⊎ (r.outcome ≡ stopped)

shows-EndsNode : (output : Bool) (e : Effect) (r : Round) → EndsNode r → EndsNode (shows output e r)
shows-EndsNode true e r h = h
shows-EndsNode false e r h = h

stream_end-EndsNode :
    (cs : List Value) (last : StreamEnd) → last ≢ failed → EndsNode (stream_end cs last)
stream_end-EndsNode cs finished h = inl refl
stream_end-EndsNode cs cancelled h = inr refl
stream_end-EndsNode cs failed h = absurd (h refl)

module _ (output more : Bool) where
  on_event-EndsNode :
      (type : EventType) (d : Value) (cs : List Value) (rest : List Value → Round)
      → IsSettled type d
      → ((cs' : List Value) → EndsNode (rest cs'))
      → EndsNode (on_event output more cs type d rest)
  on_event-EndsNode delta d cs rest (c, h) k =
      rw (on_event, h) (shows-EndsNode output _ _ (k (cs ++ c ∷ [])))
  on_event-EndsNode tool d cs rest h k = shows-EndsNode output _ _ (k cs)
  on_event-EndsNode error d cs rest h k = rw (on_event, h) (inl refl)
  on_event-EndsNode meta d cs rest h k = k cs
  on_event-EndsNode thinking d cs rest h k = k cs
  on_event-EndsNode progress d cs rest h k = k cs
  on_event-EndsNode done d cs rest h k = k cs

  consume-EndsNode :
      (evs : List ChatEvent) (last : StreamEnd) (cs : List Value)
      → AllSettled evs
      → last ≢ failed
      → EndsNode (consume output more cs evs last)
  unfolding consume
  consume-EndsNode [] last cs h open_end = stream_end-EndsNode cs last open_end
  consume-EndsNode (ev ∷ evs) last cs (p, h) open_end =
      on_event-EndsNode ev.type ev.payload cs (λ cs'. consume output more cs' evs last) p
        (λ cs'. consume-EndsNode evs last cs' h open_end)

module _ (f : Formats) (output : Bool) (run : ℕ → Stream) (tries backoff : ℕ) where
  after_round_ended :
      (n : ℕ) (r : Round) (rest : Run GraphState)
      → EndsNode r
      → attempts (after_round f output run tries backoff n r.chunks r.outcome rest).0 ≡ []
  unfolding attempts
  after_round_ended n r rest (inl e) = rw e refl
  after_round_ended n r rest (inr e) = rw e refl

  adapter_loop_once :
      (left : ℕ)
      → AllSettled (run 1).0
      → (run 1).1 ≢ failed
      → attempts (adapter_loop f output run tries backoff (suc left) 1 []).0 ≡ 1 ∷ []
  unfolding adapter_loop attempts
  adapter_loop_once left h open_end =
      let (events, last) = run 1 in
      let round : Round = consume output (ltb 1 tries) [] events last in
      let rest = adapter_loop f output run tries backoff left 2 round.chunks in
      let later = after_round f output run tries backoff 1 round.chunks round.outcome rest in
      let quiet = (consume-StaysInRound output (ltb 1 tries) events last []).0 in
      let nothing =
        after_round_ended 1 round rest
          (consume-EndsNode output (ltb 1 tries) events last [] h open_end) in
      ap (λ l. 1 ∷ l) (attempts-append round.effects later.0 ∙ rw (quiet, nothing) refl)

-- If the first stream does not fail, and each of its events can be read and asks for no retry, the
-- node calls its adapter once, whatever the policy.
pub adapter_node_once :
    (f : Formats) (run : GraphState → Bool → ℕ → Stream) (output : Bool)
    (retry : Option RetryPolicy) (state : GraphState)
    → 0 < max_attempts_of retry
    → AllSettled (run state output 1).0
    → (run state output 1).1 ≢ failed
    → attempts (adapter_node f run output retry state).0 ≡ 1 ∷ []
unfolding adapter_node
adapter_node_once f run output retry state some_try h open_end =
    by_tries (max_attempts_of retry) some_try
  where
    by_tries :
        (tries : ℕ)
        → 0 < tries
        → attempts (adapter_loop f output (run state output) tries (backoff_of retry) tries 1 []).0
          ≡ 1 ∷ []
    by_tries zero lt = absurd (omega arith)
    by_tries (suc left) lt =
        adapter_loop_once f output (run state output) (suc left) (backoff_of retry) left h open_end
