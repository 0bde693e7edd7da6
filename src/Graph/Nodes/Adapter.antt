-- ===== src/Graph/Nodes/Adapter.antt =====
-- What the adapter node shows to the client, and what it keeps for the answer.
use ocm_agent_v.Graph.State.{GraphState}
use ocm_agent_v.Plugin.Formats.{Formats}
use ocm_agent_v.Common.{
  ltb, Bool-cases, Outcome, ok, raised, ℕ, zero, suc, ◌+◌, ◌≡◌, refl, sym, ap, ◌∙◌, inl, inr, Bool,
  true, false, ◌&&◌, Option, some, List, [], ◌∷◌, ◌++◌, map, append_assoc, append-nil, map-append,
}
use ocm_agent_v.Value.{Value, bool, truthy, get_item, get_method}
use ocm_agent_v.Graph.Trace.{Effect, emit, Run, emissions}
use ocm_agent_v.Graph.Trace.Laws.{emissions-append}
use ocm_agent_v.Graph.Events.{EventType, delta, tool, error, ChatEvent}
use ocm_agent_v.Graph.Nodes.{
  RetryPolicy, max_attempts_of, backoff_of, StreamEnd, finished, cancelled, failed, Stream,
  RoundEnd, returned, stopped, recoverable, crashed, Round, ended, shows, stream_end, on_error,
  on_event, consume, joined, after_round, adapter_loop, adapter_node,
}

-- The content of a `delta` event's data.
abbrev pub content : Value → Outcome Value
content d = get_item d "content"

-- The contents of the `delta` events that were shown.
abbrev pub shown : List Effect → List (Outcome Value)
shown es = map content (emissions "delta" es)

shown-append : (es fs : List Effect) → shown (es ++ fs) ≡ shown es ++ shown fs
shown-append es fs = rw (emissions-append, map-append)

-- A rule for the rounds: what holds when a round ends and is kept by each event that is read.
module _ {ℓ} (output more : Bool) (Q : List Value → Round → Type ℓ)
    (at_end : (cs : List Value) (o : RoundEnd) → Q cs (ended cs o))
    (at_error : (cs : List Value) (d : Value)
      → Q cs (record { effects = emit "error" d ∷ []; chunks = cs; outcome = returned }))
    (at_delta : (cs : List Value) (d c : Value) (r : Round)
      → content d ≡ ok c
      → Q (cs ++ c ∷ []) r
      → Q cs (shows output (emit "delta" d) r))
    (at_tool : (cs : List Value) (d : Value) (r : Round)
      → Q cs r
      → Q cs (shows output (emit "tool" d) r)) where
  stream_end_rule : (cs : List Value) (last : StreamEnd) → Q cs (stream_end cs last)
  stream_end_rule cs finished = at_end cs returned
  stream_end_rule cs cancelled = at_end cs stopped
  stream_end_rule cs failed = at_end cs crashed

  on_error_rule : (cs : List Value) (d : Value) (o : Outcome Value) → Q cs (on_error more cs d o)
  on_error_rule cs d (raised e) = at_end cs crashed
  on_error_rule cs d (ok v) = elim (Bool-cases (truthy v && more)) [
    | inl e ↦ rw e (at_end cs recoverable)
    | inr e ↦ rw e (at_error cs d)
  ]

  on_delta_rule :
      (cs : List Value) (d : Value) (rest : List Value → Round)
      → ((cs : List Value) → Q cs (rest cs))
      → (o : Outcome Value) → content d ≡ o
      → Q cs (on_event output more cs delta d rest)
  on_delta_rule cs d rest ih (raised e) h = rw (h, on_event) (at_end cs crashed)
  on_delta_rule cs d rest ih (ok c) h =
      rw (h, on_event) (at_delta cs d c (rest (cs ++ c ∷ [])) h (ih (cs ++ c ∷ [])))

  on_event_rule :
      (cs : List Value) (t : EventType) (d : Value) (rest : List Value → Round)
      → ((cs : List Value) → Q cs (rest cs))
      → Q cs (on_event output more cs t d rest)
  on_event_rule cs delta d rest ih = on_delta_rule cs d rest ih (content d) refl
  on_event_rule cs tool d rest ih = at_tool cs d (rest cs) (ih cs)
  on_event_rule cs error d rest ih = on_error_rule cs d (get_method d "retryable" (bool false))
  on_event_rule cs _ d rest ih = ih cs

  pub consume_rule :
      (evs : List ChatEvent) (last : StreamEnd) (cs : List Value)
      → Q cs (consume output more cs evs last)
  unfolding consume
  consume_rule [] last cs = stream_end_rule cs last
  consume_rule (ev ∷ evs) last cs =
      on_event_rule cs ev.type ev.payload (λ cs. consume output more cs evs last)
        (λ cs. consume_rule evs last cs)

-- A round that shows its events keeps exactly what it shows.
abbrev KeepsShown : List Value → Round → Type 0
KeepsShown cs r = map ok r.chunks ≡ map ok cs ++ shown r.effects

consume-KeepsShown :
    (more : Bool) (evs : List ChatEvent) (last : StreamEnd) (cs : List Value)
    → KeepsShown cs (consume true more cs evs last)
unfolding emissions
consume-KeepsShown more =
    consume_rule true more KeepsShown (λ cs o. sym (append-nil (map ok cs)))
      (λ cs d. sym (append-nil (map ok cs)))
      (λ cs d c r e h. rw e (h ∙ rw (map-append, append_assoc))) (λ cs d r h. h)

-- The node returned, and the chunks that it returns are those that it had and those that it showed.
abbrev ReturnsShown : List Value → Run GraphState → Type 0
ReturnsShown cs run =
    (u : GraphState) × (final : List Value) × (run.1 ≡ ok u)
    × (u.answer_chunks ≡ some final)
    × (map ok final ≡ map ok cs ++ shown run.0)

joined-ReturnsShown :
    (n : ℕ) (cs : List Value) (round : Round) (rest : Run GraphState)
    → KeepsShown cs round
    → ReturnsShown round.chunks rest
    → ReturnsShown cs (joined n round rest)
unfolding emissions
joined-ReturnsShown n cs round (es, r) k (u, final, returns, kept, e) = (
  u,
  final,
  returns,
  kept,
  e
      ∙ ap (λ l. l ++ shown es) k
      ∙ append_assoc (map ok cs) (shown round.effects) (shown es)
      ∙ ap (λ l. map ok cs ++ l) (sym (shown-append round.effects es)),
)

module _ (f : Formats) (run : ℕ → Stream) (tries backoff : ℕ) where
  after_round-ReturnsShown :
      (n : ℕ) (cs : List Value) (o : RoundEnd) (rest : Run GraphState)
      → ReturnsShown cs rest
      → ReturnsShown cs (after_round f true run tries backoff n cs o rest)
  unfolding emissions
  after_round-ReturnsShown n cs returned rest h = (_, cs, refl, refl, sym (append-nil (map ok cs)))
  after_round-ReturnsShown n cs stopped rest h = (_, cs, refl, refl, sym (append-nil (map ok cs)))
  after_round-ReturnsShown n cs recoverable rest h = elim (Bool-cases (ltb n tries)) [
    | inl e ↦ rw e h
    | inr e ↦ rw e h
  ]
  after_round-ReturnsShown n cs crashed rest h = elim (Bool-cases (ltb n tries)) [
    | inl e ↦ rw e h
    | inr e ↦ rw e (_, cs, refl, refl, sym (append-nil (map ok cs)))
  ]

  adapter_loop-ReturnsShown :
      (left n : ℕ) (cs : List Value)
      → ReturnsShown cs (adapter_loop f true run tries backoff left n cs)
  unfolding adapter_loop emissions
  adapter_loop-ReturnsShown zero n cs = (_, cs, refl, refl, sym (append-nil (map ok cs)))
  adapter_loop-ReturnsShown (suc left) n cs =
      let (events, last) = run n in
      let round : Round = consume true (ltb n tries) cs events last in
      joined-ReturnsShown n cs round _ (consume-KeepsShown (ltb n tries) events last cs) (
        after_round-ReturnsShown n round.chunks round.outcome _
          (adapter_loop-ReturnsShown left (n + 1) round.chunks))

-- A node whose output is shown never raises, whatever its adapter does, and the chunks that it
-- returns for the answer are the contents of the `delta` events that it showed, in that order.
pub adapter_node_shows :
    (f : Formats) (run : GraphState → Bool → ℕ → Stream) (retry : Option RetryPolicy)
    (state : GraphState)
    → let node = adapter_node f run true retry state in
      (u : GraphState) × (final : List Value) × (node.1 ≡ ok u)
      × (u.answer_chunks ≡ some final)
      × (map ok final ≡ map content (emissions "delta" node.0))
unfolding adapter_node
adapter_node_shows f run retry state =
    adapter_loop-ReturnsShown f (run state true) (max_attempts_of retry) (backoff_of retry)
      (max_attempts_of retry) 1 []
