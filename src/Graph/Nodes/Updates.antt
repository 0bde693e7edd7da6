-- ===== src/Graph/Nodes/Updates.antt =====
-- What the intent node and an adapter node write into the state, and that the intent node shows no
-- content and no error.
use ocm_agent_v.Common.{
  ltb, Bool-cases, Exn, cancelled_error, is_exception, Outcome, ok, raised, ok-injective,
  some-injective, ℕ, zero, suc, ◌+◌, String, ◌≡◌, refl, sym, ap, ◌∙◌, ◌⊎◌, inl, inr, Bool, true,
  false, Option, none, some, List, [], map, arith,
}
use ocm_agent_v.Value.{Value}
use ocm_agent_v.Plugin.Formats.{Formats}
use ocm_agent_v.Graph.State.{IntentResult, GraphState, no_update}
use ocm_agent_v.Graph.Trace.{Run, emissions}
use ocm_agent_v.Graph.Nodes.{
  RetryPolicy, max_attempts_of, backoff_of, contains, intent_update, settle, intent_done,
  intent_loop, intent_node, Stream, RoundEnd, returned, stopped, recoverable, crashed, Round,
  consume, after_round, adapter_loop, adapter_node,
}
use ocm_agent_v.Graph.Nodes.Intent.{NeverCancelled}
use ocm_agent_v.Graph.Nodes.Adapter.{content, adapter_node_shows}

-- The node wrote a result whose route the graph can follow, and showed neither content nor an error.
abbrev pub Settles : String → List String → Run GraphState → Type 0
Settles default_route labels run =
    (r : IntentResult) × (run.1 ≡ ok (intent_update r))
    × ((contains r.route labels ≡ true) ⊎ (r.route ≡ default_route))
    × (emissions "delta" run.0 ≡ [])
    × (emissions "error" run.0 ≡ [])

cancels : (e : Exn) → is_exception e ≡ false → e ≡ cancelled_error
cancels e h = ground arith

module _ (f : Formats) (default_route : String) (labels : List String) where
  done-Settles :
      (r : IntentResult)
      → Settles default_route labels
          (intent_done f default_route labels (settle f default_route labels r))
  unfolding emissions
  done-Settles r = elim (Bool-cases (contains r.route labels)) [
    | inl e ↦ rw e (r, refl, inl e, refl, refl)
    | inr e ↦ rw e (_, refl, inr refl, refl, refl)
  ]

  loop-Settles :
      (classify : ℕ → Outcome IntentResult) (tries backoff left n : ℕ)
      → NeverCancelled classify
      → Settles default_route labels
          (intent_loop f default_route labels classify tries backoff left n)
  unfolding intent_loop emissions
  loop-Settles classify tries backoff zero n calm = (_, refl, inr refl, refl, refl)
  loop-Settles classify tries backoff (suc left) n calm =
      by_answer (loop-Settles classify tries backoff left (n + 1) calm) (classify n) refl
    where
      by_answer :
          Settles default_route labels
            (intent_loop f default_route labels classify tries backoff left (n + 1))
          → (o : Outcome IntentResult) → classify n ≡ o
          → Settles default_route labels
              (intent_loop f default_route labels classify tries backoff (suc left) n)
      by_answer later (ok r) e = rw (e, intent_loop) (done-Settles r)
      by_answer later (raised e) h = elim (Bool-cases (is_exception e)) [
        | inl c ↦ elim (Bool-cases (ltb n tries)) [
          | inl l ↦ rw (h, intent_loop, c, l) later
          | inr l ↦ rw (h, intent_loop, c, l) later
        ]
        | inr c ↦ absurd (calm n (h ∙ ap raised (cancels e c)))
      ]

  pub intent_node-Settles :
      (classify : GraphState → ℕ → Outcome IntentResult) (retry : Option RetryPolicy)
      (state : GraphState)
      → NeverCancelled (classify state)
      → Settles default_route labels (intent_node f default_route labels classify retry state)
  unfolding intent_node emissions
  intent_node-Settles classify retry state calm =
      loop-Settles (classify state) (max_attempts_of retry) (backoff_of retry)
        (max_attempts_of retry) 1 calm

-- What an adapter node returns: its chunks, and whether it was cancelled.
abbrev pub answer_update : List Value → Option Bool → GraphState
answer_update chunks cut = record no_update { answer_chunks = some chunks; stream_cancelled = cut }

abbrev WritesAnswer : Run GraphState → Type 0
WritesAnswer run =
    (chunks : List Value) × (cut : Option Bool) × (run.1 ≡ ok (answer_update chunks cut))

module _ (f : Formats) (run : ℕ → Stream) (tries backoff : ℕ) where
  after_round-WritesAnswer :
      (n : ℕ) (cs : List Value) (o : RoundEnd) (rest : Run GraphState)
      → WritesAnswer rest
      → WritesAnswer (after_round f true run tries backoff n cs o rest)
  after_round-WritesAnswer n cs returned rest h = (cs, none, refl)
  after_round-WritesAnswer n cs stopped rest h = (cs, some true, refl)
  after_round-WritesAnswer n cs recoverable rest h = elim (Bool-cases (ltb n tries)) [
    | inl e ↦ rw e h
    | inr e ↦ rw e h
  ]
  after_round-WritesAnswer n cs crashed rest h = elim (Bool-cases (ltb n tries)) [
    | inl e ↦ rw e h
    | inr e ↦ rw e (cs, none, refl)
  ]

  loop-WritesAnswer :
      (left n : ℕ) (cs : List Value)
      → WritesAnswer (adapter_loop f true run tries backoff left n cs)
  unfolding adapter_loop
  loop-WritesAnswer zero n cs = (cs, none, refl)
  loop-WritesAnswer (suc left) n cs =
      let (events, last) = run n in
      let round : Round = consume true (ltb n tries) cs events last in
      after_round-WritesAnswer n round.chunks round.outcome _
        (loop-WritesAnswer left (n + 1) round.chunks)

-- The chunks that an adapter node writes are the contents that it showed, and it writes nothing else
-- but that it was cancelled.
pub adapter_node_writes :
    (f : Formats) (run : GraphState → Bool → ℕ → Stream) (retry : Option RetryPolicy)
    (state : GraphState)
    → let node = adapter_node f run true retry state in
      (chunks : List Value) × (cut : Option Bool) × (node.1 ≡ ok (answer_update chunks cut))
      × (map ok chunks ≡ map content (emissions "delta" node.0))
unfolding adapter_node
adapter_node_writes f run retry state =
    let (u, final, returns, kept, shown) = adapter_node_shows f run retry state in
    let (chunks, cut, e) =
      loop-WritesAnswer f (run state true) (max_attempts_of retry) (backoff_of retry)
        (max_attempts_of retry) 1 [] in
    let same : answer_update chunks cut ≡ u = ok-injective (sym e ∙ returns) in
    let its : chunks ≡ final =
      some-injective (ap (λ (g : GraphState). g.answer_chunks) same ∙ kept) in
    (chunks, cut, e, ap (map ok) its ∙ shown)
