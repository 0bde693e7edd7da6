-- ===== src/Graph/Nodes/Errors.antt =====
-- The errors that the adapter node shows.
use ocm_agent_v.Common.{
  ltb, Bool-cases, ℕ, zero, suc, ◌+◌, String, ◌≡◌, refl, sym, ap, ◌∙◌, ◌⊎◌, inl, inr, Bool, true,
  false, Option, List, [], ◌∷◌, ◌++◌, append_assoc, append-nil, ◌==◌,
}
use ocm_agent_v.Value.{Value}
use ocm_agent_v.Plugin.Formats.{Formats}
use ocm_agent_v.Graph.State.{GraphState}
use ocm_agent_v.Graph.Trace.{Effect, emit, sleep, attempt, Run, emissions}
use ocm_agent_v.Graph.Trace.Laws.{emissions-append}
use ocm_agent_v.Graph.Events.{ChatEvent}
use ocm_agent_v.Graph.Nodes.{
  RetryPolicy, max_attempts_of, backoff_of, StreamEnd, Stream, RoundEnd, returned, stopped,
  recoverable, crashed, Round, shows, consume, joined, after_round, adapter_loop, adapter_node,
}
use ocm_agent_v.Graph.Nodes.Adapter.{consume_rule}

-- The last effect is an error that is shown, and no other is.
abbrev pub EndsInError : List Effect → Type 0
EndsInError es =
    (fs : List Effect) × (d : Value) × (es ≡ fs ++ emit "error" d ∷ [])
    × (emissions "error" fs ≡ [])

abbrev OnlyLast : List Value → Round → Type 0
OnlyLast cs r =
    (emissions "error" r.effects ≡ []) ⊎ ((r.outcome ≡ returned) × EndsInError r.effects)

EndsInError-cons :
    (e : Effect) (es : List Effect)
    → emissions "error" (e ∷ []) ≡ []
    → EndsInError es
    → EndsInError (e ∷ es)
EndsInError-cons e es quiet (fs, d, h, none_before) = (
  e ∷ fs,
  d,
  ap (λ l. e ∷ l) h,
  emissions-append "error" (e ∷ []) fs ∙ ap (λ l. l ++ emissions "error" fs) quiet ∙ none_before,
)

emit-OnlyLast :
    (output : Bool) (cs cs' : List Value) (name : String) (d : Value) (r : Round)
    → (name == "error") ≡ false
    → OnlyLast cs' r
    → OnlyLast cs (shows output (emit name d) r)
unfolding emissions
emit-OnlyLast true cs cs' name d r ne (inl quiet) = inl (rw ne quiet)
emit-OnlyLast true cs cs' name d r ne (inr (back, ends)) =
    inr (back, EndsInError-cons (emit name d) r.effects (rw ne) ends)
emit-OnlyLast false cs cs' name d r ne h = h

consume-OnlyLast :
    (output more : Bool) (evs : List ChatEvent) (last : StreamEnd) (cs : List Value)
    → OnlyLast cs (consume output more cs evs last)
unfolding emissions
consume-OnlyLast output more =
    consume_rule output more OnlyLast (λ cs o. inl refl) (λ cs d. inr (refl, ([], d, refl, refl)))
      (λ cs d c r e h. emit-OnlyLast output cs (cs ++ c ∷ []) "delta" d r refl h)
      (λ cs d r h. emit-OnlyLast output cs cs "tool" d r refl h)

abbrev AtMostLast : List Effect → Type 0
AtMostLast es = (emissions "error" es ≡ []) ⊎ EndsInError es

prefix-AtMostLast :
    (es fs : List Effect) → emissions "error" es ≡ [] → AtMostLast fs → AtMostLast (es ++ fs)
prefix-AtMostLast es fs quiet (inl h) = inl (rw (emissions-append, quiet) h)
prefix-AtMostLast es fs quiet (inr (gs, d, h, none_before)) = inr (
  es ++ gs,
  d,
  ap (λ l. es ++ l) h ∙ sym (append_assoc es gs (emit "error" d ∷ [])),
  rw (emissions-append, quiet) none_before,
)

module _ (f : Formats) (output : Bool) (run : ℕ → Stream) (tries backoff : ℕ) where
  after_round-AtMostLast :
      (n : ℕ) (cs : List Value) (o : RoundEnd) (rest : Run GraphState)
      → AtMostLast rest.0
      → AtMostLast (after_round f output run tries backoff n cs o rest).0
  unfolding emissions
  after_round-AtMostLast n cs returned rest h = inl refl
  after_round-AtMostLast n cs stopped rest h = inl refl
  after_round-AtMostLast n cs recoverable rest h = elim (Bool-cases (ltb n tries)) [
    | inl e ↦ rw e (prefix-AtMostLast (sleep backoff ∷ []) rest.0 refl h)
    | inr e ↦ rw e h
  ]
  after_round-AtMostLast n cs crashed rest h = elim (Bool-cases (ltb n tries)) [
    | inl e ↦ rw e (prefix-AtMostLast (sleep backoff ∷ []) rest.0 refl h)
    | inr e ↦ rw e (inr ([], _, refl, refl))
  ]

  joined-AtMostLast :
      (n : ℕ) (cs : List Value) (round : Round) (rest : Run GraphState)
      → OnlyLast cs round
      → AtMostLast rest.0
      → AtMostLast
          (joined n round
            (after_round f output run tries backoff n round.chunks round.outcome rest)).0
  unfolding emissions
  joined-AtMostLast n cs round rest (inl quiet) h =
      prefix-AtMostLast (attempt n ∷ round.effects) _ quiet
        (after_round-AtMostLast n round.chunks round.outcome rest h)
  joined-AtMostLast n cs round rest (inr (back, ends)) h =
      rw (back, append-nil) (inr (EndsInError-cons (attempt n) round.effects refl ends))

  adapter_loop-AtMostLast :
      (left n : ℕ) (cs : List Value)
      → AtMostLast (adapter_loop f output run tries backoff left n cs).0
  unfolding adapter_loop emissions
  adapter_loop-AtMostLast zero n cs = inl refl
  adapter_loop-AtMostLast (suc left) n cs =
      let (events, last) = run n in
      let round : Round = consume output (ltb n tries) cs events last in
      joined-AtMostLast n cs round _ (consume-OnlyLast output (ltb n tries) events last cs)
        (adapter_loop-AtMostLast left (n + 1) round.chunks)

-- Whatever the adapter does, the node shows no error, or one, after which it does nothing more.
pub adapter_node_errors :
    (f : Formats) (run : GraphState → Bool → ℕ → Stream) (output : Bool)
    (retry : Option RetryPolicy) (state : GraphState)
    → let es = (adapter_node f run output retry state).0 in
      (emissions "error" es ≡ []) ⊎ EndsInError es
unfolding adapter_node
adapter_node_errors f run output retry state =
    adapter_loop-AtMostLast f output (run state output) (max_attempts_of retry) (backoff_of retry)
      (max_attempts_of retry) 1 []
