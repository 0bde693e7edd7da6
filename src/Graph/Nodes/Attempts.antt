-- ===== src/Graph/Nodes/Attempts.antt =====
-- How often the adapter node calls its adapter, and when it waits.
use ocm_agent_v.Common.{
  ◌⊎◌, inl, inr, ltb, lt→ltb, le→ltb, ℕ, zero, suc, ◌+◌, ◌≤◌, ◌<◌, String, ◌≡◌, refl, ap, ◌∙◌, Bool,
  true, false, Option, List, [], ◌∷◌, ◌++◌, arith,
}
use ocm_agent_v.Value.{Value}
use ocm_agent_v.Plugin.Formats.{Formats}
use ocm_agent_v.Graph.State.{GraphState}
use ocm_agent_v.Graph.Trace.{emit, Run, pure, attempts, calls_and_waits}
use ocm_agent_v.Graph.Trace.Laws.{calls_and_waits-append}
use ocm_agent_v.Graph.Events.{ChatEvent}
use ocm_agent_v.Graph.Nodes.{
  RetryPolicy, max_attempts_of, backoff_of, StreamEnd, Stream, RoundEnd, returned, stopped,
  recoverable, crashed, Round, shows, consume, chunks_update, joined, after_round, adapter_loop,
  adapter_node,
}
use ocm_agent_v.Graph.Nodes.Adapter.{consume_rule}

-- A round neither calls the adapter again nor waits.
abbrev pub StaysInRound : List Value → Round → Type 0
StaysInRound cs r = (attempts r.effects ≡ []) × (calls_and_waits r.effects ≡ [])

shows-StaysInRound :
    (output : Bool) (cs cs' : List Value) (name : String) (d : Value) (r : Round)
    → StaysInRound cs' r
    → StaysInRound cs (shows output (emit name d) r)
unfolding attempts calls_and_waits
shows-StaysInRound true cs cs' name d r h = h
shows-StaysInRound false cs cs' name d r h = h

pub consume-StaysInRound :
    (output more : Bool) (evs : List ChatEvent) (last : StreamEnd) (cs : List Value)
    → StaysInRound cs (consume output more cs evs last)
unfolding attempts calls_and_waits
consume-StaysInRound output more =
    consume_rule output more StaysInRound (λ cs o. (refl, refl)) (λ cs d. (refl, refl))
      (λ cs d c r e h. shows-StaysInRound output cs (cs ++ c ∷ []) "delta" d r h)
      (λ cs d r h. shows-StaysInRound output cs cs "tool" d r h)

-- `k` times a wait and then a call, which are numbered from `n`.
abbrev pub again : ℕ → ℕ → ℕ → List (ℕ ⊎ ℕ)
again n zero backoff = []
again n (suc k) backoff = inr backoff ∷ inl n ∷ again (n + 1) k backoff

-- `k + 1` calls, numbered from `n`, with a wait between any two of them.
abbrev Calls : ℕ → ℕ → ℕ → Run GraphState → Type 0
Calls n k backoff run = calls_and_waits run.0 ≡ inl n ∷ again (n + 1) k backoff

joined-Calls :
    (n k backoff : ℕ) (cs : List Value) (round : Round) (rest : Run GraphState)
    → StaysInRound cs round
    → calls_and_waits rest.0 ≡ again (n + 1) k backoff
    → Calls n k backoff (joined n round rest)
unfolding calls_and_waits
joined-Calls n k backoff cs round (es, r) (quiet, restless) calls =
    ap (λ l. inl n ∷ l)
      (calls_and_waits-append round.effects es ∙ ap (λ l. l ++ calls_and_waits es) restless ∙ calls)

module _ (f : Formats) (output : Bool) (run : ℕ → Stream) (tries backoff : ℕ) where
  -- What follows the last round that is allowed calls nothing and waits for nothing.
  after_last_round :
      (n : ℕ) (cs : List Value) (o : RoundEnd) (rest : Run GraphState)
      → ltb n tries ≡ false
      → calls_and_waits rest.0 ≡ []
      → calls_and_waits (after_round f output run tries backoff n cs o rest).0 ≡ []
  unfolding calls_and_waits
  after_last_round n cs returned rest e calls = refl
  after_last_round n cs stopped rest e calls = refl
  after_last_round n cs recoverable rest e calls = rw e calls
  after_last_round n cs crashed rest e calls = rw e refl

  -- What follows an earlier round is nothing, or a wait and the later calls.
  after_earlier_round :
      (n left : ℕ) (cs : List Value) (o : RoundEnd) (rest : Run GraphState)
      → ltb n tries ≡ true
      → ((k : ℕ) × (k ≤ left) × Calls (n + 1) k backoff rest)
      → (j : ℕ) × (j ≤ suc left)
        × (calls_and_waits (after_round f output run tries backoff n cs o rest).0
            ≡ again (n + 1) j backoff)
  unfolding calls_and_waits
  after_earlier_round n left cs returned rest e h = (0, omega arith, refl)
  after_earlier_round n left cs stopped rest e h = (0, omega arith, refl)
  after_earlier_round n left cs recoverable rest e (k, le, calls) =
      (suc k, omega arith, rw e (ap (λ l. inr backoff ∷ l) calls))
  after_earlier_round n left cs crashed rest e (k, le, calls) =
      (suc k, omega arith, rw e (ap (λ l. inr backoff ∷ l) calls))

  abbrev next : ℕ → Round → Run GraphState → Run GraphState
  next n round = after_round f output run tries backoff n round.chunks round.outcome

  adapter_loop-Calls :
      (left n : ℕ) (cs : List Value)
      → n + left ≡ tries
      → (k : ℕ) × (k ≤ left)
        × Calls n k backoff (adapter_loop f output run tries backoff (suc left) n cs)
  unfolding adapter_loop attempts calls_and_waits
  adapter_loop-Calls zero n cs total =
      let (events, last) = run n in
      let round : Round = consume output (ltb n tries) cs events last in
      let rest : Run GraphState = pure (chunks_update output round.chunks) in
      let calls =
        after_last_round n round.chunks round.outcome rest (le→ltb n tries (omega arith)) refl in
      (
        0,
        omega arith,
        joined-Calls n 0 backoff cs round (next n round rest)
            (consume-StaysInRound output (ltb n tries) events last cs) calls,
      )
  adapter_loop-Calls (suc left) n cs total =
      let (events, last) = run n in
      let round : Round = consume output (ltb n tries) cs events last in
      let rest : Run GraphState =
        adapter_loop f output run tries backoff (suc left) (n + 1) round.chunks in
      let (j, le, calls) =
        after_earlier_round n left round.chunks round.outcome rest (lt→ltb n tries (omega arith))
          (adapter_loop-Calls left (n + 1) round.chunks (omega arith)) in
      (
        j,
        le,
        joined-Calls n j backoff cs round (next n round rest)
            (consume-StaysInRound output (ltb n tries) events last cs) calls,
      )

tries-Calls :
    (f : Formats) (output : Bool) (run : ℕ → Stream) (tries backoff : ℕ)
    → 0 < tries
    → (k : ℕ) × (k < tries) × Calls 1 k backoff (adapter_loop f output run tries backoff tries 1 [])
tries-Calls f output run zero backoff h = absurd (omega arith)
tries-Calls f output run (suc left) backoff h =
    let (k, le, calls) =
      adapter_loop-Calls f output run (suc left) backoff left 1 [] (omega arith) in
    (k, omega arith, calls)

-- Whatever the adapter does, if the policy allows a call, the node calls it at least once and at most
-- as often as the policy allows, with calls numbered from 1, and between any two calls, and nowhere
-- else, it waits once for the backoff.
pub adapter_node_calls :
    (f : Formats) (run : GraphState → Bool → ℕ → Stream) (output : Bool)
    (retry : Option RetryPolicy) (state : GraphState)
    → 0 < max_attempts_of retry
    → (k : ℕ) × (k < max_attempts_of retry)
      × (calls_and_waits (adapter_node f run output retry state).0
          ≡ inl 1 ∷ again 2 k (backoff_of retry))
unfolding adapter_node
adapter_node_calls f run output retry state some_try =
    tries-Calls f output (run state output) (max_attempts_of retry) (backoff_of retry) some_try
