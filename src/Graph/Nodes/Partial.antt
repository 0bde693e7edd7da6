-- ===== src/Graph/Nodes/Partial.antt =====
-- What a retry does with the part of the answer that was shown before.
use ocm_agent_v.Plugin.Formats.{Formats}
use ocm_agent_v.Graph.State.{GraphState, no_update}
use ocm_agent_v.Graph.Trace.{Effect, emit}
use ocm_agent_v.Common.{
  ltb, lt→ltb, ok, ℕ, zero, suc, ◌+◌, ◌<◌, ◌≡◌, refl, sym, ap, ◌∙◌, Bool, true, false, Option, none,
  some, List, [], ◌∷◌, ◌++◌, map, append_assoc, append-nil, arith,
}
use ocm_agent_v.Value.{Value, dict}
use ocm_agent_v.Graph.Events.{delta, ChatEvent}
use ocm_agent_v.Graph.Nodes.{
  RetryPolicy, max_attempts_of, backoff_of, StreamEnd, finished, cancelled, failed, Stream,
  RoundEnd, returned, stopped, crashed, Round, shows, consume, chunks_update, adapter_loop,
  adapter_node,
}

-- A `delta` event that carries `c`.
abbrev pub delta_event : Value → ChatEvent
delta_event c = record { type = delta; payload = dict (("content", c) ∷ []); event_id = none }

abbrev end_of : StreamEnd → RoundEnd
end_of finished = returned
end_of cancelled = stopped
end_of failed = crashed

shows_same :
    (output : Bool) (e : Effect) (r : Round)
    → ((shows output e r).chunks ≡ r.chunks) × ((shows output e r).outcome ≡ r.outcome)
shows_same true e r = (refl, refl)
shows_same false e r = (refl, refl)

consume-delta_event :
    (output more : Bool) (parts cs : List Value) (last : StreamEnd)
    → let round = consume output more cs (map delta_event parts) last in
      (round.chunks ≡ cs ++ parts) × (round.outcome ≡ end_of last)
unfolding consume
consume-delta_event output more [] cs finished = (sym (append-nil cs), refl)
consume-delta_event output more [] cs cancelled = (sym (append-nil cs), refl)
consume-delta_event output more [] cs failed = (sym (append-nil cs), refl)
consume-delta_event output more (c ∷ parts) cs last =
    let rest : Round = consume output more (cs ++ c ∷ []) (map delta_event parts) last in
    let (chunks, outcome) = shows_same output (emit "delta" (dict (("content", c) ∷ []))) rest in
    let (all, how) = consume-delta_event output more parts (cs ++ c ∷ []) last in
    (chunks ∙ all ∙ append_assoc cs (c ∷ []) parts, outcome ∙ how)

-- From the `n`-th call on, `k` streams deliver some chunks and then fail, and the next one delivers
-- the rest and finishes; `parts` are all the chunks.
abbrev pub Delivers : (ℕ → Stream) → ℕ → ℕ → List Value → Type 0
Delivers run n zero parts = run n ≡ (map delta_event parts, finished)
Delivers run n (suc k) parts =
    (early : List Value) × (late : List Value) × (run n ≡ (map delta_event early, failed))
    × (parts ≡ early ++ late)
    × Delivers run (n + 1) k late

module _ (f : Formats) (output : Bool) (run : ℕ → Stream) (tries backoff : ℕ) where
  adapter_loop-Delivers :
      (left n k : ℕ) (cs parts : List Value)
      → n + left ≡ tries + 1
      → k < left
      → Delivers run n k parts
      → (adapter_loop f output run tries backoff left n cs).1
        ≡ ok (chunks_update output (cs ++ parts))
  unfolding adapter_loop
  adapter_loop-Delivers zero n k cs parts total lt h = absurd (omega arith)
  adapter_loop-Delivers (suc left) n zero cs parts total lt h =
      let (all, how) = consume-delta_event output (ltb n tries) parts cs finished in
      rw h (rw (how, all) refl)
  adapter_loop-Delivers (suc left) n (suc k) cs parts total lt (early, late, h, e, d) =
      let (all, how) = consume-delta_event output (ltb n tries) early cs failed in
      let more : n < tries = omega arith in
      let ih =
        adapter_loop-Delivers left (n + 1) k (cs ++ early) late (omega arith) (omega arith) d in
      rw h (
        rw (how, all)
          (rw (lt→ltb n tries more) (
            ih
            ∙ ap (λ l. ok (chunks_update output l))
                (append_assoc cs early late ∙ ap (λ l. cs ++ l) (sym e)))))

-- A retry does not take back what a failed stream has delivered: if the output of the node is shown,
-- `k` streams fail, each after some chunks, and the next one finishes, all within the policy, then
-- the answer that the node returns is what every one of them delivered, in order.
pub adapter_node_partial :
    (f : Formats) (run : GraphState → Bool → ℕ → Stream) (retry : Option RetryPolicy)
    (state : GraphState) (k : ℕ) (parts : List Value)
    → k < max_attempts_of retry
    → Delivers (run state true) 1 k parts
    → (adapter_node f run true retry state).1 ≡ ok (record no_update { answer_chunks = some parts })
unfolding adapter_node
adapter_node_partial f run retry state k parts lt d =
    adapter_loop-Delivers f true (run state true) (max_attempts_of retry) (backoff_of retry)
      (max_attempts_of retry) 1 k [] parts (omega arith) lt d
