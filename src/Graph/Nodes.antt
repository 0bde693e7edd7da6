-- ===== src/Graph/Nodes.antt =====
-- src/ma/core/graph/node_wrappers.py. `_traced_node` opens a span and raises what it catches, so it
-- is the identity here. An event is taken to be dispatched without an error.
pub mod Intent
pub mod Adapter
pub mod Attempts
pub mod Errors
pub mod Partial
pub mod Once
pub mod Updates
use ocm_agent_v.Common.{
  ltb, if◌then◌else◌, is_exception, Outcome, ok, raised, ℕ, zero, suc, ◌+◌, String, ◌<>◌, Bool,
  true, false, ◌&&◌, ◌||◌, Option, none, some, List, [], ◌∷◌, ◌++◌, ◌==◌,
}
use ocm_agent_v.Value.{Value, str, bool, obj, truthy, get_item, get_method, dict}
use ocm_agent_v.Plugin.Formats.{Formats}
use ocm_agent_v.Graph.State.{AuthResult, EnrichResult, IntentResult, GraphState, no_update}
use ocm_agent_v.Graph.Trace.{
  Effect, emit, sleep, attempt, Run, pure, lift, after, emitted, ◌>>=◌, ◌>>◌,
}
use ocm_agent_v.Graph.Events.{EventType, delta, tool, error, ChatEvent}

-- src/ma/core/topic/config.py: `RetryPolicy`
pub record RetryPolicy : Type 0 where
  pub max_attempts : ℕ
  pub backoff_ms : ℕ

abbrev pub max_attempts_of : Option RetryPolicy → ℕ
max_attempts_of none = 1
max_attempts_of (some p) = p.max_attempts

abbrev pub backoff_of : Option RetryPolicy → ℕ
backoff_of none = 0
backoff_of (some p) = p.backoff_ms

abbrev auth_update : AuthResult → GraphState
auth_update r =
    if r.passed
    then record no_update { auth = some r; user_ctx = r.user_ctx }
    else record no_update { auth = some r; route = some "reject" }

unfoldable pub auth_node : (GraphState → Outcome AuthResult) → GraphState → Run GraphState
auth_node authorize state = do
  emitted "thinking" (dict (("phase", str "auth") ∷ ("label", str "正在校验权限…") ∷ []))
  result ← lift (authorize state)
  emitted "progress" (
      dict (
        ("step", str "auth")
        ∷ ("status", str "done")
        ∷ ("extra", dict (("passed", bool result.passed) ∷ []))
        ∷ []))
  pure (auth_update result)

unfoldable pub enrich_node : (GraphState → Outcome EnrichResult) → GraphState → Run GraphState
enrich_node enrich state = do
  emitted "thinking" (dict (("phase", str "enrich") ∷ []))
  result ← lift (enrich state)
  emitted "progress" (
      dict
        (("step", str "enrich") ∷ ("status", str "done") ∷ ("extra", obj result.enrich_meta) ∷ []))
  pure (record no_update {
    enriched_question = some result.enriched_question;
    enrich_meta = some result.enrich_meta;
  })

abbrev pub contains : String → List String → Bool
contains x [] = false
contains x (y ∷ ys) = x == y || contains x ys

abbrev pub intent_update : IntentResult → GraphState
intent_update r = record no_update {
  route = some r.route;
  route_confidence = some r.confidence;
  route_reason = some r.reason;
}

abbrev pub exhausted : String → IntentResult
exhausted default_route = record {
  route = default_route;
  confidence = 0;
  reason = "intent_retry_exhausted";
}

abbrev intent_progress : String → String → String → Value
intent_progress status detail route = dict (
    ("step", str "intent")
    ∷ ("status", str status)
    ∷ ("detail", str detail)
    ∷ ("extra", dict (("route", str route) ∷ []))
    ∷ [])

-- The intent node. `classify state n` is what the plugin does at its `n`-th call, counted from 1.
module _ (f : Formats) (default_route : String) (labels : List String) where
  -- A label that is not known falls back to the default.
  abbrev pub settle : IntentResult → IntentResult
  settle r = if contains r.route labels then r else record {
    route = default_route;
    confidence = 0;
    reason = "unknown label " <> f.repr r.route <> ", fallback";
  }

  abbrev pub intent_done : IntentResult → Run GraphState
  intent_done r = do
    emitted "progress" (intent_progress "done" r.reason r.route)
    pure (intent_update r)

  abbrev pub intent_fallback : ℕ → Run GraphState
  intent_fallback tries = do
    emitted "progress"
        (intent_progress "fallback" ("retried " <> f.show_int tries <> "x") default_route)
    pure (intent_update (exhausted default_route))

  -- The loop: `left` rounds are left, and the next is the `n`-th. After the last round that fails
  -- the loop is over, with no wait.
  unfoldable pub intent_loop : (ℕ → Outcome IntentResult) → ℕ → ℕ → ℕ → ℕ → Run GraphState
  intent_loop classify tries backoff zero n = intent_fallback tries
  intent_loop classify tries backoff (suc left) n =
      let rest = intent_loop classify tries backoff left (n + 1) in
      after (attempt n) (elim (classify n) [
        | ok r ↦ intent_done (settle r)
        | raised e ↦
            if is_exception e
            then (if ltb n tries then after (sleep backoff) rest else rest)
            else lift (raised e)
      ])

  unfoldable pub intent_node :
      (GraphState → ℕ → Outcome IntentResult) → Option RetryPolicy → GraphState → Run GraphState
  unfolding intent_loop
  intent_node classify retry state =
      let tries = max_attempts_of retry in
      after (emit "thinking" (dict (("phase", str "intent") ∷ ("label", str "正在识别问题意图…") ∷ [])))
        (intent_loop (classify state) tries (backoff_of retry) tries 1)

-- The adapter node.

-- How an event stream ends: normally, by an exception, or by the cancellation of the task.
pub data StreamEnd : Type 0 where
  finished cancelled failed : StreamEnd

abbrev pub Stream : Type 0
Stream = List ChatEvent × StreamEnd

-- How one round over a stream ends.
pub data RoundEnd : Type 0 where
  returned stopped recoverable crashed : RoundEnd

pub record Round : Type 0 where
  pub effects : List Effect
  pub chunks : List Value
  pub outcome : RoundEnd

abbrev pub ended : List Value → RoundEnd → Round
ended chunks r = record { effects = []; chunks = chunks; outcome = r }

abbrev pub shows : Bool → Effect → Round → Round
shows true e r = record r { effects = e ∷ r.effects }
shows false e r = r

abbrev pub stream_end : List Value → StreamEnd → Round
stream_end chunks finished = ended chunks returned
stream_end chunks cancelled = ended chunks stopped
stream_end chunks failed = ended chunks crashed

-- An `error` event: left for the next round if it is retryable and there is one; otherwise it is
-- shown, and the node returns.
abbrev pub on_error : Bool → List Value → Value → Outcome Value → Round
on_error more chunks d (raised e) = ended chunks crashed
on_error more chunks d (ok v) =
    if truthy v && more
    then ended chunks recoverable
    else record { effects = emit "error" d ∷ []; chunks = chunks; outcome = returned }

-- One event of the stream, and the rest of the round from the chunks that it leaves.
abbrev pub on_event : Bool → Bool → List Value → EventType → Value → (List Value → Round) → Round
on_event output more chunks delta d rest = elim (get_item d "content") [
  | raised e ↦ ended chunks crashed
  | ok c ↦ shows output (emit "delta" d) (rest (chunks ++ c ∷ []))
]
on_event output more chunks tool d rest = shows output (emit "tool" d) (rest chunks)
on_event output more chunks error d rest =
    on_error more chunks d (get_method d "retryable" (bool false))
on_event output more chunks _ d rest = rest chunks

-- One round of the `async for`; `more` tells whether another round may follow.
unfoldable pub consume : Bool → Bool → List Value → List ChatEvent → StreamEnd → Round
consume output more chunks [] last = stream_end chunks last
consume output more chunks (ev ∷ evs) last =
    on_event output more chunks ev.type ev.payload (λ cs. consume output more cs evs last)

abbrev pub chunks_update : Bool → List Value → GraphState
chunks_update output chunks = record no_update {
  answer_chunks = some (if output then chunks else []);
}

abbrev pub cancelled_update : List Value → GraphState
cancelled_update chunks = record no_update {
  answer_chunks = some chunks;
  stream_cancelled = some true;
}

abbrev pub gave_up : Formats → ℕ → Value
gave_up f tries = dict (
    ("code", str "DOWNSTREAM_ERROR")
    ∷ ("message", str ("调用下游失败（重试" <> f.show_int tries <> "次后放弃）"))
    ∷ ("retryable", bool false)
    ∷ [])

-- The `n`-th call, its round, and what follows.
abbrev pub joined : ℕ → Round → Run GraphState → Run GraphState
joined n round (es, r) = (attempt n ∷ round.effects ++ es, r)

-- `run n` is the stream that the adapter gives at its `n`-th call, counted from 1.
module _ (f : Formats) (output : Bool) (run : ℕ → Stream) (tries backoff : ℕ) where
  -- What follows a round: the node returns, or waits and goes on with `rest`.
  abbrev pub after_round : ℕ → List Value → RoundEnd → Run GraphState → Run GraphState
  after_round n chunks returned rest = pure (chunks_update output chunks)
  after_round n chunks stopped rest = pure (cancelled_update chunks)
  after_round n chunks recoverable rest = if ltb n tries then after (sleep backoff) rest else rest
  after_round n chunks crashed rest =
      if ltb n tries
      then after (sleep backoff) rest
      else after (emit "error" (gave_up f tries)) (pure (chunks_update output chunks))

  unfoldable pub adapter_loop : ℕ → ℕ → List Value → Run GraphState
  adapter_loop zero n chunks = pure (chunks_update output chunks)
  adapter_loop (suc left) n chunks =
      let (events, last) = run n in
      let round = consume output (ltb n tries) chunks events last in
      let rest = adapter_loop left (n + 1) round.chunks in
      joined n round (after_round n round.chunks round.outcome rest)

unfoldable pub adapter_node :
    Formats
    → (GraphState → Bool → ℕ → Stream)
    → Bool
    → Option RetryPolicy
    → GraphState
    → Run GraphState
unfolding adapter_loop consume
adapter_node f run output retry state =
    let tries = max_attempts_of retry in
    adapter_loop f output (run state output) tries (backoff_of retry) tries 1 []
