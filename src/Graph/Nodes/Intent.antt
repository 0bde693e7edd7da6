-- ===== src/Graph/Nodes/Intent.antt =====
-- The intent node returns a route that the graph knows, after a bounded number of calls.
use ocm_agent_v.Common.{
  ltb, Bool-cases, lt→ltb, le→ltb, count_up, replicate, Exn, cancelled_error, is_exception, Outcome,
  ok, raised, ℕ, zero, suc, ◌+◌, ◌<◌, String, ◌≡◌, refl, ap, ◌∙◌, ◌≢◌, ◌⊎◌, inl, inr, true, false,
  Option, some, List, [], ◌∷◌, arith, ◌==◌, eq_iff, ◌<>◌, IsAmong,
}
use ocm_agent_v.Plugin.Formats.{Formats}
use ocm_agent_v.Graph.State.{IntentResult, GraphState, no_update}
use ocm_agent_v.Graph.Trace.{Run, attempts, sleeps}
use ocm_agent_v.Graph.Nodes.{
  RetryPolicy, max_attempts_of, backoff_of, contains, intent_update, exhausted, settle, intent_loop,
  intent_node,
}

-- The call raised what `except Exception` catches.
abbrev pub Fails : Outcome IntentResult → Type 0
Fails r = (e : Exn) × (r ≡ raised e) × (is_exception e ≡ true)

-- From the `n`-th call on, `k` calls fail and the next one answers `r`.
abbrev pub AnswersAfter : (ℕ → Outcome IntentResult) → ℕ → ℕ → IntentResult → Type 0
AnswersAfter classify n zero r = classify n ≡ ok r
AnswersAfter classify n (suc k) r = Fails (classify n) × AnswersAfter classify (n + 1) k r

abbrev pub FailsFor : (ℕ → Outcome IntentResult) → ℕ → ℕ → Type 0
FailsFor classify n zero = Unit
FailsFor classify n (suc k) = Fails (classify n) × FailsFor classify (n + 1) k

abbrev pub NeverCancelled : (ℕ → Outcome IntentResult) → Type 0
NeverCancelled classify = (n : ℕ) → classify n ≢ raised cancelled_error

-- A route that the graph can follow.
abbrev pub IsRouted : String → List String → GraphState → Type 0
IsRouted default_route labels u =
    (route : String) × (u.route ≡ some route)
    × ((contains route labels ≡ true) ⊎ (route ≡ default_route))

contains-IsAmong :
    (x : String) (ys : List String)
    → ((contains x ys ≡ true) × IsAmong x ys) ⊎ ((contains x ys ≡ false) × ¬ IsAmong x ys)
contains-IsAmong x [] = inr (refl, λ h. h)
contains-IsAmong x (y ∷ ys) = elim (Bool-cases (x == y)) [
  | inl e ↦ inl (rw e refl, inl ((eq_iff x y).0 e))
  | inr e ↦ elim (contains-IsAmong x ys) [
    | inl (c, h) ↦ inl (rw (e, c) refl, inr h)
    | inr (c, h) ↦ inr (rw (e, c) refl, other e h)
  ]
]
  where
    other : (x == y) ≡ false → ¬ IsAmong x ys → ¬ IsAmong x (y ∷ ys)
    other e h (inl same) = cc (e, (eq_iff x y).1 same)
    other e h (inr later) = h later

module _ (f : Formats) (default_route : String) (labels : List String) where
  -- What is written for the answer `r`.
  abbrev pub IsSettled : IntentResult → Outcome GraphState → Type 0
  IsSettled r out =
      (IsAmong r.route labels
        × (out
            ≡ ok (record no_update {
              route = some r.route;
              route_confidence = some r.confidence;
              route_reason = some r.reason;
            })))
      ⊎ ((¬ IsAmong r.route labels)
          × (out
              ≡ ok (record no_update {
                route = some default_route;
                route_confidence = some 0;
                route_reason = some ("unknown label " <> f.repr r.route <> ", fallback");
              })))

  settle-IsSettled :
      (r : IntentResult) (out : Outcome GraphState)
      → out ≡ ok (intent_update (settle f default_route labels r))
      → IsSettled r out
  settle-IsSettled r out h = elim (contains-IsAmong r.route labels) [
    | inl (c, known) ↦ inl (known, rw c at h)
    | inr (c, unknown) ↦ inr (unknown, rw c at h)
  ]

  settle-IsRouted :
      (r : IntentResult)
      → IsRouted default_route labels (intent_update (settle f default_route labels r))
  settle-IsRouted r = elim (Bool-cases (contains r.route labels)) [
    | inl e ↦ rw e (r.route, refl, inl e)
    | inr e ↦ rw e (default_route, refl, inr refl)
  ]

  exception_cases : (e : Exn) → (is_exception e ≡ true) ⊎ (e ≡ cancelled_error)
  exception_cases e = ground arith

  module _ (classify : ℕ → Outcome IntentResult) (tries backoff : ℕ) where
    abbrev loop : ℕ → ℕ → Run GraphState
    loop = intent_loop f default_route labels classify tries backoff

    loop_returns :
        (left n : ℕ)
        → NeverCancelled classify
        → (u : GraphState) × ((loop left n).1 ≡ ok u) × IsRouted default_route labels u
    unfolding intent_loop
    loop_returns zero n calm = (_, refl, (default_route, refl, inr refl))
    loop_returns (suc left) n calm = by_answer (loop_returns left (n + 1) calm) (classify n) refl
      where
        by_answer :
            (u : GraphState) × ((loop left (n + 1)).1 ≡ ok u) × IsRouted default_route labels u
            → (o : Outcome IntentResult) → classify n ≡ o
            → (u : GraphState) × ((loop (suc left) n).1 ≡ ok u) × IsRouted default_route labels u
        by_answer rest (ok r) e = rw e (_, refl, settle-IsRouted r)
        by_answer rest (raised x) e = elim (exception_cases x) [
          | inl caught ↦ elim (Bool-cases (ltb n tries)) [
            | inl more ↦ rw e (rw caught (rw more rest))
            | inr last ↦ rw e (rw caught (rw last rest))
          ]
          | inr off ↦ absurd (calm n (e ∙ ap raised off))
        ]

    loop_answers :
        (left n k : ℕ) (r : IntentResult)
        → n + left ≡ tries + 1
        → k < left
        → AnswersAfter classify n k r
        → ((loop left n).1 ≡ ok (intent_update (settle f default_route labels r)))
          × (attempts (loop left n).0 ≡ count_up n (suc k))
          × (sleeps (loop left n).0 ≡ replicate k backoff)
    unfolding intent_loop attempts sleeps
    loop_answers zero n k r total lt h = absurd (omega arith)
    loop_answers (suc left) n zero r total lt h = rw h (refl, refl, refl)
    loop_answers (suc left) n (suc k) r total lt ((e, he, caught), h) =
        let more : n < tries = omega arith in
        let (out, calls, waits) = loop_answers left (n + 1) k r (omega arith) (omega arith) h in
        rw he (
          rw (caught, lt→ltb n tries more)
            (out, ap (λ l. n ∷ l) calls, ap (λ l. backoff ∷ l) waits))

    loop_exhausts :
        (left n : ℕ)
        → n + suc left ≡ tries + 1
        → FailsFor classify n (suc left)
        → ((loop (suc left) n).1 ≡ ok (intent_update (exhausted default_route)))
          × (attempts (loop (suc left) n).0 ≡ count_up n (suc left))
          × (sleeps (loop (suc left) n).0 ≡ replicate left backoff)
    unfolding intent_loop attempts sleeps
    loop_exhausts zero n total ((e, he, caught), h) =
        rw he (rw (caught, le→ltb n tries (omega arith)) (refl, refl, refl))
    loop_exhausts (suc left) n total ((e, he, caught), h) =
        let more : n < tries = omega arith in
        let (out, calls, waits) = loop_exhausts left (n + 1) (omega arith) h in
        rw he (
          rw (caught, lt→ltb n tries more)
            (out, ap (λ l. n ∷ l) calls, ap (λ l. backoff ∷ l) waits))

  module _ (classify : GraphState → ℕ → Outcome IntentResult) (retry : Option RetryPolicy)
      (state : GraphState) where
    abbrev node : Run GraphState
    node = intent_node f default_route labels classify retry state

    -- Unless it is cancelled, the node returns, and the route that it writes is one of the labels or
    -- the default route, whatever the plugin does at each of its calls.
    pub intent_node_routes :
        NeverCancelled (classify state)
        → (u : GraphState) × (node.1 ≡ ok u) × IsRouted default_route labels u
    unfolding intent_node
    intent_node_routes calm =
        loop_returns (classify state) (max_attempts_of retry) (backoff_of retry)
          (max_attempts_of retry) 1 calm

    -- If the first `k` calls fail and the next one, still allowed by the policy, answers `r`, the
    -- node makes exactly `k + 1` calls and `k` waits of the backoff, and writes the route, confidence
    -- and reason of `r` if the route is one of the labels, and otherwise the default route with
    -- confidence 0 and a reason that names the unknown label.
    pub intent_node_answers :
        (k : ℕ) (r : IntentResult)
        → k < max_attempts_of retry
        → AnswersAfter (classify state) 1 k r
        → IsSettled r node.1
          × (attempts node.0 ≡ count_up 1 (suc k))
          × (sleeps node.0 ≡ replicate k (backoff_of retry))
    unfolding intent_node attempts sleeps
    intent_node_answers k r lt h =
        let (out, calls, waits) =
          loop_answers (classify state) (max_attempts_of retry) (backoff_of retry)
            (max_attempts_of retry) 1 k r (omega arith) lt h in
        (settle-IsSettled r _ out, calls, waits)

    -- If every call that the policy allows fails, the node writes the default route with confidence 0
    -- after that many calls, and it does not wait after the last one.
    pub intent_node_exhausts :
        (k : ℕ)
        → max_attempts_of retry ≡ suc k
        → FailsFor (classify state) 1 (suc k)
        → (node.1 ≡ ok (intent_update (exhausted default_route)))
          × (attempts node.0 ≡ count_up 1 (suc k))
          × (sleeps node.0 ≡ replicate k (backoff_of retry))
    unfolding intent_node attempts sleeps
    intent_node_exhausts k e h =
        rw e (loop_exhausts (classify state) (suc k) (backoff_of retry) k 1 (omega arith) h)
