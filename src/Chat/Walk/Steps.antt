-- ===== src/Chat/Walk/Steps.antt =====
-- What is asked of a topic's plugins, and what the nodes before the adapter then do.
use mathlib.Core.List.{append-nil}
use ocm_agent_v.Common.{
  Bool-cases, All, is_entry, find_entry, Outcome, ok, ℕ, String, ◌≡◌, refl, sym, ap, ◌∙◌, subst,
  ◌⊎◌, inl, inr, Bool, true, false, Option, none, some, List, [], ◌∷◌, ◌++◌, map, arith, ◌==◌,
  eq_iff,
}
use ocm_agent_v.Value.{Value, str, obj, dict}
use ocm_agent_v.Repo.Models.{Timestamp, Message, Db}
use ocm_agent_v.Plugin.Formats.{Formats}
use ocm_agent_v.Graph.State.{AuthResult, EnrichResult, GraphState, no_update}
use ocm_agent_v.Graph.Trace.{Effect, emit, emissions}
use ocm_agent_v.Graph.Trace.Laws.{emissions-append}
use ocm_agent_v.Graph.Nodes.{Stream, contains, auth_node, enrich_node, adapter_node}
use ocm_agent_v.Graph.Nodes.Intent.{NeverCancelled}
use ocm_agent_v.Graph.Nodes.Adapter.{content}
use ocm_agent_v.Graph.Builtins.{answer_status}
use ocm_agent_v.Topic.Config.{keys}
use ocm_agent_v.Chat.Flow.{CompiledTopic, graph_end, pure_node}
use ocm_agent_v.Chat.{ChatRequest, or_empty}
use ocm_agent_v.Chat.Walk.Places.{Adapters}
use ocm_agent_v.Chat.Walk.Asked.{loaded}
use ocm_agent_v.Chat.Walk.Reject.{auth_thinking, auth_progress, content_of}

-- The auth plugin lets the question pass, whatever the history.
abbrev pub Permits : CompiledTopic → ChatRequest → String → AuthResult → Type 0
Permits topic req answer_id a =
    (a.passed ≡ true) × ((h : List Message) → topic.auth (loaded req answer_id h) ≡ ok a)

-- The enrich plugin raises nothing, and the intent plugin is not cancelled.
abbrev pub Prepares : CompiledTopic → Type 0
Prepares topic =
    ((s : GraphState) → (r : EnrichResult) × (topic.enrich s ≡ ok r))
    × ((s : GraphState) → NeverCancelled (topic.intent s))

-- Each route, and the default one too, leads to an adapter.
abbrev pub Routes : CompiledTopic → List (String × String) → Type 0
Routes topic mapping =
    All (λ t. is_entry (find_entry t.1 topic.adapters) ≡ true) mapping
    × (contains topic.default_route (keys mapping) ≡ true)

-- What an adapter shows as content is text, and it reports no error.
abbrev pub AnswersInText : Formats → CompiledTopic → Type 0
AnswersInText f topic =
    (x : String) (run : GraphState → Bool → ℕ → Stream) (s : GraphState)
    → find_entry x topic.adapters ≡ some run
    → let es = (adapter_node f run true (find_entry x topic.adapter_retries) s).0 in
      (texts : List String) × (emissions "delta" es ≡ map content_of texts)
      × (emissions "error" es ≡ [])

pub texts_kept :
    (chunks : List Value) (texts : List String)
    → map ok chunks ≡ map content (map content_of texts)
    → chunks ≡ map str texts
texts_kept [] [] h = refl
texts_kept [] (t ∷ texts) h = cc
texts_kept (c ∷ chunks) [] h = cc
texts_kept (c ∷ chunks) (t ∷ texts) h =
    let first : c ≡ str t = cc in
    let rest : map ok chunks ≡ map content (map content_of texts) = cc in
    rw (first, texts_kept chunks texts rest) refl

pub shown_texts : (texts : List String) → map or_empty (map content_of texts) ≡ map content_of texts
shown_texts [] = refl
shown_texts (t ∷ texts) = rw (shown_texts texts) refl

pub found_route :
    (adapters : Adapters) (route : String) (mapping : List (String × String))
    → contains route (keys mapping) ≡ true
    → All (λ t. is_entry (find_entry t.1 adapters) ≡ true) mapping
    → (x : String) × (find_entry route mapping ≡ some x) × (is_entry (find_entry x adapters) ≡ true)
found_route adapters route [] h k = cc
found_route adapters route ((label, x) ∷ mapping) h (its, k) = elim (Bool-cases (label == route)) [
  | inl e ↦ (x, rw e refl, its)
  | inr e ↦
      let off : (route == label) ≡ false = ground (arith, eq_iff route label, eq_iff label route) in
      let (y, found, entry) = found_route adapters route mapping (rw off at h) k in
      (y, rw e found, entry)
]

pub known_route :
    (route : String) (labels : List String) {default : String}
    → (contains route labels ≡ true) ⊎ (route ≡ default)
    → contains default labels ≡ true
    → contains route labels ≡ true
known_route route labels (inl h) k = h
known_route route labels (inr h) k = subst (λ r. contains r labels ≡ true) (sym h) k

pub entry_of {ℓ} : {A : Type ℓ} (o : Option A) → is_entry o ≡ true → (a : A) × (o ≡ some a)
entry_of none h = cc
entry_of (some a) h = (a, refl)

abbrev pub permitted_update : AuthResult → GraphState
permitted_update a = record no_update { auth = some a; user_ctx = a.user_ctx }

pub auth_permits :
    (authorize : GraphState → Outcome AuthResult) (a : AuthResult) (now : Timestamp)
    (s : GraphState) (db : Db)
    → authorize s ≡ ok a
    → a.passed ≡ true
    → pure_node (auth_node authorize) now s db ≡ (
      (
        emit "thinking" auth_thinking ∷ emit "progress" (auth_progress true) ∷ [],
        ok (permitted_update a),
      ),
      db,
    )
unfolding auth_node
auth_permits authorize a now s db h passes = rw (h, passes) refl

abbrev pub enrich_update : EnrichResult → GraphState
enrich_update r = record no_update {
  enriched_question = some r.enriched_question;
  enrich_meta = some r.enrich_meta;
}

abbrev pub enrich_effects : EnrichResult → List Effect
enrich_effects r =
    emit "thinking" (dict (("phase", str "enrich") ∷ []))
    ∷ emit "progress"
        (dict (("step", str "enrich") ∷ ("status", str "done") ∷ ("extra", obj r.enrich_meta) ∷ []))
    ∷ []

pub enriches :
    (enrich : GraphState → Outcome EnrichResult) (r : EnrichResult) (now : Timestamp)
    (s : GraphState) (db : Db)
    → enrich s ≡ ok r
    → pure_node (enrich_node enrich) now s db ≡ ((enrich_effects r, ok (enrich_update r)), db)
unfolding enrich_node
enriches enrich r now s db h = rw h refl

-- The answer's text is complete, or it was cut or had no part.
abbrev pub IsEnded : String → Type 0
IsEnded status = (status ≡ "complete") ⊎ (status ≡ "partial")

pub status-IsEnded : (s : GraphState) → IsEnded (answer_status s)
status-IsEnded s = ground arith

-- What a walk shows as content is what its adapter shows, and no error is in it.
abbrev pub ShowsTexts : List Effect → List String → Type 0
ShowsTexts es texts = (emissions "delta" es ≡ map content_of texts) × (emissions "error" es ≡ [])

pub behind :
    (name : String) (es fs : List Effect)
    → emissions name es ≡ []
    → emissions name (es ++ fs) ≡ emissions name fs
behind name es fs h = emissions-append name es fs ∙ rw h refl

pub emissions-end :
    (name : String) (es : List Effect) → emissions name (es ++ []) ≡ emissions name es
emissions-end name es = ap (emissions name) (append-nil es)

pub not_end : (x : String) → (graph_end == x) ≡ false → (x == graph_end) ≡ false
not_end x h = ground (arith, eq_iff graph_end x, eq_iff x graph_end)
