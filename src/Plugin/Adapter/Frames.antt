-- ===== src/Plugin/Adapter/Frames.antt =====
-- The events of the downstream adapters never ask for a retry.
use ocm_agent_v.Common.{
  Bool-cases, All, Outcome, ok, raised, ok-injective, >>=-eq-ok, String, ◌≡◌, refl, subst, inl, inr,
  List, ◌==◌,
}
use ocm_agent_v.Value.{end, Value, null, str, obj, get_item, get_method}
use ocm_agent_v.Graph.Events.{EventType, delta, ChatEvent, Parsed, parsed, not_json}
use ocm_agent_v.Graph.Nodes.Once.{IsSettled}
use ocm_agent_v.Plugin.Adapter.{
  reported_error, is_word, FrameResult, shown, skipped, ends, shown_if_ok, on_typed_frame,
}
use ocm_agent_v.Plugin.Adapter.Metagc.{Sse, data_of, on_sse}
use ocm_agent_v.Plugin.Adapter.Uniioc.{on_parsed_line, on_line}
use ocm_agent_v.Plugin.Adapter.KnowledgeCenter.{on_raw}

-- Each `delta` has a content; nothing is asked of the other events.
abbrev pub HasContent : EventType → Value → Type 0
HasContent delta d = (c : Value) × (get_item d "content" ≡ ok c)
HasContent _ d = Unit

abbrev pub AllContent : List ChatEvent → Type 0
AllContent = All (λ (ev : ChatEvent). HasContent ev.type ev.payload)

-- Settled, if it has a content.
abbrev pub Settles : EventType → Value → Type 0
Settles type d = HasContent type d → IsSettled type d

abbrev pub Fine : ChatEvent → Type 0
Fine ev = Settles ev.type ev.payload

reported_error-Fine :
    (message : String) (d : Value) (ev : ChatEvent) → reported_error message d ≡ ok ev → Fine ev
reported_error-Fine message d ev h =
    let (code, _, h1) = >>=-eq-ok (get_method d "code" (str "DOWNSTREAM_ERROR")) _ h in
    let (text, _, h2) = >>=-eq-ok (get_method d "message" (str message)) _ h1 in
    subst Fine (ok-injective h2) (λ c. refl)

abbrev pub FineResult : FrameResult → Type 0
FineResult (shown ev) = Fine ev
FineResult skipped = Unit
FineResult ends = Unit

shown_if_ok-FineResult :
    (r : Outcome ChatEvent) (x : FrameResult)
    → ((ev : ChatEvent) → r ≡ ok ev → Fine ev)
    → shown_if_ok r ≡ ok x
    → FineResult x
shown_if_ok-FineResult (raised e) x k h = cc
shown_if_ok-FineResult (ok ev) x k h = subst FineResult (ok-injective h) (k ev refl)

on_typed_frame-FineResult :
    (message : String) (frame : Value) (x : FrameResult)
    → on_typed_frame message frame ≡ ok x
    → FineResult x
on_typed_frame-FineResult message frame x h =
    let (ft, _, h1) = >>=-eq-ok (get_method frame "type" null) _ h in
    let (fd, _, h2) = >>=-eq-ok (get_method frame "data" (obj end)) _ h1 in
    elim (Bool-cases (is_word "delta" ft)) [
      | inl e ↦ subst FineResult (ok-injective (rw e at h2)) (λ c. c)
      | inr e ↦ elim (Bool-cases (is_word "error" ft)) [
        | inl g ↦
            shown_if_ok-FineResult (reported_error message fd) x (reported_error-Fine message fd)
              (rw (e, g) at h2)
        | inr g ↦ elim (Bool-cases (is_word "done" ft)) [
          | inl k ↦ subst FineResult (ok-injective (rw (e, g, k) at h2)) tt
          | inr k ↦ subst FineResult (ok-injective (rw (e, g, k) at h2)) tt
        ]
      ]
    ]

on_parsed_line-FineResult : (p : Parsed) (x : FrameResult) → on_parsed_line p ≡ ok x → FineResult x
on_parsed_line-FineResult (parsed frame) x h = on_typed_frame-FineResult "Uniioc 上游出错" frame x h
on_parsed_line-FineResult (not_json text) x h = subst FineResult (ok-injective h) tt

pub on_line-FineResult :
    (loads : String → Parsed) (line : String) (x : FrameResult)
    → on_line loads line ≡ ok x
    → FineResult x
on_line-FineResult loads line x h = elim (Bool-cases (line == "")) [
  | inl e ↦ subst FineResult (ok-injective (rw e at h)) tt
  | inr e ↦ on_parsed_line-FineResult (loads line) x (rw e at h)
]

pub on_raw-FineResult : (p : Parsed) (x : FrameResult) → on_raw p ≡ ok x → FineResult x
on_raw-FineResult (parsed frame) x h = on_typed_frame-FineResult "知识中心查询出错" frame x h
on_raw-FineResult (not_json text) x h = subst FineResult (ok-injective h) tt

pub on_sse-FineResult :
    (loads : String → Parsed) (sse : Sse) (x : FrameResult) → on_sse loads sse ≡ ok x → FineResult x
on_sse-FineResult loads sse x h = elim (Bool-cases (sse.event == "meta")) [
  | inl e ↦ subst FineResult (ok-injective (rw e at h)) tt
  | inr e ↦ elim (Bool-cases (sse.event == "delta")) [
    | inl g ↦
        let (d, _, h1) = >>=-eq-ok (data_of loads sse.payload) _ (rw (e, g) at h) in
        subst FineResult (ok-injective h1) (λ c. c)
    | inr g ↦ elim (Bool-cases (sse.event == "error")) [
      | inl k ↦
          let (d, _, h1) = >>=-eq-ok (data_of loads sse.payload) _ (rw (e, g, k) at h) in
          let (ev, told, h2) = >>=-eq-ok (reported_error "MetaGC 上游出错" d) _ h1 in
          subst FineResult (ok-injective h2) (reported_error-Fine "MetaGC 上游出错" d ev told)
      | inr k ↦ elim (Bool-cases (sse.event == "done")) [
        | inl l ↦ subst FineResult (ok-injective (rw (e, g, k, l) at h)) tt
        | inr l ↦ subst FineResult (ok-injective (rw (e, g, k, l) at h)) tt
      ]
    ]
  ]
]
