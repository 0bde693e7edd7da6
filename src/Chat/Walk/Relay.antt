-- ===== src/Chat/Walk/Relay.antt =====
-- What a request shows of the events that the nodes dispatch.
use ocm_agent_v.Common.{
  if◌then◌else◌, Bool-cases, find_entry, ok, String, ◌≡◌, refl, sym, ap, ◌∙◌, inl, inr, false, List,
  [], ◌∷◌, ◌++◌, map, arith, ◌==◌, eq_iff,
}
use ocm_agent_v.Value.{Value}
use ocm_agent_v.Graph.Trace.{Effect, emit, sleep, attempt, emissions}
use ocm_agent_v.Graph.Nodes.{StreamEnd}
use ocm_agent_v.Graph.Events.{delta, ChatEvent}
use ocm_agent_v.Chat.{StreamedEvent, or_empty, relay_error, passing, passed_on, chained, relay_all}
use ocm_agent_v.Chat.Walk.{customs, dispatched}

-- The events that are passed on, if none of them is an error.
abbrev pub passed : List (String × Value) → List ChatEvent
passed [] = []
passed ((name, v) ∷ cs) = passed_on (find_entry name passing) (or_empty v) ++ passed cs

-- The contents shown: the data of the `delta` events.
abbrev pub deltas : List ChatEvent → List Value
deltas [] = []
deltas (ev ∷ evs) = let rest = deltas evs in elim ev.type [ delta ↦ ev.payload ∷ rest | _ ↦ rest ]

-- `relay_all` on custom events: names with their data.
abbrev pub relay_customs :
    List (String × String) → List (String × Value) → StreamEnd → List ChatEvent × StreamEnd
relay_customs messages [] last = ([], last)
relay_customs messages ((name, v) ∷ cs) last =
    chained
      (if name == "error"
        then relay_error messages (or_empty v)
        else ok (passed_on (find_entry name passing) (or_empty v)))
      (relay_customs messages cs last)

pub relay_all-customs :
    (messages : List (String × String)) (evs : List StreamedEvent) (last : StreamEnd)
    → relay_all messages evs last ≡ relay_customs messages (customs evs) last
unfolding relay_all
relay_all-customs messages [] last = refl
relay_all-customs messages (ev ∷ evs) last = elim (Bool-cases (ev.event == "on_custom_event")) [
  | inl e ↦ rw e (ap (chained _) (relay_all-customs messages evs last))
  | inr e ↦ rw e (relay_all-customs messages evs last)
]

-- Events none of which is an error are passed on to the end.
pub relay_customs-passed :
    (messages : List (String × String)) (es : List Effect) (last : StreamEnd)
    → emissions "error" es ≡ []
    → relay_customs messages (dispatched es) last ≡ (passed (dispatched es), last)
unfolding emissions
relay_customs-passed messages [] last h = refl
relay_customs-passed messages (emit name v ∷ es) last h = elim (Bool-cases (name == "error")) [
  | inl e ↦ absurd (cc (rw e at h))
  | inr e ↦ rw (e, relay_customs-passed messages es last (rw e at h)) refl
]
relay_customs-passed messages (sleep ms ∷ es) last h = relay_customs-passed messages es last h
relay_customs-passed messages (attempt n ∷ es) last h = relay_customs-passed messages es last h

deltas-append : (evs fs : List ChatEvent) → deltas (evs ++ fs) ≡ deltas evs ++ deltas fs
deltas-append [] fs = refl
deltas-append (ev ∷ evs) fs = ground (arith, deltas-append evs fs)

deltas-other :
    (name : String) (v : Value)
    → (name == "delta") ≡ false
    → deltas (passed_on (find_entry name passing) v) ≡ []
deltas-other name v h = elim (Bool-cases ("thinking" == name)) [
  | inl e ↦ rw e refl
  | inr e ↦ elim (Bool-cases ("progress" == name)) [
    | inl g ↦ rw (e, g) refl
    | inr g ↦ elim (Bool-cases ("delta" == name)) [
      | inl k ↦ absurd (cc (rw (sym ((eq_iff "delta" name).0 k)) at h))
      | inr k ↦ elim (Bool-cases ("tool" == name)) [
        | inl l ↦ rw (e, g, k, l) refl
        | inr l ↦ rw (e, g, k, l) refl
      ]
    ]
  ]
]

deltas-passed_on :
    (name : String) (v : Value)
    → deltas (passed_on (find_entry name passing) v) ≡ (if name == "delta" then v ∷ [] else [])
deltas-passed_on name v = elim (Bool-cases (name == "delta")) [
  | inl e ↦ rw ((eq_iff name "delta").0 e) refl
  | inr e ↦ rw e (deltas-other name v e)
]

-- What is shown as content is what the nodes dispatched as content.
pub deltas-passed :
    (es : List Effect) → deltas (passed (dispatched es)) ≡ map or_empty (emissions "delta" es)
unfolding emissions
deltas-passed [] = refl
deltas-passed (emit name v ∷ es) =
    deltas-append (passed_on (find_entry name passing) (or_empty v)) (passed (dispatched es))
    ∙ rw (deltas-passed_on name (or_empty v), deltas-passed es)
        (elim (Bool-cases (name == "delta")) [ inl e ↦ rw e refl | inr e ↦ rw e refl ])
deltas-passed (sleep ms ∷ es) = deltas-passed es
deltas-passed (attempt n ∷ es) = deltas-passed es
