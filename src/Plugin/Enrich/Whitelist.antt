-- ===== src/Plugin/Enrich/Whitelist.antt =====
-- Only what the white list names gets into the question.
use text.Mathlib.TextLemmas.{nil-append}
use ocm_agent_v.Common.{
  keep, All, String, ◌<>◌, ◌≡◌, refl, ap, ◌∙◌, Bool, true, false, ◌||◌, none, some, List, [], ◌∷◌,
  arith,
}
use ocm_agent_v.Value.{Fields, field, end, arr, lookup, has_key, fields}
use ocm_agent_v.Plugin.Formats.{Formats}
use ocm_agent_v.Plugin.Enrich.{inject, prefix_of, text_items, enrich}
use ocm_agent_v.Graph.State.{GraphState, text_or_empty, dict_or_empty}

-- Two dicts agree at every key of the list.
abbrev pub AgreeOn : List String → Fields → Fields → Type 0
AgreeOn ks d e = All (λ (k : String). lookup k d ≡ lookup k e) ks

inject-AgreeOn :
    (f : Formats) (ks : List String) (biz biz' ctx ctx' : Fields)
    → AgreeOn ks biz biz'
    → AgreeOn ks ctx ctx'
    → inject f biz ctx ks ≡ inject f biz' ctx' ks
unfolding inject
inject-AgreeOn f [] biz biz' ctx ctx' hb hc = refl
inject-AgreeOn f (k ∷ ks) biz biz' ctx ctx' (b, hb) (c, hc) =
    rw (inject-AgreeOn f ks biz biz' ctx ctx' hb hc) (rw (b, c) refl)

-- Two requests with the same question, whose parameters and users agree at the fields of the white
-- list, are enriched alike: nothing else of the user's context reaches the question or the meta data.
pub enrich_whitelist :
    (f : Formats) (whitelist : List String) (s t : GraphState)
    → s.question ≡ t.question
    → AgreeOn whitelist (dict_or_empty s.biz_params) (dict_or_empty t.biz_params)
    → AgreeOn whitelist (dict_or_empty s.user_ctx) (dict_or_empty t.user_ctx)
    → enrich f whitelist s ≡ enrich f whitelist t
unfolding enrich
enrich_whitelist f whitelist s t q hb hc = rw (inject-AgreeOn f whitelist _ _ _ _ hb hc, q) refl

-- Whether a field has a value in the parameters or in the user's context.
abbrev pub is_available : Fields → Fields → String → Bool
is_available biz ctx k = has_key k biz || has_key k ctx

has_key-lookup :
    (k : String) (d : Fields) → has_key k d ≡ elim (lookup k d) [ none ↦ false | some v ↦ true ]
has_key-lookup k end = refl
has_key-lookup k (field j v d) = ground (arith, has_key-lookup k d)

inject_available :
    (f : Formats) (biz ctx : Fields) (ks : List String)
    → (inject f biz ctx ks).1 ≡ keep (is_available biz ctx) ks
unfolding inject
inject_available f biz ctx [] = refl
inject_available f biz ctx (k ∷ ks) =
    ground (arith, inject_available f biz ctx ks, has_key-lookup k biz, has_key-lookup k ctx)

inject_none :
    (f : Formats) (biz ctx : Fields) (ks : List String)
    → (inject f biz ctx ks).1 ≡ []
    → (inject f biz ctx ks).0 ≡ []
unfolding inject
inject_none f biz ctx [] h = refl
inject_none f biz ctx (k ∷ ks) h = ground (arith, inject_none f biz ctx ks)

-- The meta data name exactly the fields of the white list that have a value, in its order, and with
-- none of them the question is left as it is.
pub enrich_injected :
    (f : Formats) (whitelist : List String) (s : GraphState)
    → let available =
        keep (is_available (dict_or_empty s.biz_params) (dict_or_empty s.user_ctx)) whitelist in
      ((enrich f whitelist s).enrich_meta ≡ fields (("injected", arr (text_items available)) ∷ []))
      × (available ≡ [] → (enrich f whitelist s).enriched_question ≡ text_or_empty s.question)
unfolding enrich
enrich_injected f whitelist s =
    let biz = dict_or_empty s.biz_params in
    let ctx = dict_or_empty s.user_ctx in
    let same = inject_available f biz ctx whitelist in
    (
      ap (λ l. fields (("injected", arr (text_items l)) ∷ [])) same,
      λ nothing.
          ap (λ l. prefix_of l <> text_or_empty s.question)
            (inject_none f biz ctx whitelist (same ∙ nothing))
          ∙ nil-append (text_or_empty s.question),
    )
