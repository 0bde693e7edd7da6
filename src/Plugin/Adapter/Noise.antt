-- ===== src/Plugin/Adapter/Noise.antt =====
-- What the adapters that read lines or frames of JSON leave out.
use ocm_agent_v.Common.{
  Bool-cases, keep, ok, String, ◌≡◌, refl, ap, inl, inr, Bool, true, false, not, ◌&&◌, List, [],
  ◌∷◌, ◌==◌,
}
use ocm_agent_v.Graph.Events.{Parsed, parsed, not_json}
use ocm_agent_v.Plugin.Adapter.{TransportEnd, skipped, continue_with, propagated}
use ocm_agent_v.Plugin.Adapter.Uniioc.{on_parsed_line, on_line, uniioc_events}
use ocm_agent_v.Plugin.Adapter.KnowledgeCenter.{center_failure, on_raw, center_events}

abbrev pub is_json : Parsed → Bool
is_json (parsed v) = true
is_json (not_json text) = false

on_raw_noise : (p : Parsed) → is_json p ≡ false → on_raw p ≡ ok skipped
on_raw_noise (parsed v) h = cc
on_raw_noise (not_json text) h = refl

on_line_noise :
    (loads : String → Parsed) (line : String)
    → (not (line == "") && is_json (loads line)) ≡ false
    → on_line loads line ≡ ok skipped
on_line_noise loads line h = elim (Bool-cases (line == "")) [
  | inl e ↦ rw e refl
  | inr e ↦ rw e (by_parse (loads line) (rw e at h))
]
  where
    by_parse : (p : Parsed) → is_json p ≡ false → on_parsed_line p ≡ ok skipped
    by_parse (parsed v) k = cc
    by_parse (not_json text) k = refl

uniioc_noise :
    (loads : String → Parsed) (last : TransportEnd) (lines : List String)
    → uniioc_events loads (keep (λ l. not (l == "") && is_json (loads l)) lines) last
      ≡ uniioc_events loads lines last
unfolding uniioc_events
uniioc_noise loads last [] = refl
uniioc_noise loads last (line ∷ lines) =
    elim (Bool-cases (not (line == "") && is_json (loads line))) [
      | inl e ↦
          rw e (ap (continue_with propagated (on_line loads line)) (uniioc_noise loads last lines))
      | inr e ↦ rw (e, on_line_noise loads line e) (uniioc_noise loads last lines)
    ]

center_noise :
    (loads : String → Parsed) (last : TransportEnd) (raws : List String)
    → center_events loads (keep (λ r. is_json (loads r)) raws) last ≡ center_events loads raws last
unfolding center_events
center_noise loads last [] = refl
center_noise loads last (raw ∷ raws) = elim (Bool-cases (is_json (loads raw))) [
  | inl e ↦
      rw e (
        ap (continue_with (λ x. center_failure) (on_raw (loads raw)))
          (center_noise loads last raws))
  | inr e ↦ rw (e, on_raw_noise (loads raw) e) (center_noise loads last raws)
]

-- Frames that are no JSON, and for Uniioc empty lines too, do not change the stream, wherever they
-- stand and however the transport ends.
pub noise_is_skipped :
    (loads : String → Parsed) (last : TransportEnd) (texts : List String)
    → (uniioc_events loads (keep (λ t. not (t == "") && is_json (loads t)) texts) last
        ≡ uniioc_events loads texts last)
      × (center_events loads (keep (λ t. is_json (loads t)) texts) last
          ≡ center_events loads texts last)
noise_is_skipped loads last texts = (uniioc_noise loads last texts, center_noise loads last texts)
