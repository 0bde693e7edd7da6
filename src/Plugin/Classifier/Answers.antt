-- ===== src/Plugin/Classifier/Answers.antt =====
-- The classifier reads the answers that its prompt asks for.
use ocm_agent_v.Plugin.Formats.{Formats}
use Prim.Native.Char.{Char}
use text.Mathlib.TextLemmas.{nil-append, cons-append}
use ocm_agent_v.Common.{
  ok, is_space, is_newline, all_chars, String, ◌<>◌, ◌≡◌, refl, ap, ◌∙◌, true, false, not, Option,
  none, some, arith, ◌==◌,
}
use ocm_agent_v.Plugin.Classifier.{
  skip_spaces, in_label, take_label, ends_line, after_word, route_at, line_of, strip_end, reason_at,
  first_of, later_lines, search_lines, read_answer,
}

label_not_space : (c : Char) → in_label c ≡ true → is_space c ≡ false
unfolding is_space
label_not_space c h = ground arith

label_not_newline : (c : Char) → in_label c ≡ true → is_newline c ≡ false
label_not_newline c h = ground arith

skip_spaces-label :
    (label rest : String)
    → (label == "") ≡ false
    → all_chars in_label label ≡ true
    → skip_spaces (label <> rest) ≡ label <> rest
skip_spaces-label String.[] rest some_char h = cc
skip_spaces-label (String.◌∷◌ c label) rest some_char h =
    rw cons-append (rw (label_not_space c (ground arith)) refl)

take_label-append :
    (label rest : String)
    → all_chars in_label label ≡ true
    → take_label rest ≡ ("", rest)
    → take_label (label <> rest) ≡ (label, rest)
take_label-append String.[] rest h k = rw nil-append k
take_label-append (String.◌∷◌ c label) rest h k =
    let here : in_label c ≡ true = ground arith in
    rw (cons-append, here, take_label-append label rest (ground arith) k) refl

later_lines-append :
    (m : String → Option String) (p s : String)
    → all_chars (λ c. not (is_newline c)) p ≡ true
    → later_lines m (p <> s) ≡ later_lines m s
unfolding later_lines
later_lines-append m String.[] s h = rw nil-append refl
later_lines-append m (String.◌∷◌ c p) s h =
    let here : is_newline c ≡ false = ground arith in
    rw (cons-append, here) (later_lines-append m p s (ground arith))

label_in_line :
    (label : String)
    → all_chars in_label label ≡ true
    → all_chars (λ c. not (is_newline c)) label ≡ true
label_in_line String.[] h = refl
label_in_line (String.◌∷◌ c label) h =
    let here : is_newline c ≡ false = label_not_newline c (ground arith) in
    rw here (label_in_line label (ground arith))

after_route : (s : String) → after_word "route" ("route: " <> s) ≡ some (skip_spaces s)
unfolding is_space
after_route s =
    rw
      (
        cons-append, cons-append, cons-append, cons-append, cons-append, cons-append, cons-append,
        nil-append,
      )
      refl

after_reason : (s : String) → after_word "reason" ("reason: " <> s) ≡ some (skip_spaces s)
unfolding is_space
after_reason s =
    rw
      (
        cons-append, cons-append, cons-append, cons-append, cons-append, cons-append, cons-append,
        cons-append, nil-append,
      )
      refl

no_reason_first : (s : String) → reason_at ("route: " <> s) ≡ none
unfolding reason_at is_space
no_reason_first s = rw (cons-append, cons-append) refl

-- A reason that is one line, without white space around it.
pub record IsReason (reason : String) : Type 0 where
  pub one_line : line_of reason ≡ reason
  pub no_leading : skip_spaces reason ≡ reason
  pub no_trailing : strip_end reason ≡ reason

-- The two lines that the prompt asks for.
abbrev pub printed : String → String → String
printed label reason = "route: " <> label <> "\nreason: " <> reason

newline_reason : (s : String) → "\nreason: " <> s ≡ Prim.Native.String.◌∷◌ "\n" ("reason: " <> s)
newline_reason s = cons-append "\n" "reason: " s

route_of-printed :
    (label reason : String)
    → (label == "") ≡ false
    → all_chars in_label label ≡ true
    → search_lines route_at (printed label reason) ≡ some label
unfolding search_lines route_at ends_line
route_of-printed label reason some_char h =
    rw
      (
        after_route (label <> "\nreason: " <> reason),
        skip_spaces-label label ("\nreason: " <> reason) some_char h,
        newline_reason reason,
        take_label-append label _ h refl,
        some_char,
      )
      refl

reason_at-printed :
    (reason : String) → IsReason reason → reason_at ("reason: " <> reason) ≡ some reason
unfolding reason_at
reason_at-printed reason ok_reason =
    rw (after_reason reason, ok_reason.no_leading, ok_reason.one_line, ok_reason.no_trailing) refl

reason_line :
    (reason : String)
    → IsReason reason
    → later_lines reason_at (Prim.Native.String.◌∷◌ "\n" ("reason: " <> reason)) ≡ some reason
unfolding later_lines
reason_line reason ok_reason = rw (reason_at-printed reason ok_reason) refl

reason_of-printed :
    (label reason : String)
    → all_chars in_label label ≡ true
    → IsReason reason
    → search_lines reason_at (printed label reason) ≡ some reason
unfolding search_lines
reason_of-printed label reason h ok_reason =
    ap (λ r. first_of r (later_lines reason_at (printed label reason)))
      (no_reason_first (label <> "\nreason: " <> reason))
    ∙ later_lines-append reason_at "route: " (label <> "\nreason: " <> reason) refl
    ∙ later_lines-append reason_at label ("\nreason: " <> reason) (label_in_line label h)
    ∙ ap (later_lines reason_at) (newline_reason reason)
    ∙ reason_line reason ok_reason

-- An answer in the two lines that the prompt asks for is read back, the route as the label and the
-- reason as the reason, if the label is not empty and has only letters and digits of ASCII, `_` and
-- `-`, and the reason is one line with no white space around it.
pub read_answer-printed :
    (f : Formats) (label reason : String)
    → (label == "") ≡ false
    → all_chars in_label label ≡ true
    → IsReason reason
    → read_answer f (printed label reason)
      ≡ ok (record { route = label; confidence = 100; reason = reason })
unfolding read_answer
read_answer-printed f label reason some_char h ok_reason =
    rw (route_of-printed label reason some_char h, reason_of-printed label reason h ok_reason) refl
