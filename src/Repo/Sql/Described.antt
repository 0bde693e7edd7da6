-- ===== src/Repo/Sql/Described.antt =====
-- What a statement means that is translated from a template described by its parts.
use Prim.Native.Char.{Char, code}
use text.Mathlib.TextLemmas.{nil-append, cons-append, append-nil, append_assoc}
use ocm_agent_v.Common.{
  Bool-cases, nat_eq, ◌>>=◌, ok, all_chars, String, ◌<>◌, ◌≡◌, refl, ap, ◌∙◌, inl, inr, Bool, true,
  false, not, ◌&&◌, List, [], ◌∷◌, ◌++◌, arith,
}
use ocm_agent_v.Value.{Fields}
use ocm_agent_v.Repo.Sql.{
  Token, plain_char, param, starts_param, in_param, in_text, in_name, scan_all, tokens_of, assign,
}
use ocm_agent_v.Repo.Sql.Binding.{bind, resolve, assign-bind}

-- A part of a template: characters, a parameter, or two colons and the character behind them.
pub data Part : Type 0 where
  words : String → Part
  named : String → Part
  cast : Char → Part

unfoldable pub template_of : List Part → String
template_of [] = ""
template_of (words t ∷ parts) = t <> template_of parts
template_of (named name ∷ parts) = String.◌∷◌ ":" (name <> template_of parts)
template_of (cast c ∷ parts) = String.◌∷◌ ":" (String.◌∷◌ ":" (String.◌∷◌ c (template_of parts)))

abbrev no_colon : Char → Bool
no_colon c = not (nat_eq (code c) 58)

-- `[a-zA-Z_][a-zA-Z0-9_]*`
abbrev is_name : String → Bool
is_name String.[] = false
is_name (String.◌∷◌ c s) = starts_param c && all_chars in_param s

-- The name before it ends here.
abbrev ends_name : String → Bool
ends_name String.[] = true
ends_name (String.◌∷◌ c s) = not (in_param c)

-- Names are names that end where they end, and no other colons stand in the text.
abbrev pub AreParts : List Part → Type 0
AreParts [] = Unit
AreParts (words t ∷ parts) = (all_chars no_colon t ≡ true) × AreParts parts
AreParts (named name ∷ parts) =
    (is_name name ≡ true) × (ends_name (template_of parts) ≡ true) × AreParts parts
AreParts (cast c ∷ parts) = (no_colon c ≡ true) × AreParts parts

abbrev chars_of : String → List Token
chars_of String.[] = []
chars_of (String.◌∷◌ c s) = plain_char c ∷ chars_of s

-- The characters that stay and the parameters, as the parts have them.
unfoldable pub tokens_in : List Part → List Token
tokens_in [] = []
tokens_in (words t ∷ parts) = chars_of t ++ tokens_in parts
tokens_in (named name ∷ parts) = param name ∷ tokens_in parts
tokens_in (cast c ∷ parts) = plain_char ":" ∷ plain_char ":" ∷ plain_char c ∷ tokens_in parts

scan-words :
    (t s : String)
    → all_chars no_colon t ≡ true
    → scan_all in_text (t <> s) ≡ chars_of t ++ scan_all in_text s
unfolding scan_all
scan-words String.[] s h = rw nil-append refl
scan-words (String.◌∷◌ c t) s h =
    let off : nat_eq (code c) 58 ≡ false = ground arith in
    rw (cons-append, off, scan-words t s (ground arith)) refl

scan-name_end :
    (name s : String)
    → ends_name s ≡ true
    → scan_all (in_name name) s ≡ param name ∷ scan_all in_text s
unfolding scan_all
scan-name_end name String.[] h = refl
scan-name_end name (String.◌∷◌ c s) h =
    let off : in_param c ≡ false = ground arith in
    elim (Bool-cases (nat_eq (code c) 58)) [ inl e ↦ rw (off, e) refl | inr e ↦ rw (off, e) refl ]

scan-in_name :
    (name t s : String)
    → all_chars in_param t ≡ true
    → ends_name s ≡ true
    → scan_all (in_name name) (t <> s) ≡ param (name <> t) ∷ scan_all in_text s
unfolding scan_all
scan-in_name name String.[] s h k = rw (nil-append, append-nil) (scan-name_end name s k)
scan-in_name name (String.◌∷◌ c t) s h k =
    let inside : in_param c ≡ true = ground arith in
    let joined : (name <> String.◌∷◌ c "") <> t ≡ name <> String.◌∷◌ c t =
      append_assoc name (String.◌∷◌ c "") t
      ∙ ap (λ l. name <> l) (cons-append c "" t ∙ ap (String.◌∷◌ c) (nil-append t)) in
    rw (cons-append, inside)
      (scan-in_name (name <> String.◌∷◌ c "") t s (ground arith) k
        ∙ ap (λ n. param n ∷ scan_all in_text s) joined)

scan-named :
    (name s : String)
    → is_name name ≡ true
    → ends_name s ≡ true
    → scan_all in_text (String.◌∷◌ ":" (name <> s)) ≡ param name ∷ scan_all in_text s
unfolding scan_all
scan-named String.[] s h k = cc
scan-named (String.◌∷◌ c t) s h k =
    let first : starts_param c ≡ true = ground arith in
    rw (cons-append, first)
      (scan-in_name (String.◌∷◌ c "") t s (ground arith) k
        ∙ ap (λ n. param n ∷ scan_all in_text s)
            (cons-append c "" t ∙ ap (String.◌∷◌ c) (nil-append t)))

scan-cast :
    (c : Char) (s : String)
    → no_colon c ≡ true
    → scan_all in_text (String.◌∷◌ ":" (String.◌∷◌ ":" (String.◌∷◌ c s)))
      ≡ plain_char ":" ∷ plain_char ":" ∷ plain_char c ∷ scan_all in_text s
unfolding scan_all
scan-cast c s h = let off : nat_eq (code c) 58 ≡ false = ground arith in rw off refl

tokens_of-tokens_in :
    (parts : List Part) → AreParts parts → scan_all in_text (template_of parts) ≡ tokens_in parts
unfolding template_of tokens_in
tokens_of-tokens_in [] h = unfold scan_all in refl
tokens_of-tokens_in (words t ∷ parts) (h, hs) =
    scan-words t (template_of parts) h ∙ ap (λ l. chars_of t ++ l) (tokens_of-tokens_in parts hs)
tokens_of-tokens_in (named name ∷ parts) (h, k, hs) =
    scan-named name (template_of parts) h k
    ∙ ap (λ l. param name ∷ l) (tokens_of-tokens_in parts hs)
tokens_of-tokens_in (cast c ∷ parts) (h, hs) =
    scan-cast c (template_of parts) h
    ∙ ap (λ l. plain_char ":" ∷ plain_char ":" ∷ plain_char c ∷ l) (tokens_of-tokens_in parts hs)

-- In a template of words without colons, parameters `:name` whose names are as long as they can be,
-- and casts, which are two colons and a character other than a colon, exactly the parameters are
-- numbered: the pieces of its translation, with each number read as the argument of that number, are
-- the characters of the template with the parameters' values in their places; and if a parameter is
-- missing, the translation raises for the first that is.
pub translation_binds :
    (params : Fields) (parts : List Part)
    → AreParts parts
    → (assign params (tokens_of (template_of parts)) [] [] >>= λ translated.
        ok (resolve translated.1 translated.0))
      ≡ bind params (tokens_in parts)
unfolding tokens_of
translation_binds params parts h =
    assign-bind params (template_of parts) ∙ ap (bind params) (tokens_of-tokens_in parts h)
