-- ===== src/Repo/Sql/Templates.antt =====
-- Which templates a loader that started holds.
use Prim.Native.Char.{Char}
use ocm_agent_v.Common.{
  Bool-cases, entry_cases, key_error, Outcome, ok, raised, ok-injective, find_entry, put,
  some-injective, find_entry-put_value, String, ◌≡◌, refl, sym, ap, ◌∙◌, subst, inl, inr, Bool,
  Option, none, some, List, [], ◌∷◌, ◌==◌,
}
use ocm_agent_v.Plugin.Auth.{join_with}
use ocm_agent_v.Repo.Sql.Loader.{SqlFile, forbidden_label, load_files, load, get_template}

module _ (word : Char → Bool) where
  abbrev AllSafe : List (String × String) → Type 0
  AllSafe templates =
      (name content : String)
      → find_entry name templates ≡ some content
      → forbidden_label word content ≡ none

  put-AllSafe :
      (key content : String) (templates : List (String × String))
      → forbidden_label word content ≡ none
      → AllSafe templates
      → AllSafe (put key content templates)
  put-AllSafe key content templates safe h name found e = elim (Bool-cases (key == name)) [
    | inl same ↦
        subst (λ c. forbidden_label word c ≡ none)
          (some-injective (rw same at (sym (find_entry-put_value name key content templates) ∙ e)))
          safe
    | inr other ↦
        h name found (rw other at (sym (find_entry-put_value name key content templates) ∙ e))
  ]

  load_files-AllSafe :
      (files : List SqlFile) (templates loaded : List (String × String))
      → AllSafe templates
      → load_files word files templates ≡ ok loaded
      → AllSafe loaded
  unfolding load_files
  load_files-AllSafe [] templates loaded h e = subst AllSafe (ok-injective e) h
  load_files-AllSafe (file ∷ files) templates loaded h e =
      let key = join_with "/" file.parts in
      elim (entry_cases (forbidden_label word file.content)) [
        | inl fine ↦
            load_files-AllSafe files (put key file.content templates) loaded
              (put-AllSafe key file.content templates fine h) (rw fine at e)
        | inr (label, bad) ↦ absurd (cc (rw bad at e))
      ]

  -- A template that a loader gives has none of the forbidden placeholders, whatever files it was
  -- made from.
  pub load-get_template :
      (root : String) (files : Option (List SqlFile)) (templates : List (String × String))
      (name content : String)
      → load word root files ≡ ok templates
      → get_template name templates ≡ ok content
      → forbidden_label word content ≡ none
  unfolding load get_template
  load-get_template root none templates name content h g = cc
  load-get_template root (some files) templates name content h g =
      by_entry (find_entry name templates) refl g
    where
      by_entry :
          (o : Option String)
          → find_entry name templates ≡ o
          → elim o as (λ x. Outcome String) [ none ↦ raised (key_error name) | some c ↦ ok c ]
            ≡ ok content
          → forbidden_label word content ≡ none
      by_entry none e out = cc
      by_entry (some c) e out =
          load_files-AllSafe files [] templates (λ n c' k. cc) h name content
            (e ∙ ap some (ok-injective out))
