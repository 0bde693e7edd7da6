-- ===== src/Repo/Sql/Loader.antt =====
-- src/ma/core/repo/sql_loader.py. A file is its path, the parts of the path below the root, without
-- its suffix, and its content; `word` says which characters `\w` matches.
use Prim.Native.Char.{Char}
use ocm_agent_v.Common.{
  if◌then◌else◌, key_error, file_not_found, unsafe_sql_template, Outcome, ok, raised, strip_prefix,
  find_entry, put, String, ◌<>◌, Bool, true, false, ◌&&◌, ◌||◌, Option, none, some, List, [], ◌∷◌,
  ◌>>=◌,
}
use ocm_agent_v.Value.{Fields, Value}
use ocm_agent_v.Plugin.Formats.{Formats}
use ocm_agent_v.Plugin.Auth.{join_with}
use ocm_agent_v.Repo.Sql.{starts_param, translate_named_params, SqlExecutor}

pub record SqlFile : Type 0 where
  pub path : String
  pub parts : List String
  pub content : String

abbrev matches_rest : (String → Bool) → Option String → Bool
matches_rest m none = false
matches_rest m (some s) = m s

-- A pattern somewhere in the text.
abbrev pub anywhere : (String → Bool) → String → Bool
anywhere m String.[] = m ""
anywhere m (String.◌∷◌ c s) = m (String.◌∷◌ c s) || anywhere m s

module _ (word : Char → Bool) where
  -- `\w*` up to a text that no `\w` begins.
  abbrev words_then : String → String → Bool
  words_then last String.[] = matches_rest (λ s. true) (strip_prefix last "")
  words_then last (String.◌∷◌ c s) =
      let rest = words_then last s in
      matches_rest (λ s. true) (strip_prefix last (String.◌∷◌ c s)) || (word c && rest)

  -- `[a-zA-Z_]\w*` and then `last`
  abbrev name_then : String → String → Bool
  name_then last String.[] = false
  name_then last (String.◌∷◌ c s) = let rest = words_then last s in starts_param c && rest

  -- `_FORBIDDEN_PATTERNS`, with their labels.
  abbrev pub forbidden_patterns : List ((String → Bool) × String)
  forbidden_patterns =
      (
        (λ s. matches_rest (name_then "}") (strip_prefix "{" s)),
        "Python f-string / str.format() placeholder",
      )
      ∷ (
        (λ s. matches_rest (name_then ")s") (strip_prefix "%(" s)),
        "percent-style named placeholder",
      )
      ∷ (
        (λ s. matches_rest (λ r. true) (strip_prefix "%s" s)),
        "percent-style positional placeholder",
      )
      ∷ []

  -- The loop over the patterns: the label of the first that is in the text.
  abbrev pub first_label : List ((String → Bool) × String) → String → Option String
  first_label [] content = none
  first_label ((m, label) ∷ patterns) content =
      if anywhere m content then some label else first_label patterns content

  unfoldable pub forbidden_label : String → Option String
  forbidden_label content = first_label forbidden_patterns content

  abbrev pub checked_file :
      SqlFile → Option String → Outcome (List (String × String)) → Outcome (List (String × String))
  checked_file file none rest = rest
  checked_file file (some label) rest =
      raised
        (unsafe_sql_template (file.path <> ": forbidden " <> label <> " (must use :name only)"))

  -- The loop over the files.
  unfoldable pub load_files :
      List SqlFile → List (String × String) → Outcome (List (String × String))
  load_files [] templates = ok templates
  load_files (file ∷ files) templates =
      checked_file file (forbidden_label file.content)
        (load_files files (put (join_with "/" file.parts) file.content templates))

  -- `SqlLoader(root)`; there are no files if the root is no directory.
  unfoldable pub load : String → Option (List SqlFile) → Outcome (List (String × String))
  unfolding load_files
  load root none = raised (file_not_found ("SQL root not found: " <> root))
  load root (some files) = load_files files []

-- `SqlLoader.get`
unfoldable pub get_template : String → List (String × String) → Outcome String
get_template name templates = elim (find_entry name templates) [
  | none ↦ raised (key_error name)
  | some content ↦ ok content
]

-- The statement and the arguments of `fetch_all`, `fetch_one` and `execute`.
unfoldable pub prepared :
    {Pool : Type 0} → Formats → SqlExecutor Pool → String → Fields → Outcome (String × List Value)
unfolding get_template
prepared f ex name params = do
  sql ← get_template name ex.templates
  translate_named_params f sql params

-- The three methods; `run` is what a connection of the pool does with a statement.
module _ {Pool Row : Type 0} (f : Formats) (run : Pool → String → List Value → Outcome Row)
    (ex : SqlExecutor Pool) where
  unfoldable pub fetch : String → Fields → Outcome Row
  unfolding prepared
  fetch name params = do query ← prepared f ex name params; run ex.ro_pool query.0 query.1

  unfoldable pub execute : String → Fields → Outcome Row
  unfolding prepared
  execute name params = do query ← prepared f ex name params; run ex.rw_pool query.0 query.1
