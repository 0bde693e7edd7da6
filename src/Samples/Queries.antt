-- ===== src/Samples/Queries.antt =====
-- Tests of the SQL templates, and of the sessions against their abstract store.
use Prim.Native.Char.{Char, code}
use ocm_agent_v.Common.{leb, put, ok, String, ◌≡◌, refl, Bool, none, some, List, [], ◌∷◌, ◌>>=◌}
use ocm_agent_v.Value.{Fields, str, fields}
use ocm_agent_v.Repo.Sessions.Table.{
  table_of, Call, open_session, look_up, touch_session, perform, specified, run_calls,
  sessions_refine,
}
use ocm_agent_v.Repo.Sql.{tokens_of, assign, translate_named_params}
use ocm_agent_v.Repo.Sql.Binding.{bind, resolve}
use ocm_agent_v.Repo.Sql.Described.{
  Part, words, named, cast, template_of, tokens_in, translation_binds,
}
use ocm_agent_v.Repo.Sql.Loader.{SqlFile, forbidden_label, load, get_template}
use ocm_agent_v.Samples.Data.{plain, some_db}

abbrev sql : String
sql = "SELECT a::jsonb WHERE x = :id OR y = :id"

abbrev params : Fields
params = fields (("id", str "th_1") ∷ [])

test_translate :
    translate_named_params plain sql params
    ≡ ok ("SELECT a::jsonb WHERE x = $n OR y = $n", str "th_1" ∷ [])
unfolding translate_named_params
test_translate = refl

-- "a::jsonb = :id, :id"
abbrev parts : List Part
parts = words "a" ∷ cast "j" ∷ words "sonb = " ∷ named "id" ∷ words ", " ∷ named "id" ∷ []

test_parts : template_of parts ≡ "a::jsonb = :id, :id"
unfolding template_of
test_parts = refl

translation_binds_example :
    (assign params (tokens_of (template_of parts)) [] [] >>= λ translated.
    ok (resolve translated.1 translated.0))
    ≡ bind params (tokens_in parts)
unfolding template_of
translation_binds_example =
    translation_binds params parts (refl, (refl, (refl, ((refl, refl, (refl, (refl, refl, tt)))))))

abbrev small_letter : Char → Bool
small_letter c = leb 97 (code c)

abbrev files : List SqlFile
files =
    record { path = "sql/a/b.sql"; parts = "a" ∷ "b" ∷ []; content = "SELECT :id" }
    ∷ record { path = "sql/a/c.sql"; parts = "a" ∷ "c" ∷ []; content = "{ id" }
    ∷ []

abbrev templates : List (String × String)
templates = ("a/b", "SELECT :id") ∷ ("a/c", "{ id") ∷ []

test_loaded : load small_letter "sql" (some files) ≡ ok templates
unfolding load forbidden_label put
test_loaded = refl

test_given : get_template "a/b" templates ≡ ok "SELECT :id"
unfolding get_template
test_given = refl

abbrev calls : List Call
calls =
    open_session 1 "th_1" "sales" "zhangsan" none
    ∷ open_session 2 "th_1" "finance" "zhangsan" none
    ∷ touch_session 3 "th_1"
    ∷ look_up "th_1"
    ∷ []

sessions_refine_example :
    let (rs, db') = run_calls perform calls some_db in
    run_calls specified calls (table_of some_db) ≡ (rs, table_of db')
sessions_refine_example = sessions_refine calls some_db
