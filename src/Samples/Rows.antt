-- ===== src/Samples/Rows.antt =====
-- Tests of the tables, and of the node that stores an answer.
use mathlib.Core.Option
use ocm_agent_v.Common.{
  session_biz_mismatch, unique_violation, ok, raised, ◌≡◌, refl, String, ◌≢◌, ◌⊎◌, none, some, List,
  [], ◌∷◌, ◌++◌,
}
use ocm_agent_v.Value.{end, str}
use ocm_agent_v.Repo.Models.{Session, Db}
use ocm_agent_v.Repo.Sessions.{
  find_session, new_session, mismatch_text, get_or_create_amid, get_or_create,
}
use ocm_agent_v.Repo.Sessions.Binding.{get_or_create_race}
use ocm_agent_v.Repo.Sessions.Table.{Call, open_session, touch_session, perform, run_calls}
use ocm_agent_v.Repo.Sessions.Lasting.{get_or_create_binds}
use ocm_agent_v.Repo.Messages.{numbered, append, list_recent}
use ocm_agent_v.Repo.Messages.Append.{append-list_recent}
use ocm_agent_v.Repo.Messages.Keys.{IsTaken, HasUniqueKeys, append-HasUniqueKeys}
use ocm_agent_v.Graph.State.{GraphState, no_update}
use ocm_agent_v.Graph.Builtins.{persist_node}
use ocm_agent_v.Graph.Builtins.Answer.{IsStatusOf, touched, persist_node_stores}
use ocm_agent_v.Samples.Data.{asking, question, some_db}

abbrev sales_session : Session
sales_session = new_session 7 "th_1" "sales" "zhangsan" none

abbrev sales_db : Db
sales_db = record some_db { sessions = sales_session ∷ [] }

sales_now : get_or_create 7 "th_1" "sales" "zhangsan" none some_db ≡ (ok sales_session, sales_db)
unfolding get_or_create
sales_now = refl

-- What is done in between: the session is touched, and another user asks for the thread.
abbrev calls : List Call
calls = touch_session 8 "th_1" ∷ open_session 9 "th_1" "finance" "lisi" none ∷ []

get_or_create_binds_example :
    let later = (run_calls perform calls sales_db).1 in
    (s : Session) × (find_session "th_1" later.sessions ≡ some s)
    × (s.biz_id ≡ "sales")
    × (s.w3_account ≡ sales_session.w3_account)
    × (((◌≡◌ {A = String} "sales" "finance")
          × (get_or_create 10 "th_1" "finance" "zhangsan" none later ≡ (ok s, later)))
        ⊎ ((◌≢◌ {A = String} "sales" "finance")
            × (get_or_create 10 "th_1" "finance" "zhangsan" none later
                ≡ (raised (session_biz_mismatch (mismatch_text "th_1" "sales" "finance")), later))))
get_or_create_binds_example =
    get_or_create_binds 7 10 "th_1" "sales" "finance" "zhangsan" "zhangsan" none none some_db
      sales_session sales_db calls sales_now

get_or_create_race_example :
    get_or_create_amid
      (λ d. record d { sessions = d.sessions ++ sales_session ∷ [] })
      8
      "th_1"
      "finance"
      "zhangsan"
      none
      some_db
    ≡ (ok sales_session, record some_db { sessions = some_db.sessions ++ sales_session ∷ [] })
get_or_create_race_example =
    get_or_create_race 8 "th_1" "finance" "zhangsan" none some_db sales_session refl refl

append-list_recent_example :
    ((append 1 question some_db).0 ≡ ok tt)
    × (list_recent "th_1" 3 (append 1 question some_db).1
        ≡ numbered 1 question some_db.messages ∷ list_recent "th_1" 2 some_db)
append-list_recent_example = append-list_recent 1 2 question some_db refl refl refl

append-HasUniqueKeys_example :
    let r = append 1 question some_db in
    HasUniqueKeys r.1.messages
    × ((r ≡ (
      ok tt,
      record some_db { messages = some_db.messages ++ numbered 1 question some_db.messages ∷ [] },
    ))
        ⊎ ((r ≡ (raised (unique_violation "ma_message"), some_db))
            × IsTaken question some_db.messages))
append-HasUniqueKeys_example = append-HasUniqueKeys 1 question some_db (tt, tt)

abbrev answered : GraphState
answered = record asking {
  assistant_message_id = some "m2";
  answer_chunks = some (str "a" ∷ str "b" ∷ []);
}

persist_node_stores_example :
    let (r, db') = persist_node 9 answered sales_db in
    (r ≡ ok no_update)
    × ((status : String) × IsStatusOf answered ("a" ∷ "b" ∷ []) status
        × (list_recent "th_1" 3 db'
            ≡ record {
              message_id = "m2";
              thread_id = "th_1";
              seq = 1;
              role = "assistant";
              content = "ab";
              content_meta = end;
              status = status;
              route = answered.route;
              request_id = answered.request_id;
              created_at = some 9;
              ext = end;
            }
              ∷ list_recent "th_1" 2 sales_db))
    × (find_session "th_1" db'.sessions
        ≡ Option.map (touched 9) (find_session "th_1" sales_db.sessions))
persist_node_stores_example =
    persist_node_stores 9 2 answered "m2" "th_1" ("a" ∷ "b" ∷ []) sales_db refl refl refl refl
