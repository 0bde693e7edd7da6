-- ===== src/Samples/Sockets.antt =====
-- Tests of a WebSocket connection.
use ocm_agent_v.Common.{length, replicate, String, ◌≡◌, refl, List, [], ◌∷◌, arith}
use ocm_agent_v.Api.Socket.{new_connection, Input, timed_out, goes_on, run}
use ocm_agent_v.Api.Socket.Bound.{IsBounded, run-IsBounded}
use ocm_agent_v.Api.Socket.Shared.{ask_frame, run_shared_asks}
use ocm_agent_v.Common.{ltb, ℕ, Bool, true, none, some, ◌<>◌}
use ocm_agent_v.Value.{fields, str, end}
use ocm_agent_v.Graph.Events.{encode_ws_ready, encode_ws_closed}
use ocm_agent_v.Topic.Registry.{get}
use ocm_agent_v.Chat.{ChatRequest}
use ocm_agent_v.Api.History.{answers}
use ocm_agent_v.Api.Stream.{request_of, chat_sse}
use ocm_agent_v.Api.Socket.Handshake.{
  accepts, sends, closes, Caller, request_of_frame, handshake, forwarded,
}
use ocm_agent_v.Api.Socket.Opening.{upgrade_of, handshake_agrees}
use ocm_agent_v.Samples.Endpoints.{loads, known_topics, body, headers}
use ocm_agent_v.Samples.Data.{user, plain, delta_of}

abbrev served_request : ChatRequest
served_request = request_of body headers "U" end

served_now : chat_sse loads true known_topics "U" body headers ≡ answers served_request
unfolding chat_sse get
served_now = refl

abbrev inputs : List (String × Input)
inputs = ("U", ask_frame "r1" "how much") ∷ ("U", timed_out) ∷ []

run-IsBounded_example : IsBounded (run plain inputs new_connection).1
run-IsBounded_example = run-IsBounded plain inputs new_connection (omega arith)

test_cancelled : (run plain inputs new_connection).1.1.cancels ≡ 0 ∷ []
unfolding run
test_cancelled = refl

run_shared_asks_example :
    let (sent, (next, c)) =
      run plain (replicate 7 ("U", ask_frame "r1" "how much")) new_connection in
    (sent ≡ []) × (next ≡ goes_on) × (length c.tasks ≡ 7)
run_shared_asks_example = run_shared_asks plain "U" "r1" "how much" 7

handshake_agrees_example :
    (caller : Caller) × (handshake loads true known_topics (upgrade_of body headers)
      ≡ (accepts ∷ sends encode_ws_ready ∷ [], some caller))
    × (caller.w3_account ≡ "zhangsan")
    × (caller.biz_id ≡ "sales")
    × (served_request.identity ≡ some caller.identity)
handshake_agrees_example =
    handshake_agrees loads true known_topics "U" "bad" body headers served_request refl (λ e. cc)
      served_now

test_refusal :
    handshake loads true [] (upgrade_of body headers)
    ≡ (accepts ∷ sends (encode_ws_closed ("unknown biz_id: " <> "sales")) ∷ closes 1008 ∷ [], none)
unfolding handshake get
test_refusal = refl

-- The client is gone before the third event.
abbrev two_sends : ℕ → Bool
two_sends n = ltb n 2

test_cut : length (forwarded two_sends (str "r1") 0 (replicate 4 (delta_of "a"))) ≡ 2
test_cut = refl

abbrev caller : Caller
caller = record { w3_account = "zhangsan"; biz_id = "sales"; identity = user }

test_request :
    request_of_frame caller "U"
      (fields (("op", str "ask") ∷ ("thread_id", str "th_1") ∷ ("question", str "how much") ∷ []))
    ≡ some (record {
      biz_id = "sales";
      thread_id = "th_1";
      w3_account = "zhangsan";
      question = "how much";
      request_id = "req_" <> "U";
      biz_params = end;
      identity = some user;
    })
test_request = refl
