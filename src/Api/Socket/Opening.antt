-- ===== src/Api/Socket/Opening.antt =====
-- Who a connection's caller is, compared with the other endpoint, and what a task sends.
use ocm_agent_v.Common.{
  Bool-cases, length, take, ℕ, suc, ◌+◌, String, ◌≡◌, ◌≢◌, refl, sym, ap, ◌∙◌, ◌⊎◌, inl, inr, Bool,
  false, Option, none, some, List, [], ◌∷◌, map, arith, ◌==◌, eq_iff,
}
use ocm_agent_v.Value.{Fields, null, str, num, bool, obj, arr, Value}
use ocm_agent_v.Graph.Events.{ChatEvent, encode_ws, encode_ws_ready, Parsed, parsed, not_json}
use ocm_agent_v.Graph.Builtins.{non_empty, text_or}
use ocm_agent_v.Chat.{ChatRequest}
use ocm_agent_v.Chat.Flow.{CompiledTopic}
use ocm_agent_v.Api.History.{answers}
use ocm_agent_v.Api.Stream.{ChatBody, Headers, claims_of, extra_claims, request_of, chat_sse}
use ocm_agent_v.Api.Stream.Opening.{chat_sse-IsPassed}
use ocm_agent_v.Api.Socket.Handshake.{
  Upgrade, accepts, sends, Caller, object_or_none, lenient_claims, identity_of, handshake,
  forwarded,
}

-- The query and the headers that name the same caller.
abbrev pub upgrade_of : ChatBody → Headers → Upgrade
upgrade_of body headers = record {
  account = some body.w3_account;
  biz_id = some body.biz_id;
  role = headers.role;
  claims = headers.claims;
}

object_claims : (p : Parsed) (d : Fields) → claims_of p ≡ inr d → object_or_none p ≡ d
object_claims (parsed (obj d')) d h = cc
object_claims (parsed null) d h = cc
object_claims (parsed (str s)) d h = cc
object_claims (parsed (num n)) d h = cc
object_claims (parsed (bool b)) d h = cc
object_claims (parsed (arr vs)) d h = cc
object_claims (not_json text) d h = cc

same_claims :
    (loads : String → Parsed) (claims : Option String) (d : Fields) (text : String)
    → loads "" ≡ not_json text
    → extra_claims loads claims ≡ inr d
    → lenient_claims loads claims ≡ d
same_claims loads none d text empty h = cc
same_claims loads (some t) d text empty h = elim (Bool-cases (t == "")) [
  | inl e ↦
      let given : claims_of (loads "") ≡ inr d =
        ap (λ s. claims_of (loads s)) (sym ((eq_iff t "").0 e)) ∙ h in
      absurd (cc (rw empty at given))
  | inr e ↦ rw e (object_claims (loads t) d h)
]

same_role : (role : Option String) → role ≢ some "" → text_or role "REP" ≡ non_empty role "REP"
same_role none h = refl
same_role (some s) h = elim (Bool-cases (s == "")) [
  | inl e ↦ absurd (h (ap some ((eq_iff s "").0 e)))
  | inr e ↦ rw e refl
]

-- If the SSE endpoint serves a request, and its role header is not an empty text, then a WebSocket
-- connection with the same account, topic, role and claims is opened with `ready`, and its caller has
-- the account, the topic and the identity of that request (an empty text is no JSON).
pub handshake_agrees :
    (loads : String → Parsed) (configured : Bool) (topics : List (String × CompiledTopic))
    (ulid text : String) (body : ChatBody) (headers : Headers) (req : ChatRequest)
    → loads "" ≡ not_json text
    → headers.role ≢ some ""
    → chat_sse loads configured topics ulid body headers ≡ answers req
    → (caller : Caller) × (handshake loads configured topics (upgrade_of body headers)
        ≡ (accepts ∷ sends encode_ws_ready ∷ [], some caller))
      × (caller.w3_account ≡ req.w3_account)
      × (caller.biz_id ≡ req.biz_id)
      × (req.identity ≡ some caller.identity)
unfolding chat_sse handshake
handshake_agrees loads configured topics ulid text body headers req empty named h =
    let s = (chat_sse-IsPassed loads configured topics ulid body headers).0 (req, h) in
    let its : request_of body headers ulid s.extra ≡ req =
      cc (rw (s.service, s.known, s.agrees, s.given) at h) in
    let claims = same_claims loads headers.claims s.extra text empty s.given in
    (
      record {
        w3_account = body.w3_account;
        biz_id = body.biz_id;
        identity = identity_of loads (upgrade_of body headers);
      },
      rw (s.service, s.known) refl,
      ap (λ (r : ChatRequest). r.w3_account) its,
      ap (λ (r : ChatRequest). r.biz_id) its,
      ap (λ (r : ChatRequest). r.identity) (sym its)
          ∙ rw (claims, same_role headers.role named) refl,
    )

-- The events that a task sends are those of its request, in order, each under the request's id, up to
-- the first at which the client is gone, or all of them.
pub forwarded_cut :
    (connected : ℕ → Bool) (id : Value) (n : ℕ) (evs : List ChatEvent)
    → (k : ℕ) × (forwarded connected id n evs ≡ take k (map (λ ev. encode_ws ev id) evs))
      × ((k ≡ length evs) ⊎ (connected (n + k) ≡ false))
forwarded_cut connected id n [] = (0, refl, inl refl)
forwarded_cut connected id n (ev ∷ evs) = elim (Bool-cases (connected n)) [
  | inr e ↦ (0, rw e refl, inr (ap connected (omega arith) ∙ e))
  | inl e ↦
      let (k, same, ends) = forwarded_cut connected id (suc n) evs in
      (suc k, rw (e, same) refl, later k ends)
]
  where
    later :
        (k : ℕ)
        → (k ≡ length evs) ⊎ (connected (suc n + k) ≡ false)
        → (suc k ≡ suc (length evs)) ⊎ (connected (n + suc k) ≡ false)
    later k (inl h) = inl (ap suc h)
    later k (inr h) = inr (ap connected (omega arith) ∙ h)
