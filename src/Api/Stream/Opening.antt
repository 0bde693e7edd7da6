-- ===== src/Api/Stream/Opening.antt =====
-- Which requests the SSE endpoint serves.
use ocm_agent_v.Common.{
  Bool-cases, Option, none, some, ap, ◌==◌, eq_iff, Outcome, ok, raised, String, ◌≡◌, refl, ◌↔◌,
  ◌⊎◌, inl, inr, Bool, true, false, List,
}
use ocm_agent_v.Value.{Fields, end, null, str, num, bool, obj, arr}
use ocm_agent_v.Graph.Events.{Parsed, parsed, not_json}
use ocm_agent_v.Topic.Registry.{get}
use ocm_agent_v.Chat.Flow.{CompiledTopic}
use ocm_agent_v.Chat.{ChatRequest}
use ocm_agent_v.Api.History.{answers}
use ocm_agent_v.Api.Stream.{
  ChatBody, Headers, mismatches, claims_of, extra_claims, request_of, with_claims, with_topic,
  chat_sse,
}

-- The guards of the endpoint are passed.
pub record IsPassed (loads : String → Parsed) (configured : Bool)
    (topics : List (String × CompiledTopic)) (body : ChatBody) (headers : Headers) : Type 0 where
  pub service : configured ≡ true
  pub topic : CompiledTopic
  pub known : get body.biz_id topics ≡ ok topic
  pub agrees : mismatches headers.account body.w3_account ≡ false
  pub extra : Fields
  pub given : extra_claims loads headers.claims ≡ inr extra

with_topic-IsPassed :
    (loads : String → Parsed) (topics : List (String × CompiledTopic)) (ulid : String)
    (body : ChatBody) (headers : Headers) (req : ChatRequest) (found : Outcome CompiledTopic)
    → get body.biz_id topics ≡ found
    → with_topic loads found ulid body headers ≡ answers req
    → IsPassed loads true topics body headers
with_topic-IsPassed loads topics ulid body headers req (raised e) k h = cc
with_topic-IsPassed loads topics ulid body headers req (ok topic) k h =
    elim (Bool-cases (mismatches headers.account body.w3_account)) [
      | inl e ↦ absurd (cc (rw e at h))
      | inr e ↦ by_claims e (extra_claims loads headers.claims) refl (rw e at h)
    ]
  where
    by_claims :
        mismatches headers.account body.w3_account ≡ false
        → (c : String ⊎ Fields) → extra_claims loads headers.claims ≡ c
        → with_claims body headers ulid c ≡ answers req
        → IsPassed loads true topics body headers
    by_claims e (inl text) g out = cc
    by_claims e (inr extra) g out = record {
      service = refl;
      topic = topic;
      known = k;
      agrees = e;
      extra = extra;
      given = g;
    }

pub chat_sse-IsPassed :
    (loads : String → Parsed) (configured : Bool) (topics : List (String × CompiledTopic))
    (ulid : String) (body : ChatBody) (headers : Headers)
    → ((req : ChatRequest) × (chat_sse loads configured topics ulid body headers ≡ answers req))
      ↔ IsPassed loads configured topics body headers
unfolding chat_sse
chat_sse-IsPassed loads configured topics ulid body headers = (sound configured, complete)
  where
    sound :
        (b : Bool)
        → ((req : ChatRequest) × (chat_sse loads b topics ulid body headers ≡ answers req))
        → IsPassed loads b topics body headers
    sound true (req, h) =
        with_topic-IsPassed loads topics ulid body headers req (get body.biz_id topics) refl h
    sound false (req, h) = cc

    complete :
        IsPassed loads configured topics body headers
        → (req : ChatRequest) × (chat_sse loads configured topics ulid body headers ≡ answers req)
    complete s =
        (request_of body headers ulid s.extra, rw (s.service, s.known, s.agrees, s.given) refl)

-- The header gives no account, or the body's.
abbrev pub IsOwnAccount : Option String → String → Type 0
IsOwnAccount given account = (given ≡ none) ⊎ (given ≡ some account)

-- The header gives no claims, or the JSON text of an object.
abbrev pub IsObjectText : (String → Parsed) → Option String → Type 0
IsObjectText loads claims =
    (claims ≡ none)
    ⊎ ((text : String) × (d : Fields) × (claims ≡ some text) × (loads text ≡ parsed (obj d)))

-- The service is there, the topic is known, and the headers are in order.
abbrev pub IsServed :
    (String → Parsed) → Bool → List (String × CompiledTopic) → ChatBody → Headers → Type 0
IsServed loads configured topics body headers =
    (configured ≡ true)
    × ((topic : CompiledTopic) × (get body.biz_id topics ≡ ok topic))
    × IsOwnAccount headers.account body.w3_account
    × IsObjectText loads headers.claims

mismatches-IsOwnAccount :
    (given : Option String) (account : String)
    → (mismatches given account ≡ false) ↔ IsOwnAccount given account
mismatches-IsOwnAccount none account = (λ h. inl refl, λ h. refl)
mismatches-IsOwnAccount (some s) account = (sound, complete)
  where
    sound : mismatches (some s) account ≡ false → IsOwnAccount (some s) account
    sound h = elim (Bool-cases (s == account)) [
      | inl e ↦ inr (ap some ((eq_iff s account).0 e))
      | inr e ↦ absurd (cc (rw e at h))
    ]

    complete : IsOwnAccount (some s) account → mismatches (some s) account ≡ false
    complete (inl h) = cc
    complete (inr h) = let e : (s == account) ≡ true = (eq_iff s account).1 cc in rw e refl

claims_of-obj : (p : Parsed) (d : Fields) → claims_of p ≡ inr d → p ≡ parsed (obj d)
claims_of-obj (parsed (obj d')) d h = cc
claims_of-obj (parsed null) d h = cc
claims_of-obj (parsed (str s)) d h = cc
claims_of-obj (parsed (num n)) d h = cc
claims_of-obj (parsed (bool b)) d h = cc
claims_of-obj (parsed (arr vs)) d h = cc
claims_of-obj (not_json text) d h = cc

extra_claims-IsObjectText :
    (loads : String → Parsed) (claims : Option String)
    → ((d : Fields) × (extra_claims loads claims ≡ inr d)) ↔ IsObjectText loads claims
extra_claims-IsObjectText loads none = (λ h. inl refl, λ h. (end, refl))
extra_claims-IsObjectText loads (some text) = (sound, complete)
  where
    sound :
        ((d : Fields) × (extra_claims loads (some text) ≡ inr d)) → IsObjectText loads (some text)
    sound (d, h) = inr (text, d, refl, claims_of-obj (loads text) d h)

    complete :
        IsObjectText loads (some text) → (d : Fields) × (extra_claims loads (some text) ≡ inr d)
    complete (inl h) = cc
    complete (inr (t, d, same, h)) = let its : text ≡ t = cc in (d, rw (its, h) refl)

-- The endpoint serves exactly the requests for which the service is there, the topic is known, the
-- account of the header is absent or the body's, and the claims of the header are absent or an
-- object.
pub chat_sse_iff :
    (loads : String → Parsed) (configured : Bool) (topics : List (String × CompiledTopic))
    (ulid : String) (body : ChatBody) (headers : Headers)
    → ((req : ChatRequest) × (chat_sse loads configured topics ulid body headers ≡ answers req))
      ↔ IsServed loads configured topics body headers
chat_sse_iff loads configured topics ulid body headers = (sound, complete)
  where
    guards :
        ((req : ChatRequest) × (chat_sse loads configured topics ulid body headers ≡ answers req))
        ↔ IsPassed loads configured topics body headers
    guards = chat_sse-IsPassed loads configured topics ulid body headers

    sound :
        ((req : ChatRequest) × (chat_sse loads configured topics ulid body headers ≡ answers req))
        → IsServed loads configured topics body headers
    sound h =
        let s = guards.0 h in
        (
          s.service,
          (s.topic, s.known),
          (mismatches-IsOwnAccount headers.account body.w3_account).0 s.agrees,
          (extra_claims-IsObjectText loads headers.claims).0 (s.extra, s.given),
        )

    complete :
        IsServed loads configured topics body headers
        → (req : ChatRequest) × (chat_sse loads configured topics ulid body headers ≡ answers req)
    complete (service, (topic, known), own, object) =
        let (extra, given) = (extra_claims-IsObjectText loads headers.claims).1 object in
        guards.1 record {
          service = service;
          topic = topic;
          known = known;
          agrees = (mismatches-IsOwnAccount headers.account body.w3_account).1 own;
          extra = extra;
          given = given;
        }
