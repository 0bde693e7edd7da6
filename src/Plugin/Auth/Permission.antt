-- ===== src/Plugin/Auth/Permission.antt =====
-- Whom the auth plugins let pass, and what they answer otherwise.
use ocm_agent_v.Plugin.Enrich.{text_items}
use ocm_agent_v.Common.{
  Bool-cases, ok, ok-injective, >>=-eq-ok, String, ◌<>◌, ◌≡◌, refl, sym, ap, ◌∙◌, subst, ◌↔◌, ◌⊎◌,
  inl, inr, Bool, true, false, ◌&&◌, ◌||◌, Option, none, some, List, [], ◌∷◌, arith, ◌==◌,
}
use ocm_agent_v.Value.{Fields, Value, null, str, arr, nil, lookup, lookup_or, in_items, contained}
use ocm_agent_v.Plugin.Formats.{Formats}
use ocm_agent_v.Plugin.Auth.{
  Policy, rejected, is_none, granted_to, check_scope, check_claims, authorize, mem_text,
}
use ocm_agent_v.Graph.State.{AuthnIdentity, AuthResult, GraphState, dict_or_empty}

-- The role is admitted, and the scope that is asked for is given and among the claims.
pub record IsPermitted (p : Policy) (state : GraphState) : Type 0 where
  pub identity : AuthnIdentity
  pub known : state.identity ≡ some identity
  pub admitted : p.admits (lookup_or "role" null identity.raw_claims) ≡ ok true
  pub given : is_none (lookup_or p.param null (dict_or_empty state.biz_params)) ≡ false
  pub granted :
      contained
        (lookup_or p.param null (dict_or_empty state.biz_params))
        (lookup_or p.claim (arr nil) identity.raw_claims)
      ≡ ok true

-- A rejection carries one of two codes and a message, and no context of the user; a pass carries
-- the context and nothing of a rejection.
abbrev pub IsWellFormed : AuthResult → Type 0
IsWellFormed r =
    ((r.passed ≡ true)
      × (r.reject_code ≡ none)
      × (r.reject_message ≡ none)
      × ((d : Fields) × (r.user_ctx ≡ some d)))
    ⊎ ((r.passed ≡ false)
        × ((r.reject_code ≡ some "FORBIDDEN_TOPIC") ⊎ (r.reject_code ≡ some "FORBIDDEN_SCOPE"))
        × ((m : String) × (r.reject_message ≡ some m))
        × (r.user_ctx ≡ none))

module _ (f : Formats) (p : Policy) where
  rejected-IsWellFormed :
      (code message : String)
      → (code ≡ "FORBIDDEN_TOPIC") ⊎ (code ≡ "FORBIDDEN_SCOPE")
      → IsWellFormed (rejected code message)
  rejected-IsWellFormed code message (inl e) = inr (refl, inl (ap some e), (message, refl), refl)
  rejected-IsWellFormed code message (inr e) = inr (refl, inr (ap some e), (message, refl), refl)

  check_scope-IsWellFormed :
      (role : Value) (claims biz_params : Fields) (r : AuthResult)
      → check_scope f p role claims biz_params ≡ ok r
      → IsWellFormed r
  check_scope-IsWellFormed role claims biz_params r h =
      elim (Bool-cases (is_none (lookup_or p.param null biz_params))) [
        | inl e ↦
            subst IsWellFormed (ok-injective (rw e at h))
              (rejected-IsWellFormed "FORBIDDEN_SCOPE" _ (inr refl))
        | inr e ↦
            let (b, _, out) = >>=-eq-ok (contained _ _) _ (rw e at h) in
            elim (Bool-cases b) [
              | inl yes_ ↦
                  subst IsWellFormed (ok-injective (rw yes_ at out))
                    (inl (refl, refl, refl, (_, refl)))
              | inr no_ ↦
                  subst IsWellFormed (ok-injective (rw no_ at out))
                    (rejected-IsWellFormed "FORBIDDEN_SCOPE" _ (inr refl))
            ]
      ]

  check_scope_passes :
      (role : Value) (claims biz_params : Fields) (r : AuthResult)
      → check_scope f p role claims biz_params ≡ ok r
      → r.passed ≡ true
      → (is_none (lookup_or p.param null biz_params) ≡ false)
        × (contained (lookup_or p.param null biz_params) (lookup_or p.claim (arr nil) claims)
            ≡ ok true)
  check_scope_passes role claims biz_params r h = ground arith

  check_claims-IsWellFormed :
      (claims biz_params : Fields) (r : AuthResult)
      → check_claims f p claims biz_params ≡ ok r
      → IsWellFormed r
  check_claims-IsWellFormed claims biz_params r h =
      let (b, _, out) = >>=-eq-ok (p.admits (lookup_or "role" null claims)) _ h in
      elim (Bool-cases b) [
        | inl admitted ↦ check_scope-IsWellFormed _ claims biz_params r (rw admitted at out)
        | inr refused ↦
            subst IsWellFormed (ok-injective (rw refused at out))
              (rejected-IsWellFormed "FORBIDDEN_TOPIC" _ (inl refl))
      ]

  check_claims_passes :
      (claims biz_params : Fields) (r : AuthResult)
      → check_claims f p claims biz_params ≡ ok r
      → r.passed ≡ true
      → (p.admits (lookup_or "role" null claims) ≡ ok true)
        × (is_none (lookup_or p.param null biz_params) ≡ false)
        × (contained (lookup_or p.param null biz_params) (lookup_or p.claim (arr nil) claims)
            ≡ ok true)
  check_claims_passes claims biz_params r h passed =
      let (b, asked, out) = >>=-eq-ok (p.admits (lookup_or "role" null claims)) _ h in
      elim (Bool-cases b) [
        | inl admitted ↦
            let (given, granted) =
              check_scope_passes _ claims biz_params r (rw admitted at out) passed in
            (asked ∙ ap ok admitted, given, granted)
        | inr refused ↦ absurd (cc (passed, ok-injective (rw refused at out)))
      ]

  by_identity :
      (who : Option AuthnIdentity) (state : GraphState) (r : AuthResult)
      → state.identity ≡ who
      → authorize f p state ≡ ok r
      → IsWellFormed r × (r.passed ≡ true → IsPermitted p state)
  unfolding authorize
  by_identity none state r who h =
      let e : rejected "FORBIDDEN_TOPIC" "无法识别用户身份。" ≡ r = ok-injective (rw who at h) in
      (
        subst IsWellFormed e (rejected-IsWellFormed "FORBIDDEN_TOPIC" _ (inl refl)),
        λ passed. absurd (cc (e, passed)),
      )
  by_identity (some identity) state r who h =
      let out : check_claims f p identity.raw_claims (dict_or_empty state.biz_params) ≡ ok r =
        rw who at h in
      (
        check_claims-IsWellFormed identity.raw_claims _ r out,
        λ passed.
            let (admitted, given, granted) =
              check_claims_passes identity.raw_claims (dict_or_empty state.biz_params) r out
                passed in
            record {
              identity = identity;
              known = who;
              admitted = admitted;
              given = given;
              granted = granted;
            },
      )

  permitted_passes :
      (state : GraphState)
      → IsPermitted p state
      → (r : AuthResult) × (authorize f p state ≡ ok r) × (r.passed ≡ true)
  unfolding authorize
  permitted_passes state h =
      let claims = h.identity.raw_claims in
      (
        granted_to p (lookup_or "role" null claims) (lookup_or p.claim (arr nil) claims)
            (lookup_or p.param null (dict_or_empty state.biz_params)),
        rw h.known (rw h.admitted (rw h.given (rw h.granted refl))),
        refl,
      )

  -- If an auth plugin answers, rather than raises on claims that it cannot read, it passes exactly
  -- the requests that are permitted, and its answer is a pass with a context or a rejection with one
  -- of two codes and a message.
  pub authorize_permits :
      (state : GraphState) (r : AuthResult)
      → authorize f p state ≡ ok r
      → IsWellFormed r × ((r.passed ≡ true) ↔ IsPermitted p state)
  authorize_permits state r h =
      let (formed, sound) = by_identity state.identity state r refl h in
      (
        formed,
        (
          sound,
          λ permitted.
              let (r', h', passed) = permitted_passes state permitted in
              ap (λ (a : AuthResult). a.passed) (ok-injective (sym h ∙ h')) ∙ passed,
        ),
      )

in_items-text_items :
    (s : String) (ts : List String) → in_items (str s) (text_items ts) ≡ mem_text s ts
unfolding in_items
in_items-text_items s [] = refl
in_items-text_items s (t ∷ ts) = ap (λ b. s == t || b) (in_items-text_items s ts)

check_claims_exact :
    (f : Formats) (p : Policy) (claims biz_params : Fields) (role : Value) (admitted : Bool)
    (scope : String) (allowed : List String)
    → lookup "role" claims ≡ some role
    → p.admits role ≡ ok admitted
    → lookup p.param biz_params ≡ some (str scope)
    → lookup p.claim claims ≡ some (arr (text_items allowed))
    → (r : AuthResult) × (check_claims f p claims biz_params ≡ ok r)
      × (r.passed ≡ (admitted && mem_text scope allowed))
check_claims_exact f p claims biz_params role false scope allowed has_role tested asked listed = (
  rejected "FORBIDDEN_TOPIC" ("该专题仅限 " <> p.roles_text <> " 角色访问。"),
  rw has_role (rw tested refl),
  refl,
)
check_claims_exact f p claims biz_params role true scope allowed has_role tested asked listed =
    elim (Bool-cases (mem_text scope allowed)) [
      | inl e ↦ (
        granted_to p role (arr (text_items allowed)) (str scope),
        rw has_role
            (rw tested (rw (asked, listed) (unfold contained in rw (in_items-text_items, e) refl))),
        sym e,
      )
      | inr e ↦ (
        rejected "FORBIDDEN_SCOPE" (p.denied scope),
        rw has_role
            (rw tested (rw (asked, listed) (unfold contained in rw (in_items-text_items, e) refl))),
        sym e,
      )
    ]

-- For a user whose claims list texts, and a request whose scope is a text, the plugin answers, and it
-- passes exactly if the role is admitted and the scope is listed.
pub authorize_exact :
    (f : Formats) (p : Policy) (state : GraphState) (identity : AuthnIdentity) (role : Value)
    (admitted : Bool) (scope : String) (allowed : List String)
    → state.identity ≡ some identity
    → lookup "role" identity.raw_claims ≡ some role
    → p.admits role ≡ ok admitted
    → lookup p.param (dict_or_empty state.biz_params) ≡ some (str scope)
    → lookup p.claim identity.raw_claims ≡ some (arr (text_items allowed))
    → (r : AuthResult) × (authorize f p state ≡ ok r)
      × (r.passed ≡ (admitted && mem_text scope allowed))
unfolding authorize
authorize_exact f p state identity role admitted scope allowed who has_role tested asked listed =
    let (r, out, passed) =
      check_claims_exact f p identity.raw_claims (dict_or_empty state.biz_params) role admitted
        scope allowed has_role tested asked listed in
    (r, rw who out, passed)
