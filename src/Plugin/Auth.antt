-- ===== src/Plugin/Auth.antt =====
-- src/ma/plugins/auth: representative_auth.py, jingying_auth.py and sales_contract_auth.py. The three
-- `authorize` methods have one text but for their names, their messages and the test of the role.
pub mod Permission
use Prim.Native.String.{compare}
use Prim.Native.Nat.{Ordering}
use ocm_agent_v.Common.{
  if◌then◌else◌, type_error, Outcome, ok, raised, String, ◌<>◌, Bool, true, false, ◌||◌, none, some,
  List, [], ◌∷◌, ◌==◌, ◌>>=◌,
}
use ocm_agent_v.Value.{
  Fields, Value, null, str, arr, nil, lookup_or, fields, is_hashable, contained,
}
use ocm_agent_v.Plugin.Formats.{Formats, show}
use ocm_agent_v.Graph.State.{AuthResult, GraphState, dict_or_empty}

-- What differs between the three methods.
pub record Policy : Type 0 where
  -- Whether a role is admitted; `role in set` raises on a role that is not hashable.
  pub admits : Value → Outcome Bool
  pub roles_text : String
  pub param : String
  pub claim : String
  pub denied : String → String

abbrev pub rejected : String → String → AuthResult
rejected code message = record {
  passed = false;
  reject_code = some code;
  reject_message = some message;
  user_ctx = none;
}

abbrev pub is_none : Value → Bool
is_none null = true
is_none _ = false

abbrev pub granted_to : Policy → Value → Value → Value → AuthResult
granted_to p role allowed scope = record {
  passed = true;
  reject_code = none;
  reject_message = none;
  user_ctx = some (fields (("role", role) ∷ (p.claim, allowed) ∷ (p.param, scope) ∷ []));
}

-- The scope: the parameter must be given, and be among the user's claims.
abbrev pub check_scope : Formats → Policy → Value → Fields → Fields → Outcome AuthResult
check_scope f p role claims biz_params =
    let scope = lookup_or p.param null biz_params in
    let allowed = lookup_or p.claim (arr nil) claims in
    if is_none scope then ok (rejected "FORBIDDEN_SCOPE" ("请求缺少 " <> p.param <> " 参数。")) else do
      granted ← contained scope allowed
      ok (
          if granted
          then granted_to p role allowed scope
          else rejected "FORBIDDEN_SCOPE" (p.denied (show f scope)))

-- `identity.raw_claims or {}` is `raw_claims`: an empty dict is falsy and replaced by an empty one.
abbrev pub check_claims : Formats → Policy → Fields → Fields → Outcome AuthResult
check_claims f p claims biz_params =
    let role = lookup_or "role" null claims in
    do
      admitted ← p.admits role
      if admitted
          then check_scope f p role claims biz_params
          else ok (rejected "FORBIDDEN_TOPIC" ("该专题仅限 " <> p.roles_text <> " 角色访问。"))

unfoldable pub authorize : Formats → Policy → GraphState → Outcome AuthResult
authorize f p state = elim state.identity [
  | none ↦ ok (rejected "FORBIDDEN_TOPIC" "无法识别用户身份。")
  | some identity ↦ check_claims f p identity.raw_claims (dict_or_empty state.biz_params)
]

-- `role != required_role`
abbrev pub is_role : String → Value → Bool
is_role required (str s) = s == required
is_role required _ = false

abbrev pub representative_auth : String → Policy
representative_auth required_role = record {
  admits = λ role. ok (is_role required_role role);
  roles_text = required_role;
  param = "region";
  claim = "regions";
  denied = λ region. "您无权访问 " <> region <> " 大区数据。";
}

abbrev pub sales_contract_auth : String → Policy
sales_contract_auth required_role = record {
  admits = λ role. ok (is_role required_role role);
  roles_text = required_role;
  param = "contract_id";
  claim = "contract_ids";
  denied = λ contract_id. "您不是 " <> contract_id <> " 合同的责任人。";
}

abbrev pub mem_text : String → List String → Bool
mem_text s [] = false
mem_text s (t ∷ ts) = s == t || mem_text s ts

-- `role in self._allowed_roles`, a set of texts
abbrev pub in_roles : List String → Value → Outcome Bool
in_roles roles (str s) = ok (mem_text s roles)
in_roles roles v = if is_hashable v then ok false else raised (type_error "unhashable type")

-- `sorted(set(roles))`, by code points
abbrev pub insert_sorted : String → List String → List String
insert_sorted s [] = s ∷ []
insert_sorted s (t ∷ ts) = elim (compare s t) [
  | Ordering.lt ↦ s ∷ t ∷ ts
  | Ordering.eq ↦ t ∷ ts
  | Ordering.gt ↦ t ∷ insert_sorted s ts
]

abbrev pub sorted_set : List String → List String
sorted_set [] = []
sorted_set (s ∷ ss) = insert_sorted s (sorted_set ss)

abbrev pub join_with : String → List String → String
join_with sep [] = ""
join_with sep (s ∷ []) = s
join_with sep (s ∷ t ∷ ts) = s <> sep <> join_with sep (t ∷ ts)

abbrev pub jingying_auth : List String → Policy
jingying_auth allowed_roles = record {
  admits = in_roles allowed_roles;
  roles_text = join_with "/" (sorted_set allowed_roles);
  param = "business_unit";
  claim = "business_units";
  denied = λ unit. "您无权访问 " <> unit <> " 业务单元数据。";
}
