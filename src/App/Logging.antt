-- ===== src/App/Logging.antt =====
-- src/ma/infra/logging.py: the processors of an event's dict. `str.lower` is a parameter, and the id
-- of the current trace, written in hexadecimal, is an argument.
use ocm_agent_v.Common.{
  if◌then◌else◌, Bool-cases, is_entry, IsAmong, String, ◌≡◌, refl, ◌∙◌, ◌⊎◌, inl, inr, Bool, true,
  false, ◌&&◌, Option, none, some, List, [], ◌∷◌, arith, ◌==◌, eq_iff,
}
use ocm_agent_v.Value.{Fields, field, end, Value, str, lookup}
use ocm_agent_v.Plugin.Auth.{mem_text}
use ocm_agent_v.Repo.Messages.{set_field}
use ocm_agent_v.Topic.Config.{dict_keys}

abbrev pub sensitive_keys : List String
sensitive_keys =
    "authorization" ∷ "cookie" ∷ "token" ∷ "x-api-key" ∷ "x_api_key" ∷ "set-cookie" ∷ []

abbrev pub set_if : String → Option String → Fields → Fields
set_if k none d = d
set_if k (some s) d = set_field k (str s) d

-- What `bind_request_ctx` leaves as the context of the later logs.
unfoldable pub bind_request_ctx : Option String → Option String → Option String → Fields → Fields
bind_request_ctx request_id thread_id w3_account ctx =
    set_if "w3_account" w3_account
      (set_if "thread_id" thread_id (set_if "request_id" request_id ctx))

-- `_inject_trace_id`; there is no id if the span's context is not valid.
unfoldable pub inject_trace_id : Option String → Fields → Fields
inject_trace_id trace_id d = set_if "trace_id" trace_id d

module _ (lower : String → String) where
  unfoldable pub is_sensitive : String → Bool
  is_sensitive k = mem_text (lower k) sensitive_keys

  -- The loop over the keys.
  abbrev pub hide_all : List String → Fields → Fields
  hide_all [] d = d
  hide_all (k ∷ ks) d = hide_all ks (if is_sensitive k then set_field k (str "***") d else d)

  unfoldable pub sanitize : Fields → Fields
  unfolding is_sensitive
  sanitize d = hide_all (dict_keys d) d

  -- The processors of this module, in their order.
  unfoldable pub processed : Option String → Fields → Fields
  unfolding sanitize inject_trace_id
  processed trace_id d = sanitize (inject_trace_id trace_id d)

lookup-set_field :
    (k j : String) (v : Value) (d : Fields)
    → lookup k (set_field j v d) ≡ (if j == k then some v else lookup k d)
lookup-set_field k j v end = refl
lookup-set_field k j v (field i w d) =
    ground (arith, lookup-set_field k j v d, eq_iff i j, eq_iff j k, eq_iff i k)

-- The value under a key that is logged: hidden or as it was given.
abbrev pub shown_as : Bool → Option Value → Option Value
shown_as hidden none = none
shown_as hidden (some v) = some (if hidden then str "***" else v)

-- A key whose value is no one's to read in the logs.
abbrev pub IsSecret : String → Type 0
IsSecret s =
    IsAmong s ("authorization" ∷ "cookie" ∷ "token" ∷ "x-api-key" ∷ "x_api_key" ∷ "set-cookie" ∷ [])

shown_as-hidden :
    (o shown : Option Value)
    → shown ≡ shown_as true o
    → ((o ≡ none) × (shown ≡ none)) ⊎ ((v : Value) × (o ≡ some v) × (shown ≡ some (str "***")))
shown_as-hidden none shown h = inl (refl, h)
shown_as-hidden (some v) shown h = inr (v, refl, h)

shown_as-open : (o : Option Value) → shown_as false o ≡ o
shown_as-open none = refl
shown_as-open (some v) = refl

mem_text-IsAmong :
    (x : String) (ys : List String)
    → ((mem_text x ys ≡ true) × IsAmong x ys) ⊎ ((mem_text x ys ≡ false) × ¬ IsAmong x ys)
mem_text-IsAmong x [] = inr (refl, λ h. h)
mem_text-IsAmong x (y ∷ ys) = elim (Bool-cases (x == y)) [
  | inl e ↦ inl (rw e refl, inl ((eq_iff x y).0 e))
  | inr e ↦ elim (mem_text-IsAmong x ys) [
    | inl (c, h) ↦ inl (rw (e, c) refl, inr h)
    | inr (c, h) ↦ inr (rw (e, c) refl, other e h)
  ]
]
  where
    other : (x == y) ≡ false → ¬ IsAmong x ys → ¬ IsAmong x (y ∷ ys)
    other e h (inl same) = cc (e, (eq_iff x y).1 same)
    other e h (inr later) = h later

module _ (lower : String → String) where
  lookup-hide_all :
      (ks : List String) (k : String) (d : Fields)
      → lookup k (hide_all lower ks d)
        ≡ (if mem_text k ks && is_sensitive lower k then some (str "***") else lookup k d)
  lookup-hide_all [] k d = refl
  lookup-hide_all (j ∷ ks) k d = elim (Bool-cases (is_sensitive lower j)) [
    | inl e ↦
        rw (e, lookup-hide_all ks k (set_field j (str "***") d), lookup-set_field k j (str "***") d)
          (grind (arith, eq_iff k j, eq_iff j k))
    | inr e ↦ rw (e, lookup-hide_all ks k d) (grind (arith, eq_iff k j))
  ]

  -- A key that is there is one of the keys.
  lookup-dict_keys : (k : String) (d : Fields) → is_entry (lookup k d) ≡ mem_text k (dict_keys d)
  lookup-dict_keys k end = refl
  lookup-dict_keys k (field j v d) = ground (arith, lookup-dict_keys k d, eq_iff j k, eq_iff k j)

  shown_as-entry :
      (o : Option Value) (hidden : Bool)
      → (if is_entry o && hidden then some (str "***") else o) ≡ shown_as hidden o
  shown_as-entry none hidden = refl
  shown_as-entry (some v) true = refl
  shown_as-entry (some v) false = refl

  sanitize-shown_as :
      (k : String) (d : Fields)
      → lookup k (sanitize lower d) ≡ shown_as (is_sensitive lower k) (lookup k d)
  unfolding sanitize
  sanitize-shown_as k d =
      rw (sanitize, lookup-hide_all (dict_keys d) k d, ← lookup-dict_keys k d)
        (shown_as-entry (lookup k d) (is_sensitive lower k))

  -- Of a logged event, a key that in lower case is `authorization`, `cookie`, `token`, `x-api-key`,
  -- `x_api_key` or `set-cookie` shows only the stars if it is there at all, and every other key
  -- shows what was given.
  pub sanitize_hides :
      (k : String) (d : Fields)
      → let logged = lookup k (sanitize lower d) in
        (IsSecret (lower k)
          × (((lookup k d ≡ none) × (logged ≡ none))
              ⊎ ((v : Value) × (lookup k d ≡ some v) × (logged ≡ some (str "***")))))
        ⊎ ((¬ IsSecret (lower k)) × (logged ≡ lookup k d))
  unfolding is_sensitive
  sanitize_hides k d = elim (mem_text-IsAmong (lower k) sensitive_keys) [
    | inl (e, secret) ↦
        inl (secret, shown_as-hidden (lookup k d) _ (sanitize-shown_as k d ∙ rw e refl))
    | inr (e, public) ↦ inr (public, sanitize-shown_as k d ∙ rw e (shown_as-open (lookup k d)))
  ]
