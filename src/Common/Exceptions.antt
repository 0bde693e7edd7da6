-- ===== src/Common/Exceptions.antt =====
-- Python's exceptions as values. An exception is its class with the arguments that its text shows;
-- `topic_conflict` is the `ValueError` of a topic's second registration.
use Prim.Native.String.{String}
use mathlib.Core.Path.{◌≡◌, refl}
use mathlib.Core.Bool.{Bool, true, false}

pub data Exn : Type 0 where
  key_error type_error attribute_error value_error runtime_error : String → Exn
  topic_not_found topic_conflict : String → Exn
  plugin_not_found plugin_conflict : String → String → Exn
  session_biz_mismatch : String → Exn
  intent_failed : String → Exn
  missing_sql_param : String → Exn
  file_not_found unsafe_sql_template not_implemented : String → Exn
  unique_violation : String → Exn
  validation_error ws_frame_error : String → Exn
  cancelled_error : Exn

-- `except Exception` catches all but `asyncio.CancelledError`, which is a `BaseException`.
abbrev pub is_exception : Exn → Bool
is_exception cancelled_error = false
is_exception _ = true

pub data Outcome {ℓ} (A : Type ℓ) : Type ℓ where
  ok : A → Outcome A
  raised : Exn → Outcome A

infixl 5 ◌>>=◌ ◌>>◌
abbrev pub ◌>>=◌ {ℓ κ} : {A : Type ℓ} {B : Type κ} → Outcome A → (A → Outcome B) → Outcome B
ok a >>= f = f a
raised e >>= f = raised e

abbrev pub ◌>>◌ {ℓ} : {B : Type ℓ} → Outcome (Unit {0}) → Outcome B → Outcome B
m >> k = m >>= λ _. k

pub ok-injective {ℓ} : {A : Type ℓ} {a b : A} → ok a ≡ ok b → a ≡ b
ok-injective h = cc

-- A chain that returned got through its first step.
pub >>=-eq-ok {ℓ κ} :
    {A : Type ℓ} {B : Type κ} (m : Outcome A) (k : A → Outcome B) {b : B}
    → (m >>= k) ≡ ok b
    → (a : A) × (m ≡ ok a) × (k a ≡ ok b)
>>=-eq-ok (ok a) k h = (a, refl, h)
>>=-eq-ok (raised e) k h = cc
