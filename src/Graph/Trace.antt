-- ===== src/Graph/Trace.antt =====
-- What a node does to the outside, in order, beside what it returns or raises.
pub mod Laws
use ocm_agent_v.Common.{
  ◌⊎◌, inl, inr, if◌then◌else◌, Outcome, ok, raised, ℕ, String, List, [], ◌∷◌, ◌++◌, ◌==◌,
}
use ocm_agent_v.Value.{Value}

-- `_emit` of src/ma/core/graph/node_wrappers.py, `asyncio.sleep` in milliseconds, and the `n`-th
-- call of the node's plugin.
pub data Effect : Type 0 where
  emit : String → Value → Effect
  sleep : ℕ → Effect
  attempt : ℕ → Effect

abbrev pub Run {ℓ} : Type ℓ → Type ℓ
Run A = List Effect × Outcome A

module _ {ℓ} {A : Type ℓ} where
  abbrev pub pure : A → Run A
  pure a = ([], ok a)

  abbrev pub lift : Outcome A → Run A
  lift r = ([], r)

  -- An effect before the rest.
  abbrev pub after : Effect → Run A → Run A
  after e (es, r) = (e ∷ es, r)

abbrev pub emitted : String → Value → Run (Unit {0})
emitted name v = (emit name v ∷ [], ok tt)

-- Several effects before the rest.
abbrev pub prefixed {ℓ} : {A : Type ℓ} → List Effect → Run A → Run A
prefixed es (fs, r) = (es ++ fs, r)

abbrev pub ◌>>=◌ {κ ℓ} : {A : Type κ} {B : Type ℓ} → Run A → (A → Run B) → Run B
(es, ok a) >>= f = prefixed es (f a)
(es, raised e) >>= f = (es, raised e)

abbrev pub ◌>>◌ {ℓ} : {B : Type ℓ} → Run (Unit {0}) → Run B → Run B
m >> k = m >>= λ _. k

infixl 5 ◌>>=◌ ◌>>◌
-- The data of the events of one name, in the order of their emission.
unfoldable pub emissions : String → List Effect → List Value
emissions name [] = []
emissions name (emit n v ∷ es) =
    let rest = emissions name es in if n == name then v ∷ rest else rest
emissions name (sleep ms ∷ es) = emissions name es
emissions name (attempt n ∷ es) = emissions name es

-- The numbers of the plugin's calls, and the waits, in order.
unfoldable pub attempts : List Effect → List ℕ
attempts [] = []
attempts (emit n v ∷ es) = attempts es
attempts (sleep ms ∷ es) = attempts es
attempts (attempt n ∷ es) = n ∷ attempts es

unfoldable pub sleeps : List Effect → List ℕ
sleeps [] = []
sleeps (emit n v ∷ es) = sleeps es
sleeps (sleep ms ∷ es) = ms ∷ sleeps es
sleeps (attempt n ∷ es) = sleeps es

-- Both, in the order in which they happen: the numbers of the calls on the left, the waits on the
-- right.
unfoldable pub calls_and_waits : List Effect → List (ℕ ⊎ ℕ)
calls_and_waits [] = []
calls_and_waits (emit n v ∷ es) = calls_and_waits es
calls_and_waits (sleep ms ∷ es) = inr ms ∷ calls_and_waits es
calls_and_waits (attempt n ∷ es) = inl n ∷ calls_and_waits es
