-- ===== src/Common/Dicts.antt =====
-- Dicts with texts as keys, kept as their entries in the order of insertion.
use Prim.Native.String.{String}
use mathlib.Core.Path.{◌≡◌, refl}
use mathlib.Core.Logic.{◌⊎◌, inl, inr}
use mathlib.Core.Bool.{Bool, true, false, ◌||◌}
use mathlib.Core.Option.{Option, none, some}
use mathlib.Core.List.{List, [], ◌∷◌, ◌++◌}
use native.Mathlib.Omega.{arith}
use text.Mathlib.Text.{◌==◌}
use text.Mathlib.TextEquality.{eq_iff}
use text.Mathlib.TextPositions.{eq_refl}
use ocm_agent_v.Common.Tests.{if◌then◌else◌, Bool-cases}

-- `d.get(k)` of a dict that is kept as its entries
abbrev pub find_entry {ℓ} : {A : Type ℓ} → String → List (String × A) → Option A
find_entry k [] = none
find_entry k ((j, a) ∷ d) = if j == k then some a else find_entry k d

-- `d[k] = v`: an entry of the key is replaced in its place.
unfoldable pub put {ℓ} : {A : Type ℓ} → String → A → List (String × A) → List (String × A)
put k a [] = (k, a) ∷ []
put k a ((j, b) ∷ d) = let rest = put k a d in if j == k then (k, a) ∷ d else (j, b) ∷ rest

abbrev pub is_entry {ℓ} : {A : Type ℓ} → Option A → Bool
is_entry none = false
is_entry (some a) = true

pub find_entry-put {ℓ} :
    {A : Type ℓ} (k j : String) (a : A) (d : List (String × A))
    → is_entry (find_entry k (put j a d)) ≡ (j == k || is_entry (find_entry k d))
unfolding put
find_entry-put k j a [] = elim (Bool-cases (j == k)) [ inl e ↦ rw e refl | inr e ↦ rw e refl ]
find_entry-put k j a ((i, b) ∷ d) =
    ground (arith, find_entry-put k j a d, eq_iff i j, eq_iff j k, eq_iff i k)

pub some-injective {ℓ} : {A : Type ℓ} {a b : A} → some a ≡ some b → a ≡ b
some-injective h = cc

-- The entry of the key that was put, and the others as they were.
pub find_entry-put_value {ℓ} :
    {A : Type ℓ} (k j : String) (a : A) (d : List (String × A))
    → find_entry k (put j a d) ≡ (if j == k then some a else find_entry k d)
unfolding put
find_entry-put_value k j a [] = refl
find_entry-put_value k j a ((i, b) ∷ d) =
    ground (arith, find_entry-put_value k j a d, eq_iff i j, eq_iff j k, eq_iff i k)

-- An entry at the end is found if the key had none.
pub find_entry-append {ℓ} :
    {A : Type ℓ} (k id : String) (a : A) (d : List (String × A))
    → find_entry id d ≡ none
    → find_entry k (d ++ (id, a) ∷ []) ≡ (if id == k then some a else find_entry k d)
find_entry-append k id a [] h = refl
find_entry-append k id a ((j, b) ∷ d) h = elim (Bool-cases (j == id)) [
  | inl e ↦ absurd (cc (rw e at h))
  | inr e ↦
      let later = find_entry-append k id a d (rw e at h) in
      elim (Bool-cases (j == k)) [
        | inl f ↦
            let g : (id == k) ≡ false =
              ground (arith, eq_iff j k, eq_iff id k, eq_iff j id, eq_refl id) in
            rw (f, g) refl
        | inr f ↦ rw f later
      ]
]

pub entry_cases {ℓ} : {A : Type ℓ} (o : Option A) → (o ≡ none) ⊎ ((a : A) × (o ≡ some a))
entry_cases none = inl refl
entry_cases (some a) = inr (a, refl)
