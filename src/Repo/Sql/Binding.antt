-- ===== src/Repo/Sql/Binding.antt =====
-- The arguments of a translated statement are the parameters of its template.
use Prim.Native.Char.{Char}
use ocm_agent_v.Common.{
  Bool-cases, length, missing_sql_param, Outcome, ok, raised, ◌>>=◌, find_entry, some-injective, ℕ,
  zero, suc, ◌+◌, ◌-◌, String, ◌≡◌, refl, sym, ap, ◌∙◌, subst, inl, inr, Option, none, some, List,
  [], ◌∷◌, ◌++◌, append_assoc, append-nil, arith, ◌==◌, eq_iff,
}
use ocm_agent_v.Value.{Fields, Value, null, lookup, or_default}
use ocm_agent_v.Repo.Sql.{
  Token, plain_char, param, tokens_of, Piece, kept_char, hole, add_piece, number_param, assign,
}

-- A template with its parameters put in their places.
pub data Bound : Type 0 where
  bound_char : Char → Bound
  bound_value : Value → Bound

abbrev add_bound : Bound → Outcome (List Bound) → Outcome (List Bound)
add_bound b (raised e) = raised e
add_bound b (ok bs) = ok (b ∷ bs)

abbrev bind_param : String → Option Value → Outcome (List Bound) → Outcome (List Bound)
bind_param name none rest = raised (missing_sql_param name)
bind_param name (some v) rest = add_bound (bound_value v) rest

-- What a template means: each parameter stands for its value; the first that is missing raises.
unfoldable pub bind : Fields → List Token → Outcome (List Bound)
bind params [] = ok []
bind params (plain_char c ∷ tokens) = add_bound (bound_char c) (bind params tokens)
bind params (param name ∷ tokens) = bind_param name (lookup name params) (bind params tokens)

abbrev pub item {ℓ} : {A : Type ℓ} → ℕ → List A → Option A
item n [] = none
item zero (x ∷ xs) = some x
item (suc n) (x ∷ xs) = item n xs

-- What a statement means to the database: `$i` is the `i`-th argument.
unfoldable pub resolve : List Value → List Piece → List Bound
resolve args [] = []
resolve args (kept_char c ∷ ps) = bound_char c ∷ resolve args ps
resolve args (hole i ∷ ps) = bound_value (or_default (item (i - 1) args) null) ∷ resolve args ps

item-append {ℓ} :
    {A : Type ℓ} (n : ℕ) (xs ys : List A) (a : A) → item n xs ≡ some a → item n (xs ++ ys) ≡ some a
item-append n [] ys a h = cc
item-append zero (x ∷ xs) ys a h = h
item-append (suc n) (x ∷ xs) ys a h = item-append n xs ys a h

item_last {ℓ} : {A : Type ℓ} (xs : List A) (a : A) → item (length xs) (xs ++ a ∷ []) ≡ some a
item_last [] a = refl
item_last (x ∷ xs) a = item_last xs a

-- The numbers that were given stand for the parameters' values.
abbrev Knows : Fields → List (String × ℕ) → List Value → Type 0
Knows params indices args =
    (name : String) (i : ℕ)
    → find_entry name indices ≡ some i
    → (v : Value) × (lookup name params ≡ some v) × (item (i - 1) args ≡ some v)

-- What `assign` gives means what the template means, and it only adds arguments.
abbrev Agrees : List Value → Outcome (List Piece × List Value) → Outcome (List Bound) → Type 0
Agrees args (raised e) meaning = meaning ≡ raised e
Agrees args (ok (ps, final)) meaning =
    ((more : List Value) × (final ≡ args ++ more)) × (meaning ≡ ok (resolve final ps))

add_char-Agrees :
    (c : Char) (args : List Value) (r : Outcome (List Piece × List Value))
    (m : Outcome (List Bound))
    → Agrees args r m
    → Agrees args (add_piece (kept_char c) r) (add_bound (bound_char c) m)
unfolding resolve
add_char-Agrees c args (raised e) m h = rw h refl
add_char-Agrees c args (ok (ps, final)) m (grown, h) = (grown, rw h refl)

add_hole-Agrees :
    (i : ℕ) (v : Value) (args : List Value) (r : Outcome (List Piece × List Value))
    (m : Outcome (List Bound))
    → item (i - 1) args ≡ some v
    → Agrees args r m
    → Agrees args (add_piece (hole i) r) (add_bound (bound_value v) m)
unfolding resolve
add_hole-Agrees i v args (raised e) m there h = rw h refl
add_hole-Agrees i v args (ok (ps, final)) m there ((more, grown), h) =
    let still : item (i - 1) final ≡ some v =
      ap (item (i - 1)) grown ∙ item-append (i - 1) args more v there in
    ((more, grown), rw (h, still) refl)

weaken-Agrees :
    (args : List Value) (v : Value) (r : Outcome (List Piece × List Value))
    (m : Outcome (List Bound))
    → Agrees (args ++ v ∷ []) r m
    → Agrees args r m
weaken-Agrees args v (raised e) m h = h
weaken-Agrees args v (ok (ps, final)) m ((more, grown), h) =
    ((v ∷ more, grown ∙ append_assoc args (v ∷ []) more), h)

Knows-more :
    (params : Fields) (name : String) (v : Value) (indices : List (String × ℕ)) (args : List Value)
    → lookup name params ≡ some v
    → Knows params indices args
    → Knows params ((name, length args + 1) ∷ indices) (args ++ v ∷ [])
Knows-more params name v indices args given known other i h = elim (Bool-cases (name == other)) [
  | inl e ↦
      let same : name ≡ other = (eq_iff name other).0 e in
      let number : length args + 1 ≡ i = some-injective (rw e at h) in
      (
        v,
        subst (λ n. lookup n params ≡ some v) same given,
        subst (λ n. item n (args ++ v ∷ []) ≡ some v) (omega (arith, number)) (item_last args v),
      )
  | inr e ↦
      let (w, g, k) = known other i (rw e at h) in (w, g, item-append (i - 1) args (v ∷ []) w k)
]

number_param-Agrees :
    (name : String) (index : Option ℕ) (given : Option Value) (args : List Value)
    (rest : Outcome (List Piece × List Value)) (fresh : Value → Outcome (List Piece × List Value))
    (meaning : Outcome (List Bound))
    → ((i : ℕ) → index ≡ some i → (v : Value) × (given ≡ some v) × (item (i - 1) args ≡ some v))
    → Agrees args rest meaning
    → ((v : Value) → given ≡ some v → Agrees args (fresh v) (add_bound (bound_value v) meaning))
    → Agrees args (number_param name index given rest fresh) (bind_param name given meaning)
number_param-Agrees name (some i) given args rest fresh meaning known same new =
    let (v, e, there) = known i refl in rw e (add_hole-Agrees i v args rest meaning there same)
number_param-Agrees name none none args rest fresh meaning known same new = refl
number_param-Agrees name none (some v) args rest fresh meaning known same new = new v refl

from_Agrees :
    (r : Outcome (List Piece × List Value)) (m : Outcome (List Bound))
    → Agrees [] r m
    → (r >>= λ translated. ok (resolve translated.1 translated.0)) ≡ m
from_Agrees (raised e) m h = sym h
from_Agrees (ok (ps, final)) m (grown, h) = sym h

assign-Agrees :
    (params : Fields) (tokens : List Token) (indices : List (String × ℕ)) (args : List Value)
    → Knows params indices args
    → Agrees args (assign params tokens indices args) (bind params tokens)
unfolding assign bind resolve
assign-Agrees params [] indices args known = (([], sym (append-nil args)), refl)
assign-Agrees params (plain_char c ∷ tokens) indices args known =
    add_char-Agrees c args (assign params tokens indices args) (bind params tokens)
      (assign-Agrees params tokens indices args known)
assign-Agrees params (param name ∷ tokens) indices args known =
    let i : ℕ = length args + 1 in
    let same = assign-Agrees params tokens indices args known in
    number_param-Agrees name (find_entry name indices) (lookup name params) args
      (assign params tokens indices args)
      (λ v. add_piece (hole i) (assign params tokens ((name, i) ∷ indices) (args ++ v ∷ [])))
      (bind params tokens) (λ i' h. known name i' h) same
      (λ v h. weaken-Agrees args v _ _ (
        add_hole-Agrees i v (args ++ v ∷ []) _ _
          (subst (λ n. item n (args ++ v ∷ []) ≡ some v) (omega arith) (item_last args v))
          (assign-Agrees params tokens ((name, i) ∷ indices) (args ++ v ∷ [])
            (Knows-more params name v indices args h known))))

pub assign-bind :
    (params : Fields) (sql : String)
    → (assign params (tokens_of sql) [] [] >>= λ translated. ok (resolve translated.1 translated.0))
      ≡ bind params (tokens_of sql)
assign-bind params sql =
    from_Agrees (assign params (tokens_of sql) [] []) (bind params (tokens_of sql))
      (assign-Agrees params (tokens_of sql) [] [] (λ name i h. cc))
