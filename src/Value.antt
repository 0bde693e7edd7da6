-- ===== src/Value.antt =====
-- Python's dynamic values, as JSON and the plugins' dicts hold them.
-- Numbers are integers. The program computes with no float but the two confidences (Graph.State).
use text.Mathlib.Text.{find?}
use ocm_agent_v.Common.{
  nat_eq, if◌then◌else◌, key_error, type_error, attribute_error, Outcome, ok, raised, ℕ, suc,
  String, Bool, true, false, not, ◌&&◌, ◌||◌, Option, none, some, List, [], ◌∷◌, ◌==◌,
}

pub data ℤ : Type 0 where
  pos : ℕ → ℤ
  negsuc : ℕ → ℤ

mutual
  pub data Fields : Type 0 where
    field : String → Value → Fields → Fields
    end : Fields

  pub data Value : Type 0 where
    null : Value
    str : String → Value
    num : ℤ → Value
    bool : Bool → Value
    obj : Fields → Value
    arr : Items → Value

  pub data Items : Type 0 where
    cons : Value → Items → Items
    nil : Items

-- `d.get(k)`
abbrev pub lookup : String → Fields → Option Value
lookup k end = none
lookup k (field j v d) = if j == k then some v else lookup k d

-- `k in d`
abbrev pub has_key : String → Fields → Bool
has_key k end = false
has_key k (field j v d) = j == k || has_key k d

abbrev pub or_default : Option Value → Value → Value
or_default none default = default
or_default (some v) default = v

-- `d.get(k, default)`
abbrev pub lookup_or : String → Value → Fields → Value
lookup_or k default d = or_default (lookup k d) default

-- `bool(v)`
abbrev pub truthy : Value → Bool
truthy null = false
truthy (bool b) = b
truthy (num (pos n)) = not (nat_eq n 0)
truthy (num (negsuc n)) = true
truthy (str s) = not (s == "")
truthy (arr nil) = false
truthy (arr (cons v vs)) = true
truthy (obj end) = false
truthy (obj (field k v d)) = true

-- `v[k]` at a text `k`
abbrev pub get_item : Value → String → Outcome Value
get_item (obj d) k = elim (lookup k d) [ none ↦ raised (key_error k) | some v ↦ ok v ]
get_item v k = raised (type_error "not subscriptable by a string")

-- `v.get(k, default)`
abbrev pub get_method : Value → String → Value → Outcome Value
get_method (obj d) k default = ok (lookup_or k default d)
get_method v k default = raised (attribute_error "get")

-- A dict display with the keys in the order given.
abbrev pub fields : List (String × Value) → Fields
fields [] = end
fields ((k, v) ∷ rest) = field k v (fields rest)

abbrev pub dict : List (String × Value) → Value
dict kvs = obj (fields kvs)

-- An integer that stands for a bool is equal to it.
abbrev int_of : Bool → ℤ
int_of true = pos 1
int_of false = pos 0

abbrev int_eq : ℤ → ℤ → Bool
int_eq (pos m) (pos n) = nat_eq m n
int_eq (negsuc m) (negsuc n) = nat_eq m n
int_eq _ _ = false

-- `len(d)` of a dict
abbrev size : Fields → ℕ
size end = 0
size (field k v d) = suc (size d)

-- `a == b` of Python; the order of a dict's keys does not matter.
unfoldable mutual
  pub py_eq : Value → Value → Bool
  py_eq null null = true
  py_eq (bool a) (bool b) = int_eq (int_of a) (int_of b)
  py_eq (bool a) (num n) = int_eq (int_of a) n
  py_eq (num n) (bool b) = int_eq n (int_of b)
  py_eq (num m) (num n) = int_eq m n
  py_eq (str s) (str t) = s == t
  py_eq (arr xs) (arr ys) = items_eq xs ys
  py_eq (obj d) (obj e) = nat_eq (size d) (size e) && fields_in d e
  py_eq _ _ = false

  items_eq : Items → Items → Bool
  items_eq nil nil = true
  items_eq (cons x xs) (cons y ys) = py_eq x y && items_eq xs ys
  items_eq _ _ = false

  fields_in : Fields → Fields → Bool
  fields_in end e = true
  fields_in (field k v d) e =
      elim (lookup k e) [ none ↦ false | some w ↦ py_eq v w ] && fields_in d e

-- `v in xs` of a list
unfoldable pub in_items : Value → Items → Bool
unfolding py_eq
in_items v nil = false
in_items v (cons x xs) = py_eq v x || in_items v xs

-- `hash(v)` exists
abbrev pub is_hashable : Value → Bool
is_hashable (arr xs) = false
is_hashable (obj d) = false
is_hashable _ = true

abbrev is_found : Option ℕ → Bool
is_found none = false
is_found (some i) = true

-- `t in s` of texts
unfoldable pub in_text : String → String → Bool
in_text t s = is_found (find? s t)

-- `v in container`
unfoldable pub contained : Value → Value → Outcome Bool
unfolding in_items in_text
contained v (arr xs) = ok (in_items v xs)
contained (str t) (str s) = ok (in_text t s)
contained v (str s) = raised (type_error "'in <string>' requires string as left operand")
contained (str k) (obj d) = ok (has_key k d)
contained v (obj d) = if is_hashable v then ok false else raised (type_error "unhashable type")
contained v _ = raised (type_error "argument is not iterable")
