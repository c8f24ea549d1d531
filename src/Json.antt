-- ===== src/Json.antt =====
-- The values of the journal's payloads, as json.loads and `_freeze_json` of
-- operation_journal/journal_payloads.py give them: None, bool, int, str, tuple and read-only
-- mapping, and what Python's `==`, `get`, `in` and isinstance make of them. Floats are left out. A
-- mapping is the list of its fields, each key once.
use safe_fs_ops.Prelude.{
  ℕ, suc, String, Bool, true, false, ◌&&◌, ◌||◌, not, Option, none, some, List, [], ◌∷◌, ◌==◌,
  nat_eq, if◌then◌else◌, is_some, ◌≡◌, refl, ◌⊎◌, inl, inr,
}

pub data ℤ : Type 0 where
  pos : ℕ → ℤ
  negsuc : ℕ → ℤ

abbrev pub int_eq : ℤ → ℤ → Bool
int_eq (pos m) (pos n) = nat_eq m n
int_eq (negsuc m) (negsuc n) = nat_eq m n
int_eq _ _ = false

mutual
  pub data Json : Type 0 where
    null : Json
    boolean : Bool → Json
    integer : ℤ → Json
    text : String → Json
    array : Items → Json
    object : Fields → Json

  pub data Items : Type 0 where
    end : Items
    item : Json → Items → Items

  pub data Fields : Type 0 where
    no_fields : Fields
    field : String → Json → Fields → Fields

unfoldable pub find : String → Fields → Option Json
find key no_fields = none
find key (field k v rest) = let found = find key rest in if k == key then some v else found

abbrev pub or_null : Option Json → Json
or_null none = null
or_null (some v) = v

-- `mapping.get(key)`
unfoldable pub get : String → Fields → Json
unfolding find
get key fields = or_null (find key fields)

-- `mapping.get(key, default)`
abbrev pub or_value : Option Json → Json → Json
or_value none default = default
or_value (some v) default = v

unfoldable pub get_or : String → Json → Fields → Json
unfolding find
get_or key default fields = or_value (find key fields) default

-- `isinstance(value, Mapping)`
abbrev pub as_mapping : Json → Option Fields
as_mapping (object fields) = some fields
as_mapping _ = none

-- `isinstance(value, bool)`
abbrev pub is_bool : Json → Bool
is_bool (boolean _) = true
is_bool _ = false

-- `value is False` and `value is True`
abbrev pub is_the : Bool → Json → Bool
is_the true (boolean true) = true
is_the false (boolean false) = true
is_the _ _ = false

abbrev as_int : Bool → ℤ
as_int true = pos 1
as_int false = pos 0

abbrev pub bool_eq : Bool → Bool → Bool
bool_eq true b = b
bool_eq false b = not b

abbrev is_text : String → Json → Bool
is_text s (text t) = s == t
is_text s _ = false

abbrev size : Fields → ℕ
size no_fields = 0
size (field _ _ rest) = suc (size rest)

-- `left == right`: a bool is the int 0 or 1, and the order of a mapping does not count.
unfoldable mutual
  pub json_eq : Json → Json → Bool
  json_eq null null = true
  json_eq (boolean a) (boolean b) = bool_eq a b
  json_eq (boolean a) (integer n) = int_eq (as_int a) n
  json_eq (integer m) (boolean b) = int_eq m (as_int b)
  json_eq (integer m) (integer n) = int_eq m n
  json_eq (text s) (text t) = s == t
  json_eq (array xs) (array ys) = items_eq xs ys
  json_eq (object f) (object g) = nat_eq (size f) (size g) && fields_in f g
  json_eq _ _ = false

  items_eq : Items → Items → Bool
  items_eq end end = true
  items_eq (item x xs) (item y ys) = json_eq x y && items_eq xs ys
  items_eq _ _ = false

  fields_in : Fields → Fields → Bool
  fields_in no_fields g = true
  fields_in (field k v rest) g =
      (is_some (find k g) && json_eq v (or_null (find k g))) && fields_in rest g

-- What a call returns, or the TypeError that it raises.
pub data Attempt (A : Type 0) : Type 0 where
  answer : A → Attempt A
  type_error : Attempt A

infixl 5 ◌>>=◌
abbrev pub ◌>>=◌ : {A B : Type 0} → Attempt A → (A → Attempt B) → Attempt B
answer a >>= f = f a
type_error >>= f = type_error

-- Whether hash(value) returns: that of a mapping, or of a tuple that holds one, does not.
unfoldable mutual
  pub hashable : Json → Bool
  hashable (array xs) = all_hashable xs
  hashable (object _) = false
  hashable _ = true

  all_hashable : Items → Bool
  all_hashable end = true
  all_hashable (item x xs) = hashable x && all_hashable xs

abbrev pub is_one_of : List String → Json → Bool
is_one_of [] v = false
is_one_of (s ∷ rest) v = is_text s v || is_one_of rest v

-- `value in {...}`, for a set of texts
unfoldable pub in_set : List String → Json → Attempt Bool
in_set names v = if hashable v then answer (is_one_of names v) else type_error

-- Python's `str` on such a value, and pathlib: `path_of s` is str(Path(s)), and `same_path` is the
-- equality of Path, which on Windows ignores case.
pub record Paths : Type 0 where
  pub str_of : Json → String
  pub path_of : String → String
  pub same_path : String → String → Bool
  -- `int(text)`; `none` is ValueError
  pub int_of : String → Option ℤ

pub Attempt-cases : {A : Type 0} (m : Attempt A) → ((a : A) × (m ≡ answer a)) ⊎ (m ≡ type_error)
Attempt-cases (answer a) = inl (a, refl)
Attempt-cases type_error = inr refl
