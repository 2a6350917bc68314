-- ===== src/Helpers/Json.antt =====
-- The values of json.loads, and `_json_as_type`, `json_prop`, `json_array` and `json_dict` of
-- helpers.py.
use ee_kernel.Base.{
  Bool, true, false, Option, none, some, List, [], ◌∷◌, Text, Dict, lookup, Result, ok, err, ◌>>=◌,
  if◌then◌else◌, value_error, overflow_error, suc, ◌-◌, ◌^◌, leb,
}
use ee_kernel.Base.Int.{ℤ, pos, negsuc}

-- A float: the one that an integer is rounded to, or another one by its literal.
pub data Float : Type 0 where
  of_int : ℤ → Float
  of_text : Text → Float

mutual
  pub data Json : Type 0 where
    null : Json
    bool : Bool → Json
    int : ℤ → Json
    float : Float → Json
    str : Text → Json
    arr : Elems → Json
    obj : Props → Json

  pub data Elems : Type 0 where
    nil : Elems
    cons : Json → Elems → Elems

  pub data Props : Type 0 where
    end : Props
    entry : Text → Json → Props → Props

-- An object as a dict, and back.
abbrev pub entries : Props → Dict Json
entries end = []
entries (entry k v ps) = (k, v) ∷ entries ps

abbrev pub props : Dict Json → Props
props [] = end
props ((k, v) ∷ d) = entry k v (props d)

abbrev pub elems : Elems → List Json
elems nil = []
elems (cons v vs) = v ∷ elems vs

-- The types that the program asks for.
pub data JsonType : Type 0 where
  int_t str_t bool_t float_t dict_t list_t : JsonType

-- isinstance(value, t); a bool is an int
unfoldable pub is_instance : JsonType → Json → Bool
is_instance int_t (int i) = true
is_instance int_t (bool b) = true
is_instance str_t (str s) = true
is_instance bool_t (bool b) = true
is_instance float_t (float x) = true
is_instance dict_t (obj ps) = true
is_instance list_t (arr vs) = true
is_instance t v = false

-- An int that float() raises OverflowError for: one that would be rounded to 2 ^ 1024 or more
unfoldable pub is_huge : ℤ → Bool
is_huge (pos n) = leb (2 ^ 1024 - 2 ^ 970) n
is_huge (negsuc n) = leb (2 ^ 1024 - 2 ^ 970) (suc n)

-- What is done with a value of another type: an int is taken for a float.
unfoldable pub to_float : JsonType → Json → Result Json
unfolding is_huge
to_float float_t (int i) = if is_huge i then err overflow_error else ok (float (of_int i))
to_float float_t (bool b) = ok (float (of_int (pos (if b then 1 else 0))))
to_float t v = err value_error

-- _json_as_type
unfoldable pub json_as_type : Json → JsonType → Result Json
unfolding is_instance to_float
json_as_type value t = if is_instance t value then ok value else to_float t value

-- json_prop
unfoldable pub json_prop : Dict Json → Text → JsonType → Option Json → Result Json
unfolding json_as_type
json_prop o prop t default = elim (lookup prop o) [
  | some value ↦ if is_instance t value then ok value else json_as_type value t
  | none ↦ elim default [ none ↦ err value_error | some v ↦ ok v ]
]

-- json_array
unfoldable pub json_array : List Json → JsonType → Result (List Json)
json_array [] t = ok []
json_array (elem ∷ rest) t = json_as_type elem t >>= λ v. json_array rest t >>= λ vs. ok (v ∷ vs)

-- json_dict
unfoldable pub json_dict : Dict Json → JsonType → Result (Dict Json)
json_dict [] t = ok []
json_dict ((key, value) ∷ rest) t =
    json_as_type value t >>= λ v. json_dict rest t >>= λ d. ok ((key, v) ∷ d)
