-- ===== src/Helpers/Typed.antt =====
-- `json_prop` of helpers.py at each type that its callers ask for, as a value of that type.
use ee_kernel.Base.{
  ◌≡◌, refl, ap, arith, Bool, Option, none, [], ◌∷◌, Text, Dict, Error, Result, ok, err, ◌>>=◌,
  if◌then◌else◌, value_error, overflow_error, ◌⊎◌,
}
use ee_kernel.Base.Int.{ℤ, pos}
use ee_kernel.Base.Outcome.{Outcome, returns, raises, Outcome-bind}
use ee_kernel.Helpers.Json.{
  Float, Json, bool, int, float, str, obj, entries, props, JsonType, int_t, str_t, bool_t, float_t,
  dict_t, is_instance, to_float, json_as_type, json_prop, json_dict,
}

-- The value that a JSON value of the type is; the other cases do not arise.
unfoldable pub to_int : Json → Result ℤ
to_int (int i) = ok i
to_int (bool b) = ok (pos (if b then 1 else 0))
to_int v = err value_error

unfoldable pub to_str : Json → Result Text
to_str (str s) = ok s
to_str v = err value_error

unfoldable pub to_bool : Json → Result Bool
to_bool (bool b) = ok b
to_bool v = err value_error

unfoldable pub from_float : Json → Result Float
from_float (float x) = ok x
from_float v = err value_error

unfoldable pub to_dict : Json → Result (Dict Json)
to_dict (obj ps) = ok (entries ps)
to_dict v = err value_error

unfoldable pub int_prop : Dict Json → Text → Result ℤ
unfolding json_prop to_int
int_prop o prop = json_prop o prop int_t none >>= to_int

unfoldable pub str_prop : Dict Json → Text → Option Json → Result Text
unfolding json_prop to_str
str_prop o prop default = json_prop o prop str_t default >>= to_str

unfoldable pub bool_prop : Dict Json → Text → Option Json → Result Bool
unfolding json_prop to_bool
bool_prop o prop default = json_prop o prop bool_t default >>= to_bool

unfoldable pub float_prop : Dict Json → Text → Result Float
unfolding json_prop from_float
float_prop o prop = json_prop o prop float_t none >>= from_float

unfoldable pub dict_prop : Dict Json → Text → Option Json → Result (Dict Json)
unfolding json_prop to_dict
dict_prop o prop default = json_prop o prop dict_t default >>= to_dict

-- json_dict(..., float)
unfoldable pub to_floats : Dict Json → Result (Dict Float)
unfolding from_float
to_floats [] = ok []
to_floats ((key, v) ∷ d) = from_float v >>= λ x. to_floats d >>= λ xs. ok ((key, x) ∷ xs)

unfoldable pub floats : Dict Json → Result (Dict Float)
unfolding json_dict to_floats
floats d = json_dict d float_t >>= to_floats

-- ValueError, or OverflowError of float()
abbrev pub IsParseError : Error → Type 0
IsParseError e = (e ≡ value_error) ⊎ (e ≡ overflow_error)

abbrev pub Parses {ℓ} : {A : Type ℓ} → Result A → Type ℓ
Parses r = Outcome (λ a. Unit {0}) IsParseError r

Parses-of {ℓ} : {A : Type ℓ} (r : Result A) → ((e : Error) → r ≡ err e → IsParseError e) → Parses r
Parses-of (ok a) h = returns tt
Parses-of (err e) h = raises (h e refl)

to_float-error : (t : JsonType) (v : Json) (e : Error) → to_float t v ≡ err e → IsParseError e
unfolding to_float
to_float-error t v e h = ground arith

json_as_type-error :
    (v : Json) (t : JsonType) (e : Error) → json_as_type v t ≡ err e → IsParseError e
unfolding json_as_type
json_as_type-error v t e h = ground (arith, to_float-error t v e)

json_prop-error :
    (o : Dict Json) (k : Text) (t : JsonType) (d : Option Json) (e : Error)
    → json_prop o k t d ≡ err e
    → IsParseError e
unfolding json_prop
json_prop-error o k t d e h = ground (arith, λ (v : Json). json_as_type-error v t e)

module _ (v : Json) (e : Error) where
  to_int-error : to_int v ≡ err e → IsParseError e
  unfolding to_int
  to_int-error h = ground arith

  to_str-error : to_str v ≡ err e → IsParseError e
  unfolding to_str
  to_str-error h = ground arith

  to_bool-error : to_bool v ≡ err e → IsParseError e
  unfolding to_bool
  to_bool-error h = ground arith

  from_float-error : from_float v ≡ err e → IsParseError e
  unfolding from_float
  from_float-error h = ground arith

  to_dict-error : to_dict v ≡ err e → IsParseError e
  unfolding to_dict
  to_dict-error h = ground arith

-- A checked access raises nothing but ValueError and OverflowError.
module _ (o : Dict Json) (k : Text) where
  prop-Parses {ℓ} :
      {A : Type ℓ} (t : JsonType) (d : Option Json) (f : Json → Result A)
      → ((v : Json) (e : Error) → f v ≡ err e → IsParseError e)
      → Parses (json_prop o k t d >>= f)
  prop-Parses t d f h =
      Outcome-bind (Parses-of (json_prop o k t d) (json_prop-error o k t d))
        λ v u. Parses-of (f v) (h v)

  pub int_prop-Parses : Parses (int_prop o k)
  unfolding int_prop
  int_prop-Parses = prop-Parses int_t none to_int to_int-error

  pub str_prop-Parses : (d : Option Json) → Parses (str_prop o k d)
  unfolding str_prop
  str_prop-Parses d = prop-Parses str_t d to_str to_str-error

  pub bool_prop-Parses : (d : Option Json) → Parses (bool_prop o k d)
  unfolding bool_prop
  bool_prop-Parses d = prop-Parses bool_t d to_bool to_bool-error

  pub float_prop-Parses : Parses (float_prop o k)
  unfolding float_prop
  float_prop-Parses = prop-Parses float_t none from_float from_float-error

  pub dict_prop-Parses : (d : Option Json) → Parses (dict_prop o k d)
  unfolding dict_prop
  dict_prop-Parses d = prop-Parses dict_t d to_dict to_dict-error

json_dict-Parses : (d : Dict Json) (t : JsonType) → Parses (json_dict d t)
unfolding json_dict
json_dict-Parses [] t = returns tt
json_dict-Parses ((k, v) ∷ d) t =
    Outcome-bind (Parses-of (json_as_type v t) (json_as_type-error v t))
      λ w u. Outcome-bind (json_dict-Parses d t) λ ws u'. returns tt

to_floats-Parses : (d : Dict Json) → Parses (to_floats d)
unfolding to_floats
to_floats-Parses [] = returns tt
to_floats-Parses ((k, v) ∷ d) =
    Outcome-bind (Parses-of (from_float v) (from_float-error v))
      λ w u. Outcome-bind (to_floats-Parses d) λ ws u'. returns tt

pub floats-Parses : (d : Dict Json) → Parses (floats d)
unfolding floats
floats-Parses d = Outcome-bind (json_dict-Parses d float_t) λ c u. to_floats-Parses c

-- Floats as JSON values.
abbrev pub of_floats : Dict Float → Dict Json
of_floats [] = []
of_floats ((k, x) ∷ d) = (k, float x) ∷ of_floats d

json_dict-of_floats : (d : Dict Float) → json_dict (of_floats d) float_t ≡ ok (of_floats d)
unfolding json_dict json_as_type is_instance
json_dict-of_floats [] = refl
json_dict-of_floats ((k, x) ∷ d) = rw (json_dict-of_floats d) refl

to_floats-of_floats : (d : Dict Float) → to_floats (of_floats d) ≡ ok d
unfolding to_floats from_float
to_floats-of_floats [] = refl
to_floats-of_floats ((k, x) ∷ d) = rw (to_floats-of_floats d) refl

pub floats-of_floats : (d : Dict Float) → floats (of_floats d) ≡ ok d
unfolding floats
floats-of_floats d = rw (json_dict-of_floats d) (to_floats-of_floats d)

pub entries-props : (d : Dict Json) → entries (props d) ≡ d
entries-props [] = refl
entries-props ((k, v) ∷ d) = ap (λ c. (k, v) ∷ c) (entries-props d)
