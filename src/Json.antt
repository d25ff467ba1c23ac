-- ===== src/Json.antt =====
-- internal/runtime/json_value.go: the values of a `map[string]any` and their check.
-- A number stands by its text; `non_finite` is a NaN or infinite float; `unsupported` is a value of a
-- type that JSON lacks, by its `%T`. A map is its entries in the order that the iteration takes.
pub mod Check
use layeros.Base.{
  ℕ, suc, String, Bool, true, false, ◌≡◌, refl, Option, none, some, List, [], ◌∷◌, Result, ok, err,
  ◌>>◌, ◌&&◌, reject_if, if◌then◌else◌, ◌==◌,
}
use layeros.Text.{◌<>◌, is_blank, decimal}

mutual
  pub data Value : Type 0 where
    null : Value
    text : String → Value
    flag : Bool → Value
    number : String → Value
    non_finite : Value
    unsupported : String → Value
    array : Items → Value
    object : Fields → Value

  pub data Items : Type 0 where
    nil : Items
    cons : Value → Items → Items

  pub data Fields : Type 0 where
    end : Fields
    field : String → Value → Fields → Fields

-- `validateJSONValue` on a value, on a slice from an index on, and on the entries of a map.
unfoldable mutual
  unfolding is_blank decimal

  pub validate_value : Value → String → Result (Unit {0})
  validate_value null path = ok tt
  validate_value (text s) path = ok tt
  validate_value (flag b) path = ok tt
  validate_value (number n) path = ok tt
  validate_value non_finite path = err (path <> " contains non-finite number")
  validate_value (unsupported t) path = err (path <> " contains unsupported JSON value " <> t)
  validate_value (array xs) path = validate_items xs path 0
  validate_value (object fs) path = validate_fields fs path

  pub validate_items : Items → String → ℕ → Result (Unit {0})
  validate_items nil path index = ok tt
  validate_items (cons v xs) path index =
      validate_value v (path <> "[" <> decimal index <> "]") >> validate_items xs path (suc index)

  pub validate_fields : Fields → String → Result (Unit {0})
  validate_fields end path = ok tt
  validate_fields (field key v fs) path =
      reject_if (is_blank key) (path <> " contains empty object key")
      >> validate_value v (path <> "." <> key)
      >> validate_fields fs path

-- `validateJSONObject`; an object is never called with an empty path.
unfoldable pub validate_object : Fields → String → Result (Unit {0})
unfolding validate_value validate_items validate_fields
validate_object fs path = validate_fields fs path

-- `m[key]` and `m[key] = v`.
unfoldable pub get : String → Fields → Option Value
get key end = none
get key (field k v fs) = if k == key then some v else get key fs

unfoldable pub put : String → Value → Fields → Fields
put key w end = field key w end
put key w (field k v fs) = if k == key then field k w fs else field k v (put key w fs)

-- `for key, value := range patch { merged[key] = value }`
unfoldable pub put_all : Fields → Fields → Fields
unfolding put
put_all end merged = merged
put_all (field k v fs) merged = put_all fs (put k v merged)

-- The entries of a literal `map[string]any` whose values are texts.
unfoldable pub texts : List (String × String) → Fields
texts [] = end
texts ((k, v) ∷ rest) = field k (text v) (texts rest)

unfoldable pub text_items : List String → Items
text_items [] = nil
text_items (s ∷ ss) = cons (text s) (text_items ss)

-- What `json.Marshal` can write: it fails on a number that JSON lacks and on an unsupported value.
unfoldable mutual
  pub marshals : Value → Bool
  marshals null = true
  marshals (text s) = true
  marshals (flag b) = true
  marshals (number n) = true
  marshals non_finite = false
  marshals (unsupported t) = false
  marshals (array xs) = marshals_items xs
  marshals (object fs) = marshals_fields fs

  pub marshals_items : Items → Bool
  marshals_items nil = true
  marshals_items (cons v xs) = marshals v && marshals_items xs

  pub marshals_fields : Fields → Bool
  marshals_fields end = true
  marshals_fields (field k v fs) = marshals v && marshals_fields fs

-- `cloneJSONObject`: nil where the map cannot be written. (Numbers keep their text; the rounding of
-- a large integer to a float64 is not modelled.)
unfoldable pub clone_object : Option Fields → Option Fields
unfolding marshals marshals_items marshals_fields
clone_object none = none
clone_object (some fs) = if marshals_fields fs then some fs else none

path_test :
    validate_object (field "a" (array (cons null (cons non_finite nil))) end) "event data"
    ≡ err "event data.a[1] contains non-finite number"
unfolding validate_object
path_test = refl
