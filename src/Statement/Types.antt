-- ===== src/Statement/Types.antt =====
-- lib/connection/result/data_types.js and lib/constants/row_mode.js.
use snowflake_connector_node.Prelude.{
  ℕ, suc, String, Bool, true, false, ◌||◌, Option, none, some, str_eq, if◌then◌else◌,
}
use snowflake_connector_node.Prelude.Value.{
  Value, string, Values, nil, cons, undefined, null_value, boolean, number, function, date, object,
  array,
}

-- What JavaScript itself does with texts and objects: String.prototype.toUpperCase, the property
-- key of a value, whether Object.prototype has a property, JSON.stringify (none is undefined),
-- Date.prototype.toJSON, and reading a property by an index of a value that is no array.
pub record Runtime : Type 0 where
  pub to_upper_case : String → String
  pub property_key : Value → String
  pub in_object_prototype : String → Bool
  pub stringify : Value → Option String
  pub to_json : ℕ → Value
  pub property_of : Value → ℕ → Value

pub data NativeType : Type 0 where
  native_string native_boolean native_number native_date native_json native_buffer native_object
        native_array native_map :
      NativeType

-- The values of a native type's name; `none` is a name that nativeTypes.values does not have.
unfoldable pub native_type_of : String → Option NativeType
native_type_of s =
    if str_eq s "STRING"
    then some native_string
    else if str_eq s "BOOLEAN"
    then some native_boolean
    else if str_eq s "NUMBER"
    then some native_number
    else if str_eq s "DATE"
    then some native_date
    else if str_eq s "JSON"
    then some native_json
    else if str_eq s "BUFFER"
    then some native_buffer
    else if str_eq s "OBJECT"
    then some native_object
    else if str_eq s "ARRAY"
    then some native_array
    else if str_eq s "MAP"
    then some native_map
    else none

abbrev pub is_some {ℓ} : {A : Type ℓ} → Option A → Bool
is_some none = false
is_some (some a) = true

-- this.values[key], which also finds what Object.prototype has.
unfoldable pub has_native_key : Runtime → String → Bool
unfolding native_type_of
has_native_key rt key = is_some (native_type_of key) || rt.in_object_prototype key

unfoldable pub is_valid_value : Runtime → Value → Bool
unfolding has_native_key
is_valid_value rt (string s) = has_native_key rt (rt.to_upper_case s)
is_valid_value rt undefined = has_native_key rt (rt.property_key undefined)
is_valid_value rt null_value = has_native_key rt (rt.property_key null_value)
is_valid_value rt (boolean b) = has_native_key rt (rt.property_key (boolean b))
is_valid_value rt (number n) = has_native_key rt (rt.property_key (number n))
is_valid_value rt (function f) = has_native_key rt (rt.property_key (function f))
is_valid_value rt (date d) = has_native_key rt (rt.property_key (date d))
is_valid_value rt (object o) = has_native_key rt (rt.property_key (object o))
is_valid_value rt (array vs) = has_native_key rt (rt.property_key (array vs))

-- findInvalidValue; `none` is -1.
unfoldable pub find_invalid_from : Runtime → ℕ → Values → Option ℕ
unfolding is_valid_value
find_invalid_from rt index nil = none
find_invalid_from rt index (cons v vs) =
    if is_valid_value rt v then find_invalid_from rt (suc index) vs else some index

unfoldable pub find_invalid_value : Runtime → Values → Option ℕ
unfolding find_invalid_from
find_invalid_value rt vs = find_invalid_from rt 0 vs

-- isValidRowMode
unfoldable pub is_valid_row_mode : Value → Bool
is_valid_row_mode (string s) =
    str_eq s "array" || str_eq s "object" || str_eq s "object_with_renamed_duplicated_columns"
is_valid_row_mode _ = false
