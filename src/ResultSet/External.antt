-- ===== src/ResultSet/External.antt =====
-- How a row is handed out: buildMapColumnExtractFnNames and externalizeRow of
-- lib/connection/result/row_stream.js, over the types of lib/connection/result/data_types.js. The id
-- of a column is its index.
use snowflake_connector_node.Prelude.{
  ℕ, zero, suc, String, Bool, true, false, Option, none, some, List, [], ◌∷◌, if◌then◌else◌,
  TextMap, text_set,
}
use snowflake_connector_node.ResultSet.Window.{◌>>=◌}
use snowflake_connector_node.ResultSet.Stream.{put}
use snowflake_connector_node.ResultSet.Column.{
  Context, Extracted, extracted, as_it_is, throws, RowValues, extract_from_row,
}
use snowflake_connector_node.Statement.Types.{
  NativeType, native_string, native_boolean, native_number, native_date, native_json, native_buffer,
  native_object, native_array, native_map,
}

-- sqlTypes.values; any other text is `unknown_type`.
pub data SqlType : Type 0 where
  text binary boolean fixed real date time timestamp_ltz timestamp_ntz timestamp_tz variant object
        array map unknown_type :
      SqlType

-- toNativeType
unfoldable pub to_native_type : SqlType → Option NativeType
to_native_type text = some native_string
to_native_type binary = some native_buffer
to_native_type boolean = some native_boolean
to_native_type fixed = some native_number
to_native_type real = some native_number
to_native_type date = some native_date
to_native_type time = some native_string
to_native_type timestamp_ltz = some native_date
to_native_type timestamp_ntz = some native_date
to_native_type timestamp_tz = some native_date
to_native_type variant = some native_json
to_native_type object = some native_object
to_native_type array = some native_array
to_native_type map = some native_map
to_native_type unknown_type = none

-- nativeTypes.values
unfoldable pub native_type_name : NativeType → String
native_type_name native_string = "STRING"
native_type_name native_boolean = "BOOLEAN"
native_type_name native_number = "NUMBER"
native_type_name native_date = "DATE"
native_type_name native_json = "JSON"
native_type_name native_buffer = "BUFFER"
native_type_name native_object = "OBJECT"
native_type_name native_array = "ARRAY"
native_type_name native_map = "MAP"

-- The native types that are to be strings; `upper` is toUpperCase.
unfoldable pub native_types_map : (String → String) → List String → TextMap Bool
native_types_map upper [] = λ key. none
native_types_map upper (s ∷ ss) = text_set (upper s) true (native_types_map upper ss)

abbrev pub is_set : Option Bool → Bool
is_set none = false
is_set (some b) = b

-- Whether a column is read by getColumnValueAsString; a type that has no native one gives the key
-- "undefined".
unfoldable pub is_read_as_string : (String → String) → Option (List String) → SqlType → Bool
unfolding to_native_type native_type_name native_types_map
is_read_as_string upper none t = false
is_read_as_string upper (some ss) t = elim (to_native_type t) [
  | none ↦ is_set (native_types_map upper ss "undefined")
  | some n ↦ is_set (native_types_map upper ss (native_type_name n))
]

-- The loop over the columns, from the one at an index on: the names of the extract functions by
-- column id, `true` being getColumnValueAsString.
unfoldable pub extract_fn_names : (SqlType → Bool) → ℕ → List SqlType → (ℕ → Bool) → ℕ → Bool
unfolding put
extract_fn_names as_string k [] m = m
extract_fn_names as_string k (t ∷ ts) m =
    extract_fn_names as_string (suc k) ts (put k (as_string t) m)

unfoldable pub build_map_column_extract_fn_names :
    (String → String) → List SqlType → Option (List String) → ℕ → Bool
unfolding extract_fn_names is_read_as_string
build_map_column_extract_fn_names upper columns fetch_as_string =
    extract_fn_names (is_read_as_string upper fetch_as_string) 0 columns (λ i. false)

module _ {R P O : Type 0} where
  -- A value that was read stands before those that are read after it; an error ends the loop.
  unfoldable pub and_rest :
      Extracted R P O → Option (List (Extracted R P O)) → Option (List (Extracted R P O))
  and_rest throws rest = none
  and_rest (extracted o) rest = do vs ← rest; some (extracted o ∷ vs)
  and_rest (as_it_is c) rest = do vs ← rest; some (as_it_is c ∷ vs)

  -- The values of the columns from the one at an index on, so many being left.
  unfoldable pub column_values :
      (ℕ → Context R P O) → (ℕ → Bool) → ℕ → ℕ → RowValues R P → Option (List (Extracted R P O))
  unfolding and_rest extract_from_row
  column_values ctx names i zero row = some []
  column_values ctx names i (suc n) row =
      let r = extract_from_row (ctx i) (names i) i row in
      and_rest r.result (column_values ctx names (suc i) n r.row)

-- The properties of an object; a name that comes again overwrites.
unfoldable pub as_object : {V : Type 0} → List String → List V → TextMap V → TextMap V
as_object [] vs o = o
as_object (name ∷ names) [] o = o
as_object (name ∷ names) (v ∷ vs) o = as_object names vs (text_set name v o)

pub data ExternalRow (V : Type 0) : Type 0 where
  array_row : List V → ExternalRow V
  object_row : TextMap V → ExternalRow V

-- externalizeRow: whether the row mode is `array`, and the names and the types of the columns.
unfoldable pub externalize_row :
    {R P O : Type 0}
    → Bool
    → List String
    → (ℕ → Context R P O)
    → (ℕ → Bool)
    → ℕ
    → RowValues R P
    → Option (ExternalRow (Extracted R P O))
unfolding column_values as_object
externalize_row is_array_row_mode column_names ctx names count row = do
  vs ← column_values ctx names 0 count row
  some (
      if is_array_row_mode
      then array_row vs
      else object_row (as_object column_names vs (λ name. none)))
