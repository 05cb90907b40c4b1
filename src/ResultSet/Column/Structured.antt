-- ===== src/ResultSet/Column/Structured.antt =====
-- The conversion of structured types in lib/connection/result/column.js: convertJsonObject,
-- convertJsonArray, convertJsonMap and mapStructuredTypeValue. `leaf` converts the values of the
-- simple types; a value of another shape than its type has is not considered (`none`).
use snowflake_connector_node.Prelude.{ℕ, String, Option, none, some, str_eq, if◌then◌else◌}
use snowflake_connector_node.ResultSet.Window.{◌>>=◌}

-- Numbers and Booleans are named by a number.
mutual
  pub data Json : Type 0 where
    null_json : Json
    scalar_json : ℕ → Json
    text_json : String → Json
    array_json : Items → Json
    object_json : Entries → Json

  pub data Items : Type 0 where
    no_items : Items
    item : Json → Items → Items

  pub data Entries : Type 0 where
    no_entries : Entries
    entry : String → Json → Entries → Entries

pub data LeafType : Type 0 where
  text_type real_type fixed_type boolean_type timestamp_ltz_type timestamp_ntz_type
        timestamp_tz_type time_type binary_type :
      LeafType

-- The metadata of a field, with those of its own fields, if any.
mutual
  pub data Field : Type 0 where
    leaf_field : String → LeafType → Field
    date_field unsupported_field : String → Field
    object_field array_field map_field : String → Metadata → Field

  pub data Metadata : Type 0 where
    absent : Metadata
    listed by_name : Fields → Metadata

  pub data Fields : Type 0 where
    no_fields : Fields
    field : Field → Fields → Fields

mutual
  pub data Structured (L : Type 0) : Type 0 where
    leaf_value : L → Structured L
    json_value : Json → Structured L
    array_value : ArrayValues L → Structured L
    object_value : Members L → Structured L
    map_value : Pairs L → Structured L

  pub data ArrayValues (L : Type 0) : Type 0 where
    no_values : ArrayValues L
    value : Structured L → ArrayValues L → ArrayValues L

  pub data Members (L : Type 0) : Type 0 where
    no_members : Members L
    member : String → Structured L → Members L → Members L

  -- The calls of Map.set.
  pub data Pairs (L : Type 0) : Type 0 where
    no_pairs : Pairs L
    set : Structured L → Structured L → Pairs L → Pairs L

abbrev pub name_of : Field → String
name_of (leaf_field name t) = name
name_of (date_field name) = name
name_of (unsupported_field name) = name
name_of (object_field name fs) = name
name_of (array_field name fs) = name
name_of (map_field name fs) = name

-- The object that `reduce` builds has the last field of a name.
unfoldable pub find_field : String → Fields → Option Field
find_field name no_fields = none
find_field name (field f fs) = elim (find_field name fs) [
  | some g ↦ some g
  | none ↦ if str_eq (name_of f) name then some f else none
]

module _ {L : Type 0} (leaf : LeafType → Json → Option L) where
  -- The values of a type that has no fields, by the cases of mapStructuredTypeValue. In
  -- convertDateString `context` is not declared, which throws.
  unfoldable pub convert_leaf : Field → Json → Option (Structured L)
  convert_leaf (leaf_field name t) json = do v ← leaf t json; some (leaf_value v)
  convert_leaf (date_field name) json = none
  convert_leaf (unsupported_field name) json = none
  convert_leaf (object_field name absent) json = some (json_value json)
  convert_leaf (object_field name fs) json = none
  convert_leaf (array_field name absent) json = some (json_value json)
  convert_leaf (array_field name fs) json = none
  convert_leaf (map_field name (listed (field k (field v no_fields)))) json = none
  convert_leaf (map_field name fs) json = some (json_value json)

  unfoldable mutual
    unfolding convert_leaf find_field

    -- mapStructuredTypeValue
    pub map_structured_type_value : Field → Json → Option (Structured L)
    map_structured_type_value (object_field name (listed fs)) (object_json es) = do
      ms ← convert_members fs es
      some (object_value ms)
    map_structured_type_value (array_field name (listed no_fields)) (array_json no_items) =
        some (array_value no_values)
    map_structured_type_value (array_field name (listed (field f fs))) (array_json js) = do
      vs ← convert_items f js
      some (array_value vs)
    map_structured_type_value (map_field name (listed (field k (field v no_fields))))
          (object_json es) =
        do ps ← convert_pairs k v es; some (map_value ps)
    map_structured_type_value f json = convert_leaf f json

    -- The loop of convertJsonObject; a key without metadata is read a property of.
    pub convert_members : Fields → Entries → Option (Members L)
    convert_members fs no_entries = some no_members
    convert_members fs (entry key json es) = do
      f ← find_field key fs
      v ← map_structured_type_value f json
      ms ← convert_members fs es
      some (member key v ms)

    -- The loop of convertJsonArray.
    pub convert_items : Field → Items → Option (ArrayValues L)
    convert_items f no_items = some no_values
    convert_items f (item json js) = do
      v ← map_structured_type_value f json
      vs ← convert_items f js
      some (value v vs)

    -- The loop of convertJsonMap.
    pub convert_pairs : Field → Field → Entries → Option (Pairs L)
    convert_pairs k v no_entries = some no_pairs
    convert_pairs k v (entry key json es) = do
      converted_key ← convert_leaf k (text_json key)
      converted_value ← map_structured_type_value v json
      ps ← convert_pairs k v es
      some (set converted_key converted_value ps)
