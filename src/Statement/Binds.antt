-- ===== src/Statement/Binds.antt =====
-- The bind variables of lib/connection/statement.js: buildBindsMap, countBinding, and the kind of
-- statement that createStatementPreExec chooses.
use snowflake_connector_node.Prelude.{
  ℕ, suc, ◌+◌, Bool, false, Option, none, some, ltb, NatMap, map_empty, map_set, if◌then◌else◌,
}
use snowflake_connector_node.Prelude.Value.{
  Value, Values, nil, cons, undefined, null_value, boolean, number, function, date, object, array,
  string, not_finite, whole, fraction, is_array, length_of, element,
}
use snowflake_connector_node.Statement.Types.{Runtime}

-- The logical type of a bind variable.
pub data BindType : Type 0 where
  boolean_bind variant_bind fixed_bind real_bind text_bind : BindType

pub record Bind : Type 0 where
  pub bind_type : BindType
  pub value : Value

unfoldable pub type_of_value : Value → BindType
type_of_value (boolean b) = boolean_bind
type_of_value (object o) = variant_bind
type_of_value (array vs) = variant_bind
type_of_value (number (whole n)) = fixed_bind
type_of_value (number (fraction k)) = real_bind
type_of_value (number not_finite) = text_bind
type_of_value undefined = text_bind
type_of_value null_value = text_bind
type_of_value (function f) = text_bind
type_of_value (date d) = text_bind
type_of_value (string s) = text_bind

-- JSON.stringify(value)
unfoldable pub stringified : Runtime → Value → Value
stringified rt v = elim (rt.stringify v) [ none ↦ undefined | some s ↦ string s ]

-- Non-null values are converted to a text if necessary.
unfoldable pub convert : Runtime → Value → Value
unfolding stringified
convert rt null_value = null_value
convert rt (string s) = string s
convert rt (date d) = rt.to_json d
convert rt undefined = stringified rt undefined
convert rt (boolean b) = stringified rt (boolean b)
convert rt (number n) = stringified rt (number n)
convert rt (function f) = stringified rt (function f)
convert rt (object o) = stringified rt (object o)
convert rt (array vs) = stringified rt (array vs)

-- row[index]; `none` is a TypeError.
unfoldable pub read : Runtime → Value → ℕ → Option Value
read rt undefined index = none
read rt null_value index = none
read rt (array vs) index = some (element vs index)
read rt (boolean b) index = some (rt.property_of (boolean b) index)
read rt (number n) index = some (rt.property_of (number n) index)
read rt (string s) index = some (rt.property_of (string s) index)
read rt (function f) index = some (rt.property_of (function f) index)
read rt (date d) index = some (rt.property_of (date d) index)
read rt (object o) index = some (rt.property_of (object o) index)

unfoldable pub push_front : Value → Option Values → Option Values
push_front v none = none
push_front v (some vs) = some (cons v vs)

-- The loop over the rows: the converted values of one column.
unfoldable pub column : Runtime → ℕ → Values → Option Values
unfolding read convert push_front
column rt index nil = some nil
column rt index (cons row rows) =
    let rest = column rt index rows in
    elim (read rt row index) [ none ↦ none | some v ↦ push_front (convert rt v) rest ]

-- isArrayBinding
unfoldable pub is_array_binding : Values → Bool
is_array_binding nil = false
is_array_binding (cons v vs) = is_array v

-- The value of a bind variable, of which `v` is the one in the first row.
unfoldable pub bind_value : Runtime → Values → ℕ → Value → Option Value
unfolding column is_array_binding convert
bind_value rt binds index v =
    if is_array_binding binds
    then elim (column rt index binds) [ none ↦ none | some vs ↦ some (array vs) ]
    else some (convert rt v)

-- The loop over singleArray, whose values from `index` on are given.
unfoldable pub fill : Runtime → Values → ℕ → Values → NatMap Bind → Option (NatMap Bind)
unfolding bind_value type_of_value
fill rt binds index nil m = some m
fill rt binds index (cons v vs) m = elim (bind_value rt binds index v) [
  | none ↦ none
  | some value ↦
      fill rt binds (suc index) vs
        (map_set (suc index) (record { bind_type = type_of_value v; value = value }) m)
]

abbrev pub elements_of : Value → Values
elements_of (array vs) = vs
elements_of _ = nil

unfoldable pub single_array : Values → Values
unfolding is_array_binding
single_array binds = if is_array_binding binds then elements_of (element binds 0) else binds

-- buildBindsMap; `none` is a TypeError.
unfoldable pub build_binds_map : Runtime → Values → Option (NatMap Bind)
unfolding fill single_array
build_binds_map rt binds = fill rt binds 0 (single_array binds) map_empty

-- countBinding of an array: the elements of its arrays.
unfoldable pub count_elements : Values → ℕ
count_elements nil = 0
count_elements (cons v vs) = length_of (elements_of v) + count_elements vs

unfoldable pub count_binding : Value → ℕ
unfolding count_elements
count_binding v = count_elements (elements_of v)

pub data StatementKind : Type 0 where
  file_statement stage_binding_statement row_statement : StatementKind

-- createStatementPreExec, where `is_file` says that the SQL text is there and is a PUT or GET
-- command, and `bind_threshold` is 0 where the connection sets none.
unfoldable pub statement_kind : Bool → ℕ → ℕ → Value → StatementKind
unfolding count_binding
statement_kind is_file parameter bind_threshold binds =
    let threshold = if ltb 0 bind_threshold then bind_threshold else parameter in
    if is_file
    then file_statement
    else if ltb threshold (count_binding binds)
    then stage_binding_statement
    else row_statement
