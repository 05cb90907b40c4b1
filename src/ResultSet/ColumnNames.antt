-- ===== src/ResultSet/ColumnNames.antt =====
-- lib/connection/result/unique_column_name_creator.js: other names for columns whose name was there
-- before. A text is the list of its codes.
mod Texts
pub mod Distinct
mod Examples
use snowflake_connector_node.Prelude.{
  ℕ, zero, suc, ◌+◌, Bool, true, false, not, Option, none, some, List, [], ◌∷◌, ◌++◌, length, ◌==◌,
  if◌then◌else◌,
}
use Texts.{Text, text_eq, decimal, contains}

pub record Column : Type 0 where
  pub name : Text
  pub overridden_name : Option Text

abbrev pub names_of : List Column → List Text
names_of [] = []
names_of (c ∷ cs) = c.name ∷ names_of cs

-- The set of the texts of a list: each once.
unfoldable pub set_of : List Text → List Text
set_of [] = []
set_of (t ∷ ts) = let rest = set_of ts in if contains rest t then rest else t ∷ rest

unfoldable pub result_contains_duplicated_columns : List Column → Bool
unfolding set_of
result_contains_duplicated_columns cs = not (length (names_of cs) == length (set_of (names_of cs)))

-- The map quntityOfColumnNames.
abbrev pub Quantities : Type 0
Quantities = List (Text × ℕ)

abbrev pub quantity : Text → Quantities → Option ℕ
quantity t [] = none
quantity t ((k, n) ∷ q) = if text_eq k t then some n else quantity t q

-- columnName + '_' + times
abbrev pub suffixed : Text → ℕ → Text
suffixed name times = name ++ b'_' ∷ decimal times

-- The while loop: the first number from `times` on that makes a free name. The fuel is more than
-- there are names.
unfoldable pub free_times : ℕ → List Text → Text → ℕ → ℕ
free_times zero names name times = times
free_times (suc fuel) names name times =
    let more = free_times fuel names name (suc times) in
    if contains names (suffixed name times) then more else times

-- The loop over the rest of the columns, for the names in use and the quantities.
abbrev pub Rest : Type 0
Rest = List Text → Quantities → List Column

unfoldable pub rename_named : List Text → Quantities → Column → Rest → Option ℕ → List Column
unfolding free_times
rename_named names q c rest none = c ∷ rest names ((c.name, 1) ∷ q)
rename_named names q c rest (some n) =
    let times = free_times (suc (length names)) names c.name (n + 1) in
    let new_name = suffixed c.name times in
    record c { overridden_name = some new_name } ∷ rest (new_name ∷ names) ((c.name, times) ∷ q)

abbrev pub is_empty : Text → Bool
is_empty [] = true
is_empty (x ∷ xs) = false

unfoldable pub rename : List Column → Rest
unfolding rename_named
rename [] names q = []
rename (c ∷ cs) names q =
    if is_empty c.name
    then c ∷ rename cs names q
    else rename_named names q c (rename cs) (quantity c.name q)

unfoldable pub add_overridden_names_for_duplicated_columns : List Column → List Column
unfolding result_contains_duplicated_columns rename
add_overridden_names_for_duplicated_columns cs =
    if result_contains_duplicated_columns cs then rename cs (set_of (names_of cs)) [] else cs
