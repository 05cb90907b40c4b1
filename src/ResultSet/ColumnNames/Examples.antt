-- ===== src/ResultSet/ColumnNames/Examples.antt =====
-- Names of columns at concrete columns.
use snowflake_connector_node.Prelude.{◌≡◌, refl, none, List, [], ◌∷◌}
use snowflake_connector_node.ResultSet.ColumnNames.Texts.{Text, decimal}
use snowflake_connector_node.ResultSet.ColumnNames.{
  Column, add_overridden_names_for_duplicated_columns,
}
use snowflake_connector_node.ResultSet.ColumnNames.Distinct.{
  shown_names, Distinct, add_overridden_names-Distinct,
}

abbrev column : Text → Column
column name = record { name = name; overridden_name = none }

-- A, A and A_2
abbrev columns : List Column
columns = column (65 ∷ []) ∷ column (65 ∷ []) ∷ column (65 ∷ 95 ∷ 50 ∷ []) ∷ []

-- A, A_3 and A_2
columns-shown :
    shown_names (add_overridden_names_for_duplicated_columns columns)
    ≡ (65 ∷ []) ∷ (65 ∷ 95 ∷ 51 ∷ []) ∷ (65 ∷ 95 ∷ 50 ∷ []) ∷ []
unfolding add_overridden_names_for_duplicated_columns decimal
columns-shown = refl

add_overridden_names-Distinct_example :
    Distinct (shown_names (add_overridden_names_for_duplicated_columns columns))
add_overridden_names-Distinct_example =
    add_overridden_names-Distinct columns ((refl, refl), ((refl, refl), ((refl, refl), tt)))
