-- ===== src/ResultSet/Column/Examples.antt =====
-- Tests of the reads of a row and of the conversion of structured types.
use snowflake_connector_node.Prelude.{
  ℕ, ◌+◌, ◌*◌, String, true, false, ◌&&◌, ◌≡◌, refl, ◌⊎◌, Option, List, none, some, [], ◌∷◌, map,
  ◌==◌, if◌then◌else◌,
}
use snowflake_connector_node.ResultSet.Column.{
  Context, extracted, as_it_is, raw, extract_from_row, after_reads,
}
use snowflake_connector_node.ResultSet.Column.Reads.{arrived, expected, raw_cell, reads-expected}
use snowflake_connector_node.ResultSet.Column.Structured.{
  Json, scalar_json, object_json, entry, no_entries, LeafType, text_type, leaf_field, date_field,
  Fields, field, no_fields, listed, object_value, member, no_members, leaf_value,
}
use snowflake_connector_node.ResultSet.Column.Rows.{
  object_kind, array_kind, map_kind, convert_rows, convert_raw_structured_type, read_alone,
  convert_rows-alone,
}

-- Column 2 is a variant; a conversion adds 100, and that of 9 throws.
abbrev columns : ℕ → Context ℕ ℕ (Option ℕ)
columns i = record {
  is_variant = if i == 2 then true else false;
  convert = λ r. if r == 9 then none else some (r + 100);
  to_value = λ p. p;
  to_string = λ p. elim p [ none ↦ none | some q ↦ some (q * 10) ];
}

abbrev raws : ℕ → Option ℕ
raws i = if i == 2 then some 3 else some i

-- The variant is read as a string before and after it is read as a value.
lazy_string : (extract_from_row (columns 2) true 2 (arrived columns raws)).result ≡ as_it_is (raw 3)
unfolding extract_from_row arrived raw_cell
lazy_string = refl

read_before :
    (extract_from_row
      (columns 2)
      true
      2
      (after_reads columns ((1, true) ∷ (2, false) ∷ []) (arrived columns raws))).result
    ≡ extracted (some 1030)
unfolding extract_from_row after_reads arrived raw_cell
read_before = refl

reads-expected_example :
    ((extract_from_row
        (columns 1)
        false
        1
        (after_reads columns ((1, true) ∷ (2, false) ∷ []) (arrived columns raws))).result
      ≡ expected columns false 1 (raws 1))
    ⊎ (((false && (columns 1).is_variant) ≡ true)
        × ((extract_from_row
              (columns 1)
              false
              1
              (after_reads columns ((1, true) ∷ (2, false) ∷ []) (arrived columns raws))).result
            ≡ as_it_is (raw_cell (raws 1))))
reads-expected_example = reads-expected columns raws ((1, true) ∷ (2, false) ∷ []) false 1

abbrev leaf : LeafType → Json → Option ℕ
leaf t (scalar_json n) = some n
leaf t json = none

abbrev fields : Fields
fields = field (leaf_field "a" text_type) no_fields

abbrev parsed : Json
parsed = object_json (entry "a" (scalar_json 7) no_entries)

abbrev parse : String → Option Json
parse s = some parsed

first_row :
    read_alone leaf parse object_kind (listed fields) "{a:7}"
    ≡ some (object_value (member "a" (leaf_value 7) no_members))
unfolding read_alone convert_raw_structured_type
first_row = refl

-- A date in an object.
dated_row :
    read_alone leaf parse object_kind (listed (field (date_field "a") no_fields)) "{a:7}" ≡ none
unfolding read_alone convert_raw_structured_type
dated_row = refl

abbrev text : String
text = "{a:7}"

abbrev texts : List String
texts = text ∷ []

convert_rows-alone_example :
    (convert_rows leaf parse array_kind (listed fields) (text ∷ texts)
      ≡ map (read_alone leaf parse array_kind (listed fields)) (text ∷ texts))
    × (convert_rows leaf parse map_kind (listed fields) (text ∷ texts)
        ≡ map (read_alone leaf parse map_kind (listed fields)) (text ∷ texts))
    × (convert_rows leaf parse object_kind (listed fields) (text ∷ texts)
        ≡ read_alone leaf parse object_kind (listed fields) text ∷ map (λ r. none) texts)
convert_rows-alone_example = convert_rows-alone leaf parse fields text parsed texts refl refl
