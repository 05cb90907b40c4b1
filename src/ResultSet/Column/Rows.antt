-- ===== src/ResultSet/Column/Rows.antt =====
-- A column of a structured type over the rows of a result (convertRawStructuredType in
-- lib/connection/result/column.js): the context is the column's, and convertJsonObject changes it.
use snowflake_connector_node.Prelude.{
  String, false, Option, none, some, List, [], ◌∷◌, map, str_eq, if◌then◌else◌, ◌≡◌, refl, ap,
  Bool-cases, Option-cases, inl, inr, ◌∙◌,
}
use snowflake_connector_node.ResultSet.Window.{◌>>=◌}
use snowflake_connector_node.ResultSet.Column.Structured.{
  Json, object_json, LeafType, array_field, map_field, Metadata, absent, listed, by_name, Fields,
  Structured, json_value, object_value, convert_members, map_structured_type_value,
}

-- What a conversion gives, `none` where it throws, and `fieldsMetadata` of the context after it.
pub record Converted (L : Type 0) : Type 0 where
  pub result : Option (Structured L)
  pub fields_metadata : Metadata

-- The three structured types.
pub data Kind : Type 0 where
  object_kind array_kind map_kind : Kind

module _ {L : Type 0} (leaf : LeafType → Json → Option L) where
  abbrev members_of : Fields → Json → Option (Structured L)
  members_of fs (object_json es) = do ms ← convert_members leaf fs es; some (object_value ms)
  members_of fs json = none

  -- The list of fields is replaced by an object, which has no `reduce`.
  unfoldable pub convert_json_object : Metadata → Json → Converted L
  unfolding convert_members
  convert_json_object absent json = record {
    result = some (json_value json);
    fields_metadata = absent;
  }
  convert_json_object (listed fs) json = record {
    result = members_of fs json;
    fields_metadata = by_name fs;
  }
  convert_json_object (by_name fs) json = record { result = none; fields_metadata = by_name fs }

  -- convertJsonArray and convertJsonMap are as for a field of these types.
  unfoldable pub convert_json : Kind → Metadata → Json → Converted L
  unfolding convert_json_object map_structured_type_value
  convert_json object_kind fs json = convert_json_object fs json
  convert_json array_kind fs json = record {
    result = map_structured_type_value leaf (array_field "" fs) json;
    fields_metadata = fs;
  }
  convert_json map_kind fs json = record {
    result = map_structured_type_value leaf (map_field "" fs) json;
    fields_metadata = fs;
  }

  module _ (parse : String → Option Json) where
    abbrev of_parsed : Kind → Metadata → Option Json → Converted L
    of_parsed kind fs none = record { result = none; fields_metadata = fs }
    of_parsed kind fs (some json) = convert_json kind fs json

    -- `parse` is JSON.parse, which can throw; an empty text is an error.
    unfoldable pub convert_raw_structured_type : Kind → Metadata → String → Converted L
    unfolding convert_json
    convert_raw_structured_type kind fs raw =
        if str_eq raw ""
        then record { result = none; fields_metadata = fs }
        else of_parsed kind fs (parse raw)

    -- The column's values in one row after the other.
    unfoldable pub convert_rows : Kind → Metadata → List String → List (Option (Structured L))
    unfolding convert_raw_structured_type
    convert_rows kind fs [] = []
    convert_rows kind fs (raw ∷ raws) =
        let c = convert_raw_structured_type kind fs raw in
        c.result ∷ convert_rows kind c.fields_metadata raws

    parsed-throws :
        (fs : Fields) (json : Option Json)
        → of_parsed object_kind (by_name fs) json
          ≡ record { result = none; fields_metadata = by_name fs }
    unfolding convert_json convert_json_object
    parsed-throws fs none = refl
    parsed-throws fs (some json) = refl

    later_row-throws :
        (fs : Fields) (raw : String)
        → convert_raw_structured_type object_kind (by_name fs) raw
          ≡ record { result = none; fields_metadata = by_name fs }
    unfolding convert_raw_structured_type convert_json convert_json_object
    later_row-throws fs raw = elim (Bool-cases (str_eq raw "")) [
      | inl e ↦ rw e refl
      | inr e ↦ rw e (parsed-throws fs (parse raw))
    ]

    later_rows-throw :
        (fs : Fields) (raws : List String)
        → convert_rows object_kind (by_name fs) raws ≡ map (λ raw. none) raws
    unfolding convert_rows
    later_rows-throw fs [] = refl
    later_rows-throw fs (raw ∷ raws) =
        rw (later_row-throws fs raw) (ap (◌∷◌ none) (later_rows-throw fs raws))

    -- The conversion of a row when the column is read for the first time.
    unfoldable pub read_alone : Kind → Metadata → String → Option (Structured L)
    read_alone kind fs raw = (convert_raw_structured_type kind fs raw).result

    kept-metadata :
        (fs : Metadata) (raw : String)
        → ((convert_raw_structured_type array_kind fs raw).fields_metadata ≡ fs)
          × ((convert_raw_structured_type map_kind fs raw).fields_metadata ≡ fs)
    unfolding convert_raw_structured_type convert_json
    kept-metadata fs raw = elim (Bool-cases (str_eq raw "")) [
      | inl e ↦ rw e (refl, refl)
      | inr e ↦ rw e (elim (Option-cases (parse raw)) [
        | inl k ↦ rw k (refl, refl)
        | inr (json, k) ↦ rw k (refl, refl)
      ])
    ]

    rows-alone :
        (kind : Kind) (fs : Metadata) (raws : List String)
        → ((raw : String) → (convert_raw_structured_type kind fs raw).fields_metadata ≡ fs)
        → convert_rows kind fs raws ≡ map (read_alone kind fs) raws
    unfolding convert_rows read_alone
    rows-alone kind fs [] h = refl
    rows-alone kind fs (raw ∷ raws) h =
        ap (λ m. read_alone kind fs raw ∷ convert_rows kind m raws) (h raw)
        ∙ ap (◌∷◌ (read_alone kind fs raw)) (rows-alone kind fs raws h)

    -- In a column of arrays or of maps each row is converted as if it were the first one; in a
    -- column of objects, once the text of a row was parsed, the conversion of every later one
    -- throws.
    pub convert_rows-alone :
        (fs : Fields) (first : String) (json : Json) (raws : List String)
        → str_eq first "" ≡ false
        → parse first ≡ some json
        → (convert_rows array_kind (listed fs) (first ∷ raws)
            ≡ map (read_alone array_kind (listed fs)) (first ∷ raws))
          × (convert_rows map_kind (listed fs) (first ∷ raws)
              ≡ map (read_alone map_kind (listed fs)) (first ∷ raws))
          × (convert_rows object_kind (listed fs) (first ∷ raws)
              ≡ read_alone object_kind (listed fs) first ∷ map (λ raw. none) raws)
    unfolding convert_rows read_alone convert_raw_structured_type convert_json convert_json_object
    convert_rows-alone fs first json raws h k = (
      rows-alone array_kind (listed fs) (first ∷ raws) (λ raw. (kept-metadata (listed fs) raw).0),
      rows-alone map_kind (listed fs) (first ∷ raws) (λ raw. (kept-metadata (listed fs) raw).1),
      ap (◌∷◌ (read_alone object_kind (listed fs) first))
          (ap (λ m. convert_rows object_kind m raws) (rw (h, k) refl) ∙ later_rows-throw fs raws),
    )
