-- ===== src/ResultSet/RowExamples.antt =====
-- Tests of the rows that are handed out.
use snowflake_connector_node.Prelude.{
  ℕ, ◌≤◌, ◌&&◌, ltb, All, ◌++◌, arith, ◌+◌, ◌*◌, String, true, false, ◌≡◌, refl, ◌⊎◌, Option, none,
  some, List, [], ◌∷◌, ◌==◌, str_eq, length, if◌then◌else◌,
}
use snowflake_connector_node.ResultSet.Column.{Context, Extracted, extracted}
use snowflake_connector_node.ResultSet.Column.Reads.{arrived, raw_cell}
use snowflake_connector_node.ResultSet.Interrupts.{
  StreamError, another_code, StreamEvent, data_event, close_event, IsRecovered, count_closes,
  rows_of, is_open, errored, close, is_result_stream_error_retryable, stream_rows,
  stream_rows-pushed,
}
use snowflake_connector_node.ResultSet.External.{
  SqlType, fixed, boolean, is_read_as_string, build_map_column_extract_fn_names, externalize_row,
  array_row, object_row, ExternalRow,
}
use snowflake_connector_node.ResultSet.Handed.{AreRead, SomeThrows, externalize_row-array}

-- A conversion adds 100, and that of 9 throws; a string is ten times the value.
abbrev columns : ℕ → Context ℕ ℕ (Option ℕ)
columns i = record {
  is_variant = false;
  convert = λ r. if r == 9 then none else some (r + 100);
  to_value = λ p. p;
  to_string = λ p. elim p [ none ↦ none | some q ↦ some (q * 10) ];
}

abbrev raws : ℕ → Option ℕ
raws i = if i == 1 then none else some i

abbrev types : List SqlType
types = fixed ∷ boolean ∷ fixed ∷ []

abbrev upper : String → String
upper s = if str_eq s "number" then "NUMBER" else s

abbrev wanted : Option (List String)
wanted = some ("number" ∷ [])

abbrev names : List String
names = "a" ∷ "b" ∷ "a" ∷ []

handed :
    externalize_row true names columns
      (build_map_column_extract_fn_names upper types wanted)
      3
      (arrived columns raws)
    ≡ some (array_row (extracted (some 1000) ∷ extracted none ∷ extracted (some 1020) ∷ []))
unfolding externalize_row build_map_column_extract_fn_names arrived raw_cell
handed = refl

-- A name that comes twice has the value of its last column.
abbrev property :
    String → Option (ExternalRow (Extracted ℕ ℕ (Option ℕ))) → Option (Extracted ℕ ℕ (Option ℕ))
property name (some (object_row o)) = o name
property name other = none

overwritten :
    property "a" (
      externalize_row false names columns
        (build_map_column_extract_fn_names upper types wanted)
        3
        (arrived columns raws))
    ≡ some (extracted (some 1020))
unfolding externalize_row build_map_column_extract_fn_names arrived raw_cell
overwritten = refl

externalize_row-array_example :
    ((xs : List (Extracted ℕ ℕ (Option ℕ))) × (externalize_row true names columns
          (build_map_column_extract_fn_names upper types wanted)
          (length types)
          (arrived columns raws)
        ≡ some (array_row xs))
      × AreRead columns raws (is_read_as_string upper wanted) 0 types xs)
    ⊎ ((externalize_row true names columns
            (build_map_column_extract_fn_names upper types wanted)
            (length types)
            (arrived columns raws)
          ≡ none)
        × SomeThrows columns raws (is_read_as_string upper wanted) 0 types)
externalize_row-array_example = externalize_row-array columns raws upper wanted types names

abbrev expired_url : StreamError
expired_url = record {
  is_large_result_set_error = true;
  is_operation_failed_error = false;
  status_code = some 403;
  sql_state = false;
  code = another_code;
}

abbrev interrupted : List (StreamEvent ℕ)
interrupted =
    data_event (1 ∷ 2 ∷ []) ∷ close_event (some expired_url) none ∷ data_event (3 ∷ []) ∷ []

interrupted-IsRecovered : All IsRecovered interrupted
unfolding is_result_stream_error_retryable
interrupted-IsRecovered = (tt, (refl, (tt, tt)))

interrupted_once : count_closes interrupted ≤ 1
unfolding count_closes
interrupted_once = omega arith

stream_rows-pushed_example :
    (stream_rows 1 interrupted ≡ record { pushed = rows_of interrupted; end = is_open })
    × ((err result_error : Option StreamError)
        → (is_result_stream_error_retryable err && ltb (count_closes interrupted) 1) ≡ false
        → stream_rows 1 (interrupted ++ close_event err result_error ∷ [])
          ≡ record { pushed = rows_of interrupted; end = close err })
    × ((err : Option StreamError) (e : StreamError)
        → (is_result_stream_error_retryable err && ltb (count_closes interrupted) 1) ≡ true
        → stream_rows 1 (interrupted ++ close_event err (some e) ∷ [])
          ≡ record { pushed = rows_of interrupted; end = errored e })
stream_rows-pushed_example =
    stream_rows-pushed 1 interrupted [] interrupted-IsRecovered interrupted_once

-- With one interruption allowed, the second one ends the stream.
interrupted_twice :
    stream_rows 1 (interrupted ++ close_event (some expired_url) none ∷ [])
    ≡ record { pushed = 1 ∷ 2 ∷ 3 ∷ []; end = errored expired_url }
unfolding stream_rows
interrupted_twice = refl
