-- ===== src/ResultSet/Column.antt =====
-- lib/connection/result/column.js: the values of a column in a row, which are converted when they are
-- first asked for.
pub mod Reads
pub mod Structured
pub mod Rows
mod Examples
use snowflake_connector_node.ResultSet.Stream.{put}
use snowflake_connector_node.Prelude.{
  ℕ, Bool, true, false, ◌&&◌, not, Option, none, some, ◌==◌, if◌then◌else◌, List, [], ◌∷◌,
}

-- What `values` of a row holds at an index: null, the raw value, or the converted one.
pub data Cell (R P : Type 0) : Type 0 where
  null_cell : Cell R P
  raw : R → Cell R P
  converted : P → Cell R P

-- `values` and `_arrayProcessedColumns` of a row.
pub record RowValues (R P : Type 0) : Type 0 where
  pub values : ℕ → Cell R P
  pub processed : ℕ → Bool

-- The context of a column: a conversion that throws is `none`; toValue and toString take null, which
-- is `none`, or a converted value.
pub record Context (R P O : Type 0) : Type 0 where
  pub is_variant : Bool
  pub convert : R → Option P
  pub to_value : Option P → O
  pub to_string : Option P → O

-- What a read gives: what the extraction function makes of the value, a value that is left as it is,
-- or an error that is thrown.
pub data Extracted (R P O : Type 0) : Type 0 where
  extracted : O → Extracted R P O
  as_it_is : Cell R P → Extracted R P O
  throws : Extracted R P O

pub record Read (R P O : Type 0) : Type 0 where
  pub result : Extracted R P O
  pub row : RowValues R P

module _ {R P O : Type 0} where
  abbrev pub extract_fn : Context R P O → Bool → Option P → O
  extract_fn ctx as_string = if as_string then ctx.to_string else ctx.to_value

  -- The value after it was converted, or did not have to be.
  unfoldable pub externalized : Context R P O → Bool → Cell R P → Extracted R P O
  externalized ctx as_string null_cell = extracted (extract_fn ctx as_string none)
  externalized ctx as_string (converted p) = extracted (extract_fn ctx as_string (some p))
  externalized ctx as_string (raw r) = as_it_is (raw r)

  -- A converted value is put back and remembered as processed.
  unfoldable pub put_back : Context R P O → Bool → ℕ → Option P → RowValues R P → Read R P O
  unfolding externalized put
  put_back ctx as_string i none row = record { result = throws; row = row }
  put_back ctx as_string i (some p) row = record {
    result = externalized ctx as_string (converted p);
    row = record { values = put i (converted p) row.values; processed = put i true row.processed };
  }

  -- A value that is not null is converted.
  unfoldable pub process : Context R P O → Bool → ℕ → Cell R P → RowValues R P → Read R P O
  unfolding put_back externalized put
  process ctx as_string i (raw r) row = put_back ctx as_string i (ctx.convert r) row
  process ctx as_string i c row = record {
    result = externalized ctx as_string c;
    row = record row { processed = put i true row.processed };
  }

  -- A value is read that was processed before or not; one that is not, and is wanted as the string of
  -- a variant, is left as it is.
  unfoldable pub extract_by : Bool → Bool → Context R P O → Bool → ℕ → RowValues R P → Read R P O
  unfolding process externalized
  extract_by true variant_string ctx as_string i row = record {
    result = externalized ctx as_string (row.values i);
    row = row;
  }
  extract_by false true ctx as_string i row = record { result = as_it_is (row.values i); row = row }
  extract_by false false ctx as_string i row = process ctx as_string i (row.values i) row

  -- extractFromRow, of the column at an index.
  unfoldable pub extract_from_row : Context R P O → Bool → ℕ → RowValues R P → Read R P O
  unfolding extract_by
  extract_from_row ctx as_string i row =
      extract_by (row.processed i) (as_string && ctx.is_variant) ctx as_string i row

  -- Reads one after the other, of the column at an index as a value or as a string.
  unfoldable pub after_reads : (ℕ → Context R P O) → List (ℕ × Bool) → RowValues R P → RowValues R P
  unfolding extract_from_row
  after_reads ctx [] row = row
  after_reads ctx ((i, as_string) ∷ reads) row =
      after_reads ctx reads (extract_from_row (ctx i) as_string i row).row
