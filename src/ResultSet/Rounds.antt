-- ===== src/ResultSet/Rounds.antt =====
-- The row buffer of lib/connection/result/row_stream.js over the calls of _read that a reader makes.
use snowflake_connector_node.Prelude.{
  ℕ, zero, suc, ◌≤◌, ◌≡◌, List, [], ◌∷◌, ◌++◌, Bool, Option, none, some, length, drop,
  length-append, refl, ap, sym, ◌∙◌, arith,
}
use snowflake_connector_node.ResultSet.Buffer.{
  RowBuffer, process_row_buffer, remaining, IsReadable, process_row_buffer-remaining,
}

module _ {ℓ} {A : Type ℓ} where
  -- The rows that at most `rounds` calls of _read push, as long as there is a buffer; `accepts r i`
  -- is what push() returns for the row at index i when r rounds are left after this one.
  unfoldable pub read_rounds : ℕ → (ℕ → ℕ → Bool) → Option (RowBuffer A) → List A
  unfolding process_row_buffer
  read_rounds zero accepts b = []
  read_rounds (suc r) accepts none = []
  read_rounds (suc r) accepts (some b) =
      (process_row_buffer (accepts r) b).pushed
      ++ read_rounds r accepts (process_row_buffer (accepts r) b).buffer

  no_length : (rows : List A) → length rows ≤ 0 → rows ≡ []
  no_length [] h = refl
  no_length (row ∷ rows) h = ground arith

  -- Wherever the reader pauses, as many calls of _read as rows remain push exactly these rows, in
  -- order, from a buffer that has a row to read or is dropped.
  pub read_rounds-remaining :
      (rounds : ℕ) (accepts : ℕ → ℕ → Bool) (b : Option (RowBuffer A))
      → IsReadable b
      → length (remaining b) ≤ rounds
      → read_rounds rounds accepts b ≡ remaining b
  unfolding read_rounds remaining IsReadable
  read_rounds-remaining zero accepts none h k = refl
  read_rounds-remaining zero accepts (some b) h k = sym (no_length (drop b.row_index b.rows) k)
  read_rounds-remaining (suc r) accepts none h k = refl
  read_rounds-remaining (suc r) accepts (some b) h k =
      let (some_pushed, all, readable) = process_row_buffer-remaining (accepts r) b h in
      let left = remaining (process_row_buffer (accepts r) b).buffer in
      let fewer : length left ≤ r = omega (
        arith,
        k,
        some_pushed,
        ap length all,
        length-append (process_row_buffer (accepts r) b).pushed left,
      ) in
      ap ((process_row_buffer (accepts r) b).pushed ++◌)
        (read_rounds-remaining r accepts (process_row_buffer (accepts r) b).buffer readable fewer)
      ∙ all
