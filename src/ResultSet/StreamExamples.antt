-- ===== src/ResultSet/StreamExamples.antt =====
-- The result stream and the row buffer at concrete loads and rows.
use snowflake_connector_node.Prelude.{
  ℕ, ◌+◌, ◌<◌, ◌≤◌, ◌≡◌, some, [], ◌∷◌, Bool, true, false, length, refl, arith, ltb,
}
use snowflake_connector_node.ResultSet.Stream.{
  Stream, new_stream, do_load, complete_load, load_chunks, fire, on_load_complete, Reachable,
  begins, reads, ends_load,
}
use snowflake_connector_node.ResultSet.Delivery.{delivered, countdown}
use snowflake_connector_node.ResultSet.InOrder.{delivered-Reachable, loading-Reachable}
use snowflake_connector_node.ResultSet.Buffer.{RowBuffer, remaining, IsReadable}

-- Three chunks, one loaded ahead: the second one arrives before the first.
abbrev reading : Stream
reading = do_load (new_stream 3 1)

abbrev second_first : Stream
second_first = complete_load false 0 (complete_load false 1 reading)

second_first-Reachable : Reachable 3 1 second_first
unfolding do_load complete_load new_stream
second_first-Reachable = ends_load false 0 (ends_load false 1 (reads begins refl) refl) refl

second_first-delivered : delivered second_first.emitted ≡ 0 ∷ []
unfolding delivered complete_load do_load new_stream fire on_load_complete
second_first-delivered = refl

delivered-Reachable_example :
    (delivered second_first.emitted ≡ countdown second_first.curr_chunk)
    × (second_first.curr_chunk ≤ 3)
delivered-Reachable_example = delivered-Reachable second_first-Reachable

reading-Reachable : Reachable 3 1 reading
unfolding new_stream
reading-Reachable = reads begins refl

reading-loads : reading.loading 1 ≡ true
unfolding do_load new_stream load_chunks
reading-loads = refl

loading-Reachable_example : (1 ≤ reading.curr_chunk + 1) × (1 < 3)
loading-Reachable_example = loading-Reachable 1 reading-Reachable reading-loads

new_stream-quiet : (new_stream 3 1).listeners (new_stream 3 1).curr_chunk ≡ 0
unfolding new_stream
new_stream-quiet = refl

new_stream-more : (new_stream 3 1).curr_chunk < 3
unfolding new_stream
new_stream-more = omega arith

abbrev four_rows : RowBuffer ℕ
four_rows = record { rows = 10 ∷ 11 ∷ 12 ∷ 13 ∷ []; row_index = 1 }

-- The reader takes rows up to the one at index 2.
abbrev up_to_two : ℕ → Bool
up_to_two i = ltb i 2

four_rows-IsReadable : IsReadable (some four_rows)
unfolding IsReadable
four_rows-IsReadable = omega arith

four_rows-length : length (remaining (some four_rows)) ≤ 3
unfolding remaining
four_rows-length = omega arith
