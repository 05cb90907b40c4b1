-- ===== src/ResultSet/Window.antt =====
-- findOverlappingChunks and findFirstOverlappingChunk of lib/connection/result/result.js, and the
-- window that lib/connection/result/row_stream.js asks for. Indices of rows are integers; a
-- fractional index is truncated before anything else reads it. A read outside an array gives
-- `undefined`, and a call of its method throws: that is `none`.
use snowflake_connector_node.Prelude.{
  ℕ, zero, suc, ◌+◌, ◌-◌, ◌/◌, Bool, true, ◌||◌, not, Option, none, some, List, [], ◌∷◌, length,
  drop, get_elem?, if◌then◌else◌, ◌==◌,
}
use snowflake_connector_node.Prelude.Int.{ℤ, pos, sub_ℕ, ltb_ℤ, leb_ℤ}
use snowflake_connector_node.ResultSet.Chunk.{Chunk, overlaps_with_window}

infixl 5 ◌>>=◌
abbrev pub ◌>>=◌ {ℓ κ} : {A : Type ℓ} {B : Type κ} → Option A → (A → Option B) → Option B
none >>= f = none
some a >>= f = f a

-- The index that the search gives, -1 being `missing`.
pub data Found : Type 0 where
  missing : Found
  at : ℕ → Found

module _ {V : Type 0} (chunks : List (Chunk V)) (start end : ℤ) where
  -- chunks[index].overlapsWithWindow(start, end)
  unfoldable pub overlaps_at : ℕ → Option Bool
  overlaps_at index = do chunk ← get_elem? chunks index; some (overlaps_with_window chunk start end)

  -- Two or fewer chunks are left.
  unfoldable pub search_ends : ℕ → ℕ → Option Found
  unfolding overlaps_at
  search_ends left right =
      if left == right
      then (do hit ← overlaps_at left; some (if hit then at left else missing))
      else (do
        hit ← overlaps_at left
        if hit
            then some (at left)
            else (do next ← overlaps_at right; some (if next then at right else missing)))

  -- The chunk in the middle overlaps; `none` asks to go on in the left half.
  unfoldable pub middle_is_first : ℕ → Option Bool
  unfolding overlaps_at
  middle_is_first middle =
      if middle == 0 then some true else (do before ← overlaps_at (middle - 1); some (not before))

  -- `helper`, on fuel; it is out of fuel only as `none`.
  unfoldable pub search : ℕ → ℕ → ℕ → Option Found
  unfolding search_ends middle_is_first overlaps_at
  search zero left right = none
  search (suc fuel) left right =
      let middle = (left + right) / 2 in
      let left_half = search fuel left middle in
      let right_half = search fuel middle right in
      if middle == left || middle == right then search_ends left right else (do
        chunk ← get_elem? chunks middle
        if overlaps_with_window chunk start end
            then (do first ← middle_is_first middle; if first then some (at middle) else left_half)
            else if ltb_ℤ chunk.end_index start
            then right_half
            else left_half)

  -- The number of chunks is fuel enough.
  unfoldable pub find_first_overlapping_chunk : Option Found
  unfolding search
  find_first_overlapping_chunk = search (length chunks) 0 (length chunks - 1)

module _ {V : Type 0} where
  -- The loop that collects chunks until one does not overlap.
  unfoldable pub collect : List (Chunk V) → ℤ → ℤ → List (Chunk V)
  collect [] start end = []
  collect (c ∷ cs) start end =
      let rest = collect cs start end in if overlaps_with_window c start end then c ∷ rest else []

  -- The loop begins at the index found; at -1 its first round throws.
  unfoldable pub collect_from : List (Chunk V) → ℤ → ℤ → Found → Option (List (Chunk V))
  unfolding collect
  collect_from chunks start end missing = none
  collect_from chunks start end (at index) = some (collect (drop index chunks) start end)

  unfoldable pub find_overlapping_chunks : List (Chunk V) → ℤ → ℤ → Option (List (Chunk V))
  unfolding find_first_overlapping_chunk collect_from
  find_overlapping_chunks [] start end = some []
  find_overlapping_chunks (c ∷ cs) start end = do
    found ← find_first_overlapping_chunk (c ∷ cs) start end
    collect_from (c ∷ cs) start end found

-- The window of rows of RowStream's init and of fetchRows; a missing bound is `none`.
unfoldable pub window_start : Option ℤ → ℤ
window_start none = pos 0
window_start (some s) = if ltb_ℤ s (pos 0) then pos 0 else s

unfoldable pub window_end : ℕ → Option ℤ → ℤ
window_end returned_rows none = sub_ℕ returned_rows 1
window_end returned_rows (some e) = if leb_ℤ (pos returned_rows) e then sub_ℕ returned_rows 1 else e

-- How a row stream starts: it is closed at once, or it streams the chunks.
pub data Opening (V : Type 0) : Type 0 where
  closed : Opening V
  streaming : List (Chunk V) → Opening V

-- init of RowStream: the chunks are looked up before the window is tested.
unfoldable pub open_row_stream :
    {V : Type 0} → List (Chunk V) → ℕ → Option ℤ → Option ℤ → Option (Opening V)
open_row_stream chunks returned_rows s e = do
  overlapping ← find_overlapping_chunks chunks (window_start s) (window_end returned_rows e)
  some (
      if length overlapping == 0 || ltb_ℤ (window_end returned_rows e) (window_start s)
      then closed
      else streaming overlapping)
