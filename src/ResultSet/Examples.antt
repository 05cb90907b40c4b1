-- ===== src/ResultSet/Examples.antt =====
-- The theorems about lib/connection/result at concrete chunks.
use snowflake_connector_node.Prelude.{
  ℕ, zero, suc, ◌+◌, ◌-◌, ◌≡◌, refl, String, Option, none, some, List, [], ◌∷◌, ◌++◌, length, arith,
  if◌then◌else◌, str_eq,
}
use snowflake_connector_node.Prelude.Int.{pos, pos_part}
use snowflake_connector_node.ResultSet.Chunk.{
  ChunkConfig, Chunk, create_chunks, new_chunk, overlaps_with_window,
}
use snowflake_connector_node.ResultSet.Window.{
  at, find_first_overlapping_chunk, find_overlapping_chunks,
}
use snowflake_connector_node.ResultSet.Tiling.{IsTiled}
use snowflake_connector_node.ResultSet.Search.{FirstHit, find_first-FirstHit}
use snowflake_connector_node.ResultSet.Overlap.{rows_end}
use snowflake_connector_node.ResultSet.Rows.{all_rows, streamed, slice, streamed-window}
use snowflake_connector_node.ResultSet.Loaded.{
  announced, rows_held, rows_configured, create_chunks-IsTiled,
}

abbrev sized : ℕ → ChunkConfig ℕ
sized n = record { row_count = n; url = some "u"; rowset = none }

abbrev configs : List (ChunkConfig ℕ)
configs = sized 3 ∷ sized 2 ∷ sized 4 ∷ []

-- Rows 0 and 1 came inline; then chunks of three, two and four rows.
abbrev chunks : List (Chunk ℕ)
chunks = create_chunks (some configs) (7 ∷ 8 ∷ [])

chunks-IsTiled : IsTiled 0 chunks
unfolding create_chunks
chunks-IsTiled = ground arith

-- Every URL has the same three rows.
abbrev fetched : Option String → List ℕ
fetched url = 1 ∷ 2 ∷ 3 ∷ []

create_chunks_example :
    IsTiled 0 (create_chunks (some configs) (7 ∷ 8 ∷ []))
    × (rows_end 0 (create_chunks (some configs) (7 ∷ 8 ∷ []))
        ≡ length {A = ℕ} (7 ∷ 8 ∷ []) + announced configs)
    × (rows_held fetched (create_chunks (some configs) (7 ∷ 8 ∷ []))
        ≡ (7 ∷ 8 ∷ []) ++ rows_configured fetched configs)
create_chunks_example = create_chunks-IsTiled configs (7 ∷ 8 ∷ []) fetched (omega arith)

find_first_example :
    FirstHit 0 chunks chunks-IsTiled 4 6
      (omega arith)
      0
      (length chunks - 1)
      (find_first_overlapping_chunk chunks (pos 4) (pos 6))
unfolding create_chunks
find_first_example = find_first-FirstHit 0 chunks chunks-IsTiled 4 6 (omega arith) (omega arith)

first_is_second : find_first_overlapping_chunk chunks (pos 4) (pos 6) ≡ some (at 1)
unfolding create_chunks find_first_overlapping_chunk overlaps_with_window
first_is_second = refl

abbrev head : Chunk ℕ
head = new_chunk 0 (sized 3)

abbrev last : Chunk ℕ
last = new_chunk 3 (sized 2)

-- Each row of the example is its own number.
abbrev from : ℕ → ℕ → List ℕ
from n zero = []
from n (suc k) = n ∷ from (suc n) k

abbrev numbered : Chunk ℕ → List ℕ
numbered c = from c.start_index (suc (pos_part c.end_index) - c.start_index)

streamed-window_example :
    (found : List (Chunk ℕ)) × (find_overlapping_chunks chunks (pos 1) (pos 5) ≡ some found)
    × (streamed numbered 1 5 found ≡ slice 1 6 (all_rows numbered chunks))
unfolding create_chunks
streamed-window_example =
    streamed-window numbered 1 5 (omega arith) chunks chunks-IsTiled (omega arith) (omega arith)

rows_one_to_five : slice 1 6 (all_rows numbered chunks) ≡ 1 ∷ 2 ∷ 3 ∷ 4 ∷ 5 ∷ []
unfolding create_chunks slice
rows_one_to_five = refl

-- JSON.parse of the text between brackets, for the example.
abbrev parse : String → List ℕ
parse s = if str_eq s "5,6" then 5 ∷ 6 ∷ [] else []

abbrev arrived : Chunk ℕ
arrived = record last { rowset_as_string = some "5,6" }
