-- ===== src/ResultSet/Loaded.antt =====
-- getRows, clearRows and isLoaded of lib/connection/result/chunk.js, and createChunks.
use snowflake_connector_node.Prelude.{
  ℕ, zero, suc, ◌+◌, ◌<◌, ◌≡◌, String, Bool, true, false, ◌||◌, none, some, Option, List, [], ◌∷◌,
  ◌++◌, refl, length, get_elem?, arith, ap, ◌∙◌, str_eq, if◌then◌else◌,
}
use snowflake_connector_node.Prelude.Int.{pos_part}
use snowflake_connector_node.ResultSet.Chunk.{
  Row, ChunkConfig, Chunk, is_not_null_or_empty, convert_rowset_to_rows, get_rows, clear_rows,
  is_loaded, new_chunk, place_chunks, with_inline_rows, create_chunks,
}
use snowflake_connector_node.ResultSet.Tiling.{IsTiled, HasRows, place_chunks-IsTiled}
use snowflake_connector_node.ResultSet.Overlap.{rows_end}

module _ {V : Type 0} where
  -- The number of rows that the response announces.
  abbrev pub announced : List (ChunkConfig V) → ℕ
  announced [] = 0
  announced (cfg ∷ cfgs) = cfg.row_count + announced cfgs

  next_row :
      (s : ℕ) (cfg : ChunkConfig V)
      → 0 < cfg.row_count
      → suc (pos_part (new_chunk s cfg).end_index) ≡ s + cfg.row_count
  unfolding new_chunk
  next_row s cfg h = ground arith

  place_chunks-end :
      (s : ℕ) (cfgs : List (ChunkConfig V))
      → HasRows cfgs
      → rows_end s (place_chunks s cfgs) ≡ s + announced cfgs
  unfolding place_chunks
  place_chunks-end s [] h = omega arith
  place_chunks-end s (cfg ∷ cfgs) h =
      ap (λ n. rows_end n (place_chunks (s + cfg.row_count) cfgs)) (next_row s cfg h.0)
      ∙ omega (arith, place_chunks-end (s + cfg.row_count) cfgs h.1)

  inline-HasRows :
      (cfgs : List (ChunkConfig V)) (rowset : List V)
      → HasRows cfgs
      → HasRows (with_inline_rows cfgs rowset)
        × (announced (with_inline_rows cfgs rowset) ≡ length rowset + announced cfgs)
  unfolding with_inline_rows
  inline-HasRows cfgs [] h = ground arith
  inline-HasRows cfgs (v ∷ vs) h = ground arith

  -- The rows that chunks hold, or that their URLs have, in the order of the chunks; and those of the
  -- chunks of a response.
  module _ (fetch : Option String → List V) where
    abbrev pub held : Option (List V) → Option String → List V
    held none url = fetch url
    held (some vs) url = vs

    abbrev pub rows_held : List (Chunk V) → List V
    rows_held [] = []
    rows_held (c ∷ cs) = held c.rowset c.url ++ rows_held cs

    abbrev pub rows_configured : List (ChunkConfig V) → List V
    rows_configured [] = []
    rows_configured (cfg ∷ cfgs) = held cfg.rowset cfg.url ++ rows_configured cfgs

    place_chunks-held :
        (s : ℕ) (cfgs : List (ChunkConfig V))
        → rows_held (place_chunks s cfgs) ≡ rows_configured cfgs
    unfolding place_chunks
    place_chunks-held s [] = refl
    place_chunks-held s (cfg ∷ cfgs) =
        ap (λ (vs : List V). held cfg.rowset cfg.url ++ vs)
          (place_chunks-held (s + cfg.row_count) cfgs)

    inline-held :
        (cfgs : List (ChunkConfig V)) (rowset : List V)
        → rows_configured (with_inline_rows cfgs rowset) ≡ rowset ++ rows_configured cfgs
    unfolding with_inline_rows
    inline-held cfgs [] = ground arith
    inline-held cfgs (v ∷ vs) = ground arith

  -- The chunks of a response, where each of its chunks has a row, cover the rows from 0 on without a
  -- gap, as many as the inline rows and the counts of the response's chunks together; and whatever
  -- rows their URLs have, the rows of the chunks in their order are the inline rows, and behind them
  -- those of the response's chunks.
  pub create_chunks-IsTiled :
      (cfgs : List (ChunkConfig V)) (rowset : List V) (fetch : Option String → List V)
      → HasRows cfgs
      → IsTiled 0 (create_chunks (some cfgs) rowset)
        × (rows_end 0 (create_chunks (some cfgs) rowset) ≡ length rowset + announced cfgs)
        × (rows_held fetch (create_chunks (some cfgs) rowset)
            ≡ rowset ++ rows_configured fetch cfgs)
  unfolding create_chunks
  create_chunks-IsTiled cfgs rowset fetch h =
      let (some_rows, count) = inline-HasRows cfgs rowset h in
      let placed = with_inline_rows cfgs rowset in
      (
        place_chunks-IsTiled 0 placed some_rows,
        omega (arith, place_chunks-end 0 placed some_rows, count),
        place_chunks-held fetch 0 placed ∙ inline-held fetch cfgs rowset,
      )

  converted-index :
      (s i : ℕ) (vs : List V) (r : Row V)
      → get_elem? (convert_rowset_to_rows s vs) i ≡ some r
      → (r.row_index ≡ s + i) × (get_elem? vs i ≡ some r.values)
  unfolding convert_rowset_to_rows
  converted-index s i [] r h = cc
  converted-index s zero (v ∷ vs) r h = ground arith
  converted-index s (suc i) (v ∷ vs) r h = ground (arith, converted-index (suc s) i vs r)

  -- getRows of a chunk whose text has arrived gives, at each position, the row of the parsed text
  -- at that position, numbered from the chunk's first row; the text is dropped, the chunk counts as
  -- loaded, and a second call changes nothing more.
  pub get_rows-parsed :
      (parse : String → List V) (c : Chunk V) (s : String)
      → c.rows ≡ none
      → c.rowset_as_string ≡ some s
      → str_eq s "" ≡ false
      → (rows : List (Row V)) × ((get_rows parse c).rows ≡ some rows)
        × ((i : ℕ) (r : Row V)
            → get_elem? rows i ≡ some r
            → (r.row_index ≡ c.start_index + i) × (get_elem? (parse s) i ≡ some r.values))
        × ((get_rows parse c).rowset_as_string ≡ none)
        × (is_loaded (get_rows parse c) ≡ true)
        × (get_rows parse (get_rows parse c) ≡ get_rows parse c)
  unfolding get_rows
  get_rows-parsed parse c s empty arrived text = (
    convert_rowset_to_rows c.start_index (parse s),
    ground arith,
    λ i r h. converted-index c.start_index i (parse s) r h,
    ground arith,
    unfold is_loaded in ground arith,
    ground arith,
  )

  -- clearRows drops the rows of exactly those chunks that can be fetched again by their URL, or
  -- all when forced; without a URL the rows that came inline stay.
  pub clear_rows-loaded :
      (force : Bool) (c : Chunk V)
      → is_loaded (clear_rows force c)
        ≡ (if is_not_null_or_empty c.url || force then false else is_loaded c)
  unfolding clear_rows is_loaded
  clear_rows-loaded force c = ground arith
