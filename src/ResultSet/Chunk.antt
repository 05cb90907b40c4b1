-- ===== src/ResultSet/Chunk.antt =====
-- lib/connection/result/chunk.js, and createChunks of lib/connection/result/result.js. `V` is the
-- type of a row's raw values; `parse` stands for `JSON.parse('[' + text + ']')`.
use snowflake_connector_node.Prelude.{
  ℕ, suc, ◌+◌, String, Bool, true, false, ◌&&◌, ◌||◌, not, Option, none, some, List, [], ◌∷◌,
  length, if◌then◌else◌, str_eq, ltb,
}
use snowflake_connector_node.Prelude.Int.{ℤ, pos, sub_ℕ, leb_ℤ}

-- A row object: its methods only read these two fields.
pub record Row (V : Type 0) : Type 0 where
  pub values : V
  pub row_index : ℕ

-- An entry of the response's `chunks`; the fabricated first one carries its rows.
pub record ChunkConfig (V : Type 0) : Type 0 where
  pub row_count : ℕ
  pub url : Option String
  pub rowset : Option (List V)

-- `none` is `undefined` or `null`.
pub record Chunk (V : Type 0) : Type 0 where
  pub start_index : ℕ
  pub end_index : ℤ
  pub url : Option String
  pub rowset_as_string : Option String
  pub rowset : Option (List V)
  pub rows : Option (List (Row V))
  pub is_loading : Bool

abbrev pub is_some {ℓ} : {A : Type ℓ} → Option A → Bool
is_some none = false
is_some (some a) = true

-- Util.string.isNotNullOrEmpty
unfoldable pub is_not_null_or_empty : Option String → Bool
is_not_null_or_empty none = false
is_not_null_or_empty (some s) = not (str_eq s "")

module _ {V : Type 0} where
  -- new Chunk(…); the last row's index is -1 for an empty chunk at 0.
  unfoldable pub new_chunk : ℕ → ChunkConfig V → Chunk V
  new_chunk start cfg = record {
    start_index = start;
    end_index = sub_ℕ (start + cfg.row_count) 1;
    url = cfg.url;
    rowset_as_string = none;
    rowset = cfg.rowset;
    rows = none;
    is_loading = false;
  }

  unfoldable pub overlaps_with_window : Chunk V → ℤ → ℤ → Bool
  overlaps_with_window c start end =
      (leb_ℤ end c.end_index && leb_ℤ (pos c.start_index) end)
      || (leb_ℤ (pos c.start_index) start && leb_ℤ start c.end_index)
      || (leb_ℤ start (pos c.start_index) && leb_ℤ c.end_index end)

  -- The loop of convertRowsetToRows.
  unfoldable pub convert_rowset_to_rows : ℕ → List V → List (Row V)
  convert_rowset_to_rows start [] = []
  convert_rowset_to_rows start (v ∷ vs) =
      record { values = v; row_index = start } ∷ convert_rowset_to_rows (suc start) vs

  -- The text of a rowset is parsed and dropped.
  unfoldable pub parse_rowset : (String → List V) → Chunk V → Chunk V
  unfolding is_not_null_or_empty
  parse_rowset parse c = elim c.rowset_as_string [
    | none ↦ c
    | some s ↦
        if str_eq s "" then c else record c { rowset = some (parse s); rowset_as_string = none }
  ]

  -- A rowset is converted to rows and dropped.
  unfoldable pub convert_rowset : Chunk V → Chunk V
  unfolding convert_rowset_to_rows
  convert_rowset c = elim c.rowset [
    | none ↦ c
    | some vs ↦ record c { rows = some (convert_rowset_to_rows c.start_index vs); rowset = none }
  ]

  -- getRows(): the chunk after the call, whose `rows` is what the call returns.
  unfoldable pub get_rows : (String → List V) → Chunk V → Chunk V
  unfolding parse_rowset convert_rowset
  get_rows parse c = elim c.rows [ some rs ↦ c | none ↦ convert_rowset (parse_rowset parse c) ]

  unfoldable pub clear_rows : Bool → Chunk V → Chunk V
  unfolding is_not_null_or_empty
  clear_rows force c =
      if is_not_null_or_empty c.url || force
      then record c { rowset_as_string = none; rowset = none; rows = none }
      else c

  unfoldable pub set_url : Option String → Chunk V → Chunk V
  set_url url c = record c { url = url }

  unfoldable pub is_loaded : Chunk V → Bool
  unfolding is_not_null_or_empty
  is_loaded c = is_not_null_or_empty c.rowset_as_string || is_some c.rowset || is_some c.rows

  -- The loop of createChunks.
  unfoldable pub place_chunks : ℕ → List (ChunkConfig V) → List (Chunk V)
  unfolding new_chunk
  place_chunks start [] = []
  place_chunks start (cfg ∷ cfgs) = new_chunk start cfg ∷ place_chunks (start + cfg.row_count) cfgs

  -- Rows that were sent inline make a first chunk of their own.
  unfoldable pub with_inline_rows : List (ChunkConfig V) → List V → List (ChunkConfig V)
  with_inline_rows cfgs rowset =
      if ltb 0 (length rowset)
      then record { row_count = length rowset; url = none; rowset = some rowset } ∷ cfgs
      else cfgs

  unfoldable pub create_chunks : Option (List (ChunkConfig V)) → List V → List (Chunk V)
  unfolding place_chunks with_inline_rows
  create_chunks none rowset = place_chunks 0 (with_inline_rows [] rowset)
  create_chunks (some cfgs) rowset = place_chunks 0 (with_inline_rows cfgs rowset)

  -- Result.prototype.refresh: each chunk takes the new URL of its position. A response with fewer
  -- chunks makes the source read a property of `undefined`, which throws (`none`).
  unfoldable pub refresh : List (Chunk V) → List (ChunkConfig V) → Option (List (Chunk V))
  unfolding set_url
  refresh [] cfgs = some []
  refresh (c ∷ cs) [] = none
  refresh (c ∷ cs) (cfg ∷ cfgs) = elim (refresh cs cfgs) [
    | none ↦ none
    | some rest ↦ some (set_url cfg.url c ∷ rest)
  ]
