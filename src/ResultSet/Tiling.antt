-- ===== src/ResultSet/Tiling.antt =====
-- The chunks that createChunks of lib/connection/result/result.js makes lie one behind the other.
use snowflake_connector_node.Prelude.{
  ℕ, zero, suc, ◌+◌, ◌≤◌, ◌<◌, ◌≡◌, refl, Bool, ◌&&◌, none, some, List, [], ◌∷◌, length, get_elem?,
  All, arith, leb, ap, subst,
}
use snowflake_connector_node.Prelude.Int.{pos, pos_part}
use snowflake_connector_node.ResultSet.Chunk.{
  ChunkConfig, Chunk, place_chunks, overlaps_with_window,
}
use snowflake_connector_node.ResultSet.Window.{overlaps_at}

module _ {V : Type 0} where
  -- The chunks cover the rows from `s` on, each at least one row.
  abbrev pub IsTiled : ℕ → List (Chunk V) → Type 0
  IsTiled s [] = Unit
  IsTiled s (c ∷ cs) =
      (c.start_index ≡ s)
      × (c.end_index ≡ pos (pos_part c.end_index))
      × (s ≤ pos_part c.end_index)
      × IsTiled (suc (pos_part c.end_index)) cs

  abbrev pub HasRows : List (ChunkConfig V) → Type 0
  HasRows = All (λ cfg. 0 < cfg.row_count)

  pub place_chunks-IsTiled :
      (s : ℕ) (cfgs : List (ChunkConfig V)) → HasRows cfgs → IsTiled s (place_chunks s cfgs)
  unfolding place_chunks
  place_chunks-IsTiled s [] h = tt
  place_chunks-IsTiled s (cfg ∷ cfgs) h = (
    refl,
    ground arith,
    ground arith,
    subst (λ n. IsTiled n (place_chunks (s + cfg.row_count) cfgs)) (ground arith)
        (place_chunks-IsTiled (s + cfg.row_count) cfgs h.1),
  )

  -- The first and the last row of the chunk at an index.
  abbrev pub first_row : List (Chunk V) → ℕ → ℕ
  first_row cs i = elim (get_elem? cs i) [ none ↦ 0 | some c ↦ c.start_index ]

  abbrev pub last_row : List (Chunk V) → ℕ → ℕ
  last_row cs i = elim (get_elem? cs i) [ none ↦ 0 | some c ↦ pos_part c.end_index ]

  -- The chunk at an index of the array.
  abbrev pub At : List (Chunk V) → ℕ → Chunk V → Type 0
  At cs i c =
      (get_elem? cs i ≡ some c)
      × (c.start_index ≡ first_row cs i)
      × (c.end_index ≡ pos (last_row cs i))
      × (first_row cs i ≤ last_row cs i)

  pub chunk-At :
      (s : ℕ) (cs : List (Chunk V)) (i : ℕ)
      → IsTiled s cs
      → i < length cs
      → (c : Chunk V) × At cs i c
  chunk-At s [] i t h = absurd (omega arith)
  chunk-At s (c ∷ cs) zero t h = (c, (refl, refl, t.1, omega arith))
  chunk-At s (c ∷ cs) (suc i) t h = chunk-At (suc (pos_part c.end_index)) cs i t.3 (omega arith)

  above : (s : ℕ) (cs : List (Chunk V)) (i : ℕ) → IsTiled s cs → i < length cs → s ≤ first_row cs i
  above s [] i t h = absurd (omega arith)
  above s (c ∷ cs) zero t h = omega arith
  above s (c ∷ cs) (suc i) t h =
      omega (arith, above (suc (pos_part c.end_index)) cs i t.3 (omega arith))

  -- A chunk ends before each later one begins.
  pub before_later :
      (s : ℕ) (cs : List (Chunk V)) (i j : ℕ)
      → IsTiled s cs
      → i < j
      → j < length cs
      → last_row cs i < first_row cs j
  before_later s [] i j t h k = absurd (omega arith)
  before_later s (c ∷ cs) i zero t h k = absurd (omega arith)
  before_later s (c ∷ cs) zero (suc j) t h k =
      omega (arith, above (suc (pos_part c.end_index)) cs j t.3 (omega arith))
  before_later s (c ∷ cs) (suc i) (suc j) t h k =
      before_later (suc (pos_part c.end_index)) cs i j t.3 (omega arith) (omega arith)

  -- For a window of rows that is not empty the three tests of the source come to two.
  abbrev pub touches : List (Chunk V) → ℕ → ℕ → ℕ → Bool
  touches cs a b i = leb (first_row cs i) b && leb a (last_row cs i)

  pub overlaps_iff :
      (c : Chunk V) (a b lo hi : ℕ)
      → a ≤ b
      → lo ≤ hi
      → c.start_index ≡ lo
      → c.end_index ≡ pos hi
      → overlaps_with_window c (pos a) (pos b) ≡ (leb lo b && leb a hi)
  unfolding overlaps_with_window
  overlaps_iff c a b lo hi w r l h = ground arith

  pub overlaps_at-touches :
      (s : ℕ) (cs : List (Chunk V)) (a b i : ℕ)
      → IsTiled s cs
      → a ≤ b
      → i < length cs
      → overlaps_at cs (pos a) (pos b) i ≡ some (touches cs a b i)
  unfolding overlaps_at
  overlaps_at-touches s cs a b i t w h =
      let (c, (e, lo, hi, r)) = chunk-At s cs i t h in
      rw (e, overlaps_at) (ap some (overlaps_iff c a b (first_row cs i) (last_row cs i) w r lo hi))
