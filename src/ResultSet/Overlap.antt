-- ===== src/ResultSet/Overlap.antt =====
-- findOverlappingChunks of lib/connection/result/result.js gives the chunks of a window, all of them.
use mathlib.Core.Bool.{false≢true}
use snowflake_connector_node.Prelude.{
  ℕ, zero, suc, ◌+◌, ◌-◌, ◌/◌, ◌≤◌, ◌<◌, ◌≡◌, ◌⊎◌, refl, inl, inr, true, false, Option, none, some,
  List, [], ◌∷◌, length, drop, arith, if◌then◌else◌, ap, sym, ◌∙◌,
}
use snowflake_connector_node.Prelude.Int.{ℤ, pos, negsuc, pos_part}
use snowflake_connector_node.ResultSet.Chunk.{Chunk, overlaps_with_window}
use snowflake_connector_node.ResultSet.Window.{
  Found, missing, at, overlaps_at, search, collect, collect_from, find_first_overlapping_chunk,
  find_overlapping_chunks, ◌>>=◌, streaming, window_start, window_end, open_row_stream,
}
use snowflake_connector_node.ResultSet.Tiling.{IsTiled, last_row, touches, overlaps_iff, chunk-At}
use snowflake_connector_node.ResultSet.Search.{FirstHit, find_first-FirstHit}

le_or_past : (a e : ℕ) → (a ≤ e) ⊎ (suc e ≤ a)
le_or_past a e = omega arith

module _ {V : Type 0} where
  -- The number of rows up to the end of the chunks.
  abbrev pub rows_end : ℕ → List (Chunk V) → ℕ
  rows_end s [] = s
  rows_end s (c ∷ cs) = rows_end (suc (pos_part c.end_index)) cs

  -- Every chunk that overlaps, in order.
  unfoldable pub selected : List (Chunk V) → ℤ → ℤ → List (Chunk V)
  selected [] start end = []
  selected (c ∷ cs) start end =
      let rest = selected cs start end in
      if overlaps_with_window c start end then c ∷ rest else rest

module _ {V : Type 0} (a b : ℕ) (w : a ≤ b) where
  overlaps_head :
      (s : ℕ) (c : Chunk V) (cs : List (Chunk V))
      → IsTiled s (c ∷ cs)
      → overlaps_with_window c (pos a) (pos b) ≡ touches (c ∷ cs) a b 0
  overlaps_head s c cs t =
      overlaps_iff c a b c.start_index (pos_part c.end_index) w (omega arith) refl t.1

  selected-behind :
      (s : ℕ) (cs : List (Chunk V)) → IsTiled s cs → b < s → selected cs (pos a) (pos b) ≡ []
  unfolding selected
  selected-behind s [] t h = refl
  selected-behind s (c ∷ cs) t h =
      ground (arith, overlaps_head s c cs t, selected-behind (suc (pos_part c.end_index)) cs t.3)

  -- Behind the start of the window the chunks that overlap come first.
  collect-selected :
      (s : ℕ) (cs : List (Chunk V))
      → IsTiled s cs
      → a ≤ s
      → collect cs (pos a) (pos b) ≡ selected cs (pos a) (pos b)
  unfolding collect selected
  collect-selected s [] t h = refl
  collect-selected s (c ∷ cs) t h = ground (
    arith,
    overlaps_head s c cs t,
    collect-selected (suc (pos_part c.end_index)) cs t.3,
    selected-behind (suc (pos_part c.end_index)) cs t.3,
  )

  -- So too where the first chunk overlaps.
  collect-hit :
      (s : ℕ) (cs : List (Chunk V))
      → IsTiled s cs
      → touches cs a b 0 ≡ true
      → collect cs (pos a) (pos b) ≡ selected cs (pos a) (pos b)
  unfolding collect selected
  collect-hit s [] t h = refl
  collect-hit s (c ∷ cs) t h =
      ground (arith, overlaps_head s c cs t, collect-selected (suc (pos_part c.end_index)) cs t.3)

  -- Nothing before the first chunk of the window counts.
  collect_from_hit :
      (s : ℕ) (cs : List (Chunk V)) (i : ℕ)
      → IsTiled s cs
      → ((j : ℕ) → j < i → touches cs a b j ≡ false)
      → touches cs a b i ≡ true
      → collect (drop i cs) (pos a) (pos b) ≡ selected cs (pos a) (pos b)
  collect_from_hit s cs zero t before h = collect-hit s cs t h
  collect_from_hit s [] (suc i) t before h = unfold collect selected in refl
  collect_from_hit s (c ∷ cs) (suc i) t before h =
      collect_from_hit (suc (pos_part c.end_index)) cs i t.3 (λ j k. before (suc j) (omega arith)) h
      ∙ unfold selected in rw (overlaps_head s c cs t, before 0 (omega arith))

  -- A row of the result lies in one of the chunks.
  covered :
      (s : ℕ) (cs : List (Chunk V))
      → IsTiled s cs
      → s ≤ a
      → a < rows_end s cs
      → (i : ℕ) × (i < length cs) × (touches cs a b i ≡ true)
  covered s [] t h k = absurd (omega arith)
  covered s (c ∷ cs) t h k = elim (le_or_past a (pos_part c.end_index)) [
    | inl le ↦ (0, omega arith, ground arith)
    | inr past ↦
        let (i, room, hit) = covered (suc (pos_part c.end_index)) cs t.3 past k in
        (suc i, omega arith, hit)
  ]

  selected-some :
      (s : ℕ) (cs : List (Chunk V)) (i : ℕ)
      → IsTiled s cs
      → i < length cs
      → touches cs a b i ≡ true
      → 0 < length (selected cs (pos a) (pos b))
  unfolding selected
  selected-some s [] i t h k = absurd (omega arith)
  selected-some s (c ∷ cs) zero t h k = ground (arith, overlaps_head s c cs t)
  selected-some s (c ∷ cs) (suc i) t h k =
      ground (arith, overlaps_head s c cs t, selected-some (suc (pos_part c.end_index)) cs i t.3)

  found-selected :
      (cs : List (Chunk V)) (t : IsTiled 0 cs) (o : Option Found)
      → a < rows_end 0 cs
      → FirstHit 0 cs t a b w 0 (length cs - 1) o
      → (o >>= collect_from cs (pos a) (pos b)) ≡ some (selected cs (pos a) (pos b))
  found-selected cs t none h p = absurd p
  found-selected cs t (some missing) h p =
      let (i, room, hit) = covered 0 cs t (omega arith) h in
      absurd (false≢true (sym (p i (omega arith) (omega arith)) ∙ hit))
  found-selected cs t (some (at i)) h (li, ir, hit, before) =
      unfold collect_from in
      ap some (collect_from_hit 0 cs i t (λ j k. before j (omega arith) k) hit)

  -- For rows `a` to `b` of a result whose chunks lie one behind the other, with `a` in the result,
  -- findOverlappingChunks gives the chunks that overlap, all of them in order, without a fault.
  pub find_overlapping-selected :
      (cs : List (Chunk V))
      → IsTiled 0 cs
      → a < rows_end 0 cs
      → find_overlapping_chunks cs (pos a) (pos b) ≡ some (selected cs (pos a) (pos b))
  unfolding find_overlapping_chunks
  find_overlapping-selected [] t h = absurd (omega arith)
  find_overlapping-selected (c ∷ cs) t h =
      found-selected (c ∷ cs) t (find_first_overlapping_chunk (c ∷ cs) (pos a) (pos b)) h
        (find_first-FirstHit 0 (c ∷ cs) t a b w (omega arith))

  pub open-streams :
      (cs : List (Chunk V)) (s e : Option ℤ)
      → IsTiled 0 cs
      → window_start s ≡ pos a
      → window_end (rows_end 0 cs) e ≡ pos b
      → b < rows_end 0 cs
      → open_row_stream cs (rows_end 0 cs) s e ≡ some (streaming (selected cs (pos a) (pos b)))
  unfolding open_row_stream
  open-streams cs s e t ws we h =
      let (i, room, hit) = covered 0 cs t (omega arith) (omega arith) in
      rw (ws, we, find_overlapping-selected cs t (omega arith))
        (ground (arith, selected-some 0 cs i t room hit))

-- Past the last chunk and below the first no chunk overlaps, so every look is a miss.
module _ {V : Type 0} (cs : List (Chunk V)) (start end : ℤ) where
  misses :
      (f l r : ℕ)
      → ((i : ℕ) → i < length cs → overlaps_at cs start end i ≡ some false)
      → l ≤ r
      → r < length cs
      → r - l < f
      → search cs start end f l r ≡ some missing
  unfolding search
  misses zero l r miss lr room fuel = absurd (omega arith)
  misses (suc f) l r miss lr room fuel = ground (
    arith,
    miss l,
    miss r,
    miss ((l + r) / 2),
    misses f l ((l + r) / 2) miss,
    misses f ((l + r) / 2) r miss,
  )

module _ {V : Type 0} where
  last-lt-end :
      (s : ℕ) (cs : List (Chunk V)) (i : ℕ)
      → IsTiled s cs
      → i < length cs
      → (last_row cs i < rows_end s cs) × (s ≤ rows_end s cs)
  last-lt-end s [] i t h = absurd (omega arith)
  last-lt-end s (c ∷ []) zero t h = (omega arith, omega arith)
  last-lt-end s (c ∷ d ∷ cs) zero t h =
      let (_, le) = last-lt-end (suc (pos_part c.end_index)) (d ∷ cs) 0 t.3 (omega arith) in
      (le, omega arith)
  last-lt-end s (c ∷ cs) (suc i) t h =
      let (lt, le) = last-lt-end (suc (pos_part c.end_index)) cs i t.3 (omega arith) in
      (lt, omega arith)

  never_at :
      (s : ℕ) (cs : List (Chunk V)) (a n i : ℕ)
      → IsTiled s cs
      → rows_end s cs ≤ a
      → i < length cs
      → overlaps_at cs (pos a) (negsuc n) i ≡ some false
  unfolding overlaps_at overlaps_with_window
  never_at s cs a n i t past room =
      let (c, (e, lo, hi, o)) = chunk-At s cs i t room in
      rw (e, overlaps_at) (ground (arith, last-lt-end s cs i t room))

-- Then the look-up itself throws.
find_overlapping-throws :
    {V : Type 0} (c : Chunk V) (cs : List (Chunk V)) (a n : ℕ)
    → IsTiled 0 (c ∷ cs)
    → rows_end 0 (c ∷ cs) ≤ a
    → find_overlapping_chunks (c ∷ cs) (pos a) (negsuc n) ≡ none
unfolding find_overlapping_chunks
find_overlapping-throws c cs a n t past =
    ap (λ o. o >>= collect_from (c ∷ cs) (pos a) (negsuc n))
      (misses (c ∷ cs) (pos a) (negsuc n) (length (c ∷ cs)) 0 (length (c ∷ cs) - 1)
        (λ i room. never_at 0 (c ∷ cs) a n i t past room) (omega arith) (omega arith) (omega arith))

start_pos : (a : ℕ) → window_start (some (pos a)) ≡ pos a
unfolding window_start
start_pos a = ground arith

end_negative : (r n : ℕ) → window_end r (some (negsuc n)) ≡ negsuc n
unfolding window_end
end_negative r n = ground arith

-- A row stream that is asked for rows from a start behind the last row up to a negative end throws:
-- init looks for chunks before it compares the bounds, and the loop begins at index -1.
pub open-throws :
    {V : Type 0} (c : Chunk V) (cs : List (Chunk V)) (returned_rows a n : ℕ)
    → IsTiled 0 (c ∷ cs)
    → rows_end 0 (c ∷ cs) ≤ a
    → open_row_stream (c ∷ cs) returned_rows (some (pos a)) (some (negsuc n)) ≡ none
unfolding open_row_stream
open-throws c cs returned_rows a n t past =
    rw (start_pos a, end_negative returned_rows n, find_overlapping-throws c cs a n t past)
