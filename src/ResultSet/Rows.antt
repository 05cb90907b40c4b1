-- ===== src/ResultSet/Rows.antt =====
-- The rows that RowStream and fetchRows take from each chunk (lib/connection/result/row_stream.js,
-- lib/connection/result/result.js), against the rows of the whole result.
use snowflake_connector_node.Prelude.{
  ℕ, zero, suc, ◌+◌, ◌-◌, ◌≤◌, ◌<◌, ◌≡◌, refl, inl, inr, ◌⊎◌, some, List, [], ◌∷◌, ◌++◌, length,
  take, drop, min, max, arith, Bool-cases, ap, sym, ◌∙◌, length-take, leb, ◌&&◌,
}
use snowflake_connector_node.Prelude.Int.{pos, pos_part}
use snowflake_connector_node.ResultSet.Chunk.{Chunk}
use snowflake_connector_node.ResultSet.Tiling.{IsTiled, overlaps_iff}
use snowflake_connector_node.ResultSet.Overlap.{selected, rows_end, find_overlapping-selected}
use snowflake_connector_node.ResultSet.Window.{find_overlapping_chunks}

-- Array.prototype.slice at indices that are not negative.
unfoldable pub slice {ℓ} : {A : Type ℓ} → ℕ → ℕ → List A → List A
slice i j xs = drop i (take j xs)

-- The rows of a chunk, `rows`, that lie in the window from `a` to `b`.
unfoldable pub rows_in_window : {V R : Type 0} → ℕ → ℕ → Chunk V → List R → List R
unfolding slice
rows_in_window a b c rows =
    let first = c.start_index in
    let last = pos_part c.end_index in slice (max first a - first) (min last b + 1 - first) rows

drop-nil : {R : Type 0} (n : ℕ) → drop {A = R} n [] ≡ []
drop-nil zero = refl
drop-nil (suc n) = refl

take-nil : {R : Type 0} (n : ℕ) → take {A = R} n [] ≡ []
take-nil zero = refl
take-nil (suc n) = refl

-- A slice of two lists joined is the slice of each, joined.
slice-append :
    {R : Type 0} (d e : ℕ) (xs ys : List R)
    → slice d e (xs ++ ys) ≡ slice d e xs ++ slice (d - length xs) (e - length xs) ys
unfolding slice
slice-append {R} d e [] ys = rw (take-nil {R = R} e, drop-nil {R = R} d) (ground arith)
slice-append {R} d zero (x ∷ xs) ys =
    rw (drop-nil {R = R} d) (ground (arith, drop-nil {R = R} (d - suc (length xs))))
slice-append zero (suc e) (x ∷ xs) ys = ground (arith, slice-append zero e xs ys)
slice-append (suc d) (suc e) (x ∷ xs) ys = ground (arith, slice-append d e xs ys)

take-max :
    {R : Type 0} (d d' : ℕ) (xs : List R) → length xs ≤ d → length xs ≤ d' → take d xs ≡ take d' xs
take-max d d' [] h k = take-nil d ∙ sym (take-nil d')
take-max zero d' (x ∷ xs) h k = absurd (omega arith)
take-max (suc d) zero (x ∷ xs) h k = absurd (omega arith)
take-max (suc d) (suc d') (x ∷ xs) h k = ap (◌∷◌ x) (take-max d d' xs (omega arith) (omega arith))

drop-all : {R : Type 0} (d : ℕ) (xs : List R) → length xs ≤ d → drop d xs ≡ []
drop-all d [] h = drop-nil d
drop-all zero (x ∷ xs) h = absurd (omega arith)
drop-all (suc d) (x ∷ xs) h = drop-all d xs (omega arith)

behind : (x n f l : ℕ) → n + f ≡ suc l → x - f - n ≡ x - suc l
behind x n f l h = omega arith

sub_zero : (n : ℕ) → n - 0 ≡ n
sub_zero n = omega arith

le_or : (i m : ℕ) → (i ≤ m) ⊎ (m < i)
le_or i m = omega arith

module _ {V R : Type 0} (rows : Chunk V → List R) where
  -- Each chunk has its rows.
  abbrev pub IsFilled : List (Chunk V) → Type 0
  IsFilled [] = Unit
  IsFilled (c ∷ cs) = (length (rows c) + c.start_index ≡ suc (pos_part c.end_index)) × IsFilled cs

  abbrev pub all_rows : List (Chunk V) → List R
  all_rows [] = []
  all_rows (c ∷ cs) = rows c ++ all_rows cs

  -- What a stream of the chunks hands on.
  abbrev pub streamed : ℕ → ℕ → List (Chunk V) → List R
  streamed a b [] = []
  streamed a b (c ∷ cs) = rows_in_window a b c (rows c) ++ streamed a b cs

  module _ (a b : ℕ) (w : a ≤ b) where
    from_max : (n : ℕ) → max n a - n ≡ a - n
    from_max n = omega arith

    to_min : (n m : ℕ) → b < m → min m b + 1 - n ≡ suc b - n
    to_min n m h = omega arith

    -- The source's bounds give the slice that the window makes of the chunk.
    rows_in_window-slice :
        (c : Chunk V)
        → length (rows c) + c.start_index ≡ suc (pos_part c.end_index)
        → c.start_index ≤ pos_part c.end_index
        → rows_in_window a b c (rows c) ≡ slice (a - c.start_index) (suc b - c.start_index) (rows c)
    unfolding rows_in_window
    rows_in_window-slice c n o =
        ap (λ z. drop z (take (min (pos_part c.end_index) b + 1 - c.start_index) (rows c)))
          (from_max c.start_index)
        ∙ ap (drop (a - c.start_index)) (elim (le_or (pos_part c.end_index) b) [
          | inl h ↦
              take-max (min (pos_part c.end_index) b + 1 - c.start_index) (suc b - c.start_index)
                (rows c) (omega arith) (omega arith)
          | inr h ↦ ap (λ z. take z (rows c)) (to_min c.start_index (pos_part c.end_index) h)
        ])

    no_more : (n : ℕ) → b < n → suc b - n ≡ 0
    no_more n h = omega arith

    outside :
        (c : Chunk V)
        → length (rows c) + c.start_index ≡ suc (pos_part c.end_index)
        → (b < c.start_index) ⊎ (pos_part c.end_index < a)
        → slice (a - c.start_index) (suc b - c.start_index) (rows c) ≡ []
    unfolding slice
    outside c n (inl h) =
        ap (λ z. drop (a - c.start_index) (take z (rows c))) (no_more c.start_index h)
        ∙ drop-nil (a - c.start_index)
    outside c n (inr h) =
        drop-all (a - c.start_index) (take (suc b - c.start_index) (rows c))
          (omega (arith, length-take (suc b - c.start_index) (rows c)))

    -- The window of a chunk and of the chunks behind it.
    both :
        (s : ℕ) (c : Chunk V) (cs : List (Chunk V))
        → IsTiled s (c ∷ cs)
        → IsFilled (c ∷ cs)
        → slice (a - s) (suc b - s) (all_rows (c ∷ cs))
          ≡ slice (a - c.start_index) (suc b - c.start_index) (rows c)
            ++ slice
                (a - suc (pos_part c.end_index))
                (suc b - suc (pos_part c.end_index))
                (all_rows cs)
    both s c cs t f = rw (sym t.0) (
        slice-append (a - c.start_index) (suc b - c.start_index) (rows c) (all_rows cs)
        ∙ ap (λ z. slice (a - c.start_index) (suc b - c.start_index) (rows c) ++ z)
            (ap (λ z. slice z (suc b - c.start_index - length (rows c)) (all_rows cs))
                (behind a (length (rows c)) c.start_index (pos_part c.end_index) f.0)
              ∙ ap (λ z. slice (a - suc (pos_part c.end_index)) z (all_rows cs))
                  (behind (suc b) (length (rows c)) c.start_index (pos_part c.end_index) f.0)))

    streamed-from :
        (s : ℕ) (cs : List (Chunk V))
        → IsTiled s cs
        → IsFilled cs
        → streamed a b (selected cs (pos a) (pos b)) ≡ slice (a - s) (suc b - s) (all_rows cs)
    unfolding selected
    streamed-from s [] t f =
        unfold slice in sym (ap (drop (a - s)) (take-nil {R = R} (suc b - s)) ∙ drop-nil (a - s))
    streamed-from s (c ∷ cs) t f =
        let rest = streamed-from (suc (pos_part c.end_index)) cs t.3 f.1 in
        let test =
          overlaps_iff c a b c.start_index (pos_part c.end_index) w (omega arith) refl t.1 in
        elim (Bool-cases (leb c.start_index b && leb a (pos_part c.end_index))) [
          | inl hit ↦
              rw (test, hit)
                (ap (λ z. z ++ streamed a b (selected cs (pos a) (pos b)))
                    (rows_in_window-slice c f.0 (omega arith))
                  ∙ ap (◌++◌ (slice (a - c.start_index) (suc b - c.start_index) (rows c))) rest
                  ∙ sym (both s c cs t f))
          | inr miss ↦
              rw (test, miss)
                (rest
                  ∙ ap
                      (λ z.
                        z
                        ++ slice (a - suc (pos_part c.end_index))
                            (suc b - suc (pos_part c.end_index)) (all_rows cs))
                      (sym (outside c f.0 (ground arith)))
                  ∙ sym (both s c cs t f))
        ]

    -- For rows `a` to `b`, with `a` in the result, of chunks that lie one behind the other from
    -- row 0 on, each holding its rows: findOverlappingChunks gives chunks, and the rows that a
    -- stream takes from them are the rows `a` to `b` of the result (up to its end), in order.
    pub streamed-window :
        (cs : List (Chunk V))
        → IsTiled 0 cs
        → IsFilled cs
        → a < rows_end 0 cs
        → (found : List (Chunk V)) × (find_overlapping_chunks cs (pos a) (pos b) ≡ some found)
          × (streamed a b found ≡ slice a (suc b) (all_rows cs))
    streamed-window cs t f h = (
      selected cs (pos a) (pos b),
      find_overlapping-selected a b w cs t h,
      streamed-from 0 cs t f
          ∙ ap (λ z. slice z (suc b - 0) (all_rows cs)) (sub_zero a)
          ∙ ap (λ z. slice a z (all_rows cs)) (sub_zero (suc b)),
    )
