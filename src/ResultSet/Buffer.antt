-- ===== src/ResultSet/Buffer.antt =====
-- The row buffer of lib/connection/result/row_stream.js: processRowBuffer pushes rows until the
-- reader has enough of them.
use snowflake_connector_node.Prelude.{
  ℕ, zero, suc, ◌+◌, ◌<◌, ◌≤◌, ◌≡◌, List, [], ◌∷◌, ◌++◌, Bool, ◌==◌, Option, none, some, length,
  get_elem?, drop, refl, ap, subst, sym, ◌∙◌, if◌then◌else◌, arith, Bool-cases, inl, inr,
}

-- rowBuffer, where it is not null, and rowIndex.
pub record RowBuffer {ℓ} (A : Type ℓ) : Type ℓ where
  pub rows : List A
  pub row_index : ℕ

-- The rows that were pushed, and what is left.
pub record Pushed {ℓ} (A : Type ℓ) : Type ℓ where
  pub pushed : List A
  pub buffer : Option (RowBuffer A)

module _ {ℓ} {A : Type ℓ} where
  -- The buffer is dropped when its last row was read.
  unfoldable pub reset_at_end : RowBuffer A → Option (RowBuffer A)
  reset_at_end b = if b.row_index == length b.rows then none else some b

  -- The loop that pushes the rows from an index on, these being left. `accepts i` is what push()
  -- returns for the row at index i: whether the reader wants more.
  unfoldable pub push_rows : (ℕ → Bool) → List A → ℕ → List A → Pushed A
  unfolding reset_at_end
  push_rows accepts rows i [] = record {
    pushed = [];
    buffer = reset_at_end (record { rows = rows; row_index = i });
  }
  push_rows accepts rows i (row ∷ left) =
      let rest = push_rows accepts rows (suc i) left in
      if accepts i then record { pushed = row ∷ rest.pushed; buffer = rest.buffer } else record {
        pushed = row ∷ [];
        buffer = reset_at_end (record { rows = rows; row_index = suc i });
      }

  -- The row that was read, where the buffer was dropped. One outside the buffer is `none`, and
  -- nothing is pushed.
  unfoldable pub push_row : Option A → Pushed A
  push_row none = record { pushed = []; buffer = none }
  push_row (some row) = record { pushed = row ∷ []; buffer = none }

  -- The next tick of processRowBuffer, by the buffer that is left.
  unfoldable pub in_next_tick : (ℕ → Bool) → RowBuffer A → Option (RowBuffer A) → Pushed A
  unfolding push_row push_rows
  in_next_tick accepts b none = push_row (get_elem? b.rows b.row_index)
  in_next_tick accepts b (some c) = push_rows accepts b.rows b.row_index (drop b.row_index b.rows)

  -- processRowBuffer
  unfoldable pub process_row_buffer : (ℕ → Bool) → RowBuffer A → Pushed A
  unfolding in_next_tick reset_at_end
  process_row_buffer accepts b =
      in_next_tick accepts b (reset_at_end (record { rows = b.rows; row_index = suc b.row_index }))

  -- The rows that are still to come.
  unfoldable pub remaining : Option (RowBuffer A) → List A
  remaining none = []
  remaining (some b) = drop b.row_index b.rows

  -- A buffer that stands has a row to read.
  unfoldable pub IsReadable : Option (RowBuffer A) → Type 0
  IsReadable none = Unit
  IsReadable (some b) = b.row_index < length b.rows

  drop-all : (rows : List A) → drop (length rows) rows ≡ []
  drop-all [] = refl
  drop-all (row ∷ rows) = drop-all rows

  drop-suc :
      (i : ℕ) (rows : List A) {row : A} {left : List A}
      → drop i rows ≡ row ∷ left
      → drop (suc i) rows ≡ left
  drop-suc zero [] h = grind arith
  drop-suc (suc i) [] h = grind arith
  drop-suc zero (x ∷ rows) h = grind arith
  drop-suc (suc i) (x ∷ rows) h = drop-suc i rows h

  drop-length : (i : ℕ) (rows : List A) → i ≤ length rows → length (drop i rows) + i ≡ length rows
  drop-length zero rows h = omega arith
  drop-length (suc i) [] h = omega (arith, h)
  drop-length (suc i) (x ∷ rows) h = omega (arith, drop-length i rows (omega (arith, h)))

  get_elem?-drop :
      (i : ℕ) (rows : List A) {row : A} {left : List A}
      → drop i rows ≡ row ∷ left
      → get_elem? rows i ≡ some row
  get_elem?-drop zero [] h = grind arith
  get_elem?-drop (suc i) [] h = grind arith
  get_elem?-drop zero (x ∷ rows) h = grind arith
  get_elem?-drop (suc i) (x ∷ rows) h = get_elem?-drop i rows h

  remaining-reset_at_end : (b : RowBuffer A) → remaining (reset_at_end b) ≡ drop b.row_index b.rows
  unfolding remaining reset_at_end
  remaining-reset_at_end b = elim (Bool-cases (b.row_index == length b.rows)) [
    | inl e ↦ rw e (sym (ap (λ i. drop i b.rows) (ground arith) ∙ drop-all b.rows))
    | inr e ↦ rw e refl
  ]

  reset_at_end-IsReadable :
      (b : RowBuffer A) → b.row_index ≤ length b.rows → IsReadable (reset_at_end b)
  unfolding IsReadable reset_at_end
  reset_at_end-IsReadable b h = elim (Bool-cases (b.row_index == length b.rows)) [
    | inl e ↦ rw e tt
    | inr e ↦ rw e (ground arith)
  ]

  push_rows-remaining :
      (accepts : ℕ → Bool) (rows : List A) (i : ℕ) (left : List A)
      → drop i rows ≡ left
      → i ≤ length rows
      → ((push_rows accepts rows i left).pushed ++ remaining (push_rows accepts rows i left).buffer
          ≡ left)
        × IsReadable (push_rows accepts rows i left).buffer
  unfolding push_rows
  push_rows-remaining accepts rows i [] h b = (
    remaining-reset_at_end (record { rows = rows; row_index = i }) ∙ h,
    reset_at_end-IsReadable (record { rows = rows; row_index = i }) b,
  )
  push_rows-remaining accepts rows i (row ∷ left) h b =
      let inside : suc i ≤ length rows = omega (arith, drop-length i rows b, ap length h) in
      let next = drop-suc i rows h in
      let (rest, readable) = push_rows-remaining accepts rows (suc i) left next inside in
      elim (Bool-cases (accepts i)) [
        | inl e ↦ rw e (ap (◌∷◌ row) rest, readable)
        | inr e ↦ rw e (
          ap (◌∷◌ row) (remaining-reset_at_end (record { rows = rows; row_index = suc i }) ∙ next),
          reset_at_end-IsReadable (record { rows = rows; row_index = suc i }) inside,
        )
      ]

  drop-more :
      (i : ℕ) (rows : List A)
      → i < length rows
      → (row : A) × (left : List A) × (drop i rows ≡ row ∷ left)
  drop-more i [] h = ground arith
  drop-more zero (x ∷ rows) h = (x, rows, refl)
  drop-more (suc i) (x ∷ rows) h = drop-more i rows (omega (arith, h))

  push_rows-pushes :
      (accepts : ℕ → Bool) (rows : List A) (i : ℕ) (row : A) (left : List A)
      → 0 < length (push_rows accepts rows i (row ∷ left)).pushed
  unfolding push_rows
  push_rows-pushes accepts rows i row left = elim (Bool-cases (accepts i)) [
    | inl e ↦ rw e (omega arith)
    | inr e ↦ rw e (omega arith)
  ]

  -- Processing a buffer that has a row to read pushes at least one row; the rows pushed and those
  -- that remain are, in order, the rows from the index on; and a buffer that remains has a row to
  -- read.
  pub process_row_buffer-remaining :
      (accepts : ℕ → Bool) (b : RowBuffer A)
      → b.row_index < length b.rows
      → (0 < length (process_row_buffer accepts b).pushed)
        × ((process_row_buffer accepts b).pushed ++ remaining (process_row_buffer accepts b).buffer
            ≡ drop b.row_index b.rows)
        × IsReadable (process_row_buffer accepts b).buffer
  unfolding process_row_buffer in_next_tick push_row reset_at_end remaining IsReadable
  process_row_buffer-remaining accepts b h =
      let (row, left, e) = drop-more b.row_index b.rows h in
      let get = get_elem?-drop b.row_index b.rows e in
      elim (Bool-cases (suc b.row_index == length b.rows)) [
        | inl last ↦
            let at_end : suc b.row_index ≡ length b.rows = ground arith in
            let none_left : left ≡ [] =
              sym (drop-suc b.row_index b.rows e)
              ∙ ap (λ i. drop i b.rows) at_end
              ∙ drop-all b.rows in
            rw (last, get) (omega arith, sym (e ∙ ap (◌∷◌ row) none_left), tt)
        | inr more ↦
            let (all, readable) =
              push_rows-remaining accepts b.rows b.row_index (drop b.row_index b.rows) refl
                (omega (arith, h)) in
            rw more (
              subst (λ rows. 0 < length (push_rows accepts b.rows b.row_index rows).pushed) (sym e)
                  (push_rows-pushes accepts b.rows b.row_index row left),
              all,
              readable,
            )
      ]
