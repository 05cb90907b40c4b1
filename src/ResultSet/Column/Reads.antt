-- ===== src/ResultSet/Column/Reads.antt =====
-- What the reads of a row give, in any order (extractFromRow of lib/connection/result/column.js).
use snowflake_connector_node.Prelude.{
  ℕ, Bool, true, false, ◌&&◌, Option, none, some, ◌==◌, ==_iff, List, [], ◌∷◌, ◌≡◌, refl, sym, ap,
  ◌∙◌, subst, Bool-cases, inl, inr, ◌⊎◌, arith,
}
use snowflake_connector_node.ResultSet.Stream.{put}
use snowflake_connector_node.ResultSet.Column.{
  Cell, null_cell, raw, converted, RowValues, Context, Extracted, extracted, as_it_is, throws,
  extract_fn, put_back, externalized, process, extract_by, extract_from_row, after_reads,
}

put-same : {A : Type 0} (i : ℕ) (x : A) (f : ℕ → A) → put i x f i ≡ x
unfolding put
put-same i x f = ground arith

module _ {R P : Type 0} where
  -- A cell with the raw value, and one with what it is converted to.
  unfoldable pub raw_cell : Option R → Cell R P
  raw_cell none = null_cell
  raw_cell (some r) = raw r

module _ {R P O : Type 0} (ctx : ℕ → Context R P O) where
  -- What is read of a value that was converted, where that did not throw.
  unfoldable pub read_of : Bool → ℕ → Option P → Extracted R P O
  read_of as_string i none = throws
  read_of as_string i (some p) = extracted (extract_fn (ctx i) as_string (some p))

  -- What is read of a raw value: null, or the value converted, by the extraction function.
  unfoldable pub expected : Bool → ℕ → Option R → Extracted R P O
  unfolding read_of
  expected as_string i none = extracted (extract_fn (ctx i) as_string none)
  expected as_string i (some r) = read_of as_string i ((ctx i).convert r)

module _ {R P O : Type 0} (ctx : ℕ → Context R P O) (raws : ℕ → Option R) where
  -- The row as it arrived.
  unfoldable pub arrived : RowValues R P
  arrived = record { values = λ i. raw_cell (raws i); processed = λ i. false }

  -- A cell that is processed holds null or the converted value.
  unfoldable pub IsProcessed : ℕ → Option R → Cell R P → Type 0
  IsProcessed i none c = c ≡ null_cell
  IsProcessed i (some r) c = (p : P) × ((ctx i).convert r ≡ some p) × (c ≡ converted p)

  abbrev pub IsConsistent : RowValues R P → Type 0
  IsConsistent row =
      (i : ℕ)
      → ((row.processed i ≡ false) × (row.values i ≡ raw_cell (raws i)))
        ⊎ ((row.processed i ≡ true) × IsProcessed i (raws i) (row.values i))

  externalized-expected :
      (as_string : Bool) (i : ℕ) (r : Option R) (c : Cell R P)
      → IsProcessed i r c
      → externalized (ctx i) as_string c ≡ expected ctx as_string i r
  unfolding IsProcessed externalized expected read_of
  externalized-expected as_string i none c h = ap (externalized (ctx i) as_string) h
  externalized-expected as_string i (some r) c (p, e, h) =
      ap (externalized (ctx i) as_string) h ∙ ap (read_of ctx as_string i) (sym e)

  put_back-read_of :
      (as_string : Bool) (i : ℕ) (p : Option P) (row : RowValues R P)
      → (put_back (ctx i) as_string i p row).result ≡ read_of ctx as_string i p
  unfolding put_back read_of externalized
  put_back-read_of as_string i none row = refl
  put_back-read_of as_string i (some p) row = refl

  process-expected :
      (as_string : Bool) (i : ℕ) (r : Option R) (row : RowValues R P)
      → (process (ctx i) as_string i (raw_cell r) row).result ≡ expected ctx as_string i r
  unfolding process raw_cell expected externalized
  process-expected as_string i none row = refl
  process-expected as_string i (some r) row = put_back-read_of as_string i ((ctx i).convert r) row

  -- The cell at an index is processed, and the others stay.
  put-IsConsistent :
      (i : ℕ) (c : Cell R P) (row : RowValues R P)
      → IsProcessed i (raws i) c
      → IsConsistent row
      → IsConsistent (record { values = put i c row.values; processed = put i true row.processed })
  unfolding put
  put-IsConsistent i c row h hs j = elim (Bool-cases (i == j)) [
    | inl e ↦
        subst
          (λ k.
            ((put i true row.processed k ≡ false) × (put i c row.values k ≡ raw_cell (raws k)))
            ⊎ ((put i true row.processed k ≡ true) × IsProcessed k (raws k) (put i c row.values k)))
          ((==_iff i j).0 e)
          (inr (
            put-same i true row.processed,
            subst (IsProcessed i (raws i)) (sym (put-same i c row.values)) h,
          ))
    | inr e ↦ rw e (hs j)
  ]

  put_back-IsConsistent :
      (as_string : Bool) (i : ℕ) (r : R) (p : Option P) (row : RowValues R P)
      → raws i ≡ some r
      → (ctx i).convert r ≡ p
      → IsConsistent row
      → IsConsistent (put_back (ctx i) as_string i p row).row
  unfolding put_back IsProcessed
  put_back-IsConsistent as_string i r none row e k h = h
  put_back-IsConsistent as_string i r (some p) row e k h =
      put-IsConsistent i (converted p) row
        (subst (λ x. IsProcessed i x (converted p)) (sym e) (p, k, refl)) h

  null-IsConsistent :
      (i : ℕ) (row : RowValues R P)
      → raws i ≡ none
      → row.values i ≡ null_cell
      → IsConsistent row
      → IsConsistent (record row { processed = put i true row.processed })
  unfolding IsProcessed put
  null-IsConsistent i row e k hs j = elim (Bool-cases (i == j)) [
    | inl same ↦
        subst
          (λ x.
            ((put i true row.processed x ≡ false) × (row.values x ≡ raw_cell (raws x)))
            ⊎ ((put i true row.processed x ≡ true) × IsProcessed x (raws x) (row.values x)))
          ((==_iff i j).0 same)
          (inr
            (put-same i true row.processed, subst (λ x. IsProcessed i x (row.values i)) (sym e) k))
    | inr other ↦ rw other (hs j)
  ]

  process-IsConsistent :
      (as_string : Bool) (i : ℕ) (r : Option R) (row : RowValues R P)
      → raws i ≡ r
      → row.values i ≡ raw_cell r
      → IsConsistent row
      → IsConsistent (process (ctx i) as_string i (raw_cell r) row).row
  unfolding process raw_cell IsProcessed
  process-IsConsistent as_string i (some r) row e k h =
      put_back-IsConsistent as_string i r ((ctx i).convert r) row e refl h
  process-IsConsistent as_string i none row e k h = null-IsConsistent i row e k h

  unread :
      (i : ℕ) (row : RowValues R P)
      → IsConsistent row
      → row.processed i ≡ false
      → row.values i ≡ raw_cell (raws i)
  unread i row h e = elim (h i) [ inl (_, k) ↦ k | inr (k, _) ↦ absurd (grind (arith, e, k)) ]

  was_read :
      (i : ℕ) (row : RowValues R P)
      → IsConsistent row
      → row.processed i ≡ true
      → IsProcessed i (raws i) (row.values i)
  was_read i row h e = elim (h i) [ inl (k, _) ↦ absurd (grind (arith, e, k)) | inr (_, k) ↦ k ]

  pub extract_by-IsConsistent :
      (was variant : Bool) (as_string : Bool) (i : ℕ) (row : RowValues R P)
      → row.processed i ≡ was
      → IsConsistent row
      → IsConsistent (extract_by was variant (ctx i) as_string i row).row
  unfolding extract_by
  extract_by-IsConsistent true variant as_string i row e h = h
  extract_by-IsConsistent false true as_string i row e h = h
  extract_by-IsConsistent false false as_string i row e h =
      let k = unread i row h e in
      subst (λ c. IsConsistent (process (ctx i) as_string i c row).row) (sym k)
        (process-IsConsistent as_string i (raws i) row refl k h)

  pub extract_by-expected :
      (was variant : Bool) (as_string : Bool) (i : ℕ) (row : RowValues R P)
      → row.processed i ≡ was
      → IsConsistent row
      → ((extract_by was variant (ctx i) as_string i row).result
          ≡ expected ctx as_string i (raws i))
        ⊎ ((variant ≡ true)
            × ((extract_by was variant (ctx i) as_string i row).result
                ≡ as_it_is (raw_cell (raws i))))
  unfolding extract_by
  extract_by-expected true variant as_string i row e h =
      inl (externalized-expected as_string i (raws i) (row.values i) (was_read i row h e))
  extract_by-expected false true as_string i row e h = inr (refl, ap as_it_is (unread i row h e))
  extract_by-expected false false as_string i row e h = inl (
      ap (λ c. (process (ctx i) as_string i c row).result) (unread i row h e)
      ∙ process-expected as_string i (raws i) row)

  after_reads-IsConsistent :
      (reads : List (ℕ × Bool)) (row : RowValues R P)
      → IsConsistent row
      → IsConsistent (after_reads ctx reads row)
  unfolding after_reads extract_from_row
  after_reads-IsConsistent [] row h = h
  after_reads-IsConsistent ((i, as_string) ∷ reads) row h =
      after_reads-IsConsistent reads (extract_from_row (ctx i) as_string i row).row (
        extract_by-IsConsistent (row.processed i) (as_string && (ctx i).is_variant) as_string i row
          refl h)

  pub arrived-IsConsistent : IsConsistent arrived
  unfolding arrived
  arrived-IsConsistent i = inl (refl, refl)

-- Whatever columns of a row were read before, in whatever order and way, a read gives what the
-- extraction function of its column makes of null or of the converted raw value of the row, or the
-- error of the conversion; but the string of a variant may be the raw value.
pub reads-expected :
    {R P O : Type 0} (ctx : ℕ → Context R P O) (raws : ℕ → Option R) (reads : List (ℕ × Bool))
    (as_string : Bool) (i : ℕ)
    → ((extract_from_row (ctx i) as_string i (after_reads ctx reads (arrived ctx raws))).result
        ≡ expected ctx as_string i (raws i))
      ⊎ (((as_string && (ctx i).is_variant) ≡ true)
          × ((extract_from_row
                (ctx i)
                as_string
                i
                (after_reads ctx reads (arrived ctx raws))).result
              ≡ as_it_is (raw_cell (raws i))))
unfolding extract_from_row
reads-expected ctx raws reads as_string i =
    let row = after_reads ctx reads (arrived ctx raws) in
    extract_by-expected ctx raws (row.processed i) (as_string && (ctx i).is_variant) as_string i row
      refl
      (after_reads-IsConsistent ctx raws reads (arrived ctx raws) (arrived-IsConsistent ctx raws))
