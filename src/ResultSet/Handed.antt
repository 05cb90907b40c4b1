-- ===== src/ResultSet/Handed.antt =====
-- What externalizeRow of lib/connection/result/row_stream.js hands out in the row mode `array`.
use snowflake_connector_node.Prelude.{
  ℕ, zero, suc, ◌+◌, ◌<◌, String, Bool, true, false, ◌&&◌, ◌≡◌, refl, sym, ap, ◌∙◌, subst, ◌⊎◌, inl,
  inr, Option, none, some, some-injective, List, [], ◌∷◌, length, get_elem?, arith,
}
use snowflake_connector_node.ResultSet.Stream.{put}
use snowflake_connector_node.ResultSet.Column.{
  Context, Extracted, extracted, as_it_is, throws, RowValues, extract_from_row,
}
use snowflake_connector_node.ResultSet.Column.Reads.{
  arrived, expected, raw_cell, IsConsistent, extract_by-IsConsistent, extract_by-expected,
  arrived-IsConsistent,
}
use snowflake_connector_node.ResultSet.External.{
  SqlType, is_read_as_string, extract_fn_names, build_map_column_extract_fn_names, and_rest,
  column_values, externalize_row, array_row,
}

put-same : (i : ℕ) (x : Bool) (f : ℕ → Bool) → put i x f i ≡ x
unfolding put
put-same i x f = ground arith

extract_fn_names-outside :
    (as_string : SqlType → Bool) (k : ℕ) (ts : List SqlType) (m : ℕ → Bool) (i : ℕ)
    → i < k
    → extract_fn_names as_string k ts m i ≡ m i
unfolding extract_fn_names put
extract_fn_names-outside as_string k [] m i h = refl
extract_fn_names-outside as_string k (t ∷ ts) m i h =
    extract_fn_names-outside as_string (suc k) ts (put k (as_string t) m) i (omega (arith, h))
    ∙ ground (arith, h)

extract_fn_names-inside :
    (as_string : SqlType → Bool) (k : ℕ) (ts : List SqlType) (m : ℕ → Bool) (j : ℕ) {t : SqlType}
    → get_elem? ts j ≡ some t
    → extract_fn_names as_string k ts m (k + j) ≡ as_string t
unfolding extract_fn_names put
extract_fn_names-inside as_string k [] m j h = absurd (grind (arith, h))
extract_fn_names-inside as_string k (u ∷ ts) m zero {t} h =
    ap (λ i. extract_fn_names as_string k (u ∷ ts) m i) (omega arith)
    ∙ extract_fn_names-outside as_string (suc k) ts (put k (as_string u) m) k (omega arith)
    ∙ put-same k (as_string u) m
    ∙ ap as_string (some-injective u t h)
extract_fn_names-inside as_string k (u ∷ ts) m (suc j) {t} h =
    ap (λ i. extract_fn_names as_string k (u ∷ ts) m i) (omega arith)
    ∙ extract_fn_names-inside as_string (suc k) ts (put k (as_string u) m) j h

module _ {R P O : Type 0} (ctx : ℕ → Context R P O) (raws : ℕ → Option R)
    (as_string : SqlType → Bool) where
  -- What the column at an index, of a type, reads of its raw value.
  abbrev pub IsRead : ℕ → SqlType → Extracted R P O → Type 0
  IsRead i t x =
      (x ≡ expected ctx (as_string t) i (raws i))
      ⊎ (((as_string t && (ctx i).is_variant) ≡ true) × (x ≡ as_it_is (raw_cell (raws i))))

  -- A value for each column from the one at an index on.
  unfoldable pub AreRead : ℕ → List SqlType → List (Extracted R P O) → Type 0
  AreRead i [] [] = Unit
  AreRead i [] (x ∷ xs) = ⊥
  AreRead i (t ∷ ts) [] = ⊥
  AreRead i (t ∷ ts) (x ∷ xs) = IsRead i t x × AreRead (suc i) ts xs

  -- A column from the one at an index on whose conversion throws.
  unfoldable pub SomeThrows : ℕ → List SqlType → Type 0
  SomeThrows i [] = ⊥
  SomeThrows i (t ∷ ts) = (expected ctx (as_string t) i (raws i) ≡ throws) ⊎ SomeThrows (suc i) ts

  abbrev IsHanded : ℕ → List SqlType → Option (List (Extracted R P O)) → Type 0
  IsHanded i ts out =
      ((xs : List (Extracted R P O)) × (out ≡ some xs) × AreRead i ts xs)
      ⊎ ((out ≡ none) × SomeThrows i ts)

  and_rest-IsHanded :
      (i : ℕ) (t : SqlType) (ts : List SqlType) (x : Extracted R P O)
      (rest : Option (List (Extracted R P O)))
      → IsRead i t x
      → IsHanded (suc i) ts rest
      → IsHanded i (t ∷ ts) (and_rest x rest)
  unfolding and_rest AreRead SomeThrows
  and_rest-IsHanded i t ts throws rest (inl h) hs = inr (refl, inl (sym h))
  and_rest-IsHanded i t ts throws rest (inr (v, h)) hs = absurd (grind (arith, h))
  and_rest-IsHanded i t ts (extracted o) rest h (inl (xs, e, hs)) =
      inl (extracted o ∷ xs, ap (λ r. and_rest (extracted o) r) e, (h, hs))
  and_rest-IsHanded i t ts (extracted o) rest h (inr (e, hs)) =
      inr (ap (λ r. and_rest (extracted o) r) e, inr hs)
  and_rest-IsHanded i t ts (as_it_is c) rest h (inl (xs, e, hs)) =
      inl (as_it_is c ∷ xs, ap (λ r. and_rest (as_it_is c) r) e, (h, hs))
  and_rest-IsHanded i t ts (as_it_is c) rest h (inr (e, hs)) =
      inr (ap (λ r. and_rest (as_it_is c) r) e, inr hs)

  column_values-IsHanded :
      (names : ℕ → Bool) (i : ℕ) (ts : List SqlType) (row : RowValues R P)
      → ((j : ℕ) (t : SqlType) → get_elem? ts j ≡ some t → names (i + j) ≡ as_string t)
      → IsConsistent ctx raws row
      → IsHanded i ts (column_values ctx names i (length ts) row)
  unfolding column_values AreRead extract_from_row
  column_values-IsHanded names i [] row h c = inl ([], refl, tt)
  column_values-IsHanded names i (t ∷ ts) row h c =
      let variant = names i && (ctx i).is_variant in
      let r = extract_from_row (ctx i) (names i) i row in
      let name : names i ≡ as_string t = ap names (omega arith) ∙ h 0 t refl in
      let read : IsRead i t r.result =
        subst
          (λ b.
            (r.result ≡ expected ctx b i (raws i))
            ⊎ (((b && (ctx i).is_variant) ≡ true) × (r.result ≡ as_it_is (raw_cell (raws i)))))
          name (extract_by-expected ctx raws (row.processed i) variant (names i) i row refl c) in
      and_rest-IsHanded i t ts r.result (column_values ctx names (suc i) (length ts) r.row) read (
        column_values-IsHanded names (suc i) ts r.row
          (λ j u e. ap names (omega arith) ∙ h (suc j) u e)
          (extract_by-IsConsistent ctx raws (row.processed i) variant (names i) i row refl c))

-- In the row mode `array` a row that arrived is handed out as an array with a value for each column:
-- what the column makes of its raw value, as a string where the upper case of an entry of
-- fetchAsString is the name of the column's native type, and as a value otherwise; the string of a
-- variant may be the raw value. It throws only where the conversion of some column throws.
pub externalize_row-array :
    {R P O : Type 0} (ctx : ℕ → Context R P O) (raws : ℕ → Option R) (upper : String → String)
    (fetch_as_string : Option (List String)) (types : List SqlType) (column_names : List String)
    → ((xs : List (Extracted R P O)) × (externalize_row true column_names ctx
            (build_map_column_extract_fn_names upper types fetch_as_string)
            (length types)
            (arrived ctx raws)
          ≡ some (array_row xs))
        × AreRead ctx raws (is_read_as_string upper fetch_as_string) 0 types xs)
      ⊎ ((externalize_row true column_names ctx
              (build_map_column_extract_fn_names upper types fetch_as_string)
              (length types)
              (arrived ctx raws)
            ≡ none)
          × SomeThrows ctx raws (is_read_as_string upper fetch_as_string) 0 types)
unfolding externalize_row build_map_column_extract_fn_names
externalize_row-array ctx raws upper fetch_as_string types column_names =
    let as_string = is_read_as_string upper fetch_as_string in
    let names = build_map_column_extract_fn_names upper types fetch_as_string in
    elim (column_values-IsHanded ctx raws as_string names 0 types (arrived ctx raws)
      (λ j t e. extract_fn_names-inside as_string 0 types (λ i. false) j e)
      (arrived-IsConsistent ctx raws)) [
        | inl (xs, e, h) ↦ inl (xs, rw e refl, h)
        | inr (e, h) ↦ inr (rw e refl, h)
      ]
