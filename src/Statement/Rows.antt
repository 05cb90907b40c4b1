-- ===== src/Statement/Rows.antt =====
-- buildBindsMap of lib/connection/statement.js turns rows of binds into columns.
use snowflake_connector_node.Prelude.{
  ℕ, zero, suc, ◌+◌, ◌<◌, ◌≤◌, true, none, some, ◌≡◌, refl, subst, ◌∙◌, arith, NatMap, map_empty,
  map_set, Bool-cases, inl, inr, ◌⊎◌, if◌then◌else◌, ltb,
}
use snowflake_connector_node.Prelude.Value.{
  Value, Values, nil, cons, array, is_array, length_of, element,
}
use snowflake_connector_node.Statement.Types.{Runtime}
use snowflake_connector_node.Statement.Binds.{
  Bind, type_of_value, convert, read, push_front, column, is_array_binding, bind_value, fill,
  elements_of, single_array, build_binds_map,
}

-- Every value is an array.
abbrev pub AreRows : Values → Type 0
AreRows nil = Unit
AreRows (cons v vs) = (is_array v ≡ true) × AreRows vs

-- A column of the rows, as it should be.
unfoldable pub transposed : Runtime → ℕ → Values → Values
transposed rt index nil = nil
transposed rt index (cons row rows) =
    cons (convert rt (element (elements_of row) index)) (transposed rt index rows)

pub element-transposed :
    (rt : Runtime) (index r : ℕ) (rows : Values)
    → r < length_of rows
    → element (transposed rt index rows) r
      ≡ convert rt (element (elements_of (element rows r)) index)
unfolding transposed
element-transposed rt index r nil h = ground arith
element-transposed rt index zero (cons row rows) h = refl
element-transposed rt index (suc r) (cons row rows) h =
    element-transposed rt index r rows (omega (arith, h))

read-row :
    (rt : Runtime) (index : ℕ) (row : Value)
    → is_array row ≡ true
    → read rt row index ≡ some (element (elements_of row) index)
unfolding read is_array
read-row rt index row h = ground arith

column-transposed :
    (rt : Runtime) (index : ℕ) (rows : Values)
    → AreRows rows
    → column rt index rows ≡ some (transposed rt index rows)
unfolding column transposed push_front
column-transposed rt index nil h = refl
column-transposed rt index (cons row rows) (h, hs) =
    ground (arith, read-row rt index row h, column-transposed rt index rows hs)

abbrev bind_of : (ℕ → Value → Value) → ℕ → Value → Bind
bind_of value_of index v = record { bind_type = type_of_value v; value = value_of index v }

-- The loop, where the value of every bind variable is found.
module _ (rt : Runtime) (binds : Values) (value_of : ℕ → Value → Value) where
  entry :
      (index : ℕ) (v : Value) (vs : Values) (n : NatMap Bind)
      → n (suc index) ≡ some (bind_of value_of index v)
      → ((j : ℕ)
          → j < length_of vs
          → n (suc (suc index + j)) ≡ some (bind_of value_of (suc index + j) (element vs j)))
      → (j : ℕ) → j < suc (length_of vs)
      → n (suc (index + j)) ≡ some (bind_of value_of (index + j) (element (cons v vs) j))
  entry index v vs n first found zero h =
      subst (λ k. n (suc k) ≡ some (bind_of value_of k v)) (omega arith) first
  entry index v vs n first found (suc j) h =
      subst (λ k. n (suc k) ≡ some (bind_of value_of k (element vs j))) (omega arith)
        (found j (omega (arith, h)))

  fill-found :
      ((index : ℕ) (v : Value) → bind_value rt binds index v ≡ some (value_of index v))
      → (index : ℕ) (vs : Values) (m : NatMap Bind)
      → (n : NatMap Bind) × (fill rt binds index vs m ≡ some n)
        × ((j : ℕ)
            → j < length_of vs
            → n (suc (index + j)) ≡ some (bind_of value_of (index + j) (element vs j)))
        × ((j : ℕ) → (j ≤ index) ⊎ (index + length_of vs < j) → n j ≡ m j)
  unfolding fill
  fill-found value index nil m = (m, refl, λ j h. absurd (omega (arith, h)), λ j h. refl)
  fill-found value index (cons v vs) m =
      let b = bind_of value_of index v in
      let (n, e, found, others) = fill-found value (suc index) vs (map_set (suc index) b m) in
      (
        n,
        rw (value index v, fill) e,
        entry index v vs n (others (suc index) (inl (omega arith)) ∙ ground arith) found,
        λ j h. others j (ground (arith, h)) ∙ ground (arith, h),
      )

-- The value of a bind variable, by its column.
unfoldable pub column_value : Runtime → Values → ℕ → Value → Value
column_value rt binds index v = array (transposed rt index binds)

bind_value-column :
    (rt : Runtime) (binds : Values) (index : ℕ) (v : Value)
    → is_array_binding binds ≡ true
    → AreRows binds
    → bind_value rt binds index v ≡ some (column_value rt binds index v)
unfolding bind_value column_value
bind_value-column rt binds index v h rows = ground (arith, h, column-transposed rt index binds rows)

-- The bind at a place of the first row.
unfoldable pub bind_at : Runtime → Values → Values → ℕ → Bind
unfolding transposed
bind_at rt first rows j = record {
  bind_type = type_of_value (element first j);
  value = array (transposed rt j (cons (array first) rows));
}

map-at :
    (rt : Runtime) (first rows : Values) (n : NatMap Bind)
    → ((j : ℕ)
        → j < length_of first
        → n (suc (0 + j))
          ≡ some (bind_of (column_value rt (cons (array first) rows)) (0 + j) (element first j)))
    → ((j : ℕ) → (j ≤ 0) ⊎ (0 + length_of first < j) → n j ≡ none)
    → (j : ℕ)
    → n (suc j) ≡ (if ltb j (length_of first) then some (bind_at rt first rows j) else none)
unfolding column_value bind_at
map-at rt first rows n found others j = elim (Bool-cases (ltb j (length_of first))) [
  | inl e ↦ rw e (
      subst
        (λ i.
          n (suc i)
          ≡ some (record {
            bind_type = type_of_value (element first j);
            value = array (transposed rt i (cons (array first) rows));
          }))
        (omega arith) (found j (ground arith)))
  | inr e ↦ rw e (others (suc j) (inr (ground arith)))
]

-- Binds that are rows become one bind for each place in the first row, with keys from 1 on, and no
-- others: its type is that of the first row's value, and its value is the array of the converted
-- values that all rows have at this place.
pub build_binds_map-transposed :
    (rt : Runtime) (first rows : Values)
    → AreRows rows
    → (m : NatMap Bind) × (build_binds_map rt (cons (array first) rows) ≡ some m)
      × (m 0 ≡ none)
      × ((j : ℕ)
          → m (suc j) ≡ (if ltb j (length_of first) then some (bind_at rt first rows j) else none))
unfolding build_binds_map single_array is_array_binding is_array
build_binds_map-transposed rt first rows h =
    let binds = cons (array first) rows in
    let (n, e, found, others) =
      fill-found rt binds (column_value rt binds)
        (λ index v. bind_value-column rt binds index v refl (refl, h)) 0 first map_empty in
    (n, e, others 0 (inl (omega arith)), map-at rt first rows n found others)
