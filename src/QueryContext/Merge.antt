-- ===== src/QueryContext/Merge.antt =====
-- What `merge` of lib/queryContextCache.js does to the cache as a table of elements by identifier.
use snowflake_connector_node.Prelude.{
  ℕ, ◌<◌, ◌≤◌, ◌≡◌, inl, inr, Bool, true, false, not, ◌&&◌, Option, none, some, arith, ltb, ◌==◌,
  if◌then◌else◌, Option-cases,
}
use snowflake_connector_node.QueryContext.{Element, Cache, allocate, receive}
use snowflake_connector_node.QueryContext.Valid.{IsValid}

-- The element with a given identifier.
abbrev pub find : Cache → ℕ → Option Element
find c i = elim (c.id_map i) [ none ↦ none | some r ↦ some (c.objects r) ]

-- The identifier of the element that the priority map holds.
abbrev pub holder : Cache → ℕ → Option ℕ
holder c p = elim (c.priority_map p) [ none ↦ none | some r ↦ some (c.objects r).id ]

-- Which of two elements of one identifier stays.
unfoldable pub freshest : Option Element → Element → Element
freshest none new = new
freshest (some old) new =
    if ltb old.timestamp new.timestamp
    then new
    else if new.timestamp == old.timestamp && not (old.priority == new.priority)
    then new
    else old

abbrev pub is_at : Option ℕ → ℕ → Bool
is_at none j = false
is_at (some i) j = i == j

abbrev pub is_none {ℓ} : {A : Type ℓ} → Option A → Bool
is_none none = true
is_none (some a) = false

-- The table after the merge: one entry changes, and a new identifier drives out the element that
-- the priority map holds at its priority.
unfoldable pub merged : Cache → Element → ℕ → Option Element
unfolding freshest
merged c e j =
    if e.id == j
    then some (freshest (find c e.id) e)
    else if is_none (find c e.id) && is_at (holder c e.priority) j
    then none
    else find c j

module _ (c : Cache) (e : Element) (v : IsValid c) where
  known : (j r : ℕ) → c.id_map j ≡ some r → (r < c.allocated) × ((c.objects r).id ≡ j)
  known j r h = let (m, i) = v.id_listed j r h in (v.within r m, i)

  held :
      (p r : ℕ)
      → c.priority_map p ≡ some r
      → (r < c.allocated) × ((c.objects r).priority ≡ p) × (c.id_map (c.objects r).id ≡ some r)
  held p r h = let (m, i) = v.priority_listed p r h in (v.within r m, i, v.indexed r m)

  stays : (j r : ℕ) → c.id_map j ≡ some r → (allocate c e).objects r ≡ c.objects r
  unfolding allocate
  stays j r h = ground (arith, known j r h)

  pub find-receive_known :
      (j old : ℕ) → c.id_map e.id ≡ some old → find (receive c e) j ≡ merged c e j
  unfolding receive merged
  find-receive_known j old h = elim (Option-cases (c.id_map j)) [
    | inl g ↦ ground (arith, known e.id old h)
    | inr (r, g) ↦ ground (arith, known e.id old h, known j r g)
  ]

  find-receive_new :
      (j : ℕ)
      → c.id_map e.id ≡ none
      → c.priority_map e.priority ≡ none
      → find (receive c e) j ≡ merged c e j
  unfolding receive merged
  find-receive_new j h p = elim (Option-cases (c.id_map j)) [
    | inl g ↦ ground arith
    | inr (r, g) ↦ ground (arith, known j r g)
  ]

  find-receive_displacing :
      (j old : ℕ)
      → c.id_map e.id ≡ none
      → c.priority_map e.priority ≡ some old
      → find (receive c e) j ≡ merged c e j
  unfolding receive merged
  find-receive_displacing j old h p = elim (Option-cases (c.id_map j)) [
    | inl g ↦ ground (arith, held e.priority old p)
    | inr (r, g) ↦ ground (arith, held e.priority old p, known j r g)
  ]

  -- An element that arrives at a valid cache changes the table of elements by identifier as
  -- `merged` says, at every identifier.
  pub find-receive : (j : ℕ) → find (receive c e) j ≡ merged c e j
  find-receive j = elim (Option-cases (c.id_map e.id)) [
    | inr (old, h) ↦ find-receive_known j old h
    | inl h ↦ elim (Option-cases (c.priority_map e.priority)) [
      | inl p ↦ find-receive_new j h p
      | inr (old, p) ↦ find-receive_displacing j old h p
    ]
  ]

-- A merge never takes an element back to an older timestamp: what the cache holds of the identifier
-- that arrives is at least as recent as what arrived, and as what the cache held before.
pub timestamp-receive :
    (c : Cache) (e : Element)
    → IsValid c
    → (x : Element) × (find (receive c e) e.id ≡ some x)
      × (e.timestamp ≤ x.timestamp)
      × ((old : Element) → find c e.id ≡ some old → old.timestamp ≤ x.timestamp)
unfolding merged
timestamp-receive c e v = (
  freshest (find c e.id) e,
  ground (arith, find-receive c e v e.id),
  unfold freshest in ground arith,
  λ old h. unfold freshest in ground arith,
)
