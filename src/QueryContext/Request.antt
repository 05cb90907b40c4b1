-- ===== src/QueryContext/Request.antt =====
-- getQueryContextDTO of lib/queryContextCache.js: the entries that a request carries.
use snowflake_connector_node.Prelude.{
  ℕ, ◌≤◌, ◌≡◌, ◌≢◌, refl, inl, inr, List, [], ◌∷◌, map, length, arith, All, ap, suc,
}
use snowflake_connector_node.QueryContext.{Cache, get_size, get_elements}
use snowflake_connector_node.QueryContext.Order.{Elem, Distinct, IsSorted, All-tabulate, All-elem}
use snowflake_connector_node.QueryContext.Valid.{IsValid, priority_of}
use snowflake_connector_node.QueryContext.Wire.{Payload, DtoEntry, dto_entry, get_query_context_dto}
use snowflake_connector_node.QueryContext.Received.{run, run-bounded}

-- Priorities do not fall along the list, and no identifier stands twice.
abbrev pub IsOrdered : List DtoEntry → Type 0
IsOrdered [] = Unit
IsOrdered (x ∷ xs) =
    All (λ y. x.priority ≤ y.priority) xs × All (λ y. x.id ≢ y.id) xs × IsOrdered xs

All-map {ℓ κ} :
    {A : Type ℓ} {B : Type κ} (P : B → Type 0) (f : A → B) (xs : List A)
    → All (λ x. P (f x)) xs
    → All P (map f xs)
All-map P f [] h = tt
All-map P f (x ∷ xs) h = (h.0, All-map P f xs h.1)

map-map :
    (c : Cache) (xs : List ℕ)
    → map dto_entry (map c.objects xs) ≡ map (λ r. dto_entry (c.objects r)) xs
map-map c [] = refl
map-map c (x ∷ xs) = ap (◌∷◌ (dto_entry (c.objects x))) (map-map c xs)

length-map {ℓ κ} :
    {A : Type ℓ} {B : Type κ} (f : A → B) (xs : List A) → length (map f xs) ≡ length xs
length-map f [] = refl
length-map f (x ∷ xs) = ap suc (length-map f xs)

module _ (c : Cache) (v : IsValid c) where
  same_id :
      (r s : ℕ)
      → Elem r c.tree_set
      → Elem s c.tree_set
      → (c.objects r).id ≡ (c.objects s).id
      → r ≡ s
  same_id r s m n e = ground (arith, v.indexed r m, v.indexed s n)

  abbrev entry : ℕ → DtoEntry
  entry r = dto_entry (c.objects r)

  members-IsOrdered :
      (xs : List ℕ)
      → ((r : ℕ) → Elem r xs → Elem r c.tree_set)
      → Distinct xs
      → IsSorted (priority_of c) xs
      → IsOrdered (map entry xs)
  unfolding dto_entry
  members-IsOrdered [] sub d s = tt
  members-IsOrdered (x ∷ xs) sub d s = (
    All-map (λ y. (c.objects x).priority ≤ y.priority) entry xs s.0,
    All-map (λ y. (c.objects x).id ≢ y.id) entry xs
        (All-tabulate (λ r. (c.objects x).id ≢ (c.objects r).id) xs
          (λ r m e.
            All-elem (λ y. x ≢ y) r xs d.0 m (same_id x r (sub x (inl refl)) (sub r (inr m)) e))),
    members-IsOrdered xs (λ r m. sub r (inr m)) d.1 s.1,
  )

  dto-IsOrdered : IsOrdered (get_query_context_dto c)
  unfolding get_query_context_dto
  dto-IsOrdered =
      rw (map-map c c.tree_set) (members-IsOrdered c.tree_set (λ r m. m) v.distinct v.sorted)

-- After any responses of the server, the entries of the next request are at most as many as the
-- capacity, stand in the order of their priorities, and carry different identifiers.
pub dto-run :
    (capacity : ℕ) (ds : List Payload)
    → (length (get_query_context_dto (run capacity ds)) ≤ capacity)
      × IsOrdered (get_query_context_dto (run capacity ds))
dto-run capacity ds =
    let (v, e, h) = run-bounded capacity ds in
    let c = run capacity ds in
    (
      unfold get_query_context_dto get_size in
          omega (arith, h, length-map dto_entry (get_elements c), length-map c.objects c.tree_set),
      dto-IsOrdered c v,
    )
