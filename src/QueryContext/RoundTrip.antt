-- ===== src/QueryContext/RoundTrip.antt =====
-- getSerializeQueryContext followed by deserializeQueryContext, of lib/queryContextCache.js.
use mathlib.Core.List.{append_assoc, append-nil}
use snowflake_connector_node.Prelude.{
  ℕ, ◌≤◌, ◌<◌, ◌≡◌, ◌≢◌, refl, inl, inr, none, some, List, [], ◌∷◌, ◌++◌, map, All, arith, ap, sym,
  subst, ◌∙◌, take, if◌then◌else◌, str_eq, Bool-cases, Option-cases,
}
use snowflake_connector_node.QueryContext.{
  Element, Cache, new_cache, add_qce, allocate, receive, get_elements,
}
use snowflake_connector_node.QueryContext.Order.{
  Elem, Distinct, IsSorted, All-append, sort_by-sorted,
}
use snowflake_connector_node.QueryContext.Members.{set_add_fresh}
use snowflake_connector_node.QueryContext.Valid.{
  IsValid, priority_of, old_object, allocate-IsValid, allocate-IsFresh, receive-IsValid,
  new_cache-IsValid,
}
use snowflake_connector_node.QueryContext.Keyed.{IsKeyed}
use snowflake_connector_node.QueryContext.Capacity.{check_cache_capacity-keeps_smallest}
use snowflake_connector_node.QueryContext.Received.{capacity-receive}
use snowflake_connector_node.QueryContext.Wire.{
  parsed, Outcome, finished, deserialize_element, serialize_entry, merge_entries,
  deserialize_query_context, get_serialize_query_context,
}

-- An empty context is sent as `null`.
abbrev pub normalised : Element → Element
normalised e = record e {
  context = elim e.context [ none ↦ none | some s ↦ if str_eq s "" then none else some s ];
}

-- Each element stands before those of larger priority, and identifiers differ.
abbrev Before : Element → Element → Type 0
Before x y = (x.priority < y.priority) × (x.id ≢ y.id)

abbrev Rising : List Element → Type 0
Rising [] = Unit
Rising (x ∷ xs) = All (Before x) xs × Rising xs

Rising-split :
    (xs ys : List Element) (e : Element) → Rising (xs ++ e ∷ ys) → All (λ x. Before x e) xs
Rising-split [] ys e h = tt
Rising-split (x ∷ xs) ys e h = (append_head (Before x) xs ys e h.0, Rising-split xs ys e h.1)
  where
    append_head :
        (P : Element → Type 0) (xs ys : List Element) (e : Element) → All P (xs ++ e ∷ ys) → P e
    append_head P [] ys e h = h.0
    append_head P (x ∷ xs) ys e h = append_head P xs ys e h.1

All-of-map :
    (P : Element → Type 0) (f : ℕ → Element) (r : ℕ) (xs : List ℕ)
    → All P (map f xs)
    → Elem r xs
    → P (f r)
All-of-map P f r [] h m = absurd m
All-of-map P f r (x ∷ xs) h (inl e) = subst (λ z. P (f z)) (sym e) h.0
All-of-map P f r (x ∷ xs) h (inr m) = All-of-map P f r xs h.1 m

IsSorted-append :
    (key : ℕ → ℕ) (x : ℕ) (xs : List ℕ)
    → IsSorted key xs
    → ((r : ℕ) → Elem r xs → key r ≤ key x)
    → IsSorted key (xs ++ x ∷ [])
IsSorted-append key x [] s h = (tt, tt)
IsSorted-append key x (y ∷ ys) s h = (
  All-append (λ z. key y ≤ key z) ys (x ∷ []) s.0 (h y (inl refl), tt),
  IsSorted-append key x ys s.1 (λ r m. h r (inr m)),
)

map-same :
    (f g : ℕ → Element) (xs : List ℕ) → ((r : ℕ) → Elem r xs → f r ≡ g r) → map f xs ≡ map g xs
map-same f g [] h = refl
map-same f g (x ∷ xs) h =
    ap (λ z. z ∷ map f xs) (h x (inl refl)) ∙ ap (◌∷◌ (g x)) (map-same f g xs (λ r m. h r (inr m)))

map-snoc : (f : ℕ → Element) (xs : List ℕ) (x : ℕ) → map f (xs ++ x ∷ []) ≡ map f xs ++ f x ∷ []
map-snoc f [] x = refl
map-snoc f (y ∷ ys) x = ap (◌∷◌ (f y)) (map-snoc f ys x)

module _ (c : Cache) (e : Element) (v : IsValid c)
    (h : All (λ x. Before x e) (get_elements c)) where
  before : (r : ℕ) → Elem r c.tree_set → Before (c.objects r) e
  unfolding get_elements
  before r m = All-of-map (λ x. Before x e) c.objects r c.tree_set h m

  new_id : c.id_map e.id ≡ none
  new_id = elim (Option-cases (c.id_map e.id)) [
    | inl p ↦ p
    | inr (r, p) ↦ let (m, i) = v.id_listed e.id r p in absurd ((before r m).1 i)
  ]

  new_priority : c.priority_map e.priority ≡ none
  new_priority = elim (Option-cases (c.priority_map e.priority)) [
    | inl p ↦ p
    | inr (r, p) ↦
        let (m, i) = v.priority_listed e.priority r p in absurd (omega (arith, (before r m).0))
  ]

  receive-add : receive c e ≡ add_qce (allocate c e) c.allocated
  unfolding receive allocate
  receive-add = ground (arith, new_id, new_priority)

  old_objects : (r : ℕ) → Elem r c.tree_set → (allocate c e).objects r ≡ c.objects r
  old_objects = old_object c e v

  new_object : (allocate c e).objects c.allocated ≡ e
  unfolding allocate
  new_object = ground arith

  key_rises :
      (r : ℕ)
      → Elem r c.tree_set
      → priority_of (allocate c e) r ≤ priority_of (allocate c e) c.allocated
  key_rises r m = omega (
    arith,
    ap (λ (x : Element). x.priority) (old_objects r m),
    ap (λ (x : Element). x.priority) new_object,
    (before r m).0,
  )

  tree-add : (add_qce (allocate c e) c.allocated).tree_set ≡ c.tree_set ++ c.allocated ∷ []
  unfolding add_qce allocate
  tree-add = rw (set_add_fresh c.allocated c.tree_set (allocate-IsFresh c e v).0) (
      sort_by-sorted (priority_of (allocate c e)) (c.tree_set ++ c.allocated ∷ []) (
        IsSorted-append (priority_of (allocate c e)) c.allocated c.tree_set
          (allocate-IsValid c e v).sorted key_rises))

  objects-add : (add_qce (allocate c e) c.allocated).objects ≡ (allocate c e).objects
  unfolding add_qce
  objects-add = refl

  -- An element of a new identifier and a larger priority goes to the end.
  receive-append : get_elements (receive c e) ≡ get_elements c ++ e ∷ []
  unfolding get_elements
  receive-append =
      rw (receive-add, tree-add, objects-add)
        (map-snoc (allocate c e).objects c.tree_set c.allocated
          ∙ ap (λ l. l ++ (allocate c e).objects c.allocated ∷ [])
              (map-same (allocate c e).objects c.objects c.tree_set old_objects)
          ∙ ap (λ x. map c.objects c.tree_set ++ x ∷ []) new_object)

parse-serialize : (e : Element) → deserialize_element (serialize_entry e) ≡ parsed (normalised e)
unfolding deserialize_element serialize_entry
parse-serialize e = elim (Option-cases e.context) [
  | inl h ↦ ground arith
  | inr (s, h) ↦ elim (Bool-cases (str_eq s "")) [ inl b ↦ ground arith | inr b ↦ ground arith ]
]

-- What holds after entries that arrive in the order of their priorities.
abbrev Appended : Cache → List Element → Outcome → Type 0
Appended c es o =
    (d : Cache) × (o ≡ finished d)
    × IsValid d
    × (d.capacity ≡ c.capacity)
    × (get_elements d ≡ get_elements c ++ es)

merge_entries-Appended :
    (c : Cache) (es : List Element)
    → IsValid c
    → Rising (get_elements c ++ map normalised es)
    → Appended c (map normalised es) (merge_entries c (map serialize_entry es))
unfolding merge_entries
merge_entries-Appended c [] v rising = (c, refl, v, refl, sym (append-nil (get_elements c)))
merge_entries-Appended c (e ∷ es) v rising =
    let last = Rising-split (get_elements c) (map normalised es) (normalised e) rising in
    let grown = receive-append c (normalised e) v last in
    let next : List Element = get_elements c ++ normalised e ∷ map normalised es in
    let regroup = append_assoc (get_elements c) (normalised e ∷ []) (map normalised es) in
    let (d, o, w, cap, all) =
      merge_entries-Appended (receive c (normalised e)) es (receive-IsValid c (normalised e) v)
        (rw (grown, regroup) rising) in
    rw (parse-serialize e, merge_entries)
      (d, o, w, cap ∙ capacity-receive c (normalised e), all ∙ rw (grown, regroup) refl)

members-Rising :
    (c : Cache) (xs : List ℕ)
    → IsValid c
    → IsKeyed c
    → ((r : ℕ) → Elem r xs → Elem r c.tree_set)
    → Distinct xs
    → IsSorted (priority_of c) xs
    → Rising (map normalised (map c.objects xs))
members-Rising c [] v k sub d s = tt
members-Rising c (x ∷ xs) v k sub d s = (
  later xs (λ r m. sub r (inr m)) d.0 s.0,
  members-Rising c xs v k (λ r m. sub r (inr m)) d.1 s.1,
)
  where
    differs :
        (r : ℕ)
        → Elem r c.tree_set
        → x ≢ r
        → priority_of c x ≤ priority_of c r
        → Before (normalised (c.objects x)) (normalised (c.objects r))
    differs r m ne le =
        let here = sub x (inl refl) in
        ground (arith, v.indexed x here, v.indexed r m, k x here, k r m)

    later :
        (ys : List ℕ)
        → ((r : ℕ) → Elem r ys → Elem r c.tree_set)
        → All (λ y. x ≢ y) ys
        → All (λ y. priority_of c x ≤ priority_of c y) ys
        → All (Before (normalised (c.objects x))) (map normalised (map c.objects ys))
    later [] sub d s = tt
    later (y ∷ ys) sub d s =
        (differs y (sub y (inl refl)) d.0 s.0, later ys (λ r m. sub r (inr m)) d.1 s.1)

-- A cache whose priorities all differ, serialised and read back by a new cache of capacity `n`,
-- gives its first `n` elements in the same order, each as it was but for an empty context.
pub deserialize-serialize :
    (c : Cache) (n : ℕ)
    → IsValid c
    → IsKeyed c
    → get_elements (deserialize_query_context (new_cache n) (get_serialize_query_context c))
      ≡ take n (map normalised (get_elements c))
unfolding deserialize_query_context get_serialize_query_context
deserialize-serialize c n v k =
    let rising = members-Rising c c.tree_set v k (λ r m. m) v.distinct v.sorted in
    let empty : get_elements (new_cache n) ≡ [] = unfold get_elements new_cache in refl in
    let (d, o, w, cap, all) =
      merge_entries-Appended (new_cache n) (get_elements c) (new_cache-IsValid n)
        (rw empty (unfold get_elements in rising)) in
    rw o (
      (check_cache_capacity-keeps_smallest d w).1 ∙ rw (cap, all, empty) (unfold new_cache in refl))
