-- ===== src/QueryContext/Capacity.antt =====
-- checkCacheCapacity of lib/queryContextCache.js: which elements are left.
use snowflake_connector_node.Prelude.{
  ℕ, zero, suc, ◌-◌, ◌≤◌, ◌<◌, ◌≡◌, refl, inl, inr, List, [], ◌∷◌, map, take, length, length-take,
  arith, Bool-cases, ltb, ap, sym, ◌∙◌,
}
use snowflake_connector_node.QueryContext.{
  Cache, last_of, remove_qce, pop_last, shrink, check_cache_capacity, get_size, get_elements,
}
use snowflake_connector_node.QueryContext.Members.{Elem-last, delete-last}
use snowflake_connector_node.QueryContext.Valid.{IsValid, remove_qce-IsValid}

take-take {ℓ} : {A : Type ℓ} (m n : ℕ) (xs : List A) → m ≤ n → take m (take n xs) ≡ take m xs
take-take zero n xs h = refl
take-take (suc m) zero xs h = absurd (omega arith)
take-take (suc m) (suc n) [] h = refl
take-take (suc m) (suc n) (x ∷ xs) h = ap (◌∷◌ x) (take-take m n xs (omega arith))

take-all {ℓ} : {A : Type ℓ} (n : ℕ) (xs : List A) → length xs ≤ n → take n xs ≡ xs
take-all zero [] h = refl
take-all zero (x ∷ xs) h = absurd (omega arith)
take-all (suc n) [] h = refl
take-all (suc n) (x ∷ xs) h = ap (◌∷◌ x) (take-all n xs (omega arith))

map-take {ℓ κ} :
    {A : Type ℓ} {B : Type κ} (f : A → B) (n : ℕ) (xs : List A)
    → map f (take n xs) ≡ take n (map f xs)
map-take f zero xs = refl
map-take f (suc n) [] = refl
map-take f (suc n) (x ∷ xs) = ap (◌∷◌ (f x)) (map-take f n xs)

less_one : (n : ℕ) → n ≡ suc n - 1
less_one n = omega arith

-- One round of the loop, on a set that is not empty.
abbrev Round : Cache → Cache → Type 0
Round c d =
    IsValid d
    × (d.capacity ≡ c.capacity)
    × (d.objects ≡ c.objects)
    × (d.tree_set ≡ take (length c.tree_set - 1) c.tree_set)

popped :
    (c : Cache) (xs : List ℕ) → c.tree_set ≡ xs → 0 < length xs → IsValid c → Round c (pop_last c)
unfolding pop_last
popped c [] e h v = elim h [ ]
popped c (x ∷ xs) e h v =
    rw (e, pop_last)
      (
        remove_qce-IsValid c (last_of x xs) v (rw e (Elem-last x xs)),
        unfold remove_qce in refl,
        unfold remove_qce in refl,
        unfold remove_qce in
            rw e (
              delete-last x xs (rw e at v.distinct)
              ∙ ap (λ n. take n (x ∷ xs)) (less_one (length xs))),
      )

abbrev Shrunk : Cache → Cache → Type 0
Shrunk c d =
    IsValid d
    × (d.capacity ≡ c.capacity)
    × (d.objects ≡ c.objects)
    × (d.tree_set ≡ take c.capacity c.tree_set)

after-Round : (c p d : Cache) → c.capacity < length c.tree_set → Round c p → Shrunk p d → Shrunk c d
after-Round c p d over (v, cap, objects, tree) (v', cap', objects', tree') = (
  v',
  cap' ∙ cap,
  objects' ∙ objects,
  tree' ∙ rw (cap, tree) (take-take c.capacity (length c.tree_set - 1) c.tree_set (omega arith)),
)

shrink-Shrunk :
    (fuel : ℕ) (c : Cache) → length c.tree_set ≤ fuel → IsValid c → Shrunk c (shrink fuel c)
unfolding shrink
shrink-Shrunk zero c h v = (v, refl, refl, sym (take-all c.capacity c.tree_set (omega arith)))
shrink-Shrunk (suc fuel) c h v = elim (Bool-cases (ltb c.capacity (length c.tree_set))) [
  | inr fits ↦ rw fits (v, refl, refl, sym (take-all c.capacity c.tree_set (ground arith)))
  | inl over ↦
      let round : Round c (pop_last c) = popped c c.tree_set refl (ground arith) v in
      rw over (
        after-Round c (pop_last c) (shrink fuel (pop_last c)) (ground arith) round (
          shrink-Shrunk fuel (pop_last c)
            (omega
              (arith, ap (length {A = ℕ}) round.3, length-take (length c.tree_set - 1) c.tree_set))
            round.0))
]

-- After `checkCacheCapacity` the cache is valid, and it holds the first `capacity` elements of the
-- order by priority, or all if there are no more: the loop evicts the largest priorities.
pub check_cache_capacity-keeps_smallest :
    (c : Cache)
    → IsValid c
    → IsValid (check_cache_capacity c)
      × (get_elements (check_cache_capacity c) ≡ take c.capacity (get_elements c))
unfolding check_cache_capacity get_elements
check_cache_capacity-keeps_smallest c v =
    let (valid, cap, objects, tree) = shrink-Shrunk (length c.tree_set) c (omega arith) v in
    (valid, rw (objects, tree) (map-take c.objects c.capacity c.tree_set))

pub size-check : (c : Cache) → IsValid c → get_size (check_cache_capacity c) ≤ c.capacity
unfolding check_cache_capacity get_size
size-check c v =
    let (valid, cap, objects, tree) = shrink-Shrunk (length c.tree_set) c (omega arith) v in
    omega (arith, ap (length {A = ℕ}) tree, length-take c.capacity c.tree_set)

pub capacity-check : (c : Cache) → IsValid c → (check_cache_capacity c).capacity ≡ c.capacity
unfolding check_cache_capacity
capacity-check c v = (shrink-Shrunk (length c.tree_set) c (omega arith) v).1
