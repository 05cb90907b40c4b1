-- ===== src/QueryContext/Members.antt =====
-- Which references the `Set` of lib/queryContextCache.js holds after each of its operations.
use snowflake_connector_node.Prelude.{
  ℕ, ◌≡◌, ◌≢◌, ◌⊎◌, refl, inl, inr, List, [], ◌∷◌, ◌++◌, All, length, arith, false, sym, take,
}
use snowflake_connector_node.QueryContext.{
  set_has, set_add, set_delete, insert_by, sort_by, last_of,
}
use snowflake_connector_node.QueryContext.Order.{
  Elem, Distinct, All-elem, All-tabulate, All-sort, All-append,
}

pub Elem-of_delete : (r x : ℕ) (xs : List ℕ) → Elem r (set_delete x xs) → Elem r xs
unfolding set_delete
Elem-of_delete r x [] m = m
Elem-of_delete r x (y ∷ ys) m = ground (arith, Elem-of_delete r x ys)

pub Elem-delete : (r x : ℕ) (xs : List ℕ) → Elem r xs → r ≢ x → Elem r (set_delete x xs)
unfolding set_delete
Elem-delete r x [] m n = m
Elem-delete r x (y ∷ ys) m n = ground (arith, Elem-delete r x ys)

absent_of_All : (x : ℕ) (xs : List ℕ) → All (λ y. x ≢ y) xs → ¬ Elem x xs
absent_of_All x [] h m = m
absent_of_All x (y ∷ ys) h (inl e) = h.0 e
absent_of_All x (y ∷ ys) h (inr m) = absent_of_All x ys h.1 m

-- A reference is in the set once, so a deletion leaves none.
pub not-Elem_delete : (x : ℕ) (xs : List ℕ) → Distinct xs → ¬ Elem x (set_delete x xs)
unfolding set_delete
not-Elem_delete x [] d m = m
not-Elem_delete x (y ∷ ys) d m = ground (arith, not-Elem_delete x ys d.1, absent_of_All y ys d.0)

Elem-insert :
    (key : ℕ → ℕ) (r x : ℕ) (ys : List ℕ) → (r ≡ x) ⊎ Elem r ys → Elem r (insert_by key x ys)
unfolding insert_by
Elem-insert key r x [] m = m
Elem-insert key r x (y ∷ ys) m = ground (arith, Elem-insert key r x ys)

pub Elem-sort : (key : ℕ → ℕ) (r : ℕ) (xs : List ℕ) → Elem r xs → Elem r (sort_by key xs)
unfolding sort_by
Elem-sort key r [] m = m
Elem-sort key r (x ∷ xs) (inl e) = Elem-insert key r x (sort_by key xs) (inl e)
Elem-sort key r (x ∷ xs) (inr m) = Elem-insert key r x (sort_by key xs) (inr (Elem-sort key r xs m))

pub Elem-of_sort : (key : ℕ → ℕ) (r : ℕ) (xs : List ℕ) → Elem r (sort_by key xs) → Elem r xs
Elem-of_sort key r xs m =
    All-elem (λ y. Elem y xs) r (sort_by key xs)
      (All-sort (λ y. Elem y xs) key xs (All-tabulate (λ y. Elem y xs) xs (λ y h. h))) m

Elem-append : (r x : ℕ) (xs : List ℕ) → Elem r xs ⊎ (r ≡ x) → Elem r (xs ++ x ∷ [])
Elem-append r x [] m = ground arith
Elem-append r x (y ∷ ys) m = ground (arith, Elem-append r x ys)

Elem-of_append : (r x : ℕ) (xs : List ℕ) → Elem r (xs ++ x ∷ []) → Elem r xs ⊎ (r ≡ x)
Elem-of_append r x [] m = ground arith
Elem-of_append r x (y ∷ ys) m = ground (arith, Elem-of_append r x ys)

pub has_iff : (x : ℕ) (xs : List ℕ) → ¬ Elem x xs → set_has x xs ≡ false
unfolding set_has
has_iff x [] n = refl
has_iff x (y ∷ ys) n = ground (arith, has_iff x ys (λ m. n (inr m)))

pub set_add_fresh : (x : ℕ) (xs : List ℕ) → ¬ Elem x xs → set_add x xs ≡ xs ++ x ∷ []
unfolding set_add
set_add_fresh x xs n = ground (arith, has_iff x xs n)

pub Elem-add : (r x : ℕ) (xs : List ℕ) → ¬ Elem x xs → Elem r xs ⊎ (r ≡ x) → Elem r (set_add x xs)
Elem-add r x xs n m = rw (set_add_fresh x xs n) (Elem-append r x xs m)

pub Elem-of_add :
    (r x : ℕ) (xs : List ℕ) → ¬ Elem x xs → Elem r (set_add x xs) → Elem r xs ⊎ (r ≡ x)
Elem-of_add r x xs n m = Elem-of_append r x xs (rw (set_add_fresh x xs n) at m)

Distinct-append : (x : ℕ) (xs : List ℕ) → ¬ Elem x xs → Distinct xs → Distinct (xs ++ x ∷ [])
Distinct-append x [] n d = (tt, tt)
Distinct-append x (y ∷ ys) n d = (
  All-append (λ z. y ≢ z) ys (x ∷ []) d.0 ((λ e. n (inl (sym e))), tt),
  Distinct-append x ys (λ m. n (inr m)) d.1,
)

pub Distinct-add : (x : ℕ) (xs : List ℕ) → ¬ Elem x xs → Distinct xs → Distinct (set_add x xs)
Distinct-add x xs n d = rw (set_add_fresh x xs n) (Distinct-append x xs n d)

pub Elem-last : (x : ℕ) (xs : List ℕ) → Elem (last_of x xs) (x ∷ xs)
unfolding last_of
Elem-last x [] = inl refl
Elem-last x (y ∷ ys) = inr (Elem-last y ys)

-- Deleting the last reference of the set keeps the others, in order.
pub delete-last :
    (x : ℕ) (xs : List ℕ)
    → Distinct (x ∷ xs)
    → set_delete (last_of x xs) (x ∷ xs) ≡ take (length xs) (x ∷ xs)
unfolding set_delete last_of
delete-last x [] d = ground arith
delete-last x (y ∷ ys) d =
    ground (arith, delete-last y ys d.1, Elem-last y ys, absent_of_All x (y ∷ ys) d.0)
