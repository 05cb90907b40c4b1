-- ===== src/QueryContext/Order.antt =====
-- The `Set` of references and the stable sort of lib/queryContextCache.js: what they keep.
use snowflake_connector_node.Prelude.{
  ℕ, suc, ◌≤◌, ◌≡◌, ◌≢◌, ◌⊎◌, refl, inl, inr, List, [], ◌∷◌, ◌++◌, All, length, arith, ap, sym,
  subst, ◌∙◌,
}
use snowflake_connector_node.QueryContext.{set_delete, insert_by, sort_by}

-- Every entry is related to every later one.
abbrev pub Pairs : (ℕ → ℕ → Type 0) → List ℕ → Type 0
Pairs R [] = Unit
Pairs R (x ∷ xs) = All (R x) xs × Pairs R xs

abbrev pub IsSorted : (ℕ → ℕ) → List ℕ → Type 0
IsSorted key = Pairs (λ x y. key x ≤ key y)

abbrev pub Distinct : List ℕ → Type 0
Distinct = Pairs (λ x y. x ≢ y)

abbrev pub Elem : ℕ → List ℕ → Type 0
Elem r [] = ⊥
Elem r (x ∷ xs) = (r ≡ x) ⊎ Elem r xs

pub All-elem : (P : ℕ → Type 0) (r : ℕ) (xs : List ℕ) → All P xs → Elem r xs → P r
All-elem P r [] h m = absurd m
All-elem P r (x ∷ xs) h (inl e) = subst P (sym e) h.0
All-elem P r (x ∷ xs) h (inr m) = All-elem P r xs h.1 m

pub All-tabulate : (P : ℕ → Type 0) (xs : List ℕ) → ((r : ℕ) → Elem r xs → P r) → All P xs
All-tabulate P [] h = tt
All-tabulate P (x ∷ xs) h = (h x (inl refl), All-tabulate P xs (λ r m. h r (inr m)))

pub All-append : (P : ℕ → Type 0) (xs ys : List ℕ) → All P xs → All P ys → All P (xs ++ ys)
All-append P [] ys hx hy = hy
All-append P (x ∷ xs) ys hx hy = (hx.0, All-append P xs ys hx.1 hy)

pub All-delete : (P : ℕ → Type 0) (r : ℕ) (xs : List ℕ) → All P xs → All P (set_delete r xs)
unfolding set_delete
All-delete P r [] h = tt
All-delete P r (x ∷ xs) h = ground (arith, All-delete (P) r xs h.1)

pub Pairs-delete :
    (R : ℕ → ℕ → Type 0) (r : ℕ) (xs : List ℕ) → Pairs R xs → Pairs R (set_delete r xs)
unfolding set_delete
Pairs-delete R r [] h = tt
Pairs-delete R r (x ∷ xs) h = ground (arith, All-delete (R x) r xs h.0, Pairs-delete (R) r xs h.1)

All-insert :
    (P : ℕ → Type 0) (key : ℕ → ℕ) (x : ℕ) (ys : List ℕ)
    → P x
    → All P ys
    → All P (insert_by key x ys)
unfolding insert_by
All-insert P key x [] px h = (px, tt)
All-insert P key x (y ∷ ys) px h = ground (arith, All-insert (P) key x ys px h.1)

All-le_trans :
    (key : ℕ → ℕ) (x y : ℕ) (ys : List ℕ)
    → key x ≤ key y
    → All (λ z. key y ≤ key z) ys
    → All (λ z. key x ≤ key z) ys
All-le_trans key x y [] h a = tt
All-le_trans key x y (z ∷ ys) h a = (omega arith, All-le_trans key x y ys h a.1)

insert_by-IsSorted :
    (key : ℕ → ℕ) (x : ℕ) (ys : List ℕ) → IsSorted key ys → IsSorted key (insert_by key x ys)
unfolding insert_by
insert_by-IsSorted key x [] s = (tt, tt)
insert_by-IsSorted key x (y ∷ ys) s = ground (
  arith,
  All-le_trans key x y ys,
  All-insert (λ z. key y ≤ key z) key x ys,
  insert_by-IsSorted key x ys s.1,
)

pub sort_by-IsSorted : (key : ℕ → ℕ) (xs : List ℕ) → IsSorted key (sort_by key xs)
unfolding sort_by
sort_by-IsSorted key [] = tt
sort_by-IsSorted key (x ∷ xs) = insert_by-IsSorted key x (sort_by key xs) (sort_by-IsSorted key xs)

-- A sorted list is sorted already: the sort is stable.
insert_by-head :
    (key : ℕ → ℕ) (x : ℕ) (ys : List ℕ) → All (λ y. key x ≤ key y) ys → insert_by key x ys ≡ x ∷ ys
unfolding insert_by
insert_by-head key x [] h = refl
insert_by-head key x (y ∷ ys) h = ground arith

pub sort_by-sorted : (key : ℕ → ℕ) (xs : List ℕ) → IsSorted key xs → sort_by key xs ≡ xs
unfolding sort_by
sort_by-sorted key [] s = refl
sort_by-sorted key (x ∷ xs) s =
    ap (insert_by key x) (sort_by-sorted key xs s.1) ∙ insert_by-head key x xs s.0

pub All-sort : (P : ℕ → Type 0) (key : ℕ → ℕ) (xs : List ℕ) → All P xs → All P (sort_by key xs)
unfolding sort_by
All-sort P key [] h = tt
All-sort P key (x ∷ xs) h = All-insert (P) key x (sort_by key xs) h.0 (All-sort (P) key xs h.1)

insert_by-Distinct :
    (key : ℕ → ℕ) (x : ℕ) (ys : List ℕ)
    → All (λ y. x ≢ y) ys
    → Distinct ys
    → Distinct (insert_by key x ys)
unfolding insert_by
insert_by-Distinct key x [] h d = (tt, tt)
insert_by-Distinct key x (y ∷ ys) h d = ground (
  arith,
  All-insert (λ z. y ≢ z) key x ys (λ e. h.0 (sym e)) d.0,
  insert_by-Distinct key x ys h.1 d.1,
)

pub sort_by-Distinct : (key : ℕ → ℕ) (xs : List ℕ) → Distinct xs → Distinct (sort_by key xs)
unfolding sort_by
sort_by-Distinct key [] d = tt
sort_by-Distinct key (x ∷ xs) d =
    insert_by-Distinct key x (sort_by key xs) (All-sort (λ y. x ≢ y) key xs d.0)
      (sort_by-Distinct key xs d.1)

pub length-insert_by :
    (key : ℕ → ℕ) (x : ℕ) (ys : List ℕ) → length (insert_by key x ys) ≡ suc (length ys)
unfolding insert_by
length-insert_by key x [] = refl
length-insert_by key x (y ∷ ys) = ground (arith, length-insert_by key x ys)

pub length-sort_by : (key : ℕ → ℕ) (xs : List ℕ) → length (sort_by key xs) ≡ length xs
unfolding sort_by
length-sort_by key [] = refl
length-sort_by key (x ∷ xs) =
    length-insert_by key x (sort_by key xs) ∙ ap suc (length-sort_by key xs)

All-key :
    (key key' : ℕ → ℕ) (x : ℕ) (xs : List ℕ)
    → key x ≡ key' x
    → ((r : ℕ) → Elem r xs → key r ≡ key' r)
    → All (λ y. key x ≤ key y) xs
    → All (λ y. key' x ≤ key' y) xs
All-key key key' x [] e same a = tt
All-key key key' x (y ∷ ys) e same a =
    (omega (arith, same y (inl refl)), All-key key key' x ys e (λ r m. same r (inr m)) a.1)

-- Only the keys of the members matter.
pub IsSorted-key :
    (key key' : ℕ → ℕ) (xs : List ℕ)
    → ((r : ℕ) → Elem r xs → key r ≡ key' r)
    → IsSorted key xs
    → IsSorted key' xs
IsSorted-key key key' [] same s = tt
IsSorted-key key key' (x ∷ xs) same s = (
  All-key key key' x xs (same x (inl refl)) (λ r m. same r (inr m)) s.0,
  IsSorted-key key key' xs (λ r m. same r (inr m)) s.1,
)
