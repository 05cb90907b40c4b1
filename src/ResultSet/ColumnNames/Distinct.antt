-- ===== src/ResultSet/ColumnNames/Distinct.antt =====
-- lib/connection/result/unique_column_name_creator.js: the names that the columns have in the end.
use snowflake_connector_node.Prelude.{
  ℕ, zero, suc, ◌+◌, ◌≤◌, ◌<◌, ◌≡◌, refl, Bool, true, false, Option, none, some, List, [], ◌∷◌,
  length, if◌then◌else◌, Bool-cases, inl, inr, arith, sym, subst, All,
}
use snowflake_connector_node.ResultSet.ColumnNames.Texts.{
  Text, text_eq, text_eq_refl, text_eq-eq, contains, contains-head, contains-tail, or-cases,
  suffix-injective, pigeonhole,
}
use snowflake_connector_node.ResultSet.ColumnNames.{
  Column, names_of, set_of, result_contains_duplicated_columns, Quantities, quantity, suffixed,
  free_times, Rest, rename_named, is_empty, rename, add_overridden_names_for_duplicated_columns,
}

abbrev pub name_or : Text → Option Text → Text
name_or name none = name
name_or name (some other) = other

-- The name that a column has in rows whose duplicated columns are renamed.
abbrev pub shown_names : List Column → List Text
shown_names [] = []
shown_names (c ∷ cs) = name_or c.name c.overridden_name ∷ shown_names cs

abbrev pub Distinct : List Text → Type 0
Distinct [] = Unit
Distinct (t ∷ ts) = (contains ts t ≡ false) × Distinct ts

-- A column as it comes: with a name, and none that overrides it.
abbrev pub IsPlain : Column → Type 0
IsPlain c = (is_empty c.name ≡ false) × (c.overridden_name ≡ none)

-- The search ends with a free name: else as many different names as there is fuel were in use.
used_all :
    (fuel : ℕ) (names : List Text) (name : Text) (times : ℕ)
    → contains names (suffixed name (free_times fuel names name times)) ≡ true
    → (i : ℕ) → i < fuel
    → contains names (suffixed name (times + i)) ≡ true
unfolding free_times
used_all zero names name times h i lt = elim lt [ ]
used_all (suc fuel) names name times h zero lt =
    elim (Bool-cases (contains names (suffixed name times))) [
      | inl e ↦ subst (λ (k : ℕ). contains names (suffixed name k) ≡ true) (omega arith) e
      | inr e ↦ let k = rw e at h in absurd (cc (e, k))
    ]
used_all (suc fuel) names name times h (suc i) lt =
    elim (Bool-cases (contains names (suffixed name times))) [
      | inl e ↦
          subst (λ (k : ℕ). contains names (suffixed name k) ≡ true) (omega arith)
            (used_all fuel names name (suc times) (rw e at h) i (omega arith))
      | inr e ↦ let k = rw e at h in absurd (cc (e, k))
    ]

free_times-free :
    (names : List Text) (name : Text) (times : ℕ)
    → contains names (suffixed name (free_times (suc (length names)) names name times)) ≡ false
free_times-free names name times =
    elim (Bool-cases
      (contains names (suffixed name (free_times (suc (length names)) names name times)))) [
        | inl e ↦ absurd (
            omega (
              arith,
              pigeonhole (λ i. suffixed name (times + i))
                  (λ i j q. omega (arith, suffix-injective name (times + i) (times + j) q))
                  (suc (length names)) names (used_all (suc (length names)) names name times e),
            ))
        | inr e ↦ e
      ]

-- What holds of the names that the loop shows, given those in use and the quantities: they differ,
-- and one that is in use is the name of a column that was not met before.
abbrev IsShown : List Text → Quantities → List Column → List Text → Type 0
IsShown names q cs ts =
    Distinct ts
    × ((t : Text)
        → contains ts t ≡ true
        → contains names t ≡ true
        → (quantity t q ≡ none) × (contains (names_of cs) t ≡ true))

-- The names of the columns are in use.
abbrev InUse : List Column → List Text → Type 0
InUse cs names = (t : Text) → contains (names_of cs) t ≡ true → contains names t ≡ true

quantity-head : (t : Text) (n : ℕ) (q : Quantities) → quantity t ((t, n) ∷ q) ≡ some n
quantity-head t n q = ground (arith, text_eq_refl t)

quantity-tail :
    (k t : Text) (n : ℕ) (q : Quantities) → quantity t ((k, n) ∷ q) ≡ none → quantity t q ≡ none
quantity-tail k t n q h = ground arith

-- A column that is met for the first time keeps its name.
first-IsShown :
    (names : List Text) (q : Quantities) (c : Column) (cs : List Column) (ts : List Text)
    → InUse (c ∷ cs) names
    → quantity c.name q ≡ none
    → IsShown names ((c.name, 1) ∷ q) cs ts
    → IsShown names q (c ∷ cs) (c.name ∷ ts)
first-IsShown names q c cs ts used none_yet (d, h) = ((fresh, d), shown)
  where
    fresh : contains ts c.name ≡ false
    fresh = elim (Bool-cases (contains ts c.name)) [
      | inl e ↦ cc (
        (h c.name e (used c.name (contains-head c.name (names_of cs)))).0,
        quantity-head c.name 1 q,
      )
      | inr e ↦ e
    ]

    shown :
        (t : Text)
        → contains (c.name ∷ ts) t ≡ true
        → contains names t ≡ true
        → (quantity t q ≡ none) × (contains (names_of (c ∷ cs)) t ≡ true)
    shown t e u = elim (or-cases (text_eq c.name t) (contains ts t) e) [
      | inl same ↦
          let eq = text_eq-eq c.name t same in
          (
            subst (λ (x : Text). quantity x q ≡ none) eq none_yet,
            subst (λ (x : Text). contains (c.name ∷ names_of cs) x ≡ true) eq
                (contains-head c.name (names_of cs)),
          )
      | inr later ↦ (
        quantity-tail c.name t 1 q (h t later u).0,
        contains-tail c.name (names_of cs) t (h t later u).1,
      )
    ]

-- A column that was met before gets a name that was not in use.
again-IsShown :
    (names : List Text) (q : Quantities) (c : Column) (cs : List Column) (ts : List Text)
    (other : Text) (times : ℕ)
    → InUse (c ∷ cs) names
    → contains names other ≡ false
    → IsShown (other ∷ names) ((c.name, times) ∷ q) cs ts
    → IsShown names q (c ∷ cs) (other ∷ ts)
again-IsShown names q c cs ts other times used free (d, h) = ((fresh, d), shown)
  where
    fresh : contains ts other ≡ false
    fresh = elim (Bool-cases (contains ts other)) [
      | inl e ↦
          let mine = (h other e (contains-head other names)).1 in
          cc (used other (contains-tail c.name (names_of cs) other mine), free)
      | inr e ↦ e
    ]

    shown :
        (t : Text)
        → contains (other ∷ ts) t ≡ true
        → contains names t ≡ true
        → (quantity t q ≡ none) × (contains (names_of (c ∷ cs)) t ≡ true)
    shown t e u = elim (or-cases (text_eq other t) (contains ts t) e) [
      | inl same ↦
          let eq = text_eq-eq other t same in
          cc (subst (λ (x : Text). contains names x ≡ false) eq free, u)
      | inr later ↦
          let k = h t later (contains-tail other names t u) in
          (quantity-tail c.name t times q k.0, contains-tail c.name (names_of cs) t k.1)
    ]

named-IsShown :
    (names : List Text) (q : Quantities) (c : Column) (cs : List Column) (rest : Rest)
    (o : Option ℕ)
    → c.overridden_name ≡ none
    → quantity c.name q ≡ o
    → InUse (c ∷ cs) names
    → ((ns : List Text) (q' : Quantities)
        → InUse cs ns
        → IsShown ns q' cs (shown_names (rest ns q')))
    → IsShown names q (c ∷ cs) (shown_names (rename_named names q c rest o))
unfolding rename_named
named-IsShown names q c cs rest none plain e used go =
    subst
      (λ (o : Option Text).
        IsShown names q (c ∷ cs) (name_or c.name o ∷ shown_names (rest names ((c.name, 1) ∷ q))))
      (sym plain)
      (first-IsShown names q c cs (shown_names (rest names ((c.name, 1) ∷ q))) used e
        (go names ((c.name, 1) ∷ q) (λ t h. used t (contains-tail c.name (names_of cs) t h))))
named-IsShown names q c cs rest (some n) plain e used go =
    let times = free_times (suc (length names)) names c.name (n + 1) in
    let other = suffixed c.name times in
    again-IsShown names q c cs (shown_names (rest (other ∷ names) ((c.name, times) ∷ q))) other
      times used (free_times-free names c.name (n + 1))
      (go (other ∷ names) ((c.name, times) ∷ q)
        (λ t h. contains-tail other names t (used t (contains-tail c.name (names_of cs) t h))))

rename-IsShown :
    (cs : List Column)
    → All IsPlain cs
    → (names : List Text) (q : Quantities) → InUse cs names
    → IsShown names q cs (shown_names (rename cs names q))
unfolding rename
rename-IsShown [] p names q used = (tt, λ t h u. cc)
rename-IsShown (c ∷ cs) (p, ps) names q used =
    subst
      (λ (b : Bool). IsShown names q (c ∷ cs) (
        shown_names (
          if b
          then c ∷ rename cs names q
          else rename_named names q c (rename cs) (quantity c.name q))))
      (sym p.0)
      (named-IsShown names q c cs (rename cs) (quantity c.name q) p.1 refl used
        (rename-IsShown cs ps))

set_of-contains : (ts : List Text) (t : Text) → contains ts t ≡ true → contains (set_of ts) t ≡ true
unfolding set_of
set_of-contains [] t h = h
set_of-contains (s ∷ ts) t h = elim (or-cases (text_eq s t) (contains ts t) h) [
  | inl e ↦ ground (arith, text_eq-eq s t e)
  | inr e ↦ ground (arith, set_of-contains ts t e)
]

length-set_of-le : (ts : List Text) → length (set_of ts) ≤ length ts
unfolding set_of
length-set_of-le [] = omega arith
length-set_of-le (t ∷ ts) = ground (arith, length-set_of-le ts)

-- A list that is as long as its set holds each text once.
set_of-Distinct : (ts : List Text) → length ts ≡ length (set_of ts) → Distinct ts
unfolding set_of
set_of-Distinct [] h = tt
set_of-Distinct (t ∷ ts) h = elim (Bool-cases (contains (set_of ts) t)) [
  | inl e ↦ absurd (ground (arith, length-set_of-le ts))
  | inr e ↦ (
    elim (Bool-cases (contains ts t)) [ inl m ↦ cc (set_of-contains ts t m, e) | inr m ↦ m ],
    set_of-Distinct ts (ground arith),
  )
]

shown_names-plain : (cs : List Column) → All IsPlain cs → shown_names cs ≡ names_of cs
shown_names-plain [] p = refl
shown_names-plain (c ∷ cs) (p, ps) = ground (arith, p.1, shown_names-plain cs ps)

if-Distinct :
    (b : Bool) (xs ys : List Column)
    → Distinct (shown_names xs)
    → (b ≡ false → Distinct (shown_names ys))
    → Distinct (shown_names (if b then xs else ys))
if-Distinct true xs ys h k = h
if-Distinct false xs ys h k = k refl

-- For columns that all have a name, whatever the names and however often each is there: the names
-- that are shown in the end, the other one where a column got one, are all different.
pub add_overridden_names-Distinct :
    (cs : List Column)
    → All IsPlain cs
    → Distinct (shown_names (add_overridden_names_for_duplicated_columns cs))
unfolding add_overridden_names_for_duplicated_columns
add_overridden_names-Distinct cs p =
    if-Distinct (result_contains_duplicated_columns cs) (rename cs (set_of (names_of cs)) []) cs
      (rename-IsShown cs p (set_of (names_of cs)) [] (set_of-contains (names_of cs))).0
      (λ e.
        subst Distinct (sym (shown_names-plain cs p))
          (set_of-Distinct (names_of cs) (ground arith)))
