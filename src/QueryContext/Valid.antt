-- ===== src/QueryContext/Valid.antt =====
-- The invariant of the three containers of lib/queryContextCache.js.
use snowflake_connector_node.Prelude.{
  ℕ, ◌<◌, ◌≤◌, ◌≡◌, ◌≢◌, ◌⊎◌, inl, inr, none, some, List, arith, Option-cases, sym, subst, ap,
}
use snowflake_connector_node.QueryContext.{
  Element, Cache, new_cache, set_add, set_delete, sort_by, add_qce, remove_qce, replace_qce,
  overwrite, merge_known, merge_unknown, merge, allocate, receive, clear_cache,
}
use snowflake_connector_node.QueryContext.Order.{
  Elem, Distinct, IsSorted, Pairs-delete, sort_by-IsSorted, sort_by-Distinct, IsSorted-key,
}
use snowflake_connector_node.QueryContext.Members.{
  Elem-of_delete, Elem-delete, not-Elem_delete, Elem-sort, Elem-of_sort, Elem-add, Elem-of_add,
  Distinct-add,
}

abbrev pub priority_of : Cache → ℕ → ℕ
priority_of c r = (c.objects r).priority

-- The set lists each object once, by priority; the identifier map holds exactly its objects, and
-- the priority map holds only objects of the set, under their priority.
pub record IsValid (c : Cache) : Type 0 where
  pub within : (r : ℕ) → Elem r c.tree_set → r < c.allocated
  pub indexed : (r : ℕ) → Elem r c.tree_set → c.id_map (c.objects r).id ≡ some r
  pub id_listed : (i r : ℕ) → c.id_map i ≡ some r → Elem r c.tree_set × ((c.objects r).id ≡ i)
  pub priority_listed :
      (p r : ℕ) → c.priority_map p ≡ some r → Elem r c.tree_set × ((c.objects r).priority ≡ p)
  pub distinct : Distinct c.tree_set
  pub sorted : IsSorted (priority_of c) c.tree_set

pub new_cache-IsValid : (capacity : ℕ) → IsValid (new_cache capacity)
unfolding new_cache
new_cache-IsValid capacity = record {
  within = λ r m. absurd m;
  indexed = λ r m. absurd m;
  id_listed = λ i r e. cc;
  priority_listed = λ p r e. cc;
  distinct = tt;
  sorted = tt;
}

pub clear_cache-IsValid : (c : Cache) → IsValid (clear_cache c)
unfolding clear_cache
clear_cache-IsValid c = record {
  within = λ r m. absurd m;
  indexed = λ r m. absurd m;
  id_listed = λ i r e. cc;
  priority_listed = λ p r e. cc;
  distinct = tt;
  sorted = tt;
}

module _ (c : Cache) (r : ℕ) (v : IsValid c) where
  pub left_behind : (s : ℕ) → Elem s (set_delete r c.tree_set) → s ≢ r
  left_behind s m e =
      not-Elem_delete r c.tree_set v.distinct (subst (λ z. Elem z (set_delete r c.tree_set)) e m)

  pub remove_qce-IsValid : Elem r c.tree_set → IsValid (remove_qce c r)
  unfolding remove_qce
  remove_qce-IsValid m = record {
    within = λ s h. v.within s (Elem-of_delete s r c.tree_set h);
    indexed = λ s h.
        ground
          (arith, v.indexed s (Elem-of_delete s r c.tree_set h), v.indexed r m, left_behind s h);
    id_listed = λ i s e. ground (arith, v.id_listed i s, Elem-delete s r c.tree_set);
    priority_listed = λ p s e. ground (arith, v.priority_listed p s, Elem-delete s r c.tree_set);
    distinct = Pairs-delete (λ x y. x ≢ y) r c.tree_set v.distinct;
    sorted = Pairs-delete (λ x y. priority_of c x ≤ priority_of c y) r c.tree_set v.sorted;
  }

module _ (c : Cache) (r : ℕ) (v : IsValid c) (fresh : ¬ Elem r c.tree_set) where
  abbrev pub grown : List ℕ
  grown = sort_by (priority_of c) (set_add r c.tree_set)

  pub of_grown : (s : ℕ) → Elem s grown → Elem s c.tree_set ⊎ (s ≡ r)
  of_grown s m =
      Elem-of_add s r c.tree_set fresh (Elem-of_sort (priority_of c) s (set_add r c.tree_set) m)

  pub to_grown : (s : ℕ) → Elem s c.tree_set ⊎ (s ≡ r) → Elem s grown
  to_grown s m =
      Elem-sort (priority_of c) s (set_add r c.tree_set) (Elem-add s r c.tree_set fresh m)

  pub add_qce-IsValid : r < c.allocated → c.id_map (c.objects r).id ≡ none → IsValid (add_qce c r)
  unfolding add_qce
  add_qce-IsValid lt free = record {
    within = λ s m. ground (arith, of_grown s m, v.within s);
    indexed = λ s m. ground (arith, of_grown s m, v.indexed s);
    id_listed = λ i s e. ground (arith, v.id_listed i s, to_grown s);
    priority_listed = λ p s e. ground (arith, v.priority_listed p s, to_grown s);
    distinct =
        sort_by-Distinct (priority_of c) (set_add r c.tree_set)
          (Distinct-add r c.tree_set fresh v.distinct);
    sorted = sort_by-IsSorted (priority_of c) (set_add r c.tree_set);
  }

-- An object that no container holds yet.
abbrev pub IsFresh : Cache → ℕ → Type 0
IsFresh c r = (¬ Elem r c.tree_set) × (r < c.allocated)

module _ (c : Cache) (old : ℕ) (e : Element) where
  abbrev pub written : Cache
  written = overwrite c old e

  id-overwrite : (r : ℕ) → (written.objects r).id ≡ (c.objects r).id
  unfolding overwrite
  id-overwrite r = ground arith

  pub priority-overwrite : (r : ℕ) → priority_of written r ≡ priority_of c r
  unfolding overwrite
  priority-overwrite r = ground arith

  pub overwrite-IsValid : IsValid c → IsValid (overwrite c old e)
  unfolding overwrite
  overwrite-IsValid v = record {
    within = v.within;
    indexed = λ r m. ground (arith, v.indexed r m, v.indexed old);
    id_listed = λ i r h. ground (arith, v.id_listed i r h);
    priority_listed = λ p r h. ground (arith, v.priority_listed p r h);
    distinct = v.distinct;
    sorted =
        IsSorted-key (priority_of c) (priority_of written) c.tree_set
          (λ r m. sym (priority-overwrite r)) v.sorted;
  }

module _ (c : Cache) (e : Element) (v : IsValid c) where
  pub old_object : (r : ℕ) → Elem r c.tree_set → (allocate c e).objects r ≡ c.objects r
  unfolding allocate
  old_object r m = ground (arith, v.within r m)

  pub allocate-IsValid : IsValid (allocate c e)
  unfolding allocate
  allocate-IsValid = record {
    within = λ r m. ground (arith, v.within r m);
    indexed = λ r m. ground (arith, v.indexed r m, old_object r m);
    id_listed = λ i r h. ground (arith, v.id_listed i r h, old_object r);
    priority_listed = λ p r h. ground (arith, v.priority_listed p r h, old_object r);
    distinct = v.distinct;
    sorted =
        IsSorted-key (priority_of c) (priority_of (allocate c e)) c.tree_set
          (λ r m. ap (λ (x : Element). x.priority) (sym (old_object r m))) v.sorted;
  }

  pub allocate-IsFresh : IsFresh (allocate c e) c.allocated
  unfolding allocate
  allocate-IsFresh = (λ m. absurd (omega (arith, v.within c.allocated m)), omega arith)

-- Replacing an element by a new one of the same identifier, or of an unknown one.
pub replace_qce-IsValid :
    (c : Cache) (old new : ℕ)
    → IsValid c
    → IsFresh c new
    → Elem old c.tree_set
    → ((c.objects new).id ≡ (c.objects old).id) ⊎ (c.id_map (c.objects new).id ≡ none)
    → IsValid (replace_qce c old new)
unfolding replace_qce
replace_qce-IsValid c old new v f m free =
    add_qce-IsValid (remove_qce c old) new (remove_qce-IsValid c old v m)
      (λ h. f.0 (Elem-of_delete new old c.tree_set (unfold remove_qce in h)))
      (unfold remove_qce in f.1) (unfold remove_qce in ground arith)

module _ (c : Cache) (new : ℕ) (v : IsValid c) (f : IsFresh c new) where
  merge_known-IsValid :
      (old : ℕ) → c.id_map (c.objects new).id ≡ some old → IsValid (merge_known c old new)
  unfolding merge_known
  merge_known-IsValid old e = ground (
    arith,
    overwrite-IsValid c old (c.objects new) v,
    replace_qce-IsValid c old new v f,
    v.id_listed (c.objects new).id old e,
  )

  merge_unknown-IsValid : c.id_map (c.objects new).id ≡ none → IsValid (merge_unknown c new)
  unfolding merge_unknown
  merge_unknown-IsValid e = elim (Option-cases (c.priority_map (c.objects new).priority)) [
    | inl p ↦ rw (p, merge_unknown) (add_qce-IsValid c new v f.0 f.1 e)
    | inr (old, p) ↦
        rw (p, merge_unknown)
          (replace_qce-IsValid c old new v f (v.priority_listed (c.objects new).priority old p).0
            (inr e))
  ]

  pub merge-IsValid : IsValid (merge c new)
  unfolding merge
  merge-IsValid = elim (Option-cases (c.id_map (c.objects new).id)) [
    | inl e ↦ rw (e, merge) (merge_unknown-IsValid e)
    | inr (old, e) ↦ rw (e, merge) (merge_known-IsValid old e)
  ]

pub receive-IsValid : (c : Cache) (e : Element) → IsValid c → IsValid (receive c e)
unfolding receive
receive-IsValid c e v =
    merge-IsValid (allocate c e) c.allocated (allocate-IsValid c e v) (allocate-IsFresh c e v)
