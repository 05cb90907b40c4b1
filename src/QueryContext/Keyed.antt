-- ===== src/QueryContext/Keyed.antt =====
-- When the priority map of lib/queryContextCache.js knows every element, so that no two elements
-- have one priority.
use snowflake_connector_node.Prelude.{ℕ, ◌≡◌, ◌⊎◌, inl, inr, none, some, arith, Option-cases}
use snowflake_connector_node.QueryContext.{
  Element, Cache, add_qce, remove_qce, replace_qce, overwrite, merge_known, merge_unknown, merge,
  allocate, receive,
}
use snowflake_connector_node.QueryContext.Order.{Elem}
use snowflake_connector_node.QueryContext.Members.{Elem-of_delete}
use snowflake_connector_node.QueryContext.Valid.{
  IsValid, IsFresh, priority_of, of_grown, left_behind, allocate-IsValid, allocate-IsFresh,
  remove_qce-IsValid,
}

-- The priority map holds every element of the set.
abbrev pub IsKeyed : Cache → Type 0
IsKeyed c = (r : ℕ) → Elem r c.tree_set → c.priority_map (priority_of c r) ≡ some r

-- An element of a known identifier keeps its priority, or moves to one that is free.
abbrev pub Settles : Cache → Element → Type 0
Settles c e =
    (old : ℕ)
    → c.id_map e.id ≡ some old
    → (priority_of c old ≡ e.priority) ⊎ (c.priority_map e.priority ≡ none)

module _ (c : Cache) (r : ℕ) (v : IsValid c) (k : IsKeyed c) where
  remove_qce-IsKeyed : Elem r c.tree_set → IsKeyed (remove_qce c r)
  unfolding remove_qce
  remove_qce-IsKeyed m s h =
      let back = Elem-of_delete s r c.tree_set h in
      ground (arith, k s back, k r m, left_behind c r v s h)

  add_qce-IsKeyed :
      ¬ Elem r c.tree_set → c.priority_map (priority_of c r) ≡ none → IsKeyed (add_qce c r)
  unfolding add_qce
  add_qce-IsKeyed fresh free s h = ground (arith, of_grown c r v fresh s h, k s)

  overwrite-IsKeyed : (e : Element) → IsKeyed (overwrite c r e)
  unfolding overwrite
  overwrite-IsKeyed e s h = ground (arith, k s h)

module _ (c : Cache) (new old : ℕ) (v : IsValid c) (k : IsKeyed c) (f : IsFresh c new) where
  replace_qce-IsKeyed :
      Elem old c.tree_set
      → (priority_of c old ≡ priority_of c new) ⊎ (c.priority_map (priority_of c new) ≡ none)
      → IsKeyed (replace_qce c old new)
  unfolding replace_qce
  replace_qce-IsKeyed m free =
      add_qce-IsKeyed (remove_qce c old) new (remove_qce-IsValid c old v m)
        (remove_qce-IsKeyed c old v k m)
        (λ h. f.0 (Elem-of_delete new old c.tree_set (unfold remove_qce in h)))
        (unfold remove_qce in ground arith)

module _ (c : Cache) (new : ℕ) (v : IsValid c) (k : IsKeyed c) (f : IsFresh c new) where
  merge_known-IsKeyed :
      (old : ℕ)
      → c.id_map (c.objects new).id ≡ some old
      → Settles c (c.objects new)
      → IsKeyed (merge_known c old new)
  unfolding merge_known
  merge_known-IsKeyed old e s = ground (
    arith,
    overwrite-IsKeyed c old v k (c.objects new),
    replace_qce-IsKeyed c new old v k f,
    v.id_listed (c.objects new).id old e,
    s old e,
    k,
  )

  merge_unknown-IsKeyed : IsKeyed (merge_unknown c new)
  unfolding merge_unknown
  merge_unknown-IsKeyed = elim (Option-cases (c.priority_map (priority_of c new))) [
    | inl p ↦ rw (p, merge_unknown) (add_qce-IsKeyed c new v k f.0 p)
    | inr (old, p) ↦
        let (m, e) = v.priority_listed (priority_of c new) old p in
        rw (p, merge_unknown) (replace_qce-IsKeyed c new old v k f m (inl e))
  ]

  merge-IsKeyed : Settles c (c.objects new) → IsKeyed (merge c new)
  unfolding merge
  merge-IsKeyed s = elim (Option-cases (c.id_map (c.objects new).id)) [
    | inl e ↦ rw (e, merge) merge_unknown-IsKeyed
    | inr (old, e) ↦ rw (e, merge) (merge_known-IsKeyed old e s)
  ]

allocate-IsKeyed : (c : Cache) (e : Element) → IsValid c → IsKeyed c → IsKeyed (allocate c e)
unfolding allocate
allocate-IsKeyed c e v k s h = ground (arith, k s h, v.within s h)

allocate-Settles :
    (c : Cache) (e : Element)
    → IsValid c
    → Settles c e
    → Settles (allocate c e) ((allocate c e).objects c.allocated)
unfolding allocate
allocate-Settles c e v s old h = ground (arith, s old, v.id_listed e.id old, v.within old)

-- While elements of known identifiers move only to free priorities, the priority map knows every
-- element, so that different elements have different priorities.
pub receive-IsKeyed :
    (c : Cache) (e : Element) → IsValid c → IsKeyed c → Settles c e → IsKeyed (receive c e)
unfolding receive
receive-IsKeyed c e v k s =
    merge-IsKeyed (allocate c e) c.allocated (allocate-IsValid c e v) (allocate-IsKeyed c e v k)
      (allocate-IsFresh c e v) (allocate-Settles c e v s)
