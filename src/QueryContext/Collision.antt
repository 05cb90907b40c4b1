-- ===== src/QueryContext/Collision.antt =====
-- A known element that moves to the priority of another one, in lib/queryContextCache.js.
use snowflake_connector_node.Prelude.{ℕ, ◌<◌, ◌≡◌, ◌≢◌, refl, inl, inr, some, arith}
use snowflake_connector_node.QueryContext.{
  Element, Cache, remove_qce, replace_qce, allocate, receive,
}
use snowflake_connector_node.QueryContext.Order.{Elem}
use snowflake_connector_node.QueryContext.Members.{Elem-of_delete, Elem-delete}
use snowflake_connector_node.QueryContext.Valid.{
  IsValid, priority_of, to_grown, remove_qce-IsValid, allocate-IsValid, allocate-IsFresh,
}

module _ (c : Cache) (e : Element) (old : ℕ) (v : IsValid c) where
  moves :
      c.id_map e.id ≡ some old
      → (c.objects old).timestamp < e.timestamp
      → (c.objects old).priority ≢ e.priority
      → receive c e ≡ replace_qce (allocate c e) old c.allocated
  unfolding receive allocate
  moves i newer ne = ground (arith, v.id_listed e.id old i, v.within old)

  abbrev emptied : Cache
  emptied = remove_qce (allocate c e) old

  fresh : ¬ Elem c.allocated emptied.tree_set
  unfolding remove_qce
  fresh m = (allocate-IsFresh c e v).0 (Elem-of_delete c.allocated old (allocate c e).tree_set m)

-- `merge` drives out the element at a priority only for a new identifier. Where a known identifier
-- moves, with a newer timestamp, to a priority at which the priority map holds another element, the
-- set holds two elements of that priority afterwards: the other one and the one that arrived.
pub receive-collides :
    (c : Cache) (e : Element) (old other : ℕ)
    → IsValid c
    → c.id_map e.id ≡ some old
    → c.priority_map e.priority ≡ some other
    → (c.objects old).priority ≢ e.priority
    → (c.objects old).timestamp < e.timestamp
    → Elem other (receive c e).tree_set
      × Elem c.allocated (receive c e).tree_set
      × (other ≢ c.allocated)
      × (priority_of (receive c e) other ≡ e.priority)
      × (priority_of (receive c e) c.allocated ≡ e.priority)
unfolding allocate
receive-collides c e old other v i p ne newer =
    let (m, q) = v.priority_listed e.priority other p in
    let (n, j) = v.id_listed e.id old i in
    let w = remove_qce-IsValid (allocate c e) old (allocate-IsValid c e v) (unfold allocate in n) in
    rw (moves c e old v i newer ne) (
      unfold replace_qce in
          to_grown (emptied c e old v) c.allocated w (fresh c e old v) other
            (inl (unfold remove_qce in Elem-delete other old c.tree_set m (λ x. ground arith))),
      unfold replace_qce in
          to_grown (emptied c e old v) c.allocated w (fresh c e old v) c.allocated (inr refl),
      (λ x. ground (arith, v.within other m)),
      unfold replace_qce allocate in ground (arith, v.within other m),
      unfold replace_qce allocate in ground arith,
    )
