-- ===== src/QueryContext/Received.antt =====
-- deserializeQueryContext of lib/queryContextCache.js keeps the cache valid and within its capacity.
use snowflake_connector_node.Prelude.{
  ℕ, ◌≤◌, ◌≡◌, refl, List, [], ◌∷◌, arith, subst, ◌∙◌, some, none,
}
use snowflake_connector_node.QueryContext.{
  Element, Cache, new_cache, receive, clear_cache, get_size, check_cache_capacity,
}
use snowflake_connector_node.QueryContext.Valid.{
  IsValid, new_cache-IsValid, clear_cache-IsValid, receive-IsValid,
}
use snowflake_connector_node.QueryContext.Capacity.{
  check_cache_capacity-keeps_smallest, size-check, capacity-check,
}
use snowflake_connector_node.QueryContext.Wire.{
  Node, null_node, object, string, null, undefined, other, Payload, falsy, empty_object,
  null_entries, not_an_array, entries, Outcome, finished, returned, caught, merge_entries,
  after_entries, deserialize_query_context,
}

pub capacity-receive : (c : Cache) (e : Element) → (receive c e).capacity ≡ c.capacity
unfolding receive
capacity-receive c e = ground arith

-- What holds of the cache however the loop over the entries ends.
abbrev Ends : ℕ → Outcome → Type 0
Ends n (finished d) = IsValid d × (d.capacity ≡ n)
Ends n (returned d) = IsValid d × (d.capacity ≡ n) × (get_size d ≡ 0)
Ends n (caught d) = IsValid d × (d.capacity ≡ n)

after_element :
    (c : Cache) (ns : List Node) (e : Element)
    → IsValid c
    → (IsValid (receive c e) → Ends (receive c e).capacity (merge_entries (receive c e) ns))
    → Ends c.capacity (merge_entries (receive c e) ns)
after_element c ns e v rest =
    subst (λ n. Ends n (merge_entries (receive c e) ns)) (capacity-receive c e)
      (rest (receive-IsValid c e v))

cleared :
    (c : Cache)
    → IsValid (clear_cache c)
      × ((clear_cache c).capacity ≡ c.capacity)
      × (get_size (clear_cache c) ≤ c.capacity)
cleared c =
    (clear_cache-IsValid c, unfold clear_cache in refl, unfold clear_cache get_size in omega arith)

checked :
    (n : ℕ) (c : Cache)
    → IsValid c
    → c.capacity ≡ n
    → IsValid (check_cache_capacity c)
      × ((check_cache_capacity c).capacity ≡ n)
      × (get_size (check_cache_capacity c) ≤ n)
checked n c v e = (
  (check_cache_capacity-keeps_smallest c v).0,
  capacity-check c v ∙ e,
  omega (arith, size-check c v),
)

after_outcome :
    (n : ℕ) (o : Outcome)
    → Ends n o
    → IsValid (after_entries o)
      × ((after_entries o).capacity ≡ n)
      × (get_size (after_entries o) ≤ n)
unfolding after_entries
after_outcome n (finished d) (v, e) = checked n d v e
after_outcome n (returned d) (v, e, z) = (v, e, omega arith)
after_outcome n (caught d) (v, e) = checked n d v e

merge_entries-Ends : (c : Cache) (ns : List Node) → IsValid c → Ends c.capacity (merge_entries c ns)
unfolding merge_entries
merge_entries-Ends c [] v = (v, refl)
merge_entries-Ends c (null_node ∷ ns) v = (clear_cache-IsValid c, unfold clear_cache in refl)
merge_entries-Ends c (object i t p (string x) ∷ ns) v =
    after_element c ns (record { id = i; timestamp = t; priority = p; context = some x }) v
      (merge_entries-Ends
        (receive c (record { id = i; timestamp = t; priority = p; context = some x })) ns)
merge_entries-Ends c (object i t p null ∷ ns) v =
    after_element c ns (record { id = i; timestamp = t; priority = p; context = none }) v
      (merge_entries-Ends
        (receive c (record { id = i; timestamp = t; priority = p; context = none })) ns)
merge_entries-Ends c (object i t p undefined ∷ ns) v =
    after_element c ns (record { id = i; timestamp = t; priority = p; context = none }) v
      (merge_entries-Ends
        (receive c (record { id = i; timestamp = t; priority = p; context = none })) ns)
merge_entries-Ends c (object i t p other ∷ ns) v =
    (clear_cache-IsValid c, unfold clear_cache in refl, unfold clear_cache get_size in refl)

-- Whatever the server sends, a valid cache stays valid, keeps its capacity as a setting, and holds
-- at most that many elements afterwards.
pub deserialize-bounded :
    (c : Cache) (d : Payload)
    → IsValid c
    → IsValid (deserialize_query_context c d)
      × ((deserialize_query_context c d).capacity ≡ c.capacity)
      × (get_size (deserialize_query_context c d) ≤ c.capacity)
unfolding deserialize_query_context
deserialize-bounded c falsy v = cleared c
deserialize-bounded c empty_object v = cleared c
deserialize-bounded c null_entries v = cleared c
deserialize-bounded c not_an_array v = checked c.capacity c v refl
deserialize-bounded c (entries ns) v =
    after_outcome c.capacity (merge_entries c ns) (merge_entries-Ends c ns v)

-- The cache of a connection after the responses of its queries.
pub run : ℕ → List Payload → Cache
run capacity [] = new_cache capacity
run capacity (d ∷ ds) = deserialize_query_context (run capacity ds) d

pub run-bounded :
    (capacity : ℕ) (ds : List Payload)
    → IsValid (run capacity ds)
      × ((run capacity ds).capacity ≡ capacity)
      × (get_size (run capacity ds) ≤ capacity)
unfolding run
run-bounded capacity [] =
    (new_cache-IsValid capacity, unfold new_cache in refl, unfold new_cache get_size in omega arith)
run-bounded capacity (d ∷ ds) =
    let (v, e, h) = run-bounded capacity ds in
    let (v', e', h') = deserialize-bounded (run capacity ds) d v in (v', e' ∙ e, omega arith)
