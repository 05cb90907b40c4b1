-- ===== src/QueryContext/Examples.antt =====
-- The theorems about lib/queryContextCache.js at concrete caches.
use snowflake_connector_node.Prelude.{
  ◌≤◌, ◌≡◌, ◌≢◌, refl, none, some, [], ◌∷◌, map, take, length, arith,
}
use snowflake_connector_node.QueryContext.{
  Element, Cache, new_cache, receive, get_size, get_elements,
}
use snowflake_connector_node.QueryContext.Order.{Elem}
use snowflake_connector_node.QueryContext.Valid.{
  IsValid, priority_of, new_cache-IsValid, receive-IsValid,
}
use snowflake_connector_node.QueryContext.Merge.{find, merged, find-receive}
use snowflake_connector_node.QueryContext.Collision.{receive-collides}
use snowflake_connector_node.QueryContext.Keyed.{IsKeyed}
use snowflake_connector_node.QueryContext.RoundTrip.{normalised, deserialize-serialize}
use snowflake_connector_node.QueryContext.Request.{IsOrdered, dto-run}
use snowflake_connector_node.QueryContext.Wire.{
  Payload, object, string, null, other, entries, deserialize_query_context, get_query_context_dto,
  get_serialize_query_context,
}
use snowflake_connector_node.QueryContext.Received.{run, deserialize-bounded}

abbrev main_entry : Element
main_entry = record { id = 0; timestamp = 5; priority = 0; context = some "a" }

abbrev other_entry : Element
other_entry = record { id = 1; timestamp = 5; priority = 1; context = some "b" }

-- Two elements in a cache of capacity 1, before the capacity is checked.
abbrev one : Cache
one = receive (new_cache 1) main_entry

abbrev full : Cache
full = receive one other_entry

one-IsValid : IsValid one
one-IsValid = receive-IsValid (new_cache 1) main_entry (new_cache-IsValid 1)

full-IsValid : IsValid full
full-IsValid = receive-IsValid one other_entry one-IsValid

one-IsKeyed : IsKeyed one
unfolding receive new_cache
one-IsKeyed r m = ground arith

full-IsKeyed : IsKeyed full
unfolding receive new_cache
full-IsKeyed r m = ground arith

-- Element 0 comes again, newer, at the priority of element 1.
abbrev moved : Element
moved = record { id = 0; timestamp = 6; priority = 1; context = none }

abbrev response : Payload
response = entries (object 0 6 1 null ∷ object 2 6 2 (string "c") ∷ [])

abbrev bad_response : Payload
bad_response = entries (object 3 1 3 null ∷ object 2 6 2 other ∷ [])

deserialize-bounded_example :
    IsValid (deserialize_query_context full response)
    × ((deserialize_query_context full response).capacity ≡ full.capacity)
    × (get_size (deserialize_query_context full response) ≤ full.capacity)
deserialize-bounded_example = deserialize-bounded full response full-IsValid

find-receive_example : find (receive full moved) 0 ≡ merged full moved 0
find-receive_example = find-receive full moved full-IsValid 0

dto-run_example :
    (length (get_query_context_dto (run 2 (bad_response ∷ response ∷ []))) ≤ 2)
    × IsOrdered (get_query_context_dto (run 2 (bad_response ∷ response ∷ [])))
dto-run_example = dto-run 2 (bad_response ∷ response ∷ [])

deserialize-serialize_example :
    get_elements (deserialize_query_context (new_cache 2) (get_serialize_query_context full))
    ≡ take 2 (map normalised (get_elements full))
deserialize-serialize_example = deserialize-serialize full 2 full-IsValid full-IsKeyed

receive-collides_example :
    Elem 1 (receive full moved).tree_set
    × Elem full.allocated (receive full moved).tree_set
    × (1 ≢ full.allocated)
    × (priority_of (receive full moved) 1 ≡ moved.priority)
    × (priority_of (receive full moved) full.allocated ≡ moved.priority)
unfolding receive new_cache
receive-collides_example =
    receive-collides full moved 0 1 full-IsValid refl refl (omega arith) (omega arith)

-- The set then lists both.
collision : map (λ (e : Element). e.priority) (get_elements (receive full moved)) ≡ 1 ∷ 1 ∷ []
unfolding receive new_cache get_elements
collision = refl
