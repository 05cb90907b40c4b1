-- ===== src/QueryContext/Wire.antt =====
-- The entry points of lib/queryContextCache.js: what the server sends, and what a request carries.

use snowflake_connector_node.Prelude.{
  ℕ, String, Option, none, some, List, [], ◌∷◌, map, ◌≡◌, refl, if◌then◌else◌, str_eq,
}
use snowflake_connector_node.QueryContext.{
  Element, Cache, new_cache, receive, check_cache_capacity, clear_cache, get_elements,
}

-- The `context` field of an entry of the response.
pub data ContextField : Type 0 where
  string : String → ContextField
  null undefined other : ContextField

-- An entry of the response; destructuring a `null` entry throws.
pub data Node : Type 0 where
  null_node : Node
  object : ℕ → ℕ → ℕ → ContextField → Node

-- What `deserializeQueryContext` is given.
pub data Payload : Type 0 where
  falsy empty_object null_entries not_an_array : Payload
  entries : List Node → Payload

pub data Parsed : Type 0 where
  parsed : Element → Parsed
  mismatch thrown : Parsed

unfoldable pub deserialize_element : Node → Parsed
deserialize_element null_node = thrown
deserialize_element (object id timestamp priority (string s)) =
    parsed (record { id = id; timestamp = timestamp; priority = priority; context = some s })
deserialize_element (object id timestamp priority null) =
    parsed (record { id = id; timestamp = timestamp; priority = priority; context = none })
deserialize_element (object id timestamp priority undefined) =
    parsed (record { id = id; timestamp = timestamp; priority = priority; context = none })
deserialize_element (object id timestamp priority other) = mismatch

-- How the loop over the entries ends.
pub data Outcome : Type 0 where
  finished returned caught : Cache → Outcome

unfoldable pub merge_entries : Cache → List Node → Outcome
unfolding deserialize_element receive clear_cache
merge_entries c [] = finished c
merge_entries c (n ∷ ns) = elim (deserialize_element n) [
  | parsed e ↦ merge_entries (receive c e) ns
  | mismatch ↦ returned (clear_cache c)
  | thrown ↦ caught (clear_cache c)
]

-- A mismatch returns from the function; an exception is caught, and the capacity is checked.
unfoldable pub after_entries : Outcome → Cache
unfolding check_cache_capacity
after_entries (finished c) = check_cache_capacity c
after_entries (returned c) = c
after_entries (caught c) = check_cache_capacity c

unfoldable pub deserialize_query_context : Cache → Payload → Cache
unfolding merge_entries after_entries clear_cache check_cache_capacity
deserialize_query_context c falsy = clear_cache c
deserialize_query_context c empty_object = clear_cache c
deserialize_query_context c null_entries = clear_cache c
deserialize_query_context c not_an_array = check_cache_capacity c
deserialize_query_context c (entries ns) = after_entries (merge_entries c ns)

-- An entry of the `queryContextDTO` of a request.
pub record DtoEntry : Type 0 where
  pub id : ℕ
  pub timestamp : ℕ
  pub priority : ℕ
  pub base64_data : Option String

unfoldable pub dto_entry : Element → DtoEntry
dto_entry e = record {
  id = e.id;
  timestamp = e.timestamp;
  priority = e.priority;
  base64_data = e.context;
}

unfoldable pub get_query_context_dto : Cache → List DtoEntry
unfolding dto_entry get_elements
get_query_context_dto c = map dto_entry (get_elements c)

-- `context || null`: an empty text is sent as `null`.
unfoldable pub serialize_context : Option String → ContextField
serialize_context none = null
serialize_context (some s) = if str_eq s "" then null else string s

unfoldable pub serialize_entry : Element → Node
unfolding serialize_context
serialize_entry e = object e.id e.timestamp e.priority (serialize_context e.context)

unfoldable pub get_serialize_query_context : Cache → Payload
unfolding serialize_entry get_elements
get_serialize_query_context c = entries (map serialize_entry (get_elements c))

abbrev three : List Node
three = object 0 5 2 (string "a") ∷ object 1 5 0 null ∷ object 2 6 1 (string "c") ∷ []

ordered :
    map
      (λ (e : DtoEntry). e.id)
      (get_query_context_dto (deserialize_query_context (new_cache 2) (entries three)))
    ≡ 1 ∷ 2 ∷ []
unfolding get_query_context_dto deserialize_query_context new_cache
ordered = refl
