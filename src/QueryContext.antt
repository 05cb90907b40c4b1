-- ===== src/QueryContext.antt =====
-- lib/queryContextCache.js: the cache of query contexts that a connection keeps. The three
-- containers of the source share mutable element objects, so the model has an object store and the
-- containers hold references into it. Identifiers, timestamps and priorities are natural numbers.
pub mod Order
pub mod Members
pub mod Valid
pub mod Capacity
pub mod Merge
pub mod Collision
pub mod Wire
pub mod Received
pub mod Request
pub mod Keyed
pub mod RoundTrip
mod Examples
use snowflake_connector_node.Prelude.{
  ℕ, zero, suc, String, Bool, true, false, ◌&&◌, ◌||◌, not, Option, none, some, List, [], ◌∷◌, ◌++◌,
  map, length, ltb, leb, ◌==◌, if◌then◌else◌, NatMap, map_empty, map_set, map_delete,
}

pub record Element : Type 0 where
  pub id : ℕ
  pub timestamp : ℕ
  pub priority : ℕ
  pub context : Option String

-- `objects` is the heap; references below `allocated` are in use. `id_map` and `priority_map` are
-- `Map`s, and `tree_set` is a `Set` in its insertion order.
pub record Cache : Type 0 where
  pub capacity : ℕ
  pub objects : ℕ → Element
  pub allocated : ℕ
  pub id_map : NatMap ℕ
  pub priority_map : NatMap ℕ
  pub tree_set : List ℕ

abbrev pub blank : Element
blank = record { id = 0; timestamp = 0; priority = 0; context = none }

unfoldable pub new_cache : ℕ → Cache
new_cache capacity = record {
  capacity = capacity;
  objects = λ r. blank;
  allocated = 0;
  id_map = map_empty;
  priority_map = map_empty;
  tree_set = [];
}

-- Set.prototype.has, add and delete, on references.
unfoldable pub set_has : ℕ → List ℕ → Bool
set_has r [] = false
set_has r (x ∷ xs) = r == x || set_has r xs

unfoldable pub set_add : ℕ → List ℕ → List ℕ
unfolding set_has
set_add r xs = if set_has r xs then xs else xs ++ r ∷ []

unfoldable pub set_delete : ℕ → List ℕ → List ℕ
set_delete r [] = []
set_delete r (x ∷ xs) = if r == x then xs else x ∷ set_delete r xs

-- Array.prototype.sort with `a.priority - b.priority`: a stable sort.
unfoldable pub insert_by : (ℕ → ℕ) → ℕ → List ℕ → List ℕ
insert_by key x [] = x ∷ []
insert_by key x (y ∷ ys) = if leb (key x) (key y) then x ∷ y ∷ ys else y ∷ insert_by key x ys

unfoldable pub sort_by : (ℕ → ℕ) → List ℕ → List ℕ
unfolding insert_by
sort_by key [] = []
sort_by key (x ∷ xs) = insert_by key x (sort_by key xs)

unfoldable pub sort_tree_set : Cache → Cache
unfolding sort_by
sort_tree_set c = record c { tree_set = sort_by (λ r. (c.objects r).priority) c.tree_set }

unfoldable pub add_qce : Cache → ℕ → Cache
unfolding sort_tree_set set_add
add_qce c r = sort_tree_set (record c {
  id_map = map_set (c.objects r).id r c.id_map;
  priority_map = map_set (c.objects r).priority r c.priority_map;
  tree_set = set_add r c.tree_set;
})

unfoldable pub remove_qce : Cache → ℕ → Cache
unfolding set_delete
remove_qce c r = record c {
  id_map = map_delete (c.objects r).id c.id_map;
  priority_map = map_delete (c.objects r).priority c.priority_map;
  tree_set = set_delete r c.tree_set;
}

unfoldable pub replace_qce : Cache → ℕ → ℕ → Cache
unfolding add_qce remove_qce
replace_qce c old new = add_qce (remove_qce c old) new

-- `qce.timestamp = …; qce.context = …` writes to the shared object.
unfoldable pub overwrite : Cache → ℕ → Element → Cache
overwrite c r e = record c {
  objects = λ j.
      if r == j
      then record (c.objects r) { timestamp = e.timestamp; context = e.context }
      else c.objects j;
}

-- The branch of `merge` for an identifier that the cache holds, at `old`.
unfoldable pub merge_known : Cache → ℕ → ℕ → Cache
unfolding overwrite replace_qce
merge_known c old new =
    let qce = c.objects old in
    let new_qce = c.objects new in
    if ltb qce.timestamp new_qce.timestamp
    then (if qce.priority == new_qce.priority
        then overwrite c old new_qce
        else replace_qce c old new)
    else if new_qce.timestamp == qce.timestamp && not (qce.priority == new_qce.priority)
    then replace_qce c old new
    else c

-- The branch for a new identifier.
unfoldable pub merge_unknown : Cache → ℕ → Cache
unfolding replace_qce add_qce
merge_unknown c new = elim (c.priority_map (c.objects new).priority) [
  | some old ↦ replace_qce c old new
  | none ↦ add_qce c new
]

unfoldable pub merge : Cache → ℕ → Cache
unfolding merge_known merge_unknown
merge c new = elim (c.id_map (c.objects new).id) [
  | some old ↦ merge_known c old new
  | none ↦ merge_unknown c new
]

-- new QueryContextElement(…): the reference of the new object is `c.allocated`.
unfoldable pub allocate : Cache → Element → Cache
allocate c e = record c {
  objects = λ j. if c.allocated == j then e else c.objects j;
  allocated = suc c.allocated;
}

-- An element that arrives is allocated, then merged.
unfoldable pub receive : Cache → Element → Cache
unfolding allocate merge
receive c e = merge (allocate c e) c.allocated

-- Array.from(this.treeSet).pop(): the last element.
unfoldable pub last_of : ℕ → List ℕ → ℕ
last_of x [] = x
last_of x (y ∷ ys) = last_of y ys

unfoldable pub pop_last : Cache → Cache
unfolding last_of remove_qce
pop_last c = elim c.tree_set [ [] ↦ c | x ∷ xs ↦ remove_qce c (last_of x xs) ]

-- `while (treeSet.size > capacity)`, on fuel; the size of the set is enough.
unfoldable pub shrink : ℕ → Cache → Cache
unfolding pop_last
shrink zero c = c
shrink (suc fuel) c =
    let rest = shrink fuel (pop_last c) in if ltb c.capacity (length c.tree_set) then rest else c

unfoldable pub check_cache_capacity : Cache → Cache
unfolding shrink
check_cache_capacity c = shrink (length c.tree_set) c

unfoldable pub clear_cache : Cache → Cache
clear_cache c = record c { id_map = map_empty; priority_map = map_empty; tree_set = [] }

unfoldable pub get_size : Cache → ℕ
get_size c = length c.tree_set

-- getElements(): the elements in the order of the set.
unfoldable pub get_elements : Cache → List Element
get_elements c = map c.objects c.tree_set
