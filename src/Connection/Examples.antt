-- ===== src/Connection/Examples.antt =====
-- The wait for a result at concrete responses.
use snowflake_connector_node.Prelude.{
  ℕ, zero, suc, some, List, [], ◌∷◌, ◌++◌, All, length, true, false, ◌≡◌, refl, ◌≤◌, arith,
}
use snowflake_connector_node.Connection.{
  QueryStatus, running, queued, success, no_data, QueryResponse, extract_query_status,
  fetches_result, get_results_from_query_id, is_still_running, is_no_data, poll,
}
use snowflake_connector_node.Connection.Polling.{
  IsRunning, count_no_data, waits_from, final, get_results-final,
}

abbrev just : QueryStatus → QueryResponse
just s = some (s ∷ [])

abbrev before : List QueryResponse
before = just queued ∷ just no_data ∷ just running ∷ []

before-IsRunning : All IsRunning before
unfolding is_still_running extract_query_status
before-IsRunning = (refl, (refl, (refl, tt)))

before-no_data : count_no_data before ≤ 24
unfolding count_no_data is_no_data extract_query_status
before-no_data = omega arith

success_ends : is_still_running (extract_query_status (just success)) ≡ false
unfolding is_still_running extract_query_status
success_ends = refl

waited_thrice :
    get_results_from_query_id (before ++ just success ∷ [])
    ≡ record { waits = 500 ∷ 500 ∷ 1000 ∷ []; outcome = fetches_result }
unfolding get_results_from_query_id poll
waited_thrice = refl

get_results-final_example : get_results_from_query_id (before ++ just success ∷ []) ≡ record {
  waits = waits_from 0 (length before);
  outcome = final (extract_query_status (just success));
}
get_results-final_example =
    get_results-final before (just success) [] before-IsRunning before-no_data success_ends

abbrev repeated : ℕ → List QueryResponse
repeated zero = []
repeated (suc n) = just no_data ∷ repeated n

abbrev nothing_yet : List QueryResponse
nothing_yet = repeated 24

repeated-IsRunning : (n : ℕ) → All IsRunning (repeated n)
unfolding is_still_running extract_query_status
repeated-IsRunning zero = tt
repeated-IsRunning (suc n) = (refl, repeated-IsRunning n)

nothing_yet-IsRunning : All IsRunning nothing_yet
nothing_yet-IsRunning = repeated-IsRunning 24

nothing_yet-no_data : count_no_data nothing_yet ≡ 24
unfolding count_no_data is_no_data extract_query_status
nothing_yet-no_data = refl

no_data_again : is_no_data (extract_query_status (just no_data)) ≡ true
unfolding is_no_data extract_query_status
no_data_again = refl
