-- ===== src/Connection.antt =====
-- lib/connection/connection.js: the status of queries and the wait for a result, over
-- lib/constants/query_status.js.
pub mod Polling
mod Examples
use snowflake_connector_node.Prelude.{
  ℕ, zero, suc, ◌+◌, ◌*◌, Bool, true, false, ◌&&◌, ◌||◌, not, Option, none, some, List, [], ◌∷◌,
  ltb, length, get_elem?, if◌then◌else◌,
}
use snowflake_connector_node.Service.Tokens.{TokenInfo, Expiry, nan, at}

-- QueryStatus.code; any other text is `unknown_status`.
pub data QueryStatus : Type 0 where
  running aborting success failed_with_error aborted queued failed_with_incident disconnected
        resuming_warehouse queued_reparing_warehouse restarted blocked no_data no_query_data
        unknown_status :
      QueryStatus

-- isStillRunning
unfoldable pub is_still_running : QueryStatus → Bool
is_still_running running = true
is_still_running resuming_warehouse = true
is_still_running queued = true
is_still_running queued_reparing_warehouse = true
is_still_running no_data = true
is_still_running _ = false

-- isAnError
unfoldable pub is_an_error : QueryStatus → Bool
is_an_error aborting = true
is_an_error failed_with_error = true
is_an_error aborted = true
is_an_error failed_with_incident = true
is_an_error disconnected = true
is_an_error blocked = true
is_an_error _ = false

-- The queries of a response, by status; `none` is a response without them.
abbrev pub QueryResponse : Type 0
QueryResponse = Option (List QueryStatus)

unfoldable pub extract_query_status : QueryResponse → QueryStatus
extract_query_status none = no_query_data
extract_query_status (some []) = no_query_data
extract_query_status (some (s ∷ ss)) = s

-- What getQueryStatusThrowIfError returns or throws.
pub data StatusResult : Type 0 where
  status : QueryStatus → StatusResult
  operation_failed_error : QueryStatus → StatusResult

unfoldable pub get_query_status_throw_if_error : QueryResponse → StatusResult
unfolding extract_query_status is_an_error
get_query_status_throw_if_error r =
    let s = extract_query_status r in if is_an_error s then operation_failed_error s else status s

-- How getResultsFromQueryId ends; it is `waiting` where more responses are wanted.
pub data Outcome : Type 0 where
  fetches_result waiting : Outcome
  throws_failed : QueryStatus → Outcome
  throws_no_data throws_not_success : QueryStatus → Outcome

-- The times waited, in milliseconds, and the end.
pub record Polled : Type 0 where
  pub waits : List ℕ
  pub outcome : Outcome

unfoldable pub async_no_data_max_retry : ℕ
async_no_data_max_retry = 24

unfoldable pub async_retry_pattern : List ℕ
async_retry_pattern = 1 ∷ 1 ∷ 2 ∷ 3 ∷ 4 ∷ 8 ∷ 10 ∷ []

unfoldable pub async_retry_in_milliseconds : ℕ
async_retry_in_milliseconds = 500

abbrev pub factor : Option ℕ → ℕ
factor none = 0
factor (some n) = n

-- The timeout at a place of the retry pattern.
unfoldable pub timeout : ℕ → ℕ
unfolding async_retry_in_milliseconds async_retry_pattern
timeout pos = async_retry_in_milliseconds * factor (get_elem? async_retry_pattern pos)

-- The next place of the retry pattern, which stays at the last one.
unfoldable pub next_pos : ℕ → ℕ
unfolding async_retry_pattern
next_pos pos = if ltb (suc pos) (length async_retry_pattern) then suc pos else pos

-- After the loop.
unfoldable pub verdict : QueryStatus → Outcome
verdict no_query_data = throws_no_data no_query_data
verdict success = fetches_result
verdict s = throws_not_success s

unfoldable pub is_no_data : QueryStatus → Bool
is_no_data no_data = true
is_no_data _ = false

abbrev pub waited : ℕ → Polled → Polled
waited t p = record p { waits = t ∷ p.waits }

-- The loop of getResultsFromQueryId over the responses of the server: how often there was no data,
-- and the place in the retry pattern.
unfoldable pub poll : ℕ → ℕ → List QueryResponse → Polled
unfolding is_still_running is_no_data timeout next_pos verdict get_query_status_throw_if_error
    async_no_data_max_retry
poll counter pos [] = record { waits = []; outcome = waiting }
poll counter pos (r ∷ rs) = elim (get_query_status_throw_if_error r) [
  | operation_failed_error s ↦ record { waits = []; outcome = throws_failed s }
  | status s ↦
      let counted = if is_no_data s then suc counter else counter in
      let rest = poll counted (next_pos pos) rs in
      if not (is_still_running s)
      then record { waits = []; outcome = verdict s }
      else if is_no_data s && ltb async_no_data_max_retry counted
      then record { waits = timeout pos ∷ []; outcome = throws_no_data s }
      else waited (timeout pos) rest
]

unfoldable pub get_results_from_query_id : List QueryResponse → Polled
unfolding poll
get_results_from_query_id rs = poll 0 0 rs

-- isTokenValid: both tokens expire after now; a time that is missing or not a number does not.
unfoldable pub is_after : ℕ → Option Expiry → Bool
is_after now none = false
is_after now (some nan) = false
is_after now (some (at t)) = ltb now t

unfoldable pub is_token_valid : ℕ → TokenInfo → Bool
unfolding is_after
is_token_valid now t =
    is_after now t.session_token_expiration_time && is_after now t.master_token_expiration_time
