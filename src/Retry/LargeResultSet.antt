-- ===== src/Retry/LargeResultSet.antt =====
-- getObject of lib/services/large_result_set.js: a download that is repeated until it succeeds, an
-- error is final, or the retries are used up.
use snowflake_connector_node.Prelude.{
  ℕ, suc, Bool, true, false, not, ◌&&◌, ◌||◌, Option, none, some, List, [], ◌∷◌, ltb, ◌==◌,
  if◌then◌else◌, String,
}
use snowflake_connector_node.Retry.{is_retryable_http_error, next_sleep_time}

-- The client error of a request, if any.
pub data ClientError : Type 0 where
  canceled : ClientError
  failed : ClientError

pub record Response : Type 0 where
  pub status : ℕ
  pub is_xml : Bool

-- What the HTTP client calls back with.
pub record Answer : Type 0 where
  pub error : Option ClientError
  pub response : Option Response
  pub body : String

-- What the caller of getObject is called back with.
pub data Delivery : Type 0 where
  body : String → Delivery
  response_failure could_not_connect : Delivery

unfoldable pub is_retryable_client_error : Option ClientError → Bool
is_retryable_client_error none = false
is_retryable_client_error (some canceled) = false
is_retryable_client_error (some failed) = true

abbrev pub status_of : Option Response → Option ℕ
status_of none = none
status_of (some r) = some r.status

unfoldable pub is_retryable : Answer → Bool
unfolding is_retryable_client_error
is_retryable a =
    is_retryable_http_error (status_of a.response) true || is_retryable_client_error a.error

unfoldable pub is_unsuccessful_response : Option Response → Bool
is_unsuccessful_response none = false
is_unsuccessful_response (some r) = not (r.status == 200) || r.is_xml

abbrev pub is_error : Option ClientError → Bool
is_error none = false
is_error (some e) = true

unfoldable pub is_failure : Answer → Bool
unfolding is_unsuccessful_response
is_failure a = is_error a.error || is_unsuccessful_response a.response

-- The variables of getObject between two requests.
pub record Progress : Type 0 where
  pub num_retries : ℕ
  pub sleep : ℕ

pub data Reaction : Type 0 where
  deliver : Delivery → Reaction
  retry_after : Progress → Reaction

pub record Settings : Type 0 where
  pub max_num_retries : ℕ
  pub max_sleep_time : ℕ
  pub random : ℕ → ℕ

-- The callback of one request.
unfoldable pub on_answer : Settings → Progress → Answer → Reaction
unfolding is_failure is_retryable
on_answer cfg p a =
    if is_failure a
    then (if ltb p.num_retries cfg.max_num_retries && is_retryable a
        then retry_after (record {
          num_retries = suc p.num_retries;
          sleep = next_sleep_time cfg.random 1 cfg.max_sleep_time p.sleep;
        })
        else if is_unsuccessful_response a.response
        then deliver response_failure
        else deliver could_not_connect)
    else deliver (body a.body)

-- How many requests were sent for the answers that came, and what was delivered, if anything.
pub record Run : Type 0 where
  pub requests : ℕ
  pub delivery : Option Delivery

unfoldable pub one_more : Run → Run
one_more r = record r { requests = suc r.requests }

-- The requests of getObject against the answers that the store would give, one for each.
unfoldable pub requests_from : Settings → Progress → List Answer → Run
unfolding on_answer one_more
requests_from cfg p [] = record { requests = 0; delivery = none }
requests_from cfg p (a ∷ rest) = elim (on_answer cfg p a) [
  | deliver d ↦ record { requests = 1; delivery = some d }
  | retry_after q ↦ one_more (requests_from cfg q rest)
]

unfoldable pub get_object : Settings → List Answer → Run
unfolding requests_from
get_object cfg answers = requests_from cfg (record { num_retries = 0; sleep = 1 }) answers
