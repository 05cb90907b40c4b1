-- ===== src/Retry/Examples.antt =====
-- The retry theorems at concrete inputs.
use snowflake_connector_node.Prelude.{ℕ, ◌/◌, ◌≤◌, ◌≡◌, refl, false, none, some, [], ◌∷◌, arith}
use snowflake_connector_node.Retry.{is_retryable_http_error}
use snowflake_connector_node.Retry.LargeResultSet.{
  Answer, Settings, failed, body, is_failure, is_retryable, get_object,
}
use snowflake_connector_node.Retry.Bounds.{TriesAgain, get_object-succeeds}

abbrev half : ℕ → ℕ
half d = d / 2

half-le : (d : ℕ) → half d ≤ d
half-le d = omega arith

abbrev cfg : Settings
cfg = record { max_num_retries = 2; max_sleep_time = 60; random = half }

abbrev throttled : Answer
throttled = record {
  error = none;
  response = some (record { status = 429; is_xml = false });
  body = "";
}

abbrev reset : Answer
reset = record { error = some failed; response = none; body = "" }

abbrev good : Answer
good = record {
  error = none;
  response = some (record { status = 200; is_xml = false });
  body = "1,2";
}

throttled-TriesAgain : TriesAgain throttled
unfolding is_failure is_retryable is_retryable_http_error
throttled-TriesAgain = (refl, refl)

reset-TriesAgain : TriesAgain reset
unfolding is_failure is_retryable is_retryable_http_error
reset-TriesAgain = (refl, refl)

good_is_no_failure : is_failure good ≡ false
unfolding is_failure
good_is_no_failure = refl

get_object-succeeds_example :
    get_object cfg (throttled ∷ reset ∷ good ∷ [])
    ≡ record { requests = 3; delivery = some (body "1,2") }
get_object-succeeds_example =
    get_object-succeeds cfg (throttled ∷ reset ∷ []) good []
      (throttled-TriesAgain, (reset-TriesAgain, tt)) (omega arith) good_is_no_failure
