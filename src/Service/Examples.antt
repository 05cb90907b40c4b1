-- ===== src/Service/Examples.antt =====
-- The service of lib/services/sf.js at concrete calls and answers.
use snowflake_connector_node.Prelude.{
  arith, ◌+◌, ◌≤◌, ◌≡◌, refl, List, [], ◌∷◌, true, false, none, some,
}
use snowflake_connector_node.Prelude.Int.{pos, ◌+ℤ◌, ◌-ℤ◌}
use snowflake_connector_node.Service.Tokens.{TokenData, no_tokens}
use snowflake_connector_node.Service.State.{
  disconnected, session_token_expired, other_code, network_error, Failure, other_auth, okta, Config,
  done,
}
use snowflake_connector_node.Service.Calls.{
  request, connect, new_service, drain_operation_queue, initialize_query_context_cache,
}
use snowflake_connector_node.Service.Login.{on_login, is_okta, retries_login, login_ok, login_error}
use snowflake_connector_node.Service.Okta.{OktaAnswers, reauthenticate, reauthenticated}
use snowflake_connector_node.Service.Stuck.{IsStuck, first_attempt, unlimited-IsStuck}
use snowflake_connector_node.Service.Responses.{renew_ok, on_request, on_renew}
use snowflake_connector_node.Service.Network.{
  Answers, Event, connects, requests, answered, run, step,
}
use snowflake_connector_node.Service.Located.{located, in_replies, submitted, submits}
use snowflake_connector_node.Service.Conservation.{located-run, located-step, answers-bounded}
use snowflake_connector_node.Retry.{is_retryable_error, should_retry_okta_auth}
use snowflake_connector_node.Service.Answered.{idle-Answered}
use snowflake_connector_node.Service.Revival.{disconnected-tokens}

abbrev cfg : Config
cfg = record {
  max_login_retries = 3;
  retry_timeout = 10;
  starting_sleep_time = pos 1;
  server_session_keep_alive = false;
  disable_query_context_cache = false;
  auth = other_auth;
}

abbrev token_data : TokenData
token_data = record {
  master_token = some "master";
  token = some "session";
  session_token = none;
  master_validity_in_seconds = some 3600;
  validity_in_seconds_mt = none;
  validity_in_seconds = some 60;
  validity_in_seconds_st = none;
}

abbrev lost : Failure
lost = record { kind = network_error; code = other_code; status = some 503; cause = none }

abbrev expired : Failure
expired = record {
  kind = network_error;
  code = session_token_expired;
  status = some 200;
  cause = none;
}

-- Okta gives a response at once.
abbrev okta_answers : OktaAnswers
okta_answers = record {
  start_time = 100;
  now = λ i. 100;
  saml = λ i. some true;
  checked = 101;
  end_time = 101;
}

abbrev answers : Answers
answers = record {
  now = 5;
  next = pos 4;
  login_result =
      login_ok (record { session_id = 7; tokens = token_data; query_context_cache_size = 5 });
  renew_result = renew_ok token_data;
  result = none;
  okta_answers = okta_answers;
}

-- A login, a request that was queued, and one whose token expired and that was sent again.
abbrev session : List Event
session =
    answered 0 answers
    ∷ answered 0 answers
    ∷ answered 0 (record answers { result = some expired })
    ∷ requests 3
    ∷ answered 0 answers
    ∷ answered 0 answers
    ∷ requests 2
    ∷ connects 1
    ∷ []

abbrev failing : List Event
failing =
    answered 0 (record answers { login_result = login_error (record lost { status = some 403 }) })
    ∷ connects 1
    ∷ []

session-waiting : (run cfg no_tokens session).waiting ≡ []
unfolding run step no_tokens request connect new_service on_login drain_operation_queue
    initialize_query_context_cache on_request on_renew
session-waiting = refl

session-rejected : (run cfg no_tokens session).rejected ≡ []
unfolding run step no_tokens request connect new_service on_login drain_operation_queue
    initialize_query_context_cache on_request on_renew
session-rejected = refl

session-replies : (run cfg no_tokens session).replies ≡ (1, done) ∷ (2, done) ∷ (3, done) ∷ []
unfolding run step no_tokens request connect new_service on_login drain_operation_queue
    initialize_query_context_cache on_request on_renew
session-replies = refl

failing-current : (run cfg no_tokens failing).current ≡ disconnected
unfolding run step no_tokens connect new_service on_login drain_operation_queue is_retryable_error
failing-current = refl

located-run_example : located 2 (run cfg no_tokens session) ≡ submitted 2 session
located-run_example = located-run 2 cfg no_tokens session

located-step_example :
    located 1 (step cfg (run cfg no_tokens (connects 1 ∷ [])) (answered 0 answers))
    ≡ located 1 (run cfg no_tokens (connects 1 ∷ [])) + submits 1 (answered 0 answers)
located-step_example = located-step 1 cfg (run cfg no_tokens (connects 1 ∷ [])) (answered 0 answers)

answers-bounded_example : in_replies 3 (run cfg no_tokens session).replies ≤ submitted 3 session
answers-bounded_example = answers-bounded 3 cfg no_tokens session

idle-Answered_example : in_replies 3 (run cfg no_tokens session).replies ≡ submitted 3 session
idle-Answered_example = idle-Answered 3 cfg no_tokens session session-waiting session-rejected

disconnected-tokens_example : (run cfg no_tokens failing).tokens ≡ no_tokens
disconnected-tokens_example = disconnected-tokens cfg no_tokens failing failing-current

-- Okta without a retry timeout, whose first login is answered by 503.
abbrev unlimited : Config
unlimited = record cfg { auth = okta; retry_timeout = 0 }

unlimited-retries : retries_login unlimited (first_attempt unlimited 1) lost ≡ true
unfolding retries_login is_retryable_error
unlimited-retries = refl

okta-is_okta : is_okta okta ≡ true
unfolding is_okta
okta-is_okta = refl

unlimited-IsStuck_example :
    (let s = run unlimited no_tokens (
        requests 2
        ∷ answered 0 answers
        ∷ answered 0 (record answers { login_result = login_error lost })
        ∷ connects 1
        ∷ []) in
      IsStuck s × (in_replies 2 s.replies ≡ 0))
unlimited-IsStuck_example =
    unlimited-IsStuck 2 1 unlimited (record answers { login_result = login_error lost }) answers
      lost (requests 2 ∷ []) okta-is_okta refl refl unlimited-retries refl (omega arith)

-- With the retry timeout of 10 seconds the same reauthentication is followed by the next attempt.
limited-reauthenticated : reauthenticate cfg okta_answers 1 (pos 4) ≡ reauthenticated 1 (pos 5)
unfolding reauthenticate should_retry_okta_auth ◌+ℤ◌ ◌-ℤ◌
limited-reauthenticated = refl
