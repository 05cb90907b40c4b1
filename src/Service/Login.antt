-- ===== src/Service/Login.antt =====
-- The callback of the login request, in StateConnecting.continue of lib/services/sf.js.
use snowflake_connector_node.Prelude.{
  ℕ, suc, Bool, true, false, ◌&&◌, ◌||◌, none, some, ltb, ◌==◌, if◌then◌else◌, [], ◌∷◌, ◌++◌,
}
use snowflake_connector_node.Prelude.Int.{ℤ, pos, ltb_ℤ, leb_ℤ}
use snowflake_connector_node.Service.Okta.{
  Reauthentication, reauthenticated, reauthentication_failed,
}
use snowflake_connector_node.Retry.{is_retryable_error, get_jittered_sleep_time}
use snowflake_connector_node.Service.Tokens.{TokenData, update}
use snowflake_connector_node.Service.State.{
  ErrorKind, network_error, request_failed_error, other_error, connected, Failure, Reply, done,
  failure, Attempt, retry_timer, reauthentication, AuthKind, okta, key_pair, other_auth, Config,
  Service, send, reply,
}
use snowflake_connector_node.Service.Calls.{
  transition_to, transition_to_disconnected, drain_operation_queue, initialize_query_context_cache,
}

-- The body of a login response, with the parameter QUERY_CONTEXT_CACHE_SIZE as it stands after the
-- response's parameters are taken over.
pub record LoginData : Type 0 where
  pub session_id : ℕ
  pub tokens : TokenData
  pub query_context_cache_size : ℕ

pub data LoginResult : Type 0 where
  login_ok : LoginData → LoginResult
  login_error : Failure → LoginResult

-- The callback of the connect call, and then the queue.
unfoldable pub finish_login : Config → ℕ → Reply → Service → Service
finish_login cfg call r s = drain_operation_queue cfg (reply call r s)

unfoldable pub on_login_ok : Config → ℕ → ℕ → LoginData → Service → Service
on_login_ok cfg now call d s =
    let known = record s {
      session_id = some d.session_id;
      tokens = update now d.tokens s.tokens;
    } in
    finish_login cfg call done (
      initialize_query_context_cache cfg d.query_context_cache_size
        (transition_to cfg connected none known))

unfoldable pub is_network_or_request_failed : ErrorKind → Bool
is_network_or_request_failed network_error = true
is_network_or_request_failed request_failed_error = true
is_network_or_request_failed other_error = false

-- Whether the login is tried again.
unfoldable pub retries_login : Config → Attempt → Failure → Bool
unfolding is_network_or_request_failed
retries_login cfg a f =
    is_network_or_request_failed f.kind
    && ltb a.num_retries cfg.max_login_retries
    && is_retryable_error f.status f.cause
    && (cfg.retry_timeout == 0 || ltb_ℤ a.total_elapsed_time (pos cfg.retry_timeout))

-- The next attempt, `next` being the drawn sleep.
unfoldable pub next_attempt : Config → ℤ → Attempt → Attempt
next_attempt cfg next a =
    let j = get_jittered_sleep_time next a.total_elapsed_time cfg.retry_timeout in
    record {
      call = a.call;
      num_retries = suc a.num_retries;
      sleep = j.sleep;
      total_elapsed_time = j.total_elapsed_time;
    }

unfoldable pub is_okta : AuthKind → Bool
is_okta okta = true
is_okta key_pair = false
is_okta other_auth = false

-- Out of time, the service is disconnected, and yet the request is sent again; with Okta after its
-- reauthentication. That of a key pair neither waits nor throws.
unfoldable pub retry_login : Config → Attempt → Service → Service
unfolding is_okta
retry_login cfg a s =
    let t = if leb_ℤ a.sleep (pos 0) then transition_to_disconnected cfg s else s in
    if is_okta cfg.auth then send (reauthentication a) t else send (retry_timer a) t

-- The promise of the callback is rejected: no request is sent again, the callback of the connect
-- call is not called, and the queue stays as it is.
unfoldable pub reject : ℕ → Service → Service
reject call s = record s { rejected = s.rejected ++ call ∷ [] }

-- The rest of the callback after the reauthentication, which sets the retries and the time used.
unfoldable pub on_reauthentication : Attempt → Reauthentication → Service → Service
unfolding reject
on_reauthentication a (reauthenticated n elapsed) s =
    send (retry_timer (record a { num_retries = n; total_elapsed_time = elapsed })) s
on_reauthentication a reauthentication_failed s = reject a.call s

unfoldable pub on_login_error : Config → ℤ → Attempt → Failure → Service → Service
unfolding retries_login next_attempt retry_login finish_login
on_login_error cfg next a f s =
    if retries_login cfg a f
    then retry_login cfg (next_attempt cfg next a) s
    else finish_login cfg a.call (failure f) (transition_to_disconnected cfg s)

-- `requestCallback`; `now` is the time, and `next` the sleep that a retry would draw.
unfoldable pub on_login : Config → ℕ → ℤ → Attempt → LoginResult → Service → Service
unfolding on_login_ok on_login_error
on_login cfg now next a (login_ok d) s = on_login_ok cfg now a.call d s
on_login cfg now next a (login_error f) s = on_login_error cfg next a f s
