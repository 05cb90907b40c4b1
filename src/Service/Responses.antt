-- ===== src/Service/Responses.antt =====
-- The callbacks of the other requests of lib/services/sf.js: a client's request, the deletion of the
-- session, and the renewal of the tokens.
use snowflake_connector_node.Prelude.{ℕ, Bool, true, false, Option, none, some, if◌then◌else◌}
use snowflake_connector_node.Service.Tokens.{TokenData, update}
use snowflake_connector_node.Service.State.{
  connected, renewing, GsCode, session_token_invalid, gone_session, session_token_expired,
  master_token_expired, other_code, ErrorKind, network_error, Failure, done, failure, request_op,
  Config, Service, reply, enqueue, request_failed_error, other_error,
}
use snowflake_connector_node.Service.Calls.{
  transition_to, transition_to_disconnected, drain_operation_queue,
}

-- The callback that StateConnected.request wraps around the client's, by the error's code.
unfoldable pub on_request_error : Config → ℕ → GsCode → Failure → Service → Service
on_request_error cfg call session_token_expired f s =
    transition_to cfg renewing none (enqueue (request_op call) s)
on_request_error cfg call session_token_invalid f s =
    drain_operation_queue cfg (transition_to_disconnected cfg (enqueue (request_op call) s))
on_request_error cfg call gone_session f s =
    drain_operation_queue cfg (transition_to_disconnected cfg (enqueue (request_op call) s))
on_request_error cfg call master_token_expired f s = reply call (failure f) s
on_request_error cfg call other_code f s = reply call (failure f) s

unfoldable pub on_request : Config → ℕ → Option Failure → Service → Service
unfolding on_request_error
on_request cfg call none s = reply call done s
on_request cfg call (some f) s = on_request_error cfg call f.code f s

-- The callback of StateConnected.destroy: a session that is gone or expired counts as deleted.
unfoldable pub on_delete_error : Config → ℕ → GsCode → Failure → Service → Service
on_delete_error cfg call gone_session f s = reply call done (transition_to_disconnected cfg s)
on_delete_error cfg call session_token_expired f s =
    reply call done (transition_to_disconnected cfg s)
on_delete_error cfg call session_token_invalid f s = reply call (failure f) s
on_delete_error cfg call master_token_expired f s = reply call (failure f) s
on_delete_error cfg call other_code f s = reply call (failure f) s

unfoldable pub on_delete : Config → ℕ → Option Failure → Service → Service
unfolding on_delete_error
on_delete cfg call none s = reply call done (transition_to_disconnected cfg s)
on_delete cfg call (some f) s = on_delete_error cfg call f.code f s

-- isNetworkError
unfoldable pub is_network_error : ErrorKind → Bool
is_network_error network_error = true
is_network_error request_failed_error = false
is_network_error other_error = false

abbrev pub is_master_token_expired : GsCode → Bool
is_master_token_expired master_token_expired = true
is_master_token_expired session_token_invalid = false
is_master_token_expired gone_session = false
is_master_token_expired session_token_expired = false
is_master_token_expired other_code = false

pub data RenewResult : Type 0 where
  renew_ok : TokenData → RenewResult
  renew_error : Failure → RenewResult

-- The state after a failed renewal: a network error is tried again by the next request.
unfoldable pub after_renew_error : Config → Failure → Service → Service
unfolding is_network_error
after_renew_error cfg f s =
    if is_master_token_expired f.code
    then transition_to_disconnected cfg s
    else if is_network_error f.kind
    then transition_to cfg connected none s
    else transition_to_disconnected cfg s

-- The callback of StateRenewing.enter.
unfoldable pub on_renew : Config → ℕ → RenewResult → Service → Service
unfolding after_renew_error
on_renew cfg now (renew_ok d) s =
    drain_operation_queue cfg
      (transition_to cfg connected none (record s { tokens = update now d s.tokens }))
on_renew cfg now (renew_error f) s = drain_operation_queue cfg (after_renew_error cfg f s)
