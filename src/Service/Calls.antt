-- ===== src/Service/Calls.antt =====
-- The calls of the service of lib/services/sf.js, by state, and the transitions between states.
use snowflake_connector_node.Prelude.{
  ℕ, Bool, true, false, ◌||◌, Option, none, some, List, [], ◌∷◌, if◌then◌else◌,
}
use snowflake_connector_node.Prelude.Int.{pos}
use snowflake_connector_node.QueryContext.{clear_cache, new_cache}
use snowflake_connector_node.Service.Tokens.{TokenInfo, is_empty, clear_tokens}
use snowflake_connector_node.Service.State.{
  ConnectionState, pristine, connecting, connected, renewing, disconnected, Operation, request_op,
  destroy_op, done, request_pristine, request_disconnected, destroy_pristine, destroy_disconnected,
  connect_connecting, connect_connected, connect_disconnected, login, session_request,
  delete_session, renew, Config, Service, send, reply, enqueue,
}

-- currentState !== state
unfoldable pub same_state : ConnectionState → ConnectionState → Bool
same_state pristine pristine = true
same_state connecting connecting = true
same_state connected connected = true
same_state renewing renewing = true
same_state disconnected disconnected = true
same_state _ _ = false

-- The first login request of StateConnecting.continue.
unfoldable pub continue_login : Config → Service → Service
unfolding send
continue_login cfg s = elim s.context [
  | none ↦ s
  | some call ↦
      send
        (login (record {
          call = call;
          num_retries = 0;
          sleep = cfg.starting_sleep_time;
          total_elapsed_time = pos 0;
        }))
        s
]

-- exit(): StateConnecting drops its context.
unfoldable pub exit : ConnectionState → Service → Service
exit connecting s = record s { context = none }
exit _ s = s

-- enter(transitionContext): StateConnecting takes the context and logs in, and StateRenewing asks
-- for new tokens.
unfoldable pub enter : Config → ConnectionState → Option ℕ → Service → Service
unfolding continue_login send
enter cfg connecting context s = continue_login cfg (record s { context = context })
enter cfg renewing context s = send renew s
enter cfg _ context s = s

unfoldable pub transition_to : Config → ConnectionState → Option ℕ → Service → Service
unfolding same_state exit enter
transition_to cfg state context s =
    if same_state s.current state
    then s
    else enter cfg state context (record (exit s.current s) { current = state })

unfoldable pub transition_to_disconnected : Config → Service → Service
unfolding transition_to clear_tokens
transition_to_disconnected cfg s =
    let t = transition_to cfg disconnected none s in record t { tokens = clear_tokens t.tokens }

-- new SnowflakeService(…): the state depends on whether tokens are given.
unfoldable pub new_service : TokenInfo → Service
unfolding is_empty
new_service tokens = record {
  current = if is_empty tokens then pristine else connected;
  context = none;
  tokens = tokens;
  session_id = none;
  qcc = none;
  queue = [];
  waiting = [];
  replies = [];
  rejected = [];
}

-- connect(options) of each state.
unfoldable pub connect_in : Config → ConnectionState → ℕ → Service → Service
unfolding transition_to reply
connect_in cfg pristine call s = transition_to cfg connecting (some call) s
connect_in cfg connecting call s = reply call connect_connecting s
connect_in cfg connected call s = reply call connect_connected s
connect_in cfg renewing call s = reply call connect_connected s
connect_in cfg disconnected call s = reply call connect_disconnected s

-- request(options) of each state.
unfoldable pub request_in : ConnectionState → ℕ → Service → Service
unfolding send reply enqueue
request_in pristine call s = reply call request_pristine s
request_in connecting call s = enqueue (request_op call) s
request_in connected call s = send (session_request call) s
request_in renewing call s = enqueue (request_op call) s
request_in disconnected call s = reply call request_disconnected s

-- destroy(options) of each state.
unfoldable pub destroy_in : Config → ConnectionState → ℕ → Service → Service
unfolding send reply enqueue transition_to_disconnected
destroy_in cfg pristine call s = reply call destroy_pristine s
destroy_in cfg connecting call s = enqueue (destroy_op call) s
destroy_in cfg connected call s =
    if cfg.server_session_keep_alive
    then reply call done (transition_to_disconnected cfg s)
    else send (delete_session call) s
destroy_in cfg renewing call s = enqueue (destroy_op call) s
destroy_in cfg disconnected call s = reply call destroy_disconnected s

-- execute() of an operation delegates to the current state.
unfoldable pub execute : Config → Operation → Service → Service
unfolding request_in destroy_in
execute cfg (request_op call) s = request_in s.current call s
execute cfg (destroy_op call) s = destroy_in cfg s.current call s

unfoldable pub execute_all : Config → List Operation → Service → Service
unfolding execute
execute_all cfg [] s = s
execute_all cfg (op ∷ ops) s = execute_all cfg ops (execute cfg op s)

-- drainOperationQueue: the operations that stand in the queue now; then the queue is emptied.
unfoldable pub drain_operation_queue : Config → Service → Service
unfolding execute_all
drain_operation_queue cfg s = record (execute_all cfg s.queue s) { queue = [] }

-- SnowflakeService.prototype.connect, request and destroy.
unfoldable pub connect : Config → ℕ → Service → Service
unfolding connect_in
connect cfg call s = connect_in cfg s.current call s

unfoldable pub request : Config → ℕ → Service → Service
unfolding execute
request cfg call s = execute cfg (request_op call) s

unfoldable pub clear_query_contexts : Service → Service
clear_query_contexts s = elim s.qcc [ none ↦ s | some c ↦ record s { qcc = some (clear_cache c) } ]

unfoldable pub destroy : Config → ℕ → Service → Service
unfolding clear_query_contexts execute
destroy cfg call s = execute cfg (destroy_op call) (clear_query_contexts s)

-- initializeQueryContextCache(size)
unfoldable pub initialize_query_context_cache : Config → ℕ → Service → Service
initialize_query_context_cache cfg size s =
    if cfg.disable_query_context_cache then s else record s { qcc = some (new_cache size) }

unfoldable pub is_connected : Service → Bool
unfolding same_state
is_connected s =
    same_state s.current connected
    || same_state s.current connecting
    || same_state s.current renewing
