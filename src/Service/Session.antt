-- ===== src/Service/Session.antt =====
-- The tokens of the session of lib/services/sf.js, by state, and the ways back from a disconnected
-- service.
use snowflake_connector_node.Prelude.{
  ℕ, List, [], ◌∷◌, ◌≡◌, ◌≢◌, refl, Option, none, some, arith, Bool, true, false, if◌then◌else◌,
  Bool-cases, inl, inr,
}
use snowflake_connector_node.Prelude.Int.{ℤ, pos, leb_ℤ}
use snowflake_connector_node.Service.Tokens.{no_tokens, clear_tokens}
use snowflake_connector_node.Service.State.{
  ConnectionState, pristine, connecting, connected, renewing, disconnected, Operation, request_op,
  destroy_op, Reply, Message, Attempt, Config, Service, send, reply, enqueue, failure, done,
}
use snowflake_connector_node.Service.Calls.{
  transition_to, transition_to_disconnected, connect_in, request_in, destroy_in, execute_all,
  execute, drain_operation_queue, initialize_query_context_cache,
}
use snowflake_connector_node.Service.Login.{
  LoginResult, login_ok, login_error, finish_login, on_login_ok, retries_login, next_attempt,
  retry_login, on_login_error, on_login, is_okta,
}
use snowflake_connector_node.Service.Drain.{current-transition_to}

-- A disconnected service holds no tokens.
unfoldable pub HasNoStaleTokens : Service → Type 0
HasNoStaleTokens s = s.current ≡ disconnected → s.tokens ≡ no_tokens

pub disconnected-HasNoStaleTokens :
    (cfg : Config) (s : Service) → HasNoStaleTokens (transition_to_disconnected cfg s)
unfolding HasNoStaleTokens transition_to_disconnected clear_tokens
disconnected-HasNoStaleTokens cfg s h = refl

-- A transition to another state than the disconnected one.
pub transition-HasNoStaleTokens :
    (cfg : Config) (c : ConnectionState) (call : Option ℕ) (s : Service)
    → c ≢ disconnected
    → HasNoStaleTokens (transition_to cfg c call s)
unfolding HasNoStaleTokens
transition-HasNoStaleTokens cfg c call s n h =
    ground (arith, current-transition_to cfg c call s, n, h)

pub request_in-HasNoStaleTokens :
    (c : ConnectionState) (call : ℕ) (s : Service)
    → HasNoStaleTokens s
    → HasNoStaleTokens (request_in c call s)
unfolding HasNoStaleTokens request_in send reply enqueue
request_in-HasNoStaleTokens c call s p h = ground arith

pub destroy_in-HasNoStaleTokens :
    (cfg : Config) (c : ConnectionState) (call : ℕ) (s : Service)
    → HasNoStaleTokens s
    → HasNoStaleTokens (destroy_in cfg c call s)
unfolding HasNoStaleTokens destroy_in send reply enqueue
destroy_in-HasNoStaleTokens cfg pristine call s p h = p h
destroy_in-HasNoStaleTokens cfg connecting call s p h = p h
destroy_in-HasNoStaleTokens cfg connected call s p h =
    ground (arith, disconnected-HasNoStaleTokens cfg s)
destroy_in-HasNoStaleTokens cfg renewing call s p h = p h
destroy_in-HasNoStaleTokens cfg disconnected call s p h = p h

pub execute-HasNoStaleTokens :
    (cfg : Config) (op : Operation) (s : Service)
    → HasNoStaleTokens s
    → HasNoStaleTokens (execute cfg op s)
unfolding execute
execute-HasNoStaleTokens cfg (request_op call) s p = request_in-HasNoStaleTokens s.current call s p
execute-HasNoStaleTokens cfg (destroy_op call) s p =
    destroy_in-HasNoStaleTokens cfg s.current call s p

pub execute_all-HasNoStaleTokens :
    (cfg : Config) (ops : List Operation) (s : Service)
    → HasNoStaleTokens s
    → HasNoStaleTokens (execute_all cfg ops s)
unfolding execute_all
execute_all-HasNoStaleTokens cfg [] s p = p
execute_all-HasNoStaleTokens cfg (op ∷ ops) s p =
    execute_all-HasNoStaleTokens cfg ops (execute cfg op s) (execute-HasNoStaleTokens cfg op s p)

pub drain-HasNoStaleTokens :
    (cfg : Config) (s : Service)
    → HasNoStaleTokens s
    → HasNoStaleTokens (drain_operation_queue cfg s)
unfolding drain_operation_queue HasNoStaleTokens
drain-HasNoStaleTokens cfg s p = execute_all-HasNoStaleTokens cfg s.queue s p

pub connect_in-HasNoStaleTokens :
    (cfg : Config) (c : ConnectionState) (call : ℕ) (s : Service)
    → HasNoStaleTokens s
    → HasNoStaleTokens (connect_in cfg c call s)
unfolding connect_in HasNoStaleTokens reply
connect_in-HasNoStaleTokens cfg pristine call s p =
    transition-HasNoStaleTokens cfg connecting (some call) s (ground arith)
connect_in-HasNoStaleTokens cfg connecting call s p = p
connect_in-HasNoStaleTokens cfg connected call s p = p
connect_in-HasNoStaleTokens cfg renewing call s p = p
connect_in-HasNoStaleTokens cfg disconnected call s p = p

-- The callback of a connect call, and then the queue.
finish-HasNoStaleTokens :
    (cfg : Config) (call : ℕ) (r : Reply) (s : Service)
    → HasNoStaleTokens s
    → HasNoStaleTokens (finish_login cfg call r s)
unfolding finish_login reply HasNoStaleTokens
finish-HasNoStaleTokens cfg call r s p = drain-HasNoStaleTokens cfg (reply call r s) p

initialize-HasNoStaleTokens :
    (cfg : Config) (size : ℕ) (s : Service)
    → HasNoStaleTokens s
    → HasNoStaleTokens (initialize_query_context_cache cfg size s)
unfolding initialize_query_context_cache HasNoStaleTokens
initialize-HasNoStaleTokens cfg size s p h = ground arith

sent-HasNoStaleTokens :
    (b : Bool) (m n : Message) (s : Service)
    → HasNoStaleTokens s
    → HasNoStaleTokens (if b then send m s else send n s)
unfolding HasNoStaleTokens send
sent-HasNoStaleTokens true m n s p = p
sent-HasNoStaleTokens false m n s p = p

pub on_login-HasNoStaleTokens :
    (cfg : Config) (now : ℕ) (next : ℤ) (a : Attempt) (r : LoginResult) (s : Service)
    → HasNoStaleTokens s
    → HasNoStaleTokens (on_login cfg now next a r s)
unfolding on_login on_login_ok on_login_error retry_login HasNoStaleTokens send
on_login-HasNoStaleTokens cfg now next a (login_ok d) s p =
    finish-HasNoStaleTokens cfg a.call done _ (
      initialize-HasNoStaleTokens cfg d.query_context_cache_size _
        (transition-HasNoStaleTokens cfg connected none _ (ground arith)))
on_login-HasNoStaleTokens cfg now next a (login_error f) s p =
    elim (Bool-cases (retries_login cfg a f)) [
      | inl e ↦ elim (Bool-cases (leb_ℤ (next_attempt cfg next a).sleep (pos 0))) [
        | inl e2 ↦
            rw (e, e2)
              (sent-HasNoStaleTokens (is_okta cfg.auth) _ _ (transition_to_disconnected cfg s)
                (disconnected-HasNoStaleTokens cfg s))
        | inr e2 ↦ rw (e, e2) (sent-HasNoStaleTokens (is_okta cfg.auth) _ _ s p)
      ]
      | inr e ↦ rw e (
          finish-HasNoStaleTokens cfg a.call (failure f) (transition_to_disconnected cfg s)
            (disconnected-HasNoStaleTokens cfg s))
    ]
