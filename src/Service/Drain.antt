-- ===== src/Service/Drain.antt =====
-- Transitions, calls and the operation queue of lib/services/sf.js keep where each call stands.
use snowflake_connector_node.Prelude.{
  ℕ, ◌+◌, List, [], ◌∷◌, ◌≡◌, refl, ◌∙◌, ap, Bool, true, false, Option, none, some, arith,
  Bool-cases, inl, inr,
}
use snowflake_connector_node.Prelude.Int.{pos}
use snowflake_connector_node.Service.State.{
  ConnectionState, pristine, connecting, connected, renewing, disconnected, Operation, request_op,
  destroy_op, Reply, login, session_request, delete_session, renew, Config, Service, send, reply,
  done,
}
use snowflake_connector_node.Service.Calls.{
  same_state, continue_login, exit, enter, transition_to, transition_to_disconnected, request_in,
  destroy_in, execute, execute_all, drain_operation_queue,
}
use snowflake_connector_node.Service.Located.{
  hit, in_operation, in_queue, in_message, located, located-send, located-reply, located-enqueue,
}

-- A state in which every call is answered or sent, and none is queued.
unfoldable pub is_settled : ConnectionState → Bool
is_settled connected = true
is_settled disconnected = true
is_settled pristine = true
is_settled connecting = false
is_settled renewing = false

pub current-transition_to :
    (cfg : Config) (c : ConnectionState) (call : Option ℕ) (s : Service)
    → (transition_to cfg c call s).current ≡ c
unfolding transition_to same_state enter exit continue_login send
current-transition_to cfg c call s = ground arith

-- Transitions leave the queue and the answers as they are.
pub queue-transition_to :
    (cfg : Config) (c : ConnectionState) (call : Option ℕ) (s : Service)
    → (transition_to cfg c call s).queue ≡ s.queue
unfolding transition_to same_state enter exit continue_login send
queue-transition_to cfg c call s = ground arith

located-enter :
    (k : ℕ) (cfg : Config) (c : ConnectionState) (s : Service)
    → located k (enter cfg c none s) ≡ located k s
unfolding enter continue_login located in_message
located-enter k cfg pristine s = refl
located-enter k cfg connecting s = refl
located-enter k cfg connected s = refl
located-enter k cfg renewing s = omega (arith, located-send k renew s)
located-enter k cfg disconnected s = refl

located-exit : (k : ℕ) (c : ConnectionState) (s : Service) → located k (exit c s) ≡ located k s
unfolding exit located
located-exit k c s = ground arith

pub located-transition_to :
    (k : ℕ) (cfg : Config) (c : ConnectionState) (s : Service)
    → located k (transition_to cfg c none s) ≡ located k s
unfolding transition_to located
located-transition_to k cfg c s = elim (Bool-cases (same_state s.current c)) [
  | inl e ↦ rw e refl
  | inr e ↦ rw e (
      located-enter k cfg c (record (exit s.current s) { current = c })
      ∙ located-exit k s.current s)
]

-- The call that starts the login goes with its request.
pub located-connecting :
    (k : ℕ) (cfg : Config) (call : ℕ) (s : Service)
    → s.current ≡ pristine
    → located k (transition_to cfg connecting (some call) s) ≡ located k s + hit k call
unfolding transition_to located same_state enter exit continue_login in_message
located-connecting k cfg call s h = rw h (
    located-send k
      (login (record {
        call = call;
        num_retries = 0;
        sleep = cfg.starting_sleep_time;
        total_elapsed_time = pos 0;
      }))
      (record s { current = connecting; context = some call }))

pub located-transition_to_disconnected :
    (k : ℕ) (cfg : Config) (s : Service)
    → located k (transition_to_disconnected cfg s) ≡ located k s
unfolding transition_to_disconnected located
located-transition_to_disconnected k cfg s = located-transition_to k cfg disconnected s

located-request_in :
    (k call : ℕ) (c : ConnectionState) (s : Service)
    → located k (request_in c call s) ≡ located k s + hit k call
unfolding request_in in_operation in_message
located-request_in k call pristine s = located-reply k call _ s
located-request_in k call connecting s = located-enqueue k (request_op call) s
located-request_in k call connected s = located-send k (session_request call) s
located-request_in k call renewing s = located-enqueue k (request_op call) s
located-request_in k call disconnected s = located-reply k call _ s

-- A reply after the service is disconnected.
pub located-disconnect_reply :
    (k call : ℕ) (cfg : Config) (r : Reply) (s : Service)
    → located k (reply call r (transition_to_disconnected cfg s)) ≡ located k s + hit k call
located-disconnect_reply k call cfg r s = omega (
  arith,
  located-reply k call r (transition_to_disconnected cfg s),
  located-transition_to_disconnected k cfg s,
)

located-destroy_in :
    (k call : ℕ) (cfg : Config) (c : ConnectionState) (s : Service)
    → located k (destroy_in cfg c call s) ≡ located k s + hit k call
unfolding destroy_in in_operation in_message
located-destroy_in k call cfg pristine s = located-reply k call _ s
located-destroy_in k call cfg connecting s = located-enqueue k (destroy_op call) s
located-destroy_in k call cfg connected s = elim (Bool-cases cfg.server_session_keep_alive) [
  | inl e ↦ rw e (located-disconnect_reply k call cfg done s)
  | inr e ↦ rw e (located-send k (delete_session call) s)
]
located-destroy_in k call cfg renewing s = located-enqueue k (destroy_op call) s
located-destroy_in k call cfg disconnected s = located-reply k call _ s

pub located-execute :
    (k : ℕ) (cfg : Config) (op : Operation) (s : Service)
    → located k (execute cfg op s) ≡ located k s + in_operation k op
unfolding execute in_operation
located-execute k cfg (request_op call) s = located-request_in k call s.current s
located-execute k cfg (destroy_op call) s = located-destroy_in k call cfg s.current s

located-execute_all :
    (k : ℕ) (cfg : Config) (ops : List Operation) (s : Service)
    → located k (execute_all cfg ops s) ≡ located k s + in_queue k ops
unfolding execute_all in_queue
located-execute_all k cfg [] s = omega arith
located-execute_all k cfg (op ∷ ops) s =
    omega (arith, located-execute k cfg op s, located-execute_all k cfg ops (execute cfg op s))

-- In a settled state an operation leaves the queue and stays in a settled state.
execute-settled :
    (cfg : Config) (op : Operation) (s : Service)
    → is_settled s.current ≡ true
    → (is_settled (execute cfg op s).current ≡ true) × ((execute cfg op s).queue ≡ s.queue)
unfolding execute request_in destroy_in is_settled send reply transition_to_disconnected
    transition_to same_state enter exit
execute-settled cfg op s h = ground arith

pub execute_all-settled :
    (cfg : Config) (ops : List Operation) (s : Service)
    → is_settled s.current ≡ true
    → (is_settled (execute_all cfg ops s).current ≡ true)
      × ((execute_all cfg ops s).queue ≡ s.queue)
unfolding execute_all
execute_all-settled cfg [] s h = (h, refl)
execute_all-settled cfg (op ∷ ops) s h =
    let (settled, same) = execute-settled cfg op s h in
    let (settled2, same2) = execute_all-settled cfg ops (execute cfg op s) settled in
    (settled2, same2 ∙ same)

pub located-drain :
    (k : ℕ) (cfg : Config) (s : Service)
    → is_settled s.current ≡ true
    → located k (drain_operation_queue cfg s) ≡ located k s
unfolding drain_operation_queue located in_queue
located-drain k cfg s h =
    let (settled, same) = execute_all-settled cfg s.queue s h in
    omega (arith, located-execute_all k cfg s.queue s, ap (in_queue k) same)
