-- ===== src/Service/Pending.antt =====
-- The operation queue of lib/services/sf.js is not forgotten: while operations are queued, or the
-- service logs in or renews, it waits for an answer that drains the queue.
use snowflake_connector_node.Prelude.{
  ℕ, zero, suc, List, [], ◌∷◌, ◌++◌, ◌||◌, ◌≡◌, refl, ap, Bool, true, false, none, some, get_elem?,
  arith, Bool-cases, inl, inr, ◌⊎◌,
}
use snowflake_connector_node.Prelude.Int.{pos}
use snowflake_connector_node.Service.State.{
  ConnectionState, pristine, connecting, connected, renewing, disconnected, Operation, request_op,
  destroy_op, Reply, Message, login, retry_timer, reauthentication, session_request, delete_session,
  renew, Config, Service, send, reply, enqueue, done, connect_connecting, connect_connected,
  connect_disconnected,
}
use snowflake_connector_node.Service.Calls.{
  same_state, continue_login, exit, enter, transition_to, transition_to_disconnected, connect_in,
  request_in, destroy_in, drain_operation_queue,
}
use snowflake_connector_node.Service.Network.{remove_at}
use snowflake_connector_node.Service.Drain.{is_settled, execute_all-settled}
use snowflake_connector_node.Service.Callbacks.{settled-disconnected}

-- The answer to such a message drains the queue, or sends another such message.
unfoldable pub is_session_message : Message → Bool
is_session_message (login a) = true
is_session_message (retry_timer a) = true
is_session_message (reauthentication a) = true
is_session_message renew = true
is_session_message (session_request call) = false
is_session_message (delete_session call) = false

unfoldable pub awaits_session : List Message → Bool
unfolding is_session_message
awaits_session [] = false
awaits_session (m ∷ ms) = is_session_message m || awaits_session ms

abbrev pub is_cons : List ℕ → Bool
is_cons [] = false
is_cons (x ∷ xs) = true

-- Such a message is in flight, a login callback threw, or nothing is queued.
unfoldable pub IsPending : Service → Type 0
IsPending s =
    (awaits_session s.waiting || is_cons s.rejected ≡ true)
    ⊎ ((is_settled s.current ≡ true) × (s.queue ≡ []))

awaits_session-append :
    (ms : List Message) (m : Message)
    → awaits_session (ms ++ m ∷ []) ≡ (awaits_session ms || is_session_message m)
unfolding awaits_session
awaits_session-append [] m = ground arith
awaits_session-append (x ∷ ms) m = ground (arith, awaits_session-append ms m)

pub awaits_session-remove_at :
    (i : ℕ) (ms : List Message) {m : Message}
    → get_elem? ms i ≡ some m
    → is_session_message m ≡ false
    → awaits_session (remove_at i ms) ≡ awaits_session ms
unfolding awaits_session remove_at
awaits_session-remove_at i [] h q = ground arith
awaits_session-remove_at zero (x ∷ ms) h q = grind arith
awaits_session-remove_at (suc i) (x ∷ ms) h q =
    ap (λ b. is_session_message x || b) (awaits_session-remove_at i ms h q)

-- A message that stays in flight when others are sent.
pub send-IsPending : (m : Message) (s : Service) → IsPending s → IsPending (send m s)
unfolding IsPending send
send-IsPending m s h = ground (arith, awaits_session-append s.waiting m)

pub send_session-IsPending :
    (m : Message) (s : Service) → is_session_message m ≡ true → IsPending (send m s)
unfolding IsPending send
send_session-IsPending m s h = ground (arith, awaits_session-append s.waiting m)

pub reply-IsPending :
    (call : ℕ) (r : Reply) (s : Service) → IsPending s → IsPending (reply call r s)
unfolding IsPending reply
reply-IsPending call r s h = h

-- Where the service is not settled, an operation may be queued.
pub enqueue-IsPending :
    (op : Operation) (s : Service)
    → is_settled s.current ≡ false
    → IsPending s
    → IsPending (enqueue op s)
unfolding IsPending enqueue
enqueue-IsPending op s h p = ground arith

waiting-disconnected :
    (cfg : Config) (s : Service)
    → ((transition_to_disconnected cfg s).waiting ≡ s.waiting)
      × ((transition_to_disconnected cfg s).queue ≡ s.queue)
      × ((transition_to_disconnected cfg s).rejected ≡ s.rejected)
unfolding transition_to_disconnected transition_to same_state enter exit
waiting-disconnected cfg s = ground arith

pub disconnected-IsPending :
    (cfg : Config) (s : Service) → IsPending s → IsPending (transition_to_disconnected cfg s)
unfolding IsPending
disconnected-IsPending cfg s h =
    let (same, queue, rejected) = waiting-disconnected cfg s in
    ground (arith, same, queue, rejected, settled-disconnected cfg s, h)

pub drain-IsPending :
    (cfg : Config) (s : Service)
    → is_settled s.current ≡ true
    → IsPending (drain_operation_queue cfg s)
unfolding IsPending drain_operation_queue
drain-IsPending cfg s h =
    let (settled, same) = execute_all-settled cfg s.queue s h in inr (settled, refl)

-- The renewal is in flight, or sent now.
pub renewing-IsPending :
    (cfg : Config) (op : Operation) (s : Service)
    → IsPending s
    → IsPending (transition_to cfg renewing none (enqueue op s))
unfolding IsPending transition_to same_state enter exit enqueue send is_settled is_session_message
renewing-IsPending cfg op s h = ground (arith, awaits_session-append s.waiting renew)

pub connect_in-IsPending :
    (cfg : Config) (c : ConnectionState) (call : ℕ) (s : Service)
    → s.current ≡ c
    → IsPending s
    → IsPending (connect_in cfg c call s)
unfolding connect_in transition_to same_state enter exit continue_login is_session_message
connect_in-IsPending cfg pristine call s h p = rw h (
    send_session-IsPending
      (login (record {
        call = call;
        num_retries = 0;
        sleep = cfg.starting_sleep_time;
        total_elapsed_time = pos 0;
      }))
      (record s { current = connecting; context = some call }) refl)
connect_in-IsPending cfg connecting call s h p = reply-IsPending call connect_connecting s p
connect_in-IsPending cfg connected call s h p = reply-IsPending call connect_connected s p
connect_in-IsPending cfg renewing call s h p = reply-IsPending call connect_connected s p
connect_in-IsPending cfg disconnected call s h p = reply-IsPending call connect_disconnected s p

pub request_in-IsPending :
    (c : ConnectionState) (call : ℕ) (s : Service)
    → s.current ≡ c
    → IsPending s
    → IsPending (request_in c call s)
unfolding request_in is_settled
request_in-IsPending pristine call s h p = reply-IsPending call _ s p
request_in-IsPending connecting call s h p =
    enqueue-IsPending (request_op call) s (ap is_settled h) p
request_in-IsPending connected call s h p = send-IsPending (session_request call) s p
request_in-IsPending renewing call s h p = enqueue-IsPending (request_op call) s (ap is_settled h) p
request_in-IsPending disconnected call s h p = reply-IsPending call _ s p

pub destroy_in-IsPending :
    (cfg : Config) (c : ConnectionState) (call : ℕ) (s : Service)
    → s.current ≡ c
    → IsPending s
    → IsPending (destroy_in cfg c call s)
unfolding destroy_in is_settled
destroy_in-IsPending cfg pristine call s h p = reply-IsPending call _ s p
destroy_in-IsPending cfg connecting call s h p =
    enqueue-IsPending (destroy_op call) s (ap is_settled h) p
destroy_in-IsPending cfg connected call s h p = elim (Bool-cases cfg.server_session_keep_alive) [
  | inl e ↦ rw e (reply-IsPending call done _ (disconnected-IsPending cfg s p))
  | inr e ↦ rw e (send-IsPending (delete_session call) s p)
]
destroy_in-IsPending cfg renewing call s h p =
    enqueue-IsPending (destroy_op call) s (ap is_settled h) p
destroy_in-IsPending cfg disconnected call s h p = reply-IsPending call _ s p
