-- ===== src/Service/Answered.antt =====
-- Every call of the service of lib/services/sf.js is answered once nothing is in flight.
use snowflake_connector_node.Prelude.{
  ℕ, List, [], ◌∷◌, ◌++◌, ◌||◌, ◌≡◌, refl, ◌∙◌, ap, Bool, true, false, Option, none, some,
  get_elem?, arith, Bool-cases, Option-cases, inl, inr, ◌⊎◌,
}
use snowflake_connector_node.Prelude.Int.{ℤ}
use snowflake_connector_node.Service.Tokens.{TokenInfo, update}
use snowflake_connector_node.Service.State.{
  connected, request_op, GsCode, session_token_invalid, gone_session, session_token_expired,
  master_token_expired, other_code, Failure, Reply, Attempt, Message, login, retry_timer,
  reauthentication, session_request, delete_session, renew, Config, Service, reply, enqueue,
  failure, done,
}
use snowflake_connector_node.Service.Calls.{
  transition_to, transition_to_disconnected, execute, connect, request, destroy,
  clear_query_contexts, initialize_query_context_cache, new_service,
}
use snowflake_connector_node.Service.Login.{
  LoginData, LoginResult, login_ok, login_error, finish_login, on_login_ok, retries_login,
  next_attempt, retry_login, on_login_error, on_login, is_okta, on_reauthentication,
}
use snowflake_connector_node.Service.Okta.{
  Reauthentication, reauthenticated, reauthentication_failed, reauthenticate,
}
use snowflake_connector_node.Service.Responses.{
  RenewResult, renew_ok, renew_error, on_request_error, on_request, on_delete_error, on_delete,
  on_renew,
}
use snowflake_connector_node.Service.Network.{
  Answers, Event, connects, requests, destroys, answered, remove_at, on_message, on_answered, step,
  run,
}
use snowflake_connector_node.Service.Located.{
  in_queue, in_flight, in_replies, in_rejected, located, submitted,
}
use snowflake_connector_node.Service.Drain.{is_settled, current-transition_to}
use snowflake_connector_node.Service.Callbacks.{
  settled-disconnected, settled-transition_to, current-initialize, settled-after_renew_error,
}
use snowflake_connector_node.Service.Conservation.{located-run}
use snowflake_connector_node.Service.Pending.{
  is_session_message, awaits_session, is_cons, IsPending, awaits_session-remove_at,
  send_session-IsPending, reply-IsPending, disconnected-IsPending, drain-IsPending,
  renewing-IsPending, connect_in-IsPending, request_in-IsPending, destroy_in-IsPending,
}

finish_login-IsPending :
    (cfg : Config) (call : ℕ) (r : Reply) (s : Service)
    → is_settled s.current ≡ true
    → IsPending (finish_login cfg call r s)
unfolding finish_login reply
finish_login-IsPending cfg call r s h = drain-IsPending cfg (reply call r s) h

on_login_ok-IsPending :
    (cfg : Config) (now call : ℕ) (d : LoginData) (s : Service)
    → IsPending (on_login_ok cfg now call d s)
unfolding on_login_ok is_settled
on_login_ok-IsPending cfg now call d s =
    let known = record s {
      session_id = some d.session_id;
      tokens = update now d.tokens s.tokens;
    } in
    let t = transition_to cfg connected none known in
    let size = d.query_context_cache_size in
    finish_login-IsPending cfg call done (initialize_query_context_cache cfg size t) (
      ap is_settled
        (current-initialize size cfg t ∙ current-transition_to cfg connected none known))

retry_login-IsPending : (cfg : Config) (a : Attempt) (s : Service) → IsPending (retry_login cfg a s)
unfolding retry_login is_session_message
retry_login-IsPending cfg a s = elim (Bool-cases (is_okta cfg.auth)) [
  | inl e ↦ rw e (send_session-IsPending (reauthentication a) _ refl)
  | inr e ↦ rw e (send_session-IsPending (retry_timer a) _ refl)
]

is_cons-append : (xs : List ℕ) (x : ℕ) → is_cons (xs ++ x ∷ []) ≡ true
is_cons-append [] x = refl
is_cons-append (y ∷ ys) x = refl

reauthentication-IsPending :
    (a : Attempt) (r : Reauthentication) (s : Service) → IsPending (on_reauthentication a r s)
unfolding on_reauthentication is_session_message IsPending
reauthentication-IsPending a (reauthenticated n elapsed) s =
    send_session-IsPending
      (retry_timer (record a { num_retries = n; total_elapsed_time = elapsed })) s refl
reauthentication-IsPending a reauthentication_failed s =
    inl (ground (arith, is_cons-append s.rejected a.call))

on_login_error-IsPending :
    (cfg : Config) (next : ℤ) (a : Attempt) (f : Failure) (s : Service)
    → IsPending (on_login_error cfg next a f s)
unfolding on_login_error
on_login_error-IsPending cfg next a f s = elim (Bool-cases (retries_login cfg a f)) [
  | inl e ↦ rw e (retry_login-IsPending cfg (next_attempt cfg next a) s)
  | inr e ↦ rw e (
      finish_login-IsPending cfg a.call (failure f) (transition_to_disconnected cfg s)
        (settled-disconnected cfg s))
]

on_login-IsPending :
    (cfg : Config) (now : ℕ) (next : ℤ) (a : Attempt) (r : LoginResult) (s : Service)
    → IsPending (on_login cfg now next a r s)
unfolding on_login
on_login-IsPending cfg now next a (login_ok d) s = on_login_ok-IsPending cfg now a.call d s
on_login-IsPending cfg now next a (login_error f) s = on_login_error-IsPending cfg next a f s

request_error-IsPending :
    (cfg : Config) (call : ℕ) (c : GsCode) (f : Failure) (s : Service)
    → IsPending s
    → IsPending (on_request_error cfg call c f s)
unfolding on_request_error
request_error-IsPending cfg call session_token_expired f s p =
    renewing-IsPending cfg (request_op call) s p
request_error-IsPending cfg call session_token_invalid f s p =
    drain-IsPending cfg _ (settled-disconnected cfg (enqueue (request_op call) s))
request_error-IsPending cfg call gone_session f s p =
    drain-IsPending cfg _ (settled-disconnected cfg (enqueue (request_op call) s))
request_error-IsPending cfg call master_token_expired f s p = reply-IsPending call _ s p
request_error-IsPending cfg call other_code f s p = reply-IsPending call _ s p

on_request-IsPending :
    (cfg : Config) (call : ℕ) (r : Option Failure) (s : Service)
    → IsPending s
    → IsPending (on_request cfg call r s)
unfolding on_request
on_request-IsPending cfg call none s p = reply-IsPending call done s p
on_request-IsPending cfg call (some f) s p = request_error-IsPending cfg call f.code f s p

deleted-IsPending :
    (cfg : Config) (call : ℕ) (s : Service)
    → IsPending s
    → IsPending (reply call done (transition_to_disconnected cfg s))
deleted-IsPending cfg call s p =
    reply-IsPending call done (transition_to_disconnected cfg s) (disconnected-IsPending cfg s p)

delete_error-IsPending :
    (cfg : Config) (call : ℕ) (c : GsCode) (f : Failure) (s : Service)
    → IsPending s
    → IsPending (on_delete_error cfg call c f s)
unfolding on_delete_error
delete_error-IsPending cfg call session_token_expired f s p = deleted-IsPending cfg call s p
delete_error-IsPending cfg call session_token_invalid f s p = reply-IsPending call _ s p
delete_error-IsPending cfg call gone_session f s p = deleted-IsPending cfg call s p
delete_error-IsPending cfg call master_token_expired f s p = reply-IsPending call _ s p
delete_error-IsPending cfg call other_code f s p = reply-IsPending call _ s p

on_delete-IsPending :
    (cfg : Config) (call : ℕ) (r : Option Failure) (s : Service)
    → IsPending s
    → IsPending (on_delete cfg call r s)
unfolding on_delete
on_delete-IsPending cfg call none s p = deleted-IsPending cfg call s p
on_delete-IsPending cfg call (some f) s p = delete_error-IsPending cfg call f.code f s p

on_renew-IsPending :
    (cfg : Config) (now : ℕ) (r : RenewResult) (s : Service) → IsPending (on_renew cfg now r s)
unfolding on_renew is_settled
on_renew-IsPending cfg now (renew_ok d) s =
    drain-IsPending cfg _
      (settled-transition_to cfg connected (record s { tokens = update now d s.tokens }) refl)
on_renew-IsPending cfg now (renew_error f) s =
    drain-IsPending cfg _ (settled-after_renew_error cfg f s)

on_message-IsPending :
    (cfg : Config) (m : Message) (r : Answers) (s : Service)
    → (is_session_message m ≡ true) ⊎ IsPending s
    → IsPending (on_message cfg m r s)
unfolding on_message is_session_message
on_message-IsPending cfg (login a) r s p = on_login-IsPending cfg r.now r.next a r.login_result s
on_message-IsPending cfg (retry_timer a) r s p = send_session-IsPending (login a) s refl
on_message-IsPending cfg (reauthentication a) r s p =
    reauthentication-IsPending a
      (reauthenticate cfg r.okta_answers a.num_retries a.total_elapsed_time) s
on_message-IsPending cfg (session_request call) r s (inr p) =
    on_request-IsPending cfg call r.result s p
on_message-IsPending cfg (session_request call) r s (inl h) = ground arith
on_message-IsPending cfg (delete_session call) r s (inr p) =
    on_delete-IsPending cfg call r.result s p
on_message-IsPending cfg (delete_session call) r s (inl h) = ground arith
on_message-IsPending cfg renew r s p = on_renew-IsPending cfg r.now r.renew_result s

-- A message that does not await the session leaves the service as it was, pending.
removed-IsPending :
    (i : ℕ) (s : Service) (m : Message)
    → get_elem? s.waiting i ≡ some m
    → IsPending s
    → (is_session_message m ≡ true) ⊎ IsPending (record s { waiting = remove_at i s.waiting })
unfolding IsPending
removed-IsPending i s m h p = elim (Bool-cases (is_session_message m)) [
  | inl e ↦ inl e
  | inr e ↦ inr (rw (awaits_session-remove_at i s.waiting h e) p)
]

on_answered-IsPending :
    (cfg : Config) (i : ℕ) (r : Answers) (s : Service) (o : Option Message)
    → get_elem? s.waiting i ≡ o
    → IsPending s
    → IsPending (on_answered cfg i r s o)
unfolding on_answered
on_answered-IsPending cfg i r s none h p = p
on_answered-IsPending cfg i r s (some m) h p =
    on_message-IsPending cfg m r (record s { waiting = remove_at i s.waiting })
      (removed-IsPending i s m h p)

clear-IsPending : (s : Service) → IsPending s → IsPending (clear_query_contexts s)
unfolding IsPending clear_query_contexts
clear-IsPending s p = elim (Option-cases s.qcc) [ inl e ↦ rw e p | inr (c, e) ↦ rw e p ]

pub step-IsPending :
    (cfg : Config) (s : Service) (e : Event) → IsPending s → IsPending (step cfg s e)
unfolding step connect request destroy execute
step-IsPending cfg s (connects call) p = connect_in-IsPending cfg s.current call s refl p
step-IsPending cfg s (requests call) p = request_in-IsPending s.current call s refl p
step-IsPending cfg s (destroys call) p =
    destroy_in-IsPending cfg _ call (clear_query_contexts s) refl (clear-IsPending s p)
step-IsPending cfg s (answered i r) p =
    on_answered-IsPending cfg i r s (get_elem? s.waiting i) refl p

-- After any events the service awaits a login, its reauthentication, its retry or a renewal, or a
-- login callback threw, or it is in a state other than those that wait for one, with an empty queue.
pub run-IsPending :
    (cfg : Config) (tokens : TokenInfo) (es : List Event) → IsPending (run cfg tokens es)
unfolding run IsPending new_service is_settled
run-IsPending cfg tokens [] = ground arith
run-IsPending cfg tokens (e ∷ es) =
    step-IsPending cfg (run cfg tokens es) e (run-IsPending cfg tokens es)

-- Once nothing is in flight after some events, and the reauthentication of Okta never threw: the
-- callback of each call was called exactly as often as the call was made.
pub idle-Answered :
    (k : ℕ) (cfg : Config) (tokens : TokenInfo) (es : List Event)
    → (run cfg tokens es).waiting ≡ []
    → (run cfg tokens es).rejected ≡ []
    → in_replies k (run cfg tokens es).replies ≡ submitted k es
unfolding located IsPending awaits_session in_queue in_flight in_rejected
idle-Answered k cfg tokens es h r = elim (run-IsPending cfg tokens es) [
  | inl p ↦ absurd (none_pending (ap awaits_session h) (ap is_cons r) p)
  | inr (settled, empty) ↦ omega (
    arith,
    located-run k cfg tokens es,
    ap (in_queue k) empty,
    ap (in_flight k) h,
    ap (in_rejected k) r,
  )
]
  where
    none_pending : {b c : Bool} → b ≡ false → c ≡ false → (b || c) ≡ true → ⊥
    none_pending x y z = ground arith
