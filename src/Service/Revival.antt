-- ===== src/Service/Revival.antt =====
-- What a disconnected service of lib/services/sf.js may still do: it holds no tokens, but answers
-- that come late connect it again.
use snowflake_connector_node.Prelude.{
  ℕ, List, [], ◌∷◌, ◌≡◌, refl, none, get_elem?, arith, Option-cases, inl, inr,
}
use snowflake_connector_node.Service.Tokens.{TokenInfo, TokenData, no_tokens, update}
use snowflake_connector_node.Service.State.{
  connected, renewing, disconnected, request_op, destroy_op, GsCode, session_token_invalid,
  gone_session, session_token_expired, master_token_expired, other_code, Failure, Message, login,
  retry_timer, Attempt, reauthentication, session_request, delete_session, renew, Config, Service,
  send, reply,
}
use snowflake_connector_node.Service.Calls.{
  transition_to, same_state, enter, exit, execute_all, drain_operation_queue, connect, request,
  destroy, clear_query_contexts, new_service,
}
use snowflake_connector_node.Service.Login.{on_reauthentication}
use snowflake_connector_node.Service.Okta.{
  Reauthentication, reauthenticated, reauthentication_failed, reauthenticate,
}
use snowflake_connector_node.Service.Responses.{
  RenewResult, renew_ok, renew_error, on_request_error, on_request, on_delete_error, on_delete,
  after_renew_error, on_renew,
}
use snowflake_connector_node.Service.Network.{
  Answers, Event, connects, requests, destroys, answered, remove_at, on_message, on_answered, step,
  run,
}
use snowflake_connector_node.Service.Session.{
  HasNoStaleTokens, disconnected-HasNoStaleTokens, transition-HasNoStaleTokens,
  execute-HasNoStaleTokens, drain-HasNoStaleTokens, connect_in-HasNoStaleTokens,
  on_login-HasNoStaleTokens,
}

request_error-HasNoStaleTokens :
    (cfg : Config) (call : ℕ) (c : GsCode) (f : Failure) (s : Service)
    → HasNoStaleTokens s
    → HasNoStaleTokens (on_request_error cfg call c f s)
unfolding on_request_error HasNoStaleTokens reply
request_error-HasNoStaleTokens cfg call session_token_expired f s p =
    transition-HasNoStaleTokens cfg renewing none _ (ground arith)
request_error-HasNoStaleTokens cfg call session_token_invalid f s p =
    drain-HasNoStaleTokens cfg _ (disconnected-HasNoStaleTokens cfg _)
request_error-HasNoStaleTokens cfg call gone_session f s p =
    drain-HasNoStaleTokens cfg _ (disconnected-HasNoStaleTokens cfg _)
request_error-HasNoStaleTokens cfg call master_token_expired f s p = p
request_error-HasNoStaleTokens cfg call other_code f s p = p

delete_error-HasNoStaleTokens :
    (cfg : Config) (call : ℕ) (c : GsCode) (f : Failure) (s : Service)
    → HasNoStaleTokens s
    → HasNoStaleTokens (on_delete_error cfg call c f s)
unfolding on_delete_error HasNoStaleTokens reply
delete_error-HasNoStaleTokens cfg call session_token_expired f s p =
    disconnected-HasNoStaleTokens cfg s
delete_error-HasNoStaleTokens cfg call session_token_invalid f s p = p
delete_error-HasNoStaleTokens cfg call gone_session f s p = disconnected-HasNoStaleTokens cfg s
delete_error-HasNoStaleTokens cfg call master_token_expired f s p = p
delete_error-HasNoStaleTokens cfg call other_code f s p = p

on_renew-HasNoStaleTokens :
    (cfg : Config) (now : ℕ) (r : RenewResult) (s : Service)
    → HasNoStaleTokens (on_renew cfg now r s)
unfolding on_renew after_renew_error
on_renew-HasNoStaleTokens cfg now (renew_ok d) s =
    drain-HasNoStaleTokens cfg _ (transition-HasNoStaleTokens cfg connected none _ (ground arith))
on_renew-HasNoStaleTokens cfg now (renew_error f) s =
    let gone = disconnected-HasNoStaleTokens cfg s in
    let again = transition-HasNoStaleTokens cfg connected none s (ground arith) in
    drain-HasNoStaleTokens cfg _ (ground (arith, gone, again))

reauthentication-HasNoStaleTokens :
    (a : Attempt) (r : Reauthentication) (s : Service)
    → HasNoStaleTokens s
    → HasNoStaleTokens (on_reauthentication a r s)
unfolding on_reauthentication HasNoStaleTokens send
reauthentication-HasNoStaleTokens a (reauthenticated n elapsed) s p = p
reauthentication-HasNoStaleTokens a reauthentication_failed s p = p

on_message-HasNoStaleTokens :
    (cfg : Config) (m : Message) (r : Answers) (s : Service)
    → HasNoStaleTokens s
    → HasNoStaleTokens (on_message cfg m r s)
unfolding on_message on_request on_delete HasNoStaleTokens send reply
on_message-HasNoStaleTokens cfg (login a) r s p =
    on_login-HasNoStaleTokens cfg r.now r.next a r.login_result s p
on_message-HasNoStaleTokens cfg (retry_timer a) r s p = p
on_message-HasNoStaleTokens cfg (reauthentication a) r s p =
    reauthentication-HasNoStaleTokens a
      (reauthenticate cfg r.okta_answers a.num_retries a.total_elapsed_time) s p
on_message-HasNoStaleTokens cfg (session_request call) r s p = elim (Option-cases r.result) [
  | inl e ↦ rw e p
  | inr (f, e) ↦ rw e (request_error-HasNoStaleTokens cfg call f.code f s p)
]
on_message-HasNoStaleTokens cfg (delete_session call) r s p = elim (Option-cases r.result) [
  | inl e ↦ rw e (disconnected-HasNoStaleTokens cfg s)
  | inr (f, e) ↦ rw e (delete_error-HasNoStaleTokens cfg call f.code f s p)
]
on_message-HasNoStaleTokens cfg renew r s p = on_renew-HasNoStaleTokens cfg r.now r.renew_result s

clear-HasNoStaleTokens :
    (s : Service) → HasNoStaleTokens s → HasNoStaleTokens (clear_query_contexts s)
unfolding HasNoStaleTokens clear_query_contexts
clear-HasNoStaleTokens s p h = ground arith

step-HasNoStaleTokens :
    (cfg : Config) (s : Service) (e : Event) → HasNoStaleTokens s → HasNoStaleTokens (step cfg s e)
unfolding step connect request destroy on_answered HasNoStaleTokens clear_query_contexts
step-HasNoStaleTokens cfg s (connects call) p = connect_in-HasNoStaleTokens cfg s.current call s p
step-HasNoStaleTokens cfg s (requests call) p = execute-HasNoStaleTokens cfg (request_op call) s p
step-HasNoStaleTokens cfg s (destroys call) p =
    execute-HasNoStaleTokens cfg (destroy_op call) (clear_query_contexts s)
      (clear-HasNoStaleTokens s p)
step-HasNoStaleTokens cfg s (answered i r) p = elim (Option-cases (get_elem? s.waiting i)) [
  | inl e ↦ rw e p
  | inr (m, e) ↦
      rw e (on_message-HasNoStaleTokens cfg m r (record s { waiting = remove_at i s.waiting }) p)
]

-- After any events a service that is disconnected holds no tokens.
pub disconnected-tokens :
    (cfg : Config) (tokens : TokenInfo) (es : List Event)
    → (run cfg tokens es).current ≡ disconnected
    → (run cfg tokens es).tokens ≡ no_tokens
unfolding run new_service HasNoStaleTokens
disconnected-tokens cfg tokens [] h = ground arith
disconnected-tokens cfg tokens (e ∷ es) h =
    step-HasNoStaleTokens cfg (run cfg tokens es) e (disconnected-tokens cfg tokens es) h

-- A disconnected service with an empty queue that gets the tokens of a renewal is connected and
-- takes them over.
pub late_renewal :
    (cfg : Config) (now : ℕ) (d : TokenData) (s : Service)
    → s.current ≡ disconnected
    → s.queue ≡ []
    → ((on_renew cfg now (renew_ok d) s).current ≡ connected)
      × ((on_renew cfg now (renew_ok d) s).tokens ≡ update now d s.tokens)
unfolding on_renew drain_operation_queue transition_to same_state enter exit execute_all
late_renewal cfg now d s h q = rw (h, q) (refl, refl)
