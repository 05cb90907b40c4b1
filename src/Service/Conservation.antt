-- ===== src/Service/Conservation.antt =====
-- The service of lib/services/sf.js loses no call: every step keeps where the calls stand.
use snowflake_connector_node.Prelude.{
  ℕ, ◌+◌, ◌≤◌, List, [], ◌∷◌, ◌≡◌, refl, ◌∙◌, ap, Option, none, some, get_elem?, arith,
}
use snowflake_connector_node.Prelude.Int.{ℤ}
use snowflake_connector_node.Service.Tokens.{TokenInfo, update}
use snowflake_connector_node.Service.State.{
  connected, renewing, request_op, destroy_op, GsCode, session_token_invalid, gone_session,
  session_token_expired, master_token_expired, other_code, Failure, Attempt, Message, login,
  retry_timer, reauthentication, session_request, delete_session, renew, Config, Service, enqueue,
  failure, done,
}
use snowflake_connector_node.Service.Calls.{
  transition_to, transition_to_disconnected, drain_operation_queue, connect, request, destroy,
  clear_query_contexts, new_service,
}
use snowflake_connector_node.Service.Login.{LoginResult, login_ok, login_error, on_login}
use snowflake_connector_node.Service.Okta.{reauthenticate}
use snowflake_connector_node.Service.Responses.{
  RenewResult, renew_ok, renew_error, on_request_error, on_request, on_delete_error, on_delete,
  after_renew_error, on_renew,
}
use snowflake_connector_node.Service.Network.{
  Answers, Event, connects, requests, destroys, answered, remove_at, on_message, on_answered, step,
  run,
}
use snowflake_connector_node.Service.Located.{
  hit, in_operation, in_queue, in_message, in_flight, in_replies, in_rejected, located, submits,
  submitted, in_flight-remove_at, located-send, located-reply, located-enqueue,
}
use snowflake_connector_node.Service.Drain.{
  is_settled, current-transition_to, located-transition_to, located-transition_to_disconnected,
  located-disconnect_reply, located-execute, located-drain,
}
use snowflake_connector_node.Service.Callbacks.{
  located-connect, located-clear_query_contexts, settled-disconnected, settled-after_renew_error,
  located-login_ok, located-login_error, located-reauthentication,
}

located-on_login :
    (k now : ℕ) (next : ℤ) (cfg : Config) (a : Attempt) (r : LoginResult) (s : Service)
    → located k (on_login cfg now next a r s) ≡ located k s + hit k a.call
unfolding on_login
located-on_login k now next cfg a (login_ok d) s = located-login_ok k a.call now cfg d s
located-on_login k now next cfg a (login_error f) s = located-login_error k cfg next a f s

-- A request whose session is gone goes to the queue, which a disconnected service answers.
located-request_gone :
    (k call : ℕ) (cfg : Config) (s : Service)
    → located k
        (drain_operation_queue cfg (transition_to_disconnected cfg (enqueue (request_op call) s)))
      ≡ located k s + hit k call
unfolding in_operation
located-request_gone k call cfg s =
    let queued = enqueue (request_op call) s in
    omega (
      arith,
      located-drain k cfg (transition_to_disconnected cfg queued) (settled-disconnected cfg queued),
      located-transition_to_disconnected k cfg queued,
      located-enqueue k (request_op call) s,
    )

located-request_error :
    (k call : ℕ) (cfg : Config) (c : GsCode) (f : Failure) (s : Service)
    → located k (on_request_error cfg call c f s) ≡ located k s + hit k call
unfolding on_request_error in_operation
located-request_error k call cfg session_token_expired f s = omega (
  arith,
  located-transition_to k cfg renewing (enqueue (request_op call) s),
  located-enqueue k (request_op call) s,
)
located-request_error k call cfg session_token_invalid f s = located-request_gone k call cfg s
located-request_error k call cfg gone_session f s = located-request_gone k call cfg s
located-request_error k call cfg master_token_expired f s = located-reply k call (failure f) s
located-request_error k call cfg other_code f s = located-reply k call (failure f) s

located-on_request :
    (k call : ℕ) (cfg : Config) (r : Option Failure) (s : Service)
    → located k (on_request cfg call r s) ≡ located k s + hit k call
unfolding on_request
located-on_request k call cfg none s = located-reply k call done s
located-on_request k call cfg (some f) s = located-request_error k call cfg f.code f s

located-delete_error :
    (k call : ℕ) (cfg : Config) (c : GsCode) (f : Failure) (s : Service)
    → located k (on_delete_error cfg call c f s) ≡ located k s + hit k call
unfolding on_delete_error
located-delete_error k call cfg session_token_expired f s =
    located-disconnect_reply k call cfg done s
located-delete_error k call cfg session_token_invalid f s = located-reply k call (failure f) s
located-delete_error k call cfg gone_session f s = located-disconnect_reply k call cfg done s
located-delete_error k call cfg master_token_expired f s = located-reply k call (failure f) s
located-delete_error k call cfg other_code f s = located-reply k call (failure f) s

located-on_delete :
    (k call : ℕ) (cfg : Config) (r : Option Failure) (s : Service)
    → located k (on_delete cfg call r s) ≡ located k s + hit k call
unfolding on_delete
located-on_delete k call cfg none s = located-disconnect_reply k call cfg done s
located-on_delete k call cfg (some f) s = located-delete_error k call cfg f.code f s

located-after_renew_error :
    (k : ℕ) (cfg : Config) (f : Failure) (s : Service)
    → located k (after_renew_error cfg f s) ≡ located k s
unfolding after_renew_error
located-after_renew_error k cfg f s =
    ground
      (arith, located-transition_to_disconnected k cfg s, located-transition_to k cfg connected s)

located-on_renew :
    (k now : ℕ) (cfg : Config) (r : RenewResult) (s : Service)
    → located k (on_renew cfg now r s) ≡ located k s
unfolding on_renew is_settled located
located-on_renew k now cfg (renew_ok d) s =
    let known = record s { tokens = update now d s.tokens } in
    located-drain k cfg (transition_to cfg connected none known)
      (ap is_settled (current-transition_to cfg connected none known))
    ∙ located-transition_to k cfg connected known
located-on_renew k now cfg (renew_error f) s =
    located-drain k cfg (after_renew_error cfg f s) (settled-after_renew_error cfg f s)
    ∙ located-after_renew_error k cfg f s

located-on_message :
    (k : ℕ) (cfg : Config) (m : Message) (r : Answers) (s : Service)
    → located k (on_message cfg m r s) ≡ located k s + in_message k m
unfolding on_message in_message
located-on_message k cfg (login a) r s = located-on_login k r.now r.next cfg a r.login_result s
located-on_message k cfg (retry_timer a) r s = located-send k (login a) s
located-on_message k cfg (reauthentication a) r s =
    located-reauthentication k a
      (reauthenticate cfg r.okta_answers a.num_retries a.total_elapsed_time) s
located-on_message k cfg (session_request call) r s = located-on_request k call cfg r.result s
located-on_message k cfg (delete_session call) r s = located-on_delete k call cfg r.result s
located-on_message k cfg renew r s = omega (arith, located-on_renew k r.now cfg r.renew_result s)

located-answered :
    (k i : ℕ) (cfg : Config) (r : Answers) (s : Service) (o : Option Message)
    → get_elem? s.waiting i ≡ o
    → located k (on_answered cfg i r s o) ≡ located k s
unfolding on_answered located
located-answered k i cfg r s none h = refl
located-answered k i cfg r s (some m) h = omega (
  arith,
  located-on_message k cfg m r (record s { waiting = remove_at i s.waiting }),
  in_flight-remove_at k i s.waiting h,
)

-- An event, whatever the state and the answer, changes how often a call stands in the queue, in
-- flight, among the answers and among the calls whose login callback threw, together, by how often
-- the event makes it: none is lost otherwise, and none doubled.
pub located-step :
    (k : ℕ) (cfg : Config) (s : Service) (e : Event)
    → located k (step cfg s e) ≡ located k s + submits k e
unfolding step connect request destroy submits in_operation located
located-step k cfg s (connects call) = located-connect k call cfg s.current s refl
located-step k cfg s (requests call) = located-execute k cfg (request_op call) s
located-step k cfg s (destroys call) = omega (
  arith,
  located-execute k cfg (destroy_op call) (clear_query_contexts s),
  located-clear_query_contexts k s,
)
located-step k cfg s (answered i r) =
    omega (arith, located-answered k i cfg r s (get_elem? s.waiting i) refl)

-- After any events a call stands in the queue, in flight, among the answers and among the calls
-- whose login callback threw, together, as often as it was made.
pub located-run :
    (k : ℕ) (cfg : Config) (tokens : TokenInfo) (es : List Event)
    → located k (run cfg tokens es) ≡ submitted k es
unfolding run located new_service submitted in_queue in_flight in_replies in_rejected
located-run k cfg tokens [] = refl
located-run k cfg tokens (e ∷ es) =
    omega (arith, located-step k cfg (run cfg tokens es) e, located-run k cfg tokens es)

-- After any events the callback of a call was called at most as often as the call was made.
pub answers-bounded :
    (k : ℕ) (cfg : Config) (tokens : TokenInfo) (es : List Event)
    → in_replies k (run cfg tokens es).replies ≤ submitted k es
unfolding located
answers-bounded k cfg tokens es = omega (arith, located-run k cfg tokens es)
