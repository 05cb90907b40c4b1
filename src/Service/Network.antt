-- ===== src/Service/Network.antt =====
-- The service of lib/services/sf.js between a client and the network: which calls are made and which
-- of the messages in flight is answered next is up to the environment.
use snowflake_connector_node.Prelude.{ℕ, zero, suc, Option, none, some, List, [], ◌∷◌, get_elem?}
use snowflake_connector_node.Prelude.Int.{ℤ}
use snowflake_connector_node.Service.Tokens.{TokenInfo}
use snowflake_connector_node.Service.State.{
  Failure, Message, login, retry_timer, reauthentication, session_request, delete_session, renew,
  Config, Service, send,
}
use snowflake_connector_node.Service.Calls.{connect, request, destroy, new_service}
use snowflake_connector_node.Service.Login.{LoginResult, on_login, on_reauthentication}
use snowflake_connector_node.Service.Okta.{OktaAnswers, reauthenticate}
use snowflake_connector_node.Service.Responses.{RenewResult, on_request, on_delete, on_renew}

-- The answers that the environment holds ready, one for each kind of message: the time, the sleep
-- that a retry would draw, and the results.
pub record Answers : Type 0 where
  pub now : ℕ
  pub next : ℤ
  pub login_result : LoginResult
  pub renew_result : RenewResult
  pub result : Option Failure
  pub okta_answers : OktaAnswers

pub data Event : Type 0 where
  connects requests destroys : ℕ → Event
  -- the message at this place of those in flight is answered
  answered : ℕ → Answers → Event

unfoldable pub remove_at : ℕ → List Message → List Message
remove_at i [] = []
remove_at zero (m ∷ ms) = ms
remove_at (suc i) (m ∷ ms) = m ∷ remove_at i ms

-- An answer is handled by the callback of its request; the timer of a retry sends the login again.
unfoldable pub on_message : Config → Message → Answers → Service → Service
on_message cfg (login a) r s = on_login cfg r.now r.next a r.login_result s
on_message cfg (retry_timer a) r s = send (login a) s
on_message cfg (reauthentication a) r s =
    on_reauthentication a (reauthenticate cfg r.okta_answers a.num_retries a.total_elapsed_time) s
on_message cfg (session_request call) r s = on_request cfg call r.result s
on_message cfg (delete_session call) r s = on_delete cfg call r.result s
on_message cfg renew r s = on_renew cfg r.now r.renew_result s

-- The message at place `i` is no longer in flight when it is handled.
unfoldable pub on_answered : Config → ℕ → Answers → Service → Option Message → Service
unfolding remove_at on_message
on_answered cfg i r s none = s
on_answered cfg i r s (some m) = on_message cfg m r (record s { waiting = remove_at i s.waiting })

unfoldable pub step : Config → Service → Event → Service
unfolding on_answered
step cfg s (connects call) = connect cfg call s
step cfg s (requests call) = request cfg call s
step cfg s (destroys call) = destroy cfg call s
step cfg s (answered i r) = on_answered cfg i r s (get_elem? s.waiting i)

-- The latest event stands first.
unfoldable pub run : Config → TokenInfo → List Event → Service
run cfg tokens [] = new_service tokens
run cfg tokens (e ∷ es) = step cfg (run cfg tokens es) e
