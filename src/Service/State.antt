-- ===== src/Service/State.antt =====
-- The state of the service of lib/services/sf.js, what it sends and what it answers. A call is named
-- by a number that stands for its options object, callback included.
use snowflake_connector_node.Prelude.{ℕ, Bool, Option, List, [], ◌∷◌, ◌++◌}
use snowflake_connector_node.Prelude.Int.{ℤ}
use snowflake_connector_node.Retry.{CauseCode}
use snowflake_connector_node.QueryContext.{Cache}
use snowflake_connector_node.Service.Tokens.{TokenInfo}

pub data ConnectionState : Type 0 where
  pristine connecting connected renewing disconnected : ConnectionState

pub data Operation : Type 0 where
  request_op destroy_op : ℕ → Operation

-- The error codes of the server that the service tells apart.
pub data GsCode : Type 0 where
  session_token_invalid gone_session session_token_expired master_token_expired other_code : GsCode

-- isNetworkError, isRequestFailedError, or neither.
pub data ErrorKind : Type 0 where
  network_error request_failed_error other_error : ErrorKind

pub record Failure : Type 0 where
  pub kind : ErrorKind
  pub code : GsCode
  pub status : Option ℕ
  pub cause : Option CauseCode

-- What a callback is given.
pub data Reply : Type 0 where
  done : Reply
  failure : Failure → Reply
  request_pristine request_disconnected destroy_pristine destroy_disconnected connect_connecting
        connect_connected connect_disconnected :
      Reply

-- The variables of StateConnecting.continue between two login requests, with the call that it
-- answers.
pub record Attempt : Type 0 where
  pub call : ℕ
  pub num_retries : ℕ
  pub sleep : ℤ
  pub total_elapsed_time : ℤ

-- What the service waits for: the response of a request that it sent, a timer, or the
-- reauthentication of Okta.
pub data Message : Type 0 where
  login : Attempt → Message
  retry_timer : Attempt → Message
  reauthentication : Attempt → Message
  session_request : ℕ → Message
  delete_session : ℕ → Message
  renew : Message

pub data AuthKind : Type 0 where
  okta key_pair other_auth : AuthKind

pub record Config : Type 0 where
  pub max_login_retries : ℕ
  pub retry_timeout : ℕ
  pub starting_sleep_time : ℤ
  pub server_session_keep_alive : Bool
  pub disable_query_context_cache : Bool
  pub auth : AuthKind

-- `waiting` is what was sent and not answered; `replies` is what callbacks were given, oldest
-- first. `rejected` are the calls whose login callback threw, whose promise nobody awaits. `context`
-- is the call that StateConnecting holds.
pub record Service : Type 0 where
  pub current : ConnectionState
  pub context : Option ℕ
  pub tokens : TokenInfo
  pub session_id : Option ℕ
  pub qcc : Option Cache
  pub queue : List Operation
  pub waiting : List Message
  pub replies : List (ℕ × Reply)
  pub rejected : List ℕ

unfoldable pub send : Message → Service → Service
send m s = record s { waiting = s.waiting ++ m ∷ [] }

-- callback(…), at once or in the next tick.
unfoldable pub reply : ℕ → Reply → Service → Service
reply call r s = record s { replies = s.replies ++ (call, r) ∷ [] }

unfoldable pub enqueue : Operation → Service → Service
enqueue op s = record s { queue = s.queue ++ op ∷ [] }
