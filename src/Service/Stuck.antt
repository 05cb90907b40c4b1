-- ===== src/Service/Stuck.antt =====
-- A login with Okta whose reauthentication throws (lib/services/sf.js and
-- lib/authentication/auth_okta.js): nobody awaits the promise of its callback.
use snowflake_connector_node.Prelude.{
  ℕ, ◌+◌, ◌≤◌, ◌≡◌, refl, ◌∙◌, ap, Bool, true, false, if◌then◌else◌, List, [], ◌∷◌, ◌++◌, get_elem?,
  arith,
}
use snowflake_connector_node.Prelude.Int.{ℤ, pos, leb_ℤ, ◌-ℤ◌, +ℤ_parts, -ℤ_parts}
use snowflake_connector_node.Retry.{get_jittered_sleep_time}
use snowflake_connector_node.Service.Tokens.{TokenInfo, no_tokens}
use snowflake_connector_node.Service.State.{
  connecting, connect_connecting, request_op, destroy_op, retry_timer, Attempt, Failure, Message,
  login, reauthentication, Config, Service, send, reply, enqueue,
}
use snowflake_connector_node.Service.Calls.{
  connect, connect_in, request, request_in, destroy, destroy_in, clear_query_contexts, new_service,
}
use snowflake_connector_node.Service.Okta.{reauthentication_failed, OktaAnswers, reauthenticate}
use snowflake_connector_node.Service.Login.{
  login_error, on_login, on_login_error, retries_login, next_attempt, is_okta, on_reauthentication,
  reject,
}
use snowflake_connector_node.Service.LoginRetries.{login_error-retried}
use snowflake_connector_node.Service.Network.{
  Answers, Event, connects, requests, destroys, answered, on_message, on_answered, step, run,
}
use snowflake_connector_node.Service.Located.{hit, in_replies, in_replies-append}

-- Without a timeout the time that is left counts as negative once time was used, and the clock is
-- past it.
reauthenticate-unlimited :
    (cfg : Config) (a : OktaAnswers) (n : ℕ) (total : ℤ)
    → cfg.retry_timeout ≡ 0
    → leb_ℤ total (pos 0) ≡ false
    → a.start_time ≤ a.checked
    → reauthenticate cfg a n total ≡ reauthentication_failed
unfolding reauthenticate
reauthenticate-unlimited cfg a n total t p c = ground (
  arith,
  -ℤ_parts (pos cfg.retry_timeout) total,
  +ℤ_parts (pos a.start_time) (pos cfg.retry_timeout -ℤ total),
)

-- The time used of the first retry is the sleep that was drawn.
next_attempt-unlimited :
    (cfg : Config) (next : ℤ) (a : Attempt)
    → cfg.retry_timeout ≡ 0
    → a.total_elapsed_time ≡ pos 0
    → leb_ℤ next (pos 0) ≡ false
    → leb_ℤ (next_attempt cfg next a).total_elapsed_time (pos 0) ≡ false
unfolding next_attempt get_jittered_sleep_time
next_attempt-unlimited cfg next a t z p = ground (arith, +ℤ_parts a.total_elapsed_time next)

-- How often events ask for another connection.
abbrev pub reconnects : ℕ → List Event → ℕ
reconnects k [] = 0
reconnects k (connects call ∷ es) = hit k call + reconnects k es
reconnects k (e ∷ es) = reconnects k es

-- The service waits for nothing, and is as good as logging in.
abbrev pub IsStuck : Service → Type 0
IsStuck s = (s.current ≡ connecting) × (s.waiting ≡ [])

connect-refused :
    (cfg : Config) (call : ℕ) (s : Service)
    → s.current ≡ connecting
    → connect cfg call s ≡ reply call connect_connecting s
unfolding connect
connect-refused cfg call s h = ap (λ c. connect_in cfg c call s) h

request-queued :
    (cfg : Config) (call : ℕ) (s : Service)
    → s.current ≡ connecting
    → request cfg call s ≡ enqueue (request_op call) s
unfolding request
request-queued cfg call s h = ap (λ c. request_in c call s) h

destroy-queued :
    (cfg : Config) (call : ℕ) (s : Service)
    → (clear_query_contexts s).current ≡ connecting
    → destroy cfg call s ≡ enqueue (destroy_op call) (clear_query_contexts s)
unfolding destroy
destroy-queued cfg call s h = ap (λ c. destroy_in cfg c call (clear_query_contexts s)) h

cleared-same :
    (s : Service)
    → ((clear_query_contexts s).current ≡ s.current)
      × ((clear_query_contexts s).waiting ≡ s.waiting)
      × ((clear_query_contexts s).replies ≡ s.replies)
unfolding clear_query_contexts
cleared-same s = ground arith

step-IsStuck :
    (k : ℕ) (cfg : Config) (s : Service) (e : Event) (es : List Event)
    → IsStuck s
    → in_replies k s.replies ≡ reconnects k es
    → IsStuck (step cfg s e) × (in_replies k (step cfg s e).replies ≡ reconnects k (e ∷ es))
unfolding step on_answered reply enqueue in_replies
step-IsStuck k cfg s (connects call) es (c, w) h =
    rw (connect-refused cfg call s c)
      (((c, w), omega (arith, in_replies-append k s.replies ((call, connect_connecting) ∷ []), h)))
step-IsStuck k cfg s (requests call) es (c, w) h = rw (request-queued cfg call s c) ((c, w), h)
step-IsStuck k cfg s (destroys call) es (c, w) h =
    let (same, waiting, replies) = cleared-same s in
    rw (destroy-queued cfg call s (same ∙ c))
      ((same ∙ c, waiting ∙ w), ap (in_replies k) replies ∙ h)
step-IsStuck k cfg s (answered i r) es (c, w) h = rw w ((c, refl), h)

events-IsStuck :
    (k : ℕ) (cfg : Config) (tokens : TokenInfo) (es base : List Event)
    → IsStuck (run cfg tokens base)
    → (run cfg tokens base).replies ≡ []
    → IsStuck (run cfg tokens (es ++ base))
      × (in_replies k (run cfg tokens (es ++ base)).replies ≡ reconnects k es)
unfolding run in_replies
events-IsStuck k cfg tokens [] base h r = (h, ap (in_replies k) r)
events-IsStuck k cfg tokens (e ∷ es) base h r =
    let (stuck, replies) = events-IsStuck k cfg tokens es base h r in
    step-IsStuck k cfg (run cfg tokens (es ++ base)) e es stuck replies

-- The first attempt of a login.
abbrev pub first_attempt : Config → ℕ → Attempt
first_attempt cfg call = record {
  call = call;
  num_retries = 0;
  sleep = cfg.starting_sleep_time;
  total_elapsed_time = pos 0;
}

-- What the failure of a login leaves that is tried again with Okta.
reauthenticates :
    (cfg : Config) (next : ℤ) (a : Attempt) (f : Failure) (s : Service)
    → is_okta cfg.auth ≡ true
    → retries_login cfg a f ≡ true
    → leb_ℤ next (pos 0) ≡ false
    → on_login_error cfg next a f s ≡ send (reauthentication (next_attempt cfg next a)) s
reauthenticates cfg next a f s o h p =
    (login_error-retried cfg next a f s h p).0
    ∙ ap
        (λ (b : Bool).
          if b
          then send (reauthentication (next_attempt cfg next a)) s
          else send (retry_timer (next_attempt cfg next a)) s)
        o

alone-step :
    (cfg : Config) (s : Service) (m : Message) (r : Answers)
    → s.waiting ≡ m ∷ []
    → step cfg s (answered 0 r) ≡ on_message cfg m r (record s { waiting = [] })
unfolding step
alone-step cfg s m r w =
    ap (λ (ms : List Message). on_answered cfg 0 r (record s { waiting = ms }) (get_elem? ms 0)) w

-- Where the first attempt of a login with Okta failed and is tried again, without a timeout, and its
-- reauthentication is answered.
record IsUnlimited (cfg : Config) (a : Attempt) (r q : Answers) (f : Failure) : Type 0 where
  uses_okta : is_okta cfg.auth ≡ true
  no_timeout : cfg.retry_timeout ≡ 0
  fails : r.login_result ≡ login_error f
  is_retried : retries_login cfg a f ≡ true
  sleeps : leb_ℤ r.next (pos 0) ≡ false
  runs : q.okta_answers.start_time ≤ q.okta_answers.checked

-- The login that is answered, and then its reauthentication, in a service that waits for it alone.
rejected-eq :
    (cfg : Config) (s : Service) (a : Attempt) (r q : Answers) (f : Failure)
    → s.waiting ≡ login a ∷ []
    → a.total_elapsed_time ≡ pos 0
    → IsUnlimited cfg a r q f
    → step cfg (step cfg s (answered 0 r)) (answered 0 q)
      ≡ reject a.call (record s { waiting = [] })
unfolding on_message on_login send next_attempt on_reauthentication
rejected-eq cfg s a r q f w z u =
    let idle = record s { waiting = [] } in
    let again = next_attempt cfg r.next a in
    let sent = send (reauthentication again) idle in
    let failed =
      reauthenticate-unlimited cfg q.okta_answers again.num_retries again.total_elapsed_time
        u.no_timeout (next_attempt-unlimited cfg r.next a u.no_timeout z u.sleeps) u.runs in
    ap (λ (t : Service). step cfg t (answered 0 q))
      (alone-step cfg s (login a) r w
        ∙ ap (λ x. on_login cfg r.now r.next a x idle) u.fails
        ∙ reauthenticates cfg r.next a f idle u.uses_okta u.is_retried u.sleeps)
    ∙ alone-step cfg sent (reauthentication again) q refl
    ∙ ap (λ x. on_reauthentication again x idle) failed

-- Without a retry timeout, and with a clock that does not go back, where the first attempt of the
-- connect call of a new service without tokens, with Okta, fails in a way that is tried again
-- after a positive sleep: its reauthentication throws, whatever Okta answers, and from then on,
-- whatever calls are made, the service stays connecting with nothing in flight, and the only
-- callbacks that are called are those of further connect calls: never that of the connect call,
-- nor one of a request or a destroy.
pub unlimited-IsStuck :
    (k call : ℕ) (cfg : Config) (r q : Answers) (f : Failure) (es : List Event)
    → is_okta cfg.auth ≡ true
    → cfg.retry_timeout ≡ 0
    → r.login_result ≡ login_error f
    → retries_login cfg (first_attempt cfg call) f ≡ true
    → leb_ℤ r.next (pos 0) ≡ false
    → q.okta_answers.start_time ≤ q.okta_answers.checked
    → (let s = run cfg no_tokens (es ++ answered 0 q ∷ answered 0 r ∷ connects call ∷ []) in
        IsStuck s × (in_replies k s.replies ≡ reconnects k es))
unfolding run connect new_service step reject no_tokens
unlimited-IsStuck k call cfg r q f es o t l h p c =
    let start = run cfg no_tokens (connects call ∷ []) in
    let eq =
      rejected-eq cfg start (first_attempt cfg call) r q f refl refl (record {
        uses_okta = o;
        no_timeout = t;
        fails = l;
        is_retried = h;
        sleeps = p;
        runs = c;
      }) in
    events-IsStuck k cfg no_tokens es (answered 0 q ∷ answered 0 r ∷ connects call ∷ [])
      (ap (λ s. s.current) eq, ap (λ s. s.waiting) eq) (ap (λ s. s.replies) eq)
