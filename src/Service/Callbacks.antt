-- ===== src/Service/Callbacks.antt =====
-- The callbacks of lib/services/sf.js keep where each call stands, but for the message answered.
use snowflake_connector_node.Prelude.{
  ℕ, ◌+◌, ◌≡◌, refl, ◌∙◌, ap, Bool, true, false, if◌then◌else◌, none, some, arith, Bool-cases,
  Option-cases, inl, inr,
}
use snowflake_connector_node.Prelude.Int.{ℤ, pos, leb_ℤ}
use snowflake_connector_node.Service.Tokens.{update}
use snowflake_connector_node.Service.State.{
  ConnectionState, pristine, connecting, connected, renewing, disconnected, Failure, Reply, Attempt,
  retry_timer, reauthentication, send, Config, Service, reply, failure, done, connect_connecting,
  connect_connected, connect_disconnected,
}
use snowflake_connector_node.Service.Calls.{
  transition_to, transition_to_disconnected, connect_in, clear_query_contexts,
  initialize_query_context_cache,
}
use snowflake_connector_node.Service.Login.{
  LoginData, finish_login, on_login_ok, retries_login, next_attempt, retry_login, on_login_error,
  is_okta, on_reauthentication,
}
use snowflake_connector_node.Service.Okta.{
  Reauthentication, reauthenticated, reauthentication_failed,
}
use snowflake_connector_node.Service.Responses.{after_renew_error}
use snowflake_connector_node.Service.Located.{
  hit, in_message, located, located-send, located-reply, located-reject,
}
use snowflake_connector_node.Service.Drain.{
  is_settled, current-transition_to, located-transition_to, located-connecting,
  located-transition_to_disconnected, located-drain,
}

pub located-connect :
    (k call : ℕ) (cfg : Config) (c : ConnectionState) (s : Service)
    → s.current ≡ c
    → located k (connect_in cfg c call s) ≡ located k s + hit k call
unfolding connect_in
located-connect k call cfg pristine s h = located-connecting k cfg call s h
located-connect k call cfg connecting s h = located-reply k call connect_connecting s
located-connect k call cfg connected s h = located-reply k call connect_connected s
located-connect k call cfg renewing s h = located-reply k call connect_connected s
located-connect k call cfg disconnected s h = located-reply k call connect_disconnected s

pub located-clear_query_contexts :
    (k : ℕ) (s : Service) → located k (clear_query_contexts s) ≡ located k s
unfolding clear_query_contexts located
located-clear_query_contexts k s = elim (Option-cases s.qcc) [
  | inl e ↦ rw e refl
  | inr (c, e) ↦ rw e refl
]

-- What holds after the callback of a connect call and the queue, in a settled state.
located-finish_login :
    (k call : ℕ) (cfg : Config) (r : Reply) (s : Service)
    → is_settled s.current ≡ true
    → located k (finish_login cfg call r s) ≡ located k s + hit k call
unfolding finish_login reply
located-finish_login k call cfg r s h =
    omega (arith, located-drain k cfg (reply call r s) h, located-reply k call r s)

pub settled-transition_to :
    (cfg : Config) (c : ConnectionState) (s : Service)
    → is_settled c ≡ true
    → is_settled (transition_to cfg c none s).current ≡ true
settled-transition_to cfg c s h = rw (current-transition_to cfg c none s) h

pub settled-disconnected :
    (cfg : Config) (s : Service) → is_settled (transition_to_disconnected cfg s).current ≡ true
unfolding transition_to_disconnected is_settled
settled-disconnected cfg s = settled-transition_to cfg disconnected s refl

-- After a renewal that failed the service is connected or disconnected.
pub settled-after_renew_error :
    (cfg : Config) (f : Failure) (s : Service)
    → is_settled (after_renew_error cfg f s).current ≡ true
unfolding after_renew_error is_settled
settled-after_renew_error cfg f s =
    ground (arith, settled-disconnected cfg s, settled-transition_to cfg connected s refl)

located-initialize :
    (k size : ℕ) (cfg : Config) (s : Service)
    → located k (initialize_query_context_cache cfg size s) ≡ located k s
unfolding initialize_query_context_cache located
located-initialize k size cfg s = elim (Bool-cases cfg.disable_query_context_cache) [
  | inl e ↦ rw e refl
  | inr e ↦ rw e refl
]

pub current-initialize :
    (size : ℕ) (cfg : Config) (s : Service)
    → (initialize_query_context_cache cfg size s).current ≡ s.current
unfolding initialize_query_context_cache
current-initialize size cfg s = ground arith

pub located-login_ok :
    (k call now : ℕ) (cfg : Config) (d : LoginData) (s : Service)
    → located k (on_login_ok cfg now call d s) ≡ located k s + hit k call
unfolding on_login_ok is_settled located
located-login_ok k call now cfg d s =
    let known = record s {
      session_id = some d.session_id;
      tokens = update now d.tokens s.tokens;
    } in
    let t = transition_to cfg connected none known in
    let size = d.query_context_cache_size in
    let settled =
      ap is_settled
        (current-initialize size cfg t ∙ current-transition_to cfg connected none known) in
    omega (
      arith,
      located-finish_login k call cfg done (initialize_query_context_cache cfg size t) settled,
      located-initialize k size cfg t,
      located-transition_to k cfg connected known,
    )

located-retry :
    (k : ℕ) (b : Bool) (a : Attempt) (s : Service)
    → located k (if b then send (reauthentication a) s else send (retry_timer a) s)
      ≡ located k s + hit k a.call
unfolding in_message
located-retry k true a s = located-send k (reauthentication a) s
located-retry k false a s = located-send k (retry_timer a) s

pub located-retry_login :
    (k : ℕ) (cfg : Config) (a : Attempt) (s : Service)
    → located k (retry_login cfg a s) ≡ located k s + hit k a.call
unfolding retry_login
located-retry_login k cfg a s = elim (Bool-cases (leb_ℤ a.sleep (pos 0))) [
  | inl e ↦ rw e (
      omega (
        arith,
        located-retry k (is_okta cfg.auth) a (transition_to_disconnected cfg s),
        located-transition_to_disconnected k cfg s,
      ))
  | inr e ↦ rw e (located-retry k (is_okta cfg.auth) a s)
]

pub located-reauthentication :
    (k : ℕ) (a : Attempt) (r : Reauthentication) (s : Service)
    → located k (on_reauthentication a r s) ≡ located k s + hit k a.call
unfolding on_reauthentication in_message
located-reauthentication k a (reauthenticated n elapsed) s =
    located-send k (retry_timer (record a { num_retries = n; total_elapsed_time = elapsed })) s
located-reauthentication k a reauthentication_failed s = located-reject k a.call s

pub located-login_error :
    (k : ℕ) (cfg : Config) (next : ℤ) (a : Attempt) (f : Failure) (s : Service)
    → located k (on_login_error cfg next a f s) ≡ located k s + hit k a.call
unfolding on_login_error next_attempt
located-login_error k cfg next a f s = elim (Bool-cases (retries_login cfg a f)) [
  | inl e ↦ rw e (located-retry_login k cfg (next_attempt cfg next a) s)
  | inr e ↦ rw e (
      omega (
        arith,
        located-finish_login k a.call cfg (failure f) (transition_to_disconnected cfg s)
            (settled-disconnected cfg s),
        located-transition_to_disconnected k cfg s,
      ))
]
