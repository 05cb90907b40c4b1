-- ===== src/Service/LoginRetries.antt =====
-- The retries of a failed login of lib/services/sf.js.
use snowflake_connector_node.Prelude.{
  ℕ, suc, ◌≤◌, ◌<◌, ◌⊎◌, ◌≡◌, true, false, arith, refl, if◌then◌else◌,
}
use snowflake_connector_node.Prelude.Int.{ℤ, pos, ◌-ℤ◌, ◌≤ℤ◌, leb_ℤ, +ℤ_parts, -ℤ_parts}
use snowflake_connector_node.Retry.{get_jittered_sleep_time}
use snowflake_connector_node.Service.State.{
  Attempt, Failure, retry_timer, reauthentication, Config, Service, send,
}
use snowflake_connector_node.Service.Login.{
  retries_login, next_attempt, retry_login, on_login_error, is_okta,
}

-- The sleep of a retry is positive, and what it leaves of the timeout is not negative.
in_time :
    (next total : ℤ) (timeout : ℕ)
    → leb_ℤ next (pos 0) ≡ false
    → (timeout ≡ 0) ⊎ (leb_ℤ (pos timeout) total ≡ false)
    → (leb_ℤ (get_jittered_sleep_time next total timeout).sleep (pos 0) ≡ false)
      × ((timeout ≡ 0)
          ⊎ ((get_jittered_sleep_time next total timeout).total_elapsed_time ≤ℤ pos timeout))
unfolding get_jittered_sleep_time
in_time next total timeout h t = ground (
  arith,
  -ℤ_parts (pos timeout) total,
  +ℤ_parts total (pos timeout -ℤ total),
  +ℤ_parts total next,
)

-- A login that is retried has retries and time left.
retries-left :
    (cfg : Config) (a : Attempt) (f : Failure)
    → retries_login cfg a f ≡ true
    → (a.num_retries < cfg.max_login_retries)
      × ((cfg.retry_timeout ≡ 0) ⊎ (leb_ℤ (pos cfg.retry_timeout) a.total_elapsed_time ≡ false))
unfolding retries_login
retries-left cfg a f h = ground arith

-- Where a failed login is retried and the drawn sleep is positive, the service stays as it is but
-- for the timer of the next attempt, or with Okta its reauthentication; the number of retries is one
-- more and at most the configured one, and the time used, where a timeout is set, is within it.
pub login_error-retried :
    (cfg : Config) (next : ℤ) (a : Attempt) (f : Failure) (s : Service)
    → retries_login cfg a f ≡ true
    → leb_ℤ next (pos 0) ≡ false
    → (on_login_error cfg next a f s ≡ (
        if is_okta cfg.auth
        then send (reauthentication (next_attempt cfg next a)) s
        else send (retry_timer (next_attempt cfg next a)) s))
      × ((next_attempt cfg next a).num_retries ≡ suc a.num_retries)
      × (suc a.num_retries ≤ cfg.max_login_retries)
      × ((cfg.retry_timeout ≡ 0)
          ⊎ ((next_attempt cfg next a).total_elapsed_time ≤ℤ pos cfg.retry_timeout))
unfolding on_login_error retry_login next_attempt
login_error-retried cfg next a f s h p =
    let (left, time) = retries-left cfg a f h in
    let (sleeps, used) = in_time next a.total_elapsed_time cfg.retry_timeout p time in
    rw (h, sleeps) (refl, refl, omega (arith, left), used)
