-- ===== src/Retry.antt =====
-- The retry rules: lib/util.ts, isRetryableError of lib/services/sf.js, and
-- lib/services/large_result_set.js. Times are whole numbers of one unit; what is multiplied by
-- Math.random() is given by a function that the caller of the model chooses.
pub mod LargeResultSet
pub mod Bounds
mod Examples
use snowflake_connector_node.Prelude.{
  ℕ, ◌+◌, ◌-◌, ◌*◌, ◌/◌, min, max, Bool, true, false, not, ◌&&◌, ◌||◌, Option, none, some, ltb, leb,
  ◌==◌, if◌then◌else◌,
}
use snowflake_connector_node.Prelude.Int.{ℤ, pos, ◌+ℤ◌, ◌-ℤ◌, min_ℤ, ltb_ℤ}

-- isRetryableHttpError, of a response's status; `none` is no response.
unfoldable pub is_retryable_http_error : Option ℕ → Bool → Bool
is_retryable_http_error none retry_403 = false
is_retryable_http_error (some status) retry_403 =
    (leb 500 status && ltb status 600)
    || (retry_403 && status == 403)
    || status == 408
    || status == 429

-- The `code` of an error's `cause`, as far as isRetryableError tells codes apart.
pub data CauseCode : Type 0 where
  ocsp_revoked depth_zero_self_signed_cert cert_has_expired unable_to_verify_leaf_signature
        self_signed_cert_in_chain crl_error other_cause :
      CauseCode

unfoldable pub is_retryable_cause : CauseCode → Bool
is_retryable_cause ocsp_revoked = false
is_retryable_cause depth_zero_self_signed_cert = false
is_retryable_cause cert_has_expired = false
is_retryable_cause unable_to_verify_leaf_signature = false
is_retryable_cause self_signed_cert_in_chain = false
is_retryable_cause crl_error = false
is_retryable_cause other_cause = true

-- isRetryableError: by the response if there is one, and else by the cause's code, if any.
unfoldable pub is_retryable_error : Option ℕ → Option CauseCode → Bool
unfolding is_retryable_http_error is_retryable_cause
is_retryable_error (some status) cause = is_retryable_http_error (some status) false
is_retryable_error none none = true
is_retryable_error none (some code) = is_retryable_cause code

-- |a - b|
abbrev pub distance : ℕ → ℕ → ℕ
distance a b = (a - b) + (b - a)

-- nextSleepTime: `random` multiplies by Math.random().
unfoldable pub next_sleep_time : (ℕ → ℕ) → ℕ → ℕ → ℕ → ℕ
next_sleep_time random base cap previous =
    min cap (random (distance (previous * 3) base) + min base (previous * 3))

pub record Jittered : Type 0 where
  pub sleep : ℤ
  pub total_elapsed_time : ℤ

-- getJitteredSleepTime, with the value of getNextSleepTime, which is random, as an argument.
unfoldable pub get_jittered_sleep_time : ℤ → ℤ → ℕ → Jittered
get_jittered_sleep_time next total max_retry_timeout =
    let sleep =
      if max_retry_timeout == 0 then next else min_ℤ (pos max_retry_timeout -ℤ total) next in
    record { sleep = sleep; total_elapsed_time = total +ℤ sleep }

-- validateClientSessionKeepAliveHeartbeatFrequency, on whole numbers of seconds.
unfoldable pub validate_heartbeat_frequency : ℕ → ℕ → ℕ
validate_heartbeat_frequency input master_validity =
    let real_max = master_validity / 4 in
    let real_min = real_max / 4 in
    if ltb real_max input then real_max else if ltb input real_min then real_min else input

-- shouldRetryOktaAuth, `now` being Date.now().
unfoldable pub should_retry_okta_auth : ℕ → ℕ → ℕ → ℕ → ℕ → ℤ → Bool
should_retry_okta_auth now max_retry_timeout max_retry_count num_retries start_time remaining =
    (max_retry_timeout == 0 || ltb_ℤ (pos now) (pos start_time +ℤ remaining))
    && leb num_retries max_retry_count
