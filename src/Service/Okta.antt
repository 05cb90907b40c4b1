-- ===== src/Service/Okta.antt =====
-- reauthenticate of lib/authentication/auth_okta.js. Times are whole seconds.
use snowflake_connector_node.Prelude.{
  ℕ, zero, suc, ◌+◌, ◌-◌, ◌<◌, ◌≡◌, refl, Bool, true, ◌&&◌, not, Option, none, some, ltb,
  if◌then◌else◌, arith, ap, ◌∙◌,
}
use snowflake_connector_node.Prelude.Int.{ℤ, pos, ltb_ℤ, leb_ℤ, ◌+ℤ◌, ◌-ℤ◌}
use snowflake_connector_node.Retry.{should_retry_okta_auth}
use snowflake_connector_node.Service.State.{Config}

-- The retries and the time used that it leaves, unless it throws.
pub data Reauthentication : Type 0 where
  reauthenticated : ℕ → ℤ → Reauthentication
  reauthentication_failed : Reauthentication

-- The clock at the start, at the test before each round, and at the two tests behind the loop; and
-- the answers of Okta by the round, `none` where a request fails: whether validateSAML lets the
-- response pass.
pub record OktaAnswers : Type 0 where
  pub start_time : ℕ
  pub now : ℕ → ℕ
  pub saml : ℕ → Option Bool
  pub checked : ℕ
  pub end_time : ℕ

-- What the loop leaves: the retries, and the response if there is one.
pub record OktaRounds : Type 0 where
  pub num_retries : ℕ
  pub response : Option Bool

abbrev pub after_okta_round : ℕ → OktaRounds → Option Bool → OktaRounds
after_okta_round n next none = next
after_okta_round n next (some v) = record { num_retries = n; response = some v }

-- The loop, with the rounds that are left.
unfoldable pub okta_rounds : Config → OktaAnswers → ℤ → ℕ → ℕ → ℕ → OktaRounds
okta_rounds cfg a remaining zero i n = record { num_retries = n; response = none }
okta_rounds cfg a remaining (suc fuel) i n =
    let next = okta_rounds cfg a remaining fuel (suc i) (suc n) in
    if should_retry_okta_auth (a.now i) cfg.retry_timeout cfg.max_login_retries n a.start_time
      remaining
    then after_okta_round n next (a.saml i)
    else record { num_retries = n; response = none }

abbrev pub is_zero : ℤ → Bool
is_zero x = leb_ℤ x (pos 0) && leb_ℤ (pos 0) x

abbrev pub validated : ℕ → ℤ → Option Bool → Reauthentication
validated n elapsed (some true) = reauthenticated n elapsed
validated n elapsed _ = reauthentication_failed

-- As many rounds are enough as retries are left, and one.
unfoldable pub reauthenticate : Config → OktaAnswers → ℕ → ℤ → Reauthentication
unfolding okta_rounds
reauthenticate cfg a num_retries total =
    let remaining = pos cfg.retry_timeout -ℤ total in
    let r = okta_rounds cfg a remaining (suc cfg.max_login_retries - num_retries) 0 num_retries in
    if not (is_zero remaining) && ltb_ℤ (pos a.start_time +ℤ remaining) (pos a.checked)
    then reauthentication_failed
    else if ltb cfg.max_login_retries r.num_retries
    then reauthentication_failed
    else validated r.num_retries (total +ℤ (pos a.end_time -ℤ pos a.start_time)) r.response

suc_+ : (a b : ℕ) → suc a + b ≡ suc (a + b)
suc_+ a b = omega arith

-- More rounds than that change nothing.
okta_rounds-enough :
    (cfg : Config) (a : OktaAnswers) (remaining : ℤ) (fuel more i n : ℕ)
    → cfg.max_login_retries < n + fuel
    → okta_rounds cfg a remaining (fuel + more) i n ≡ okta_rounds cfg a remaining fuel i n
unfolding okta_rounds
okta_rounds-enough cfg a remaining zero zero i n h = refl
okta_rounds-enough cfg a remaining zero (suc more) i n h =
    unfold should_retry_okta_auth in ground (arith, h)
okta_rounds-enough cfg a remaining (suc fuel) more i n h =
    ap (λ (k : ℕ). okta_rounds cfg a remaining k i n) (suc_+ fuel more)
    ∙ ap
        (λ (next : OktaRounds).
          if should_retry_okta_auth (a.now i) cfg.retry_timeout cfg.max_login_retries n a.start_time
            remaining
          then after_okta_round n next (a.saml i)
          else record { num_retries = n; response = none })
        (okta_rounds-enough cfg a remaining fuel more (suc i) (suc n) (omega (arith, h)))
