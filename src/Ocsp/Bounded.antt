-- ===== src/Ocsp/Bounded.antt =====
-- lib/agent/check.js: how often a responder is asked.
use snowflake_connector_node.Prelude.{ℕ, suc, ◌≡◌, refl, Bool, true, false, ltb, none, ap, sym, ◌∙◌}
use snowflake_connector_node.Ocsp.Responses.{Crypto, other_error}
use snowflake_connector_node.Ocsp.Check.{
  ResponderAnswer, gave_response, failed_with, Outcome, Asked, max_num_retries,
  ocsp_response_verify, ocsp_request_callback, ocsp_request_send, error_outcome, check,
  or_generate_error,
}

-- At the last attempt nothing depends on the next one.
last-eq :
    (crypto : Crypto) (a : Asked) (next next' : Outcome) (r : ResponderAnswer)
    → ocsp_response_verify crypto a false next r ≡ ocsp_response_verify crypto a false next' r
unfolding ocsp_response_verify
last-eq crypto a next next' (gave_response raw) = refl
last-eq crypto a next next' (failed_with e) = refl

-- In the mode that is closed the second attempt is the last, and in the other the first.
send-last :
    (crypto : Crypto) (closed : Bool) (a : Asked) (left num_retries : ℕ)
    → ltb num_retries (max_num_retries closed) ≡ false
    → ocsp_request_send crypto closed a (suc left) num_retries
      ≡ ocsp_request_send crypto closed a 1 num_retries
unfolding ocsp_request_send
send-last crypto closed a left num_retries h =
    ap (λ (r : Outcome). ocsp_request_callback closed r a.authority_error)
      (last (ltb num_retries (max_num_retries closed)) h
        (ocsp_request_send crypto closed a left (suc num_retries))
        (error_outcome (other_error none)))
  where
    last :
        (more : Bool)
        → more ≡ false
        → (next next' : Outcome)
        → ocsp_response_verify crypto a more next (a.answer num_retries)
          ≡ ocsp_response_verify crypto a more next' (a.answer num_retries)
    last true q next next' = cc
    last false q next next' = last-eq crypto a next next' (a.answer num_retries)

send-two :
    (crypto : Crypto) (closed : Bool) (a : Asked) (more : ℕ)
    → ocsp_request_send crypto closed a (suc (suc more)) 1 ≡ ocsp_request_send crypto closed a 2 1
unfolding ocsp_request_send
send-two crypto true a more =
    ap
      (λ (r : Outcome).
        ocsp_request_callback true (ocsp_response_verify crypto a true r (a.answer 1))
          a.authority_error)
      (send-last crypto true a more 2 refl)
send-two crypto false a more =
    send-last crypto false a (suc more) 1 refl ∙ sym (send-last crypto false a 1 1 refl)

-- With more attempts than two allowed, check gives the same: a third answer is never waited for.
pub check-attempts :
    (crypto : Crypto) (closed : Bool) (a : Asked) (more : ℕ)
    → or_generate_error (ocsp_request_send crypto closed a (suc (suc more)) 1) a.generate_error
      ≡ check crypto closed a
unfolding check
check-attempts crypto closed a more =
    ap (λ (r : Outcome). or_generate_error r a.generate_error) (send-two crypto closed a more)
