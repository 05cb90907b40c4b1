-- ===== src/Ocsp/Closed.antt =====
-- The mode of lib/agent/socket_util.js that is closed: what a socket that passes says of its chain.
use snowflake_connector_node.Prelude.{
  ℕ, zero, suc, ◌+◌, ◌≤◌, ◌<◌, ◌≡◌, ◌⊎◌, refl, Bool, true, false, ◌&&◌, ◌||◌, not, Option, none,
  some, List, [], ◌∷◌, ◌==◌, if◌then◌else◌, length, Bool-cases, inl, inr, arith, ap, sym, ◌∙◌,
  subst, ltb,
}
use snowflake_connector_node.Ocsp.Responses.{OcspError, Crypto, verify_ocsp_response}
use snowflake_connector_node.Ocsp.Check.{
  ResponderAnswer, gave_response, failed_with, Outcome, error_outcome, of_status, Asked, retries,
  ocsp_response_verify, ocsp_request_callback, ocsp_request_send, or_generate_error, check,
  max_num_retries,
}
use snowflake_connector_node.Ocsp.Chain.{
  Validation, validate_cert, is_valid_ocsp_error, status_or, error_of, first_error,
  can_early_exit_for_ocsp, Errors, entries, collect, Fate, uncorked, unauthorized, decided, Socket,
  secure_socket,
}
use snowflake_connector_node.Ocsp.Order.{IsOrder, validate_cert_chain-once}
use snowflake_connector_node.Ocsp.Trusted.{IsAccepted, verify-IsAccepted}

-- A response of the cache, or of the responder where the cache has none, that is accepted.
abbrev pub IsTrusted : Crypto → Validation → Type 0
IsTrusted crypto v =
    (raw : ℕ) × ((v.cached ≡ some raw)
      ⊎ ((v.cached ≡ none) × ((k : ℕ) × (v.asked.answer k ≡ gave_response raw))))
    × IsAccepted crypto v.asked.now v.asked.issuer raw

-- Without an error the responder gave a response that is accepted.
abbrev GivesTrusted : Crypto → Asked → Outcome → Type 0
GivesTrusted crypto a o =
    error_of o ≡ none
    → (raw : ℕ) × ((k : ℕ) × (a.answer k ≡ gave_response raw))
      × IsAccepted crypto a.now a.issuer raw

error-GivesTrusted :
    (crypto : Crypto) (a : Asked) (e : OcspError) → GivesTrusted crypto a (error_outcome e)
unfolding error_of
error-GivesTrusted crypto a e h = cc

status_or-none : (e : Option OcspError) → status_or e e ≡ none → e ≡ none
unfolding is_valid_ocsp_error
status_or-none none h = refl
status_or-none (some e) h = absurd (ground arith)

of_status-none : (e : Option OcspError) (raw : ℕ) → error_of (of_status e raw) ≡ none → e ≡ none
unfolding error_of
of_status-none e raw h = status_or-none e h

module _ (crypto : Crypto) (a : Asked) where
  if-GivesTrusted :
      (b : Bool) (x y : Outcome)
      → GivesTrusted crypto a x
      → GivesTrusted crypto a y
      → GivesTrusted crypto a (if b then x else y)
  if-GivesTrusted true x y h k = h
  if-GivesTrusted false x y h k = k

  answer-GivesTrusted :
      (more : Bool) (next : Outcome) (r : ResponderAnswer) (k : ℕ)
      → a.answer k ≡ r
      → GivesTrusted crypto a next
      → GivesTrusted crypto a (ocsp_response_verify crypto a more next r)
  unfolding ocsp_response_verify
  answer-GivesTrusted more next (gave_response raw) k q go h = (
    raw,
    (k, q),
    verify-IsAccepted crypto a.now a.issuer raw
        (of_status-none (verify_ocsp_response crypto a.now a.issuer raw) raw h),
  )
  answer-GivesTrusted more next (failed_with e) k q go h =
      if-GivesTrusted (more && retries e) next (error_outcome e) go (error-GivesTrusted crypto a e)
        h

  callback-GivesTrusted :
      (sent : Outcome) (o : Option OcspError)
      → GivesTrusted crypto a sent
      → GivesTrusted crypto a (ocsp_request_callback true sent o)
  unfolding ocsp_request_callback
  callback-GivesTrusted sent none go = go
  callback-GivesTrusted sent (some e) go = error-GivesTrusted crypto a e

  send-GivesTrusted :
      (left num_retries : ℕ)
      → GivesTrusted crypto a (ocsp_request_send crypto true a left num_retries)
  unfolding ocsp_request_send
  send-GivesTrusted zero num_retries = error-GivesTrusted crypto a _
  send-GivesTrusted (suc left) num_retries =
      let next = ocsp_request_send crypto true a left (suc num_retries) in
      let more = ltb num_retries (max_num_retries true) in
      callback-GivesTrusted (ocsp_response_verify crypto a more next (a.answer num_retries))
        a.authority_error
        (answer-GivesTrusted more next (a.answer num_retries) num_retries refl
          (send-GivesTrusted left (suc num_retries)))

  check-GivesTrusted :
      (o : Option OcspError)
      → GivesTrusted crypto a (or_generate_error (ocsp_request_send crypto true a 2 1) o)
  check-GivesTrusted none = send-GivesTrusted 2 1
  check-GivesTrusted (some e) = error-GivesTrusted crypto a e

cached-IsTrusted :
    (crypto : Crypto) (v : Validation) (o : Option ℕ)
    → v.cached ≡ o
    → error_of (validate_cert crypto true v) ≡ none
    → IsTrusted crypto v
unfolding validate_cert error_of check
cached-IsTrusted crypto v (some raw) q h =
    (raw, inl q, verify-IsAccepted crypto v.asked.now v.asked.issuer raw (rw q at h))
cached-IsTrusted crypto v none q h =
    let (raw, k, t) = check-GivesTrusted crypto v.asked v.asked.generate_error (rw q at h) in
    (raw, inr (q, k), t)

head-none :
    (o : Option OcspError) (es : List (Option OcspError))
    → first_error (o ∷ es) ≡ none
    → (o ≡ none) × (first_error es ≡ none)
unfolding first_error
head-none none es h = (refl, h)
head-none (some e) es h = cc

first_error-none :
    (es : Errors) (i n : ℕ)
    → first_error (entries es i n) ≡ none
    → (j : ℕ) → i ≤ j
    → j < i + n
    → es j ≡ none
first_error-none es i zero h j a b = absurd (omega arith)
first_error-none es i (suc n) h j a b =
    let (q, t) = head-none (es i) (entries es (suc i) n) h in
    elim (Bool-cases (ltb i j)) [
      | inl l ↦ first_error-none es (suc i) n t j (ground arith) (omega arith)
      | inr l ↦ subst (λ (k : ℕ). es k ≡ none) (at_end l) q
    ]
  where
    at_end : ltb i j ≡ false → i ≡ j
    at_end l = ground arith

passes :
    (d r a : Bool) (f : Fate)
    → (if d || r then uncorked else if not a then unauthorized else f) ≡ uncorked
    → d ≡ false
    → r ≡ false
    → (a ≡ true) × (f ≡ uncorked)
passes true r a f h d q = cc
passes false true a f h d q = cc
passes false false true f h d q = (refl, h)
passes false false false f h d q = cc

decided-none :
    (n : ℕ) (o : Option OcspError)
    → decided (if n == 0 then [] else o ∷ []) ≡ uncorked
    → (0 < n) × (o ≡ none)
decided-none zero o h = absurd (ground (arith, h))
decided-none (suc n) none h = (omega arith, refl)
decided-none (suc n) (some e) h = absurd (ground (arith, h))

-- In the mode that is closed, where the check is not disabled and the TLS session not a resumed
-- one, a socket whose writes are unblocked is one that TLS authorized, its chain has certificates
-- to validate, and for each of them a response of the cache, or of the responder where the cache
-- has none, is accepted, in whatever order the validations end, each once: it is parsed, signed
-- with the issuer's key, if an issuer is known, or with that of a certificate which the issuer
-- signed and is within its validity, and its first status is good and within its tolerated
-- validity.
pub secure_socket-closed :
    (crypto : Crypto) (s : Socket) (validation : ℕ → Validation) (order : List ℕ)
    → IsOrder (length (collect s.chain)) order
    → s.validation_disabled ≡ false
    → s.session_reused ≡ false
    → secure_socket crypto true s validation order ≡ uncorked
    → (s.authorized ≡ true)
      × (0 < length (collect s.chain))
      × ((i : ℕ) → i < length (collect s.chain) → IsTrusted crypto (validation i))
unfolding secure_socket can_early_exit_for_ocsp
secure_socket-closed crypto s validation order o d r h =
    let n = length (collect s.chain) in
    let outcome = λ (i : ℕ). validate_cert crypto true (validation i) in
    let (a, f) = passes s.validation_disabled s.session_reused s.authorized _ h d r in
    let (l, e) =
      decided-none n _ (ap decided (sym (validate_cert_chain-once true n outcome order o)) ∙ f) in
    (
      a,
      l,
      λ i b.
          cached-IsTrusted crypto (validation i) (validation i).cached refl
            (first_error-none (λ j. error_of (outcome j)) 0 n e i (omega arith) (omega (arith, b))),
    )
