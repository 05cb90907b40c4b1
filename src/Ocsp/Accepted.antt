-- ===== src/Ocsp/Accepted.antt =====
-- verifyOCSPResponse of lib/agent/cert_util.js: which responses it accepts.
use snowflake_connector_node.Prelude.{
  ℕ, ◌≡◌, refl, Bool, true, false, ◌||◌, not, Option, none, some, List, [], ◌∷◌, ltb, if◌then◌else◌,
  arith, ap, sym, ◌∙◌, ◌↔◌,
}
use snowflake_connector_node.Ocsp.Responses.{
  OcspError, revoked, invalid_validity, CertStatus, good_status, revoked_status, unknown_status,
  other_status, SingleResponse, ResponderCert, Response, Crypto, Found, responder_key, responder_of,
  find_responder, is_revoked_status, status_error, single_error, signed_error, signature_error,
  response_error, verify_ocsp_response,
}
use snowflake_connector_node.Ocsp.Trusted.{
  IsIssuedBy, IsResponderKey, IsSignedFor, IsGood, IsAccepted, verify-IsAccepted,
}

good-none :
    (t : CertStatus) (v : Bool)
    → t ≡ good_status
    → v ≡ true
    → (if is_revoked_status t
        then some revoked
        else if not v
        then some invalid_validity
        else status_error t)
      ≡ none
unfolding status_error
good-none good_status true q h = refl
good-none good_status false q h = cc
good-none revoked_status v q h = cc
good-none unknown_status v q h = cc
good-none other_status v q h = cc

single_error-none :
    (now : ℕ) (ss : List SingleResponse) → IsGood now ss → single_error now ss ≡ none
unfolding single_error
single_error-none now [] g = absurd g
single_error-none now (s ∷ ss) (q, v) = good-none s.cert_status _ q v

issued-responder_of :
    (crypto : Crypto) (now issuer_key : ℕ) (c : ResponderCert)
    → IsIssuedBy crypto now issuer_key c
    → responder_of crypto issuer_key c c.signed.algorithm ≡ responder_key c.public_key
issued-responder_of crypto now issuer_key c (x, y, (a, q, v)) =
    ap (responder_of crypto issuer_key c) q ∙ ground (arith, v)

find_responder-key :
    (crypto : Crypto) (now issuer_key : ℕ) (cs : List ResponderCert) (key : ℕ)
    → IsResponderKey crypto now issuer_key cs key
    → find_responder crypto now issuer_key cs ≡ responder_key key
unfolding find_responder
find_responder-key crypto now issuer_key [] key h = cc
find_responder-key crypto now issuer_key (c ∷ cs) key ((x, y, i), k) =
    within _ _ (ltb c.not_after now || ltb now c.not_before) (ground (arith, x, y))
    ∙ issued-responder_of crypto now issuer_key c (x, y, i)
    ∙ ap responder_key (sym k)
  where
    within : (e f : Found) (b : Bool) → b ≡ false → (if b then e else f) ≡ f
    within e f true q = cc
    within e f false q = refl

signed-none :
    (crypto : Crypto) (now : ℕ) (issuer : Option ℕ) (r : Response) (rest : Option OcspError)
    → IsSignedFor crypto now issuer r
    → rest ≡ none
    → signature_error crypto now issuer r rest r.signed.algorithm ≡ none
signed-none crypto now none r rest s h = h
signed-none crypto now (some k) r rest (key, a, f, q, v) h =
    ap (signature_error crypto now (some k) r rest) q
    ∙ ap (signed_error crypto r a rest) (find_responder-key crypto now k r.certs key f)
    ∙ ground (arith, v, h)

accepted-none :
    (crypto : Crypto) (now : ℕ) (issuer : Option ℕ) (raw : ℕ)
    → IsAccepted crypto now issuer raw
    → verify_ocsp_response crypto now issuer raw ≡ none
unfolding verify_ocsp_response
accepted-none crypto now issuer raw (r, p, s, g) =
    ap (response_error crypto now issuer) p
    ∙ signed-none crypto now issuer r (single_error now r.responses) s
        (single_error-none now r.responses g)

-- A response has no error exactly if it is parsed, signed with the issuer's key, if an issuer is
-- known, or with that of a certificate in it which the issuer signed and is within its validity,
-- and its first status is good and within its tolerated validity: whichever certificate this
-- status is of, and whatever the certificate that signed it may be used for.
pub verify_ocsp_response-IsAccepted :
    (crypto : Crypto) (now : ℕ) (issuer : Option ℕ) (raw : ℕ)
    → (verify_ocsp_response crypto now issuer raw ≡ none) ↔ IsAccepted crypto now issuer raw
verify_ocsp_response-IsAccepted crypto now issuer raw =
    (verify-IsAccepted crypto now issuer raw, accepted-none crypto now issuer raw)
