-- ===== src/Ocsp/Trusted.antt =====
-- What a socket that passes, and one that is destroyed, says of the certificates of its chain
-- (lib/agent/socket_util.js), in the two modes.
use snowflake_connector_node.Prelude.{
  ℕ, ◌≤◌, ◌≡◌, refl, true, Option, none, some, List, [], ◌∷◌, Bool-cases, inl, inr, arith,
}
use snowflake_connector_node.Ocsp.Responses.{
  OcspError, CertStatus, good_status, revoked_status, unknown_status, other_status, SingleResponse,
  ResponderCert, Response, Crypto, Found, responder_key, no_responder, find_responder,
  is_validity_range, status_error, is_revoked_status, single_error, signed_error, signature_error,
  response_error, verify_ocsp_response,
}

-- The first certificate that comes with a response is within its validity and signed by the issuer.
abbrev pub IsIssuedBy : Crypto → ℕ → ℕ → ResponderCert → Type 0
IsIssuedBy crypto now issuer_key c =
    (now ≤ c.not_after)
    × (c.not_before ≤ now)
    × ((a : ℕ) × (c.signed.algorithm ≡ some a)
        × (crypto.verify a issuer_key c.signed.tbs c.signed.signature ≡ true))

-- The key of a response: the issuer's, or that of a certificate which the issuer signed.
abbrev pub IsResponderKey : Crypto → ℕ → ℕ → List ResponderCert → ℕ → Type 0
IsResponderKey crypto now issuer_key [] key = key ≡ issuer_key
IsResponderKey crypto now issuer_key (c ∷ cs) key =
    IsIssuedBy crypto now issuer_key c × (key ≡ c.public_key)

abbrev pub IsSignedFor : Crypto → ℕ → Option ℕ → Response → Type 0
IsSignedFor crypto now none r = Unit
IsSignedFor crypto now (some issuer_key) r =
    (key : ℕ) × (a : ℕ) × IsResponderKey crypto now issuer_key r.certs key
    × (r.signed.algorithm ≡ some a)
    × (crypto.verify a key r.signed.tbs r.signed.signature ≡ true)

abbrev pub IsGood : ℕ → List SingleResponse → Type 0
IsGood now [] = ⊥
IsGood now (s ∷ ss) =
    (s.cert_status ≡ good_status) × (is_validity_range now s.this_update s.next_update ≡ true)

-- A response that is parsed, signed for the issuer, and good in its first status.
abbrev pub IsAccepted : Crypto → ℕ → Option ℕ → ℕ → Type 0
IsAccepted crypto now issuer raw =
    (r : Response) × (crypto.parse raw ≡ some r)
    × IsSignedFor crypto now issuer r
    × IsGood now r.responses

status_good : (s : CertStatus) → status_error s ≡ none → s ≡ good_status
unfolding status_error
status_good good_status h = refl
status_good revoked_status h = cc
status_good unknown_status h = cc
status_good other_status h = cc

single-IsGood : (now : ℕ) (ss : List SingleResponse) → single_error now ss ≡ none → IsGood now ss
unfolding single_error
single-IsGood now [] h = cc
single-IsGood now (s ∷ ss) h = elim (Bool-cases (is_revoked_status s.cert_status)) [
  | inl e ↦ absurd (ground arith)
  | inr e ↦ elim (Bool-cases (is_validity_range now s.this_update s.next_update)) [
    | inl v ↦ (status_good s.cert_status (ground arith), v)
    | inr v ↦ absurd (ground arith)
  ]
]

responder-IsResponderKey :
    (crypto : Crypto) (now issuer_key : ℕ) (cs : List ResponderCert) (key : ℕ)
    → find_responder crypto now issuer_key cs ≡ responder_key key
    → IsResponderKey crypto now issuer_key cs key
unfolding find_responder
responder-IsResponderKey crypto now issuer_key [] key h = cc
responder-IsResponderKey crypto now issuer_key (c ∷ cs) key h = by_algorithm c.signed.algorithm refl
  where
    by_algorithm :
        (o : Option ℕ)
        → c.signed.algorithm ≡ o
        → IsIssuedBy crypto now issuer_key c × (key ≡ c.public_key)
    by_algorithm none q = absurd (ground arith)
    by_algorithm (some a) q = ((ground arith, ground arith, (a, q, ground arith)), ground arith)

signed-IsSignedFor :
    (crypto : Crypto) (now issuer_key : ℕ) (r : Response) (a : ℕ) (rest : Option OcspError)
    (f : Found)
    → r.signed.algorithm ≡ some a
    → find_responder crypto now issuer_key r.certs ≡ f
    → signed_error crypto r a rest f ≡ none
    → IsSignedFor crypto now (some issuer_key) r × (rest ≡ none)
signed-IsSignedFor crypto now issuer_key r a rest (no_responder e) q p h = cc
signed-IsSignedFor crypto now issuer_key r a rest (responder_key key) q p h = (
  (key, a, responder-IsResponderKey crypto now issuer_key r.certs key p, q, ground arith),
  ground arith,
)

signature-IsSignedFor :
    (crypto : Crypto) (now : ℕ) (issuer : Option ℕ) (r : Response) (rest : Option OcspError)
    (o : Option ℕ)
    → r.signed.algorithm ≡ o
    → signature_error crypto now issuer r rest o ≡ none
    → IsSignedFor crypto now issuer r × (rest ≡ none)
signature-IsSignedFor crypto now none r rest o q h = (tt, h)
signature-IsSignedFor crypto now (some k) r rest none q h = cc
signature-IsSignedFor crypto now (some k) r rest (some a) q h =
    signed-IsSignedFor crypto now k r a rest (find_responder crypto now k r.certs) q refl h

response-IsAccepted :
    (crypto : Crypto) (now : ℕ) (issuer : Option ℕ) (raw : ℕ) (o : Option Response)
    → crypto.parse raw ≡ o
    → response_error crypto now issuer o ≡ none
    → IsAccepted crypto now issuer raw
response-IsAccepted crypto now issuer raw none q h = cc
response-IsAccepted crypto now issuer raw (some r) q h =
    let (s, g) =
      signature-IsSignedFor crypto now issuer r (single_error now r.responses) r.signed.algorithm
        refl h in
    (r, q, s, single-IsGood now r.responses g)

pub verify-IsAccepted :
    (crypto : Crypto) (now : ℕ) (issuer : Option ℕ) (raw : ℕ)
    → verify_ocsp_response crypto now issuer raw ≡ none
    → IsAccepted crypto now issuer raw
unfolding verify_ocsp_response
verify-IsAccepted crypto now issuer raw h =
    response-IsAccepted crypto now issuer raw (crypto.parse raw) refl h
