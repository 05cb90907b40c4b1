-- ===== src/Revocation/Validator.antt =====
-- lib/agent/crl_validator/index.ts: validateCrl and corkSocketAndValidateCrl.
use snowflake_connector_node.Prelude.{
  ℕ, String, Bool, true, false, not, Option, none, some, List, [], ◌∷◌, str_eq, ltb, if◌then◌else◌,
}
use snowflake_connector_node.Revocation.Certificates.{
  Certificate, Crl, get_certificate_crl_urls, is_short_lived_certificate, is_certificate_revoked,
  is_issuing_distribution_point_extension_valid, is_crl_signature_valid, SignatureVerifier,
}
use snowflake_connector_node.Revocation.Fetcher.{CrlOptions, Crls, World, get_crl}

pub data CheckMode : Type 0 where
  disabled enabled advisory : CheckMode

pub record CrlValidatorConfig : Type 0 where
  pub check_mode : CheckMode
  pub allow_certificates_without_crl_url : Bool
  pub options : CrlOptions

-- A certificate of the peer: what is decoded of it, and its public key as PEM, each `none` where
-- that throws.
pub record PeerCertificate : Type 0 where
  pub decoded : Option Certificate
  pub public_key : Option String

-- The list of certificates, by `issuerCertificate`; a root is its own issuer.
pub data Chain : Type 0 where
  no_certificate : Chain
  root : PeerCertificate → Chain
  issued_by : PeerCertificate → Chain → Chain

-- The errors that are thrown besides CertificateRevokedError.
pub data CrlFailure : Type 0 where
  certificate_error issuer_error no_crl_url fetch_error unsupported_signature invalid_signature
        invalid_distribution_point invalid_issuer expired_list :
      CrlFailure

pub data Verdict : Type 0 where
  valid certificate_revoked : Verdict
  failed : CrlFailure → Verdict

pub record Validated : Type 0 where
  pub verdict : Verdict
  pub crls : Crls

pub record Issuer : Type 0 where
  pub subject : String
  pub public_key : String

unfoldable pub issuer_of_peer : PeerCertificate → Option Issuer
issuer_of_peer p = elim p.decoded [
  | none ↦ none
  | some c ↦ elim p.public_key [
    | none ↦ none
    | some key ↦ some (record { subject = c.subject; public_key = key })
  ]
]

-- Of the chain that begins with an issuer; a missing one is read a property of, which throws.
unfoldable pub issuer_of : Chain → Option Issuer
unfolding issuer_of_peer
issuer_of no_certificate = none
issuer_of (root p) = issuer_of_peer p
issuer_of (issued_by p rest) = issuer_of_peer p

-- A verdict other than `valid` is thrown, and ends the loops.
unfoldable pub next_or : Verdict → Crls → Validated → Validated
next_or valid s rest = rest
next_or certificate_revoked s rest = record { verdict = certificate_revoked; crls = s }
next_or (failed e) s rest = record { verdict = failed e; crls = s }

-- The checks of a list after that of its signature, whose outcome is `none` where it throws.
unfoldable pub check_signed : Option Bool → Certificate → Issuer → String → Crl → ℕ → Verdict
unfolding is_issuing_distribution_point_extension_valid is_certificate_revoked
check_signed none cert issuer url crl now = failed unsupported_signature
check_signed (some false) cert issuer url crl now = failed invalid_signature
check_signed (some true) cert issuer url crl now =
    if not (is_issuing_distribution_point_extension_valid crl url)
    then failed invalid_distribution_point
    else if not (str_eq issuer.subject crl.issuer)
    then failed invalid_issuer
    else if ltb crl.next_update now
    then failed expired_list
    else if is_certificate_revoked cert crl
    then certificate_revoked
    else valid

-- `verify` is the crypto library's.
module _ (verify : SignatureVerifier → Crl → String → Bool) where
  unfoldable pub check_crl : Certificate → Issuer → String → Crl → ℕ → Verdict
  unfolding is_crl_signature_valid check_signed
  check_crl cert issuer url crl now =
      check_signed (is_crl_signature_valid verify crl issuer.public_key) cert issuer url crl now

  -- The verdict on the list of a URL, `none` where getCrl throws.
  unfoldable pub verdict_on : Certificate → Issuer → String → Option Crl → ℕ → Verdict
  unfolding check_crl
  verdict_on cert issuer url none now = failed fetch_error
  verdict_on cert issuer url (some crl) now = check_crl cert issuer url crl now

  -- The loop over the URLs of a certificate.
  unfoldable pub validate_urls :
      World → CrlOptions → Certificate → Issuer → List String → Crls → Validated
  unfolding verdict_on get_crl next_or
  validate_urls w o cert issuer [] s = record { verdict = valid; crls = s }
  validate_urls w o cert issuer (url ∷ urls) s =
      let g = get_crl w o url s in
      next_or (verdict_on cert issuer url g.found g.crls.now) g.crls
        (validate_urls w o cert issuer urls g.crls)

  -- A certificate that has revocation lists, under its issuer.
  unfoldable pub validate_against :
      World → CrlOptions → Certificate → Option Issuer → List String → Crls → Validated
  unfolding validate_urls
  validate_against w o cert none urls s = record { verdict = failed issuer_error; crls = s }
  validate_against w o cert (some issuer) urls s = validate_urls w o cert issuer urls s

  -- The URLs of a certificate, or none.
  unfoldable pub validate_lists :
      World → CrlValidatorConfig → Certificate → Chain → Option (List String) → Crls → Validated
  unfolding validate_against issuer_of
  validate_lists w cfg cert rest none s = record {
    verdict = if cfg.allow_certificates_without_crl_url then valid else failed no_crl_url;
    crls = s;
  }
  validate_lists w cfg cert rest (some urls) s =
      validate_against w cfg.options cert (issuer_of rest) urls s

  -- A round of the loop over the chain, with what is decoded.
  unfoldable pub validate_certificate :
      World → CrlValidatorConfig → Option Certificate → Chain → Crls → Validated
  unfolding validate_lists is_short_lived_certificate get_certificate_crl_urls
  validate_certificate w cfg none rest s = record { verdict = failed certificate_error; crls = s }
  validate_certificate w cfg (some cert) rest s =
      if is_short_lived_certificate cert
      then record { verdict = valid; crls = s }
      else validate_lists w cfg cert rest (get_certificate_crl_urls cert) s

  unfoldable pub validate_crl : World → CrlValidatorConfig → Chain → Crls → Validated
  unfolding validate_certificate next_or
  validate_crl w cfg no_certificate s = record { verdict = valid; crls = s }
  validate_crl w cfg (root p) s = record { verdict = valid; crls = s }
  validate_crl w cfg (issued_by p rest) s =
      let here = validate_certificate w cfg p.decoded rest s in
      next_or here.verdict here.crls (validate_crl w cfg rest here.crls)

-- Whether the socket is destroyed, after a verdict.
unfoldable pub destroys_socket : CheckMode → Verdict → Bool
destroys_socket mode valid = false
destroys_socket mode certificate_revoked = true
destroys_socket advisory (failed e) = false
destroys_socket enabled (failed e) = true
destroys_socket disabled (failed e) = true

unfoldable pub is_crl_validation_enabled : CrlValidatorConfig → Bool
is_crl_validation_enabled cfg = elim cfg.check_mode [
  | disabled ↦ false
  | enabled ↦ true
  | advisory ↦ true
]

-- corkSocketAndValidateCrl, on 'secureConnect': whether the socket is destroyed before it is uncorked.
unfoldable pub is_destroyed :
    (SignatureVerifier → Crl → String → Bool) → World → CrlValidatorConfig → Chain → Crls → Bool
unfolding validate_crl destroys_socket
is_destroyed verify w cfg chain s =
    destroys_socket cfg.check_mode (validate_crl verify w cfg chain s).verdict
