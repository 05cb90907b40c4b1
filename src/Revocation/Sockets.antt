-- ===== src/Revocation/Sockets.antt =====
-- What corkSocketAndValidateCrl of lib/agent/crl_validator/index.ts lets pass, and what it destroys.
use snowflake_connector_node.Prelude.{
  String, Bool, true, false, ◌≡◌, refl, subst, ◌⊎◌, inl, inr, some, All-map, arith,
}
use snowflake_connector_node.Revocation.Certificates.{Certificate, Crl, SignatureVerifier}
use snowflake_connector_node.Revocation.Fetcher.{Crls, World}
use snowflake_connector_node.Revocation.Known.{IsLater}
use snowflake_connector_node.Revocation.Sound.{IsShown-earlier, next_or-valid, next_or-revoked}
use snowflake_connector_node.Revocation.Passed.{
  IsPassed, IsRevoked, certificate-IsLater, certificate-IsPassed, certificate-IsRevoked,
}
use snowflake_connector_node.Revocation.Validator.{
  CrlValidatorConfig, enabled, advisory, Chain, no_certificate, root, issued_by, Verdict, valid,
  certificate_revoked, failed, validate_certificate, validate_crl, destroys_socket, is_destroyed,
}

module _ (verify : SignatureVerifier → Crl → String → Bool) (w : World)
    (cfg : CrlValidatorConfig) where
  -- Every certificate of a chain but its root is decoded and passed.
  unfoldable pub IsAllPassed : Crls → Chain → Type 0
  IsAllPassed s no_certificate = Unit
  IsAllPassed s (root p) = Unit
  IsAllPassed s (issued_by p rest) =
      ((cert : Certificate) × (p.decoded ≡ some cert) × IsPassed verify w cfg s cert rest)
      × IsAllPassed s rest

  -- A certificate of a chain, which is not its root, is decoded and revoked.
  unfoldable pub IsAnyRevoked : Crls → Chain → Type 0
  IsAnyRevoked s no_certificate = ⊥
  IsAnyRevoked s (root p) = ⊥
  IsAnyRevoked s (issued_by p rest) =
      ((cert : Certificate) × (p.decoded ≡ some cert) × IsRevoked verify w cfg s cert rest)
      ⊎ IsAnyRevoked s rest

  IsPassed-earlier :
      (s t : Crls) (cert : Certificate) (rest : Chain)
      → IsLater w s t
      → IsPassed verify w cfg t cert rest
      → IsPassed verify w cfg s cert rest
  IsPassed-earlier s t cert rest later (inl h) = inl h
  IsPassed-earlier s t cert rest later (inr (inl h)) = inr (inl h)
  IsPassed-earlier s t cert rest later (inr (inr (urls, issuer, h, shown))) = inr (
      inr (
        urls,
        issuer,
        h,
        All-map (λ u. IsShown-earlier verify w s t cert issuer false u later) urls shown,
      ))

  IsAllPassed-earlier :
      (s t : Crls) (chain : Chain) → IsLater w s t → IsAllPassed t chain → IsAllPassed s chain
  unfolding IsAllPassed
  IsAllPassed-earlier s t no_certificate later h = tt
  IsAllPassed-earlier s t (root p) later h = tt
  IsAllPassed-earlier s t (issued_by p rest) later ((cert, e, h), hs) =
      ((cert, e, IsPassed-earlier s t cert rest later h), IsAllPassed-earlier s t rest later hs)

  IsAnyRevoked-earlier :
      (s t : Crls) (chain : Chain) → IsLater w s t → IsAnyRevoked t chain → IsAnyRevoked s chain
  unfolding IsAnyRevoked
  IsAnyRevoked-earlier s t no_certificate later h = h
  IsAnyRevoked-earlier s t (root p) later h = h
  IsAnyRevoked-earlier s t (issued_by p rest) later (inr h) =
      inr (IsAnyRevoked-earlier s t rest later h)
  IsAnyRevoked-earlier s t (issued_by p rest) later
        (inl (cert, e, (urls, issuer, h, (url, listed, shown)))) =
      inl (
        cert,
        e,
        (
          urls,
          issuer,
          h,
          (url, listed, IsShown-earlier verify w s t cert issuer true url later shown),
        ),
      )

  validate_crl-IsAllPassed :
      (chain : Chain) (s : Crls)
      → (validate_crl verify w cfg chain s).verdict ≡ valid
      → IsAllPassed s chain
  unfolding validate_crl IsAllPassed
  validate_crl-IsAllPassed no_certificate s h = tt
  validate_crl-IsAllPassed (root p) s h = tt
  validate_crl-IsAllPassed (issued_by p rest) s h =
      let here = validate_certificate verify w cfg p.decoded rest s in
      let (v, vs) =
        next_or-valid here.verdict here.crls (validate_crl verify w cfg rest here.crls) h in
      (
        certificate-IsPassed verify w cfg p.decoded rest s v,
        IsAllPassed-earlier s here.crls rest (certificate-IsLater verify w cfg p.decoded rest s)
            (validate_crl-IsAllPassed rest here.crls vs),
      )

  validate_crl-IsAnyRevoked :
      (chain : Chain) (s : Crls)
      → (validate_crl verify w cfg chain s).verdict ≡ certificate_revoked
      → IsAnyRevoked s chain
  unfolding validate_crl IsAnyRevoked
  validate_crl-IsAnyRevoked no_certificate s h = absurd (grind (arith, h))
  validate_crl-IsAnyRevoked (root p) s h = absurd (grind (arith, h))
  validate_crl-IsAnyRevoked (issued_by p rest) s h =
      let here = validate_certificate verify w cfg p.decoded rest s in
      elim (next_or-revoked here.verdict here.crls (validate_crl verify w cfg rest here.crls) h) [
        | inl v ↦ inl (certificate-IsRevoked verify w cfg p.decoded rest s v)
        | inr vs ↦ inr (
            IsAnyRevoked-earlier s here.crls rest
              (certificate-IsLater verify w cfg p.decoded rest s)
              (validate_crl-IsAnyRevoked rest here.crls vs))
      ]

kept-valid : (v : Verdict) → destroys_socket enabled v ≡ false → v ≡ valid
unfolding destroys_socket
kept-valid valid h = refl
kept-valid certificate_revoked h = absurd (grind (arith, h))
kept-valid (failed e) h = absurd (grind (arith, h))

destroyed-revoked : (v : Verdict) → destroys_socket advisory v ≡ true → v ≡ certificate_revoked
unfolding destroys_socket
destroyed-revoked valid h = absurd (grind (arith, h))
destroyed-revoked certificate_revoked h = refl
destroyed-revoked (failed e) h = absurd (grind (arith, h))

-- In the mode ENABLED, a socket is destroyed unless each certificate of the chain but the root is
-- decoded and short-lived, or without a URL where that is allowed, or there is for each of its URLs
-- a list that was in memory or on disk or is downloaded, which its issuer signed and is named in,
-- which is for that URL, is not past its next update at a time after the start, and does not have
-- the serial number of the certificate.
pub enabled-IsAllPassed :
    (verify : SignatureVerifier → Crl → String → Bool) (w : World) (cfg : CrlValidatorConfig)
    (chain : Chain) (s : Crls)
    → cfg.check_mode ≡ enabled
    → is_destroyed verify w cfg chain s ≡ false
    → IsAllPassed verify w cfg s chain
unfolding is_destroyed
enabled-IsAllPassed verify w cfg chain s m h =
    let v = (validate_crl verify w cfg chain s).verdict in
    validate_crl-IsAllPassed verify w cfg chain s
      (kept-valid v (subst (λ x. destroys_socket x v ≡ false) m h))

-- In the mode ADVISORY, a socket is destroyed only where a certificate of the chain, other than the
-- root, has a list as in the mode ENABLED that does have its serial number.
pub advisory-IsAnyRevoked :
    (verify : SignatureVerifier → Crl → String → Bool) (w : World) (cfg : CrlValidatorConfig)
    (chain : Chain) (s : Crls)
    → cfg.check_mode ≡ advisory
    → is_destroyed verify w cfg chain s ≡ true
    → IsAnyRevoked verify w cfg s chain
unfolding is_destroyed
advisory-IsAnyRevoked verify w cfg chain s m h =
    let v = (validate_crl verify w cfg chain s).verdict in
    validate_crl-IsAnyRevoked verify w cfg chain s
      (destroyed-revoked v (subst (λ x. destroys_socket x v ≡ true) m h))
