-- ===== src/Revocation/Passed.antt =====
-- What validateCrl of lib/agent/crl_validator/index.ts has seen of one certificate.
use snowflake_connector_node.Prelude.{
  String, Bool, true, false, ◌≡◌, ◌⊎◌, inl, inr, refl, subst, Option, none, some, List, All, arith,
  Bool-cases, if◌then◌else◌,
}
use snowflake_connector_node.Revocation.Certificates.{
  Certificate, Crl, is_short_lived_certificate, get_certificate_crl_urls, SignatureVerifier,
}
use snowflake_connector_node.Revocation.Fetcher.{Crls, World}
use snowflake_connector_node.Revocation.Known.{IsLater, IsLater-refl}
use snowflake_connector_node.Revocation.Checks.{IsListed}
use snowflake_connector_node.Revocation.Sound.{IsShown, urls-IsLater, urls-IsShown, urls-revoked}
use snowflake_connector_node.Revocation.Validator.{
  CrlValidatorConfig, Chain, valid, certificate_revoked, Issuer, issuer_of, validate_against,
  validate_lists, validate_certificate,
}

module _ (verify : SignatureVerifier → Crl → String → Bool) (w : World)
    (cfg : CrlValidatorConfig) where
  -- The lists of a certificate and its issuer, where it has them.
  abbrev pub HasLists : Certificate → Chain → List String → Issuer → Type 0
  HasLists cert rest urls issuer =
      (get_certificate_crl_urls cert ≡ some urls) × (issuer_of rest ≡ some issuer)

  -- A certificate is short-lived; or it has no URL, which is allowed; or each of its lists is shown
  -- without it.
  abbrev pub IsPassed : Crls → Certificate → Chain → Type 0
  IsPassed s cert rest =
      (is_short_lived_certificate cert ≡ true)
      ⊎ (((get_certificate_crl_urls cert ≡ none) × (cfg.allow_certificates_without_crl_url ≡ true))
          ⊎ ((urls : List String) × (issuer : Issuer) × HasLists cert rest urls issuer
              × All (IsShown verify w s cert issuer false) urls))

  -- One of its lists is shown with the certificate.
  abbrev pub IsRevoked : Crls → Certificate → Chain → Type 0
  IsRevoked s cert rest =
      (urls : List String) × (issuer : Issuer) × HasLists cert rest urls issuer
      × ((url : String) × IsListed url urls × IsShown verify w s cert issuer true url)

  against-IsLater :
      (cert : Certificate) (i : Option Issuer) (urls : List String) (s : Crls)
      → IsLater w s (validate_against verify w cfg.options cert i urls s).crls
  unfolding validate_against
  against-IsLater cert none urls s = IsLater-refl w s
  against-IsLater cert (some issuer) urls s = urls-IsLater verify w cfg.options cert issuer urls s

  lists-IsLater :
      (cert : Certificate) (rest : Chain) (urls : Option (List String)) (s : Crls)
      → IsLater w s (validate_lists verify w cfg cert rest urls s).crls
  unfolding validate_lists
  lists-IsLater cert rest none s = IsLater-refl w s
  lists-IsLater cert rest (some urls) s = against-IsLater cert (issuer_of rest) urls s

  pub certificate-IsLater :
      (decoded : Option Certificate) (rest : Chain) (s : Crls)
      → IsLater w s (validate_certificate verify w cfg decoded rest s).crls
  unfolding validate_certificate
  certificate-IsLater none rest s = IsLater-refl w s
  certificate-IsLater (some cert) rest s = elim (Bool-cases (is_short_lived_certificate cert)) [
    | inl e ↦ rw e (IsLater-refl w s)
    | inr e ↦ rw e (lists-IsLater cert rest (get_certificate_crl_urls cert) s)
  ]

  against-IsShown :
      (cert : Certificate) (i : Option Issuer) (urls : List String) (s : Crls)
      → (validate_against verify w cfg.options cert i urls s).verdict ≡ valid
      → (issuer : Issuer) × (i ≡ some issuer) × All (IsShown verify w s cert issuer false) urls
  unfolding validate_against
  against-IsShown cert none urls s h = absurd (grind (arith, h))
  against-IsShown cert (some issuer) urls s h =
      (issuer, refl, urls-IsShown verify w cfg.options cert issuer urls s h)

  against-revoked :
      (cert : Certificate) (i : Option Issuer) (urls : List String) (s : Crls)
      → (validate_against verify w cfg.options cert i urls s).verdict ≡ certificate_revoked
      → (issuer : Issuer) × (i ≡ some issuer)
        × ((url : String) × IsListed url urls × IsShown verify w s cert issuer true url)
  unfolding validate_against
  against-revoked cert none urls s h = absurd (grind (arith, h))
  against-revoked cert (some issuer) urls s h =
      (issuer, refl, urls-revoked verify w cfg.options cert issuer urls s h)

  lists-IsPassed :
      (cert : Certificate) (rest : Chain) (found : Option (List String)) (s : Crls)
      → get_certificate_crl_urls cert ≡ found
      → (validate_lists verify w cfg cert rest found s).verdict ≡ valid
      → IsPassed s cert rest
  unfolding validate_lists
  lists-IsPassed cert rest none s e h = elim (Bool-cases cfg.allow_certificates_without_crl_url) [
    | inl a ↦ inr (inl (e, a))
    | inr a ↦ absurd (grind (arith, h, a))
  ]
  lists-IsPassed cert rest (some urls) s e h =
      let (issuer, i, shown) = against-IsShown cert (issuer_of rest) urls s h in
      inr (inr (urls, issuer, (e, i), shown))

  lists-IsRevoked :
      (cert : Certificate) (rest : Chain) (found : Option (List String)) (s : Crls)
      → get_certificate_crl_urls cert ≡ found
      → (validate_lists verify w cfg cert rest found s).verdict ≡ certificate_revoked
      → IsRevoked s cert rest
  unfolding validate_lists
  lists-IsRevoked cert rest none s e h = elim (Bool-cases cfg.allow_certificates_without_crl_url) [
    | inl a ↦ absurd (grind (arith, h, a))
    | inr a ↦ absurd (grind (arith, h, a))
  ]
  lists-IsRevoked cert rest (some urls) s e h =
      let (issuer, i, shown) = against-revoked cert (issuer_of rest) urls s h in
      (urls, issuer, (e, i), shown)

  pub certificate-IsPassed :
      (decoded : Option Certificate) (rest : Chain) (s : Crls)
      → (validate_certificate verify w cfg decoded rest s).verdict ≡ valid
      → (cert : Certificate) × (decoded ≡ some cert) × IsPassed s cert rest
  unfolding validate_certificate
  certificate-IsPassed none rest s h = absurd (grind (arith, h))
  certificate-IsPassed (some cert) rest s h = (
    cert,
    refl,
    elim (Bool-cases (is_short_lived_certificate cert)) [
      | inl e ↦ inl e
      | inr e ↦ lists-IsPassed cert rest (get_certificate_crl_urls cert) s refl (
          subst
            (λ b.
              (if b
                then record { verdict = valid; crls = s }
                else validate_lists verify w cfg cert rest (get_certificate_crl_urls cert)
                    s).verdict
              ≡ valid)
            e h)
    ],
  )

  pub certificate-IsRevoked :
      (decoded : Option Certificate) (rest : Chain) (s : Crls)
      → (validate_certificate verify w cfg decoded rest s).verdict ≡ certificate_revoked
      → (cert : Certificate) × (decoded ≡ some cert) × IsRevoked s cert rest
  unfolding validate_certificate
  certificate-IsRevoked none rest s h = absurd (grind (arith, h))
  certificate-IsRevoked (some cert) rest s h = (
    cert,
    refl,
    elim (Bool-cases (is_short_lived_certificate cert)) [
      | inl e ↦ absurd (grind (arith, h, e))
      | inr e ↦ lists-IsRevoked cert rest (get_certificate_crl_urls cert) s refl (
          subst
            (λ b.
              (if b
                then record { verdict = valid; crls = s }
                else validate_lists verify w cfg cert rest (get_certificate_crl_urls cert)
                    s).verdict
              ≡ certificate_revoked)
            e h)
    ],
  )
