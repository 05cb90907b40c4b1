-- ===== src/Revocation/Sound.antt =====
-- What validateCrl of lib/agent/crl_validator/index.ts has seen when it lets a chain of certificates
-- pass, and when it finds a revoked one.
use snowflake_connector_node.Prelude.{
  ℕ, ◌≤◌, String, Bool, true, false, ◌≡◌, ◌⊎◌, ◌↔◌, inl, inr, refl, Option, none, some, List, [],
  ◌∷◌, All, All-map, arith, if◌then◌else◌,
}
use snowflake_connector_node.Revocation.Certificates.{
  Certificate, Crl, revoked_serials, SignatureVerifier,
}
use snowflake_connector_node.Revocation.Fetcher.{CrlOptions, Crls, World, get_crl}
use snowflake_connector_node.Revocation.Known.{
  IsKnown, IsLater, IsLater-refl, IsLater-trans, get_crl-IsGrounded,
}
use snowflake_connector_node.Revocation.Checks.{IsListed, IsInForce, check_crl-IsInForce}
use snowflake_connector_node.Revocation.Validator.{
  Verdict, valid, certificate_revoked, failed, Validated, Issuer, next_or, verdict_on,
  validate_urls,
}

next_or-IsLater :
    (w : World) (v : Verdict) (s t : Crls) (rest : Validated)
    → IsLater w s t
    → IsLater w s rest.crls
    → IsLater w s (next_or v t rest).crls
unfolding next_or
next_or-IsLater w valid s t rest h k = k
next_or-IsLater w certificate_revoked s t rest h k = h
next_or-IsLater w (failed e) s t rest h k = h

pub next_or-valid :
    (v : Verdict) (s : Crls) (rest : Validated)
    → (next_or v s rest).verdict ≡ valid
    → (v ≡ valid) × (rest.verdict ≡ valid)
unfolding next_or
next_or-valid valid s rest h = (refl, h)
next_or-valid certificate_revoked s rest h = absurd (grind (arith, h))
next_or-valid (failed e) s rest h = absurd (grind (arith, h))

pub next_or-revoked :
    (v : Verdict) (s : Crls) (rest : Validated)
    → (next_or v s rest).verdict ≡ certificate_revoked
    → (v ≡ certificate_revoked) ⊎ (rest.verdict ≡ certificate_revoked)
unfolding next_or
next_or-revoked valid s rest h = inr h
next_or-revoked certificate_revoked s rest h = inl refl
next_or-revoked (failed e) s rest h = absurd (grind (arith, h))

module _ (verify : SignatureVerifier → Crl → String → Bool) (w : World) where
  -- A list of the URL that is known in a state and in force at a time from then on, and whether it
  -- has the serial number of the certificate.
  abbrev pub IsShown : Crls → Certificate → Issuer → Bool → String → Type 0
  IsShown s cert issuer revoked url =
      (c : Crl) × (t : ℕ) × IsKnown w s url c
      × (s.now ≤ t)
      × IsInForce verify issuer url c t
      × ((revoked ≡ true) ↔ IsListed cert.serial_number (revoked_serials c))

  pub IsShown-earlier :
      (s t : Crls) (cert : Certificate) (issuer : Issuer) (revoked : Bool) (url : String)
      → IsLater w s t
      → IsShown t cert issuer revoked url
      → IsShown s cert issuer revoked url
  IsShown-earlier s t cert issuer revoked url (back, n, fresh) (c, at, known, le, force, listed) =
      (c, at, back url c known, omega (arith, n, le), force, listed)

  verdict_on-IsShown :
      (cert : Certificate) (issuer : Issuer) (url : String) (revoked : Bool) (s t : Crls)
      (found : Option Crl)
      → ((c : Crl) → found ≡ some c → IsKnown w s url c)
      → s.now ≤ t.now
      → verdict_on verify cert issuer url found t.now
        ≡ (if revoked then certificate_revoked else valid)
      → IsShown s cert issuer revoked url
  unfolding verdict_on
  verdict_on-IsShown cert issuer url revoked s t none known n h = absurd (ground (arith, h))
  verdict_on-IsShown cert issuer url revoked s t (some c) known n h =
      let (force, listed) = check_crl-IsInForce verify cert issuer url c t.now revoked h in
      (c, t.now, known c refl, n, force, listed)

  module _ (o : CrlOptions) where
    abbrev verdict_of : Certificate → Issuer → String → Crls → Verdict
    verdict_of cert issuer url s =
        verdict_on verify cert issuer url (get_crl w o url s).found (get_crl w o url s).crls.now

    verdict_of-IsShown :
        (cert : Certificate) (issuer : Issuer) (url : String) (revoked : Bool) (s : Crls)
        → verdict_of cert issuer url s ≡ (if revoked then certificate_revoked else valid)
        → IsShown s cert issuer revoked url
    verdict_of-IsShown cert issuer url revoked s h =
        let ((back, n, fresh), sourced) = get_crl-IsGrounded w o url s in
        let g = get_crl w o url s in
        verdict_on-IsShown cert issuer url revoked s g.crls g.found (λ c f. (sourced c f).0) n h

    pub urls-IsLater :
        (cert : Certificate) (issuer : Issuer) (urls : List String) (s : Crls)
        → IsLater w s (validate_urls verify w o cert issuer urls s).crls
    unfolding validate_urls
    urls-IsLater cert issuer [] s = IsLater-refl w s
    urls-IsLater cert issuer (url ∷ urls) s =
        let t = (get_crl w o url s).crls in
        let rest = validate_urls verify w o cert issuer urls t in
        let later = (get_crl-IsGrounded w o url s).0 in
        next_or-IsLater w (verdict_of cert issuer url s) s t rest later
          (IsLater-trans w s t rest.crls later (urls-IsLater cert issuer urls t))

    pub urls-IsShown :
        (cert : Certificate) (issuer : Issuer) (urls : List String) (s : Crls)
        → (validate_urls verify w o cert issuer urls s).verdict ≡ valid
        → All (IsShown s cert issuer false) urls
    unfolding validate_urls
    urls-IsShown cert issuer [] s h = tt
    urls-IsShown cert issuer (url ∷ urls) s h =
        let t = (get_crl w o url s).crls in
        let rest = validate_urls verify w o cert issuer urls t in
        let (here, more) = next_or-valid (verdict_of cert issuer url s) t rest h in
        let later = (get_crl-IsGrounded w o url s).0 in
        (
          verdict_of-IsShown cert issuer url false s here,
          All-map (λ u. IsShown-earlier s t cert issuer false u later) urls
              (urls-IsShown cert issuer urls t more),
        )

    pub urls-revoked :
        (cert : Certificate) (issuer : Issuer) (urls : List String) (s : Crls)
        → (validate_urls verify w o cert issuer urls s).verdict ≡ certificate_revoked
        → (url : String) × IsListed url urls × IsShown s cert issuer true url
    unfolding validate_urls
    urls-revoked cert issuer [] s h = absurd (grind (arith, h))
    urls-revoked cert issuer (url ∷ urls) s h =
        let t = (get_crl w o url s).crls in
        let rest = validate_urls verify w o cert issuer urls t in
        elim (next_or-revoked (verdict_of cert issuer url s) t rest h) [
          | inl here ↦ (url, inl refl, verdict_of-IsShown cert issuer url true s here)
          | inr more ↦
              let (u, listed, shown) = urls-revoked cert issuer urls t more in
              let later = (get_crl-IsGrounded w o url s).0 in
              (u, inr listed, IsShown-earlier s t cert issuer true u later shown)
        ]
