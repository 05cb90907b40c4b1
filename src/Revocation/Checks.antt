-- ===== src/Revocation/Checks.antt =====
-- The checks of validateCrl in lib/agent/crl_validator/index.ts on one list, in words of the
-- certificate and the list.
use snowflake_connector_node.Prelude.{
  ℕ, ◌≤◌, String, Bool, true, false, ◌≡◌, ◌↔◌, ◌⊎◌, inl, inr, refl, ap, subst, Option, none, some,
  List, [], ◌∷◌, str_eq, eq_iff, ◌==◌, ==_iff, arith, Bool-cases, Option-cases, if◌then◌else◌,
}
use snowflake_connector_node.Revocation.Certificates.{
  Certificate, Crl, GeneralName, other_name, uniform_resource_identifier, distribution_names,
  names_url, is_issuing_distribution_point_extension_valid, lists_serial, revoked_serials,
  is_certificate_revoked, is_crl_signature_valid, SignatureVerifier,
}
use snowflake_connector_node.Revocation.Validator.{
  Issuer, valid, certificate_revoked, check_signed, check_crl,
}

abbrev pub IsListed : {A : Type 0} → A → List A → Type 0
IsListed a [] = ⊥
IsListed a (x ∷ xs) = (x ≡ a) ⊎ IsListed a xs

-- The list has no issuing distribution point, or one that names the URL.
abbrev pub IsForUrl : Crl → String → Type 0
IsForUrl c url =
    (distribution_names c ≡ none)
    ⊎ ((names : List GeneralName) × (distribution_names c ≡ some names)
        × IsListed (uniform_resource_identifier url) names)

-- The list is the issuer's, of the URL, and in force at a time.
abbrev pub IsInForce :
    (SignatureVerifier → Crl → String → Bool) → Issuer → String → Crl → ℕ → Type 0
IsInForce verify issuer url c t =
    (is_crl_signature_valid verify c issuer.public_key ≡ some true)
    × IsForUrl c url
    × (issuer.subject ≡ c.issuer)
    × (t ≤ c.next_update)

names_url-IsListed :
    (names : List GeneralName) (url : String)
    → names_url names url ≡ true
    → IsListed (uniform_resource_identifier url) names
unfolding names_url
names_url-IsListed [] url h = absurd (grind (arith, h))
names_url-IsListed (other_name s ∷ names) url h = inr (names_url-IsListed names url h)
names_url-IsListed (uniform_resource_identifier s ∷ names) url h =
    elim (Bool-cases (str_eq s url)) [
      | inl e ↦ inl (ap uniform_resource_identifier ((eq_iff s url).0 e))
      | inr e ↦ inr (names_url-IsListed names url (grind (arith, h, e)))
    ]

lists_serial-IsListed : (ns : List ℕ) (n : ℕ) → (lists_serial ns n ≡ true) ↔ IsListed n ns
unfolding lists_serial
lists_serial-IsListed [] n = (λ h. absurd (grind (arith, h)), λ h. absurd h)
lists_serial-IsListed (m ∷ ns) n =
    let (to, from) = lists_serial-IsListed ns n in
    elim (Bool-cases (m == n)) [
      | inl e ↦ (λ h. inl ((==_iff m n).0 e), λ h. rw e refl)
      | inr e ↦ (
        λ h. inr (to (grind (arith, h, e))),
        λ h. elim h [ inl k ↦ absurd (ground (arith, k, e)) | inr k ↦ rw e (from k) ],
      )
    ]

distribution-IsForUrl :
    (c : Crl) (url : String)
    → is_issuing_distribution_point_extension_valid c url ≡ true
    → IsForUrl c url
unfolding is_issuing_distribution_point_extension_valid
distribution-IsForUrl c url h = elim (Option-cases (distribution_names c)) [
  | inl e ↦ inl e
  | inr (names, e) ↦ inr (names, e, names_url-IsListed names url (grind (arith, h, e)))
]

check_signed-IsForUrl :
    (b : Option Bool) (cert : Certificate) (issuer : Issuer) (url : String) (c : Crl) (t : ℕ)
    (revoked : Bool)
    → check_signed b cert issuer url c t ≡ (if revoked then certificate_revoked else valid)
    → (b ≡ some true)
      × (is_issuing_distribution_point_extension_valid c url ≡ true)
      × (issuer.subject ≡ c.issuer)
      × (t ≤ c.next_update)
      × (is_certificate_revoked cert c ≡ revoked)
unfolding check_signed
check_signed-IsForUrl none cert issuer url c t revoked h = absurd (ground (arith, h))
check_signed-IsForUrl (some false) cert issuer url c t revoked h = absurd (ground (arith, h))
check_signed-IsForUrl (some true) cert issuer url c t revoked h =
    elim (Bool-cases (is_issuing_distribution_point_extension_valid c url)) [
      | inl e ↦ elim (Bool-cases (str_eq issuer.subject c.issuer)) [
        | inl k ↦ (
          refl,
          e,
          (eq_iff issuer.subject c.issuer).0 k,
          ground (arith, h, e, k),
          ground (arith, h, e, k),
        )
        | inr k ↦ absurd (ground (arith, h, e, k))
      ]
      | inr e ↦ absurd (ground (arith, h, e))
    ]

module _ (verify : SignatureVerifier → Crl → String → Bool) where
  -- A list that passes or shows a revocation is in force, and it is the latter that it shows just
  -- where it has the serial number of the certificate.
  pub check_crl-IsInForce :
      (cert : Certificate) (issuer : Issuer) (url : String) (c : Crl) (t : ℕ) (revoked : Bool)
      → check_crl verify cert issuer url c t ≡ (if revoked then certificate_revoked else valid)
      → IsInForce verify issuer url c t
        × ((revoked ≡ true) ↔ IsListed cert.serial_number (revoked_serials c))
  unfolding check_crl is_certificate_revoked
  check_crl-IsInForce cert issuer url c t revoked h =
      let (signed, named, subject, time, listed) =
        check_signed-IsForUrl (is_crl_signature_valid verify c issuer.public_key) cert issuer url c
          t revoked h in
      (
        (signed, distribution-IsForUrl c url named, subject, time),
        subst (λ b. (b ≡ true) ↔ IsListed cert.serial_number (revoked_serials c)) listed
            (lists_serial-IsListed (revoked_serials c) cert.serial_number),
      )
