-- ===== src/Ocsp/Open.antt =====
-- The mode of lib/agent/socket_util.js that is open: when a socket is destroyed.
use snowflake_connector_node.Prelude.{
  ℕ, zero, suc, ◌<◌, ◌≡◌, refl, Bool, true, false, ◌&&◌, ◌||◌, not, Option, none, some, List, [],
  ◌∷◌, ◌==◌, if◌then◌else◌, length, Bool-cases, inl, inr, arith, ap, ◌∙◌,
}
use snowflake_connector_node.Ocsp.Responses.{OcspError, revoked, Crypto}
use snowflake_connector_node.Ocsp.Chain.{
  Validation, validate_cert, is_valid_ocsp_error, is_revoked, any_revoked, can_early_exit_for_ocsp,
  collect, Fate, uncorked, unauthorized, destroyed, decided, Socket, secure_socket,
}
use snowflake_connector_node.Ocsp.Order.{IsOrder, errors_of, validate_cert_chain-once}

-- Some certificate is revoked.
abbrev pub has_revoked : List (Option OcspError) → Bool
has_revoked [] = false
has_revoked (none ∷ es) = has_revoked es
has_revoked (some e ∷ es) = is_revoked e || has_revoked es

-- Each certificate has a status: no error, revoked or unknown.
abbrev pub all_answered : List (Option OcspError) → Bool
all_answered [] = true
all_answered (none ∷ es) = all_answered es
all_answered (some e ∷ es) = is_valid_ocsp_error e && all_answered es

is_revoked-eq : (e : OcspError) → is_revoked e ≡ true → e ≡ revoked
is_revoked-eq revoked h = refl
is_revoked-eq _ h = cc

any_revoked-eq :
    (found : Option OcspError) (es : List (Option OcspError))
    → any_revoked found es
      ≡ (if all_answered es then (if has_revoked es then some revoked else found) else none)
unfolding any_revoked
any_revoked-eq found [] = refl
any_revoked-eq found (none ∷ es) = any_revoked-eq found es
any_revoked-eq found (some e ∷ es) = elim (Bool-cases (is_revoked e)) [
  | inl r ↦ ground (arith, is_revoked-eq e r, any_revoked-eq (some e) es)
  | inr r ↦ ground (arith, any_revoked-eq found es)
]

guards_passed :
    (d r a : Bool) (f : Fate)
    → d ≡ false
    → r ≡ false
    → a ≡ true
    → (if d || r then uncorked else if not a then unauthorized else f) ≡ f
guards_passed true r a f d q t = cc
guards_passed false true a f d q t = cc
guards_passed false false true f d q t = refl
guards_passed false false false f d q t = cc

once-decided :
    (n : ℕ) (o : Option OcspError)
    → 0 < n
    → decided (if n == 0 then [] else o ∷ []) ≡ decided (o ∷ [])
once-decided zero o h = absurd (omega arith)
once-decided (suc n) o h = ground arith

answered-decided :
    (a b : Bool)
    → decided ((if a then (if b then some revoked else none) else none) ∷ [])
      ≡ (if a && b then destroyed revoked else uncorked)
answered-decided true true = refl
answered-decided true false = refl
answered-decided false b = refl

-- In the mode that is open, a socket that is validated and authorized and has certificates to
-- validate is destroyed exactly where some certificate is revoked and every other one is good,
-- revoked or unknown, in whatever order the validations end; else its writes are unblocked.
pub secure_socket-open :
    (crypto : Crypto) (s : Socket) (validation : ℕ → Validation) (order : List ℕ)
    → s.validation_disabled ≡ false
    → s.session_reused ≡ false
    → s.authorized ≡ true
    → 0 < length (collect s.chain)
    → IsOrder (length (collect s.chain)) order
    → (let errors =
          errors_of (λ i. validate_cert crypto false (validation i)) (length (collect s.chain)) in
        secure_socket crypto false s validation order
        ≡ (if all_answered errors && has_revoked errors then destroyed revoked else uncorked))
unfolding secure_socket can_early_exit_for_ocsp
secure_socket-open crypto s validation order d r t l o =
    let n = length (collect s.chain) in
    let outcome = λ (i : ℕ). validate_cert crypto false (validation i) in
    let errors = errors_of outcome n in
    guards_passed s.validation_disabled s.session_reused s.authorized _ d r t
    ∙ ap decided (validate_cert_chain-once false n outcome order o)
    ∙ once-decided n (any_revoked none errors) l
    ∙ ap (λ (e : Option OcspError). decided (e ∷ [])) (any_revoked-eq none errors)
    ∙ answered-decided (all_answered errors) (has_revoked errors)
