-- ===== src/Ocsp/Order.antt =====
-- validateCertChain of lib/agent/socket_util.js: the order in which validations end does not
-- matter.
use snowflake_connector_node.Prelude.{
  ℕ, zero, suc, ◌+◌, ◌≤◌, ◌<◌, ◌≡◌, refl, Bool, true, false, ◌||◌, Option, List, [], ◌∷◌, ◌==◌,
  if◌then◌else◌, length, Bool-cases, inl, inr, arith, ap, ◌∙◌, ==_iff,
}
use snowflake_connector_node.Ocsp.Responses.{OcspError}
use snowflake_connector_node.Ocsp.Check.{Outcome}
use snowflake_connector_node.Ocsp.Chain.{
  error_of, can_early_exit_for_ocsp, Errors, no_errors, set_error, entries, validate_cert_chain,
}

abbrev pub occurs : ℕ → List ℕ → Bool
occurs i [] = false
occurs i (j ∷ js) = j == i || occurs i js

-- An order in which each of n certificates ends, each once.
abbrev pub IsOrder : ℕ → List ℕ → Type 0
IsOrder n order = (length order ≡ n) × ((i : ℕ) → i < n → occurs i order ≡ true)

-- The array of errors in the end.
abbrev final : (ℕ → Outcome) → Errors → List ℕ → Errors
final outcome es [] = es
final outcome es (i ∷ order) = final outcome (set_error i (error_of (outcome i)) es) order

final-other :
    (outcome : ℕ → Outcome) (es : Errors) (order : List ℕ) (i : ℕ)
    → occurs i order ≡ false
    → final outcome es order i ≡ es i
final-other outcome es [] i h = refl
final-other outcome es (j ∷ js) i h =
    final-other outcome (set_error j (error_of (outcome j)) es) js i (ground arith) ∙ ground arith

final-at :
    (outcome : ℕ → Outcome) (es : Errors) (order : List ℕ) (i : ℕ)
    → occurs i order ≡ true
    → final outcome es order i ≡ error_of (outcome i)
final-at outcome es [] i h = cc
final-at outcome es (j ∷ js) i h = elim (Bool-cases (occurs i js)) [
  | inl e ↦ final-at outcome (set_error j (error_of (outcome j)) es) js i e
  | inr e ↦
      final-other outcome (set_error j (error_of (outcome j)) es) js i e
      ∙ at_index ((==_iff j i).0 (ground arith))
]
  where
    at_index : j ≡ i → set_error j (error_of (outcome j)) es i ≡ error_of (outcome i)
    at_index q = ground (arith, ap (λ (k : ℕ). error_of (outcome k)) q)

entries-eq :
    (es fs : Errors) (i n : ℕ)
    → ((j : ℕ) → i ≤ j → j < i + n → es j ≡ fs j)
    → entries es i n ≡ entries fs i n
entries-eq es fs i zero h = refl
entries-eq es fs i (suc n) h = cc (
  h i (omega arith) (omega arith),
  entries-eq es fs (suc i) n (λ j a b. h j (omega arith) (omega arith)),
)

-- The callback of the chain is called once, after the last of its certificates.
run-final :
    (closed : Bool) (n : ℕ) (outcome : ℕ → Outcome) (completed : ℕ) (es : Errors) (i : ℕ)
    (order : List ℕ)
    → completed + suc (length order) ≡ n
    → validate_cert_chain closed n outcome completed es (i ∷ order)
      ≡ can_early_exit_for_ocsp closed (entries (final outcome es (i ∷ order)) 0 n) ∷ []
unfolding validate_cert_chain
run-final closed n outcome completed es i [] h = ground arith
run-final closed n outcome completed es i (j ∷ order) h = ground (
  arith,
  run-final closed n outcome (suc completed) (set_error i (error_of (outcome i)) es) j order,
)

-- The errors of n certificates in their order in the chain.
abbrev pub errors_of : (ℕ → Outcome) → ℕ → List (Option OcspError)
errors_of outcome n = entries (λ i. error_of (outcome i)) 0 n

-- In whatever order the validations of a chain with certificates to validate end, each once: the
-- callback of the chain is called exactly once, with the error that the errors of all certificates
-- give; for a chain without any it is never called.
pub validate_cert_chain-once :
    (closed : Bool) (n : ℕ) (outcome : ℕ → Outcome) (order : List ℕ)
    → IsOrder n order
    → validate_cert_chain closed n outcome 0 no_errors order
      ≡ (if n == 0 then [] else can_early_exit_for_ocsp closed (errors_of outcome n) ∷ [])
unfolding validate_cert_chain
validate_cert_chain-once closed n outcome [] (l, all) = ground arith
validate_cert_chain-once closed n outcome (i ∷ order) (l, all) =
    run-final closed n outcome 0 no_errors i order (omega (arith, l))
    ∙ ap (λ (es : List (Option OcspError)). can_early_exit_for_ocsp closed es ∷ [])
        (entries-eq (final outcome no_errors (i ∷ order)) (λ j. error_of (outcome j)) 0 n
          (λ j a b. final-at outcome no_errors (i ∷ order) j (all j (omega arith))))
    ∙ ground (arith, l)
