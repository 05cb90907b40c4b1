-- ===== src/Statement/Fetch.antt =====
-- fetchRowsFromResult of lib/connection/statement.js: rows are fetched again after the store refuses
-- an expired URL, up to a limit.
use snowflake_connector_node.Prelude.{
  ℕ, suc, ◌+◌, ◌≤◌, Bool, true, false, ◌&&◌, Option, none, some, List, [], ◌∷◌, ◌++◌, ltb, ◌==◌,
  ◌≡◌, All, if◌then◌else◌, arith, length, lt→ltb, ap, ◌∙◌,
}

-- The error of a fetch-rows operation: a large result set error with the status of its response, or
-- another one.
pub data FetchError : Type 0 where
  large_result_set_error : Option ℕ → FetchError
  other_fetch_error : FetchError

-- The operation completed, with an error or none; and whether the request for the result, if it is
-- sent, succeeds.
pub record Round : Type 0 where
  pub error : Option FetchError
  pub refetched : Bool

-- `ended` is the call of end(); `waits` is a round that did not complete yet, and `stalled` one after
-- which nothing more happens.
pub data Fetched : Type 0 where
  ended waits stalled : Fetched

unfoldable pub is_expired : Option FetchError → Bool
is_expired none = false
is_expired (some other_fetch_error) = false
is_expired (some (large_result_set_error none)) = false
is_expired (some (large_result_set_error (some status))) = status == 403

unfoldable pub fetch_rounds : ℕ → ℕ → List Round → Fetched
unfolding is_expired
fetch_rounds limit interrupts [] = waits
fetch_rounds limit interrupts (r ∷ rs) =
    let rest = fetch_rounds limit (suc interrupts) rs in
    if is_expired r.error && ltb interrupts limit
    then (if r.refetched then rest else stalled)
    else ended

unfoldable pub fetch_rows_from_result : ℕ → List Round → Fetched
unfolding fetch_rounds
fetch_rows_from_result limit rs = fetch_rounds limit 0 rs

abbrev pub IsRefetched : Round → Type 0
IsRefetched r = (is_expired r.error ≡ true) × (r.refetched ≡ true)

rounds-refetched :
    (limit interrupts : ℕ) (rs rest : List Round)
    → All IsRefetched rs
    → interrupts + length rs ≤ limit
    → fetch_rounds limit interrupts (rs ++ rest) ≡ fetch_rounds limit (interrupts + length rs) rest
unfolding fetch_rounds
rounds-refetched limit interrupts [] rest h k = ap (λ i. fetch_rounds limit i rest) (omega arith)
rounds-refetched limit interrupts (r ∷ rs) rest ((e, f), h) k =
    let t = lt→ltb interrupts limit (omega (arith, k)) in
    let next = rounds-refetched limit (suc interrupts) rs rest h (omega (arith, k)) in
    rw (e, t, f) (next ∙ ap (λ i. fetch_rounds limit i rest) (omega arith))

-- After at most as many expired URLs as interrupts are allowed, each with a result that is fetched
-- again, a round that completes otherwise, or one more than are allowed, ends the operation; but
-- an expired URL within the limit whose result cannot be fetched again leaves it stalled: end() is
-- not called.
pub fetch_rows-rounds :
    (limit : ℕ) (rs : List Round) (last : Round)
    → All IsRefetched rs
    → length rs ≤ limit
    → fetch_rows_from_result limit (rs ++ last ∷ []) ≡ (
        if is_expired last.error && ltb (length rs) limit
        then (if last.refetched then waits else stalled)
        else ended)
unfolding fetch_rows_from_result
fetch_rows-rounds limit rs last h k =
    rounds-refetched limit 0 rs (last ∷ []) h (omega (arith, k))
    ∙ unfold fetch_rounds in ap (λ i. fetch_rounds limit i (last ∷ [])) (omega arith)
