-- ===== src/Statement/Lost.antt =====
-- The errors of a statement of lib/connection/statement.js in asynchronous mode without streaming,
-- where invokeStatementComplete gives the complete callback a result only.
use snowflake_connector_node.Prelude.{
  ℕ, Bool, true, false, ◌||◌, ◌&&◌, not, Option, none, some, List, [], ◌∷◌, ◌++◌, All, get_elem?,
  if◌then◌else◌, ◌≡◌, refl, ap, ◌∙◌, sym, subst,
}
use snowflake_connector_node.Statement.Completion.{
  Completion, with_error, with_result, after_rows, RequestError, request_error, type_error, Purpose,
  first_result, refresh_result, StatementConfig, StatementResult, Statement, new_statement,
  is_present, send_request, completion_of, on_statement_request_fail, Response, succeeded, failed,
  after_request, on_statement_request_comp, on_result_available, in_progress, on_response,
  Happening, responds, refreshes, remove_request, on_request_at, happen, history,
}
use snowflake_connector_node.Statement.Once.{after_request-completions}

-- A call of the complete callback without an error.
abbrev pub IsErrorless : Completion → Type 0
IsErrorless (with_error e) = e ≡ none
IsErrorless (with_result r) = Unit
IsErrorless after_rows = Unit

abbrev AllErrorless : Statement → Type 0
AllErrorless s = All IsErrorless s.completions

snoc-All :
    (cs : List Completion) (c : Completion)
    → All IsErrorless cs
    → IsErrorless c
    → All IsErrorless (cs ++ c ∷ [])
snoc-All [] c h e = (e, tt)
snoc-All (x ∷ xs) c (h, hs) e = (h, snoc-All xs c hs e)

completion-result :
    (cfg : StatementConfig) (s : Statement)
    → cfg.async_exec ≡ true
    → cfg.stream_result ≡ false
    → completion_of cfg s ≡ with_result s.result
unfolding completion_of
completion-result cfg s a t = rw (a, t) refl

if-AllErrorless :
    (b : Bool) (x y : Statement)
    → AllErrorless x
    → AllErrorless y
    → AllErrorless (if b then x else y)
if-AllErrorless true x y h k = h
if-AllErrorless false x y h k = k

module _ (cfg : StatementConfig) (a : cfg.async_exec ≡ true) (t : cfg.stream_result ≡ false) where
  comp-AllErrorless :
      (r : Response) (s : Statement)
      → AllErrorless s
      → AllErrorless (on_statement_request_comp cfg r s)
  unfolding on_statement_request_comp
  comp-AllErrorless r s h =
      let same = after_request-completions r (record s { result_error = none }) in
      let u = record (after_request r (record s { result_error = none })) {
        is_fetching_result = false;
      } in
      let kept = subst (All IsErrorless) (sym same) h in
      if-AllErrorless (is_present s.result || is_present s.result_error) u
        (record u { completions = u.completions ++ completion_of cfg u ∷ [] }) kept
        (snoc-All u.completions (completion_of cfg u) kept
          (subst IsErrorless (sym (completion-result cfg u a t)) tt))

  available-AllErrorless :
      (p : Purpose) (r : Response) (s : Statement)
      → AllErrorless s
      → AllErrorless (on_result_available cfg p r s)
  unfolding on_result_available
  available-AllErrorless first_result r s h = comp-AllErrorless r s h
  available-AllErrorless refresh_result r s h = comp-AllErrorless r s h

  response-AllErrorless :
      (p : Purpose) (r : Response) (s : Statement)
      → AllErrorless s
      → AllErrorless (on_response cfg p r s)
  unfolding on_response send_request
  response-AllErrorless p (failed e) s h = available-AllErrorless p (failed e) s h
  response-AllErrorless p (succeeded b) s h =
      let u = record s { query_id = some b.query_id } in
      if-AllErrorless (in_progress b.code && not cfg.async_exec) (send_request p u)
        (on_result_available cfg p (succeeded b) u) h (available-AllErrorless p (succeeded b) u h)

  at-AllErrorless :
      (i : ℕ) (r : Response) (s : Statement) (o : Option Purpose)
      → AllErrorless s
      → AllErrorless (on_request_at cfg i r s o)
  unfolding on_request_at
  at-AllErrorless i r s none h = h
  at-AllErrorless i r s (some p) h =
      response-AllErrorless p r (record s { in_flight = remove_request i s.in_flight }) h

  history-AllErrorless : (q : Option ℕ) (hs : List Happening) → AllErrorless (history cfg q hs)
  unfolding history new_statement happen send_request
  history-AllErrorless q [] = tt
  history-AllErrorless q (responds i r ∷ hs) =
      let s = history cfg q hs in
      at-AllErrorless i r s (get_elem? s.in_flight i) (history-AllErrorless q hs)
  history-AllErrorless q (refreshes ∷ hs) = history-AllErrorless q hs

-- Each response is an error.
abbrev pub HasFailed : Happening → Type 0
HasFailed (responds i (failed e)) = Unit
HasFailed (responds i (succeeded b)) = ⊥
HasFailed refreshes = Unit

-- Without a result: fetching, or with an error that the one call of the callback was not given.
abbrev pub IsLost : Statement → Type 0
IsLost s =
    (s.result ≡ none)
    × (is_present s.result_error ≡ not s.is_fetching_result)
    × (s.completions ≡ (if s.is_fetching_result then [] else with_result none ∷ []))

fail-same :
    (e : RequestError) (s : Statement)
    → ((on_statement_request_fail e s).result ≡ s.result)
      × ((on_statement_request_fail e s).result_error ≡ some e)
unfolding on_statement_request_fail
fail-same (request_error id) s = (refl, refl)
fail-same type_error s = (refl, refl)

abbrev the_one : Bool → List Completion
the_one b = if b then [] else with_result none ∷ []

ended-IsLost :
    (u : Statement) (e : RequestError)
    → u.result ≡ none
    → u.result_error ≡ some e
    → u.is_fetching_result ≡ false
    → u.completions ≡ with_result none ∷ []
    → IsLost u
ended-IsLost u e r x f c = (r, ap is_present x ∙ sym (ap not f), c ∙ sym (ap the_one f))

module _ (cfg : StatementConfig) (a : cfg.async_exec ≡ true) (t : cfg.stream_result ≡ false) where
  -- After an error, by whether the statement was fetching.
  chosen-IsLost :
      (b g : Bool) (u : Statement) (e : RequestError)
      → u.result ≡ none
      → u.result_error ≡ some e
      → u.is_fetching_result ≡ false
      → u.completions ≡ (if g then [] else with_result none ∷ [])
      → b ≡ not g
      → IsLost
          (if b then u else record u { completions = u.completions ++ completion_of cfg u ∷ [] })
  chosen-IsLost true false u e r x f c h = ended-IsLost u e r x f c
  chosen-IsLost true true u e r x f c h = cc
  chosen-IsLost false false u e r x f c h = cc
  chosen-IsLost false true u e r x f c h =
      ended-IsLost (record u { completions = u.completions ++ completion_of cfg u ∷ [] }) e r x f
        (ap (λ (cs : List Completion). cs ++ completion_of cfg u ∷ []) c
          ∙ ap (λ (d : Completion). d ∷ []) (completion-result cfg u a t ∙ ap with_result r))

  comp-IsLost :
      (e : RequestError) (s : Statement)
      → IsLost s
      → IsLost (on_statement_request_comp cfg (failed e) s)
  unfolding on_statement_request_comp after_request
  comp-IsLost e s (r, x, c) =
      let cleared = record s { result_error = none } in
      let (result, error) = fail-same e cleared in
      let same = after_request-completions (failed e) cleared in
      let u = record (on_statement_request_fail e cleared) { is_fetching_result = false } in
      chosen-IsLost (is_present s.result || is_present s.result_error) s.is_fetching_result u e
        (result ∙ r) error refl (same ∙ c)
        (ap (λ (o : Option StatementResult). is_present o || is_present s.result_error) r ∙ x)

  at-IsLost :
      (i : ℕ) (e : RequestError) (s : Statement) (o : Option Purpose)
      → IsLost s
      → IsLost (on_request_at cfg i (failed e) s o)
  unfolding on_request_at on_response on_result_available
  at-IsLost i e s none h = h
  at-IsLost i e s (some first_result) h =
      comp-IsLost e (record s { in_flight = remove_request i s.in_flight }) h
  at-IsLost i e s (some refresh_result) h =
      comp-IsLost e (record s { in_flight = remove_request i s.in_flight }) h

  history-IsLost :
      (q : Option ℕ) (hs : List Happening) → All HasFailed hs → IsLost (history cfg q hs)
  unfolding history new_statement happen send_request
  history-IsLost q [] h = (refl, refl, refl)
  history-IsLost q (responds i (failed e) ∷ hs) (h, rest) =
      let s = history cfg q hs in
      at-IsLost i e s (get_elem? s.in_flight i) (history-IsLost q hs rest)
  history-IsLost q (responds i (succeeded b) ∷ hs) (h, rest) = absurd h
  history-IsLost q (refreshes ∷ hs) (h, rest) = history-IsLost q hs rest

-- In asynchronous mode without streaming, for requests of which each that was answered failed, and
-- however often the result is refreshed: the statement holds no result, and an error once it is no
-- longer fetching; the complete callback was then called once, without that error and without a
-- result. And whatever happens behind that, no call of the callback has an error.
pub async_errors-IsLost :
    (cfg : StatementConfig) (q : Option ℕ) (failures later : List Happening)
    → cfg.async_exec ≡ true
    → cfg.stream_result ≡ false
    → All HasFailed failures
    → IsLost (history cfg q failures)
      × All IsErrorless (history cfg q (later ++ failures)).completions
async_errors-IsLost cfg q failures later a t h =
    (history-IsLost cfg a t q failures h, history-AllErrorless cfg a t q (later ++ failures))
