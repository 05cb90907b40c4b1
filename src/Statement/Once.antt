-- ===== src/Statement/Once.antt =====
-- The complete callback of a statement of lib/connection/statement.js is called once.
use snowflake_connector_node.Prelude.{
  ℕ, Bool, true, false, ◌||◌, ◌&&◌, not, Option, none, some, List, [], ◌∷◌, ◌++◌, length,
  length-append, All, get_elem?, if◌then◌else◌, ◌≡◌, ◌≢◌, ◌⊎◌, inl, inr, refl, ap, ◌∙◌, arith,
  Bool-cases,
}
use snowflake_connector_node.Statement.Completion.{
  request_error, type_error, Purpose, first_result, refresh_result, StatementConfig, Statement,
  new_statement, is_present, send_request, completion_of, first_success, refresh_success,
  on_statement_request_succ, on_statement_request_fail, Response, succeeded, failed, after_request,
  on_statement_request_comp, on_result_available, in_progress, on_response, Happening, responds,
  refreshes, remove_request, on_request_at, happen, history,
}

-- A response that carries the result of one statement.
abbrev pub IsSingle : Response → Type 0
IsSingle (succeeded b) = b.result_ids ≡ []
IsSingle (failed e) = Unit

abbrev pub HasSingle : Happening → Type 0
HasSingle (responds i r) = IsSingle r
HasSingle refreshes = Unit

-- A statement is fetching exactly while it has neither result nor error, and was completed once
-- after that.
pub record IsConsistent (s : Statement) : Type 0 where
  pub completed : length s.completions ≡ (if s.is_fetching_result then 0 else 1)
  pub has_outcome : (is_present s.result || is_present s.result_error) ≡ not s.is_fetching_result

abbrev has_some : Statement → Bool
has_some s = is_present s.result || is_present s.result_error

-- The handling of a response leaves a result or an error.
after_request-present :
    (r : Response) (s : Statement)
    → IsSingle r
    → has_some (after_request r (record s { result_error = none })) ≡ true
unfolding after_request on_statement_request_succ on_statement_request_fail first_success
    refresh_success
after_request-present (succeeded b) s h = ground arith
after_request-present (failed (request_error id)) s h = ground arith
after_request-present (failed type_error) s h = ground arith

pub after_request-completions :
    (r : Response) (s : Statement) → (after_request r s).completions ≡ s.completions
unfolding after_request on_statement_request_succ on_statement_request_fail first_success
    refresh_success
after_request-completions (succeeded b) s = ground arith
after_request-completions (failed (request_error id)) s = refl
after_request-completions (failed type_error) s = refl

-- Once a response is there, the statement is complete.
comp-IsConsistent :
    (cfg : StatementConfig) (r : Response) (s : Statement)
    → IsSingle r
    → IsConsistent s
    → IsConsistent (on_statement_request_comp cfg r s)
      × ((on_statement_request_comp cfg r s).is_fetching_result ≡ false)
unfolding on_statement_request_comp
comp-IsConsistent cfg r s h w =
    let here = after_request-present r s h in
    let same = after_request-completions r (record s { result_error = none }) in
    let t = record (after_request r (record s { result_error = none })) {
      is_fetching_result = false;
    } in
    let before = ap length same in
    elim (Bool-cases (has_some s)) [
      | inl e ↦ rw e (
        record {
          completed = before ∙ ground (arith, e, w.completed, w.has_outcome);
          has_outcome = here;
        },
        refl,
      )
      | inr e ↦ rw e (
        record {
          completed =
              length-append t.completions (completion_of cfg t ∷ [])
              ∙ ground (arith, e, before, w.completed, w.has_outcome);
          has_outcome = here;
        },
        refl,
      )
    ]

-- Sent requests and refreshes that are counted change nothing of it.
available-IsConsistent :
    (cfg : StatementConfig) (p : Purpose) (r : Response) (s : Statement)
    → IsSingle r
    → IsConsistent s
    → IsConsistent (on_result_available cfg p r s)
      × ((on_result_available cfg p r s).is_fetching_result ≡ false)
unfolding on_result_available
available-IsConsistent cfg first_result r s h w = comp-IsConsistent cfg r s h w
available-IsConsistent cfg refresh_result r s h w =
    let (v, e) = comp-IsConsistent cfg r s h w in
    (record { completed = v.completed; has_outcome = v.has_outcome }, e)

-- A statement that is fetching waits for a response.
unfoldable pub Awaits : Statement → Type 0
Awaits s = (s.is_fetching_result ≡ false) ⊎ (s.in_flight ≢ [])

not_empty {ℓ} : {A : Type ℓ} (xs : List A) (x : A) → xs ++ x ∷ [] ≢ []
not_empty [] x = λ h. cc h
not_empty (y ∷ xs) x = λ h. cc h

send-IsConsistent :
    (p : Purpose) (s : Statement)
    → IsConsistent s
    → IsConsistent (send_request p s) × Awaits (send_request p s)
unfolding send_request Awaits
send-IsConsistent p s w =
    (record { completed = w.completed; has_outcome = w.has_outcome }, inr (not_empty s.in_flight p))

response-IsConsistent :
    (cfg : StatementConfig) (p : Purpose) (r : Response) (s : Statement)
    → IsSingle r
    → IsConsistent s
    → IsConsistent (on_response cfg p r s) × Awaits (on_response cfg p r s)
unfolding on_response Awaits
response-IsConsistent cfg p (failed e) s h w =
    let (v, done) = available-IsConsistent cfg p (failed e) s h w in (v, inl done)
response-IsConsistent cfg p (succeeded b) s h w =
    let t = record s { query_id = some b.query_id } in
    let known : IsConsistent t = record { completed = w.completed; has_outcome = w.has_outcome } in
    elim (Bool-cases (in_progress b.code && not cfg.async_exec)) [
      | inl e ↦ rw e (send-IsConsistent p t known)
      | inr e ↦
          let (v, done) = available-IsConsistent cfg p (succeeded b) t h known in rw e (v, inl done)
    ]

at-IsConsistent :
    (cfg : StatementConfig) (i : ℕ) (r : Response) (s : Statement) (o : Option Purpose)
    → IsSingle r
    → IsConsistent s
    → Awaits s
    → IsConsistent (on_request_at cfg i r s o) × Awaits (on_request_at cfg i r s o)
unfolding on_request_at
at-IsConsistent cfg i r s none h w a = (w, a)
at-IsConsistent cfg i r s (some p) h w a =
    response-IsConsistent cfg p r (record s { in_flight = remove_request i s.in_flight }) h
      (record { completed = w.completed; has_outcome = w.has_outcome })

happen-IsConsistent :
    (cfg : StatementConfig) (s : Statement) (e : Happening)
    → HasSingle e
    → IsConsistent s
    → Awaits s
    → IsConsistent (happen cfg s e) × Awaits (happen cfg s e)
unfolding happen
happen-IsConsistent cfg s (responds i r) h w a =
    at-IsConsistent cfg i r s (get_elem? s.in_flight i) h w a
happen-IsConsistent cfg s refreshes h w a = send-IsConsistent refresh_result s w

history-IsConsistent :
    (cfg : StatementConfig) (q : Option ℕ) (hs : List Happening)
    → All HasSingle hs
    → IsConsistent (history cfg q hs) × Awaits (history cfg q hs)
unfolding history new_statement Awaits
history-IsConsistent cfg q [] h = (record { completed = refl; has_outcome = refl }, inr (λ e. cc e))
history-IsConsistent cfg q (e ∷ hs) (h, rest) =
    let (w, a) = history-IsConsistent cfg q hs rest in
    happen-IsConsistent cfg (history cfg q hs) e h w a

-- Whatever responses come in whatever order, each with the result of one statement, and however
-- often the result is refreshed: the complete callback was called once if the statement is complete,
-- and never while it is fetching; and a statement that is fetching has a request in flight.
pub completed_once :
    (cfg : StatementConfig) (q : Option ℕ) (hs : List Happening)
    → All HasSingle hs
    → (length (history cfg q hs).completions
        ≡ (if (history cfg q hs).is_fetching_result then 0 else 1))
      × (((history cfg q hs).is_fetching_result ≡ false) ⊎ ((history cfg q hs).in_flight ≢ []))
unfolding Awaits
completed_once cfg q hs h = let (w, a) = history-IsConsistent cfg q hs h in (w.completed, a)
