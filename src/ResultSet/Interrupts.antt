-- ===== src/ResultSet/Interrupts.antt =====
-- lib/connection/result/row_stream.js: how a row stream begins, and how it ends or goes on when its
-- result stream closes.
use snowflake_connector_node.Prelude.{
  ℕ, suc, ◌+◌, ◌≤◌, Bool, true, false, ◌&&◌, ◌||◌, ◌==◌, ltb, lt→ltb, Option, none, some, List, [],
  ◌∷◌, ◌++◌, All, ◌≡◌, refl, ap, ◌∙◌, sym, append-nil, append_assoc, if◌then◌else◌, arith,
}

pub data ErrorCode : Type 0 where
  econnreset etimedout another_code : ErrorCode

-- An error: whether it is one of a large result set or of a failed operation, the status of its
-- response, and whether it has an SQL state.
pub record StreamError : Type 0 where
  pub is_large_result_set_error : Bool
  pub is_operation_failed_error : Bool
  pub status_code : Option ℕ
  pub sql_state : Bool
  pub code : ErrorCode

-- The context of the statement: `is_file` is the type FILE_PRE_EXEC.
pub record RowStreamContext : Type 0 where
  pub is_fetching_result : Bool
  pub has_result : Bool
  pub result_error : Option StreamError
  pub is_file : Bool
  pub has_multi_result_ids : Bool

unfoldable pub is_file_upload_error : Option StreamError → Bool → Bool
is_file_upload_error none is_file = false
is_file_upload_error (some e) is_file = is_file

unfoldable pub is_statement_error_fatal : RowStreamContext → Bool
unfolding is_file_upload_error
is_statement_error_fatal ctx = elim ctx.result_error [
  | none ↦ is_file_upload_error none ctx.is_file
  | some e ↦
      (e.is_operation_failed_error && e.sql_state) || is_file_upload_error (some e) ctx.is_file
]

unfoldable pub is_forbidden : Option ℕ → Bool
is_forbidden none = false
is_forbidden (some status) = status == 403

unfoldable pub is_connection_code : ErrorCode → Bool
is_connection_code econnreset = true
is_connection_code etimedout = true
is_connection_code another_code = false

unfoldable pub is_result_stream_error_retryable : Option StreamError → Bool
unfolding is_forbidden is_connection_code
is_result_stream_error_retryable none = false
is_result_stream_error_retryable (some e) =
    (e.is_large_result_set_error && is_forbidden e.status_code) || is_connection_code e.code

-- What a call of _read does.
pub data ReadAction : Type 0 where
  reads_next_row waits_for_completion inits_in_next_tick refreshes_and_inits does_nothing :
      ReadAction

unfoldable pub read_action : Bool → RowStreamContext → ReadAction
unfolding is_statement_error_fatal
read_action initialized ctx =
    if initialized
    then reads_next_row
    else if ctx.is_fetching_result
    then waits_for_completion
    else if ctx.has_result || is_statement_error_fatal ctx
    then inits_in_next_tick
    else if ctx.has_multi_result_ids
    then does_nothing
    else refreshes_and_inits

-- What happens to a stream that is open: its result stream reads a chunk, of which these rows lie in
-- the window; or it closes, with an error or none, and where the result is fetched again that ends
-- with an error or none.
pub data StreamEvent (A : Type 0) : Type 0 where
  data_event : List A → StreamEvent A
  close_event : Option StreamError → Option StreamError → StreamEvent A

-- `ended` is push(null), and `errored` the emission of an error.
pub data End : Type 0 where
  is_open ended : End
  errored : StreamError → End

-- The rows that were pushed, and the end.
pub record Streamed (A : Type 0) : Type 0 where
  pub pushed : List A
  pub end : End

unfoldable pub close : Option StreamError → End
close none = ended
close (some e) = errored e

module _ {A : Type 0} where
  -- The stream after a close, and what is streamed if it goes on.
  unfoldable pub on_result_stream_close :
      ℕ → ℕ → Option StreamError → Option StreamError → Streamed A → Streamed A
  unfolding is_result_stream_error_retryable close
  on_result_stream_close limit interrupts err result_error rest =
      if is_result_stream_error_retryable err && ltb interrupts limit
      then (elim result_error [
        | some e ↦ record { pushed = []; end = close (some e) }
        | none ↦ rest
      ])
      else record { pushed = []; end = close err }

  -- numResultStreamInterrupts counts the times that the result is fetched again.
  unfoldable pub stream_from : ℕ → ℕ → List (StreamEvent A) → Streamed A
  unfolding on_result_stream_close
  stream_from limit interrupts [] = record { pushed = []; end = is_open }
  stream_from limit interrupts (data_event rows ∷ es) =
      let rest = stream_from limit interrupts es in record rest { pushed = rows ++ rest.pushed }
  stream_from limit interrupts (close_event err result_error ∷ es) =
      on_result_stream_close limit interrupts err result_error
        (stream_from limit (suc interrupts) es)

  unfoldable pub stream_rows : ℕ → List (StreamEvent A) → Streamed A
  unfolding stream_from
  stream_rows limit es = stream_from limit 0 es

  -- A close that can be retried, with a result that was fetched again.
  abbrev pub IsRecovered : StreamEvent A → Type 0
  IsRecovered (data_event rows) = Unit
  IsRecovered (close_event err none) = is_result_stream_error_retryable err ≡ true
  IsRecovered (close_event err (some e)) = ⊥

  unfoldable pub count_closes : List (StreamEvent A) → ℕ
  count_closes [] = 0
  count_closes (data_event rows ∷ es) = count_closes es
  count_closes (close_event err result_error ∷ es) = suc (count_closes es)

  unfoldable pub rows_of : List (StreamEvent A) → List A
  rows_of [] = []
  rows_of (data_event rows ∷ es) = rows ++ rows_of es
  rows_of (close_event err result_error ∷ es) = rows_of es

  stream_from-recovered :
      (limit interrupts : ℕ) (es rest : List (StreamEvent A))
      → All IsRecovered es
      → interrupts + count_closes es ≤ limit
      → stream_from limit interrupts (es ++ rest) ≡ (record {
        pushed = rows_of es ++ (stream_from limit (interrupts + count_closes es) rest).pushed;
        end = (stream_from limit (interrupts + count_closes es) rest).end;
      })
  unfolding stream_from count_closes rows_of on_result_stream_close
  stream_from-recovered limit interrupts [] rest h k =
      ap (λ i. stream_from limit i rest) (omega arith)
  stream_from-recovered limit interrupts (data_event rows ∷ es) rest (h, hs) k =
      let after = stream_from limit (interrupts + count_closes es) rest in
      ap (λ s. record { pushed = rows ++ s.pushed; end = s.end })
        (stream_from-recovered limit interrupts es rest hs k)
      ∙ ap (λ p. record { pushed = p; end = after.end })
          (sym (append_assoc rows (rows_of es) after.pushed))
  stream_from-recovered limit interrupts (close_event err (some e) ∷ es) rest (h, hs) k = absurd h
  stream_from-recovered limit interrupts (close_event err none ∷ es) rest (h, hs) k =
      let within = lt→ltb interrupts limit (omega (arith, k)) in
      rw (on_result_stream_close, h, within)
        (stream_from-recovered limit (suc interrupts) es rest hs (omega (arith, k))
          ∙ ap
              (λ i. record {
                pushed = rows_of es ++ (stream_from limit i rest).pushed;
                end = (stream_from limit i rest).end;
              })
              (omega arith))

  stopped :
      (limit interrupts : ℕ) (err result_error : Option StreamError) (rest : List (StreamEvent A))
      → (is_result_stream_error_retryable err && ltb interrupts limit) ≡ false
      → stream_from limit interrupts (close_event err result_error ∷ rest)
        ≡ record { pushed = []; end = close err }
  unfolding stream_from on_result_stream_close
  stopped limit interrupts err result_error rest h = rw (on_result_stream_close, h) refl

  not_fetched :
      (limit interrupts : ℕ) (err : Option StreamError) (e : StreamError)
      (rest : List (StreamEvent A))
      → (is_result_stream_error_retryable err && ltb interrupts limit) ≡ true
      → stream_from limit interrupts (close_event err (some e) ∷ rest)
        ≡ record { pushed = []; end = errored e }
  unfolding stream_from on_result_stream_close close
  not_fetched limit interrupts err e rest h = rw (on_result_stream_close, h) refl

  ends_with :
      (limit : ℕ) (es last : List (StreamEvent A)) (end : End)
      → All IsRecovered es
      → count_closes es ≤ limit
      → stream_from limit (0 + count_closes es) last ≡ record { pushed = []; end = end }
      → stream_from limit 0 (es ++ last) ≡ record { pushed = rows_of es; end = end }
  ends_with limit es last end h k e =
      stream_from-recovered limit 0 es last h (omega (arith, k))
      ∙ ap (λ s. record { pushed = rows_of es ++ s.pushed; end = s.end }) e
      ∙ ap (λ p. record { pushed = p; end = end }) (append-nil (rows_of es))

  -- After rows, each of which is handed out without an error, and interruptions that were
  -- recovered from, at most as many as are allowed, all these rows are pushed in order, and the
  -- stream is open; where it then closes without an error, or with one that cannot be retried or
  -- that comes once too often, it ends, with that error if there is one; and where the result
  -- cannot be fetched again it ends with the error of that.
  pub stream_rows-pushed :
      (limit : ℕ) (es rest : List (StreamEvent A))
      → All IsRecovered es
      → count_closes es ≤ limit
      → (stream_rows limit es ≡ record { pushed = rows_of es; end = is_open })
        × ((err result_error : Option StreamError)
            → (is_result_stream_error_retryable err && ltb (count_closes es) limit) ≡ false
            → stream_rows limit (es ++ close_event err result_error ∷ rest)
              ≡ record { pushed = rows_of es; end = close err })
        × ((err : Option StreamError) (e : StreamError)
            → (is_result_stream_error_retryable err && ltb (count_closes es) limit) ≡ true
            → stream_rows limit (es ++ close_event err (some e) ∷ rest)
              ≡ record { pushed = rows_of es; end = errored e })
  unfolding stream_rows
  stream_rows-pushed limit es rest h k = (
    ap (λ x. stream_from limit 0 x) (sym (append-nil es))
        ∙ ends_with limit es [] is_open h k (unfold stream_from in refl),
    λ err result_error stops.
        ends_with limit es (close_event err result_error ∷ rest) (close err) h k
          (stopped limit (0 + count_closes es) err result_error rest (ground (arith, stops))),
    λ err e goes_on.
        ends_with limit es (close_event err (some e) ∷ rest) (errored e) h k
          (not_fetched limit (0 + count_closes es) err e rest (ground (arith, goes_on))),
  )
