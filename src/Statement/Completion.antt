-- ===== src/Statement/Completion.antt =====
-- The requests of a row statement and its completion: buildResultRequestCallback,
-- onStatementRequestComp, createOnStatementRequestSuccRow, refresh and invokeStatementComplete of
-- lib/connection/statement.js. A query id is a number.
use snowflake_connector_node.Prelude.{
  ℕ, zero, suc, Bool, true, false, ◌||◌, ◌&&◌, not, Option, none, some, List, [], ◌∷◌, ◌++◌,
  get_elem?, if◌then◌else◌,
}

-- The codes of a response that the statement tells apart.
pub data QueryCode : Type 0 where
  query_in_progress query_in_progress_async other_query_code : QueryCode

-- A response: `result_ids` are those of several statements, and empty for one.
pub record Body : Type 0 where
  pub code : QueryCode
  pub query_id : ℕ
  pub result_ids : List ℕ

-- The error of a request, with the query id of its data, if it is an operation failed error that has
-- them; or an error that the handling of a response throws.
pub data RequestError : Type 0 where
  request_error : Option ℕ → RequestError
  type_error : RequestError

-- context.result: what the server's response became, or the id of a query that is detached.
pub data StatementResult : Type 0 where
  built : Body → StatementResult
  detached : ℕ → StatementResult

-- What the complete callback is given, after the rows were read in the last case.
pub data Completion : Type 0 where
  with_error : Option RequestError → Completion
  with_result : Option StatementResult → Completion
  after_rows : Completion

-- Why a request for the result was sent.
pub data Purpose : Type 0 where
  first_result refresh_result : Purpose

pub record StatementConfig : Type 0 where
  pub async_exec : Bool
  pub stream_result : Bool

-- `completions` are the calls of the complete callback, `refreshed` counts those of the callbacks of
-- refresh, and `spawned` are the query ids of statements that were made for several results.
pub record Statement : Type 0 where
  pub query_id : Option ℕ
  pub result : Option StatementResult
  pub result_error : Option RequestError
  pub is_fetching_result : Bool
  pub is_multi : Bool
  pub in_flight : List Purpose
  pub completions : List Completion
  pub refreshed : ℕ
  pub spawned : List ℕ

-- A statement whose first request was sent.
unfoldable pub new_statement : Option ℕ → Statement
new_statement query_id = record {
  query_id = query_id;
  result = none;
  result_error = none;
  is_fetching_result = true;
  is_multi = false;
  in_flight = first_result ∷ [];
  completions = [];
  refreshed = 0;
  spawned = [];
}

abbrev pub is_present {ℓ} : {A : Type ℓ} → Option A → Bool
is_present none = false
is_present (some a) = true

unfoldable pub send_request : Purpose → Statement → Statement
send_request p s = record s { in_flight = s.in_flight ++ p ∷ [] }

-- invokeStatementComplete
unfoldable pub completion_of : StatementConfig → Statement → Completion
completion_of cfg s =
    if cfg.stream_result
    then with_error s.result_error
    else if cfg.async_exec
    then with_result s.result
    else after_rows

-- The response of the first request, where there is no result yet.
unfoldable pub first_success : Body → Statement → Statement
first_success b s = elim b.code [
  | query_in_progress_async ↦ record s { result = some (detached b.query_id) }
  | _ ↦ elim b.result_ids [
    | [] ↦ record s { result = some (built b); query_id = some b.query_id }
    | id ∷ ids ↦ record s { is_multi = true; query_id = some id; spawned = s.spawned ++ id ∷ [] }
  ]
]

-- result.refresh, which a detached result does not have.
unfoldable pub refresh_success : Body → StatementResult → Statement → Statement
refresh_success b (built old) s = record s { result = some (built b) }
refresh_success b (detached id) s = record s { result_error = some type_error }

-- createOnStatementRequestSuccRow
unfoldable pub on_statement_request_succ : Body → Statement → Statement
unfolding first_success refresh_success
on_statement_request_succ b s = elim s.result [
  | none ↦ first_success b s
  | some r ↦ refresh_success b r s
]

-- The error is saved, and the query id with it if none is known.
unfoldable pub on_statement_request_fail : RequestError → Statement → Statement
on_statement_request_fail (request_error id) s = record s {
  result_error = some (request_error id);
  query_id = if is_present s.query_id then s.query_id else id;
}
on_statement_request_fail type_error s = record s { result_error = some type_error }

pub data Response : Type 0 where
  succeeded : Body → Response
  failed : RequestError → Response

unfoldable pub after_request : Response → Statement → Statement
unfolding on_statement_request_succ on_statement_request_fail
after_request (succeeded b) s = on_statement_request_succ b s
after_request (failed e) s = on_statement_request_fail e s

-- onStatementRequestComp
unfoldable pub on_statement_request_comp : StatementConfig → Response → Statement → Statement
unfolding after_request completion_of
on_statement_request_comp cfg r s =
    let suppress = is_present s.result || is_present s.result_error in
    let t = record (after_request r (record s { result_error = none })) {
      is_fetching_result = false;
    } in
    if suppress then t else record t { completions = t.completions ++ completion_of cfg t ∷ [] }

-- onResultAvailable, by the purpose of the request.
unfoldable pub on_result_available : StatementConfig → Purpose → Response → Statement → Statement
unfolding on_statement_request_comp
on_result_available cfg first_result r s = on_statement_request_comp cfg r s
on_result_available cfg refresh_result r s =
    let t = on_statement_request_comp cfg r s in record t { refreshed = suc t.refreshed }

unfoldable pub in_progress : QueryCode → Bool
in_progress query_in_progress = true
in_progress query_in_progress_async = true
in_progress other_query_code = false

-- buildResultRequestCallback
unfoldable pub on_response : StatementConfig → Purpose → Response → Statement → Statement
unfolding on_result_available in_progress send_request
on_response cfg p (failed e) s = on_result_available cfg p (failed e) s
on_response cfg p (succeeded b) s =
    let t = record s { query_id = some b.query_id } in
    if in_progress b.code && not cfg.async_exec
    then send_request p t
    else on_result_available cfg p (succeeded b) t

-- What happens to a statement: a response of any request in flight, or a call of refresh.
pub data Happening : Type 0 where
  responds : ℕ → Response → Happening
  refreshes : Happening

unfoldable pub remove_request : ℕ → List Purpose → List Purpose
remove_request i [] = []
remove_request zero (p ∷ ps) = ps
remove_request (suc i) (p ∷ ps) = p ∷ remove_request i ps

unfoldable pub on_request_at :
    StatementConfig → ℕ → Response → Statement → Option Purpose → Statement
unfolding on_response remove_request
on_request_at cfg i r s none = s
on_request_at cfg i r s (some p) =
    on_response cfg p r (record s { in_flight = remove_request i s.in_flight })

unfoldable pub happen : StatementConfig → Statement → Happening → Statement
unfolding on_request_at send_request
happen cfg s (responds i r) = on_request_at cfg i r s (get_elem? s.in_flight i)
happen cfg s refreshes = send_request refresh_result s

-- The latest happening stands first.
unfoldable pub history : StatementConfig → Option ℕ → List Happening → Statement
unfolding new_statement happen
history cfg query_id [] = new_statement query_id
history cfg query_id (h ∷ hs) = happen cfg (history cfg query_id hs) h
