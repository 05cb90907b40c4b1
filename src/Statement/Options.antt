-- ===== src/Statement/Options.antt =====
-- The options of a statement: createContextPreExec, createStatementPostExec and fetchRows of
-- lib/connection/statement.js check them, and createContextPreExec builds the statement's context.
use snowflake_connector_node.Prelude.{Bool, true, ◌||◌, ◌&&◌, not, List, [], ◌∷◌}
use snowflake_connector_node.Prelude.Value.{
  Value, Values, nil, cons, array, exists, is_function, is_object, is_array, is_string, is_boolean,
}
use snowflake_connector_node.Statement.Types.{
  Runtime, find_invalid_value, is_valid_row_mode, is_some,
}
use snowflake_connector_node.Statement.Checks.{
  err_conn_exec_stmt_missing_sql_text, err_conn_exec_stmt_invalid_sql_text,
  err_conn_exec_stmt_invalid_complete, err_conn_exec_stmt_invalid_stream_result,
  err_conn_exec_stmt_invalid_fetch_as_string, err_conn_exec_stmt_invalid_fetch_as_string_values,
  err_conn_exec_stmt_invalid_request_id, err_conn_exec_stmt_invalid_parameters,
  err_conn_exec_stmt_invalid_binds, err_conn_exec_stmt_invalid_bind_values,
  err_conn_exec_stmt_invalid_internal, err_conn_exec_stmt_invalid_async_exec,
  err_conn_exec_stmt_invalid_describe_only, err_conn_fetch_result_missing_query_id,
  err_conn_fetch_result_invalid_query_id, err_conn_fetch_result_invalid_complete,
  err_conn_fetch_result_invalid_stream_result, err_conn_fetch_result_invalid_fetch_as_string,
  err_conn_fetch_result_invalid_fetch_as_string_values, err_conn_fetch_result_invalid_cwd,
  err_stmt_stream_rows_invalid_row_mode, err_stmt_fetch_rows_missing_each,
  err_stmt_fetch_rows_invalid_each, err_stmt_fetch_rows_missing_end,
  err_stmt_fetch_rows_invalid_end, Check, check_argument_exists, check_argument_valid,
  check_optional,
}

-- The fields of the options that are read; one that is not given is `undefined`.
pub record StatementOptions : Type 0 where
  pub sql_text : Value
  pub query_id : Value
  pub request_id : Value
  pub complete : Value
  pub stream_result : Value
  pub fetch_as_string : Value
  pub parameters : Value
  pub binds : Value
  pub internal : Value
  pub row_mode : Value
  pub async_exec : Value
  pub describe_only : Value
  pub cwd : Value
  pub multi_result_ids : Value
  pub multi_sql_texts : Value
  pub multi_cur_id : Value

-- The options argument itself: an object with these fields, `undefined` or null, or another value.
pub data Argument {ℓ} (A : Type ℓ) : Type ℓ where
  given : A → Argument A
  absent not_an_object : Argument A

-- The values of fetchAsString, where it is an array.
unfoldable pub has_native_types : Runtime → Value → Bool
has_native_types rt (array vs) = not (is_some (find_invalid_value rt vs))
has_native_types rt _ = true

unfoldable pub all_stringifiable : Runtime → Values → Bool
all_stringifiable rt nil = true
all_stringifiable rt (cons v vs) = is_some (rt.stringify v) && all_stringifiable rt vs

-- The binds, where they are an array.
unfoldable pub has_stringifiable_binds : Runtime → Value → Bool
unfolding all_stringifiable
has_stringifiable_binds rt (array vs) = all_stringifiable rt vs
has_stringifiable_binds rt _ = true

-- The checks of createContextPreExec on the fields. Without a request id a SQL text is wanted.
unfoldable pub pre_exec_checks : Runtime → StatementOptions → List Check
pre_exec_checks rt o =
    check_argument_exists (exists o.request_id || exists o.sql_text)
      err_conn_exec_stmt_missing_sql_text
    ∷ check_argument_valid (exists o.request_id || is_string o.sql_text)
        err_conn_exec_stmt_invalid_sql_text
    ∷ check_optional o.complete (is_function o.complete) err_conn_exec_stmt_invalid_complete
    ∷ check_optional o.stream_result (is_boolean o.stream_result)
        err_conn_exec_stmt_invalid_stream_result
    ∷ check_optional o.fetch_as_string (is_array o.fetch_as_string)
        err_conn_exec_stmt_invalid_fetch_as_string
    ∷ check_optional o.fetch_as_string (has_native_types rt o.fetch_as_string)
        err_conn_exec_stmt_invalid_fetch_as_string_values
    ∷ check_optional o.request_id (is_string o.request_id) err_conn_exec_stmt_invalid_request_id
    ∷ check_optional o.parameters (is_object o.parameters) err_conn_exec_stmt_invalid_parameters
    ∷ check_optional o.binds (is_array o.binds) err_conn_exec_stmt_invalid_binds
    ∷ check_optional o.binds (has_stringifiable_binds rt o.binds)
        err_conn_exec_stmt_invalid_bind_values
    ∷ check_optional o.internal (is_boolean o.internal) err_conn_exec_stmt_invalid_internal
    ∷ check_optional o.row_mode (is_valid_row_mode o.row_mode) err_stmt_stream_rows_invalid_row_mode
    ∷ check_optional o.async_exec (is_boolean o.async_exec) err_conn_exec_stmt_invalid_async_exec
    ∷ check_optional o.describe_only (is_boolean o.describe_only)
        err_conn_exec_stmt_invalid_describe_only
    ∷ []

-- The checks of createStatementPostExec.
unfoldable pub post_exec_checks : Runtime → StatementOptions → List Check
post_exec_checks rt o =
    check_argument_exists (exists o.query_id) err_conn_fetch_result_missing_query_id
    ∷ check_argument_valid (is_string o.query_id) err_conn_fetch_result_invalid_query_id
    ∷ check_optional o.complete (is_function o.complete) err_conn_fetch_result_invalid_complete
    ∷ check_optional o.stream_result (is_boolean o.stream_result)
        err_conn_fetch_result_invalid_stream_result
    ∷ check_optional o.fetch_as_string (is_array o.fetch_as_string)
        err_conn_fetch_result_invalid_fetch_as_string
    ∷ check_optional o.fetch_as_string (has_native_types rt o.fetch_as_string)
        err_conn_fetch_result_invalid_fetch_as_string_values
    ∷ check_optional o.row_mode (is_valid_row_mode o.row_mode) err_stmt_stream_rows_invalid_row_mode
    ∷ check_optional o.cwd (is_string o.cwd) err_conn_fetch_result_invalid_cwd
    ∷ []

-- The options of fetchRows.
pub record FetchRowsOptions : Type 0 where
  pub each : Value
  pub end : Value
  pub row_mode : Value

unfoldable pub fetch_rows_checks : FetchRowsOptions → List Check
fetch_rows_checks o =
    check_argument_exists (exists o.each) err_stmt_fetch_rows_missing_each
    ∷ check_argument_valid (is_function o.each) err_stmt_fetch_rows_invalid_each
    ∷ check_argument_exists (exists o.end) err_stmt_fetch_rows_missing_end
    ∷ check_argument_valid (is_function o.end) err_stmt_fetch_rows_invalid_end
    ∷ check_optional o.row_mode (is_valid_row_mode o.row_mode) err_stmt_stream_rows_invalid_row_mode
    ∷ []
