-- ===== src/Statement/Checks.antt =====
-- checkArgumentExists and checkArgumentValid of lib/errors.js: the checks of a function's arguments
-- in their order, of which the first that does not hold throws.
use snowflake_connector_node.Prelude.{
  Bool, true, not, ◌||◌, Option, none, some, List, [], ◌∷◌, ◌≡◌, ◌↔◌, All, refl, arith,
  if◌then◌else◌,
}
use snowflake_connector_node.Prelude.Value.{Value, exists}

-- The error codes of lib/errors.js that the checks of a statement's options throw.
pub data ErrorCode : Type 0 where
  err_conn_exec_stmt_missing_options err_conn_exec_stmt_invalid_options
        err_conn_exec_stmt_missing_sql_text err_conn_exec_stmt_invalid_sql_text
        err_conn_exec_stmt_invalid_complete err_conn_exec_stmt_invalid_stream_result
        err_conn_exec_stmt_invalid_fetch_as_string err_conn_exec_stmt_invalid_fetch_as_string_values
        err_conn_exec_stmt_invalid_request_id err_conn_exec_stmt_invalid_parameters
        err_conn_exec_stmt_invalid_binds err_conn_exec_stmt_invalid_bind_values
        err_conn_exec_stmt_invalid_internal err_conn_exec_stmt_invalid_async_exec
        err_conn_exec_stmt_invalid_describe_only err_conn_fetch_result_missing_options
        err_conn_fetch_result_invalid_options err_conn_fetch_result_missing_query_id
        err_conn_fetch_result_invalid_query_id err_conn_fetch_result_invalid_complete
        err_conn_fetch_result_invalid_stream_result err_conn_fetch_result_invalid_fetch_as_string
        err_conn_fetch_result_invalid_fetch_as_string_values err_conn_fetch_result_invalid_cwd
        err_stmt_stream_rows_invalid_row_mode err_stmt_fetch_rows_missing_options
        err_stmt_fetch_rows_invalid_options err_stmt_fetch_rows_missing_each
        err_stmt_fetch_rows_invalid_each err_stmt_fetch_rows_missing_end
        err_stmt_fetch_rows_invalid_end :
      ErrorCode

pub data ArgumentError : Type 0 where
  missing_parameter invalid_parameter : ErrorCode → ArgumentError

pub record Check : Type 0 where
  pub expression : Bool
  pub error : ArgumentError

abbrev pub check_argument_exists : Bool → ErrorCode → Check
check_argument_exists e code = record { expression = e; error = missing_parameter code }

abbrev pub check_argument_valid : Bool → ErrorCode → Check
check_argument_valid e code = record { expression = e; error = invalid_parameter code }

-- if (Util.exists(value)) { checkArgumentValid(expression, code) }
abbrev pub check_optional : Value → Bool → ErrorCode → Check
check_optional value e code = check_argument_valid (not (exists value) || e) code

-- The error of the first check that does not hold.
unfoldable pub thrown : List Check → Option ArgumentError
thrown [] = none
thrown (c ∷ cs) = if c.expression then thrown cs else some c.error

abbrev pub Holds : Check → Type 0
Holds c = c.expression ≡ true

-- Nothing is thrown exactly if all checks hold.
pub thrown-none : (cs : List Check) → (thrown cs ≡ none) ↔ All Holds cs
unfolding thrown
thrown-none [] = (λ h. tt, λ h. refl)
thrown-none (c ∷ cs) = ground (arith, thrown-none cs)
