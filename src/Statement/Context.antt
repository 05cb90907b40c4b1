-- ===== src/Statement/Context.antt =====
-- The context of a statement: createContextPreExec and createStatementPostExec of
-- lib/connection/statement.js.
use snowflake_connector_node.Prelude.{
  ℕ, String, Bool, false, not, Option, none, some, List, str_eq, ◌==◌, if◌then◌else◌,
}
use snowflake_connector_node.Prelude.Value.{Value, undefined, object, string, exists}
use snowflake_connector_node.Statement.Types.{Runtime}
use snowflake_connector_node.Statement.Checks.{
  err_conn_exec_stmt_missing_options, err_conn_exec_stmt_invalid_options,
  err_conn_fetch_result_missing_options, err_conn_fetch_result_invalid_options, ArgumentError,
  missing_parameter, invalid_parameter, ErrorCode, Check, thrown,
}
use snowflake_connector_node.Statement.Options.{
  StatementOptions, Argument, given, absent, not_an_object, pre_exec_checks, post_exec_checks,
}

pub data StatementType : Type 0 where
  row_pre_exec row_post_exec file_pre_exec file_post_exec : StatementType

-- What a function returns or throws.
pub data Outcome {ℓ} (A : Type ℓ) : Type ℓ where
  returns : A → Outcome A
  throws : ArgumentError → Outcome A

pub record StatementContext : Type 0 where
  pub sql_text : Value
  pub query_id : Value
  pub complete : Value
  pub stream_result : Value
  pub fetch_as_string : Value
  pub multi_result_ids : Value
  pub multi_sql_texts : Value
  pub multi_cur_id : Value
  pub row_mode : Value
  pub async_exec : Value
  pub binds : Value
  pub parameters : Value
  pub internal : Value
  pub cwd : Value
  pub describe_only : Value
  pub request_id : Value
  pub resubmit_request : Bool
  pub statement_type : Option StatementType

-- The context, the options as they are left, and the property QUERY_TAG of each object.
pub record Created : Type 0 where
  pub context : StatementContext
  pub options : StatementOptions
  pub query_tags : ℕ → Option String

-- if (Util.exists(value)) context.field = value
abbrev pub if_exists : Value → Value
if_exists value = if exists value then value else undefined

abbrev pub is_truthy_text : Value → Bool
is_truthy_text (string s) = not (str_eq s "")
is_truthy_text _ = false

-- The context that the checked options give; `uuid` is randomUUID().
unfoldable pub pre_exec_context : String → StatementOptions → StatementContext
pre_exec_context uuid o = record {
  sql_text = o.sql_text;
  query_id = undefined;
  complete = o.complete;
  stream_result = o.stream_result;
  fetch_as_string = o.fetch_as_string;
  multi_result_ids = o.multi_result_ids;
  multi_sql_texts = undefined;
  multi_cur_id = o.multi_cur_id;
  row_mode = o.row_mode;
  async_exec = o.async_exec;
  binds = if_exists o.binds;
  parameters = if_exists o.parameters;
  internal = if_exists o.internal;
  cwd = if_exists o.cwd;
  describe_only = if_exists o.describe_only;
  request_id = if is_truthy_text o.request_id then o.request_id else string uuid;
  resubmit_request = is_truthy_text o.request_id;
  statement_type = none;
}

-- parameters || {}, where parameters are an object or missing; `fresh` is the new object.
abbrev pub parameters_object : ℕ → Value → ℕ
parameters_object fresh (object p) = p
parameters_object fresh _ = fresh

-- statementOptions.parameters.QUERY_TAG = connectionConfig.queryTag; "" is no query tag.
unfoldable pub set_query_tag : ℕ → String → Created → Created
set_query_tag fresh tag c =
    let p = parameters_object fresh c.options.parameters in
    if str_eq tag "" then c else record c {
      options = record c.options { parameters = object p };
      query_tags = λ i. if p == i then some tag else c.query_tags i;
    }

-- The checks that the options are there and are an object.
unfoldable pub with_argument {ℓ κ} :
    {A : Type ℓ} {B : Type κ} → ErrorCode → ErrorCode → Argument A → (A → Outcome B) → Outcome B
with_argument missing invalid (given o) k = k o
with_argument missing invalid absent k = throws (missing_parameter missing)
with_argument missing invalid not_an_object k = throws (invalid_parameter invalid)

unfoldable pub or_throw {ℓ} : {A : Type ℓ} → List Check → Outcome A → Outcome A
or_throw cs r = elim (thrown cs) [ none ↦ r | some e ↦ throws e ]

-- createContextPreExec; `fresh` names the object that `{}` makes.
unfoldable pub create_context_pre_exec :
    Runtime
    → String
    → String
    → ℕ
    → (ℕ → Option String)
    → Argument StatementOptions
    → Outcome Created
unfolding with_argument or_throw pre_exec_checks pre_exec_context set_query_tag
create_context_pre_exec rt query_tag uuid fresh tags a =
    with_argument err_conn_exec_stmt_missing_options err_conn_exec_stmt_invalid_options a λ o.
      or_throw (pre_exec_checks rt o) (
        returns (
          set_query_tag fresh query_tag
            (record { context = pre_exec_context uuid o; options = o; query_tags = tags })))

-- The context of createStatementPostExec. The type of the new context is not ROW_PRE_EXEC.
unfoldable pub post_exec_context : StatementOptions → StatementContext
post_exec_context o = record {
  sql_text = o.sql_text;
  query_id = o.query_id;
  complete = o.complete;
  stream_result = o.stream_result;
  fetch_as_string = o.fetch_as_string;
  multi_result_ids = o.multi_result_ids;
  multi_sql_texts = o.multi_sql_texts;
  multi_cur_id = o.multi_cur_id;
  row_mode = o.row_mode;
  async_exec = undefined;
  binds = undefined;
  parameters = undefined;
  internal = undefined;
  cwd = o.cwd;
  describe_only = undefined;
  request_id = undefined;
  resubmit_request = false;
  statement_type = some file_post_exec;
}

-- createStatementPostExec, up to the request.
unfoldable pub create_statement_post_exec :
    Runtime → Argument StatementOptions → Outcome StatementContext
unfolding with_argument or_throw post_exec_checks post_exec_context
create_statement_post_exec rt a =
    with_argument err_conn_fetch_result_missing_options err_conn_fetch_result_invalid_options a
      λ o. or_throw (post_exec_checks rt o) (returns (post_exec_context o))

-- The parameters that sendRequestPreExec sends: the QUERY_TAG among them.
unfoldable pub sent_query_tag : Created → Option String
sent_query_tag c = elim c.context.parameters [ object p ↦ c.query_tags p | _ ↦ none ]
