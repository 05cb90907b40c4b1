-- ===== src/Statement/Multi.antt =====
-- Several results of one request: hasNextResult and createNextReuslt of
-- lib/connection/statement.js, and the rows that fetchRows fetches again after interrupts.
use snowflake_connector_node.Prelude.{ℕ, zero, suc, ◌≤◌, Bool, false, ltb, ◌≡◌, refl, All, arith}
use snowflake_connector_node.Prelude.Int.{pos}
use snowflake_connector_node.Prelude.Value.{
  Values, undefined, number, whole, array, length_of, element, exists,
}
use snowflake_connector_node.Statement.Types.{Runtime}
use snowflake_connector_node.Statement.Checks.{
  missing_parameter, err_conn_fetch_result_missing_query_id, Holds, thrown, thrown-none,
}
use snowflake_connector_node.Statement.Options.{StatementOptions, given, post_exec_checks}
use snowflake_connector_node.Statement.Context.{
  Outcome, returns, throws, StatementContext, create_statement_post_exec, post_exec_context,
  with_argument, or_throw,
}

-- The fields of a context that the results are stepped through with; the rest are the options of
-- the statement that is made for a result.
pub record MultiContext : Type 0 where
  pub multi_result_ids : Values
  pub multi_sql_texts : Values
  pub multi_cur_id : ℕ
  pub options : StatementOptions

-- hasNextResult(statement, context)()
unfoldable pub has_next_result : MultiContext → Bool
has_next_result c = ltb (suc c.multi_cur_id) (length_of c.multi_result_ids)

unfoldable pub advance : MultiContext → MultiContext
advance c =
    let next = suc c.multi_cur_id in
    record c {
      multi_cur_id = next;
      options = record c.options {
        query_id = element c.multi_result_ids next;
        sql_text = element c.multi_sql_texts next;
        multi_result_ids = array c.multi_result_ids;
        multi_sql_texts = array c.multi_sql_texts;
        multi_cur_id = number (whole (pos next));
      };
    }

-- createNextReuslt: it tests the function that hasNextResult makes, not what the function returns,
-- so it steps on in any case.
unfoldable pub next_result : Runtime → MultiContext → MultiContext × Outcome StatementContext
unfolding advance create_statement_post_exec
next_result rt c = (advance c, create_statement_post_exec rt (given (advance c).options))

element-outside : (vs : Values) (i : ℕ) → length_of vs ≤ i → element vs i ≡ undefined
element-outside Values.nil i h = refl
element-outside (Values.cons v vs) zero h = ground arith
element-outside (Values.cons v vs) (suc i) h = element-outside vs i (omega (arith, h))

missing_id :
    (rt : Runtime) (o : StatementOptions)
    → o.query_id ≡ undefined
    → create_statement_post_exec rt (given o)
      ≡ throws (missing_parameter err_conn_fetch_result_missing_query_id)
unfolding create_statement_post_exec with_argument or_throw post_exec_checks thrown exists
missing_id rt o h = ground (arith, h)

-- Behind the last result NextResult throws a missing query id, and the place has moved all the same.
pub next_result-throws :
    (rt : Runtime) (c : MultiContext)
    → has_next_result c ≡ false
    → ((next_result rt c).1 ≡ throws (missing_parameter err_conn_fetch_result_missing_query_id))
      × ((next_result rt c).0.multi_cur_id ≡ suc c.multi_cur_id)
unfolding next_result has_next_result
next_result-throws rt c h = (
  missing_id rt (advance c).options
      (element-outside c.multi_result_ids (suc c.multi_cur_id) (ground arith)),
  refl,
)

-- While there is a next result, whose id is a text, and the checks of the options hold, NextResult
-- makes a statement for this id and its SQL text.
pub next_result-next :
    (rt : Runtime) (c : MultiContext)
    → All Holds (post_exec_checks rt (advance c).options)
    → ((next_result rt c).1 ≡ returns (post_exec_context (advance c).options))
      × ((post_exec_context (advance c).options).query_id
          ≡ element c.multi_result_ids (suc c.multi_cur_id))
      × ((post_exec_context (advance c).options).sql_text
          ≡ element c.multi_sql_texts (suc c.multi_cur_id))
unfolding next_result create_statement_post_exec with_argument or_throw post_exec_context advance
next_result-next rt c h =
    let e = (thrown-none (post_exec_checks rt (advance c).options)).1 h in
    (rw (e, or_throw) refl, refl, refl)
