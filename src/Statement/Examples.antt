-- ===== src/Statement/Examples.antt =====
-- Statements at concrete options, binds and responses.
use snowflake_connector_node.Prelude.{
  ℕ, suc, String, true, false, Option, none, some, List, [], ◌∷◌, ◌++◌, All, length, ltb, ◌&&◌, ◌≢◌,
  NatMap, ◌≡◌, ◌↔◌, ◌⊎◌, refl, arith, if◌then◌else◌,
}
use snowflake_connector_node.Prelude.Int.{pos}
use snowflake_connector_node.Prelude.Value.{
  Values, nil, cons, undefined, null_value, boolean, number, whole, function, array, string,
  is_array, length_of,
}
use snowflake_connector_node.Statement.Types.{Runtime}
use snowflake_connector_node.Statement.Options.{StatementOptions, given}
use snowflake_connector_node.Statement.Context.{returns, Created, create_context_pre_exec}
use snowflake_connector_node.Statement.Accepted.{IsAccepted, create_context_pre_exec-IsAccepted}
use snowflake_connector_node.Statement.Binds.{
  Bind, build_binds_map, statement_kind, stage_binding_statement,
}
use snowflake_connector_node.Statement.Rows.{bind_at, build_binds_map-transposed}
use snowflake_connector_node.Statement.Completion.{
  query_in_progress, other_query_code, request_error, with_result, after_rows, StatementConfig,
  succeeded, failed, Happening, responds, refreshes, history, happen, on_response, new_statement,
}
use snowflake_connector_node.Statement.Once.{completed_once}
use snowflake_connector_node.Statement.Lost.{IsLost, IsErrorless, async_errors-IsLost}
use snowflake_connector_node.Statement.Multi.{MultiContext, has_next_result}
use snowflake_connector_node.Statement.Fetch.{
  large_result_set_error, Round, stalled, waits, ended, is_expired, fetch_rows_from_result,
  IsRefetched, fetch_rows-rounds,
}

-- A runtime on which every value has the text "v".
abbrev runtime : Runtime
runtime = record {
  to_upper_case = λ s. s;
  property_key = λ v. "v";
  in_object_prototype = λ s. false;
  stringify = λ v. some "v";
  to_json = λ d. string "d";
  property_of = λ v i. undefined;
}

abbrev no_options : StatementOptions
no_options = record {
  sql_text = undefined;
  query_id = undefined;
  request_id = undefined;
  complete = undefined;
  stream_result = undefined;
  fetch_as_string = undefined;
  parameters = undefined;
  binds = undefined;
  internal = undefined;
  row_mode = undefined;
  async_exec = undefined;
  describe_only = undefined;
  cwd = undefined;
  multi_result_ids = undefined;
  multi_sql_texts = undefined;
  multi_cur_id = undefined;
}

abbrev select_options : StatementOptions
select_options = record no_options {
  sql_text = string "select 1";
  complete = function 1;
  stream_result = boolean true;
  fetch_as_string = array (cons (string "NUMBER") nil);
}

abbrev no_tags : ℕ → Option String
no_tags i = none

create_context_pre_exec-IsAccepted_example :
    ((c : Created) × (create_context_pre_exec runtime "tag" "uuid" 5 no_tags (given select_options)
        ≡ returns c))
    ↔ ((o : StatementOptions) × (given select_options ≡ given o) × IsAccepted runtime o)
create_context_pre_exec-IsAccepted_example =
    create_context_pre_exec-IsAccepted runtime "tag" "uuid" 5 no_tags (given select_options)

abbrev rows : Values
rows = cons (array (cons (number (whole (pos 1))) (cons null_value nil))) nil

abbrev first_row : Values
first_row = cons (number (whole (pos 2))) (cons (string "x") nil)

build_binds_map-transposed_example :
    (m : NatMap Bind) × (build_binds_map runtime (cons (array first_row) rows) ≡ some m)
    × (m 0 ≡ none)
    × ((j : ℕ)
        → m (suc j)
          ≡ (if ltb j (length_of first_row) then some (bind_at runtime first_row rows j) else none))
unfolding is_array
build_binds_map-transposed_example = build_binds_map-transposed runtime first_row rows (refl, tt)

-- 4 elements are more than the threshold of 3.
many_binds :
    statement_kind false 3 0 (array (cons (array first_row) rows)) ≡ stage_binding_statement
unfolding statement_kind
many_binds = refl

abbrev cfg : StatementConfig
cfg = record { async_exec = false; stream_result = false }

abbrev detached_cfg : StatementConfig
detached_cfg = record { async_exec = true; stream_result = false }

abbrev polled : List Happening
polled =
    responds 0 (succeeded (record { code = other_query_code; query_id = 9; result_ids = [] }))
    ∷ refreshes
    ∷ responds 0 (failed (request_error none))
    ∷ responds 0 (succeeded (record { code = query_in_progress; query_id = 9; result_ids = [] }))
    ∷ []

polled-completions : (history cfg none polled).completions ≡ after_rows ∷ []
unfolding history happen on_response new_statement
polled-completions = refl

completed_once_example :
    (length (history cfg none polled).completions
      ≡ (if (history cfg none polled).is_fetching_result then 0 else 1))
    × (((history cfg none polled).is_fetching_result ≡ false)
        ⊎ ((history cfg none polled).in_flight ≢ []))
completed_once_example = completed_once cfg none polled (refl, (tt, (tt, (refl, tt))))

abbrev failed_first : List Happening
failed_first = refreshes ∷ responds 0 (failed (request_error (some 4))) ∷ []

-- The refreshed result arrives, which is not completed again.
abbrev arrived : List Happening
arrived =
    responds 0 (succeeded (record { code = other_query_code; query_id = 4; result_ids = [] })) ∷ []

async_errors-IsLost_example :
    IsLost (history detached_cfg none failed_first)
    × All IsErrorless (history detached_cfg none (arrived ++ failed_first)).completions
async_errors-IsLost_example =
    async_errors-IsLost detached_cfg none failed_first arrived refl refl (tt, (tt, tt))

failed_first-completions :
    (history detached_cfg none failed_first).completions ≡ with_result none ∷ []
unfolding history
failed_first-completions = refl

abbrev last_of_two : MultiContext
last_of_two = record {
  multi_result_ids = cons (string "a") (cons (string "b") nil);
  multi_sql_texts = cons (string "select 1") (cons (string " select 2") nil);
  multi_cur_id = 1;
  options = no_options;
}

no_next : has_next_result last_of_two ≡ false
unfolding has_next_result
no_next = refl

abbrev expired : Round
expired = record { error = some (large_result_set_error (some 403)); refetched = true }

abbrev lost : Round
lost = record { error = some (large_result_set_error (some 403)); refetched = false }

expired-IsRefetched : All IsRefetched (expired ∷ [])
unfolding is_expired
expired-IsRefetched = ((refl, refl), tt)

fetch_rows-rounds_example : fetch_rows_from_result 3 (expired ∷ lost ∷ []) ≡ (
    if is_expired lost.error && ltb (length (expired ∷ [])) 3
    then (if lost.refetched then waits else stalled)
    else ended)
fetch_rows-rounds_example =
    fetch_rows-rounds 3 (expired ∷ []) lost expired-IsRefetched (omega arith)
