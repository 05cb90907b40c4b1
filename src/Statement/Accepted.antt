-- ===== src/Statement/Accepted.antt =====
-- Which options createContextPreExec and createStatementPostExec of lib/connection/statement.js
-- accept.
use snowflake_connector_node.Prelude.{
  ℕ, String, Bool, true, false, ◌||◌, not, ◌≡◌, ◌⊎◌, ◌↔◌, inl, inr, Option, none, some, List, All,
  refl, subst, arith, Option-cases, str_eq, if◌then◌else◌,
}
use snowflake_connector_node.Prelude.Value.{
  Value, undefined, null_value, exists, is_function, is_object, is_array, is_string, is_boolean,
}
use snowflake_connector_node.Statement.Types.{Runtime, is_valid_row_mode}
use snowflake_connector_node.Statement.Checks.{Check, Holds, thrown, thrown-none}
use snowflake_connector_node.Statement.Options.{
  StatementOptions, Argument, given, absent, not_an_object, has_native_types,
  has_stringifiable_binds, pre_exec_checks,
}
use snowflake_connector_node.Statement.Context.{
  returns, Created, pre_exec_context, set_query_tag, with_argument, or_throw,
  create_context_pre_exec, sent_query_tag,
}

-- A value that is missing, or passes the test.
unfoldable pub Optional : (Value → Bool) → Value → Type 0
Optional test v = (v ≡ undefined) ⊎ ((v ≡ null_value) ⊎ (test v ≡ true))

-- The options that a statement may be executed with.
pub record IsAccepted (rt : Runtime) (o : StatementOptions) : Type 0 where
  pub sql_text : (exists o.request_id ≡ true) ⊎ (is_string o.sql_text ≡ true)
  pub complete : Optional is_function o.complete
  pub stream_result : Optional is_boolean o.stream_result
  pub fetch_as_string : Optional is_array o.fetch_as_string
  pub native_types : Optional (has_native_types rt) o.fetch_as_string
  pub request_id : Optional is_string o.request_id
  pub parameters : Optional is_object o.parameters
  pub binds : Optional is_array o.binds
  pub stringifiable : Optional (has_stringifiable_binds rt) o.binds
  pub internal : Optional is_boolean o.internal
  pub row_mode : Optional is_valid_row_mode o.row_mode
  pub async_exec : Optional is_boolean o.async_exec
  pub describe_only : Optional is_boolean o.describe_only

optional_lem :
    (test : Value → Bool) (v : Value) → ((not (exists v) || test v) ≡ true) ↔ Optional test v
unfolding exists Optional
optional_lem test undefined = (λ h. inl refl, λ h. refl)
optional_lem test null_value = (λ h. inr (inl refl), λ h. refl)
optional_lem test v = ground arith

text_lem :
    (id text : Value)
    → (((exists id || exists text) ≡ true) × ((exists id || is_string text) ≡ true))
      ↔ ((exists id ≡ true) ⊎ (is_string text ≡ true))
unfolding exists is_string
text_lem id text = ground arith

given_injective : {o p : StatementOptions} → given o ≡ given p → p ≡ o
given_injective e = cc

or_throw-returns {ℓ} :
    {A : Type ℓ} (cs : List Check) (x : A)
    → ((c : A) × (or_throw cs (returns x) ≡ returns c)) ↔ All Holds cs
unfolding or_throw
or_throw-returns cs x = elim (Option-cases (thrown cs)) [
  | inl e ↦ (λ h. (thrown-none cs).0 e, λ h. (x, rw (e, or_throw) refl))
  | inr (f, e) ↦ (λ (c, h). ground (arith, e, h), λ h. ground (arith, e, (thrown-none cs).1 h))
]

checks-IsAccepted :
    (rt : Runtime) (o : StatementOptions) → All Holds (pre_exec_checks rt o) → IsAccepted rt o
unfolding pre_exec_checks
checks-IsAccepted rt o (a, (b, (c, (d, (e, (f, (g, (h, (i, (j, (k, (l, (m, (n, u)))))))))))))) =
    record {
      sql_text = (text_lem o.request_id o.sql_text).0 (a, b);
      complete = (optional_lem is_function o.complete).0 c;
      stream_result = (optional_lem is_boolean o.stream_result).0 d;
      fetch_as_string = (optional_lem is_array o.fetch_as_string).0 e;
      native_types = (optional_lem (has_native_types rt) o.fetch_as_string).0 f;
      request_id = (optional_lem is_string o.request_id).0 g;
      parameters = (optional_lem is_object o.parameters).0 h;
      binds = (optional_lem is_array o.binds).0 i;
      stringifiable = (optional_lem (has_stringifiable_binds rt) o.binds).0 j;
      internal = (optional_lem is_boolean o.internal).0 k;
      row_mode = (optional_lem is_valid_row_mode o.row_mode).0 l;
      async_exec = (optional_lem is_boolean o.async_exec).0 m;
      describe_only = (optional_lem is_boolean o.describe_only).0 n;
    }

accepted-Checks :
    (rt : Runtime) (o : StatementOptions) → IsAccepted rt o → All Holds (pre_exec_checks rt o)
unfolding pre_exec_checks
accepted-Checks rt o w =
    let (a, b) = (text_lem o.request_id o.sql_text).1 w.sql_text in
    (
      a,
      (
        b,
        (
          (optional_lem is_function o.complete).1 w.complete,
          (
            (optional_lem is_boolean o.stream_result).1 w.stream_result,
            (
              (optional_lem is_array o.fetch_as_string).1 w.fetch_as_string,
              (
                (optional_lem (has_native_types rt) o.fetch_as_string).1 w.native_types,
                (
                  (optional_lem is_string o.request_id).1 w.request_id,
                  (
                    (optional_lem is_object o.parameters).1 w.parameters,
                    (
                      (optional_lem is_array o.binds).1 w.binds,
                      (
                        (optional_lem (has_stringifiable_binds rt) o.binds).1 w.stringifiable,
                        (
                          (optional_lem is_boolean o.internal).1 w.internal,
                          (
                            (optional_lem is_valid_row_mode o.row_mode).1 w.row_mode,
                            (
                              (optional_lem is_boolean o.async_exec).1 w.async_exec,
                              ((optional_lem is_boolean o.describe_only).1 w.describe_only, tt),
                            ),
                          ),
                        ),
                      ),
                    ),
                  ),
                ),
              ),
            ),
          ),
        ),
      ),
    )

-- createContextPreExec returns a context for exactly those options whose fields have the types that
-- IsAccepted asks for; for others, for no options and for options that are no object it throws.
pub create_context_pre_exec-IsAccepted :
    (rt : Runtime) (query_tag uuid : String) (fresh : ℕ) (tags : ℕ → Option String)
    (a : Argument StatementOptions)
    → ((c : Created) × (create_context_pre_exec rt query_tag uuid fresh tags a ≡ returns c))
      ↔ ((o : StatementOptions) × (a ≡ given o) × IsAccepted rt o)
unfolding create_context_pre_exec with_argument
create_context_pre_exec-IsAccepted rt query_tag uuid fresh tags (given o) =
    let x =
      set_query_tag fresh query_tag
        (record { context = pre_exec_context uuid o; options = o; query_tags = tags }) in
    (
      λ h. (o, refl, checks-IsAccepted rt o ((or_throw-returns (pre_exec_checks rt o) x).0 h)),
      λ (p, e, w).
          (or_throw-returns (pre_exec_checks rt o) x).1
            (accepted-Checks rt o (subst (IsAccepted rt) (given_injective e) w)),
    )
create_context_pre_exec-IsAccepted rt query_tag uuid fresh tags absent =
    (λ (c, h). ground (arith, h), λ (o, e, w). ground (arith, e))
create_context_pre_exec-IsAccepted rt query_tag uuid fresh tags not_an_object =
    (λ (c, h). ground (arith, h), λ (o, e, w). ground (arith, e))

or_throw-eq {ℓ} :
    {A : Type ℓ} (cs : List Check) (x c : A) → or_throw cs (returns x) ≡ returns c → x ≡ c
unfolding or_throw
or_throw-eq cs x c h = ground (arith, h)

sent_of :
    (query_tag uuid : String) (fresh : ℕ) (tags : ℕ → Option String) (o : StatementOptions)
    → Optional is_object o.parameters
    → str_eq query_tag "" ≡ false
    → sent_query_tag (
        set_query_tag fresh query_tag
          (record { context = pre_exec_context uuid o; options = o; query_tags = tags }))
      ≡ (if exists o.parameters then some query_tag else none)
unfolding sent_query_tag set_query_tag pre_exec_context Optional is_object exists
sent_of query_tag uuid fresh tags o w t = ground arith

-- Where options are accepted and the connection has a query tag, the request that executes the
-- statement has the tag among its parameters if the options have parameters, and else no tag.
pub query_tag-sent :
    (rt : Runtime) (query_tag uuid : String) (fresh : ℕ) (tags : ℕ → Option String)
    (o : StatementOptions) {c : Created}
    → create_context_pre_exec rt query_tag uuid fresh tags (given o) ≡ returns c
    → str_eq query_tag "" ≡ false
    → sent_query_tag c ≡ (if exists o.parameters then some query_tag else none)
unfolding create_context_pre_exec with_argument
query_tag-sent rt query_tag uuid fresh tags o {c} h t =
    let x =
      set_query_tag fresh query_tag
        (record { context = pre_exec_context uuid o; options = o; query_tags = tags }) in
    let w = checks-IsAccepted rt o ((or_throw-returns (pre_exec_checks rt o) x).0 (c, h)) in
    subst (λ y. sent_query_tag y ≡ (if exists o.parameters then some query_tag else none))
      (or_throw-eq (pre_exec_checks rt o) x c h)
      (sent_of query_tag uuid fresh tags o w.parameters t)
