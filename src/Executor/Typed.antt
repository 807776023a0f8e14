-- ===== src/Executor/Typed.antt =====
-- MysqlExecutor::QueryAll of executor/mysql_executor.h for results in mode BindType, whose rows are
-- tuples of typed values, and the overload of ExecuteStatement in mysql_executor.cc that it calls.
-- A value of a row is the bytes that the program reads for it.
pub mod Answered
pub mod Queried
pub mod Typing
use cpp_database.Prelude.{
  ℕ, ◌≡◌, Bool, true, false, not, Option, none, some, is_none, List, [], ◌∷◌, map, length, ◌==◌,
}
use cpp_database.Prelude.Text.{is_empty, Bytes}
use cpp_database.Driver.{
  MysqlApi, faults, null_handle, out_of_bounds, Io, pure, when◌then◌else◌, ◌>>=◌, ◌>>◌,
}
use cpp_database.Binder.{CType, MysqlField, InputBind, check_fields_output_args}
use cpp_database.Executor.{MysqlExecutor}
use cpp_database.Executor.Statement.{
  StatementApi, MysqlStatement, construct, init, on_statement, error_number, error_message,
  run_statement, when_alive, leave, fail,
}
use cpp_database.Executor.Rows.{RowsApi, Column, limits, open_column, fetch_results}
use cpp_database.Framework.{effect}
use cpp_database.Results.{MysqlResults, clear, set_error_message, set_error_number, set_fields_name}

-- TRPC_MYSQL_STMT_PARAMS_ERROR.
abbrev pub stmt_params_error : ℕ
stmt_params_error = 3503

abbrev pub names : Option (List MysqlField) → Option (List Bytes)
names none = none
names (some fields) = some (map (λ (f : MysqlField). f.name) fields)

module _ ⦃api : MysqlApi⦄ ⦃rows : RowsApi api.World⦄ where
  -- A call on the pointer of the statement.
  unfoldable pub with_pointer : {A : Type 0} → MysqlStatement → (ℕ → Io A) → Io A
  with_pointer s call = elim s.mysql_stmt [ none ↦ (λ m. faults null_handle) | some p ↦ call p ]

  unfoldable pub get_results_meta : MysqlStatement → Io (Option (List MysqlField))
  unfolding with_pointer
  get_results_meta s = with_pointer s (λ p. effect (rows.stmt_result_metadata p))

  -- mysql_fetch_fields and mysql_num_fields.
  unfoldable pub fetch_fields : Option (List MysqlField) → Io (List MysqlField)
  fetch_fields none = λ m. faults null_handle
  fetch_fields (some fields) = pure fields

  -- QueryHandle's constructor and BindOutputs. The vectors of the handle have field_count elements:
  -- with fewer than there are arguments, `at` throws, and with more than there are fields,
  -- fields_meta is read beyond its end.
  unfoldable pub bind_outputs : MysqlStatement → ℕ → List CType → Io (List Column)
  unfolding get_results_meta fetch_fields
  bind_outputs s size args = do
    meta ← get_results_meta s
    fields ← fetch_fields meta
    when s.field_count == length args
        then pure (map (open_column size) args)
        else (λ m. faults out_of_bounds)

module _ ⦃api : MysqlApi⦄ ⦃stmts : StatementApi api.World⦄ ⦃rows : RowsApi api.World⦄ where
  -- ExecuteStatement with output, after CheckAlive.
  unfoldable pub run_bound : MysqlStatement → List Column → Io (Option (ℕ × Bytes))
  unfolding on_statement error_number error_message run_statement
  run_bound s cs = do
    bound ← on_statement s (λ p. rows.stmt_bind_result p (limits cs))
    when bound
        then run_statement s
        else (do number ← error_number s; message ← error_message s; pure (some (number, message)))

  unfoldable pub execute_query :
      MysqlExecutor → MysqlStatement → List Column → Io (Option (ℕ × Bytes) × MysqlExecutor)
  unfolding when_alive run_bound
  execute_query e s cs = when_alive e (run_bound s cs)

  -- FetchResults and what follows it.
  unfoldable pub receive :
      ℕ
      → MysqlStatement
      → MysqlExecutor
      → MysqlResults (List Bytes)
      → List Column
      → Io (Bool × MysqlExecutor × MysqlResults (List Bytes))
  unfolding with_pointer fetch_results leave fail get_results_meta set_fields_name
  receive fuel s e r cs = do
    (done, r') ← with_pointer s (λ p. fetch_results fuel p cs r)
    when not done
        then fail s e r' false
        else (do meta ← get_results_meta s; leave s e (set_fields_name r' (names meta)) true)

  -- What follows from the status of ExecuteStatement.
  unfoldable pub conclude_query :
      ℕ
      → MysqlStatement
      → MysqlExecutor
      → MysqlResults (List Bytes)
      → List Column
      → Option (ℕ × Bytes)
      → Io (Bool × MysqlExecutor × MysqlResults (List Bytes))
  unfolding receive leave set_error_message set_error_number
  conclude_query fuel s e r cs none = receive fuel s e r cs
  conclude_query fuel s e r cs (some (number, message)) =
      when stmts.status_ok number message
      then receive fuel s e r cs
      else leave s e (set_error_number (set_error_message r message) number) false

  -- From BindParam on.
  unfoldable pub query_bound :
      ℕ
      → MysqlExecutor
      → MysqlStatement
      → List InputBind
      → List CType
      → MysqlResults (List Bytes)
      → Io (Bool × MysqlExecutor × MysqlResults (List Bytes))
  unfolding on_statement fail bind_outputs execute_query conclude_query
  query_bound fuel e s binds args r = do
    bound ← on_statement s (λ p. stmts.stmt_bind_param p binds)
    when not bound then fail s e r false else (do
      cs ← bind_outputs s r.option args
      (status, e') ← execute_query e s cs
      conclude_query fuel s e' r cs status)

  -- QueryAllInternal for the types `args`, with the fuel of the loop of FetchResults and the text
  -- about the two counts.
  unfoldable pub query_all_internal :
      (ℕ → ℕ → Bytes)
      → ℕ
      → MysqlExecutor
      → Bytes
      → List InputBind
      → List CType
      → MysqlResults (List Bytes)
      → Io (Bool × MysqlExecutor × MysqlResults (List Bytes))
  unfolding init fail get_results_meta fetch_fields query_bound clear set_error_message
      set_error_number check_fields_output_args leave
  query_all_internal count_text fuel e query binds args r = do
    let cleared = (clear r).0
    (done, s) ← init (construct e.mysql) query
    when not done then fail s e cleared false else (do
      meta ← get_results_meta s
      fields ← fetch_fields meta
      let failed = check_fields_output_args count_text fields args
      when is_empty failed
          then query_bound fuel e s binds args cleared
          else leave s e (set_error_number (set_error_message cleared failed) stmt_params_error)
              false)

  unfoldable pub query_all :
      (ℕ → ℕ → Bytes)
      → ℕ
      → MysqlExecutor
      → Bytes
      → List InputBind
      → List CType
      → MysqlResults (List Bytes)
      → Io (Bool × MysqlExecutor × MysqlResults (List Bytes))
  unfolding query_all_internal
  query_all count_text fuel e query binds args r = do
    (done, e', r') ← query_all_internal count_text fuel e query binds args r
    when not done then pure (false, e', r') else pure (true, e', record r' { has_value = true })
