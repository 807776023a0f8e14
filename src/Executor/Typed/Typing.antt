-- ===== src/Executor/Typed/Typing.antt =====
-- The types of the rows that QueryAll answers, whatever the server and the client library answer.
use cpp_database.Prelude.{
  ℕ, refl, Bool, true, false, not, Option, none, some, List, map, length, ◌==◌,
}
use cpp_database.Prelude.Text.{Bytes, is_empty}
use cpp_database.Driver.{MysqlApi, Machine, Ensures, Io, pure, faults, out_of_bounds, null_handle}
use cpp_database.Driver.Rules.{Ensures-bind, Ensures-seq, Ensures-when}
use cpp_database.Binder.{CType, InputBind, check_fields_output_args}
use cpp_database.Executor.{MysqlExecutor}
use cpp_database.Executor.Statement.{
  StatementApi, MysqlStatement, construct, init, on_statement, error_number, error_message, leave,
  fail, close_statement, destroy,
}
use cpp_database.Executor.Rows.{RowsApi, Column, open_column, fetch_results}
use cpp_database.Executor.Rows.Sized.{AreColumns}
use cpp_database.Executor.Rows.Typing.{IsTyped, fetch_results-IsTyped, open_columns-AreColumns}
use cpp_database.Executor.Typed.{
  names, with_pointer, get_results_meta, fetch_fields, bind_outputs, execute_query, receive,
  conclude_query, query_bound, query_all_internal, query_all, stmt_params_error,
}
use cpp_database.Results.{MysqlResults, clear, set_error_message, set_error_number, set_fields_name}

module _ ⦃api : MysqlApi⦄ ⦃stmts : StatementApi api.World⦄ ⦃rows : RowsApi api.World⦄
    (types : List CType) where
  -- What a query leaves.
  abbrev LeavesTyped :
      (Bool × MysqlExecutor × MysqlResults (List Bytes)) × Machine api.World → Type 0
  LeavesTyped ((_, _, r), _) = IsTyped types r

  leave-IsTyped :
      (s : MysqlStatement) (e : MysqlExecutor) (r : MysqlResults (List Bytes)) (answer : Bool)
      (m : Machine api.World)
      → IsTyped types r
      → Ensures (leave s e r answer m) LeavesTyped
  unfolding leave
  leave-IsTyped s e r answer m h =
      Ensures-bind _ (close_statement s) _ m
        λ closed m' _. Ensures-bind _ (destroy closed.1) (λ _. pure (answer, e, r)) m' λ _ m'' _. h

  fail-IsTyped :
      (s : MysqlStatement) (e : MysqlExecutor) (r : MysqlResults (List Bytes)) (answer : Bool)
      (m : Machine api.World)
      → IsTyped types r
      → Ensures (fail s e r answer m) LeavesTyped
  unfolding fail set_error_message set_error_number
  fail-IsTyped s e r answer m h = Ensures-bind _ (error_message s) _ m λ message m' _.
      Ensures-bind _ (error_number s) _ m' λ number m'' _.
        leave-IsTyped s e (set_error_number (set_error_message r message) number) answer m''
          (record { values = h.values; flags = h.flags; same_count = h.same_count })

  -- The names of the fields are no part of the rows.
  named :
      (r : MysqlResults (List Bytes)) (ns : Option (List Bytes))
      → IsTyped types r
      → IsTyped types (set_fields_name r ns)
  unfolding set_fields_name
  named r none h = h
  named r (some ns) h = record { values = h.values; flags = h.flags; same_count = h.same_count }

  pointer-IsTyped :
      (fuel : ℕ) (p : Option ℕ) (cs : List Column) (r : MysqlResults (List Bytes))
      (m : Machine api.World)
      → AreColumns types cs
      → IsTyped types r
      → Ensures
          ((elim p as (λ _. Io (Bool × MysqlResults (List Bytes))) [
            | none ↦ (λ m. faults null_handle)
            | some p ↦ fetch_results fuel p cs r
          ])
            m)
          λ ((_, r'), _). IsTyped types r'
  pointer-IsTyped fuel none cs r m h before = tt
  pointer-IsTyped fuel (some p) cs r m h before = fetch_results-IsTyped fuel p types cs r m h before

  with_pointer-IsTyped :
      (fuel : ℕ) (s : MysqlStatement) (cs : List Column) (r : MysqlResults (List Bytes))
      (m : Machine api.World)
      → AreColumns types cs
      → IsTyped types r
      → Ensures (with_pointer s (λ p. fetch_results fuel p cs r) m) λ ((_, r'), _). IsTyped types r'
  unfolding with_pointer
  with_pointer-IsTyped fuel s cs r m h before = pointer-IsTyped fuel s.mysql_stmt cs r m h before

  receive-IsTyped :
      (fuel : ℕ) (s : MysqlStatement) (e : MysqlExecutor) (r : MysqlResults (List Bytes))
      (cs : List Column) (m : Machine api.World)
      → AreColumns types cs
      → IsTyped types r
      → Ensures (receive fuel s e r cs m) LeavesTyped
  unfolding receive
  receive-IsTyped fuel s e r cs m h before =
      Ensures-seq _ _ (with_pointer s (λ p. fetch_results fuel p cs r)) _ m
        (with_pointer-IsTyped fuel s cs r m h before)
        λ (done, r') m' after.
          Ensures-when _ (not done) (fail s e r' false) _ m'
            (λ _. fail-IsTyped s e r' false m' after)
            (λ _. Ensures-bind _ (get_results_meta s) _ m' λ meta m'' _.
              leave-IsTyped s e (set_fields_name r' (names meta)) true m''
                (named r' (names meta) after))

  conclude_query-IsTyped :
      (fuel : ℕ) (s : MysqlStatement) (e : MysqlExecutor) (r : MysqlResults (List Bytes))
      (cs : List Column) (status : Option (ℕ × Bytes)) (m : Machine api.World)
      → AreColumns types cs
      → IsTyped types r
      → Ensures (conclude_query fuel s e r cs status m) LeavesTyped
  unfolding conclude_query set_error_message set_error_number
  conclude_query-IsTyped fuel s e r cs none m h before = receive-IsTyped fuel s e r cs m h before
  conclude_query-IsTyped fuel s e r cs (some (number, message)) m h before =
      Ensures-when _ (stmts.status_ok number message) (receive fuel s e r cs) _ m
        (λ _. receive-IsTyped fuel s e r cs m h before)
        (λ _.
          leave-IsTyped s e (set_error_number (set_error_message r message) number) false m
            (record {
              values = before.values;
              flags = before.flags;
              same_count = before.same_count;
            }))

  bind_outputs-AreColumns :
      (s : MysqlStatement) (size : ℕ) (m : Machine api.World)
      → Ensures (bind_outputs s size types m) λ (cs, _). AreColumns types cs
  unfolding bind_outputs
  bind_outputs-AreColumns s size m = Ensures-bind _ (get_results_meta s) _ m λ meta m' _.
      Ensures-bind _ (fetch_fields meta) _ m' λ fields m'' _.
        Ensures-when _ (s.field_count == length types) (pure (map (open_column size) types))
          (λ _. faults out_of_bounds) m'' (λ _. open_columns-AreColumns size types) (λ _. tt)

  query_bound-IsTyped :
      (fuel : ℕ) (e : MysqlExecutor) (s : MysqlStatement) (binds : List InputBind)
      (r : MysqlResults (List Bytes)) (m : Machine api.World)
      → IsTyped types r
      → Ensures (query_bound fuel e s binds types r m) LeavesTyped
  unfolding query_bound
  query_bound-IsTyped fuel e s binds r m before =
      Ensures-bind _ (on_statement s (λ p. stmts.stmt_bind_param p binds)) _ m λ bound m' _.
        Ensures-when _ (not bound) (fail s e r false) _ m' (λ _. fail-IsTyped s e r false m' before)
          (λ _.
            Ensures-seq _ _ (bind_outputs s r.option types) _ m'
              (bind_outputs-AreColumns s r.option m')
              λ cs m'' h.
                Ensures-bind _ (execute_query e s cs) _ m''
                  λ (status, e') m₃ _. conclude_query-IsTyped fuel s e' r cs status m₃ h before)

  cleared-IsTyped : (r : MysqlResults (List Bytes)) → IsTyped types (clear r).0
  unfolding clear
  cleared-IsTyped r = record { values = tt; flags = tt; same_count = refl }

  untouched :
      (r : MysqlResults (List Bytes)) (failed : Bytes)
      → IsTyped types (set_error_number (set_error_message (clear r).0 failed) stmt_params_error)
  unfolding clear set_error_message set_error_number
  untouched r failed = record { values = tt; flags = tt; same_count = refl }

  query_all_internal-IsTyped :
      (count_text : ℕ → ℕ → Bytes) (fuel : ℕ) (e : MysqlExecutor) (query : Bytes)
      (binds : List InputBind) (r : MysqlResults (List Bytes)) (m : Machine api.World)
      → Ensures (query_all_internal count_text fuel e query binds types r m) LeavesTyped
  unfolding query_all_internal set_error_message set_error_number
  query_all_internal-IsTyped count_text fuel e query binds r m =
      Ensures-bind _ (init (construct e.mysql) query) _ m λ (done, s) m' _.
        Ensures-when _ (not done) (fail s e (clear r).0 false) _ m'
          (λ _. fail-IsTyped s e (clear r).0 false m' (cleared-IsTyped r))
          (λ _. Ensures-bind _ (get_results_meta s) _ m' λ meta m'' _.
            Ensures-bind _ (fetch_fields meta) _ m'' λ fields m₃ _.
              let failed = check_fields_output_args count_text fields types in
              Ensures-when _ (is_empty failed) (query_bound fuel e s binds types (clear r).0) _ m₃
                (λ _. query_bound-IsTyped fuel e s binds (clear r).0 m₃ (cleared-IsTyped r))
                (λ _.
                  leave-IsTyped s e
                    (set_error_number (set_error_message (clear r).0 failed) stmt_params_error)
                    false m₃ (untouched r failed)))

  -- Whatever the server and the client library answer, where QueryAll for typed results returns, on
  -- any results object, every row that the results then hold has a value for each output argument,
  -- and a value of a type of fixed size has the size of that type; and there are as many rows of flags
  -- of NULL as there are rows, each with a flag for each output argument.
  pub query_all-IsTyped :
      (count_text : ℕ → ℕ → Bytes) (fuel : ℕ) (e : MysqlExecutor) (query : Bytes)
      (binds : List InputBind) (r : MysqlResults (List Bytes)) (m : Machine api.World)
      → Ensures
          (query_all count_text fuel e query binds types r m)
          λ ((_, _, r'), _). IsTyped types r'
  unfolding query_all
  query_all-IsTyped count_text fuel e query binds r m =
      Ensures-seq _ _ (query_all_internal count_text fuel e query binds types r) _ m
        (query_all_internal-IsTyped count_text fuel e query binds r m)
        λ (done, e', r') m' after.
          Ensures-when _ (not done) (pure (false, e', r')) _ m' (λ _. after)
            (λ _. record {
              values = after.values;
              flags = after.flags;
              same_count = after.same_count;
            })
