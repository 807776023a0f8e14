-- ===== src/Executor/Typed/Queried.antt =====
-- QueryAll for typed results gives every row of the result.
use cpp_database.Prelude.{
  ℕ, ◌<◌, ◌≡◌, refl, sym, ap, subst, ◌∙◌, Bool, true, none, some, List, [], map, length,
}
use cpp_database.Prelude.Text.{Bytes}
use cpp_database.Driver.{MysqlApi, Machine, Yields}
use cpp_database.Driver.Calls.{contains}
use cpp_database.Driver.Rules.{Yields-bind, Yields-weaken}
use cpp_database.Binder.{CType, MysqlField, InputBind, check_fields_output_args}
use cpp_database.Executor.{MysqlExecutor}
use cpp_database.Executor.Native.{flag_of}
use cpp_database.Executor.Connection.{IsLive}
use cpp_database.Executor.Statement.{StatementApi, MysqlStatement, construct, init, on_statement}
use cpp_database.Executor.Statement.Calls.{Answers, Frees, when_alive_lem}
use cpp_database.Executor.Rows.{RowsApi, open_column}
use cpp_database.Executor.Rows.Laws.{Row, RowsLaws, AllFitButLast, RowsRead}
use cpp_database.Executor.Rows.Opened.{shape_of}
use cpp_database.Executor.Typed.{
  get_results_meta, fetch_fields, bind_outputs, run_bound, execute_query, receive, conclude_query,
  query_bound, query_all_internal, query_all,
}
use cpp_database.Executor.Typed.Answered.{
  Accepts, on_statement-Yields, init-Yields, meta-Yields, fields-Yields, bind_outputs-Yields,
  run_bound-Yields, receive-Yields, Read,
}
use cpp_database.Results.{MysqlResults, clear}

-- What a query leaves in the results: the rows, the flags of NULL and the names of the fields.
abbrev pub Answer :
    List MysqlField
    → List CType
    → List Row
    → MysqlResults (List Bytes)
    → MysqlResults (List Bytes)
    → Type 0
Answer fields args rs r r' =
    (new : List (List Bytes)) × RowsRead args rs new
    × (r' ≡ record r {
      result_set = new;
      null_flags = map (map flag_of) rs;
      fields_name = map (λ (f : MysqlField). f.name) fields;
      error_message = [];
      has_value = true;
      affected_rows = 0;
      mysql_res = none;
    })

module _ ⦃api : MysqlApi⦄ ⦃stmts : StatementApi api.World⦄ ⦃rows : RowsApi api.World⦄
    (laws : RowsLaws rows) (conn p : ℕ) (query : Bytes) (binds : List InputBind)
    (fields : List MysqlField) (rs : List Row) (accepts : Accepts laws conn query binds fields p rs)
    (answers : Answers) (frees : Frees) where
  -- It succeeds, the results have the property, and no handle is freed.
  abbrev Succeeds :
      (MysqlResults (List Bytes) → Type 0)
      → Machine api.World
      → (Bool × MysqlExecutor × MysqlResults (List Bytes)) × Machine api.World
      → Type 0
  Succeeds P m ((done, e', r'), m') = (done ≡ true) × P r' × (m'.live ≡ m.live)

  query_bound-Yields :
      (fuel : ℕ) (e : MysqlExecutor) (s : MysqlStatement) (args : List CType)
      (r : MysqlResults (List Bytes)) (m : Machine api.World)
      → e.is_connected ≡ true
      → IsLive e.mysql m.live
      → s.mysql_stmt ≡ some p
      → s.field_count ≡ length args
      → AllFitButLast (shape_of r.option args) rs
      → length rs < fuel
      → Yields
          (query_bound fuel e s binds args r m)
          (Succeeds (Read laws conn p query binds fields rs accepts args r) m)
  unfolding query_bound execute_query conclude_query
  query_bound-Yields fuel e s args r m up live q counts fits enough =
      Yields-bind _ _ (on_statement s (λ p. stmts.stmt_bind_param p binds)) _ m
        (on_statement-Yields s p (λ p. stmts.stmt_bind_param p binds) m q
          (accepts.binds_input m.world))
        λ bound m₁ (ok, same). rw ok (
          Yields-bind _ _ (bind_outputs s r.option args) _ m₁
            (bind_outputs-Yields s p r.option fields args m₁ q accepts.describes counts)
            λ cs m₂ (opened, same₂).
              Yields-bind _ _ (execute_query e s cs) _ m₂
                (when_alive_lem (λ x. (x.0 ≡ none) × (x.1.live ≡ m.live)) e (run_bound s cs) m₂ up
                  (subst (IsLive e.mysql) (sym (same₂ ∙ same)) live) answers
                  λ m₃ same₃.
                    Yields-weaken _ _ (run_bound s cs m₃)
                      (run_bound-Yields laws conn p query binds fields rs accepts s cs m₃ q)
                      λ x (fine, same₄). (fine, same₄ ∙ same₃ ∙ same₂ ∙ same))
                λ (status, e') m₃ (_, (fine, same₃)).
                  rw (fine, opened)
                    (Yields-weaken _ _ (receive fuel s e' r (map (open_column r.option) args) m₃)
                      (receive-Yields laws conn p query binds fields rs accepts fuel s e' r args m₃
                        q frees fits enough)
                      λ x (done, read, same₄). (done, read, same₄ ∙ same₃)))

  internal-Yields :
      (count_text : ℕ → ℕ → Bytes) (fuel : ℕ) (e : MysqlExecutor) (args : List CType)
      (r : MysqlResults (List Bytes)) (m : Machine api.World)
      → e.is_connected ≡ true
      → e.mysql ≡ some conn
      → contains conn m.live ≡ true
      → check_fields_output_args count_text fields args ≡ []
      → length fields ≡ length args
      → AllFitButLast (shape_of r.option args) rs
      → length rs < fuel
      → Yields
          (query_all_internal count_text fuel e query binds args r m)
          (Succeeds (Read laws conn p query binds fields rs accepts args (clear r).0) m)
  unfolding query_all_internal clear
  internal-Yields count_text fuel e args r m up handle live fit_types wide fits enough =
      (Yields-bind _ _ (init (construct e.mysql) query) _ m
        (init-Yields e.mysql conn p (length fields) query m handle live accepts.inits
          accepts.prepares accepts.counts)
        λ (done, s) m₁ (ok, q, counts, same). rw ok (
          Yields-bind _ _ (get_results_meta s) _ m₁ (meta-Yields s p fields m₁ q accepts.describes)
            λ meta m₂ (described, same₂).
              Yields-bind _ _ (fetch_fields meta) _ m₂ (fields-Yields meta fields m₂ described)
                λ found m₃ (e₃, still).
                  let all_same : m₃.live ≡ m.live =
                    ap (λ (y : Machine api.World). y.live) still ∙ same₂ ∙ same in
                  rw (e₃, fit_types)
                    (Yields-weaken _ _ (query_bound fuel e s binds args (clear r).0 m₃)
                      (query_bound-Yields fuel e s args (clear r).0 m₃ up
                        (subst (λ h. IsLive h m₃.live) (sym handle)
                          (subst (λ l. contains conn l ≡ true) (sym all_same) live))
                        q (counts ∙ wide) fits enough)
                      λ x (done', read, same₃). (done', read, same₃ ∙ all_same))))

  -- On an object that is connected by an allocated handle, where the connection answers, every call
  -- on the statement succeeds, the fields fit the arguments in number and type, and every row but the
  -- last fits the buffers, QueryAll for typed results returns true, with enough fuel: the results
  -- then hold what is read of each row, in order, the flags of NULL and the names of the fields; the
  -- error number is the one from before; and no handle is freed.
  pub query_all-Answer :
      (count_text : ℕ → ℕ → Bytes) (fuel : ℕ) (e : MysqlExecutor) (args : List CType)
      (r : MysqlResults (List Bytes)) (m : Machine api.World)
      → e.is_connected ≡ true
      → e.mysql ≡ some conn
      → contains conn m.live ≡ true
      → check_fields_output_args count_text fields args ≡ []
      → length fields ≡ length args
      → AllFitButLast (shape_of r.option args) rs
      → length rs < fuel
      → Yields
          (query_all count_text fuel e query binds args r m)
          (Succeeds (Answer fields args rs r) m)
  unfolding query_all clear
  query_all-Answer count_text fuel e args r m up handle live fit_types wide fits enough =
      Yields-bind _ _ (query_all_internal count_text fuel e query binds args r) _ m
        (internal-Yields count_text fuel e args r m up handle live fit_types wide fits enough)
        λ (done, e', r') m' (ok, (new, agree, same_results), same).
          rw ok (refl, (new, agree, rw same_results refl), same)
