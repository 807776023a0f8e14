-- ===== src/Executor/Statement/Leaks.antt =====
-- The end of ExecuteInternal with arguments: it returns, and no handle is freed.
use cpp_database.Prelude.{ℕ, ◌≡◌, refl, sym, subst, ◌∙◌, true, not, Option, none, some, arith, List}
use cpp_database.Prelude.Text.{Bytes}
use cpp_database.Driver.{MysqlApi, Machine, Yields}
use cpp_database.Driver.Calls.{on_handle}
use cpp_database.Driver.Rules.{Yields-weaken, Yields-bind, Yields-when}
use cpp_database.Executor.{MysqlExecutor}
use cpp_database.Executor.Connection.{IsLive}
use cpp_database.Binder.{InputBind}
use cpp_database.Results.{MysqlResults, clear}
use cpp_database.Executor.Statement.{
  StatementApi, MysqlStatement, construct, init, error_message, error_number, close_statement,
  destroy, on_statement, execute_statement, leave, fail, conclude, execute_internal,
}
use cpp_database.Executor.Statement.Calls.{
  KeepsLive, Answers, Frees, close_pointer_lem, init_lem, on_statement-KeepsLive, error-KeepsLive,
  execute_statement_lem, on_handle-KeepsLive,
}

module _ ⦃api : MysqlApi⦄ ⦃stmts : StatementApi api.World⦄ {Row A : Type 0} where
  -- What is returned is the answer, and no handle is freed.
  pub leave_lem :
      (s : MysqlStatement) (e : MysqlExecutor) (r : MysqlResults Row) (answer : A)
      (m : Machine api.World)
      → Frees
      → Yields (leave s e r answer m) λ (x, m'). (x ≡ (answer, e, r)) × (m'.live ≡ m.live)
  unfolding leave close_statement destroy
  leave_lem s e r answer m frees =
      Yields-bind _ _ (close_statement s) _ m (close_pointer_lem s s.mysql_stmt m refl frees)
        λ (b, s') m' (gone, same). rw gone (refl, same)

  pub leave-KeepsLive :
      (s : MysqlStatement) (e : MysqlExecutor) (r : MysqlResults Row) (answer : A)
      (m : Machine api.World)
      → Frees
      → Yields (leave s e r answer m) (KeepsLive m)
  leave-KeepsLive s e r answer m frees =
      Yields-weaken _ _ (leave s e r answer m) (leave_lem s e r answer m frees) λ x (_, same). same

  pub fail-KeepsLive :
      (s : MysqlStatement) (e : MysqlExecutor) (r : MysqlResults Row) (answer : A)
      (m : Machine api.World)
      → Frees
      → Yields (fail s e r answer m) (KeepsLive m)
  unfolding fail
  fail-KeepsLive s e r answer m frees =
      Yields-bind _ _ (error_message s) _ m ((error-KeepsLive s m).0) λ t m₁ same.
        Yields-bind _ _ (error_number s) _ m₁ ((error-KeepsLive s m₁).1) λ n m₂ same₂.
          Yields-weaken _ _ (leave s e _ answer m₂) (leave-KeepsLive s e _ answer m₂ frees)
            λ x same₃. same₃ ∙ same₂ ∙ same

module _ ⦃api : MysqlApi⦄ ⦃stmts : StatementApi api.World⦄ {Row : Type 0} where
  counted :
      (s : MysqlStatement) (e : MysqlExecutor) (r : MysqlResults Row) (m : Machine api.World)
      → IsLive e.mysql m.live
      → Frees
      → Yields (conclude s e r none m) (KeepsLive m)
  unfolding conclude
  counted s e r m h frees =
      Yields-bind _ _ (on_handle e.mysql _) _ m (on_handle-KeepsLive e.mysql _ m h) λ rows m₁ same.
        Yields-weaken _ _ (leave s e r rows m₁) (leave-KeepsLive s e r rows m₁ frees)
          λ x same₂. same₂ ∙ same

  conclude-KeepsLive :
      (s : MysqlStatement) (e : MysqlExecutor) (r : MysqlResults Row) (status : Option (ℕ × Bytes))
      (m : Machine api.World)
      → IsLive e.mysql m.live
      → Frees
      → Yields (conclude s e r status m) (KeepsLive m)
  unfolding conclude
  conclude-KeepsLive s e r none m h frees = counted s e r m h frees
  conclude-KeepsLive s e r (some (number, message)) m h frees =
      Yields-when _ (stmts.status_ok number message) _ _ m (λ _. counted s e r m h frees)
        λ _. leave-KeepsLive s e _ 0 m frees

  -- On a connected object with an allocated handle, where the connection answers and
  -- mysql_stmt_free_result succeeds, ExecuteInternal with arguments returns, whatever the other calls
  -- on the statement answer, and no handle is freed.
  pub execute_internal-KeepsLive :
      (e : MysqlExecutor) (query : Bytes) (binds : List InputBind) (r : MysqlResults Row)
      (m : Machine api.World)
      → e.is_connected ≡ true
      → IsLive e.mysql m.live
      → Answers
      → Frees
      → Yields (execute_internal e query binds r m) (KeepsLive m)
  unfolding execute_internal
  execute_internal-KeepsLive e query binds r m up h answers frees =
      Yields-bind _ _ (init (construct e.mysql) query) _ m (init_lem e.mysql query m h)
        λ (done, s) m₁ (there, same).
          Yields-when _ (not done) _ _ m₁
            (λ _.
              Yields-weaken _ _ (fail s e (clear r).0 0 m₁)
                (fail-KeepsLive s e (clear r).0 0 m₁ frees) λ x same'. same' ∙ same)
            λ prepared.
              let some_stmt = there (ground arith) in
              Yields-bind _ _ (on_statement s (λ p. stmts.stmt_bind_param p binds)) _ m₁
                (on_statement-KeepsLive s (λ p. stmts.stmt_bind_param p binds) m₁ some_stmt)
                λ bound m₂ same₂.
                  Yields-when _ (not bound) _ _ m₂
                    (λ _.
                      Yields-weaken _ _ (fail s e (clear r).0 0 m₂)
                        (fail-KeepsLive s e (clear r).0 0 m₂ frees) λ x same'. same' ∙ same₂ ∙ same)
                    λ _.
                      Yields-bind _ _ (execute_statement e s) _ m₂
                        (execute_statement_lem e s m₂ up
                          (subst (IsLive e.mysql) (sym (same₂ ∙ same)) h) answers some_stmt)
                        λ (status, e') m₃ (kept, same₃).
                          Yields-weaken _ _ (conclude s e' _ status m₃)
                            (conclude-KeepsLive s e' _ status m₃
                              (subst (λ p. IsLive p m₃.live) (sym kept)
                                (subst (IsLive e.mysql) (sym (same₃ ∙ same₂ ∙ same)) h))
                              frees)
                            λ x same'. same' ∙ same₃ ∙ same₂ ∙ same
