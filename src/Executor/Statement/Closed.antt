-- ===== src/Executor/Statement/Closed.antt =====
-- The end of ExecuteInternal with arguments: its statement is closed in the client library.
use cpp_database.Prelude.{
  ℕ, ◌≡◌, refl, sym, ap, ◌∙◌, Bool, true, false, not, Option, none, some, is_some, List, arith,
}
use cpp_database.Prelude.Text.{Bytes}
use cpp_database.Driver.{MysqlApi, Machine, Io, Yields, Ensures, pure, ◌>>◌}
use cpp_database.Driver.Calls.{on_handle, trpc_assert}
use cpp_database.Driver.Rules.{Yields-both, Ensures-seq, Ensures-when}
use cpp_database.Executor.{MysqlExecutor, check_alive, ping}
use cpp_database.Executor.Connection.{IsLive}
use cpp_database.Binder.{InputBind}
use cpp_database.Results.{MysqlResults, clear}
use cpp_database.Executor.Statement.{
  StatementApi, MysqlStatement, construct, init, error_message, error_number, close_pointer,
  close_statement, destroy, on_statement, execute_statement, leave, fail, conclude,
  execute_internal,
}
use cpp_database.Executor.Statement.Calls.{Answers, Frees, KeepsLive}
use cpp_database.Executor.Statement.Leaks.{execute_internal-KeepsLive}
use cpp_database.Executor.Statement.Opened.{
  OpenedLaws, Allocates, with_stmt, on_handle-KeepsOpened, on_statement-KeepsOpened,
  error-KeepsOpened, init-Allocates, execute_statement-KeepsOpened,
}

module _ ⦃api : MysqlApi⦄ where
  check_alive_answers :
      (e : MysqlExecutor) (m : Machine api.World)
      → e.is_connected ≡ true
      → is_some e.mysql ≡ true
      → Answers
      → Ensures (check_alive e m) λ ((alive, _), _). alive ≡ true
  unfolding check_alive
  check_alive_answers e m up there answers =
      Ensures-when _ e.is_connected (ping e e.mysql) _ m (λ _. pinged e.mysql there)
        λ down. absurd (cc (sym up ∙ down))
    where
      pinged : (p : Option ℕ) → is_some p ≡ true → Ensures (ping e p m) λ r. r.0.0 ≡ true
      pinged none h = cc
      pinged (some x) h = ground (arith, answers x m.world)

  IsLive-is_some : (p : Option ℕ) (live : List ℕ) → IsLive p live → is_some p ≡ true
  IsLive-is_some none live h = absurd h
  IsLive-is_some (some p) live h = refl

module _ ⦃api : MysqlApi⦄ ⦃stmts : StatementApi api.World⦄ (laws : OpenedLaws api stmts) where
  -- The call ends with these statements allocated.
  abbrev Closes : List ℕ → {B : Type 0} → B × Machine api.World → Type 0
  Closes xs r = laws.opened r.1.world ≡ xs

  close_pointer_opened :
      (s : MysqlStatement) (p : Option ℕ) (xs : List ℕ) (m : Machine api.World)
      → s.mysql_stmt ≡ p
      → Frees
      → Allocates laws s xs m
      → Ensures (close_pointer s p m) λ (_, m'). laws.opened m'.world ≡ xs
  unfolding close_pointer
  close_pointer_opened s none xs m q frees now = ground (arith, now, q)
  close_pointer_opened s (some p) xs m q frees now =
      Ensures-when _ (not (stmts.stmt_free_result p m.world).0) _ _ _
        (λ no. absurd (ground (arith, frees p m.world)))
        (λ _.
          laws.closes p xs (stmts.stmt_free_result p m.world).1
            (laws.frees p m.world ∙ now ∙ ap (λ (x : Option ℕ). with_stmt x xs) q))

module _ ⦃api : MysqlApi⦄ ⦃stmts : StatementApi api.World⦄ (laws : OpenedLaws api stmts)
    {Row A : Type 0} where
  leave-Closes :
      (s : MysqlStatement) (e : MysqlExecutor) (r : MysqlResults Row) (answer : A) (xs : List ℕ)
      (m : Machine api.World)
      → Frees
      → Allocates laws s xs m
      → Ensures (leave s e r answer m) (Closes laws xs)
  unfolding leave close_statement destroy
  leave-Closes s e r answer xs m frees now =
      Ensures-seq _ _ (close_statement s) _ m
        (close_pointer_opened laws s s.mysql_stmt xs m refl frees now)
        λ (b, s') m' closed. asserted (is_some s'.mysql_stmt) m' closed
    where
      back : Io (A × MysqlExecutor × MysqlResults Row)
      back = pure (answer, e, r)

      asserted :
          (b : Bool) (m' : Machine api.World)
          → laws.opened m'.world ≡ xs
          → Ensures ((trpc_assert (not b) >> back) m') (Closes laws xs)
      asserted true m' closed = tt
      asserted false m' closed = closed

  fail-Closes :
      (s : MysqlStatement) (e : MysqlExecutor) (r : MysqlResults Row) (answer : A) (xs : List ℕ)
      (m : Machine api.World)
      → Frees
      → Allocates laws s xs m
      → Ensures (fail s e r answer m) (Closes laws xs)
  unfolding fail
  fail-Closes s e r answer xs m frees now =
      Ensures-seq _ _ (error_message s) _ m ((error-KeepsOpened laws s m).0) λ t m₁ same.
        Ensures-seq _ _ (error_number s) _ m₁ ((error-KeepsOpened laws s m₁).1)
          λ n m₂ same₂. leave-Closes s e _ answer xs m₂ frees (same₂ ∙ same ∙ now)

module _ ⦃api : MysqlApi⦄ ⦃stmts : StatementApi api.World⦄ (laws : OpenedLaws api stmts)
    {Row : Type 0} where
  counted-Closes :
      (s : MysqlStatement) (e : MysqlExecutor) (r : MysqlResults Row) (xs : List ℕ)
      (m : Machine api.World)
      → Frees
      → Allocates laws s xs m
      → Ensures (conclude s e r none m) (Closes laws xs)
  unfolding conclude
  counted-Closes s e r xs m frees now =
      Ensures-seq _ _ (on_handle e.mysql _) _ m
        (on_handle-KeepsOpened laws e.mysql (λ h w. (api.affected_rows h w, w)) m λ h w. refl)
        λ rows m₁ same. leave-Closes laws s e r rows xs m₁ frees (same ∙ now)

  conclude-Closes :
      (s : MysqlStatement) (e : MysqlExecutor) (r : MysqlResults Row) (status : Option (ℕ × Bytes))
      (xs : List ℕ) (m : Machine api.World)
      → Frees
      → Allocates laws s xs m
      → Ensures (conclude s e r status m) (Closes laws xs)
  unfolding conclude
  conclude-Closes s e r none xs m frees now = counted-Closes s e r xs m frees now
  conclude-Closes s e r (some (number, message)) xs m frees now =
      Ensures-when _ (stmts.status_ok number message) _ _ m
        (λ _. counted-Closes s e r xs m frees now) λ _. leave-Closes laws s e _ 0 xs m frees now

  execute_internal-Closes :
      (e : MysqlExecutor) (query : Bytes) (binds : List InputBind) (r : MysqlResults Row)
      (m : Machine api.World)
      → e.is_connected ≡ true
      → is_some e.mysql ≡ true
      → Answers
      → Frees
      → Ensures (execute_internal e query binds r m) (Closes laws (laws.opened m.world))
  unfolding execute_internal
  execute_internal-Closes e query binds r m up there answers frees =
      let xs = laws.opened m.world in
      Ensures-seq _ _ (init (construct e.mysql) query) _ m (init-Allocates laws e.mysql query m)
        λ (done, s) m₁ now.
          Ensures-when _ (not done) _ _ m₁ (λ _. fail-Closes laws s e (clear r).0 0 xs m₁ frees now)
            λ _.
              Ensures-seq _ _ (on_statement s (λ p. stmts.stmt_bind_param p binds)) _ m₁
                (on_statement-KeepsOpened laws s (λ p. stmts.stmt_bind_param p binds) m₁
                  λ p w. laws.binds p binds w)
                λ bound m₂ same.
                  Ensures-when _ (not bound) _ _ m₂
                    (λ _. fail-Closes laws s e (clear r).0 0 xs m₂ frees (same ∙ now))
                    λ _.
                      Ensures-seq _ _ (execute_statement e s) _ m₂
                        (execute_statement-KeepsOpened laws e s m₂
                          (check_alive_answers e m₂ up there answers))
                        λ (status, e') m₃ same₂.
                          conclude-Closes s e' (clear r).0 status xs m₃ frees (same₂ ∙ same ∙ now)

  -- On a connected object with an allocated handle, where the connection answers and
  -- mysql_stmt_free_result succeeds, ExecuteInternal with arguments returns, whatever the other calls
  -- on the statement answer. No handle is freed, and the statements that are allocated in the client
  -- library are those from before: the one that was made has been closed on every path, where
  -- mysql_stmt_init adds the statement that it answers, mysql_stmt_close removes its own, and the
  -- other calls leave them.
  pub execute_internal-closed :
      (e : MysqlExecutor) (query : Bytes) (binds : List InputBind) (r : MysqlResults Row)
      (m : Machine api.World)
      → e.is_connected ≡ true
      → IsLive e.mysql m.live
      → Answers
      → Frees
      → Yields
          (execute_internal e query binds r m)
          λ (_, m'). (m'.live ≡ m.live) × (laws.opened m'.world ≡ laws.opened m.world)
  execute_internal-closed e query binds r m up h answers frees =
      Yields-both (KeepsLive m) _ (execute_internal e query binds r m)
        (execute_internal-KeepsLive e query binds r m up h answers frees)
        (execute_internal-Closes e query binds r m up (IsLive-is_some e.mysql m.live h) answers
          frees)
