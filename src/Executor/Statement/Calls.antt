-- ===== src/Executor/Statement/Calls.antt =====
-- The calls on a statement return, and free no handle.
use cpp_database.Prelude.{
  ℕ, ◌≡◌, refl, sym, ◌∙◌, Bool, true, false, not, Option, none, some, arith, is_some,
}
use cpp_database.Prelude.Text.{Bytes}
use cpp_database.Driver.{MysqlApi, Machine, Io, pure, Yields, when◌then◌else◌}
use cpp_database.Driver.Calls.{on_handle}
use cpp_database.Driver.Rules.{Yields-weaken, Yields-bind, Yields-when}
use cpp_database.Executor.{MysqlExecutor, check_alive, ping}
use cpp_database.Executor.Connection.{IsLive}
use cpp_database.Executor.Statement.{
  StatementApi, MysqlStatement, construct, prepare, init, error_message, error_number,
  close_pointer, on_statement, run_statement, execute_statement, when_alive,
}

module _ ⦃api : MysqlApi⦄ where
  -- What is allocated does not change.
  abbrev pub KeepsLive : {A : Type 0} → Machine api.World → A × Machine api.World → Type 0
  KeepsLive m r = r.1.live ≡ m.live

  -- The connection answers whenever it is asked.
  abbrev pub Answers : Type 0
  Answers = (h : ℕ) (w : api.World) → (api.ping h w).0 ≡ true

  pub on_handle-KeepsLive :
      {A : Type 0} (p : Option ℕ) (call : ℕ → api.World → A × api.World) (m : Machine api.World)
      → IsLive p m.live
      → Yields (on_handle p call m) (KeepsLive m)
  unfolding on_handle
  on_handle-KeepsLive none call m h = h
  on_handle-KeepsLive (some x) call m h = rw (h, on_handle) refl

  check_alive_up :
      (e : MysqlExecutor) (m : Machine api.World)
      → e.is_connected ≡ true
      → IsLive e.mysql m.live
      → Answers
      → Yields
          (check_alive e m)
          λ ((alive, e'), m'). (alive ≡ true) × (e'.mysql ≡ e.mysql) × (m'.live ≡ m.live)
  unfolding check_alive
  check_alive_up e m up h answers = pinged e.mysql refl h
    where
      pinged :
          (p : Option ℕ)
          → e.mysql ≡ p
          → IsLive p m.live
          → Yields
              ((when e.is_connected then ping e p else pure (false, e)) m)
              λ ((alive, e'), m'). (alive ≡ true) × (e'.mysql ≡ e.mysql) × (m'.live ≡ m.live)
      pinged none q h = absurd h
      pinged (some x) q h = ground (arith, answers x m.world)

module _ ⦃api : MysqlApi⦄ ⦃stmts : StatementApi api.World⦄ where
  -- mysql_stmt_free_result succeeds.
  abbrev pub Frees : Type 0
  Frees = (p : ℕ) (w : api.World) → (stmts.stmt_free_result p w).0 ≡ true

  pub close_pointer_lem :
      (s : MysqlStatement) (p : Option ℕ) (m : Machine api.World)
      → s.mysql_stmt ≡ p
      → Frees
      → Yields (close_pointer s p m) λ ((_, s'), m'). (s'.mysql_stmt ≡ none) × (m'.live ≡ m.live)
  unfolding close_pointer
  close_pointer_lem s none m q frees = (q, refl)
  close_pointer_lem s (some p) m q frees =
      Yields-when _ (not (stmts.stmt_free_result p m.world).0) _ _ _
        (λ no. absurd (ground (arith, frees p m.world))) (λ _. (refl, refl))

  prepare_lem :
      (s : MysqlStatement) (p : Option ℕ) (sql : Bytes) (m : Machine api.World)
      → Yields
          (prepare s p sql m)
          λ ((done, s'), m'). (done ≡ true → is_some s'.mysql_stmt ≡ true) × (m'.live ≡ m.live)
  unfolding prepare
  prepare_lem s none sql m = (λ no. cc, refl)
  prepare_lem s (some p) sql m =
      Yields-when _ (not (stmts.stmt_prepare p sql m.world).0) _ _ _ (λ _. (λ no. cc, refl))
        (λ _. (λ _. refl, refl))

  pub init_lem :
      (p : Option ℕ) (sql : Bytes) (m : Machine api.World)
      → IsLive p m.live
      → Yields
          (init (construct p) sql m)
          λ ((done, s'), m'). (done ≡ true → is_some s'.mysql_stmt ≡ true) × (m'.live ≡ m.live)
  unfolding init
  init_lem p sql m h =
      Yields-bind _ _ (on_handle p stmts.stmt_init) _ m (on_handle-KeepsLive p stmts.stmt_init m h)
        λ q m' same.
          Yields-weaken _ _ (prepare (construct p) q sql m') (prepare_lem (construct p) q sql m')
            λ r (there, same'). (there, same' ∙ same)

  pub on_statement-KeepsLive :
      (s : MysqlStatement) (call : ℕ → api.World → Bool × api.World) (m : Machine api.World)
      → is_some s.mysql_stmt ≡ true
      → Yields (on_statement s call m) (KeepsLive m)
  unfolding on_statement
  on_statement-KeepsLive s call m h = called s.mysql_stmt refl h
    where
      called :
          (p : Option ℕ)
          → s.mysql_stmt ≡ p
          → is_some p ≡ true
          → Yields (on_statement s call m) (KeepsLive m)
      called none q h = cc
      called (some p) q h = rw (q, on_statement) refl

  pub error-KeepsLive :
      (s : MysqlStatement) (m : Machine api.World)
      → Yields (error_message s m) (KeepsLive m) × Yields (error_number s m) (KeepsLive m)
  unfolding error_message error_number
  error-KeepsLive s m = read s.mysql_stmt refl
    where
      read :
          (p : Option ℕ)
          → s.mysql_stmt ≡ p
          → Yields (error_message s m) (KeepsLive m) × Yields (error_number s m) (KeepsLive m)
      read none q = rw (q, error_message, error_number) (refl, refl)
      read (some p) q = rw (q, error_message, error_number) (refl, refl)

  run_statement-KeepsLive :
      (s : MysqlStatement) (m : Machine api.World)
      → is_some s.mysql_stmt ≡ true
      → Yields (run_statement s m) (KeepsLive m)
  unfolding run_statement
  run_statement-KeepsLive s m h =
      Yields-bind _ _ (on_statement s stmts.stmt_execute) _ m
        (on_statement-KeepsLive s stmts.stmt_execute m h)
        λ done m₁ same.
          Yields-when _ done _ _ m₁ (λ _. same)
            λ _. Yields-bind _ _ (error_number s) _ m₁ ((error-KeepsLive s m₁).1) λ n m₂ same₂.
              Yields-bind _ _ (error_message s) _ m₂ ((error-KeepsLive s m₂).0)
                λ t m₃ same₃. same₃ ∙ same₂ ∙ same

  -- On a connection that answers, what follows CheckAlive is run on the same connection.
  pub when_alive_lem :
      (P : Option (ℕ × Bytes) × Machine api.World → Type 0) (e : MysqlExecutor)
      (run : Io (Option (ℕ × Bytes))) (m : Machine api.World)
      → e.is_connected ≡ true
      → IsLive e.mysql m.live
      → Answers
      → ((m₁ : Machine api.World) → m₁.live ≡ m.live → Yields (run m₁) P)
      → Yields (when_alive e run m) λ ((status, e'), m'). (e'.mysql ≡ e.mysql) × P (status, m')
  unfolding when_alive
  when_alive_lem P e run m up h answers runs =
      Yields-bind _ _ (check_alive e) _ m (check_alive_up e m up h answers)
        λ (alive, e₁) m₁ (alive_now, kept, same).
          Yields-when _ alive _ _ m₁
            (λ _. Yields-bind _ _ run _ m₁ (runs m₁ same) λ status m₂ p. (kept, p))
            (λ no. absurd (cc (sym alive_now ∙ no)))

  pub execute_statement_lem :
      (e : MysqlExecutor) (s : MysqlStatement) (m : Machine api.World)
      → e.is_connected ≡ true
      → IsLive e.mysql m.live
      → Answers
      → is_some s.mysql_stmt ≡ true
      → Yields (execute_statement e s m) λ ((_, e'), m'). (e'.mysql ≡ e.mysql) × (m'.live ≡ m.live)
  unfolding execute_statement
  execute_statement_lem e s m up h answers there =
      when_alive_lem (KeepsLive m) e (run_statement s) m up h answers λ m₁ same.
        Yields-weaken _ _ (run_statement s m₁) (run_statement-KeepsLive s m₁ there)
          λ x same₂. same₂ ∙ same
