-- ===== src/Executor/Statement/Opened.antt =====
-- Which statements of the client library are allocated, and what the calls on a statement do to them.
use cpp_database.Prelude.{
  ℕ, ◌≡◌, refl, sym, ap, ◌∙◌, Bool, true, not, Option, none, some, List, ◌∷◌, arith,
}
use cpp_database.Prelude.Text.{Bytes}
use cpp_database.Driver.{MysqlApi, Machine, Ensures, Ensures-weaken}
use cpp_database.Driver.Calls.{on_handle}
use cpp_database.Driver.Rules.{Ensures-both, Ensures-seq, Ensures-when}
use cpp_database.Executor.{MysqlExecutor, check_alive, ping}
use cpp_database.Binder.{InputBind}
use cpp_database.Executor.Statement.{
  StatementApi, MysqlStatement, construct, prepare, init, error_message, error_number, on_statement,
  run_statement, execute_statement, when_alive,
}

-- The statement of a pointer, if there is one, before others.
abbrev pub with_stmt : Option ℕ → List ℕ → List ℕ
with_stmt none xs = xs
with_stmt (some p) xs = p ∷ xs

-- The statements that are allocated, newest first: mysql_stmt_init adds the one that it answers,
-- mysql_stmt_close removes its own, and no other call that is made here changes them.
pub record OpenedLaws (api : MysqlApi) (stmts : StatementApi api.World) : Type 0 where
  pub opened : api.World → List ℕ
  pub inits :
      (h : ℕ) (w : api.World)
      → opened (stmts.stmt_init h w).1 ≡ with_stmt (stmts.stmt_init h w).0 (opened w)
  pub closes :
      (p : ℕ) (ps : List ℕ) (w : api.World) → opened w ≡ p ∷ ps → opened (stmts.stmt_close p w) ≡ ps
  pub prepares :
      (p : ℕ) (sql : Bytes) (w : api.World) → opened (stmts.stmt_prepare p sql w).1 ≡ opened w
  pub binds :
      (p : ℕ) (args : List InputBind) (w : api.World)
      → opened (stmts.stmt_bind_param p args w).1 ≡ opened w
  pub executes : (p : ℕ) (w : api.World) → opened (stmts.stmt_execute p w).1 ≡ opened w
  pub frees : (p : ℕ) (w : api.World) → opened (stmts.stmt_free_result p w).1 ≡ opened w
  pub pings : (h : ℕ) (w : api.World) → opened (api.ping h w).1 ≡ opened w

module _ ⦃api : MysqlApi⦄ ⦃stmts : StatementApi api.World⦄ (laws : OpenedLaws api stmts) where
  abbrev pub KeepsOpened : {A : Type 0} → Machine api.World → A × Machine api.World → Type 0
  KeepsOpened m r = laws.opened r.1.world ≡ laws.opened m.world

  pub on_handle-KeepsOpened :
      {A : Type 0} (p : Option ℕ) (call : ℕ → api.World → A × api.World) (m : Machine api.World)
      → ((h : ℕ) (w : api.World) → laws.opened (call h w).1 ≡ laws.opened w)
      → Ensures (on_handle p call m) (KeepsOpened m)
  unfolding on_handle
  on_handle-KeepsOpened none call m keeps = tt
  on_handle-KeepsOpened (some h) call m keeps = ground (arith, keeps h m.world)

  check_alive-KeepsOpened :
      (e : MysqlExecutor) (m : Machine api.World) → Ensures (check_alive e m) (KeepsOpened m)
  unfolding check_alive
  check_alive-KeepsOpened e m =
      Ensures-when _ e.is_connected (ping e e.mysql) _ m (λ _. pinged e.mysql) λ _. refl
    where
      pinged : (p : Option ℕ) → Ensures (ping e p m) (KeepsOpened m)
      pinged none = refl
      pinged (some h) =
          Ensures-seq _ _ (on_handle (some h) api.ping) _ m
            (on_handle-KeepsOpened (some h) api.ping m laws.pings)
            λ answered m' same. Ensures-when _ answered _ _ m' (λ _. same) λ _. same

  pub on_statement-KeepsOpened :
      (s : MysqlStatement) (call : ℕ → api.World → Bool × api.World) (m : Machine api.World)
      → ((p : ℕ) (w : api.World) → laws.opened (call p w).1 ≡ laws.opened w)
      → Ensures (on_statement s call m) (KeepsOpened m)
  unfolding on_statement
  on_statement-KeepsOpened s call m keeps = called s.mysql_stmt refl
    where
      called : (p : Option ℕ) → s.mysql_stmt ≡ p → Ensures (on_statement s call m) (KeepsOpened m)
      called none q = rw (q, on_statement) tt
      called (some p) q = rw (q, on_statement) (keeps p m.world)

  pub error-KeepsOpened :
      (s : MysqlStatement) (m : Machine api.World)
      → Ensures (error_message s m) (KeepsOpened m) × Ensures (error_number s m) (KeepsOpened m)
  unfolding error_message error_number
  error-KeepsOpened s m = read s.mysql_stmt refl
    where
      read :
          (p : Option ℕ)
          → s.mysql_stmt ≡ p
          → Ensures (error_message s m) (KeepsOpened m) × Ensures (error_number s m) (KeepsOpened m)
      read none q = rw (q, error_message, error_number) (refl, refl)
      read (some p) q = rw (q, error_message, error_number) (refl, refl)

  prepare-KeepsOpened :
      (s : MysqlStatement) (p : Option ℕ) (sql : Bytes) (m : Machine api.World)
      → Ensures
          (prepare s p sql m)
          λ ((_, s'), m'). (s'.mysql_stmt ≡ p) × (laws.opened m'.world ≡ laws.opened m.world)
  unfolding prepare
  prepare-KeepsOpened s none sql m = (refl, refl)
  prepare-KeepsOpened s (some p) sql m =
      Ensures-when _ (not (stmts.stmt_prepare p sql m.world).0) _ _ _
        (λ _. (refl, laws.prepares p sql m.world)) (λ _. (refl, laws.prepares p sql m.world))

  -- The statement is allocated.
  abbrev pub Allocates : MysqlStatement → List ℕ → Machine api.World → Type 0
  Allocates s xs m = laws.opened m.world ≡ with_stmt s.mysql_stmt xs

  handle_init :
      (p : Option ℕ) (m : Machine api.World)
      → Ensures
          (on_handle p stmts.stmt_init m)
          λ (q, m'). laws.opened m'.world ≡ with_stmt q (laws.opened m.world)
  unfolding on_handle
  handle_init none m = tt
  handle_init (some h) m = ground (arith, laws.inits h m.world)

  pub init-Allocates :
      (p : Option ℕ) (sql : Bytes) (m : Machine api.World)
      → Ensures (init (construct p) sql m) λ ((_, s), m'). Allocates s (laws.opened m.world) m'
  unfolding init
  init-Allocates p sql m =
      Ensures-seq _ _ (on_handle p stmts.stmt_init) _ m (handle_init p m) λ q m₁ now.
        Ensures-weaken _ _ (prepare (construct p) q sql m₁)
          (prepare-KeepsOpened (construct p) q sql m₁)
          λ ((_, s), m') (there, same).
            same ∙ now ∙ ap (λ (x : Option ℕ). with_stmt x (laws.opened m.world)) (sym there)

  run_statement-KeepsOpened :
      (s : MysqlStatement) (m : Machine api.World) → Ensures (run_statement s m) (KeepsOpened m)
  unfolding run_statement
  run_statement-KeepsOpened s m =
      Ensures-seq _ _ (on_statement s stmts.stmt_execute) _ m
        (on_statement-KeepsOpened s stmts.stmt_execute m laws.executes)
        λ done m₁ same.
          Ensures-when _ done _ _ m₁ (λ _. same)
            λ _. Ensures-seq _ _ (error_number s) _ m₁ ((error-KeepsOpened s m₁).1) λ n m₂ same₂.
              Ensures-seq _ _ (error_message s) _ m₂ ((error-KeepsOpened s m₂).0)
                λ t m₃ same₃. same₃ ∙ same₂ ∙ same

  -- On a connection that answers, no new connection is made.
  pub execute_statement-KeepsOpened :
      (e : MysqlExecutor) (s : MysqlStatement) (m : Machine api.World)
      → Ensures (check_alive e m) (λ ((alive, _), _). alive ≡ true)
      → Ensures (execute_statement e s m) (KeepsOpened m)
  unfolding execute_statement when_alive
  execute_statement-KeepsOpened e s m up =
      Ensures-seq _ _ (check_alive e) _ m
        (Ensures-both _ _ (check_alive e m) up (check_alive-KeepsOpened e m))
        λ (alive, e₁) m₁ (yes_alive, same).
          Ensures-when _ alive _ _ m₁
            (λ _.
              Ensures-seq _ _ (run_statement s) _ m₁ (run_statement-KeepsOpened s m₁)
                λ status m₂ same₂. same₂ ∙ same)
            (λ down. absurd (cc (sym yes_alive ∙ down)))
