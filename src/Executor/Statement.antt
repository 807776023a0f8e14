-- ===== src/Executor/Statement.antt =====
-- executor/mysql_statement.h and mysql_statement.cc, and the calls of prepared statements in
-- executor/mysql_executor.h and mysql_executor.cc that return no rows.
pub mod Calls
pub mod Leaks
pub mod Opened
pub mod Closed
use cpp_database.Prelude.{ℕ, Bool, true, false, not, Option, none, some, is_some, List, []}
use cpp_database.Prelude.Text.{Bytes}
use cpp_database.Driver.{
  MysqlApi, returns, faults, null_handle, Io, pure, when◌then◌else◌, ◌>>=◌, ◌>>◌,
}
use cpp_database.Driver.Calls.{on_handle, trpc_assert}
use cpp_database.Binder.{InputBind}
use cpp_database.Executor.{
  MysqlExecutor, check_alive, start_reconnect, get_error_number, get_error_message,
}
use cpp_database.Results.{MysqlResults, clear, set_error_message, set_error_number}
use cpp_database.Framework.{effect}

-- The calls of the client library on statements. An answer of true is success.
pub record StatementApi (World : Type 0) : Type 0 where
  -- mysql_stmt_init on a connection.
  pub stmt_init : ℕ → World → Option ℕ × World
  pub stmt_prepare : ℕ → Bytes → World → Bool × World
  pub stmt_field_count : ℕ → World → ℕ
  pub stmt_param_count : ℕ → World → ℕ
  pub stmt_bind_param : ℕ → List InputBind → World → Bool × World
  pub stmt_execute : ℕ → World → Bool × World
  pub stmt_errno : ℕ → World → ℕ
  pub stmt_error : ℕ → World → Bytes
  pub stmt_free_result : ℕ → World → Bool × World
  pub stmt_close : ℕ → World → World
  -- Status::OK() of a status with a framework code and a message.
  pub status_ok : ℕ → Bytes → Bool

pub record MysqlStatement : Type 0 where
  pub mysql_stmt : Option ℕ
  pub mysql : Option ℕ
  pub field_count : ℕ
  pub params_count : ℕ

-- The constructor leaves params_count_ unset.
abbrev pub construct : Option ℕ → MysqlStatement
construct conn = record { mysql_stmt = none; mysql = conn; field_count = 0; params_count = 0 }

module _ ⦃api : MysqlApi⦄ ⦃stmts : StatementApi api.World⦄ where
  unfoldable pub prepare : MysqlStatement → Option ℕ → Bytes → Io (Bool × MysqlStatement)
  prepare s none sql = pure (false, record s { mysql_stmt = none })
  prepare s (some p) sql = do
    done ← effect (stmts.stmt_prepare p sql)
    fields ← effect (λ w. (stmts.stmt_field_count p w, w))
    params ← effect (λ w. (stmts.stmt_param_count p w, w))
    when not done
        then pure (false, record s { mysql_stmt = some p })
        else pure
            (true, record s { mysql_stmt = some p; field_count = fields; params_count = params })

  unfoldable pub init : MysqlStatement → Bytes → Io (Bool × MysqlStatement)
  unfolding prepare on_handle
  init s sql = do p ← on_handle s.mysql stmts.stmt_init; prepare s p sql

  unfoldable pub error_message : MysqlStatement → Io Bytes
  error_message s = elim s.mysql_stmt [
    | none ↦ pure []
    | some p ↦ effect (λ w. (stmts.stmt_error p w, w))
  ]

  unfoldable pub error_number : MysqlStatement → Io ℕ
  error_number s = elim s.mysql_stmt [
    | none ↦ pure 0
    | some p ↦ effect (λ w. (stmts.stmt_errno p w, w))
  ]

  unfoldable pub close_pointer : MysqlStatement → Option ℕ → Io (Bool × MysqlStatement)
  close_pointer s none = pure (true, s)
  close_pointer s (some p) = do
    done ← effect (stmts.stmt_free_result p)
    when not done then pure (false, s) else (do
      effect (λ w. (tt, stmts.stmt_close p w))
      pure (true, record s { mysql_stmt = none }))

  unfoldable pub close_statement : MysqlStatement → Io (Bool × MysqlStatement)
  unfolding close_pointer
  close_statement s = close_pointer s s.mysql_stmt

  -- The destructor.
  unfoldable pub destroy : MysqlStatement → Io (Unit {0})
  destroy s = trpc_assert (not (is_some s.mysql_stmt))

  -- A call on the pointer of the statement.
  unfoldable pub on_statement : MysqlStatement → (ℕ → api.World → Bool × api.World) → Io Bool
  on_statement s call = elim s.mysql_stmt [
    | none ↦ (λ m. faults null_handle)
    | some p ↦ effect (call p)
  ]

  -- ExecuteStatement with no output: `none` is a status that is OK, and `some` holds the code and
  -- the message that are written to the status.
  unfoldable pub run_statement : MysqlStatement → Io (Option (ℕ × Bytes))
  unfolding on_statement error_number error_message
  run_statement s = do
    done ← on_statement s stmts.stmt_execute
    when done
        then pure none
        else (do number ← error_number s; message ← error_message s; pure (some (number, message)))

  -- What both overloads of ExecuteStatement begin with, before the calls on the statement.
  unfoldable pub when_alive :
      MysqlExecutor → Io (Option (ℕ × Bytes)) → Io (Option (ℕ × Bytes) × MysqlExecutor)
  when_alive e run = do
    (alive, e₁) ← check_alive e
    when alive then (do status ← run; pure (status, e₁)) else (do
      (connected, e₂) ← start_reconnect e₁
      when connected then (do status ← run; pure (status, e₂)) else (do
        number ← get_error_number e₂
        message ← get_error_message e₂
        pure (some (number, message), e₂)))

  unfoldable pub execute_statement :
      MysqlExecutor → MysqlStatement → Io (Option (ℕ × Bytes) × MysqlExecutor)
  unfolding when_alive run_statement
  execute_statement e s = when_alive e (run_statement s)

module _ ⦃api : MysqlApi⦄ ⦃stmts : StatementApi api.World⦄ {Row A : Type 0} where
  -- CloseStatement and the destructor, on return with an answer.
  unfoldable pub leave :
      MysqlStatement
      → MysqlExecutor
      → MysqlResults Row
      → A
      → Io (A × MysqlExecutor × MysqlResults Row)
  unfolding close_statement destroy
  leave s e r answer = do (_, s') ← close_statement s; destroy s'; pure (answer, e, r)

  -- The error of the statement is written to the results.
  unfoldable pub fail :
      MysqlStatement
      → MysqlExecutor
      → MysqlResults Row
      → A
      → Io (A × MysqlExecutor × MysqlResults Row)
  unfolding leave error_message error_number set_error_message set_error_number
  fail s e r answer = do
    message ← error_message s
    number ← error_number s
    leave s e (set_error_number (set_error_message r message) number) answer

module _ ⦃api : MysqlApi⦄ ⦃stmts : StatementApi api.World⦄ {Row : Type 0} where
  -- What follows from the status of ExecuteStatement.
  unfoldable pub conclude :
      MysqlStatement
      → MysqlExecutor
      → MysqlResults Row
      → Option (ℕ × Bytes)
      → Io (ℕ × MysqlExecutor × MysqlResults Row)
  unfolding leave on_handle set_error_message set_error_number
  conclude s e r none = do
    rows ← on_handle e.mysql (λ h w. (api.affected_rows h w, w))
    leave s e r rows
  conclude s e r (some (number, message)) =
      when stmts.status_ok number message
      then (do rows ← on_handle e.mysql (λ h w. (api.affected_rows h w, w)); leave s e r rows)
      else leave s e (set_error_number (set_error_message r message) number) 0

  -- ExecuteInternal with input arguments, which BindInputArgs has made into bindings.
  unfoldable pub execute_internal :
      MysqlExecutor
      → Bytes
      → List InputBind
      → MysqlResults Row
      → Io (ℕ × MysqlExecutor × MysqlResults Row)
  unfolding init fail on_statement execute_statement conclude clear
  execute_internal e query binds r = do
    let cleared = (clear r).0
    (done, s) ← init (construct e.mysql) query
    when not done then fail s e cleared 0 else (do
      bound ← on_statement s (λ p. stmts.stmt_bind_param p binds)
      when not bound
          then fail s e cleared 0
          else (do (status, e') ← execute_statement e s; conclude s e' cleared status))
