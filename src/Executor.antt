-- ===== src/Executor.antt =====
-- trpc/client/mysql/executor/mysql_executor.h and mysql_executor.cc: the class `MysqlExecutor`, its
-- connection and the execution of plain text queries. A method returns the new object.
pub mod Connection
pub mod Dangling
pub mod Native
pub mod Rows
pub mod Typed
pub mod Statement
use cpp_database.Prelude.{
  ℕ, zero, suc, ◌+◌, ◌-◌, ◌*◌, ◌%◌, ◌^◌, min, Bool, true, false, not, Option, none, some, is_some,
  ◌&&◌,
}
use cpp_database.Prelude.Text.{Bytes}
use cpp_database.Driver.{
  MysqlApi, MysqlConnOption, Io, pure, returns, faults, when◌then◌else◌, ◌>>=◌, ◌>>◌,
}
use cpp_database.Driver.Calls.{
  on_handle, mysql_init, mysql_close, trpc_assert, get_steady_milliseconds, sleep_for,
}
use cpp_database.Results.{MysqlResults, set_error_message, set_error_number, set_affected_rows}

pub record MysqlExecutor : Type 0 where
  pub is_connected : Bool
  pub auto_commit : Bool
  pub mysql : Option ℕ
  pub alivetime : ℕ
  pub executor_id : ℕ
  pub option : MysqlConnOption

abbrev pub api_timeout : ℕ
api_timeout = 5

abbrev pub reconnect_init_retry_interval : ℕ
reconnect_init_retry_interval = 100

abbrev pub reconnect_max_retry : ℕ
reconnect_max_retry = 5

module _ ⦃api : MysqlApi⦄ where
  -- The constructor.
  unfoldable pub construct : MysqlConnOption → Io MysqlExecutor
  unfolding mysql_init on_handle
  construct option = do
    mysql ← mysql_init
    on_handle mysql (λ h w. (tt, api.set_character_set h option.char_set w))
    on_handle mysql (λ h w. (tt, api.set_timeouts h api_timeout w))
    pure (record {
      is_connected = false;
      auto_commit = true;
      mysql = mysql;
      alivetime = 0;
      executor_id = 0;
      option = option;
    })

  or_init : Option ℕ → Io (Option ℕ)
  unfolding mysql_init
  or_init none = mysql_init
  or_init (some h) = pure (some h)

  -- A failed connection closes the handle, and keeps the pointer to it.
  unfoldable pub connect : MysqlExecutor → Io (Bool × MysqlExecutor)
  unfolding or_init on_handle mysql_close
  connect e = when e.is_connected then pure (true, e) else do
    mysql ← or_init e.mysql
    done ← on_handle mysql (λ h. api.real_connect h e.option)
    when done
        then pure (true, record e { mysql = mysql; is_connected = true })
        else do mysql_close mysql; pure (false, record e { mysql = mysql; is_connected = false })

  unfoldable pub close : MysqlExecutor → Io MysqlExecutor
  unfolding mysql_close
  close e =
      when is_some e.mysql && e.is_connected
      then (do mysql_close e.mysql; pure (record e { mysql = none; is_connected = false }))
      else pure (record e { is_connected = false })

  -- The destructor.
  unfoldable pub destroy : MysqlExecutor → Io (Unit {0})
  unfolding close
  destroy e = do trpc_assert (not e.is_connected); close e; pure tt

  ping : MysqlExecutor → Option ℕ → Io (Bool × MysqlExecutor)
  unfolding on_handle
  ping e none = pure (false, record e { is_connected = false })
  ping e (some h) = do
    answered ← on_handle (some h) api.ping
    when answered then pure (true, e) else pure (false, record e { is_connected = false })

  unfoldable pub check_alive : MysqlExecutor → Io (Bool × MysqlExecutor)
  unfolding ping
  check_alive e = when e.is_connected then ping e e.mysql else pure (false, e)

  -- The rounds that are left, and the interval to sleep after a failed one.
  reconnect_loop : ℕ → ℕ → MysqlExecutor → Io (Bool × MysqlExecutor)
  unfolding sleep_for
  reconnect_loop zero retry_interval e = pure (false, e)
  reconnect_loop (suc rounds) retry_interval e =
      let again = reconnect_loop rounds (min (retry_interval * 2) 3000) in
      connect e >>= λ r. when r.0 then pure (true, r.1) else sleep_for retry_interval >> again r.1

  unfoldable pub start_reconnect : MysqlExecutor → Io (Bool × MysqlExecutor)
  unfolding reconnect_loop
  start_reconnect = reconnect_loop reconnect_max_retry reconnect_init_retry_interval

  unfoldable pub get_error_number : MysqlExecutor → Io ℕ
  unfolding on_handle
  get_error_number e = on_handle e.mysql (λ h w. (api.errno h w, w))

  unfoldable pub get_error_message : MysqlExecutor → Io Bytes
  unfolding on_handle
  get_error_message e = on_handle e.mysql (λ h w. (api.error h w, w))

  unfoldable pub set_auto_commit : MysqlExecutor → Bool → Io (Bool × MysqlExecutor)
  unfolding on_handle
  set_auto_commit e mode = do
    done ← on_handle e.mysql (λ h. api.autocommit h mode)
    when done then pure (true, record e { auto_commit = mode }) else pure (false, e)

  -- The difference of two uint64_t values.
  unfoldable pub get_alive_time : MysqlExecutor → Io ℕ
  unfolding get_steady_milliseconds
  get_alive_time e = do now ← get_steady_milliseconds; pure ((now + 2 ^ 64 - e.alivetime) % 2 ^ 64)

  unfoldable pub refresh_alive_time : MysqlExecutor → Io MysqlExecutor
  unfolding get_steady_milliseconds
  refresh_alive_time e = do now ← get_steady_milliseconds; pure (record e { alivetime = now })

module _ ⦃api : MysqlApi⦄ {Row : Type 0} where
  -- ExecuteInternal with no input arguments: the number of affected rows, and the results object.
  unfoldable pub execute_internal :
      MysqlExecutor → Bytes → MysqlResults Row → Io (ℕ × MysqlResults Row)
  unfolding on_handle get_error_message get_error_number set_error_message set_error_number
  execute_internal e query r = do
    done ← on_handle e.mysql (λ h. api.real_query h query)
    when done
        then (do
          affected ← on_handle e.mysql (λ h w. (api.affected_rows h w, w))
          pure (affected, r))
        else do
          message ← get_error_message e
          number ← get_error_number e
          pure (0, set_error_number (set_error_message r message) number)

  -- Execute; it returns true whatever happens.
  unfoldable pub execute : MysqlExecutor → MysqlResults Row → Bytes → Io (Bool × MysqlResults Row)
  unfolding execute_internal set_affected_rows
  execute e r query = do
    (affected, r') ← execute_internal e query r
    pure (true, set_affected_rows r' affected)
