-- ===== src/Proxy.antt =====
-- trpc/client/mysql/mysql_service_proxy.h and mysql_service_proxy.cc: the synchronous calls of
-- `MysqlServiceProxy`. The task that a call hands to the thread pool is run in its place, since the
-- caller waits for it. `run` stands for Execute or QueryAll with its query and arguments.
pub mod Async
pub mod Begin
pub mod Lifecycle
pub mod Overlap
pub mod Pooled
pub mod Refusals
pub mod Transactions
use cpp_database.Prelude.{ℕ, Bool, true, false, not, Option, none, some, ◌==◌, if◌then◌else◌}
use cpp_database.Prelude.Text.{Bytes, codes}
use cpp_database.Driver.{MysqlApi, Io, pure, faults, null_handle, when◌then◌else◌, ◌>>=◌, ◌>>◌}
use cpp_database.Executor
use cpp_database.Executor.{MysqlExecutor, check_alive, get_error_number, get_error_message, execute}
use cpp_database.Results
use cpp_database.Results.{MysqlResults, ok}
use cpp_database.Pool.{MysqlExecutorPool, NodeAddr, get_executor, reclaim}
use cpp_database.Framework.{
  Framework, PoolMap, client_pre_rpc_invoke, client_post_rpc_invoke, client_pre_send_msg,
  client_post_recv_msg, effect,
}
use cpp_database.Manager
use cpp_database.Manager.{MysqlExecutorPoolManager}
use cpp_database.Transaction.{
  TransactionHandle, TxState, started, roll_backed, committed, is_started, state_code, set_state,
  set_executor,
}

-- enum TrpcMysqlRetCode of trpc/client/mysql/mysql_error_number.h.
abbrev pub invalid_handle : ℕ
invalid_handle = 3502

module _ ⦃api : MysqlApi⦄ where
  -- What a call on a connection does to the connection and to the results.
  abbrev pub Run : Type 0 → Type 0
  Run Row = MysqlExecutor → MysqlResults Row → Io (MysqlExecutor × MysqlResults Row)

module _ ⦃api : MysqlApi⦄ ⦃fw : Framework api.World⦄ where
  -- The last reference to a connection is dropped.
  unfoldable pub drop : Option MysqlExecutor → Io (Unit {0})
  drop none = pure tt
  drop (some e) = Executor.destroy e

  -- The status of a connection that is not connected.
  unfoldable pub refuse_connection : fw.Context → MysqlExecutor → Io fw.Context
  refuse_connection ctx e = do
    message ← get_error_message e
    number ← get_error_number e
    pure (fw.set_status ctx (fw.framework_status number (fw.connection_failed message)))

module _ ⦃api : MysqlApi⦄ ⦃fw : Framework api.World⦄ {Row : Type 0} where
  -- The body of the task, on a connection that the caller gives.
  unfoldable pub run_on :
      fw.Context
      → MysqlExecutor
      → MysqlResults Row
      → Run Row
      → Io (fw.Context × MysqlExecutor × MysqlResults Row)
  run_on ctx e res run =
      when not e.is_connected
      then (do ctx' ← refuse_connection ctx e; pure (ctx', e, res))
      else (do (e', res') ← run e res; pure (ctx, e', res'))

  -- After the task: an error in the results becomes the status.
  abbrev pub note_error : fw.Context → MysqlResults Row → fw.Context
  note_error ctx res =
      if ok res
      then ctx
      else fw.set_status ctx (fw.framework_status res.error_number res.error_message)

  -- UnaryInvoke with an executor.
  unfoldable pub unary_invoke :
      fw.Context
      → MysqlExecutor
      → MysqlResults Row
      → Run Row
      → Io (fw.Context × MysqlExecutor × MysqlResults Row)
  unary_invoke ctx e res run = do
    (timeout, c₁) ← effect (fw.check_timeout ctx)
    when timeout then pure (c₁, e, res) else do
      (filter_ret, c₂) ← effect (fw.run_filters client_pre_send_msg c₁)
      when not (filter_ret == 0)
          then (do
            c₃ ← effect (fw.proxy_statistics c₂)
            (_, c₄) ← effect (fw.run_filters client_post_recv_msg c₃)
            pure (c₄, e, res))
          else (do
            (c₃, e', res') ← run_on c₂ e res run
            c₄ ← effect (fw.proxy_statistics (note_error c₃ res'))
            (_, c₅) ← effect (fw.run_filters client_post_recv_msg c₄)
            pure (c₅, e', res'))

  -- handle->GetExecutor()->CheckAlive(), and what follows from its answer.
  unfoldable pub query_alive :
      fw.Context
      → TransactionHandle
      → MysqlResults Row
      → Run Row
      → Option MysqlExecutor
      → Io (fw.Context × TransactionHandle × MysqlResults Row)
  query_alive ctx handle res run none = λ m. faults null_handle
  query_alive ctx handle res run (some e) = do
    (alive, e') ← check_alive e
    when not alive
        then pure (
          fw.set_status ctx
              (fw.framework_status fw.client_connect_err (codes "Connect error. Rollback.")),
          record { executor = some e'; state = roll_backed },
          res,
        )
        else (do
          (ctx', e'', res') ← unary_invoke ctx e' res run
          pure (ctx', record handle { executor = some e'' }, res'))

  -- The three tests of Query in a transaction.
  unfoldable pub query_checked :
      Bool
      → fw.Context
      → TransactionHandle
      → MysqlResults Row
      → Run Row
      → Io (fw.Context × TransactionHandle × MysqlResults Row)
  query_checked reject ctx handle res run =
      when reject
      then pure (ctx, handle, res)
      else when not (is_started handle.state)
      then pure (
        fw.set_status ctx
            (fw.framework_status invalid_handle (fw.invalid_state (state_code handle.state))),
        handle,
        res,
      )
      else query_alive ctx handle res run handle.executor

  -- Query and Execute in a transaction.
  unfoldable pub query :
      fw.Context
      → TransactionHandle
      → MysqlResults Row
      → Run Row
      → Io (fw.Context × TransactionHandle × MysqlResults Row)
  query ctx handle res run = do
    (reject, c₁) ←
        effect (fw.run_message_client_filters client_pre_rpc_invoke (fw.fill_client_context ctx))
    (c₂, handle', res') ← query_checked reject c₁ handle res run
    (_, c₃) ← effect (fw.run_filters client_post_rpc_invoke c₂)
    pure (c₃, handle', res')

module _ ⦃api : MysqlApi⦄ ⦃fw : Framework api.World⦄ ⦃pools : PoolMap⦄ where
  unfoldable pub give_back :
      MysqlExecutorPoolManager
      → Option MysqlExecutor
      → Io (Option MysqlExecutor × MysqlExecutorPoolManager)
  give_back manager none = pure (none, manager)
  give_back manager (some e) = do
    let node_addr : NodeAddr = record { ip = e.option.hostname; port = e.option.port }
    (pool, m₁) ← Manager.get manager node_addr
    (left, pool') ← reclaim pool 0 e
    pure (left, Manager.put m₁ node_addr pool')

  -- The handle keeps an executor that the pool did not take.
  unfoldable pub end_transaction :
      MysqlExecutorPoolManager
      → TransactionHandle
      → Bool
      → Io (TransactionHandle × MysqlExecutorPoolManager)
  end_transaction manager handle rollback = do
    (left, manager') ← give_back manager handle.executor
    pure (record { executor = left; state = if rollback then roll_backed else committed }, manager')

  -- Execute with no arguments, as a `Run`.
  abbrev pub run_text : Bytes → Run (Unit {0})
  run_text sql e res = execute e res sql >>= λ r. pure (e, r.1)

  -- What Commit and Rollback do after the query.
  unfoldable pub settle :
      Bool
      → MysqlExecutorPoolManager
      → fw.Context × TransactionHandle × MysqlResults (Unit {0})
      → Io (fw.Context × TransactionHandle × MysqlExecutorPoolManager)
  settle rollback manager (ctx, handle, res) =
      when not (ok res)
      then pure (fw.set_status ctx (fw.unknown_error_status res.error_message), handle, manager)
      else (do
        (handle', manager') ← end_transaction manager handle rollback
        pure (ctx, handle', manager'))

  -- Commit and Rollback, which differ in the statement and in the flag.
  unfoldable pub finish :
      Bool
      → Bytes
      → fw.Context
      → MysqlExecutorPoolManager
      → TransactionHandle
      → Io (fw.Context × TransactionHandle × MysqlExecutorPoolManager)
  unfolding settle
  finish rollback sql ctx manager handle =
      query ctx handle Results.init (run_text sql) >>= settle rollback manager

  unfoldable pub commit :
      fw.Context
      → MysqlExecutorPoolManager
      → TransactionHandle
      → Io (fw.Context × TransactionHandle × MysqlExecutorPoolManager)
  unfolding finish
  commit = finish false (codes "commit")

  unfoldable pub rollback :
      fw.Context
      → MysqlExecutorPoolManager
      → TransactionHandle
      → Io (fw.Context × TransactionHandle × MysqlExecutorPoolManager)
  unfolding finish
  rollback = finish true (codes "rollback")
