-- ===== src/Proxy/Async.antt =====
-- The asynchronous calls of `MysqlServiceProxy`, in mysql_service_proxy.h and mysql_service_proxy.cc.
-- The task that a call hands to the thread pool, and what is chained to its future, are run in
-- their place: the caller does nothing to the context, the handle or the pools until the future is
-- done. Of an exception the message is kept.
pub mod Finished
pub mod Agreement
pub mod Begun
pub mod Ending
use cpp_database.Prelude.{ℕ, Bool, true, false, not, Option, none, some, ◌==◌, if◌then◌else◌}
use cpp_database.Prelude.Text.{Bytes, codes}
use cpp_database.Driver.{MysqlApi, Io, pure, faults, null_handle, when◌then◌else◌, ◌>>=◌, ◌>>◌}
use cpp_database.Executor.{MysqlExecutor, check_alive, get_error_number, get_error_message}
use cpp_database.Results
use cpp_database.Results.{MysqlResults, ok}
use cpp_database.Pool.{get_executor, reclaim}
use cpp_database.Framework.{
  Framework, PoolMap, client_pre_rpc_invoke, client_post_rpc_invoke, client_pre_send_msg,
  client_post_recv_msg, effect,
}
use cpp_database.Manager
use cpp_database.Manager.{MysqlExecutorPoolManager}
use cpp_database.Transaction.{TransactionHandle, started, roll_backed, is_started}
use cpp_database.Proxy.{Run, drop, invalid_handle, end_transaction, run_text}

-- A future that is done.
pub data Future (A : Type 0) : Type 0 where
  ready : A → Future A
  failed : Bytes → Future A

-- SetValue or SetException, from the results.
abbrev pub promise : {Row : Type 0} → MysqlResults Row → Future (MysqlResults Row)
promise res = if ok res then ready res else failed res.error_message

module _ ⦃api : MysqlApi⦄ ⦃fw : Framework api.World⦄ where
  abbrev pub message : fw.Context → Bytes
  message ctx = fw.error_message (fw.get_status ctx)

  -- The status and the exception of a connection that is not connected, from its error message.
  abbrev pub refusal :
      {A : Type 0} → fw.Context → MysqlExecutor → Bytes → Io (fw.Context × Future A)
  refusal ctx e text = do
    number ← get_error_number e
    let refused = fw.connection_failed text
    pure (fw.set_status ctx (fw.framework_status number refused), failed refused)

  -- The task on a connection that is not connected.
  unfoldable pub refuse : {A : Type 0} → fw.Context → MysqlExecutor → Io (fw.Context × Future A)
  refuse ctx e = get_error_message e >>= refusal ctx e

  -- A call that the first filters reject.
  unfoldable pub reject_call : {A : Type 0} → fw.Context → Io (fw.Context × Future A)
  reject_call ctx = do
    let c₁ = fw.drop_request ctx
    (_, c₂) ← effect (fw.run_message_client_filters client_post_rpc_invoke c₁)
    pure (c₂, failed (message c₁))

module _ ⦃api : MysqlApi⦄ ⦃fw : Framework api.World⦄ {Row : Type 0} where
  -- What AsyncUnaryInvoke does before and after the task; `S` is what the task changes, the
  -- connection or the manager.
  unfoldable pub async_around :
      {S : Type 0}
      → fw.Context
      → S
      → (fw.Context → S → Io (fw.Context × S × Future (MysqlResults Row)))
      → Io (fw.Context × S × Future (MysqlResults Row))
  async_around ctx s task = do
    (timeout, c₁) ← effect (fw.check_timeout ctx)
    when timeout then pure (c₁, s, failed (message c₁)) else do
      (filter_ret, c₂) ← effect (fw.run_filters client_pre_send_msg c₁)
      when not (filter_ret == 0)
          then (do
            (_, c₃) ← effect (fw.run_filters client_post_recv_msg c₂)
            (_, c₄) ← effect (fw.run_filters client_post_rpc_invoke c₃)
            pure (c₄, s, failed (message c₄)))
          else (do
            (c₃, s', future) ← task c₂ s
            (_, c₄) ← effect (fw.run_filters client_post_recv_msg c₃)
            pure (c₄, s', future))

  -- The task on a connection that the caller gives.
  unfoldable pub async_run_on :
      Run Row
      → fw.Context
      → MysqlExecutor
      → Io (fw.Context × MysqlExecutor × Future (MysqlResults Row))
  unfolding refuse
  async_run_on run ctx e =
      when not e.is_connected then (do (c, future) ← refuse ctx e; pure (c, e, future)) else (do
        (e', res) ← run e Results.init
        c ← effect (fw.proxy_statistics ctx)
        pure (c, e', promise res))

  -- AsyncUnaryInvoke with an executor.
  unfoldable pub async_unary_invoke :
      fw.Context
      → MysqlExecutor
      → Run Row
      → Io (fw.Context × MysqlExecutor × Future (MysqlResults Row))
  unfolding async_around async_run_on
  async_unary_invoke ctx e run = async_around ctx e (async_run_on run)

  -- AsyncQuery in a started transaction: the test of the connection and what follows from it.
  unfoldable pub async_query_alive :
      fw.Context
      → TransactionHandle
      → Run Row
      → Option MysqlExecutor
      → Io (fw.Context × TransactionHandle × Future (MysqlResults Row))
  unfolding async_unary_invoke
  async_query_alive ctx handle run none = λ m. faults null_handle
  async_query_alive ctx handle run (some e) = do
    (alive, e') ← check_alive e
    when not alive
        then (do
          let status = fw.framework_status fw.client_connect_err (codes "Connect error. Rollback.")
          (_, c) ←
              effect
                (fw.run_message_client_filters client_post_rpc_invoke (fw.set_status ctx status))
          pure (
            c,
            record { executor = some e'; state = roll_backed },
            failed (codes "Connect error. Rollback."),
          ))
        else (do
          (c₁, e'', future) ← async_unary_invoke ctx e' run
          (_, c₂) ← effect (fw.run_filters client_post_rpc_invoke c₁)
          pure (c₂, record handle { executor = some e'' }, future))

  -- AsyncQuery in a transaction.
  unfoldable pub async_query :
      fw.Context
      → TransactionHandle
      → Run Row
      → Io (fw.Context × TransactionHandle × Future (MysqlResults Row))
  unfolding reject_call async_query_alive
  async_query ctx handle run = do
    (reject, c₁) ←
        effect (fw.run_message_client_filters client_pre_rpc_invoke (fw.fill_client_context ctx))
    when reject
        then (do (c, future) ← reject_call c₁; pure (c, handle, future))
        else when not (is_started handle.state)
        then (do
          let status = fw.framework_status invalid_handle (codes "Invalid handle.")
          (_, c) ←
              effect
                (fw.run_message_client_filters client_post_rpc_invoke (fw.set_status c₁ status))
          pure (c, handle, failed (codes "Invalid handle.")))
        else async_query_alive c₁ handle run handle.executor

module _ ⦃api : MysqlApi⦄ ⦃fw : Framework api.World⦄ ⦃pools : PoolMap⦄ {Row : Type 0} where
  -- The task on a connection of the pool.
  unfoldable pub async_run_from_pool :
      Run Row
      → fw.Context
      → MysqlExecutorPoolManager
      → Io (fw.Context × MysqlExecutorPoolManager × Future (MysqlResults Row))
  unfolding refuse
  async_run_from_pool run ctx manager = do
    let node_addr = fw.get_node_addr ctx
    (pool, m₁) ← Manager.get manager node_addr
    (conn, pool₁) ← get_executor pool
    when not conn.is_connected
        then (do
          (c, future) ← refuse ctx conn
          drop (some conn)
          pure (c, Manager.put m₁ node_addr pool₁, future))
        else (do
          (conn', res) ← run conn Results.init
          (left, pool₂) ← reclaim pool₁ 0 conn'
          drop left
          c ← effect (fw.proxy_statistics ctx)
          pure (c, Manager.put m₁ node_addr pool₂, promise res))

  -- AsyncQuery and AsyncExecute outside a transaction.
  unfoldable pub async_query_pooled :
      fw.Context
      → MysqlExecutorPoolManager
      → Run Row
      → Io (fw.Context × MysqlExecutorPoolManager × Future (MysqlResults Row))
  unfolding reject_call async_around async_run_from_pool
  async_query_pooled ctx manager run = do
    (reject, c₁) ←
        effect (fw.run_message_client_filters client_pre_rpc_invoke (fw.fill_client_context ctx))
    when reject then (do (c, future) ← reject_call c₁; pure (c, manager, future)) else (do
      (c₂, manager', future) ← async_around c₁ manager (async_run_from_pool run)
      (_, c₃) ← effect (fw.run_filters client_post_rpc_invoke c₂)
      pure (c₃, manager', future))
