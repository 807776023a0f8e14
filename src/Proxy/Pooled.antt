-- ===== src/Proxy/Pooled.antt =====
-- The synchronous calls of `MysqlServiceProxy` outside a transaction, on a connection of the pool.
pub mod Served
use cpp_database.Prelude.{not, some, ◌==◌, if◌then◌else◌}
use cpp_database.Driver.{MysqlApi, Io, pure, when◌then◌else◌, ◌>>=◌, ◌>>◌}
use cpp_database.Results.{MysqlResults}
use cpp_database.Pool.{get_executor, reclaim}
use cpp_database.Framework.{
  Framework, PoolMap, client_pre_rpc_invoke, client_post_rpc_invoke, client_pre_send_msg,
  client_post_recv_msg, effect,
}
use cpp_database.Manager
use cpp_database.Manager.{MysqlExecutorPoolManager}
use cpp_database.Proxy.{Run, drop, refuse_connection, note_error}

module _ ⦃api : MysqlApi⦄ ⦃fw : Framework api.World⦄ ⦃pools : PoolMap⦄ {Row : Type 0} where
  -- The task on a connection of the pool: the connection is given back, and destroyed where the
  -- pool does not take it.
  unfoldable pub run_from_pool :
      fw.Context
      → MysqlExecutorPoolManager
      → MysqlResults Row
      → Run Row
      → Io (fw.Context × MysqlExecutorPoolManager × MysqlResults Row)
  run_from_pool ctx manager res run = do
    let node_addr = fw.get_node_addr ctx
    (pool, m₁) ← Manager.get manager node_addr
    (conn, pool₁) ← get_executor pool
    when not conn.is_connected
        then (do
          ctx' ← refuse_connection ctx conn
          drop (some conn)
          pure (ctx', Manager.put m₁ node_addr pool₁, res))
        else (do
          (conn', res') ← run conn res
          (left, pool₂) ← reclaim pool₁ 0 conn'
          drop left
          pure (ctx, Manager.put m₁ node_addr pool₂, res'))

  -- UnaryInvoke with no executor.
  unfoldable pub unary_invoke_pooled :
      fw.Context
      → MysqlExecutorPoolManager
      → MysqlResults Row
      → Run Row
      → Io (fw.Context × MysqlExecutorPoolManager × MysqlResults Row)
  unary_invoke_pooled ctx manager res run = do
    (timeout, c₁) ← effect (fw.check_timeout ctx)
    when timeout then pure (c₁, manager, res) else do
      (filter_ret, c₂) ← effect (fw.run_filters client_pre_send_msg c₁)
      when not (filter_ret == 0)
          then (do
            c₃ ← effect (fw.proxy_statistics c₂)
            (_, c₄) ← effect (fw.run_filters client_post_recv_msg c₃)
            pure (c₄, manager, res))
          else (do
            (c₃, manager', res') ← run_from_pool c₂ manager res run
            c₄ ← effect (fw.proxy_statistics (note_error c₃ res'))
            (_, c₅) ← effect (fw.run_filters client_post_recv_msg c₄)
            pure (c₅, manager', res'))

  -- Query and Execute outside a transaction.
  unfoldable pub query_pooled :
      fw.Context
      → MysqlExecutorPoolManager
      → MysqlResults Row
      → Run Row
      → Io (fw.Context × MysqlExecutorPoolManager × MysqlResults Row)
  query_pooled ctx manager res run = do
    (reject, c₁) ←
        effect (fw.run_message_client_filters client_pre_rpc_invoke (fw.fill_client_context ctx))
    (c₂, manager', res') ←
        (when reject then pure (c₁, manager, res) else unary_invoke_pooled c₁ manager res run)
    (_, c₃) ← effect (fw.run_filters client_post_rpc_invoke c₂)
    pure (c₃, manager', res')
