-- ===== src/Proxy/Async/Ending.antt =====
-- AsyncCommit and AsyncRollback of trpc/client/mysql/mysql_service_proxy.cc.
use cpp_database.Prelude.{Bool, true, false}
use cpp_database.Prelude.Text.{Bytes, codes}
use cpp_database.Driver.{MysqlApi, faults, assertion_failed, Io, pure, when◌then◌else◌, ◌>>=◌}
use cpp_database.Results.{MysqlResults}
use cpp_database.Framework.{Framework, PoolMap, effect}
use cpp_database.Manager.{MysqlExecutorPoolManager}
use cpp_database.Transaction.{TransactionHandle}
use cpp_database.Proxy.{end_transaction, run_text}
use cpp_database.Proxy.Async.{Future, ready, failed, async_query}

module _ ⦃api : MysqlApi⦄ ⦃fw : Framework api.World⦄ ⦃pools : PoolMap⦄ where
  -- What AsyncCommit and AsyncRollback chain to the query. Of a future that has failed AsyncRollback
  -- asks for the value, and drops it if GetValue returns.
  unfoldable pub async_settle :
      Bool
      → MysqlExecutorPoolManager
      → fw.Context × TransactionHandle × Future (MysqlResults (Unit {0}))
      → Io (fw.Context × TransactionHandle × MysqlExecutorPoolManager × Future (Unit {0}))
  async_settle false manager (ctx, handle, failed text) = pure (ctx, handle, manager, failed text)
  async_settle true manager (ctx, handle, failed text) = do
    returned ← effect (fw.get_failed_value text)
    when returned then pure (ctx, handle, manager, failed text) else (λ m. faults assertion_failed)
  async_settle rollback manager (ctx, handle, ready res) = do
    (handle', manager') ← end_transaction manager handle rollback
    pure (ctx, handle', manager', ready tt)

  unfoldable pub async_finish :
      Bool
      → Bytes
      → fw.Context
      → MysqlExecutorPoolManager
      → TransactionHandle
      → Io (fw.Context × TransactionHandle × MysqlExecutorPoolManager × Future (Unit {0}))
  unfolding async_query async_settle
  async_finish rollback sql ctx manager handle =
      async_query ctx handle (run_text sql) >>= async_settle rollback manager

  unfoldable pub async_commit :
      fw.Context
      → MysqlExecutorPoolManager
      → TransactionHandle
      → Io (fw.Context × TransactionHandle × MysqlExecutorPoolManager × Future (Unit {0}))
  unfolding async_finish
  async_commit = async_finish false (codes "commit")

  unfoldable pub async_rollback :
      fw.Context
      → MysqlExecutorPoolManager
      → TransactionHandle
      → Io (fw.Context × TransactionHandle × MysqlExecutorPoolManager × Future (Unit {0}))
  unfolding async_finish
  async_rollback = async_finish true (codes "rollback")
