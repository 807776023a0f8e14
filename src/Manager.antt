-- ===== src/Manager.antt =====
-- trpc/client/mysql/mysql_executor_pool_manager.h and mysql_executor_pool_manager.cc: the pools by
-- endpoint. A pool is named by its key in the map, since it is shared by pointer.
pub mod Shutdown
pub mod Endpoints
pub mod Apart
use cpp_database.Prelude.{ℕ, ◌-◌, none, some, List, [], ◌∷◌, ◌++◌, length, take, replicate}
use cpp_database.Prelude.Text.{Bytes}
use cpp_database.Driver.{MysqlApi, faults, use_after_free, Io, pure, ◌>>=◌, ◌>>◌}
use cpp_database.Framework.{PoolMap}
use cpp_database.Pool
use cpp_database.Pool.{NodeAddr, MysqlExecutorPool, MysqlExecutorPoolOption}
use cpp_database.Time.Printf.{decimal}

abbrev pub endpoint_len : ℕ
endpoint_len = 64

-- snprintf(buffer, 64, "%s:%d", ip, port) into a string of 64 zero bytes: at most 63 bytes of the
-- text, and zero bytes up to the full length.
unfoldable pub endpoint : NodeAddr → Bytes
unfolding decimal
endpoint addr =
    let text = take (endpoint_len - 1) (addr.ip ++ b':' ∷ decimal addr.port) in
    text ++ replicate (endpoint_len - length text) 0

module _ ⦃pools : PoolMap⦄ where
  pub record MysqlExecutorPoolManager : Type 0 where
    pub executor_pools : pools.Map
    pub option : MysqlExecutorPoolOption
    -- The keys of the pools that Stop has found.
    pub pools_to_destroy : List Bytes

  -- The constructor.
  unfoldable pub construct : MysqlExecutorPoolOption → MysqlExecutorPoolManager
  construct option = record { executor_pools = pools.empty; option = option; pools_to_destroy = [] }

module _ ⦃api : MysqlApi⦄ ⦃pools : PoolMap⦄ where
  -- A pool that lost the race to be inserted is deleted; it holds no connection.
  insert_pool :
      MysqlExecutorPoolManager
      → Bytes
      → MysqlExecutorPool
      → MysqlExecutorPool × MysqlExecutorPoolManager
  insert_pool manager key pool =
      let (existing, map) = pools.get_or_insert manager.executor_pools key pool in
      elim existing [
        | none ↦ (pool, record manager { executor_pools = map })
        | some other ↦ (other, record manager { executor_pools = map })
      ]

  -- The pool of an endpoint, made on its first use.
  unfoldable pub get :
      MysqlExecutorPoolManager → NodeAddr → Io (MysqlExecutorPool × MysqlExecutorPoolManager)
  unfolding insert_pool
  get manager node_addr = elim (pools.get manager.executor_pools (endpoint node_addr)) [
    | some pool ↦ pure (pool, manager)
    | none ↦ do
      pool ← Pool.construct manager.option node_addr
      pure (insert_pool manager (endpoint node_addr) pool)
  ]

  -- A call on the pool of an endpoint changes the pool in the map.
  unfoldable pub put :
      MysqlExecutorPoolManager → NodeAddr → MysqlExecutorPool → MysqlExecutorPoolManager
  put manager node_addr pool = record manager {
    executor_pools = pools.update manager.executor_pools (endpoint node_addr) pool;
  }

  -- The pool behind a pointer that GetAllItems gave.
  pool_at : pools.Map → Bytes → Io MysqlExecutorPool
  pool_at map key = elim (pools.get map key) [
    | none ↦ (λ m. faults use_after_free)
    | some pool ↦ pure pool
  ]

  unfoldable pub stop_pools : List Bytes → pools.Map → Io pools.Map
  unfolding pool_at
  stop_pools [] map = pure map
  stop_pools (key ∷ keys) map = do
    pool ← pool_at map key
    pool' ← Pool.stop pool
    stop_pools keys (pools.update map key pool')

  unfoldable pub stop : MysqlExecutorPoolManager → Io MysqlExecutorPoolManager
  unfolding stop_pools
  stop manager = do
    let keys = pools.keys manager.executor_pools
    map ← stop_pools keys manager.executor_pools
    pure (record manager { executor_pools = map; pools_to_destroy = keys })

  -- A pool is deleted after its Destroy.
  unfoldable pub destroy_pools : List Bytes → pools.Map → Io (Unit {0})
  unfolding pool_at
  destroy_pools [] map = pure tt
  destroy_pools (key ∷ keys) map = pool_at map key >>= Pool.destroy >> destroy_pools keys map

  unfoldable pub destroy : MysqlExecutorPoolManager → Io MysqlExecutorPoolManager
  unfolding destroy_pools
  destroy manager = do
    destroy_pools manager.pools_to_destroy manager.executor_pools
    pure (record manager {
      executor_pools = pools.reclaim manager.executor_pools;
      pools_to_destroy = [];
    })
