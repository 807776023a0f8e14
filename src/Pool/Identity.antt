-- ===== src/Pool/Identity.antt =====
-- The number of a connection, which names the shard that it came from.
use cpp_database.Prelude.{ℕ, ◌^◌, ◌<◌, ◌≡◌, arith}
use cpp_database.Driver.{MysqlApi, Machine, Ensures}
use cpp_database.Driver.Rules.{Ensures-bind}
use cpp_database.Executor
use cpp_database.Pool.{
  MysqlExecutorPool, create_executor, executor_id_of, shard_id_of, conn_option_of,
}

shard_id_of-executor_id_of :
    (shard_id serial : ℕ)
    → shard_id < 2 ^ 32
    → serial < 2 ^ 32
    → shard_id_of (executor_id_of shard_id serial) ≡ shard_id
shard_id_of-executor_id_of shard_id serial s n = omega arith

module _ ⦃api : MysqlApi⦄ where
  -- Where the shard's number and the running number have 32 bits, Reclaim reads from a new connection
  -- the shard for which it was created, and its number has 64 bits.
  create_executor-shard_id_of :
      (p : MysqlExecutorPool) (shard_id : ℕ) (m : Machine api.World)
      → shard_id < 2 ^ 32
      → p.executor_id_gen < 2 ^ 32
      → Ensures
          (create_executor p shard_id m)
          λ ((e, _), _). (shard_id_of e.executor_id ≡ shard_id) × (e.executor_id < 2 ^ 64)
  unfolding create_executor
  create_executor-shard_id_of p shard_id m s n =
      Ensures-bind _ (Executor.construct (conn_option_of p)) _ m
        λ e m' _. (shard_id_of-executor_id_of shard_id p.executor_id_gen s n, omega arith)
