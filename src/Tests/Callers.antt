-- ===== src/Tests/Callers.antt =====
-- Two threads that call the functions of a pool.
use cpp_database.Prelude.{◌≡◌, refl, none, [], ◌∷◌, true, List, arith}
use cpp_database.Driver.{returns}
use cpp_database.Executor
use cpp_database.Executor.{MysqlExecutor}
use cpp_database.Pool
use cpp_database.Pool.{MysqlExecutorPool, get_executor, reclaim}
use cpp_database.Pool.Threads.{Phase, Reach, idle}
use cpp_database.Pool.Threads.Runs.{view}
use cpp_database.Pool.Threads.Calls.{Calls, start, got, reclaimed, count, Calls-Reach}
use cpp_database.Tests.{net_api, up, machine, executor}
use cpp_database.Tests.Pools.{pool}

-- Both threads are idle, and one connection is in the first shard.
abbrev before : MysqlExecutorPool
before = pool 1 (executor true ∷ []) []

abbrev taken : MysqlExecutorPool
taken = record (pool 1 [] []) { shard_id_gen = 1 }

abbrev refreshed : MysqlExecutor
refreshed = record (executor true) { alivetime = 500 }

abbrev given : MysqlExecutorPool
given = record (pool 1 (refreshed ∷ []) []) { shard_id_gen = 1 }

abbrev both_idle : List Phase
both_idle = idle ∷ idle ∷ []

second_takes :
    get_executor ⦃api = net_api⦄ before (machine up) ≡ returns ((executor true, taken), machine up)
unfolding get_executor Pool.get_or_create Pool.shard_at Pool.take_idle Pool.is_usable Pool.hand_out
    Executor.check_alive Pool.is_idle_timeout
second_takes = refl

second_returns :
    reclaim ⦃api = net_api⦄ taken 0 (executor true) (machine up)
    ≡ returns ((none, given), machine up)
unfolding reclaim Pool.shard_at Executor.refresh_alive_time
second_returns = refl

abbrev history : Calls ⦃api = net_api⦄ before both_idle given both_idle
history =
    reclaimed 1 0 (executor true) none (machine up) (machine up)
      (got 1 (executor true) (machine up) (machine up) start refl second_takes) refl second_returns

Calls-Reach_example : Reach 4 2 2 (view before both_idle) (view given both_idle)
Calls-Reach_example =
    Calls-Reach ⦃api = net_api⦄ before both_idle given both_idle history (omega arith)
      (unfold count in omega arith)
