-- ===== src/Tests/Pools.antt =====
-- Pools.
use cpp_database.Prelude.{
  ℕ, ◌<◌, ◌≤◌, ◌≡◌, refl, true, false, none, some, [], ◌∷◌, arith, All, length, is_some,
}
use cpp_database.Prelude.Text.{codes}
use cpp_database.Driver.{returns, Yields}
use cpp_database.Driver.Calls.{release}
use cpp_database.Executor
use cpp_database.Executor.{MysqlExecutor}
use cpp_database.Pool
use cpp_database.Pool.{
  MysqlExecutorPool, MysqlExecutorPoolOption, NodeAddr, Shard, get_executor, reclaim, stop, destroy,
}
use cpp_database.Pool.{create_executor, shard_id_of}
use cpp_database.Pool.Histories.{
  History, start, reclaimed, total, History-IsWithin, overfull_takes_nothing, calls,
}
use cpp_database.Pool.Shards.{idle, shutdown, shutdown_frees, without}
use cpp_database.Tests.{net_api, up, machine, executor}

abbrev pub option : MysqlExecutorPoolOption
option = record {
  max_size = 4;
  max_idle_time = 1000;
  num_shard_group = 2;
  dbname = codes "test";
  username = codes "root";
  password = codes "abc123";
  char_set = codes "utf8mb4";
}

abbrev pub addr : NodeAddr
addr = record { ip = codes "127.0.0.1"; port = 3306 }

-- A pool with a count of connections and two shards.
abbrev pub pool : ℕ → Shard → Shard → MysqlExecutorPool
pool executor_num first second = record {
  option = option;
  target = addr;
  executor_num = executor_num;
  max_num_per_shard = 2;
  shards = first ∷ second ∷ [];
  shard_id_gen = 0;
  executor_id_gen = 0;
}

abbrev refreshed : MysqlExecutor
refreshed = record (executor true) { alivetime = 500 }

one_reclaimed :
    reclaim ⦃api = net_api⦄ (pool 0 [] []) 0 (executor true) (machine up)
    ≡ returns ((none, pool 0 (refreshed ∷ []) []), machine up)
unfolding reclaim Pool.shard_at Executor.refresh_alive_time
one_reclaimed = refl

abbrev history : History ⦃api = net_api⦄ (pool 0 [] []) (pool 0 (refreshed ∷ []) [])
history = reclaimed 0 (executor true) none (machine up) (machine up) start one_reclaimed

History-IsWithin_example :
    (length (pool 0 (refreshed ∷ []) []).shards ≡ 2)
    × All (λ (shard : Shard). length shard ≤ 3) (pool 0 (refreshed ∷ []) []).shards
    × (total (pool 0 (refreshed ∷ []) []).shards ≤ 6)
unfolding Pool.construct
History-IsWithin_example =
    History-IsWithin ⦃api = net_api⦄ option addr (machine up) (machine up) (pool 0 [] [])
      (pool 0 (refreshed ∷ []) []) refl history

abbrev after_close : MysqlExecutor
after_close = record (executor true) { mysql = none; is_connected = false }

over_start :
    reclaim ⦃api = net_api⦄ (pool 5 [] []) 1 (executor true) (machine up)
    ≡ returns ((some after_close, pool 6 [] []), record { world = up; live = []; next = 2 })
unfolding reclaim Pool.discard Executor.close release
over_start = refl

overfull_takes_nothing_example :
    (4 < 5) × (is_some (some after_close) ≡ true) × ((pool 6 [] []).shards ≡ (pool 5 [] []).shards)
unfolding reclaim Pool.shard_at Pool.discard Executor.close release
overfull_takes_nothing_example =
    overfull_takes_nothing ⦃api = net_api⦄ (pool 5 [] []) (pool 5 [] []) (pool 6 [] []) start 0
      (executor true) (some after_close) (machine up) (record { world = up; live = []; next = 2 })
      (omega arith) (unfold calls in omega arith) refl

shutdown_frees_example :
    Yields
      (shutdown ⦃api = net_api⦄ (pool 1 (executor true ∷ []) []) (machine up))
      λ (q, m'). (idle q.shards ≡ []) × (m'.live ≡ without (executor true ∷ []) (1 ∷ []))
shutdown_frees_example =
    shutdown_frees ⦃api = net_api⦄ (pool 1 (executor true ∷ []) []) (machine up)
      ((λ _. refl), tt, tt)
