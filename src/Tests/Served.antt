-- ===== src/Tests/Served.antt =====
-- A call outside a transaction on a pool with one idle connection.
use cpp_database.Prelude.{◌≡◌, refl, true, some, [], ◌∷◌}
use cpp_database.Prelude.Text.{codes}
use cpp_database.Driver.{returns}
use cpp_database.Executor
use cpp_database.Executor.{MysqlExecutor}
use cpp_database.Manager
use cpp_database.Manager.{MysqlExecutorPoolManager}
use cpp_database.Pool
use cpp_database.Results
use cpp_database.Results.{MysqlResults}
use cpp_database.Proxy.{run_text}
use cpp_database.Proxy.Pooled.{query_pooled}
use cpp_database.Proxy.Pooled.Served.{query_pooled-served}
use cpp_database.Tests.{net_api, up, machine, executor}
use cpp_database.Tests.Pools.{option, pool}
use cpp_database.Tests.Proxies.{framework, pool_map}
use cpp_database.Tests.Futures.{framework_passes}

abbrev pooled : MysqlExecutorPoolManager ⦃pools = pool_map⦄
pooled = record {
  executor_pools = some (pool 1 (executor true ∷ []) []);
  option = option;
  pools_to_destroy = [];
}

abbrev served : MysqlExecutorPoolManager ⦃pools = pool_map⦄
served = record pooled {
  executor_pools =
      some
        (record (pool 1 (record (executor true) { alivetime = 500 } ∷ []) []) { shard_id_gen = 1 });
}

abbrev one_row : MysqlResults (Unit {0})
one_row = record Results.init { affected_rows = 1 }

query_pooled-served_example :
    query_pooled ⦃api = net_api⦄ ⦃fw = framework⦄ ⦃pools = pool_map⦄ 0 pooled Results.init
      (run_text ⦃api = net_api⦄ ⦃fw = framework⦄ ⦃pools = pool_map⦄ (codes "delete"))
      (machine up)
    ≡ returns ((0, served, one_row), machine up)
unfolding Executor.execute Results.init Pool.is_idle_timeout Manager.put
query_pooled-served_example =
    query_pooled-served ⦃api = net_api⦄ ⦃fw = framework⦄ ⦃pools = pool_map⦄ 0 pooled
      (pool 1 (executor true ∷ []) []) (executor true) (executor true) [] Results.init one_row
      (run_text ⦃api = net_api⦄ ⦃fw = framework⦄ ⦃pools = pool_map⦄ (codes "delete")) (machine up)
      (machine up) up framework_passes refl (record { some_group = refl; found = refl })
      (record {
        handle = 1;
        after_ping = up;
        connected = refl;
        pointer = refl;
        live = refl;
        pings = refl;
        fresh = refl;
      })
      refl refl refl
