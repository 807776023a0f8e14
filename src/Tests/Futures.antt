-- ===== src/Tests/Futures.antt =====
-- The asynchronous calls of the proxy at concrete inputs.
use cpp_database.Prelude.{refl, true, false}
use cpp_database.Prelude.Text.{codes}
use cpp_database.Driver.{Ensures}
use cpp_database.Results
use cpp_database.Executor
use cpp_database.Proxy.{query, run_text}
use cpp_database.Proxy.Async.{async_query}
use cpp_database.Proxy.Async.Ending.{async_commit, async_rollback}
use cpp_database.Proxy.Async.Finished.{AsyncFinishLeaves, async_finished_state}
use cpp_database.Proxy.Async.Agreement.{Passes, Agree, async_query-query}
use cpp_database.Proxy.Async.Begun.{async_begin_at, StartsLater, async_begin_at-StartsLater}
use cpp_database.Tests.{net_api, up, machine, executor}
use cpp_database.Tests.Pools.{addr}
use cpp_database.Tests.Proxies.{framework, pool_map, manager, open_handle}

async_finished_state_example :
    Ensures
      (async_commit ⦃api = net_api⦄ ⦃fw = framework⦄ ⦃pools = pool_map⦄ 0 manager open_handle
        (machine up))
      (λ ((_, h', _, done), _).
        AsyncFinishLeaves ⦃api = net_api⦄ ⦃fw = framework⦄ ⦃pools = pool_map⦄ false open_handle h'
          done)
    × Ensures
        (async_rollback ⦃api = net_api⦄ ⦃fw = framework⦄ ⦃pools = pool_map⦄ 0 manager open_handle
          (machine up))
        (λ ((_, h', _, done), _).
          AsyncFinishLeaves ⦃api = net_api⦄ ⦃fw = framework⦄ ⦃pools = pool_map⦄ true open_handle h'
            done)
async_finished_state_example =
    async_finished_state ⦃api = net_api⦄ ⦃fw = framework⦄ ⦃pools = pool_map⦄ 0 manager open_handle
      (machine up)

abbrev pub framework_passes : Passes framework
framework_passes = record {
  message_filters = λ p c w. refl;
  filters = λ p c w. refl;
  timeout = λ c w. refl;
  statistics = λ c w. refl;
}

async_query-query_example :
    Agree ⦃api = net_api⦄ ⦃fw = framework⦄
      (query ⦃api = net_api⦄ ⦃fw = framework⦄ 0 open_handle Results.init
        (run_text ⦃api = net_api⦄ ⦃fw = framework⦄ ⦃pools = pool_map⦄ (codes "delete"))
        (machine up))
      (async_query ⦃api = net_api⦄ ⦃fw = framework⦄ 0 open_handle
        (run_text ⦃api = net_api⦄ ⦃fw = framework⦄ ⦃pools = pool_map⦄ (codes "delete"))
        (machine up))
unfolding Executor.check_alive
async_query-query_example =
    async_query-query ⦃api = net_api⦄ ⦃fw = framework⦄ 0 open_handle (executor true) (executor true)
      (run_text ⦃api = net_api⦄ ⦃fw = framework⦄ ⦃pools = pool_map⦄ (codes "delete")) (machine up)
      (machine up) framework_passes refl refl refl

async_begin_at-StartsLater_example :
    Ensures
      (async_begin_at ⦃api = net_api⦄ ⦃fw = framework⦄ ⦃pools = pool_map⦄ 0 manager addr
        (machine up))
      λ ((_, _, done), _).
        StartsLater ⦃api = net_api⦄ ⦃fw = framework⦄ ⦃pools = pool_map⦄ 0 manager addr
          (machine up)
          done
async_begin_at-StartsLater_example =
    async_begin_at-StartsLater ⦃api = net_api⦄ ⦃fw = framework⦄ ⦃pools = pool_map⦄ 0 manager addr
      (machine up)
