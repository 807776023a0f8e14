-- ===== src/Tests/Restarts.antt =====
-- A proxy with one pool is given a new configuration.
use native.Mathlib.Decide.{ℕ_discrete}
use cpp_database.Prelude.{◌≡◌, refl, true, false, some, [], ◌∷◌}
use cpp_database.Prelude.Text.{codes}
use cpp_database.Driver.{Yields}
use cpp_database.Config.{MysqlClientConf, default_conf}
use cpp_database.Pool.Shards.{without}
use cpp_database.Manager
use cpp_database.Proxy.Begin.{pool_option}
use cpp_database.Proxy.Lifecycle.{
  Threads, MysqlServiceProxy, ThreadPoolOption, thread_pool_option, set_mysql_config,
}
use cpp_database.Proxy.Lifecycle.Restart.{set_mysql_config-restarts}
use cpp_database.Tests.{Net, net_api, up, machine, executor}
use cpp_database.Tests.Managers.{assoc_map, assoc_laws, one_manager, one_pool}

-- Threads that the network does not show.
abbrev threads : Threads Net
threads = record {
  create = λ n b w. w;
  parse_bind_core_group = λ t w. w;
  start = λ w. w;
  stop = λ w. w;
  join = λ w. w;
  base_stop = λ w. w;
  base_destroy = λ w. w;
}

abbrev four_threads : ThreadPoolOption
four_threads = record { thread_num = 4; bind_core = false }

abbrev proxy : MysqlServiceProxy ⦃pools = assoc_map⦄
proxy = record {
  name = codes "mysql";
  max_conn_num = 8;
  idle_time = 1000;
  mysql_conf = default_conf;
  thread_pool = some four_threads;
  pool_manager = some one_manager;
}

abbrev new_conf : MysqlClientConf
new_conf = record default_conf { thread_num = 2; thread_bind_core = codes "0-1" }

set_mysql_config-restarts_example :
    Yields
      (set_mysql_config ⦃api = net_api⦄ ⦃threads = threads⦄ ⦃pools = assoc_map⦄ proxy new_conf
        (machine up))
      λ (p', m').
        (p' ≡ record proxy {
          mysql_conf = new_conf;
          thread_pool =
              some (
                thread_pool_option ⦃api = net_api⦄ ⦃threads = threads⦄ ⦃pools = assoc_map⦄
                  new_conf);
          pool_manager = some (Manager.construct ⦃pools = assoc_map⦄ (pool_option 8 1000 new_conf));
        })
        × (m'.live ≡ without (executor true ∷ []) (1 ∷ []))
unfolding ℕ_discrete
set_mysql_config-restarts_example =
    set_mysql_config-restarts ⦃api = net_api⦄ ⦃threads = threads⦄ ⦃pools = assoc_map⦄ assoc_laws
      proxy new_conf four_threads one_manager (one_pool ∷ []) (machine up) refl refl (tt, tt)
      (refl, tt) ((λ _. refl), tt, tt)
