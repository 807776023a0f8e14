-- ===== src/Proxy/Lifecycle/Restart.antt =====
-- SetMysqlConfig ends the old pools and starts anew.
use cpp_database.Prelude.{◌≡◌, refl, sym, subst, ap, ◌∙◌, none, some, List}
use cpp_database.Driver.{MysqlApi, Machine, Io, Yields}
use cpp_database.Driver.Rules.{Yields-bind, Yields-then, Yields-weaken}
use cpp_database.Config.{MysqlClientConf}
use cpp_database.Framework.{PoolMap}
use cpp_database.Pool.{MysqlExecutorPool}
use cpp_database.Pool.Shards.{IsOwned, without}
use cpp_database.Manager
use cpp_database.Manager.{MysqlExecutorPoolManager}
use cpp_database.Manager.Shutdown.{
  MapLaws, AreDistinct, Holds, connections, StoppedManager, stop_lem, destroy_lem,
}
use cpp_database.Proxy.Begin.{pool_option}
use cpp_database.Proxy.Lifecycle.{
  Threads, MysqlServiceProxy, ThreadPoolOption, thread_pool_option, init_manager, init_thread_pool,
  on_thread_pool, on_manager, set_mysql_config,
}

module _ ⦃api : MysqlApi⦄ ⦃threads : Threads api.World⦄ ⦃pools : PoolMap⦄
    (laws : MapLaws pools) where
  on_thread_pool_lem :
      (p : MysqlServiceProxy) (t : ThreadPoolOption) (call : api.World → api.World)
      (m : Machine api.World)
      → p.thread_pool ≡ some t
      → Yields (on_thread_pool p call m) λ (_, m'). m'.live ≡ m.live
  unfolding on_thread_pool
  on_thread_pool_lem p t call m e = rw (e, on_thread_pool, Yields) refl

  on_manager_lem :
      (Q : MysqlExecutorPoolManager × Machine api.World → Type 0) (p : MysqlServiceProxy)
      (manager : MysqlExecutorPoolManager)
      (call : MysqlExecutorPoolManager → Io MysqlExecutorPoolManager) (m : Machine api.World)
      → p.pool_manager ≡ some manager
      → Yields (call manager m) Q
      → Yields (on_manager p call m) λ (p', m').
        (ended : MysqlExecutorPoolManager) × (p' ≡ record p { pool_manager = some ended })
        × Q (ended, m')
  unfolding on_manager
  on_manager_lem Q p manager call m e h =
      rw (e, on_manager, Yields)
        (Yields-bind Q _ (call manager) _ m h λ ended m' q. (ended, refl, q))

  -- On a proxy that has been started, if the map of its manager has a pool for each of its keys, which
  -- are different, and the connected objects of all pools have allocated handles, each its own,
  -- SetMysqlConfig returns: exactly the handles of those objects have been freed, and the proxy has
  -- a new thread pool and a new manager with no pool, both made from the new configuration.
  pub set_mysql_config-restarts :
      (p : MysqlServiceProxy) (conf : MysqlClientConf) (t : ThreadPoolOption)
      (manager : MysqlExecutorPoolManager) (ps : List MysqlExecutorPool) (m : Machine api.World)
      → p.thread_pool ≡ some t
      → p.pool_manager ≡ some manager
      → AreDistinct (pools.keys manager.executor_pools)
      → Holds manager.executor_pools (pools.keys manager.executor_pools) ps
      → IsOwned (connections ps) m.live
      → Yields (set_mysql_config p conf m) λ (p', m').
        (p' ≡ record p {
          mysql_conf = conf;
          thread_pool = some (thread_pool_option conf);
          pool_manager = some (Manager.construct (pool_option p.max_conn_num p.idle_time conf));
        })
        × (m'.live ≡ without (connections ps) m.live)
  unfolding set_mysql_config init_thread_pool init_manager
  set_mysql_config-restarts p conf t manager ps m threaded managed apart h o =
      let p₁ : MysqlServiceProxy = record p { mysql_conf = conf } in
      let p₂ : MysqlServiceProxy = record p₁ { thread_pool = none } in
      Yields-then _ _ (on_thread_pool p₁ threads.stop) _ m
        (on_thread_pool_lem p₁ t threads.stop m threaded)
        λ m₁ _ same₁.
          Yields-then _ _ (on_thread_pool p₁ threads.join) _ m₁
            (on_thread_pool_lem p₁ t threads.join m₁ threaded)
            λ m₂ _ same₂.
              Yields-bind _ _ (on_manager p₂ Manager.stop) _ m₂
                (on_manager_lem (StoppedManager laws ps m₂) p₂ manager Manager.stop m₂ managed (
                  stop_lem laws manager ps m₂ apart h
                    (subst (IsOwned (connections ps)) (sym (same₂ ∙ same₁)) o)))
                λ p₃ m₃ (stopped, e₃, ended).
                  Yields-bind _ _ (on_manager p₃ Manager.destroy) _ m₃
                    (on_manager_lem (λ x. x.1.live ≡ without (connections ps) m₂.live) p₃ stopped
                      Manager.destroy m₃ (ap (λ (x : MysqlServiceProxy). x.pool_manager) e₃)
                      (Yields-weaken _ _ (Manager.destroy stopped m₃)
                        (destroy_lem laws stopped ps m₂ m₃ ended) λ x (_, _, left). left))
                    λ p₄ m₄ (gone, e₄, left).
                      rw (e₄, e₃) (refl, left ∙ ap (without (connections ps)) (same₂ ∙ same₁))
