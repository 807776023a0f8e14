-- ===== src/Proxy/Pooled/Served.antt =====
-- Query outside a transaction, on an idle connection of the pool.
use cpp_database.Prelude.{
  ℕ, suc, ◌%◌, ◌≡◌, refl, sym, ap, ◌∙◌, subst, true, false, none, some, ◌∷◌, length, get_elem?,
  get_elem?-set, set, set-set, ◌==◌, leb, ◌&&◌, not, arith, if◌then◌else◌,
}
use cpp_database.Driver.{MysqlApi, Machine, returns, when◌then◌else◌, ◌>>=◌}
use cpp_database.Driver.Calls.{contains}
use cpp_database.Driver.Rules.{bind_returns, when_false}
use cpp_database.Executor.{MysqlExecutor, check_alive, refresh_alive_time}
use cpp_database.Pool.{
  NodeAddr, MysqlExecutorPool, Shard, shard_at, is_usable, is_idle_timeout, take_idle, next_u32,
  shard_id_of, get_executor, get_or_create, hand_out, reclaim, conn_retry_num,
}
use cpp_database.Results.{MysqlResults, ok}
use cpp_database.Framework.{Framework, PoolMap}
use cpp_database.Manager
use cpp_database.Manager.{MysqlExecutorPoolManager, endpoint}
use cpp_database.Proxy.{Run, drop, note_error}
use cpp_database.Proxy.Async.Agreement.{Passes}
use cpp_database.Proxy.Pooled.{run_from_pool, unary_invoke_pooled, query_pooled}

module _ ⦃api : MysqlApi⦄ where
  -- The connection answers, and has not been idle for too long; the world is then `w`.
  pub record Answers (e : MysqlExecutor) (max_idle_time : ℕ) (m : Machine api.World) (w : api.World)
      : Type 0 where
    pub handle : ℕ
    pub after_ping : api.World
    pub connected : e.is_connected ≡ true
    pub pointer : e.mysql ≡ some handle
    pub live : contains handle m.live ≡ true
    pub pings : api.ping handle m.world ≡ (true, after_ping)
    pub fresh :
        is_idle_timeout max_idle_time e (record m { world = after_ping })
        ≡ returns (false, record m { world = w })

  check_alive_returns :
      (e : MysqlExecutor) (h : ℕ) (m : Machine api.World) (w : api.World)
      → e.is_connected ≡ true
      → e.mysql ≡ some h
      → contains h m.live ≡ true
      → api.ping h m.world ≡ (true, w)
      → check_alive e m ≡ returns ((true, e), record m { world = w })
  unfolding check_alive
  check_alive_returns e h m w connected pointer live pings = ground arith

  take_idle_returns :
      (max_idle_time n : ℕ) (e : MysqlExecutor) (shard : Shard) (m : Machine api.World)
      (w : api.World)
      → Answers e max_idle_time m w
      → take_idle max_idle_time (suc n) (e ∷ shard) m
        ≡ returns ((some e, shard), record m { world = w })
  unfolding take_idle is_usable
  take_idle_returns T n e shard m w a =
      rw
        (
          check_alive_returns e a.handle m a.after_ping a.connected a.pointer a.live a.pings,
          ◌>>=◌,
          a.fresh,
        )
        refl

  -- A pool that has an idle connection where GetExecutor looks first.
  pub record Offers (p : MysqlExecutorPool) (e : MysqlExecutor) (shard : Shard) : Type 0 where
    pub some_group : (p.num_shard_group == 0) ≡ false
    pub found : get_elem? p.shards (p.shard_id_gen % p.num_shard_group) ≡ some (e ∷ shard)

  -- The pool after it has handed out that connection.
  abbrev pub handed : MysqlExecutorPool → Shard → MysqlExecutorPool
  handed p shard = record p {
    shard_id_gen = next_u32 p.shard_id_gen;
    shards = set p.shards (p.shard_id_gen % p.num_shard_group) shard;
  }

  shard_at_returns :
      (p : MysqlExecutorPool) (shard_id : ℕ) (shard : Shard) (m : Machine api.World)
      → (p.num_shard_group == 0) ≡ false
      → get_elem? p.shards (shard_id % p.num_shard_group) ≡ some shard
      → shard_at p shard_id m ≡ returns ((shard_id % p.num_shard_group, shard), m)
  unfolding shard_at
  shard_at_returns p shard_id shard m some_group at = rw (some_group, shard_at, at) refl

  pub get_executor_returns :
      (p : MysqlExecutorPool) (e : MysqlExecutor) (shard : Shard) (m : Machine api.World)
      (w : api.World)
      → Offers p e shard
      → Answers e p.max_idle_time m w
      → get_executor p m ≡ returns ((e, handed p shard), record m { world = w })
  unfolding get_executor get_or_create hand_out
  get_executor_returns p e shard m w offers a =
      let p' : MysqlExecutorPool = record p { shard_id_gen = next_u32 p.shard_id_gen } in
      bind_returns (shard_at p' p.shard_id_gen) _ m
        (shard_at_returns p' p.shard_id_gen (e ∷ shard) m offers.some_group offers.found)
      ∙ bind_returns (take_idle p.max_idle_time conn_retry_num (e ∷ shard)) _ m
          (take_idle_returns p.max_idle_time 2 e shard m w a)

  -- The pool after the connection has been given back to the same shard.
  abbrev pub returned : MysqlExecutorPool → MysqlExecutor → Shard → MysqlExecutorPool
  returned p e shard = record p {
    shard_id_gen = next_u32 p.shard_id_gen;
    shards = set p.shards (p.shard_id_gen % p.num_shard_group) (e ∷ shard);
  }

  reclaim_returns :
      (p : MysqlExecutorPool) (e e' : MysqlExecutor) (shard : Shard) (m : Machine api.World)
      → Offers p e shard
      → shard_id_of e'.executor_id % p.num_shard_group ≡ p.shard_id_gen % p.num_shard_group
      → leb (length shard) p.max_num_per_shard && leb p.executor_num p.max_size ≡ true
      → reclaim (handed p shard) 0 e' m
        ≡ returns (
          (none, returned p (record e' { alivetime = (api.steady_milliseconds m.world).0 }) shard),
          record m { world = (api.steady_milliseconds m.world).1 },
        )
  unfolding reclaim refresh_alive_time
  reclaim_returns p e e' shard m offers place room =
      let i = p.shard_id_gen % p.num_shard_group in
      let there = get_elem?-set p.shards i (e ∷ shard) shard offers.found in
      bind_returns (shard_at (handed p shard) (shard_id_of e'.executor_id)) _ m (
        shard_at_returns (handed p shard) (shard_id_of e'.executor_id) shard m offers.some_group
          (subst (λ j. get_elem? (set p.shards i shard) j ≡ some shard) (sym place) there))
      ∙ rw (room, place, set-set) refl

module _ ⦃api : MysqlApi⦄ ⦃pools : PoolMap⦄ where
  get_returns :
      (manager : MysqlExecutorPoolManager) (addr : NodeAddr) (p : MysqlExecutorPool)
      (m : Machine api.World)
      → pools.get manager.executor_pools (endpoint addr) ≡ some p
      → Manager.get manager addr m ≡ returns ((p, manager), m)
  unfolding Manager.get
  get_returns manager addr p m held = rw (held, Manager.get) refl

module _ ⦃api : MysqlApi⦄ ⦃fw : Framework api.World⦄ ⦃pools : PoolMap⦄ {Row : Type 0} where
  run_from_pool_returns :
      (ctx : fw.Context) (manager : MysqlExecutorPoolManager) (p : MysqlExecutorPool)
      (e e' : MysqlExecutor) (shard : Shard) (res res' : MysqlResults Row) (run : Run Row)
      (m m' : Machine api.World) (w : api.World)
      → pools.get manager.executor_pools (endpoint (fw.get_node_addr ctx)) ≡ some p
      → Offers p e shard
      → Answers e p.max_idle_time m w
      → run e res (record m { world = w }) ≡ returns ((e', res'), m')
      → shard_id_of e'.executor_id % p.num_shard_group ≡ p.shard_id_gen % p.num_shard_group
      → leb (length shard) p.max_num_per_shard && leb p.executor_num p.max_size ≡ true
      → run_from_pool ctx manager res run m
        ≡ returns (
          (
            ctx,
            Manager.put manager
                (fw.get_node_addr ctx)
                (returned p (record e' { alivetime = (api.steady_milliseconds m'.world).0 }) shard),
            res',
          ),
          record m' { world = (api.steady_milliseconds m'.world).1 },
        )
  unfolding run_from_pool drop
  run_from_pool_returns ctx manager p e e' shard res res' run m m' w held offers a ran place room =
      bind_returns (Manager.get manager (fw.get_node_addr ctx)) _ m (get_returns manager _ p m held)
      ∙ bind_returns (get_executor p) _ m (get_executor_returns p e shard m w offers a)
      ∙ when_false (not e.is_connected) _ _ (record m { world = w }) (ap not a.connected)
      ∙ bind_returns (run e res) _ (record m { world = w }) ran
      ∙ bind_returns (reclaim (handed p shard) 0 e') _ m'
          (reclaim_returns p e e' shard m' offers place room)

  unary_invoke_pooled_returns :
      (ctx ctx' : fw.Context) (manager manager' : MysqlExecutorPoolManager)
      (res res' : MysqlResults Row) (run : Run Row) (m m' : Machine api.World)
      → Passes fw
      → run_from_pool ctx manager res run m ≡ returns ((ctx', manager', res'), m')
      → unary_invoke_pooled ctx manager res run m
        ≡ returns ((note_error ctx' res', manager', res'), m')
  unfolding unary_invoke_pooled
  unary_invoke_pooled_returns ctx ctx' manager manager' res res' run m m' pass served =
      simp (pass.timeout, pass.filters)
        (rw (served, ◌>>=◌, when◌then◌else◌) (simp (pass.statistics, pass.filters)))

  -- Where the filters, the timeout test and the statistics let every call pass, and the pool of the
  -- address has an idle connection where it looks first, which answers and has not been idle for too
  -- long, a call outside a transaction runs its statement once, on that connection. If the statement
  -- returns with a connection of the same shard, and the pool has room for it, the call returns what
  -- the statement left in the results. The context keeps its status if these results are OK, and has
  -- their error number and message as its status if not. The connection is back at its place, with a
  -- new alive time; of the pool only the number of the next shard to look in has changed besides.
  pub query_pooled-served :
      (ctx : fw.Context) (manager : MysqlExecutorPoolManager) (p : MysqlExecutorPool)
      (e e' : MysqlExecutor) (shard : Shard) (res res' : MysqlResults Row) (run : Run Row)
      (m m' : Machine api.World) (w : api.World)
      → Passes fw
      → pools.get manager.executor_pools (endpoint (fw.get_node_addr (fw.fill_client_context ctx)))
        ≡ some p
      → Offers p e shard
      → Answers e p.max_idle_time m w
      → run e res (record m { world = w }) ≡ returns ((e', res'), m')
      → shard_id_of e'.executor_id % p.num_shard_group ≡ p.shard_id_gen % p.num_shard_group
      → leb (length shard) p.max_num_per_shard && leb p.executor_num p.max_size ≡ true
      → query_pooled ctx manager res run m
        ≡ returns (
          (
            (if ok res'
                then fw.fill_client_context ctx
                else fw.set_status
                    (fw.fill_client_context ctx)
                    (fw.framework_status res'.error_number res'.error_message)),
            Manager.put manager
                (fw.get_node_addr (fw.fill_client_context ctx))
                (returned p (record e' { alivetime = (api.steady_milliseconds m'.world).0 }) shard),
            res',
          ),
          record m' { world = (api.steady_milliseconds m'.world).1 },
        )
  unfolding query_pooled
  query_pooled-served ctx manager p e e' shard res res' run m m' w pass held offers a ran place
        room =
      let c = fw.fill_client_context ctx in
      let after = record m' { world = (api.steady_milliseconds m'.world).1 } in
      let served =
        run_from_pool_returns c manager p e e' shard res res' run m m' w held offers a ran place
          room in
      simp pass.message_filters (
        rw (unary_invoke_pooled_returns c c manager _ res res' run m after pass served, ◌>>=◌)
          (simp pass.filters))
