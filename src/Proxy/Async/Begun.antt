-- ===== src/Proxy/Async/Begun.antt =====
-- MysqlServiceProxy::AsyncBegin of mysql_service_proxy.cc.
use cpp_database.Prelude.{
  ◌≡◌, refl, sym, subst, ap, ◌∙◌, true, false, not, Option, none, some, arith, ◌==◌,
}
use cpp_database.Prelude.Text.{Bytes, codes}
use cpp_database.Driver.{
  MysqlApi, Machine, returns, Io, pure, Ensures, Ensures-at, when◌then◌else◌, ◌>>=◌, ◌>>◌,
}
use cpp_database.Driver.Rules.{bind_faults, Ensures-bind, Ensures-seq, Ensures-when}
use cpp_database.Executor
use cpp_database.Executor.{MysqlExecutor, get_error_message}
use cpp_database.Results
use cpp_database.Results.{MysqlResults, ok}
use cpp_database.Pool.{MysqlExecutorPool, NodeAddr, get_executor}
use cpp_database.Pool.Shards.{destroy_connected}
use cpp_database.Framework.{Framework, PoolMap, client_pre_rpc_invoke, client_pre_send_msg, effect}
use cpp_database.Manager
use cpp_database.Manager.{MysqlExecutorPoolManager}
use cpp_database.Transaction.{TransactionHandle, started}
use cpp_database.Proxy.{drop, run_text}
use cpp_database.Proxy.Begin.{find_target, run_text-keeps}
use cpp_database.Proxy.Refusals.{get_executor-lost, IsConnectedOrLost}
use cpp_database.Proxy.Async.{
  Future, ready, failed, refusal, refuse, reject_call, async_run_on, async_around,
  async_unary_invoke,
}

module _ ⦃api : MysqlApi⦄ ⦃fw : Framework api.World⦄ where
  -- What is chained to the statement: a new handle takes the connection; if the future has failed,
  -- the connection is destroyed with the function that holds it.
  unfoldable pub async_conclude :
      fw.Context × MysqlExecutor × Future (MysqlResults (Unit {0}))
      → Io (fw.Context × Future TransactionHandle)
  async_conclude (ctx, e, failed text) = do drop (some e); pure (ctx, failed text)
  async_conclude (ctx, e, ready res) =
      pure (ctx, ready (record { executor = some e; state = started }))

module _ ⦃api : MysqlApi⦄ ⦃fw : Framework api.World⦄ ⦃pools : PoolMap⦄ where
  -- AsyncBegin on a connection of the pool.
  unfoldable pub async_send_begin :
      fw.Context → MysqlExecutor → Io (fw.Context × Future TransactionHandle)
  unfolding refuse async_unary_invoke async_conclude
  async_send_begin ctx e =
      when not e.is_connected
      then (do (c, future) ← refuse ctx e; drop (some e); pure (c, future))
      else async_unary_invoke ctx e (run_text (codes "begin")) >>= async_conclude

  -- AsyncBegin at an address.
  unfoldable pub async_begin_at :
      fw.Context
      → MysqlExecutorPoolManager
      → NodeAddr
      → Io (fw.Context × MysqlExecutorPoolManager × Future TransactionHandle)
  unfolding async_send_begin
  async_begin_at ctx manager node_addr = do
    (pool, m₁) ← Manager.get manager node_addr
    (e, pool') ← get_executor pool
    (c, future) ← async_send_begin ctx e
    pure (c, Manager.put m₁ node_addr pool', future)

  unfoldable pub async_begin_found :
      fw.Context
      → MysqlExecutorPoolManager
      → Option NodeAddr
      → Io (fw.Context × MysqlExecutorPoolManager × Future TransactionHandle)
  unfolding async_begin_at
  async_begin_found ctx manager none =
      pure (ctx, manager, failed (fw.to_string (fw.get_status ctx)))
  async_begin_found ctx manager (some node_addr) = async_begin_at ctx manager node_addr

  unfoldable pub async_begin :
      fw.Context
      → MysqlExecutorPoolManager
      → Io (fw.Context × MysqlExecutorPoolManager × Future TransactionHandle)
  unfolding reject_call find_target async_begin_found
  async_begin ctx manager = do
    (reject, c₁) ←
        effect (fw.run_message_client_filters client_pre_rpc_invoke (fw.fill_client_context ctx))
    when reject
        then (do (c, future) ← reject_call c₁; pure (c, manager, future))
        else (do (c₂, target) ← find_target c₁; async_begin_found c₂ manager target)

  async_run_on-keeps :
      (sql : Bytes) (ctx : fw.Context) (e : MysqlExecutor) (m : Machine api.World)
      → Ensures (async_run_on (run_text sql) ctx e m) λ ((_, e', _), _). e' ≡ e
  unfolding async_run_on
  async_run_on-keeps sql ctx e m =
      Ensures-when _ (not e.is_connected) _ _ m
        (λ _. Ensures-bind _ (refuse ctx e) _ m λ c m' _. refl)
        (λ _.
          Ensures-seq _ _ (run_text sql e Results.init) _ m (run_text-keeps sql e Results.init m)
            λ r m' same. same)

  async_unary_invoke-keeps :
      (ctx : fw.Context) (sql : Bytes) (e : MysqlExecutor) (m : Machine api.World)
      → Ensures (async_unary_invoke ctx e (run_text sql) m) λ ((_, e', _), _). e' ≡ e
  unfolding async_unary_invoke async_around
  async_unary_invoke-keeps ctx sql e m =
      let t = fw.check_timeout ctx m.world in
      let m₁ : Machine api.World = record m { world = t.1 } in
      Ensures-when _ t.0.0 _ _ m₁ (λ _. refl)
        λ _.
          let f = fw.run_filters client_pre_send_msg t.0.1 t.1 in
          let m₂ : Machine api.World = record m { world = f.1 } in
          Ensures-when _ (not (f.0.0 == 0)) _ _ m₂ (λ _. refl)
            λ _.
              Ensures-seq _ _ (async_run_on (run_text sql) f.0.1 e) _ m₂
                (async_run_on-keeps sql f.0.1 e m₂) λ r m₃ same. same

  -- The future of the statement is ready on a connected object, and the future of AsyncBegin is ready
  -- with a started transaction on that object.
  abbrev pub StartsLaterOn :
      fw.Context → MysqlExecutor → Machine api.World → Future TransactionHandle → Type 0
  StartsLaterOn ctx e₀ m future =
      (e : MysqlExecutor) × (e.is_connected ≡ true)
      × (future ≡ ready (record { executor = some e; state = started }))
      × ((c : fw.Context) × (res : MysqlResults (Unit {0})) × (m' : Machine api.World)
          × (async_unary_invoke ctx e₀ (run_text (codes "begin")) m
              ≡ returns ((c, e, ready res), m')))

  -- This has happened with the object that the pool of the address has handed out.
  abbrev pub StartsLater :
      fw.Context
      → MysqlExecutorPoolManager
      → NodeAddr
      → Machine api.World
      → Future TransactionHandle
      → Type 0
  StartsLater ctx manager node_addr m future =
      (pool pool' : MysqlExecutorPool) × (manager' : MysqlExecutorPoolManager)
      × (e₀ : MysqlExecutor) × (m₁ m₂ : Machine api.World) × (Manager.get manager node_addr m
          ≡ returns ((pool, manager'), m₁))
      × (get_executor pool m₁ ≡ returns ((e₀, pool'), m₂))
      × StartsLaterOn ctx e₀ m₂ future

  async_conclude-StartsLaterOn :
      (ctx ctx₀ : fw.Context) (e e₀ : MysqlExecutor) (future : Future (MysqlResults (Unit {0})))
      (m m₀ : Machine api.World)
      → e.is_connected ≡ true
      → async_unary_invoke ctx₀ e₀ (run_text (codes "begin")) m₀ ≡ returns ((ctx, e, future), m)
      → Ensures (async_conclude (ctx, e, future) m) λ ((_, done), _). StartsLaterOn ctx₀ e₀ m₀ done
  unfolding async_conclude drop
  async_conclude-StartsLaterOn ctx ctx₀ e e₀ (ready res) m m₀ up ran =
      (e, up, refl, (ctx, res, m, ran))
  async_conclude-StartsLaterOn ctx ctx₀ e e₀ (failed text) m m₀ up ran =
      subst (λ o. Ensures o (λ x. StartsLaterOn ctx₀ e₀ m₀ x.0.1))
        (sym (
          bind_faults (Executor.destroy e) (λ _. pure (ctx, failed text)) m
            (destroy_connected e m up)))
        tt

  refuse-lost :
      (P : (fw.Context × Future TransactionHandle) × Machine api.World → Type 0) (ctx : fw.Context)
      (e : MysqlExecutor) (m : Machine api.World)
      (k : fw.Context × Future TransactionHandle → Io (fw.Context × Future TransactionHandle))
      → IsConnectedOrLost e m
      → e.is_connected ≡ false
      → Ensures ((refuse ctx e >>= k) m) P
  unfolding refuse
  refuse-lost P ctx e m k lost down =
      subst (λ o. Ensures o P)
        (sym (
          bind_faults (refuse ctx e) k m
            (bind_faults (get_error_message e) (refusal ctx e) m (lost down))))
        tt

  async_send_begin-StartsLaterOn :
      (ctx : fw.Context) (e : MysqlExecutor) (m : Machine api.World)
      → IsConnectedOrLost e m
      → Ensures (async_send_begin ctx e m) λ ((_, done), _). StartsLaterOn ctx e m done
  unfolding async_send_begin
  async_send_begin-StartsLaterOn ctx e m lost =
      Ensures-when _ (not e.is_connected) _ _ m
        (λ down.
          refuse-lost (λ ((_, done), _). StartsLaterOn ctx e m done) ctx e m
            (λ r. drop (some e) >> pure r) lost (ground arith))
        λ up.
          Ensures-bind _ (async_unary_invoke ctx e (run_text (codes "begin"))) _ m
            λ (c, e', future) m' ran.
              let same =
                Ensures-at (λ ((_, x, _), _). x ≡ e)
                  (async_unary_invoke ctx e (run_text (codes "begin")) m) ran
                  (async_unary_invoke-keeps ctx (codes "begin") e m) in
              async_conclude-StartsLaterOn c ctx e' e future m' m
                (ap (λ (x : MysqlExecutor). x.is_connected) same ∙ ground arith) ran

  -- Once AsyncBegin has an address, it ends only with a future that is ready, with a handle of a
  -- started transaction on a connected object, on which the statement has ended with a future that is
  -- ready; it was run on the object that the pool of the address has handed out. Where the connection
  -- fails, or the future of the statement has failed, the call does not return a failed future: it ends
  -- in a fault.
  pub async_begin_at-StartsLater :
      (ctx : fw.Context) (manager : MysqlExecutorPoolManager) (node_addr : NodeAddr)
      (m : Machine api.World)
      → Ensures
          (async_begin_at ctx manager node_addr m)
          λ ((_, _, done), _). StartsLater ctx manager node_addr m done
  unfolding async_begin_at
  async_begin_at-StartsLater ctx manager node_addr m =
      Ensures-bind _ (Manager.get manager node_addr) _ m λ (pool, manager') m₁ found.
        Ensures-bind _ (get_executor pool) _ m₁ λ (e, pool') m₂ handed.
          let lost =
            Ensures-at (λ ((x, _), m'). IsConnectedOrLost x m') (get_executor pool m₁) handed
              (get_executor-lost pool m₁) in
          Ensures-seq _ _ (async_send_begin ctx e) _ m₂
            (async_send_begin-StartsLaterOn ctx e m₂ lost)
            λ r m₃ starts. (pool, pool', manager', e, m₁, m₂, found, handed, starts)
