-- ===== src/Proxy/Begin.antt =====
-- MysqlServiceProxy::Begin and InitManager of mysql_service_proxy.cc.
use cpp_database.Prelude.{
  ℕ, ◌≡◌, refl, sym, ap, subst, ◌∙◌, true, not, Option, none, some, arith, ◌==◌,
}
use cpp_database.Prelude.Text.{Bytes, codes}
use cpp_database.Driver.{
  MysqlApi, Machine, returns, Io, pure, Ensures, Ensures-at, when◌then◌else◌, ◌>>=◌, ◌>>◌,
}
use cpp_database.Driver.Rules.{bind_faults, Ensures-bind, Ensures-seq, Ensures-when}
use cpp_database.Executor
use cpp_database.Executor.{MysqlExecutor, execute}
use cpp_database.Results
use cpp_database.Results.{MysqlResults}
use cpp_database.Config.{MysqlClientConf}
use cpp_database.Pool.{MysqlExecutorPool, MysqlExecutorPoolOption, NodeAddr, get_executor}
use cpp_database.Pool.Shards.{destroy_connected}
use cpp_database.Framework.{
  Framework, PoolMap, client_pre_rpc_invoke, client_post_rpc_invoke, client_pre_send_msg, effect,
}
use cpp_database.Manager
use cpp_database.Manager.{MysqlExecutorPoolManager}
use cpp_database.Transaction.{TransactionHandle, started}
use cpp_database.Proxy.{drop, refuse_connection, run_on, unary_invoke, run_text}
use cpp_database.Proxy.Refusals.{get_executor-lost, IsConnectedOrLost, refuse_connection-lost}

-- The option of the pools that InitManager makes, from max_conn_num and idle_time of the proxy's own
-- option and from the configuration.
unfoldable pub pool_option : ℕ → ℕ → MysqlClientConf → MysqlExecutorPoolOption
pool_option max_conn_num idle_time conf = record {
  max_size = max_conn_num;
  max_idle_time = idle_time;
  num_shard_group = conf.num_shard_group;
  dbname = conf.dbname;
  username = conf.user_name;
  password = conf.password;
  char_set = conf.char_set;
}

module _ ⦃api : MysqlApi⦄ ⦃fw : Framework api.World⦄ where
  -- The address of the context, or of a new context for which a target is selected; `none`, with the
  -- status of that context, when none is found.
  unfoldable pub find_target : fw.Context → Io (fw.Context × Option NodeAddr)
  find_target ctx = when not (fw.ip_empty ctx) then pure (ctx, some (fw.get_node_addr ctx)) else do
    (found, temp_ctx) ← effect (fw.select_target (fw.fill_client_context fw.new_context))
    when found
        then pure (ctx, some (fw.get_node_addr temp_ctx))
        else pure (fw.set_status ctx (fw.get_status temp_ctx), none)

  -- The end of Begin: a new handle takes the connection if the status is OK; if not, the connection
  -- is destroyed on return, and the caller's handle is kept.
  unfoldable pub conclude :
      fw.Context
      → MysqlExecutor
      → Option TransactionHandle
      → Io (fw.Context × Option TransactionHandle)
  conclude ctx e handle = do
    (_, c) ← effect (fw.run_filters client_post_rpc_invoke ctx)
    when fw.status_ok (fw.get_status ctx)
        then pure (c, some (record { executor = some e; state = started }))
        else (do drop (some e); pure (c, handle))

module _ ⦃api : MysqlApi⦄ ⦃fw : Framework api.World⦄ ⦃pools : PoolMap⦄ where
  -- The statement on the new connection.
  unfoldable pub send_begin : fw.Context → MysqlExecutor → Io (fw.Context × MysqlExecutor)
  send_begin ctx e =
      when not e.is_connected then (do c ← refuse_connection ctx e; pure (c, e)) else (do
        (c, e', res) ← unary_invoke ctx e Results.init (run_text (codes "begin"))
        pure (c, e'))

  -- Begin at an address.
  unfoldable pub begin_at :
      fw.Context
      → MysqlExecutorPoolManager
      → NodeAddr
      → Option TransactionHandle
      → Io (fw.Context × MysqlExecutorPoolManager × Option TransactionHandle)
  begin_at ctx manager node_addr handle = do
    (pool, m₁) ← Manager.get manager node_addr
    (e, pool') ← get_executor pool
    (c, e') ← send_begin ctx e
    (c', handle') ← conclude c e' handle
    pure (c', Manager.put m₁ node_addr pool', handle')

  unfoldable pub begin_found :
      fw.Context
      → MysqlExecutorPoolManager
      → Option NodeAddr
      → Option TransactionHandle
      → Io (fw.Context × MysqlExecutorPoolManager × Option TransactionHandle)
  begin_found ctx manager none handle = pure (ctx, manager, handle)
  begin_found ctx manager (some node_addr) handle = begin_at ctx manager node_addr handle

  -- The handle is the caller's; it is written only where a transaction starts.
  unfoldable pub begin :
      fw.Context
      → MysqlExecutorPoolManager
      → Option TransactionHandle
      → Io (fw.Context × MysqlExecutorPoolManager × Option TransactionHandle)
  begin ctx manager handle = do
    (reject, c₁) ←
        effect (fw.run_message_client_filters client_pre_rpc_invoke (fw.fill_client_context ctx))
    when reject
        then (do
          (_, c₂) ← effect (fw.run_filters client_post_rpc_invoke c₁)
          pure (c₂, manager, handle))
        else (do (c₂, target) ← find_target c₁; begin_found c₂ manager target handle)

  pub run_text-keeps :
      (sql : Bytes) (e : MysqlExecutor) (res : MysqlResults (Unit {0})) (m : Machine api.World)
      → Ensures (run_text sql e res m) λ ((e', _), _). e' ≡ e
  run_text-keeps sql e res m = Ensures-bind _ (execute e res sql) _ m λ r m' _. refl

  run_on-keeps :
      (ctx : fw.Context) (sql : Bytes) (e : MysqlExecutor) (res : MysqlResults (Unit {0}))
      (m : Machine api.World)
      → Ensures (run_on ctx e res (run_text sql) m) λ ((_, e', _), _). e' ≡ e
  unfolding run_on
  run_on-keeps ctx sql e res m =
      Ensures-when _ (not e.is_connected) _ _ m
        (λ _. Ensures-bind _ (refuse_connection ctx e) _ m λ c m' _. refl)
        (λ _.
          Ensures-seq _ _ (run_text sql e res) _ m (run_text-keeps sql e res m) λ r m' same. same)

  unary_invoke-keeps :
      (ctx : fw.Context) (sql : Bytes) (e : MysqlExecutor) (res : MysqlResults (Unit {0}))
      (m : Machine api.World)
      → Ensures (unary_invoke ctx e res (run_text sql) m) λ ((_, e', _), _). e' ≡ e
  unfolding unary_invoke
  unary_invoke-keeps ctx sql e res m =
      let t = fw.check_timeout ctx m.world in
      let m₁ : Machine api.World = record m { world = t.1 } in
      Ensures-when _ t.0.0 _ _ m₁ (λ _. refl)
        λ _.
          let f = fw.run_filters client_pre_send_msg t.0.1 t.1 in
          let m₂ : Machine api.World = record m { world = f.1 } in
          Ensures-when _ (not (f.0.0 == 0)) _ _ m₂ (λ _. refl)
            λ _.
              Ensures-seq _ _ (run_on f.0.1 e res (run_text sql)) _ m₂
                (run_on-keeps f.0.1 sql e res m₂) λ r m₃ same. same

  -- What the statement has left, of the context and the object that it was given.
  abbrev Sent : fw.Context → MysqlExecutor → Machine api.World → fw.Context → MysqlExecutor → Type 0
  Sent ctx e₀ m c e =
      (res : MysqlResults (Unit {0})) × (m' : Machine api.World) × (unary_invoke ctx e₀ Results.init
          (run_text (codes "begin")) m
        ≡ returns ((c, e, res), m'))

  -- The statement has returned on a connected object, with a status that is OK, and the handle is of
  -- a started transaction on that object.
  abbrev pub StartsOn :
      fw.Context → MysqlExecutor → Machine api.World → Option TransactionHandle → Type 0
  StartsOn ctx e₀ m handle =
      (e : MysqlExecutor) × (e.is_connected ≡ true)
      × (handle ≡ some (record { executor = some e; state = started }))
      × ((c : fw.Context) × Sent ctx e₀ m c e × (fw.status_ok (fw.get_status c) ≡ true))

  -- This has happened with the object that the pool of the address has handed out.
  abbrev pub Starts :
      fw.Context
      → MysqlExecutorPoolManager
      → NodeAddr
      → Machine api.World
      → Option TransactionHandle
      → Type 0
  Starts ctx manager node_addr m handle =
      (pool pool' : MysqlExecutorPool) × (manager' : MysqlExecutorPoolManager)
      × (e₀ : MysqlExecutor) × (m₁ m₂ : Machine api.World) × (Manager.get manager node_addr m
          ≡ returns ((pool, manager'), m₁))
      × (get_executor pool m₁ ≡ returns ((e₀, pool'), m₂))
      × StartsOn ctx e₀ m₂ handle

  -- A connected object, and a status that need not be OK.
  send_begin-connected :
      (ctx : fw.Context) (e : MysqlExecutor) (m : Machine api.World)
      → IsConnectedOrLost e m
      → Ensures (send_begin ctx e m) λ ((c, e'), _). (e'.is_connected ≡ true) × Sent ctx e m c e'
  unfolding send_begin
  send_begin-connected ctx e m lost =
      Ensures-when _ (not e.is_connected) _ _ m
        (λ down.
          subst (λ o. Ensures o (λ r. (r.0.1.is_connected ≡ true) × Sent ctx e m r.0.0 r.0.1))
            (sym (
              bind_faults (refuse_connection ctx e) (λ c. pure (c, e)) m
                (refuse_connection-lost ctx e m lost (ground arith))))
            tt)
        λ up.
          Ensures-bind _ (unary_invoke ctx e Results.init (run_text (codes "begin"))) _ m
            λ (c, e', res) m' ran.
              let same =
                Ensures-at (λ ((_, x, _), _). x ≡ e)
                  (unary_invoke ctx e Results.init (run_text (codes "begin")) m) ran
                  (unary_invoke-keeps ctx (codes "begin") e Results.init m) in
              (ap (λ (x : MysqlExecutor). x.is_connected) same ∙ ground arith, (res, m', ran))

  conclude-StartsOn :
      (ctx : fw.Context) (e₀ : MysqlExecutor) (m₀ : Machine api.World) (c : fw.Context)
      (e : MysqlExecutor) (handle : Option TransactionHandle) (m : Machine api.World)
      → e.is_connected ≡ true
      → Sent ctx e₀ m₀ c e
      → Ensures (conclude c e handle m) λ ((_, handle'), _). StartsOn ctx e₀ m₀ handle'
  unfolding conclude drop
  conclude-StartsOn ctx e₀ m₀ c e handle m up sent =
      Ensures-when _ (fw.status_ok (fw.get_status c)) _ _ _ (λ good. (e, up, refl, (c, sent, good)))
        λ _.
          let (r, w) = fw.run_filters client_post_rpc_invoke c m.world in
          let m' : Machine api.World = record m { world = w } in
          subst (λ o. Ensures o (λ x. StartsOn ctx e₀ m₀ x.0.1))
            (sym (
              bind_faults (Executor.destroy e) (λ _. pure (r.1, handle)) m'
                (destroy_connected e m' up)))
            tt

  -- Once Begin has an address it returns only with a handle of a started transaction on a connected
  -- object, on which the statement has returned with a status that is OK; it was run on the object that
  -- the pool of the address has handed out. Where the connection fails, or the status after the
  -- statement is not OK, Begin does not return.
  pub begin_at-Starts :
      (ctx : fw.Context) (manager : MysqlExecutorPoolManager) (node_addr : NodeAddr)
      (handle : Option TransactionHandle) (m : Machine api.World)
      → Ensures
          (begin_at ctx manager node_addr handle m)
          λ ((_, _, handle'), _). Starts ctx manager node_addr m handle'
  unfolding begin_at
  begin_at-Starts ctx manager node_addr handle m =
      Ensures-bind _ (Manager.get manager node_addr) _ m λ (pool, manager') m₁ found.
        Ensures-bind _ (get_executor pool) _ m₁ λ (e, pool') m₂ handed.
          let lost =
            Ensures-at (λ ((x, _), m'). IsConnectedOrLost x m') (get_executor pool m₁) handed
              (get_executor-lost pool m₁) in
          Ensures-seq _ _ (send_begin ctx e) _ m₂ (send_begin-connected ctx e m₂ lost)
            λ (c, e') m₃ (up, sent).
              Ensures-seq _ _ (conclude c e' handle) _ m₃
                (conclude-StartsOn ctx e m₂ c e' handle m₃ up sent)
                λ r m₄ starts. (pool, pool', manager', e, m₁, m₂, found, handed, starts)
