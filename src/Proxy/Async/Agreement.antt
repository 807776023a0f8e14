-- ===== src/Proxy/Async/Agreement.antt =====
-- AsyncQuery and Query agree, in a started transaction whose connection is alive.
use cpp_database.Prelude.{◌≡◌, refl, ap, Bool, true, false, some, if◌then◌else◌}
use cpp_database.Driver.{
  MysqlApi, Machine, Outcome, returns, faults, Ensures-at, Io, pure, when◌then◌else◌, ◌>>=◌,
}
use cpp_database.Executor.{MysqlExecutor, check_alive}
use cpp_database.Executor.Connection.{connect-check_alive-connected}
use cpp_database.Results
use cpp_database.Results.{MysqlResults, ok}
use cpp_database.Framework.{Framework, FilterPoint, client_post_rpc_invoke, effect}
use cpp_database.Transaction.{TransactionHandle, is_started}
use cpp_database.Proxy.{Run, query, query_checked, query_alive, unary_invoke, run_on}
use cpp_database.Proxy.Async.{
  Future, ready, failed, async_around, async_run_on, async_unary_invoke, async_query_alive,
  async_query,
}

-- The filters, the timeout test and the statistics let every call pass and change nothing.
pub record Passes {World : Type 0} (fw : Framework World) : Type 0 where
  pub message_filters :
      (p : FilterPoint) (c : fw.Context) (w : World)
      → fw.run_message_client_filters p c w ≡ ((false, c), w)
  pub filters : (p : FilterPoint) (c : fw.Context) (w : World) → fw.run_filters p c w ≡ ((0, c), w)
  pub timeout : (c : fw.Context) (w : World) → fw.check_timeout c w ≡ ((false, c), w)
  pub statistics : (c : fw.Context) (w : World) → fw.proxy_statistics c w ≡ (c, w)

module _ ⦃api : MysqlApi⦄ ⦃fw : Framework api.World⦄ {Row : Type 0} where
  -- The same handle and machine, and a future that is ready with the results where they are OK, and
  -- has failed with their message where they are not; or the same fault.
  abbrev pub Agree :
      {S : Type 0}
      → Outcome ((fw.Context × S × MysqlResults Row) × Machine api.World)
      → Outcome ((fw.Context × S × Future (MysqlResults Row)) × Machine api.World)
      → Type 0
  Agree (returns ((_, h, res), m)) (returns ((_, h', future), m')) =
      (h' ≡ h) × (future ≡ (if ok res then ready res else failed res.error_message)) × (m' ≡ m)
  Agree (faults f) (faults f') = f' ≡ f
  Agree _ _ = ⊥

  invoke-Agree :
      (ctx : fw.Context) (e : MysqlExecutor) (run : Run Row) (m : Machine api.World)
      (o : Outcome ((MysqlExecutor × MysqlResults Row) × Machine api.World))
      → Passes fw
      → e.is_connected ≡ true
      → run e Results.init m ≡ o
      → Agree (unary_invoke ctx e Results.init run m) (async_unary_invoke ctx e run m)
  unfolding unary_invoke run_on async_unary_invoke async_around async_run_on
  invoke-Agree ctx e run m (returns ((e', res), m')) pass up ran =
      simp (pass.timeout, pass.filters, up)
        (rw (ran, Agree, ◌>>=◌, when◌then◌else◌)
          (simp (pass.statistics, pass.filters) (refl, refl, refl)))
  invoke-Agree ctx e run m (faults f) pass up ran =
      simp (pass.timeout, pass.filters, up) (rw (ran, Agree, ◌>>=◌, when◌then◌else◌) refl)

  -- What Query and AsyncQuery do after the statement.
  abbrev after_query :
      TransactionHandle
      → fw.Context × MysqlExecutor × MysqlResults Row
      → Io (fw.Context × TransactionHandle × MysqlResults Row)
  after_query h (c, e, res) = pure (c, record h { executor = some e }, res)

  abbrev after_async_query :
      TransactionHandle
      → fw.Context × MysqlExecutor × Future (MysqlResults Row)
      → Io (fw.Context × TransactionHandle × Future (MysqlResults Row))
  after_async_query h (c, e, future) = do
    (_, c₂) ← effect (fw.run_filters client_post_rpc_invoke c)
    pure (c₂, record h { executor = some e }, future)

  after-Agree :
      (h : TransactionHandle)
      (o : Outcome ((fw.Context × MysqlExecutor × MysqlResults Row) × Machine api.World))
      (o' : Outcome ((fw.Context × MysqlExecutor × Future (MysqlResults Row)) × Machine api.World))
      → Passes fw
      → Agree o o'
      → Agree
          (elim o [ returns (a, m') ↦ after_query h a m' | faults f ↦ faults f ])
          (elim o' [ returns (a, m') ↦ after_async_query h a m' | faults f ↦ faults f ])
  after-Agree h (returns ((c, e, res), m)) (returns ((c', e', future), m')) pass
        (same_e, same_f, same_m) =
      simp pass.filters
        (ap (λ (x : MysqlExecutor). record h { executor = some x }) same_e, same_f, same_m)
  after-Agree h (returns r) (faults f) pass never = absurd never
  after-Agree h (faults f) (returns r) pass never = absurd never
  after-Agree h (faults f) (faults f') pass same = same

  alive-Agree :
      (ctx : fw.Context) (h : TransactionHandle) (e e' : MysqlExecutor) (run : Run Row)
      (m m₁ : Machine api.World)
      → Passes fw
      → check_alive e m ≡ returns ((true, e'), m₁)
      → Agree
          (query_alive ctx h Results.init run (some e) m)
          (async_query_alive ctx h run (some e) m)
  unfolding query_alive async_query_alive
  alive-Agree ctx h e e' run m m₁ pass alive =
      let up =
        Ensures-at
          (λ (r : (Bool × MysqlExecutor) × Machine api.World).
            r.0.0 ≡ true → r.0.1.is_connected ≡ true)
          (check_alive e m) alive ((connect-check_alive-connected e m).1) refl in
      rw (alive, ◌>>=◌, when◌then◌else◌)
        (after-Agree h (unary_invoke ctx e' Results.init run m₁) (async_unary_invoke ctx e' run m₁)
          pass (invoke-Agree ctx e' run m₁ (run e' Results.init m₁) pass up refl))

  -- The last filters of Query.
  abbrev last_filters :
      fw.Context × TransactionHandle × MysqlResults Row
      → Io (fw.Context × TransactionHandle × MysqlResults Row)
  last_filters (c, h, res) = do
    (_, c₃) ← effect (fw.run_filters client_post_rpc_invoke c)
    pure (c₃, h, res)

  last_filters-Agree :
      (o : Outcome ((fw.Context × TransactionHandle × MysqlResults Row) × Machine api.World))
      (o' : Outcome
        ((fw.Context × TransactionHandle × Future (MysqlResults Row)) × Machine api.World))
      → Passes fw
      → Agree o o'
      → Agree (elim o [ returns (a, m') ↦ last_filters a m' | faults f ↦ faults f ]) o'
  last_filters-Agree (returns ((c, h, res), m)) (returns ((c', h', future), m')) pass same =
      simp pass.filters same
  last_filters-Agree (returns r) (faults f) pass never = absurd never
  last_filters-Agree (faults f) (returns r) pass never = absurd never
  last_filters-Agree (faults f) (faults f') pass same = same

  -- Where the filters, the timeout test and the statistics let every call pass, in a started
  -- transaction whose connection is alive, AsyncQuery and Query on new results do the same: they leave
  -- the same handle and the same machine, with a future that is ready with the results if they are OK
  -- and has failed with their error message if not, or they end in the same fault.
  pub async_query-query :
      (ctx : fw.Context) (h : TransactionHandle) (e e' : MysqlExecutor) (run : Run Row)
      (m m₁ : Machine api.World)
      → Passes fw
      → is_started h.state ≡ true
      → h.executor ≡ some e
      → check_alive e m ≡ returns ((true, e'), m₁)
      → Agree (query ctx h Results.init run m) (async_query ctx h run m)
  unfolding query query_checked async_query
  async_query-query ctx h e e' run m m₁ pass s there alive =
      let c = fw.fill_client_context ctx in
      simp (pass.message_filters, s, there)
        (last_filters-Agree (query_alive c h Results.init run (some e) m)
          (async_query_alive c h run (some e) m) pass (alive-Agree c h e e' run m m₁ pass alive))
