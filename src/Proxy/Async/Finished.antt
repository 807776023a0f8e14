-- ===== src/Proxy/Async/Finished.antt =====
-- The state of a transaction through AsyncQuery, AsyncCommit and AsyncRollback.
use cpp_database.Prelude.{
  ◌≡◌, refl, ◌⊎◌, inl, inr, Bool, true, false, not, Option, none, some, arith,
}
use cpp_database.Prelude.Text.{Bytes, codes}
use cpp_database.Driver.{MysqlApi, Machine, Ensures}
use cpp_database.Driver.Rules.{Ensures-bind, Ensures-seq, Ensures-when}
use cpp_database.Executor.{MysqlExecutor, check_alive}
use cpp_database.Results.{MysqlResults}
use cpp_database.Framework.{Framework, PoolMap, client_pre_rpc_invoke}
use cpp_database.Manager.{MysqlExecutorPoolManager}
use cpp_database.Transaction.{TransactionHandle, roll_backed, is_started}
use cpp_database.Proxy.{Run, run_text, end_transaction}
use cpp_database.Proxy.Transactions.{ended, end_transaction-state}
use cpp_database.Proxy.Async.{
  Future, ready, failed, reject_call, async_unary_invoke, async_query_alive, async_query,
}
use cpp_database.Proxy.Async.Ending.{async_settle, async_finish, async_commit, async_rollback}

abbrev pub IsReady : {A : Type 0} → Future A → Type 0
IsReady (ready a) = Unit
IsReady (failed text) = ⊥

abbrev pub IsFailed : {A : Type 0} → Future A → Type 0
IsFailed (ready a) = ⊥
IsFailed (failed text) = Unit

module _ ⦃api : MysqlApi⦄ ⦃fw : Framework api.World⦄ {Row : Type 0} where
  -- How AsyncQuery may leave the handle and its future.
  abbrev pub AsyncLeaves :
      TransactionHandle → TransactionHandle → Future (MysqlResults Row) → Type 0
  AsyncLeaves h h' future =
      (IsFailed future × ((h' ≡ h) ⊎ (h'.state ≡ roll_backed)))
      ⊎ ((is_started h.state ≡ true) × (h'.state ≡ h.state))

  async_query_alive-AsyncLeaves :
      (ctx : fw.Context) (h : TransactionHandle) (run : Run Row) (e : Option MysqlExecutor)
      (m : Machine api.World)
      → is_started h.state ≡ true
      → Ensures (async_query_alive ctx h run e m) λ ((_, h', future), _). AsyncLeaves h h' future
  unfolding async_query_alive
  async_query_alive-AsyncLeaves ctx h run none m s = tt
  async_query_alive-AsyncLeaves ctx h run (some e) m s =
      Ensures-bind _ (check_alive e) _ m λ (alive, e') m' _.
        Ensures-when _ (not alive) _ _ m' (λ _. inl (tt, inr refl))
          λ _. Ensures-bind _ (async_unary_invoke ctx e' run) _ m' λ r m'' _. inr (s, refl)

  pub async_query-AsyncLeaves :
      (ctx : fw.Context) (h : TransactionHandle) (run : Run Row) (m : Machine api.World)
      → Ensures (async_query ctx h run m) λ ((_, h', future), _). AsyncLeaves h h' future
  unfolding async_query reject_call
  async_query-AsyncLeaves ctx h run m =
      let c = fw.fill_client_context ctx in
      let r = fw.run_message_client_filters client_pre_rpc_invoke c m.world in
      let m' : Machine api.World = record m { world = r.1 } in
      Ensures-when _ r.0.0 _ _ m' (λ _. inl (tt, inl refl))
        λ _.
          Ensures-when _ (not (is_started h.state)) _ (async_query_alive r.0.1 h run h.executor) m'
            (λ _. inl (tt, inl refl))
            λ s. async_query_alive-AsyncLeaves r.0.1 h run h.executor m' (ground arith)

module _ ⦃api : MysqlApi⦄ ⦃fw : Framework api.World⦄ ⦃pools : PoolMap⦄ where
  -- How AsyncCommit and AsyncRollback leave the handle: ended exactly from a started transaction
  -- with a future that is ready.
  abbrev pub AsyncFinishLeaves :
      Bool → TransactionHandle → TransactionHandle → Future (Unit {0}) → Type 0
  AsyncFinishLeaves rollback h h' (ready _) =
      (is_started h.state ≡ true) × (h'.state ≡ ended rollback)
  AsyncFinishLeaves rollback h h' (failed text) =
      (h' ≡ h) ⊎ (h'.state ≡ roll_backed) ⊎ ((is_started h.state ≡ true) × (h'.state ≡ h.state))

  failed_leaves :
      (text : Bytes) (h h' : TransactionHandle)
      → AsyncLeaves {Row = Unit {0}} h h' (failed text)
      → (h' ≡ h) ⊎ (h'.state ≡ roll_backed) ⊎ ((is_started h.state ≡ true) × (h'.state ≡ h.state))
  failed_leaves text h h' (inl (_, inl same)) = inl same
  failed_leaves text h h' (inl (_, inr gone)) = inr (inl gone)
  failed_leaves text h h' (inr kept) = inr (inr kept)

  async_settle-AsyncFinishLeaves :
      (rollback : Bool) (h h' : TransactionHandle) (manager : MysqlExecutorPoolManager)
      (ctx : fw.Context) (future : Future (MysqlResults (Unit {0}))) (m : Machine api.World)
      → AsyncLeaves h h' future
      → Ensures
          (async_settle rollback manager (ctx, h', future) m)
          λ ((_, h'', _, done), _). AsyncFinishLeaves rollback h h'' done
  unfolding async_settle
  async_settle-AsyncFinishLeaves false h h' manager ctx (failed text) m left =
      failed_leaves text h h' left
  async_settle-AsyncFinishLeaves true h h' manager ctx (failed text) m left =
      let r = fw.get_failed_value text m.world in
      Ensures-when _ r.0 _ _ (record m { world = r.1 }) (λ _. failed_leaves text h h' left) λ _. tt
  async_settle-AsyncFinishLeaves rollback h h' manager ctx (ready res) m (inl (never, _)) =
      absurd never
  async_settle-AsyncFinishLeaves rollback h h' manager ctx (ready res) m (inr (s, _)) =
      Ensures-seq _ _ (end_transaction manager h' rollback) _ m
        (end_transaction-state manager h' rollback m) λ r m' e. (s, e)

  async_finish-AsyncFinishLeaves :
      (rollback : Bool) (sql : Bytes) (ctx : fw.Context) (manager : MysqlExecutorPoolManager)
      (h : TransactionHandle) (m : Machine api.World)
      → Ensures
          (async_finish rollback sql ctx manager h m)
          λ ((_, h', _, done), _). AsyncFinishLeaves rollback h h' done
  unfolding async_finish
  async_finish-AsyncFinishLeaves rollback sql ctx manager h m =
      Ensures-seq _ _ (async_query ctx h (run_text sql)) _ m
        (async_query-AsyncLeaves ctx h (run_text sql) m)
        λ (c, h', future) m' left.
          async_settle-AsyncFinishLeaves rollback h h' manager c future m' left

  -- Where AsyncCommit and AsyncRollback return, a future that is ready comes with a transaction that
  -- was started before and is now committed, or rolled back; with a future that has failed, the handle
  -- is the one from before, or it is rolled back, or its state is still started. For AsyncRollback this
  -- is so whatever GetValue of the failed future does, which may be not to return.
  pub async_finished_state :
      (ctx : fw.Context) (manager : MysqlExecutorPoolManager) (h : TransactionHandle)
      (m : Machine api.World)
      → Ensures
          (async_commit ctx manager h m)
          (λ ((_, h', _, done), _). AsyncFinishLeaves false h h' done)
        × Ensures
            (async_rollback ctx manager h m)
            (λ ((_, h', _, done), _). AsyncFinishLeaves true h h' done)
  unfolding async_commit async_rollback
  async_finished_state ctx manager h m = (
    async_finish-AsyncFinishLeaves false (codes "commit") ctx manager h m,
    async_finish-AsyncFinishLeaves true (codes "rollback") ctx manager h m,
  )
