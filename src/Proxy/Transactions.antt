-- ===== src/Proxy/Transactions.antt =====
-- The state of a transaction through Query, Commit and Rollback.
use cpp_database.Prelude.{
  ◌≡◌, refl, sym, ap, ◌∙◌, ◌⊎◌, inl, inr, Bool, true, false, not, Option, none, some, arith,
  if◌then◌else◌, Bool-cases,
}
use cpp_database.Prelude.Text.{Bytes, codes}
use cpp_database.Driver.{
  MysqlApi, Machine, returns, Ensures, Ensures-at, Ensures-weaken, when◌then◌else◌,
}
use cpp_database.Driver.Rules.{bind_cong, Ensures-bind, Ensures-seq, Ensures-when}
use cpp_database.Executor.{MysqlExecutor, check_alive}
use cpp_database.Results
use cpp_database.Results.{MysqlResults, ok}
use cpp_database.Framework.{Framework, PoolMap, client_pre_rpc_invoke}
use cpp_database.Manager.{MysqlExecutorPoolManager}
use cpp_database.Transaction.{TransactionHandle, TxState, roll_backed, committed, is_started}
use cpp_database.Proxy.{
  Run, unary_invoke, query_alive, query_checked, query, give_back, end_transaction, run_text,
  settle, finish, commit, rollback,
}

module _ ⦃api : MysqlApi⦄ ⦃fw : Framework api.World⦄ {Row : Type 0} where
  -- How a query may leave the handle and the results.
  abbrev pub QueryLeaves :
      TransactionHandle → MysqlResults Row → TransactionHandle → MysqlResults Row → Type 0
  QueryLeaves h res h' res' =
      ((h' ≡ h) × (res' ≡ res))
      ⊎ ((is_started h.state ≡ true) × (h'.state ≡ roll_backed) × (res' ≡ res))
      ⊎ ((is_started h.state ≡ true) × (h'.state ≡ h.state))

  query_alive-QueryLeaves :
      (ctx : fw.Context) (h : TransactionHandle) (res : MysqlResults Row) (run : Run Row)
      (e : Option MysqlExecutor) (m : Machine api.World)
      → is_started h.state ≡ true
      → Ensures (query_alive ctx h res run e m) λ ((_, h', res'), _). QueryLeaves h res h' res'
  unfolding query_alive
  query_alive-QueryLeaves ctx h res run none m s = tt
  query_alive-QueryLeaves ctx h res run (some e) m s =
      Ensures-bind _ (check_alive e) _ m λ (alive, e') m' _.
        Ensures-when _ (not alive) _ _ m' (λ _. inr (inl (s, refl, refl)))
          λ _. Ensures-bind _ (unary_invoke ctx e' res run) _ m' λ r m'' _. inr (inr (s, refl))

  query_checked-QueryLeaves :
      (reject : Bool) (ctx : fw.Context) (h : TransactionHandle) (res : MysqlResults Row)
      (run : Run Row) (m : Machine api.World)
      → Ensures
          (query_checked reject ctx h res run m)
          λ ((_, h', res'), _). QueryLeaves h res h' res'
  unfolding query_checked
  query_checked-QueryLeaves reject ctx h res run m =
      Ensures-when _ reject _ _ m (λ _. inl (refl, refl))
        λ _.
          Ensures-when _ (not (is_started h.state)) _ (query_alive ctx h res run h.executor) m
            (λ _. inl (refl, refl))
            λ s. query_alive-QueryLeaves ctx h res run h.executor m (ground arith)

  -- A call in a transaction that returns leaves the handle and the results as they were, or rolls the handle back
  -- and leaves the results, or keeps the state started: it never leaves any other state, and never
  -- touches a handle that is not started.
  pub query-QueryLeaves :
      (ctx : fw.Context) (h : TransactionHandle) (res : MysqlResults Row) (run : Run Row)
      (m : Machine api.World)
      → Ensures (query ctx h res run m) λ ((_, h', res'), _). QueryLeaves h res h' res'
  unfolding query
  query-QueryLeaves ctx h res run m =
      let c = fw.fill_client_context ctx in
      let r = fw.run_message_client_filters client_pre_rpc_invoke c m.world in
      let m' : Machine api.World = record m { world = r.1 } in
      Ensures-seq _ _ (query_checked r.0.0 r.0.1 h res run) _ m'
        (query_checked-QueryLeaves r.0.0 r.0.1 h res run m') λ _ _ q. q

  -- Outside a started transaction the outcome does not depend on the statement: none is executed.
  pub query_unsent :
      (ctx : fw.Context) (h : TransactionHandle) (res : MysqlResults Row) (run run' : Run Row)
      (m : Machine api.World)
      → is_started h.state ≡ false
      → query ctx h res run m ≡ query ctx h res run' m
  unfolding query query_checked
  query_unsent ctx h res run run' m s = rw s

module _ ⦃api : MysqlApi⦄ ⦃fw : Framework api.World⦄ ⦃pools : PoolMap⦄ where
  -- The state that Commit and Rollback write.
  abbrev pub ended : Bool → TxState
  ended rollback = if rollback then roll_backed else committed

  pub end_transaction-state :
      (manager : MysqlExecutorPoolManager) (h : TransactionHandle) (rollback : Bool)
      (m : Machine api.World)
      → Ensures (end_transaction manager h rollback m) λ ((h', _), _). h'.state ≡ ended rollback
  unfolding end_transaction
  end_transaction-state manager h rollback m =
      Ensures-bind _ (give_back manager h.executor) _ m λ r m' _. refl

  -- How Commit and Rollback end, from what the query with their statement returns. Where the results
  -- are OK the final state is written, whatever the state was. Where they carry an error, the
  -- transaction was started and its state is kept, the handle is the one that the query left, and
  -- the status is the unknown error with the message of the results.
  abbrev pub FinishLeaves :
      Bool
      → TransactionHandle
      → fw.Context × TransactionHandle × MysqlResults (Unit {0})
      → fw.Context
      → TransactionHandle
      → Type 0
  FinishLeaves rollback h (c, h₁, res) ctx h' =
      (ok res ≡ true → h'.state ≡ ended rollback)
      × (ok res ≡ false
          → (is_started h.state ≡ true)
            × (h'.state ≡ h.state)
            × (h' ≡ h₁)
            × (ctx ≡ fw.set_status c (fw.unknown_error_status res.error_message)))

  -- The query with the statement of a call has returned, and the call has ended as it says.
  abbrev pub FinishAnswers :
      Bool
      → Bytes
      → fw.Context
      → TransactionHandle
      → Machine api.World
      → fw.Context
      → TransactionHandle
      → Type 0
  FinishAnswers rollback sql ctx h m ctx' h' =
      (r : fw.Context × TransactionHandle × MysqlResults (Unit {0})) × (m' : Machine api.World)
      × (query ctx h Results.init (run_text sql) m ≡ returns (r, m'))
      × FinishLeaves rollback h r ctx' h'

  error_kept :
      (h h' : TransactionHandle) (res : MysqlResults (Unit {0}))
      → QueryLeaves h Results.init h' res
      → ok res ≡ false
      → (is_started h.state ≡ true) × (h'.state ≡ h.state)
  unfolding Results.init
  error_kept h h' res (inl (_, same)) bad =
      cc (sym bad ∙ ap (λ (r : MysqlResults (Unit {0})). ok r) same)
  error_kept h h' res (inr (inl (_, _, same))) bad =
      cc (sym bad ∙ ap (λ (r : MysqlResults (Unit {0})). ok r) same)
  error_kept h h' res (inr (inr kept)) bad = kept

  settle-FinishLeaves :
      (rollback : Bool) (manager : MysqlExecutorPoolManager) (h h₁ : TransactionHandle)
      (c : fw.Context) (res : MysqlResults (Unit {0})) (m : Machine api.World)
      → QueryLeaves h Results.init h₁ res
      → Ensures
          (settle rollback manager (c, h₁, res) m)
          λ ((c', h', _), _). FinishLeaves rollback h (c, h₁, res) c' h'
  unfolding settle
  settle-FinishLeaves rollback manager h h₁ c res m q =
      Ensures-when _ (not (ok res)) _ _ m
        (λ bad.
          let error : ok res ≡ false = ground arith in
          let (s, kept) = error_kept h h₁ res q error in
          (λ good. cc (sym error ∙ good), λ _. (s, kept, refl, refl)))
        λ good.
          let fine : ok res ≡ true = ground arith in
          Ensures-seq _ _ (end_transaction manager h₁ rollback) _ m
            (end_transaction-state manager h₁ rollback m)
            λ r m' e. (λ _. e, λ bad. cc (sym fine ∙ bad))

  finish-FinishAnswers :
      (rollback : Bool) (sql : Bytes) (ctx : fw.Context) (manager : MysqlExecutorPoolManager)
      (h : TransactionHandle) (m : Machine api.World)
      → Ensures
          (finish rollback sql ctx manager h m)
          λ ((c', h', _), _). FinishAnswers rollback sql ctx h m c' h'
  unfolding finish
  finish-FinishAnswers rollback sql ctx manager h m =
      Ensures-bind _ (query ctx h Results.init (run_text sql)) _ m λ (c₁, h₁, res) m' e.
        let q =
          Ensures-at (λ ((_, x, res'), _). QueryLeaves h Results.init x res')
            (query ctx h Results.init (run_text sql) m) e
            (query-QueryLeaves ctx h Results.init (run_text sql) m) in
        Ensures-weaken _ _ (settle rollback manager (c₁, h₁, res) m')
          (settle-FinishLeaves rollback manager h h₁ c₁ res m' q)
          λ x leaves. ((c₁, h₁, res), m', e, leaves)

  -- Commit and Rollback on any handle, where they return, have run a query with their statement that
  -- returned. If its results are OK, the handle is committed, or rolled back, whatever its state was.
  -- If its results carry an error, the transaction was started, the handle is the one that the query
  -- left and its state is kept, and the status is the unknown error with the message of the results.
  pub finished_state :
      (ctx : fw.Context) (manager : MysqlExecutorPoolManager) (h : TransactionHandle)
      (m : Machine api.World)
      → Ensures
          (commit ctx manager h m)
          (λ ((c', h', _), _). FinishAnswers false (codes "commit") ctx h m c' h')
        × Ensures
            (rollback ctx manager h m)
            (λ ((c', h', _), _). FinishAnswers true (codes "rollback") ctx h m c' h')
  unfolding commit rollback
  finished_state ctx manager h m = (
    finish-FinishAnswers false (codes "commit") ctx manager h m,
    finish-FinishAnswers true (codes "rollback") ctx manager h m,
  )

  -- On a handle that is not started, such as one that has been rolled back, Commit executes no
  -- statement, since the outcome is the same for every statement; and if it returns, the handle is
  -- committed.
  pub commit_ended :
      (ctx : fw.Context) (manager : MysqlExecutorPoolManager) (h : TransactionHandle) (sql : Bytes)
      (m : Machine api.World)
      → is_started h.state ≡ false
      → (commit ctx manager h m ≡ finish false sql ctx manager h m)
        × Ensures (commit ctx manager h m) (λ ((_, h', _), _). h'.state ≡ committed)
  unfolding commit
  commit_ended ctx manager h sql m s = (
    bind_cong (query ctx h Results.init (run_text (codes "commit")))
        (query ctx h Results.init (run_text sql)) (settle false manager) m
        (query_unsent ctx h Results.init (run_text (codes "commit")) (run_text sql) m s),
    Ensures-weaken _ _ (commit ctx manager h m) ((finished_state ctx manager h m).0)
        (λ r. ended_only r),
  )
    where
      ended_only :
          (r : (fw.Context × TransactionHandle × MysqlExecutorPoolManager) × Machine api.World)
          → FinishAnswers false (codes "commit") ctx h m r.0.0 r.0.1
          → r.0.1.state ≡ committed
      ended_only r ((c, h₁, res), m', e, (good, bad)) = elim (Bool-cases (ok res)) [
        | inl fine ↦ good fine
        | inr error ↦ cc (sym s ∙ (bad error).0)
      ]
