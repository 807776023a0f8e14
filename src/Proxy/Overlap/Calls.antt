-- ===== src/Proxy/Overlap/Calls.antt =====
-- The calls of Proxy/Async, one at a time, as runs of the steps on their handle.
use cpp_database.Prelude.{
  ℕ, ◌≡◌, refl, sym, subst, ap, ◌∙◌, true, not, Option, none, some, List, [], ◌∷◌, arith, ◌==◌,
}
use cpp_database.Prelude.Text.{Bytes}
use cpp_database.Driver.{MysqlApi, Machine, Ensures}
use cpp_database.Driver.Rules.{Ensures-bind, Ensures-seq, Ensures-when}
use cpp_database.Executor.{MysqlExecutor, check_alive, execute}
use cpp_database.Results
use cpp_database.Results.{MysqlResults, ok}
use cpp_database.Framework.{Framework, PoolMap, client_pre_rpc_invoke, client_pre_send_msg}
use cpp_database.Transaction.{TransactionHandle, TxState, started, roll_backed, is_started}
use cpp_database.Pool.Handed.{check_alive-Answers}
use cpp_database.Proxy.{Run, run_text}
use cpp_database.Proxy.Async.{
  Future, reject_call, refuse, async_run_on, async_around, async_unary_invoke, async_query_alive,
  async_query,
}
use cpp_database.Proxy.Async.Finished.{IsReady}
use cpp_database.Proxy.Overlap.{System, Handle, Kind, Step, begin, call, lose, answer}

-- The handle with the number of its connection, and with a call on it.
abbrev pub number_of : Option MysqlExecutor → Option ℕ
number_of none = none
number_of (some e) = some e.executor_id

abbrev pub view : TransactionHandle → Handle
view h = record { state = h.state; executor = number_of h.executor; tasks = [] }

abbrev pub alone : List ℕ → Handle → System
alone idle h = record { idle = idle; handles = h ∷ [] }

-- The steps that one call of a kind makes: no other call and no new transaction.
abbrev pub IsOf : Kind → {y z : System} → Step y z → Type 0
IsOf kind (begin _ _ _ _ _ _ _ _ _ _) = ⊥
IsOf kind (call _ _ _ _ k _ _ _) = k ≡ kind
IsOf kind _ = Unit

pub data Asks (kind : Kind) (y : System) : System → Type 0 where
  start : Asks kind y y
  next : {y₁ y₂ : System} → Asks kind y y₁ → (s : Step y₁ y₂) → IsOf kind s → Asks kind y y₂

is_started-started : (state : TxState) → is_started state ≡ true → state ≡ started
is_started-started started h = refl
is_started-started _ h = absurd (ground arith)

module _ ⦃api : MysqlApi⦄ where
  -- What is executed on a connection leaves its number.
  abbrev pub KeepsNumber : {Row : Type 0} → Run Row → Type 0
  KeepsNumber {Row} run =
      (e : MysqlExecutor) (res : MysqlResults Row) (m : Machine api.World)
      → Ensures (run e res m) λ ((e', _), _). e'.executor_id ≡ e.executor_id

module _ ⦃api : MysqlApi⦄ ⦃fw : Framework api.World⦄ ⦃pools : PoolMap⦄ where
  pub run_text-KeepsNumber : (sql : Bytes) → KeepsNumber (run_text sql)
  run_text-KeepsNumber sql e res m =
      Ensures-bind (λ ((e', _), _). e'.executor_id ≡ e.executor_id) (execute e res sql) _ m
        λ r m' _. refl

module _ ⦃api : MysqlApi⦄ ⦃fw : Framework api.World⦄ {Row : Type 0} (run : Run Row) where
  async_unary_invoke-number :
      KeepsNumber run
      → (ctx : fw.Context) (e : MysqlExecutor) (m : Machine api.World)
      → Ensures (async_unary_invoke ctx e run m) λ ((_, e', _), _). e'.executor_id ≡ e.executor_id
  unfolding async_unary_invoke async_around async_run_on
  async_unary_invoke-number keeps ctx e m =
      let r = fw.check_timeout ctx m.world in
      let m₁ : Machine api.World = record m { world = r.1 } in
      Ensures-when _ r.0.0 _ _ m₁ (λ _. refl)
        λ _.
          let r₂ = fw.run_filters client_pre_send_msg r.0.1 m₁.world in
          let m₂ : Machine api.World = record m₁ { world = r₂.1 } in
          Ensures-when _ (not (r₂.0.0 == 0)) _ _ m₂ (λ _. refl)
            λ _.
              Ensures-seq (λ ((_, e', _), _). e'.executor_id ≡ e.executor_id) _
                (async_run_on run r₂.0.1 e) _ m₂
                (Ensures-when _ (not e.is_connected) _ _ m₂
                  (λ _. Ensures-bind _ (refuse r₂.0.1 e) _ m₂ λ r₃ m₃ _. refl)
                  λ _.
                    Ensures-seq _ _ (run e Results.init) _ m₂ (keeps e Results.init m₂)
                      λ r₃ m₃ same. same)
                λ r₃ m₃ same. same

-- The handle with its connection in the hands of one call.
abbrev pub asked : Kind → TransactionHandle → ℕ → Handle
asked kind h c = record (view h) { tasks = record { conn = c; kind = kind } ∷ [] }

-- A call that is done, and where its future is ready, what was reached before it was done.
abbrev pub Called :
    {A : Type 0} → List ℕ → Kind → TransactionHandle → TransactionHandle → Future A → Type 0
Called idle kind h h' future =
    Asks kind (alone idle (view h)) (alone idle (view h'))
    × (IsReady future
        → (c : ℕ) × (number_of h.executor ≡ some c)
          × (number_of h'.executor ≡ some c)
          × Asks kind (alone idle (view h)) (alone idle (asked kind h' c)))

lost-Asks :
    (idle : List ℕ) (kind : Kind) (h : TransactionHandle) (e e' : MysqlExecutor)
    → h.state ≡ started
    → h.executor ≡ some e
    → e'.executor_id ≡ e.executor_id
    → Asks kind
        (alone idle (view h))
        (alone idle (view (record { executor = some e'; state = roll_backed })))
lost-Asks idle kind h e e' s has same =
    subst
      (λ (o : Option ℕ).
        Asks kind (alone idle (view h))
          (alone idle (record { state = roll_backed; executor = o; tasks = [] })))
      (ap number_of has ∙ ap some (sym same))
      (Asks.next Asks.start (lose (alone idle (view h)) 0 (view h) refl s) tt)

asked-Asks :
    (idle : List ℕ) (kind : Kind) (h : TransactionHandle) (e : MysqlExecutor)
    → h.state ≡ started
    → number_of h.executor ≡ some e.executor_id
    → Asks kind
        (alone idle (view h))
        (alone idle (asked kind (record h { executor = some e }) e.executor_id))
asked-Asks idle kind h e s number =
    subst
      (λ (o : Option ℕ). Asks kind (alone idle (view h)) (
        alone idle (record {
          state = h.state;
          executor = o;
          tasks = record { conn = e.executor_id; kind = kind } ∷ [];
        })))
      number
      (Asks.next Asks.start (call (alone idle (view h)) 0 (view h) e.executor_id kind refl s number)
        refl)

answered-Asks :
    (idle : List ℕ) (kind : Kind) (v : Handle) (h : TransactionHandle) (c : ℕ)
    → Asks kind (alone idle v) (alone idle (asked kind h c))
    → Asks kind (alone idle v) (alone idle (view h))
answered-Asks idle kind v h c r =
    Asks.next r
      (answer (alone idle (asked kind h c)) 0 (asked kind h c) (record { conn = c; kind = kind }) []
        [] refl refl)
      tt

module _ ⦃api : MysqlApi⦄ ⦃fw : Framework api.World⦄ {Row : Type 0} (run : Run Row) where
  async_query_alive-Called :
      KeepsNumber run
      → (idle : List ℕ) (kind : Kind) (ctx : fw.Context) (h : TransactionHandle)
        (o : Option MysqlExecutor) (m : Machine api.World)
      → h.state ≡ started
      → h.executor ≡ o
      → Ensures
          (async_query_alive ctx h run o m)
          λ ((_, h', future), _). Called idle kind h h' future
  unfolding async_query_alive
  async_query_alive-Called keeps idle kind ctx h none m s has = tt
  async_query_alive-Called keeps idle kind ctx h (some e) m s has =
      Ensures-seq _ _ (check_alive e) _ m (check_alive-Answers e m) λ (alive, e') m' (_, same).
        Ensures-when _ (not alive) _ _ m'
          (λ _. (lost-Asks idle kind h e e' s has same, λ never. absurd never))
          λ _.
            Ensures-seq _ _ (async_unary_invoke ctx e' run) _ m'
              (async_unary_invoke-number run keeps ctx e' m')
              λ (_, e'', future) m'' same'.
                let number = ap number_of has ∙ ap some (sym (same' ∙ same)) in
                let asks = asked-Asks idle kind h e'' s number in
                (
                  answered-Asks idle kind (view h) (record h { executor = some e'' })
                      e''.executor_id asks,
                  λ _. (e''.executor_id, number, refl, asks),
                )

  pub async_query-Called :
      KeepsNumber run
      → (idle : List ℕ) (kind : Kind) (ctx : fw.Context) (h : TransactionHandle)
        (m : Machine api.World)
      → Ensures (async_query ctx h run m) λ ((_, h', future), _). Called idle kind h h' future
  unfolding async_query reject_call
  async_query-Called keeps idle kind ctx h m =
      let c = fw.fill_client_context ctx in
      let r = fw.run_message_client_filters client_pre_rpc_invoke c m.world in
      let m' : Machine api.World = record m { world = r.1 } in
      Ensures-when _ r.0.0 _ _ m' (λ _. (Asks.start, λ never. absurd never))
        λ _.
          Ensures-when _ (not (is_started h.state)) _ (async_query_alive r.0.1 h run h.executor) m'
            (λ _. (Asks.start, λ never. absurd never))
            λ s.
              async_query_alive-Called keeps idle kind r.0.1 h h.executor m'
                (is_started-started h.state (ground arith)) refl
