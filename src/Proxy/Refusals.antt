-- ===== src/Proxy/Refusals.antt =====
-- A connection that the pool could not open, in the hands of the proxy.
use cpp_database.Prelude.{ℕ, ◌≡◌, sym, ap, ◌∙◌, false, Option, none, some}
use cpp_database.Driver.{MysqlApi, Machine, returns, faults, use_after_free, Ensures, Ensures-at}
use cpp_database.Driver.Rules.{bind_faults, Ensures-bind, Ensures-seq, Ensures-when}
use cpp_database.Executor.{MysqlExecutor, connect, get_error_message}
use cpp_database.Executor.Dangling.{connect_fails_dangling}
use cpp_database.Pool.{
  MysqlExecutorPool, shard_at, take_idle, create_executor, connect_new, hand_out, get_executor,
  get_or_create,
}
use cpp_database.Pool.Handed.{Answers, connect-Answers, FindsConnected, take_idle-connected}
use cpp_database.Framework.{Framework}
use cpp_database.Proxy.{refuse_connection}

module _ ⦃api : MysqlApi⦄ where
  -- The object is connected, or its error message cannot be read.
  abbrev pub IsConnectedOrLost : MysqlExecutor → Machine api.World → Type 0
  IsConnectedOrLost e m = e.is_connected ≡ false → get_error_message e m ≡ faults use_after_free

  connect_new-lost :
      (e : MysqlExecutor) (p : MysqlExecutorPool) (m : Machine api.World)
      → Ensures (connect_new (e, p) m) λ ((e', _), m'). IsConnectedOrLost e' m'
  unfolding connect_new
  connect_new-lost e p m = Ensures-bind _ (connect e) _ m λ (done, e') m' c.
      Ensures-when _ done _ _ m'
        (λ up down.
          absurd
            (cc (sym ((Ensures-at (Answers e) (connect e m) c (connect-Answers e m)).0 up) ∙ down)))
        (λ no _. (connect_fails_dangling e m e' m' (c ∙ ap (λ b. returns ((b, e'), m')) no)).1)

  hand_out-lost :
      (p : MysqlExecutorPool) (shard_id : ℕ) (found : Option MysqlExecutor) (m : Machine api.World)
      → FindsConnected found
      → Ensures (hand_out p shard_id found m) λ ((e, _), m'). IsConnectedOrLost e m'
  unfolding hand_out
  hand_out-lost p shard_id (some e) m up = λ down. absurd (cc (sym up ∙ down))
  hand_out-lost p shard_id none m up =
      Ensures-bind _ (create_executor p shard_id) connect_new m
        λ (e, q) m' _. connect_new-lost e q m'

  -- What the pool hands out is connected, or its error message cannot be read.
  pub get_executor-lost :
      (p : MysqlExecutorPool) (m : Machine api.World)
      → Ensures (get_executor p m) λ ((e, _), m'). IsConnectedOrLost e m'
  unfolding get_executor get_or_create
  get_executor-lost p m = Ensures-bind _ (shard_at _ p.shard_id_gen) _ m λ (i, shard) m' _.
      Ensures-seq _ _ (take_idle p.max_idle_time 3 shard) _ m'
        (take_idle-connected p.max_idle_time 3 shard m')
        λ (found, rest) m'' up. hand_out-lost _ p.shard_id_gen found m'' up

module _ ⦃api : MysqlApi⦄ ⦃fw : Framework api.World⦄ where
  -- Reporting the failed connection reads that message.
  pub refuse_connection-lost :
      (ctx : fw.Context) (e : MysqlExecutor) (m : Machine api.World)
      → IsConnectedOrLost e m
      → e.is_connected ≡ false
      → refuse_connection ctx e m ≡ faults use_after_free
  unfolding refuse_connection
  refuse_connection-lost ctx e m lost down = bind_faults (get_error_message e) _ m (lost down)

  -- When the pool hands out an object that is not connected, reading its error message to report the
  -- failed connection, as the proxy does, uses a handle that has been freed.
  pub get_executor-refuse_connection :
      (ctx : fw.Context) (p q : MysqlExecutorPool) (e : MysqlExecutor) (m m' : Machine api.World)
      → get_executor p m ≡ returns ((e, q), m')
      → e.is_connected ≡ false
      → refuse_connection ctx e m' ≡ faults use_after_free
  get_executor-refuse_connection ctx p q e m m' got = refuse_connection-lost ctx e m' (
      Ensures-at
        (λ (r : (MysqlExecutor × MysqlExecutorPool) × Machine api.World).
          IsConnectedOrLost r.0.0 r.1)
        (get_executor p m) got (get_executor-lost p m))
