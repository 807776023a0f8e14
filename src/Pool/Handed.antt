-- ===== src/Pool/Handed.antt =====
-- What the pool's operations do to the connection that they take: it keeps its number, and one that
-- is found usable is connected.
use cpp_database.Prelude.{ℕ, zero, suc, ◌≡◌, refl, Bool, true, Option, none, some, [], ◌∷◌, arith}
use cpp_database.Driver.{MysqlApi, Machine, Ensures}
use cpp_database.Driver.Rules.{Ensures-bind, Ensures-seq, Ensures-when, Ensures-both}
use cpp_database.Executor
use cpp_database.Executor.{MysqlExecutor, check_alive, connect, close}
use cpp_database.Executor.Connection.{connect-check_alive-connected}
use cpp_database.Pool.{
  MysqlExecutorPool, Shard, is_idle_timeout, is_usable, take_idle, create_executor, conn_option_of,
  executor_id_of, next_u32,
}

module _ ⦃api : MysqlApi⦄ where
  -- The answer is about the connection that was asked about.
  abbrev SameId : MysqlExecutor → (Bool × MysqlExecutor) × Machine api.World → Type 0
  SameId e r = r.0.1.executor_id ≡ e.executor_id

  check_alive_from :
      (e : MysqlExecutor) (p : Option ℕ) (m : Machine api.World)
      → e.mysql ≡ p
      → Ensures (check_alive e m) (SameId e)
  unfolding check_alive
  check_alive_from e none m q = ground arith
  check_alive_from e (some h) m q = ground arith

  connect_from :
      (e : MysqlExecutor) (p : Option ℕ) (m : Machine api.World)
      → e.mysql ≡ p
      → Ensures (connect e m) (SameId e)
  unfolding connect
  connect_from e none m q = ground arith
  connect_from e (some h) m q = ground arith

  -- The answer is true only with a connected object, and the number stays.
  abbrev pub Answers : MysqlExecutor → (Bool × MysqlExecutor) × Machine api.World → Type 0
  Answers e r = (r.0.0 ≡ true → r.0.1.is_connected ≡ true) × SameId e r

  pub connect-Answers :
      (e : MysqlExecutor) (m : Machine api.World) → Ensures (connect e m) (Answers e)
  connect-Answers e m =
      Ensures-both _ _ (connect e m) ((connect-check_alive-connected e m).0)
        (connect_from e e.mysql m refl)

  -- Connect answers whether the object is connected.
  connected_from :
      (e : MysqlExecutor) (p : Option ℕ) (m : Machine api.World)
      → e.mysql ≡ p
      → Ensures (connect e m) (λ r. r.0.1.is_connected ≡ r.0.0)
  unfolding connect
  connected_from e none m q = ground arith
  connected_from e (some h) m q = ground arith

  pub connect-state :
      (e : MysqlExecutor) (m : Machine api.World)
      → Ensures (connect e m) λ r. (r.0.1.is_connected ≡ r.0.0) × SameId e r
  connect-state e m =
      Ensures-both _ _ (connect e m) (connected_from e e.mysql m refl)
        (connect_from e e.mysql m refl)

  pub check_alive-Answers :
      (e : MysqlExecutor) (m : Machine api.World) → Ensures (check_alive e m) (Answers e)
  check_alive-Answers e m =
      Ensures-both _ _ (check_alive e m) ((connect-check_alive-connected e m).1)
        (check_alive_from e e.mysql m refl)

  pub is_usable-Answers :
      (t : ℕ) (e : MysqlExecutor) (m : Machine api.World) → Ensures (is_usable t e m) (Answers e)
  unfolding is_usable
  is_usable-Answers t e m =
      Ensures-seq _ _ (check_alive e) _ m (check_alive-Answers e m)
        λ (alive, e') m' (connected, same).
          Ensures-when _ alive _ _ m'
            (λ up. Ensures-bind (Answers e) (is_idle_timeout t e') _ m' λ timeout m'' _.
              Ensures-when _ timeout _ _ m'' (λ _. ((λ no. absurd (ground arith)), same))
                (λ _. ((λ _. connected up), same)))
            (λ _. ((λ no. absurd (ground arith)), same))

  -- What is found is connected.
  abbrev pub FindsConnected : Option MysqlExecutor → Type 0
  FindsConnected none = Unit
  FindsConnected (some e) = e.is_connected ≡ true

  pub take_idle-connected :
      (t retries : ℕ) (shard : Shard) (m : Machine api.World)
      → Ensures (take_idle t retries shard m) λ ((found, _), _). FindsConnected found
  unfolding take_idle
  take_idle-connected t zero shard m = tt
  take_idle-connected t (suc retries) [] m = tt
  take_idle-connected t (suc retries) (e ∷ shard) m =
      Ensures-seq _ _ (is_usable t e) _ m (is_usable-Answers t e m) λ r m' (connected, _).
        Ensures-when _ r.0 _ _ m' connected λ _. Ensures-bind _ (close r.1) _ m' λ closed m'' _.
          Ensures-bind _ (Executor.destroy closed) (λ _. take_idle t retries shard) m''
            λ _ m₃ _. take_idle-connected t retries shard m₃

  -- A new object has the next number.
  pub create_executor_lem :
      (p : MysqlExecutorPool) (shard_id : ℕ) (m : Machine api.World)
      → Ensures (create_executor p shard_id m) λ ((e, q), _).
        (q ≡ record p { executor_id_gen = next_u32 p.executor_id_gen })
        × (e.executor_id ≡ executor_id_of shard_id p.executor_id_gen)
  unfolding create_executor
  create_executor_lem p shard_id m =
      Ensures-bind _ (Executor.construct (conn_option_of p)) _ m λ e m' _. (refl, refl)
