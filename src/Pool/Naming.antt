-- ===== src/Pool/Naming.antt =====
-- The running numbers of the pool, of which GetExecutor uses one for each call, and one for each
-- connection that it makes.
use cpp_database.Prelude.{
  ℕ, ◌+◌, ◌^◌, ◌≤◌, ◌<◌, ◌≡◌, refl, sym, subst, Option, none, some, length, set, arith, ◌==◌, leb,
  ◌&&◌,
}
use cpp_database.Driver.{MysqlApi, Machine, pure, Ensures, Ensures-weaken}
use cpp_database.Driver.Rules.{Ensures-bind, Ensures-seq, Ensures-when}
use cpp_database.Executor.{MysqlExecutor, connect, close, refresh_alive_time}
use cpp_database.Pool.{
  MysqlExecutorPool, next_u32, shard_at, take_idle, hand_out, create_executor, connect_new,
  get_executor, get_or_create, reclaim, discard, shard_id_of, conn_retry_num,
}
use cpp_database.Pool.Handed.{create_executor_lem}

module _ ⦃api : MysqlApi⦄ where
  -- The running numbers after a call: at most one more name is used.
  pub record Names (p q : MysqlExecutorPool) : Type 0 where
    pub one_more : p.executor_id_gen + 1 < 2 ^ 32 → q.executor_id_gen ≤ p.executor_id_gen + 1
    pub wraps : p.shard_id_gen < 2 ^ 32 → q.shard_id_gen < 2 ^ 32

  connect_new-Names :
      (e : MysqlExecutor) (p : MysqlExecutorPool) (m : Machine api.World)
      → Ensures
          (connect_new (e, p) m)
          λ ((_, q), _). (q.executor_id_gen ≡ p.executor_id_gen) × (q.shard_id_gen ≡ p.shard_id_gen)
  unfolding connect_new
  connect_new-Names e p m = Ensures-bind _ (connect e) _ m λ (done, e') m' _.
      Ensures-when _ done _ (pure (e', p)) m' (λ _. (refl, refl)) (λ _. (refl, refl))

  made_one :
      (p q : MysqlExecutorPool)
      → q.executor_id_gen ≡ next_u32 p.executor_id_gen
      → q.shard_id_gen ≡ p.shard_id_gen
      → Names p q
  made_one p q more same = record {
    one_more = λ h. omega (arith, more);
    wraps = λ h. omega (arith, same);
  }

  hand_out-Names :
      (p : MysqlExecutorPool) (shard_id : ℕ) (found : Option MysqlExecutor) (m : Machine api.World)
      → Ensures (hand_out p shard_id found m) λ ((_, q), _). Names p q
  unfolding hand_out
  hand_out-Names p shard_id none m =
      Ensures-seq _ _ (create_executor p shard_id) connect_new m (create_executor_lem p shard_id m)
        λ (e, p') m' (made, _).
          Ensures-weaken _ _ (connect_new (e, p') m') (connect_new-Names e p' m')
            λ ((_, q), _) (more, same).
              subst
                (λ x.
                  q.executor_id_gen ≡ x.executor_id_gen
                  → q.shard_id_gen ≡ x.shard_id_gen
                  → Names p q)
                (sym made) (made_one p q) more same
  hand_out-Names p shard_id (some e) m = record { one_more = λ h. omega arith; wraps = λ h. h }

  pub get_executor-Names :
      (p : MysqlExecutorPool) (m : Machine api.World)
      → Ensures (get_executor p m) λ ((_, q), _). Names p q
  unfolding get_executor get_or_create
  get_executor-Names p m = Ensures-bind _ (shard_at p' p.shard_id_gen) _ m λ (i, shard) m' _.
      Ensures-bind _ (take_idle p.max_idle_time conn_retry_num shard) _ m' λ (found, rest) m'' _.
        Ensures-weaken _ _
          (hand_out (record p' { shards = set p.shards i rest }) p.shard_id_gen found m'')
          (hand_out-Names (record p' { shards = set p.shards i rest }) p.shard_id_gen found m'')
          λ ((_, q), _) n. record { one_more = n.one_more; wraps = λ _. n.wraps (omega arith) }
    where
      p' : MysqlExecutorPool
      p' = record p { shard_id_gen = next_u32 p.shard_id_gen }

  discard-Names :
      (p : MysqlExecutorPool) (e : MysqlExecutor) (m : Machine api.World)
      → Ensures (discard p e m) λ ((_, q), _). Names p q
  unfolding discard
  discard-Names p e m =
      Ensures-bind _ (close e) _ m λ e' m' _. record { one_more = λ _. omega arith; wraps = λ h. h }

  pub reclaim-Names :
      (p : MysqlExecutorPool) (ret : ℕ) (e : MysqlExecutor) (m : Machine api.World)
      → Ensures (reclaim p ret e m) λ ((_, q), _). Names p q
  unfolding reclaim
  reclaim-Names p ret e m =
      Ensures-when _ (ret == 0) _ (discard p e) m
        (λ _. Ensures-bind _ (shard_at p (shard_id_of e.executor_id)) _ m λ (i, shard) m' _.
          Ensures-when _ (leb (length shard) p.max_num_per_shard && leb p.executor_num p.max_size) _
            (discard p e) m'
            (λ _.
              Ensures-bind _ (refresh_alive_time e) _ m'
                λ e' m'' _. record { one_more = λ _. omega arith; wraps = λ h. h })
            (λ _. discard-Names p e m'))
        (λ _. discard-Names p e m)
