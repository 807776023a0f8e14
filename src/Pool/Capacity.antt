-- ===== src/Pool/Capacity.antt =====
-- How many idle connections the pool holds, and what its count of connections does.
pub mod Stopped
use cpp_database.Prelude.{
  ℕ, zero, suc, ◌+◌, ◌^◌, ◌≤◌, ◌<◌, ◌≡◌, refl, sym, ap, subst, ◌∙◌, Option, none, some, List, [],
  ◌∷◌, arith, length, get_elem?, set, All, length-set, leb, ◌==◌, ◌&&◌, All-get_elem?,
}
use cpp_database.Driver.{MysqlApi, Machine, pure, Ensures, Ensures-weaken}
use cpp_database.Driver.Rules.{Ensures-bind, Ensures-seq, Ensures-when}
use cpp_database.Executor
use cpp_database.Executor.{MysqlExecutor, connect, close, refresh_alive_time}
use cpp_database.Pool.{
  MysqlExecutorPool, Shard, shard_at, is_usable, take_idle, next_u32, shard_id_of, conn_option_of,
  get_executor, reclaim, discard, create_executor, connect_new, stop, hand_out, stop_shards,
  close_all,
}

abbrev pub IsWithin : ℕ → List Shard → Type 0
IsWithin n = All (λ (shard : Shard). length shard ≤ n)

IsWithin-set :
    (n : ℕ) (shards : List Shard) (i : ℕ) (shard : Shard)
    → IsWithin n shards
    → length shard ≤ n
    → IsWithin n (set shards i shard)
IsWithin-set n [] i shard h v = tt
IsWithin-set n (s ∷ shards) zero shard h v = (v, h.1)
IsWithin-set n (s ∷ shards) (suc i) shard h v = (h.0, IsWithin-set n shards i shard h.1 v)

module _ ⦃api : MysqlApi⦄ where
  take_idle-le :
      (t retries : ℕ) (shard : Shard) (m : Machine api.World)
      → Ensures (take_idle t retries shard m) λ ((found, rest), m'). length rest ≤ length shard
  unfolding take_idle
  take_idle-le t zero shard m = omega arith
  take_idle-le t (suc retries) [] m = omega arith
  take_idle-le t (suc retries) (e ∷ shard) m = Ensures-bind _ (is_usable t e) _ m λ r m' _.
      Ensures-when _ r.0 _ _ m' (λ _. omega arith)
        λ _. Ensures-bind _ (close r.1) _ m' λ closed m'' _.
          Ensures-bind _ (Executor.destroy closed) (λ _. take_idle t retries shard) m''
            λ _ m₃ _.
              Ensures-weaken _ _ (take_idle t retries shard m₃) (take_idle-le t retries shard m₃)
                λ a h. omega arith

  -- What no operation changes, and by how much the count of connections can rise in one.
  pub record Follows (p q : MysqlExecutorPool) : Type 0 where
    pub same_option : q.option ≡ p.option
    pub same_max : q.max_num_per_shard ≡ p.max_num_per_shard
    pub same_groups : length q.shards ≡ length p.shards
    pub bounded :
        IsWithin (p.max_num_per_shard + 1) p.shards → IsWithin (p.max_num_per_shard + 1) q.shards
    pub counted :
        p.executor_num + 1 < 2 ^ 32
        → (p.executor_num ≤ q.executor_num) × (q.executor_num ≤ p.executor_num + 1)

  Follows-refl : (p : MysqlExecutorPool) → Follows p p
  Follows-refl p = record {
    same_option = refl;
    same_max = refl;
    same_groups = refl;
    bounded = λ v. v;
    counted = λ h. omega arith;
  }

  Follows-id :
      (p : MysqlExecutorPool)
      → Follows p (record p { executor_id_gen = next_u32 p.executor_id_gen })
  Follows-id p = record {
    same_option = refl;
    same_max = refl;
    same_groups = refl;
    bounded = λ v. v;
    counted = λ h. omega arith;
  }

  Follows-set :
      (p : MysqlExecutorPool) (i : ℕ) (shard : Shard) (shard_id : ℕ)
      → (IsWithin (p.max_num_per_shard + 1) p.shards → length shard ≤ p.max_num_per_shard + 1)
      → Follows p (record p { shards = set p.shards i shard; shard_id_gen = shard_id })
  Follows-set p i shard shard_id h = record {
    same_option = refl;
    same_max = refl;
    same_groups = length-set p.shards i shard;
    bounded = λ v. IsWithin-set (p.max_num_per_shard + 1) p.shards i shard v (h v);
    counted = λ _. omega arith;
  }

  Follows-count :
      (p : MysqlExecutorPool) → Follows p (record p { executor_num = next_u32 p.executor_num })
  Follows-count p = record {
    same_option = refl;
    same_max = refl;
    same_groups = refl;
    bounded = λ v. v;
    counted = λ h. omega arith;
  }

  discard-Follows :
      (p : MysqlExecutorPool) (e : MysqlExecutor) (m : Machine api.World)
      → Ensures (discard p e m) λ ((_, q), _). Follows p q
  unfolding discard
  discard-Follows p e m = Ensures-bind _ (close e) _ m λ e' m' _. Follows-count p

  pub reclaim-Follows :
      (p : MysqlExecutorPool) (ret : ℕ) (e : MysqlExecutor) (m : Machine api.World)
      → Ensures (reclaim p ret e m) λ ((_, q), _). Follows p q
  unfolding reclaim
  reclaim-Follows p ret e m =
      Ensures-when _ (ret == 0) _ (discard p e) m
        (λ _. Ensures-bind _ (shard_at p (shard_id_of e.executor_id)) _ m λ (i, shard) m' _.
          Ensures-when _ (leb (length shard) p.max_num_per_shard && leb p.executor_num p.max_size) _
            (discard p e) m'
            (λ room.
              Ensures-bind _ (refresh_alive_time e) _ m'
                λ e' _ _. Follows-set p i (e' ∷ shard) p.shard_id_gen (λ _. ground arith))
            (λ _. discard-Follows p e m'))
        (λ _. discard-Follows p e m)

  shard_at_lem :
      (p : MysqlExecutorPool) (shard_id : ℕ) (m : Machine api.World)
      → Ensures
          (shard_at p shard_id m)
          λ ((i, shard), m'). (get_elem? p.shards i ≡ some shard) × (m' ≡ m)
  unfolding shard_at
  shard_at_lem p shard_id m = ground arith

  connect_new-Follows :
      (e : MysqlExecutor) (p : MysqlExecutorPool) (m : Machine api.World)
      → Ensures (connect_new (e, p) m) λ ((_, q), _). Follows p q
  unfolding connect_new
  connect_new-Follows e p m = Ensures-bind _ (connect e) _ m λ (done, e') m' _.
      Ensures-when _ done _ (pure (e', p)) m' (λ _. Follows-count p) (λ _. Follows-refl p)

  -- A first part that leaves the count alone may stand before an operation.
  Follows-after :
      (p p' q : MysqlExecutorPool)
      → p'.executor_num ≡ p.executor_num
      → Follows p p'
      → Follows p' q
      → Follows p q
  Follows-after p p' q e f g = record {
    same_option = g.same_option ∙ f.same_option;
    same_max = g.same_max ∙ f.same_max;
    same_groups = g.same_groups ∙ f.same_groups;
    bounded = λ v.
        subst (λ n. IsWithin (n + 1) q.shards) f.same_max
          (g.bounded (subst (λ n. IsWithin (n + 1) p'.shards) (sym f.same_max) (f.bounded v)));
    counted = λ h. let c = g.counted (omega arith) in omega arith;
  }

  create_executor_lem :
      (p : MysqlExecutorPool) (shard_id : ℕ) (m : Machine api.World)
      → Ensures
          (create_executor p shard_id m)
          λ ((_, q), _). q ≡ record p { executor_id_gen = next_u32 p.executor_id_gen }
  unfolding create_executor
  create_executor_lem p shard_id m =
      Ensures-bind _ (Executor.construct (conn_option_of p)) _ m λ e m' _. refl

  hand_out-Follows :
      (p : MysqlExecutorPool) (shard_id : ℕ) (found : Option MysqlExecutor) (m : Machine api.World)
      → Ensures (hand_out p shard_id found m) λ ((_, q), _). Follows p q
  unfolding hand_out
  hand_out-Follows p shard_id none m =
      Ensures-seq _ _ (create_executor p shard_id) connect_new m (create_executor_lem p shard_id m)
        λ (e, q) m' same.
          Ensures-weaken _ _ (connect_new (e, q) m') (connect_new-Follows e q m') λ ((_, r), _) f.
            Follows-after p q r (ap (λ (x : MysqlExecutorPool). x.executor_num) same)
              (subst (Follows p) (sym same) (Follows-id p)) f
  hand_out-Follows p shard_id (some e) m = Follows-refl p

  pub get_executor-Follows :
      (p : MysqlExecutorPool) (m : Machine api.World)
      → Ensures (get_executor p m) λ ((_, q), _). Follows p q
  unfolding get_executor
  get_executor-Follows p m =
      Ensures-seq _ _ (shard_at p' p.shard_id_gen) _ m (shard_at_lem p' p.shard_id_gen m)
        λ (i, shard) m' at.
          Ensures-seq _ _ (take_idle p.max_idle_time 3 shard) _ m'
            (take_idle-le p.max_idle_time 3 shard m')
            λ (found, rest) m'' le.
              Ensures-weaken _ _ (hand_out (p'' i rest) p.shard_id_gen found m'')
                (hand_out-Follows (p'' i rest) p.shard_id_gen found m'')
                λ ((_, r), _) f.
                  Follows-after p (p'' i rest) r refl
                    (Follows-set p i rest _ λ v. fits i shard rest at.0 le v) f
    where
      p' : MysqlExecutorPool
      p' = record p { shard_id_gen = next_u32 p.shard_id_gen }

      p'' : ℕ → Shard → MysqlExecutorPool
      p'' i rest = record p' { shards = set p.shards i rest }

      fits :
          (i : ℕ) (shard rest : Shard)
          → get_elem? p.shards i ≡ some shard
          → length rest ≤ length shard
          → IsWithin (p.max_num_per_shard + 1) p.shards
          → length rest ≤ p.max_num_per_shard + 1
      fits i shard rest e le v = omega (
        arith,
        All-get_elem? (λ (s : Shard). length s ≤ p.max_num_per_shard + 1) p.shards i shard v e,
      )
