-- ===== src/Pool/Threads/Sequential.antt =====
-- GetExecutor and Reclaim of Pool, run by one thread from beginning to end, as steps of that thread.
use cpp_database.Prelude.{
  ℕ, ◌+◌, ◌%◌, ◌^◌, ◌<◌, ◌≡◌, sym, ap, subst, ◌∙◌, Option, none, some, List, get_elem?,
  get_elem?-set, set_same, set, arith,
}
use cpp_database.Driver.{MysqlApi, Machine, Ensures, Ensures-weaken, ◌>>=◌}
use cpp_database.Driver.Rules.{Ensures-seq, Ensures-when, Ensures-both}
use cpp_database.Executor.{MysqlExecutor, connect}
use cpp_database.Pool.{
  MysqlExecutorPool, Shard, shard_at, take_idle, next_u32, executor_id_of, get_executor,
  get_or_create, create_executor, connect_new, hand_out, conn_retry_num,
}
use cpp_database.Pool.Handed.{
  FindsConnected, take_idle-connected, connect-state, create_executor_lem,
}
use cpp_database.Pool.Threads.{
  Conn, Phase, Shared, Step, go, store, idle, looking, creating, using, reclaiming, discarding,
}
use cpp_database.Pool.Threads
use cpp_database.Pool.Threads.Runs.{
  conn_of, view, held, Run, start, Run-append, one_step, after, put_again,
}
use cpp_database.Pool.Threads.Taken.{take_idle-Run}

-- The name of a connection that CreateExecutor makes.
conn_of_new :
    (e : MysqlExecutor) (shard_id serial : ℕ)
    → e.executor_id ≡ executor_id_of shard_id serial
    → shard_id < 2 ^ 32
    → serial + 1 < 2 ^ 32
    → conn_of e ≡ record { serial = serial; shard_id = shard_id }
conn_of_new e shard_id serial same small few = ground arith

next_small : (n : ℕ) → n + 1 < 2 ^ 32 → n + 1 ≡ next_u32 n
next_small n h = omega arith

module _ (max_size max_num_per_shard t : ℕ) ⦃api : MysqlApi⦄ where
  -- The steps of a thread from a pool to another, in which its phase is the last argument.
  abbrev pub Does : MysqlExecutorPool → List Phase → MysqlExecutorPool → Phase → Type 0
  Does p threads q phase =
      Run max_size max_num_per_shard p.num_shard_group t (view p threads)
        (view q (set threads t phase))

  -- A new object, whose number is the next one.
  named :
      (p : MysqlExecutorPool) (count : ℕ) (phase phase' : Phase) (threads : List Phase)
      → p.executor_id_gen + 1 < 2 ^ 32
      → phase ≡ phase'
      → Step max_size max_num_per_shard p.num_shard_group t (view p threads) (
          go
            (record (view p threads) { executor_num = count; next = p.executor_id_gen + 1 })
            t
            phase)
      → Does p threads
          (record p { executor_num = count; executor_id_gen = next_u32 p.executor_id_gen })
          phase'
  named p count phase phase' threads few same step =
      subst
        (λ ph.
          Does p threads
            (record p { executor_num = count; executor_id_gen = next_u32 p.executor_id_gen }) ph)
        same
        (subst
          (λ n.
            Run max_size max_num_per_shard p.num_shard_group t (view p threads)
              (go (record (view p threads) { executor_num = count; next = n }) t phase))
          (next_small p.executor_id_gen few) (one_step step))

  connect_new-Does :
      (p : MysqlExecutorPool) (e : MysqlExecutor) (shard_id : ℕ) (threads : List Phase)
      (m : Machine api.World)
      → get_elem? threads t ≡ some (creating shard_id)
      → e.executor_id ≡ executor_id_of shard_id p.executor_id_gen
      → shard_id < 2 ^ 32
      → p.executor_id_gen + 1 < 2 ^ 32
      → Ensures
          (connect_new (e, record p { executor_id_gen = next_u32 p.executor_id_gen }) m)
          λ ((e', q), _). Does p threads q (held e')
  unfolding connect_new
  connect_new-Does p e shard_id threads m here id small few =
      Ensures-seq _ _ (connect e) _ m (connect-state e m) λ (done, e') m' (state, same).
        Ensures-when _ done _ _ m'
          (λ up.
            named p (next_u32 p.executor_num)
              (using (record { serial = p.executor_id_gen; shard_id = shard_id })) (held e') threads
              few
              (sym (
                rw (state ∙ up)
                  (ap using (conn_of_new e' shard_id p.executor_id_gen (same ∙ id) small few))))
              (Threads.connect t (view p threads) shard_id here))
          (λ down.
            named p p.executor_num idle (held e') threads few (sym (rw (state ∙ down)))
              (Threads.refuse t (view p threads) shard_id here))

  pub shard_at_lem :
      (p : MysqlExecutorPool) (shard_id : ℕ) (m : Machine api.World)
      → Ensures (shard_at p shard_id m) λ ((i, shard), m').
        (i ≡ shard_id % p.num_shard_group) × (get_elem? p.shards i ≡ some shard)
  unfolding shard_at
  shard_at_lem p shard_id m = ground arith

  hand_out-Does :
      (p : MysqlExecutorPool) (shard_id : ℕ) (found : Option MysqlExecutor) (threads : List Phase)
      (m : Machine api.World)
      → get_elem? threads t ≡ some (after shard_id found)
      → FindsConnected found
      → shard_id < 2 ^ 32
      → p.executor_id_gen + 1 < 2 ^ 32
      → Ensures (hand_out p shard_id found m) λ ((e, q), _). Does p threads q (held e)
  unfolding hand_out
  hand_out-Does p shard_id none threads m here up small few =
      Ensures-seq _ _ (create_executor p shard_id) connect_new m (create_executor_lem p shard_id m)
        λ (e, q) m' (same, id).
          subst (λ q. Ensures (connect_new (e, q) m') λ ((e', r), _). Does p threads r (held e'))
            (sym same) (connect_new-Does p e shard_id threads m' here id small few)
  hand_out-Does p shard_id (some e) threads m here up small few =
      subst
        (λ ths. Run max_size max_num_per_shard p.num_shard_group t (view p threads) (view p ths))
        (sym (ap (set threads t) (rw up) ∙ set_same threads t (using (conn_of e)) here)) start

  -- A call of GetExecutor that one thread makes is a run of the thread's steps.
  pub get_executor-Does :
      (p : MysqlExecutorPool) (threads : List Phase) (m : Machine api.World)
      → get_elem? threads t ≡ some idle
      → p.shard_id_gen < 2 ^ 32
      → p.executor_id_gen + 1 < 2 ^ 32
      → Ensures (get_executor p m) λ ((e, q), _). Does p threads q (held e)
  unfolding get_executor get_or_create
  get_executor-Does p threads m here small few =
      Ensures-seq _ _ (shard_at p' p.shard_id_gen) _ m (shard_at_lem p' p.shard_id_gen m)
        λ (i, shard) m' (same, at).
          subst
            (λ i.
              Ensures
                ((take_idle p.max_idle_time conn_retry_num shard >>= λ (found, rest).
                    hand_out (q i rest) p.shard_id_gen found)
                  m')
                (λ ((e, r), _). Does p threads r (held e)))
            (sym same)
            (Ensures-seq _ _ (take_idle p.max_idle_time conn_retry_num shard) _ m'
              (Ensures-both _ _ (take_idle p.max_idle_time conn_retry_num shard m')
                (take_idle-connected p.max_idle_time conn_retry_num shard m')
                (take_idle-Run max_size max_num_per_shard p.num_shard_group t p.max_idle_time
                  conn_retry_num shard m' (view p' looked) p.shard_id_gen p.shards looked
                  (get_elem?-set threads t idle (looking p.shard_id_gen conn_retry_num) here)
                  (subst (λ j. get_elem? p.shards j ≡ some shard) same at)))
              λ (found, rest) m'' (up, run).
                Ensures-weaken _ _
                  (hand_out (q (p.shard_id_gen % p.num_shard_group) rest) p.shard_id_gen found m'')
                  (hand_out-Does (q (p.shard_id_gen % p.num_shard_group) rest) p.shard_id_gen found
                    (set threads t (after p.shard_id_gen found)) m''
                    (get_elem?-set threads t idle (after p.shard_id_gen found) here) up small few)
                  λ ((e, r), _) run'.
                    Run-append (one_step (Threads.get_executor t (view p threads) here)) (
                      Run-append
                        (put_again (view p' looked)
                          (set p.shards (p.shard_id_gen % p.num_shard_group) rest) threads
                          (looking p.shard_id_gen conn_retry_num) (after p.shard_id_gen found) run)
                        (put_again (view r threads) r.shards threads (after p.shard_id_gen found)
                          (held e) run')))
    where
      p' : MysqlExecutorPool
      p' = record p { shard_id_gen = next_u32 p.shard_id_gen }

      q : ℕ → Shard → MysqlExecutorPool
      q i rest = record p' { shards = set p.shards i rest }

      looked : List Phase
      looked = set threads t (looking p.shard_id_gen conn_retry_num)
