-- ===== src/Pool/Threads/Returned.antt =====
-- Reclaim of Pool, run by one thread from beginning to end, as steps of that thread.
use cpp_database.Prelude.{
  ℕ, ◌%◌, ◌≡◌, sym, subst, Bool, true, false, none, some, List, ◌∷◌, map, length, length-map,
  get_elem?, get_elem?-set, get_elem?-map, set, arith, ◌==◌, leb, ◌&&◌, if◌then◌else◌,
}
use cpp_database.Driver.{MysqlApi, Machine, Ensures, pure, when◌then◌else◌, ◌>>=◌}
use cpp_database.Driver.Rules.{Ensures-bind, Ensures-seq, Ensures-when}
use cpp_database.Executor.{MysqlExecutor, close, refresh_alive_time}
use cpp_database.Pool.{MysqlExecutorPool, Shard, shard_at, next_u32, shard_id_of, reclaim, discard}
use cpp_database.Pool.Threads.{
  Conn, Phase, Shared, Step, go, store, idle, using, reclaiming, discarding, accepts,
}
use cpp_database.Pool.Threads
use cpp_database.Pool.Threads.Runs.{
  conn_of, conn_of_same, view, Run, next, Run-append, one_step, put_stored, put_again,
}
use cpp_database.Pool.Threads.Sequential.{Does, shard_at_lem}

module _ ⦃api : MysqlApi⦄ where
  -- The thread has given its connection back, or closed it.
  abbrev pub Returns : ℕ → MysqlExecutorPool → List Phase → MysqlExecutorPool → Type 0
  Returns t p threads q = Does p.max_size p.max_num_per_shard t p threads q idle

  -- From where the connection is refused, it is closed.
  discard-Returns :
      (t : ℕ) (p : MysqlExecutorPool) (e : MysqlExecutor) (threads : List Phase) (old : Phase)
      (m : Machine api.World)
      → get_elem? threads t ≡ some old
      → Run p.max_size p.max_num_per_shard p.num_shard_group t
          (view p threads)
          (view p (set threads t (discarding (conn_of e))))
      → Ensures (discard p e m) λ ((_, q), _). Returns t p threads q
  unfolding discard
  discard-Returns t p e threads old m here run = Ensures-bind _ (close e) _ m λ e' m' _.
      put_again (record (view p threads) { executor_num = next_u32 p.executor_num }) p.shards
        threads (discarding (conn_of e)) idle
        (next run (
          Threads.discard t (view p (set threads t (discarding (conn_of e)))) (conn_of e)
            (get_elem?-set threads t old (discarding (conn_of e)) here)))

  refresh_alive_time_lem :
      (e : MysqlExecutor) (m : Machine api.World)
      → Ensures (refresh_alive_time e m) λ (e', _). e'.executor_id ≡ e.executor_id
  unfolding refresh_alive_time
  refresh_alive_time_lem e m = ground arith

  -- The test under the lock of a shard reads the same of the pool and of its view.
  accepts_view :
      (p : MysqlExecutorPool) (threads : List Phase) (shard : Shard) (b : Bool)
      → leb (length shard) p.max_num_per_shard && leb p.executor_num p.max_size ≡ b
      → accepts p.max_size p.max_num_per_shard (view p threads) (map conn_of shard) ≡ b
  accepts_view p threads shard b h =
      subst (λ n. leb n p.max_num_per_shard && leb p.executor_num p.max_size ≡ b)
        (sym (length-map shard conn_of)) h

  -- The shard has room: the connection is put there.
  put_back-Returns :
      (t : ℕ) (p : MysqlExecutorPool) (e e' : MysqlExecutor) (threads : List Phase) (shard : Shard)
      → get_elem? threads t ≡ some (using (conn_of e))
      → e'.executor_id ≡ e.executor_id
      → get_elem? p.shards (shard_id_of e.executor_id % p.num_shard_group) ≡ some shard
      → leb (length shard) p.max_num_per_shard && leb p.executor_num p.max_size ≡ true
      → Returns t p threads (record p {
        shards = set p.shards (shard_id_of e.executor_id % p.num_shard_group) (e' ∷ shard);
      })
  put_back-Returns t p e e' threads shard here id at room =
      put_again (view p given) (set p.shards i (e' ∷ shard)) threads (reclaiming (conn_of e)) idle (
        Run-append (one_step (Threads.reclaim t (view p threads) (conn_of e) here)) (
          put_stored (view p given) i (e' ∷ shard) p.shards given idle (
            subst
              (λ c.
                Step p.max_size p.max_num_per_shard p.num_shard_group t (view p given)
                  (go (store (view p given) i (c ∷ map conn_of shard)) t idle))
              (conn_of_same e e' id)
              (Threads.put_back t (view p given) (conn_of e) (map conn_of shard)
                (get_elem?-set threads t (using (conn_of e)) (reclaiming (conn_of e)) here)
                (get_elem?-map (map conn_of) p.shards i shard at)
                (accepts_view p given shard true room)))))
    where
      i : ℕ
      i = shard_id_of e.executor_id % p.num_shard_group

      given : List Phase
      given = set threads t (reclaiming (conn_of e))

  -- The shard or the pool is full: the connection is refused.
  turn_away-Run :
      (t : ℕ) (p : MysqlExecutorPool) (e : MysqlExecutor) (threads : List Phase) (shard : Shard)
      → get_elem? threads t ≡ some (using (conn_of e))
      → get_elem? p.shards (shard_id_of e.executor_id % p.num_shard_group) ≡ some shard
      → leb (length shard) p.max_num_per_shard && leb p.executor_num p.max_size ≡ false
      → Run p.max_size p.max_num_per_shard p.num_shard_group t
          (view p threads)
          (view p (set threads t (discarding (conn_of e))))
  turn_away-Run t p e threads shard here at full =
      put_again (view p given) p.shards threads (reclaiming (conn_of e)) (discarding (conn_of e)) (
        next (one_step (Threads.reclaim t (view p threads) (conn_of e) here)) (
          Threads.turn_away t (view p given) (conn_of e) (map conn_of shard)
            (get_elem?-set threads t (using (conn_of e)) (reclaiming (conn_of e)) here)
            (get_elem?-map (map conn_of) p.shards (shard_id_of e.executor_id % p.num_shard_group)
              shard at)
            (accepts_view p given shard false full)))
    where
      given : List Phase
      given = set threads t (reclaiming (conn_of e))

  -- The section under the lock of a shard.
  lock-Returns :
      (t : ℕ) (p : MysqlExecutorPool) (e : MysqlExecutor) (threads : List Phase) (i : ℕ)
      (shard : Shard) (m : Machine api.World)
      → get_elem? threads t ≡ some (using (conn_of e))
      → i ≡ shard_id_of e.executor_id % p.num_shard_group
      → get_elem? p.shards i ≡ some shard
      → Ensures
          ((when leb (length shard) p.max_num_per_shard && leb p.executor_num p.max_size
              then (do
                e' ← refresh_alive_time e
                pure (none, record p { shards = set p.shards i (e' ∷ shard) }))
              else discard p e)
            m)
          λ ((_, q), _). Returns t p threads q
  lock-Returns t p e threads i shard m here same at =
      let at' = subst (λ j. get_elem? p.shards j ≡ some shard) same at in
      Ensures-when _ (leb (length shard) p.max_num_per_shard && leb p.executor_num p.max_size) _ _ m
        (λ room. Ensures-seq _ _ (refresh_alive_time e) _ m (refresh_alive_time_lem e m) λ e' m' id.
          subst (λ j. Returns t p threads (record p { shards = set p.shards j (e' ∷ shard) }))
            (sym same) (put_back-Returns t p e e' threads shard here id at' room))
        (λ full.
          discard-Returns t p e threads (using (conn_of e)) m here
            (turn_away-Run t p e threads shard here at' full))

  -- A call of Reclaim that one thread makes is a run of the thread's steps.
  pub reclaim-Returns :
      (t : ℕ) (p : MysqlExecutorPool) (ret : ℕ) (e : MysqlExecutor) (threads : List Phase)
      (m : Machine api.World)
      → get_elem? threads t ≡ some (using (conn_of e))
      → Ensures (reclaim p ret e m) λ ((_, q), _). Returns t p threads q
  unfolding reclaim
  reclaim-Returns t p ret e threads m here =
      Ensures-when _ (ret == 0) _ (discard p e) m
        (λ _.
          Ensures-seq _ _ (shard_at p (shard_id_of e.executor_id)) _ m
            (shard_at_lem p.max_size p.max_num_per_shard t p (shard_id_of e.executor_id) m)
            λ (i, shard) m' (same, at). lock-Returns t p e threads i shard m' here same at)
        (λ _.
          discard-Returns t p e threads (using (conn_of e)) m here
            (one_step (Threads.reclaim_failed t (view p threads) (conn_of e) here)))
