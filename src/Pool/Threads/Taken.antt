-- ===== src/Pool/Threads/Taken.antt =====
-- The loop of GetOrCreate, run by one thread from beginning to end, as steps of that thread.
use cpp_database.Prelude.{
  ℕ, zero, suc, ◌%◌, ◌≡◌, subst, some, List, [], ◌∷◌, map, get_elem?, get_elem?-set, get_elem?-map,
  set-set, set,
}
use cpp_database.Driver.{MysqlApi, Machine, Ensures, Ensures-weaken}
use cpp_database.Driver.Rules.{Ensures-bind, Ensures-seq, Ensures-when}
use cpp_database.Executor
use cpp_database.Executor.{MysqlExecutor, close, connect, refresh_alive_time}
use cpp_database.Pool.{Shard, is_usable, take_idle}
use cpp_database.Pool.Handed.{is_usable-Answers}
use cpp_database.Pool.Threads.{
  Conn, Phase, Shared, Step, go, store, idle, looking, closing, creating, using, reclaiming,
  discarding,
}
use cpp_database.Pool.Threads
use cpp_database.Pool.Threads.Runs.{
  conn_of, conn_of_same, Run, Run-append, one_step, put, after, put_stored, put_again, put_same,
  drop_unusable,
}

module _ (max_size max_num_per_shard groups t : ℕ) where
  module _ ⦃api : MysqlApi⦄ where
    -- The loop of GetOrCreate.
    pub take_idle-Run :
        (max_idle_time retry_num : ℕ) (shard : Shard) (m : Machine api.World) (s : Shared)
        (shard_id : ℕ) (shards : List Shard) (threads : List Phase)
        → get_elem? threads t ≡ some (looking shard_id retry_num)
        → get_elem? shards (shard_id % groups) ≡ some shard
        → Ensures (take_idle max_idle_time retry_num shard m) λ ((found, rest), _).
          Run max_size max_num_per_shard groups t
            (put s shards threads)
            (put s (set shards (shard_id % groups) rest) (set threads t (after shard_id found)))
    unfolding take_idle
    take_idle-Run T zero shard m s shard_id shards threads here at =
        put_same s (shard_id % groups) shard shards (set threads t (creating shard_id)) at
          (one_step (Threads.exhaust t (put s shards threads) shard_id here))
    take_idle-Run T (suc n) [] m s shard_id shards threads here at =
        put_same s (shard_id % groups) [] shards (set threads t (creating shard_id)) at (
          one_step (
            Threads.find_empty t (put s shards threads) shard_id n here
              (get_elem?-map (map conn_of) shards (shard_id % groups) [] at)))
    take_idle-Run T (suc n) (e ∷ shard) m s shard_id shards threads here at =
        Ensures-seq _ _ (is_usable T e) _ m (is_usable-Answers T e m) λ r m' (_, same).
          Ensures-when _ r.0 _ _ m'
            (λ _.
              subst
                (λ c.
                  Run max_size max_num_per_shard groups t (put s shards threads)
                    (put s (set shards (shard_id % groups) shard) (set threads t (using c))))
                (conn_of_same e r.1 same)
                (put_stored s (shard_id % groups) shard shards threads (using (conn_of e)) (
                  Threads.take t (put s shards threads) shard_id n (conn_of e) (map conn_of shard)
                    here (get_elem?-map (map conn_of) shards (shard_id % groups) (e ∷ shard) at))))
            (λ _. Ensures-bind _ (close r.1) _ m' λ closed m'' _.
              Ensures-bind _ (Executor.destroy closed) (λ _. take_idle T n shard) m''
                λ _ m₃ _.
                  Ensures-weaken _ _ (take_idle T n shard m₃)
                    (take_idle-Run T n shard m₃ s shard_id (set shards (shard_id % groups) shard)
                      (set threads t (looking shard_id n))
                      (get_elem?-set threads t (looking shard_id (suc n)) (looking shard_id n) here)
                      (get_elem?-set shards (shard_id % groups) (e ∷ shard) shard at))
                    λ ((found, rest), _) run.
                      Run-append (drop_unusable s shard_id n e shard shards threads here at) (
                        put_again s (set shards (shard_id % groups) rest) threads
                          (looking shard_id n) (after shard_id found)
                          (subst
                            (λ (xs : List Shard).
                              Run max_size max_num_per_shard groups t
                                (put s (set shards (shard_id % groups) shard)
                                  (set threads t (looking shard_id n)))
                                (put s xs (
                                  set (set threads t (looking shard_id n)) t
                                    (after shard_id found))))
                            (set-set shards (shard_id % groups) shard rest) run)))
