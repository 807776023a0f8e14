-- ===== src/Pool/Threads/Runs.antt =====
-- The pool of Pool as threads share it, and the steps of one thread.
use cpp_database.Prelude.{
  ℕ, suc, ◌%◌, ◌^◌, ◌≡◌, sym, ap, subst, Option, none, some, List, ◌∷◌, map, get_elem?,
  get_elem?-set, get_elem?-map, map-set, set-set, set_same, set, if◌then◌else◌,
}
use cpp_database.Executor.{MysqlExecutor}
use cpp_database.Pool.{MysqlExecutorPool, Shard, shard_id_of}
use cpp_database.Pool.Threads.{
  Conn, Phase, Shared, Step, go, store, idle, looking, closing, creating, using, reclaiming,
  discarding,
}
use cpp_database.Pool.Threads

-- The name of a connection, which is the running number in the lower half of its number.
abbrev pub conn_of : MysqlExecutor → Conn
conn_of e = record { serial = e.executor_id % 2 ^ 32; shard_id = shard_id_of e.executor_id }

-- It depends on the number alone.
pub conn_of_same : (e e' : MysqlExecutor) → e'.executor_id ≡ e.executor_id → conn_of e ≡ conn_of e'
conn_of_same e e' same =
    ap (λ (n : ℕ). let c : Conn = record { serial = n % 2 ^ 32; shard_id = shard_id_of n } in c)
      (sym same)

abbrev pub conns : List Shard → List (List Conn)
conns = map (map conn_of)

-- A pool, and what each thread does, as threads share it.
abbrev pub view : MysqlExecutorPool → List Phase → Shared
view p threads = record {
  shards = conns p.shards;
  executor_num = p.executor_num;
  shard_id_gen = p.shard_id_gen;
  next = p.executor_id_gen;
  threads = threads;
}

-- What a thread holds after GetExecutor: the caller drops an object that is not connected.
abbrev pub held : MysqlExecutor → Phase
held e = if e.is_connected then using (conn_of e) else idle

-- A pool's shards and the threads' phases in a state whose other members stay.
abbrev pub put : Shared → List Shard → List Phase → Shared
put s shards threads = record s { shards = conns shards; threads = threads }

-- Where GetOrCreate stands after its loop.
abbrev pub after : ℕ → Option MysqlExecutor → Phase
after shard_id none = creating shard_id
after shard_id (some e) = using (conn_of e)

module _ (max_size max_num_per_shard groups t : ℕ) where
  -- Steps of one thread.
  pub data Run (s : Shared) : Shared → Type 0 where
    start : Run s s
    next : {s₁ s₂ : Shared} → Run s s₁ → Step max_size max_num_per_shard groups t s₁ s₂ → Run s s₂

module _ {max_size max_num_per_shard groups t : ℕ} where
  pub Run-append :
      {s s₁ s₂ : Shared}
      → Run max_size max_num_per_shard groups t s s₁
      → Run max_size max_num_per_shard groups t s₁ s₂
      → Run max_size max_num_per_shard groups t s s₂
  Run-append r start = r
  Run-append r (next r' step) = next (Run-append r r') step

  pub one_step :
      {s s₁ : Shared}
      → Step max_size max_num_per_shard groups t s s₁
      → Run max_size max_num_per_shard groups t s s₁
  one_step step = next start step

  -- A step that writes a shard back.
  pub put_stored :
      (s : Shared) (i : ℕ) (shard : Shard) (shards : List Shard) (threads : List Phase)
      (phase : Phase)
      → Step max_size max_num_per_shard groups t
          (put s shards threads)
          (go (store (put s shards threads) i (map conn_of shard)) t phase)
      → Run max_size max_num_per_shard groups t
          (put s shards threads)
          (put s (set shards i shard) (set threads t phase))
  put_stored s i shard shards threads phase step =
      subst
        (λ (cs : List (List Conn)).
          Run max_size max_num_per_shard groups t (put s shards threads)
            (record s { shards = cs; threads = set threads t phase }))
        (sym (map-set (map conn_of) shards i shard)) (one_step step)

  -- A run whose last phase is written over an earlier one.
  pub put_again :
      {s₀ : Shared} (s : Shared) (shards : List Shard) (threads : List Phase) (old phase : Phase)
      → Run max_size max_num_per_shard groups t s₀ (put s shards (set (set threads t old) t phase))
      → Run max_size max_num_per_shard groups t s₀ (put s shards (set threads t phase))
  put_again {s₀} s shards threads old phase r =
      subst (λ ths. Run max_size max_num_per_shard groups t s₀ (put s shards ths))
        (set-set threads t old phase) r

  -- A shard that is written back as it was.
  pub put_same :
      {s₀ : Shared} (s : Shared) (i : ℕ) (shard : Shard) (shards : List Shard)
      (threads : List Phase)
      → get_elem? shards i ≡ some shard
      → Run max_size max_num_per_shard groups t s₀ (put s shards threads)
      → Run max_size max_num_per_shard groups t s₀ (put s (set shards i shard) threads)
  put_same {s₀} s i shard shards threads at r =
      subst (λ xs. Run max_size max_num_per_shard groups t s₀ (put s xs threads))
        (sym (set_same shards i shard at)) r

  -- A connection that is not usable is taken and closed.
  pub drop_unusable :
      (s : Shared) (shard_id n : ℕ) (e : MysqlExecutor) (shard : Shard) (shards : List Shard)
      (threads : List Phase)
      → get_elem? threads t ≡ some (looking shard_id (suc n))
      → get_elem? shards (shard_id % groups) ≡ some (e ∷ shard)
      → Run max_size max_num_per_shard groups t
          (put s shards threads)
          (put s (set shards (shard_id % groups) shard) (set threads t (looking shard_id n)))
  drop_unusable s shard_id n e shard shards threads here at =
      put_again s shards' threads (closing (conn_of e) shard_id n) (looking shard_id n) (
        next
          (put_stored s (shard_id % groups) shard shards threads (closing (conn_of e) shard_id n) (
            Threads.take_unusable t (put s shards threads) shard_id n (conn_of e)
              (map conn_of shard) here
              (get_elem?-map (map conn_of) shards (shard_id % groups) (e ∷ shard) at)))
          (Threads.close t (put s shards' (set threads t (closing (conn_of e) shard_id n))) shard_id
            n (conn_of e)
            (get_elem?-set threads t (looking shard_id (suc n)) (closing (conn_of e) shard_id n)
              here)))
    where
      shards' : List Shard
      shards' = set shards (shard_id % groups) shard
