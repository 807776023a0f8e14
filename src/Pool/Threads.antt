-- ===== src/Pool/Threads.antt =====
-- mysql_executor_pool.h and mysql_executor_pool.cc with any number of threads. What is done under
-- the lock of a shard is one step, as is each change of an atomic counter; a connection is named by a
-- number that is new for each object, and a step may have either answer of the server.
pub mod Exclusive
pub mod Progress
pub mod Bounds
pub mod Runs
pub mod Taken
pub mod Sequential
pub mod Returned
pub mod Calls
pub mod Stopping
use cpp_database.Prelude.{
  ℕ, zero, suc, ◌+◌, ◌≤◌, ◌≡◌, Bool, true, false, Option, some, List, [], ◌∷◌, length, get_elem?,
  set, ◌%◌, ◌==◌, leb, ◌&&◌, if◌then◌else◌,
}
use cpp_database.Pool.{next_u32, conn_retry_num}

-- A connection: its name, and the shard number in the upper half of its executor id.
pub record Conn : Type 0 where
  pub serial : ℕ
  pub shard_id : ℕ

-- What a thread does: in GetOrCreate it looks into a shard with the retries that are left, closes a
-- connection that it took and that is not usable, or creates one; then it uses a connection; in
-- Reclaim it gives the connection back, or closes it.
pub data Phase : Type 0 where
  idle : Phase
  looking : ℕ → ℕ → Phase
  closing : Conn → ℕ → ℕ → Phase
  creating : ℕ → Phase
  using : Conn → Phase
  reclaiming : Conn → Phase
  discarding : Conn → Phase

-- The members that threads share, what each thread does, and the next name.
pub record Shared : Type 0 where
  pub shards : List (List Conn)
  pub executor_num : ℕ
  pub shard_id_gen : ℕ
  pub next : ℕ
  pub threads : List Phase

abbrev pub go : Shared → ℕ → Phase → Shared
go s t phase = record s { threads = set s.threads t phase }

abbrev pub store : Shared → ℕ → List Conn → Shared
store s i shard = record s { shards = set s.shards i shard }

-- The test of Reclaim.
abbrev pub accepts : ℕ → ℕ → Shared → List Conn → Bool
accepts max_size max_num_per_shard s shard =
    leb (length shard) max_num_per_shard && leb s.executor_num max_size

-- The steps of thread `t` in a pool with `groups` shards.
pub data Step (max_size max_num_per_shard groups : ℕ) : ℕ → Shared → Shared → Type 0 where
  get_executor :
      (t : ℕ) (s : Shared)
      → get_elem? s.threads t ≡ some idle
      → Step max_size max_num_per_shard groups t s (
          go
            (record s { shard_id_gen = next_u32 s.shard_id_gen })
            t
            (looking s.shard_id_gen conn_retry_num))
  take :
      (t : ℕ) (s : Shared) (shard_id n : ℕ) (c : Conn) (shard : List Conn)
      → get_elem? s.threads t ≡ some (looking shard_id (suc n))
      → get_elem? s.shards (shard_id % groups) ≡ some (c ∷ shard)
      → Step max_size max_num_per_shard groups t s
          (go (store s (shard_id % groups) shard) t (using c))
  take_unusable :
      (t : ℕ) (s : Shared) (shard_id n : ℕ) (c : Conn) (shard : List Conn)
      → get_elem? s.threads t ≡ some (looking shard_id (suc n))
      → get_elem? s.shards (shard_id % groups) ≡ some (c ∷ shard)
      → Step max_size max_num_per_shard groups t s
          (go (store s (shard_id % groups) shard) t (closing c shard_id n))
  find_empty :
      (t : ℕ) (s : Shared) (shard_id n : ℕ)
      → get_elem? s.threads t ≡ some (looking shard_id (suc n))
      → get_elem? s.shards (shard_id % groups) ≡ some []
      → Step max_size max_num_per_shard groups t s (go s t (creating shard_id))
  close :
      (t : ℕ) (s : Shared) (shard_id n : ℕ) (c : Conn)
      → get_elem? s.threads t ≡ some (closing c shard_id n)
      → Step max_size max_num_per_shard groups t s (go s t (looking shard_id n))
  exhaust :
      (t : ℕ) (s : Shared) (shard_id : ℕ)
      → get_elem? s.threads t ≡ some (looking shard_id zero)
      → Step max_size max_num_per_shard groups t s (go s t (creating shard_id))
  connect :
      (t : ℕ) (s : Shared) (shard_id : ℕ)
      → get_elem? s.threads t ≡ some (creating shard_id)
      → Step max_size max_num_per_shard groups t s (
          go
            (record s { executor_num = next_u32 s.executor_num; next = s.next + 1 })
            t
            (using (record { serial = s.next; shard_id = shard_id })))
  -- The caller drops a connection that could not be opened.
  refuse :
      (t : ℕ) (s : Shared) (shard_id : ℕ)
      → get_elem? s.threads t ≡ some (creating shard_id)
      → Step max_size max_num_per_shard groups t s (go (record s { next = s.next + 1 }) t idle)
  reclaim :
      (t : ℕ) (s : Shared) (c : Conn)
      → get_elem? s.threads t ≡ some (using c)
      → Step max_size max_num_per_shard groups t s (go s t (reclaiming c))
  put_back :
      (t : ℕ) (s : Shared) (c : Conn) (shard : List Conn)
      → get_elem? s.threads t ≡ some (reclaiming c)
      → get_elem? s.shards (c.shard_id % groups) ≡ some shard
      → accepts max_size max_num_per_shard s shard ≡ true
      → Step max_size max_num_per_shard groups t s
          (go (store s (c.shard_id % groups) (c ∷ shard)) t idle)
  turn_away :
      (t : ℕ) (s : Shared) (c : Conn) (shard : List Conn)
      → get_elem? s.threads t ≡ some (reclaiming c)
      → get_elem? s.shards (c.shard_id % groups) ≡ some shard
      → accepts max_size max_num_per_shard s shard ≡ false
      → Step max_size max_num_per_shard groups t s (go s t (discarding c))
  -- Reclaim with a ret other than 0.
  reclaim_failed :
      (t : ℕ) (s : Shared) (c : Conn)
      → get_elem? s.threads t ≡ some (using c)
      → Step max_size max_num_per_shard groups t s (go s t (discarding c))
  discard :
      (t : ℕ) (s : Shared) (c : Conn)
      → get_elem? s.threads t ≡ some (discarding c)
      → Step max_size max_num_per_shard groups t s
          (go (record s { executor_num = next_u32 s.executor_num }) t idle)

-- What threads can reach, in any order of their steps.
pub data Reach (max_size max_num_per_shard groups : ℕ) (s : Shared) : Shared → Type 0 where
  start : Reach max_size max_num_per_shard groups s s
  next :
      {s₁ s₂ : Shared} (t : ℕ)
      → Reach max_size max_num_per_shard groups s s₁
      → Step max_size max_num_per_shard groups t s₁ s₂
      → Reach max_size max_num_per_shard groups s s₂
