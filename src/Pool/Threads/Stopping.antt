-- ===== src/Pool/Threads/Stopping.antt =====
-- MysqlExecutorPool::Stop while threads call GetExecutor and Reclaim. Stop copies the list of a shard
-- under its lock, and closes the copied connections after it has released the lock.
pub mod Race
pub mod Quiet
use cpp_database.Prelude.{
  ℕ, zero, suc, ◌+◌, ◌≡◌, Bool, true, false, Option, some, List, [], ◌∷◌, ◌++◌, get_elem?,
}
use cpp_database.Driver.Calls.{contains}
use cpp_database.Pool.Threads.{Conn, Phase, Shared, Step, using}

-- Where Stop is: before the call, before it copies a shard, with the connections of a shard that are
-- still to be closed, or at its end.
pub data Stopper : Type 0 where
  waiting : Stopper
  copying : ℕ → Stopper
  closing_all : List Conn → ℕ → Stopper
  stopped : Stopper

-- The connections of a shard from the front of the std::list; the head of a shard is its back.
abbrev pub front_first : List Conn → List Conn
front_first [] = []
front_first (c ∷ cs) = front_first cs ++ c ∷ []

-- The pool with its threads, the connections that Stop has closed, and Stop.
pub record System : Type 0 where
  pub pool : Shared
  pub closed : List ℕ
  pub stopper : Stopper

-- A closed connection is not connected, so CheckAlive answers false, and no thread goes on with it.
abbrev pub GoesOn : System → ℕ → Shared → Type 0
GoesOn y t s =
    (c : Conn) → get_elem? s.threads t ≡ some (using c) → contains c.serial y.closed ≡ false

-- The steps of the threads and of Stop.
pub data Stops (max_size max_num_per_shard groups : ℕ) : System → System → Type 0 where
  work :
      (t : ℕ) (y : System) (s : Shared)
      → Step max_size max_num_per_shard groups t y.pool s
      → GoesOn y t s
      → Stops max_size max_num_per_shard groups y (record y { pool = s })
  call :
      (y : System)
      → y.stopper ≡ waiting
      → Stops max_size max_num_per_shard groups y (record y { stopper = copying 0 })
  copy :
      (y : System) (i : ℕ) (shard : List Conn)
      → y.stopper ≡ copying i
      → get_elem? y.pool.shards i ≡ some shard
      → Stops max_size max_num_per_shard groups y
          (record y { stopper = closing_all (front_first shard) i })
  close :
      (y : System) (i : ℕ) (c : Conn) (cs : List Conn)
      → y.stopper ≡ closing_all (c ∷ cs) i
      → Stops max_size max_num_per_shard groups y
          (record y { closed = c.serial ∷ y.closed; stopper = closing_all cs i })
  next_shard :
      (y : System) (i : ℕ)
      → y.stopper ≡ closing_all [] i
      → Stops max_size max_num_per_shard groups y (record y { stopper = copying (suc i) })
  return :
      (y : System)
      → y.stopper ≡ copying groups
      → Stops max_size max_num_per_shard groups y (record y { stopper = stopped })
