-- ===== src/Tests/Stops.antt =====
-- Stop while threads use a pool with one shard.
use cpp_database.Prelude.{◌≡◌, refl, some, true, false, [], ◌∷◌, get_elem?, arith}
use cpp_database.Driver.Calls.{contains}
use cpp_database.Pool.Threads.{Conn, Phase, Shared, looking, using, reclaiming, idle, go, store}
use cpp_database.Pool.Threads
use cpp_database.Pool.Threads.Stopping.{
  System, Stopper, waiting, copying, closing_all, work, call, copy, close,
}
use cpp_database.Pool.Threads.Stopping.Race.{Reaches, closed_in_use}
use cpp_database.Pool.Threads.Stopping.Quiet.{Quietly, Quietly-keeps_held}
use cpp_database.Pool.Threads.Stopping.Quiet

abbrev first : Conn
first = record { serial = 0; shard_id = 0 }

abbrev second : Conn
second = record { serial = 1; shard_id = 0 }

-- A pool with one connection in its shard and one thread.
abbrev shared : Phase → Shared
shared phase = record {
  shards = (first ∷ []) ∷ [];
  executor_num = 2;
  shard_id_gen = 3;
  next = 2;
  threads = phase ∷ [];
}

abbrev system : Phase → Stopper → System
system phase stopper = record { pool = shared phase; closed = []; stopper = stopper }

closed_in_use_example :
    (y' : System) × Reaches 4 4 1 (system (looking 0 3) (copying 0)) y'
    × (get_elem? y'.pool.threads 0 ≡ some (using first))
    × (contains 0 y'.closed ≡ true)
closed_in_use_example =
    closed_in_use 4 4 1 (system (looking 0 3) (copying 0)) 0 0 2 first [] refl refl refl refl

abbrev called : System
called = system (using second) (copying 0)

abbrev copied : System
copied = system (using second) (closing_all (first ∷ []) 0)

-- Stop has closed the connection of the shard, and the thread has called Reclaim.
abbrev closed_first : System
closed_first = record copied { closed = 0 ∷ []; stopper = closing_all [] 0 }

abbrev gives_back : System
gives_back = record closed_first { pool = shared (reclaiming second) }

Quietly-keeps_held_example : contains 1 gives_back.closed ≡ false
Quietly-keeps_held_example =
    Quietly-keeps_held 4 4 1 (system (using second) waiting) gives_back 0 second (reclaiming second)
      refl refl (tt, tt) (λ x. (ground arith, λ h. ground arith))
      (Quiet.next
        (Quiet.next
          (Quiet.next (Quiet.next Quiet.start (call (system (using second) waiting) refl) (tt, tt))
            (copy called 0 (first ∷ []) refl refl) (tt, tt))
          (close copied 0 first [] refl) (tt, tt))
        (work 0 closed_first (shared (reclaiming second))
          (Threads.reclaim 0 (shared (using second)) second refl) (λ c e. ground arith))
        (tt, tt))
      refl (omega arith)
