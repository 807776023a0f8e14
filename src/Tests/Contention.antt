-- ===== src/Tests/Contention.antt =====
-- Two threads at a pool with one shard.
use cpp_database.Prelude.{◌≤◌, ◌≡◌, refl, ◌⊎◌, All, [], ◌∷◌, arith}
use cpp_database.Pool.Threads
use cpp_database.Pool.Threads.Bounds.{IsWithin, Reach-IsWithin}
use cpp_database.Pool.Threads.Exclusive.{AreExclusive, Reach-AreExclusive}
use cpp_database.Pool.Threads.Progress.{start, own, cost_at, call_ends}

-- Both threads have called GetExecutor.
abbrev both_looking : Threads.Shared
both_looking = record {
  shards = [] ∷ [];
  executor_num = 0;
  shard_id_gen = 2;
  next = 0;
  threads = Threads.looking 0 3 ∷ Threads.looking 1 3 ∷ [];
}

abbrev first_creates : Threads.Shared
first_creates = Threads.go both_looking 0 (Threads.creating 0)

abbrev both_create : Threads.Shared
both_create = Threads.go first_creates 1 (Threads.creating 1)

-- Thread 1 opens a connection, while thread 0 has not yet.
abbrev second_uses : Threads.Shared
second_uses =
    Threads.go (record both_create { executor_num = 1; next = 1 }) 1
      (Threads.using (record { serial = 0; shard_id = 1 }))

Reach-AreExclusive_example : AreExclusive second_uses
Reach-AreExclusive_example =
    Reach-AreExclusive 8 8 1 both_looking second_uses
      (Threads.next 1
        (Threads.next 1
          (Threads.next 0 Threads.start (Threads.find_empty 0 both_looking 0 2 refl refl))
          (Threads.find_empty 1 first_creates 1 2 refl refl))
        (Threads.connect 1 both_create 1 refl))
      (λ x. (omega arith, λ _. refl))

call_ends_example :
    (1 ≤ cost_at 0 both_looking)
    × ((cost_at 0 first_creates ≡ 0)
        ⊎ ((s'' : Threads.Shared) × Threads.Step 8 8 1 0 first_creates s''))
call_ends_example =
    call_ends 8 8 1 0 both_looking 1 first_creates refl (omega arith)
      (own start (omega arith) (Threads.find_empty 0 both_looking 0 2 refl refl))

-- A share of no connection, and a thread that gives one back.
abbrev giving_back : Threads.Shared
giving_back = record {
  shards = [] ∷ [];
  executor_num = 1;
  shard_id_gen = 2;
  next = 1;
  threads = Threads.reclaiming (record { serial = 0; shard_id = 1 }) ∷ [];
}

Reach-IsWithin_example : All (IsWithin 8 0 1) ((record { serial = 0; shard_id = 1 } ∷ []) ∷ [])
Reach-IsWithin_example =
    Reach-IsWithin 8 0 1 giving_back
      (Threads.go (Threads.store giving_back 0 (record { serial = 0; shard_id = 1 } ∷ [])) 0
        Threads.idle)
      (Threads.next 0 Threads.start
        (Threads.put_back 0 giving_back (record { serial = 0; shard_id = 1 }) [] refl refl refl))
      (omega arith, tt)
