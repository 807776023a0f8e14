-- ===== src/Pool/Threads/Bounds.antt =====
-- The shards stay bounded, whatever the order of the threads' steps.
use cpp_database.Prelude.{
  ℕ, zero, suc, ◌+◌, ◌≤◌, ◌≡◌, some, List, [], ◌∷◌, length, get_elem?, set, All, All-get_elem?,
  arith, ◌%◌,
}
use cpp_database.Pool.Threads

All-set :
    {A : Type 0} (P : A → Type 0) (xs : List A) (i : ℕ) (b : A)
    → All P xs
    → P b
    → All P (set xs i b)
All-set P [] i b h p = tt
All-set P (x ∷ xs) zero b h p = (p, h.1)
All-set P (x ∷ xs) (suc i) b h p = (h.0, All-set P xs i b h.1 p)

module _ (max_size max_num_per_shard groups : ℕ) where
  -- A shard with at most one connection above its share.
  abbrev pub IsWithin : List Threads.Conn → Type 0
  IsWithin shard = length shard ≤ max_num_per_shard + 1

  taken :
      (s : Threads.Shared) (i : ℕ) (c : Threads.Conn) (shard : List Threads.Conn)
      → get_elem? s.shards i ≡ some (c ∷ shard)
      → All IsWithin s.shards
      → All IsWithin (set s.shards i shard)
  taken s i c shard e h =
      let before = All-get_elem? IsWithin s.shards i (c ∷ shard) h e in
      All-set IsWithin s.shards i shard h (omega (arith, before))

  Step-IsWithin :
      (t : ℕ) (s s' : Threads.Shared)
      → Threads.Step max_size max_num_per_shard groups t s s'
      → All IsWithin s.shards
      → All IsWithin s'.shards
  Step-IsWithin t s s' (Threads.take _ _ shard_id n c shard e e') h =
      taken s (shard_id % groups) c shard e' h
  Step-IsWithin t s s' (Threads.take_unusable _ _ shard_id n c shard e e') h =
      taken s (shard_id % groups) c shard e' h
  Step-IsWithin t s s' (Threads.put_back _ _ c shard e e' room) h =
      All-set IsWithin s.shards (c.shard_id % groups) (c ∷ shard) h (ground arith)
  Step-IsWithin t s s' (Threads.get_executor _ _ e) h = h
  Step-IsWithin t s s' (Threads.find_empty _ _ shard_id n e e') h = h
  Step-IsWithin t s s' (Threads.close _ _ shard_id n c e) h = h
  Step-IsWithin t s s' (Threads.exhaust _ _ shard_id e) h = h
  Step-IsWithin t s s' (Threads.connect _ _ shard_id e) h = h
  Step-IsWithin t s s' (Threads.refuse _ _ shard_id e) h = h
  Step-IsWithin t s s' (Threads.reclaim _ _ c e) h = h
  Step-IsWithin t s s' (Threads.turn_away _ _ c shard e e' _) h = h
  Step-IsWithin t s s' (Threads.reclaim_failed _ _ c e) h = h
  Step-IsWithin t s s' (Threads.discard _ _ c e) h = h

  -- If every shard has at most one connection above its share, then so it is in every state that any
  -- number of threads can reach, in any order of their steps.
  pub Reach-IsWithin :
      (s s' : Threads.Shared)
      → Threads.Reach max_size max_num_per_shard groups s s'
      → All IsWithin s.shards
      → All IsWithin s'.shards
  Reach-IsWithin s s' Threads.start h = h
  Reach-IsWithin s s' (Threads.next {s₁ = s₁} t before step) h =
      Step-IsWithin t s₁ s' step (Reach-IsWithin s s₁ before h)
