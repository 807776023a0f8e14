-- ===== src/Pool/Threads/Stopping/Race.antt =====
-- A connection that Stop closes in the hands of a thread.
use cpp_database.Prelude.{
  ℕ, suc, ◌%◌, ◌≡◌, refl, sym, subst, ◌∙◌, true, false, some, List, [], ◌∷◌, ◌++◌, get_elem?,
  get_elem?-set, arith,
}
use cpp_database.Driver.Calls.{contains}
use cpp_database.Pool.Threads.{Conn, Shared, go, store, looking, using}
use cpp_database.Pool.Threads
use cpp_database.Pool.Threads.Stopping.{
  System, Stops, copying, closing_all, front_first, work, copy, close,
}

-- The names that are closed after those of a list.
abbrev close_names : List Conn → List ℕ → List ℕ
close_names [] closed = closed
close_names (c ∷ cs) closed = close_names cs (c.serial ∷ closed)

contains-close_names_last :
    (cs : List Conn) (c : Conn) (closed : List ℕ)
    → contains c.serial (close_names (cs ++ c ∷ []) closed) ≡ true
contains-close_names_last [] c closed = ground arith
contains-close_names_last (d ∷ cs) c closed = contains-close_names_last cs c (d.serial ∷ closed)

using_inj : {c d : Conn} → some (using c) ≡ some (using d) → c ≡ d
using_inj e = cc

module _ (max_size max_num_per_shard groups : ℕ) where
  -- What the threads and Stop can reach.
  pub data Reaches (y : System) : System → Type 0 where
    start : Reaches y y
    next :
        {y₁ y₂ : System}
        → Reaches y y₁
        → Stops max_size max_num_per_shard groups y₁ y₂
        → Reaches y y₂

  closes :
      (y : System) (pool : Shared) (closed : List ℕ) (cs : List Conn) (i : ℕ)
      → Reaches y (record { pool = pool; closed = closed; stopper = closing_all cs i })
      → Reaches y
          (record { pool = pool; closed = close_names cs closed; stopper = closing_all [] i })
  closes y pool closed [] i r = r
  closes y pool closed (c ∷ cs) i r = closes y pool (c.serial ∷ closed) cs i (
      next r (
        close (record { pool = pool; closed = closed; stopper = closing_all (c ∷ cs) i }) i c cs
          refl))

  -- Where Stop has come to a shard into which a thread looks in GetExecutor, and the connection at its
  -- back has not been closed, the thread can be handed that connection and Stop can close it while
  -- the thread uses it.
  pub closed_in_use :
      (y : System) (t shard_id n : ℕ) (c : Conn) (shard : List Conn)
      → y.stopper ≡ copying (shard_id % groups)
      → get_elem? y.pool.threads t ≡ some (looking shard_id (suc n))
      → get_elem? y.pool.shards (shard_id % groups) ≡ some (c ∷ shard)
      → contains c.serial y.closed ≡ false
      → (y' : System) × Reaches y y'
        × (get_elem? y'.pool.threads t ≡ some (using c))
        × (contains c.serial y'.closed ≡ true)
  closed_in_use y t shard_id n c shard here looks at not_closed = (
    record {
      pool = after;
      closed = close_names (front_first (c ∷ shard)) y.closed;
      stopper = closing_all [] (shard_id % groups);
    },
    closes y after y.closed (front_first (c ∷ shard)) (shard_id % groups) (
        next (next start (copy y (shard_id % groups) (c ∷ shard) here at)) (
          work t (record y { stopper = closing_all (front_first (c ∷ shard)) (shard_id % groups) })
            after (Threads.take t y.pool shard_id n c shard looks at)
            λ c' e.
              subst (λ (d : Conn). contains d.serial y.closed ≡ false) (using_inj (sym taken ∙ e))
                not_closed)),
    taken,
    contains-close_names_last (front_first shard) c y.closed,
  )
    where
      after : Shared
      after = go (store y.pool (shard_id % groups) shard) t (using c)

      taken : get_elem? after.threads t ≡ some (using c)
      taken = get_elem?-set y.pool.threads t (looking shard_id (suc n)) (using c) looks
