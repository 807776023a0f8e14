-- ===== src/Pool/Threads/Stopping/Quiet.antt =====
-- Stop while no thread is in GetExecutor.
use cpp_database.Prelude.{
  ℕ, zero, suc, ◌+◌, ◌≤◌, ◌≡◌, refl, sym, subst, ap, false, some, List, [], ◌∷◌, ◌++◌, get_elem?,
  get_elem?-set, arith, All, All-get_elem?, if◌then◌else◌,
}
use cpp_database.Driver.Calls.{contains}
use cpp_database.Pool.Threads.{
  Conn, Phase, Shared, Step, go, store, idle, looking, closing, creating, using, reclaiming,
  discarding,
}
use cpp_database.Pool.Threads
use cpp_database.Pool.Threads.Exclusive.{
  sum, sum-set, one, held, AreExclusive, Step-Moves, Moves-AreExclusive,
}
use cpp_database.Pool.Threads.Stopping.{
  System, Stops, Stopper, waiting, copying, closing_all, stopped, front_first, GoesOn,
}
use cpp_database.Pool.Threads.Stopping

-- The thread is not in GetExecutor.
abbrev pub IsQuiet : Phase → Type 0
IsQuiet (looking shard_id n) = ⊥
IsQuiet (closing c shard_id n) = ⊥
IsQuiet (creating shard_id) = ⊥
IsQuiet _ = Unit

-- How often a connection is in the hands of a thread, and whether Stop has closed it or will.
abbrev hands : ℕ → Shared → ℕ
hands x s = sum (held x) s.threads

abbrev pending : Stopper → List Conn
pending (closing_all cs i) = cs
pending waiting = []
pending (copying i) = []
pending stopped = []

abbrev doomed : ℕ → System → ℕ
doomed x y = sum (one x) (pending y.stopper) + (if contains x y.closed then 1 else 0)

-- What is in the hands of a thread is not closed.
abbrev Spares : System → Type 0
Spares y = (x : ℕ) → 1 ≤ hands x y.pool → doomed x y ≡ 0

sum-append : (x : ℕ) (cs ds : List Conn) → sum (one x) (cs ++ ds) ≡ sum (one x) cs + sum (one x) ds
sum-append x [] ds = omega arith
sum-append x (c ∷ cs) ds = omega (arith, sum-append x cs ds)

sum-front_first : (x : ℕ) (cs : List Conn) → sum (one x) (front_first cs) ≡ sum (one x) cs
sum-front_first x [] = refl
sum-front_first x (c ∷ cs) =
    omega (arith, sum-append x (front_first cs) (c ∷ []), sum-front_first x cs)

sum-get_elem? :
    {A : Type 0} (w : A → ℕ) (xs : List A) (i : ℕ) (a : A)
    → get_elem? xs i ≡ some a
    → w a ≤ sum w xs
sum-get_elem? w [] i a e = absurd (ground arith)
sum-get_elem? w (x ∷ xs) zero a e = let same : x ≡ a = cc in omega (arith, ap w same)
sum-get_elem? w (x ∷ xs) (suc i) a e = omega (arith, sum-get_elem? w xs i a e)

-- Before Stop is called nothing is doomed.
fresh-Spares : (y : System) → y.stopper ≡ waiting → y.closed ≡ [] → Spares y
fresh-Spares y before none_closed x h =
    subst (λ (k : Stopper). sum (one x) (pending k) + (if contains x y.closed then 1 else 0) ≡ 0)
      (sym before)
      (subst (λ (ns : List ℕ). 0 + (if contains x ns then 1 else 0) ≡ 0) (sym none_closed) refl)

module _ (max_size max_num_per_shard groups : ℕ) where
  -- A thread that is not in GetExecutor takes no connection.
  Step-hands :
      (t x : ℕ) (s s' : Shared)
      → Step max_size max_num_per_shard groups t s s'
      → All IsQuiet s.threads
      → All IsQuiet s'.threads
      → hands x s' ≤ hands x s
  Step-hands t x s s' (Threads.get_executor _ _ e) quiet quiet' = absurd (
      All-get_elem? IsQuiet s'.threads t (looking s.shard_id_gen Threads.conn_retry_num) quiet'
        (get_elem?-set s.threads t idle (looking s.shard_id_gen Threads.conn_retry_num) e))
  Step-hands t x s s' (Threads.take _ _ shard_id n c shard e _) quiet _ =
      absurd (All-get_elem? IsQuiet s.threads t (looking shard_id (suc n)) quiet e)
  Step-hands t x s s' (Threads.take_unusable _ _ shard_id n c shard e _) quiet _ =
      absurd (All-get_elem? IsQuiet s.threads t (looking shard_id (suc n)) quiet e)
  Step-hands t x s s' (Threads.find_empty _ _ shard_id n e _) quiet _ =
      absurd (All-get_elem? IsQuiet s.threads t (looking shard_id (suc n)) quiet e)
  Step-hands t x s s' (Threads.close _ _ shard_id n c e) quiet _ =
      absurd (All-get_elem? IsQuiet s.threads t (closing c shard_id n) quiet e)
  Step-hands t x s s' (Threads.exhaust _ _ shard_id e) quiet _ =
      absurd (All-get_elem? IsQuiet s.threads t (looking shard_id zero) quiet e)
  Step-hands t x s s' (Threads.connect _ _ shard_id e) quiet _ =
      absurd (All-get_elem? IsQuiet s.threads t (creating shard_id) quiet e)
  Step-hands t x s s' (Threads.refuse _ _ shard_id e) quiet _ =
      absurd (All-get_elem? IsQuiet s.threads t (creating shard_id) quiet e)
  Step-hands t x s s' (Threads.reclaim _ _ c e) _ _ =
      omega (arith, sum-set (held x) s.threads t (using c) (reclaiming c) e)
  Step-hands t x s s' (Threads.put_back _ _ c shard e _ _) _ _ =
      omega (arith, sum-set (held x) s.threads t (reclaiming c) idle e)
  Step-hands t x s s' (Threads.turn_away _ _ c shard e _ _) _ _ =
      omega (arith, sum-set (held x) s.threads t (reclaiming c) (discarding c) e)
  Step-hands t x s s' (Threads.reclaim_failed _ _ c e) _ _ =
      omega (arith, sum-set (held x) s.threads t (using c) (discarding c) e)
  Step-hands t x s s' (Threads.discard _ _ c e) _ _ =
      omega (arith, sum-set (held x) s.threads t (discarding c) idle e)

  -- Runs in which no thread is in GetExecutor.
  pub data Quietly (y : System) : System → Type 0 where
    start : Quietly y y
    next :
        {y₁ y₂ : System}
        → Quietly y y₁
        → Stops max_size max_num_per_shard groups y₁ y₂
        → All IsQuiet y₂.pool.threads
        → Quietly y y₂

  Stops-Spares :
      (y y' : System)
      → Stops max_size max_num_per_shard groups y y'
      → All IsQuiet y.pool.threads
      → All IsQuiet y'.pool.threads
      → AreExclusive y.pool
      → Spares y
      → Spares y' × AreExclusive y'.pool
  Stops-Spares y y' (Stopping.work t _ s step _) quiet quiet' alone spares = (
    (λ x h. spares x (omega (arith, Step-hands t x y.pool s step quiet quiet'))),
    Moves-AreExclusive y.pool s (Step-Moves max_size max_num_per_shard groups t y.pool s step)
        alone,
  )
  Stops-Spares y y' (Stopping.call _ _) quiet quiet' alone spares =
      ((λ x h. omega (arith, spares x h)), alone)
  Stops-Spares y y' (Stopping.copy _ i shard here at) quiet quiet' alone spares = (
    (λ x h. omega (
      arith,
      spares x h,
      (alone x).0,
      sum-front_first x shard,
      sum-get_elem? (sum (one x)) y.pool.shards i shard at,
    )),
    alone,
  )
  Stops-Spares y y' (Stopping.close _ i c cs here) quiet quiet' alone spares = (
    (λ x h.
        let old : sum (one x) (c ∷ cs) + (if contains x y.closed then 1 else 0) ≡ 0 =
          subst
            (λ (k : Stopper). sum (one x) (pending k) + (if contains x y.closed then 1 else 0) ≡ 0)
            here (spares x h) in
        ground (arith, old)),
    alone,
  )
  Stops-Spares y y' (Stopping.next_shard _ i here) quiet quiet' alone spares =
      ((λ x h. omega (arith, spares x h)), alone)
  Stops-Spares y y' (Stopping.return _ here) quiet quiet' alone spares =
      ((λ x h. omega (arith, spares x h)), alone)

  Quietly-Spares :
      (y y' : System)
      → Quietly y y'
      → All IsQuiet y.pool.threads
      → AreExclusive y.pool
      → Spares y
      → Spares y' × AreExclusive y'.pool × All IsQuiet y'.pool.threads
  Quietly-Spares y y' start quiet alone spares = (spares, alone, quiet)
  Quietly-Spares y y' (next {y₁} before step quiet') quiet alone spares =
      let (spares₁, alone₁, quiet₁) = Quietly-Spares y y₁ before quiet alone spares in
      let (spares', alone') = Stops-Spares y₁ y' step quiet₁ quiet' alone₁ spares₁ in
      (spares', alone', quiet')

  -- If every connection is in one place at most when Stop is called, and no thread is in GetExecutor
  -- then or later, Stop never closes a connection that a thread holds, although threads give back
  -- connections all the while.
  pub Quietly-keeps_held :
      (y y' : System) (t : ℕ) (c : Conn) (phase : Phase)
      → y.stopper ≡ waiting
      → y.closed ≡ []
      → All IsQuiet y.pool.threads
      → AreExclusive y.pool
      → Quietly y y'
      → get_elem? y'.pool.threads t ≡ some phase
      → 1 ≤ held c.serial phase
      → contains c.serial y'.closed ≡ false
  Quietly-keeps_held y y' t c phase before none_closed quiet alone run at holds =
      let (spares, _, _) =
        Quietly-Spares y y' run quiet alone (fresh-Spares y before none_closed) in
      let none_doomed =
        spares c.serial (omega (arith, sum-get_elem? (held c.serial) y'.pool.threads t phase at)) in
      ground (arith, none_doomed)
