-- ===== src/Pool/Threads/Calls.antt =====
-- Calls of GetExecutor and Reclaim of Pool by any number of threads, one call at a time: the step
-- relation allows what the functions do.
use cpp_database.Prelude.{
  ℕ, suc, ◌+◌, ◌^◌, ◌≤◌, ◌<◌, ◌≡◌, refl, subst, ◌∙◌, Option, some, List, get_elem?, set, arith,
}
use cpp_database.Driver.{MysqlApi, Machine, returns, Ensures-at}
use cpp_database.Executor.{MysqlExecutor}
use cpp_database.Pool.{MysqlExecutorPool, MysqlExecutorPoolOption, get_executor, reclaim}
use cpp_database.Pool.Capacity.{Follows, get_executor-Follows, reclaim-Follows}
use cpp_database.Pool.Naming.{Names, get_executor-Names, reclaim-Names}
use cpp_database.Pool.Threads.{Phase, Shared, Reach, idle, using}
use cpp_database.Pool.Threads
use cpp_database.Pool.Threads.Runs.{conn_of, view, held, Run}
use cpp_database.Pool.Threads.Runs
use cpp_database.Pool.Threads.Sequential.{Does, get_executor-Does}
use cpp_database.Pool.Threads.Returned.{Returns, reclaim-Returns}

Reach-Run :
    {max_size max_num_per_shard groups t : ℕ} {s s₁ s₂ : Shared}
    → Reach max_size max_num_per_shard groups s s₁
    → Run max_size max_num_per_shard groups t s₁ s₂
    → Reach max_size max_num_per_shard groups s s₂
Reach-Run r Runs.start = r
Reach-Run {t} r (Runs.next run step) = Threads.next t (Reach-Run r run) step

module _ ⦃api : MysqlApi⦄ where
  -- The calls that were made and what each thread holds; the world may have changed in any way
  -- between two of them. A thread asks for a connection when it has none, and gives back the one
  -- that it has.
  pub data Calls (p : MysqlExecutorPool) (ps : List Phase)
      : MysqlExecutorPool → List Phase → Type 0 where
    start : Calls p ps p ps
    got :
        {q r : MysqlExecutorPool} {held_before : List Phase} (t : ℕ) (e : MysqlExecutor)
        (m m' : Machine api.World)
        → Calls p ps q held_before
        → get_elem? held_before t ≡ some idle
        → get_executor q m ≡ returns ((e, r), m')
        → Calls p ps r (set held_before t (held e))
    reclaimed :
        {q r : MysqlExecutorPool} {held_before : List Phase} (t ret : ℕ) (e : MysqlExecutor)
        (left : Option MysqlExecutor) (m m' : Machine api.World)
        → Calls p ps q held_before
        → get_elem? held_before t ≡ some (using (conn_of e))
        → reclaim q ret e m ≡ returns ((left, r), m')
        → Calls p ps r (set held_before t idle)

  unfoldable pub count :
      {p : MysqlExecutorPool} {threads : List Phase} {q : MysqlExecutorPool} {threads' : List Phase}
      → Calls p threads q threads'
      → ℕ
  count start = 0
  count (got t e m m' h _ _) = suc (count h)
  count (reclaimed t ret e left m m' h _ _) = suc (count h)

  -- What holds along a sequence of calls.
  record Along (p q : MysqlExecutorPool) (threads threads' : List Phase) (n : ℕ) : Type 0 where
    same_option : q.option ≡ p.option
    same_max : q.max_num_per_shard ≡ p.max_num_per_shard
    names : q.executor_id_gen ≤ p.executor_id_gen + n
    small : q.shard_id_gen < 2 ^ 32
    run : Reach p.max_size p.max_num_per_shard p.num_shard_group (view p threads) (view q threads')

  Along-step :
      {p q r : MysqlExecutorPool} {threads threads' threads'' : List Phase} {n : ℕ} (t : ℕ)
      → p.executor_id_gen + suc n < 2 ^ 32
      → Along p q threads threads' n
      → Follows q r
      → Names q r
      → Run q.max_size q.max_num_per_shard q.num_shard_group t (view q threads') (view r threads'')
      → Along p r threads threads'' (suc n)
  Along-step {p} {q} {r} {threads} {threads'} {threads''} t few a f n run = record {
    same_option = f.same_option ∙ a.same_option;
    same_max = f.same_max ∙ a.same_max;
    names = let before = a.names in let more = n.one_more (omega arith) in omega arith;
    small = n.wraps a.small;
    run = Reach-Run a.run (
        subst
          (λ (o : MysqlExecutorPoolOption).
            Run o.max_size p.max_num_per_shard o.num_shard_group t (view q threads')
              (view r threads''))
          a.same_option
          (subst (λ k. Run q.max_size k q.num_shard_group t (view q threads') (view r threads''))
            a.same_max run));
  }

  Calls-Along :
      (p : MysqlExecutorPool) (threads : List Phase) (q : MysqlExecutorPool) (threads' : List Phase)
      (h : Calls p threads q threads')
      → p.shard_id_gen < 2 ^ 32
      → p.executor_id_gen + count h < 2 ^ 32
      → Along p q threads threads' (count h)
  unfolding count
  Calls-Along p threads q threads' start small few = record {
    same_option = refl;
    same_max = refl;
    names = omega arith;
    small = small;
    run = Threads.start;
  }
  Calls-Along p threads q threads' (got {q = q₀} {held_before} t e m m' h here made) small few =
      let a = Calls-Along p threads q₀ held_before h small (omega arith) in
      let names = a.names in
      Along-step t few a
        (Ensures-at (λ ((_, x), _). Follows q₀ x) (get_executor q₀ m) made
          (get_executor-Follows q₀ m))
        (Ensures-at (λ ((_, x), _). Names q₀ x) (get_executor q₀ m) made (get_executor-Names q₀ m))
        (Ensures-at
          (λ ((e', x), _). Does q₀.max_size q₀.max_num_per_shard t q₀ held_before x (held e'))
          (get_executor q₀ m) made
          (get_executor-Does q₀.max_size q₀.max_num_per_shard t q₀ held_before m here a.small
            (omega arith)))
  Calls-Along p threads q threads' (reclaimed {q = q₀} {held_before} t ret e left m m' h here made)
        small few =
      let a = Calls-Along p threads q₀ held_before h small (omega arith) in
      Along-step t few a
        (Ensures-at (λ ((_, x), _). Follows q₀ x) (reclaim q₀ ret e m) made
          (reclaim-Follows q₀ ret e m))
        (Ensures-at (λ ((_, x), _). Names q₀ x) (reclaim q₀ ret e m) made
          (reclaim-Names q₀ ret e m))
        (Ensures-at (λ ((_, x), _). Returns t q₀ held_before x) (reclaim q₀ ret e m) made
          (reclaim-Returns t q₀ ret e held_before m here))

  -- Whatever calls of GetExecutor and Reclaim the threads make, one at a time, as long as no running
  -- number wraps, the steps of the threads lead to the pool that the functions leave, with each
  -- thread holding the connection that it was handed, if that is connected.
  pub Calls-Reach :
      (p : MysqlExecutorPool) (threads : List Phase) (q : MysqlExecutorPool) (threads' : List Phase)
      (h : Calls p threads q threads')
      → p.shard_id_gen < 2 ^ 32
      → p.executor_id_gen + count h < 2 ^ 32
      → Reach p.max_size p.max_num_per_shard p.num_shard_group (view p threads) (view q threads')
  Calls-Reach p threads q threads' h small few = (Calls-Along p threads q threads' h small few).run
