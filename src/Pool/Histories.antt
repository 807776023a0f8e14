-- ===== src/Pool/Histories.antt =====
-- The pool after any sequence of calls, whatever happens between them.
use cpp_database.Prelude.{
  ℕ, zero, suc, ◌+◌, ◌*◌, ◌/◌, ◌^◌, ◌≤◌, ◌<◌, ◌≡◌, refl, sym, ap, subst, ◌∙◌, true, Option, List,
  [], ◌∷◌, arith, length, replicate, All, length-replicate, leb, ◌==◌, ◌&&◌, is_some, Bool-cases,
  inl, inr,
}
use cpp_database.Driver.{MysqlApi, Machine, returns, Ensures, Ensures-at}
use cpp_database.Driver.Rules.{Ensures-bind, Ensures-when}
use cpp_database.Executor.{MysqlExecutor, close, refresh_alive_time}
use cpp_database.Pool.{
  MysqlExecutorPool, MysqlExecutorPoolOption, NodeAddr, Shard, construct, get_executor, reclaim,
  discard, stop, destroy, shard_at, shard_id_of,
}
use cpp_database.Pool.Capacity.Stopped.{stop-Follows, destroy-Follows}
use cpp_database.Pool.Capacity.{IsWithin, Follows, get_executor-Follows, reclaim-Follows}

abbrev pub total : List Shard → ℕ
total [] = 0
total (shard ∷ shards) = length shard + total shards

total-le : (n : ℕ) (shards : List Shard) → IsWithin n shards → total shards ≤ length shards * n
total-le n [] v = omega arith
total-le n (shard ∷ shards) v = omega (arith, total-le n shards v.1, v.0)

IsWithin-replicate : (n k : ℕ) → IsWithin n (replicate k [])
IsWithin-replicate n zero = tt
IsWithin-replicate n (suc k) = (omega arith, IsWithin-replicate n k)

share-le : (n k : ℕ) → 0 < k → k * (n / k + 1) ≤ n + k
share-le n k h = grind arith

module _ ⦃api : MysqlApi⦄ where
  -- The calls that were made; the world may have changed in any way between two of them.
  pub data History (p : MysqlExecutorPool) : MysqlExecutorPool → Type 0 where
    start : History p p
    got :
        {q r : MysqlExecutorPool} (e : MysqlExecutor) (m m' : Machine api.World)
        → History p q
        → get_executor q m ≡ returns ((e, r), m')
        → History p r
    reclaimed :
        {q r : MysqlExecutorPool} (ret : ℕ) (e : MysqlExecutor) (left : Option MysqlExecutor)
        (m m' : Machine api.World)
        → History p q
        → reclaim q ret e m ≡ returns ((left, r), m')
        → History p r
    stopped :
        {q r : MysqlExecutorPool} (m m' : Machine api.World)
        → History p q
        → stop q m ≡ returns (r, m')
        → History p r
    destroyed :
        {q r : MysqlExecutorPool} (m m' : Machine api.World)
        → History p q
        → destroy q m ≡ returns (r, m')
        → History p r

  unfoldable pub calls : {p q : MysqlExecutorPool} → History p q → ℕ
  calls start = 0
  calls (got e m m' h c) = suc (calls h)
  calls (reclaimed ret e left m m' h c) = suc (calls h)
  calls (stopped m m' h c) = suc (calls h)
  calls (destroyed m m' h c) = suc (calls h)

  -- What holds along a history.
  pub record Along (p q : MysqlExecutorPool) (n : ℕ) : Type 0 where
    pub same_option : q.option ≡ p.option
    pub same_max : q.max_num_per_shard ≡ p.max_num_per_shard
    pub same_groups : length q.shards ≡ length p.shards
    pub bounded :
        IsWithin (p.max_num_per_shard + 1) p.shards → IsWithin (p.max_num_per_shard + 1) q.shards
    pub counted :
        p.executor_num + n < 2 ^ 32
        → (p.executor_num ≤ q.executor_num) × (q.executor_num ≤ p.executor_num + n)

  Along-step : {p q r : MysqlExecutorPool} {n : ℕ} → Along p q n → Follows q r → Along p r (suc n)
  Along-step {p} {q} {r} {n} a f = record {
    same_option = f.same_option ∙ a.same_option;
    same_max = f.same_max ∙ a.same_max;
    same_groups = f.same_groups ∙ a.same_groups;
    bounded = λ v.
        subst (λ k. IsWithin (k + 1) r.shards) a.same_max
          (f.bounded (subst (λ k. IsWithin (k + 1) q.shards) (sym a.same_max) (a.bounded v)));
    counted =
        λ h. let c = a.counted (omega arith) in let d = f.counted (omega arith) in omega arith;
  }

  History-Along : {p q : MysqlExecutorPool} (h : History p q) → Along p q (calls h)
  unfolding calls
  History-Along start = record {
    same_option = refl;
    same_max = refl;
    same_groups = refl;
    bounded = λ v. v;
    counted = λ h. omega arith;
  }
  History-Along (got {q} {r} e m m' h c) =
      Along-step (History-Along h)
        (Ensures-at (λ ((_, x), _). Follows q x) (get_executor q m) c (get_executor-Follows q m))
  History-Along (reclaimed {q} {r} ret e left m m' h c) =
      Along-step (History-Along h)
        (Ensures-at (λ ((_, x), _). Follows q x) (reclaim q ret e m) c (reclaim-Follows q ret e m))
  History-Along (stopped {q} {r} m m' h c) =
      Along-step (History-Along h)
        (Ensures-at (λ (x, _). Follows q x) (stop q m) c (stop-Follows q m))
  History-Along (destroyed {q} {r} m m' h c) =
      Along-step (History-Along h)
        (Ensures-at (λ (x, _). Follows q x) (destroy q m) c (destroy-Follows q m))

  construct_lem :
      (option : MysqlExecutorPoolOption) (addr : NodeAddr) (m : Machine api.World)
      → Ensures (construct option addr m) λ (p, _).
        (0 < option.num_shard_group)
        × (p.max_num_per_shard ≡ option.max_size / option.num_shard_group)
        × (p.shards ≡ replicate option.num_shard_group [])
  unfolding construct
  construct_lem option addr m = elim (Bool-cases (option.num_shard_group == 0)) [
    | inl none_left ↦ rw none_left tt
    | inr some_left ↦ rw some_left (ground arith, refl, refl)
  ]

  -- Whatever calls of GetExecutor, Reclaim, Stop and Destroy that return follow the construction of a
  -- pool, it has as many shards as it was asked for, none holds more than one connection above its share of the maximum, and all of them together
  -- hold at most the maximum and one for each shard.
  pub History-IsWithin :
      (option : MysqlExecutorPoolOption) (addr : NodeAddr) (m m' : Machine api.World)
      (p q : MysqlExecutorPool)
      → construct option addr m ≡ returns (p, m')
      → History p q
      → (length q.shards ≡ option.num_shard_group)
        × All
            (λ (shard : Shard). length shard ≤ option.max_size / option.num_shard_group + 1)
            q.shards
        × (total q.shards ≤ option.max_size + option.num_shard_group)
  History-IsWithin option addr m m' p q made h =
      let (some_shard, share, shards) =
        Ensures-at
          (λ (x, _).
            (0 < option.num_shard_group)
            × (x.max_num_per_shard ≡ option.max_size / option.num_shard_group)
            × (x.shards ≡ replicate option.num_shard_group []))
          (construct option addr m) made (construct_lem option addr m) in
      let a = History-Along h in
      let count : length q.shards ≡ option.num_shard_group =
        a.same_groups ∙ ap length shards ∙ length-replicate option.num_shard_group [] in
      let within : IsWithin (option.max_size / option.num_shard_group + 1) q.shards =
        subst (λ n. IsWithin (n + 1) q.shards) share
          (a.bounded (
            subst (IsWithin (p.max_num_per_shard + 1)) (sym shards)
              (IsWithin-replicate (p.max_num_per_shard + 1) option.num_shard_group))) in
      (
        count,
        within,
        omega (
          arith,
          total-le (option.max_size / option.num_shard_group + 1) q.shards within,
          ap (λ (n : ℕ). n * (option.max_size / option.num_shard_group + 1)) count,
          share-le option.max_size option.num_shard_group some_shard,
        ),
      )

  -- What Reclaim does when the count of connections is above the maximum.
  abbrev TakesNothing :
      MysqlExecutorPool → (Option MysqlExecutor × MysqlExecutorPool) × Machine api.World → Type 0
  TakesNothing q r =
      q.max_size < q.executor_num → (is_some r.0.0 ≡ true) × (r.0.1.shards ≡ q.shards)

  discard-TakesNothing :
      (q : MysqlExecutorPool) (e : MysqlExecutor) (m : Machine api.World)
      → Ensures (discard q e m) (TakesNothing q)
  unfolding discard
  discard-TakesNothing q e m = Ensures-bind _ (close e) _ m λ e' m' _ over. (refl, refl)

  reclaim-TakesNothing :
      (q : MysqlExecutorPool) (ret : ℕ) (e : MysqlExecutor) (m : Machine api.World)
      → Ensures (reclaim q ret e m) (TakesNothing q)
  unfolding reclaim
  reclaim-TakesNothing q ret e m =
      Ensures-when _ (ret == 0) _ (discard q e) m
        (λ _. Ensures-bind _ (shard_at q (shard_id_of e.executor_id)) _ m λ (i, shard) m' _.
          Ensures-when _ (leb (length shard) q.max_num_per_shard && leb q.executor_num q.max_size) _
            (discard q e) m'
            (λ room.
              Ensures-bind (TakesNothing q) (refresh_alive_time e) _ m'
                λ e' m'' _ over. absurd (ground arith))
            (λ _. discard-TakesNothing q e m'))
        (λ _. discard-TakesNothing q e m)

  -- Once the count of connections has passed the maximum it stays above it, until it wraps, and the
  -- pool takes back no connection: Reclaim leaves the caller with an object and the shards as they
  -- were.
  pub overfull_takes_nothing :
      (p q q' : MysqlExecutorPool) (h : History p q) (ret : ℕ) (e : MysqlExecutor)
      (left : Option MysqlExecutor) (m m' : Machine api.World)
      → p.max_size < p.executor_num
      → p.executor_num + calls h < 2 ^ 32
      → reclaim q ret e m ≡ returns ((left, q'), m')
      → (q.max_size < q.executor_num) × (is_some left ≡ true) × (q'.shards ≡ q.shards)
  overfull_takes_nothing p q q' h ret e left m m' over room c =
      let a = History-Along h in
      let above : q.max_size < q.executor_num = omega (
        arith,
        (a.counted room).0,
        ap (λ (o : MysqlExecutorPoolOption). o.max_size) a.same_option,
      ) in
      let (taken, same) =
        Ensures-at (TakesNothing q) (reclaim q ret e m) c (reclaim-TakesNothing q ret e m) above in
      (above, taken, same)
