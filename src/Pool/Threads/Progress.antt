-- ===== src/Pool/Threads/Progress.antt =====
-- A call on the pool ends within a fixed number of the thread's own steps, and no thread blocks it.
use cpp_database.Prelude.{
  ℕ, zero, suc, ◌+◌, ◌*◌, ◌≤◌, ◌<◌, ◌≡◌, ◌≢◌, refl, sym, ap, subst, ◌∙◌, Option, none, some, List,
  [], ◌∷◌, length, get_elem?, get_elem?-some, get_elem?-set, get_elem?-set_other, length-set, set,
  arith, ◌%◌, Bool-cases, ◌⊎◌, inl, inr, leb, leb→le,
}
use cpp_database.Pool.Threads

-- A bound of the steps that a thread has left in its call.
abbrev pub cost : Threads.Phase → ℕ
cost Threads.Phase.idle = 0
cost (Threads.Phase.looking shard_id n) = 2 * n + 2
cost (Threads.Phase.closing c shard_id n) = 2 * n + 3
cost (Threads.Phase.creating shard_id) = 1
cost (Threads.Phase.using c) = 0
cost (Threads.Phase.reclaiming c) = 2
cost (Threads.Phase.discarding c) = 1

abbrev pub cost_of : Option Threads.Phase → ℕ
cost_of none = 0
cost_of (some phase) = cost phase

abbrev pub cost_at : ℕ → Threads.Shared → ℕ
cost_at t s = cost_of (get_elem? s.threads t)

rest_lt : (a b : ℕ) → 1 ≤ b → a % b < b
rest_lt a zero h = absurd (omega arith)
rest_lt a (suc b) h = omega arith

module _ (max_size max_num_per_shard groups : ℕ) where
  -- What a step does to the phases: the thread goes on, with less to do if it is in a call.
  abbrev Goes : ℕ → Threads.Shared → Threads.Shared → Type 0
  Goes t s s' =
      (old phase : Threads.Phase) × (get_elem? s.threads t ≡ some old)
      × (s'.threads ≡ set s.threads t phase)
      × (1 ≤ cost old → cost phase + 1 ≤ cost old)
      × (length s'.shards ≡ length s.shards)

  Step-Goes :
      (t : ℕ) (s s' : Threads.Shared)
      → Threads.Step max_size max_num_per_shard groups t s s'
      → Goes t s s'
  Step-Goes t s s' (Threads.get_executor _ _ e) = (
    Threads.idle,
    Threads.looking s.shard_id_gen Threads.conn_retry_num,
    e,
    refl,
    (λ h. omega arith),
    refl,
  )
  Step-Goes t s s' (Threads.take _ _ shard_id n c shard e e') = (
    Threads.looking shard_id (suc n),
    Threads.using c,
    e,
    refl,
    (λ h. omega arith),
    length-set s.shards (shard_id % groups) shard,
  )
  Step-Goes t s s' (Threads.take_unusable _ _ shard_id n c shard e e') = (
    Threads.looking shard_id (suc n),
    Threads.closing c shard_id n,
    e,
    refl,
    (λ h. omega arith),
    length-set s.shards (shard_id % groups) shard,
  )
  Step-Goes t s s' (Threads.find_empty _ _ shard_id n e e') = (
    Threads.looking shard_id (suc n),
    Threads.creating shard_id,
    e,
    refl,
    (λ h. omega arith),
    refl,
  )
  Step-Goes t s s' (Threads.close _ _ shard_id n c e) =
      (Threads.closing c shard_id n, Threads.looking shard_id n, e, refl, (λ h. omega arith), refl)
  Step-Goes t s s' (Threads.exhaust _ _ shard_id e) =
      (Threads.looking shard_id zero, Threads.creating shard_id, e, refl, (λ h. omega arith), refl)
  Step-Goes t s s' (Threads.connect _ _ shard_id e) = (
    Threads.creating shard_id,
    Threads.using (record { serial = s.next; shard_id = shard_id }),
    e,
    refl,
    (λ h. omega arith),
    refl,
  )
  Step-Goes t s s' (Threads.refuse _ _ shard_id e) =
      (Threads.creating shard_id, Threads.idle, e, refl, (λ h. omega arith), refl)
  Step-Goes t s s' (Threads.reclaim _ _ c e) =
      (Threads.using c, Threads.reclaiming c, e, refl, (λ h. omega arith), refl)
  Step-Goes t s s' (Threads.put_back _ _ c shard e e' _) = (
    Threads.reclaiming c,
    Threads.idle,
    e,
    refl,
    (λ h. omega arith),
    length-set s.shards (c.shard_id % groups) (c ∷ shard),
  )
  Step-Goes t s s' (Threads.turn_away _ _ c shard e e' _) =
      (Threads.reclaiming c, Threads.discarding c, e, refl, (λ h. omega arith), refl)
  Step-Goes t s s' (Threads.reclaim_failed _ _ c e) =
      (Threads.using c, Threads.discarding c, e, refl, (λ h. omega arith), refl)
  Step-Goes t s s' (Threads.discard _ _ c e) =
      (Threads.discarding c, Threads.idle, e, refl, (λ h. omega arith), refl)

  -- A run with a number of steps of thread `t`, all of them in its call, and any steps of others.
  pub data During (t : ℕ) (s : Threads.Shared) : ℕ → Threads.Shared → Type 0 where
    start : During t s 0 s
    other :
        {k : ℕ} {s₁ s₂ : Threads.Shared} (u : ℕ)
        → During t s k s₁
        → u ≢ t
        → Threads.Step max_size max_num_per_shard groups u s₁ s₂
        → During t s k s₂
    own :
        {k : ℕ} {s₁ s₂ : Threads.Shared}
        → During t s k s₁
        → 1 ≤ cost_at t s₁
        → Threads.Step max_size max_num_per_shard groups t s₁ s₂
        → During t s (suc k) s₂

  During-cost :
      (t : ℕ) (s : Threads.Shared) (k : ℕ) (s' : Threads.Shared)
      → During t s k s'
      → (cost_at t s' + k ≤ cost_at t s) × (length s'.shards ≡ length s.shards)
  During-cost t s k s' start = (omega arith, refl)
  During-cost t s k s' (other {s₁ = s₁} u before apart step) =
      let (left, same) = During-cost t s k s₁ before in
      let (old, phase, e, written, _, kept) = Step-Goes u s₁ s' step in
      let alone : cost_at t s' ≡ cost_at t s₁ = ap cost_of (
        ap (λ (ts : List Threads.Phase). get_elem? ts t) written
        ∙ get_elem?-set_other s₁.threads u t phase apart) in
      (omega (arith, alone, left), kept ∙ same)
  During-cost t s _ s' (own {k = k} {s₁ = s₁} before busy step) =
      let (left, same) = During-cost t s k s₁ before in
      let (old, phase, e, written, less, kept) = Step-Goes t s₁ s' step in
      let was : cost_at t s₁ ≡ cost old = ap cost_of e in
      let is : cost_at t s' ≡ cost phase = ap cost_of (
        ap (λ (ts : List Threads.Phase). get_elem? ts t) written
        ∙ get_elem?-set s₁.threads t old phase e) in
      let fewer = less (omega (arith, was)) in (omega (arith, was, is, left, fewer), kept ∙ same)

  -- Within a call the thread has a step, whatever the others do.
  progress :
      (t : ℕ) (s : Threads.Shared) (phase : Threads.Phase)
      → get_elem? s.threads t ≡ some phase
      → 1 ≤ cost phase
      → length s.shards ≡ groups
      → 1 ≤ groups
      → (s' : Threads.Shared) × Threads.Step max_size max_num_per_shard groups t s s'
  progress t s Threads.idle e busy wide h = absurd (omega arith)
  progress t s (Threads.looking shard_id zero) e busy wide h =
      (Threads.go s t (Threads.creating shard_id), Threads.exhaust t s shard_id e)
  progress t s (Threads.looking shard_id (suc n)) e busy wide h =
      let (shard, found) =
        get_elem?-some s.shards (shard_id % groups)
          (subst (λ (m : ℕ). shard_id % groups < m) (sym wide) (rest_lt shard_id groups h)) in
      look shard found
    where
      look :
          (shard : List Threads.Conn)
          → get_elem? s.shards (shard_id % groups) ≡ some shard
          → (s' : Threads.Shared) × Threads.Step max_size max_num_per_shard groups t s s'
      look [] found =
          (Threads.go s t (Threads.creating shard_id), Threads.find_empty t s shard_id n e found)
      look (c ∷ shard) found = (
        Threads.go (Threads.store s (shard_id % groups) shard) t (Threads.using c),
        Threads.take t s shard_id n c shard e found,
      )
  progress t s (Threads.closing c shard_id n) e busy wide h =
      (Threads.go s t (Threads.looking shard_id n), Threads.close t s shard_id n c e)
  progress t s (Threads.creating shard_id) e busy wide h =
      (Threads.go (record s { next = s.next + 1 }) t Threads.idle, Threads.refuse t s shard_id e)
  progress t s (Threads.using c) e busy wide h = absurd (omega arith)
  progress t s (Threads.reclaiming c) e busy wide h =
      let (shard, found) =
        get_elem?-some s.shards (c.shard_id % groups)
          (subst (λ (m : ℕ). c.shard_id % groups < m) (sym wide) (rest_lt c.shard_id groups h)) in
      elim (Bool-cases (Threads.accepts max_size max_num_per_shard s shard)) [
        | inl room ↦ (
          Threads.go (Threads.store s (c.shard_id % groups) (c ∷ shard)) t Threads.idle,
          Threads.put_back t s c shard e found room,
        )
        | inr full ↦
            (Threads.go s t (Threads.discarding c), Threads.turn_away t s c shard e found full)
      ]
  progress t s (Threads.discarding c) e busy wide h = (
    Threads.go (record s { executor_num = Threads.next_u32 s.executor_num }) t Threads.idle,
    Threads.discard t s c e,
  )

  -- In a pool with at least one shard, a thread that is in GetExecutor or Reclaim takes at most as
  -- many of its own steps in that call as its cost, which is 8 where GetExecutor has taken its shard
  -- number and 2 where Reclaim has been called; and whatever the others have done, in any order, its
  -- call has ended or it has a step.
  pub call_ends :
      (t : ℕ) (s : Threads.Shared) (k : ℕ) (s' : Threads.Shared)
      → length s.shards ≡ groups
      → 1 ≤ groups
      → During t s k s'
      → (k ≤ cost_at t s)
        × ((cost_at t s' ≡ 0)
            ⊎ ((s'' : Threads.Shared) × Threads.Step max_size max_num_per_shard groups t s' s''))
  call_ends t s k s' wide h run =
      let (left, same) = During-cost t s k s' run in
      (omega (arith, left), step_at (get_elem? s'.threads t) refl (same ∙ wide))
    where
      step_at :
          (found : Option Threads.Phase)
          → get_elem? s'.threads t ≡ found
          → length s'.shards ≡ groups
          → (cost_of found ≡ 0)
            ⊎ ((s'' : Threads.Shared) × Threads.Step max_size max_num_per_shard groups t s' s'')
      step_at none e all_groups = inl refl
      step_at (some phase) e all_groups = elim (Bool-cases (leb 1 (cost phase))) [
        | inl busy ↦ inr (progress t s' phase e (leb→le 1 (cost phase) busy) all_groups h)
        | inr done ↦ inl (ground arith)
      ]
