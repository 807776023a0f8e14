-- ===== src/Pool/Threads/Exclusive.antt =====
-- No connection is in two places, whatever the order of the threads' steps.
use cpp_database.Prelude.{
  ℕ, zero, suc, ◌+◌, ◌≤◌, ◌≡◌, refl, ap, subst, Bool, some, List, [], ◌∷◌, get_elem?, set, arith,
  ◌%◌, ◌==◌, if◌then◌else◌, Bool-cases, ◌⊎◌, inl, inr,
}
use cpp_database.Pool.Threads

module _ {A : Type 0} where
  abbrev pub sum : (A → ℕ) → List A → ℕ
  sum w [] = 0
  sum w (x ∷ xs) = w x + sum w xs

  some_inj : {a b : A} → some a ≡ some b → a ≡ b
  some_inj e = cc

  pub sum-set :
      (w : A → ℕ) (xs : List A) (i : ℕ) (a b : A)
      → get_elem? xs i ≡ some a
      → sum w (set xs i b) + w a ≡ sum w xs + w b
  sum-set w [] i a b e = absurd (ground arith)
  sum-set w (x ∷ xs) zero a b e = let same : w x ≡ w a = ap w (some_inj e) in omega (arith, same)
  sum-set w (x ∷ xs) (suc i) a b e = omega (arith, sum-set w xs i a b e)

-- How often a connection is in a shard, in the hands of a thread, and anywhere.
abbrev pub one : ℕ → Threads.Conn → ℕ
one x c = if c.serial == x then 1 else 0

abbrev pub held : ℕ → Threads.Phase → ℕ
held x Threads.Phase.idle = 0
held x (Threads.Phase.looking shard_id n) = 0
held x (Threads.Phase.closing c shard_id n) = one x c
held x (Threads.Phase.creating shard_id) = 0
held x (Threads.Phase.using c) = one x c
held x (Threads.Phase.reclaiming c) = one x c
held x (Threads.Phase.discarding c) = one x c

abbrev pub places : ℕ → Threads.Shared → ℕ
places x s = sum (sum (one x)) s.shards + sum (held x) s.threads

-- Every connection is in one place at most, and a name that is not used yet is nowhere.
abbrev pub AreExclusive : Threads.Shared → Type 0
AreExclusive s = (x : ℕ) → (places x s ≤ 1) × (s.next ≤ x → places x s ≡ 0)

-- A thread that goes on, and one that also writes a shard back.
places-go :
    (x t : ℕ) (s : Threads.Shared) (old phase : Threads.Phase)
    → get_elem? s.threads t ≡ some old
    → places x (Threads.go s t phase) + held x old ≡ places x s + held x phase
places-go x t s old phase e = omega (arith, sum-set (held x) s.threads t old phase e)

places-store :
    (x t i : ℕ) (s : Threads.Shared) (old phase : Threads.Phase) (shard shard' : List Threads.Conn)
    → get_elem? s.threads t ≡ some old
    → get_elem? s.shards i ≡ some shard
    → places x (Threads.go (Threads.store s i shard') t phase) + held x old + sum (one x) shard
      ≡ places x s + held x phase + sum (one x) shard'
places-store x t i s old phase shard shard' e e' = omega (
  arith,
  sum-set (held x) s.threads t old phase e,
  sum-set (sum (one x)) s.shards i shard shard' e',
)

-- A step makes no connection, or one with the next name.
abbrev pub Moves : Threads.Shared → Threads.Shared → Type 0
Moves s s' =
    ((s'.next ≡ s.next) × ((x : ℕ) → places x s' ≤ places x s))
    ⊎ ((s'.next ≡ s.next + 1)
        × ((x : ℕ) → places x s' ≤ places x s + (if s.next == x then 1 else 0)))

pub Moves-AreExclusive : (s s' : Threads.Shared) → Moves s s' → AreExclusive s → AreExclusive s'
Moves-AreExclusive s s' (inl (same, fewer)) h x = (
  omega (arith, fewer x, (h x).0),
  λ fresh. let none_before = (h x).1 (omega (arith, same)) in omega (arith, fewer x, none_before),
)
Moves-AreExclusive s s' (inr (more, made)) h x = elim (Bool-cases (s.next == x)) [
  | inl new ↦
      let here : s.next ≡ x = ground arith in
      let none_before = (h x).1 (omega (arith, here)) in
      let at_most : places x s' ≤ places x s + 1 =
        subst (λ (b : Bool). places x s' ≤ places x s + (if b then 1 else 0)) new (made x) in
      (omega (arith, at_most, none_before), λ fresh. absurd (omega (arith, more, here)))
  | inr other ↦
      let at_most : places x s' ≤ places x s + 0 =
        subst (λ (b : Bool). places x s' ≤ places x s + (if b then 1 else 0)) other (made x) in
      (
        omega (arith, at_most, (h x).0),
        λ fresh.
            let none_before = (h x).1 (omega (arith, more)) in omega (arith, at_most, none_before),
      )
]

module _ (max_size max_num_per_shard groups : ℕ) where
  pub Step-Moves :
      (t : ℕ) (s s' : Threads.Shared)
      → Threads.Step max_size max_num_per_shard groups t s s'
      → Moves s s'
  Step-Moves t s s' (Threads.get_executor _ _ e) = inl (
    refl,
    λ x. omega (
      arith,
      places-go x t s Threads.idle (Threads.looking s.shard_id_gen Threads.conn_retry_num) e,
    ),
  )
  Step-Moves t s s' (Threads.take _ _ shard_id n c shard e e') = inl (
    refl,
    λ x. omega (
      arith,
      places-store x t (shard_id % groups) s (Threads.looking shard_id (suc n)) (Threads.using c)
          (c ∷ shard) shard e e',
    ),
  )
  Step-Moves t s s' (Threads.take_unusable _ _ shard_id n c shard e e') = inl (
    refl,
    λ x. omega (
      arith,
      places-store x t (shard_id % groups) s (Threads.looking shard_id (suc n))
          (Threads.closing c shard_id n) (c ∷ shard) shard e e',
    ),
  )
  Step-Moves t s s' (Threads.find_empty _ _ shard_id n e e') = inl (
    refl,
    λ x.
        omega
          (arith, places-go x t s (Threads.looking shard_id (suc n)) (Threads.creating shard_id) e),
  )
  Step-Moves t s s' (Threads.close _ _ shard_id n c e) = inl (
    refl,
    λ x.
        omega
          (arith, places-go x t s (Threads.closing c shard_id n) (Threads.looking shard_id n) e),
  )
  Step-Moves t s s' (Threads.exhaust _ _ shard_id e) = inl (
    refl,
    λ x.
        omega
          (arith, places-go x t s (Threads.looking shard_id zero) (Threads.creating shard_id) e),
  )
  Step-Moves t s s' (Threads.connect _ _ shard_id e) = inr (
    refl,
    λ x. omega (
      arith,
      places-go x t s (Threads.creating shard_id)
          (Threads.using (record { serial = s.next; shard_id = shard_id })) e,
    ),
  )
  Step-Moves t s s' (Threads.refuse _ _ shard_id e) =
      inr (refl, λ x. omega (arith, places-go x t s (Threads.creating shard_id) Threads.idle e))
  Step-Moves t s s' (Threads.reclaim _ _ c e) =
      inl (refl, λ x. omega (arith, places-go x t s (Threads.using c) (Threads.reclaiming c) e))
  Step-Moves t s s' (Threads.put_back _ _ c shard e e' _) = inl (
    refl,
    λ x. omega (
      arith,
      places-store x t (c.shard_id % groups) s (Threads.reclaiming c) Threads.idle shard (c ∷ shard)
          e e',
    ),
  )
  Step-Moves t s s' (Threads.turn_away _ _ c shard e e' _) =
      inl
        (refl, λ x. omega (arith, places-go x t s (Threads.reclaiming c) (Threads.discarding c) e))
  Step-Moves t s s' (Threads.reclaim_failed _ _ c e) =
      inl (refl, λ x. omega (arith, places-go x t s (Threads.using c) (Threads.discarding c) e))
  Step-Moves t s s' (Threads.discard _ _ c e) =
      inl (refl, λ x. omega (arith, places-go x t s (Threads.discarding c) Threads.idle e))

  -- If every connection is in one place at most, in a shard or in the hands of a thread, and the names
  -- that are still to be used are nowhere, then so it is in every state that any number of threads can
  -- reach, in any order of their steps: a connection is never handed to two threads.
  pub Reach-AreExclusive :
      (s s' : Threads.Shared)
      → Threads.Reach max_size max_num_per_shard groups s s'
      → AreExclusive s
      → AreExclusive s'
  Reach-AreExclusive s s' Threads.start h = h
  Reach-AreExclusive s s' (Threads.next {s₁} t before step) h =
      Moves-AreExclusive s₁ s' (Step-Moves t s₁ s' step) (Reach-AreExclusive s s₁ before h)
