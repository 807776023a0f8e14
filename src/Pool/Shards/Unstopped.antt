-- ===== src/Pool/Shards/Unstopped.antt =====
-- Destroying a pool that holds a connected object.
use cpp_database.Prelude.{
  ◌≡◌, refl, ◌∙◌, Bool, true, false, List, [], ◌∷◌, ◌++◌, arith, ◌||◌, Bool-cases, inl, inr,
}
use cpp_database.Driver.{MysqlApi, Machine, faults, assertion_failed, Io, pure, ◌>>=◌}
use cpp_database.Driver.Rules.{bind_returns, bind_faults}
use cpp_database.Executor
use cpp_database.Executor.{MysqlExecutor, close}
use cpp_database.Pool.{MysqlExecutorPool, Shard, destroy, destroy_shards, destroy_all}
use cpp_database.Pool.Shards.{
  idle, AreClosed, destroy_closed, destroy_connected, destroy_all-AreClosed,
}

abbrev pub any_connected : List MysqlExecutor → Bool
any_connected [] = false
any_connected (e ∷ es) = e.is_connected || any_connected es

none_connected : (es : List MysqlExecutor) → any_connected es ≡ false → AreClosed es
none_connected [] h = tt
none_connected (e ∷ es) h = (ground arith, none_connected es (ground arith))

any_connected-append :
    (xs ys : List MysqlExecutor) → any_connected (xs ++ ys) ≡ any_connected xs || any_connected ys
any_connected-append [] ys = refl
any_connected-append (x ∷ xs) ys = ground (arith, any_connected-append xs ys)

module _ ⦃api : MysqlApi⦄ where
  destroy_all_connected :
      (shard : Shard) (m : Machine api.World)
      → any_connected shard ≡ true
      → destroy_all shard m ≡ faults assertion_failed
  unfolding destroy_all
  destroy_all_connected [] m h = absurd (ground arith)
  destroy_all_connected (e ∷ shard) m h = elim (Bool-cases e.is_connected) [
    | inl up ↦
        bind_faults (Executor.destroy e) (λ _. destroy_all shard) m (destroy_connected e m up)
    | inr down ↦
        bind_returns (Executor.destroy e) (λ _. destroy_all shard) m (destroy_closed e m down)
        ∙ destroy_all_connected shard m (ground arith)
  ]

  destroy_shards_connected :
      (shards : List Shard) (m : Machine api.World)
      → any_connected (idle shards) ≡ true
      → destroy_shards shards m ≡ faults assertion_failed
  unfolding destroy_shards
  destroy_shards_connected [] m h = absurd (ground arith)
  destroy_shards_connected (shard ∷ shards) m h = elim (Bool-cases (any_connected shard)) [
    | inl up ↦ bind_faults (destroy_all shard) (λ _. rest) m (destroy_all_connected shard m up)
    | inr down ↦
        bind_returns (destroy_all shard) (λ _. rest) m
          (destroy_all-AreClosed shard m (none_connected shard down))
        ∙ bind_faults (destroy_shards shards) (λ shards'. pure ([] ∷ shards')) m
            (destroy_shards_connected shards m
              (ground (arith, any_connected-append shard (idle shards))))
  ]
    where
      rest : Io (List Shard)
      rest = destroy_shards shards >>= λ shards'. pure ([] ∷ shards')

  -- Destroying a pool that holds a connected object, as without Stop, fails the assertion in the
  -- destructor of MysqlExecutor.
  destroy_unstopped :
      (p : MysqlExecutorPool) (m : Machine api.World)
      → any_connected (idle p.shards) ≡ true
      → destroy p m ≡ faults assertion_failed
  unfolding destroy
  destroy_unstopped p m h =
      bind_faults (destroy_shards p.shards) (λ shards. pure (record p { shards = shards })) m
        (destroy_shards_connected p.shards m h)
