-- ===== src/Pool/Capacity/Stopped.antt =====
-- How many idle connections the pool holds after Stop and after Destroy.
use cpp_database.Prelude.{ℕ, suc, ◌+◌, ◌≡◌, refl, ap, List, [], ◌∷◌, arith, length}
use cpp_database.Driver.{MysqlApi, Machine, Ensures}
use cpp_database.Driver.Rules.{Ensures-bind, Ensures-seq}
use cpp_database.Executor.{close}
use cpp_database.Pool.{
  MysqlExecutorPool, Shard, stop, stop_shards, close_all, destroy, destroy_shards, destroy_all,
}
use cpp_database.Pool.Capacity.{IsWithin, Follows}

module _ ⦃api : MysqlApi⦄ where
  close_all-length :
      (shard : Shard) (m : Machine api.World)
      → Ensures (close_all shard m) λ (shard', _). length shard' ≡ length shard
  unfolding close_all
  close_all-length [] m = refl
  close_all-length (e ∷ shard) m = Ensures-bind _ (close e) _ m λ e' m' _.
      Ensures-seq _ _ (close_all shard) _ m' (close_all-length shard m') λ shard' _ q. ap suc q

  -- The shards keep their number and their lengths.
  SameLengths : List Shard → List Shard → Type 0
  SameLengths xs ys = (length ys ≡ length xs) × ((n : ℕ) → IsWithin n xs → IsWithin n ys)

  stop_shards-SameLengths :
      (shards : List Shard) (m : Machine api.World)
      → Ensures (stop_shards shards m) λ (shards', _). SameLengths shards shards'
  unfolding stop_shards SameLengths
  stop_shards-SameLengths [] m = (refl, λ n v. v)
  stop_shards-SameLengths (shard ∷ shards) m =
      Ensures-seq _ _ (close_all shard) _ m (close_all-length shard m) λ shard' m' same.
        Ensures-seq _ _ (stop_shards shards) _ m' (stop_shards-SameLengths shards m')
          λ shards' _ (count, keep). (ap suc count, λ n v. (omega arith, keep n v.1))

  pub stop-Follows :
      (p : MysqlExecutorPool) (m : Machine api.World) → Ensures (stop p m) λ (q, _). Follows p q
  unfolding stop SameLengths
  stop-Follows p m =
      Ensures-seq _ _ (stop_shards p.shards) _ m (stop_shards-SameLengths p.shards m)
        λ shards' _ (count, keep). record {
          same_option = refl;
          same_max = refl;
          same_groups = count;
          bounded = keep (p.max_num_per_shard + 1);
          counted = λ _. omega arith;
        }

  destroy_shards-IsWithin :
      (shards : List Shard) (m : Machine api.World)
      → Ensures
          (destroy_shards shards m)
          λ (shards', _). (length shards' ≡ length shards) × ((n : ℕ) → IsWithin n shards')
  unfolding destroy_shards
  destroy_shards-IsWithin [] m = (refl, λ n. tt)
  destroy_shards-IsWithin (shard ∷ shards) m = Ensures-bind _ (destroy_all shard) _ m λ x m₁ _.
      Ensures-seq _ _ (destroy_shards shards) _ m₁ (destroy_shards-IsWithin shards m₁)
        λ shards' m₂ (count, within). (ap suc count, λ n. (omega arith, within n))

  pub destroy-Follows :
      (p : MysqlExecutorPool) (m : Machine api.World) → Ensures (destroy p m) λ (q, _). Follows p q
  unfolding destroy
  destroy-Follows p m =
      Ensures-seq _ _ (destroy_shards p.shards) _ m (destroy_shards-IsWithin p.shards m)
        λ shards' _ (count, within). record {
          same_option = refl;
          same_max = refl;
          same_groups = count;
          bounded = λ _. within (p.max_num_per_shard + 1);
          counted = λ _. omega arith;
        }
