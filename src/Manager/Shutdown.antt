-- ===== src/Manager/Shutdown.antt =====
-- Stop and Destroy of the pool manager: every connection of every pool is closed.
use cpp_database.Prelude.{◌≡◌, refl, sym, ap, subst, ◌∙◌, ◌≢◌, none, some, List, [], ◌∷◌, ◌++◌, All}
use cpp_database.Prelude.Text.{Bytes}
use cpp_database.Driver.{MysqlApi, Machine, Io, Yields, ◌>>=◌}
use cpp_database.Driver.Rules.{Yields-bind, Yields-weaken}
use cpp_database.Executor.{MysqlExecutor}
use cpp_database.Framework.{PoolMap}
use cpp_database.Pool
use cpp_database.Pool.{MysqlExecutorPool}
use cpp_database.Pool.Shards.{
  idle, IsOwned, AreClosed, without, without-append, AreClosed-append, AreClosed-split,
  stop-AreClosed, destroy-AreClosed,
}
use cpp_database.Manager.{
  MysqlExecutorPoolManager, pool_at, stop_pools, stop, destroy_pools, destroy,
}

-- A pool that is changed is what the map has at its key, if it had one there, and no other key is
-- changed by it.
pub record MapLaws (pools : PoolMap) : Type 0 where
  pub get_update :
      (map : pools.Map) (key : Bytes) (old p : MysqlExecutorPool)
      → pools.get map key ≡ some old
      → pools.get (pools.update map key p) key ≡ some p
  pub get_other :
      (map : pools.Map) (key other : Bytes) (p : MysqlExecutorPool)
      → key ≢ other
      → pools.get (pools.update map key p) other ≡ pools.get map other

-- Different keys.
abbrev pub AreDistinct : List Bytes → Type 0
AreDistinct [] = Unit
AreDistinct (key ∷ keys) = All (λ other. key ≢ other) keys × AreDistinct keys

-- All connections of some pools.
abbrev pub connections : List MysqlExecutorPool → List MysqlExecutor
connections [] = []
connections (p ∷ ps) = idle p.shards ++ connections ps

module _ ⦃pools : PoolMap⦄ where
  -- The pools behind the keys.
  abbrev pub Holds : pools.Map → List Bytes → List MysqlExecutorPool → Type 0
  Holds map [] [] = Unit
  Holds map (key ∷ keys) (p ∷ ps) = (pools.get map key ≡ some p) × Holds map keys ps
  Holds map _ _ = ⊥

  Holds-update :
      (laws : MapLaws pools) (map : pools.Map) (key : Bytes) (q : MysqlExecutorPool)
      (keys : List Bytes) (ps : List MysqlExecutorPool)
      → All (λ other. key ≢ other) keys
      → Holds map keys ps
      → Holds (pools.update map key q) keys ps
  Holds-update laws map key q [] [] apart h = tt
  Holds-update laws map key q [] (p ∷ ps) apart h = absurd h
  Holds-update laws map key q (k ∷ keys) [] apart h = absurd h
  Holds-update laws map key q (k ∷ keys) (p ∷ ps) apart h =
      (laws.get_other map key k q apart.0 ∙ h.0, Holds-update laws map key q keys ps apart.1 h.1)

module _ ⦃api : MysqlApi⦄ ⦃pools : PoolMap⦄ where
  -- The order in which the proxy ends its manager.
  pub shutdown : MysqlExecutorPoolManager → Io MysqlExecutorPoolManager
  shutdown manager = do stopped ← stop manager; destroy stopped

module _ ⦃api : MysqlApi⦄ ⦃pools : PoolMap⦄ (laws : MapLaws pools) where
  pool_at-Holds :
      (map : pools.Map) (key : Bytes) (p : MysqlExecutorPool) (m : Machine api.World)
      → pools.get map key ≡ some p
      → Yields (pool_at map key m) λ (q, m'). (q ≡ p) × (m' ≡ m)
  unfolding pool_at
  pool_at-Holds map key p m e = rw (e, pool_at, Yields) (refl, refl)

  -- What stopping the first pool leaves.
  abbrev StoppedOne :
      MysqlExecutorPool
      → List MysqlExecutorPool
      → Machine api.World
      → MysqlExecutorPool × Machine api.World
      → Type 0
  StoppedOne p ps m (q, m') =
      AreClosed (idle q.shards)
      × (m'.live ≡ without (idle p.shards) m.live)
      × IsOwned (connections ps) m'.live

  -- What stopping the pools behind the keys leaves.
  abbrev Stopped :
      pools.Map
      → List Bytes
      → List MysqlExecutorPool
      → Machine api.World
      → pools.Map × Machine api.World
      → Type 0
  Stopped map keys ps m (map', m') =
      ((qs : List MysqlExecutorPool) × Holds map' keys qs × AreClosed (connections qs))
      × ((key : Bytes) → All (λ other. key ≢ other) keys → pools.get map' key ≡ pools.get map key)
      × (m'.live ≡ without (connections ps) m.live)

  stop_pools-Stopped :
      (map : pools.Map) (keys : List Bytes) (ps : List MysqlExecutorPool) (m : Machine api.World)
      → AreDistinct keys
      → Holds map keys ps
      → IsOwned (connections ps) m.live
      → Yields (stop_pools keys map m) (Stopped map keys ps m)
  unfolding stop_pools
  stop_pools-Stopped map [] [] m apart h o = (([], tt, tt), (λ key _. refl), refl)
  stop_pools-Stopped map [] (p ∷ ps) m apart h o = absurd h
  stop_pools-Stopped map (key ∷ keys) [] m apart h o = absurd h
  stop_pools-Stopped map (key ∷ keys) (p ∷ ps) m apart h o =
      Yields-bind _ _ (pool_at map key) _ m (pool_at-Holds map key p m h.0) λ p₁ m₁ (e, still).
        Yields-bind (StoppedOne p ps m) _ (Pool.stop p₁) _ m₁
          (rw (e, still) (stop-AreClosed p (connections ps) m o))
          λ q m₂ (downs, freed, owned).
            Yields-weaken _ _ (stop_pools keys (pools.update map key q) m₂)
              (stop_pools-Stopped (pools.update map key q) keys ps m₂ apart.1
                (Holds-update laws map key q keys ps apart.0 h.1) owned)
              λ (map', m') ((qs, there, closed), frame, left). (
                (
                  q ∷ qs,
                  (frame key apart.0 ∙ laws.get_update map key p q h.0, there),
                  AreClosed-append (idle q.shards) (connections qs) downs closed,
                ),
                (λ k other.
                    frame k other.1 ∙ laws.get_other map key k q (λ same. other.0 (sym same))),
                left
                    ∙ ap (without (connections ps)) freed
                    ∙ sym (without-append (idle p.shards) (connections ps) m.live),
              )

  destroy_pools-Holds :
      (map : pools.Map) (keys : List Bytes) (ps : List MysqlExecutorPool) (m : Machine api.World)
      → Holds map keys ps
      → AreClosed (connections ps)
      → Yields (destroy_pools keys map m) λ (_, m'). m' ≡ m
  unfolding destroy_pools
  destroy_pools-Holds map [] [] m h c = refl
  destroy_pools-Holds map [] (p ∷ ps) m h c = absurd h
  destroy_pools-Holds map (key ∷ keys) [] m h c = absurd h
  destroy_pools-Holds map (key ∷ keys) (p ∷ ps) m h c =
      let (first, others) = AreClosed-split (idle p.shards) (connections ps) c in
      Yields-bind (λ x. x.1 ≡ m) _ (pool_at map key >>= Pool.destroy) (λ _. destroy_pools keys map)
        m
        (Yields-bind _ _ (pool_at map key) _ m (pool_at-Holds map key p m h.0) λ p₁ m₁ (e, still).
          Yields-weaken _ _ (Pool.destroy p₁ m₁)
            (destroy-AreClosed p₁ m₁
              (subst (λ (x : MysqlExecutorPool). AreClosed (idle x.shards)) (sym e) first))
            λ x (_, same). same ∙ still)
        λ _ m₁ same.
          Yields-weaken _ _ (destroy_pools keys map m₁)
            (destroy_pools-Holds map keys ps m₁ h.1 others) λ x same₂. same₂ ∙ same

  -- What Stop leaves of the manager.
  abbrev pub StoppedManager :
      List MysqlExecutorPool
      → Machine api.World
      → MysqlExecutorPoolManager × Machine api.World
      → Type 0
  StoppedManager ps m (stopped, m') =
      ((qs : List MysqlExecutorPool) × Holds stopped.executor_pools stopped.pools_to_destroy qs
        × AreClosed (connections qs))
      × (m'.live ≡ without (connections ps) m.live)

  pub stop_lem :
      (manager : MysqlExecutorPoolManager) (ps : List MysqlExecutorPool) (m : Machine api.World)
      → AreDistinct (pools.keys manager.executor_pools)
      → Holds manager.executor_pools (pools.keys manager.executor_pools) ps
      → IsOwned (connections ps) m.live
      → Yields (stop manager m) (StoppedManager ps m)
  unfolding stop
  stop_lem manager ps m apart h o =
      let keys = pools.keys manager.executor_pools in
      Yields-bind _ _ (stop_pools keys manager.executor_pools) _ m
        (stop_pools-Stopped manager.executor_pools keys ps m apart h o)
        λ map' m' (ended, _, left). (ended, left)

  pub destroy_lem :
      (stopped : MysqlExecutorPoolManager) (ps : List MysqlExecutorPool) (m m' : Machine api.World)
      → StoppedManager ps m (stopped, m')
      → Yields (destroy stopped m') λ (ended, m'').
        ((map : pools.Map) × (ended.executor_pools ≡ pools.reclaim map))
        × (ended.pools_to_destroy ≡ [])
        × (m''.live ≡ without (connections ps) m.live)
  unfolding destroy
  destroy_lem stopped ps m m' ((qs, there, closed), left) =
      Yields-bind _ _ (destroy_pools stopped.pools_to_destroy stopped.executor_pools) _ m'
        (destroy_pools-Holds stopped.executor_pools stopped.pools_to_destroy qs m' there closed)
        λ _ m'' same.
          ((stopped.executor_pools, refl), refl, ap (λ (x : Machine api.World). x.live) same ∙ left)

  -- If the map has a pool for each of its keys, which are different, the connected objects of all
  -- pools have allocated handles, each its own, and the map's Reclaim leaves no pool in it, then Stop
  -- followed by Destroy returns: no key of the map has a pool, no pool is left to destroy, and exactly
  -- the handles of the connected objects have been freed.
  pub shutdown_all_frees :
      (manager : MysqlExecutorPoolManager) (ps : List MysqlExecutorPool) (m : Machine api.World)
      → ((map : pools.Map) (key : Bytes) → pools.get (pools.reclaim map) key ≡ none)
      → AreDistinct (pools.keys manager.executor_pools)
      → Holds manager.executor_pools (pools.keys manager.executor_pools) ps
      → IsOwned (connections ps) m.live
      → Yields (shutdown manager m) λ (ended, m').
        ((key : Bytes) → pools.get ended.executor_pools key ≡ none)
        × (ended.pools_to_destroy ≡ [])
        × (m'.live ≡ without (connections ps) m.live)
  unfolding shutdown
  shutdown_all_frees manager ps m reclaims apart h o =
      Yields-bind (StoppedManager ps m) _ (stop manager) destroy m (stop_lem manager ps m apart h o)
        λ stopped m' ended.
          Yields-weaken _ _ (destroy stopped m') (destroy_lem stopped ps m m' ended)
            λ (x, _) ((map, emptied), none_left, freed). (
              λ key. ap (λ (y : pools.Map). pools.get y key) emptied ∙ reclaims map key,
              none_left,
              freed,
            )
