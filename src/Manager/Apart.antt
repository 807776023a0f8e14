-- ===== src/Manager/Apart.antt =====
-- MysqlExecutorPoolManager::Get: which addresses share a pool.
use cpp_database.Prelude.{◌≡◌, ◌≢◌, refl, ◌∙◌, none, some, Option-cases, inl, inr}
use cpp_database.Prelude.Text.{Bytes}
use cpp_database.Driver.{MysqlApi, Machine, returns, Ensures, pure}
use cpp_database.Driver.Rules.{Ensures-bind}
use cpp_database.Pool.{NodeAddr, MysqlExecutorPool}
use cpp_database.Framework.{PoolMap}
use cpp_database.Pool
use cpp_database.Manager.{MysqlExecutorPoolManager, endpoint, get, put, insert_pool}
use cpp_database.Manager.Shutdown.{MapLaws}
use cpp_database.Manager.Endpoints.{Fits, endpoint-injective}

-- The concurrent map's GetOrInsert of a key that it does not have, with what an update leaves.
pub record InsertLaws (pools : PoolMap) : Type 0 where
  pub inserted :
      (map : pools.Map) (key : Bytes) (p : MysqlExecutorPool)
      → pools.get map key ≡ none
      → ((pools.get_or_insert map key p).0 ≡ none)
        × (pools.get (pools.get_or_insert map key p).1 key ≡ some p)
  pub insert_other :
      (map : pools.Map) (key other : Bytes) (p : MysqlExecutorPool)
      → key ≢ other
      → pools.get (pools.get_or_insert map key p).1 other ≡ pools.get map other

module _ ⦃api : MysqlApi⦄ ⦃pools : PoolMap⦄ where
  -- What Get and a change of the pool leave in the map.
  abbrev pub KeepsApart :
      MysqlExecutorPoolManager
      → NodeAddr
      → (MysqlExecutorPool × MysqlExecutorPoolManager) × Machine api.World
      → Type 0
  KeepsApart manager a ((p, manager'), _) =
      (pools.get manager'.executor_pools (endpoint a) ≡ some p)
      × ((q : MysqlExecutorPool) (m : Machine api.World)
          → (get (put manager' a q) a m ≡ returns ((q, put manager' a q), m))
            × ((b : NodeAddr)
                → Fits b
                → a ≢ b
                → pools.get (put manager' a q).executor_pools (endpoint b)
                  ≡ pools.get manager.executor_pools (endpoint b)))

module _ ⦃api : MysqlApi⦄ ⦃pools : PoolMap⦄ (laws : MapLaws pools)
    (inserts : InsertLaws pools) where
  put-get :
      (manager : MysqlExecutorPoolManager) (a : NodeAddr) (p q : MysqlExecutorPool)
      (m : Machine api.World)
      → pools.get manager.executor_pools (endpoint a) ≡ some p
      → get (put manager a q) a m ≡ returns ((q, put manager a q), m)
  unfolding get put
  put-get manager a p q m held =
      rw (laws.get_update manager.executor_pools (endpoint a) p q held, get)

  -- The map after Get has at another key what it had.
  keeps :
      (manager manager' : MysqlExecutorPoolManager) (a : NodeAddr) (p : MysqlExecutorPool)
      (m : Machine api.World)
      → Fits a
      → pools.get manager'.executor_pools (endpoint a) ≡ some p
      → ((key : Bytes)
          → endpoint a ≢ key
          → pools.get manager'.executor_pools key ≡ pools.get manager.executor_pools key)
      → KeepsApart manager a ((p, manager'), m)
  unfolding put
  keeps manager manager' a p _ fits held others = (
    held,
    λ q m. (
      put-get manager' a p q m held,
      λ b fits' apart.
          let differ : endpoint a ≢ endpoint b =
            λ same. apart (endpoint-injective a b fits fits' same) in
          laws.get_other manager'.executor_pools (endpoint a) (endpoint b) q differ
          ∙ others (endpoint b) differ,
    ),
  )

  insert_pool-keeps :
      (manager : MysqlExecutorPoolManager) (a : NodeAddr) (p : MysqlExecutorPool)
      (m : Machine api.World)
      → Fits a
      → pools.get manager.executor_pools (endpoint a) ≡ none
      → KeepsApart manager a (insert_pool manager (endpoint a) p, m)
  unfolding insert_pool
  insert_pool-keeps manager a p m fits missing =
      rw ((inserts.inserted manager.executor_pools (endpoint a) p missing).0, insert_pool)
        (keeps manager _ a p m fits
          (inserts.inserted manager.executor_pools (endpoint a) p missing).1
          (λ key differ. inserts.insert_other manager.executor_pools (endpoint a) key p differ))

  -- Where Get for an address returns, the pool that it answers is in the map. After any change of
  -- that pool, Get for the address answers the changed pool, and what the map has for any other address
  -- is as before. The texts of both addresses have no zero byte and at most 57 bytes, and their ports
  -- have 16 bits.
  pub get-KeepsApart :
      (manager : MysqlExecutorPoolManager) (a : NodeAddr) (m : Machine api.World)
      → Fits a
      → Ensures (get manager a m) (KeepsApart manager a)
  unfolding get
  get-KeepsApart manager a m fits =
      elim (Option-cases (pools.get manager.executor_pools (endpoint a))) [
        | inl missing ↦
            rw (missing, get)
              (Ensures-bind _ (Pool.construct manager.option a)
                (λ p. pure (insert_pool manager (endpoint a) p)) m
                λ p m' _. insert_pool-keeps manager a p m' fits missing)
        | inr (p, e) ↦ rw (e, get) (keeps manager manager a p m fits e λ key differ. refl)
      ]
