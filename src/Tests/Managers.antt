-- ===== src/Tests/Managers.antt =====
-- A manager with one pool, which has one connection.
use mathlib.Core.Logic.{ite}
use native.Mathlib.Decide.{ℕ_discrete}
use cpp_database.Prelude.{◌≡◌, ◌≢◌, refl, true, Option, none, some, List, [], ◌∷◌, map, arith}
use cpp_database.Prelude.Text.{Bytes, codes}
use cpp_database.Driver.{Yields, Ensures}
use cpp_database.Framework.{PoolMap}
use cpp_database.Pool.{MysqlExecutorPool}
use cpp_database.Pool.Shards.{without}
use cpp_database.Manager.{MysqlExecutorPoolManager}
use cpp_database.Manager.Apart.{InsertLaws, KeepsApart, get-KeepsApart}
use cpp_database.Manager
use cpp_database.Manager.Shutdown.{MapLaws, shutdown, shutdown_all_frees}
use cpp_database.Tests.{net_api, up, machine, executor}
use cpp_database.Tests.Pools.{option, addr, pool}

abbrev Bytes-discrete : Discrete Bytes
Bytes-discrete = hlevel ℕ_discrete

abbrev lookup : List (Bytes × MysqlExecutorPool) → Bytes → Option MysqlExecutorPool
lookup [] key = none
lookup ((k, p) ∷ items) key = ite (Bytes-discrete k key) (some p) (lookup items key)

abbrev insert :
    List (Bytes × MysqlExecutorPool)
    → Bytes
    → MysqlExecutorPool
    → Option MysqlExecutorPool
    → Option MysqlExecutorPool × List (Bytes × MysqlExecutorPool)
insert items key p none = (none, (key, p) ∷ items)
insert items key p (some q) = (some q, items)

-- A pool of the map is changed; there is none to change at a key that the map does not have.
abbrev change :
    List (Bytes × MysqlExecutorPool)
    → Bytes
    → MysqlExecutorPool
    → Option MysqlExecutorPool
    → List (Bytes × MysqlExecutorPool)
change items key p none = items
change items key p (some q) = (key, p) ∷ items

-- A list of keys and pools, of which the first counts.
abbrev pub assoc_map : PoolMap
assoc_map = record {
  Map = List (Bytes × MysqlExecutorPool);
  get = λ items key. lookup items key;
  get_or_insert = λ items key p. insert items key p (lookup items key);
  update = λ items key p. change items key p (lookup items key);
  keys = λ items. map (λ (item : Bytes × MysqlExecutorPool). item.0) items;
  reclaim = λ items. [];
  empty = [];
}

found :
    (k : Bytes) (p : MysqlExecutorPool) (items : List (Bytes × MysqlExecutorPool))
    → lookup ((k, p) ∷ items) k ≡ some p
found k p items = elim (Bytes-discrete k k) as (λ d. ite d (some p) (lookup items k) ≡ some p) [
  | yes same ↦ refl
  | no differ ↦ absurd (differ refl)
]

passed :
    (k key : Bytes) (p : MysqlExecutorPool) (items : List (Bytes × MysqlExecutorPool))
    → k ≢ key
    → lookup ((k, p) ∷ items) key ≡ lookup items key
passed k key p items apart =
    elim (Bytes-discrete k key) as (λ d. ite d (some p) (lookup items key) ≡ lookup items key) [
      | yes same ↦ absurd (apart same)
      | no differ ↦ refl
    ]

change_other :
    (items : List (Bytes × MysqlExecutorPool)) (key other : Bytes) (p : MysqlExecutorPool)
    (o : Option MysqlExecutorPool)
    → key ≢ other
    → lookup (change items key p o) other ≡ lookup items other
change_other items key other p none apart = refl
change_other items key other p (some q) apart = passed key other p items apart

pub assoc_laws : MapLaws assoc_map
assoc_laws = record {
  get_update = λ items key old p held. rw (held, change) (found key p items);
  get_other = λ items key other p apart. change_other items key other p (lookup items key) apart;
}

insert_other :
    (items : List (Bytes × MysqlExecutorPool)) (key other : Bytes) (p : MysqlExecutorPool)
    (o : Option MysqlExecutorPool)
    → key ≢ other
    → lookup (insert items key p o).1 other ≡ lookup items other
insert_other items key other p none apart = passed key other p items apart
insert_other items key other p (some q) apart = refl

pub assoc_inserts : InsertLaws assoc_map
assoc_inserts = record {
  inserted = λ items key p missing. rw (missing, insert) (refl, found key p items);
  insert_other = λ items key other p apart. insert_other items key other p (lookup items key) apart;
}

-- The pool with connection 1.
abbrev pub one_pool : MysqlExecutorPool
one_pool = pool 1 (executor true ∷ []) []

abbrev pub one_manager : MysqlExecutorPoolManager ⦃pools = assoc_map⦄
one_manager = record {
  executor_pools = (codes "db:3306", one_pool) ∷ [];
  option = option;
  pools_to_destroy = [];
}

shutdown_all_frees_example :
    Yields (shutdown ⦃api = net_api⦄ ⦃pools = assoc_map⦄ one_manager (machine up)) λ (ended, m').
      ((key : Bytes) → lookup ended.executor_pools key ≡ none)
      × (ended.pools_to_destroy ≡ [])
      × (m'.live ≡ without (executor true ∷ []) (1 ∷ []))
unfolding ℕ_discrete
shutdown_all_frees_example =
    shutdown_all_frees ⦃api = net_api⦄ ⦃pools = assoc_map⦄ assoc_laws one_manager (one_pool ∷ [])
      (machine up) (λ map key. refl) (tt, tt) (refl, tt) ((λ _. refl), tt, tt)

-- A manager with no pool yet.
get-KeepsApart_example :
    Ensures
      (Manager.get ⦃api = net_api⦄ ⦃pools = assoc_map⦄
        (Manager.construct ⦃pools = assoc_map⦄ option)
        addr
        (machine up))
      (KeepsApart ⦃api = net_api⦄ ⦃pools = assoc_map⦄
        (Manager.construct ⦃pools = assoc_map⦄ option)
        addr)
get-KeepsApart_example =
    get-KeepsApart ⦃api = net_api⦄ ⦃pools = assoc_map⦄ assoc_laws assoc_inserts
      (Manager.construct ⦃pools = assoc_map⦄ option) addr (machine up)
      (record { no_zero = omega arith; short = omega arith; port_small = omega arith })
