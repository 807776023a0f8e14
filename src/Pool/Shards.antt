-- ===== src/Pool/Shards.antt =====
-- Stopping and destroying the pool: which handles are freed.
pub mod Unstopped
use cpp_database.Prelude.{
  ℕ, ◌≡◌, refl, sym, ap, subst, ◌∙◌, ◌≢◌, Bool, true, false, Option, none, some, List, [], ◌∷◌,
  ◌++◌, arith, All, ◌||◌, if◌then◌else◌, Bool-cases, inl, inr,
}
use mathlib.Core.List.{append_assoc, append-nil}
use cpp_database.Driver.{
  MysqlApi, Machine, returns, faults, assertion_failed, Io, pure, Yields, ◌>>=◌,
}
use cpp_database.Driver.Calls.{forget, contains-release}
use cpp_database.Driver.Rules.{Yields-bind, Yields-weaken, bind_returns, bind_faults}
use cpp_database.Executor
use cpp_database.Executor.{MysqlExecutor, close}
use cpp_database.Executor.Connection.{IsLive, IsSound, close_lem}
use cpp_database.Pool.{
  MysqlExecutorPool, Shard, stop, stop_shards, close_all, destroy, destroy_shards, destroy_all,
}

-- All connections of the pool.
abbrev pub idle : List Shard → List MysqlExecutor
idle [] = []
idle (shard ∷ shards) = shard ++ idle shards

-- Two connected objects do not share a handle.
abbrev pub AreApart : MysqlExecutor → MysqlExecutor → Type 0
AreApart e e' = e.is_connected ≡ true → e'.is_connected ≡ true → e.mysql ≢ e'.mysql

-- The connected objects have allocated handles, each its own.
abbrev pub IsOwned : List MysqlExecutor → List ℕ → Type 0
IsOwned [] live = Unit
IsOwned (e ∷ es) live = IsSound e live × All (AreApart e) es × IsOwned es live

abbrev pub AreClosed : List MysqlExecutor → Type 0
AreClosed = All (λ (e : MysqlExecutor). e.is_connected ≡ false)

-- What is allocated after the connected objects have been closed in turn.
abbrev pub without : List MysqlExecutor → List ℕ → List ℕ
without [] live = live
without (e ∷ es) live = without es (if e.is_connected then forget e.mysql live else live)

IsLive-forget :
    (e e' : MysqlExecutor) (p p' : Option ℕ) (live : List ℕ)
    → e.mysql ≡ p
    → e'.mysql ≡ p'
    → AreApart e e'
    → e'.is_connected ≡ true
    → IsLive p' live
    → IsLive p' (if e.is_connected then forget p live else live)
IsLive-forget e e' p none live q q' a c s = absurd s
IsLive-forget e e' none (some h') live q q' a c s = ground arith
IsLive-forget e e' (some h) (some h') live q q' a c s = elim (Bool-cases e.is_connected) [
  | inl up ↦
      let distinct : h ≢ h' = λ same. a up c (q ∙ ap some same ∙ sym q') in
      rw up (ground (arith, contains-release h h' live, distinct))
  | inr down ↦ rw down s
]

IsSound-forget :
    (e e' : MysqlExecutor) (live : List ℕ)
    → AreApart e e'
    → IsSound e' live
    → IsSound e' (if e.is_connected then forget e.mysql live else live)
IsSound-forget e e' live a s c = IsLive-forget e e' e.mysql e'.mysql live refl refl a c (s c)

IsOwned-forget :
    (e : MysqlExecutor) (es : List MysqlExecutor) (live : List ℕ)
    → All (AreApart e) es
    → IsOwned es live
    → IsOwned es (if e.is_connected then forget e.mysql live else live)
IsOwned-forget e [] live a o = tt
IsOwned-forget e (e' ∷ es) live a o =
    (IsSound-forget e e' live a.0 o.0, o.1, IsOwned-forget e es live a.1 o.2)

pub without-append :
    (xs ys : List MysqlExecutor) (live : List ℕ)
    → without (xs ++ ys) live ≡ without ys (without xs live)
without-append [] ys live = refl
without-append (x ∷ xs) ys live = without-append xs ys _

pub AreClosed-append :
    (xs ys : List MysqlExecutor) → AreClosed xs → AreClosed ys → AreClosed (xs ++ ys)
AreClosed-append [] ys p q = q
AreClosed-append (x ∷ xs) ys p q = (p.0, AreClosed-append xs ys p.1 q)

pub AreClosed-split :
    (xs ys : List MysqlExecutor) → AreClosed (xs ++ ys) → AreClosed xs × AreClosed ys
AreClosed-split [] ys c = (tt, c)
AreClosed-split (x ∷ xs) ys c =
    let (left, right) = AreClosed-split xs ys c.1 in ((c.0, left), right)

module _ ⦃api : MysqlApi⦄ where
  close_all-AreClosed :
      (shard rest : List MysqlExecutor) (m : Machine api.World)
      → IsOwned (shard ++ rest) m.live
      → Yields
          (close_all shard m)
          λ (shard', m'). AreClosed shard' × (m'.live ≡ without shard m.live) × IsOwned rest m'.live
  unfolding close_all
  close_all-AreClosed [] rest m o = (tt, refl, o)
  close_all-AreClosed (e ∷ shard) rest m o =
      Yields-bind _ _ (close e) _ m (close_lem e m o.0) λ e' m' (down, _, freed).
        Yields-bind _ _ (close_all shard) _ m'
          (close_all-AreClosed shard rest m' (
            subst (IsOwned (shard ++ rest)) (sym freed)
              (IsOwned-forget e (shard ++ rest) m.live o.1 o.2)))
          λ shard' m'' (downs, left, owned). ((down, downs), left ∙ ap (without shard) freed, owned)

  stop_shards-AreClosed :
      (shards : List Shard) (rest : List MysqlExecutor) (m : Machine api.World)
      → IsOwned (idle shards ++ rest) m.live
      → Yields (stop_shards shards m) λ (shards', m').
        AreClosed (idle shards') × (m'.live ≡ without (idle shards) m.live) × IsOwned rest m'.live
  unfolding stop_shards
  stop_shards-AreClosed [] rest m o = (tt, refl, o)
  stop_shards-AreClosed (shard ∷ shards) rest m o =
      Yields-bind _ _ (close_all shard) _ m
        (close_all-AreClosed shard (idle shards ++ rest) m
          (subst (λ es. IsOwned es m.live) (append_assoc shard (idle shards) rest) o))
        λ shard' m' (downs, freed, owned).
          Yields-bind _ _ (stop_shards shards) _ m' (stop_shards-AreClosed shards rest m' owned)
            λ shards' m'' (more, left, kept). (
              AreClosed-append shard' (idle shards') downs more,
              left
                  ∙ ap (without (idle shards)) freed
                  ∙ sym (without-append shard (idle shards) m.live),
              kept,
            )

  -- Stop closes every connection, and others keep their handles.
  pub stop-AreClosed :
      (p : MysqlExecutorPool) (rest : List MysqlExecutor) (m : Machine api.World)
      → IsOwned (idle p.shards ++ rest) m.live
      → Yields (stop p m) λ (q, m').
        AreClosed (idle q.shards)
        × (m'.live ≡ without (idle p.shards) m.live)
        × IsOwned rest m'.live
  unfolding stop
  stop-AreClosed p rest m o =
      Yields-bind _ _ (stop_shards p.shards) _ m (stop_shards-AreClosed p.shards rest m o)
        λ shards' m' h. h

  pub destroy_closed :
      (e : MysqlExecutor) (m : Machine api.World)
      → e.is_connected ≡ false
      → Executor.destroy e m ≡ returns (tt, m)
  unfolding Executor.destroy close
  destroy_closed e m h = ground arith

  -- The destructor fails its assertion on a connected object.
  pub destroy_connected :
      (e : MysqlExecutor) (m : Machine api.World)
      → e.is_connected ≡ true
      → Executor.destroy e m ≡ faults assertion_failed
  unfolding Executor.destroy
  destroy_connected e m h = rw h

  pub destroy_all-AreClosed :
      (shard : Shard) (m : Machine api.World)
      → AreClosed shard
      → destroy_all shard m ≡ returns (tt, m)
  unfolding destroy_all
  destroy_all-AreClosed [] m c = refl
  destroy_all-AreClosed (e ∷ shard) m c =
      bind_returns (Executor.destroy e) (λ _. destroy_all shard) m (destroy_closed e m c.0)
      ∙ destroy_all-AreClosed shard m c.1

  destroy_shards-AreClosed :
      (shards : List Shard) (m : Machine api.World)
      → AreClosed (idle shards)
      → Yields (destroy_shards shards m) λ (shards', m'). (idle shards' ≡ []) × (m' ≡ m)
  unfolding destroy_shards
  destroy_shards-AreClosed [] m c = (refl, refl)
  destroy_shards-AreClosed (shard ∷ shards) m c =
      let (first, others) = AreClosed-split shard (idle shards) c in
      rw (destroy_all-AreClosed shard m first, destroy_shards, Yields)
        (Yields-bind _ _ (destroy_shards shards) _ m (destroy_shards-AreClosed shards m others)
          λ shards' m' (gone, same). (gone, same))

  pub destroy-AreClosed :
      (p : MysqlExecutorPool) (m : Machine api.World)
      → AreClosed (idle p.shards)
      → Yields (destroy p m) λ (q, m'). (idle q.shards ≡ []) × (m' ≡ m)
  unfolding destroy
  destroy-AreClosed p m c =
      Yields-bind _ _ (destroy_shards p.shards) _ m (destroy_shards-AreClosed p.shards m c)
        λ shards' m' h. h

  -- The order in which the pool manager ends a pool.
  pub shutdown : MysqlExecutorPool → Io MysqlExecutorPool
  shutdown p = do q ← stop p; destroy q

  -- If the connected objects of a pool have allocated handles, each its own, then Stop followed by
  -- Destroy returns: no connection is left in the pool, and exactly the handles of its connected
  -- objects have been freed.
  pub shutdown_frees :
      (p : MysqlExecutorPool) (m : Machine api.World)
      → IsOwned (idle p.shards) m.live
      → Yields
          (shutdown p m)
          λ (q, m'). (idle q.shards ≡ []) × (m'.live ≡ without (idle p.shards) m.live)
  unfolding shutdown
  shutdown_frees p m o =
      Yields-bind
        (λ (q, m'). AreClosed (idle q.shards) × (m'.live ≡ without (idle p.shards) m.live)) _
        (stop p) destroy m
        (Yields-weaken _ _ (stop p m)
          (stop-AreClosed p [] m
            (subst (λ es. IsOwned es m.live) (sym (append-nil (idle p.shards))) o))
          λ r (downs, left, _). (downs, left))
        λ q m' (downs, left).
          Yields-weaken _ _ (destroy q m') (destroy-AreClosed q m' downs)
            λ r (gone, same). (gone, ap (λ (x : Machine api.World). x.live) same ∙ left)
