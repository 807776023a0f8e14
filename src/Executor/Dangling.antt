-- ===== src/Executor/Dangling.antt =====
-- What follows after MysqlExecutor::Connect has failed, and after CheckAlive has: the pointer that
-- Connect keeps refers to a freed handle, and the handle of a lost connection is not freed.
use cpp_database.Prelude.{
  ℕ, suc, ◌≡◌, refl, Bool, true, false, Option, none, some, List, ◌∷◌, arith, Bool-cases, inl, inr,
}
use cpp_database.Driver.{
  MysqlApi, Machine, returns, faults, use_after_free, Outcome-cases, Io, Yields, ◌>>=◌,
}
use cpp_database.Driver.Calls.{contains, contains-release}
use cpp_database.Executor.{
  MysqlExecutor, connect, close, check_alive, destroy, get_error_number, get_error_message,
  reconnect_loop, start_reconnect,
}
use cpp_database.Executor.Connection.{IsSound, IsLive, check_alive_lem}

-- The pointer refers to a handle that is not allocated.
abbrev pub IsDangling : Option ℕ → List ℕ → Type 0
IsDangling none live = ⊥
IsDangling (some h) live = contains h live ≡ false

module _ ⦃api : MysqlApi⦄ where
  connect_fails_from :
      (e : MysqlExecutor) (p : Option ℕ) (m : Machine api.World) {e' : MysqlExecutor}
      {m' : Machine api.World}
      → e.mysql ≡ p
      → connect e m ≡ returns ((false, e'), m')
      → IsDangling e'.mysql m'.live × (e'.is_connected ≡ false)
  unfolding connect
  connect_fails_from e none m q h = ground (arith, contains-release m.next m.next (m.next ∷ m.live))
  connect_fails_from e (some x) m q h = ground (arith, contains-release x x m.live)

  connect_fails :
      (e : MysqlExecutor) (m : Machine api.World) {e' : MysqlExecutor} {m' : Machine api.World}
      → connect e m ≡ returns ((false, e'), m')
      → IsDangling e'.mysql m'.live × (e'.is_connected ≡ false)
  connect_fails e m h = connect_fails_from e e.mysql m refl h

  error_dangling :
      (e : MysqlExecutor) (p : Option ℕ) (m : Machine api.World)
      → e.mysql ≡ p
      → e.is_connected ≡ false
      → IsDangling p m.live
      → (get_error_number e m ≡ faults use_after_free)
        × (get_error_message e m ≡ faults use_after_free)
        × (connect e m ≡ faults use_after_free)
  unfolding connect get_error_number get_error_message
  error_dangling e none m q c d = absurd d
  error_dangling e (some x) m q c d = (ground arith, ground arith, ground arith)

  -- Whenever Connect returns false, reading the error number or the error message of the object,
  -- and connecting it again, use the handle that was freed.
  pub connect_fails_dangling :
      (e : MysqlExecutor) (m : Machine api.World) (e' : MysqlExecutor) (m' : Machine api.World)
      → connect e m ≡ returns ((false, e'), m')
      → (get_error_number e' m' ≡ faults use_after_free)
        × (get_error_message e' m' ≡ faults use_after_free)
        × (connect e' m' ≡ faults use_after_free)
  connect_fails_dangling e m e' m' h =
      let (d, c) = connect_fails e m h in error_dangling e' e'.mysql m' refl c d

  loop_dangling :
      (rounds interval : ℕ) (e : MysqlExecutor) (p : Option ℕ) (m : Machine api.World)
      → e.mysql ≡ p
      → e.is_connected ≡ false
      → IsDangling p m.live
      → reconnect_loop (suc rounds) interval e m ≡ faults use_after_free
  unfolding reconnect_loop
  loop_dangling rounds interval e p m q c d = ground (arith, error_dangling e p m q c d)

  -- StartReconnect returns only when its first attempt connects, and then what that attempt gives.
  pub start_reconnect_first :
      (e : MysqlExecutor) (m : Machine api.World) (b : Bool) (e' : MysqlExecutor)
      (m' : Machine api.World)
      → start_reconnect e m ≡ returns ((b, e'), m')
      → (b ≡ true) × (connect e m ≡ returns ((true, e'), m'))
  unfolding start_reconnect
  start_reconnect_first e m b e' m' h = elim (Outcome-cases (connect e m)) [
    | inr (f, stops) ↦ absurd (ground arith)
    | inl (((done, e''), m''), goes) ↦ elim (Bool-cases done) [
      | inl up ↦ ground arith
      | inr down ↦
          let failed = connect_fails e m {e' = e''} {m' = m''} (ground arith) in
          ground (
            arith,
            loop_dangling 3 200 e'' e''.mysql (record m'' { world = api.sleep 100 m''.world }) refl
                failed.1 failed.0,
          )
    ]
  ]

  -- The pool drops an object whose CheckAlive has failed by closing and destroying it.
  pub drop_lost : MysqlExecutor → Io (Unit {0})
  drop_lost e = do e' ← close e; destroy e'

  -- If CheckAlive answers false on a connected object, closing and destroying the object does not
  -- free its handle.
  pub check_alive_lost_leaks :
      (e : MysqlExecutor) (m : Machine api.World) (e' : MysqlExecutor) (m' : Machine api.World)
      → IsSound e m.live
      → e.is_connected ≡ true
      → check_alive e m ≡ returns ((false, e'), m')
      → Yields (drop_lost e' m') λ (_, m''). IsLive e.mysql m''.live × (m''.live ≡ m.live)
  unfolding drop_lost close destroy
  check_alive_lost_leaks e m e' m' sound c h = ground (arith, check_alive_lem e m sound, sound c)
