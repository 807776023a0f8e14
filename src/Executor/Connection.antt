-- ===== src/Executor/Connection.antt =====
-- MysqlExecutor::Connect, Close and CheckAlive: the handle and the flag is_connected agree.
use cpp_database.Prelude.{
  ℕ, ◌≡◌, refl, true, false, Option, none, some, List, arith, if◌then◌else◌, Bool-cases, inl, inr,
}
use cpp_database.Driver.{MysqlApi, MysqlConnOption, Machine, Io, Yields, Ensures, ◌>>=◌}
use cpp_database.Driver.Calls.{contains, forget, release_head}
use cpp_database.Executor.{MysqlExecutor, connect, close, check_alive, destroy, construct}

-- The pointer refers to an allocated handle.
abbrev pub IsLive : Option ℕ → List ℕ → Type 0
IsLive none live = ⊥
IsLive (some h) live = contains h live ≡ true

-- A connected object has an allocated handle.
abbrev pub IsSound : MysqlExecutor → List ℕ → Type 0
IsSound e live = e.is_connected ≡ true → IsLive e.mysql live

module _ ⦃api : MysqlApi⦄ where
  connect_from :
      (e : MysqlExecutor) (p : Option ℕ) (m : Machine api.World)
      → e.mysql ≡ p
      → IsLive p m.live
      → Yields (connect e m) λ ((b, e'), m').
        (e'.is_connected ≡ b) × (e'.mysql ≡ p) × (m'.live ≡ (if b then m.live else forget p m.live))
  unfolding connect
  connect_from e none m q h = absurd h
  connect_from e (some x) m q h = ground arith

  -- On an allocated handle Connect returns: the object is connected on that handle, or it is not
  -- connected and the handle is freed. It keeps its pointer in both cases.
  pub connect_lem :
      (e : MysqlExecutor) (m : Machine api.World)
      → IsLive e.mysql m.live
      → Yields (connect e m) λ ((b, e'), m').
        (e'.is_connected ≡ b)
        × (e'.mysql ≡ e.mysql)
        × (m'.live ≡ (if b then m.live else forget e.mysql m.live))
  connect_lem e m h = connect_from e e.mysql m refl h

  close_from :
      (e : MysqlExecutor) (p : Option ℕ) (m : Machine api.World)
      → e.mysql ≡ p
      → (e.is_connected ≡ true → IsLive p m.live)
      → Yields (close e m) λ (e', m').
        (e'.is_connected ≡ false)
        × (e'.mysql ≡ (if e.is_connected then none else p))
        × (m'.live ≡ (if e.is_connected then forget p m.live else m.live))
  unfolding close
  close_from e none m q h = elim (Bool-cases e.is_connected) [
    | inl c ↦ absurd (h c)
    | inr d ↦ ground arith
  ]
  close_from e (some x) m q h = ground arith

  -- On an object whose flag and handle agree Close returns. The object is not connected afterwards;
  -- the handle is freed and its pointer reset if it was connected, and both are left alone if not.
  pub close_lem :
      (e : MysqlExecutor) (m : Machine api.World)
      → IsSound e m.live
      → Yields (close e m) λ (e', m').
        (e'.is_connected ≡ false)
        × (e'.mysql ≡ (if e.is_connected then none else e.mysql))
        × (m'.live ≡ (if e.is_connected then forget e.mysql m.live else m.live))
  close_lem e m h = close_from e e.mysql m refl h

  check_alive_from :
      (e : MysqlExecutor) (p : Option ℕ) (m : Machine api.World)
      → e.mysql ≡ p
      → (e.is_connected ≡ true → IsLive p m.live)
      → Yields (check_alive e m) λ ((b, e'), m').
        (e' ≡ record e { is_connected = b })
        × (m'.live ≡ m.live)
        × (b ≡ true → e.is_connected ≡ true)
  unfolding check_alive
  check_alive_from e none m q h = elim (Bool-cases e.is_connected) [
    | inl c ↦ absurd (h c)
    | inr d ↦ ground arith
  ]
  check_alive_from e (some x) m q h = ground arith

  -- CheckAlive returns, frees nothing, and changes the flag alone, to its answer.
  pub check_alive_lem :
      (e : MysqlExecutor) (m : Machine api.World)
      → IsSound e m.live
      → Yields (check_alive e m) λ ((b, e'), m').
        (e' ≡ record e { is_connected = b })
        × (m'.live ≡ m.live)
        × (b ≡ true → e.is_connected ≡ true)
  check_alive_lem e m h = check_alive_from e e.mysql m refl h

  connected_from :
      (e : MysqlExecutor) (p : Option ℕ) (m : Machine api.World)
      → e.mysql ≡ p
      → Ensures (connect e m) (λ r. r.0.0 ≡ true → r.0.1.is_connected ≡ true)
        × Ensures (check_alive e m) (λ r. r.0.0 ≡ true → r.0.1.is_connected ≡ true)
  unfolding connect check_alive
  connected_from e none m q = (ground arith, ground arith)
  connected_from e (some h) m q = (ground arith, ground arith)

  -- Connect and CheckAlive answer true only with a connected object.
  pub connect-check_alive-connected :
      (e : MysqlExecutor) (m : Machine api.World)
      → Ensures (connect e m) (λ r. r.0.0 ≡ true → r.0.1.is_connected ≡ true)
        × Ensures (check_alive e m) (λ r. r.0.0 ≡ true → r.0.1.is_connected ≡ true)
  connect-check_alive-connected e m = connected_from e e.mysql m refl

  -- The life of an object that is used for one connection.
  pub session : MysqlConnOption → Io (Unit {0})
  session option = do e ← construct option; (done, e') ← connect e; e'' ← close e'; destroy e''

  -- If mysql_init succeeds, with a handle that was not allocated, the object is created, connected,
  -- closed and destroyed with no fault, and every handle is as it was, whether the server accepts
  -- the connection or not.
  pub session_frees :
      (option : MysqlConnOption) (m : Machine api.World)
      → (api.init m.world).0 ≡ true
      → contains m.next m.live ≡ false
      → Yields (session option m) λ (_, m'). m'.live ≡ m.live
  unfolding session construct connect close destroy
  session_frees option m h fresh = ground (arith, release_head m.next m.live)
