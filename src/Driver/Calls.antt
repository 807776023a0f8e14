-- ===== src/Driver/Calls.antt =====
-- The calls of the client library on a machine.
use cpp_database.Prelude.{
  ℕ, ◌+◌, ◌≡◌, refl, Bool, true, false, Option, none, some, List, [], ◌∷◌, arith, ◌==◌, ◌||◌,
  if◌then◌else◌,
}
use cpp_database.Driver.{
  MysqlApi, returns, faults, null_handle, use_after_free, assertion_failed, Io,
}

abbrev pub contains : ℕ → List ℕ → Bool
contains h [] = false
contains h (x ∷ xs) = h == x || contains h xs

unfoldable pub release : ℕ → List ℕ → List ℕ
release h [] = []
release h (x ∷ xs) = if h == x then release h xs else x ∷ release h xs

pub contains-release :
    (h j : ℕ) (xs : List ℕ) → contains j (release h xs) ≡ (if h == j then false else contains j xs)
unfolding release
contains-release h j [] = ground arith
contains-release h j (x ∷ xs) = ground (arith, contains-release h j xs)

-- The handle is freed.
abbrev pub forget : Option ℕ → List ℕ → List ℕ
forget none live = live
forget (some h) live = release h live

module _ ⦃api : MysqlApi⦄ {A : Type 0} where
  -- A call on a handle.
  unfoldable pub on_handle : Option ℕ → (ℕ → api.World → A × api.World) → Io A
  on_handle none call m = faults null_handle
  on_handle (some h) call m = elim (contains h m.live) [
    | true ↦ let (a, w) = call h m.world in returns (a, record m { world = w })
    | false ↦ faults use_after_free
  ]

module _ ⦃api : MysqlApi⦄ where
  -- mysql_init(nullptr).
  unfoldable pub mysql_init : Io (Option ℕ)
  mysql_init m =
      let (done, w) = api.init m.world in
      elim done [
        | true ↦
            returns (some m.next, record { world = w; live = m.next ∷ m.live; next = m.next + 1 })
        | false ↦ returns (none, record m { world = w })
      ]

  -- mysql_close(mysql), which also frees the handle.
  unfoldable pub mysql_close : Option ℕ → Io (Unit {0})
  mysql_close none m = faults null_handle
  mysql_close (some h) m = elim (contains h m.live) [
    | true ↦ returns (tt, record m { world = api.close h m.world; live = release h m.live })
    | false ↦ faults use_after_free
  ]

  -- TRPC_ASSERT(condition).
  abbrev pub trpc_assert : Bool → Io (Unit {0})
  trpc_assert true m = returns (tt, m)
  trpc_assert false m = faults assertion_failed

  -- trpc::GetSteadyMilliSeconds().
  unfoldable pub get_steady_milliseconds : Io ℕ
  get_steady_milliseconds m =
      let (now, w) = api.steady_milliseconds m.world in returns (now, record m { world = w })

  -- std::this_thread::sleep_for.
  unfoldable pub sleep_for : ℕ → Io (Unit {0})
  sleep_for time m = returns (tt, record m { world = api.sleep time m.world })

pub release_absent : (h : ℕ) (xs : List ℕ) → contains h xs ≡ false → release h xs ≡ xs
unfolding release
release_absent h [] e = refl
release_absent h (x ∷ xs) e = ground (arith, release_absent h xs)

pub release_head : (h : ℕ) (xs : List ℕ) → contains h xs ≡ false → release h (h ∷ xs) ≡ xs
unfolding release
release_head h xs e = ground (arith, release_absent h xs)
