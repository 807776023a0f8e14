-- ===== src/Executor/Rows/Completed.antt =====
-- FetchTruncatedResults completes the values of a row.
use cpp_database.Prelude.{
  ℕ, ◌+◌, ◌≤◌, ◌<◌, ◌≡◌, refl, sym, ap, subst, ◌∙◌, Bool, true, false, Option, none, some, List, [],
  ◌∷◌, ◌++◌, length, length-append, take, drop, take_all, length-drop, length-take, get_elem?, All,
  arith, leb, leb→le, le→leb, if◌then◌else◌, Bool-cases, inl, inr,
}
use mathlib.Core.List.{append_assoc}
use cpp_database.Prelude.Text.{Bytes}
use cpp_database.Driver.{MysqlApi, Machine, Io, pure, Yields, when◌then◌else◌}
use cpp_database.Driver.Rules.{Yields-bind}
use cpp_database.Binder.{CType}
use cpp_database.Executor.Rows.{RowsApi, Column, is_dynamic, exceeds, refetch, fetch_truncated}
use cpp_database.Executor.Rows.Columns.{IsReady, Suits, FitsIn, Holds}
use cpp_database.Executor.Rows.Truncated.{
  after, after-FitsIn, cut_front, refetch_cut, completed-Holds,
}
use cpp_database.Executor.Rows.Laws.{Row, RowsLaws, shape, RowSuits, RowHolds, types}
use cpp_database.Executor.Rows.Filled.{afters}

get_elem?-append :
    {A : Type 0} (xs ys : List A) (y : A) → get_elem? (xs ++ y ∷ ys) (length xs) ≡ some y
get_elem?-append [] ys y = refl
get_elem?-append (x ∷ xs) ys y = get_elem?-append xs ys y

lt→le : {a b : ℕ} → a < b → a ≤ b
lt→le h = omega arith

module _ ⦃api : MysqlApi⦄ ⦃rows : RowsApi api.World⦄ (laws : RowsLaws rows) where
  -- The machine with another world, in which the same rows are left, and the same was fetched last.
  abbrev pub SameRows : ℕ → Machine api.World → Machine api.World → Type 0
  SameRows stmt m m' =
      (laws.remaining stmt m'.world ≡ laws.remaining stmt m.world)
      × (laws.current stmt m'.world ≡ laws.current stmt m.world)
      × (m'.live ≡ m.live)
      × (m'.next ≡ m.next)

  -- The body of the loop of FetchTruncatedResults at a column.
  abbrev step : ℕ → ℕ → Column → Io (Bool × Column)
  step stmt i c = when exceeds c then refetch stmt i c else pure (true, c)

  -- The column holds the value, and the library is where it was.
  abbrev Completes :
      ℕ → Option Bytes → CType → Machine api.World → (Bool × Column) × Machine api.World → Type 0
  Completes stmt cell type m r =
      (r.0.0 ≡ true) × Holds r.0.1 cell × (r.0.1.type ≡ type) × SameRows stmt m r.1

  exceeds-IsReady : (c : Column) → IsReady c → exceeds c ≡ false
  exceeds-IsReady c ready = elim (Bool-cases (is_dynamic c.type)) [
    | inl dynamic ↦ rw (dynamic, le→leb c.len (length c.buffer.bytes) (ready.short dynamic)) refl
    | inr fixed ↦ rw fixed refl
  ]

  step_short :
      (stmt i : ℕ) (cell : Option Bytes) (c : Column) (m : Machine api.World)
      → IsReady c
      → FitsIn c.type (length c.buffer.bytes) cell
      → Yields (step stmt i (after c cell) m) (Completes stmt cell c.type m)
  step_short stmt i cell c m ready fits =
      let (again, holds, same_type, same_size) = after-FitsIn c cell ready fits in
      rw (exceeds-IsReady (after c cell) again) (refl, holds, same_type, (refl, refl, refl, refl))

  step_long :
      (stmt : ℕ) (pre row : Row) (v : Bytes) (c : Column) (m : Machine api.World)
      → is_dynamic c.type ≡ true
      → length c.buffer.bytes < length v
      → laws.current stmt m.world ≡ pre ++ some v ∷ row
      → Yields (step stmt (length pre) (cut_front c v) m) (Completes stmt (some v) c.type m)
  step_long stmt pre row v c m dynamic long now =
      let size = length c.buffer.bytes in
      let at : get_elem? (laws.current stmt m.world) (length pre) ≡ some (some v) =
        ap (λ (r : Row). get_elem? r (length pre)) now ∙ get_elem?-append pre row (some v) in
      let filled = length-take size v (omega arith) in
      let (answer, same, same_row) =
        laws.fetch_column stmt (length pre) (length (take size v)) (length v) m.world v at in
      let all : take (length v) (drop (length (take size v)) v) ≡ drop size v =
        ap (λ (n : ℕ). take (length v) (drop n v)) filled
        ∙ take_all (length v) (drop size v) (omega (arith, length-drop size v)) in
      let over : exceeds (cut_front c v) ≡ true = ground (arith, filled) in
      rw
        (
          over,
          refetch_cut stmt (length pre) c v m (lt→le long)
              (answer ∙ ap (λ (b : Bytes). (true, b)) all),
        )
        (refl, completed-Holds c v dynamic, refl, (same, same_row, refl, refl))

  column_completed :
      (stmt : ℕ) (pre row : Row) (cell : Option Bytes) (c : Column) (m : Machine api.World)
      → IsReady c
      → Suits c.type (length c.buffer.bytes) cell
      → laws.current stmt m.world ≡ pre ++ cell ∷ row
      → Yields (step stmt (length pre) (after c cell) m) (Completes stmt cell c.type m)
  column_completed stmt pre row none c m ready suits now =
      step_short stmt (length pre) none c m ready tt
  column_completed stmt pre row (some v) c m ready suits now =
      elim (Bool-cases (leb (length v) (length c.buffer.bytes))) [
        | inl fits ↦
            step_short stmt (length pre) (some v) c m ready
              (suits, λ _. leb→le (length v) (length c.buffer.bytes) fits)
        | inr long ↦
            let over : length c.buffer.bytes < length v = ground arith in
            let dynamic : is_dynamic c.type ≡ true = ground (arith, suits) in
            let e : after c (some v) ≡ cut_front c v = rw long refl in
            subst
              (λ (a : Column).
                Yields (step stmt (length pre) a m) (Completes stmt (some v) c.type m))
              (sym e) (step_long stmt pre row v c m dynamic over now)
      ]

  -- FetchTruncatedResults after a fetch, from column `length pre` on.
  pub fetch_truncated-RowHolds :
      (stmt : ℕ) (pre row : Row) (cs : List Column) (m : Machine api.World)
      → All IsReady cs
      → RowSuits (shape cs) row
      → laws.current stmt m.world ≡ pre ++ row
      → Yields
          (fetch_truncated stmt (length pre) (afters cs row) m)
          λ ((_, cs'), m'). RowHolds cs' row × (types cs' ≡ types cs) × SameRows stmt m m'
  unfolding fetch_truncated
  fetch_truncated-RowHolds stmt pre [] [] m ready suits now = (tt, refl, (refl, refl, refl, refl))
  fetch_truncated-RowHolds stmt pre [] (c ∷ cs) m ready suits now = absurd suits
  fetch_truncated-RowHolds stmt pre (cell ∷ row) [] m ready suits now = absurd suits
  fetch_truncated-RowHolds stmt pre (cell ∷ row) (c ∷ cs) m ready suits now =
      Yields-bind (Completes stmt cell c.type m) _ (step stmt (length pre) (after c cell)) _ m
        (column_completed stmt pre row cell c m ready.0 suits.0 now)
        λ (done, c') m' (ok, holds, same_type, same). rw ok (
          Yields-bind (λ x. RowHolds x.0.1 row × (types x.0.1 ≡ types cs) × SameRows stmt m' x.1) _
            (fetch_truncated stmt (length pre + 1) (afters cs row)) _ m'
            (subst
              (λ (n : ℕ).
                Yields (fetch_truncated stmt n (afters cs row) m')
                  λ x. RowHolds x.0.1 row × (types x.0.1 ≡ types cs) × SameRows stmt m' x.1)
              (length-append pre (cell ∷ []))
              (fetch_truncated-RowHolds stmt (pre ++ cell ∷ []) row cs m' ready.1 suits.1
                (same.1 ∙ now ∙ sym (append_assoc pre (cell ∷ []) row))))
            λ (d, cs') m'' (all_hold, same_types, later). (
              (holds, all_hold),
              rw (same_type, same_types) refl,
              (later.0 ∙ same.0, later.1 ∙ same.1, later.2 ∙ same.2, later.3 ∙ same.3),
            ))
