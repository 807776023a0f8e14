-- ===== src/Executor/Rows/Fetched.antt =====
-- FetchResults: every row of the result is received, in order.
use cpp_database.Prelude.{
  ℕ, zero, suc, ◌<◌, ◌≡◌, refl, sym, ap, subst, ◌∙◌, Bool, true, List, [], ◌∷◌, ◌++◌, map, length,
  All, arith,
}
use mathlib.Core.List.{append_assoc, append-nil}
use cpp_database.Prelude.Text.{Bytes}
use cpp_database.Driver.{MysqlApi, Machine, Yields}
use cpp_database.Driver.Rules.{Yields-bind, Yields-weaken}
use cpp_database.Executor.Native.{flag_of}
use cpp_database.Binder.{CType}
use cpp_database.Results.{MysqlResults}
use cpp_database.Executor.Rows.{RowsApi, Column, limits, read_row, push_row, fetch_loop}
use cpp_database.Executor.Rows.Columns.{IsReady}
use cpp_database.Executor.Rows.Laws.{
  Row, RowsLaws, delivered, is_cut, shape, AllFitButLast, RowHolds, RowReads, RowsRead, types,
}
use cpp_database.Executor.Rows.Filled.{flags_lem}
use cpp_database.Executor.Rows.Loop.{types-eq_of_shape, read_row-RowFits, read_row-RowSuits}

-- The rows are appended, with the flags of NULL, and the rest of the results is kept.
abbrev pub Appended :
    List CType → List Row → MysqlResults (List Bytes) → MysqlResults (List Bytes) → Type 0
Appended ts rs r r' =
    (new : List (List Bytes)) × RowsRead ts rs new
    × (r' ≡ record r {
      result_set = r.result_set ++ new;
      null_flags = r.null_flags ++ map (map flag_of) rs;
    })

Appended-nil : (ts : List CType) (r : MysqlResults (List Bytes)) → Appended ts [] r r
Appended-nil ts r = ([], tt, rw (append-nil r.result_set, append-nil r.null_flags) refl)

Appended-push :
    (ts : List CType) (row : Row) (rs : List Row) (r r' : MysqlResults (List Bytes))
    (cs : List Column) (reads : List Bytes)
    → RowReads ts row reads
    → RowHolds cs row
    → Appended ts rs (push_row r (cs, reads)) r'
    → Appended ts (row ∷ rs) r r'
Appended-push ts row rs r r' cs reads agree holds (new, all, e) = (
  reads ∷ new,
  (agree, all),
  e
      ∙ rw
          (
            flags_lem cs row holds,
            append_assoc r.result_set (reads ∷ []) new,
            append_assoc r.null_flags (map flag_of row ∷ []) (map (map flag_of) rs),
          )
          refl,
)

module _ ⦃api : MysqlApi⦄ ⦃rows : RowsApi api.World⦄ (laws : RowsLaws rows) where
  abbrev pub Received :
      ℕ
      → List CType
      → List Row
      → MysqlResults (List Bytes)
      → Machine api.World
      → (Bool × MysqlResults (List Bytes)) × Machine api.World
      → Type 0
  Received stmt ts rs r m ((done, r'), m') =
      (done ≡ true) × Appended ts rs r r' × (m'.live ≡ m.live) × (m'.next ≡ m.next)

  abbrev world_after : ℕ → List Column → Machine api.World → Machine api.World
  world_after stmt cs m = record m { world = (rows.stmt_fetch stmt (limits cs) m.world).1 }

  fetch_loop_end :
      (fuel stmt : ℕ) (cs : List Column) (ts : List CType) (r : MysqlResults (List Bytes))
      (m : Machine api.World)
      → laws.remaining stmt m.world ≡ []
      → Yields (fetch_loop (suc fuel) stmt cs r m) (Received stmt ts [] r m)
  unfolding fetch_loop
  fetch_loop_end fuel stmt cs ts r m none_left =
      rw (laws.fetch_end stmt (limits cs) m.world none_left) (refl, Appended-nil ts r, refl, refl)

  -- The rest of the loop after a row, when what follows is received.
  row-Received :
      (fuel stmt : ℕ) (ts : List CType) (row : Row) (rs : List Row) (r : MysqlResults (List Bytes))
      (cs : List Column) (reads : List Bytes) (m m' : Machine api.World)
      → RowReads ts row reads
      → RowHolds cs row
      → (m'.live ≡ m.live) × (m'.next ≡ m.next)
      → Yields
          (fetch_loop fuel stmt cs (push_row r (cs, reads)) m')
          (Received stmt ts rs (push_row r (cs, reads)) m')
      → Yields
          (fetch_loop fuel stmt cs (push_row r (cs, reads)) m')
          (Received stmt ts (row ∷ rs) r m)
  row-Received fuel stmt ts row rs r cs reads m m' agree holds same h =
      Yields-weaken _ _ (fetch_loop fuel stmt cs (push_row r (cs, reads)) m') h
        λ ((done, r'), m'') (ok, more, live, next).
          (ok, Appended-push ts row rs r r' cs reads agree holds more, live ∙ same.0, next ∙ same.1)

  -- FetchResults of a statement with rows, each of which but the last fits the buffers.
  pub fetch_loop-Received :
      (fuel stmt : ℕ) (cs : List Column) (rs : List Row) (r : MysqlResults (List Bytes))
      (m : Machine api.World)
      → All IsReady cs
      → AllFitButLast (shape cs) rs
      → laws.remaining stmt m.world ≡ rs
      → length rs < fuel
      → Yields (fetch_loop fuel stmt cs r m) (Received stmt (types cs) rs r m)
  unfolding fetch_loop
  fetch_loop-Received zero stmt cs rs r m ready fits left enough = absurd (omega arith)
  fetch_loop-Received (suc fuel) stmt cs [] r m ready fits left enough =
      fetch_loop_end fuel stmt cs (types cs) r m left
  fetch_loop-Received (suc zero) stmt cs (row ∷ rs) r m ready fits left enough =
      absurd (omega arith)
  fetch_loop-Received (suc (suc fuel)) stmt cs (row ∷ []) r m ready suits left enough =
      let (answer, left', now) = laws.fetch_row stmt (limits cs) m.world row [] left in
      rw answer (
        Yields-bind _ _ (read_row stmt cs (is_cut (limits cs) row) (delivered (limits cs) row)) _
          (world_after stmt cs m)
          (read_row-RowSuits laws stmt cs row (world_after stmt cs m) ready suits now)
          λ (cs', reads) m' (holds, agree, same).
            row-Received (suc fuel) stmt (types cs) row [] r cs' reads m m' agree holds
              (same.2, same.3)
              (fetch_loop_end fuel stmt cs' (types cs) (push_row r (cs', reads)) m'
                (same.0 ∙ left')))
  fetch_loop-Received (suc fuel) stmt cs (row ∷ next ∷ rest) r m ready fits left enough =
      let (answer, left', now) = laws.fetch_row stmt (limits cs) m.world row (next ∷ rest) left in
      rw answer (
        Yields-bind _ _ (read_row stmt cs (is_cut (limits cs) row) (delivered (limits cs) row)) _
          (world_after stmt cs m)
          (read_row-RowFits stmt cs row (world_after stmt cs m) ready fits.0)
          λ (cs', reads) m' (again, same_shape, holds, agree, still).
            row-Received fuel stmt (types cs) row (next ∷ rest) r cs' reads m m' agree holds
              (
                ap (λ (x : Machine api.World). x.live) still,
                ap (λ (x : Machine api.World). x.next) still,
              )
              (subst
                (λ ts.
                  Yields (fetch_loop fuel stmt cs' (push_row r (cs', reads)) m')
                    (Received stmt ts (next ∷ rest) (push_row r (cs', reads)) m'))
                (types-eq_of_shape cs cs' same_shape)
                (fetch_loop-Received fuel stmt cs' (next ∷ rest) (push_row r (cs', reads)) m' again
                  (subst (λ s. AllFitButLast s (next ∷ rest)) (sym same_shape) fits.1)
                  (ap (λ (x : Machine api.World). laws.remaining stmt x.world) still ∙ left')
                  (omega arith))))
