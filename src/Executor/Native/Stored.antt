-- ===== src/Executor/Native/Stored.antt =====
-- What QueryAll makes of a stored result.
use cpp_database.Prelude.{
  ℕ, zero, suc, ◌≡◌, refl, ap, ◌∙◌, Bool, true, false, not, Option, none, some, List, [], ◌∷◌, ◌++◌,
  map, arith, length, length-map, get_elem?, All, is_some, ◌==◌,
}
use mathlib.Core.List.{append_assoc, append-nil}
use cpp_database.Prelude.Text.{Bytes}
use cpp_database.Driver.{MysqlApi, StoredResult, Machine, returns, Yields}
use cpp_database.Driver.Calls.{contains, on_handle}
use cpp_database.Driver.Rules.{bind_returns}
use cpp_database.Executor.{MysqlExecutor}
use cpp_database.Results.{MysqlResults, clear, set_raw_mysql_res, set_fields_name, is_value_null}
use cpp_database.Results.Nulls.{flag_at, is_value_null-eq-flag_at}
use cpp_database.Executor.Native.{
  value_of, flag_of, read_cells, read_rows, store_native, query_all_internal, query_all,
}

-- Whether the value at a place is NULL, and `false` outside.
abbrev pub null_at : List (List (Option Bytes)) → ℕ → ℕ → Bool
null_at [] i j = false
null_at (row ∷ rows) zero j = elim (get_elem? row j) [
  | none ↦ false
  | some cell ↦ not (is_some cell)
]
null_at (row ∷ rows) (suc i) j = null_at rows i j

read_cells_lem :
    (n : ℕ) (row : List (Option Bytes))
    → length row ≡ n
    → read_cells n row ≡ some (map value_of row, map flag_of row)
unfolding read_cells
read_cells_lem zero [] h = refl
read_cells_lem zero (cell ∷ row) h = absurd (omega arith)
read_cells_lem (suc n) [] h = absurd (omega arith)
read_cells_lem (suc n) (cell ∷ row) h = rw (read_cells_lem n row (omega arith)) refl

read_rows_lem :
    (n : ℕ) (rows : List (List (Option Bytes))) (r : MysqlResults (List Bytes))
    → All (λ (row : List (Option Bytes)). length row ≡ n) rows
    → read_rows n rows r
      ≡ some (record r {
        result_set = r.result_set ++ map (map value_of) rows;
        null_flags = r.null_flags ++ map (map flag_of) rows;
      })
unfolding read_rows
read_rows_lem n [] r h = rw (append-nil r.result_set, append-nil r.null_flags) refl
read_rows_lem n (row ∷ rows) r h =
    rw (read_cells_lem n row h.0, read_rows)
      (read_rows_lem n rows
          (record r {
            result_set = r.result_set ++ map value_of row ∷ [];
            null_flags = r.null_flags ++ map flag_of row ∷ [];
          })
          h.1
        ∙ rw
            (
              append_assoc r.result_set (map value_of row ∷ []) (map (map value_of) rows),
              append_assoc r.null_flags (map flag_of row ∷ []) (map (map flag_of) rows),
            )
            refl)

flag_of-map :
    (row : List (Option Bytes)) (j : ℕ)
    → (elim (get_elem? (map flag_of row) j) [ none ↦ false | some flag ↦ not (flag == 0) ])
      ≡ (elim (get_elem? row j) [ none ↦ false | some cell ↦ not (is_some cell) ])
flag_of-map [] j = refl
flag_of-map (none ∷ row) zero = refl
flag_of-map (some text ∷ row) zero = refl
flag_of-map (cell ∷ row) (suc j) = flag_of-map row j

flag_at-eq-null_at :
    (rows : List (List (Option Bytes))) (i j : ℕ)
    → flag_at (map (map flag_of) rows) i j ≡ null_at rows i j
flag_at-eq-null_at [] i j = refl
flag_at-eq-null_at (row ∷ rows) zero j = flag_of-map row j
flag_at-eq-null_at (row ∷ rows) (suc i) j = flag_at-eq-null_at rows i j

rectangular :
    (n : ℕ) (rows : List (List (Option Bytes)))
    → All (λ (row : List (Option Bytes)). length row ≡ n) rows
    → All (λ (row : List ℕ). length row ≡ n) (map (map flag_of) rows)
rectangular n [] h = tt
rectangular n (row ∷ rows) h = (length-map row flag_of ∙ h.0, rectangular n rows h.1)

module _ ⦃api : MysqlApi⦄ where
  on_handle_returns :
      {A : Type 0} (p : Option ℕ) (h : ℕ) (call : ℕ → api.World → A × api.World)
      (m : Machine api.World) {a : A} {w : api.World}
      → p ≡ some h
      → contains h m.live ≡ true
      → call h m.world ≡ (a, w)
      → on_handle p call m ≡ returns (a, record m { world = w })
  unfolding on_handle
  on_handle_returns p h call m pointer live answer = rw (pointer, on_handle, live, answer) refl

  -- What QueryAllInternal makes of a stored result.
  abbrev filled : MysqlResults (List Bytes) → StoredResult → MysqlResults (List Bytes)
  filled r stored = record r {
    result_set = map (map value_of) stored.rows;
    null_flags = map (map flag_of) stored.rows;
    error_message = [];
    fields_name = stored.names;
    has_value = false;
    affected_rows = 0;
    mysql_res = some stored.res;
  }

  store_native_returns :
      (e : MysqlExecutor) (r : MysqlResults (List Bytes)) (stored : StoredResult)
      (m : Machine api.World)
      → All (λ (row : List (Option Bytes)). length row ≡ stored.num_fields) stored.rows
      → store_native e (clear r).0 (some stored) m ≡ returns ((true, filled r stored), m)
  unfolding store_native set_raw_mysql_res set_fields_name clear
  store_native_returns e r stored m wide =
      rw (read_rows_lem stored.num_fields stored.rows (clear r).0 wide, store_native) refl

  query_all_internal_returns :
      (e : MysqlExecutor) (query : Bytes) (r : MysqlResults (List Bytes)) (m : Machine api.World)
      (h : ℕ) (stored : StoredResult) (w₁ w₂ : api.World)
      → e.mysql ≡ some h
      → contains h m.live ≡ true
      → api.real_query h query m.world ≡ (true, w₁)
      → api.store_result h w₁ ≡ (some stored, w₂)
      → All (λ (row : List (Option Bytes)). length row ≡ stored.num_fields) stored.rows
      → query_all_internal e query r m ≡ returns ((true, filled r stored), record m { world = w₂ })
  unfolding query_all_internal
  query_all_internal_returns e query r m h stored w₁ w₂ pointer live executed kept wide =
      bind_returns (on_handle e.mysql (λ h. api.real_query h query)) _ m
        (on_handle_returns e.mysql h (λ h. api.real_query h query) m pointer live executed)
      ∙ bind_returns (on_handle e.mysql api.store_result) (store_native e (clear r).0)
          (record m { world = w₁ })
          (on_handle_returns e.mysql h api.store_result (record m { world = w₁ }) pointer live kept)
      ∙ store_native_returns e r stored (record m { world = w₂ }) wide

  -- On an allocated handle, where the client library executes the query and stores a result whose
  -- rows have as many values as it has fields, QueryAll returns true. The results then hold the
  -- texts of exactly those rows, the names of the fields and the raw result, and report a value as
  -- NULL exactly where the result has a null pointer; the error number is the one from before.
  pub query_all-stored :
      (e : MysqlExecutor) (query : Bytes) (r : MysqlResults (List Bytes)) (m : Machine api.World)
      (h : ℕ) (stored : StoredResult) (w₁ w₂ : api.World) (i j : ℕ)
      → e.mysql ≡ some h
      → contains h m.live ≡ true
      → api.real_query h query m.world ≡ (true, w₁)
      → api.store_result h w₁ ≡ (some stored, w₂)
      → All (λ (row : List (Option Bytes)). length row ≡ stored.num_fields) stored.rows
      → Yields (query_all e query r m) λ ((done, r'), m').
        (done ≡ true)
        × (r'.result_set ≡ map (map value_of) stored.rows)
        × (r'.fields_name ≡ stored.names)
        × (r'.mysql_res ≡ some stored.res)
        × (is_value_null r' i j ≡ some (null_at stored.rows i j))
        × (r'.error_number ≡ r.error_number)
        × (m'.live ≡ m.live)
  unfolding query_all
  query_all-stored e query r m h stored w₁ w₂ i j pointer live executed kept wide =
      rw
        (bind_returns (query_all_internal e query r) _ m
          (query_all_internal_returns e query r m h stored w₁ w₂ pointer live executed kept wide))
        (
          refl,
          refl,
          refl,
          refl,
          is_value_null-eq-flag_at (record (filled r stored) { has_value = true }) i j
                (stored.num_fields, rectangular stored.num_fields stored.rows wide)
              ∙ ap some (flag_at-eq-null_at stored.rows i j),
          refl,
          refl,
        )
