-- ===== src/Executor/Native.antt =====
-- MysqlExecutor::QueryAll of executor/mysql_executor.h for results in mode NativeString.
pub mod Stored
use cpp_database.Prelude.{
  ℕ, zero, suc, ◌≡◌, refl, ap, ◌∙◌, Bool, true, false, not, Option, none, some, List, [], ◌∷◌, ◌++◌,
  map, arith, length, length-map, get_elem?, All, is_some, if◌then◌else◌, ◌==◌,
}
use mathlib.Core.List.{append_assoc, append-nil}
use cpp_database.Prelude.Text.{Bytes}
use cpp_database.Driver.{
  MysqlApi, StoredResult, Machine, returns, faults, out_of_bounds, assertion_failed, Io, pure,
  Yields, when◌then◌else◌, ◌>>=◌,
}
use cpp_database.Driver.Calls.{contains, on_handle}
use cpp_database.Driver.Rules.{bind_returns}
use cpp_database.Executor.{MysqlExecutor, get_error_message, get_error_number}
use cpp_database.Results.{
  MysqlResults, clear, set_error_message, set_error_number, set_raw_mysql_res, set_fields_name,
  is_value_null,
}
use cpp_database.Results.Nulls.{flag_at, is_value_null-eq-flag_at}

-- The text of a value: the empty text for a null pointer.
abbrev pub value_of : Option Bytes → Bytes
value_of none = []
value_of (some text) = text

abbrev pub flag_of : Option Bytes → ℕ
flag_of none = 1
flag_of (some text) = 0

-- The inner loop: the values of a row and their flags, `none` when the row has too few.
unfoldable pub read_cells : ℕ → List (Option Bytes) → Option (List Bytes × List ℕ)
read_cells zero row = some ([], [])
read_cells (suc n) [] = none
read_cells (suc n) (cell ∷ row) = elim (read_cells n row) [
  | none ↦ none
  | some (values, flags) ↦ some (value_of cell ∷ values, flag_of cell ∷ flags)
]

-- The loop over mysql_fetch_row.
unfoldable pub read_rows :
    ℕ → List (List (Option Bytes)) → MysqlResults (List Bytes) → Option (MysqlResults (List Bytes))
read_rows n [] r = some r
read_rows n (row ∷ rows) r =
    let rest = λ (r' : MysqlResults (List Bytes)). read_rows n rows r' in
    elim (read_cells n row) [
      | none ↦ none
      | some (values, flags) ↦ rest (record r {
        result_set = r.result_set ++ values ∷ [];
        null_flags = r.null_flags ++ flags ∷ [];
      })
    ]

module _ ⦃api : MysqlApi⦄ where
  -- The error of the connection is written to the results.
  unfoldable pub fail_native :
      MysqlExecutor → MysqlResults (List Bytes) → Io (Bool × MysqlResults (List Bytes))
  unfolding set_error_message set_error_number
  fail_native e r = do
    message ← get_error_message e
    number ← get_error_number e
    pure (false, set_error_number (set_error_message r message) number)

  unfoldable pub store_native :
      MysqlExecutor
      → MysqlResults (List Bytes)
      → Option StoredResult
      → Io (Bool × MysqlResults (List Bytes))
  unfolding fail_native set_fields_name
  store_native e r none m = fail_native e r m
  store_native e r (some stored) m = elim (read_rows stored.num_fields stored.rows r) [
    | none ↦ faults out_of_bounds
    | some r' ↦ elim (set_raw_mysql_res r' stored.res) [
      | none ↦ faults assertion_failed
      | some r'' ↦ returns ((true, set_fields_name r'' (some stored.names)), m)
    ]
  ]

  -- QueryAllInternal, with the text that FormatQuery gives: whether it succeeded, and the results.
  unfoldable pub query_all_internal :
      MysqlExecutor → Bytes → MysqlResults (List Bytes) → Io (Bool × MysqlResults (List Bytes))
  unfolding on_handle store_native clear
  query_all_internal e query r = do
    done ← on_handle e.mysql (λ h. api.real_query h query)
    when not done
        then fail_native e (clear r).0
        else (do stored ← on_handle e.mysql api.store_result; store_native e (clear r).0 stored)

  -- QueryAll; Clear frees the raw result of the query before.
  unfoldable pub query_all :
      MysqlExecutor → Bytes → MysqlResults (List Bytes) → Io (Bool × MysqlResults (List Bytes))
  unfolding query_all_internal
  query_all e query r = do
    (done, r') ← query_all_internal e query r
    when not done then pure (false, r') else pure (true, record r' { has_value = true })
