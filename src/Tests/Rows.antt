-- ===== src/Tests/Rows.antt =====
-- A query whose result has one row, with a value and a NULL.
use cpp_database.Prelude.{◌≡◌, refl, true, some, List, [], ◌∷◌, map}
use cpp_database.Prelude.Text.{Bytes, codes}
use cpp_database.Driver.{Yields}
use cpp_database.Results
use cpp_database.Results.{MysqlResults, is_value_null}
use cpp_database.Executor.Native.{query_all, value_of}
use cpp_database.Executor.Native.Stored.{null_at, query_all-stored}
use cpp_database.Tests.{net_api, up, machine, executor, stored}

abbrev failed_before : MysqlResults (List Bytes)
failed_before = record (Results.with_option 64) { error_number = 7; mysql_res = some 5 }

query_all-stored_example :
    Yields
      (query_all ⦃api = net_api⦄ (executor true) (codes "select 1") failed_before (machine up))
      λ ((done, r'), m').
        (done ≡ true)
        × (r'.result_set ≡ map (map value_of) stored.rows)
        × (r'.fields_name ≡ stored.names)
        × (r'.mysql_res ≡ some 9)
        × (is_value_null r' 0 1 ≡ some (null_at stored.rows 0 1))
        × (r'.error_number ≡ failed_before.error_number)
        × (m'.live ≡ 1 ∷ [])
query_all-stored_example =
    query_all-stored ⦃api = net_api⦄ (executor true) (codes "select 1") failed_before (machine up) 1
      stored up up 0 1 refl refl refl refl (refl, tt)
