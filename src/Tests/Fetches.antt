-- ===== src/Tests/Fetches.antt =====
-- A statement with a result of two rows: the last has a NULL, and a text that is longer than its
-- buffer.
use cpp_database.Prelude.{
  ℕ, ◌≡◌, refl, Bool, true, false, Option, none, some, List, [], ◌∷◌, map, take, drop, get_elem?,
  arith,
}
use cpp_database.Prelude.Text.{Bytes, codes}
use cpp_database.Driver.{MysqlApi, Machine, Yields, Ensures, faults, use_after_free}
use cpp_database.Binder
use cpp_database.Binder.{CType, FieldType, MysqlField}
use cpp_database.Results
use cpp_database.Results.{MysqlResults}
use cpp_database.Executor.Statement.{StatementApi}
use cpp_database.Executor.Rows.{
  RowsApi, Fetch, no_data, fetched, Column, open_column, resize, fetch_loop, fetch_results,
}
use cpp_database.Executor.Rows.Laws.{Row, RowsLaws, AllFitButLast, delivered, is_cut}
use cpp_database.Executor.Rows.Fetched.{Received}
use cpp_database.Executor.Rows.Opened.{shape_of, open_column-IsReady, fetch_results-Received}
use cpp_database.Executor.Rows.Moved.{fetch_loop-dangling}
use cpp_database.Executor.Typed.{query_all}
use cpp_database.Executor.Typed.Answered.{Accepts}
use cpp_database.Executor.Typed.Queried.{Answer, query_all-Answer}
use cpp_database.Executor.Rows.Typing.{IsTyped}
use cpp_database.Executor.Typed.Typing.{query_all-IsTyped}
use cpp_database.Tests.{stored, executor}

-- The rows that are left, and the row that was fetched last.
record Db : Type 0 where
  queue : List Row
  current : Row

abbrev db_api : MysqlApi
db_api = record {
  World = Db;
  init = λ w. (true, w);
  set_character_set = λ h c w. w;
  set_timeouts = λ h t w. w;
  real_connect = λ h o w. (true, w);
  close = λ h w. w;
  ping = λ h w. (true, w);
  autocommit = λ h b w. (true, w);
  real_query = λ h q w. (true, w);
  store_result = λ h w. (some stored, w);
  affected_rows = λ h w. 0;
  errno = λ h w. 0;
  error = λ h w. [];
  steady_milliseconds = λ w. (0, w);
  sleep = λ t w. w;
}

abbrev two_rows : List Row
two_rows =
    (some (7 ∷ 0 ∷ 0 ∷ 0 ∷ []) ∷ some (codes "abc") ∷ []) ∷ (none ∷ some (codes "abcdef") ∷ []) ∷ []

abbrev fetch : List (Option ℕ) → Db → Fetch × Db
fetch ls w = elim w.queue [
  | [] ↦ (no_data, w)
  | row ∷ rest ↦
      (fetched (is_cut ls row) (delivered ls row), record { queue = rest; current = row })
]

abbrev column_from : ℕ → ℕ → Option (Option Bytes) → Bool × Bytes
column_from offset size (some (some v)) = (true, take size (drop offset v))
column_from offset size _ = (false, [])

abbrev id_name : List MysqlField
id_name =
    record { type = FieldType.long; name = codes "id" }
    ∷ record { type = FieldType.var_string; name = codes "name" }
    ∷ []

abbrev db_rows : RowsApi Db
db_rows = record {
  stmt_store_result = λ p w. (true, record w { queue = two_rows });
  stmt_fetch = λ p ls w. fetch ls w;
  stmt_result_metadata = λ p w. (some id_name, w);
  stmt_bind_result = λ p ls w. (true, w);
  stmt_fetch_column = λ p i offset size w. (column_from offset size (get_elem? w.current i), w);
  time_size = 40;
  grown = λ old new. new;
}

abbrev db_laws : RowsLaws db_rows
db_laws = record {
  remaining = λ p w. w.queue;
  current = λ p w. w.current;
  fetch_end = λ p ls w e. rw e refl;
  fetch_row = λ p ls w row rest e. rw e (refl, refl, refl);
  fetch_column = λ p i offset size w v e. rw e (refl, refl, refl);
}

abbrev db_statements : StatementApi Db
db_statements = record {
  stmt_init = λ h w. (some 3, w);
  stmt_prepare = λ p sql w. (true, w);
  stmt_field_count = λ p w. 2;
  stmt_param_count = λ p w. 0;
  stmt_bind_param = λ p binds w. (true, w);
  stmt_execute = λ p w. (true, w);
  stmt_errno = λ p w. 0;
  stmt_error = λ p w. [];
  stmt_free_result = λ p w. (true, w);
  stmt_close = λ p w. w;
  status_ok = λ number message. false;
}

abbrev db_machine : Machine Db
db_machine = record { world = record { queue = []; current = [] }; live = 1 ∷ []; next = 2 }

abbrev id_text : List CType
id_text = CType.int32 ∷ CType.string ∷ []

abbrev four_bytes : MysqlResults (List Bytes)
four_bytes = Results.with_option 4

two_rows_fit : AllFitButLast (shape_of ⦃api = db_api⦄ ⦃rows = db_rows⦄ 4 id_text) two_rows
two_rows_fit = (
  ((λ _. refl, λ _. omega arith), ((λ no. absurd (ground arith), λ _. omega arith), tt)),
  (tt, (λ no. absurd (ground arith), tt)),
)

fetch_results-Received_example :
    Yields
      (fetch_results ⦃api = db_api⦄ ⦃rows = db_rows⦄ 3 3
        (map (open_column ⦃api = db_api⦄ ⦃rows = db_rows⦄ 4) id_text)
        four_bytes
        db_machine)
      (Received ⦃api = db_api⦄ ⦃rows = db_rows⦄ db_laws 3 id_text two_rows four_bytes db_machine)
fetch_results-Received_example =
    fetch_results-Received ⦃api = db_api⦄ ⦃rows = db_rows⦄ db_laws 3 3 4 id_text two_rows four_bytes
      db_machine refl refl two_rows_fit (omega arith)

-- Two texts, the first longer than the memory of its buffer of 4 bytes.
abbrev long_first : Machine Db
long_first = record db_machine {
  world = record {
    queue = (some (codes "abcdef") ∷ []) ∷ (some (codes "x") ∷ []) ∷ [];
    current = [];
  };
}

abbrev text_column : Column
text_column = open_column ⦃api = db_api⦄ ⦃rows = db_rows⦄ 4 CType.string

fetch_loop-dangling_example :
    fetch_loop ⦃api = db_api⦄ ⦃rows = db_rows⦄ 5 3 (text_column ∷ []) four_bytes long_first
    ≡ faults use_after_free
unfolding open_column resize
fetch_loop-dangling_example =
    fetch_loop-dangling ⦃api = db_api⦄ ⦃rows = db_rows⦄ db_laws 3 3 text_column (codes "abcdef")
      (codes "x") [] four_bytes long_first
      ((open_column-IsReady ⦃api = db_api⦄ ⦃rows = db_rows⦄ 4 CType.string).0) refl (omega arith)
      (omega arith) refl

db-Accepts :
    Accepts ⦃api = db_api⦄ ⦃stmts = db_statements⦄ ⦃rows = db_rows⦄ db_laws 1
      (codes "select id, name from t")
      []
      id_name
      3
      two_rows
db-Accepts = record {
  inits = λ w. refl;
  prepares = λ w. refl;
  counts = λ w. refl;
  describes = λ w. refl;
  binds_input = λ w. refl;
  binds_output = λ ls w. refl;
  executes = λ w. refl;
  stores = λ w. refl;
  has_rows = λ w. refl;
}

-- The text about the two counts.
abbrev count_text : ℕ → ℕ → Bytes
count_text a b = codes "count"

query_all-Answer_example :
    Yields
      (query_all ⦃api = db_api⦄ ⦃stmts = db_statements⦄ ⦃rows = db_rows⦄ count_text 3
        (executor true)
        (codes "select id, name from t")
        []
        id_text
        four_bytes
        db_machine)
      λ ((done, e', r'), m').
        (done ≡ true) × Answer id_name id_text two_rows four_bytes r' × (m'.live ≡ 1 ∷ [])
unfolding Results.with_option Binder.check_fields_output_args Binder.output_type_valid
query_all-Answer_example =
    query_all-Answer ⦃api = db_api⦄ ⦃stmts = db_statements⦄ ⦃rows = db_rows⦄ db_laws 1 3
      (codes "select id, name from t") [] id_name two_rows db-Accepts (λ h w. refl) (λ p w. refl)
      count_text 3 (executor true) id_text four_bytes db_machine refl refl refl refl refl
      two_rows_fit (omega arith)

query_all-IsTyped_example :
    Ensures
      (query_all ⦃api = db_api⦄ ⦃stmts = db_statements⦄ ⦃rows = db_rows⦄ count_text 3
        (executor true)
        (codes "select id, name from t")
        []
        id_text
        four_bytes
        db_machine)
      λ ((_, _, r'), _). IsTyped ⦃api = db_api⦄ ⦃rows = db_rows⦄ id_text r'
query_all-IsTyped_example =
    query_all-IsTyped ⦃api = db_api⦄ ⦃stmts = db_statements⦄ ⦃rows = db_rows⦄ id_text count_text 3
      (executor true) (codes "select id, name from t") [] four_bytes db_machine
