-- ===== src/Executor/Rows/Memory.antt =====
-- The memory of a query with typed results: the buffers and bindings of its columns, what a fetch
-- writes to them, and what is read from them.
use cpp_database.Prelude.{
  ℕ, ◌+◌, Bool, true, false, not, Option, none, some, List, [], ◌∷◌, ◌++◌, map, length, take, drop,
  ◌==◌, leb, ◌&&◌, if◌then◌else◌,
}
use cpp_database.Prelude.Text.{Bytes}
use cpp_database.Driver.{Outcome, returns, faults, use_after_free, out_of_bounds, when◌then◌else◌}
use cpp_database.Binder.{CType, MysqlField}
use cpp_database.Results.{MysqlResults}

-- What a fetch reports of a column: NULL, which leaves the column's length and bytes alone, or the
-- length of the value and the bytes that are written to the buffer.
pub data Delivered : Type 0 where
  null : Delivered
  value : ℕ → Bytes → Delivered

-- The answers of mysql_stmt_fetch: 1, MYSQL_NO_DATA, or a row with whether it is
-- MYSQL_DATA_TRUNCATED.
pub data Fetch : Type 0 where
  failed : Fetch
  no_data : Fetch
  fetched : Bool → List Delivered → Fetch

-- The calls of the client library on the result of a statement, and the sizes that the compiler gives. A limit is
-- the buffer_length of a column whose values vary in length, and `none` for any other column.
pub record RowsApi (World : Type 0) : Type 0 where
  pub stmt_store_result : ℕ → World → Bool × World
  pub stmt_fetch : ℕ → List (Option ℕ) → World → Fetch × World
  -- mysql_stmt_result_metadata, with what mysql_fetch_fields then reports.
  pub stmt_result_metadata : ℕ → World → Option (List MysqlField) × World
  pub stmt_bind_result : ℕ → List (Option ℕ) → World → Bool × World
  -- mysql_stmt_fetch_column at a column, an offset and a buffer_length: whether it succeeded, and the
  -- bytes that are written.
  pub stmt_fetch_column : ℕ → ℕ → ℕ → ℕ → World → (Bool × Bytes) × World
  -- sizeof(MysqlTime).
  pub time_size : ℕ
  -- The capacity of a vector that is resized beyond its capacity, from that and from the new size.
  pub grown : ℕ → ℕ → ℕ

-- A std::vector<std::byte>: `place` is where its bytes are in memory, a number that is new each time
-- they are moved.
pub record Buffer : Type 0 where
  pub bytes : Bytes
  pub capacity : ℕ
  pub place : ℕ

-- A column: its buffer, its MYSQL_BIND, whose pointer is an offset in the buffer, and its flag and
-- length. `bound_place` and `bound_length` are the pointer and the length that
-- mysql_stmt_bind_result has copied.
pub record Column : Type 0 where
  pub type : CType
  pub buffer : Buffer
  pub offset : ℕ
  pub buffer_length : ℕ
  pub is_null : Bool
  pub len : ℕ
  pub bound_place : ℕ
  pub bound_length : ℕ

abbrev pub is_dynamic : CType → Bool
is_dynamic CType.string = true
is_dynamic CType.mysql_blob = true
is_dynamic _ = false

abbrev pub bind_buffer_min_size : ℕ
bind_buffer_min_size = 32

-- Whether a dynamic column's value is longer than its buffer.
abbrev pub exceeds : Column → Bool
exceeds c = is_dynamic c.type && not (leb c.len (length c.buffer.bytes))

-- Bytes written at an offset.
unfoldable pub write_at : Bytes → ℕ → Bytes → Outcome Bytes
write_at bytes offset new =
    if leb (offset + length new) (length bytes)
    then returns (take offset bytes ++ (new ++ drop (offset + length new) bytes))
    else faults out_of_bounds

-- What the library does to a column in a fetch: it writes through the pointer that was bound.
unfoldable pub deliver : Column → Delivered → Outcome Column
unfolding write_at
deliver c null = returns (record c { is_null = true })
deliver c (value n bytes) =
    let written = write_at c.buffer.bytes 0 bytes in
    if c.bound_place == c.buffer.place
    then elim written [
      | returns new ↦
          returns (record c { is_null = false; len = n; buffer = record c.buffer { bytes = new } })
      | faults f ↦ faults f
    ]
    else faults use_after_free

-- Two results and a function of both; the first fault counts.
abbrev pub both : {A B C : Type 0} → (A → B → C) → Outcome A → Outcome B → Outcome C
both f (returns a) (returns b) = returns (f a b)
both f (returns a) (faults e) = faults e
both f (faults e) o = faults e

unfoldable pub deliver_all : List Column → List Delivered → Outcome (List Column)
deliver_all (c ∷ cs) (d ∷ ds) = both (λ c' cs'. c' ∷ cs') (deliver c d) (deliver_all cs ds)
deliver_all cs ds = returns cs

-- StepTupleSet: a string or a blob is not set where the flag is set; any other type reads its
-- bytes whatever the flag.
unfoldable pub step_tuple_set : Column → Outcome Bytes
step_tuple_set c =
    if is_dynamic c.type
    then if c.is_null
      then returns []
      else if leb (c.offset + c.len) (length c.buffer.bytes)
      then returns (take c.len (drop c.offset c.buffer.bytes))
      else faults out_of_bounds
    else returns c.buffer.bytes

unfoldable pub set_result_tuple : List Column → Outcome (List Bytes)
set_result_tuple [] = returns []
set_result_tuple (c ∷ cs) = both (λ v vs. v ∷ vs) (step_tuple_set c) (set_result_tuple cs)

abbrev pub limits : List Column → List (Option ℕ)
limits = map (λ c. if is_dynamic c.type then some c.bound_length else none)

abbrev pub flag : Column → ℕ
flag c = if c.is_null then 1 else 0

abbrev pub push_row :
    MysqlResults (List Bytes) → List Column × List Bytes → MysqlResults (List Bytes)
push_row r row = record r {
  result_set = r.result_set ++ row.1 ∷ [];
  null_flags = r.null_flags ++ map flag row.0 ∷ [];
}
