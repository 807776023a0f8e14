-- ===== src/Executor/Rows.antt =====
-- The buffers of a query with typed results: `QueryHandle`, `BindOutputs`, `FetchResults` and
-- `FetchTruncatedResults` of executor/mysql_executor.h, and the output half of
-- executor/mysql_binder.h. What the handle keeps in vectors with one element for each column is a
-- list of columns here.
pub mod Memory
pub mod Columns
pub mod Laws
pub mod Filled
pub mod Completed
pub mod Loop
pub mod Fetched
pub mod Opened
pub mod Moved
pub mod Truncated
pub mod Sized
pub mod Typing
use cpp_database.Prelude.{
  ℕ, zero, suc, ◌+◌, ◌-◌, Bool, true, false, not, Option, none, some, List, [], ◌∷◌, ◌++◌, map,
  length, take, drop, replicate, ◌==◌, leb, ◌&&◌, if◌then◌else◌,
}
use cpp_database.Prelude.Text.{Bytes}
use cpp_database.Driver.{
  MysqlApi, Outcome, returns, faults, use_after_free, out_of_bounds, out_of_fuel, Io, pure,
  when◌then◌else◌, ◌>>=◌, ◌>>◌,
}
use cpp_database.Binder.{CType, MysqlField}
use cpp_database.Results.{MysqlResults}
use cpp_database.Framework.{effect}
pub use cpp_database.Executor.Rows.Memory.{
  Delivered, null, value, Fetch, failed, no_data, fetched, RowsApi, Buffer, Column, is_dynamic,
  bind_buffer_min_size, exceeds, both, limits, flag, push_row,
}
unfoldable pub use cpp_database.Executor.Rows.Memory.{
  write_at, deliver, deliver_all, step_tuple_set, set_result_tuple,
}

module _ ⦃api : MysqlApi⦄ ⦃rows : RowsApi api.World⦄ where
  -- sizeof(T), for the types whose buffer has that size.
  abbrev pub size_of : CType → ℕ
  size_of CType.int8 = 1
  size_of CType.uint8 = 1
  size_of CType.int16 = 2
  size_of CType.uint16 = 2
  size_of CType.int32 = 4
  size_of CType.uint32 = 4
  size_of CType.int64 = 8
  size_of CType.uint64 = 8
  size_of CType.float = 4
  size_of CType.double = 8
  size_of CType.mysql_time = rows.time_size
  size_of CType.string = 0
  size_of CType.mysql_blob = 0

  -- The new bytes are zero.
  unfoldable pub resize : Buffer → ℕ → Buffer
  resize b size = record {
    bytes = take size b.bytes ++ replicate (size - length b.bytes) 0;
    capacity = if leb size b.capacity then b.capacity else rows.grown b.capacity size;
    place = if leb size b.capacity then b.place else b.place + 1;
  }

  -- QueryHandle's constructor at a column: its buffer, from the initial size of the results' option.
  unfoldable pub resize_buffer : ℕ → CType → Buffer
  unfolding resize
  resize_buffer dynamic_buffer_size type =
      let empty : Buffer = record { bytes = []; capacity = 0; place = 0 } in
      if is_dynamic type then resize empty dynamic_buffer_size else empty

  -- The buffer that StepOutputBind leaves.
  unfoldable pub bind_buffer : CType → Buffer → Buffer
  unfolding resize
  bind_buffer type buffer =
      if is_dynamic type
      then if length buffer.bytes == 0 then resize buffer bind_buffer_min_size else buffer
      else resize buffer (size_of type)

  -- The column after StepOutputBind and mysql_stmt_bind_result.
  unfoldable pub step_output_bind : CType → Buffer → Column
  unfolding bind_buffer
  step_output_bind type buffer =
      let bound = bind_buffer type buffer in
      let buffer_length = if is_dynamic type then length bound.bytes else 0 in
      record {
        type = type;
        buffer = bound;
        offset = 0;
        buffer_length = buffer_length;
        is_null = false;
        len = 0;
        bound_place = bound.place;
        bound_length = buffer_length;
      }

  -- A column of a new handle.
  unfoldable pub open_column : ℕ → CType → Column
  unfolding resize_buffer step_output_bind
  open_column dynamic_buffer_size type =
      step_output_bind type (resize_buffer dynamic_buffer_size type)

  abbrev pub lift : {A : Type 0} → Outcome A → Io A
  lift (returns a) = pure a
  lift (faults f) = λ m. faults f

  -- The body of the loop of FetchTruncatedResults: whether it succeeded, and the column.
  unfoldable pub refetch : ℕ → ℕ → Column → Io (Bool × Column)
  unfolding resize write_at
  refetch stmt i c = do
    let old_size = length c.buffer.bytes
    let buffer = resize c.buffer c.len
    (done, bytes) ← effect (rows.stmt_fetch_column stmt i old_size c.len)
    new ← lift (write_at buffer.bytes old_size bytes)
    let c' = record c { buffer = record buffer { bytes = new }; buffer_length = c.len }
    pure (done, if done then record c' { offset = 0 } else record c' { offset = old_size })

  -- The loop, from column `i` on; a failure ends it.
  unfoldable pub fetch_truncated : ℕ → ℕ → List Column → Io (Bool × List Column)
  unfolding refetch
  fetch_truncated stmt i [] = pure (true, [])
  fetch_truncated stmt i (c ∷ cs) =
      let rest = fetch_truncated stmt (i + 1) cs in
      (when exceeds c then refetch stmt i c else pure (true, c)) >>= λ r.
      when r.0 then (rest >>= λ s. pure (s.0, r.1 ∷ s.1)) else pure (false, r.1 ∷ cs)

  -- The answer of FetchTruncatedResults is ignored.
  unfoldable pub complete : ℕ → Bool → List Column → Io (List Column)
  unfolding fetch_truncated
  complete stmt truncated cs =
      when truncated then (fetch_truncated stmt 0 cs >>= λ r. pure r.1) else pure cs

  -- What is done with a row that was fetched.
  unfoldable pub read_row : ℕ → List Column → Bool → List Delivered → Io (List Column × List Bytes)
  unfolding deliver_all complete set_result_tuple
  read_row stmt cs truncated ds = do
    cs₁ ← lift (deliver_all cs ds)
    cs₂ ← complete stmt truncated cs₁
    values ← lift (set_result_tuple cs₂)
    pure (cs₂, values)

  -- The loop of FetchResults, with fuel.
  unfoldable pub fetch_loop :
      ℕ → ℕ → List Column → MysqlResults (List Bytes) → Io (Bool × MysqlResults (List Bytes))
  unfolding read_row
  fetch_loop zero stmt cs r = λ m. faults out_of_fuel
  fetch_loop (suc fuel) stmt cs r =
      let again = λ (row : List Column × List Bytes). fetch_loop fuel stmt row.0 (push_row r row) in
      effect (rows.stmt_fetch stmt (limits cs)) >>= λ f. elim f [
        | failed ↦ pure (false, r)
        | no_data ↦ pure (true, r)
        | fetched truncated ds ↦ read_row stmt cs truncated ds >>= again
      ]

  unfoldable pub fetch_results :
      ℕ → ℕ → List Column → MysqlResults (List Bytes) → Io (Bool × MysqlResults (List Bytes))
  unfolding fetch_loop
  fetch_results fuel stmt cs r = do
    stored ← effect (rows.stmt_store_result stmt)
    when not stored then pure (false, r) else fetch_loop fuel stmt cs r
