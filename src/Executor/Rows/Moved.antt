-- ===== src/Executor/Rows/Moved.antt =====
-- FetchTruncatedResults and the rows after it: a buffer that was moved is not bound again.
use cpp_database.Prelude.{
  ℕ, suc, ◌≤◌, ◌<◌, ◌≡◌, refl, ap, ◌∙◌, Bool, true, some, List, [], ◌∷◌, length, take, drop,
  take_all, length-take, length-drop, get_elem?, arith,
}
use cpp_database.Prelude.Text.{Bytes}
use cpp_database.Driver.{MysqlApi, Machine, returns, faults, use_after_free}
use cpp_database.Driver.Rules.{bind_returns, bind_faults}
use cpp_database.Results.{MysqlResults}
use cpp_database.Executor.Rows.{
  RowsApi, value, Column, is_dynamic, deliver, resize, exceeds, refetch, deliver_all,
  step_tuple_set, set_result_tuple, fetch_truncated, complete, limits, read_row, push_row,
  fetch_loop,
}
use cpp_database.Executor.Rows.Columns.{IsReady}
use cpp_database.Executor.Rows.Truncated.{cut_front, completed, refetch_cut, deliver_cut}
use cpp_database.Executor.Rows.Laws.{Row, RowsLaws, delivered, is_cut}

module _ ⦃api : MysqlApi⦄ ⦃rows : RowsApi api.World⦄ (laws : RowsLaws rows) where
  deliver_moved :
      (c : Column) (v new : Bytes) (n : ℕ)
      → IsReady c
      → c.buffer.capacity < length v
      → deliver (completed c v) (value n new) ≡ faults use_after_free
  unfolding deliver resize
  deliver_moved c v new n ready moved = ground (arith, ready.in_place)

  step_tuple_set-completed :
      (c : Column) (v : Bytes)
      → is_dynamic c.type ≡ true
      → step_tuple_set (completed c v) ≡ returns v
  unfolding step_tuple_set
  step_tuple_set-completed c v dynamic = ground (arith, take_all (length v) v (omega arith))

  -- The machine after the call for the rest of the value.
  abbrev refetched : ℕ → Column → Bytes → Machine api.World → Machine api.World
  refetched stmt c v m = record m {
    world =
        (rows.stmt_fetch_column stmt 0 (length (cut_front c v).buffer.bytes) (length v) m.world).1;
  }

  fetch_truncated_one :
      (stmt : ℕ) (c : Column) (v : Bytes) (m : Machine api.World)
      → length c.buffer.bytes < length v
      → is_dynamic c.type ≡ true
      → laws.current stmt m.world ≡ some v ∷ []
      → fetch_truncated stmt 0 (cut_front c v ∷ []) m
        ≡ returns ((true, completed c v ∷ []), refetched stmt c v m)
  unfolding fetch_truncated
  fetch_truncated_one stmt c v m long dynamic now =
      let size = length c.buffer.bytes in
      let filled = length-take size v (omega arith) in
      let (answer, same, same_row) =
        laws.fetch_column stmt 0 (length (take size v)) (length v) m.world v
          (ap (λ (r : Row). get_elem? r 0) now) in
      let all : take (length v) (drop (length (take size v)) v) ≡ drop size v =
        ap (λ (n : ℕ). take (length v) (drop n v)) filled
        ∙ take_all (length v) (drop size v) (omega (arith, length-drop size v)) in
      let over : exceeds (cut_front c v) ≡ true = ground (arith, filled) in
      rw over (
        bind_returns (refetch stmt 0 (cut_front c v)) _ m
          (refetch_cut stmt 0 c v m (omega arith) (answer ∙ ap (λ (b : Bytes). (true, b)) all)))

  read_long :
      (stmt : ℕ) (c : Column) (v : Bytes) (m : Machine api.World)
      → IsReady c
      → length c.buffer.bytes < length v
      → is_dynamic c.type ≡ true
      → laws.current stmt m.world ≡ some v ∷ []
      → read_row stmt
          (c ∷ [])
          (is_cut (limits (c ∷ [])) (some v ∷ []))
          (delivered (limits (c ∷ [])) (some v ∷ []))
          m
        ≡ returns ((completed c v ∷ [], v ∷ []), refetched stmt c v m)
  unfolding read_row deliver_all complete set_result_tuple
  read_long stmt c v m ready long dynamic now =
      let cut : is_cut (limits (c ∷ [])) (some v ∷ []) ≡ true =
        ground (arith, ready.whole dynamic) in
      rw (cut, deliver_cut c v ready dynamic long)
        (bind_returns (complete stmt true (cut_front c v ∷ [])) _ m (
            bind_returns (fetch_truncated stmt 0 (cut_front c v ∷ [])) _ m
              (fetch_truncated_one stmt c v m long dynamic now))
          ∙ rw (step_tuple_set-completed c v dynamic) refl)

  read_moved :
      (stmt : ℕ) (c : Column) (v u : Bytes) (truncated : Bool) (m : Machine api.World)
      → IsReady c
      → is_dynamic c.type ≡ true
      → c.buffer.capacity < length v
      → read_row stmt
          (completed c v ∷ [])
          truncated
          (delivered (limits (completed c v ∷ [])) (some u ∷ []))
          m
        ≡ faults use_after_free
  unfolding read_row deliver_all
  read_moved stmt c v u truncated m ready dynamic moved =
      rw (dynamic, deliver_moved c v (take c.bound_length u) (length u) ready moved) refl

  fetch_moved :
      (fuel stmt : ℕ) (c : Column) (v u : Bytes) (rest : List Row) (r : MysqlResults (List Bytes))
      (m : Machine api.World)
      → IsReady c
      → is_dynamic c.type ≡ true
      → c.buffer.capacity < length v
      → laws.remaining stmt m.world ≡ (some u ∷ []) ∷ rest
      → fetch_loop (suc fuel) stmt (completed c v ∷ []) r m ≡ faults use_after_free
  unfolding fetch_loop
  fetch_moved fuel stmt c v u rest r m ready dynamic moved left =
      let cs = completed c v ∷ [] in
      let truncated = is_cut (limits cs) (some u ∷ []) in
      rw ((laws.fetch_row stmt (limits cs) m.world (some u ∷ []) rest left).0) (
        bind_faults (read_row stmt cs truncated (delivered (limits cs) (some u ∷ [])))
          (λ row. fetch_loop fuel stmt row.0 (push_row r row))
          (record m { world = (rows.stmt_fetch stmt (limits cs) m.world).1 })
          (read_moved stmt c v u truncated _ ready dynamic moved))

  -- Where a value of a result with one column is longer than the memory of its buffer, and the next
  -- row's value is not NULL, FetchResults makes the library write to memory that was freed.
  pub fetch_loop-dangling :
      (fuel stmt : ℕ) (c : Column) (v u : Bytes) (rest : List Row) (r : MysqlResults (List Bytes))
      (m : Machine api.World)
      → IsReady c
      → is_dynamic c.type ≡ true
      → length c.buffer.bytes ≤ c.buffer.capacity
      → c.buffer.capacity < length v
      → laws.remaining stmt m.world ≡ (some v ∷ []) ∷ (some u ∷ []) ∷ rest
      → fetch_loop (suc (suc fuel)) stmt (c ∷ []) r m ≡ faults use_after_free
  unfolding fetch_loop
  fetch_loop-dangling fuel stmt c v u rest r m ready dynamic within moved left =
      let w₁ = (rows.stmt_fetch stmt (limits (c ∷ [])) m.world).1 in
      let m₁ : Machine api.World = record m { world = w₁ } in
      let (answer, left', now) =
        laws.fetch_row stmt (limits (c ∷ [])) m.world (some v ∷ []) ((some u ∷ []) ∷ rest) left in
      let (_, kept, _) =
        laws.fetch_column stmt 0 (length (cut_front c v).buffer.bytes) (length v) w₁ v
          (ap (λ (x : Row). get_elem? x 0) now) in
      rw answer (
        bind_returns
          (read_row stmt (c ∷ []) (is_cut (limits (c ∷ [])) (some v ∷ []))
            (delivered (limits (c ∷ [])) (some v ∷ [])))
          (λ row. fetch_loop (suc fuel) stmt row.0 (push_row r row)) m₁
          (read_long stmt c v m₁ ready (omega arith) dynamic now)
        ∙ fetch_moved fuel stmt c v u rest (push_row r (completed c v ∷ [], v ∷ []))
            (refetched stmt c v m₁) ready dynamic moved (kept ∙ left'))
