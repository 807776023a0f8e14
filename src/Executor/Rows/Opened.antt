-- ===== src/Executor/Rows/Opened.antt =====
-- The columns of a new handle, and FetchResults on them.
use cpp_database.Prelude.{
  ℕ, ◌<◌, ◌≡◌, refl, sym, ap, subst, true, List, [], ◌∷◌, map, length, length-replicate, take,
  replicate, ◌-◌, All, arith, length-append, length-take, take_all, leb, leb→le, Bool-cases, inl,
  inr, if◌then◌else◌, ◌==◌, ◌∙◌,
}
use cpp_database.Prelude.Text.{Bytes}
use cpp_database.Driver.{MysqlApi, Machine, Yields}
use cpp_database.Binder.{CType}
use cpp_database.Results.{MysqlResults}
use cpp_database.Executor.Rows.{
  RowsApi, Buffer, is_dynamic, bind_buffer_min_size, size_of, resize_buffer, bind_buffer,
  step_output_bind, open_column, resize, fetch_loop, fetch_results,
}
use cpp_database.Executor.Rows.Columns.{IsReady}
use cpp_database.Executor.Rows.Laws.{Row, RowsLaws, Shape, shape, AllFitButLast, types}
use cpp_database.Executor.Rows.Fetched.{Received, fetch_loop-Received}

module _ ⦃api : MysqlApi⦄ ⦃rows : RowsApi api.World⦄ where
  -- The size of the buffer of a new column.
  abbrev pub output_size : ℕ → CType → ℕ
  output_size dynamic_buffer_size type =
      if is_dynamic type
      then if dynamic_buffer_size == 0 then bind_buffer_min_size else dynamic_buffer_size
      else size_of type

  length-resize : (b : Buffer) (size : ℕ) → length (resize b size).bytes ≡ size
  unfolding resize
  length-resize b size =
      let zeros = length-replicate {A = ℕ} (size - length b.bytes) 0 in
      let joined = length-append (take size b.bytes) (replicate (size - length b.bytes) 0) in
      elim (Bool-cases (leb size (length b.bytes))) [
        | inl shorter ↦
            let room = leb→le size (length b.bytes) shorter in
            omega (arith, zeros, joined, length-take size b.bytes room)
        | inr longer ↦
            let all = ap (λ (x : Bytes). length x) (take_all size b.bytes (ground arith)) in
            let over : length b.bytes < size = ground arith in
            omega (arith, zeros, joined, all, over)
      ]

  length-bind_buffer :
      (type : CType) (b : Buffer)
      → length (bind_buffer type b).bytes ≡ output_size (length b.bytes) type
  unfolding bind_buffer
  length-bind_buffer type b = elim (Bool-cases (is_dynamic type)) [
    | inl dynamic ↦ elim (Bool-cases (length b.bytes == 0)) [
      | inl no_size ↦ rw (dynamic, no_size) (length-resize b bind_buffer_min_size)
      | inr sized ↦ rw (dynamic, sized) refl
    ]
    | inr fixed ↦ rw fixed (length-resize b (size_of type))
  ]

  bound_length-output_size :
      (size : ℕ) (type : CType)
      → length (bind_buffer type (resize_buffer size type)).bytes ≡ output_size size type
  unfolding resize_buffer
  bound_length-output_size size type =
      let empty : Buffer = record { bytes = []; capacity = 0; place = 0 } in
      length-bind_buffer type (resize_buffer size type) ∙ elim (Bool-cases (is_dynamic type)) [
        | inl dynamic ↦
            rw dynamic (
              ap (λ (n : ℕ). if n == 0 then bind_buffer_min_size else n) (length-resize empty size))
        | inr fixed ↦ rw fixed refl
      ]

  pub open_column-IsReady :
      (size : ℕ) (type : CType)
      → IsReady (open_column size type)
        × (length (open_column size type).buffer.bytes ≡ output_size size type)
  unfolding open_column step_output_bind
  open_column-IsReady size type = (
    record {
      at_front = refl;
      in_place = refl;
      whole = λ dynamic. rw dynamic refl;
      short = λ _. omega arith;
    },
    bound_length-output_size size type,
  )

  -- The types of a query's arguments, and the sizes of their buffers.
  abbrev pub shape_of : ℕ → List CType → Shape
  shape_of size [] = []
  shape_of size (type ∷ ts) = (type, output_size size type) ∷ shape_of size ts

  type_lem : (size : ℕ) (type : CType) → (open_column size type).type ≡ type
  unfolding open_column step_output_bind
  type_lem size type = refl

  columns_lem :
      (size : ℕ) (ts : List CType)
      → All IsReady (map (open_column size) ts)
        × (shape (map (open_column size) ts) ≡ shape_of size ts)
        × (types (map (open_column size) ts) ≡ ts)
  columns_lem size [] = (tt, refl, refl)
  columns_lem size (type ∷ ts) =
      let (ready, same) = open_column-IsReady size type in
      let (rest, shapes, all_types) = columns_lem size ts in
      (
        (ready, rest),
        rw (same, shapes)
            (ap (λ (t : CType). (t, output_size size type) ∷ shape_of size ts)
              (type_lem size type)),
        rw all_types (ap (λ (t : CType). t ∷ ts) (type_lem size type)),
      )

module _ ⦃api : MysqlApi⦄ ⦃rows : RowsApi api.World⦄ (laws : RowsLaws rows) where
  -- On the columns of a new handle, where the result is stored and has fewer rows than the fuel,
  -- and where every row but the last fits the buffers, FetchResults succeeds: it appends what is read
  -- of each row, in order, with the flags of NULL, whatever the lengths of the values of the last
  -- row are; it changes nothing else of the results, and allocates and frees no handle.
  pub fetch_results-Received :
      (fuel stmt size : ℕ) (ts : List CType) (rs : List Row) (r : MysqlResults (List Bytes))
      (m : Machine api.World)
      → (rows.stmt_store_result stmt m.world).0 ≡ true
      → laws.remaining stmt (rows.stmt_store_result stmt m.world).1 ≡ rs
      → AllFitButLast (shape_of size ts) rs
      → length rs < fuel
      → Yields
          (fetch_results fuel stmt (map (open_column size) ts) r m)
          (Received laws stmt ts rs r m)
  unfolding fetch_results
  fetch_results-Received fuel stmt size ts rs r m stored left fits enough =
      let (ready, same_shape, same_types) = columns_lem size ts in
      let m₁ : Machine api.World = record m { world = (rows.stmt_store_result stmt m.world).1 } in
      rw stored (
        subst
          (λ us.
            Yields (fetch_loop fuel stmt (map (open_column size) ts) r m₁)
              (Received laws stmt us rs r m₁))
          same_types
          (fetch_loop-Received laws fuel stmt (map (open_column size) ts) rs r m₁ ready
            (subst (λ s. AllFitButLast s rs) (sym same_shape) fits) left enough))
