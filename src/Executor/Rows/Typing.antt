-- ===== src/Executor/Rows/Typing.antt =====
-- The types of the rows that FetchResults appends, whatever the client library answers.
use cpp_database.Prelude.{
  ℕ, zero, suc, ◌≡◌, refl, ap, ◌∙◌, Bool, true, false, List, [], ◌∷◌, ◌++◌, map, length,
  length-append, length-map, length-replicate, take, replicate, ◌-◌, All, All-append, arith, not,
}
use cpp_database.Prelude.Text.{Bytes}
use cpp_database.Driver.{MysqlApi, Machine, Outcome, returns, faults, Ensures, pure, Io, ◌>>=◌}
use cpp_database.Driver.Rules.{Ensures-seq, Ensures-when}
use cpp_database.Binder.{CType}
use cpp_database.Results.{MysqlResults}
use cpp_database.Executor.Rows.{
  RowsApi, Delivered, Fetch, Column, deliver_all, complete, set_result_tuple, open_column, lift,
  read_row, push_row, fetch_loop, fetch_results, limits, flag, failed, no_data, fetched, size_of,
}
use cpp_database.Executor.Rows.Sized.{
  RowHasTypes, AreColumns, IsSized, deliver_all-AreColumns, complete-AreColumns,
  set_result_tuple-RowHasTypes,
}

module _ ⦃api : MysqlApi⦄ ⦃rows : RowsApi api.World⦄ where
  -- Every row has a value for each type, and a flag for each value.
  pub record IsTyped (types : List CType) (r : MysqlResults (List Bytes)) : Type 0 where
    pub values : All (RowHasTypes types) r.result_set
    pub flags : All (λ (fs : List ℕ). length fs ≡ length types) r.null_flags
    pub same_count : length r.null_flags ≡ length r.result_set

  lift-Ensures :
      {A : Type 0} (P : A → Type 0) (o : Outcome A) (m : Machine api.World)
      → Ensures o P
      → Ensures (lift o m) λ (a, _). P a
  lift-Ensures P (returns a) m h = h
  lift-Ensures P (faults f) m h = tt

  read_row-IsTyped :
      (stmt : ℕ) (types : List CType) (cs : List Column) (truncated : Bool) (ds : List Delivered)
      (m : Machine api.World)
      → AreColumns types cs
      → Ensures
          (read_row stmt cs truncated ds m)
          λ ((cs', values), _). AreColumns types cs' × RowHasTypes types values
  unfolding read_row
  read_row-IsTyped stmt types cs truncated ds m h =
      Ensures-seq _ _ (lift (deliver_all cs ds)) _ m
        (lift-Ensures (AreColumns types) (deliver_all cs ds) m
          (deliver_all-AreColumns types cs ds h))
        λ cs₁ m₁ h₁.
          Ensures-seq _ _ (complete stmt truncated cs₁) _ m₁
            (complete-AreColumns stmt truncated types cs₁ m₁ h₁)
            λ cs₂ m₂ h₂.
              Ensures-seq _ _ (lift (set_result_tuple cs₂)) _ m₂
                (lift-Ensures (RowHasTypes types) (set_result_tuple cs₂) m₂
                  (set_result_tuple-RowHasTypes types cs₂ h₂))
                λ values m₃ typed. (h₂, typed)

  length-AreColumns :
      (types : List CType) (cs : List Column) → AreColumns types cs → length cs ≡ length types
  length-AreColumns [] [] h = refl
  length-AreColumns [] (c ∷ cs) h = absurd h
  length-AreColumns (type ∷ types) [] h = absurd h
  length-AreColumns (type ∷ types) (c ∷ cs) h = ap suc (length-AreColumns types cs h.2)

  push_row-IsTyped :
      (types : List CType) (r : MysqlResults (List Bytes)) (cs : List Column) (values : List Bytes)
      → AreColumns types cs
      → RowHasTypes types values
      → IsTyped types r
      → IsTyped types (push_row r (cs, values))
  push_row-IsTyped types r cs values h typed before = record {
    values = All-append (RowHasTypes types) r.result_set (values ∷ []) before.values (typed, tt);
    flags =
        All-append (λ (fs : List ℕ). length fs ≡ length types) r.null_flags (map flag cs ∷ [])
          before.flags (length-map cs flag ∙ length-AreColumns types cs h, tt);
    same_count =
        let same = before.same_count in
        omega (
          arith,
          length-append {0} r.null_flags (map flag cs ∷ []),
          length-append {0} r.result_set (values ∷ []),
        );
  }

  -- What follows a fetch, where the rest of the loop keeps the types.
  after_fetch-IsTyped :
      (stmt : ℕ) (types : List CType) (cs : List Column) (r : MysqlResults (List Bytes))
      (again : List Column × List Bytes → Io (Bool × MysqlResults (List Bytes)))
      → AreColumns types cs
      → IsTyped types r
      → ((row : List Column × List Bytes) (m : Machine api.World)
          → AreColumns types row.0
          → RowHasTypes types row.1
          → Ensures (again row m) λ ((_, r'), _). IsTyped types r')
      → (f : Fetch) (m : Machine api.World)
      → Ensures
          ((elim f as (λ _. Io (Bool × MysqlResults (List Bytes))) [
            | failed ↦ pure (false, r)
            | no_data ↦ pure (true, r)
            | fetched truncated ds ↦ read_row stmt cs truncated ds >>= again
          ])
            m)
          λ ((_, r'), _). IsTyped types r'
  after_fetch-IsTyped stmt types cs r again h before rest failed m = before
  after_fetch-IsTyped stmt types cs r again h before rest no_data m = before
  after_fetch-IsTyped stmt types cs r again h before rest (fetched truncated ds) m =
      Ensures-seq _ _ (read_row stmt cs truncated ds) again m
        (read_row-IsTyped stmt types cs truncated ds m h) λ row m' (h', typed). rest row m' h' typed

  fetch_loop-IsTyped :
      (fuel stmt : ℕ) (types : List CType) (cs : List Column) (r : MysqlResults (List Bytes))
      (m : Machine api.World)
      → AreColumns types cs
      → IsTyped types r
      → Ensures (fetch_loop fuel stmt cs r m) λ ((_, r'), _). IsTyped types r'
  unfolding fetch_loop
  fetch_loop-IsTyped zero stmt types cs r m h before = tt
  fetch_loop-IsTyped (suc fuel) stmt types cs r m h before =
      let (f, w) = rows.stmt_fetch stmt (limits cs) m.world in
      after_fetch-IsTyped stmt types cs r (λ row. fetch_loop fuel stmt row.0 (push_row r row)) h
        before
        (λ (cs', values) m' h' typed.
          fetch_loop-IsTyped fuel stmt types cs' (push_row r (cs', values)) m' h'
            (push_row-IsTyped types r cs' values h' typed before))
        f (record m { world = w })

  pub fetch_results-IsTyped :
      (fuel stmt : ℕ) (types : List CType) (cs : List Column) (r : MysqlResults (List Bytes))
      (m : Machine api.World)
      → AreColumns types cs
      → IsTyped types r
      → Ensures (fetch_results fuel stmt cs r m) λ ((_, r'), _). IsTyped types r'
  unfolding fetch_results
  fetch_results-IsTyped fuel stmt types cs r m h before =
      let (stored, w) = rows.stmt_store_result stmt m.world in
      let m' : Machine api.World = record m { world = w } in
      Ensures-when _ (not stored) (pure (false, r)) (fetch_loop fuel stmt cs r) m' (λ _. before)
        (λ _. fetch_loop-IsTyped fuel stmt types cs r m' h before)

  minus_zero : (n : ℕ) → n - 0 ≡ n
  minus_zero n = omega arith

  length-resized : (n : ℕ) → length {A = ℕ} (take n [] ++ replicate (n - 0) 0) ≡ n
  length-resized zero = refl
  length-resized (suc n) =
      ap length (ap (λ k. replicate k 0) (minus_zero (suc n))) ∙ length-replicate (suc n) 0

  open_column-IsSized : (size : ℕ) (type : CType) → IsSized (open_column size type)
  unfolding open_column
  open_column-IsSized size type fixed = rw (fixed, open_column) (length-resized (size_of type))

  -- The columns that BindOutputs opens.
  pub open_columns-AreColumns :
      (size : ℕ) (types : List CType) → AreColumns types (map (open_column size) types)
  unfolding open_column
  open_columns-AreColumns size [] = tt
  open_columns-AreColumns size (type ∷ types) =
      (refl, open_column-IsSized size type, open_columns-AreColumns size types)
