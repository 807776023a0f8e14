-- ===== src/Executor/Rows/Loop.antt =====
-- FetchResults reads the rows of the result.
use cpp_database.Prelude.{
  ℕ, ◌≡◌, refl, sym, ap, subst, ◌∙◌, Bool, true, false, Option, none, some, List, [], ◌∷◌, map,
  length, All, arith, ◌||◌, Bool-cases, inl, inr,
}
use cpp_database.Prelude.Text.{Bytes}
use cpp_database.Driver.{MysqlApi, Machine, Outcome, returns, faults, pure, Yields, ◌>>=◌}
use cpp_database.Driver.Rules.{Yields-bind, Yields-weaken}
use cpp_database.Binder.{CType}
use cpp_database.Executor.Rows.{
  RowsApi, Column, set_result_tuple, fetch_truncated, complete, limits, lift, read_row,
}
use cpp_database.Executor.Rows.Columns.{IsReady, Suits, FitsIn, limit}
use cpp_database.Executor.Rows.Laws.{
  Row, RowsLaws, delivered, is_cut, is_cut_cell, shape, RowSuits, RowFits, RowHolds, RowReads,
  types,
}
use cpp_database.Executor.Rows.Filled.{
  afters, deliver_all-afters, afters-RowFits, RowFits-RowSuits, is_cut-RowFits,
  set_result_tuple-RowReads,
}
use cpp_database.Executor.Rows.Completed.{SameRows, fetch_truncated-RowHolds}

pub types-eq_of_shape : (cs cs' : List Column) → shape cs' ≡ shape cs → types cs' ≡ types cs
types-eq_of_shape cs cs' e = sym (firsts cs') ∙ ap (map (λ (p : CType × ℕ). p.0)) e ∙ firsts cs
  where
    firsts : (ds : List Column) → map (λ (p : CType × ℕ). p.0) (shape ds) ≡ types ds
    firsts [] = refl
    firsts (d ∷ ds) = ap (λ ts. d.type ∷ ts) (firsts ds)

module _ ⦃api : MysqlApi⦄ ⦃rows : RowsApi api.World⦄ where
  Yields-lift :
      {A : Type 0} (P : A → Type 0) (o : Outcome A) (m : Machine api.World)
      → Yields o P
      → Yields (lift o m) λ (a, m'). P a × (m' ≡ m)
  Yields-lift P (returns a) m p = (p, refl)
  Yields-lift P (faults f) m p = p

  -- What is read from columns that hold a row, at the end of the body of the loop.
  read_held :
      (cs : List Column) (row : Row) (m : Machine api.World)
      → RowHolds cs row
      → Yields
          ((lift (set_result_tuple cs) >>= λ reads. pure (cs, reads)) m)
          λ ((cs', reads), m'). (cs' ≡ cs) × RowReads (types cs) row reads × (m' ≡ m)
  read_held cs row m holds =
      Yields-bind (λ x. RowReads (types cs) row x.0 × (x.1 ≡ m)) _ (lift (set_result_tuple cs)) _ m
        (Yields-lift (RowReads (types cs) row) (set_result_tuple cs) m
          (set_result_tuple-RowReads cs row holds))
        λ reads m' (agree, same). (refl, agree, same)

  -- A row that fits, read by the body of the loop of FetchResults.
  pub read_row-RowFits :
      (stmt : ℕ) (cs : List Column) (row : Row) (m : Machine api.World)
      → All IsReady cs
      → RowFits (shape cs) row
      → Yields
          (read_row stmt cs (is_cut (limits cs) row) (delivered (limits cs) row) m)
          λ ((cs', reads), m').
            All IsReady cs'
            × (shape cs' ≡ shape cs)
            × RowHolds cs' row
            × RowReads (types cs) row reads
            × (m' ≡ m)
  unfolding read_row
  read_row-RowFits stmt cs row m ready fits =
      let (again, same, holds) = afters-RowFits cs row ready fits in
      rw
        (
          is_cut-RowFits cs row ready fits,
          deliver_all-afters cs row ready (RowFits-RowSuits cs row fits),
        )
        (Yields-weaken _ _
          ((lift (set_result_tuple (afters cs row)) >>= λ reads. pure (afters cs row, reads)) m)
          (read_held (afters cs row) row m holds)
          λ ((cs', reads), m') (e, agree, still). (
            subst (All IsReady) (sym e) again,
            ap shape e ∙ same,
            subst (λ x. RowHolds x row) (sym e) holds,
            subst (λ ts. RowReads ts row reads) (types-eq_of_shape cs (afters cs row) same) agree,
            still,
          ))

or_false : (a b : Bool) → (a || b) ≡ false → (a ≡ false) × (b ≡ false)
or_false true b e = ground arith
or_false false b e = (refl, e)

-- What was not cut fits.
not_cut-FitsIn :
    (c : Column) (cell : Option Bytes)
    → IsReady c
    → Suits c.type (length c.buffer.bytes) cell
    → is_cut_cell (limit c) cell ≡ false
    → FitsIn c.type (length c.buffer.bytes) cell
not_cut-FitsIn c none ready suits whole = tt
not_cut-FitsIn c (some v) ready suits whole =
    (suits, λ dynamic. ground (arith, ready.whole dynamic))

not_cut-RowFits :
    (cs : List Column) (row : Row)
    → All IsReady cs
    → RowSuits (shape cs) row
    → is_cut (limits cs) row ≡ false
    → RowFits (shape cs) row
not_cut-RowFits [] [] ready suits whole = tt
not_cut-RowFits [] (cell ∷ row) ready suits whole = absurd suits
not_cut-RowFits (c ∷ cs) [] ready suits whole = absurd suits
not_cut-RowFits (c ∷ cs) (cell ∷ row) ready suits whole =
    let (first, rest) = or_false (is_cut_cell (limit c) cell) (is_cut (limits cs) row) whole in
    (not_cut-FitsIn c cell ready.0 suits.0 first, not_cut-RowFits cs row ready.1 suits.1 rest)

module _ ⦃api : MysqlApi⦄ ⦃rows : RowsApi api.World⦄ (laws : RowsLaws rows) where
  -- What the body of the loop does with a row of which a value was cut.
  completed_row :
      (stmt : ℕ) (cs : List Column) (row : Row) (m : Machine api.World)
      → All IsReady cs
      → RowSuits (shape cs) row
      → laws.current stmt m.world ≡ row
      → Yields
          ((complete stmt true (afters cs row) >>= λ cs₂.
              lift (set_result_tuple cs₂) >>= λ reads. pure (cs₂, reads))
            m)
          λ ((cs', reads), m').
            RowHolds cs' row × RowReads (types cs) row reads × SameRows laws stmt m m'
  unfolding complete
  completed_row stmt cs row m ready suits now =
      Yields-bind (λ x. RowHolds x.0 row × (types x.0 ≡ types cs) × SameRows laws stmt m x.1) _
        (fetch_truncated stmt 0 (afters cs row) >>= λ r. pure r.1) _ m
        (Yields-bind (λ x. RowHolds x.0.1 row × (types x.0.1 ≡ types cs) × SameRows laws stmt m x.1)
          _ (fetch_truncated stmt 0 (afters cs row)) _ m
          (fetch_truncated-RowHolds laws stmt [] row cs m ready suits now) λ r m' h. h)
        λ cs' m' (holds, same_types, same).
          Yields-weaken _ _ ((lift (set_result_tuple cs') >>= λ reads. pure (cs', reads)) m')
            (read_held cs' row m' holds)
            λ ((cs'', reads), m'') (e, agree, still). (
              subst (λ x. RowHolds x row) (sym e) holds,
              subst (λ ts. RowReads ts row reads) same_types agree,
              subst (λ x. SameRows laws stmt m x) (sym still) same,
            )

  -- A row with values of any length, of which the longer ones are completed.
  pub read_row-RowSuits :
      (stmt : ℕ) (cs : List Column) (row : Row) (m : Machine api.World)
      → All IsReady cs
      → RowSuits (shape cs) row
      → laws.current stmt m.world ≡ row
      → Yields
          (read_row stmt cs (is_cut (limits cs) row) (delivered (limits cs) row) m)
          λ ((cs', reads), m').
            RowHolds cs' row × RowReads (types cs) row reads × SameRows laws stmt m m'
  unfolding read_row
  read_row-RowSuits stmt cs row m ready suits now = elim (Bool-cases (is_cut (limits cs) row)) [
    | inl cut ↦
        rw (cut, deliver_all-afters cs row ready suits)
          (completed_row stmt cs row m ready suits now)
    | inr whole ↦
        Yields-weaken _ _ (read_row stmt cs (is_cut (limits cs) row) (delivered (limits cs) row) m)
          (read_row-RowFits stmt cs row m ready (not_cut-RowFits cs row ready suits whole))
          λ ((cs', reads), m') (again, same, holds, agree, still).
            (holds, agree, subst (λ x. SameRows laws stmt m x) (sym still) (refl, refl, refl, refl))
  ]
