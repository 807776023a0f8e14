-- ===== src/Executor/Rows/Filled.antt =====
-- The columns of a handle after a fetch.
use cpp_database.Prelude.{
  ◌≡◌, refl, false, Option, none, some, List, [], ◌∷◌, map, length, All, le→leb, Bool-cases, inl,
  inr,
}
use cpp_database.Prelude.Text.{Bytes}
use cpp_database.Driver.{Outcome, returns, faults, Yields}
use cpp_database.Executor.Native.{flag_of}
use cpp_database.Executor.Rows.{
  Column, is_dynamic, deliver_all, both, step_tuple_set, set_result_tuple, flag,
}
use cpp_database.Executor.Rows.Columns.{IsReady, FitsIn, Reads, limit}
use cpp_database.Executor.Rows.Truncated.{after, deliver-after, after-FitsIn}
use cpp_database.Executor.Rows.Laws.{
  Row, delivered, is_cut, is_cut_cell, shape, RowSuits, RowFits, RowHolds, RowReads, types,
}

abbrev pub afters : List Column → Row → List Column
afters (c ∷ cs) (cell ∷ row) = after c cell ∷ afters cs row
afters cs row = cs

pub deliver_all-afters :
    (cs : List Column) (row : Row)
    → All IsReady cs
    → RowSuits (shape cs) row
    → deliver_all cs (delivered (map limit cs) row) ≡ returns (afters cs row)
unfolding deliver_all
deliver_all-afters [] [] ready suits = refl
deliver_all-afters [] (cell ∷ row) ready suits = absurd suits
deliver_all-afters (c ∷ cs) [] ready suits = absurd suits
deliver_all-afters (c ∷ cs) (cell ∷ row) ready suits =
    rw (deliver-after c cell ready.0 suits.0, deliver_all-afters cs row ready.1 suits.1) refl

-- After a row that fits: ready again, the same shape, and every column holds its value.
pub afters-RowFits :
    (cs : List Column) (row : Row)
    → All IsReady cs
    → RowFits (shape cs) row
    → All IsReady (afters cs row)
      × (shape (afters cs row) ≡ shape cs)
      × RowHolds (afters cs row) row
afters-RowFits [] [] ready fits = (tt, refl, tt)
afters-RowFits [] (cell ∷ row) ready fits = absurd fits
afters-RowFits (c ∷ cs) [] ready fits = absurd fits
afters-RowFits (c ∷ cs) (cell ∷ row) ready fits =
    let (again, holds, same_type, same_size) = after-FitsIn c cell ready.0 fits.0 in
    let (all_again, same, all_hold) = afters-RowFits cs row ready.1 fits.1 in
    ((again, all_again), rw (same_type, same_size, same) refl, (holds, all_hold))

pub RowFits-RowSuits :
    (cs : List Column) (row : Row) → RowFits (shape cs) row → RowSuits (shape cs) row
RowFits-RowSuits [] [] fits = tt
RowFits-RowSuits [] (cell ∷ row) fits = absurd fits
RowFits-RowSuits (c ∷ cs) [] fits = absurd fits
RowFits-RowSuits (c ∷ cs) (none ∷ row) fits = (tt, RowFits-RowSuits cs row fits.1)
RowFits-RowSuits (c ∷ cs) (some v ∷ row) fits = (fits.0.0, RowFits-RowSuits cs row fits.1)

is_cut_cell-FitsIn :
    (c : Column) (cell : Option Bytes)
    → IsReady c
    → FitsIn c.type (length c.buffer.bytes) cell
    → is_cut_cell (limit c) cell ≡ false
is_cut_cell-FitsIn c none ready fits = elim (Bool-cases (is_dynamic c.type)) [
  | inl dynamic ↦ rw dynamic refl
  | inr fixed ↦ rw fixed refl
]
is_cut_cell-FitsIn c (some v) ready fits = elim (Bool-cases (is_dynamic c.type)) [
  | inl dynamic ↦
      rw (dynamic, ready.whole dynamic, le→leb (length v) (length c.buffer.bytes) (fits.1 dynamic))
        refl
  | inr fixed ↦ rw fixed refl
]

pub is_cut-RowFits :
    (cs : List Column) (row : Row)
    → All IsReady cs
    → RowFits (shape cs) row
    → is_cut (map limit cs) row ≡ false
is_cut-RowFits [] [] ready fits = refl
is_cut-RowFits [] (cell ∷ row) ready fits = absurd fits
is_cut-RowFits (c ∷ cs) [] ready fits = absurd fits
is_cut-RowFits (c ∷ cs) (cell ∷ row) ready fits =
    rw (is_cut_cell-FitsIn c cell ready.0 fits.0, is_cut-RowFits cs row ready.1 fits.1) refl

Yields-both :
    {A B C : Type 0} (P : A → Type 0) (Q : B → Type 0) (R : C → Type 0) (f : A → B → C)
    (o : Outcome A) (o' : Outcome B)
    → Yields o P
    → Yields o' Q
    → ((a : A) (b : B) → P a → Q b → R (f a b))
    → Yields (both f o o') R
Yields-both P Q R f (returns a) (returns b) p q h = h a b p q
Yields-both P Q R f (returns a) (faults e) p q h = q
Yields-both P Q R f (faults e) o' p q h = p

-- What is read from columns that hold a row.
pub set_result_tuple-RowReads :
    (cs : List Column) (row : Row)
    → RowHolds cs row
    → Yields (set_result_tuple cs) (RowReads (types cs) row)
unfolding set_result_tuple
set_result_tuple-RowReads [] [] holds = tt
set_result_tuple-RowReads [] (cell ∷ row) holds = absurd holds
set_result_tuple-RowReads (c ∷ cs) [] holds = absurd holds
set_result_tuple-RowReads (c ∷ cs) (cell ∷ row) holds =
    Yields-both (Reads c.type cell) (RowReads (types cs) row)
      (RowReads (types (c ∷ cs)) (cell ∷ row)) (λ v vs. v ∷ vs) (step_tuple_set c)
      (set_result_tuple cs) holds.0.1 (set_result_tuple-RowReads cs row holds.1) λ v vs p q. (p, q)

pub flags_lem : (cs : List Column) (row : Row) → RowHolds cs row → map flag cs ≡ map flag_of row
flags_lem [] [] holds = refl
flags_lem [] (cell ∷ row) holds = absurd holds
flags_lem (c ∷ cs) [] holds = absurd holds
flags_lem (c ∷ cs) (none ∷ row) holds = rw (holds.0.0, flags_lem cs row holds.1) refl
flags_lem (c ∷ cs) (some v ∷ row) holds = rw (holds.0.0, flags_lem cs row holds.1) refl
