-- ===== src/Results/Nulls.antt =====
-- MysqlResults::IsValueNull reads within bounds when every row has as many flags as the first.
use cpp_database.Prelude.{
  ℕ, ◌≡◌, refl, Bool, false, not, none, some, List, [], ◌∷◌, arith, length, get_elem?, All,
  All-get_elem?, get_elem?-some, get_elem?-none, ◌==◌, Option-cases, inl, inr,
}
use cpp_database.Results.{MysqlResults, null_test, is_value_null}

-- Every row of flags has the same width.
abbrev pub IsRectangular : List (List ℕ) → Type 0
IsRectangular rows = (n : ℕ) × All (λ (row : List ℕ). length row ≡ n) rows

-- The flag of a value that is there, and `false` outside.
abbrev pub flag_at : List (List ℕ) → ℕ → ℕ → Bool
flag_at rows i j = elim (get_elem? rows i) [
  | none ↦ false
  | some row ↦ elim (get_elem? row j) [ none ↦ false | some flag ↦ not (flag == 0) ]
]

row_width :
    (rows : List (List ℕ)) (n i : ℕ) (row : List ℕ)
    → All (λ (row : List ℕ). length row ≡ n) rows
    → get_elem? rows i ≡ some row
    → length row ≡ n
row_width rows n i row h e = All-get_elem? (λ (r : List ℕ). length r ≡ n) rows i row h e

null_test-eq-flag_at :
    (rows : List (List ℕ)) (i j : ℕ)
    → IsRectangular rows
    → null_test rows i j ≡ some (flag_at rows i j)
unfolding null_test
null_test-eq-flag_at [] i j h = refl
null_test-eq-flag_at (first ∷ rows) i j (n, h) = elim (Option-cases (get_elem? (first ∷ rows) i)) [
  | inl out ↦ ground (arith, get_elem?-some (first ∷ rows) i)
  | inr (row, e) ↦ ground (
    arith,
    row_width (first ∷ rows) n i row h e,
    h.0,
    get_elem?-none row j,
    get_elem?-some row j,
    get_elem?-none (first ∷ rows) i,
  )
]

-- On flags of equal width the answer is the flag of the value, `false` outside, and no read is out
-- of bounds.
pub is_value_null-eq-flag_at :
    {Row : Type 0} (r : MysqlResults Row) (i j : ℕ)
    → IsRectangular r.null_flags
    → is_value_null r i j ≡ some (flag_at r.null_flags i j)
unfolding is_value_null
is_value_null-eq-flag_at r i j h = null_test-eq-flag_at r.null_flags i j h
