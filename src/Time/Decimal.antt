-- ===== src/Time/Decimal.antt =====
-- The decimal text of a number, as printf's %d writes it.
use cpp_database.Prelude.{
  ℕ, zero, suc, ◌+◌, ◌*◌, ◌/◌, ◌%◌, ◌≤◌, ◌<◌, ◌≡◌, sym, ap, ◌∙◌, true, [], ◌∷◌, arith, length, All,
  Bool-cases, inl, inr, ltb,
}
use mathlib.Core.List.{append-nil}
use cpp_database.Prelude.Text.{Bytes}
use cpp_database.Time.Printf.{emit, decimal, is_digit}
use cpp_database.Time.Extract.{scan}
use cpp_database.Time.RoundTrip.{scan-emit}

abbrev pub AreDigits : Bytes → Type 0
AreDigits = All (λ c. is_digit c ≡ true)

emit-AreDigits : (f n : ℕ) (out : Bytes) → AreDigits out → AreDigits (emit f n out)
unfolding emit
emit-AreDigits zero n out h = h
emit-AreDigits (suc f) n out h = elim (Bool-cases (ltb n 10)) [
  | inl small ↦ rw small (ground arith, h)
  | inr big ↦ rw big (emit-AreDigits f (n / 10) ((b'0' + n % 10) ∷ out) (ground arith, h))
]

pub decimal-AreDigits : (n : ℕ) → AreDigits (decimal n)
unfolding decimal
decimal-AreDigits n = emit-AreDigits (suc n) n [] tt

-- The numbers with at most k + 1 digits are below this.
abbrev pub limit : ℕ → ℕ
limit zero = 10
limit (suc k) = 10 * limit k

length-emit : (k f n : ℕ) (out : Bytes) → n < limit k → length (emit f n out) ≤ suc k + length out
unfolding emit
length-emit k zero n out h = omega arith
length-emit zero (suc f) n out h = ground arith
length-emit (suc k) (suc f) n out h = elim (Bool-cases (ltb n 10)) [
  | inl small ↦ rw small (omega arith)
  | inr big ↦ rw big (omega (arith, length-emit k f (n / 10) ((b'0' + n % 10) ∷ out) (omega arith)))
]

pub length-decimal : (k n : ℕ) → n < limit k → length (decimal n) ≤ suc k
unfolding decimal
length-decimal k n h = omega (arith, length-emit k (suc n) n [] h)

value_of : ℕ × Bytes → ℕ
value_of (n, rest) = n

scan-decimal : (n : ℕ) → scan (decimal n) 0 ≡ (n, [])
unfolding decimal scan
scan-decimal n =
    ap (λ s. scan s 0) (sym (append-nil (decimal n))) ∙ scan-emit (suc n) n [] [] (omega arith)

pub decimal-injective : (m n : ℕ) → decimal m ≡ decimal n → m ≡ n
decimal-injective m n e =
    ap (λ (r : ℕ × Bytes). r.0) (sym (scan-decimal m) ∙ ap (λ s. scan s 0) e ∙ scan-decimal n)
