-- ===== src/Time/Printf.antt =====
-- The part of C's printf that MysqlTime::ToString asks for: directives %0Nd, at arguments that are
-- read as 32-bit ints, and plain bytes.
use cpp_database.Prelude.{
  ℕ, zero, suc, ◌+◌, ◌-◌, ◌/◌, ◌%◌, ◌^◌, ◌≡◌, List, [], ◌∷◌, ◌++◌, arith, length, replicate, ltb,
  ◌==◌, ◌&&◌, if◌then◌else◌, Bool, true, leb, Bool-cases, inl, inr,
}
use cpp_database.Prelude.Text.{Bytes}

-- The digits of `n` in front of `out`; the first argument is fuel.
unfoldable pub emit : ℕ → ℕ → Bytes → Bytes
emit zero n out = out
emit (suc f) n out =
    let here = (b'0' + n % 10) ∷ out in
    let more = emit f (n / 10) here in if ltb n 10 then here else more

-- A number has at most as many digits as its value and one more, which is the fuel.
unfoldable pub decimal : ℕ → Bytes
decimal n = emit (suc n) n []

unfoldable pub pad : ℕ → ℕ → Bytes
pad width n = replicate (width - length (decimal n)) b'0' ++ decimal n

-- %0Nd at a value of type unsigned int, which printf reads as an int.
unfoldable pub pad_int : ℕ → ℕ → Bytes
pad_int width n = if ltb n (2 ^ 31) then pad width n else b'-' ∷ pad (width - 1) (2 ^ 32 - n)

unfoldable pub printf : Bytes → List ℕ → Bytes
printf (c ∷ z ∷ w ∷ d ∷ rest) (a ∷ args) =
    let plain = printf (z ∷ w ∷ d ∷ rest) (a ∷ args) in
    let directive = printf rest args in
    if c == b'%' && z == b'0' && d == b'd' then pad_int (w - b'0') a ++ directive else c ∷ plain
printf format args = format

abbrev pub is_digit : ℕ → Bool
is_digit c = leb b'0' c && leb c b'9'

pub emit_head :
    (f n : ℕ) (out : Bytes)
    → (c : ℕ) × (s : Bytes) × (emit (suc f) n out ≡ c ∷ s) × (is_digit c ≡ true)
unfolding emit
emit_head zero n out = (b'0' + n % 10, out, ground arith, ground arith)
emit_head (suc f) n out = elim (Bool-cases (ltb n 10)) [
  | inl small ↦ (b'0' + n % 10, out, rw small, ground arith)
  | inr big ↦ rw big (emit_head f (n / 10) ((b'0' + n % 10) ∷ out))
]
