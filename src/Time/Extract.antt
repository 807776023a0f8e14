-- ===== src/Time/Extract.antt =====
-- The extractors of std::istringstream that MysqlTime::FromString uses, for a 32-bit unsigned int
-- and for a char, in the C locale. A stream that has failed leaves the variable as it was.
use cpp_database.Prelude.{
  ℕ, ◌+◌, ◌-◌, ◌*◌, ◌%◌, ◌^◌, [], ◌∷◌, leb, ◌==◌, ◌&&◌, ◌||◌, if◌then◌else◌, Bool, true, false,
}
use cpp_database.Prelude.Text.{Bytes}
use cpp_database.Time.Printf.{is_digit}

pub record Stream : Type 0 where
  pub rest : Bytes
  pub good : Bool

is_space : ℕ → Bool
is_space c = c == b' ' || (leb 9 c && leb c 13)

unfoldable pub skip_spaces : Bytes → Bytes
unfolding is_space
skip_spaces [] = []
skip_spaces (c ∷ s) = if is_space c then skip_spaces s else c ∷ s

-- The value of the digits at the front, behind `n`, and what follows them.
unfoldable pub scan : Bytes → ℕ → ℕ × Bytes
scan [] n = (n, [])
scan (c ∷ s) n = if is_digit c then scan s (n * 10 + (c - b'0')) else (n, c ∷ s)

-- Too large a value is replaced by the largest and fails; a minus sign negates modulo 2 ^ 32.
finish : Bool → ℕ × Bytes → ℕ × Stream
finish minus (n, rest) =
    if leb (2 ^ 32) n
    then (2 ^ 32 - 1, record { rest = rest; good = false })
    else ((if minus then (2 ^ 32 - n) % 2 ^ 32 else n), record { rest = rest; good = true })

-- No digit at all stores zero and fails.
magnitude : Bool → Bytes → ℕ × Stream
unfolding finish
magnitude minus [] = (0, record { rest = []; good = false })
magnitude minus (c ∷ s) =
    if is_digit c then finish minus (scan (c ∷ s) 0) else (0, record { rest = c ∷ s; good = false })

unfoldable pub signed : ℕ → Bytes → ℕ × Stream
unfolding magnitude
signed old [] = (old, record { rest = []; good = false })
signed old (c ∷ s) =
    if c == b'-'
    then magnitude true s
    else if c == b'+'
    then magnitude false s
    else magnitude false (c ∷ s)

-- iss >> n, where `n` is `old` before.
unfoldable pub extract_uint : ℕ → Stream → ℕ × Stream
unfolding skip_spaces signed
extract_uint old s = if s.good then signed old (skip_spaces s.rest) else (old, s)

take_char : Bytes → Stream
take_char [] = record { rest = []; good = false }
take_char (c ∷ s) = record { rest = s; good = true }

-- iss >> delimiter; the character is not used.
unfoldable pub extract_char : Stream → Stream
unfolding take_char skip_spaces
extract_char s = if s.good then take_char (skip_spaces s.rest) else s
