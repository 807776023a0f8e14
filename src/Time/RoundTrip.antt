-- ===== src/Time/RoundTrip.antt =====
-- MysqlTime::FromString reads back what MysqlTime::ToString prints.
use cpp_database.Prelude.{
  ℕ, zero, suc, ◌+◌, ◌-◌, ◌/◌, ◌%◌, ◌^◌, ◌<◌, ◌≡◌, refl, sym, ap, ◌∙◌, true, false, List, [], ◌∷◌,
  ◌++◌, arith, length, replicate, Bool-cases, inl, inr, ltb, lt→ltb,
}
use mathlib.Core.List.{append_assoc}
use cpp_database.Prelude.Text.{Bytes, codes}
use cpp_database.Time.Printf.{emit, decimal, pad, pad_int, is_digit, emit_head}
use cpp_database.Time.Extract.{scan, extract_uint, extract_char}
use cpp_database.Time.{MysqlTime, to_string, from_string}

pub scan-emit :
    (f n : ℕ) (out rest : Bytes) → n < f → scan (emit f n out ++ rest) 0 ≡ scan (out ++ rest) n
unfolding emit scan
scan-emit zero n out rest h = absurd (omega arith)
scan-emit (suc f) n out rest h = elim (Bool-cases (ltb n 10)) [
  | inl small ↦ rw small (ground arith)
  | inr big ↦
      rw big (scan-emit f (n / 10) ((b'0' + n % 10) ∷ out) rest (ground arith) ∙ (ground arith))
]

scan-zeros : (k : ℕ) (s : Bytes) → scan (replicate k b'0' ++ s) 0 ≡ scan s 0
unfolding scan
scan-zeros zero s = refl
scan-zeros (suc k) s = scan-zeros k s

-- What follows a number does not begin with a digit.
abbrev IsStop : Bytes → Type 0
IsStop [] = Unit {0}
IsStop (c ∷ s) = is_digit c ≡ false

scan_stop : (s : Bytes) (n : ℕ) → IsStop s → scan s n ≡ (n, s)
unfolding scan
scan_stop [] n h = refl
scan_stop (c ∷ s) n h = rw h

scan-pad : (w n : ℕ) (rest : Bytes) → IsStop rest → scan (pad w n ++ rest) 0 ≡ (n, rest)
unfolding pad decimal
scan-pad w n rest h = rw append_assoc (
    scan-zeros (w - length (decimal n)) (decimal n ++ rest)
    ∙ scan-emit (suc n) n [] rest (omega arith)
    ∙ scan_stop rest n h)

pad_head : (w n : ℕ) → (c : ℕ) × (s : Bytes) × (pad w n ≡ c ∷ s) × (is_digit c ≡ true)
unfolding pad decimal
pad_head w n = go (w - length (decimal n))
  where
    go :
        (k : ℕ)
        → (c : ℕ) × (s : Bytes) × (replicate k b'0' ++ decimal n ≡ c ∷ s) × (is_digit c ≡ true)
    go zero = emit_head n n []
    go (suc k) = (b'0', replicate k b'0' ++ decimal n, refl, refl)

-- At a digit neither spaces nor a sign are taken.
extract_uint_digits :
    (old c : ℕ) (s : Bytes)
    → is_digit c ≡ true
    → (n : ℕ) (rest : Bytes) → scan (c ∷ s) 0 ≡ (n, rest)
    → n < 2 ^ 31
    → extract_uint old (record { rest = c ∷ s; good = true })
      ≡ (n, record { rest = rest; good = true })
unfolding extract_uint
extract_uint_digits old c s d n rest e h = ground arith

read_number :
    (old w n : ℕ) (rest : Bytes)
    → IsStop rest
    → n < 2 ^ 31
    → extract_uint old (record { rest = pad_int w n ++ rest; good = true })
      ≡ (n, record { rest = rest; good = true })
unfolding pad_int
read_number old w n rest stop h =
    let (c, s, e, d) = pad_head w n in
    let read = ap (λ (b : Bytes). scan (b ++ rest) 0) e in
    rw (lt→ltb n (2 ^ 31) h, e)
      (extract_uint_digits old c (s ++ rest) d n rest (sym read ∙ scan-pad w n rest stop) h)

-- A space before a number is skipped.
read_spaced :
    (old w n : ℕ) (rest : Bytes)
    → IsStop rest
    → n < 2 ^ 31
    → extract_uint old (record { rest = b' ' ∷ (pad_int w n ++ rest); good = true })
      ≡ (n, record { rest = rest; good = true })
unfolding extract_uint
read_spaced old w n rest stop h = read_number old w n rest stop h

read_dash :
    (rest : Bytes)
    → extract_char (record { rest = b'-' ∷ rest; good = true })
      ≡ record { rest = rest; good = true }
unfolding extract_char
read_dash rest = refl

read_colon :
    (rest : Bytes)
    → extract_char (record { rest = b':' ∷ rest; good = true })
      ≡ record { rest = rest; good = true }
unfolding extract_char
read_colon rest = refl

-- The members of a time with four and two digits at least, with the separators of the format.
abbrev pub shown : {TimeType : Type 0} → MysqlTime TimeType → Bytes
shown t =
    pad_int 4 t.year
    ++ b'-'
      ∷ (pad_int 2 t.month
          ++ b'-'
            ∷ (pad_int 2 t.day
                ++ b' '
                  ∷ (pad_int 2 t.hour
                      ++ b':' ∷ (pad_int 2 t.minute ++ b':' ∷ (pad_int 2 t.second ++ [])))))

-- The members that the text carries fit in an int.
pub record Fits {TimeType : Type 0} (t : MysqlTime TimeType) : Type 0 where
  pub year_fits : t.year < 2 ^ 31
  pub month_fits : t.month < 2 ^ 31
  pub day_fits : t.day < 2 ^ 31
  pub hour_fits : t.hour < 2 ^ 31
  pub minute_fits : t.minute < 2 ^ 31
  pub second_fits : t.second < 2 ^ 31

from_string-shown :
    {TimeType : Type 0} (t u : MysqlTime TimeType)
    → Fits u
    → from_string t (shown u) ≡ record t {
      year = u.year;
      month = u.month;
      day = u.day;
      hour = u.hour;
      minute = u.minute;
      second = u.second;
    }
unfolding from_string
from_string-shown t u f =
    let minutes = b':' ∷ (pad_int 2 u.second ++ []) in
    let hours = b':' ∷ (pad_int 2 u.minute ++ minutes) in
    let days = b' ' ∷ (pad_int 2 u.hour ++ hours) in
    let months = b'-' ∷ (pad_int 2 u.day ++ days) in
    let years = b'-' ∷ (pad_int 2 u.month ++ months) in
    simp (
      read_number t.year 4 u.year years refl f.year_fits,
      read_number t.month 2 u.month months refl f.month_fits,
      read_number t.day 2 u.day days refl f.day_fits,
      read_spaced t.hour 2 u.hour hours refl f.hour_fits,
      read_number t.minute 2 u.minute minutes refl f.minute_fits,
      read_number t.second 2 u.second [] tt f.second_fits,
      read_dash,
      read_colon,
    )

-- Where time::StringFormat, for the format of ToString and numbers below 2 ^ 31, prints them as %04d
-- and %02d say, reading the text of a time `u` into any object gives it the year, month, day, hour,
-- minute and second of `u`, which are below 2 ^ 31, and changes nothing else.
pub from_string-to_string :
    (string_format : Bytes → List ℕ → Bytes) {TimeType : Type 0}
    → ((v : MysqlTime TimeType)
        → Fits v
        → string_format
            (codes "%04d-%02d-%02d %02d:%02d:%02d")
            (v.year ∷ v.month ∷ v.day ∷ v.hour ∷ v.minute ∷ v.second ∷ [])
          ≡ shown v)
    → (t u : MysqlTime TimeType) → Fits u
    → from_string t (to_string string_format u) ≡ record t {
      year = u.year;
      month = u.month;
      day = u.day;
      hour = u.hour;
      minute = u.minute;
      second = u.second;
    }
unfolding to_string
from_string-to_string string_format documented t u f = rw (documented u f) (from_string-shown t u f)
