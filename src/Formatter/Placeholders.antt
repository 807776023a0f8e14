-- ===== src/Formatter/Placeholders.antt =====
-- A converted query takes its arguments at the placeholders.
use cpp_database.Prelude.{
  ℕ, suc, ◌≡◌, refl, ◌≢◌, Bool, true, false, Option, none, some, List, [], ◌∷◌, ◌++◌, map, arith,
  length, length-map, ◌==◌, ◌&&◌, ◌||◌, if◌then◌else◌, All, Bool-cases, inl, inr, ◌∙◌, sym,
}
use cpp_database.Prelude.Text.{Bytes}
use cpp_database.Formatter.{unescaped, convert_from, Argument, special_convert, format_query}

prepend : Bytes → Option Bytes → Option Bytes
prepend b none = none
prepend b (some t) = some (b ++ t)

take_arg : List Bytes → (List Bytes → Option Bytes) → Option Bytes
unfolding prepend
take_arg [] next = none
take_arg (a ∷ args) next = prepend a (next args)

close_text : Bytes → List Bytes → Option Bytes
close_text t [] = some t
close_text t (a ∷ args) = none

-- The format of util::FormatString, where the only braces are pairs {}, one for each argument; it
-- is `none` on any other format.
pub fill : Bytes → List Bytes → Option Bytes
unfolding prepend take_arg close_text
fill [] args = close_text [] args
fill (c ∷ []) args = if c == b'{' || c == b'}' then none else close_text (c ∷ []) args
fill (c ∷ d ∷ s) args =
    let skip = fill s in
    let next = fill (d ∷ s) args in
    if c == b'{'
    then (if d == b'}' then take_arg args skip else none)
    else if c == b'}'
    then none
    else prepend (c ∷ []) next

-- A placeholder that is not escaped.
abbrev pub is_placeholder : Option ℕ → ℕ → Bool
is_placeholder prev c = c == b'?' && unescaped prev

-- The query with each placeholder replaced by the next argument; the first argument of the function
-- is the character before.
pub substitute : Option ℕ → Bytes → List Bytes → Bytes
substitute prev [] args = []
substitute prev (c ∷ sql) [] = c ∷ substitute (some c) sql []
substitute prev (c ∷ sql) (a ∷ args) =
    let rest = substitute (some c) sql args in
    let same = substitute (some c) sql (a ∷ args) in
    if is_placeholder prev c then a ++ rest else c ∷ same

abbrev pub placeholders : Option ℕ → Bytes → ℕ
placeholders prev [] = 0
placeholders prev (c ∷ sql) =
    let rest = placeholders (some c) sql in if is_placeholder prev c then suc rest else rest

abbrev pub HasNoBraces : Bytes → Type 0
HasNoBraces = All (λ (c : ℕ). (c ≢ b'{') × (c ≢ b'}'))

fill_plain :
    (c : ℕ) (s : Bytes) (args : List Bytes)
    → c ≢ b'{'
    → c ≢ b'}'
    → fill (c ∷ s) args ≡ prepend (c ∷ []) (fill s args)
unfolding fill
fill_plain c [] [] p q = ground arith
fill_plain c [] (a ∷ args) p q = ground arith
fill_plain c (d ∷ s) args p q = ground arith

fill_hole :
    (s a : Bytes) (args : List Bytes) → fill (b'{' ∷ b'}' ∷ s) (a ∷ args) ≡ prepend a (fill s args)
unfolding fill
fill_hole s a args = refl

convert_from_plain :
    (prev : Option ℕ) (c : ℕ) (sql : Bytes)
    → is_placeholder prev c ≡ false
    → convert_from prev (c ∷ sql) ≡ c ∷ convert_from (some c) sql
unfolding convert_from
convert_from_plain prev c sql plain = rw plain

convert_from_here :
    (prev : Option ℕ) (c : ℕ) (sql : Bytes)
    → is_placeholder prev c ≡ true
    → convert_from prev (c ∷ sql) ≡ b'{' ∷ b'}' ∷ convert_from (some c) sql
unfolding convert_from
convert_from_here prev c sql here = rw here

fill-convert_from :
    (prev : Option ℕ) (sql : Bytes) (args : List Bytes)
    → HasNoBraces sql
    → placeholders prev sql ≡ length args
    → fill (convert_from prev sql) args ≡ some (substitute prev sql args)
unfolding substitute prepend
fill-convert_from prev [] [] b h = unfold fill convert_from in refl
fill-convert_from prev [] (a ∷ args) b h = absurd (omega arith)
fill-convert_from prev (c ∷ sql) [] b h = elim (Bool-cases (is_placeholder prev c)) [
  | inl here ↦ absurd (ground arith)
  | inr plain ↦ ground (
    arith,
    convert_from_plain prev c sql plain,
    fill_plain c (convert_from (some c) sql) [] b.0.0 b.0.1,
    fill-convert_from (some c) sql [] b.1,
  )
]
fill-convert_from prev (c ∷ sql) (a ∷ args) b h = elim (Bool-cases (is_placeholder prev c)) [
  | inl here ↦ ground (
    arith,
    convert_from_here prev c sql here,
    fill_hole (convert_from (some c) sql) a args,
    fill-convert_from (some c) sql args b.1,
  )
  | inr plain ↦ ground (
    arith,
    convert_from_plain prev c sql plain,
    fill_plain c (convert_from (some c) sql) (a ∷ args) b.0.0 b.0.1,
    fill-convert_from (some c) sql (a ∷ args) b.1,
  )
]

-- Where util::FormatString replaces pairs of braces by its arguments, a query with no braces and as
-- many unescaped placeholders as arguments is formatted to the query with each placeholder replaced
-- by the text of its argument, in order.
pub format_query-substitute :
    (format_string : Bytes → List Bytes → Bytes)
    → ((format : Bytes) (args : List Bytes) (t : Bytes)
        → fill format args ≡ some t
        → format_string format args ≡ t)
    → {TimeType : Type 0} (string_format : Bytes → List ℕ → Bytes) (sql : Bytes)
      (args : List (Argument TimeType))
    → HasNoBraces sql
    → placeholders none sql ≡ length args
    → format_query string_format format_string sql args
      ≡ substitute none sql (map (special_convert string_format) args)
unfolding format_query
format_query-substitute format_string documented string_format sql args b h = documented _ _ _ (
    fill-convert_from none sql (map (special_convert string_format) args) b
      (h ∙ sym (length-map args (special_convert string_format))))
