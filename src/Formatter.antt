-- ===== src/Formatter.antt =====
-- The class `Formatter` of trpc/client/mysql/executor/mysql_executor.h: placeholders and arguments
-- of a query that does not use prepared statements. util::FormatString is a parameter.
pub mod Placeholders
use cpp_database.Prelude.{
  ℕ, Bool, true, false, not, Option, none, some, List, [], ◌∷◌, ◌++◌, map, ◌==◌, ◌&&◌, ◌||◌,
  if◌then◌else◌,
}
use cpp_database.Prelude.Text.{Bytes, codes}
use cpp_database.Time
use cpp_database.Time.{MysqlTime}

-- sql[i - 1] != '\\', which is the byte 0x5c, or i == 0.
abbrev pub unescaped : Option ℕ → Bool
unescaped none = true
unescaped (some c) = not (c == 0x5c)

-- The loop of ConvertPlaceHolder, with the character before the first one that is left.
unfoldable pub convert_from : Option ℕ → Bytes → Bytes
convert_from prev [] = []
convert_from prev (c ∷ sql) =
    let rest = convert_from (some c) sql in
    if c == b'?' && unescaped prev then b'{' ∷ b'}' ∷ rest else c ∷ rest

unfoldable pub convert_placeholder : Bytes → Bytes
unfolding convert_from
convert_placeholder sql = convert_from none sql

-- The kinds of argument that SpecialConvert tells apart; `none` is a null pointer, and `other` is
-- an argument that is passed on, with its text.
pub data Argument (TimeType : Type 0) : Type 0 where
  text : Bytes → Argument TimeType
  c_string : Option Bytes → Argument TimeType
  time : MysqlTime TimeType → Argument TimeType
  other : Bytes → Argument TimeType

-- The byte 0x27 is a single quote; the argument itself is not escaped.
abbrev pub quoted : Bytes → Bytes
quoted arg = 0x27 ∷ (arg ++ 0x27 ∷ [])

module _ {TimeType : Type 0} (string_format : Bytes → List ℕ → Bytes) where
  unfoldable pub special_convert : Argument TimeType → Bytes
  special_convert (text arg) = quoted arg
  special_convert (c_string none) = codes "NULL"
  special_convert (c_string (some arg)) = quoted arg
  special_convert (time arg) = quoted (Time.to_string string_format arg)
  special_convert (other arg) = arg

  -- FormatQuery; the second argument is util::FormatString.
  unfoldable pub format_query :
      (Bytes → List Bytes → Bytes) → Bytes → List (Argument TimeType) → Bytes
  unfolding special_convert convert_placeholder
  format_query format_string query args =
      format_string (convert_placeholder query) (map special_convert args)
