-- ===== src/Blob.antt =====
-- trpc/client/mysql/executor/mysql_type.h and mysql_type.cc: the class `MysqlBlob`. Objects are named
-- by their place in a list, since assignment tests whether both are the same object. A std::string is
-- its bytes; what is left in one that was moved from is a parameter.
pub mod Assignment
use cpp_database.Prelude.{
  ℕ, Bool, true, false, Option, none, some, List, [], ◌∷◌, length, take, get_elem?, set, ◌==◌, ◌&&◌,
  leb, if◌then◌else◌,
}
use cpp_database.Prelude.Text.{Bytes, same}
use cpp_database.Driver.{Outcome, returns, faults, out_of_bounds}

pub record MysqlBlob : Type 0 where
  pub bytes : Bytes

-- What the standard leaves open.
pub record StringApi : Type 0 where
  pub moved_from : Bytes → Bytes

-- MysqlBlob() and MysqlBlob(const std::string&).
abbrev pub empty : MysqlBlob
empty = record { bytes = [] }

unfoldable pub of_string : Bytes → MysqlBlob
of_string text = record { bytes = text }

-- MysqlBlob(const char*, std::size_t), of the bytes that are readable at the pointer.
unfoldable pub of_data : Bytes → ℕ → Outcome MysqlBlob
of_data readable size =
    if leb size (length readable)
    then returns (record { bytes = take size readable })
    else faults out_of_bounds

module _ ⦃strings : StringApi⦄ where
  -- MysqlBlob(std::string&&): the new object, and the string that was moved from.
  unfoldable pub of_moved_string : Bytes → MysqlBlob × Bytes
  of_moved_string text = (record { bytes = text }, strings.moved_from text)

  -- MysqlBlob(MysqlBlob&&): the new object, and the other.
  unfoldable pub move_construct : MysqlBlob → MysqlBlob × MysqlBlob
  move_construct other =
      (record { bytes = other.bytes }, record { bytes = strings.moved_from other.bytes })

-- operator=(const MysqlBlob&) on the objects at two places; there is nothing at a place beyond the
-- end.
unfoldable pub copy_assign : List MysqlBlob → ℕ → ℕ → List MysqlBlob
copy_assign objects this other = elim (get_elem? objects other) [
  | none ↦ objects
  | some b ↦ if this == other then objects else set objects this (record { bytes = b.bytes })
]

module _ ⦃strings : StringApi⦄ where
  -- operator=(MysqlBlob&&).
  unfoldable pub move_assign : List MysqlBlob → ℕ → ℕ → List MysqlBlob
  move_assign objects this other = elim (get_elem? objects other) [
    | none ↦ objects
    | some b ↦
        if this == other
        then objects
        else set (set objects this (record { bytes = b.bytes })) other
            (record { bytes = strings.moved_from b.bytes })
  ]

-- operator==.
unfoldable pub equals : MysqlBlob → MysqlBlob → Bool
equals a b = same a.bytes b.bytes

-- DataConstPtr and AsStringView, as the bytes that are seen, and Size.
unfoldable pub as_string_view : MysqlBlob → Bytes
as_string_view b = b.bytes

unfoldable pub size : MysqlBlob → ℕ
size b = length b.bytes
