-- ===== src/Results.antt =====
-- trpc/client/mysql/executor/mysql_results.h: the class `MysqlResults`, its operations and its
-- raw result pointer. A moved-from vector or string is empty, as in the usual libraries; the
-- pointers are numbers, and an operation returns the pointer that it hands to mysql_free_result.
pub mod Nulls
pub mod Ownership
use cpp_database.Prelude.{
  ℕ, zero, suc, ◌≡◌, Bool, true, false, not, ◌||◌, Option, none, some, List, [], ◌∷◌, ◌++◌, length,
  get_elem?, leb, ◌==◌, if◌then◌else◌, is_some,
}
use cpp_database.Prelude.Text.{Bytes}

abbrev pub dynamic_buffer_init_size : ℕ
dynamic_buffer_init_size = 64

pub data MysqlResultsMode : Type 0 where
  bind_type only_exec native_string : MysqlResultsMode

-- `Row` stands for the tuple of the template arguments, or for the vector of string views.
pub record MysqlResults (Row : Type 0) : Type 0 where
  pub option : ℕ
  pub result_set : List Row
  pub fields_name : List Bytes
  pub null_flags : List (List ℕ)
  pub error_number : ℕ
  pub error_message : Bytes
  pub affected_rows : ℕ
  pub has_value : Bool
  pub mysql_res : Option ℕ

module _ {Row : Type 0} where
  -- MysqlResults(const MysqlResultsOption&), by way of the default constructor.
  unfoldable pub with_option : ℕ → MysqlResults Row
  with_option size = record {
    option = size;
    result_set = [];
    fields_name = [];
    null_flags = [];
    error_number = 0;
    error_message = [];
    affected_rows = 0;
    has_value = false;
    mysql_res = none;
  }

  unfoldable pub init : MysqlResults Row
  unfolding with_option
  init = with_option dynamic_buffer_init_size

  -- `none` is the failed TRPC_ASSERT.
  unfoldable pub set_raw_mysql_res : MysqlResults Row → ℕ → Option (MysqlResults Row)
  set_raw_mysql_res r res =
      if is_some r.mysql_res then none else some (record r { mysql_res = some res })

  -- The argument holds the names that mysql_fetch_fields reports, or is `none` for a null result.
  unfoldable pub set_fields_name : MysqlResults Row → Option (List Bytes) → MysqlResults Row
  set_fields_name r none = r
  set_fields_name r (some names) = record r { fields_name = r.fields_name ++ names }

  unfoldable pub set_error_message : MysqlResults Row → Bytes → MysqlResults Row
  set_error_message r message = record r { error_message = message }

  unfoldable pub set_error_number : MysqlResults Row → ℕ → MysqlResults Row
  set_error_number r error_number = record r { error_number = error_number }

  unfoldable pub set_affected_rows : MysqlResults Row → ℕ → MysqlResults Row
  set_affected_rows r n_rows = record r { affected_rows = n_rows }

  abbrev pub ok : MysqlResults Row → Bool
  ok r = r.error_number == 0

  -- The new state, and the pointer that is freed.
  unfoldable pub clear : MysqlResults Row → MysqlResults Row × Option ℕ
  clear r = (
    record r {
      null_flags = [];
      error_message = [];
      fields_name = [];
      has_value = false;
      affected_rows = 0;
      result_set = [];
      mysql_res = none;
    },
    r.mysql_res,
  )

  -- The destructor: what it frees.
  unfoldable pub destroy : MysqlResults Row → Option ℕ
  destroy r = r.mysql_res

  -- What a moved-from object keeps: the members that are copied.
  moved_from : MysqlResults Row → MysqlResults Row
  moved_from other = record other {
    result_set = [];
    fields_name = [];
    null_flags = [];
    error_message = [];
    mysql_res = none;
  }

  -- The move constructor: the new object, and what is left of the other.
  unfoldable pub move_construct : MysqlResults Row → MysqlResults Row × MysqlResults Row
  unfolding moved_from
  move_construct other = (record other { error_number = 0 }, moved_from other)

  -- Move assignment between two objects; `same` is the test `this == &other`.
  unfoldable pub move_assign :
      Bool → MysqlResults Row → MysqlResults Row → MysqlResults Row × MysqlResults Row
  unfolding moved_from
  move_assign same this other =
      if same
      then (this, other)
      else (record other { error_number = this.error_number }, moved_from other)

  -- The rows that are handed out, if any, and the new state. For native_string the strings are
  -- copied.
  unfoldable pub get_result_set :
      MysqlResultsMode → MysqlResults Row → Option (List Row) × MysqlResults Row
  get_result_set native_string r = if r.has_value then (some r.result_set, r) else (none, r)
  get_result_set _ r =
      if r.has_value
      then (some r.result_set, record r { result_set = []; has_value = false })
      else (none, r)

-- The two tests of IsValueNull: the number of rows, and the width of the first row. `none` is a
-- read past the end of a row.
first_width : List (List ℕ) → ℕ
first_width [] = 0
first_width (row ∷ rows) = length row

read_flag : List ℕ → ℕ → Option Bool
read_flag row col = elim (get_elem? row col) [ none ↦ none | some flag ↦ some (not (flag == 0)) ]

read_row : List (List ℕ) → ℕ → ℕ → Option Bool
unfolding read_flag
read_row rows row_index col = elim (get_elem? rows row_index) [
  | none ↦ none
  | some row ↦ read_flag row col
]

null_test : List (List ℕ) → ℕ → ℕ → Option Bool
unfolding first_width read_row
null_test [] row_index col_index = some false
null_test (row ∷ rows) row_index col_index =
    if leb (length (row ∷ rows)) row_index || leb (first_width (row ∷ rows)) col_index
    then some false
    else read_row (row ∷ rows) row_index col_index

unfoldable pub is_value_null : {Row : Type 0} → MysqlResults Row → ℕ → ℕ → Option Bool
unfolding null_test
is_value_null r row_index col_index = null_test r.null_flags row_index col_index
