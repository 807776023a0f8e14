-- ===== src/Binder.antt =====
-- trpc/client/mysql/executor/mysql_binder.h and mysql_binder.cc: which types of the program go with
-- which types of the server, and the check of a query's fields against the output arguments. The
-- specialised types of the program are a data type; the server's types that no table names are
-- `other`.
pub mod Fields
use mathlib.Core.Logic.{ite}
use native.Mathlib.Decide.{ℕ_discrete}
use cpp_database.Prelude.{
  ℕ, zero, suc, ◌+◌, Bool, true, false, Option, none, some, List, [], ◌∷◌, ◌++◌, length, get_elem?,
  ◌==◌, ◌||◌, if◌then◌else◌,
}
use cpp_database.Prelude.Text.{Bytes, codes}

pub data CType : Type 0 where
  int8 uint8 int16 uint16 int32 uint32 int64 uint64 float double mysql_time string mysql_blob :
      CType

pub data FieldType : Type 0 where
  null tiny short year long int24 longlong float double time date datetime timestamp : FieldType
  string var_string tiny_blob blob medium_blob long_blob bit newdecimal : FieldType
  other : ℕ → FieldType

unfoldable pub FieldType-discrete : Discrete FieldType
FieldType-discrete = hlevel ℕ_discrete

-- MysqlInputType<T>::value and is_unsigned.
unfoldable pub input_type : CType → FieldType × Bool
input_type CType.int8 = (FieldType.tiny, false)
input_type CType.uint8 = (FieldType.tiny, true)
input_type CType.int16 = (FieldType.short, false)
input_type CType.uint16 = (FieldType.short, true)
input_type CType.int32 = (FieldType.long, false)
input_type CType.uint32 = (FieldType.long, true)
input_type CType.int64 = (FieldType.longlong, false)
input_type CType.uint64 = (FieldType.longlong, true)
input_type CType.float = (FieldType.float, false)
input_type CType.double = (FieldType.double, false)
input_type CType.string = (FieldType.string, true)
input_type CType.mysql_time = (FieldType.datetime, true)
input_type CType.mysql_blob = (FieldType.blob, true)

-- MysqlOutputType<T>::types.
unfoldable pub output_types : CType → List FieldType
output_types CType.int8 = FieldType.tiny ∷ []
output_types CType.uint8 = FieldType.tiny ∷ []
output_types CType.int16 = FieldType.short ∷ FieldType.year ∷ []
output_types CType.uint16 = FieldType.short ∷ FieldType.year ∷ []
output_types CType.int32 = FieldType.long ∷ FieldType.int24 ∷ []
output_types CType.uint32 = FieldType.long ∷ FieldType.int24 ∷ []
output_types CType.int64 = FieldType.longlong ∷ []
output_types CType.uint64 = FieldType.longlong ∷ []
output_types CType.float = FieldType.float ∷ []
output_types CType.double = FieldType.double ∷ []
output_types CType.mysql_time =
    FieldType.year ∷ FieldType.time ∷ FieldType.date ∷ FieldType.datetime ∷ FieldType.timestamp ∷ []
output_types CType.string =
    FieldType.year ∷ FieldType.time ∷ FieldType.date ∷ FieldType.datetime ∷ FieldType.timestamp
    ∷ FieldType.string ∷ FieldType.var_string ∷ FieldType.tiny_blob ∷ FieldType.blob
    ∷ FieldType.medium_blob ∷ FieldType.long_blob ∷ FieldType.bit ∷ FieldType.newdecimal ∷ []
output_types CType.mysql_blob =
    FieldType.tiny_blob ∷ FieldType.blob ∷ FieldType.medium_blob ∷ FieldType.long_blob
    ∷ FieldType.bit ∷ []

pub holds : FieldType → List FieldType → Bool
unfolding FieldType-discrete
holds f [] = false
holds f (g ∷ fs) = ite (FieldType-discrete f g) true (holds f fs)

unfoldable pub output_type_valid : CType → FieldType → Bool
unfolding output_types holds
output_type_valid ty f = holds f (output_types ty)

-- MYSQL_BIND after StepInputBind; `size` is the length of a string or of a blob.
pub record InputBind : Type 0 where
  pub buffer_type : FieldType
  pub buffer_length : ℕ
  pub is_unsigned : Bool

unfoldable pub step_input_bind : CType → ℕ → InputBind
unfolding input_type
step_input_bind CType.mysql_blob size = record {
  buffer_type = FieldType.blob;
  buffer_length = size;
  is_unsigned = false;
}
step_input_bind CType.mysql_time size = record {
  buffer_type = FieldType.datetime;
  buffer_length = 0;
  is_unsigned = true;
}
step_input_bind CType.string size = record {
  buffer_type = FieldType.string;
  buffer_length = size;
  is_unsigned = false;
}
step_input_bind ty size = record {
  buffer_type = (input_type ty).0;
  buffer_length = 0;
  is_unsigned = (input_type ty).1;
}

-- The type and the name of a field of the result.
pub record MysqlField : Type 0 where
  pub type : FieldType
  pub name : Bytes

-- The positions, from `i` on, whose field does not fit its argument.
unfoldable pub failed_index : ℕ → List MysqlField → List CType → List ℕ
failed_index i (f ∷ fs) (ty ∷ tys) =
    let rest = failed_index (i + 1) fs tys in if output_type_valid ty f.type then rest else i ∷ rest
failed_index i fs tys = []

-- fields_meta[i].name, for an index within the array.
unfoldable pub name_at : List MysqlField → ℕ → Bytes
name_at fields i = elim (get_elem? fields i) [ none ↦ [] | some f ↦ f.name ]

-- The first name, and then each with ", " in front.
unfoldable pub append_names : List MysqlField → List ℕ → Bytes
append_names fields [] = []
append_names fields (i ∷ is) = codes ", " ++ (name_at fields i ++ append_names fields is)

unfoldable pub failed_text : List MysqlField → List ℕ → Bytes
failed_text fields [] = []
failed_text fields (i ∷ is) =
    codes "Bind output type warning for fields: ("
    ++ (name_at fields i ++ (append_names fields is ++ codes ")."))

-- The first argument makes the text about the two counts, by util::FormatString.
unfoldable pub check_fields_output_args : (ℕ → ℕ → Bytes) → List MysqlField → List CType → Bytes
unfolding failed_text failed_index
check_fields_output_args count_text fields args =
    if length fields == length args
    then failed_text fields (failed_index 0 fields args)
    else count_text (length fields) (length args)
