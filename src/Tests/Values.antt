-- ===== src/Tests/Values.antt =====
-- Times, formatted queries, fields and results.
use cpp_database.Prelude.{ℕ, ◌≡◌, refl, false, Option, none, some, List, [], ◌∷◌, ◌++◌, map, arith}
use cpp_database.Prelude.Text.{Bytes, codes}
use cpp_database.Time
use cpp_database.Time.{MysqlTime, from_string, to_string}
use cpp_database.Time.Printf.{printf, pad_int, pad, decimal, emit}
use cpp_database.Time.RoundTrip.{Fits, shown, from_string-to_string}
use cpp_database.Formatter.{Argument, format_query, special_convert}
use cpp_database.Formatter.Placeholders.{fill, substitute, format_query-substitute}
use cpp_database.Binder
use cpp_database.Binder.{FieldType, MysqlField}
use cpp_database.Binder.Fields
use cpp_database.Binder.Fields.{input_type-valid}
use cpp_database.Results
use cpp_database.Results.{MysqlResults, is_value_null}
use cpp_database.Results.Ownership
use cpp_database.Results.Ownership.{
  Use, Ledger, fresh_ledger, run_uses, run_uses-fresh-IsBalanced, held, move_assign-forgets,
}

abbrev noon : MysqlTime ℕ
noon = record {
  year = 2024;
  month = 2;
  day = 29;
  hour = 12;
  minute = 5;
  second = 9;
  second_part = 0;
  neg = false;
  time_type = 1;
}

noon_text : to_string printf noon ≡ codes "2024-02-29 12:05:09"
unfolding to_string printf pad_int pad decimal emit
noon_text = refl

shown-printf :
    (t : MysqlTime ℕ)
    → Fits t
    → printf
        (codes "%04d-%02d-%02d %02d:%02d:%02d")
        (t.year ∷ t.month ∷ t.day ∷ t.hour ∷ t.minute ∷ t.second ∷ [])
      ≡ shown t
unfolding printf
shown-printf t fits = refl

from_string-to_string_example :
    from_string (Time.init {TimeType = ℕ} 1) (to_string printf noon)
    ≡ record (Time.init {TimeType = ℕ} 1) {
      year = 2024;
      month = 2;
      day = 29;
      hour = 12;
      minute = 5;
      second = 9;
    }
from_string-to_string_example =
    from_string-to_string printf shown-printf (Time.init {TimeType = ℕ} 1) noon (omega arith)

or_empty : Option Bytes → Bytes
or_empty none = []
or_empty (some t) = t

filled : Bytes → List Bytes → Bytes
unfolding or_empty
filled format args = or_empty (fill format args)

filled_documented :
    (format : Bytes) (args : List Bytes) (t : Bytes)
    → fill format args ≡ some t
    → filled format args ≡ t
unfolding filled
filled_documented format args t e = rw e

format_query-substitute_example :
    format_query {TimeType = ℕ} printf filled
      (codes "select ? from t")
      (Argument.text (codes "a") ∷ [])
    ≡ substitute none
        (codes "select ? from t")
        (map (special_convert {TimeType = ℕ} printf) (Argument.text (codes "a") ∷ []))
format_query-substitute_example =
    format_query-substitute filled filled_documented {TimeType = ℕ} printf (codes "select ? from t")
      (Argument.text (codes "a") ∷ []) (ground arith) refl

count_text : ℕ → ℕ → Bytes
count_text a b = codes "count"

abbrev fields : List MysqlField
fields =
    record { type = FieldType.long; name = codes "id" }
    ∷ record { type = FieldType.string; name = codes "name" }
    ∷ []

abbrev flagged : MysqlResults ℕ
flagged = record (Results.with_option 64) { null_flags = (0 ∷ 1 ∷ []) ∷ (1 ∷ 0 ∷ []) ∷ [] }

abbrev uses : List Use
uses =
    Ownership.install 7
    ∷ Ownership.moves
    ∷ Ownership.clears
    ∷ Ownership.assigns 64 (some 8)
    ∷ Ownership.assigns_itself
    ∷ []

abbrev ledger : Ledger ℕ
ledger = record {
  results = record (Results.with_option 64) { mysql_res = some 8 };
  installed = 7 ∷ 8 ∷ [];
  freed = 7 ∷ [];
}

run_uses-fresh-IsBalanced_example : ledger.installed ≡ ledger.freed ++ held ledger.results.mysql_res
unfolding Results.with_option Results.clear Results.move_construct Results.set_raw_mysql_res
    Results.destroy Results.move_assign run_uses Ownership.use_step Ownership.overwrites
run_uses-fresh-IsBalanced_example = run_uses-fresh-IsBalanced 64 uses ledger refl refl

abbrev holding : MysqlResults ℕ
holding = record (Results.with_option 64) { mysql_res = some 7 }
