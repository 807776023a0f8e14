-- ===== src/Time.antt =====
-- trpc/client/mysql/executor/mysql_type.h and mysql_type.cc: the class `MysqlTime`. The unsigned
-- members are numbers below 2 ^ 32. `TimeType` stands for the client library's enumeration. The
-- function time::StringFormat is a parameter.
pub mod Printf
pub mod Extract
pub mod Setters
pub mod RoundTrip
pub mod Decimal
use cpp_database.Prelude.{
  ℕ, ◌≤◌, ◌≡◌, Bool, true, false, List, [], ◌∷◌, ltb, leb, ◌&&◌, if◌then◌else◌,
}
use cpp_database.Prelude.Text.{Bytes, codes}
use Extract.{Stream, extract_uint, extract_char}

pub record MysqlTime (TimeType : Type 0) : Type 0 where
  pub year : ℕ
  pub month : ℕ
  pub day : ℕ
  pub hour : ℕ
  pub minute : ℕ
  pub second : ℕ
  pub second_part : ℕ
  pub neg : Bool
  pub time_type : TimeType

module _ {TimeType : Type 0} where
  -- MysqlTime(); the argument is MYSQL_TIMESTAMP_DATETIME.
  unfoldable pub init : TimeType → MysqlTime TimeType
  init datetime = record {
    year = 2024;
    month = 1;
    day = 1;
    hour = 0;
    minute = 0;
    second = 0;
    second_part = 0;
    neg = false;
    time_type = datetime;
  }

  unfoldable pub set_year : MysqlTime TimeType → ℕ → MysqlTime TimeType
  set_year t year = record t { year = year }

  unfoldable pub set_month : MysqlTime TimeType → ℕ → MysqlTime TimeType
  set_month t month = if ltb 0 month && leb month 12 then record t { month = month } else t

  unfoldable pub set_day : MysqlTime TimeType → ℕ → MysqlTime TimeType
  set_day t day = record t { day = day }

  unfoldable pub set_hour : MysqlTime TimeType → ℕ → MysqlTime TimeType
  set_hour t hour = if leb hour 24 then record t { hour = hour } else t

  unfoldable pub set_minute : MysqlTime TimeType → ℕ → MysqlTime TimeType
  set_minute t minute = if leb minute 60 then record t { minute = minute } else t

  unfoldable pub set_second : MysqlTime TimeType → ℕ → MysqlTime TimeType
  set_second t second = if leb second 60 then record t { second = second } else t

  unfoldable pub set_second_part : MysqlTime TimeType → ℕ → MysqlTime TimeType
  set_second_part t second_part = record t { second_part = second_part }

  unfoldable pub set_time_type : MysqlTime TimeType → TimeType → MysqlTime TimeType
  set_time_type t time_type = record t { time_type = time_type }

  -- The first argument is time::StringFormat.
  unfoldable pub to_string : (Bytes → List ℕ → Bytes) → MysqlTime TimeType → Bytes
  to_string string_format t =
      string_format (codes "%04d-%02d-%02d %02d:%02d:%02d")
        (t.year ∷ t.month ∷ t.day ∷ t.hour ∷ t.minute ∷ t.second ∷ [])

  -- iss >> year >> delimiter >> month >> ... >> second
  unfoldable pub from_string : MysqlTime TimeType → Bytes → MysqlTime TimeType
  from_string t time_str =
      let s : Stream = record { rest = time_str; good = true } in
      let (year, s₁) = extract_uint t.year s in
      let (month, s₂) = extract_uint t.month (extract_char s₁) in
      let (day, s₃) = extract_uint t.day (extract_char s₂) in
      let (hour, s₄) = extract_uint t.hour s₃ in
      let (minute, s₅) = extract_uint t.minute (extract_char s₄) in
      let (second, s₆) = extract_uint t.second (extract_char s₅) in
      record t {
        year = year;
        month = month;
        day = day;
        hour = hour;
        minute = minute;
        second = second;
      }
