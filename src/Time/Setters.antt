-- ===== src/Time/Setters.antt =====
-- The setters of MysqlTime keep its members in range.
use cpp_database.Prelude.{ℕ, ◌≤◌, List, [], ◌∷◌, arith}
use cpp_database.Time.{
  MysqlTime, init, set_year, set_month, set_day, set_hour, set_minute, set_second, set_second_part,
  set_time_type,
}

-- The bounds that the setters test: an hour of 24 and a minute or a second of 60 are let through.
pub record IsValid {TimeType : Type 0} (t : MysqlTime TimeType) : Type 0 where
  pub month_from : 1 ≤ t.month
  pub month_to : t.month ≤ 12
  pub hour_to : t.hour ≤ 24
  pub minute_to : t.minute ≤ 60
  pub second_to : t.second ≤ 60

pub data Setting (TimeType : Type 0) : Type 0 where
  year month day hour minute second second_part : ℕ → Setting TimeType
  time_type : TimeType → Setting TimeType

module _ {TimeType : Type 0} where
  unfoldable pub assign : MysqlTime TimeType → Setting TimeType → MysqlTime TimeType
  unfolding set_year set_month set_day set_hour set_minute set_second set_second_part set_time_type
  assign t (year n) = set_year t n
  assign t (month n) = set_month t n
  assign t (day n) = set_day t n
  assign t (hour n) = set_hour t n
  assign t (minute n) = set_minute t n
  assign t (second n) = set_second t n
  assign t (second_part n) = set_second_part t n
  assign t (time_type ty) = set_time_type t ty

  unfoldable pub assign_all : MysqlTime TimeType → List (Setting TimeType) → MysqlTime TimeType
  unfolding assign
  assign_all t [] = t
  assign_all t (s ∷ ss) = assign_all (assign t s) ss

  assign-IsValid :
      (t : MysqlTime TimeType) (s : Setting TimeType) → IsValid t → IsValid (assign t s)
  unfolding assign
  assign-IsValid t (month n) v = ground arith
  assign-IsValid t (hour n) v = ground arith
  assign-IsValid t (minute n) v = ground arith
  assign-IsValid t (second n) v = ground arith
  assign-IsValid t _ v = ground arith

  assign_all-IsValid_from :
      (ss : List (Setting TimeType)) (t : MysqlTime TimeType)
      → IsValid t
      → IsValid (assign_all t ss)
  unfolding assign_all
  assign_all-IsValid_from [] t v = v
  assign_all-IsValid_from (s ∷ ss) t v =
      assign_all-IsValid_from ss (assign t s) (assign-IsValid t s v)

  -- From a new object, any calls of the setters leave the month within 1 to 12, the hour at most
  -- 24, and the minute and the second at most 60.
  assign_all-init-IsValid :
      (datetime : TimeType) (ss : List (Setting TimeType)) → IsValid (assign_all (init datetime) ss)
  unfolding init
  assign_all-init-IsValid datetime ss = assign_all-IsValid_from ss (init datetime) (omega arith)
