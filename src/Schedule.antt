-- ===== src/Schedule.antt =====
-- src/baseloadSchedule.ts: the windows of activity of a worker. A text is its UTF-16 code units.
mod Tests
pub mod Windows
pub mod RoundTrip
use arkiv_chain_indexer.Common.{
  ℕ, zero, suc, ◌+◌, ◌-◌, ◌*◌, ◌/◌, ◌%◌, Bool, true, false, not, ◌&&◌, ◌||◌, Option, none, some,
  List, [], ◌∷◌, ◌++◌, eqb, ltb, leb, if◌then◌else◌, length,
}
use arkiv_chain_indexer.Common.Try.{Try, thrown, returned, ◌>>=◌}
use arkiv_chain_indexer.RpcKeyRing.{Text, is_blank}
use arkiv_chain_indexer.RpcKeyRing.Pool.{trim_start, trim_end, trim}

pub record BaseloadTimeWindow : Type 0 where
  pub start : ℕ
  pub end : ℕ

abbrev pub minutes_per_day : ℕ
minutes_per_day = 1440

abbrev pub minutes_per_hour : ℕ
minutes_per_hour = 60

abbrev pub max_hourly_window_end : ℕ
max_hourly_window_end = 120

-- The messages, without their label.
pub data ScheduleError : Type 0 where
  must_look_like_start_end times_must_look_like_clock times_out_of_range : ScheduleError
  minutes_must_be_whole minutes_out_of_range longer_than_an_hour : ScheduleError
  start_not_before_end_of_period start_and_end_must_differ must_be_a_string : ScheduleError

-- `value.split("-")`
unfoldable pub split_dash : Text → List Text
split_dash [] = [] ∷ []
split_dash (c ∷ text) =
    let rest = split_dash text in
    if eqb c 45
    then [] ∷ rest
    else elim rest [ [] ↦ (c ∷ []) ∷ [] | field ∷ fields ↦ (c ∷ field) ∷ fields ]

unfoldable pub split_window : Text → Try ScheduleError (Text × Text)
unfolding split_dash trim_start trim_end
split_window value = elim (split_dash (trim value)) [
  | start ∷ end ∷ [] ↦ returned (trim start, trim end)
  | _ ↦ thrown must_look_like_start_end
]

abbrev pub is_digit : ℕ → Bool
is_digit c = leb 48 c && leb c 57

abbrev pub digit : ℕ → ℕ
digit c = c - 48

-- `^(\d{1,2})(?::(\d{1,2}))?$`, with the numbers that the groups stand for; a group of minutes
-- that is absent is 0.
abbrev pub match_minutes : ℕ → Text → Option (ℕ × ℕ)
match_minutes hours [] = some (hours, 0)
match_minutes hours (c ∷ d ∷ []) = if eqb c 58 && is_digit d then some (hours, digit d) else none
match_minutes hours (c ∷ d ∷ e ∷ []) =
    if eqb c 58 && (is_digit d && is_digit e) then some (hours, 10 * digit d + digit e) else none
match_minutes hours _ = none

abbrev pub match_clock : Text → Option (ℕ × ℕ)
match_clock [] = none
match_clock (a ∷ []) = if is_digit a then some (digit a, 0) else none
match_clock (a ∷ b ∷ rest) =
    if is_digit a && is_digit b
    then match_minutes (10 * digit a + digit b) rest
    else if is_digit a
    then match_minutes (digit a) (b ∷ rest)
    else none

unfoldable pub parse_clock : Text → Try ScheduleError ℕ
parse_clock value = elim (match_clock value) [
  | none ↦ thrown times_must_look_like_clock
  | some (hours, minutes) ↦
      if ltb 24 hours || (ltb 59 minutes || (eqb hours 24 && ltb 0 minutes))
      then thrown times_out_of_range
      else returned (hours * 60 + minutes)
]

-- `^\d{1,3}$`
abbrev pub match_number : Text → Option ℕ
match_number (a ∷ []) = if is_digit a then some (digit a) else none
match_number (a ∷ b ∷ []) = if is_digit a && is_digit b then some (10 * digit a + digit b) else none
match_number (a ∷ b ∷ c ∷ []) =
    if is_digit a && (is_digit b && is_digit c)
    then some (100 * digit a + 10 * digit b + digit c)
    else none
match_number _ = none

unfoldable pub parse_minute : Text → ℕ → Try ScheduleError ℕ
parse_minute value max = elim (match_number value) [
  | none ↦ thrown minutes_must_be_whole
  | some minute ↦ if ltb max minute then thrown minutes_out_of_range else returned minute
]

unfoldable pub check_window : ℕ → ℕ → ℕ → Try ScheduleError BaseloadTimeWindow
check_window start end period =
    if leb period start
    then thrown start_not_before_end_of_period
    else if eqb start end
    then thrown start_and_end_must_differ
    else returned (record { start = start; end = end })

unfoldable pub parse_daily_window : Text → Try ScheduleError BaseloadTimeWindow
unfolding split_window parse_clock check_window
parse_daily_window value = do
  (raw_start, raw_end) ← split_window value
  start ← parse_clock raw_start
  end ← parse_clock raw_end
  check_window start end minutes_per_day

unfoldable pub check_hourly : ℕ → ℕ → Try ScheduleError BaseloadTimeWindow
unfolding check_window
check_hourly start end =
    if ltb (start + minutes_per_hour) end
    then thrown longer_than_an_hour
    else check_window start end minutes_per_hour

unfoldable pub parse_hourly_window : Text → Try ScheduleError BaseloadTimeWindow
unfolding split_window parse_minute check_hourly
parse_hourly_window value = do
  (raw_start, raw_end) ← split_window value
  start ← parse_minute raw_start (minutes_per_hour - 1)
  end ← parse_minute raw_end max_hourly_window_end
  check_hourly start end

-- `String(value)`, by a fuel above the number of digits.
unfoldable pub decimal_from : ℕ → ℕ → Text
decimal_from zero value = []
decimal_from (suc fuel) value =
    let rest = decimal_from fuel (value / 10) in
    if ltb value 10 then (48 + value) ∷ [] else rest ++ (48 + value % 10) ∷ []

-- `String(value).padStart(2, "0")`
unfoldable pub pad2 : ℕ → Text
unfolding decimal_from
pad2 value = elim (decimal_from (suc value) value) [ c ∷ [] ↦ 48 ∷ c ∷ [] | text ↦ text ]

unfoldable pub format_clock : ℕ → Text
unfolding pad2
format_clock minutes = pad2 (minutes / 60) ++ 58 ∷ pad2 (minutes % 60)

unfoldable pub format_daily_window : BaseloadTimeWindow → Text
unfolding format_clock
format_daily_window window = format_clock window.start ++ 45 ∷ format_clock window.end

unfoldable pub format_hourly_window : BaseloadTimeWindow → Text
unfolding pad2
format_hourly_window window = pad2 window.start ++ 45 ∷ pad2 window.end

unfoldable pub is_within_window : BaseloadTimeWindow → ℕ → ℕ → Bool
is_within_window window minute period =
    let end = window.end % period in
    if ltb window.start end
    then leb window.start minute && ltb minute end
    else leb window.start minute || ltb minute end

pub record BaseloadScheduleFields : Type 0 where
  pub daily_window : Option Text
  pub hourly_window : Option Text

abbrev pub is_set : Option Text → Bool
is_set none = false
is_set (some text) = not (is_blank text)

abbrev pub has_baseload_schedule : BaseloadScheduleFields → Bool
has_baseload_schedule worker = is_set worker.daily_window || is_set worker.hourly_window

-- A window that is set and does not hold the minute.
abbrev pub excludes :
    (Text → Try ScheduleError BaseloadTimeWindow) → Option Text → ℕ → ℕ → Try ScheduleError Bool
excludes parse none minute period = returned false
excludes parse (some []) minute period = returned false
excludes parse (some (c ∷ text)) minute period = do
  window ← parse (c ∷ text)
  returned (not (is_within_window window minute period))

-- `isBaseloadScheduleActive`, at a time of so many hours and minutes UTC.
unfoldable pub is_baseload_schedule_active : BaseloadScheduleFields → ℕ → ℕ → Try ScheduleError Bool
unfolding parse_daily_window parse_hourly_window is_within_window
is_baseload_schedule_active worker hours minutes = do
  out_of_day ←
      excludes parse_daily_window worker.daily_window (hours * 60 + minutes) minutes_per_day
  if out_of_day then returned false else (do
    out_of_hour ← excludes parse_hourly_window worker.hourly_window minutes minutes_per_hour
    returned (not out_of_hour))
