-- ===== src/Schedule/Tests.antt =====
-- A window from 22:00 to 02:30.
use arkiv_chain_indexer.Common.{◌≡◌, ◌+◌, ◌-◌, ◌%◌, refl, ltb, arith}
use arkiv_chain_indexer.Common.Try.{returned}
use arkiv_chain_indexer.Schedule.{
  BaseloadTimeWindow, parse_daily_window, format_daily_window, is_within_window, minutes_per_day,
}
use arkiv_chain_indexer.Schedule.Windows.{duration, is_within_window-duration}
use arkiv_chain_indexer.Schedule.RoundTrip.{parse_daily_window-format}

abbrev night : BaseloadTimeWindow
night = record { start = 1320; end = 150 }

is_within_window-duration_example :
    is_within_window night 60 minutes_per_day
    ≡ ltb ((60 + minutes_per_day - 1320) % minutes_per_day) (duration minutes_per_day night)
is_within_window-duration_example =
    is_within_window-duration night 60 minutes_per_day
      (record { starts = omega arith; no_longer = omega arith; differ = refl }) (omega arith)

parse_daily_window-format_example : parse_daily_window (format_daily_window night) ≡ returned night
parse_daily_window-format_example = parse_daily_window-format night (omega arith) (omega arith) refl
