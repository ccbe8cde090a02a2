-- ===== src/Aggregator.antt =====
-- src/aggregator.ts: the aggregation of all complete ranges of a size. What the function asks of the
-- storage is the parameter `Storage`; `aggregate` is `aggregateRangeIfComplete`, which tells
-- whether the range was written.
pub mod Windows
use arkiv_chain_indexer.Common.{
  ℕ, zero, suc, ◌+◌, ◌-◌, ◌/◌, ◌*◌, Bool, true, false, not, ◌&&◌, Option, none, some, List, [], ◌∷◌,
  ltb, leb, if◌then◌else◌, length,
}
use arkiv_chain_indexer.Common.Try.{Try, thrown, returned, ◌>>=◌}
use arkiv_chain_indexer.Ranges.{RangeError, assert_supported_range_size, range_start_for}

pub record Storage : Type 0 where
  pub min_stored_block : Option ℕ
  pub max_stored_block : Option ℕ
  pub latest_complete_range_start : ℕ → ℕ → Option ℕ
  pub aggregate : ℕ → ℕ → Bool

pub record AggregateRangesOptions : Type 0 where
  pub range_size : ℕ
  pub from_block : Option ℕ
  pub to_block : Option ℕ
  pub skip_completed : Bool
  pub stop_after_incomplete : Bool

-- A call of `onWindow`: the start of a range, and whether it was written.
pub record Window : Type 0 where
  pub start : ℕ
  pub written : Bool

pub record AggregateRangesResult : Type 0 where
  pub windows : List Window
  pub written : ℕ
  pub incomplete : ℕ
  pub skipped_complete : ℕ
  pub first_range_start : Option ℕ
  pub last_range_start : Option ℕ
  pub processed_first_range_start : Option ℕ
  pub processed_last_range_start : Option ℕ

abbrev pub nothing : Option ℕ → Option ℕ → AggregateRangesResult
nothing first last = record {
  windows = [];
  written = 0;
  incomplete = 0;
  skipped_complete = 0;
  first_range_start = first;
  last_range_start = last;
  processed_first_range_start = none;
  processed_last_range_start = none;
}

-- The loop from `start` on, the calls of `onWindow` in order; it ends within `fuel` rounds, or is
-- none.
unfoldable pub windows_from : Storage → Bool → ℕ → ℕ → ℕ → ℕ → Option (List Window)
windows_from storage stop size last zero start = none
windows_from storage stop size last (suc fuel) start =
    let written = storage.aggregate start size in
    let window : Window = record { start = start; written = written } in
    let more = windows_from storage stop size last fuel (start + size) in
    if ltb last start
    then some []
    else if not written && stop
    then some (window ∷ [])
    else elim more [ none ↦ none | some windows ↦ some (window ∷ windows) ]

unfoldable pub count_written : List Window → ℕ
count_written [] = 0
count_written (w ∷ ws) = if w.written then suc (count_written ws) else count_written ws

unfoldable pub count_incomplete : List Window → ℕ
count_incomplete [] = 0
count_incomplete (w ∷ ws) = if w.written then count_incomplete ws else suc (count_incomplete ws)

unfoldable pub last_start : List Window → Option ℕ
last_start [] = none
last_start (w ∷ ws) = elim (last_start ws) [ none ↦ some w.start | some n ↦ some n ]

-- What `skipCompleted` skips: how many ranges, and where the loop then begins.
unfoldable pub skip : Storage → AggregateRangesOptions → ℕ → ℕ → ℕ × ℕ
skip storage options first last =
    if not options.skip_completed
    then (0, first)
    else elim (storage.latest_complete_range_start options.range_size first) [
      | none ↦ (0, first)
      | some latest ↦ if ltb latest first then (0, first) else (
        ((if ltb latest last then latest else last) - first) / options.range_size + 1,
        latest + options.range_size,
      )
    ]

abbrev pub tail_result : ℕ → ℕ → ℕ → ℕ → List Window → AggregateRangesResult
tail_result first last skipped begin windows = record {
  windows = windows;
  written = count_written windows;
  incomplete = count_incomplete windows;
  skipped_complete = skipped;
  first_range_start = some first;
  last_range_start = some last;
  processed_first_range_start = elim (last_start windows) [ none ↦ none | some _ ↦ some begin ];
  processed_last_range_start = last_start windows;
}

-- Every round but the last moves by the size of a range, at least 1.
abbrev pub rounds : ℕ → ℕ → ℕ
rounds begin last = last - begin + 2

-- The ranges from `first` to `last`; none is a loop that does not end.
unfoldable pub aggregate_between :
    Storage → AggregateRangesOptions → ℕ → ℕ → Option AggregateRangesResult
unfolding windows_from count_written count_incomplete last_start skip
aggregate_between storage options first last =
    if ltb last first
    then some (nothing (some first) (some last))
    else (let (skipped, begin) = skip storage options first last in
        elim (windows_from storage options.stop_after_incomplete options.range_size last
          (rounds begin last) begin) [
            | none ↦ none
            | some windows ↦ some (tail_result first last skipped begin windows)
          ])

-- `fromBlock` where it is above the first stored block, and `toBlock` where it is below the last.
abbrev pub lower_bound : Option ℕ → ℕ → ℕ
lower_bound none min = min
lower_bound (some from) min = if ltb min from then from else min

abbrev pub upper_bound : Option ℕ → ℕ → ℕ
upper_bound none max = max
upper_bound (some to) max = if ltb to max then to else max

unfoldable pub aggregate_stored :
    Storage → AggregateRangesOptions → ℕ → ℕ → Try RangeError (Option AggregateRangesResult)
unfolding aggregate_between range_start_for
aggregate_stored storage options min max =
    let lowest = lower_bound options.from_block min in
    let highest = upper_bound options.to_block max in
    if ltb highest lowest then returned (some (nothing none none)) else (do
      first ← range_start_for lowest options.range_size
      last ← range_start_for highest options.range_size
      returned (
          aggregate_between storage options
            (if ltb first min then first + options.range_size else first) last))

unfoldable pub aggregate_ranges :
    Storage → AggregateRangesOptions → Try RangeError (Option AggregateRangesResult)
unfolding assert_supported_range_size aggregate_stored
aggregate_ranges storage options = do
  _ ← assert_supported_range_size options.range_size
  elim storage.min_stored_block [
    | none ↦ returned (some (nothing none none))
    | some min ↦ elim storage.max_stored_block [
      | none ↦ returned (some (nothing none none))
      | some max ↦ aggregate_stored storage options min max
    ]
  ]
