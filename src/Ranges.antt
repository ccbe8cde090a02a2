-- ===== src/Ranges.antt =====
-- src/ranges.ts: the metrics of a range of blocks. The decimal texts of a stored block are their
-- numbers, an optional one is none where it is missing, and a date is its milliseconds, which
-- ISO texts compare like. A block time is not negative: timestamps do not decrease.
-- `batcherIntensity`, a floating-point average, is left out.
pub mod Covers
pub mod Averages
mod Tests
use arkiv_chain_indexer.Common.{
  ℕ, zero, suc, ◌+◌, ◌-◌, ◌*◌, ◌/◌, ◌%◌, Bool, true, false, not, ◌||◌, Option, none, some, List, [],
  ◌∷◌, ◌++◌, ltb, leb, eqb, if◌then◌else◌, length,
}
use arkiv_chain_indexer.Common.Try.{Try, thrown, returned, ◌>>=◌}
use arkiv_chain_indexer.Metrics.{sum, per}

pub data RangeError : Type 0 where
  unsupported_range_size misaligned_start : ℕ → RangeError
  wrong_count : ℕ → ℕ → RangeError
  missing_blocks : List ℕ → RangeError

abbrev pub supported_range_sizes : List ℕ
supported_range_sizes = 2 ∷ 5 ∷ 10 ∷ 20 ∷ 50 ∷ 100 ∷ 150 ∷ 200 ∷ 300 ∷ 500 ∷ 1000 ∷ []

unfoldable pub includes : ℕ → List ℕ → Bool
includes n [] = false
includes n (m ∷ ms) = eqb m n || includes n ms

unfoldable pub is_supported_range_size : ℕ → Bool
unfolding includes
is_supported_range_size range_size = includes range_size supported_range_sizes

unfoldable pub assert_supported_range_size : ℕ → Try RangeError (Unit {0})
unfolding is_supported_range_size
assert_supported_range_size range_size =
    if is_supported_range_size range_size
    then returned tt
    else thrown (RangeError.unsupported_range_size range_size)

-- A block number is not negative here.
unfoldable pub range_start_for : ℕ → ℕ → Try RangeError ℕ
unfolding assert_supported_range_size
range_start_for block_number range_size = do
  _ ← assert_supported_range_size range_size
  returned (block_number - block_number % range_size)

unfoldable pub range_end_for : ℕ → ℕ → Try RangeError ℕ
unfolding assert_supported_range_size
range_end_for range_start range_size = do
  _ ← assert_supported_range_size range_size
  returned (range_start + range_size - 1)

pub record StoredBlock : Type 0 where
  pub block_number : ℕ
  pub block_date : ℕ
  pub block_time_seconds : Option ℕ
  pub base_block_fee_wei : ℕ
  pub total_gas_used : ℕ
  pub total_input_data_size_bytes : Option ℕ
  pub total_input_data_compressed_size_bytes : Option ℕ
  pub max_gas_in_block : ℕ
  pub transaction_count : ℕ
  pub block_reward_wei : Option ℕ
  pub burnt_fees_wei : Option ℕ
  pub total_rent_fee_wei : ℕ
  pub fee_price_sum_wei : Option ℕ
  pub priority_fee_sum_wei : Option ℕ
  pub priority_fee_gas_weighted_numerator_wei : Option ℕ
  pub average_fee_price_wei : ℕ
  pub average_transaction_input_data_size_bytes : Option ℕ
  pub average_transaction_input_data_compressed_size_bytes : Option ℕ
  pub average_priority_fee_weighted_wei : ℕ
  pub average_priority_fee_wei : ℕ
  pub batcher_queue_size : Option ℕ
  pub batcher_lower_threshold : Option ℕ
  pub batcher_upper_threshold : Option ℕ
  pub batcher_max_block_size : Option ℕ
  pub batcher_max_tx_size : Option ℕ

abbrev pub or_else : Option ℕ → ℕ → ℕ
or_else none d = d
or_else (some n) d = n

abbrev pub time_of : StoredBlock → ℕ
time_of block = or_else block.block_time_seconds 2

abbrev pub input_of : StoredBlock → ℕ
input_of block = or_else block.total_input_data_size_bytes 0

abbrev pub compressed_of : StoredBlock → ℕ
compressed_of block = or_else block.total_input_data_compressed_size_bytes 0

unfoldable pub block_reward_for : StoredBlock → ℕ
block_reward_for block =
    let stored = or_else block.block_reward_wei 0 in
    if ltb 0 stored || eqb block.transaction_count 0
    then stored
    else or_else block.priority_fee_gas_weighted_numerator_wei 0

abbrev pub burnt_fees_for : StoredBlock → ℕ
burnt_fees_for block = or_else block.burnt_fees_wei 0

unfoldable pub priority_fee_gas_weight_for : StoredBlock → ℕ
priority_fee_gas_weight_for block =
    let stored = or_else block.priority_fee_gas_weighted_numerator_wei 0 in
    if ltb 0 stored || eqb block.transaction_count 0
    then stored
    else block.average_priority_fee_weighted_wei * block.total_gas_used

unfoldable pub exact_or_average_sum : Option ℕ → ℕ → ℕ → ℕ
exact_or_average_sum exact_sum average_value count =
    let stored = or_else exact_sum 0 in
    if ltb 0 stored || eqb count 0 then stored else average_value * count

-- `if (value < min) min = value`, and the same for a maximum.
abbrev pub lower : ℕ → ℕ → ℕ
lower least value = if ltb value least then value else least

abbrev pub raise : ℕ → ℕ → ℕ
raise most value = if ltb most value then value else most

abbrev pub push_optional : List ℕ → Option ℕ → List ℕ
push_optional values none = values
push_optional values (some n) = values ++ n ∷ []

-- The least value, the greatest and the sum of a quantity over the blocks so far.
pub record Spread : Type 0 where
  pub least : ℕ
  pub most : ℕ
  pub all : ℕ

abbrev pub spread : ℕ → Spread
spread first = record { least = first; most = first; all = 0 }

abbrev pub widen : ℕ → Spread → Spread
widen value s = record {
  least = lower s.least value;
  most = raise s.most value;
  all = s.all + value;
}

-- The variables of the loop of `computeBlockRange`.
pub record RangeSums : Type 0 where
  pub dates : Spread
  pub block_time : Spread
  pub base_fee : Spread
  pub gas_used : Spread
  pub input_data : Spread
  pub compressed_data : Spread
  pub max_gas : Spread
  pub transaction_count : ℕ
  pub total_block_reward : ℕ
  pub total_burnt_fees : ℕ
  pub total_rent_fees : ℕ
  pub gas_weighted_priority_fee_numerator : ℕ
  pub fee_price_numerator : ℕ
  pub transaction_gas_numerator : ℕ
  pub transaction_input_data_numerator : ℕ
  pub transaction_input_data_compressed_numerator : ℕ
  pub tx_weighted_priority_fee_numerator : ℕ
  pub batcher_queue_sizes : List ℕ
  pub batcher_lower_thresholds : List ℕ
  pub batcher_upper_thresholds : List ℕ
  pub batcher_max_block_sizes : List ℕ
  pub batcher_max_tx_sizes : List ℕ

abbrev pub first_sums : StoredBlock → RangeSums
first_sums block = record {
  dates = spread block.block_date;
  block_time = spread (time_of block);
  base_fee = spread block.base_block_fee_wei;
  gas_used = spread block.total_gas_used;
  input_data = spread (input_of block);
  compressed_data = spread (compressed_of block);
  max_gas = spread block.max_gas_in_block;
  transaction_count = 0;
  total_block_reward = 0;
  total_burnt_fees = 0;
  total_rent_fees = 0;
  gas_weighted_priority_fee_numerator = 0;
  fee_price_numerator = 0;
  transaction_gas_numerator = 0;
  transaction_input_data_numerator = 0;
  transaction_input_data_compressed_numerator = 0;
  tx_weighted_priority_fee_numerator = 0;
  batcher_queue_sizes = [];
  batcher_lower_thresholds = [];
  batcher_upper_thresholds = [];
  batcher_max_block_sizes = [];
  batcher_max_tx_sizes = [];
}

-- One round of the loop.
unfoldable pub add_block : StoredBlock → RangeSums → RangeSums
unfolding block_reward_for priority_fee_gas_weight_for exact_or_average_sum
add_block block s = record {
  dates = widen block.block_date s.dates;
  block_time = widen (time_of block) s.block_time;
  base_fee = widen block.base_block_fee_wei s.base_fee;
  gas_used = widen block.total_gas_used s.gas_used;
  input_data = widen (input_of block) s.input_data;
  compressed_data = widen (compressed_of block) s.compressed_data;
  max_gas = widen block.max_gas_in_block s.max_gas;
  transaction_count = s.transaction_count + block.transaction_count;
  total_block_reward = s.total_block_reward + block_reward_for block;
  total_burnt_fees = s.total_burnt_fees + burnt_fees_for block;
  total_rent_fees = s.total_rent_fees + block.total_rent_fee_wei;
  gas_weighted_priority_fee_numerator =
      s.gas_weighted_priority_fee_numerator + priority_fee_gas_weight_for block;
  fee_price_numerator =
      s.fee_price_numerator
      + exact_or_average_sum block.fee_price_sum_wei block.average_fee_price_wei
          block.transaction_count;
  transaction_gas_numerator = s.transaction_gas_numerator + block.total_gas_used;
  transaction_input_data_numerator =
      s.transaction_input_data_numerator
      + exact_or_average_sum block.total_input_data_size_bytes
          (or_else block.average_transaction_input_data_size_bytes 0) block.transaction_count;
  transaction_input_data_compressed_numerator =
      s.transaction_input_data_compressed_numerator
      + exact_or_average_sum block.total_input_data_compressed_size_bytes
          (or_else block.average_transaction_input_data_compressed_size_bytes 0)
          block.transaction_count;
  tx_weighted_priority_fee_numerator =
      s.tx_weighted_priority_fee_numerator
      + exact_or_average_sum block.priority_fee_sum_wei block.average_priority_fee_wei
          block.transaction_count;
  batcher_queue_sizes = push_optional s.batcher_queue_sizes block.batcher_queue_size;
  batcher_lower_thresholds = push_optional s.batcher_lower_thresholds block.batcher_lower_threshold;
  batcher_upper_thresholds = push_optional s.batcher_upper_thresholds block.batcher_upper_threshold;
  batcher_max_block_sizes = push_optional s.batcher_max_block_sizes block.batcher_max_block_size;
  batcher_max_tx_sizes = push_optional s.batcher_max_tx_sizes block.batcher_max_tx_size;
}

unfoldable pub add_blocks : List StoredBlock → RangeSums → RangeSums
unfolding add_block
add_blocks [] s = s
add_blocks (block ∷ blocks) s = add_blocks blocks (add_block block s)

-- `rangeStats` and its two shapes.
pub record RangeStats : Type 0 where
  pub least : Option ℕ
  pub most : Option ℕ
  pub average : Option ℕ

unfoldable pub least_of : ℕ → List ℕ → ℕ
least_of least [] = least
least_of least (n ∷ ns) = least_of (lower least n) ns

unfoldable pub most_of : ℕ → List ℕ → ℕ
most_of most [] = most
most_of most (n ∷ ns) = most_of (raise most n) ns

unfoldable pub range_stats : List ℕ → Bool → RangeStats
unfolding least_of most_of sum
range_stats [] include_min_max = record { least = none; most = none; average = none }
range_stats (n ∷ ns) include_min_max = record {
  least = if include_min_max then some (least_of n (n ∷ ns)) else none;
  most = if include_min_max then some (most_of n (n ∷ ns)) else none;
  average = some (sum (n ∷ ns) / length (n ∷ ns));
}

pub record BlockRangeMetrics : Type 0 where
  pub range_size : ℕ
  pub range_start : ℕ
  pub range_end : ℕ
  pub min_block_date : ℕ
  pub max_block_date : ℕ
  pub average_block_time_seconds : ℕ
  pub min_block_time_seconds : ℕ
  pub max_block_time_seconds : ℕ
  pub min_base_fee_wei : ℕ
  pub max_base_fee_wei : ℕ
  pub average_base_fee_wei : ℕ
  pub total_gas_used : ℕ
  pub average_total_gas_used : ℕ
  pub min_total_gas_used : ℕ
  pub max_total_gas_used : ℕ
  pub total_input_data_size_bytes : ℕ
  pub average_total_input_data_size_bytes : ℕ
  pub min_total_input_data_size_bytes : ℕ
  pub max_total_input_data_size_bytes : ℕ
  pub total_input_data_compressed_size_bytes : ℕ
  pub average_total_input_data_compressed_size_bytes : ℕ
  pub min_total_input_data_compressed_size_bytes : ℕ
  pub max_total_input_data_compressed_size_bytes : ℕ
  pub total_max_gas : ℕ
  pub min_max_gas_in_block : ℕ
  pub max_max_gas_in_block : ℕ
  pub transaction_count : ℕ
  pub total_block_reward_wei : ℕ
  pub total_burnt_fees_wei : ℕ
  pub total_rent_fee_wei : ℕ
  pub total_burned_wei : ℕ
  pub average_block_reward_wei : ℕ
  pub average_burnt_fees_wei : ℕ
  pub average_rent_fee_wei : ℕ
  pub average_burned_wei : ℕ
  pub average_fee_price_wei : ℕ
  pub average_transaction_gas_used : ℕ
  pub average_transaction_input_data_size_bytes : ℕ
  pub average_transaction_input_data_compressed_size_bytes : ℕ
  pub average_priority_fee_weighted_wei : ℕ
  pub average_priority_fee_wei : ℕ
  pub batcher_queue_size : RangeStats
  pub batcher_lower_threshold : RangeStats
  pub batcher_upper_threshold : RangeStats
  pub batcher_max_block_size : RangeStats
  pub batcher_max_tx_size : RangeStats

-- The result of `computeBlockRange`, after its loop.
unfoldable pub metrics_for : ℕ → ℕ → ℕ → RangeSums → BlockRangeMetrics
unfolding range_stats
metrics_for range_start range_end range_size s = record {
  range_size = range_size;
  range_start = range_start;
  range_end = range_end;
  min_block_date = s.dates.least;
  max_block_date = s.dates.most;
  average_block_time_seconds = s.block_time.all / range_size;
  min_block_time_seconds = s.block_time.least;
  max_block_time_seconds = s.block_time.most;
  min_base_fee_wei = s.base_fee.least;
  max_base_fee_wei = s.base_fee.most;
  average_base_fee_wei = s.base_fee.all / range_size;
  total_gas_used = s.gas_used.all;
  average_total_gas_used = s.gas_used.all / range_size;
  min_total_gas_used = s.gas_used.least;
  max_total_gas_used = s.gas_used.most;
  total_input_data_size_bytes = s.input_data.all;
  average_total_input_data_size_bytes = s.input_data.all / range_size;
  min_total_input_data_size_bytes = s.input_data.least;
  max_total_input_data_size_bytes = s.input_data.most;
  total_input_data_compressed_size_bytes = s.compressed_data.all;
  average_total_input_data_compressed_size_bytes = s.compressed_data.all / range_size;
  min_total_input_data_compressed_size_bytes = s.compressed_data.least;
  max_total_input_data_compressed_size_bytes = s.compressed_data.most;
  total_max_gas = s.max_gas.all;
  min_max_gas_in_block = s.max_gas.least;
  max_max_gas_in_block = s.max_gas.most;
  transaction_count = s.transaction_count;
  total_block_reward_wei = s.total_block_reward;
  total_burnt_fees_wei = s.total_burnt_fees;
  total_rent_fee_wei = s.total_rent_fees;
  total_burned_wei = s.total_burnt_fees + s.total_rent_fees;
  average_block_reward_wei = s.total_block_reward / range_size;
  average_burnt_fees_wei = s.total_burnt_fees / range_size;
  average_rent_fee_wei = s.total_rent_fees / range_size;
  average_burned_wei = (s.total_burnt_fees + s.total_rent_fees) / range_size;
  average_fee_price_wei = per s.fee_price_numerator s.transaction_count;
  average_transaction_gas_used = per s.transaction_gas_numerator s.transaction_count;
  average_transaction_input_data_size_bytes =
      per s.transaction_input_data_numerator s.transaction_count;
  average_transaction_input_data_compressed_size_bytes =
      per s.transaction_input_data_compressed_numerator s.transaction_count;
  average_priority_fee_weighted_wei = per s.gas_weighted_priority_fee_numerator s.gas_used.all;
  average_priority_fee_wei = per s.tx_weighted_priority_fee_numerator s.transaction_count;
  batcher_queue_size = range_stats s.batcher_queue_sizes true;
  batcher_lower_threshold = range_stats s.batcher_lower_thresholds false;
  batcher_upper_threshold = range_stats s.batcher_upper_thresholds false;
  batcher_max_block_size = range_stats s.batcher_max_block_sizes false;
  batcher_max_tx_size = range_stats s.batcher_max_tx_sizes false;
}

-- `expectedNumbers`: the numbers from `first` on, `count` of them.
unfoldable pub numbers_from : ℕ → ℕ → List ℕ
numbers_from first zero = []
numbers_from first (suc count) = first ∷ numbers_from (first + 1) count

unfoldable pub delete_number : ℕ → List ℕ → List ℕ
delete_number n [] = []
delete_number n (m ∷ ms) = let rest = delete_number n ms in if eqb m n then rest else m ∷ rest

unfoldable pub delete_blocks : List StoredBlock → List ℕ → List ℕ
unfolding delete_number
delete_blocks [] expected = expected
delete_blocks (block ∷ blocks) expected =
    delete_blocks blocks (delete_number block.block_number expected)

-- A supported size is not 0, so blocks are there; without one the source reads from undefined.
unfoldable pub range_of : ℕ → ℕ → ℕ → List StoredBlock → Try RangeError BlockRangeMetrics
unfolding add_blocks metrics_for
range_of range_start range_end range_size [] = thrown (RangeError.wrong_count range_size 0)
range_of range_start range_end range_size (block ∷ blocks) =
    returned (
      metrics_for range_start range_end range_size (add_blocks (block ∷ blocks) (first_sums block)))

-- Every expected number is deleted by the blocks, or those left are missing.
unfoldable pub complete_range : ℕ → ℕ → ℕ → List StoredBlock → Try RangeError BlockRangeMetrics
unfolding range_of delete_blocks numbers_from
complete_range range_start range_end range_size blocks =
    elim (delete_blocks blocks (numbers_from range_start range_size)) [
      | [] ↦ range_of range_start range_end range_size blocks
      | n ∷ ns ↦ thrown (RangeError.missing_blocks (n ∷ ns))
    ]

-- The checks of `computeBlockRange`; a start is not negative here.
unfoldable pub compute_block_range : ℕ → ℕ → List StoredBlock → Try RangeError BlockRangeMetrics
unfolding assert_supported_range_size range_end_for complete_range
compute_block_range range_start range_size blocks = do
  _ ← assert_supported_range_size range_size
  (if not (eqb (range_start % range_size) 0)
      then thrown (RangeError.misaligned_start range_start)
      else if not (eqb (length blocks) range_size)
      then thrown (RangeError.wrong_count range_size (length blocks))
      else (do
        range_end ← range_end_for range_start range_size
        complete_range range_start range_end range_size blocks))
