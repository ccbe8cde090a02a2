-- ===== src/Ranges/Tests.antt =====
-- Ranges of two blocks.
use arkiv_chain_indexer.Common.{
  ℕ, ◌≡◌, ◌≤◌, ◌<◌, ◌+◌, ◌*◌, ◌↔◌, refl, true, false, none, some, List, [], ◌∷◌, arith,
}
use arkiv_chain_indexer.Common.Try.{thrown, returned}
use arkiv_chain_indexer.Ranges.{
  StoredBlock, RangeError, BlockRangeMetrics, first_sums, add_blocks, metrics_for, includes,
  compute_block_range, is_supported_range_size, assert_supported_range_size, range_end_for,
  complete_range, range_of, delete_blocks, numbers_from, delete_number,
}
use arkiv_chain_indexer.Ranges.Covers.{
  has_block, IsAsked, compute_block_range-covers, missing_blocks-exact,
}
use arkiv_chain_indexer.Ranges.Averages.{HasBoundedAverages, compute_block_range-averages}

abbrev block : ℕ → ℕ → StoredBlock
block number gas = record {
  block_number = number;
  block_date = number * 2000;
  block_time_seconds = some 2;
  base_block_fee_wei = 7;
  total_gas_used = gas;
  total_input_data_size_bytes = some 3;
  total_input_data_compressed_size_bytes = none;
  max_gas_in_block = 100;
  transaction_count = 1;
  block_reward_wei = some 2;
  burnt_fees_wei = some 9;
  total_rent_fee_wei = 1;
  fee_price_sum_wei = some 8;
  priority_fee_sum_wei = some 1;
  priority_fee_gas_weighted_numerator_wei = none;
  average_fee_price_wei = 8;
  average_transaction_input_data_size_bytes = none;
  average_transaction_input_data_compressed_size_bytes = none;
  average_priority_fee_weighted_wei = 1;
  average_priority_fee_wei = 1;
  batcher_queue_size = some 4;
  batcher_lower_threshold = none;
  batcher_upper_threshold = none;
  batcher_max_block_size = none;
  batcher_max_tx_size = none;
}

abbrev pair : List StoredBlock
pair = block 5 30 ∷ block 4 21 ∷ []

abbrev pair_metrics : BlockRangeMetrics
pair_metrics = metrics_for 4 5 2 (add_blocks pair (first_sums (block 5 30)))

compute_pair : compute_block_range 4 2 pair ≡ returned pair_metrics
unfolding compute_block_range is_supported_range_size assert_supported_range_size range_end_for
    complete_range delete_blocks numbers_from delete_number includes range_of
compute_pair = refl

compute_block_range-covers_example : IsAsked 4 2 pair × (has_block 4 pair ≡ true)
compute_block_range-covers_example =
    compute_block_range-covers 4 2 pair pair_metrics compute_pair 4 (omega arith) (omega arith)

compute_block_range-averages_example : HasBoundedAverages pair_metrics
compute_block_range-averages_example =
    compute_block_range-averages 4 2 pair pair_metrics compute_pair

abbrev doubled : List StoredBlock
doubled = block 5 30 ∷ block 5 21 ∷ []

compute_doubled : compute_block_range 4 2 doubled ≡ thrown (RangeError.missing_blocks (4 ∷ []))
unfolding compute_block_range is_supported_range_size assert_supported_range_size range_end_for
    complete_range delete_blocks numbers_from delete_number includes range_of
compute_doubled = refl

missing_blocks-exact_example :
    (includes 4 (4 ∷ []) ≡ true) ↔ ((4 ≤ 4) × (4 < 4 + 2) × (has_block 4 doubled ≡ false))
missing_blocks-exact_example = missing_blocks-exact 4 2 doubled (4 ∷ []) compute_doubled 4
