-- ===== src/Ranges/Averages.antt =====
-- src/ranges.ts: averages stand between the least and the greatest value.
use native.Mathlib.Nat.{mul-le-mul_left, le-div_iff_mul-le, div-le_of_le-mul}
use arkiv_chain_indexer.Common.{
  ℕ, suc, ◌+◌, ◌-◌, ◌*◌, ◌/◌, ◌≤◌, ◌<◌, ◌≡◌, ◌∙◌, sym, inl, inr, List, [], ◌∷◌, arith, List-cases,
  length,
}
use mathlib.Core.Path.{subst}
use arkiv_chain_indexer.Common.Try.{Try, returned}
use arkiv_chain_indexer.Ranges.{
  StoredBlock, RangeError, BlockRangeMetrics, Spread, spread, widen, lower, raise, RangeSums,
  first_sums, add_block, add_blocks, metrics_for, range_of, complete_range, compute_block_range,
  delete_blocks, numbers_from,
}
use arkiv_chain_indexer.Ranges.Covers.{check_cases}

-- The sum of `n` values lies between `n` times the least and `n` times the greatest.
pub record IsWithin (n : ℕ) (s : Spread) : Type 0 where
  pub above : n * s.least ≤ s.all
  pub below : s.all ≤ n * s.most

lower-small : (least value : ℕ) → (lower least value ≤ least) × (lower least value ≤ value)
lower-small least value = ground arith

raise-large : (most value : ℕ) → (most ≤ raise most value) × (value ≤ raise most value)
raise-large most value = ground arith

suc-times : (n k : ℕ) → suc n * k ≡ n * k + k
suc-times n k = grind arith

widen_above : (n least all value : ℕ) → n * least ≤ all → suc n * lower least value ≤ all + value
widen_above n least all value h = omega (
  arith,
  suc-times n (lower least value),
  lower-small least value,
  mul-le-mul_left n (lower-small least value).0,
  h,
)

widen_below : (n most all value : ℕ) → all ≤ n * most → all + value ≤ suc n * raise most value
widen_below n most all value h = omega (
  arith,
  suc-times n (raise most value),
  raise-large most value,
  mul-le-mul_left n (raise-large most value).0,
  h,
)

widen-IsWithin : (n value : ℕ) (s : Spread) → IsWithin n s → IsWithin (suc n) (widen value s)
widen-IsWithin n value s h = record {
  above = widen_above n s.least s.all value h.above;
  below = widen_below n s.most s.all value h.below;
}

spread-IsWithin : (first : ℕ) → IsWithin 0 (spread first)
spread-IsWithin first = record { above = omega arith; below = omega arith }

-- The quantities of which a range reports an average beside its bounds.
pub record AllWithin (n : ℕ) (s : RangeSums) : Type 0 where
  pub block_time : IsWithin n s.block_time
  pub base_fee : IsWithin n s.base_fee
  pub gas_used : IsWithin n s.gas_used
  pub input_data : IsWithin n s.input_data
  pub compressed_data : IsWithin n s.compressed_data

add_block-AllWithin :
    (n : ℕ) (block : StoredBlock) (s : RangeSums)
    → AllWithin n s
    → AllWithin (suc n) (add_block block s)
unfolding add_block
add_block-AllWithin n block s h = record {
  block_time = widen-IsWithin n _ s.block_time h.block_time;
  base_fee = widen-IsWithin n _ s.base_fee h.base_fee;
  gas_used = widen-IsWithin n _ s.gas_used h.gas_used;
  input_data = widen-IsWithin n _ s.input_data h.input_data;
  compressed_data = widen-IsWithin n _ s.compressed_data h.compressed_data;
}

add_blocks-AllWithin :
    (n : ℕ) (blocks : List StoredBlock) (s : RangeSums)
    → AllWithin n s
    → AllWithin (length blocks + n) (add_blocks blocks s)
unfolding add_blocks
add_blocks-AllWithin n [] s h = subst (λ k. AllWithin k s) (omega arith) h
add_blocks-AllWithin n (block ∷ blocks) s h =
    subst (λ k. AllWithin k (add_blocks blocks (add_block block s))) (ground arith)
      (add_blocks-AllWithin (suc n) blocks (add_block block s) (add_block-AllWithin n block s h))

average_bounds :
    (n : ℕ) (s : Spread) → 0 < n → IsWithin n s → (s.least ≤ s.all / n) × (s.all / n ≤ s.most)
average_bounds n s positive h =
    ((le-div_iff_mul-le positive).1 (grind (arith, h.above)), div-le_of_le-mul n h.below)

-- Every average that a range reports with bounds is within them.
pub record HasBoundedAverages (m : BlockRangeMetrics) : Type 0 where
  pub block_time :
      (m.min_block_time_seconds ≤ m.average_block_time_seconds)
      × (m.average_block_time_seconds ≤ m.max_block_time_seconds)
  pub base_fee :
      (m.min_base_fee_wei ≤ m.average_base_fee_wei) × (m.average_base_fee_wei ≤ m.max_base_fee_wei)
  pub gas_used :
      (m.min_total_gas_used ≤ m.average_total_gas_used)
      × (m.average_total_gas_used ≤ m.max_total_gas_used)
  pub input_data :
      (m.min_total_input_data_size_bytes ≤ m.average_total_input_data_size_bytes)
      × (m.average_total_input_data_size_bytes ≤ m.max_total_input_data_size_bytes)
  pub compressed_data :
      (m.min_total_input_data_compressed_size_bytes
        ≤ m.average_total_input_data_compressed_size_bytes)
      × (m.average_total_input_data_compressed_size_bytes
          ≤ m.max_total_input_data_compressed_size_bytes)

metrics_for-averages :
    (a b n : ℕ) (s : RangeSums) → 0 < n → AllWithin n s → HasBoundedAverages (metrics_for a b n s)
unfolding metrics_for
metrics_for-averages a b n s positive h = record {
  block_time = average_bounds n s.block_time positive h.block_time;
  base_fee = average_bounds n s.base_fee positive h.base_fee;
  gas_used = average_bounds n s.gas_used positive h.gas_used;
  input_data = average_bounds n s.input_data positive h.input_data;
  compressed_data = average_bounds n s.compressed_data positive h.compressed_data;
}

first_sums-AllWithin : (block : StoredBlock) → AllWithin 0 (first_sums block)
first_sums-AllWithin block = record {
  block_time = spread-IsWithin _;
  base_fee = spread-IsWithin _;
  gas_used = spread-IsWithin _;
  input_data = spread-IsWithin _;
  compressed_data = spread-IsWithin _;
}

returned-same :
    (a m : BlockRangeMetrics)
    → ◌≡◌ {A = Try RangeError BlockRangeMetrics} (returned a) (returned m)
    → a ≡ m
returned-same a m e = cc e

range_of-averages :
    (a b : ℕ) (blocks : List StoredBlock) (m : BlockRangeMetrics)
    → range_of a b (length blocks) blocks ≡ returned m
    → HasBoundedAverages m
unfolding range_of
range_of-averages a b [] m h = cc h
range_of-averages a b (block ∷ blocks) m h = subst HasBoundedAverages (returned-same _ m h) (
    metrics_for-averages a b (suc (length blocks)) (add_blocks (block ∷ blocks) (first_sums block))
      (omega arith)
      (subst (λ k. AllWithin k (add_blocks (block ∷ blocks) (first_sums block))) (ground arith)
        (add_blocks-AllWithin 0 (block ∷ blocks) (first_sums block) (first_sums-AllWithin block))))

module _ (range_start range_size : ℕ) (blocks : List StoredBlock) where
  behind-averages :
      (m : BlockRangeMetrics)
      → length blocks ≡ range_size
      → complete_range range_start (range_start + range_size - 1) range_size blocks ≡ returned m
      → HasBoundedAverages m
  unfolding complete_range
  behind-averages m counted h =
      elim (List-cases (delete_blocks blocks (numbers_from range_start range_size))) [
        | inl e ↦
            let made = rw (e, complete_range) at h in
            range_of-averages range_start (range_start + range_size - 1) blocks m (rw counted made)
        | inr (k, ks, e) ↦ cc (rw (e, complete_range) at h)
      ]

  -- In the metrics of a range, the average block time, base fee, gas used and sizes of input
  -- data, rounded down as they are, lie between their least and their greatest values.
  pub compute_block_range-averages :
      (m : BlockRangeMetrics)
      → compute_block_range range_start range_size blocks ≡ returned m
      → HasBoundedAverages m
  compute_block_range-averages m h = elim (check_cases range_start range_size blocks) [
    | inr (inl e) ↦ cc (h, e)
    | inr (inr (inl e)) ↦ cc (h, e)
    | inr (inr (inr e)) ↦ cc (h, e)
    | inl ((supported, aligned, counted), e) ↦ behind-averages m counted (sym e ∙ h)
  ]
