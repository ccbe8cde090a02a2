-- ===== src/Metrics.antt =====
-- src/metrics.ts, with src/math.ts and src/transactionFilter.ts: what is stored of a block. A hex
-- quantity is its number, none where the field is missing or empty; a hash, an address and input
-- data are their code units. The decimal texts of the result are their numbers, and
-- `blockDate` is its milliseconds. `zstd` is the length of what `Bun.zstdCompressSync` makes of
-- hex data.
pub mod Fees
mod Tests
use arkiv_chain_indexer.Common.{
  ℕ, suc, ◌+◌, ◌-◌, ◌*◌, ◌/◌, ◌%◌, Bool, true, false, not, Option, none, some, List, [], ◌∷◌, ◌++◌,
  ltb, leb, eqb, if◌then◌else◌, length,
}
use arkiv_chain_indexer.Common.Int.{ℤ, pos, neg}
use arkiv_chain_indexer.Common.Try.{Try, thrown, returned, ◌>>=◌}
use arkiv_chain_indexer.Query.Syntax.{Text, codes}
use arkiv_chain_indexer.Query.Lexer.{to_lower, text_eq}

pub record RpcTransaction : Type 0 where
  pub hash : Text
  pub sender : Option Text
  pub gas_price : Option ℕ
  pub input : Option Text

pub record RpcReceipt : Type 0 where
  pub transaction_hash : Text
  pub gas_used : Option ℕ
  pub effective_gas_price : Option ℕ
  pub rent_fee : Option ℕ

pub record RpcBlock : Type 0 where
  pub number : Option ℕ
  pub hash : Option Text
  pub parent_hash : Option Text
  pub timestamp : Option ℕ
  pub base_fee_per_gas : Option ℕ
  pub gas_used : Option ℕ
  pub gas_limit : Option ℕ
  pub transactions : List RpcTransaction

pub data MetricsError : Type 0 where
  pending_block odd_hex_data : MetricsError
  too_few_receipts : ℕ → ℕ → MetricsError
  missing_receipt : Text → MetricsError

abbrev pub hex_to_bigint : Option ℕ → ℕ
hex_to_bigint none = 0
hex_to_bigint (some n) = n

unfoldable pub sum : List ℕ → ℕ
sum [] = 0
sum (n ∷ ns) = n + sum ns

-- `average` of src/math.ts
unfoldable pub average : List ℕ → ℕ
unfolding sum
average [] = 0
average (n ∷ ns) = sum (n ∷ ns) / length (n ∷ ns)

abbrev pub ignored_transaction_from_address : Text
ignored_transaction_from_address = codes "0xDeaDDEaDDeAdDeAdDEAdDEaddeAddEAdDEAd0001"

unfoldable pub should_ignore_transaction : RpcTransaction → Bool
unfolding to_lower text_eq codes
should_ignore_transaction transaction = elim transaction.sender [
  | none ↦ false
  | some sender ↦ text_eq (to_lower sender) (to_lower ignored_transaction_from_address)
]

unfoldable pub included : List RpcTransaction → List RpcTransaction
unfolding should_ignore_transaction
included [] = []
included (t ∷ ts) = let rest = included ts in if should_ignore_transaction t then rest else t ∷ rest

-- `receiptsByHash.get`: the last receipt for a hash wins.
unfoldable pub receipt_of : Text → List RpcReceipt → Option RpcReceipt
unfolding to_lower text_eq
receipt_of hash [] = none
receipt_of hash (r ∷ rs) = elim (receipt_of hash rs) [
  | some later ↦ some later
  | none ↦ if text_eq (to_lower r.transaction_hash) (to_lower hash) then some r else none
]

-- `hexDataByteLength`
unfoldable pub hex_data_byte_length : Option Text → Try MetricsError ℕ
unfolding codes text_eq
hex_data_byte_length none = returned 0
hex_data_byte_length (some value) =
    if text_eq value (codes "0x")
    then returned 0
    else if eqb ((length value - 2) % 2) 0
    then returned ((length value - 2) / 2)
    else thrown MetricsError.odd_hex_data

-- The variables of the loop.
pub record Totals : Type 0 where
  pub priority_fees : List ℕ
  pub fee_prices : List ℕ
  pub total_transaction_fee : ℕ
  pub total_rent_fee : ℕ
  pub fee_price_sum : ℕ
  pub priority_fee_sum : ℕ
  pub weighted_priority_fee_numerator : ℕ
  pub gas_weighted_priority_fee_numerator : ℕ
  pub total_receipt_gas_used : ℕ
  pub total_input_data_size_bytes : ℕ
  pub total_input_data_compressed_size_bytes : ℕ

abbrev pub no_totals : Totals
no_totals = record {
  priority_fees = [];
  fee_prices = [];
  total_transaction_fee = 0;
  total_rent_fee = 0;
  fee_price_sum = 0;
  priority_fee_sum = 0;
  weighted_priority_fee_numerator = 0;
  gas_weighted_priority_fee_numerator = 0;
  total_receipt_gas_used = 0;
  total_input_data_size_bytes = 0;
  total_input_data_compressed_size_bytes = 0;
}

-- `receipt.effectiveGasPrice ?? transaction.gasPrice`
abbrev pub price_of : RpcTransaction → RpcReceipt → ℕ
price_of transaction receipt = elim receipt.effective_gas_price [
  | none ↦ hex_to_bigint transaction.gas_price
  | some price ↦ price
]

abbrev pub priority_fee_of : ℕ → ℕ → ℕ
priority_fee_of base_fee price = if ltb base_fee price then price - base_fee else 0

-- One round of the loop, with the receipt and the two lengths of the input at hand.
unfoldable pub add_transaction : ℕ → RpcTransaction → RpcReceipt → ℕ → ℕ → Totals → Totals
add_transaction base_fee transaction receipt bytes compressed t =
    let gas_used = hex_to_bigint receipt.gas_used in
    let price = price_of transaction receipt in
    let fee = gas_used * price in
    let priority = priority_fee_of base_fee price in
    record {
      priority_fees = t.priority_fees ++ priority ∷ [];
      fee_prices = t.fee_prices ++ price ∷ [];
      total_transaction_fee = t.total_transaction_fee + fee;
      total_rent_fee = t.total_rent_fee + hex_to_bigint receipt.rent_fee;
      fee_price_sum = t.fee_price_sum + price;
      priority_fee_sum = t.priority_fee_sum + priority;
      weighted_priority_fee_numerator = t.weighted_priority_fee_numerator + priority * fee;
      gas_weighted_priority_fee_numerator =
          t.gas_weighted_priority_fee_numerator + priority * gas_used;
      total_receipt_gas_used = t.total_receipt_gas_used + gas_used;
      total_input_data_size_bytes = t.total_input_data_size_bytes + bytes;
      total_input_data_compressed_size_bytes =
          t.total_input_data_compressed_size_bytes + compressed;
    }

abbrev pub receipt_for : RpcTransaction → List RpcReceipt → Try MetricsError RpcReceipt
receipt_for transaction receipts = elim (receipt_of transaction.hash receipts) [
  | none ↦ thrown (MetricsError.missing_receipt transaction.hash)
  | some receipt ↦ returned receipt
]

unfoldable pub add_transactions :
    (Option Text → ℕ) → ℕ → List RpcReceipt → List RpcTransaction → Totals → Try MetricsError Totals
unfolding add_transaction hex_data_byte_length receipt_of
add_transactions zstd base_fee receipts [] t = returned t
add_transactions zstd base_fee receipts (transaction ∷ rest) t = do
  receipt ← receipt_for transaction receipts
  bytes ← hex_data_byte_length transaction.input
  add_transactions zstd base_fee receipts rest
      (add_transaction base_fee transaction receipt bytes (zstd transaction.input) t)

pub record BlockMetrics : Type 0 where
  pub block_hash : Option Text
  pub parent_hash : Option Text
  pub block_date : ℕ
  pub block_number : ℕ
  pub block_time_seconds : ℤ
  pub base_block_fee_wei : ℕ
  pub total_gas_used : ℕ
  pub total_input_data_size_bytes : ℕ
  pub total_input_data_compressed_size_bytes : ℕ
  pub max_gas_in_block : ℕ
  pub transaction_count : ℕ
  pub block_reward_wei : ℕ
  pub burnt_fees_wei : ℕ
  pub total_transaction_fee_wei : ℕ
  pub total_rent_fee_wei : ℕ
  pub total_burned_wei : ℕ
  pub fee_price_sum_wei : ℕ
  pub priority_fee_sum_wei : ℕ
  pub priority_fee_weighted_numerator_wei : ℕ
  pub priority_fee_gas_weighted_numerator_wei : ℕ
  pub average_fee_price_wei : ℕ
  pub average_transaction_fee_wei : ℕ
  pub average_transaction_gas_used : ℕ
  pub average_transaction_input_data_size_bytes : ℕ
  pub average_transaction_input_data_compressed_size_bytes : ℕ
  pub average_priority_fee_weighted_wei : ℕ
  pub average_priority_fee_wei : ℕ

abbrev pub lower_hash : Option Text → Option Text
unfolding to_lower
lower_hash none = none
lower_hash (some hash) = if eqb (length hash) 0 then none else some (to_lower hash)

-- `a - b`
abbrev pub difference : ℕ → ℕ → ℤ
difference a b = if leb b a then pos (a - b) else neg (b - a)

block_time : ℕ → Option RpcBlock → ℤ
block_time timestamp none = pos 2
block_time timestamp (some previous) = difference timestamp (hex_to_bigint previous.timestamp)

-- `a / b`, and 0 where nothing is counted.
abbrev pub per : ℕ → ℕ → ℕ
per a b = if eqb b 0 then 0 else a / b

-- The result of the function, after its loop.
unfoldable pub metrics_of : RpcBlock → ℕ → Option RpcBlock → ℕ → Totals → BlockMetrics
unfolding average block_time
metrics_of block number previous count t =
    let base_fee = hex_to_bigint block.base_fee_per_gas in
    let burnt = base_fee * t.total_receipt_gas_used in
    record {
      block_hash = lower_hash block.hash;
      parent_hash = lower_hash block.parent_hash;
      block_date = hex_to_bigint block.timestamp * 1000;
      block_number = number;
      block_time_seconds = block_time (hex_to_bigint block.timestamp) previous;
      base_block_fee_wei = base_fee;
      total_gas_used = hex_to_bigint block.gas_used;
      total_input_data_size_bytes = t.total_input_data_size_bytes;
      total_input_data_compressed_size_bytes = t.total_input_data_compressed_size_bytes;
      max_gas_in_block = hex_to_bigint block.gas_limit;
      transaction_count = count;
      block_reward_wei = t.gas_weighted_priority_fee_numerator;
      burnt_fees_wei = burnt;
      total_transaction_fee_wei = t.total_transaction_fee;
      total_rent_fee_wei = t.total_rent_fee;
      total_burned_wei = burnt + t.total_rent_fee;
      fee_price_sum_wei = t.fee_price_sum;
      priority_fee_sum_wei = t.priority_fee_sum;
      priority_fee_weighted_numerator_wei = t.weighted_priority_fee_numerator;
      priority_fee_gas_weighted_numerator_wei = t.gas_weighted_priority_fee_numerator;
      average_fee_price_wei = average t.fee_prices;
      average_transaction_fee_wei = per t.total_transaction_fee count;
      average_transaction_gas_used = per t.total_receipt_gas_used count;
      average_transaction_input_data_size_bytes = per t.total_input_data_size_bytes count;
      average_transaction_input_data_compressed_size_bytes =
          per t.total_input_data_compressed_size_bytes count;
      average_priority_fee_weighted_wei =
          per t.gas_weighted_priority_fee_numerator t.total_receipt_gas_used;
      average_priority_fee_wei = average t.priority_fees;
    }

unfoldable pub compute_numbered :
    (Option Text → ℕ)
    → RpcBlock
    → List RpcReceipt
    → Option RpcBlock
    → ℕ
    → Try MetricsError BlockMetrics
unfolding included add_transactions metrics_of
compute_numbered zstd block receipts previous number =
    let transactions = included block.transactions in
    if ltb (length receipts) (length transactions)
    then thrown (MetricsError.too_few_receipts (length receipts) (length transactions))
    else (do
      t ←
          add_transactions zstd (hex_to_bigint block.base_fee_per_gas) receipts transactions
            no_totals
      returned (metrics_of block number previous (length transactions) t))

unfoldable pub compute_block_metrics :
    (Option Text → ℕ) → RpcBlock → List RpcReceipt → Option RpcBlock → Try MetricsError BlockMetrics
unfolding compute_numbered
compute_block_metrics zstd block receipts previous = elim block.number [
  | none ↦ thrown MetricsError.pending_block
  | some number ↦ compute_numbered zstd block receipts previous number
]
