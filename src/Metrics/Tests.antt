-- ===== src/Metrics/Tests.antt =====
-- The metrics of a block with one transaction that counts and one of the system.
use arkiv_chain_indexer.Common.{ℕ, ◌≡◌, ◌+◌, refl, Option, none, some, [], ◌∷◌, arith}
use arkiv_chain_indexer.Common.Try.{returned}
use arkiv_chain_indexer.Query.Syntax.{Text, codes}
use arkiv_chain_indexer.Metrics.{
  RpcTransaction, RpcReceipt, RpcBlock, BlockMetrics, ignored_transaction_from_address, no_totals,
  metrics_of, add_transaction, compute_block_metrics, included, receipt_of,
}
use arkiv_chain_indexer.Metrics.Fees.{PaysBaseFee, fees-split}

abbrev zstd : Option Text → ℕ
zstd _ = 9

abbrev transfer : RpcTransaction
transfer = record {
  hash = codes "0xA1";
  sender = some (codes "0x01");
  gas_price = none;
  input = some (codes "0xab01");
}

abbrev deposit : RpcTransaction
deposit = record {
  hash = codes "0xb2";
  sender = some ignored_transaction_from_address;
  gas_price = none;
  input = none;
}

abbrev receipt : RpcReceipt
receipt = record {
  transaction_hash = codes "0xa1";
  gas_used = some 21;
  effective_gas_price = some 10;
  rent_fee = some 4;
}

abbrev block : RpcBlock
block = record {
  number = some 8;
  hash = some (codes "0xff");
  parent_hash = none;
  timestamp = some 100;
  base_fee_per_gas = some 7;
  gas_used = some 30;
  gas_limit = some 60;
  transactions = deposit ∷ transfer ∷ [];
}

abbrev metrics : BlockMetrics
metrics = metrics_of block 8 none 1 (add_transaction 7 transfer receipt 2 9 no_totals)

included_block : included block.transactions ≡ transfer ∷ []
unfolding included codes
included_block = refl

compute_block : compute_block_metrics zstd block (receipt ∷ []) none ≡ returned metrics
unfolding compute_block_metrics included codes
compute_block = refl

block-PaysBaseFee : PaysBaseFee 7 (receipt ∷ []) (included block.transactions)
unfolding included receipt_of codes
block-PaysBaseFee = (omega arith, tt)

fees-split_example :
    metrics.total_transaction_fee_wei ≡ metrics.burnt_fees_wei + metrics.block_reward_wei
fees-split_example =
    fees-split zstd block (receipt ∷ []) none metrics block-PaysBaseFee compute_block
