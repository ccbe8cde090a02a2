-- ===== src/Metrics/Fees.antt =====
-- src/metrics.ts: where the fees of a block go.
use arkiv_chain_indexer.Common.{
  ℕ, ◌+◌, ◌*◌, ◌≤◌, ◌≡◌, ◌∙◌, refl, ap, Option, none, some, List, [], ◌∷◌, ltb, length, arith,
  Bool-cases, Option-cases, inl, inr,
}
use arkiv_chain_indexer.Common.Try.{Try, thrown, returned, ◌>>=◌}
use arkiv_chain_indexer.Query.Syntax.{Text}
use mathlib.Core.Path.{subst}
use arkiv_chain_indexer.Metrics.{
  RpcTransaction, RpcReceipt, RpcBlock, Totals, BlockMetrics, no_totals, hex_to_bigint, included,
  receipt_of, price_of, priority_fee_of, add_transaction, add_transactions, metrics_of,
  compute_numbered, compute_block_metrics, hex_data_byte_length, receipt_for,
}

pub bind-returned {ℓ κ υ} :
    {E : Type ℓ} {A : Type κ} {B : Type υ} (m : Try E A) (f : A → Try E B) {b : B}
    → (m >>= f) ≡ returned b
    → (a : A) × (m ≡ returned a) × (f a ≡ returned b)
bind-returned (thrown e) f h = cc h
bind-returned (returned a) f h = (a, refl, h)

returned-injective {ℓ κ} :
    {E : Type ℓ} {A : Type κ} {a b : A} → ◌≡◌ {A = Try E A} (returned a) (returned b) → a ≡ b
returned-injective e = cc e

-- Every included transaction has a receipt, and pays at least the base fee.
abbrev pub PaysBaseFee : ℕ → List RpcReceipt → List RpcTransaction → Type 0
PaysBaseFee base receipts [] = Unit
PaysBaseFee base receipts (t ∷ ts) =
    elim (receipt_of t.hash receipts) [ none ↦ Unit | some r ↦ base ≤ price_of t r ]
    × PaysBaseFee base receipts ts

-- The fees are split between what is burnt and the reward.
abbrev pub IsSplit : ℕ → Totals → Type 0
IsSplit base t =
    t.total_transaction_fee
    ≡ base * t.total_receipt_gas_used + t.gas_weighted_priority_fee_numerator

split_price : (base price : ℕ) → base ≤ price → price ≡ base + priority_fee_of base price
split_price base price h = ground arith

split_step :
    (base fees gas reward g q : ℕ)
    → fees ≡ base * gas + reward
    → fees + g * (base + q) ≡ base * (gas + g) + (reward + q * g)
split_step base fees gas reward g q h = grind (arith, h)

add_transaction-IsSplit :
    (base : ℕ) (t : RpcTransaction) (r : RpcReceipt) (bytes compressed : ℕ) (s : Totals)
    → base ≤ price_of t r
    → IsSplit base s
    → IsSplit base (add_transaction base t r bytes compressed s)
unfolding add_transaction
add_transaction-IsSplit base t r bytes compressed s h split =
    let q = priority_fee_of base (price_of t r) in
    ap (λ p. s.total_transaction_fee + hex_to_bigint r.gas_used * p)
      (split_price base (price_of t r) h)
    ∙ split_step base s.total_transaction_fee s.total_receipt_gas_used
        s.gas_weighted_priority_fee_numerator (hex_to_bigint r.gas_used) q split

receipt_for-found :
    (t : RpcTransaction) (rs : List RpcReceipt) (r : RpcReceipt)
    → receipt_for t rs ≡ returned r
    → receipt_of t.hash rs ≡ some r
receipt_for-found t rs r h = elim (Option-cases (receipt_of t.hash rs)) [
  | inl e ↦ cc (rw (e, receipt_for) at h)
  | inr (found, e) ↦ cc (e, rw (e, receipt_for) at h)
]

add_transactions-IsSplit :
    (zstd : Option Text → ℕ) (base : ℕ) (rs : List RpcReceipt) (ts : List RpcTransaction)
    (s s' : Totals)
    → PaysBaseFee base rs ts
    → IsSplit base s
    → add_transactions zstd base rs ts s ≡ returned s'
    → IsSplit base s'
unfolding add_transactions
add_transactions-IsSplit zstd base rs [] s s' pays split h =
    subst (IsSplit base) (returned-injective h) split
add_transactions-IsSplit zstd base rs (t ∷ ts) s s' pays split h =
    let (r, found, h1) = bind-returned (receipt_for t rs) _ h in
    let (bytes, measured, h2) = bind-returned (hex_data_byte_length t.input) _ h1 in
    let enough = rw (receipt_for-found t rs r found) at pays.0 in
    add_transactions-IsSplit zstd base rs ts _ s' pays.1
      (add_transaction-IsSplit base t r bytes (zstd t.input) s enough split) h2

module _ (zstd : Option Text → ℕ) (block : RpcBlock) (rs : List RpcReceipt)
    (previous : Option RpcBlock) where
  numbered-split :
      (number : ℕ) (m : BlockMetrics)
      → PaysBaseFee (hex_to_bigint block.base_fee_per_gas) rs (included block.transactions)
      → compute_numbered zstd block rs previous number ≡ returned m
      → m.total_transaction_fee_wei ≡ m.burnt_fees_wei + m.block_reward_wei
  unfolding compute_numbered metrics_of
  numbered-split number m pays h =
      let ts = included block.transactions in
      let base = hex_to_bigint block.base_fee_per_gas in
      elim (Bool-cases (ltb (length rs) (length ts))) [
        | inl few ↦ cc (rw (few, compute_numbered) at h)
        | inr enough ↦
            let (t, summed, made) =
              bind-returned (add_transactions zstd base rs ts no_totals) _
                (rw (enough, compute_numbered) at h) in
            subst
              (λ (x : BlockMetrics).
                x.total_transaction_fee_wei ≡ x.burnt_fees_wei + x.block_reward_wei)
              (returned-injective made)
              (add_transactions-IsSplit zstd base rs ts no_totals t pays (omega arith) summed)
      ]

  -- In a block whose included transactions each pay a price of at least the base fee, the
  -- fees that the metrics report are the burnt fees and the block reward together, to the wei.
  pub fees-split :
      (m : BlockMetrics)
      → PaysBaseFee (hex_to_bigint block.base_fee_per_gas) rs (included block.transactions)
      → compute_block_metrics zstd block rs previous ≡ returned m
      → m.total_transaction_fee_wei ≡ m.burnt_fees_wei + m.block_reward_wei
  unfolding compute_block_metrics
  fees-split m pays h = elim (Option-cases block.number) [
    | inl e ↦ cc (rw (e, compute_block_metrics) at h)
    | inr (number, e) ↦ numbered-split number m pays (rw (e, compute_block_metrics) at h)
  ]
