-- ===== src/Gaps.antt =====
-- src/fillGaps.ts: the blocks that are missing, and a cycle that fills them. Whether an attempt at
-- a block succeeds, and whether the process is told to stop, are given from outside.
pub mod Missing
mod Tests
use arkiv_chain_indexer.Common.{
  ℕ, zero, suc, ◌+◌, ◌-◌, Bool, true, false, List, [], ◌∷◌, ◌++◌, leb, if◌then◌else◌, length,
}
use arkiv_chain_indexer.Scanner.{Storage, save_block_metrics, no_progress}

pub record BlockGap : Type 0 where
  pub gap_start : ℕ
  pub gap_end : ℕ

-- The loop over the blocks of a gap, with the number of them that are left.
unfoldable pub expand_gap : ℕ → ℕ → ℕ → List ℕ → List ℕ × Bool
expand_gap max_blocks zero block blocks = (blocks, false)
expand_gap max_blocks (suc left) block blocks =
    let rest = expand_gap max_blocks left (block + 1) (blocks ++ block ∷ []) in
    if leb max_blocks (length blocks) then (blocks, true) else rest

abbrev pub gap_size : BlockGap → ℕ
gap_size gap = gap.gap_end + 1 - gap.gap_start

-- The loop over the gaps.
unfoldable pub expand_from : ℕ → List BlockGap → List ℕ → List ℕ × Bool
unfolding expand_gap
expand_from max_blocks [] blocks = (blocks, false)
expand_from max_blocks (gap ∷ gaps) blocks =
    let (expanded, truncated) = expand_gap max_blocks (gap_size gap) gap.gap_start blocks in
    let rest = expand_from max_blocks gaps expanded in if truncated then (expanded, true) else rest

unfoldable pub expand_gaps : List BlockGap → ℕ → List ℕ × Bool
unfolding expand_from
expand_gaps gaps max_blocks = expand_from max_blocks gaps []

-- The attempts at a block, with the number of them that are left.
unfoldable pub attempts_from : (ℕ → Bool) → ℕ → ℕ → Bool
attempts_from succeeds zero attempt = false
attempts_from succeeds (suc left) attempt =
    let rest = attempts_from succeeds left (attempt + 1) in if succeeds attempt then true else rest

pub record Cycle : Type 0 where
  pub filled : ℕ
  pub failed : ℕ
  pub storage : Storage

abbrev pub count : Bool × Storage → Cycle → Cycle
count (true, s) c = record { filled = c.filled + 1; failed = c.failed; storage = s }
count (false, s) c = record { filled = c.filled; failed = c.failed + 1; storage = s }

module _ (scans : ℕ → ℕ → Bool) (max_retries : ℕ) where
  -- `fillBlockWithRetry`: an attempt that succeeds saves the block and moves no mark.
  unfoldable pub fill_block_with_retry : ℕ → Storage → Bool × Storage
  unfolding attempts_from save_block_metrics
  fill_block_with_retry block s =
      if attempts_from (scans block) max_retries 1
      then (true, save_block_metrics block no_progress s)
      else (false, s)

  -- The loop of `runCycle`; `is_stopping` answers by the number of blocks that are left.
  unfoldable pub fill_blocks : (ℕ → Bool) → List ℕ → Cycle → Cycle
  unfolding fill_block_with_retry
  fill_blocks is_stopping [] c = c
  fill_blocks is_stopping (block ∷ blocks) c =
      let rest = fill_blocks is_stopping blocks (count (fill_block_with_retry block c.storage) c) in
      if is_stopping (length blocks) then c else rest

  unfoldable pub run_cycle : (ℕ → Bool) → List BlockGap → ℕ → Storage → Cycle
  unfolding fill_blocks expand_gaps
  run_cycle is_stopping gaps max_blocks_per_cycle s =
      fill_blocks is_stopping (expand_gaps gaps max_blocks_per_cycle).0
        (record { filled = 0; failed = 0; storage = s })
