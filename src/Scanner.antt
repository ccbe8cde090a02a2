-- ===== src/Scanner.antt =====
-- src/scanner.ts: the order in which the scanner saves blocks, and its progress in the database.
-- `scanBlockWithRetry` tries a block until `saveBlockMetrics` has stored it together with the
-- progress, in one transaction, so a block is one entry of `saved`. A process can be stopped
-- between two blocks: a list of clock readings, or a number of rounds, says how long it lives.
mod Tests
pub mod Order
pub mod Receipts
use arkiv_chain_indexer.Common.{
  ℕ, zero, suc, ◌+◌, ◌-◌, Bool, true, false, ◌&&◌, Option, none, some, List, [], ◌∷◌, ◌++◌, ltb,
  leb, if◌then◌else◌,
}
use arkiv_chain_indexer.Common.Int.{ℤ, pos, negsuc}

-- What the database holds: the two marks of progress, and the blocks in the order they were saved.
pub record Storage : Type 0 where
  pub last_successful_block : Option ℕ
  pub backfill_next_block : Option ℤ
  pub saved : List ℕ

pub data BlockProgressUpdate : Type 0 where
  backfill_next : ℤ → BlockProgressUpdate
  last_successful : BlockProgressUpdate
  no_progress : BlockProgressUpdate

unfoldable pub save_block_metrics : ℕ → BlockProgressUpdate → Storage → Storage
save_block_metrics block (backfill_next next) s = record s {
  backfill_next_block = some next;
  saved = s.saved ++ block ∷ [];
}
save_block_metrics block last_successful s = record s {
  last_successful_block = some block;
  saved = s.saved ++ block ∷ [];
}
save_block_metrics block no_progress s = record s { saved = s.saved ++ block ∷ [] }

unfoldable pub compute_safe_head : ℕ → ℕ → ℕ
compute_safe_head latest_block confirmation_depth =
    if ltb confirmation_depth latest_block then latest_block - confirmation_depth else 0

-- The loop of `scanForwardToSafeHead`, for at most `rounds` blocks.
unfoldable pub forward_from : ℕ → ℕ → ℕ → Bool → Storage → Bool × Storage
unfolding save_block_metrics
forward_from zero safe_head next_block scanned s = (scanned, s)
forward_from (suc rounds) safe_head next_block scanned s =
    let rest =
      forward_from rounds safe_head (next_block + 1) true
        (save_block_metrics next_block last_successful s) in
    if leb next_block safe_head then rest else (scanned, s)

abbrev pub resume_at : ℕ → Option ℕ → ℕ
resume_at initial_lower_bound none = initial_lower_bound
resume_at initial_lower_bound (some last) = last + 1

unfoldable pub scan_forward_to_safe_head : ℕ → ℕ → ℕ → Storage → Bool × Storage
unfolding forward_from
scan_forward_to_safe_head rounds safe_head initial_lower_bound s =
    forward_from rounds safe_head (resume_at initial_lower_bound s.last_successful_block) false s

-- `n - 1`, which is -1 for block 0.
abbrev pub before : ℕ → ℤ
before zero = negsuc 0
before (suc n) = pos n

-- Where the backfill goes on: never above the safe head.
abbrev pub backfill_start : ℕ → Option ℤ → ℤ
backfill_start safe_head none = pos safe_head
backfill_start safe_head (some (pos n)) = if ltb safe_head n then pos safe_head else pos n
backfill_start safe_head (some (negsuc n)) = negsuc n

-- The loop of `backfillDownForSlice`, by what the clock shows at each round.
unfoldable pub backfill_from : ℕ → ℕ → List ℕ → ℤ → Option ℕ → Storage → Option ℕ × Storage
unfolding save_block_metrics
backfill_from oldest deadline [] next lowest s = (lowest, s)
backfill_from oldest deadline (now_ms ∷ times) (negsuc n) lowest s = (lowest, s)
backfill_from oldest deadline (now_ms ∷ times) (pos block) lowest s =
    let rest =
      backfill_from oldest deadline times (before block) (some block)
        (save_block_metrics block (backfill_next (before block)) s) in
    if leb oldest block && ltb now_ms deadline then rest else (lowest, s)

abbrev pub backfill_slice_ms : ℕ
backfill_slice_ms = 20_000

unfoldable pub backfill_down_for_slice : ℕ → ℕ → ℕ → List ℕ → Storage → Option ℕ × Storage
unfolding backfill_from
backfill_down_for_slice oldest safe_head started_at times s =
    backfill_from oldest (started_at + backfill_slice_ms) times
      (backfill_start safe_head s.backfill_next_block) none s
