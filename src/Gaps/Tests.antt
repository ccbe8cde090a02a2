-- ===== src/Gaps/Tests.antt =====
-- Two gaps of three blocks in all, of which a cycle takes two.
use arkiv_chain_indexer.Common.{
  ℕ, ◌+◌, ◌≡◌, refl, Bool, false, none, some, List, [], ◌∷◌, ◌++◌, ltb, length, take, leb, eqb, not,
  ◌&&◌,
}
use arkiv_chain_indexer.Scanner.{Storage}
use arkiv_chain_indexer.Gaps.{BlockGap, expand_gaps, run_cycle, Cycle}
use arkiv_chain_indexer.Gaps.Missing.{
  missing, expand_gaps-take, filter, is_readable, run_cycle-filter,
}

abbrev gaps : List BlockGap
gaps = record { gap_start = 3; gap_end = 4 } ∷ record { gap_start = 9; gap_end = 9 } ∷ []

expand_gaps-take_example :
    expand_gaps gaps 2 ≡ (take 2 (missing gaps), ltb 2 (length (missing gaps)))
expand_gaps-take_example = expand_gaps-take gaps 2

abbrev stored : Storage
stored = record { last_successful_block = some 10; backfill_next_block = none; saved = 10 ∷ [] }

-- Block 3 is read at the second attempt, block 4 never.
abbrev scans : ℕ → ℕ → Bool
scans block attempt = not (eqb block 4) && leb 2 attempt

abbrev cycle : Cycle
cycle = run_cycle scans 3 (λ left. false) gaps 3 stored

run_cycle-filter_example :
    (cycle.storage.saved ≡ stored.saved ++ filter (is_readable scans 3) (take 3 (missing gaps)))
    × (cycle.filled ≡ length (filter (is_readable scans 3) (take 3 (missing gaps))))
    × (cycle.filled + cycle.failed ≡ length (take 3 (missing gaps)))
    × (cycle.storage.last_successful_block ≡ stored.last_successful_block)
    × (cycle.storage.backfill_next_block ≡ stored.backfill_next_block)
run_cycle-filter_example = run_cycle-filter scans 3 (λ left. false) gaps 3 stored (λ left. refl)
