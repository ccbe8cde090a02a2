-- ===== src/Aggregator/Windows/Tests.antt =====
-- The aggregation of a small storage.
use arkiv_chain_indexer.Common.{refl, false, none, some, arith, eqb, not}
use arkiv_chain_indexer.Aggregator.{Storage, AggregateRangesOptions, AggregateRangesResult}
use arkiv_chain_indexer.Aggregator.Windows.{Visits, aggregate_between-Visits}

-- The range from 10 on is incomplete.
abbrev stored : Storage
stored = record {
  min_stored_block = some 0;
  max_stored_block = some 23;
  latest_complete_range_start = λ _ _. none;
  aggregate = λ start size. not (eqb start 10);
}

abbrev options : AggregateRangesOptions
options = record {
  range_size = 5;
  from_block = none;
  to_block = none;
  skip_completed = false;
  stop_after_incomplete = false;
}

aggregate_between-Visits_example : (r : AggregateRangesResult) × Visits stored options 0 20 r
aggregate_between-Visits_example =
    aggregate_between-Visits stored options 0 20 (refl, refl, omega arith)
