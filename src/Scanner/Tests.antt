-- ===== src/Scanner/Tests.antt =====
-- The scanner on a few blocks.
use arkiv_chain_indexer.Common.{
  ℕ, ◌+◌, ◌-◌, ◌≤◌, ◌<◌, ◌≡◌, refl, inr, none, some, leb, if◌then◌else◌, eqb, ◌&&◌, List, [], ◌∷◌,
  ◌++◌, arith, length,
}
use arkiv_chain_indexer.Common.Int.{pos}
use arkiv_chain_indexer.Scanner.{Storage, scan_forward_to_safe_head}
use arkiv_chain_indexer.Scanner.Order.{
  up_from, down_from, forward_runs, forward_runs-up_from, scan_forward-reaches, Slice,
  backfill_slices, backfill_slices-down_from,
}
use arkiv_chain_indexer.Scanner.Receipts.{
  ready, fetching, done, Pool, is_rate_limited, fetch_attempts, start, take_index, store_receipt,
  takes, stores, here, after,
}
use arkiv_chain_indexer.Common.Try.{Try, thrown, returned}
use arkiv_chain_indexer.Query.Syntax.{Text, codes}
use arkiv_chain_indexer.RpcKeyRing.{includes, starts_with}
use arkiv_chain_indexer.Scanner.Receipts.Fetched.{IsFilled}
use arkiv_chain_indexer.Scanner.Receipts.Complete.{receipts_complete}

abbrev stored : Storage
stored = record {
  last_successful_block = some 4;
  backfill_next_block = some (pos 3);
  saved = 4 ∷ [];
}

-- A run that is stopped after two blocks, and one that reaches block 8.
forward_runs-up_from_example :
    (k : ℕ) × ((forward_runs ((2, 7) ∷ (9, 8) ∷ []) stored).saved
      ≡ stored.saved ++ up_from (4 + 1) k)
    × ((forward_runs ((2, 7) ∷ (9, 8) ∷ []) stored).last_successful_block ≡ some (4 + k))
forward_runs-up_from_example = forward_runs-up_from ((2, 7) ∷ (9, 8) ∷ []) stored 4 refl

-- A cold start at block 6.
abbrev cold : Storage
cold = record { last_successful_block = none; backfill_next_block = some (pos 5); saved = 6 ∷ [] }

scan_forward-reaches_example :
    ((scan_forward_to_safe_head 9 8 6 cold).1.last_successful_block
      ≡ (if leb 6 8 then some 8 else cold.last_successful_block))
    × ((scan_forward_to_safe_head 9 8 6 cold).1.saved ≡ cold.saved ++ up_from 6 (8 + 1 - 6))
scan_forward-reaches_example = scan_forward-reaches 9 8 6 6 cold (inr (refl, refl)) (omega arith)

abbrev slices : List Slice
slices =
    record { safe_head = 9; started_at = 0; times = 5 ∷ 6 ∷ 30_000 ∷ [] }
    ∷ record { safe_head = 9; started_at = 40_000; times = 40_001 ∷ 40_002 ∷ 40_003 ∷ [] }
    ∷ []

backfill_slices-down_from_example :
    (k : ℕ) × ((backfill_slices 1 slices stored).saved ≡ stored.saved ++ down_from 3 k)
    × (k ≤ 3 + 1 - 1)
backfill_slices-down_from_example =
    backfill_slices-down_from 1 slices stored 3 refl (omega arith, (omega arith, tt))

abbrev hashes : List ℕ
hashes = 10 ∷ 20 ∷ []

-- The second receipt is refused at first.
abbrev rpc : ℕ → ℕ → Try Text ℕ
rpc hash attempt =
    if eqb hash 20 && eqb attempt 1 then thrown (codes "HTTP 429") else returned (hash + 1)

abbrev message : Text → Text
message error = error

-- Two workers that take a hash each, the second answered first.
abbrev pool0 : Pool ℕ
pool0 = start rpc message hashes 5

abbrev pool1 : Pool ℕ
pool1 = take_index rpc message hashes [] (ready ∷ []) pool0

abbrev pool2 : Pool ℕ
pool2 = take_index rpc message hashes (fetching 0 ∷ []) [] pool1

abbrev pool3 : Pool ℕ
pool3 = store_receipt rpc message hashes 1 21 (fetching 0 ∷ []) [] pool2

abbrev pool4 : Pool ℕ
pool4 = take_index rpc message hashes (fetching 0 ∷ []) [] pool3

abbrev pool5 : Pool ℕ
pool5 = store_receipt rpc message hashes 0 11 [] (done ∷ []) pool4

abbrev pool6 : Pool ℕ
pool6 = take_index rpc message hashes [] (done ∷ []) pool5

receipts_complete_example :
    ((i : ℕ) → i < length hashes → IsFilled rpc message hashes pool6.receipts i)
    × (pool6.asked ≡ up_from 0 (length hashes))
unfolding start take_index store_receipt fetch_attempts is_rate_limited includes starts_with codes
receipts_complete_example =
    receipts_complete rpc message hashes 5 pool6 (omega arith)
      (after
        (after
          (after
            (after
              (after (after here (takes [] (ready ∷ []) refl)) (takes (fetching 0 ∷ []) [] refl))
              (stores 1 20 21 (fetching 0 ∷ []) [] refl refl refl))
            (takes (fetching 0 ∷ []) [] refl))
          (stores 0 10 11 [] (done ∷ []) refl refl refl))
        (takes [] (done ∷ []) refl))
      refl
