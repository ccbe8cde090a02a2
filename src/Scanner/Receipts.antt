-- ===== src/Scanner/Receipts.antt =====
-- src/scanner.ts, `getTransactionReceipts`: a pool of workers that share the next index, and
-- `fetchReceiptWithRetry`, the attempts at a receipt. A step is what a worker does up to its next
-- `await`, so a run is any order of the workers. The waits between the attempts are left out. A
-- worker whose fetch throws stays `failed`; that rejects the call, while the others go on.
pub mod Complete
pub mod Fetched
use arkiv_chain_indexer.Common.{
  ℕ, zero, suc, ◌+◌, ◌≡◌, Bool, true, false, ◌&&◌, ◌||◌, Option, none, some, List, [], ◌∷◌, ◌++◌,
  eqb, ltb, leb, not, if◌then◌else◌, length, get_elem?,
}
use arkiv_chain_indexer.Common.Try.{Try, thrown, returned}
use arkiv_chain_indexer.Query.Syntax.{Text}
use arkiv_chain_indexer.RpcKeyRing.{includes}

pub data Worker : Type 0 where
  ready : Worker
  fetching : ℕ → Worker
  done : Worker
  failed : Worker

-- The shared index, the workers, the slots, and the indexes at which a receipt was asked for, in
-- that order.
pub record Pool (A : Type 0) : Type 0 where
  pub next : ℕ
  pub workers : List Worker
  pub receipts : ℕ → Option A
  pub asked : List ℕ

-- `Math.min`
abbrev pub smaller : ℕ → ℕ → ℕ
smaller a b = if leb a b then a else b

abbrev pub copies : ℕ → Worker → List Worker
copies zero w = []
copies (suc n) w = w ∷ copies n w

abbrev pub receipt_retry_max_attempts : ℕ
receipt_retry_max_attempts = 5

-- `rpc hash k` is what the k-th request of the receipt of a hash gives; each hash is fetched once.
module _ {H E A : Type 0} (rpc : H → ℕ → Try E A) (message : E → Text) where
  -- `message.includes("429")`
  unfoldable pub is_rate_limited : E → Bool
  is_rate_limited error = includes (52 ∷ 50 ∷ 57 ∷ []) (message error)

  abbrev pub retry : ℕ → Try E A → Try E A → Try E A
  retry attempt (returned receipt) rest = returned receipt
  retry attempt (thrown error) rest =
      if not (is_rate_limited error) || leb receipt_retry_max_attempts attempt
      then thrown error
      else rest

  -- The loop from an attempt on, in so many rounds and one more. From the first attempt five are
  -- enough, since the fifth attempt returns or throws.
  unfoldable pub fetch_attempts : ℕ → ℕ → H → Try E A
  fetch_attempts zero attempt hash = rpc hash attempt
  fetch_attempts (suc rounds) attempt hash =
      let rest = fetch_attempts rounds (attempt + 1) hash in retry attempt (rpc hash attempt) rest

  abbrev pub fetch_receipt_with_retry : H → Try E A
  fetch_receipt_with_retry hash = fetch_attempts receipt_retry_max_attempts 1 hash

module _ {H E A : Type 0} (rpc : H → ℕ → Try E A) (message : E → Text) (hashes : List H) where
  unfoldable pub start : ℕ → Pool A
  start concurrency = record {
    next = 0;
    workers = copies (smaller concurrency (length hashes)) ready;
    receipts = λ i. none;
    asked = [];
  }

  -- `const index = next; next += 1; if (index >= hashes.length) return;` and the call of the fetch.
  unfoldable pub take_index : List Worker → List Worker → Pool A → Pool A
  take_index ws ws' s =
      if leb (length hashes) s.next
      then record s { next = s.next + 1; workers = ws ++ done ∷ ws' }
      else record s {
        next = s.next + 1;
        workers = ws ++ fetching s.next ∷ ws';
        asked = s.asked ++ s.next ∷ [];
      }

  -- `receipts[index] = …`
  unfoldable pub store_receipt : ℕ → A → List Worker → List Worker → Pool A → Pool A
  store_receipt i receipt ws ws' s = record s {
    workers = ws ++ ready ∷ ws';
    receipts = λ j. if eqb i j then some receipt else s.receipts j;
  }

  unfoldable pub fail : List Worker → List Worker → Pool A → Pool A
  fail ws ws' s = record s { workers = ws ++ failed ∷ ws' }

  pub data Step (s : Pool A) : Pool A → Type 0 where
    takes : (ws ws' : List Worker) → s.workers ≡ ws ++ ready ∷ ws' → Step s (take_index ws ws' s)
    stores :
        (i : ℕ) (hash : H) (receipt : A) (ws ws' : List Worker)
        → s.workers ≡ ws ++ fetching i ∷ ws'
        → get_elem? hashes i ≡ some hash
        → fetch_receipt_with_retry rpc message hash ≡ returned receipt
        → Step s (store_receipt i receipt ws ws' s)
    fails :
        (i : ℕ) (hash : H) (error : E) (ws ws' : List Worker)
        → s.workers ≡ ws ++ fetching i ∷ ws'
        → get_elem? hashes i ≡ some hash
        → fetch_receipt_with_retry rpc message hash ≡ thrown error
        → Step s (fail ws ws' s)

  pub data Steps (s : Pool A) : Pool A → Type 0 where
    here : Steps s s
    after : {middle last : Pool A} → Steps s middle → Step middle last → Steps s last
