-- ===== src/Scanner/Receipts/Complete.antt =====
-- src/scanner.ts, `getTransactionReceipts`: what the pool of workers keeps on every run.
use arkiv_chain_indexer.Common.{
  ℕ, zero, suc, ◌+◌, ◌≤◌, ◌<◌, ◌≡◌, ◌∙◌, ◌⊎◌, refl, sym, ap, inl, inr, Bool, true, false, ◌&&◌,
  ◌||◌, List, [], ◌∷◌, ◌++◌, arith, eqb, leb, length, get_elem?, Option, some, if◌then◌else◌,
  Bool-cases, eqb_iff, leb→le, leb-false→lt,
}
use mathlib.Core.Path.{subst}
use arkiv_chain_indexer.Scanner.Order.{up_from, up_from-append}
use arkiv_chain_indexer.Common.Try.{Try, returned}
use arkiv_chain_indexer.Query.Syntax.{Text}
use arkiv_chain_indexer.Scanner.Receipts.{
  Worker, ready, fetching, done, failed, Pool, smaller, copies, fetch_receipt_with_retry, start,
  take_index, store_receipt, fail, Step, takes, stores, fails, Steps, here, after,
}
use arkiv_chain_indexer.Scanner.Receipts.Fetched.{IsFilled, fetch_receipt_with_retry-IsFetched}

-- A worker that fetches the receipt at an index, or that has failed at some index.
abbrev fetches : ℕ → Worker → Bool
fetches i (fetching j) = eqb i j
fetches i failed = true
fetches i _ = false

abbrev is_fetching : ℕ → List Worker → Bool
is_fetching i [] = false
is_fetching i (w ∷ ws) = fetches i w || is_fetching i ws

abbrev is_returned : Worker → Bool
is_returned done = true
is_returned _ = false

abbrev has_returned : List Worker → Bool
has_returned [] = false
has_returned (w ∷ ws) = is_returned w || has_returned ws

abbrev pub all_returned : List Worker → Bool
all_returned [] = true
all_returned (w ∷ ws) = is_returned w && all_returned ws

is_fetching-append :
    (i : ℕ) (w : Worker) (ws ws' : List Worker)
    → is_fetching i (ws ++ w ∷ ws') ≡ (fetches i w || is_fetching i (ws ++ ws'))
is_fetching-append i w [] ws' = refl
is_fetching-append i w (x ∷ ws) ws' = ground (arith, is_fetching-append i w ws ws')

has_returned-append :
    (w : Worker) (ws ws' : List Worker)
    → has_returned (ws ++ w ∷ ws') ≡ (is_returned w || has_returned (ws ++ ws'))
has_returned-append w [] ws' = refl
has_returned-append w (x ∷ ws) ws' = ground (arith, has_returned-append w ws ws')

length-workers :
    (w : Worker) (ws ws' : List Worker) → length (ws ++ w ∷ ws') ≡ suc (length (ws ++ ws'))
length-workers w [] ws' = refl
length-workers w (x ∷ ws) ws' = ap suc (length-workers w ws ws')

module _ {H E A : Type 0} (rpc : H → ℕ → Try E A) (message : E → Text) (hashes : List H) where
  -- What every run keeps. `count` is how many requests were made.
  record Inv (size : ℕ) (s : Pool A) : Type 0 where
    pub count : ℕ
    pub requests : s.asked ≡ up_from 0 count
    pub below_next : s.next ≤ length hashes → count ≡ s.next
    pub below_length : length hashes ≤ s.next → count ≡ length hashes
    pub covered :
        (i : ℕ)
        → i < s.next
        → i < length hashes
        → IsFilled rpc message hashes s.receipts i ⊎ (is_fetching i s.workers ≡ true)
    pub closed : has_returned s.workers ≡ true → length hashes ≤ s.next
    pub same_size : length s.workers ≡ size

  copies-length : (n : ℕ) (w : Worker) → length (copies n w) ≡ n
  copies-length zero w = refl
  copies-length (suc n) w = ap suc (copies-length n w)

  copies-ready : (n : ℕ) → has_returned (copies n ready) ≡ false
  copies-ready zero = refl
  copies-ready (suc n) = copies-ready n

  start-Inv :
      (concurrency : ℕ)
      → Inv (smaller concurrency (length hashes)) (start rpc message hashes concurrency)
  unfolding start
  start-Inv concurrency = record {
    count = 0;
    requests = refl;
    below_next = λ h. refl;
    below_length = λ h. omega (arith, h);
    covered = λ i h k. absurd (omega (arith, h));
    closed = λ h. cc (copies-ready (smaller concurrency (length hashes)), h);
    same_size = copies-length (smaller concurrency (length hashes)) ready;
  }

  cover :
      {size : ℕ} (i : ℕ) (ws ws' : List Worker) (s : Pool A)
      → s.workers ≡ ws ++ ready ∷ ws'
      → Inv size s
      → i < s.next + 1
      → i < length hashes
      → IsFilled rpc message hashes s.receipts i
        ⊎ (is_fetching i (ws ++ fetching s.next ∷ ws') ≡ true)
  cover i ws ws' s e inv h k = elim (Bool-cases (eqb i s.next)) [
    | inl is ↦ inr (is_fetching-append i (fetching s.next) ws ws' ∙ rw is refl)
    | inr other ↦ elim (inv.covered i (ground (arith, other, h)) k) [
      | inl stored ↦ inl stored
      | inr busy ↦ inr (
          is_fetching-append i (fetching s.next) ws ws'
          ∙ rw other (sym (is_fetching-append i ready ws ws') ∙ sym (ap (is_fetching i) e) ∙ busy))
    ]
  ]

  not_this :
      (j i : ℕ) (ws ws' : List Worker)
      → eqb i j ≡ false
      → is_fetching j (ws ++ fetching i ∷ ws') ≡ true
      → is_fetching j (ws ++ ws') ≡ true
  not_this j i ws ws' other h =
      ground (arith, sym (is_fetching-append j (fetching i) ws ws') ∙ h, other)

  swap_size :
      (size : ℕ) (w w' : Worker) (ws ws' : List Worker) (s : Pool A)
      → s.workers ≡ ws ++ w ∷ ws'
      → length s.workers ≡ size
      → length (ws ++ w' ∷ ws') ≡ size
  swap_size size w w' ws ws' s e h =
      length-workers w' ws ws' ∙ sym (length-workers w ws ws') ∙ sym (ap length e) ∙ h

  take_index-Inv :
      (size : ℕ) (ws ws' : List Worker) (s : Pool A)
      → s.workers ≡ ws ++ ready ∷ ws'
      → Inv size s
      → Inv size (take_index rpc message hashes ws ws' s)
  unfolding take_index
  take_index-Inv size ws ws' s e inv = elim (Bool-cases (leb (length hashes) s.next)) [
    | inl over ↦
        rw (over, take_index)
          (record {
            count = inv.count;
            requests = inv.requests;
            below_next = λ h. ground (arith, over);
            below_length = λ h. inv.below_length (leb→le (length hashes) s.next over);
            covered = λ i h k. elim (inv.covered i (ground (arith, over)) k) [
              | inl stored ↦ inl stored
              | inr busy ↦ inr (
                  is_fetching-append i done ws ws'
                  ∙ sym (is_fetching-append i ready ws ws')
                  ∙ sym (ap (is_fetching i) e)
                  ∙ busy)
            ];
            closed = λ h. ground (arith, over);
            same_size = swap_size size ready done ws ws' s e inv.same_size;
          })
    | inr under ↦
        let before = leb-false→lt (length hashes) s.next under in
        let counted = inv.below_next (omega (arith, before)) in
        rw (under, take_index)
          (record {
            count = inv.count + 1;
            requests =
                ap (λ xs. xs ++ s.next ∷ []) inv.requests
                ∙ ap (λ k. up_from 0 inv.count ++ k ∷ []) (omega (arith, counted))
                ∙ up_from-append 0 inv.count 1;
            below_next = λ h. omega (arith, counted);
            below_length = λ h. omega (arith, counted, before, h);
            covered = λ i h k. cover i ws ws' s e inv h k;
            closed = λ h. absurd (
                omega (
                  arith,
                  before,
                  inv.closed (
                      ap has_returned e
                      ∙ has_returned-append ready ws ws'
                      ∙ sym (has_returned-append (fetching s.next) ws ws')
                      ∙ h),
                ));
            same_size = swap_size size ready (fetching s.next) ws ws' s e inv.same_size;
          })
  ]

  put-this :
      (i j : ℕ) (hash : H) (receipt : A) (receipts : ℕ → Option A)
      → eqb i j ≡ true
      → get_elem? hashes i ≡ some hash
      → fetch_receipt_with_retry rpc message hash ≡ returned receipt
      → IsFilled rpc message hashes (λ k. if eqb i k then some receipt else receipts k) j
  put-this i j hash receipt receipts same at got = record {
    hash = hash;
    receipt = receipt;
    hash_there = ap (get_elem? hashes) (sym ((eqb_iff i j).0 same)) ∙ at;
    receipt_there = rw same refl;
    fetched = fetch_receipt_with_retry-IsFetched rpc message hash receipt got;
  }

  put-other :
      (i j : ℕ) (receipt : A) (receipts : ℕ → Option A)
      → eqb i j ≡ false
      → IsFilled rpc message hashes receipts j
      → IsFilled rpc message hashes (λ k. if eqb i k then some receipt else receipts k) j
  put-other i j receipt receipts other filled = record {
    hash = filled.hash;
    receipt = filled.receipt;
    hash_there = filled.hash_there;
    receipt_there = rw other filled.receipt_there;
    fetched = filled.fetched;
  }

  store_receipt-Inv :
      (size i : ℕ) (hash : H) (receipt : A) (ws ws' : List Worker) (s : Pool A)
      → s.workers ≡ ws ++ fetching i ∷ ws'
      → get_elem? hashes i ≡ some hash
      → fetch_receipt_with_retry rpc message hash ≡ returned receipt
      → Inv size s
      → Inv size (store_receipt rpc message hashes i receipt ws ws' s)
  unfolding store_receipt
  store_receipt-Inv size i hash receipt ws ws' s e at got inv = record {
    count = inv.count;
    requests = inv.requests;
    below_next = inv.below_next;
    below_length = inv.below_length;
    covered = λ j h k. elim (Bool-cases (eqb i j)) [
      | inl is ↦ inl (put-this i j hash receipt s.receipts is at got)
      | inr other ↦ elim (inv.covered j h k) [
        | inl filled ↦ inl (put-other i j receipt s.receipts other filled)
        | inr busy ↦ inr (
            is_fetching-append j ready ws ws'
            ∙ not_this j i ws ws' other (sym (ap (is_fetching j) e) ∙ busy))
      ]
    ];
    closed = λ h. inv.closed (
        ap has_returned e
        ∙ has_returned-append (fetching i) ws ws'
        ∙ sym (has_returned-append ready ws ws')
        ∙ h);
    same_size = swap_size size (fetching i) ready ws ws' s e inv.same_size;
  }

  fail-Inv :
      (size i : ℕ) (ws ws' : List Worker) (s : Pool A)
      → s.workers ≡ ws ++ fetching i ∷ ws'
      → Inv size s
      → Inv size (fail rpc message hashes ws ws' s)
  unfolding fail
  fail-Inv size i ws ws' s e inv = record {
    count = inv.count;
    requests = inv.requests;
    below_next = inv.below_next;
    below_length = inv.below_length;
    covered = λ j h k. inr (is_fetching-append j failed ws ws');
    closed = λ h. inv.closed (
        ap has_returned e
        ∙ has_returned-append (fetching i) ws ws'
        ∙ sym (has_returned-append failed ws ws')
        ∙ h);
    same_size = swap_size size (fetching i) failed ws ws' s e inv.same_size;
  }

  Step-Inv : (size : ℕ) (s s' : Pool A) → Step rpc message hashes s s' → Inv size s → Inv size s'
  Step-Inv size s _ (takes ws ws' e) inv = take_index-Inv size ws ws' s e inv
  Step-Inv size s _ (stores i hash receipt ws ws' e at got) inv =
      store_receipt-Inv size i hash receipt ws ws' s e at got inv
  Step-Inv size s _ (fails i hash error ws ws' e at got) inv = fail-Inv size i ws ws' s e inv

  Steps-Inv : (size : ℕ) (s s' : Pool A) → Steps rpc message hashes s s' → Inv size s → Inv size s'
  Steps-Inv size s _ here inv = inv
  Steps-Inv size s s' (after {middle = m} steps step) inv =
      Step-Inv size m s' step (Steps-Inv size s m steps inv)

all_returned-idle : (i : ℕ) (ws : List Worker) → all_returned ws ≡ true → is_fetching i ws ≡ false
all_returned-idle i [] h = refl
all_returned-idle i (w ∷ ws) h = ground (arith, all_returned-idle i ws)

all_returned-has :
    (ws : List Worker) → all_returned ws ≡ true → 0 < length ws → has_returned ws ≡ true
all_returned-has [] h k = absurd (omega (arith, k))
all_returned-has (w ∷ ws) h k = ground arith

-- In whatever order the answers come in, once every worker has returned, each transaction's slot
-- holds a receipt that one of the first five requests of its hash answered, all those before it
-- refused with a 429, and `fetchReceiptWithRetry` was called exactly once for each transaction, in
-- the order of the block.
pub receipts_complete :
    {H E A : Type 0} (rpc : H → ℕ → Try E A) (message : E → Text) (hashes : List H)
    (concurrency : ℕ) (s : Pool A)
    → 0 < concurrency
    → Steps rpc message hashes (start rpc message hashes concurrency) s
    → all_returned s.workers ≡ true
    → ((i : ℕ) → i < length hashes → IsFilled rpc message hashes s.receipts i)
      × (s.asked ≡ up_from 0 (length hashes))
receipts_complete rpc message hashes concurrency s some_workers steps over =
    let size = smaller concurrency (length hashes) in
    let inv =
      Steps-Inv rpc message hashes size (start rpc message hashes concurrency) s steps
        (start-Inv rpc message hashes concurrency) in
    let all_taken : length hashes ≤ s.next = elim (Bool-cases (leb (length hashes) 0)) [
      | inl nothing ↦ ground (arith, nothing)
      | inr something ↦ inv.closed (
          all_returned-has s.workers over
            (subst (λ n. 0 < n) (sym inv.same_size) (ground (arith, something, some_workers))))
    ] in
    (
      λ i h. elim (inv.covered i (omega (arith, all_taken, h)) h) [
        | inl stored ↦ stored
        | inr busy ↦ cc (busy, all_returned-idle i s.workers over)
      ],
      inv.requests ∙ ap (up_from 0) (inv.below_length all_taken),
    )
