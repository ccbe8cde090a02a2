-- ===== src/Scanner/Receipts/Fetched.antt =====
-- src/scanner.ts, `fetchReceiptWithRetry`: what an answer of the retries is.
use arkiv_chain_indexer.Common.{
  ℕ, zero, suc, ◌+◌, ◌≤◌, ◌<◌, ◌≡◌, ◌⊎◌, refl, sym, ap, inl, inr, Bool, true, false, ◌||◌, not,
  Option, some, List, [], ◌∷◌, arith, eqb, leb, get_elem?, Bool-cases, eqb_iff,
}
use mathlib.Core.Path.{subst}
use arkiv_chain_indexer.Common.Try.{Try, thrown, returned}
use arkiv_chain_indexer.Query.Syntax.{Text}
use arkiv_chain_indexer.RpcKeyRing.{includes}
use arkiv_chain_indexer.Scanner.Receipts.{
  receipt_retry_max_attempts, is_rate_limited, retry, fetch_attempts, fetch_receipt_with_retry,
}

is_thrown : {E A : Type 0} → Try E A → Bool
is_thrown (thrown e) = true
is_thrown (returned r) = false

-- The k-th request of the receipt of a hash answered, for a k of at most five, and every request
-- before it was refused with a message that has 429 in it.
pub record IsFetched {H E A : Type 0} (rpc : H → ℕ → Try E A) (message : E → Text) (hash : H)
    (receipt : A) : Type 0 where
  pub attempt : ℕ
  pub from_one : 1 ≤ attempt
  pub to_five : attempt ≤ 5
  pub answered : rpc hash attempt ≡ returned receipt
  pub limited :
      (j : ℕ)
      → 1 ≤ j
      → j < attempt
      → (e : E) × (rpc hash j ≡ thrown e) × (includes (52 ∷ 50 ∷ 57 ∷ []) (message e) ≡ true)

-- The slot of an index is filled with a receipt of the hash at that index.
pub record IsFilled {H E A : Type 0} (rpc : H → ℕ → Try E A) (message : E → Text) (hashes : List H)
    (receipts : ℕ → Option A) (i : ℕ) : Type 0 where
  pub hash : H
  pub receipt : A
  pub hash_there : get_elem? hashes i ≡ some hash
  pub receipt_there : receipts i ≡ some receipt
  pub fetched : IsFetched rpc message hash receipt

module _ {H E A : Type 0} (rpc : H → ℕ → Try E A) (message : E → Text) where
  -- Every request from the first to before an attempt was refused with a 429.
  abbrev AllLimited : H → ℕ → Type 0
  AllLimited hash attempt =
      (j : ℕ)
      → 1 ≤ j
      → j < attempt
      → (e : E) × (rpc hash j ≡ thrown e) × (includes (52 ∷ 50 ∷ 57 ∷ []) (message e) ≡ true)

  limited_more :
      (hash : H) (attempt : ℕ) (e : E)
      → AllLimited hash attempt
      → rpc hash attempt ≡ thrown e
      → includes (52 ∷ 50 ∷ 57 ∷ []) (message e) ≡ true
      → AllLimited hash (attempt + 1)
  limited_more hash attempt e before now is j h k = elim (Bool-cases (eqb j attempt)) [
    | inl same ↦
        subst
          (λ n.
            (e : E) × (rpc hash n ≡ thrown e) × (includes (52 ∷ 50 ∷ 57 ∷ []) (message e) ≡ true))
          (sym ((eqb_iff j attempt).0 same)) (e, now, is)
    | inr other ↦ before j h (ground (arith, other, k))
  ]

  -- An answer of a round is the request's, or that of the rounds after a request refused with 429.
  retry-returned :
      (attempt : ℕ) (t rest : Try E A) (r : A)
      → retry rpc message attempt t rest ≡ returned r
      → (t ≡ returned r)
        ⊎ ((e : E) × (t ≡ thrown e)
            × (is_rate_limited rpc message e ≡ true)
            × (attempt < receipt_retry_max_attempts)
            × (rest ≡ returned r))
  retry-returned attempt (returned r') rest r h = inl h
  retry-returned attempt (thrown e) rest r h =
      elim (Bool-cases (not (is_rate_limited rpc message e) || leb 5 attempt)) [
        | inl stops ↦ cc (ap is_thrown (rw stops at h))
        | inr again ↦ inr (e, refl, ground (arith, again), ground (arith, again), rw again at h)
      ]

  fetch_attempts-IsFetched :
      (rounds attempt : ℕ) (hash : H) (r : A)
      → attempt + rounds ≡ 6
      → 1 ≤ attempt
      → attempt ≤ 5
      → AllLimited hash attempt
      → fetch_attempts rpc message rounds attempt hash ≡ returned r
      → IsFetched rpc message hash r
  unfolding fetch_attempts is_rate_limited
  fetch_attempts-IsFetched zero attempt hash r total low high before h =
      absurd (omega (arith, total, high))
  fetch_attempts-IsFetched (suc rounds) attempt hash r total low high before h =
      elim (retry-returned attempt (rpc hash attempt)
        (fetch_attempts rpc message rounds (attempt + 1) hash) r h) [
          | inl answered ↦ record {
            attempt = attempt;
            from_one = low;
            to_five = high;
            answered = answered;
            limited = before;
          }
          | inr (e, refused, is, less, rest) ↦
              fetch_attempts-IsFetched rounds (attempt + 1) hash r (omega (arith, total))
                (omega arith) (omega (arith, less)) (limited_more hash attempt e before refused is)
                rest
        ]

  pub fetch_receipt_with_retry-IsFetched :
      (hash : H) (r : A)
      → fetch_receipt_with_retry rpc message hash ≡ returned r
      → IsFetched rpc message hash r
  fetch_receipt_with_retry-IsFetched hash r h =
      fetch_attempts-IsFetched 5 1 hash r refl (omega arith) (omega arith)
        (λ j k l. absurd (omega (arith, k, l))) h
