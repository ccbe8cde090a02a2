-- ===== src/Gaps/Missing.antt =====
-- src/fillGaps.ts: which blocks a cycle fills.
use arkiv_chain_indexer.Common.{
  ℕ, zero, suc, ◌+◌, ◌-◌, ◌||◌, ◌≤◌, ◌≡◌, ◌∙◌, refl, sym, ap, inl, inr, Bool, false, List, [], ◌∷◌,
  ◌++◌, arith, leb, ltb, if◌then◌else◌, length, take, Bool-cases, length-append, ltb-false→le,
}
use mathlib.Core.List.{append_assoc, append-nil}
use arkiv_chain_indexer.Scanner.{Storage, save_block_metrics, no_progress}
use arkiv_chain_indexer.Scanner.Order.{up_from}
use arkiv_chain_indexer.Gaps.{
  BlockGap, gap_size, expand_gap, expand_from, expand_gaps, attempts_from, fill_block_with_retry,
  Cycle, fill_blocks, run_cycle,
}

-- Every block of every gap, the first and the last of each included.
abbrev pub missing : List BlockGap → List ℕ
missing [] = []
missing (gap ∷ gaps) = up_from gap.gap_start (gap.gap_end + 1 - gap.gap_start) ++ missing gaps

length-up_from : (n k : ℕ) → length (up_from n k) ≡ k
length-up_from n zero = refl
length-up_from n (suc k) = ap suc (length-up_from (n + 1) k)

take-append_long :
    (k : ℕ) (xs ys : List ℕ) → length xs ≤ k → take k (xs ++ ys) ≡ xs ++ take (k - length xs) ys
take-append_long k [] ys h = ap (λ n. take n ys) (omega arith)
take-append_long zero (x ∷ xs) ys h = absurd (omega (arith, h))
take-append_long (suc k) (x ∷ xs) ys h =
    ap (λ zs. x ∷ zs) (take-append_long k xs ys (omega (arith, h)))
    ∙ ap (λ n. x ∷ xs ++ take n ys) (omega arith)

take_whole : (k : ℕ) (xs : List ℕ) → length xs ≤ k → take k xs ≡ xs
take_whole zero [] h = refl
take_whole (suc k) [] h = refl
take_whole zero (x ∷ xs) h = absurd (omega (arith, h))
take_whole (suc k) (x ∷ xs) h = ap (λ zs. x ∷ zs) (take_whole k xs (omega (arith, h)))

take-append_short : (k : ℕ) (xs ys : List ℕ) → k ≤ length xs → take k (xs ++ ys) ≡ take k xs
take-append_short zero xs ys h = refl
take-append_short (suc k) [] ys h = absurd (omega (arith, h))
take-append_short (suc k) (x ∷ xs) ys h =
    ap (λ zs. x ∷ zs) (take-append_short k xs ys (omega (arith, h)))

take-nil : (k : ℕ) → take {A = ℕ} k [] ≡ []
take-nil zero = refl
take-nil (suc k) = refl

both_parts :
    {xs ys : List ℕ} {a b : Bool} → xs ≡ ys → a ≡ b → ◌≡◌ {A = List ℕ × Bool} (xs, a) (ys, b)
both_parts {ys = ys} {a = a} e h = ap (λ zs. (zs, a)) e ∙ ap (λ c. (ys, c)) h

-- A list of blocks with the missing ones up to the cap, and whether that leaves some out.
abbrev capped : ℕ → List ℕ → List ℕ → List ℕ × Bool
capped max blocks more =
    (blocks ++ take (max - length blocks) more, ltb max (length blocks + length more))

expand_gap-take :
    (max left block : ℕ) (blocks : List ℕ)
    → length blocks ≤ max
    → expand_gap max left block blocks ≡ capped max blocks (up_from block left)
unfolding expand_gap
expand_gap-take max zero block blocks h =
    both_parts
      (sym (append-nil blocks) ∙ ap (λ xs. blocks ++ xs) (sym (take-nil (max - length blocks))))
      (ground arith)
expand_gap-take max (suc left) block blocks h = elim (Bool-cases (leb max (length blocks))) [
  | inl full ↦
      let none_left : 0 ≡ max - length blocks = ground (arith, full) in
      rw (full, expand_gap)
        (both_parts
          (sym (append-nil blocks)
            ∙ ap (λ n. blocks ++ take n (block ∷ up_from (block + 1) left)) none_left)
          (ground (arith, full)))
  | inr some_left ↦
      let grown = length-append blocks (block ∷ []) in
      let fits : length (blocks ++ block ∷ []) ≤ max = ground (arith, some_left, grown) in
      let step : suc (max - length (blocks ++ block ∷ [])) ≡ max - length blocks =
        omega (arith, fits, grown) in
      let sum : length (blocks ++ block ∷ []) + length (up_from (block + 1) left)
          ≡ length blocks + length (block ∷ up_from (block + 1) left) =
        omega (arith, grown) in
      rw (some_left, expand_gap)
        (expand_gap-take max left (block + 1) (blocks ++ block ∷ []) fits
          ∙ both_parts
              (append_assoc blocks (block ∷ []) _
                ∙ ap (λ n. blocks ++ take n (block ∷ up_from (block + 1) left)) step)
              (ap (ltb max) sum))
]

capped-append :
    (max : ℕ) (blocks xs ys : List ℕ)
    → length blocks + length xs ≤ max
    → capped max (blocks ++ xs) ys ≡ capped max blocks (xs ++ ys)
capped-append max blocks xs ys h =
    let grown = length-append blocks xs in
    let sum = length-append xs ys in
    let fewer : max - length (blocks ++ xs) ≡ max - length blocks - length xs =
      omega (arith, grown) in
    both_parts
      (append_assoc blocks xs _
        ∙ ap (λ n. blocks ++ (xs ++ take n ys)) fewer
        ∙ ap (λ zs. blocks ++ zs)
            (sym (take-append_long (max - length blocks) xs ys (omega (arith, h)))))
      (ap (ltb max) (omega (arith, grown, sum)))

expand_from-take :
    (max : ℕ) (gaps : List BlockGap) (blocks : List ℕ)
    → length blocks ≤ max
    → expand_from max gaps blocks ≡ capped max blocks (missing gaps)
unfolding expand_from
expand_from-take max [] blocks h =
    both_parts
      (sym (append-nil blocks) ∙ ap (λ xs. blocks ++ xs) (sym (take-nil (max - length blocks))))
      (ground arith)
expand_from-take max (gap ∷ gaps) blocks h =
    let xs = up_from gap.gap_start (gap_size gap) in
    let one = expand_gap-take max (gap_size gap) gap.gap_start blocks h in
    elim (Bool-cases (ltb max (length blocks + length xs))) [
      | inl over ↦
          rw (one, over, expand_from)
            (both_parts
              (ap (λ zs. blocks ++ zs)
                (sym (
                  take-append_short (max - length blocks) xs (missing gaps)
                    (ground (arith, over)))))
              (ground (arith, over, length-append xs (missing gaps))))
      | inr under ↦
          let room : length blocks + length xs ≤ max = ltb-false→le max _ under in
          let whole : blocks ++ take (max - length blocks) xs ≡ blocks ++ xs =
            ap (λ zs. blocks ++ zs) (take_whole (max - length blocks) xs (omega (arith, room))) in
          rw (one, under, whole, expand_from)
            (expand_from-take max gaps (blocks ++ xs) (omega (arith, length-append blocks xs, room))
              ∙ capped-append max blocks xs (missing gaps) room)
    ]

-- The gaps are laid out as all their blocks, ascending in each, cut off at the cap; `truncated` tells
-- exactly whether blocks were cut off.
pub expand_gaps-take :
    (gaps : List BlockGap) (max_blocks : ℕ)
    → expand_gaps gaps max_blocks
      ≡ (take max_blocks (missing gaps), ltb max_blocks (length (missing gaps)))
unfolding expand_gaps
expand_gaps-take gaps max_blocks =
    expand_from-take max_blocks gaps [] (omega arith)
    ∙ both_parts (ap (λ n. take n (missing gaps)) (omega arith)) (ap (ltb max_blocks) (omega arith))

abbrev pub filter : (ℕ → Bool) → List ℕ → List ℕ
filter p [] = []
filter p (x ∷ xs) = if p x then x ∷ filter p xs else filter p xs

-- One of the attempts 1 to `n` succeeds.
abbrev pub some_attempt : (ℕ → Bool) → ℕ → Bool
some_attempt succeeds zero = false
some_attempt succeeds (suc n) = succeeds (suc n) || some_attempt succeeds n

-- One of the `k` attempts from `a` on succeeds.
abbrev some_from : (ℕ → Bool) → ℕ → ℕ → Bool
some_from succeeds a zero = false
some_from succeeds a (suc k) = succeeds a || some_from succeeds (a + 1) k

attempts_from-some_from :
    (succeeds : ℕ → Bool) (left a : ℕ) → attempts_from succeeds left a ≡ some_from succeeds a left
unfolding attempts_from
attempts_from-some_from succeeds zero a = refl
attempts_from-some_from succeeds (suc left) a =
    ground (arith, attempts_from-some_from succeeds left (a + 1))

-- The last attempt split off.
some_from-last :
    (succeeds : ℕ → Bool) (a k : ℕ)
    → some_from succeeds a (suc k) ≡ (succeeds (a + k) || some_from succeeds a k)
some_from-last succeeds a zero = let same : a + 0 ≡ a = omega arith in rw same refl
some_from-last succeeds a (suc k) =
    let same : a + 1 + k ≡ a + suc k = omega arith in
    ap (λ b. succeeds a || b)
      (some_from-last succeeds (a + 1) k
        ∙ ap (λ i. succeeds i || some_from succeeds (a + 1) k) same)
    ∙ or_swap (succeeds a) (succeeds (a + suc k)) (some_from succeeds (a + 1) k)
  where
    or_swap : (x y z : Bool) → (x || (y || z)) ≡ (y || (x || z))
    or_swap x y z = ground arith

attempts_from-some_attempt :
    (succeeds : ℕ → Bool) (n : ℕ) → attempts_from succeeds n 1 ≡ some_attempt succeeds n
attempts_from-some_attempt succeeds n = attempts_from-some_from succeeds n 1 ∙ by_last n
  where
    by_last : (k : ℕ) → some_from succeeds 1 k ≡ some_attempt succeeds k
    by_last zero = refl
    by_last (suc k) =
        let same : 1 + k ≡ suc k = omega arith in
        some_from-last succeeds 1 k
        ∙ ap (λ i. succeeds i || some_from succeeds 1 k) same
        ∙ ap (λ b. succeeds (suc k) || b) (by_last k)

module _ (scans : ℕ → ℕ → Bool) (max_retries : ℕ) where
  -- One of the attempts that the gap filler may make at the block succeeds.
  abbrev pub is_readable : ℕ → Bool
  is_readable block = some_attempt (scans block) max_retries

  fill_blocks-filter :
      (is_stopping : ℕ → Bool)
      → ((left : ℕ) → is_stopping left ≡ false)
      → (blocks : List ℕ) (c : Cycle)
      → let r = fill_blocks scans max_retries is_stopping blocks c in
        (r.storage.saved ≡ c.storage.saved ++ filter is_readable blocks)
        × (r.filled ≡ c.filled + length (filter is_readable blocks))
        × (r.filled + r.failed ≡ c.filled + c.failed + length blocks)
        × (r.storage.last_successful_block ≡ c.storage.last_successful_block)
        × (r.storage.backfill_next_block ≡ c.storage.backfill_next_block)
  unfolding fill_blocks fill_block_with_retry save_block_metrics
  fill_blocks-filter is_stopping never [] c =
      (sym (append-nil c.storage.saved), omega arith, omega arith, refl, refl)
  fill_blocks-filter is_stopping never (block ∷ blocks) c =
      let same = attempts_from-some_attempt (scans block) max_retries in
      elim (Bool-cases (is_readable block)) [
        | inl ok ↦
            let (order, filled, all_done, last, next) =
              fill_blocks-filter is_stopping never blocks (record {
                filled = c.filled + 1;
                failed = c.failed;
                storage = save_block_metrics block no_progress c.storage;
              }) in
            rw (never (length blocks), same, ok, fill_blocks, fill_block_with_retry)
              (
                order ∙ append_assoc c.storage.saved (block ∷ []) _,
                omega (arith, filled),
                omega (arith, all_done),
                last,
                next,
              )
        | inr unreadable ↦
            let (order, filled, all_done, last, next) =
              fill_blocks-filter is_stopping never blocks
                (record { filled = c.filled; failed = c.failed + 1; storage = c.storage }) in
            rw (never (length blocks), same, unreadable, fill_blocks, fill_block_with_retry)
              (order, filled, omega (arith, all_done), last, next)
      ]

  -- A cycle that is not stopped saves, of the missing blocks up to the cap and in their order,
  -- those at which one of the attempts 1 to `max_retries` succeeds. It counts these as filled and
  -- the others as failed, and moves neither the forward nor the backfill mark.
  pub run_cycle-filter :
      (is_stopping : ℕ → Bool) (gaps : List BlockGap) (max_blocks : ℕ) (s : Storage)
      → ((left : ℕ) → is_stopping left ≡ false)
      → let r = run_cycle scans max_retries is_stopping gaps max_blocks s in
        let due = take max_blocks (missing gaps) in
        (r.storage.saved ≡ s.saved ++ filter is_readable due)
        × (r.filled ≡ length (filter is_readable due))
        × (r.filled + r.failed ≡ length due)
        × (r.storage.last_successful_block ≡ s.last_successful_block)
        × (r.storage.backfill_next_block ≡ s.backfill_next_block)
  unfolding run_cycle
  run_cycle-filter is_stopping gaps max_blocks s never =
      let (order, filled, all_done, last, next) =
        fill_blocks-filter is_stopping never (expand_gaps gaps max_blocks).0
          (record { filled = 0; failed = 0; storage = s }) in
      let due = ap (λ p. p.0) (expand_gaps-take gaps max_blocks) in
      (
        order ∙ ap (λ xs. s.saved ++ filter is_readable xs) due,
        filled ∙ ap (λ xs. 0 + length (filter is_readable xs)) due ∙ omega arith,
        all_done ∙ ap (λ xs. 0 + 0 + length xs) due ∙ omega arith,
        last,
        next,
      )
