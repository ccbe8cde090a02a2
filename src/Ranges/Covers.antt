-- ===== src/Ranges/Covers.antt =====
-- src/ranges.ts: which blocks make a range.
use arkiv_chain_indexer.Common.{
  ℕ, zero, suc, ◌+◌, ◌-◌, ◌%◌, ◌≤◌, ◌<◌, ◌≡◌, ◌∙◌, refl, sym, ◌↔◌, ◌⊎◌, inl, inr, Bool, true, false,
  not, ◌&&◌, ◌||◌, List, [], ◌∷◌, arith, leb, ltb, eqb, Bool-cases, eqb_iff, List-cases, length,
}
use arkiv_chain_indexer.Common.Try.{Try, thrown, returned}
use arkiv_chain_indexer.Ranges.{
  StoredBlock, RangeError, BlockRangeMetrics, includes, numbers_from, delete_number, delete_blocks,
  complete_range, range_of, compute_block_range, assert_supported_range_size, range_end_for,
  is_supported_range_size,
}

includes-delete_number :
    (n k : ℕ) (ms : List ℕ) → includes n (delete_number k ms) ≡ (includes n ms && not (eqb k n))
unfolding includes delete_number
includes-delete_number n k [] = refl
includes-delete_number n k (m ∷ ms) = ground (arith, includes-delete_number n k ms)

includes-numbers_from :
    (n first count : ℕ)
    → includes n (numbers_from first count) ≡ (leb first n && ltb n (first + count))
unfolding includes numbers_from
includes-numbers_from n first zero = ground arith
includes-numbers_from n first (suc count) =
    ground (arith, includes-numbers_from n (first + 1) count)

-- A block of the list has the number.
unfoldable pub has_block : ℕ → List StoredBlock → Bool
has_block n [] = false
has_block n (block ∷ blocks) = eqb block.block_number n || has_block n blocks

includes-delete_blocks :
    (n : ℕ) (blocks : List StoredBlock) (ms : List ℕ)
    → includes n (delete_blocks blocks ms) ≡ (includes n ms && not (has_block n blocks))
unfolding delete_blocks has_block
includes-delete_blocks n [] ms = ground arith
includes-delete_blocks n (b ∷ blocks) ms = ground (
  arith,
  includes-delete_blocks n blocks (delete_number b.block_number ms),
  includes-delete_number n b.block_number ms,
)

range_of-never_missing :
    (a b c : ℕ) (blocks : List StoredBlock) (ns : List ℕ)
    → range_of a b c blocks ≡ thrown (RangeError.missing_blocks ns)
    → ⊥
unfolding range_of
range_of-never_missing a b c [] ns h = cc h
range_of-never_missing a b c (block ∷ blocks) ns h = cc h

module _ (range_start range_size : ℕ) (blocks : List StoredBlock) where
  -- What stands behind the checks.
  abbrev pub behind : Try RangeError BlockRangeMetrics
  behind = complete_range range_start (range_start + range_size - 1) range_size blocks

  -- The checks that stand before the blocks are counted off.
  abbrev pub IsAsked : Type 0
  IsAsked =
      (is_supported_range_size range_size ≡ true)
      × (range_start % range_size ≡ 0)
      × (length blocks ≡ range_size)

  abbrev pub IsRefused : Try RangeError BlockRangeMetrics → Type 0
  IsRefused r =
      (r ≡ thrown (RangeError.unsupported_range_size range_size))
      ⊎ ((r ≡ thrown (RangeError.misaligned_start range_start))
          ⊎ (r ≡ thrown (RangeError.wrong_count range_size (length blocks))))

  pub check_cases :
      (IsAsked × (compute_block_range range_start range_size blocks ≡ behind))
      ⊎ IsRefused (compute_block_range range_start range_size blocks)
  unfolding compute_block_range assert_supported_range_size range_end_for
  check_cases = elim (Bool-cases (is_supported_range_size range_size)) [
    | inr other ↦ inr (inl (rw other refl))
    | inl supported ↦ elim (Bool-cases (eqb (range_start % range_size) 0)) [
      | inr other ↦ inr (inr (inl (rw (supported, other) refl)))
      | inl aligned ↦ elim (Bool-cases (eqb (length blocks) range_size)) [
        | inr other ↦ inr (inr (inr (rw (supported, aligned, other) refl)))
        | inl counted ↦ inl (
          (
            supported,
            (eqb_iff (range_start % range_size) 0).0 aligned,
            (eqb_iff (length blocks) range_size).0 counted,
          ),
          rw (supported, aligned, counted) refl,
        )
      ]
    ]
  ]

  left_over : List ℕ
  left_over = delete_blocks blocks (numbers_from range_start range_size)

  left_over-exact :
      (n : ℕ)
      → includes n left_over
        ≡ ((leb range_start n && ltb n (range_start + range_size)) && not (has_block n blocks))
  unfolding left_over
  left_over-exact n = ground (
    arith,
    includes-delete_blocks n blocks (numbers_from range_start range_size),
    includes-numbers_from n range_start range_size,
  )

  behind-cases : (m : BlockRangeMetrics) → behind ≡ returned m → left_over ≡ []
  unfolding complete_range left_over
  behind-cases m h = elim (List-cases left_over) [
    | inl e ↦ e
    | inr (k, ks, e) ↦ cc (rw (e, complete_range) at h)
  ]

  -- A result of `compute_block_range` was made from as many blocks as the range has numbers, and
  -- every number of the range is that of a block.
  pub compute_block_range-covers :
      (m : BlockRangeMetrics)
      → compute_block_range range_start range_size blocks ≡ returned m
      → (n : ℕ) → range_start ≤ n
      → n < range_start + range_size
      → IsAsked × (has_block n blocks ≡ true)
  unfolding includes
  compute_block_range-covers m h n low high = elim check_cases [
    | inr (inl e) ↦ cc (h, e)
    | inr (inr (inl e)) ↦ cc (h, e)
    | inr (inr (inr e)) ↦ cc (h, e)
    | inl (asked, e) ↦
        (asked, ground (arith, rw (behind-cases m (sym e ∙ h)) at (left_over-exact n)))
  ]

  behind-missing : (ns : List ℕ) → behind ≡ thrown (RangeError.missing_blocks ns) → left_over ≡ ns
  unfolding complete_range left_over
  behind-missing ns h = elim (List-cases left_over) [
    | inl e ↦ absurd (
        range_of-never_missing range_start (range_start + range_size - 1) range_size blocks ns
          (rw (e, complete_range) at h))
    | inr (k, ks, e) ↦ cc (e, rw (e, complete_range) at h)
  ]

  -- The numbers that the error for an incomplete range names are exactly the numbers of the
  -- range that no block has.
  pub missing_blocks-exact :
      (ns : List ℕ)
      → compute_block_range range_start range_size blocks ≡ thrown (RangeError.missing_blocks ns)
      → (n : ℕ)
      → (includes n ns ≡ true)
        ↔ ((range_start ≤ n) × (n < range_start + range_size) × (has_block n blocks ≡ false))
  missing_blocks-exact ns h n = elim check_cases [
    | inr (inl e) ↦ cc (h, e)
    | inr (inr (inl e)) ↦ cc (h, e)
    | inr (inr (inr e)) ↦ cc (h, e)
    | inl (asked, e) ↦ ground (arith, rw (behind-missing ns (sym e ∙ h)) at (left_over-exact n))
  ]
