-- ===== src/Aggregator/Windows.antt =====
-- src/aggregator.ts: which ranges the loop visits.
mod Tests
use arkiv_chain_indexer.Common.{
  ℕ, zero, suc, ◌+◌, ◌-◌, ◌*◌, ◌%◌, ◌≤◌, ◌<◌, ◌≡◌, ◌∙◌, refl, sym, ap, ◌↔◌, ◌⊎◌, inl, inr, Bool,
  true, false, not, ◌&&◌, ◌||◌, Option, none, some, List, [], ◌∷◌, arith, leb, ltb, eqb, Bool-cases,
  Option-cases, eqb_iff, length, if◌then◌else◌,
}
use native.Mathlib.Nat.{mod-eq_of_lt, mod-eq-sub-mod}
use mathlib.Core.Path.{subst}
use arkiv_chain_indexer.Aggregator.{
  Storage, Window, windows_from, count_written, count_incomplete, rounds, AggregateRangesOptions,
  AggregateRangesResult, aggregate_between, skip, nothing, tail_result,
}

-- The loop ends: a round either stops it or moves at least one block on.
pub windows_from-total :
    (storage : Storage) (stop : Bool) (size last fuel start : ℕ)
    → 0 < size
    → last + 2 ≤ start + fuel
    → 0 < fuel
    → (ws : List Window) × (windows_from storage stop size last fuel start ≡ some ws)
unfolding windows_from
windows_from-total storage stop size last zero start positive enough some_fuel =
    absurd (omega (arith, some_fuel))
windows_from-total storage stop size last (suc fuel) start positive enough some_fuel =
    elim (Bool-cases (ltb last start)) [
      | inl over ↦ ([], rw over refl)
      | inr within ↦ elim (Bool-cases (not (storage.aggregate start size) && stop)) [
        | inl stopped ↦ (
          record { start = start; written = storage.aggregate start size } ∷ [],
          rw (within, stopped) refl,
        )
        | inr goes ↦
            let (ws, e) =
              windows_from-total storage stop size last fuel (start + size) positive
                (omega (arith, enough, positive)) (grind (arith, within, enough)) in
            (
              record { start = start; written = storage.aggregate start size } ∷ ws,
              rw (within, goes, e) refl,
            )
      ]
    ]

-- `onWindow` was called for the range that starts there.
unfoldable pub visits : ℕ → List Window → Bool
visits n [] = false
visits n (w ∷ ws) = eqb w.start n || visits n ws

-- The starts that a loop from `start` to `last` should visit.
abbrev pub IsDue : ℕ → ℕ → ℕ → ℕ → Type 0
IsDue size last start n = (start ≤ n) × (n ≤ last) × ((n - start) % size ≡ 0)

due_here : (size k : ℕ) → k < size → (k % size ≡ 0) ↔ (k ≡ 0)
due_here size k small = rw (mod-eq_of_lt small) (ground arith)

due_later : (size start n : ℕ) → start + size ≤ n → (n - start) % size ≡ (n - (start + size)) % size
due_later size start n far =
    mod-eq-sub-mod (omega (arith, far)) ∙ ap (λ k. k % size) (omega (arith, far))

IsDue-step :
    (size last start n : ℕ)
    → 0 < size
    → start ≤ last
    → IsDue size last start n ↔ ((start ≡ n) ⊎ IsDue size last (start + size) n)
IsDue-step size last start n positive within = elim (Bool-cases (ltb n (start + size))) [
  | inl near ↦ elim (Bool-cases (leb start n)) [
    | inl above ↦
        ground
          (arith, near, above, due_here size (n - start) (ground (arith, near, above, positive)))
    | inr under ↦ ground (arith, near, under)
  ]
  | inr far ↦ ground (arith, far, due_later size start n (ground (arith, far)))
]

and_false : (b : Bool) → (b && false) ≡ false
and_false b = ground arith

windows_from-visits :
    (storage : Storage) (size last fuel start n : ℕ) (ws : List Window)
    → 0 < size
    → windows_from storage false size last fuel start ≡ some ws
    → (visits n ws ≡ true) ↔ IsDue size last start n
unfolding windows_from visits
windows_from-visits storage size last zero start n ws positive h = cc h
windows_from-visits storage size last (suc fuel) start n ws positive h =
    elim (Bool-cases (ltb last start)) [
      | inl over ↦
          let same : [] ≡ ws = cc (rw (over, windows_from) at h) in
          subst (λ v. (visits n v ≡ true) ↔ IsDue size last start n) same (ground (arith, over))
      | inr within ↦
          elim (Option-cases (windows_from storage false size last fuel (start + size))) [
            | inl e ↦
                cc (
                  rw (within, and_false (not (storage.aggregate start size)), e, windows_from) at h)
            | inr (more, e) ↦
                let same : record { start = start; written = storage.aggregate start size } ∷ more
                    ≡ ws =
                  cc (
                    rw (within, and_false (not (storage.aggregate start size)), e, windows_from) at
                      h) in
                subst (λ v. (visits n v ≡ true) ↔ IsDue size last start n) same
                  (ground (
                    arith,
                    within,
                    eqb_iff start n,
                    IsDue-step size last start n,
                    windows_from-visits storage size last fuel (start + size) n more positive e,
                  ))
          ]
    ]

-- What a loop from `start` on leaves: each window holds the storage's own answer for its range, and
-- each starts above the one before it.
abbrev pub Answers : Storage → ℕ → List Window → Type 0
Answers storage size [] = Unit
Answers storage size (w ∷ ws) =
    (w.written ≡ storage.aggregate w.start size) × Answers storage size ws

abbrev pub Ascends : ℕ → List Window → Type 0
Ascends n [] = Unit
Ascends n (w ∷ ws) = (n ≤ w.start) × Ascends (w.start + 1) ws

Ascends-weaken : (n k : ℕ) (ws : List Window) → Ascends n ws → k ≤ n → Ascends k ws
Ascends-weaken n k [] h le = tt
Ascends-weaken n k (w ∷ ws) (h, rest) le = (omega (arith, h, le), rest)

windows_from-Answers :
    (storage : Storage) (size last fuel start : ℕ) (ws : List Window)
    → 0 < size
    → windows_from storage false size last fuel start ≡ some ws
    → Answers storage size ws × Ascends start ws
unfolding windows_from
windows_from-Answers storage size last zero start ws positive h = cc h
windows_from-Answers storage size last (suc fuel) start ws positive h =
    elim (Bool-cases (ltb last start)) [
      | inl over ↦
          let same : [] ≡ ws = cc (rw (over, windows_from) at h) in
          subst (λ v. Answers storage size v × Ascends start v) same (tt, tt)
      | inr within ↦
          elim (Option-cases (windows_from storage false size last fuel (start + size))) [
            | inl e ↦
                cc (
                  rw (within, and_false (not (storage.aggregate start size)), e, windows_from) at h)
            | inr (more, e) ↦
                let same : record { start = start; written = storage.aggregate start size } ∷ more
                    ≡ ws =
                  cc (
                    rw (within, and_false (not (storage.aggregate start size)), e, windows_from) at
                      h) in
                let (answers, ascends) =
                  windows_from-Answers storage size last fuel (start + size) more positive e in
                subst (λ v. Answers storage size v × Ascends start v) same
                  (
                    (refl, answers),
                    (
                      omega arith,
                      Ascends-weaken (start + size) (start + 1) more ascends
                          (omega (arith, positive)),
                    ),
                  )
          ]
    ]

-- How many windows have the status.
abbrev pub how_many : Bool → List Window → ℕ
how_many true [] = 0
how_many true (w ∷ ws) = (if w.written then 1 else 0) + how_many true ws
how_many false [] = 0
how_many false (w ∷ ws) = (if w.written then 0 else 1) + how_many false ws

count_written-how_many : (ws : List Window) → count_written ws ≡ how_many true ws
unfolding count_written
count_written-how_many [] = refl
count_written-how_many (w ∷ ws) = ground (arith, count_written-how_many ws)

count_incomplete-how_many : (ws : List Window) → count_incomplete ws ≡ how_many false ws
unfolding count_incomplete
count_incomplete-how_many [] = refl
count_incomplete-how_many (w ∷ ws) = ground (arith, count_incomplete-how_many ws)

-- The options that skip nothing and stop at nothing.
abbrev pub IsThorough : AggregateRangesOptions → Type 0
IsThorough options =
    (options.skip_completed ≡ false)
    × (options.stop_after_incomplete ≡ false)
    × (0 < options.range_size)

-- The loop ends with a result whose windows start where they are due and nowhere else, each above
-- the one before it and with what the storage answers for its range, counted by that answer.
abbrev pub Visits : Storage → AggregateRangesOptions → ℕ → ℕ → AggregateRangesResult → Type 0
Visits storage options first last r =
    (aggregate_between storage options first last ≡ some r)
    × ((n : ℕ) → (visits n r.windows ≡ true) ↔ IsDue options.range_size last first n)
    × Ascends first r.windows
    × Answers storage options.range_size r.windows
    × (r.written ≡ how_many true r.windows)
    × (r.incomplete ≡ how_many false r.windows)

module _ (storage : Storage) (options : AggregateRangesOptions) (first last : ℕ) where
  skip-nothing : options.skip_completed ≡ false → skip storage options first last ≡ (0, first)
  unfolding skip
  skip-nothing unskipped = rw unskipped refl

  between-windows :
      (ws : List Window)
      → ltb last first ≡ false
      → skip storage options first last ≡ (0, first)
      → windows_from storage options.stop_after_incomplete options.range_size last
          (rounds first last)
          first
        ≡ some ws
      → aggregate_between storage options first last ≡ some (tail_result first last 0 first ws)
  unfolding aggregate_between
  between-windows ws within unskipped e =
      rw (within, unskipped, e)
        (ap (λ (p : ℕ × ℕ). some (tail_result first last p.0 p.1 ws)) unskipped)

  -- Without `skipCompleted` and `stopAfterIncomplete`, the aggregation from one range start to
  -- another ends. It visits the ranges whose start lies between the two, a multiple of the range
  -- size from the first, and no others, each once and in ascending order. Each has the status that
  -- the storage answers for it, and the result counts the written and the incomplete ones.
  pub aggregate_between-Visits :
      IsThorough options → (r : AggregateRangesResult) × Visits storage options first last r
  unfolding aggregate_between visits
  aggregate_between-Visits (unskipped, unstopped, positive) = elim (Bool-cases (ltb last first)) [
    | inl over ↦ (
      nothing (some first) (some last),
      (rw over refl, (λ n. ground (arith, over)), tt, tt, refl, refl),
    )
    | inr within ↦
        let (ws, e) =
          windows_from-total storage false options.range_size last (rounds first last) first
            positive (ground (arith, within)) (omega arith) in
        let (answers, ascends) =
          windows_from-Answers storage options.range_size last (rounds first last) first ws positive
            e in
        (
          tail_result first last 0 first ws,
          (
            between-windows ws within (skip-nothing unskipped) (
                ap (λ b. windows_from storage b options.range_size last (rounds first last) first)
                  unstopped
                ∙ e),
            (λ n.
                windows_from-visits storage options.range_size last (rounds first last) first n ws
                  positive e),
            ascends,
            answers,
            count_written-how_many ws,
            count_incomplete-how_many ws,
          ),
        )
  ]
