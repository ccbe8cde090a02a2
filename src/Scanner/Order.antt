-- ===== src/Scanner/Order.antt =====
-- src/scanner.ts: no block is skipped and none is saved twice, whenever the process is stopped.
use arkiv_chain_indexer.Common.{
  ℕ, zero, suc, ◌+◌, ◌-◌, ◌≤◌, ◌≡◌, ◌∙◌, ◌⊎◌, refl, sym, ap, inl, inr, Bool, true, false, ◌&&◌,
  Option, none, some, List, [], ◌∷◌, ◌++◌, arith, ltb, leb, Bool-cases, le→leb, leb→le,
  leb-false→lt, ◌<◌, if◌then◌else◌, All,
}
use mathlib.Core.Path.{subst}
use mathlib.Core.List.{append_assoc, append-nil}
use arkiv_chain_indexer.Common.Int.{ℤ, pos, negsuc}
use arkiv_chain_indexer.Scanner.{
  Storage, resume_at, backfill_next, save_block_metrics, last_successful, forward_from,
  scan_forward_to_safe_head, backfill_start, backfill_from, backfill_down_for_slice,
  backfill_slice_ms,
}

-- `k` numbers upwards from `n`.
abbrev pub up_from : ℕ → ℕ → List ℕ
up_from n zero = []
up_from n (suc k) = n ∷ up_from (n + 1) k

-- `k` numbers downwards from `n`.
abbrev pub down_from : ℕ → ℕ → List ℕ
down_from n zero = []
down_from n (suc k) = n ∷ down_from (n - 1) k

-- What a run forwards leaves: `k` more blocks from `next` on, in order, as far as the safe head
-- where the rounds are enough.
pub record Forward (rounds safe_head next k : ℕ) (s s' : Storage) : Type 0 where
  pub last : s'.last_successful_block ≡ some (next + k - 1)
  pub order : s'.saved ≡ s.saved ++ up_from next k
  pub within : k ≤ safe_head + 1 - next
  pub reached : safe_head + 1 ≤ next + rounds → safe_head + 1 ≤ next + k

stay :
    (rounds safe_head next : ℕ) (s : Storage)
    → s.last_successful_block ≡ some (next - 1)
    → (safe_head + 1 ≤ next + rounds → safe_head + 1 ≤ next)
    → Forward rounds safe_head next 0 s s
stay rounds safe_head next s last far = record {
  last = last ∙ ap some (omega arith);
  order = sym (append-nil s.saved);
  within = omega arith;
  reached = λ h. omega (arith, far h);
}

forward_from-Forward :
    (rounds safe_head next : ℕ) (scanned : Bool) (s : Storage)
    → s.last_successful_block ≡ some (next - 1)
    → (k : ℕ) × Forward rounds safe_head next k s (forward_from rounds safe_head next scanned s).1
unfolding forward_from save_block_metrics
forward_from-Forward zero safe_head next scanned s last =
    (0, stay zero safe_head next s last (λ h. omega (arith, h)))
forward_from-Forward (suc rounds) safe_head next scanned s last =
    elim (Bool-cases (leb next safe_head)) [
      | inr done ↦
          rw (done, forward_from)
            (0, stay (suc rounds) safe_head next s last (λ h. ground (arith, done)))
      | inl more ↦
          let (k, f) =
            forward_from-Forward rounds safe_head (next + 1) true
              (save_block_metrics next last_successful s) (ap some (omega arith)) in
          rw (more, forward_from)
            (
              suc k,
              record {
                last = f.last ∙ ap some (omega arith);
                order = f.order ∙ append_assoc s.saved (next ∷ []) (up_from (next + 1) k);
                within = ground (arith, f.within, more);
                reached = λ h. omega (arith, f.reached (omega (arith, h)));
              },
            )
    ]

-- Runs of the forward scan, each to a safe head, and each stopped after a number of blocks.
abbrev pub forward_runs : List (ℕ × ℕ) → Storage → Storage
forward_runs [] s = s
forward_runs ((rounds, safe_head) ∷ runs) s =
    forward_runs runs (scan_forward_to_safe_head rounds safe_head 0 s).1

pub up_from-append : (n k l : ℕ) → up_from n k ++ up_from (n + k) l ≡ up_from n (k + l)
up_from-append n zero l = ap (λ m. up_from m l) (omega arith) ∙ ap (up_from n) (omega arith)
up_from-append n (suc k) l =
    let shift : n + suc k ≡ n + 1 + k = omega arith in
    let sum : suc (k + l) ≡ suc k + l = omega arith in
    ap (λ m. n ∷ (up_from (n + 1) k ++ up_from m l)) shift
    ∙ ap (λ xs. n ∷ xs) (up_from-append (n + 1) k l)
    ∙ ap (up_from n) sum

scan_forward-resume :
    (rounds safe_head initial last : ℕ) (s : Storage)
    → s.last_successful_block ≡ some last
    → scan_forward_to_safe_head rounds safe_head initial s
      ≡ forward_from rounds safe_head (last + 1) false s
unfolding scan_forward_to_safe_head
scan_forward-resume rounds safe_head initial last s h =
    ap (λ o. forward_from rounds safe_head (resume_at initial o) false s) h

-- Once a block has been saved, the forward scan saves the blocks behind it one after another,
-- none twice and none left out, however often it is stopped and whatever safe heads it is given.
pub forward_runs-up_from :
    (runs : List (ℕ × ℕ)) (s : Storage) (last : ℕ)
    → s.last_successful_block ≡ some last
    → (k : ℕ) × ((forward_runs runs s).saved ≡ s.saved ++ up_from (last + 1) k)
      × ((forward_runs runs s).last_successful_block ≡ some (last + k))
forward_runs-up_from [] s last h = (0, sym (append-nil s.saved), h ∙ ap some (omega arith))
forward_runs-up_from ((rounds, safe_head) ∷ runs) s last h =
    let (k, f) =
      forward_from-Forward rounds safe_head (last + 1) false s (h ∙ ap some (omega arith)) in
    let one = (forward_from rounds safe_head (last + 1) false s).1 in
    let (l, order, next) =
      forward_runs-up_from runs one (last + k) (f.last ∙ ap some (omega arith)) in
    let same = ap (λ p. forward_runs runs p.1) (scan_forward-resume rounds safe_head 0 last s h) in
    (
      k + l,
      ap (λ r. r.saved) same
          ∙ order
          ∙ ap (λ xs. xs ++ up_from (last + k + 1) l) f.order
          ∙ append_assoc s.saved (up_from (last + 1) k) (up_from (last + k + 1) l)
          ∙ ap (λ m. s.saved ++ (up_from (last + 1) k ++ up_from m l)) (omega arith)
          ∙ ap (λ xs. s.saved ++ xs) (up_from-append (last + 1) k l),
      ap (λ r. r.last_successful_block) same ∙ next ∙ ap some (omega arith),
    )

-- Where a forward scan is due to go on: behind the last successful block, or at the bound that it
-- is given where there is none.
abbrev pub IsDue : ℕ → Storage → ℕ → Type 0
IsDue initial s next =
    ((last : ℕ) × (s.last_successful_block ≡ some last) × (next ≡ last + 1))
    ⊎ ((s.last_successful_block ≡ none) × (next ≡ initial))

scan_forward-IsDue :
    (rounds safe_head initial next : ℕ) (s : Storage)
    → IsDue initial s next
    → scan_forward_to_safe_head rounds safe_head initial s
      ≡ forward_from rounds safe_head next false s
unfolding scan_forward_to_safe_head
scan_forward-IsDue rounds safe_head initial next s (inl (last, h, e)) =
    scan_forward-resume rounds safe_head initial last s h
    ∙ ap (λ n. forward_from rounds safe_head n false s) (sym e)
scan_forward-IsDue rounds safe_head initial next s (inr (h, e)) =
    ap (λ o. forward_from rounds safe_head (resume_at initial o) false s) h
    ∙ ap (λ n. forward_from rounds safe_head n false s) (sym e)

forward_from-reaches :
    (rounds safe_head next : ℕ) (s : Storage)
    → next ≤ safe_head
    → safe_head + 1 ≤ next + rounds
    → let s' = (forward_from rounds safe_head next false s).1 in
      (s'.last_successful_block ≡ some safe_head)
      × (s'.saved ≡ s.saved ++ up_from next (safe_head + 1 - next))
unfolding forward_from save_block_metrics
forward_from-reaches zero safe_head next s within enough = absurd (omega (arith, within, enough))
forward_from-reaches (suc rounds) safe_head next s within enough =
    let more : leb next safe_head ≡ true = le→leb next safe_head within in
    let (k, f) =
      forward_from-Forward rounds safe_head (next + 1) true
        (save_block_metrics next last_successful s) (ap some (omega arith)) in
    let reached = f.reached (omega (arith, enough)) in
    let bound = f.within in
    let size : suc k ≡ safe_head + 1 - next = omega (arith, reached, bound, within) in
    rw (more, forward_from)
      (
        f.last ∙ ap some (omega (arith, size, within)),
        f.order
            ∙ append_assoc s.saved (next ∷ []) (up_from (next + 1) k)
            ∙ ap (λ n. s.saved ++ up_from next n) size,
      )

forward_from-idle :
    (rounds safe_head next : ℕ) (s : Storage)
    → safe_head < next
    → forward_from rounds safe_head next false s ≡ (false, s)
unfolding forward_from
forward_from-idle zero safe_head next s over = refl
forward_from-idle (suc rounds) safe_head next s over =
    let done : leb next safe_head ≡ false = not_reached next safe_head over in
    rw (done, forward_from) refl
  where
    not_reached : (a b : ℕ) → b < a → leb a b ≡ false
    not_reached a b h = ground arith

-- A forward scan that has the rounds to come to the safe head from where it is due to go on,
-- behind the last successful block, or at its bound where there is none, does come to it: it
-- saves each block up to the safe head, in order, and leaves the safe head as the last successful
-- block. Where it is due above the safe head, it saves nothing and leaves the mark as it is.
pub scan_forward-reaches :
    (rounds safe_head initial next : ℕ) (s : Storage)
    → IsDue initial s next
    → safe_head + 1 ≤ next + rounds
    → let s' = (scan_forward_to_safe_head rounds safe_head initial s).1 in
      (s'.last_successful_block
        ≡ (if leb next safe_head then some safe_head else s.last_successful_block))
      × (s'.saved ≡ s.saved ++ up_from next (safe_head + 1 - next))
scan_forward-reaches rounds safe_head initial next s due enough =
    let same = ap (λ p. p.1) (scan_forward-IsDue rounds safe_head initial next s due) in
    elim (Bool-cases (leb next safe_head)) [
      | inl within ↦
          let (last, order) =
            forward_from-reaches rounds safe_head next s (leb→le next safe_head within) enough in
          rw within (ap (λ r. r.last_successful_block) same ∙ last, ap (λ r. r.saved) same ∙ order)
      | inr over ↦
          let above = leb-false→lt next safe_head over in
          let idle = same ∙ ap (λ p. p.1) (forward_from-idle rounds safe_head next s above) in
          let nothing : 0 ≡ safe_head + 1 - next = omega (arith, above) in
          rw over (
            ap (λ r. r.last_successful_block) idle,
            ap (λ r. r.saved) idle
                ∙ sym (append-nil s.saved)
                ∙ ap (λ n. s.saved ++ up_from next n) nothing,
          )
    ]

-- `n - k` of the source's integers.
abbrev pub below : ℕ → ℕ → ℤ
below n zero = pos n
below zero (suc k) = negsuc k
below (suc n) (suc k) = below n k

-- What a slice of the backfill leaves: `k` more blocks from `next` down, none below the oldest.
record Backward (oldest next k : ℕ) (s s' : Storage) : Type 0 where
  pub order : s'.saved ≡ s.saved ++ down_from next k
  pub mark : s'.backfill_next_block ≡ some (below next k)
  pub within : k ≤ next + 1 - oldest

rest_here :
    (oldest next : ℕ) (s : Storage)
    → s.backfill_next_block ≡ some (pos next)
    → Backward oldest next 0 s s
rest_here oldest next s h = record {
  order = sym (append-nil s.saved);
  mark = h;
  within = omega arith;
}

ends_at_zero :
    (oldest deadline n : ℕ) (times : List ℕ) (lowest : Option ℕ) (s : Storage)
    → (backfill_from oldest deadline times (negsuc n) lowest s).1 ≡ s
unfolding backfill_from
ends_at_zero oldest deadline n [] lowest s = refl
ends_at_zero oldest deadline n (now_ms ∷ times) lowest s = refl

backfill_from-Backward :
    (oldest deadline : ℕ) (times : List ℕ) (next : ℕ) (lowest : Option ℕ) (s : Storage)
    → s.backfill_next_block ≡ some (pos next)
    → (k : ℕ) × Backward oldest next k s (backfill_from oldest deadline times (pos next) lowest s).1
unfolding backfill_from save_block_metrics
backfill_from-Backward oldest deadline [] next lowest s h = (0, rest_here oldest next s h)
backfill_from-Backward oldest deadline (now_ms ∷ times) zero lowest s h =
    elim (Bool-cases (leb oldest 0 && ltb now_ms deadline)) [
      | inr done ↦ rw (done, backfill_from) (0, rest_here oldest 0 s h)
      | inl more ↦
          let s' = save_block_metrics 0 (backfill_next (negsuc 0)) s in
          rw (more, ends_at_zero oldest deadline 0 times (some 0) s', backfill_from)
            (1, record { order = refl; mark = refl; within = ground (arith, more) })
    ]
backfill_from-Backward oldest deadline (now_ms ∷ times) (suc next) lowest s h =
    elim (Bool-cases (leb oldest (suc next) && ltb now_ms deadline)) [
      | inr done ↦ rw (done, backfill_from) (0, rest_here oldest (suc next) s h)
      | inl more ↦
          let s' = save_block_metrics (suc next) (backfill_next (pos next)) s in
          let (k, b) =
            backfill_from-Backward oldest deadline times next (some (suc next)) s' refl in
          rw (more, backfill_from)
            (
              suc k,
              record {
                order =
                    b.order
                    ∙ append_assoc s.saved (suc next ∷ []) (down_from next k)
                    ∙ ap (λ m. s.saved ++ suc next ∷ down_from m k) (omega arith);
                mark = b.mark;
                within = ground (arith, b.within, more);
              },
            )
    ]

-- A slice of the backfill: the safe head, when it starts, and what its clock shows.
pub record Slice : Type 0 where
  pub safe_head : ℕ
  pub started_at : ℕ
  pub times : List ℕ

abbrev pub backfill_slices : ℕ → List Slice → Storage → Storage
backfill_slices oldest [] s = s
backfill_slices oldest (slice ∷ slices) s =
    backfill_slices oldest slices
      (backfill_down_for_slice oldest slice.safe_head slice.started_at slice.times s).1

slice-Backward :
    (oldest next : ℕ) (slice : Slice) (s : Storage)
    → s.backfill_next_block ≡ some (pos next)
    → next ≤ slice.safe_head
    → (k : ℕ) × Backward oldest next k s
        (backfill_down_for_slice oldest slice.safe_head slice.started_at slice.times s).1
unfolding backfill_down_for_slice
slice-Backward oldest next slice s h le =
    let start : backfill_start slice.safe_head s.backfill_next_block ≡ pos next =
      ap (backfill_start slice.safe_head) h ∙ ground arith in
    let deadline = slice.started_at + backfill_slice_ms in
    let (k, b) = backfill_from-Backward oldest deadline slice.times next none s h in
    (
      k,
      subst (λ z. Backward oldest next k s (backfill_from oldest deadline slice.times z none s).1)
          (sym start) b,
    )

below-pos : (next k m : ℕ) → below next k ≡ pos m → m + k ≡ next
below-pos next zero m h = ground (arith, h)
below-pos zero (suc k) m h = cc h
below-pos (suc next) (suc k) m h = omega (arith, below-pos next k m h)

down_from-append : (n k l : ℕ) → down_from n k ++ down_from (n - k) l ≡ down_from n (k + l)
down_from-append n zero l =
    let same : n - 0 ≡ n = omega arith in
    let sum : l ≡ 0 + l = omega arith in ap (λ m. down_from m l) same ∙ ap (down_from n) sum
down_from-append n (suc k) l =
    let shift : n - suc k ≡ n - 1 - k = omega arith in
    let sum : suc (k + l) ≡ suc k + l = omega arith in
    ap (λ m. n ∷ (down_from (n - 1) k ++ down_from m l)) shift
    ∙ ap (λ xs. n ∷ xs) (down_from-append (n - 1) k l)
    ∙ ap (down_from n) sum

heads_below :
    (m next : ℕ) (slices : List Slice)
    → m ≤ next
    → All (λ slice. next ≤ slice.safe_head) slices
    → All (λ slice. m ≤ slice.safe_head) slices
heads_below m next [] le h = tt
heads_below m next (slice ∷ slices) le (h, k) =
    (omega (arith, le, h), heads_below m next slices le k)

-- Below block 0 there is nothing to save.
slices_ended :
    (oldest n : ℕ) (slices : List Slice) (s : Storage)
    → s.backfill_next_block ≡ some (negsuc n)
    → backfill_slices oldest slices s ≡ s
unfolding backfill_down_for_slice
slices_ended oldest n [] s h = refl
slices_ended oldest n (slice ∷ slices) s h =
    let deadline = slice.started_at + backfill_slice_ms in
    let one =
      ap (λ z. (backfill_from oldest deadline slice.times z none s).1)
        (ap (backfill_start slice.safe_head) h)
      ∙ ends_at_zero oldest deadline n slice.times none s in
    ap (backfill_slices oldest slices) one ∙ slices_ended oldest n slices s h

Int-cases : (z : ℤ) → ((m : ℕ) × (z ≡ pos m)) ⊎ ((m : ℕ) × (z ≡ negsuc m))
Int-cases (pos m) = inl (m, refl)
Int-cases (negsuc m) = inr (m, refl)

-- Once the backfill has a mark below it saves the blocks one after another downwards, none twice
-- and none left out, and none below the oldest that it is given, however long its slices are.
pub backfill_slices-down_from :
    (oldest : ℕ) (slices : List Slice) (s : Storage) (next : ℕ)
    → s.backfill_next_block ≡ some (pos next)
    → All (λ slice. next ≤ slice.safe_head) slices
    → (k : ℕ) × ((backfill_slices oldest slices s).saved ≡ s.saved ++ down_from next k)
      × (k ≤ next + 1 - oldest)
backfill_slices-down_from oldest [] s next h heads = (0, sym (append-nil s.saved), omega arith)
backfill_slices-down_from oldest (slice ∷ slices) s next h (head, heads) =
    let (k, b) = slice-Backward oldest next slice s h head in
    let one = (backfill_down_for_slice oldest slice.safe_head slice.started_at slice.times s).1 in
    elim (Int-cases (below next k)) [
      | inr (n, e) ↦ (
        k,
        ap (λ r. r.saved) (slices_ended oldest n slices one (b.mark ∙ ap some e)) ∙ b.order,
        b.within,
      )
      | inl (m, e) ↦
          let sum = below-pos next k m e in
          let (l, order, within) =
            backfill_slices-down_from oldest slices one m (b.mark ∙ ap some e)
              (heads_below m next slices (omega (arith, sum)) heads) in
          let from : m ≡ next - k = omega (arith, sum) in
          (
            k + l,
            order
                ∙ ap (λ xs. xs ++ down_from m l) b.order
                ∙ append_assoc s.saved (down_from next k) (down_from m l)
                ∙ ap (λ i. s.saved ++ (down_from next k ++ down_from i l)) from
                ∙ ap (λ xs. s.saved ++ xs) (down_from-append next k l),
            omega (arith, sum, within, b.within),
          )
    ]
