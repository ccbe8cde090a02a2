-- ===== src/Schedule/RoundTrip.antt =====
-- src/baseloadSchedule.ts: a window that is written out is read back.
use arkiv_chain_indexer.Common.{
  ℕ, zero, suc, ◌≤◌, ◌<◌, ◌≡◌, ◌∙◌, refl, ap, inl, inr, Bool, true, false, not, ◌&&◌, [], ◌∷◌, ◌++◌,
  arith, eqb, leb, Bool-cases,
}
use arkiv_chain_indexer.Common.Try.{Try, thrown, returned, ◌>>=◌}
use arkiv_chain_indexer.RpcKeyRing.{Text}
use arkiv_chain_indexer.RpcKeyRing.Pool.{is_space, trim_start, trim_end, trim}
use arkiv_chain_indexer.Schedule.{
  BaseloadTimeWindow, ScheduleError, minutes_per_day, split_dash, split_window, parse_clock,
  check_window, parse_daily_window, format_clock, format_daily_window,
}

abbrev all_below : (ℕ → Bool) → ℕ → Bool
all_below p zero = true
all_below p (suc n) = p n && all_below p n

all_below-lt : (p : ℕ → Bool) (n i : ℕ) → all_below p n ≡ true → i < n → p i ≡ true
all_below-lt p zero i h k = absurd (omega (arith, k))
all_below-lt p (suc n) i h k = elim (Bool-cases (eqb i n)) [
  | inl is ↦ ground (arith, ap p (eqb→eq i n is))
  | inr other ↦ all_below-lt p n i (ground (arith, h)) (ground (arith, k, other))
]
  where
    eqb→eq : (a b : ℕ) → eqb a b ≡ true → a ≡ b
    eqb→eq a b h = ground arith

-- No white space and no dash.
abbrev is_plain : Text → Bool
is_plain [] = true
is_plain (c ∷ text) = not (is_space c) && (not (eqb c 45) && is_plain text)

abbrev reads : Try ScheduleError ℕ → ℕ → Bool
reads (thrown error) n = false
reads (returned m) n = eqb m n

reads-true : (t : Try ScheduleError ℕ) (n : ℕ) → reads t n ≡ true → t ≡ returned n
reads-true (thrown error) n h = cc h
reads-true (returned m) n h = ground arith

clock_good :
    all_below (λ n. is_plain (format_clock n) && reads (parse_clock (format_clock n)) n) 1441 ≡ true
unfolding format_clock parse_clock
clock_good = refl

abbrev no_space : Text → Bool
no_space [] = true
no_space (c ∷ text) = not (is_space c) && no_space text

no_space-trim_start : (text : Text) → no_space text ≡ true → trim_start text ≡ text
unfolding trim_start
no_space-trim_start [] h = refl
no_space-trim_start (c ∷ text) h = elim (Bool-cases (is_space c)) [
  | inl is ↦ cc (rw is at h)
  | inr other ↦ rw (other, trim_start) refl
]

no_space-trim_end : (text : Text) → no_space text ≡ true → trim_end text ≡ text
unfolding trim_end
no_space-trim_end [] h = refl
no_space-trim_end (c ∷ text) h = elim (Bool-cases (is_space c)) [
  | inl is ↦ cc (rw is at h)
  | inr other ↦ rw (other, trim_end) (ap (λ xs. c ∷ xs) (no_space-trim_end text (rw other at h)))
]

no_space-trim : (text : Text) → no_space text ≡ true → trim text ≡ text
no_space-trim text h = ap trim_end (no_space-trim_start text h) ∙ no_space-trim_end text h

is_plain-no_space : (text : Text) → is_plain text ≡ true → no_space text ≡ true
is_plain-no_space [] h = refl
is_plain-no_space (c ∷ text) h = elim (Bool-cases (is_space c)) [
  | inl is ↦ cc (rw is at h)
  | inr other ↦ elim (Bool-cases (eqb c 45)) [
    | inl dash ↦ cc (rw (other, dash) at h)
    | inr no_dash ↦ rw other (is_plain-no_space text (rw (other, no_dash) at h))
  ]
]

no_space-join : (a b : Text) → is_plain a ≡ true → is_plain b ≡ true → no_space (a ++ 45 ∷ b) ≡ true
no_space-join [] b h k = is_plain-no_space b k
no_space-join (c ∷ a) b h k = elim (Bool-cases (is_space c)) [
  | inl is ↦ cc (rw is at h)
  | inr other ↦ elim (Bool-cases (eqb c 45)) [
    | inl dash ↦ cc (rw (other, dash) at h)
    | inr no_dash ↦ rw other (no_space-join a b (rw (other, no_dash) at h) k)
  ]
]

split_dash-is_plain : (b : Text) → is_plain b ≡ true → split_dash b ≡ b ∷ []
unfolding split_dash
split_dash-is_plain [] h = refl
split_dash-is_plain (c ∷ b) h = elim (Bool-cases (is_space c)) [
  | inl is ↦ cc (rw is at h)
  | inr other ↦ elim (Bool-cases (eqb c 45)) [
    | inl dash ↦ cc (rw (other, dash) at h)
    | inr no_dash ↦ rw (no_dash, split_dash-is_plain b (rw (other, no_dash) at h), split_dash) refl
  ]
]

split_dash-join :
    (a b : Text) → is_plain a ≡ true → is_plain b ≡ true → split_dash (a ++ 45 ∷ b) ≡ a ∷ b ∷ []
unfolding split_dash
split_dash-join [] b h k = ap (λ fields. [] ∷ fields) (split_dash-is_plain b k)
split_dash-join (c ∷ a) b h k = elim (Bool-cases (is_space c)) [
  | inl is ↦ cc (rw is at h)
  | inr other ↦ elim (Bool-cases (eqb c 45)) [
    | inl dash ↦ cc (rw (other, dash) at h)
    | inr no_dash ↦ rw (no_dash, split_dash-join a b (rw (other, no_dash) at h) k, split_dash) refl
  ]
]

split_window-join :
    (a b : Text)
    → is_plain a ≡ true
    → is_plain b ≡ true
    → split_window (a ++ 45 ∷ b) ≡ returned (a, b)
unfolding split_window
split_window-join a b h k =
    rw
      (
        no_space-trim (a ++ 45 ∷ b) (no_space-join a b h k),
        split_dash-join a b h k,
        no_space-trim a (is_plain-no_space a h),
        no_space-trim b (is_plain-no_space b k),
        split_window,
      )
      refl

bind-returned :
    {A B : Type 0} (m : Try ScheduleError A) (f : A → Try ScheduleError B) {a : A}
    → m ≡ returned a
    → (m >>= f) ≡ f a
bind-returned m f e = ap (λ x. x >>= f) e

clock_reads :
    (n : ℕ)
    → n < 1441
    → (is_plain (format_clock n) ≡ true) × (parse_clock (format_clock n) ≡ returned n)
clock_reads n h =
    let good =
      all_below-lt (λ n. is_plain (format_clock n) && reads (parse_clock (format_clock n)) n) 1441 n
        clock_good h in
    (ground (arith, good), reads-true (parse_clock (format_clock n)) n (ground (arith, good)))

lt-leb : (a b : ℕ) → a < b → leb b a ≡ false
lt-leb a b h = ground arith

-- A daily window, to the minute and within a day, is read back from the text that it is written as.
pub parse_daily_window-format :
    (window : BaseloadTimeWindow)
    → window.start < minutes_per_day
    → window.end ≤ minutes_per_day
    → eqb window.start window.end ≡ false
    → parse_daily_window (format_daily_window window) ≡ returned window
unfolding parse_daily_window format_daily_window check_window
parse_daily_window-format window h k differ =
    let (plain_start, start) = clock_reads window.start (omega (arith, h)) in
    let (plain_end, end) = clock_reads window.end (omega (arith, k)) in
    let below : leb minutes_per_day window.start ≡ false = lt-leb window.start minutes_per_day h in
    bind-returned (split_window (format_clock window.start ++ 45 ∷ format_clock window.end)) _ (
      split_window-join (format_clock window.start) (format_clock window.end) plain_start plain_end)
    ∙ rw (start, end, below, differ) refl
