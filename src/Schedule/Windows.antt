-- ===== src/Schedule/Windows.antt =====
-- src/baseloadSchedule.ts: when a window that was read holds a minute.
use arkiv_chain_indexer.Common.{
  ℕ, ◌+◌, ◌-◌, ◌%◌, ◌≤◌, ◌<◌, ◌≡◌, ◌∙◌, sym, ap, inl, inr, false, arith, eqb, ltb, if◌then◌else◌,
  Bool-cases,
}
use native.Mathlib.Nat.{mod-eq_of_lt, add-mod_right}
use arkiv_chain_indexer.Schedule.{BaseloadTimeWindow, is_within_window}

-- A window of a period, which may wrap around the end of the period.
pub record IsWindow (period : ℕ) (window : BaseloadTimeWindow) : Type 0 where
  pub starts : window.start < period
  pub no_longer : window.end ≤ window.start + period
  pub differ : eqb window.start window.end ≡ false

-- How many minutes a window is long.
abbrev pub duration : ℕ → BaseloadTimeWindow → ℕ
duration period window =
    if ltb window.start window.end
    then window.end - window.start
    else window.end + period - window.start

mod_turn : (x p : ℕ) → x < p + p → x % p ≡ (if ltb x p then x else x - p)
mod_turn x p h = elim (Bool-cases (ltb x p)) [
  | inl below ↦ rw below (mod-eq_of_lt (ground (arith, below)))
  | inr above ↦
      let sum : x - p + p ≡ x = ground (arith, above) in
      let small : x - p < p = ground (arith, above, h) in
      rw above (ap (λ y. y % p) (sym sum) ∙ add-mod_right (x - p) p ∙ mod-eq_of_lt small)
]

-- A minute of the period is in a window exactly when less than the window's length has passed
-- since the window last started.
pub is_within_window-duration :
    (window : BaseloadTimeWindow) (minute period : ℕ)
    → IsWindow period window
    → minute < period
    → is_within_window window minute period
      ≡ ltb ((minute + period - window.start) % period) (duration period window)
unfolding is_within_window
is_within_window-duration window minute period w h =
    let starts = w.starts in
    let no_longer = w.no_longer in
    let differ = w.differ in
    let turned = mod_turn window.end period (omega (arith, starts, no_longer)) in
    let passed = mod_turn (minute + period - window.start) period (omega (arith, starts, h)) in
    rw (turned, passed, is_within_window) (ground arith)
