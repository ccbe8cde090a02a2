-- ===== src/Sql/Prefix.antt =====
-- src/entityQuerySql.ts: a prefix as a range of byte strings.
use arkiv_chain_indexer.Common.{
  ℕ, zero, suc, ◌+◌, ◌%◌, ◌<◌, ◌≡◌, refl, inl, inr, Bool, true, false, not, ◌&&◌, Option, none,
  some, [], ◌∷◌, arith, eqb, ltb, if◌then◌else◌, length, get_elem?, take, All, Bool-cases,
  Option-cases,
}
use native.Mathlib.Nat.{mod-eq_of_lt}
use arkiv_chain_indexer.Query.Syntax.{Text}
use arkiv_chain_indexer.Sql.{end_of, add_one_at, next_byte_prefix}

-- The order of byte strings, a string below its extensions.
abbrev pub bytes_lt : Text → Text → Bool
bytes_lt s [] = false
bytes_lt [] (b ∷ t) = true
bytes_lt (a ∷ s) (b ∷ t) = if ltb a b then true else if eqb a b then bytes_lt s t else false

abbrev pub has_prefix : Text → Text → Bool
has_prefix [] s = true
has_prefix (b ∷ p) [] = false
has_prefix (b ∷ p) (a ∷ s) = if eqb a b then has_prefix p s else false

-- Below the bound, where there is one.
abbrev pub is_below : Text → Option Text → Bool
is_below s none = true
is_below s (some next) = bytes_lt s next

abbrev pub IsBytes : Text → Type 0
IsBytes s = All (λ byte. byte < 256) s

-- The end behind a first byte.
end_after : ℕ → ℕ → ℕ
end_after byte zero = if eqb byte 0xff then zero else 1
end_after byte (suc i) = suc (suc i)

end_of-cons :
    (byte : ℕ) (p : Text) (n : ℕ) → end_of (byte ∷ p) (suc n) ≡ end_after byte (end_of p n)
unfolding end_of end_after
end_of-cons byte p zero = ground arith
end_of-cons byte p (suc n) = elim (Option-cases (get_elem? p n)) [
  | inl e ↦ rw (e, end_of) refl
  | inr (b, e) ↦ elim (Bool-cases (eqb b 0xff)) [
    | inl is ↦ rw (e, is, end_of) (end_of-cons byte p n)
    | inr other ↦ rw (e, other, end_of) refl
  ]
]

-- The bound from the first byte and the bound of the rest.
abbrev bound_cons : ℕ → Option Text → Option Text
bound_cons byte none = if eqb byte 0xff then none else some ((byte + 1) % 256 ∷ [])
bound_cons byte (some next) = some (byte ∷ next)

next_byte_prefix-cons :
    (byte : ℕ) (p : Text) → next_byte_prefix (byte ∷ p) ≡ bound_cons byte (next_byte_prefix p)
unfolding next_byte_prefix end_after add_one_at
next_byte_prefix-cons byte p =
    rw (end_of-cons byte p (length p), next_byte_prefix) (by_end (end_of p (length p)) refl)
  where
    by_end :
        (i : ℕ)
        → end_of p (length p) ≡ i
        → elim (end_after byte i) [
          | zero ↦ none
          | suc j ↦ some (add_one_at j (take (suc j) (byte ∷ p)))
        ]
          ≡ bound_cons byte (next_byte_prefix p)
    by_end zero e = rw (e, next_byte_prefix) (ground arith)
    by_end (suc i) e = rw (e, next_byte_prefix) refl

next_byte_prefix-nil : next_byte_prefix [] ≡ none
unfolding next_byte_prefix end_of
next_byte_prefix-nil = refl

range_cons :
    (b a : ℕ) (p s : Text) (bound : Option Text)
    → b < 256
    → a < 256
    → (not (bytes_lt s p) && is_below s bound) ≡ has_prefix p s
    → (not (bytes_lt (a ∷ s) (b ∷ p)) && is_below (a ∷ s) (bound_cons b bound))
      ≡ has_prefix (b ∷ p) (a ∷ s)
range_cons b a p s (some next) hb ha h = ground arith
range_cons b a p s none hb ha h = elim (Bool-cases (eqb b 0xff)) [
  | inl is ↦ rw is (ground arith)
  | inr other ↦
      let room : b + 1 < 256 = ground arith in
      let same : (b + 1) % 256 ≡ b + 1 = mod-eq_of_lt room in rw (other, same) (ground arith)
]

-- A string of bytes starts with a prefix exactly when it is not below the prefix and is below
-- what `nextBytePrefix` gives for it, where that gives a string.
pub next_byte_prefix-range :
    (p s : Text)
    → IsBytes p
    → IsBytes s
    → (not (bytes_lt s p) && is_below s (next_byte_prefix p)) ≡ has_prefix p s
next_byte_prefix-range [] s hp hs = rw next_byte_prefix-nil refl
next_byte_prefix-range (b ∷ p) [] hp hs = refl
next_byte_prefix-range (b ∷ p) (a ∷ s) (hb, hp) (ha, hs) =
    rw (next_byte_prefix-cons b p)
      (range_cons b a p s (next_byte_prefix p) hb ha (next_byte_prefix-range p s hp hs))
