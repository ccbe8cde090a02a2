-- ===== src/Query/Lexer/Ends.antt =====
-- src/entityQueryLanguage.ts: the scanning loops of the lexer end, and what they leave.
pub mod Tokens
use arkiv_chain_indexer.Common.{
  ℕ, zero, suc, ◌+◌, ◌-◌, ◌≤◌, ◌≡◌, ◌∙◌, refl, sym, ap, ◌⊎◌, inl, inr, Bool, true, false, Option,
  none, some, List, [], ◌∷◌, arith, eqb, ltb, leb, ◌&&◌, ◌||◌, Bool-cases, Option-cases, length,
  if◌then◌else◌,
}
use arkiv_chain_indexer.Query.Ends.{Ends, Ends-bind, Ends-weaken}
use arkiv_chain_indexer.Query.Syntax.{
  Text, Outcome, ok, fail, out_of_fuel, ◌>>=◌, TypeTag, Token, SpannedToken,
}
use arkiv_chain_indexer.Query.Lexer.{
  Host, Cursor, Quoted, push, scan_quoted, Trivia, after_byte, skip_from, skip_trivia, take_while,
  take_body, take_tagged_body, typed_or_name, word_token, lex_word, lex_byte, next_token, token_at,
  tokenize_from, tokenize, at_byte, is_alpha, is_digit, Lexed, cons_token, is_name_char,
  take_if_equals, lex_bang, lex_string, lex_sysname, lex_signed, lex_number, type_tag_from_name,
  blank,
}

abbrev pub left : Quoted → ℕ
left q = length q.after.rest

abbrev pub left_behind : Token × Cursor → ℕ
left_behind p = length p.1.rest

push-Ends : (b n : ℕ) (r : Outcome Quoted) → Ends left n r → Ends left n (push b r)
push-Ends b n (ok q) h = h
push-Ends b n (fail e) h = tt
push-Ends b n out_of_fuel h = h

pub scan_quoted-Ends : (o i : ℕ) (bs : Text) → Ends left (length bs) (scan_quoted o i bs)
unfolding scan_quoted
scan_quoted-Ends o i [] = tt
scan_quoted-Ends o i (b ∷ []) = ground arith
scan_quoted-Ends o i (b ∷ c ∷ bs) = elim (Bool-cases (eqb b 0x27)) [
  | inl quote ↦ elim (Bool-cases (eqb c 0x27)) [
    | inl twice ↦
        rw (quote, twice, scan_quoted)
          (push-Ends 0x27 _ _
            (Ends-weaken left _ _ _ (scan_quoted-Ends o (i + 2) bs) (omega arith)))
    | inr once ↦ rw (quote, once, scan_quoted) (omega arith)
  ]
  | inr other ↦
      rw (other, scan_quoted)
        (push-Ends b _ _
          (Ends-weaken left _ _ _ (scan_quoted-Ends o (i + 1) (c ∷ bs)) (omega arith)))
]

pub take_while-left :
    (p : ℕ → Bool) (pos : ℕ) (bs : Text) → length (take_while p pos bs).1.rest ≤ length bs
unfolding take_while
take_while-left p pos [] = omega arith
take_while-left p pos (b ∷ bs) = ground (arith, take_while-left p (pos + 1) bs)

pub skip_from-left :
    (host : Host) (mode : Trivia) (pos : ℕ) (bs : Text)
    → length (skip_from host mode pos bs).rest ≤ length bs
unfolding skip_from
skip_from-left host mode pos [] = omega arith
skip_from-left host mode pos (b ∷ bs) = elim (Option-cases (after_byte host mode b bs)) [
  | inl e ↦ rw (e, skip_from) (omega arith)
  | inr (mode', e) ↦ rw (e, skip_from) (omega (arith, skip_from-left host mode' (pos + 1) bs))
]

-- One byte more was there.
push-Ends-suc : (b n : ℕ) (r : Outcome Quoted) → Ends left n r → Ends left (suc n) (push b r)
push-Ends-suc b n r h = push-Ends b (suc n) r (Ends-weaken left n (suc n) r h (omega arith))

take_body-Ends :
    (s : ℕ) (q : Option ℕ) (d pos : ℕ) (bs : Text) → Ends left (length bs) (take_body s q d pos bs)
unfolding take_body
take_body-Ends s none d pos [] = tt
take_body-Ends s (some q) d pos [] = tt
take_body-Ends s none d pos (b ∷ bs) = elim (Bool-cases (eqb b 0x27)) [
  | inl quote ↦
      rw (quote, take_body) (push-Ends-suc b _ _ (take_body-Ends s (some pos) d (pos + 1) bs))
  | inr other ↦ elim (Bool-cases (eqb b 0x28)) [
    | inl opens ↦
        rw (other, opens, take_body)
          (push-Ends-suc b _ _ (take_body-Ends s none (d + 1) (pos + 1) bs))
    | inr other' ↦ elim (Bool-cases (eqb b 0x29)) [
      | inr plain ↦
          rw (other, other', plain, take_body)
            (push-Ends-suc b _ _ (take_body-Ends s none d (pos + 1) bs))
      | inl closes ↦ elim (Bool-cases (eqb d 1)) [
        | inl ends ↦ rw (other, other', closes, ends, take_body) (omega arith)
        | inr inner ↦
            rw (other, other', closes, inner, take_body)
              (push-Ends-suc b _ _ (take_body-Ends s none (d - 1) (pos + 1) bs))
      ]
    ]
  ]
]
take_body-Ends s (some q) d pos (b ∷ []) = elim (Bool-cases (eqb b 0x27)) [
  | inl quote ↦ rw (quote, take_body) tt
  | inr other ↦ rw (other, take_body) tt
]
take_body-Ends s (some q) d pos (b ∷ c ∷ bs) = elim (Bool-cases (eqb b 0x27)) [
  | inr other ↦
      rw (other, take_body) (push-Ends-suc b _ _ (take_body-Ends s (some q) d (pos + 1) (c ∷ bs)))
  | inl quote ↦ elim (Bool-cases (eqb c 0x27)) [
    | inr once ↦
        rw (quote, once, take_body)
          (push-Ends-suc b _ _ (take_body-Ends s none d (pos + 1) (c ∷ bs)))
    | inl twice ↦
        rw (quote, twice, take_body)
          (push-Ends-suc b _ _ (push-Ends-suc c _ _ (take_body-Ends s (some q) d (pos + 2) bs)))
  ]
]

pub take_tagged_body-Ends :
    (s : ℕ) (tag : TypeTag) (c : Cursor)
    → Ends left_behind (length c.rest) (take_tagged_body s tag c)
unfolding take_tagged_body
take_tagged_body-Ends s tag c =
    Ends-bind left left_behind (length c.rest) (length c.rest) (take_body s none 1 c.pos c.rest) _
      (take_body-Ends s none 1 c.pos c.rest) (λ q h. h)
