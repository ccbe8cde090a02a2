-- ===== src/Query/Lexer/Ends/Tokens.antt =====
-- src/entityQueryLanguage.ts: the lexer ends, for a token takes at least one byte.
use arkiv_chain_indexer.Common.{
  ℕ, zero, suc, ◌+◌, ◌≤◌, ◌≡◌, refl, inl, inr, Bool, true, false, Option, none, some, List, [], ◌∷◌,
  arith, eqb, leb, ◌&&◌, ◌||◌, Bool-cases, length, if◌then◌else◌,
}
use arkiv_chain_indexer.Query.Ends.{Ends, Ends-bind, Ends-weaken}
use arkiv_chain_indexer.Query.Syntax.{Text, Outcome, TypeTag, Token, SpannedToken}
use arkiv_chain_indexer.Query.Lexer.{
  Host, Cursor, scan_quoted, skip_trivia, take_while, typed_or_name, word_token, lex_word, lex_byte,
  next_token, token_at, tokenize_from, tokenize, at_byte, is_alpha, is_digit, Lexed, cons_token,
  is_name_char, take_if_equals, lex_bang, lex_string, lex_sysname, lex_signed, lex_number,
  type_tag_from_name, blank,
}
use arkiv_chain_indexer.Query.Lexer.Ends.{
  left, left_behind, scan_quoted-Ends, take_while-left, skip_from-left, take_tagged_body-Ends,
}

tail-left : (bs : Text) → length (elim bs [ [] ↦ [] | _ ∷ r ↦ r ]) ≤ length bs
tail-left [] = omega arith
tail-left (b ∷ bs) = omega arith

skip_trivia-left : (host : Host) (c : Cursor) → length (skip_trivia host c).rest ≤ length c.rest
unfolding skip_trivia
skip_trivia-left host c = skip_from-left host blank c.pos c.rest

typed_or_name-Ends :
    (host : Host) (start : ℕ) (word : Text) (c : Cursor) (tag : Option TypeTag)
    → Ends left_behind (length c.rest) (typed_or_name host start word c tag)
unfolding typed_or_name
typed_or_name-Ends host start word c none = omega arith
typed_or_name-Ends host start word c (some tag) =
    let behind = skip_trivia host c in
    let tail : Text = elim behind.rest [ [] ↦ [] | _ ∷ r ↦ r ] in
    elim (Bool-cases (at_byte 0x28 behind.rest)) [
      | inl opens ↦
          rw (opens, typed_or_name)
            (Ends-weaken left_behind (length tail) (length c.rest) _
              (take_tagged_body-Ends start tag (record { pos = behind.pos + 1; rest = tail }))
              (omega (arith, tail-left behind.rest, skip_trivia-left host c)))
      | inr other ↦ rw (other, typed_or_name) (omega arith)
    ]

word_token-Ends :
    (host : Host) (start : ℕ) (word : Text) (c : Cursor) (k : Option Token)
    → Ends left_behind (length c.rest) (word_token host start word c k)
unfolding word_token
word_token-Ends host start word c none =
    typed_or_name-Ends host start word c (type_tag_from_name word)
word_token-Ends host start word c (some k) = omega arith

take_while-shorter :
    (p : ℕ → Bool) (pos b : ℕ) (bs : Text)
    → p b ≡ true
    → length (take_while p pos (b ∷ bs)).1.rest ≤ length bs
unfolding take_while
take_while-shorter p pos b bs is = ground (arith, is, take_while-left p (pos + 1) bs)

lex_word-Ends :
    (host : Host) (pos b : ℕ) (bs : Text)
    → is_alpha b ≡ true
    → Ends left_behind (length bs) (lex_word host (record { pos = pos; rest = b ∷ bs }))
unfolding lex_word
lex_word-Ends host pos b bs is =
    let taken = take_while is_name_char pos (b ∷ bs) in
    Ends-weaken left_behind (length taken.1.rest) (length bs) _
      (word_token-Ends host pos taken.0 taken.1 _)
      (take_while-shorter is_name_char pos b bs (rw is refl))

take_if_equals-Ends :
    (a b : Token) (pos : ℕ) (bs : Text) → Ends left_behind (length bs) (take_if_equals a b pos bs)
take_if_equals-Ends a b pos bs = elim (Bool-cases (at_byte 0x3d bs)) [
  | inl is ↦ rw is (tail-left bs)
  | inr other ↦ rw other (omega arith)
]

lex_bang-Ends : (start : ℕ) (bs : Text) → Ends left_behind (length bs) (lex_bang start bs)
unfolding lex_bang
lex_bang-Ends start bs = elim (Bool-cases (at_byte 0x3d bs)) [
  | inl is ↦ rw (is, lex_bang) (tail-left bs)
  | inr other ↦ rw (other, lex_bang) tt
]

lex_string-Ends : (start : ℕ) (bs : Text) → Ends left_behind (length bs) (lex_string start bs)
unfolding lex_string
lex_string-Ends start bs =
    Ends-bind left left_behind (length bs) (length bs) (scan_quoted start (start + 1) bs) _
      (scan_quoted-Ends start (start + 1) bs) (λ q h. h)

lex_sysname-Ends : (start : ℕ) (bs : Text) → Ends left_behind (length bs) (lex_sysname start bs)
unfolding lex_sysname
lex_sysname-Ends start bs =
    let taken = take_while is_name_char (start + 1) bs in
    elim (Bool-cases (eqb (length taken.0) 0)) [
      | inl is ↦ rw (is, lex_sysname) tt
      | inr other ↦ rw (other, lex_sysname) (take_while-left is_name_char (start + 1) bs)
    ]

lex_signed-Ends : (start b : ℕ) (bs : Text) → Ends left_behind (length bs) (lex_signed start b bs)
unfolding lex_signed
lex_signed-Ends start b bs =
    let taken = take_while is_digit (start + 1) bs in
    elim (Bool-cases (leb (length (b ∷ taken.0)) 1)) [
      | inl is ↦ rw (is, lex_signed) tt
      | inr other ↦ rw (other, lex_signed) (take_while-left is_digit (start + 1) bs)
    ]

lex_number-Ends :
    (start b : ℕ) (bs : Text)
    → is_digit b ≡ true
    → Ends left_behind (length bs) (lex_number start b bs)
unfolding lex_number
lex_number-Ends start b bs is =
    elim (Bool-cases (eqb b 0x30 && (at_byte 0x78 bs || at_byte 0x58 bs))) [
      | inl hex ↦ rw (hex, lex_number) tt
      | inr other ↦ rw (other, lex_number) (take_while-shorter is_digit start b bs is)
    ]

if-Ends :
    (n : ℕ) (b : Bool) (x y : Lexed)
    → (b ≡ true → Ends left_behind n x)
    → (b ≡ false → Ends left_behind n y)
    → Ends left_behind n (if b then x else y)
if-Ends n true x y f g = f refl
if-Ends n false x y f g = g refl

-- A token of `lex_byte` takes its first byte and leaves no more than the rest.
lex_byte-Ends :
    (host : Host) (start b : ℕ) (bs : Text)
    → Ends left_behind (length bs) (lex_byte host start b bs)
unfolding lex_byte
lex_byte-Ends host start b bs =
    let n = length bs in
    if-Ends n (eqb b 0x28) _ _ (λ _. omega arith)
      (λ _.
        if-Ends n (eqb b 0x29) _ _ (λ _. omega arith)
          (λ _.
            if-Ends n (eqb b 0x2a) _ _ (λ _. omega arith)
              (λ _.
                if-Ends n (eqb b 0x3d) _ _ (λ _. omega arith)
                  (λ _.
                    if-Ends n (eqb b 0x21) _ _ (λ _. lex_bang-Ends start bs)
                      (λ _.
                        if-Ends n (eqb b 0x3c) _ _ (λ _. take_if_equals-Ends _ _ (start + 1) bs)
                          (λ _.
                            if-Ends n (eqb b 0x3e) _ _ (λ _. take_if_equals-Ends _ _ (start + 1) bs)
                              (λ _.
                                if-Ends n (eqb b 0x27) _ _ (λ _. lex_string-Ends start bs)
                                  (λ _.
                                    if-Ends n (eqb b 0x24) _ _ (λ _. lex_sysname-Ends start bs)
                                      (λ _.
                                        if-Ends n (eqb b 0x26 || eqb b 0x7c || eqb b 0x7e) _ _
                                          (λ _. tt)
                                          (λ _.
                                            if-Ends n (eqb b 0x2d || eqb b 0x2b) _ _
                                              (λ _. lex_signed-Ends start b bs)
                                              (λ _.
                                                if-Ends n (is_digit b) _ _
                                                  (λ is. lex_number-Ends start b bs is)
                                                  (λ _.
                                                    if-Ends n (is_alpha b) _ _
                                                      (λ is. lex_word-Ends host start b bs is)
                                                      (λ _. tt)))))))))))))

-- What is left behind a token that was found, one byte counted for the token.
abbrev left_after : Option (SpannedToken × Cursor) → ℕ
left_after none = 0
left_after (some (t, c)) = suc (length c.rest)

token_at-Ends :
    (host : Host) (start : ℕ) (bs : Text) → Ends left_after (length bs) (token_at host start bs)
unfolding token_at
token_at-Ends host start [] = omega arith
token_at-Ends host start (b ∷ bs) =
    Ends-bind left_behind left_after (length bs) (suc (length bs)) (lex_byte host start b bs) _
      (lex_byte-Ends host start b bs) (λ p h. omega (arith, h))

next_token-Ends : (host : Host) (c : Cursor) → Ends left_after (length c.rest) (next_token host c)
unfolding next_token
next_token-Ends host c =
    Ends-weaken left_after (length (skip_trivia host c).rest) (length c.rest) _
      (token_at-Ends host (skip_trivia host c).pos (skip_trivia host c).rest)
      (skip_trivia-left host c)

abbrev pub token_count : List SpannedToken → ℕ
token_count ts = length ts

cons_token-Ends :
    (n : ℕ) (more : Cursor → Outcome (List SpannedToken)) (found : Option (SpannedToken × Cursor))
    → ((c : Cursor) → length c.rest + 1 ≤ n → Ends token_count (length c.rest) (more c))
    → left_after found ≤ n
    → Ends token_count n (cons_token more found)
cons_token-Ends n more none go h = omega arith
cons_token-Ends n more (some (t, c)) go h =
    Ends-bind token_count token_count (length c.rest) n (more c) _ (go c (omega (arith, h)))
      (λ ts short. omega (arith, h, short))

-- The loop ends on one round more than there are bytes.
tokenize_from-Ends :
    (host : Host) (fuel : ℕ) (c : Cursor)
    → length c.rest + 1 ≤ fuel
    → Ends token_count (length c.rest) (tokenize_from fuel host c)
unfolding tokenize_from
tokenize_from-Ends host zero c enough = absurd (omega (arith, enough))
tokenize_from-Ends host (suc fuel) c enough =
    Ends-bind left_after token_count (length c.rest) (length c.rest) (next_token host c) _
      (next_token-Ends host c)
      (λ found h.
        cons_token-Ends (length c.rest) (tokenize_from fuel host) found
          (λ c' short. tokenize_from-Ends host fuel c' (omega (arith, short, enough))) h)

-- The lexer ends on every source, with an error or with at most as many tokens as the source has
-- bytes.
pub tokenize-Ends : (host : Host) (src : Text) → Ends token_count (length src) (tokenize host src)
unfolding tokenize
tokenize-Ends host src =
    tokenize_from-Ends host (suc (length src)) (record { pos = 0; rest = src }) (omega arith)
