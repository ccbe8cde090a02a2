-- ===== src/Query/Lexer.antt =====
-- src/entityQueryLanguage.ts, the lexer. `pos` and the source are a cursor: the offset, and the
-- bytes from there on. What the source asks of JavaScript and of viem is the parameter `host`.
pub mod Tests
pub mod Ends
use arkiv_chain_indexer.Common.{
  ℕ, zero, suc, ◌+◌, ◌-◌, Bool, true, false, not, ◌&&◌, ◌||◌, Option, none, some, List, [], ◌∷◌,
  ◌++◌, map, ltb, leb, eqb, if◌then◌else◌, length, take,
}
use arkiv_chain_indexer.Query.Syntax.{
  Text, codes, Outcome, ok, fail, out_of_fuel, ◌>>=◌, syntax_error, TypeTag, Token, SpannedToken,
}
use arkiv_chain_indexer.Query.Syntax

pub record Host : Type 0 where
  -- `/^\s$/u` on one character that is not ASCII, given as its UTF-8 bytes
  pub space : Text → Bool
  -- the hex digit at an index of the keccak256 of a text
  pub keccak_digit : Text → ℕ → ℕ

pub record Cursor : Type 0 where
  pub pos : ℕ
  pub rest : Text

abbrev pub is_digit : ℕ → Bool
is_digit byte = leb 0x30 byte && leb byte 0x39

abbrev pub is_alpha : ℕ → Bool
is_alpha byte = (leb 0x41 byte && leb byte 0x5a) || (leb 0x61 byte && leb byte 0x7a)

abbrev pub is_name_char : ℕ → Bool
is_name_char byte =
    is_alpha byte || is_digit byte || eqb byte 0x5f || eqb byte 0x2e || eqb byte 0x2d

-- `this.src[this.pos] === byte`
abbrev pub at_byte : ℕ → Text → Bool
at_byte byte [] = false
at_byte byte (b ∷ _) = eqb b byte

abbrev pub to_lower_byte : ℕ → ℕ
to_lower_byte b = if leb 0x41 b && leb b 0x5a then b + 32 else b

unfoldable pub to_lower : Text → Text
to_lower [] = []
to_lower (b ∷ bs) = to_lower_byte b ∷ to_lower bs

unfoldable pub text_eq : Text → Text → Bool
text_eq [] [] = true
text_eq (a ∷ as') (b ∷ bs) = eqb a b && text_eq as' bs
text_eq _ _ = false

-- The contents of a literal, and the cursor past its closing quote.
pub record Quoted : Type 0 where
  pub content : Text
  pub after : Cursor

abbrev pub push : ℕ → Outcome Quoted → Outcome Quoted
push byte r = do q ← r; ok (record { content = byte ∷ q.content; after = q.after })

abbrev unterminated_string : ℕ → Outcome Quoted
unterminated_string open_at =
    fail (syntax_error open_at (codes "unterminated string literal — expected a closing '"))

-- The loop of `scanSingleQuoted`, from the byte after the opening quote.
unfoldable pub scan_quoted : ℕ → ℕ → Text → Outcome Quoted
scan_quoted open_at index [] = unterminated_string open_at
scan_quoted open_at index (b ∷ []) =
    if eqb b 0x27
    then ok (record { content = []; after = record { pos = index + 1; rest = [] } })
    else unterminated_string open_at
scan_quoted open_at index (b ∷ c ∷ rest) = elim (eqb b 0x27) [
  | true ↦ elim (eqb c 0x27) [
    | true ↦ push 0x27 (scan_quoted open_at (index + 2) rest)
    | false ↦ ok (record { content = []; after = record { pos = index + 1; rest = c ∷ rest } })
  ]
  | false ↦ push b (scan_quoted open_at (index + 1) (c ∷ rest))
]

-- The width of a UTF-8 character by its lead byte, as in `charAt`.
unfoldable pub char_width : ℕ → ℕ
char_width lead =
    if ltb lead 0x80
    then 1
    else if leb 0xf0 lead
    then 4
    else if leb 0xe0 lead
    then 3
    else if leb 0xc0 lead
    then 2
    else 1

-- Where `skipTrivia` stands: among white space, in a comment, or `n` bytes before the end of a
-- white space character that is not ASCII.
pub data Trivia : Type 0 where
  blank comment : Trivia
  inside : ℕ → Trivia

abbrev byte_order_mark : Text
byte_order_mark = 0xef ∷ 0xbb ∷ 0xbf ∷ []

abbrev pub is_ascii_space : ℕ → Bool
is_ascii_space byte = eqb byte 0x20 || (leb 0x09 byte && leb byte 0x0d)

-- What follows after a byte that is skipped; `none` where the trivia end before it.
unfoldable pub at_blank : Host → ℕ → Text → Option Trivia
unfolding char_width text_eq
at_blank host byte rest =
    if ltb byte 0x80
    then (if is_ascii_space byte
        then some blank
        else if eqb byte 0x2d && at_byte 0x2d rest
        then some comment
        else none)
    else (let char = take (char_width byte) (byte ∷ rest) in
        if host.space char && not (text_eq char byte_order_mark)
        then some (inside (char_width byte - 1))
        else none)

unfoldable pub after_byte : Host → Trivia → ℕ → Text → Option Trivia
unfolding at_blank
after_byte host blank byte rest = at_blank host byte rest
after_byte host (inside zero) byte rest = at_blank host byte rest
after_byte host (inside (suc n)) byte rest = some (inside n)
after_byte host comment byte rest = some (if eqb byte 0x0a then blank else comment)

unfoldable pub skip_from : Host → Trivia → ℕ → Text → Cursor
unfolding after_byte
skip_from host mode pos [] = record { pos = pos; rest = [] }
skip_from host mode pos (byte ∷ rest) = elim (after_byte host mode byte rest) [
  | some mode' ↦ skip_from host mode' (pos + 1) rest
  | none ↦ record { pos = pos; rest = byte ∷ rest }
]

unfoldable pub skip_trivia : Host → Cursor → Cursor
unfolding skip_from
skip_trivia host c = skip_from host blank c.pos c.rest

-- A run of bytes that pass a test, and the cursor behind it.
unfoldable pub take_while : (ℕ → Bool) → ℕ → Text → Text × Cursor
take_while p pos [] = ([], record { pos = pos; rest = [] })
take_while p pos (byte ∷ rest) =
    let more = take_while p (pos + 1) rest in
    if p byte then (byte ∷ more.0, more.1) else ([], record { pos = pos; rest = byte ∷ rest })

unfoldable pub take_name_chars : Cursor → Text × Cursor
unfolding take_while
take_name_chars c = take_while is_name_char c.pos c.rest

unfoldable pub take_int_from : ℕ → Text → Text × Cursor
unfolding take_while
take_int_from pos [] = ([], record { pos = pos; rest = [] })
take_int_from pos (byte ∷ rest) =
    if eqb byte 0x2d || eqb byte 0x2b
    then (let more = take_while is_digit (pos + 1) rest in (byte ∷ more.0, more.1))
    else take_while is_digit pos (byte ∷ rest)

unfoldable pub take_int_chars : Cursor → Text × Cursor
unfolding take_int_from
take_int_chars c = take_int_from c.pos c.rest

-- `KEYWORDS[word]`
unfoldable pub keyword : Text → Option Token
unfolding codes text_eq
keyword word =
    if text_eq word (codes "and")
    then some Token.kw_and
    else if text_eq word (codes "or")
    then some Token.kw_or
    else if text_eq word (codes "not")
    then some Token.kw_not
    else if text_eq word (codes "true")
    then some Token.kw_true
    else if text_eq word (codes "false")
    then some Token.kw_false
    else if text_eq word (codes "startswith")
    then some Token.kw_startswith
    else if text_eq word (codes "exists")
    then some Token.kw_exists
    else if text_eq word (codes "typeof")
    then some Token.kw_typeof
    else if text_eq word (codes "constructor")
    then some Token.inherited
    else none

unfoldable pub type_tag_from_name : Text → Option TypeTag
unfolding codes text_eq to_lower
type_tag_from_name name =
    let lower = to_lower name in
    if text_eq lower (codes "i32")
    then some TypeTag.i32
    else if text_eq lower (codes "u64")
    then some TypeTag.u64
    else if text_eq lower (codes "u256")
    then some TypeTag.u256
    else if text_eq lower (codes "dec")
    then some TypeTag.dec
    else if text_eq lower (codes "str")
    then some TypeTag.str
    else if text_eq lower (codes "addr")
    then some TypeTag.addr
    else if text_eq lower (codes "key")
    then some TypeTag.key
    else if text_eq lower (codes "bytes32")
    then some TypeTag.bytes32
    else if text_eq lower (codes "bool")
    then some TypeTag.bool
    else none

-- The raw text of a typed literal, and the cursor past its closing parenthesis.
abbrev Raw : Type 0
Raw = Outcome Quoted

-- The loop of `takeTaggedBody`; `quote` is the offset of the quote that is open, if one is.
unfoldable pub take_body : ℕ → Option ℕ → ℕ → ℕ → Text → Raw
take_body literal_start none depth pos [] =
    fail (syntax_error literal_start (codes "unterminated typed literal — expected a closing ')'"))
take_body literal_start (some quote) depth pos [] = unterminated_string quote
take_body literal_start none depth pos (b ∷ rest) = elim (eqb b 0x27) [
  | true ↦ push b (take_body literal_start (some pos) depth (pos + 1) rest)
  | false ↦ elim (eqb b 0x28) [
    | true ↦ push b (take_body literal_start none (depth + 1) (pos + 1) rest)
    | false ↦ elim (eqb b 0x29) [
      | true ↦ elim (eqb depth 1) [
        | true ↦ ok (record { content = []; after = record { pos = pos + 1; rest = rest } })
        | false ↦ push b (take_body literal_start none (depth - 1) (pos + 1) rest)
      ]
      | false ↦ push b (take_body literal_start none depth (pos + 1) rest)
    ]
  ]
]
take_body literal_start (some quote) depth pos (b ∷ []) = elim (eqb b 0x27) [
  | true ↦ push b (take_body literal_start none depth (pos + 1) [])
  | false ↦ unterminated_string quote
]
take_body literal_start (some quote) depth pos (b ∷ c ∷ rest) = elim (eqb b 0x27) [
  | true ↦ elim (eqb c 0x27) [
    | true ↦ push b (push c (take_body literal_start (some quote) depth (pos + 2) rest))
    | false ↦ push b (take_body literal_start none depth (pos + 1) (c ∷ rest))
  ]
  | false ↦ push b (take_body literal_start (some quote) depth (pos + 1) (c ∷ rest))
]

abbrev pub Lexed : Type 0
Lexed = Outcome (Token × Cursor)

unfoldable pub take_tagged_body : ℕ → TypeTag → Cursor → Lexed
unfolding take_body
take_tagged_body literal_start tag c = do
  q ← take_body literal_start none 1 c.pos c.rest
  ok (Token.tagged tag q.content c.pos, q.after)

-- The word `word` was read, and `c` stands behind it.
unfoldable pub typed_or_name : Host → ℕ → Text → Cursor → Option TypeTag → Lexed
unfolding skip_trivia take_tagged_body
typed_or_name host start word c none = ok (Token.name word, c)
typed_or_name host start word c (some tag) =
    let behind = skip_trivia host c in
    if at_byte 0x28 behind.rest
    then take_tagged_body start tag
        (record { pos = behind.pos + 1; rest = elim behind.rest [ [] ↦ [] | _ ∷ r ↦ r ] })
    else ok (Token.name word, c)

unfoldable pub word_token : Host → ℕ → Text → Cursor → Option Token → Lexed
unfolding typed_or_name type_tag_from_name
word_token host start word c (some token) = ok (token, c)
word_token host start word c none = typed_or_name host start word c (type_tag_from_name word)

unfoldable pub lex_word : Host → Cursor → Lexed
unfolding take_name_chars word_token keyword to_lower
lex_word host c =
    let (word, behind) = take_name_chars c in
    word_token host c.pos word behind (keyword (to_lower word))

abbrev pub take_if_equals : Token → Token → ℕ → Text → Lexed
take_if_equals with_equals bare pos rest =
    if at_byte 0x3d rest
    then ok (with_equals, record { pos = pos + 1; rest = elim rest [ [] ↦ [] | _ ∷ r ↦ r ] })
    else ok (bare, record { pos = pos; rest = rest })

unfoldable pub lex_bang : ℕ → Text → Lexed
lex_bang start rest =
    if at_byte 0x3d rest
    then ok (Token.neq, record { pos = start + 2; rest = elim rest [ [] ↦ [] | _ ∷ r ↦ r ] })
    else fail (syntax_error start (codes "unexpected '!' — negation is written NOT"))

unfoldable pub lex_string : ℕ → Text → Lexed
unfolding scan_quoted
lex_string start rest = do
  q ← scan_quoted start (start + 1) rest
  ok (Token.quoted q.content, q.after)

unfoldable pub lex_sysname : ℕ → Text → Lexed
unfolding take_while
lex_sysname start rest =
    let (name, behind) = take_while is_name_char (start + 1) rest in
    if eqb (length name) 0
    then fail (syntax_error start (codes "expected a system attribute name after '$'"))
    else ok (Token.sysname name, behind)

unfoldable pub lex_signed : ℕ → ℕ → Text → Lexed
unfolding take_while
lex_signed start byte rest =
    let (digits, behind) = take_while is_digit (start + 1) rest in
    if leb (length (byte ∷ digits)) 1
    then fail (syntax_error start (codes "expected digits after the sign"))
    else ok (Token.int (byte ∷ digits), behind)

unfoldable pub lex_number : ℕ → ℕ → Text → Lexed
unfolding take_while
lex_number start byte rest =
    if eqb byte 0x30 && (at_byte 0x78 rest || at_byte 0x58 rest)
    then fail (
        syntax_error start (
          codes
            "a hex literal must carry its type — write addr(0x…), key(0x…), bytes32(0x…) or u256(0x…)"))
    else (let (digits, behind) = take_while is_digit start (byte ∷ rest) in
        ok (Token.int digits, behind))

abbrev pub single : ℕ → Text → Token → Lexed
single start rest token = ok (token, record { pos = start + 1; rest = rest })

-- The `switch` of `nextToken` on the byte at the cursor.
unfoldable pub lex_byte : Host → ℕ → ℕ → Text → Lexed
unfolding lex_bang lex_string lex_sysname lex_signed lex_number lex_word
lex_byte host start byte rest =
    if eqb byte 0x28
    then single start rest Token.lparen
    else if eqb byte 0x29
    then single start rest Token.rparen
    else if eqb byte 0x2a
    then single start rest Token.star
    else if eqb byte 0x3d
    then single start rest Token.equal
    else if eqb byte 0x21
    then lex_bang start rest
    else if eqb byte 0x3c
    then take_if_equals Token.less_equal Token.less (start + 1) rest
    else if eqb byte 0x3e
    then take_if_equals Token.greater_equal Token.greater (start + 1) rest
    else if eqb byte 0x27
    then lex_string start rest
    else if eqb byte 0x24
    then lex_sysname start rest
    else if eqb byte 0x26 || eqb byte 0x7c || eqb byte 0x7e
    then fail (
        syntax_error start
          (codes "symbol operators (&& || ~) were removed — use AND, OR, STARTSWITH"))
    else if eqb byte 0x2d || eqb byte 0x2b
    then lex_signed start byte rest
    else if is_digit byte
    then lex_number start byte rest
    else if is_alpha byte
    then lex_word host (record { pos = start; rest = byte ∷ rest })
    else fail (syntax_error start (codes "unexpected character"))

-- `nextToken` at a cursor behind the trivia; no token at the end of the source.
unfoldable pub token_at : Host → ℕ → Text → Outcome (Option (SpannedToken × Cursor))
unfolding lex_byte
token_at host start [] = ok none
token_at host start (byte ∷ rest) = do
  (token, behind) ← lex_byte host start byte rest
  ok (some (record { token = token; start = start }, behind))

unfoldable pub next_token : Host → Cursor → Outcome (Option (SpannedToken × Cursor))
unfolding token_at skip_trivia
next_token host c = let behind = skip_trivia host c in token_at host behind.pos behind.rest

abbrev pub cons_token :
    (Cursor → Outcome (List SpannedToken))
    → Option (SpannedToken × Cursor)
    → Outcome (List SpannedToken)
cons_token more none = ok []
cons_token more (some (token, behind)) = do tokens ← more behind; ok (token ∷ tokens)

-- The loop of `tokenize`.
unfoldable pub tokenize_from : ℕ → Host → Cursor → Outcome (List SpannedToken)
tokenize_from zero host c = out_of_fuel
tokenize_from (suc fuel) host c = do
  found ← next_token host c
  cons_token (tokenize_from fuel host) found

-- Every round of the loop takes at least one byte, so one more round than there are bytes is
-- enough.
unfoldable pub tokenize : Host → Text → Outcome (List SpannedToken)
unfolding tokenize_from next_token
tokenize host src = tokenize_from (suc (length src)) host (record { pos = 0; rest = src })
