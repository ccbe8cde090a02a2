-- ===== src/Query/Literals.antt =====
-- src/entityQueryLanguage.ts, the literals: from the text of a value to the value.
pub mod Done
use arkiv_chain_indexer.Common.{
  ℕ, zero, suc, ◌+◌, ◌-◌, ◌*◌, Bool, true, false, not, ◌&&◌, ◌||◌, Option, none, some, List, [],
  ◌∷◌, ◌++◌, ltb, leb, eqb, if◌then◌else◌, length,
}
use arkiv_chain_indexer.Common.Int.{ℤ, signed}
use arkiv_chain_indexer.EntityValues.{
  u64_max, u256_max, i256_max, i256_min_magnitude, i32_max, decimal_scale,
}
use arkiv_chain_indexer.Query.Syntax.{
  Text, codes, Outcome, ok, fail, ◌>>=◌, literal_error, TypeTag, QueryValue, max_str_bytes,
}
use arkiv_chain_indexer.Query.Lexer.{Host, at_byte, is_ascii_space, is_digit, scan_quoted, to_lower}

-- The characters of a text: a byte and the continuation bytes behind it.
abbrev is_continuation : ℕ → Bool
is_continuation byte = leb 0x80 byte && ltb byte 0xc0

glue : ℕ → List Text → List Text
glue byte [] = (byte ∷ []) ∷ []
glue byte ([] ∷ chars) = (byte ∷ []) ∷ chars
glue byte ((b ∷ bs) ∷ chars) =
    if is_continuation b then (byte ∷ b ∷ bs) ∷ chars else (byte ∷ []) ∷ (b ∷ bs) ∷ chars

characters : Text → List Text
unfolding glue
characters [] = []
characters (byte ∷ rest) = glue byte (characters rest)

is_space : Host → Text → Bool
is_space host [] = false
is_space host (byte ∷ []) = is_ascii_space byte
is_space host (byte ∷ more) = host.space (byte ∷ more)

drop_spaces : Host → List Text → List Text
unfolding is_space
drop_spaces host [] = []
drop_spaces host (char ∷ chars) =
    let rest = drop_spaces host chars in if is_space host char then rest else char ∷ chars

-- The characters up to the last one that is no white space.
keep_end : Host → Text → List Text → List Text
unfolding is_space
keep_end host char [] = if is_space host char then [] else char ∷ []
keep_end host char (c ∷ cs) = char ∷ c ∷ cs

drop_end : Host → List Text → List Text
unfolding keep_end
drop_end host [] = []
drop_end host (char ∷ chars) = keep_end host char (drop_end host chars)

concat : List Text → Text
concat [] = []
concat (c ∷ cs) = c ++ concat cs

-- `String.prototype.trim`
unfoldable pub trim : Host → Text → Text
unfolding characters drop_spaces drop_end concat
trim host text = concat (drop_end host (drop_spaces host (characters text)))

abbrev utf16_units : ℕ → ℕ
utf16_units byte = if is_continuation byte then 0 else if leb 0xf0 byte then 2 else 1

-- `length` of a JavaScript string, from its UTF-8 bytes.
unfoldable pub utf16_length : Text → ℕ
utf16_length [] = 0
utf16_length (byte ∷ rest) = utf16_units byte + utf16_length rest

abbrev pub too_large : ℕ → Text → Outcome ℕ
too_large position tag = fail (literal_error position (codes "value is out of range for " ++ tag))

-- The sign and the text behind it.
unfoldable pub split_sign : Text → Bool × Text
split_sign [] = (false, [])
split_sign (byte ∷ rest) =
    if eqb byte 0x2d
    then (true, rest)
    else if eqb byte 0x2b
    then (false, rest)
    else (false, byte ∷ rest)

unfoldable pub strip_hex_prefix : Text → Option Text
strip_hex_prefix (a ∷ b ∷ rest) =
    if eqb a 0x30 && (eqb b 0x78 || eqb b 0x58) then some rest else none
strip_hex_prefix _ = none

-- The loop of `decimalMagnitude`.
unfoldable pub digits_from : ℕ → ℕ → Text → ℕ → Text → Outcome ℕ
digits_from value position tag max [] = ok value
digits_from value position tag max (char ∷ rest) =
    let value' = value * 10 + (char - 48) in
    let further = digits_from value' position tag max rest in
    if not (is_digit char)
    then fail (literal_error position (tag ++ codes " expects decimal digits"))
    else if ltb max value'
    then too_large position tag
    else further

unfoldable pub decimal_magnitude : Text → ℕ → Text → ℕ → Outcome ℕ
unfolding digits_from
decimal_magnitude [] position tag max =
    fail (literal_error position (tag ++ codes " expects a number"))
decimal_magnitude (d ∷ ds) position tag max = digits_from 0 position tag max (d ∷ ds)

abbrev pub is_hex_digit : ℕ → Bool
is_hex_digit b = is_digit b || (leb 0x61 b && leb b 0x66) || (leb 0x41 b && leb b 0x46)

unfoldable pub all_hex : Text → Bool
all_hex [] = true
all_hex (b ∷ bs) = is_hex_digit b && all_hex bs

unfoldable pub check_hex_digits : Text → ℕ → Text → Outcome (Unit {0})
unfolding all_hex
check_hex_digits [] position tag =
    fail (literal_error position (tag ++ codes " expects hex digits after 0x"))
check_hex_digits (b ∷ bs) position tag =
    if all_hex (b ∷ bs)
    then ok tt
    else fail (literal_error position (tag ++ codes " contains a non-hex digit"))

-- The number of a hex digit, and of a text of them (`BigInt("0x…")`).
abbrev hex_value : ℕ → ℕ
hex_value b = if is_digit b then b - 0x30 else if leb 0x61 b then b - 0x57 else b - 0x37

hex_from : ℕ → Text → ℕ
hex_from value [] = value
hex_from value (b ∷ bs) = hex_from (value * 16 + hex_value b) bs

unfoldable pub fit_i32 : ℕ → Bool → ℕ → Outcome ℤ
fit_i32 position negative magnitude =
    if ltb (if negative then i32_max + 1 else i32_max) magnitude
    then fail (
        literal_error position (
          codes
            "value is out of range for i32 [-2147483648, 2147483647] — use u256(…) for larger numbers"))
    else ok (signed negative magnitude)

unfoldable pub parse_i32 : Host → Text → ℕ → Outcome ℤ
unfolding split_sign fit_i32
parse_i32 host body position = do
  let (negative, rest) = split_sign (trim host body)
  magnitude ← decimal_magnitude rest position (codes "i32") u64_max
  fit_i32 position negative magnitude

abbrev has_sign : Text → Bool
has_sign text = at_byte 0x2d text || at_byte 0x2b text

unfoldable pub u64_unsigned : Text → ℕ → Option Text → Outcome ℕ
unfolding hex_from
u64_unsigned text position none = decimal_magnitude text position (codes "u64") u64_max
u64_unsigned text position (some hex) =
    if eqb (utf16_length hex) 0 || ltb 16 (utf16_length hex)
    then fail (
        literal_error position
          (codes "u64 hex must be 1 to 16 digits — use u256(…) for larger numbers"))
    else (do _ ← check_hex_digits hex position (codes "u64"); ok (hex_from 0 hex))

unfoldable pub parse_u64 : Host → Text → ℕ → Outcome ℕ
unfolding u64_unsigned strip_hex_prefix
parse_u64 host body position =
    let text = trim host body in
    if has_sign text
    then fail (literal_error position (codes "u64 is unsigned — remove the sign, or use i32(…)"))
    else u64_unsigned text position (strip_hex_prefix text)

-- `hex.replace(/^0+/, "")`
unfoldable pub drop_zeros : Text → Text
drop_zeros [] = []
drop_zeros (b ∷ bs) = let rest = drop_zeros bs in if eqb b 0x30 then rest else b ∷ bs

unfoldable pub u256_unsigned : Text → ℕ → Option Text → Outcome ℕ
unfolding hex_from drop_zeros
u256_unsigned text position none = decimal_magnitude text position (codes "u256") u256_max
u256_unsigned text position (some hex) = do
  _ ← check_hex_digits hex position (codes "u256")
  (if ltb 64 (utf16_length (drop_zeros hex))
      then too_large position (codes "u256")
      else ok (hex_from 0 hex))

unfoldable pub parse_u256 : Host → Text → ℕ → Outcome ℕ
unfolding u256_unsigned strip_hex_prefix
parse_u256 host body position =
    let text = trim host body in
    if has_sign text
    then fail (literal_error position (codes "u256 is unsigned — remove the sign, or use i32(…)"))
    else u256_unsigned text position (strip_hex_prefix text)

-- The text before the first `.`, and the text behind it if there is one.
unfoldable pub split_dot : Text → Text × Option Text
split_dot [] = ([], none)
split_dot (b ∷ bs) =
    let (whole, fraction) = split_dot bs in
    if eqb b 0x2e then ([], some bs) else (b ∷ whole, fraction)

-- The loop over the eighteen places; a place without a digit counts 0.
unfoldable pub scale : ℕ → ℕ → ℕ → Text → Outcome ℕ
scale zero value position fraction = ok value
scale (suc places) value position [] =
    let further = scale places (value * 10) position [] in
    if ltb u256_max (value * 10) then too_large position (codes "dec") else further
scale (suc places) value position (char ∷ fraction) =
    let value' = value * 10 + (char - 48) in
    let further = scale places value' position fraction in
    if not (is_digit char)
    then fail (literal_error position (codes "dec expects decimal digits"))
    else if ltb u256_max value'
    then too_large position (codes "dec")
    else further

abbrev pub or_empty : Option Text → Text
or_empty none = []
or_empty (some t) = t

abbrev pub is_empty_fraction : Option Text → Bool
is_empty_fraction none = false
is_empty_fraction (some []) = true
is_empty_fraction (some (_ ∷ _)) = false

-- The scaled magnitude must fit a signed 256-bit word.
unfoldable pub dec_units : Bool → ℕ → ℕ → Outcome ℤ
dec_units negative position value =
    if ltb i256_max value && not (negative && eqb value i256_min_magnitude)
    then fail (literal_error position (codes "value is out of range for " ++ codes "dec"))
    else ok (signed negative value)

-- `parseDec` behind the split into sign, whole and fraction.
unfoldable pub dec_parts : ℕ → Bool → Text → Option Text → Outcome ℤ
unfolding dec_units scale
dec_parts position negative whole fraction =
    if eqb (length whole) 0
    then fail
        (literal_error position (codes "dec needs at least one digit before the decimal point"))
    else if is_empty_fraction fraction
    then fail
        (literal_error position (codes "dec needs at least one digit after the decimal point"))
    else if ltb decimal_scale (utf16_length (or_empty fraction))
    then fail (
        literal_error position (
          codes
            "dec accepts at most 18 decimal places — excess precision is rejected, never rounded"))
    else (do
      value ← decimal_magnitude whole position (codes "dec") u256_max
      scaled ← scale decimal_scale value position (or_empty fraction)
      dec_units negative position scaled)

unfoldable pub parse_dec : Host → Text → ℕ → Outcome ℤ
unfolding split_sign split_dot dec_parts
parse_dec host body position =
    let (negative, rest) = split_sign (trim host body) in
    let (whole, fraction) = split_dot rest in dec_parts position negative whole fraction

unfoldable pub validate_str_length : Text → ℕ → Outcome Text
validate_str_length content position =
    if ltb max_str_bytes (length content)
    then fail (literal_error position (codes "str values are limited to 128 bytes of UTF-8"))
    else ok content

-- A `scanSingleQuoted` that threw has its own position, the opening quote at 0.
unfoldable pub str_content : ℕ → Text → Outcome Text
unfolding validate_str_length
str_content position text = do
  q ← scan_quoted 0 1 (elim text [ [] ↦ [] | _ ∷ rest ↦ rest ])
  elim q.after.rest [
    | [] ↦ validate_str_length q.content position
    | _ ∷ _ ↦
        fail (literal_error position (codes "unexpected text after the closing quote in str(…)"))
  ]

unfoldable pub parse_str : Host → Text → ℕ → Outcome Text
unfolding str_content
parse_str host body position =
    let text = trim host body in
    if not (at_byte 0x27 text)
    then fail (literal_error position (codes "str takes a single-quoted string, e.g. str('Bob')"))
    else str_content position text

abbrev is_upper_hex : ℕ → Bool
is_upper_hex b = leb 0x41 b && leb b 0x46

abbrev is_lower_hex : ℕ → Bool
is_lower_hex b = leb 0x61 b && leb b 0x66

any_byte : (ℕ → Bool) → Text → Bool
any_byte p [] = false
any_byte p (b ∷ bs) = p b || any_byte p bs

-- The loop of `checkEip55`: every letter is upper case exactly where the digest has 8 or more.
checksum_from : (ℕ → ℕ) → ℕ → Text → Bool
checksum_from digit index [] = true
checksum_from digit index (char ∷ rest) =
    (is_digit char
      || (if is_upper_hex char then leb 8 (digit index) else not (leb 8 (digit index))))
    && checksum_from digit (index + 1) rest

unfoldable pub check_eip55 : Host → Text → ℕ → Outcome (Unit {0})
unfolding any_byte checksum_from to_lower
check_eip55 host hex position =
    if not (any_byte is_upper_hex hex && any_byte is_lower_hex hex)
    then ok tt
    else if checksum_from (host.keccak_digit (to_lower hex)) 0 hex
    then ok tt
    else fail (
        literal_error position (
          codes
            "address fails its EIP-55 checksum — fix the capitalization, or write it all-lowercase"))

abbrev pub zero_x : Text
zero_x = 0x30 ∷ 0x78 ∷ []

unfoldable pub addr_hex : Host → ℕ → Option Text → Outcome Text
unfolding check_hex_digits to_lower
addr_hex host position none =
    fail (literal_error position (codes "addr takes a 0x-prefixed address, e.g. addr(0xAbC…)"))
addr_hex host position (some hex) =
    if not (eqb (utf16_length hex) 40)
    then fail (literal_error position (codes "an address is 0x followed by exactly 40 hex digits"))
    else (do
      _ ← check_hex_digits hex position (codes "addr")
      _ ← check_eip55 host hex position
      ok (zero_x ++ to_lower hex))

unfoldable pub parse_addr : Host → Text → ℕ → Outcome Text
unfolding addr_hex strip_hex_prefix
parse_addr host body position = addr_hex host position (strip_hex_prefix (trim host body))

unfoldable pub word_hex : ℕ → Text → Option Text → Outcome Text
unfolding check_hex_digits to_lower
word_hex position tag none =
    fail (literal_error position (codes "expected a 0x-prefixed 32-byte value"))
word_hex position tag (some hex) =
    if not (eqb (utf16_length hex) 64)
    then fail (literal_error position (codes "expected 0x followed by exactly 64 hex digits"))
    else (do _ ← check_hex_digits hex position tag; ok (zero_x ++ to_lower hex))

unfoldable pub parse_word_hex : Host → Text → ℕ → Text → Outcome Text
unfolding word_hex strip_hex_prefix
parse_word_hex host body position tag = word_hex position tag (strip_hex_prefix (trim host body))

unfoldable pub parse_tagged : Host → TypeTag → Text → ℕ → Outcome QueryValue
parse_tagged host TypeTag.i32 body position = do
  n ← parse_i32 host body position
  ok (QueryValue.i32 n)
parse_tagged host TypeTag.u64 body position = do
  n ← parse_u64 host body position
  ok (QueryValue.u64 n)
parse_tagged host TypeTag.u256 body position = do
  n ← parse_u256 host body position
  ok (QueryValue.u256 n)
parse_tagged host TypeTag.dec body position = do
  n ← parse_dec host body position
  ok (QueryValue.dec n)
parse_tagged host TypeTag.str body position = do
  t ← parse_str host body position
  ok (QueryValue.str t)
parse_tagged host TypeTag.addr body position = do
  t ← parse_addr host body position
  ok (QueryValue.addr t)
parse_tagged host TypeTag.key body position = do
  t ← parse_word_hex host body position (codes "key")
  ok (QueryValue.key t)
parse_tagged host TypeTag.bytes32 body position = do
  t ← parse_word_hex host body position (codes "bytes32")
  ok (QueryValue.bytes32 t)
parse_tagged host TypeTag.bool body position =
    fail (literal_error position (codes "bool takes no wrapper — write the literal true or false"))
