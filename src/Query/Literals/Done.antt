-- ===== src/Query/Literals/Done.antt =====
-- src/entityQueryLanguage.ts: every literal is read to its end.
use arkiv_chain_indexer.Common.{
  ℕ, zero, suc, ◌+◌, ◌-◌, ◌*◌, Bool, Option, none, some, [], ◌∷◌, arith, length, ◌++◌,
}
use arkiv_chain_indexer.EntityValues.{u256_max, decimal_scale}
use arkiv_chain_indexer.Query.Ends.{IsDone, bind-IsDone, Ends-IsDone}
use arkiv_chain_indexer.Query.Syntax.{
  Text, codes, Outcome, ok, fail, out_of_fuel, ◌>>=◌, TypeTag, QueryValue,
}
use arkiv_chain_indexer.Query.Lexer.{Host, scan_quoted, to_lower}
use arkiv_chain_indexer.Query.Lexer.Ends.{left, scan_quoted-Ends}
use arkiv_chain_indexer.Query.Literals.{
  digits_from, decimal_magnitude, check_hex_digits, fit_i32, parse_i32, u64_unsigned, parse_u64,
  u256_unsigned, parse_u256, scale, dec_units, dec_parts, or_empty, split_dot, parse_dec,
  validate_str_length, str_content, parse_str, check_eip55, zero_x, addr_hex, parse_addr, word_hex,
  parse_word_hex, parse_tagged, split_sign, trim, strip_hex_prefix,
}

digits_from-IsDone :
    (value position : ℕ) (tag : Text) (max : ℕ) (ds : Text)
    → IsDone (digits_from value position tag max ds)
unfolding digits_from
digits_from-IsDone value position tag max [] = tt
digits_from-IsDone value position tag max (d ∷ ds) =
    ground (arith, digits_from-IsDone (value * 10 + (d - 48)) position tag max ds)

decimal_magnitude-IsDone :
    (ds : Text) (position : ℕ) (tag : Text) (max : ℕ)
    → IsDone (decimal_magnitude ds position tag max)
unfolding decimal_magnitude
decimal_magnitude-IsDone [] position tag max = tt
decimal_magnitude-IsDone (d ∷ ds) position tag max = digits_from-IsDone 0 position tag max (d ∷ ds)

check_hex_digits-IsDone :
    (hex : Text) (position : ℕ) (tag : Text) → IsDone (check_hex_digits hex position tag)
unfolding check_hex_digits
check_hex_digits-IsDone [] position tag = tt
check_hex_digits-IsDone (b ∷ bs) position tag = ground arith

fit_i32-IsDone : (position : ℕ) (negative : Bool) (n : ℕ) → IsDone (fit_i32 position negative n)
unfolding fit_i32
fit_i32-IsDone position negative n = ground arith

pub parse_i32-IsDone :
    (host : Host) (body : Text) (position : ℕ) → IsDone (parse_i32 host body position)
unfolding parse_i32
parse_i32-IsDone host body position =
    bind-IsDone (decimal_magnitude _ position _ _) _ (decimal_magnitude-IsDone _ position _ _)
      (λ n. fit_i32-IsDone position _ n)

u64_unsigned-IsDone :
    (text : Text) (position : ℕ) (hex : Option Text) → IsDone (u64_unsigned text position hex)
unfolding u64_unsigned
u64_unsigned-IsDone text position none = decimal_magnitude-IsDone text position _ _
u64_unsigned-IsDone text position (some hex) =
    ground (arith, check_hex_digits-IsDone hex position (codes "u64"))

parse_u64-IsDone :
    (host : Host) (body : Text) (position : ℕ) → IsDone (parse_u64 host body position)
unfolding parse_u64
parse_u64-IsDone host body position =
    let text = trim host body in
    ground (arith, u64_unsigned-IsDone text position (strip_hex_prefix text))

u256_unsigned-IsDone :
    (text : Text) (position : ℕ) (hex : Option Text) → IsDone (u256_unsigned text position hex)
unfolding u256_unsigned
u256_unsigned-IsDone text position none = decimal_magnitude-IsDone text position _ _
u256_unsigned-IsDone text position (some hex) =
    bind-IsDone (check_hex_digits hex position _) _ (check_hex_digits-IsDone hex position _)
      (λ _. ground arith)

parse_u256-IsDone :
    (host : Host) (body : Text) (position : ℕ) → IsDone (parse_u256 host body position)
unfolding parse_u256
parse_u256-IsDone host body position =
    let text = trim host body in
    ground (arith, u256_unsigned-IsDone text position (strip_hex_prefix text))

scale-IsDone :
    (places value position : ℕ) (fraction : Text) → IsDone (scale places value position fraction)
unfolding scale
scale-IsDone zero value position fraction = tt
scale-IsDone (suc places) value position [] =
    ground (arith, scale-IsDone places (value * 10) position [])
scale-IsDone (suc places) value position (d ∷ ds) =
    ground (arith, scale-IsDone places (value * 10 + (d - 48)) position ds)

dec_units-IsDone :
    (negative : Bool) (position value : ℕ) → IsDone (dec_units negative position value)
unfolding dec_units
dec_units-IsDone negative position value = ground arith

scaled-IsDone :
    (whole fraction : Text) (position : ℕ) (negative : Bool) (tag : Text) (max places : ℕ)
    → IsDone (
        decimal_magnitude whole position tag max >>= λ value.
        scale places value position fraction >>= dec_units negative position)
scaled-IsDone whole fraction position negative tag max places =
    bind-IsDone (decimal_magnitude whole position tag max) _
      (decimal_magnitude-IsDone whole position tag max)
      (λ value.
        bind-IsDone (scale places value position fraction) _
          (scale-IsDone places value position fraction)
          (λ scaled. dec_units-IsDone negative position scaled))

dec_parts-IsDone :
    (position : ℕ) (negative : Bool) (whole : Text) (fraction : Option Text)
    → IsDone (dec_parts position negative whole fraction)
unfolding dec_parts
dec_parts-IsDone position negative whole fraction = ground (
  arith,
  scaled-IsDone whole (or_empty fraction) position negative (codes "dec") u256_max decimal_scale,
)

parse_dec-IsDone :
    (host : Host) (body : Text) (position : ℕ) → IsDone (parse_dec host body position)
unfolding parse_dec
parse_dec-IsDone host body position =
    let signed = split_sign (trim host body) in
    let parts = split_dot signed.1 in dec_parts-IsDone position signed.0 parts.0 parts.1

validate_str_length-IsDone :
    (content : Text) (position : ℕ) → IsDone (validate_str_length content position)
unfolding validate_str_length
validate_str_length-IsDone content position = ground arith

check_eip55-IsDone :
    (host : Host) (hex : Text) (position : ℕ) → IsDone (check_eip55 host hex position)
unfolding check_eip55
check_eip55-IsDone host hex position = ground arith

checked_hex-IsDone :
    (host : Host) (hex out : Text) (position : ℕ)
    → IsDone (
        check_hex_digits hex position (codes "addr") >>= λ _.
        check_eip55 host hex position >>= λ _. ok out)
checked_hex-IsDone host hex out position =
    bind-IsDone (check_hex_digits hex position _) _ (check_hex_digits-IsDone hex position _) (λ _.
      bind-IsDone (check_eip55 host hex position) _ (check_eip55-IsDone host hex position)
        (λ _. tt))

addr_hex-IsDone :
    (host : Host) (position : ℕ) (hex : Option Text) → IsDone (addr_hex host position hex)
unfolding addr_hex
addr_hex-IsDone host position none = tt
addr_hex-IsDone host position (some hex) =
    ground (arith, checked_hex-IsDone host hex (zero_x ++ to_lower hex) position)

pub parse_addr-IsDone :
    (host : Host) (body : Text) (position : ℕ) → IsDone (parse_addr host body position)
unfolding parse_addr
parse_addr-IsDone host body position =
    addr_hex-IsDone host position (strip_hex_prefix (trim host body))

word_hex-IsDone :
    (position : ℕ) (tag : Text) (hex : Option Text) → IsDone (word_hex position tag hex)
unfolding word_hex
word_hex-IsDone position tag none = tt
word_hex-IsDone position tag (some hex) = ground (arith, check_hex_digits-IsDone hex position tag)

pub parse_word_hex-IsDone :
    (host : Host) (body : Text) (position : ℕ) (tag : Text)
    → IsDone (parse_word_hex host body position tag)
unfolding parse_word_hex
parse_word_hex-IsDone host body position tag =
    word_hex-IsDone position tag (strip_hex_prefix (trim host body))

str_content-IsDone : (position : ℕ) (text : Text) → IsDone (str_content position text)
unfolding str_content
str_content-IsDone position text =
    let tail : Text = elim text [ [] ↦ [] | _ ∷ rest ↦ rest ] in
    bind-IsDone (scan_quoted 0 1 tail) _
      (Ends-IsDone left (length tail) (scan_quoted 0 1 tail) (scan_quoted-Ends 0 1 tail))
      (λ q. ground (arith, validate_str_length-IsDone q.content position))

parse_str-IsDone :
    (host : Host) (body : Text) (position : ℕ) → IsDone (parse_str host body position)
unfolding parse_str
parse_str-IsDone host body position = ground (arith, str_content-IsDone position (trim host body))

-- A run that only wraps its value.
pub wrap-IsDone {ℓ κ} :
    {A : Type ℓ} {B : Type κ} (f : A → B) (m : Outcome A) → IsDone m → IsDone (m >>= λ a. ok (f a))
wrap-IsDone f (ok a) h = tt
wrap-IsDone f (fail e) h = tt
wrap-IsDone f out_of_fuel h = h

pub parse_tagged-IsDone :
    (host : Host) (tag : TypeTag) (body : Text) (position : ℕ)
    → IsDone (parse_tagged host tag body position)
unfolding parse_tagged
parse_tagged-IsDone host TypeTag.i32 body p =
    wrap-IsDone QueryValue.i32 _ (parse_i32-IsDone host body p)
parse_tagged-IsDone host TypeTag.u64 body p =
    wrap-IsDone QueryValue.u64 _ (parse_u64-IsDone host body p)
parse_tagged-IsDone host TypeTag.u256 body p =
    wrap-IsDone QueryValue.u256 _ (parse_u256-IsDone host body p)
parse_tagged-IsDone host TypeTag.dec body p =
    wrap-IsDone QueryValue.dec _ (parse_dec-IsDone host body p)
parse_tagged-IsDone host TypeTag.str body p =
    wrap-IsDone QueryValue.str _ (parse_str-IsDone host body p)
parse_tagged-IsDone host TypeTag.addr body p =
    wrap-IsDone QueryValue.addr _ (parse_addr-IsDone host body p)
parse_tagged-IsDone host TypeTag.key body p =
    wrap-IsDone QueryValue.key _ (parse_word_hex-IsDone host body p _)
parse_tagged-IsDone host TypeTag.bytes32 body p =
    wrap-IsDone QueryValue.bytes32 _ (parse_word_hex-IsDone host body p _)
parse_tagged-IsDone host TypeTag.bool body p = tt
