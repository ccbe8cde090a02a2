-- ===== src/Sql/Stored.antt =====
-- src/entityValues.ts: `toStoredAttributeValue`, `storedBytesValue` and `formatDecimalUnits`, the form
-- that a value of an attribute is stored in. The values come as already read: the texts of numbers
-- (`BigInt`, `parseDecimalUnits`) and the wire form are left out. `decimal` is `BigInt`'s `toString`.
-- A text is its UTF-8 bytes, which a lone surrogate has none of.
use arkiv_chain_indexer.Common.{
  ℕ, zero, suc, ◌+◌, ◌-◌, ◌/◌, ◌%◌, ◌^◌, Bool, true, false, ◌&&◌, ◌||◌, Option, none, some, [], ◌∷◌,
  ◌++◌, eqb, ltb, leb, if◌then◌else◌, length,
}
use arkiv_chain_indexer.Common.Int.{ℤ, pos, negsuc}
use arkiv_chain_indexer.EntityValues.{decimal_scale, u64_max, u256_max, i256_max, i32_max}
use arkiv_chain_indexer.Query.Syntax.{Text, QueryValue}
use arkiv_chain_indexer.Query.Lexer.{to_lower}
use arkiv_chain_indexer.Query.Literals.{all_hex}

pub record StoredAttributeValue : Type 0 where
  pub value_text : Text
  pub value_num : Option ℤ

abbrev pub int_lt : ℤ → ℤ → Bool
int_lt (pos a) (pos b) = ltb a b
int_lt (pos a) (negsuc b) = false
int_lt (negsuc a) (pos b) = true
int_lt (negsuc a) (negsuc b) = ltb b a

abbrev magnitude_of : ℤ → ℕ
magnitude_of (pos n) = n
magnitude_of (negsuc n) = n + 1

abbrev sign_of : ℤ → Text
sign_of (pos n) = []
sign_of (negsuc n) = 45 ∷ []

abbrev is_empty : Text → Bool
is_empty [] = true
is_empty (c ∷ text) = false

abbrev zeros : ℕ → Text
zeros zero = []
zeros (suc n) = 48 ∷ zeros n

-- `text.padStart(width, "0")`
abbrev pad_start : ℕ → Text → Text
pad_start width text = zeros (width - length text) ++ text

-- `text.replace(/0+$/, "")`
abbrev strip_zeros : Text → Text
strip_zeros [] = []
strip_zeros (c ∷ text) =
    let rest = strip_zeros text in if eqb c 48 && is_empty rest then [] else c ∷ rest

abbrev decimal_unit : ℕ
decimal_unit = 10 ^ decimal_scale

abbrev pub format_decimal_units : (ℤ → Text) → ℤ → Text
format_decimal_units decimal units =
    let whole = decimal (pos (magnitude_of units / decimal_unit)) in
    let fraction =
      strip_zeros (pad_start decimal_scale (decimal (pos (magnitude_of units % decimal_unit)))) in
    if is_empty fraction then sign_of units ++ whole else sign_of units ++ whole ++ 46 ∷ fraction

-- `0x` and so many hex digits.
abbrev pub is_hex_of_length : Text → ℕ → Bool
is_hex_of_length (a ∷ b ∷ hex) digits =
    eqb a 48 && (eqb b 120 && (eqb (length hex) digits && all_hex hex))
is_hex_of_length _ digits = false

-- `value < -max - 1 || value > max`
abbrev pub is_outside : ℕ → ℤ → Bool
is_outside max value = int_lt value (negsuc max) || int_lt (pos max) value

abbrev pub text_only : Text → Option StoredAttributeValue
text_only text = some (record { value_text = text; value_num = none })

abbrev pub with_number : Text → ℤ → Option StoredAttributeValue
with_number text value = some (record { value_text = text; value_num = some value })

abbrev pub to_stored_attribute_value : (ℤ → Text) → QueryValue → Option StoredAttributeValue
to_stored_attribute_value decimal (QueryValue.bool true) = text_only (116 ∷ 114 ∷ 117 ∷ 101 ∷ [])
to_stored_attribute_value decimal (QueryValue.bool false) =
    text_only (102 ∷ 97 ∷ 108 ∷ 115 ∷ 101 ∷ [])
to_stored_attribute_value decimal (QueryValue.i32 value) =
    if is_outside i32_max value then none else with_number (decimal value) value
to_stored_attribute_value decimal (QueryValue.u64 value) =
    if ltb u64_max value then none else with_number (decimal (pos value)) (pos value)
to_stored_attribute_value decimal (QueryValue.u256 value) =
    if ltb u256_max value then none else with_number (decimal (pos value)) (pos value)
to_stored_attribute_value decimal (QueryValue.dec units) =
    if is_outside i256_max units
    then none
    else with_number (format_decimal_units decimal units) units
to_stored_attribute_value decimal (QueryValue.str text) = text_only text
to_stored_attribute_value decimal (QueryValue.addr text) =
    if is_hex_of_length text 40 then text_only (to_lower text) else none
to_stored_attribute_value decimal (QueryValue.key text) =
    if is_hex_of_length text 64 then text_only (to_lower text) else none
to_stored_attribute_value decimal (QueryValue.bytes32 text) =
    if is_hex_of_length text 64 then text_only (to_lower text) else none

-- `Number.MAX_SAFE_INTEGER`
abbrev pub max_safe_integer : ℕ
max_safe_integer = 2 ^ 53 - 1

abbrev pub stored_bytes_value : Text → ℕ → Option StoredAttributeValue
stored_bytes_value keccak256 size =
    if is_hex_of_length keccak256 64 && leb size max_safe_integer
    then with_number (to_lower keccak256) (pos size)
    else none
