-- ===== src/Sql/Rows.antt =====
-- src/entityValues.ts: the stored form of a value that is of its type.
use arkiv_chain_indexer.Common.{
  ℕ, ◌+◌, ◌≡◌, ◌∙◌, inl, inr, refl, ap, true, false, ◌&&◌, Option, none, some, List, [], ◌∷◌, map,
  arith, leb, if◌then◌else◌, All,
}
use arkiv_chain_indexer.Common.Int.{ℤ, pos, negsuc}
use arkiv_chain_indexer.EntityValues.{i256_max, i32_max}
use arkiv_chain_indexer.Query.Syntax.{Text, QueryValue}
use arkiv_chain_indexer.Query.Lexer.{to_lower}
use arkiv_chain_indexer.Query.Literals.{all_hex}
use arkiv_chain_indexer.Sql.Stored.{
  StoredAttributeValue, is_hex_of_length, is_outside, text_only, format_decimal_units,
}
use arkiv_chain_indexer.Sql.Meaning.{
  AttributeValue, typed, hashed, Attribute, row_of, with_row, attribute_rows, Within,
  IsLowerHexDigit, IsHexText, IsStored, stored_value,
}

-- The number and the text of a value that is of its type.
abbrev pub stored_form : (ℤ → Text) → AttributeValue → Option ℤ × Text
stored_form decimal (typed (QueryValue.bool true)) = (none, 116 ∷ 114 ∷ 117 ∷ 101 ∷ [])
stored_form decimal (typed (QueryValue.bool false)) = (none, 102 ∷ 97 ∷ 108 ∷ 115 ∷ 101 ∷ [])
stored_form decimal (typed (QueryValue.i32 n)) = (some n, decimal n)
stored_form decimal (typed (QueryValue.u64 n)) = (some (pos n), decimal (pos n))
stored_form decimal (typed (QueryValue.u256 n)) = (some (pos n), decimal (pos n))
stored_form decimal (typed (QueryValue.dec n)) = (some n, format_decimal_units decimal n)
stored_form decimal (typed (QueryValue.str text)) = (none, text)
stored_form decimal (typed (QueryValue.addr text)) = (none, text)
stored_form decimal (typed (QueryValue.key text)) = (none, text)
stored_form decimal (typed (QueryValue.bytes32 text)) = (none, text)
stored_form decimal (hashed hash size) = (some (pos size), hash)

Within-is_outside : (max : ℕ) (n : ℤ) → Within max n → is_outside max n ≡ false
Within-is_outside max (pos n) h = ground (arith, h)
Within-is_outside max (negsuc n) h = ground (arith, h)

all_hex_lower : (hex : Text) → All IsLowerHexDigit hex → all_hex hex ≡ true
unfolding all_hex
all_hex_lower [] h = refl
all_hex_lower (c ∷ hex) (inl d, h) = ground (arith, d, all_hex_lower hex h)
all_hex_lower (c ∷ hex) (inr d, h) = ground (arith, d, all_hex_lower hex h)

to_lower_lower : (hex : Text) → All IsLowerHexDigit hex → to_lower hex ≡ hex
unfolding to_lower
to_lower_lower [] h = refl
to_lower_lower (c ∷ hex) (d, h) =
    ap (λ b. b ∷ to_lower hex) (by_digit d) ∙ ap (λ bs. c ∷ bs) (to_lower_lower hex h)
  where
    by_digit : IsLowerHexDigit c → (if leb 0x41 c && leb c 0x5a then c + 32 else c) ≡ c
    by_digit (inl d) = ground (arith, d)
    by_digit (inr d) = ground (arith, d)

IsHexText-is_hex :
    (digits : ℕ) (text : Text) → IsHexText digits text → is_hex_of_length text digits ≡ true
IsHexText-is_hex digits text (hex, e, long, lower) =
    rw (e, long, all_hex_lower hex lower) (ground arith)

IsHexText-to_lower : (digits : ℕ) (text : Text) → IsHexText digits text → to_lower text ≡ text
unfolding to_lower
IsHexText-to_lower digits text (hex, e, long, lower) =
    rw e (ap (λ bs. 48 ∷ 120 ∷ bs) (to_lower_lower hex lower))

hex-text_only :
    (digits : ℕ) (text : Text)
    → IsHexText digits text
    → (if is_hex_of_length text digits then text_only (to_lower text) else none) ≡ text_only text
hex-text_only digits text h =
    rw (IsHexText-is_hex digits text h) (ap text_only (IsHexText-to_lower digits text h))

-- What `stored_form` gives, as a stored value.
abbrev pub stored_record : (ℤ → Text) → AttributeValue → StoredAttributeValue
stored_record decimal v = record {
  value_text = (stored_form decimal v).1;
  value_num = (stored_form decimal v).0;
}

stored_value-some :
    (decimal : ℤ → Text) (v : AttributeValue)
    → IsStored v
    → stored_value decimal v ≡ some (stored_record decimal v)
stored_value-some decimal (typed (QueryValue.bool true)) h = refl
stored_value-some decimal (typed (QueryValue.bool false)) h = refl
stored_value-some decimal (typed (QueryValue.i32 n)) h = rw (Within-is_outside i32_max n h) refl
stored_value-some decimal (typed (QueryValue.u64 n)) h = ground (arith, h)
stored_value-some decimal (typed (QueryValue.u256 n)) h = ground (arith, h)
stored_value-some decimal (typed (QueryValue.dec n)) h = rw (Within-is_outside i256_max n h) refl
stored_value-some decimal (typed (QueryValue.str text)) h = refl
stored_value-some decimal (typed (QueryValue.addr text)) h = hex-text_only 40 text h
stored_value-some decimal (typed (QueryValue.key text)) h = hex-text_only 64 text h
stored_value-some decimal (typed (QueryValue.bytes32 text)) h = hex-text_only 64 text h
stored_value-some decimal (hashed hash size) (h, small) =
    rw (IsHexText-is_hex 64 hash h, IsHexText-to_lower 64 hash h) (ground (arith, small))

pub attribute_rows-map :
    (decimal : ℤ → Text) (attributes : List Attribute)
    → All (λ a. IsStored a.value) attributes
    → attribute_rows decimal attributes
      ≡ map (λ a. row_of a (stored_record decimal a.value)) attributes
attribute_rows-map decimal [] h = refl
attribute_rows-map decimal (a ∷ rest) (stored, others) =
    ap (λ s. with_row a s (attribute_rows decimal rest)) (stored_value-some decimal a.value stored)
    ∙ ap (λ rows. row_of a (stored_record decimal a.value) ∷ rows)
        (attribute_rows-map decimal rest others)
