-- ===== src/Sql/Meaning.antt =====
-- src/entityQuerySql.ts: what a query asks of an entity, and what its condition tests on the rows
-- that the entity is stored in. The comparisons of PostgreSQL are the parameter `Postgres`.
use arkiv_chain_indexer.Common.{
  ℕ, ◌-◌, ◌≤◌, ◌≡◌, Bool, true, false, not, ◌&&◌, ◌||◌, Option, none, some, List, [], ◌∷◌, length,
  ◌⊎◌, ◌==◌, list_eq, eqb, get_elem?, All,
}
use arkiv_chain_indexer.Common.Int.{ℤ, pos, negsuc}
use arkiv_chain_indexer.EntityValues.{
  AttributeTypeTag, type_id, u64_max, u256_max, i256_max, i32_max,
}
use arkiv_chain_indexer.Query.Syntax.{
  Text, QueryValue, value_type, BuiltInField, user, builtin, ComparisonOperator, QueryAst,
}
use arkiv_chain_indexer.Query.Grammar.{HasType, IsDefinedOn}
use arkiv_chain_indexer.Sql.{
  i64_max, Param, text, bytes, number, small, Column, Condition, value_num, value_bytes, bytes_from,
  bytes_between, Sql, always, never, both, either, negated, column, exists,
}
use arkiv_chain_indexer.Sql.Stored.{
  StoredAttributeValue, int_lt, max_safe_integer, to_stored_attribute_value, stored_bytes_value,
}
use arkiv_chain_indexer.Sql.Prefix.{bytes_lt, has_prefix, IsBytes}

-- A value of an attribute; of a `bytes` value only the hash and the size are kept.
pub data AttributeValue : Type 0 where
  typed : QueryValue → AttributeValue
  hashed : Text → ℕ → AttributeValue

pub record Attribute : Type 0 where
  pub name : Text
  pub value : AttributeValue
  pub indexed : Bool

pub record Entity : Type 0 where
  pub owner : Text
  pub creator : Text
  pub entity_key : Text
  pub expires_at : ℕ
  pub created_at : ℕ
  pub attributes : List Attribute

abbrev pub int_eq : ℤ → ℤ → Bool
int_eq (pos a) (pos b) = eqb a b
int_eq (negsuc a) (negsuc b) = eqb a b
int_eq _ _ = false

abbrev pub compare_numbers : ComparisonOperator → ℤ → ℤ → Bool
compare_numbers ComparisonOperator.eq a b = int_eq a b
compare_numbers ComparisonOperator.lt a b = int_lt a b
compare_numbers ComparisonOperator.lte a b = not (int_lt b a)
compare_numbers ComparisonOperator.gt a b = int_lt b a
compare_numbers ComparisonOperator.gte a b = not (int_lt a b)

abbrev same_bool : Bool → Bool → Bool
same_bool true b = b
same_bool false b = not b

-- A value of an attribute against a literal of the same type.
abbrev pub value_holds : ComparisonOperator → QueryValue → QueryValue → Bool
value_holds op (QueryValue.bool a) (QueryValue.bool b) = same_bool a b
value_holds op (QueryValue.i32 a) (QueryValue.i32 b) = compare_numbers op a b
value_holds op (QueryValue.u64 a) (QueryValue.u64 b) = compare_numbers op (pos a) (pos b)
value_holds op (QueryValue.u256 a) (QueryValue.u256 b) = compare_numbers op (pos a) (pos b)
value_holds op (QueryValue.dec a) (QueryValue.dec b) = compare_numbers op a b
value_holds op (QueryValue.str a) (QueryValue.str b) = a == b
value_holds op (QueryValue.addr a) (QueryValue.addr b) = a == b
value_holds op (QueryValue.key a) (QueryValue.key b) = a == b
value_holds op (QueryValue.bytes32 a) (QueryValue.bytes32 b) = a == b
value_holds op _ _ = false

-- The system attribute of an entity, as a value of its type.
abbrev pub field_value : Entity → BuiltInField → QueryValue
field_value e BuiltInField.owner = QueryValue.addr e.owner
field_value e BuiltInField.creator = QueryValue.addr e.creator
field_value e BuiltInField.entity_key = QueryValue.key e.entity_key
field_value e BuiltInField.expires_at = QueryValue.u64 e.expires_at
field_value e BuiltInField.created_at = QueryValue.u64 e.created_at

abbrev pub some_attribute : (Attribute → Bool) → List Attribute → Bool
some_attribute p [] = false
some_attribute p (a ∷ rest) = p a || some_attribute p rest

abbrev pub compares : ComparisonOperator → QueryValue → AttributeValue → Bool
compares op literal (typed value) = value_holds op value literal
compares op literal (hashed hash size) = false

abbrev pub starts : Text → AttributeValue → Bool
starts prefix (typed (QueryValue.str value)) = has_prefix prefix value
starts prefix _ = false

-- The attribute is indexed, has the name, and its value passes.
abbrev pub named : Text → (AttributeValue → Bool) → Attribute → Bool
named name p a = a.indexed && ((a.name == name) && p a.value)

-- What a query asks of an entity.
abbrev pub matches : QueryAst → Entity → Bool
matches QueryAst.all e = true
matches (QueryAst.and l r) e = matches l e && matches r e
matches (QueryAst.or l r) e = matches l e || matches r e
matches (QueryAst.not a) e = not (matches a e)
matches (QueryAst.compare op (builtin field) value) e = value_holds op (field_value e field) value
matches (QueryAst.compare op (user name) value) e =
    some_attribute (named name (compares op value)) e.attributes
matches (QueryAst.starts_with (builtin field) prefix) e = false
matches (QueryAst.starts_with (user name) prefix) e =
    some_attribute (named name (starts prefix)) e.attributes

-- The typing rules of queries: the operator is defined on the value, a system attribute has a
-- value of its type, and a prefix is bytes.
abbrev pub IsWellTyped : QueryAst → Type 0
IsWellTyped QueryAst.all = Unit
IsWellTyped (QueryAst.and l r) = IsWellTyped l × IsWellTyped r
IsWellTyped (QueryAst.or l r) = IsWellTyped l × IsWellTyped r
IsWellTyped (QueryAst.not a) = IsWellTyped a
IsWellTyped (QueryAst.compare op key value) = HasType key value × IsDefinedOn op value
IsWellTyped (QueryAst.starts_with key prefix) = HasType key (QueryValue.str prefix) × IsBytes prefix

abbrev pub Within : ℕ → ℤ → Type 0
Within max (pos n) = n ≤ max
Within max (negsuc n) = n ≤ max

abbrev pub IsLowerHexDigit : ℕ → Type 0
IsLowerHexDigit c = ((48 ≤ c) × (c ≤ 57)) ⊎ ((97 ≤ c) × (c ≤ 102))

-- `0x` and so many hex digits, none of them upper case.
abbrev pub IsHexText : ℕ → Text → Type 0
IsHexText digits value =
    (hex : Text) × (value ≡ 48 ∷ 120 ∷ hex) × (length hex ≡ digits) × All IsLowerHexDigit hex

-- A value of its type: a number is within the bounds of the type, the text of a `str` is bytes, an
-- address, a key and a hash are lower-case hex of their length.
abbrev pub IsStored : AttributeValue → Type 0
IsStored (typed (QueryValue.bool value)) = Unit
IsStored (typed (QueryValue.i32 value)) = Within i32_max value
IsStored (typed (QueryValue.u64 value)) = value ≤ u64_max
IsStored (typed (QueryValue.u256 value)) = value ≤ u256_max
IsStored (typed (QueryValue.dec units)) = Within i256_max units
IsStored (typed (QueryValue.str value)) = IsBytes value
IsStored (typed (QueryValue.addr value)) = IsHexText 40 value
IsStored (typed (QueryValue.key value)) = IsHexText 64 value
IsStored (typed (QueryValue.bytes32 value)) = IsHexText 64 value
IsStored (hashed keccak256 size) = IsHexText 64 keccak256 × (size ≤ max_safe_integer)

-- An entity that the tables can hold: `created_at` is a BIGINT.
abbrev pub IsEntity : Entity → Type 0
IsEntity e = (e.created_at ≤ i64_max) × All (λ a. IsStored a.value) e.attributes

-- A row of `entity_version_attributes`.
pub record AttributeRow : Type 0 where
  pub name : Text
  pub type_number : ℕ
  pub indexed : Bool
  pub number_value : Option ℤ
  pub text_value : Text

-- Of a `bytes` value only the hash and the size are stored.
abbrev pub stored_value : (ℤ → Text) → AttributeValue → Option StoredAttributeValue
stored_value decimal (typed value) = to_stored_attribute_value decimal value
stored_value decimal (hashed keccak256 size) = stored_bytes_value keccak256 size

unfoldable pub stored_type : AttributeValue → ℕ
unfolding value_type
stored_type (typed value) = type_id (value_type value)
stored_type (hashed hash size) = type_id AttributeTypeTag.bytes

abbrev pub row_of : Attribute → StoredAttributeValue → AttributeRow
row_of a stored = record {
  name = a.name;
  type_number = stored_type a.value;
  indexed = a.indexed;
  number_value = stored.value_num;
  text_value = stored.value_text;
}

-- A value that is not of its type has no stored form, and no row.
abbrev pub with_row :
    Attribute → Option StoredAttributeValue → List AttributeRow → List AttributeRow
with_row a none rows = rows
with_row a (some stored) rows = row_of a stored ∷ rows

abbrev pub attribute_rows : (ℤ → Text) → List Attribute → List AttributeRow
attribute_rows decimal [] = []
attribute_rows decimal (a ∷ rest) =
    with_row a (stored_value decimal a.value) (attribute_rows decimal rest)

-- The comparisons of PostgreSQL on NUMERIC, TEXT and BYTEA.
pub record Postgres : Type 0 where
  pub number_test : ComparisonOperator → ℤ → ℤ → Bool
  pub text_test : ComparisonOperator → Text → Text → Bool
  pub bytes_test : ComparisonOperator → Text → Text → Bool
  pub number_order :
      (op : ComparisonOperator) (a b : ℤ) → number_test op a b ≡ compare_numbers op a b
  pub text_equal : (a b : Text) → text_test ComparisonOperator.eq a b ≡ (a == b)
  pub bytes_equal : (a b : Text) → bytes_test ComparisonOperator.eq a b ≡ (a == b)
  pub bytes_above : (a b : Text) → bytes_test ComparisonOperator.gte a b ≡ not (bytes_lt a b)
  pub bytes_below : (a b : Text) → bytes_test ComparisonOperator.lt a b ≡ bytes_lt a b

-- What a condition tests, with the placeholders counted from `offset`.
module _ (db : Postgres) (offset : ℕ) (params : List Param) where
  abbrev pub param_at : ℕ → Option Param
  param_at n = get_elem? params (n - offset - 1)

  abbrev pub test_number : ComparisonOperator → Option ℤ → Option Param → Bool
  test_number op (some a) (some (number b)) = db.number_test op a b
  test_number op _ _ = false

  abbrev pub test_text : ComparisonOperator → Text → Option Param → Bool
  test_text op a (some (text b)) = db.text_test op a b
  test_text op a _ = false

  abbrev pub test_bytes : ComparisonOperator → Text → Option Param → Bool
  test_bytes op a (some (bytes b)) = db.bytes_test op a b
  test_bytes op a _ = false

  abbrev pub test_condition : Condition → Option ℤ × Text → Bool
  test_condition (value_num op n) (a, t) = test_number op a (param_at n)
  test_condition (value_bytes op n) (a, t) = test_bytes op t (param_at n)
  test_condition (bytes_from n) (a, t) = test_bytes ComparisonOperator.gte t (param_at n)
  test_condition (bytes_between n m) (a, t) =
      test_bytes ComparisonOperator.gte t (param_at n)
      && test_bytes ComparisonOperator.lt t (param_at m)

  abbrev pub test_name : Text → Option Param → Bool
  test_name a (some (text b)) = a == b
  test_name a _ = false

  abbrev pub test_type : ℕ → Option Param → Bool
  test_type a (some (small b)) = eqb a b
  test_type a _ = false

  abbrev pub some_row : (AttributeRow → Bool) → List AttributeRow → Bool
  some_row p [] = false
  some_row p (row ∷ rest) = p row || some_row p rest

  abbrev pub test_row : ℕ → ℕ → Condition → AttributeRow → Bool
  test_row n m condition row =
      row.indexed
      && (test_name row.name (param_at n)
          && (test_type row.type_number (param_at m)
              && test_condition condition (row.number_value, row.text_value)))

  abbrev pub test_column : Column → ComparisonOperator → Entity → Option Param → Bool
  test_column Column.owner op e p = test_text op e.owner p
  test_column Column.creator op e p = test_text op e.creator p
  test_column Column.entity_key op e p = test_text op e.entity_key p
  test_column Column.expires_at op e p = test_number op (some (pos e.expires_at)) p
  test_column Column.created_at op e p = test_number op (some (pos e.created_at)) p

  abbrev pub test : (ℤ → Text) → Sql → Entity → Bool
  test decimal always e = true
  test decimal never e = false
  test decimal (both a b) e = test decimal a e && test decimal b e
  test decimal (either a b) e = test decimal a e || test decimal b e
  test decimal (negated a) e = not (test decimal a e)
  test decimal (column c op n) e = test_column c op e (param_at n)
  test decimal (exists n m condition) e =
      some_row (test_row n m condition) (attribute_rows decimal e.attributes)
