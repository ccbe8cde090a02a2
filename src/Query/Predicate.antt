-- ===== src/Query/Predicate.antt =====
-- src/entityQueryLanguage.ts, the predicates: attribute references, operators, values and the
-- checks of their types.
pub mod Done
use arkiv_chain_indexer.Common.{
  ℕ, Bool, true, false, not, ◌&&◌, Option, none, some, List, [], ◌∷◌, ◌++◌, ltb, if◌then◌else◌,
  length,
}
use arkiv_chain_indexer.EntityValues.{AttributeTypeTag, is_ordered_type}
use arkiv_chain_indexer.Query.Syntax.{
  Text, codes, Outcome, ok, fail, ◌>>=◌, syntax_error, type_error, TypeTag, Token, SpannedToken,
  QueryValue, value_type, BuiltInField, owner, creator, entity_key, expires_at, created_at,
  AttributeRef, user, builtin, ComparisonOperator, QueryAst, max_attribute_name_bytes,
}
use arkiv_chain_indexer.Query.Lexer.{Host, type_tag_from_name, text_eq}
use arkiv_chain_indexer.Query.Literals.{parse_tagged, parse_i32, parse_addr, parse_word_hex, trim}

unfoldable pub builtin_type : BuiltInField → AttributeTypeTag
builtin_type owner = AttributeTypeTag.addr
builtin_type creator = AttributeTypeTag.addr
builtin_type entity_key = AttributeTypeTag.key
builtin_type expires_at = AttributeTypeTag.u64
builtin_type created_at = AttributeTypeTag.u64

-- A tag as a message spells it.
unfoldable pub tag_name : AttributeTypeTag → Text
tag_name AttributeTypeTag.bool = codes "bool"
tag_name AttributeTypeTag.i32 = codes "i32"
tag_name AttributeTypeTag.u64 = codes "u64"
tag_name AttributeTypeTag.u256 = codes "u256"
tag_name AttributeTypeTag.dec = codes "dec"
tag_name AttributeTypeTag.bytes32 = codes "bytes32"
tag_name AttributeTypeTag.bytes = codes "bytes"
tag_name AttributeTypeTag.str = codes "str"
tag_name AttributeTypeTag.addr = codes "addr"
tag_name AttributeTypeTag.key = codes "key"

unfoldable pub type_tag_name : TypeTag → Text
type_tag_name TypeTag.i32 = codes "i32"
type_tag_name TypeTag.u64 = codes "u64"
type_tag_name TypeTag.u256 = codes "u256"
type_tag_name TypeTag.dec = codes "dec"
type_tag_name TypeTag.str = codes "str"
type_tag_name TypeTag.addr = codes "addr"
type_tag_name TypeTag.key = codes "key"
type_tag_name TypeTag.bytes32 = codes "bytes32"
type_tag_name TypeTag.bool = codes "bool"

unfoldable pub builtin_from_name : Text → ℕ → Outcome BuiltInField
unfolding text_eq codes
builtin_from_name name position =
    if text_eq name (codes "owner")
    then ok owner
    else if text_eq name (codes "creator")
    then ok creator
    else if text_eq name (codes "key")
    then ok entity_key
    else if text_eq name (codes "expiresAt")
    then ok expires_at
    else if text_eq name (codes "createdAt")
    then ok created_at
    else if text_eq name (codes "updatedAt")
    then fail (
        type_error position
          (codes "$updatedAt is not queryable — it is returned by projections only"))
    else if text_eq name (codes "creationFlags")
    then fail (
        type_error position
          (codes "$creationFlags is not queryable — it is returned by projections only"))
    else if text_eq name (codes "payload")
    then fail (
        type_error position (
          codes
            "unknown system attribute $payload — entities have no payload; store data in a bytes attribute, which is never indexed"))
    else if text_eq name (codes "contentType")
    then fail (
        type_error position (
          codes
            "unknown system attribute $contentType — entities have no content type; store one in an indexed str attribute"))
    else if text_eq name (codes "expiration")
    then fail
        (type_error position (codes "unknown system attribute $expiration — it is now $expiresAt"))
    else if text_eq name (codes "createdAtBlock")
    then fail (
        type_error position
          (codes "unknown system attribute $createdAtBlock — it is now $createdAt"))
    else fail (
        type_error position (
          codes "unknown system attribute $"
          ++ (name ++ codes " — expected $key, $owner, $creator, $expiresAt or $createdAt")))

unfoldable pub not_a_type : Text → ℕ → Option TypeTag → Outcome AttributeRef
unfolding type_tag_name
not_a_type name position none = ok (user name)
not_a_type name position (some tag) = fail (
    syntax_error position
      (type_tag_name tag ++ codes " is a type name and cannot be an attribute name"))

-- `validateUserName`, and the reference that `parseAttrRef` makes of a valid name.
unfoldable pub validate_user_name : Text → ℕ → Outcome AttributeRef
unfolding not_a_type type_tag_from_name
validate_user_name name position =
    if ltb max_attribute_name_bytes (length name)
    then fail (syntax_error position (codes "attribute names are limited to 32 bytes"))
    else not_a_type name position (type_tag_from_name name)

is_u64 : AttributeTypeTag → Bool
is_u64 AttributeTypeTag.u64 = true
is_u64 _ = false

unfoldable pub bare_int_value : Host → AttributeRef → Text → ℕ → Outcome QueryValue
unfolding is_u64 builtin_type tag_name
bare_int_value host (builtin field) text position = fail (
    type_error position (
      if is_u64 (builtin_type field)
      then codes "this system attribute holds u64 — write u64(" ++ (trim host text ++ codes ")")
      else codes "this system attribute holds "
        ++ (tag_name (builtin_type field)
            ++ codes ", but the value is an untagged number (which means i32)")))
bare_int_value host (user name) text position = do
  n ← parse_i32 host text position
  ok (QueryValue.i32 n)

unfoldable pub bare_str_value : Host → AttributeRef → Text → ℕ → Outcome QueryValue
bare_str_value host (user name) content position = fail (
    type_error position
      (codes "untagged strings are only valid for system attributes — write str('…')"))
bare_str_value host (builtin owner) content position = do
  t ← parse_addr host content position
  ok (QueryValue.addr t)
bare_str_value host (builtin creator) content position = do
  t ← parse_addr host content position
  ok (QueryValue.addr t)
bare_str_value host (builtin entity_key) content position = do
  t ← parse_word_hex host content position (codes "key")
  ok (QueryValue.key t)
bare_str_value host (builtin _) content position =
    fail (type_error position (codes "this system attribute is not a string"))

-- `value.type === expected`
unfoldable pub same_type : AttributeTypeTag → AttributeTypeTag → Bool
same_type AttributeTypeTag.bool AttributeTypeTag.bool = true
same_type AttributeTypeTag.i32 AttributeTypeTag.i32 = true
same_type AttributeTypeTag.u64 AttributeTypeTag.u64 = true
same_type AttributeTypeTag.u256 AttributeTypeTag.u256 = true
same_type AttributeTypeTag.dec AttributeTypeTag.dec = true
same_type AttributeTypeTag.bytes32 AttributeTypeTag.bytes32 = true
same_type AttributeTypeTag.bytes AttributeTypeTag.bytes = true
same_type AttributeTypeTag.str AttributeTypeTag.str = true
same_type AttributeTypeTag.addr AttributeTypeTag.addr = true
same_type AttributeTypeTag.key AttributeTypeTag.key = true
same_type _ _ = false

unfoldable pub check_value_type : AttributeRef → QueryValue → ℕ → Outcome QueryValue
unfolding same_type builtin_type value_type tag_name
check_value_type (user name) value position = ok value
check_value_type (builtin field) value position =
    if same_type (value_type value) (builtin_type field)
    then ok value
    else fail (
        type_error position (
          codes "this system attribute holds "
          ++ (tag_name (builtin_type field)
              ++ (codes ", but the value is " ++ tag_name (value_type value)))))

is_range : ComparisonOperator → Bool
is_range ComparisonOperator.eq = false
is_range _ = true

unfoldable pub check_operator : ComparisonOperator → QueryValue → ℕ → Outcome (Unit {0})
unfolding is_range is_ordered_type value_type tag_name
check_operator operator value position =
    if is_range operator && not (is_ordered_type (value_type value))
    then fail (
        type_error position (
          tag_name (value_type value)
          ++ codes " values have no ordering — only i32, u64, u256 and dec support < <= > >="))
    else ok tt

expected_value : Text
expected_value = codes "expected a value, e.g. i32(10) or str('Bob')"

-- The `switch` of `parseValue` on the token that was taken.
unfoldable pub token_value : Host → AttributeRef → SpannedToken → Outcome QueryValue
unfolding expected_value
token_value host key spanned = elim spanned.token [
  | Token.tagged tag body body_start ↦ parse_tagged host tag body body_start
  | Token.kw_true ↦ ok (QueryValue.bool true)
  | Token.kw_false ↦ ok (QueryValue.bool false)
  | Token.int text ↦ bare_int_value host key text spanned.start
  | Token.quoted text ↦ bare_str_value host key text spanned.start
  | _ ↦ fail (syntax_error spanned.start expected_value)
]

-- `parseValue`: the value and its position.
unfoldable pub value_of : Host → AttributeRef → SpannedToken → Outcome QueryValue
unfolding token_value check_value_type
value_of host key spanned = do
  value ← token_value host key spanned
  check_value_type key value spanned.start

-- The `switch` of `parseAttrRef` on the token that was taken.
unfoldable pub token_attr_ref : SpannedToken → Outcome AttributeRef
unfolding validate_user_name builtin_from_name
token_attr_ref spanned =
    let reserved =
      fail (
        syntax_error spanned.start (codes "a reserved word cannot be used as an attribute name")) in
    elim spanned.token [
      | Token.name text ↦ validate_user_name text spanned.start
      | Token.sysname text ↦ (do f ← builtin_from_name text spanned.start; ok (builtin f))
      | Token.kw_exists ↦ fail (
          type_error spanned.start (
            codes
              "exists(…) is not supported — the index has no per-attribute presence set in this version"))
      | Token.kw_typeof ↦ fail (
          type_error spanned.start (
            codes
              "typeof(…) is not supported — a value predicate already asserts the attribute's type"))
      | Token.kw_and ↦ reserved
      | Token.kw_or ↦ reserved
      | Token.kw_not ↦ reserved
      | Token.kw_true ↦ reserved
      | Token.kw_false ↦ reserved
      | Token.kw_startswith ↦ reserved
      | _ ↦ fail (syntax_error spanned.start (codes "expected an attribute name"))
    ]

-- What an operator token asks for.
pub data Operator : Type 0 where
  comparison : ComparisonOperator → Operator
  prefix : Operator

-- The `switch` of `parsePredicate` on the operator, up to its calls of `parseValue`.
unfoldable pub token_operator : SpannedToken → Outcome Operator
token_operator spanned = elim spanned.token [
  | Token.equal ↦ ok (comparison ComparisonOperator.eq)
  | Token.less ↦ ok (comparison ComparisonOperator.lt)
  | Token.less_equal ↦ ok (comparison ComparisonOperator.lte)
  | Token.greater ↦ ok (comparison ComparisonOperator.gt)
  | Token.greater_equal ↦ ok (comparison ComparisonOperator.gte)
  | Token.kw_startswith ↦ ok prefix
  | Token.neq ↦ fail (
      type_error spanned.start (
        codes "!= is not part of the query language — write NOT (attr = value) for the complement"))
  | _ ↦
      fail (
        syntax_error spanned.start
          (codes "expected a comparison operator (= < <= > >= STARTSWITH)"))
]

abbrev pub prefix_leaf : AttributeRef → ℕ → QueryValue → Outcome QueryAst
prefix_leaf key position (QueryValue.str text) = ok (QueryAst.starts_with key text)
prefix_leaf key position _ =
    fail (type_error position (codes "STARTSWITH matches a string prefix — write str('…')"))

unfoldable pub leaf : AttributeRef → Operator → QueryValue → ℕ → Outcome QueryAst
unfolding check_operator
leaf key (comparison op) value position = do
  _ ← check_operator op value position
  ok (QueryAst.compare op key value)
leaf key prefix value position = prefix_leaf key position value

-- A predicate is an attribute, an operator and a value, one token each. A token that is missing
-- is an error at the end of the query.
unfoldable pub predicate_at : Host → ℕ → List SpannedToken → Outcome (QueryAst × List SpannedToken)
unfolding token_attr_ref token_operator value_of leaf expected_value
predicate_at host end [] = fail (syntax_error end (codes "expected an attribute name"))
predicate_at host end (k ∷ []) = do
  _ ← token_attr_ref k
  fail (
      syntax_error end
        (codes "expected a comparison operator (= < <= > >= STARTSWITH) after the attribute"))
predicate_at host end (k ∷ o ∷ []) = do
  _ ← token_attr_ref k
  _ ← token_operator o
  fail (syntax_error end expected_value)
predicate_at host end (k ∷ o ∷ v ∷ rest) = do
  key ← token_attr_ref k
  operator ← token_operator o
  value ← value_of host key v
  ast ← leaf key operator value v.start
  ok (ast, rest)
