-- ===== src/Query/Syntax.antt =====
-- The types of src/entityQueryLanguage.ts: errors, the AST and the tokens. A text is its UTF-8
-- bytes; a message is its code points.
use Prim.Native.Char.{code}
use arkiv_chain_indexer.Common.{ℕ, ◌*◌, String, Bool, Option, some, List, [], ◌∷◌}
use arkiv_chain_indexer.Common.Int.{ℤ}
use arkiv_chain_indexer.EntityValues.{AttributeTypeTag}

abbrev pub Text : Type 0
Text = List ℕ

-- The code points of a literal of the source; of an ASCII one, its bytes.
unfoldable pub codes : String → Text
codes String.[] = []
codes (String.◌∷◌ c s) = code c ∷ codes s

abbrev pub max_query_bytes : ℕ
max_query_bytes = 8 * 1024

abbrev pub max_predicates : ℕ
max_predicates = 64

abbrev pub max_nesting_depth : ℕ
max_nesting_depth = 32

abbrev pub max_attribute_name_bytes : ℕ
max_attribute_name_bytes = 32

abbrev pub max_str_bytes : ℕ
max_str_bytes = 128

pub data QueryParseErrorKind : Type 0 where
  malformed type literal limit : QueryParseErrorKind

pub record QueryParseError : Type 0 where
  pub kind : QueryParseErrorKind
  pub message : Text
  pub position : Option ℕ

-- `QUERY_ERROR_CODES`; every code is negative, and this is its magnitude.
unfoldable pub query_error_code : QueryParseErrorKind → ℕ
query_error_code malformed = 32001
query_error_code type = 32002
query_error_code literal = 32003
query_error_code limit = 32004

abbrev pub syntax_error : ℕ → Text → QueryParseError
syntax_error position message = record {
  kind = malformed;
  message = message;
  position = some position;
}

abbrev pub type_error : ℕ → Text → QueryParseError
type_error position message = record { kind = type; message = message; position = some position }

abbrev pub literal_error : ℕ → Text → QueryParseError
literal_error position message = record {
  kind = literal;
  message = message;
  position = some position;
}

-- What a function that may throw returns; `out_of_fuel` stands for a run that does not end.
pub data Outcome {ℓ} (A : Type ℓ) : Type ℓ where
  ok : A → Outcome A
  fail : QueryParseError → Outcome A
  out_of_fuel : Outcome A

infixl 5 ◌>>=◌
abbrev pub ◌>>=◌ {ℓ κ} : {A : Type ℓ} {B : Type κ} → Outcome A → (A → Outcome B) → Outcome B
ok a >>= f = f a
fail e >>= f = fail e
out_of_fuel >>= f = out_of_fuel

pub data QueryValue : Type 0 where
  bool : Bool → QueryValue
  i32 : ℤ → QueryValue
  u64 : ℕ → QueryValue
  u256 : ℕ → QueryValue
  dec : ℤ → QueryValue
  str : Text → QueryValue
  addr : Text → QueryValue
  key : Text → QueryValue
  bytes32 : Text → QueryValue

-- `value.type`
unfoldable pub value_type : QueryValue → AttributeTypeTag
value_type (bool _) = AttributeTypeTag.bool
value_type (i32 _) = AttributeTypeTag.i32
value_type (u64 _) = AttributeTypeTag.u64
value_type (u256 _) = AttributeTypeTag.u256
value_type (dec _) = AttributeTypeTag.dec
value_type (str _) = AttributeTypeTag.str
value_type (addr _) = AttributeTypeTag.addr
value_type (key _) = AttributeTypeTag.key
value_type (bytes32 _) = AttributeTypeTag.bytes32

pub data BuiltInField : Type 0 where
  owner creator entity_key expires_at created_at : BuiltInField

pub data AttributeRef : Type 0 where
  user : Text → AttributeRef
  builtin : BuiltInField → AttributeRef

pub data ComparisonOperator : Type 0 where
  eq lt lte gt gte : ComparisonOperator

pub data QueryAst : Type 0 where
  all : QueryAst
  compare : ComparisonOperator → AttributeRef → QueryValue → QueryAst
  starts_with : AttributeRef → Text → QueryAst
  and or : QueryAst → QueryAst → QueryAst
  not : QueryAst → QueryAst

-- The tags that a query can spell.
pub data TypeTag : Type 0 where
  i32 u64 u256 dec str addr key bytes32 bool : TypeTag

-- `inherited` is what `KEYWORDS["constructor"]` gives: `KEYWORDS` is an object literal, and has
-- that function from `Object.prototype`. It is truthy, so `lexWord` returns it as a token; its
-- `t` is undefined.
pub data Token : Type 0 where
  lparen rparen kw_and kw_or kw_not kw_startswith kw_exists kw_typeof : Token
  equal neq less less_equal greater greater_equal star kw_true kw_false inherited : Token
  name sysname int quoted : Text → Token
  tagged : TypeTag → Text → ℕ → Token

pub record SpannedToken : Type 0 where
  pub token : Token
  pub start : ℕ
