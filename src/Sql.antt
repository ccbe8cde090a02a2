-- ===== src/Sql.antt =====
-- src/entityQuerySql.ts: an entity query compiled to an SQL condition. The condition is given as
-- its syntax, with the numbers of its placeholders; a number and its decimal text are the same.
mod Tests
pub mod Stored
pub mod Prefix
pub mod Meaning
pub mod Rows
pub mod Refines
pub mod Compiles
pub mod Queries
use arkiv_chain_indexer.Common.{
  ℕ, zero, suc, ◌+◌, ◌-◌, ◌^◌, ◌%◌, Bool, true, false, ◌&&◌, ◌||◌, Option, none, some, List, [],
  ◌∷◌, ◌++◌, eqb, ltb, if◌then◌else◌, length, get_elem?, take,
}
use arkiv_chain_indexer.Common.Int.{ℤ, pos}
use arkiv_chain_indexer.Common.Try.{Try, thrown, returned, ◌>>=◌}
use arkiv_chain_indexer.EntityValues.{AttributeTypeTag, is_ordered_type, type_id}
use arkiv_chain_indexer.Query.Syntax.{
  Text, codes, QueryValue, value_type, BuiltInField, AttributeRef, user, builtin,
  ComparisonOperator, QueryAst,
}

abbrev pub i64_max : ℕ
i64_max = 2 ^ 63 - 1

-- The loop of `nextBytePrefix`: what is left of `end`.
unfoldable pub end_of : Text → ℕ → ℕ
end_of prefix zero = zero
end_of prefix (suc end) =
    let rest = end_of prefix end in
    elim (get_elem? prefix end) [
      | none ↦ suc end
      | some byte ↦ if eqb byte 0xff then rest else suc end
    ]

-- `next[i]! += 1`
unfoldable pub add_one_at : ℕ → Text → Text
add_one_at i [] = []
add_one_at zero (byte ∷ rest) = ((byte + 1) % 256) ∷ rest
add_one_at (suc i) (byte ∷ rest) = byte ∷ add_one_at i rest

unfoldable pub next_byte_prefix : Text → Option Text
unfolding end_of add_one_at
next_byte_prefix prefix = elim (end_of prefix (length prefix)) [
  | zero ↦ none
  | suc i ↦ some (add_one_at i (take (suc i) prefix))
]

-- What a placeholder stands for.
pub data Param : Type 0 where
  text bytes : Text → Param
  number : ℤ → Param
  small : ℕ → Param

-- `"true"`
abbrev pub true_text : Text
true_text = 116 ∷ 114 ∷ 117 ∷ 101 ∷ []

-- `"false"`
abbrev pub false_text : Text
false_text = 102 ∷ 97 ∷ 108 ∷ 115 ∷ 101 ∷ []

abbrev pub query_value_operand : QueryValue → Param
query_value_operand (QueryValue.bool true) = text true_text
query_value_operand (QueryValue.bool false) = text false_text
query_value_operand (QueryValue.i32 n) = number n
query_value_operand (QueryValue.u64 n) = number (pos n)
query_value_operand (QueryValue.u256 n) = number (pos n)
query_value_operand (QueryValue.dec units) = number units
query_value_operand (QueryValue.str value) = text value
query_value_operand (QueryValue.addr value) = text value
query_value_operand (QueryValue.key value) = text value
query_value_operand (QueryValue.bytes32 value) = text value

-- `Buffer.from(…, "utf8")`: a text is its UTF-8 bytes, so only the type of the parameter changes.
abbrev pub buffer_from : Param → Param
buffer_from (text value) = bytes value
buffer_from other = other

pub record Params : Type 0 where
  pub offset : ℕ
  pub values : List Param

abbrev pub add : Param → Params → ℕ × Params
add value params = (
  params.offset + length params.values + 1,
  record params { values = params.values ++ value ∷ [] },
)

-- The columns of the versions table, with the cast of what they are compared with.
pub data Column : Type 0 where
  owner creator entity_key expires_at created_at : Column

abbrev pub builtin_column : BuiltInField → Column
builtin_column BuiltInField.owner = owner
builtin_column BuiltInField.creator = creator
builtin_column BuiltInField.entity_key = entity_key
builtin_column BuiltInField.expires_at = expires_at
builtin_column BuiltInField.created_at = created_at

-- The condition on the value of an attribute.
pub data Condition : Type 0 where
  value_num value_bytes : ComparisonOperator → ℕ → Condition
  bytes_from : ℕ → Condition
  bytes_between : ℕ → ℕ → Condition

pub data Sql : Type 0 where
  always never : Sql
  both either : Sql → Sql → Sql
  negated : Sql → Sql
  column : Column → ComparisonOperator → ℕ → Sql
  -- `EXISTS` on the attributes of the version, by the placeholders of the name and the type.
  exists : ℕ → ℕ → Condition → Sql

pub data CompileError : Type 0 where
  starts_with_on_system_attribute : CompileError

abbrev pub Compiled : Type 0
Compiled = Try CompileError (Sql × Params)

abbrev pub is_upper_bound : ComparisonOperator → Bool
is_upper_bound ComparisonOperator.lt = true
is_upper_bound ComparisonOperator.lte = true
is_upper_bound _ = false

-- A literal that no `$createdAt` reaches.
abbrev pub is_beyond : BuiltInField → QueryValue → Bool
is_beyond BuiltInField.created_at (QueryValue.u64 n) = ltb i64_max n
is_beyond BuiltInField.created_at (QueryValue.u256 n) = ltb i64_max n
is_beyond _ _ = false

unfoldable pub compile_builtin :
    BuiltInField → ComparisonOperator → QueryValue → Params → Sql × Params
compile_builtin field op value params =
    let (operand, params') = add (query_value_operand value) params in
    if is_beyond field value
    then ((if is_upper_bound op then always else never), params)
    else (column (builtin_column field) op operand, params')

-- The condition of a prefix, after the name and the type.
unfoldable pub compile_prefix : Text → Params → Condition × Params
unfolding next_byte_prefix
compile_prefix prefix params =
    let (from, params1) = add (bytes prefix) params in
    elim (next_byte_prefix prefix) [
      | none ↦ (bytes_from from, params1)
      | some next ↦
          let (until, params2) = add (bytes next) params1 in (bytes_between from until, params2)
    ]

unfoldable pub compile_comparison : ComparisonOperator → QueryValue → Params → Condition × Params
unfolding is_ordered_type value_type
compile_comparison op value params =
    let (number', params1) = add (query_value_operand value) params in
    let (bytes', params2) = add (buffer_from (query_value_operand value)) params in
    if is_ordered_type (value_type value)
    then (value_num op number', params1)
    else (value_bytes op bytes', params2)

-- The name and the type, then the condition.
abbrev pub compile_exists :
    Text → AttributeTypeTag → (Params → Condition × Params) → Params → Sql × Params
compile_exists name tag compile params =
    let (name', params1) = add (text name) params in
    let (type', params2) = add (small (type_id tag)) params1 in
    let (condition, params3) = compile params2 in (exists name' type' condition, params3)

unfoldable pub compile_node : QueryAst → Params → Compiled
unfolding compile_builtin compile_prefix compile_comparison value_type
compile_node QueryAst.all params = returned (always, params)
compile_node (QueryAst.and left right) params = do
  (a, params1) ← compile_node left params
  (b, params2) ← compile_node right params1
  returned (both a b, params2)
compile_node (QueryAst.or left right) params = do
  (a, params1) ← compile_node left params
  (b, params2) ← compile_node right params1
  returned (either a b, params2)
compile_node (QueryAst.not inner) params = do
  (a, params1) ← compile_node inner params
  returned (negated a, params1)
compile_node (QueryAst.starts_with (builtin field) prefix) params =
    thrown starts_with_on_system_attribute
compile_node (QueryAst.starts_with (user name) prefix) params =
    returned (compile_exists name AttributeTypeTag.str (compile_prefix prefix) params)
compile_node (QueryAst.compare op (builtin field) value) params =
    returned (compile_builtin field op value params)
compile_node (QueryAst.compare op (user name) value) params =
    returned (compile_exists name (value_type value) (compile_comparison op value) params)

-- `options.paramOffset ?? 0`
abbrev pub offset_of : Option ℕ → ℕ
offset_of none = 0
offset_of (some n) = n

-- `compileEntityQuery`, with what it is given for `paramOffset`.
unfoldable pub compile_entity_query : QueryAst → Option ℕ → Try CompileError (Sql × List Param)
unfolding compile_node
compile_entity_query ast param_offset = do
  (sql, params) ← compile_node ast (record { offset = offset_of param_offset; values = [] })
  returned (sql, params.values)
