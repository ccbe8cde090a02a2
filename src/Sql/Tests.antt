-- ===== src/Sql/Tests.antt =====
-- The compiler of queries on a concrete query.
use arkiv_chain_indexer.Common.{
  ◌≡◌, refl, Bool, true, not, ◌&&◌, some, List, [], ◌∷◌, ◌++◌, ◌==◌, list_eq, arith,
}
use arkiv_chain_indexer.Common.Int.{ℤ, pos, negsuc}
use arkiv_chain_indexer.Common.Try.{returned}
use arkiv_chain_indexer.Query.Syntax.{
  Text, codes, QueryAst, ComparisonOperator, AttributeRef, QueryValue,
}
use arkiv_chain_indexer.Query.Lexer.Tests.{plain_host}
use arkiv_chain_indexer.Query.Parser.{parse_entity_query, descend, parse_predicate, close_group}
use arkiv_chain_indexer.Query.Predicate.{bare_int_value}
use arkiv_chain_indexer.Query.Literals.{parse_i32, decimal_magnitude, trim}
use arkiv_chain_indexer.Sql.{Param, Sql, compile_entity_query, offset_of, next_byte_prefix}
use arkiv_chain_indexer.Sql.Prefix.{bytes_lt, has_prefix, is_below, next_byte_prefix-range}
use arkiv_chain_indexer.Sql.Meaning.{Entity, typed, compare_numbers, matches, Postgres, test}
use arkiv_chain_indexer.Sql.Queries.{compile_entity_query-matches}

-- The order of bytes, whatever the collation.
abbrev by_bytes : ComparisonOperator → Text → Text → Bool
by_bytes ComparisonOperator.eq a b = a == b
by_bytes ComparisonOperator.lt a b = bytes_lt a b
by_bytes ComparisonOperator.lte a b = not (bytes_lt b a)
by_bytes ComparisonOperator.gt a b = bytes_lt b a
by_bytes ComparisonOperator.gte a b = not (bytes_lt a b)

abbrev plain_db : Postgres
plain_db = record {
  number_test = compare_numbers;
  text_test = by_bytes;
  bytes_test = by_bytes;
  number_order = λ op a b. refl;
  text_equal = λ a b. refl;
  bytes_equal = λ a b. refl;
  bytes_above = λ a b. refl;
  bytes_below = λ a b. refl;
}

abbrev plain_decimal : ℤ → Text
plain_decimal (pos n) = n ∷ []
plain_decimal (negsuc n) = 45 ∷ n ∷ []

abbrev entity : Entity
entity = record {
  owner = 1 ∷ [];
  creator = 2 ∷ [];
  entity_key = 3 ∷ [];
  expires_at = 90;
  created_at = 7;
  attributes =
      record { name = 97 ∷ []; value = typed (QueryValue.i32 (pos 5)); indexed = true }
      ∷ record { name = 98 ∷ []; value = typed (QueryValue.str (120 ∷ [])); indexed = true }
      ∷ record { name = 99 ∷ []; value = typed (QueryValue.bool true); indexed = true }
      ∷ [];
}

abbrev source_ast : QueryAst
source_ast =
    QueryAst.and
      (QueryAst.not (
        QueryAst.compare ComparisonOperator.lt (AttributeRef.user (97 ∷ []))
          (QueryValue.i32 (pos 7))))
      (QueryAst.compare ComparisonOperator.eq (AttributeRef.user (99 ∷ [])) (QueryValue.bool true))

compile_entity_query-matches_example :
    (sql : Sql) × (params : List Param) × (compile_entity_query source_ast (some 2)
      ≡ returned (sql, params))
    × ((more : List Param)
        → test plain_db (offset_of (some 2)) (params ++ more) plain_decimal sql entity
          ≡ matches source_ast entity)
unfolding parse_entity_query codes descend parse_predicate bare_int_value parse_i32
    decimal_magnitude trim close_group
compile_entity_query-matches_example =
    compile_entity_query-matches plain_db plain_decimal entity plain_host
      (codes "not (a < 7) and c = true") source_ast (some 2)
      (omega arith, (omega arith, ((omega arith, tt), (tt, tt)))) refl (tt, tt)

next_byte_prefix-range_example :
    (not (bytes_lt (97 ∷ 255 ∷ 3 ∷ []) (97 ∷ 255 ∷ []))
      && is_below (97 ∷ 255 ∷ 3 ∷ []) (next_byte_prefix (97 ∷ 255 ∷ [])))
    ≡ has_prefix (97 ∷ 255 ∷ []) (97 ∷ 255 ∷ 3 ∷ [])
next_byte_prefix-range_example =
    next_byte_prefix-range (97 ∷ 255 ∷ []) (97 ∷ 255 ∷ 3 ∷ []) (omega arith, (omega arith, tt))
      (omega arith, (omega arith, (omega arith, tt)))
