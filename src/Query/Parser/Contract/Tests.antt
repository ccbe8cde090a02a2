-- ===== src/Query/Parser/Contract/Tests.antt =====
-- The parser on concrete queries.
use arkiv_chain_indexer.Common.{◌≡◌, ◌↔◌, refl, List, [], ◌∷◌}
use arkiv_chain_indexer.Common.Int.{pos}
use arkiv_chain_indexer.Query.Syntax.{
  codes, ok, Token, SpannedToken, QueryAst, ComparisonOperator, AttributeRef, QueryValue,
}
use arkiv_chain_indexer.Query.Lexer.Tests.{plain_host}
use arkiv_chain_indexer.Query.Parser.{
  parse_top_level, parse_entity_query, descend, parse_predicate, close_group,
}
use arkiv_chain_indexer.Query.Predicate.{bare_int_value}
use arkiv_chain_indexer.Query.Literals.{parse_i32, decimal_magnitude, trim}
use arkiv_chain_indexer.Query.Ends.{IsDone}
use arkiv_chain_indexer.Query.Parser.Done.{parse_entity_query-IsDone}
use arkiv_chain_indexer.Query.Parser.Complete.Queries.{parse_top_level↔IsQuery}
use arkiv_chain_indexer.Query.Parser.Contract.{IsQuery}

abbrev sample : List SpannedToken
sample =
    record { token = Token.kw_not; start = 0 }
    ∷ record { token = Token.lparen; start = 4 }
    ∷ record { token = Token.name (codes "a"); start = 5 }
    ∷ record { token = Token.less; start = 7 }
    ∷ record { token = Token.int (codes "7"); start = 9 }
    ∷ record { token = Token.rparen; start = 10 }
    ∷ []

abbrev sample_ast : QueryAst
sample_ast = QueryAst.not (
    QueryAst.compare ComparisonOperator.lt (AttributeRef.user (codes "a")) (QueryValue.i32 (pos 7)))

parse_sample : parse_top_level plain_host 11 sample ≡ ok sample_ast
unfolding parse_top_level codes descend parse_predicate bare_int_value parse_i32 decimal_magnitude
    trim close_group
parse_sample = refl

parse_source : parse_entity_query plain_host (codes "not (a < 7)") ≡ ok sample_ast
unfolding parse_entity_query codes descend parse_predicate bare_int_value parse_i32
    decimal_magnitude trim close_group
parse_source = refl

parse_entity_query-IsDone_example : IsDone (parse_entity_query plain_host (codes "not (a < 7"))
parse_entity_query-IsDone_example = parse_entity_query-IsDone plain_host (codes "not (a < 7")

parse_top_level↔IsQuery_example :
    (parse_top_level plain_host 11 sample ≡ ok sample_ast) ↔ IsQuery plain_host sample sample_ast
parse_top_level↔IsQuery_example = parse_top_level↔IsQuery plain_host 11 sample sample_ast
