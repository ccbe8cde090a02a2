-- ===== src/Query/Parser.antt =====
-- src/entityQueryLanguage.ts, the parser. The tokens from `pos` on stand for the array and its
-- index; the state is passed and returned. The fuel is 4 * n + 4 for n tokens, since each of the
-- four levels of the grammar takes a step before a token is taken.
pub mod Sound
pub mod Done
pub mod Stable
pub mod Complete
pub mod Contract
use arkiv_chain_indexer.Common.{
  ℕ, zero, suc, ◌+◌, ◌-◌, ◌*◌, Bool, true, false, Option, none, some, List, [], ◌∷◌, ltb,
  if◌then◌else◌, length,
}
use arkiv_chain_indexer.Query.Syntax.{
  Text, codes, Outcome, ok, fail, out_of_fuel, ◌>>=◌, QueryParseErrorKind, syntax_error, Token,
  SpannedToken, QueryAst, max_query_bytes, max_predicates, max_nesting_depth,
}
use arkiv_chain_indexer.Query.Lexer.{Host, tokenize}
use arkiv_chain_indexer.Query.Predicate.{predicate_at}

pub record ParserState : Type 0 where
  pub tokens : List SpannedToken
  pub depth : ℕ
  pub predicates : ℕ

abbrev pub Parser {ℓ} : Type ℓ → Type ℓ
Parser A = ParserState → Outcome (A × ParserState)

-- `nextPosition`
abbrev next_position : ℕ → List SpannedToken → ℕ
next_position end [] = end
next_position end (t ∷ _) = t.start

unfoldable pub parse_predicate : Host → ℕ → Parser QueryAst
unfolding predicate_at
parse_predicate host end s =
    if ltb max_predicates (s.predicates + 1)
    then fail (record {
      kind = QueryParseErrorKind.limit;
      message = codes "query has too many predicates";
      position = some (next_position end s.tokens);
    })
    else (do
      (ast, rest) ← predicate_at host end s.tokens
      ok (ast, record s { tokens = rest; predicates = s.predicates + 1 }))

-- `descend`, with the token at `position` taken.
unfoldable pub descend : ℕ → List SpannedToken → ParserState → Outcome ParserState
descend position rest s =
    if ltb max_nesting_depth (s.depth + 1)
    then fail (record {
      kind = QueryParseErrorKind.limit;
      message = codes "query is nested too deeply";
      position = some position;
    })
    else ok (record s { tokens = rest; depth = s.depth + 1 })

abbrev pub is_or : Token → Bool
is_or Token.kw_or = true
is_or _ = false

abbrev pub is_and : Token → Bool
is_and Token.kw_and = true
is_and _ = false

abbrev pub is_not : Token → Bool
is_not Token.kw_not = true
is_not _ = false

abbrev pub is_lparen : Token → Bool
is_lparen Token.lparen = true
is_lparen _ = false

abbrev pub is_rparen : Token → Bool
is_rparen Token.rparen = true
is_rparen _ = false

unclosed : ℕ → Outcome (QueryAst × ParserState)
unclosed position = fail (syntax_error position (codes "unclosed group — expected ')'"))

-- The end of a group that was opened at `position`.
unfoldable pub close_group : ℕ → QueryAst × ParserState → Outcome (QueryAst × ParserState)
unfolding unclosed
close_group position (inner, s) = elim s.tokens [
  | [] ↦ unclosed position
  | t ∷ rest ↦
      if is_rparen t.token
      then ok (inner, record s { tokens = rest; depth = s.depth - 1 })
      else unclosed position
]

abbrev pub negated : QueryAst × ParserState → Outcome (QueryAst × ParserState)
negated (inner, s) = ok (QueryAst.not inner, record s { depth = s.depth - 1 })

abbrev pub missing_predicate : ℕ → Outcome (QueryAst × ParserState)
missing_predicate end = fail (syntax_error end (codes "expected a predicate"))

-- The test of a loop, or of a branch, on the next token.
abbrev pub head_is : (Token → Bool) → List SpannedToken → Option (SpannedToken × List SpannedToken)
head_is p [] = none
head_is p (t ∷ rest) = if p t.token then some (t, rest) else none

module _ (host : Host) (end : ℕ) where
  unfoldable mutual
    pub parse_expr : ℕ → Parser QueryAst
    parse_expr zero s = out_of_fuel
    parse_expr (suc fuel) s = do (left, s') ← parse_and fuel s; or_loop fuel left s'

    -- `while (this.peek()?.token.t === "or")`
    pub or_loop : ℕ → QueryAst → Parser QueryAst
    or_loop zero left s = out_of_fuel
    or_loop (suc fuel) left s = elim (head_is is_or s.tokens) [
      | none ↦ ok (left, s)
      | some (t, rest) ↦ (do
        (right, s') ← parse_and fuel (record s { tokens = rest })
        or_loop fuel (QueryAst.or left right) s')
    ]

    pub parse_and : ℕ → Parser QueryAst
    parse_and zero s = out_of_fuel
    parse_and (suc fuel) s = do (left, s') ← parse_unary fuel s; and_loop fuel left s'

    -- `while (this.peek()?.token.t === "and")`
    pub and_loop : ℕ → QueryAst → Parser QueryAst
    and_loop zero left s = out_of_fuel
    and_loop (suc fuel) left s = elim (head_is is_and s.tokens) [
      | none ↦ ok (left, s)
      | some (t, rest) ↦ (do
        (right, s') ← parse_unary fuel (record s { tokens = rest })
        and_loop fuel (QueryAst.and left right) s')
    ]

    pub parse_unary : ℕ → Parser QueryAst
    parse_unary zero s = out_of_fuel
    parse_unary (suc fuel) s = elim s.tokens [
      | [] ↦ missing_predicate end
      | t ∷ rest ↦ elim (is_not t.token) [
        | false ↦ parse_primary fuel s
        | true ↦ (do s' ← descend t.start rest s; inner ← parse_unary fuel s'; negated inner)
      ]
    ]

    pub parse_primary : ℕ → Parser QueryAst
    parse_primary zero s = out_of_fuel
    parse_primary (suc fuel) s = elim s.tokens [
      | [] ↦ missing_predicate end
      | t ∷ rest ↦ elim (is_lparen t.token) [
        | false ↦ parse_predicate host end s
        | true ↦ (do
          s' ← descend t.start rest s
          inner ← parse_expr fuel s'
          close_group t.start inner)
      ]
    ]

abbrev pub is_star : Token → Bool
is_star Token.star = true
is_star _ = false

-- Nothing may follow the expression.
unfoldable pub check_end : QueryAst × ParserState → Outcome QueryAst
check_end (query, s) = elim s.tokens [
  | [] ↦ ok query
  | trailing ∷ _ ↦ fail (
      syntax_error trailing.start
        (codes "unexpected trailing input — did you mean to join these with AND or OR?"))
]

unfoldable pub star_only : List SpannedToken → Outcome QueryAst
star_only [] = ok QueryAst.all
star_only (next ∷ _) = fail (
    syntax_error next.start
      (codes "* matches every entity and cannot be combined with other predicates"))

abbrev pub fuel_for : List SpannedToken → ℕ
fuel_for tokens = 4 * length tokens + 4

abbrev pub initial : List SpannedToken → ParserState
initial tokens = record { tokens = tokens; depth = 0; predicates = 0 }

unfoldable pub parse_top_level : Host → ℕ → List SpannedToken → Outcome QueryAst
unfolding parse_expr check_end star_only
parse_top_level host end [] =
    fail (syntax_error 0 (codes "empty query — write a predicate, or * to match every entity"))
parse_top_level host end (t ∷ rest) = if is_star t.token then star_only rest else (do
  parsed ← parse_expr host end (fuel_for (t ∷ rest)) (initial (t ∷ rest))
  check_end parsed)

unfoldable pub parse_entity_query : Host → Text → Outcome QueryAst
unfolding tokenize parse_top_level
parse_entity_query host src =
    if ltb max_query_bytes (length src)
    then fail (record {
      kind = QueryParseErrorKind.limit;
      message = codes "query is too long";
      position = none;
    })
    else (do tokens ← tokenize host src; parse_top_level host (length src) tokens)
