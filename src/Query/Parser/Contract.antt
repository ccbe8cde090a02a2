-- ===== src/Query/Parser/Contract.antt =====
-- src/entityQueryLanguage.ts: what the parser promises about a query that it accepts.
mod Tests
use arkiv_chain_indexer.Common.{
  List-cases, ℕ, suc, ◌+◌, ◌≤◌, ◌≡◌, ◌∙◌, sym, ap, refl, ◌⊎◌, inl, inr, Bool, true, false, Option,
  none, some, List, [], ◌∷◌, arith, length, Bool-cases, ltb,
}
use mathlib.Core.Path.{subst}
use arkiv_chain_indexer.Query.Syntax.{
  Text, Outcome, ok, Token, SpannedToken, QueryAst, max_predicates, max_nesting_depth,
  max_query_bytes,
}
use arkiv_chain_indexer.Query.Lexer.{Host, tokenize}
use arkiv_chain_indexer.Query.Grammar.{leaves, Expr}
use arkiv_chain_indexer.Query.Parser.{
  ParserState, parse_expr, parse_top_level, parse_entity_query, check_end, star_only, is_star,
  initial, fuel_for,
}
use arkiv_chain_indexer.Query.Parser.Sound.{bind-ok}
use arkiv_chain_indexer.Query.Parser.Sound.Derives.{ok-injective}
use arkiv_chain_indexer.Query.Parser.Sound.Phrases.{parse_expr-ok}

-- A query is a lone star, or an expression of the grammar to its end, within the limits.
abbrev pub IsQuery : Host → List SpannedToken → QueryAst → Type 0
IsQuery host ts a =
    ((t : SpannedToken) × (ts ≡ t ∷ []) × (t.token ≡ Token.star) × (a ≡ QueryAst.all))
    ⊎ (Expr host max_nesting_depth ts a [] × (leaves a ≤ max_predicates))

is_star-true : (t : Token) → is_star t ≡ true → t ≡ Token.star
is_star-true t h = ground arith

check_end-ok :
    (a b : QueryAst) (s : ParserState) → check_end (a, s) ≡ ok b → (s.tokens ≡ []) × (a ≡ b)
unfolding check_end
check_end-ok a b s h = elim (List-cases s.tokens) [
  | inl e ↦ (e, ok-injective (rw (e, check_end) at h))
  | inr (t, rest, e) ↦ cc (rw (e, check_end) at h)
]

star_only-ok :
    (rest : List SpannedToken) (a : QueryAst)
    → star_only rest ≡ ok a
    → (rest ≡ []) × (a ≡ QueryAst.all)
unfolding star_only
star_only-ok [] a h = (refl, cc h)
star_only-ok (t ∷ rest) a h = cc h

-- A list of tokens that the parser accepts is a query of the grammar that reads as the result:
-- a lone star, or an expression to the end of the tokens that nests at most 32 groups and
-- negations and has at most 64 predicates, whose system attributes have values of their own
-- types and whose ordered comparisons have values of ordered types.
pub parse_top_level-IsQuery :
    (host : Host) (end : ℕ) (ts : List SpannedToken) (a : QueryAst)
    → parse_top_level host end ts ≡ ok a
    → IsQuery host ts a
unfolding parse_top_level
parse_top_level-IsQuery host end [] a h = cc h
parse_top_level-IsQuery host end (t ∷ rest) a h = elim (Bool-cases (is_star t.token)) [
  | inl is ↦
      let (none_left, same) = star_only-ok rest a (rw (is, parse_top_level) at h) in
      inl (t, ap (λ r. t ∷ r) none_left, is_star-true t.token is, same)
  | inr other ↦
      let ((b, s), e, h1) =
        bind-ok (parse_expr host end (fuel_for (t ∷ rest)) (initial (t ∷ rest))) _
          (rw (other, parse_top_level) at h) in
      let (left, same) = check_end-ok b a s h1 in
      let x =
        parse_expr-ok host end (fuel_for (t ∷ rest)) max_nesting_depth (initial (t ∷ rest)) s b refl
          e in
      inr (
        subst (λ r. Expr host max_nesting_depth (t ∷ rest) r []) same
            (subst (λ us. Expr host max_nesting_depth (t ∷ rest) b us) left x.derived),
        subst (λ r. leaves r ≤ max_predicates) same (omega (arith, x.counted, x.within)),
      )
]
