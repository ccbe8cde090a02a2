-- ===== src/Query/Parser/Complete/Queries.antt =====
-- src/entityQueryLanguage.ts: every query of the grammar is accepted.
use arkiv_chain_indexer.Common.{
  ℕ, ◌+◌, ◌≤◌, ◌≡◌, ◌∙◌, ◌↔◌, refl, sym, ap, inl, inr, false, List, [], ◌∷◌, arith, length,
}
use mathlib.Core.Path.{subst}
use arkiv_chain_indexer.Query.Ends.{IsDone, Ends-IsDone}
use arkiv_chain_indexer.Query.Syntax.{
  ok, Token, SpannedToken, QueryAst, max_predicates, max_nesting_depth,
}
use arkiv_chain_indexer.Query.Lexer.{Host}
use arkiv_chain_indexer.Query.Grammar.{
  leaves, Expr, And, Unary, Primary, and_only, or_more, unary_only, and_more, negation,
  primary_only, group, predicate,
}
use arkiv_chain_indexer.Query.Parser.{
  parse_expr, or_loop, parse_top_level, check_end, star_only, is_star, initial, fuel_for,
}
use arkiv_chain_indexer.Query.Parser.Done.{taken, parse_expr-Ends}
use arkiv_chain_indexer.Query.Parser.Stable.{parse_expr-stable}
use arkiv_chain_indexer.Query.Parser.Complete.{Predicate-StartsPredicate}
use arkiv_chain_indexer.Query.Parser.Complete.Runs.{stable_agree}
use arkiv_chain_indexer.Query.Parser.Complete.Phrases.{at, chain}
use arkiv_chain_indexer.Query.Parser.Complete.Derivations.{parse_expr-Expr}
use arkiv_chain_indexer.Query.Parser.Contract.{IsQuery, parse_top_level-IsQuery}

-- No phrase starts with a star.
abbrev StartsPhrase : List SpannedToken → Type 0
StartsPhrase ts =
    (t : SpannedToken) × (rest : List SpannedToken) × (ts ≡ t ∷ rest) × (is_star t.token ≡ false)

mutual
  Expr-StartsPhrase :
      {host : Host} {d : ℕ} {ts us : List SpannedToken} {a : QueryAst}
      → Expr host d ts a us
      → StartsPhrase ts
  Expr-StartsPhrase (and_only x) = And-StartsPhrase x
  Expr-StartsPhrase (or_more x is y) = Expr-StartsPhrase x

  And-StartsPhrase :
      {host : Host} {d : ℕ} {ts us : List SpannedToken} {a : QueryAst}
      → And host d ts a us
      → StartsPhrase ts
  And-StartsPhrase (unary_only x) = Unary-StartsPhrase x
  And-StartsPhrase (and_more x is y) = And-StartsPhrase x

  Unary-StartsPhrase :
      {host : Host} {d : ℕ} {ts us : List SpannedToken} {a : QueryAst}
      → Unary host d ts a us
      → StartsPhrase ts
  Unary-StartsPhrase (negation {us = us} {t = t} is x) = (t, us, refl, rw is refl)
  Unary-StartsPhrase (primary_only x) = Primary-StartsPhrase x

  Primary-StartsPhrase :
      {host : Host} {d : ℕ} {ts us : List SpannedToken} {a : QueryAst}
      → Primary host d ts a us
      → StartsPhrase ts
  Primary-StartsPhrase (group {us = us} {t = t} is x close) = (t, us, refl, rw is refl)
  Primary-StartsPhrase {host = host} {a = a} (predicate {k = k} {o = o} {v = v} p) =
      (k, _, refl, (Predicate-StartsPredicate host k o v a p).2)

module _ (host : Host) (end : ℕ) where
  parse_expr-all :
      (ts : List SpannedToken) (a : QueryAst)
      → Expr host max_nesting_depth ts a []
      → leaves a ≤ max_predicates
      → parse_expr host end (fuel_for ts) (initial ts) ≡ ok (a, at [] 0 (leaves a))
  unfolding or_loop
  parse_expr-all ts a x few =
      let (f, e) =
        parse_expr-Expr host end 0 0 x (omega arith, omega (arith, few)) refl
          (ok (a, at [] 0 (0 + leaves a))) tt (1, refl) in
      let enough =
        Ends-IsDone taken (length ts) _
          (parse_expr-Ends host end (fuel_for ts) (initial ts) (omega arith)) in
      stable_agree (λ g. parse_expr host end g (initial ts))
        (λ g. parse_expr-stable host end g (initial ts)) (fuel_for ts) f enough
        (subst IsDone (sym e) tt)
      ∙ e
      ∙ ap (λ k. ok (a, at [] 0 k)) (omega arith)

  parse_top_level-star :
      (t : SpannedToken)
      → t.token ≡ Token.star
      → parse_top_level host end (t ∷ []) ≡ ok QueryAst.all
  unfolding parse_top_level star_only
  parse_top_level-star t is = let is' = ap is_star is in rw (is', parse_top_level) refl

  parse_top_level-Expr :
      (t : SpannedToken) (rest : List SpannedToken) (a : QueryAst)
      → is_star t.token ≡ false
      → Expr host max_nesting_depth (t ∷ rest) a []
      → leaves a ≤ max_predicates
      → parse_top_level host end (t ∷ rest) ≡ ok a
  unfolding parse_top_level check_end
  parse_top_level-Expr t rest a other x few =
      rw (other, parse_top_level)
        (chain (parse_expr host end (fuel_for (t ∷ rest)) (initial (t ∷ rest))) check_end
          (parse_expr-all (t ∷ rest) a x few))

  IsQuery-parse_top_level :
      (ts : List SpannedToken) (a : QueryAst)
      → IsQuery host ts a
      → parse_top_level host end ts ≡ ok a
  IsQuery-parse_top_level ts a (inl (t, one, is, same)) = rw (one, same) (parse_top_level-star t is)
  IsQuery-parse_top_level ts a (inr (x, few)) =
      let (t, rest, e, other) = Expr-StartsPhrase x in
      ap (parse_top_level host end) e
      ∙ parse_top_level-Expr t rest a other (subst (λ us. Expr host max_nesting_depth us a []) e x)
          few

-- The parser accepts a list of tokens with a tree exactly when the tokens are a query of the
-- grammar that reads as the tree, within the limits on nesting and on predicates.
pub parse_top_level↔IsQuery :
    (host : Host) (end : ℕ) (ts : List SpannedToken) (a : QueryAst)
    → (parse_top_level host end ts ≡ ok a) ↔ IsQuery host ts a
parse_top_level↔IsQuery host end ts a =
    (parse_top_level-IsQuery host end ts a, IsQuery-parse_top_level host end ts a)
