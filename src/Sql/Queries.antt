-- ===== src/Sql/Queries.antt =====
-- src/entityQueryLanguage.ts and src/entityQuerySql.ts: from the text of a query to its condition.
use arkiv_chain_indexer.Common.{
  ℕ, ◌≡◌, refl, sym, inl, inr, Option, List, [], ◌++◌, ltb, Bool-cases, length,
}
use mathlib.Core.Path.{subst}
use arkiv_chain_indexer.Common.Int.{ℤ}
use arkiv_chain_indexer.Common.Try.{returned}
use arkiv_chain_indexer.Query.Syntax.{Text, ok, SpannedToken, QueryAst, max_query_bytes}
use arkiv_chain_indexer.Query.Lexer.{Host, tokenize}
use arkiv_chain_indexer.Query.Grammar.{
  Predicate, Expr, And, Unary, Primary, and_only, or_more, unary_only, and_more, negation,
  primary_only, group, predicate, compares, starts,
}
use arkiv_chain_indexer.Query.Parser.{parse_entity_query}
use arkiv_chain_indexer.Query.Parser.Sound.{bind-ok}
use arkiv_chain_indexer.Query.Parser.Contract.{IsQuery, parse_top_level-IsQuery}
use arkiv_chain_indexer.Sql.{Param, Sql, compile_entity_query, offset_of}
use arkiv_chain_indexer.Sql.Prefix.{IsBytes}
use arkiv_chain_indexer.Sql.Meaning.{Entity, IsEntity, IsWellTyped, matches, Postgres, test}
use arkiv_chain_indexer.Sql.Compiles.{compile_node-Compiles}

-- The prefixes of a query are bytes.
abbrev pub HasBytes : QueryAst → Type 0
HasBytes QueryAst.all = Unit
HasBytes (QueryAst.and l r) = HasBytes l × HasBytes r
HasBytes (QueryAst.or l r) = HasBytes l × HasBytes r
HasBytes (QueryAst.not a) = HasBytes a
HasBytes (QueryAst.compare op key value) = Unit
HasBytes (QueryAst.starts_with key prefix) = IsBytes prefix

Predicate-IsWellTyped :
    {host : Host} {k o v : SpannedToken} {a : QueryAst}
    → Predicate host k o v a
    → HasBytes a
    → IsWellTyped a
Predicate-IsWellTyped (compares key op value a b c t d) h = (t, d)
Predicate-IsWellTyped (starts key text a b c t) h = (t, h)

mutual
  Expr-IsWellTyped :
      {host : Host} {d : ℕ} {ts us : List SpannedToken} {a : QueryAst}
      → Expr host d ts a us
      → HasBytes a
      → IsWellTyped a
  Expr-IsWellTyped (and_only x) h = And-IsWellTyped x h
  Expr-IsWellTyped (or_more x is y) (h, k) = (Expr-IsWellTyped x h, And-IsWellTyped y k)

  And-IsWellTyped :
      {host : Host} {d : ℕ} {ts us : List SpannedToken} {a : QueryAst}
      → And host d ts a us
      → HasBytes a
      → IsWellTyped a
  And-IsWellTyped (unary_only x) h = Unary-IsWellTyped x h
  And-IsWellTyped (and_more x is y) (h, k) = (And-IsWellTyped x h, Unary-IsWellTyped y k)

  Unary-IsWellTyped :
      {host : Host} {d : ℕ} {ts us : List SpannedToken} {a : QueryAst}
      → Unary host d ts a us
      → HasBytes a
      → IsWellTyped a
  Unary-IsWellTyped (negation is x) h = Unary-IsWellTyped x h
  Unary-IsWellTyped (primary_only x) h = Primary-IsWellTyped x h

  Primary-IsWellTyped :
      {host : Host} {d : ℕ} {ts us : List SpannedToken} {a : QueryAst}
      → Primary host d ts a us
      → HasBytes a
      → IsWellTyped a
  Primary-IsWellTyped (group is x close) h = Expr-IsWellTyped x h
  Primary-IsWellTyped (predicate p) h = Predicate-IsWellTyped p h

IsQuery-IsWellTyped :
    (host : Host) (ts : List SpannedToken) (a : QueryAst)
    → IsQuery host ts a
    → HasBytes a
    → IsWellTyped a
IsQuery-IsWellTyped host ts a (inl (t, one, is, same)) h = subst IsWellTyped (sym same) tt
IsQuery-IsWellTyped host ts a (inr (x, few)) h = Expr-IsWellTyped x h

-- An accepted query is well typed.
parse_entity_query-IsWellTyped :
    (host : Host) (src : Text) (a : QueryAst)
    → parse_entity_query host src ≡ ok a
    → HasBytes a
    → IsWellTyped a
unfolding parse_entity_query
parse_entity_query-IsWellTyped host src a h good =
    elim (Bool-cases (ltb max_query_bytes (length src))) [
      | inl over ↦ cc (rw (over, parse_entity_query) at h)
      | inr fits ↦
          let (ts, read, parsed) =
            bind-ok (tokenize host src) _ (rw (fits, parse_entity_query) at h) in
          IsQuery-IsWellTyped host ts a (parse_top_level-IsQuery host (length src) ts a parsed) good
    ]

module _ (db : Postgres) (decimal : ℤ → Text) (e : Entity) where
  -- A query that the parser accepts compiles without an error, and the condition, with its
  -- parameters at the placeholders behind those of the statement around it, holds of the rows
  -- in which an entity is stored exactly when the entity matches the query. The values of the
  -- entity are of their types, its creation block fits a BIGINT, and prefixes are bytes.
  pub compile_entity_query-matches :
      (host : Host) (src : Text) (ast : QueryAst) (param_offset : Option ℕ)
      → IsEntity e
      → parse_entity_query host src ≡ ok ast
      → HasBytes ast
      → (sql : Sql) × (params : List Param) × (compile_entity_query ast param_offset
          ≡ returned (sql, params))
        × ((more : List Param)
            → test db (offset_of param_offset) (params ++ more) decimal sql e ≡ matches ast e)
  unfolding compile_entity_query
  compile_entity_query-matches host src ast param_offset good parsed typed =
      let (sql, params, compiled, k) =
        compile_node-Compiles db (offset_of param_offset) decimal e ast
          (parse_entity_query-IsWellTyped host src ast parsed typed) good [] in
      (
        sql,
        params,
        rw (compiled, compile_entity_query) refl,
        λ more. (k (params ++ more) (more, refl)).1,
      )
