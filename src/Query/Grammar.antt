-- ===== src/Query/Grammar.antt =====
-- The grammar of src/entityQueryLanguage.ts, as the comment at its top states it, over tokens:
-- `Expr d ts a us` says that the tokens `ts` begin with an expression that reads as `a`, that
-- `us` are left behind it, and that it nests at most `d` groups and negations.
use arkiv_chain_indexer.Common.{ℕ, suc, ◌+◌, ◌≤◌, ◌≡◌, true, List, ◌∷◌, arith, length}
use arkiv_chain_indexer.EntityValues.{is_ordered_type}
use arkiv_chain_indexer.Query.Syntax.{
  Text, ok, Token, SpannedToken, QueryValue, value_type, AttributeRef, user, builtin,
  ComparisonOperator, QueryAst,
}
use arkiv_chain_indexer.Query.Lexer.{Host}
use arkiv_chain_indexer.Query.Predicate.{
  token_attr_ref, token_operator, token_value, builtin_type, comparison, prefix,
}

-- A system attribute is compared with values of its own type only.
abbrev pub HasType : AttributeRef → QueryValue → Type 0
HasType (user _) value = Unit
HasType (builtin field) value = value_type value ≡ builtin_type field

-- Only equality is defined for every type.
abbrev pub IsDefinedOn : ComparisonOperator → QueryValue → Type 0
IsDefinedOn ComparisonOperator.eq value = Unit
IsDefinedOn _ value = is_ordered_type (value_type value) ≡ true

abbrev pub leaves : QueryAst → ℕ
leaves QueryAst.all = 0
leaves (QueryAst.compare _ _ _) = 1
leaves (QueryAst.starts_with _ _) = 1
leaves (QueryAst.and a b) = leaves a + leaves b
leaves (QueryAst.or a b) = leaves a + leaves b
leaves (QueryAst.not a) = leaves a

module _ (host : Host) where
  -- predicate → attrRef compOp value | attrRef STARTSWITH strValue
  pub data Predicate (k o v : SpannedToken) : QueryAst → Type 0 where
    compares :
        (key : AttributeRef) (op : ComparisonOperator) (value : QueryValue)
        → token_attr_ref k ≡ ok key
        → token_operator o ≡ ok (comparison op)
        → token_value host key v ≡ ok value
        → HasType key value
        → IsDefinedOn op value
        → Predicate k o v (QueryAst.compare op key value)
    starts :
        (key : AttributeRef) (text : Text)
        → token_attr_ref k ≡ ok key
        → token_operator o ≡ ok prefix
        → token_value host key v ≡ ok (QueryValue.str text)
        → HasType key (QueryValue.str text)
        → Predicate k o v (QueryAst.starts_with key text)

  mutual
    -- expr → andExpr { OR andExpr }
    pub data Expr : ℕ → List SpannedToken → QueryAst → List SpannedToken → Type 0 where
      and_only : {d : ℕ} {ts us : List SpannedToken} {a : QueryAst} → And d ts a us → Expr d ts a us
      or_more :
          {d : ℕ} {ts us vs : List SpannedToken} {t : SpannedToken} {a b : QueryAst}
          → Expr d ts a (t ∷ us)
          → t.token ≡ Token.kw_or
          → And d us b vs
          → Expr d ts (QueryAst.or a b) vs

    -- andExpr → unary { AND unary }
    pub data And : ℕ → List SpannedToken → QueryAst → List SpannedToken → Type 0 where
      unary_only :
          {d : ℕ} {ts us : List SpannedToken} {a : QueryAst} → Unary d ts a us → And d ts a us
      and_more :
          {d : ℕ} {ts us vs : List SpannedToken} {t : SpannedToken} {a b : QueryAst}
          → And d ts a (t ∷ us)
          → t.token ≡ Token.kw_and
          → Unary d us b vs
          → And d ts (QueryAst.and a b) vs

    -- unary → NOT unary | primary
    pub data Unary : ℕ → List SpannedToken → QueryAst → List SpannedToken → Type 0 where
      negation :
          {d : ℕ} {us vs : List SpannedToken} {t : SpannedToken} {a : QueryAst}
          → t.token ≡ Token.kw_not
          → Unary d us a vs
          → Unary (suc d) (t ∷ us) (QueryAst.not a) vs
      primary_only :
          {d : ℕ} {ts us : List SpannedToken} {a : QueryAst} → Primary d ts a us → Unary d ts a us

    -- primary → '(' expr ')' | predicate
    pub data Primary : ℕ → List SpannedToken → QueryAst → List SpannedToken → Type 0 where
      group :
          {d : ℕ} {us vs : List SpannedToken} {t r : SpannedToken} {a : QueryAst}
          → t.token ≡ Token.lparen
          → Expr d us a (r ∷ vs)
          → r.token ≡ Token.rparen
          → Primary (suc d) (t ∷ us) a vs
      predicate :
          {d : ℕ} {us : List SpannedToken} {k o v : SpannedToken} {a : QueryAst}
          → Predicate k o v a
          → Primary d (k ∷ o ∷ v ∷ us) a us

  -- Every phrase takes at least one token.
  mutual
    pub Expr-shorter :
        {d : ℕ} {ts us : List SpannedToken} {a : QueryAst}
        → Expr d ts a us
        → length us + 1 ≤ length ts
    Expr-shorter (and_only x) = And-shorter x
    Expr-shorter (or_more x _ y) = omega (arith, Expr-shorter x, And-shorter y)

    pub And-shorter :
        {d : ℕ} {ts us : List SpannedToken} {a : QueryAst}
        → And d ts a us
        → length us + 1 ≤ length ts
    And-shorter (unary_only x) = Unary-shorter x
    And-shorter (and_more x _ y) = omega (arith, And-shorter x, Unary-shorter y)

    pub Unary-shorter :
        {d : ℕ} {ts us : List SpannedToken} {a : QueryAst}
        → Unary d ts a us
        → length us + 1 ≤ length ts
    Unary-shorter (negation _ x) = omega (arith, Unary-shorter x)
    Unary-shorter (primary_only x) = Primary-shorter x

    pub Primary-shorter :
        {d : ℕ} {ts us : List SpannedToken} {a : QueryAst}
        → Primary d ts a us
        → length us + 1 ≤ length ts
    Primary-shorter (group _ x _) = omega (arith, Expr-shorter x)
    Primary-shorter (predicate _) = omega arith
