-- ===== src/Query/Parser/Complete.antt =====
-- src/entityQueryLanguage.ts: the parser reads every predicate of the grammar.
pub mod Runs
pub mod Phrases
pub mod Derivations
pub mod Queries
use arkiv_chain_indexer.Common.{
  ℕ, suc, ◌+◌, ◌≤◌, ◌≡◌, ◌∙◌, refl, sym, ap, inl, inr, Bool, true, false, not, ◌&&◌, List, [], ◌∷◌,
  arith, ltb, Bool-cases, if◌then◌else◌,
}
use arkiv_chain_indexer.EntityValues.{AttributeTypeTag, is_ordered_type}
use arkiv_chain_indexer.Query.Syntax.{
  Text, Outcome, ok, fail, ◌>>=◌, Token, SpannedToken, QueryValue, value_type, AttributeRef, user,
  builtin, ComparisonOperator, QueryAst, max_predicates,
}
use arkiv_chain_indexer.Query.Lexer.{Host}
use arkiv_chain_indexer.Query.Predicate.{
  token_attr_ref, token_operator, token_value, check_value_type, builtin_type, same_type, leaf,
  check_operator, Operator, comparison, prefix, predicate_at, value_of,
}
use arkiv_chain_indexer.Query.Grammar.{HasType, IsDefinedOn, Predicate, compares, starts}
use arkiv_chain_indexer.Query.Parser.{ParserState, parse_predicate, is_not, is_lparen, is_star}

same_type_refl : (a : AttributeTypeTag) → same_type a a ≡ true
unfolding same_type
same_type_refl a = ground arith

check_value_type-HasType :
    (key : AttributeRef) (value : QueryValue) (position : ℕ)
    → HasType key value
    → check_value_type key value position ≡ ok value
unfolding check_value_type
check_value_type-HasType (user name) value position h = refl
check_value_type-HasType (builtin field) value position h =
    rw (h, same_type_refl (builtin_type field), check_value_type) refl

check_operator-IsDefinedOn :
    (op : ComparisonOperator) (value : QueryValue) (position : ℕ)
    → IsDefinedOn op value
    → check_operator op value position ≡ ok tt
unfolding check_operator
check_operator-IsDefinedOn ComparisonOperator.eq value position h = refl
check_operator-IsDefinedOn ComparisonOperator.lt value position h = rw (h, check_operator) refl
check_operator-IsDefinedOn ComparisonOperator.lte value position h = rw (h, check_operator) refl
check_operator-IsDefinedOn ComparisonOperator.gt value position h = rw (h, check_operator) refl
check_operator-IsDefinedOn ComparisonOperator.gte value position h = rw (h, check_operator) refl

value_of-HasType :
    (host : Host) (key : AttributeRef) (v : SpannedToken) (value : QueryValue)
    → token_value host key v ≡ ok value
    → HasType key value
    → value_of host key v ≡ ok value
unfolding value_of
value_of-HasType host key v value read typed =
    rw (read, value_of) (check_value_type-HasType key value v.start typed)

-- The tokens of a predicate are read as its tree.
pub predicate_at-Predicate :
    (host : Host) (end : ℕ) (k o v : SpannedToken) (us : List SpannedToken) (a : QueryAst)
    → Predicate host k o v a
    → predicate_at host end (k ∷ o ∷ v ∷ us) ≡ ok (a, us)
unfolding predicate_at leaf
predicate_at-Predicate host end k o v us _ (compares key op value a b c t u) =
    rw (a, b, value_of-HasType host key v value c t, check_operator-IsDefinedOn op value v.start u)
      refl
predicate_at-Predicate host end k o v us _ (starts key text a b c t) =
    rw (a, b, value_of-HasType host key v (QueryValue.str text) c t) refl

-- The first token of a predicate is no bracket, no NOT and no star.
abbrev pub StartsPredicate : Token → Type 0
StartsPredicate t = (is_not t ≡ false) × (is_lparen t ≡ false) × (is_star t ≡ false)

attr_ref-StartsPredicate :
    (k : SpannedToken) (key : AttributeRef) → token_attr_ref k ≡ ok key → StartsPredicate k.token
unfolding token_attr_ref
attr_ref-StartsPredicate k key h = by_token k.token h
  where
    by_token :
        (t : Token)
        → token_attr_ref (record { token = t; start = k.start }) ≡ ok key
        → StartsPredicate t
    by_token Token.lparen e = cc e
    by_token Token.kw_not e = cc e
    by_token Token.star e = cc e
    by_token _ e = (refl, refl, refl)

pub Predicate-StartsPredicate :
    (host : Host) (k o v : SpannedToken) (a : QueryAst)
    → Predicate host k o v a
    → StartsPredicate k.token
Predicate-StartsPredicate host k o v _ (compares key op value a b c t u) =
    attr_ref-StartsPredicate k key a
Predicate-StartsPredicate host k o v _ (starts key text a b c t) = attr_ref-StartsPredicate k key a
