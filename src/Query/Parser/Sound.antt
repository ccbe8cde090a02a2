-- ===== src/Query/Parser/Sound.antt =====
-- src/entityQueryLanguage.ts: what the parser takes for a predicate is one of the grammar.
pub mod Derives
pub mod Phrases
use arkiv_chain_indexer.Common.{
  ℕ, zero, suc, ◌+◌, ◌-◌, ◌≤◌, ◌≡◌, ◌∙◌, sym, ap, refl, ◌⊎◌, inl, inr, Bool, true, false, not, ◌&&◌,
  Option, none, some, List, [], ◌∷◌, arith, ltb, Bool-cases, Option-cases,
}
use mathlib.Core.Path.{subst}
use arkiv_chain_indexer.EntityValues.{AttributeTypeTag, is_ordered_type}
use arkiv_chain_indexer.Query.Syntax.{
  Outcome, ok, fail, out_of_fuel, ◌>>=◌, Token, SpannedToken, QueryValue, value_type, AttributeRef,
  user, builtin, ComparisonOperator, QueryAst,
}
use arkiv_chain_indexer.Query.Lexer.{Host}
use arkiv_chain_indexer.Query.Predicate.{
  token_attr_ref, token_operator, token_value, check_value_type, builtin_type, same_type, leaf,
  check_operator, Operator, comparison, prefix, predicate_at, value_of,
}
use arkiv_chain_indexer.Query.Grammar.{
  HasType, IsDefinedOn, leaves, Predicate, compares, starts, Expr, And, Unary, Primary, and_only,
  or_more, unary_only, and_more, negation, primary_only, group, predicate,
}
use arkiv_chain_indexer.Query.Parser.{
  ParserState, parse_predicate, descend, close_group, head_is, is_or, is_and, is_not, is_lparen,
  is_rparen, parse_expr, or_loop, parse_and, and_loop, parse_unary, parse_primary, negated,
}

pub bind-ok {ℓ κ} :
    {A : Type ℓ} {B : Type κ} (m : Outcome A) (f : A → Outcome B) {b : B}
    → (m >>= f) ≡ ok b
    → (a : A) × (m ≡ ok a) × (f a ≡ ok b)
bind-ok (ok a) f h = (a, refl, h)
bind-ok (fail e) f h = cc
bind-ok out_of_fuel f h = cc

same_type→eq : (a b : AttributeTypeTag) → same_type a b ≡ true → a ≡ b
unfolding same_type
same_type→eq a b h = ground arith

check_value_type-ok :
    (key : AttributeRef) (value value' : QueryValue) (position : ℕ)
    → check_value_type key value position ≡ ok value'
    → (value ≡ value') × HasType key value
unfolding check_value_type
check_value_type-ok (user name) value value' position h = (cc, tt)
check_value_type-ok (builtin field) value value' position h =
    elim (Bool-cases (same_type (value_type value) (builtin_type field))) [
      | inl same ↦ (cc (rw (same, check_value_type) at h), same_type→eq _ _ same)
      | inr other ↦ cc (rw (other, check_value_type) at h)
    ]

check_operator-ok :
    (op : ComparisonOperator) (value : QueryValue) (position : ℕ) (u : Unit {0})
    → check_operator op value position ≡ ok u
    → IsDefinedOn op value
unfolding check_operator
check_operator-ok ComparisonOperator.eq value position u h = tt
check_operator-ok ComparisonOperator.lt value position u h = ground arith
check_operator-ok _ value position u h = ground arith

module _ (host : Host) where
  leaf-ok :
      (k o v : SpannedToken) (key : AttributeRef) (op : Operator) (value : QueryValue)
      (ast : QueryAst)
      → token_attr_ref k ≡ ok key
      → token_operator o ≡ ok op
      → token_value host key v ≡ ok value
      → HasType key value
      → leaf key op value v.start ≡ ok ast
      → Predicate host k o v ast
  unfolding leaf
  leaf-ok k o v key (comparison op) value ast a b c t h =
      let (u, checked, made) = bind-ok (check_operator op value v.start) _ h in
      let same : QueryAst.compare op key value ≡ ast = cc made in
      subst (Predicate host k o v) same
        (compares key op value a b c t (check_operator-ok op value v.start u checked))
  leaf-ok k o v key prefix (QueryValue.str text) ast a b c t h =
      let same : QueryAst.starts_with key text ≡ ast = cc h in
      subst (Predicate host k o v) same (starts key text a b c t)
  leaf-ok k o v key prefix _ ast a b c t h = cc h

  value_of-ok :
      (key : AttributeRef) (v : SpannedToken) (value : QueryValue)
      → value_of host key v ≡ ok value
      → (token_value host key v ≡ ok value) × HasType key value
  unfolding value_of
  value_of-ok key v value h =
      let (raw, read, checked) = bind-ok (token_value host key v) _ h in
      let (same, typed) = check_value_type-ok key raw value v.start checked in
      (read ∙ ap ok same, subst (HasType key) same typed)

  pub predicate_at-ok :
      (end : ℕ) (ts rest : List SpannedToken) (ast : QueryAst)
      → predicate_at host end ts ≡ ok (ast, rest)
      → (k o v : SpannedToken) × (ts ≡ k ∷ o ∷ v ∷ rest) × Predicate host k o v ast
  unfolding predicate_at
  predicate_at-ok end [] rest ast h = cc h
  predicate_at-ok end (k ∷ []) rest ast h =
      let (key, a, h1) = bind-ok (token_attr_ref k) _ h in cc h1
  predicate_at-ok end (k ∷ o ∷ []) rest ast h =
      let (key, a, h1) = bind-ok (token_attr_ref k) _ h in
      let (op, b, h2) = bind-ok (token_operator o) _ h1 in cc h2
  predicate_at-ok end (k ∷ o ∷ v ∷ us) rest ast h =
      let (key, a, h1) = bind-ok (token_attr_ref k) _ h in
      let (op, b, h2) = bind-ok (token_operator o) _ h1 in
      let (value, c, h3) = bind-ok (value_of host key v) _ h2 in
      let (made, d, h4) = bind-ok (leaf key op value v.start) _ h3 in
      let (read, typed) = value_of-ok key v value c in
      let same : made ≡ ast = cc h4 in
      let left : us ≡ rest = cc h4 in
      (
        k,
        o,
        v,
        ap (λ r. k ∷ o ∷ v ∷ r) left,
        leaf-ok k o v key op value ast a b read typed (d ∙ ap ok same),
      )
