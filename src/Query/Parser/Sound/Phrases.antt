-- ===== src/Query/Parser/Sound/Phrases.antt =====
-- src/entityQueryLanguage.ts: what the parser accepts is derived by the grammar, within the
-- limits on nesting and on predicates.
use arkiv_chain_indexer.Common.{
  List-cases, ℕ, zero, suc, ◌+◌, ◌≡◌, ap, inl, inr, true, List, ◌∷◌, arith, Bool-cases,
  Option-cases,
}
use arkiv_chain_indexer.Query.Syntax.{ok, ◌>>=◌, SpannedToken, QueryAst, max_nesting_depth}
use arkiv_chain_indexer.Query.Lexer.{Host}
use arkiv_chain_indexer.Query.Grammar.{
  Expr, And, Unary, Primary, and_only, unary_only, primary_only,
}
use arkiv_chain_indexer.Query.Parser.{
  ParserState, descend, close_group, head_is, is_or, is_and, is_not, is_lparen, parse_expr, or_loop,
  parse_and, and_loop, parse_unary, parse_primary, negated,
}
use arkiv_chain_indexer.Query.Parser.Sound.{bind-ok}
use arkiv_chain_indexer.Query.Parser.Sound.Derives.{
  Parsed, move, descend-ok, parse_predicate-ok, or_join, and_join, negate, closed,
}

module _ (host : Host) (end : ℕ) where
  as-And :
      {d : ℕ} (s s' : ParserState) (a : QueryAst)
      → Parsed (Unary host) d s s' a
      → Parsed (And host) d s s' a
  as-And s s' a x = record {
    derived = unary_only x.derived;
    same_depth = x.same_depth;
    counted = x.counted;
    within = x.within;
  }

  as-Expr :
      {d : ℕ} (s s' : ParserState) (a : QueryAst)
      → Parsed (And host) d s s' a
      → Parsed (Expr host) d s s' a
  as-Expr s s' a x = record {
    derived = and_only x.derived;
    same_depth = x.same_depth;
    counted = x.counted;
    within = x.within;
  }

  as-Unary :
      {d : ℕ} (s s' : ParserState) (a : QueryAst)
      → Parsed (Primary host) d s s' a
      → Parsed (Unary host) d s s' a
  as-Unary s s' a x = record {
    derived = primary_only x.derived;
    same_depth = x.same_depth;
    counted = x.counted;
    within = x.within;
  }

  not-ok :
      (f : ℕ)
      → ((d : ℕ) (s s' : ParserState) (a : QueryAst)
          → s.depth + d ≡ max_nesting_depth
          → parse_unary host end f s ≡ ok (a, s')
          → Parsed (Unary host) d s s' a)
      → (d : ℕ) (s s' : ParserState) (a : QueryAst) → s.depth + d ≡ max_nesting_depth
      → (t : SpannedToken) (rest : List SpannedToken) → s.tokens ≡ t ∷ rest
      → is_not t.token ≡ true
      → (descend t.start rest s >>= λ s1. parse_unary host end f s1 >>= negated) ≡ ok (a, s')
      → Parsed (Unary host) d s s' a
  not-ok f rec zero s s' a b t rest e is h =
      let (s1, down, h1) = bind-ok (descend t.start rest s) _ h in
      grind (arith, (descend-ok t.start rest s s1 down).0, b)
  not-ok f rec (suc d) s s' a b t rest e is h =
      let (s1, down, h1) = bind-ok (descend t.start rest s) _ h in
      let ((i, s2), e1, h2) = bind-ok (parse_unary host end f s1) _ h1 in
      let bound : s1.depth + d ≡ max_nesting_depth =
        omega (arith, ap ParserState.depth (descend-ok t.start rest s s1 down).1, b) in
      move {Q = Unary host} (negate host end s s1 s2 t rest i e is down (rec d s1 s2 i bound e1)) h2

  group-ok :
      (f : ℕ)
      → ((d : ℕ) (s s' : ParserState) (a : QueryAst)
          → s.depth + d ≡ max_nesting_depth
          → parse_expr host end f s ≡ ok (a, s')
          → Parsed (Expr host) d s s' a)
      → (d : ℕ) (s s' : ParserState) (a : QueryAst) → s.depth + d ≡ max_nesting_depth
      → (t : SpannedToken) (rest : List SpannedToken) → s.tokens ≡ t ∷ rest
      → is_lparen t.token ≡ true
      → (descend t.start rest s >>= λ s1. parse_expr host end f s1 >>= close_group t.start)
        ≡ ok (a, s')
      → Parsed (Primary host) d s s' a
  group-ok f rec zero s s' a b t rest e is h =
      let (s1, down, h1) = bind-ok (descend t.start rest s) _ h in
      grind (arith, (descend-ok t.start rest s s1 down).0, b)
  group-ok f rec (suc d) s s' a b t rest e is h =
      let (s1, down, h1) = bind-ok (descend t.start rest s) _ h in
      let ((i, s2), e1, h2) = bind-ok (parse_expr host end f s1) _ h1 in
      let bound : s1.depth + d ≡ max_nesting_depth =
        omega (arith, ap ParserState.depth (descend-ok t.start rest s s1 down).1, b) in
      closed host end s s1 s2 s' t rest i a e is down (rec d s1 s2 i bound e1) h2

  mutual
    unfolding parse_expr or_loop parse_and and_loop parse_unary parse_primary

    pub parse_expr-ok :
        (f d : ℕ) (s s' : ParserState) (a : QueryAst)
        → s.depth + d ≡ max_nesting_depth
        → parse_expr host end f s ≡ ok (a, s')
        → Parsed (Expr host) d s s' a
    parse_expr-ok zero d s s' a b h = cc h
    parse_expr-ok (suc f) d s s' a b h =
        let ((l, s1), e, h1) = bind-ok (parse_and host end f s) _ h in
        or_loop-ok f d s s1 s' l a b (as-Expr s s1 l (parse_and-ok f d s s1 l b e)) h1

    or_loop-ok :
        (f d : ℕ) (s s1 s' : ParserState) (l a : QueryAst)
        → s.depth + d ≡ max_nesting_depth
        → Parsed (Expr host) d s s1 l
        → or_loop host end f l s1 ≡ ok (a, s')
        → Parsed (Expr host) d s s' a
    or_loop-ok zero d s s1 s' l a b x h = cc h
    or_loop-ok (suc f) d s s1 s' l a b x h = elim (Option-cases (head_is is_or s1.tokens)) [
      | inl e ↦ move {Q = Expr host} x (rw (e, or_loop) at h)
      | inr ((t, rest), e) ↦
          let ((r, s2), e1, h1) =
            bind-ok (parse_and host end f (record s1 { tokens = rest })) _ (rw (e, or_loop) at h) in
          let y =
            parse_and-ok f d (record s1 { tokens = rest }) s2 r (omega (arith, x.same_depth, b))
              e1 in
          or_loop-ok f d s s2 s' (QueryAst.or l r) a b (or_join host end s s1 s2 t rest l r x e y)
            h1
    ]

    parse_and-ok :
        (f d : ℕ) (s s' : ParserState) (a : QueryAst)
        → s.depth + d ≡ max_nesting_depth
        → parse_and host end f s ≡ ok (a, s')
        → Parsed (And host) d s s' a
    parse_and-ok zero d s s' a b h = cc h
    parse_and-ok (suc f) d s s' a b h =
        let ((l, s1), e, h1) = bind-ok (parse_unary host end f s) _ h in
        and_loop-ok f d s s1 s' l a b (as-And s s1 l (parse_unary-ok f d s s1 l b e)) h1

    and_loop-ok :
        (f d : ℕ) (s s1 s' : ParserState) (l a : QueryAst)
        → s.depth + d ≡ max_nesting_depth
        → Parsed (And host) d s s1 l
        → and_loop host end f l s1 ≡ ok (a, s')
        → Parsed (And host) d s s' a
    and_loop-ok zero d s s1 s' l a b x h = cc h
    and_loop-ok (suc f) d s s1 s' l a b x h = elim (Option-cases (head_is is_and s1.tokens)) [
      | inl e ↦ move {Q = And host} x (rw (e, and_loop) at h)
      | inr ((t, rest), e) ↦
          let ((r, s2), e1, h1) =
            bind-ok (parse_unary host end f (record s1 { tokens = rest })) _
              (rw (e, and_loop) at h) in
          let y =
            parse_unary-ok f d (record s1 { tokens = rest }) s2 r (omega (arith, x.same_depth, b))
              e1 in
          and_loop-ok f d s s2 s' (QueryAst.and l r) a b
            (and_join host end s s1 s2 t rest l r x e y) h1
    ]

    parse_unary-ok :
        (f d : ℕ) (s s' : ParserState) (a : QueryAst)
        → s.depth + d ≡ max_nesting_depth
        → parse_unary host end f s ≡ ok (a, s')
        → Parsed (Unary host) d s s' a
    parse_unary-ok zero d s s' a b h = cc h
    parse_unary-ok (suc f) d s s' a b h = elim (List-cases s.tokens) [
      | inl e ↦ cc (rw (e, parse_unary) at h)
      | inr (t, rest, e) ↦ elim (Bool-cases (is_not t.token)) [
        | inl is ↦ not-ok f (parse_unary-ok f) d s s' a b t rest e is (rw (e, parse_unary, is) at h)
        | inr other ↦
            as-Unary s s' a (parse_primary-ok f d s s' a b (rw (e, parse_unary, other) at h))
      ]
    ]

    parse_primary-ok :
        (f d : ℕ) (s s' : ParserState) (a : QueryAst)
        → s.depth + d ≡ max_nesting_depth
        → parse_primary host end f s ≡ ok (a, s')
        → Parsed (Primary host) d s s' a
    parse_primary-ok zero d s s' a b h = cc h
    parse_primary-ok (suc f) d s s' a b h = elim (List-cases s.tokens) [
      | inl e ↦ cc (rw (e, parse_primary) at h)
      | inr (t, rest, e) ↦ elim (Bool-cases (is_lparen t.token)) [
        | inl is ↦
            group-ok f (parse_expr-ok f) d s s' a b t rest e is (rw (e, parse_primary, is) at h)
        | inr other ↦ parse_predicate-ok host end d s s' a (rw (e, parse_primary, other) at h)
      ]
    ]
