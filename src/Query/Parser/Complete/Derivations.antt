-- ===== src/Query/Parser/Complete/Derivations.antt =====
-- src/entityQueryLanguage.ts: the parser follows every derivation of the grammar.
use arkiv_chain_indexer.Common.{ℕ, suc, ◌+◌, ◌≡◌, ◌∙◌, refl, ap, false, none, List, ◌∷◌, arith}
use arkiv_chain_indexer.Query.Ends.{IsDone}
use arkiv_chain_indexer.Query.Syntax.{Outcome, ok, ◌>>=◌, Token, SpannedToken, QueryAst}
use arkiv_chain_indexer.Query.Lexer.{Host}
use arkiv_chain_indexer.Query.Grammar.{
  leaves, Expr, And, Unary, Primary, and_only, or_more, unary_only, and_more, negation,
  primary_only, group, predicate,
}
use arkiv_chain_indexer.Query.Parser.{
  descend, close_group, head_is, is_and, is_not, is_lparen, parse_expr, or_loop, parse_and,
  and_loop, parse_unary, parse_primary, negated,
}
use arkiv_chain_indexer.Query.Parser.Stable.{
  or_loop-stable, parse_and-stable, and_loop-stable, parse_unary-stable,
}
use arkiv_chain_indexer.Query.Parser.Complete.{Predicate-StartsPredicate}
use arkiv_chain_indexer.Query.Parser.Complete.Runs.{Gives}
use arkiv_chain_indexer.Query.Parser.Complete.Phrases.{
  at, HasRoom, both, chain, parse_predicate-Predicate, descend-fits, close_group-rparen,
  Primary-first,
}

module _ (host : Host) (end : ℕ) where
  parse_unary-kw_not :
      (f q n : ℕ) (t : SpannedToken) (us : List SpannedToken)
      → t.token ≡ Token.kw_not
      → parse_unary host end (suc f) (at (t ∷ us) q n)
        ≡ (descend t.start us (at (t ∷ us) q n) >>= λ s'. parse_unary host end f s' >>= negated)
  unfolding parse_unary
  parse_unary-kw_not f q n t us is = let is' = ap is_not is in rw (is', parse_unary) refl

  as_primary :
      (f q n : ℕ) (ts : List SpannedToken) (t : SpannedToken) (rest : List SpannedToken)
      → ts ≡ t ∷ rest
      → is_not t.token ≡ false
      → parse_unary host end (suc f) (at ts q n) ≡ parse_primary host end f (at ts q n)
  unfolding parse_unary
  as_primary f q n ts t rest first other =
      rw (first, other, parse_unary) (ap (λ us. parse_primary host end f (at us q n)) first)

  parse_primary-lparen :
      (f q n : ℕ) (t : SpannedToken) (us : List SpannedToken)
      → t.token ≡ Token.lparen
      → parse_primary host end (suc f) (at (t ∷ us) q n) ≡ (
          descend t.start us (at (t ∷ us) q n) >>= λ s'.
          parse_expr host end f s' >>= close_group t.start)
  unfolding parse_primary
  parse_primary-lparen f q n t us is = let is' = ap is_lparen is in rw (is', parse_primary) refl

  mutual
    unfolding parse_expr or_loop parse_and and_loop parse_unary parse_primary

    pub parse_expr-Expr :
        {d : ℕ} {ts us : List SpannedToken} {a : QueryAst} (q n : ℕ)
        → Expr host d ts a us
        → HasRoom d a q n
        → head_is is_and us ≡ none
        → (r : Outcome _) → IsDone r
        → Gives (λ f. or_loop host end f a (at us q (n + leaves a))) r
        → Gives (λ f. parse_expr host end f (at ts q n)) r
    parse_expr-Expr {ts = ts} {us = us} {a = a} q n (and_only x) room stops r done rest =
        let (f, e, e') =
          both (λ f. parse_and host end f (at ts q n))
            (λ f. or_loop host end f a (at us q (n + leaves a)))
            (λ f. parse_and-stable host end f (at ts q n))
            (λ f. or_loop-stable host end f a (at us q (n + leaves a))) tt done
            (parse_and-And q n x room (ok (a, at us q (n + leaves a))) tt (1, rw stops refl))
            rest in
        (suc f, chain (parse_and host end f (at ts q n)) _ e ∙ e')
    parse_expr-Expr {us = vs} q n (or_more {us = us} {t = t} {a = a} {b = b} x is y) room stops r
          done rest =
        let (f, e, e') =
          both (λ f. parse_and host end f (at us q (n + leaves a)))
            (λ f. or_loop host end f (QueryAst.or a b) (at vs q (n + leaves (QueryAst.or a b))))
            (λ f. parse_and-stable host end f (at us q (n + leaves a)))
            (λ f.
              or_loop-stable host end f (QueryAst.or a b) (at vs q (n + leaves (QueryAst.or a b))))
            tt done
            (parse_and-And q (n + leaves a) y (room.0, omega (arith, room.1))
              (ok (b, at vs q (n + leaves a + leaves b))) tt (1, rw stops refl))
            rest in
        parse_expr-Expr q n x (room.0, omega (arith, room.1)) (rw is refl) r done
          (
            suc f,
            rw is (
                chain (parse_and host end f (at us q (n + leaves a))) _ e
                ∙ ap (λ k. or_loop host end f (QueryAst.or a b) (at vs q k)) (omega arith)
                ∙ e'),
          )

    pub parse_and-And :
        {d : ℕ} {ts us : List SpannedToken} {a : QueryAst} (q n : ℕ)
        → And host d ts a us
        → HasRoom d a q n
        → (r : Outcome _) → IsDone r
        → Gives (λ f. and_loop host end f a (at us q (n + leaves a))) r
        → Gives (λ f. parse_and host end f (at ts q n)) r
    parse_and-And {ts = ts} {us = us} {a = a} q n (unary_only x) room r done rest =
        let (f, e, e') =
          both (λ f. parse_unary host end f (at ts q n))
            (λ f. and_loop host end f a (at us q (n + leaves a)))
            (λ f. parse_unary-stable host end f (at ts q n))
            (λ f. and_loop-stable host end f a (at us q (n + leaves a))) tt done
            (parse_unary-Unary q n x room) rest in
        (suc f, chain (parse_unary host end f (at ts q n)) _ e ∙ e')
    parse_and-And {us = vs} q n (and_more {us = us} {t = t} {a = a} {b = b} x is y) room r done
          rest =
        let (f, e, e') =
          both (λ f. parse_unary host end f (at us q (n + leaves a)))
            (λ f. and_loop host end f (QueryAst.and a b) (at vs q (n + leaves (QueryAst.and a b))))
            (λ f. parse_unary-stable host end f (at us q (n + leaves a)))
            (λ f.
              and_loop-stable host end f (QueryAst.and a b)
                (at vs q (n + leaves (QueryAst.and a b))))
            tt done (parse_unary-Unary q (n + leaves a) y (room.0, omega (arith, room.1))) rest in
        parse_and-And q n x (room.0, omega (arith, room.1)) r done
          (
            suc f,
            rw is (
                chain (parse_unary host end f (at us q (n + leaves a))) _ e
                ∙ ap (λ k. and_loop host end f (QueryAst.and a b) (at vs q k)) (omega arith)
                ∙ e'),
          )

    pub parse_unary-Unary :
        {d : ℕ} {ts us : List SpannedToken} {a : QueryAst} (q n : ℕ)
        → Unary host d ts a us
        → HasRoom d a q n
        → Gives (λ f. parse_unary host end f (at ts q n)) (ok (a, at us q (n + leaves a)))
    parse_unary-Unary {us = vs} q n (negation {us = us} {t = t} {a = a} is x) room =
        let (f, e) = parse_unary-Unary (q + 1) n x (omega (arith, room.0), room.1) in
        (
          suc f,
          parse_unary-kw_not f q n t us is
              ∙ chain (descend t.start us (at (t ∷ us) q n)) _
                  (descend-fits t.start q n (t ∷ us) us (omega (arith, room.0)))
              ∙ chain (parse_unary host end f (at us (q + 1) n)) negated e
              ∙ ap (λ i. ok (QueryAst.not a, at vs i (n + leaves a))) (omega arith),
        )
    parse_unary-Unary {d = d} {us = us} {a = a} q n (primary_only {ts = ts} x) room =
        let (f, e) = parse_primary-Primary q n x room in
        let (t, rest, first, other) = Primary-first host d ts us a x in
        (suc f, as_primary f q n ts t rest first other ∙ e)

    pub parse_primary-Primary :
        {d : ℕ} {ts us : List SpannedToken} {a : QueryAst} (q n : ℕ)
        → Primary host d ts a us
        → HasRoom d a q n
        → Gives (λ f. parse_primary host end f (at ts q n)) (ok (a, at us q (n + leaves a)))
    parse_primary-Primary {us = vs} q n (group {us = us} {t = t} {r = r} {a = a} is x close) room =
        let (f, e) =
          parse_expr-Expr (q + 1) n x (omega (arith, room.0), room.1) (rw close refl)
            (ok (a, at (r ∷ vs) (q + 1) (n + leaves a))) tt (1, rw close refl) in
        (
          suc f,
          parse_primary-lparen f q n t us is
              ∙ chain (descend t.start us (at (t ∷ us) q n)) _
                  (descend-fits t.start q n (t ∷ us) us (omega (arith, room.0)))
              ∙ chain (parse_expr host end f (at us (q + 1) n)) (close_group t.start) e
              ∙ close_group-rparen t.start q (n + leaves a) a r vs close,
        )
    parse_primary-Primary {us = us} {a = a} q n (predicate {k = k} {o = o} {v = v} p) room = (
      1,
      rw ((Predicate-StartsPredicate host k o v a p).1, parse_primary)
          (parse_predicate-Predicate host end q n k o v us a p room.1),
    )
