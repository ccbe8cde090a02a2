-- ===== src/Query/Parser/Stable.antt =====
-- src/entityQueryLanguage.ts: more fuel changes nothing of a run that ends.
use arkiv_chain_indexer.Common.{
  ℕ, zero, suc, ◌≡◌, ◌∙◌, refl, ap, inl, inr, Bool-cases, List-cases, Option-cases,
}
use arkiv_chain_indexer.Query.Ends.{IsDone}
use arkiv_chain_indexer.Query.Syntax.{Outcome, ok, fail, out_of_fuel, ◌>>=◌, QueryAst}
use arkiv_chain_indexer.Query.Lexer.{Host}
use arkiv_chain_indexer.Query.Parser.{
  ParserState, descend, close_group, head_is, is_or, is_and, is_not, is_lparen, parse_expr, or_loop,
  parse_and, and_loop, parse_unary, parse_primary, negated,
}

-- A chain whose parts are stable where they end.
bind-stable {ℓ κ} :
    {A : Type ℓ} {B : Type κ} (m m' : Outcome A) (f f' : A → Outcome B)
    → (IsDone m → m' ≡ m)
    → ((a : A) → IsDone (f a) → f' a ≡ f a)
    → IsDone (m >>= f)
    → (m' >>= f') ≡ (m >>= f)
bind-stable (ok a) m' f f' h k done = ap (λ x. x >>= f') (h tt) ∙ k a done
bind-stable (fail e) m' f f' h k done = ap (λ x. x >>= f') (h tt)
bind-stable out_of_fuel m' f f' h k done = absurd done

module _ (host : Host) (end : ℕ) where
  mutual
    unfolding parse_expr or_loop parse_and and_loop parse_unary parse_primary

    pub parse_expr-stable :
        (f : ℕ) (s : ParserState)
        → IsDone (parse_expr host end f s)
        → parse_expr host end (suc f) s ≡ parse_expr host end f s
    parse_expr-stable zero s h = absurd h
    parse_expr-stable (suc f) s h =
        bind-stable (parse_and host end f s) (parse_and host end (suc f) s)
          (λ p. or_loop host end f p.0 p.1) (λ p. or_loop host end (suc f) p.0 p.1)
          (parse_and-stable f s) (λ p. or_loop-stable f p.0 p.1) h

    pub or_loop-stable :
        (f : ℕ) (left : QueryAst) (s : ParserState)
        → IsDone (or_loop host end f left s)
        → or_loop host end (suc f) left s ≡ or_loop host end f left s
    or_loop-stable zero left s h = absurd h
    or_loop-stable (suc f) left s h = elim (Option-cases (head_is is_or s.tokens)) [
      | inl e ↦ rw (e, or_loop) refl
      | inr ((t, rest), e) ↦
          rw (e, or_loop)
            (bind-stable (parse_and host end f (record s { tokens = rest }))
              (parse_and host end (suc f) (record s { tokens = rest }))
              (λ p. or_loop host end f (QueryAst.or left p.0) p.1)
              (λ p. or_loop host end (suc f) (QueryAst.or left p.0) p.1)
              (parse_and-stable f (record s { tokens = rest }))
              (λ p. or_loop-stable f (QueryAst.or left p.0) p.1) (rw (e, or_loop) at h))
    ]

    pub parse_and-stable :
        (f : ℕ) (s : ParserState)
        → IsDone (parse_and host end f s)
        → parse_and host end (suc f) s ≡ parse_and host end f s
    parse_and-stable zero s h = absurd h
    parse_and-stable (suc f) s h =
        bind-stable (parse_unary host end f s) (parse_unary host end (suc f) s)
          (λ p. and_loop host end f p.0 p.1) (λ p. and_loop host end (suc f) p.0 p.1)
          (parse_unary-stable f s) (λ p. and_loop-stable f p.0 p.1) h

    pub and_loop-stable :
        (f : ℕ) (left : QueryAst) (s : ParserState)
        → IsDone (and_loop host end f left s)
        → and_loop host end (suc f) left s ≡ and_loop host end f left s
    and_loop-stable zero left s h = absurd h
    and_loop-stable (suc f) left s h = elim (Option-cases (head_is is_and s.tokens)) [
      | inl e ↦ rw (e, and_loop) refl
      | inr ((t, rest), e) ↦
          rw (e, and_loop)
            (bind-stable (parse_unary host end f (record s { tokens = rest }))
              (parse_unary host end (suc f) (record s { tokens = rest }))
              (λ p. and_loop host end f (QueryAst.and left p.0) p.1)
              (λ p. and_loop host end (suc f) (QueryAst.and left p.0) p.1)
              (parse_unary-stable f (record s { tokens = rest }))
              (λ p. and_loop-stable f (QueryAst.and left p.0) p.1) (rw (e, and_loop) at h))
    ]

    pub parse_unary-stable :
        (f : ℕ) (s : ParserState)
        → IsDone (parse_unary host end f s)
        → parse_unary host end (suc f) s ≡ parse_unary host end f s
    parse_unary-stable zero s h = absurd h
    parse_unary-stable (suc f) s h = elim (List-cases s.tokens) [
      | inl e ↦ rw (e, parse_unary) refl
      | inr (t, rest, e) ↦ elim (Bool-cases (is_not t.token)) [
        | inr other ↦
            rw (e, other, parse_unary) (parse_primary-stable f s (rw (e, other, parse_unary) at h))
        | inl is ↦
            rw (e, is, parse_unary)
              (bind-stable (descend t.start rest s) (descend t.start rest s)
                (λ s'. parse_unary host end f s' >>= negated)
                (λ s'. parse_unary host end (suc f) s' >>= negated) (λ _. refl)
                (λ s'.
                  bind-stable (parse_unary host end f s') (parse_unary host end (suc f) s') negated
                    negated (parse_unary-stable f s') (λ _ _. refl))
                (rw (e, is, parse_unary) at h))
      ]
    ]

    pub parse_primary-stable :
        (f : ℕ) (s : ParserState)
        → IsDone (parse_primary host end f s)
        → parse_primary host end (suc f) s ≡ parse_primary host end f s
    parse_primary-stable zero s h = absurd h
    parse_primary-stable (suc f) s h = elim (List-cases s.tokens) [
      | inl e ↦ rw (e, parse_primary) refl
      | inr (t, rest, e) ↦ elim (Bool-cases (is_lparen t.token)) [
        | inr other ↦ rw (e, other, parse_primary) refl
        | inl is ↦
            rw (e, is, parse_primary)
              (bind-stable (descend t.start rest s) (descend t.start rest s)
                (λ s'. parse_expr host end f s' >>= close_group t.start)
                (λ s'. parse_expr host end (suc f) s' >>= close_group t.start) (λ _. refl)
                (λ s'.
                  bind-stable (parse_expr host end f s') (parse_expr host end (suc f) s')
                    (close_group t.start) (close_group t.start) (parse_expr-stable f s')
                    (λ _ _. refl))
                (rw (e, is, parse_primary) at h))
      ]
    ]
