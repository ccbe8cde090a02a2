-- ===== src/Query/Parser/Sound/Derives.antt =====
-- src/entityQueryLanguage.ts: the steps of the parser, each with the phrase of the grammar that it
-- derives.
use arkiv_chain_indexer.Common.{
  List-cases, ℕ, suc, ◌+◌, ◌-◌, ◌≤◌, ◌≡◌, ◌∙◌, sym, ap, refl, inl, inr, Bool, true, some, List, [],
  ◌∷◌, arith, ltb, Bool-cases,
}
use mathlib.Core.Path.{subst}
use arkiv_chain_indexer.Query.Syntax.{
  ok, Token, SpannedToken, QueryAst, max_predicates, max_nesting_depth,
}
use arkiv_chain_indexer.Query.Lexer.{Host}
use arkiv_chain_indexer.Query.Predicate.{predicate_at}
use arkiv_chain_indexer.Query.Grammar.{
  leaves, Predicate, Expr, And, Unary, Primary, or_more, and_more, negation, group, predicate,
}
use arkiv_chain_indexer.Query.Parser.{
  ParserState, parse_predicate, descend, close_group, head_is, is_or, is_and, is_not, is_lparen,
  is_rparen,
}
use arkiv_chain_indexer.Query.Parser.Sound.{bind-ok, predicate_at-ok}

pub ok-injective {ℓ} : {A : Type ℓ} {a b : A} → ok a ≡ ok b → a ≡ b
ok-injective e = cc e

pub head_is-some :
    (p : Token → Bool) (ts : List SpannedToken) (t : SpannedToken) (rest : List SpannedToken)
    → head_is p ts ≡ some (t, rest)
    → (ts ≡ t ∷ rest) × (p t.token ≡ true)
head_is-some p [] t rest h = cc h
head_is-some p (u ∷ us) t rest h = ground arith

is_or-true : (t : Token) → is_or t ≡ true → t ≡ Token.kw_or
is_or-true t h = ground arith

is_and-true : (t : Token) → is_and t ≡ true → t ≡ Token.kw_and
is_and-true t h = ground arith

is_not-true : (t : Token) → is_not t ≡ true → t ≡ Token.kw_not
is_not-true t h = ground arith

is_lparen-true : (t : Token) → is_lparen t ≡ true → t ≡ Token.lparen
is_lparen-true t h = ground arith

is_rparen-true : (t : Token) → is_rparen t ≡ true → t ≡ Token.rparen
is_rparen-true t h = ground arith

pub descend-ok :
    (position : ℕ) (rest : List SpannedToken) (s s' : ParserState)
    → descend position rest s ≡ ok s'
    → (s.depth + 1 ≤ max_nesting_depth) × (s' ≡ record s { tokens = rest; depth = s.depth + 1 })
unfolding descend
descend-ok position rest s s' h = ground arith

pub close_group-ok :
    (position : ℕ) (a : QueryAst) (s : ParserState) (p : QueryAst × ParserState)
    → close_group position (a, s) ≡ ok p
    → (r : SpannedToken) × (vs : List SpannedToken) × (s.tokens ≡ r ∷ vs)
      × (is_rparen r.token ≡ true)
      × ((a, record s { tokens = vs; depth = s.depth - 1 }) ≡ p)
unfolding close_group
close_group-ok position a s p h = elim (List-cases s.tokens) [
  | inl e ↦ cc (rw (e, close_group) at h)
  | inr (r, vs, e) ↦ elim (Bool-cases (is_rparen r.token)) [
    | inl is ↦ (r, vs, e, is, ok-injective (rw (e, close_group, is) at h))
    | inr other ↦ cc (rw (e, close_group, other) at h)
  ]
]

-- What a phrase leaves: its derivation, the depth it began at, its leaves counted, the limit on
-- them kept.
pub record Parsed (Q : ℕ → List SpannedToken → QueryAst → List SpannedToken → Type 0) (d : ℕ)
    (s s' : ParserState) (a : QueryAst) : Type 0 where
  pub derived : Q d s.tokens a s'.tokens
  pub same_depth : s'.depth ≡ s.depth
  pub counted : s'.predicates ≡ s.predicates + leaves a
  pub within : s'.predicates ≤ max_predicates

pub move :
    {Q : ℕ → List SpannedToken → QueryAst → List SpannedToken → Type 0} {d : ℕ} {s : ParserState}
    {p q : QueryAst × ParserState}
    → Parsed Q d s p.1 p.0
    → ok p ≡ ok q
    → Parsed Q d s q.1 q.0
move {Q = Q} {d = d} {s = s} x e = subst (λ r. Parsed Q d s r.1 r.0) (ok-injective e) x

pub Predicate-leaves :
    (host : Host) (k o v : SpannedToken) (a : QueryAst) → Predicate host k o v a → leaves a ≡ 1
Predicate-leaves host k o v _ (Predicate.compares key op value a b c t u) = refl
Predicate-leaves host k o v _ (Predicate.starts key text a b c t) = refl

module _ (host : Host) (end : ℕ) where
  pub parse_predicate-ok :
      (d : ℕ) (s s' : ParserState) (a : QueryAst)
      → parse_predicate host end s ≡ ok (a, s')
      → Parsed (Primary host) d s s' a
  unfolding parse_predicate
  parse_predicate-ok d s s' a h = elim (Bool-cases (ltb max_predicates (s.predicates + 1))) [
    | inl over ↦ cc (rw (over, parse_predicate) at h)
    | inr under ↦
        let ((ast, rest), read, made) =
          bind-ok (predicate_at host end s.tokens) _ (rw (under, parse_predicate) at h) in
        let (k, o, v, tokens, p) = predicate_at-ok host end s.tokens rest ast read in
        move {Q = Primary host}
          (record {
            derived = subst (λ ts. Primary host d ts ast rest) (sym tokens) (predicate p);
            same_depth = refl;
            counted = ap (λ n. s.predicates + n) (sym (Predicate-leaves host k o v ast p));
            within = ground arith;
          })
          made
  ]

  pub or_join :
      {d : ℕ} (s s1 s2 : ParserState) (t : SpannedToken) (rest : List SpannedToken) (l r : QueryAst)
      → Parsed (Expr host) d s s1 l
      → head_is is_or s1.tokens ≡ some (t, rest)
      → Parsed (And host) d (record s1 { tokens = rest }) s2 r
      → Parsed (Expr host) d s s2 (QueryAst.or l r)
  or_join {d = d} s s1 s2 t rest l r x e y =
      let (tokens, is) = head_is-some is_or s1.tokens t rest e in
      record {
        derived =
            or_more (subst (λ ts. Expr host d s.tokens l ts) tokens x.derived)
              (is_or-true t.token is) y.derived;
        same_depth = y.same_depth ∙ x.same_depth;
        counted = omega (arith, x.counted, y.counted);
        within = y.within;
      }

  pub and_join :
      {d : ℕ} (s s1 s2 : ParserState) (t : SpannedToken) (rest : List SpannedToken) (l r : QueryAst)
      → Parsed (And host) d s s1 l
      → head_is is_and s1.tokens ≡ some (t, rest)
      → Parsed (Unary host) d (record s1 { tokens = rest }) s2 r
      → Parsed (And host) d s s2 (QueryAst.and l r)
  and_join {d = d} s s1 s2 t rest l r x e y =
      let (tokens, is) = head_is-some is_and s1.tokens t rest e in
      record {
        derived =
            and_more (subst (λ ts. And host d s.tokens l ts) tokens x.derived)
              (is_and-true t.token is) y.derived;
        same_depth = y.same_depth ∙ x.same_depth;
        counted = omega (arith, x.counted, y.counted);
        within = y.within;
      }

  pub negate :
      {d : ℕ} (s s1 s2 : ParserState) (t : SpannedToken) (rest : List SpannedToken) (a : QueryAst)
      → s.tokens ≡ t ∷ rest
      → is_not t.token ≡ true
      → descend t.start rest s ≡ ok s1
      → Parsed (Unary host) d s1 s2 a
      → Parsed (Unary host) (suc d) s (record s2 { depth = s2.depth - 1 }) (QueryAst.not a)
  negate {d = d} s s1 s2 t rest a tokens is down x =
      let (small, at_s1) = descend-ok t.start rest s s1 down in
      let x' : Parsed (Unary host) d (record s { tokens = rest; depth = s.depth + 1 }) s2 a =
        subst (λ r. Parsed (Unary host) d r s2 a) at_s1 x in
      record {
        derived =
            subst (λ ts. Unary host (suc d) ts (QueryAst.not a) s2.tokens) (sym tokens)
              (negation {t = t} (is_not-true t.token is) x'.derived);
        same_depth = omega (arith, x'.same_depth);
        counted = x'.counted;
        within = x'.within;
      }

  pub closed :
      {d : ℕ} (s s1 s2 s3 : ParserState) (t : SpannedToken) (rest : List SpannedToken)
      (a b : QueryAst)
      → s.tokens ≡ t ∷ rest
      → is_lparen t.token ≡ true
      → descend t.start rest s ≡ ok s1
      → Parsed (Expr host) d s1 s2 a
      → close_group t.start (a, s2) ≡ ok (b, s3)
      → Parsed (Primary host) (suc d) s s3 b
  unfolding close_group
  closed {d = d} s s1 s2 s3 t rest a b tokens is down x h =
      let (small, at_s1) = descend-ok t.start rest s s1 down in
      let x' : Parsed (Expr host) d (record s { tokens = rest; depth = s.depth + 1 }) s2 a =
        subst (λ r. Parsed (Expr host) d r s2 a) at_s1 x in
      let (r, vs, left, ends, same) = close_group-ok t.start a s2 (b, s3) h in
      move {Q = Primary host}
        (record {
          derived =
              subst (λ ts. Primary host (suc d) ts a vs) (sym tokens)
                (group {t = t} (is_lparen-true t.token is)
                  (subst (λ us. Expr host d rest a us) left x'.derived)
                  (is_rparen-true r.token ends));
          same_depth = omega (arith, x'.same_depth);
          counted = x'.counted;
          within = x'.within;
        })
        (ap ok same)
