-- ===== src/Query/Parser/Done.antt =====
-- src/entityQueryLanguage.ts: the parser ends on the fuel that it is given.
use arkiv_chain_indexer.Common.{
  ℕ, zero, suc, ◌+◌, ◌*◌, ◌≤◌, ◌≡◌, ap, inl, inr, Bool, some, List, [], ◌∷◌, arith, ltb, Bool-cases,
  List-cases, Option-cases, length,
}
use arkiv_chain_indexer.Query.Ends.{Ends, Ends-bind, Ends-weaken, IsDone, bind-IsDone, Ends-IsDone}
use arkiv_chain_indexer.Query.Syntax.{
  Text, Outcome, ok, fail, out_of_fuel, Token, SpannedToken, QueryAst, max_predicates,
  max_query_bytes,
}
use arkiv_chain_indexer.Query.Lexer.{Host, tokenize}
use arkiv_chain_indexer.Query.Lexer.Ends.Tokens.{token_count, tokenize-Ends}
use arkiv_chain_indexer.Query.Predicate.{predicate_at}
use arkiv_chain_indexer.Query.Predicate.Done.{rest_after, predicate_at-Ends}
use arkiv_chain_indexer.Query.Parser.{
  ParserState, parse_predicate, descend, close_group, head_is, is_or, is_and, is_not, is_lparen,
  parse_expr, or_loop, parse_and, and_loop, parse_unary, parse_primary, negated, check_end,
  star_only, is_star, fuel_for, initial, parse_top_level, parse_entity_query,
}
use arkiv_chain_indexer.Query.Parser.Sound.Derives.{head_is-some}

-- The tokens that are left, and one more: a phrase takes a token at least.
abbrev pub taken : QueryAst × ParserState → ℕ
taken p = suc (length p.1.tokens)

abbrev remaining : QueryAst × ParserState → ℕ
remaining p = length p.1.tokens

parse_predicate-Ends :
    (host : Host) (end : ℕ) (s : ParserState)
    → Ends taken (length s.tokens) (parse_predicate host end s)
unfolding parse_predicate
parse_predicate-Ends host end s = elim (Bool-cases (ltb max_predicates (s.predicates + 1))) [
  | inl over ↦ rw (over, parse_predicate) tt
  | inr under ↦
      rw (under, parse_predicate)
        (Ends-bind rest_after taken (length s.tokens) (length s.tokens)
          (predicate_at host end s.tokens) _ (predicate_at-Ends host end s.tokens) (λ p h. h))
]

abbrev depth_left : ParserState → ℕ
depth_left s = length s.tokens

-- What a loop leaves of the `k` tokens behind a phrase.
Ends-weaken-suc :
    (k n : ℕ) (m : Outcome (QueryAst × ParserState))
    → Ends remaining k m
    → suc k ≤ n
    → Ends taken n m
Ends-weaken-suc k n (ok p) h le = omega (arith, h, le)
Ends-weaken-suc k n (fail e) h le = tt
Ends-weaken-suc k n out_of_fuel h le = h

descend-Ends :
    (position : ℕ) (rest : List SpannedToken) (s : ParserState)
    → Ends depth_left (length rest) (descend position rest s)
unfolding descend
descend-Ends position rest s = ground arith

close_group-Ends :
    (position n : ℕ) (p : QueryAst × ParserState)
    → taken p ≤ n
    → Ends taken (suc n) (close_group position p)
unfolding close_group
close_group-Ends position n (a, s) h = elim (List-cases s.tokens) [
  | inl e ↦ rw (e, close_group) tt
  | inr (t, rest, e) ↦ rw (e, close_group) (ground (arith, rw e at h))
]

head_is-length :
    (p : Token → Bool) (ts : List SpannedToken) (t : SpannedToken) (rest : List SpannedToken)
    → head_is p ts ≡ some (t, rest)
    → length ts ≡ suc (length rest)
head_is-length p ts t rest e = ap length (head_is-some p ts t rest e).0

negated-Ends : (n : ℕ) (p : QueryAst × ParserState) → taken p ≤ n → Ends taken (suc n) (negated p)
negated-Ends n (a, s) h = omega (arith, h)

module _ (host : Host) (end : ℕ) where
  mutual
    unfolding parse_expr or_loop parse_and and_loop parse_unary parse_primary

    pub parse_expr-Ends :
        (f : ℕ) (s : ParserState)
        → 4 * length s.tokens + 4 ≤ f
        → Ends taken (length s.tokens) (parse_expr host end f s)
    parse_expr-Ends zero s h = absurd (omega (arith, h))
    parse_expr-Ends (suc f) s h =
        Ends-bind taken taken (length s.tokens) (length s.tokens) (parse_and host end f s) _
          (parse_and-Ends f s (omega (arith, h)))
          (λ p short.
            Ends-weaken-suc (length p.1.tokens) (length s.tokens) (or_loop host end f p.0 p.1)
              (or_loop-Ends f p.0 p.1 (omega (arith, h, short))) short)

    or_loop-Ends :
        (f : ℕ) (left : QueryAst) (s : ParserState)
        → 4 * length s.tokens + 1 ≤ f
        → Ends remaining (length s.tokens) (or_loop host end f left s)
    or_loop-Ends zero left s h = absurd (omega (arith, h))
    or_loop-Ends (suc f) left s h = elim (Option-cases (head_is is_or s.tokens)) [
      | inl e ↦ rw (e, or_loop) (omega arith)
      | inr ((t, rest), e) ↦
          let shorter = head_is-length is_or s.tokens t rest e in
          rw (e, or_loop)
            (Ends-bind taken remaining (length rest) (length s.tokens)
              (parse_and host end f (record s { tokens = rest })) _
              (parse_and-Ends f (record s { tokens = rest }) (omega (arith, h, shorter)))
              (λ p short.
                Ends-weaken remaining (length p.1.tokens) (length s.tokens) _
                  (or_loop-Ends f (QueryAst.or left p.0) p.1 (omega (arith, h, shorter, short)))
                  (omega (arith, shorter, short))))
    ]

    parse_and-Ends :
        (f : ℕ) (s : ParserState)
        → 4 * length s.tokens + 3 ≤ f
        → Ends taken (length s.tokens) (parse_and host end f s)
    parse_and-Ends zero s h = absurd (omega (arith, h))
    parse_and-Ends (suc f) s h =
        Ends-bind taken taken (length s.tokens) (length s.tokens) (parse_unary host end f s) _
          (parse_unary-Ends f s (omega (arith, h)))
          (λ p short.
            Ends-weaken-suc (length p.1.tokens) (length s.tokens) (and_loop host end f p.0 p.1)
              (and_loop-Ends f p.0 p.1 (omega (arith, h, short))) short)

    and_loop-Ends :
        (f : ℕ) (left : QueryAst) (s : ParserState)
        → 4 * length s.tokens + 1 ≤ f
        → Ends remaining (length s.tokens) (and_loop host end f left s)
    and_loop-Ends zero left s h = absurd (omega (arith, h))
    and_loop-Ends (suc f) left s h = elim (Option-cases (head_is is_and s.tokens)) [
      | inl e ↦ rw (e, and_loop) (omega arith)
      | inr ((t, rest), e) ↦
          let shorter = head_is-length is_and s.tokens t rest e in
          rw (e, and_loop)
            (Ends-bind taken remaining (length rest) (length s.tokens)
              (parse_unary host end f (record s { tokens = rest })) _
              (parse_unary-Ends f (record s { tokens = rest }) (omega (arith, h, shorter)))
              (λ p short.
                Ends-weaken remaining (length p.1.tokens) (length s.tokens) _
                  (and_loop-Ends f (QueryAst.and left p.0) p.1 (omega (arith, h, shorter, short)))
                  (omega (arith, shorter, short))))
    ]

    parse_unary-Ends :
        (f : ℕ) (s : ParserState)
        → 4 * length s.tokens + 2 ≤ f
        → Ends taken (length s.tokens) (parse_unary host end f s)
    parse_unary-Ends zero s h = absurd (omega (arith, h))
    parse_unary-Ends (suc f) s h = elim (List-cases s.tokens) [
      | inl e ↦ rw (e, parse_unary) tt
      | inr (t, rest, e) ↦ elim (Bool-cases (is_not t.token)) [
        | inr other ↦
            rw (e, other, parse_unary)
              (Ends-weaken taken (length s.tokens) (suc (length rest)) _
                (parse_primary-Ends f s (omega (arith, h))) (omega (arith, ap length e)))
        | inl is ↦
            rw (e, is, parse_unary)
              (Ends-bind depth_left taken (length rest) (suc (length rest)) (descend t.start rest s)
                _ (descend-Ends t.start rest s)
                (λ s' short.
                  Ends-bind taken taken (length rest) (suc (length rest))
                    (parse_unary host end f s') _
                    (Ends-weaken taken (length s'.tokens) (length rest) _
                      (parse_unary-Ends f s' (omega (arith, h, ap length e, short))) short)
                    (λ p shorter. negated-Ends (length rest) p shorter)))
      ]
    ]

    parse_primary-Ends :
        (f : ℕ) (s : ParserState)
        → 4 * length s.tokens + 1 ≤ f
        → Ends taken (length s.tokens) (parse_primary host end f s)
    parse_primary-Ends zero s h = absurd (omega (arith, h))
    parse_primary-Ends (suc f) s h = elim (List-cases s.tokens) [
      | inl e ↦ rw (e, parse_primary) tt
      | inr (t, rest, e) ↦ elim (Bool-cases (is_lparen t.token)) [
        | inr other ↦
            rw (e, other, parse_primary)
              (Ends-weaken taken (length s.tokens) (suc (length rest)) _
                (parse_predicate-Ends host end s) (omega (arith, ap length e)))
        | inl is ↦
            rw (e, is, parse_primary)
              (Ends-bind depth_left taken (length rest) (suc (length rest)) (descend t.start rest s)
                _ (descend-Ends t.start rest s)
                (λ s' short.
                  Ends-bind taken taken (length rest) (suc (length rest)) (parse_expr host end f s')
                    _
                    (Ends-weaken taken (length s'.tokens) (length rest) _
                      (parse_expr-Ends f s' (omega (arith, h, ap length e, short))) short)
                    (λ p shorter. close_group-Ends t.start (length rest) p shorter)))
      ]
    ]

  pub check_end-IsDone : (p : QueryAst × ParserState) → IsDone (check_end p)
  unfolding check_end
  check_end-IsDone (a, s) = elim (List-cases s.tokens) [
    | inl e ↦ rw (e, check_end) tt
    | inr (t, rest, e) ↦ rw (e, check_end) tt
  ]

  star_only-IsDone : (rest : List SpannedToken) → IsDone (star_only rest)
  unfolding star_only
  star_only-IsDone [] = tt
  star_only-IsDone (t ∷ rest) = tt

  parse_top_level-IsDone : (ts : List SpannedToken) → IsDone (parse_top_level host end ts)
  unfolding parse_top_level
  parse_top_level-IsDone [] = tt
  parse_top_level-IsDone (t ∷ rest) = elim (Bool-cases (is_star t.token)) [
    | inl is ↦ rw (is, parse_top_level) (star_only-IsDone rest)
    | inr other ↦
        let all = t ∷ rest in
        rw (other, parse_top_level)
          (bind-IsDone (parse_expr host end (fuel_for all) (initial all)) _
            (Ends-IsDone taken (length all) _
              (parse_expr-Ends (fuel_for all) (initial all) (omega arith)))
            (λ p. check_end-IsDone p))
  ]

-- `parseEntityQuery` ends on every text, with an AST or with an error.
pub parse_entity_query-IsDone : (host : Host) (src : Text) → IsDone (parse_entity_query host src)
unfolding parse_entity_query
parse_entity_query-IsDone host src = elim (Bool-cases (ltb max_query_bytes (length src))) [
  | inl over ↦ rw (over, parse_entity_query) tt
  | inr fits ↦
      rw (fits, parse_entity_query)
        (bind-IsDone (tokenize host src) _
          (Ends-IsDone token_count (length src) _ (tokenize-Ends host src))
          (λ ts. parse_top_level-IsDone host (length src) ts))
]
