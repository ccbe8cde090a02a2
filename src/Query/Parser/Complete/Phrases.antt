-- ===== src/Query/Parser/Complete/Phrases.antt =====
-- src/entityQueryLanguage.ts: the parser follows every derivation of the grammar.
use arkiv_chain_indexer.Common.{ℕ, ◌+◌, ◌≤◌, ◌≡◌, ◌∙◌, refl, sym, ap, false, List, ◌∷◌, arith, ltb}
use mathlib.Core.Path.{subst}
use arkiv_chain_indexer.Query.Ends.{IsDone}
use arkiv_chain_indexer.Query.Syntax.{
  Outcome, ok, ◌>>=◌, Token, SpannedToken, QueryAst, max_predicates, max_nesting_depth,
}
use arkiv_chain_indexer.Query.Lexer.{Host}
use arkiv_chain_indexer.Query.Grammar.{leaves, Predicate, Primary, group, predicate}
use arkiv_chain_indexer.Query.Parser.{ParserState, parse_predicate, descend, close_group, is_not}
use arkiv_chain_indexer.Query.Parser.Sound.Derives.{Predicate-leaves}
use arkiv_chain_indexer.Query.Parser.Complete.{predicate_at-Predicate, Predicate-StartsPredicate}
use arkiv_chain_indexer.Query.Parser.Complete.Runs.{IsStable, stable_plus, Gives}

abbrev pub at : List SpannedToken → ℕ → ℕ → ParserState
at ts q n = record { tokens = ts; depth = q; predicates = n }

-- There is room for a phrase that nests `d` deep and has the leaves of `a`.
abbrev pub HasRoom : ℕ → QueryAst → ℕ → ℕ → Type 0
HasRoom d a q n = (q + d ≤ max_nesting_depth) × (n + leaves a ≤ max_predicates)

-- A run, then a run by its result, on the larger of two fuels.
pub both {ℓ κ} :
    {A : Type ℓ} {B : Type κ} (p : ℕ → Outcome A) (q : ℕ → Outcome B)
    → IsStable p
    → IsStable q
    → {r : Outcome A} {r' : Outcome B} → IsDone r
    → IsDone r'
    → Gives p r
    → Gives q r'
    → (f : ℕ) × (p f ≡ r) × (q f ≡ r')
both p q hp hq done done' (f, e) (g, e') = (
  g + f,
  stable_plus p hp g f (subst IsDone (sym e) done) ∙ e,
  ap q (omega arith) ∙ stable_plus q hq f g (subst IsDone (sym e') done') ∙ e',
)

pub chain {ℓ κ} :
    {A : Type ℓ} {B : Type κ} (m : Outcome A) (f : A → Outcome B) {a : A}
    → m ≡ ok a
    → (m >>= f) ≡ f a
chain m f e = ap (λ x. x >>= f) e

pub parse_predicate-Predicate :
    (host : Host) (end q n : ℕ) (k o v : SpannedToken) (us : List SpannedToken) (a : QueryAst)
    → Predicate host k o v a
    → n + leaves a ≤ max_predicates
    → parse_predicate host end (at (k ∷ o ∷ v ∷ us) q n) ≡ ok (a, at us q (n + leaves a))
unfolding parse_predicate
parse_predicate-Predicate host end q n k o v us a p room =
    let one = Predicate-leaves host k o v a p in
    let few : ltb max_predicates (n + 1) ≡ false = ground (arith, one, room) in
    rw (few, predicate_at-Predicate host end k o v us a p, one) refl

pub descend-fits :
    (position q n : ℕ) (ts rest : List SpannedToken)
    → q + 1 ≤ max_nesting_depth
    → descend position rest (at ts q n) ≡ ok (at rest (q + 1) n)
unfolding descend
descend-fits position q n ts rest h = ground arith

pub close_group-rparen :
    (position q n : ℕ) (a : QueryAst) (r : SpannedToken) (vs : List SpannedToken)
    → r.token ≡ Token.rparen
    → close_group position (a, at (r ∷ vs) (q + 1) n) ≡ ok (a, at vs q n)
unfolding close_group
close_group-rparen position q n a r vs h =
    rw (h, close_group) (ap (λ i. ok (a, at vs i n)) (omega arith))

pub Primary-first :
    (host : Host) (d : ℕ) (ts us : List SpannedToken) (a : QueryAst)
    → Primary host d ts a us
    → (t : SpannedToken) × (rest : List SpannedToken) × (ts ≡ t ∷ rest) × (is_not t.token ≡ false)
Primary-first host _ _ us a (group {us = ts} {t = t} is x close) = (t, ts, refl, rw is refl)
Primary-first host d _ us a (predicate {k = k} {o = o} {v = v} p) =
    (k, o ∷ v ∷ us, refl, (Predicate-StartsPredicate host k o v a p).0)
