-- ===== src/Query/Parser/Complete/Runs.antt =====
-- src/entityQueryLanguage.ts: two runs of the parser that end, end alike.
use arkiv_chain_indexer.Common.{ℕ, zero, suc, ◌+◌, ◌≡◌, ◌∙◌, sym, ap, arith}
use arkiv_chain_indexer.Query.Ends.{IsDone}
use arkiv_chain_indexer.Query.Syntax.{Outcome}
use mathlib.Core.Path.{subst}

-- A run by fuel that more fuel does not change once it ends.
abbrev pub IsStable {ℓ} : {A : Type ℓ} → (ℕ → Outcome A) → Type ℓ
IsStable p = (f : ℕ) → IsDone (p f) → p (suc f) ≡ p f

pub stable_plus {ℓ} :
    {A : Type ℓ} (p : ℕ → Outcome A) → IsStable p → (k f : ℕ) → IsDone (p f) → p (k + f) ≡ p f
stable_plus p h zero f done = ap p (omega arith)
stable_plus p h (suc k) f done =
    let more = stable_plus p h k f done in
    ap p (omega arith) ∙ h (k + f) (subst IsDone (sym more) done) ∙ more

pub stable_agree {ℓ} :
    {A : Type ℓ} (p : ℕ → Outcome A)
    → IsStable p
    → (f g : ℕ) → IsDone (p f)
    → IsDone (p g)
    → p f ≡ p g
stable_agree p h f g done done' =
    sym (stable_plus p h g f done) ∙ ap p (omega arith) ∙ stable_plus p h f g done'

-- With some fuel the run gives the outcome.
abbrev pub Gives {ℓ} : {A : Type ℓ} → (ℕ → Outcome A) → Outcome A → Type ℓ
Gives p r = (f : ℕ) × (p f ≡ r)
