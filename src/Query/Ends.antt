-- ===== src/Query/Ends.antt =====
-- src/entityQueryLanguage.ts: runs that end, with a bound on what they leave.
use arkiv_chain_indexer.Common.{ℕ, ◌≤◌, arith}
use arkiv_chain_indexer.Query.Syntax.{Outcome, ok, fail, out_of_fuel, ◌>>=◌}

-- The run ends, with an error or with a result of at most `n` by `μ`.
abbrev pub Ends {ℓ} : {A : Type ℓ} → (A → ℕ) → ℕ → Outcome A → Type 0
Ends μ n (ok a) = μ a ≤ n
Ends μ n (fail e) = Unit
Ends μ n out_of_fuel = ⊥

pub Ends-bind {ℓ κ} :
    {A : Type ℓ} {B : Type κ} (μ : A → ℕ) (ν : B → ℕ) (n k : ℕ) (m : Outcome A) (f : A → Outcome B)
    → Ends μ n m
    → ((a : A) → μ a ≤ n → Ends ν k (f a))
    → Ends ν k (m >>= f)
Ends-bind μ ν n k (ok a) f x y = y a x
Ends-bind μ ν n k (fail e) f x y = tt
Ends-bind μ ν n k out_of_fuel f x y = elim x [ ]

pub Ends-weaken {ℓ} :
    {A : Type ℓ} (μ : A → ℕ) (n k : ℕ) (m : Outcome A) → Ends μ n m → n ≤ k → Ends μ k m
Ends-weaken μ n k (ok a) x le = omega (arith, x, le)
Ends-weaken μ n k (fail e) x le = tt
Ends-weaken μ n k out_of_fuel x le = elim x [ ]

-- The run ends, with a value or with an error.
abbrev pub IsDone {ℓ} : {A : Type ℓ} → Outcome A → Type 0
IsDone (ok a) = Unit
IsDone (fail e) = Unit
IsDone out_of_fuel = ⊥

pub bind-IsDone {ℓ κ} :
    {A : Type ℓ} {B : Type κ} (m : Outcome A) (f : A → Outcome B)
    → IsDone m
    → ((a : A) → IsDone (f a))
    → IsDone (m >>= f)
bind-IsDone (ok a) f h k = k a
bind-IsDone (fail e) f h k = tt
bind-IsDone out_of_fuel f h k = h

pub Ends-IsDone {ℓ} : {A : Type ℓ} (μ : A → ℕ) (n : ℕ) (m : Outcome A) → Ends μ n m → IsDone m
Ends-IsDone μ n (ok a) h = tt
Ends-IsDone μ n (fail e) h = tt
Ends-IsDone μ n out_of_fuel h = h
