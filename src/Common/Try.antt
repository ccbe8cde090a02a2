-- ===== src/Common/Try.antt =====
-- What a function that may throw returns.
pub data Try {ℓ κ} (E : Type ℓ) (A : Type κ) : Type (ℓ ⊔ κ) where
  thrown : E → Try E A
  returned : A → Try E A

infixl 5 ◌>>=◌
abbrev pub ◌>>=◌ {ℓ κ υ} :
    {E : Type ℓ} {A : Type κ} {B : Type υ} → Try E A → (A → Try E B) → Try E B
thrown error >>= next = thrown error
returned value >>= next = next value
