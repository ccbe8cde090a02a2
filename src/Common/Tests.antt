-- ===== src/Common/Tests.antt =====
-- Boolean tests, the conditional, and equality as an interface.
use Prim.Native.Nat.{ℕ, ◌≤◌, ◌<◌, compare, Ordering}
use Prim.Native.String.{String}
use mathlib.Core.Path.{◌≡◌, refl}
use mathlib.Core.Logic.{◌↔◌, ◌⊎◌, inl, inr}
use mathlib.Core.Bool.{Bool, true, false}
use mathlib.Core.Option.{Option, none, some}
use mathlib.Core.List.{List, [], ◌∷◌}
use native.Mathlib.Omega.{arith}
use text.Mathlib.Text.{◌==◌ as str_beq}
use text.Mathlib.TextEquality.{eq_iff}

abbrev pub ltb : ℕ → ℕ → Bool
ltb a b = elim (compare a b) [ Ordering.lt ↦ true | _ ↦ false ]

abbrev pub leb : ℕ → ℕ → Bool
leb a b = elim (compare a b) [ Ordering.gt ↦ false | _ ↦ true ]

abbrev pub eqb : ℕ → ℕ → Bool
eqb a b = elim (compare a b) [ Ordering.eq ↦ true | _ ↦ false ]

infix 1 if◌then◌else◌
abbrev pub if◌then◌else◌ {ℓ} : {A : Type ℓ} → Bool → A → A → A
if true then x else y = x
if false then x else y = y

pub ltb→lt : (a b : ℕ) → ltb a b ≡ true → a < b
ltb→lt a b h = ground arith

pub leb→le : (a b : ℕ) → leb a b ≡ true → a ≤ b
leb→le a b h = ground arith

pub lt→ltb : (a b : ℕ) → a < b → ltb a b ≡ true
lt→ltb a b h = ground arith

pub le→leb : (a b : ℕ) → a ≤ b → leb a b ≡ true
le→leb a b h = ground arith

pub ltb-false→le : (a b : ℕ) → ltb a b ≡ false → b ≤ a
ltb-false→le a b h = ground arith

pub leb-false→lt : (a b : ℕ) → leb a b ≡ false → b < a
leb-false→lt a b h = ground arith

pub eqb_iff : (a b : ℕ) → (eqb a b ≡ true) ↔ (a ≡ b)
eqb_iff a b = ground arith

-- For a split on a computed value that keeps the equation.
pub Bool-cases : (b : Bool) → (b ≡ true) ⊎ (b ≡ false)
Bool-cases true = inl refl
Bool-cases false = inr refl

pub Option-cases {ℓ} : {A : Type ℓ} (o : Option A) → (o ≡ none) ⊎ ((a : A) × (o ≡ some a))
Option-cases none = inl refl
Option-cases (some a) = inr (a, refl)

-- The keys of a `Map` have a test, `===`, that tells whether two of them are the same.
infix 50 ◌==◌
pub record Key {κ} (K : Type κ) : Type κ where
  pub same_key : (i j : K) → Bool
  pub is_identity : (i j : K) → (same_key i j ≡ true) ↔ (i ≡ j)

abbrev pub ◌==◌ {κ} : {K : Type κ} ⦃keys : Key K⦄ → (i j : K) → Bool
◌==◌ ⦃keys⦄ i j = keys.same_key i j

instance abbrev pub string_eq : Key String
string_eq = record { is_identity = eq_iff; same_key = str_beq }

abbrev pub same_list : List ℕ → List ℕ → Bool
same_list [] [] = true
same_list (a ∷ as') (b ∷ bs) = let rest = same_list as' bs in if eqb a b then rest else false
same_list _ _ = false

pub same_list_iff : (as' bs : List ℕ) → (same_list as' bs ≡ true) ↔ (as' ≡ bs)
same_list_iff [] [] = ground arith
same_list_iff [] (b ∷ bs) = ground arith
same_list_iff (a ∷ as') [] = ground arith
same_list_iff (a ∷ as') (b ∷ bs) = ground (arith, same_list_iff as' bs, eqb_iff a b)

instance abbrev pub list_eq : Key (List ℕ)
list_eq = record { is_identity = same_list_iff; same_key = same_list }
