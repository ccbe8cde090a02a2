-- ===== src/Common/JsMap.antt =====
-- A JavaScript `Map`: the entries in insertion order. `set` on a key that is there keeps its
-- place, and `delete` on a key that is not there changes nothing.
pub mod Laws
use Prim.Native.Nat.{ℕ}
use mathlib.Core.Bool.{Bool, true, false}
use mathlib.Core.Option.{Option, none, some}
use mathlib.Core.List.{List, [], ◌∷◌, map}
use arkiv_chain_indexer.Common.Tests.{Key, ◌==◌, if◌then◌else◌}
use arkiv_chain_indexer.Common.Lists.{length}

abbrev pub JsMap {ℓ κ} : Type ℓ → Type κ → Type (ℓ ⊔ κ)
JsMap K V = List (K × V)

module _ {ℓ κ} {K : Type ℓ} {V : Type κ} ⦃e : Key K⦄ where
  unfoldable pub get : K → JsMap K V → Option V
  get k [] = none
  get k ((j, v) ∷ m) = if j == k then some v else get k m

  unfoldable pub delete : K → JsMap K V → JsMap K V
  delete k [] = []
  delete k ((j, v) ∷ m) = let rest = delete k m in if j == k then rest else (j, v) ∷ rest

  unfoldable pub set : K → V → JsMap K V → JsMap K V
  set k v [] = (k, v) ∷ []
  set k v ((j, w) ∷ m) = if j == k then (j, v) ∷ m else (j, w) ∷ set k v m

module _ {ℓ κ} {K : Type ℓ} {V : Type κ} where
  abbrev pub size : JsMap K V → ℕ
  size m = length m

  abbrev pub keys : JsMap K V → List K
  keys m = map (λ p. p.0) m

  abbrev pub values : JsMap K V → List V
  values m = map (λ p. p.1) m
