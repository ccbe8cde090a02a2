-- ===== src/Common/JsMap/Laws.antt =====
-- The laws of `Map` that the caches, the key ring and the guzzler tracker use.
use Prim.Native.Nat.{ℕ, ◌+◌, ◌≤◌}
use mathlib.Core.Path.{◌≡◌, refl}
use mathlib.Core.Logic.{◌≢◌, inl, inr}
use mathlib.Core.Bool.{true, false}
use mathlib.Core.Option.{none, some}
use mathlib.Core.List.{[], ◌∷◌, ◌++◌}
use native.Mathlib.Omega.{arith}
use arkiv_chain_indexer.Common.Tests.{Key, ◌==◌, if◌then◌else◌, Bool-cases}
use arkiv_chain_indexer.Common.Lists.{length}
use arkiv_chain_indexer.Common.JsMap.{JsMap, get, set, delete, size}

module _ {ℓ} {K : Type ℓ} ⦃e : Key K⦄ where
  pub ==_refl : (k : K) → (k == k) ≡ true
  ==_refl k = (e.is_identity k k).1 refl

  pub ==_ne : (j k : K) → j ≢ k → (j == k) ≡ false
  ==_ne j k h = elim (Bool-cases (j == k)) [
    | inl same ↦ absurd (h ((e.is_identity j k).0 same))
    | inr other ↦ other
  ]

module _ {ℓ κ} {K : Type ℓ} {V : Type κ} ⦃e : Key K⦄ where
  pub get-set :
      (k j : K) (v : V) (m : JsMap K V) → get j (set k v m) ≡ (if k == j then some v else get j m)
  unfolding get set
  get-set k j v [] = refl
  get-set k j v ((i, w) ∷ m) =
      ground (arith, e.is_identity k j, e.is_identity i k, e.is_identity i j, get-set k j v m)

  pub get-delete :
      (k j : K) (m : JsMap K V) → get j (delete k m) ≡ (if k == j then none else get j m)
  unfolding get delete
  get-delete k j [] = ground arith
  get-delete k j ((i, w) ∷ m) =
      ground (arith, e.is_identity k j, e.is_identity i k, e.is_identity i j, get-delete k j m)

  pub get-append :
      (j : K) (m n : JsMap K V)
      → get j (m ++ n) ≡ elim (get j m) [ some v ↦ some v | none ↦ get j n ]
  unfolding get
  get-append j [] n = refl
  get-append j ((i, w) ∷ m) n = ground (arith, get-append j m n)

  -- A `set` on a new key goes to the end.
  pub set_absent : (k : K) (v : V) (m : JsMap K V) → get k m ≡ none → set k v m ≡ m ++ (k, v) ∷ []
  unfolding get set
  set_absent k v [] h = refl
  set_absent k v ((j, w) ∷ m) h = ground (arith, set_absent k v m)

  pub delete_absent : (k : K) (m : JsMap K V) → get k m ≡ none → delete k m ≡ m
  unfolding get delete
  delete_absent k [] h = refl
  delete_absent k ((j, w) ∷ m) h = ground (arith, delete_absent k m)

  pub size-delete-le : (k : K) (m : JsMap K V) → size (delete k m) ≤ size m
  unfolding delete
  size-delete-le k [] = omega arith
  size-delete-le k ((j, w) ∷ m) = ground (arith, size-delete-le k m)

  -- No key stands twice.
  abbrev pub Distinct : JsMap K V → Type κ
  Distinct [] = Unit
  Distinct ((k, v) ∷ m) = (get k m ≡ none) × Distinct m

  pub Distinct-delete : (k : K) (m : JsMap K V) → Distinct m → Distinct (delete k m)
  unfolding get delete
  Distinct-delete k [] d = tt
  Distinct-delete k ((j, v) ∷ m) (h, d) = ground (arith, Distinct-delete k m d, get-delete k j m)

  pub Distinct-append :
      (k : K) (v : V) (m : JsMap K V) → get k m ≡ none → Distinct m → Distinct (m ++ (k, v) ∷ [])
  unfolding get
  Distinct-append k v [] h d = (refl, tt)
  Distinct-append k v ((j, w) ∷ m) h (a, d) = (
    ground (arith, get-append j m ((k, v) ∷ []), e.is_identity j k, e.is_identity k j),
    Distinct-append k v m (ground arith) d,
  )

  pub length-delete_found :
      (k : K) (v : V) (m : JsMap K V)
      → get k m ≡ some v
      → Distinct m
      → length (delete k m) + 1 ≡ length m
  unfolding get delete
  length-delete_found k v [] h d = cc
  length-delete_found k v ((j, w) ∷ m) h (a, d) =
      ground (arith, e.is_identity j k, delete_absent k m, length-delete_found k v m)

-- The sum of a measure over the values.
module _ {ℓ κ} {K : Type ℓ} {V : Type κ} (f : V → ℕ) where
  abbrev pub total : JsMap K V → ℕ
  total [] = 0
  total ((k, v) ∷ m) = f v + total m

  pub total-append : (m n : JsMap K V) → total (m ++ n) ≡ total m + total n
  total-append [] n = omega arith
  total-append ((k, v) ∷ m) n = omega (arith, total-append m n)

module _ {ℓ κ} {K : Type ℓ} {V : Type κ} ⦃e : Key K⦄ (f : V → ℕ) where
  pub total-delete :
      (k : K) (v : V) (m : JsMap K V)
      → get k m ≡ some v
      → Distinct m
      → total f (delete k m) + f v ≡ total f m
  unfolding get delete
  total-delete k v [] h d = cc
  total-delete k v ((j, w) ∷ m) h (a, d) =
      ground (arith, e.is_identity j k, delete_absent k m, total-delete k v m)
