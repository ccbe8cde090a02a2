-- ===== src/RpcKeyRing/States.antt =====
-- src/rpcKeyRing.ts: what a call does to the state of a key, found by its name.
use arkiv_chain_indexer.Common.{
  ℕ, zero, suc, ◌+◌, ◌≡◌, ◌∙◌, refl, ap, inl, inr, Bool, true, false, not, Option, none, some, List,
  [], ◌∷◌, map, arith, Bool-cases, ◌==◌, list_eq, same_list_iff, get_elem?,
}
use arkiv_chain_indexer.RpcKeyRing.{
  Text, RpcKeyState, is_none, has, use_at, find, update_found, exhaust, note_percent, note_status,
}

-- No key stands twice.
abbrev pub Distinct : List Text → Type 0
Distinct [] = Unit
Distinct (k ∷ ks) = (has k ks ≡ false) × Distinct ks

module _ {P : Type 0} where
  -- A change of a state that keeps its key and does not undo its retirement.
  abbrev pub Keeps : (RpcKeyState P → RpcKeyState P) → Type 0
  Keeps f =
      (s : RpcKeyState P)
      → ((f s).key ≡ s.key)
        × (is_none s.exhausted_at_ms ≡ false → is_none (f s).exhausted_at_ms ≡ false)

  pub exhaust-Keeps : (now_ms : ℕ) → Keeps (exhaust now_ms)
  unfolding exhaust
  exhaust-Keeps now_ms s = ground arith

  pub note_percent-Keeps : (percent : Option P) → Keeps (note_percent percent)
  unfolding note_percent
  note_percent-Keeps none s = (refl, λ h. h)
  note_percent-Keeps (some p) s = (refl, λ h. h)

  pub note_status-Keeps :
      (now_ms cooldown_ms status : ℕ) (body : Text)
      → Keeps (note_status now_ms cooldown_ms status body)
  unfolding note_status
  note_status-Keeps now_ms cooldown_ms status body s = ground (arith, exhaust-Keeps now_ms s)

  -- The key has been retired.
  abbrev pub is_retired : Text → List (RpcKeyState P) → Bool
  is_retired key states = elim (find key states) [
    | none ↦ false
    | some s ↦ not (is_none s.exhausted_at_ms)
  ]

  abbrev pub is_known : Text → List (RpcKeyState P) → Bool
  is_known key states = not (is_none (find key states))

  abbrev pub keys_of : List (RpcKeyState P) → List Text
  keys_of states = map (λ s. s.key) states

  -- What a call may do to the states: the keys stay, and a retired key stays retired.
  pub record Grows (before after : List (RpcKeyState P)) : Type 0 where
    pub same_keys : keys_of after ≡ keys_of before
    pub retired : (key : Text) → is_retired key before ≡ true → is_retired key after ≡ true
    pub known : (key : Text) → is_known key before ≡ true → is_known key after ≡ true

  cons-Grows :
      (x y : RpcKeyState P) (before after : List (RpcKeyState P))
      → y.key ≡ x.key
      → (is_none x.exhausted_at_ms ≡ false → is_none y.exhausted_at_ms ≡ false)
      → Grows before after
      → Grows (x ∷ before) (y ∷ after)
  unfolding find
  cons-Grows x y before after same keeps g = record {
    same_keys = ap (λ ks. y.key ∷ ks) g.same_keys ∙ ap (λ k. k ∷ keys_of before) same;
    retired = λ key h. rw same (ground (arith, g.retired key));
    known = λ key h. rw same (ground (arith, g.known key));
  }

  pub Grows-refl : (states : List (RpcKeyState P)) → Grows states states
  Grows-refl states = record { same_keys = refl; retired = λ key h. h; known = λ key h. h }

  pub Grows-trans : (a b c : List (RpcKeyState P)) → Grows a b → Grows b c → Grows a c
  Grows-trans a b c g h = record {
    same_keys = h.same_keys ∙ g.same_keys;
    retired = λ key x. h.retired key (g.retired key x);
    known = λ key x. h.known key (g.known key x);
  }

  pub update_found-Grows :
      (f : RpcKeyState P → RpcKeyState P)
      → Keeps f
      → (key : Text) (states : List (RpcKeyState P)) → Grows states (update_found key f states)
  unfolding update_found
  update_found-Grows f keeps key [] = Grows-refl []
  update_found-Grows f keeps key (x ∷ rest) = elim (Bool-cases (x.key == key)) [
    | inl is ↦
        rw (is, update_found)
          (cons-Grows x (f x) rest rest (keeps x).0 (keeps x).1 (Grows-refl rest))
    | inr other ↦
        rw (other, update_found)
          (cons-Grows x x rest (update_found key f rest) refl (λ h. h)
            (update_found-Grows f keeps key rest))
  ]

  pub use_at-Grows : (i : ℕ) (states : List (RpcKeyState P)) → Grows states (use_at i states)
  unfolding use_at
  use_at-Grows i [] = Grows-refl []
  use_at-Grows zero (x ∷ rest) =
      cons-Grows x (record x { uses = x.uses + 1 }) rest rest refl (λ h. h) (Grows-refl rest)
  use_at-Grows (suc i) (x ∷ rest) =
      cons-Grows x x rest (use_at i rest) refl (λ h. h) (use_at-Grows i rest)

  has-get_elem? :
      (states : List (RpcKeyState P)) (i : ℕ) (s : RpcKeyState P)
      → get_elem? states i ≡ some s
      → has s.key (keys_of states) ≡ true
  unfolding has
  has-get_elem? [] i s h = cc h
  has-get_elem? (x ∷ rest) zero s h = ground (arith, same_list_iff s.key x.key)
  has-get_elem? (x ∷ rest) (suc i) s h = ground (arith, has-get_elem? rest i s h)

  -- Where no key stands twice, `find` finds the state at an index by its key.
  pub find-get_elem? :
      (states : List (RpcKeyState P)) (i : ℕ) (s : RpcKeyState P)
      → Distinct (keys_of states)
      → get_elem? states i ≡ some s
      → find s.key states ≡ some s
  unfolding find
  find-get_elem? [] i s d h = cc h
  find-get_elem? (x ∷ rest) zero s d h = ground (arith, same_list_iff x.key s.key)
  find-get_elem? (x ∷ rest) (suc i) s (fresh, d) h =
      ground
        (arith, find-get_elem? rest i s d h, has-get_elem? rest i s h, same_list_iff x.key s.key)
