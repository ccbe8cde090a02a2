-- ===== src/RpcKeyRing/RoundRobin.antt =====
-- src/rpcKeyRing.ts: `next` takes turns.
use arkiv_chain_indexer.Common.{
  ℕ, ◌+◌, ◌-◌, ◌%◌, ◌≤◌, ◌<◌, ◌≡◌, ◌∙◌, ◌⊎◌, refl, sym, ap, inl, inr, true, Option, none, some,
  List, [], ◌∷◌, arith, length, get_elem?, All, Bool-cases, ltb, ltb→lt,
}
use mathlib.Core.Path.{subst}
use native.Mathlib.Nat.{mod-add-mod}
use arkiv_chain_indexer.RpcKeyRing.{
  Text, RpcKeyState, RpcKeyRing, size, is_usable_at, usable_index, offer, next,
}
use arkiv_chain_indexer.RpcKeyRing.Offers.{
  length-use_at, IsUsed, get_elem?-use_at, get_elem?-bound, offset_of, usable_index-some,
  next-found,
}

abbrev pub Among : {A : Type 0} → A → List A → Type 0
Among a [] = ⊥
Among a (b ∷ bs) = (b ≡ a) ⊎ Among a bs

module _ {P : Type 0} where
  -- The answers to calls of `next` at the given times.
  abbrev pub offers : List ℕ → RpcKeyRing P → List (Option Text)
  offers [] ring = []
  offers (now_ms ∷ times) ring = let (key, after) = next now_ms ring in key ∷ offers times after

  later-usable :
      (t t' : ℕ) (s s' : RpcKeyState P)
      → t ≤ t'
      → IsUsed s s'
      → is_usable_at t s ≡ true
      → is_usable_at t' s' ≡ true
  later-usable t t' s s' le (_, e, c) h = rw (e, c) (ground arith)

  -- The ring behind an offer, for a state that the offer leaves to come.
  after_offer :
      (j d i : ℕ) (ring : RpcKeyRing P) (s : RpcKeyState P)
      → j < d
      → (ring.cursor + d) % size ring ≡ i
      → get_elem? ring.states i ≡ some s
      → let after = (offer j ring).1 in
        (size after ≡ size ring)
        × ((after.cursor + (d - j - 1)) % size after ≡ i)
        × (s' : RpcKeyState P) × (get_elem? after.states i ≡ some s')
        × IsUsed s s'
  unfolding offer
  after_offer j d i ring s lt at e =
      let n = size ring in
      let same = length-use_at ((ring.cursor + j) % n) ring.states in
      let (s', e', used) = get_elem?-use_at ((ring.cursor + j) % n) i ring.states s e in
      (
        same,
        ap (λ m. ((ring.cursor + j + 1) % n + (d - j - 1)) % m) same
            ∙ mod-add-mod (ring.cursor + j + 1) n (d - j - 1)
            ∙ ap (λ m. m % n) (omega (arith, lt))
            ∙ at,
        s',
        e',
        used,
      )

  turn :
      (d : ℕ) (times : List ℕ) (ring : RpcKeyRing P) (t i : ℕ) (s : RpcKeyState P)
      → (ring.cursor + d) % size ring ≡ i
      → d < size ring
      → get_elem? ring.states i ≡ some s
      → is_usable_at t s ≡ true
      → All (λ now_ms. t ≤ now_ms) times
      → d < length times
      → Among (some s.key) (offers times ring)
  turn d [] ring t i s at small e usable after long = absurd (omega (arith, long))
  turn d (now_ms ∷ times) ring t i s at small e usable (le, after) long =
      let usable' = later-usable t now_ms s s le (refl, refl, refl) usable in
      let (j, same, short, s', e', _, offered) = next-found now_ms ring d small (
        ap (usable_index now_ms ring.states) at
        ∙ usable_index-some now_ms ring.states i s e usable') in
      elim (Bool-cases (ltb j d)) [
        | inr not_before ↦
            let last : j ≡ d = ground (arith, short) in
            let found : some s' ≡ some s =
              sym e'
              ∙ ap (λ m. get_elem? ring.states ((ring.cursor + m) % size ring)) last
              ∙ ap (get_elem? ring.states) at
              ∙ e in
            inl (offered ∙ ap (λ o. elim o [ none ↦ none | some x ↦ some x.key ]) found)
        | inl before ↦
            let (same_size, at', s2, e2, used) =
              after_offer j d i ring s (ltb→lt j d before) at e in
            inr (
              subst (λ r. Among (some s.key) (offers times r)) (ap (λ p. p.1) (sym same))
                (subst (λ k. Among (some k) (offers times (offer j ring).1)) used.0
                  (turn (d - j - 1) times (offer j ring).1 t i s2 at'
                    (ground (arith, small, same_size)) e2
                    (later-usable t t s s2 (omega arith) used usable) after
                    (ground (arith, long)))))
      ]

  -- A key that is neither exhausted nor cooling down is offered within as many requests as the
  -- ring has keys, at whatever later times they are made.
  pub next-RoundRobin :
      (t : ℕ) (times : List ℕ) (ring : RpcKeyRing P) (i : ℕ) (s : RpcKeyState P)
      → get_elem? ring.states i ≡ some s
      → is_usable_at t s ≡ true
      → All (λ now_ms. t ≤ now_ms) times
      → size ring ≤ length times
      → Among (some s.key) (offers times ring)
  next-RoundRobin t times ring i s e usable after long =
      let (d, small, at) =
        offset_of (size ring) ring.cursor i (get_elem?-bound ring.states i s e) in
      turn d times ring t i s at small e usable after (omega (arith, small, long))
