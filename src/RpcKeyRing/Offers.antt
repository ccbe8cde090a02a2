-- ===== src/RpcKeyRing/Offers.antt =====
-- src/rpcKeyRing.ts: the key that `next` offers.
use arkiv_chain_indexer.Common.{
  ℕ, zero, suc, ◌+◌, ◌-◌, ◌%◌, ◌≤◌, ◌<◌, ◌≡◌, ◌∙◌, refl, sym, ap, inl, inr, true, false, some, List,
  [], ◌∷◌, arith, Bool-cases, Option-cases, length, get_elem?, ltb, eqb,
}
use native.Mathlib.Nat.{mod-add-mod, mod-lt, add-mod_right, mod-eq_of_lt}
use arkiv_chain_indexer.RpcKeyRing.{
  RpcKeyState, RpcKeyRing, size, is_usable_at, usable_index, find_offset, use_at, offer, next,
}

-- Every index is behind the cursor by less than a turn.
pub offset_of : (n c i : ℕ) → i < n → (k : ℕ) × (k < n) × ((c + k) % n ≡ i)
offset_of n c i h =
    let small : c % n < n = mod-lt c (omega (arith, h)) in
    elim (Bool-cases (ltb i (c % n))) [
      | inl before ↦
          let sum : c % n + (i + n - c % n) ≡ i + n = ground (arith, small, h) in
          (
            i + n - c % n,
            ground (arith, small, h),
            sym (mod-add-mod c n (i + n - c % n))
                ∙ ap (λ m. m % n) sum
                ∙ add-mod_right i n
                ∙ mod-eq_of_lt h,
          )
      | inr after ↦
          let sum : c % n + (i - c % n) ≡ i = ground (arith, small, h) in
          (
            i - c % n,
            ground (arith, small, h),
            sym (mod-add-mod c n (i - c % n)) ∙ ap (λ m. m % n) sum ∙ mod-eq_of_lt h,
          )
    ]

module _ {P : Type 0} where
  pub length-use_at :
      (i : ℕ) (states : List (RpcKeyState P)) → length (use_at i states) ≡ length states
  unfolding use_at
  length-use_at i [] = refl
  length-use_at zero (s ∷ rest) = refl
  length-use_at (suc i) (s ∷ rest) = ap suc (length-use_at i rest)

  -- A state that has been used since.
  abbrev pub IsUsed : RpcKeyState P → RpcKeyState P → Type 0
  IsUsed s s' =
      (s'.key ≡ s.key)
      × (s'.exhausted_at_ms ≡ s.exhausted_at_ms)
      × (s'.cooldown_until_ms ≡ s.cooldown_until_ms)

  pub get_elem?-use_at :
      (i j : ℕ) (states : List (RpcKeyState P)) (s : RpcKeyState P)
      → get_elem? states j ≡ some s
      → (s' : RpcKeyState P) × (get_elem? (use_at i states) j ≡ some s') × IsUsed s s'
  unfolding use_at
  get_elem?-use_at i j [] s h = cc h
  get_elem?-use_at zero zero (x ∷ rest) s h =
      (record x { uses = x.uses + 1 }, refl, ground (arith, h))
  get_elem?-use_at zero (suc j) (x ∷ rest) s h = (s, h, (refl, refl, refl))
  get_elem?-use_at (suc i) zero (x ∷ rest) s h = (s, h, (refl, refl, refl))
  get_elem?-use_at (suc i) (suc j) (x ∷ rest) s h = get_elem?-use_at i j rest s h

  pub usable_index-true :
      (now_ms : ℕ) (states : List (RpcKeyState P)) (i : ℕ)
      → usable_index now_ms states i ≡ true
      → (s : RpcKeyState P) × (get_elem? states i ≡ some s) × (is_usable_at now_ms s ≡ true)
  unfolding usable_index
  usable_index-true now_ms states i h = elim (Option-cases (get_elem? states i)) [
    | inl e ↦ cc (rw (e, usable_index) at h)
    | inr (s, e) ↦ (s, e, rw (e, usable_index) at h)
  ]

  pub usable_index-some :
      (now_ms : ℕ) (states : List (RpcKeyState P)) (i : ℕ) (s : RpcKeyState P)
      → get_elem? states i ≡ some s
      → is_usable_at now_ms s ≡ true
      → usable_index now_ms states i ≡ true
  unfolding usable_index
  usable_index-some now_ms states i s e h = rw (e, usable_index) h

  -- The loop stops at the first offset that passes.
  pub find_offset-first :
      (now_ms : ℕ) (ring : RpcKeyRing P) (left offset k : ℕ)
      → usable_index now_ms ring.states ((ring.cursor + k) % size ring) ≡ true
      → offset ≤ k
      → k < offset + left
      → (j : ℕ) × (find_offset now_ms ring left offset ≡ some j)
        × (j ≤ k)
        × (usable_index now_ms ring.states ((ring.cursor + j) % size ring) ≡ true)
  unfolding find_offset
  find_offset-first now_ms ring zero offset k h low high = absurd (omega (arith, low, high))
  find_offset-first now_ms ring (suc left) offset k h low high =
      elim (Bool-cases (usable_index now_ms ring.states ((ring.cursor + offset) % size ring))) [
        | inl is ↦ (offset, rw (is, find_offset) refl, low, is)
        | inr other ↦
            let (j, e, small, good) =
              find_offset-first now_ms ring left (offset + 1) k h (ground arith)
                (omega (arith, high)) in
            (j, rw (other, find_offset) e, small, good)
      ]

  pub get_elem?-bound :
      (states : List (RpcKeyState P)) (i : ℕ) (s : RpcKeyState P)
      → get_elem? states i ≡ some s
      → i < length states
  get_elem?-bound [] i s h = cc h
  get_elem?-bound (x ∷ rest) zero s h = omega arith
  get_elem?-bound (x ∷ rest) (suc i) s h = omega (arith, get_elem?-bound rest i s h)

  offer-some :
      (offset : ℕ) (ring : RpcKeyRing P) (s : RpcKeyState P)
      → get_elem? ring.states ((ring.cursor + offset) % size ring) ≡ some s
      → (offer offset ring).0 ≡ some s.key
  unfolding offer
  offer-some offset ring s h = rw (h, offer) refl

  -- What `next` does where an offset passes its test.
  pub next-found :
      (now_ms : ℕ) (ring : RpcKeyRing P) (k : ℕ)
      → k < size ring
      → usable_index now_ms ring.states ((ring.cursor + k) % size ring) ≡ true
      → (j : ℕ) × (next now_ms ring ≡ offer j ring)
        × (j ≤ k)
        × (s : RpcKeyState P) × (get_elem? ring.states ((ring.cursor + j) % size ring) ≡ some s)
        × (is_usable_at now_ms s ≡ true)
        × ((next now_ms ring).0 ≡ some s.key)
  unfolding next
  next-found now_ms ring k small h =
      let some_keys : eqb (size ring) 0 ≡ false = ground (arith, small) in
      let (j, e, le, good) =
        find_offset-first now_ms ring (size ring) 0 k h (omega arith) (omega (arith, small)) in
      let (s, at, usable) =
        usable_index-true now_ms ring.states ((ring.cursor + j) % size ring) good in
      (
        j,
        rw (some_keys, e, next) refl,
        le,
        s,
        at,
        usable,
        rw (some_keys, e, next) (offer-some j ring s at),
      )

  -- While a key is neither exhausted nor cooling down, `next` offers such a key.
  pub next-usable :
      (now_ms : ℕ) (ring : RpcKeyRing P) (i : ℕ) (s : RpcKeyState P)
      → get_elem? ring.states i ≡ some s
      → is_usable_at now_ms s ≡ true
      → (j : ℕ) × (s' : RpcKeyState P) × (get_elem? ring.states j ≡ some s')
        × (is_usable_at now_ms s' ≡ true)
        × ((next now_ms ring).0 ≡ some s'.key)
  next-usable now_ms ring i s at usable =
      let (k, small, e) =
        offset_of (size ring) ring.cursor i (get_elem?-bound ring.states i s at) in
      let (j, _, _, s', at', usable', offered) = next-found now_ms ring k small (
        ap (usable_index now_ms ring.states) e
        ∙ usable_index-some now_ms ring.states i s at usable) in
      ((ring.cursor + j) % size ring, s', at', usable', offered)

  get_elem?-some :
      (states : List (RpcKeyState P)) (i : ℕ)
      → i < length states
      → (s : RpcKeyState P) × (get_elem? states i ≡ some s)
  get_elem?-some [] i h = absurd (omega (arith, h))
  get_elem?-some (x ∷ rest) zero h = (x, refl)
  get_elem?-some (x ∷ rest) (suc i) h = get_elem?-some rest i (omega (arith, h))

  offer-key :
      (offset : ℕ) (ring : RpcKeyRing P)
      → 0 < size ring
      → (s : RpcKeyState P) × (i : ℕ) × (get_elem? ring.states i ≡ some s)
        × ((offer offset ring).0 ≡ some s.key)
  offer-key offset ring h =
      let i = (ring.cursor + offset) % size ring in
      let (s, e) = get_elem?-some ring.states i (mod-lt (ring.cursor + offset) h) in
      (s, i, e, offer-some offset ring s e)

  -- A ring that has keys always offers one of them, also where all of them rest or are burnt.
  pub next-key :
      (now_ms : ℕ) (ring : RpcKeyRing P)
      → 0 < size ring
      → (s : RpcKeyState P) × (i : ℕ) × (get_elem? ring.states i ≡ some s)
        × ((next now_ms ring).0 ≡ some s.key)
  unfolding next
  next-key now_ms ring h =
      let some_keys : eqb (size ring) 0 ≡ false = ground (arith, h) in
      elim (Option-cases (find_offset now_ms ring (size ring) 0)) [
        | inl e ↦ rw (some_keys, e, next) (offer-key 0 ring h)
        | inr (j, e) ↦ rw (some_keys, e, next) (offer-key j ring h)
      ]
