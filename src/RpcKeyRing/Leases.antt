-- ===== src/RpcKeyRing/Leases.antt =====
-- src/rpcKeyRing.ts: how long a key stays retired, and an owner keeps its key.
use arkiv_chain_indexer.Common.{
  ℕ, zero, suc, ◌≡◌, ◌≢◌, ◌∙◌, refl, sym, ap, inl, inr, true, false, Option, none, some, List, [],
  ◌∷◌, arith, Bool-cases, Option-cases, list_eq, same_list_iff, eqb, get_elem?,
}
use mathlib.Core.Path.{subst}
use arkiv_chain_indexer.Common.JsMap.{get}
use arkiv_chain_indexer.Common.JsMap.Laws.{get-set, get-delete, ==_ne, ==_refl}
use arkiv_chain_indexer.RpcKeyRing.{
  Text, RpcKeyState, RpcKeyRing, size, find_offset, offer, next, find, exhaust, note_percent,
  note_response, held, lease, lease_for, retire,
}
use arkiv_chain_indexer.RpcKeyRing.Offers.{next-key}
use arkiv_chain_indexer.RpcKeyRing.States.{
  exhaust-Keeps, note_percent-Keeps, note_status-Keeps, is_retired, is_known, Grows, Grows-refl,
  Grows-trans, update_found-Grows, use_at-Grows,
}

module _ {P : Type 0} where
  -- One call on the ring, by an owner that is allowed to where it is a lease.
  pub data Step (allowed : Text → Type 0) (ring : RpcKeyRing P) : RpcKeyRing P → Type 0 where
    takes : (now_ms : ℕ) → Step allowed ring (next now_ms ring).1
    notes :
        (now_ms : ℕ) (key : Text) (status : ℕ) (percent : Option P) (body : Text)
        → Step allowed ring (note_response now_ms key status percent body ring)
    leases_for :
        (now_ms : ℕ) (owner : Text)
        → allowed owner
        → Step allowed ring (lease_for now_ms owner ring).1
    retires : (now_ms : ℕ) (key : Text) → Step allowed ring (retire now_ms key ring)

  -- Any number of calls.
  pub data Steps (allowed : Text → Type 0) (ring : RpcKeyRing P) : RpcKeyRing P → Type 0 where
    here : Steps allowed ring ring
    after :
        {middle last : RpcKeyRing P}
        → Steps allowed ring middle
        → Step allowed middle last
        → Steps allowed ring last

  offer-Grows : (offset : ℕ) (ring : RpcKeyRing P) → Grows ring.states (offer offset ring).1.states
  unfolding offer
  offer-Grows offset ring = use_at-Grows _ ring.states

  next-Grows : (now_ms : ℕ) (ring : RpcKeyRing P) → Grows ring.states (next now_ms ring).1.states
  unfolding next
  next-Grows now_ms ring = elim (Bool-cases (eqb (size ring) 0)) [
    | inl empty ↦ rw (empty, next) (Grows-refl ring.states)
    | inr keyed ↦ elim (Option-cases (find_offset now_ms ring (size ring) 0)) [
      | inl e ↦ rw (keyed, e, next) (offer-Grows 0 ring)
      | inr (j, e) ↦ rw (keyed, e, next) (offer-Grows j ring)
    ]
  ]

  lease-states :
      (owner : Text) (p : Option Text × RpcKeyRing P) → (lease owner p).1.states ≡ p.1.states
  unfolding lease
  lease-states owner (none, ring) = refl
  lease-states owner (some k, ring) = refl

  lease_for-Grows :
      (now_ms : ℕ) (owner : Text) (ring : RpcKeyRing P)
      → Grows ring.states (lease_for now_ms owner ring).1.states
  unfolding lease_for
  lease_for-Grows now_ms owner ring = elim (Option-cases (held owner ring)) [
    | inr (k, e) ↦ rw (e, lease_for) (Grows-refl ring.states)
    | inl e ↦
        rw (e, lease_for)
          (subst (Grows ring.states) (sym (lease-states owner (next now_ms ring)))
            (next-Grows now_ms ring))
  ]

  Step-Grows :
      {allowed : Text → Type 0} (ring ring' : RpcKeyRing P)
      → Step allowed ring ring'
      → Grows ring.states ring'.states
  unfolding note_response retire
  Step-Grows ring _ (takes now_ms) = next-Grows now_ms ring
  Step-Grows ring _ (notes now_ms key status percent body) =
      update_found-Grows _
        (λ s.
          let a = note_percent-Keeps percent s in
          let b = note_status-Keeps now_ms ring.cooldown_ms status body (note_percent percent s) in
          (b.0 ∙ a.0, λ h. b.1 (a.1 h)))
        key ring.states
  Step-Grows ring _ (leases_for now_ms owner _) = lease_for-Grows now_ms owner ring
  Step-Grows ring _ (retires now_ms key) =
      update_found-Grows (exhaust now_ms) (exhaust-Keeps now_ms) key ring.states

  Steps-Grows :
      {allowed : Text → Type 0} (ring ring' : RpcKeyRing P)
      → Steps allowed ring ring'
      → Grows ring.states ring'.states
  Steps-Grows ring _ here = Grows-refl ring.states
  Steps-Grows ring ring' (after {middle = m} steps step) =
      Grows-trans ring.states m.states ring'.states (Steps-Grows ring m steps)
        (Step-Grows m ring' step)

  offer-leases : (offset : ℕ) (ring : RpcKeyRing P) → (offer offset ring).1.leases ≡ ring.leases
  unfolding offer
  offer-leases offset ring = refl

  next-leases : (now_ms : ℕ) (ring : RpcKeyRing P) → (next now_ms ring).1.leases ≡ ring.leases
  unfolding next
  next-leases now_ms ring = elim (Bool-cases (eqb (size ring) 0)) [
    | inl empty ↦ rw (empty, next) refl
    | inr keyed ↦ elim (Option-cases (find_offset now_ms ring (size ring) 0)) [
      | inl e ↦ rw (keyed, e, next) (offer-leases 0 ring)
      | inr (j, e) ↦ rw (keyed, e, next) (offer-leases j ring)
    ]
  ]

  lease-other :
      (owner other : Text) (p : Option Text × RpcKeyRing P)
      → other ≢ owner
      → get owner (lease other p).1.leases ≡ get owner p.1.leases
  unfolding lease
  lease-other owner other (none, ring) ne =
      let far = ==_ne other owner ne in get-delete other owner ring.leases ∙ rw far refl
  lease-other owner other (some k, ring) ne =
      let far = ==_ne other owner ne in get-set other owner k ring.leases ∙ rw far refl

  Step-leases :
      (owner : Text) (ring ring' : RpcKeyRing P)
      → Step (λ o. o ≢ owner) ring ring'
      → get owner ring'.leases ≡ get owner ring.leases
  unfolding note_response retire lease_for
  Step-leases owner ring _ (takes now_ms) = ap (get owner) (next-leases now_ms ring)
  Step-leases owner ring _ (notes now_ms key status percent body) = refl
  Step-leases owner ring _ (leases_for now_ms other ne) = elim (Option-cases (held other ring)) [
    | inr (k, e) ↦ rw (e, lease_for) refl
    | inl e ↦
        rw (e, lease_for)
          (lease-other owner other (next now_ms ring) ne ∙ ap (get owner) (next-leases now_ms ring))
  ]
  Step-leases owner ring _ (retires now_ms key) = refl

  Steps-leases :
      (owner : Text) (ring ring' : RpcKeyRing P)
      → Steps (λ o. o ≢ owner) ring ring'
      → get owner ring'.leases ≡ get owner ring.leases
  Steps-leases owner ring _ here = refl
  Steps-leases owner ring ring' (after {middle = m} steps step) =
      Step-leases owner m ring' step ∙ Steps-leases owner ring m steps

  find-known :
      (states : List (RpcKeyState P)) (i : ℕ) (s : RpcKeyState P)
      → get_elem? states i ≡ some s
      → is_known s.key states ≡ true
  unfolding find
  find-known [] i s h = cc h
  find-known (x ∷ rest) zero s h = ground (arith, same_list_iff x.key s.key)
  find-known (x ∷ rest) (suc i) s h = ground (arith, find-known rest i s h)

  next-known :
      (now_ms : ℕ) (ring : RpcKeyRing P) (key : Text)
      → (next now_ms ring).0 ≡ some key
      → is_known key ring.states ≡ true
  unfolding next
  next-known now_ms ring key h = elim (Bool-cases (eqb (size ring) 0)) [
    | inl empty ↦ cc (rw (empty, next) at h)
    | inr keyed ↦
        let (s, i, at, offered) = next-key now_ms ring (ground arith) in
        let known = find-known ring.states i s at in ground (arith, sym offered ∙ h, known)
  ]

  held-holds :
      (owner : Text) (ring : RpcKeyRing P) (key : Text)
      → held owner ring ≡ some key
      → (get owner ring.leases ≡ some key) × (is_known key ring.states ≡ true)
  unfolding held
  held-holds owner ring key h = ground arith

  held-live :
      (owner : Text) (ring : RpcKeyRing P) (key : Text)
      → get owner ring.leases ≡ some key
      → is_known key ring.states ≡ true
      → is_retired key ring.states ≡ false
      → held owner ring ≡ some key
  unfolding held
  held-live owner ring key leased known live = ground arith

  lease-holds :
      (owner : Text) (p : Option Text × RpcKeyRing P) (key : Text)
      → (lease owner p).0 ≡ some key
      → (p.0 ≡ some key) × (get owner (lease owner p).1.leases ≡ some key)
  unfolding lease
  lease-holds owner (none, ring) key h = cc h
  lease-holds owner (some k, ring) key h =
      let itself = ==_refl owner in (h, get-set owner owner k ring.leases ∙ rw itself h)

  -- What a lease leaves: the owner holds a key of the ring.
  lease_for-holds :
      (now_ms : ℕ) (owner : Text) (ring : RpcKeyRing P) (key : Text)
      → (lease_for now_ms owner ring).0 ≡ some key
      → (get owner (lease_for now_ms owner ring).1.leases ≡ some key)
        × (is_known key (lease_for now_ms owner ring).1.states ≡ true)
  unfolding lease_for
  lease_for-holds now_ms owner ring key h = elim (Option-cases (held owner ring)) [
    | inr (k, e) ↦
        let (leased, known) = held-holds owner ring key (e ∙ (rw (e, lease_for) at h)) in
        rw (e, lease_for) (leased, known)
    | inl e ↦
        let (offered, leased) = lease-holds owner (next now_ms ring) key (rw (e, lease_for) at h) in
        rw (e, lease_for)
          (
            leased,
            subst (λ states. is_known key states ≡ true)
                (sym (lease-states owner (next now_ms ring)))
                ((next-Grows now_ms ring).known key (next-known now_ms ring key offered)),
          )
  ]

  -- An owner keeps its key: after a lease, whatever the others do, the next lease gives the same
  -- key and changes nothing, unless the key has been retired.
  pub lease_for-keeps :
      (now_ms later_ms : ℕ) (owner : Text) (ring ring' : RpcKeyRing P) (key : Text)
      → (lease_for now_ms owner ring).0 ≡ some key
      → Steps (λ o. o ≢ owner) (lease_for now_ms owner ring).1 ring'
      → is_retired key ring'.states ≡ false
      → lease_for later_ms owner ring' ≡ (some key, ring')
  unfolding lease_for
  lease_for-keeps now_ms later_ms owner ring ring' key h steps live =
      let (leased, known) = lease_for-holds now_ms owner ring key h in
      let leased' = Steps-leases owner _ ring' steps ∙ leased in
      let known' = (Steps-Grows _ ring' steps).known key known in
      let held' = held-live owner ring' key leased' known' live in rw (held', lease_for) refl
