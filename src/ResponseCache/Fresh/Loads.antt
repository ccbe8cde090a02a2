-- ===== src/ResponseCache/Fresh/Loads.antt =====
-- The loads in flight: at most one that is not stale for each key, and `inflight` refers to it.
use arkiv_chain_indexer.Common.{
  ℕ, ◌≤◌, ◌<◌, ◌≡◌, ◌∙◌, sym, refl, inl, inr, String, Bool, true, false, Option, none, some, [],
  ◌∷◌, arith, List, eqb, ◌||◌, Bool-cases, Option-cases, ◌==◌,
}
use arkiv_chain_indexer.Common.{string_eq}
use arkiv_chain_indexer.Common.JsMap
use arkiv_chain_indexer.Common.JsMap.{JsMap, values}
use arkiv_chain_indexer.Common.JsMap.Laws.{get-delete, get-set}
use arkiv_chain_indexer.ResponseCache.{
  CachedResponse, Marker, ResponseCache, new, get, set, load, poison, poison_at, update, enabled,
  settle, settle_marker, store_fresh, invalidate, clear, release, poison_all, join_or_start,
  join_marker, after_get, start as start_load,
}

abbrev contains : List ℕ → ℕ → Bool
contains [] i = false
contains (j ∷ js) i = eqb j i || contains js i

-- What holds of the loads in flight, whatever the entries are.
pub record IsTracked (c : ResponseCache) : Type 0 where
  -- a load that is not stale is the one that `inflight` has for its key
  pub listed :
      (i : ℕ) (m : Marker)
      → c.markers i ≡ some m
      → m.stale ≡ false
      → JsMap.get m.key c.inflight ≡ some i
  -- `inflight` refers to loads under their own key
  pub keyed :
      (key : String) (i : ℕ) (m : Marker)
      → JsMap.get key c.inflight ≡ some i
      → c.markers i ≡ some m
      → m.key ≡ key
  pub known : (key : String) (i : ℕ) → JsMap.get key c.inflight ≡ some i → i < c.next_marker
  pub bounded : (i : ℕ) → c.next_marker ≤ i → c.markers i ≡ none

-- A load may start once no load that is not stale runs for the key.
abbrev pub IsIdle : String → ResponseCache → Type 0
IsIdle key c =
    (i : ℕ) (m : Marker) → c.markers i ≡ some m → m.stale ≡ false → (m.key == key) ≡ false

module _ (key : String) (c : ResponseCache) (t : IsTracked c) where
  start-IsTracked : IsIdle key c → IsTracked (start_load key c).1
  unfolding start_load
  start-IsTracked idle = record {
    listed = λ i m e f. ground (
      arith,
      get-set key m.key c.next_marker c.inflight,
      string_eq.is_identity key m.key,
      string_eq.is_identity m.key key,
      t.listed i m,
      idle i m,
    );
    keyed = λ k i m e f. ground (
      arith,
      get-set key k c.next_marker c.inflight,
      string_eq.is_identity key k,
      t.keyed k i m,
      t.known k i,
    );
    known = λ k i h.
        ground
          (arith, get-set key k c.next_marker c.inflight, string_eq.is_identity key k, t.known k i);
    bounded = λ i h. ground (arith, t.bounded i);
  }

  join_marker-IsTracked :
      (i : ℕ) (o : Option Marker)
      → JsMap.get key c.inflight ≡ some i
      → c.markers i ≡ o
      → IsTracked (join_marker key c i o).1
  unfolding join_marker
  join_marker-IsTracked i none h e =
      start-IsTracked (λ j m f g. ground (arith, t.listed j m f g, string_eq.is_identity m.key key))
  join_marker-IsTracked i (some m) h e = elim (Bool-cases m.stale) [
    | inl old ↦ rw old (
        start-IsTracked
          (λ j n f g. ground (arith, t.listed j n f g, string_eq.is_identity n.key key)))
    | inr live ↦
        rw live
          (record { listed = t.listed; keyed = t.keyed; known = t.known; bounded = t.bounded })
  ]

  join_or_start-IsTracked :
      (o : Option ℕ) → JsMap.get key c.inflight ≡ o → IsTracked (join_or_start key c o).1
  unfolding join_or_start
  join_or_start-IsTracked none h =
      start-IsTracked (λ j m f g. ground (arith, t.listed j m f g, string_eq.is_identity m.key key))
  join_or_start-IsTracked (some i) h = join_marker-IsTracked i (c.markers i) h refl

  pub get-IsTracked : (now : ℕ) → IsTracked (get key now c).1
  unfolding get
  get-IsTracked now = grind (arith, t)

  pub release-IsTracked : (i : ℕ) (k : String) → c.markers i ≡ none → IsTracked (release i k c)
  unfolding release
  release-IsTracked i k gone = elim (Option-cases (JsMap.get k c.inflight)) [
    | inl missing ↦ rw (missing, release) t
    | inr (j, found) ↦
        rw (found, release)
          (elim (Bool-cases (eqb j i)) [
            | inl mine ↦ rw mine (record {
              listed = λ x m e f. ground (
                arith,
                t.listed x m e f,
                get-delete k m.key c.inflight,
                string_eq.is_identity k m.key,
              );
              keyed = λ x y m e f.
                  ground
                    (arith, t.keyed x y m, get-delete k x c.inflight, string_eq.is_identity k x);
              known = λ x y e.
                  ground (arith, t.known x y, get-delete k x c.inflight, string_eq.is_identity k x);
              bounded = t.bounded;
            })
            | inr other ↦ rw other t
          ])
  ]

-- The second table of loads is the first with some of them ended or made stale.
pub record Shrinks (f g : ℕ → Option Marker) : Type 0 where
  pub kept :
      (i : ℕ) (m : Marker)
      → g i ≡ some m
      → (m0 : Marker) × (f i ≡ some m0) × (m0.key ≡ m.key) × (m.stale ≡ false → m0.stale ≡ false)

Shrinks-refl : (f : ℕ → Option Marker) → Shrinks f f
Shrinks-refl f = record { kept = λ i m e. (m, e, refl, λ h. h) }

Shrinks-trans : (f g h : ℕ → Option Marker) → Shrinks f g → Shrinks g h → Shrinks f h
Shrinks-trans f g h a b = record {
  kept = λ i m e.
      let (m1, e1, k1, s1) = b.kept i m e in
      let (m0, e0, k0, s0) = a.kept i m1 e1 in (m0, e0, k0 ∙ k1, λ live. s0 (s1 live));
}

pub Shrinks-end : (f : ℕ → Option Marker) (i : ℕ) → Shrinks f (update f i none)
Shrinks-end f i = record { kept = λ j m e. (m, ground arith, refl, λ h. h) }

poison-kept :
    (o : Option Marker) (m : Marker)
    → poison o ≡ some m
    → (m0 : Marker) × (o ≡ some m0) × (m0.key ≡ m.key) × (m.stale ≡ false → m0.stale ≡ false)
poison-kept none m e = cc
poison-kept (some m0) m e = (m0, refl, ground arith, λ live. ground arith)

Shrinks-poison : (f : ℕ → Option Marker) (i : ℕ) → Shrinks f (update f i (poison (f i)))
Shrinks-poison f i = record {
  kept = λ j m e. elim (Bool-cases (eqb i j)) [
    | inl same ↦ let i=j : i ≡ j = ground arith in rw (← i=j) (poison-kept (f i) m (ground arith))
    | inr other ↦ (m, rw other at e, refl, λ h. h)
  ];
}

Shrinks-poison_at : (o : Option ℕ) (f : ℕ → Option Marker) → Shrinks f (poison_at o f)
Shrinks-poison_at none f = Shrinks-refl f
Shrinks-poison_at (some i) f = Shrinks-poison f i

Shrinks-poison_all : (ids : List ℕ) (f : ℕ → Option Marker) → Shrinks f (poison_all ids f)
unfolding poison_all
Shrinks-poison_all [] f = Shrinks-refl f
Shrinks-poison_all (i ∷ ids) f =
    Shrinks-trans f (update f i (poison (f i))) (poison_all ids (update f i (poison (f i))))
      (Shrinks-poison f i) (Shrinks-poison_all ids (update f i (poison (f i))))

-- A cache with the same `inflight` and fewer live loads is tracked.
module _ (c d : ResponseCache) (t : IsTracked c) where
  IsTracked-Shrinks :
      Shrinks c.markers d.markers
      → d.inflight ≡ c.inflight
      → d.next_marker ≡ c.next_marker
      → IsTracked d
  IsTracked-Shrinks s p q = record {
    listed =
        λ i m e live. let (m0, e0, k, l) = s.kept i m e in rw (p, ← k) (t.listed i m0 e0 (l live));
    keyed =
        λ key i m e f. let (m0, e0, k, l) = s.kept i m f in sym k ∙ t.keyed key i m0 (rw p at e) e0;
    known = λ key i e. rw q (t.known key i (rw p at e));
    bounded = λ i h. elim (Option-cases (d.markers i)) [
      | inl gone ↦ gone
      | inr (m, e) ↦ let (m0, e0, k, l) = s.kept i m e in absurd (ground (arith, t.bounded i))
    ];
  }

after_get-IsTracked :
    (key : String) (r : Option CachedResponse) (c : ResponseCache)
    → IsTracked c
    → IsTracked (after_get key (r, c)).1
unfolding after_get
after_get-IsTracked key none c t = join_or_start-IsTracked key c t (JsMap.get key c.inflight) refl
after_get-IsTracked key (some response) c t = record {
  listed = t.listed;
  keyed = t.keyed;
  known = t.known;
  bounded = t.bounded;
}

-- The end of a load stores its response and touches no other load.
inflight-store_fresh :
    (m : Marker) (result : Option CachedResponse) (now : ℕ) (c : ResponseCache)
    → (store_fresh m result now c).inflight ≡ c.inflight
unfolding store_fresh set enabled
inflight-store_fresh m none now c = refl
inflight-store_fresh m (some r) now c = ground arith

next-store_fresh :
    (m : Marker) (result : Option CachedResponse) (now : ℕ) (c : ResponseCache)
    → (store_fresh m result now c).next_marker ≡ c.next_marker
unfolding store_fresh set enabled
next-store_fresh m none now c = refl
next-store_fresh m (some r) now c = ground arith

module _ (c : ResponseCache) (t : IsTracked c) where
  pub invalidate-IsTracked : (key : String) → IsTracked (invalidate key c)
  unfolding invalidate
  invalidate-IsTracked key =
      IsTracked-Shrinks c _ t (Shrinks-poison_at (JsMap.get key c.inflight) c.markers) refl refl

  pub clear-IsTracked : IsTracked (clear c)
  unfolding clear
  clear-IsTracked =
      IsTracked-Shrinks c _ t (Shrinks-poison_all (values c.inflight) c.markers) refl refl

  -- A load that is live after an invalidation was live before it, under the same key.
  pub invalidate-kept : (key : String) → Shrinks c.markers (invalidate key c).markers
  unfolding invalidate
  invalidate-kept key = Shrinks-poison_at (JsMap.get key c.inflight) c.markers

  pub clear-kept : Shrinks c.markers (clear c).markers
  unfolding clear
  clear-kept = Shrinks-poison_all (values c.inflight) c.markers

  -- After an invalidation no live load runs for the key.
  pub invalidate-IsIdle : (key : String) → IsIdle key (invalidate key c)
  unfolding invalidate
  invalidate-IsIdle key i m e live = elim (Bool-cases (m.key == key)) [
    | inr other ↦ other
    | inl same ↦
        let (m0, e0, k, l) = (Shrinks-poison_at (JsMap.get key c.inflight) c.markers).kept i m e in
        let at_key : JsMap.get key c.inflight ≡ some i =
          rw (k ∙ (string_eq.is_identity m.key key).0 same) at (t.listed i m0 e0 (l live)) in
        let e' = rw (at_key, poison_at) at e in absurd (ground (arith, e'))
  ]

  pub settle-IsTracked :
      (i : ℕ) (result : Option CachedResponse) (now : ℕ) → IsTracked (settle i result now c)
  unfolding settle
  settle-IsTracked i result now = settle_marker-IsTracked (c.markers i)
    where
      ended :
          (m : Marker)
          → IsTracked (record (store_fresh m result now c) { markers = update c.markers i none })
      ended m =
          IsTracked-Shrinks c _ t (Shrinks-end c.markers i) (inflight-store_fresh m result now c)
            (next-store_fresh m result now c)

      settle_marker-IsTracked : (o : Option Marker) → IsTracked (settle_marker i result now c o)
      settle_marker-IsTracked none = t
      settle_marker-IsTracked (some m) =
          release-IsTracked m.key
            (record (store_fresh m result now c) { markers = update c.markers i none }) (ended m) i
            m.key (ground arith)

  pub load-IsTracked : (key : String) (now : ℕ) → IsTracked (load key now c).1
  unfolding load
  load-IsTracked key now =
      after_get-IsTracked key (get key now c).0 (get key now c).1 (get-IsTracked key c t now)

poison_at_stale :
    (f : ℕ → Option Marker) (j : ℕ) (m : Marker)
    → update f j (poison (f j)) j ≡ some m
    → m.stale ≡ true
poison_at_stale f j m e = ground arith

poison_all-stale :
    (ids : List ℕ) (f : ℕ → Option Marker) (i : ℕ) (m : Marker)
    → contains ids i ≡ true
    → poison_all ids f i ≡ some m
    → m.stale ≡ true
unfolding poison_all
poison_all-stale [] f i m h e = cc
poison_all-stale (j ∷ ids) f i m h e =
    let g = update f j (poison (f j)) in
    let (m0, e0, k, l) = (Shrinks-poison_all ids g).kept i m e in
    ground (arith, poison_all-stale ids g i m, l, e0, poison_at_stale f j m0)

contains-values :
    (m : JsMap String ℕ) (k : String) (i : ℕ)
    → JsMap.get k m ≡ some i
    → contains (values m) i ≡ true
unfolding JsMap.get
contains-values [] k i h = cc
contains-values ((j, x) ∷ m) k i h = ground (arith, contains-values m k i)

-- After a clear no load at all is live.
pub clear-IsIdle : (c : ResponseCache) → IsTracked c → (key : String) → IsIdle key (clear c)
unfolding clear
clear-IsIdle c t key i m e live =
    let (m0, e0, k, l) = (Shrinks-poison_all (values c.inflight) c.markers).kept i m e in
    let listed = contains-values c.inflight m0.key i (t.listed i m0 e0 (l live)) in
    cc (live, poison_all-stale (values c.inflight) c.markers i m listed e)

pub new-IsTracked : (a b t : Option ℕ) → IsTracked (new a b t)
unfolding new JsMap.get
new-IsTracked a b t = record {
  listed = λ i m e f. cc;
  keyed = λ k i m e f. cc;
  known = λ k i e. cc;
  bounded = λ i h. refl;
}
