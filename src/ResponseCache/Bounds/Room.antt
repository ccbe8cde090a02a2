-- ===== src/ResponseCache/Bounds/Room.antt =====
-- The eviction loop of `set`: it drops entries from the oldest end until the new one fits.
use arkiv_chain_indexer.Common.{
  ℕ, zero, suc, ◌+◌, ◌-◌, ◌≤◌, ◌<◌, ◌≡◌, refl, String, true, none, some, [], ◌∷◌, ◌||◌, arith, ltb,
  leb, length, drop, ◌⊎◌, inl, inr, Bool-cases,
}
use arkiv_chain_indexer.Common.{string_eq}
use arkiv_chain_indexer.Common.JsMap
use arkiv_chain_indexer.Common.JsMap.{JsMap}
use arkiv_chain_indexer.Common.JsMap.Laws.{Distinct, total}
use arkiv_chain_indexer.ResponseCache.{CacheEntry, Room, make_room}

module _ (max_entries max_bytes bytes : ℕ) where
  -- The entries that stay are the newest, and an absent key stays absent.
  pub make_room-Distinct :
      (m : JsMap String CacheEntry) (t n : ℕ)
      → Distinct m
      → Distinct (make_room max_entries max_bytes bytes m t n).entries
  unfolding make_room
  make_room-Distinct [] t n d = tt
  make_room-Distinct ((k, e) ∷ m) t n (a, d) =
      ground (arith, make_room-Distinct m (t - e.bytes) (n + 1) d)

  pub make_room-absent :
      (j : String) (m : JsMap String CacheEntry) (t n : ℕ)
      → JsMap.get j m ≡ none
      → JsMap.get j (make_room max_entries max_bytes bytes m t n).entries ≡ none
  unfolding make_room JsMap.get
  make_room-absent j [] t n h = refl
  make_room-absent j ((k, e) ∷ m) t n h = ground (arith, make_room-absent j m (t - e.bytes) (n + 1))

  -- No entry is found after the loop that was not there before it.
  pub make_room-found :
      (j : String) (m : JsMap String CacheEntry) (t n : ℕ) (e : CacheEntry)
      → Distinct m
      → JsMap.get j (make_room max_entries max_bytes bytes m t n).entries ≡ some e
      → JsMap.get j m ≡ some e
  unfolding make_room JsMap.get
  make_room-found j [] t n e d h = h
  make_room-found j ((k, x) ∷ m) t n e (a, d) h =
      ground (arith, make_room-found j m (t - x.bytes) (n + 1) e d, string_eq.is_identity k j)

  pub make_room-counted :
      (m : JsMap String CacheEntry) (t n : ℕ)
      → t ≡ total (λ (e : CacheEntry). e.bytes) m
      → (make_room max_entries max_bytes bytes m t n).total_bytes
        ≡ total (λ (e : CacheEntry). e.bytes) (make_room max_entries max_bytes bytes m t n).entries
  unfolding make_room
  make_room-counted [] t n h = h
  make_room-counted ((k, e) ∷ m) t n h = ground (arith, make_room-counted m (t - e.bytes) (n + 1))

  pub make_room-fits :
      (m : JsMap String CacheEntry) (t n : ℕ)
      → 0 < max_entries
      → bytes ≤ max_bytes
      → t ≡ total (λ (e : CacheEntry). e.bytes) m
      → (length (make_room max_entries max_bytes bytes m t n).entries < max_entries)
        × ((make_room max_entries max_bytes bytes m t n).total_bytes + bytes ≤ max_bytes)
  unfolding make_room
  make_room-fits [] t n p q h = omega arith
  make_room-fits ((k, e) ∷ m) t n p q h = ground (arith, make_room-fits m (t - e.bytes) (n + 1))

  -- The run of entries at the oldest end that the loop drops, and why each of them had to go.
  pub record Evicted (m : JsMap String CacheEntry) (n : ℕ) (room : Room) (k : ℕ) : Type 0 where
    pub rest : room.entries ≡ drop k m
    pub counted : room.evictions ≡ n + k
    pub needed :
        (j : ℕ)
        → j < k
        → (max_entries ≤ length (drop j m))
          ⊎ (max_bytes < total (λ (e : CacheEntry). e.bytes) (drop j m) + bytes)

  needed_first :
      (x : String) (e : CacheEntry) (m : JsMap String CacheEntry) (t : ℕ)
      → t ≡ e.bytes + total (λ (e : CacheEntry). e.bytes) m
      → (leb max_entries (length ((x, e) ∷ m)) || ltb max_bytes (t + bytes)) ≡ true
      → (max_entries ≤ suc (length m))
        ⊎ (max_bytes < e.bytes + total (λ (e : CacheEntry). e.bytes) m + bytes)
  needed_first x e m t h p = ground arith

  pub make_room-Evicted :
      (m : JsMap String CacheEntry) (t n : ℕ)
      → t ≡ total (λ (e : CacheEntry). e.bytes) m
      → (k : ℕ) × Evicted m n (make_room max_entries max_bytes bytes m t n) k
  unfolding make_room
  make_room-Evicted [] t n h =
      (0, record { rest = refl; counted = omega arith; needed = λ j p. absurd (omega arith) })
  make_room-Evicted ((x, e) ∷ m) t n h =
      elim (Bool-cases (leb max_entries (length ((x, e) ∷ m)) || ltb max_bytes (t + bytes))) [
        | inl over ↦
            let (k, ih) = make_room-Evicted m (t - e.bytes) (n + 1) (omega arith) in
            (suc k, rw over (step k ih over))
        | inr fits ↦ (
          0,
          rw fits
              (record { rest = refl; counted = omega arith; needed = λ j p. absurd (omega arith) }),
        )
      ]
    where
      step :
          (k : ℕ)
          → Evicted m (n + 1) (make_room max_entries max_bytes bytes m (t - e.bytes) (n + 1)) k
          → (leb max_entries (length ((x, e) ∷ m)) || ltb max_bytes (t + bytes)) ≡ true
          → Evicted
              ((x, e) ∷ m)
              n
              (make_room max_entries max_bytes bytes m (t - e.bytes) (n + 1))
              (suc k)
      step k ih over = record {
        rest = ih.rest;
        counted = omega (arith, ih.counted);
        needed = elim [
          | zero ↦ λ p. needed_first x e m t h over
          | suc j ↦ λ p. ih.needed j (omega arith)
        ];
      }
