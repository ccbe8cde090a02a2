-- ===== src/ResponseCache/Recency.antt =====
-- Least recently used goes first, and an entry lives for its TTL.
use arkiv_chain_indexer.Common.{
  ℕ, zero, suc, ◌+◌, ◌-◌, ◌≤◌, ◌<◌, ◌≡◌, ◌∙◌, ap, refl, ◌⊎◌, String, true, none, some, [], ◌∷◌,
  ◌++◌, arith, leb, length, drop, if◌then◌else◌,
}
use arkiv_chain_indexer.Common.{string_eq}
use arkiv_chain_indexer.Common.JsMap
use arkiv_chain_indexer.Common.JsMap.{JsMap}
use mathlib.Core.Path.{subst}
use arkiv_chain_indexer.Common.JsMap.Laws.{get-set, set_absent, total, ==_refl}
use arkiv_chain_indexer.ResponseCache.{
  CachedResponse, CacheEntry, ResponseCache, body_bytes, get, get_entry, set, store, enabled,
  entry_bytes, make_room,
}
use arkiv_chain_indexer.ResponseCache.Bounds.{IsBounded, delete-counted, absent}
use arkiv_chain_indexer.ResponseCache.Bounds.Room.{make_room-Evicted, make_room-absent}

-- One entry less was too few: the cache was full, or too few bytes were free.
abbrev pub TooFull : ResponseCache → ℕ → JsMap String CacheEntry → Type 0
TooFull c bytes m =
    (c.max_entries ≤ length m) ⊎ (c.max_bytes < total (λ (e : CacheEntry). e.bytes) m + bytes)

-- The first `k` entries went one by one, each because it had to.
abbrev pub EachNeeded : ResponseCache → ℕ → ℕ → JsMap String CacheEntry → Type 0
EachNeeded c bytes zero m = Unit
EachNeeded c bytes (suc k) m = TooFull c bytes m × EachNeeded c bytes k (drop 1 m)

drop-drop_one : (j : ℕ) (m : JsMap String CacheEntry) → drop (suc j) m ≡ drop j (drop 1 m)
drop-drop_one zero [] = refl
drop-drop_one (suc j) [] = refl
drop-drop_one j (x ∷ m) = refl

all_needed :
    (c : ResponseCache) (bytes k : ℕ) (m : JsMap String CacheEntry)
    → ((j : ℕ) → j < k → TooFull c bytes (drop j m))
    → EachNeeded c bytes k m
all_needed c bytes zero m h = tt
all_needed c bytes (suc k) m h = (
  h 0 (omega arith),
  all_needed c bytes k (drop 1 m)
      (λ j lt. subst (TooFull c bytes) (drop-drop_one j m) (h (suc j) (omega (arith, lt)))),
)

abbrev pub entry_of : CachedResponse → ℕ → ResponseCache → CacheEntry
entry_of response now c = record {
  response = response;
  bytes = body_bytes response.body;
  expires_at = now + c.ttl_ms;
}

module _ (key : String) (response : CachedResponse) (now : ℕ) (c : ResponseCache) where
  set-eq-store :
      enabled c ≡ true
      → body_bytes response.body ≤ c.max_bytes
      → set key response now c ≡ store key response (body_bytes response.body) now c
  unfolding set
  set-eq-store on fits = ground arith

  store_evicts :
      (bytes : ℕ)
      → IsBounded c
      → (k : ℕ) × ((store key response bytes now c).entries
          ≡ drop k (JsMap.delete key c.entries)
            ++ (key, record { response = response; bytes = bytes; expires_at = now + c.ttl_ms })
              ∷ [])
        × ((store key response bytes now c).evictions ≡ c.evictions + k)
        × EachNeeded c bytes k (JsMap.delete key c.entries)
  unfolding store
  store_evicts bytes v =
      let m = JsMap.delete key c.entries in
      let t = c.total_bytes - entry_bytes (JsMap.get key c.entries) in
      let room = make_room c.max_entries c.max_bytes bytes m t c.evictions in
      let e : CacheEntry = record {
        response = response;
        bytes = bytes;
        expires_at = now + c.ttl_ms;
      } in
      let (k, ev) =
        make_room-Evicted c.max_entries c.max_bytes bytes m t c.evictions
          (delete-counted key c v) in
      let fresh =
        make_room-absent c.max_entries c.max_bytes bytes key m t c.evictions (absent key c v) in
      (
        k,
        set_absent key e room.entries fresh ∙ ap (λ x. x ++ (key, e) ∷ []) ev.rest,
        ev.counted,
        all_needed c bytes k m ev.needed,
      )

  -- Storing a response that fits in an enabled cache drops the `k` least recently used entries
  -- under other keys and puts the new entry at the most recent end. The evictions counter grows
  -- by `k`, and each eviction was needed: before it the cache was full, or too few bytes were
  -- free.
  pub set_evicts :
      IsBounded c
      → enabled c ≡ true
      → body_bytes response.body ≤ c.max_bytes
      → (k : ℕ) × ((set key response now c).entries
          ≡ drop k (JsMap.delete key c.entries) ++ (key, entry_of response now c) ∷ [])
        × ((set key response now c).evictions ≡ c.evictions + k)
        × EachNeeded c (body_bytes response.body) k (JsMap.delete key c.entries)
  set_evicts v on fits = rw (set-eq-store on fits) (store_evicts (body_bytes response.body) v)

  get_stored :
      (d : ResponseCache) (later : ℕ)
      → JsMap.get key d.entries ≡ some (entry_of response now c)
      → (get key later d).0 ≡ (if leb (now + c.ttl_ms) later then none else some response)
  unfolding get
  get_stored d later found = rw (found, get_entry) (ground arith)

  -- A response that was stored in an enabled cache that it fits in is read back until its TTL
  -- has passed since, and no longer.
  pub get-set_lem :
      (later : ℕ)
      → enabled c ≡ true
      → body_bytes response.body ≤ c.max_bytes
      → (get key later (set key response now c)).0
        ≡ (if leb (now + c.ttl_ms) later then none else some response)
  get-set_lem later on fits =
      rw (set-eq-store on fits) (get_stored _ later (unfold store in rw get-set (rw (==_refl key))))
