-- ===== src/ResponseCache/Lookup.antt =====
-- What a lookup finds after each operation of the response cache.
use arkiv_chain_indexer.Common.{
  ℕ, ◌+◌, ◌-◌, ◌≤◌, ◌≡◌, ◌∙◌, ap, refl, ◌⊎◌, inl, inr, String, false, Option, none, some, arith,
  ◌==◌,
}
use arkiv_chain_indexer.Common.{string_eq}
use arkiv_chain_indexer.Common.JsMap
use arkiv_chain_indexer.Common.JsMap.Laws.{Distinct, Distinct-delete, get-delete, get-set}
use arkiv_chain_indexer.ResponseCache.{
  body_bytes, CachedResponse, CacheEntry, ResponseCache, entry_bytes, make_room, Marker, store, set,
  get, get_entry, enabled, new, clear, invalidate, load, after_get, settle, settle_marker, release,
  store_fresh,
}
use arkiv_chain_indexer.ResponseCache.Bounds.Room.{make_room-found}

abbrev pub Has : ResponseCache → String → CacheEntry → Type 0
Has c key e = JsMap.get key c.entries ≡ some e

module _ (key : String) (now : ℕ) (c : ResponseCache) where
  get_entry-Has :
      (o : Option CacheEntry) (j : String) {e : CacheEntry}
      → JsMap.get key c.entries ≡ o
      → Has (get_entry key now c o).1 j e
      → Has c j e
  unfolding get_entry
  get_entry-Has none j found h = h
  get_entry-Has (some x) j found h = ground (
    arith,
    get-delete key j c.entries,
    get-set key j x (JsMap.delete key c.entries),
    string_eq.is_identity key j,
  )

  -- A read finds only what was there, also after it.
  pub get-Has : (j : String) {e : CacheEntry} → Has (get key now c).1 j e → Has c j e
  unfolding get
  get-Has j h = get_entry-Has (JsMap.get key c.entries) j refl h

  get_entry-response :
      (o : Option CacheEntry) {r : CachedResponse}
      → (get_entry key now c o).0 ≡ some r
      → (e : CacheEntry) × (o ≡ some e) × (e.response ≡ r)
  unfolding get_entry
  get_entry-response none h = cc
  get_entry-response (some e) h = (e, refl, ground arith)

  -- What a read answers is the response of an entry.
  pub get-response :
      {r : CachedResponse}
      → (get key now c).0 ≡ some r
      → (e : CacheEntry) × Has c key e × (e.response ≡ r)
  unfolding get
  get-response h = get_entry-response (JsMap.get key c.entries) h

  store-Has :
      (response : CachedResponse) (bytes : ℕ) (j : String) (e : CacheEntry)
      → Distinct c.entries
      → Has (store key response bytes now c) j e
      → ((key ≡ j) × (e.response ≡ response)) ⊎ Has c j e
  unfolding store
  store-Has response bytes j e d h =
      let m = JsMap.delete key c.entries in
      let t = c.total_bytes - entry_bytes (JsMap.get key c.entries) in
      let room = make_room c.max_entries c.max_bytes bytes m t c.evictions in
      let x : CacheEntry = record {
        response = response;
        bytes = bytes;
        expires_at = now + c.ttl_ms;
      } in
      ground (
        arith,
        get-set key j x room.entries,
        string_eq.is_identity key j,
        get-delete key j c.entries,
        make_room-found c.max_entries c.max_bytes bytes j m t c.evictions e
            (Distinct-delete key c.entries d),
      )

  -- After a `set` a lookup finds the new response under its key, and otherwise what was there.
  pub set-Has :
      (response : CachedResponse) (j : String) (e : CacheEntry)
      → Distinct c.entries
      → Has (set key response now c) j e
      → ((key ≡ j) × (e.response ≡ response)) ⊎ Has c j e
  unfolding set enabled
  set-Has response j e d h = ground (arith, store-Has response (body_bytes response.body) j e d)

after_get-Has :
    (key : String) (r : Option CachedResponse) (c : ResponseCache) (j : String) (e : CacheEntry)
    → Has (after_get key (r, c)).1 j e
    → Has c j e
unfolding after_get
after_get-Has key none c j e h = ground arith
after_get-Has key (some response) c j e h = h

pub load-Has :
    (key : String) (now : ℕ) (c : ResponseCache) (j : String) (e : CacheEntry)
    → Has (load key now c).1 j e
    → Has c j e
unfolding load
load-Has key now c j e h =
    get-Has key now c j (after_get-Has key (get key now c).0 (get key now c).1 j e h)

pub get-loads :
    (key : String) (now : ℕ) (c : ResponseCache)
    → ((get key now c).1.markers ≡ c.markers) × ((get key now c).1.next_marker ≡ c.next_marker)
unfolding get
get-loads key now c = ground arith

pub get-inflight :
    (key : String) (now : ℕ) (c : ResponseCache) → (get key now c).1.inflight ≡ c.inflight
unfolding get
get-inflight key now c = ground arith

after_get-markers :
    (key : String) (r : Option CachedResponse) (c : ResponseCache) (i : ℕ)
    → (((after_get key (r, c)).1.markers i ≡ c.markers i) ⊎ (i ≡ c.next_marker))
      × (c.next_marker ≤ (after_get key (r, c)).1.next_marker)
unfolding after_get
after_get-markers key none c i = ground arith
after_get-markers key (some response) c i = (inl refl, omega arith)

-- A load that runs after `load` ran before it, or is the one that was started.
pub load-markers :
    (key : String) (now : ℕ) (c : ResponseCache) (i : ℕ)
    → (((load key now c).1.markers i ≡ c.markers i) ⊎ (i ≡ c.next_marker))
      × (c.next_marker ≤ (load key now c).1.next_marker)
unfolding load
load-markers key now c i =
    let (same, next) = get-loads key now c in
    let (either, more) = after_get-markers key (get key now c).0 (get key now c).1 i in
    (
      elim either [ inl e ↦ inl (e ∙ ap (λ f. f i) same) | inr e ↦ inr (e ∙ next) ],
      omega (arith, more, next),
    )

-- What `settle` stored, if it stored anything.
abbrev pub Stored : ℕ → Option CachedResponse → ResponseCache → String → CacheEntry → Type 0
Stored i result c j e =
    (m : Marker) × (c.markers i ≡ some m)
    × (m.stale ≡ false)
    × (result ≡ some e.response)
    × (m.key ≡ j)

release-Has :
    (i : ℕ) (key : String) (c : ResponseCache) (j : String) (e : CacheEntry)
    → Has (release i key c) j e
    → Has c j e
unfolding release
release-Has i key c j e h = ground arith

store_fresh-Has :
    (m : Marker) (result : Option CachedResponse) (now : ℕ) (c : ResponseCache) (j : String)
    (e : CacheEntry)
    → Distinct c.entries
    → Has (store_fresh m result now c) j e
    → Has c j e ⊎ ((m.stale ≡ false) × (result ≡ some e.response) × (m.key ≡ j))
unfolding store_fresh
store_fresh-Has m none now c j e d h = inl h
store_fresh-Has m (some r) now c j e d h = ground (arith, set-Has m.key now c r j e d)

settle_marker-Has :
    (i : ℕ) (result : Option CachedResponse) (now : ℕ) (c : ResponseCache) (o : Option Marker)
    (j : String) (e : CacheEntry)
    → Distinct c.entries
    → c.markers i ≡ o
    → Has (settle_marker i result now c o) j e
    → Has c j e ⊎ Stored i result c j e
unfolding settle_marker
settle_marker-Has i result now c none j e d o h = inl h
settle_marker-Has i result now c (some m) j e d o h =
    elim (store_fresh-Has m result now c j e d (release-Has i m.key _ j e h)) [
      | inl old ↦ inl old
      | inr (live, made, key) ↦ inr (m, o, live, made, key)
    ]

-- A lookup after the end of a load finds what was there before, or the response of that load.
pub settle-Has :
    (i : ℕ) (result : Option CachedResponse) (now : ℕ) (c : ResponseCache) (j : String)
    (e : CacheEntry)
    → Distinct c.entries
    → Has (settle i result now c) j e
    → Has c j e ⊎ Stored i result c j e
unfolding settle
settle-Has i result now c j e d h = settle_marker-Has i result now c (c.markers i) j e d refl h

settle_marker-markers :
    (i : ℕ) (result : Option CachedResponse) (now : ℕ) (c : ResponseCache) (o : Option Marker)
    (j : ℕ) (m : Marker)
    → (settle_marker i result now c o).markers j ≡ some m
    → c.markers j ≡ some m
unfolding settle_marker release
settle_marker-markers i result now c none j m h = h
settle_marker-markers i result now c (some x) j m h = ground arith

settle_marker-next :
    (i : ℕ) (result : Option CachedResponse) (now : ℕ) (c : ResponseCache) (o : Option Marker)
    → (settle_marker i result now c o).next_marker ≡ c.next_marker
unfolding settle_marker release set enabled
settle_marker-next i result now c none = refl
settle_marker-next i none now c (some x) = ground arith
settle_marker-next i (some r) now c (some x) = ground arith

-- The end of a load starts no load.
pub settle-markers :
    (i : ℕ) (result : Option CachedResponse) (now : ℕ) (c : ResponseCache) (j : ℕ) (m : Marker)
    → (settle i result now c).markers j ≡ some m
    → c.markers j ≡ some m
unfolding settle
settle-markers i result now c j m h = settle_marker-markers i result now c (c.markers i) j m h

pub settle-next :
    (i : ℕ) (result : Option CachedResponse) (now : ℕ) (c : ResponseCache)
    → (settle i result now c).next_marker ≡ c.next_marker
unfolding settle
settle-next i result now c = settle_marker-next i result now c (c.markers i)

pub new-Has : (a b t : Option ℕ) (j : String) (e : CacheEntry) → Has (new a b t) j e → ⊥
unfolding new JsMap.get
new-Has a b t j e h = cc

pub clear-Has : (c : ResponseCache) (j : String) (e : CacheEntry) → Has (clear c) j e → ⊥
unfolding clear JsMap.get
clear-Has c j e h = cc

-- An invalidation drops its key and nothing else.
pub invalidate-Has :
    (key : String) (c : ResponseCache) (j : String) (e : CacheEntry)
    → Has (invalidate key c) j e
    → Has c j e × ((key == j) ≡ false)
unfolding invalidate
invalidate-Has key c j e h = ground (arith, get-delete key j c.entries)
