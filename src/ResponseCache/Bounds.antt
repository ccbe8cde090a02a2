-- ===== src/ResponseCache/Bounds.antt =====
-- The three bounds of the response cache: its size, its bytes and the accounting behind them.
pub mod Room
use arkiv_chain_indexer.Common.{
  ℕ, ◌+◌, ◌-◌, ◌≤◌, ◌<◌, ◌≡◌, refl, inl, inr, String, Bool, true, false, Option, none, some, [],
  ◌∷◌, arith, ltb, leb, Bool-cases, Option-cases, length, length-append, drop,
}
use arkiv_chain_indexer.Common.{string_eq}
use arkiv_chain_indexer.Common.JsMap
use arkiv_chain_indexer.Common.JsMap.Laws.{
  ==_refl, Distinct, Distinct-append, length-delete_found, Distinct-delete, delete_absent,
  get-delete, set_absent, size-delete-le, total, total-append, total-delete,
}
use arkiv_chain_indexer.ResponseCache.Bounds.Room.{
  make_room-absent, make_room-counted, make_room-fits, make_room-Distinct,
}
use arkiv_chain_indexer.ResponseCache.{
  CachedResponse, CacheEntry, ResponseCache, Marker, entry_bytes, make_room, store, set, get, load,
  settle, invalidate, clear, new, enabled, body_bytes, after_get, release,
}

pub record IsBounded (c : ResponseCache) : Type 0 where
  pub distinct : Distinct c.entries
  pub counted : c.total_bytes ≡ total (λ (e : CacheEntry). e.bytes) c.entries
  pub few : length c.entries ≤ c.max_entries
  pub small : c.total_bytes ≤ c.max_bytes

pub new-IsBounded : (a b t : Option ℕ) → IsBounded (new a b t)
unfolding new
new-IsBounded a b t = record {
  distinct = tt;
  counted = refl;
  few = omega arith;
  small = omega arith;
}

module _ (key : String) (c : ResponseCache) (v : IsBounded c) where
  -- The bytes left after the entry under `key` is gone.
  pub delete-counted :
      c.total_bytes - entry_bytes (JsMap.get key c.entries)
      ≡ total (λ (e : CacheEntry). e.bytes) (JsMap.delete key c.entries)
  delete-counted = elim (Option-cases (JsMap.get key c.entries)) [
    | inl absent ↦ rw (absent, delete_absent key c.entries absent) (omega (arith, v.counted))
    | inr (e, found) ↦ rw found (
        omega (
          arith,
          v.counted,
          total-delete (λ (e : CacheEntry). e.bytes) key e c.entries found v.distinct,
        ))
  ]

  pub absent : JsMap.get key (JsMap.delete key c.entries) ≡ none
  absent = rw (get-delete key key c.entries, ==_refl key)

  -- Taking an entry out and putting it back at the end keeps the size and the bytes.
  length-touch :
      (e : CacheEntry)
      → JsMap.get key c.entries ≡ some e
      → length (JsMap.delete key c.entries) + 1 ≡ length c.entries
  length-touch e found = length-delete_found key e c.entries found v.distinct

  expire-IsBounded :
      (e : CacheEntry)
      → JsMap.get key c.entries ≡ some e
      → IsBounded (record c {
        entries = JsMap.delete key c.entries;
        total_bytes = c.total_bytes - e.bytes;
        expirations = c.expirations + 1;
      })
  expire-IsBounded e found = record {
    distinct = Distinct-delete key c.entries v.distinct;
    counted = rw found at delete-counted;
    few = omega (arith, v.few, size-delete-le key c.entries);
    small = omega (arith, v.small);
  }

  touch-IsBounded :
      (e : CacheEntry)
      → JsMap.get key c.entries ≡ some e
      → IsBounded (record c { entries = JsMap.set key e (JsMap.delete key c.entries) })
  touch-IsBounded e found = rw (set_absent key e (JsMap.delete key c.entries) absent) (record {
    distinct = Distinct-append key e _ absent (Distinct-delete key c.entries v.distinct);
    counted = omega (
      arith,
      v.counted,
      total-append (λ (e : CacheEntry). e.bytes) (JsMap.delete key c.entries) ((key, e) ∷ []),
      total-delete (λ (e : CacheEntry). e.bytes) key e c.entries found v.distinct,
    );
    few = omega (
      arith,
      v.few,
      length-touch e found,
      length-append (JsMap.delete key c.entries) ((key, e) ∷ []),
    );
    small = v.small;
  })

  pub get-IsBounded : (now : ℕ) → IsBounded (get key now c).1
  unfolding get
  get-IsBounded now = elim (Option-cases (JsMap.get key c.entries)) [
    | inl none_here ↦ rw none_here v
    | inr (e, found) ↦ rw found (elim (Bool-cases (leb e.expires_at now)) [
      | inl old ↦ rw old (expire-IsBounded e found)
      | inr live ↦ rw live (touch-IsBounded e found)
    ])
  ]

  pub store-IsBounded :
      (response : CachedResponse) (bytes now : ℕ)
      → 0 < c.max_entries
      → bytes ≤ c.max_bytes
      → IsBounded (store key response bytes now c)
  unfolding store
  store-IsBounded response bytes now p q =
      let m = JsMap.delete key c.entries in
      let t = c.total_bytes - entry_bytes (JsMap.get key c.entries) in
      let room = make_room c.max_entries c.max_bytes bytes m t c.evictions in
      let e : CacheEntry = record {
        response = response;
        bytes = bytes;
        expires_at = now + c.ttl_ms;
      } in
      let fresh = make_room-absent c.max_entries c.max_bytes bytes key m t c.evictions absent in
      let exact =
        make_room-counted c.max_entries c.max_bytes bytes m t c.evictions delete-counted in
      let fits =
        make_room-fits c.max_entries c.max_bytes bytes m t c.evictions p q delete-counted in
      rw (set_absent key e room.entries fresh) (record {
        distinct = Distinct-append key e room.entries fresh (
            make_room-Distinct c.max_entries c.max_bytes bytes m t c.evictions
              (Distinct-delete key c.entries v.distinct));
        counted =
            omega (
              arith,
              exact,
              total-append (λ (e : CacheEntry). e.bytes) room.entries ((key, e) ∷ []),
            );
        few = omega (arith, fits.0, length-append room.entries ((key, e) ∷ []));
        small = fits.1;
      })

  pub set-IsBounded : (response : CachedResponse) (now : ℕ) → IsBounded (set key response now c)
  unfolding set enabled
  set-IsBounded response now = grind (arith, store-IsBounded, v)

  pub invalidate-IsBounded : IsBounded (invalidate key c)
  unfolding invalidate
  invalidate-IsBounded = record {
    distinct = Distinct-delete key c.entries v.distinct;
    counted = delete-counted;
    few = omega (arith, v.few, size-delete-le key c.entries);
    small = omega (arith, v.small);
  }

module _ (key : String) where
  after_get-IsBounded :
      (r : Option CachedResponse) (c : ResponseCache)
      → IsBounded c
      → IsBounded (after_get key (r, c)).1
  unfolding after_get
  after_get-IsBounded none c v = grind (arith, v)
  after_get-IsBounded (some response) c v = grind (arith, v)

  pub load-IsBounded : (now : ℕ) (c : ResponseCache) → IsBounded c → IsBounded (load key now c).1
  load-IsBounded now c v =
      unfold load in
      after_get-IsBounded (get key now c).0 (get key now c).1 (get-IsBounded key c v now)

pub settle-IsBounded :
    (i : ℕ) (result : Option CachedResponse) (now : ℕ) (c : ResponseCache)
    → IsBounded c
    → IsBounded (settle i result now c)
unfolding settle release
settle-IsBounded i none now c v = grind (arith, v)
settle-IsBounded i (some r) now c v = grind (arith, v, set-IsBounded)

pub clear-IsBounded : (c : ResponseCache) → IsBounded c → IsBounded (clear c)
unfolding clear
clear-IsBounded c v = record {
  distinct = tt;
  counted = refl;
  few = omega arith;
  small = omega arith;
}
