-- ===== src/ResponseCache/Contract.antt =====
-- What the response cache promises the server.
use arkiv_chain_indexer.Common.{
  ℕ, ◌≤◌, ◌≡◌, ◌∙◌, refl, sym, ap, inl, inr, String, false, Option, none, some, arith, length,
  Bool-cases,
}
use arkiv_chain_indexer.Common.{string_eq}
use arkiv_chain_indexer.Common.JsMap
use arkiv_chain_indexer.Common.JsMap.Laws.{total}
use arkiv_chain_indexer.ResponseCache.{
  CachedResponse, CacheEntry, Marker, ResponseCache, Reply, hit, joined, started, get, set, load,
  settle, invalidate, clear, after_get, release, or_default, default_max_entries, default_max_bytes,
  default_ttl_ms, join_or_start, join_marker, new,
}
use arkiv_chain_indexer.ResponseCache.Lookup.{get-response, get-loads, get-inflight}
use arkiv_chain_indexer.ResponseCache.Worlds.{World, Step, Reach, start}
use arkiv_chain_indexer.ResponseCache.Fresh.{IsFresh, IsCurrent, Reach-IsFresh}
use arkiv_chain_indexer.ResponseCache.Fresh.Loads.{IsTracked}

-- The limits are those of the constructor, whatever happens.
pub record HasLimits (a b t : ℕ) (c : ResponseCache) : Type 0 where
  pub max_entries : c.max_entries ≡ a
  pub max_bytes : c.max_bytes ≡ b
  pub ttl_ms : c.ttl_ms ≡ t

module _ (a b t : ℕ) where
  get-HasLimits :
      (key : String) (now : ℕ) (c : ResponseCache)
      → HasLimits a b t c
      → HasLimits a b t (get key now c).1
  unfolding get
  get-HasLimits key now c h = ground arith

  after_get-HasLimits :
      (key : String) (r : Option CachedResponse) (c : ResponseCache)
      → HasLimits a b t c
      → HasLimits a b t (after_get key (r, c)).1
  unfolding after_get
  after_get-HasLimits key none c h = ground arith
  after_get-HasLimits key (some r) c h = ground arith

  load-HasLimits :
      (key : String) (now : ℕ) (c : ResponseCache)
      → HasLimits a b t c
      → HasLimits a b t (load key now c).1
  unfolding load
  load-HasLimits key now c h =
      after_get-HasLimits key (get key now c).0 (get key now c).1 (get-HasLimits key now c h)

  settle-HasLimits :
      (i : ℕ) (result : Option CachedResponse) (now : ℕ) (c : ResponseCache)
      → HasLimits a b t c
      → HasLimits a b t (settle i result now c)
  unfolding settle release set
  settle-HasLimits i none now c h = ground arith
  settle-HasLimits i (some r) now c h = ground arith

  Step-HasLimits :
      {content : String → ℕ → CachedResponse} {w v : World}
      → HasLimits a b t w.cache
      → Step content w v
      → HasLimits a b t v.cache
  unfolding invalidate clear
  Step-HasLimits {w = w} h (Step.request key now) = load-HasLimits key now w.cache h
  Step-HasLimits {w = w} h (Step.peek key now) = get-HasLimits key now w.cache h
  Step-HasLimits h (Step.reads i m n p q) = h
  Step-HasLimits {w = w} h (Step.done i m n now p q) = settle-HasLimits i _ now w.cache h
  Step-HasLimits {w = w} h (Step.failed i now) = settle-HasLimits i none now w.cache h
  Step-HasLimits h (Step.commit key) = record {
    max_entries = h.max_entries;
    max_bytes = h.max_bytes;
    ttl_ms = h.ttl_ms;
  }
  Step-HasLimits h Step.commit_all = record {
    max_entries = h.max_entries;
    max_bytes = h.max_bytes;
    ttl_ms = h.ttl_ms;
  }

module _ (content : String → ℕ → CachedResponse) (entries? bytes? ttl? : Option ℕ) where
  Reach-HasLimits :
      {w : World}
      → Reach content (start entries? bytes? ttl?) w
      → HasLimits
          (or_default entries? default_max_entries)
          (or_default bytes? default_max_bytes)
          (or_default ttl? default_ttl_ms)
          w.cache
  unfolding new
  Reach-HasLimits Reach.here = record { max_entries = refl; max_bytes = refl; ttl_ms = refl }
  Reach-HasLimits (Reach.next r s) = Step-HasLimits _ _ _ (Reach-HasLimits r) s

  -- Whatever requests, loader results and notifications came in whatever order, the cache holds
  -- no more entries and no more bytes than it was constructed with, and the byte count that it
  -- keeps is the sum over the entries it holds.
  pub Reach-bounds :
      (w : World)
      → Reach content (start entries? bytes? ttl?) w
      → (length w.cache.entries ≤ or_default entries? default_max_entries)
        × (w.cache.total_bytes ≤ or_default bytes? default_max_bytes)
        × (w.cache.total_bytes ≡ total (λ (e : CacheEntry). e.bytes) w.cache.entries)
  Reach-bounds w r =
      let v = (Reach-IsFresh content entries? bytes? ttl? r).bounded in
      let h = Reach-HasLimits r in
      (omega (arith, v.few, h.max_entries), omega (arith, v.small, h.max_bytes), v.counted)

  -- The answer to a request: a response from after every commit on the key of which the cache
  -- was told, or the promise of a load for that key that no commit has made stale, or of a new
  -- load.
  abbrev pub Answers : World → String → Reply → Type 0
  Answers w key (hit r) = IsCurrent content w.version key r
  Answers w key (joined i) =
      (m : Marker) × (w.cache.markers i ≡ some m) × (m.key ≡ key) × (m.stale ≡ false)
  Answers w key (started i) = i ≡ w.cache.next_marker

  join_marker-Answers :
      (w : World) (key : String) (c : ResponseCache) (i : ℕ) (o : Option Marker)
      → c.next_marker ≡ w.cache.next_marker
      → w.cache.markers i ≡ o
      → ((m : Marker) → w.cache.markers i ≡ some m → m.key ≡ key)
      → Answers w key (join_marker key c i o).0
  unfolding join_marker
  join_marker-Answers w key c i none same e own = same
  join_marker-Answers w key c i (some m) same e own = elim (Bool-cases m.stale) [
    | inl old ↦ rw old same
    | inr live ↦ rw live (m, e, own m e, live)
  ]

  join_or_start-Answers :
      (w : World) (key : String) (c : ResponseCache) (o : Option ℕ)
      → IsTracked w.cache
      → c.next_marker ≡ w.cache.next_marker
      → c.markers ≡ w.cache.markers
      → JsMap.get key w.cache.inflight ≡ o
      → Answers w key (join_or_start key c o).0
  unfolding join_or_start
  join_or_start-Answers w key c none t same eq e = same
  join_or_start-Answers w key c (some i) t same eq e =
      join_marker-Answers w key c i (c.markers i) same (ap (λ f. f i) (sym eq))
        (λ m running. t.keyed key i m e running)

  after_get-Answers :
      (w : World) (key : String) (now : ℕ)
      → IsFresh content w
      → (o : Option CachedResponse) → (get key now w.cache).0 ≡ o
      → Answers w key (after_get key (o, (get key now w.cache).1)).0
  unfolding after_get
  after_get-Answers w key now f none e =
      join_or_start-Answers w key (get key now w.cache).1 _ f.tracked (get-loads key now w.cache).1
        (get-loads key now w.cache).0 (ap (JsMap.get key) (sym (get-inflight key now w.cache)))
  after_get-Answers w key now f (some r) e =
      let (x, found, same) = get-response key now w.cache e in
      let (n, recent, from) = f.entries key x found in (n, recent, sym same ∙ from)

  -- Whatever happened before, a request is never answered from before a commit on its key of
  -- which the cache was told, and never made to wait for a load that such a commit made stale.
  pub load-Answers :
      (w : World) (key : String) (now : ℕ)
      → Reach content (start entries? bytes? ttl?) w
      → Answers w key (load key now w.cache).0
  unfolding load
  load-Answers w key now r =
      let f = Reach-IsFresh content entries? bytes? ttl? r in
      after_get-Answers w key now f (get key now w.cache).0 refl
