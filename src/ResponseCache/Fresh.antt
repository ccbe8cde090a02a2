-- ===== src/ResponseCache/Fresh.antt =====
-- The cache never answers from before a commit of which it was told.
pub mod Loads
use arkiv_chain_indexer.Common.{
  ℕ, ◌+◌, ◌≤◌, ◌≡◌, ◌∙◌, sym, refl, ◌⊎◌, inl, inr, String, Bool, true, false, Option, none, some,
  arith, eqb, Bool-cases, Option-cases, if◌then◌else◌, ◌==◌,
}
use arkiv_chain_indexer.Common.{string_eq}
use mathlib.Core.Path.{subst}
use arkiv_chain_indexer.Common.JsMap
use arkiv_chain_indexer.Common.JsMap.Laws.{get-delete, ==_refl}
use arkiv_chain_indexer.ResponseCache.{
  CachedResponse, CacheEntry, Marker, ResponseCache, get, load, settle, invalidate, clear,
}
use arkiv_chain_indexer.ResponseCache.Bounds.{
  IsBounded, get-IsBounded, load-IsBounded, settle-IsBounded, invalidate-IsBounded, clear-IsBounded,
  new-IsBounded,
}
use arkiv_chain_indexer.ResponseCache.Lookup.{
  Has, get-Has, get-response, set-Has, load-Has, settle-Has, load-markers, get-loads, new-Has,
  invalidate-Has, clear-Has, settle-markers, settle-next,
}
use arkiv_chain_indexer.ResponseCache.Worlds.{World, bump, note, Step, Reach, start}
use arkiv_chain_indexer.ResponseCache.Fresh.Loads.{
  IsTracked, IsIdle, invalidate-IsTracked, clear-IsTracked, settle-IsTracked, load-IsTracked,
  get-IsTracked, new-IsTracked, invalidate-kept, invalidate-IsIdle, clear-IsIdle,
}

==_sym : (a b : String) → (b == a) ≡ false → (a == b) ≡ false
==_sym a b h = ground (arith, string_eq.is_identity a b, string_eq.is_identity b a)

idle_everywhere : (m : Marker) → (m.key == m.key) ≡ false → ⊥
idle_everywhere m h = cc (h, ==_refl m.key)

module _ (content : String → ℕ → CachedResponse) where
  -- The response is what the database gave after `n` or more of the commits on the key.
  abbrev pub IsCurrent : (String → ℕ) → String → CachedResponse → Type 0
  IsCurrent version key r = (n : ℕ) × (version key ≤ n) × (r ≡ content key n)

  pub record IsFresh (w : World) : Type 0 where
    pub bounded : IsBounded w.cache
    pub tracked : IsTracked w.cache
    pub entries :
        (key : String) (e : CacheEntry) → Has w.cache key e → IsCurrent w.version key e.response
    pub loads :
        (i : ℕ) (m : Marker) (n : ℕ)
        → w.cache.markers i ≡ some m
        → m.stale ≡ false
        → w.read i ≡ some n
        → w.version m.key ≤ n
    pub unread : (i : ℕ) → w.cache.next_marker ≤ i → w.read i ≡ none

  request-IsFresh :
      (w : World) (key : String) (now : ℕ)
      → IsFresh w
      → IsFresh (record w { cache = (load key now w.cache).1 })
  request-IsFresh w key now f = record {
    bounded = load-IsBounded key now w.cache f.bounded;
    tracked = load-IsTracked w.cache f.tracked key now;
    entries = λ k e h. f.entries k e (load-Has key now w.cache k e h);
    loads = λ i m n e live r. elim (load-markers key now w.cache i).0 [
      | inl same ↦ f.loads i m n (sym same ∙ e) live r
      | inr new ↦ absurd (ground (arith, f.unread i))
    ];
    unread = λ i h. f.unread i (omega (arith, (load-markers key now w.cache i).1));
  }

  peek-IsFresh :
      (w : World) (key : String) (now : ℕ)
      → IsFresh w
      → IsFresh (record w { cache = (get key now w.cache).1 })
  peek-IsFresh w key now f = record {
    bounded = get-IsBounded key w.cache f.bounded now;
    tracked = get-IsTracked key w.cache f.tracked now;
    entries = λ k e h. f.entries k e (get-Has key now w.cache k h);
    loads = λ i m n e. f.loads i m n (rw (get-loads key now w.cache).0 at e);
    unread = λ i h. f.unread i (rw (get-loads key now w.cache).1 at h);
  }

  settle-IsFresh :
      (w : World) (i : ℕ) (result : Option CachedResponse) (now : ℕ)
      → ((m : Marker) (r : CachedResponse)
          → w.cache.markers i ≡ some m
          → m.stale ≡ false
          → result ≡ some r
          → IsCurrent w.version m.key r)
      → IsFresh w
      → IsFresh (record w { cache = settle i result now w.cache })
  settle-IsFresh w i result now current f = record {
    bounded = settle-IsBounded i result now w.cache f.bounded;
    tracked = settle-IsTracked w.cache f.tracked i result now;
    entries = λ k e h. elim (settle-Has i result now w.cache k e f.bounded.distinct h) [
      | inl old ↦ f.entries k e old
      | inr (m, running, live, made, key) ↦
          subst (λ x. IsCurrent w.version x e.response) key (current m e.response running live made)
    ];
    loads = λ j m n e. f.loads j m n (settle-markers i result now w.cache j m e);
    unread = λ j h. f.unread j (rw (settle-next i result now w.cache) at h);
  }

  commit-IsFresh :
      (w : World) (key : String)
      → IsFresh w
      → IsFresh (record w { version = bump key w.version; cache = invalidate key w.cache })
  commit-IsFresh w key f = record {
    bounded = invalidate-IsBounded key w.cache f.bounded;
    tracked = invalidate-IsTracked w.cache f.tracked key;
    entries = λ k e h.
        let (old, other) = invalidate-Has key w.cache k e h in
        let (n, recent, same) = f.entries k e old in (n, ground arith, same);
    loads = λ i m n e live r.
        let (m0, e0, k, l) = (invalidate-kept w.cache f.tracked key).kept i m e in
        let idle = invalidate-IsIdle w.cache f.tracked key i m e live in
        let before = f.loads i m0 n e0 (l live) r in
        let other = ==_sym key m.key idle in rw other (rw k at before);
    unread = unfold invalidate in f.unread;
  }

  commit_all-IsFresh :
      (w : World)
      → IsFresh w
      → IsFresh (record w { version = λ key. w.version key + 1; cache = clear w.cache })
  commit_all-IsFresh w f = record {
    bounded = clear-IsBounded w.cache f.bounded;
    tracked = clear-IsTracked w.cache f.tracked;
    entries = λ k e h. absurd (clear-Has w.cache k e h);
    loads = λ i m n e live r.
        absurd (idle_everywhere m (clear-IsIdle w.cache f.tracked m.key i m e live));
    unread = unfold clear in f.unread;
  }

  Step-IsFresh : {w v : World} → IsFresh w → Step content w v → IsFresh v
  Step-IsFresh {w} f (Step.request key now) = request-IsFresh w key now f
  Step-IsFresh {w} f (Step.peek key now) = peek-IsFresh w key now f
  Step-IsFresh {w} f (Step.reads i m n running recent) = record {
    bounded = f.bounded;
    tracked = f.tracked;
    entries = f.entries;
    loads = λ j x k e live r. ground (arith, f.loads j x k e live);
    unread = λ j h. ground (arith, f.unread j h, f.tracked.bounded j h);
  }
  Step-IsFresh {w} f (Step.done i m n now running r) =
      settle-IsFresh w i (some (content m.key n)) now
        (λ x y running' live made. (n, ground (arith, f.loads i m n running), ground arith)) f
  Step-IsFresh {w} f (Step.failed i now) =
      settle-IsFresh w i none now (λ x y running live made. cc) f
  Step-IsFresh {w} f (Step.commit key) = commit-IsFresh w key f
  Step-IsFresh {w} f Step.commit_all = commit_all-IsFresh w f

  start-IsFresh : (a b t : Option ℕ) → IsFresh (start a b t)
  start-IsFresh a b t = record {
    bounded = new-IsBounded a b t;
    tracked = new-IsTracked a b t;
    entries = λ k e h. absurd (new-Has a b t k e h);
    loads = λ i m n e live r. cc;
    unread = λ i h. refl;
  }

  pub Reach-IsFresh : (a b t : Option ℕ) {w : World} → Reach content (start a b t) w → IsFresh w
  Reach-IsFresh a b t Reach.here = start-IsFresh a b t
  Reach-IsFresh a b t (Reach.next r s) = Step-IsFresh (Reach-IsFresh a b t r) s
