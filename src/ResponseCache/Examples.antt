-- ===== src/ResponseCache/Examples.antt =====
-- The response cache on concrete worlds.
use arkiv_chain_indexer.Common.{
  ℕ, ◌≤◌, ◌≡◌, refl, drop, ◌++◌, ◌+◌, String, Bool, false, Option, none, some, List, [], ◌∷◌, arith,
  length, leb, if◌then◌else◌, string_eq,
}
use arkiv_chain_indexer.ResponseCache.Bounds.{IsBounded, set-IsBounded, new-IsBounded}
use arkiv_chain_indexer.ResponseCache.{enabled, body_bytes}
use arkiv_chain_indexer.Common.JsMap.Laws.{total}
use arkiv_chain_indexer.ResponseCache.{
  CachedResponse, CacheEntry, text, Marker, ResponseCache, new, get, load, set, settle, invalidate,
}
use arkiv_chain_indexer.ResponseCache.Worlds.{World, Step, Reach, start, bump, note}
use arkiv_chain_indexer.ResponseCache.Recency.{EachNeeded, entry_of, set_evicts, get-set_lem}
use arkiv_chain_indexer.Common.JsMap
use arkiv_chain_indexer.ResponseCache.Contract.{Answers, Reach-bounds, load-Answers}

abbrev page : String → ℕ → CachedResponse
page key n = record { status = 200; body = text (n ∷ n ∷ []); headers = none }

abbrev empty : World
empty = start (some 2) (some 100) (some 50)

abbrev requested : World
requested = record empty { cache = (load "a" 1 empty.cache).1 }

abbrev running : Marker
running = record { key = "a"; stale = false }

abbrev read : World
read = record requested { read = note 0 0 requested.read }

abbrev stored : World
stored = record read { cache = settle 0 (some (page "a" 0)) 5 read.cache }

abbrev committed : World
committed = record stored { version = bump "a" stored.version; cache = invalidate "a" stored.cache }

stored-Reach : Reach page empty stored
unfolding load settle new get arkiv_chain_indexer.Common.JsMap.get
stored-Reach =
    Reach.next
      (Reach.next (Reach.next Reach.here (Step.request "a" 1))
        (Step.reads 0 running 0 refl (omega arith)))
      (Step.done 0 running 0 5 refl refl)

committed-Reach : Reach page empty committed
committed-Reach = Reach.next stored-Reach (Step.commit "a")

Reach-bounds_example :
    (length stored.cache.entries ≤ 2)
    × (stored.cache.total_bytes ≤ 100)
    × (stored.cache.total_bytes ≡ total (λ (e : CacheEntry). e.bytes) stored.cache.entries)
Reach-bounds_example = Reach-bounds page (some 2) (some 100) (some 50) stored stored-Reach

load-Answers_example :
    Answers page (some 2) (some 100) (some 50) stored "a" (load "a" 7 stored.cache).0
load-Answers_example = load-Answers page (some 2) (some 100) (some 50) stored "a" 7 stored-Reach

abbrev small : ResponseCache
small = (start (some 1) (some 100) (some 50)).cache

full_IsBounded : IsBounded (set "a" (page "a" 0) 5 small)
full_IsBounded =
    set-IsBounded "a" small (new-IsBounded (some 1) (some 100) (some 50)) (page "a" 0) 5

set_evicts_example :
    (k : ℕ) × ((set "b" (page "b" 0) 6 (set "a" (page "a" 0) 5 small)).entries
      ≡ drop k (JsMap.delete "b" (set "a" (page "a" 0) 5 small).entries)
        ++ ("b", entry_of (page "b" 0) 6 (set "a" (page "a" 0) 5 small)) ∷ [])
    × ((set "b" (page "b" 0) 6 (set "a" (page "a" 0) 5 small)).evictions
        ≡ (set "a" (page "a" 0) 5 small).evictions + k)
    × EachNeeded
        (set "a" (page "a" 0) 5 small)
        2
        k
        (JsMap.delete "b" (set "a" (page "a" 0) 5 small).entries)
unfolding set new enabled body_bytes
set_evicts_example =
    set_evicts "b" (page "b" 0) 6 (set "a" (page "a" 0) 5 small) full_IsBounded refl (omega arith)

get-set_lem_example : (get "a" 54 (set "a" (page "a" 0) 5 small)).0 ≡ some (page "a" 0)
unfolding set new get enabled body_bytes
get-set_lem_example = get-set_lem "a" (page "a" 0) 5 small 54 refl (omega arith)
