-- ===== src/ResponseCache/Worlds.antt =====
-- The response cache among its callers: the steps of requests, loaders and committed writes in
-- any order. `version key` counts the commits on the key whose notification has arrived, and
-- `content key n` is the response that the database gives after `n` of them. A loader reads the
-- database some time between the start and the end of its load, in a state that has at least the
-- commits of which the server was told.
use arkiv_chain_indexer.Common.{
  ℕ, ◌+◌, ◌≤◌, ◌≡◌, String, Option, none, some, eqb, if◌then◌else◌, ◌==◌,
}
use arkiv_chain_indexer.Common.{string_eq}
use arkiv_chain_indexer.ResponseCache.{
  CachedResponse, Marker, ResponseCache, new, get, load, settle, invalidate, clear,
}

pub record World : Type 0 where
  pub cache : ResponseCache
  pub version : String → ℕ
  pub read : ℕ → Option ℕ

abbrev pub bump : String → (String → ℕ) → String → ℕ
bump key version j = if key == j then version j + 1 else version j

abbrev pub note : ℕ → ℕ → (ℕ → Option ℕ) → ℕ → Option ℕ
note i n read j = if eqb i j then some n else read j

abbrev pub start : Option ℕ → Option ℕ → Option ℕ → World
start max_entries max_bytes ttl_ms = record {
  cache = new max_entries max_bytes ttl_ms;
  version = λ _. 0;
  read = λ _. none;
}

module _ (content : String → ℕ → CachedResponse) where
  pub data Step (w : World) : World → Type 0 where
    request : (key : String) (now : ℕ) → Step w (record w { cache = (load key now w.cache).1 })
    peek : (key : String) (now : ℕ) → Step w (record w { cache = (get key now w.cache).1 })
    reads :
        (i : ℕ) (m : Marker) (n : ℕ)
        → w.cache.markers i ≡ some m
        → w.version m.key ≤ n
        → Step w (record w { read = note i n w.read })
    done :
        (i : ℕ) (m : Marker) (n now : ℕ)
        → w.cache.markers i ≡ some m
        → w.read i ≡ some n
        → Step w (record w { cache = settle i (some (content m.key n)) now w.cache })
    failed : (i now : ℕ) → Step w (record w { cache = settle i none now w.cache })
    commit :
        (key : String)
        → Step w (record w { version = bump key w.version; cache = invalidate key w.cache })
    commit_all : Step w (record w { version = λ key. w.version key + 1; cache = clear w.cache })

  pub data Reach (s : World) : World → Type 0 where
    here : Reach s s
    next : {u v : World} → Reach s u → Step u v → Reach s v
