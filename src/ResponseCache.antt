-- ===== src/ResponseCache.antt =====
-- src/responseCache.ts: the bounded cache of serialized HTTP responses.
-- `this.now()` is the argument `now` of the operations that read the clock. A load in flight is
-- the closure that `load` starts: its key and the `stale` flag of its marker. The closures are
-- kept by number, which stands for the identity of the marker object that `inflight` refers to.
pub mod Bounds
pub mod Worlds
pub mod Lookup
pub mod Fresh
pub mod Contract
pub mod Recency
mod Examples
use arkiv_chain_indexer.Common.{
  ℕ, zero, suc, ◌+◌, ◌-◌, ◌*◌, String, Bool, true, false, not, ◌&&◌, ◌||◌, Option, none, some, List,
  [], ◌∷◌, ◌++◌, ltb, leb, eqb, if◌then◌else◌, length,
}
use arkiv_chain_indexer.Common.{string_eq}
use arkiv_chain_indexer.Common.JsMap
use arkiv_chain_indexer.Common.JsMap.{JsMap, values}

-- A text is its UTF-16 code units, a compressed body its bytes.
pub data Body : Type 0 where
  text : List ℕ → Body
  binary : List ℕ → Body

pub record CachedResponse : Type 0 where
  pub status : ℕ
  pub body : Body
  pub headers : Option (JsMap String String)

pub record CacheEntry : Type 0 where
  pub response : CachedResponse
  pub bytes : ℕ
  pub expires_at : ℕ

pub record Marker : Type 0 where
  pub key : String
  pub stale : Bool

pub record ResponseCache : Type 0 where
  pub max_entries : ℕ
  pub max_bytes : ℕ
  pub ttl_ms : ℕ
  pub entries : JsMap String CacheEntry
  pub inflight : JsMap String ℕ
  pub markers : ℕ → Option Marker
  pub next_marker : ℕ
  pub total_bytes : ℕ
  pub hits : ℕ
  pub misses : ℕ
  pub coalesced : ℕ
  pub invalidations : ℕ
  pub evictions : ℕ
  pub expirations : ℕ

abbrev pub default_max_entries : ℕ
default_max_entries = 10_000

abbrev pub default_max_bytes : ℕ
default_max_bytes = 64 * 1024 * 1024

abbrev pub default_ttl_ms : ℕ
default_ttl_ms = 5 * 60 * 1000

-- `??`
abbrev or_default : Option ℕ → ℕ → ℕ
or_default none d = d
or_default (some n) d = n

-- The constructor; an option that is left out takes its default.
unfoldable pub new : Option ℕ → Option ℕ → Option ℕ → ResponseCache
new max_entries max_bytes ttl_ms = record {
  max_entries = or_default max_entries default_max_entries;
  max_bytes = or_default max_bytes default_max_bytes;
  ttl_ms = or_default ttl_ms default_ttl_ms;
  entries = [];
  inflight = [];
  markers = λ _. none;
  next_marker = 0;
  total_bytes = 0;
  hits = 0;
  misses = 0;
  coalesced = 0;
  invalidations = 0;
  evictions = 0;
  expirations = 0;
}

unfoldable pub body_bytes : Body → ℕ
body_bytes (text units) = length units
body_bytes (binary bytes) = length bytes

unfoldable pub enabled : ResponseCache → Bool
enabled c = ltb 0 c.max_entries && ltb 0 c.max_bytes && ltb 0 c.ttl_ms

-- What `get` does with the entry that it finds: an expired one is dropped, another is moved to
-- the end, the most recent place.
get_entry : String → ℕ → ResponseCache → Option CacheEntry → Option CachedResponse × ResponseCache
get_entry key now c none = (none, c)
get_entry key now c (some entry) =
    if leb entry.expires_at now
    then (
      none,
      record c {
        entries = JsMap.delete key c.entries;
        total_bytes = c.total_bytes - entry.bytes;
        expirations = c.expirations + 1;
      },
    )
    else (
      some entry.response,
      record c { entries = JsMap.set key entry (JsMap.delete key c.entries) },
    )

unfoldable pub get : String → ℕ → ResponseCache → Option CachedResponse × ResponseCache
unfolding get_entry
get key now c = get_entry key now c (JsMap.get key c.entries)

-- The state of the eviction loop.
pub record Room : Type 0 where
  pub entries : JsMap String CacheEntry
  pub total_bytes : ℕ
  pub evictions : ℕ

-- The loop of `set`. The keys of a `Map` are distinct, so deleting the first key drops the head.
unfoldable pub make_room : ℕ → ℕ → ℕ → JsMap String CacheEntry → ℕ → ℕ → Room
make_room max_entries max_bytes bytes [] total evictions = record {
  entries = [];
  total_bytes = total;
  evictions = evictions;
}
make_room max_entries max_bytes bytes ((k, evicted) ∷ rest) total evictions =
    let further =
      make_room max_entries max_bytes bytes rest (total - evicted.bytes) (evictions + 1) in
    if leb max_entries (length ((k, evicted) ∷ rest)) || ltb max_bytes (total + bytes)
    then further
    else record { entries = (k, evicted) ∷ rest; total_bytes = total; evictions = evictions }

-- The bytes of an entry that `set` replaces.
abbrev pub entry_bytes : Option CacheEntry → ℕ
entry_bytes none = 0
entry_bytes (some entry) = entry.bytes

-- The entry that `set` stores, after room was made for it.
unfoldable pub store : String → CachedResponse → ℕ → ℕ → ResponseCache → ResponseCache
unfolding make_room
store key response bytes now c =
    let room =
      make_room c.max_entries c.max_bytes bytes (JsMap.delete key c.entries)
        (c.total_bytes - entry_bytes (JsMap.get key c.entries)) c.evictions in
    record c {
      entries =
          JsMap.set key (record { response = response; bytes = bytes; expires_at = now + c.ttl_ms })
            room.entries;
      total_bytes = room.total_bytes + bytes;
      evictions = room.evictions;
    }

unfoldable pub set : String → CachedResponse → ℕ → ResponseCache → ResponseCache
unfolding body_bytes store
set key response now c =
    if not (enabled c)
    then c
    else if ltb c.max_bytes (body_bytes response.body)
    then c
    else store key response (body_bytes response.body) now c

-- What a caller of `load` gets: a cached response, or the promise of a load.
pub data Reply : Type 0 where
  hit : CachedResponse → Reply
  joined : ℕ → Reply
  started : ℕ → Reply

abbrev pub update : (ℕ → Option Marker) → ℕ → Option Marker → ℕ → Option Marker
update f i m j = if eqb i j then m else f j

-- `load` up to its first `await`: a new load is registered under the key.
start : String → ResponseCache → Reply × ResponseCache
start key c = (
  started c.next_marker,
  record c {
    misses = c.misses + 1;
    markers = update c.markers c.next_marker (some (record { key = key; stale = false }));
    next_marker = c.next_marker + 1;
    inflight = JsMap.set key c.next_marker c.inflight;
  },
)

-- A running load is shared unless it is stale.
join_marker : String → ResponseCache → ℕ → Option Marker → Reply × ResponseCache
unfolding start
join_marker key c i none = start key c
join_marker key c i (some m) =
    if m.stale then start key c else (joined i, record c { coalesced = c.coalesced + 1 })

join_or_start : String → ResponseCache → Option ℕ → Reply × ResponseCache
unfolding start join_marker
join_or_start key c none = start key c
join_or_start key c (some i) = join_marker key c i (c.markers i)

after_get : String → Option CachedResponse × ResponseCache → Reply × ResponseCache
unfolding join_or_start
after_get key (some response, c) = (hit response, record c { hits = c.hits + 1 })
after_get key (none, c) = join_or_start key c (JsMap.get key c.inflight)

unfoldable pub load : String → ℕ → ResponseCache → Reply × ResponseCache
unfolding after_get
load key now c = after_get key (get key now c)

-- The `finally` block: the key is freed only by the load that `inflight` refers to.
unfoldable pub release : ℕ → String → ResponseCache → ResponseCache
release i key c = elim (JsMap.get key c.inflight) [
  | none ↦ c
  | some j ↦ if eqb j i then record c { inflight = JsMap.delete key c.inflight } else c
]

-- The end of a load: its loader returned a response, or (`none`) it was rejected.
store_fresh : Marker → Option CachedResponse → ℕ → ResponseCache → ResponseCache
store_fresh m none now c = c
store_fresh m (some response) now c = if m.stale then c else set m.key response now c

settle_marker : ℕ → Option CachedResponse → ℕ → ResponseCache → Option Marker → ResponseCache
unfolding store_fresh
settle_marker i result now c none = c
settle_marker i result now c (some m) =
    release i m.key (record (store_fresh m result now c) { markers = update c.markers i none })

unfoldable pub settle : ℕ → Option CachedResponse → ℕ → ResponseCache → ResponseCache
unfolding settle_marker
settle i result now c = settle_marker i result now c (c.markers i)

abbrev pub poison : Option Marker → Option Marker
poison none = none
poison (some m) = some (record m { stale = true })

-- The load that `inflight` has for the key becomes stale.
abbrev pub poison_at : Option ℕ → (ℕ → Option Marker) → ℕ → Option Marker
poison_at none f = f
poison_at (some i) f = update f i (poison (f i))

unfoldable pub invalidate : String → ResponseCache → ResponseCache
invalidate key c = record c {
  invalidations = c.invalidations + 1;
  entries = JsMap.delete key c.entries;
  total_bytes = c.total_bytes - entry_bytes (JsMap.get key c.entries);
  markers = poison_at (JsMap.get key c.inflight) c.markers;
}

unfoldable pub poison_all : List ℕ → (ℕ → Option Marker) → ℕ → Option Marker
poison_all [] f = f
poison_all (i ∷ rest) f = poison_all rest (update f i (poison (f i)))

unfoldable pub clear : ResponseCache → ResponseCache
unfolding poison_all
clear c = record c {
  entries = [];
  total_bytes = 0;
  markers = poison_all (values c.inflight) c.markers;
}

pub record ResponseCacheStats : Type 0 where
  pub entries : ℕ
  pub bytes : ℕ
  pub hits : ℕ
  pub misses : ℕ
  pub coalesced : ℕ
  pub invalidations : ℕ
  pub evictions : ℕ
  pub expirations : ℕ

unfoldable pub stats : ResponseCache → ResponseCacheStats
stats c = record {
  entries = length c.entries;
  bytes = c.total_bytes;
  hits = c.hits;
  misses = c.misses;
  coalesced = c.coalesced;
  invalidations = c.invalidations;
  evictions = c.evictions;
  expirations = c.expirations;
}
