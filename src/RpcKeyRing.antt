-- ===== src/RpcKeyRing.antt =====
-- src/rpcKeyRing.ts: the class `RpcKeyRing`. The clock is read by the caller, who passes what it
-- shows; the messages to the log are left out.
mod Tests
pub mod Offers
pub mod Pool
pub mod RoundRobin
pub mod States
pub mod Leases
use arkiv_chain_indexer.Common.{
  ℕ, zero, suc, ◌+◌, ◌%◌, ◌≡◌, Bool, true, false, not, ◌&&◌, ◌||◌, Option, none, some, List, [],
  ◌∷◌, map, Key, ◌==◌, ltb, eqb, if◌then◌else◌, length, take, drop, ◌++◌, ◌-◌, get_elem?, list_eq,
}
use arkiv_chain_indexer.Common.JsMap.{JsMap, get, set, delete}

abbrev pub Text : Type 0
Text = List ℕ

pub record RpcKeyState (P : Type 0) : Type 0 where
  pub key : Text
  pub exhausted_at_ms : Option ℕ
  pub cooldown_until_ms : ℕ
  pub uses : ℕ
  pub quota_used_percent : Option P

pub record RpcKeyRing (P : Type 0) : Type 0 where
  pub states : List (RpcKeyState P)
  pub leases : JsMap Text Text
  pub cursor : ℕ
  pub cooldown_ms : ℕ

abbrev pub default_cooldown_ms : ℕ
default_cooldown_ms = 1000

abbrev pub is_none {ℓ} : {A : Type ℓ} → Option A → Bool
is_none none = true
is_none (some _) = false

abbrev pub is_blank : Text → Bool
is_blank [] = true
is_blank (_ ∷ _) = false

unfoldable pub has : Text → List Text → Bool
has key [] = false
has key (seen ∷ rest) = if key == seen then true else has key rest

-- `key && !seen.has(key) && seen.add(key)`
unfoldable pub unseen : List Text → List Text → List Text
unfolding has
unseen seen [] = []
unseen seen (key ∷ rest) =
    let without = unseen seen rest in
    let with_key = unseen (key ∷ seen) rest in
    if is_blank key || has key seen then without else key ∷ with_key

-- `text.includes(part)`
unfoldable pub starts_with : Text → Text → Bool
starts_with [] text = true
starts_with (c ∷ part) [] = false
starts_with (c ∷ part) (d ∷ text) =
    let rest = starts_with part text in if eqb c d then rest else false

unfoldable pub includes : Text → Text → Bool
unfolding starts_with
includes part [] = is_blank part
includes part (c ∷ text) = let rest = includes part text in starts_with part (c ∷ text) || rest

-- `QUOTA_EXCEEDED`
abbrev quota_exceeded : Text
quota_exceeded = 81 ∷ 85 ∷ 79 ∷ 84 ∷ 65 ∷ 95 ∷ 69 ∷ 88 ∷ 67 ∷ 69 ∷ 69 ∷ 68 ∷ 69 ∷ 68 ∷ []

abbrev ellipsis : Text
ellipsis = 8230 ∷ []

unfoldable pub mask_rpc_key : Text → Text
mask_rpc_key key =
    if ltb 12 (length key)
    then take 12 key ++ ellipsis ++ drop (length key - 4) key
    else take 4 key ++ ellipsis

module _ {P : Type 0} where
  new_state : Text → RpcKeyState P
  new_state key = record {
    key = key;
    exhausted_at_ms = none;
    cooldown_until_ms = 0;
    uses = 0;
    quota_used_percent = none;
  }

  -- The constructor.
  unfoldable pub new : List Text → Option ℕ → RpcKeyRing P
  unfolding unseen new_state
  new keys cooldown_ms = record {
    states = map new_state (unseen [] keys);
    leases = [];
    cursor = 0;
    cooldown_ms = elim cooldown_ms [ some ms ↦ ms | none ↦ default_cooldown_ms ];
  }

  abbrev pub size : RpcKeyRing P → ℕ
  size ring = length ring.states

  -- Neither exhausted nor cooling down.
  abbrev pub is_usable_at : ℕ → RpcKeyState P → Bool
  is_usable_at now_ms state =
      is_none state.exhausted_at_ms && not (ltb now_ms state.cooldown_until_ms)

  -- The test of the state at an index.
  unfoldable pub usable_index : ℕ → List (RpcKeyState P) → ℕ → Bool
  usable_index now_ms states i = elim (get_elem? states i) [
    | none ↦ false
    | some state ↦ is_usable_at now_ms state
  ]

  -- The loop over `offset`, with the offsets left: the offset that it stops at.
  unfoldable pub find_offset : ℕ → RpcKeyRing P → ℕ → ℕ → Option ℕ
  unfolding usable_index
  find_offset now_ms ring zero offset = none
  find_offset now_ms ring (suc left) offset =
      let rest = find_offset now_ms ring left (offset + 1) in
      if usable_index now_ms ring.states ((ring.cursor + offset) % size ring)
      then some offset
      else rest

  -- `state.uses += 1` at an index.
  unfoldable pub use_at : ℕ → List (RpcKeyState P) → List (RpcKeyState P)
  use_at i [] = []
  use_at zero (state ∷ rest) = record state { uses = state.uses + 1 } ∷ rest
  use_at (suc i) (state ∷ rest) = state ∷ use_at i rest

  -- The key at an offset, counted as used, with the cursor behind it.
  unfoldable pub offer : ℕ → RpcKeyRing P → Option Text × RpcKeyRing P
  unfolding use_at
  offer offset ring =
      let i = (ring.cursor + offset) % size ring in
      (
        elim (get_elem? ring.states i) [ none ↦ none | some state ↦ some state.key ],
        record ring {
          states = use_at i ring.states;
          cursor = (ring.cursor + offset + 1) % size ring;
        },
      )

  unfoldable pub next : ℕ → RpcKeyRing P → Option Text × RpcKeyRing P
  unfolding find_offset offer
  next now_ms ring =
      if eqb (size ring) 0 then (none, ring) else elim (find_offset now_ms ring (size ring) 0) [
        | some offset ↦ offer offset ring
        | none ↦ offer 0 ring
      ]

  unfoldable pub find : Text → List (RpcKeyState P) → Option (RpcKeyState P)
  find key [] = none
  find key (state ∷ rest) = if state.key == key then some state else find key rest

  -- The state that `find` gives, changed in place.
  unfoldable pub update_found :
      Text → (RpcKeyState P → RpcKeyState P) → List (RpcKeyState P) → List (RpcKeyState P)
  update_found key f [] = []
  update_found key f (state ∷ rest) =
      let after = update_found key f rest in
      if state.key == key then f state ∷ rest else state ∷ after

  -- `state.exhaustedAtMs` is set once.
  unfoldable pub exhaust : ℕ → RpcKeyState P → RpcKeyState P
  exhaust now_ms state = elim state.exhausted_at_ms [
    | none ↦ record state { exhausted_at_ms = some now_ms }
    | some _ ↦ state
  ]

  -- The percentage is what `Number` makes of the header where that is finite.
  unfoldable pub note_percent : Option P → RpcKeyState P → RpcKeyState P
  note_percent none state = state
  note_percent (some percent) state = record state { quota_used_percent = some percent }

  unfoldable pub note_status : ℕ → ℕ → ℕ → Text → RpcKeyState P → RpcKeyState P
  unfolding exhaust includes
  note_status now_ms cooldown_ms status body state =
      if eqb status 401 || eqb status 403
      then exhaust now_ms state
      else if eqb status 429
      then (if includes quota_exceeded body
          then exhaust now_ms state
          else record state { cooldown_until_ms = now_ms + cooldown_ms })
      else state

  unfoldable pub note_response : ℕ → Text → ℕ → Option P → Text → RpcKeyRing P → RpcKeyRing P
  unfolding update_found note_percent note_status
  note_response now_ms key status percent body ring = record ring {
    states =
        update_found key
          (λ state. note_status now_ms ring.cooldown_ms status body (note_percent percent state))
          ring.states;
  }

  -- The key that the owner holds, unless it is exhausted.
  unfoldable pub held : Text → RpcKeyRing P → Option Text
  unfolding find get
  held owner ring = elim (get owner ring.leases) [
    | none ↦ none
    | some current ↦ elim (find current ring.states) [
      | none ↦ none
      | some state ↦ if is_none state.exhausted_at_ms then some current else none
    ]
  ]

  -- `leases.set` or `leases.delete`
  unfoldable pub lease : Text → Option Text × RpcKeyRing P → Option Text × RpcKeyRing P
  unfolding set delete
  lease owner (none, ring) = (none, record ring { leases = delete owner ring.leases })
  lease owner (some key, ring) = (some key, record ring { leases = set owner key ring.leases })

  unfoldable pub lease_for : ℕ → Text → RpcKeyRing P → Option Text × RpcKeyRing P
  unfolding held lease next
  lease_for now_ms owner ring = elim (held owner ring) [
    | some current ↦ (some current, ring)
    | none ↦ lease owner (next now_ms ring)
  ]

  unfoldable pub retire : ℕ → Text → RpcKeyRing P → RpcKeyRing P
  unfolding update_found exhaust
  retire now_ms key ring = record ring { states = update_found key (exhaust now_ms) ring.states }

  abbrev pub count_if : (RpcKeyState P → Bool) → List (RpcKeyState P) → ℕ
  count_if p [] = 0
  count_if p (state ∷ rest) = if p state then suc (count_if p rest) else count_if p rest

  abbrev pub usable_count : RpcKeyRing P → ℕ
  usable_count ring = count_if (λ state. is_none state.exhausted_at_ms) ring.states

  abbrev is_exhausted : RpcKeyState P → Bool
  is_exhausted state = not (is_none state.exhausted_at_ms)

  abbrev is_cooling_down : ℕ → RpcKeyState P → Bool
  is_cooling_down now_ms state = is_none state.exhausted_at_ms && ltb now_ms state.cooldown_until_ms

pub record KeyStats (P : Type 0) : Type 0 where
  pub key : Text
  pub uses : ℕ
  pub quota_used_percent : Option P
  pub exhausted : Bool
  pub cooling_down : Bool

pub record RpcKeyRingStats (P : Type 0) : Type 0 where
  pub total : ℕ
  pub usable : ℕ
  pub exhausted : ℕ
  pub cooling_down : ℕ
  pub keys : List (KeyStats P)

module _ {P : Type 0} where
  unfoldable pub stats : ℕ → RpcKeyRing P → RpcKeyRingStats P
  unfolding mask_rpc_key
  stats now_ms ring = record {
    total = size ring;
    usable = usable_count ring;
    exhausted = count_if is_exhausted ring.states;
    cooling_down = count_if (is_cooling_down now_ms) ring.states;
    keys =
        map
          (λ state. record {
            key = mask_rpc_key state.key;
            uses = state.uses;
            quota_used_percent = state.quota_used_percent;
            exhausted = is_exhausted state;
            cooling_down = is_cooling_down now_ms state;
          })
          ring.states;
  }
