-- ===== src/RpcKeyRing/Pool.antt =====
-- src/rpcKeyRing.ts: the keys that a service is configured with. `JSON.parse` and the file
-- system are parameters; a text is its UTF-16 code units.
pub mod Lists
use arkiv_chain_indexer.Common.{
  ℕ, zero, suc, ◌+◌, Bool, true, false, ◌&&◌, ◌||◌, Option, none, some, List, [], ◌∷◌, ◌++◌, map,
  Key, ◌==◌, eqb, leb, if◌then◌else◌, list_eq,
}
use arkiv_chain_indexer.Common.JsMap.{JsMap, get}
use arkiv_chain_indexer.Common.Try.{Try, thrown, returned}
use arkiv_chain_indexer.RpcKeyRing.{Text, RpcKeyRing, is_blank, unseen, new}

-- The white space of ECMAScript, `\s`.
abbrev pub is_space : ℕ → Bool
is_space c =
    (leb 9 c && leb c 13)
    || eqb c 32
    || eqb c 160
    || eqb c 0x1680
    || (leb 0x2000 c && leb c 0x200a)
    || eqb c 0x2028
    || eqb c 0x2029
    || eqb c 0x202f
    || eqb c 0x205f
    || eqb c 0x3000
    || eqb c 0xfeff

-- `[\s,]`
abbrev pub is_separator : ℕ → Bool
is_separator c = is_space c || eqb c 44

unfoldable pub trim_start : Text → Text
trim_start [] = []
trim_start (c ∷ text) = let rest = trim_start text in if is_space c then rest else c ∷ text

unfoldable pub trim_end : Text → Text
trim_end [] = []
trim_end (c ∷ text) =
    let rest = trim_end text in if is_space c && is_blank rest then [] else c ∷ rest

abbrev pub trim : Text → Text
trim text = trim_end (trim_start text)

-- A character in front of the first field.
abbrev pub before_first : ℕ → List Text → List Text
before_first c [] = (c ∷ []) ∷ []
before_first c (field ∷ fields) = (c ∷ field) ∷ fields

abbrev pub starts_separated : Text → Bool
starts_separated [] = false
starts_separated (c ∷ _) = is_separator c

-- `value.split(/[\s,]+/)`: a run of separators ends one field.
unfoldable pub split_fields : Text → List Text
split_fields [] = [] ∷ []
split_fields (c ∷ text) =
    let rest = split_fields text in
    if is_separator c
    then (if starts_separated text then rest else [] ∷ rest)
    else before_first c rest

unfoldable pub parse_rpc_key_list : Option Text → List Text
unfolding split_fields trim_start trim_end unseen
parse_rpc_key_list none = []
parse_rpc_key_list (some value) =
    if is_blank value then [] else unseen [] (map trim (split_fields value))

-- What `JSON.parse` gives, as far as it is told apart.
mutual
  pub data Json : Type 0 where
    other : Json
    string : Text → Json
    array : JsonList → Json
    object : JsonFields → Json

  pub data JsonList : Type 0 where
    end : JsonList
    item : Json → JsonList → JsonList

  pub data JsonFields : Type 0 where
    no_more : JsonFields
    field : Text → Json → JsonFields → JsonFields

abbrev pub property : Text → JsonFields → Option Json
property name JsonFields.no_more = none
property name (JsonFields.field key value rest) =
    if key == name then some value else property name rest

-- `parsed.filter((k): k is string => typeof k === "string" && !!k)`
unfoldable pub strings : JsonList → List Text
strings JsonList.end = []
strings (JsonList.item (Json.string text) rest) =
    let others = strings rest in if is_blank text then others else text ∷ others
strings (JsonList.item _ rest) = strings rest

-- `key`
abbrev key_name : Text
key_name = 107 ∷ 101 ∷ 121 ∷ []

-- `keys`
abbrev keys_name : Text
keys_name = 107 ∷ 101 ∷ 121 ∷ 115 ∷ []

-- The text that an entry of `keys` adds to the set; a blank one adds nothing.
abbrev pub entry_key : Json → Text
entry_key (Json.string text) = text
entry_key (Json.object fields) = elim (property key_name fields) [
  | some (Json.string text) ↦ text
  | _ ↦ []
]
entry_key _ = []

abbrev pub entry_keys : JsonList → List Text
entry_keys JsonList.end = []
entry_keys (JsonList.item entry rest) = entry_key entry ∷ entry_keys rest

abbrev pub pool_keys : Json → List Text
pool_keys (Json.array items) = strings items
pool_keys (Json.object fields) = elim (property keys_name fields) [
  | some (Json.array items) ↦ unseen [] (entry_keys items)
  | _ ↦ []
]
pool_keys _ = []

-- The variables of the environment that are read.
pub record Environment : Type 0 where
  pub rpc_key_pool_file : Option Text
  pub scanner_rpc_api_keys : Option Text
  pub scanner_rpc_api_key : Option Text

module _ {E : Type 0} (parse : Text → Try E Json) (read_file : Text → Try E Text) where
  unfoldable pub parse_rpc_key_pool_file : Text → Try E (List Text)
  unfolding strings unseen
  parse_rpc_key_pool_file raw = elim (parse raw) [
    | thrown error ↦ thrown error
    | returned parsed ↦ returned (pool_keys parsed)
  ]

  -- `RPC_KEY_POOL_FILE … could not be read: …`, of the file and of the error caught.
  pub data PoolError : Type 0 where
    could_not_be_read : Text → E → PoolError

  unfoldable pub read_pool : Text → Try PoolError (List Text)
  unfolding parse_rpc_key_pool_file
  read_pool pool_file = elim (read_file pool_file) [
    | thrown error ↦ thrown (could_not_be_read pool_file error)
    | returned raw ↦ elim (parse_rpc_key_pool_file raw) [
      | thrown error ↦ thrown (could_not_be_read pool_file error)
      | returned keys ↦ returned keys
    ]
  ]

  -- `env.RPC_KEY_POOL_FILE?.trim()`, blank where it is not set.
  abbrev pub pool_file_of : Environment → Text
  pool_file_of env = elim env.rpc_key_pool_file [ none ↦ [] | some file ↦ trim file ]

  unfoldable pub load_rpc_key_pool : Environment → Try PoolError (List Text)
  unfolding read_pool parse_rpc_key_list trim_start trim_end
  load_rpc_key_pool env =
      let inline = parse_rpc_key_list env.scanner_rpc_api_keys in
      let single = parse_rpc_key_list env.scanner_rpc_api_key in
      elim (pool_file_of env) [
        | c ∷ file ↦ read_pool (c ∷ file)
        | [] ↦ elim inline [ key ∷ keys ↦ returned (key ∷ keys) | [] ↦ returned single ]
      ]

  -- The ring that the client is given, if there is a key.
  unfoldable pub attach_rpc_key_ring :
      {P : Type 0} → Environment → Try PoolError (Option (RpcKeyRing P))
  unfolding load_rpc_key_pool new
  attach_rpc_key_ring env = elim (load_rpc_key_pool env) [
    | thrown error ↦ thrown error
    | returned [] ↦ returned none
    | returned (key ∷ keys) ↦ returned (some (new (key ∷ keys) none))
  ]
