-- ===== src/RpcKeyRing/Pool/Lists.antt =====
-- src/rpcKeyRing.ts: a key list that is written out is read back.
use arkiv_chain_indexer.Common.{
  ◌≡◌, ◌∙◌, refl, ap, false, some, List, [], ◌∷◌, ◌++◌, map, arith, list_eq, same_list_iff, All,
}
use arkiv_chain_indexer.RpcKeyRing.{Text, is_blank, unseen, has}
use arkiv_chain_indexer.RpcKeyRing.States.{Distinct}
use arkiv_chain_indexer.RpcKeyRing.Pool.{
  is_separator, trim_start, trim_end, trim, before_first, starts_separated, split_fields,
  parse_rpc_key_list,
}

-- A text without white space and commas.
abbrev IsPlain : Text → Type 0
IsPlain [] = Unit
IsPlain (c ∷ text) = (is_separator c ≡ false) × IsPlain text

-- A key that a list can hold.
abbrev pub IsKey : Text → Type 0
IsKey [] = ⊥
IsKey (c ∷ text) = (is_separator c ≡ false) × IsPlain text

-- The keys with a comma between them.
abbrev pub join_keys : List Text → Text
join_keys [] = []
join_keys (key ∷ []) = key
join_keys (key ∷ next ∷ rest) = key ++ 44 ∷ join_keys (next ∷ rest)

trim_start-IsPlain : (text : Text) → IsPlain text → trim_start text ≡ text
unfolding trim_start
trim_start-IsPlain [] h = refl
trim_start-IsPlain (c ∷ text) (h, k) = ground arith

trim_end-IsPlain : (text : Text) → IsPlain text → trim_end text ≡ text
unfolding trim_end
trim_end-IsPlain [] h = refl
trim_end-IsPlain (c ∷ text) (h, k) = ground (arith, trim_end-IsPlain text k)

IsKey-IsPlain : (key : Text) → IsKey key → IsPlain key
IsKey-IsPlain [] h = absurd h
IsKey-IsPlain (c ∷ text) h = h

trim-IsKey : (key : Text) → IsKey key → trim key ≡ key
trim-IsKey key h =
    let plain = IsKey-IsPlain key h in
    ap trim_end (trim_start-IsPlain key plain) ∙ trim_end-IsPlain key plain

map-trim : (keys : List Text) → All IsKey keys → map trim keys ≡ keys
map-trim [] h = refl
map-trim (key ∷ rest) (h, k) =
    ap (λ x. x ∷ map trim rest) (trim-IsKey key h) ∙ ap (λ xs. key ∷ xs) (map-trim rest k)

split_fields-IsPlain : (key : Text) → IsPlain key → split_fields key ≡ key ∷ []
unfolding split_fields
split_fields-IsPlain [] h = refl
split_fields-IsPlain (c ∷ text) (h, k) =
    rw (h, split_fields) (ap (before_first c) (split_fields-IsPlain text k))

split_fields-comma :
    (key rest : Text)
    → IsPlain key
    → starts_separated rest ≡ false
    → split_fields (key ++ 44 ∷ rest) ≡ key ∷ split_fields rest
unfolding split_fields
split_fields-comma [] rest h starts = rw (starts, split_fields) refl
split_fields-comma (c ∷ text) rest (h, k) starts =
    rw (h, split_fields) (ap (before_first c) (split_fields-comma text rest k starts))

join_keys-starts :
    (key : Text) (rest : List Text) → IsKey key → starts_separated (join_keys (key ∷ rest)) ≡ false
join_keys-starts [] rest h = absurd h
join_keys-starts (c ∷ text) [] (h, k) = h
join_keys-starts (c ∷ text) (next ∷ rest) (h, k) = h

split_fields-join_keys :
    (key : Text) (rest : List Text)
    → All IsKey (key ∷ rest)
    → split_fields (join_keys (key ∷ rest)) ≡ key ∷ rest
split_fields-join_keys key [] (h, _) = split_fields-IsPlain key (IsKey-IsPlain key h)
split_fields-join_keys key (next ∷ rest) (h, (k, l)) =
    split_fields-comma key (join_keys (next ∷ rest)) (IsKey-IsPlain key h)
      (join_keys-starts next rest k)
    ∙ ap (λ xs. key ∷ xs) (split_fields-join_keys next rest (k, l))

-- A key that is not among others differs from each.
apart :
    (key : Text) (seen rest : List Text)
    → has key rest ≡ false
    → All (λ k. has k seen ≡ false) rest
    → All (λ k. has k (key ∷ seen) ≡ false) rest
unfolding has
apart key seen [] h k = tt
apart key seen (x ∷ rest) h (k, l) = (
  ground (arith, same_list_iff key x, same_list_iff x key),
  apart key seen rest (ground (arith, same_list_iff key x)) l,
)

unseen_fresh :
    (seen keys : List Text)
    → All IsKey keys
    → Distinct keys
    → All (λ k. has k seen ≡ false) keys
    → unseen seen keys ≡ keys
unfolding unseen
unseen_fresh seen [] h d new = refl
unseen_fresh seen ([] ∷ rest) (h, k) d new = absurd h
unseen_fresh seen ((c ∷ text) ∷ rest) (h, k) (fresh, d) (new, others) =
    rw (new, unseen)
      (ap (λ xs. (c ∷ text) ∷ xs)
        (unseen_fresh ((c ∷ text) ∷ seen) rest k d (apart (c ∷ text) seen rest fresh others)))

none_seen : (keys : List Text) → All (λ k. has k [] ≡ false) keys
unfolding has
none_seen [] = tt
none_seen (k ∷ ks) = (refl, none_seen ks)

is_blank-join_keys :
    (key : Text) (rest : List Text) → IsKey key → is_blank (join_keys (key ∷ rest)) ≡ false
is_blank-join_keys [] rest h = absurd h
is_blank-join_keys (c ∷ text) [] h = refl
is_blank-join_keys (c ∷ text) (next ∷ rest) h = refl

-- Keys without white space and commas, none twice, that are written with commas between them
-- are read back by `parseRpcKeyList`, in their order.
pub parse_rpc_key_list-join_keys :
    (keys : List Text)
    → All IsKey keys
    → Distinct keys
    → parse_rpc_key_list (some (join_keys keys)) ≡ keys
unfolding parse_rpc_key_list
parse_rpc_key_list-join_keys [] h d = refl
parse_rpc_key_list-join_keys (key ∷ rest) (h, k) d =
    let all = key ∷ rest in
    rw (is_blank-join_keys key rest h, parse_rpc_key_list)
      (ap (λ fields. unseen [] (map trim fields)) (split_fields-join_keys key rest (h, k))
        ∙ ap (unseen []) (map-trim all (h, k))
        ∙ unseen_fresh [] all (h, k) d (none_seen all))
