-- ===== src/RpcKeyRing/Tests.antt =====
-- The key ring on concrete keys.
use arkiv_chain_indexer.Common.{ℕ, ◌≡◌, refl, true, none, some, [], ◌∷◌, get_elem?, arith}
use arkiv_chain_indexer.RpcKeyRing.{
  Text, RpcKeyState, RpcKeyRing, new, next, note_response, lease_for, retire, is_usable_at, find,
  has,
}
use arkiv_chain_indexer.RpcKeyRing.Offers.{next-usable}
use arkiv_chain_indexer.RpcKeyRing.RoundRobin.{Among, offers, next-RoundRobin}
use arkiv_chain_indexer.RpcKeyRing.Leases.{takes, retires, here, after, lease_for-keeps}
use arkiv_chain_indexer.RpcKeyRing.Pool.{parse_rpc_key_list}
use arkiv_chain_indexer.RpcKeyRing.Pool.Lists.{join_keys, parse_rpc_key_list-join_keys}

abbrev one : Text
one = 49 ∷ []

abbrev two : Text
two = 50 ∷ []

-- A ring of two keys; the response headers carry a number or nothing.
abbrev ring : RpcKeyRing ℕ
ring = new (one ∷ two ∷ one ∷ []) none

abbrev quota_body : Text
quota_body = 123 ∷ 81 ∷ 85 ∷ 79 ∷ 84 ∷ 65 ∷ 95 ∷ 69 ∷ 88 ∷ 67 ∷ 69 ∷ 69 ∷ 68 ∷ 69 ∷ 68 ∷ []

-- The ring once the first key has spent its quota.
abbrev spent : RpcKeyRing ℕ
spent = note_response 5 one 429 none quota_body ring

abbrev second : RpcKeyState ℕ
second = record {
  key = two;
  exhausted_at_ms = none;
  cooldown_until_ms = 0;
  uses = 0;
  quota_used_percent = none;
}

next-usable_example :
    (j : ℕ) × (s : RpcKeyState ℕ) × (get_elem? spent.states j ≡ some s)
    × (is_usable_at 7 s ≡ true)
    × ((next 7 spent).0 ≡ some s.key)
unfolding note_response new
next-usable_example = next-usable 7 spent 1 second refl refl

next-RoundRobin_example : Among (some two) (offers (7 ∷ 8 ∷ []) spent)
unfolding note_response new
next-RoundRobin_example =
    next-RoundRobin 7 (7 ∷ 8 ∷ []) spent 1 second refl refl (omega arith, (omega arith, tt))
      (omega arith)

abbrev leased : RpcKeyRing ℕ
leased = (lease_for 3 two ring).1

lease_for-keeps_example :
    lease_for 9 two (retire 5 two (next 4 leased).1) ≡ (some one, retire 5 two (next 4 leased).1)
unfolding new next lease_for retire find
lease_for-keeps_example =
    lease_for-keeps 3 9 two ring (retire 5 two (next 4 leased).1) one refl
      (after (after here (takes 4)) (retires 5 two)) refl

parse_rpc_key_list-join_keys_example :
    parse_rpc_key_list (some (join_keys (one ∷ two ∷ []))) ≡ one ∷ two ∷ []
unfolding has
parse_rpc_key_list-join_keys_example =
    parse_rpc_key_list-join_keys (one ∷ two ∷ []) ((refl, tt), ((refl, tt), tt)) (refl, (refl, tt))
