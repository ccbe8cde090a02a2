-- ===== src/EntityValues.antt =====
-- src/entityValues.ts: the attribute types, their numbers and their bounds.
use arkiv_chain_indexer.Common.{ℕ, ◌-◌, ◌^◌, Bool, true, false}

pub data AttributeTypeTag : Type 0 where
  bool i32 u64 u256 dec bytes32 bytes str addr key : AttributeTypeTag

abbrev pub decimal_scale : ℕ
decimal_scale = 18

abbrev pub u64_max : ℕ
u64_max = 2 ^ 64 - 1

abbrev pub u256_max : ℕ
u256_max = 2 ^ 256 - 1

abbrev pub i256_max : ℕ
i256_max = 2 ^ 255 - 1

-- The magnitude of `I256_MIN`.
abbrev pub i256_min_magnitude : ℕ
i256_min_magnitude = 2 ^ 255

abbrev pub i32_max : ℕ
i32_max = 2_147_483_647

unfoldable pub is_ordered_type : AttributeTypeTag → Bool
is_ordered_type i32 = true
is_ordered_type u64 = true
is_ordered_type u256 = true
is_ordered_type dec = true
is_ordered_type _ = false

-- `TYPE_IDS`
abbrev pub type_id : AttributeTypeTag → ℕ
type_id bool = 1
type_id i32 = 2
type_id u64 = 3
type_id u256 = 4
type_id dec = 5
type_id bytes32 = 6
type_id bytes = 7
type_id str = 8
type_id addr = 9
type_id key = 10
