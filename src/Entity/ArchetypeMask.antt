-- ===== src/Entity/ArchetypeMask.antt =====
-- ecsdb/src/entity/archetype.rs: the 64-bit `ArchetypeMask`. The mask is its number; setting,
-- clearing and testing one bit are written out on the binary digits. The source asserts table IDs
-- below 64 in debug builds only; without these checks a shift by `table_id` uses it modulo 64.
pub mod Bits
use rodengine.Common.{ℕ, zero, suc, ◌+◌, ◌*◌, ◌/◌, ◌%◌, Bool, ◌==◌, if◌then◌else◌}

-- `mask | (1 << bit)`
unfoldable pub set_bit : ℕ → ℕ → ℕ
set_bit mask zero = if mask % 2 == 0 then mask + 1 else mask
set_bit mask (suc bit) = set_bit (mask / 2) bit * 2 + mask % 2

-- `mask & !(1 << bit)`
unfoldable pub clear_bit : ℕ → ℕ → ℕ
clear_bit mask zero = mask / 2 * 2
clear_bit mask (suc bit) = clear_bit (mask / 2) bit * 2 + mask % 2

-- `(mask & (1 << bit)) != 0`
unfoldable pub test_bit : ℕ → ℕ → Bool
test_bit mask zero = mask % 2 == 1
test_bit mask (suc bit) = test_bit (mask / 2) bit

abbrev pub empty : ℕ
empty = 0

unfoldable pub with_component : ℕ → ℕ
with_component table_id = set_bit 0 (table_id % 64)

unfoldable pub add_component : ℕ → ℕ → ℕ
add_component mask table_id = set_bit mask (table_id % 64)

unfoldable pub remove_component : ℕ → ℕ → ℕ
remove_component mask table_id = clear_bit mask (table_id % 64)

unfoldable pub contains : ℕ → ℕ → Bool
contains mask table_id = test_bit mask (table_id % 64)
