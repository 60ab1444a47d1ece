-- ===== src/Entity/ArchetypeMask/Bits.antt =====
-- The bits of an archetype mask.
use rodengine.Common.{
  ℕ, zero, suc, ◌+◌, ◌*◌, ◌/◌, ◌%◌, ◌≡◌, ap, ◌||◌, ◌&&◌, not, arith, ◌==◌, if◌then◌else◌,
}
use rodengine.Entity.ArchetypeMask.{
  set_bit, clear_bit, test_bit, add_component, remove_component, contains,
}

half_set : (m : ℕ) → (if m % 2 == 0 then m + 1 else m) / 2 ≡ m / 2
half_set m = ground arith

half_double : (m : ℕ) → m / 2 * 2 / 2 ≡ m / 2
half_double m = omega arith

half_digits : (x m : ℕ) → (x * 2 + m % 2) / 2 ≡ x
half_digits x m = omega arith

parity_digits : (x m : ℕ) → (x * 2 + m % 2) % 2 ≡ m % 2
parity_digits x m = omega arith

test-set : (mask bit k : ℕ) → test_bit (set_bit mask bit) k ≡ ((bit == k) || test_bit mask k)
unfolding test_bit set_bit
test-set mask zero zero = ground arith
test-set mask zero (suc k) = ground (arith, ap (λ (t : ℕ). test_bit t k) (half_set mask))
test-set mask (suc bit) zero = ground (arith, parity_digits (set_bit (mask / 2) bit) mask)
test-set mask (suc bit) (suc k) = ground (
  arith,
  ap (λ (t : ℕ). test_bit t k) (half_digits (set_bit (mask / 2) bit) mask),
  test-set (mask / 2) bit k,
)

test-clear :
    (mask bit k : ℕ) → test_bit (clear_bit mask bit) k ≡ (not (bit == k) && test_bit mask k)
unfolding test_bit clear_bit
test-clear mask zero zero = ground arith
test-clear mask zero (suc k) = ground (arith, ap (λ (t : ℕ). test_bit t k) (half_double mask))
test-clear mask (suc bit) zero = ground (arith, parity_digits (clear_bit (mask / 2) bit) mask)
test-clear mask (suc bit) (suc k) = ground (
  arith,
  ap (λ (t : ℕ). test_bit t k) (half_digits (clear_bit (mask / 2) bit) mask),
  test-clear (mask / 2) bit k,
)

-- Adding a component sets the bit of its table and no other, and removing it clears just that bit.
pub contains-add-remove :
    (mask table_id k : ℕ)
    → (contains (add_component mask table_id) k ≡ ((table_id % 64 == k % 64) || contains mask k))
      × (contains (remove_component mask table_id) k
          ≡ (not (table_id % 64 == k % 64) && contains mask k))
unfolding contains add_component remove_component
contains-add-remove mask table_id k =
    (test-set mask (table_id % 64) (k % 64), test-clear mask (table_id % 64) (k % 64))
