-- ===== src/Storage/Buffer/Slots.antt =====
-- Slots of a storage buffer: the arithmetic of aligned offsets, and the well-formed buffers.
use rodengine.Common.{
  ℕ, ◌+◌, ◌*◌, ◌/◌, ◌%◌, ◌≤◌, ◌<◌, ◌≡◌, ◌≢◌, ◌⊎◌, inl, inr, false, List, [], ◌∷◌, arith, length,
  contains, ap, sym, ◌==◌, ltb, Bool-cases, ◌∙◌,
}
use native.Mathlib.Nat.{div-add-mod, mul-mod_left}
use rodengine.Storage.Buffer.{ArcStorageBuffer}

-- `o` is the offset of one of the first `n` slots of `rs` bytes.
pub record IsSlot (rs n o : ℕ) : Type 0 where
  pub aligned : o % rs ≡ 0
  pub below : o < n * rs

pub IsSlot-of_index : (rs n i : ℕ) → i < n → 0 < rs → IsSlot rs n (i * rs)
IsSlot-of_index rs n i h pos = record { aligned = mul-mod_left i rs; below = grind arith }

pub slot_index : (rs n o : ℕ) → IsSlot rs n o → o ≡ (o / rs) * rs
slot_index rs n o h = grind (arith, div-add-mod)

pub slot_index-lt : (rs n o : ℕ) → 0 < rs → IsSlot rs n o → o / rs < n
slot_index-lt rs n o pos h = grind (arith, slot_index)

pub index_apart : (rs i j : ℕ) → i < j → i * rs + rs ≤ j * rs
index_apart rs i j h = grind arith

pub slot_fits : (rs n o : ℕ) → 0 < rs → IsSlot rs n o → o + rs ≤ n * rs
slot_fits rs n o pos h =
    omega (arith, slot_index rs n o h, index_apart rs (o / rs) n (slot_index-lt rs n o pos h))

pub IsSlot-mono : (rs n m o : ℕ) → n ≤ m → IsSlot rs n o → IsSlot rs m o
IsSlot-mono rs n m o le h = record { aligned = h.aligned; below = grind arith }

-- Distinct slots do not overlap.
pub slots_apart :
    (rs n m o p : ℕ) → 0 < rs → IsSlot rs n o → IsSlot rs m p → o ≢ p → (o + rs ≤ p) ⊎ (p + rs ≤ o)
slots_apart rs n m o p pos ho hp ne = elim (Bool-cases (ltb (o / rs) (p / rs))) [
  | inl lt ↦ inl (
      omega (
        arith,
        slot_index rs n o ho,
        slot_index rs m p hp,
        index_apart rs (o / rs) (p / rs) (ground arith),
      ))
  | inr ge ↦ elim (Bool-cases (o / rs == p / rs)) [
    | inl eq ↦ absurd (
        ne (
          slot_index rs n o ho
          ∙ ap (λ (i : ℕ). i * rs) (ground arith)
          ∙ sym (slot_index rs m p hp)))
    | inr gt ↦ inr (
        omega (
          arith,
          slot_index rs n o ho,
          slot_index rs m p hp,
          index_apart rs (p / rs) (o / rs) (ground arith),
        ))
  ]
]

-- A slot of `n + 1` other than the last is a slot of `n`.
pub IsSlot-pred : (rs n o : ℕ) → 0 < rs → IsSlot rs (n + 1) o → o ≢ n * rs → IsSlot rs n o
IsSlot-pred rs n o pos h ne =
    let last : IsSlot rs (n + 1) (n * rs) = IsSlot-of_index rs (n + 1) n (omega arith) pos in
    record {
      aligned = h.aligned;
      below = omega (arith, slots_apart rs (n + 1) (n + 1) o (n * rs) pos h last ne, h.below);
    }

-- The free list holds distinct slots.
abbrev pub FreeIn : ℕ → ℕ → List ℕ → Type 0
FreeIn rs n [] = Unit {0}
FreeIn rs n (o ∷ free) = IsSlot rs n o × (contains free o ≡ false) × FreeIn rs n free

pub FreeIn-mono : (rs n m : ℕ) (free : List ℕ) → n ≤ m → FreeIn rs n free → FreeIn rs m free
FreeIn-mono rs n m [] le h = tt
FreeIn-mono rs n m (o ∷ free) le h =
    (IsSlot-mono rs n m o le h.0, h.1, FreeIn-mono rs n m free le h.2)

-- What is past the allocated slots is not in the free list.
pub FreeIn-fresh :
    (rs n o : ℕ) (free : List ℕ) → n * rs ≤ o → FreeIn rs n free → contains free o ≡ false
FreeIn-fresh rs n o [] le h = ground arith
FreeIn-fresh rs n o (p ∷ free) le h =
    let below : p < n * rs = h.0.below in ground (arith, FreeIn-fresh rs n o free le h.2)

-- A buffer whose slots lie in the write buffer, whose free list holds distinct slots, and whose
-- count of active records is right. A slot of the size of a record fits the first allocation.
pub record IsWf (b : ArcStorageBuffer) : Type 0 where
  pub pos : 0 < b.record_size
  pub fits : b.next_record_offset * b.record_size ≤ length b.write_buffer
  pub roomy : b.record_size ≤ length b.write_buffer
  pub free : FreeIn b.record_size b.next_record_offset b.free_list
  pub counted : b.active_count + length b.free_list ≡ b.next_record_offset

-- A slot that is allocated and not free.
pub record IsLive (b : ArcStorageBuffer) (o : ℕ) : Type 0 where
  pub slot : IsSlot b.record_size b.next_record_offset o
  pub used : contains b.free_list o ≡ false

pub IsLive-fits :
    (b : ArcStorageBuffer) (o : ℕ) → IsWf b → IsLive b o → o + b.record_size ≤ length b.write_buffer
IsLive-fits b o w l = omega (arith, w.fits, slot_fits _ _ o w.pos l.slot)
