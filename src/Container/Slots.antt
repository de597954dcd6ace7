-- ===== src/Container/Slots.antt =====
-- The slots of emb/container: a `std::array<slot, Capacity>` of unions, of which some hold a live
-- object. A slot is `none` while its `no_value` member is active. The element type is one that is
-- not trivially destructible, so that `destroy_slot` does end the life of an object.
-- A construction over a live object, the destruction or a read of a dead one, and an index out of
-- range are faults.
use emblib.Base.{
  ℕ, ◌+◌, ◌-◌, ◌%◌, ◌^◌, ◌<◌, ◌≡◌, Option, none, some, List, arith, length, get_or, set, replicate,
  ltb, if◌then◌else◌,
}

-- `std::size_t` of a 32-bit target. An array is at most half of the address space.
abbrev pub size_mod : ℕ
size_mod = 2 ^ 32

abbrev pub max_capacity : ℕ
max_capacity = 2 ^ 31

abbrev pub add_size : ℕ → ℕ → ℕ
add_size a b = (a + b) % size_mod

abbrev pub sub_size : ℕ → ℕ → ℕ
sub_size a b = (a + size_mod - b) % size_mod

abbrev pub Slots {ℓ} : Type ℓ → Type ℓ
Slots A = List (Option A)

module _ {ℓ} {A : Type ℓ} where
  -- What a slot holds, `none` out of range.
  abbrev pub slot : Slots A → ℕ → Option A
  slot d i = get_or d i none

  -- `*slot_ptr(i)`: a read of a dead slot is a fault.
  abbrev pub read_slot : Slots A → ℕ → Option A
  read_slot d i = slot d i

  -- `std::construct_at(slot_ptr(i), value)`
  unfoldable pub construct_at : Slots A → ℕ → A → Option (Slots A)
  construct_at d i v = elim (slot d i) [
    | none ↦ if ltb i (length d) then some (set d i (some v)) else none
    | some _ ↦ none
  ]

  -- `destroy_slot(i)`
  unfoldable pub destroy_at : Slots A → ℕ → Option (Slots A)
  destroy_at d i = elim (slot d i) [ none ↦ none | some _ ↦ some (set d i none) ]

  pub construct_at-some :
      (d : Slots A) (i : ℕ) (v : A)
      → i < length d
      → slot d i ≡ none
      → construct_at d i v ≡ some (set d i (some v))
  unfolding construct_at
  construct_at-some d i v h e = ground arith

  pub destroy_at-some :
      (d : Slots A) (i : ℕ) (v : A) → slot d i ≡ some v → destroy_at d i ≡ some (set d i none)
  unfolding destroy_at
  destroy_at-some d i v e = ground arith

  -- Every slot dead: `data_{}`.
  abbrev pub no_values : ℕ → Slots A
  no_values n = replicate n none
