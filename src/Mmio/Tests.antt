-- ===== src/Mmio/Tests.antt =====
-- A register of eight bits with a field of three.
use emblib.Base.{ℕ, ◌+◌, ◌<◌, ◌≡◌, refl, true, false, [], ◌∷◌, ◌++◌, take}
use emblib.Mmio.{
  Bits, falses, trues, and, or, xor, complement, shift_left, shift_right, increment, is_nonzero,
  countr_zero, is_contiguous_mask, read, write, toggle, make_bits, or_masks, modify,
}
use emblib.Mmio.Fields.{write_and_read}
use emblib.Mmio.Modify.{write_fields, modify-write_fields}

abbrev register : Bits
register = true ∷ true ∷ false ∷ true ∷ false ∷ true ∷ true ∷ false ∷ []

-- 0x1C
abbrev field : Bits
field = false ∷ false ∷ true ∷ true ∷ true ∷ false ∷ false ∷ false ∷ []

-- 0x0D, of which the field takes 5
abbrev value : Bits
value = true ∷ false ∷ true ∷ true ∷ false ∷ false ∷ false ∷ false ∷ []

-- 0xC0
abbrev upper : Bits
upper = false ∷ false ∷ false ∷ false ∷ false ∷ false ∷ true ∷ true ∷ []

written : write register field value ≡ true ∷ true ∷ true ∷ false ∷ true ∷ true ∷ true ∷ false ∷ []
unfolding write or and complement shift_left countr_zero
written = refl

sparse_refused : is_contiguous_mask (true ∷ false ∷ true ∷ []) ≡ false
unfolding is_contiguous_mask shift_right countr_zero increment is_nonzero and
sparse_refused = refl

toggled_twice : toggle (toggle register field) field ≡ register
unfolding toggle xor
toggled_twice = refl

write_and_read_example :
    (k : ℕ) × (r : ℕ) × (0 < k)
    × (field ≡ falses (countr_zero field) ++ (trues k ++ falses r))
    × (read (write register field value) field ≡ take k value ++ falses (r + countr_zero field))
    × (and (write register field value) (complement field) ≡ and register (complement field))
unfolding is_contiguous_mask shift_right countr_zero increment is_nonzero and
write_and_read_example = write_and_read register field value refl refl refl refl

two_fields :
    modify register (make_bits field value) (make_bits upper value ∷ [])
    ≡ write_fields register (make_bits field value) (make_bits upper value ∷ [])
unfolding make_bits and shift_left countr_zero or_masks or
two_fields =
    modify-write_fields register (make_bits field value) (make_bits upper value ∷ [])
      (refl, refl, (refl, refl))
      ((refl, (refl, (refl, (refl, (refl, (refl, (refl, (refl, tt)))))))), tt)
