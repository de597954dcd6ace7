-- ===== src/Mmio.antt =====
-- emb/mmio.hpp: fields of a register, by a mask. A register, a mask and a value are the lists of their
-- bits, the lowest first, all of the register's width; a read or a write of a register is one of its
-- object. The functions of the namespace `runtime` are those without a prefix, which the templates on a
-- mask call with it.
pub mod Pointwise
pub mod Fields
pub mod Modify
mod Tests
use emblib.Base.{
  ℕ, zero, suc, ◌+◌, Bool, true, false, not, ◌&&◌, ◌||◌, List, [], ◌∷◌, ◌++◌, take, drop, length,
  replicate, if◌then◌else◌,
}

abbrev pub Bits : Type 0
Bits = List Bool

abbrev pub falses : ℕ → Bits
falses n = replicate n false

abbrev pub trues : ℕ → Bits
trues n = replicate n true

-- `&`, `|`, `^` and `~`.
unfoldable pub and : Bits → Bits → Bits
and (a ∷ x) (b ∷ y) = (a && b) ∷ and x y
and _ _ = []

unfoldable pub or : Bits → Bits → Bits
or (a ∷ x) (b ∷ y) = (a || b) ∷ or x y
or _ _ = []

unfoldable pub xor : Bits → Bits → Bits
xor (a ∷ x) (b ∷ y) = (if a then not b else b) ∷ xor x y
xor _ _ = []

unfoldable pub complement : Bits → Bits
complement [] = []
complement (a ∷ x) = not a ∷ complement x

-- `>>` and `<<`, which keep the width.
unfoldable pub shift_right : Bits → ℕ → Bits
shift_right x n = drop n x ++ falses n

unfoldable pub shift_left : Bits → ℕ → Bits
shift_left x n = take (length x) (falses n ++ x)

-- `x + 1`, which wraps.
unfoldable pub increment : Bits → Bits
increment [] = []
increment (true ∷ x) = false ∷ increment x
increment (false ∷ x) = true ∷ x

-- `x != 0`
unfoldable pub is_nonzero : Bits → Bool
is_nonzero [] = false
is_nonzero (a ∷ x) = a || is_nonzero x

-- `std::countr_zero`
unfoldable pub countr_zero : Bits → ℕ
countr_zero [] = 0
countr_zero (true ∷ x) = 0
countr_zero (false ∷ x) = suc (countr_zero x)

unfoldable pub is_contiguous_mask : Bits → Bool
is_contiguous_mask mask =
    let x = shift_right mask (countr_zero mask) in not (is_nonzero (and x (increment x)))

unfoldable pub read : Bits → Bits → Bits
read reg mask = shift_right (and reg mask) (countr_zero mask)

unfoldable pub write : Bits → Bits → Bits → Bits
write reg mask value =
    or (and reg (complement mask)) (and (shift_left value (countr_zero mask)) mask)

unfoldable pub set : Bits → Bits → Bits
set reg mask = or reg mask

unfoldable pub clear : Bits → Bits → Bits
clear reg mask = and reg (complement mask)

unfoldable pub toggle : Bits → Bits → Bits
toggle reg mask = xor reg mask

unfoldable pub test_any : Bits → Bits → Bool
test_any reg mask = is_nonzero (and reg mask)

-- `(reg & mask) == mask`
unfoldable pub test_all : Bits → Bits → Bool
test_all reg mask = not (is_nonzero (xor (and reg mask) mask))

unfoldable pub clear_w1 : Bits → Bits → Bits
clear_w1 reg mask = mask

unfoldable pub clear_w0 : Bits → Bits → Bits
clear_w0 reg mask = complement mask

unfoldable pub set_or_clear : Bits → Bits → Bool → Bits
set_or_clear reg mask cond = if cond then set reg mask else clear reg mask

-- `bits<Mask>`, by its mask and `encoded`.
pub record FieldBits : Type 0 where
  pub mask : Bits
  pub encoded : Bits

unfoldable pub make_bits : Bits → Bits → FieldBits
make_bits mask v = record { mask = mask; encoded = and (shift_left v (countr_zero mask)) mask }

-- The folds of `modify`, over the fields from the first on.
unfoldable pub or_masks : FieldBits → List FieldBits → Bits
or_masks first [] = first.mask
or_masks first (f ∷ rest) = or first.mask (or_masks f rest)

unfoldable pub or_encoded : FieldBits → List FieldBits → Bits
or_encoded first [] = first.encoded
or_encoded first (f ∷ rest) = or first.encoded (or_encoded f rest)

unfoldable pub modify : Bits → FieldBits → List FieldBits → Bits
modify reg first rest = or (and reg (complement (or_masks first rest))) (or_encoded first rest)
