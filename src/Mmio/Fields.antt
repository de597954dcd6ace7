-- ===== src/Mmio/Fields.antt =====
-- A field of a register of emb/mmio.hpp after a write of it.
use emblib.Base.{
  ℕ, zero, suc, ◌+◌, ◌≤◌, ◌<◌, ◌≡◌, refl, ap, sym, ◌∙◌, Bool, true, false, not, [], ◌∷◌, ◌++◌,
  append_assoc, arith, take, drop, length, length-append, length-replicate,
}
use native.Mathlib.Nat.{zero-add, suc-add}
use emblib.Mmio.{
  Bits, falses, trues, and, complement, shift_left, shift_right, increment, is_nonzero, countr_zero,
  is_contiguous_mask, read, write,
}
use emblib.Mmio.Pointwise.{
  outside_mask, inside_mask, and-shifted, and-padded, drop-falses, split_mask, and-trues,
}

length-take : (n : ℕ) (x : Bits) → n ≤ length x → length (take n x) ≡ n
length-take zero x h = refl
length-take (suc n) [] h = absurd (omega arith)
length-take (suc n) (a ∷ x) h = ap suc (length-take n x (omega arith))

length-shift_left : (v : Bits) (n : ℕ) → length (shift_left v n) ≡ length v
unfolding shift_left
length-shift_left v n =
    length-take (length v) (falses n ++ v)
      (omega (arith, length-append (falses n) v, length-replicate n false))

-- The bits that a field takes of a value, and gives back.
field_back :
    (m v : Bits)
    → length v ≡ length m
    → shift_right (and (shift_left v (countr_zero m)) m) (countr_zero m)
      ≡ and v (shift_right m (countr_zero m))
unfolding shift_left shift_right
field_back m v size =
    let o = countr_zero m in
    let rest = drop o m in
    let whole = split_mask m in
    let count = ap length whole ∙ length-append (falses o) rest in
    let width = length-replicate o false in
    ap (λ x. drop o (and (take (length v) (falses o ++ v)) x) ++ falses o) whole
    ∙ ap (λ x. drop o x ++ falses o) (and-shifted (length v) o v rest (omega arith))
    ∙ ap (λ x. x ++ falses o) (drop-falses o (and v rest))
    ∙ sym (and-padded o v rest (omega arith))

and_self : (a f : Bits) → is_nonzero (and (a ++ f) (a ++ f)) ≡ false → a ≡ falses (length a)
unfolding and is_nonzero
and_self [] f h = refl
and_self (true ∷ a) f h = absurd (cc)
and_self (false ∷ a) f h = ap (◌∷◌ false) (and_self a f h)

falses_sum : (r o : ℕ) → falses r ++ falses o ≡ falses (r + o)
falses_sum zero o = ap falses (sym (zero-add o))
falses_sum (suc r) o = ap (◌∷◌ false) (falses_sum r o) ∙ ap falses (sym (suc-add r o))

-- `x & (x + 1)` is 0 only for ones and then zeros.
ones_then_zeros :
    (a f : Bits)
    → is_nonzero (and (a ++ f) (increment (a ++ f))) ≡ false
    → (k : ℕ) × (r : ℕ) × (a ≡ trues k ++ falses r)
unfolding and is_nonzero increment
ones_then_zeros [] f h = (0, 0, refl)
ones_then_zeros (true ∷ a) f h =
    let (k, r, e) = ones_then_zeros a f h in (suc k, r, ap (◌∷◌ true) e)
ones_then_zeros (false ∷ a) f h = (0, suc (length a), ap (◌∷◌ false) (and_self a f h))

not-true : (b : Bool) → not b ≡ true → b ≡ false
not-true true h = absurd (cc)
not-true false h = refl

first_set : (m : Bits) → is_nonzero m ≡ true → (t : Bits) × (drop (countr_zero m) m ≡ true ∷ t)
unfolding is_nonzero countr_zero
first_set [] h = absurd (cc)
first_set (true ∷ m) h = (m, refl)
first_set (false ∷ m) h = first_set m h

some_ones : (k r : ℕ) (t : Bits) → true ∷ t ≡ trues k ++ falses r → 0 < k
some_ones zero zero t e = absurd (cc)
some_ones zero (suc r) t e = absurd (cc)
some_ones (suc k) r t e = omega arith

-- A contiguous mask.
mask_shape :
    (m : Bits)
    → is_contiguous_mask m ≡ true
    → (k : ℕ) × (r : ℕ) × (drop (countr_zero m) m ≡ trues k ++ falses r)
unfolding is_contiguous_mask shift_right
mask_shape m h = ones_then_zeros (drop (countr_zero m) m) (falses (countr_zero m)) (not-true _ h)

-- A mask that is contiguous and not 0 is `k` ones, `k` at least 1, between zeros. After a write of a
-- value, a read by such a mask returns the lowest `k` bits of the value, and the register is what it
-- was outside the mask.
pub write_and_read :
    (reg mask value : Bits)
    → length reg ≡ length mask
    → length value ≡ length mask
    → is_nonzero mask ≡ true
    → is_contiguous_mask mask ≡ true
    → (k : ℕ) × (r : ℕ) × (0 < k)
      × (mask ≡ falses (countr_zero mask) ++ (trues k ++ falses r))
      × (read (write reg mask value) mask ≡ take k value ++ falses (r + countr_zero mask))
      × (and (write reg mask value) (complement mask) ≡ and reg (complement mask))
unfolding read write shift_right
write_and_read reg mask value size width set contiguous =
    let o = countr_zero mask in
    let (k, r, shape) = mask_shape mask contiguous in
    let (t, first) = first_set mask set in
    let shifted = length-shift_left value o in
    let whole : mask ≡ falses o ++ (trues k ++ falses r) =
      split_mask mask ∙ ap (λ x. falses o ++ x) shape in
    let count = ap length whole ∙ length-append (falses o) (trues k ++ falses r) in
    let ones = length-append (trues k) (falses r) in
    let total : length value ≡ k + (r + o) = omega (
      arith,
      count,
      ones,
      length-replicate o false,
      length-replicate k true,
      length-replicate r false,
    ) in
    (
      k,
      r,
      some_ones k r t (sym first ∙ shape),
      whole,
      ap (λ x. shift_right x o) (inside_mask reg mask (shift_left value o) size (shifted ∙ width))
          ∙ field_back mask value width
          ∙ ap (λ x. and value (x ++ falses o)) shape
          ∙ ap (and value) (
              append_assoc (trues k) (falses r) (falses o)
              ∙ ap (λ x. trues k ++ x) (falses_sum r o))
          ∙ and-trues k (r + o) value total,
      outside_mask reg mask (shift_left value o) size (shifted ∙ width),
    )
