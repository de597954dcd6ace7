-- ===== src/Mmio/Pointwise.antt =====
-- The bit operations of emb/mmio.hpp, bit by bit.
use emblib.Base.{
  ℕ, zero, suc, ◌+◌, ◌≤◌, ◌≡◌, refl, ap, ap₂, ◌∙◌, Bool, true, false, not, ◌&&◌, ◌||◌, [], ◌∷◌,
  ◌++◌, arith, take, drop, length,
}
use emblib.Mmio.{Bits, falses, trues, and, or, complement, countr_zero}

outside_bit : (r m s : Bool) → (((r && not m) || (s && m)) && not m) ≡ (r && not m)
outside_bit true true true = refl
outside_bit true true false = refl
outside_bit true false true = refl
outside_bit true false false = refl
outside_bit false true true = refl
outside_bit false true false = refl
outside_bit false false true = refl
outside_bit false false false = refl

inside_bit : (r m s : Bool) → (((r && not m) || (s && m)) && m) ≡ (s && m)
inside_bit true true true = refl
inside_bit true true false = refl
inside_bit true false true = refl
inside_bit true false false = refl
inside_bit false true true = refl
inside_bit false true false = refl
inside_bit false false true = refl
inside_bit false false false = refl

-- What is put in the place of a mask leaves the rest, and is what the mask then takes.
pub outside_mask :
    (r m s : Bits)
    → length r ≡ length m
    → length s ≡ length m
    → and (or (and r (complement m)) (and s m)) (complement m) ≡ and r (complement m)
unfolding and or complement
outside_mask [] [] s h k = refl
outside_mask [] (b ∷ m) s h k = absurd (omega arith)
outside_mask (a ∷ r) [] s h k = absurd (omega arith)
outside_mask (a ∷ r) (b ∷ m) [] h k = absurd (omega arith)
outside_mask (a ∷ r) (b ∷ m) (c ∷ s) h k =
    ap₂ ◌∷◌ (outside_bit a b c) (outside_mask r m s (omega arith) (omega arith))

pub inside_mask :
    (r m s : Bits)
    → length r ≡ length m
    → length s ≡ length m
    → and (or (and r (complement m)) (and s m)) m ≡ and s m
unfolding and or complement
inside_mask [] [] [] h k = refl
inside_mask [] [] (c ∷ s) h k = refl
inside_mask [] (b ∷ m) s h k = absurd (omega arith)
inside_mask (a ∷ r) [] s h k = absurd (omega arith)
inside_mask (a ∷ r) (b ∷ m) [] h k = absurd (omega arith)
inside_mask (a ∷ r) (b ∷ m) (c ∷ s) h k =
    ap₂ ◌∷◌ (inside_bit a b c) (inside_mask r m s (omega arith) (omega arith))

and-take : (n : ℕ) (v m : Bits) → length m ≤ n → and (take n v) m ≡ and v m
unfolding and
and-take zero v [] h = and-nil v
  where
    and-nil : (v : Bits) → and [] [] ≡ and v []
    and-nil [] = refl
    and-nil (a ∷ v) = refl
and-take zero v (b ∷ m) h = absurd (omega arith)
and-take (suc n) [] m h = refl
and-take (suc n) (a ∷ v) [] h = refl
and-take (suc n) (a ∷ v) (b ∷ m) h = ap (◌∷◌ (a && b)) (and-take n v m (omega arith))

and-falses : (n : ℕ) (v : Bits) → length v ≡ n → and v (falses n) ≡ falses n
unfolding and
and-falses zero [] h = refl
and-falses zero (a ∷ v) h = absurd (omega arith)
and-falses (suc n) [] h = absurd (omega arith)
and-falses (suc n) (true ∷ v) h = ap (◌∷◌ false) (and-falses n v (omega arith))
and-falses (suc n) (false ∷ v) h = ap (◌∷◌ false) (and-falses n v (omega arith))

-- A value shifted to a mask whose lowest bits are 0.
pub and-shifted :
    (n o : ℕ) (v m : Bits)
    → n ≡ o + length m
    → and (take n (falses o ++ v)) (falses o ++ m) ≡ falses o ++ and v m
unfolding and
and-shifted n zero v m h = and-take n v m (omega arith)
and-shifted zero (suc o) v m h = absurd (omega arith)
and-shifted (suc n) (suc o) v m h = ap (◌∷◌ false) (and-shifted n o v m (omega arith))

pub and-padded :
    (o : ℕ) (v m : Bits) → length v ≡ length m + o → and v (m ++ falses o) ≡ and v m ++ falses o
unfolding and
and-padded o v [] h = and-falses o v (omega arith) ∙ ap (λ x. x ++ falses o) (nil-and v)
  where
    nil-and : (v : Bits) → [] ≡ and v []
    nil-and [] = refl
    nil-and (a ∷ v) = refl
and-padded o [] (b ∷ m) h = absurd (omega arith)
and-padded o (a ∷ v) (b ∷ m) h = ap (◌∷◌ (a && b)) (and-padded o v m (omega arith))

pub drop-falses : (o : ℕ) (x : Bits) → drop o (falses o ++ x) ≡ x
drop-falses zero x = refl
drop-falses (suc o) x = drop-falses o x

-- The bits of a mask from the first that is set on.
pub split_mask : (m : Bits) → m ≡ falses (countr_zero m) ++ drop (countr_zero m) m
unfolding countr_zero
split_mask [] = refl
split_mask (true ∷ m) = refl
split_mask (false ∷ m) = ap (◌∷◌ false) (split_mask m)

pub and-trues :
    (k r : ℕ) (v : Bits) → length v ≡ k + r → and v (trues k ++ falses r) ≡ take k v ++ falses r
unfolding and
and-trues zero r v h = and-falses r v (omega arith)
and-trues (suc k) r [] h = absurd (omega arith)
and-trues (suc k) r (true ∷ v) h = ap (◌∷◌ true) (and-trues k r v (omega arith))
and-trues (suc k) r (false ∷ v) h = ap (◌∷◌ false) (and-trues k r v (omega arith))
