-- ===== src/Mmio/Modify.antt =====
-- `modify` of emb/mmio.hpp writes several fields at once.
use emblib.Base.{
  ℕ, suc, ◌≡◌, refl, ap, ap₂, subst, sym, ◌∙◌, Bool, true, false, not, ◌&&◌, ◌||◌, List, [], ◌∷◌,
  arith, length,
}
use emblib.Mmio.{
  Bits, and, or, complement, write, FieldBits, make_bits, or_masks, or_encoded, modify,
}

-- The bits of a field do not meet a mask, of the same width.
abbrev pub IsApart : Bits → Bits → Type 0
IsApart [] [] = Unit
IsApart (e ∷ x) (m ∷ y) = ((e && m) ≡ false) × IsApart x y
IsApart _ _ = ⊥

-- The static assertion on overlapping masks, for the bits that are written.
abbrev pub AreApart : FieldBits → List FieldBits → Type 0
AreApart first [] = Unit
AreApart first (f ∷ rest) = IsApart first.encoded (or_masks f rest) × AreApart f rest

abbrev pub write_field : Bits → FieldBits → Bits
write_field reg f = or (and reg (complement f.mask)) f.encoded

-- One write after the other.
abbrev pub write_fields : Bits → FieldBits → List FieldBits → Bits
write_fields reg first [] = write_field reg first
write_fields reg first (f ∷ rest) = write_fields (write_field reg first) f rest

both_bits :
    (r m e b t : Bool)
    → (e && b) ≡ false
    → ((((r && not m) || e) && not b) || t) ≡ ((r && not (m || b)) || (e || t))
both_bits r m false b t h = without r m b t
  where
    without :
        (r m b t : Bool) → ((((r && not m) || false) && not b) || t) ≡ ((r && not (m || b)) || t)
    without true true b t = refl
    without true false true t = refl
    without true false false t = refl
    without false m b t = refl
both_bits r m true true t h = absurd (cc)
both_bits true true true false t h = refl
both_bits true false true false t h = refl
both_bits false m true false t h = refl

both_fields :
    (r m e b t : Bits)
    → length r ≡ length m
    → length t ≡ length m
    → length e ≡ length m
    → IsApart e b
    → or (and (or (and r (complement m)) e) (complement b)) t
      ≡ or (and r (complement (or m b))) (or e t)
unfolding and or complement
both_fields [] m e b t hr ht he apart = refl
both_fields (x ∷ r) [] e b t hr ht he apart = absurd (omega arith)
both_fields (x ∷ r) (y ∷ m) [] b t hr ht he apart = absurd (omega arith)
both_fields (x ∷ r) (y ∷ m) (z ∷ e) [] t hr ht he apart = absurd apart
both_fields (x ∷ r) (y ∷ m) (z ∷ e) (u ∷ b) [] hr ht he apart = absurd (omega arith)
both_fields (x ∷ r) (y ∷ m) (z ∷ e) (u ∷ b) (v ∷ t) hr ht he apart =
    ap₂ ◌∷◌ (both_bits x y z u v apart.0)
      (both_fields r m e b t (omega arith) (omega arith) (omega arith) apart.1)

length-or : (x y : Bits) → length x ≡ length y → length (or x y) ≡ length y
unfolding or
length-or [] [] h = refl
length-or [] (b ∷ y) h = absurd (omega arith)
length-or (a ∷ x) [] h = absurd (omega arith)
length-or (a ∷ x) (b ∷ y) h = ap suc (length-or x y (omega arith))

length-and : (x y : Bits) → length x ≡ length y → length (and x y) ≡ length y
unfolding and
length-and [] [] h = refl
length-and [] (b ∷ y) h = absurd (omega arith)
length-and (a ∷ x) [] h = absurd (omega arith)
length-and (a ∷ x) (b ∷ y) h = ap suc (length-and x y (omega arith))

length-complement : (x : Bits) → length (complement x) ≡ length x
unfolding complement
length-complement [] = refl
length-complement (a ∷ x) = ap suc (length-complement x)

-- The masks and the bits of some fields have the width of the register.
abbrev pub AreWide : ℕ → FieldBits → List FieldBits → Type 0
AreWide w first [] = (length first.mask ≡ w) × (length first.encoded ≡ w)
AreWide w first (f ∷ rest) = (length first.mask ≡ w) × (length first.encoded ≡ w) × AreWide w f rest

length-write_field :
    (reg : Bits) (f : FieldBits) (w : ℕ)
    → length reg ≡ w
    → length f.mask ≡ w
    → length f.encoded ≡ w
    → length (write_field reg f) ≡ w
length-write_field reg f w hr hm he =
    let c = length-complement f.mask in
    let a = length-and reg (complement f.mask) (omega arith) in
    length-or (and reg (complement f.mask)) f.encoded (omega arith) ∙ he

length-or_encoded :
    (w : ℕ) (first : FieldBits) (rest : List FieldBits)
    → AreWide w first rest
    → length (or_encoded first rest) ≡ w
unfolding or_encoded
length-or_encoded w first [] h = h.1
length-or_encoded w first (f ∷ rest) h =
    let tail = length-or_encoded w f rest h.2 in
    length-or first.encoded (or_encoded f rest) (h.1 ∙ sym tail) ∙ tail

-- For fields of the register's width, the bits of none of which meet the mask of a later one, `modify`
-- is one write after the other.
pub modify-write_fields :
    (reg : Bits) (first : FieldBits) (rest : List FieldBits)
    → AreWide (length reg) first rest
    → AreApart first rest
    → modify reg first rest ≡ write_fields reg first rest
unfolding modify or_masks or_encoded
modify-write_fields reg first [] wide apart = refl
modify-write_fields reg first (f ∷ rest) wide apart =
    let next = write_field reg first in
    let width = length-write_field reg first (length reg) refl wide.0 wide.1 in
    let tail = length-or_encoded (length reg) f rest wide.2 in
    sym (
      both_fields reg first.mask first.encoded (or_masks f rest) (or_encoded f rest) (sym wide.0)
        (tail ∙ sym wide.0) (wide.1 ∙ sym wide.0) apart.0)
    ∙ modify-write_fields next f rest (subst (λ w. AreWide w f rest) (sym width) wide.2) apart.1

-- A field of `bits` is written by `write`.
pub write_bits : (reg mask v : Bits) → write_field reg (make_bits mask v) ≡ write reg mask v
unfolding write make_bits
write_bits reg mask v = refl
