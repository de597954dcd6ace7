-- ===== src/Base/Bits.antt =====
-- `x & mask` for a mask of low bits, as arithmetic.
use Prim.Native.Nat.{
  ℕ, zero, suc, ◌+◌, ◌-◌, ◌*◌, ◌/◌, ◌%◌, ◌^◌, ◌≤◌, ◌<◌, min, bit_and, digits, bit_and-bitwise,
}
use mathlib.Core.Path.{◌≡◌, refl, sym, ap, ◌∙◌}
use native.Mathlib.Nat.{
  zero-mod, pow-suc, one-le-pow, mod-lt, div-add-mod', mul-add-mod_self_right, mod-eq_of_lt,
}
use native.Mathlib.Omega.{arith}

-- The digits of `x & y`, with a count of the digits to go.
abbrev masked : ℕ → ℕ → ℕ → ℕ
masked count x y = digits (λ _. zero) min count x y

masked-zero : (count x : ℕ) → masked count x 0 ≡ 0
masked-zero zero x = refl
masked-zero (suc n) zero = refl
masked-zero (suc n) (suc x) = omega (arith, masked-zero n (suc x / 2))

-- The lowest digit of `x`, before the remainder of its half.
mod-double : (x n : ℕ) → 0 < n → x / 2 % n * 2 + x % 2 ≡ x % (n * 2)
mod-double x n h =
    let q = x / 2 / n in
    let r = x / 2 % n * 2 + x % 2 in
    let small : r < n * 2 = omega (arith, mod-lt (x / 2) h) in
    let whole : q * (n * 2) + r ≡ x = grind (arith, div-add-mod' (x / 2) n) in
    sym
      (ap (λ t. t % (n * 2)) (sym whole) ∙ mul-add-mod_self_right q (n * 2) r ∙ mod-eq_of_lt small)

masked_low : (count x k : ℕ) → x ≤ count → masked count x (2 ^ k - 1) ≡ x % 2 ^ k
masked_low n x zero h = omega (arith, masked-zero n x)
masked_low zero x (suc k) h = let e : x ≡ 0 = omega arith in rw e (sym (zero-mod (2 ^ suc k)))
masked_low (suc n) zero (suc k) h = sym (zero-mod (2 ^ suc k))
masked_low (suc n) (suc x) (suc k) h =
    let power : 2 ^ suc k ≡ 2 ^ k * 2 = pow-suc 2 k in
    let pos : 1 ≤ 2 ^ k = one-le-pow k 2 (omega arith) in
    let half : (2 ^ suc k - 1) / 2 ≡ 2 ^ k - 1 = omega arith in
    let odd : (2 ^ suc k - 1) % 2 ≡ 1 = omega arith in
    rw (half, odd, masked_low n (suc x / 2) k (omega arith), power)
      (omega (arith, mod-double (suc x) (2 ^ k) pos))

-- `x & (2^k - 1)` is the remainder by `2^k`.
pub bit_and_mask : (x k : ℕ) → bit_and x (2 ^ k - 1) ≡ x % 2 ^ k
bit_and_mask x k = bit_and-bitwise x (2 ^ k - 1) ∙ masked_low x x k (omega arith)
