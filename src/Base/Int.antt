-- ===== src/Base/Int.antt =====
-- Integers over the native numbers, and the two's complement of `w` bits.
use emblib.Base.Tests.{ltb, if◌then◌else◌}
use Prim.Native.Nat.{ℕ, ◌-◌, ◌%◌, ◌^◌, ◌<◌}
use mathlib.Core.Path.{◌≡◌, ap}
use native.Mathlib.Omega.{arith}

-- `negsuc n` is `-(n + 1)`.
pub data ℤ : Type 0 where
  pos : ℕ → ℤ
  negsuc : ℕ → ℤ

-- A signed integer from its `w` bits, and its bits.
abbrev pub to_signed : ℕ → ℕ → ℤ
to_signed w u = if ltb u (2 ^ (w - 1)) then pos u else negsuc (2 ^ w - 1 - u)

abbrev pub to_unsigned : ℕ → ℤ → ℕ
to_unsigned w (pos n) = n % 2 ^ w
to_unsigned w (negsuc n) = 2 ^ w - 1 - n % 2 ^ w

-- The range of a signed integer of `w` bits.
abbrev pub InRange : ℕ → ℤ → Type 0
InRange w (pos n) = n < 2 ^ (w - 1)
InRange w (negsuc n) = n < 2 ^ (w - 1)

pub to_unsigned-to_signed8 : (u : ℕ) → u < 256 → to_unsigned 8 (to_signed 8 u) ≡ u
to_unsigned-to_signed8 u h = ground arith

pub to_unsigned-to_signed16 : (u : ℕ) → u < 65536 → to_unsigned 16 (to_signed 16 u) ≡ u
to_unsigned-to_signed16 u h = ground arith

pub to_unsigned-to_signed32 : (u : ℕ) → u < 4294967296 → to_unsigned 32 (to_signed 32 u) ≡ u
to_unsigned-to_signed32 u h = ground arith

pub to_signed-to_unsigned8 : (v : ℤ) → InRange 8 v → to_signed 8 (to_unsigned 8 v) ≡ v
to_signed-to_unsigned8 (pos n) h = ground arith
to_signed-to_unsigned8 (negsuc n) h =
    let e : 255 - (255 - n % 256) ≡ n = omega arith in ground (arith, ap negsuc e)

pub to_signed-to_unsigned16 : (v : ℤ) → InRange 16 v → to_signed 16 (to_unsigned 16 v) ≡ v
to_signed-to_unsigned16 (pos n) h = ground arith
to_signed-to_unsigned16 (negsuc n) h =
    let e : 65535 - (65535 - n % 65536) ≡ n = omega arith in ground (arith, ap negsuc e)

pub to_signed-to_unsigned32 : (v : ℤ) → InRange 32 v → to_signed 32 (to_unsigned 32 v) ≡ v
to_signed-to_unsigned32 (pos n) h = ground arith
to_signed-to_unsigned32 (negsuc n) h =
    let e : 4294967295 - (4294967295 - n % 4294967296) ≡ n = omega arith in
    ground (arith, ap negsuc e)
