-- ===== src/Can/Od/RoundTrip.antt =====
-- The values of the object dictionary and the four bytes of an expedited transfer.
use native.Mathlib.Nat.{mod-lt, one-le-pow}
use emblib.Base.{
  ℕ, ◌+◌, ◌*◌, ◌^◌, ◌==◌, ◌<◌, ◌≡◌, refl, ◌∙◌, ap, Bool, true, false, arith, if◌then◌else◌,
}
use emblib.Base.Int.{
  InRange, to_signed, to_unsigned-to_signed8, to_unsigned-to_signed16, to_unsigned-to_signed32,
  to_signed-to_unsigned8, to_signed-to_unsigned16, to_signed-to_unsigned32, to_unsigned, ℤ, pos,
  negsuc,
}
use emblib.Can.Sdo.{ExpeditedSdoData, raw, to_bytes, from_bytes}
use emblib.Can.Od.{
  OdValue, bool_value, int8_value, int16_value, int32_value, uint8_value, uint16_value,
  uint32_value, float_value, OdValueType, boolean, int8, int16, int32, uint8, uint16, uint32,
  float32, exec, string, make_od_value, to_raw,
}

-- The values of a type, within the type's range.
pub data HasType : OdValueType → OdValue → Type 0 where
  a_bool : (b : Bool) → HasType boolean (bool_value b)
  an_int8 : (v : ℤ) → InRange 8 v → HasType int8 (int8_value v)
  an_int16 : (v : ℤ) → InRange 16 v → HasType int16 (int16_value v)
  an_int32 : (v : ℤ) → InRange 32 v → HasType int32 (int32_value v)
  a_uint8 : (v : ℕ) → v < 256 → HasType uint8 (uint8_value v)
  a_uint16 : (v : ℕ) → v < 65536 → HasType uint16 (uint16_value v)
  a_uint32 : (v : ℕ) → v < 4294967296 → HasType uint32 (uint32_value v)
  a_command : (v : ℕ) → v < 4294967296 → HasType exec (uint32_value v)
  a_float : (v : ℕ) → v < 4294967296 → HasType float32 (float_value v)

pub record IsRaw (r : ExpeditedSdoData) : Type 0 where
  pub byte0 : r.b0 < 256
  pub byte1 : r.b1 < 256
  pub byte2 : r.b2 < 256
  pub byte3 : r.b3 < 256

-- What a value of a type keeps of four bytes: the bytes of its size, and one bit of a boolean.
abbrev pub kept_bytes : OdValueType → ExpeditedSdoData → ExpeditedSdoData
kept_bytes boolean r = raw (if r.b0 == 0 then 0 else 1) 0 0 0
kept_bytes int8 r = raw r.b0 0 0 0
kept_bytes int16 r = raw r.b0 r.b1 0 0
kept_bytes int32 r = r
kept_bytes uint8 r = raw r.b0 0 0 0
kept_bytes uint16 r = raw r.b0 r.b1 0 0
kept_bytes uint32 r = r
kept_bytes float32 r = r
kept_bytes exec r = r
kept_bytes string r = raw 0 0 0 0

bytes_back : (u : ℕ) → u < 4294967296 → from_bytes (to_bytes u) ≡ u
bytes_back u h = omega arith

low_bytes_back : (u : ℕ) → u < 65536 → (to_bytes u).b0 + 256 * (to_bytes u).b1 ≡ u
low_bytes_back u h = omega arith

signed_bits : (w : ℕ) (v : ℤ) → to_unsigned w v < 2 ^ w
signed_bits w (pos n) = mod-lt n (one-le-pow w 2 (omega arith))
signed_bits w (negsuc n) = omega (arith, one-le-pow w 2 (omega arith))

value_survives : {t : OdValueType} {v : OdValue} → HasType t v → make_od_value (to_raw v) t ≡ v
unfolding make_od_value to_raw
value_survives (a_bool true) = refl
value_survives (a_bool false) = refl
value_survives (an_int8 v h) = ap int8_value (to_signed-to_unsigned8 v h)
value_survives (an_int16 v h) =
    ap (λ u. int16_value (to_signed 16 u)) (low_bytes_back (to_unsigned 16 v) (signed_bits 16 v))
    ∙ ap int16_value (to_signed-to_unsigned16 v h)
value_survives (an_int32 v h) =
    ap (λ u. int32_value (to_signed 32 u)) (bytes_back (to_unsigned 32 v) (signed_bits 32 v))
    ∙ ap int32_value (to_signed-to_unsigned32 v h)
value_survives (a_uint8 v h) = refl
value_survives (a_uint16 v h) = ap uint16_value (low_bytes_back v h)
value_survives (a_uint32 v h) = ap uint32_value (bytes_back v h)
value_survives (a_command v h) = ap uint32_value (bytes_back v h)
value_survives (a_float v h) = ap float_value (bytes_back v h)

same_bytes :
    {r s : ExpeditedSdoData} → r.b0 ≡ s.b0 → r.b1 ≡ s.b1 → r.b2 ≡ s.b2 → r.b3 ≡ s.b3 → r ≡ s
same_bytes a b c d = λ i. raw (a i) (b i) (c i) (d i)

word_back : (r : ExpeditedSdoData) → IsRaw r → to_bytes (from_bytes r) ≡ r
word_back r h =
    same_bytes (omega (arith, h.byte0)) (omega (arith, h.byte0, h.byte1))
      (omega (arith, h.byte0, h.byte1, h.byte2)) (omega (arith, h.byte0, h.byte1, h.byte2, h.byte3))

from_bytes_small : (r : ExpeditedSdoData) → IsRaw r → from_bytes r < 4294967296
from_bytes_small r h = omega (arith, h.byte0, h.byte1, h.byte2, h.byte3)

half_back :
    (r : ExpeditedSdoData)
    → IsRaw r
    → (r.b0 + 256 * r.b1 < 65536) × (to_bytes (r.b0 + 256 * r.b1) ≡ raw r.b0 r.b1 0 0)
half_back r h = (
  omega (arith, h.byte0, h.byte1),
  same_bytes (omega (arith, h.byte0)) (omega (arith, h.byte0, h.byte1))
      (omega (arith, h.byte0, h.byte1)) (omega (arith, h.byte0, h.byte1)),
)

-- The bytes of the value that is read from four bytes.
pub bytes_survive :
    (t : OdValueType) (r : ExpeditedSdoData) → IsRaw r → to_raw (make_od_value r t) ≡ kept_bytes t r
unfolding make_od_value to_raw
bytes_survive boolean r h = ground arith
bytes_survive int8 r h = ap (λ u. raw u 0 0 0) (to_unsigned-to_signed8 r.b0 h.byte0)
bytes_survive int16 r h =
    ap to_bytes (to_unsigned-to_signed16 (r.b0 + 256 * r.b1) (half_back r h).0) ∙ (half_back r h).1
bytes_survive int32 r h =
    ap to_bytes (to_unsigned-to_signed32 (from_bytes r) (from_bytes_small r h)) ∙ word_back r h
bytes_survive uint8 r h = refl
bytes_survive uint16 r h = (half_back r h).1
bytes_survive uint32 r h = word_back r h
bytes_survive float32 r h = word_back r h
bytes_survive exec r h = word_back r h
bytes_survive string r h = refl

-- A value within the range of its type comes back from its four bytes as it was, and the bytes of the
-- value that is read from four bytes are those that the type keeps.
pub values_correspond :
    {t : OdValueType} {v : OdValue} (u : OdValueType) (r : ExpeditedSdoData)
    → HasType t v
    → IsRaw r
    → (make_od_value (to_raw v) t ≡ v) × (to_raw (make_od_value r u) ≡ kept_bytes u r)
values_correspond u r h k = (value_survives h, bytes_survive u r k)
