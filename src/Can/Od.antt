-- ===== src/Can/Od.antt =====
-- emb/can/canopen/od.hpp: the values of the object dictionary, its entries and their order. `S` is
-- the state of the application, which the access functions of an entry read and change. A `float`
-- is carried as its 32 bits, since it is only copied.
pub mod RoundTrip
use emblib.Base.{
  ℕ, ◌+◌, ◌*◌, Bool, true, false, not, ◌&&◌, ◌||◌, Option, none, some, ◌==◌, ltb, if◌then◌else◌,
}
use emblib.Base.Int.{ℤ, to_signed, to_unsigned}
use emblib.Base.Expected.{Expected, ok, unexpected}
use emblib.Can.Sdo.{
  ExpeditedSdoData, raw, to_bytes, from_bytes, SdoAbortCode, unsupported_access, data_type_mismatch,
}

-- `std::variant<bool, std::int8_t, …, float>`
pub data OdValue : Type 0 where
  bool_value : Bool → OdValue
  int8_value int16_value int32_value : ℤ → OdValue
  uint8_value uint16_value uint32_value : ℕ → OdValue
  float_value : ℕ → OdValue

pub data OdValueType : Type 0 where
  boolean int8 int16 int32 uint8 uint16 uint32 float32 exec string : OdValueType

pub data OdAccess : Type 0 where
  rw ro wo const : OdAccess

unfoldable pub make_od_value : ExpeditedSdoData → OdValueType → OdValue
make_od_value r boolean = bool_value (not (r.b0 == 0))
make_od_value r int8 = int8_value (to_signed 8 r.b0)
make_od_value r int16 = int16_value (to_signed 16 (r.b0 + 256 * r.b1))
make_od_value r int32 = int32_value (to_signed 32 (from_bytes r))
make_od_value r uint8 = uint8_value r.b0
make_od_value r uint16 = uint16_value (r.b0 + 256 * r.b1)
make_od_value r uint32 = uint32_value (from_bytes r)
make_od_value r exec = uint32_value (from_bytes r)
make_od_value r float32 = float_value (from_bytes r)
make_od_value r string = uint32_value 0

-- `memcpy` of the value's own size over four zeros
unfoldable pub to_raw : OdValue → ExpeditedSdoData
to_raw (bool_value b) = raw (if b then 1 else 0) 0 0 0
to_raw (int8_value v) = raw (to_unsigned 8 v) 0 0 0
to_raw (int16_value v) = to_bytes (to_unsigned 16 v)
to_raw (int32_value v) = to_bytes (to_unsigned 32 v)
to_raw (uint8_value v) = raw v 0 0 0
to_raw (uint16_value v) = to_bytes v
to_raw (uint32_value v) = to_bytes v
to_raw (float_value v) = to_bytes v

-- `od_data_type_sizes`
abbrev pub data_type_size : OdValueType → ℕ
data_type_size boolean = 1
data_type_size int8 = 1
data_type_size int16 = 2
data_type_size int32 = 4
data_type_size uint8 = 1
data_type_size uint16 = 2
data_type_size uint32 = 4
data_type_size float32 = 4
data_type_size exec = 4
data_type_size string = 4

pub record OdKey : Type 0 where
  pub index : ℕ
  pub subindex : ℕ

-- `operator<` and `operator==`, on the keys of both sides
abbrev pub key_lt : OdKey → OdKey → Bool
key_lt a b = ltb a.index b.index || (a.index == b.index && ltb a.subindex b.subindex)

abbrev pub key_eq : OdKey → OdKey → Bool
key_eq a b = a.index == b.index && a.subindex == b.subindex

-- An access function may be a null pointer.
pub record OdObject (S : Type 0) : Type 0 where
  pub access : OdAccess
  pub data_type : OdValueType
  pub default_value : Option OdValue
  pub read : Option (S → Expected SdoAbortCode OdValue × S)
  pub write : Option (OdValue → S → Expected SdoAbortCode (Unit {0}) × S)

abbrev pub can_read : OdAccess → Bool
can_read wo = false
can_read _ = true

abbrev pub can_write : OdAccess → Bool
can_write rw = true
can_write wo = true
can_write _ = false

pub record OdEntry (S : Type 0) : Type 0 where
  pub key : OdKey
  pub object : OdObject S

module _ {S : Type 0} where
  abbrev pub has_read_permission : OdObject S → Bool
  has_read_permission o = can_read o.access

  abbrev pub has_write_permission : OdObject S → Bool
  has_write_permission o = can_write o.access

  abbrev pub od_no_read : S → Expected SdoAbortCode OdValue × S
  od_no_read s = (unexpected unsupported_access, s)

  abbrev pub od_no_write : OdValue → S → Expected SdoAbortCode (Unit {0}) × S
  od_no_write v s = (unexpected unsupported_access, s)

  -- `od_read_var` and `od_write_var` for a variable that holds one alternative of the variant:
  -- where it is in the state, and which values `std::get_if` takes for it.
  unfoldable pub od_read_var : (S → OdValue) → S → Expected SdoAbortCode OdValue × S
  od_read_var var s = (ok (var s), s)

  unfoldable pub od_write_var :
      (OdValue → Bool) → (OdValue → S → S) → OdValue → S → Expected SdoAbortCode (Unit {0}) × S
  od_write_var holds_alternative assign v s =
      if holds_alternative v then (ok tt, assign v s) else (unexpected data_type_mismatch, s)
