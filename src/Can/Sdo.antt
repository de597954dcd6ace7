-- ===== src/Can/Sdo.antt =====
-- emb/can/canopen/sdo.hpp: the frames of an expedited SDO transfer. A bit field is laid out from
-- the lowest bit of the first byte on, as GCC and Clang do on little-endian targets, and
-- `to_payload` and `from_payload` are the `std::bit_cast` of emb/can/canopen/types.hpp.
pub mod RoundTrip
use emblib.Base.{ℕ, ◌+◌, ◌*◌, ◌/◌, ◌%◌}
use emblib.Can.{Payload, bytes, Frame}

-- `sdo_cs_codes`
abbrev pub client_init_write : ℕ
client_init_write = 1

abbrev pub server_init_write : ℕ
server_init_write = 3

abbrev pub client_init_read : ℕ
client_init_read = 2

abbrev pub server_init_read : ℕ
server_init_read = 2

abbrev pub cs_abort : ℕ
cs_abort = 4

-- `(frame.payload[0] >> 5) & 0x07`
unfoldable pub get_cs_code : Payload → ℕ
get_cs_code (bytes b0 _ _ _ _ _ _ _) = b0 / 32 % 8

-- `expedited_sdo_data`
pub record ExpeditedSdoData : Type 0 where
  pub b0 : ℕ
  pub b1 : ℕ
  pub b2 : ℕ
  pub b3 : ℕ

abbrev pub raw : ℕ → ℕ → ℕ → ℕ → ExpeditedSdoData
raw a b c d = record { b0 = a; b1 = b; b2 = c; b3 = d }

pub record ExpeditedSdo : Type 0 where
  pub data_size_indicated : ℕ
  pub expedited_transfer : ℕ
  pub data_empty_bytes : ℕ
  pub reserved : ℕ
  pub cs : ℕ
  pub index : ℕ
  pub subindex : ℕ
  pub content : ExpeditedSdoData

-- The default constructor.
abbrev pub empty_sdo : ExpeditedSdo
empty_sdo = record {
  data_size_indicated = 0;
  expedited_transfer = 0;
  data_empty_bytes = 0;
  reserved = 0;
  cs = 0;
  index = 0;
  subindex = 0;
  content = raw 0 0 0 0;
}

pub data SdoAbortCode : Type 0 where
  invalid_cs unsupported_access read_from_write_only write_to_read_only : SdoAbortCode
  object_not_found hardware_error data_type_mismatch value_range_exceeded : SdoAbortCode
  value_too_high value_too_low general_error data_store_error : SdoAbortCode
  local_control_error state_error no_data_available : SdoAbortCode

abbrev pub abort_value : SdoAbortCode → ℕ
abort_value invalid_cs = 0x05040001
abort_value unsupported_access = 0x06010000
abort_value read_from_write_only = 0x06010001
abort_value write_to_read_only = 0x06010002
abort_value object_not_found = 0x06020000
abort_value hardware_error = 0x06060000
abort_value data_type_mismatch = 0x06070010
abort_value value_range_exceeded = 0x06090030
abort_value value_too_high = 0x06090031
abort_value value_too_low = 0x06090032
abort_value general_error = 0x08000000
abort_value data_store_error = 0x08000020
abort_value local_control_error = 0x08000021
abort_value state_error = 0x08000022
abort_value no_data_available = 0x08000024

pub record AbortSdo : Type 0 where
  pub reserved : ℕ
  pub cs : ℕ
  pub index : ℕ
  pub subindex : ℕ
  pub error_code : ℕ

abbrev pub abort_sdo : ℕ → ℕ → SdoAbortCode → AbortSdo
abort_sdo index subindex error_code = record {
  reserved = 0;
  cs = cs_abort;
  index = index;
  subindex = subindex;
  error_code = abort_value error_code;
}

-- The four bytes of a 32-bit integer, the lowest first, and the way back.
abbrev pub to_bytes : ℕ → ExpeditedSdoData
to_bytes u = raw (u % 256) (u / 256 % 256) (u / 65536 % 256) (u / 16777216 % 256)

abbrev pub from_bytes : ExpeditedSdoData → ℕ
from_bytes r = r.b0 + 256 * r.b1 + 65536 * r.b2 + 16777216 * r.b3

abbrev pub with_content : ℕ → ℕ → ℕ → ExpeditedSdoData → Payload
with_content head index subindex r =
    bytes head (index % 256) (index / 256) subindex r.b0 r.b1 r.b2 r.b3

-- `to_payload<expedited_sdo>` and `from_payload<expedited_sdo>`
unfoldable pub to_payload : ExpeditedSdo → Payload
to_payload s =
    with_content
      (s.data_size_indicated
        + 2 * s.expedited_transfer
        + 4 * s.data_empty_bytes
        + 16 * s.reserved
        + 32 * s.cs)
      s.index s.subindex s.content

unfoldable pub from_payload : Payload → ExpeditedSdo
from_payload (bytes b0 b1 b2 b3 b4 b5 b6 b7) = record {
  data_size_indicated = b0 % 2;
  expedited_transfer = b0 / 2 % 2;
  data_empty_bytes = b0 / 4 % 4;
  reserved = b0 / 16 % 2;
  cs = b0 / 32 % 8;
  index = b1 + 256 * b2;
  subindex = b3;
  content = raw b4 b5 b6 b7;
}

-- `to_payload<abort_sdo>`
unfoldable pub abort_payload : AbortSdo → Payload
abort_payload s = with_content (s.reserved + 32 * s.cs) s.index s.subindex (to_bytes s.error_code)
