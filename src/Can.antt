-- ===== src/Can.antt =====
-- emb/can.hpp and emb/can/bus.hpp: frames, and the transport that a driver implements. The driver
-- is a parameter: `B` is the state of the bus, and the operations say what a call does with it.
pub mod Types
pub mod Sdo
pub mod Od
pub mod Dictionary
pub mod SdoServer
pub mod Nmt
pub mod Producers
pub mod Consumers
pub mod Server
pub mod RawNode
mod Sample
mod Tests
use emblib.Base.{ℕ, Bool}

-- `payload_t`, the eight bytes in order
pub data Payload : Type 0 where
  bytes : (b0 b1 b2 b3 b4 b5 b6 b7 : ℕ) → Payload

pub data Format : Type 0 where
  standard extended : Format

pub record Frame : Type 0 where
  pub format : Format
  pub id : ℕ
  pub len : ℕ
  pub payload : Payload

pub record Transport (B : Type 0) : Type 0 where
  pub send : Frame → B → Bool × B
  pub add_filter : Format → ℕ → ℕ → B → B
