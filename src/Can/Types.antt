-- ===== src/Can/Types.antt =====
-- emb/can/canopen/types.hpp: node states, commands and the predefined COB-IDs.
pub mod Ids
use emblib.Base.{ℕ, ◌+◌, ◌-◌, ◌*◌, ◌≤◌, ◌<◌, ◌≡◌, Bool, true, false}

pub data NmtState : Type 0 where
  initializing stopped operational pre_operational : NmtState

-- `std::to_underlying` of a state
abbrev pub state_code : NmtState → ℕ
state_code initializing = 0x00
state_code stopped = 0x04
state_code operational = 0x05
state_code pre_operational = 0x7F

-- `state == nmt_state::operational`
abbrev pub is_operational : NmtState → Bool
is_operational operational = true
is_operational _ = false

pub data NmtCommand : Type 0 where
  start stop enter_pre_operational reset_node reset_communication : NmtCommand

pub data CobType : Type 0 where
  nmt sync emcy time tpdo rpdo tsdo rsdo heartbeat : CobType

-- `cob_function_codes`
unfoldable pub cob_function_code : CobType → ℕ
cob_function_code nmt = 0x000
cob_function_code sync = 0x080
cob_function_code emcy = 0x080
cob_function_code time = 0x100
cob_function_code tpdo = 0x180
cob_function_code rpdo = 0x200
cob_function_code tsdo = 0x580
cob_function_code rsdo = 0x600
cob_function_code heartbeat = 0x700

-- The services of the three overloads of `cob_id_of`: `broadcast_cob`, `peer_cob` and `pdo_cob`.
pub data IsBroadcast : CobType → Type 0 where
  nmt_broadcast : IsBroadcast nmt
  sync_broadcast : IsBroadcast sync
  time_broadcast : IsBroadcast time

pub data IsPdo : CobType → Type 0 where
  tpdo_pdo : IsPdo tpdo
  rpdo_pdo : IsPdo rpdo

pub data IsPeer : CobType → Type 0 where
  emcy_peer : IsPeer emcy
  tsdo_peer : IsPeer tsdo
  rsdo_peer : IsPeer rsdo
  heartbeat_peer : IsPeer heartbeat

unfoldable pub broadcast_cob_id : CobType → ℕ
broadcast_cob_id service = cob_function_code service

unfoldable pub peer_cob_id : CobType → ℕ → ℕ
peer_cob_id service node_id = cob_function_code service + node_id

unfoldable pub pdo_cob_id : CobType → ℕ → ℕ → ℕ
pdo_cob_id pdo i node_id = cob_function_code pdo + 0x100 * (i - 1) + node_id

-- A COB-ID as the templates can be instantiated, with what their `requires` and `static_assert`
-- ask for.
pub data Cob : Type 0 where
  broadcast : CobType → Cob
  peer : CobType → ℕ → Cob
  pdo : CobType → ℕ → ℕ → Cob

abbrev pub IsNodeId : ℕ → Type 0
IsNodeId n = (1 ≤ n) × (n ≤ 127)

pub data IsCob : Cob → Type 0 where
  a_broadcast : {s : CobType} → IsBroadcast s → IsCob (broadcast s)
  a_peer : {s : CobType} (n : ℕ) → IsPeer s → IsNodeId n → IsCob (peer s n)
  a_pdo : {s : CobType} (i n : ℕ) → IsPdo s → (1 ≤ i) × (i ≤ 4) → IsNodeId n → IsCob (pdo s i n)

unfoldable pub cob_id_of : Cob → ℕ
cob_id_of (broadcast s) = broadcast_cob_id s
cob_id_of (peer s n) = peer_cob_id s n
cob_id_of (pdo s i n) = pdo_cob_id s i n

-- `pdo_id`
pub data PdoId : Type 0 where
  predefined : PdoId
  custom : ℕ → PdoId
