-- ===== src/Can/Nmt.antt =====
-- emb/can/canopen/detail/nmt_slave.hpp: the commands of the network master.
use emblib.Base.{ℕ, Bool, Option, none, some, ltb, ◌==◌, ◌&&◌, not, if◌then◌else◌}
use emblib.Can.{Payload, bytes, Frame}
use emblib.Can.Types.{
  CobType, broadcast_cob_id, NmtCommand, start, stop, enter_pre_operational, reset_node,
  reset_communication,
}

abbrev pub nmt_cob_id : ℕ
nmt_cob_id = broadcast_cob_id CobType.nmt

-- `match`
abbrev pub matches : Frame → Bool
matches frame = frame.id == nmt_cob_id

unfoldable pub decode_payload : ℕ → Payload → Option NmtCommand
decode_payload node_id (bytes cs target _ _ _ _ _ _) =
    if not (target == 0) && not (target == node_id)
    then none
    else if cs == 0x01
    then some start
    else if cs == 0x02
    then some stop
    else if cs == 0x80
    then some enter_pre_operational
    else if cs == 0x81
    then some reset_node
    else if cs == 0x82
    then some reset_communication
    else none

unfoldable pub decode : ℕ → Frame → Option NmtCommand
decode node_id frame = if ltb frame.len 2 then none else decode_payload node_id frame.payload
