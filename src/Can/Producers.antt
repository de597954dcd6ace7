-- ===== src/Can/Producers.antt =====
-- emb/can/canopen/detail/hb_producer.hpp, sync_producer.hpp, emcy_producer.hpp and
-- tpdo_producer.hpp: what a node sends by itself. Times are milliseconds; a difference that the
-- source takes of them is negative where this one is zero, and either is less than any period
-- that is not zero.
pub mod Spacing
use emblib.Base.{
  ℕ, suc, ◌-◌, ◌/◌, ◌%◌, Bool, true, false, Option, none, some, List, [], ◌∷◌, ltb, ◌==◌, set,
  if◌then◌else◌,
}
use emblib.Can.{Payload, bytes, Frame, Transport, standard}
use emblib.Can.Types.{
  CobType, NmtState, is_operational, state_code, broadcast_cob_id, peer_cob_id, pdo_cob_id, PdoId,
  predefined, custom,
}

-- `period_` and `last_tx_` of the producers
pub record Periodic : Type 0 where
  pub period : ℕ
  pub last_tx : ℕ

-- `set_period`
abbrev pub set_period : ℕ → ℕ → Periodic → Periodic
set_period period now p = record { period = period; last_tx = now }

abbrev pub no_payload : Payload
no_payload = bytes 0 0 0 0 0 0 0 0

abbrev pub heartbeat_frame : ℕ → NmtState → Frame
heartbeat_frame node_id state = record {
  format = standard;
  id = peer_cob_id CobType.heartbeat node_id;
  len = 1;
  payload = bytes (state_code state) 0 0 0 0 0 0 0;
}

abbrev pub sync_frame : Frame
sync_frame = record {
  format = standard;
  id = broadcast_cob_id CobType.sync;
  len = 0;
  payload = no_payload;
}

abbrev pub tpdo_frame : ℕ → Payload → Frame
tpdo_frame cob_id payload = record { format = standard; id = cob_id; len = 8; payload = payload }

module _ {B : Type 0} (bus : Transport B) where
  -- `tick` of the heartbeat and of the sync producer, for the frame that each of them sends.
  unfoldable pub tick : Frame → ℕ → Periodic → B → Periodic × B
  tick frame now p b =
      if p.period == 0
      then (p, b)
      else if ltb (now - p.last_tx) p.period
      then (p, b)
      else let sent = bus.send frame b in
        ((if sent.0 then record p { last_tx = now } else p), sent.1)

  unfoldable pub emit : ℕ → ℕ → ℕ → Payload → B → Bool × B
  emit node_id error_code error_register (bytes m0 m1 m2 m3 m4 _ _ _) b =
      bus.send
        (record {
          format = standard;
          id = peer_cob_id CobType.emcy node_id;
          len = 8;
          payload = bytes (error_code % 256) (error_code / 256 % 256) error_register m0 m1 m2 m3 m4;
        })
        b

-- A provider reads the application's state, and may change it.
pub record TpdoSlot (S : Type 0) : Type 0 where
  pub cob_id : ℕ
  pub provider : Option (S → Payload × S)
  pub period : ℕ
  pub last_tx : ℕ

pub record TpdoConfig (S : Type 0) : Type 0 where
  pub provider : Option (S → Payload × S)
  pub period : ℕ

-- The id that `setup` gives a slot.
unfoldable pub pdo_id_of : CobType → ℕ → ℕ → PdoId → ℕ
pdo_id_of pdo i node_id predefined = pdo_cob_id pdo i node_id
pdo_id_of pdo i node_id (custom value) = value

module _ {S : Type 0} where
  unfoldable pub setup_tpdo :
      ℕ → ℕ → PdoId → TpdoConfig S → ℕ → List (TpdoSlot S) → List (TpdoSlot S)
  setup_tpdo node_id i id config now slots = set slots (i - 1) (record {
    cob_id = pdo_id_of CobType.tpdo i node_id id;
    provider = config.provider;
    period = config.period;
    last_tx = now;
  })

module _ {S B : Type 0} (bus : Transport B) where
  abbrev pub provide : ℕ → TpdoSlot S → Option (S → Payload × S) → S → B → TpdoSlot S × S × B
  provide now slot none s b = (slot, s, b)
  provide now slot (some provider) s b =
      if slot.period == 0
      then (slot, s, b)
      else if ltb (now - slot.last_tx) slot.period
      then (slot, s, b)
      else let given = provider s in
        let sent = bus.send (tpdo_frame slot.cob_id given.0) b in
        ((if sent.0 then record slot { last_tx = now } else slot), given.1, sent.1)

  abbrev pub tick_slots : ℕ → List (TpdoSlot S) → S → B → List (TpdoSlot S) × S × B
  tick_slots now [] s b = ([], s, b)
  tick_slots now (slot ∷ slots) s b =
      let (slot', s', b') = provide now slot slot.provider s b in
      let (slots', s'', b'') = tick_slots now slots s' b' in (slot' ∷ slots', s'', b'')

  unfoldable pub tick_tpdo : ℕ → NmtState → List (TpdoSlot S) → S → B → List (TpdoSlot S) × S × B
  tick_tpdo now state slots s b =
      if is_operational state then tick_slots now slots s b else (slots, s, b)
