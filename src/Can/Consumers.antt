-- ===== src/Can/Consumers.antt =====
-- emb/can/canopen/detail/rpdo_consumer.hpp, hb_consumer.hpp and hb_consumer.cpp: frames of other
-- nodes, and what is done when they fail to come. Handlers act on the application's state.
pub mod Losses
use emblib.Base.{
  ℕ, zero, suc, ◌-◌, ◌+◌, Bool, true, false, Option, none, some, List, [], ◌∷◌, ◌++◌, length, ltb,
  ◌==◌, ◌||◌, not, get_elem?, set, if◌then◌else◌,
}
use emblib.Can.{Payload, Frame, Transport, standard}
use emblib.Can.Types.{CobType, NmtState, is_operational, peer_cob_id, PdoId}
use emblib.Can.Producers.{pdo_id_of}

pub record RpdoSlot (S : Type 0) : Type 0 where
  pub cob_id : Option ℕ
  pub handler : Option (Payload → S → S)
  pub timeout : ℕ
  pub last_rx : ℕ
  pub on_timeout : Option (S → S)
  pub timed_out : Bool

pub record RpdoConfig (S : Type 0) : Type 0 where
  pub handler : Option (Payload → S → S)
  pub timeout : ℕ
  pub on_timeout : Option (S → S)

-- `s.cob_id == id`, for an optional
abbrev pub is_id : Option ℕ → ℕ → Bool
is_id none id = false
is_id (some own) id = own == id

module _ {S : Type 0} where
  -- A delegate that may be empty.
  abbrev pub call : Option (S → S) → S → S
  call none s = s
  call (some f) s = f s

  abbrev pub call_with : {P : Type 0} → Option (P → S → S) → P → S → S
  call_with none p s = s
  call_with (some f) p s = f p s

  -- A slot as `setup` leaves it.
  abbrev pub configured : ℕ → RpdoConfig S → ℕ → RpdoSlot S
  configured id config now = record {
    cob_id = some id;
    handler = config.handler;
    timeout = config.timeout;
    last_rx = now;
    on_timeout = config.on_timeout;
    timed_out = false;
  }

  -- `setup` of a slot that is there; the filter is asked for if the id is new to the slot.
  unfoldable pub setup_rpdo :
      {B : Type 0}
      → Transport B
      → ℕ
      → ℕ
      → PdoId
      → RpdoConfig S
      → ℕ
      → List (RpdoSlot S)
      → B
      → Option (List (RpdoSlot S) × B)
  setup_rpdo {B} bus node_id i id config now slots b =
      let cob_id = pdo_id_of CobType.rpdo i node_id id in place (get_elem? slots (i - 1)) cob_id
    where
      place : Option (RpdoSlot S) → ℕ → Option (List (RpdoSlot S) × B)
      place none cob_id = none
      place (some slot) cob_id = some (
        set slots (i - 1) (configured cob_id config now),
        if is_id slot.cob_id cob_id then b else bus.add_filter standard cob_id 0x7FF b,
      )

  -- `try_handle`: the first slot with the frame's id takes it.
  unfoldable pub handle_rpdo :
      Frame → ℕ → NmtState → List (RpdoSlot S) → S → Bool × List (RpdoSlot S) × S
  handle_rpdo frame now state [] s = (false, [], s)
  handle_rpdo frame now state (slot ∷ slots) s =
      let (found, slots', s') = handle_rpdo frame now state slots s in
      if is_id slot.cob_id frame.id
      then (if is_operational state
          then (
            true,
            record slot { last_rx = now; timed_out = false } ∷ slots,
            call_with slot.handler frame.payload s,
          )
          else (true, slot ∷ slots, s))
      else (found, slot ∷ slots', s')

  -- Whether a slot times out on this tick.
  abbrev pub expires : ℕ → RpdoSlot S → Bool
  expires now slot =
      not (slot.timeout == 0 || slot.timed_out || ltb (now - slot.last_rx) slot.timeout)

  -- The loop of `tick`, with the number of slots that time out.
  unfoldable pub expire_slots : ℕ → List (RpdoSlot S) → S → ℕ × List (RpdoSlot S) × S
  expire_slots now [] s = (0, [], s)
  expire_slots now (slot ∷ slots) s =
      let expired = expires now slot in
      let (n, slots', s') =
        expire_slots now slots (if expired then call slot.on_timeout s else s) in
      if expired
      then (suc n, record slot { timed_out = true } ∷ slots', s')
      else (n, slot ∷ slots', s')

  unfoldable pub tick_rpdo : ℕ → NmtState → List (RpdoSlot S) → S → ℕ × List (RpdoSlot S) × S
  tick_rpdo now state slots s =
      if is_operational state then expire_slots now slots s else (0, slots, s)

  unfoldable pub reset_timers : ℕ → List (RpdoSlot S) → List (RpdoSlot S)
  reset_timers now [] = []
  reset_timers now (slot ∷ slots) =
      record slot { last_rx = now; timed_out = false } ∷ reset_timers now slots

pub record WatchSlot (S : Type 0) : Type 0 where
  pub cob_id : ℕ
  pub remote : ℕ
  pub timeout : ℕ
  pub last_rx : ℕ
  pub lost : Bool
  pub on_lost : Option (ℕ → S → S)

abbrev pub watch_capacity : ℕ
watch_capacity = 8

module _ {S : Type 0} where
  -- The first loop of `watch`: the watches with the one on the id renewed, if there is one.
  unfoldable pub renew :
      ℕ → ℕ → Option (ℕ → S → S) → ℕ → List (WatchSlot S) → Option (List (WatchSlot S))
  renew cob_id timeout on_lost now [] = none
  renew cob_id timeout on_lost now (w ∷ ws) =
      let rest = renew cob_id timeout on_lost now ws in
      if w.cob_id == cob_id
      then some
          (record w { timeout = timeout; on_lost = on_lost; last_rx = now; lost = false } ∷ ws)
      else prepend rest
    where
      prepend : Option (List (WatchSlot S)) → Option (List (WatchSlot S))
      prepend none = none
      prepend (some l) = some (w ∷ l)

  unfoldable pub watch :
      {B : Type 0}
      → Transport B
      → ℕ
      → ℕ
      → Option (ℕ → S → S)
      → ℕ
      → List (WatchSlot S)
      → B
      → Bool × List (WatchSlot S) × B
  watch {B} bus remote timeout on_lost now ws b =
      let cob_id = peer_cob_id CobType.heartbeat remote in
      settle cob_id (renew cob_id timeout on_lost now ws)
    where
      settle : ℕ → Option (List (WatchSlot S)) → Bool × List (WatchSlot S) × B
      settle cob_id (some renewed) = (true, renewed, b)
      settle cob_id none = if length ws == watch_capacity then (false, ws, b) else (
        true,
        ws
            ++ record {
              cob_id = cob_id;
              remote = remote;
              timeout = timeout;
              last_rx = now;
              lost = false;
              on_lost = on_lost;
            }
              ∷ [],
        bus.add_filter standard cob_id 0x7FF b,
      )

  -- `try_handle`
  unfoldable pub handle_heartbeat : Frame → ℕ → List (WatchSlot S) → Bool × List (WatchSlot S)
  handle_heartbeat frame now [] = (false, [])
  handle_heartbeat frame now (w ∷ ws) =
      let (found, ws') = handle_heartbeat frame now ws in
      if w.cob_id == frame.id
      then (true, record w { last_rx = now; lost = false } ∷ ws)
      else (found, w ∷ ws')

  abbrev pub is_silent : ℕ → WatchSlot S → Bool
  is_silent now w = not (w.timeout == 0 || w.lost || ltb (now - w.last_rx) w.timeout)

  -- `tick`
  unfoldable pub tick_watches : ℕ → List (WatchSlot S) → S → List (WatchSlot S) × S
  tick_watches now [] s = ([], s)
  tick_watches now (w ∷ ws) s =
      let silent = is_silent now w in
      let (ws', s') = tick_watches now ws (if silent then call_with w.on_lost w.remote s else s) in
      ((if silent then record w { lost = true } else w) ∷ ws', s')
