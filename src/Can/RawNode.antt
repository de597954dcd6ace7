-- ===== src/Can/RawNode.antt =====
-- emb/can/raw/node.hpp: frames by format, id and mask, and periodic frames, without CANopen. Handlers,
-- providers and `on_timeout` act on the application's state; they do not call the node back. The queue
-- of received frames is its contents, and the frames that arrive while `run` empties it count as
-- queued before. A result `none` is a failed `ensure`.
pub mod Slots
mod Tests
use Prim.Native.Nat.{bit_and}
use emblib.Base.{
  ℕ, suc, ◌-◌, Bool, true, false, ◌&&◌, ◌||◌, not, Option, none, some, List, [], ◌∷◌, ◌++◌, length,
  ltb, ◌==◌, if◌then◌else◌,
}
use emblib.Can.{Payload, Format, standard, extended, Frame, Transport}
use emblib.Can.Consumers.{call, call_with}

pub record NodeOptions : Type 0 where
  pub rx_slots : ℕ
  pub tx_slots : ℕ
  pub rx_queue_capacity : ℕ

pub record RxSlot (S : Type 0) : Type 0 where
  pub format : Format
  pub id : ℕ
  pub mask : ℕ
  pub timeout : ℕ
  pub last_rx : ℕ
  pub timed_out : Bool
  pub handler : Option (Frame → S → S)
  pub on_timeout : Option (S → S)

pub record TxSlot (S : Type 0) : Type 0 where
  pub format : Format
  pub id : ℕ
  pub len : ℕ
  pub period : ℕ
  pub last_tx : ℕ
  pub provider : Option (S → Payload × S)

pub record Node (S : Type 0) : Type 0 where
  pub now : ℕ
  pub rx : List (RxSlot S)
  pub tx : List (TxSlot S)
  pub rx_queue : List Frame

abbrev pub format_eq : Format → Format → Bool
format_eq standard standard = true
format_eq extended extended = true
format_eq _ _ = false

module _ {S : Type 0} where
  unfoldable pub new_node : Node S
  new_node = record { now = 0; rx = []; tx = []; rx_queue = [] }

  -- `enqueue_rx`: the newest frame is dropped where the queue is full.
  unfoldable pub enqueue_rx : NodeOptions → Frame → Node S → Node S
  enqueue_rx options frame node =
      if ltb (length node.rx_queue) options.rx_queue_capacity
      then record node { rx_queue = node.rx_queue ++ frame ∷ [] }
      else node

  unfoldable pub add_rx :
      {B : Type 0} → Transport B → NodeOptions → RxSlot S → Node S → B → Option (Node S × B)
  add_rx bus options slot node b =
      if ltb (length node.rx) options.rx_slots
      then some (
        record node { rx = node.rx ++ record slot { last_rx = node.now; timed_out = false } ∷ [] },
        bus.add_filter slot.format slot.id slot.mask b,
      )
      else none

  unfoldable pub add_periodic_tx : NodeOptions → TxSlot S → Node S → Option (Node S)
  add_periodic_tx options slot node =
      if ltb (length node.tx) options.tx_slots
      then some (record node { tx = node.tx ++ record slot { last_tx = node.now } ∷ [] })
      else none

  -- Whether a slot is for a frame.
  abbrev pub accepts : Frame → RxSlot S → Bool
  accepts frame slot =
      format_eq frame.format slot.format && bit_and frame.id slot.mask == bit_and slot.id slot.mask

  -- The first slot that is for the frame takes it.
  unfoldable pub dispatch_rx : Frame → ℕ → List (RxSlot S) → S → List (RxSlot S) × S
  dispatch_rx frame now [] s = ([], s)
  dispatch_rx frame now (slot ∷ slots) s =
      let (slots', s') = dispatch_rx frame now slots s in
      if accepts frame slot
      then (
        record slot { last_rx = now; timed_out = false } ∷ slots,
        call_with slot.handler frame s,
      )
      else (slot ∷ slots', s')

  -- The loops of `run`: the queue, the timeouts, and the frames that are due.
  unfoldable pub empty_queue : List Frame → ℕ → List (RxSlot S) → S → List (RxSlot S) × S
  empty_queue [] now slots s = (slots, s)
  empty_queue (frame ∷ frames) now slots s =
      let (slots', s') = dispatch_rx frame now slots s in empty_queue frames now slots' s'

  abbrev pub expires : ℕ → RxSlot S → Bool
  expires now slot =
      not (slot.timeout == 0 || slot.timed_out) && not (ltb (now - slot.last_rx) slot.timeout)

  unfoldable pub expire_slots : ℕ → List (RxSlot S) → S → List (RxSlot S) × S
  expire_slots now [] s = ([], s)
  expire_slots now (slot ∷ slots) s =
      let expired = expires now slot in
      let (slots', s') = expire_slots now slots (if expired then call slot.on_timeout s else s) in
      ((if expired then record slot { timed_out = true } else slot) ∷ slots', s')

  module _ {B : Type 0} (bus : Transport B) where
    -- The body of the last loop.
    abbrev pub send_slot : ℕ → TxSlot S → Option (S → Payload × S) → S → B → TxSlot S × S × B
    send_slot now slot none s b = (slot, s, b)
    send_slot now slot (some provider) s b =
        let (payload, s') = provider s in
        let (sent, b') =
          bus.send
            (record { format = slot.format; id = slot.id; len = slot.len; payload = payload }) b in
        if slot.period == 0 || ltb (now - slot.last_tx) slot.period
        then (slot, s, b)
        else ((if sent then record slot { last_tx = now } else slot), s', b')

    unfoldable pub send_slots : ℕ → List (TxSlot S) → S → B → List (TxSlot S) × S × B
    send_slots now [] s b = ([], s, b)
    send_slots now (slot ∷ slots) s b =
        let (slot', s', b') = send_slot now slot slot.provider s b in
        let (slots', s'', b'') = send_slots now slots s' b' in (slot' ∷ slots', s'', b'')

    unfoldable pub run : ℕ → Node S → S → B → Node S × S × B
    run since_boot node s b =
        let (rx, s1) = empty_queue node.rx_queue since_boot node.rx s in
        let (rx', s2) = expire_slots since_boot rx s1 in
        let (tx, s3, b') = send_slots since_boot node.tx s2 b in
        (record { now = since_boot; rx = rx'; tx = tx; rx_queue = [] }, s3, b')
