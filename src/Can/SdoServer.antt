-- ===== src/Can/SdoServer.antt =====
-- emb/can/canopen/detail/sdo_server.hpp: expedited SDO transfers on the object dictionary. `S` is
-- the state of the application behind the entries, `B` that of the bus, and the first argument is
-- the template parameter `NodeId`. A result `none` is a fault: a call through a null pointer, or a
-- queue operation whose precondition does not hold.
pub mod Serves
pub mod Replies
pub mod Refusals
pub mod Drain
pub mod Transfers
mod Tests
use emblib.Base.{
  ℕ, zero, suc, ◌+◌, ◌-◌, ◌*◌, ◌%◌, Bool, true, false, Option, none, some, List, [], ◌∷◌, not, ◌&&◌,
  ◌==◌, if◌then◌else◌,
}
use emblib.Base.OptionMonad.{◌>>=◌}
use emblib.Base.Expected.{Expected, ok, unexpected}
use emblib.Container.InplaceQueue
use emblib.Container.InplaceQueue.{InplaceQueue, empty_queue}
use emblib.Can.{Payload, Frame, Transport, standard}
use emblib.Can.Types.{CobType, peer_cob_id}
use emblib.Can.Sdo.{
  ExpeditedSdo, empty_sdo, to_payload, from_payload, abort_payload, abort_sdo, SdoAbortCode,
  invalid_cs, read_from_write_only, write_to_read_only, object_not_found, no_data_available,
  client_init_write, client_init_read, server_init_write, server_init_read, cs_abort,
}
use emblib.Can.Dictionary.{init_dictionary, find}
use emblib.Can.Od.{
  OdKey, OdEntry, OdObject, OdValue, key_eq, has_read_permission, has_write_permission,
  make_od_value, to_raw, data_type_size,
}

abbrev pub tsdo_queue_capacity : ℕ
tsdo_queue_capacity = 16

pub record SdoServer (S : Type 0) : Type 0 where
  pub dictionary : List (OdEntry S)
  pub tsdo_queue : InplaceQueue Payload

abbrev pub restore_default_parameter_key : OdKey
restore_default_parameter_key = record { index = 0x1011; subindex = 0x04 }

abbrev pub to_write_response : ExpeditedSdo → ExpeditedSdo
to_write_response rsdo = record empty_sdo {
  index = rsdo.index;
  subindex = rsdo.subindex;
  cs = server_init_write;
}

-- `memcpy(&target, rsdo.data.data(), sizeof(target))`; the last byte is the padding.
abbrev pub restore_target : ExpeditedSdo → OdKey
restore_target rsdo = record {
  index = rsdo.content.b0 + 256 * rsdo.content.b1;
  subindex = rsdo.content.b2;
}

abbrev pub key_of : ExpeditedSdo → OdKey
key_of rsdo = record { index = rsdo.index; subindex = rsdo.subindex }

unfoldable pub response : ExpeditedSdo → Expected SdoAbortCode ExpeditedSdo → Payload
response rsdo (ok tsdo) = to_payload tsdo
response rsdo (unexpected code) = abort_payload (abort_sdo rsdo.index rsdo.subindex code)

unfoldable pub enqueue : InplaceQueue Payload → Payload → Option (InplaceQueue Payload)
enqueue q p =
    if InplaceQueue.is_full tsdo_queue_capacity q
    then some q
    else InplaceQueue.emplace tsdo_queue_capacity q p

abbrev pub rsdo_cob_id : ℕ → ℕ
rsdo_cob_id node_id = peer_cob_id CobType.rsdo node_id

abbrev pub tsdo_cob_id : ℕ → ℕ
tsdo_cob_id node_id = peer_cob_id CobType.tsdo node_id

module _ {S : Type 0} where
  abbrev pub to_read_response : ExpeditedSdo → OdObject S → OdValue → ExpeditedSdo
  to_read_response rsdo obj value = record empty_sdo {
    content = to_raw value;
    index = rsdo.index;
    subindex = rsdo.subindex;
    cs = server_init_read;
    expedited_transfer = 1;
    data_size_indicated = 1;
    data_empty_bytes = (4 - data_type_size obj.data_type) % 4;
  }

  abbrev pub read_result :
      ExpeditedSdo
      → OdObject S
      → Expected SdoAbortCode OdValue × S
      → Expected SdoAbortCode ExpeditedSdo × S
  read_result rsdo obj (ok value, s) = (ok (to_read_response rsdo obj value), s)
  read_result rsdo obj (unexpected code, s) = (unexpected code, s)

  abbrev pub write_result :
      ExpeditedSdo → Expected SdoAbortCode (Unit {0}) × S → Expected SdoAbortCode ExpeditedSdo × S
  write_result rsdo (ok _, s) = (ok (to_write_response rsdo), s)
  write_result rsdo (unexpected code, s) = (unexpected code, s)

  unfoldable pub read_expedited :
      OdEntry S → ExpeditedSdo → S → Option (Expected SdoAbortCode ExpeditedSdo × S)
  read_expedited entry rsdo s =
      if has_read_permission entry.object
      then (do read ← entry.object.read; some (read_result rsdo entry.object (read s)))
      else some (unexpected read_from_write_only, s)

  unfoldable pub write_expedited :
      OdEntry S → ExpeditedSdo → S → Option (Expected SdoAbortCode ExpeditedSdo × S)
  write_expedited entry rsdo s =
      if has_write_permission entry.object
      then (do
        write ← entry.object.write
        some (write_result rsdo (write (make_od_value rsdo.content entry.object.data_type) s)))
      else some (unexpected write_to_read_only, s)

  abbrev pub restore_entry :
      OdObject S → Option OdValue → S → Option (Expected SdoAbortCode (Unit {0}) × S)
  restore_entry obj none s = some (unexpected no_data_available, s)
  restore_entry obj (some value) s = do write ← obj.write; some (write value s)

  abbrev pub restore_found : Option (OdEntry S) → S → Option (Expected SdoAbortCode (Unit {0}) × S)
  restore_found none s = some (unexpected object_not_found, s)
  restore_found (some entry) s =
      if has_write_permission entry.object
      then restore_entry entry.object entry.object.default_value s
      else some (unexpected write_to_read_only, s)

  unfoldable pub restore_default_parameter :
      List (OdEntry S) → OdKey → S → Option (Expected SdoAbortCode (Unit {0}) × S)
  restore_default_parameter dictionary key s = restore_found (find dictionary key) s

  unfoldable pub write_restore_default :
      List (OdEntry S) → ExpeditedSdo → S → Option (Expected SdoAbortCode ExpeditedSdo × S)
  write_restore_default dictionary rsdo s = do
    r ← restore_default_parameter dictionary (restore_target rsdo) s
    some (write_result rsdo r)

  abbrev pub transfer :
      Option (OdEntry S) → ExpeditedSdo → S → Option (Expected SdoAbortCode ExpeditedSdo × S)
  transfer none rsdo s = some (unexpected object_not_found, s)
  transfer (some entry) rsdo s =
      if rsdo.cs == client_init_read
      then read_expedited entry rsdo s
      else if rsdo.cs == client_init_write
      then write_expedited entry rsdo s
      else some (unexpected invalid_cs, s)

  -- The lambda of `try_handle`.
  unfoldable pub respond :
      List (OdEntry S) → ExpeditedSdo → S → Option (Expected SdoAbortCode ExpeditedSdo × S)
  respond dictionary rsdo s =
      if rsdo.cs == client_init_write && key_eq (key_of rsdo) restore_default_parameter_key
      then write_restore_default dictionary rsdo s
      else transfer (find dictionary (key_of rsdo)) rsdo s

module _ {S : Type 0} (node_id : ℕ) where
  -- Constructor, with the filter that it asks of the bus.
  unfoldable pub make_server : {B : Type 0} → Transport B → List (OdEntry S) → B → SdoServer S × B
  make_server bus dictionary b = (
    record {
      dictionary = init_dictionary dictionary;
      tsdo_queue = empty_queue tsdo_queue_capacity;
    },
    bus.add_filter standard (rsdo_cob_id node_id) 0x7FF b,
  )

  unfoldable pub try_handle : Frame → SdoServer S → S → Option (Bool × SdoServer S × S)
  try_handle frame server s =
      let rsdo = from_payload frame.payload in
      if not (frame.id == rsdo_cob_id node_id)
      then some (false, server, s)
      else if rsdo.cs == cs_abort
      then some (true, server, s)
      else (do
        r ← respond server.dictionary rsdo s
        q ← enqueue server.tsdo_queue (response rsdo r.0)
        some (true, record server { tsdo_queue = q }, r.1))

-- A response as `drain` sends it.
abbrev pub tsdo_frame : ℕ → Payload → Frame
tsdo_frame node_id p = record { format = standard; id = tsdo_cob_id node_id; len = 8; payload = p }

module _ {B : Type 0} (bus : Transport B) (node_id : ℕ) where
  -- The loop of `drain`, with a count that bounds its rounds.
  unfoldable pub drain_from : ℕ → InplaceQueue Payload → B → Option (InplaceQueue Payload × B)
  drain_from zero q b = none
  drain_from (suc n) q b = if InplaceQueue.is_empty tsdo_queue_capacity q then some (q, b) else (do
    p ← InplaceQueue.front_value tsdo_queue_capacity q
    let sent = bus.send (tsdo_frame node_id p) b
    if sent.0
        then (do q' ← InplaceQueue.pop_front tsdo_queue_capacity q; drain_from n q' sent.1)
        else some (q, sent.1))

  unfoldable pub drain : {S : Type 0} → SdoServer S → B → Option (SdoServer S × B)
  drain server b = do
    r ← drain_from (suc tsdo_queue_capacity) server.tsdo_queue b
    some (record server { tsdo_queue = r.0 }, r.1)
