-- ===== src/Can/SdoServer/Refusals.antt =====
-- The requests that the server in emb/can/canopen/detail/sdo_server.hpp refuses, and what it answers.
use emblib.Base.{
  ℕ, ◌≡◌, ◌≢◌, refl, inl, inr, Bool, true, false, Bool-cases, Option-cases, none, Option, some,
  List, arith, ◌==◌, ◌&&◌,
}
use emblib.Base.Expected.{Expected, unexpected}
use emblib.Container.InplaceQueue.Refine.{QueueHolds}
use emblib.Can.{Payload, Frame}
use emblib.Can.Sdo.{
  ExpeditedSdo, from_payload, abort_payload, abort_sdo, SdoAbortCode, invalid_cs,
  read_from_write_only, write_to_read_only, object_not_found, no_data_available, client_init_write,
  client_init_read, cs_abort,
}
use emblib.Can.Od.{OdKey, OdEntry, key_eq, has_read_permission, has_write_permission}
use emblib.Can.Dictionary.{init_dictionary, find}
use emblib.Can.Dictionary.Find.{In, KeysDistinct, find_exact}
use emblib.Can.SdoServer.{
  SdoServer, tsdo_queue_capacity, respond, response, try_handle, rsdo_cob_id, restore_target,
  key_of, restore_default_parameter_key, read_expedited, write_expedited, write_restore_default,
  restore_default_parameter,
}
use emblib.Can.SdoServer.Replies.{offered, enqueue-QueueHolds}

-- A download to the object that restores a parameter's default value.
abbrev pub IsRestore : ExpeditedSdo → Type 0
IsRestore r = (r.cs ≡ client_init_write) × (r.index ≡ 0x1011) × (r.subindex ≡ 0x04)

abbrev restore_test : ExpeditedSdo → Bool
restore_test r = r.cs == client_init_write && key_eq (key_of r) restore_default_parameter_key

restore_test-true : (r : ExpeditedSdo) → IsRestore r → restore_test r ≡ true
restore_test-true r (cs, index, subindex) = ground arith

restore_test-false : (r : ExpeditedSdo) → (IsRestore r → ⊥) → restore_test r ≡ false
restore_test-false r other = elim (Bool-cases (restore_test r)) [
  | inl is ↦ absurd (other (ground arith, ground arith, ground arith))
  | inr is_not ↦ is_not
]

module _ {S : Type 0} where
  -- An entry of a list that has a key, and a key that no entry has.
  abbrev pub At : List (OdEntry S) → OdKey → OdEntry S → Type 0
  At es key e = In e es × (e.key ≡ key)

  abbrev pub Absent : List (OdEntry S) → OdKey → Type 0
  Absent es key = (e : OdEntry S) → At es key e → ⊥

  -- Why a request is refused, and the code that says so.
  pub data Refused (es : List (OdEntry S)) (r : ExpeditedSdo) : SdoAbortCode → Type 0 where
    no_object : (IsRestore r → ⊥) → Absent es (key_of r) → Refused es r object_not_found
    write_only :
        (e : OdEntry S)
        → At es (key_of r) e
        → r.cs ≡ client_init_read
        → has_read_permission e.object ≡ false
        → Refused es r read_from_write_only
    read_only :
        (e : OdEntry S)
        → (IsRestore r → ⊥)
        → At es (key_of r) e
        → r.cs ≡ client_init_write
        → has_write_permission e.object ≡ false
        → Refused es r write_to_read_only
    no_transfer :
        (e : OdEntry S)
        → At es (key_of r) e
        → r.cs ≢ client_init_read
        → r.cs ≢ client_init_write
        → Refused es r invalid_cs
    restores_no_object : IsRestore r → Absent es (restore_target r) → Refused es r object_not_found
    restores_read_only :
        (e : OdEntry S)
        → IsRestore r
        → At es (restore_target r) e
        → has_write_permission e.object ≡ false
        → Refused es r write_to_read_only
    restores_no_default :
        (e : OdEntry S)
        → IsRestore r
        → At es (restore_target r) e
        → has_write_permission e.object ≡ true
        → e.object.default_value ≡ none
        → Refused es r no_data_available

  module _ (es : List (OdEntry S)) (distinct : KeysDistinct es) where
    find_entry :
        (key : OdKey) (e : OdEntry S) → At es key e → find (init_dictionary es) key ≡ some e
    find_entry key e at = (find_exact es key e distinct).1 at

    find_nothing : (key : OdKey) → Absent es key → find (init_dictionary es) key ≡ none
    find_nothing key absent = elim (Option-cases (find (init_dictionary es) key)) [
      | inl nothing ↦ nothing
      | inr (e, found) ↦ absurd (absent e ((find_exact es key e distinct).0 found))
    ]

    abbrev Refuses : SdoAbortCode → Option (Expected SdoAbortCode ExpeditedSdo × S) → S → Type 0
    Refuses code o s = o ≡ some (unexpected code, s)

    respond-Refuses :
        (r : ExpeditedSdo) (code : SdoAbortCode) (s : S)
        → Refused es r code
        → Refuses code (respond (init_dictionary es) r s) s
    unfolding respond read_expedited write_expedited write_restore_default restore_default_parameter
    respond-Refuses r _ s (no_object other absent) =
        rw (restore_test-false r other, find_nothing (key_of r) absent)
    respond-Refuses r _ s (write_only e at cs refused) =
        let other = restore_test-false r (λ h. absurd (omega (arith, cs, h.0))) in
        let is : (r.cs == client_init_read) ≡ true = ground arith in
        rw (other, find_entry (key_of r) e at, is, refused)
    respond-Refuses r _ s (read_only e other at cs refused) =
        let not_read : (r.cs == client_init_read) ≡ false = ground arith in
        let is : (r.cs == client_init_write) ≡ true = ground arith in
        rw (restore_test-false r other, find_entry (key_of r) e at, not_read, is, refused)
    respond-Refuses r _ s (no_transfer e at not_read not_write) =
        let other = restore_test-false r (λ h. absurd (not_write h.0)) in
        let is_not_read : (r.cs == client_init_read) ≡ false = ground arith in
        let is_not_write : (r.cs == client_init_write) ≡ false = ground arith in
        rw (other, find_entry (key_of r) e at, is_not_read, is_not_write)
    respond-Refuses r _ s (restores_no_object restore absent) =
        rw (restore_test-true r restore, find_nothing (restore_target r) absent)
    respond-Refuses r _ s (restores_read_only e restore at refused) =
        rw (restore_test-true r restore, find_entry (restore_target r) e at, refused)
    respond-Refuses r _ s (restores_no_default e restore at may nothing) =
        rw (restore_test-true r restore, find_entry (restore_target r) e at, may, nothing)

    -- For a dictionary made of entries with distinct keys: a frame with the server's id, no abort, whose
    -- request asks for an object that no entry has, for an access that the entry does not permit, for
    -- no transfer that the server knows, or for the default of a parameter that is absent, read-only or
    -- has none, changes nothing in the application or the dictionary. The abort with the code of that
    -- reason is queued behind the responses that wait, or dropped if sixteen wait.
    pub refusals_change_nothing :
        (node_id : ℕ) (frame : Frame) (server : SdoServer S) (s : S) (xs : List Payload)
        (code : SdoAbortCode)
        → server.dictionary ≡ init_dictionary es
        → frame.id ≡ rsdo_cob_id node_id
        → (from_payload frame.payload).cs ≢ cs_abort
        → Refused es (from_payload frame.payload) code
        → QueueHolds tsdo_queue_capacity server.tsdo_queue xs
        → let request = from_payload frame.payload in
          (server' : SdoServer S) × (try_handle node_id frame server s ≡ some (true, server', s))
          × QueueHolds tsdo_queue_capacity server'.tsdo_queue
              (offered xs (abort_payload (abort_sdo request.index request.subindex code)))
          × (server'.dictionary ≡ server.dictionary)
    unfolding try_handle response
    refusals_change_nothing node_id frame server s xs code made id no_abort refused h =
        let request = from_payload frame.payload in
        let p = abort_payload (abort_sdo request.index request.subindex code) in
        let (q, queued, h') = enqueue-QueueHolds server.tsdo_queue xs p h in
        let served = respond-Refuses request code s refused in
        let mine : (frame.id == rsdo_cob_id node_id) ≡ true = ground arith in
        let other : (request.cs == cs_abort) ≡ false = ground arith in
        (record server { tsdo_queue = q }, rw (mine, other, made, served, queued), h', refl)
