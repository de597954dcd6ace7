-- ===== src/Can/SdoServer/Tests.antt =====
-- Instances of what is proved of the SDO server.
use emblib.Base.{
  ℕ, ◌≡◌, ◌↔◌, refl, ap, sym, subst, true, false, none, some, List, [], ◌∷◌, ◌++◌, length, ltb, set,
  replicate, if◌then◌else◌, arith, inl, inr,
}
use mathlib.Core.Option.{some-injective}
use emblib.Base.Expected.{ok}
use emblib.Container.InplaceQueue.{InplaceQueue, empty_queue, emplace}
use emblib.Container.InplaceQueue.Refine.{QueueHolds, QueueMakes, emplace-QueueMakes}
use emblib.Container.Slots.{construct_at}
use emblib.Can.{Payload, bytes, Frame, Transport}
use emblib.Can.Types.{peer_cob_id, cob_function_code}
use emblib.Can.Sdo.{
  ExpeditedSdo, empty_sdo, raw, from_payload, abort_payload, abort_sdo, object_not_found,
}
use emblib.Can.Od.{uint8_value, od_read_var, od_write_var, make_od_value}
use emblib.Can.Dictionary.{find, init_dictionary, lower_bound}
use emblib.Can.Dictionary.Find.{In, find_exact}
use emblib.Can.SdoServer.{
  tsdo_frame, SdoServer, try_handle, respond, drain, to_write_response, tsdo_queue_capacity,
}
use emblib.Can.SdoServer.Serves.{Answers}
use emblib.Can.SdoServer.Replies.{offered, try_handle-Answers}
use emblib.Can.SdoServer.Refusals.{no_object, refusals_change_nothing}
use emblib.Can.SdoServer.Drain.{drain_sends}
use emblib.Can.SdoServer.Transfers.{download_upload}
use emblib.Can.Sample.{
  is_uint8, assign_uint8, variable, variable_only, new_sdo, download_frame, download,
  variable_only-KeysDistinct, variable_only-AllBacked, nothing_waits,
}

try_handle-Answers_example :
    (server' : SdoServer ℕ) × (s' : ℕ) × (p : Payload) × (try_handle 5 download_frame new_sdo 0
      ≡ some (true, server', s'))
    × Answers (from_payload download_frame.payload) (from_payload p)
    × QueueHolds tsdo_queue_capacity server'.tsdo_queue (offered [] p)
    × (server'.dictionary ≡ variable_only)
unfolding peer_cob_id cob_function_code from_payload
try_handle-Answers_example =
    try_handle-Answers 5 download_frame new_sdo 0 [] refl
      (omega arith, omega arith, omega arith, omega arith) (omega arith) variable_only-AllBacked
      nothing_waits

-- A download to a variable that is not there.
abbrev missing_frame : Frame
missing_frame = record download_frame { payload = bytes 0x2F 0x00 0x20 2 7 0 0 0 }

refusals_change_nothing_example :
    (server' : SdoServer ℕ) × (try_handle 5 missing_frame new_sdo 3 ≡ some (true, server', 3))
    × QueueHolds tsdo_queue_capacity server'.tsdo_queue
        (offered [] (abort_payload (abort_sdo 0x2000 2 object_not_found)))
    × (server'.dictionary ≡ variable_only)
unfolding peer_cob_id cob_function_code from_payload init_dictionary
refusals_change_nothing_example =
    refusals_change_nothing variable_only variable_only-KeysDistinct 5 missing_frame new_sdo 3 []
      object_not_found refl refl (omega arith)
      (no_object (λ h. absurd (omega (arith, h.1)))
        (λ e (found, key). elim found [
          | inl here ↦
              let one = ap (λ e. e.key.subindex) here in
              let two = ap (λ k. k.subindex) key in absurd (omega (arith, one, two))
          | inr absent ↦ absurd absent
        ]))
      nothing_waits

-- A bus with room for one frame.
abbrev narrow : Transport (List Frame)
narrow = record {
  send = λ f b. if ltb (length b) 1 then (true, b ++ f ∷ []) else (false, b);
  add_filter = λ _ _ _ b. b;
}

abbrev first_response : Payload
first_response = bytes 0x60 0x00 0x20 1 0 0 0 0

abbrev second_response : Payload
second_response = bytes 0x4F 0x00 0x20 1 7 0 0 0

abbrev with_one : InplaceQueue Payload
with_one = record { slots = set (replicate 16 none) 0 (some first_response); front = 0; size = 1 }

abbrev with_two : InplaceQueue Payload
with_two = record with_one { slots = set with_one.slots 1 (some second_response); size = 2 }

-- Two responses that wait.
abbrev two_waiting : SdoServer ℕ
two_waiting = record new_sdo { tsdo_queue = with_two }

made_holds :
    (q : InplaceQueue Payload) (xs : List Payload)
    → QueueMakes tsdo_queue_capacity (some q) xs
    → QueueHolds tsdo_queue_capacity q xs
made_holds q xs (q', e, h) =
    subst (λ q. QueueHolds tsdo_queue_capacity q xs) (sym (some-injective _ _ e)) h

one_waits : QueueHolds tsdo_queue_capacity with_one (first_response ∷ [])
unfolding emplace empty_queue construct_at
one_waits =
    made_holds with_one (first_response ∷ [])
      (emplace-QueueMakes tsdo_queue_capacity first_response [] nothing_waits (omega arith))

two_wait : QueueHolds tsdo_queue_capacity with_two (first_response ∷ second_response ∷ [])
unfolding emplace construct_at
two_wait = made_holds with_two (first_response ∷ second_response ∷ []) (
    emplace-QueueMakes tsdo_queue_capacity second_response (first_response ∷ []) one_waits
      (omega arith))

-- The first one goes out, and the second one waits on.
drain_sends_example :
    (server' : SdoServer ℕ) × (drain narrow 5 two_waiting []
      ≡ some (server', tsdo_frame 5 first_response ∷ []))
    × QueueHolds tsdo_queue_capacity server'.tsdo_queue (second_response ∷ [])
    × (server'.dictionary ≡ variable_only)
drain_sends_example =
    drain_sends narrow 5 two_waiting (first_response ∷ second_response ∷ []) [] two_wait

find_exact_example :
    (find (init_dictionary variable_only) (record { index = 0x2000; subindex = 1 }) ≡ some variable)
    ↔ (In variable variable_only × (variable.key ≡ record { index = 0x2000; subindex = 1 }))
find_exact_example =
    find_exact variable_only (record { index = 0x2000; subindex = 1 }) variable
      variable_only-KeysDistinct

abbrev upload : ExpeditedSdo
upload = record empty_sdo { cs = 2; index = 0x2000; subindex = 1 }

download_upload_example :
    (respond variable_only download 0 ≡ some (ok (to_write_response download), 7))
    × ((reply : ExpeditedSdo) × (respond variable_only upload 7 ≡ some (ok reply, 7))
        × (reply.content ≡ raw 7 0 0 0))
unfolding find lower_bound make_od_value od_read_var od_write_var
download_upload_example =
    download_upload variable_only variable download upload 0 7 7 (od_read_var (λ s. uint8_value s))
      (od_write_var is_uint8 assign_uint8) refl refl refl refl refl refl refl refl refl refl refl
      (record {
        byte0 = omega arith;
        byte1 = omega arith;
        byte2 = omega arith;
        byte3 = omega arith;
      })
