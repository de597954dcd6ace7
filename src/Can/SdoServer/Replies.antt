-- ===== src/Can/SdoServer/Replies.antt =====
-- Every request to the server is answered, by a response about the object it asks for.
use emblib.Base.{
  ℕ, ◌≡◌, ◌≢◌, refl, sym, subst, true, false, some, List, [], ◌∷◌, ◌++◌, arith, length, ltb,
  if◌then◌else◌, ◌==◌,
}
use native.Mathlib.Decide.{dec_lt}
use emblib.Container.InplaceQueue.{InplaceQueue}
use emblib.Container.InplaceQueue.Refine.{QueueHolds, emplace-QueueMakes}
use emblib.Can.{Payload, Frame}
use emblib.Can.Sdo.{from_payload, cs_abort}
use emblib.Can.Sdo.RoundTrip.{IsHeader}
use emblib.Can.SdoServer.{
  SdoServer, tsdo_queue_capacity, response, enqueue, try_handle, rsdo_cob_id,
}
use emblib.Can.SdoServer.Serves.{
  Answers, AllBacked, from_payload-IsRequest, response-Answers, respond-Serves,
}

-- What is queued after a response is offered: one that finds no room is dropped.
abbrev pub offered : List Payload → Payload → List Payload
offered xs p = if ltb (length xs) tsdo_queue_capacity then xs ++ p ∷ [] else xs

pub enqueue-QueueHolds :
    (q : InplaceQueue Payload) (xs : List Payload) (p : Payload)
    → QueueHolds tsdo_queue_capacity q xs
    → (q' : InplaceQueue Payload) × (enqueue q p ≡ some q')
      × QueueHolds tsdo_queue_capacity q' (offered xs p)
unfolding enqueue
enqueue-QueueHolds q xs p h = elim (dec_lt (length xs) tsdo_queue_capacity) [
  | yes room ↦
      let (q', e, h') = emplace-QueueMakes tsdo_queue_capacity p xs h room in
      let left : offered xs p ≡ xs ++ p ∷ [] = ground arith in
      (q', ground (arith, h.counted, e), subst (QueueHolds tsdo_queue_capacity q') (sym left) h')
  | no full ↦
      let left : offered xs p ≡ xs = ground arith in
      (q, ground (arith, h.counted, h.fits), subst (QueueHolds tsdo_queue_capacity q) (sym left) h)
]

module _ {S : Type 0} (node_id : ℕ) where
  -- If each access that an entry permits has a function behind it, a frame of eight bytes with the
  -- server's id that is no abort is handled without a fault: one response about the object of the
  -- request, an abort or the confirmation of the transfer, is queued behind those that wait, or
  -- dropped if sixteen wait, and the dictionary stays as it is.
  pub try_handle-Answers :
      (frame : Frame) (server : SdoServer S) (s : S) (xs : List Payload)
      → frame.id ≡ rsdo_cob_id node_id
      → IsHeader frame.payload
      → (from_payload frame.payload).cs ≢ cs_abort
      → AllBacked server.dictionary
      → QueueHolds tsdo_queue_capacity server.tsdo_queue xs
      → (server' : SdoServer S) × (s' : S) × (p : Payload) × (try_handle node_id frame server s
          ≡ some (true, server', s'))
        × Answers (from_payload frame.payload) (from_payload p)
        × QueueHolds tsdo_queue_capacity server'.tsdo_queue (offered xs p)
        × (server'.dictionary ≡ server.dictionary)
  unfolding try_handle
  try_handle-Answers frame server s xs id header no_abort backed h =
      let request = from_payload frame.payload in
      let is_request = from_payload-IsRequest frame.payload header in
      let ((result, s'), served, confirms) =
        respond-Serves server.dictionary request s backed is_request in
      let p = response request result in
      let (q', queued, h') = enqueue-QueueHolds server.tsdo_queue xs p h in
      let mine : (frame.id == rsdo_cob_id node_id) ≡ true = ground arith in
      let other : (request.cs == cs_abort) ≡ false = ground arith in
      (
        record server { tsdo_queue = q' },
        s',
        p,
        rw (mine, other, served, queued),
        response-Answers request result is_request confirms,
        h',
        refl,
      )
