-- ===== src/Can/SdoServer/Drain.antt =====
-- What `drain` sends of the responses that wait, and what it keeps.
use emblib.Base.{
  ℕ, zero, suc, ◌<◌, ◌≡◌, refl, inl, inr, true, false, Bool-cases, some, List, [], ◌∷◌, arith,
  length, if◌then◌else◌, ◌==◌,
}
use emblib.Container.InplaceQueue.{InplaceQueue}
use emblib.Container.InplaceQueue.Refine.{QueueHolds, pop_front-QueueMakes, values_read}
use emblib.Can.{Payload, Transport}
use emblib.Can.SdoServer.{SdoServer, tsdo_queue_capacity, tsdo_frame, drain_from, drain}

module _ {B : Type 0} (bus : Transport B) (node_id : ℕ) where
  -- The responses go out oldest first until the bus refuses one; that one and those after it stay.
  abbrev pub send_all : List Payload → B → List Payload × B
  send_all [] b = ([], b)
  send_all (p ∷ ps) b =
      let sent = bus.send (tsdo_frame node_id p) b in
      if sent.0 then send_all ps sent.1 else (p ∷ ps, sent.1)

  drain_from-send_all :
      (n : ℕ) (xs : List Payload) (q : InplaceQueue Payload) (b : B)
      → length xs < n
      → QueueHolds tsdo_queue_capacity q xs
      → (q' : InplaceQueue Payload) × (drain_from bus node_id n q b ≡ some (q', (send_all xs b).1))
        × QueueHolds tsdo_queue_capacity q' (send_all xs b).0
  unfolding drain_from
  drain_from-send_all zero xs q b enough h = absurd (omega arith)
  drain_from-send_all (suc n) [] q b enough h =
      let empty : (q.size == 0) ≡ true = ground (arith, h.counted) in (q, rw empty, h)
  drain_from-send_all (suc n) (p ∷ ps) q b enough h =
      let filled : (q.size == 0) ≡ false = ground (arith, h.counted) in
      let front = (values_read tsdo_queue_capacity (p ∷ ps) h).0 in
      let (q', popped, h') = pop_front-QueueMakes tsdo_queue_capacity p ps h in
      elim (Bool-cases (bus.send (tsdo_frame node_id p) b).0) [
        | inl taken ↦
            let (q'', rest, h'') =
              drain_from-send_all n ps q' (bus.send (tsdo_frame node_id p) b).1 (omega arith) h' in
            (q'', rw (filled, front, taken, popped, rest), rw taken h'')
        | inr refused ↦ (q, rw (filled, front, refused), rw refused h)
      ]

  -- On a server whose queue holds a list of responses, `drain` goes through without a fault: it
  -- sends the responses oldest first until one is refused, and the queue then holds the refused
  -- one and those after it.
  pub drain_sends :
      {S : Type 0} (server : SdoServer S) (xs : List Payload) (b : B)
      → QueueHolds tsdo_queue_capacity server.tsdo_queue xs
      → (server' : SdoServer S) × (drain bus node_id server b ≡ some (server', (send_all xs b).1))
        × QueueHolds tsdo_queue_capacity server'.tsdo_queue (send_all xs b).0
        × (server'.dictionary ≡ server.dictionary)
  unfolding drain
  drain_sends server xs b h =
      let (q', e, h') =
        drain_from-send_all (suc tsdo_queue_capacity) xs server.tsdo_queue b (omega (arith, h.fits))
          h in
      (record server { tsdo_queue = q' }, rw e, h', refl)
