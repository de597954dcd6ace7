-- ===== src/Can/RawNode/Slots.antt =====
-- What a run of a node of emb/can/raw/node.hpp leaves in its slots.
use emblib.Base.{
  ℕ, zero, suc, ◌≡◌, refl, ap, sym, ◌∙◌, Bool, true, false, ◌&&◌, ◌||◌, not, inl, inr, Bool-cases,
  Option, none, some, List, [], ◌∷◌, arith, get_elem?, if◌then◌else◌,
}
use mathlib.Core.Option
use emblib.Can.{Frame, Transport}
use emblib.Can.Consumers.{call}
use emblib.Can.RawNode.{
  RxSlot, Node, accepts, dispatch_rx, empty_queue, expires, expire_slots, send_slots, run,
}

module _ {S : Type 0} where
  -- Whether the slot at an index is the first one for a frame.
  abbrev pub is_for : Frame → List (RxSlot S) → ℕ → Bool
  is_for frame [] i = false
  is_for frame (slot ∷ slots) zero = accepts frame slot
  is_for frame (slot ∷ slots) (suc i) = not (accepts frame slot) && is_for frame slots i

  -- Whether one of the frames is for it.
  abbrev pub is_served : List Frame → List (RxSlot S) → ℕ → Bool
  is_served [] slots i = false
  is_served (frame ∷ frames) slots i = is_for frame slots i || is_served frames slots i

  abbrev pub touched : Bool → ℕ → RxSlot S → RxSlot S
  touched hit now slot = if hit then record slot { last_rx = now; timed_out = false } else slot

  abbrev pub timed : ℕ → RxSlot S → RxSlot S
  timed now slot = if expires now slot then record slot { timed_out = true } else slot

  untouched : (now : ℕ) (o : Option (RxSlot S)) → o ≡ Option.map (touched false now) o
  untouched now none = refl
  untouched now (some slot) = refl

  dispatch_rx-slot :
      (frame : Frame) (now : ℕ) (slots : List (RxSlot S)) (s : S) (i : ℕ)
      → get_elem? (dispatch_rx frame now slots s).0 i
        ≡ Option.map (touched (is_for frame slots i) now) (get_elem? slots i)
  unfolding dispatch_rx
  dispatch_rx-slot frame now [] s i = refl
  dispatch_rx-slot frame now (slot ∷ slots) s zero = elim (Bool-cases (accepts frame slot)) [
    | inl e ↦ rw e refl
    | inr e ↦ rw e refl
  ]
  dispatch_rx-slot frame now (slot ∷ slots) s (suc i) = elim (Bool-cases (accepts frame slot)) [
    | inl e ↦ rw e (untouched now (get_elem? slots i))
    | inr e ↦ rw e (dispatch_rx-slot frame now slots s i)
  ]

  -- A frame changes nothing of what the slots are for.
  is_for-dispatch_rx :
      (frame other : Frame) (now : ℕ) (slots : List (RxSlot S)) (s : S) (i : ℕ)
      → is_for other (dispatch_rx frame now slots s).0 i ≡ is_for other slots i
  unfolding dispatch_rx
  is_for-dispatch_rx frame other now [] s i = refl
  is_for-dispatch_rx frame other now (slot ∷ slots) s zero =
      elim (Bool-cases (accepts frame slot)) [ inl e ↦ rw e refl | inr e ↦ rw e refl ]
  is_for-dispatch_rx frame other now (slot ∷ slots) s (suc i) =
      elim (Bool-cases (accepts frame slot)) [
        | inl e ↦ rw e refl
        | inr e ↦
            rw e (
              ap (λ b. not (accepts other slot) && b)
                (is_for-dispatch_rx frame other now slots s i))
      ]

  is_served-dispatch_rx :
      (frame : Frame) (frames : List Frame) (now : ℕ) (slots : List (RxSlot S)) (s : S) (i : ℕ)
      → is_served frames (dispatch_rx frame now slots s).0 i ≡ is_served frames slots i
  is_served-dispatch_rx frame [] now slots s i = refl
  is_served-dispatch_rx frame (other ∷ frames) now slots s i =
      rw
        (
          is_for-dispatch_rx frame other now slots s i,
          is_served-dispatch_rx frame frames now slots s i,
        )
        refl

  touched_again :
      (a b : Bool) (now : ℕ) (o : Option (RxSlot S))
      → Option.map (touched a now) (Option.map (touched b now) o)
        ≡ Option.map (touched (b || a) now) o
  touched_again a b now none = refl
  touched_again true true now (some slot) = refl
  touched_again false true now (some slot) = refl
  touched_again a false now (some slot) = refl

  empty_queue-slot :
      (frames : List Frame) (now : ℕ) (slots : List (RxSlot S)) (s : S) (i : ℕ)
      → get_elem? (empty_queue frames now slots s).0 i
        ≡ Option.map (touched (is_served frames slots i) now) (get_elem? slots i)
  unfolding empty_queue
  empty_queue-slot [] now slots s i = untouched now (get_elem? slots i)
  empty_queue-slot (frame ∷ frames) now slots s i =
      let (slots', s') = dispatch_rx frame now slots s in
      empty_queue-slot frames now slots' s' i
      ∙ ap (λ hit. Option.map (touched hit now) (get_elem? slots' i))
          (is_served-dispatch_rx frame frames now slots s i)
      ∙ ap (Option.map (touched (is_served frames slots i) now))
          (dispatch_rx-slot frame now slots s i)
      ∙ touched_again (is_served frames slots i) (is_for frame slots i) now (get_elem? slots i)

  expire_slots-slot :
      (now : ℕ) (slots : List (RxSlot S)) (s : S) (i : ℕ)
      → get_elem? (expire_slots now slots s).0 i ≡ Option.map (timed now) (get_elem? slots i)
  unfolding expire_slots
  expire_slots-slot now [] s i = refl
  expire_slots-slot now (slot ∷ slots) s zero = refl
  expire_slots-slot now (slot ∷ slots) s (suc i) = expire_slots-slot now slots _ i

  -- A slot after a run: renewed by a frame, or else timed out where it expires.
  abbrev pub settled : Bool → ℕ → RxSlot S → RxSlot S
  settled served now slot =
      if served
      then record slot { last_rx = now; timed_out = false }
      else if expires now slot
      then record slot { timed_out = true }
      else slot

  fresh_stays : (now : ℕ) (slot : RxSlot S) → expires now (touched true now slot) ≡ false
  fresh_stays now slot = ground arith

  settled_lem :
      (served : Bool) (now : ℕ) (o : Option (RxSlot S))
      → Option.map (timed now) (Option.map (touched served now) o)
        ≡ Option.map (settled served now) o
  settled_lem served now none = refl
  settled_lem true now (some slot) = rw (fresh_stays now slot) refl
  settled_lem false now (some slot) = refl

  -- The reports of the slots that were not marked before and are marked now, in their order.
  abbrev pub reports : List (RxSlot S) → List (RxSlot S) → S → S
  reports (slot ∷ slots) (slot' ∷ slots') s =
      reports slots slots'
        (if not slot.timed_out && slot'.timed_out then call slot.on_timeout s else s)
  reports _ _ s = s

  expire_slots-reports :
      (now : ℕ) (slots : List (RxSlot S)) (s : S)
      → (expire_slots now slots s).1 ≡ reports slots (expire_slots now slots s).0 s
  unfolding expire_slots
  expire_slots-reports now [] s = refl
  expire_slots-reports now (slot ∷ slots) s = elim (Bool-cases (expires now slot)) [
    | inl e ↦
        let fresh : slot.timed_out ≡ false = ground arith in
        rw (e, fresh) (expire_slots-reports now slots _)
    | inr e ↦ rw e (elim (Bool-cases slot.timed_out) [
      | inl t ↦ rw t (expire_slots-reports now slots s)
      | inr t ↦ rw t (expire_slots-reports now slots s)
    ])
  ]

  -- After a run at a time, each receive slot is renewed if one of the queued frames is for it, and
  -- otherwise marked if its timeout has passed without a mark; the queue is empty; and between the
  -- handlers of the frames and the frames that are due, `on_timeout` is called once for each slot that
  -- the run marks, in the order of the slots, and for no other.
  pub run_settles :
      {B : Type 0} (bus : Transport B) (now i : ℕ) (node : Node S) (s : S) (b : B)
      → let (node', s', b') = run bus now node s b in
        let (received, handled) = empty_queue node.rx_queue now node.rx s in
        (get_elem? node'.rx i
          ≡ Option.map (settled (is_served node.rx_queue node.rx i) now) (get_elem? node.rx i))
        × (node'.rx_queue ≡ [])
        × (send_slots bus now node.tx (reports received node'.rx handled) b ≡ (node'.tx, s', b'))
  unfolding run
  run_settles bus now i node s b =
      let (received, handled) = empty_queue node.rx_queue now node.rx s in
      (
        expire_slots-slot now received handled i
            ∙ ap (Option.map (timed now)) (empty_queue-slot node.rx_queue now node.rx s i)
            ∙ settled_lem (is_served node.rx_queue node.rx i) now (get_elem? node.rx i),
        refl,
        ap (λ t. send_slots bus now node.tx t b) (sym (expire_slots-reports now received handled)),
      )
