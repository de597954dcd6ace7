-- ===== src/Can/Server/States.antt =====
-- A round of `run` never faults, and the state of the node moves by the commands that are received.
use emblib.Base.{
  ℕ, ◌≡◌, ◌≢◌, refl, ap, sym, subst, ◌∙◌, inl, inr, Bool, true, false, Bool-cases, Option, none,
  some, List, [], ◌∷◌, arith, leb, ltb, ◌==◌, ◌&&◌, ◌||◌, if◌then◌else◌,
}
use emblib.Container.InplaceQueue.Refine.{QueueHolds}
use emblib.Can.{Payload, bytes, Frame, Transport}
use emblib.Can.Types.{
  NmtState, stopped, operational, pre_operational, state_code, broadcast_cob_id, cob_function_code,
  NmtCommand, enter_pre_operational, reset_node, reset_communication,
}
use emblib.Can.Sdo.{from_payload, cs_abort}
use emblib.Can.Sdo.RoundTrip.{IsHeader}
use emblib.Can.Nmt.{matches, decode, decode_payload}
use emblib.Can.SdoServer.{SdoServer, tsdo_queue_capacity, try_handle, rsdo_cob_id, drain}
use emblib.Can.SdoServer.Serves.{AllBacked}
use emblib.Can.SdoServer.Replies.{offered, try_handle-Answers}
use emblib.Can.SdoServer.Drain.{send_all, drain_sends}
use emblib.Can.Consumers.{handle_rpdo, tick_rpdo}
use emblib.Can.Producers.{tick_tpdo}
use emblib.Can.Server.{
  ServerOptions, Server, apply_nmt_state, obey, handle_nmt_command, dispatch_rest, dispatch_rx,
  dispatch_all, run, run_services, run_timers, emit_timeouts,
}

-- The state that a command asks for.
abbrev pub commanded : Option NmtCommand → NmtState → NmtState
commanded none state = state
commanded (some NmtCommand.start) state = operational
commanded (some NmtCommand.stop) state = stopped
commanded (some enter_pre_operational) state = pre_operational
commanded (some reset_node) state = pre_operational
commanded (some reset_communication) state = pre_operational

-- The command specifiers of the network management of CiA 301, and the states that they lead to: start,
-- stop, enter pre-operational, reset node and reset communication.
abbrev pub specifiers : List (ℕ × NmtState)
specifiers =
    (1, operational)
    ∷ (2, stopped)
    ∷ (128, pre_operational)
    ∷ (129, pre_operational)
    ∷ (130, pre_operational)
    ∷ []

abbrev pub look_up : List (ℕ × NmtState) → ℕ → NmtState → NmtState
look_up [] cs state = state
look_up ((c, to) ∷ rest) cs state = if c == cs then to else look_up rest cs state

-- What the first two bytes of a frame with the identifier 0 ask a node to be: the second one names the
-- node, or is 0 for all of them.
abbrev pub asked_by : ℕ → Payload → NmtState → NmtState
asked_by node_id (bytes cs target _ _ _ _ _ _) state =
    if target == 0 || target == node_id then look_up specifiers cs state else state

abbrev pub asked : ℕ → Frame → NmtState → NmtState
asked node_id frame state =
    if frame.id == 0 && leb 2 frame.len then asked_by node_id frame.payload state else state

-- The state after a list of frames: each that asks this node for a state decides it anew.
abbrev pub state_after : ℕ → List Frame → NmtState → NmtState
state_after node_id [] state = state
state_after node_id (frame ∷ frames) state = state_after node_id frames (asked node_id frame state)

decode_payload-asked_by :
    (node_id : ℕ) (p : Payload) (state : NmtState)
    → commanded (decode_payload node_id p) state ≡ asked_by node_id p state
unfolding decode_payload
decode_payload-asked_by node_id (bytes cs target _ _ _ _ _ _) state = ground arith

decode-asked :
    (node_id : ℕ) (frame : Frame) (state : NmtState)
    → (if matches frame then commanded (decode node_id frame) state else state)
      ≡ asked node_id frame state
unfolding decode broadcast_cob_id cob_function_code
decode-asked node_id frame state = elim (Bool-cases (frame.id == 0)) [
  | inr other ↦ rw other refl
  | inl mine ↦ elim (Bool-cases (ltb frame.len 2)) [
    | inl short ↦
        let too_short : leb 2 frame.len ≡ false = ground (arith, short) in
        rw (mine, short, too_short) refl
    | inr long ↦
        let enough : leb 2 frame.len ≡ true = ground (arith, long) in
        rw (mine, long, enough) (decode_payload-asked_by node_id frame.payload state)
  ]
]

state_code-injective : (a b : NmtState) → state_code a ≡ state_code b → a ≡ b
state_code-injective a b h = grind arith

-- An SDO server that can answer: its queue holds a list, and no access it permits is missing.
pub record IsReady {S : Type 0} (sdo : SdoServer S) : Type 0 where
  pub waiting : List Payload
  pub queued : QueueHolds tsdo_queue_capacity sdo.tsdo_queue waiting
  pub backed : AllBacked sdo.dictionary

-- Eight bytes in each frame.
abbrev pub AllHeaders : List Frame → Type 0
AllHeaders [] = Unit
AllHeaders (frame ∷ frames) = IsHeader frame.payload × AllHeaders frames

module _ {S : Type 0} (node_id : ℕ) where
  try_handle-IsReady :
      (frame : Frame) (sdo : SdoServer S) (s : S)
      → IsHeader frame.payload
      → IsReady sdo
      → (r : Bool × SdoServer S × S) × (try_handle node_id frame sdo s ≡ some r) × IsReady r.1
  unfolding try_handle
  try_handle-IsReady frame sdo s header ready =
      elim (Bool-cases (frame.id == rsdo_cob_id node_id)) [
        | inr not_mine ↦ ((false, sdo, s), rw not_mine, ready)
        | inl mine ↦ elim (Bool-cases ((from_payload frame.payload).cs == cs_abort)) [
          | inl aborted ↦ ((true, sdo, s), rw (mine, aborted), ready)
          | inr other ↦
              let id : frame.id ≡ rsdo_cob_id node_id = ground arith in
              let ne : (from_payload frame.payload).cs ≢ cs_abort = ground arith in
              let (sdo', s', p, e, answers, queued, same) =
                try_handle-Answers node_id frame sdo s ready.waiting id header ne ready.backed
                  ready.queued in
              (
                (true, sdo', s'),
                e,
                record {
                  waiting = offered ready.waiting p;
                  queued = queued;
                  backed = subst AllBacked (sym same) ready.backed;
                },
              )
        ]
      ]

module _ {S : Type 0} (clock : S → ℕ × S) (options : ServerOptions) where
  apply_nmt_state-state :
      (to : NmtState) (server : Server S) (s : S)
      → ((apply_nmt_state clock options to server s).0.state ≡ to)
        × ((apply_nmt_state clock options to server s).0.sdo ≡ server.sdo)
  unfolding apply_nmt_state
  apply_nmt_state-state to server s = elim (Bool-cases (state_code to == state_code server.state)) [
    | inl same ↦
        let e : state_code server.state ≡ state_code to = ground arith in
        rw same (state_code-injective server.state to e, refl)
    | inr differs ↦ rw differs (refl, refl)
  ]

  obey-state :
      (c : Option NmtCommand) (server : Server S) (s : S)
      → ((obey clock options c server s).0.state ≡ commanded c server.state)
        × ((obey clock options c server s).0.sdo ≡ server.sdo)
  unfolding obey
  obey-state none server s = (refl, refl)
  obey-state (some NmtCommand.start) server s = apply_nmt_state-state operational server s
  obey-state (some NmtCommand.stop) server s = apply_nmt_state-state stopped server s
  obey-state (some enter_pre_operational) server s = apply_nmt_state-state pre_operational server s
  obey-state (some reset_node) server s = apply_nmt_state-state pre_operational server _
  obey-state (some reset_communication) server s = apply_nmt_state-state pre_operational server _

  dispatch_rest-kept :
      (frame : Frame) (server : Server S) (s : S)
      → ((dispatch_rest clock options frame server s).0.state ≡ server.state)
        × ((dispatch_rest clock options frame server s).0.sdo ≡ server.sdo)
  dispatch_rest-kept frame server s =
      let (now, s') = clock s in
      let (taken, rpdo, s'') = handle_rpdo frame now server.state server.rpdo s' in
      elim (Bool-cases taken) [ inl e ↦ rw e (refl, refl) | inr e ↦ rw e (refl, refl) ]

  dispatch_rx-state :
      (frame : Frame) (server : Server S) (s : S)
      → IsHeader frame.payload
      → IsReady server.sdo
      → (r : Server S × S) × (dispatch_rx clock options frame server s ≡ some r)
        × (r.0.state ≡ (
            if matches frame
            then commanded (decode options.node_id frame) server.state
            else server.state))
        × IsReady r.0.sdo
  unfolding dispatch_rx handle_nmt_command
  dispatch_rx-state frame server s header ready = elim (Bool-cases (matches frame)) [
    | inl command ↦
        let (state, sdo) = obey-state (decode options.node_id frame) server s in
        (
          handle_nmt_command clock options frame server s,
          rw command,
          rw command state,
          subst IsReady (sym sdo) ready,
        )
    | inr other ↦
        let ((taken, sdo', s'), e, ready') =
          try_handle-IsReady options.node_id frame server.sdo s header ready in
        let server' = record server { sdo = sdo' } in
        elim (Bool-cases taken) [
          | inl yes_taken ↦ ((server', s'), rw (other, e, yes_taken), rw other refl, ready')
          | inr left ↦
              let (state, sdo) = dispatch_rest-kept frame server' s' in
              (
                dispatch_rest clock options frame server' s',
                rw (other, e, left),
                rw other state,
                subst IsReady (sym sdo) ready',
              )
        ]
  ]

  dispatch_all-state :
      (frames : List Frame) (server : Server S) (s : S)
      → AllHeaders frames
      → IsReady server.sdo
      → (r : Server S × S) × (dispatch_all clock options frames server s ≡ some r)
        × (r.0.state ≡ state_after options.node_id frames server.state)
        × IsReady r.0.sdo
  unfolding dispatch_all
  dispatch_all-state [] server s headers ready = ((server, s), refl, refl, ready)
  dispatch_all-state (frame ∷ frames) server s headers ready =
      let ((server', s'), e, state, ready') = dispatch_rx-state frame server s headers.0 ready in
      let (r, e', state', ready'') = dispatch_all-state frames server' s' headers.1 ready' in
      let asks = decode-asked options.node_id frame server.state in
      (r, rw (e, e'), state' ∙ ap (state_after options.node_id frames) (state ∙ asks), ready'')

  module _ {B : Type 0} (bus : Transport B) where
    drain-IsReady :
        (sdo : SdoServer S) (b : B)
        → IsReady sdo
        → (r : SdoServer S × B) × (drain bus options.node_id sdo b ≡ some r) × IsReady r.0
    drain-IsReady sdo b ready =
        let (sdo', e, queued, same) =
          drain_sends bus options.node_id sdo ready.waiting b ready.queued in
        (
          (sdo', (send_all bus options.node_id ready.waiting b).1),
          e,
          record {
            waiting = (send_all bus options.node_id ready.waiting b).0;
            queued = queued;
            backed = subst AllBacked (sym same) ready.backed;
          },
        )

    run_services-state :
        (now : ℕ) (server : Server S) (s : S) (b : B)
        → IsReady server.sdo
        → (r : Server S × S × B) × (run_services clock options bus now server s b ≡ some r)
          × (r.0.state ≡ server.state)
          × IsReady r.0.sdo
    unfolding run_services run_timers
    run_services-state now server s b ready =
        let (timed_out, rpdo, s') = tick_rpdo now server.state server.rpdo s in
        let b' = emit_timeouts clock options bus timed_out b in
        let (tpdo, s'', b'') = tick_tpdo bus now server.state server.tpdo s' b' in
        let (r, e, ready') = drain-IsReady server.sdo b'' ready in
        (
          run_timers clock options bus now (record server { rpdo = rpdo; tpdo = tpdo; sdo = r.0 })
              s'' r.1,
          rw e,
          refl,
          ready',
        )

    -- If the SDO server of a node is ready and the queued frames have eight bytes, `run` goes
    -- through without a fault and leaves the SDO server ready, and the node is then in the state that
    -- the frames with the identifier 0 ask of it by the specifiers of CiA 301, in their order.
    pub run_follows_commands :
        (server : Server S) (s : S) (b : B)
        → AllHeaders server.rx_queue
        → IsReady server.sdo
        → (server' : Server S) × (s' : S) × (b' : B) × (run clock options bus server s b
            ≡ some (server', s', b'))
          × (server'.state ≡ state_after options.node_id server.rx_queue server.state)
          × IsReady server'.sdo
    unfolding run
    run_follows_commands server s b headers ready =
        let (now, s1) = clock s in
        let ((server1, s2), e, state, ready1) =
          dispatch_all-state server.rx_queue (record server { rx_queue = [] }) s1 headers ready in
        let ((server2, s3, b'), e', state', ready2) = run_services-state now server1 s2 b ready1 in
        (server2, s3, b', rw (e, e'), state' ∙ state, ready2)
