-- ===== src/Can/Server.antt =====
-- emb/can/canopen/server.hpp: the node, composed of its services. `S` is the state of the
-- application, which the handlers and the clock act on; they do not call the server back. The
-- queue of received frames is its contents, as emb/concurrent/isr_spsc_inplace_queue.hpp keeps
-- them, and the frames that arrive while `run` empties it count as queued before.
pub mod States
use emblib.Base.{
  ℕ, zero, suc, Bool, true, false, Option, none, some, List, [], ◌∷◌, ◌++◌, length, ltb, ◌==◌,
  if◌then◌else◌,
}
use emblib.Base.OptionMonad.{◌>>=◌}
use emblib.Can.{Frame, Payload, Transport, standard}
use emblib.Can.Types.{
  NmtState, initializing, stopped, operational, pre_operational, is_operational, state_code,
  NmtCommand, start, stop, enter_pre_operational, reset_node, reset_communication, PdoId,
}
use emblib.Can.Od.{OdEntry}
use emblib.Can.Nmt.{nmt_cob_id, matches, decode}
use emblib.Can.Producers.{
  Periodic, TpdoSlot, TpdoConfig, set_period, heartbeat_frame, sync_frame, no_payload, emit, tick,
  tick_tpdo, setup_tpdo,
}
use emblib.Can.Consumers.{
  RpdoSlot, RpdoConfig, WatchSlot, call, call_with, handle_rpdo, tick_rpdo, reset_timers,
  setup_rpdo, watch, handle_heartbeat, tick_watches,
}
use emblib.Can.SdoServer.{SdoServer, make_server, try_handle, drain}

pub record ServerOptions : Type 0 where
  pub node_id : ℕ
  pub rx_queue_capacity : ℕ

pub record Server (S : Type 0) : Type 0 where
  pub state : NmtState
  pub heartbeat : Periodic
  pub sync : Periodic
  pub watches : List (WatchSlot S)
  pub sdo : SdoServer S
  pub tpdo : List (TpdoSlot S)
  pub rpdo : List (RpdoSlot S)
  pub rx_queue : List Frame
  pub on_nmt_change : Option (NmtState → S → S)
  pub on_reset_node : Option (S → S)
  pub on_reset_communication : Option (S → S)

module _ {S : Type 0} (clock : S → ℕ × S) (options : ServerOptions) where
  unfoldable pub apply_nmt_state : NmtState → Server S → S → Server S × S
  apply_nmt_state to server s =
      if state_code to == state_code server.state
      then (server, s)
      else let (now, s') = clock s in
        (
          record server {
            state = to;
            rpdo = if is_operational to then reset_timers now server.rpdo else server.rpdo;
          },
          call_with server.on_nmt_change to s',
        )

  -- The switch of `handle_nmt_command`.
  unfoldable pub obey : Option NmtCommand → Server S → S → Server S × S
  obey none server s = (server, s)
  obey (some NmtCommand.start) server s = apply_nmt_state operational server s
  obey (some NmtCommand.stop) server s = apply_nmt_state stopped server s
  obey (some enter_pre_operational) server s = apply_nmt_state pre_operational server s
  obey (some reset_node) server s =
      apply_nmt_state pre_operational server (call server.on_reset_node s)
  obey (some reset_communication) server s =
      apply_nmt_state pre_operational server (call server.on_reset_communication s)

  unfoldable pub handle_nmt_command : Frame → Server S → S → Server S × S
  handle_nmt_command frame server s = obey (decode options.node_id frame) server s

  -- What `dispatch_rx` does with a frame that the SDO server does not take.
  abbrev pub dispatch_rest : Frame → Server S → S → Server S × S
  dispatch_rest frame server s =
      let (now, s') = clock s in
      let (taken, rpdo, s'') = handle_rpdo frame now server.state server.rpdo s' in
      if taken then (record server { rpdo = rpdo }, s'') else (
        record server { rpdo = rpdo; watches = (handle_heartbeat frame now server.watches).1 },
        s'',
      )

  unfoldable pub dispatch_rx : Frame → Server S → S → Option (Server S × S)
  dispatch_rx frame server s =
      if matches frame
      then some (handle_nmt_command frame server s)
      else try_handle options.node_id frame server.sdo s >>= λ r.
          if r.0
          then some (record server { sdo = r.1 }, r.2)
          else some (dispatch_rest frame (record server { sdo = r.1 }) r.2)

  -- `enqueue_rx`, which the bus calls for each frame it receives.
  unfoldable pub enqueue_rx : Frame → Server S → Server S
  enqueue_rx frame server =
      if ltb (length server.rx_queue) options.rx_queue_capacity
      then record server { rx_queue = server.rx_queue ++ frame ∷ [] }
      else server

  -- The first loop of `run`.
  unfoldable pub dispatch_all : List Frame → Server S → S → Option (Server S × S)
  dispatch_all [] server s = some (server, s)
  dispatch_all (frame ∷ frames) server s =
      dispatch_rx frame server s >>= λ r. dispatch_all frames r.0 r.1

  module _ {B : Type 0} (bus : Transport B) where
    unfoldable pub make :
        List (OdEntry S) → List (TpdoSlot S) → List (RpdoSlot S) → S → B → Server S × S × B
    make dictionary tpdo rpdo s b =
        let (sdo, b') = make_server options.node_id bus dictionary b in
        let b'' = bus.add_filter standard nmt_cob_id 0x7FF b' in
        let (server, s') =
          apply_nmt_state pre_operational
            (record {
              state = initializing;
              heartbeat = record { period = 0; last_tx = 0 };
              sync = record { period = 0; last_tx = 0 };
              watches = [];
              sdo = sdo;
              tpdo = tpdo;
              rpdo = rpdo;
              rx_queue = [];
              on_nmt_change = none;
              on_reset_node = none;
              on_reset_communication = none;
            })
            s in
        (server, s', b'')

    -- The emergency messages of `run`, one for each receive PDO that timed out.
    unfoldable pub emit_timeouts : ℕ → B → B
    emit_timeouts zero b = b
    emit_timeouts (suc n) b = emit_timeouts n (emit bus options.node_id 0x8250 0x10 no_payload b).1

    -- `run`, after its first loop, in two parts: up to `sdo_.drain()`, and the rest.
    unfoldable pub run_timers : ℕ → Server S → S → B → Server S × S × B
    run_timers now server s b =
        let (heartbeat, b') =
          tick bus (heartbeat_frame options.node_id server.state) now server.heartbeat b in
        let (sync, b'') = tick bus sync_frame now server.sync b' in
        let (watches, s') = tick_watches now server.watches s in
        (record server { heartbeat = heartbeat; sync = sync; watches = watches }, s', b'')

    unfoldable pub run_services : ℕ → Server S → S → B → Option (Server S × S × B)
    run_services now server s b =
        let (timed_out, rpdo, s') = tick_rpdo now server.state server.rpdo s in
        let b' = emit_timeouts timed_out b in
        let (tpdo, s'', b'') = tick_tpdo bus now server.state server.tpdo s' b' in
        drain bus options.node_id server.sdo b'' >>= λ r.
        some (run_timers now (record server { rpdo = rpdo; tpdo = tpdo; sdo = r.0 }) s'' r.1)

    unfoldable pub run : Server S → S → B → Option (Server S × S × B)
    run server s b =
        let (now, s') = clock s in
        dispatch_all server.rx_queue (record server { rx_queue = [] }) s' >>= λ r.
        run_services now r.0 r.1 b

    unfoldable pub configure_rpdo :
        ℕ → PdoId → RpdoConfig S → Server S → S → B → Option (Server S × S × B)
    configure_rpdo i id config server s b =
        let (now, s') = clock s in
        setup_rpdo bus options.node_id i id config now server.rpdo b >>= λ r.
        some (record server { rpdo = r.0 }, s', r.1)

    unfoldable pub watch_heartbeat :
        ℕ → ℕ → Option (ℕ → S → S) → Server S → S → B → Bool × Server S × S × B
    watch_heartbeat remote timeout on_lost server s b =
        let (now, s') = clock s in
        let (accepted, watches, b') = watch bus remote timeout on_lost now server.watches b in
        (accepted, record server { watches = watches }, s', b')

  unfoldable pub configure_tpdo : ℕ → PdoId → TpdoConfig S → Server S → S → Server S × S
  configure_tpdo i id config server s =
      let (now, s') = clock s in
      (record server { tpdo = setup_tpdo options.node_id i id config now server.tpdo }, s')

  unfoldable pub set_heartbeat_period : ℕ → Server S → S → Server S × S
  set_heartbeat_period period server s =
      let (now, s') = clock s in
      (record server { heartbeat = set_period period now server.heartbeat }, s')

  unfoldable pub set_sync_period : ℕ → Server S → S → Server S × S
  set_sync_period period server s =
      let (now, s') = clock s in (record server { sync = set_period period now server.sync }, s')

  -- `start` and `stop`
  unfoldable pub start_node : Server S → S → Server S × S
  start_node server s = apply_nmt_state operational server s

  unfoldable pub stop_node : Server S → S → Server S × S
  stop_node server s = apply_nmt_state stopped server s

module _ {S : Type 0} where
  -- `on_nmt_change`, `on_reset_node` and `on_reset_communication`
  unfoldable pub set_on_nmt_change : Option (NmtState → S → S) → Server S → Server S
  set_on_nmt_change handler server = record server { on_nmt_change = handler }

  unfoldable pub set_on_reset_node : Option (S → S) → Server S → Server S
  set_on_reset_node handler server = record server { on_reset_node = handler }

  unfoldable pub set_on_reset_communication : Option (S → S) → Server S → Server S
  set_on_reset_communication handler server = record server { on_reset_communication = handler }

-- `emit_emcy`
unfoldable pub emit_emcy :
    {B : Type 0} → ServerOptions → Transport B → ℕ → ℕ → Payload → B → Bool × B
emit_emcy options bus error_code error_register manufacturer b =
    emit bus options.node_id error_code error_register manufacturer b
