-- ===== src/Can/Tests.antt =====
-- Instances of what is proved of the frames, the values and the services.
use emblib.Base.{ℕ, suc, ◌%◌, ◌/◌, ◌<◌, ◌≡◌, true, false, none, some, List, [], ◌∷◌, arith}
use emblib.Base.Int.{negsuc}
use emblib.Can.{bytes, standard, Frame}
use emblib.Can.Types.{pre_operational, operational, pdo, CobType, a_pdo, tpdo_pdo, cob_id_of}
use emblib.Can.Types.Ids.{service_of, cob_id_decodes}
use emblib.Can.Sdo.{raw, to_payload, from_payload, get_cs_code}
use emblib.Can.Sdo.RoundTrip.{frames_correspond}
use emblib.Can.Od.{int16_value, int16, make_od_value, to_raw}
use emblib.Can.Od.RoundTrip.{an_int16, values_correspond}
use emblib.Can.Producers.{Periodic, sync_frame}
use emblib.Can.Producers.Spacing.{Spaced, sent_at, frames_sent_when_due}
use emblib.Can.Consumers.{WatchSlot}
use emblib.Can.Consumers.Losses.{ticks, times_reported, loss_reported_once}
use emblib.Can.Server.{Server, ServerOptions, run}
use emblib.Can.Server.States.{IsReady, run_follows_commands}
use emblib.Can.Sample.{
  recorder, new_sdo, download_frame, download, variable_only-AllBacked, nothing_waits,
}

frames_correspond_example :
    (from_payload (to_payload download) ≡ download)
    × (to_payload (from_payload download_frame.payload) ≡ download_frame.payload)
    × (get_cs_code download_frame.payload ≡ (from_payload download_frame.payload).cs)
frames_correspond_example =
    frames_correspond download download_frame.payload
      (record {
        size_bit = omega arith;
        transfer_bit = omega arith;
        empty_bits = omega arith;
        reserved_bit = omega arith;
        cs_bits = omega arith;
        index_bits = omega arith;
        subindex_bits = omega arith;
      })
      (omega arith, omega arith, omega arith, omega arith)

values_correspond_example :
    (make_od_value (to_raw (int16_value (negsuc 299))) int16 ≡ int16_value (negsuc 299))
    × (to_raw (make_od_value (raw 0xD4 0xFE 9 9) int16) ≡ raw 0xD4 0xFE 0 0)
values_correspond_example =
    values_correspond int16 (raw 0xD4 0xFE 9 9) (an_int16 (negsuc 299) (omega arith)) (record {
      byte0 = omega arith;
      byte1 = omega arith;
      byte2 = omega arith;
      byte3 = omega arith;
    })

cob_id_decodes_example :
    (cob_id_of (pdo CobType.tpdo 2 5) < 0x800)
    × (service_of (cob_id_of (pdo CobType.tpdo 2 5) / 128) (cob_id_of (pdo CobType.tpdo 2 5) % 128)
        ≡ some (pdo CobType.tpdo 2 5))
cob_id_decodes_example =
    cob_id_decodes (pdo CobType.tpdo 2 5)
      (a_pdo 2 5 tpdo_pdo (omega arith, omega arith) (omega arith, omega arith))

-- A watch whose handler counts the losses.
abbrev counting_watch : WatchSlot ℕ
counting_watch = record {
  cob_id = 0x707;
  remote = 7;
  timeout = 100;
  last_rx = 0;
  lost = false;
  on_lost = some (λ _ s. suc s);
}

-- A second one, which is never overdue.
abbrev patient_watch : WatchSlot ℕ
patient_watch = record counting_watch { cob_id = 0x708; remote = 8; timeout = 400 }

loss_reported_once_example :
    (ticks (50 ∷ 120 ∷ 300 ∷ []) (patient_watch ∷ counting_watch ∷ []) 0
      ≡ (patient_watch ∷ record counting_watch { lost = true } ∷ [], 1))
    × (times_reported [] (50 ∷ 120 ∷ 300 ∷ []) counting_watch ≡ 1)
loss_reported_once_example =
    loss_reported_once (50 ∷ 120 ∷ 300 ∷ []) (patient_watch ∷ counting_watch ∷ []) 0 counting_watch

abbrev every_ten : Periodic
every_ten = record { period = 10; last_tx = 0 }

frames_sent_when_due_example :
    (sent_at recorder sync_frame (4 ∷ 12 ∷ 15 ∷ 30 ∷ []) every_ten [] ≡ 12 ∷ 30 ∷ [])
    × Spaced 10 0 (sent_at recorder sync_frame (4 ∷ 12 ∷ 15 ∷ 30 ∷ []) every_ten [])
frames_sent_when_due_example =
    frames_sent_when_due recorder sync_frame (4 ∷ 12 ∷ 15 ∷ 30 ∷ []) every_ten []

-- Node 5 with a command to start in its queue.
abbrev start_frame : Frame
start_frame = record { format = standard; id = 0; len = 2; payload = bytes 1 5 0 0 0 0 0 0 }

abbrev node : Server ℕ
node = record {
  state = pre_operational;
  heartbeat = every_ten;
  sync = every_ten;
  watches = counting_watch ∷ [];
  sdo = new_sdo;
  tpdo = [];
  rpdo = [];
  rx_queue = start_frame ∷ download_frame ∷ [];
  on_nmt_change = none;
  on_reset_node = none;
  on_reset_communication = none;
}

abbrev node_options : ServerOptions
node_options = record { node_id = 5; rx_queue_capacity = 32 }

abbrev node_clock : ℕ → ℕ × ℕ
node_clock s = (s, s)

run_follows_commands_example :
    (server' : Server ℕ) × (s' : ℕ) × (b' : List Frame) × (run node_clock node_options recorder node
        0 []
      ≡ some (server', s', b'))
    × (server'.state ≡ operational)
    × IsReady server'.sdo
run_follows_commands_example =
    run_follows_commands node_clock node_options recorder node 0 []
      (
        (omega arith, omega arith, omega arith, omega arith),
        ((omega arith, omega arith, omega arith, omega arith), tt),
      )
      (record { waiting = []; queued = nothing_waits; backed = variable_only-AllBacked })
