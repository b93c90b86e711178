-- ===== src/I2cTask/Tests.antt =====
-- The theorems on the bus task and on what the host makes of it, at its start with empty queues.
use pico_fi.Config.{BridgeConfig, dhcp_mode, tcp_server, i2c, uart0}
use pico_fi.Text.{codes}
use pico_fi.Frame.RoundTrip.{framed}
use pico_fi.HostI2c.{write_request, read_frame, encode_slots, done, command_frame}
use pico_fi.I2cSlot.{stage_packet}
use pico_fi.I2cSlot.Transmit.{drain, drain-encode_slots}
use pico_fi.I2cTask.{BusTask, new_task, stage_bridge_packet}
use pico_fi.I2cTask.Poll.{write, read, need_more_bytes, complete}
use pico_fi.I2cTask.Queue.{Shows, new_queue, new_queue-Shows, pushed}
use pico_fi.I2cTask.Receive.{handle_slots}
use pico_fi.I2cTask.Reply.{read_frame-stage_bridge_packet, frame_of}
use pico_fi.I2cTask.Requests.{write_request-push, with_frame}
use pico_fi.I2cTask.RoundTrip.{read_frame-write_request, reply_to}
use pico_fi.I2cTask.Runs.{Event, round, fetch, respond, happen_all, happen_all-new_task}
use pico_fi.I2cTask.Safety.{Safe}
use pico_fi.OverwriteQueue
use pico_fi.Commands.{Diagnostics, initial_cells}
use pico_fi.Prelude.{
  length, replicate, Bytes, ok, ℕ, suc, ◌+◌, ◌-◌, ◌*◌, ◌<◌, ◌≡◌, refl, inl, true, false, some, List,
  [], ◌∷◌, ◌++◌, arith,
}

abbrev station : BridgeConfig
station = record {
  discovery = false;
  mac_address = record { a = 2; b = 0; c = 0; d = 0; e = 0; f = 1 };
  address_mode = dhcp_mode;
  bridge_mode = tcp_server 7000;
  upstream_mode = i2c;
  uart_port = uart0;
}

abbrev texts : Diagnostics
texts = record { cores = []; queues = []; spi = [] }

-- A slot every 10 ms.
abbrev clock : ℕ → ℕ
clock i = 10000 * i

timely : (i : ℕ) → clock (suc i) - clock i < 50000
timely i = omega arith

abbrev start : BusTask
start = new_task initial_cells new_queue new_queue

-- A payload of two slots.
abbrev telemetry : Bytes
telemetry = codes "altitude 1024 m, speed 12"

write_request-push_example :
    (q : OverwriteQueue.Mailbox) × (handle_slots station true texts clock 0
        (write_request 9 0xA5 telemetry).1
        start
      ≡ some
          (record (with_frame station true texts clock timely start 9
            (framed (0xA5, 0x5A) telemetry)) { tx = q }))
    × Shows q (pushed [] (record { kind = 1; payload = telemetry }))
write_request-push_example =
    write_request-push station true texts clock timely start [] 9 telemetry new_queue-Shows
      (omega arith) (omega arith) (omega arith)

read_frame-write_request_example :
    (s : BusTask) × (handle_slots station true texts clock 0
        (write_request 10 0xA6 (codes "/ping\n")).1
        start
      ≡ some s)
    × ((s.tx ≡ start.tx) × (s.rx_resp ≡ start.rx_resp))
    × (read_frame (
          replicate 32 0 ∷ []
          ++ drain (length (reply_to station true texts start (codes "/ping\n")) + 6) s.tx_packet)
        ≡ done (ok (command_frame (reply_to station true texts start (codes "/ping\n")))))
unfolding read_frame
read_frame-write_request_example =
    read_frame-write_request station true texts clock timely start 10 (codes "/ping\n")
      (replicate 32 0 ∷ []) refl (omega arith) (omega arith) (omega arith) (refl, tt)

read_frame-stage_bridge_packet_example :
    read_frame (
      replicate 32 0 ∷ []
      ++ drain
          (length telemetry + 6)
          (stage_bridge_packet 7 (record { kind = 1; payload = telemetry })))
    ≡ done (ok (frame_of 1 telemetry))
unfolding read_frame
read_frame-stage_bridge_packet_example =
    read_frame-stage_bridge_packet 7 1 telemetry (replicate 32 0 ∷ []) (inl refl) (omega arith)
      (omega arith) (refl, tt)

drain-encode_slots_example :
    drain (length telemetry + 2) (stage_packet 1 7 telemetry) ≡ encode_slots 1 7 telemetry
drain-encode_slots_example = drain-encode_slots 1 7 telemetry (omega arith)

-- A slot that announces too much, a response, two reads and a pop.
abbrev events : List Event
events =
    round 5 (write (replicate 32 0x49)) complete complete
    ∷ respond (record { kind = 1; payload = telemetry })
    ∷ round 9 read need_more_bytes complete
    ∷ fetch
    ∷ round 12 (write (0xC3 ∷ 0 ∷ 0 ∷ 0 ∷ [])) complete complete
    ∷ []

happen_all-new_task_example :
    Safe (happen_all station true texts events (new_task initial_cells new_queue new_queue))
happen_all-new_task_example =
    happen_all-new_task station true texts initial_cells new_queue new_queue [] [] events
      new_queue-Shows new_queue-Shows (omega arith, tt)
