-- ===== src/I2cTask/Handlers.antt =====
-- The handlers of slots and the invariant of the bus task.
use pico_fi.Commands.{Diagnostics, render_local_bridge_command, trim_ascii_line}
use pico_fi.Config.{BridgeConfig}
use pico_fi.I2cTask.Safety.{
  IsRx, IsTask, Safe, staged-Safe, stage_packet-IsTx, stage_framed-IsTx, push_slot-IsRx,
  push_or_error-Safe, make_packet-IsPacket,
}
use mathlib.Core.Option
use pico_fi.I2cSlot.Codec.{decode_slot-total}
use pico_fi.I2cTask.{
  BusTask, process_data, process_command, process_request, process_complete_packet, reply_local,
  make_packet, after_push, after_decode, handle_write_slot, looks_like_local_command,
  nonzero_transfer_id,
}
use pico_fi.I2cSlot.{RxPacketState, Slot, push_slot, stage_error, invalid_kind_msg}
use pico_fi.Frame.{RequestFrame, data_request, command_request, parse_request_bytes}
use pico_fi.Prelude.{
  ◌==◌, if_both, take, Bytes, Result, ok, err, ℕ, refl, Bool, Option, none, some, [], ◌∷◌,
}

module _ (config : BridgeConfig) (link_active : Bool) (texts : Diagnostics) where
  reply_local-IsTask :
      (s : BusTask) (tid magic : ℕ) (payload : Bytes)
      → IsTask s
      → IsTask (reply_local config link_active texts s tid magic payload)
  unfolding reply_local
  reply_local-IsTask s tid magic payload v = record {
    rx_is = v.rx_is;
    tx_is =
        stage_framed-IsTx 2 (nonzero_transfer_id tid) magic
          (render_local_bridge_command config link_active texts s.cells
            (trim_ascii_line payload)).1;
    mailbox_is = v.mailbox_is;
    tx_holds = v.tx_holds;
    rx_resp_holds = v.rx_resp_holds;
  }

  process_command-Safe :
      (s : BusTask) (tid magic : ℕ) (payload : Bytes)
      → IsTask s
      → Safe (process_command config link_active texts s tid magic payload)
  process_command-Safe s tid magic payload v =
      if_both Safe (looks_like_local_command payload)
        (λ _. (_, refl, reply_local-IsTask s tid magic payload v))
        (λ _.
          push_or_error-Safe s (nonzero_transfer_id tid) (make_packet 1 payload) v
            (make_packet-IsPacket 1 payload))

  process_data-Safe :
      (s : BusTask) (tid : ℕ) (payload : Bytes)
      → IsTask s
      → Safe (process_data config link_active texts s tid payload)
  process_data-Safe s tid [] v = (s, refl, v)
  process_data-Safe s tid (b ∷ bs) v =
      push_or_error-Safe s (nonzero_transfer_id tid) (make_packet 1 (b ∷ bs)) v
        (make_packet-IsPacket 1 (b ∷ bs))

  process_request-Safe :
      (s : BusTask) (kind tid : ℕ) (payload : Bytes) (r : Option RequestFrame)
      → IsTask s
      → Safe (process_request config link_active texts s kind tid payload r)
  unfolding process_request
  process_request-Safe s kind tid payload (some (command_request body)) v =
      process_command-Safe s tid 0x5B body v
  process_request-Safe s kind tid payload (some (data_request body)) v =
      process_data-Safe s tid body v
  process_request-Safe s kind tid payload none v =
      if_both Safe (kind == 2) (λ _. process_command-Safe s tid 0xA6 payload v)
        (λ _.
          if_both Safe (kind == 1) (λ _. process_data-Safe s tid payload v)
            (λ _.
              staged-Safe s (stage_error (nonzero_transfer_id tid) invalid_kind_msg)
                (stage_packet-IsTx 0x7F (nonzero_transfer_id tid) invalid_kind_msg) v))

  process_complete_packet-Safe :
      (s : BusTask) (kind tid : ℕ) (payload : Bytes)
      → IsTask s
      → Safe (process_complete_packet config link_active texts s kind tid payload)
  unfolding process_complete_packet
  process_complete_packet-Safe s kind tid payload v =
      process_request-Safe s kind tid payload (parse_request_bytes payload) v

  with_rx-IsTask :
      (s : BusTask) (rx : RxPacketState) (tid : ℕ)
      → IsTask s
      → IsRx rx
      → IsTask (record s { rx_packet = rx; last_transfer_id = tid })
  with_rx-IsTask s rx tid v r = record {
    rx_is = r;
    tx_is = v.tx_is;
    mailbox_is = v.mailbox_is;
    tx_holds = v.tx_holds;
    rx_resp_holds = v.rx_resp_holds;
  }

  after_push-Safe :
      (s : BusTask) (r : RxPacketState × Result Bytes (Option (ℕ × ℕ × ℕ)))
      → IsTask s
      → IsRx r.0
      → Safe (after_push config link_active texts s r)
  unfolding after_push
  after_push-Safe s (rx, err msg) v r =
      staged-Safe (record s { rx_packet = rx }) (stage_error s.last_transfer_id msg)
        (stage_packet-IsTx 0x7F s.last_transfer_id msg) (with_rx-IsTask s rx s.last_transfer_id v r)
  after_push-Safe s (rx, ok none) v r = (_, refl, with_rx-IsTask s rx s.last_transfer_id v r)
  after_push-Safe s (rx, ok (some (kind, tid, total_len))) v r =
      process_complete_packet-Safe _ kind tid (take total_len rx.payload)
        (with_rx-IsTask s rx (nonzero_transfer_id tid) v r)

  after_decode-Safe :
      (now : ℕ) (s : BusTask) (d : Result Bytes (Option Slot))
      → IsTask s
      → Safe (after_decode config link_active texts now s d)
  unfolding after_decode
  after_decode-Safe now s (err msg) v =
      staged-Safe s (stage_error s.last_transfer_id msg)
        (stage_packet-IsTx 0x7F s.last_transfer_id msg) v
  after_decode-Safe now s (ok none) v = (s, refl, v)
  after_decode-Safe now s (ok (some slot)) v =
      after_push-Safe s (push_slot now s.rx_packet slot) v
        (push_slot-IsRx now s.rx_packet slot v.rx_is)

  -- A slot of any bytes.
  pub handle_write_slot-Safe :
      (now : ℕ) (raw : Bytes) (s : BusTask)
      → IsTask s
      → Safe (handle_write_slot config link_active texts now raw s)
  unfolding handle_write_slot Option.bind
  handle_write_slot-Safe now raw s v =
      let (d, e) = decode_slot-total raw in rw e (after_decode-Safe now s d v)
