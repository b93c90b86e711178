-- ===== src/I2cTask/Requests.antt =====
-- What the host's `write_request` sends, at the device.
use pico_fi.I2cTask.Receive.{handle_slots, handle_slots-encode_slots}
use pico_fi.I2cTask.Queue.{make_packet-some, Shows, pushed, push_data-Shows}
use pico_fi.Commands.{Diagnostics}
use pico_fi.Config.{BridgeConfig}
use pico_fi.Frame.{parse_request_bytes}
use pico_fi.I2cTask.{push_data, push_or_error, I2cPacket, process_command}
use pico_fi.Frame.RoundTrip.{IsHeaderPair, request_with, append_nil, framed, parse_framed}
use pico_fi.HostI2c.{request_frame, write_request, encode_slots}
use pico_fi.I2cTask.{BusTask, process_complete_packet, process_request, process_data}
use pico_fi.I2cSlot.Assembly.{received}
use pico_fi.I2cTask.{nonzero_transfer_id}
use pico_fi.OverwriteQueue
use pico_fi.Prelude.{
  length, take_whole, Bytes, le16, ℕ, suc, ◌-◌, ◌^◌, ◌≤◌, ◌<◌, min, ◌≡◌, refl, sym, ap, ◌∙◌, inl,
  inr, Bool, some, List, [], ◌∷◌, ◌++◌, arith,
}

parse_framed_all :
    (h : ℕ × ℕ) (payload : Bytes)
    → IsHeaderPair h
    → length payload < 65536
    → parse_request_bytes (framed h payload) ≡ request_with h payload
parse_framed_all h payload v small =
    ap parse_request_bytes (sym (append_nil (framed h payload))) ∙ parse_framed h payload [] v small

request_frame-data :
    (payload : Bytes)
    → length payload ≤ 4092
    → request_frame 0xA5 payload ≡ framed (0xA5, 0x5A) payload
request_frame-data payload h =
    ap (λ body. 0xA5 ∷ 0x5A ∷ le16 (length body) ++ body)
      (take_whole payload (min (length payload) 4092) (omega arith))

request_frame-command :
    (payload : Bytes)
    → length payload ≤ 4092
    → request_frame 0xA6 payload ≡ framed (0xA6, 0x5B) payload
request_frame-command payload h =
    ap (λ body. 0xA6 ∷ 0x5B ∷ le16 (length body) ++ body)
      (take_whole payload (min (length payload) 4092) (omega arith))

module _ (config : BridgeConfig) (link_active : Bool) (texts : Diagnostics) (clock : ℕ → ℕ)
    (timely : (i : ℕ) → clock (suc i) - clock i < 50000) where
  -- The task's state once the frame is there.
  abbrev pub with_frame : BusTask → ℕ → Bytes → BusTask
  with_frame s tid raw = record s {
    rx_packet = received raw;
    last_transfer_id = nonzero_transfer_id tid;
  }

  process_framed-data :
      (s : BusTask) (kind tid : ℕ) (payload : Bytes)
      → length payload ≤ 4092
      → process_complete_packet config link_active texts s kind tid (framed (0xA5, 0x5A) payload)
        ≡ process_data config link_active texts s tid payload
  unfolding process_complete_packet process_request
  process_framed-data s kind tid payload h =
      ap (process_request config link_active texts s kind tid (framed (0xA5, 0x5A) payload))
        (parse_framed_all (0xA5, 0x5A) payload (inl (refl, refl)) (omega arith))

  process_framed-command :
      (s : BusTask) (kind tid : ℕ) (payload : Bytes)
      → length payload ≤ 4092
      → process_complete_packet config link_active texts s kind tid (framed (0xA6, 0x5B) payload)
        ≡ process_command config link_active texts s tid 0x5B payload
  unfolding process_complete_packet process_request
  process_framed-command s kind tid payload h =
      ap (process_request config link_active texts s kind tid (framed (0xA6, 0x5B) payload))
        (parse_framed_all (0xA6, 0x5B) payload (inr (inl (refl, refl))) (omega arith))

  -- A data request.
  pub handle_slots-data :
      (s : BusTask) (tid : ℕ) (payload : Bytes)
      → tid < 2 ^ 16
      → length payload ≤ 4092
      → handle_slots config link_active texts clock 0 (write_request tid 0xA5 payload).1 s
        ≡ process_data config link_active texts
            (with_frame s tid (framed (0xA5, 0x5A) payload))
            tid
            payload
  unfolding write_request
  handle_slots-data s tid payload id_small h =
      ap (λ raw. handle_slots config link_active texts clock 0 (encode_slots 1 tid raw) s)
        (request_frame-data payload h)
      ∙ handle_slots-encode_slots config link_active texts clock 1 tid (framed (0xA5, 0x5A) payload)
          (λ e. omega arith) id_small (omega arith) timely s
      ∙ process_framed-data (with_frame s tid (framed (0xA5, 0x5A) payload)) 1 tid payload h

  pub handle_slots-command :
      (s : BusTask) (tid : ℕ) (payload : Bytes)
      → tid < 2 ^ 16
      → length payload ≤ 4092
      → handle_slots config link_active texts clock 0 (write_request tid 0xA6 payload).1 s
        ≡ process_command config link_active texts
            (with_frame s tid (framed (0xA6, 0x5B) payload))
            tid
            0x5B
            payload
  unfolding write_request
  handle_slots-command s tid payload id_small h =
      ap (λ raw. handle_slots config link_active texts clock 0 (encode_slots 2 tid raw) s)
        (request_frame-command payload h)
      ∙ handle_slots-encode_slots config link_active texts clock 2 tid (framed (0xA6, 0x5B) payload)
          (λ e. omega arith) id_small (omega arith) timely s
      ∙ process_framed-command (with_frame s tid (framed (0xA6, 0x5B) payload)) 2 tid payload h

  process_data-push :
      (s : BusTask) (tid : ℕ) (payload : Bytes)
      → 0 < length payload
      → length payload ≤ 4092
      → process_data config link_active texts s tid payload
        ≡ push_data s (record { kind = 1; payload = payload })
  process_data-push s tid [] some_bytes h = absurd (omega arith)
  process_data-push s tid (b ∷ bs) some_bytes h =
      ap (push_or_error s (nonzero_transfer_id tid)) (make_packet-some 1 (b ∷ bs) (omega arith))

  -- A payload of 1 to 4092 bytes that the host writes as a data request reaches the queue of the
  -- bridge as one packet with exactly these bytes, behind those of the packets there that need not
  -- make room for it; nothing is staged for the master. The slots are handled less than 50 ms apart,
  -- and the task's state before them is any whose queue holds the packets `ps`.
  pub write_request-push :
      (s : BusTask) (ps : List I2cPacket) (tid : ℕ) (payload : Bytes)
      → Shows s.tx ps
      → tid < 2 ^ 16
      → 0 < length payload
      → length payload ≤ 4092
      → (q : OverwriteQueue.Mailbox) × (handle_slots config link_active texts clock 0
            (write_request tid 0xA5 payload).1
            s
          ≡ some (record (with_frame s tid (framed (0xA5, 0x5A) payload)) { tx = q }))
        × Shows q (pushed ps (record { kind = 1; payload = payload }))
  write_request-push s ps tid payload h id_small some_bytes fits =
      let s1 = with_frame s tid (framed (0xA5, 0x5A) payload) in
      let (q, e, h') =
        push_data-Shows s1 ps (record { kind = 1; payload = payload }) h (omega arith) in
      (
        q,
        handle_slots-data s tid payload id_small fits
            ∙ process_data-push s1 tid payload some_bytes fits
            ∙ e,
        h',
      )
