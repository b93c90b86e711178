-- ===== src/I2cTask/RoundTrip.antt =====
-- A local command of the host and the reply that the host reads.
use pico_fi.Config.{BridgeConfig}
use pico_fi.Commands.{render_local_bridge_command, trim_ascii_line, Diagnostics}
use pico_fi.Frame.RoundTrip.{framed}
use pico_fi.HostI2c.{write_request, read_frame, done, command_frame}
use pico_fi.HostI2c.Receive.{AllIdle}
use pico_fi.I2cSlot.Transmit.{drain}
use pico_fi.I2cTask.Receive.{handle_slots}
use pico_fi.I2cTask.Reply.{read_frame-stage_either}
use pico_fi.I2cTask.Requests.{with_frame, handle_slots-command}
use pico_fi.I2cTask.{
  BusTask, process_command, reply_local, looks_like_local_command, nonzero_transfer_id,
  stage_framed,
}
use pico_fi.Commands.Replies.{reply_small}
use pico_fi.Prelude.{
  if_true, length, Bytes, ok, ℕ, suc, ◌+◌, ◌-◌, ◌^◌, ◌≤◌, ◌<◌, ◌≡◌, refl, ap, ◌∙◌, Bool, true,
  false, some, List, ◌++◌, arith,
}

nonzero_small : (tid : ℕ) → tid < 2 ^ 16 → nonzero_transfer_id tid < 2 ^ 16
nonzero_small tid h = ground arith

module _ (config : BridgeConfig) (link_active : Bool) (texts : Diagnostics) where
  -- The reply to a line.
  abbrev pub reply_to : BusTask → Bytes → Bytes
  reply_to s line =
      (render_local_bridge_command config link_active texts s.cells (trim_ascii_line line)).1

  process_command-local :
      (s : BusTask) (tid magic : ℕ) (line : Bytes)
      → looks_like_local_command line ≡ true
      → process_command config link_active texts s tid magic line
        ≡ some (reply_local config link_active texts s tid magic line)
  process_command-local s tid magic line e = if_true _ e

  reply_local-tx_packet :
      (s : BusTask) (tid magic : ℕ) (line : Bytes)
      → (reply_local config link_active texts s tid magic line).tx_packet
        ≡ stage_framed 2 (nonzero_transfer_id tid) magic (reply_to s line)
  unfolding reply_local
  reply_local-tx_packet s tid magic line = refl

  reply_local-queues :
      (s : BusTask) (tid magic : ℕ) (line : Bytes)
      → ((reply_local config link_active texts s tid magic line).tx ≡ s.tx)
        × ((reply_local config link_active texts s tid magic line).rx_resp ≡ s.rx_resp)
  unfolding reply_local
  reply_local-queues s tid magic line = (refl, refl)

  -- A local command that the host writes is answered by the device alone: the queues stay as they
  -- are, and the host's `read_frame` gets the reply of `render_local_bridge_command` as one command
  -- frame. The slots are handled less than 50 ms apart, the reads may begin with idle slots, and the
  -- text about the cores has at most 192 bytes; the task's state before them is any.
  pub read_frame-write_request :
      (clock : ℕ → ℕ)
      → ((i : ℕ) → clock (suc i) - clock i < 50000)
      → (s : BusTask) (tid : ℕ) (line : Bytes) (idle : List Bytes)
      → looks_like_local_command line ≡ true
      → tid < 2 ^ 16
      → length line ≤ 4092
      → length texts.cores ≤ 192
      → AllIdle idle
      → (s' : BusTask) × (handle_slots config link_active texts clock 0
            (write_request tid 0xA6 line).1
            s
          ≡ some s')
        × ((s'.tx ≡ s.tx) × (s'.rx_resp ≡ s.rx_resp))
        × (read_frame (idle ++ drain (length (reply_to s line) + 6) s'.tx_packet)
            ≡ done (ok (command_frame (reply_to s line))))
  read_frame-write_request clock timely s tid line idle local id_small fits cores h =
      let short : length (reply_to s line) ≤ 4092 =
        omega (arith, reply_small config link_active texts cores s.cells (trim_ascii_line line)) in
      let s1 = with_frame config link_active texts clock timely s tid (framed (0xA6, 0x5B) line) in
      (
        reply_local config link_active texts s1 tid 0x5B line,
        handle_slots-command config link_active texts clock timely s tid line id_small fits
            ∙ process_command-local s1 tid 0x5B line local,
        reply_local-queues s1 tid 0x5B line,
        ap (λ t. read_frame (idle ++ drain (length (reply_to s line) + 6) t))
              (reply_local-tx_packet s1 tid 0x5B line)
            ∙ read_frame-stage_either false 2 (nonzero_transfer_id tid) (reply_to s line) idle
                (λ e. omega arith) (nonzero_small tid id_small) short h,
      )
