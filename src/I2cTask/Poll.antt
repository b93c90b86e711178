-- ===== src/I2cTask/Poll.antt =====
-- src/bridge/i2c_task.rs: both protocols on the bus, and one round of `i2c_poll_task`.
use mathlib.Core.Option
use pico_fi.OverwriteQueue
use pico_fi.OverwriteQueue.{try_pop, i2c_packet_queue_depth, i2c_packet_queue_bytes}
use pico_fi.I2cPacket.{
  Mailbox, PacketError, pending, payload, complete_body, mailbox_header, stage, packet, select,
  magic, command, bootsel, data_kind,
}
use pico_fi.I2cTask.{
  BusTask, I2cPacket, packet_item, make_packet, push_data, looks_like_local_command,
  stage_bridge_packet, handle_write_slot,
}
use pico_fi.Commands.{Diagnostics, render_local_bridge_command, trim_ascii_line}
use pico_fi.Config.{BridgeConfig}
use pico_fi.Text.{codes}
use pico_fi.I2cSlot.{
  reset_rx, slot_size, slot_magic0, slot_magic1, slot_version, stage_idle, stage_error, has_pending,
  next_slot_bytes, invalid_slot_msg, kind_data,
}
use pico_fi.Prelude.{
  ◌==◌, if◌then◌else◌, length, take, Bytes, bytes_eq, at, Result, ok, err, ℕ, ◌+◌, min, Bool, true,
  false, not, ◌&&◌, Option, none, some, List, [], ◌∷◌,
}

-- `embassy_rp::i2c_slave::Command` with the bytes that the buffer received, or an error.
pub data Transaction : Type 0 where
  read : Transaction
  write : Bytes → Transaction
  write_read : Bytes → Transaction
  general_call : Transaction
  listen_failed : Transaction

-- How the master ends a read: `ReadStatus`, or an error.
pub data ReadEnd : Type 0 where
  complete leftover_bytes need_more_bytes bus_error : ReadEnd

abbrev pub is_complete : ReadEnd → Bool
is_complete complete = true
is_complete _ = false

-- Effect of `respond_v2`: whether it succeeded, the mailbox, and the bytes that were offered.
pub record Response : Type 0 where
  pub good : Bool
  pub mailbox : Mailbox
  pub offered : List Bytes

abbrev pub answered : Bool → Mailbox → List Bytes → Response
answered good m offered = record { good = good; mailbox = m; offered = offered }

-- After the header went out, for both ends of the two reads.
abbrev pub respond_body : ReadEnd → ReadEnd → Bytes → Mailbox → Response
respond_body need_more_bytes second header m =
    if pending m && not (length (payload m) == 0)
    then answered (is_complete second) (complete_body m (is_complete second))
        (header ∷ payload m ∷ [])
    else answered false m (header ∷ [])
respond_body complete second header m = answered true m (header ∷ [])
respond_body leftover_bytes second header m = answered true m (header ∷ [])
respond_body bus_error second header m = answered false m (header ∷ [])

abbrev pub respond_header : ReadEnd → ReadEnd → Mailbox → Result PacketError Bytes → Option Response
respond_header first second m (err e) = none
respond_header first second m (ok header) = some (respond_body first second header m)

-- `none` is the panic of `Mailbox::header`.
unfoldable pub respond_v2 : ReadEnd → ReadEnd → Mailbox → Option Response
respond_v2 first second m = respond_header first second m (mailbox_header m)

-- `let _ = mailbox.stage(..)`
abbrev pub stage_or_keep : Mailbox → Result PacketError Mailbox → Mailbox
stage_or_keep m (ok m') = m'
stage_or_keep m (err e) = m

abbrev pub push_if_made : BusTask → Option I2cPacket → Option BusTask
push_if_made s none = some s
push_if_made s (some p) = push_data s p

-- The next response of the bridge, if the mailbox is free.
abbrev pub refill_with : BusTask → Option I2cPacket × OverwriteQueue.Mailbox → BusTask
refill_with s (none, q) = record s { rx_resp = q }
refill_with s (some p, q) = record s {
  rx_resp = q;
  mailbox = stage_or_keep s.mailbox (stage s.mailbox p.kind p.payload);
}

unfoldable pub refill_mailbox : BusTask → BusTask
refill_mailbox s =
    if pending s.mailbox
    then s
    else refill_with s (try_pop i2c_packet_queue_depth i2c_packet_queue_bytes packet_item s.rx_resp)

abbrev pub after_respond : BusTask → Option Response → Option (BusTask × List Bytes)
after_respond s none = none
after_respond s (some r) = some (
  record s { mailbox = r.mailbox; resets = if r.good then s.resets else s.resets + 1 },
  r.offered,
)

unfoldable pub read_v2 : ReadEnd → ReadEnd → BusTask → Option (BusTask × List Bytes)
unfolding refill_mailbox respond_v2
read_v2 first second s =
    let s' = refill_mailbox s in after_respond s' (respond_v2 first second s'.mailbox)

unfoldable pub round_v2 : Transaction → ReadEnd → ReadEnd → BusTask → Option (BusTask × List Bytes)
unfolding read_v2
round_v2 read first second s = read_v2 first second s
round_v2 (write_read raw) first second s = read_v2 first second s
round_v2 listen_failed first second s = some (record s { resets = s.resets + 1 }, [])
round_v2 (write raw) first second s = some (s, [])
round_v2 general_call first second s = some (s, [])

abbrev pub stage_popped : BusTask → Option I2cPacket × OverwriteQueue.Mailbox → BusTask
stage_popped s (none, q) = record s {
  rx_resp = q;
  tx_packet = stage_idle s.last_transfer_id s.tx_packet;
}
stage_popped s (some p, q) = record s {
  rx_resp = q;
  tx_packet = stage_bridge_packet s.last_transfer_id p;
}

unfoldable pub stage_response_packet : BusTask → BusTask
stage_response_packet s =
    if has_pending s.tx_packet
    then s
    else stage_popped s
        (try_pop i2c_packet_queue_depth i2c_packet_queue_bytes packet_item s.rx_resp)

-- `respond_slot`, whose result is dropped.
unfoldable pub respond_slot : BusTask → BusTask × List Bytes
respond_slot s =
    let (tx, slot) = next_slot_bytes s.tx_packet in (record s { tx_packet = tx }, slot ∷ [])

unfoldable pub recover_i2c_state : BusTask → BusTask
recover_i2c_state s = record s {
  resets = s.resets + 1;
  rx_packet = reset_rx s.rx_packet;
  tx_packet = stage_error s.last_transfer_id invalid_slot_msg;
}

abbrev pub read_slots : BusTask → BusTask × List Bytes
read_slots s = respond_slot (stage_response_packet s)

module _ (config : BridgeConfig) (link_active : Bool) (texts : Diagnostics) where
  unfoldable pub reply_v2 : BusTask → Bytes → BusTask
  reply_v2 s payload =
      let (cells, response) =
        render_local_bridge_command config link_active texts s.cells (trim_ascii_line payload) in
      record s {
        cells = cells;
        mailbox = stage_or_keep s.mailbox (stage s.mailbox command response);
      }

  unfoldable pub v2_packet : BusTask → Result PacketError (ℕ × Bytes) → Option BusTask
  unfolding reply_v2
  v2_packet s (err e) = some s
  v2_packet s (ok (kind, payload)) =
      if kind == data_kind
      then (if length payload == 0 then some s else push_if_made s (make_packet kind_data payload))
      else if kind == command
      then (if looks_like_local_command payload && not (pending s.mailbox)
          then some (reply_v2 s payload)
          else some s)
      else if kind == bootsel && bytes_eq payload (codes "BOOTSEL")
      then some (record s { usb_boot = true })
      else some s

  unfoldable pub handle_v2_write : Bytes → BusTask → Option BusTask
  unfolding v2_packet
  handle_v2_write raw s = v2_packet s (packet raw)

  -- Which protocol a write selects, and what a v2 write does.
  unfoldable pub select_protocol : Bytes → BusTask → Option BusTask
  unfolding handle_v2_write
  select_protocol raw s =
      if bytes_eq raw select
      then some (record s { v2 = true; rx_packet = reset_rx s.rx_packet })
      else if not (length raw == 0) && at raw 0 == magic
      then handle_v2_write raw (record s { v2 = true })
      else if length raw == slot_size
          && bytes_eq (take 3 raw) (slot_magic0 ∷ slot_magic1 ∷ slot_version ∷ [])
      then some (record s { v2 = false })
      else some s

  unfoldable pub round_v1 : ℕ → Transaction → BusTask → Option (BusTask × List Bytes)
  unfolding respond_slot stage_response_packet recover_i2c_state
  round_v1 now (write raw) s =
      Option.map (λ t. (t, []))
        (handle_write_slot config link_active texts now (take (min (length raw) slot_size) raw) s)
  round_v1 now (write_read raw) s =
      Option.map read_slots
        (handle_write_slot config link_active texts now (take (min (length raw) slot_size) raw) s)
  round_v1 now read s = some (read_slots s)
  round_v1 now general_call s = some (s, [])
  round_v1 now listen_failed s = some (recover_i2c_state s, [])

  abbrev pub select_by : Transaction → BusTask → Option BusTask
  select_by (write raw) s = select_protocol raw s
  select_by (write_read raw) s = select_protocol raw s
  select_by _ s = some s

  -- One round of the task: the transaction, and the ends of the reads that it answers.
  unfoldable pub poll_round :
      ℕ → Transaction → ReadEnd → ReadEnd → BusTask → Option (BusTask × List Bytes)
  unfolding select_protocol round_v2 round_v1
  poll_round now t first second s =
      Option.bind (select_by t s)
        (λ s'. if s'.v2 then round_v2 t first second s' else round_v1 now t s')
