-- ===== src/I2cTask.antt =====
-- src/bridge/i2c_task.rs: the packets between the bus task and the bridge, and the task itself. What
-- the bus does is an input: the transactions, and how the master ends each read. `none` is a panic.
pub mod Poll
pub mod Reply
pub mod Receive
pub mod Queue
pub mod Requests
pub mod RoundTrip
pub mod Safety
pub mod Handlers
pub mod Answers
pub mod Rounds
pub mod Runs
pub mod Tests
use pico_fi.OverwriteQueue
use mathlib.Core.Option
use pico_fi.OverwriteQueue.{
  QueueItem, push_overwrite, i2c_packet_queue_depth, i2c_packet_queue_bytes,
}
use pico_fi.I2cPacket.{Mailbox}
use pico_fi.Commands.{LedCells, Diagnostics, render_local_bridge_command, trim_ascii_line}
use pico_fi.Config.{BridgeConfig}
use pico_fi.Frame.{
  RequestFrame, command_request, data_request, build_frame_into, parse_request_bytes,
  resp_data_magic, resp_command_magic, req_command_magic,
}
use pico_fi.I2cSlot.{
  i2c_packet_max, TxPacketState, RxPacketState, Slot, stage_packet, stage_error, push_slot,
  decode_slot, kind_data, kind_command, kind_error, oversize_msg, invalid_slot_msg,
  invalid_kind_msg,
}
use pico_fi.I2cSlot.{new_rx, new_tx}
use pico_fi.I2cPacket.{new_mailbox}
use pico_fi.Prelude.{
  leb, ◌==◌, if◌then◌else◌, length, take, replicate, Bytes, slice, Result, ok, err, ℕ, zero, suc,
  ◌+◌, Bool, true, false, ◌&&◌, ◌||◌, Option, none, some, [], ◌∷◌, ◌++◌,
}

pub record I2cPacket : Type 0 where
  pub kind : ℕ
  pub payload : Bytes

abbrev pub queued_len : I2cPacket → ℕ
queued_len p = 1 + length p.payload

-- What a target of `n` bytes receives.
abbrev pub copy_queued_slice : I2cPacket → ℕ → ℕ → Bytes
copy_queued_slice p zero zero = []
copy_queued_slice p zero (suc n) = p.kind ∷ take n p.payload
copy_queued_slice p (suc start) n = slice p.payload start n

-- `extend_from_slice` on a vector of capacity `I2C_PACKET_MAX`.
abbrev pub extend_from_slice : Bytes → Bytes → Option Bytes
extend_from_slice vec src =
    if leb (length vec + length src) i2c_packet_max then some (vec ++ src) else none

abbrev pub packet_with : ℕ → Option Bytes → Option I2cPacket
packet_with kind none = none
packet_with kind (some payload) = some (record { kind = kind; payload = payload })

unfoldable pub from_queued_slices : Bytes → Bytes → Option I2cPacket
from_queued_slices [] [] = none
from_queued_slices [] (kind ∷ second) = packet_with kind (extend_from_slice [] second)
from_queued_slices (kind ∷ first) second = elim (extend_from_slice [] first) [
  | none ↦ none
  | some vec ↦ packet_with kind (extend_from_slice vec second)
]

abbrev pub packet_item : QueueItem I2cPacket
packet_item = record {
  queued_len = queued_len;
  copy_queued_slice = copy_queued_slice;
  from_queued_slices = from_queued_slices;
}

unfoldable pub make_packet : ℕ → Bytes → Option I2cPacket
make_packet kind payload = packet_with kind (extend_from_slice [] payload)

abbrev pub all_printable : Bytes → Bool
all_printable [] = true
all_printable (b ∷ bs) = (b == 10 || b == 13 || (leb 32 b && leb b 126)) && all_printable bs

abbrev pub looks_like_local_command : Bytes → Bool
looks_like_local_command [] = false
looks_like_local_command (b ∷ bs) = b == 47 && all_printable (b ∷ bs)

abbrev pub nonzero_transfer_id : ℕ → ℕ
nonzero_transfer_id value = if value == 0 then 1 else value

-- `build_frame_into` an empty buffer of `I2C_PACKET_MAX` bytes, then `stage`, or the error.
abbrev pub stage_built : ℕ → ℕ → Option (ℕ × Bytes) → TxPacketState
stage_built kind transfer_id none = stage_error transfer_id oversize_msg
stage_built kind transfer_id (some (len, framed)) = stage_packet kind transfer_id (take len framed)

abbrev pub stage_framed : ℕ → ℕ → ℕ → Bytes → TxPacketState
stage_framed kind transfer_id magic payload =
    stage_built kind transfer_id (build_frame_into magic payload (replicate i2c_packet_max 0))

unfoldable pub stage_bridge_packet : ℕ → I2cPacket → TxPacketState
stage_bridge_packet transfer_id p =
    if p.kind == kind_data
    then stage_framed p.kind transfer_id resp_data_magic p.payload
    else if p.kind == kind_command || p.kind == kind_error
    then stage_framed p.kind transfer_id resp_command_magic p.payload
    else stage_error transfer_id invalid_slot_msg

-- The local variables of the task, the cells that its local commands write, the two queues, and
-- what it has done to the bus and to the chip.
pub record BusTask : Type 0 where
  pub rx_packet : RxPacketState
  pub tx_packet : TxPacketState
  pub last_transfer_id : ℕ
  pub v2 : Bool
  pub mailbox : Mailbox
  pub cells : LedCells
  pub tx : OverwriteQueue.Mailbox
  pub rx_resp : OverwriteQueue.Mailbox
  pub resets : ℕ
  pub usb_boot : Bool

-- The state in which `i2c_poll_task` begins.
abbrev pub new_task : LedCells → OverwriteQueue.Mailbox → OverwriteQueue.Mailbox → BusTask
new_task cells tx rx_resp = record {
  rx_packet = new_rx;
  tx_packet = new_tx;
  last_transfer_id = 1;
  v2 = false;
  mailbox = new_mailbox;
  cells = cells;
  tx = tx;
  rx_resp = rx_resp;
  resets = 0;
  usb_boot = false;
}

abbrev pub push_data : BusTask → I2cPacket → Option BusTask
push_data s p =
    Option.map (λ r. record s { tx = r.1 })
      (push_overwrite i2c_packet_queue_depth i2c_packet_queue_bytes packet_item s.tx p)

-- The packet if it could be made, and the error otherwise.
abbrev pub push_or_error : BusTask → ℕ → Option I2cPacket → Option BusTask
push_or_error s transfer_id none =
    some (record s { tx_packet = stage_error transfer_id oversize_msg })
push_or_error s transfer_id (some p) = push_data s p

module _ (config : BridgeConfig) (link_active : Bool) (texts : Diagnostics) where
  -- The reply to a local command, framed with this magic.
  unfoldable pub reply_local : BusTask → ℕ → ℕ → Bytes → BusTask
  reply_local s transfer_id magic payload =
      let (cells, response) =
        render_local_bridge_command config link_active texts s.cells (trim_ascii_line payload) in
      record s {
        cells = cells;
        tx_packet = stage_framed kind_command (nonzero_transfer_id transfer_id) magic response;
      }

  -- A command: a local one is answered, another is handed to the bridge.
  abbrev pub process_command : BusTask → ℕ → ℕ → Bytes → Option BusTask
  process_command s transfer_id magic payload =
      if looks_like_local_command payload
      then some (reply_local s transfer_id magic payload)
      else push_or_error s (nonzero_transfer_id transfer_id) (make_packet kind_data payload)

  abbrev pub process_data : BusTask → ℕ → Bytes → Option BusTask
  process_data s transfer_id [] = some s
  process_data s transfer_id (b ∷ bs) =
      push_or_error s (nonzero_transfer_id transfer_id) (make_packet kind_data (b ∷ bs))

  unfoldable pub process_request : BusTask → ℕ → ℕ → Bytes → Option RequestFrame → Option BusTask
  process_request s kind transfer_id payload (some (command_request body)) =
      process_command s transfer_id resp_command_magic body
  process_request s kind transfer_id payload (some (data_request body)) =
      process_data s transfer_id body
  process_request s kind transfer_id payload none =
      if kind == kind_command
      then process_command s transfer_id req_command_magic payload
      else if kind == kind_data
      then process_data s transfer_id payload
      else some
          (record s { tx_packet = stage_error (nonzero_transfer_id transfer_id) invalid_kind_msg })

  unfoldable pub process_complete_packet : BusTask → ℕ → ℕ → Bytes → Option BusTask
  unfolding process_request
  process_complete_packet s kind transfer_id payload =
      process_request s kind transfer_id payload (parse_request_bytes payload)

  -- After `push_slot`.
  unfoldable pub after_push :
      BusTask → RxPacketState × Result Bytes (Option (ℕ × ℕ × ℕ)) → Option BusTask
  unfolding process_complete_packet
  after_push s (rx, err msg) =
      some (record s { rx_packet = rx; tx_packet = stage_error s.last_transfer_id msg })
  after_push s (rx, ok none) = some (record s { rx_packet = rx })
  after_push s (rx, ok (some (kind, transfer_id, total_len))) =
      process_complete_packet
        (record s { rx_packet = rx; last_transfer_id = nonzero_transfer_id transfer_id }) kind
        transfer_id (take total_len rx.payload)

  unfoldable pub after_decode : ℕ → BusTask → Result Bytes (Option Slot) → Option BusTask
  unfolding after_push
  after_decode now s (err msg) = some (record s { tx_packet = stage_error s.last_transfer_id msg })
  after_decode now s (ok none) = some s
  after_decode now s (ok (some slot)) = after_push s (push_slot now s.rx_packet slot)

  unfoldable pub handle_write_slot : ℕ → Bytes → BusTask → Option BusTask
  unfolding after_decode
  handle_write_slot now raw s = Option.bind (decode_slot raw) (after_decode now s)
