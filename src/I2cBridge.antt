-- ===== src/I2cBridge.antt =====
-- src/bridge/i2c.rs: the session between the bus task's queues and the socket. What is ready, and
-- which of two ready things `select` takes, is an input; `none` is a panic of a queue.
pub mod Lossless
pub mod Endless
pub mod Tests
use mathlib.Core.Option
use pico_fi.OverwriteQueue
use pico_fi.OverwriteQueue.{
  poll_push, try_push, try_pop, has_space_for, i2c_packet_queue_depth, i2c_packet_queue_bytes, Push,
  done, refused, pending,
}
use pico_fi.I2cTask.{I2cPacket, make_packet, packet_item}
use pico_fi.I2cSlot.{kind_data, kind_command, kind_error, i2c_packet_max}
use pico_fi.Net.{write_bridge_frame}
use pico_fi.Commands.{LedCells, Diagnostics, render_local_bridge_command, trim_ascii_line}
use pico_fi.Config.{BridgeConfig}
use pico_fi.Text.{codes}
use pico_fi.OverwriteQueue.Reserve.{popped}
use pico_fi.Prelude.{
  ◌==◌, if◌then◌else◌, length, Bytes, Result, ok, err, ℕ, ◌+◌, Bool, true, not, ◌&&◌, Option, none,
  some, List, ◌++◌,
}

-- What a request asks for: nothing, a frame on the socket, a packet in the queue, or `Err(())`.
pub data Request : Type 0 where
  nothing : Request
  frame : Bytes → Request
  packet : I2cPacket → Request
  failure : Request

abbrev pub packet_or_failure : Option I2cPacket → Request
packet_or_failure none = failure
packet_or_failure (some p) = packet p

module _ (config : BridgeConfig) (link_active : Bool) (texts : Diagnostics) where
  -- `socket` is whether there is one.
  unfoldable pub handle_i2c_request : Bool → LedCells → I2cPacket → LedCells × Request
  handle_i2c_request socket cells p =
      let (cells', response) =
        render_local_bridge_command config link_active texts cells (trim_ascii_line p.payload) in
      if p.kind == kind_data
      then (cells, if socket && not (length p.payload == 0) then frame p.payload else nothing)
      else if p.kind == kind_command
      then (cells', packet_or_failure (make_packet kind_command response))
      else (cells, packet_or_failure (make_packet kind_error (codes "error invalid i2c frame")))

-- The two queues, the cells, a packet that waits in `push`, what went to the socket, and whether the
-- session has ended.
pub record Session : Type 0 where
  pub i2c_rx : OverwriteQueue.Mailbox
  pub i2c_tx : OverwriteQueue.Mailbox
  pub cells : LedCells
  pub unsent : Option I2cPacket
  pub sent : List Bytes
  pub ended : Bool

-- What `select` gives: a packet of the bus task, a frame of the socket, or its error. While it
-- waits, the bus task pops some packets from `i2c_tx`.
pub data Ready : Type 0 where
  from_bus : Ready
  from_net : ℕ → Bytes → Ready
  net_error : Ready

abbrev pub end_session : Session → Session
end_session s = record s { ended = true }

-- One poll of `push`.
abbrev pub after_poll : Session → Push I2cPacket × OverwriteQueue.Mailbox → Session
after_poll s (done, q) = record s { i2c_tx = q; unsent = none }
after_poll s (refused p, q) = end_session (record s { i2c_tx = q; unsent = none })
after_poll s (pending, q) = record s { i2c_tx = q }

abbrev pub after_frame : Session → Option (List Bytes) → Session
after_frame s none = end_session s
after_frame s (some writes) = record s { sent = s.sent ++ writes }

abbrev pub after_request : Session → LedCells × Request → Session
after_request s (cells, nothing) = record s { cells = cells }
after_request s (cells, frame payload) =
    after_frame (record s { cells = cells }) (write_bridge_frame payload)
after_request s (cells, packet p) = record s { cells = cells; unsent = some p }
after_request s (cells, failure) = end_session (record s { cells = cells })

abbrev pub after_try_push : Session → Result I2cPacket (Unit {0}) × OverwriteQueue.Mailbox → Session
after_try_push s (ok u, q) = record s { i2c_tx = q }
after_try_push s (err p, q) = end_session (record s { i2c_tx = q })

-- `i2c_tx.try_push(make_packet(..)?)`
abbrev pub push_frame : Session → OverwriteQueue.Mailbox → Option I2cPacket → Option Session
push_frame s q none = some (end_session s)
push_frame s q (some p) =
    Option.map (after_try_push s)
      (try_push i2c_packet_queue_depth i2c_packet_queue_bytes packet_item q p)

module _ (config : BridgeConfig) (link_active : Bool) (texts : Diagnostics) where
  abbrev pub after_pop : Session → Option I2cPacket × OverwriteQueue.Mailbox → Session
  after_pop s (none, q) = record s { i2c_rx = q }
  after_pop s (some p, q) =
      after_request (record s { i2c_rx = q })
        (handle_i2c_request config link_active texts true s.cells p)

  abbrev pub take_request : Session → Session
  take_request s =
      after_pop s (try_pop i2c_packet_queue_depth i2c_packet_queue_bytes packet_item s.i2c_rx)

  -- One round of the loop when no packet waits.
  unfoldable pub session_round : Ready → Session → Option Session
  unfolding handle_i2c_request
  session_round from_bus s = some (take_request s)
  session_round (from_net k payload) s =
      let q = popped i2c_packet_queue_depth i2c_packet_queue_bytes packet_item k s.i2c_tx in
      let pushed = push_frame s q (make_packet kind_data payload) in
      if has_space_for i2c_packet_queue_depth i2c_packet_queue_bytes s.i2c_tx (i2c_packet_max + 1)
      then pushed
      else some (record s { i2c_tx = q })
  session_round net_error s =
      if has_space_for i2c_packet_queue_depth i2c_packet_queue_bytes s.i2c_tx (i2c_packet_max + 1)
      then some (end_session s)
      else some s

  -- A step of the session: a poll of the `push` in which it waits, or a round of its loop.
  abbrev pub step_with : Ready → Session → Option I2cPacket → Option Session
  step_with r s none = session_round r s
  step_with r s (some p) =
      Option.map (after_poll s)
        (poll_push i2c_packet_queue_depth i2c_packet_queue_bytes packet_item s.i2c_tx p)

  unfoldable pub session_step : Ready → Session → Option Session
  unfolding session_round
  session_step r s = step_with r s s.unsent
