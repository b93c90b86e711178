-- ===== src/Usb.antt =====
-- src/bridge/usb.rs: the local command line in the bytes of the USB port, and the packets that go
-- back. A write that fails ends the session, and what it would have done after it.
pub mod Input
pub mod Lines
pub mod Tests
use pico_fi.Commands.{LedCells, Diagnostics, render_local_bridge_command}
use pico_fi.Config.{BridgeConfig}
use pico_fi.Prelude.{
  ltb, leb, ◌==◌, if◌then◌else◌, length, take, drop, Bytes, ℕ, zero, suc, Bool, true, false, not,
  ◌&&◌, ◌||◌, List, [], ◌∷◌, ◌++◌, map,
}

pub record LocalCommandState : Type 0 where
  pub at_line_start : Bool
  pub active : Bool
  pub buf : Bytes

abbrev pub buf_capacity : ℕ
buf_capacity = 256

abbrev pub new_command_state : LocalCommandState
new_command_state = record { at_line_start = true; active = false; buf = [] }

-- What is written: bytes to the socket, packets to the port.
pub data Output : Type 0 where
  to_socket : Bytes → Output
  to_usb : Bytes → Output

-- The packets of `write_usb_packet` from what is left of the bytes on. Each has a byte at least: as
-- many rounds as there are bytes are enough.
abbrev pub usb_packets : ℕ → Bytes → List Bytes
usb_packets zero bytes = []
usb_packets (suc fuel) [] = []
usb_packets (suc fuel) (b ∷ bytes) = take 64 (b ∷ bytes) ∷ usb_packets fuel (drop 64 (b ∷ bytes))

unfoldable pub write_usb_packet : Bytes → List Output
write_usb_packet bytes = map to_usb (usb_packets (length bytes) bytes)

unfoldable pub write_usb_line : Bytes → List Output
unfolding write_usb_packet
write_usb_line value = write_usb_packet value ++ write_usb_packet (13 ∷ 10 ∷ [])

-- `b' '` or `is_ascii_graphic`
abbrev pub is_line_byte : ℕ → Bool
is_line_byte byte = (leb 33 byte && leb byte 126) || byte == 32

-- `socket` is whether there is one.
abbrev pub forward_usb_bytes : Bool → Bytes → List Output
forward_usb_bytes socket [] = []
forward_usb_bytes true (b ∷ bytes) = to_socket (b ∷ bytes) ∷ []
forward_usb_bytes false (b ∷ bytes) = []

abbrev pub flush_command_bytes : Bool → LocalCommandState → LocalCommandState × List Output
flush_command_bytes socket s =
    (record s { buf = []; active = false }, forward_usb_bytes socket s.buf)

-- The line goes to the socket after all, and this byte behind it.
abbrev pub give_up : Bool → ℕ → LocalCommandState → LocalCommandState × List Output
give_up socket byte s =
    let (s', flushed) = flush_command_bytes socket s in
    (record s' { at_line_start = false }, flushed ++ forward_usb_bytes socket (byte ∷ []))

-- Whether the next byte is the first of a line.
abbrev pub after_plain : LocalCommandState → ℕ → LocalCommandState
after_plain s byte =
    if byte == 10
    then record s { at_line_start = true }
    else if not (byte == 13)
    then record s { at_line_start = false }
    else s

-- A byte outside of a line that may be a command.
unfoldable pub plain_byte : Bool → LocalCommandState → ℕ → LocalCommandState × List Output
plain_byte socket s byte =
    if s.at_line_start && byte == 47
    then (record s { active = true; buf = 47 ∷ [] }, [])
    else (after_plain s byte, forward_usb_bytes socket (byte ∷ []))

module _ (config : BridgeConfig) (link_active : Bool) (texts : Diagnostics) where
  unfoldable pub handle_local_command : LedCells → Bytes → LedCells × List Output
  unfolding write_usb_line
  handle_local_command cells [] = (cells, [])
  handle_local_command cells (b ∷ line) =
      let (cells', response) =
        render_local_bridge_command config link_active texts cells (b ∷ line) in
      if b == 47 then (cells', write_usb_line response) else (cells, [])

  -- A byte of a line that may be a command.
  unfoldable pub command_byte :
      Bool → LedCells → LocalCommandState → ℕ → LedCells × LocalCommandState × List Output
  unfolding handle_local_command
  command_byte socket cells s byte =
      if byte == 13
      then (cells, s, [])
      else if byte == 10
      then (let (cells', out) = handle_local_command cells s.buf in
          (cells', record { at_line_start = true; active = false; buf = [] }, out))
      else if is_line_byte byte && ltb (length s.buf) buf_capacity
      then (cells, record s { buf = s.buf ++ (byte ∷ []) }, [])
      else (let (s', out) = give_up socket byte s in (cells, s', out))

  unfoldable pub usb_byte :
      Bool → LedCells → LocalCommandState → ℕ → LedCells × LocalCommandState × List Output
  unfolding command_byte plain_byte
  usb_byte socket cells s byte =
      if s.active
      then command_byte socket cells s byte
      else (let (s', out) = plain_byte socket s byte in (cells, s', out))

  -- The loop over the bytes of a packet.
  abbrev pub handle_usb_input :
      Bool → LedCells → LocalCommandState → Bytes → LedCells × LocalCommandState × List Output
  handle_usb_input socket cells s [] = (cells, s, [])
  handle_usb_input socket cells s (b ∷ bytes) =
      let (cells', s', out) = usb_byte socket cells s b in
      let (cells'', s'', rest) = handle_usb_input socket cells' s' bytes in
      (cells'', s'', out ++ rest)
