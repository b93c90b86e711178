-- ===== src/HostSpi.antt =====
-- host/spi_backend.rs: the frames of the host's end of the SPI link.
pub mod RoundTrip
pub mod Tests
use pico_fi.HostI2c.{Frame, InvalidFrame, invalid, frame_with}
use pico_fi.Frame.{
  frame_size, frame_header_size, req_data_magic, req_command_magic, resp_data_magic,
  resp_command_magic,
}
use pico_fi.Prelude.{
  ltb, ◌==◌, if◌then◌else◌, length, take, Bytes, at, slice, from_le16, le16, Result, ok, err, ℕ,
  ◌+◌, ◌-◌, ◌^◌, min, Bool, ◌&&◌, ◌∷◌, ◌++◌,
}

abbrev pub payload_max : ℕ
payload_max = frame_size - frame_header_size

-- The magic, the length and the start of the payload that a response is read with.
pub record Header : Type 0 where
  pub magic : ℕ
  pub len : ℕ
  pub payload_start : ℕ

-- Whether the two bytes from `i` on are the magics of a frame.
abbrev pub has_magics : Bytes → ℕ → ℕ → ℕ → Bool
has_magics raw i req resp = at raw i == req && at raw (i + 1) == resp

-- The header at the start, or one byte later after a zero; `usize::MAX` is the length otherwise.
abbrev pub response_header : Bytes → Header
response_header raw =
    let len = from_le16 (at raw 2) (at raw 3) in
    let shifted_len = from_le16 (at raw 3) (at raw 4) in
    if has_magics raw 0 req_data_magic resp_data_magic
    then record { magic = resp_data_magic; len = len; payload_start = frame_header_size }
    else if has_magics raw 0 req_command_magic resp_command_magic
    then record { magic = resp_command_magic; len = len; payload_start = frame_header_size }
    else if at raw 0 == 0 && has_magics raw 1 req_data_magic resp_data_magic
    then record {
      magic = resp_data_magic;
      len = shifted_len;
      payload_start = frame_header_size + 1;
    }
    else if at raw 0 == 0 && has_magics raw 1 req_command_magic resp_command_magic
    then record {
      magic = resp_command_magic;
      len = shifted_len;
      payload_start = frame_header_size + 1;
    }
    else record { magic = at raw 0; len = 2 ^ 64 - 1; payload_start = frame_header_size }

abbrev pub read_payload : Bytes → Header → Result InvalidFrame Frame
read_payload raw h =
    if ltb payload_max h.len
    then err (invalid h.magic h.len)
    else if ltb frame_size (h.payload_start + h.len)
    then err (invalid h.magic h.len)
    else frame_with h.magic h.len (slice raw h.payload_start h.len)

unfoldable pub parse_response : Bytes → Result InvalidFrame Frame
parse_response raw = read_payload raw (response_header raw)

abbrev pub answer_magic : ℕ → ℕ
answer_magic magic = if magic == req_command_magic then resp_command_magic else resp_data_magic

unfoldable pub build_request_frame : ℕ → Bytes → Bytes
build_request_frame magic payload =
    let sent = take (min (length payload) payload_max) payload in
    (magic ∷ answer_magic magic ∷ le16 (length sent)) ++ sent
