-- ===== src/Frame.antt =====
-- src/protocol/i2c.rs: the framed requests and responses of the UART-like links. A frame is its
-- list of bytes, and an output buffer is the list that it holds.
pub mod RoundTrip
pub mod Tests
use mathlib.Core.Option
use pico_fi.Prelude.{
  ltb, ◌==◌, if◌then◌else◌, length, take, replicate, Bytes, at, slice, blit, from_le16, le16, ℕ,
  ◌+◌, ◌-◌, min, ◌&&◌, ◌||◌, Option, none, some, ◌∷◌, ◌++◌,
}

abbrev pub frame_size : ℕ
frame_size = 260

abbrev pub frame_header_size : ℕ
frame_header_size = 4

abbrev pub payload_max : ℕ
payload_max = 256

abbrev pub req_data_magic : ℕ
req_data_magic = 0xA5

abbrev pub req_command_magic : ℕ
req_command_magic = 0xA6

abbrev pub resp_data_magic : ℕ
resp_data_magic = 0x5A

abbrev pub resp_command_magic : ℕ
resp_command_magic = 0x5B

abbrev pub req_raw_ascii_magic : ℕ
req_raw_ascii_magic = 0xA7

abbrev pub resp_raw_ascii_magic : ℕ
resp_raw_ascii_magic = 0x7A

pub data RequestFrame : Type 0 where
  data_request : Bytes → RequestFrame
  command_request : Bytes → RequestFrame

pub data FrameKind : Type 0 where
  data_frame command_frame raw_ascii : FrameKind

unfoldable pub kind_of : ℕ → ℕ → Option FrameKind
kind_of h0 h1 =
    if (h0 == req_data_magic && h1 == resp_data_magic)
      || (h0 == resp_data_magic && h1 == req_data_magic)
    then some data_frame
    else if (h0 == req_command_magic && h1 == resp_command_magic)
        || (h0 == resp_command_magic && h1 == req_command_magic)
    then some command_frame
    else if h0 == req_raw_ascii_magic && h1 == resp_raw_ascii_magic
    then some raw_ascii
    else none

unfoldable pub parse_frame_header : Bytes → Option (FrameKind × ℕ)
unfolding kind_of
parse_frame_header frame =
    if ltb (length frame) frame_header_size
    then none
    else Option.map (λ kind. (kind, from_le16 (at frame 2) (at frame 3)))
        (kind_of (at frame 0) (at frame 1))

-- The payload as the request of its kind.
unfoldable pub request_of : FrameKind → Bytes → Option RequestFrame
request_of data_frame payload = some (data_request payload)
request_of command_frame payload = some (command_request payload)
request_of raw_ascii payload = none

-- What follows the header in `parse_request_bytes`.
unfoldable pub parse_request_body : Bytes → Option (FrameKind × ℕ) → Option RequestFrame
unfolding request_of
parse_request_body frame none = none
parse_request_body frame (some (kind, len)) =
    if ltb (length frame) (frame_header_size + len)
    then none
    else request_of kind (slice frame frame_header_size len)

unfoldable pub parse_request_bytes : Bytes → Option RequestFrame
unfolding parse_request_body parse_frame_header
parse_request_bytes frame = parse_request_body frame (parse_frame_header frame)

unfoldable pub parse_request_frame : Bytes → Option RequestFrame
unfolding parse_request_bytes
parse_request_frame frame = parse_request_bytes frame

unfoldable pub header_for_magic : ℕ → Option (ℕ × ℕ)
header_for_magic magic =
    if magic == req_data_magic || magic == resp_data_magic
    then some (req_data_magic, resp_data_magic)
    else if magic == req_command_magic || magic == resp_command_magic
    then some (req_command_magic, resp_command_magic)
    else if magic == req_raw_ascii_magic || magic == resp_raw_ascii_magic
    then some (req_raw_ascii_magic, resp_raw_ascii_magic)
    else none

-- The header and the payload, copied to the start of a buffer.
unfoldable pub fill : Bytes → ℕ × ℕ → ℕ → Bytes → Bytes
fill out (h0, h1) len payload = blit out 0 (h0 ∷ h1 ∷ le16 len ++ take len payload)

-- `unwrap_or((REQ_DATA_MAGIC, RESP_DATA_MAGIC))`
unfoldable pub header_or_data : Option (ℕ × ℕ) → ℕ × ℕ
header_or_data none = (req_data_magic, resp_data_magic)
header_or_data (some h) = h

unfoldable pub make_response_frame : ℕ → Bytes → Bytes
unfolding fill header_for_magic header_or_data
make_response_frame magic payload =
    fill (replicate frame_size 0) (header_or_data (header_for_magic magic))
      (min (length payload) payload_max) payload

-- The number of bytes used and the buffer afterwards; `none` leaves the buffer as it is.
unfoldable pub build_with : Option (ℕ × ℕ) → Bytes → Bytes → Option (ℕ × Bytes)
unfolding fill
build_with none payload out = none
build_with (some h) payload out =
    if ltb (length out) frame_header_size
    then none
    else (let len = min (min (length payload) (length out - frame_header_size)) 65535 in
        some (frame_header_size + len, fill out h len payload))

unfoldable pub build_frame_into : ℕ → Bytes → Bytes → Option (ℕ × Bytes)
unfolding build_with header_for_magic
build_frame_into magic payload out = build_with (header_for_magic magic) payload out
