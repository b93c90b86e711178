-- ===== src/SpiFrame.antt =====
-- src/bridge/spi_frame.rs: one framed SPI transfer, and its storage in the packet ring.
pub mod Queue
pub mod Tests
use pico_fi.OverwriteQueue.{QueueItem}
use pico_fi.Frame.{build_frame_into, frame_header_size, frame_size}
use mathlib.Core.Option
use pico_fi.Prelude.{
  leb, if◌then◌else◌, length, take, replicate, Bytes, at, slice, blit, from_le16, ℕ, ◌+◌, min,
  Option, none, some, [], ◌++◌,
}

-- `Vec<u8, FRAME_SIZE>`
pub record SpiFrame : Type 0 where
  pub bytes : Bytes

-- `Vec::extend_from_slice`, which fails where the capacity is exceeded.
abbrev pub extend_from_slice : Bytes → Bytes → Option Bytes
extend_from_slice vec src =
    if leb (length vec + length src) frame_size then some (vec ++ src) else none

pub from_raw_frame : Bytes → SpiFrame
from_raw_frame raw =
    let payload_len = from_le16 (at raw 2) (at raw 3) in
    record { bytes = take (min (frame_header_size + payload_len) frame_size) raw }

-- `build_frame_into(..).unwrap_or(0)` bytes of the buffer
unfoldable pub built : Bytes → Option (ℕ × Bytes) → SpiFrame
built buf none = record { bytes = [] }
built buf (some (len, out)) = record { bytes = take len out }

unfoldable pub response : ℕ → Bytes → SpiFrame
unfolding built build_frame_into
response magic payload =
    let buf = replicate frame_size 0 in built buf (build_frame_into magic payload buf)

pub as_frame : SpiFrame → Bytes
as_frame f = blit (replicate frame_size 0) 0 f.bytes

pub queued_len : SpiFrame → ℕ
queued_len f = length f.bytes

pub copy_queued_slice : SpiFrame → ℕ → ℕ → Bytes
copy_queued_slice f start n = slice f.bytes start n

pub extended : Bytes → Option Bytes → Option SpiFrame
extended second none = none
extended second (some vec) =
    Option.map (λ bytes. record { bytes = bytes }) (extend_from_slice vec second)

pub from_queued_slices : Bytes → Bytes → Option SpiFrame
unfolding extended
from_queued_slices first second = extended second (extend_from_slice [] first)

pub spi_item : QueueItem SpiFrame
unfolding queued_len copy_queued_slice from_queued_slices
spi_item = record {
  queued_len = queued_len;
  copy_queued_slice = copy_queued_slice;
  from_queued_slices = from_queued_slices;
}
