-- ===== src/UartMailbox.antt =====
-- src/bridge/uart_mailbox.rs: `Packet`, its storage in the ring, and the frames that are written.
pub mod Frames
pub mod Tests
use mathlib.Core.Option
use pico_fi.OverwriteQueue.{QueueItem, Mailbox, fetch_add_one, try_push_ref}
use pico_fi.Prelude.{
  ltb, leb, ◌==◌, if◌then◌else◌, length, take, replicate, Bytes, at, blit, ℕ, zero, suc, ◌+◌, ◌-◌,
  ◌/◌, ◌%◌, ◌||◌, Option, none, some, List, [], ◌∷◌, ◌++◌,
}

abbrev pub max_payload : ℕ
max_payload = 4096

-- The capacities of `TO_NETWORK` and `TO_UART`.
abbrev pub mailbox_depth : ℕ
mailbox_depth = 128

abbrev pub mailbox_bytes : ℕ
mailbox_bytes = 16384

pub record Packet : Type 0 where
  pub kind : ℕ
  pub len : ℕ
  pub bytes : Bytes

abbrev pub new_packet : ℕ → Packet
new_packet kind = record { kind = kind; len = 0; bytes = replicate max_payload 0 }

abbrev pub finish : Packet → ℕ → ℕ → Packet
finish p kind len = record p { kind = kind; len = len }

abbrev pub payload : Packet → Bytes
payload p = take p.len p.bytes

abbrev pub queued_len : Packet → ℕ
queued_len p = p.len + 1

-- The loop of `copy_queued_slice` over a target of `n` bytes.
abbrev pub copy_queued_slice : Packet → ℕ → ℕ → Bytes
copy_queued_slice p start zero = []
copy_queued_slice p start (suc n) =
    (if start == 0 then p.kind else at p.bytes (start - 1)) ∷ copy_queued_slice p (start + 1) n

abbrev pub packet_of : ℕ → Bytes → Option Packet
packet_of len [] = none
packet_of len (kind ∷ bytes) =
    some (record { kind = kind; len = len - 1; bytes = blit (replicate max_payload 0) 0 bytes })

unfoldable pub from_queued_slices : Bytes → Bytes → Option Packet
from_queued_slices first second =
    let len = length first + length second in
    if len == 0 || ltb (max_payload + 1) len then none else packet_of len (first ++ second)

abbrev pub packet_item : QueueItem Packet
packet_item = record {
  queued_len = queued_len;
  copy_queued_slice = copy_queued_slice;
  from_queued_slices = from_queued_slices;
}

-- The mailbox with the counters of the UART side.
pub record Admission : Type 0 where
  pub to_network : Mailbox
  pub rx_frames : ℕ
  pub rx_dropped : ℕ

unfoldable pub admit_uart : Admission → Packet → Option Admission
admit_uart s p =
    Option.map
      (λ (pushed, q). record {
        to_network = q;
        rx_frames = fetch_add_one s.rx_frames;
        rx_dropped = if pushed then s.rx_dropped else fetch_add_one s.rx_dropped;
      })
      (try_push_ref mailbox_depth mailbox_bytes packet_item s.to_network p)

-- The bytes of the calls of `write_all`, in order; short frames are one call.
unfoldable pub write_frame : ℕ × ℕ → Bytes → List Bytes
write_frame magic bytes =
    let n = length bytes in
    let header = magic.0 ∷ magic.1 ∷ n % 256 ∷ n / 256 % 256 ∷ [] in
    if leb n 508
    then take (4 + n) (blit (blit (replicate 512 0) 0 header) 4 bytes) ∷ []
    else header ∷ bytes ∷ []
