-- ===== src/Net.antt =====
-- src/net.rs: the transport over a TCP socket. What the stack does is an input: `some n` is a call of
-- `read` or `write` that may move `n` bytes, `none` one that fails; `waiting` is a call for which
-- there is no more of it.
pub mod Transport
pub mod Link
pub mod Address
pub mod Frames
pub mod Tests
use pico_fi.Stream
use pico_fi.Stream.{FrameReader, new_reader, Left}
use pico_fi.Prelude.{
  ltb, leb, ◌==◌, if◌then◌else◌, length, take, drop, replicate, Bytes, bytes_eq, blit, le16, ℕ,
  zero, suc, ◌+◌, ◌-◌, min, Bool, true, false, ◌&&◌, Option, none, some, List, [], ◌∷◌, ◌++◌,
}

abbrev pub bridge_frame_header_size : ℕ
bridge_frame_header_size = 4

abbrev pub bridge_frame_inline_write_max : ℕ
bridge_frame_inline_write_max = 512

abbrev pub bridge_frame_magic : ℕ × ℕ
bridge_frame_magic = (0xB5, 0x4E)

pub data Io : Type 0 where
  finished : Io
  broken : Io
  waiting : Io

-- What a call of `write_socket` leaves: how it ended, the bytes that went out, and what the stack
-- has not been asked yet.
pub record Sent : Type 0 where
  pub io : Io
  pub out : Bytes
  pub calls : List (Option ℕ)

abbrev pub sent_first : Bytes → Sent → Sent
sent_first bytes s = record s { out = bytes ++ s.out }

unfoldable pub write_socket : List (Option ℕ) → Bytes → Sent
write_socket calls [] = record { io = finished; out = []; calls = calls }
write_socket [] (b ∷ buf) = record { io = waiting; out = []; calls = [] }
write_socket (none ∷ calls) (b ∷ buf) = record { io = broken; out = []; calls = calls }
write_socket (some zero ∷ calls) (b ∷ buf) = record { io = broken; out = []; calls = calls }
write_socket (some (suc n) ∷ calls) (b ∷ buf) =
    sent_first (take (suc n) (b ∷ buf)) (write_socket calls (drop (suc n) (b ∷ buf)))

-- What a call of `read_socket_exact` leaves: how it ended, the bytes it got, and those still there.
pub record Got : Type 0 where
  pub io : Io
  pub bytes : Bytes
  pub rest : Bytes

abbrev pub got_first : Bytes → Got → Got
got_first bytes g = record g { bytes = bytes ++ g.bytes }

-- `want` bytes are still missing. A read of no bytes is the end of the stream.
unfoldable pub read_socket_exact : List (Option ℕ) → ℕ → Bytes → Got
read_socket_exact calls zero input = record { io = finished; bytes = []; rest = input }
read_socket_exact [] (suc want) input = record { io = waiting; bytes = []; rest = input }
read_socket_exact (none ∷ calls) (suc want) input = record { io = broken; bytes = []; rest = input }
read_socket_exact (some n ∷ calls) (suc want) input =
    let k = min n (min (suc want) (length input)) in
    let more = got_first (take k input) (read_socket_exact calls (suc want - k) (drop k input)) in
    if k == 0 then record { io = broken; bytes = []; rest = input } else more

-- The bytes of the calls of `write_socket`, in order; `none` is a payload that is too long.
unfoldable pub write_bridge_frame : Bytes → Option (List Bytes)
write_bridge_frame payload =
    let n = length payload in
    let header = bridge_frame_magic.0 ∷ bridge_frame_magic.1 ∷ le16 n in
    if ltb 65535 n
    then none
    else if leb (n + bridge_frame_header_size) bridge_frame_inline_write_max
    then some (
        take (bridge_frame_header_size + n) (
          blit (blit (replicate bridge_frame_inline_write_max 0) 0 header) bridge_frame_header_size
            payload)
        ∷ [])
    else some (header ∷ payload ∷ [])

abbrev pub bridge_frame_reader : FrameReader
bridge_frame_reader = new_reader bridge_frame_magic bridge_frame_magic false

-- `reader.read(socket, buf)`, whose magic is dropped; a TCP stream that ends is an error.
abbrev pub read_bridge_frame : (ℕ → ℕ → ℕ) → Bool → FrameReader → Bytes → Bytes → Left
read_bridge_frame grant eof reader buf input = Stream.read grant eof reader buf input

-- `exchange_link_handshake`: whether it succeeds, and what it sends. `writes` are the calls of
-- `write` and `reads` those of `read`; the end that starts sends first.
pub record Handshake : Type 0 where
  pub good : Bool
  pub out : Bytes

abbrev pub is_finished : Io → Bool
is_finished finished = true
is_finished broken = false
is_finished waiting = false

-- Seven bytes came before the timeout, and they are the magic.
abbrev pub is_answer : Bytes → Got → Bool
is_answer magic g = is_finished g.io && bytes_eq g.bytes magic

unfoldable pub exchange_link_handshake :
    Bool → Bytes → List (Option ℕ) → List (Option ℕ) → Bytes → Handshake
unfolding write_socket read_socket_exact
exchange_link_handshake true magic writes reads input =
    let s = write_socket writes magic in
    record {
      good = is_finished s.io && is_answer magic (read_socket_exact reads 7 input);
      out = s.out;
    }
exchange_link_handshake false magic writes reads input =
    if is_answer magic (read_socket_exact reads 7 input)
    then (let s = write_socket writes magic in record { good = is_finished s.io; out = s.out })
    else record { good = false; out = [] }
