-- ===== src/I2cPacket.antt =====
-- src/protocol/i2c_packet.rs: the four-byte header of I2C v2 packets and the one-packet mailbox.
pub mod Codec
pub mod Mailboxes
pub mod Tests
use pico_fi.Prelude.{
  ltb, ◌==◌, if◌then◌else◌, length, take, drop, replicate, Bytes, at, blit, from_le16, Result, ok,
  err, ℕ, ◌+◌, ◌/◌, ◌%◌, Bool, not, ◌&&◌, ◌||◌, [], ◌∷◌,
}

abbrev pub magic : ℕ
magic = 0xD2

abbrev pub header_len : ℕ
header_len = 4

abbrev pub max_payload : ℕ
max_payload = 4092

abbrev pub idle : ℕ
idle = 0

abbrev pub data_kind : ℕ
data_kind = 1

abbrev pub command : ℕ
command = 2

abbrev pub bootsel : ℕ
bootsel = 0x7E

abbrev pub error_kind : ℕ
error_kind = 0x7F

abbrev pub select : Bytes
select = magic ∷ idle ∷ 0 ∷ 0 ∷ []

-- The error texts of this file.
pub data PacketError : Type 0 where
  invalid_header : PacketError
  unexpected_header : PacketError
  incomplete_packet : PacketError
  empty_packet : PacketError
  occupied : PacketError

-- `matches!(kind, IDLE | DATA | COMMAND | BOOTSEL | ERROR)`
abbrev pub is_kind : ℕ → Bool
is_kind kind =
    kind == idle || kind == data_kind || kind == command || kind == bootsel || kind == error_kind

pub header : ℕ → ℕ → Result PacketError Bytes
header kind len =
    if ltb max_payload len || not (is_kind kind) || (kind == idle && not (len == 0))
    then err invalid_header
    else ok (magic ∷ kind ∷ len % 256 ∷ len / 256 % 256 ∷ [])

-- `header(raw[1], len)?; Ok((raw[1], len))`
pub checked : ℕ → ℕ → Result PacketError Bytes → Result PacketError (ℕ × ℕ)
checked kind len (ok h) = ok (kind, len)
checked kind len (err e) = err e

pub decode : Bytes → Result PacketError (ℕ × ℕ)
unfolding header checked
decode raw =
    if ltb (length raw) header_len || not (at raw 0 == magic)
    then err unexpected_header
    else (let len = from_le16 (at raw 2) (at raw 3) in
        checked (at raw 1) len (header (at raw 1) len))

pub sized : Bytes → Result PacketError (ℕ × ℕ) → Result PacketError (ℕ × Bytes)
sized raw (ok (kind, len)) =
    if length raw == header_len + len then ok (kind, drop header_len raw) else err incomplete_packet
sized raw (err e) = err e

pub packet : Bytes → Result PacketError (ℕ × Bytes)
unfolding decode sized
packet raw = sized raw (decode raw)

pub record Mailbox : Type 0 where
  pub bytes : Bytes
  pub len : ℕ
  pub kind : ℕ

abbrev pub new_mailbox : Mailbox
new_mailbox = record { bytes = replicate max_payload 0; len = 0; kind = idle }

pub pending : Mailbox → Bool
pending m = not (m.kind == idle)

-- What follows the header check of `stage`.
pub stage_checked : Mailbox → ℕ → Bytes → Result PacketError Bytes → Result PacketError Mailbox
unfolding pending
stage_checked m kind payload (err e) = err e
stage_checked m kind payload (ok h) =
    if not (kind == idle) && length payload == 0
    then err empty_packet
    else if pending m
    then err occupied
    else ok (record m { bytes = blit m.bytes 0 payload; kind = kind; len = length payload })

pub stage : Mailbox → ℕ → Bytes → Result PacketError Mailbox
unfolding stage_checked header
stage m kind payload = stage_checked m kind payload (header kind (length payload))

-- `Mailbox::header`; an `err` stands for the panic of its `unwrap`.
pub mailbox_header : Mailbox → Result PacketError Bytes
unfolding header
mailbox_header m = header m.kind m.len

pub payload : Mailbox → Bytes
payload m = take m.len m.bytes

pub complete_body : Mailbox → Bool → Mailbox
complete_body m complete = if complete then record m { kind = idle; len = 0 } else m
