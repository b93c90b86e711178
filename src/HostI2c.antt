-- ===== src/HostI2c.antt =====
-- host/i2c_backend.rs: the host's end of the slot protocol. The slots that the bus reads give
-- are a list; `waiting` is a read that finds no further slot in it.
pub mod Receive
use pico_fi.I2cSlot.{
  slot_magic0, slot_magic1, slot_version, slot_size, slot_header_size, slot_payload_size, has_start,
  has_end, all_are, kind_idle, kind_data, kind_command,
}
use pico_fi.Frame.{
  frame_header_size, req_data_magic, req_command_magic, resp_data_magic, resp_command_magic,
}
use pico_fi.Prelude.{
  ltb, leb, ◌==◌, if◌then◌else◌, length, take, replicate, Bytes, at, slice, blit, from_le16, le16,
  from_le32, le32, Result, ok, err, ℕ, zero, suc, ◌+◌, ◌-◌, ◌%◌, ◌^◌, min, max, Bool, true, false,
  not, ◌&&◌, ◌||◌, Option, none, some, List, [], ◌∷◌, ◌++◌,
}

abbrev pub payload_max : ℕ
payload_max = 4092

pub data Frame : Type 0 where
  data_frame : Bytes → Frame
  command_frame : Bytes → Frame

-- `Error::InvalidFrame`
pub record InvalidFrame : Type 0 where
  pub magic : ℕ
  pub len : ℕ

abbrev pub invalid : ℕ → ℕ → InvalidFrame
invalid magic len = record { magic = magic; len = len }

unfoldable pub encode_slot : ℕ → ℕ → ℕ → ℕ → ℕ → Bytes → Bytes
encode_slot kind flags transfer_id offset total_len chunk =
    let head = slot_magic0 ∷ slot_magic1 ∷ slot_version ∷ kind ∷ flags ∷ [] in
    blit
      (blit
        (blit
          (blit (blit (blit (replicate slot_size 0) 0 head) 6 (le32 offset)) 10 (le32 total_len)) 14
          (le16 (length chunk)))
        16 (le16 transfer_id))
      slot_header_size chunk

-- The flags of the slot from `offset` to `stop` of a payload of `total_len` bytes.
abbrev pub slot_flags : ℕ → ℕ → ℕ → ℕ
slot_flags offset stop total_len =
    (if offset == 0 then 1 else 0) + (if leb total_len stop then 2 else 0)

-- The loop of `encode_slots` from `offset` on. Each round takes a byte at least or is the last:
-- one more round than the payload has bytes is enough.
abbrev pub encode_loop : ℕ → ℕ → ℕ → Bytes → ℕ → List Bytes
encode_loop zero kind transfer_id payload offset = []
encode_loop (suc fuel) kind transfer_id payload offset =
    let total_len = length payload in
    let stop = min (offset + slot_payload_size) total_len in
    let raw =
      encode_slot kind (slot_flags offset stop total_len) transfer_id offset total_len
        (slice payload offset (stop - offset)) in
    let rest = encode_loop fuel kind transfer_id payload stop in
    if leb total_len stop then raw ∷ [] else raw ∷ rest

unfoldable pub encode_slots : ℕ → ℕ → Bytes → List Bytes
unfolding encode_slot
encode_slots kind transfer_id payload =
    encode_loop (suc (length payload)) kind transfer_id payload 0

pub record DecodedSlot : Type 0 where
  pub kind : ℕ
  pub flags : ℕ
  pub transfer_id : ℕ
  pub offset : ℕ
  pub total_len : ℕ
  pub chunk : Bytes

unfoldable pub decode_slot : Bytes → Result InvalidFrame (Option DecodedSlot)
decode_slot raw =
    if all_are 0 raw || all_are 0xFF raw || at raw 3 == kind_idle
    then ok none
    else if not (at raw 0 == slot_magic0)
        || not (at raw 1 == slot_magic1)
        || not (at raw 2 == slot_version)
    then err (invalid (at raw 0) (length raw))
    else (let data_len = from_le16 (at raw 14) (at raw 15) in
        if ltb slot_payload_size data_len
        then err (invalid (at raw 3) data_len)
        else ok (
            some (record {
              kind = at raw 3;
              flags = at raw 4;
              transfer_id = from_le16 (at raw 16) (at raw 17);
              offset = from_le32 (at raw 6) (at raw 7) (at raw 8) (at raw 9);
              total_len = from_le32 (at raw 10) (at raw 11) (at raw 12) (at raw 13);
              chunk = slice raw slot_header_size data_len;
            })))

-- The payload as a frame of this magic.
abbrev pub frame_with : ℕ → ℕ → Bytes → Result InvalidFrame Frame
frame_with magic len payload =
    if magic == resp_data_magic
    then ok (data_frame payload)
    else if magic == resp_command_magic
    then ok (command_frame payload)
    else err (invalid magic len)

abbrev pub response_magic : ℕ → Bytes → ℕ
response_magic slot_kind raw =
    if at raw 0 == req_data_magic && at raw 1 == resp_data_magic
    then resp_data_magic
    else if at raw 0 == req_command_magic && at raw 1 == resp_command_magic
    then resp_command_magic
    else slot_kind

unfoldable pub parse_response : ℕ → Bytes → Result InvalidFrame Frame
parse_response slot_kind raw =
    let magic = response_magic slot_kind raw in
    let len = from_le16 (at raw 2) (at raw 3) in
    if ltb (length raw) frame_header_size
    then err (invalid slot_kind (length raw))
    else if ltb payload_max len
    then err (invalid magic len)
    else if ltb (length raw) (frame_header_size + len)
    then err (invalid magic len)
    else frame_with magic len (slice raw frame_header_size len)

-- The local variables of `read_frame`.
pub record Partial : Type 0 where
  pub active : Bool
  pub kind : ℕ
  pub transfer_id : ℕ
  pub total_len : ℕ
  pub next_offset : ℕ
  pub raw : Bytes

abbrev pub new_partial : Partial
new_partial = record {
  active = false;
  kind = kind_idle;
  transfer_id = 0;
  total_len = 0;
  next_offset = 0;
  raw = [];
}

pub data Reading : Type 0 where
  waiting : Partial → Reading
  done : Result InvalidFrame Frame → Reading

-- The start or the continuation of a frame.
unfoldable pub take_slot : Partial → DecodedSlot → Result InvalidFrame Partial
take_slot p slot =
    if has_start slot.flags
    then ok (record {
      active = true;
      kind = slot.kind;
      transfer_id = slot.transfer_id;
      total_len = slot.total_len;
      next_offset = length slot.chunk;
      raw = slot.chunk;
    })
    else if p.active
        && slot.kind == p.kind
        && slot.transfer_id == p.transfer_id
        && slot.offset == p.next_offset
    then ok
        (record p { next_offset = p.next_offset + length slot.chunk; raw = p.raw ++ slot.chunk })
    else err (invalid slot.kind slot.total_len)

-- The end of a round with a slot.
unfoldable pub after_slot : DecodedSlot → Result InvalidFrame Partial → Reading
unfolding parse_response
after_slot slot (err e) = done (err e)
after_slot slot (ok p) =
    if not (has_end slot.flags)
    then waiting p
    else if not (p.next_offset == p.total_len)
    then done (err (invalid p.kind p.total_len))
    else done (parse_response p.kind p.raw)

-- One round of `read_frame` on the 32 bytes that were read.
unfoldable pub read_slot : Partial → Result InvalidFrame (Option DecodedSlot) → Reading
unfolding take_slot after_slot
read_slot p (err e) = done (err e)
read_slot p (ok none) = waiting p
read_slot p (ok (some slot)) = after_slot slot (take_slot p slot)

-- `read_frame` goes on until it has a frame or an error.
abbrev pub read_loop : Reading → List Bytes → Reading
read_loop (done r) slots = done r
read_loop (waiting p) [] = waiting p
read_loop (waiting p) (raw ∷ slots) = read_loop (read_slot p (decode_slot raw)) slots

unfoldable pub read_frame : List Bytes → Reading
unfolding read_slot decode_slot
read_frame slots = read_loop (waiting new_partial) slots

-- The frame that `write_request` sends.
abbrev pub request_frame : ℕ → Bytes → Bytes
request_frame magic payload =
    let body = take (min (length payload) payload_max) payload in
    magic
      ∷ (if magic == req_command_magic then resp_command_magic else resp_data_magic)
      ∷ le16 (length body)
    ++ body

-- `write_request`: the next transfer id and the slots that are written, in order.
unfoldable pub write_request : ℕ → ℕ → Bytes → ℕ × List Bytes
unfolding encode_slots
write_request next_transfer_id magic payload = (
  max ((next_transfer_id + 1) % 2 ^ 16) 1,
  encode_slots (if magic == req_command_magic then kind_command else kind_data) next_transfer_id
      (request_frame magic payload),
)

-- The line of `send_command` with its line feed.
abbrev pub ends_with_line_feed : Bytes → Bool
ends_with_line_feed [] = false
ends_with_line_feed (b ∷ []) = b == 10
ends_with_line_feed (b ∷ c ∷ bs) = ends_with_line_feed (c ∷ bs)

abbrev pub command_line : Bytes → Bytes
command_line line = if ends_with_line_feed line then line else line ++ (10 ∷ [])
