-- ===== src/I2cSlot.antt =====
-- src/bridge/i2c_task.rs: the 32-byte slots of the first I2C protocol, the state that assembles
-- incoming packets and the state that cuts outgoing ones. Instants are counted in microseconds.
pub mod Codec
pub mod Assembly
pub mod Transfer
pub mod Transmit
use mathlib.Core.Option
use pico_fi.Text.{codes}
use pico_fi.Prelude.{
  ltb, leb, ◌==◌, if◌then◌else◌, length, take, replicate, Bytes, at, slice, blit, from_le16, le16,
  from_le32, le32, Result, ok, err, ℕ, ◌+◌, ◌-◌, ◌/◌, ◌%◌, min, Bool, true, false, not, ◌&&◌, ◌||◌,
  Option, none, some, [], ◌∷◌,
}

abbrev pub slot_size : ℕ
slot_size = 32

abbrev pub slot_header_size : ℕ
slot_header_size = 18

abbrev pub slot_payload_size : ℕ
slot_payload_size = 14

abbrev pub slot_magic0 : ℕ
slot_magic0 = 0x49

abbrev pub slot_magic1 : ℕ
slot_magic1 = 0x32

abbrev pub slot_version : ℕ
slot_version = 1

abbrev pub kind_idle : ℕ
kind_idle = 0

abbrev pub kind_data : ℕ
kind_data = 1

abbrev pub kind_command : ℕ
kind_command = 2

abbrev pub kind_error : ℕ
kind_error = 0x7F

abbrev pub partial_packet_timeout : ℕ
partial_packet_timeout = 50000

abbrev pub i2c_packet_max : ℕ
i2c_packet_max = 4096

abbrev pub invalid_slot_msg : Bytes
invalid_slot_msg = codes "error invalid i2c slot"

abbrev pub invalid_kind_msg : Bytes
invalid_kind_msg = codes "error invalid i2c kind"

abbrev pub oversize_msg : Bytes
oversize_msg = codes "error i2c payload too large"

pub record Slot : Type 0 where
  pub kind : ℕ
  pub flags : ℕ
  pub transfer_id : ℕ
  pub offset : ℕ
  pub total_len : ℕ
  pub data_len : ℕ
  pub chunk : Bytes

-- `flags & FLAG_START != 0` and `flags & FLAG_END != 0`
abbrev pub has_start : ℕ → Bool
has_start flags = flags % 2 == 1

abbrev pub has_end : ℕ → Bool
has_end flags = flags / 2 % 2 == 1

pub record RxPacketState : Type 0 where
  pub active : Bool
  pub kind : ℕ
  pub transfer_id : ℕ
  pub total_len : ℕ
  pub next_offset : ℕ
  pub payload : Bytes
  pub started_at : Option ℕ

abbrev pub new_rx : RxPacketState
new_rx = record {
  active = false;
  kind = kind_idle;
  transfer_id = 0;
  total_len = 0;
  next_offset = 0;
  payload = replicate i2c_packet_max 0;
  started_at = none;
}

-- `RxPacketState::reset`
abbrev pub reset_rx : RxPacketState → RxPacketState
reset_rx r = new_rx

-- `Instant::now().duration_since(started) >= PARTIAL_PACKET_TIMEOUT`, if there is a start
abbrev pub is_stale : ℕ → Option ℕ → Bool
is_stale now none = false
is_stale now (some started) = leb partial_packet_timeout (now - started)

unfoldable pub reset_if_stale : ℕ → RxPacketState → RxPacketState
reset_if_stale now r =
    if not r.active then r else if is_stale now r.started_at then reset_rx r else r

-- The first slot of a packet; `false` is `Err(INVALID_SLOT_MSG)`.
unfoldable pub begin_packet : ℕ → RxPacketState → Slot → RxPacketState × Bool
begin_packet now r slot =
    if not (slot.offset == 0) || ltb slot.total_len slot.data_len then (reset_rx r, false) else (
      record {
        active = true;
        kind = slot.kind;
        transfer_id = slot.transfer_id;
        total_len = slot.total_len;
        next_offset = slot.data_len;
        payload = blit (reset_rx r).payload 0 (take slot.data_len slot.chunk);
        started_at = some now;
      },
      true,
    )

-- A later slot.
unfoldable pub continue_packet : ℕ → RxPacketState → Slot → RxPacketState × Bool
continue_packet now r slot =
    if not r.active
    then (r, false)
    else if not (slot.kind == r.kind)
        || not (slot.transfer_id == r.transfer_id)
        || not (slot.offset == r.next_offset)
        || ltb r.total_len (r.next_offset + slot.data_len)
    then (reset_rx r, false)
    else (
      record r {
        payload = blit r.payload r.next_offset (take slot.data_len slot.chunk);
        next_offset = r.next_offset + slot.data_len;
        started_at = some now;
      },
      true,
    )

-- The check of the last slot: kind, transfer and length of a packet that is complete.
unfoldable pub finish_packet :
    Slot → RxPacketState × Bool → RxPacketState × Result Bytes (Option (ℕ × ℕ × ℕ))
finish_packet slot (r, false) = (r, err invalid_slot_msg)
finish_packet slot (r, true) =
    if not (has_end slot.flags)
    then (r, ok none)
    else if not r.active || not (r.next_offset == r.total_len)
    then (reset_rx r, err invalid_slot_msg)
    else (record new_rx { payload = r.payload }, ok (some (r.kind, r.transfer_id, r.total_len)))

unfoldable pub push_slot :
    ℕ → RxPacketState → Slot → RxPacketState × Result Bytes (Option (ℕ × ℕ × ℕ))
unfolding reset_if_stale begin_packet continue_packet finish_packet
push_slot now r slot =
    let r0 = reset_if_stale now r in
    if ltb i2c_packet_max slot.total_len
    then (reset_rx r0, err oversize_msg)
    else finish_packet slot
        (if has_start slot.flags then begin_packet now r0 slot else continue_packet now r0 slot)

pub record TxPacketState : Type 0 where
  pub active : Bool
  pub kind : ℕ
  pub transfer_id : ℕ
  pub payload_len : ℕ
  pub next_offset : ℕ
  pub payload : Bytes

abbrev pub new_tx : TxPacketState
new_tx = record {
  active = false;
  kind = kind_idle;
  transfer_id = 1;
  payload_len = 0;
  next_offset = 0;
  payload = replicate i2c_packet_max 0;
}

abbrev pub reset_tx : TxPacketState → TxPacketState
reset_tx t = record new_tx { transfer_id = t.transfer_id }

-- `TxPacketState::stage`
unfoldable pub stage_packet : ℕ → ℕ → Bytes → TxPacketState
stage_packet kind transfer_id payload =
    let len = min (length payload) i2c_packet_max in
    record {
      active = true;
      kind = kind;
      transfer_id = transfer_id;
      payload_len = len;
      next_offset = 0;
      payload = blit (replicate i2c_packet_max 0) 0 (take len payload);
    }

abbrev pub stage_error : ℕ → Bytes → TxPacketState
stage_error transfer_id payload = stage_packet kind_error transfer_id payload

abbrev pub stage_idle : ℕ → TxPacketState → TxPacketState
stage_idle transfer_id t = reset_tx (record t { transfer_id = transfer_id })

abbrev pub has_pending : TxPacketState → Bool
has_pending t = t.active

unfoldable pub encode_slot : ℕ → ℕ → ℕ → ℕ → ℕ → ℕ → Bytes → Bytes
encode_slot kind flags transfer_id offset total_len data_len chunk =
    let head = slot_magic0 ∷ slot_magic1 ∷ slot_version ∷ kind ∷ flags ∷ [] in
    blit
      (blit
        (blit
          (blit (blit (blit (replicate slot_size 0) 0 head) 6 (le32 offset)) 10 (le32 total_len)) 14
          (le16 data_len))
        16 (le16 transfer_id))
      slot_header_size (take data_len chunk)

-- The flags of the slot from `offset` to `stop` of a payload of `len` bytes.
abbrev pub slot_flags : ℕ → ℕ → ℕ → ℕ
slot_flags offset stop len = (if offset == 0 then 1 else 0) + (if leb len stop then 2 else 0)

unfoldable pub next_slot_bytes : TxPacketState → TxPacketState × Bytes
unfolding encode_slot
next_slot_bytes t =
    let data_len = min (t.payload_len - t.next_offset) slot_payload_size in
    let stop = t.next_offset + data_len in
    let chunk = blit (replicate slot_payload_size 0) 0 (slice t.payload t.next_offset data_len) in
    if not t.active then (t, replicate slot_size 0) else (
      if leb t.payload_len stop then reset_tx t else record t { next_offset = stop },
      encode_slot t.kind (slot_flags t.next_offset stop t.payload_len) t.transfer_id t.next_offset
          t.payload_len data_len chunk,
    )

abbrev pub all_are : ℕ → Bytes → Bool
all_are x [] = true
all_are x (b ∷ bs) = (b == x) && all_are x bs

-- `data[..data_len].copy_from_slice(&raw[SLOT_HEADER_SIZE..SLOT_HEADER_SIZE + data_len])` on a
-- zeroed `data`, unless `data_len` is 0; `none` is the panic of a range that is too long.
abbrev pub copy_chunk : Bytes → ℕ → Option Bytes
copy_chunk raw data_len =
    if data_len == 0
      || (leb data_len slot_payload_size && leb (slot_header_size + data_len) (length raw))
    then some (blit (replicate slot_payload_size 0) 0 (slice raw slot_header_size data_len))
    else none

abbrev pub slot_with : Bytes → Bytes → Slot
slot_with raw chunk = record {
  kind = at raw 3;
  flags = at raw 4;
  transfer_id = from_le16 (at raw 16) (at raw 17);
  offset = from_le32 (at raw 6) (at raw 7) (at raw 8) (at raw 9);
  total_len = from_le32 (at raw 10) (at raw 11) (at raw 12) (at raw 13);
  data_len = from_le16 (at raw 14) (at raw 15);
  chunk = chunk;
}

unfoldable pub decode_slot : Bytes → Option (Result Bytes (Option Slot))
decode_slot raw =
    if not (length raw == slot_size)
    then some (err invalid_slot_msg)
    else if all_are 0 raw || all_are 0xFF raw
    then some (ok none)
    else if not (at raw 0 == slot_magic0)
        || not (at raw 1 == slot_magic1)
        || not (at raw 2 == slot_version)
    then some (err invalid_slot_msg)
    else if at raw 3 == kind_idle
    then some (ok none)
    else (let data_len = from_le16 (at raw 14) (at raw 15) in
        if ltb slot_payload_size data_len
        then some (err invalid_slot_msg)
        else Option.map (λ chunk. ok (some (slot_with raw chunk))) (copy_chunk raw data_len))
