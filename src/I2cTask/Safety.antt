-- ===== src/I2cTask/Safety.antt =====
-- The invariant of the bus task.
use pico_fi.I2cPacket.Mailboxes.{IsValid}
use pico_fi.I2cTask.Queue.{Shows, IsPacket, push_data-Shows, pushed}
use pico_fi.I2cTask.{
  BusTask, I2cPacket, push_data, make_packet, push_or_error, packet_with, extend_from_slice,
  stage_built, stage_framed, stage_bridge_packet,
}
use pico_fi.I2cSlot.{
  RxPacketState, Slot, begin_packet, continue_packet, finish_packet, reset_if_stale, new_rx,
  push_slot, is_stale, has_end, has_start, stage_error, stage_packet, new_tx, reset_tx,
  next_slot_bytes, TxPacketState, oversize_msg, invalid_slot_msg,
}
use pico_fi.OverwriteQueue
use pico_fi.Frame.{build_frame_into}
use pico_fi.I2cTask.{new_task}
use pico_fi.I2cPacket.Mailboxes.{new_mailbox-IsValid}
use pico_fi.Commands.{LedCells}
use pico_fi.Prelude.{
  ltb, leb, ◌==◌, Bool-cases, if_both, length, take, replicate, length-replicate, Bytes,
  length-blit, Result, ℕ, ◌+◌, ◌-◌, min, ◌≤◌, ◌≡◌, refl, ◌∙◌, ◌⊎◌, inl, inr, Bool, true, false, not,
  ◌||◌, Option, none, some, List, [], arith,
}

-- What is received lies within the announced length, and that within the buffer.
pub record IsRx (r : RxPacketState) : Type 0 where
  pub buffer : length r.payload ≡ 4096
  pub inside : r.next_offset ≤ r.total_len
  pub bounded : r.total_len ≤ 4096

-- What is staged lies within the buffer, and what was sent of it within that.
pub record IsTx (t : TxPacketState) : Type 0 where
  pub buffer_out : length t.payload ≡ 4096
  pub staged : t.payload_len ≤ 4096
  pub sent : t.next_offset ≤ t.payload_len

pub record IsTask (s : BusTask) : Type 0 where
  pub rx_is : IsRx s.rx_packet
  pub tx_is : IsTx s.tx_packet
  pub mailbox_is : IsValid s.mailbox
  pub tx_holds : (ps : List I2cPacket) × Shows s.tx ps
  pub rx_resp_holds : (ps : List I2cPacket) × Shows s.rx_resp ps

-- A handler that does not panic, and keeps this.
abbrev pub Safe : Option BusTask → Type 0
Safe r = (s : BusTask) × (r ≡ some s) × IsTask s

pub new_rx-IsRx : IsRx new_rx
new_rx-IsRx = record {
  buffer = length-replicate {A = ℕ} 4096 0;
  inside = omega arith;
  bounded = omega arith;
}

pub stage_packet-IsTx : (kind tid : ℕ) (payload : Bytes) → IsTx (stage_packet kind tid payload)
unfolding stage_packet
stage_packet-IsTx kind tid payload = record {
  buffer_out =
      length-blit (replicate 4096 0) 0 (take (min (length payload) 4096) payload)
      ∙ length-replicate {A = ℕ} 4096 0;
  staged = omega arith;
  sent = omega arith;
}

stage_built-IsTx : (kind tid : ℕ) (o : Option (ℕ × Bytes)) → IsTx (stage_built kind tid o)
stage_built-IsTx kind tid none = stage_packet-IsTx 0x7F tid oversize_msg
stage_built-IsTx kind tid (some (len, framed)) = stage_packet-IsTx kind tid (take len framed)

pub stage_framed-IsTx :
    (kind tid magic : ℕ) (payload : Bytes) → IsTx (stage_framed kind tid magic payload)
stage_framed-IsTx kind tid magic payload =
    stage_built-IsTx kind tid (build_frame_into magic payload (replicate 4096 0))

pub stage_bridge_packet-IsTx : (tid : ℕ) (p : I2cPacket) → IsTx (stage_bridge_packet tid p)
unfolding stage_bridge_packet
stage_bridge_packet-IsTx tid p =
    if_both IsTx (p.kind == 1) (λ _. stage_framed-IsTx p.kind tid 0x5A p.payload)
      (λ _.
        if_both IsTx (p.kind == 2 || p.kind == 0x7F)
          (λ _. stage_framed-IsTx p.kind tid 0x5B p.payload)
          (λ _. stage_packet-IsTx 0x7F tid invalid_slot_msg))

-- A state that holds nothing.
pub reset_tx-IsTx : (t : TxPacketState) → IsTx (reset_tx t)
reset_tx-IsTx t = record {
  buffer_out = length-replicate {A = ℕ} 4096 0;
  staged = omega arith;
  sent = omega arith;
}

-- Sending a slot.
pub next_slot_bytes-IsTx : (t : TxPacketState) → IsTx t → IsTx (next_slot_bytes t).0
unfolding next_slot_bytes
next_slot_bytes-IsTx t v =
    let data_len = min (t.payload_len - t.next_offset) 14 in
    let stop = t.next_offset + data_len in
    if_both (λ (r : TxPacketState × Bytes). IsTx r.0) (not t.active) (λ _. v)
      (λ _.
        if_both IsTx (leb t.payload_len stop) (λ _. reset_tx-IsTx t)
          (λ _. record {
            buffer_out = v.buffer_out;
            staged = v.staged;
            sent = omega (arith, v.sent);
          }))

reset_if_stale-IsRx : (now : ℕ) (r : RxPacketState) → IsRx r → IsRx (reset_if_stale now r)
unfolding reset_if_stale
reset_if_stale-IsRx now r v =
    if_both IsRx (not r.active) (λ _. v)
      (λ _. if_both IsRx (is_stale now r.started_at) (λ _. new_rx-IsRx) (λ _. v))

abbrev StepIsRx : RxPacketState × Bool → Type 0
StepIsRx p = IsRx p.0

abbrev PushIsRx : RxPacketState × Result Bytes (Option (ℕ × ℕ × ℕ)) → Type 0
PushIsRx p = IsRx p.0

begin_packet-IsRx :
    (now : ℕ) (r : RxPacketState) (slot : Slot)
    → slot.total_len ≤ 4096
    → IsRx r
    → IsRx (begin_packet now r slot).0
unfolding begin_packet
begin_packet-IsRx now r slot fits v =
    let size = length-blit (replicate 4096 0) 0 (take slot.data_len slot.chunk) in
    if_both StepIsRx (not (slot.offset == 0) || ltb slot.total_len slot.data_len) (λ _. new_rx-IsRx)
      (λ e. record {
        buffer = size ∙ length-replicate {A = ℕ} 4096 0;
        inside = ground arith;
        bounded = fits;
      })

continue_packet-IsRx :
    (now : ℕ) (r : RxPacketState) (slot : Slot) → IsRx r → IsRx (continue_packet now r slot).0
unfolding continue_packet
continue_packet-IsRx now r slot v =
    let size = length-blit r.payload r.next_offset (take slot.data_len slot.chunk) in
    if_both StepIsRx (not r.active) (λ _. v)
      (λ _.
        if_both StepIsRx
          (not (slot.kind == r.kind)
            || not (slot.transfer_id == r.transfer_id)
            || not (slot.offset == r.next_offset)
            || ltb r.total_len (r.next_offset + slot.data_len))
          (λ _. new_rx-IsRx)
          (λ e. record { buffer = size ∙ v.buffer; inside = ground arith; bounded = v.bounded }))

finish_packet-IsRx :
    (slot : Slot) (r : RxPacketState × Bool) → IsRx r.0 → IsRx (finish_packet slot r).0
unfolding finish_packet
finish_packet-IsRx slot (r, true) v =
    if_both PushIsRx (not (has_end slot.flags)) (λ _. v)
      (λ _.
        if_both PushIsRx (not r.active || not (r.next_offset == r.total_len)) (λ _. new_rx-IsRx)
          (λ _. record { buffer = v.buffer; inside = omega arith; bounded = omega arith }))
finish_packet-IsRx slot (r, false) v = v

pub push_slot-IsRx :
    (now : ℕ) (r : RxPacketState) (slot : Slot) → IsRx r → IsRx (push_slot now r slot).0
unfolding push_slot
push_slot-IsRx now r slot v =
    let fresh = reset_if_stale-IsRx now r v in
    if_both PushIsRx (ltb 4096 slot.total_len) (λ _. new_rx-IsRx)
      (λ e. finish_packet-IsRx slot _ (
        if_both StepIsRx (has_start slot.flags)
          (λ _. begin_packet-IsRx now (reset_if_stale now r) slot (ground arith) fresh)
          (λ _. continue_packet-IsRx now (reset_if_stale now r) slot fresh)))

pub push_data-Safe : (s : BusTask) (p : I2cPacket) → IsTask s → IsPacket p → Safe (push_data s p)
push_data-Safe s p v fits =
    let (ps, h) = v.tx_holds in
    let (q, e, h') = push_data-Shows s ps p h fits in
    (
      record s { tx = q },
      e,
      record {
        rx_is = v.rx_is;
        tx_is = v.tx_is;
        mailbox_is = v.mailbox_is;
        tx_holds = (pushed ps p, h');
        rx_resp_holds = v.rx_resp_holds;
      },
    )

-- What `make_packet` makes is within the capacity.
abbrev pub MadeIsPacket : Option I2cPacket → Type 0
MadeIsPacket none = Unit
MadeIsPacket (some p) = IsPacket p

pub make_packet-IsPacket : (kind : ℕ) (payload : Bytes) → MadeIsPacket (make_packet kind payload)
unfolding make_packet
make_packet-IsPacket kind payload = made (Bool-cases (leb (0 + length payload) 4096))
  where
    made :
        (leb (0 + length payload) 4096 ≡ true) ⊎ (leb (0 + length payload) 4096 ≡ false)
        → MadeIsPacket (packet_with kind (extend_from_slice [] payload))
    made (inl e) = rw e (ground arith)
    made (inr e) = rw e tt

-- Whatever is staged for the master.
pub staged-Safe :
    (s : BusTask) (tx : TxPacketState)
    → IsTx tx
    → IsTask s
    → Safe (some (record s { tx_packet = tx }))
staged-Safe s tx t v = (
  _,
  refl,
  record {
    rx_is = v.rx_is;
    tx_is = t;
    mailbox_is = v.mailbox_is;
    tx_holds = v.tx_holds;
    rx_resp_holds = v.rx_resp_holds;
  },
)

pub push_or_error-Safe :
    (s : BusTask) (tid : ℕ) (m : Option I2cPacket)
    → IsTask s
    → MadeIsPacket m
    → Safe (push_or_error s tid m)
push_or_error-Safe s tid none v made =
    staged-Safe s (stage_error tid oversize_msg) (stage_packet-IsTx 0x7F tid oversize_msg) v
push_or_error-Safe s tid (some p) v made = push_data-Safe s p v made

pub new_task-IsTask :
    (cells : LedCells) (tx rx_resp : OverwriteQueue.Mailbox) (ps qs : List I2cPacket)
    → Shows tx ps
    → Shows rx_resp qs
    → IsTask (new_task cells tx rx_resp)
new_task-IsTask cells tx rx_resp ps qs h k = record {
  rx_is = new_rx-IsRx;
  tx_is = reset_tx-IsTx new_tx;
  mailbox_is = new_mailbox-IsValid;
  tx_holds = (ps, h);
  rx_resp_holds = (qs, k);
}
