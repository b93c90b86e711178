-- ===== src/I2cTask/Answers.antt =====
-- What the bus task answers to reads, and its invariant.
use pico_fi.OverwriteQueue.{try_pop}
use pico_fi.I2cSlot.{has_pending}
use pico_fi.I2cTask.Queue.{Shows, IsPacket, packet_item-IsFaithful}
use pico_fi.OverwriteQueue.Trace
use pico_fi.OverwriteQueue
use pico_fi.I2cPacket.{Mailbox, PacketError, stage}
use pico_fi.I2cPacket.Mailboxes.{IsValid, stage-IsValid, mailbox_header-some, complete_body-IsValid}
use pico_fi.I2cTask.Safety.{
  IsTask, new_rx-IsRx, reset_tx-IsTx, stage_bridge_packet-IsTx, stage_packet-IsTx,
  next_slot_bytes-IsTx,
}
use pico_fi.I2cSlot.{invalid_slot_msg}
use pico_fi.I2cTask.{BusTask, I2cPacket, packet_item}
use pico_fi.I2cTask.Poll.{
  ReadEnd, Response, respond_body, respond_v2, stage_or_keep, need_more_bytes, read_v2,
  stage_response_packet, refill_mailbox, after_respond, respond_header, stage_popped, refill_with,
  respond_slot, read_slots, recover_i2c_state, is_complete,
}
use pico_fi.I2cTask.Poll.{complete, need_more_bytes, leftover_bytes, bus_error}
use pico_fi.OverwriteQueue.Trace
use pico_fi.OverwriteQueue.Fifo.{taken}
use pico_fi.I2cPacket.{pending}
use pico_fi.I2cPacket.{payload}
use pico_fi.Prelude.{
  ◌==◌, if_both, length, Bytes, Result, ok, err, ℕ, ◌≡◌, refl, ap, not, ◌&&◌, Option, none, some,
  List,
}

-- A round that does not panic, and what it offered to the master.
abbrev pub SafeRound : Option (BusTask × List Bytes) → Type 0
SafeRound r = (s : BusTask) × (offered : List Bytes) × (r ≡ some (s, offered)) × IsTask s

pub stage_or_keep-IsValid :
    (m : Mailbox) (kind : ℕ) (body : Bytes)
    → IsValid m
    → IsValid (stage_or_keep m (stage m kind body))
stage_or_keep-IsValid m kind body v = kept (stage m kind body) refl
  where
    kept : (r : Result PacketError Mailbox) → stage m kind body ≡ r → IsValid (stage_or_keep m r)
    kept (ok m') e = stage-IsValid m kind body v e
    kept (err x) e = v

respond_body-IsValid :
    (first second : ReadEnd) (header : Bytes) (m : Mailbox)
    → IsValid m
    → IsValid (respond_body first second header m).mailbox
respond_body-IsValid need_more_bytes second header m v =
    if_both (λ (r : Response). IsValid r.mailbox) (pending m && not (length (payload m) == 0))
      (λ _. complete_body-IsValid m (is_complete second) v) (λ _. v)
respond_body-IsValid complete second header m v = v
respond_body-IsValid leftover_bytes second header m v = v
respond_body-IsValid bus_error second header m v = v

-- `respond_v2` does not panic, since the header of a valid mailbox is made.
respond_v2-IsValid :
    (first second : ReadEnd) (m : Mailbox)
    → IsValid m
    → (r : Response) × (respond_v2 first second m ≡ some r) × IsValid r.mailbox
unfolding respond_v2
respond_v2-IsValid first second m v =
    let (h, made) = mailbox_header-some m v in
    (
      respond_body first second h m,
      ap (respond_header first second m) made,
      respond_body-IsValid first second h m v,
    )

stage_popped-IsTask :
    (s : BusTask) (r : Option I2cPacket × OverwriteQueue.Mailbox)
    → IsTask s
    → (ps : List I2cPacket) → Shows r.1 ps
    → IsTask (stage_popped s r)
stage_popped-IsTask s (none, q) v ps h = record {
  rx_is = v.rx_is;
  tx_is = reset_tx-IsTx (record s.tx_packet { transfer_id = s.last_transfer_id });
  mailbox_is = v.mailbox_is;
  tx_holds = v.tx_holds;
  rx_resp_holds = (ps, h);
}
stage_popped-IsTask s (some p, q) v ps h = record {
  rx_is = v.rx_is;
  tx_is = stage_bridge_packet-IsTx s.last_transfer_id p;
  mailbox_is = v.mailbox_is;
  tx_holds = v.tx_holds;
  rx_resp_holds = (ps, h);
}

refill_with-IsTask :
    (s : BusTask) (r : Option I2cPacket × OverwriteQueue.Mailbox)
    → IsTask s
    → (ps : List I2cPacket) → Shows r.1 ps
    → IsTask (refill_with s r)
refill_with-IsTask s (none, q) v ps h = record {
  rx_is = v.rx_is;
  tx_is = v.tx_is;
  mailbox_is = v.mailbox_is;
  tx_holds = v.tx_holds;
  rx_resp_holds = (ps, h);
}
refill_with-IsTask s (some p, q) v ps h = record {
  rx_is = v.rx_is;
  tx_is = v.tx_is;
  mailbox_is = stage_or_keep-IsValid s.mailbox p.kind p.payload v.mailbox_is;
  tx_holds = v.tx_holds;
  rx_resp_holds = (ps, h);
}

-- The mailbox that a pop leaves.
pub popped-Shows :
    (q : OverwriteQueue.Mailbox) (ps : List I2cPacket)
    → Shows q ps
    → Shows (try_pop 128 8192 packet_item q).1 (taken 128 8192 packet_item ps).0
popped-Shows q ps h =
    Trace.try_pop-Shows 128 8192 packet_item IsPacket packet_item-IsFaithful q ps h

refill_mailbox-IsTask : (s : BusTask) → IsTask s → IsTask (refill_mailbox s)
unfolding refill_mailbox
refill_mailbox-IsTask s v =
    let (ps, h) = v.rx_resp_holds in
    if_both IsTask (pending s.mailbox) (λ _. v)
      (λ _.
        refill_with-IsTask s (try_pop 128 8192 packet_item s.rx_resp) v _
          (popped-Shows s.rx_resp ps h))

stage_response_packet-IsTask : (s : BusTask) → IsTask s → IsTask (stage_response_packet s)
unfolding stage_response_packet
stage_response_packet-IsTask s v =
    let (ps, h) = v.rx_resp_holds in
    if_both IsTask (has_pending s.tx_packet) (λ _. v)
      (λ _.
        stage_popped-IsTask s (try_pop 128 8192 packet_item s.rx_resp) v _
          (popped-Shows s.rx_resp ps h))

pub read_v2-Safe :
    (first second : ReadEnd) (s : BusTask) → IsTask s → SafeRound (read_v2 first second s)
unfolding read_v2
read_v2-Safe first second s v =
    let filled = refill_mailbox-IsTask s v in
    let (r, e, kept) =
      respond_v2-IsValid first second (refill_mailbox s).mailbox filled.mailbox_is in
    (
      _,
      _,
      ap (after_respond (refill_mailbox s)) e,
      record {
        rx_is = filled.rx_is;
        tx_is = filled.tx_is;
        mailbox_is = kept;
        tx_holds = filled.tx_holds;
        rx_resp_holds = filled.rx_resp_holds;
      },
    )

respond_slot-IsTask : (s : BusTask) → IsTask s → IsTask (respond_slot s).0
unfolding respond_slot
respond_slot-IsTask s v = record {
  rx_is = v.rx_is;
  tx_is = next_slot_bytes-IsTx s.tx_packet v.tx_is;
  mailbox_is = v.mailbox_is;
  tx_holds = v.tx_holds;
  rx_resp_holds = v.rx_resp_holds;
}

pub read_slots-IsTask : (s : BusTask) → IsTask s → IsTask (read_slots s).0
read_slots-IsTask s v =
    respond_slot-IsTask (stage_response_packet s) (stage_response_packet-IsTask s v)

pub recover_i2c_state-IsTask : (s : BusTask) → IsTask s → IsTask (recover_i2c_state s)
unfolding recover_i2c_state
recover_i2c_state-IsTask s v = record {
  rx_is = new_rx-IsRx;
  tx_is = stage_packet-IsTx 0x7F s.last_transfer_id invalid_slot_msg;
  mailbox_is = v.mailbox_is;
  tx_holds = v.tx_holds;
  rx_resp_holds = v.rx_resp_holds;
}
