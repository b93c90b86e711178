-- ===== src/I2cTask/Queue.antt =====
-- The queues of I2C packets: the items of the ring, and what a mailbox of them holds.
use pico_fi.OverwriteQueue.Trace.{push_overwrite-Shows}
use pico_fi.OverwriteQueue.{Mailbox}
use pico_fi.OverwriteQueue.Fifo.{evict}
use pico_fi.SpiFrame.Queue.{split_whole}
use pico_fi.OverwriteQueue.Invariant.{IsFaithful}
use pico_fi.I2cTask.{
  I2cPacket, from_queued_slices, queued_len, copy_queued_slice, packet_with, extend_from_slice,
  packet_item, make_packet, BusTask, push_data,
}
use pico_fi.OverwriteQueue.Trace
use pico_fi.OverwriteQueue.{Mailbox}
use mathlib.Core.Option
use pico_fi.OverwriteQueue.{new_state}
use pico_fi.SpiFrame.Queue.{length-zeros}
use pico_fi.Prelude.{
  leb, if_true, length, length-append, take, drop, take_whole, length-take, length-drop, Bytes, ℕ,
  zero, suc, ◌+◌, ◌-◌, ◌≤◌, ◌≡◌, refl, sym, ap, ◌∙◌, true, some, List, [], ◌∷◌, ◌++◌, arith,
}

-- The vector is within its capacity.
abbrev pub IsPacket : I2cPacket → Type 0
IsPacket p = length p.payload ≤ 4096

length-copy_queued_slice :
    (p : I2cPacket) (start n : ℕ)
    → start + n ≤ queued_len p
    → length (copy_queued_slice p start n) ≡ n
length-copy_queued_slice p zero zero h = refl
length-copy_queued_slice p zero (suc n) h = omega (arith, length-take n p.payload)
length-copy_queued_slice p (suc start) n h =
    omega (arith, length-take n (drop start p.payload), length-drop start p.payload)

copy_whole : (p : I2cPacket) → copy_queued_slice p 0 (queued_len p) ≡ p.kind ∷ p.payload
copy_whole p =
    let one_more : queued_len p ≡ suc (length p.payload) = omega arith in
    ap (copy_queued_slice p 0) one_more
    ∙ ap (p.kind ∷◌) (take_whole p.payload (length p.payload) (omega arith))

copy_queued_slice-split :
    (p : I2cPacket) (n : ℕ)
    → n ≤ queued_len p
    → copy_queued_slice p 0 n ++ copy_queued_slice p n (queued_len p - n)
      ≡ copy_queued_slice p 0 (queued_len p)
copy_queued_slice-split p zero h = ap (copy_queued_slice p 0) (omega arith)
copy_queued_slice-split p (suc n) h =
    let left : queued_len p - suc n ≡ length p.payload - n = omega arith in
    ap (p.kind ∷◌) (
      ap (λ m. take n p.payload ++ take m (drop n p.payload)) left
      ∙ split_whole p.payload n
      ∙ take_whole p.payload (length p.payload) (omega arith))
    ∙ sym (copy_whole p)

extend_from_slice-some :
    (vec src : Bytes) → length (vec ++ src) ≤ 4096 → extend_from_slice vec src ≡ some (vec ++ src)
extend_from_slice-some vec src h =
    let room : leb (length vec + length src) 4096 ≡ true = ground (arith, length-append vec src) in
    if_true _ room

from_slices :
    (kind : ℕ) (first second payload : Bytes)
    → length payload ≤ 4096
    → first ++ second ≡ kind ∷ payload
    → from_queued_slices first second ≡ some (record { kind = kind; payload = payload })
unfolding from_queued_slices
from_slices kind [] [] payload h e = cc
from_slices kind [] (k ∷ second) payload h e =
    let kind_is : k ≡ kind = cc in
    let rest : second ≡ payload = cc in
    let fits : length second ≤ 4096 = omega (arith, ap (λ (xs : Bytes). length xs) rest) in
    ap (packet_with k) (extend_from_slice-some [] second fits)
    ∙ (λ i. some (record { kind = kind_is i; payload = rest i }))
from_slices kind (k ∷ first) second payload h e =
    let kind_is : k ≡ kind = cc in
    let rest : first ++ second ≡ payload = cc in
    let fits : length (first ++ second) ≤ 4096 =
      omega (arith, ap (λ (xs : Bytes). length xs) rest) in
    rw
      (
        from_queued_slices,
        extend_from_slice-some [] first (omega (arith, length-append first second)),
      )
      (ap (packet_with k) (extend_from_slice-some first second fits)
        ∙ (λ i. some (record { kind = kind_is i; payload = rest i })))

-- I2C packets are stored and read back whole.
pub packet_item-IsFaithful : IsFaithful packet_item IsPacket
packet_item-IsFaithful = record {
  length-copy = λ p start n v h. length-copy_queued_slice p start n h;
  copy-split = λ p n v h. copy_queued_slice-split p n h;
  read_back = λ p first second v e. from_slices p.kind first second p.payload v (e ∙ copy_whole p);
}

-- A mailbox of the bridge that holds these packets.
abbrev pub Shows : Mailbox → List I2cPacket → Type 0
Shows q ps = Trace.Shows 128 8192 packet_item IsPacket packet_item-IsFaithful q ps

-- The packets after a new one: the oldest make room for it.
abbrev pub pushed : List I2cPacket → I2cPacket → List I2cPacket
pushed ps p = evict 128 8192 packet_item (queued_len p) ps ++ (p ∷ [])

pub push_data-Shows :
    (s : BusTask) (ps : List I2cPacket) (p : I2cPacket)
    → Shows s.tx ps
    → IsPacket p
    → (q : Mailbox) × (push_data s p ≡ some (record s { tx = q })) × Shows q (pushed ps p)
push_data-Shows s ps p h v =
    let (q, e, h') =
      push_overwrite-Shows 128 8192 packet_item IsPacket packet_item-IsFaithful s.tx ps p h v
        (ground arith) in
    (q, ap (Option.map (λ r. record s { tx = r.1 })) e, h')

pub make_packet-some :
    (kind : ℕ) (payload : Bytes)
    → length payload ≤ 4096
    → make_packet kind payload ≡ some (record { kind = kind; payload = payload })
unfolding make_packet
make_packet-some kind payload h = ap (packet_with kind) (extend_from_slice-some [] payload h)

-- `OverwriteQueue::new()`
abbrev pub new_queue : Mailbox
new_queue = record {
  state = new_state 128 8192;
  counters = record { mailbox_dropped = 0; rejected = 0; mailbox_high_water = 0 };
  ready = 0;
  space = 0;
}

pub new_queue-Shows : Shows new_queue []
unfolding new_state
new_queue-Shows = record {
  valid = record {
    size = length-zeros 8192;
    head_in = omega arith;
    counted = refl;
    bounded = omega arith;
    few = omega arith;
    positive = tt;
  };
  lengths_are = refl;
  packets_are = refl;
  items = tt;
}
