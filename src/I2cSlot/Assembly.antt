-- ===== src/I2cSlot/Assembly.antt =====
-- `push_slot` on the slots of one packet, in their order.
use pico_fi.Stream.Payload.{blit_twice, take-take}
use pico_fi.I2cSlot.{
  RxPacketState, new_rx, has_start, has_end, slot_flags, begin_packet, continue_packet, push_slot,
  finish_packet, Slot, reset_if_stale,
}
use pico_fi.I2cSlot.Codec.{take-padded, slot_of}
use pico_fi.Prelude.{
  ltb, leb, ◌==◌, ==_false, ==_self, length, take, drop, replicate, take_whole, length-take,
  length-drop, Bytes, blit, ok, ℕ, ◌+◌, ◌-◌, ◌≤◌, ◌<◌, ◌≡◌, refl, ap, ◌∙◌, true, false, none, some,
  ◌++◌, arith,
}

-- The state after the first `offset` bytes of a packet, the last of which came at `t`.
abbrev pub receiving : ℕ → ℕ → Bytes → ℕ → ℕ → RxPacketState
receiving kind transfer_id p offset t = record {
  active = true;
  kind = kind;
  transfer_id = transfer_id;
  total_len = length p;
  next_offset = offset;
  payload = blit (replicate 4096 0) 0 (take offset p);
  started_at = some t;
}

-- The state after the whole packet.
abbrev pub received : Bytes → RxPacketState
received p = record new_rx { payload = blit (replicate 4096 0) 0 p }

pub slot_flags-has_start :
    (offset stop len : ℕ) → has_start (slot_flags offset stop len) ≡ (offset == 0)
slot_flags-has_start offset stop len = ground arith

pub slot_flags-has_end : (offset stop len : ℕ) → has_end (slot_flags offset stop len) ≡ leb len stop
slot_flags-has_end offset stop len = ground arith

begin-receiving :
    (now flags kind tid : ℕ) (r : RxPacketState) (p : Bytes) (stop : ℕ)
    → stop ≤ length p
    → stop ≤ 14
    → begin_packet now r (slot_of kind flags tid 0 (length p) (take stop p))
      ≡ (receiving kind tid p stop now, true)
unfolding begin_packet
begin-receiving now flags kind tid r p stop h small =
    let len : length (take stop p) ≡ stop = omega (arith, length-take stop p) in
    let fit : ltb (length p) (length (take stop p)) ≡ false = ground (arith, len) in
    (let body = take-padded (take stop p) (omega (arith, len)) in
      rw fit (λ i. (
        record {
          active = true;
          kind = kind;
          transfer_id = tid;
          total_len = length p;
          next_offset = len i;
          payload = blit (replicate 4096 0) 0 (body i);
          started_at = some now;
        },
        true,
      )))

blit_after_first :
    (buf xs ys : Bytes) (o : ℕ) → length xs ≡ o → blit (blit buf 0 xs) o ys ≡ blit buf 0 (xs ++ ys)
blit_after_first buf xs ys o e =
    ap (λ m. blit (blit buf 0 xs) m ys) (omega (arith, e)) ∙ blit_twice buf 0 xs ys

continue-receiving :
    (now flags kind tid t o n : ℕ) (p : Bytes)
    → o + n ≤ length p
    → n ≤ 14
    → continue_packet now
        (receiving kind tid p o t)
        (slot_of kind flags tid o (length p) (take n (drop o p)))
      ≡ (receiving kind tid p (o + n) now, true)
unfolding continue_packet
continue-receiving now flags kind tid t o n p h small =
    let first : length (take o p) ≡ o = omega (arith, length-take o p) in
    let rest = length-drop o p in
    let len : length (take n (drop o p)) ≡ n = omega (arith, rest, length-take n (drop o p)) in
    let fit : ltb (length p) (o + length (take n (drop o p))) ≡ false = ground (arith, len) in
    let body = take-padded (take n (drop o p)) (omega (arith, len)) in
    let copied =
      ap (blit (blit (replicate 4096 0) 0 (take o p)) o) body
      ∙ blit_after_first (replicate 4096 0) (take o p) (take n (drop o p)) o first
      ∙ ap (blit (replicate 4096 0) 0) (take-take o n p) in
    rw (==_self kind, ==_self tid, ==_self o, fit)
      (λ i. (
        record {
          active = true;
          kind = kind;
          transfer_id = tid;
          total_len = length p;
          next_offset = o + len i;
          payload = copied i;
          started_at = some now;
        },
        true,
      ))

-- The first slot of a packet, whatever was received before it.
pub push_slot-begin :
    (now kind tid : ℕ) (r : RxPacketState) (p : Bytes) (stop : ℕ)
    → length p ≤ 4096
    → stop ≤ length p
    → stop ≤ 14
    → push_slot now r (slot_of kind (slot_flags 0 stop (length p)) tid 0 (length p) (take stop p))
      ≡ finish_packet
          (slot_of kind (slot_flags 0 stop (length p)) tid 0 (length p) (take stop p))
          (receiving kind tid p stop now, true)
unfolding push_slot
push_slot-begin now kind tid r p stop fits h small =
    let size : ltb 4096 (length p) ≡ false = ground arith in
    let first = slot_flags-has_start 0 stop (length p) in
    rw (size, first)
      (ap
        (finish_packet (slot_of kind (slot_flags 0 stop (length p)) tid 0 (length p) (take stop p)))
        (begin-receiving now (slot_flags 0 stop (length p)) kind tid (reset_if_stale now r) p stop h
          small))

-- A later slot that comes in time.
pub push_slot-continue :
    (now kind tid t o n : ℕ) (p : Bytes)
    → length p ≤ 4096
    → 0 < o
    → o + n ≤ length p
    → n ≤ 14
    → now - t < 50000
    → push_slot now
        (receiving kind tid p o t)
        (slot_of kind (slot_flags o (o + n) (length p)) tid o (length p) (take n (drop o p)))
      ≡ finish_packet
          (slot_of kind (slot_flags o (o + n) (length p)) tid o (length p) (take n (drop o p)))
          (receiving kind tid p (o + n) now, true)
unfolding push_slot reset_if_stale
push_slot-continue now kind tid t o n p fits later h small timely =
    let size : ltb 4096 (length p) ≡ false = ground arith in
    let first = slot_flags-has_start o (o + n) (length p) ∙ ==_false o 0 (omega arith) in
    let fresh : leb 50000 (now - t) ≡ false = ground arith in
    rw (size, first, fresh)
      (ap
        (finish_packet
          (slot_of kind (slot_flags o (o + n) (length p)) tid o (length p) (take n (drop o p))))
        (continue-receiving now (slot_flags o (o + n) (length p)) kind tid t o n p h small))

-- A slot that is not the last leaves the state as it is.
pub finish_packet-more :
    (slot : Slot) (r : RxPacketState)
    → has_end slot.flags ≡ false
    → finish_packet slot (r, true) ≡ (r, ok none)
unfolding finish_packet
finish_packet-more slot r more = rw more refl

-- The last one completes the packet.
pub finish_packet-received :
    (slot : Slot) (kind tid t o : ℕ) (p : Bytes)
    → has_end slot.flags ≡ true
    → o ≡ length p
    → finish_packet slot (receiving kind tid p o t, true)
      ≡ (received p, ok (some (kind, tid, length p)))
unfolding finish_packet
finish_packet-received slot kind tid t o p last e =
    let whole : (o == length p) ≡ true = ground (arith, e) in
    rw (last, whole)
      (λ i. (
        record new_rx { payload = blit (replicate 4096 0) 0 (take_whole p o (omega (arith, e)) i) },
        ok (some (kind, tid, length p)),
      ))
