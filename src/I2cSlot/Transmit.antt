-- ===== src/I2cSlot/Transmit.antt =====
-- `next_slot_bytes` on a staged packet.
use mathlib.Core.Path.{subst}
use pico_fi.I2cSlot.Codec.{padded, encode_slot-padded}
use native.Mathlib.Decide.{dec_lt}
use pico_fi.Frame.RoundTrip.{blit-append}
use pico_fi.I2cSlot.Transfer.{
  Slots, slot_at, Slots-unique, encode_slots-Slots, more_slots, last_slot,
}
use pico_fi.I2cSlot.{
  slot_flags, next_slot_bytes, stage_packet, reset_tx, has_pending, TxPacketState,
}
use pico_fi.HostI2c.{encode_slots}
use pico_fi.Prelude.{
  leb, if◌then◌else◌, if_true, if_false, length, take, drop, replicate, take_whole, length-take,
  length-drop, length-replicate, Bytes, blit, ℕ, zero, suc, ◌+◌, ◌-◌, ◌≤◌, ◌<◌, min, ◌≡◌, refl, sym,
  ap, ◌∙◌, true, false, List, [], ◌∷◌, ◌++◌, arith,
}
use pico_fi.I2cSlot

-- What is still in the transmitter is sent: `next_slot_bytes` while there is something pending.
abbrev pub drain : ℕ → TxPacketState → List Bytes
drain zero t = []
drain (suc fuel) t =
    (let (t', raw) = next_slot_bytes t in
      let rest = drain fuel t' in if has_pending t then raw ∷ rest else [])

-- The transmitter after the first `o` bytes.
abbrev pub sending : ℕ → ℕ → Bytes → ℕ → TxPacketState
sending kind tid p o = record {
  active = true;
  kind = kind;
  transfer_id = tid;
  payload_len = length p;
  next_offset = o;
  payload = blit (replicate 4096 0) 0 p;
}

stage_packet-sending :
    (kind tid : ℕ) (p : Bytes) → length p ≤ 4096 → stage_packet kind tid p ≡ sending kind tid p 0
unfolding stage_packet
stage_packet-sending kind tid p h =
    let len : min (length p) 4096 ≡ length p = omega arith in
    let whole = take_whole p (min (length p) 4096) (omega arith) in
    λ i. record (sending kind tid p 0) {
      payload_len = len i;
      payload = blit (replicate 4096 0) 0 (whole i);
    }

take_part : (xs ys : Bytes) (n : ℕ) → n ≤ length xs → take n (xs ++ ys) ≡ take n xs
take_part xs ys zero h = refl
take_part [] ys (suc n) h = absurd (omega arith)
take_part (x ∷ xs) ys (suc n) h = ap (◌∷◌ x) (take_part xs ys n (omega arith))

take-drop_part :
    (xs ys : Bytes) (o n : ℕ) → o + n ≤ length xs → take n (drop o (xs ++ ys)) ≡ take n (drop o xs)
take-drop_part xs ys zero n h = take_part xs ys n (omega arith)
take-drop_part [] ys (suc o) n h = absurd (omega arith)
take-drop_part (x ∷ xs) ys (suc o) n h = take-drop_part xs ys o n (omega arith)

cut_sent :
    (buf p : Bytes) (o n : ℕ)
    → o + n ≤ length p
    → length p ≤ length buf
    → take n (drop o (blit buf 0 p)) ≡ take n (drop o p)
cut_sent buf p o n h fits =
    ap (λ b. take n (drop o b)) (blit-append buf p fits)
    ∙ take-drop_part p (drop (length p) buf) o n h

next_slot_bytes-sending :
    (kind tid : ℕ) (p : Bytes) (o n : ℕ)
    → o + n ≤ length p
    → n ≡ min (length p - o) 14
    → length p ≤ 4096
    → next_slot_bytes (sending kind tid p o) ≡ (
      (if leb (length p) (o + n)
          then reset_tx (sending kind tid p o)
          else sending kind tid p (o + n)),
      slot_at kind tid p o n,
    )
unfolding next_slot_bytes
next_slot_bytes-sending kind tid p o n h e fits =
    let size : length (take n (drop o p)) ≡ n =
      omega (arith, length-take n (drop o p), length-drop o p) in
    let cut : take n (drop o (blit (replicate 4096 0) 0 p)) ≡ take n (drop o p) =
      cut_sent (replicate 4096 0) p o n h (omega (arith, length-replicate {A = ℕ} 4096 0)) in
    (λ i. (
      (if leb (length p) (o + sym e i)
          then reset_tx (sending kind tid p o)
          else sending kind tid p (o + sym e i)),
      I2cSlot.encode_slot kind (slot_flags o (o + sym e i) (length p)) tid o (length p) (sym e i)
          (padded (take (sym e i) (drop o (blit (replicate 4096 0) 0 p)))),
    ))
    ∙ (λ i. (
      (if leb (length p) (o + n)
          then reset_tx (sending kind tid p o)
          else sending kind tid p (o + n)),
      I2cSlot.encode_slot kind (slot_flags o (o + n) (length p)) tid o (length p) (sym size i)
          (padded (cut i)),
    ))
    ∙ ap
        (λ raw. (
          (if leb (length p) (o + n)
              then reset_tx (sending kind tid p o)
              else sending kind tid p (o + n)),
          raw,
        ))
        (encode_slot-padded kind (slot_flags o (o + n) (length p)) tid o (length p)
          (take n (drop o p)) (omega (arith, size)))

drain-Slots :
    (fuel kind tid : ℕ) (p : Bytes) (o : ℕ)
    → o ≤ length p
    → length p ≤ 4096
    → length p - o < fuel
    → Slots kind tid p o (drain (suc fuel) (sending kind tid p o))
drain-Slots zero kind tid p o h fits f = absurd (omega arith)
drain-Slots (suc fuel) kind tid p o h fits f = elim (dec_lt (o + 14) (length p)) [
  | yes more ↦
      let inside : leb (length p) (o + 14) ≡ false = ground arith in
      let step =
        next_slot_bytes-sending kind tid p o 14 (omega arith) (omega arith) fits
        ∙ ap (λ t. (t, slot_at kind tid p o 14)) (if_false _ inside) in
      subst (Slots kind tid p o) (λ i. (sym step i).1 ∷ drain (suc fuel) (sym step i).0)
        (more_slots more (drain-Slots fuel kind tid p (o + 14) (omega arith) fits (omega arith)))
  | no stops ↦
      let n = length p - o in
      let at_end : leb (length p) (o + n) ≡ true = ground arith in
      let step =
        next_slot_bytes-sending kind tid p o n (omega arith) (omega arith) fits
        ∙ ap (λ t. (t, slot_at kind tid p o n)) (if_true _ at_end) in
      subst (Slots kind tid p o) (λ i. (sym step i).1 ∷ drain (suc fuel) (sym step i).0)
        (last_slot (omega arith) (omega arith))
]

-- Everything that the device sends of a staged packet of at most 4096 bytes, until nothing is
-- pending or two more slots than it has bytes were sent, is the slots that the host's encoder makes
-- of the same payload.
pub drain-encode_slots :
    (kind tid : ℕ) (p : Bytes)
    → length p ≤ 4096
    → drain (length p + 2) (stage_packet kind tid p) ≡ encode_slots kind tid p
drain-encode_slots kind tid p h =
    let rounds : length p + 2 ≡ suc (suc (length p)) = omega arith in
    (λ i. drain (rounds i) (stage_packet-sending kind tid p h i))
    ∙ Slots-unique (drain-Slots (suc (length p)) kind tid p 0 (omega arith) h (omega arith))
        (encode_slots-Slots kind tid p)
