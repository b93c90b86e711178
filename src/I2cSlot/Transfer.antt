-- ===== src/I2cSlot/Transfer.antt =====
-- The slots of one packet on the bus, and the host's encoder, which writes them.
use mathlib.Core.Path.{subst}
use pico_fi.I2cSlot.Codec.{slot_bytes, encode_slot-slot_bytes}
use native.Mathlib.Decide.{dec_lt}
use pico_fi.HostI2c.{encode_slots}
use pico_fi.Prelude.{
  leb, if_true, if_false, length, take, drop, Bytes, ℕ, zero, suc, ◌+◌, ◌-◌, ◌≤◌, ◌<◌, min, ◌≡◌,
  sym, ap, ◌∙◌, true, false, List, [], ◌∷◌, arith,
}
use pico_fi.I2cSlot.{slot_flags}
use pico_fi.HostI2c

-- The slot of the `n` bytes from `offset` on.
abbrev pub slot_at : ℕ → ℕ → Bytes → ℕ → ℕ → Bytes
slot_at kind tid p offset n =
    slot_bytes kind (slot_flags offset (offset + n) (length p)) tid offset (length p)
      (take n (drop offset p))

-- The slots of the bytes from `offset` on, in their order.
pub data Slots (kind tid : ℕ) (p : Bytes) : ℕ → List Bytes → Type 0 where
  last_slot :
      {o n : ℕ} → o + n ≡ length p → n ≤ 14 → Slots kind tid p o (slot_at kind tid p o n ∷ [])
  more_slots :
      {o : ℕ} {rest : List Bytes}
      → o + 14 < length p
      → Slots kind tid p (o + 14) rest
      → Slots kind tid p o (slot_at kind tid p o 14 ∷ rest)

host_slot_at :
    (kind tid : ℕ) (p : Bytes) (o n stop taken : ℕ)
    → o + n ≡ stop
    → taken ≡ n
    → HostI2c.encode_slot kind
        (slot_flags o stop (length p))
        tid
        o
        (length p)
        (take taken (drop o p))
      ≡ slot_at kind tid p o n
host_slot_at kind tid p o n stop taken e f =
    encode_slot-slot_bytes kind (slot_flags o stop (length p)) tid o (length p)
      (take taken (drop o p))
    ∙ (λ i.
        slot_bytes kind (slot_flags o (sym e i) (length p)) tid o (length p)
          (take (f i) (drop o p)))

encode_loop-last :
    (fuel kind tid : ℕ) (p : Bytes) (o n : ℕ)
    → o + n ≡ length p
    → n ≤ 14
    → HostI2c.encode_loop (suc fuel) kind tid p o ≡ slot_at kind tid p o n ∷ []
encode_loop-last fuel kind tid p o n e h =
    let stop : o + n ≡ min (o + 14) (length p) = omega arith in
    let at_end : leb (length p) (min (o + 14) (length p)) ≡ true = ground (arith, stop) in
    let body : min (o + 14) (length p) - o ≡ n = omega arith in
    if_true _ at_end
    ∙ ap (λ raw. raw ∷ [])
        (host_slot_at kind tid p o n (min (o + 14) (length p)) (min (o + 14) (length p) - o) stop
          body)

encode_loop-more :
    (fuel kind tid : ℕ) (p : Bytes) (o : ℕ)
    → o + 14 < length p
    → HostI2c.encode_loop (suc fuel) kind tid p o
      ≡ slot_at kind tid p o 14 ∷ HostI2c.encode_loop fuel kind tid p (o + 14)
encode_loop-more fuel kind tid p o h =
    let stop : o + 14 ≡ min (o + 14) (length p) = omega arith in
    let inside : leb (length p) (min (o + 14) (length p)) ≡ false = ground (arith, stop) in
    let body : min (o + 14) (length p) - o ≡ 14 = omega arith in
    let head =
      host_slot_at kind tid p o 14 (min (o + 14) (length p)) (min (o + 14) (length p) - o) stop
        body in
    if_false _ inside ∙ (λ i. head i ∷ HostI2c.encode_loop fuel kind tid p (sym stop i))

encode_loop-Slots :
    (fuel kind tid : ℕ) (p : Bytes) (o : ℕ)
    → o ≤ length p
    → length p - o < fuel
    → Slots kind tid p o (HostI2c.encode_loop fuel kind tid p o)
encode_loop-Slots zero kind tid p o h f = absurd (omega arith)
encode_loop-Slots (suc fuel) kind tid p o h f = elim (dec_lt (o + 14) (length p)) [
  | yes more ↦
      subst (Slots kind tid p o) (sym (encode_loop-more fuel kind tid p o more))
        (more_slots more (encode_loop-Slots fuel kind tid p (o + 14) (omega arith) (omega arith)))
  | no stops ↦
      let e : o + (length p - o) ≡ length p = omega arith in
      subst (Slots kind tid p o)
        (sym (encode_loop-last fuel kind tid p o (length p - o) e (omega arith)))
        (last_slot e (omega arith))
]

-- The host's encoder writes the slots of the packet, for every payload.
pub encode_slots-Slots : (kind tid : ℕ) (p : Bytes) → Slots kind tid p 0 (encode_slots kind tid p)
unfolding encode_slots
encode_slots-Slots kind tid p =
    encode_loop-Slots (suc (length p)) kind tid p 0 (omega arith) (omega arith)

-- A packet is sent in one way only.
pub Slots-unique :
    {kind tid : ℕ} {p : Bytes} {o : ℕ} {xs ys : List Bytes}
    → Slots kind tid p o xs
    → Slots kind tid p o ys
    → xs ≡ ys
Slots-unique {kind = kind} {tid = tid} {p = p} {o = o} (last_slot e h) (last_slot f k) =
    ap (λ n. slot_at kind tid p o n ∷ []) (omega arith)
Slots-unique (last_slot e h) (more_slots f k) = absurd (omega arith)
Slots-unique (more_slots f k) (last_slot e h) = absurd (omega arith)
Slots-unique {kind = kind} {tid = tid} {p = p} {o = o} (more_slots e h) (more_slots f k) =
    ap (◌∷◌ (slot_at kind tid p o 14)) (Slots-unique h k)
