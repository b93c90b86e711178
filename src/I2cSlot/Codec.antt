-- ===== src/I2cSlot/Codec.antt =====
-- The layout of a slot, as both ends write and read it.
use pico_fi.HostI2c.{DecodedSlot}
use pico_fi.I2cSlot
use pico_fi.HostI2c
use pico_fi.I2cSlot.{Slot}
use pico_fi.I2cPacket.Mailboxes.{take-blit}
use mathlib.Core.Option
use pico_fi.Prelude.{
  ltb, leb, ◌==◌, if_true, if_both, at, Result, ◌+◌, true, not, ◌&&◌, ◌||◌, Option, ==_false,
  length, take, replicate, Bytes, blit, length-blit, from_le16, le16, from_le32, le32, ok, ℕ, ◌/◌,
  ◌%◌, ◌^◌, ◌≤◌, ◌<◌, ◌≡◌, refl, ap, ◌∙◌, ◌≢◌, false, some, ◌∷◌, ◌++◌, arith,
}

-- What a slot can carry.
pub record IsSlot (kind transfer_id offset total_len : ℕ) (chunk : Bytes) : Type 0 where
  pub not_idle : kind ≢ 0
  pub id_small : transfer_id < 2 ^ 16
  pub offset_small : offset < 2 ^ 32
  pub total_small : total_len < 2 ^ 32
  pub fits : length chunk ≤ 14

-- A chunk in the field of 14 bytes.
abbrev pub padded : Bytes → Bytes
padded chunk = blit (replicate 14 0) 0 chunk

-- The layout of a slot.
abbrev pub slot_bytes : ℕ → ℕ → ℕ → ℕ → ℕ → Bytes → Bytes
slot_bytes kind flags transfer_id offset total_len chunk =
    0x49 ∷ 0x32 ∷ 1 ∷ kind ∷ flags ∷ 0 ∷ le32 offset
    ++ le32 total_len
    ++ le16 (length chunk)
    ++ le16 transfer_id
    ++ padded chunk

pub encode_slot-slot_bytes :
    (kind flags transfer_id offset total_len : ℕ) (chunk : Bytes)
    → HostI2c.encode_slot kind flags transfer_id offset total_len chunk
      ≡ slot_bytes kind flags transfer_id offset total_len chunk
unfolding HostI2c.encode_slot
encode_slot-slot_bytes kind flags transfer_id offset total_len chunk = refl

pub length-padded : (chunk : Bytes) → length (padded chunk) ≡ 14
length-padded chunk = length-blit (replicate 14 0) 0 chunk

pub take-padded : (chunk : Bytes) → length chunk ≤ 14 → take (length chunk) (padded chunk) ≡ chunk
take-padded chunk h = take-blit (replicate 14 0) chunk h

-- The device writes the same slot as the host.
pub encode_slot-padded :
    (kind flags transfer_id offset total_len : ℕ) (chunk : Bytes)
    → length chunk ≤ 14
    → I2cSlot.encode_slot kind flags transfer_id offset total_len (length chunk) (padded chunk)
      ≡ slot_bytes kind flags transfer_id offset total_len chunk
unfolding I2cSlot.encode_slot
encode_slot-padded kind flags transfer_id offset total_len chunk h =
    ap
      (λ c.
        0x49 ∷ 0x32 ∷ 1 ∷ kind ∷ flags ∷ 0 ∷ le32 offset
        ++ le32 total_len
        ++ le16 (length chunk)
        ++ le16 transfer_id
        ++ padded c)
      (take-padded chunk h)

le16_back : (n : ℕ) → n < 2 ^ 16 → from_le16 (n % 256) (n / 256 % 256) ≡ n
le16_back n h = omega arith

le32_back :
    (n : ℕ)
    → n < 2 ^ 32
    → from_le32 (n % 256) (n / 256 % 256) (n / 65536 % 256) (n / 16777216 % 256) ≡ n
le32_back n h = omega arith

abbrev pub slot_of : ℕ → ℕ → ℕ → ℕ → ℕ → Bytes → Slot
slot_of kind flags transfer_id offset total_len chunk = record {
  kind = kind;
  flags = flags;
  transfer_id = transfer_id;
  offset = offset;
  total_len = total_len;
  data_len = length chunk;
  chunk = padded chunk;
}

-- The ranges of the copy of a slot's bytes exist.
copied_within :
    (n size : ℕ) → n ≤ 14 → 32 ≤ size → (n == 0 || (leb n 14 && leb (18 + n) size)) ≡ true
copied_within n size small long = ground arith

-- The decoder never panics.
pub decode_slot-total :
    (raw : Bytes) → (d : Result Bytes (Option Slot)) × (I2cSlot.decode_slot raw ≡ some d)
unfolding I2cSlot.decode_slot
decode_slot-total raw =
    let Total : Option (Result Bytes (Option Slot)) → Type 0 =
      λ o. (d : Result Bytes (Option Slot)) × (o ≡ some d) in
    let n : ℕ = from_le16 (at raw 14) (at raw 15) in
    if_both Total (not (length raw == 32)) (λ _. (_, refl))
      (λ whole.
        if_both Total (I2cSlot.all_are 0 raw || I2cSlot.all_are 0xFF raw) (λ _. (_, refl))
          (λ _.
            if_both Total (not (at raw 0 == 0x49) || not (at raw 1 == 0x32) || not (at raw 2 == 1))
              (λ _. (_, refl))
              (λ _.
                if_both Total (at raw 3 == 0) (λ _. (_, refl))
                  (λ _.
                    if_both Total (ltb 14 n) (λ _. (_, refl))
                      (λ small. (
                        _,
                        ap (Option.map (λ chunk. ok (some (I2cSlot.slot_with raw chunk)))) (
                            if_true _ (copied_within n (length raw) (ground arith) (ground arith))),
                      ))))))

pub decode_slot-slot_bytes :
    (kind flags transfer_id offset total_len : ℕ) (chunk : Bytes)
    → IsSlot kind transfer_id offset total_len chunk
    → I2cSlot.decode_slot (slot_bytes kind flags transfer_id offset total_len chunk)
      ≡ some (ok (some (slot_of kind flags transfer_id offset total_len chunk)))
unfolding I2cSlot.decode_slot
decode_slot-slot_bytes kind flags transfer_id offset total_len chunk v =
    let size = length-padded chunk in
    let dl = le16_back (length chunk) (omega (arith, v.fits)) in
    let live = ==_false kind 0 v.not_idle in
    let small : ltb 14 (from_le16 (length chunk % 256) (length chunk / 256 % 256)) ≡ false =
      ground (arith, dl, v.fits) in
    let copied =
      copied_within (from_le16 (length chunk % 256) (length chunk / 256 % 256)) 32
        (omega (arith, dl, v.fits)) (omega arith) in
    rw (size, live, small, copied)
      (λ i. some (
        ok (
          some (record {
            kind = kind;
            flags = flags;
            transfer_id = le16_back transfer_id v.id_small i;
            offset = le32_back offset v.offset_small i;
            total_len = le32_back total_len v.total_small i;
            data_len = dl i;
            chunk =
                (ap (λ n. padded (take n (padded chunk))) dl ∙ ap padded (take-padded chunk v.fits))
                  i;
          }))))

abbrev pub decoded_of : ℕ → ℕ → ℕ → ℕ → ℕ → Bytes → DecodedSlot
decoded_of kind flags transfer_id offset total_len chunk = record {
  kind = kind;
  flags = flags;
  transfer_id = transfer_id;
  offset = offset;
  total_len = total_len;
  chunk = chunk;
}

-- The host reads it too.
pub host-slot_bytes :
    (kind flags transfer_id offset total_len : ℕ) (chunk : Bytes)
    → IsSlot kind transfer_id offset total_len chunk
    → HostI2c.decode_slot (slot_bytes kind flags transfer_id offset total_len chunk)
      ≡ ok (some (decoded_of kind flags transfer_id offset total_len chunk))
unfolding HostI2c.decode_slot
host-slot_bytes kind flags transfer_id offset total_len chunk v =
    let dl = le16_back (length chunk) (omega (arith, v.fits)) in
    let live = ==_false kind 0 v.not_idle in
    let small : ltb 14 (from_le16 (length chunk % 256) (length chunk / 256 % 256)) ≡ false =
      ground (arith, dl, v.fits) in
    rw (live, small)
      (λ i. ok (
        some (record {
          kind = kind;
          flags = flags;
          transfer_id = le16_back transfer_id v.id_small i;
          offset = le32_back offset v.offset_small i;
          total_len = le32_back total_len v.total_small i;
          chunk = (ap (λ n. take n (padded chunk)) dl ∙ take-padded chunk v.fits) i;
        })))
