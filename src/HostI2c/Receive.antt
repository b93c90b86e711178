-- ===== src/HostI2c/Receive.antt =====
-- `read_frame` on the slots of one response.
use pico_fi.Stream.Payload.{take-take}
use pico_fi.I2cSlot.Assembly.{slot_flags-has_start, slot_flags-has_end}
use pico_fi.I2cSlot.Codec.{decoded_of, host-slot_bytes}
use pico_fi.I2cSlot.Transfer.{Slots, slot_at, last_slot, more_slots, encode_slots-Slots}
use pico_fi.HostI2c.{
  Partial, take_slot, DecodedSlot, after_slot, read_slot, waiting, read_loop, done, decode_slot,
  parse_response, read_frame, encode_slots, new_partial,
}
use pico_fi.I2cSlot.{slot_flags}
use pico_fi.Prelude.{
  leb, ◌==◌, ==_false, ==_self, if_true, if_false, length, take, drop, take_whole, length-take,
  length-drop, Bytes, ok, ℕ, zero, suc, ◌+◌, ◌^◌, ◌≤◌, ◌<◌, ◌≡◌, refl, ap, ◌∙◌, ◌≢◌, ◌⊎◌, inl, inr,
  true, false, not, ◌&&◌, none, List, [], ◌∷◌, ◌++◌, arith,
}

-- The local variables after the first `o` bytes of the response.
abbrev pub partial : ℕ → ℕ → Bytes → ℕ → Partial
partial kind tid p o = record {
  active = true;
  kind = kind;
  transfer_id = tid;
  total_len = length p;
  next_offset = o;
  raw = take o p;
}

-- The slot of `n` bytes at `o`, decoded.
abbrev decoded_at : ℕ → ℕ → Bytes → ℕ → ℕ → DecodedSlot
decoded_at kind tid p o n =
    decoded_of kind (slot_flags o (o + n) (length p)) tid o (length p) (take n (drop o p))

-- What a slot can come after: nothing at offset 0, and the bytes before it otherwise.
abbrev pub Expects : Partial → ℕ → ℕ → Bytes → ℕ → Type 0
Expects r kind tid p o = (o ≡ 0) ⊎ ((0 < o) × (r ≡ partial kind tid p o))

take_slot-first :
    (kind tid : ℕ) (p : Bytes) (n : ℕ) (r : Partial)
    → 0 + n ≤ length p
    → take_slot r (decoded_at kind tid p 0 n) ≡ ok (partial kind tid p (0 + n))
unfolding take_slot
take_slot-first kind tid p n r h =
    let size : length (take n p) ≡ 0 + n = omega (arith, length-take n p) in
    let same : n ≡ 0 + n = omega arith in
    if_true _ (slot_flags-has_start 0 (0 + n) (length p))
    ∙ (λ i. ok (record (partial kind tid p n) { next_offset = size i; raw = take (same i) p }))

take_slot-next :
    (kind tid : ℕ) (p : Bytes) (o n : ℕ)
    → 0 < o
    → o + n ≤ length p
    → take_slot (partial kind tid p o) (decoded_at kind tid p o n) ≡ ok (partial kind tid p (o + n))
unfolding take_slot
take_slot-next kind tid p o n h k =
    let later = slot_flags-has_start o (o + n) (length p) ∙ ==_false o 0 (omega arith) in
    let size : length (take n (drop o p)) ≡ n =
      omega (arith, length-take n (drop o p), length-drop o p) in
    let same : (kind == kind) && (tid == tid) && (o == o) ≡ true =
      rw (==_self kind, ==_self tid, ==_self o) refl in
    if_false _ later ∙ if_true _ same ∙ (λ i.
      ok (record (partial kind tid p o) { next_offset = o + size i; raw = take-take o n p i }))

module _ (kind tid : ℕ) (p : Bytes) (live : kind ≢ 0) (id_small : tid < 2 ^ 16)
    (fits : length p < 2 ^ 32) where
  take_slot-partial :
      (r : Partial) (o n : ℕ)
      → Expects r kind tid p o
      → o + n ≤ length p
      → take_slot r (decoded_at kind tid p o n) ≡ ok (partial kind tid p (o + n))
  take_slot-partial r zero n x h = take_slot-first kind tid p n r h
  take_slot-partial r (suc o) n (inl e) h = absurd (omega arith)
  take_slot-partial r (suc o) n (inr (later, e)) h =
      ap (λ q. take_slot q (decoded_at kind tid p (suc o) n)) e
      ∙ take_slot-next kind tid p (suc o) n later h

  -- One slot, read and decoded.
  read_slot-partial :
      (r : Partial) (o n : ℕ)
      → Expects r kind tid p o
      → o + n ≤ length p
      → n ≤ 14
      → read_slot r (decode_slot (slot_at kind tid p o n))
        ≡ after_slot (decoded_at kind tid p o n) (ok (partial kind tid p (o + n)))
  unfolding read_slot
  read_slot-partial r o n x h small =
      let size : length (take n (drop o p)) ≤ 14 = omega (arith, length-take n (drop o p)) in
      ap (read_slot r) (
        host-slot_bytes kind (slot_flags o (o + n) (length p)) tid o (length p) (take n (drop o p))
          (record {
            not_idle = live;
            id_small = id_small;
            offset_small = omega arith;
            total_small = fits;
            fits = size;
          }))
      ∙ ap (after_slot (decoded_at kind tid p o n)) (take_slot-partial r o n x h)

  after_slot-more :
      (o n : ℕ)
      → o + n < length p
      → after_slot (decoded_at kind tid p o n) (ok (partial kind tid p (o + n)))
        ≡ waiting (partial kind tid p (o + n))
  unfolding after_slot
  after_slot-more o n h =
      let on : leb (length p) (o + n) ≡ false = ground arith in
      if_true _ (ap not (slot_flags-has_end o (o + n) (length p) ∙ on))

  after_slot-last :
      (o n : ℕ)
      → o + n ≡ length p
      → after_slot (decoded_at kind tid p o n) (ok (partial kind tid p (o + n)))
        ≡ done (parse_response kind p)
  unfolding after_slot
  after_slot-last o n e =
      let stop : leb (length p) (o + n) ≡ true = ground (arith, e) in
      let whole : (o + n == length p) ≡ true = ground (arith, e) in
      if_false _ (ap not (slot_flags-has_end o (o + n) (length p) ∙ stop))
      ∙ if_false _ (ap not whole)
      ∙ ap (λ raw. done (parse_response kind raw)) (take_whole p (o + n) (omega (arith, e)))

  read_loop-Slots :
      {o : ℕ} {slots : List Bytes} (r : Partial)
      → Expects r kind tid p o
      → o ≤ length p
      → Slots kind tid p o slots
      → read_loop (waiting r) slots ≡ done (parse_response kind p)
  read_loop-Slots {o = o} r x h (last_slot {n = n} e small) =
      ap (λ s. read_loop s [])
        (read_slot-partial r o n x (omega arith) small ∙ after_slot-last o n e)
  read_loop-Slots {o = o} r x h (more_slots {rest = rest} more slots) =
      ap (λ s. read_loop s rest)
        (read_slot-partial r o 14 x (omega arith) (omega arith) ∙ after_slot-more o 14 more)
      ∙ read_loop-Slots (partial kind tid p (o + 14)) (inr (omega arith, refl)) (omega arith) slots

-- A slot that says that nothing is there.
abbrev pub IsIdle : Bytes → Type 0
IsIdle raw = decode_slot raw ≡ ok none

abbrev pub AllIdle : List Bytes → Type 0
AllIdle [] = Unit
AllIdle (raw ∷ slots) = IsIdle raw × AllIdle slots

read_loop-idle :
    (r : Partial) (idle slots : List Bytes)
    → AllIdle idle
    → read_loop (waiting r) (idle ++ slots) ≡ read_loop (waiting r) slots
unfolding read_slot
read_loop-idle r [] slots h = refl
read_loop-idle r (raw ∷ idle) slots (e, h) =
    ap (λ d. read_loop (read_slot r d) (idle ++ slots)) e ∙ read_loop-idle r idle slots h

-- After any number of idle slots, the slots of a packet of any length that a u32 holds give what
-- `parse_response` makes of the whole packet.
pub read_frame-encode_slots :
    (kind tid : ℕ) (p : Bytes) (idle : List Bytes)
    → kind ≢ 0
    → tid < 2 ^ 16
    → length p < 2 ^ 32
    → AllIdle idle
    → read_frame (idle ++ encode_slots kind tid p) ≡ done (parse_response kind p)
unfolding read_frame
read_frame-encode_slots kind tid p idle live id_small fits h =
    read_loop-idle new_partial idle (encode_slots kind tid p) h
    ∙ read_loop-Slots kind tid p live id_small fits new_partial (inl refl) (omega arith)
        (encode_slots-Slots kind tid p)
