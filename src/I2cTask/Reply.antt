-- ===== src/I2cTask/Reply.antt =====
-- What the device stages for the master, and what the host's `read_frame` makes of it.
use pico_fi.I2cSlot.Transmit.{drain, drain-encode_slots}
use pico_fi.HostI2c.Receive.{AllIdle, read_frame-encode_slots}
use pico_fi.Frame.RoundTrip.{framed, fill-framed}
use pico_fi.HostI2c.{parse_response, Frame, read_frame, done}
use pico_fi.HostI2c
use pico_fi.I2cTask.{stage_framed, stage_built, stage_bridge_packet}
use pico_fi.I2cSlot.{stage_packet}
use pico_fi.Frame.{build_frame_into, build_with, header_for_magic, fill}
use pico_fi.HostI2c.{data_frame, command_frame}
use pico_fi.Prelude.{
  ltb, ◌==◌, if◌then◌else◌, if_false, length, take, replicate, take_whole, length-replicate, Bytes,
  from_le16, ok, ℕ, ◌+◌, ◌-◌, ◌/◌, ◌%◌, ◌^◌, ◌≤◌, ◌<◌, min, ◌≡◌, refl, ap, ◌∙◌, ◌≢◌, ◌⊎◌, inl, inr,
  Bool, true, false, some, List, [], ◌∷◌, ◌++◌, arith,
}

stage_framed-packet :
    (kind tid magic : ℕ) (h : ℕ × ℕ) (payload : Bytes)
    → header_for_magic magic ≡ some h
    → length payload ≤ 4092
    → stage_framed kind tid magic payload ≡ stage_packet kind tid (framed h payload)
unfolding build_frame_into build_with
stage_framed-packet kind tid magic h payload e fit =
    let room = length-replicate {A = ℕ} 4096 0 in
    let len : min (min (length payload) (4096 - 4)) 65535 ≡ length payload = omega arith in
    ap (λ m. stage_built kind tid (build_with m payload (replicate 4096 0))) e
    ∙ (λ i. stage_packet kind tid (take (4 + len i) (fill (replicate 4096 0) h (len i) payload)))
    ∙ ap (stage_packet kind tid) (fill-framed (replicate 4096 0) h payload (omega (arith, room)))

le16_size : (n : ℕ) → n < 65536 → from_le16 (n % 256) (n / 256 % 256) ≡ n
le16_size n h = omega arith

parse_response-framed :
    (kind h0 h1 : ℕ) (payload : Bytes)
    → length payload ≤ 4092
    → parse_response kind (framed (h0, h1) payload)
      ≡ HostI2c.frame_with (HostI2c.response_magic kind (h0 ∷ h1 ∷ [])) (length payload) payload
unfolding parse_response
parse_response-framed kind h0 h1 payload fit =
    let e = le16_size (length payload) (omega arith) in
    let whole = take_whole payload (length payload) (omega arith) in
    let len = from_le16 (length payload % 256) (length payload / 256 % 256) in
    let raw = framed (h0, h1) payload in
    let long : ltb (length raw) 4 ≡ false = ground arith in
    let small : ltb 4092 len ≡ false = ground (arith, e) in
    let enough : ltb (length raw) (4 + len) ≡ false = ground (arith, e) in
    let magic = HostI2c.response_magic kind (h0 ∷ h1 ∷ []) in
    if_false _ long
    ∙ if_false _ small
    ∙ if_false _ enough
    ∙ (λ i. HostI2c.frame_with magic (e i) (take (e i) payload))
    ∙ ap (HostI2c.frame_with magic (length payload)) whole

-- The frame that a packet of this kind becomes at the host.
abbrev pub frame_of : ℕ → Bytes → Frame
frame_of kind payload = if kind == 1 then data_frame payload else command_frame payload

-- A framed reply on the bus.
read_frame-stage_framed :
    (kind tid magic h0 h1 : ℕ) (payload : Bytes) (idle : List Bytes)
    → header_for_magic magic ≡ some (h0, h1)
    → kind ≢ 0
    → tid < 2 ^ 16
    → length payload ≤ 4092
    → AllIdle idle
    → read_frame (idle ++ drain (length payload + 6) (stage_framed kind tid magic payload))
      ≡ done
          (HostI2c.frame_with (HostI2c.response_magic kind (h0 ∷ h1 ∷ [])) (length payload) payload)
read_frame-stage_framed kind tid magic h0 h1 payload idle e live id_small fits h =
    let raw = framed (h0, h1) payload in
    let rounds : length payload + 6 ≡ length raw + 2 = omega arith in
    (λ i.
      read_frame
        (idle ++ drain (rounds i) (stage_framed-packet kind tid magic (h0, h1) payload e fits i)))
    ∙ ap (λ slots. read_frame (idle ++ slots)) (drain-encode_slots kind tid raw (omega arith))
    ∙ read_frame-encode_slots kind tid raw idle live id_small (omega arith) h
    ∙ ap done (parse_response-framed kind h0 h1 payload fits)

-- As a data frame or a command frame.
pub read_frame-stage_either :
    (b : Bool) (kind tid : ℕ) (payload : Bytes) (idle : List Bytes)
    → kind ≢ 0
    → tid < 2 ^ 16
    → length payload ≤ 4092
    → AllIdle idle
    → read_frame (
        idle
        ++ drain (length payload + 6) (stage_framed kind tid (if b then 0x5A else 0x5B) payload))
      ≡ done (ok (if b then data_frame payload else command_frame payload))
unfolding header_for_magic
read_frame-stage_either true kind tid payload idle live id_small fits h =
    read_frame-stage_framed kind tid 0x5A 0xA5 0x5A payload idle refl live id_small fits h
read_frame-stage_either false kind tid payload idle live id_small fits h =
    read_frame-stage_framed kind tid 0x5B 0xA6 0x5B payload idle refl live id_small fits h

stage_bridge_packet-framed :
    (tid kind : ℕ) (payload : Bytes)
    → (kind ≡ 1) ⊎ ((kind ≡ 2) ⊎ (kind ≡ 0x7F))
    → stage_bridge_packet tid (record { kind = kind; payload = payload })
      ≡ stage_framed kind tid (if kind == 1 then 0x5A else 0x5B) payload
unfolding stage_bridge_packet
stage_bridge_packet-framed tid kind payload (inl e) = rw e refl
stage_bridge_packet-framed tid kind payload (inr (inl e)) = rw e refl
stage_bridge_packet-framed tid kind payload (inr (inr e)) = rw e refl

-- A packet of a kind that the bridge stages and of at most 4092 bytes, staged by the device and sent
-- slot by slot until nothing is pending, is received whole by the host's `read_frame`, after any
-- number of idle slots: as a data frame if it is of the data kind and as a command frame otherwise.
pub read_frame-stage_bridge_packet :
    (tid kind : ℕ) (payload : Bytes) (idle : List Bytes)
    → (kind ≡ 1) ⊎ ((kind ≡ 2) ⊎ (kind ≡ 0x7F))
    → tid < 2 ^ 16
    → length payload ≤ 4092
    → AllIdle idle
    → read_frame (
        idle
        ++ drain
            (length payload + 6)
            (stage_bridge_packet tid (record { kind = kind; payload = payload })))
      ≡ done (ok (frame_of kind payload))
read_frame-stage_bridge_packet tid kind payload idle k id_small fits h =
    ap (λ t. read_frame (idle ++ drain (length payload + 6) t))
      (stage_bridge_packet-framed tid kind payload k)
    ∙ read_frame-stage_either (kind == 1) kind tid payload idle (λ z. omega arith) id_small fits h
