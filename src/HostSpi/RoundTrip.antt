-- ===== src/HostSpi/RoundTrip.antt =====
-- Frames between the device and the host on the SPI link.
use pico_fi.HostI2c.{data_frame, command_frame, frame_with}
use pico_fi.HostSpi.{
  Header, read_payload, parse_response, build_request_frame, answer_magic, payload_max,
}
use pico_fi.SpiFrame.{response, built}
use pico_fi.Frame.RoundTrip
use pico_fi.Frame.RoundTrip.{fill-framed, parse_framed, cut_twice}
use pico_fi.Frame.{
  build_frame_into, build_with, fill, header_for_magic, parse_request_bytes, data_request,
  command_request, frame_size, req_data_magic, req_command_magic, resp_data_magic,
  resp_command_magic,
}
use pico_fi.Prelude.{
  ltb, if◌then◌else◌, if_false, length, length-take, length-replicate, replicate, zero, suc, ◌-◌,
  inl, inr, refl, Bool, true, some, take, take_whole, take-append, Bytes, slice, le16, from_le16,
  ok, min, ℕ, ◌+◌, ◌%◌, ◌/◌, ◌≤◌, ◌<◌, ◌≡◌, ap, ◌∙◌, false, ◌∷◌, ◌++◌, arith,
}

-- A payload that lies within the frame is taken as it is.
read_payload-fits :
    (raw : Bytes) (h : Header)
    → h.len ≤ payload_max
    → h.payload_start + h.len ≤ frame_size
    → read_payload raw h ≡ frame_with h.magic h.len (slice raw h.payload_start h.len)
read_payload-fits raw h small fits =
    let inside : ltb payload_max h.len ≡ false = ground arith in
    let ends : ltb frame_size (h.payload_start + h.len) ≡ false = ground arith in
    if_false _ inside ∙ if_false _ ends

-- The two length bytes of `build_request_frame`, and the payload behind them.
length_bytes : (n : ℕ) → n ≤ payload_max → from_le16 (n % 256) (n / 256 % 256) ≡ n
length_bytes n h = omega arith

taken : (p tail : Bytes) (n : ℕ) → n ≡ length p → take n (p ++ tail) ≡ p
taken p tail n e = ap (λ n. take n (p ++ tail)) e ∙ take-append p tail

cut : (p : Bytes) → take (min (length p) payload_max) p ≡ take 256 p
cut p =
    cut_twice p ∙ take_whole (take 256 p) (min (length p) 256) (omega (arith, length-take 256 p))

abbrev length_of : Bytes → ℕ
length_of p = from_le16 (length p % 256) (length p / 256 % 256)

abbrev framed : ℕ → Bytes → Bytes
framed magic p = (magic ∷ answer_magic magic ∷ le16 (length p)) ++ p

-- The frame that the host builds, of the payload cut to its size.
build_request_frame-framed :
    (magic : ℕ) (p : Bytes) → build_request_frame magic p ≡ framed magic (take 256 p)
unfolding build_request_frame
build_request_frame-framed magic p =
    ap (λ sent. (magic ∷ answer_magic magic ∷ le16 (length sent)) ++ sent) (cut p)

parse_response-data :
    (payload tail : Bytes)
    → length payload ≤ payload_max
    → parse_response (framed req_data_magic payload ++ tail) ≡ ok (data_frame payload)
unfolding parse_response
parse_response-data payload tail h =
    let n = length_bytes (length payload) (omega arith) in
    read_payload-fits (framed req_data_magic payload ++ tail)
      (record { magic = resp_data_magic; len = length_of payload; payload_start = 4 })
      (omega (arith, n)) (omega (arith, n))
    ∙ ap (λ p. ok (data_frame p)) (taken payload tail (length_of payload) n)

parse_response-data_late :
    (payload tail : Bytes)
    → length payload < payload_max
    → parse_response (0 ∷ framed req_data_magic payload ++ tail) ≡ ok (data_frame payload)
unfolding parse_response
parse_response-data_late payload tail h =
    let n = length_bytes (length payload) (omega arith) in
    read_payload-fits (0 ∷ framed req_data_magic payload ++ tail)
      (record { magic = resp_data_magic; len = length_of payload; payload_start = 5 })
      (omega (arith, n)) (omega (arith, n))
    ∙ ap (λ p. ok (data_frame p)) (taken payload tail (length_of payload) n)

parse_response-command :
    (payload tail : Bytes)
    → length payload ≤ payload_max
    → parse_response (framed req_command_magic payload ++ tail) ≡ ok (command_frame payload)
unfolding parse_response
parse_response-command payload tail h =
    let n = length_bytes (length payload) (omega arith) in
    read_payload-fits (framed req_command_magic payload ++ tail)
      (record { magic = resp_command_magic; len = length_of payload; payload_start = 4 })
      (omega (arith, n)) (omega (arith, n))
    ∙ ap (λ p. ok (command_frame p)) (taken payload tail (length_of payload) n)

parse_response-command_late :
    (payload tail : Bytes)
    → length payload < payload_max
    → parse_response (0 ∷ framed req_command_magic payload ++ tail) ≡ ok (command_frame payload)
unfolding parse_response
parse_response-command_late payload tail h =
    let n = length_bytes (length payload) (omega arith) in
    read_payload-fits (0 ∷ framed req_command_magic payload ++ tail)
      (record { magic = resp_command_magic; len = length_of payload; payload_start = 5 })
      (omega (arith, n)) (omega (arith, n))
    ∙ ap (λ p. ok (command_frame p)) (taken payload tail (length_of payload) n)

-- The device's frame of a payload that fits.
response-framed :
    (magic : ℕ) (h : ℕ × ℕ) (payload : Bytes)
    → header_for_magic magic ≡ some h
    → length payload ≤ 256
    → (response magic payload).bytes ≡ RoundTrip.framed h payload
unfolding response built build_frame_into build_with
response-framed magic h payload e fit =
    let room = length-replicate {A = ℕ} 260 0 in
    let len : min (min (length payload) (260 - 4)) 65535 ≡ length payload = omega arith in
    ap (λ m. (built (replicate 260 0) (build_with m payload (replicate 260 0))).bytes) e
    ∙ (λ i. take (4 + len i) (fill (replicate 260 0) h (len i) payload))
    ∙ fill-framed (replicate 260 0) h payload (omega (arith, room))

-- The host reads back a response that the device makes, whatever follows it, with its kind and
-- exactly its payload: at the start of what it reads, or one byte late behind a zero if the frame
-- still fits then.
pub parse_response-response :
    (command : Bool) (late : ℕ) (payload tail : Bytes)
    → late ≤ 1
    → late + length payload ≤ 256
    → parse_response (
        replicate late 0
        ++ ((response (if command then resp_command_magic else resp_data_magic) payload).bytes
            ++ tail))
      ≡ ok (if command then command_frame payload else data_frame payload)
unfolding header_for_magic
parse_response-response false zero payload tail l h =
    ap (λ frame. parse_response (frame ++ tail))
      (response-framed resp_data_magic (0xA5, 0x5A) payload refl (omega arith))
    ∙ parse_response-data payload tail (omega arith)
parse_response-response false (suc zero) payload tail l h =
    ap (λ frame. parse_response (0 ∷ (frame ++ tail)))
      (response-framed resp_data_magic (0xA5, 0x5A) payload refl (omega arith))
    ∙ parse_response-data_late payload tail (omega arith)
parse_response-response true zero payload tail l h =
    ap (λ frame. parse_response (frame ++ tail))
      (response-framed resp_command_magic (0xA6, 0x5B) payload refl (omega arith))
    ∙ parse_response-command payload tail (omega arith)
parse_response-response true (suc zero) payload tail l h =
    ap (λ frame. parse_response (0 ∷ (frame ++ tail)))
      (response-framed resp_command_magic (0xA6, 0x5B) payload refl (omega arith))
    ∙ parse_response-command_late payload tail (omega arith)
parse_response-response command (suc (suc late)) payload tail l h = absurd (omega arith)

-- The device parses a request that the host builds, whatever follows it: as the request of its
-- kind, with the payload cut to 256 bytes.
pub parse_request_bytes-build_request_frame :
    (command : Bool) (payload tail : Bytes)
    → parse_request_bytes (
        build_request_frame (if command then req_command_magic else req_data_magic) payload ++ tail)
      ≡ some
          (if command then command_request (take 256 payload) else data_request (take 256 payload))
parse_request_bytes-build_request_frame false payload tail =
    ap (λ frame. parse_request_bytes (frame ++ tail))
      (build_request_frame-framed req_data_magic payload)
    ∙ parse_framed (0xA5, 0x5A) (take 256 payload) tail (inl (refl, refl))
        (omega (arith, length-take 256 payload))
parse_request_bytes-build_request_frame true payload tail =
    ap (λ frame. parse_request_bytes (frame ++ tail))
      (build_request_frame-framed req_command_magic payload)
    ∙ parse_framed (0xA6, 0x5B) (take 256 payload) tail (inr (inl (refl, refl)))
        (omega (arith, length-take 256 payload))
