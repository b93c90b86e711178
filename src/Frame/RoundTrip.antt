-- ===== src/Frame/RoundTrip.antt =====
-- Frames that are built are read back.
use pico_fi.I2cPacket.Mailboxes.{take-blit}
use pico_fi.Frame.{
  parse_request_bytes, parse_request_body, parse_frame_header, kind_of, request_of,
  header_for_magic, RequestFrame, data_request, command_request, fill, header_or_data,
  make_response_frame, build_with, build_frame_into,
}
use mathlib.Core.Option
use pico_fi.Prelude.{
  ltb, ◌==◌, if◌then◌else◌, length, length-append, length-take, take, drop, replicate, take_whole,
  take-append, length-replicate, Bytes, blit, length-blit, le16, ℕ, zero, suc, ◌+◌, ◌-◌, ◌*◌, ◌/◌,
  ◌%◌, ◌≤◌, ◌<◌, min, ◌≡◌, refl, sym, ap, ◌∙◌, ◌⊎◌, inl, ◌||◌, false, Option, none, some, [], ◌∷◌,
  ◌++◌, arith,
}

-- The request that a frame with this header carries.
abbrev pub request_with : ℕ × ℕ → Bytes → Option RequestFrame
request_with (h0, h1) payload =
    if h0 == 165
    then some (data_request payload)
    else if h0 == 166
    then some (command_request payload)
    else none

-- The bytes of a frame around its payload.
abbrev pub framed : ℕ × ℕ → Bytes → Bytes
framed (h0, h1) payload = h0 ∷ h1 ∷ le16 (length payload) ++ payload

pub fill-framed :
    (out : Bytes) (h : ℕ × ℕ) (payload : Bytes)
    → 4 + length payload ≤ length out
    → take (4 + length payload) (fill out h (length payload) payload) ≡ framed h payload
unfolding fill
fill-framed out (h0, h1) payload fit =
    let n : 4 + length payload ≡ length (framed (h0, h1) payload) = omega arith in
    let body = take_whole payload (length payload) (omega arith) in
    (λ i. take (n i) (blit out 0 (h0 ∷ h1 ∷ le16 (length payload) ++ body i)))
    ∙ take-blit out (framed (h0, h1) payload) (omega arith)

pub append_nil : (xs : Bytes) → xs ++ [] ≡ xs
append_nil [] = refl
append_nil (x ∷ xs) = ap (◌∷◌ x) (append_nil xs)

-- The headers that `header_for_magic` makes.
abbrev pub IsHeaderPair : ℕ × ℕ → Type 0
IsHeaderPair (h0, h1) =
    ((h0 ≡ 165) × (h1 ≡ 90)) ⊎ ((h0 ≡ 166) × (h1 ≡ 91)) ⊎ ((h0 ≡ 167) × (h1 ≡ 122))

header_for_magic-IsHeaderPair :
    (magic : ℕ) {h : ℕ × ℕ} → header_for_magic magic ≡ some h → IsHeaderPair h
unfolding header_for_magic
header_for_magic-IsHeaderPair magic e = ground arith

pub parse_framed :
    (h : ℕ × ℕ) (payload rest : Bytes)
    → IsHeaderPair h
    → length payload < 65536
    → parse_request_bytes (framed h payload ++ rest) ≡ request_with h payload
unfolding parse_request_bytes parse_request_body parse_frame_header kind_of request_of
parse_framed (h0, h1) payload rest v b =
    let e : length payload % 256 + 256 * (length payload / 256 % 256) ≡ length payload =
      omega arith in
    let t = take-append payload rest in
    let l = length-append payload rest in ground (arith, e, t, l)

parse_frame :
    (out : Bytes) (h : ℕ × ℕ) (payload : Bytes)
    → IsHeaderPair h
    → 4 + length payload ≤ length out
    → length payload < 65536
    → parse_request_bytes (take (4 + length payload) (fill out h (length payload) payload))
      ≡ request_with h payload
parse_frame out h payload v fit small =
    ap parse_request_bytes (fill-framed out h payload fit ∙ sym (append_nil (framed h payload)))
    ∙ parse_framed h payload [] v small

build_with-parse :
    (h : Option (ℕ × ℕ)) (payload out : Bytes)
    → ((p : ℕ × ℕ) → h ≡ some p → IsHeaderPair p)
    → 4 + length payload ≤ length out
    → length payload < 65536
    → Option.map (λ r. parse_request_bytes (take r.0 r.1)) (build_with h payload out)
      ≡ Option.map (λ p. request_with p payload) h
unfolding build_with
build_with-parse none payload out v fit small = refl
build_with-parse (some p) payload out v fit small =
    let len : min (min (length payload) (length out - 4)) 65535 ≡ length payload = omega arith in
    let room : ltb (length out) 4 ≡ false = ground arith in
    rw room (
      ap (λ n. some (parse_request_bytes (take (4 + n) (fill out p n payload)))) len
      ∙ ap some (parse_frame out p payload (v p refl) fit small))

take-take : (m k : ℕ) (xs : Bytes) → m ≤ k → take m (take k xs) ≡ take m xs
take-take zero k xs h = refl
take-take (suc m) zero xs h = absurd (omega arith)
take-take (suc m) (suc k) [] h = refl
take-take (suc m) (suc k) (x ∷ xs) h = ap (◌∷◌ x) (take-take m k xs (omega arith))

-- The first bytes of a payload, cut to 256.
pub cut_twice :
    (payload : Bytes)
    → take (min (length payload) 256) payload ≡ take (min (length payload) 256) (take 256 payload)
cut_twice payload = sym (take-take (min (length payload) 256) 256 payload (omega arith))

-- What a frame of this magic is read as, for the magics that there are: a data or a command frame is
-- the request with its payload, and one of raw text is no request.
abbrev pub read_as : ℕ → Bytes → Option (Option RequestFrame)
read_as magic payload =
    if magic == 0xA5 || magic == 0x5A
    then some (some (data_request payload))
    else if magic == 0xA6 || magic == 0x5B
    then some (some (command_request payload))
    else if magic == 0xA7 || magic == 0x7A
    then some none
    else none

header_for_magic-read_as :
    (magic : ℕ) (payload : Bytes)
    → Option.map (λ h. request_with h payload) (header_for_magic magic) ≡ read_as magic payload
unfolding header_for_magic
header_for_magic-read_as magic payload = ground arith

-- A payload that fits the buffer and a u16 is framed for the magics of requests and responses and
-- for no other byte; the bytes used are parsed back to the data or the command request with exactly
-- that payload, as the magic says, and a frame of raw text is parsed to none.
pub parse_request_bytes-build_frame_into :
    (magic : ℕ) (payload out : Bytes)
    → 4 + length payload ≤ length out
    → length payload < 65536
    → Option.map (λ r. parse_request_bytes (take r.0 r.1)) (build_frame_into magic payload out)
      ≡ read_as magic payload
unfolding build_frame_into
parse_request_bytes-build_frame_into magic payload out fit small =
    build_with-parse (header_for_magic magic) payload out
      (λ h e. header_for_magic-IsHeaderPair magic e) fit small
    ∙ header_for_magic-read_as magic payload

pub blit-append :
    (buf src : Bytes) → length src ≤ length buf → blit buf 0 src ≡ src ++ drop (length src) buf
blit-append buf [] h = refl
blit-append [] (s ∷ src) h = absurd (omega arith)
blit-append (b ∷ buf) (s ∷ src) h = ap (◌∷◌ s) (blit-append buf src (omega arith))

header_or_data-IsHeaderPair :
    (h : Option (ℕ × ℕ))
    → ((p : ℕ × ℕ) → h ≡ some p → IsHeaderPair p)
    → IsHeaderPair (header_or_data h)
unfolding header_or_data
header_or_data-IsHeaderPair none v = inl (refl, refl)
header_or_data-IsHeaderPair (some p) v = v p refl

parse_filled :
    (out : Bytes) (h : ℕ × ℕ) (payload : Bytes)
    → IsHeaderPair h
    → 4 + length payload ≤ length out
    → length payload < 65536
    → parse_request_bytes (fill out h (length payload) payload) ≡ request_with h payload
unfolding fill
parse_filled out h payload v fit small =
    let body = take_whole payload (length payload) (omega arith) in
    ap parse_request_bytes (
      (λ i. blit out 0 (h.0 ∷ h.1 ∷ le16 (length payload) ++ body i))
      ∙ blit-append out (framed h payload) (omega arith))
    ∙ parse_framed h payload (drop (length (framed h payload)) out) v small

filled_size :
    (h : ℕ × ℕ) (n : ℕ) (payload : Bytes) → length (fill (replicate 260 0) h n payload) ≡ 260
unfolding fill
filled_size h n payload =
    length-blit (replicate 260 0) 0 (h.0 ∷ h.1 ∷ le16 n ++ take n payload)
    ∙ length-replicate {A = ℕ} 260 0

header_or_data-read_as :
    (h : Option (ℕ × ℕ)) (payload : Bytes)
    → request_with (header_or_data h) payload
      ≡ Option.get_or (Option.map (λ h. request_with h payload) h) (some (data_request payload))
unfolding header_or_data
header_or_data-read_as none payload = refl
header_or_data-read_as (some h) payload = refl

-- Every response frame has the fixed size and, cut to 256 bytes, its payload is parsed back from
-- it: as a data or a command request as the magic says, as data for an unknown magic, and to none
-- for raw text.
pub make_response_frame_lem :
    (magic : ℕ) (payload : Bytes)
    → (length (make_response_frame magic payload) ≡ 260)
      × (parse_request_bytes (make_response_frame magic payload)
          ≡ Option.get_or
              (read_as magic (take 256 payload))
              (some (data_request (take 256 payload))))
unfolding make_response_frame fill
make_response_frame_lem magic payload =
    let h = header_or_data (header_for_magic magic) in
    let v =
      header_or_data-IsHeaderPair (header_for_magic magic)
        (λ p e. header_for_magic-IsHeaderPair magic e) in
    let cut : Bytes = take 256 payload in
    let size : length cut ≡ min (length payload) 256 = length-take 256 payload ∙ omega arith in
    (
      filled_size h (min (length payload) 256) payload,
      ap
            (λ xs.
              parse_request_bytes
                (blit (replicate 260 0) 0 (h.0 ∷ h.1 ∷ le16 (min (length payload) 256) ++ xs)))
            (cut_twice payload)
          ∙ ap (λ n. parse_request_bytes (fill (replicate 260 0) h n cut)) (sym size)
          ∙ parse_filled (replicate 260 0) h cut v
              (omega (arith, length-replicate {A = ℕ} 260 0, size)) (omega (arith, size))
          ∙ header_or_data-read_as (header_for_magic magic) cut
          ∙ ap (λ r. Option.get_or r (some (data_request cut)))
              (header_for_magic-read_as magic cut),
    )
