-- ===== src/Stream.antt =====
-- src/protocol/stream.rs: `FrameReader`. The input of one call is the list of the bytes that
-- arrive while it runs; `grant` is the driver's choice of how many bytes one read of the payload
-- returns, for the room and for the bytes that are there. `pending` is a call that is cancelled
-- while it waits, and `eof` tells whether the end of the input stands in place of waiting.
pub mod Payload
pub mod Resume
pub mod Frames
use pico_fi.Prelude.{
  ltb, ◌==◌, if◌then◌else◌, length, set, take, drop, Bytes, at, blit, from_le16, Result, ok, err, ℕ,
  zero, suc, ◌+◌, ◌-◌, Bool, not, ◌&&◌, ◌||◌, [], ◌∷◌,
}

pub record FrameReader : Type 0 where
  pub magic0 : ℕ × ℕ
  pub magic1 : ℕ × ℕ
  pub resync : Bool
  pub header : Bytes
  pub header_len : ℕ
  pub payload_read : ℕ

abbrev pub new_reader : ℕ × ℕ → ℕ × ℕ → Bool → FrameReader
new_reader m0 m1 resync = record {
  magic0 = m0;
  magic1 = m1;
  resync = resync;
  header = 0 ∷ 0 ∷ 0 ∷ 0 ∷ [];
  header_len = 0;
  payload_read = 0;
}

abbrev pub reset_reader : FrameReader → FrameReader
reset_reader r = record r { header_len = 0; payload_read = 0 }

-- `magic.iter().any(|m| m[0] == b)`
abbrev pub is_first : FrameReader → ℕ → Bool
is_first r b = (r.magic0.0 == b) || (r.magic1.0 == b)

-- `magic.iter().any(|m| *m == [a, b])`
abbrev pub is_magic : FrameReader → ℕ → ℕ → Bool
is_magic r a b =
    ((r.magic0.0 == a) && (r.magic0.1 == b)) || ((r.magic1.0 == a) && (r.magic1.1 == b))

-- The bad second byte begins a new header where it is a first one.
unfoldable pub restart : FrameReader → ℕ → FrameReader
restart r last =
    let r0 = reset_reader r in
    if is_first r last then record r0 { header = set r.header 0 last; header_len = 1 } else r0

-- One more header byte; `err` is `Err(())`, with the reader that it leaves.
unfoldable pub header_byte : FrameReader → ℕ → Result FrameReader FrameReader
unfolding restart
header_byte r b =
    let t = record r { header = set r.header r.header_len b; header_len = r.header_len + 1 } in
    if t.header_len == 1 && not (is_first t (at t.header 0))
    then (if t.resync then ok (reset_reader t) else err (reset_reader t))
    else if t.header_len == 2 && not (is_magic t (at t.header 0) (at t.header 1))
    then (if t.resync then ok (restart t (at t.header 1)) else err (reset_reader t))
    else ok t

-- The header loop: the reader where it stops, and the bytes that are left.
unfoldable pub header_loop : FrameReader → Bytes → Result FrameReader FrameReader × Bytes
unfolding header_byte
header_loop r [] = (ok r, [])
header_loop r (b ∷ input) =
    if ltb r.header_len 4
    then elim (header_byte r b) [ ok t ↦ header_loop t input | err t ↦ (err t, input) ]
    else (ok r, b ∷ input)

pub data Outcome : Type 0 where
  pending : Outcome
  received : ℕ → ℕ → Outcome
  failed : Outcome

-- What a call leaves: the outcome, the reader, the payload buffer and the bytes not consumed.
pub record Left : Type 0 where
  pub outcome : Outcome
  pub reader : FrameReader
  pub payload : Bytes
  pub rest : Bytes

-- Waiting for input that is not there: the end of the input is an error.
abbrev pub wait : Bool → FrameReader → Bytes → Left
wait eof r payload =
    if eof
    then record { outcome = failed; reader = reset_reader r; payload = payload; rest = [] }
    else record { outcome = pending; reader = r; payload = payload; rest = [] }

module _ (grant : ℕ → ℕ → ℕ) where
  -- The payload loop on fuel: the bytes read so far, the buffer and the bytes that are left.
  unfoldable pub payload_loop : ℕ → ℕ → ℕ → Bytes → Bytes → ℕ × Bytes × Bytes
  payload_loop zero len done payload input = (done, payload, input)
  payload_loop (suc fuel) len done payload [] = (done, payload, [])
  payload_loop (suc fuel) len done payload (b ∷ input) =
      let n = grant (len - done) (length (b ∷ input)) in
      let next =
        payload_loop fuel len (done + n) (blit payload done (take n (b ∷ input)))
          (drop n (b ∷ input)) in
      if ltb done len then next else (done, payload, b ∷ input)

  -- After the payload loop.
  unfoldable pub finish_payload : Bool → FrameReader → ℕ → ℕ × Bytes × Bytes → Left
  finish_payload eof r len (done, payload, rest) =
      let t = record r { payload_read = done } in
      if ltb done len then wait eof t payload else record {
        outcome = received (at t.header 0) len;
        reader = reset_reader t;
        payload = payload;
        rest = rest;
      }

  -- After the header loop. Each read of the payload takes a byte at least: `len` reads are enough.
  unfoldable pub read_payload : Bool → FrameReader → Bytes → Bytes → Left
  unfolding payload_loop finish_payload
  read_payload eof r payload input =
      let len = from_le16 (at r.header 2) (at r.header 3) in
      if ltb (length payload) len
      then record { outcome = failed; reader = reset_reader r; payload = payload; rest = input }
      else finish_payload eof r len (payload_loop len len r.payload_read payload input)

  unfoldable pub after_header : Bool → Bytes → Result FrameReader FrameReader × Bytes → Left
  unfolding read_payload
  after_header eof payload (err r, rest) = record {
    outcome = failed;
    reader = r;
    payload = payload;
    rest = rest;
  }
  after_header eof payload (ok r, rest) =
      if ltb r.header_len 4 then wait eof r payload else read_payload eof r payload rest

  unfoldable pub read : Bool → FrameReader → Bytes → Bytes → Left
  unfolding after_header header_loop
  read eof r payload input = after_header eof payload (header_loop r input)
