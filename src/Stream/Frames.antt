-- ===== src/Stream/Frames.antt =====
-- A whole frame that arrives is received.
use pico_fi.Stream.Payload.{IsGrant, copied}
use pico_fi.Stream.Resume.{read_payload-copied, after_header_full, read_header, header_loop_full}
use pico_fi.Stream.{
  FrameReader, new_reader, header_byte, header_loop, is_magic, is_first, finish_payload, received,
  read, after_header,
}
use pico_fi.Prelude.{
  ltb, length, length-append, take-append, drop-append, Bytes, at, blit, le16, ok, ℕ, ◌+◌, ◌-◌, ◌*◌,
  ◌/◌, ◌%◌, ◌≤◌, ◌<◌, min, ◌≡◌, refl, ap, ◌∙◌, Bool, true, false, [], ◌∷◌, ◌++◌, arith,
}

abbrev pub after_frame : ℕ × ℕ → ℕ × ℕ → Bool → Bytes → FrameReader
after_frame m0 m1 resync header = record (new_reader m0 m1 resync) { header = header }

header_loop_byte :
    (r t : FrameReader) (b : ℕ) (input : Bytes)
    → ltb r.header_len 4 ≡ true
    → header_byte r b ≡ ok t
    → header_loop r (b ∷ input) ≡ header_loop t input
unfolding header_loop
header_loop_byte r t b input h e = rw (h, e, header_byte) refl

-- The reader after `n` bytes of the header.
abbrev reading : ℕ × ℕ → ℕ × ℕ → Bool → Bytes → ℕ → FrameReader
reading m0 m1 resync header n = record (new_reader m0 m1 resync) { header = header; header_len = n }

first_byte :
    (m0 m1 : ℕ × ℕ) (resync : Bool) (a : ℕ)
    → is_first (new_reader m0 m1 resync) a ≡ true
    → header_byte (new_reader m0 m1 resync) a ≡ ok (reading m0 m1 resync (a ∷ 0 ∷ 0 ∷ 0 ∷ []) 1)
unfolding header_byte
first_byte m0 m1 resync a f = rw f refl

second_byte :
    (m0 m1 : ℕ × ℕ) (resync : Bool) (a b : ℕ)
    → is_magic (new_reader m0 m1 resync) a b ≡ true
    → header_byte (reading m0 m1 resync (a ∷ 0 ∷ 0 ∷ 0 ∷ []) 1) b
      ≡ ok (reading m0 m1 resync (a ∷ b ∷ 0 ∷ 0 ∷ []) 2)
unfolding header_byte
second_byte m0 m1 resync a b h = rw h refl

header_loop_magic :
    (m0 m1 : ℕ × ℕ) (resync : Bool) (a b c d : ℕ) (input : Bytes)
    → is_magic (new_reader m0 m1 resync) a b ≡ true
    → header_loop (new_reader m0 m1 resync) (a ∷ b ∷ c ∷ d ∷ input)
      ≡ (ok (reading m0 m1 resync (a ∷ b ∷ c ∷ d ∷ []) 4), input)
unfolding header_byte
header_loop_magic m0 m1 resync a b c d input h =
    let f : is_first (new_reader m0 m1 resync) a ≡ true = ground (arith, h) in
    header_loop_byte (new_reader m0 m1 resync) _ a _ refl (first_byte m0 m1 resync a f)
    ∙ header_loop_byte (reading m0 m1 resync (a ∷ 0 ∷ 0 ∷ 0 ∷ []) 1) _ b _ refl
        (second_byte m0 m1 resync a b h)
    ∙ header_loop_byte (reading m0 m1 resync (a ∷ b ∷ 0 ∷ 0 ∷ []) 2)
        (reading m0 m1 resync (a ∷ b ∷ c ∷ 0 ∷ []) 3) c _ refl refl
    ∙ header_loop_byte (reading m0 m1 resync (a ∷ b ∷ c ∷ 0 ∷ []) 3)
        (reading m0 m1 resync (a ∷ b ∷ c ∷ d ∷ []) 4) d _ refl refl
    ∙ header_loop_full (reading m0 m1 resync (a ∷ b ∷ c ∷ d ∷ []) 4) input refl

-- A frame is its magic, the length of its body and the body.
abbrev pub frame_of : ℕ × ℕ → Bytes → Bytes
frame_of magic body = magic.0 ∷ magic.1 ∷ le16 (length body) ++ body

finish_whole :
    (grant : ℕ → ℕ → ℕ) (eof : Bool) (r : FrameReader) (len : ℕ) (p rest : Bytes)
    → finish_payload grant eof r len (len, p, rest) ≡ record {
      outcome = received (at r.header 0) len;
      reader = record r { header_len = 0; payload_read = 0 };
      payload = p;
      rest = rest;
    }
unfolding finish_payload
finish_whole grant eof r len p rest = let e : ltb len len ≡ false = ground arith in rw e refl

-- On a fresh reader that knows the magic, a frame whose body fits the buffer is received whole: the
-- kind is the first byte, the body stands at the start of the buffer, and what follows the frame is
-- left in the input.
pub read-frame_of :
    (grant : ℕ → ℕ → ℕ) (m0 m1 magic : ℕ × ℕ) (eof resync : Bool) (p body rest : Bytes)
    → IsGrant grant
    → is_magic (new_reader m0 m1 resync) magic.0 magic.1 ≡ true
    → length body ≤ length p
    → length body < 65536
    → read grant eof (new_reader m0 m1 resync) p (frame_of magic body ++ rest) ≡ record {
      outcome = received magic.0 (length body);
      reader = after_frame m0 m1 resync (magic.0 ∷ magic.1 ∷ le16 (length body));
      payload = blit p 0 body;
      rest = rest;
    }
read-frame_of grant m0 m1 magic eof resync p body rest g known fits small =
    let n = length body in
    let r = reading m0 m1 resync (magic.0 ∷ magic.1 ∷ le16 n) 4 in
    let len : n % 256 + 256 * (n / 256 % 256) ≡ n = omega arith in
    let room : ltb (length p) n ≡ false = ground arith in
    let all : min (n - 0) (length (body ++ rest)) ≡ n = omega (arith, length-append body rest) in
    let sum : 0 + n ≡ n = omega arith in
    read_header grant g eof (new_reader m0 m1 resync) p (frame_of magic body ++ rest)
    ∙ ap (after_header grant eof p) (
        header_loop_magic m0 m1 resync magic.0 magic.1 (n % 256) (n / 256 % 256) (body ++ rest)
          known)
    ∙ after_header_full grant g eof r p (body ++ rest) refl
    ∙ read_payload-copied grant g eof r p (body ++ rest) n len room
    ∙ ap (λ m. finish_payload grant eof r n (copied m 0 p (body ++ rest))) all
    ∙ (λ i.
        finish_payload grant eof r n
          (sum i, blit p 0 (take-append body rest i), drop-append body rest i))
    ∙ finish_whole grant eof r n (blit p 0 body) rest
