-- ===== src/UartMailbox/Frames.antt =====
-- Both ways of writing a frame put the same bytes on the stream, and those are read back.
use pico_fi.UartMailbox.{write_frame}
use pico_fi.Stream.{new_reader, read, received, is_magic}
use pico_fi.Stream.Payload.{IsGrant}
use pico_fi.Stream.Frames.{frame_of, read-frame_of, after_frame}
use pico_fi.I2cPacket.Mailboxes.{take-blit}
use pico_fi.Prelude.{
  leb, Bool-cases, length, take, replicate, length-replicate, Bytes, blit, le16, ℕ, ◌+◌, ◌/◌, ◌%◌,
  ◌≤◌, ◌<◌, ◌≡◌, refl, ap, ◌∙◌, inl, inr, Bool, true, List, [], ◌∷◌, ◌++◌, append-nil, arith,
}

-- The bytes of the calls in order.
abbrev pub joined : List Bytes → Bytes
joined [] = []
joined (w ∷ ws) = w ++ joined ws

blit_header :
    (buf body : Bytes) (a b c d : ℕ)
    → 4 ≤ length buf
    → blit (blit buf 0 (a ∷ b ∷ c ∷ d ∷ [])) 4 body ≡ blit buf 0 (a ∷ b ∷ c ∷ d ∷ body)
blit_header (w ∷ x ∷ y ∷ z ∷ buf) body a b c d h = refl
blit_header _ body a b c d h = absurd (omega arith)

pub write_frame-frame_of :
    (magic : ℕ × ℕ) (body : Bytes) → joined (write_frame magic body) ≡ frame_of magic body
unfolding write_frame
write_frame-frame_of magic body = elim (Bool-cases (leb (length body) 508)) [
  | inl short ↦
      let n : 4 + length body ≡ length (frame_of magic body) = omega arith in
      let size = length-replicate {A = ℕ} 512 0 in
      rw short (
        append-nil (
          take (4 + length body)
            (blit (blit (replicate 512 0) 0 (magic.0 ∷ magic.1 ∷ le16 (length body))) 4 body))
        ∙ ap (take (4 + length body)) (
            blit_header (replicate 512 0) body magic.0 magic.1 (length body % 256)
              (length body / 256 % 256) (omega (arith, size)))
        ∙ ap (λ m. take m (blit (replicate 512 0) 0 (frame_of magic body))) n
        ∙ take-blit (replicate 512 0) (frame_of magic body) (ground (arith, size, short)))
  | inr long ↦ rw long (ap (λ t. magic.0 ∷ magic.1 ∷ le16 (length body) ++ t) (append-nil body))
]

-- What `write_frame` writes, in one call or in two, a fresh reader that knows the magic receives
-- whole, up to the first byte of what follows.
pub read-write_frame :
    (grant : ℕ → ℕ → ℕ) (m0 m1 magic : ℕ × ℕ) (eof resync : Bool) (p body rest : Bytes)
    → IsGrant grant
    → is_magic (new_reader m0 m1 resync) magic.0 magic.1 ≡ true
    → length body ≤ length p
    → length body < 65536
    → read grant eof (new_reader m0 m1 resync) p (joined (write_frame magic body) ++ rest)
      ≡ record {
        outcome = received magic.0 (length body);
        reader = after_frame m0 m1 resync (magic.0 ∷ magic.1 ∷ le16 (length body));
        payload = blit p 0 body;
        rest = rest;
      }
read-write_frame grant m0 m1 magic eof resync p body rest g known fits small =
    ap (λ w. read grant eof (new_reader m0 m1 resync) p (w ++ rest))
      (write_frame-frame_of magic body)
    ∙ read-frame_of grant m0 m1 magic eof resync p body rest g known fits small
