-- ===== src/Net/Frames.antt =====
-- Bridge frames and the frame reader.
use pico_fi.Net.{write_bridge_frame, read_bridge_frame, bridge_frame_reader}
use pico_fi.UartMailbox.{write_frame}
use pico_fi.UartMailbox.Frames.{joined, read-write_frame}
use pico_fi.Stream.{received}
use pico_fi.Stream.Frames.{after_frame}
use pico_fi.Stream.Payload.{IsGrant}
use pico_fi.Prelude.{
  ltb, leb, Bool-cases, if_true, if_false, length, Bytes, blit, le16, ℕ, ◌+◌, ◌≤◌, ◌<◌, ◌≡◌, refl,
  sym, ap, ◌∙◌, inl, inr, Bool, false, some, List, ◌∷◌, ◌++◌, arith,
}

-- Up to its length limit, the frame is written as `write_frame` of the other sessions writes it.
pub write_bridge_frame-write_frame :
    (payload : Bytes)
    → length payload < 65536
    → write_bridge_frame payload ≡ some (write_frame (0xB5, 0x4E) payload)
unfolding write_bridge_frame write_frame
write_bridge_frame-write_frame payload h =
    let short : ltb 65535 (length payload) ≡ false = ground arith in
    let same : leb (length payload + 4) 512 ≡ leb (length payload) 508 = ground arith in
    if_false _ short ∙ elim (Bool-cases (leb (length payload) 508)) [
      | inl inline ↦ if_true _ (same ∙ inline) ∙ ap some (sym (if_true _ inline))
      | inr long ↦ if_false _ (same ∙ long) ∙ ap some (sym (if_false _ long))
    ]

-- What `write_bridge_frame` writes of a payload of at most 65535 bytes, in one call or in two, a
-- fresh `bridge_frame_reader` at the other end receives whole into a buffer that it fits, up to the
-- first byte of what follows.
pub read_bridge_frame-write_bridge_frame :
    (grant : ℕ → ℕ → ℕ) (eof : Bool) (buf payload rest : Bytes)
    → IsGrant grant
    → length payload ≤ length buf
    → length payload < 65536
    → (writes : List Bytes) × (write_bridge_frame payload ≡ some writes)
      × (read_bridge_frame grant eof bridge_frame_reader buf (joined writes ++ rest) ≡ record {
        outcome = received 0xB5 (length payload);
        reader = after_frame (0xB5, 0x4E) (0xB5, 0x4E) false (0xB5 ∷ 0x4E ∷ le16 (length payload));
        payload = blit buf 0 payload;
        rest = rest;
      })
read_bridge_frame-write_bridge_frame grant eof buf payload rest g fits small = (
  write_frame (0xB5, 0x4E) payload,
  write_bridge_frame-write_frame payload small,
  read-write_frame grant (0xB5, 0x4E) (0xB5, 0x4E) (0xB5, 0x4E) eof false buf payload rest g refl
      fits small,
)
