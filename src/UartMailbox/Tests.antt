-- ===== src/UartMailbox/Tests.antt =====
-- The theorems on frames and their reader, at one frame that arrives in two parts.
use pico_fi.Stream.{FrameReader, new_reader, read}
use pico_fi.Stream.Payload.{IsGrant}
use pico_fi.Stream.Resume.{read-append}
use pico_fi.Prelude.{Bytes, ℕ, min, ◌≡◌, refl, false, [], ◌∷◌, ◌++◌, arith}

-- A driver that returns all that is there and fits.
abbrev most : ℕ → ℕ → ℕ
most room avail = min room avail

most-IsGrant : IsGrant most
most-IsGrant = record {
  some_read = λ room avail h k. omega (arith, h, k);
  fits_room = λ room avail. omega arith;
  is_there = λ room avail. omega arith;
}

abbrev magic : ℕ × ℕ
magic = (0xB5, 0x4E)

abbrev fresh : FrameReader
fresh = new_reader magic magic false

abbrev buffer : Bytes
buffer = 0 ∷ 0 ∷ 0 ∷ 0 ∷ 0 ∷ 0 ∷ []

abbrev first_part : Bytes
first_part = 0xB5 ∷ 0x4E ∷ 3 ∷ 0 ∷ 10 ∷ []

abbrev second_part : Bytes
second_part = 11 ∷ 12 ∷ 0xB5 ∷ []

read-append_example :
    read most false
      (read most false fresh buffer first_part).reader
      (read most false fresh buffer first_part).payload
      second_part
    ≡ read most false fresh buffer (first_part ++ second_part)
unfolding read
read-append_example = read-append most most-IsGrant false fresh buffer first_part second_part refl
