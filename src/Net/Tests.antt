-- ===== src/Net/Tests.antt =====
-- The theorems on the transport, at a link whose calls move two bytes each.
use pico_fi.Net.{
  exchange_link_handshake, write_bridge_frame, read_bridge_frame, bridge_frame_reader,
  read_socket_exact, finished, write_socket,
}
use pico_fi.Net.Link.{exchange_link_handshake-agree, Suffice}
use pico_fi.Net.Frames.{read_bridge_frame-write_bridge_frame}
use pico_fi.Net.Transport.{read_socket_exact-split, write_socket_complete}
use pico_fi.UartMailbox.Frames.{joined}
use pico_fi.Stream.{received}
use pico_fi.Stream.Frames.{after_frame}
use pico_fi.Stream.Payload.{IsGrant}
use pico_fi.Text.{codes}
use pico_fi.Prelude.{
  length, Bytes, bytes_eq, ℕ, ◌<◌, min, ◌≡◌, true, false, Option, some, List, [], ◌∷◌, ◌++◌, arith,
}

abbrev calls : List (Option ℕ)
calls = some 2 ∷ some 2 ∷ some 2 ∷ some 2 ∷ some 2 ∷ some 2 ∷ some 2 ∷ []

calls-Suffice : Suffice calls
calls-Suffice = ((two, (two, (two, (two, (two, (two, (two, tt))))))), omega arith)
  where
    two : 0 < 2
    two = omega arith

exchange_link_handshake-agree_example :
    let sent = (exchange_link_handshake true (codes "PICOFI1") calls calls []).out in
    let waits = exchange_link_handshake false (codes "PICOFI2") calls calls sent in
    let starts = exchange_link_handshake true (codes "PICOFI1") calls calls waits.out in
    (sent ≡ codes "PICOFI1")
    × (waits.good ≡ bytes_eq (codes "PICOFI1") (codes "PICOFI2"))
    × (waits.out ≡ [])
    × (starts.good ≡ bytes_eq (codes "PICOFI1") (codes "PICOFI2"))
unfolding bytes_eq
exchange_link_handshake-agree_example =
    exchange_link_handshake-agree (codes "PICOFI1") (codes "PICOFI2") calls calls calls calls
      calls-Suffice calls-Suffice calls-Suffice calls-Suffice (omega arith) (omega arith)

-- A driver that returns all that is there and fits.
abbrev most : ℕ → ℕ → ℕ
most room avail = min room avail

most-IsGrant : IsGrant most
most-IsGrant = record {
  some_read = λ room avail h k. omega (arith, h, k);
  fits_room = λ room avail. omega arith;
  is_there = λ room avail. omega arith;
}

read_bridge_frame-write_bridge_frame_example :
    (writes : List Bytes) × (write_bridge_frame (1 ∷ 2 ∷ 3 ∷ []) ≡ some writes)
    × (read_bridge_frame most false bridge_frame_reader
          (0 ∷ 0 ∷ 0 ∷ 0 ∷ [])
          (joined writes ++ (0xB5 ∷ []))
        ≡ record {
          outcome = received 0xB5 3;
          reader = after_frame (0xB5, 0x4E) (0xB5, 0x4E) false (0xB5 ∷ 0x4E ∷ 3 ∷ 0 ∷ []);
          payload = 1 ∷ 2 ∷ 3 ∷ 0 ∷ [];
          rest = 0xB5 ∷ [];
        })
read_bridge_frame-write_bridge_frame_example =
    read_bridge_frame-write_bridge_frame most false (0 ∷ 0 ∷ 0 ∷ 0 ∷ []) (1 ∷ 2 ∷ 3 ∷ [])
      (0xB5 ∷ []) most-IsGrant (omega arith) (omega arith)

read_socket_exact-split_example :
    let g = read_socket_exact calls 3 (5 ∷ 6 ∷ 7 ∷ 8 ∷ []) in
    (g.bytes ++ g.rest ≡ 5 ∷ 6 ∷ 7 ∷ 8 ∷ []) × (g.io ≡ finished → length g.bytes ≡ 3)
read_socket_exact-split_example = read_socket_exact-split calls 3 (5 ∷ 6 ∷ 7 ∷ 8 ∷ [])

write_socket_complete_example :
    ((write_socket calls (codes "PICOFI1")).io ≡ finished)
    × ((write_socket calls (codes "PICOFI1")).out ≡ codes "PICOFI1")
write_socket_complete_example =
    write_socket_complete calls (codes "PICOFI1") calls-Suffice.0 (omega arith)
