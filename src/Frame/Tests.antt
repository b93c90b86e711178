-- ===== src/Frame/Tests.antt =====
-- The theorems on frames, at a command.
use mathlib.Core.Option
use pico_fi.Frame.{build_frame_into, make_response_frame, parse_request_bytes, data_request}
use pico_fi.Frame.RoundTrip.{read_as, parse_request_bytes-build_frame_into, make_response_frame_lem}
use pico_fi.Prelude.{length, take, replicate, Bytes, ◌≡◌, some, [], ◌∷◌, arith}

abbrev ping : Bytes
ping = 47 ∷ 112 ∷ 105 ∷ 110 ∷ 103 ∷ []

parse_request_bytes-build_frame_into_example :
    Option.map
      (λ r. parse_request_bytes (take r.0 r.1))
      (build_frame_into 0xA6 ping (replicate 16 0))
    ≡ read_as 0xA6 ping
parse_request_bytes-build_frame_into_example =
    parse_request_bytes-build_frame_into 0xA6 ping (replicate 16 0) (omega arith) (omega arith)

make_response_frame_lem_example :
    (length (make_response_frame 0xA6 ping) ≡ 260)
    × (parse_request_bytes (make_response_frame 0xA6 ping)
        ≡ Option.get_or (read_as 0xA6 (take 256 ping)) (some (data_request (take 256 ping))))
make_response_frame_lem_example = make_response_frame_lem 0xA6 ping
