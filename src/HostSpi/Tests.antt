-- ===== src/HostSpi/Tests.antt =====
-- The theorems on the SPI link, at the frames of a ping.
use pico_fi.HostSpi.{parse_response, build_request_frame}
use pico_fi.HostSpi.RoundTrip.{parse_response-response, parse_request_bytes-build_request_frame}
use pico_fi.HostI2c.{command_frame}
use pico_fi.SpiFrame.{response}
use pico_fi.Frame.{parse_request_bytes, command_request}
use pico_fi.Text.{codes}
use pico_fi.Prelude.{take, replicate, Bytes, ok, ◌≡◌, true, some, [], ◌∷◌, ◌++◌, arith}

abbrev pong : Bytes
pong = codes "pong"

abbrev ping : Bytes
ping = codes "/ping"

parse_response-response_example :
    parse_response (replicate 1 0 ++ ((response 0x5B pong).bytes ++ (0 ∷ [])))
    ≡ ok (command_frame pong)
parse_response-response_example =
    parse_response-response true 1 pong (0 ∷ []) (omega arith) (omega arith)

parse_request_bytes-build_request_frame_example :
    parse_request_bytes (build_request_frame 0xA6 ping ++ (0 ∷ []))
    ≡ some (command_request (take 256 ping))
parse_request_bytes-build_request_frame_example =
    parse_request_bytes-build_request_frame true ping (0 ∷ [])
