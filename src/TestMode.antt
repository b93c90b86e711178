-- ===== src/TestMode.antt =====
-- src/bridge/test.rs: the commands of the TCP test mode. `pin` is the level of the LED's output.
pub mod Status
pub mod Tests
use pico_fi.Text.{codes, parse_unsigned}
use pico_fi.Prelude.{
  ◌==◌, if◌then◌else◌, Bytes, bytes_eq, ℕ, zero, suc, Bool, true, false, not, Option, none, some,
  [], ◌∷◌,
}

pub record Led : Type 0 where
  pub pin : Bool
  pub led_on : Bool

-- `str::strip_prefix`
abbrev pub strip_prefix : Bytes → Bytes → Option Bytes
strip_prefix [] line = some line
strip_prefix (p ∷ ps) [] = none
strip_prefix (p ∷ ps) (c ∷ cs) = let rest = strip_prefix ps cs in if p == c then rest else none

-- The value behind the prefix, if there is one.
abbrev pub blink_value : Option Bytes → Option ℕ
blink_value none = none
blink_value (some value) = parse_unsigned 18446744073709551615 value

unfoldable pub parse_blink_command : Bytes → Option ℕ
parse_blink_command line = blink_value (strip_prefix (codes "led blink ") line)

abbrev pub toggle : Led → Led
toggle s = record s { pin = not s.pin }

-- The loop of a blink: each round toggles twice.
abbrev pub blink : ℕ → Led → Led
blink zero s = s
blink (suc n) s = blink n (toggle (toggle s))

abbrev pub answer_blink : Led → Option ℕ → Led × Bytes
answer_blink s none = (s, codes "error unknown command")
answer_blink s (some delay_ms) = (record (blink 4 s) { led_on = false }, codes "ok blink complete")

-- The LED afterwards and the response.
unfoldable pub handle_command : Bytes → Led → Led × Bytes
unfolding parse_blink_command
handle_command line s =
    if bytes_eq line (codes "ping")
    then (s, codes "pong")
    else if bytes_eq line (codes "help")
    then (s, codes "commands: ping, led on, led off, led toggle, led blink <ms>, led status")
    else if bytes_eq line (codes "led on")
    then (record s { pin = true; led_on = true }, codes "ok led on")
    else if bytes_eq line (codes "led off")
    then (record s { pin = false; led_on = false }, codes "ok led off")
    else if bytes_eq line (codes "led toggle")
    then (
      record s { pin = not s.pin; led_on = not s.led_on },
      if not s.led_on then codes "ok led on" else codes "ok led off",
    )
    else if bytes_eq line (codes "led status")
    then (s, if s.led_on then codes "led on" else codes "led off")
    else answer_blink s (parse_blink_command line)
