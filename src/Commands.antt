-- ===== src/Commands.antt =====
-- src/bridge/commands.rs: the local commands of the bridge and the LED's mailbox between the cores.
-- The replies that print diagnostics of other parts are an argument.
pub mod Replies
use pico_fi.Config.{BridgeConfig}
use pico_fi.Config.Render.{render_config}
use pico_fi.Text.{codes, trim_matches}
use pico_fi.Prelude.{
  leb, ◌==◌, if◌then◌else◌, length, Bytes, bytes_eq, ℕ, Bool, not, ◌||◌, Option, none, some, [],
}

abbrev pub led_mode_auto : ℕ
led_mode_auto = 0

abbrev pub led_mode_off : ℕ
led_mode_off = 1

abbrev pub led_mode_on : ℕ
led_mode_on = 2

abbrev pub led_mode_toggle : ℕ
led_mode_toggle = 3

-- The static cells of this file.
pub record LedCells : Type 0 where
  pub led_command : ℕ
  pub led_state : ℕ
  pub led_activity_pulses : ℕ

abbrev pub initial_cells : LedCells
initial_cells = record { led_command = 0; led_state = 1; led_activity_pulses = 0 }

unfoldable pub take_led_command : LedCells → LedCells × Option ℕ
take_led_command s = (
  record s { led_command = led_mode_auto },
  if s.led_command == led_mode_auto then none else some s.led_command,
)

unfoldable pub set_led_state : LedCells → Bool → LedCells
set_led_state s on = record s { led_state = if on then led_mode_on else led_mode_off }

unfoldable pub take_led_activity : LedCells → LedCells × Bool
take_led_activity s = (record s { led_activity_pulses = 0 }, not (s.led_activity_pulses == 0))

abbrev pub led_status_text : LedCells → Bytes
led_status_text s = if s.led_state == led_mode_on then codes "led on" else codes "led off"

-- `String::<192>::push_str` on an empty text
abbrev pub fitted : Bytes → Bytes
fitted s = if leb (length s) 192 then s else []

-- The texts of the other parts: of the cores' counters, of the queues' counters and of the SPI
-- diagnostics. The first is written piece by piece by the formatter.
pub record Diagnostics : Type 0 where
  pub cores : Bytes
  pub queues : Bytes
  pub spi : Bytes

-- The cells afterwards and the reply.
unfoldable pub render_local_bridge_command :
    BridgeConfig → Bool → Diagnostics → LedCells → Bytes → LedCells × Bytes
render_local_bridge_command config link_active texts s line =
    if bytes_eq line (codes "/help")
    then (
      s,
      fitted (
          codes
            "pico commands: /help /show /ping /link /spi /queues /cores /led <on|off|toggle|auto|status>"),
    )
    else if bytes_eq line (codes "/show")
    then (s, fitted (render_config config))
    else if bytes_eq line (codes "/ping")
    then (s, fitted (codes "pong"))
    else if bytes_eq line (codes "/link")
    then (s, fitted (if link_active then codes "link up" else codes "link down"))
    else if bytes_eq line (codes "/cores")
    then (s, texts.cores)
    else if bytes_eq line (codes "/queues")
    then (s, fitted texts.queues)
    else if bytes_eq line (codes "/spi")
    then (s, fitted texts.spi)
    else if bytes_eq line (codes "/led on")
    then (record s { led_command = led_mode_on }, fitted (codes "ok led on"))
    else if bytes_eq line (codes "/led off")
    then (record s { led_command = led_mode_off }, fitted (codes "ok led off"))
    else if bytes_eq line (codes "/led toggle")
    then (record s { led_command = led_mode_toggle }, fitted (codes "ok led toggle"))
    else if bytes_eq line (codes "/led auto")
    then (record s { led_command = led_mode_auto }, fitted (codes "ok led auto"))
    else if bytes_eq line (codes "/led status")
    then (s, fitted (led_status_text s))
    else (s, fitted (codes "error unknown pico command"))

-- On valid text; what is not UTF-8 is taken for the empty text.
unfoldable pub trim_ascii_line : Bytes → Bytes
trim_ascii_line buf = trim_matches (λ c. c == 13 || c == 10 || c == 32 || c == 9) buf
