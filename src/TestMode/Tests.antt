-- ===== src/TestMode/Tests.antt =====
-- The theorem on the LED's status, at a toggle while the LED is on.
use pico_fi.TestMode.{Led, handle_command, parse_blink_command}
use pico_fi.TestMode.Status.{handle_command-pin}
use pico_fi.Text.{codes}
use pico_fi.Prelude.{◌≡◌, refl, inl, true}

abbrev lit : Led
lit = record { pin = true; led_on = true }

handle_command-pin_example :
    (handle_command (codes "led toggle") lit).0.led_on
    ≡ (handle_command (codes "led toggle") lit).0.pin
unfolding parse_blink_command
handle_command-pin_example = handle_command-pin (codes "led toggle") lit refl (inl refl)
