-- ===== src/TestMode/Status.antt =====
-- The LED's status and its pin.
use pico_fi.Text.{codes}
use pico_fi.TestMode.{Led, handle_command, parse_blink_command, answer_blink}
use pico_fi.Prelude.{
  if◌then◌else◌, Bytes, bytes_eq, ℕ, ◌≡◌, refl, ap, ◌⊎◌, Bool, true, false, not, Option, none, some,
  arith,
}

answer_blink-pin :
    (s : Led) (delay : Option ℕ)
    → s.led_on ≡ s.pin
    → (delay ≡ none) ⊎ (s.led_on ≡ false)
    → (answer_blink s delay).0.led_on ≡ (answer_blink s delay).0.pin
answer_blink-pin s none h quiet = h
answer_blink-pin s (some n) h quiet = ground arith

-- Status and pin agree.
abbrev Agrees : Led × Bytes → Type 0
Agrees r = r.0.led_on ≡ r.0.pin

if-Agrees : (b : Bool) (x y : Led × Bytes) → Agrees x → Agrees y → Agrees (if b then x else y)
if-Agrees true x y h k = h
if-Agrees false x y h k = k

-- Every command keeps the LED's status equal to the level of its pin, unless it is a blink and the
-- LED is on.
pub handle_command-pin :
    (line : Bytes) (s : Led)
    → s.led_on ≡ s.pin
    → (parse_blink_command line ≡ none) ⊎ (s.led_on ≡ false)
    → (handle_command line s).0.led_on ≡ (handle_command line s).0.pin
unfolding handle_command
handle_command-pin line s h quiet = if-Agrees (bytes_eq line (codes "ping")) _ _ h (
    if-Agrees (bytes_eq line (codes "help")) _ _ h (
      if-Agrees (bytes_eq line (codes "led on")) _ _ refl (
        if-Agrees (bytes_eq line (codes "led off")) _ _ refl (
          if-Agrees (bytes_eq line (codes "led toggle")) _ _ (ap not h) (
            if-Agrees (bytes_eq line (codes "led status")) _ _ h
              (answer_blink-pin s (parse_blink_command line) h quiet))))))
