-- ===== src/Commands/Replies.antt =====
-- The lengths of the replies to the local commands.
use pico_fi.Config.{BridgeConfig}
use pico_fi.Text.{codes}
use pico_fi.Config.Render.{render_config}
use pico_fi.Commands.{render_local_bridge_command, Diagnostics, LedCells, fitted, led_status_text}
use pico_fi.Prelude.{leb, if◌then◌else◌, if_both, length, Bytes, bytes_eq, ◌≤◌, Bool, arith}

fitted-small : (text : Bytes) → length (fitted text) ≤ 192
fitted-small text =
    if_both (λ (t : Bytes). length t ≤ 192) (leb (length text) 192) (λ e. ground arith)
      (λ _. omega arith)

-- A reply, with the cells.
abbrev IsShort : LedCells × Bytes → Type 0
IsShort r = length r.1 ≤ 192

-- Every reply has at most 192 bytes, as the text about the cores has.
pub reply_small :
    (config : BridgeConfig) (link_active : Bool) (texts : Diagnostics)
    → length texts.cores ≤ 192
    → (cells : LedCells) (line : Bytes)
    → length (render_local_bridge_command config link_active texts cells line).1 ≤ 192
unfolding render_local_bridge_command
reply_small config link_active texts cores_fit cells line =
    if_both IsShort (bytes_eq line (codes "/help"))
      (λ _. fitted-small (
        codes
          "pico commands: /help /show /ping /link /spi /queues /cores /led <on|off|toggle|auto|status>"))
      (λ _.
        if_both IsShort (bytes_eq line (codes "/show")) (λ _. fitted-small (render_config config))
          (λ _.
            if_both IsShort (bytes_eq line (codes "/ping")) (λ _. fitted-small (codes "pong"))
              (λ _.
                if_both IsShort (bytes_eq line (codes "/link"))
                  (λ _. fitted-small (if link_active then codes "link up" else codes "link down"))
                  (λ _.
                    if_both IsShort (bytes_eq line (codes "/cores")) (λ _. cores_fit)
                      (λ _.
                        if_both IsShort (bytes_eq line (codes "/queues"))
                          (λ _. fitted-small (texts.queues))
                          (λ _.
                            if_both IsShort (bytes_eq line (codes "/spi"))
                              (λ _. fitted-small (texts.spi))
                              (λ _.
                                if_both IsShort (bytes_eq line (codes "/led on"))
                                  (λ _. fitted-small (codes "ok led on"))
                                  (λ _.
                                    if_both IsShort (bytes_eq line (codes "/led off"))
                                      (λ _. fitted-small (codes "ok led off"))
                                      (λ _.
                                        if_both IsShort (bytes_eq line (codes "/led toggle"))
                                          (λ _. fitted-small (codes "ok led toggle"))
                                          (λ _.
                                            if_both IsShort (bytes_eq line (codes "/led auto"))
                                              (λ _. fitted-small (codes "ok led auto"))
                                              (λ _.
                                                if_both IsShort
                                                  (bytes_eq line (codes "/led status"))
                                                  (λ _. fitted-small (led_status_text cells))
                                                  (λ _.
                                                    fitted-small (
                                                      codes
                                                        "error unknown pico command")))))))))))))
