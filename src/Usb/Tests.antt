-- ===== src/Usb/Tests.antt =====
-- The theorems on the USB port, at a command and at bytes that only begin like one.
use pico_fi.Config.{BridgeConfig, dhcp_mode, tcp_server, usb, uart0}
use pico_fi.Text.{codes}
use pico_fi.Commands.{Diagnostics, initial_cells}
use pico_fi.Usb.{handle_usb_input, new_command_state, write_usb_packet}
use pico_fi.Usb.Input.{forwarded, AllToSocket, IsState, handle_usb_input-Conserves}
use pico_fi.Usb.Lines.{
  executed, joined, ArePackets, handle_usb_input-command, write_usb_packet-joined,
}
use pico_fi.Prelude.{replicate, Bytes, ◌≡◌, refl, inr, true, false, [], ◌∷◌, ◌++◌, arith}

abbrev station : BridgeConfig
station = record {
  discovery = false;
  mac_address = record { a = 2; b = 0; c = 0; d = 0; e = 0; f = 1 };
  address_mode = dhcp_mode;
  bridge_mode = tcp_server 7000;
  upstream_mode = usb;
  uart_port = uart0;
}

abbrev texts : Diagnostics
texts = record { cores = []; queues = []; spi = [] }

handle_usb_input-command_example :
    handle_usb_input station true texts true initial_cells new_command_state
      (47 ∷ codes "ping" ++ (13 ∷ 10 ∷ []))
    ≡ executed station true texts initial_cells (47 ∷ codes "ping")
handle_usb_input-command_example =
    handle_usb_input-command station true texts true initial_cells [] (codes "ping") (13 ∷ 10 ∷ [])
      (refl, (refl, (refl, (refl, tt)))) (omega arith) (inr refl)

-- A control character ends the hope for a command.
abbrev typed : Bytes
typed = 47 ∷ 97 ∷ 7 ∷ 98 ∷ []

handle_usb_input-Conserves_example :
    let r = handle_usb_input station true texts true initial_cells new_command_state typed in
    (forwarded r.2 ++ r.1.buf ≡ [] ++ typed) × IsState r.1 × (r.0 ≡ initial_cells) × AllToSocket r.2
handle_usb_input-Conserves_example =
    handle_usb_input-Conserves station true texts initial_cells new_command_state typed (λ _. refl)
      (
        (λ e. omega arith),
        (
          (λ e. omega arith),
          (
            (λ e. omega arith),
            (
              (λ e. omega arith),
              (
                (λ e. omega arith),
                ((λ e. omega arith), ((λ e. omega arith), ((λ e. omega arith), tt))),
              ),
            ),
          ),
        ),
      )

write_usb_packet-joined_example :
    (joined (write_usb_packet (replicate 65 7)) ≡ replicate 65 7)
    × ArePackets (write_usb_packet (replicate 65 7))
write_usb_packet-joined_example = write_usb_packet-joined (replicate 65 7)
