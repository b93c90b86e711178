-- ===== src/I2cBridge/Tests.antt =====
-- The theorems on the session and on the space that it has seen, at its start with empty queues.
use pico_fi.Config.{BridgeConfig, dhcp_mode, tcp_server, usb, uart0}
use pico_fi.Text.{codes}
use pico_fi.Commands.{Diagnostics, initial_cells}
use pico_fi.I2cBridge.{Session, from_net, session_round, session_step}
use pico_fi.I2cBridge.Lossless.{IsSession, GoesOn, session_round-from_net}
use pico_fi.I2cBridge.Endless.{session_step-GoesOn}
use pico_fi.I2cTask.Queue.{Shows, new_queue, new_queue-Shows, IsPacket, packet_item-IsFaithful}
use pico_fi.I2cTask.{packet_item}
use pico_fi.OverwriteQueue
use pico_fi.OverwriteQueue.{try_push}
use pico_fi.OverwriteQueue.Reserve.{all_taken, popped, try_push-reserved}
use pico_fi.Prelude.{ok, ◌≡◌, refl, true, false, none, some, [], ◌∷◌, ◌++◌, arith}

abbrev station : BridgeConfig
station = record {
  discovery = false;
  mac_address = record { a = 2; b = 0; c = 0; d = 0; e = 0; f = 1 };
  address_mode = dhcp_mode;
  bridge_mode = tcp_server 7000;
  upstream_mode = usb;
  uart_port = uart0;
}

abbrev texts : Diagnostics
texts = record { cores = []; queues = []; spi = [] }

abbrev fresh : Session
fresh = record {
  i2c_rx = new_queue;
  i2c_tx = new_queue;
  cells = initial_cells;
  unsent = none;
  sent = [];
  ended = false;
}

fresh-IsSession : IsSession fresh
fresh-IsSession = record {
  rx_holds = ([], new_queue-Shows);
  tx_holds = ([], new_queue-Shows);
  waits = λ p e. cc;
}

session_round-from_net_example :
    (q : OverwriteQueue.Mailbox) × (session_round station true texts (from_net 1 (codes "go")) fresh
      ≡ some (record fresh { i2c_tx = q }))
    × Shows q (all_taken 1 [] ++ (record { kind = 1; payload = codes "go" } ∷ []))
unfolding OverwriteQueue.has_space_for OverwriteQueue.new_state
session_round-from_net_example =
    session_round-from_net station true texts fresh [] 1 (codes "go") new_queue-Shows refl
      (omega arith)

session_step-GoesOn_example :
    GoesOn (session_step station true texts (from_net 1 (codes "go")) fresh)
session_step-GoesOn_example =
    session_step-GoesOn station true texts (omega arith) (from_net 1 (codes "go")) fresh
      (omega arith) refl fresh-IsSession

try_push-reserved_example :
    (q : OverwriteQueue.Mailbox) × (try_push 128 8192 packet_item
        (popped 128 8192 packet_item 2 new_queue)
        (record { kind = 1; payload = codes "go" })
      ≡ some (ok tt, q))
    × Shows q (all_taken 2 [] ++ (record { kind = 1; payload = codes "go" } ∷ []))
unfolding OverwriteQueue.has_space_for OverwriteQueue.new_state
try_push-reserved_example =
    try_push-reserved 128 8192 packet_item IsPacket packet_item-IsFaithful new_queue [] 4097 2
      (record { kind = 1; payload = codes "go" }) new_queue-Shows refl (omega arith) (omega arith)
      (omega arith)
