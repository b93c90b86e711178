-- ===== src/I2cBridge/Endless.antt =====
-- What a step of the session leaves.
use pico_fi.I2cBridge.Lossless.{IsSession, GoesOn, session_step-unsent, session_round-from_net}
use pico_fi.I2cBridge.{step_with}
use pico_fi.OverwriteQueue.Fifo.{taken}
use mathlib.Core.Path.{subst}
use pico_fi.Net.Frames.{write_bridge_frame-write_frame}
use pico_fi.OverwriteQueue.Trace.{PoppedIsItem, try_pop-PoppedIsItem, try_pop-Shows}
use pico_fi.Commands.Replies.{reply_small}
use pico_fi.Text.{codes}
use pico_fi.I2cBridge.{
  packet_or_failure, handle_i2c_request, Request, frame, packet, nothing, failure, Ready,
  after_request, take_request, session_step, from_bus, after_pop, net_error, step_with,
}
use pico_fi.Commands.{trim_ascii_line, LedCells}
use pico_fi.OverwriteQueue.{has_space_for, try_pop}
use pico_fi.Commands.{Diagnostics}
use pico_fi.Config.{BridgeConfig}
use pico_fi.I2cBridge.{Session, session_round, from_net}
use pico_fi.I2cTask.Queue.{Shows, IsPacket, packet_item-IsFaithful, make_packet-some}
use pico_fi.I2cTask.{I2cPacket, packet_item, make_packet}
use pico_fi.OverwriteQueue
use pico_fi.OverwriteQueue.{has_space_for}
use pico_fi.OverwriteQueue.Reserve.{popped-Shows}
use pico_fi.Prelude.{
  ◌==◌, Bool-cases, if_false, if_both, length, Bytes, ℕ, ◌≤◌, ◌≡◌, refl, inl, inr, Bool, true,
  false, not, Option, none, some, List, arith,
}

-- A request that does not end the session.
abbrev IsHandled : Request → Type 0
IsHandled nothing = Unit
IsHandled (frame payload) = length payload ≤ 4096
IsHandled (packet p) = IsPacket p
IsHandled failure = ⊥

abbrev RequestIsHandled : LedCells × Request → Type 0
RequestIsHandled r = IsHandled r.1

made-IsHandled :
    (kind : ℕ) (payload : Bytes)
    → length payload ≤ 4096
    → IsHandled (packet_or_failure (make_packet kind payload))
made-IsHandled kind payload h = rw (make_packet-some kind payload h) h

handle_i2c_request-IsHandled :
    (config : BridgeConfig) (link_active : Bool) (texts : Diagnostics) (cells : LedCells)
    (p : I2cPacket)
    → length texts.cores ≤ 192
    → IsPacket p
    → RequestIsHandled (handle_i2c_request config link_active texts true cells p)
unfolding handle_i2c_request
handle_i2c_request-IsHandled config link_active texts cells p cores v =
    let short = reply_small config link_active texts cores cells (trim_ascii_line p.payload) in
    if_both RequestIsHandled (p.kind == 1)
      (λ _. if_both IsHandled (not (length p.payload == 0)) (λ _. v) (λ _. tt))
      (λ _.
        if_both RequestIsHandled (p.kind == 2) (λ _. made-IsHandled 2 _ (omega (arith, short)))
          (λ _. made-IsHandled 0x7F (codes "error invalid i2c frame") (omega arith)))

-- A session with other cells, and what a handled request leaves of it.
abbrev Kept : Session → Type 0
Kept s = (s.ended ≡ false) × IsSession s

after_request-Kept :
    (s : Session) (r : LedCells × Request)
    → s.unsent ≡ none
    → RequestIsHandled r
    → Kept s
    → Kept (after_request s r)
after_request-Kept s (cells, nothing) idle h (on, v) =
    (on, record { rx_holds = v.rx_holds; tx_holds = v.tx_holds; waits = v.waits })
after_request-Kept s (cells, frame payload) idle h (on, v) =
    rw (write_bridge_frame-write_frame payload (omega (arith, h)))
      (on, record { rx_holds = v.rx_holds; tx_holds = v.tx_holds; waits = v.waits })
after_request-Kept s (cells, packet p) idle h (on, v) = (
  on,
  record {
    rx_holds = v.rx_holds;
    tx_holds = v.tx_holds;
    waits = λ p' e. let same : p ≡ p' = cc in subst IsPacket same h;
  },
)
after_request-Kept s (cells, failure) idle h v = absurd h

module _ (config : BridgeConfig) (link_active : Bool) (texts : Diagnostics)
    (cores_fit : length texts.cores ≤ 192) where
  after_pop-Kept :
      (s : Session) (r : Option I2cPacket × OverwriteQueue.Mailbox) (ps : List I2cPacket)
      → s.unsent ≡ none
      → PoppedIsItem 128 8192 packet_item IsPacket packet_item-IsFaithful r.0
      → Shows r.1 ps
      → Kept s
      → Kept (after_pop config link_active texts s r)
  after_pop-Kept s (none, q) ps idle item h (on, v) =
      (on, record { rx_holds = (ps, h); tx_holds = v.tx_holds; waits = v.waits })
  after_pop-Kept s (some p, q) ps idle item h (on, v) =
      after_request-Kept (record s { i2c_rx = q })
        (handle_i2c_request config link_active texts true s.cells p) idle
        (handle_i2c_request-IsHandled config link_active texts s.cells p cores_fit item)
        (on, record { rx_holds = (ps, h); tx_holds = v.tx_holds; waits = v.waits })

  take_request-Kept :
      (s : Session) → s.unsent ≡ none → Kept s → Kept (take_request config link_active texts s)
  take_request-Kept s idle (on, v) =
      let (ps, h) = v.rx_holds in
      after_pop-Kept s (try_pop 128 8192 packet_item s.i2c_rx) (taken 128 8192 packet_item ps).0
        idle
        (try_pop-PoppedIsItem 128 8192 packet_item IsPacket packet_item-IsFaithful s.i2c_rx ps h)
        (try_pop-Shows 128 8192 packet_item IsPacket packet_item-IsFaithful s.i2c_rx ps h) (on, v)

  -- What the session can be given.
  abbrev pub IsReady : Ready → Type 0
  IsReady from_bus = Unit
  IsReady (from_net k payload) = length payload ≤ 4096
  IsReady net_error = ⊥

  session_round-GoesOn :
      (r : Ready) (s : Session)
      → IsReady r
      → s.unsent ≡ none
      → Kept s
      → GoesOn (session_round config link_active texts r s)
  unfolding session_round
  session_round-GoesOn from_bus s ready idle v = (_, refl, take_request-Kept s idle v)
  session_round-GoesOn (from_net k payload) s fits idle (on, v) =
      let (ps, h) = v.tx_holds in
      elim (Bool-cases (has_space_for 128 8192 s.i2c_tx 4097)) [
        | inl space ↦
            let (q, e, h') =
              session_round-from_net config link_active texts s ps k payload h space fits in
            (
              record s { i2c_tx = q },
              e,
              (on, record { rx_holds = v.rx_holds; tx_holds = (_, h'); waits = v.waits }),
            )
        | inr full ↦ (
          _,
          if_false _ full,
          (
            on,
            record {
              rx_holds = v.rx_holds;
              tx_holds = (
                _,
                popped-Shows 128 8192 packet_item IsPacket packet_item-IsFaithful k s.i2c_tx ps h,
              );
              waits = v.waits;
            },
          ),
        )
      ]
  session_round-GoesOn net_error s ready idle v = absurd ready

  step_with-GoesOn :
      (r : Ready) (s : Session) (u : Option I2cPacket)
      → s.unsent ≡ u
      → IsReady r
      → Kept s
      → GoesOn (step_with config link_active texts r s u)
  step_with-GoesOn r s none e ready v = session_round-GoesOn r s ready e v
  step_with-GoesOn r s (some p) e ready (on, v) = session_step-unsent s p e on v

  -- A step of the session for which the socket gives a frame of at most 4096 bytes or nothing, from a
  -- state whose queues hold packets, does not panic and does not end the session, and it keeps such a
  -- state: only an error of the socket ends it. The text about the cores has at most 192 bytes.
  pub session_step-GoesOn :
      (r : Ready) (s : Session)
      → IsReady r
      → s.ended ≡ false
      → IsSession s
      → GoesOn (session_step config link_active texts r s)
  unfolding session_step
  session_step-GoesOn r s ready on v = step_with-GoesOn r s s.unsent refl ready (on, v)
