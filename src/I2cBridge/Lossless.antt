-- ===== src/I2cBridge/Lossless.antt =====
-- The frames of the socket and the packet that waits in the session.
use pico_fi.OverwriteQueue.Polling.{poll_push-Holds}
use pico_fi.OverwriteQueue.{has_space_for}
use pico_fi.Commands.{Diagnostics}
use pico_fi.Config.{BridgeConfig}
use pico_fi.I2cBridge.{Session, session_round, from_net, push_frame, after_try_push, after_poll}
use pico_fi.I2cTask.Queue.{Shows, IsPacket, packet_item-IsFaithful, make_packet-some}
use pico_fi.I2cTask.{I2cPacket, packet_item}
use pico_fi.OverwriteQueue
use mathlib.Core.Option
use pico_fi.OverwriteQueue.{done, pending, poll_push, has_space_for}
use pico_fi.OverwriteQueue.Reserve.{all_taken, try_push-reserved, popped}
use pico_fi.Prelude.{
  if_true, length, Bytes, ℕ, ◌+◌, ◌≤◌, ◌<◌, ◌≡◌, refl, ap, ◌∙◌, ◌⊎◌, inl, inr, Bool, true, false,
  Option, none, some, List, [], ◌∷◌, ◌++◌, arith,
}

-- Both queues hold packets, and so is the one that waits.
pub record IsSession (s : Session) : Type 0 where
  pub rx_holds : (ps : List I2cPacket) × Shows s.i2c_rx ps
  pub tx_holds : (ps : List I2cPacket) × Shows s.i2c_tx ps
  pub waits : (p : I2cPacket) → s.unsent ≡ some p → IsPacket p

-- One poll of a packet of the capacity never refuses it.
poll_push-session :
    (q : OverwriteQueue.Mailbox) (ps : List I2cPacket) (p : I2cPacket)
    → Shows q ps
    → IsPacket p
    → (q' : OverwriteQueue.Mailbox) × (ps' : List I2cPacket) × Shows q' ps'
      × ((poll_push 128 8192 packet_item q p ≡ some (pending, q'))
          ⊎ (poll_push 128 8192 packet_item q p ≡ some (done, q')))
poll_push-session q ps p h v =
    let (q', r) = poll_push-Holds 128 8192 packet_item IsPacket packet_item-IsFaithful q ps p h v in
    elim r [
      | inl (e, why, h') ↦ absurd (never 128 refl why)
      | inr (inl (e, some_bytes, small, entries, full, h')) ↦ (q', ps, h', inl e)
      | inr (inr (e, room, h')) ↦ (q', ps ++ (p ∷ []), h', inr e)
    ]
  where
    never :
        (depth : ℕ)
        → depth ≡ 128
        → ¬ (((1 + length p.payload ≡ 0) ⊎ (8192 < 1 + length p.payload)) ⊎ (depth ≡ 0))
    never depth d (inl (inl e)) = omega arith
    never depth d (inl (inr e)) = omega (arith, v)
    never depth d (inr e) = omega arith

-- With the space that a round of the loop asks for, a frame of the socket is queued whole, behind
-- what the bus task has not popped in the meantime, and nothing else of the session changes.
pub session_round-from_net :
    (config : BridgeConfig) (link_active : Bool) (texts : Diagnostics) (s : Session)
    (ps : List I2cPacket) (k : ℕ) (payload : Bytes)
    → Shows s.i2c_tx ps
    → has_space_for 128 8192 s.i2c_tx 4097 ≡ true
    → length payload ≤ 4096
    → (q : OverwriteQueue.Mailbox) × (session_round config link_active texts (from_net k payload) s
        ≡ some (record s { i2c_tx = q }))
      × Shows q (all_taken k ps ++ (record { kind = 1; payload = payload } ∷ []))
unfolding session_round
session_round-from_net config link_active texts s ps k payload h space fits =
    let p : I2cPacket = record { kind = 1; payload = payload } in
    let (q, e, h') =
      try_push-reserved 128 8192 packet_item IsPacket packet_item-IsFaithful s.i2c_tx ps 4097 k p h
        space fits (omega arith) (omega arith) in
    (
      q,
      if_true _ space
          ∙ ap (push_frame s (popped 128 8192 packet_item k s.i2c_tx))
              (make_packet-some 1 payload fits)
          ∙ ap (Option.map (after_try_push s)) e,
      h',
    )

-- A step that does not end the session, and keeps its state.
abbrev pub GoesOn : Option Session → Type 0
GoesOn r = (s : Session) × (r ≡ some s) × ((s.ended ≡ false) × IsSession s)

-- Polling the packet that waits.
pub session_step-unsent :
    (s : Session) (p : I2cPacket)
    → s.unsent ≡ some p
    → s.ended ≡ false
    → IsSession s
    → GoesOn (Option.map (after_poll s) (poll_push 128 8192 packet_item s.i2c_tx p))
session_step-unsent s p e on v =
    let (ps, h) = v.tx_holds in
    let (q, ps', h', r) = poll_push-session s.i2c_tx ps p h (v.waits p e) in
    elim r [
      | inl waiting ↦ (
        record s { i2c_tx = q },
        ap (Option.map (after_poll s)) waiting,
        (on, record { rx_holds = v.rx_holds; tx_holds = (ps', h'); waits = v.waits }),
      )
      | inr pushed ↦ (
        record s { i2c_tx = q; unsent = none },
        ap (Option.map (after_poll s)) pushed,
        (on, record { rx_holds = v.rx_holds; tx_holds = (ps', h'); waits = λ p' e'. cc }),
      )
    ]
