-- ===== src/I2cTask/Runs.antt =====
-- The bus task and the bridge's session on their shared queues, in any order of their steps.
use pico_fi.Commands.{Diagnostics, LedCells}
use pico_fi.Config.{BridgeConfig}
use mathlib.Core.Option
use pico_fi.OverwriteQueue
use pico_fi.OverwriteQueue.{has_space_for, try_push, try_pop}
use pico_fi.OverwriteQueue.Reserve.{try_push-reserved}
use pico_fi.I2cTask.{BusTask, I2cPacket, packet_item, new_task}
use pico_fi.I2cTask.Poll.{Transaction, ReadEnd, poll_round}
use pico_fi.I2cTask.Queue.{Shows, IsPacket, packet_item-IsFaithful}
use pico_fi.I2cTask.Answers.{popped-Shows}
use pico_fi.I2cTask.Safety.{IsTask, Safe, new_task-IsTask}
use pico_fi.I2cTask.Rounds.{poll_round-Safe}
use pico_fi.Prelude.{
  if◌then◌else◌, if_both, Result, ℕ, refl, ap, ◌∙◌, Bool, Option, some, List, [], ◌∷◌, arith,
}

-- A round of the bus task, the session's pop of a request, or its push of a response where it has
-- seen the space for one.
pub data Event : Type 0 where
  round : ℕ → Transaction → ReadEnd → ReadEnd → Event
  fetch : Event
  respond : I2cPacket → Event

abbrev pub with_rx_resp : BusTask → Result I2cPacket (Unit {0}) × OverwriteQueue.Mailbox → BusTask
with_rx_resp s (r, q) = record s { rx_resp = q }

module _ (config : BridgeConfig) (link_active : Bool) (texts : Diagnostics) where
  abbrev pub happen : Event → BusTask → Option BusTask
  happen (round now t first second) s =
      Option.map (λ r. r.0) (poll_round config link_active texts now t first second s)
  happen fetch s = some (record s { tx = (try_pop 128 8192 packet_item s.tx).1 })
  happen (respond p) s =
      if has_space_for 128 8192 s.rx_resp 4097
      then Option.map (with_rx_resp s) (try_push 128 8192 packet_item s.rx_resp p)
      else some s

  abbrev pub happen_all : List Event → BusTask → Option BusTask
  happen_all [] s = some s
  happen_all (e ∷ events) s = Option.bind (happen e s) (happen_all events)

  -- The packets that the session makes are within their capacity.
  abbrev pub AllFit : List Event → Type 0
  AllFit [] = Unit
  AllFit (respond p ∷ events) = IsPacket p × AllFit events
  AllFit (fetch ∷ events) = AllFit events
  AllFit (round now t first second ∷ events) = AllFit events

  respond-Safe : (s : BusTask) (p : I2cPacket) → IsPacket p → IsTask s → Safe (happen (respond p) s)
  respond-Safe s p fits v =
      let (ps, h) = v.rx_resp_holds in
      if_both Safe (has_space_for 128 8192 s.rx_resp 4097)
        (λ space.
          let (q, e, h') =
            try_push-reserved 128 8192 packet_item IsPacket packet_item-IsFaithful s.rx_resp ps 4097
              0 p h space fits (omega arith) (omega (arith, fits)) in
          (
            record s { rx_resp = q },
            ap (Option.map (with_rx_resp s)) e,
            record {
              rx_is = v.rx_is;
              tx_is = v.tx_is;
              mailbox_is = v.mailbox_is;
              tx_holds = v.tx_holds;
              rx_resp_holds = (_, h');
            },
          ))
        (λ _. (s, refl, v))

  happen_all-Safe :
      (events : List Event) (s : BusTask) → AllFit events → IsTask s → Safe (happen_all events s)
  unfolding Option.bind
  happen_all-Safe [] s fits v = (s, refl, v)
  happen_all-Safe (round now t first second ∷ events) s fits v =
      let (s', out, e, v') = poll_round-Safe config link_active texts now t first second s v in
      let (s'', e', v'') = happen_all-Safe events s' fits v' in
      (s'', ap (λ r. Option.bind (Option.map (λ r. r.0) r) (happen_all events)) e ∙ e', v'')
  happen_all-Safe (fetch ∷ events) s fits v =
      let (ps, h) = v.tx_holds in
      happen_all-Safe events (record s { tx = (try_pop 128 8192 packet_item s.tx).1 }) fits
        (record {
          rx_is = v.rx_is;
          tx_is = v.tx_is;
          mailbox_is = v.mailbox_is;
          tx_holds = (_, popped-Shows s.tx ps h);
          rx_resp_holds = v.rx_resp_holds;
        })
  happen_all-Safe (respond p ∷ events) s (fit, fits) v =
      let (s', e, v') = respond-Safe s p fit v in
      let (s'', e', v'') = happen_all-Safe events s' fits v' in
      (s'', ap (λ r. Option.bind r (happen_all events)) e ∙ e', v'')

  -- From its start on, with queues that hold packets, neither the slot decoder nor the mailbox nor a
  -- queue makes the bus task panic: whatever the master sends and however it ends its reads, and
  -- whenever the session pops requests and pushes responses of at most 4096 bytes, what was
  -- received lies within its announced length and that within the buffer, what was sent lies
  -- within what is staged and that within the buffer, the mailbox is valid and the queues hold
  -- packets.
  pub happen_all-new_task :
      (cells : LedCells) (tx rx_resp : OverwriteQueue.Mailbox) (ps qs : List I2cPacket)
      (events : List Event)
      → Shows tx ps
      → Shows rx_resp qs
      → AllFit events
      → Safe (happen_all events (new_task cells tx rx_resp))
  happen_all-new_task cells tx rx_resp ps qs events h k fits =
      happen_all-Safe events (new_task cells tx rx_resp) fits
        (new_task-IsTask cells tx rx_resp ps qs h k)
