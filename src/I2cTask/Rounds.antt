-- ===== src/I2cTask/Rounds.antt =====
-- One round of the bus task, whatever the master does.
use pico_fi.I2cTask.Handlers.{handle_write_slot-Safe}
use pico_fi.I2cTask.Answers.{
  SafeRound, stage_or_keep-IsValid, read_v2-Safe, read_slots-IsTask, recover_i2c_state-IsTask,
}
use pico_fi.Text.{codes}
use pico_fi.Commands.{Diagnostics}
use pico_fi.Config.{BridgeConfig}
use pico_fi.I2cPacket.{PacketError, select, magic, packet}
use pico_fi.I2cTask.Safety.{
  IsTask, new_rx-IsRx, MadeIsPacket, Safe, make_packet-IsPacket, push_data-Safe,
}
use pico_fi.I2cTask.{BusTask, I2cPacket, make_packet, looks_like_local_command, handle_write_slot}
use pico_fi.I2cTask.Poll.{
  ReadEnd, read_slots, reply_v2, select_protocol, v2_packet, handle_v2_write, push_if_made,
  round_v2, Transaction, poll_round, round_v1, write, select_by, write_read, read, listen_failed,
  general_call,
}
use pico_fi.I2cPacket.{pending}
use mathlib.Core.Option
use pico_fi.Prelude.{
  ◌==◌, if_both, length, take, Bytes, bytes_eq, at, Result, ok, err, ℕ, min, ◌≡◌, refl, ap, Bool,
  true, false, not, ◌&&◌, Option, none, some, [], ◌∷◌,
}

module _ (config : BridgeConfig) (link_active : Bool) (texts : Diagnostics) where
  reply_v2-IsTask :
      (s : BusTask) (body : Bytes) → IsTask s → IsTask (reply_v2 config link_active texts s body)
  unfolding reply_v2
  reply_v2-IsTask s body v = record {
    rx_is = v.rx_is;
    tx_is = v.tx_is;
    mailbox_is = stage_or_keep-IsValid s.mailbox 2 _ v.mailbox_is;
    tx_holds = v.tx_holds;
    rx_resp_holds = v.rx_resp_holds;
  }

  push_if_made-Safe :
      (s : BusTask) (m : Option I2cPacket) → IsTask s → MadeIsPacket m → Safe (push_if_made s m)
  push_if_made-Safe s none v made = (s, refl, v)
  push_if_made-Safe s (some p) v made = push_data-Safe s p v made

  -- With other flags.
  with_v2-IsTask : (s : BusTask) (b : Bool) → IsTask s → IsTask (record s { v2 = b })
  with_v2-IsTask s b v = record {
    rx_is = v.rx_is;
    tx_is = v.tx_is;
    mailbox_is = v.mailbox_is;
    tx_holds = v.tx_holds;
    rx_resp_holds = v.rx_resp_holds;
  }

  v2_packet-Safe :
      (s : BusTask) (r : Result PacketError (ℕ × Bytes))
      → IsTask s
      → Safe (v2_packet config link_active texts s r)
  unfolding v2_packet
  v2_packet-Safe s (err e) v = (s, refl, v)
  v2_packet-Safe s (ok (kind, body)) v =
      if_both Safe (kind == 1)
        (λ _.
          if_both Safe (length body == 0) (λ _. (s, refl, v))
            (λ _. push_if_made-Safe s (make_packet 1 body) v (make_packet-IsPacket 1 body)))
        (λ _.
          if_both Safe (kind == 2)
            (λ _.
              if_both Safe (looks_like_local_command body && not (pending s.mailbox))
                (λ _. (_, refl, reply_v2-IsTask s body v)) (λ _. (s, refl, v)))
            (λ _.
              if_both Safe (kind == 0x7E && bytes_eq body (codes "BOOTSEL"))
                (λ _. (
                  _,
                  refl,
                  record {
                    rx_is = v.rx_is;
                    tx_is = v.tx_is;
                    mailbox_is = v.mailbox_is;
                    tx_holds = v.tx_holds;
                    rx_resp_holds = v.rx_resp_holds;
                  },
                ))
                (λ _. (s, refl, v))))

  select_protocol-Safe :
      (raw : Bytes) (s : BusTask) → IsTask s → Safe (select_protocol config link_active texts raw s)
  unfolding select_protocol handle_v2_write
  select_protocol-Safe raw s v =
      if_both Safe (bytes_eq raw select)
        (λ _. (
          _,
          refl,
          record {
            rx_is = new_rx-IsRx;
            tx_is = v.tx_is;
            mailbox_is = v.mailbox_is;
            tx_holds = v.tx_holds;
            rx_resp_holds = v.rx_resp_holds;
          },
        ))
        (λ _.
          if_both Safe (not (length raw == 0) && at raw 0 == magic)
            (λ _. v2_packet-Safe (record s { v2 = true }) (packet raw) (with_v2-IsTask s true v))
            (λ _.
              if_both Safe (length raw == 32 && bytes_eq (take 3 raw) (0x49 ∷ 0x32 ∷ 1 ∷ []))
                (λ _. (_, refl, with_v2-IsTask s false v)) (λ _. (s, refl, v))))

  handle_and-Safe :
      (now : ℕ) (raw : Bytes) (s : BusTask)
      → IsTask s
      → (s' : BusTask) × (handle_write_slot config link_active texts now
            (take (min (length raw) 32) raw)
            s
          ≡ some s')
        × IsTask s'
  handle_and-Safe now raw s v =
      handle_write_slot-Safe config link_active texts now (take (min (length raw) 32) raw) s v

  round_v1-Safe :
      (now : ℕ) (t : Transaction) (s : BusTask)
      → IsTask s
      → SafeRound (round_v1 config link_active texts now t s)
  unfolding round_v1
  round_v1-Safe now (write raw) s v =
      let (s', e, v') = handle_and-Safe now raw s v in
      (s', [], ap (Option.map (λ t. (t, []))) e, v')
  round_v1-Safe now (write_read raw) s v =
      let (s', e, v') = handle_and-Safe now raw s v in
      ((read_slots s').0, (read_slots s').1, ap (Option.map read_slots) e, read_slots-IsTask s' v')
  round_v1-Safe now read s v = (_, _, refl, read_slots-IsTask s v)
  round_v1-Safe now general_call s v = (s, [], refl, v)
  round_v1-Safe now listen_failed s v = (_, _, refl, recover_i2c_state-IsTask s v)

  round_v2-Safe :
      (t : Transaction) (first second : ReadEnd) (s : BusTask)
      → IsTask s
      → SafeRound (round_v2 t first second s)
  unfolding round_v2
  round_v2-Safe read first second s v = read_v2-Safe first second s v
  round_v2-Safe (write_read raw) first second s v = read_v2-Safe first second s v
  round_v2-Safe listen_failed first second s v = (
    _,
    _,
    refl,
    record {
      rx_is = v.rx_is;
      tx_is = v.tx_is;
      mailbox_is = v.mailbox_is;
      tx_holds = v.tx_holds;
      rx_resp_holds = v.rx_resp_holds;
    },
  )
  round_v2-Safe (write raw) first second s v = (s, [], refl, v)
  round_v2-Safe general_call first second s v = (s, [], refl, v)

  select_by-Safe :
      (t : Transaction) (s : BusTask) → IsTask s → Safe (select_by config link_active texts t s)
  select_by-Safe (write raw) s v = select_protocol-Safe raw s v
  select_by-Safe (write_read raw) s v = select_protocol-Safe raw s v
  select_by-Safe read s v = (s, refl, v)
  select_by-Safe general_call s v = (s, refl, v)
  select_by-Safe listen_failed s v = (s, refl, v)

  -- Whatever the transaction, its bytes and the way in which the master ends its reads, a round of
  -- the task from a state in which the received and the staged bytes lie within their buffers, the mailbox is valid
  -- and the queues hold packets does not panic, and ends in such a state.
  pub poll_round-Safe :
      (now : ℕ) (t : Transaction) (first second : ReadEnd) (s : BusTask)
      → IsTask s
      → SafeRound (poll_round config link_active texts now t first second s)
  unfolding poll_round Option.bind
  poll_round-Safe now t first second s v =
      let (s', e, v') = select_by-Safe t s v in
      rw e (
        if_both SafeRound s'.v2 (λ _. round_v2-Safe t first second s' v')
          (λ _. round_v1-Safe now t s' v'))
