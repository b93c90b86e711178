-- ===== src/I2cTask/Receive.antt =====
-- The slots of a request, one after the other, at the device.
use pico_fi.HostI2c.{encode_slots}
use pico_fi.I2cPacket.Mailboxes.{take-blit}
use pico_fi.I2cSlot.Transfer.{slot_at, Slots, last_slot, more_slots, encode_slots-Slots}
use pico_fi.I2cTask.{
  handle_write_slot, BusTask, after_push, process_complete_packet, after_decode,
  nonzero_transfer_id,
}
use pico_fi.Commands.{Diagnostics}
use pico_fi.Config.{BridgeConfig}
use mathlib.Core.Path.{subst}
use pico_fi.I2cSlot.Codec.{slot_of, decode_slot-slot_bytes}
use pico_fi.I2cSlot.Assembly.{
  receiving, push_slot-begin, push_slot-continue, finish_packet-more, received,
  finish_packet-received, slot_flags-has_end,
}
use pico_fi.I2cSlot.{slot_flags, push_slot, RxPacketState, Slot, finish_packet}
use mathlib.Core.Option
use pico_fi.Prelude.{
  leb, length, take, drop, replicate, length-take, length-replicate, Bytes, ℕ, zero, suc, ◌+◌, ◌-◌,
  ◌^◌, ◌≤◌, ◌<◌, ◌≡◌, refl, ap, ◌∙◌, ◌≢◌, ◌⊎◌, inl, inr, Bool, true, false, Option, none, some,
  List, [], ◌∷◌, arith,
}

-- What a slot can come after, `now` being its instant: anything at offset 0, and the bytes before
-- it, less than 50 ms ago, otherwise.
abbrev pub Expects : ℕ → RxPacketState → ℕ → ℕ → Bytes → ℕ → Type 0
Expects now r kind tid p o =
    (o ≡ 0) ⊎ ((0 < o) × (t : ℕ) × (r ≡ receiving kind tid p o t) × (now - t < 50000))

abbrev sent_at : ℕ → ℕ → Bytes → ℕ → ℕ → Slot
sent_at kind tid p o n =
    slot_of kind (slot_flags o (o + n) (length p)) tid o (length p) (take n (drop o p))

push_slot-receiving :
    (now kind tid : ℕ) (r : RxPacketState) (p : Bytes) (o n : ℕ)
    → length p ≤ 4096
    → Expects now r kind tid p o
    → o + n ≤ length p
    → n ≤ 14
    → push_slot now r (sent_at kind tid p o n)
      ≡ finish_packet (sent_at kind tid p o n) (receiving kind tid p (o + n) now, true)
push_slot-receiving now kind tid r p zero n fits x h small =
    let same : n ≡ 0 + n = omega arith in
    subst
      (λ stop.
        push_slot now r (slot_of kind (slot_flags 0 stop (length p)) tid 0 (length p) (take n p))
        ≡ finish_packet (slot_of kind (slot_flags 0 stop (length p)) tid 0 (length p) (take n p))
            (receiving kind tid p stop now, true))
      same (push_slot-begin now kind tid r p n fits (omega arith) small)
push_slot-receiving now kind tid r p (suc o) n fits (inl e) h small = absurd (omega arith)
push_slot-receiving now kind tid r p (suc o) n fits (inr (later, t, e, timely)) h small =
    ap (λ q. push_slot now q (sent_at kind tid p (suc o) n)) e
    ∙ push_slot-continue now kind tid t (suc o) n p fits later h small timely

module _ (config : BridgeConfig) (link_active : Bool) (texts : Diagnostics) (clock : ℕ → ℕ) where
  -- The `i`th slot and those after it, each handled at its instant.
  abbrev pub handle_slots : ℕ → List Bytes → BusTask → Option BusTask
  handle_slots i [] s = some s
  handle_slots i (raw ∷ slots) s =
      Option.bind (handle_write_slot config link_active texts (clock i) raw s)
        (handle_slots (suc i) slots)

  module _ (kind tid : ℕ) (p : Bytes) (live : kind ≢ 0) (id_small : tid < 2 ^ 16)
      (fits : length p ≤ 4096) where
    -- What is left of the task's state once the request is there.
    abbrev pub complete : BusTask → Option BusTask
    complete s =
        process_complete_packet config link_active texts
          (record s { rx_packet = received p; last_transfer_id = nonzero_transfer_id tid }) kind tid
          p

    handle_write_slot-push :
        (now o n : ℕ) (s : BusTask)
        → Expects now s.rx_packet kind tid p o
        → o + n ≤ length p
        → n ≤ 14
        → handle_write_slot config link_active texts now (slot_at kind tid p o n) s
          ≡ after_push config link_active texts s
              (finish_packet (sent_at kind tid p o n) (receiving kind tid p (o + n) now, true))
    unfolding handle_write_slot after_decode Option.bind
    handle_write_slot-push now o n s x h small =
        let size : length (take n (drop o p)) ≤ 14 = omega (arith, length-take n (drop o p)) in
        ap (λ d. Option.bind d (after_decode config link_active texts now s))
          (decode_slot-slot_bytes kind (slot_flags o (o + n) (length p)) tid o (length p)
            (take n (drop o p))
            (record {
              not_idle = live;
              id_small = id_small;
              offset_small = omega arith;
              total_small = omega arith;
              fits = size;
            }))
        ∙ ap (after_push config link_active texts s)
            (push_slot-receiving now kind tid s.rx_packet p o n fits x h small)

    handle_write_slot-more :
        (now o n : ℕ) (s : BusTask)
        → Expects now s.rx_packet kind tid p o
        → o + n < length p
        → n ≤ 14
        → handle_write_slot config link_active texts now (slot_at kind tid p o n) s
          ≡ some (record s { rx_packet = receiving kind tid p (o + n) now })
    unfolding after_push
    handle_write_slot-more now o n s x h small =
        let on : leb (length p) (o + n) ≡ false = ground arith in
        handle_write_slot-push now o n s x (omega arith) small
        ∙ ap (after_push config link_active texts s) (
            finish_packet-more (sent_at kind tid p o n) (receiving kind tid p (o + n) now)
              (slot_flags-has_end o (o + n) (length p) ∙ on))

    handle_write_slot-last :
        (now o n : ℕ) (s : BusTask)
        → Expects now s.rx_packet kind tid p o
        → o + n ≡ length p
        → n ≤ 14
        → handle_write_slot config link_active texts now (slot_at kind tid p o n) s ≡ complete s
    unfolding after_push
    handle_write_slot-last now o n s x e small =
        let stop : leb (length p) (o + n) ≡ true = ground (arith, e) in
        handle_write_slot-push now o n s x (omega (arith, e)) small
        ∙ ap (after_push config link_active texts s) (
            finish_packet-received (sent_at kind tid p o n) kind tid now (o + n) p
              (slot_flags-has_end o (o + n) (length p) ∙ stop) e)
        ∙ ap
            (λ raw.
              process_complete_packet config link_active texts
                (record s { rx_packet = received p; last_transfer_id = nonzero_transfer_id tid })
                kind tid raw)
            (take-blit (replicate 4096 0) p (omega (arith, length-replicate {A = ℕ} 4096 0)))

    bind-handle_slots : (i : ℕ) (m : Option BusTask) → Option.bind m (handle_slots i []) ≡ m
    unfolding Option.bind
    bind-handle_slots i none = refl
    bind-handle_slots i (some s) = refl

    handle_slots-Slots :
        ((i : ℕ) → clock (suc i) - clock i < 50000)
        → {o : ℕ} {slots : List Bytes} (i : ℕ) (s : BusTask)
        → Expects (clock i) s.rx_packet kind tid p o
        → o ≤ length p
        → Slots kind tid p o slots
        → handle_slots i slots s ≡ complete s
    unfolding Option.bind
    handle_slots-Slots timely {o = o} i s x h (last_slot {n = n} e small) =
        ap (λ r. Option.bind r (handle_slots (suc i) []))
          (handle_write_slot-last (clock i) o n s x e small)
        ∙ bind-handle_slots (suc i) (complete s)
    handle_slots-Slots timely {o = o} i s x h (more_slots {rest = rest} more slots) =
        ap (λ r. Option.bind r (handle_slots (suc i) rest))
          (handle_write_slot-more (clock i) o 14 s x more (omega arith))
        ∙ handle_slots-Slots timely (suc i)
            (record s { rx_packet = receiving kind tid p (o + 14) (clock i) })
            (inr (omega arith, clock i, refl, timely i)) (omega arith) slots

    -- The slots of a packet of at most 4096 bytes that are handled less than 50 ms apart leave what
    -- `process_complete_packet` makes of the whole packet on the state before them, whatever was
    -- received before: the earlier slots change nothing but the assembly.
    pub handle_slots-encode_slots :
        ((i : ℕ) → clock (suc i) - clock i < 50000)
        → (s : BusTask) → handle_slots 0 (encode_slots kind tid p) s ≡ complete s
    handle_slots-encode_slots timely s =
        handle_slots-Slots timely 0 s (inl refl) (omega arith) (encode_slots-Slots kind tid p)
