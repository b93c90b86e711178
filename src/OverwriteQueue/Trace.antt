-- ===== src/OverwriteQueue/Trace.antt =====
-- A client's calls on a mailbox, and what the queue of whole items answers.
use pico_fi.OverwriteQueue.Front.{discard_front-some, discard-Holds, read_item-Holds}
use mathlib.Core.Option
use pico_fi.OverwriteQueue.{
  QueueItem, Mailbox, try_push_ref, insert, make_room, push_overwrite, try_pop, signal_ready,
  count_high_water, pop_packet, unacceptable, finish_pop, count_rejected, insert_if, fits,
  QueueState, discard_front, count_dropped,
}
use pico_fi.OverwriteQueue.Fifo.{
  Call, offer, force, take_one, Reply, accepted, declined, item_of, nothing, offered, has_room,
  evict, total, taken, forced, serve, serve_all,
}
use pico_fi.OverwriteQueue.Invariant.{IsFaithful, All}
use pico_fi.OverwriteQueue.Refine.{
  Holds, Holds-count, fits_Holds, state_after, insert-Holds, Holds-used,
}
use pico_fi.Prelude.{
  Bool-cases, ==_false, length, ℕ, zero, suc, ◌+◌, ◌≤◌, ◌<◌, ◌≡◌, refl, ap, ◌∙◌, ◌≢◌, inl, inr,
  Bool, true, false, Option, none, some, List, [], ◌∷◌, ◌++◌, arith,
}

module _ (depth max_bytes : ℕ) {T : Type 0} (item_ops : QueueItem T) where
  abbrev pub pushed_reply : Bool × Mailbox → Mailbox × Reply T
  pushed_reply (true, q) = (q, accepted)
  pushed_reply (false, q) = (q, declined)

  abbrev pub popped_reply : Option T × Mailbox → Mailbox × Reply T
  popped_reply (none, q) = (q, nothing)
  popped_reply (some t, q) = (q, item_of t)

  -- One call; `none` is a panic, or fuel that ran out.
  unfoldable pub answer : Mailbox → Call T → Option (Mailbox × Reply T)
  answer q (offer t) = Option.map pushed_reply (try_push_ref depth max_bytes item_ops q t)
  answer q (force t) = Option.map pushed_reply (push_overwrite depth max_bytes item_ops q t)
  answer q take_one = some (popped_reply (try_pop depth max_bytes item_ops q))

  unfoldable pub answer_all : Mailbox → List (Call T) → Option (List (Reply T))
  answer_all q [] = some []
  answer_all q (c ∷ cs) = elim (answer q c) [
    | none ↦ none
    | some (q', r) ↦ Option.map (◌∷◌ r) (answer_all q' cs)
  ]

  -- What `has_room` says.
  pub has_room-bounds :
      (ts : List T) (len : ℕ)
      → has_room depth max_bytes item_ops ts len ≡ true
      → (0 < len) × (length ts ≢ depth) × (total depth max_bytes item_ops ts + len ≤ max_bytes)
  unfolding has_room
  has_room-bounds ts len h = ground arith

  pub has_room_nil :
      (len : ℕ)
      → 0 < len
      → len ≤ max_bytes
      → 0 < depth
      → has_room depth max_bytes item_ops [] len ≡ true
  unfolding has_room
  has_room_nil len p q r = ground arith

  module _ (IsItem : T → Type 0) (laws : IsFaithful item_ops IsItem) where
    -- Every item that a call hands over is one.
    abbrev pub CallIsItem : Call T → Type 0
    CallIsItem (offer t) = IsItem t
    CallIsItem (force t) = IsItem t
    CallIsItem take_one = Unit {0}

    abbrev pub Shows : Mailbox → List T → Type 0
    Shows q ts = Holds depth max_bytes item_ops IsItem q.state ts

    pub insert-Shows :
        (q : Mailbox) (ts : List T) (t : T)
        → Shows q ts
        → IsItem t
        → has_room depth max_bytes item_ops ts (item_ops.queued_len t) ≡ true
        → (q' : Mailbox) × (insert depth max_bytes item_ops q t ≡ some q')
          × Shows q' (ts ++ (t ∷ []))
    unfolding insert
    insert-Shows q ts t h it room = (
      record q {
        state = state_after depth max_bytes item_ops IsItem laws q.state t;
        counters = count_high_water (length q.state.lengths + 1) q.counters;
      },
      rw (==_false (length q.state.lengths) depth (omega (arith, few))),
      insert-Holds depth max_bytes item_ops IsItem laws t h it facts.0 few
          (omega (arith, facts.2, Holds-used depth max_bytes item_ops IsItem h)),
    )
      where
        facts :
            (0 < item_ops.queued_len t)
            × (length ts ≢ depth)
            × (total depth max_bytes item_ops ts + item_ops.queued_len t ≤ max_bytes)
        facts = has_room-bounds ts (item_ops.queued_len t) room

        few : length q.state.lengths < depth
        few = omega (arith, facts.1, h.valid.few, Holds-count depth max_bytes item_ops IsItem h)

    offer-Shows :
        (q : Mailbox) (ts : List T) (t : T)
        → Shows q ts
        → IsItem t
        → (q' : Mailbox) × (answer q (offer t)
            ≡ some (q', (offered depth max_bytes item_ops ts t).1))
          × Shows q' (offered depth max_bytes item_ops ts t).0
    unfolding answer try_push_ref offered
    offer-Shows q ts t h it =
        elim (Bool-cases (has_room depth max_bytes item_ops ts (item_ops.queued_len t))) [
          | inl room ↦
              let (q', e, h') = insert-Shows q ts t h it room in
              rw
                (
                  room,
                  fits_Holds depth max_bytes item_ops IsItem (item_ops.queued_len t) h,
                  room,
                  e,
                )
                (signal_ready q', refl, h')
          | inr full ↦
              rw (full, fits_Holds depth max_bytes item_ops IsItem (item_ops.queued_len t) h, full)
                (q, refl, h)
        ]

    make_room_fits :
        (fuel len : ℕ) (q : Mailbox)
        → fits depth max_bytes q.state len ≡ true
        → make_room depth max_bytes (suc fuel) len q ≡ some (true, q)
    unfolding make_room
    make_room_fits fuel len q e = rw (e, make_room)

    make_room_drops :
        (fuel len : ℕ) (q : Mailbox) (s : QueueState)
        → fits depth max_bytes q.state len ≡ false
        → discard_front depth max_bytes q.state ≡ some s
        → make_room depth max_bytes (suc fuel) len q
          ≡ make_room depth max_bytes fuel len
              (record q { state = s; counters = count_dropped q.counters })
    unfolding make_room
    make_room_drops fuel len q s e d = rw (e, make_room) (rw (d, make_room))

    evict_keeps :
        (len : ℕ) (ts : List T)
        → has_room depth max_bytes item_ops ts len ≡ true
        → evict depth max_bytes item_ops len ts ≡ ts
    unfolding evict
    evict_keeps len [] e = refl
    evict_keeps len (t ∷ ts) e = rw e

    evict_drops :
        (len : ℕ) (t : T) (ts : List T)
        → has_room depth max_bytes item_ops (t ∷ ts) len ≡ false
        → evict depth max_bytes item_ops len (t ∷ ts) ≡ evict depth max_bytes item_ops len ts
    unfolding evict
    evict_drops len t ts e = rw e

    -- The eviction loop ends with room, having dropped the oldest items one by one.
    pub make_room-Shows :
        (fuel len : ℕ) (q : Mailbox) (ts : List T)
        → length ts < fuel
        → 0 < len
        → len ≤ max_bytes
        → 0 < depth
        → Shows q ts
        → (q' : Mailbox) × (make_room depth max_bytes fuel len q ≡ some (true, q'))
          × Shows q' (evict depth max_bytes item_ops len ts)
          × (has_room depth max_bytes item_ops (evict depth max_bytes item_ops len ts) len ≡ true)
    make_room-Shows zero len q ts f p b d h = absurd (omega arith)
    make_room-Shows (suc fuel) len q [] f p b d h =
        let room = has_room_nil len p b d in
        rw (evict_keeps len [] room) (
          q,
          make_room_fits fuel len q (fits_Holds depth max_bytes item_ops IsItem len h ∙ room),
          h,
          room,
        )
    make_room-Shows (suc fuel) len q (t ∷ ts) f p b d h =
        elim (Bool-cases (has_room depth max_bytes item_ops (t ∷ ts) len)) [
          | inl room ↦ rw (evict_keeps len (t ∷ ts) room) (
            q,
            make_room_fits fuel len q (fits_Holds depth max_bytes item_ops IsItem len h ∙ room),
            h,
            room,
          )
          | inr full ↦
              rw
                (
                  evict_drops len t ts full,
                  make_room_drops fuel len q _
                      (fits_Holds depth max_bytes item_ops IsItem len h ∙ full)
                      (discard_front-some depth max_bytes item_ops IsItem laws t ts h),
                )
                (make_room-Shows fuel len _ ts (omega arith) p b d
                  (discard-Holds depth max_bytes item_ops IsItem laws t ts h))
        ]

    -- An item that can fit is last afterwards, after the least eviction that makes room.
    pub push_overwrite-Shows :
        (q : Mailbox) (ts : List T) (t : T)
        → Shows q ts
        → IsItem t
        → unacceptable depth max_bytes (item_ops.queued_len t) ≡ false
        → (q' : Mailbox) × (push_overwrite depth max_bytes item_ops q t ≡ some (true, q'))
          × Shows q' (evict depth max_bytes item_ops (item_ops.queued_len t) ts ++ (t ∷ []))
    unfolding push_overwrite Option.bind insert_if
    push_overwrite-Shows q ts t h it good =
        let (q1, made, h1, room) =
          make_room-Shows (suc (length q.state.lengths)) (item_ops.queued_len t) q ts
            (omega (arith, Holds-count depth max_bytes item_ops IsItem h)) (ground arith)
            (ground arith) (ground arith) h in
        let (q2, e, h2) =
          insert-Shows q1 (evict depth max_bytes item_ops (item_ops.queued_len t) ts) t h1 it
            room in
        rw (good, made, insert_if, e) (signal_ready q2, refl, h2)

    -- An item that can never fit is counted and changes nothing else.
    push_overwrite_rejects :
        (q : Mailbox) (t : T)
        → unacceptable depth max_bytes (item_ops.queued_len t) ≡ true
        → push_overwrite depth max_bytes item_ops q t
          ≡ some (false, record q { counters = count_rejected q.counters })
    unfolding push_overwrite
    push_overwrite_rejects q t bad = rw bad refl

    force-Shows :
        (q : Mailbox) (ts : List T) (t : T)
        → Shows q ts
        → IsItem t
        → (q' : Mailbox) × (answer q (force t)
            ≡ some (q', (forced depth max_bytes item_ops ts t).1))
          × Shows q' (forced depth max_bytes item_ops ts t).0
    unfolding answer forced
    force-Shows q ts t h it =
        elim (Bool-cases (unacceptable depth max_bytes (item_ops.queued_len t))) [
          | inl bad ↦
              let e = ap (Option.map pushed_reply) (push_overwrite_rejects q t bad) in
              rw bad (record q { counters = count_rejected q.counters }, e, h)
          | inr good ↦
              let (q1, e, h1) = push_overwrite-Shows q ts t h it good in
              rw good (q1, ap (Option.map pushed_reply) e, h1)
        ]

    take-Shows :
        (q : Mailbox) (ts : List T)
        → Shows q ts
        → (q' : Mailbox) × (answer q take_one ≡ some (q', (taken depth max_bytes item_ops ts).1))
          × Shows q' (taken depth max_bytes item_ops ts).0
    unfolding answer try_pop taken pop_packet finish_pop
    take-Shows q [] h = rw (ap (pop_packet depth max_bytes item_ops q) h.lengths_are) (q, refl, h)
    take-Shows q (t ∷ ts) h =
        rw
          (
            ap (pop_packet depth max_bytes item_ops q) h.lengths_are,
            read_item-Holds depth max_bytes item_ops IsItem laws t ts h,
            discard_front-some depth max_bytes item_ops IsItem laws t ts h,
          )
          (_, refl, discard-Holds depth max_bytes item_ops IsItem laws t ts h)

    -- A pop leaves a mailbox that holds what is left.
    pub try_pop-Shows :
        (q : Mailbox) (ts : List T)
        → Shows q ts
        → Shows (try_pop depth max_bytes item_ops q).1 (taken depth max_bytes item_ops ts).0
    unfolding try_pop taken pop_packet finish_pop
    try_pop-Shows q [] h = rw (ap (pop_packet depth max_bytes item_ops q) h.lengths_are) h
    try_pop-Shows q (t ∷ ts) h =
        rw
          (
            ap (pop_packet depth max_bytes item_ops q) h.lengths_are,
            read_item-Holds depth max_bytes item_ops IsItem laws t ts h,
            discard_front-some depth max_bytes item_ops IsItem laws t ts h,
          )
          (discard-Holds depth max_bytes item_ops IsItem laws t ts h)

    -- What is popped is an item.
    abbrev pub PoppedIsItem : Option T → Type 0
    PoppedIsItem none = Unit {0}
    PoppedIsItem (some t) = IsItem t

    pub try_pop-PoppedIsItem :
        (q : Mailbox) (ts : List T)
        → Shows q ts
        → PoppedIsItem (try_pop depth max_bytes item_ops q).0
    unfolding try_pop pop_packet finish_pop
    try_pop-PoppedIsItem q [] h = rw (ap (pop_packet depth max_bytes item_ops q) h.lengths_are) tt
    try_pop-PoppedIsItem q (t ∷ ts) h =
        rw
          (
            ap (pop_packet depth max_bytes item_ops q) h.lengths_are,
            read_item-Holds depth max_bytes item_ops IsItem laws t ts h,
          )
          h.items.0

    answer-Shows :
        (q : Mailbox) (ts : List T) (c : Call T)
        → Shows q ts
        → CallIsItem c
        → (q' : Mailbox) × (answer q c ≡ some (q', (serve depth max_bytes item_ops ts c).1))
          × Shows q' (serve depth max_bytes item_ops ts c).0
    unfolding serve
    answer-Shows q ts (offer t) h it = offer-Shows q ts t h it
    answer-Shows q ts (force t) h it = force-Shows q ts t h it
    answer-Shows q ts take_one h it = take-Shows q ts h

    answer_all-cons :
        (q q' : Mailbox) (c : Call T) (cs : List (Call T)) (r : Reply T)
        → answer q c ≡ some (q', r)
        → answer_all q (c ∷ cs) ≡ Option.map (◌∷◌ r) (answer_all q' cs)
    unfolding answer_all
    answer_all-cons q q' c cs r e = rw (e, answer_all)

    -- No sequence of calls on a mailbox that holds `ts` panics, runs out of fuel, or is answered
    -- otherwise than by the queue of whole items `ts` with the two limits.
    pub answer_all-serve_all :
        (cs : List (Call T)) (q : Mailbox) (ts : List T)
        → Shows q ts
        → All CallIsItem cs
        → answer_all q cs ≡ some (serve_all depth max_bytes item_ops ts cs)
    unfolding answer_all serve_all
    answer_all-serve_all [] q ts h its = refl
    answer_all-serve_all (c ∷ cs) q ts h its =
        let (q', e, h') = answer-Shows q ts c h its.0 in
        answer_all-cons q q' c cs (serve depth max_bytes item_ops ts c).1 e
        ∙ ap (Option.map (◌∷◌ (serve depth max_bytes item_ops ts c).1))
            (answer_all-serve_all cs q' (serve depth max_bytes item_ops ts c).0 h' its.1)
