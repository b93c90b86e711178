-- ===== src/OverwriteQueue/Polling.antt =====
-- The polls of `push`: an item is inserted once there is room, or refused because it never fits.
use pico_fi.OverwriteQueue.Trace.{insert-Shows}
use pico_fi.OverwriteQueue.{
  QueueItem, Mailbox, refused, done, pending, poll_push, unacceptable, has_space_for, fits,
  try_push_ref, signal_ready, insert,
}
use pico_fi.OverwriteQueue.Invariant.{IsFaithful}
use pico_fi.OverwriteQueue.Refine.{Holds, fits_Holds}
use pico_fi.OverwriteQueue.Fifo.{has_room}
use pico_fi.Prelude.{
  Bool-cases, ℕ, ◌<◌, ◌≤◌, ◌≡◌, refl, ◌∙◌, ◌⊎◌, inl, inr, true, false, some, List, [], ◌∷◌, ◌++◌,
  arith,
}

module _ (depth max_bytes : ℕ) {T : Type 0} (item_ops : QueueItem T) (IsItem : T → Type 0)
    (laws : IsFaithful item_ops IsItem) where
  poll_waits :
      (q : Mailbox) (t : T)
      → unacceptable depth max_bytes (item_ops.queued_len t) ≡ false
      → fits depth max_bytes q.state (item_ops.queued_len t) ≡ false
      → poll_push depth max_bytes item_ops q t ≡ some (pending, q)
  unfolding poll_push has_space_for
  poll_waits q t good full = rw (good, full) refl

  poll_inserts :
      (q q' : Mailbox) (t : T)
      → unacceptable depth max_bytes (item_ops.queued_len t) ≡ false
      → fits depth max_bytes q.state (item_ops.queued_len t) ≡ true
      → insert depth max_bytes item_ops q t ≡ some q'
      → poll_push depth max_bytes item_ops q t ≡ some (done, signal_ready q')
  unfolding poll_push has_space_for try_push_ref
  poll_inserts q q' t good room e = rw (good, room, e) refl

  -- Why an item is unacceptable.
  unacceptable_why :
      (len : ℕ)
      → unacceptable depth max_bytes len ≡ true
      → ((len ≡ 0) ⊎ (max_bytes < len)) ⊎ (depth ≡ 0)
  unacceptable_why len bad = ground arith

  -- What an acceptable item is.
  acceptable_why :
      (len : ℕ)
      → unacceptable depth max_bytes len ≡ false
      → (0 < len) × (len ≤ max_bytes) × (0 < depth)
  acceptable_why len good = (ground arith, ground arith, ground arith)

  -- One poll of `push` on a mailbox that holds `ts`: an item that could never fit, since it is
  -- empty, is longer than the ring or the queue has no entries, is given back; one that could fit
  -- but has no room now waits for a later poll; in both cases the mailbox still holds `ts`.
  -- Otherwise the item is last in the mailbox.
  pub poll_push-Holds :
      (q : Mailbox) (ts : List T) (t : T)
      → Holds depth max_bytes item_ops IsItem q.state ts
      → IsItem t
      → (q' : Mailbox) × (((poll_push depth max_bytes item_ops q t ≡ some (refused t, q'))
            × (((item_ops.queued_len t ≡ 0) ⊎ (max_bytes < item_ops.queued_len t)) ⊎ (depth ≡ 0))
            × Holds depth max_bytes item_ops IsItem q'.state ts)
          ⊎ (((poll_push depth max_bytes item_ops q t ≡ some (pending, q'))
                × (0 < item_ops.queued_len t)
                × (item_ops.queued_len t ≤ max_bytes)
                × (0 < depth)
                × (has_room depth max_bytes item_ops ts (item_ops.queued_len t) ≡ false)
                × Holds depth max_bytes item_ops IsItem q'.state ts)
              ⊎ ((poll_push depth max_bytes item_ops q t ≡ some (done, q'))
                  × (has_room depth max_bytes item_ops ts (item_ops.queued_len t) ≡ true)
                  × Holds depth max_bytes item_ops IsItem q'.state (ts ++ (t ∷ [])))))
  unfolding poll_push
  poll_push-Holds q ts t h it =
      let len = item_ops.queued_len t in
      let same = fits_Holds depth max_bytes item_ops IsItem len h in
      elim (Bool-cases (unacceptable depth max_bytes len)) [
        | inl bad ↦ (q, inl (rw bad refl, unacceptable_why len bad, h))
        | inr good ↦ elim (Bool-cases (has_room depth max_bytes item_ops ts len)) [
          | inl room ↦
              let (q', e, h') =
                insert-Shows depth max_bytes item_ops IsItem laws q ts t h it room in
              (signal_ready q', inr (inr (poll_inserts q q' t good (same ∙ room) e, room, h')))
          | inr full ↦ (
            q,
            inr (
                inl (
                  poll_waits q t good (same ∙ full),
                  (acceptable_why len good).0,
                  (acceptable_why len good).1,
                  (acceptable_why len good).2,
                  full,
                  h,
                )),
          )
        ]
      ]
