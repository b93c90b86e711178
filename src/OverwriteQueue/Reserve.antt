-- ===== src/OverwriteQueue/Reserve.antt =====
-- The space that a session has seen, and the pops of another task after it.
use pico_fi.OverwriteQueue.Refine.{fits_Holds, Holds-count}
use mathlib.Core.Path.{subst}
use pico_fi.OverwriteQueue.{
  QueueItem, Mailbox, try_pop, try_push, has_space_for, try_push_ref, fits, signal_ready, insert,
}
use pico_fi.OverwriteQueue.Trace.{try_pop-Shows, has_room-bounds, Shows, insert-Shows}
use pico_fi.OverwriteQueue.Fifo.{has_room, total, taken}
use pico_fi.OverwriteQueue.Invariant.{IsFaithful}
use pico_fi.Prelude.{
  length, ok, ℕ, zero, suc, ◌≤◌, ◌<◌, ◌≡◌, refl, sym, ◌∙◌, true, some, List, [], ◌∷◌, ◌++◌, arith,
}

-- Another task pops `k` packets.
abbrev pub popped : (depth max_bytes : ℕ) {T : Type 0} → QueueItem T → ℕ → Mailbox → Mailbox
popped depth max_bytes item_ops zero q = q
popped depth max_bytes item_ops (suc k) q =
    popped depth max_bytes item_ops k (try_pop depth max_bytes item_ops q).1

-- The first `k` are gone.
abbrev pub all_taken : {T : Type 0} → ℕ → List T → List T
all_taken zero ts = ts
all_taken (suc k) [] = []
all_taken (suc k) (t ∷ ts) = all_taken k ts

module _ (depth max_bytes : ℕ) {T : Type 0} (item_ops : QueueItem T) (IsItem : T → Type 0)
    (laws : IsFaithful item_ops IsItem) where
  total-all_taken :
      (k : ℕ) (ts : List T)
      → total depth max_bytes item_ops (all_taken k ts) ≤ total depth max_bytes item_ops ts
  total-all_taken zero ts = omega arith
  total-all_taken (suc k) [] = omega arith
  total-all_taken (suc k) (t ∷ ts) = omega (arith, total-all_taken k ts)

  length-all_taken : (k : ℕ) (ts : List T) → length (all_taken k ts) ≤ length ts
  length-all_taken zero ts = omega arith
  length-all_taken (suc k) [] = omega arith
  length-all_taken (suc k) (t ∷ ts) = omega (arith, length-all_taken k ts)

  all_taken_nil : (k : ℕ) → all_taken {T = T} k [] ≡ []
  all_taken_nil zero = refl
  all_taken_nil (suc k) = refl

  pub popped-Shows :
      (k : ℕ) (q : Mailbox) (ts : List T)
      → Shows depth max_bytes item_ops IsItem laws q ts
      → Shows depth max_bytes item_ops IsItem laws
          (popped depth max_bytes item_ops k q)
          (all_taken k ts)
  unfolding taken
  popped-Shows zero q ts h = h
  popped-Shows (suc k) q [] h =
      subst
        (Shows depth max_bytes item_ops IsItem laws
          (popped depth max_bytes item_ops k (try_pop depth max_bytes item_ops q).1))
        (all_taken_nil k)
        (popped-Shows k _ [] (try_pop-Shows depth max_bytes item_ops IsItem laws q [] h))
  popped-Shows (suc k) q (t ∷ ts) h =
      popped-Shows k _ ts (try_pop-Shows depth max_bytes item_ops IsItem laws q (t ∷ ts) h)

  -- Less room is asked for, and fewer packets are there.
  has_room-all_taken :
      (k : ℕ) (ts : List T) (n len : ℕ)
      → length ts ≤ depth
      → has_room depth max_bytes item_ops ts n ≡ true
      → 0 < len
      → len ≤ n
      → has_room depth max_bytes item_ops (all_taken k ts) len ≡ true
  has_room-all_taken k ts n len few room some_bytes fits_too =
      let (a, b, c) = has_room-bounds depth max_bytes item_ops ts n room in
      let less = total-all_taken k ts in
      let fewer = length-all_taken k ts in unfold has_room in ground (arith, a, b, c, less, fewer)

  seen_room :
      (q : Mailbox) (ts : List T) (n : ℕ)
      → Shows depth max_bytes item_ops IsItem laws q ts
      → has_space_for depth max_bytes q n ≡ true
      → has_room depth max_bytes item_ops ts n ≡ true
  unfolding has_space_for
  seen_room q ts n h e = sym (fits_Holds depth max_bytes item_ops IsItem n h) ∙ e

  try_push-inserts :
      (q q' : Mailbox) (t : T)
      → fits depth max_bytes q.state (item_ops.queued_len t) ≡ true
      → insert depth max_bytes item_ops q t ≡ some q'
      → try_push depth max_bytes item_ops q t ≡ some (ok tt, signal_ready q')
  unfolding try_push try_push_ref
  try_push-inserts q q' t room e = rw (room, e) refl

  -- If a mailbox that holds `ts` has had space for `n` bytes, then after `k` pops by another task,
  -- however many, `try_push` accepts any item of 1 to `n` bytes, which is last behind what is left.
  pub try_push-reserved :
      (q : Mailbox) (ts : List T) (n k : ℕ) (t : T)
      → Shows depth max_bytes item_ops IsItem laws q ts
      → has_space_for depth max_bytes q n ≡ true
      → IsItem t
      → 0 < item_ops.queued_len t
      → item_ops.queued_len t ≤ n
      → (q' : Mailbox) × (try_push depth max_bytes item_ops (popped depth max_bytes item_ops k q) t
          ≡ some (ok tt, q'))
        × Shows depth max_bytes item_ops IsItem laws q' (all_taken k ts ++ (t ∷ []))
  try_push-reserved q ts n k t h seen it some_bytes fits_too =
      let q1 = popped depth max_bytes item_ops k q in
      let h1 = popped-Shows k q ts h in
      let few : length ts ≤ depth =
        omega (arith, h.valid.few, Holds-count depth max_bytes item_ops IsItem h) in
      let room =
        has_room-all_taken k ts n (item_ops.queued_len t) few (seen_room q ts n h seen) some_bytes
          fits_too in
      let (q2, e, h2) =
        insert-Shows depth max_bytes item_ops IsItem laws q1 (all_taken k ts) t h1 it room in
      (
        signal_ready q2,
        try_push-inserts q1 q2 t
            (fits_Holds depth max_bytes item_ops IsItem (item_ops.queued_len t) h1 ∙ room) e,
        h2,
      )
