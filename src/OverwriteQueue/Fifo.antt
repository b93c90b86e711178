-- ===== src/OverwriteQueue/Fifo.antt =====
-- What a mailbox promises: a first-in first-out queue of whole items with a count and a byte limit.
use pico_fi.Prelude.{
  ltb, leb, ◌==◌, if◌then◌else◌, length, ℕ, ◌+◌, ◌-◌, Bool, not, ◌&&◌, ◌||◌, List, [], ◌∷◌, ◌++◌,
}
use pico_fi.OverwriteQueue.{QueueItem}

-- What a client asks of a mailbox, and what it sees of each call.
pub data Call (T : Type 0) : Type 0 where
  offer : T → Call T
  force : T → Call T
  take_one : Call T

pub data Reply (T : Type 0) : Type 0 where
  accepted : Reply T
  declined : Reply T
  item_of : T → Reply T
  nothing : Reply T

module _ (depth max_bytes : ℕ) {T : Type 0} (item_ops : QueueItem T) where
  abbrev pub total : List T → ℕ
  total [] = 0
  total (t ∷ ts) = item_ops.queued_len t + total ts

  unfoldable pub has_room : List T → ℕ → Bool
  has_room ts len = ltb 0 len && not (length ts == depth) && leb len (max_bytes - total ts)

  -- The oldest items go until the new one fits.
  unfoldable pub evict : ℕ → List T → List T
  evict len [] = []
  evict len (t ∷ ts) = if has_room (t ∷ ts) len then t ∷ ts else evict len ts

  unfoldable pub offered : List T → T → List T × Reply T
  offered ts t =
      if has_room ts (item_ops.queued_len t) then (ts ++ (t ∷ []), accepted) else (ts, declined)

  unfoldable pub forced : List T → T → List T × Reply T
  forced ts t =
      if item_ops.queued_len t == 0 || ltb max_bytes (item_ops.queued_len t) || depth == 0
      then (ts, declined)
      else (evict (item_ops.queued_len t) ts ++ (t ∷ []), accepted)

  unfoldable pub taken : List T → List T × Reply T
  taken [] = ([], nothing)
  taken (t ∷ ts) = (ts, item_of t)

  unfoldable pub serve : List T → Call T → List T × Reply T
  serve ts (offer t) = offered ts t
  serve ts (force t) = forced ts t
  serve ts take_one = taken ts

  unfoldable pub serve_all : List T → List (Call T) → List (Reply T)
  serve_all ts [] = []
  serve_all ts (c ∷ cs) = (serve ts c).1 ∷ serve_all (serve ts c).0 cs
