-- ===== src/OverwriteQueue/Refine.antt =====
-- The ring holds exactly the queued items: each operation on it, seen through `Holds`, is the
-- operation of the first-in first-out queue.
use pico_fi.OverwriteQueue.Ring.{window, window-ext}
use pico_fi.OverwriteQueue.{QueueItem, QueueState, fits, write_item}
use pico_fi.OverwriteQueue.Fifo.{total, has_room}
use pico_fi.OverwriteQueue.Invariant.{All, encode_item, IsFaithful, IsValid}
use pico_fi.OverwriteQueue.Write.{
  sum, packets, packets-ext, write-keeps, write-adds, packets-append, sum-append,
}
use pico_fi.Prelude.{
  length, length-append, length-map, Bytes, blit, length-blit, ℕ, ◌+◌, ◌-◌, ◌%◌, ◌≤◌, ◌<◌, min, ◌≡◌,
  refl, ap, ◌∙◌, List, [], ◌∷◌, ◌++◌, map, map-append, arith,
}

pub All-append {ℓ κ} :
    {A : Type ℓ} (P : A → Type κ) (xs ys : List A) → All P xs → All P ys → All P (xs ++ ys)
All-append P [] ys h k = k
All-append P (x ∷ xs) ys h k = (h.0, All-append P xs ys h.1 k)

module _ (depth max_bytes : ℕ) {T : Type 0} (item_ops : QueueItem T) (IsItem : T → Type 0) where
  -- The state is valid and holds these items, oldest first.
  pub record Holds (s : QueueState) (ts : List T) : Type 0 where
    pub valid : IsValid depth max_bytes s
    pub lengths_are : s.lengths ≡ map item_ops.queued_len ts
    pub packets_are : packets max_bytes s.bytes s.head s.lengths ≡ map (encode_item item_ops) ts
    pub items : All IsItem ts

  pub sum-total :
      (ts : List T) → sum (map item_ops.queued_len ts) ≡ total depth max_bytes item_ops ts
  sum-total [] = refl
  sum-total (t ∷ ts) = omega (arith, sum-total ts)

  pub Holds-used :
      {s : QueueState} {ts : List T} → Holds s ts → s.used ≡ total depth max_bytes item_ops ts
  Holds-used {s} {ts} h = h.valid.counted ∙ ap sum h.lengths_are ∙ sum-total ts

  pub Holds-count : {s : QueueState} {ts : List T} → Holds s ts → length s.lengths ≡ length ts
  Holds-count {s} {ts} h = ap length h.lengths_are ∙ length-map ts item_ops.queued_len

  -- The admission test reads the state as the queue's.
  pub fits_Holds :
      {s : QueueState} {ts : List T} (len : ℕ)
      → Holds s ts
      → fits depth max_bytes s len ≡ has_room depth max_bytes item_ops ts len
  unfolding fits has_room
  fits_Holds len h = rw (Holds-used h, Holds-count h)

  module _ (laws : IsFaithful item_ops IsItem) where
    -- the state that `insert` leaves
    abbrev pub state_after : QueueState → T → QueueState
    state_after s t = record {
      lengths = s.lengths ++ (item_ops.queued_len t ∷ []);
      bytes = write_item depth max_bytes item_ops s t;
      head = s.head;
      used = s.used + item_ops.queued_len t;
    }

    -- An item that fits is appended, and no queued byte changes.
    pub insert-Holds :
        {s : QueueState} {ts : List T} (t : T)
        → Holds s ts
        → IsItem t
        → 0 < item_ops.queued_len t
        → length s.lengths < depth
        → s.used + item_ops.queued_len t ≤ max_bytes
        → Holds (state_after s t) (ts ++ (t ∷ []))
    unfolding write_item
    insert-Holds {s} {ts} t h it pos few room = record {
      valid = record {
        size = length-blit once 0 s2 ∙ length-blit s.bytes at_tail s1 ∙ h.valid.size;
        head_in = h.valid.head_in;
        counted = omega (arith, sum-append s.lengths len, h.valid.counted);
        bounded = room;
        few = omega (arith, length-append s.lengths (len ∷ []));
        positive = All-append (λ l. 0 < l) s.lengths (len ∷ []) h.valid.positive (pos, tt);
      };
      lengths_are = rw (h.lengths_are, map-append);
      packets_are = all_packets;
      items = All-append IsItem ts (t ∷ []) h.items (it, tt);
    }
      where
        len : ℕ
        len = item_ops.queued_len t

        at_tail : ℕ
        at_tail = (s.head + s.used) % max_bytes

        first : ℕ
        first = min len (max_bytes - at_tail)

        s1 : Bytes
        s1 = item_ops.copy_queued_slice t 0 first

        s2 : Bytes
        s2 = item_ops.copy_queued_slice t first (len - first)

        once : Bytes
        once = blit s.bytes at_tail s1

        first_is : length s1 ≡ first
        first_is = laws.length-copy t 0 first it (omega arith)

        second_is : length s2 ≡ len - first
        second_is = laws.length-copy t first (len - first) it (omega arith)

        kept :
            packets max_bytes (blit once 0 s2) s.head s.lengths
            ≡ packets max_bytes s.bytes s.head s.lengths
        kept = packets-ext max_bytes s.bytes (blit once 0 s2) s.head s.lengths (λ i q.
            write-keeps max_bytes s.bytes s.head s.used len s1 s2 h.valid.size h.valid.head_in room
              first_is second_is i (omega (arith, h.valid.counted)))

        added : window max_bytes (blit once 0 s2) (s.head + s.used) len ≡ s1 ++ s2
        added =
            window-ext max_bytes (blit once 0 s2) (s.head + s.used) len (s1 ++ s2)
              (omega (arith, length-append s1 s2, first_is, second_is))
              (write-adds max_bytes s.bytes s.head s.used len s1 s2 h.valid.size h.valid.head_in
                room first_is second_is)

        whole : s1 ++ s2 ≡ encode_item item_ops t
        whole = laws.copy-split t first it (omega arith)

        all_packets :
            packets max_bytes (blit once 0 s2) s.head (s.lengths ++ (len ∷ []))
            ≡ map (encode_item item_ops) (ts ++ (t ∷ []))
        all_packets =
            packets-append max_bytes (blit once 0 s2) s.head s.lengths len
            ∙ rw (← h.valid.counted, kept, added, whole, h.packets_are, map-append)
