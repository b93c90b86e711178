-- ===== src/OverwriteQueue/Front.antt =====
-- The packet at the head: reading it through two slices, and dropping it.
use native.Mathlib.Nat.{mod-lt}
use pico_fi.OverwriteQueue.Write.{sum, packets, packets-mod}
use native.Mathlib.Decide.{dec_lt}
use pico_fi.OverwriteQueue.Ring.{
  at-take, window, at_index, window-ext, at-drop, wrap-cases, at-append_left, at-append_right,
}
use pico_fi.OverwriteQueue.{QueueItem, QueueState, discard_front, read_item, pop_length}
use pico_fi.OverwriteQueue.Invariant.{encode_item, IsFaithful}
use pico_fi.OverwriteQueue.Refine.{Holds}
use pico_fi.Prelude.{
  length, length-append, drop, length-take, length-drop, Bytes, at, slice, ℕ, ◌+◌, ◌-◌, ◌%◌, ◌≤◌,
  ◌<◌, min, ◌≡◌, refl, sym, ap, ◌∙◌, some, List, ◌∷◌, ◌++◌, map, arith,
}

at-slice : (buf : Bytes) (h n i : ℕ) → i < n → at (slice buf h n) i ≡ at buf (h + i)
at-slice buf h n i p = at-take (drop h buf) n i p ∙ at-drop buf h i

length-slice : (buf : Bytes) (h n : ℕ) → h + n ≤ length buf → length (slice buf h n) ≡ n
length-slice buf h n p = omega (arith, length-take n (drop h buf), length-drop h buf)

-- The two slices of `try_pop` are the window of the packet.
module _ (b : ℕ) (buf : Bytes) (h len : ℕ) (size : length buf ≡ b) (head_in : h < b)
    (fit : len ≤ b) where
  abbrev part : ℕ
  part = min len (b - h)

  abbrev front : Bytes
  front = slice buf h part

  abbrev back : Bytes
  back = slice buf 0 (len - part)

  front_is : length front ≡ part
  front_is = length-slice buf h part (omega arith)

  back_is : length back ≡ len - part
  back_is = length-slice buf 0 (len - part) (omega arith)

  entry : (i : ℕ) → i < len → at buf ((h + i) % b) ≡ at (front ++ back) i
  entry i p = elim (dec_lt i part) [
    | yes q ↦
        at_index buf ((h + i) % b) (h + i) (omega (arith, wrap-cases (h + i) b (omega arith)))
        ∙ sym (at-slice buf h part i q)
        ∙ sym (at-append_left front back i (omega (arith, front_is)))
    | no q ↦
        at_index buf ((h + i) % b) (0 + (i - part))
          (omega (arith, wrap-cases (h + i) b (omega arith)))
        ∙ sym (at-slice buf 0 (len - part) (i - part) (omega arith))
        ∙ sym (at-append_right front back (i - part))
        ∙ at_index (front ++ back) (length front + (i - part)) i (omega (arith, front_is))
  ]

  slices-window : window b buf h len ≡ front ++ back
  slices-window =
      window-ext b buf h len (front ++ back)
        (omega (arith, length-append front back, front_is, back_is)) entry

module _ (depth max_bytes : ℕ) {T : Type 0} (item_ops : QueueItem T) (IsItem : T → Type 0)
    (laws : IsFaithful item_ops IsItem) {s : QueueState} (t : T) (ts : List T)
    (h : Holds depth max_bytes item_ops IsItem s (t ∷ ts)) where
  abbrev len : ℕ
  len = item_ops.queued_len t

  front_packet :
      (window max_bytes s.bytes s.head len ≡ encode_item item_ops t)
      × (packets max_bytes s.bytes (s.head + len) (map item_ops.queued_len ts)
          ≡ map (encode_item item_ops) ts)
  front_packet =
      let split : packets max_bytes s.bytes s.head (len ∷ map item_ops.queued_len ts)
          ≡ map (encode_item item_ops) (t ∷ ts) =
        rw h.lengths_are at h.packets_are in
      (cc, cc)

  front-le-used : len ≤ s.used
  front-le-used = omega (arith, h.valid.counted, ap sum h.lengths_are)

  -- `try_pop` reads the oldest item.
  pub read_item-Holds : read_item depth max_bytes item_ops s len ≡ some t
  unfolding read_item
  read_item-Holds = laws.read_back t _ _ h.items.0 (
      sym (
        slices-window max_bytes s.bytes s.head len h.valid.size h.valid.head_in
          (omega (arith, front-le-used, h.valid.bounded)))
      ∙ front_packet.0)

  abbrev dropped : QueueState
  dropped = record s {
    lengths = map item_ops.queued_len ts;
    head = (s.head + len) % max_bytes;
    used = s.used - len;
  }

  pub discard_front-some : discard_front depth max_bytes s ≡ some dropped
  unfolding discard_front
  discard_front-some = rw (h.lengths_are, pop_length)

  -- Dropping it leaves the others.
  pub discard-Holds : Holds depth max_bytes item_ops IsItem dropped ts
  discard-Holds = record {
    valid = record {
      size = h.valid.size;
      head_in = mod-lt (s.head + len) (omega (arith, h.valid.head_in));
      counted = omega (arith, h.valid.counted, ap sum h.lengths_are);
      bounded = omega (arith, h.valid.bounded);
      few = omega (arith, h.valid.few, ap length h.lengths_are);
      positive = (rw h.lengths_are at h.valid.positive).1;
    };
    lengths_are = refl;
    packets_are =
        packets-mod max_bytes s.bytes (s.head + len) (map item_ops.queued_len ts) ∙ front_packet.1;
    items = h.items.1;
  }
