-- ===== src/SpiFrame/Queue.antt =====
-- The queue of SPI frames: frames survive the ring, so the mailbox is a queue of whole frames.
use pico_fi.OverwriteQueue.Trace.{CallIsItem, answer_all, answer_all-serve_all}
use pico_fi.OverwriteQueue.Fifo.{Call, serve_all}
use pico_fi.OverwriteQueue.Refine.{Holds}
use pico_fi.OverwriteQueue.{zeros, Counters, new_state, Mailbox}
use pico_fi.SpiFrame.{SpiFrame, spi_item, from_queued_slices, queued_len, copy_queued_slice}
use pico_fi.OverwriteQueue.Invariant.{IsFaithful, All}
use pico_fi.Prelude.{
  length, length-append, take, drop, take-append-drop, take_whole, length-take, length-drop, Bytes,
  ℕ, zero, suc, ◌-◌, ◌≤◌, ◌≡◌, refl, sym, ap, ◌∙◌, some, List, [], ◌++◌, arith,
}

-- The vector is within its capacity.
abbrev pub IsFrame : SpiFrame → Type 0
IsFrame f = length f.bytes ≤ 260

pub split_whole :
    (xs : Bytes) (n : ℕ) → take n xs ++ take (length xs - n) (drop n xs) ≡ take (length xs) xs
split_whole xs n =
    ap (take n xs ++◌) (take_whole (drop n xs) (length xs - n) (omega (arith, length-drop n xs)))
    ∙ take-append-drop n xs
    ∙ sym (take_whole xs (length xs) (omega arith))

from_slices :
    (first second : Bytes)
    → length (first ++ second) ≤ 260
    → from_queued_slices first second ≡ some (record { bytes = first ++ second })
unfolding from_queued_slices
from_slices first second h = ground (arith, length-append first second)

-- SPI frames are stored and read back whole.
pub spi_item-IsFaithful : IsFaithful spi_item IsFrame
unfolding spi_item queued_len copy_queued_slice
spi_item-IsFaithful = record {
  length-copy = λ t start n v h.
      length-take n (drop start t.bytes) ∙ omega (arith, h, length-drop start t.bytes);
  copy-split = λ t n v h. split_whole t.bytes n;
  read_back = λ t first second v e.
      let whole = e ∙ take_whole t.bytes (length t.bytes) (omega arith) in
      from_slices first second (omega (arith, v, ap (λ (xs : Bytes). length xs) whole))
      ∙ ap (λ (xs : Bytes). some (record { bytes = xs })) whole;
}

-- `OverwriteQueue::new()`, whatever the counters and the signals have been.
abbrev pub new_queue : Counters → ℕ → ℕ → Mailbox
new_queue counters ready space = record {
  state = new_state 32 8192;
  counters = counters;
  ready = ready;
  space = space;
}

pub length-zeros : (n : ℕ) → length (zeros n) ≡ n
length-zeros zero = refl
length-zeros (suc n) = ap suc (length-zeros n)

pub new_state-Holds : Holds 32 8192 spi_item IsFrame (new_state 32 8192) []
unfolding new_state
new_state-Holds = record {
  valid = record {
    size = length-zeros 8192;
    head_in = omega arith;
    counted = refl;
    bounded = omega arith;
    few = omega arith;
    positive = tt;
  };
  lengths_are = refl;
  packets_are = refl;
  items = tt;
}

-- From its creation on, the SPI packet queue of 32 frames and 8192 bytes answers every sequence of
-- calls, on frames of at most 260 bytes, as the queue of whole frames with these limits does.
pub answer_all-new_queue :
    (counters : Counters) (ready space : ℕ) (cs : List (Call SpiFrame))
    → All (CallIsItem 32 8192 spi_item IsFrame spi_item-IsFaithful) cs
    → answer_all 32 8192 spi_item (new_queue counters ready space) cs
      ≡ some (serve_all 32 8192 spi_item [] cs)
answer_all-new_queue counters ready space cs v =
    answer_all-serve_all 32 8192 spi_item IsFrame spi_item-IsFaithful cs
      (new_queue counters ready space) [] new_state-Holds v
