-- ===== src/SpiFrame/Tests.antt =====
-- The theorems on the packet queue, at a short run of SPI frames.
use pico_fi.SpiFrame.{SpiFrame, spi_item, queued_len}
use pico_fi.SpiFrame.Queue.{
  IsFrame, spi_item-IsFaithful, new_queue, new_state-Holds, answer_all-new_queue,
}
use pico_fi.OverwriteQueue.{Counters, Mailbox, poll_push, refused, pending, done}
use pico_fi.OverwriteQueue.Fifo.{Call, offer, force, take_one, serve_all, has_room}
use pico_fi.OverwriteQueue.Refine.{Holds}
use pico_fi.OverwriteQueue.Trace.{answer_all, answer_all-serve_all}
use pico_fi.OverwriteQueue.Polling.{poll_push-Holds}
use pico_fi.Prelude.{ℕ, ◌<◌, ◌≤◌, ◌≡◌, ◌⊎◌, true, false, some, List, [], ◌∷◌, arith}

abbrev no_counts : Counters
no_counts = record { mailbox_dropped = 0; rejected = 0; mailbox_high_water = 0 }

abbrev ping : SpiFrame
ping = record { bytes = 0xA5 ∷ 0x5A ∷ 1 ∷ 0 ∷ 7 ∷ [] }

abbrev calls : List (Call SpiFrame)
calls = offer ping ∷ force ping ∷ take_one ∷ take_one ∷ take_one ∷ []

answer_all-new_queue_example :
    answer_all 32 8192 spi_item (new_queue no_counts 0 0) calls
    ≡ some (serve_all 32 8192 spi_item [] calls)
answer_all-new_queue_example =
    answer_all-new_queue no_counts 0 0 calls (omega arith, (omega arith, (tt, (tt, (tt, tt)))))

answer_all-serve_all_example :
    answer_all 32 8192 spi_item (new_queue no_counts 3 4) calls
    ≡ some (serve_all 32 8192 spi_item [] calls)
answer_all-serve_all_example =
    answer_all-serve_all 32 8192 spi_item IsFrame spi_item-IsFaithful calls
      (new_queue no_counts 3 4) [] new_state-Holds
      (omega arith, (omega arith, (tt, (tt, (tt, tt)))))

poll_push-Holds_example :
    (q' : Mailbox) × (((poll_push 32 8192 spi_item (new_queue no_counts 0 0) ping
          ≡ some (refused ping, q'))
        × (((◌≡◌ {A = ℕ} 5 0) ⊎ (8192 < 5)) ⊎ (◌≡◌ {A = ℕ} 32 0))
        × Holds 32 8192 spi_item IsFrame q'.state [])
      ⊎ (((poll_push 32 8192 spi_item (new_queue no_counts 0 0) ping ≡ some (pending, q'))
            × (0 < 5)
            × (5 ≤ 8192)
            × (0 < 32)
            × (has_room 32 8192 spi_item [] 5 ≡ false)
            × Holds 32 8192 spi_item IsFrame q'.state [])
          ⊎ ((poll_push 32 8192 spi_item (new_queue no_counts 0 0) ping ≡ some (done, q'))
              × (has_room 32 8192 spi_item [] 5 ≡ true)
              × Holds 32 8192 spi_item IsFrame q'.state (ping ∷ []))))
unfolding spi_item queued_len
poll_push-Holds_example =
    poll_push-Holds 32 8192 spi_item IsFrame spi_item-IsFaithful (new_queue no_counts 0 0) [] ping
      new_state-Holds (omega arith)
