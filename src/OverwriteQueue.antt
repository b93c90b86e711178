-- ===== src/OverwriteQueue.antt =====
-- src/bridge/overwrite_queue.rs: `QueueState`, `OverwriteQueue` and the aggregate counters.
-- A `Mailbox` is one queue with the counters and with the calls of `signal()` made on it. `none`
-- from an operation that inserts stands for the panic of `push_back(..).unwrap()`.
pub mod Ring
pub mod Write
pub mod Fifo
pub mod Invariant
pub mod Refine
pub mod Front
pub mod Trace
pub mod Polling
pub mod Reserve
use mathlib.Core.Option
use pico_fi.Prelude.{
  ltb, leb, ◌==◌, if◌then◌else◌, length, Bytes, slice, blit, Result, ok, err, ℕ, zero, suc, ◌+◌,
  ◌-◌, ◌%◌, ◌^◌, min, max, Bool, true, false, not, ◌&&◌, ◌||◌, Option, none, some, List, [], ◌∷◌,
  ◌++◌,
}

-- `trait QueueItem`. `copy_queued_slice item start n` is what a target of `n` bytes receives.
pub record QueueItem (T : Type 0) : Type 0 where
  pub queued_len : T → ℕ
  pub copy_queued_slice : T → ℕ → ℕ → Bytes
  pub from_queued_slices : Bytes → Bytes → Option T

pub record QueueState : Type 0 where
  pub lengths : List ℕ
  pub bytes : Bytes
  pub head : ℕ
  pub used : ℕ

-- The static counters of this module that a mailbox writes; each is a wrapping u32.
pub record Counters : Type 0 where
  pub mailbox_dropped : ℕ
  pub rejected : ℕ
  pub mailbox_high_water : ℕ

pub record Mailbox : Type 0 where
  pub state : QueueState
  pub counters : Counters
  pub ready : ℕ
  pub space : ℕ

abbrev pub i2c_packet_queue_depth : ℕ
i2c_packet_queue_depth = 128

abbrev pub i2c_packet_queue_bytes : ℕ
i2c_packet_queue_bytes = 8192

abbrev pub spi_packet_queue_depth : ℕ
spi_packet_queue_depth = 32

abbrev pub spi_packet_queue_bytes : ℕ
spi_packet_queue_bytes = 8192

-- `fetch_add(1)` and `fetch_max` on an `AtomicU32`
abbrev pub fetch_add_one : ℕ → ℕ
fetch_add_one n = (n + 1) % 2 ^ 32

-- `n as u32`
abbrev pub as_u32 : ℕ → ℕ
as_u32 n = n % 2 ^ 32

abbrev pub count_dropped : Counters → Counters
count_dropped c = record c { mailbox_dropped = fetch_add_one c.mailbox_dropped }

abbrev pub count_rejected : Counters → Counters
count_rejected c = record c { rejected = fetch_add_one c.rejected }

abbrev pub count_high_water : ℕ → Counters → Counters
count_high_water n c = record c { mailbox_high_water = max c.mailbox_high_water (as_u32 n) }

abbrev pub zeros : ℕ → Bytes
zeros zero = []
zeros (suc n) = 0 ∷ zeros n

abbrev pub signal_ready : Mailbox → Mailbox
signal_ready q = record q { ready = q.ready + 1 }

abbrev pub signal_space : Mailbox → Mailbox
signal_space q = record q { space = q.space + 1 }

-- What a poll of `push` ends in.
pub data Push (T : Type 0) : Type 0 where
  done : Push T
  refused : T → Push T
  pending : Push T

-- `N` and `MAX_BYTES`
module _ (depth max_bytes : ℕ) where
  unfoldable pub new_state : QueueState
  new_state = record { lengths = []; bytes = zeros max_bytes; head = 0; used = 0 }

  unfoldable pub fits : QueueState → ℕ → Bool
  fits s len = ltb 0 len && not (length s.lengths == depth) && leb len (max_bytes - s.used)

  pub pop_length : QueueState → List ℕ → Option QueueState
  pop_length s [] = none
  pop_length s (len ∷ rest) =
      some (record s { lengths = rest; head = (s.head + len) % max_bytes; used = s.used - len })

  pub discard_front : QueueState → Option QueueState
  unfolding pop_length
  discard_front s = pop_length s s.lengths

  unfoldable pub has_space_for : Mailbox → ℕ → Bool
  unfolding fits
  has_space_for q len = fits q.state len

  -- the guard of `push` and `push_overwrite`
  abbrev pub unacceptable : ℕ → Bool
  unacceptable len = len == 0 || ltb max_bytes len || depth == 0

  -- `while !state.fits(len)`: true when the packet fits, false when the queue ran empty first;
  -- `none` when the fuel is used up.
  pub make_room : ℕ → ℕ → Mailbox → Option (Bool × Mailbox)
  make_room zero len q = none
  make_room (suc fuel) len q = elim (fits q.state len) [
    | true ↦ some (true, q)
    | false ↦ elim (discard_front q.state) [
      | none ↦ some (false, q)
      | some s ↦ make_room fuel len (record q { state = s; counters = count_dropped q.counters })
    ]
  ]

  module _ {T : Type 0} (item_ops : QueueItem T) where
    open item_ops use {queued_len, copy_queued_slice, from_queued_slices}

    -- where `insert` begins to write
    abbrev pub tail : QueueState → ℕ
    tail s = (s.head + s.used) % max_bytes

    -- the buffer once the item is copied in, going round at the end
    pub write_item : QueueState → T → Bytes
    write_item s item =
        let first = min (queued_len item) (max_bytes - tail s) in
        blit (blit s.bytes (tail s) (copy_queued_slice item 0 first)) 0
          (copy_queued_slice item first (queued_len item - first))

    pub insert : Mailbox → T → Option Mailbox
    insert q item =
        if length q.state.lengths == depth
        then none
        else some (record q {
          state = record {
            lengths = q.state.lengths ++ (queued_len item ∷ []);
            bytes = write_item q.state item;
            head = q.state.head;
            used = q.state.used + queued_len item;
          };
          counters = count_high_water (length q.state.lengths + 1) q.counters;
        })

    pub try_push_ref : Mailbox → T → Option (Bool × Mailbox)
    try_push_ref q item =
        if fits q.state (queued_len item)
        then Option.map (λ q'. (true, signal_ready q')) (insert q item)
        else some (false, q)

    -- A refused item goes back to its owner.
    pub try_push : Mailbox → T → Option (Result T (Unit {0}) × Mailbox)
    try_push q item =
        Option.map (λ r. ((if r.0 then ok tt else err item), r.1)) (try_push_ref q item)

    -- One poll of `push`: it runs to its end or to the next `space.wait().await`.
    pub poll_push : Mailbox → T → Option (Push T × Mailbox)
    poll_push q item =
        if unacceptable (queued_len item)
        then some (refused item, q)
        else if has_space_for q (queued_len item)
        then Option.map (λ r. ((if r.0 then done else pending), r.1)) (try_push_ref q item)
        else some (pending, q)

    -- the end of `push_overwrite`, after the loop
    pub insert_if : T → Bool × Mailbox → Option (Bool × Mailbox)
    insert_if item (true, q) = Option.map (λ q'. (true, signal_ready q')) (insert q item)
    insert_if item (false, q) = some (true, signal_ready q)

    pub push_overwrite : Mailbox → T → Option (Bool × Mailbox)
    push_overwrite q item =
        if unacceptable (queued_len item)
        then some (false, record q { counters = count_rejected q.counters })
        else Option.bind (make_room (suc (length q.state.lengths)) (queued_len item) q)
            (insert_if item)

    -- the packet of `len` bytes at the head
    pub read_item : QueueState → ℕ → Option T
    read_item s len =
        let first = min len (max_bytes - s.head) in
        from_queued_slices (slice s.bytes s.head first) (slice s.bytes 0 (len - first))

    pub finish_pop : Mailbox → Option T → Option T × Mailbox
    finish_pop q none = (none, q)
    finish_pop q (some item) = (some item, signal_space q)

    pub pop_packet : Mailbox → List ℕ → Option T × Mailbox
    pop_packet q [] = (none, q)
    pop_packet q (len ∷ rest) =
        finish_pop (record q { state = Option.get_or (discard_front q.state) q.state })
          (read_item q.state len)

    pub try_pop : Mailbox → Option T × Mailbox
    try_pop q = pop_packet q q.state.lengths
