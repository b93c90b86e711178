-- ===== src/OverwriteQueue/Invariant.antt =====
-- The invariant of `QueueState`, and the laws of an item that the mailbox relies on.
use pico_fi.OverwriteQueue.{QueueItem, QueueState}
use pico_fi.OverwriteQueue.Write.{sum}
use pico_fi.Prelude.{length, Bytes, ℕ, ◌+◌, ◌-◌, ◌≤◌, ◌<◌, ◌≡◌, some, List, [], ◌∷◌, ◌++◌}

abbrev pub All {ℓ κ} : {A : Type ℓ} → (A → Type κ) → List A → Type κ
All P [] = Unit
All P (x ∷ xs) = P x × All P xs

-- The bytes that an item takes in the ring.
abbrev pub encode_item : {T : Type 0} → QueueItem T → T → Bytes
encode_item item_ops t = item_ops.copy_queued_slice t 0 (item_ops.queued_len t)

-- An item that is copied in two parts and read back from two parts is the same item.
pub record IsFaithful {T : Type 0} (item_ops : QueueItem T) (IsItem : T → Type 0) : Type 0 where
  pub length-copy :
      (t : T) (start n : ℕ)
      → IsItem t
      → start + n ≤ item_ops.queued_len t
      → length (item_ops.copy_queued_slice t start n) ≡ n
  pub copy-split :
      (t : T) (n : ℕ)
      → IsItem t
      → n ≤ item_ops.queued_len t
      → item_ops.copy_queued_slice t 0 n
          ++ item_ops.copy_queued_slice t n (item_ops.queued_len t - n)
        ≡ encode_item item_ops t
  pub read_back :
      (t : T) (first second : Bytes)
      → IsItem t
      → first ++ second ≡ encode_item item_ops t
      → item_ops.from_queued_slices first second ≡ some t

pub record IsValid (depth max_bytes : ℕ) (s : QueueState) : Type 0 where
  pub size : length s.bytes ≡ max_bytes
  pub head_in : s.head < max_bytes
  pub counted : s.used ≡ sum s.lengths
  pub bounded : s.used ≤ max_bytes
  pub few : length s.lengths ≤ depth
  pub positive : All (λ l. 0 < l) s.lengths
