-- ===== src/DhcpProbe/Frames.antt =====
-- The DISCOVER frame and the checksum arithmetic.
use native.Mathlib.Decide.{dec_lt}
use pico_fi.DhcpProbe.{discover, sum, fold, finish, is_offer, udp_ok}
use pico_fi.Prelude.{
  length, Bytes, AreBytes, bytes_eq, slice, Mac, ℕ, ◌+◌, ◌*◌, ◌/◌, ◌%◌, ◌^◌, ◌≤◌, ◌<◌, ◌≡◌, refl,
  false, some, [], ◌∷◌, arith,
}

-- The folding loop ends within three rounds on a u32, at a u16 with the same remainder modulo
-- 65535.
fold-total :
    (value : ℕ)
    → value < 2 ^ 32
    → (folded : ℕ) × (fold 3 value ≡ some folded)
      × (folded < 2 ^ 16)
      × (folded % 65535 ≡ value % 65535)
unfolding fold
fold-total value h = elim (dec_lt 0xffff value) [
  | no small ↦ (value, ground arith, omega arith, refl)
  | yes big ↦
      let once : ℕ = value % 65536 + value / 65536 in
      elim (dec_lt 0xffff once) [
        | no small ↦ (once, ground arith, omega arith, omega arith)
        | yes again ↦ (once % 65536 + once / 65536, ground arith, omega arith, omega arith)
      ]
]

-- Each word adds at most 65535.
pub sum-le :
    (bytes : Bytes) (value : ℕ)
    → AreBytes bytes
    → sum bytes value ≤ value + 32768 * (length bytes + 1)
unfolding sum
sum-le [] value v = omega arith
sum-le (a ∷ []) value v = omega arith
sum-le (a ∷ b ∷ rest) value v = omega (arith, sum-le rest (value + (256 * a + b)) v.1.1)

-- The IP header of every DISCOVER frame has a valid checksum.
discover-checksum : (mac : Mac) (xid : ℕ) → finish (sum (slice (discover mac xid) 14 20) 0) ≡ 0
unfolding discover finish sum
discover-checksum mac xid = refl

-- A DISCOVER frame is never taken for an offer, not even by its own sender.
pub discover-not_offer :
    (mac other : Mac) (xid probed : ℕ) → is_offer (discover mac xid) other probed ≡ false
unfolding discover is_offer udp_ok bytes_eq
discover-not_offer mac other xid probed = ground arith
