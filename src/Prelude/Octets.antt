-- ===== src/Prelude/Octets.antt =====
-- Byte strings: equality tests, slices, copies into a buffer, little- and big-endian words.
use Prim.Native.Nat.{ℕ, zero, suc, ◌+◌, ◌*◌, ◌/◌, ◌%◌, ◌<◌}
use mathlib.Core.Path.{◌≡◌, refl, ap}
use mathlib.Core.Logic.{◌↔◌}
use mathlib.Core.Bool.{Bool, true, false, ◌&&◌}
use mathlib.Core.List.{List, [], ◌∷◌}
use native.Mathlib.Omega.{arith}
use pico_fi.Prelude.Tests.{◌==◌}
use pico_fi.Prelude.Lists.{length, take, drop, get_or}

abbrev pub Bytes : Type 0
Bytes = List ℕ

-- Every number of the list is a byte.
abbrev pub AreBytes : Bytes → Type 0
AreBytes [] = Unit {0}
AreBytes (b ∷ bs) = (b < 256) × AreBytes bs

-- `a == b` on slices.
unfoldable pub bytes_eq : Bytes → Bytes → Bool
bytes_eq [] [] = true
bytes_eq [] (y ∷ ys) = false
bytes_eq (x ∷ xs) [] = false
bytes_eq (x ∷ xs) (y ∷ ys) = (x == y) && bytes_eq xs ys

pub bytes_eq_iff : (a b : Bytes) → (bytes_eq a b ≡ true) ↔ (a ≡ b)
unfolding bytes_eq
bytes_eq_iff [] [] = ground arith
bytes_eq_iff [] (y ∷ ys) = ground arith
bytes_eq_iff (x ∷ xs) [] = ground arith
bytes_eq_iff (x ∷ xs) (y ∷ ys) = ground (arith, bytes_eq_iff xs ys)

pub bytes_eq_self : (a : Bytes) → bytes_eq a a ≡ true
bytes_eq_self a = (bytes_eq_iff a a).1 refl

-- `bytes[i]`; the callers test the length first.
abbrev pub at : Bytes → ℕ → ℕ
at bs i = get_or bs i 0

pub at-AreBytes : (bs : Bytes) (i : ℕ) → AreBytes bs → at bs i < 256
at-AreBytes [] i v = omega arith
at-AreBytes (b ∷ bs) zero v = v.0
at-AreBytes (b ∷ bs) (suc i) v = at-AreBytes bs i v.1

-- `bytes[from..from + n]`
abbrev pub slice : Bytes → ℕ → ℕ → Bytes
slice bs from n = take n (drop from bs)

-- `buf[at..at + src.len()].copy_from_slice(src)`, inside the buffer.
abbrev pub blit : Bytes → ℕ → Bytes → Bytes
blit buf zero [] = buf
blit [] zero (s ∷ src) = []
blit (b ∷ buf) zero (s ∷ src) = s ∷ blit buf zero src
blit [] (suc i) src = []
blit (b ∷ buf) (suc i) src = b ∷ blit buf i src

pub length-blit : (buf : Bytes) (i : ℕ) (src : Bytes) → length (blit buf i src) ≡ length buf
length-blit [] zero [] = refl
length-blit (b ∷ buf) zero [] = refl
length-blit [] zero (s ∷ src) = refl
length-blit (b ∷ buf) zero (s ∷ src) = ap suc (length-blit buf zero src)
length-blit [] (suc i) src = refl
length-blit (b ∷ buf) (suc i) src = ap suc (length-blit buf i src)

-- `u16::from_le_bytes([lo, hi])` and `u16::from_be_bytes([hi, lo])`
abbrev pub from_le16 : ℕ → ℕ → ℕ
from_le16 lo hi = lo + 256 * hi

abbrev pub le16 : ℕ → Bytes
le16 n = n % 256 ∷ n / 256 % 256 ∷ []

abbrev pub be16 : ℕ → Bytes
be16 n = n / 256 % 256 ∷ n % 256 ∷ []

abbrev pub from_le32 : ℕ → ℕ → ℕ → ℕ → ℕ
from_le32 a b c d = a + 256 * b + 65536 * c + 16777216 * d

abbrev pub le32 : ℕ → Bytes
le32 n = n % 256 ∷ n / 256 % 256 ∷ n / 65536 % 256 ∷ n / 16777216 % 256 ∷ []

abbrev pub be32 : ℕ → Bytes
be32 n = n / 16777216 % 256 ∷ n / 65536 % 256 ∷ n / 256 % 256 ∷ n % 256 ∷ []

-- `[u8; 4]` as an address, and `[u8; 6]`.
pub record Ip : Type 0 where
  pub a : ℕ
  pub b : ℕ
  pub c : ℕ
  pub d : ℕ

pub record Mac : Type 0 where
  pub a : ℕ
  pub b : ℕ
  pub c : ℕ
  pub d : ℕ
  pub e : ℕ
  pub f : ℕ

abbrev pub ip_bytes : Ip → Bytes
ip_bytes ip = ip.a ∷ ip.b ∷ ip.c ∷ ip.d ∷ []

abbrev pub mac_bytes : Mac → Bytes
mac_bytes m = m.a ∷ m.b ∷ m.c ∷ m.d ∷ m.e ∷ m.f ∷ []

-- `bytes[i..i + 4].try_into()` and `bytes[i..i + 6].try_into()`
abbrev pub ip_at : Bytes → ℕ → Ip
ip_at bs i = record { a = at bs i; b = at bs (i + 1); c = at bs (i + 2); d = at bs (i + 3) }

abbrev pub mac_at : Bytes → ℕ → Mac
mac_at bs i = record {
  a = at bs i;
  b = at bs (i + 1);
  c = at bs (i + 2);
  d = at bs (i + 3);
  e = at bs (i + 4);
  f = at bs (i + 5);
}

-- Rust's `Result` with the error left abstract.
pub data Result {ℓ κ} (E : Type ℓ) (A : Type κ) : Type (ℓ ⊔ κ) where
  ok : A → Result E A
  err : E → Result E A
