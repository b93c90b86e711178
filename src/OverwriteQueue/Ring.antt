-- ===== src/OverwriteQueue/Ring.antt =====
-- The byte ring under the mailbox: what a window of it holds, and what the two copies write.
use native.Mathlib.Nat.{mod-eq_of_lt, mod-eq-sub-mod}
use native.Mathlib.Decide.{dec_lt}
use pico_fi.Prelude.{
  length, take, drop, Bytes, at, blit, ℕ, zero, suc, ◌+◌, ◌-◌, ◌%◌, ◌≤◌, ◌<◌, ◌≡◌, refl, sym, ap,
  ◌∙◌, ◌⊎◌, inl, inr, [], ◌∷◌, ◌++◌, arith,
}

-- A position less than two rounds on wraps once at most.
pub wrap-cases : (x b : ℕ) → x < b + b → ((x < b) × (x % b ≡ x)) ⊎ ((b ≤ x) × (x % b ≡ x - b))
wrap-cases x b h = elim (dec_lt x b) [
  | yes p ↦ inl (p, mod-eq_of_lt p)
  | no p ↦
      let below : x - b < b = omega arith in
      let over : b ≤ x = omega arith in
      inr (over, mod-eq-sub-mod {n = x} {m = b} over ∙ mod-eq_of_lt below)
]

pub at_index : (xs : Bytes) (i j : ℕ) → i ≡ j → at xs i ≡ at xs j
at_index xs i j e = ap (at xs) e

-- Two lists of one length with the same entries are equal.
pub at-ext :
    (xs ys : Bytes)
    → length xs ≡ length ys
    → ((i : ℕ) → i < length xs → at xs i ≡ at ys i)
    → xs ≡ ys
at-ext [] [] e h = refl
at-ext [] (y ∷ ys) e h = absurd (omega arith)
at-ext (x ∷ xs) [] e h = absurd (omega arith)
at-ext (x ∷ xs) (y ∷ ys) e h =
    cc (h 0 (omega arith), at-ext xs ys (omega arith) (λ i p. h (suc i) (omega arith)))

pub at-append_left : (xs ys : Bytes) (i : ℕ) → i < length xs → at (xs ++ ys) i ≡ at xs i
at-append_left [] ys i h = absurd (omega arith)
at-append_left (x ∷ xs) ys zero h = refl
at-append_left (x ∷ xs) ys (suc i) h = at-append_left xs ys i (omega arith)

pub at-append_right : (xs ys : Bytes) (i : ℕ) → at (xs ++ ys) (length xs + i) ≡ at ys i
at-append_right [] ys i = at_index ys (0 + i) i (omega arith)
at-append_right (x ∷ xs) ys i =
    at_index (x ∷ (xs ++ ys)) (suc (length xs) + i) (suc (length xs + i)) (omega arith)
    ∙ at-append_right xs ys i

-- `blit` writes `src` at `i` and leaves the rest.
pub at-blit_in :
    (buf : Bytes) (i : ℕ) (src : Bytes) (j : ℕ)
    → i + length src ≤ length buf
    → j < length src
    → at (blit buf i src) (i + j) ≡ at src j
at-blit_in buf zero [] j h p = absurd (omega arith)
at-blit_in [] zero (s ∷ src) j h p = absurd (omega arith)
at-blit_in (b ∷ buf) zero (s ∷ src) zero h p = refl
at-blit_in (b ∷ buf) zero (s ∷ src) (suc j) h p =
    at_index (s ∷ blit buf zero src) (0 + suc j) (suc (0 + j)) (omega arith)
    ∙ at-blit_in buf zero src j (omega arith) (omega arith)
at-blit_in [] (suc i) src j h p = absurd (omega arith)
at-blit_in (b ∷ buf) (suc i) src j h p =
    at_index (b ∷ blit buf i src) (suc i + j) (suc (i + j)) (omega arith)
    ∙ at-blit_in buf i src j (omega arith) p

pub at-blit_before :
    (buf : Bytes) (i : ℕ) (src : Bytes) (j : ℕ) → j < i → at (blit buf i src) j ≡ at buf j
at-blit_before buf zero src j h = absurd (omega arith)
at-blit_before [] (suc i) src j h = refl
at-blit_before (b ∷ buf) (suc i) src zero h = refl
at-blit_before (b ∷ buf) (suc i) src (suc j) h = at-blit_before buf i src j (omega arith)

pub at-blit_after :
    (buf : Bytes) (i : ℕ) (src : Bytes) (j : ℕ)
    → i + length src ≤ j
    → at (blit buf i src) j ≡ at buf j
at-blit_after [] zero [] j h = refl
at-blit_after (b ∷ buf) zero [] j h = refl
at-blit_after [] zero (s ∷ src) j h = refl
at-blit_after (b ∷ buf) zero (s ∷ src) zero h = absurd (omega arith)
at-blit_after (b ∷ buf) zero (s ∷ src) (suc j) h = at-blit_after buf zero src j (omega arith)
at-blit_after [] (suc i) src j h = refl
at-blit_after (b ∷ buf) (suc i) src zero h = absurd (omega arith)
at-blit_after (b ∷ buf) (suc i) src (suc j) h = at-blit_after buf i src j (omega arith)

pub at-drop : (xs : Bytes) (h i : ℕ) → at (drop h xs) i ≡ at xs (h + i)
at-drop xs zero i = at_index xs i (0 + i) (omega arith)
at-drop [] (suc h) i = refl
at-drop (x ∷ xs) (suc h) i =
    at-drop xs h i ∙ at_index (x ∷ xs) (suc (h + i)) (suc h + i) (omega arith)

pub at-take : (xs : Bytes) (n i : ℕ) → i < n → at (take n xs) i ≡ at xs i
at-take xs zero i h = absurd (omega arith)
at-take [] (suc n) i h = refl
at-take (x ∷ xs) (suc n) zero h = refl
at-take (x ∷ xs) (suc n) (suc i) h = at-take xs n i (omega arith)

-- `n` bytes from position `h` on, positions going round at `b`.
module _ (b : ℕ) where
  abbrev pub window : Bytes → ℕ → ℕ → Bytes
  window buf h zero = []
  window buf h (suc n) = at buf (h % b) ∷ window buf (h + 1) n

  pub length-window : (buf : Bytes) (h n : ℕ) → length (window buf h n) ≡ n
  length-window buf h zero = refl
  length-window buf h (suc n) = ap suc (length-window buf (h + 1) n)

  position : (buf : Bytes) (h k : ℕ) → h ≡ k → at buf (h % b) ≡ at buf (k % b)
  position buf h k e = ap (λ m. at buf (m % b)) e

  pub at-window : (buf : Bytes) (h n i : ℕ) → i < n → at (window buf h n) i ≡ at buf ((h + i) % b)
  at-window buf h zero i p = absurd (omega arith)
  at-window buf h (suc n) zero p = position buf h (h + 0) (omega arith)
  at-window buf h (suc n) (suc i) p =
      at-window buf (h + 1) n i (omega arith) ∙ position buf (h + 1 + i) (h + suc i) (omega arith)

  -- A window is what it holds byte by byte.
  pub window-ext :
      (buf : Bytes) (h n : ℕ) (xs : Bytes)
      → length xs ≡ n
      → ((i : ℕ) → i < n → at buf ((h + i) % b) ≡ at xs i)
      → window buf h n ≡ xs
  window-ext buf h n xs e p =
      at-ext (window buf h n) xs (length-window buf h n ∙ sym e) (λ i q. entry i (bound i q))
    where
      bound : (i : ℕ) → i < length (window buf h n) → i < n
      bound i q = omega (arith, length-window buf h n)

      entry : (i : ℕ) → i < n → at (window buf h n) i ≡ at xs i
      entry i q = at-window buf h n i q ∙ p i q
