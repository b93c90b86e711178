-- ===== src/OverwriteQueue/Write.antt =====
-- What `insert` does to the ring: its two copies write one window and leave the others alone.
use native.Mathlib.Nat.{mod-mod, mod-add-mod}
use native.Mathlib.Decide.{dec_lt}
use pico_fi.OverwriteQueue.Ring.{
  wrap-cases, at_index, at-append_left, at-append_right, at-blit_in, at-blit_before, at-blit_after,
  window, window-ext, length-window, at-window,
}
use pico_fi.Prelude.{
  length, Bytes, at, blit, length-blit, ℕ, zero, suc, ◌+◌, ◌-◌, ◌%◌, ◌≤◌, ◌<◌, min, ◌≡◌, refl, sym,
  ap, ◌∙◌, ◌⊎◌, inl, inr, List, [], ◌∷◌, ◌++◌, arith,
}

abbrev pub sum : List ℕ → ℕ
sum [] = 0
sum (l ∷ ls) = l + sum ls

pub sum-append : (ls : List ℕ) (l : ℕ) → sum (ls ++ l ∷ []) ≡ sum ls + l
sum-append [] l = omega arith
sum-append (k ∷ ls) l = omega (arith, sum-append ls l)

-- Both copies of `insert`: `s1` from `t` on, then `s2` from the start.
abbrev pub two_copies : Bytes → ℕ → Bytes → Bytes → Bytes
two_copies buf t s1 s2 = blit (blit buf t s1) 0 s2

-- Where position `p` lies outside both targets the buffer keeps its byte.
at-two_copies_keep :
    (buf : Bytes) (t : ℕ) (s1 s2 : Bytes) (p : ℕ)
    → length s2 ≤ p
    → (p < t) ⊎ (t + length s1 ≤ p)
    → at (two_copies buf t s1 s2) p ≡ at buf p
at-two_copies_keep buf t s1 s2 p h (inl q) =
    at-blit_after (blit buf t s1) 0 s2 p (omega arith) ∙ at-blit_before buf t s1 p q
at-two_copies_keep buf t s1 s2 p h (inr q) =
    at-blit_after (blit buf t s1) 0 s2 p (omega arith) ∙ at-blit_after buf t s1 p q

at-two_copies_first :
    (buf : Bytes) (t : ℕ) (s1 s2 : Bytes) (i : ℕ)
    → t + length s1 ≤ length buf
    → length s2 ≤ t
    → i < length s1
    → at (two_copies buf t s1 s2) (t + i) ≡ at (s1 ++ s2) i
at-two_copies_first buf t s1 s2 i fit apart h =
    at-blit_after (blit buf t s1) 0 s2 (t + i) (omega arith)
    ∙ at-blit_in buf t s1 i fit h
    ∙ sym (at-append_left s1 s2 i h)

at-two_copies_second :
    (buf : Bytes) (t : ℕ) (s1 s2 : Bytes) (i : ℕ)
    → length s2 ≤ length buf
    → i < length s2
    → at (two_copies buf t s1 s2) i ≡ at (s1 ++ s2) (length s1 + i)
at-two_copies_second buf t s1 s2 i fit h =
    at_index (two_copies buf t s1 s2) i (0 + i) (omega arith)
    ∙ at-blit_in (blit buf t s1) 0 s2 i (omega (arith, length-blit buf t s1)) h
    ∙ sym (at-append_right s1 s2 i)

-- A queue of `used` bytes from `head` on, and `len` bytes that are written behind them.
module _ (b : ℕ) (buf : Bytes) (head used len : ℕ) (s1 s2 : Bytes) (size : length buf ≡ b)
    (head_in : head < b) (room : used + len ≤ b)
    (first_is : length s1 ≡ min len (b - (head + used) % b))
    (second_is : length s2 ≡ len - min len (b - (head + used) % b)) where
  abbrev tail_at : ℕ
  tail_at = (head + used) % b

  -- The bytes of the packets that are queued stay.
  pub write-keeps :
      (i : ℕ)
      → i < used
      → at (two_copies buf ((head + used) % b) s1 s2) ((head + i) % b) ≡ at buf ((head + i) % b)
  write-keeps i h =
      at-two_copies_keep buf tail_at s1 s2 ((head + i) % b)
        (omega
          (arith, wrap-cases (head + i) b (omega arith), wrap-cases (head + used) b (omega arith)))
        (omega
          (arith, wrap-cases (head + i) b (omega arith), wrap-cases (head + used) b (omega arith)))

  -- The new bytes stand behind them.
  pub write-adds :
      (i : ℕ)
      → i < len
      → at (two_copies buf ((head + used) % b) s1 s2) ((head + used + i) % b) ≡ at (s1 ++ s2) i
  write-adds i h = elim (dec_lt i (length s1)) [
    | yes p ↦
        at_index written ((head + used + i) % b) (tail_at + i)
          (omega (arith, first_round, wrap-cases (head + used) b (omega arith)))
        ∙ at-two_copies_first buf tail_at s1 s2 i
            (omega (arith, wrap-cases (head + used) b (omega arith)))
            (omega (arith, wrap-cases (head + used) b (omega arith))) p
    | no p ↦
        at_index written ((head + used + i) % b) (i - length s1)
          (omega (arith, first_round, wrap-cases (head + used) b (omega arith)))
        ∙ at-two_copies_second buf tail_at s1 s2 (i - length s1) (omega arith) (omega arith)
        ∙ at_index (s1 ++ s2) (length s1 + (i - length s1)) i (omega arith)
  ]
    where
      written : Bytes
      written = two_copies buf tail_at s1 s2

      first_round :
          ((head + used + i < b) × ((head + used + i) % b ≡ head + used + i))
          ⊎ ((b ≤ head + used + i) × ((head + used + i) % b ≡ head + used + i - b))
      first_round = wrap-cases (head + used + i) b (omega arith)

-- The packets of the given lengths, from position `h` on.
module _ (b : ℕ) where
  abbrev pub packets : Bytes → ℕ → List ℕ → List Bytes
  packets buf h [] = []
  packets buf h (l ∷ ls) = window b buf h l ∷ packets buf (h + l) ls

  pub length-packets : (buf : Bytes) (h : ℕ) (ls : List ℕ) → length (packets buf h ls) ≡ length ls
  length-packets buf h [] = refl
  length-packets buf h (l ∷ ls) = ap suc (length-packets buf (h + l) ls)

  pub packets-append :
      (buf : Bytes) (h : ℕ) (ls : List ℕ) (l : ℕ)
      → packets buf h (ls ++ l ∷ []) ≡ packets buf h ls ++ (window b buf (h + sum ls) l ∷ [])
  packets-append buf h [] l = ap (λ k. window b buf k l ∷ []) (omega arith)
  packets-append buf h (k ∷ ls) l =
      ap (◌∷◌ (window b buf h k)) (packets-append buf (h + k) ls l ∙ shift)
    where
      same : h + k + sum ls ≡ h + (k + sum ls)
      same = omega arith

      shift :
          packets buf (h + k) ls ++ (window b buf (h + k + sum ls) l ∷ [])
          ≡ packets buf (h + k) ls ++ (window b buf (h + (k + sum ls)) l ∷ [])
      shift = rw same

  -- Positions count modulo the size of the ring.
  window-cong : (buf : Bytes) (h k n : ℕ) → h % b ≡ k % b → window b buf h n ≡ window b buf k n
  window-cong buf h k zero e = refl
  window-cong buf h k (suc n) e = cc (ap (at buf) e, window-cong buf (h + 1) (k + 1) n next)
    where
      next : (h + 1) % b ≡ (k + 1) % b
      next = sym (mod-add-mod h b 1) ∙ ap (λ m. (m + 1) % b) e ∙ mod-add-mod k b 1

  packets-cong :
      (buf : Bytes) (h k : ℕ) (ls : List ℕ) → h % b ≡ k % b → packets buf h ls ≡ packets buf k ls
  packets-cong buf h k [] e = refl
  packets-cong buf h k (l ∷ ls) e =
      cc (window-cong buf h k l e, packets-cong buf (h + l) (k + l) ls next)
    where
      next : (h + l) % b ≡ (k + l) % b
      next = sym (mod-add-mod h b l) ∙ ap (λ m. (m + l) % b) e ∙ mod-add-mod k b l

  pub packets-mod : (buf : Bytes) (h : ℕ) (ls : List ℕ) → packets buf (h % b) ls ≡ packets buf h ls
  packets-mod buf h ls = packets-cong buf (h % b) h ls (mod-mod h b)

  -- Buffers that agree on the bytes in use hold the same packets.
  pub packets-ext :
      (buf buf' : Bytes) (h : ℕ) (ls : List ℕ)
      → ((i : ℕ) → i < sum ls → at buf' ((h + i) % b) ≡ at buf ((h + i) % b))
      → packets buf' h ls ≡ packets buf h ls
  packets-ext buf buf' h [] same = refl
  packets-ext buf buf' h (l ∷ ls) same = cc (here, packets-ext buf buf' (h + l) ls later)
    where
      here : window b buf' h l ≡ window b buf h l
      here =
          window-ext b buf' h l (window b buf h l) (length-window b buf h l)
            (λ i q. same i (omega arith) ∙ sym (at-window b buf h l i q))

      later : (i : ℕ) → i < sum ls → at buf' ((h + l + i) % b) ≡ at buf ((h + l + i) % b)
      later i q = let e : h + l + i ≡ h + (l + i) = omega arith in rw e (same (l + i) (omega arith))
