-- ===== src/Stream/Payload.antt =====
-- The payload loop copies what has arrived, however the driver splits it.
use pico_fi.Stream.{payload_loop}
use pico_fi.Prelude.{
  ltb, Bool-cases, length, take, drop, length-take, length-drop, Bytes, blit, ℕ, zero, suc, ◌+◌,
  ◌-◌, ◌≤◌, ◌<◌, min, ◌≡◌, refl, sym, ap, ◌∙◌, inl, inr, [], ◌∷◌, ◌++◌, arith,
}

-- What `Read::read` promises: where bytes are there and room is left, it returns at least one and
-- at most as many as are there and fit.
pub record IsGrant (grant : ℕ → ℕ → ℕ) : Type 0 where
  pub some_read : (room avail : ℕ) → 0 < room → 0 < avail → 0 < grant room avail
  pub fits_room : (room avail : ℕ) → grant room avail ≤ room
  pub is_there : (room avail : ℕ) → grant room avail ≤ avail

pub blit_nil : (buf : Bytes) (i : ℕ) → blit buf i [] ≡ buf
blit_nil [] zero = refl
blit_nil [] (suc i) = refl
blit_nil (b ∷ buf) zero = refl
blit_nil (b ∷ buf) (suc i) = ap (◌∷◌ b) (blit_nil buf i)

blit_at : (buf ys : Bytes) {i j : ℕ} → i ≡ j → blit buf i ys ≡ blit buf j ys
blit_at buf ys e = ap (λ m. blit buf m ys) e

take_nil : (k : ℕ) → take {A = ℕ} k [] ≡ []
take_nil zero = refl
take_nil (suc k) = refl

drop_nil : (k : ℕ) → drop {A = ℕ} k [] ≡ []
drop_nil zero = refl
drop_nil (suc k) = refl

suc_add : (n k : ℕ) → suc (n + k) ≡ suc n + k
suc_add n k = omega arith

pub blit_twice :
    (buf : Bytes) (i : ℕ) (xs ys : Bytes)
    → blit (blit buf i xs) (i + length xs) ys ≡ blit buf i (xs ++ ys)
blit_twice [] zero [] ys = blit_at [] ys {i = 0 + 0} {j = 0} (omega arith)
blit_twice [] zero (x ∷ xs) ys = blit_at [] ys {j = suc (length xs)} (omega arith)
blit_twice [] (suc i) xs ys = blit_at [] ys {j = suc (i + length xs)} (omega arith)
blit_twice (b ∷ buf) zero [] ys = blit_at (b ∷ buf) ys {i = 0 + 0} {j = 0} (omega arith)
blit_twice (b ∷ buf) zero (x ∷ xs) ys =
    blit_at (x ∷ blit buf 0 xs) ys {j = suc (0 + length xs)} (omega arith)
    ∙ ap (◌∷◌ x) (blit_twice buf 0 xs ys)
blit_twice (b ∷ buf) (suc i) xs ys =
    blit_at (b ∷ blit buf i xs) ys {j = suc (i + length xs)} (omega arith)
    ∙ ap (◌∷◌ b) (blit_twice buf i xs ys)

pub take-take : (n k : ℕ) (xs : Bytes) → take n xs ++ take k (drop n xs) ≡ take (n + k) xs
take-take zero k xs = ap (λ n. take n xs) (omega arith)
take-take (suc n) k [] = take_nil k ∙ sym (take_nil (suc n + k))
take-take (suc n) k (x ∷ xs) =
    ap (◌∷◌ x) (take-take n k xs) ∙ ap (λ m. take m (x ∷ xs)) (suc_add n k)

pub drop-drop : (n k : ℕ) (xs : Bytes) → drop k (drop n xs) ≡ drop (n + k) xs
drop-drop zero k xs = ap (λ n. drop n xs) (omega arith)
drop-drop (suc n) k [] = drop_nil k ∙ sym (drop_nil (suc n + k))
drop-drop (suc n) k (x ∷ xs) = drop-drop n k xs ∙ ap (λ m. drop m (x ∷ xs)) (suc_add n k)

-- What the loop leaves after the bytes that it can take.
abbrev pub copied : ℕ → ℕ → Bytes → Bytes → ℕ × Bytes × Bytes
copied k done payload input = (done + k, blit payload done (take k input), drop k input)

copied_zero :
    (done : ℕ) (payload input : Bytes) → copied 0 done payload input ≡ (done, payload, input)
copied_zero done payload input =
    let e : done + 0 ≡ done = omega arith in λ i. (e i, blit_nil payload done i, input)

pub copied_twice :
    (n k done : ℕ) (payload input : Bytes)
    → n ≤ length input
    → copied k (done + n) (blit payload done (take n input)) (drop n input)
      ≡ copied (n + k) done payload input
copied_twice n k done payload input h =
    let len : length (take n input) ≡ n = omega (arith, length-take n input) in
    let sum : done + n + k ≡ done + (n + k) = omega arith in
    let body =
      ap (λ m. blit (blit payload done (take n input)) (done + m) (take k (drop n input))) (sym len)
      ∙ blit_twice payload done (take n input) (take k (drop n input))
      ∙ ap (blit payload done) (take-take n k input) in
    λ i. (sum i, body i, drop-drop n k input i)

-- Enough fuel takes all that is missing, or all that is there.
pub payload_loop-copied :
    (grant : ℕ → ℕ → ℕ)
    → IsGrant grant
    → (fuel len done : ℕ) (payload input : Bytes) → len - done ≤ fuel
    → payload_loop grant fuel len done payload input
      ≡ copied (min (len - done) (length input)) done payload input
unfolding payload_loop
payload_loop-copied grant g zero len done payload input h =
    let k : min (len - done) (length input) ≡ 0 = omega arith in
    sym (ap (λ m. copied m done payload input) k ∙ copied_zero done payload input)
payload_loop-copied grant g (suc fuel) len done payload [] h =
    let k : min (len - done) 0 ≡ 0 = omega arith in
    sym (ap (λ m. copied m done payload []) k ∙ copied_zero done payload [])
payload_loop-copied grant g (suc fuel) len done payload (b ∷ input) h =
    elim (Bool-cases (ltb done len)) [
      | inl e ↦
          let room : 0 < len - done = ground (arith, e) in
          let n = grant (len - done) (length (b ∷ input)) in
          let some = g.some_read (len - done) (length (b ∷ input)) room (omega arith) in
          let fits = g.fits_room (len - done) (length (b ∷ input)) in
          let there = g.is_there (len - done) (length (b ∷ input)) in
          let left = length-drop n (b ∷ input) in
          let k : n + min (len - (done + n)) (length (drop n (b ∷ input)))
              ≡ min (len - done) (length (b ∷ input)) =
            omega (arith, some, fits, there, left) in
          rw e (
            payload_loop-copied grant g fuel len (done + n) (blit payload done (take n (b ∷ input)))
              (drop n (b ∷ input)) (omega arith)
            ∙ copied_twice n (min (len - (done + n)) (length (drop n (b ∷ input)))) done payload
                (b ∷ input) there
            ∙ ap (λ m. copied m done payload (b ∷ input)) k)
      | inr e ↦
          let k : min (len - done) (length (b ∷ input)) ≡ 0 = ground (arith, e) in
          rw e (
            sym (
              ap (λ m. copied m done payload (b ∷ input)) k ∙ copied_zero done payload (b ∷ input)))
    ]
