-- ===== src/ConfigRecord/Corruption.antt =====
-- The FNV-1a checksum, and what a corrupt byte does to a record.
use pico_fi.Config.{BridgeConfig}
use native.Mathlib.Decide.{dec_lt, ℕ_discrete}
use pico_fi.ConfigRecord.{
  decode_record, mix_bytes, mix_byte, is_intact, checksum32, stored_checksum,
}
use pico_fi.Prelude.{
  ◌==◌, if◌then◌else◌, Bool-cases, length, set, take, length-take, Bytes, AreBytes, at, at-AreBytes,
  bit_xor-lt, bit_xor_cancel_left, bit_xor_cancel_right, ℕ, zero, suc, ◌*◌, ◌%◌, ◌^◌, ◌≤◌, ◌<◌,
  bit_xor, ◌≡◌, refl, sym, ap, ◌∙◌, ◌≢◌, ◌⊎◌, inl, inr, true, none, some, [], ◌∷◌, arith,
}

-- Multiplication by the odd FNV prime loses nothing modulo 2^32.
mul_prime_cancel :
    (x y : ℕ) → x < 2 ^ 32 → y < 2 ^ 32 → x * 0x01000193 % 2 ^ 32 ≡ y * 0x01000193 % 2 ^ 32 → x ≡ y
mul_prime_cancel x y p q e = omega arith

mix_byte-lt : (h b : ℕ) → mix_byte h b < 2 ^ 32
unfolding mix_byte
mix_byte-lt h b = omega arith

mix_byte-cancel_hash :
    (h k b : ℕ) → h < 2 ^ 32 → k < 2 ^ 32 → b < 256 → mix_byte h b ≡ mix_byte k b → h ≡ k
unfolding mix_byte
mix_byte-cancel_hash h k b p q r e = bit_xor_cancel_right 32 h k b p q (
    mul_prime_cancel (bit_xor h b) (bit_xor k b) (bit_xor-lt 32 h b p (omega arith))
      (bit_xor-lt 32 k b q (omega arith)) e)

mix_byte-cancel_byte :
    (h a b : ℕ) → h < 2 ^ 32 → a < 256 → b < 256 → mix_byte h a ≡ mix_byte h b → a ≡ b
unfolding mix_byte
mix_byte-cancel_byte h a b p q r e = bit_xor_cancel_left 32 h a b (omega arith) (omega arith) (
    mul_prime_cancel (bit_xor h a) (bit_xor h b) (bit_xor-lt 32 h a p (omega arith))
      (bit_xor-lt 32 h b p (omega arith)) e)

mix_bytes-cancel :
    (bs : Bytes) (h k : ℕ)
    → h < 2 ^ 32
    → k < 2 ^ 32
    → AreBytes bs
    → mix_bytes h bs ≡ mix_bytes k bs
    → h ≡ k
unfolding mix_bytes
mix_bytes-cancel [] h k p q v e = e
mix_bytes-cancel (b ∷ bs) h k p q v e =
    mix_byte-cancel_hash h k b p q v.0
      (mix_bytes-cancel bs (mix_byte h b) (mix_byte k b) (mix_byte-lt h b) (mix_byte-lt k b) v.1 e)

-- One changed byte changes the hash, wherever it stands.
mix_bytes-set :
    (bs : Bytes) (h i b : ℕ)
    → h < 2 ^ 32
    → AreBytes bs
    → b < 256
    → i < length bs
    → mix_bytes h (set bs i b) ≡ mix_bytes h bs
    → b ≡ at bs i
unfolding mix_bytes
mix_bytes-set [] h i b p v q l e = absurd (omega arith)
mix_bytes-set (a ∷ bs) h zero b p v q l e =
    mix_byte-cancel_byte h b a p q v.0
      (mix_bytes-cancel bs (mix_byte h b) (mix_byte h a) (mix_byte-lt h b) (mix_byte-lt h a) v.1 e)
mix_bytes-set (a ∷ bs) h (suc i) b p v q l e =
    mix_bytes-set bs (mix_byte h a) i b (mix_byte-lt h a) v.1 q (omega arith) e

take-set_before : (n i b : ℕ) (bs : Bytes) → i < n → take n (set bs i b) ≡ set (take n bs) i b
take-set_before zero i b bs h = absurd (omega arith)
take-set_before (suc n) i b [] h = refl
take-set_before (suc n) zero b (x ∷ bs) h = refl
take-set_before (suc n) (suc i) b (x ∷ bs) h = ap (◌∷◌ x) (take-set_before n i b bs (omega arith))

take-set_after : (n i b : ℕ) (bs : Bytes) → n ≤ i → take n (set bs i b) ≡ take n bs
take-set_after zero i b bs h = refl
take-set_after (suc n) i b [] h = refl
take-set_after (suc n) zero b (x ∷ bs) h = absurd (omega arith)
take-set_after (suc n) (suc i) b (x ∷ bs) h = ap (◌∷◌ x) (take-set_after n i b bs (omega arith))

at-set_self : (bs : Bytes) (i b : ℕ) → i < length bs → at (set bs i b) i ≡ b
at-set_self [] i b h = absurd (omega arith)
at-set_self (x ∷ bs) zero b h = refl
at-set_self (x ∷ bs) (suc i) b h = at-set_self bs i b (omega arith)

at-set_ne : (bs : Bytes) (i j b : ℕ) → i ≢ j → at (set bs i b) j ≡ at bs j
at-set_ne [] i j b h = refl
at-set_ne (x ∷ bs) zero zero b h = absurd (h refl)
at-set_ne (x ∷ bs) zero (suc j) b h = refl
at-set_ne (x ∷ bs) (suc i) zero b h = refl
at-set_ne (x ∷ bs) (suc i) (suc j) b h = at-set_ne bs i j b (λ e. h (ap suc e))

at-take_lt : (bs : Bytes) (n i : ℕ) → i < n → at (take n bs) i ≡ at bs i
at-take_lt bs zero i h = absurd (omega arith)
at-take_lt [] (suc n) i h = refl
at-take_lt (x ∷ bs) (suc n) zero h = refl
at-take_lt (x ∷ bs) (suc n) (suc i) h = at-take_lt bs n i (omega arith)

take-AreBytes : (n : ℕ) (bs : Bytes) → AreBytes bs → AreBytes (take n bs)
take-AreBytes zero bs v = tt
take-AreBytes (suc n) [] v = tt
take-AreBytes (suc n) (b ∷ bs) v = (v.0, take-AreBytes n bs v.1)

intact-checksum :
    (buf : Bytes) → is_intact buf ≡ true → checksum32 (take 60 buf) ≡ stored_checksum buf
unfolding is_intact
intact-checksum buf h = ground arith

decoded-is_intact :
    (buf : Bytes) {c : BridgeConfig} → decode_record buf ≡ some c → is_intact buf ≡ true
unfolding decode_record
decoded-is_intact buf e = elim (Bool-cases (is_intact buf)) [
  | inl yes_it ↦ yes_it
  | inr no_it ↦ cc (rw no_it at e)
]

stored-set_before :
    (buf : Bytes) (i b : ℕ) → i < 60 → stored_checksum (set buf i b) ≡ stored_checksum buf
stored-set_before buf i b h = omega (
  arith,
  at-set_ne buf i 60 b (omega arith),
  at-set_ne buf i 61 b (omega arith),
  at-set_ne buf i 62 b (omega arith),
  at-set_ne buf i 63 b (omega arith),
)

at-set :
    (bs : Bytes) (i j b : ℕ) → i < length bs → at (set bs i b) j ≡ (if i == j then b else at bs j)
at-set bs i j b h = ground (arith, at-set_self bs i b h, at-set_ne bs i j b, ap (at (set bs i b)))

changed_before :
    (buf : Bytes) (i b : ℕ)
    → length buf ≡ 64
    → AreBytes buf
    → b < 256
    → i < 60
    → checksum32 (set (take 60 buf) i b) ≡ checksum32 (take 60 buf)
    → b ≡ at buf i
unfolding checksum32
changed_before buf i b size v q early same =
    mix_bytes-set (take 60 buf) 0x811c9dc5 i b (omega arith) (take-AreBytes 60 buf v) q
      (omega (arith, length-take 60 buf)) same
    ∙ at-take_lt buf 60 i early

place :
    (buf : Bytes) (i : ℕ)
    → 60 ≤ i
    → i < 64
    → (at buf i ≡ at buf 60) × (i ≡ 60)
      ⊎ ((at buf i ≡ at buf 61) × (i ≡ 61)
          ⊎ ((at buf i ≡ at buf 62) × (i ≡ 62) ⊎ (at buf i ≡ at buf 63) × (i ≡ 63)))
place buf i lo hi = elim (ℕ_discrete i 60) [
  | yes p ↦ inl (ap (at buf) p, p)
  | no p ↦ elim (ℕ_discrete i 61) [
    | yes q ↦ inr (inl (ap (at buf) q, q))
    | no q ↦ elim (ℕ_discrete i 62) [
      | yes r ↦ inr (inr (inl (ap (at buf) r, r)))
      | no r ↦ let e : i ≡ 63 = omega arith in inr (inr (inr (ap (at buf) e, e)))
    ]
  ]
]

-- A changed byte of the stored checksum changes its value.
stored-set_after :
    (buf : Bytes) (i b : ℕ)
    → length buf ≡ 64
    → AreBytes buf
    → b < 256
    → 60 ≤ i
    → i < 64
    → stored_checksum (set buf i b) ≡ stored_checksum buf
    → b ≡ at buf i
stored-set_after buf i b size v q lo hi e = ground (
  arith,
  at-set buf i 60 b (omega arith),
  at-set buf i 61 b (omega arith),
  at-set buf i 62 b (omega arith),
  at-set buf i 63 b (omega arith),
  at-AreBytes buf 60 v,
  at-AreBytes buf 61 v,
  at-AreBytes buf 62 v,
  at-AreBytes buf 63 v,
  which,
)
  where
    which :
        (at buf i ≡ at buf 60) × (i ≡ 60)
        ⊎ ((at buf i ≡ at buf 61) × (i ≡ 61)
            ⊎ ((at buf i ≡ at buf 62) × (i ≡ 62) ⊎ ((at buf i ≡ at buf 63) × (i ≡ 63))))
    which = place buf i lo hi

-- Both records intact, they agree on every byte that was written.
intact-set :
    (buf : Bytes) (i b : ℕ)
    → length buf ≡ 64
    → AreBytes buf
    → b < 256
    → i < 64
    → is_intact buf ≡ true
    → is_intact (set buf i b) ≡ true
    → b ≡ at buf i
intact-set buf i b size v q l old new = elim (dec_lt i 60) [
  | yes early ↦
      let same : checksum32 (set (take 60 buf) i b) ≡ checksum32 (take 60 buf) =
        ap checksum32 (sym (take-set_before 60 i b buf early))
        ∙ intact-checksum (set buf i b) new
        ∙ stored-set_before buf i b early
        ∙ sym (intact-checksum buf old) in
      changed_before buf i b size v q early same
  | no late ↦ stored-set_after buf i b size v q (omega arith) l (
      sym (intact-checksum (set buf i b) new)
      ∙ ap checksum32 (take-set_after 60 i b buf (omega arith))
      ∙ intact-checksum buf old)
]

-- Of a record that `decode_record` accepts, no single byte can be changed to another value, the
-- checksum's bytes included, without `decode_record` refusing the result.
pub decode_record-set :
    (buf : Bytes) (i b : ℕ) {c : BridgeConfig}
    → length buf ≡ 64
    → AreBytes buf
    → decode_record buf ≡ some c
    → i < 64
    → b < 256
    → b ≢ at buf i
    → decode_record (set buf i b) ≡ none
unfolding decode_record
decode_record-set buf i b size v e l q differs = elim (Bool-cases (is_intact (set buf i b))) [
  | inl still ↦ absurd (differs (intact-set buf i b size v q l (decoded-is_intact buf e) still))
  | inr broken ↦ rw broken
]
