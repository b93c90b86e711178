-- ===== src/Stream/Resume.antt =====
-- A call that was cancelled while it waited loses nothing: the next call goes on where it stopped.
use pico_fi.Stream.Payload.{copied_twice, IsGrant, copied, payload_loop-copied}
use pico_fi.Stream.{
  FrameReader, header_byte, header_loop, finish_payload, read_payload, failed, pending,
  reset_reader, payload_loop, read, after_header, Left, wait,
}
use pico_fi.Prelude.{
  ltb, if◌then◌else◌, Bool-cases, length, length-append, take, take_whole, take-append, drop-append,
  Bytes, at, blit, length-blit, from_le16, Result, ok, err, ℕ, ◌+◌, ◌-◌, ◌<◌, min, ◌≡◌, refl, sym,
  ap, ◌∙◌, ◌≢◌, inl, inr, Bool, true, false, [], ◌∷◌, ◌++◌, arith,
}

-- The header loop goes on with what arrives later, unless it has failed or is through.
abbrev pub continued :
    Result FrameReader FrameReader × Bytes → Bytes → Result FrameReader FrameReader × Bytes
continued (err r, rest) ys = (err r, rest ++ ys)
continued (ok r, rest) ys = if ltb r.header_len 4 then header_loop r ys else (ok r, rest ++ ys)

pub header_loop_full :
    (r : FrameReader) (input : Bytes)
    → ltb r.header_len 4 ≡ false
    → header_loop r input ≡ (ok r, input)
unfolding header_loop
header_loop_full r [] h = refl
header_loop_full r (b ∷ input) h = rw h refl

header_loop-append :
    (r : FrameReader) (xs ys : Bytes) → header_loop r (xs ++ ys) ≡ continued (header_loop r xs) ys
unfolding header_loop
header_loop-append r [] ys = elim (Bool-cases (ltb r.header_len 4)) [
  | inl e ↦ rw e refl
  | inr e ↦ rw e (header_loop_full r ys e)
]
header_loop-append r (b ∷ xs) ys = elim (Bool-cases (ltb r.header_len 4)) [
  | inl e ↦ rw e (byte_more (header_byte r b) (λ t. header_loop-append t xs ys))
  | inr e ↦ rw (e, e) refl
]
  where
    byte_more :
        (s : Result FrameReader FrameReader)
        → ((t : FrameReader) → header_loop t (xs ++ ys) ≡ continued (header_loop t xs) ys)
        → elim s [ ok t ↦ header_loop t (xs ++ ys) | err t ↦ (err t, xs ++ ys) ]
          ≡ continued (elim s [ ok t ↦ header_loop t xs | err t ↦ (err t, xs) ]) ys
    byte_more (ok t) more = more t
    byte_more (err t) more = refl

-- Copying all that was there, and then some of what came later.
copied-append :
    (k done : ℕ) (p xs ys : Bytes)
    → copied k (done + length xs) (blit p done (take (length xs) xs)) ys
      ≡ copied (length xs + k) done p (xs ++ ys)
copied-append k done p xs ys =
    (λ i.
      copied k (done + length xs)
        (blit p done ((take_whole xs (length xs) (omega arith) ∙ sym (take-append xs ys)) i))
        (sym (drop-append xs ys) i))
    ∙ copied_twice (length xs) k done p (xs ++ ys) (omega (arith, length-append xs ys))

module _ (grant : ℕ → ℕ → ℕ) (g : IsGrant grant) where
  -- The payload loop in closed form, inside a call.
  pub read_payload-copied :
      (eof : Bool) (r : FrameReader) (p input : Bytes) (len : ℕ)
      → from_le16 (at r.header 2) (at r.header 3) ≡ len
      → ltb (length p) len ≡ false
      → read_payload grant eof r p input
        ≡ finish_payload grant eof r len
            (copied (min (len - r.payload_read) (length input)) r.payload_read p input)
  unfolding read_payload
  read_payload-copied eof r p input len el fits =
      ap
        (λ n.
          if ltb (length p) n
          then record { outcome = failed; reader = reset_reader r; payload = p; rest = input }
          else finish_payload grant eof r n (payload_loop grant n n r.payload_read p input))
        el
      ∙ rw fits (
          ap (finish_payload grant eof r len)
            (payload_loop-copied grant g len len r.payload_read p input (omega arith)))

  -- What a pending call says of the payload: all was copied, and more is missing.
  pending_payload :
      (t : FrameReader) (len k done : ℕ) (p rest : Bytes)
      → (finish_payload grant false t len (copied k done p rest)).outcome ≡ pending
      → (done + k < len)
        × ((finish_payload grant false t len (copied k done p rest)).reader
            ≡ record t { payload_read = done + k })
        × ((finish_payload grant false t len (copied k done p rest)).payload
            ≡ blit p done (take k rest))
  unfolding finish_payload
  pending_payload t len k done p rest e = ground arith

  too_long :
      (t : FrameReader) (p rest : Bytes)
      → ltb (length p) (from_le16 (at t.header 2) (at t.header 3)) ≡ true
      → (read_payload grant false t p rest).outcome ≢ pending
  unfolding read_payload
  too_long t p rest big e = ground (arith, big, e)

  -- A call on a reader whose header is complete.
  read_full :
      (eof : Bool) (t : FrameReader) (p input : Bytes)
      → ltb t.header_len 4 ≡ false
      → read grant eof t p input ≡ read_payload grant eof t p input
  unfolding read after_header
  read_full eof t p input full =
      ap (after_header grant eof p) (header_loop_full t input full) ∙ rw full refl

  finish_again :
      (eof : Bool) (t : FrameReader) (len d k done : ℕ) (p input : Bytes)
      → finish_payload grant eof (record t { payload_read = d }) len (copied k done p input)
        ≡ finish_payload grant eof t len (copied k done p input)
  unfolding finish_payload
  finish_again eof t len d k done p input = refl

  -- The next call, from what the pending one left.
  resume_copied :
      (eof : Bool) (t : FrameReader) (len : ℕ) (p rest ys : Bytes) (l : Left)
      → from_le16 (at t.header 2) (at t.header 3) ≡ len
      → ltb (length p) len ≡ false
      → ltb t.header_len 4 ≡ false
      → t.payload_read + length rest < len
      → l.reader ≡ record t { payload_read = t.payload_read + length rest }
      → l.payload ≡ blit p t.payload_read (take (length rest) rest)
      → read grant eof l.reader l.payload ys ≡ read_payload grant eof t p (rest ++ ys)
  resume_copied eof t len p rest ys l el fits full lt er ep =
      let done = t.payload_read in
      let n = length rest in
      let t' = record t { payload_read = done + n } in
      let p' = blit p done (take n rest) in
      let k = min (len - (done + n)) (length ys) in
      let size = length-blit p done (take n rest) in
      let all : n + k ≡ min (len - done) (length (rest ++ ys)) =
        omega (arith, length-append rest ys) in
      (λ i. read grant eof (er i) (ep i) ys)
      ∙ read_full eof t' p' ys full
      ∙ read_payload-copied eof t' p' ys len el (ap (λ m. ltb m len) size ∙ fits)
      ∙ finish_again eof t len (done + n) k (done + n) p' ys
      ∙ ap (finish_payload grant eof t len)
          (copied-append k done p rest ys ∙ ap (λ m. copied m done p (rest ++ ys)) all)
      ∙ sym (read_payload-copied eof t p (rest ++ ys) len el fits)

  resume_fitting :
      (eof : Bool) (t : FrameReader) (len : ℕ) (p rest ys : Bytes)
      → from_le16 (at t.header 2) (at t.header 3) ≡ len
      → ltb (length p) len ≡ false
      → ltb t.header_len 4 ≡ false
      → (read_payload grant false t p rest).outcome ≡ pending
      → read grant eof
          (read_payload grant false t p rest).reader
          (read_payload grant false t p rest).payload
          ys
        ≡ read_payload grant eof t p (rest ++ ys)
  resume_fitting eof t len p rest ys el fits full e =
      let done = t.payload_read in
      let k = min (len - done) (length rest) in
      let q = read_payload-copied false t p rest len el fits in
      let (lt, er, ep) =
        pending_payload t len k done p rest (ap (λ (l : Left). l.outcome) (sym q) ∙ e) in
      let all : k ≡ length rest = omega (arith, lt) in
      let r =
        ap (λ (l : Left). l.reader) q
        ∙ er
        ∙ ap (λ (m : ℕ). record t { payload_read = done + m }) all in
      let b = ap (λ (l : Left). l.payload) q ∙ ep ∙ ap (λ m. blit p done (take m rest)) all in
      resume_copied eof t len p rest ys (read_payload grant false t p rest) el fits full
        (omega (arith, lt, all)) r b

  resume_payload :
      (eof : Bool) (t : FrameReader) (p rest ys : Bytes)
      → ltb t.header_len 4 ≡ false
      → (read_payload grant false t p rest).outcome ≡ pending
      → read grant eof
          (read_payload grant false t p rest).reader
          (read_payload grant false t p rest).payload
          ys
        ≡ read_payload grant eof t p (rest ++ ys)
  resume_payload eof t p rest ys full e =
      let len = from_le16 (at t.header 2) (at t.header 3) in
      elim (Bool-cases (ltb (length p) len)) [
        | inl big ↦ absurd (too_long t p rest big e)
        | inr fits ↦ resume_fitting eof t len p rest ys refl fits full e
      ]

  pub after_header_full :
      (eof : Bool) (t : FrameReader) (p rest : Bytes)
      → ltb t.header_len 4 ≡ false
      → after_header grant eof p (ok t, rest) ≡ read_payload grant eof t p rest
  unfolding after_header
  after_header_full eof t p rest full = rw full refl

  after_header_more :
      (t : FrameReader) (p rest : Bytes)
      → ltb t.header_len 4 ≡ true
      → after_header grant false p (ok t, rest) ≡ wait false t p
  unfolding after_header
  after_header_more t p rest more = rw more refl

  continued_more :
      (t : FrameReader) (rest ys : Bytes)
      → ltb t.header_len 4 ≡ true
      → continued (ok t, rest) ys ≡ header_loop t ys
  continued_more t rest ys more = rw more refl

  continued_full :
      (t : FrameReader) (rest ys : Bytes)
      → ltb t.header_len 4 ≡ false
      → continued (ok t, rest) ys ≡ (ok t, rest ++ ys)
  continued_full t rest ys full = rw full refl

  not_failed :
      (eof : Bool) (t : FrameReader) (p rest : Bytes)
      → (after_header grant eof p (err t, rest)).outcome ≢ pending
  unfolding after_header
  not_failed eof t p rest e = ground (arith, e)

  pub read_header :
      (eof : Bool) (t : FrameReader) (p ys : Bytes)
      → read grant eof t p ys ≡ after_header grant eof p (header_loop t ys)
  unfolding read
  read_header eof t p ys = refl

  -- From the result of the header loop.
  resume_header :
      (eof : Bool) (p ys : Bytes) (h : Result FrameReader FrameReader × Bytes)
      → (after_header grant false p h).outcome ≡ pending
      → read grant eof
          (after_header grant false p h).reader
          (after_header grant false p h).payload
          ys
        ≡ after_header grant eof p (continued h ys)
  resume_header eof p ys (err t, rest) e = absurd (not_failed false t p rest e)
  resume_header eof p ys (ok t, rest) e = elim (Bool-cases (ltb t.header_len 4)) [
    | inl more ↦
        let a = after_header_more t p rest more in
        (λ i. read grant eof (a i).reader (a i).payload ys)
        ∙ read_header eof t p ys
        ∙ ap (after_header grant eof p) (sym (continued_more t rest ys more))
    | inr full ↦
        let a = after_header_full false t p rest full in
        (λ i. read grant eof (a i).reader (a i).payload ys)
        ∙ resume_payload eof t p rest ys full (ap (λ (l : Left). l.outcome) (sym a) ∙ e)
        ∙ sym (
            ap (after_header grant eof p) (continued_full t rest ys full)
            ∙ after_header_full eof t p (rest ++ ys) full)
  ]

  -- A call that waited and was cancelled loses nothing: the next call, on the reader and the
  -- buffer that it left, gives what one call on all the bytes gives.
  pub read-append :
      (eof : Bool) (r : FrameReader) (p xs ys : Bytes)
      → (read grant false r p xs).outcome ≡ pending
      → read grant eof (read grant false r p xs).reader (read grant false r p xs).payload ys
        ≡ read grant eof r p (xs ++ ys)
  unfolding read
  read-append eof r p xs ys e =
      resume_header eof p ys (header_loop r xs) e
      ∙ ap (after_header grant eof p) (sym (header_loop-append r xs ys))
