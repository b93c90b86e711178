-- ===== src/DhcpProbe/Options.antt =====
-- The option loop of `is_offer` against a description of BOOTP options.
use pico_fi.DhcpProbe.{scan_options, note_option, unicast}
use pico_fi.Prelude.{
  ltb, ◌==◌, if◌then◌else◌, ==_iff, Bool-cases, length, take, drop, length-drop, Bytes, bytes_eq, ℕ,
  zero, suc, ◌+◌, ◌≤◌, ◌<◌, ◌≡◌, refl, ◌≢◌, ◌↔◌, inl, inr, Bool, true, false, ◌&&◌, Option, none,
  some, List, [], ◌∷◌, arith,
}

-- These bytes hold these options, up to the end mark 255 and whatever follows it. Pads (0) are
-- skipped; a code is followed by a length and that many bytes.
pub data Options : Bytes → List (ℕ × Bytes) → Type 0 where
  end : {kind : ℕ} {rest : Bytes} → kind ≡ 255 → Options (kind ∷ rest) []
  pad :
      {kind : ℕ} {rest : Bytes} {os : List (ℕ × Bytes)}
      → kind ≡ 0
      → Options rest os
      → Options (kind ∷ rest) os
  opt :
      {kind len : ℕ} {rest : Bytes} {os : List (ℕ × Bytes)}
      → kind ≢ 255
      → kind ≢ 0
      → len ≤ length rest
      → Options (drop len rest) os
      → Options (kind ∷ len ∷ rest) ((kind, take len rest) ∷ os)

-- The flags after these options, or `none` if one of them is refused.
abbrev pub noted : List (ℕ × Bytes) → Bool × Bool → Option (Bool × Bool)
noted [] flags = some flags
noted ((kind, value) ∷ os) flags = elim (note_option kind value flags) [
  | none ↦ none
  | some flags' ↦ noted os flags'
]

-- The loop behind one option.
abbrev next_options : ℕ → Bytes → Option (Bool × Bool) → Option Bool
next_options fuel bs noted_flags = elim noted_flags [
  | none ↦ some false
  | some flags ↦ scan_options fuel bs flags
]

next_total :
    (fuel : ℕ) (bs : Bytes) (noted_flags : Option (Bool × Bool))
    → ((flags : Bool × Bool) → (answer : Bool) × (scan_options fuel bs flags ≡ some answer))
    → (answer : Bool) × (next_options fuel bs noted_flags ≡ some answer)
next_total fuel bs none later = (false, refl)
next_total fuel bs (some flags) later = later flags

-- The loop ends whatever the bytes are.
pub scan_options-total :
    (fuel : ℕ) (bs : Bytes) (flags : Bool × Bool)
    → length bs < fuel
    → (answer : Bool) × (scan_options fuel bs flags ≡ some answer)
unfolding scan_options
scan_options-total zero bs flags h = absurd (omega arith)
scan_options-total (suc fuel) [] flags h = (false, refl)
scan_options-total (suc fuel) (kind ∷ []) (o, s) h =
    let skip = scan_options-total fuel [] (o, s) (omega arith) in
    elim (Bool-cases (kind == 255)) [
      | inl last ↦ rw last (o && s, refl)
      | inr more ↦ elim (Bool-cases (kind == 0)) [
        | inl p ↦ rw (more, p) skip
        | inr np ↦ rw (more, np) (false, refl)
      ]
    ]
scan_options-total (suc fuel) (kind ∷ len ∷ rest) (o, s) h = elim (Bool-cases (kind == 255)) [
  | inl last ↦ rw last (o && s, refl)
  | inr more ↦ elim (Bool-cases (kind == 0)) [
    | inl p ↦ rw (more, p) (scan_options-total fuel (len ∷ rest) (o, s) (omega arith))
    | inr np ↦ elim (Bool-cases (ltb (length rest) len)) [
      | inl short ↦ rw (more, np, short) (false, refl)
      | inr fits ↦
          rw (more, np, fits)
            (next_total fuel (drop len rest) (note_option kind (take len rest) (o, s)) (λ flags.
              scan_options-total fuel (drop len rest) flags (omega (arith, length-drop len rest))))
    ]
  ]
]

-- The options that made the loop answer true.
abbrev pub Accepted : Bytes → Bool × Bool → Type 0
Accepted bs flags = (os : List (ℕ × Bytes)) × Options bs os × (noted os flags ≡ some (true, true))

next_sound :
    (fuel : ℕ) (bs : Bytes) (noted_flags : Option (Bool × Bool))
    → next_options fuel bs noted_flags ≡ some true
    → ((flags : Bool × Bool) → scan_options fuel bs flags ≡ some true → Accepted bs flags)
    → (flags : Bool × Bool) × (noted_flags ≡ some flags) × Accepted bs flags
next_sound fuel bs none e later = absurd (ground arith)
next_sound fuel bs (some flags) e later = (flags, refl, later flags e)

accept_opt :
    (kind len : ℕ) (rest : Bytes) (flags flags' : Bool × Bool)
    → kind ≢ 255
    → kind ≢ 0
    → len ≤ length rest
    → note_option kind (take len rest) flags ≡ some flags'
    → Accepted (drop len rest) flags'
    → Accepted (kind ∷ len ∷ rest) flags
accept_opt kind len rest flags flags' n m fits kept (os, read, good) =
    ((kind, take len rest) ∷ os, opt n m fits read, rw (kept, noted) good)

scan_options_sound :
    (fuel : ℕ) (bs : Bytes) (flags : Bool × Bool)
    → scan_options fuel bs flags ≡ some true
    → Accepted bs flags
unfolding scan_options
scan_options_sound zero bs flags e = absurd (ground arith)
scan_options_sound (suc fuel) [] flags e = absurd (ground arith)
scan_options_sound (suc fuel) (kind ∷ []) (o, s) e = elim (Bool-cases (kind == 255)) [
  | inl last ↦ ([], end ((==_iff kind 255).0 last), ground arith)
  | inr more ↦ elim (Bool-cases (kind == 0)) [
    | inl p ↦
        let (os, read, good) = scan_options_sound fuel [] (o, s) (rw (more, p) at e) in
        (os, pad ((==_iff kind 0).0 p) read, good)
    | inr np ↦ absurd (cc (rw (more, np) at e))
  ]
]
scan_options_sound (suc fuel) (kind ∷ len ∷ rest) (o, s) e = elim (Bool-cases (kind == 255)) [
  | inl last ↦ ([], end ((==_iff kind 255).0 last), ground arith)
  | inr more ↦ elim (Bool-cases (kind == 0)) [
    | inl p ↦
        let (os, read, good) = scan_options_sound fuel (len ∷ rest) (o, s) (rw (more, p) at e) in
        (os, pad ((==_iff kind 0).0 p) read, good)
    | inr np ↦ elim (Bool-cases (ltb (length rest) len)) [
      | inl short ↦ absurd (cc (rw (more, np, short) at e))
      | inr fits ↦
          let (flags', kept, os_read) =
            next_sound fuel (drop len rest) (note_option kind (take len rest) (o, s))
              (rw (more, np, fits) at e) (scan_options_sound fuel (drop len rest)) in
          accept_opt kind len rest (o, s) flags' (ground arith) (ground arith) (ground arith) kept
            os_read
    ]
  ]
]

next_complete :
    (fuel : ℕ) (bs : Bytes) (os : List (ℕ × Bytes)) (noted_flags : Option (Bool × Bool))
    → elim noted_flags [ none ↦ none | some flags ↦ noted os flags ] ≡ some (true, true)
    → ((flags : Bool × Bool)
        → noted os flags ≡ some (true, true)
        → scan_options fuel bs flags ≡ some true)
    → next_options fuel bs noted_flags ≡ some true
next_complete fuel bs os none good later = absurd (ground arith)
next_complete fuel bs os (some flags) good later = later flags good

scan_options_complete :
    {bs : Bytes} {os : List (ℕ × Bytes)} (fuel : ℕ) (flags : Bool × Bool)
    → Options bs os
    → length bs < fuel
    → noted os flags ≡ some (true, true)
    → scan_options fuel bs flags ≡ some true
unfolding scan_options
scan_options_complete zero flags read h good = absurd (omega arith)
scan_options_complete (suc fuel) (o, s) (end {kind} {rest = []} e) h good =
    rw ((==_iff kind 255).1 e) (ground arith)
scan_options_complete (suc fuel) (o, s) (end {kind} {rest = x ∷ xs} e) h good =
    rw ((==_iff kind 255).1 e) (ground arith)
scan_options_complete (suc fuel) (o, s) (pad {kind} {rest = []} e read) h good =
    let more : (kind == 255) ≡ false = ground arith in
    rw (more, (==_iff kind 0).1 e) (scan_options_complete fuel (o, s) read (omega arith) good)
scan_options_complete (suc fuel) (o, s) (pad {kind} {rest = x ∷ xs} e read) h good =
    let more : (kind == 255) ≡ false = ground arith in
    rw (more, (==_iff kind 0).1 e) (scan_options_complete fuel (o, s) read (omega arith) good)
scan_options_complete (suc fuel) (o, s) (opt {kind} {len} {rest} {os} n m fits read) h good =
    let more : (kind == 255) ≡ false = ground arith in
    let real : (kind == 0) ≡ false = ground arith in
    let inside : ltb (length rest) len ≡ false = ground arith in
    rw (more, real, inside)
      (next_complete fuel (drop len rest) os (note_option kind (take len rest) (o, s)) good
        (λ flags later.
          scan_options_complete fuel flags read (omega (arith, length-drop len rest)) later))

abbrev pub count_code : ℕ → List (ℕ × Bytes) → ℕ
count_code code [] = 0
count_code code ((kind, value) ∷ os) = (if kind == code then 1 else 0) + count_code code os

-- A message type is an offer, and a server identifier is a unicast address.
abbrev pub ValuesFit : List (ℕ × Bytes) → Type 0
ValuesFit [] = Unit
ValuesFit ((kind, value) ∷ os) =
    (kind ≡ 53 → bytes_eq value (2 ∷ []) ≡ true) × (kind ≡ 54 → unicast value ≡ true) × ValuesFit os

abbrev bit : Bool → ℕ
bit true = 1
bit false = 0

noted-counts :
    (os : List (ℕ × Bytes)) (o s : Bool)
    → noted os (o, s) ≡ some (true, true)
    → (bit o + count_code 53 os ≡ 1) × (bit s + count_code 54 os ≡ 1) × ValuesFit os
unfolding note_option
noted-counts [] o s e = ground arith
noted-counts ((kind, value) ∷ os) o s e =
    ground (arith, noted-counts os true s, noted-counts os o true, noted-counts os o s)

counts-noted :
    (os : List (ℕ × Bytes)) (o s : Bool)
    → bit o + count_code 53 os ≡ 1
    → bit s + count_code 54 os ≡ 1
    → ValuesFit os
    → noted os (o, s) ≡ some (true, true)
unfolding note_option
counts-noted [] o s p q v = ground arith
counts-noted ((kind, value) ∷ os) o s p q v =
    ground (arith, counts-noted os true s, counts-noted os o true, counts-noted os o s)

-- Options in which exactly one is a message type, of value 2, and exactly one a server identifier,
-- a unicast address.
abbrev pub AreOffer : Bytes → Type 0
AreOffer bs =
    (os : List (ℕ × Bytes)) × Options bs os
    × (count_code 53 os ≡ 1)
    × (count_code 54 os ≡ 1)
    × ValuesFit os

-- The option loop ends on all bytes, and it answers true exactly on those that hold, up to their end
-- mark, one message type, of value OFFER, and one server identifier, of a unicast address.
pub scan_options-AreOffer :
    (bs : Bytes)
    → ((answer : Bool) × (scan_options (suc (length bs)) bs (false, false) ≡ some answer))
      × ((scan_options (suc (length bs)) bs (false, false) ≡ some true) ↔ AreOffer bs)
scan_options-AreOffer bs = (
  scan_options-total (suc (length bs)) bs (false, false) (omega arith),
  (
    λ e.
        let (os, read, good) = scan_options_sound (suc (length bs)) bs (false, false) e in
        let (one, other, fit) = noted-counts os false false good in
        (os, read, omega (arith, one), omega (arith, other), fit),
    λ a.
        scan_options_complete (suc (length bs)) (false, false) a.1 (omega arith)
          (counts-noted a.0 false false (omega (arith, a.2)) (omega (arith, a.3)) a.4),
  ),
)
