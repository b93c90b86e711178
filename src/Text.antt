-- ===== src/Text.antt =====
-- Texts as lists of bytes: the operations of `str` that the shells use, for ASCII texts.
use Prim.Native.String.{String}
use Prim.Native.Char.{code}
use pico_fi.Prelude.{
  leb, ◌==◌, if◌then◌else◌, Bytes, ℕ, ◌+◌, ◌-◌, ◌*◌, Bool, true, false, ◌&&◌, ◌||◌, Option, none,
  some, List, [], ◌∷◌, ◌++◌,
}

abbrev pub codes : String → Bytes
codes String.[] = []
codes (String.◌∷◌ c s) = code c ∷ codes s

-- `u8::is_ascii_whitespace`
abbrev pub is_ascii_whitespace : ℕ → Bool
is_ascii_whitespace c = c == 32 || c == 9 || c == 10 || c == 12 || c == 13

-- `char::is_whitespace` counts the vertical tab too.
abbrev pub is_whitespace : ℕ → Bool
is_whitespace c = is_ascii_whitespace c || c == 11

abbrev pub trim_start : (ℕ → Bool) → Bytes → Bytes
trim_start p [] = []
trim_start p (c ∷ cs) = let rest = trim_start p cs in if p c then rest else c ∷ cs

-- The byte in front of what is left after trimming, or nothing.
abbrev pub keep_front : Bool → ℕ → Bytes → Bytes
keep_front true c [] = []
keep_front false c [] = c ∷ []
keep_front skip c (x ∷ xs) = c ∷ x ∷ xs

abbrev pub trim_end : (ℕ → Bool) → Bytes → Bytes
trim_end p [] = []
trim_end p (c ∷ cs) = keep_front (p c) c (trim_end p cs)

-- `str::trim_matches`
abbrev pub trim_matches : (ℕ → Bool) → Bytes → Bytes
trim_matches p cs = trim_end p (trim_start p cs)

-- A word that ends, before the words that follow.
abbrev pub flush : Bytes → List Bytes → List Bytes
flush [] ws = ws
flush (c ∷ cs) ws = (c ∷ cs) ∷ ws

-- `str::split_ascii_whitespace`, after the bytes `word` of a word that has begun.
abbrev pub split_words : Bytes → Bytes → List Bytes
split_words word [] = flush word []
split_words word (c ∷ cs) =
    let ws = is_ascii_whitespace c in
    let rest = split_words (if ws then [] else word ++ (c ∷ [])) cs in
    if ws then flush word rest else rest

abbrev pub onto_first : ℕ → List Bytes → List Bytes
onto_first c [] = (c ∷ []) ∷ []
onto_first c (w ∷ ws) = (c ∷ w) ∷ ws

-- `str::split` at every `sep`
abbrev pub split : ℕ → Bytes → List Bytes
split sep [] = [] ∷ []
split sep (c ∷ cs) = let rest = split sep cs in if c == sep then [] ∷ rest else onto_first c rest

abbrev pub onto_left : ℕ → Option (Bytes × Bytes) → Option (Bytes × Bytes)
onto_left c none = none
onto_left c (some (l, r)) = some (c ∷ l, r)

-- `str::split_once`
abbrev pub split_once : ℕ → Bytes → Option (Bytes × Bytes)
split_once sep [] = none
split_once sep (c ∷ cs) =
    let rest = split_once sep cs in if c == sep then some ([], cs) else onto_left c rest

-- The digits of `str::parse`, after the value of those before; no value may exceed `top`.
abbrev pub parse_digits : ℕ → ℕ → Bytes → Option ℕ
parse_digits top value [] = some value
parse_digits top value (c ∷ cs) =
    let next = 10 * value + (c - 48) in
    let rest = parse_digits top next cs in
    if leb 48 c && leb c 57 && leb next top then rest else none

-- `str::parse` at an unsigned type with the largest value `top`: at least one digit, after at most
-- one plus sign.
abbrev pub parse_unsigned : ℕ → Bytes → Option ℕ
parse_unsigned top [] = none
parse_unsigned top (c ∷ []) = parse_digits top 0 (c ∷ [])
parse_unsigned top (c ∷ d ∷ cs) =
    if c == 43 then parse_digits top 0 (d ∷ cs) else parse_digits top 0 (c ∷ d ∷ cs)
