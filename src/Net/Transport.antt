-- ===== src/Net/Transport.antt =====
-- The loops that write and read a whole buffer.
use pico_fi.Net.{finished, Got, write_socket, read_socket_exact}
use mathlib.Core.List.{append_assoc}
use pico_fi.Prelude.{
  ◌==◌, if_false, if_both, length, length-append, take, drop, take-append-drop, length-take,
  length-drop, Bytes, ℕ, zero, suc, ◌-◌, ◌≤◌, ◌<◌, min, ◌≡◌, refl, sym, ap, ◌∙◌, false, Option,
  none, some, List, [], ◌∷◌, ◌++◌, append-nil, arith,
}

-- Every call of these moves a byte at least.
abbrev pub AllMove : List (Option ℕ) → Type 0
AllMove [] = Unit
AllMove (none ∷ calls) = ⊥
AllMove (some n ∷ calls) = (0 < n) × AllMove calls

-- Whatever the stack does, what goes out is the first part of the buffer, and all of it when
-- `write_socket` succeeds.
pub write_socket-prefix :
    (calls : List (Option ℕ)) (buf : Bytes)
    → (rest : Bytes) × ((write_socket calls buf).out ++ rest ≡ buf)
      × ((write_socket calls buf).io ≡ finished → rest ≡ [])
unfolding write_socket
write_socket-prefix calls [] = ([], refl, λ _. refl)
write_socket-prefix [] (b ∷ buf) = (b ∷ buf, refl, λ e. cc)
write_socket-prefix (none ∷ calls) (b ∷ buf) = (b ∷ buf, refl, λ e. cc)
write_socket-prefix (some zero ∷ calls) (b ∷ buf) = (b ∷ buf, refl, λ e. cc)
write_socket-prefix (some (suc n) ∷ calls) (b ∷ buf) =
    let (rest, e, whole) = write_socket-prefix calls (drop (suc n) (b ∷ buf)) in
    (
      rest,
      append_assoc (take (suc n) (b ∷ buf)) (write_socket calls (drop (suc n) (b ∷ buf))).out rest
          ∙ ap (take (suc n) (b ∷ buf) ++◌) e
          ∙ take-append-drop (suc n) (b ∷ buf),
      whole,
    )

-- `write_socket` ends.
pub write_socket-finished :
    (calls : List (Option ℕ)) (buf : Bytes)
    → AllMove calls
    → length buf ≤ length calls
    → (write_socket calls buf).io ≡ finished
unfolding write_socket
write_socket-finished calls [] m h = refl
write_socket-finished [] (b ∷ buf) m h = absurd (omega arith)
write_socket-finished (none ∷ calls) (b ∷ buf) m h = absurd m
write_socket-finished (some zero ∷ calls) (b ∷ buf) m h = absurd (omega (arith, m.0))
write_socket-finished (some (suc n) ∷ calls) (b ∷ buf) m h =
    write_socket-finished calls (drop (suc n) (b ∷ buf)) m.1
      (omega (arith, length-drop (suc n) (b ∷ buf)))

pub write_socket-out :
    (calls : List (Option ℕ)) (buf : Bytes)
    → AllMove calls
    → length buf ≤ length calls
    → (write_socket calls buf).out ≡ buf
write_socket-out calls buf m h =
    let (rest, e, whole) = write_socket-prefix calls buf in
    sym (append-nil (write_socket calls buf).out)
    ∙ ap ((write_socket calls buf).out ++◌) (sym (whole (write_socket-finished calls buf m h)))
    ∙ e

-- If every call moves a byte at least and there is a call for every byte of the buffer,
-- `write_socket` ends with success, and what went out is the whole buffer in order.
pub write_socket_complete :
    (calls : List (Option ℕ)) (buf : Bytes)
    → AllMove calls
    → length buf ≤ length calls
    → ((write_socket calls buf).io ≡ finished) × ((write_socket calls buf).out ≡ buf)
write_socket_complete calls buf m h =
    (write_socket-finished calls buf m h, write_socket-out calls buf m h)

-- Nothing is lost by a read: what it got and what it left is the stream, and when it succeeds it has
-- got exactly the bytes that were wanted.
pub read_socket_exact-split :
    (calls : List (Option ℕ)) (want : ℕ) (input : Bytes)
    → let g = read_socket_exact calls want input in
      (g.bytes ++ g.rest ≡ input) × (g.io ≡ finished → length g.bytes ≡ want)
unfolding read_socket_exact
read_socket_exact-split calls zero input = (refl, λ _. refl)
read_socket_exact-split [] (suc want) input = (refl, λ e. cc)
read_socket_exact-split (none ∷ calls) (suc want) input = (refl, λ e. cc)
read_socket_exact-split (some n ∷ calls) (suc want) input =
    let k = min n (min (suc want) (length input)) in
    let (e, full) = read_socket_exact-split calls (suc want - k) (drop k input) in
    let g = read_socket_exact calls (suc want - k) (drop k input) in
    if_both
      (λ (r : Got). (r.bytes ++ r.rest ≡ input) × (r.io ≡ finished → length r.bytes ≡ suc want))
      (k == 0) (λ _. (refl, λ e. cc))
      (λ some_read. (
        append_assoc (take k input) g.bytes g.rest
            ∙ ap (take k input ++◌) e
            ∙ take-append-drop k input,
        λ done. omega (arith, full done, length-append (take k input) g.bytes, length-take k input),
      ))

-- A call for every byte is enough if the bytes come.
pub read_socket_exact-finished :
    (calls : List (Option ℕ)) (want : ℕ) (input : Bytes)
    → AllMove calls
    → want ≤ length calls
    → want ≤ length input
    → (read_socket_exact calls want input).io ≡ finished
unfolding read_socket_exact
read_socket_exact-finished calls zero input m h k = refl
read_socket_exact-finished [] (suc want) input m h k = absurd (omega arith)
read_socket_exact-finished (none ∷ calls) (suc want) input m h k = absurd m
read_socket_exact-finished (some n ∷ calls) (suc want) input m h k =
    let got = min n (min (suc want) (length input)) in
    let some_read : (got == 0) ≡ false = ground (arith, m.0) in
    ap (λ (g : Got). g.io) (if_false _ some_read)
    ∙ read_socket_exact-finished calls (suc want - got) (drop got input) m.1 (omega (arith, m.0))
        (omega (arith, length-drop got input))
