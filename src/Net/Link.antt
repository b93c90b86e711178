-- ===== src/Net/Link.antt =====
-- The handshake between the two ends of a link.
use pico_fi.Net.{is_answer, is_finished, read_socket_exact, exchange_link_handshake, Handshake}
use pico_fi.Net.Transport.{
  AllMove, read_socket_exact-finished, read_socket_exact-split, write_socket-finished,
  write_socket-out,
}
use pico_fi.Prelude.{
  ◌==◌, if◌then◌else◌, Bool-cases, if_true, if_false, length, length-append, Bytes, bytes_eq,
  bytes_eq_iff, ℕ, ◌≤◌, min, ◌≡◌, refl, sym, ap, ◌∙◌, inl, inr, true, false, ◌&&◌, Option, none,
  some, List, [], ◌∷◌, ◌++◌, append-nil, arith,
}

-- The calls suffice: each moves a byte and there is one for each of the seven.
abbrev pub Suffice : List (Option ℕ) → Type 0
Suffice calls = AllMove calls × (7 ≤ length calls)

-- Seven bytes are read as they come.
is_answer-bytes_eq :
    (magic input : Bytes) (reads : List (Option ℕ))
    → Suffice reads
    → length input ≡ 7
    → is_answer magic (read_socket_exact reads 7 input) ≡ bytes_eq input magic
is_answer-bytes_eq magic input reads (m, h) seven =
    let g = read_socket_exact reads 7 input in
    let done = read_socket_exact-finished reads 7 input m h (omega (arith, seven)) in
    let (e, full) = read_socket_exact-split reads 7 input in
    let none_left : length g.rest ≡ 0 =
      omega
        (arith, full done, length-append g.bytes g.rest, ap (λ (xs : Bytes). length xs) e, seven) in
    let all : g.bytes ≡ input =
      sym (append-nil g.bytes) ∙ ap (λ xs. g.bytes ++ xs) (sym (empty g.rest none_left)) ∙ e in
    ap (λ i. is_finished i && bytes_eq g.bytes magic) done ∙ ap (λ xs. bytes_eq xs magic) all
  where
    empty : (xs : Bytes) → length xs ≡ 0 → xs ≡ []
    empty [] h = refl
    empty (x ∷ xs) h = absurd (omega arith)

-- The end that waits: with the other's magic it answers exactly if that is its own.
exchange_waiting :
    (mine theirs : Bytes) (writes reads : List (Option ℕ))
    → Suffice writes
    → Suffice reads
    → length mine ≡ 7
    → length theirs ≡ 7
    → exchange_link_handshake false mine writes reads theirs
      ≡ record { good = bytes_eq theirs mine; out = if bytes_eq theirs mine then mine else [] }
unfolding exchange_link_handshake
exchange_waiting mine theirs writes reads (w, h) r seven seven' =
    let enough : length mine ≤ length writes = omega (arith, seven, h) in
    let done = write_socket-finished writes mine w enough in
    let all = write_socket-out writes mine w enough in
    let test = is_answer-bytes_eq mine theirs reads r seven' in
    elim (Bool-cases (bytes_eq theirs mine)) [
      | inl same ↦ if_true _ (test ∙ same) ∙ (λ i. record {
        good = (ap is_finished done ∙ sym same) i;
        out = (all ∙ sym (if_true {A = Bytes} {x = mine} [] same)) i;
      })
      | inr other ↦ if_false _ (test ∙ other) ∙ (λ i. record {
        good = sym other i;
        out = sym (if_false {A = Bytes} mine {y = []} other) i;
      })
    ]

-- The end that starts sends its magic, and then judges the answer.
exchange_starting :
    (mine answer : Bytes) (writes reads : List (Option ℕ))
    → Suffice writes
    → length mine ≡ 7
    → exchange_link_handshake true mine writes reads answer
      ≡ record { good = is_answer mine (read_socket_exact reads 7 answer); out = mine }
unfolding exchange_link_handshake
exchange_starting mine answer writes reads (w, h) seven =
    let enough : length mine ≤ length writes = omega (arith, seven, h) in
    λ i. record {
      good =
          is_finished (write_socket-finished writes mine w enough i)
          && is_answer mine (read_socket_exact reads 7 answer);
      out = write_socket-out writes mine w enough i;
    }

-- No answer is none.
is_answer_nil :
    (magic : Bytes) (reads : List (Option ℕ))
    → is_answer magic (read_socket_exact reads 7 []) ≡ false
unfolding read_socket_exact
is_answer_nil magic [] = refl
is_answer_nil magic (none ∷ reads) = refl
is_answer_nil magic (some n ∷ reads) =
    let nothing : (min n (min 7 0) == 0) ≡ true = ground arith in
    ap (is_answer magic) (if_true _ nothing)

judge_answer :
    (mine theirs : Bytes) (reads : List (Option ℕ))
    → Suffice reads
    → length theirs ≡ 7
    → is_answer mine (read_socket_exact reads 7 (if bytes_eq mine theirs then theirs else []))
      ≡ bytes_eq mine theirs
judge_answer mine theirs reads r seven = elim (Bool-cases (bytes_eq mine theirs)) [
  | inl same ↦
      let equal = (bytes_eq_iff mine theirs).0 same in
      ap (λ xs. is_answer mine (read_socket_exact reads 7 xs)) (if_true {x = theirs} [] same)
      ∙ is_answer-bytes_eq mine theirs reads r seven
      ∙ ap (λ xs. bytes_eq theirs xs) equal
      ∙ ap (λ xs. bytes_eq xs theirs) (sym equal)
  | inr other ↦
      ap (λ xs. is_answer mine (read_socket_exact reads 7 xs)) (if_false theirs {y = []} other)
      ∙ is_answer_nil mine reads
      ∙ sym other
]

-- The two ends judge alike, over a connection that carries all bytes and whose calls suffice: with
-- the same magic of seven bytes both succeed and the end that waits has sent it back; with
-- different ones neither succeeds and the end that waits has sent nothing.
pub exchange_link_handshake-agree :
    (mine theirs : Bytes) (writes reads writes' reads' : List (Option ℕ))
    → Suffice writes
    → Suffice reads
    → Suffice writes'
    → Suffice reads'
    → length mine ≡ 7
    → length theirs ≡ 7
    → let sent = (exchange_link_handshake true mine writes reads []).out in
      let waits = exchange_link_handshake false theirs writes' reads' sent in
      let starts = exchange_link_handshake true mine writes reads waits.out in
      (sent ≡ mine)
      × (waits.good ≡ bytes_eq mine theirs)
      × (waits.out ≡ (if bytes_eq mine theirs then theirs else []))
      × (starts.good ≡ bytes_eq mine theirs)
exchange_link_handshake-agree mine theirs writes reads writes' reads' w r w' r' seven seven' =
    let out = ap (λ (h : Handshake). h.out) (exchange_starting mine [] writes reads w seven) in
    let waits =
      ap (exchange_link_handshake false theirs writes' reads') out
      ∙ exchange_waiting theirs mine writes' reads' w' r' seven' seven in
    (
      out,
      ap (λ (h : Handshake). h.good) waits,
      ap (λ (h : Handshake). h.out) waits,
      ap (λ (h : Handshake). (exchange_link_handshake true mine writes reads h.out).good) waits
          ∙ ap (λ (h : Handshake). h.good)
              (exchange_starting mine (if bytes_eq mine theirs then theirs else []) writes reads w
                seven)
          ∙ judge_answer mine theirs reads r seven',
    )
