-- ===== src/Usb/Input.antt =====
-- `handle_usb_input` on whole inputs.
use pico_fi.Config.{BridgeConfig}
use pico_fi.Commands.{LedCells, Diagnostics}
use pico_fi.Usb.{
  LocalCommandState, Output, to_socket, to_usb, forward_usb_bytes, command_byte, plain_byte,
  is_line_byte, handle_usb_input, after_plain, usb_byte,
}
use pico_fi.Frame.RoundTrip.{append_nil}
use mathlib.Core.List.{append_assoc}
use pico_fi.Prelude.{
  ltb, ◌==◌, if_both, length, Bytes, ℕ, ◌≡◌, refl, sym, ap, ◌∙◌, ◌≢◌, Bool, true, false, not, ◌&&◌,
  List, [], ◌∷◌, ◌++◌, arith,
}

-- All that goes to the socket.
abbrev pub forwarded : List Output → Bytes
forwarded [] = []
forwarded (to_socket bytes ∷ out) = bytes ++ forwarded out
forwarded (to_usb packet ∷ out) = forwarded out

forwarded-append : (xs ys : List Output) → forwarded (xs ++ ys) ≡ forwarded xs ++ forwarded ys
forwarded-append [] ys = refl
forwarded-append (to_socket bytes ∷ xs) ys =
    ap (bytes ++◌) (forwarded-append xs ys) ∙ sym (append_assoc bytes (forwarded xs) (forwarded ys))
forwarded-append (to_usb packet ∷ xs) ys = forwarded-append xs ys

forward_usb_bytes-forwarded : (bytes : Bytes) → forwarded (forward_usb_bytes true bytes) ≡ bytes
forward_usb_bytes-forwarded [] = refl
forward_usb_bytes-forwarded (b ∷ bytes) = append_nil (b ∷ bytes)

-- Nothing is kept outside of a command.
abbrev pub IsState : LocalCommandState → Type 0
IsState s = s.active ≡ false → s.buf ≡ []

-- Nothing goes to the port.
abbrev pub AllToSocket : List Output → Type 0
AllToSocket [] = Unit
AllToSocket (to_socket bytes ∷ out) = AllToSocket out
AllToSocket (to_usb packet ∷ out) = ⊥

AllToSocket-append :
    (xs ys : List Output) → AllToSocket xs → AllToSocket ys → AllToSocket (xs ++ ys)
AllToSocket-append [] ys h k = k
AllToSocket-append (to_socket bytes ∷ xs) ys h k = AllToSocket-append xs ys h k
AllToSocket-append (to_usb packet ∷ xs) ys h k = absurd h

forward_usb_bytes-AllToSocket : (bytes : Bytes) → AllToSocket (forward_usb_bytes true bytes)
forward_usb_bytes-AllToSocket [] = tt
forward_usb_bytes-AllToSocket (b ∷ bytes) = tt

-- What came in before and now is what went to the socket and what is kept; the cells that a
-- command changes are these, and nothing goes to the port.
abbrev pub Conserves : LedCells → Bytes → LedCells × LocalCommandState × List Output → Type 0
Conserves cells before r =
    (forwarded r.2 ++ r.1.buf ≡ before) × IsState r.1 × (r.0 ≡ cells) × AllToSocket r.2

IsState-idle : (s : LocalCommandState) → s.buf ≡ [] → IsState s
IsState-idle s e h = e

-- No carriage return and no line feed.
abbrev pub NoLineEnd : Bytes → Type 0
NoLineEnd [] = Unit
NoLineEnd (b ∷ bytes) = (b ≢ 13) × ((b ≢ 10) × NoLineEnd bytes)

after_plain-buf : (s : LocalCommandState) (b : ℕ) → (after_plain s b).buf ≡ s.buf
after_plain-buf s b =
    if_both (λ (t : LocalCommandState). t.buf ≡ s.buf) (b == 10) (λ _. refl)
      (λ _.
        if_both (λ (t : LocalCommandState). t.buf ≡ s.buf) (not (b == 13)) (λ _. refl) (λ _. refl))

plain_byte-Conserves :
    (cells : LedCells) (s : LocalCommandState) (b : ℕ)
    → s.buf ≡ []
    → Conserves cells (s.buf ++ (b ∷ [])) (cells, (plain_byte true s b).0, (plain_byte true s b).1)
unfolding plain_byte
plain_byte-Conserves cells s b empty =
    let kept = after_plain-buf s b ∙ empty in
    let alone = ap (◌++ (b ∷ [])) (sym empty) in
    if_both
      (λ (r : LocalCommandState × List Output).
        Conserves cells (s.buf ++ (b ∷ [])) (cells, r.0, r.1))
      (s.at_line_start && b == 47)
      (λ e. (ap (λ c. c ∷ []) (ground arith) ∙ alone, λ off. cc, refl, tt))
      (λ _. (ap ((b ∷ []) ++◌) kept ∙ alone, λ _. kept, refl, tt))

module _ (config : BridgeConfig) (link_active : Bool) (texts : Diagnostics) where
  command_byte-Conserves :
      (cells : LedCells) (s : LocalCommandState) (b : ℕ)
      → s.active ≡ true
      → b ≢ 13
      → b ≢ 10
      → Conserves cells (s.buf ++ (b ∷ [])) (command_byte config link_active texts true cells s b)
  unfolding command_byte
  command_byte-Conserves cells s b on not_cr not_lf =
      if_both (Conserves cells (s.buf ++ (b ∷ []))) (b == 13) (λ e. absurd (not_cr (ground arith)))
        (λ _.
          if_both (Conserves cells (s.buf ++ (b ∷ []))) (b == 10)
            (λ e. absurd (not_lf (ground arith)))
            (λ _.
              if_both (Conserves cells (s.buf ++ (b ∷ [])))
                (is_line_byte b && ltb (length s.buf) 256) (λ _. (refl, λ off. cc, refl, tt))
                (λ _. (
                  append_nil _
                      ∙ forwarded-append (forward_usb_bytes true s.buf) (to_socket (b ∷ []) ∷ [])
                      ∙ ap (◌++ (b ∷ [])) (forward_usb_bytes-forwarded s.buf),
                  λ _. refl,
                  refl,
                  AllToSocket-append (forward_usb_bytes true s.buf) (to_socket (b ∷ []) ∷ [])
                      (forward_usb_bytes-AllToSocket s.buf) tt,
                ))))

  usb_byte-Conserves :
      (cells : LedCells) (s : LocalCommandState) (b : ℕ)
      → IsState s
      → b ≢ 13
      → b ≢ 10
      → Conserves cells (s.buf ++ (b ∷ [])) (usb_byte config link_active texts true cells s b)
  unfolding usb_byte
  usb_byte-Conserves cells s b v not_cr not_lf =
      if_both (Conserves cells (s.buf ++ (b ∷ []))) s.active
        (λ on. command_byte-Conserves cells s b on not_cr not_lf)
        (λ off. plain_byte-Conserves cells s b (v off))

  -- Bytes without a carriage return and a line feed are neither lost nor made up: what goes to the
  -- socket, followed by what is kept of a possible command, is what was kept before, followed by the
  -- bytes. Outside of a possible command nothing is kept, before as after. Nothing is executed: the
  -- cells that a command can change stay, and nothing is written to the port.
  pub handle_usb_input-Conserves :
      (cells : LedCells) (s : LocalCommandState) (bytes : Bytes)
      → IsState s
      → NoLineEnd bytes
      → Conserves cells
          (s.buf ++ bytes)
          (handle_usb_input config link_active texts true cells s bytes)
  handle_usb_input-Conserves cells s [] v n = (sym (append_nil s.buf), v, refl, tt)
  handle_usb_input-Conserves cells s (b ∷ bytes) v (not_cr, (not_lf, n)) =
      let (cells', s', out) = usb_byte config link_active texts true cells s b in
      let (e, v', same, quiet) = usb_byte-Conserves cells s b v not_cr not_lf in
      let (cells'', s'', rest) = handle_usb_input config link_active texts true cells' s' bytes in
      let (ih, v'', same', quiet') = handle_usb_input-Conserves cells' s' bytes v' n in
      (
        ap (◌++ s''.buf) (forwarded-append out rest)
            ∙ append_assoc (forwarded out) (forwarded rest) s''.buf
            ∙ ap (forwarded out ++◌) ih
            ∙ sym (append_assoc (forwarded out) s'.buf bytes)
            ∙ ap (◌++ bytes) e
            ∙ append_assoc s.buf (b ∷ []) bytes,
        v'',
        same' ∙ same,
        AllToSocket-append out rest quiet quiet',
      )
