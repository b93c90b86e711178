-- ===== src/Usb/Lines.antt =====
-- Packets and command lines of the USB port.
use pico_fi.Frame.RoundTrip.{append_nil}
use pico_fi.Commands.{Diagnostics, LedCells, render_local_bridge_command}
use pico_fi.Config.{BridgeConfig}
use pico_fi.Usb.{
  LocalCommandState, Output, to_socket, to_usb, handle_usb_input, usb_byte, command_byte,
  write_usb_packet, usb_packets, is_line_byte, handle_local_command, plain_byte, new_command_state,
  write_usb_line,
}
use mathlib.Core.List.{append_assoc}
use pico_fi.Prelude.{
  ltb, ◌==◌, if_true, if_false, length, length-append, take, drop, take-append-drop, length-take,
  length-drop, Bytes, ℕ, zero, suc, ◌+◌, ◌≤◌, ◌<◌, ◌≡◌, refl, sym, ap, ◌∙◌, ◌⊎◌, inl, inr, Bool,
  true, false, ◌&&◌, List, [], ◌∷◌, ◌++◌, map, append-nil, arith,
}

-- The bytes of some packets, and packets that the port takes.
abbrev pub joined : List Output → Bytes
joined [] = []
joined (to_usb packet ∷ out) = packet ++ joined out
joined (to_socket bytes ∷ out) = joined out

abbrev pub ArePackets : List Output → Type 0
ArePackets [] = Unit
ArePackets (to_usb packet ∷ out) = ((0 < length packet) × (length packet ≤ 64)) × ArePackets out
ArePackets (to_socket bytes ∷ out) = ⊥

usb_packets-joined :
    (fuel : ℕ) (bytes : Bytes)
    → length bytes ≤ fuel
    → (joined (map to_usb (usb_packets fuel bytes)) ≡ bytes)
      × ArePackets (map to_usb (usb_packets fuel bytes))
usb_packets-joined zero [] h = (refl, tt)
usb_packets-joined zero (b ∷ bytes) h = absurd (omega arith)
usb_packets-joined (suc fuel) [] h = (refl, tt)
usb_packets-joined (suc fuel) (b ∷ bytes) h =
    let (e, v) =
      usb_packets-joined fuel (drop 64 (b ∷ bytes)) (omega (arith, length-drop 64 (b ∷ bytes))) in
    (
      ap (take 64 (b ∷ bytes) ++◌) e ∙ take-append-drop 64 (b ∷ bytes),
      ((omega (arith, length-take 64 (b ∷ bytes)), omega (arith, length-take 64 (b ∷ bytes))), v),
    )

-- The packets of `write_usb_packet` have 1 to 64 bytes each and are, joined, all of the bytes.
pub write_usb_packet-joined :
    (bytes : Bytes)
    → (joined (write_usb_packet bytes) ≡ bytes) × ArePackets (write_usb_packet bytes)
unfolding write_usb_packet
write_usb_packet-joined bytes = usb_packets-joined (length bytes) bytes (omega arith)

module _ (config : BridgeConfig) (link_active : Bool) (texts : Diagnostics) where
  -- More bytes after some.
  abbrev then_input :
      Bool
      → LedCells × LocalCommandState × List Output
      → Bytes
      → LedCells × LocalCommandState × List Output
  then_input socket (cells, s, out) bytes =
      let (cells', s', rest) = handle_usb_input config link_active texts socket cells s bytes in
      (cells', s', out ++ rest)

  -- It makes no difference where the bytes are divided into packets: one call on all of them leaves
  -- the cells, the state and the output of two calls.
  handle_usb_input-append :
      (socket : Bool) (cells : LedCells) (s : LocalCommandState) (xs ys : Bytes)
      → handle_usb_input config link_active texts socket cells s (xs ++ ys)
        ≡ then_input socket (handle_usb_input config link_active texts socket cells s xs) ys
  handle_usb_input-append socket cells s [] ys = refl
  handle_usb_input-append socket cells s (x ∷ xs) ys =
      let (cells', s', out) = usb_byte config link_active texts socket cells s x in
      let ih = handle_usb_input-append socket cells' s' xs ys in
      let r = handle_usb_input config link_active texts socket cells' s' xs in
      ap (λ q. (q.0, q.1, out ++ q.2)) ih
      ∙ ap (λ o. ((then_input socket r ys).0, (then_input socket r ys).1, o))
          (sym
            (append_assoc out r.2 (handle_usb_input config link_active texts socket r.0 r.1 ys).2))

  -- The bytes of a line, collected.
  abbrev pub AllLineBytes : Bytes → Type 0
  AllLineBytes [] = Unit
  AllLineBytes (b ∷ bytes) = (is_line_byte b ≡ true) × AllLineBytes bytes

  abbrev pub collecting : Bytes → LocalCommandState
  collecting buf = record { at_line_start = true; active = true; buf = buf }

  usb_byte-collect :
      (socket : Bool) (cells : LedCells) (buf : Bytes) (b : ℕ)
      → is_line_byte b ≡ true
      → length buf < 256
      → usb_byte config link_active texts socket cells (collecting buf) b
        ≡ (cells, collecting (buf ++ (b ∷ [])), [])
  unfolding usb_byte command_byte
  usb_byte-collect socket cells buf b ok_byte room =
      let not_cr : (b == 13) ≡ false = ground arith in
      let not_lf : (b == 10) ≡ false = ground arith in
      let taken : (is_line_byte b && ltb (length buf) 256) ≡ true = ground arith in
      if_false _ not_cr ∙ if_false _ not_lf ∙ if_true _ taken

  handle_usb_input-collect :
      (socket : Bool) (cells : LedCells) (buf body : Bytes)
      → AllLineBytes body
      → length buf + length body ≤ 256
      → handle_usb_input config link_active texts socket cells (collecting buf) body
        ≡ (cells, collecting (buf ++ body), [])
  handle_usb_input-collect socket cells buf [] v h =
      λ i. (cells, collecting (sym (append_nil buf) i), [])
  handle_usb_input-collect socket cells buf (b ∷ body) (v, vs) h =
      ap (λ r. then_input socket r body) (usb_byte-collect socket cells buf b v (omega arith))
      ∙ handle_usb_input-collect socket cells (buf ++ (b ∷ [])) body vs
          (omega (arith, length-append buf (b ∷ [])))
      ∙ (λ i. (cells, collecting (append_assoc buf (b ∷ []) body i), []))

  -- What ends a line.
  abbrev pub IsEnding : Bytes → Type 0
  IsEnding ending = (ending ≡ 10 ∷ []) ⊎ (ending ≡ 13 ∷ 10 ∷ [])

  -- The reply to a line, as it is executed.
  abbrev pub executed : LedCells → Bytes → LedCells × LocalCommandState × List Output
  executed cells line =
      let (cells', response) = render_local_bridge_command config link_active texts cells line in
      (cells', new_command_state, write_usb_line response)

  ending-executed :
      (socket : Bool) (cells : LedCells) (body ending : Bytes)
      → IsEnding ending
      → handle_usb_input config link_active texts socket cells (collecting (47 ∷ body)) ending
        ≡ executed cells (47 ∷ body)
  unfolding usb_byte command_byte handle_local_command
  ending-executed socket cells body ending (inl e) =
      ap (handle_usb_input config link_active texts socket cells (collecting (47 ∷ body))) e ∙ (λ i.
        (
          (executed cells (47 ∷ body)).0,
          new_command_state,
          append-nil (executed cells (47 ∷ body)).2 i,
        ))
  ending-executed socket cells body ending (inr e) =
      ap (handle_usb_input config link_active texts socket cells (collecting (47 ∷ body))) e ∙ (λ i.
        (
          (executed cells (47 ∷ body)).0,
          new_command_state,
          append-nil (executed cells (47 ∷ body)).2 i,
        ))

  slash_collecting :
      (socket : Bool) (cells : LedCells) (buf : Bytes)
      → usb_byte config link_active texts socket cells
          (record { at_line_start = true; active = false; buf = buf })
          47
        ≡ (cells, collecting (47 ∷ []), [])
  unfolding usb_byte plain_byte
  slash_collecting socket cells buf = refl

  -- At the start of a line, a slash, at most 255 bytes that a line may hold and a line end, with or
  -- without a carriage return, are executed as one command: nothing goes to the socket, the port
  -- gets the reply and a line end, and the next line starts afresh.
  pub handle_usb_input-command :
      (socket : Bool) (cells : LedCells) (buf body ending : Bytes)
      → AllLineBytes body
      → length body ≤ 255
      → IsEnding ending
      → handle_usb_input config link_active texts socket cells
          (record { at_line_start = true; active = false; buf = buf })
          (47 ∷ body ++ ending)
        ≡ executed cells (47 ∷ body)
  handle_usb_input-command socket cells buf body ending v h e =
      ap (λ r. then_input socket r (body ++ ending)) (slash_collecting socket cells buf)
      ∙ handle_usb_input-append socket cells (collecting (47 ∷ [])) body ending
      ∙ ap (λ r. then_input socket r ending)
          (handle_usb_input-collect socket cells (47 ∷ []) body v (omega arith))
      ∙ ending-executed socket cells body ending e
