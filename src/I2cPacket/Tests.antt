-- ===== src/I2cPacket/Tests.antt =====
-- The theorems on I2C packets, at one data packet.
use pico_fi.I2cPacket.{Mailbox, new_mailbox, header, decode, mailbox_header}
use pico_fi.I2cPacket.Codec.{IsHeader, header-decode}
use pico_fi.I2cPacket.Mailboxes.{offer, body_read, Use, after_all, mailbox_header-decode}
use pico_fi.Prelude.{take, Bytes, ok, ◌≡◌, refl, false, List, [], ◌∷◌, arith}

abbrev body : Bytes
body = 7 ∷ 8 ∷ 9 ∷ []

abbrev head : Bytes
head = 0xD2 ∷ 1 ∷ 3 ∷ 0 ∷ []

header-decode_example : IsHeader 1 3 × (header 1 3 ≡ ok (take 4 head))
unfolding decode header
header-decode_example =
    header-decode head 1 3 (omega arith, (omega arith, (omega arith, (omega arith, tt)))) refl

abbrev uses : List Use
uses = offer 1 body ∷ body_read false ∷ offer 2 body ∷ []

mailbox_header-decode_example :
    (h : Bytes) × (mailbox_header (after_all new_mailbox uses) ≡ ok h)
    × (decode h ≡ ok ((after_all new_mailbox uses).kind, (after_all new_mailbox uses).len))
mailbox_header-decode_example = mailbox_header-decode uses

-- A mailbox that holds a packet.
abbrev full : Mailbox
full = record new_mailbox { kind = 1; len = 3 }
