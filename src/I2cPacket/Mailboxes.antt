-- ===== src/I2cPacket/Mailboxes.antt =====
-- The mailbox: a staged packet stays until its body is read to the end.
use pico_fi.I2cPacket.{
  Mailbox, header, stage, pending, payload, mailbox_header, idle, complete_body, PacketError,
  new_mailbox, decode,
}
use pico_fi.I2cPacket.Codec.{IsHeader, header-IsHeader, decode-header}
use pico_fi.Prelude.{
  length, take, length-replicate, Bytes, blit, length-blit, Result, ok, err, ℕ, ◌≤◌, ◌≡◌, refl, ap,
  ◌≢◌, Bool, true, false, not, List, [], ◌∷◌, arith,
}

-- The buffer has its size, and kind and length make a valid header.
pub record IsValid (m : Mailbox) : Type 0 where
  pub size : length m.bytes ≡ 4092
  pub header_ok : IsHeader m.kind m.len

pub take-blit :
    (buf src : Bytes) → length src ≤ length buf → take (length src) (blit buf 0 src) ≡ src
take-blit buf [] h = refl
take-blit [] (s ∷ src) h = absurd (omega arith)
take-blit (b ∷ buf) (s ∷ src) h = ap (◌∷◌ s) (take-blit buf src (omega arith))

-- `stage` keeps the invariant.
pub stage-IsValid :
    (m : Mailbox) (kind : ℕ) (body : Bytes) {m' : Mailbox}
    → IsValid m
    → stage m kind body ≡ ok m'
    → IsValid m'
unfolding stage
stage-IsValid m kind body v e = ground (arith, length-blit m.bytes 0 body)

-- A free mailbox takes every valid packet that is not empty, and then shows its header and payload.
pub stage-payload :
    (m : Mailbox) (kind : ℕ) (body : Bytes)
    → IsValid m
    → pending m ≡ false
    → IsHeader kind (length body)
    → kind ≢ idle
    → body ≢ []
    → (m' : Mailbox) × (stage m kind body ≡ ok m')
      × (payload m' ≡ body)
      × (mailbox_header m' ≡ header kind (length body))
      × (pending m' ≡ true)
unfolding stage payload mailbox_header
stage-payload m kind body v free ok_header real full = (
  record m { bytes = blit m.bytes 0 body; kind = kind; len = length body },
  ground arith,
  take-blit m.bytes body (omega (arith, v.size, ok_header)),
  refl,
  ground arith,
)

-- What happens to a mailbox: the bridge offers a packet, or the bus master reads the body, to the
-- end or not. (A read of the header changes nothing.)
pub data Use : Type 0 where
  offer : ℕ → Bytes → Use
  body_read : Bool → Use

abbrev pub staged_or : Mailbox → Result PacketError Mailbox → Mailbox
staged_or m (ok m') = m'
staged_or m (err e) = m

abbrev pub after : Mailbox → Use → Mailbox
after m (offer kind body) = staged_or m (stage m kind body)
after m (body_read complete) = complete_body m complete

abbrev pub after_all : Mailbox → List Use → Mailbox
after_all m [] = m
after_all m (u ∷ us) = after_all (after m u) us

-- No read of the body runs to its end.
abbrev pub NoneComplete : List Use → Type 0
NoneComplete [] = Unit
NoneComplete (offer kind body ∷ us) = NoneComplete us
NoneComplete (body_read complete ∷ us) = (complete ≡ false) × NoneComplete us

-- An occupied mailbox refuses every packet.
pub stage_occupied :
    (m : Mailbox) (kind : ℕ) (body : Bytes)
    → pending m ≡ true
    → (e : PacketError) × (stage m kind body ≡ err e)
unfolding stage
stage_occupied m kind body p = refused (stage m kind body) refl
  where
    refused :
        (r : Result PacketError Mailbox) → stage m kind body ≡ r → (e : PacketError) × (r ≡ err e)
    refused (ok m') e = absurd (ground arith)
    refused (err why) e = (why, refl)

-- A staged packet outlasts every sequence of aborted reads and of further offers.
pub after_all-pending :
    (us : List Use) (m : Mailbox) → pending m ≡ true → NoneComplete us → after_all m us ≡ m
after_all-pending [] m p n = refl
after_all-pending (offer kind body ∷ us) m p n =
    let (e, refused) = stage_occupied m kind body p in rw refused (after_all-pending us m p n)
after_all-pending (body_read complete ∷ us) m p n =
    let kept : complete_body m complete ≡ m = unfold complete_body in rw n.0 in
    rw kept (after_all-pending us m p n.1)

-- Only a body that is read to its end frees the mailbox.
pub complete_body-pending :
    (m : Mailbox) (complete : Bool)
    → pending m ≡ true
    → pending (complete_body m complete) ≡ not complete
unfolding pending complete_body
complete_body-pending m complete p = ground arith

-- So does `complete_body`.
pub complete_body-IsValid :
    (m : Mailbox) (complete : Bool) → IsValid m → IsValid (complete_body m complete)
unfolding complete_body
complete_body-IsValid m complete v = ground arith

-- The invariant holds throughout.
pub after_all-IsValid : (us : List Use) (m : Mailbox) → IsValid m → IsValid (after_all m us)
after_all-IsValid [] m v = v
after_all-IsValid (offer kind body ∷ us) m v =
    after_all-IsValid us _ (kept (stage m kind body) refl)
  where
    kept : (r : Result PacketError Mailbox) → stage m kind body ≡ r → IsValid (staged_or m r)
    kept (ok m') e = stage-IsValid m kind body v e
    kept (err e) _ = v
after_all-IsValid (body_read complete ∷ us) m v =
    after_all-IsValid us _ (complete_body-IsValid m complete v)

pub new_mailbox-IsValid : IsValid new_mailbox
new_mailbox-IsValid = record {
  size = length-replicate {A = ℕ} 4092 0;
  header_ok = (refl, omega arith, λ _. refl);
}

-- Whatever was offered and read since the mailbox was new, `Mailbox::header` does not panic, and
-- the master decodes from it the kind and the length that are staged.
pub mailbox_header-decode :
    (us : List Use)
    → (h : Bytes) × (mailbox_header (after_all new_mailbox us) ≡ ok h)
      × (decode h ≡ ok ((after_all new_mailbox us).kind, (after_all new_mailbox us).len))
unfolding mailbox_header
mailbox_header-decode us =
    let m = after_all new_mailbox us in
    let made =
      header-IsHeader m.kind m.len
        (after_all-IsValid us new_mailbox new_mailbox-IsValid).header_ok in
    (_, made, decode-header m.kind m.len [] made)

-- The header of a valid mailbox.
pub mailbox_header-some : (m : Mailbox) → IsValid m → (h : Bytes) × (mailbox_header m ≡ ok h)
unfolding mailbox_header
mailbox_header-some m v = (_, header-IsHeader m.kind m.len v.header_ok)
