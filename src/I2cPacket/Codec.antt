-- ===== src/I2cPacket/Codec.antt =====
-- The header codec: what it accepts, and that both directions agree.
use pico_fi.I2cPacket.{header, decode, is_kind, idle, magic, packet}
use pico_fi.Prelude.{
  length, take, Bytes, AreBytes, ok, ℕ, ◌+◌, ◌/◌, ◌%◌, ◌≤◌, ◌≡◌, true, [], ◌∷◌, ◌++◌, arith,
}

-- What `header` accepts.
abbrev pub IsHeader : ℕ → ℕ → Type 0
IsHeader kind len = (is_kind kind ≡ true) × (len ≤ 4092) × (kind ≡ idle → len ≡ 0)

pub header-IsHeader :
    (kind len : ℕ)
    → IsHeader kind len
    → header kind len ≡ ok (magic ∷ kind ∷ len % 256 ∷ len / 256 % 256 ∷ [])
unfolding header
header-IsHeader kind len h = ground (arith, h.2)

-- `decode` reads back every header that `header` makes, whatever follows it.
pub decode-header :
    (kind len : ℕ) (rest : Bytes) {h : Bytes}
    → header kind len ≡ ok h
    → decode (h ++ rest) ≡ ok (kind, len)
unfolding header decode
decode-header kind len rest e = ground arith

-- What `decode` accepts is a header that `header` makes: kind and length are valid, and the first
-- four bytes are the header of that kind and length.
pub header-decode :
    (raw : Bytes) (kind len : ℕ)
    → AreBytes raw
    → decode raw ≡ ok (kind, len)
    → IsHeader kind len × (header kind len ≡ ok (take 4 raw))
unfolding header decode
header-decode (a ∷ b ∷ c ∷ d ∷ rest) kind len bs e = ground arith
header-decode _ kind len bs e = ground arith

-- `packet` takes apart every header that `header` makes, followed by as many bytes as it announces.
pub packet-header :
    (kind : ℕ) (body : Bytes) {h : Bytes}
    → header kind (length body) ≡ ok h
    → packet (h ++ body) ≡ ok (kind, body)
unfolding header packet
packet-header kind body e = ground arith

-- What `packet` accepts is as long as its header says.
pub packet-length :
    (raw : Bytes) (kind : ℕ) (body : Bytes)
    → packet raw ≡ ok (kind, body)
    → (decode raw ≡ ok (kind, length body)) × (length raw ≡ 4 + length body)
unfolding packet
packet-length (a ∷ b ∷ c ∷ d ∷ rest) kind body e = ground arith
packet-length _ kind body e = ground arith
