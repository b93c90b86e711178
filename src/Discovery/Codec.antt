-- ===== src/Discovery/Codec.antt =====
-- The discovery codec: both directions.
use mathlib.Core.Path.{ap₂}
use pico_fi.Discovery.{
  Message, Kind, query, offer, Party, encode, decode, fields_ok, kind_of, party_of, from_le64,
  kind_byte, party_byte, le64, ground_station, pico, any_nonzero, decode_fields, magic_bytes,
}
use pico_fi.Prelude.{
  length, take, drop, replicate, length-drop, Bytes, AreBytes, bytes_eq, bytes_eq_iff, at,
  at-AreBytes, from_le16, le16, from_le32, le32, mac_bytes, mac_at, ℕ, ◌+◌, ◌*◌, ◌/◌, ◌%◌, ◌^◌, ◌<◌,
  ◌≡◌, refl, ap, ◌∙◌, true, false, Option, none, some, [], ◌∷◌, ◌++◌, arith,
}

-- The messages that the wire format can carry: a query names no port, an offer names one, and the
-- nonce is not 0.
pub record IsWire (m : Message) : Type 0 where
  pub port_small : m.port < 2 ^ 16
  pub nonce_small : m.nonce < 2 ^ 64
  pub fits_kind : fields_ok m.kind m.port m.nonce ≡ true

kind-round : (k : Kind) → kind_of (kind_byte k) ≡ some k
unfolding kind_of
kind-round query = refl
kind-round offer = refl

party-round : (p : Party) → party_of (party_byte p) ≡ some p
unfolding party_of
party-round ground_station = refl
party-round pico = refl

le16-round : (n : ℕ) → n < 2 ^ 16 → from_le16 (n % 256) (n / 256 % 256) ≡ n
le16-round n h = omega arith

from_le64-le64 : (n : ℕ) → n < 2 ^ 64 → from_le64 (le64 n) 0 ≡ n
from_le64-le64 n h = omega arith

-- Every message of the wire format is read back from its encoding.
pub decode-encode : (m : Message) → IsWire m → decode (encode m) ≡ some m
unfolding decode encode bytes_eq
decode-encode m w = rw (
  kind-round m.kind,
  party-round m.party,
  le16-round m.port w.port_small,
  from_le64-le64 m.nonce w.nonce_small,
  w.fits_kind,
)

any_nonzero-zeros : (bs : Bytes) → any_nonzero bs ≡ false → bs ≡ replicate (length bs) 0
unfolding any_nonzero
any_nonzero-zeros [] h = refl
any_nonzero-zeros (b ∷ bs) h = ground (arith, any_nonzero-zeros bs)

-- What the guards of `decode` let through.
decode_guards :
    (bs : Bytes) {m : Message}
    → decode bs ≡ some m
    → (length bs ≡ 32)
      × (bytes_eq (take 8 bs) magic_bytes ≡ true)
      × (any_nonzero (drop 26 bs) ≡ false)
      × (decode_fields bs (kind_of (at bs 8)) (party_of (at bs 9)) ≡ some m)
unfolding decode
decode_guards bs e = ground arith

kind_of_byte : (b : ℕ) {k : Kind} → kind_of b ≡ some k → kind_byte k ≡ b
unfolding kind_of
kind_of_byte b e = ground arith

party_of_byte : (b : ℕ) {p : Party} → party_of b ≡ some p → party_byte p ≡ b
unfolding party_of
party_of_byte b e = ground arith

-- Where the fields of a decoded message come from.
record ReadFrom (bs : Bytes) (m : Message) : Type 0 where
  kind_is : kind_byte m.kind ≡ at bs 8
  party_is : party_byte m.party ≡ at bs 9
  port_is : m.port ≡ from_le16 (at bs 10) (at bs 11)
  nonce_is : m.nonce ≡ from_le64 bs 12
  identity_is : m.identity ≡ mac_at bs 20
  fits : fields_ok m.kind m.port m.nonce ≡ true

fields_read :
    (bs : Bytes) (k : Option Kind) (p : Option Party) {m : Message}
    → decode_fields bs k p ≡ some m
    → kind_of (at bs 8) ≡ k
    → party_of (at bs 9) ≡ p
    → ReadFrom bs m
unfolding decode_fields
fields_read bs none p e hk hp = absurd (ground arith)
fields_read bs (some k) none e hk hp = absurd (ground arith)
fields_read bs (some k) (some p) e hk hp =
    ground (arith, kind_of_byte (at bs 8) {k = k} hk, party_of_byte (at bs 9) {p = p} hp)

le16-from_le16 : (lo hi : ℕ) → lo < 256 → hi < 256 → le16 (from_le16 lo hi) ≡ lo ∷ hi ∷ []
le16-from_le16 lo hi p q =
    let e0 : from_le16 lo hi % 256 ≡ lo = omega arith in
    let e1 : from_le16 lo hi / 256 % 256 ≡ hi = omega arith in cc

le32-from_le32 :
    (a b c d : ℕ)
    → a < 256
    → b < 256
    → c < 256
    → d < 256
    → le32 (from_le32 a b c d) ≡ a ∷ b ∷ c ∷ d ∷ []
le32-from_le32 a b c d p q r t =
    let n : ℕ = from_le32 a b c d in
    let e0 : n % 256 ≡ a = omega arith in
    let e1 : n / 256 % 256 ≡ b = omega arith in
    let e2 : n / 65536 % 256 ≡ c = omega arith in
    let e3 : n / 16777216 % 256 ≡ d = omega arith in cc

from_le32-lt : (a b c d : ℕ) → a < 256 → b < 256 → c < 256 → d < 256 → from_le32 a b c d < 2 ^ 32
from_le32-lt a b c d p q r t = omega arith

le64-halves : (lo hi : ℕ) → lo < 2 ^ 32 → hi < 2 ^ 32 → le64 (lo + 2 ^ 32 * hi) ≡ le32 lo ++ le32 hi
le64-halves lo hi p q =
    let low : (lo + 2 ^ 32 * hi) % 2 ^ 32 ≡ lo = omega arith in
    let high : (lo + 2 ^ 32 * hi) / 2 ^ 32 ≡ hi = omega arith in rw (low, high)

-- The 32 bytes, once their contents are known.
encode_read :
    (bs : Bytes) (m : Message)
    → AreBytes bs
    → length bs ≡ 32
    → take 8 bs ≡ magic_bytes
    → drop 26 bs ≡ 0 ∷ 0 ∷ 0 ∷ 0 ∷ 0 ∷ 0 ∷ []
    → ReadFrom bs m
    → encode m ≡ bs
unfolding encode
encode_read
      (b0 ∷ b1 ∷ b2 ∷ b3 ∷ b4 ∷ b5 ∷ b6 ∷ b7 ∷ b8 ∷ b9 ∷ b10 ∷ b11 ∷ b12 ∷ b13 ∷ b14 ∷ b15 ∷ b16
        ∷ b17 ∷ b18 ∷ b19 ∷ b20 ∷ b21 ∷ b22 ∷ b23 ∷ b24 ∷ b25 ∷ b26 ∷ b27 ∷ b28 ∷ b29 ∷ b30 ∷ b31
        ∷ [])
      m v size start end r =
    let ports : le16 m.port ≡ b10 ∷ b11 ∷ [] =
      ap le16 r.port_is ∙ le16-from_le16 b10 b11 (bound 10) (bound 11) in
    let nonces : le64 m.nonce ≡ b12 ∷ b13 ∷ b14 ∷ b15 ∷ b16 ∷ b17 ∷ b18 ∷ b19 ∷ [] =
      ap le64 r.nonce_is
      ∙ le64-halves (from_le32 b12 b13 b14 b15) (from_le32 b16 b17 b18 b19)
          (from_le32-lt b12 b13 b14 b15 (bound 12) (bound 13) (bound 14) (bound 15))
          (from_le32-lt b16 b17 b18 b19 (bound 16) (bound 17) (bound 18) (bound 19))
      ∙ ap₂ ◌++◌ (le32-from_le32 b12 b13 b14 b15 (bound 12) (bound 13) (bound 14) (bound 15))
          (le32-from_le32 b16 b17 b18 b19 (bound 16) (bound 17) (bound 18) (bound 19)) in
    let kinds : kind_byte m.kind ≡ b8 = r.kind_is in
    let parties : party_byte m.party ≡ b9 = r.party_is in
    let ids : mac_bytes m.identity ≡ b20 ∷ b21 ∷ b22 ∷ b23 ∷ b24 ∷ b25 ∷ [] =
      ap mac_bytes r.identity_is in
    cc
  where
    bs : Bytes
    bs =
        b0 ∷ b1 ∷ b2 ∷ b3 ∷ b4 ∷ b5 ∷ b6 ∷ b7 ∷ b8 ∷ b9 ∷ b10 ∷ b11 ∷ b12 ∷ b13 ∷ b14 ∷ b15 ∷ b16
        ∷ b17 ∷ b18 ∷ b19 ∷ b20 ∷ b21 ∷ b22 ∷ b23 ∷ b24 ∷ b25 ∷ b26 ∷ b27 ∷ b28 ∷ b29 ∷ b30 ∷ b31
        ∷ []

    bound : (i : ℕ) → at bs i < 256
    bound i = at-AreBytes bs i v
encode_read _ m v size start end r = absurd (omega arith)

-- `decode` is strict: what it accepts is, byte for byte, the encoding of the message it returns,
-- and that message is one that the wire format can carry.
pub encode-decode :
    (bs : Bytes) (m : Message) → AreBytes bs → decode bs ≡ some m → (encode m ≡ bs) × IsWire m
encode-decode bs m v e = (
  encode_read bs m v g.0 ((bytes_eq_iff (take 8 bs) magic_bytes).0 g.1) zeros r,
  record {
    port_small = omega (arith, r.port_is, at-AreBytes bs 10 v, at-AreBytes bs 11 v);
    nonce_small = omega (
      arith,
      r.nonce_is,
      from_le32-lt (at bs 12) (at bs 13) (at bs 14) (at bs 15) (at-AreBytes bs 12 v)
          (at-AreBytes bs 13 v) (at-AreBytes bs 14 v) (at-AreBytes bs 15 v),
      from_le32-lt (at bs 16) (at bs 17) (at bs 18) (at bs 19) (at-AreBytes bs 16 v)
          (at-AreBytes bs 17 v) (at-AreBytes bs 18 v) (at-AreBytes bs 19 v),
    );
    fits_kind = r.fits;
  },
)
  where
    g :
        (length bs ≡ 32)
        × (bytes_eq (take 8 bs) magic_bytes ≡ true)
        × (any_nonzero (drop 26 bs) ≡ false)
        × (decode_fields bs (kind_of (at bs 8)) (party_of (at bs 9)) ≡ some m)
    g = decode_guards bs e

    r : ReadFrom bs m
    r = fields_read bs (kind_of (at bs 8)) (party_of (at bs 9)) g.3 refl refl

    six : length (drop 26 bs) ≡ 6
    six = omega (arith, length-drop 26 bs, g.0)

    zeros : drop 26 bs ≡ 0 ∷ 0 ∷ 0 ∷ 0 ∷ 0 ∷ 0 ∷ []
    zeros = any_nonzero-zeros (drop 26 bs) g.2 ∙ ap (λ n. replicate n 0) six
