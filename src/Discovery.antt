-- ===== src/Discovery.antt =====
-- src/protocol/discovery.rs: the LAN discovery codec, hardware addresses and the boot seed.
pub mod Codec
pub mod Tests
use pico_fi.Prelude.{
  ◌==◌, if◌then◌else◌, length, take, drop, replicate, Bytes, bytes_eq, at, blit, from_le16, le16,
  from_le32, le32, Mac, mac_bytes, mac_at, ℕ, ◌+◌, ◌*◌, ◌/◌, ◌%◌, ◌^◌, max, bit_xor, Bool, true,
  false, not, ◌&&◌, ◌||◌, Option, none, some, [], ◌∷◌, ◌++◌,
}

abbrev pub port_number : ℕ
port_number = 49361

abbrev pub size : ℕ
size = 32

-- "PCFIND01"
abbrev pub magic_bytes : Bytes
magic_bytes = 80 ∷ 67 ∷ 70 ∷ 73 ∷ 78 ∷ 68 ∷ 48 ∷ 49 ∷ []

pub data Party : Type 0 where
  ground_station : Party
  pico : Party

pub data Kind : Type 0 where
  query : Kind
  offer : Kind

pub record Message : Type 0 where
  pub kind : Kind
  pub party : Party
  pub port : ℕ
  pub nonce : ℕ
  pub identity : Mac

abbrev pub kind_byte : Kind → ℕ
kind_byte query = 1
kind_byte offer = 2

abbrev pub party_byte : Party → ℕ
party_byte ground_station = 1
party_byte pico = 2

-- The low and the high half of a u64, least significant byte first.
abbrev pub le64 : ℕ → Bytes
le64 n = le32 (n % 2 ^ 32) ++ le32 (n / 2 ^ 32)

abbrev pub from_le64 : Bytes → ℕ → ℕ
from_le64 bs i =
    from_le32 (at bs i) (at bs (i + 1)) (at bs (i + 2)) (at bs (i + 3))
    + 2 ^ 32 * from_le32 (at bs (i + 4)) (at bs (i + 5)) (at bs (i + 6)) (at bs (i + 7))

unfoldable pub encode : Message → Bytes
encode m =
    let b0 = blit (replicate size 0) 0 magic_bytes in
    let b1 = blit b0 8 (kind_byte m.kind ∷ []) in
    let b2 = blit b1 9 (party_byte m.party ∷ []) in
    let b3 = blit b2 10 (le16 m.port) in
    let b4 = blit b3 12 (le64 m.nonce) in blit b4 20 (mac_bytes m.identity)

-- `bytes[26..].iter().any(|b| *b != 0)`
unfoldable pub any_nonzero : Bytes → Bool
any_nonzero [] = false
any_nonzero (b ∷ bs) = not (b == 0) || any_nonzero bs

unfoldable pub kind_of : ℕ → Option Kind
kind_of b = if b == 1 then some query else if b == 2 then some offer else none

unfoldable pub party_of : ℕ → Option Party
party_of b = if b == 1 then some ground_station else if b == 2 then some pico else none

-- The port and the nonce that a message of this kind may carry.
unfoldable pub fields_ok : Kind → ℕ → ℕ → Bool
fields_ok query port nonce = port == 0 && not (nonce == 0)
fields_ok offer port nonce = not (port == 0) && not (nonce == 0)

-- The fields, once kind and party are known.
unfoldable pub decode_fields : Bytes → Option Kind → Option Party → Option Message
unfolding fields_ok
decode_fields bs none party = none
decode_fields bs (some kind) none = none
decode_fields bs (some kind) (some party) =
    let port = from_le16 (at bs 10) (at bs 11) in
    let nonce = from_le64 bs 12 in
    if fields_ok kind port nonce
    then some
        (record { kind = kind; party = party; port = port; nonce = nonce; identity = mac_at bs 20 })
    else none

unfoldable pub decode : Bytes → Option Message
unfolding decode_fields kind_of party_of any_nonzero
decode bs =
    if not (length bs == size) || not (bytes_eq (take 8 bs) magic_bytes) || any_nonzero (drop 26 bs)
    then none
    else decode_fields bs (kind_of (at bs 8)) (party_of (at bs 9))

abbrev pub is_query : Kind → Bool
is_query query = true
is_query offer = false

abbrev pub same_party : Party → Party → Bool
same_party ground_station ground_station = true
same_party pico pico = true
same_party _ _ = false

unfoldable pub compatible_offer : Message → Message → Bool
compatible_offer m q =
    not (is_query m.kind)
    && is_query q.kind
    && not (same_party m.party q.party)
    && m.nonce == q.nonce
    && not (bytes_eq (mac_bytes m.identity) (mac_bytes q.identity))
    && not (m.port == 0)

-- `hash = (hash ^ byte).wrapping_mul(0x100000001b3)`
unfoldable pub mix64 : ℕ → Bytes → ℕ
mix64 hash [] = hash
mix64 hash (byte ∷ rest) = mix64 (bit_xor hash byte * 0x100000001b3 % 2 ^ 64) rest

unfoldable pub hardware_mac : Bytes → Mac
unfolding mix64
hardware_mac uid =
    let h = le64 (mix64 0xcbf29ce484222325 uid) in
    record { a = 0x02; b = at h 0; c = at h 1; d = at h 2; e = at h 3; f = at h 4 }

unfoldable pub boot_network_seed : Mac → ℕ → ℕ
boot_network_seed mac entropy =
    max (bit_xor (from_le64 (mac_bytes mac ++ (0x51 ∷ 0x9e ∷ [])) 0) entropy) 1
