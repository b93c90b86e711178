-- ===== src/DhcpProbe.antt =====
-- src/protocol/dhcp_probe.rs: the DISCOVER frame, and the validation of an OFFER.
-- The sums are u32 in the source; `sum-le` bounds them far below the wrap for every frame that
-- the length checks let through.
pub mod Frames
pub mod Options
pub mod Offer
pub mod Tests
use mathlib.Core.Option
use pico_fi.Prelude.{
  ltb, leb, ◌==◌, if◌then◌else◌, length, take, drop, replicate, Bytes, bytes_eq, at, slice, blit,
  from_le16, be16, be32, Mac, mac_bytes, ℕ, zero, suc, ◌+◌, ◌-◌, ◌*◌, ◌/◌, ◌%◌, Bool, true, false,
  not, ◌&&◌, ◌||◌, Option, none, some, [], ◌∷◌,
}

abbrev pub ether : ℕ
ether = 14

abbrev pub ip_len : ℕ
ip_len = 20

abbrev pub udp_len : ℕ
udp_len = 8

abbrev pub bootp : ℕ
bootp = 42

abbrev pub frame_size : ℕ
frame_size = 342

abbrev pub cookie : Bytes
cookie = 99 ∷ 130 ∷ 83 ∷ 99 ∷ []

-- Big-endian 16-bit words; a last odd byte is the high half of one.
unfoldable pub sum : Bytes → ℕ → ℕ
sum [] value = value
sum (a ∷ []) value = value + a * 256
sum (a ∷ b ∷ rest) value = sum rest (value + (256 * a + b))

-- `while value > 0xffff`; `none` when the fuel is used up.
unfoldable pub fold : ℕ → ℕ → Option ℕ
fold zero value = none
fold (suc fuel) value =
    let more = fold fuel (value % 65536 + value / 65536) in
    if ltb 0xffff value then more else some value

-- `!(value as u16)`. Three rounds are enough for a u32.
unfoldable pub finish : ℕ → ℕ
unfolding fold
finish value = 65535 - Option.get_or (fold 3 value) 0 % 65536

-- The frame up to its IP header, the checksum still zero.
unfoldable pub discover_head : Mac → Bytes
discover_head mac =
    let f0 = blit (replicate frame_size 0) 0 (replicate 6 0xff) in
    let f1 = blit f0 6 (mac_bytes mac) in
    let f2 = blit f1 12 (8 ∷ 0 ∷ []) in
    let f3 = blit f2 ether (0x45 ∷ []) in
    let f4 = blit f3 16 (be16 (ip_len + udp_len + 300)) in
    let f5 = blit f4 22 (64 ∷ []) in let f6 = blit f5 23 (17 ∷ []) in blit f6 30 (replicate 4 255)

unfoldable pub discover : Mac → ℕ → Bytes
unfolding discover_head
discover mac xid =
    let f0 = discover_head mac in
    let f1 = blit f0 24 (be16 (finish (sum (slice f0 ether ip_len) 0))) in
    let f2 = blit f1 34 (be16 68) in
    let f3 = blit f2 36 (be16 67) in
    let f4 = blit f3 38 (be16 (udp_len + 300)) in
    let f5 = blit f4 bootp (1 ∷ 1 ∷ 6 ∷ []) in
    let f6 = blit f5 46 (be32 xid) in
    let f7 = blit f6 52 (0x80 ∷ []) in
    let f8 = blit f7 70 (mac_bytes mac) in
    let f9 = blit f8 278 cookie in
    let f10 = blit f9 282 (53 ∷ 1 ∷ 1 ∷ 61 ∷ 7 ∷ 1 ∷ []) in
    let f11 = blit f10 288 (mac_bytes mac) in blit f11 294 (55 ∷ 3 ∷ 1 ∷ 3 ∷ 6 ∷ 255 ∷ [])

unfoldable pub unicast : Bytes → Bool
unicast ip = length ip == 4 && not (at ip 0 == 0) && not (at ip 0 == 127) && ltb (at ip 0) 224

-- One option after its code: what the flags become, or `none` where `is_offer` returns false.
unfoldable pub note_option : ℕ → Bytes → Bool × Bool → Option (Bool × Bool)
unfolding unicast
note_option kind value (offer, server) =
    if kind == 53
    then (if offer || not (bytes_eq value (2 ∷ [])) then none else some (true, server))
    else if kind == 54
    then (if server || not (unicast value) then none else some (offer, true))
    else some (offer, server)

-- The option loop; `none` when the fuel is used up.
unfoldable pub scan_options : ℕ → Bytes → Bool × Bool → Option Bool
scan_options zero options flags = none
scan_options (suc fuel) [] flags = some false
scan_options (suc fuel) (kind ∷ []) (offer, server) =
    let skip = scan_options fuel [] (offer, server) in
    if kind == 255 then some (offer && server) else if kind == 0 then skip else some false
scan_options (suc fuel) (kind ∷ len ∷ rest) (offer, server) =
    let skip = scan_options fuel (len ∷ rest) (offer, server) in
    let next : Option Bool = elim (note_option kind (take len rest) (offer, server)) [
      | none ↦ some false
      | some flags ↦ scan_options fuel (drop len rest) flags
    ] in
    if kind == 255
    then some (offer && server)
    else if kind == 0
    then skip
    else if ltb (length rest) len
    then some false
    else next

-- The checks on the frame's Ethernet header, before the packet is sliced.
unfoldable pub ether_ok : Bytes → Mac → ℕ → Bool
ether_ok frame mac xid =
    not (xid == 0)
    && leb (bootp + 243) (length frame)
    && bytes_eq (slice frame 12 2) (8 ∷ 0 ∷ [])
    && (bytes_eq (take 6 frame) (mac_bytes mac) || bytes_eq (take 6 frame) (replicate 6 255))

abbrev pub ihl_of : Bytes → ℕ
ihl_of ip = at ip 0 % 16 * 4

abbrev pub total_of : Bytes → ℕ
total_of ip = from_le16 (at ip 3) (at ip 2)

-- The checks on the IP header, `ip` being the frame behind the Ethernet header.
unfoldable pub ip_ok : Bytes → Bool
ip_ok ip =
    at ip 0 / 16 == 4
    && leb ip_len (ihl_of ip)
    && leb (ihl_of ip + udp_len + 243) (total_of ip)
    && leb (total_of ip) (length ip)
    && at ip 9 == 17
    && from_le16 (at ip 7) (at ip 6) % 16384 == 0
    && unicast (slice ip 12 4)
    && finish (sum (take (ihl_of ip) ip) 0) == 0

unfoldable pub udp_ok : Bytes → Bytes → Bool
udp_ok ip udp =
    let len = from_le16 (at udp 5) (at udp 4) in
    bytes_eq (take 4 udp) (0 ∷ 67 ∷ 0 ∷ 68 ∷ [])
    && leb (udp_len + 243) len
    && len == length udp
    && (bytes_eq (slice udp 6 2) (0 ∷ 0 ∷ [])
        || finish (sum udp (sum (slice ip 12 8) (17 + len))) == 0)

unfoldable pub bootp_ok : Bytes → Mac → ℕ → Bool
bootp_ok reply mac xid =
    bytes_eq (take 3 reply) (2 ∷ 1 ∷ 6 ∷ [])
    && bytes_eq (slice reply 4 4) (be32 xid)
    && bytes_eq (slice reply 28 6) (mac_bytes mac)
    && unicast (slice reply 16 4)
    && not (bytes_eq (slice reply 16 2) (169 ∷ 254 ∷ []))
    && bytes_eq (slice reply 236 4) cookie

abbrev pub ip_of : Bytes → Bytes
ip_of frame = drop ether frame

abbrev pub udp_of : Bytes → Bytes
udp_of ip = slice ip (ihl_of ip) (total_of ip - ihl_of ip)

abbrev pub bootp_of : Bytes → Bytes
bootp_of ip = drop udp_len (udp_of ip)

abbrev pub options_of : Bytes → Bytes
options_of ip = drop 240 (bootp_of ip)

unfoldable pub is_offer : Bytes → Mac → ℕ → Bool
is_offer frame mac xid =
    let ip = ip_of frame in
    ether_ok frame mac xid
    && ip_ok ip
    && udp_ok ip (udp_of ip)
    && bootp_ok (bootp_of ip) mac xid
    && Option.get_or (scan_options (suc (length (options_of ip))) (options_of ip) (false, false))
        false
