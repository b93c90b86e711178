-- ===== src/Ipv4ll.antt =====
-- src/protocol/ipv4ll.rs: link-local candidates, ARP probes and conflict detection.
pub mod Laws
use pico_fi.Prelude.{
  leb, if◌then◌else◌, length, replicate, Bytes, bytes_eq, slice, blit, Ip, Mac, ip_bytes, mac_bytes,
  ℕ, ◌+◌, ◌*◌, ◌/◌, ◌%◌, ◌^◌, bit_xor, Bool, not, ◌&&◌, ◌||◌, [], ◌∷◌, ◌++◌,
}

-- `for byte in mac { hash = hash.wrapping_mul(16777619) ^ byte }`
unfoldable pub mix : ℕ → Bytes → ℕ
mix hash [] = hash
mix hash (byte ∷ rest) = mix (bit_xor (hash * 16777619 % 2 ^ 32) byte) rest

unfoldable pub candidate_hash : Mac → ℕ → ℕ
candidate_hash mac attempt = mix (attempt * 0x9e3779b9 % 2 ^ 32) (mac_bytes mac)

unfoldable pub link_local_candidate : Mac → ℕ → Ip
unfolding candidate_hash
link_local_candidate mac attempt =
    let hash = candidate_hash mac attempt in
    record { a = 169; b = 254; c = 1 + hash % 254; d = hash / 256 % 256 }

-- Ethernet type, hardware and protocol shape, and the operation (a request).
abbrev pub arp_shape : Bytes
arp_shape = 8 ∷ 6 ∷ 0 ∷ 1 ∷ 8 ∷ 0 ∷ 6 ∷ 4 ∷ []

unfoldable pub arp_probe : Mac → Ip → Bool → Bytes
arp_probe mac ip announce =
    let f0 = blit (replicate 42 0) 0 (replicate 6 0xff) in
    let f1 = blit f0 6 (mac_bytes mac) in
    let f2 = blit f1 12 (arp_shape ++ (0 ∷ 1 ∷ [])) in
    let f3 = blit f2 22 (mac_bytes mac) in
    let f4 = if announce then blit f3 28 (ip_bytes ip) else f3 in blit f4 38 (ip_bytes ip)

unfoldable pub arp_conflict : Bytes → Mac → Ip → Bool
arp_conflict frame mac ip =
    leb 42 (length frame)
    && bytes_eq (slice frame 12 8) arp_shape
    && (bytes_eq (slice frame 20 2) (0 ∷ 1 ∷ []) || bytes_eq (slice frame 20 2) (0 ∷ 2 ∷ []))
    && not (bytes_eq (slice frame 22 6) (mac_bytes mac))
    && (bytes_eq (slice frame 28 4) (ip_bytes ip)
        || (bytes_eq (slice frame 28 4) (0 ∷ 0 ∷ 0 ∷ 0 ∷ [])
            && bytes_eq (slice frame 38 4) (ip_bytes ip)))
