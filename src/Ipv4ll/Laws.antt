-- ===== src/Ipv4ll/Laws.antt =====
-- Candidates lie in the link-local range; a probe conflicts exactly where it should.
use pico_fi.Ipv4ll.{link_local_candidate, arp_probe, arp_conflict}
use pico_fi.Prelude.{
  length, Bytes, bytes_eq, Ip, Mac, ip_bytes, mac_bytes, ℕ, ◌≤◌, ◌<◌, ◌≡◌, Bool, true, false, not,
  ◌&&◌, ◌||◌, arith,
}

-- Every candidate is in 169.254.1.0 to 169.254.254.255.
pub link_local_candidate-range :
    (mac : Mac) (attempt : ℕ)
    → let ip = link_local_candidate mac attempt in
      (ip.a ≡ 169) × (ip.b ≡ 254) × (1 ≤ ip.c) × (ip.c ≤ 254) × (ip.d < 256)
unfolding link_local_candidate
link_local_candidate-range mac attempt = omega arith

abbrev pub same_mac : Mac → Mac → Bool
same_mac m n = bytes_eq (mac_bytes m) (mac_bytes n)

abbrev pub same_ip : Ip → Ip → Bool
same_ip x y = bytes_eq (ip_bytes x) (ip_bytes y)

announced : (s t z u : Bool) → z ≡ false → (s && (t || (z && u))) ≡ (s && t)
announced s t z u e = ground arith

probed : (s z t : Bool) → z ≡ false → (s && (z || t)) ≡ (s && t)
probed s z t e = ground arith

abbrev pub no_ip : Ip
no_ip = record { a = 0; b = 0; c = 0; d = 0 }

-- A probe or an announcement of `theirs` is a conflict for the holder of `ours` exactly when another
-- host sent it and the addresses are equal, neither being 0.0.0.0.
pub arp_conflict-arp_probe :
    (sender me : Mac) (theirs ours : Ip) (announce : Bool)
    → same_ip theirs no_ip ≡ false
    → same_ip no_ip ours ≡ false
    → arp_conflict (arp_probe sender theirs announce) me ours
      ≡ (not (same_mac sender me) && same_ip theirs ours)
unfolding arp_conflict arp_probe bytes_eq
arp_conflict-arp_probe sender me theirs ours true h k =
    announced (not (same_mac sender me)) (same_ip theirs ours) (same_ip theirs no_ip)
      (same_ip theirs ours) h
arp_conflict-arp_probe sender me theirs ours false h k =
    probed (not (same_mac sender me)) (same_ip no_ip ours) (same_ip theirs ours) k

-- A frame shorter than an ARP packet is no conflict.
pub arp_conflict_short :
    (frame : Bytes) (me : Mac) (ours : Ip) → length frame < 42 → arp_conflict frame me ours ≡ false
unfolding arp_conflict
arp_conflict_short frame me ours h = ground arith
