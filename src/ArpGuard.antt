-- ===== src/ArpGuard.antt =====
-- src/arp_guard.rs: the state shared by the address policy and the guarded network driver.
-- Each operation stores and loads its atomics in one step. The driver that the guard wraps is
-- not modelled: whether its link is up, whether it grants a transmission and what it receives are
-- arguments, and the frames that the guard hands to it are results.
pub mod Observed
pub mod Tests
use pico_fi.Ipv4ll.{arp_probe, arp_conflict}
use pico_fi.DhcpProbe.{is_offer, discover}
use pico_fi.Prelude.{
  ◌==◌, if◌then◌else◌, Bytes, from_le32, Ip, Mac, ℕ, ◌+◌, ◌/◌, ◌%◌, Bool, true, false, not, ◌&&◌,
  Option, none, some,
}

pub record ProbeState : Type 0 where
  pub mac : Mac
  pub candidate_ip : ℕ
  pub command : ℕ
  pub conflict : Bool
  pub dhcp_xid : ℕ
  pub dhcp_pending : Bool
  pub dhcp_offer : Bool
  pub wakes : ℕ

unfoldable pub new_probe : Mac → ProbeState
new_probe mac = record {
  mac = mac;
  candidate_ip = 0;
  command = 0;
  conflict = false;
  dhcp_xid = 0;
  dhcp_pending = false;
  dhcp_offer = false;
  wakes = 0;
}

-- `u32::from_be_bytes(ip)` and `ip.to_be_bytes()`
abbrev pub ip_to_u32 : Ip → ℕ
ip_to_u32 ip = from_le32 ip.d ip.c ip.b ip.a

abbrev pub ip_from_u32 : ℕ → Ip
ip_from_u32 n = record {
  a = n / 16777216 % 256;
  b = n / 65536 % 256;
  c = n / 256 % 256;
  d = n % 256;
}

unfoldable pub set_candidate : ProbeState → Ip → ProbeState
set_candidate s ip = record s { conflict = false; candidate_ip = ip_to_u32 ip }

unfoldable pub stop_dhcp_probe : ProbeState → ProbeState
stop_dhcp_probe s = record s { dhcp_xid = 0; dhcp_pending = false; dhcp_offer = false }

unfoldable pub clear_probe : ProbeState → ProbeState
unfolding stop_dhcp_probe
clear_probe s = record (stop_dhcp_probe s) { command = 0; candidate_ip = 0; conflict = false }

unfoldable pub request : ProbeState → Bool → ProbeState
request s announce = record s { command = (if announce then 2 else 1); wakes = s.wakes + 1 }

unfoldable pub is_pending : ProbeState → Bool
is_pending s = not (s.command == 0)

unfoldable pub request_dhcp_probe : ProbeState → ℕ → ProbeState
request_dhcp_probe s xid = record s {
  dhcp_offer = false;
  dhcp_xid = xid;
  dhcp_pending = true;
  wakes = s.wakes + 1;
}

-- `dhcp_offer.swap(false)`
unfoldable pub take_dhcp_offer : ProbeState → ProbeState × Bool
take_dhcp_offer s = (record s { dhcp_offer = false }, s.dhcp_offer)

unfoldable pub inspect_offer : ProbeState → Bytes → ProbeState
inspect_offer s bytes =
    if not (s.dhcp_xid == 0) && not s.dhcp_pending && is_offer bytes s.mac s.dhcp_xid
    then record s { dhcp_offer = true }
    else s

unfoldable pub inspect_arp : ProbeState → Bytes → ProbeState
inspect_arp s bytes =
    if not (s.candidate_ip == 0) && arp_conflict bytes s.mac (ip_from_u32 s.candidate_ip)
    then record s { conflict = true }
    else s

unfoldable pub inspect : ProbeState → Bytes → ProbeState
unfolding inspect_offer inspect_arp
inspect s bytes = inspect_arp (inspect_offer s bytes) bytes

-- `service`: the frame that is transmitted, if any. `up` is the link, `grants` whether the driver
-- grants a transmission.
unfoldable pub service : ProbeState → Bool → Bool → ProbeState × Option Bytes
service s up grants =
    if not up
    then (s, none)
    else if not (s.command == 0) && not (s.candidate_ip == 0)
    then (if grants
        then (
          record s { command = 0 },
          some (arp_probe s.mac (ip_from_u32 s.candidate_ip) (s.command == 2)),
        )
        else (s, none))
    else if s.dhcp_pending
    then (if grants
        then (record s { dhcp_pending = false }, some (discover s.mac s.dhcp_xid))
        else (s, none))
    else (s, none)

-- A received frame is inspected and handed on unchanged.
unfoldable pub inspect_received : ProbeState → Option Bytes → ProbeState × Option Bytes
inspect_received s none = (s, none)
inspect_received s (some bytes) = (inspect s bytes, some bytes)

-- `Driver::receive` with the consumption of the token: what was transmitted, what was received.
unfoldable pub receive :
    ProbeState → Bool → Bool → Option Bytes → ProbeState × Option Bytes × Option Bytes
receive s up grants incoming =
    let (s1, sent) = service s up grants in
    let (s2, received) = inspect_received s1 incoming in (s2, sent, received)
