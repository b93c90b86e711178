-- ===== src/ArpGuard/Tests.antt =====
-- The theorems on the guard, at an ARP announcement of the candidate by another host.
use pico_fi.ArpGuard.{ProbeState, new_probe, set_candidate, request, request_dhcp_probe}
use pico_fi.ArpGuard.Observed.{
  any, inspect_all, set_candidate-conflict, due, service_all, service_all-due,
}
use pico_fi.Ipv4ll.{arp_probe, arp_conflict}
use pico_fi.Prelude.{take, drop, Bytes, Ip, Mac, ◌≡◌, Bool, true, false, List, [], ◌∷◌, arith}

abbrev ours : Mac
ours = record { a = 2; b = 1; c = 2; d = 3; e = 4; f = 5 }

abbrev theirs : Mac
theirs = record { a = 2; b = 9; c = 8; d = 7; e = 6; f = 5 }

abbrev chosen : Ip
chosen = record { a = 169; b = 254; c = 7; d = 9 }

abbrev heard : List Bytes
heard = (1 ∷ 2 ∷ []) ∷ arp_probe theirs chosen true ∷ []

abbrev fresh : ProbeState
fresh = new_probe ours

set_candidate-conflict_example :
    (inspect_all (set_candidate fresh chosen) heard).conflict
    ≡ any (λ b. arp_conflict b ours chosen) heard
unfolding new_probe
set_candidate-conflict_example =
    set_candidate-conflict fresh chosen heard
      (omega arith, (omega arith, (omega arith, (omega arith, tt)))) (ground arith)

-- An ARP probe and a DISCOVER are requested.
abbrev asking : ProbeState
asking = request_dhcp_probe (request (set_candidate fresh chosen) false) 77

-- No grant, no link, and then one chance.
abbrev calls : List (Bool × Bool)
calls = (true, false) ∷ (false, true) ∷ (true, true) ∷ []

service_all-due_example :
    ((service_all asking calls).1 ≡ take 1 (due asking))
    × (due (service_all asking calls).0 ≡ drop 1 (due asking))
service_all-due_example = service_all-due calls asking
