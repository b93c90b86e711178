-- ===== src/AutoAddress/Tests.antt =====
-- The theorems on the address policy, along the run of a device that finds no DHCP server.
use pico_fi.AutoAddress.{
  AutoAddress, Inputs, tick, new_policy, online, clear, dhcp, nothing, probe_delay, candidate,
  tick_phase, tick_dhcp, tick_choose, tick_probe_tx, tick_claim,
}
use pico_fi.Ipv4ll.{link_local_candidate}
use pico_fi.AutoAddress.Probing.{Event, ticked, idle, watching, observe_all, claim-watching}
use pico_fi.AutoAddress.Session.{IsOnline, tick_keeps_session, patience, conflict_waits}
use pico_fi.Prelude.{
  leb, if◌then◌else◌, ◌+◌, Mac, ℕ, ◌≡◌, refl, ◌≢◌, true, false, none, some, List, [], ◌∷◌,
}

abbrev mac : Mac
mac = record { a = 2; b = 1; c = 2; d = 3; e = 4; f = 5 }

-- A tick with the link up, nothing configured, nothing pending and no conflict.
abbrev quiet : ℕ → Inputs
quiet now = record {
  now = now;
  link = true;
  configured = false;
  connected = false;
  pending = false;
  conflict = false;
}

abbrev probing : List Event
probing =
    ticked (quiet 0)
    ∷ ticked (quiet 10000)
    ∷ ticked (quiet 10000)
    ∷ ticked (quiet 20000)
    ∷ ticked (quiet 20001)
    ∷ ticked (quiet 30000)
    ∷ ticked (quiet 30001)
    ∷ ticked (quiet 40000)
    ∷ ticked (quiet 40001)
    ∷ []

claim-watching_example :
    ((observe_all (new_policy mac, idle) probing).1 ≡ watching (link_local_candidate mac 0) 3 false)
    × ((quiet 50000).conflict ≡ false)
    × ((quiet 50000).link ≡ true)
unfolding tick tick_phase tick_dhcp tick_choose tick_probe_tx tick_claim new_policy
claim-watching_example = claim-watching mac probing (quiet 50000) (link_local_candidate mac 0) refl

-- A policy in a session on a link-local address, with an open DHCP probe.
abbrev fallback : AutoAddress
fallback = record (new_policy mac) { phase = online true 0 none; dhcp_probe_until = some 900 }

abbrev busy : Inputs
busy = record (quiet 100000) { configured = true; connected = true }

tick_keeps_session_example :
    ((tick fallback busy).1 ≢ clear)
    × ((tick fallback busy).1 ≢ dhcp)
    × IsOnline true (tick fallback busy).0.phase
unfolding new_policy
tick_keeps_session_example = tick_keeps_session fallback busy refl refl refl refl refl

-- A policy that probes its tenth candidate.
abbrev tenth : AutoAddress
tenth = record (new_policy mac) { phase = probe_delay 500 1; attempt = 10 }

abbrev clash : Inputs
clash = record (quiet 400) { conflict = true }

conflict_waits_example :
    ((tick tenth clash).1 ≡ clear)
    × (tick (tick tenth clash).0 (quiet 60000) ≡ (
        if leb (400 + patience 10) 60000
        then tick_choose (tick tenth clash).0 (quiet 60000)
        else ((tick tenth clash).0, nothing)))
    × ((tick_choose (tick tenth clash).0 (quiet 60000)).1 ≡ candidate (link_local_candidate mac 10))
unfolding new_policy
conflict_waits_example = conflict_waits tenth clash (quiet 60000) tt refl refl refl
