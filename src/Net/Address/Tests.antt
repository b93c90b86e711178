-- ===== src/Net/Address/Tests.antt =====
-- The theorem on the address task, along the start of a device that finds no DHCP server.
use pico_fi.Net.Address.{
  AddressTask, ConfigV4, config_none, config_static, Surroundings, address_round, new_address_task,
  act,
}
use pico_fi.Net.Address.Guarded.{Event, round, serviced, happen_all}
use pico_fi.Net.Address.Claims.{address_round-candidate}
use pico_fi.ArpGuard.{
  ip_to_u32, take_dhcp_offer, service, is_pending, set_candidate, request, clear_probe, new_probe,
}
use pico_fi.AutoAddress.{
  Phase, choose, probe_delay, claim_delay, tick, tick_phase, tick_dhcp, tick_choose, tick_probe_tx,
  tick_claim, new_policy,
}
use mathlib.Core.Path.{subst}
use pico_fi.Ipv4ll.{link_local_candidate, candidate_hash, mix}
use pico_fi.Prelude.{Ip, Mac, ℕ, ◌≡◌, ◌≢◌, sym, refl, none, true, false, List, [], ◌∷◌}

abbrev mac : Mac
mac = record { a = 2; b = 1; c = 2; d = 3; e = 4; f = 5 }

abbrev zero_ip : Ip
zero_ip = record { a = 0; b = 0; c = 0; d = 0 }

abbrev claimed_ip : Ip
claimed_ip = record { a = 169; b = 254; c = 176; d = 181 }

-- The link is up and no address is there.
abbrev quiet : ℕ → Surroundings
quiet now = record { now = now; link = true; configured = false; connected = false }

-- Each probe is transmitted after the round that asks for it.
abbrev probing : List Event
probing =
    round (quiet 0)
    ∷ round (quiet 10000)
    ∷ round (quiet 10000)
    ∷ round (quiet 20000)
    ∷ serviced true true
    ∷ round (quiet 20001)
    ∷ round (quiet 30000)
    ∷ serviced true true
    ∷ round (quiet 30001)
    ∷ round (quiet 40000)
    ∷ serviced true true
    ∷ round (quiet 40001)
    ∷ []

-- The task before and after it has chosen an address.
abbrev task : Phase → ℕ → Ip → ℕ → ℕ → ℕ → ConfigV4 → ℕ → AddressTask
task phase attempt ip candidate_ip command wakes config peers_cleared = record {
  policy = record {
    mac = mac;
    phase = phase;
    attempt = attempt;
    address = ip;
    next_dhcp_probe = 0;
    dhcp_probe_until = none;
    migrating = false;
    failed_migrations = 0;
  };
  guard = record {
    mac = mac;
    candidate_ip = candidate_ip;
    command = command;
    conflict = false;
    dhcp_xid = 0;
    dhcp_pending = false;
    dhcp_offer = false;
    wakes = wakes;
  };
  config = config;
  peers_cleared = peers_cleared;
}

abbrev early : Phase → ConfigV4 → ℕ → AddressTask
early phase config peers_cleared = task phase 0 zero_ip 0 0 0 config peers_cleared

abbrev late : Phase → ℕ → ℕ → AddressTask
late phase command wakes = task phase 1 claimed_ip 2852040885 command wakes config_none 2

give_up_dhcp :
    happen_all (new_address_task mac) (round (quiet 0) ∷ round (quiet 10000) ∷ [])
    ≡ early (choose 10000) config_none 2
unfolding address_round act take_dhcp_offer service is_pending set_candidate request clear_probe
    new_probe tick tick_phase tick_dhcp tick_choose tick_probe_tx tick_claim new_policy
    new_address_task
give_up_dhcp = refl

choose_address :
    happen_all (early (choose 10000) config_none 2) (round (quiet 10000) ∷ [])
    ≡ late (probe_delay 10015 0) 0 0
unfolding address_round act take_dhcp_offer service is_pending set_candidate request clear_probe
    new_probe tick tick_phase tick_dhcp tick_choose tick_probe_tx tick_claim new_policy
    new_address_task link_local_candidate candidate_hash mix
choose_address = refl

first_probe :
    happen_all
      (late (probe_delay 10015 0) 0 0)
      (round (quiet 20000) ∷ serviced true true ∷ round (quiet 20001) ∷ [])
    ≡ late (probe_delay 21005 1) 0 1
unfolding address_round act take_dhcp_offer service is_pending set_candidate request clear_probe
    new_probe tick tick_phase tick_dhcp tick_choose tick_probe_tx tick_claim new_policy
    new_address_task
first_probe = refl

second_probe :
    happen_all
      (late (probe_delay 21005 1) 0 1)
      (round (quiet 30000) ∷ serviced true true ∷ round (quiet 30001) ∷ [])
    ≡ late (probe_delay 31005 2) 0 2
unfolding address_round act take_dhcp_offer service is_pending set_candidate request clear_probe
    new_probe tick tick_phase tick_dhcp tick_choose tick_probe_tx tick_claim new_policy
    new_address_task
second_probe = refl

third_probe :
    happen_all
      (late (probe_delay 31005 2) 0 2)
      (round (quiet 40000) ∷ serviced true true ∷ round (quiet 40001) ∷ [])
    ≡ late (claim_delay 43005) 0 3
unfolding address_round act take_dhcp_offer service is_pending set_candidate request clear_probe
    new_probe tick tick_phase tick_dhcp tick_choose tick_probe_tx tick_claim new_policy
    new_address_task
third_probe = refl

probing-claim_delay : happen_all (new_address_task mac) probing ≡ late (claim_delay 43005) 0 3
probing-claim_delay =
    rw give_up_dhcp (rw choose_address (rw first_probe (rw second_probe (rw third_probe (refl)))))

claims :
    (address_round (quiet 50000) (late (claim_delay 43005) 0 3)).config ≡ config_static claimed_ip
unfolding address_round act take_dhcp_offer service is_pending set_candidate request clear_probe
    new_probe tick tick_phase tick_dhcp tick_choose tick_probe_tx tick_claim new_policy
    new_address_task
claims = refl

address_round-candidate_example :
    let t = happen_all (new_address_task mac) probing in
    (t.guard.candidate_ip ≡ ip_to_u32 claimed_ip) × (t.guard.conflict ≡ false)
address_round-candidate_example =
    address_round-candidate mac probing (quiet 50000) claimed_ip
      (subst
        (λ (t : AddressTask). (address_round (quiet 50000) t).config ≡ config_static claimed_ip)
        (sym probing-claim_delay) claims)
      (subst (λ (t : AddressTask). t.config ≢ config_static claimed_ip) (sym probing-claim_delay)
        (λ e. cc))
