-- ===== src/Net/Address/Guarded.antt =====
-- The candidate of the guard between the rounds of the address task.
use pico_fi.AutoAddress.Probing.{tick_up, tick_no_link}
use mathlib.Core.Path.{subst}
use pico_fi.Net.Address.{
  act, AddressTask, Surroundings, finish_round, or_tick, address_round, new_address_task,
}
use pico_fi.ArpGuard.{
  ip_to_u32, ProbeState, clear_probe, set_candidate, request, request_dhcp_probe, inspect, service,
  inspect_arp, take_dhcp_offer, inspect_offer,
}
use pico_fi.AutoAddress.{
  AutoAddress, Action, Phase, Inputs, clear, dhcp, candidate, tick_phase, down, start_dhcp, in_dhcp,
  choose, probe_delay, probe_tx, claim_delay, online, tick_dhcp, tick_choose, tick_probe_tx,
  tick_claim, tick_online, tick_fallback, retry, dhcp_offered, tick_down, tick, claim, is_fallback,
  dhcp_probe, is_before, nothing, probe, announce, new_policy,
}
use pico_fi.AutoAddress
use pico_fi.ArpGuard
use pico_fi.Ipv4ll.{arp_conflict}
use pico_fi.DhcpProbe.{is_offer}
use pico_fi.ArpGuard.{ip_from_u32}
use pico_fi.Prelude.{
  ◌==◌, if◌then◌else◌, Bool-cases, if_both, Bytes, Ip, Mac, ℕ, ◌≡◌, refl, sym, ◌∙◌, inl, inr, Bool,
  false, not, ◌&&◌, Option, List, [], ◌∷◌, arith,
}

-- While an address is being probed, it is the candidate of the guard.
abbrev pub Guarded : Phase → Ip → ℕ → Type 0
Guarded (probe_delay until sent) ip c = c ≡ ip_to_u32 ip
Guarded (probe_tx until sent) ip c = c ≡ ip_to_u32 ip
Guarded (claim_delay until) ip c = c ≡ ip_to_u32 ip
Guarded _ ip c = Unit

-- The candidate after an action.
abbrev candidate_after : Action → ℕ → ℕ
candidate_after clear c = 0
candidate_after dhcp c = 0
candidate_after (candidate ip) c = ip_to_u32 ip
candidate_after _ c = c

abbrev Keeps : ℕ → AutoAddress × Action → Type 0
Keeps c (p, action) = Guarded p.phase p.address (candidate_after action c)

tick_phase-Keeps :
    (p : AutoAddress) (ph : Phase) (i : Inputs) (c : ℕ)
    → p.phase ≡ ph
    → Guarded ph p.address c
    → Keeps c (tick_phase p i ph)
unfolding tick_phase tick_dhcp tick_choose tick_probe_tx tick_claim tick_online tick_fallback retry
tick_phase-Keeps p down i c e h = tt
tick_phase-Keeps p start_dhcp i c e h = tt
tick_phase-Keeps p (in_dhcp until) i c e h = ground arith
tick_phase-Keeps p (choose after) i c e h = ground arith
tick_phase-Keeps p (probe_delay until sent) i c e h = ground arith
tick_phase-Keeps p (probe_tx until sent) i c e h = ground arith
tick_phase-Keeps p (claim_delay until) i c e h = ground arith
tick_phase-Keeps p (online fallback since at_time) i c e h = ground arith

tick_down-Keeps : (p : AutoAddress) (ph : Phase) (c : ℕ) → p.phase ≡ ph → Keeps c (tick_down p ph)
unfolding tick_down
tick_down-Keeps p down c e = subst (λ ph. Guarded ph p.address c) (sym e) tt
tick_down-Keeps p _ c e = tt

tick-Keeps :
    (p : AutoAddress) (i : Inputs) (c : ℕ) → Guarded p.phase p.address c → Keeps c (tick p i)
tick-Keeps p i c h = elim (Bool-cases i.link) [
  | inl up ↦ rw (tick_up p i up) (tick_phase-Keeps p p.phase i c refl h)
  | inr no_link ↦ rw (tick_no_link p i no_link) (tick_down-Keeps p p.phase c refl)
]

dhcp_offered-Keeps :
    (p : AutoAddress) (now c : ℕ) → Guarded p.phase p.address c → Keeps c (dhcp_offered p now)
unfolding dhcp_offered
dhcp_offered-Keeps p now c h =
    if_both (Keeps c) (is_fallback p.phase && is_before now p.dhcp_probe_until) (λ _. tt) (λ _. h)

or_tick-Keeps :
    (s : Surroundings) (g : ProbeState) (r : AutoAddress × Action) (c : ℕ)
    → Keeps c r
    → Keeps c (or_tick s g r)
or_tick-Keeps s g (p, nothing) c h = tick-Keeps p _ c h
or_tick-Keeps s g (p, clear) c h = h
or_tick-Keeps s g (p, dhcp) c h = h
or_tick-Keeps s g (p, candidate ip) c h = h
or_tick-Keeps s g (p, probe) c h = h
or_tick-Keeps s g (p, claim ip) c h = h
or_tick-Keeps s g (p, announce) c h = h
or_tick-Keeps s g (p, dhcp_probe xid) c h = h
or_tick-Keeps s g (p, AutoAddress.stop_dhcp_probe) c h = h

-- The candidate that `act` leaves in the guard.
act-candidate :
    (action : Action) (t : AddressTask)
    → (act action t).guard.candidate_ip ≡ candidate_after action t.guard.candidate_ip
unfolding act clear_probe set_candidate request request_dhcp_probe ArpGuard.stop_dhcp_probe
act-candidate nothing t = refl
act-candidate clear t = refl
act-candidate dhcp t = refl
act-candidate (candidate ip) t = refl
act-candidate probe t = refl
act-candidate (claim ip) t = refl
act-candidate announce t = refl
act-candidate (dhcp_probe xid) t = refl
act-candidate AutoAddress.stop_dhcp_probe t = refl

act-policy : (action : Action) (t : AddressTask) → (act action t).policy ≡ t.policy
unfolding act
act-policy nothing t = refl
act-policy clear t = refl
act-policy dhcp t = refl
act-policy (candidate ip) t = refl
act-policy probe t = refl
act-policy (claim ip) t = refl
act-policy announce t = refl
act-policy (dhcp_probe xid) t = refl
act-policy AutoAddress.stop_dhcp_probe t = refl

-- The state between two rounds.
abbrev pub IsGuarded : AddressTask → Type 0
IsGuarded t = Guarded t.policy.phase t.policy.address t.guard.candidate_ip

finish_round-IsGuarded :
    (g : ProbeState) (t : AddressTask) (r : AutoAddress × Action)
    → Keeps g.candidate_ip r
    → IsGuarded (finish_round g t r)
finish_round-IsGuarded g t (p, action) h =
    let next = record t { policy = p; guard = g } in
    subst (λ (q : AutoAddress). Guarded q.phase q.address (act action next).guard.candidate_ip)
      (sym (act-policy action next))
      (subst (Guarded p.phase p.address) (sym (act-candidate action next)) h)

address_round-IsGuarded :
    (s : Surroundings) (t : AddressTask) → IsGuarded t → IsGuarded (address_round s t)
unfolding address_round take_dhcp_offer
address_round-IsGuarded s t h =
    let g = record t.guard { dhcp_offer = false } in
    let r = if t.guard.dhcp_offer then dhcp_offered t.policy s.now else (t.policy, nothing) in
    finish_round-IsGuarded g t (or_tick s g r) (
      or_tick-Keeps s g r g.candidate_ip (
        if_both (Keeps g.candidate_ip) t.guard.dhcp_offer
          (λ _. dhcp_offered-Keeps t.policy s.now g.candidate_ip h) (λ _. h)))

-- What happens to the task and to the guard: a round, a frame that is received, or a call of
-- `service` with the link and the grant of the driver.
pub data Event : Type 0 where
  round : Surroundings → Event
  frame : Bytes → Event
  serviced : Bool → Bool → Event

abbrev pub happen : AddressTask → Event → AddressTask
happen t (round s) = address_round s t
happen t (frame bytes) = record t { guard = inspect t.guard bytes }
happen t (serviced up grants) = record t { guard = (service t.guard up grants).0 }

abbrev pub happen_all : AddressTask → List Event → AddressTask
happen_all t [] = t
happen_all t (e ∷ events) = happen_all (happen t e) events

-- Neither a frame nor a transmission changes the candidate.
inspect_offer-candidate :
    (g : ProbeState) (bytes : Bytes) → (inspect_offer g bytes).candidate_ip ≡ g.candidate_ip
unfolding inspect_offer
inspect_offer-candidate g bytes =
    if_both (λ (r : ProbeState). r.candidate_ip ≡ g.candidate_ip)
      (not (g.dhcp_xid == 0) && not g.dhcp_pending && is_offer bytes g.mac g.dhcp_xid) (λ _. refl)
      (λ _. refl)

inspect_arp-candidate :
    (g : ProbeState) (bytes : Bytes) → (inspect_arp g bytes).candidate_ip ≡ g.candidate_ip
unfolding inspect_arp
inspect_arp-candidate g bytes =
    if_both (λ (r : ProbeState). r.candidate_ip ≡ g.candidate_ip)
      (not (g.candidate_ip == 0) && arp_conflict bytes g.mac (ip_from_u32 g.candidate_ip))
      (λ _. refl) (λ _. refl)

inspect-candidate :
    (g : ProbeState) (bytes : Bytes) → (inspect g bytes).candidate_ip ≡ g.candidate_ip
unfolding inspect
inspect-candidate g bytes =
    inspect_arp-candidate (inspect_offer g bytes) bytes ∙ inspect_offer-candidate g bytes

abbrev SameCandidate : ProbeState → ProbeState × Option Bytes → Type 0
SameCandidate g r = r.0.candidate_ip ≡ g.candidate_ip

service-candidate :
    (g : ProbeState) (up grants : Bool) → (service g up grants).0.candidate_ip ≡ g.candidate_ip
unfolding service
service-candidate g up grants =
    if_both (SameCandidate g) (not up) (λ _. refl)
      (λ _.
        if_both (SameCandidate g) (not (g.command == 0) && not (g.candidate_ip == 0))
          (λ _. if_both (SameCandidate g) grants (λ _. refl) (λ _. refl))
          (λ _.
            if_both (SameCandidate g) g.dhcp_pending
              (λ _. if_both (SameCandidate g) grants (λ _. refl) (λ _. refl)) (λ _. refl)))

happen-IsGuarded : (t : AddressTask) (e : Event) → IsGuarded t → IsGuarded (happen t e)
happen-IsGuarded t (round s) h = address_round-IsGuarded s t h
happen-IsGuarded t (frame bytes) h =
    subst (Guarded t.policy.phase t.policy.address) (sym (inspect-candidate t.guard bytes)) h
happen-IsGuarded t (serviced up grants) h =
    subst (Guarded t.policy.phase t.policy.address) (sym (service-candidate t.guard up grants)) h

pub happen_all-IsGuarded :
    (t : AddressTask) (events : List Event) → IsGuarded t → IsGuarded (happen_all t events)
happen_all-IsGuarded t [] h = h
happen_all-IsGuarded t (e ∷ events) h =
    happen_all-IsGuarded (happen t e) events (happen-IsGuarded t e h)

pub new_address_task-IsGuarded : (mac : Mac) → IsGuarded (new_address_task mac)
unfolding new_address_task new_policy
new_address_task-IsGuarded mac = tt
