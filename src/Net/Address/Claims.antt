-- ===== src/Net/Address/Claims.antt =====
-- The addresses that the address task sets, and the candidate of the guard.
use pico_fi.Net.Address.Guarded.{
  Guarded, Event, happen_all, happen_all-IsGuarded, new_address_task-IsGuarded,
}
use pico_fi.AutoAddress.Probing.{tick_up, tick_no_link, no_claim_down}
use pico_fi.Net.Address.{
  act, AddressTask, Surroundings, finish_round, or_tick, address_round, new_address_task,
  config_static,
}
use pico_fi.ArpGuard.{ip_to_u32, ProbeState, take_dhcp_offer}
use pico_fi.AutoAddress.{
  AutoAddress, Action, Phase, Inputs, clear, dhcp, candidate, tick_phase, down, start_dhcp, in_dhcp,
  choose, probe_delay, probe_tx, claim_delay, online, tick_dhcp, tick_choose, tick_probe_tx,
  tick_claim, tick_online, tick_fallback, retry, dhcp_offered, tick, claim, is_fallback, dhcp_probe,
  is_before, nothing, probe, announce,
}
use pico_fi.AutoAddress
use pico_fi.AutoAddress.{is_fallback, is_before}
use pico_fi.AutoAddress
use pico_fi.Prelude.{
  if◌then◌else◌, Bool-cases, if_both, Ip, Mac, ℕ, ◌≡◌, sym, ap, ◌∙◌, ◌≢◌, inl, inr, Bool, true,
  false, ◌&&◌, List, arith,
}

-- What a claim tells.
abbrev Claimed : AutoAddress × Action → ℕ → Bool → Ip → Type 0
Claimed r c conflict ip = r.1 ≡ claim ip → (c ≡ ip_to_u32 ip) × (conflict ≡ false)

tick_phase-Claimed :
    (p : AutoAddress) (ph : Phase) (i : Inputs) (c : ℕ) (ip : Ip)
    → Guarded ph p.address c
    → Claimed (tick_phase p i ph) c i.conflict ip
unfolding tick_phase tick_dhcp tick_choose tick_probe_tx tick_claim tick_online tick_fallback retry
tick_phase-Claimed p down i c ip h e = absurd (ground arith)
tick_phase-Claimed p start_dhcp i c ip h e = absurd (ground arith)
tick_phase-Claimed p (in_dhcp until) i c ip h e = absurd (ground arith)
tick_phase-Claimed p (choose after) i c ip h e = absurd (ground arith)
tick_phase-Claimed p (probe_delay until sent) i c ip h e = absurd (ground arith)
tick_phase-Claimed p (probe_tx until sent) i c ip h e = absurd (ground arith)
tick_phase-Claimed p (claim_delay until) i c ip h e = ground arith
tick_phase-Claimed p (online fallback since at_time) i c ip h e = absurd (ground arith)

tick-Claimed :
    (p : AutoAddress) (i : Inputs) (c : ℕ) (ip : Ip)
    → Guarded p.phase p.address c
    → Claimed (tick p i) c i.conflict ip
tick-Claimed p i c ip h e = elim (Bool-cases i.link) [
  | inl up ↦ tick_phase-Claimed p p.phase i c ip h (ap (λ r. r.1) (sym (tick_up p i up)) ∙ e)
  | inr no_link ↦
      absurd (no_claim_down p p.phase ip (ap (λ r. r.1) (sym (tick_no_link p i no_link)) ∙ e))
]

-- What an offer asks for is never a claim, and what it leaves may claim only as before.
offer-Claimed :
    (s : Surroundings) (g : ProbeState) (p : AutoAddress) (offer : Bool) (ip : Ip)
    → Guarded p.phase p.address g.candidate_ip
    → Claimed
        (or_tick s g (if offer then dhcp_offered p s.now else (p, nothing)))
        g.candidate_ip
        g.conflict
        ip
unfolding dhcp_offered
offer-Claimed s g p false ip h e = tick-Claimed p _ g.candidate_ip ip h e
offer-Claimed s g p true ip h e =
    if_both (λ (r : AutoAddress × Action). Claimed (or_tick s g r) g.candidate_ip g.conflict ip)
      (is_fallback p.phase && is_before s.now p.dhcp_probe_until) (λ _ bad. absurd (ground arith))
      (λ _. tick-Claimed p _ g.candidate_ip ip h) e

-- A static address that is new was claimed in that round.
config-claim :
    (g : ProbeState) (t : AddressTask) (r : AutoAddress × Action) (ip : Ip)
    → (finish_round g t r).config ≡ config_static ip
    → t.config ≢ config_static ip
    → r.1 ≡ claim ip
unfolding act
config-claim g t (p, nothing) ip e new = absurd (new e)
config-claim g t (p, clear) ip e new = cc
config-claim g t (p, dhcp) ip e new = cc
config-claim g t (p, candidate a) ip e new = absurd (new e)
config-claim g t (p, probe) ip e new = absurd (new e)
config-claim g t (p, claim a) ip e new = cc
config-claim g t (p, announce) ip e new = absurd (new e)
config-claim g t (p, dhcp_probe xid) ip e new = absurd (new e)
config-claim g t (p, AutoAddress.stop_dhcp_probe) ip e new = absurd (new e)

-- Whatever rounds, received frames and calls of `service` came before since the start, a round that
-- gives the stack a static address which it did not have gives it the candidate of the guard, for
-- which the guard has seen no conflict.
pub address_round-candidate :
    (mac : Mac) (events : List Event) (s : Surroundings) (ip : Ip)
    → let t = happen_all (new_address_task mac) events in
      (address_round s t).config ≡ config_static ip
      → t.config ≢ config_static ip
      → (t.guard.candidate_ip ≡ ip_to_u32 ip) × (t.guard.conflict ≡ false)
unfolding address_round take_dhcp_offer
address_round-candidate mac events s ip e new =
    let t = happen_all (new_address_task mac) events in
    let g = record t.guard { dhcp_offer = false } in
    let r =
      or_tick s g
        (if t.guard.dhcp_offer then dhcp_offered t.policy s.now else (t.policy, nothing)) in
    offer-Claimed s g t.policy t.guard.dhcp_offer ip
      (happen_all-IsGuarded (new_address_task mac) events (new_address_task-IsGuarded mac))
      (config-claim g t r ip e new)
