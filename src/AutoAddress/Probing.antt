-- ===== src/AutoAddress/Probing.antt =====
-- An address is claimed only after it was probed: a monitor watches the ticks and their actions.
use mathlib.Core.Path.{subst}
use pico_fi.AutoAddress.{
  AutoAddress, Inputs, Action, Phase, tick, dhcp_offered, tick_phase, candidate, probe_delay,
  probe_tx, clear, tick_dhcp, probe, claim_delay, tick_choose, tick_probe_tx, tick_claim,
  tick_online, tick_fallback, retry, in_dhcp, choose, online, down, start_dhcp, new_policy, claim,
  tick_down, is_fallback, is_before,
}
use pico_fi.Prelude.{
  if◌then◌else◌, Bool-cases, Ip, Mac, ℕ, ◌+◌, ◌<◌, ◌≡◌, refl, sym, ap, ◌∙◌, ◌≢◌, inl, inr, Bool,
  true, false, not, ◌&&◌, List, [], ◌∷◌, arith,
}

-- What was seen since a candidate was chosen: how many probes went out, and whether one waits for
-- its transmission. A conflict or a `clear` ends the watch.
pub data Watch : Type 0 where
  idle : Watch
  watching : Ip → ℕ → Bool → Watch

-- A probe counts as transmitted at the first tick that finds no transmission pending.
abbrev pub transmitted : Bool → Watch → Watch
transmitted pending idle = idle
transmitted pending (watching ip n waiting) =
    if waiting && not pending then watching ip (n + 1) false else watching ip n waiting

-- A conflict ends the watch of an earlier candidate.
abbrev pub before_action : Inputs → Watch → Watch
before_action i w = if i.conflict then idle else transmitted i.pending w

abbrev pub after_action : Action → Watch → Watch
after_action clear w = idle
after_action (candidate ip) w = watching ip 0 false
after_action probe (watching ip n waiting) = watching ip n true
after_action probe idle = idle
after_action _ w = w

pub data Event : Type 0 where
  ticked : Inputs → Event
  offered : ℕ → Event

abbrev pub observe : AutoAddress × Watch → Event → AutoAddress × Watch
observe (p, w) (ticked i) = ((tick p i).0, after_action (tick p i).1 (before_action i w))
observe (p, w) (offered now) = ((dhcp_offered p now).0, after_action (dhcp_offered p now).1 w)

abbrev pub observe_all : AutoAddress × Watch → List Event → AutoAddress × Watch
observe_all s [] = s
observe_all s (e ∷ es) = observe_all (observe s e) es

-- What the phase knows of the watch.
abbrev pub Watched : Phase → Ip → Watch → Type 0
Watched (probe_delay until sent) ip w = (w ≡ watching ip sent false) × (sent < 3)
Watched (probe_tx until sent) ip w = (w ≡ watching ip sent true) × (sent < 3)
Watched (claim_delay until) ip w = w ≡ watching ip 3 false
Watched _ ip w = Unit

abbrev Tracks : AutoAddress × Watch → Type 0
Tracks (p, w) = Watched p.phase p.address w

tick-Tracks :
    (p : AutoAddress) (ph : Phase) (w : Watch) (i : Inputs)
    → p.phase ≡ ph
    → Watched ph p.address w
    → Tracks ((tick_phase p i ph).0, after_action (tick_phase p i ph).1 (before_action i w))
unfolding tick_phase tick_dhcp tick_choose tick_probe_tx tick_claim tick_online tick_fallback retry
tick-Tracks p down w i e h = tt
tick-Tracks p start_dhcp w i e h = tt
tick-Tracks p (in_dhcp until) w i e h = ground arith
tick-Tracks p (choose after) w i e h = ground arith
tick-Tracks p (probe_delay until sent) w i e h = ground arith
tick-Tracks p (probe_tx until sent) w i e h = ground arith
tick-Tracks p (claim_delay until) w i e h = ground arith
tick-Tracks p (online fallback since at_time) w i e h = ground arith

tick_down-Tracks :
    (p : AutoAddress) (ph : Phase) (w : Watch) (i : Inputs)
    → p.phase ≡ ph
    → Tracks ((tick_down p ph).0, after_action (tick_down p ph).1 (before_action i w))
unfolding tick_down
tick_down-Tracks p down w i e = subst (λ ph. Watched ph p.address (before_action i w)) (sym e) tt
tick_down-Tracks p _ w i e = tt

pub tick_up : (p : AutoAddress) (i : Inputs) → i.link ≡ true → tick p i ≡ tick_phase p i p.phase
unfolding tick
tick_up p i h = rw h

pub tick_no_link : (p : AutoAddress) (i : Inputs) → i.link ≡ false → tick p i ≡ tick_down p p.phase
unfolding tick
tick_no_link p i h = rw h

offered-Tracks :
    (p : AutoAddress) (w : Watch) (now : ℕ)
    → Watched p.phase p.address w
    → Tracks ((dhcp_offered p now).0, after_action (dhcp_offered p now).1 w)
unfolding dhcp_offered
offered-Tracks p w now h =
    elim (Bool-cases (is_fallback p.phase && is_before now p.dhcp_probe_until)) [
      | inl migrates ↦ rw migrates tt
      | inr stays ↦ rw stays h
    ]

observe-Tracks : (s : AutoAddress × Watch) (e : Event) → Tracks s → Tracks (observe s e)
observe-Tracks (p, w) (ticked i) h = elim (Bool-cases i.link) [
  | inl up ↦ rw (tick_up p i up) (tick-Tracks p p.phase w i refl h)
  | inr down_link ↦ rw (tick_no_link p i down_link) (tick_down-Tracks p p.phase w i refl)
]
observe-Tracks (p, w) (offered now) h = offered-Tracks p w now h

observe_all-Tracks :
    (es : List Event) (s : AutoAddress × Watch) → Tracks s → Tracks (observe_all s es)
observe_all-Tracks [] s h = h
observe_all-Tracks (e ∷ es) s h = observe_all-Tracks es (observe s e) (observe-Tracks s e h)

claim_phase :
    (p : AutoAddress) (ph : Phase) (i : Inputs) (ip : Ip) (w : Watch)
    → Watched ph p.address w
    → (tick_phase p i ph).1 ≡ claim ip
    → (w ≡ watching ip 3 false) × (i.conflict ≡ false)
unfolding tick_phase tick_dhcp tick_choose tick_probe_tx tick_claim tick_online tick_fallback retry
claim_phase p down i ip w h e = absurd (ground arith)
claim_phase p start_dhcp i ip w h e = absurd (ground arith)
claim_phase p (in_dhcp until) i ip w h e = absurd (ground arith)
claim_phase p (choose after) i ip w h e = absurd (ground arith)
claim_phase p (probe_delay until sent) i ip w h e = absurd (ground arith)
claim_phase p (probe_tx until sent) i ip w h e = absurd (ground arith)
claim_phase p (claim_delay until) i ip w h e = ground arith
claim_phase p (online fallback since at_time) i ip w h e = absurd (ground arith)

pub no_claim_down : (p : AutoAddress) (ph : Phase) (ip : Ip) → (tick_down p ph).1 ≢ claim ip
unfolding tick_down
no_claim_down p down ip e = absurd (ground arith)
no_claim_down p _ ip e = absurd (ground arith)

-- After any sequence of ticks and of DHCP offers, the policy claims an address only while the link
-- is up, with no conflict reported at that tick, and when since that address was chosen exactly
-- three probes for it were sent, each of them was transmitted, and no conflict and no `clear` came
-- in between.
pub claim-watching :
    (mac : Mac) (es : List Event) (i : Inputs) (ip : Ip)
    → let (p, w) = observe_all (new_policy mac, idle) es in
      (tick p i).1 ≡ claim ip → (w ≡ watching ip 3 false) × (i.conflict ≡ false) × (i.link ≡ true)
claim-watching mac es i ip e = elim (Bool-cases i.link) [
  | inl up ↦
      let (seen, calm) =
        claim_phase s.0 s.0.phase i ip s.1 tracks (ap (λ r. r.1) (sym (tick_up s.0 i up)) ∙ e) in
      (seen, calm, up)
  | inr no_link ↦
      absurd (no_claim_down s.0 s.0.phase ip (ap (λ r. r.1) (sym (tick_no_link s.0 i no_link)) ∙ e))
]
  where
    s : AutoAddress × Watch
    s = observe_all (new_policy mac, idle) es

    tracks : Watched s.0.phase s.0.address s.1
    tracks = observe_all-Tracks es (new_policy mac, idle) (unfold new_policy in tt)
