-- ===== src/AutoAddress/Session.antt =====
-- What interrupts a session, and how often the policy may probe and retry.
use pico_fi.AutoAddress.{
  AutoAddress, Inputs, Phase, candidate, tick_choose, tick, tick_phase, tick_online, dhcp_offered,
  probe_interval, retry, tick_down, choose, clear, probe_delay, online, tick_fallback, down,
  start_dhcp, is_fallback, probe_tx, dhcp, is_before, claim_delay, in_dhcp, nothing,
}
use pico_fi.AutoAddress.Probing.{tick_up, tick_no_link}
use pico_fi.Ipv4ll.{link_local_candidate}
use pico_fi.Prelude.{
  leb, ◌==◌, if◌then◌else◌, ℕ, zero, suc, ◌+◌, ◌%◌, ◌^◌, ◌≤◌, ◌<◌, min, ◌≡◌, refl, ap, ◌∙◌, ◌≢◌,
  ◌↔◌, Bool, true, false, ◌&&◌, Option, none, arith,
}

-- The phase is online, in the same mode.
abbrev pub IsOnline : Bool → Phase → Type 0
IsOnline fallback (online mode since at_time) = mode ≡ fallback
IsOnline fallback _ = ⊥

tick_online-keeps :
    (p : AutoAddress) (i : Inputs) (fallback : Bool) (since : ℕ) (at_time : Option (ℕ × ℕ))
    → i.configured ≡ true
    → i.connected ≡ true
    → (fallback && i.conflict) ≡ false
    → ((tick_online p i fallback since at_time).1 ≢ clear)
      × ((tick_online p i fallback since at_time).1 ≢ dhcp)
      × IsOnline fallback (tick_online p i fallback since at_time).0.phase
unfolding tick_online tick_fallback
tick_online-keeps p i fallback since at_time c s n = ground arith

-- While the link is up, the interface is configured and TCP is connected, no tick interrupts a session, be it on a
-- DHCP lease or, short of an address conflict, on a link-local address.
pub tick_keeps_session :
    (p : AutoAddress) (i : Inputs) {fallback : Bool} {since : ℕ} {at_time : Option (ℕ × ℕ)}
    → p.phase ≡ online fallback since at_time
    → i.link ≡ true
    → i.configured ≡ true
    → i.connected ≡ true
    → (fallback && i.conflict) ≡ false
    → ((tick p i).1 ≢ clear) × ((tick p i).1 ≢ dhcp) × IsOnline fallback (tick p i).0.phase
unfolding tick_phase tick_online
tick_keeps_session p i {fallback} {since} {at_time} e up c s n =
    rw (tick_up p i up ∙ ap (tick_phase p i) e) (tick_online-keeps p i fallback since at_time c s n)

-- A DHCP offer interrupts a session exactly when the session is on a link-local address and the
-- window of its DHCP probe is still open.
dhcp_offered-clear :
    (p : AutoAddress) (now : ℕ)
    → ((dhcp_offered p now).1 ≡ clear)
      ↔ ((is_fallback p.phase ≡ true) × (is_before now p.dhcp_probe_until ≡ true))
unfolding dhcp_offered
dhcp_offered-clear p now = ground arith

-- After an offer that interrupts, DHCP is acquired next, as a migration, and no probe is open.
pub dhcp_offered-migrating :
    (p : AutoAddress) (now : ℕ)
    → (dhcp_offered p now).1 ≡ clear
    → ((dhcp_offered p now).0.phase ≡ start_dhcp)
      × ((dhcp_offered p now).0.migrating ≡ true)
      × ((dhcp_offered p now).0.dhcp_probe_until ≡ none)
unfolding dhcp_offered
dhcp_offered-migrating p now e = ground arith

tick_down-phase :
    (p : AutoAddress) (ph : Phase)
    → p.phase ≡ ph
    → ((tick_down p ph).0.phase ≡ down)
      × ((tick_down p ph).1 ≡ nothing → p.phase ≡ down)
      × ((p.phase ≡ down → ⊥) → (tick_down p ph).1 ≡ clear)
unfolding tick_down
tick_down-phase p down e = (e, λ _. e, λ ne. absurd (ne e))
tick_down-phase p _ e = ground arith

-- Without a link the policy is down after the tick, and it says `clear` unless it was down before.
pub tick-no_link :
    (p : AutoAddress) (i : Inputs)
    → i.link ≡ false
    → ((tick p i).0.phase ≡ down)
      × ((tick p i).1 ≡ nothing → p.phase ≡ down)
      × ((p.phase ≡ down → ⊥) → (tick p i).1 ≡ clear)
tick-no_link p i e = rw (tick_no_link p i e) (tick_down-phase p p.phase refl)

backoff-bounds : (k : ℕ) → (1 ≤ 2 ^ min k 4) × (2 ^ min k 4 ≤ 16) × (0 < k → 2 ≤ 2 ^ min k 4)
backoff-bounds zero = omega arith
backoff-bounds (suc zero) = omega arith
backoff-bounds (suc (suc zero)) = omega arith
backoff-bounds (suc (suc (suc zero))) = omega arith
backoff-bounds (suc (suc (suc (suc k)))) =
    let e : min (suc (suc (suc (suc k)))) 4 ≡ 4 = omega arith in rw e (omega arith)

-- A link-local session asks for DHCP every 15 s to 241.02 s, and at most every 30 s once a
-- migration has failed.
pub probe_interval-bounds :
    (p : AutoAddress)
    → p.mac.f < 256
    → (15000 ≤ probe_interval p)
      × (probe_interval p ≤ 241020)
      × (0 < p.failed_migrations → 30000 ≤ probe_interval p)
unfolding probe_interval
probe_interval-bounds p h =
    let b = backoff-bounds p.failed_migrations in
    (omega (arith, b), omega (arith, b), λ f. omega (arith, b.2 f))

-- The phases in which a candidate is being probed.
abbrev pub IsProbing : Phase → Type 0
IsProbing (probe_delay until sent) = Unit
IsProbing (probe_tx until sent) = Unit
IsProbing (claim_delay until) = Unit
IsProbing _ = ⊥

conflict_retries :
    (p : AutoAddress) (ph : Phase) (i : Inputs)
    → IsProbing ph
    → i.conflict ≡ true
    → tick_phase p i ph ≡ retry p i.now
unfolding tick_phase
conflict_retries p (probe_delay until sent) i h c = rw c
conflict_retries p (probe_tx until sent) i h c = rw c
conflict_retries p (claim_delay until) i h c = rw c
conflict_retries p down i h c = elim h [ ]
conflict_retries p start_dhcp i h c = elim h [ ]
conflict_retries p (in_dhcp until) i h c = elim h [ ]
conflict_retries p (choose after) i h c = elim h [ ]
conflict_retries p (online fallback since at_time) i h c = elim h [ ]

-- How long the policy waits after a conflict: 60 s after every tenth candidate.
abbrev pub patience : ℕ → ℕ
patience attempt = if attempt % 10 == 0 then 60000 else 0

-- A conflict while a candidate is probed gives the candidate up at once, whatever its number; then,
-- while the link is up, nothing happens until 60 s have passed after every tenth candidate, and
-- without that wait after any other; and from then on a tick probes the next candidate.
pub conflict_waits :
    (p : AutoAddress) (i j : Inputs)
    → IsProbing p.phase
    → i.link ≡ true
    → i.conflict ≡ true
    → j.link ≡ true
    → ((tick p i).1 ≡ clear)
      × (tick (tick p i).0 j ≡ (
          if leb (i.now + patience p.attempt) j.now
          then tick_choose (tick p i).0 j
          else ((tick p i).0, nothing)))
      × ((tick_choose (tick p i).0 j).1 ≡ candidate (link_local_candidate p.mac p.attempt))
unfolding retry tick_choose tick_phase
conflict_waits p i j probing up c up' =
    let given_up : tick p i ≡ (record p { phase = choose (i.now + patience p.attempt) }, clear) =
      tick_up p i up ∙ conflict_retries p p.phase i probing c in
    rw given_up (refl, tick_up _ j up', refl)
