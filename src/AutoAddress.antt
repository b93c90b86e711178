-- ===== src/AutoAddress.antt =====
-- src/protocol/auto_address.rs: the policy that runs DHCP, probes a link-local address and
-- migrates back. Times are milliseconds in a u64, which no uptime brings near its end, and are
-- plain numbers here; the u8 and u32 counters saturate and wrap as in the source.
pub mod Probing
pub mod Session
pub mod Tests
use pico_fi.Ipv4ll.{link_local_candidate}
use pico_fi.Prelude.{
  ltb, leb, ◌==◌, if◌then◌else◌, at, from_le32, Ip, Mac, ℕ, ◌+◌, ◌-◌, ◌*◌, ◌%◌, ◌^◌, min, max,
  bit_xor, Bool, true, false, not, ◌&&◌, ◌||◌, Option, none, some,
}

pub data Action : Type 0 where
  nothing : Action
  clear : Action
  dhcp : Action
  candidate : Ip → Action
  probe : Action
  claim : Ip → Action
  announce : Action
  dhcp_probe : ℕ → Action
  stop_dhcp_probe : Action

pub data Phase : Type 0 where
  down : Phase
  start_dhcp : Phase
  in_dhcp : ℕ → Phase
  choose : ℕ → Phase
  probe_delay : ℕ → ℕ → Phase
  probe_tx : ℕ → ℕ → Phase
  claim_delay : ℕ → Phase
  online : Bool → ℕ → Option (ℕ × ℕ) → Phase

pub record AutoAddress : Type 0 where
  pub mac : Mac
  pub phase : Phase
  pub attempt : ℕ
  pub address : Ip
  pub next_dhcp_probe : ℕ
  pub dhcp_probe_until : Option ℕ
  pub migrating : Bool
  pub failed_migrations : ℕ

-- The arguments of `tick`.
pub record Inputs : Type 0 where
  pub now : ℕ
  pub link : Bool
  pub configured : Bool
  pub connected : Bool
  pub pending : Bool
  pub conflict : Bool

unfoldable pub new_policy : Mac → AutoAddress
new_policy mac = record {
  mac = mac;
  phase = down;
  attempt = 0;
  address = record { a = 0; b = 0; c = 0; d = 0 };
  next_dhcp_probe = 0;
  dhcp_probe_until = none;
  migrating = false;
  failed_migrations = 0;
}

-- `option.is_some_and(|until| now < until)` and `now >= until`
abbrev pub is_before : ℕ → Option ℕ → Bool
is_before now none = false
is_before now (some until) = ltb now until

abbrev pub is_due : ℕ → Option ℕ → Bool
is_due now none = false
is_due now (some until) = leb until now

abbrev pub is_none : Option ℕ → Bool
is_none none = true
is_none (some x) = false

-- `matches!(phase, Phase::Online { fallback: true, .. })`
abbrev pub is_fallback : Phase → Bool
is_fallback (online fallback since at) = fallback
is_fallback _ = false

unfoldable pub dhcp_offered : AutoAddress → ℕ → AutoAddress × Action
dhcp_offered p now =
    if is_fallback p.phase && is_before now p.dhcp_probe_until
    then (record p { dhcp_probe_until = none; migrating = true; phase = start_dhcp }, clear)
    else (p, nothing)

unfoldable pub probe_interval : AutoAddress → ℕ
probe_interval p = 15000 * 2 ^ min p.failed_migrations 4 + p.mac.f * 4

unfoldable pub retry : AutoAddress → ℕ → AutoAddress × Action
retry p now =
    (record p { phase = choose (now + (if p.attempt % 10 == 0 then 60000 else 0)) }, clear)

abbrev pub u8_saturating_add_one : ℕ → ℕ
u8_saturating_add_one n = min 255 (n + 1)

unfoldable pub tick_dhcp : AutoAddress → Inputs → ℕ → AutoAddress × Action
tick_dhcp p i until =
    if i.configured
    then (
      record p { migrating = false; failed_migrations = 0; phase = online false i.now none },
      nothing,
    )
    else if leb until i.now
    then (
      record p {
        failed_migrations =
            if p.migrating then u8_saturating_add_one p.failed_migrations else p.failed_migrations;
        migrating = false;
        phase = choose i.now;
      },
      clear,
    )
    else (p, nothing)

unfoldable pub tick_choose : AutoAddress → Inputs → AutoAddress × Action
tick_choose p i =
    let ip = link_local_candidate p.mac p.attempt in
    (
      record p {
        address = ip;
        attempt = (p.attempt + 1) % 2 ^ 32;
        phase = probe_delay (i.now + p.mac.f * 3) 0;
      },
      candidate ip,
    )

unfoldable pub tick_probe_tx : AutoAddress → Inputs → ℕ → ℕ → AutoAddress × Action
tick_probe_tx p i until sent =
    if not i.pending
    then (
      record p {
        phase =
            if sent + 1 == 3
            then claim_delay (i.now + 3000 + p.mac.e)
            else probe_delay (i.now + 1000 + p.mac.e) (sent + 1);
      },
      nothing,
    )
    else if leb until i.now
    then retry p i.now
    else (p, nothing)

unfoldable pub tick_claim : AutoAddress → Inputs → AutoAddress × Action
tick_claim p i = (
  record p {
    next_dhcp_probe = i.now + probe_interval p;
    dhcp_probe_until = none;
    phase = online true i.now (some (i.now, 2));
  },
  claim p.address,
)

-- `if let Some((at, remaining)) = announce_at && now >= at && !pending`
abbrev pub announce_due : Inputs → Option (ℕ × ℕ) → Bool
announce_due i none = false
announce_due i (some (at_time, remaining)) = leb at_time i.now && not i.pending

-- `(remaining > 1).then_some((now + 2000, remaining - 1))`
abbrev pub next_announce : Inputs → Option (ℕ × ℕ) → Option (ℕ × ℕ)
next_announce i none = none
next_announce i (some (at_time, remaining)) =
    if ltb 1 remaining then some (i.now + 2000, remaining - 1) else none

-- `(now as u32).wrapping_mul(1664525) ^ u32::from_be_bytes(mac[2..6])`, at least 1
unfoldable pub transaction_id : Mac → ℕ → ℕ
transaction_id mac now =
    max (bit_xor (now % 2 ^ 32 * 1664525 % 2 ^ 32) (from_le32 mac.f mac.e mac.d mac.c)) 1

-- The DHCP probes of a healthy link-local session.
unfoldable pub tick_fallback : AutoAddress → Inputs → AutoAddress × Action
tick_fallback p i =
    if is_due i.now p.dhcp_probe_until
    then (record p { dhcp_probe_until = none }, stop_dhcp_probe)
    else if is_none p.dhcp_probe_until && leb p.next_dhcp_probe i.now && not i.pending
    then (
      record p {
        next_dhcp_probe = i.now + probe_interval p;
        dhcp_probe_until = some (i.now + 4000);
      },
      dhcp_probe (transaction_id p.mac i.now),
    )
    else (p, nothing)

unfoldable pub tick_online : AutoAddress → Inputs → Bool → ℕ → Option (ℕ × ℕ) → AutoAddress × Action
tick_online p i fallback since announce_at =
    let idle_since = if i.connected then i.now else since in
    let kept = record p { phase = online fallback idle_since announce_at } in
    if (fallback && i.conflict) || not i.configured
    then (record p { phase = start_dhcp }, clear)
    else if fallback && leb 60000 (i.now - idle_since)
    then (record p { phase = start_dhcp }, clear)
    else if announce_due i announce_at
    then (record p { phase = online fallback idle_since (next_announce i announce_at) }, announce)
    else if fallback
    then tick_fallback kept i
    else (kept, nothing)

-- The match on the phase, with the link up.
unfoldable pub tick_phase : AutoAddress → Inputs → Phase → AutoAddress × Action
tick_phase p i down = (record p { dhcp_probe_until = none; phase = in_dhcp (i.now + 10000) }, dhcp)
tick_phase p i start_dhcp =
    (record p { dhcp_probe_until = none; phase = in_dhcp (i.now + 10000) }, dhcp)
tick_phase p i (in_dhcp until) = tick_dhcp p i until
tick_phase p i (choose after) = if leb after i.now then tick_choose p i else (p, nothing)
tick_phase p i (probe_delay until sent) =
    if i.conflict
    then retry p i.now
    else if leb until i.now
    then (record p { phase = probe_tx (i.now + 2000) sent }, probe)
    else (p, nothing)
tick_phase p i (probe_tx until sent) =
    if i.conflict then retry p i.now else tick_probe_tx p i until sent
tick_phase p i (claim_delay until) =
    if i.conflict then retry p i.now else if leb until i.now then tick_claim p i else (p, nothing)
tick_phase p i (online fallback since announce_at) = tick_online p i fallback since announce_at

-- With the link down: `!matches!(self.phase, Phase::Down)`
unfoldable pub tick_down : AutoAddress → Phase → AutoAddress × Action
tick_down p down = (p, nothing)
tick_down p _ = (record p { phase = down }, clear)

unfoldable pub tick : AutoAddress → Inputs → AutoAddress × Action
unfolding tick_phase tick_down tick_dhcp tick_choose tick_probe_tx tick_claim tick_online
    tick_fallback retry
tick p i = if i.link then tick_phase p i p.phase else tick_down p p.phase
