-- ===== src/Net/Address.antt =====
-- src/net.rs: a round of `auto_address_task`, which joins the address policy, the ARP guard and the
-- stack. The state of the link and of the stack is an input.
pub mod Guarded
pub mod Claims
pub mod Tests
use pico_fi.ArpGuard
use pico_fi.ArpGuard.{
  ProbeState, take_dhcp_offer, clear_probe, set_candidate, request, request_dhcp_probe, is_pending,
  new_probe,
}
use pico_fi.AutoAddress.{
  AutoAddress, Action, nothing, clear, dhcp, candidate, probe, claim, announce, dhcp_probe, tick,
  dhcp_offered, new_policy,
}
use pico_fi.AutoAddress
use pico_fi.Prelude.{if◌then◌else◌, Ip, Mac, ℕ, ◌+◌, Bool, true, false}

-- What `set_config_v4` was called with last.
pub data ConfigV4 : Type 0 where
  config_none : ConfigV4
  config_dhcp : ConfigV4
  config_static : Ip → ConfigV4

pub record AddressTask : Type 0 where
  pub policy : AutoAddress
  pub guard : ProbeState
  pub config : ConfigV4
  pub peers_cleared : ℕ

-- The link, whether the stack has an address, and whether a session is up.
pub record Surroundings : Type 0 where
  pub now : ℕ
  pub link : Bool
  pub configured : Bool
  pub connected : Bool

unfoldable pub new_address_task : Mac → AddressTask
unfolding new_probe new_policy
new_address_task mac = record {
  policy = new_policy mac;
  guard = new_probe mac;
  config = config_dhcp;
  peers_cleared = 0;
}

unfoldable pub act : Action → AddressTask → AddressTask
act nothing t = t
act clear t = record t {
  guard = clear_probe t.guard;
  peers_cleared = t.peers_cleared + 1;
  config = config_none;
}
act dhcp t = record t {
  guard = clear_probe t.guard;
  peers_cleared = t.peers_cleared + 1;
  config = config_dhcp;
}
act (candidate ip) t = record t { guard = set_candidate t.guard ip }
act probe t = record t { guard = request t.guard false }
act (claim ip) t = record t { config = config_static ip }
act announce t = record t { guard = request t.guard true }
act (dhcp_probe xid) t = record t { guard = request_dhcp_probe t.guard xid }
act AutoAddress.stop_dhcp_probe t = record t { guard = ArpGuard.stop_dhcp_probe t.guard }

-- `policy.tick(..)` with what the guard says.
abbrev pub tick_task : Surroundings → AutoAddress → ProbeState → AutoAddress × Action
tick_task s p g = tick p (record {
  now = s.now;
  link = s.link;
  configured = s.configured;
  connected = s.connected;
  pending = is_pending g;
  conflict = g.conflict;
})

-- An offer first; the tick, if that asks for nothing.
abbrev pub or_tick : Surroundings → ProbeState → AutoAddress × Action → AutoAddress × Action
or_tick s g (p, nothing) = tick_task s p g
or_tick s g (p, action) = (p, action)

abbrev pub after_offer : Surroundings → AutoAddress → ProbeState × Bool → AutoAddress × Action
after_offer s p (g, offer) = or_tick s g (if offer then dhcp_offered p s.now else (p, nothing))

abbrev pub finish_round : ProbeState → AddressTask → AutoAddress × Action → AddressTask
finish_round g t (p, action) = act action (record t { policy = p; guard = g })

unfoldable pub address_round : Surroundings → AddressTask → AddressTask
unfolding act
address_round s t =
    let taken = take_dhcp_offer t.guard in finish_round taken.0 t (after_offer s t.policy taken)
