-- ===== src/Config.antt =====
-- src/config.rs: the runtime configuration, its shell commands and their effect. The parsing of
-- command lines and the rendering stand in the child modules. `COMPILED_CONFIG` is generated by
-- the build, so what uses it takes it as an argument.
pub mod Parse
pub mod Render
pub mod Decimal
use pico_fi.Prelude.{if◌then◌else◌, bytes_eq, Ip, Mac, ip_bytes, ℕ, Bool, true, false}

pub record Ipv4Config : Type 0 where
  pub address : Ip
  pub prefix_len : ℕ
  pub gateway : Ip
  pub dns : Ip

pub data AddressMode : Type 0 where
  auto_mode : AddressMode
  dhcp_mode : AddressMode
  static_mode : Ipv4Config → AddressMode

pub data BridgeMode : Type 0 where
  tcp_client : Ip → ℕ → BridgeMode
  tcp_server : ℕ → BridgeMode

pub data UpstreamMode : Type 0 where
  uart i2c usb spi spi_echo spi_static spi_line_high test_mode : UpstreamMode

pub data UartPort : Type 0 where
  uart0 uart1 : UartPort

pub record BridgeConfig : Type 0 where
  pub discovery : Bool
  pub mac_address : Mac
  pub address_mode : AddressMode
  pub bridge_mode : BridgeMode
  pub upstream_mode : UpstreamMode
  pub uart_port : UartPort

pub data Command : Type 0 where
  help : Command
  show : Command
  start : Command
  set_dhcp : Command
  set_auto : Command
  set_discovery : Bool → Command
  set_static : Ipv4Config → Command
  set_client : Ip → ℕ → Command
  set_server : ℕ → Command
  set_upstream : UpstreamMode → Command
  reset : Command

abbrev pub zero_ip : Ip
zero_ip = record { a = 0; b = 0; c = 0; d = 0 }

-- The configuration afterwards, and whether startup begins now.
unfoldable pub apply_command : BridgeConfig → Command → BridgeConfig × Bool
apply_command config help = (config, false)
apply_command config show = (config, false)
apply_command config start = (config, true)
apply_command config set_auto = (record config { address_mode = auto_mode }, false)
apply_command config (set_discovery enabled) = (record config { discovery = enabled }, false)
apply_command config set_dhcp = (record config { address_mode = dhcp_mode }, false)
apply_command config (set_static ipv4) = (record config { address_mode = static_mode ipv4 }, false)
apply_command config (set_client host port) = (
  record config {
    bridge_mode = tcp_client host port;
    discovery = if bytes_eq (ip_bytes host) (ip_bytes zero_ip) then true else config.discovery;
  },
  false,
)
apply_command config (set_server port) = (record config { bridge_mode = tcp_server port }, false)
apply_command config (set_upstream mode) = (record config { upstream_mode = mode }, false)
apply_command config reset = (config, false)
