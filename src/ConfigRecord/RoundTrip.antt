-- ===== src/ConfigRecord/RoundTrip.antt =====
-- What is written to flash is read back.
use pico_fi.Config.{
  AddressMode, BridgeMode, UpstreamMode, UartPort, BridgeConfig, uart0, tcp_client, uart, uart1,
  tcp_server, dhcp_mode, static_mode, auto_mode,
}
use pico_fi.ConfigRecord.{
  encode_record, decode_record, checksum32, mix_bytes, mix_byte, decode_upstream, decode_uart,
  encode_uart_port, encode_upstream_mode,
}
use pico_fi.Prelude.{
  ◌==◌, if◌then◌else◌, ==_self, Bytes, bytes_eq, from_le16, from_le32, Mac, ℕ, ◌/◌, ◌%◌, ◌^◌, ◌<◌,
  ◌≡◌, refl, Bool, true, false, some, [], ◌∷◌, arith,
}

pub mix_bytes-lt : (bytes : Bytes) (hash : ℕ) → hash < 2 ^ 32 → mix_bytes hash bytes < 2 ^ 32
unfolding mix_bytes mix_byte
mix_bytes-lt [] hash h = h
mix_bytes-lt (b ∷ bs) hash h = mix_bytes-lt bs _ (omega arith)

pub checksum32-lt : (bytes : Bytes) → checksum32 bytes < 2 ^ 32
unfolding checksum32
checksum32-lt bytes = mix_bytes-lt bytes 0x811c9dc5 (omega arith)

pub from_le32-le32 :
    (n : ℕ)
    → n < 2 ^ 32
    → from_le32 (n % 256) (n / 256 % 256) (n / 65536 % 256) (n / 16777216 % 256) ≡ n
from_le32-le32 n h = omega arith

decode-encode_upstream : (m : UpstreamMode) → decode_upstream (encode_upstream_mode m) ≡ some m
unfolding decode_upstream
decode-encode_upstream uart = refl
decode-encode_upstream _ = refl

decode-encode_uart : (p : UartPort) → decode_uart (encode_uart_port p) ≡ some p
unfolding decode_uart
decode-encode_uart uart0 = refl
decode-encode_uart uart1 = refl

-- Ports are u16.
abbrev pub port_of : BridgeMode → ℕ
port_of (tcp_client host port) = port
port_of (tcp_server port) = port

pub from_le16-le16 : (n : ℕ) → n < 2 ^ 16 → from_le16 (n % 256) (n / 256 % 256) ≡ n
from_le16-le16 n h = omega arith

abbrev pub configured :
    Bool → Mac → AddressMode → BridgeMode → UpstreamMode → UartPort → BridgeConfig
configured d mac address bridge up port = record {
  discovery = d;
  mac_address = mac;
  address_mode = address;
  bridge_mode = bridge;
  upstream_mode = up;
  uart_port = port;
}

flag-byte : (d : Bool) → ((if d then 0xa5 else 0) == 0xa5) ≡ d
flag-byte true = refl
flag-byte false = refl

round_trip :
    (d : Bool) (mac : Mac) (address : AddressMode) (bridge : BridgeMode) (up : UpstreamMode)
    (port : UartPort)
    → port_of bridge < 2 ^ 16
    → decode_record (encode_record (configured d mac address bridge up port))
      ≡ some (configured d mac address bridge up port)
unfolding decode_record encode_record bytes_eq
round_trip d mac dhcp_mode (tcp_client host p) up port h = rw (
  from_le32-le32 (checksum32 _) (checksum32-lt _),
  ==_self,
  decode-encode_upstream,
  decode-encode_uart,
  from_le16-le16 p h,
  flag-byte d,
)
round_trip d mac dhcp_mode (tcp_server p) up port h = rw (
  from_le32-le32 (checksum32 _) (checksum32-lt _),
  ==_self,
  decode-encode_upstream,
  decode-encode_uart,
  from_le16-le16 p h,
  flag-byte d,
)
round_trip d mac auto_mode (tcp_client host p) up port h = rw (
  from_le32-le32 (checksum32 _) (checksum32-lt _),
  ==_self,
  decode-encode_upstream,
  decode-encode_uart,
  from_le16-le16 p h,
  flag-byte d,
)
round_trip d mac auto_mode (tcp_server p) up port h = rw (
  from_le32-le32 (checksum32 _) (checksum32-lt _),
  ==_self,
  decode-encode_upstream,
  decode-encode_uart,
  from_le16-le16 p h,
  flag-byte d,
)
round_trip d mac (static_mode ipv4) (tcp_client host p) up port h = rw (
  from_le32-le32 (checksum32 _) (checksum32-lt _),
  ==_self,
  decode-encode_upstream,
  decode-encode_uart,
  from_le16-le16 p h,
  flag-byte d,
)
round_trip d mac (static_mode ipv4) (tcp_server p) up port h = rw (
  from_le32-le32 (checksum32 _) (checksum32-lt _),
  ==_self,
  decode-encode_upstream,
  decode-encode_uart,
  from_le16-le16 p h,
  flag-byte d,
)

-- `decode_record` reads back every configuration that `encode_record` writes, where the port is a
-- u16.
pub decode_record-encode_record :
    (config : BridgeConfig)
    → port_of config.bridge_mode < 2 ^ 16
    → decode_record (encode_record config) ≡ some config
decode_record-encode_record config h =
    round_trip config.discovery config.mac_address config.address_mode config.bridge_mode
      config.upstream_mode config.uart_port h
